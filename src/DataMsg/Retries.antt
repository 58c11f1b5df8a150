-- ===== src/DataMsg/Retries.antt =====
-- How often data_msg/src/MpMsgTransport.cpp sends a message, and how often it reports it.
use end_to_end_smkex.Base.{
  ℕ, zero, suc, ◌+◌, ◌≤◌, ◌≡◌, refl, ap, ◌∙◌, true, false, List, [], ◌∷◌, ◌++◌, ℤ, pos, length,
  arith, Bool-cases, inl, inr,
}
use end_to_end_smkex.Utils.{MpStatus, is_message_sent}
use end_to_end_smkex.AutoResend.Payload.{MpMsgPayload}
use end_to_end_smkex.DataMsg.Transport.{
  Event, sip_message, reported, MpMsgTransport, send_current, send_message, finish,
  on_send_msg_done,
}

-- The calls of `sendMsg`, and the reports, among the events.
unfoldable pub sip_count : List Event → ℕ
sip_count [] = 0
sip_count (sip_message serial p ∷ es) = suc (sip_count es)
sip_count (reported m status ∷ es) = sip_count es

unfoldable pub report_count : List Event → ℕ
report_count [] = 0
report_count (sip_message serial p ∷ es) = report_count es
report_count (reported m status ∷ es) = suc (report_count es)

sip_count-append : (es fs : List Event) → sip_count (es ++ fs) ≡ sip_count es + sip_count fs
unfolding sip_count
sip_count-append [] fs = omega arith
sip_count-append (sip_message serial p ∷ es) fs = omega (arith, sip_count-append es fs)
sip_count-append (reported m status ∷ es) fs = sip_count-append es fs

report_count-append :
    (es fs : List Event) → report_count (es ++ fs) ≡ report_count es + report_count fs
unfolding report_count
report_count-append [] fs = omega arith
report_count-append (sip_message serial p ∷ es) fs = report_count-append es fs
report_count-append (reported m status ∷ es) fs = omega (arith, report_count-append es fs)

-- `onSendMsgDone` once for each status.
unfoldable pub on_all_done : List MpStatus → MpMsgTransport → MpMsgTransport
on_all_done [] t = t
on_all_done (s ∷ ss) t = on_all_done ss (on_send_msg_done s t)

-- A message whose transfer has ended stays ended.
ended :
    (ss : List MpStatus) (t : MpMsgTransport)
    → t.msg.number_of_retries ≡ pos 0
    → on_all_done ss t ≡ t
unfolding on_all_done on_send_msg_done
ended [] t e = refl
ended (s ∷ ss) t e = ground (arith, ended ss t e, e)

-- What the callbacks add to the events of a transfer with `n` more sends to go.
record Tried (n k : ℕ) (t t' : MpMsgTransport) : Type 0 where
  few : sip_count t'.events ≤ sip_count t.events + n
  at_most_once : report_count t'.events ≤ suc (report_count t.events)
  once : suc n ≤ k → report_count t'.events ≡ suc (report_count t.events)

finish-counts :
    (s : MpStatus) (t : MpMsgTransport)
    → t.msg_notif ≡ true
    → ((finish s t).msg.number_of_retries ≡ pos 0)
      × (sip_count (finish s t).events ≡ sip_count t.events)
      × (report_count (finish s t).events ≡ suc (report_count t.events))
unfolding finish sip_count report_count
finish-counts s t h =
    let spent = record t.msg { number_of_retries = pos 0 } in
    ground (
      arith,
      h,
      sip_count-append t.events (reported spent s ∷ []),
      report_count-append t.events (reported spent s ∷ []),
    )

send_current-counts :
    (t : MpMsgTransport)
    → (sip_count (send_current t).events ≡ suc (sip_count t.events))
      × (report_count (send_current t).events ≡ report_count t.events)
unfolding send_current sip_count report_count
send_current-counts t =
    let e = sip_message t.msg.user_serial t.msg.payload in
    (
      omega (arith, sip_count-append t.events (e ∷ [])),
      omega (arith, report_count-append t.events (e ∷ [])),
    )

-- The transfer ends with this status.
finish-Tried :
    (s : MpStatus) (ss : List MpStatus) (n k : ℕ) (z : ℤ) (t : MpMsgTransport)
    → t.msg_notif ≡ true
    → on_send_msg_done s t ≡ finish s (record t { counter = z })
    → Tried n k t (on_all_done ss (on_send_msg_done s t))
finish-Tried s ss n k z t h e =
    let (over, sends, reports) = finish-counts s (record t { counter = z }) h in
    let last : on_all_done ss (on_send_msg_done s t) ≡ finish s (record t { counter = z }) =
      ap (on_all_done ss) e ∙ ended ss (finish s (record t { counter = z })) over in
    record {
      few = omega (arith, ap (λ u. sip_count u.events) last, sends);
      at_most_once = omega (arith, ap (λ u. report_count u.events) last, reports);
      once = λ enough. ap (λ u. report_count u.events) last ∙ reports;
    }

module _ (s : MpStatus) (n r : ℕ) (t : MpMsgTransport)
    (running : t.msg.number_of_retries ≡ pos (suc r)) where
  stops : t.counter ≡ pos 1 → on_send_msg_done s t ≡ finish s (record t { counter = pos 0 })
  unfolding on_send_msg_done
  stops c = ground (arith, running, c)

  arrives :
      is_message_sent s ≡ true
      → t.counter ≡ pos (suc n)
      → on_send_msg_done s t ≡ finish s (record t { counter = pos n })
  unfolding on_send_msg_done
  arrives sent c = ground (arith, running, c, sent)

  again :
      is_message_sent s ≡ false
      → t.counter ≡ pos (suc (suc n))
      → on_send_msg_done s t ≡ send_current (record t { counter = pos (suc n) })
  unfolding on_send_msg_done
  again failed c = ground (arith, running, c, failed)

send_current-kept :
    (t : MpMsgTransport)
    → ((send_current t).msg_notif ≡ t.msg_notif)
      × ((send_current t).counter ≡ t.counter)
      × ((send_current t).msg ≡ t.msg)
unfolding send_current
send_current-kept t = (refl, refl, refl)

on_all_done-Tried :
    (ss : List MpStatus) (n r : ℕ) (t : MpMsgTransport)
    → t.msg_notif ≡ true
    → t.counter ≡ pos (suc n)
    → t.msg.number_of_retries ≡ pos (suc r)
    → Tried n (length ss) t (on_all_done ss t)
unfolding on_all_done
on_all_done-Tried [] n r t h c m = record {
  few = omega arith;
  at_most_once = omega arith;
  once = λ k. absurd (omega (arith, k));
}
on_all_done-Tried (s ∷ ss) zero r t h c m =
    finish-Tried s ss 0 (suc (length ss)) (pos 0) t h (stops s 0 r t m c)
on_all_done-Tried (s ∷ ss) (suc n) r t h c m = elim (Bool-cases (is_message_sent s)) [
  | inl sent ↦
      finish-Tried s ss (suc n) (suc (length ss)) (pos (suc n)) t h (arrives s (suc n) r t m sent c)
  | inr failed ↦
      let t₀ = record t { counter = pos (suc n) } in
      let step = again s n r t m failed c in
      let (notif, counter, msg) = send_current-kept t₀ in
      let (sends, reports) = send_current-counts t₀ in
      let rest =
        on_all_done-Tried ss n r (send_current t₀) (notif ∙ h) counter
          (ap (λ x. x.number_of_retries) msg ∙ m) in
      let same = ap (on_all_done ss) step in
      record {
        few = omega (arith, ap (λ u. sip_count u.events) same, rest.few, sends);
        at_most_once =
            omega (arith, ap (λ u. report_count u.events) same, rest.at_most_once, reports);
        once = λ enough. omega (
          arith,
          ap (λ u. report_count u.events) same,
          rest.once (omega (arith, enough)),
          reports,
        );
      }
]

send_message-started :
    (m : MpMsgPayload) (n : ℕ) (t : MpMsgTransport)
    → m.number_of_retries ≡ pos (suc n)
    → send_message m t ≡ send_current (record t { msg = m; counter = m.number_of_retries })
unfolding send_message
send_message-started m n t e = ground (arith, e)

module _ (m : MpMsgPayload) (n : ℕ) (statuses : List MpStatus) (t : MpMsgTransport)
    (notifies : t.msg_notif ≡ true) (retries : m.number_of_retries ≡ pos (suc n)) where
  -- What the transfer of a message adds, its first send included.
  tries :
      (sip_count (on_all_done statuses (send_message m t)).events ≤ sip_count t.events + suc n)
      × (report_count (on_all_done statuses (send_message m t)).events
          ≤ suc (report_count t.events))
      × (suc n ≤ length statuses
          → report_count (on_all_done statuses (send_message m t)).events
            ≡ suc (report_count t.events))
  tries =
      let t₀ = record t { msg = m; counter = m.number_of_retries } in
      let (notif, counter, msg) = send_current-kept t₀ in
      let (sends, reports) = send_current-counts t₀ in
      let tried =
        on_all_done-Tried statuses n n (send_current t₀) (notif ∙ notifies) (counter ∙ retries)
          (ap (λ x. x.number_of_retries) msg ∙ retries) in
      let same = ap (on_all_done statuses) (send_message-started m n t retries) in
      (
        omega (arith, ap (λ u. sip_count u.events) same, tried.few, sends),
        omega (arith, ap (λ u. report_count u.events) same, tried.at_most_once, reports),
        λ enough. omega (arith, ap (λ u. report_count u.events) same, tried.once enough, reports),
      )

  -- A message with `n + 1` retries, given to a transport with a notifier, is sent at most `n + 1`
  -- times and reported at most once, whatever statuses the stack reports for it.
  pub send_message-tries :
      (sip_count (on_all_done statuses (send_message m t)).events ≤ sip_count t.events + suc n)
      × (report_count (on_all_done statuses (send_message m t)).events
          ≤ suc (report_count t.events))
  send_message-tries = (tries.0, tries.1)

  -- A message with `n + 1` retries, given to a transport with a notifier, has been reported exactly
  -- once after `n + 1` statuses of the stack or more, whatever they are.
  pub send_message-reported :
      suc n ≤ length statuses
      → report_count (on_all_done statuses (send_message m t)).events ≡ suc (report_count t.events)
  send_message-reported enough = tries.2 enough
