-- ===== src/Messaging/Tests.antt =====
-- The joined services at concrete inputs.
use end_to_end_smkex.Base
use end_to_end_smkex.Base.{
  ℕ, ◌+◌, ◌≤◌, ◌≡◌, refl, sym, ap, subst, ◌∙◌, Bool, true, false, List, [], ◌∷◌, Option, none, some,
  All, MpString, ℤ, pos, str_eq, str_eq_iff, find, done, arith, Bool-cases, inl, inr,
}
use end_to_end_smkex.AutoResend.Payload.{MpMsgPayload, message}
use end_to_end_smkex.AutoResend.Pool.{MpMsgPool, has_uid}
use end_to_end_smkex.AutoResend.Engine.{MpAutoResendEngine}
use end_to_end_smkex.AutoResend.Engine.Sift.{count}
use end_to_end_smkex.AutoResend.Engine.Offers.{listed}
use end_to_end_smkex.Service.Sample.{sample, busy, settings}
use end_to_end_smkex.Messaging.{
  Messaging, Command, sync, add, resend, enable, pager_reported, presence_reported, run_all,
  remove_messages,
}
use end_to_end_smkex.Messaging.Chain.{IsJoined}
use end_to_end_smkex.Messaging.Sending.{IsKept}
use end_to_end_smkex.Messaging.Runs.{IsFit}
use end_to_end_smkex.Messaging.Single.{run_all-spares}
use end_to_end_smkex.Messaging.Life.{Event, log_in, log_out, list_buddy, act, live_all}
use end_to_end_smkex.Messaging.Start.{new_base_service, new_base_service-runs}
use end_to_end_smkex.Messaging.Stranded.{remove_messages-strands}
use end_to_end_smkex.Messaging.Totals.{total}
use end_to_end_smkex.Messaging.Drain.{IsOver, IsServing, all_sent, all_sent-drains}

abbrev bob : MpString
bob = b'b' ∷ []

abbrev to_bob : ℕ → MpMsgPayload
to_bob uid = record {
  user_serial = bob;
  payload = record { payload = some (0 ∷ 7 ∷ []); len = 2 };
  uid = pos uid;
  number_of_retries = pos 5;
  xfer_status = pos 0;
  acc_id = pos 1;
  message_type = message;
  processed = false;
}

to_bob-IsKept : (uid : ℕ) → IsKept bob (to_bob uid)
to_bob-IsKept uid = record {
  own = refl;
  first = b'b';
  others = [];
  named = refl;
  block = 0 ∷ 7 ∷ [];
  whole = refl;
}

abbrev pool : MpMsgPool
pool = record {
  messages = to_bob 1 ∷ to_bob 2 ∷ [];
  weight = 0;
  mutable_weight = true;
  dirty = false;
}

abbrev engine : MpAutoResendEngine
engine = record {
  msg_transport = true;
  sip_stack = some true;
  db_connectors = [];
  user_pool = (bob, pool) ∷ [];
  priority = bob ∷ [];
  started = true;
  auto_resend_enabled = false;
  calls = [];
}

-- The first of two messages for bob is in transfer.
abbrev serving : Messaging ℕ
serving = record {
  service = record busy {
    msg_transport = record { msg_notif = true; msg = to_bob 1; counter = pos 5; events = [] };
  };
  engine = engine;
  told = [];
}

engine-IsIndexed : (k : MpString) → count k engine.priority ≡ listed k engine.user_pool
unfolding count listed Base.find
engine-IsIndexed k = ground (arith, str_eq_iff bob k)

engine-stores :
    (k : MpString) (q : MpMsgPool) → find k engine.user_pool ≡ some q → All (IsKept k) q.messages
unfolding Base.find
engine-stores k q there = elim (Bool-cases (str_eq bob k)) [
  | inl own ↦
      let same : pool ≡ q = ground (arith, own, there) in
      subst (λ r. All (IsKept k) r.messages) same
        (subst (λ j. All (IsKept j) pool.messages) ((str_eq_iff bob k).0 own)
          (to_bob-IsKept 1, (to_bob-IsKept 2, tt)))
  | inr other ↦ absurd (ground (arith, other, there))
]

serving-IsJoined : IsJoined serving
serving-IsJoined = record {
  well = record {
    ready = record { indexed = engine-IsIndexed; transport = refl; stack = (true, refl) };
    stores = engine-stores;
    connectors = tt;
  };
  no_calls = refl;
  no_events = refl;
  listens = refl;
  current = inr (to_bob-IsKept 1, refl);
  waits = λ off. cc;
}

serving-IsServing : IsServing serving
unfolding Base.find Base.str_eq has_uid
serving-IsServing = (refl, (pool, refl, refl))

two_messages : total engine.user_pool ≤ 2
unfolding total
two_messages = omega arith

all_sent-drains_example :
    (s' : Messaging ℕ) × (all_sent sample 2 serving ≡ done s') × IsJoined s' × IsOver s'
all_sent-drains_example =
    all_sent-drains sample 2 serving serving-IsJoined serving-IsServing two_messages

abbrev commands : List Command
commands = add (to_bob 3) ∷ resend bob (pos 2) ∷ enable true ∷ sync ∷ presence_reported (pos 7) ∷ []

commands-IsFit : All IsFit commands
commands-IsFit = (to_bob-IsKept 3, (tt, (tt, (tt, (tt, tt)))))

run_all-spares_example :
    (s' : Messaging ℕ) × (run_all sample 4 commands serving ≡ done s')
    × (s'.service.msg_transport ≡ serving.service.msg_transport)
run_all-spares_example =
    run_all-spares sample 4 commands serving serving-IsJoined commands-IsFit
      (refl, (refl, (refl, (refl, (refl, tt))))) refl

remove_messages-strands_example :
    (s₁ : Messaging ℕ) × (s₂ : Messaging ℕ) × (remove_messages sample bob serving ≡ done s₁)
    × (run_all sample 4 (pager_reported 200 ∷ commands) s₁ ≡ done s₂)
    × (s₂.engine.started ≡ true)
    × (s₂.service.outside ≡ serving.service.outside)
remove_messages-strands_example =
    remove_messages-strands sample 4 (pager_reported 200 ∷ commands) serving refl refl refl refl

-- A login, a buddy, a message to the buddy, and the report of its arrival.
abbrev events : List Event
events =
    log_in settings
    ∷ list_buddy (record { serial = bob; online = false; pjsua_id = pos 0 })
    ∷ act (add (to_bob 1))
    ∷ act (pager_reported 200)
    ∷ log_out
    ∷ []

new_base_service-runs_example :
    (s : Messaging ℕ) × (s' : Messaging ℕ) × (new_base_service 0 ≡ done s)
    × (live_all sample 4 events s ≡ done s')
    × (s'.engine.started ≡ false → s'.service.msg_transport.msg.number_of_retries ≡ pos 0)
new_base_service-runs_example =
    new_base_service-runs sample 4 0 events (tt, ((λ h. cc), (to_bob-IsKept 1, (tt, (tt, tt)))))
