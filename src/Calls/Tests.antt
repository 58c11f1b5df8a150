-- ===== src/Calls/Tests.antt =====
-- Calls at concrete inputs.
use end_to_end_smkex.Base.{ℕ, ◌≡◌, refl, Bool, false, List, [], ◌∷◌, ◌++◌, pos, ◌==◌, if◌then◌else◌}
use end_to_end_smkex.Service.Pjsua.{early}
use end_to_end_smkex.Service.State.{callee_incoming, set_outside}
use end_to_end_smkex.Service.Sample.{sample, fresh, busy}
use end_to_end_smkex.Calls.Manager.{
  has_other_call, reinitialize_timer, on_call_state, on_incoming_call,
}
use end_to_end_smkex.Calls.Notices.{heard, notices_of, on_call_state-heard}
use end_to_end_smkex.Calls.Second.{
  CallEvent, incoming, changed, handle_events, hang_up_all, handle_events-second,
}
use end_to_end_smkex.Calls.Answers.{any_answers, answered, on_incoming_call-heard}

-- The callback 9 is an `MpCall`.
abbrev answers : ℕ → Bool
answers cb = cb == 9

free-of_other : has_other_call sample (pos 3) fresh ≡ false
unfolding has_other_call
free-of_other = refl

own-of_other : has_other_call sample (pos 2) busy ≡ false
unfolding has_other_call
own-of_other = refl

on_call_state-heard_example :
    let m = (on_call_state sample (pos 2) early 180 busy).call_manager in
    (m.call_id ≡ pos 2)
    × (m.calls_made
        ≡ busy.call_manager.calls_made ++ notices_of early 180 busy.call_manager.call_cb)
    × (m.call_cb ≡ busy.call_manager.call_cb)
on_call_state-heard_example = on_call_state-heard sample (pos 2) early 180 busy own-of_other

on_incoming_call-heard_example :
    let s' = on_incoming_call sample answers (pos 2) (b'b' ∷ []) busy in
    (s'.call_manager ≡ record busy.call_manager {
      call_id = pos 2;
      last_answer_mode =
          if any_answers answers busy.call_manager.call_cb
          then 200
          else busy.call_manager.last_answer_mode;
      calls_made =
          busy.call_manager.calls_made
          ++ heard busy.call_manager.call_cb (callee_incoming (b'b' ∷ []));
    })
    × (s'.outside
        ≡ (reinitialize_timer sample (
            set_outside
              (answered sample answers (pos 2) busy.call_manager.call_cb busy.outside)
              busy)).outside)
on_incoming_call-heard_example =
    on_incoming_call-heard sample answers (pos 2) (b'b' ∷ []) busy own-of_other

abbrev intruders : List CallEvent
intruders = incoming (pos 5) (b'e' ∷ []) ∷ changed (pos 6) early 180 ∷ []

handle_events-second_example :
    handle_events sample answers intruders busy
    ≡ set_outside (hang_up_all sample answers intruders busy.outside) busy
handle_events-second_example =
    handle_events-second sample answers (pos 2) intruders busy (λ other w e live. refl) refl
      (refl, (refl, tt)) refl refl
