-- ===== src/Service/Sound.antt =====
-- What holds of the services between two calls.
use end_to_end_smkex.Base
use end_to_end_smkex.Base.{
  ◌≡◌, refl, sym, ap, subst, ◌∙◌, Bool, true, false, List, [], ◌∷◌, All, inl, inr, Bool-cases, ℕ, ℤ,
  MpString, Outcome, done, ◌>>=◌, if◌then◌else◌, arith,
}
use end_to_end_smkex.Buddy.BuddyList
use end_to_end_smkex.Buddy.BuddyList.{MpBuddy, MpBuddyList, reset, serial_is_valid}
use end_to_end_smkex.Buddy.Filed.{IsOwn, IsFiled, rm_buddy-IsFiled, buddy_state-IsFiled}
use end_to_end_smkex.Service.Pjsua.{Pjsua}
use end_to_end_smkex.Service.State.{MpAccSettings, MpService, online, offline}
use end_to_end_smkex.Service.Commands.{remove_from_list}
use end_to_end_smkex.Sip.Callbacks.{on_buddy_state}
use end_to_end_smkex.Sip.Stack.{stop_sip_stack, start_sip_stack}
use end_to_end_smkex.Sip.Lifecycle.{
  start_sip_stack-started, start_sip_stack-again, stop_sip_stack-again,
}
use end_to_end_smkex.Calls.Frame.{Unmoved}
use end_to_end_smkex.Account.User.{set_req_status, registration_state, login, logout}

-- A stack that is not started has no buddies, and every buddy stands under its own serial.
pub record IsSound {W : Type 0} (s : MpService W) : Type 0 where
  pub forgotten : s.sip_stack.started ≡ false → s.buddy_list.buddy_list ≡ []
  pub filed : IsFiled s.buddy_list

pub Unmoved-IsSound : {W : Type 0} (s s' : MpService W) → Unmoved s s' → IsSound s → IsSound s'
Unmoved-IsSound s s' (e, f) h = record {
  forgotten = λ g. ap BuddyList.MpBuddyList.buddy_list f ∙ h.forgotten (sym e ∙ g);
  filed = subst IsFiled (sym f) h.filed;
}

module _ {W : Type 0} (p : Pjsua W) where
  start_sip_stack-IsSound :
      (settings : MpAccSettings) (s : MpService W)
      → IsSound s
      → IsSound (start_sip_stack p settings s).1
  start_sip_stack-IsSound settings s h = elim (Bool-cases s.sip_stack.started) [
    | inl on ↦ subst IsSound (sym (ap (λ r. r.1) (start_sip_stack-again p settings s on))) h
    | inr off ↦
        let (_, kept, _) = start_sip_stack-started p settings s in
        record {
          forgotten = λ g. ap BuddyList.MpBuddyList.buddy_list kept ∙ h.forgotten off;
          filed = subst IsFiled (sym kept) h.filed;
        }
  ]

  pub login-IsSound :
      (settings : MpAccSettings) (s : MpService W) → IsSound s → IsSound (login p settings s).1
  unfolding login
  login-IsSound settings s h =
      let s₀ = set_req_status online s in
      let begun = start_sip_stack-IsSound settings s₀ (Unmoved-IsSound s s₀ (refl, refl) h) in
      Unmoved-IsSound (start_sip_stack p settings s₀).1 _ (ground arith) begun

  stopped-nothing :
      (s : MpService W)
      → s.sip_stack.started ≡ true
      → (stop_sip_stack p s).1.buddy_list.buddy_list ≡ []
  unfolding stop_sip_stack reset
  stopped-nothing s on = ground arith

  stop_sip_stack-IsSound : (s : MpService W) → IsSound s → IsSound (stop_sip_stack p s).1
  stop_sip_stack-IsSound s h = elim (Bool-cases s.sip_stack.started) [
    | inl on ↦
        let nothing : (stop_sip_stack p s).1.buddy_list.buddy_list ≡ [] = stopped-nothing s on in
        record { forgotten = λ off. nothing; filed = subst (All IsOwn) (sym nothing) tt }
    | inr off ↦ subst IsSound (sym (ap (λ r. r.1) (stop_sip_stack-again p s off))) h
  ]

  pub logout-IsSound : (s : MpService W) → IsSound s → IsSound (logout p s).1
  unfolding logout registration_state
  logout-IsSound s h =
      let s₀ = set_req_status offline s in
      let ended = stop_sip_stack-IsSound s₀ (Unmoved-IsSound s s₀ (refl, refl) h) in
      Unmoved-IsSound (stop_sip_stack p s₀).1 _ (refl, refl) ended

  rm_buddy-nothing :
      (serial : MpString) (s : MpService W)
      → s.buddy_list.buddy_list ≡ []
      → (remove_from_list p serial s).buddy_list.buddy_list ≡ []
  unfolding remove_from_list BuddyList.rm_buddy Base.find
  rm_buddy-nothing serial s h = ground arith

  pub remove_from_list-IsSound :
      (serial : MpString) (s : MpService W) → IsSound s → IsSound (remove_from_list p serial s)
  unfolding remove_from_list
  remove_from_list-IsSound serial s h = record {
    forgotten = λ off. rm_buddy-nothing serial s (h.forgotten off);
    filed = rm_buddy-IsFiled _ serial s.buddy_list s.outside h.filed;
  }

  on_buddy_state-nothing :
      (id : ℤ) (b : Bool) (l : MpBuddyList)
      → l.buddy_list ≡ []
      → (BuddyList.buddy_state id b l).buddy_list ≡ []
  unfolding BuddyList.buddy_state BuddyList.set_state_of
  on_buddy_state-nothing id b l h = ground arith

  pub on_buddy_state-IsSound :
      (id : ℤ) (s : MpService W) → IsSound s → IsSound (on_buddy_state p id s)
  unfolding on_buddy_state
  on_buddy_state-IsSound id s h =
      let b = p.buddy_is_online id s.outside in
      record {
        forgotten = λ off. on_buddy_state-nothing id b s.buddy_list (h.forgotten off);
        filed = buddy_state-IsFiled id b s.buddy_list h.filed;
      }
