-- ===== src/Account/Registration.antt =====
-- What is told of the registration (user_account/src/MpUserAccount.cpp, sip_stack/src/MpSIPStack.cpp).
use end_to_end_smkex.Base.{
  ℕ, zero, suc, length, ◌==◌, ◌||◌, ◌≡◌, List, [], ◌∷◌, ◌++◌, append_assoc, append-nil, ℤ, arith,
  if◌then◌else◌,
}
use end_to_end_smkex.Utils.{MpStatus, success, status_err, is_success}
use end_to_end_smkex.Service.Pjsua.{Pjsua}
use end_to_end_smkex.Service.State.{online, offline, MpAccSettings, RegistrationCall, MpService}
use end_to_end_smkex.Sip.Stack.{start_sip_stack, stop_sip_stack}
use end_to_end_smkex.Sip.Lifecycle.{start_sip_stack-started, stop_sip_stack-stopped}
use end_to_end_smkex.Account.User.{
  tell_registration, set_req_status, registration_state, assign, login, logout,
}
use end_to_end_smkex.Sip.Callbacks.{on_reg_state}

-- Every callback hears `n` times that the account is offline.
unfoldable pub offline_times : ℕ → List ℕ → List RegistrationCall
offline_times zero cbs = []
offline_times (suc n) cbs = tell_registration cbs offline ++ offline_times n cbs

module _ {W : Type 0} (p : Pjsua W) where
  -- PJSUA reports the registration again and again.
  unfoldable pub on_reg_states : List ℤ → MpService W → MpService W
  on_reg_states [] s = s
  on_reg_states (acc ∷ accs) s = on_reg_states accs (on_reg_state p acc s)

  registration_state-offline :
      (status : MpStatus) (s : MpService W)
      → s.user_account.req_status ≡ offline
      → (registration_state status s).user_account ≡ (record s.user_account {
        reg_calls = s.user_account.reg_calls ++ tell_registration s.user_account.reg_cb offline;
      })
  unfolding registration_state
  registration_state-offline status s e = ground arith

  on_reg_states-offline :
      (accs : List ℤ) (s : MpService W)
      → s.user_account.req_status ≡ offline
      → (on_reg_states accs s).user_account ≡ (record s.user_account {
        reg_calls = s.user_account.reg_calls ++ offline_times (length accs) s.user_account.reg_cb;
      })
  unfolding on_reg_states offline_times on_reg_state
  on_reg_states-offline [] s e = rw append-nil
  on_reg_states-offline (acc ∷ accs) s e =
      let code = p.acc_status acc s.outside in
      let status = if (code == 200) || (code == 0) then success else status_err in
      ground (
        arith,
        registration_state-offline status s e,
        on_reg_states-offline accs (registration_state status s),
        append_assoc s.user_account.reg_calls (tell_registration s.user_account.reg_cb offline)
            (offline_times (length accs) s.user_account.reg_cb),
      )

  -- After a logout, whether or not the stack could be stopped, every callback has heard once that the
  -- account is offline, and hears it once more for every report of PJSUA, whatever its code. The
  -- settings and the callbacks stay.
  pub logout-offline :
      (accs : List ℤ) (s : MpService W)
      → (on_reg_states accs (logout p s).1).user_account ≡ (record s.user_account {
        req_status = offline;
        reg_calls =
            s.user_account.reg_calls ++ offline_times (suc (length accs)) s.user_account.reg_cb;
      })
  unfolding logout offline_times
  logout-offline accs s =
      let s₀ = set_req_status offline s in
      let (status, s₁) = stop_sip_stack p s₀ in
      let (_, _, spared) = stop_sip_stack-stopped p s₀ in
      ground (
        arith,
        spared.same_account,
        registration_state-offline status s₁,
        on_reg_states-offline accs (registration_state status s₁),
        append_assoc s.user_account.reg_calls (tell_registration s.user_account.reg_cb offline)
            (offline_times (length accs) s.user_account.reg_cb),
      )

  -- A login succeeds if and only if the stack has started. The account then has the server, the
  -- port and the user of the new settings, and without success its old settings; it asks to be
  -- online either way, and no callback hears of it yet.
  login-settings :
      (settings : MpAccSettings) (s : MpService W)
      → let (status, s') = login p settings s in
        (s'.sip_stack.started ≡ is_success status)
        × (s'.user_account ≡ (record s.user_account {
          req_status = online;
          acc_settings =
              if is_success status
              then assign s.user_account.acc_settings settings
              else s.user_account.acc_settings;
        }))
  unfolding login
  login-settings settings s =
      let s₀ = set_req_status online s in
      let (status, s₁) = start_sip_stack p settings s₀ in
      let (begun, _, spared) = start_sip_stack-started p settings s₀ in
      ground (arith, begun, spared.same_account)
