-- ===== src/Account/User.antt =====
-- `MpUserAccount` (user_account/src/MpUserAccount.cpp) and the assignment of `MpAccSettings`
-- (user_account/src/MpAccSettings.cpp).
use end_to_end_smkex.Base.{ℕ, suc, Bool, List, [], ◌∷◌, ◌++◌, Option, none, some, if◌then◌else◌}
use end_to_end_smkex.Utils.{MpStatus, success, input_err, is_success}
use end_to_end_smkex.Utils.Callbacks.{add_pool_data, rm_pool_data}
use end_to_end_smkex.Service.Pjsua.{Pjsua}
use end_to_end_smkex.Service.State.{
  MpAccSettings, MpOnlineState, online, offline, RegistrationCall, MpUserAccount, MpService,
}
use end_to_end_smkex.Sip.Stack.{start_sip_stack, stop_sip_stack}
use end_to_end_smkex.Sip.Requests

-- `operator=`
unfoldable pub assign : (to from : MpAccSettings) → MpAccSettings
assign to from = record to {
  server_address = from.server_address;
  port = from.port;
  user_name = from.user_name;
}

unfoldable pub tell_registration : List ℕ → MpOnlineState → List RegistrationCall
tell_registration [] state = []
tell_registration (cb ∷ cbs) state =
    record { callback = cb; told = state } ∷ tell_registration cbs state

unfoldable pub add_reg_callback : Option ℕ → MpUserAccount → MpStatus × MpUserAccount
add_reg_callback none a = (input_err, a)
add_reg_callback (some cb) a = (success, record a { reg_cb = add_pool_data (some cb) a.reg_cb })

-- The lock is taken and not released.
unfoldable pub rm_reg_callback : Option ℕ → MpUserAccount → MpStatus × MpUserAccount
rm_reg_callback none a = (input_err, record a { lock_depth = suc a.lock_depth })
rm_reg_callback (some cb) a =
    (success, record a { lock_depth = suc a.lock_depth; reg_cb = rm_pool_data (some cb) a.reg_cb })

module _ {W : Type 0} where
  abbrev pub set_account : MpUserAccount → MpService W → MpService W
  set_account a s = record s { user_account = a }

  abbrev pub set_req_status : MpOnlineState → MpService W → MpService W
  set_req_status state s = set_account (record s.user_account { req_status = state }) s

  unfoldable pub registration_state : MpStatus → MpService W → MpService W
  registration_state status s =
      let a = s.user_account in
      let state = if is_success status then a.req_status else offline in
      set_account (record a { reg_calls = a.reg_calls ++ tell_registration a.reg_cb state }) s

module _ {W : Type 0} (p : Pjsua W) where
  unfoldable pub login : MpAccSettings → MpService W → MpStatus × MpService W
  login settings s =
      let (status, s₁) = start_sip_stack p settings (set_req_status online s) in
      let a = s₁.user_account in
      if is_success status
      then (status, set_account (record a { acc_settings = assign a.acc_settings settings }) s₁)
      else (status, s₁)

  unfoldable pub logout : MpService W → MpStatus × MpService W
  logout s =
      let (status, s₁) = stop_sip_stack p (set_req_status offline s) in
      (status, registration_state status s₁)

  unfoldable pub set_online : Bool → MpService W → MpStatus × MpService W
  set_online state s = Requests.set_online p state s
