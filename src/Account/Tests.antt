-- ===== src/Account/Tests.antt =====
-- Accounts at concrete inputs.
use end_to_end_smkex.Base.{◌≡◌, [], ◌∷◌, ◌++◌, pos}
use end_to_end_smkex.Service.State.{offline}
use end_to_end_smkex.Service.Sample.{sample, busy}
use end_to_end_smkex.Account.User.{logout}
use end_to_end_smkex.Account.Registration.{offline_times, on_reg_states, logout-offline}

logout-offline_example :
    (on_reg_states sample (pos 0 ∷ pos 0 ∷ []) (logout sample busy).1).user_account
    ≡ (record busy.user_account {
      req_status = offline;
      reg_calls = busy.user_account.reg_calls ++ offline_times 3 busy.user_account.reg_cb;
    })
logout-offline_example = logout-offline sample (pos 0 ∷ pos 0 ∷ []) busy
