-- ===== src/Smkex/Keeps.antt =====
-- Sending leaves the keychain alone.
use end_to_end_smkex.Base.{ℕ, ◌≡◌, Bool, List, Option, none, some, MpString, done, arith}
use end_to_end_smkex.Record.{SmkexT4mType}
use end_to_end_smkex.Smkex.Env.{Env}
use end_to_end_smkex.Smkex.Session.{World}
use end_to_end_smkex.Smkex.Send.{send_key_or_nonce, send_record, send_alert}

pub send_key_or_nonce-keychain :
    (block : Option (List ℕ)) (n : ℕ) (buddy : MpString) (chan : ℕ) (w w' : World)
    → send_key_or_nonce block n buddy chan w ≡ done w'
    → w'.keychain ≡ w.keychain
unfolding send_key_or_nonce
send_key_or_nonce-keychain none n buddy chan w w' e = ground arith
send_key_or_nonce-keychain (some block) n buddy chan w w' e = ground arith

module _ (env : Env) where
  pub send_record-keychain :
      (printed : Bool) (buddy : MpString) (type : SmkexT4mType) (n : ℕ) (from : List ℕ) (chan : ℕ)
      (w w' : World)
      → send_record env printed buddy type n from chan w ≡ done w'
      → w'.keychain ≡ w.keychain
  unfolding send_record
  send_record-keychain printed buddy type n from chan w w' e =
      grind (arith, send_key_or_nonce-keychain)

  pub send_alert-keychain :
      (buddy : MpString) (w w' : World)
      → send_alert env buddy w ≡ done w'
      → w'.keychain ≡ w.keychain
  unfolding send_alert
  send_alert-keychain buddy w w' e = send_record-keychain _ _ _ _ _ _ w w' e
