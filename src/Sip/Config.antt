-- ===== src/Sip/Config.antt =====
-- The configuration of PJSUA (sip_stack/src/MpSIPStack.cpp): the account's addresses and the
-- priorities of the codecs.
use end_to_end_smkex.Base.{
  Bool, true, false, List, [], ◌∷◌, ◌++◌, none, some, if◌then◌else◌, MpString,
}
use end_to_end_smkex.Utils.Addresses.{sip_schema, sip_transport}
use end_to_end_smkex.Service.Pjsua.{Pjsua}
use end_to_end_smkex.Service.State.{
  MpNetworkState, unreachable, wifi, gprs, edge, wcdma, lte, other_network, MpAccSettings,
  MpSipStack,
}

-- The account's identifier, `cfg.id`.
unfoldable pub account_id : MpAccSettings → MpString
account_id a =
    sip_schema ++ (a.user_name ++ b'@' ∷ (a.server_address ++ b':' ∷ (a.port ++ sip_transport)))

-- The registrar, `cfg.reg_uri`.
unfoldable pub registrar_uri : MpAccSettings → MpString
registrar_uri a = sip_schema ++ (a.server_address ++ b':' ∷ (a.port ++ sip_transport))

abbrev pub ilbc : MpString
ilbc = b'i' ∷ b'L' ∷ b'B' ∷ b'C' ∷ b'/' ∷ b'8' ∷ b'0' ∷ b'0' ∷ b'0' ∷ b'/' ∷ b'1' ∷ []

abbrev pub pcmu : MpString
pcmu = b'P' ∷ b'C' ∷ b'M' ∷ b'U' ∷ b'/' ∷ b'8' ∷ b'0' ∷ b'0' ∷ b'0' ∷ b'/' ∷ b'1' ∷ []

module _ {W : Type 0} (p : Pjsua W) where
  -- `pjsua_acc_add` writes the new account to `acc_id_`.
  unfoldable pub set_sip_account_config : MpAccSettings → MpSipStack → W → Bool × MpSipStack × W
  set_sip_account_config a sip w =
      let (added, w') = p.acc_add (account_id a) (registrar_uri a) w in
      elim added [ none ↦ (false, sip, w') | some id ↦ (true, record sip { acc_id = id }, w') ]

  -- The loop that resets the priorities; it stops at the first error.
  unfoldable pub reset_priorities : List MpString → W → Bool × W
  reset_priorities [] w = (true, w)
  reset_priorities (c ∷ cs) w =
      let (ok, w') = p.codec_set_priority c 0 w in
      let rest = reset_priorities cs w' in if ok then rest else (false, w')

  unfoldable pub set_narrow_band : W → Bool × W
  set_narrow_band w = p.codec_set_priority ilbc 255 w

  unfoldable pub set_wide_band : W → Bool × W
  set_wide_band w =
      let (ok, w') = p.codec_set_priority pcmu 255 w in
      if ok then p.codec_set_priority ilbc 128 w' else (false, w')

  -- The `switch`.
  unfoldable pub set_priorities_for : MpNetworkState → W → Bool × W
  set_priorities_for unreachable w = (true, w)
  set_priorities_for gprs w = set_narrow_band w
  set_priorities_for edge w = set_narrow_band w
  set_priorities_for wcdma w = set_narrow_band w
  set_priorities_for wifi w = set_wide_band w
  set_priorities_for lte w = set_wide_band w
  set_priorities_for other_network w = set_wide_band w

  unfoldable pub set_codecs_priorities : MpNetworkState → W → Bool × W
  set_codecs_priorities state w =
      let (listed, codecs) = p.enum_codecs w in
      if listed
      then (let (ok, w') = reset_priorities codecs w in
          if ok then set_priorities_for state w' else (false, w'))
      else (false, w)
