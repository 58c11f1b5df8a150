-- ===== src/Sip/Codecs.antt =====
-- The priorities of the codecs after `setCodecsPriorities` (sip_stack/src/MpSIPStack.cpp).
use end_to_end_smkex.Base.{
  ℕ, ◌≡◌, ◌∙◌, true, List, [], ◌∷◌, if◌then◌else◌, MpString, str_eq, str_eq_refl, arith,
}
use mathlib.Core.List.{Memᴰ}
use mathlib.Core.List.Memᴰ
use end_to_end_smkex.Service.Pjsua.{Pjsua}
use end_to_end_smkex.Service.State.{
  MpNetworkState, unreachable, wifi, gprs, edge, wcdma, lte, other_network,
}
use end_to_end_smkex.Sip.Config.{
  ilbc, pcmu, reset_priorities, set_narrow_band, set_wide_band, set_priorities_for,
  set_codecs_priorities,
}

-- The priority that a codec is meant to have.
unfoldable pub intended_priority : MpNetworkState → MpString → ℕ
intended_priority unreachable codec = 0
intended_priority gprs codec = if str_eq ilbc codec then 255 else 0
intended_priority edge codec = if str_eq ilbc codec then 255 else 0
intended_priority wcdma codec = if str_eq ilbc codec then 255 else 0
intended_priority wifi codec =
    if str_eq ilbc codec then 128 else if str_eq pcmu codec then 255 else 0
intended_priority lte codec =
    if str_eq ilbc codec then 128 else if str_eq pcmu codec then 255 else 0
intended_priority other_network codec =
    if str_eq ilbc codec then 128 else if str_eq pcmu codec then 255 else 0

module _ {W : Type 0} (p : Pjsua W) (priority : MpString → W → ℕ)
    -- `pjsua_codec_set_priority`, where it succeeds, sets the priority of its codec alone
    (sets : (c d : MpString) (n : ℕ) (w : W)
      → (p.codec_set_priority c n w).0 ≡ true
      → priority d (p.codec_set_priority c n w).1 ≡ (if str_eq c d then n else priority d w)) where
  reset_priorities-keep :
      (cs : List MpString) (d : MpString) (w : W)
      → (reset_priorities p cs w).0 ≡ true
      → priority d w ≡ 0
      → priority d (reset_priorities p cs w).1 ≡ 0
  unfolding reset_priorities
  reset_priorities-keep [] d w e z = z
  reset_priorities-keep (c ∷ cs) d w e z =
      ground (arith, reset_priorities-keep cs d (p.codec_set_priority c 0 w).1, sets c d 0 w)

  reset_priorities-zero :
      (cs : List MpString) (d : MpString) (w : W)
      → (reset_priorities p cs w).0 ≡ true
      → Memᴰ d cs
      → priority d (reset_priorities p cs w).1 ≡ 0
  unfolding reset_priorities
  reset_priorities-zero [] d w e m = absurd (Memᴰ.not-nil m)
  reset_priorities-zero (c ∷ cs) d w e (Memᴰ.head q) =
      let w₁ = (p.codec_set_priority c 0 w).1 in
      let now : (p.codec_set_priority c 0 w).0 ≡ true → priority d w₁ ≡ 0 =
        λ ok. sets c d 0 w ok ∙ rw (q, str_eq_refl c) in
      ground (arith, now, reset_priorities-keep cs d w₁)
  reset_priorities-zero (c ∷ cs) d w e (Memᴰ.tail m) =
      ground (arith, m, reset_priorities-zero cs d (p.codec_set_priority c 0 w).1)

  narrow_band-priority :
      (d : MpString) (w : W)
      → (set_narrow_band p w).0 ≡ true
      → priority d w ≡ 0
      → priority d (set_narrow_band p w).1 ≡ (if str_eq ilbc d then 255 else 0)
  unfolding set_narrow_band
  narrow_band-priority d w e z = ground (arith, sets ilbc d 255 w e)

  wide_band-priority :
      (d : MpString) (w : W)
      → (set_wide_band p w).0 ≡ true
      → priority d w ≡ 0
      → priority d (set_wide_band p w).1
        ≡ (if str_eq ilbc d then 128 else if str_eq pcmu d then 255 else 0)
  unfolding set_wide_band
  wide_band-priority d w e z =
      ground (arith, sets pcmu d 255 w, sets ilbc d 128 (p.codec_set_priority pcmu 255 w).1)

  set_priorities_for-intended :
      (state : MpNetworkState) (d : MpString) (w : W)
      → (set_priorities_for p state w).0 ≡ true
      → priority d w ≡ 0
      → priority d (set_priorities_for p state w).1 ≡ intended_priority state d
  unfolding set_priorities_for intended_priority
  set_priorities_for-intended unreachable d w e z = z
  set_priorities_for-intended gprs d w e z = narrow_band-priority d w e z
  set_priorities_for-intended edge d w e z = narrow_band-priority d w e z
  set_priorities_for-intended wcdma d w e z = narrow_band-priority d w e z
  set_priorities_for-intended wifi d w e z = wide_band-priority d w e z
  set_priorities_for-intended lte d w e z = wide_band-priority d w e z
  set_priorities_for-intended other_network d w e z = wide_band-priority d w e z

  -- Once the priorities have been set for a network without an error, every codec that PJSUA lists
  -- has the priority intended for that network: those that the network does not use have 0.
  -- Setting a priority without an error must set it for that codec alone.
  pub set_codecs_priorities-intended :
      (state : MpNetworkState) (d : MpString) (w : W)
      → (set_codecs_priorities p state w).0 ≡ true
      → Memᴰ d (p.enum_codecs w).1
      → priority d (set_codecs_priorities p state w).1 ≡ intended_priority state d
  unfolding set_codecs_priorities
  set_codecs_priorities-intended state d w e m =
      let codecs = (p.enum_codecs w).1 in
      let w₁ = (reset_priorities p codecs w).1 in
      ground (arith, m, reset_priorities-zero codecs d w, set_priorities_for-intended state d w₁)
