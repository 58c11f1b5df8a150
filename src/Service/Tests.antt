-- ===== src/Service/Tests.antt =====
-- The services at concrete inputs.
use end_to_end_smkex.Base.{
  ℕ, ◌≡◌, ◌≢◌, refl, true, false, List, [], ◌∷◌, pos, negsuc, MpString, done,
}
use mathlib.Core.List.{Memᴰ}
use end_to_end_smkex.Utils.{is_success}
use end_to_end_smkex.Buddy.BuddyList.{MpBuddy}
use end_to_end_smkex.Service.State.{MpService, wifi}
use end_to_end_smkex.Service.Commands.{Command, perform_all}
use end_to_end_smkex.Service.Sound.{IsSound}
use end_to_end_smkex.Service.Runs.{perform_all-IsSound}
use end_to_end_smkex.Service.Sample.{sample, with_codecs, settings, fresh}
use end_to_end_smkex.Sip.Config.{
  ilbc, reset_priorities, set_wide_band, set_priorities_for, set_codecs_priorities,
}
use end_to_end_smkex.Sip.Stack.{start_sip_stack}
use end_to_end_smkex.Sip.Lifecycle.{Spares, start_sip_stack-started}
use end_to_end_smkex.Sip.Codecs.{intended_priority, set_codecs_priorities-intended}

start_sip_stack-started_example :
    let (status, s') = start_sip_stack sample settings fresh in
    (s'.sip_stack.started ≡ is_success status)
    × (s'.buddy_list ≡ fresh.buddy_list)
    × Spares fresh s'
start_sip_stack-started_example = start_sip_stack-started sample settings fresh

abbrev g722 : MpString
g722 = b'G' ∷ b'7' ∷ b'2' ∷ b'2' ∷ []

abbrev nothing_set : MpString → ℕ
nothing_set codec = 130

codecs-set : (set_codecs_priorities (with_codecs (g722 ∷ ilbc ∷ [])) wifi nothing_set).0 ≡ true
unfolding set_codecs_priorities reset_priorities set_priorities_for set_wide_band
codecs-set = refl

set_codecs_priorities-intended_example :
    (set_codecs_priorities (with_codecs (g722 ∷ ilbc ∷ [])) wifi nothing_set).1 g722
    ≡ intended_priority wifi g722
set_codecs_priorities-intended_example =
    set_codecs_priorities-intended (with_codecs (g722 ∷ ilbc ∷ [])) (λ codec table. table codec)
      (λ c d n w e. refl) wifi g722 nothing_set codecs-set (Memᴰ.head refl)

abbrev bob : MpBuddy
bob = record { serial = b'b' ∷ []; online = false; pjsua_id = negsuc 0 }

abbrev a_day : List Command
a_day =
    Command.list_buddy bob
    ∷ Command.log_in settings
    ∷ Command.list_buddy bob
    ∷ Command.buddy_reported (pos 7)
    ∷ Command.log_out
    ∷ []

fresh-IsSound : IsSound fresh
fresh-IsSound = record { forgotten = λ off. refl; filed = tt }

bob-named : bob.serial ≢ []
bob-named = λ e. cc

perform_all-IsSound_example :
    (s' : MpService ℕ) × (perform_all sample (λ cb. false) a_day fresh ≡ done s') × IsSound s'
perform_all-IsSound_example =
    perform_all-IsSound sample (λ cb. false) a_day fresh
      (bob-named, (tt, (bob-named, (tt, (tt, tt))))) fresh-IsSound
