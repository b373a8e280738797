-- ===== src/Perpd/Tests/Services.antt =====
-- Runs of the operations on a service.
use perp.Common.{◌<◌, ◌≡◌, refl, true, false, none, some, [], ◌∷◌, arith, codes}
use perp.Perpd.Types.{main, log, Svdef, Stat}
use perp.Perpd.Samples.{
  kernel, full_kernel, kernel-ForkIsPositive, idle, alive, resetting, service, going, calm,
}
use perp.Perpd.Run.Outcome.{IsSupervised}
use perp.Perpd.Svdef.{perpd_svdef_cullok, perpd_svdef_activate}
use perp.Perpd.Reap.{reap}
use perp.Perpd.Control.{do_control}
use perp.Perpd.Scan.{perpd_scan}
use perp.Perpd.Deactivation.{remaining, IsCulling, reap_progress, reap_lost}
use perp.Perpd.Supervision.{reap-IsSupervised}
use perp.Perpd.Invariant.{FitsVector}
use perp.Perpd.Invariant.Scan.{scan-FitsVector}
use perp.Perpd.Commands.{forceful, AreResetting, control_gentle}

going-IsCulling : IsCulling going
going-IsCulling = ground arith

-- the main reset runs, and so does the logger
abbrev ending : Svdef
ending = record service {
  cull = true;
  sv_main = resetting 60;
  sv_log = record (alive 61) { want_down = true };
}

ending-IsCulling : IsCulling ending
ending-IsCulling = ground arith

-- the main start script of a service that goes
abbrev stopping : Svdef
stopping = record going { sv_main = record (alive 60) { want_down = true } }

stopping-IsCulling : IsCulling stopping
stopping-IsCulling = ground arith

reap_progress_example :
    IsCulling (reap kernel stopping main 0 calm).0
    × (remaining (reap kernel stopping main 0 calm).0 < 2)
reap_progress_example =
    reap_progress kernel stopping main 0 calm stopping-IsCulling tt (omega arith)

reap_lost_example :
    let (s', g', finished) = reap full_kernel stopping main 0 calm in
    (finished ≡ false) × (perpd_svdef_cullok s' ≡ true)
reap_lost_example = reap_lost full_kernel stopping 0 calm stopping-IsCulling refl refl refl

service-IsSupervised : IsSupervised service
service-IsSupervised = ground arith

reap-IsSupervised_example : IsSupervised (reap kernel service log 256 calm).0
reap-IsSupervised_example =
    reap-IsSupervised kernel-ForkIsPositive service log 256 calm refl service-IsSupervised

abbrev found : Stat
found = record {
  st_dev = 5;
  st_ino = 6;
  is_dir = true;
  is_sticky = true;
  is_user_executable = true;
}

-- what activation makes of the directory
abbrev activated : Svdef
activated = elim (perpd_svdef_activate kernel (codes "web") found calm).0 [
  | some s ↦ s
  | none ↦ going
]

scan-FitsVector_example :
    FitsVector
      (perpd_scan kernel (some (codes "web" ∷ codes "new" ∷ [], false)) (service ∷ []) calm).0
scan-FitsVector_example =
    scan-FitsVector kernel-ForkIsPositive (some (codes "web" ∷ codes "new" ∷ [], false))
      (service ∷ []) calm
      (record { all_supervised = (service-IsSupervised, tt); within = omega arith })

abbrev both_reset : Svdef
both_reset = record service { sv_main = resetting 60; sv_log = resetting 61 }

both_reset-AreResetting : AreResetting both_reset
both_reset-AreResetting = ground arith

control_gentle_example : forceful (do_control kernel both_reset main b'D' true calm).1.trace ≡ 0
control_gentle_example =
    control_gentle kernel both_reset main b'D' true calm both_reset-AreResetting

abbrev fallen : Svdef
fallen = record service { sv_main = idle }
