-- ===== src/Perpd/Run/Governor.antt =====
-- The respawn governor: starts of one subservice are a second apart.
use Prim.Native.Nat.{max}
use perp.Common.{ℕ, ◌+◌, ◌≡◌, ◌<◌, List, [], ◌∷◌, Option, none, some, Bytes, codes, arith}
use perp.Tain.{Tain, second, tain_less, tain_minus, tain_plus, tain_now, tain_iszero}
use perp.Upak.{u64_mod}
use perp.Tain.Arithmetic.{nanos, IsCanonical}
use perp.Perpd.Types.{
  ChildStep, pause, exec, Which, main, log, start, Subsv, Svdef, subsv, Globals, Env, spawn,
}
use perp.Perpd.Run.{governor, launched, child_steps, prog, perpd_svdef_run}
use perp.Perpd.Run.Outcome.{Exists}

-- the pause reaches to the instant that the last start reserved
pub nanos-governor :
    (now when_ok : Tain)
    → IsCanonical now
    → IsCanonical when_ok
    → nanos now + nanos (governor start now when_ok) ≡ max (nanos now) (nanos when_ok)
unfolding governor tain_less tain_minus
nanos-governor now when_ok hn hw = ground arith

-- and what the parent reserves next is a second after the child is let go
pub nanos-when_ok :
    (now when_ok : Tain) (pid : ℕ) (v : Subsv)
    → IsCanonical now
    → IsCanonical when_ok
    → now.sec + 2 < u64_mod
    → when_ok.sec + 2 < u64_mod
    → nanos (launched start now (governor start now when_ok) pid v).when_ok
      ≡ max (nanos now) (nanos when_ok) + second
unfolding governor tain_less tain_minus tain_plus launched
nanos-when_ok now when_ok pid v hn hw fn fw = ground arith

-- when a start that is made at `now` may let its child go
abbrev pub release : Tain → Subsv → ℕ
release now v = max (nanos now) (nanos v.when_ok)

-- what a child executes, if its steps come to that, and how long it pauses before
abbrev pub executes : List ChildStep → Option (List Bytes)
executes [] = none
executes (exec argv ∷ steps) = some argv
executes (step ∷ steps) = executes steps

abbrev pub pauses : List ChildStep → ℕ
pauses [] = 0
pauses (exec argv ∷ steps) = 0
pauses (pause t ∷ steps) = nanos t + pauses steps
pauses (step ∷ steps) = pauses steps

-- the script of a subservice
abbrev pub script : Which → Bytes
script main = codes "./rc.main"
script log = codes "./rc.log"

-- The child waits for as long as the governor says, and then executes what it is given.
steps_start :
    (s : Svdef) (w : Which) (towait : Tain) (argv : List Bytes)
    → (executes (child_steps s w start towait argv) ≡ some argv)
      × (pauses (child_steps s w start towait argv) ≡ nanos towait)
unfolding child_steps tain_iszero
steps_start s main towait argv = ground arith
steps_start s log towait argv = ground arith

-- one process is spawned, which pauses for so long before it executes these arguments
abbrev pub Spawns : Globals → Globals → ℕ → List Bytes → Type 0
Spawns g g' wait argv =
    (steps : List ChildStep) × (g'.trace ≡ spawn steps ∷ g.trace)
    × (executes steps ≡ some argv)
    × (pauses steps ≡ wait)

-- A start of an idle subservice that exists and that forks, at a time and with a `when_ok` that are
-- canonical and below the end of time, spawns one process. After a pause, this executes the
-- subservice's script with the arguments "start" and the name of the service; the pause and the time
-- of the start add up to the later of that time and `when_ok`, `release`; and `when_ok` is set to a
-- second behind `release`.
pub run_spaced :
    (e : Env) (s : Svdef) (w : Which) (g : Globals) (pid : ℕ)
    → Exists s w
    → (subsv s w).pid ≡ 0
    → e.fork (g.calls + 1) ≡ some pid
    → IsCanonical (tain_now (e.gettimeofday g.calls))
    → IsCanonical (subsv s w).when_ok
    → (tain_now (e.gettimeofday g.calls)).sec + 2 < u64_mod
    → (subsv s w).when_ok.sec + 2 < u64_mod
    → let now = tain_now (e.gettimeofday g.calls) in
      let (s', g', ok) = perpd_svdef_run e s w start g in
      ((wait : ℕ) × Spawns g g' wait (script w ∷ codes "start" ∷ s.name ∷ [])
        × (nanos now + wait ≡ release now (subsv s w)))
      × (nanos (subsv s' w).when_ok ≡ release now (subsv s w) + second)
unfolding perpd_svdef_run
run_spaced e s main g pid x idle child hn hw fn fw =
    let now = tain_now (e.gettimeofday g.calls) in
    let towait = governor start now s.sv_main.when_ok in
    let argv = prog e s main start 0 in
    let (executed, paused) = steps_start s main towait argv in
    (
      (
        nanos towait,
        (child_steps s main start towait argv, ground (arith, child), executed, paused),
        nanos-governor _ s.sv_main.when_ok hn hw,
      ),
      ground (arith, nanos-when_ok _ s.sv_main.when_ok pid s.sv_main hn hw fn fw),
    )
run_spaced e s log g pid x idle child hn hw fn fw =
    let now = tain_now (e.gettimeofday g.calls) in
    let towait = governor start now s.sv_log.when_ok in
    let argv = prog e s log start 0 in
    let (executed, paused) = steps_start s log towait argv in
    (
      (
        nanos towait,
        (child_steps s log start towait argv, ground (arith, child), executed, paused),
        nanos-governor _ s.sv_log.when_ok hn hw,
      ),
      ground (arith, nanos-when_ok _ s.sv_log.when_ok pid s.sv_log hn hw fn fw),
    )
