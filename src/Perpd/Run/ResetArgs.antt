-- ===== src/Perpd/Run/ResetArgs.antt =====
-- The arguments that a reset is given.
use perp.Common.{ℕ, ◌+◌, ◌≡◌, some, [], ◌∷◌, codes, arith, if◌then◌else◌}
use perp.Nfmt.{nfmt_uint32}
use perp.Perpd.Types.{
  Which, main, log, reset, Svdef, subsv, set_subsv, Globals, Env, ZeroIsExit, spawn,
}
use perp.Perpd.Run.{is_main, perpd_svdef_run, child_steps}
use perp.Perpd.Run.Outcome.{Exists}
use perp.Tain.{tain_load}

-- A reset of an idle subservice does the same whatever wait status its last child left.
pub run_reset_forgets :
    (e : Env) (s : Svdef) (w : Which) (wstat : ℕ) (g : Globals)
    → Exists s w
    → (subsv s w).pid ≡ 0
    → perpd_svdef_run e s w reset g
      ≡ perpd_svdef_run e (set_subsv s w (record (subsv s w) { wstat = wstat })) w reset g
unfolding perpd_svdef_run
run_reset_forgets e s main wstat g x idle = ground arith
run_reset_forgets e s log wstat g x idle = ground arith

-- Where a wait status of 0 reads as an exit with 0, every reset of an idle subservice that forks
-- spawns its script with the arguments "exit" and "0", whatever the child before it ended with.
pub run_reset_says_exit_0 :
    (e : Env) (s : Svdef) (w : Which) (g : Globals) (pid : ℕ)
    → ZeroIsExit e
    → Exists s w
    → (subsv s w).pid ≡ 0
    → e.fork (g.calls + 1) ≡ some pid
    → (perpd_svdef_run e s w reset g).1.trace
      ≡ spawn (
          child_steps s w reset (tain_load 0 0) (
            (if is_main w then codes "./rc.main" else codes "./rc.log")
            ∷ codes "reset"
            ∷ s.name
            ∷ codes "exit"
            ∷ codes "0"
            ∷ []))
        ∷ g.trace
unfolding perpd_svdef_run nfmt_uint32
run_reset_says_exit_0 e s main g pid z x idle child = ground arith
run_reset_says_exit_0 e s log g pid z x idle child = ground arith
