-- ===== src/Perpd/Run.antt =====
-- perp/perpd_svdef.c: `perpd_svdef_run`, and the triggers of perp/perpd.c that it calls.
pub mod Governor
pub mod Outcome
pub mod ResetArgs
use perp.Common.{
  ℕ, ◌+◌, ◌&&◌, Bool, true, false, not, none, some, List, [], ◌∷◌, ◌++◌, Bytes, codes, ltb,
  if◌then◌else◌,
}
use perp.Nfmt.{nfmt_uint32}
use perp.Tain.{Tain, tain_now, tain_less, tain_iszero, tain_plus, tain_minus, tain_load}
use perp.Perpd.Types.{
  Which, main, log, Target, start, reset, Subsv, Svdef, subsv, set_subsv, ChildStep, set_session,
  change_dir, close_fd, close_range, duplicate, set_perp_base, pause, reset_signals, exec, spawn,
  ping, Globals, Env, emit, asked,
}

-- `perpd_trigger_scan` and `perpd_trigger_fail`
unfoldable pub trigger_scan : Globals → Globals
trigger_scan g =
    if g.flag_terminating then g else emit ping (record g { flag_hup = g.flag_hup + 1 })

unfoldable pub trigger_fail : Globals → Globals
trigger_fail g =
    if g.flag_terminating then g else emit ping (record g { flag_failing = g.flag_failing + 1 })

abbrev pub is_main : Which → Bool
is_main main = true
is_main log = false

abbrev pub is_start : Target → Bool
is_start start = true
is_start reset = false

module _ (e : Env) where
  -- the arguments that follow `name` for a reset, from the status of the subservice
  unfoldable pub reset_args : ℕ → List Bytes
  reset_args wstat =
      if e.if_exited wstat
      then codes "exit" ∷ nfmt_uint32 (e.exit_status wstat) ∷ []
      else let signaled = e.if_signaled wstat in
        let n = if signaled then e.term_sig wstat else e.stop_sig wstat in
        (if signaled then codes "signal" else codes "stopped")
        ∷ nfmt_uint32 n
        ∷ elim (e.signal_name n) [ some s ↦ s | none ↦ codes "SIGUNKNOWN" ]
        ∷ []

  unfoldable pub prog : Svdef → Which → Target → ℕ → List Bytes
  unfolding reset_args
  prog s w t wstat =
      (if is_main w then codes "./rc.main" else codes "./rc.log")
      ∷ (if is_start t then codes "start" else codes "reset")
      ∷ s.name
      ∷ (if is_start t then [] else reset_args wstat)

-- the descriptors of the child of a service that logs
unfoldable pub logpipe_steps : Svdef → Which → Target → List ChildStep
logpipe_steps s w t =
    (if is_main w
      then close_fd 1 ∷ duplicate s.logpipe_write 1 ∷ []
      else if is_start t
      then close_fd 0 ∷ duplicate s.logpipe_read 0 ∷ []
      else [])
    ++ (close_fd s.logpipe_read ∷ close_fd s.logpipe_write ∷ [])

unfoldable pub child_steps : Svdef → Which → Target → Tain → List Bytes → List ChildStep
unfolding logpipe_steps
child_steps s w t towait argv =
    set_session
    ∷ change_dir s.fd_dir
    ∷ ((if s.has_log then logpipe_steps s w t else [])
        ++ (close_range 3 1024
            ∷ set_perp_base
            ∷ ((if is_start t && not (tain_iszero towait) then pause towait ∷ [] else [])
                ++ (reset_signals ∷ exec argv ∷ []))))

-- the target that is tried, with the traces of the last run wiped
abbrev pub attempt : Target → Subsv → Subsv
attempt t v = record v { is_reset = not (is_start t); pid = 0; wstat = 0; failing = false }

-- the pause that the respawn governor imposes
unfoldable pub governor : Target → Tain → Tain → Tain
governor t now when_ok =
    if is_start t && tain_less now when_ok then tain_minus when_ok now else tain_load 0 0

-- the parent's record of a child that runs
unfoldable pub launched : Target → Tain → Tain → ℕ → Subsv → Subsv
launched start now towait pid v = record v {
  pid = pid;
  when = now;
  when_ok = tain_plus (tain_plus now (tain_load 1 0)) towait;
}
launched reset now towait pid v = record v { pid = pid; when = now }

module _ (e : Env) where
  -- The new definition, the new globals, and whether 0 is returned (`false` is -1).
  unfoldable pub fork_exec : Svdef → Which → Target → Tain → Globals → Svdef × Globals × Bool
  unfolding governor launched trigger_fail prog child_steps
  fork_exec s w t now g =
      let v = attempt t (subsv s w) in
      let towait = governor t now v.when_ok in
      let steps = child_steps s w t towait (prog e s w t v.wstat) in
      elim (e.fork g.calls) [
        | none ↦ (set_subsv s w (record v { failing = true }), trigger_fail (asked g), false)
        | some pid ↦
            (set_subsv s w (launched t now towait pid v), emit (spawn steps) (asked g), true)
      ]

  unfoldable pub perpd_svdef_run : Svdef → Which → Target → Globals → Svdef × Globals × Bool
  unfolding fork_exec
  perpd_svdef_run s w t g =
      if not (is_main w) && not s.has_log
      then (s, g, true)
      else if ltb 0 (subsv s w).pid
      then (s, g, true)
      else fork_exec s w t (tain_now (e.gettimeofday g.calls)) (asked g)
