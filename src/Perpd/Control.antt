-- ===== src/Perpd/Control.antt =====
-- perp/perpd_conn.c: `do_kill` and `do_control`.
use perp.Common.{ℕ, ◌&&◌, Bool, Option, none, some, true, false, not, ltb, ◌==◌, if◌then◌else◌}
use perp.Perpd.Types.{
  Which, main, log, start, Signal, sigalrm, sigcont, sighup, sigint, sigkill, sigquit, sigstop,
  sigterm, sigusr1, sigusr2, sigwinch, process, group, kill, Svdef, subsv, set_subsv, Globals, Env,
  emit,
}
use perp.Perpd.Run.{is_main, perpd_svdef_run}

-- the cases of the `switch`: those that send one signal, and the others
pub data Command : Type 0 where
  both_down both_up continue down once pause up : Command
  send : Signal → Command

-- The label of the case. `SIGWINCH` is taken as defined.
unfoldable pub command : ℕ → Option Command
command cmd =
    if cmd == b'D'
    then some both_down
    else if cmd == b'U'
    then some both_up
    else if cmd == b'a'
    then some (send sigalrm)
    else if cmd == b'c'
    then some continue
    else if cmd == b'd'
    then some down
    else if cmd == b'h'
    then some (send sighup)
    else if cmd == b'i'
    then some (send sigint)
    else if cmd == b'k'
    then some (send sigkill)
    else if cmd == b'o'
    then some once
    else if cmd == b'p'
    then some pause
    else if cmd == b'q'
    then some (send sigquit)
    else if cmd == b't'
    then some (send sigterm)
    else if cmd == b'u'
    then some up
    else if cmd == b'w'
    then some (send sigwinch)
    else if cmd == b'1'
    then some (send sigusr1)
    else if cmd == b'2'
    then some (send sigusr2)
    else none

-- the signals that reach a subservice while it runs its reset
abbrev pub passes_reset : Signal → Bool
passes_reset sigcont = true
passes_reset sigkill = true
passes_reset _ = false

unfoldable pub do_kill : Svdef → Which → Signal → Bool → Globals → Globals
do_kill s w sig is_killpg g =
    let v = subsv s w in
    let to = if is_killpg then group v.pid else process v.pid in
    if not (is_main w) && not s.has_log
    then g
    else if not (ltb 0 v.pid)
    then g
    else if not v.is_reset
    then emit (kill to sig) g
    else if passes_reset sig
    then emit (kill to sig) g
    else g

-- The cases of `do_control` that do more than send one signal. A case that calls `do_control`
-- again calls the case meant.
unfoldable pub control_continue : Svdef → Which → Bool → Globals → Svdef × Globals
unfolding do_kill
control_continue s w is_killpg g =
    let s1 = set_subsv s w (record (subsv s w) { is_paused = false }) in
    (s1, do_kill s1 w sigcont is_killpg g)

unfoldable pub control_down : Svdef → Which → Bool → Globals → Svdef × Globals
unfolding control_continue
control_down s w is_killpg g =
    let s1 = set_subsv s w (record (subsv s w) { want_down = true }) in
    if ltb 0 (subsv s1 w).pid
    then control_continue s1 w is_killpg (do_kill s1 w sigterm is_killpg g)
    else (s1, g)

unfoldable pub control_pause : Svdef → Which → Bool → Globals → Svdef × Globals
unfolding do_kill
control_pause s w is_killpg g =
    let s1 = set_subsv s w (record (subsv s w) { is_paused = true }) in
    if ltb 0 (subsv s w).pid && not (subsv s w).is_reset
    then (s1, do_kill s1 w sigstop is_killpg g)
    else (s, g)

unfoldable pub control_both_down : Svdef → Which → Bool → Globals → Svdef × Globals
unfolding control_down
control_both_down s main is_killpg g =
    let (s1, g1) = control_down s main is_killpg g in control_down s1 log is_killpg g1
control_both_down s log is_killpg g = (s, g)

module _ (e : Env) where
  -- "once" and "up": the flag `is_once` is set or cleared
  unfoldable pub control_up : Bool → Svdef → Which → Globals → Svdef × Globals
  control_up one_time s w g =
      let s1 = set_subsv s w (record (subsv s w) { is_once = one_time; want_down = false }) in
      let (s2, g2, ok) = perpd_svdef_run e s1 w start g in
      if (subsv s1 w).pid == 0 then (s2, g2) else (s1, g)

  unfoldable pub control_both_up : Svdef → Which → Globals → Svdef × Globals
  unfolding control_up
  control_both_up s main g = let (s1, g1) = control_up false s log g in control_up false s1 main g1
  control_both_up s log g = (s, g)

  unfoldable pub control : Command → Svdef → Which → Bool → Globals → Svdef × Globals
  unfolding control_both_down control_both_up control_pause
  control both_down s w k g = control_both_down s w k g
  control both_up s w k g = control_both_up s w g
  control continue s w k g = control_continue s w k g
  control down s w k g = control_down s w k g
  control once s w k g = control_up true s w g
  control pause s w k g = control_pause s w k g
  control up s w k g = control_up false s w g
  control (send sig) s w k g = (s, do_kill s w sig k g)

  -- The Boolean is the result: `true` for 0, `false` for -1.
  unfoldable pub do_control : Svdef → Which → ℕ → Bool → Globals → Svdef × Globals × Bool
  unfolding control command
  do_control s w cmd k g = elim (command cmd) [
    | none ↦ (s, g, false)
    | some c ↦ let (s', g') = control c s w k g in (s', g', true)
  ]
