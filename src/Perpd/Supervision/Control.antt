-- ===== src/Perpd/Supervision/Control.antt =====
-- perp/perpd_conn.c: commands.
use perp.Common.{ℕ, inl, inr, Bool, true, false, Option-cases, arith}
use perp.Perpd.Types.{Which, main, log, start, Svdef, set_subsv, Globals, Env, ForkIsPositive}
use perp.Perpd.Run.Outcome.{IsSupervised, run_main-IsSupervised, run_log-IsSupervised}
use perp.Perpd.Control.{
  Command, both_down, both_up, continue, down, once, pause, up, send, command, control, do_control,
  control_up, control_down, control_pause, control_continue, control_both_up, control_both_down,
}

module _ {e : Env} (fp : ForkIsPositive e) where
  control_up-IsSupervised :
      (one_time : Bool) (s : Svdef) (w : Which) (g : Globals)
      → IsSupervised s
      → IsSupervised (control_up e one_time s w g).0
  unfolding control_up
  control_up-IsSupervised one_time s main g h =
      let s1 = set_subsv s main (record s.sv_main { is_once = one_time; want_down = false }) in
      ground
        (arith, run_main-IsSupervised fp s1 start g h.log_tended h.no_log_idle (λ p. ground arith))
  control_up-IsSupervised one_time s log g h =
      let s1 = set_subsv s log (record s.sv_log { is_once = one_time; want_down = false }) in
      ground (
        arith,
        run_log-IsSupervised fp s1 start g h.main_tended h.no_log_idle (λ a p. ground arith),
      )

control_down-IsSupervised :
    (s : Svdef) (w : Which) (k : Bool) (g : Globals)
    → IsSupervised s
    → IsSupervised (control_down s w k g).0
unfolding control_down
control_down-IsSupervised s main k g h = ground arith
control_down-IsSupervised s log k g h = ground arith

control_pause-IsSupervised :
    (s : Svdef) (w : Which) (k : Bool) (g : Globals)
    → IsSupervised s
    → IsSupervised (control_pause s w k g).0
unfolding control_pause
control_pause-IsSupervised s main k g h = ground arith
control_pause-IsSupervised s log k g h = ground arith

control_continue-IsSupervised :
    (s : Svdef) (w : Which) (k : Bool) (g : Globals)
    → IsSupervised s
    → IsSupervised (control_continue s w k g).0
unfolding control_continue
control_continue-IsSupervised s main k g h = ground arith
control_continue-IsSupervised s log k g h = ground arith

control_both_down-IsSupervised :
    (s : Svdef) (w : Which) (k : Bool) (g : Globals)
    → IsSupervised s
    → IsSupervised (control_both_down s w k g).0
unfolding control_both_down
control_both_down-IsSupervised s main k g h =
    let (s1, g1) = control_down s main k g in
    control_down-IsSupervised s1 log k g1 (control_down-IsSupervised s main k g h)
control_both_down-IsSupervised s log k g h = h

module _ {e : Env} (fp : ForkIsPositive e) where
  control_both_up-IsSupervised :
      (s : Svdef) (w : Which) (g : Globals)
      → IsSupervised s
      → IsSupervised (control_both_up e s w g).0
  unfolding control_both_up
  control_both_up-IsSupervised s main g h =
      let (s1, g1) = control_up e false s log g in
      control_up-IsSupervised fp false s1 main g1 (control_up-IsSupervised fp false s log g h)
  control_both_up-IsSupervised s log g h = h

  command-IsSupervised :
      (c : Command) (s : Svdef) (w : Which) (k : Bool) (g : Globals)
      → IsSupervised s
      → IsSupervised (control e c s w k g).0
  unfolding control
  command-IsSupervised both_down s w k g h = control_both_down-IsSupervised s w k g h
  command-IsSupervised both_up s w k g h = control_both_up-IsSupervised s w g h
  command-IsSupervised continue s w k g h = control_continue-IsSupervised s w k g h
  command-IsSupervised down s w k g h = control_down-IsSupervised s w k g h
  command-IsSupervised once s w k g h = control_up-IsSupervised fp true s w g h
  command-IsSupervised pause s w k g h = control_pause-IsSupervised s w k g h
  command-IsSupervised up s w k g h = control_up-IsSupervised fp false s w g h
  command-IsSupervised (send sig) s w k g h = h

  -- Where `fork` returns a positive pid to the parent, any byte as a command leaves a supervised
  -- service supervised.
  pub control-IsSupervised :
      (s : Svdef) (w : Which) (cmd : ℕ) (k : Bool) (g : Globals)
      → IsSupervised s
      → IsSupervised (do_control e s w cmd k g).0
  unfolding do_control
  control-IsSupervised s w cmd k g h = elim (Option-cases (command cmd)) [
    | inl unknown ↦ rw (unknown, do_control) h
    | inr (c, known) ↦ rw (known, do_control) (command-IsSupervised c s w k g h)
  ]
