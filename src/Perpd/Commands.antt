-- ===== src/Perpd/Commands.antt =====
-- perp/perpd_conn.c: what a command does.
use perp.Common.{
  ◌+◌, List, [], suc, codes, All, ◌==◌, ℕ, ◌≡◌, ◌≢◌, ◌<◌, ◌⊎◌, inl, inr, Bool, true, false, none,
  ◌∷◌, arith, Option-cases, refl,
}
use perp.Perpd.Types.{
  Effect, Subsv, Which, main, log, Svdef, Signal, sigcont, sigkill, kill, subsv, Globals, Env,
  ForkIsPositive,
}
use perp.Perpd.Run.{perpd_svdef_run}
use perp.Perpd.Run.Outcome.{Exists}
use perp.Perpd.Control.{
  control, control_continue, Command, send, do_kill, do_control, command, control_down, control_up,
}

-- how many effects are neither a SIGCONT nor a SIGKILL
abbrev pub forceful : List Effect → ℕ
forceful [] = 0
forceful (kill to sigcont ∷ t) = forceful t
forceful (kill to sigkill ∷ t) = forceful t
forceful (kill to sig ∷ t) = suc (forceful t)
forceful (x ∷ t) = suc (forceful t)

do_kill_gentle :
    (s : Svdef) (w : Which) (sig : Signal) (k : Bool) (g : Globals)
    → (subsv s w).is_reset ≡ true
    → forceful (do_kill s w sig k g).trace ≡ forceful g.trace
unfolding do_kill
do_kill_gentle s main sig k g r = ground arith
do_kill_gentle s log sig k g r = ground arith

-- the subservice runs its reset
pub record IsResetting (v : Subsv) : Type 0 where
  pub runs : 0 < v.pid
  pub resets : v.is_reset ≡ true

pub record AreResetting (s : Svdef) : Type 0 where
  pub main_resets : IsResetting s.sv_main
  pub log_resets : IsResetting s.sv_log

continue_gentle :
    (s : Svdef) (w : Which) (k : Bool) (g : Globals)
    → (subsv s w).is_reset ≡ true
    → forceful (control_continue s w k g).1.trace ≡ forceful g.trace
unfolding control_continue
continue_gentle s main k g r = ground arith
continue_gentle s log k g r = ground arith

down_gentle :
    (s : Svdef) (w : Which) (k : Bool) (g : Globals)
    → (subsv s w).is_reset ≡ true
    → forceful (control_down s w k g).1.trace ≡ forceful g.trace
unfolding control_down
down_gentle s main k g r = ground arith
down_gentle s log k g r = ground arith

command_gentle :
    (e : Env) (c : Command) (s : Svdef) (w : Which) (k : Bool) (g : Globals)
    → AreResetting s
    → forceful (control e c s w k g).1.trace ≡ forceful g.trace
unfolding control perpd_svdef_run
command_gentle e (send sig) s main k g r = do_kill_gentle s main sig k g r.main_resets.resets
command_gentle e (send sig) s log k g r = do_kill_gentle s log sig k g r.log_resets.resets
command_gentle e c s main k g r = ground arith
command_gentle e c s log k g r = ground arith

-- No command disturbs a reset: while both subservices run theirs, a command leaves the number of
-- effects in the trace that are no SIGCONT and no SIGKILL as it was.
pub control_gentle :
    (e : Env) (s : Svdef) (w : Which) (cmd : ℕ) (k : Bool) (g : Globals)
    → AreResetting s
    → forceful (do_control e s w cmd k g).1.trace ≡ forceful g.trace
unfolding do_control
control_gentle e s w cmd k g r = elim (Option-cases (command cmd)) [
  | inl unknown ↦ rw (unknown, do_control)
  | inr (c, known) ↦ rw (known, do_control) (command_gentle e c s w k g r)
]

-- the commands that perpd knows
abbrev pub known_commands : List ℕ
known_commands = codes "DUacdhikopqtuw12"

command_unknown : (cmd : ℕ) → All (λ c. cmd ≢ c) known_commands → command cmd ≡ none
unfolding command
command_unknown cmd h = ground arith

-- Every other byte is refused, and changes nothing.
pub control_unknown :
    (e : Env) (s : Svdef) (w : Which) (cmd : ℕ) (k : Bool) (g : Globals)
    → All (λ c. cmd ≢ c) known_commands
    → do_control e s w cmd k g ≡ (s, g, false)
unfolding do_control
control_unknown e s w cmd k g h = rw (command_unknown cmd h, do_control)

up_cases :
    {e : Env}
    → ForkIsPositive e
    → (one_time : Bool) (s : Svdef) (w : Which) (g : Globals) → Exists s w
    → let (s', g') = control_up e one_time s w g in
      ((subsv s' w).want_down ≡ false)
      × ((subsv s' w).is_once ≡ one_time)
      × ((0 < (subsv s' w).pid) ⊎ ((subsv s' w).failing ≡ true))
unfolding control_up perpd_svdef_run
up_cases {e} fp one_time s main g x = elim (Option-cases (e.fork (g.calls + 1))) [
  | inl no_child ↦ ground arith
  | inr (p, child) ↦ ground (arith, fp.fork_pos (g.calls + 1) p child)
]
up_cases {e} fp one_time s log g x = elim (Option-cases (e.fork (g.calls + 1))) [
  | inl no_child ↦ ground arith
  | inr (p, child) ↦ ground (arith, fp.fork_pos (g.calls + 1) p child)
]

-- Where `fork` returns a positive pid to the parent, "up" and "once" on a subservice that exists
-- are known commands, clear `want_down`, set `is_once` for "once" only, and leave the subservice
-- running or due for a retry.
pub control_up_lem :
    {e : Env}
    → ForkIsPositive e
    → (s : Svdef) (w : Which) (cmd : ℕ) (k : Bool) (g : Globals) → (cmd ≡ b'u') ⊎ (cmd ≡ b'o')
    → Exists s w
    → let (s', g', ok) = do_control e s w cmd k g in
      (ok ≡ true)
      × ((subsv s' w).want_down ≡ false)
      × ((subsv s' w).is_once ≡ (cmd == b'o'))
      × ((0 < (subsv s' w).pid) ⊎ ((subsv s' w).failing ≡ true))
unfolding do_control
control_up_lem {e} fp s w cmd k g (inl is_up) x =
    (let h = up_cases fp false s w g x in rw is_up (refl, h.0, h.1, h.2))
control_up_lem {e} fp s w cmd k g (inr is_once) x =
    (let h = up_cases fp true s w g x in rw is_once (refl, h.0, h.1, h.2))
