-- ===== src/Perpd/Run/Outcome.antt =====
-- What `perpd_svdef_run` leaves behind, on each of its ways out.
use perp.Common.{
  ◌+◌, ◌≡◌, ◌<◌, ◌⊎◌, inl, inr, refl, if◌then◌else◌, Bool-cases, true, false, not, arith,
  Option-cases,
}
use native.Mathlib.Decide.{dec_lt}
use perp.Perpd.Types.{
  Which, main, log, Target, start, reset, Subsv, Svdef, subsv, set_subsv, Globals, Env,
  ForkIsPositive,
}
use perp.Perpd.Run.{is_start, perpd_svdef_run}

-- A subservice is tended: it runs, a failed fork is going to be retried, or it is wanted down.
-- A retry is due only where nothing runs.
pub record IsTended (v : Subsv) : Type 0 where
  pub accounted : (0 < v.pid) ⊎ (v.failing ≡ true) ⊎ (v.want_down ≡ true)
  pub failing_idle : v.failing ≡ true → v.pid ≡ 0

-- Both subservices are; an absent logger runs nothing.
pub record IsSupervised (s : Svdef) : Type 0 where
  pub main_tended : IsTended s.sv_main
  pub log_tended : s.has_log ≡ true → IsTended s.sv_log
  pub no_log_idle : s.has_log ≡ false → s.sv_log.pid ≡ 0

-- Can this subservice be run?
abbrev pub Exists : Svdef → Which → Type 0
Exists s main = Unit {0}
Exists s log = s.has_log ≡ true

-- the two outcomes of a run: `attempt` of an idle subservice
abbrev pub Started : Svdef → Which → Target → Type 0
Started s w t =
    (0 < (subsv s w).pid)
    × ((subsv s w).failing ≡ false)
    × ((subsv s w).is_reset ≡ not (is_start t))
    × ((subsv s w).wstat ≡ 0)

abbrev pub Refused : Svdef → Which → Target → Type 0
Refused s w t =
    ((subsv s w).pid ≡ 0) × ((subsv s w).failing ≡ true) × ((subsv s w).is_reset ≡ not (is_start t))

module _ (e : Env) where
  -- Where `fork` returns a positive pid to the parent, a run of an idle subservice ends in one of
  -- two ways: 0 is returned, it runs the target, is not failing and `wstat` is 0; or -1 is
  -- returned, it is idle and failing, with the target noted for the retry, and `flag_failing` is
  -- raised unless perpd is terminating.
  pub run_outcome :
      ForkIsPositive e
      → (s : Svdef) (w : Which) (t : Target) (g : Globals) → Exists s w
      → (subsv s w).pid ≡ 0
      → let (s', g', ok) = perpd_svdef_run e s w t g in
        ((ok ≡ true) × Started s' w t × (g'.flag_failing ≡ g.flag_failing))
        ⊎ ((ok ≡ false)
            × Refused s' w t
            × (g'.flag_failing
                ≡ (if g.flag_terminating then g.flag_failing else g.flag_failing + 1)))
  unfolding perpd_svdef_run
  run_outcome fp s main start g x idle = elim (Option-cases (e.fork (g.calls + 1))) [
    | inl no_child ↦ ground arith
    | inr (p, child) ↦ ground (arith, fp.fork_pos (g.calls + 1) p child)
  ]
  run_outcome fp s main reset g x idle = elim (Option-cases (e.fork (g.calls + 1))) [
    | inl no_child ↦ ground arith
    | inr (p, child) ↦ ground (arith, fp.fork_pos (g.calls + 1) p child)
  ]
  run_outcome fp s log start g x idle = elim (Option-cases (e.fork (g.calls + 1))) [
    | inl no_child ↦ ground arith
    | inr (p, child) ↦ ground (arith, fp.fork_pos (g.calls + 1) p child)
  ]
  run_outcome fp s log reset g x idle = elim (Option-cases (e.fork (g.calls + 1))) [
    | inl no_child ↦ ground arith
    | inr (p, child) ↦ ground (arith, fp.fork_pos (g.calls + 1) p child)
  ]

-- Only the subservice named changes.
pub run_frame :
    (e : Env) (s : Svdef) (w : Which) (t : Target) (g : Globals)
    → (perpd_svdef_run e s w t g).0 ≡ set_subsv s w (subsv (perpd_svdef_run e s w t g).0 w)
unfolding perpd_svdef_run
run_frame e s main t g = ground arith
run_frame e s log t g = ground arith

-- An idle subservice is tended after a run, whatever it was before.
pub run-IsTended :
    {e : Env}
    → ForkIsPositive e
    → (s : Svdef) (w : Which) (t : Target) (g : Globals) → Exists s w
    → (subsv s w).pid ≡ 0
    → IsTended (subsv (perpd_svdef_run e s w t g).0 w)
run-IsTended {e} fp s w t g x idle = ground (arith, run_outcome e fp s w t g x idle)

-- Where something runs, or there is no logger, nothing happens.
pub run_busy :
    (e : Env) (s : Svdef) (w : Which) (t : Target) (g : Globals)
    → (0 < (subsv s w).pid) ⊎ ((w ≡ log) × (s.has_log ≡ false))
    → perpd_svdef_run e s w t g ≡ (s, g, true)
unfolding perpd_svdef_run
run_busy e s main t g busy = ground arith
run_busy e s log t g busy = ground arith

pub run_main-IsSupervised :
    {e : Env}
    → ForkIsPositive e
    → (s : Svdef) (t : Target) (g : Globals) → (s.has_log ≡ true → IsTended s.sv_log)
    → (s.has_log ≡ false → s.sv_log.pid ≡ 0)
    → (0 < s.sv_main.pid → IsTended s.sv_main)
    → IsSupervised (perpd_svdef_run e s main t g).0
run_main-IsSupervised {e} fp s t g hl hn hm = elim (dec_lt 0 s.sv_main.pid) [
  | yes p ↦
      rw (run_busy e s main t g (inl p))
        (record { main_tended = hm p; log_tended = hl; no_log_idle = hn })
  | no p ↦ rw (run_frame e s main t g) (record {
    main_tended = run-IsTended fp s main t g tt (omega arith);
    log_tended = hl;
    no_log_idle = hn;
  })
]

pub run_log-IsSupervised :
    {e : Env}
    → ForkIsPositive e
    → (s : Svdef) (t : Target) (g : Globals) → IsTended s.sv_main
    → (s.has_log ≡ false → s.sv_log.pid ≡ 0)
    → (s.has_log ≡ true → 0 < s.sv_log.pid → IsTended s.sv_log)
    → IsSupervised (perpd_svdef_run e s log t g).0
run_log-IsSupervised {e} fp s t g hm hn hl = elim (Bool-cases s.has_log) [
  | inr absent ↦
      rw (run_busy e s log t g (inr (refl, absent)))
        (record { main_tended = hm; log_tended = λ h. cc; no_log_idle = hn })
  | inl present ↦ elim (dec_lt 0 s.sv_log.pid) [
    | yes p ↦
        rw (run_busy e s log t g (inl p))
          (record { main_tended = hm; log_tended = λ h. hl h p; no_log_idle = hn })
    | no p ↦ rw (run_frame e s log t g) (record {
      main_tended = hm;
      log_tended = λ h. run-IsTended fp s log t g h (omega arith);
      no_log_idle = λ h. cc;
    })
  ]
]
