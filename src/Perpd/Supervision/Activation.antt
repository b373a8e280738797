-- ===== src/Perpd/Supervision/Activation.antt =====
-- perp/perpd_svdef.c: `perpd_svdef_activate`.
use perp.Common.{
  ◌+◌, ◌≡◌, inl, inr, ◌||◌, true, false, some, refl, Bool-cases, Option-cases, Bytes, [], arith,
}
use perp.Perpd.Types.{log, start, Svdef, Globals, Env, Stat, ForkIsPositive, asked}
use perp.Perpd.Run.{perpd_svdef_run}
use perp.Perpd.Run.Outcome.{IsTended, IsSupervised, run_main-IsSupervised, run-IsTended, run_frame}
use perp.Perpd.Svdef.{
  start_log, start_main, first_starts, perpd_svdef_activate, inspect, open_logpipe, in_dir,
}

module _ {e : Env} (fp : ForkIsPositive e) where
  -- the logger's first start leaves the rest alone
  first_log :
      (s : Svdef) (g : Globals)
      → s.has_log ≡ true
      → s.sv_log.pid ≡ 0
      → let s1 = (perpd_svdef_run e s log start g).0 in
        IsTended s1.sv_log
        × (s1.sv_main ≡ s.sv_main)
        × (s1.has_log ≡ s.has_log)
        × (s1.down ≡ s.down)
  first_log s g a idle =
      ground (arith, run-IsTended fp s log start g a idle, run_frame e s log start g)

  start_log_lem :
      (s : Svdef) (g : Globals)
      → s.sv_log.pid ≡ 0
      → let s1 = (start_log e s g).0 in
        (s1.has_log ≡ true → IsTended s1.sv_log)
        × (s1.has_log ≡ false → s1.sv_log.pid ≡ 0)
        × (s1.sv_main ≡ s.sv_main)
  unfolding start_log
  start_log_lem s g idle = elim (Bool-cases s.has_log) [
    | inl present ↦
        let logging = record s { sv_log = record s.sv_log { is_log = true } } in
        ground (arith, first_log logging g present idle)
    | inr absent ↦ ground arith
  ]

  start_main-IsSupervised :
      (s : Svdef) (g : Globals)
      → s.sv_main.pid ≡ 0
      → s.sv_main.failing ≡ false
      → (s.has_log ≡ true → IsTended s.sv_log)
      → (s.has_log ≡ false → s.sv_log.pid ≡ 0)
      → IsSupervised (start_main e s g).0
  unfolding start_main
  start_main-IsSupervised s g idle fresh hl hn =
      let flagged = record s {
        sv_main = record s.sv_main { is_once = s.sv_main.is_once || s.once };
      } in
      ground (arith, run_main-IsSupervised fp flagged start g hl hn (λ p. absurd (omega arith)))

  first_starts-IsSupervised :
      (s : Svdef) (g : Globals)
      → s.sv_main.pid ≡ 0
      → s.sv_main.failing ≡ false
      → s.sv_log.pid ≡ 0
      → IsSupervised (first_starts e s g).0
  unfolding first_starts
  first_starts-IsSupervised s g idle fresh log_idle =
      let (hl, hn, same) = start_log_lem s g log_idle in
      let (s1, g1) = start_log e s g in
      start_main-IsSupervised s1 g1 (rw same idle) (rw same fresh) hl hn

  open_logpipe-IsSupervised :
      (s : Svdef) (g : Globals) {r : Svdef × Globals}
      → s.sv_main.pid ≡ 0
      → s.sv_main.failing ≡ false
      → s.sv_log.pid ≡ 0
      → open_logpipe e s g ≡ some r
      → IsSupervised r.0
  unfolding open_logpipe
  open_logpipe-IsSupervised s g idle fresh log_idle h = elim (Option-cases (e.pipe g.calls)) [
    | inl failed ↦ ground (arith, first_starts-IsSupervised s g idle fresh log_idle)
    | inr (p, opened) ↦
        let piped = record s { logpipe_read = p.0; logpipe_write = p.1 } in
        ground (
          arith,
          first_starts-IsSupervised s g idle fresh log_idle,
          first_starts-IsSupervised piped (asked g) idle fresh log_idle,
        )
  ]

  -- Where `fork` returns a positive pid to the parent, a service that activation yields is
  -- supervised.
  pub activate-IsSupervised :
      (svdir : Bytes) (st : Stat) (g : Globals) {s : Svdef}
      → (perpd_svdef_activate e svdir st g).0 ≡ some s
      → IsSupervised s
  unfolding perpd_svdef_activate
  activate-IsSupervised svdir st g h =
      elim (Option-cases (e.open_dir (g.calls + 1) (in_dir svdir []))) [
        | inl failed ↦ ground arith
        | inr (fd, opened) ↦
            let s0 = inspect e svdir st fd g.calls in
            let g5 = record g { calls = g.calls + 5 } in
            elim (Option-cases (open_logpipe e s0 g5)) [
              | inl failed ↦ ground arith
              | inr (r, ready) ↦
                  ground (arith, open_logpipe-IsSupervised s0 g5 refl refl refl ready)
            ]
      ]
