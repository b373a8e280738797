-- ===== src/Perpd/Supervision.antt =====
-- perp/perpd_svdef.c, perp/perpd.c: retries, ends of children and deactivation.
pub mod Control
pub mod Activation
use perp.Common.{ℕ, refl, arith}
use perp.Perpd.Types.{
  Which, main, log, start, reset, Svdef, set_subsv, Globals, Env, ForkIsPositive,
}
use perp.Perpd.Run.Outcome.{IsSupervised, Exists, run_main-IsSupervised, run_log-IsSupervised}
use perp.Perpd.Svdef.{retry, perpd_svdef_checkfail, perpd_svdef_wantcull, end_log}
use perp.Perpd.Reap.{reap, note_exit}

module _ {e : Env} (fp : ForkIsPositive e) where
  pub retry-IsSupervised :
      (s : Svdef) (w : Which) (g : Globals) → IsSupervised s → IsSupervised (retry e s w g).0
  unfolding retry
  retry-IsSupervised s main g h = ground (
    arith,
    run_main-IsSupervised fp s reset g h.log_tended h.no_log_idle (λ p. h.main_tended),
    run_main-IsSupervised fp s start g h.log_tended h.no_log_idle (λ p. h.main_tended),
  )
  retry-IsSupervised s log g h = ground (
    arith,
    run_log-IsSupervised fp s reset g h.main_tended h.no_log_idle (λ a p. h.log_tended a),
    run_log-IsSupervised fp s start g h.main_tended h.no_log_idle (λ a p. h.log_tended a),
  )

  pub checkfail-IsSupervised :
      (s : Svdef) (g : Globals) → IsSupervised s → IsSupervised (perpd_svdef_checkfail e s g).0
  unfolding perpd_svdef_checkfail
  checkfail-IsSupervised s g h =
      let h1 = retry-IsSupervised s log g h in
      ground (
        arith,
        h1,
        retry-IsSupervised (retry e s log g).0 main (retry e s log g).1 h1,
        retry-IsSupervised s main g h,
      )

  -- Where `fork` returns a positive pid to the parent, the end of a child of a supervised service
  -- leaves the service supervised, whatever the wait status.
  pub reap-IsSupervised :
      (s : Svdef) (w : Which) (wstat : ℕ) (g : Globals)
      → Exists s w
      → IsSupervised s
      → IsSupervised (reap e s w wstat g).0
  unfolding reap end_log
  reap-IsSupervised s main wstat g x h =
      let s1 = set_subsv s main (note_exit wstat s.sv_main) in
      ground (
        arith,
        run_main-IsSupervised fp s1 reset g h.log_tended h.no_log_idle (λ p. absurd (omega arith)),
        run_main-IsSupervised fp s1 start g h.log_tended h.no_log_idle (λ p. absurd (omega arith)),
      )
  reap-IsSupervised s log wstat g x h =
      let s1 = set_subsv s log (note_exit wstat s.sv_log) in
      ground (
        arith,
        run_log-IsSupervised fp s1 reset g h.main_tended (λ a. refl) (λ a p. absurd (omega arith)),
        run_log-IsSupervised fp s1 start g h.main_tended (λ a. refl) (λ a p. absurd (omega arith)),
      )

pub wantcull-IsSupervised :
    (s : Svdef) (g : Globals) → IsSupervised s → IsSupervised (perpd_svdef_wantcull s g).0
unfolding perpd_svdef_wantcull
wantcull-IsSupervised s g h = ground arith
