-- ===== src/Perpd/Deactivation.antt =====
-- perp/perpd_svdef.c and perp/perpd.c: how a service that is to go comes to its end.
use perp.Common.{
  ℕ, ◌+◌, ◌≡◌, ◌<◌, ◌↔◌, inl, inr, true, false, none, ◌∷◌, ltb, arith, if◌then◌else◌, Option-cases,
}
use perp.Perpd.Types.{
  Which, main, log, Subsv, Svdef, subsv, Globals, Env, kill, close, process, sigterm, sigcont,
}
use perp.Perpd.Run.{perpd_svdef_run}
use perp.Perpd.Run.Outcome.{Exists}
use perp.Perpd.Svdef.{perpd_svdef_wantcull, perpd_svdef_cullok, end_log}
use perp.Perpd.Reap.{reap}

-- the ends of children that a subservice still waits for: two from its start script, one from its
-- reset
abbrev pub exits_left : Subsv → ℕ
exits_left v = if ltb 0 v.pid then if v.is_reset then 1 else 2 else 0

abbrev pub remaining : Svdef → ℕ
remaining s = exits_left s.sv_main + (if s.has_log then exits_left s.sv_log else 0)

-- `perpd_svdef_cullok` is true exactly where the service is flagged and waits for no child.
pub cullok_iff : (s : Svdef) → (perpd_svdef_cullok s ≡ true) ↔ ((s.cull ≡ true) × (remaining s ≡ 0))
unfolding perpd_svdef_cullok
cullok_iff s = ground arith

-- flagged, and wanted down throughout
pub record IsCulling (s : Svdef) : Type 0 where
  pub culling : s.cull ≡ true
  pub main_down : s.sv_main.want_down ≡ true
  pub log_down : s.has_log ≡ true → s.sv_log.want_down ≡ true

-- `perpd_svdef_wantcull` flags the service and wants all of it down, leaves the ends of children
-- that it waits for as they were, and returns 1 exactly where there are none.
pub wantcull_lem :
    (s : Svdef) (g : Globals)
    → let (s', g', ready) = perpd_svdef_wantcull s g in
      IsCulling s' × (remaining s' ≡ remaining s) × ((ready ≡ true) ↔ (remaining s ≡ 0))
unfolding perpd_svdef_wantcull
wantcull_lem s g = ground arith

-- The end of any child of a service that is being deactivated leaves it being deactivated, with
-- fewer ends of children to wait for.
pub reap_progress :
    (e : Env) (s : Svdef) (w : Which) (wstat : ℕ) (g : Globals)
    → IsCulling s
    → Exists s w
    → 0 < (subsv s w).pid
    → IsCulling (reap e s w wstat g).0 × (remaining (reap e s w wstat g).0 < remaining s)
unfolding reap perpd_svdef_run end_log
reap_progress e s main wstat g c x p = elim (Option-cases (e.fork (g.calls + 1))) [
  | inl no_child ↦ ground arith
  | inr (pid, child) ↦ ground arith
]
reap_progress e s log wstat g c x p = elim (Option-cases (e.fork (g.calls + 1))) [
  | inl no_child ↦ ground arith
  | inr (pid, child) ↦ ground arith
]

-- When the reset ends that is the last thing a deactivated service waits for, the loop of
-- `perpd_waitup` goes on to its check for the harvest, the service passes it, and no global
-- changes.
pub reap_last :
    (e : Env) (s : Svdef) (w : Which) (wstat : ℕ) (g : Globals)
    → IsCulling s
    → Exists s w
    → (subsv s w).is_reset ≡ true
    → remaining s ≡ 1
    → 0 < (subsv s w).pid
    → let (s', g', finished) = reap e s w wstat g in
      (finished ≡ true) × (perpd_svdef_cullok s' ≡ true) × (g' ≡ g)
unfolding reap perpd_svdef_cullok
reap_last e s main wstat g c x r l p = ground arith
reap_last e s log wstat g c x r l p = ground arith

-- When the reset of the main service of a deactivated service ends, and its logger runs its start
-- script, the logger's pipe is closed and the logger is sent SIGTERM and SIGCONT.
pub reap_ends_log :
    (e : Env) (s : Svdef) (wstat : ℕ) (g : Globals)
    → IsCulling s
    → s.sv_main.is_reset ≡ true
    → s.has_log ≡ true
    → 0 < s.sv_log.pid
    → s.sv_log.is_reset ≡ false
    → (reap e s main wstat g).1.trace
      ≡ kill (process s.sv_log.pid) sigcont
        ∷ kill (process s.sv_log.pid) sigterm
        ∷ close s.logpipe_read
        ∷ close s.logpipe_write
        ∷ g.trace
unfolding reap end_log
reap_ends_log e s wstat g c r a p n = ground arith

-- When the main start script of a deactivated service without a logger ends, and the fork for its
-- reset fails, the service is ready for the harvest and the loop of `perpd_waitup` does not come
-- to its check for it.
pub reap_lost :
    (e : Env) (s : Svdef) (wstat : ℕ) (g : Globals)
    → IsCulling s
    → s.has_log ≡ false
    → s.sv_main.is_reset ≡ false
    → e.fork (g.calls + 1) ≡ none
    → let (s', g', finished) = reap e s main wstat g in
      (finished ≡ false) × (perpd_svdef_cullok s' ≡ true)
unfolding reap perpd_svdef_run perpd_svdef_cullok
reap_lost e s wstat g c a r f = ground arith
