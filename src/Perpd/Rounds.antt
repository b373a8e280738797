-- ===== src/Perpd/Rounds.antt =====
-- perp/perpd.c: what holds between two rounds of the main loop.
pub mod Services
use perp.Common.{
  ℕ, zero, suc, ◌≡◌, ◌≤◌, refl, if_ind, ap, Bool, true, false, not, Option, none, some, List, [],
  ◌∷◌, length, arith, length-append, ltb, ◌||◌, ◌&&◌, ◌==◌,
}
use mathlib.Core.Option.{some-injective}
use mathlib.Core.Path.{subst}
use perp.Tain.{tain_now, Tain}
use perp.Perpd.Types.{sleep, asked, Svdef, Globals, Env, ForkIsPositive, emit, close}
use perp.Perpd.Cull.{fill_gap, perpd_cull}
use perp.Perpd.Reap.{perpd_waitup}
use perp.Perpd.Cull.Harvest.{length-fill_gap}
use perp.Perpd.Conn.{perpd_conn_start, Conn}
use perp.Perpd.Mainloop.{
  finish_round, trap_all, Loop, Events, wantcull_all, terminate, on_term, on_chld, checkfail_all,
  on_scan, on_failing, on_sockets, before_poll, after_poll, round,
}
use perp.Perpd.Sockets.{
  close_clients, fresh_conn, check_stale, check_stale_all, drop_closed_from, drop_closed,
  ClientEvent, Accept, no_client, accept_failed, nonblock_failed, accepted, serve, serve_all,
  accept, conn_max,
}
use perp.Perpd.Scan.{perpd_scan, epause, Listing}
use perp.Perpd.Invariant.{FitsVector, FitsVector-if, cull-FitsVector}
use perp.Perpd.Invariant.Reap.{ArePids, waitup-FitsVector}
use perp.Perpd.Invariant.Scan.{scan-FitsVector}
use perp.Perpd.Rounds.Services.{
  serve_all-FitsVector, checkfail_all-FitsVector, wantcull_all-FitsVector,
}

-- What holds at the head of the loop: the services are supervised and fit their vector, and the
-- connections fit theirs.
pub record IsSound (p : Loop) : Type 0 where
  pub services : FitsVector p.svdefs
  pub connections : length p.clients ≤ conn_max

length-check_stale_all :
    (now : Tain) (cs : List Conn) (g : Globals) → length (check_stale_all now cs g).0 ≡ length cs
unfolding check_stale_all
length-check_stale_all now [] g = refl
length-check_stale_all now (c ∷ cs) g =
    ap suc (length-check_stale_all now cs (check_stale now c g).1)

length-drop_closed_from : (f : ℕ) (cs : List Conn) → length (drop_closed_from f cs) ≤ length cs
unfolding drop_closed_from
length-drop_closed_from zero cs = omega arith
length-drop_closed_from (suc f) [] = omega arith
length-drop_closed_from (suc f) (c ∷ cs) = ground (
  arith,
  length-drop_closed_from f cs,
  length-drop_closed_from f (fill_gap cs),
  length-fill_gap cs,
)

module _ {e : Env} (fp : ForkIsPositive e) where
  before_poll-IsSound : (p : Loop) → IsSound p → IsSound (before_poll e p)
  unfolding before_poll drop_closed
  before_poll-IsSound p h =
      let now = tain_now (e.gettimeofday p.globals.calls) in
      let (cs, g) = check_stale_all now p.clients (asked p.globals) in
      record {
        services = h.services;
        connections = omega (
          arith,
          length-drop_closed_from (length cs) cs,
          length-check_stale_all now p.clients (asked p.globals),
          h.connections,
        );
      }

  length-serve_all :
      (events : List ClientEvent) (l : List Svdef) (g : Globals) (cs : List Conn)
      → length (serve_all e events l g cs).2 ≡ length cs
  unfolding serve_all
  length-serve_all [] l g cs = refl
  length-serve_all (event ∷ events) l g [] = refl
  length-serve_all (event ∷ events) l g (c ∷ cs) =
      let (l1, g1, c') = serve e event l g c in ap suc (length-serve_all events l1 g1 cs)

  length-accept :
      (new : Accept) (cs : List Conn) (g : Globals)
      → length cs ≤ conn_max
      → length (accept e new cs g).0 ≤ conn_max
  unfolding accept
  length-accept no_client cs g h = h
  length-accept accept_failed cs g h = h
  length-accept (nonblock_failed fd) cs g h = h
  length-accept (accepted fd) cs g h =
      let (c, g') = perpd_conn_start e fresh_conn (some fd) g in
      ground (arith, length-append cs (c ∷ []))

  on_sockets-IsSound :
      (events : List ClientEvent) (new : Accept) (p : Loop)
      → IsSound p
      → IsSound (on_sockets e events new p)
  unfolding on_sockets
  on_sockets-IsSound events new p h =
      let (l, g1, cs) = serve_all e events p.svdefs p.globals p.clients in
      record {
        services = serve_all-FitsVector fp events p.svdefs p.globals p.clients h.services;
        connections =
            length-accept new cs g1
              (omega (arith, length-serve_all events p.svdefs p.globals p.clients, h.connections));
      }

  terminate-IsSound : (p : Loop) → IsSound p → IsSound (terminate p)
  unfolding terminate
  terminate-IsSound p h =
      let g1 = record (p.globals) { flag_terminating = true; flag_term = 0; flag_hup = 0 } in
      let g2 = close_clients p.clients (emit (close p.fd_listen) g1) in
      let h1 = wantcull_all-FitsVector p.svdefs g2 h.services in
      let (l, g3, ready) = wantcull_all p.svdefs g2 in
      record {
        services = FitsVector-if ready (perpd_cull l g3) (l, g3) (cull-FitsVector l g3 h1) h1;
        connections = omega arith;
      }

  on_term-IsSound : (p : Loop) → IsSound p → IsSound (on_term p)
  unfolding on_term
  on_term-IsSound p h =
      if_ind IsSound (p.globals.flag_term == 0) p (terminate p) h (terminate-IsSound p h)

  on_chld-IsSound :
      (deaths : List (ℕ × ℕ)) (p : Loop) → ArePids deaths → IsSound p → IsSound (on_chld e deaths p)
  unfolding on_chld
  on_chld-IsSound deaths p d h =
      let g0 = record (p.globals) { flag_chld = 0 } in
      let (l, g) = perpd_waitup e deaths p.svdefs g0 in
      if_ind IsSound (p.globals.flag_chld == 0) p (record p { svdefs = l; globals = g }) h
        (record {
          services = waitup-FitsVector fp deaths p.svdefs g0 d h.services;
          connections = h.connections;
        })

  on_scan-IsSound :
      (dir : Listing) (due : Bool) (p : Loop) → IsSound p → IsSound (on_scan e dir due p)
  unfolding on_scan
  on_scan-IsSound dir due p h =
      let g0 = record (p.globals) { flag_hup = 0 } in
      let (l, g) = perpd_scan e dir p.svdefs g0 in
      if_ind IsSound (not (p.globals.flag_hup == 0) || (ltb 0 p.autoscan && due))
        (record p { svdefs = l; globals = g }) p
        (record {
          services = scan-FitsVector fp dir p.svdefs g0 h.services;
          connections = h.connections;
        })
        h

  -- the state behind the retries, if the daemon goes on
  abbrev Goes : Option (Loop × Bool) → Type 0
  Goes none = Unit
  Goes (some (p, over)) = IsSound p

  on_failing-IsSound : (p : Loop) → IsSound p → Goes (on_failing e p)
  unfolding on_failing
  on_failing-IsSound p h =
      let g0 = record (p.globals) { flag_failing = 0 } in
      let (l, g) = checkfail_all e p.svdefs g0 in
      let h1 : (g' : Globals) → IsSound (record p { svdefs = l; globals = g' }) = λ g'. record {
        services = checkfail_all-FitsVector fp p.svdefs g0 h.services;
        connections = h.connections;
      } in
      if_ind Goes (p.globals.flag_failing == 0) _ _ h (
        if_ind Goes p.globals.flag_terminating _ _ tt
          (if_ind Goes (g.flag_failing == 0) _ _ (h1 g) (h1 (emit (sleep epause) g))))

  finish_round-IsSound :
      (v : Events) (o : Option (Loop × Bool)) {q : Loop}
      → Goes o
      → finish_round e v o ≡ some q
      → IsSound q
  unfolding finish_round
  finish_round-IsSound v none h goes = cc
  finish_round-IsSound v (some (p, true)) h goes = subst IsSound (some-injective _ _ goes) h
  finish_round-IsSound v (some (p, false)) h goes =
      subst IsSound (some-injective _ _ goes) (on_sockets-IsSound v.clients v.new_client p h)

  -- Where `fork` returns a positive pid to the parent, and `waitpid` reports positive pids, a
  -- round of the main loop that does not exit keeps every service supervised, at most 200 services
  -- and at most 20 connections.
  pub round-IsSound :
      (v : Events) (p : Loop) {q : Loop}
      → ArePids v.deaths
      → IsSound p
      → round e v p ≡ some q
      → IsSound q
  unfolding round after_poll
  round-IsSound v p d h goes =
      let q = before_poll e p in
      let h0 = before_poll-IsSound p h in
      let p0 = record q { globals = trap_all v.traps q.globals } in
      let h1 : IsSound p0 = record { services = h0.services; connections = h0.connections } in
      let h2 = on_chld-IsSound v.deaths (on_term p0) d (on_term-IsSound p0 h1) in
      let p2 = on_chld e v.deaths (on_term p0) in
      let h3 = on_scan-IsSound v.listing v.due p2 h2 in
      let p3 = on_scan e v.listing v.due p2 in
      finish_round-IsSound v (on_failing e p3) (on_failing-IsSound p3 h3) goes
