-- ===== src/Perpd/Mainloop.antt =====
-- perp/perpd.c: `sig_trap` and one round of `perpd_mainloop`.
use perp.Common.{
  ℕ, ◌+◌, Bool, true, false, not, ◌||◌, ◌&&◌, Option, none, some, List, [], ◌∷◌, ltb, ◌==◌,
  if◌then◌else◌, length,
}
use perp.Tain.{tain_now}
use perp.Perpd.Types.{Svdef, Globals, Env, close, ping, sleep, emit, asked}
use perp.Perpd.Svdef.{perpd_svdef_wantcull, perpd_svdef_checkfail}
use perp.Perpd.Cull.{perpd_cull}
use perp.Perpd.Reap.{perpd_waitup}
use perp.Perpd.Scan.{perpd_scan, Listing, epause}
use perp.Perpd.Conn.{Conn}
use perp.Perpd.Sockets.{
  check_stale_all, drop_closed, close_clients, ClientEvent, Accept, serve_all, accept,
}

pub data Trapped : Type 0 where
  chld hup int term pipe : Trapped

unfoldable pub count_signal : Trapped → Globals → Globals
count_signal chld g = record g { flag_chld = g.flag_chld + 1 }
count_signal hup g = record g { flag_hup = g.flag_hup + 1 }
count_signal int g = record g { flag_term = g.flag_term + 1 }
count_signal term g = record g { flag_term = g.flag_term + 1 }
count_signal pipe g = g

unfoldable pub sig_trap : Trapped → Globals → Globals
unfolding count_signal
sig_trap sig g =
    let g1 = count_signal sig g in
    emit ping (if g1.flag_terminating then record g1 { flag_term = 0; flag_hup = 0 } else g1)

unfoldable pub trap_all : List Trapped → Globals → Globals
unfolding sig_trap
trap_all [] g = g
trap_all (sig ∷ sigs) g = trap_all sigs (sig_trap sig g)

-- The variables of the loop. `clients` holds the first `nconns` connections.
pub record Loop : Type 0 where
  pub svdefs : List Svdef
  pub clients : List Conn
  pub globals : Globals
  pub autoscan : ℕ
  pub fd_listen : ℕ

-- `flag_term`: every service is to be deactivated
unfoldable pub wantcull_all : List Svdef → Globals → List Svdef × Globals × Bool
wantcull_all [] g = ([], g, false)
wantcull_all (s ∷ l) g =
    let (s', g1, ready) = perpd_svdef_wantcull s g in
    let (l', g2, more) = wantcull_all l g1 in (s' ∷ l', g2, ready || more)

unfoldable pub terminate : Loop → Loop
unfolding wantcull_all close_clients
terminate p =
    let g1 = record (p.globals) { flag_terminating = true; flag_term = 0; flag_hup = 0 } in
    let g2 = close_clients p.clients (emit (close p.fd_listen) g1) in
    let (l, g3, ready) = wantcull_all p.svdefs g2 in
    let culled = perpd_cull l g3 in
    let (l', g4) = if ready then culled else (l, g3) in
    record p { svdefs = l'; clients = []; globals = g4; autoscan = 0 }

unfoldable pub on_term : Loop → Loop
unfolding terminate
on_term p = if p.globals.flag_term == 0 then p else terminate p

module _ (e : Env) where
  unfoldable pub checkfail_all : List Svdef → Globals → List Svdef × Globals
  checkfail_all [] g = ([], g)
  checkfail_all (s ∷ l) g =
      let (s', g1) = perpd_svdef_checkfail e s g in
      let (l', g2) = checkfail_all l g1 in (s' ∷ l', g2)

  unfoldable pub on_chld : List (ℕ × ℕ) → Loop → Loop
  on_chld deaths p =
      let (l, g) = perpd_waitup e deaths p.svdefs (record (p.globals) { flag_chld = 0 }) in
      if p.globals.flag_chld == 0 then p else record p { svdefs = l; globals = g }

  -- `due` says that the interval of the autoscan is over
  unfoldable pub on_scan : Listing → Bool → Loop → Loop
  on_scan dir due p =
      let (l, g) = perpd_scan e dir p.svdefs (record (p.globals) { flag_hup = 0 }) in
      if not (p.globals.flag_hup == 0) || (ltb 0 p.autoscan && due)
      then record p { svdefs = l; globals = g }
      else p

  -- The Boolean says that the round ends here; `none` is an exit with 111.
  unfoldable pub on_failing : Loop → Option (Loop × Bool)
  unfolding checkfail_all
  on_failing p =
      let (l, g) = checkfail_all p.svdefs (record (p.globals) { flag_failing = 0 }) in
      if p.globals.flag_failing == 0
      then some (p, false)
      else if p.globals.flag_terminating
      then none
      else if g.flag_failing == 0
      then some (record p { svdefs = l; globals = g }, false)
      else some (record p { svdefs = l; globals = emit (sleep epause) g }, true)

module _ (e : Env) where
  -- the sockets, where anything but the selfpipe is ready
  unfoldable pub on_sockets : List ClientEvent → Accept → Loop → Loop
  unfolding serve_all accept
  on_sockets events new p =
      let (l, g1, cs) = serve_all e events p.svdefs p.globals p.clients in
      let (cs', g2) = accept e new cs g1 in record p { svdefs = l; globals = g2; clients = cs' }

-- What one round meets: the signals that come in, the children that have ended, the base
-- directory, the end of the autoscan's interval, and the sockets.
pub record Events : Type 0 where
  pub traps : List Trapped
  pub deaths : List (ℕ × ℕ)
  pub listing : Listing
  pub due : Bool
  pub clients : List ClientEvent
  pub new_client : Accept

module _ (e : Env) where
  unfoldable pub before_poll : Loop → Loop
  unfolding check_stale_all drop_closed
  before_poll p =
      let now = tain_now (e.gettimeofday p.globals.calls) in
      let (cs, g) = check_stale_all now p.clients (asked p.globals) in
      record p { clients = drop_closed cs; globals = g }

  -- behind the retries
  unfoldable pub finish_round : Events → Option (Loop × Bool) → Option Loop
  unfolding on_sockets
  finish_round v none = none
  finish_round v (some (p, true)) = some p
  finish_round v (some (p, false)) = some (on_sockets e v.clients v.new_client p)

  unfoldable pub after_poll : Events → Loop → Option Loop
  unfolding on_term on_chld on_scan on_failing finish_round
  after_poll v p =
      finish_round v (on_failing e (on_scan e v.listing v.due (on_chld e v.deaths (on_term p))))

  -- One round of the loop; `none` is the exit with 111. The test at its head is `is_finished`.
  unfoldable pub round : Events → Loop → Option Loop
  unfolding before_poll after_poll trap_all
  round v p =
      let q = before_poll p in after_poll v (record q { globals = trap_all v.traps q.globals })

abbrev pub is_finished : Loop → Bool
is_finished p = p.globals.flag_terminating && length p.svdefs == 0
