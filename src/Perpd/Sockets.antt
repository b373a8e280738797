-- ===== src/Perpd/Sockets.antt =====
-- perp/perpd.c: what `perpd_mainloop` does with the connections of its clients.
use perp.Common.{
  ℕ, suc, Bool, true, false, none, some, List, [], ◌∷◌, ◌++◌, ◌==◌, if◌then◌else◌, length, zero,
  replicate,
}
use perp.Tain.{Tain}
use perp.Pkt.{Arrival, Room}
use perp.Perpd.Types.{Svdef, Globals, Env, close, emit}
use perp.Perpd.Cull.{fill_gap}
use perp.Perpd.Conn.{
  Conn, closed, perpd_conn_close, perpd_conn_checkstale, perpd_conn_read, perpd_conn_write,
  perpd_conn_start,
}

abbrev pub conn_max : ℕ
conn_max = 20

-- before the poll: stale connections are closed, and closed ones dropped
unfoldable pub check_stale : Tain → Conn → Globals → Conn × Globals
check_stale now c g = elim c.connfd [ none ↦ (c, g) | some fd ↦ perpd_conn_checkstale c now g ]

unfoldable pub check_stale_all : Tain → List Conn → Globals → List Conn × Globals
unfolding check_stale
check_stale_all now [] g = ([], g)
check_stale_all now (c ∷ cs) g =
    let (c', g1) = check_stale now c g in
    let (cs', g2) = check_stale_all now cs g1 in (c' ∷ cs', g2)

abbrev pub is_open : Conn → Bool
is_open c = elim c.connfd [ none ↦ false | some fd ↦ true ]

-- the loop of `perpd_cull`, over connections
unfoldable pub drop_closed_from : ℕ → List Conn → List Conn
unfolding fill_gap
drop_closed_from zero cs = cs
drop_closed_from (suc f) [] = []
drop_closed_from (suc f) (c ∷ cs) = elim (is_open c) [
  | true ↦ c ∷ drop_closed_from f cs
  | false ↦ drop_closed_from f (fill_gap cs)
]

unfoldable pub drop_closed : List Conn → List Conn
unfolding drop_closed_from
drop_closed cs = drop_closed_from (length cs) cs

unfoldable pub close_clients : List Conn → Globals → Globals
close_clients [] g = g
close_clients (c ∷ cs) g =
    close_clients cs (elim c.connfd [ none ↦ g | some fd ↦ emit (close fd) g ])

-- What `poll` reports of a client, with what its socket then holds or takes.
pub data ClientEvent : Type 0 where
  quiet broken : ClientEvent
  readable : List Arrival → ClientEvent
  writable : List Room → ClientEvent

-- a new connection on the listening socket, if there is one
pub data Accept : Type 0 where
  no_client accept_failed : Accept
  nonblock_failed accepted : ℕ → Accept

-- the connection that a new client takes
abbrev pub fresh_conn : Conn
fresh_conn = record {
  connfd = none;
  stamp = record { sec = 0; nsec = 0 };
  state = closed;
  pkt = replicate 258 0;
  n = 0;
  w = 0;
}

module _ (e : Env) where
  -- an event on a client's socket
  unfoldable pub handle : ClientEvent → List Svdef → Globals → Conn → List Svdef × Globals × Conn
  handle quiet l g c = (l, g, c)
  handle broken l g c = let (c', g') = perpd_conn_close c g in (l, g', c')
  handle (readable s) l g c = let (l', g', c', rest) = perpd_conn_read e l g c s in (l', g', c')
  handle (writable s) l g c = let (g', c', wire) = perpd_conn_write e g c s in (l, g', c')

  -- a client whose socket is closed is passed over
  unfoldable pub serve : ClientEvent → List Svdef → Globals → Conn → List Svdef × Globals × Conn
  unfolding handle
  serve event l g c = if is_open c then handle event l g c else (l, g, c)

  unfoldable pub serve_all :
      List ClientEvent → List Svdef → Globals → List Conn → List Svdef × Globals × List Conn
  unfolding serve
  serve_all [] l g cs = (l, g, cs)
  serve_all (event ∷ events) l g [] = (l, g, [])
  serve_all (event ∷ events) l g (c ∷ cs) =
      let (l1, g1, c') = serve event l g c in
      let (l2, g2, cs') = serve_all events l1 g1 cs in (l2, g2, c' ∷ cs')

  unfoldable pub accept : Accept → List Conn → Globals → List Conn × Globals
  accept no_client cs g = (cs, g)
  accept accept_failed cs g = (cs, g)
  accept (nonblock_failed fd) cs g = (cs, emit (close fd) g)
  accept (accepted fd) cs g =
      let (c, g') = perpd_conn_start e fresh_conn (some fd) g in
      if length cs == conn_max then (cs, emit (close fd) g) else (cs ++ (c ∷ []), g')
