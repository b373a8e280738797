-- ===== src/Perpd/Replies/Requests.antt =====
-- perp/perpd_conn.c: requests for a service that is there.
use perp.Common.{
  ap, ◌∙◌, set, ℕ, ◌≡◌, ◌≤◌, false, some, List, arith, if◌then◌else◌, refl, drop, get_elem?,
}
use perp.Upak.{at, upak64_unpack}
use perp.Pkt.{pkt_proto, pkt_type, pkt_len, pkt_data}
use perp.Perpd.Types.{Svdef, Globals, Env}
use perp.Perpd.Cull.{perpd_lookup}
use perp.Perpd.Control.{do_control}
use perp.Perpd.Conn.{
  command_which, command_killpg, Conn, reply_with, perpd_conn_exec_reply, perpd_conn_exec_query,
  perpd_conn_exec_control, control_service, dispatch, perpd_conn_exec, status,
}

-- a complete request of a type, for the service that `perpd_lookup` finds at a place
pub record Asks (kind size : ℕ) (l : List Svdef) (i : ℕ) (c : Conn) : Type 0 where
  pub proto_2 : pkt_proto c.pkt ≡ 2
  pub of_kind : pkt_type c.pkt ≡ kind
  pub of_size : pkt_len c.pkt ≡ size
  pub complete : c.n ≡ size
  pub found :
      perpd_lookup l (upak64_unpack (pkt_data c.pkt)) (upak64_unpack (drop 8 (pkt_data c.pkt)))
      ≡ some i

module _ (e : Env) where
  dispatch_well_formed :
      (kind size : ℕ) (l : List Svdef) (i : ℕ) (g : Globals) (c : Conn)
      → 3 ≤ size
      → Asks kind size l i c
      → perpd_conn_exec e l g c ≡ dispatch e size l g c
  unfolding perpd_conn_exec
  dispatch_well_formed kind size l i g c big a =
      rw (a.complete, a.of_size) (ground (arith, a.proto_2, a.of_size, a.complete))

  dispatch_query :
      (l : List Svdef) (g : Globals) (c : Conn)
      → pkt_type c.pkt ≡ b'Q'
      → dispatch e 19 l g c ≡ (l, g, perpd_conn_exec_query e l c)
  unfolding dispatch
  dispatch_query l g c k = ground arith

  dispatch_control :
      (l : List Svdef) (g : Globals) (c : Conn)
      → pkt_type c.pkt ≡ b'C'
      → dispatch e 21 l g c ≡ perpd_conn_exec_control e l g c
  unfolding dispatch
  dispatch_control l g c k = ground arith

  query_found :
      (l : List Svdef) (i : ℕ) (s : Svdef) (c : Conn)
      → perpd_lookup l (upak64_unpack (pkt_data c.pkt)) (upak64_unpack (drop 8 (pkt_data c.pkt)))
        ≡ some i
      → get_elem? l i ≡ some s
      → perpd_conn_exec_query e l c ≡ reply_with b'S' (status e s) 66 c
  unfolding perpd_conn_exec_query
  query_found l i s c found at_i = rw (found, perpd_conn_exec_query, at_i) refl

  control_found :
      (l : List Svdef) (i : ℕ) (s : Svdef) (g : Globals) (c : Conn)
      → perpd_lookup l (upak64_unpack (pkt_data c.pkt)) (upak64_unpack (drop 8 (pkt_data c.pkt)))
        ≡ some i
      → get_elem? l i ≡ some s
      → s.cull ≡ false
      → let input = pkt_data c.pkt in
        let (s', g', ok) =
          do_control e s
            (command_which (at input 17))
            (at input 16)
            (command_killpg (at input 17))
            g in
        perpd_conn_exec_control e l g c
        ≡ (set l i s', g', perpd_conn_exec_reply c (if ok then 0 else e.errno_eproto))
  unfolding perpd_conn_exec_control control_service
  control_found l i s g c found at_i free = rw (found, perpd_conn_exec_control, at_i, free) refl

  -- A complete query for a service that is there is answered with the status of that service, and
  -- changes nothing.
  pub exec_query_lem :
      (l : List Svdef) (i : ℕ) (s : Svdef) (g : Globals) (c : Conn)
      → Asks b'Q' 19 l i c
      → get_elem? l i ≡ some s
      → perpd_conn_exec e l g c ≡ (l, g, reply_with b'S' (status e s) 66 c)
  exec_query_lem l i s g c a at_i =
      dispatch_well_formed b'Q' 19 l i g c (omega arith) a
      ∙ (dispatch_query l g c a.of_kind ∙ ap (λ c'. (l, g, c')) (query_found l i s c a.found at_i))

  -- A complete control request for a service that is there and is not being deactivated changes
  -- that service and the globals as `do_control` does, changes no other service, and is answered
  -- with 0, or with EPROTO where `do_control` returns -1.
  pub exec_control_lem :
      (l : List Svdef) (i : ℕ) (s : Svdef) (g : Globals) (c : Conn)
      → Asks b'C' 21 l i c
      → get_elem? l i ≡ some s
      → s.cull ≡ false
      → let input = pkt_data c.pkt in
        let (s', g', ok) =
          do_control e s
            (command_which (at input 17))
            (at input 16)
            (command_killpg (at input 17))
            g in
        perpd_conn_exec e l g c
        ≡ (set l i s', g', perpd_conn_exec_reply c (if ok then 0 else e.errno_eproto))
  exec_control_lem l i s g c a at_i free =
      dispatch_well_formed b'C' 21 l i g c (omega arith) a
      ∙ (dispatch_control l g c a.of_kind ∙ control_found l i s g c a.found at_i free)
