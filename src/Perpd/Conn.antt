-- ===== src/Perpd/Conn.antt =====
-- perp/perpd_conn.c: client connections, and the requests that they carry.
use perp.Common.{
  ℕ, ◌+◌, ◌/◌, ◌%◌, Bool, not, ◌||◌, ◌&&◌, Option, none, some, List, [], ◌∷◌, ◌++◌, Bytes, ltb,
  ◌==◌, if◌then◌else◌, drop, get_elem?, set, replicate,
}
use perp.Upak.{at, u32_mod, upak32_pack, upak64_unpack}
use perp.Tain.{Tain, tain_pack, tain_now, tain_less, tain_minus}
use perp.Pkt.{
  pkt_header, pkt_proto, pkt_type, pkt_len, pkt_data, pkt_load, pkt_read, pkt_write, Arrival, Room,
  Count, count, error,
}
use perp.Perpd.Types.{
  Which, main, log, Subsv, Svdef, subsv_bitflags, svdef_bitflags, Globals, Env, emit, asked, close,
}
use perp.Perpd.Cull.{perpd_lookup}
use perp.Perpd.Control.{do_control}

pub data ConnState : Type 0 where
  closed reading writing : ConnState

-- `struct perpd_conn`; `connfd` is `none` for -1
pub record Conn : Type 0 where
  pub connfd : Option ℕ
  pub stamp : Tain
  pub state : ConnState
  pub pkt : Bytes
  pub n : ℕ
  pub w : ℕ

-- is the packet read completely?
unfoldable pub perpd_pkt_check : Bytes → ℕ → Bool
perpd_pkt_check k n = not (ltb n pkt_header || ltb n (pkt_len k))

-- the array after a load whose payload fits, and before it otherwise
abbrev pub loaded : Bytes → ℕ → Bytes → ℕ → Bytes
loaded k t buf n = elim (pkt_load k 2 t buf n) [ some k' ↦ k' | none ↦ k ]

-- a reply of this type is in the buffer, ready to be written
unfoldable pub reply_with : ℕ → Bytes → ℕ → Conn → Conn
reply_with t buf n c =
    let k = loaded c.pkt t buf n in record c { pkt = k; n = pkt_len k; w = 0; state = writing }

unfoldable pub perpd_conn_exec_reply : Conn → ℕ → Conn
unfolding reply_with
perpd_conn_exec_reply c err = reply_with b'E' (upak32_pack (err % u32_mod)) 4 c

-- 18 bytes on one subservice
unfoldable pub subsv_status : Subsv → Bytes
unfolding subsv_bitflags
subsv_status v = upak32_pack (v.pid % u32_mod) ++ (tain_pack v.when ++ (subsv_bitflags v ∷ 0 ∷ []))

-- the flags of a control request
abbrev pub command_which : ℕ → Which
command_which flags = if flags % 2 == 1 then log else main

abbrev pub command_killpg : ℕ → Bool
command_killpg flags = flags / 2 % 2 == 1

module _ (e : Env) where
  -- the 66 bytes of a status, zero where there is no logger
  unfoldable pub status : Svdef → Bytes
  unfolding subsv_status svdef_bitflags
  status s =
      upak32_pack (e.my_pid % u32_mod)
      ++ (tain_pack e.my_when
          ++ (tain_pack s.when
              ++ (svdef_bitflags s
                  ∷ 0
                  ∷ (subsv_status s.sv_main
                      ++ (if s.has_log then subsv_status s.sv_log else replicate 18 0)))))

  unfoldable pub perpd_conn_exec_query : List Svdef → Conn → Conn
  unfolding perpd_conn_exec_reply status
  perpd_conn_exec_query l c =
      let input = pkt_data c.pkt in
      elim (perpd_lookup l (upak64_unpack input) (upak64_unpack (drop 8 input))) [
        | none ↦ perpd_conn_exec_reply c e.errno_enotdir
        | some i ↦ elim (get_elem? l i) [
          | none ↦ perpd_conn_exec_reply c e.errno_enotdir
          | some s ↦ reply_with b'S' (status s) 66 c
        ]
      ]

  -- a control request on a definition that was found
  unfoldable pub control_service : Svdef → ℕ → ℕ → Globals → Conn → Svdef × Globals × Conn
  unfolding perpd_conn_exec_reply
  control_service s cmd flags g c =
      let (s', g', ok) = do_control e s (command_which flags) cmd (command_killpg flags) g in
      if s.cull
      then (s, g, perpd_conn_exec_reply c e.errno_ebusy)
      else (s', g', perpd_conn_exec_reply c (if ok then 0 else e.errno_eproto))

  unfoldable pub perpd_conn_exec_control : List Svdef → Globals → Conn → List Svdef × Globals × Conn
  unfolding control_service
  perpd_conn_exec_control l g c =
      let payload = pkt_data c.pkt in
      elim (perpd_lookup l (upak64_unpack payload) (upak64_unpack (drop 8 payload))) [
        | none ↦ (l, g, perpd_conn_exec_reply c e.errno_enoent)
        | some i ↦ elim (get_elem? l i) [
          | none ↦ (l, g, perpd_conn_exec_reply c e.errno_enoent)
          | some s ↦
              let (s', g', c') = control_service s (at payload 16) (at payload 17) g c in
              (set l i s', g', c')
        ]
      ]

  -- the `switch` on the type of the packet; `n` is the size that was read
  unfoldable pub dispatch : ℕ → List Svdef → Globals → Conn → List Svdef × Globals × Conn
  unfolding perpd_conn_exec_control perpd_conn_exec_query perpd_conn_exec_reply
  dispatch n l g c =
      let controlled = perpd_conn_exec_control l g c in
      if pkt_type c.pkt == b'C'
      then if n == 21 then controlled else (l, g, perpd_conn_exec_reply c e.errno_eproto)
      else if pkt_type c.pkt == b'Q'
      then if n == 19
        then (l, g, perpd_conn_exec_query l c)
        else (l, g, perpd_conn_exec_reply c e.errno_eproto)
      else if pkt_type c.pkt == b'Y'
      then (l, g, perpd_conn_exec_reply c e.errno_enotsup)
      else (l, g, perpd_conn_exec_reply c e.errno_eproto)

  -- After a bad header there is a reply, and no return: the `switch` sees the packet of the reply.
  unfoldable pub perpd_conn_exec : List Svdef → Globals → Conn → List Svdef × Globals × Conn
  unfolding dispatch
  perpd_conn_exec l g c =
      if ltb c.n pkt_header || not (pkt_proto c.pkt == 2) || not (pkt_len c.pkt == c.n)
      then dispatch c.n l g (perpd_conn_exec_reply c e.errno_eproto)
      else dispatch c.n l g c

unfoldable pub perpd_conn_reset : Conn → Conn
perpd_conn_reset c = record c { connfd = none; state = closed; n = 0; w = 0 }

unfoldable pub perpd_conn_close : Conn → Globals → Conn × Globals
unfolding perpd_conn_reset
perpd_conn_close c g =
    (perpd_conn_reset c, elim c.connfd [ none ↦ g | some fd ↦ emit (close fd) g ])

module _ (e : Env) where
  unfoldable pub perpd_conn_start : Conn → Option ℕ → Globals → Conn × Globals
  perpd_conn_start c fd g = (
    record c {
      connfd = fd;
      stamp = tain_now (e.gettimeofday g.calls);
      state = reading;
      n = 0;
      w = 0;
    },
    asked g,
  )

abbrev pub max_age : Tain
max_age = record { sec = 8; nsec = 0 }

unfoldable pub perpd_conn_checkstale : Conn → Tain → Globals → Conn × Globals
unfolding perpd_conn_close
perpd_conn_checkstale c now g =
    if tain_less c.stamp now && tain_less max_age (tain_minus now c.stamp)
    then perpd_conn_close c g
    else (c, g)

module _ (e : Env) where
  -- what `pkt_read` returned, with the connection as it left it
  unfoldable pub received : Count → List Svdef → Globals → Conn → List Svdef × Globals × Conn
  unfolding perpd_conn_exec perpd_conn_close perpd_pkt_check
  received (error f) l g c = let (shut, g') = perpd_conn_close c g in (l, g', shut)
  received (count m) l g c =
      let (shut, g') = perpd_conn_close c g in
      let more = record c { n = c.n + m } in
      if m == 0
      then (l, g', shut)
      else if perpd_pkt_check more.pkt more.n
      then perpd_conn_exec e l g more
      else (l, g, more)

  -- what the socket holds is an argument, and what it holds afterwards the last result
  unfoldable pub perpd_conn_read :
      List Svdef → Globals → Conn → List Arrival → List Svdef × Globals × Conn × List Arrival
  unfolding received
  perpd_conn_read l g c socket =
      let r = pkt_read c.pkt c.n socket in
      let (l', g', c') = received r.result l g (record c { pkt = r.pkt }) in (l', g', c', r.rest)

  -- with the bytes that went out as the last result
  unfoldable pub perpd_conn_write : Globals → Conn → List Room → Globals × Conn × Bytes
  unfolding perpd_conn_start perpd_conn_close
  perpd_conn_write g c socket =
      let r = pkt_write c.pkt c.w socket in
      let (shut, gs) = perpd_conn_close c g in
      let (fresh, gf) = perpd_conn_start e c c.connfd g in
      elim r.result [
        | error f ↦ (gs, shut, r.wire)
        | count m ↦
            if c.w + m == c.n then (gf, fresh, r.wire) else (g, record c { w = c.w + m }, r.wire)
      ]
