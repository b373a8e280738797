-- ===== src/Perpd/Replies.antt =====
-- perp/perpd_conn.c: every request is answered.
pub mod Status
pub mod Requests
use perp.Common.{
  if_ind, ℕ, ◌≡◌, ◌≢◌, ◌<◌, ◌⊎◌, inl, inr, List, arith, if◌then◌else◌, Option-cases, refl, drop,
  get_elem?,
}
use perp.Upak.{at, u32_mod, upak32_pack, upak32_unpack, upak64_unpack}
use perp.Pkt.{pkt_header, pkt_proto, pkt_type, pkt_len, pkt_data, pkt_load}
use perp.Perpd.Types.{Svdef, Globals, Env}
use perp.Perpd.Cull.{perpd_lookup}
use perp.Perpd.Control.{do_control}
use perp.Perpd.Conn.{
  command_which, command_killpg, Conn, writing, reply_with, perpd_conn_exec_reply,
  perpd_conn_exec_query, perpd_conn_exec_control, control_service, dispatch, perpd_conn_exec,
  status,
}

-- a complete reply of protocol 2 is waiting to be written from its first byte
pub record IsReply (c : Conn) : Type 0 where
  pub is_writing : c.state ≡ writing
  pub from_start : c.w ≡ 0
  pub whole : c.n ≡ pkt_len c.pkt
  pub protocol : pkt_proto c.pkt ≡ 2
  pub kind : (pkt_type c.pkt ≡ b'E') ⊎ (pkt_type c.pkt ≡ b'S')

errno-IsReply : (c : Conn) (err : ℕ) → IsReply (perpd_conn_exec_reply c err)
unfolding perpd_conn_exec_reply pkt_load upak32_pack
errno-IsReply c err = ground arith

status-IsReply : (e : Env) (s : Svdef) (c : Conn) → IsReply (reply_with b'S' (status e s) 66 c)
unfolding reply_with pkt_load
status-IsReply e s c = ground arith

-- the error number that a reply carries
abbrev pub reply_error : Conn → ℕ
reply_error c = upak32_unpack (pkt_data c.pkt)

reply_error_lem :
    (c : Conn) (err : ℕ) → err < u32_mod → reply_error (perpd_conn_exec_reply c err) ≡ err
unfolding perpd_conn_exec_reply pkt_load upak32_pack upak32_unpack
reply_error_lem c err h = ground arith

module _ (e : Env) where
  query-IsReply : (l : List Svdef) (c : Conn) → IsReply (perpd_conn_exec_query e l c)
  unfolding perpd_conn_exec_query
  query-IsReply l c =
      let input = pkt_data c.pkt in
      elim (Option-cases (perpd_lookup l (upak64_unpack input) (upak64_unpack (drop 8 input)))) [
        | inl lost ↦ rw (lost, perpd_conn_exec_query) (errno-IsReply c e.errno_enotdir)
        | inr (i, found) ↦ elim (Option-cases (get_elem? l i)) [
          | inl out ↦ rw (found, perpd_conn_exec_query, out) (errno-IsReply c e.errno_enotdir)
          | inr (s, at_i) ↦ rw (found, perpd_conn_exec_query, at_i) (status-IsReply e s c)
        ]
      ]

  service-IsReply :
      (s : Svdef) (cmd flags : ℕ) (g : Globals) (c : Conn)
      → IsReply (control_service e s cmd flags g c).2
  unfolding control_service
  service-IsReply s cmd flags g c =
      let (s', g', ok) = do_control e s (command_which flags) cmd (command_killpg flags) g in
      if_ind (λ (r : Svdef × Globals × Conn). IsReply r.2) s.cull
        (s, g, perpd_conn_exec_reply c e.errno_ebusy)
        (s', g', perpd_conn_exec_reply c (if ok then 0 else e.errno_eproto))
        (errno-IsReply c e.errno_ebusy) (errno-IsReply c (if ok then 0 else e.errno_eproto))

  control-IsReply :
      (l : List Svdef) (g : Globals) (c : Conn) → IsReply (perpd_conn_exec_control e l g c).2
  unfolding perpd_conn_exec_control
  control-IsReply l g c =
      let payload = pkt_data c.pkt in
      elim (Option-cases
        (perpd_lookup l (upak64_unpack payload) (upak64_unpack (drop 8 payload)))) [
          | inl lost ↦ rw (lost, perpd_conn_exec_control) (errno-IsReply c e.errno_enoent)
          | inr (i, found) ↦ elim (Option-cases (get_elem? l i)) [
            | inl out ↦ rw (found, perpd_conn_exec_control, out) (errno-IsReply c e.errno_enoent)
            | inr (s, at_i) ↦
                rw (found, perpd_conn_exec_control, at_i)
                  (service-IsReply s (at payload 16) (at payload 17) g c)
          ]
        ]

  dispatch-IsReply :
      (n : ℕ) (l : List Svdef) (g : Globals) (c : Conn) → IsReply (dispatch e n l g c).2
  unfolding dispatch
  dispatch-IsReply n l g c = ground (
    arith,
    control-IsReply l g c,
    query-IsReply l c,
    errno-IsReply c e.errno_eproto,
    errno-IsReply c e.errno_enotsup,
  )

  -- Whatever a client sent, executing it leaves one complete reply of protocol 2, an error number
  -- or a status, which is written from its first byte.
  pub exec-IsReply : (l : List Svdef) (g : Globals) (c : Conn) → IsReply (perpd_conn_exec e l g c).2
  unfolding perpd_conn_exec
  exec-IsReply l g c = ground (
    arith,
    dispatch-IsReply c.n l g c,
    dispatch-IsReply c.n l g (perpd_conn_exec_reply c e.errno_eproto),
  )

-- the header that `perpd_conn_exec` rejects
abbrev pub IsMalformed : Conn → Type 0
IsMalformed c = (c.n < pkt_header) ⊎ (pkt_proto c.pkt ≢ 2) ⊎ (pkt_len c.pkt ≢ c.n)

module _ (e : Env) where
  exec_malformed_lem :
      (l : List Svdef) (g : Globals) (c : Conn)
      → IsMalformed c
      → perpd_conn_exec e l g c ≡ dispatch e c.n l g (perpd_conn_exec_reply c e.errno_eproto)
  unfolding perpd_conn_exec
  exec_malformed_lem l g c h = ground arith

  dispatch_reply_lem :
      (n : ℕ) (l : List Svdef) (g : Globals) (c : Conn) (err : ℕ)
      → dispatch e n l g (perpd_conn_exec_reply c err)
        ≡ (l, g, perpd_conn_exec_reply (perpd_conn_exec_reply c err) e.errno_eproto)
  unfolding dispatch perpd_conn_exec_reply pkt_load upak32_pack
  dispatch_reply_lem n l g c err = ground arith

  -- Where EPROTO is below 2^32, a packet with a bad header changes no service and no global, and
  -- the reply to it carries EPROTO.
  pub exec_malformed :
      (l : List Svdef) (g : Globals) (c : Conn)
      → e.errno_eproto < u32_mod
      → IsMalformed c
      → let (l', g', c') = perpd_conn_exec e l g c in
        (l' ≡ l) × (g' ≡ g) × (reply_error c' ≡ e.errno_eproto)
  exec_malformed l g c small h =
      rw (exec_malformed_lem l g c h, dispatch_reply_lem c.n l g c e.errno_eproto)
        (refl, refl, reply_error_lem (perpd_conn_exec_reply c e.errno_eproto) e.errno_eproto small)
