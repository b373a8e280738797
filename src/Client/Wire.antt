-- ===== src/Client/Wire.antt =====
-- The exchange of a client with perpd/perpd_conn.c: a request read whole by perpd, and its reply.
use perp.Common.{ℕ, ◌≡◌, ◌<◌, Option, some, List, ◌++◌, Bytes, take, drop, arith}
use perp.Upak.{upak64_pack, upak64_unpack, u64_mod}
use perp.Pkt.{pkt_len, pkt_data}
use perp.Perpd.Types.{Svdef, Globals, Env}
use perp.Perpd.Conn.{Conn, perpd_conn_exec}
use perp.Client.{ServiceStat, query_request, control_request}

-- perpd's array begins with the request, and the client's with the reply
module _ (e : Env) (l : List Svdef) (g : Globals) (c : Conn)
    (behind_request behind_reply : Bytes) where
  abbrev pub asked_by : Bytes → Conn
  asked_by req = record c { pkt = take (pkt_len req) req ++ behind_request; n = pkt_len req }

  abbrev pub served : Bytes → Option Bytes
  served req =
      let r = (perpd_conn_exec e l g (asked_by req)).2 in
      some (take (pkt_len r.pkt) r.pkt ++ behind_reply)

module _ (st : ServiceStat) (behind : Bytes) where
  pub query_dev :
      st.dev < u64_mod → upak64_unpack (pkt_data (take 19 (query_request st) ++ behind)) ≡ st.dev
  unfolding query_request upak64_pack upak64_unpack
  query_dev h = omega (arith, h)

  pub query_ino :
      st.ino < u64_mod
      → upak64_unpack (drop 8 (pkt_data (take 19 (query_request st) ++ behind))) ≡ st.ino
  unfolding query_request upak64_pack upak64_unpack
  query_ino h = omega (arith, h)

  module _ (cmd flags : ℕ) where
    pub control_dev :
        st.dev < u64_mod
        → upak64_unpack (pkt_data (take 21 (control_request st cmd flags) ++ behind)) ≡ st.dev
    unfolding control_request upak64_pack upak64_unpack
    control_dev h = omega (arith, h)

    pub control_ino :
        st.ino < u64_mod
        → upak64_unpack (drop 8 (pkt_data (take 21 (control_request st cmd flags) ++ behind)))
          ≡ st.ino
    unfolding control_request upak64_pack upak64_unpack
    control_ino h = omega (arith, h)
