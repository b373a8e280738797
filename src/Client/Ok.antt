-- ===== src/Client/Ok.antt =====
-- perp/perpok.c against perp/perpd_conn.c: what perpok says of a service is what perpd has.
use perp.Common.{
  ℕ, ◌≡◌, ◌<◌, ◌∙◌, ap, refl, Bool, true, not, ◌||◌, Option, none, some, List, ◌++◌, Bytes, ltb,
  ◌==◌, if◌then◌else◌, take, drop, get_elem?, arith,
}
use perp.Upak.{at, u64_mod, upak32_pack, upak64_pack, upak32_unpack}
use perp.Tain.{Tain, tain_pack, tain_unpack, tain_uptime}
use perp.Pkt.{pkt_data, pkt_len, pkt_load}
use perp.Perpd.Types.{Subsv, Svdef, subsv_bitflags, Globals, Env}
use perp.Perpd.Cull.{perpd_lookup}
use perp.Perpd.Conn.{Conn, reply_with, perpd_conn_exec, status, subsv_status}
use perp.Perpd.Replies.Requests.{Asks, exec_query_lem}
use perp.Perpls.{has_bit}
use perp.Perpls.Display.{IsShowable}
use perp.Perpd.Replies.Status.{Fits}
use perp.Client.{
  ServiceStat, query_request, Exit, exit_ok, exit_fail, exit_usage, exit_fatal, perpok_reply,
  perpok,
}
use perp.Client.Wire.{asked_by, served, query_dev, query_ino}

-- the verdict on a main subservice
abbrev pub judged : Subsv → ℕ → Tain → Exit
judged v upsecs now =
    if upsecs == 0
    then exit_ok
    else if v.pid == 0 || v.is_reset || v.want_down
    then exit_fail
    else if ltb (tain_uptime now v.when) upsecs
    then exit_fail
    else exit_ok

-- the parts of a status that perpok reads, in the array that the reply was read into
abbrev Readable : Env → Svdef → Bytes → Type 0
Readable e s k =
    (upak32_unpack (drop 30 (pkt_data k)) ≡ s.sv_main.pid)
    × (tain_unpack (drop 34 (pkt_data k)) ≡ s.sv_main.when)
    × (at (pkt_data k) 46 ≡ subsv_bitflags s.sv_main)
    × (at k 0 ≡ 2)
    × (at k 1 ≡ b'S')

readable_lem :
    (e : Env) (s : Svdef) (c : Conn) (behind : Bytes)
    → Fits s.sv_main
    → Readable e s (take 69 (reply_with b'S' (status e s) 66 c).pkt ++ behind)
unfolding reply_with pkt_load status subsv_status tain_pack upak32_pack tain_unpack upak32_unpack
readable_lem e s c behind h = ground arith

reset_bit : (v : Subsv) → has_bit (subsv_bitflags v) 0x02 ≡ v.is_reset
unfolding subsv_bitflags
reset_bit v = ground arith

down_bit : (v : Subsv) → has_bit (subsv_bitflags v) 0x10 ≡ v.want_down
unfolding subsv_bitflags
down_bit v = ground arith

reply_judged :
    (e : Env) (s : Svdef) (k : Bytes) (upsecs : ℕ) (now : Tain)
    → s.sv_main.pid < 2147483648
    → Readable e s k
    → perpok_reply upsecs now k ≡ judged s.sv_main upsecs now
unfolding perpok_reply
reply_judged e s k upsecs now h (pid, when, flags, proto, kind) =
    rw (pid, when, flags, proto, kind, reset_bit s.sv_main, down_bit s.sv_main) (ground (arith, h))

reply_len : (e : Env) (s : Svdef) (c : Conn) → pkt_len (reply_with b'S' (status e s) 66 c).pkt ≡ 69
unfolding reply_with pkt_load
reply_len e s c = refl

query_len : (st : ServiceStat) → pkt_len (query_request st) ≡ 19
unfolding query_request
query_len st = refl

module _ (e : Env) (l : List Svdef) (g : Globals) (c : Conn)
    (behind_request behind_reply : Bytes) where
  query-Asks :
      (st : ServiceStat) (i : ℕ)
      → st.dev < u64_mod
      → st.ino < u64_mod
      → perpd_lookup l st.dev st.ino ≡ some i
      → Asks b'Q' 19 l i (asked_by e l g c behind_request behind_reply (query_request st))
  unfolding query_request upak64_pack
  query-Asks st i dev_fits ino_fits found = record {
    proto_2 = refl;
    of_kind = refl;
    of_size = refl;
    complete = refl;
    found =
        (λ j.
          perpd_lookup l (query_dev st behind_request dev_fits j)
            (query_ino st behind_request ino_fits j))
        ∙ found;
  }

  -- perpok on a service directory that is activated, and that perpd has, judges by the state of the main
  -- subservice in perpd: without a time it is ok; otherwise it fails where no process runs, or one that
  -- resets, or is wanted down, or has been up for less than this time; and it is ok if none of these.
  pub perpok_lem :
      (st : ServiceStat) (i : ℕ) (s : Svdef) (upsecs : ℕ) (now : Tain)
      → st.is_dir ≡ true
      → st.is_sticky ≡ true
      → st.dev < u64_mod
      → st.ino < u64_mod
      → perpd_lookup l st.dev st.ino ≡ some i
      → get_elem? l i ≡ some s
      → IsShowable s.sv_main
      → perpok (some st) (served e l g c behind_request behind_reply) upsecs now
        ≡ judged s.sv_main upsecs now
  unfolding perpok
  perpok_lem st i s upsecs now dir sticky dev_fits ino_fits found at_i shows =
      let conn = asked_by e l g c behind_request behind_reply (query_request st) in
      let answer = reply_with b'S' (status e s) 66 conn in
      let asks = query-Asks st i dev_fits ino_fits found in
      let replied : (perpd_conn_exec e l g conn).2 ≡ answer =
        ap (λ r. r.2) (exec_query_lem e l i s g conn asks at_i) in
      let reply : served e l g c behind_request behind_reply (query_request st)
          ≡ some (take 69 answer.pkt ++ behind_reply) =
        ap (λ r. some (take (pkt_len r.pkt) r.pkt ++ behind_reply)) replied
        ∙ ap (λ n. some (take n answer.pkt ++ behind_reply)) (reply_len e s conn) in
      let step : Bool → Bool → Option Bytes → Exit = λ d t r.
        if not d
        then exit_usage
        else if not t
        then exit_fail
        else elim r [ none ↦ exit_fatal | some k ↦ perpok_reply upsecs now k ] in
      let value : perpok (some st) (served e l g c behind_request behind_reply) upsecs now
          ≡ perpok_reply upsecs now (take 69 answer.pkt ++ behind_reply) =
        (λ i. step (dir i) (sticky i) (reply i)) in
      value
      ∙ reply_judged e s (take 69 answer.pkt ++ behind_reply) upsecs now shows.is_pid
          (readable_lem e s conn behind_reply shows.fits)
