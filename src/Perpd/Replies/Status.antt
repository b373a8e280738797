-- ===== src/Perpd/Replies/Status.antt =====
-- perp/perpd_conn.c: the status that a query is answered with.
use mathlib.Core.Path.{subst}
use perp.Common.{sym, Bytes, ◌≡◌, ◌<◌, true, arith, drop}
use perp.Upak.{upak64_pack, at, u32_mod, u64_mod, upak32_pack, upak32_unpack, upak64_unpack}
use perp.Tain.{tain_unpack, tain_pack}
use perp.Pkt.{pkt_data, pkt_load}
use perp.Perpd.Types.{Subsv, Svdef, subsv_bitflags, svdef_bitflags, Env}
use perp.Perpd.Conn.{Conn, reply_with, status, subsv_status}

-- A subservice whose numbers fit the fields of a reply.
pub record Fits (v : Subsv) : Type 0 where
  pub pid_fits : v.pid < u32_mod
  pub sec_fits : v.when.sec < u64_mod
  pub nsec_fits : v.when.nsec < u32_mod

-- the payload of a status reply
abbrev pub payload : Env → Svdef → Conn → Bytes
payload e s c = pkt_data (reply_with b'S' (status e s) 66 c).pkt

-- Where the numbers of the main subservice fit their fields, the payload of a status reply holds
-- the flags of the service at byte 28 and the pid, the time and the flags of its main subservice
-- at bytes 30, 34 and 46, where perpstat and perpls look.
pub status_main_readable :
    (e : Env) (s : Svdef) (c : Conn)
    → Fits s.sv_main
    → let b = payload e s c in
      (at b 28 ≡ svdef_bitflags s)
      × (upak32_unpack (drop 30 b) ≡ s.sv_main.pid)
      × (tain_unpack (drop 34 b) ≡ s.sv_main.when)
      × (at b 46 ≡ subsv_bitflags s.sv_main)
unfolding reply_with pkt_load status subsv_status tain_pack upak32_pack upak64_pack tain_unpack
    upak32_unpack upak64_unpack
status_main_readable e s c h = ground arith

-- the logger's part of the payload
abbrev pub LogReadable : Env → Svdef → Conn → Type 0
LogReadable e s c =
    let b = payload e s c in
    (upak32_unpack (drop 48 b) ≡ s.sv_log.pid)
    × (tain_unpack (drop 52 b) ≡ s.sv_log.when)
    × (at b 64 ≡ subsv_bitflags s.sv_log)

logger_readable :
    (e : Env) (s : Svdef) (c : Conn) → Fits s.sv_log → LogReadable e (record s { has_log = true }) c
unfolding reply_with pkt_load status subsv_status tain_pack upak32_pack upak64_pack tain_unpack
    upak32_unpack upak64_unpack
logger_readable e s c h = ground arith

-- Where a service has a logger whose numbers fit their fields, the payload of its status reply
-- holds the pid, the time and the flags of the logger at bytes 48, 52 and 64, where perpstat and
-- perpls look.
pub status-LogReadable :
    (e : Env) (s : Svdef) (c : Conn) → s.has_log ≡ true → Fits s.sv_log → LogReadable e s c
status-LogReadable e s c a h =
    subst (λ b. LogReadable e (record s { has_log = b }) c) (sym a) (logger_readable e s c h)
