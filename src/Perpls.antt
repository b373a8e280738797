-- ===== src/Perpls.antt =====
-- perp/perpls.c: what perpls makes of a status reply.
pub mod Display
mod Tests
use perp.Common.{
  ◌+◌, ℕ, ◌/◌, ◌%◌, Bool, false, not, ◌&&◌, ◌||◌, Bytes, codes, ltb, ◌==◌, if◌then◌else◌, drop, set,
}
use perp.Upak.{at, upak32_unpack}
use perp.Tain.{Tain, tain_unpack, tain_uptime}

-- `struct svstat`, less the errors, the name and the cap. A `pid_t` is written as the uint32_t that
-- it was unpacked from; -1 is 2^32 - 1.
pub record SvStat : Type 0 where
  pub panel : Bytes
  pub pid_main : ℕ
  pub uptime_main : ℕ
  pub has_log : Bool
  pub pid_log : ℕ
  pub uptime_log : ℕ

-- is the bit of this weight set?
abbrev pub has_bit : ℕ → ℕ → Bool
has_bit flags weight = flags / weight % 2 == 1

abbrev pub is_positive : ℕ → Bool
is_positive pid = ltb 0 pid && ltb pid 2147483648

-- What the display of a subservice is made of: the pid, and three characters of the panel.
pub record Cells : Type 0 where
  pub pid : ℕ
  pub first : ℕ
  pub second : ℕ
  pub third : ℕ

-- the block on the main subservice, and the same block on the logger
unfoldable pub cells : ℕ → ℕ → ℕ → Cells
cells flags pid uptime =
    let mark = if not (pid == 0) then b'+' else b'.' in
    let down = has_bit flags 0x10 in
    let wanted = if (pid == 0 && not down) || (not (pid == 0) && down) then b'!' else mark in
    let once = if has_bit flags 0x04 then b'o' else mark in
    let paused = if has_bit flags 0x08 then b'p' else mark in
    let state = if has_bit flags 0x02 then b'r' else paused in
    if is_positive pid
    then if ltb uptime 1 && not (has_bit flags 0x02)
      then record { pid = 0; first = b'!'; second = b'.'; third = b'.' }
      else record { pid = pid; first = wanted; second = once; third = state }
    else record { pid = pid; first = wanted; second = mark; third = mark }

-- three characters of the panel, from this index on
abbrev pub put : Bytes → ℕ → Cells → Bytes
put panel i c = set (set (set panel i c.first) (i + 1) c.second) (i + 2) c.third

unfoldable pub svstat_unpack : SvStat → Bytes → Tain → SvStat
unfolding cells
svstat_unpack s buf now =
    let flags = at buf 28 in
    let culled = if has_bit flags 0x08 then b'R' else b'!' in
    let panel = if has_bit flags 0x04 then set s.panel 1 culled else s.panel in
    let uptime_main = tain_uptime now (tain_unpack (drop 34 buf)) in
    let main = cells (at buf 46) (upak32_unpack (drop 30 buf)) uptime_main in
    let uptime_log = tain_uptime now (tain_unpack (drop 52 buf)) in
    let log = cells (at buf 64) (upak32_unpack (drop 48 buf)) uptime_log in
    let one = record s {
      panel = put panel 3 main;
      has_log = has_bit flags 0x02;
      pid_main = main.pid;
      uptime_main = uptime_main;
    } in
    let two = record one {
      panel = put one.panel 7 log;
      pid_log = log.pid;
      uptime_log = uptime_log;
    } in
    if at s.panel 1 == b'E' || at s.panel 1 == b'-'
    then s
    else if has_bit flags 0x02
    then two
    else one

-- what `svstat_new` makes and `svstat_query` leaves on a status reply
abbrev pub fresh_stat : SvStat
fresh_stat = record {
  panel = codes "[+ --- ---]";
  pid_main = 4294967295;
  uptime_main = 0;
  has_log = false;
  pid_log = 4294967295;
  uptime_log = 0;
}
