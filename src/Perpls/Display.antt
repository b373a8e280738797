-- ===== src/Perpls/Display.antt =====
-- The display of perpls shows the state that perpd has.
use perp.Common.{
  ℕ, ◌<◌, ◌≡◌, sym, ◌∙◌, inl, inr, Bool, true, false, not, ◌&&◌, [], ◌∷◌, Bytes, ltb, ◌==◌,
  if◌then◌else◌, arith, drop, Bool-cases, codes,
}
use perp.Upak.{at, upak32_unpack}
use perp.Tain.{Tain, tain_unpack, tain_uptime}
use perp.Perpd.Types.{Subsv, Svdef, Env, subsv_bitflags, svdef_bitflags}
use perp.Perpd.Conn.{Conn}
use perp.Perpd.Replies.Status.{Fits, payload, status_main_readable, status-LogReadable}
use perp.Perpls.{SvStat, has_bit, Cells, cells, svstat_unpack, fresh_stat}

-- How a subservice is to be shown at an uptime: one that has been up for less than a second, and
-- runs no reset, is shown as one that is still to come up.
abbrev pub described : Subsv → ℕ → Cells
described v uptime =
    let runs = ltb 0 v.pid in
    if not runs
    then record { pid = 0; first = if v.want_down then b'.' else b'!'; second = b'.'; third = b'.' }
    else if uptime == 0 && not v.is_reset
    then record { pid = 0; first = b'!'; second = b'.'; third = b'.' }
    else record {
      pid = v.pid;
      first = if v.want_down then b'!' else b'+';
      second = if v.is_once then b'o' else b'+';
      third = if v.is_reset then b'r' else if v.is_paused then b'p' else b'+';
    }

-- a pid fits a `pid_t`
pub record IsShowable (v : Subsv) : Type 0 where
  pub fits : Fits v
  pub is_pid : v.pid < 2147483648

cells_lem :
    (v : Subsv) (uptime : ℕ)
    → v.pid < 2147483648
    → cells (subsv_bitflags v) v.pid uptime ≡ described v uptime
unfolding cells subsv_bitflags
cells_lem v uptime h = ground arith

-- the character for the service
abbrev pub mark : Svdef → ℕ
mark s = if s.cull then if s.cycle then b'R' else b'!' else b'+'

cull_bit : (s : Svdef) → has_bit (svdef_bitflags s) 0x04 ≡ s.cull
unfolding svdef_bitflags
cull_bit s = ground arith

cycle_bit : (s : Svdef) → has_bit (svdef_bitflags s) 0x08 ≡ s.cycle
unfolding svdef_bitflags
cycle_bit s = ground arith

log_bit : (s : Svdef) → has_bit (svdef_bitflags s) 0x02 ≡ s.has_log
unfolding svdef_bitflags
log_bit s = ground arith

-- How a service is to be shown: its mark, its main subservice and, where there is one, its logger.
abbrev pub panel_of : Svdef → Cells → Bytes → Bytes
panel_of s m rest = b'[' ∷ mark s ∷ b' ' ∷ m.first ∷ m.second ∷ m.third ∷ b' ' ∷ rest

abbrev pub shown_main : Svdef → Tain → SvStat
shown_main s now =
    let up = tain_uptime now s.sv_main.when in
    let m = described s.sv_main up in
    record fresh_stat { panel = panel_of s m (codes "---]"); pid_main = m.pid; uptime_main = up }

abbrev pub shown_both : Svdef → Tain → SvStat
shown_both s now =
    let up = tain_uptime now s.sv_main.when in
    let up_log = tain_uptime now s.sv_log.when in
    let m = described s.sv_main up in
    let l = described s.sv_log up_log in
    record fresh_stat {
      panel = panel_of s m (l.first ∷ l.second ∷ l.third ∷ b']' ∷ []);
      pid_main = m.pid;
      uptime_main = up;
      has_log = true;
      pid_log = l.pid;
      uptime_log = up_log;
    }

abbrev pub shown : Svdef → Tain → SvStat
shown s now = if s.has_log then shown_both s now else shown_main s now

module _ (s : Svdef) (b : Bytes) (now : Tain) (hm : IsShowable s.sv_main)
    (at_28 : at b 28 ≡ svdef_bitflags s) (at_30 : upak32_unpack (drop 30 b) ≡ s.sv_main.pid)
    (at_34 : tain_unpack (drop 34 b) ≡ s.sv_main.when)
    (at_46 : at b 46 ≡ subsv_bitflags s.sv_main) where
  unpack_main : s.has_log ≡ false → svstat_unpack fresh_stat b now ≡ shown_main s now
  unfolding svstat_unpack
  unpack_main absent =
      let up = tain_uptime now s.sv_main.when in
      rw
        (
          at_28,
          at_30,
          at_34,
          at_46,
          cells_lem s.sv_main up hm.is_pid,
          cull_bit s,
          cycle_bit s,
          log_bit s,
          absent,
        )
        (ground arith)

  unpack_both :
      IsShowable s.sv_log
      → upak32_unpack (drop 48 b) ≡ s.sv_log.pid
      → tain_unpack (drop 52 b) ≡ s.sv_log.when
      → at b 64 ≡ subsv_bitflags s.sv_log
      → s.has_log ≡ true
      → svstat_unpack fresh_stat b now ≡ shown_both s now
  unfolding svstat_unpack
  unpack_both hl at_48 at_52 at_64 present =
      let up = tain_uptime now s.sv_main.when in
      let up_log = tain_uptime now s.sv_log.when in
      rw
        (
          at_28,
          at_30,
          at_34,
          at_46,
          at_48,
          at_52,
          at_64,
          cells_lem s.sv_main up hm.is_pid,
          cells_lem s.sv_log up_log hl.is_pid,
          cull_bit s,
          cycle_bit s,
          log_bit s,
          present,
        )
        (ground arith)

if_true : {b : Bool} (x y : SvStat) → b ≡ true → (if b then x else y) ≡ x
if_true x y h = rw h

if_false : {b : Bool} (x y : SvStat) → b ≡ false → (if b then x else y) ≡ y
if_false x y h = rw h

-- perpls shows what perpd has: a status reply for a service whose numbers fit, unpacked by perpls
-- at some time, gives the mark of the service, the pid, the uptime and the three characters of its
-- main subservice, and those of its logger where it has one. One that has been up for less than a
-- second, and runs no reset, is shown as one that is still to come up, with a pid of 0.
pub svstat_unpack-payload :
    (e : Env) (s : Svdef) (c : Conn) (now : Tain)
    → IsShowable s.sv_main
    → IsShowable s.sv_log
    → svstat_unpack fresh_stat (payload e s c) now ≡ shown s now
svstat_unpack-payload e s c now hm hl =
    let (at_28, at_30, at_34, at_46) = status_main_readable e s c hm.fits in
    let b = payload e s c in
    elim (Bool-cases s.has_log) [
      | inr absent ↦
          unpack_main s b now hm at_28 at_30 at_34 at_46 absent
          ∙ sym (if_false (shown_both s now) (shown_main s now) absent)
      | inl present ↦
          let (at_48, at_52, at_64) = status-LogReadable e s c present hl.fits in
          unpack_both s b now hm at_28 at_30 at_34 at_46 hl at_48 at_52 at_64 present
          ∙ sym (if_true (shown_both s now) (shown_main s now) present)
    ]
