-- ===== src/Tinylog/Tests.antt =====
-- Runs of tinylog.
use perp.Common.{
  ℕ, zero, suc, ◌/◌, ◌≡◌, inl, inr, refl, Bool, true, false, Option, none, some, List, [], ◌∷◌,
  Bytes, arith, codes,
}
use perp.Cstr.{cstr_cmp}
use perp.Tinylog.Archive.{is_archive, is_taken, removed, closed_dir, tinylog_prune}
use perp.Tinylog.{Tinylog, Disk}
use perp.Tinylog.Loop.{do_log}
use perp.Tinylog.Lines.{ended_with}
use perp.Tinylog.Written.{entries, do_log_lem}
use perp.Tinylog.Sizes.{IsSized, AreStamps, do_log-IsSized}
use perp.Tinylog.Least.{IsLeast}
use perp.Tinylog.Oldest.{prune_oldest}
use perp.Tinylog.Rotation.{whole}
use perp.Tinylog.Kept.{do_log_keeps}

-- as many bytes as the clock was read
abbrev ticks : ℕ → Bytes
ticks zero = []
ticks (suc n) = b'x' ∷ ticks n

-- a clock that gives each of its names twice
abbrev slow : ℕ → Bytes
slow n = ticks (n / 2)

-- a clock that stands still
abbrev stamp : ℕ → Bytes
stamp n = codes "20110216T122334.000001"

stamp-AreStamps : AreStamps stamp
stamp-AreStamps n = refl

abbrev compress : Bytes → Option Bytes
compress file = none

abbrev quiet : Tinylog
quiet = record {
  current_size = 0;
  current_max = 2000;
  keep_max = 9;
  wantstamp = false;
  wantzip = false;
  flagrotate = 0;
}

abbrev fresh_disk : Disk
fresh_disk = record { is_there = true; is_clean = false; current = []; archives = []; readings = 0 }

-- an alarm makes the log rotate, though it holds a few bytes only
abbrev rotating : Tinylog
rotating = record quiet { flagrotate = 1; current_size = 4 }

abbrev old_disk : Disk
old_disk = record fresh_disk { current = codes "old\n" }

abbrev two_lines : Bytes
two_lines = codes "one\n\ntwo"

abbrev behind : Option (Bool × Tinylog × Disk) → Bool × Tinylog × Disk
behind none = (false, quiet, fresh_disk)
behind (some r) = r

do_log_lem_example :
    do_log stamp compress 3 true false rotating two_lines old_disk
    ≡ ended_with stamp compress 3 true false
        (entries stamp compress 3 false (codes "one" ∷ codes "two" ∷ []) rotating old_disk)
do_log_lem_example = do_log_lem stamp compress 3 true false rotating two_lines old_disk

old-IsSized : IsSized rotating old_disk
old-IsSized = record {
  counted = refl;
  bounded = omega arith;
  max_allowed = omega arith;
  max_fits = omega arith;
}

do_log-IsSized_example :
    let r = behind (do_log stamp compress 3 true false rotating two_lines old_disk) in
    IsSized r.1 r.2
unfolding do_log perp.Tinylog.tinylog_post perp.Tinylog.Line.collect tinylog_prune
do_log-IsSized_example =
    do_log-IsSized stamp compress 3 stamp-AreStamps true false rotating two_lines old_disk
      old-IsSized refl

do_log_keeps_example :
    whole (behind (do_log stamp compress 3 true false rotating two_lines old_disk)).2
    ≡ codes "old\none\ntwo\n"
unfolding do_log perp.Tinylog.tinylog_post perp.Tinylog.Line.collect tinylog_prune
do_log_keeps_example =
    do_log_keeps stamp compress 3 true false rotating two_lines old_disk refl
      (record { unzipped = refl; small = omega arith; enough = omega arith }) refl

abbrev listing : List Bytes
listing =
    codes "."
    ∷ codes "current"
    ∷ codes "_20110216T122335.000001.s"
    ∷ codes "_20110216T122334.000001.s"
    ∷ []

prune_oldest_example :
    (target : Bytes) × (tinylog_prune 1 listing ≡ removed target)
    × (is_taken target listing ≡ true)
    × (is_archive target ≡ true)
    × IsLeast target listing
unfolding is_archive cstr_cmp
prune_oldest_example =
    prune_oldest 1 listing (omega arith) refl
      (inl refl, (inl refl, (inr (refl, omega arith), (inr (refl, omega arith), tt))))

-- with -k 3000000000, the oldest of two archives is removed, and the directory stream is read on
negative_keep : tinylog_prune 3_000_000_000 listing ≡ closed_dir (codes "_20110216T122334.000001.s")
unfolding tinylog_prune is_archive cstr_cmp
negative_keep = refl
