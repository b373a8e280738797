-- ===== src/Tinylog.antt =====
-- perp/tinylog.c: lines from the standard input into a log that is rotated by size.
pub mod Line
pub mod Archive
pub mod Loop
pub mod Clipped
pub mod Lines
pub mod Sizes
pub mod Least
pub mod Oldest
pub mod Rotation
pub mod Kept
pub mod Written
pub mod Collisions
pub mod Returns
mod Tests
use perp.Common.{
  ℕ, zero, suc, ◌+◌, ◌-◌, ◌%◌, Bool, true, false, not, ◌||◌, Option, none, some, List, [], ◌∷◌,
  ◌++◌, Bytes, ltb, leb, ◌==◌, if◌then◌else◌, length, map, codes,
}
use perp.Upak.{u64_mod}
use perp.Cstr.{cstr_cmp, is_same}
use perp.Tinylog.Archive.{is_taken, unchanged, failed, removed, closed_dir, tinylog_prune}

-- `struct tinylog`, less the descriptors, with the variable `flagrotate`
pub record Tinylog : Type 0 where
  pub current_size : ℕ
  pub current_max : ℕ
  pub keep_max : ℕ
  pub wantstamp : Bool
  pub wantzip : Bool
  pub flagrotate : ℕ

-- The log directory: the file `current`, if it is there, with its execute bit, and the archives, by
-- name, in the order in which they were made; and how often the clock was read.
pub record Disk : Type 0 where
  pub is_there : Bool
  pub is_clean : Bool
  pub current : Bytes
  pub archives : List (Bytes × Bytes)
  pub readings : ℕ

abbrev pub names : List (Bytes × Bytes) → List Bytes
names archives = map (λ a. a.0) archives

abbrev pub without : Bytes → List (Bytes × Bytes) → List (Bytes × Bytes)
without name [] = []
without name (a ∷ archives) =
    if is_same (cstr_cmp a.0 name) then without name archives else a ∷ without name archives

-- a new and empty file, in the mode for active logging
abbrev pub opened : Disk → Disk
opened d = record d { is_there = true; is_clean = false; current = [] }

-- The stamp at each reading of the clock; what the gzip process makes of a file, if it succeeds;
-- and how many collisions of names are waited for.
module _ (clock : ℕ → Bytes) (gzip : Bytes → Option Bytes) (patience : ℕ) where
  abbrev pub archive_name : Disk → Bytes → Bytes
  archive_name d ext = b'_' ∷ (clock d.readings ++ (b'.' ∷ ext))

  -- the loop around `link`; `none` says that it goes on
  unfoldable pub link_log : ℕ → Bytes → Bytes → Disk → Option (Bytes × Disk)
  link_log zero ext log d = none
  link_log (suc f) ext log d =
      let again = link_log f ext log (record d { readings = d.readings + 1 }) in
      let name = archive_name d ext in
      if is_taken name (names d.archives)
      then again
      else some (
        name,
        record d { archives = d.archives ++ ((name, log) ∷ []); readings = d.readings + 1 },
      )

  -- `tinylog_gzip`: the archive is replaced by one with the suffix, or stays as it is
  unfoldable pub tinylog_gzip : Bytes → Bytes → Disk → Disk
  tinylog_gzip name log d = elim (gzip log) [
    | none ↦ d
    | some zipped ↦ record d {
      archives = without name d.archives ++ ((name ++ codes ".Z", zipped) ∷ []);
    }
  ]

  -- `none` where the call of `tinylog_prune` has no defined return, or returns -1 again and again
  unfoldable pub pruned : Tinylog → Disk → Option Disk
  pruned t d = elim (tinylog_prune t.keep_max (names d.archives)) [
    | unchanged ↦ some d
    | failed ↦ none
    | removed name ↦ some (record d { archives = without name d.archives })
    | closed_dir name ↦ none
  ]

  -- on a log that exists, with one link
  unfoldable pub tinylog_keep : Tinylog → Bytes → Bytes → Disk → Option Disk
  unfolding link_log tinylog_gzip pruned
  tinylog_keep t log ext d = elim (link_log patience ext log d) [
    | none ↦ none
    | some (name, d1) ↦ pruned t (if t.wantzip then tinylog_gzip name log d1 else d1)
  ]

  unfoldable pub tinylog_rotate : Tinylog → Disk → Option (Tinylog × Disk)
  unfolding tinylog_keep
  tinylog_rotate t d =
      let kept = tinylog_keep t d.current (codes "s") (record d { current = [] }) in
      if not (ltb 0 t.current_size) then some (record t { flagrotate = 0 }, d) else elim kept [
        | none ↦ none
        | some d' ↦ some (record t { current_size = 0; flagrotate = 0 }, opened d')
      ]

  -- `write_all` appends the whole line, however it is taken
  abbrev pub written : Bytes → Tinylog × Disk → Tinylog × Disk
  written line (t, d) = (
    record t { current_size = (t.current_size + length line) % u64_mod },
    record d { current = d.current ++ line },
  )

  abbrev pub must_rotate : Tinylog → ℕ → Bool
  must_rotate t len =
      not (t.flagrotate == 0) || leb ((t.current_max + u64_mod - len) % u64_mod) t.current_size

  unfoldable pub tinylog_post : Tinylog → Bytes → Disk → Option (Tinylog × Disk)
  unfolding tinylog_rotate
  tinylog_post t line d =
      let rotated = tinylog_rotate t d in
      if must_rotate t (length line)
      then elim rotated [ none ↦ none | some s ↦ some (written line s) ]
      else some (written line (t, d))
