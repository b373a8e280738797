-- ===== src/Tinylog/Archive.antt =====
-- perp/tinylog.c: `tinylog_prune`, which removes the archive with the least name.
use perp.Common.{
  ℕ, ◌+◌, ◌-◌, ◌%◌, ◌^◌, Bool, false, not, ◌||◌, ◌&&◌, List, [], ◌∷◌, Bytes, leb, ◌==◌,
  if◌then◌else◌, length, codes,
}
use perp.Upak.{at}
use perp.Cstr.{cstr_cmp, is_below, is_same}

-- The test of a name. The comparison binds closer than the assignment to `n` in the source, so
-- that the bound on `n` holds of every name.
unfoldable pub is_archive : Bytes → Bool
is_archive name = at name 0 == b'_' && leb 23 (length name) && at name 9 == b'T'

-- one scan of the directory: how many archives there are, and the least name below `target`
unfoldable pub scan : List Bytes → ℕ → Bytes → ℕ × Bytes
unfolding is_archive
scan [] count target = (count, target)
scan (name ∷ names) count target =
    let chosen = if is_below (cstr_cmp name target) then name else target in
    let counted = scan names (count + 1) chosen in
    let passed = scan names count target in if is_archive name then counted else passed

-- is there a file of this name?
abbrev pub is_taken : Bytes → List Bytes → Bool
is_taken name [] = false
is_taken name (n ∷ names) = is_same (cstr_cmp n name) || is_taken name names

-- What a call of `tinylog_prune` comes to: it returns 0 with nothing removed, or with one file
-- removed; it returns -1, since the target does not exist; or, with more to remove, it reads on
-- from a directory stream that it has closed.
pub data Pruned : Type 0 where
  unchanged failed : Pruned
  removed closed_dir : Bytes → Pruned

-- What a `size_t` is as an `int` of 32 bits: a negative one is below every count.
abbrev pub is_negative : ℕ → Bool
is_negative keep_max = leb (2 ^ 31) (keep_max % 2 ^ 32)

abbrev pub is_kept : ℕ → ℕ → Bool
is_kept keep_max count = not (is_negative keep_max) && leb count (keep_max % 2 ^ 32)

-- A directory has fewer than 2 ^ 31 names, so that the count does not overflow.
unfoldable pub tinylog_prune : ℕ → List Bytes → Pruned
unfolding scan
tinylog_prune keep_max names =
    let (count, target) = scan names 0 (codes "_z") in
    if is_kept keep_max count
    then unchanged
    else if not (is_taken target names)
    then failed
    else if is_kept keep_max (count - 1)
    then removed target
    else closed_dir target
