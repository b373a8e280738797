-- ===== src/Tinylog/Oldest.antt =====
-- perp/tinylog.c: what `tinylog_prune` removes.
use perp.Common.{
  ℕ, ◌+◌, ◌≡◌, ◌≤◌, ◌<◌, ◌^◌, length, ◌⊎◌, inl, inr, refl, true, false, List, [], ◌∷◌, Bytes, leb,
  if◌then◌else◌, All, arith, codes,
}
use perp.Cstr.{cstr_cmp, is_below}
use perp.Tinylog.Archive.{
  is_archive, scan, is_taken, Pruned, unchanged, failed, removed, closed_dir, tinylog_prune,
}
use perp.Tinylog.Least.{archives_in, IsLeast, Least, scan-count, scan-Least}

-- Every archive has a name below "_z", the first target, and one that fits the 80 bytes there.
abbrev pub AreOrdinary : List Bytes → Type 0
AreOrdinary = All (λ name.
    (is_archive name ≡ false)
    ⊎ ((is_below (cstr_cmp name (codes "_z")) ≡ true) × (length name < 80)))

none_counted :
    (names : List Bytes) → AreOrdinary names → IsLeast (codes "_z") names → archives_in names ≡ 0
none_counted [] low least = refl
none_counted (name ∷ names) (l, low) (m, least) = ground (arith, none_counted names low least)

taken_target :
    (names : List Bytes) (target : Bytes)
    → AreOrdinary names
    → 0 < archives_in names
    → Least names (codes "_z") target
    → (is_taken target names ≡ true) × (is_archive target ≡ true)
taken_target names target low some_there found = elim found.chosen [
  | inr taken ↦ taken
  | inl first ↦ absurd (omega (arith, some_there, none_counted names low (rw first at found.least)))
]

-- Where there is one archive more than is kept, fewer than 2 ^ 31 are kept, and every archive has
-- a name of less than 80 characters that sorts before "_z", a call of `tinylog_prune` removes an
-- archive that is there, and no archive has a name that sorts before its name.
pub prune_oldest :
    (keep : ℕ) (names : List Bytes)
    → keep < 2 ^ 31
    → archives_in names ≡ keep + 1
    → AreOrdinary names
    → (target : Bytes) × (tinylog_prune keep names ≡ removed target)
      × (is_taken target names ≡ true)
      × (is_archive target ≡ true)
      × IsLeast target names
unfolding tinylog_prune
prune_oldest keep names small many low =
    let found = scan-Least names 0 (codes "_z") in
    let target = (scan names 0 (codes "_z")).1 in
    let (taken, arch) = taken_target names target low (omega (arith, many)) found in
    (
      target,
      ground (arith, taken, scan-count names 0 (codes "_z"), many, small),
      taken,
      arch,
      found.least,
    )

-- what a call comes to where fewer archives are kept than there are
abbrev pub pruned_to : ℕ → ℕ → Bytes → Pruned
pruned_to keep count target = if leb count (keep + 1) then removed target else closed_dir target

-- A number to keep that is below 2 ^ 31 is itself as an `int`.
abbrev pub PrunesTo : ℕ → List Bytes → Type 0
PrunesTo keep names =
    ((archives_in names ≤ keep) × (tinylog_prune keep names ≡ unchanged))
    ⊎ ((keep < archives_in names)
        × ((target : Bytes) × (is_archive target ≡ true)
            × (tinylog_prune keep names ≡ pruned_to keep (archives_in names) target)))

-- With a negative `int`, archives are removed that there are, and "_z" where there are none.
abbrev pub PrunesAll : ℕ → List Bytes → Type 0
PrunesAll keep names =
    ((archives_in names ≡ 0)
      × (tinylog_prune keep names
          ≡ (if is_taken (codes "_z") names then closed_dir (codes "_z") else failed)))
    ⊎ ((0 < archives_in names)
        × ((target : Bytes) × (is_archive target ≡ true)
            × (tinylog_prune keep names ≡ closed_dir target)))

pub prune_few :
    (keep : ℕ) (names : List Bytes)
    → keep < 2 ^ 31
    → archives_in names ≤ keep
    → tinylog_prune keep names ≡ unchanged
unfolding tinylog_prune
prune_few keep names small few = ground (arith, few, small, scan-count names 0 (codes "_z"))
