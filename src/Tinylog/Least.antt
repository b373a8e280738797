-- ===== src/Tinylog/Least.antt =====
-- perp/tinylog.c: what a scan of `tinylog_prune` finds.
use perp.Common.{
  ℕ, ◌+◌, ◌≡◌, ◌⊎◌, inl, inr, true, false, List, [], ◌∷◌, Bytes, if◌then◌else◌, All, arith,
  Bool-cases,
}
use perp.Cstr.{cstr_cmp, is_below}
use perp.Cstr.Order.{cstr_cmp_refl, below_asym, below_chain}
use perp.Tinylog.Archive.{is_archive, scan, is_taken}

-- how many of the names are names of archives
abbrev pub archives_in : List Bytes → ℕ
archives_in [] = 0
archives_in (name ∷ names) = (if is_archive name then 1 else 0) + archives_in names

-- no archive has a name below this one
abbrev pub IsLeast : Bytes → List Bytes → Type 0
IsLeast target = All (λ name. (is_archive name ≡ false) ⊎ (is_below (cstr_cmp name target) ≡ false))

-- what a scan finds, from a first target on
pub record Least (names : List Bytes) (first target : Bytes) : Type 0 where
  pub descends : is_below (cstr_cmp first target) ≡ false
  pub least : IsLeast target names
  pub chosen : (target ≡ first) ⊎ ((is_taken target names ≡ true) × (is_archive target ≡ true))

pub scan-count :
    (names : List Bytes) (count : ℕ) (first : Bytes)
    → (scan names count first).0 ≡ count + archives_in names
unfolding scan
scan-count [] count first = omega arith
scan-count (name ∷ names) count first =
    let chosen = if is_below (cstr_cmp name first) then name else first in
    ground (arith, scan-count names (count + 1) chosen, scan-count names count first)

taken_later :
    (target name : Bytes) (names : List Bytes)
    → is_taken target names ≡ true
    → is_taken target (name ∷ names) ≡ true
taken_later target name names h = ground arith

taken_now : (name : Bytes) (names : List Bytes) → is_taken name (name ∷ names) ≡ true
taken_now name names = ground (arith, cstr_cmp_refl name)

lower-Least :
    (name first target : Bytes) (names : List Bytes)
    → is_archive name ≡ true
    → is_below (cstr_cmp name first) ≡ true
    → Least names name target
    → Least (name ∷ names) first target
lower-Least name first target names arch low h = record {
  descends = below_chain first name target (below_asym name first low) h.descends;
  least = (inr h.descends, h.least);
  chosen = ground (arith, h.chosen, taken_now name names, taken_later target name names);
}

other-Least :
    (name first target : Bytes) (names : List Bytes)
    → (is_archive name ≡ false) ⊎ (is_below (cstr_cmp name first) ≡ false)
    → Least names first target
    → Least (name ∷ names) first target
other-Least name first target names high h = record {
  descends = h.descends;
  least = (
    elim high [
      | inl other ↦ inl other
      | inr above ↦ inr (below_chain name first target above h.descends)
    ],
    h.least,
  );
  chosen = ground (arith, h.chosen, taken_later target name names);
}

pub scan-Least :
    (names : List Bytes) (count : ℕ) (first : Bytes) → Least names first (scan names count first).1
unfolding scan
scan-Least [] count first = ground (arith, cstr_cmp_refl first)
scan-Least (name ∷ names) count first = elim (Bool-cases (is_archive name)) [
  | inr other ↦ rw other (other-Least name first _ names (inl other) (scan-Least names count first))
  | inl arch ↦ elim (Bool-cases (is_below (cstr_cmp name first))) [
    | inl low ↦
        rw (arch, low) (lower-Least name first _ names arch low (scan-Least names (count + 1) name))
    | inr high ↦
        rw (arch, high)
          (other-Least name first _ names (inr high) (scan-Least names (count + 1) first))
  ]
]
