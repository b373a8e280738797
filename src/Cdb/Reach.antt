-- ===== src/Cdb/Reach.antt =====
-- lasagna/cdb/cdbmk_finish.c: the records of a subtable are before the first empty slot of a search.
use native.Mathlib.Nat.{mod-lt}
use mathlib.Core.Option.{some-injective}
use mathlib.Core.Path.{subst}
use perp.Common.{
  ℕ, ◌+◌, ◌*◌, ◌/◌, ◌≡◌, ◌≢◌, ◌≤◌, ◌<◌, inl, inr, sym, ◌∙◌, ap, Option, none, some, List, [], ◌∷◌,
  ◌++◌, Bytes, ◌==◌, length, All, arith, Bool-cases, Option-cases,
}
use perp.Upak.{u32_mod}
use perp.Cdb.{cdb_slot}
use perp.Cdb.Finish.{tbuf_load}
use perp.Cdb.Probe.{order}
use perp.Cdb.Table.{hash_at, rpos_at, first_empty, IsLoaded, tbuf_load_lem}

-- Such a slot is taken.
abbrev pub IsTaken : Bytes → ℕ → ℕ → Type 0
IsTaken tbuf base slot = rpos_at tbuf base slot ≢ 0

-- A search for the hash comes to a slot with this hash and offset, before it comes to an empty slot.
pub record IsReached (tbuf : Bytes) (base tslots : ℕ) (e : ℕ × ℕ) : Type 0 where
  pub slot : ℕ
  pub before : List ℕ
  pub after : List ℕ
  pub is_on_way :
      order tslots (cdb_slot e.0 tslots) (cdb_slot e.0 tslots) ≡ before ++ (slot ∷ after)
  pub all_taken : All (IsTaken tbuf base) before
  pub same_hash : hash_at tbuf base slot ≡ e.0
  pub same_rpos : rpos_at tbuf base slot ≡ e.1

-- the records loaded one after the other
abbrev pub load_all : ℕ → ℕ → List (ℕ × ℕ) → Bytes → Option Bytes
load_all base tslots [] tbuf = some tbuf
load_all base tslots ((hash, rpos) ∷ es) tbuf =
    elim (tbuf_load tbuf base tslots (cdb_slot hash tslots) hash rpos) [
      | none ↦ none
      | some tbuf' ↦ load_all base tslots es tbuf'
    ]

-- the fields are of 32 bits, and the offset is none of an empty slot
abbrev pub IsEntry : ℕ × ℕ → Type 0
IsEntry e = (e.0 < u32_mod) × (e.1 < u32_mod) × (e.1 ≢ 0)

module _ (tbuf tbuf' : Bytes) (base slot hash rpos : ℕ)
    (loaded : IsLoaded tbuf tbuf' base slot hash rpos) where
  elsewhere : (s : ℕ) → IsTaken tbuf base s → s ≢ slot
  elsewhere s taken same = taken (ap (rpos_at tbuf base) same ∙ loaded.was_empty)

  still-IsTaken : (slots : List ℕ) → All (IsTaken tbuf base) slots → All (IsTaken tbuf' base) slots
  still-IsTaken [] all = tt
  still-IsTaken (s ∷ slots) (taken, all) = (
    λ empty. taken (sym (loaded.others s (elsewhere s taken)).1 ∙ empty),
    still-IsTaken slots all,
  )

  kept-IsReached :
      (tslots : ℕ) (e : ℕ × ℕ)
      → e.1 ≢ 0
      → IsReached tbuf base tslots e
      → IsReached tbuf' base tslots e
  kept-IsReached tslots e some_rpos r =
      let apart = elsewhere r.slot (λ empty. some_rpos (sym r.same_rpos ∙ empty)) in
      record {
        slot = r.slot;
        before = r.before;
        after = r.after;
        is_on_way = r.is_on_way;
        all_taken = still-IsTaken r.before r.all_taken;
        same_hash = (loaded.others r.slot apart).0 ∙ r.same_hash;
        same_rpos = (loaded.others r.slot apart).1 ∙ r.same_rpos;
      }

  kept-All :
      (tslots : ℕ) (es : List (ℕ × ℕ))
      → All IsEntry es
      → All (IsReached tbuf base tslots) es
      → All (IsReached tbuf' base tslots) es
  kept-All tslots [] entries all = tt
  kept-All tslots (e ∷ es) (entry, entries) (r, all) =
      (kept-IsReached tslots e entry.2 r, kept-All tslots es entries all)

first_empty_lem :
    (tbuf : Bytes) (base : ℕ) (slots : List ℕ) {slot : ℕ}
    → first_empty tbuf base slots ≡ some slot
    → (before : List ℕ) × (after : List ℕ) × (slots ≡ before ++ (slot ∷ after))
      × All (IsTaken tbuf base) before
first_empty_lem tbuf base [] first = cc
first_empty_lem tbuf base (s ∷ slots) {slot} first = elim (Bool-cases (rpos_at tbuf base s == 0)) [
  | inl empty ↦
      let same : s ≡ slot = some-injective _ _ (rw empty at first) in
      ([], slots, ap (λ t. t ∷ slots) same, tt)
  | inr full ↦
      let (before, after, split, all) = first_empty_lem tbuf base slots (rw full at first) in
      (
        s ∷ before,
        after,
        ap (λ ss. s ∷ ss) split,
        (λ none_there. ground (arith, full, none_there), all),
      )
]

-- one record
load-IsReached :
    (tbuf : Bytes) (base tslots : ℕ) (e : ℕ × ℕ) {tbuf' : Bytes}
    → base + tslots * 8 ≤ length tbuf
    → 0 < tslots
    → tslots < u32_mod
    → IsEntry e
    → tbuf_load tbuf base tslots (cdb_slot e.0 tslots) e.0 e.1 ≡ some tbuf'
    → (slot : ℕ) × IsLoaded tbuf tbuf' base slot e.0 e.1 × IsReached tbuf' base tslots e
load-IsReached tbuf base tslots e {tbuf'} inside some_slots small entry done =
    let target = cdb_slot e.0 tslots in
    let slots = order tslots target target in
    elim (tbuf_load_lem tbuf base tslots target e.0 e.1 inside small (mod-lt (e.0 / 256) some_slots)
      entry.0 entry.1) [
        | inl (full, stuck) ↦ let never : none ≡ some tbuf' = sym stuck ∙ done in cc
        | inr (slot, tbuf1, first, put, loaded1) ↦
            let same : tbuf1 ≡ tbuf' = some-injective _ _ (sym put ∙ done) in
            let loaded = subst (λ b. IsLoaded tbuf b base slot e.0 e.1) same loaded1 in
            let (before, after, split, taken) = first_empty_lem tbuf base slots first in
            (
              slot,
              loaded,
              record {
                slot = slot;
                before = before;
                after = after;
                is_on_way = split;
                all_taken = still-IsTaken tbuf tbuf' base slot e.0 e.1 loaded before taken;
                same_hash = loaded.hash_stored;
                same_rpos = loaded.rpos_stored;
              },
            )
      ]

-- those that were loaded before, and those that are loaded now
both-IsReached :
    (base tslots : ℕ) (es earlier : List (ℕ × ℕ)) (tbuf : Bytes) {tbuf' : Bytes}
    → base + tslots * 8 ≤ length tbuf
    → 0 < tslots
    → tslots < u32_mod
    → All IsEntry es
    → All IsEntry earlier
    → All (IsReached tbuf base tslots) earlier
    → load_all base tslots es tbuf ≡ some tbuf'
    → All (IsReached tbuf' base tslots) earlier × All (IsReached tbuf' base tslots) es
both-IsReached base tslots [] earlier tbuf inside some_slots small now were reached done =
    (subst (λ b. All (IsReached b base tslots) earlier) (some-injective _ _ done) reached, tt)
both-IsReached base tslots (e ∷ es) earlier tbuf {tbuf'} inside some_slots small (entry, now) were
      reached done =
    elim (Option-cases (tbuf_load tbuf base tslots (cdb_slot e.0 tslots) e.0 e.1)) [
      | inl stuck ↦ let never : none ≡ some tbuf' = rw (stuck, load_all) at done in cc
      | inr (tbuf1, put) ↦
          let (slot, loaded, here) =
            load-IsReached tbuf base tslots e inside some_slots small entry put in
          let kept = kept-All tbuf tbuf1 base slot e.0 e.1 loaded tslots earlier were reached in
          let (all, rest) =
            both-IsReached base tslots es (e ∷ earlier) tbuf1
              (omega (arith, inside, loaded.as_long)) some_slots small now (entry, were)
              (here, kept) (rw (put, load_all) at done) in
          (all.1, (all.0, rest))
    ]

-- When records, with fields of 32 bits and offsets that are not 0, are loaded one after the other
-- into a subtable that lies within the buffer, a search for the hash of any of them comes to a slot
-- with its hash and its offset before it comes to an empty slot.
pub load_all-IsReached :
    (base tslots : ℕ) (es : List (ℕ × ℕ)) (tbuf : Bytes) {tbuf' : Bytes}
    → base + tslots * 8 ≤ length tbuf
    → 0 < tslots
    → tslots < u32_mod
    → All IsEntry es
    → load_all base tslots es tbuf ≡ some tbuf'
    → All (IsReached tbuf' base tslots) es
load_all-IsReached base tslots es tbuf inside some_slots small entries done =
    (both-IsReached base tslots es [] tbuf inside some_slots small entries tt tt done).1
