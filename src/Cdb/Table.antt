-- ===== src/Cdb/Table.antt =====
-- lasagna/cdb/cdbmk_finish.c: where `tbuf_load` puts a record.
use mathlib.Core.Path.{subst}
use perp.Common.{
  ℕ, zero, suc, ◌+◌, ◌-◌, ◌*◌, ◌≡◌, ◌≢◌, ◌≤◌, ◌<◌, ◌⊎◌, inl, inr, refl, sym, ◌∙◌, ap, Option, none,
  some, List, [], ◌∷◌, ◌++◌, Bytes, ltb, ◌==◌, if◌then◌else◌, drop, length, store, arith,
  Bool-cases, All, ltb→lt, lt→ltb, All-append,
}
use perp.Upak.{u32_mod, at, upak32_pack, upak32_unpack}
use perp.Cdb.Find.{wrap}
use perp.Cdb.Finish.{load_from, tbuf_load}
use perp.Cdb.Probe.{span, order, order_step, ahead}
use perp.Upak.RoundTrip.{upak32_unpack-pack}
use perp.Cdb.Walk.{second_size}
use perp.Cdb.Arrays.{at-store_in, at-store_out, unpack_same, length-store}

-- the hash and the offset in a slot of the subtable at an offset
abbrev pub hash_at : Bytes → ℕ → ℕ → ℕ
hash_at tbuf base slot = upak32_unpack (drop (base + slot * 8) tbuf)

abbrev pub rpos_at : Bytes → ℕ → ℕ → ℕ
rpos_at tbuf base slot = upak32_unpack (drop (base + slot * 8 + 4) tbuf)

-- the first of the slots that is empty
abbrev pub first_empty : Bytes → ℕ → List ℕ → Option ℕ
first_empty tbuf base [] = none
first_empty tbuf base (slot ∷ slots) =
    if rpos_at tbuf base slot == 0 then some slot else first_empty tbuf base slots

-- a record stored there
abbrev pub put_at : Bytes → ℕ → ℕ → ℕ → Option ℕ → Option Bytes
put_at tbuf base hash rpos none = none
put_at tbuf base hash rpos (some slot) =
    some (store tbuf (base + slot * 8) (upak32_pack hash ++ upak32_pack rpos))

load_from_lem :
    (f : ℕ) (tbuf : Bytes) (base tslots slot s0 hash rpos : ℕ)
    → tslots < u32_mod
    → slot < tslots
    → s0 < tslots
    → ahead tslots slot s0 ≡ f
    → load_from f tbuf base tslots slot hash rpos
      ≡ put_at tbuf base hash rpos (first_empty tbuf base (order tslots slot s0))
unfolding load_from
load_from_lem zero tbuf base tslots slot s0 hash rpos small inside start steps =
    absurd (ground (arith, steps, inside))
load_from_lem (suc f) tbuf base tslots slot s0 hash rpos small inside start steps =
    let next = wrap tslots slot in
    rw (order_step tslots slot s0 small inside start)
      (elim (Bool-cases (rpos_at tbuf base slot == 0)) [
        | inl empty ↦ rw empty refl
        | inr full ↦ elim (Bool-cases (next == s0)) [
          | inl round ↦
              let last : f ≡ 0 = ground (arith, steps, round, inside, small) in
              rw (full, round) (ap (λ g. load_from g tbuf base tslots next hash rpos) last)
          | inr other ↦
              rw (full, other)
                (load_from_lem f tbuf base tslots next s0 hash rpos small
                  (ground (arith, inside, small)) start
                  (ground (arith, inside, small, start, steps, other)))
        ]
      ])

-- What becomes of a subtable: the slot was empty, holds the record, and the others are as before.
pub record IsLoaded (tbuf tbuf' : Bytes) (base slot hash rpos : ℕ) : Type 0 where
  pub as_long : length tbuf' ≡ length tbuf
  pub was_empty : rpos_at tbuf base slot ≡ 0
  pub hash_stored : hash_at tbuf' base slot ≡ hash
  pub rpos_stored : rpos_at tbuf' base slot ≡ rpos
  pub others :
      (other : ℕ)
      → other ≢ slot
      → (hash_at tbuf' base other ≡ hash_at tbuf base other)
        × (rpos_at tbuf' base other ≡ rpos_at tbuf base other)

length-record : (hash rpos : ℕ) → length (upak32_pack hash ++ upak32_pack rpos) ≡ 8
unfolding upak32_pack
length-record hash rpos = refl

-- the bytes of another slot are not those that are stored
aside :
    (base slot other i : ℕ) {len : ℕ}
    → len ≡ 8
    → other ≢ slot
    → i < 8
    → (base + other * 8 + i < base + slot * 8) ⊎ (base + slot * 8 + len ≤ base + other * 8 + i)
aside base slot other i eight apart h = elim (Bool-cases (ltb other slot)) [
  | inl low ↦ let lt = ltb→lt other slot low in inl (omega (arith, lt, h))
  | inr high ↦
      let gt : slot < other = ground (arith, high, apart) in inr (omega (arith, gt, h, eight))
]

store-IsLoaded :
    (tbuf : Bytes) (base slot hash rpos : ℕ)
    → base + slot * 8 + 8 ≤ length tbuf
    → hash < u32_mod
    → rpos < u32_mod
    → rpos_at tbuf base slot ≡ 0
    → IsLoaded tbuf
        (store tbuf (base + slot * 8) (upak32_pack hash ++ upak32_pack rpos))
        base
        slot
        hash
        rpos
store-IsLoaded tbuf base slot hash rpos inside hs rs empty =
    let bytes = upak32_pack hash ++ upak32_pack rpos in
    let o = base + slot * 8 in
    let tbuf' = store tbuf o bytes in
    let eight = length-record hash rpos in
    let fits : o + length bytes ≤ length tbuf = omega (arith, inside, eight) in
    record {
      as_long = length-store tbuf bytes o fits;
      was_empty = empty;
      hash_stored =
          unpack_same tbuf' bytes o 0 (λ i h.
            at-store_in tbuf bytes o i fits (omega (arith, h, eight))
            ∙ ap (at bytes) {x = i} (omega arith))
          ∙ upak32_unpack-pack hash (upak32_pack rpos) hs;
      rpos_stored =
          unpack_same tbuf' bytes (o + 4) 4 (λ i h.
            ap (at tbuf') {x = o + 4 + i} {y = o + (4 + i)} (omega arith)
            ∙ at-store_in tbuf bytes o (4 + i) fits (omega (arith, h, eight)))
          ∙ second_size hash rpos rs;
      others = λ other apart. (
        unpack_same tbuf' tbuf (base + other * 8) (base + other * 8) (λ i h.
            at-store_out tbuf bytes o (base + other * 8 + i) fits
              (aside base slot other i eight apart (omega (arith, h)))),
        unpack_same tbuf' tbuf (base + other * 8 + 4) (base + other * 8 + 4) (λ i h.
            at-store_out tbuf bytes o (base + other * 8 + 4 + i) fits (
              subst (λ j. (j < o) ⊎ (o + length bytes ≤ j)) (omega arith)
                (aside base slot other (4 + i) eight apart (omega (arith, h))))),
      );
    }

first_empty-lem :
    (tbuf : Bytes) (base n : ℕ) (slots : List ℕ)
    → All (λ s. s < n) slots
    → (first_empty tbuf base slots ≡ none)
      ⊎ ((s : ℕ) × (first_empty tbuf base slots ≡ some s) × (s < n) × (rpos_at tbuf base s ≡ 0))
first_empty-lem tbuf base n [] all = inl refl
first_empty-lem tbuf base n (slot ∷ slots) (low, all) =
    elim (Bool-cases (rpos_at tbuf base slot == 0)) [
      | inl empty ↦ inr (slot, rw empty refl, low, ground (arith, empty))
      | inr full ↦ elim (first_empty-lem tbuf base n slots all) [
        | inl nowhere ↦ inl (rw (full, nowhere) refl)
        | inr (s, first, inside, empty) ↦ inr (s, rw (full, first) refl, inside, empty)
      ]
    ]

span_below : (from k n : ℕ) → from + k ≤ n → All (λ s. s < n) (span from k)
span_below from zero n h = tt
span_below from (suc k) n h = (omega (arith, h), span_below (from + 1) k n (omega (arith, h)))

order_below : (tslots slot : ℕ) → slot < tslots → All (λ s. s < tslots) (order tslots slot slot)
order_below tslots slot h =
    let value : order tslots slot slot ≡ span slot (tslots - slot) ++ span 0 slot = ground arith in
    subst (All (λ s. s < tslots)) (sym value) (
      All-append (λ s. s < tslots) (span slot (tslots - slot)) (span 0 slot)
        (span_below slot (tslots - slot) tslots (omega (arith, h)))
        (span_below 0 slot tslots (omega (arith, h))))

-- In a subtable that lies within the buffer, `tbuf_load` fails to return exactly where no slot is
-- empty; else it returns with the record in the first empty slot, in the order in which a search
-- goes through the slots, and with the other slots as they were.
pub tbuf_load_lem :
    (tbuf : Bytes) (base tslots target hash rpos : ℕ)
    → base + tslots * 8 ≤ length tbuf
    → tslots < u32_mod
    → target < tslots
    → hash < u32_mod
    → rpos < u32_mod
    → let slots = order tslots target target in
      let loaded = tbuf_load tbuf base tslots target hash rpos in
      ((first_empty tbuf base slots ≡ none) × (loaded ≡ none))
      ⊎ ((slot : ℕ) × (tbuf' : Bytes) × (first_empty tbuf base slots ≡ some slot)
          × (loaded ≡ some tbuf')
          × IsLoaded tbuf tbuf' base slot hash rpos)
unfolding tbuf_load
tbuf_load_lem tbuf base tslots target hash rpos inside small start hs rs =
    let slots = order tslots target target in
    let value : tbuf_load tbuf base tslots target hash rpos
        ≡ put_at tbuf base hash rpos (first_empty tbuf base slots) =
      rw (lt→ltb target tslots start) (
        load_from_lem tslots tbuf base tslots target target hash rpos small start start
          (ground arith)) in
    elim (first_empty-lem tbuf base tslots slots (order_below tslots target start)) [
      | inl full ↦ inl (full, value ∙ ap (put_at tbuf base hash rpos) full)
      | inr (slot, first, low, empty) ↦ inr (
        slot,
        store tbuf (base + slot * 8) (upak32_pack hash ++ upak32_pack rpos),
        first,
        value ∙ ap (put_at tbuf base hash rpos) first,
        store-IsLoaded tbuf base slot hash rpos (omega (arith, inside, low)) hs rs empty,
      )
    ]
