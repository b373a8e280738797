-- ===== src/Cdb/Key.antt =====
-- lasagna/cdb/cdb_find.c: when the key of a record matches.
use perp.Common.{
  ℕ, zero, suc, ◌+◌, ◌-◌, ◌%◌, min, ◌≡◌, ◌≤◌, ◌<◌, ◌⊎◌, inl, inr, refl, sym, ◌∙◌, ap, Bool, true,
  false, Option, some, [], ◌∷◌, Bytes, ltb, ◌==◌, drop, take, length, arith, Bool-cases,
}
use perp.Upak.{u32_mod, at, u32}
use perp.Cstr.{is_same}
use perp.Cdb.{Cdb, cdb_read}
use perp.Cdb.Arrays.{at-take, at-drop}
use perp.Cdb.Find.{buf_cmp, key_match_from, cdb_key_match}

-- the first bytes are the same
abbrev Same : Bytes → Bytes → ℕ → Type 0
Same p q n = (i : ℕ) → i < n → at p i ≡ at q i

at-tail : (b : Bytes) (i : ℕ) → at (drop 1 b) i ≡ at b (suc i)
at-tail [] i = refl
at-tail (x ∷ b) i = refl

suc-Same : (p q : Bytes) (n : ℕ) → at p 0 ≡ at q 0 → Same (drop 1 p) (drop 1 q) n → Same p q (suc n)
suc-Same p q n first rest zero h = first
suc-Same p q n first rest (suc i) h = sym (at-tail p i) ∙ (rest i (omega (arith, h)) ∙ at-tail q i)

buf_cmp_lem :
    (p q : Bytes) (n : ℕ)
    → ((is_same (buf_cmp p q n) ≡ true) × Same p q n)
      ⊎ ((is_same (buf_cmp p q n) ≡ false) × ¬ Same p q n)
unfolding buf_cmp
buf_cmp_lem p q zero = inl (refl, λ i h. absurd (omega (arith, h)))
buf_cmp_lem p q (suc n) =
    let rest = buf_cmp_lem (drop 1 p) (drop 1 q) n in
    elim (Bool-cases (at p 0 == at q 0)) [
      | inr other ↦ inr (ground arith, λ all. ground (arith, all 0 (omega arith)))
      | inl first ↦ elim rest [
        | inr (unlike, differ) ↦ inr (
          ground arith,
          λ all. differ (λ i h. at-tail p i ∙ (all (suc i) (omega (arith, h)) ∙ sym (at-tail q i))),
        )
        | inl (here, all) ↦ inl (ground arith, suc-Same p q n (ground arith) all)
      ]
    ]

-- What the comparison comes to: byte i of the key in the record, against byte i % 80 of the key
-- that is looked for.
abbrev pub Agrees : Bytes → Bytes → ℕ → ℕ → Type 0
Agrees map key klen kpos = (i : ℕ) → i < klen → at map (kpos + i) ≡ at key (i % 80)

-- the comparison returns, and 1 or 0 as this says
abbrev pub Decides : Type 0 → Option Bool → Type 0
Decides P o = ((o ≡ some true) × P) ⊎ ((o ≡ some false) × ¬ P)

chunk_iff :
    (map key : Bytes) (n kpos : ℕ)
    → n ≤ 80
    → (Same key (take n (drop kpos map)) n → Agrees map key n kpos)
      × (Agrees map key n kpos → Same key (take n (drop kpos map)) n)
chunk_iff map key n kpos small =
    let here : (i : ℕ) → i < n → at (take n (drop kpos map)) i ≡ at map (kpos + i) =
      λ i h. at-take n (drop kpos map) i h ∙ at-drop kpos map i in
    let low : (i : ℕ) → i < n → i % 80 ≡ i = λ i h. omega (arith, h, small) in
    (
      λ same_bytes i h. sym (here i h) ∙ (sym (same_bytes i h) ∙ ap (at key) (sym (low i h))),
      λ all i h. ap (at key) (sym (low i h)) ∙ (sym (all i h) ∙ sym (here i h)),
    )

-- the first part and the rest
join-Agrees :
    (map key : Bytes) (klen kpos : ℕ)
    → let n = min 80 klen in
      Agrees map key n kpos → Agrees map key (klen - n) (kpos + n) → Agrees map key klen kpos
join-Agrees map key klen kpos first rest i h =
    let n = min 80 klen in
    elim (Bool-cases (ltb i n)) [
      | inl low ↦ first i (ground (arith, low))
      | inr high ↦
          let above : n ≤ i = ground (arith, high) in
          ap (at map) (omega (arith, above))
          ∙ (rest (i - n) (omega (arith, h, above)) ∙ ap (at key) (omega (arith, h, above)))
    ]

part-Agrees :
    (map key : Bytes) (klen kpos : ℕ)
    → let n = min 80 klen in
      Agrees map key klen kpos → Agrees map key n kpos × Agrees map key (klen - n) (kpos + n)
part-Agrees map key klen kpos all =
    let n = min 80 klen in
    (
      λ i h. all i (omega (arith, h)),
      λ i h.
          ap (at map) (omega arith)
          ∙ (all (n + i) (omega (arith, h)) ∙ ap (at key) (omega (arith, h))),
    )

pub cdb_read_lem :
    (c : Cdb) (n offset : ℕ)
    → offset + n ≤ length c.map
    → 0 < n
    → cdb_read c n offset ≡ some (take n (drop offset c.map))
unfolding cdb_read
cdb_read_lem c n offset h some_bytes = ground (arith, h, some_bytes)

key_match_from_lem :
    (f : ℕ) (c : Cdb) (key : Bytes) (klen kpos : ℕ)
    → klen ≤ f
    → kpos + klen ≤ length c.map
    → length c.map < u32_mod
    → Decides (Agrees c.map key klen kpos) (key_match_from f c key klen kpos)
unfolding key_match_from
key_match_from_lem zero c key klen kpos enough inside small =
    inl (refl, λ i h. absurd (omega (arith, h, enough)))
key_match_from_lem (suc f) c key klen kpos enough inside small =
    let n = min 80 klen in
    let kbuf = take n (drop kpos c.map) in
    let (to_chunk, of_chunk) = chunk_iff c.map key n kpos (omega arith) in
    elim (Bool-cases (klen == 0)) [
      | inl empty ↦ inl (ground (arith, empty), λ i h. absurd (ground (arith, h, empty)))
      | inr more ↦
          let read = cdb_read_lem c n kpos (omega (arith, inside)) (ground (arith, more)) in
          let advanced : u32 (kpos + n) ≡ kpos + n = omega (arith, inside, small) in
          elim (buf_cmp_lem key kbuf n) [
            | inr (no_match, differ) ↦ inr (
              rw (more, read, no_match) refl,
              λ all. differ (of_chunk (part-Agrees c.map key klen kpos all).0),
            )
            | inl (here, same_bytes) ↦
                elim (key_match_from_lem f c key (klen - n) (kpos + n)
                  (ground (arith, more, enough)) (omega (arith, inside)) small) [
                    | inl (matched, rest) ↦ inl (
                      rw (more, read, here, advanced) matched,
                      join-Agrees c.map key klen kpos (to_chunk same_bytes) rest,
                    )
                    | inr (failed, differ) ↦ inr (
                      rw (more, read, here, advanced) failed,
                      λ all. differ (part-Agrees c.map key klen kpos all).1,
                    )
                  ]
          ]
    ]

-- On a key that lies within a file of less than 4 GB, the comparison returns, and 1 exactly if each
-- byte i of the key in the record is byte i % 80 of the key that is looked for.
pub cdb_key_match_lem :
    (c : Cdb) (key : Bytes) (klen kpos : ℕ)
    → kpos + klen ≤ length c.map
    → length c.map < u32_mod
    → Decides (Agrees c.map key klen kpos) (cdb_key_match c key klen kpos)
unfolding cdb_key_match
cdb_key_match_lem c key klen kpos inside small =
    key_match_from_lem klen c key klen kpos (omega arith) inside small
