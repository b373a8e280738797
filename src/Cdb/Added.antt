-- ===== src/Cdb/Added.antt =====
-- lasagna/cdb/cdbmk_add.c: the bytes of the records that were added.
use mathlib.Core.Option.{some-injective}
use perp.Common.{
  ℕ, ◌+◌, ◌≡◌, ◌<◌, inl, inr, refl, sym, ◌∙◌, ap, some, List, [], ◌∷◌, ◌++◌, append_assoc,
  append-nil, Bytes, length, length-append, length-set, All, arith, Option-cases,
}
use perp.Upak.{u32_mod, upak32_pack}
use perp.Cdb.{cdb_ntab}
use perp.Cdb.Hash.{cdb_hash}
use perp.Cdb.Make.{Cdbmk, cdbmk_update, ufunc_u32add, cdbmk_add, cdbmk_add_all}

-- the bytes of a record, and of all
abbrev pub entry : Bytes × Bytes → Bytes
entry r = upak32_pack (length r.0) ++ (upak32_pack (length r.1) ++ (r.0 ++ r.1))

abbrev pub layout : List (Bytes × Bytes) → Bytes
layout [] = []
layout (r ∷ records) = entry r ++ layout records

pub length-entry : (r : Bytes × Bytes) → length (entry r) ≡ 8 + length r.0 + length r.1
unfolding upak32_pack
length-entry r = omega (arith, length-append r.0 r.1)

u32add_lem :
    (u add : ℕ) {v : ℕ}
    → u < u32_mod
    → add < u32_mod
    → ufunc_u32add u add ≡ some v
    → (v ≡ u + add) × (u + add < u32_mod)
unfolding ufunc_u32add
u32add_lem u add h k done = ground arith

-- What the records with these bytes make of the object: they are put behind the others, the offset
-- moves on by their length, and the counters stay as many.
pub record IsAppended (bytes : Bytes) (m m' : Cdbmk) : Type 0 where
  pub appended : m'.output ≡ m.output ++ bytes
  pub moved : m'.fp ≡ m.fp + length bytes
  pub fits : m'.fp < u32_mod
  pub as_many : length m'.subtab_count ≡ length m.subtab_count

add_lem :
    (m : Cdbmk) (r : Bytes × Bytes) {m' : Cdbmk}
    → m.fp < u32_mod
    → length r.0 < u32_mod
    → length r.1 < u32_mod
    → cdbmk_add m r.0 r.1 ≡ some m'
    → IsAppended (entry r) m m'
unfolding cdbmk_add cdbmk_update
add_lem m r {m'} small ks ds done = elim (Option-cases (ufunc_u32add m.fp 8)) [
  | inl over ↦ ground arith
  | inr (fp1, one) ↦
      let (e1, s1) = u32add_lem m.fp 8 small (omega arith) one in
      elim (Option-cases (ufunc_u32add fp1 (length r.0))) [
        | inl over ↦ ground arith
        | inr (fp2, two) ↦
            let (e2, s2) = u32add_lem fp1 (length r.0) (omega (arith, e1, s1)) ks two in
            elim (Option-cases (ufunc_u32add fp2 (length r.1))) [
              | inl over ↦ ground arith
              | inr (fp3, three) ↦
                  let (e3, s3) = u32add_lem fp2 (length r.1) (omega (arith, e2, s2)) ds three in
                  let put = record m { output = m.output ++ entry r } in
                  let last = cdbmk_update put (cdb_hash r.0) m.fp fp3 in
                  let value : cdbmk_add m r.0 r.1 ≡ some last =
                    rw (one, cdbmk_add, two, three) refl in
                  let same : last ≡ m' = some-injective _ _ (sym value ∙ done) in
                  record {
                    appended = sym (ap (λ m. m.output) same);
                    moved = sym (ap (λ m. m.fp) same) ∙ omega (arith, e1, e2, e3, length-entry r);
                    fits = omega (arith, ap (λ m. m.fp) same, e3, s3);
                    as_many =
                        sym (ap (λ m. length m.subtab_count) same)
                        ∙ length-set m.subtab_count (cdb_ntab (cdb_hash r.0)) _;
                  }
            ]
      ]
]

-- the lengths fit their fields
abbrev pub IsShort : Bytes × Bytes → Type 0
IsShort r = (length r.0 < u32_mod) × (length r.1 < u32_mod)

pub add_all_lem :
    (records : List (Bytes × Bytes)) (m : Cdbmk) {m' : Cdbmk}
    → m.fp < u32_mod
    → All IsShort records
    → cdbmk_add_all m records ≡ some m'
    → IsAppended (layout records) m m'
add_all_lem [] m {m'} small short done =
    let same : m ≡ m' = some-injective _ _ done in
    record {
      appended = sym (ap (λ m. m.output) same) ∙ sym (append-nil m.output);
      moved = sym (ap (λ m. m.fp) same) ∙ omega arith;
      fits = omega (arith, small, ap (λ m. m.fp) same);
      as_many = sym (ap (λ m. length m.subtab_count) same);
    }
add_all_lem (r ∷ records) m small (s, short) done = elim (Option-cases (cdbmk_add m r.0 r.1)) [
  | inl over ↦ ground (arith, rw (over, cdbmk_add_all) at done)
  | inr (m1, added) ↦
      let one = add_lem m r small s.0 s.1 added in
      let all = add_all_lem records m1 one.fits short (rw (added, cdbmk_add_all) at done) in
      record {
        appended =
            all.appended
            ∙ (ap (λ o. o ++ layout records) one.appended
                ∙ append_assoc m.output (entry r) (layout records));
        moved = omega (arith, one.moved, all.moved, length-append (entry r) (layout records));
        fits = all.fits;
        as_many = all.as_many ∙ one.as_many;
      }
]
