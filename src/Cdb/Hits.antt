-- ===== src/Cdb/Hits.antt =====
-- lasagna/cdb/cdb_find.c: a record that is found has the key.
use mathlib.Core.Path.{subst}
use perp.Common.{
  ℕ, zero, suc, ◌+◌, ◌-◌, ◌*◌, min, ◌≡◌, ◌≤◌, ◌<◌, inl, inr, refl, sym, ◌∙◌, ap, true, some, List,
  [], ◌∷◌, Bytes, ◌==◌, drop, take, length, arith, Bool-cases, Option-cases,
}
use perp.Upak.{u32_mod, upak32_unpack, u32}
use perp.Cstr.{is_same}
use perp.Cdb.{Cdb, cdb_read, cdb_ntab, cdb_slot}
use perp.Cdb.Hash.{cdb_hash}
use perp.Cdb.Find.{
  buf_cmp, key_match_from, cdb_key_match, Visit, visit_error, visit_empty, visit_other, visit_match,
  visit_record, visit, Found, found, not_found, io_error, unfinished, cdb_find,
}
use perp.Cdb.Key.{Agrees, cdb_key_match_lem}
use perp.Cdb.Probe.{search, search_all, order, cdb_find_lem}

-- the two numbers at the start of a record
abbrev pub head : Bytes → ℕ → Bytes
head map rpos = take 8 (drop rpos map)

-- The object is at a record of the file that has the key.
pub record IsHit (map key : Bytes) (klen : ℕ) (c : Cdb) : Type 0 where
  pub key_length : upak32_unpack (head map c.rpos) ≡ klen
  pub data_length : upak32_unpack (drop 4 (head map c.rpos)) ≡ c.dlen
  pub is_inside : c.rpos + 8 + klen ≤ length map
  pub agrees : Agrees map key klen (c.rpos + 8)

pub read_inside :
    (c : Cdb) (n offset : ℕ) {b : Bytes}
    → cdb_read c n offset ≡ some b
    → (b ≡ take n (drop offset c.map)) × (offset + n ≤ length c.map)
unfolding cdb_read
read_inside c n offset h = ground arith

match_inside :
    (f : ℕ) (c : Cdb) (key : Bytes) (klen kpos : ℕ)
    → klen ≤ f
    → kpos ≤ length c.map
    → length c.map < u32_mod
    → key_match_from f c key klen kpos ≡ some true
    → kpos + klen ≤ length c.map
unfolding key_match_from
match_inside zero c key klen kpos enough start small h = omega arith
match_inside (suc f) c key klen kpos enough start small h =
    let n = min 80 klen in
    elim (Bool-cases (klen == 0)) [
      | inl empty ↦ ground arith
      | inr more ↦ elim (Option-cases (cdb_read c n kpos)) [
        | inl error ↦ ground arith
        | inr (kbuf, read) ↦
            let (same_bytes, inside) = read_inside c n kpos read in
            let advanced : u32 (kpos + n) ≡ kpos + n = omega (arith, inside, small) in
            elim (Bool-cases (is_same (buf_cmp key kbuf n))) [
              | inr differ ↦ ground arith
              | inl here ↦
                  let rest : key_match_from f c key (klen - n) (kpos + n) ≡ some true =
                    rw (more, read, here, advanced) at h in
                  omega (
                    arith,
                    match_inside f c key (klen - n) (kpos + n) (ground (arith, more, enough))
                        (omega (arith, inside)) small rest,
                  )
            ]
      ]
    ]

-- the object of a match
abbrev matched_in : Cdb → Visit → Cdb
matched_in c visit_error = c
matched_in c visit_empty = c
matched_in c visit_other = c
matched_in c (visit_match c') = c'

visit_record-IsHit :
    (c : Cdb) (slot rpos : ℕ) {c' : Cdb}
    → length c.map < u32_mod
    → visit_record c slot rpos ≡ visit_match c'
    → IsHit c.map c.key c.klen c'
unfolding visit_record cdb_key_match
visit_record-IsHit c slot rpos small h = elim (Option-cases (cdb_read c 8 rpos)) [
  | inl error ↦ ground arith
  | inr (nbuf, read) ↦
      let (same_bytes, inside) = read_inside c 8 rpos read in
      let kpos : u32 (rpos + 8) ≡ rpos + 8 = omega (arith, inside, small) in
      elim (Bool-cases (upak32_unpack nbuf == c.klen)) [
        | inr other ↦ ground arith
        | inl same_length ↦ elim (Option-cases (cdb_key_match c c.key c.klen (rpos + 8))) [
          | inl error ↦ ground arith
          | inr (b, compared) ↦ elim (Bool-cases b) [
            | inr differ ↦ ground arith
            | inl matched ↦
                let here : cdb_key_match c c.key c.klen (rpos + 8) ≡ some true =
                  compared ∙ ap some matched in
                let within =
                  match_inside c.klen c c.key c.klen (rpos + 8) (omega arith) inside small here in
                let hit = record c {
                  s_n = slot;
                  rpos = rpos;
                  dlen = upak32_unpack (drop 4 nbuf);
                } in
                let value : visit_record c slot rpos ≡ visit_match hit =
                  rw (read, visit_record, same_length, kpos, here) refl in
                subst (IsHit c.map c.key c.klen) (ap (matched_in c) (sym value ∙ h)) (record {
                  key_length = ap upak32_unpack (sym same_bytes) ∙ ground (arith, same_length);
                  data_length = ap (λ b. upak32_unpack (drop 4 b)) (sym same_bytes);
                  is_inside = within;
                  agrees = elim (cdb_key_match_lem c c.key c.klen (rpos + 8) within small) [
                    | inl (yes_it_is, all) ↦ all
                    | inr (differs, never) ↦ ground (arith, here, differs)
                  ];
                })
          ]
        ]
      ]
]

visit-IsHit :
    (c : Cdb) (slot : ℕ) {c' : Cdb}
    → length c.map < u32_mod
    → visit c slot ≡ visit_match c'
    → IsHit c.map c.key c.klen c'
unfolding visit
visit-IsHit c slot small h = elim (Option-cases (cdb_read c 8 (u32 (c.tbase + u32 (slot * 8))))) [
  | inl error ↦ ground arith
  | inr (nbuf, read) ↦
      let rpos = upak32_unpack (drop 4 nbuf) in
      elim (Bool-cases (rpos == 0)) [
        | inl empty ↦ let value : visit c slot ≡ visit_empty = rw (read, visit, empty) refl in cc
        | inr full ↦ elim (Bool-cases (upak32_unpack nbuf == c.h)) [
          | inl same_hash ↦
              let value : visit c slot ≡ visit_record c slot rpos =
                rw (read, visit, full, same_hash) refl in
              visit_record-IsHit c slot rpos small (sym value ∙ h)
          | inr other ↦
              let value : visit c slot ≡ visit_other = rw (read, visit, full, other) refl in cc
        ]
      ]
]

search-IsHit :
    (c : Cdb) (slots : List ℕ) {c' : Cdb}
    → length c.map < u32_mod
    → search c slots ≡ found c'
    → IsHit c.map c.key c.klen c'
search-IsHit c [] small h = ground arith
search-IsHit c (slot ∷ slots) {c'} small h =
    go (visit c slot) (λ c1 here. visit-IsHit c slot small here)
      (λ rest. search-IsHit c slots small rest) h
  where
    go :
        (v : Visit)
        → ((c1 : Cdb) → v ≡ visit_match c1 → IsHit c.map c.key c.klen c1)
        → (search c slots ≡ found c' → IsHit c.map c.key c.klen c')
        → elim v [
          | visit_error ↦ io_error
          | visit_empty ↦ not_found
          | visit_match c1 ↦ found c1
          | visit_other ↦ search c slots
        ]
          ≡ found c'
        → IsHit c.map c.key c.klen c'
    go visit_error hit later h = ground arith
    go visit_empty hit later h = ground arith
    go (visit_match c1) hit later h = hit c' (ap visit_match (ap found_in h))
      where
        found_in : Found → Cdb
        found_in (found c2) = c2
        found_in not_found = c1
        found_in io_error = c1
        found_in unfinished = c1
    go visit_other hit later h = later h

search_all-IsHit :
    (c : Cdb) {c' : Cdb}
    → length c.map < u32_mod
    → search_all c ≡ found c'
    → IsHit c.map c.key c.klen c'
search_all-IsHit c {c'} small h =
    let s0 = cdb_slot c.h c.tslots in
    elim (Bool-cases (c.tslots == 0)) [
      | inl empty ↦ let value : not_found ≡ found c' = rw empty at h in cc
      | inr more ↦ search-IsHit (record c { s0 = s0 }) (order c.tslots s0 s0) small (rw more at h)
    ]

-- A record that a search finds, in a file of less than 4 GB, lies within the file, has the length of
-- the key that was looked for, and its key agrees with it, byte i with byte i % 80.
pub find-IsHit :
    (c : Cdb) (key : Bytes) (klen : ℕ) {c' : Cdb}
    → length c.map < u32_mod
    → cdb_find c key klen ≡ found c'
    → IsHit c.map key klen c'
find-IsHit c key klen {c'} small h =
    let c0 = record c { key = key; klen = klen; h = cdb_hash (take klen key) } in
    let all = sym (cdb_find_lem c key klen) ∙ h in
    elim (Option-cases (cdb_read c0 8 (cdb_ntab c0.h * 8))) [
      | inl error ↦ let value : io_error ≡ found c' = rw error at all in cc
      | inr (nbuf, read) ↦
          let c1 = record c0 { tbase = upak32_unpack nbuf; tslots = upak32_unpack (drop 4 nbuf) } in
          search_all-IsHit c1 small (rw read at all)
    ]
