-- ===== src/Cdb/Probe.antt =====
-- lasagna/cdb/cdb_find.c: the slots that a search visits.
use native.Mathlib.Nat.{mod-lt}
use perp.Common.{
  ℕ, zero, suc, ◌+◌, ◌-◌, ◌*◌, ◌/◌, ◌≡◌, ◌≤◌, ◌<◌, inl, inr, refl, sym, ap, ◌∙◌, Option, none, some,
  List, [], ◌∷◌, ◌++◌, Bytes, ltb, leb, ◌==◌, if◌then◌else◌, drop, take, drop-append,
  drop-append_more, length, arith, Bool-cases, Option-cases,
}
use perp.Upak.{u32_mod, upak32_unpack}
use perp.Cdb.Hash.{cdb_hash}
use perp.Cdb.{cdb_ntab, Cdb, cdb_slot, cdb_read, cdb_distance}
use perp.Cdb.Find.{
  visit_error, visit_empty, visit_other, visit_match, visit, Found, found, not_found, io_error,
  wrap, cdb_hash_probe, sought, cdb_find, cdb_findnext,
}

-- so many numbers from one on
abbrev pub span : ℕ → ℕ → List ℕ
span from zero = []
span from (suc k) = from ∷ span (from + 1) k

-- the slots from one on up to another, round the end of the table
abbrev pub order : ℕ → ℕ → ℕ → List ℕ
order tslots slot s0 =
    if ltb slot s0 then span slot (s0 - slot) else span slot (tslots - slot) ++ span 0 s0

-- the first slot that decides the search
abbrev pub search : Cdb → List ℕ → Found
search c [] = not_found
search c (slot ∷ slots) = elim (visit c slot) [
  | visit_error ↦ io_error
  | visit_empty ↦ not_found
  | visit_match c' ↦ found c'
  | visit_other ↦ search c slots
]

span-cons : (from k n : ℕ) → suc k ≡ n → span from n ≡ from ∷ span (from + 1) k
span-cons from k n h = ap (span from) (sym h)

pub order_step :
    (tslots slot s0 : ℕ)
    → tslots < u32_mod
    → slot < tslots
    → s0 < tslots
    → order tslots slot s0
      ≡ slot ∷ (if wrap tslots slot == s0 then [] else order tslots (wrap tslots slot) s0)
order_step tslots slot s0 small inside start = ground (
  arith,
  span-cons slot (s0 - slot - 1) (s0 - slot),
  span-cons slot (tslots - slot - 1) (tslots - slot),
)

-- how many slots those are
abbrev pub ahead : ℕ → ℕ → ℕ → ℕ
ahead tslots slot s0 = if ltb slot s0 then s0 - slot else s0 + tslots - slot

probe_lem :
    (f : ℕ) (c : Cdb) (slot : ℕ)
    → c.tslots < u32_mod
    → slot < c.tslots
    → c.s0 < c.tslots
    → ahead c.tslots slot c.s0 ≤ f
    → cdb_hash_probe f c slot ≡ search c (order c.tslots slot c.s0)
unfolding cdb_hash_probe
probe_lem zero c slot small inside start enough = absurd (ground arith)
probe_lem (suc f) c slot small inside start enough =
    let next = wrap c.tslots slot in
    rw (order_step c.tslots slot c.s0 small inside start)
      (ground (arith, probe_lem f c next small (ground arith) start))

upak32_unpack_fits : (b : Bytes) → upak32_unpack b < u32_mod
unfolding upak32_unpack
upak32_unpack_fits b = omega arith

sought-fits :
    (c : Cdb) (key : Bytes) (klen : ℕ) (c1 : Cdb)
    → sought c key klen ≡ some c1
    → c1.tslots < u32_mod
sought-fits c key klen c1 same =
    let c0 = record c { key = key; klen = klen; h = cdb_hash (take klen key) } in
    elim (Option-cases (cdb_read c0 8 (cdb_ntab c0.h * 8))) [
      | inl error ↦ ground arith
      | inr (nbuf, done) ↦ ground (arith, upak32_unpack_fits (drop 4 nbuf))
    ]

-- what a search with these cursors returns, its table being read
abbrev pub search_all : Cdb → Found
search_all c =
    if c.tslots == 0
    then not_found
    else let s0 = cdb_slot c.h c.tslots in search (record c { s0 = s0 }) (order c.tslots s0 s0)

-- A search returns, and what it returns is what the first slot that decides it says, of the slots
-- from that of the hash up to the end of the table, and then from its start.
pub cdb_find_lem :
    (c : Cdb) (key : Bytes) (klen : ℕ)
    → cdb_find c key klen ≡ elim (sought c key klen) [ none ↦ io_error | some c1 ↦ search_all c1 ]
unfolding cdb_find
cdb_find_lem c key klen = go (sought c key klen) (sought-fits c key klen)
  where
    go :
        (o : Option Cdb)
        → ((c1 : Cdb) → o ≡ some c1 → c1.tslots < u32_mod)
        → elim o [
          | none ↦ io_error
          | some c1 ↦
              let target = cdb_slot c1.h c1.tslots in
              if c1.tslots == 0
              then not_found
              else cdb_hash_probe c1.tslots (record c1 { s0 = target }) target
        ]
          ≡ elim o [ none ↦ io_error | some c1 ↦ search_all c1 ]
    go none fits = refl
    go (some c1) fits = elim (Bool-cases (c1.tslots == 0)) [
      | inl empty ↦ rw empty refl
      | inr more ↦
          let s0 = cdb_slot c1.h c1.tslots in
          let start : s0 < c1.tslots = mod-lt (c1.h / 256) (ground (arith, more)) in
          rw more (
            probe_lem c1.tslots (record c1 { s0 = s0 }) s0 (fits c1 refl) start start
              (ground arith))
    ]

-- what is left of the slots behind the one that was found
abbrev pub left : Cdb → List ℕ
left c = drop (suc (cdb_distance c)) (order c.tslots c.s0 c.s0)

drop-span : (n from k : ℕ) → n ≤ k → drop n (span from k) ≡ span (from + n) (k - n)
drop-span zero from k h =
    ap (λ a. span a k) {x = from} (omega arith) ∙ ap (span (from + 0)) {x = k} (omega arith)
drop-span (suc n) from zero h = absurd (omega arith)
drop-span (suc n) from (suc k) h =
    drop-span n (from + 1) k (omega (arith, h))
    ∙ ap (λ a. span a (k - n)) (omega arith)
    ∙ ap (span (from + suc n)) (omega arith)

length-span : (from k : ℕ) → length (span from k) ≡ k
length-span from zero = refl
length-span from (suc k) = ap suc (length-span (from + 1) k)

left_lem :
    (c : Cdb)
    → c.tslots < u32_mod
    → c.s0 < c.tslots
    → c.s_n < c.tslots
    → left c
      ≡ (if wrap c.tslots c.s_n == c.s0 then [] else order c.tslots (wrap c.tslots c.s_n) c.s0)
unfolding cdb_distance
left_lem c small start last =
    let tail = span c.s0 (c.tslots - c.s0) in
    let head = span 0 c.s0 in
    let len = length-span c.s0 (c.tslots - c.s0) in
    elim (Bool-cases (leb c.s0 c.s_n)) [
      | inl above ↦
          let d = c.s_n - c.s0 in
          let rest = drop-append (suc d) tail head (ground (arith, len, above, last)) in
          let cut = drop-span (suc d) c.s0 (c.tslots - c.s0) (ground (arith, above, last)) in
          ground (arith, above, last, start, rest, cut)
      | inr under ↦
          let d = c.tslots - c.s0 + c.s_n in
          let same : cdb_distance c ≡ d = ground (arith, under, small, start) in
          let rest = drop-append_more (suc d) tail head (omega (arith, len)) in
          let cut = drop-span (suc c.s_n) 0 c.s0 (ground (arith, under)) in
          ground (arith, under, small, start, last, same, rest, cut, len)
    ]

-- After a record was found, the search for the next one returns what the first slot that decides it
-- says, of the slots that were left.
pub cdb_findnext_lem :
    (c : Cdb)
    → c.tslots < u32_mod
    → c.s0 < c.tslots
    → c.s_n < c.tslots
    → cdb_findnext c ≡ search c (left c)
unfolding cdb_findnext
cdb_findnext_lem c small start last =
    let next = wrap c.tslots c.s_n in
    rw (left_lem c small start last) (
      ground (
        arith,
        probe_lem c.tslots c next small (ground (arith, last, small)) start
            (ground (arith, start, last)),
      ))
