-- ===== src/Tinylog/Collisions.antt =====
-- perp/tinylog.c: the loop around `link` ends, where the clock advances.
use perp.Common.{
  ℕ, suc, ◌+◌, ◌≡◌, ◌≤◌, ◌<◌, ◌^◌, ◌==◌, zero, sym, inl, inr, refl, ap, ◌∙◌, true, false, Option,
  some, List, [], ◌∷◌, ◌++◌, Bytes, length, length-append, arith, Bool-cases, codes,
}
use perp.Cstr.{cstr_cmp, is_same}
use perp.Tinylog.Archive.{is_taken}
use perp.Tinylog.{Tinylog, Disk, names, link_log, pruned, tinylog_keep}
use perp.Tinylog.Least.{archives_in}
use perp.Tinylog.Oldest.{prune_few}
use perp.Tinylog.Rotation.{archives_in-names}

-- the name of an archive that is made at a reading of the clock
abbrev pub name_at : (ℕ → Bytes) → ℕ → Bytes
name_at clock n = b'_' ∷ (clock n ++ (b'.' ∷ codes "s"))

-- Two readings of the clock give different names.
abbrev pub Differ : (ℕ → Bytes) → ℕ → ℕ → Type 0
Differ clock m n = is_same (cstr_cmp (name_at clock m) (name_at clock n)) ≡ false

-- Among any so many readings of the clock in a row there is one that gives a name not given before.
abbrev pub Advances : (ℕ → Bytes) → ℕ → Type 0
Advances clock f = (r : ℕ) → (n : ℕ) × (r ≤ n) × (n < r + f) × ((m : ℕ) → m < n → Differ clock m n)

-- An archive with a name that the clock gives has the name of an earlier reading.
abbrev pub IsFresh : (ℕ → Bytes) → Disk → Type 0
IsFresh clock d =
    (n : ℕ)
    → ((m : ℕ) → m < d.readings → Differ clock m n)
    → is_taken (name_at clock n) (names d.archives) ≡ false

is_taken-append :
    (name new log : Bytes) (xs : List (Bytes × Bytes))
    → is_taken name (names xs) ≡ false
    → is_same (cstr_cmp new name) ≡ false
    → is_taken name (names (xs ++ ((new, log) ∷ []))) ≡ false
is_taken-append name new log [] h k = ground arith
is_taken-append name new log (x ∷ xs) h k = ground (arith, is_taken-append name new log xs)

module _ (clock : ℕ → Bytes) (gzip : Bytes → Option Bytes) (f : ℕ)
    (advances : Advances clock f) where
  -- a log that is kept under the name of a reading
  abbrev pub linked : ℕ → Bytes → Disk → Disk
  linked n log d = record d {
    archives = d.archives ++ ((name_at clock n, log) ∷ []);
    readings = n + 1;
  }

  pub linked-IsFresh :
      (n : ℕ) (log : Bytes) (d : Disk)
      → d.readings ≤ n
      → IsFresh clock d
      → IsFresh clock (linked n log d)
  linked-IsFresh n log d since h k new =
      is_taken-append (name_at clock k) (name_at clock n) log d.archives
        (h k (λ m before. new m (omega (arith, before, since)))) (new n (omega arith))

  -- The loop around `link` ends by the time at which a name is free.
  link_returns :
      (rounds n : ℕ) (log : Bytes) (d : Disk)
      → d.readings ≤ n
      → n < d.readings + rounds
      → is_taken (name_at clock n) (names d.archives) ≡ false
      → (k : ℕ) × (d.readings ≤ k)
        × (link_log clock gzip f rounds (codes "s") log d ≡ some (name_at clock k, linked k log d))
  unfolding link_log
  link_returns zero n log d since soon free = absurd (omega (arith, since, soon))
  link_returns (suc rounds) n log d since soon free =
      elim (Bool-cases (is_taken (name_at clock d.readings) (names d.archives))) [
        | inr now ↦ (d.readings, omega arith, rw now refl)
        | inl taken ↦
            let later : d.readings + 1 ≤ n = elim (Bool-cases (d.readings == n)) [
              | inr other ↦ ground (arith, since)
              | inl here ↦
                  let same : d.readings ≡ n = ground arith in
                  let never : false ≡ true =
                    sym free
                    ∙ (ap (λ r. is_taken (name_at clock r) (names d.archives)) (sym same)
                        ∙ taken) in
                  cc
            ] in
            let d1 : Disk = record d { readings = d.readings + 1 } in
            let (k, after, ends) = link_returns rounds n log d1 later (omega (arith, soon)) free in
            (k, omega (arith, after), rw taken ends)
      ]

  keep_linked :
      (t : Tinylog) (k : ℕ) (log : Bytes) (d : Disk)
      → t.wantzip ≡ false
      → t.keep_max < 2 ^ 31
      → length d.archives + 1 ≤ t.keep_max
      → link_log clock gzip f f (codes "s") log d ≡ some (name_at clock k, linked k log d)
      → tinylog_keep clock gzip f t log (codes "s") d ≡ some (linked k log d)
  unfolding tinylog_keep pruned
  keep_linked t k log d unzipped small enough ends =
      let d1 = linked k log d in
      let few : archives_in (names d1.archives) ≤ t.keep_max = omega (
        arith,
        archives_in-names d1.archives,
        length-append d.archives ((name_at clock k, log) ∷ []),
        enough,
      ) in
      ground (arith, ends, unzipped, prune_few t.keep_max (names d1.archives) small few)

  pub keep_returns :
      (t : Tinylog) (log : Bytes) (d : Disk)
      → t.wantzip ≡ false
      → t.keep_max < 2 ^ 31
      → length d.archives + 1 ≤ t.keep_max
      → IsFresh clock d
      → (k : ℕ) × (d.readings ≤ k)
        × (tinylog_keep clock gzip f t log (codes "s") d ≡ some (linked k log d))
  keep_returns t log d unzipped small enough fresh =
      let (n, since, soon, new) = advances d.readings in
      let free = fresh n (λ m before. new m (omega (arith, before, since))) in
      let (k, after, ends) = link_returns f n log d since soon free in
      (k, after, keep_linked t k log d unzipped small enough ends)
