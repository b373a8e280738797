-- ===== src/Tinylog/Rotation.antt =====
-- perp/tinylog.c: what a rotation and a post do to all that was logged.
use mathlib.Core.Option.{some-injective}
use mathlib.Core.Path.{subst}
use perp.Common.{
  ℕ, zero, suc, ◌+◌, ◌≡◌, ◌≤◌, ◌<◌, ◌^◌, inl, inr, refl, sym, ap, ◌∙◌, Bool, true, false, Option,
  some, List, [], ◌∷◌, ◌++◌, append_assoc, append-nil, Bytes, if◌then◌else◌, length, length-append,
  arith, Option-cases, codes,
}
use perp.Tinylog.Archive.{is_taken}
use perp.Tinylog.{
  Tinylog, Disk, names, archive_name, link_log, pruned, tinylog_keep, tinylog_rotate, tinylog_post,
}
use perp.Tinylog.Least.{archives_in}
use perp.Tinylog.Oldest.{prune_few}

-- what the archives hold, one after the other
abbrev pub text : List (Bytes × Bytes) → Bytes
text [] = []
text (a ∷ archives) = a.1 ++ text archives

-- all that was logged
abbrev pub whole : Disk → Bytes
whole d = text d.archives ++ d.current

text-append : (xs ys : List (Bytes × Bytes)) → text (xs ++ ys) ≡ text xs ++ text ys
text-append [] ys = refl
text-append (a ∷ xs) ys =
    ap (λ ys. a.1 ++ ys) (text-append xs ys) ∙ sym (append_assoc a.1 (text xs) (text ys))

pub archives_in-names : (xs : List (Bytes × Bytes)) → archives_in (names xs) ≤ length xs
archives_in-names [] = omega arith
archives_in-names (a ∷ xs) = ground (arith, archives_in-names xs)

-- Archives are not zipped, and there is room for so many more of them, within a limit that is
-- positive as an `int`.
pub record HasRoom (n : ℕ) (t : Tinylog) (d : Disk) : Type 0 where
  pub unzipped : t.wantzip ≡ false
  pub enough : length d.archives + n ≤ t.keep_max
  pub small : t.keep_max < 2 ^ 31

module _ (clock : ℕ → Bytes) (gzip : Bytes → Option Bytes) (patience : ℕ) where
  -- what a log becomes that is kept under some name
  abbrev Linked : Bytes → Disk → Bytes × Disk → Type 0
  Linked log d r = r.1.archives ≡ d.archives ++ ((r.0, log) ∷ [])

  link_log-Linked :
      (f : ℕ) (ext log : Bytes) (d : Disk) {r : Bytes × Disk}
      → link_log clock gzip patience f ext log d ≡ some r
      → Linked log d r
  unfolding link_log
  link_log-Linked zero ext log d h = cc
  link_log-Linked (suc f) ext log d {r} h =
      go (is_taken (archive_name clock gzip patience d ext) (names d.archives))
        (λ h'. link_log-Linked f ext log (record d { readings = d.readings + 1 }) h') h
    where
      name : Bytes
      name = archive_name clock gzip patience d ext

      new : Disk
      new = record d { archives = d.archives ++ ((name, log) ∷ []); readings = d.readings + 1 }

      go :
          (b : Bool)
          → (link_log clock gzip patience f ext log (record d { readings = d.readings + 1 })
                ≡ some r
              → Linked log d r)
          → (if b
              then link_log clock gzip patience f ext log (record d { readings = d.readings + 1 })
              else some (name, new))
            ≡ some r
          → Linked log d r
      go true again h' = again h'
      go false again h' = subst (Linked log d) (some-injective _ _ h') refl

  keep_lem :
      (t : Tinylog) (log ext : Bytes) (d : Disk) {d' : Disk}
      → t.wantzip ≡ false
      → t.keep_max < 2 ^ 31
      → length d.archives + 1 ≤ t.keep_max
      → tinylog_keep clock gzip patience t log ext d ≡ some d'
      → (name : Bytes) × (d'.archives ≡ d.archives ++ ((name, log) ∷ []))
  unfolding tinylog_keep pruned
  keep_lem t log ext d {d'} unzipped small enough done =
      elim (Option-cases (link_log clock gzip patience patience ext log d)) [
        | inl stuck ↦ ground arith
        | inr ((name, d1), linked) ↦
            let more = link_log-Linked patience ext log d linked in
            let few : archives_in (names d1.archives) ≤ t.keep_max = omega (
              arith,
              archives_in-names d1.archives,
              ap length more,
              length-append d.archives ((name, log) ∷ []),
              enough,
            ) in
            (name, ground (arith, more, prune_few t.keep_max (names d1.archives) small few))
      ]

  text_kept :
      (d d' : Disk) (name : Bytes)
      → d'.archives ≡ d.archives ++ ((name, d.current) ∷ [])
      → text d'.archives ++ [] ≡ whole d
  text_kept d d' name kept =
      append-nil (text d'.archives)
      ∙ (ap text kept
          ∙ (text-append d.archives ((name, d.current) ∷ [])
              ∙ ap (λ zs. text d.archives ++ zs) (append-nil d.current)))

  rotate_lem :
      (n : ℕ) (t : Tinylog) (d : Disk) {s : Tinylog × Disk}
      → HasRoom (n + 1) t d
      → tinylog_rotate clock gzip patience t d ≡ some s
      → HasRoom n s.0 s.1 × (whole s.1 ≡ whole d)
  unfolding tinylog_rotate
  rotate_lem n t d h done =
      let start = record d { current = [] } in
      elim (Option-cases (tinylog_keep clock gzip patience t d.current (codes "s") start)) [
        | inl stuck ↦ ground (arith, h.unzipped, h.small, h.enough)
        | inr (d', kept) ↦
            let (name, more) =
              keep_lem t d.current (codes "s") start h.unzipped h.small (omega (arith, h.enough))
                kept in
            ground (
              arith,
              text_kept d d' name more,
              ap length more,
              length-append d.archives ((name, d.current) ∷ []),
              h.unzipped,
              h.small,
              h.enough,
            )
      ]

  pub post_lem :
      (n : ℕ) (t : Tinylog) (line : Bytes) (d : Disk) {s : Tinylog × Disk}
      → HasRoom (n + 1) t d
      → tinylog_post clock gzip patience t line d ≡ some s
      → HasRoom n s.0 s.1 × (whole s.1 ≡ whole d ++ line)
  unfolding tinylog_post
  post_lem n t line d h done =
      let grown : (d0 : Disk) → text d0.archives ++ (d0.current ++ line) ≡ whole d0 ++ line =
        λ d0. sym (append_assoc (text d0.archives) d0.current line) in
      elim (Option-cases (tinylog_rotate clock gzip patience t d)) [
        | inl stuck ↦ ground (arith, grown d, h.unzipped, h.small, h.enough)
        | inr ((t', d'), rotated) ↦
            let (h', same) = rotate_lem n t d h rotated in
            ground (
              arith,
              grown d,
              grown d',
              h.unzipped,
              h.small,
              h.enough,
              h'.unzipped,
              h'.small,
              h'.enough,
              same,
            )
      ]
