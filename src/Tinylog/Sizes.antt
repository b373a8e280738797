-- ===== src/Tinylog/Sizes.antt =====
-- perp/tinylog.c: the sizes of lines and of the log.
use mathlib.Core.Option.{some-injective}
use mathlib.Core.Path.{subst}
use perp.Common.{
  ℕ, suc, ◌+◌, ◌-◌, ◌*◌, ◌≡◌, ◌≤◌, ◌<◌, inl, inr, refl, ap, Bool, true, false, Option, none, some,
  List, [], ◌∷◌, ◌++◌, Bytes, length, length-append, length-take, map, arith, Option-cases, codes,
}
use perp.Upak.{u64_mod}
use perp.Tinylog.Line.{logline_max, startpos}
use perp.Tinylog.{Tinylog, Disk, tinylog_keep, tinylog_rotate, tinylog_post, written}
use perp.Tinylog.Loop.{post_line, do_log}
use perp.Tinylog.Clipped.{shown, clipped}
use perp.Tinylog.Lines.{posts, lines, logged, ended_with, do_log-posts}

-- The size that is kept is the size of the log, which is below the maximum; and the maximum is one
-- that the options allow.
pub record IsSized (t : Tinylog) (d : Disk) : Type 0 where
  pub counted : t.current_size ≡ length d.current
  pub bounded : t.current_size < t.current_max
  pub max_allowed : 2 * logline_max ≤ t.current_max
  pub max_fits : t.current_max < u64_mod

length-map : (f : ℕ → ℕ) (l : Bytes) → length (map f l) ≡ length l
length-map f [] = refl
length-map f (c ∷ l) = ap suc (length-map f l)

length-clipped :
    (signed : Bool) (from : ℕ) (l : Bytes) → length (clipped signed from l) ≤ logline_max - from
length-clipped signed from l =
    omega (arith, length-take (logline_max - from) (map (shown signed) l))

module _ (clock : ℕ → Bytes) (gzip : Bytes → Option Bytes) (patience : ℕ) where
  rotate-IsSized :
      (t : Tinylog) (d : Disk) {s : Tinylog × Disk}
      → IsSized t d
      → tinylog_rotate clock gzip patience t d ≡ some s
      → IsSized s.0 s.1 × (s.0.current_size ≡ 0)
  unfolding tinylog_rotate
  rotate-IsSized t d h done =
      elim (Option-cases
        (tinylog_keep clock gzip patience t d.current (codes "s") (record d { current = [] }))) [
          | inl stuck ↦ ground arith
          | inr (d', kept) ↦ ground arith
        ]

  written-IsSized :
      (line : Bytes) (t : Tinylog) (d : Disk)
      → IsSized t d
      → t.current_size + length line < t.current_max
      → let (t', d') = written clock gzip patience line (t, d) in IsSized t' d'
  written-IsSized line t d h fits = record {
    counted = omega (arith, h.counted, h.max_fits, fits, length-append d.current line);
    bounded = omega (arith, h.max_fits, fits);
    max_allowed = h.max_allowed;
    max_fits = h.max_fits;
  }

  post-IsSized :
      (t : Tinylog) (line : Bytes) (d : Disk) {s : Tinylog × Disk}
      → length line ≤ logline_max + 1
      → IsSized t d
      → tinylog_post clock gzip patience t line d ≡ some s
      → IsSized s.0 s.1
  unfolding tinylog_post
  post-IsSized t line d short h done =
      elim (Option-cases (tinylog_rotate clock gzip patience t d)) [
        | inl stuck ↦ ground (arith, written-IsSized line t d h)
        | inr ((t', d'), rotated) ↦
            let (h', empty) = rotate-IsSized t d h rotated in
            ground (arith, written-IsSized line t d h, written-IsSized line t' d' h')
      ]

clean : {t' : Tinylog} {d' : Disk} → IsSized t' d' → IsSized t' (record d' { is_clean = true })
clean h' = record {
  counted = h'.counted;
  bounded = h'.bounded;
  max_allowed = h'.max_allowed;
  max_fits = h'.max_fits;
}

-- every stamp has the 22 characters of yyyymmddThhmmss.uuuuuu
abbrev pub AreStamps : (ℕ → Bytes) → Type 0
AreStamps clock = (n : ℕ) → length (clock n) ≡ 22

module _ (clock : ℕ → Bytes) (gzip : Bytes → Option Bytes) (patience : ℕ)
    (stamps : AreStamps clock) where
  post_line-IsSized :
      (wantstamp : Bool) (t : Tinylog) (line : Bytes) (d : Disk) {s : Tinylog × Disk}
      → startpos wantstamp + length line ≤ logline_max
      → IsSized t d
      → post_line clock gzip patience wantstamp t line d ≡ some s
      → IsSized s.0 s.1
  unfolding post_line
  post_line-IsSized wantstamp t [] d short h done =
      subst (λ s. IsSized s.0 s.1) (some-injective _ _ done) h
  post_line-IsSized true t (c ∷ line) d short h done =
      let stamped = clock d.readings ++ (b':' ∷ b' ' ∷ c ∷ line) in
      let read : IsSized t (record d { readings = d.readings + 1 }) = record {
        counted = h.counted;
        bounded = h.bounded;
        max_allowed = h.max_allowed;
        max_fits = h.max_fits;
      } in
      post-IsSized clock gzip patience t (stamped ++ (b'\n' ∷ []))
        (record d { readings = d.readings + 1 })
        (omega (
          arith,
          length-append stamped (b'\n' ∷ []),
          length-append (clock d.readings) (b':' ∷ b' ' ∷ c ∷ line),
          stamps d.readings,
          short,
        ))
        read done
  post_line-IsSized false t (c ∷ line) d short h done =
      post-IsSized clock gzip patience t (c ∷ line ++ (b'\n' ∷ [])) d
        (omega (arith, length-append line (b'\n' ∷ []), short)) h done

  posts-IsSized :
      (signed wantstamp : Bool) (ls : List Bytes) (t : Tinylog) (d : Disk) {s : Tinylog × Disk}
      → IsSized t d
      → posts clock gzip patience signed wantstamp ls t d ≡ some s
      → IsSized s.0 s.1
  posts-IsSized signed wantstamp [] t d h done =
      subst (λ s. IsSized s.0 s.1) (some-injective _ _ done) h
  posts-IsSized signed wantstamp (l ∷ ls) t d h done =
      let line = clipped signed (startpos wantstamp) l in
      let first = post_line clock gzip patience wantstamp t line d in
      let short : startpos wantstamp + length line ≤ logline_max =
        ground (arith, length-clipped signed (startpos wantstamp) l) in
      elim (Option-cases first) [
        | inl stuck ↦ ground arith
        | inr ((t', d'), posted) ↦
            posts-IsSized signed wantstamp ls t' d'
              (post_line-IsSized wantstamp t line d short h posted) (after ls first posted done)
      ]
    where
      after :
          (ls : List Bytes) (o : Option (Tinylog × Disk)) {t' : Tinylog} {d' : Disk}
          {s : Tinylog × Disk}
          → o ≡ some (t', d')
          → elim o [
            | none ↦ none
            | some (t1, d1) ↦ posts clock gzip patience signed wantstamp ls t1 d1
          ]
            ≡ some s
          → posts clock gzip patience signed wantstamp ls t' d' ≡ some s
      after ls o same done = rw same at done

  -- Where the log is smaller than its maximum, of a size that is the one that tinylog has counted,
  -- the maximum is at least two lines and fits a `size_t`, and stamps are 22 characters long, a
  -- `do_log` that returns leaves a log of which the same holds, whatever its input and its end.
  pub do_log-IsSized :
      (signed failing : Bool) (t : Tinylog) (input : Bytes) (d : Disk) {r : Bool × Tinylog × Disk}
      → IsSized t d
      → do_log clock gzip patience signed failing t input d ≡ some r
      → IsSized r.1 r.2
  do_log-IsSized signed failing t input d h done =
      go failing (posts clock gzip patience signed t.wantstamp (logged failing (lines input)) t d)
        refl (rw (do_log-posts clock gzip patience signed failing t input d) at done)
    where
      go :
          (failing : Bool) (o : Option (Tinylog × Disk)) {r : Bool × Tinylog × Disk}
          → posts clock gzip patience signed t.wantstamp (logged failing (lines input)) t d ≡ o
          → ended_with clock gzip patience signed failing o ≡ some r
          → IsSized r.1 r.2
      go failing none same done = cc
      go true (some s) same done =
          subst (λ r. IsSized r.1 r.2) (some-injective _ _ done)
            (posts-IsSized signed t.wantstamp (logged true (lines input)) t d h same)
      go false (some s) same done =
          subst (λ r. IsSized r.1 r.2) (some-injective _ _ done)
            (clean (posts-IsSized signed t.wantstamp (logged false (lines input)) t d h same))
