-- ===== src/Tinylog/Kept.antt =====
-- perp/tinylog.c: rotation loses no byte of the log.
use mathlib.Core.Option.{some-injective}
use mathlib.Core.Path.{subst}
use perp.Common.{
  ℕ, ◌+◌, ◌≡◌, refl, sym, ap, ◌∙◌, Bool, true, false, Option, none, some, List, [], ◌∷◌, ◌++◌,
  append_assoc, append-nil, Bytes, length, arith,
}
use perp.Tinylog.{Tinylog, Disk}
use perp.Tinylog.Loop.{post_line, do_log}
use perp.Tinylog.Clipped.{clipped}
use perp.Tinylog.Lines.{posts, lines, logged, ended_with, do_log-posts}
use perp.Tinylog.Rotation.{whole, HasRoom, post_lem}

-- a line as it is written, without a stamp
abbrev pub ended : Bytes → Bytes
ended [] = []
ended (c ∷ line) = c ∷ line ++ (b'\n' ∷ [])

-- the lines as they are written, one after the other
abbrev pub joined : Bool → List Bytes → Bytes
joined signed [] = []
joined signed (l ∷ ls) = ended (clipped signed 0 l) ++ joined signed ls

HasRoom-less : (n : ℕ) (t : Tinylog) (d : Disk) → HasRoom (n + 1) t d → HasRoom n t d
HasRoom-less n t d h = record {
  unzipped = h.unzipped;
  small = h.small;
  enough = omega (arith, h.enough);
}

module _ (clock : ℕ → Bytes) (gzip : Bytes → Option Bytes) (patience : ℕ) (signed : Bool) where
  pub post_line_lem :
      (n : ℕ) (t : Tinylog) (line : Bytes) (d : Disk) {s : Tinylog × Disk}
      → HasRoom (n + 1) t d
      → post_line clock gzip patience false t line d ≡ some s
      → HasRoom n s.0 s.1 × (whole s.1 ≡ whole d ++ ended line)
  unfolding post_line
  post_line_lem n t [] d {s} h done =
      subst (λ s'. HasRoom n s'.0 s'.1 × (whole s'.1 ≡ whole d ++ [])) (some-injective _ _ done)
        (HasRoom-less n t d h, sym (append-nil (whole d)))
  post_line_lem n t (c ∷ line) d h done =
      post_lem clock gzip patience n t (c ∷ line ++ (b'\n' ∷ [])) d h done

  posts_lem :
      (ls : List Bytes) (t : Tinylog) (d : Disk) {s : Tinylog × Disk}
      → HasRoom (length ls) t d
      → posts clock gzip patience signed false ls t d ≡ some s
      → whole s.1 ≡ whole d ++ joined signed ls
  posts_lem [] t d h done =
      sym (ap (λ s. whole s.1) (some-injective _ _ done)) ∙ sym (append-nil (whole d))
  posts_lem (l ∷ ls) t d {s} h done =
      go (post_line clock gzip patience false t (clipped signed 0 l) d) refl
        (λ t' d' h' rest. posts_lem ls t' d' h' rest) done
    where
      go :
          (o : Option (Tinylog × Disk))
          → post_line clock gzip patience false t (clipped signed 0 l) d ≡ o
          → ((t' : Tinylog) (d' : Disk)
              → HasRoom (length ls) t' d'
              → posts clock gzip patience signed false ls t' d' ≡ some s
              → whole s.1 ≡ whole d' ++ joined signed ls)
          → elim o [ none ↦ none | some (t1, d1) ↦ posts clock gzip patience signed false ls t1 d1 ]
            ≡ some s
          → whole s.1 ≡ whole d ++ joined signed (l ∷ ls)
      go none posted ih rest = cc
      go (some (t', d')) posted ih rest =
          let room : HasRoom (length ls + 1) t d = record {
            unzipped = h.unzipped;
            small = h.small;
            enough = omega (arith, h.enough);
          } in
          let (h', more) = post_line_lem (length ls) t (clipped signed 0 l) d room posted in
          ih t' d' h' rest
          ∙ (ap (λ zs. zs ++ joined signed ls) more
              ∙ append_assoc (whole d) (ended (clipped signed 0 l)) (joined signed ls))

  -- Where archives are neither zipped nor so many that one is removed, of a number to keep below
  -- 2 ^ 31, a `do_log` without stamps that returns has added the lines of its input to what was
  -- logged, less the last one on an error: of each, the first 1000 bytes, in which control bytes
  -- other than tabs, and bytes from 128 on where `char` is signed, are question marks, and a newline
  -- behind them, and nothing of an empty line. Rotation loses nothing and reorders nothing.
  pub do_log_keeps :
      (failing : Bool) (t : Tinylog) (input : Bytes) (d : Disk) {r : Bool × Tinylog × Disk}
      → t.wantstamp ≡ false
      → HasRoom (length (logged failing (lines input))) t d
      → do_log clock gzip patience signed failing t input d ≡ some r
      → whole r.2 ≡ whole d ++ joined signed (logged failing (lines input))
  do_log_keeps failing t input d plain h done =
      go failing (posts clock gzip patience signed false (logged failing (lines input)) t d) refl
        (λ s same. posts_lem (logged failing (lines input)) t d h same)
        (sym (do_log-posts clock gzip patience signed failing t input d ∙ stamped) ∙ done)
    where
      stamped :
          ended_with clock gzip patience signed failing
            (posts clock gzip patience signed t.wantstamp (logged failing (lines input)) t d)
          ≡ ended_with clock gzip patience signed failing
              (posts clock gzip patience signed false (logged failing (lines input)) t d)
      stamped =
          ap
            (λ b.
              ended_with clock gzip patience signed failing
                (posts clock gzip patience signed b (logged failing (lines input)) t d))
            plain

      ls : List Bytes
      ls = logged failing (lines input)

      go :
          (failing' : Bool) (o : Option (Tinylog × Disk)) {r : Bool × Tinylog × Disk}
          → posts clock gzip patience signed false ls t d ≡ o
          → ((s : Tinylog × Disk)
              → posts clock gzip patience signed false ls t d ≡ some s
              → whole s.1 ≡ whole d ++ joined signed ls)
          → ended_with clock gzip patience signed failing' o ≡ some r
          → whole r.2 ≡ whole d ++ joined signed ls
      go failing' none same all done' = cc
      go true (some s) same all done' =
          sym (ap (λ r. whole r.2) (some-injective _ _ done')) ∙ all s same
      go false (some s) same all done' =
          sym (ap (λ r. whole r.2) (some-injective _ _ done')) ∙ all s same
