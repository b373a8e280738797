-- ===== src/Tinylog/Lines.antt =====
-- perp/tinylog.c: `do_log` posts the lines of its input.
use perp.Common.{
  ℕ, zero, suc, ◌+◌, ◌≡◌, ◌<◌, inl, inr, refl, Bool, true, false, not, Option, none, some, List, [],
  ◌∷◌, Bytes, ◌==◌, if◌then◌else◌, length, arith, Bool-cases,
}
use perp.Tinylog.Line.{startpos, collect}
use perp.Tinylog.{Tinylog, Disk}
use perp.Tinylog.Loop.{post_line, proceed, log_from, do_log}
use perp.Tinylog.Clipped.{cut, clipped, collect_start}

-- the lines of a text; the last one ends with the text
abbrev pub lines : Bytes → List Bytes
lines [] = [] ∷ []
lines (c ∷ text) =
    if c == b'\n'
    then [] ∷ lines text
    else elim (lines text) [ [] ↦ (c ∷ []) ∷ [] | l ∷ ls ↦ (c ∷ l) ∷ ls ]

lines_head : (text : Bytes) → (l : Bytes) × (ls : List Bytes) × (lines text ≡ l ∷ ls)
lines_head [] = ([], [], refl)
lines_head (c ∷ text) =
    let (l, ls, same) = lines_head text in
    elim (Bool-cases (c == b'\n')) [
      | inl newline ↦ ([], lines text, rw newline refl)
      | inr other ↦ (c ∷ l, ls, rw (other, same) refl)
    ]

lines-cut :
    (text : Bytes)
    → let (l, rest, ended) = cut text in lines text ≡ (if ended then l ∷ [] else l ∷ lines rest)
lines-cut [] = refl
lines-cut (c ∷ text) = ground (arith, lines-cut text)

length-cut :
    (text : Bytes) → let (l, rest, ended) = cut text in ended ≡ false → length rest < length text
length-cut [] = λ h. cc
length-cut (c ∷ text) = ground (arith, length-cut text)

-- Of the lines of the input, those that are logged: where the input ends with an error, the last
-- line is not.
abbrev pub logged : Bool → List Bytes → List Bytes
logged failing [] = []
logged failing (l ∷ []) = if failing then [] else l ∷ []
logged failing (l ∷ m ∷ ls) = l ∷ logged failing (m ∷ ls)

logged-cons :
    (failing : Bool) (l rest : Bytes)
    → logged failing (l ∷ lines rest) ≡ l ∷ logged failing (lines rest)
logged-cons failing l rest = let (m, ls, same) = lines_head rest in rw same refl

module _ (clock : ℕ → Bytes) (gzip : Bytes → Option Bytes) (patience : ℕ) (signed : Bool) where
  -- the lines, clipped and posted one after the other
  abbrev pub posts : Bool → List Bytes → Tinylog → Disk → Option (Tinylog × Disk)
  posts wantstamp [] t d = some (t, d)
  posts wantstamp (l ∷ ls) t d =
      elim (post_line clock gzip patience wantstamp t (clipped signed (startpos wantstamp) l) d) [
        | none ↦ none
        | some (t', d') ↦ posts wantstamp ls t' d'
      ]

  -- what `do_log` returns once the lines are posted
  abbrev pub ended_with : Bool → Option (Tinylog × Disk) → Option (Bool × Tinylog × Disk)
  ended_with failing none = none
  ended_with failing (some (t, d)) =
      some (not failing, t, if failing then d else record d { is_clean = true })

  last_lem :
      (failing wantstamp : Bool) (l rest : Bytes) (t : Tinylog) (d : Disk)
      (next : Tinylog → Bytes → Disk → Option (Bool × Tinylog × Disk))
      → let first =
          post_line clock gzip patience wantstamp t (clipped signed (startpos wantstamp) l) d in
        (if failing then some (false, t, d) else proceed clock gzip patience true first rest next)
        ≡ ended_with failing (posts wantstamp (logged failing (l ∷ [])) t d)
  last_lem true wantstamp l rest t d next = refl
  last_lem false wantstamp l rest t d next =
      go (post_line clock gzip patience wantstamp t (clipped signed (startpos wantstamp) l) d)
    where
      go :
          (o : Option (Tinylog × Disk))
          → proceed clock gzip patience true o rest next
            ≡ ended_with false (elim o [ none ↦ none | some (t', d') ↦ posts wantstamp [] t' d' ])
      go none = refl
      go (some s) = refl

  more_lem :
      (failing wantstamp : Bool) (l rest : Bytes) (ls : List Bytes) (t : Tinylog) (d : Disk)
      (next : Tinylog → Bytes → Disk → Option (Bool × Tinylog × Disk))
      → ((t' : Tinylog) (d' : Disk)
          → next t' rest d' ≡ ended_with failing (posts wantstamp ls t' d'))
      → let first =
          post_line clock gzip patience wantstamp t (clipped signed (startpos wantstamp) l) d in
        proceed clock gzip patience false first rest next
        ≡ ended_with failing (posts wantstamp (l ∷ ls) t d)
  more_lem failing wantstamp l rest ls t d next ih =
      go (post_line clock gzip patience wantstamp t (clipped signed (startpos wantstamp) l) d)
    where
      go :
          (o : Option (Tinylog × Disk))
          → proceed clock gzip patience false o rest next
            ≡ ended_with failing (elim o [ none ↦ none | some (t', d') ↦ posts wantstamp ls t' d' ])
      go none = refl
      go (some (t', d')) = ih t' d'

  log_from_lem :
      (failing wantstamp : Bool) (f : ℕ) (t : Tinylog) (input : Bytes) (d : Disk)
      → length input < f
      → log_from clock gzip patience signed failing wantstamp f t input d
        ≡ ended_with failing (posts wantstamp (logged failing (lines input)) t d)
  unfolding log_from
  log_from_lem failing wantstamp zero t input d h = absurd (omega arith)
  log_from_lem failing wantstamp (suc f) t input d h =
      let from = startpos wantstamp in
      let (l, rest, ended) = cut input in
      let first = post_line clock gzip patience wantstamp t (clipped signed from l) d in
      let read : collect signed from [] input ≡ (clipped signed from l, rest, ended) =
        collect_start signed from input (ground arith) in
      elim (Bool-cases ended) [
        | inl over ↦
            rw (lines-cut input, read, over)
              (last_lem failing wantstamp l rest t d
                (log_from clock gzip patience signed failing wantstamp f))
        | inr more ↦
            rw (lines-cut input, read, more, logged-cons failing l rest)
              (more_lem failing wantstamp l rest (logged failing (lines rest)) t d
                (log_from clock gzip patience signed failing wantstamp f)
                (λ t' d'.
                  log_from_lem failing wantstamp f t' rest d'
                    (omega (arith, length-cut input more, h))))
      ]

  pub do_log-posts :
      (failing : Bool) (t : Tinylog) (input : Bytes) (d : Disk)
      → do_log clock gzip patience signed failing t input d
        ≡ ended_with failing (posts t.wantstamp (logged failing (lines input)) t d)
  unfolding do_log
  do_log-posts failing t input d =
      log_from_lem failing t.wantstamp (length input + 1) t input d (omega arith)
