-- ===== src/Tinylog/Written.antt =====
-- perp/tinylog.c: what `do_log` writes, entry by entry.
use perp.Common.{
  ℕ, ◌+◌, ◌≡◌, refl, sym, ap, append_assoc, ◌∙◌, Bool, true, false, Option, none, some, List, [],
  ◌∷◌, ◌++◌, Bytes, if◌then◌else◌, codes,
}
use perp.Tinylog.Line.{startpos}
use perp.Tinylog.{Tinylog, Disk, tinylog_post}
use perp.Tinylog.Loop.{post_line, do_log}
use perp.Tinylog.Clipped.{clipped}
use perp.Tinylog.Lines.{posts, lines, logged, ended_with, do_log-posts}

-- the text in front of a line: a stamp, a colon and a blank, or nothing
abbrev pub stamp_of : Bool → Bytes → Bytes
stamp_of wantstamp stamp = if wantstamp then stamp ++ codes ": " else []

-- the parts of lines that are logged, less the empty ones
abbrev pub shown_lines : Bool → ℕ → List Bytes → List Bytes
shown_lines signed from [] = []
shown_lines signed from (l ∷ ls) = elim (clipped signed from l) [
  | [] ↦ shown_lines signed from ls
  | c ∷ cs ↦ (c ∷ cs) ∷ shown_lines signed from ls
]

module _ (clock : ℕ → Bytes) (gzip : Bytes → Option Bytes) (patience : ℕ) where
  -- The lines, each posted behind its stamp, for which the clock is read, and in front of a newline.
  abbrev pub entries : Bool → List Bytes → Tinylog → Disk → Option (Tinylog × Disk)
  entries wantstamp [] t d = some (t, d)
  entries wantstamp (line ∷ ls) t d =
      let entry = stamp_of wantstamp (clock d.readings) ++ (line ++ codes "\n") in
      let d0 = record d { readings = if wantstamp then d.readings + 1 else d.readings } in
      elim (tinylog_post clock gzip patience t entry d0) [
        | none ↦ none
        | some (t', d') ↦ entries wantstamp ls t' d'
      ]

  post_line_entry :
      (wantstamp : Bool) (t : Tinylog) (c : ℕ) (line : Bytes) (d : Disk)
      → post_line clock gzip patience wantstamp t (c ∷ line) d
        ≡ tinylog_post clock gzip patience t
            (stamp_of wantstamp (clock d.readings) ++ ((c ∷ line) ++ codes "\n"))
            (record d { readings = if wantstamp then d.readings + 1 else d.readings })
  unfolding post_line
  post_line_entry false t c line d = refl
  post_line_entry true t c line d =
      let stamp = clock d.readings in
      let d1 : Disk = record d { readings = d.readings + 1 } in
      ap (λ text. tinylog_post clock gzip patience t text d1)
        (append_assoc stamp (b':' ∷ b' ' ∷ c ∷ line) (b'\n' ∷ [])
          ∙ sym (append_assoc stamp (codes ": ") ((c ∷ line) ++ codes "\n")))

  module _ (signed wantstamp : Bool) where
    posts-entries :
        (ls : List Bytes) (t : Tinylog) (d : Disk)
        → posts clock gzip patience signed wantstamp ls t d
          ≡ entries wantstamp (shown_lines signed (startpos wantstamp) ls) t d
    unfolding post_line
    posts-entries [] t d = refl
    posts-entries (l ∷ ls) t d =
        go (clipped signed (startpos wantstamp) l) (λ t1 d1. posts-entries ls t1 d1)
      where
        later : List Bytes
        later = shown_lines signed (startpos wantstamp) ls

        Rest : Type 0
        Rest =
            (t1 : Tinylog) (d1 : Disk)
            → posts clock gzip patience signed wantstamp ls t1 d1 ≡ entries wantstamp later t1 d1

        after :
            (o : Option (Tinylog × Disk))
            → Rest
            → elim o [
              | none ↦ none
              | some (t1, d1) ↦ posts clock gzip patience signed wantstamp ls t1 d1
            ]
              ≡ elim o [ none ↦ none | some (t1, d1) ↦ entries wantstamp later t1 d1 ]
        after none ih = refl
        after (some (t1, d1)) ih = ih t1 d1

        go :
            (line : Bytes)
            → Rest
            → elim (post_line clock gzip patience wantstamp t line d) [
              | none ↦ none
              | some (t1, d1) ↦ posts clock gzip patience signed wantstamp ls t1 d1
            ]
              ≡ entries wantstamp (elim line [ [] ↦ later | c ∷ cs ↦ (c ∷ cs) ∷ later ]) t d
        go [] ih = ih t d
        go (c ∷ line) ih =
            after (post_line clock gzip patience wantstamp t (c ∷ line) d) ih
            ∙ ap
                (λ o. elim o as (λ x. Option (Tinylog × Disk)) [
                  | none ↦ none
                  | some (t1, d1) ↦ entries wantstamp later t1 d1
                ])
                (post_line_entry wantstamp t c line d)

  -- On any input, `do_log` posts the lines of the input in order: of each, the first 1000 bytes,
  -- or 976 behind a stamp, in which control bytes other than tabs, and bytes from 128 on where
  -- `char` is signed, are question marks; behind its stamp, a colon and a blank, where stamps are
  -- wanted; and ended by a newline. Empty lines are left out. The last line is posted too if it
  -- ends with the end of file, and not if it ends with an error; `do_log` returns 0 and marks the
  -- log clean in the first case only; and it returns nothing exactly where a post does.
  pub do_log_lem :
      (signed failing : Bool) (t : Tinylog) (input : Bytes) (d : Disk)
      → do_log clock gzip patience signed failing t input d
        ≡ ended_with clock gzip patience signed failing (
            entries t.wantstamp
              (shown_lines signed (if t.wantstamp then 24 else 0) (logged failing (lines input)))
              t
              d)
  do_log_lem signed failing t input d =
      do_log-posts clock gzip patience signed failing t input d
      ∙ ap (ended_with clock gzip patience signed failing)
          (posts-entries signed t.wantstamp (logged failing (lines input)) t d)
