-- ===== src/Tinylog/Clipped.antt =====
-- perp/tinylog.c: the line that the inner loop of `do_log` collects.
use perp.Common.{
  ℕ, ◌+◌, ◌-◌, ◌≡◌, ◌≤◌, ◌<◌, refl, sym, ap, ◌∙◌, Bool, true, false, [], ◌∷◌, ◌++◌, append_assoc,
  append-nil, Bytes, ltb, ◌==◌, if◌then◌else◌, length, length-append, map, take, take-nil,
  take-cons, take-none, arith,
}
use perp.Tinylog.Line.{logline_max, printable, collect}

-- what is up to the first newline, what is behind it, and whether there is none
abbrev pub cut : Bytes → Bytes × Bytes × Bool
cut [] = ([], [], true)
cut (c ∷ text) =
    let (l, rest, ended) = cut text in
    if c == b'\n' then ([], text, false) else (c ∷ l, rest, ended)

-- What the log has for a byte: a tab is kept; another byte below 32 is a question mark; and so is
-- one from 128 on, where `char` is signed; every other byte is kept.
abbrev pub shown : Bool → ℕ → ℕ
shown signed c =
    if c == 9
    then 9
    else if ltb c 32
    then 63
    else if signed
    then (if ltb c 128 then c else 63)
    else c

pub printable_lem : (signed : Bool) (c : ℕ) → printable signed c ≡ shown signed c
unfolding printable
printable_lem true c = ground arith
printable_lem false c = ground arith

-- the part of a line that is logged
abbrev clipped_by : (ℕ → ℕ) → ℕ → Bytes → Bytes
clipped_by show from line = take (logline_max - from) (map show line)

abbrev pub clipped : Bool → ℕ → Bytes → Bytes
clipped signed from line = clipped_by (shown signed) from line

module _ (signed : Bool) (from : ℕ) where
  -- the room that is left behind a part of the line
  abbrev room : Bytes → ℕ
  room line = from + length line

  clipped-cons :
      (line : Bytes) (c : ℕ) (l : Bytes)
      → room line < logline_max
      → (line ++ (printable signed c ∷ []))
          ++ clipped_by (printable signed) (room (line ++ (printable signed c ∷ []))) l
        ≡ line ++ clipped_by (printable signed) (room line) (c ∷ l)
  clipped-cons line c l h =
      let p = printable signed c in
      let longer : room (line ++ (p ∷ [])) ≡ room line + 1 =
        omega (arith, length-append line (p ∷ [])) in
      let rest = map (printable signed) l in
      append_assoc line (p ∷ []) (clipped_by (printable signed) (room (line ++ (p ∷ []))) l)
      ∙ ap (λ ys. line ++ ys)
          (ap (λ n. p ∷ take n rest) (omega (arith, longer))
            ∙ sym (take-cons (logline_max - room line) p rest (omega (arith, h))))

  collect_lem :
      (line input : Bytes)
      → room line ≤ logline_max
      → let (l, rest, ended) = cut input in
        collect signed from line input
        ≡ (line ++ clipped_by (printable signed) (room line) l, rest, ended)
  unfolding collect
  collect_lem line [] h = rw (take-nil {A = ℕ} (logline_max - room line), append-nil line) refl
  collect_lem line (c ∷ input) h =
      let none_left = take-nil {A = ℕ} (logline_max - room line) in
      let more = line ++ (printable signed c ∷ []) in
      let (l, rest, ended) = cut input in
      let dropped_l : room line ≡ logline_max → clipped_by (printable signed) (room line) l ≡ [] =
        λ full.
          take-none (logline_max - room line) (map (printable signed) l) (omega (arith, full)) in
      let dropped_cl : room line ≡ logline_max
          → clipped_by (printable signed) (room line) (c ∷ l) ≡ [] =
        λ full.
          take-none (logline_max - room line) (map (printable signed) (c ∷ l))
            (omega (arith, full)) in
      ground (
        arith,
        none_left,
        append-nil line,
        clipped-cons line c l,
        collect_lem more input,
        collect_lem line input h,
        length-append line (printable signed c ∷ []),
        dropped_l,
        dropped_cl,
      )

  pub collect_start :
      (input : Bytes)
      → from ≤ logline_max
      → let (l, rest, ended) = cut input in
        collect signed from [] input ≡ (clipped signed from l, rest, ended)
  collect_start input h =
      let (l, rest, ended) = cut input in
      collect_lem [] input (omega arith)
      ∙ (ap (λ n. (clipped_by (printable signed) n l, rest, ended)) {x = from + 0} (omega arith)
          ∙ (λ i. (clipped_by (λ c. printable_lem signed c i) from l, rest, ended)))
