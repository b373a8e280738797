-- ===== src/Tinylog/Line.antt =====
-- perp/tinylog.c: how `do_log` collects a line.
use perp.Common.{
  ℕ, ◌+◌, Bool, true, false, not, ◌||◌, ◌&&◌, [], ◌∷◌, ◌++◌, Bytes, ltb, leb, ◌==◌, if◌then◌else◌,
  length,
}

abbrev pub logline_max : ℕ
logline_max = 1000

-- the stamp, a colon and a blank
abbrev pub startpos : Bool → ℕ
startpos wantstamp = if wantstamp then 24 else 0

module _ (char_is_signed : Bool) where
  -- Control characters become question marks; where `char` is signed, so do the bytes from 128 on.
  unfoldable pub printable : ℕ → ℕ
  printable c = if (ltb c 32 || (char_is_signed && leb 128 c)) && not (c == b'\t') then b'?' else c

  -- The inner loop, with what the line has behind `startpos`. The results are the line, what is
  -- left of the input, and whether the input ended before a newline.
  unfoldable pub collect : ℕ → Bytes → Bytes → Bytes × Bytes × Bool
  unfolding printable
  collect from line [] = (line, [], true)
  collect from line (c ∷ input) =
      let kept = collect from (line ++ (printable c ∷ [])) input in
      let dropped = collect from line input in
      if c == b'\n'
      then (line, input, false)
      else if ltb (from + length line) logline_max
      then kept
      else dropped
