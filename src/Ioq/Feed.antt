-- ===== src/Ioq/Feed.antt =====
-- lasagna/ioq/ioq_get.c: a read, a feed of the queue, and bytes taken out of it.
use perp.Common.{
  ℕ, ◌+◌, ◌-◌, ◌≡◌, ◌≤◌, ◌⊎◌, inl, inr, refl, sym, ◌∙◌, ap, Bool, true, false, Option, none, some,
  List, [], ◌∷◌, ◌++◌, append_assoc, Bytes, ltb, leb, ◌==◌, if◌then◌else◌, length, store, take,
  drop, length-take, length-drop, take-append-drop, take-append, drop-store, drop-drop, arith,
  Bool-cases,
}
use perp.Cdb.Arrays.{length-store}
use perp.Pkt.{Arrival, chunk}
use perp.Pkt.Read.{bytes_of}
use perp.Ioq.{Ioq, buf_rcopy, read_once, ioq_extract, fed}
use perp.Ioq.Copy.{buf_rcopy_lem}

-- a queue for input: the bytes in it are those at the end of the buffer
abbrev pub IsInput : Ioq → Type 0
IsInput q = q.n + q.p ≡ length q.buf

-- the bytes in the queue, and those that the descriptor has still to give
abbrev pub stream : Ioq → List Arrival → Bytes
stream q s = drop q.n q.buf ++ bytes_of s

-- the next `read` is at the end of file
abbrev pub ends : List Arrival → Bool
ends [] = false
ends (chunk b ∷ s) = length b == 0
ends (Arrival.interrupted ∷ s) = ends s
ends (Arrival.would_block ∷ s) = false
ends (Arrival.failed ∷ s) = false

abbrev pub ReadOf : ℕ → List Arrival → Option Bytes × List Arrival → Type 0
ReadOf want s r = elim r.0 [
  | none ↦ bytes_of r.1 ≡ bytes_of s
  | some got ↦
      (got ++ bytes_of r.1 ≡ bytes_of s)
      × (length got ≤ want)
      × (got ≡ [] → (want ≡ 0) ⊎ (ends s ≡ true))
]

pub read_once_lem : (want : ℕ) (s : List Arrival) → ReadOf want s (read_once want s)
unfolding read_once
read_once_lem want [] = refl
read_once_lem want (Arrival.interrupted ∷ s) = read_once_lem want s
read_once_lem want (Arrival.would_block ∷ s) = refl
read_once_lem want (Arrival.failed ∷ s) = refl
read_once_lem want (chunk b ∷ s) = elim (Bool-cases (leb (length b) want)) [
  | inl whole ↦ rw whole (refl, ground (arith, whole), λ e. inr (ground (arith, ap length e)))
  | inr part ↦ rw part (
    sym (append_assoc (take want b) (drop want b) (bytes_of s))
        ∙ ap (λ a. a ++ bytes_of s) (take-append-drop want b),
    omega (arith, length-take want b),
    λ e. inl (ground (arith, part, ap length e, length-take want b)),
  )
]

-- an empty queue that is fed has these bytes
pub fed_lem :
    (q : Ioq) (got : Bytes)
    → IsInput q
    → q.p ≡ 0
    → length got ≤ q.n
    → IsInput (fed q got)
      × (length (fed q got).buf ≡ length q.buf)
      × (drop (fed q got).n (fed q got).buf ≡ got)
unfolding fed
fed_lem q got h empty fits =
    let r = length got in
    let n = q.n - r in
    let b = store q.buf 0 got in
    let same : length b ≡ length q.buf = length-store q.buf got 0 (omega (arith, h, fits)) in
    elim (Bool-cases (ltb 0 n)) [
      | inl short ↦
          let start : take r b ≡ got = take-append got (drop (0 + r) q.buf) in
          let moved : buf_rcopy b n 0 r ≡ store b n got =
            buf_rcopy_lem b n 0 r (omega arith) (omega (arith, same, h, fits))
            ∙ ap (store b n) start in
          let at_end : n + length got ≡ length b = omega (arith, same, h, empty, fits) in
          let as_long : length (store b n got) ≡ length q.buf =
            length-store b got n (omega (arith, at_end)) ∙ same in
          rw (short, moved)
            (omega (arith, as_long, h, empty, fits), as_long, drop-store b n got at_end)
      | inr whole ↦
          let none_left : n ≡ 0 = ground (arith, whole) in
          rw whole (
            omega (arith, same, h, empty, fits),
            same,
            ap (λ m. drop m b) none_left
                ∙ drop-store q.buf 0 got (omega (arith, h, empty, fits, none_left)),
          )
    ]

pub extract_lem :
    (q : Ioq) (len : ℕ)
    → IsInput q
    → let (got, q') = ioq_extract q len in
      IsInput q'
      × (length q'.buf ≡ length q.buf)
      × (length got ≤ len)
      × (got ++ drop q'.n q'.buf ≡ drop q.n q.buf)
      × (got ≡ [] → (len ≡ 0) ⊎ (q.p ≡ 0))
unfolding ioq_extract
extract_lem q len h =
    let m = if ltb q.p len then q.p else len in
    let few : m ≤ len = ground arith in
    let there : m ≤ q.p = ground arith in
    let got = take m (drop q.n q.buf) in
    let count : length got ≡ m =
      omega (arith, length-take m (drop q.n q.buf), length-drop q.n q.buf, h, there) in
    (
      omega (arith, h, there),
      refl,
      omega (arith, count, few),
      ap (λ ys. got ++ ys) (sym (drop-drop m q.n q.buf)) ∙ take-append-drop m (drop q.n q.buf),
      λ e. ground (arith, ap length e, count),
    )
