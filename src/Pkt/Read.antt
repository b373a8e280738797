-- ===== src/Pkt/Read.antt =====
-- lasagna/pkt/pkt_read.c: what a read makes of the bytes on the socket.
pub mod Whole
use perp.Common.{
  if_ind, ltb, ℕ, zero, suc, ◌+◌, ◌-◌, ◌≡◌, ◌≤◌, ◌<◌, refl, sym, ap, ◌∙◌, ◌⊎◌, inr, List, [], ◌∷◌,
  ◌++◌, append_assoc, arith, Bytes, length, take, drop, take-append-drop, length-append,
  length-take, length-drop,
}
use perp.Common.{store, take-append, drop-all}
use perp.Pkt.{
  Arrival, chunk, interrupted, would_block, failed, count, error, ReadResult, finish_read,
  read_from, pkt_read, to_read, pkt_size,
}

-- the bytes that the socket has still to give
abbrev pub bytes_of : List Arrival → Bytes
bytes_of [] = []
bytes_of (chunk b ∷ s) = b ++ bytes_of s
bytes_of (interrupted ∷ s) = bytes_of s
bytes_of (would_block ∷ s) = bytes_of s
bytes_of (failed ∷ s) = bytes_of s

-- What a read may return where the offset is `offset`. With a positive count, the bytes behind the
-- offset are counted, and they and what is left on the socket are what there was.
abbrev pub Received : Bytes → ℕ → ReadResult → Type 0
Received all offset r = elim r.result [
  | count m ↦
      (m ≡ 0)
      ⊎ ((length r.pkt ≡ pkt_size)
          × (offset + m ≤ pkt_size)
          × (take (offset + m) r.pkt ++ bytes_of r.rest ≡ all))
  | error f ↦ Unit
]

length-store :
    (k : Bytes) (n : ℕ) (b : Bytes) → n + length b ≤ length k → length (store k n b) ≡ length k
length-store k n b h = omega (
  arith,
  length-append (take n k) (b ++ drop (n + length b) k),
  length-append b (drop (n + length b) k),
  length-take n k,
  length-drop (n + length b) k,
)

pub take-store :
    (k : Bytes) (n : ℕ) (b : Bytes)
    → n ≤ length k
    → take (n + length b) (store k n b) ≡ take n k ++ b
take-store k n b h =
    let front : length (take n k ++ b) ≡ n + length b =
      omega (arith, length-append (take n k) b, length-take n k) in
    ap (λ m. take m (store k n b)) (sym front)
    ∙ (ap (take (length (take n k ++ b))) (sym (append_assoc (take n k) b (drop (n + length b) k)))
        ∙ take-append (take n k ++ b) (drop (n + length b) k))

-- the array with `n` bytes, and the socket, hold `all`
pub record Holds (all k : Bytes) (offset n : ℕ) (s : List Arrival) : Type 0 where
  pub full : length k ≡ pkt_size
  pub behind : offset ≤ n
  pub fits : n ≤ pkt_size
  pub together : take n k ++ bytes_of s ≡ all

counted-Received :
    (all k : Bytes) (offset n : ℕ) (s : List Arrival)
    → Holds all k offset n s
    → Received all offset (record { pkt = k; result = count (n - offset); rest = s })
counted-Received all k offset n s h =
    let same : offset + (n - offset) ≡ n = omega (arith, h.behind) in
    inr
      (h.full, omega (arith, h.behind, h.fits), ap (λ m. take m k ++ bytes_of s) same ∙ h.together)

finish-Received :
    (all k : Bytes) (offset n : ℕ) (s : List Arrival)
    → Holds all k offset n s
    → Received all offset (finish_read k offset n s)
unfolding finish_read
finish-Received all k offset n s h = ground (arith, counted-Received all k offset n s h)

pub store-Holds :
    (all k : Bytes) (offset n : ℕ) (b : Bytes) (s : List Arrival)
    → let got = take (pkt_size - n) b in
      Holds all k offset n (chunk b ∷ s)
      → Holds all (store k n got) offset (n + length got) (chunk (drop (pkt_size - n) b) ∷ s)
store-Holds all k offset n b s h =
    let max = pkt_size - n in
    let got = take max b in
    record {
      full = length-store k n got (omega (arith, h.fits, h.full, length-take max b)) ∙ h.full;
      behind = omega (arith, h.behind);
      fits = omega (arith, h.fits, length-take max b);
      together =
          ap (λ ys. ys ++ (drop max b ++ bytes_of s))
            (take-store k n got (omega (arith, h.fits, h.full)))
          ∙ (append_assoc (take n k) got (drop max b ++ bytes_of s)
              ∙ (ap (λ ys. take n k ++ ys)
                    (sym (append_assoc got (drop max b) (bytes_of s))
                      ∙ ap (λ ys. ys ++ bytes_of s) (take-append-drop max b))
                  ∙ h.together));
    }

-- where the chunk was read whole
pub whole-Holds :
    (all k : Bytes) (offset n m : ℕ) (b : Bytes) (s : List Arrival)
    → length b ≤ m
    → Holds all k offset n (chunk (drop m b) ∷ s)
    → Holds all k offset n s
whole-Holds all k offset n m b s short h = record {
  full = h.full;
  behind = h.behind;
  fits = h.fits;
  together = ap (λ ys. take n k ++ (ys ++ bytes_of s)) (sym (drop-all m b short)) ∙ h.together;
}

read_from-Received :
    (all k : Bytes) (offset n : ℕ) (s : List Arrival)
    → Holds all k offset n s
    → Received all offset (read_from k offset n s)
unfolding read_from
read_from-Received all k offset n [] h =
    ground (arith, counted-Received all k offset n [] h, finish-Received all k offset n [] h)
read_from-Received all k offset n (interrupted ∷ s) h =
    let h1 : Holds all k offset n s = record {
      full = h.full;
      behind = h.behind;
      fits = h.fits;
      together = h.together;
    } in
    if_ind (Received all offset) (ltb n (to_read k n)) _ _ (read_from-Received all k offset n s h1)
      (finish-Received all k offset n (interrupted ∷ s) h)
read_from-Received all k offset n (would_block ∷ s) h =
    let h1 : Holds all k offset n s = record {
      full = h.full;
      behind = h.behind;
      fits = h.fits;
      together = h.together;
    } in
    if_ind (Received all offset) (ltb n (to_read k n)) _ _ (counted-Received all k offset n s h1)
      (finish-Received all k offset n (would_block ∷ s) h)
read_from-Received all k offset n (failed ∷ s) h =
    if_ind (Received all offset) (ltb n (to_read k n)) _ _ tt
      (finish-Received all k offset n (failed ∷ s) h)
read_from-Received all k offset n (chunk b ∷ s) h =
    let max = pkt_size - n in
    let got = take max b in
    let k' = store k n got in
    let n' = n + length got in
    let h' = store-Holds all k offset n b s h in
    let again : length b ≤ max → Received all offset (read_from k' offset n' s) = λ short.
      read_from-Received all k' offset n' s (whole-Holds all k' offset n' max b s short h') in
    ground (
      arith,
      finish-Received all k offset n (chunk b ∷ s) h,
      finish-Received all k' offset n' (chunk (drop max b) ∷ s) h',
      again,
    )

-- A read into an array of 258 bytes, behind an offset within it, that returns a positive count
-- loses and reorders nothing: the bytes in the array and those left on the socket are those that
-- were there before the call.
pub pkt_read-Received :
    (k : Bytes) (offset : ℕ) (s : List Arrival)
    → length k ≡ pkt_size
    → offset ≤ pkt_size
    → Received (take offset k ++ bytes_of s) offset (pkt_read k offset s)
unfolding pkt_read
pkt_read-Received k offset s full fits =
    let h : Holds (take offset k ++ bytes_of s) k offset offset s = record {
      full = full;
      behind = omega arith;
      fits = fits;
      together = refl;
    } in
    ground (arith, read_from-Received (take offset k ++ bytes_of s) k offset offset s h)

take-nil : (n : ℕ) → take {A = ℕ} n [] ≡ []
take-nil zero = refl
take-nil (suc n) = refl

-- Where the packet in the array is not complete and the socket would block before it gives a byte,
-- a read returns 0, as it does at the end of file.
pub pkt_read_would_block :
    (k : Bytes) (offset : ℕ) (s : List Arrival)
    → offset ≤ pkt_size
    → offset < to_read k offset
    → let r = pkt_read k offset (would_block ∷ s) in
      (r.result ≡ count 0) × (r.result ≡ (pkt_read k offset (chunk [] ∷ s)).result)
unfolding pkt_read read_from
pkt_read_would_block k offset s fits short = ground (arith, take-nil (pkt_size - offset))
