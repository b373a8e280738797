-- ===== src/Pkt/Read/Whole.antt =====
-- lasagna/pkt/pkt_read.c: a packet that is all there is read whole.
use perp.Common.{
  ℕ, zero, suc, ◌+◌, ◌-◌, ◌≡◌, ◌≤◌, ◌<◌, refl, sym, ap, ◌∙◌, List, [], ◌∷◌, ◌++◌, append-nil, arith,
  Bytes, length, take, length-append, length-take, All,
}
use perp.Upak.{at}
use perp.Common.{store}
use perp.Pkt.{
  Arrival, chunk, interrupted, would_block, failed, count, ReadResult, finish_read, read_from,
  pkt_read, to_read, pkt_size, pkt_len, pkt_header,
}
use perp.Pkt.Read.{bytes_of, Holds, store-Holds, whole-Holds}

-- a read that gives bytes or is interrupted
abbrev pub IsData : Arrival → Type 0
IsData (chunk b) = 0 < length b
IsData interrupted = Unit
IsData would_block = ⊥
IsData failed = ⊥

-- a whole packet
pub record IsPacket (p : Bytes) : Type 0 where
  pub is_headed : pkt_header ≤ length p
  pub is_bounded : length p ≤ pkt_size
  pub says_length : pkt_len p ≡ length p

-- what a read of the packet `p` leaves
pub record IsWhole (p : Bytes) (offset : ℕ) (r : ReadResult) : Type 0 where
  pub counted : r.result ≡ count (length p - offset)
  pub stored : take (length p) r.pkt ≡ p

at-take : (n : ℕ) (k r : Bytes) → 3 ≤ n → 3 ≤ length k → at (take n k ++ r) 2 ≡ at k 2
at-take (suc (suc (suc n))) (a ∷ b ∷ c ∷ k) r hn hk = refl
at-take (suc (suc (suc n))) [] r hn hk = absurd (omega arith)
at-take (suc (suc (suc n))) (a ∷ []) r hn hk = absurd (omega arith)
at-take (suc (suc (suc n))) (a ∷ b ∷ []) r hn hk = absurd (omega arith)
at-take zero k r hn hk = absurd (omega arith)
at-take (suc zero) k r hn hk = absurd (omega arith)
at-take (suc (suc zero)) k r hn hk = absurd (omega arith)

module _ (p k : Bytes) (offset n : ℕ) (s : List Arrival) (h : Holds p k offset n s) where
  -- the length that the read goes by, once the header is there
  to_read_lem : IsPacket p → pkt_header ≤ n → to_read k n ≡ length p
  to_read_lem packet headed =
      let same : at p 2 ≡ at k 2 =
        ap (λ b. at b 2) (sym h.together)
        ∙ at-take n k (bytes_of s) (omega arith) (omega (arith, h.full)) in
      ground (arith, same, packet.says_length)

  left_lem : n + length (bytes_of s) ≡ length p
  left_lem =
      let total : length (take n k ++ bytes_of s) ≡ length p = ap length h.together in
      omega (arith, total, length-append (take n k) (bytes_of s), length-take n k, h.full, h.fits)

  more_lem : IsPacket p → n < length p → n < to_read k n
  more_lem packet short = ground (arith, to_read_lem packet)

  empty_lem : (xs : Bytes) → length xs ≡ 0 → xs ≡ []
  empty_lem [] e = refl
  empty_lem (x ∷ xs) e = absurd (omega (arith, e))

  whole_lem : IsPacket p → n ≡ length p → IsWhole p offset (finish_read k offset n s)
  unfolding finish_read
  whole_lem packet all =
      let none_left : bytes_of s ≡ [] = empty_lem (bytes_of s) (omega (arith, left_lem, all)) in
      let kept : take (length p) k ≡ p =
        ap (λ m. take m k) (sym all)
        ∙ (sym (append-nil (take n k)) ∙ (ap (λ b. take n k ++ b) (sym none_left) ∙ h.together)) in
      let long : to_read k n ≡ length p =
        to_read_lem packet (omega (arith, all, packet.is_headed)) in
      ground (arith, kept, long, all)

  ended_lem : IsPacket p → n ≡ length p → to_read k n ≡ n
  ended_lem packet all = to_read_lem packet (omega (arith, all, packet.is_headed)) ∙ sym all

read_from-IsWhole :
    (p k : Bytes) (offset n : ℕ) (s : List Arrival)
    → IsPacket p
    → All IsData s
    → Holds p k offset n s
    → IsWhole p offset (read_from k offset n s)
unfolding read_from
read_from-IsWhole p k offset n [] packet d h =
    let all : n ≡ length p = omega (arith, left_lem p k offset n [] h) in
    ground (arith, whole_lem p k offset n [] h packet all, ended_lem p k offset n [] h packet all)
read_from-IsWhole p k offset n (interrupted ∷ s) packet (d, ds) h =
    let h1 : Holds p k offset n s = record {
      full = h.full;
      behind = h.behind;
      fits = h.fits;
      together = h.together;
    } in
    ground (
      arith,
      read_from-IsWhole p k offset n s packet ds h1,
      left_lem p k offset n s h1,
      whole_lem p k offset n (interrupted ∷ s) h packet,
      ended_lem p k offset n (interrupted ∷ s) h packet,
      more_lem p k offset n (interrupted ∷ s) h packet,
    )
read_from-IsWhole p k offset n (would_block ∷ s) packet (d, ds) h = absurd d
read_from-IsWhole p k offset n (failed ∷ s) packet (d, ds) h = absurd d
read_from-IsWhole p k offset n (chunk b ∷ s) packet (d, ds) h =
    let max = pkt_size - n in
    let got = take max b in
    let h' = store-Holds p k offset n b s h in
    let left : n + (length b + length (bytes_of s)) ≡ length p =
      omega (arith, left_lem p k offset n (chunk b ∷ s) h, length-append b (bytes_of s)) in
    let short : length b ≤ max = omega (arith, left, packet.is_bounded) in
    let some_left : 0 < length got = omega (arith, length-take max b, short, d) in
    ground (
      arith,
      some_left,
      short,
      read_from-IsWhole p (store k n got) offset (n + length got) s packet ds
          (whole-Holds p (store k n got) offset (n + length got) max b s short h'),
      more_lem p k offset n (chunk b ∷ s) h packet (omega (arith, left, d)),
    )

-- Where the bytes in the array and those on the socket, which comes in pieces or is interrupted,
-- are one packet, a read returns the number of bytes that were missing, and the array holds the
-- packet.
pub pkt_read-IsWhole :
    (p k : Bytes) (offset : ℕ) (s : List Arrival)
    → IsPacket p
    → All IsData s
    → length k ≡ pkt_size
    → offset ≤ pkt_size
    → take offset k ++ bytes_of s ≡ p
    → IsWhole p offset (pkt_read k offset s)
unfolding pkt_read
pkt_read-IsWhole p k offset s packet d full fits together =
    let h : Holds p k offset offset s = record {
      full = full;
      behind = omega arith;
      fits = fits;
      together = together;
    } in
    ground (arith, read_from-IsWhole p k offset offset s packet d h)
