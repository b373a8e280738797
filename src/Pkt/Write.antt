-- ===== src/Pkt/Write.antt =====
-- lasagna/pkt/pkt_write.c: what reaches the wire.
use perp.Common.{
  ℕ, ◌+◌, ◌≡◌, ◌≤◌, refl, sym, ap, ◌∙◌, ◌⊎◌, inl, inr, List, [], ◌∷◌, ◌++◌, append_assoc, arith,
  Bytes, length, take, drop, take-append-drop, append-nil, length-drop, drop-drop,
  drop-append_length,
}
use mathlib.Core.Path.{subst}
use perp.Pkt.{
  Room, room, interrupted, would_block, failed, WriteResult, write_from, pkt_write, pkt_len, count,
  error, io_failure,
}

-- the bytes on the wire are a first part of `all`, and a count counts them
pub record IsSent (all : Bytes) (before : ℕ) (r : WriteResult) : Type 0 where
  pub unsent : Bytes
  pub in_order : r.wire ++ unsent ≡ all
  pub counted : (r.result ≡ count (length r.wire)) ⊎ (r.result ≡ error io_failure)

write_from-IsSent :
    (b before : Bytes) (s : List Room) → IsSent (before ++ b) 0 (write_from b before s)
unfolding write_from
write_from-IsSent [] before s = record { unsent = []; in_order = refl; counted = inl refl }
write_from-IsSent (x ∷ b) before [] = record { unsent = x ∷ b; in_order = refl; counted = inl refl }
write_from-IsSent (x ∷ b) before (interrupted ∷ s) = write_from-IsSent (x ∷ b) before s
write_from-IsSent (x ∷ b) before (would_block ∷ s) = record {
  unsent = x ∷ b;
  in_order = refl;
  counted = inl refl;
}
write_from-IsSent (x ∷ b) before (failed ∷ s) = record {
  unsent = x ∷ b;
  in_order = refl;
  counted = inr refl;
}
write_from-IsSent (x ∷ b) before (room w ∷ s) =
    subst (λ all. IsSent all 0 (write_from (drop w (x ∷ b)) (before ++ take w (x ∷ b)) s))
      (append_assoc before (take w (x ∷ b)) (drop w (x ∷ b))
        ∙ ap (λ ys. before ++ ys) (take-append-drop w (x ∷ b)))
      (write_from-IsSent (drop w (x ∷ b)) (before ++ take w (x ∷ b)) s)

pkt_write_lem :
    (k : Bytes) (offset : ℕ) (s : List Room)
    → offset ≤ pkt_len k
    → pkt_write k offset s ≡ write_from (drop offset (take (pkt_len k) k)) [] s
unfolding pkt_write
pkt_write_lem k offset s h = ground arith

-- A call of `pkt_write` within the packet puts bytes on the wire that continue the packet at the
-- offset, whatever the socket does; what is still to be sent is the packet behind the old offset
-- and these bytes; the call counts these bytes, or fails.
pub pkt_write_resumes :
    (k : Bytes) (offset : ℕ) (s : List Room)
    → offset ≤ pkt_len k
    → let r = pkt_write k offset s in
      let packet = take (pkt_len k) k in
      (r.wire ++ drop (offset + length r.wire) packet ≡ drop offset packet)
      × ((r.result ≡ count (length r.wire)) ⊎ (r.result ≡ error io_failure))
pkt_write_resumes k offset s h =
    let packet = take (pkt_len k) k in
    let r = write_from (drop offset packet) [] s in
    let sent = write_from-IsSent (drop offset packet) [] s in
    let left : drop (offset + length r.wire) packet ≡ sent.unsent =
      sym (drop-drop (length r.wire) offset packet)
      ∙ (ap (drop (length r.wire)) (sym sent.in_order) ∙ drop-append_length r.wire sent.unsent) in
    rw (pkt_write_lem k offset s h) (ap (λ ys. r.wire ++ ys) left ∙ sent.in_order, sent.counted)

-- how many bytes the socket takes before it blocks or fails
abbrev pub offered : List Room → ℕ
offered [] = 0
offered (room w ∷ s) = w + offered s
offered (interrupted ∷ s) = offered s
offered (would_block ∷ s) = 0
offered (failed ∷ s) = 0

abbrev all_sent : Bytes → WriteResult
all_sent b = record { wire = b; result = count (length b) }

write_from-all :
    (b before : Bytes) (s : List Room)
    → length b ≤ offered s
    → write_from b before s ≡ all_sent (before ++ b)
unfolding write_from
write_from-all [] before s h = ap all_sent (sym (append-nil before))
write_from-all (x ∷ b) before [] h = absurd (omega arith)
write_from-all (x ∷ b) before (would_block ∷ s) h = absurd (omega arith)
write_from-all (x ∷ b) before (failed ∷ s) h = absurd (omega arith)
write_from-all (x ∷ b) before (interrupted ∷ s) h = write_from-all (x ∷ b) before s h
write_from-all (x ∷ b) before (room w ∷ s) h =
    write_from-all (drop w (x ∷ b)) (before ++ take w (x ∷ b)) s
      (omega (arith, length-drop w (x ∷ b)))
    ∙ ap all_sent (
        append_assoc before (take w (x ∷ b)) (drop w (x ∷ b))
        ∙ ap (λ ys. before ++ ys) (take-append-drop w (x ∷ b)))

-- Where the socket takes as many bytes as the packet has behind the offset, a call of `pkt_write`
-- sends exactly these, and counts them.
pub pkt_write_completes :
    (k : Bytes) (offset : ℕ) (s : List Room)
    → offset ≤ pkt_len k
    → length (drop offset (take (pkt_len k) k)) ≤ offered s
    → let r = pkt_write k offset s in
      let left = drop offset (take (pkt_len k) k) in
      (r.wire ≡ left) × (r.result ≡ count (length left))
pkt_write_completes k offset s h enough =
    let left = drop offset (take (pkt_len k) k) in
    rw (pkt_write_lem k offset s h, write_from-all left [] s enough) (refl, refl)
