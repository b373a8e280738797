-- ===== src/Pkt/Tests.antt =====
-- Runs of the packet routines.
use perp.Common.{
  ◌+◌, ◌≡◌, ◌⊎◌, refl, List, [], ◌∷◌, ◌++◌, Bytes, arith, length, take, drop, replicate,
}
use perp.Common.{store}
use perp.Pkt.{
  Arrival, chunk, interrupted, would_block, room, count, error, io_failure, pkt_read, pkt_write,
}
use perp.Pkt.Read.{Received, pkt_read-Received}
use perp.Pkt.Write.{pkt_write_resumes}
use perp.Pkt.Read.Whole.{IsPacket, IsWhole, pkt_read-IsWhole}

abbrev blank : Bytes
blank = replicate 258 0

-- a packet with two bytes of data
abbrev packet : Bytes
packet = store blank 0 (2 ∷ b'E' ∷ 2 ∷ 8 ∷ 9 ∷ [])

-- the rest of that packet, in pieces
abbrev pieces : List Arrival
pieces = chunk (b'E' ∷ []) ∷ interrupted ∷ chunk (2 ∷ 8 ∷ []) ∷ would_block ∷ chunk (9 ∷ []) ∷ []

pkt_write_resumes_example :
    let r = pkt_write packet 1 (interrupted ∷ room 2 ∷ would_block ∷ []) in
    (r.wire ++ drop (1 + length r.wire) (take 5 packet) ≡ b'E' ∷ 2 ∷ 8 ∷ 9 ∷ [])
    × ((r.result ≡ count (length r.wire)) ⊎ (r.result ≡ error io_failure))
pkt_write_resumes_example =
    pkt_write_resumes packet 1 (interrupted ∷ room 2 ∷ would_block ∷ []) (omega arith)

pkt_read-Received_example :
    Received (2 ∷ b'E' ∷ 2 ∷ 8 ∷ 9 ∷ []) 1 (pkt_read (store blank 0 (2 ∷ [])) 1 pieces)
pkt_read-Received_example = pkt_read-Received (store blank 0 (2 ∷ [])) 1 pieces refl (omega arith)

abbrev bytes : Bytes
bytes = 2 ∷ b'E' ∷ 2 ∷ 8 ∷ 9 ∷ []

bytes-IsPacket : IsPacket bytes
bytes-IsPacket = ground arith

-- the rest of that packet, with nothing that blocks
abbrev stream : List Arrival
stream = chunk (b'E' ∷ []) ∷ interrupted ∷ chunk (2 ∷ 8 ∷ 9 ∷ []) ∷ []

pkt_read-IsWhole_example : IsWhole bytes 1 (pkt_read (store blank 0 (2 ∷ [])) 1 stream)
pkt_read-IsWhole_example =
    pkt_read-IsWhole bytes (store blank 0 (2 ∷ [])) 1 stream bytes-IsPacket (ground arith) refl
      (omega arith) refl
