-- ===== src/Perpd/Tests/Requests.antt =====
-- Runs of requests.
use perp.Common.{refl, List, [], ◌∷◌, ◌++◌, arith}
use perp.Perpd.Types.{Svdef}
use perp.Perpd.Samples.{service, client, target, alive}
use perp.Perpd.Conn.{Conn}
use perp.Perpd.Replies.Status.{Fits}
use perp.Perpd.Replies.Requests.{Asks}

abbrev asking : Conn
asking = client b'Q' target 16

abbrev pausing : Conn
pausing = client b'C' (target ++ (b'p' ∷ 0 ∷ [])) 18

abbrev one : List Svdef
one = service ∷ []

alive-Fits : Fits (alive 50)
alive-Fits = ground arith

logger-Fits : Fits (alive 51)
logger-Fits = ground arith

asking-Asks : Asks b'Q' 19 one 0 asking
unfolding perp.Upak.upak64_unpack perp.Perpd.Cull.perpd_lookup
asking-Asks = record {
  proto_2 = refl;
  of_kind = refl;
  of_size = refl;
  complete = refl;
  found = refl;
}

pausing-Asks : Asks b'C' 21 one 0 pausing
unfolding perp.Upak.upak64_unpack perp.Perpd.Cull.perpd_lookup
pausing-Asks = record {
  proto_2 = refl;
  of_kind = refl;
  of_size = refl;
  complete = refl;
  found = refl;
}
