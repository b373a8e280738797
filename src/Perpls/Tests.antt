-- ===== src/Perpls/Tests.antt =====
-- Runs of the display.
use perp.Common.{◌≡◌, codes, refl, arith}
use perp.Tain.{Tain}
use perp.Perpd.Conn.{Conn}
use perp.Perpd.Replies.Status.{payload}
use perp.Perpls.{svstat_unpack, fresh_stat}
use perp.Perpls.Display.{IsShowable, shown, svstat_unpack-payload}
use perp.Perpd.Samples.{kernel, service, alive, client, target}

abbrev asker : Conn
asker = client b'Q' target 16

abbrev later : Tain
later = record { sec = 99; nsec = 0 }

alive-IsShowable : IsShowable (alive 50)
alive-IsShowable = ground arith

logger-IsShowable : IsShowable (alive 51)
logger-IsShowable = ground arith

svstat_unpack-payload_example :
    svstat_unpack fresh_stat (payload kernel service asker) later ≡ shown service later
svstat_unpack-payload_example =
    svstat_unpack-payload kernel service asker later alive-IsShowable logger-IsShowable

shown_runs : (shown service later).panel ≡ codes "[+ +++ +++]"
unfolding perp.Tain.tain_uptime
shown_runs = refl
