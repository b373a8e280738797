-- ===== src/Perpd.antt =====
-- perp/perpd.h, perp/perpd_svdef.c, perp/perpd_conn.c and perp/perpd.c: the supervisor.
pub mod Types
pub mod Run
pub mod Svdef
pub mod Cull
pub mod Reap
pub mod Control
pub mod Conn
pub mod Scan
pub mod Sockets
pub mod Mainloop
pub mod Supervision
pub mod Invariant
pub mod Rounds
pub mod Deactivation
pub mod Commands
pub mod Replies
pub mod Samples
mod Tests
