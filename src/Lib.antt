-- ===== src/Lib.antt =====
-- perp: persistent process supervision. This library models the supervisor perpd, the logger
-- tinylog, two of the clients of perpd, and routines of the lasagna library.
--
-- perpd watches a base directory. Each subdirectory with the sticky bit is a service: a main
-- script and, where there is one, a logger's script, each started, restarted when it ends, and
-- reset in between. Clients connect over a local socket and send control requests and status
-- queries. tinylog is run as such a logger's script: it writes the lines of its input to a file,
-- `current`, which it rotates by size into archives of which it keeps so many. The databases of
-- lasagna/cdb stand alone.
--
-- Files, and what they model:
--   Common             shared names, lists over native numbers, Boolean tests
--   Upak               lasagna/upak: integers as bytes, low byte first
--   Tain               lasagna/tain.h, lasagna/tain: timestamps
--   Nfmt, Nuscan       lasagna/nfmt, lasagna/nuscan: numbers as text
--   Pkt                lasagna/pkt.h, lasagna/pkt: packets of up to 258 bytes
--   Perpd/Types        perp/perpd.h: struct subsv, struct svdef, the variables of perpd.c that the
--                      subroutines share, and the kernel
--   Perpd/Run          perp/perpd_svdef.c: perpd_svdef_run, with what the child does before its exec
--   Perpd/Svdef        perp/perpd_svdef.c: the other routines, perpd_svdef_activate to _cullok
--   Perpd/Cull         perp/perpd.c: perpd_cull, perpd_lookup
--   Perpd/Reap         perp/perpd.c: perpd_waitup
--   Perpd/Scan         perp/perpd.c: perpd_svdir_stat, perpd_scan
--   Perpd/Control      perp/perpd_conn.c: do_kill, do_control
--   Perpd/Conn         perp/perpd_conn.c: the other routines
--   Perpd/Sockets      perp/perpd.c: what perpd_mainloop does with its clients
--   Perpd/Mainloop     perp/perpd.c: sig_trap, and one round of perpd_mainloop
--   Cstr               lasagna/cstr/cstr_cmp.c, cstr_ncmp.c: the order of strings
--   Cstr/Trim          lasagna/cstr/cstr_trim.c, cstr_ltrim.c, cstr_rtrim.c, and what they leave alone
--   Tinylog            perp/tinylog.c: tinylog_post, rotation, archives, gzip, on a directory
--   Tinylog/Line       perp/tinylog.c: the inner loop of do_log
--   Tinylog/Archive    perp/tinylog.c: tinylog_prune
--   Tinylog/Loop       perp/tinylog.c: init_current, do_log
--   Cdb                lasagna/cdb.h, lasagna/cdb: cdb_init, cdb_read, cdb_get, cdb_distance
--   Cdb/Hash           lasagna/cdb/cdb_hashpart.c
--   Cdb/Find           lasagna/cdb/cdb_find.c, lasagna/buf/buf_cmp.c
--   Cdb/Seq            lasagna/cdb/cdb_seq.c
--   Cdb/Make           lasagna/cdb/cdbmk_init.c, cdbmk_add.c, cdbmk__update.c
--   Cdb/Finish         lasagna/cdb/cdbmk_finish.c
--   Hfunc              lasagna/hfunc: hash functions, less those with tables and hfunc_murm,
--                      hfunc_rsuh, hfunc_sfh1
--   Nextopt            lasagna/nextopt/nextopt.c, lasagna/cstr/cstr_pos.c: options
--   Perpls             perp/perpls.c: svstat_unpack, the panel made of a status reply
--   Newenv             lasagna/newenv/newenv.c: the environment of a program that is run
--   Runenv             runtools/runenv.c: variables from the lines of a file
--   Runlimit           runtools/runlimit.c: limits from options, a file and the environment
--   Client             perp/perpok.c and perp/perpctl.c: requests, and what is made of the replies
--   Dynstuf            lasagna/dynstuf.h, lasagna/dynstuf: vectors of pointers
--   Dynstr             lasagna/dynstr.h, lasagna/dynstr: strings that grow
--   Ioq                lasagna/ioq.h, lasagna/ioq/ioq_get.c, ioq_put.c, ioq_vputs_.c, and
--                      lasagna/buf/buf_rcopy.c: buffered input and output
-- The other files hold proofs: Upak/RoundTrip, Tain/Arithmetic, Tain/Label, Nfmt/Width,
-- Nuscan/RoundTrip, Pkt/Read, Pkt/Write; Perpd/Run/Outcome, Governor and ResetArgs on a single
-- run; Perpd/Cull/Harvest on the harvest of services; Perpd/Supervision, Perpd/Invariant and
-- Perpd/Rounds on what each operation, the vector of services and a round of the main loop
-- preserve; Perpd/Deactivation on the end of a service; Perpd/Commands and Perpd/Replies on
-- requests; Perpls/Display on the panel of a reply that perpd made; Tinylog/Clipped, Lines, Sizes, Least, Oldest,
-- Rotation, Kept, Collisions, Returns and Written on the lines of tinylog, on the size of its log, on pruning, on
-- rotation, on its return and on what it writes; Cdb/Arrays on arrays, Cdb/Key, Probe and Hits on searches,
-- Cdb/Table and Reach on a subtable, Cdb/Added, Walk and Stream on the records of a database that was made;
-- Hfunc/Same on hashes that are others; Client/Wire, Ok and Control on perpok and perpctl against
-- perpd; Dynstuf/Reverse, Vector, Calls and Client on vectors as lists; Dynstr/Content, Calls and
-- Client on strings that grow as lists of bytes; Ioq/Copy on overlapping copies, Ioq/Feed and Get on input,
-- Ioq/Put, Routines and Client on output; Cstr/Order on comparisons; Newenv/Names and Set on variables that are
-- set; Runenv/Escape on values that are escaped; Runlimit/Entry, Sources and Precedence on where a limit is
-- taken from; Nextopt/Cursor and Progress on the end of the options.
-- The modules named Tests hold runs at concrete inputs, on the states of Perpd/Samples.
--
-- State. A routine that changes file scope variables takes and returns `Globals`: the flags, a
-- count of the questions put to the kernel, and the trace of effects (kill, close, spawn, sleep,
-- the byte into the selfpipe), the latest first. The arrays `svdefs` and `clients` are lists of
-- their first `nservices` and `nconns` elements. The kernel is a record of functions, `Env`: the
-- n-th question is answered by the function at n, so that nothing is assumed of it but what a
-- theorem names. The bit fields are Boolean fields, and are put together where they are sent.
-- What a socket gives or takes is an explicit list of events. One round of the main loop takes
-- the signals, the ended children, the directory and the sockets' events that it meets as
-- `Events`. tinylog takes and returns its variables and a `Disk`, which holds the log and the
-- archives; the stamps of the clock and the compressed form of a file are functions that it is
-- given. A database is the list of the bytes of its file. What malloc and realloc give is a function of the
-- number of bytes, and what is in memory that they add is some byte or pointer.
--
-- Integers are natural numbers, with the wrap at 16, 32 and 64 bits written out where the source
-- computes. The loops of lasagna/nfmt run on n + 1 rounds of fuel, more than n has digits; the
-- loops of perpd_cull and of the cull of connections on the length of the list, which each round
-- shortens; do_log on the length of its input and one more round, since each round but the last
-- takes a newline off it; the loop around link in tinylog on as many collisions as its argument
-- `patience` says; a search in a database on the slots of the subtable, each of which it visits
-- once at most; the comparison of keys on the length of the key; tbuf_load on the slots of the
-- subtable, where it finds an empty one if there is one; the loop of dynstuf_reverse on the second
-- of its indices; the loops of ioq_put on one round more than there are bytes, since each round
-- writes some, and those of ioq_putfill on two more.
--
-- Not modelled: log messages; `main` and `perpd_control_init` (options and set-up); the waiting
-- in poll; what a script does; `tain_to_float`; the options and signals of tinylog and the text
-- of its stamp; and the parts of perp that are programs of their own: the rest of perpls, of
-- perpok and of perpctl, the clients perpstat, perphup and perpboot, the logger sissylog, and the
-- runtools but for runlimit and the file of runenv, of which the lines are an argument. The sockets that carry requests and replies are lasagna/pkt's, and the theorems on clients
-- have the packets read whole.
-- Of cdb, the reader without a map and into growing buffers, cdbmk_addrec and cdbmk_addioq, and
-- failures of memory and of the output queue. Of ioq, ioq_getln,
-- ioq_putfile and the standard streams; of dynstuf, its sort. Of lasagna, the modules not named above.
pub mod Common
pub mod Upak
pub mod Cstr
pub mod Cdb
pub mod Hfunc
pub mod Dynstuf
pub mod Dynstr
pub mod Ioq
pub mod Nextopt
pub mod Newenv
pub mod Tain
pub mod Nfmt
pub mod Nuscan
pub mod Pkt
pub mod Perpd
pub mod Perpls
pub mod Client
pub mod Runenv
pub mod Runlimit
pub mod Tinylog
