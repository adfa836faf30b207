-- ===== src/Lib.antt =====
-- Active health checks for nginx upstreams: a model of the module's C code, on a 64-bit platform.
--
-- Every worker process of nginx runs the same schedule over a shared zone. A peer belongs to a worker;
-- its state lies in the zone in two slots and a word that names the valid one. A worker claims a round
-- of a peer when it is due, or takes one over from a worker that let its deadline pass, probes the
-- peer over TCP or UDP, and submits the result, which moves the peer's health. The selection of
-- servers reads one bit of the word. A reload builds a new zone and inherits the states of the peers
-- whose identity is unchanged. The status page collects the states in batches.
--
-- Base: tests on numbers, lists, byte strings and facts on 64-bit words, shared by all.
-- Time, Lock, Slots (runtime/ngx_healthcheck_state.c): saturating times; taking a mutex, whose holder
--   may be dead; the two slots. State has the records of runtime/ngx_healthcheck_state.h.
-- Env: the answers of the system: clock, trylock, kill, process flags, pool memory. Each is a function
--   of the number of the call, its tick, so a theorem holds whatever other processes do in between.
--   `patience` and `progress` say that the monotonic clock reaches every limit in the end; the fuel of
--   the lock loop comes from there.
-- Config (common.h.in), Config/Finish and Config/Read (configuration/ngx_healthcheck_config.c): the check
--   directive, argument by argument, and the constraints between the arguments. ConfLib has what
--   nginx reads numbers, times and words with. A directive that is refused leaves no configuration,
--   since nginx then stops; the fields that it has written by then are not kept.
-- Runtime (runtime/ngx_healthcheck_runtime.h): what one process keeps, and the zone.
-- Delay (ngx_healthcheck_common.c, update_delay) and Health (runtime/ngx_healthcheck_schedule.c, in
--   submit): the statistics of delays, and the counters and the down bit.
-- Schedule (runtime/ngx_healthcheck_schedule.c): Register, Owned (owned_lock, probe_valid,
--   probe_waiting), Claim, Submit, Finish, Begin (the check timer), Start (runtime_init), Stop
--   (runtime_stop), Watch, and Preferred, with ngx_murmur_hash2 as a parameter. In Begin and
--   in Watch a claim that is granted begins its round at once, and Watch resumes a round of its worker,
--   up to what Protocol/Round does; the other processes change the zone before each step. Where an
--   operation calls runtime_stop, a flag tells so; Watch then stops the process, by Stop, before it
--   goes on to the next peer. An operation takes the shared zone and gives the one that it
--   leaves: it holds the locks of all that it reads and writes. An effect of
--   recover_lock shows in the later answers of trylock.
-- Rounds: systems of processes over one zone; a run is a list of operations in any order.
-- Identity (ngx_healthcheck_common.c): the index over the records of an old zone, the search for the
--   newest zone, and the copy of an identity. The parts of the list of zones are one list.
-- Config/Peers (configuration/ngx_healthcheck_config.c): add_peer and check_shm_size.
-- Zone (runtime/ngx_healthcheck_zone.c): the loop of init_zone over the peers of a new zone; Zone/Init
--   is init_zone as a whole, and Zone/Configure configure_zone. The sizes of the shared records and the
--   memory of an old zone are parameters.
-- Modules (ngx_http_upstream_check_module.c, ngx_stream_upstream_check_module.c): enabled, add_peer and
--   peer_down, which nginx calls, and the hooks of its processes.
-- Status/Writer (ngx_healthcheck_status_writer.c): the chain of blocks, with the length of the bytes as
--   fuel of its loop, which copies at least one in a turn. Writer/Printf
--   reads a format byte by byte and takes its arguments from a list. Status/Snapshot
--   (status/ngx_healthcheck_snapshot.c): the collection of the rows.
-- Status/Formats (ngx_healthcheck_status.c, status/ngx_healthcheck_legacy.c): the pages as calls of
--   printf, and their documents. Status/Page (also ngx_http_upstream_check_module.c): directives,
--   arguments and handlers. Status/Request (status/ngx_healthcheck_request.c): a request collects in
--   batches, waits for its timer, and answers; its loop over the sources has their number as fuel.
-- Protocol (protocol/): Ready (ngx_healthcheck_probe.c) has io_ready and the time-out, Cleanup and Start
--   the end and the begin of a round on its connection; Round has what that and probe_resume call
--   themselves, the time-out, the handlers of the connection and finish; Udp
--   (ngx_healthcheck_udp.c) both events of a UDP check, over the answers of the socket, and the result
--   that they hand to finish; Tcp (ngx_healthcheck_tcp.c) the peek and the idle connection. No lock is
--   held between their calls, so the shared zone is a function of the tick. recv may be interrupted any
--   number of times in a row, so the fuel of the idle loop is for the interruptions and the bytes.
-- Examples: the theorems at concrete values.
--
-- An ngx_uint_t that only holds 0 or 1 is a Bool, a pid_t is its 32-bit pattern, a byte string is a
-- list. A statistic that overflows is dropped by its caller, and so has no value here.
--
-- Not modelled: log texts; posted events; the
-- read events of a request that waits; the layout of slab memory; the tables of directives of the two
-- modules.

pub mod Base
pub mod Time
pub mod Env
pub mod Lock
pub mod State
pub mod Slots
pub mod Config
pub mod Runtime
pub mod Health
pub mod Schedule
pub mod Rounds
pub mod Identity
pub mod Status
pub mod Modules
pub mod Zone
pub mod Protocol
pub mod Examples
pub mod Delay
