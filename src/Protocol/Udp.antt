-- ===== src/Protocol/Udp.antt =====
-- protocol/ngx_healthcheck_udp.c: a datagram is sent, and only a refusal counts as a failure.
pub mod Failures
pub mod Sends
pub mod Reads
use nginx_healthcheck_module.Base.{
  ℕ, zero, suc, ◌+◌, ◌/◌, Bool, true, false, not, ◌&&◌, ◌||◌, Option, none, some, length, leb, ◌==◌,
  if◌then◌else◌,
}
use nginx_healthcheck_module.Env.{Env, now}
use nginx_healthcheck_module.Config.{SrvConf}
use nginx_healthcheck_module.Runtime.{Probe, Runtime, Shared}
use nginx_healthcheck_module.Protocol.Ready.{Io, ready, io_ready}

-- The errors that the code tells apart.
pub data Errno : Type 0 where
  eintr eagain econnrefused enomem enobufs emfile enfile : Errno
  other_error : ℕ → Errno

-- What send, recv and getsockopt(SO_ERROR) answer: a length or a pending error, or the error of the call.
pub data Answer : Type 0 where
  bytes : ℕ → Answer
  fails : Errno → Answer

pub data Pending : Type 0 where
  pending : Option Errno → Pending
  query_fails : Errno → Pending

-- The socket of a probe and the event module, at a tick. `write_watched` is
-- `(ngx_event_flags & NGX_USE_LEVEL_EVENT) && connection->write->active`.
pub record Socket : Type 0 where
  pub send : ℕ → Answer
  pub recv : ℕ → Answer
  pub so_error : ℕ → Pending
  pub write_watched : ℕ → Bool
  pub del_write : ℕ → Bool
  pub add_read : ℕ → Bool
  pub add_write : ℕ → Bool

-- What an event leads to: a result for the schedule, a wait for another event, the same event posted
-- again, or an answer other than `ready` of io_ready.
pub data Udp : Type 0 where
  finishes : Bool → Udp
  waits : Udp
  posts : Udp
  leaves : Io → Udp

abbrev pub is_resource : Errno → Bool
is_resource enomem = true
is_resource enobufs = true
is_resource emfile = true
is_resource enfile = true
is_resource _ = false

abbrev pub is_refused : Errno → Bool
is_refused econnrefused = true
is_refused _ = false

-- `waits` is NGX_AGAIN: the error proves nothing.
unfoldable pub udp_error : Env → Probe → Errno → ℕ → Udp
udp_error e p error t = elim (now e t) [
  | none ↦ finishes true
  | some n ↦
      if leb p.deadline (n / 1_000_000)
      then finishes true
      else if p.attempted && is_refused error
      then finishes false
      else if is_resource error
      then finishes true
      else waits
]

unfoldable pub udp_wait_reply : Socket → ℕ → Udp
udp_wait_reply k t =
    if k.write_watched t && not (k.del_write t)
    then finishes true
    else if not (k.add_read (t + 1))
    then finishes true
    else waits

abbrev pub or_wait : Udp → Udp → Udp
or_wait waits next = next
or_wait done next = done

abbrev pub attempted : Probe → Probe
attempted p = record p { attempted = true }

module _ (e : Env) (c : SrvConf) (r : Runtime) (zone : ℕ → Shared) (i : ℕ) (mine : Bool)
    (k : Socket) where
  -- After EINTR.
  abbrev pub go_on : Io → Udp → Udp
  go_on ready next = next
  go_on io next = leaves io

  unfoldable pub after_send : Probe → Answer → ℕ → Udp → Udp
  after_send p (bytes n) t next =
      if n == length c.send then udp_wait_reply k (t + 1) else finishes true
  after_send p (fails eintr) t next = go_on (io_ready e r zone i mine p (t + 1)).0 next
  after_send p (fails eagain) t next = if k.add_write (t + 1) then waits else finishes true
  after_send p (fails error) t next =
      or_wait (udp_error e p error (t + 1)) (udp_wait_reply k (t + 2))

  -- The attempts to send; with none left the event is posted again.
  unfoldable pub send_loop : ℕ → Probe → ℕ → Udp
  send_loop zero p t = posts
  send_loop (suc tries) p t =
      let next = send_loop tries (attempted p) (io_ready e r zone i mine (attempted p) (t + 1)).1 in
      after_send (attempted p) (k.send t) t next

  unfoldable pub udp_write : Probe → ℕ → Udp
  udp_write p t =
      let io = io_ready e r zone i mine p t in
      go_on io.0 (if not p.sending then leaves ready else send_loop 8 p io.1)

  -- What an answer of send leaves of the probe.
  abbrev pub stops_sending : Probe → Udp → Probe
  stops_sending p waits = record p { sending = false }
  stops_sending p done = p

  unfoldable pub send_marks : Probe → Answer → ℕ → Probe → Probe
  send_marks p (bytes n) t next =
      if n == length c.send then record p { sent = true; sending = false } else p
  send_marks p (fails eintr) t next = elim (io_ready e r zone i mine p (t + 1)).0 [
    | ready ↦ next
    | other ↦ p
  ]
  send_marks p (fails eagain) t next = p
  send_marks p (fails error) t next = stops_sending p (udp_error e p error (t + 1))

  unfoldable pub marks_loop : ℕ → Probe → ℕ → Probe
  marks_loop zero p t = p
  marks_loop (suc tries) p t =
      let next =
        marks_loop tries (attempted p) (io_ready e r zone i mine (attempted p) (t + 1)).1 in
      send_marks (attempted p) (k.send t) t next

  -- The probe after udp_write, before what the outcome does.
  unfoldable pub write_marks : Probe → ℕ → Probe
  write_marks p t =
      let io = io_ready e r zone i mine p t in
      let sending = marks_loop 8 p io.1 in
      elim io.0 [ ready ↦ if p.sending then sending else p | other ↦ p ]

  unfoldable pub after_recv : Probe → Answer → ℕ → Udp → Udp
  after_recv p (bytes n) t next = finishes true
  after_recv p (fails eintr) t next = go_on (io_ready e r zone i mine p (t + 1)).0 next
  after_recv p (fails eagain) t next = if k.add_read (t + 1) then waits else finishes true
  after_recv p (fails error) t next =
      or_wait (udp_error e p error (t + 1)) (if k.add_read (t + 2) then waits else finishes true)

  unfoldable pub recv_loop : ℕ → Probe → ℕ → Udp
  recv_loop zero p t = posts
  recv_loop (suc tries) p t =
      let next = recv_loop tries p (io_ready e r zone i mine p (t + 1)).1 in
      after_recv p (k.recv t) t next

  unfoldable pub after_query : Probe → Pending → ℕ → Udp → Udp
  after_query p (pending none) t next = recv_loop 8 p (t + 1)
  after_query p (pending (some error)) t next =
      or_wait (udp_error e p error (t + 1)) (recv_loop 8 p (t + 2))
  after_query p (query_fails eintr) t next = go_on (io_ready e r zone i mine p (t + 1)).0 next
  after_query p (query_fails error) t next = finishes true

  unfoldable pub query_loop : ℕ → Probe → ℕ → Udp
  query_loop zero p t = posts
  query_loop (suc tries) p t =
      let next = query_loop tries p (io_ready e r zone i mine p (t + 1)).1 in
      after_query p (k.so_error t) t next

  unfoldable pub udp_read : Probe → ℕ → Udp
  udp_read p t = let io = io_ready e r zone i mine p t in go_on io.0 (query_loop 8 p io.1)
