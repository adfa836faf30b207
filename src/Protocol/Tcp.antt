-- ===== src/Protocol/Tcp.antt =====
-- protocol/ngx_healthcheck_tcp.c: the check of a connection, and what a kept connection receives
-- between rounds.
pub mod Idle
pub mod Peek
use nginx_healthcheck_module.Base.{
  ℕ, zero, suc, ◌+◌, ◌-◌, ◌^◌, ◌≤◌, ◌≡◌, Bool, true, false, not, ◌||◌, Option, none, some, ltb,
  ◌==◌, if◌then◌else◌, u64,
}
use nginx_healthcheck_module.Env.{Env}
use nginx_healthcheck_module.Runtime.{Probe, Runtime, Shared}
use nginx_healthcheck_module.Schedule.Owned.{probe_valid}
use nginx_healthcheck_module.Protocol.Ready.{Io, ready, io_ready, is_declined}
use nginx_healthcheck_module.Protocol.Udp.{
  Errno, eintr, eagain, Answer, bytes, fails, Udp, finishes, leaves,
}

-- NGX_HEALTHCHECK_IDLE_DISCARD_MAX.
abbrev pub discard_max : ℕ
discard_max = 4096

-- A connection: recv by its size and tick, which gives no more bytes than it was asked for; recv with
-- MSG_PEEK of one byte; and the event module.
pub record Stream : Type 0 where
  pub recv : ℕ → ℕ → Answer
  pub recv_fits : (size t n : ℕ) → recv size t ≡ bytes n → n ≤ size
  pub peek : ℕ → Answer
  pub add_read : ℕ → Bool

-- NGX_OK or not.
unfoldable pub tcp_peek : Answer → Bool
tcp_peek (bytes n) = n == 1
tcp_peek (fails eagain) = true
tcp_peek (fails _) = false

-- The result that an event gives the schedule, unless io_ready has answered NULL.
unfoldable pub tcp_event : Env → Runtime → (ℕ → Shared) → ℕ → Bool → Stream → Probe → ℕ → Udp
tcp_event e r zone i mine k p t =
    let io = io_ready e r zone i mine p t in
    elim io.0 [ ready ↦ finishes (tcp_peek (k.peek io.1)) | other ↦ leaves other ]

-- What becomes of a kept connection. `drained` keeps it, with the bytes discarded so far.
pub data IdleEnd : Type 0 where
  ignored stopped closed : IdleEnd
  drained : ℕ → IdleEnd

-- The size of the next read: one byte more than may still be discarded, in 64 bits.
abbrev pub recv_size : ℕ → ℕ
recv_size discarded = u64 (discard_max + 2 ^ 64 - discarded + 1)

-- What follows an answer of recv, where `next` goes on with the bytes discarded so far.
unfoldable pub after_idle : Stream → Answer → ℕ → ℕ → (ℕ → Option IdleEnd) → Option IdleEnd
after_idle k (bytes zero) discarded t next = some closed
after_idle k (bytes (suc n)) discarded t next =
    let total = discarded + suc n in
    let more = next total in if ltb discard_max total then some closed else more
after_idle k (fails eintr) discarded t next = next discarded
after_idle k (fails eagain) discarded t next =
    if k.add_read (t + 1) then some (drained discarded) else some closed
after_idle k (fails _) discarded t next = some closed

-- `none` is fuel that ran out.
unfoldable pub idle_loop : Stream → ℕ → ℕ → ℕ → Option IdleEnd
idle_loop k zero discarded t = none
idle_loop k (suc fuel) discarded t =
    after_idle k (k.recv (recv_size discarded) t) discarded t (λ d. idle_loop k fuel d (t + 1))

-- `gone` stands for `connection->close || event->timedout`.
unfoldable pub tcp_idle :
    Env → Runtime → (ℕ → Shared) → ℕ → Bool → Bool → Stream → ℕ → Probe → ℕ → Option IdleEnd
tcp_idle e r zone i mine gone k fuel p t =
    let v = probe_valid e r p (zone t) i (t + 1) in
    if not mine
    then some ignored
    else if r.stopping || e.quitting t
    then some stopped
    else if gone || is_declined v.0
    then some closed
    else idle_loop k fuel p.discarded v.1
