-- ===== src/Protocol/Udp/Failures.antt =====
-- A UDP check fails only on a refusal that its own datagram has met, before the deadline.
use nginx_healthcheck_module.Base.{
  ℕ, ◌/◌, ◌<◌, ◌≡◌, ◌≢◌, refl, inl, inr, Bool, true, false, some, arith, Option-cases,
}
use nginx_healthcheck_module.Env.{Env, now}
use nginx_healthcheck_module.Config.{SrvConf}
use nginx_healthcheck_module.Runtime.{Probe, Runtime, Shared}
use nginx_healthcheck_module.Protocol.Ready.{Io, ready, idle, stops, lost, late}
use nginx_healthcheck_module.Protocol.Udp.{
  Errno, eintr, eagain, econnrefused, enomem, enobufs, emfile, enfile, other_error, Socket, Udp,
  finishes, waits, posts, leaves, is_refused, udp_error, udp_wait_reply, or_wait, go_on,
}

-- A refusal that counts: read before the deadline, after an attempt to send.
pub record Counts (e : Env) (p : Probe) (error : Errno) (t : ℕ) : Type 0 where
  pub reading : ℕ
  pub read : now e t ≡ some reading
  pub in_time : reading / 1_000_000 < p.deadline
  pub after_attempt : p.attempted ≡ true
  pub refusal : error ≡ econnrefused

refused_only : (error : Errno) → is_refused error ≡ true → error ≡ econnrefused
refused_only econnrefused h = refl
refused_only eintr h = absurd (ground arith)
refused_only eagain h = absurd (ground arith)
refused_only enomem h = absurd (ground arith)
refused_only enobufs h = absurd (ground arith)
refused_only emfile h = absurd (ground arith)
refused_only enfile h = absurd (ground arith)
refused_only (other_error n) h = absurd (ground arith)

pub udp_error-Counts :
    (e : Env) (p : Probe) (error : Errno) (t : ℕ)
    → udp_error e p error t ≡ finishes false
    → Counts e p error t
unfolding udp_error
udp_error-Counts e p error t h = elim (Option-cases (now e t)) [
  | inl no_clock ↦ absurd (ground arith)
  | inr (n, read) ↦ record {
    reading = n;
    read = read;
    in_time = ground arith;
    after_attempt = ground arith;
    refusal = refused_only error (ground arith);
  }
]

pub wait_reply-ne-false : (k : Socket) (t : ℕ) → udp_wait_reply k t ≢ finishes false
unfolding udp_wait_reply
wait_reply-ne-false k t = λ h. absurd (ground arith)

pub or_wait-false :
    (u next : Udp) → or_wait u next ≡ finishes false → next ≢ finishes false → u ≡ finishes false
or_wait-false (finishes b) next h no_next = h
or_wait-false waits next h no_next = absurd (no_next h)
or_wait-false posts next h no_next = h
or_wait-false (leaves io) next h no_next = h

module _ (e : Env) (c : SrvConf) (r : Runtime) (zone : ℕ → Shared) (i : ℕ) (mine : Bool)
    (k : Socket) where
  pub go_on-false :
      (io : Io) (next : Udp)
      → go_on e c r zone i mine k io next ≡ finishes false
      → next ≡ finishes false
  go_on-false ready next h = h
  go_on-false idle next h = absurd (ground arith)
  go_on-false stops next h = absurd (ground arith)
  go_on-false lost next h = absurd (ground arith)
  go_on-false late next h = absurd (ground arith)
