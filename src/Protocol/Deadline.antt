-- ===== src/Protocol/Deadline.antt =====
-- A time-out fixes a result only when the clock has reached the deadline of the round.
use nginx_healthcheck_module.Base.{
  ℕ, ◌+◌, ◌/◌, ◌≤◌, ◌≡◌, refl, Bool, true, false, not, Option, none, some, arith,
}
use nginx_healthcheck_module.Env.{Env, now}
use nginx_healthcheck_module.Config.{SrvConf, is_tcp}
use nginx_healthcheck_module.Runtime.{Probe, Runtime, Shared}
use nginx_healthcheck_module.Schedule.Owned.{probe_valid}
use nginx_healthcheck_module.Protocol.Ready.{finished, timeout_at, timeout}

timeout_at-finished :
    (c : SrvConf) (p : Probe) (o : Option ℕ) (b : Bool)
    → timeout_at c p o ≡ finished b
    → (n : ℕ) × (o ≡ some n) × (p.deadline ≤ n / 1_000_000) × (b ≡ not (is_tcp c.check_type))
unfolding timeout_at
timeout_at-finished c p none b h = absurd (ground arith)
timeout_at-finished c p (some n) b h = (n, refl, ground arith, ground arith)

-- A time-out that fixes a result has read a clock at or past the deadline of a round that is active and
-- not pending; the result is a failure for TCP and a success for UDP.
pub timeout-finished :
    (e : Env) (c : SrvConf) (r : Runtime) (zone : ℕ → Shared) (i : ℕ) (p : Probe) (t : ℕ) (b : Bool)
    → timeout e c r zone i p t ≡ finished b
    → (p.active ≡ true)
      × (p.pending ≡ false)
      × ((u n : ℕ) × (now e u ≡ some n) × (p.deadline ≤ n / 1_000_000))
      × (b ≡ not (is_tcp c.check_type))
unfolding timeout
timeout-finished e c r zone i p t b h =
    let v = probe_valid e r p (zone t) i (t + 1) in
    let at : timeout_at c p (now e v.1) ≡ finished b = ground arith in
    let (n, read, past, kind) = timeout_at-finished c p (now e v.1) b at in
    (ground arith, ground arith, (v.1, n, read, past), kind)
