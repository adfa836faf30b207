-- ===== src/Schedule/Finish.antt =====
-- ngx_healthcheck_finish: the result of a round is fixed in its probe, submitted, and its I/O ended.
pub mod Settles
use nginx_healthcheck_module.Base.{
  ℕ, ◌+◌, ◌-◌, ◌/◌, ◌%◌, ◌^◌, Bool, true, false, not, ◌&&◌, ◌||◌, Option, none, some, ◌==◌, min,
  if◌then◌else◌, u64_max,
}
use nginx_healthcheck_module.Env.{Env, now}
use nginx_healthcheck_module.Config.{SrvConf, is_tcp}
use nginx_healthcheck_module.Runtime.{Rc, ok, declined, Probe, Connection, Runtime, Shared}
use nginx_healthcheck_module.Schedule.Submit.{Submitted, submit}
use nginx_healthcheck_module.Protocol.Cleanup.{Events, probe_cleanup}

-- A delay is a sample only on a TCP connection that this round opened.
abbrev pub is_fresh : Option Connection → Bool
is_fresh none = false
is_fresh (some k) = k.requests == 0

abbrev pub sampled : Probe → Bool → Option ℕ → Probe
sampled p false reading = record p { sample = false }
sampled p true none = record p { sample = false }
sampled p true (some n) = record p {
  sample = true;
  delay = min ((n / 1_000_000 + 2 ^ 64 - p.started) % 2 ^ 64) u64_max;
}

unfoldable pub resolve : Env → SrvConf → Probe → Bool → ℕ → Probe
resolve e c p result t =
    let fixed : Probe = record p { active = false; pending = true; result = result } in
    let sample = result && is_tcp c.check_type && is_fresh p.connection in
    if not p.active || p.pending then p else sampled fixed sample (now e t)

-- What ngx_healthcheck_finish comes to: the answer of the submission, if there was one.
pub record Finished : Type 0 where
  pub rc : Option Rc
  pub shared : Shared
  pub probe : Probe
  pub check_timer : Option ℕ
  pub tick : ℕ

abbrev pub is_rc_ok : Rc → Bool
is_rc_ok ok = true
is_rc_ok _ = false

-- A result that is refused is dropped, one that could not be submitted now stays pending.
abbrev pub dropped : Rc → Probe → Probe
dropped declined p = record p { pending = false }
dropped _ p = p

-- connection->requests++
abbrev pub one_more : Option Connection → Option Connection
one_more none = none
one_more (some k) = some (record k { requests = k.requests + 1 })

abbrev pub count_request : Bool → Probe → Probe
count_request false p = p
count_request true p = record p { connection = one_more p.connection }

unfoldable pub submitted : Events → SrvConf → Bool → Submitted → Finished
submitted b c result k =
    let counted = count_request result (dropped k.rc k.probe) in
    let clean = probe_cleanup b c counted (is_rc_ok k.rc && result) k.tick in
    record {
      rc = some k.rc;
      shared = k.shared;
      probe = clean.probe;
      check_timer = k.check_timer;
      tick = clean.tick;
    }

unfoldable pub finish : Env → Events → SrvConf → Runtime → Probe → Shared → ℕ → Bool → ℕ → Finished
finish e b c r p sh i result t =
    if not p.active || p.pending
    then record { rc = none; shared = sh; probe = p; check_timer = none; tick = t }
    else submitted b c result (submit e c r (resolve e c p result t) sh i 0 (t + 1))
