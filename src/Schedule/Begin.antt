-- ===== src/Schedule/Begin.antt =====
-- ngx_healthcheck_begin: the check timer of a peer has fired.
pub mod Armed
use nginx_healthcheck_module.Base.{
  ℕ, ◌+◌, Bool, true, false, ◌||◌, Option, none, some, ◌==◌, if◌then◌else◌,
}
use nginx_healthcheck_module.Time.{timer_delay}
use nginx_healthcheck_module.Env.{Env}
use nginx_healthcheck_module.Config.{SrvConf}
use nginx_healthcheck_module.Runtime.{Rc, ok, again, declined, error, busy, Probe, Runtime, Shared}
use nginx_healthcheck_module.Protocol.Cleanup.{Events, probe_cleanup}
use nginx_healthcheck_module.Protocol.Round.{Wires, Ran, start_round}
use nginx_healthcheck_module.Schedule.Claim.{Claimed, claim}
use nginx_healthcheck_module.Schedule.Stop.{is_stopping}

-- NGX_HEALTHCHECK_CLAIM_RETRY_MS and NGX_HEALTHCHECK_BUSY_RETRY_MS.
abbrev pub claim_retry_ms : ℕ
claim_retry_ms = 10

abbrev pub busy_retry_ms : ℕ
busy_retry_ms = 100

-- `stops` tells that ngx_healthcheck_runtime_stop has been called, `starts` that a round has been
-- begun, and `answer` what a submission of its result has answered, if it has come to one already.
pub record Began : Type 0 where
  pub stops : Bool
  pub starts : Bool
  pub answer : Option Rc
  pub shared : Shared
  pub probe : Option Probe
  pub check_timer : Option ℕ
  pub tick : ℕ

abbrev pub is_busy : Option Probe → Bool
is_busy none = false
is_busy (some p) = p.active || p.pending

abbrev pub rearmed : Claimed → Option ℕ → Began
rearmed k timer = record {
  stops = k.stops;
  starts = false;
  answer = none;
  shared = k.shared;
  probe = k.probe;
  check_timer = timer;
  tick = k.tick;
}

-- A timer that is set anew, or left as it is.
abbrev pub or_else : Option ℕ → Option ℕ → Option ℕ
or_else none old = old
or_else (some delay) old = some delay

module _ (e : Env) (b : Events) (c : SrvConf) (r : Runtime) (others : ℕ → Shared → Shared) (i : ℕ)
    (w : Wires) where
  -- A worker that may not claim the peer gives it up.
  abbrev pub given_up : Claimed → Option Probe → Began
  given_up k none = rearmed k none
  given_up k (some p) =
      let clean = probe_cleanup b c p false k.tick in
      record (rearmed k none) { probe = some clean.probe; tick = clean.tick }

  -- The round of a claim that was granted is begun before the claim returns.
  abbrev pub started : Claimed → Option Probe → Began
  started k none = rearmed k k.check_timer
  started k (some p) =
      let x = start_round e b c r others i w p k.shared k.tick in
      record {
        stops = x.stopping;
        starts = true;
        answer = x.answer;
        shared = x.shared;
        probe = some x.probe;
        check_timer = or_else x.check_timer k.check_timer;
        tick = x.tick;
      }

  -- What follows the claim `k` by its answer.
  unfoldable pub after_claim : Claimed → Rc → Began
  after_claim k ok = started k k.probe
  after_claim k declined = given_up k k.probe
  after_claim k again =
      rearmed k (some (timer_delay (if k.wait == 0 then claim_retry_ms else k.wait)))
  after_claim k error = rearmed k (some (timer_delay c.check_interval))
  after_claim k busy = rearmed k (some (timer_delay c.check_interval))

  unfoldable pub begin : Option Probe → Shared → ℕ → Began
  begin p sh t =
      let k = claim e c r p (others (t + 1) sh) i none 0 (t + 1) in
      let next = after_claim k k.rc in
      let left : Began = record {
        stops = false;
        starts = false;
        answer = none;
        shared = sh;
        probe = p;
        check_timer = none;
        tick = t + 1;
      } in
      if is_stopping e r t
      then record left { stops = true }
      else if is_busy p
      then record left { check_timer = some (timer_delay busy_retry_ms) }
      else next
