-- ===== src/Protocol/Ready.antt =====
-- protocol/ngx_healthcheck_probe.c: what an event and a time-out find out before they act.
use nginx_healthcheck_module.Base.{
  ℕ, ◌+◌, ◌-◌, ◌/◌, Bool, true, false, not, ◌||◌, Option, none, some, leb, ltb, if◌then◌else◌,
}
use nginx_healthcheck_module.Time.{timer_delay}
use nginx_healthcheck_module.Env.{Env, now}
use nginx_healthcheck_module.Config.{SrvConf, is_tcp}
use nginx_healthcheck_module.Runtime.{Rc, ok, declined, Probe, Runtime, Shared}
use nginx_healthcheck_module.Schedule.Owned.{probe_valid}

-- `ready` goes on with the probe. Of the answers NULL, `idle` has done nothing, `stops` has stopped the
-- runtime, `lost` has closed the connection and ended the round, and `late` has called the time-out.
pub data Io : Type 0 where
  ready idle stops lost late : Io

-- The deadline against a reading of the clock in nanoseconds.
unfoldable pub io_due : Probe → Option ℕ → Io
io_due p none = idle
io_due p (some n) = if leb p.deadline (n / 1_000_000) then late else ready

abbrev pub is_declined : Rc → Bool
is_declined declined = true
is_declined _ = false

abbrev pub is_valid : Rc → Bool
is_valid ok = true
is_valid _ = false

-- `mine` tells whether the connection of the event is the probe's; `zone` is the shared zone at a tick,
-- since no lock is held between the calls.
unfoldable pub io_ready : Env → Runtime → (ℕ → Shared) → ℕ → Bool → Probe → ℕ → Io × ℕ
io_ready e r zone i mine p t =
    let v = probe_valid e r p (zone t) i (t + 1) in
    if not mine || not p.active || p.pending
    then (idle, t)
    else if r.stopping || e.quitting t
    then (stops, t + 1)
    else if is_declined v.0
    then (lost, v.1)
    else if not (is_valid v.0)
    then (idle, v.1)
    else (io_due p (now e v.1), v.1 + 1)

-- What the time-out of a round does: set the timer again, or fix the result.
pub data TimedOut : Type 0 where
  ignored : TimedOut
  stopped : TimedOut
  ended : TimedOut
  again_in : ℕ → TimedOut
  finished : Bool → TimedOut

-- A UDP round that nothing has refuted is a success, a TCP round that is not connected is a failure.
unfoldable pub timeout_at : SrvConf → Probe → Option ℕ → TimedOut
timeout_at c p none = again_in (timer_delay 1)
timeout_at c p (some n) =
    if ltb (n / 1_000_000) p.deadline
    then again_in (timer_delay (p.deadline - n / 1_000_000))
    else if not (is_tcp c.check_type)
    then finished true
    else finished false

unfoldable pub timeout : Env → SrvConf → Runtime → (ℕ → Shared) → ℕ → Probe → ℕ → TimedOut
timeout e c r zone i p t =
    let v = probe_valid e r p (zone t) i (t + 1) in
    if not p.active || p.pending
    then ignored
    else if r.stopping || e.quitting t
    then stopped
    else if is_declined v.0
    then ended
    else timeout_at c p (now e v.1)
