-- ===== src/Schedule/Submit.antt =====
-- The result of a round is committed once: health, phase and the time of the next round together.
pub mod Cases
use nginx_healthcheck_module.Base.{
  ℕ, ◌+◌, ◌/◌, false, not, ◌||◌, Option, none, some, leb, if◌then◌else◌, max,
}
use nginx_healthcheck_module.Time.{add_time, timer_delay}
use nginx_healthcheck_module.Env.{Env, now}
use nginx_healthcheck_module.Config.{SrvConf}
use nginx_healthcheck_module.Health.{apply_result}
use nginx_healthcheck_module.State.{Health, PeerState, waiting}
use nginx_healthcheck_module.Slots.{publish}
use nginx_healthcheck_module.Runtime.{
  Rc, ok, again, declined, is_running, Probe, Runtime, Shared, set_peer,
}
use nginx_healthcheck_module.Schedule.Owned.{Owned, owned, not_now, not_mine, owned_lock}

-- `check_timer` is the delay that the peer's check timer is set to, if it is.
pub record Submitted : Type 0 where
  pub rc : Rc
  pub shared : Shared
  pub probe : Probe
  pub check_timer : Option ℕ
  pub tick : ℕ

abbrev pub sample_of : Probe → Option ℕ
sample_of p = if p.sample then some p.delay else none

-- The state that a result leaves, `ms` milliseconds on the clock.
pub next_due : SrvConf → PeerState → ℕ
next_due c s = add_time s.started c.check_interval

abbrev pub set_access_time : Health → ℕ → Health
set_access_time h ms = record h { access_time = ms }

unfoldable pub committed : SrvConf → Probe → PeerState → ℕ → PeerState
unfolding next_due
committed c p s ms = record s {
  health = set_access_time (apply_result c p.result (sample_of p) s.health) ms;
  phase = waiting;
  deadline = max (next_due c s) ms;
}

unfoldable pub commit : SrvConf → Probe → Shared → ℕ → PeerState → ℕ → ℕ → Submitted
unfolding committed next_due
commit c p s i state ms t = record {
  rc = ok;
  shared = set_peer s i (publish (s.peers i) (committed c p state ms));
  probe = record p { pending = false };
  check_timer = if leb (next_due c state) ms then some (timer_delay 0) else none;
  tick = t;
}

abbrev pub unsubmitted : Rc → Shared → Probe → ℕ → Submitted
unsubmitted rc s p t = record { rc = rc; shared = s; probe = p; check_timer = none; tick = t }

unfoldable pub submit_owned : Env → SrvConf → Probe → Shared → ℕ → Owned × ℕ → Submitted
submit_owned e c p s i (not_now, t) = unsubmitted again s p t
submit_owned e c p s i (not_mine, t) = unsubmitted declined s p t
submit_owned e c p s i (owned state, t) =
    if not (is_running state.phase) || e.quitting t
    then unsubmitted declined s p (t + 1)
    else elim (now e (t + 1)) [
      | none ↦ unsubmitted again s p (t + 2)
      | some n ↦ commit c p s i state (n / 1_000_000) (t + 2)
    ]

unfoldable pub submit : Env → SrvConf → Runtime → Probe → Shared → ℕ → ℕ → ℕ → Submitted
submit e c r p s i limit t = submit_owned e c p s i (owned_lock e r p s i limit t)
