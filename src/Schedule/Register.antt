-- ===== src/Schedule/Register.antt =====
-- A worker registers once, and then renews its heartbeat while the registration is still its own.
pub mod Keeps
use nginx_healthcheck_module.Base.{
  ℕ, ◌+◌, ◌/◌, true, false, not, ◌&&◌, Option, none, some, ◌==◌, if◌then◌else◌, u64_max,
}
use nginx_healthcheck_module.Env.{Env, now, activation_mutex, worker_mutex}
use nginx_healthcheck_module.Lock.{lock}
use nginx_healthcheck_module.State.{WorkerState}
use nginx_healthcheck_module.Slots.{current, publish_worker}
use nginx_healthcheck_module.Runtime.{Rc, ok, again, declined, error, Runtime, Shared, set_worker}
use nginx_healthcheck_module.Schedule.Owned.{registration_differs}

pub record Registered : Type 0 where
  pub rc : Rc
  pub runtime : Runtime
  pub shared : Shared
  pub tick : ℕ

-- The first registration of a generation fixes its activation time. `none` is NGX_AGAIN. The test
-- under the lock repeats the first, since the zone is that of the whole operation.
unfoldable pub activate : Env → ℕ → Shared → ℕ → ℕ → Option Shared × ℕ
activate e n s limit t =
    let a = lock e activation_mutex limit t in
    if s.activated
    then (some s, t)
    else if not a.0
    then (none, a.1)
    else (some (record s { activated = true; activated_at = n / 1_000_000 }), a.1)

joined : Env → ℕ → WorkerState → WorkerState
joined e n w = record w {
  pid = e.pid;
  instance_id = w.instance_id + 1;
  heartbeat = n / 1_000_000;
  exiting = false;
}

-- With the registration locked.
unfoldable pub register_locked : Env → ℕ → Runtime → Shared → ℕ → Registered
unfolding joined
register_locked e n r s t =
    let w = current (s.workers r.worker) in
    let renewed : WorkerState =
      if not r.registered then joined e n w else record w { heartbeat = n / 1_000_000 } in
    let stay : Rc → Registered = λ rc. record { rc = rc; runtime = r; shared = s; tick = t } in
    if not r.registered && w.instance_id == u64_max
    then stay error
    else if r.registered && registration_differs e.pid r.instance_id w
    then stay declined
    else record {
      rc = ok;
      runtime = record r { instance_id = renewed.instance_id; registered = true };
      shared = set_worker s r.worker (publish_worker (s.workers r.worker) renewed);
      tick = t;
    }

unfoldable pub register_active : Env → ℕ → Runtime → Shared → ℕ → Option Shared × ℕ → Registered
register_active e n r s limit (none, t) = record { rc = again; runtime = r; shared = s; tick = t }
register_active e n r s limit (some s', t) =
    let w = lock e (worker_mutex r.worker) limit t in
    if not w.0
    then record { rc = again; runtime = r; shared = s'; tick = w.1 }
    else register_locked e n r s' w.1

unfoldable pub register : Env → Runtime → Shared → ℕ → ℕ → Registered
register e r s limit t = elim (now e t) [
  | none ↦ record { rc = again; runtime = r; shared = s; tick = t + 1 }
  | some n ↦ register_active e n r s limit (activate e n s limit (t + 1))
]
