-- ===== src/Schedule/Stop.antt =====
-- ngx_healthcheck_runtime_stop and ngx_healthcheck_stopping: a process gives up its timers, its probes and its
-- registration.
pub mod Stopped
use nginx_healthcheck_module.Base.{
  ℕ, ◌+◌, Bool, true, false, not, ◌&&◌, ◌||◌, Option, none, some, List, [], ◌∷◌, ◌==◌,
  if◌then◌else◌,
}
use nginx_healthcheck_module.Env.{Env, worker_mutex}
use nginx_healthcheck_module.Config.{SrvConf}
use nginx_healthcheck_module.Lock.{lock}
use nginx_healthcheck_module.State.{WorkerState}
use nginx_healthcheck_module.Slots.{Slots, current, publish_worker}
use nginx_healthcheck_module.Runtime.{Probe, Runtime, Shared, set_worker}
use nginx_healthcheck_module.Protocol.Cleanup.{Events, probe_cleanup}

-- What a process keeps of a peer: its probe, and the delay of its check timer, if it is set.
pub record LocalPeer : Type 0 where
  pub conf : SrvConf
  pub probe : Option Probe
  pub check_timer : Option ℕ

pub record Process : Type 0 where
  pub runtime : Runtime
  pub watch : Option ℕ
  pub peers : List LocalPeer

pub record Stopping : Type 0 where
  pub process : Process
  pub shared : Shared
  pub tick : ℕ

-- The round of a probe is given up.
abbrev pub give_up : Probe → Probe
give_up p = record p { active = false; pending = false }

unfoldable pub stop_probe : Events → LocalPeer → Option Probe → ℕ → LocalPeer × ℕ
stop_probe b l none t = (record l { check_timer = none; probe = none }, t)
stop_probe b l (some p) t =
    let k = probe_cleanup b l.conf p false t in
    (record l { check_timer = none; probe = some (give_up k.probe) }, k.tick)

unfoldable pub stop_peer : Events → LocalPeer → ℕ → LocalPeer × ℕ
stop_peer b l t = stop_probe b l l.probe t

unfoldable pub stop_peers : Events → List LocalPeer → ℕ → List LocalPeer × ℕ
stop_peers b [] t = ([], t)
stop_peers b (l ∷ ls) t =
    let (l', u) = stop_peer b l t in let (ls', v) = stop_peers b ls u in (l' ∷ ls', v)

-- Under the lock of the own registration: it is marked as exiting if it is still the own.
unfoldable pub leave : ℕ → Runtime → Shared → Shared
leave pid r sh =
    let w = sh.workers r.worker in
    let state = current w in
    if state.pid == pid && state.instance_id == r.instance_id
    then set_worker sh r.worker (publish_worker w (record state { exiting = true }))
    else sh

-- The registration is tried to be marked once.
unfoldable pub unregister : Env → Runtime → Shared → ℕ → Shared × ℕ
unregister e r sh t =
    let (held, u) = lock e (worker_mutex r.worker) 0 t in
    if not r.registered then (sh, t) else if held then (leave e.pid r sh, u) else (sh, u)

unfoldable pub runtime_stop : Env → Events → Process → Shared → ℕ → Stopping
runtime_stop e b x sh t =
    let stopping = record x.runtime { stopping = true } in
    let (peers, u) = stop_peers b x.peers t in
    let (sh', v) = unregister e x.runtime sh u in
    if x.runtime.cleaned
    then record { process = record x { runtime = stopping }; shared = sh; tick = t }
    else record {
      process = record {
        runtime = record stopping { cleaned = true };
        watch = none;
        peers = peers;
      };
      shared = sh';
      tick = v;
    }

abbrev pub is_stopping : Env → Runtime → ℕ → Bool
is_stopping e r t = r.stopping || e.quitting t
