-- ===== src/Schedule/Stop/Stopped.antt =====
-- What a process has given up once it has stopped.
use nginx_healthcheck_module.Base.{
  ℕ, ◌≡◌, refl, sym, subst, inl, inr, Bool, true, false, not, ◌&&◌, Option, none, some, List, [],
  ◌∷◌, ◌==◌, if◌then◌else◌, arith, Bool-cases,
}
use nginx_healthcheck_module.Env.{Env, worker_mutex}
use nginx_healthcheck_module.Lock.{lock}
use nginx_healthcheck_module.Slots.{current, publish_worker}
use nginx_healthcheck_module.Runtime.{Probe, Connection, Runtime, Shared, set_worker}
use nginx_healthcheck_module.Protocol.Cleanup.{Events, probe_cleanup, probe_cleanup-IsClean}
use nginx_healthcheck_module.Schedule.Stop.{
  LocalPeer, Process, Stopping, give_up, stop_probe, stop_peer, stop_peers, leave, unregister,
  runtime_stop,
}

-- No round, no result to submit, no connection and no timer.
pub record IsOver (p : Probe) : Type 0 where
  pub inactive : p.active ≡ false
  pub settled : p.pending ≡ false
  pub closed : p.connection ≡ none
  pub untimed : p.timeout ≡ none

abbrev pub ProbeOver : Option Probe → Type 0
ProbeOver none = Unit
ProbeOver (some p) = IsOver p

pub AllOver : List LocalPeer → Type 0
AllOver [] = Unit
AllOver (l ∷ ls) = (l.check_timer ≡ none) × (ProbeOver l.probe × AllOver ls)

-- The registration is left alone, or it was the process's own and is marked as exiting.
pub data Left (pid : ℕ) (r : Runtime) (sh sh' : Shared) : Type 0 where
  untouched : sh' ≡ sh → Left pid r sh sh'
  marked :
      (current (sh.workers r.worker)).pid ≡ pid
      → (current (sh.workers r.worker)).instance_id ≡ r.instance_id
      → sh'
        ≡ set_worker sh r.worker (
            publish_worker
              (sh.workers r.worker)
              (record (current (sh.workers r.worker)) { exiting = true }))
      → Left pid r sh sh'

no_connection : (o : Option Connection) → ((k : Connection) → o ≡ some k → false ≡ true) → o ≡ none
no_connection none h = refl
no_connection (some k) h = absurd (ground (arith, h k refl))

give_up-IsOver :
    (b : Events) (l : LocalPeer) (p : Probe) (t : ℕ)
    → IsOver (give_up (probe_cleanup b l.conf p false t).probe)
give_up-IsOver b l p t =
    let k = probe_cleanup-IsClean b l.conf p false t in
    record {
      inactive = refl;
      settled = refl;
      closed =
          no_connection (probe_cleanup b l.conf p false t).probe.connection
            (λ x at. (k.keeps x at).0);
      untimed = k.untimed;
    }

stop_probe-Over :
    (b : Events) (l : LocalPeer) (o : Option Probe) (t : ℕ)
    → ((stop_probe b l o t).0.check_timer ≡ none) × ProbeOver (stop_probe b l o t).0.probe
unfolding stop_probe
stop_probe-Over b l none t = (refl, tt)
stop_probe-Over b l (some p) t = (refl, give_up-IsOver b l p t)

stop_peer-Over :
    (b : Events) (l : LocalPeer) (t : ℕ)
    → ((stop_peer b l t).0.check_timer ≡ none) × ProbeOver (stop_peer b l t).0.probe
unfolding stop_peer
stop_peer-Over b l t = stop_probe-Over b l l.probe t

stop_peers-AllOver : (b : Events) (ls : List LocalPeer) (t : ℕ) → AllOver (stop_peers b ls t).0
unfolding stop_peers AllOver
stop_peers-AllOver b [] t = tt
stop_peers-AllOver b (l ∷ ls) t =
    let (timer, over) = stop_peer-Over b l t in
    (timer, (over, stop_peers-AllOver b ls (stop_peer b l t).1))

leave-Left : (pid : ℕ) (r : Runtime) (sh : Shared) → Left pid r sh (leave pid r sh)
unfolding leave
leave-Left pid r sh =
    let state = current (sh.workers r.worker) in
    elim (Bool-cases (state.pid == pid && state.instance_id == r.instance_id)) [
      | inl mine ↦ rw (mine, leave) (marked (ground arith) (ground arith) refl)
      | inr others ↦ rw (others, leave) (untouched refl)
    ]

-- Whether the process is registered, and whether the lock is taken.
tried-Left :
    (pid : ℕ) (r : Runtime) (sh : Shared) (t u : ℕ) (registered held : Bool)
    → Left pid r sh
        (if◌then◌else◌ {A = Shared × ℕ}
          (not registered)
          (sh, t)
          (if held then (leave pid r sh, u) else (sh, u))).0
tried-Left pid r sh t u false held = untouched refl
tried-Left pid r sh t u true true = leave-Left pid r sh
tried-Left pid r sh t u true false = untouched refl

unregister-Left :
    (e : Env) (r : Runtime) (sh : Shared) (t : ℕ) → Left e.pid r sh (unregister e r sh t).0
unfolding unregister
unregister-Left e r sh t =
    let l = lock e (worker_mutex r.worker) 0 t in tried-Left e.pid r sh t l.1 r.registered l.0

-- After a stop.
pub record Stopped (e : Env) (b : Events) (x : Process) (sh : Shared) (k : Stopping) : Type 0 where
  pub stopping : k.process.runtime.stopping ≡ true
  pub cleaned : k.process.runtime.cleaned ≡ true
  pub watch : k.process.watch ≡ none
  pub peers : AllOver k.process.peers
  pub registration : Left e.pid x.runtime sh k.shared
  pub once :
      (sh' : Shared) (u : ℕ)
      → runtime_stop e b k.process sh' u ≡ record { process = k.process; shared = sh'; tick = u }

-- A process that has not been cleaned up and stops has no timer, no round, no result to submit and no connection left; of the
-- zone it has at most marked its own registration as exiting, if it was still its own; and to stop it once more changes nothing.
pub runtime_stop-Stopped :
    (e : Env) (b : Events) (x : Process) (sh : Shared) (t : ℕ)
    → x.runtime.cleaned ≡ false
    → Stopped e b x sh (runtime_stop e b x sh t)
unfolding runtime_stop
runtime_stop-Stopped e b x sh t dirty =
    let stopping : Runtime = record x.runtime { stopping = true } in
    let ls = stop_peers b x.peers t in
    let left = unregister e x.runtime sh ls.1 in
    let early : Stopping = record {
      process = record x { runtime = stopping };
      shared = sh;
      tick = t;
    } in
    let late : Stopping = record {
      process = record { runtime = record stopping { cleaned = true }; watch = none; peers = ls.0 };
      shared = left.0;
      tick = left.1;
    } in
    subst (λ d. Stopped e b x sh (if d then early else late)) (sym dirty)
      (record {
        stopping = refl;
        cleaned = refl;
        watch = refl;
        peers = stop_peers-AllOver b x.peers t;
        registration = unregister-Left e x.runtime sh ls.1;
        once = λ sh' u. refl;
      })
