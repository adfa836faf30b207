-- ===== src/Schedule/Watch/Rearmed.antt =====
-- The watch goes on until its process stops.
use nginx_healthcheck_module.Base.{
  ℕ, ◌+◌, ◌≡◌, refl, inl, inr, Bool, true, false, not, none, some, length, min, Bytes,
  if◌then◌else◌, Bool-cases, Option-cases,
}
use nginx_healthcheck_module.Time.{add_time, timer_delay}
use nginx_healthcheck_module.Env.{Env, now}
use nginx_healthcheck_module.Lock.{lock_ns}
use nginx_healthcheck_module.Runtime.{Shared, Runtime}
use nginx_healthcheck_module.Protocol.Ready.{is_declined}
use nginx_healthcheck_module.Protocol.Cleanup.{Events}
use nginx_healthcheck_module.Protocol.Round.{Wires}
use nginx_healthcheck_module.Schedule.Register.{Registered, register}
use nginx_healthcheck_module.Schedule.Start.{peer_batch}
use nginx_healthcheck_module.Schedule.Stop.{Process, is_stopping, runtime_stop}
use nginx_healthcheck_module.Schedule.Watch.{
  Tour, visit_all, Watched, rearm, halted, watch_registered, watch,
}

-- The process has stopped, or its watch is set to its interval.
pub data GoesOn (x : Process) : Type 0 where
  stopped : x.runtime.stopping ≡ true → GoesOn x
  rearmed : x.watch ≡ some (timer_delay x.runtime.interval) → GoesOn x

runtime_stop-GoesOn :
    (e : Env) (b : Events) (x : Process) (sh : Shared) (t : ℕ)
    → GoesOn (runtime_stop e b x sh t).process
unfolding runtime_stop
runtime_stop-GoesOn e b x sh t = elim (Bool-cases x.runtime.cleaned) [
  | inl clean ↦ rw (clean, runtime_stop) (stopped refl)
  | inr dirty ↦ rw (dirty, runtime_stop) (stopped refl)
]

rearm-GoesOn : (x : Process) (sh : Shared) (t : ℕ) → GoesOn (rearm x sh t).process
rearm-GoesOn x sh t = elim (Bool-cases x.runtime.stopping) [
  | inl stops ↦ stopped stops
  | inr runs ↦ rearmed (rw runs refl)
]

one_of-GoesOn :
    (lost never : Bool) (x y z : Watched)
    → GoesOn x.process
    → GoesOn y.process
    → GoesOn z.process
    → GoesOn (if◌then◌else◌ {A = Watched} lost x (if never then y else z)).process
one_of-GoesOn true never x y z f g h = f
one_of-GoesOn false true x y z f g h = g
one_of-GoesOn false false x y z f g h = h

watch_registered-GoesOn :
    (e : Env) (b : Events) (hash : Bytes → ℕ) (others : ℕ → Shared → Shared) (wires : ℕ → Wires)
    (x : Process) (limit : ℕ) (k : Registered)
    → GoesOn (watch_registered e b hash others wires x limit k).process
unfolding watch_registered
watch_registered-GoesOn e b hash others wires x limit k =
    let x' : Process = record x { runtime = k.runtime } in
    let start : Tour = record {
      runtime = k.runtime;
      watch = x.watch;
      cursor = k.runtime.cursor;
      peers = x.peers;
      shared = k.shared;
      tick = k.tick;
    } in
    let all = visit_all e b hash others wires limit (min (length x.peers) peer_batch) start in
    let done : Process = record {
      runtime = record all.runtime { cursor = all.cursor };
      watch = all.watch;
      peers = all.peers;
    } in
    let stopping = runtime_stop e b x' (others k.tick k.shared) k.tick in
    one_of-GoesOn (is_declined k.rc) (not k.runtime.registered) (halted stopping)
      (rearm x' k.shared k.tick) (rearm done all.shared all.tick)
      (runtime_stop-GoesOn e b x' (others k.tick k.shared) k.tick) (rearm-GoesOn x' k.shared k.tick)
      (rearm-GoesOn done all.shared all.tick)

-- Whatever the clock, the locks, the peers and the other processes do: after a turn of the watch its process has stopped, or
-- the watch is set to its interval again.
pub watch-GoesOn :
    (e : Env) (b : Events) (hash : Bytes → ℕ) (others : ℕ → Shared → Shared) (wires : ℕ → Wires)
    (x : Process) (sh : Shared) (t : ℕ)
    → GoesOn (watch e b hash others wires x sh t).process
unfolding watch
watch-GoesOn e b hash others wires x sh t =
    let fired : Process = record x { watch = none } in
    elim (Bool-cases (is_stopping e x.runtime t)) [
      | inl stops ↦ rw (stops, watch) (runtime_stop-GoesOn e b fired sh (t + 1))
      | inr runs ↦ elim (Option-cases (now e (t + 1))) [
        | inl unread ↦ rw (runs, unread, watch) (rearm-GoesOn fired sh (t + 2))
        | inr (n, reading) ↦
            let limit = add_time n lock_ns in
            let r : Runtime = record x.runtime { budget = limit } in
            rw (runs, reading, watch)
              (watch_registered-GoesOn e b hash others wires (record fired { runtime = r }) limit
                (register e r (others (t + 2) sh) limit (t + 2)))
      ]
    ]
