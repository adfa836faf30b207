-- ===== src/Rounds/Defs.antt =====
-- runtime/ngx_healthcheck_schedule.c: the processes of a generation share the state of a peer. Each
-- operation holds the locks of what it reads and writes, so a history is a sequence of operations.
use nginx_healthcheck_module.Base.{
  ℕ, ◌+◌, Bool, true, false, Option, none, some, List, [], ◌∷◌, if◌then◌else◌,
}
use nginx_healthcheck_module.Env.{Env}
use nginx_healthcheck_module.Config.{SrvConf}
use nginx_healthcheck_module.State.{PeerState}
use nginx_healthcheck_module.Health.Streak.{History}
use nginx_healthcheck_module.Runtime.{Rc, ok, Probe, Runtime, Shared, update}
use nginx_healthcheck_module.Schedule.Register.{register}
use nginx_healthcheck_module.Schedule.Owned.{probe_waiting}
use nginx_healthcheck_module.Schedule.Claim.{claim}
use nginx_healthcheck_module.Schedule.Finish.{resolve}
use nginx_healthcheck_module.Schedule.Submit.{submit, sample_of}

-- One process: its answers from outside, and what it keeps of the peer.
pub record Process : Type 0 where
  pub env : Env
  pub runtime : Runtime
  pub probe : Option Probe

-- `begun` and `results` only record what happened: how many claims were granted, and the results
-- that were committed, newest first.
pub record System : Type 0 where
  pub processes : ℕ → Process
  pub shared : Shared
  pub begun : ℕ
  pub results : History

-- What a process may do next, with its limit and the tick of its first external call.
pub data Action : Type 0 where
  registers : (limit t : ℕ) → Action
  claims : (observed : Option PeerState) → (limit t : ℕ) → Action
  waits : (t : ℕ) → Action
  resolves : (result : Bool) → (t : ℕ) → Action
  submits : (limit t : ℕ) → Action

abbrev pub is_ok : Rc → Bool
is_ok ok = true
is_ok _ = false

abbrev pub set_process : System → ℕ → Process → System
set_process y j q = record y { processes = update y.processes j q }

-- The operations on a probe, where there is one.
unfoldable pub act_probe : SrvConf → ℕ → System → ℕ → Process → Action → Option Probe → System
act_probe c i y j q a none = y
act_probe c i y j q (registers limit t) (some p) = y
act_probe c i y j q (claims observed limit t) (some p) = y
act_probe c i y j q (waits t) (some p) =
    let k = probe_waiting q.env q.runtime p y.shared i t in
    record (set_process y j (record q { probe = some k.0.2 })) { shared = k.0.1 }
act_probe c i y j q (resolves result t) (some p) =
    set_process y j (record q { probe = some (resolve q.env c p result t) })
act_probe c i y j q (submits limit t) (some p) =
    let k = submit q.env c q.runtime p y.shared i limit t in
    record (set_process y j (record q { probe = some k.probe })) {
      shared = k.shared;
      results = if is_ok k.rc then (p.result, sample_of p) ∷ y.results else y.results;
    }

-- Process `j` acts on the peer `i`.
unfoldable pub act : SrvConf → ℕ → System → ℕ → Action → System
act c i y j (registers limit t) =
    let q = y.processes j in
    let k = register q.env q.runtime y.shared limit t in
    record (set_process y j (record q { runtime = k.runtime })) { shared = k.shared }
act c i y j (claims observed limit t) =
    let q = y.processes j in
    let k = claim q.env c q.runtime q.probe y.shared i observed limit t in
    record (set_process y j (record q { probe = k.probe })) {
      shared = k.shared;
      begun = if is_ok k.rc then y.begun + 1 else y.begun;
    }
act c i y j a = act_probe c i y j (y.processes j) a (y.processes j).probe

unfoldable pub run : SrvConf → ℕ → System → List (ℕ × Action) → System
run c i y [] = y
run c i y ((j, a) ∷ rest) = run c i (act c i y j a) rest
