-- ===== src/Schedule/Watch.antt =====
-- ngx_healthcheck_watch: every interval a process renews its registration and visits a batch of peers: it submits
-- results that are pending, gives up rounds that others have taken over, and takes over theirs.
pub mod Rearmed
use nginx_healthcheck_module.Base.{
  ℕ, zero, suc, ◌+◌, ◌/◌, ◌%◌, Bool, true, false, not, ◌&&◌, ◌||◌, Option, none, some, List, [],
  ◌∷◌, ◌++◌, length, get_elem?, Bytes, ◌==◌, leb, if◌then◌else◌, max, min,
}
use nginx_healthcheck_module.Time.{add_time, timer_delay}
use nginx_healthcheck_module.Env.{Env, now}
use nginx_healthcheck_module.Config.{SrvConf}
use nginx_healthcheck_module.Lock.{lock_ns}
use nginx_healthcheck_module.State.{PeerState}
use nginx_healthcheck_module.Slots.{read_peer, read_worker}
use nginx_healthcheck_module.Runtime.{
  Rc, ok, again, declined, error, busy, is_initial, Probe, Runtime, Shared,
}
use nginx_healthcheck_module.Protocol.Cleanup.{Events, probe_cleanup}
use nginx_healthcheck_module.Schedule.Submit.{Submitted, submit}
use nginx_healthcheck_module.Schedule.Finish.{dropped}
use nginx_healthcheck_module.Protocol.Ready.{is_declined}
use nginx_healthcheck_module.Protocol.Round.{Wires, Ran, start_round, resume_round}
use nginx_healthcheck_module.Schedule.Claim.{Claimed, peer_deadline, claim}
use nginx_healthcheck_module.Schedule.Preferred.{preferred}
use nginx_healthcheck_module.Schedule.Register.{Registered, register}
use nginx_healthcheck_module.Schedule.Start.{peer_batch}
use nginx_healthcheck_module.Schedule.Stop.{
  LocalPeer, Process, Stopping, give_up, is_stopping, runtime_stop,
}

-- A peer while it is visited. `stops` tells that ngx_healthcheck_runtime_stop has been called.
pub record Visit : Type 0 where
  pub peer : LocalPeer
  pub shared : Shared
  pub stops : Bool
  pub tick : ℕ

-- A timer that is set anew, or left as it is.
abbrev pub or_else : Option ℕ → Option ℕ → Option ℕ
or_else none old = old
or_else (some delay) old = some delay

unfoldable pub submit_pending : Env → Runtime → ℕ → ℕ → Option Probe → Visit → Visit
submit_pending e r i limit none v = v
submit_pending e r i limit (some p) v =
    let k = submit e v.peer.conf r p v.shared i limit v.tick in
    if not p.pending then v else record v {
      peer = record v.peer {
        probe = some (dropped k.rc k.probe);
        check_timer = or_else k.check_timer v.peer.check_timer;
      };
      shared = k.shared;
      tick = k.tick;
    }

-- A peer of this worker that nobody has taken yet and that waits for no timer.
unfoldable pub arm_initial : Env → Runtime → PeerState → Visit → Visit
arm_initial e r s v =
    let delay = e.random v.tick % max v.peer.conf.check_interval 1000 in
    elim v.peer.check_timer [
      | some set ↦ v
      | none ↦
          if is_initial s.phase && s.instance_id == 0 && s.worker == r.worker
          then record v {
            peer = record v.peer { check_timer = some (timer_delay delay) };
            tick = v.tick + 1;
          }
          else v
    ]

-- Another worker or a later round has the peer.
abbrev pub is_stale : Runtime → PeerState → Probe → Bool
is_stale r s p =
    not (s.worker == r.worker)
    || not (s.instance_id == p.instance_id)
    || not (s.term == p.term)
    || not (s.round == p.round)

unfoldable pub drop_stale : Events → Runtime → PeerState → Option Probe → Visit → Visit
drop_stale b r s none v = v
drop_stale b r s (some p) v =
    let clean = probe_cleanup b v.peer.conf p false v.tick in
    if not (is_stale r s p) then v else record v {
      peer = record v.peer { probe = some (give_up clean.probe); check_timer = none };
      tick = clean.tick;
    }

abbrev pub is_active : Option Probe → Bool
is_active none = false
is_active (some p) = p.active

-- The answer of a visit: whether the batch goes on.
abbrev pub Visited : Type 0
Visited = Visit × Bool

-- What the I/O of the peer has done at once.
abbrev pub after_io : Visit → Ran → Visit
after_io v x = record {
  peer = record v.peer {
    probe = some x.probe;
    check_timer = or_else x.check_timer v.peer.check_timer;
  };
  shared = x.shared;
  stops = x.stopping;
  tick = x.tick;
}

-- The tick that ngx_healthcheck_preferred ends at.
unfoldable pub preferred_end : Env → (ℕ → Shared) → ℕ → ℕ → ℕ → ℕ → ℕ
preferred_end e zone limit zero i t = t
preferred_end e zone limit (suc left) i t =
    let read = read_worker e i ((zone (t + 1)).workers i) limit (t + 1) in
    let rest = preferred_end e zone limit left (suc i) read.1 in
    elim (now e t) [ none ↦ t + 1 | some fresh ↦ if leb limit fresh then t + 1 else rest ]

-- The visits of a batch.
pub record Tour : Type 0 where
  pub runtime : Runtime
  pub watch : Option ℕ
  pub cursor : ℕ
  pub peers : List LocalPeer
  pub shared : Shared
  pub tick : ℕ

abbrev pub put : List LocalPeer → ℕ → LocalPeer → List LocalPeer
put [] i l = []
put (x ∷ xs) zero l = l ∷ xs
put (x ∷ xs) (suc i) l = x ∷ put xs i l

module _ (e : Env) (b : Events) (hash : Bytes → ℕ) (others : ℕ → Shared → Shared)
    (wires : ℕ → Wires) (limit : ℕ) where
  -- The zone as a step finds it.
  abbrev pub seen : Visit → Visit
  seen v = record v { shared = others v.tick v.shared }

  -- A round that a takeover has begun starts before the claim returns.
  abbrev pub claimed : Runtime → ℕ → Visit → Claimed → Option Probe → Rc → Visit
  claimed r i v k (some p) ok =
      let set : Visit = record v {
        peer = record v.peer { check_timer = or_else k.check_timer v.peer.check_timer };
      } in
      after_io set (start_round e b v.peer.conf r others i (wires i) p k.shared k.tick)
  claimed r i v k p rc = record {
    peer = record v.peer { probe = p };
    shared = k.shared;
    stops = k.stops;
    tick = k.tick;
  }

  -- A takeover, or not.
  unfoldable pub take_over : Runtime → ℕ → PeerState → Visit → Visit
  take_over r i s v =
      let k = claim e v.peer.conf r v.peer.probe v.shared i (some s) limit v.tick in
      claimed r i v k k.probe k.rc

  -- A round of the peer goes on.
  unfoldable pub go_on : Runtime → ℕ → Visit → Option Probe → Visit
  go_on r i v none = v
  go_on r i v (some p) =
      after_io v (resume_round e b v.peer.conf r others i (wires i) p v.shared v.tick)

  -- The index of a peer is its place. A peer of another instance, at `ms` milliseconds: the grace period past its deadline it may be taken over
  -- by the worker that is preferred, and some time later by any.
  unfoldable pub visit_foreign : Runtime → ℕ → PeerState → ℕ → Visit → Visit
  visit_foreign r i s ms v =
      let eligible = add_time (peer_deadline v.peer.conf v.shared s) r.grace in
      let zone : ℕ → Shared = λ u. others u v.shared in
      let asked : Visit = record v { tick = preferred_end e zone limit r.workers 0 v.tick } in
      if not (leb eligible ms)
      then v
      else if leb (add_time eligible r.preference) ms
      then take_over r i s (seen v)
      else if preferred e hash r zone i s ms limit v.tick
      then take_over r i s (seen asked)
      else asked

  -- The state `s` has been read.
  unfoldable pub visit_read : Runtime → ℕ → PeerState → Visit → Visited
  visit_read r i s v =
      let armed = arm_initial e r s v in
      let w = drop_stale b r s armed.peer.probe armed in
      if s.worker == r.worker && s.instance_id == r.instance_id
      then (if is_active w.peer.probe then go_on r i w w.peer.probe else w, true)
      else elim (now e w.tick) [
        | none ↦ (record w { tick = w.tick + 1 }, false)
        | some n ↦ (visit_foreign r i s (n / 1_000_000) (record w { tick = w.tick + 1 }), true)
      ]

  -- A visit; the other processes change the zone before each of its steps.
  unfoldable pub visit : Runtime → ℕ → LocalPeer → Shared → ℕ → Visited
  visit r i l sh t =
      let start : Visit = seen (record { peer = l; shared = sh; stops = false; tick = t }) in
      let v = submit_pending e r i limit l.probe start in
      let zone = others v.tick v.shared in
      let read = read_peer e i (zone.peers i) limit v.tick in
      let here : Visit = record v { shared = zone; tick = read.1 } in
      elim read.0 [ none ↦ (here, true) | some s ↦ visit_read r i s here ]

  -- `next:`, whether the batch goes on.
  abbrev pub in_time : Option ℕ → Bool
  in_time none = false
  in_time (some n) = not (leb limit n)

  -- A stop in a visit is one of the whole process; the loop goes on.
  abbrev pub after_visit : Tour → Bool → Tour
  after_visit k false = k
  after_visit k true =
      let x : Process = record { runtime = k.runtime; watch = k.watch; peers = k.peers } in
      let halted = runtime_stop e b x k.shared k.tick in
      record k {
        runtime = halted.process.runtime;
        watch = halted.process.watch;
        peers = halted.process.peers;
        shared = halted.shared;
        tick = halted.tick;
      }

  -- A visit of the peer at the cursor, after which the cursor points to the next one; with no peer there is no visit.
  unfoldable pub visit_next : Tour → Option LocalPeer → Tour × Bool
  visit_next k none = (k, false)
  visit_next k (some l) =
      let (v, goes) = visit k.runtime k.cursor l k.shared k.tick in
      let seen_one : Tour = record k {
        cursor = (k.cursor + 1) % length k.peers;
        peers = put k.peers k.cursor v.peer;
        shared = v.shared;
        tick = v.tick;
      } in
      let after = after_visit seen_one v.stops in
      (record after { tick = after.tick + 1 }, goes && in_time (now e after.tick))

  unfoldable pub visit_all : ℕ → Tour → Tour
  visit_all zero k = k
  visit_all (suc left) k =
      let (k', goes) = visit_next k (get_elem? k.peers k.cursor) in
      let rest = visit_all left k' in if goes then rest else k'

-- What a turn of the watch comes to.
pub record Watched : Type 0 where
  pub process : Process
  pub shared : Shared
  pub tick : ℕ

-- The label `rearm`.
abbrev pub rearm : Process → Shared → ℕ → Watched
rearm x sh t = record {
  process = record x {
    runtime = record x.runtime { budget = 0 };
    watch = if x.runtime.stopping then x.watch else some (timer_delay x.runtime.interval);
  };
  shared = sh;
  tick = t;
}

abbrev pub halted : Stopping → Watched
halted k = record { process = k.process; shared = k.shared; tick = k.tick }

-- After the registration, with a limit for the whole batch.
unfoldable pub watch_registered :
    Env
    → Events
    → (Bytes → ℕ)
    → (ℕ → Shared → Shared)
    → (ℕ → Wires)
    → Process
    → ℕ
    → Registered
    → Watched
watch_registered e b hash others wires x limit k =
    let x' : Process = record x { runtime = k.runtime } in
    let start : Tour = record {
      runtime = k.runtime;
      watch = x.watch;
      cursor = k.runtime.cursor;
      peers = x.peers;
      shared = k.shared;
      tick = k.tick;
    } in
    let all = visit_all e b hash others wires limit (min (length x.peers) peer_batch) start in
    let done : Process = record {
      runtime = record all.runtime { cursor = all.cursor };
      watch = all.watch;
      peers = all.peers;
    } in
    if is_declined k.rc
    then halted (runtime_stop e b x' (others k.tick k.shared) k.tick)
    else if not k.runtime.registered
    then rearm x' k.shared k.tick
    else rearm done all.shared all.tick

-- The timer of the watch has fired.
unfoldable pub watch :
    Env
    → Events
    → (Bytes → ℕ)
    → (ℕ → Shared → Shared)
    → (ℕ → Wires)
    → Process
    → Shared
    → ℕ
    → Watched
watch e b hash others wires x sh t =
    let fired : Process = record x { watch = none } in
    if is_stopping e x.runtime t
    then halted (runtime_stop e b fired sh (t + 1))
    else elim (now e (t + 1)) [
      | none ↦ rearm fired sh (t + 2)
      | some n ↦
          let limit = add_time n lock_ns in
          let r = record x.runtime { budget = limit } in
          watch_registered e b hash others wires (record fired { runtime = r }) limit
            (register e r (others (t + 2) sh) limit (t + 2))
    ]
