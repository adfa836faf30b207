-- ===== src/Schedule/Claim.antt =====
-- A round is claimed by the worker that owns the peer, when its time has come, or taken over from
-- a worker that let its deadline pass.
pub mod Cases
pub mod Due
use nginx_healthcheck_module.Base.{
  ℕ, ◌+◌, ◌-◌, ◌/◌, Bool, true, false, not, ◌&&◌, ◌||◌, Option, none, some, ltb, ◌==◌,
  if◌then◌else◌, max, u64_max,
}
use nginx_healthcheck_module.Time.{add_time, timer_delay}
use nginx_healthcheck_module.Env.{Env, now, worker_mutex, peer_mutex}
use nginx_healthcheck_module.Config.{SrvConf}
use nginx_healthcheck_module.Lock.{lock, limit_from}
use nginx_healthcheck_module.State.{PeerState, preparing}
use nginx_healthcheck_module.Slots.{current, publish}
use nginx_healthcheck_module.Runtime.{
  Rc, ok, again, declined, error, phase_code, is_initial, is_running, Probe, zero_probe, Runtime,
  Shared, set_peer,
}
use nginx_healthcheck_module.Schedule.Owned.{registration_differs}

-- The first wait of a peer runs from the activation of the zone.
unfoldable pub peer_deadline : SrvConf → Shared → PeerState → ℕ
peer_deadline c sh s =
    if not (is_initial s.phase)
    then s.deadline
    else add_time sh.activated_at
        (add_time (max c.check_interval 1000) (max (c.check_interval / 2) 1))

-- Another worker, or another instance of this one, has the peer.
abbrev pub is_foreign : Runtime → PeerState → Bool
is_foreign r s = not (s.worker == r.worker) || not (s.instance_id == r.instance_id)

-- The answer to a claim under both locks, before the counters are looked at.
pub data Verdict : Type 0 where
  admit : Verdict
  retry : Verdict
  decline : Verdict
  wait_for : ℕ → Verdict

unfoldable pub takeover_verdict : SrvConf → Runtime → Shared → PeerState → PeerState → ℕ → Verdict
takeover_verdict c r sh observed s ms =
    if not (s.term == observed.term)
      || not (s.round == observed.round)
      || not (phase_code s.phase == phase_code observed.phase)
      || not (s.deadline == observed.deadline)
      || ltb ms (add_time (peer_deadline c sh s) r.grace)
      || not (is_foreign r s)
    then retry
    else admit

unfoldable pub regular_verdict : SrvConf → Runtime → PeerState → ℕ → Verdict
regular_verdict c r s ms =
    let due = add_time s.started c.check_interval in
    if not (s.worker == r.worker)
      || not (s.instance_id == 0) && not (s.instance_id == r.instance_id)
    then decline
    else if is_running s.phase
    then retry
    else if not (s.started == 0) && ltb ms due
    then wait_for (due - ms)
    else admit

-- A takeover has the state that was observed; a regular claim has none.
unfoldable pub claim_verdict :
    SrvConf → Runtime → Shared → Option PeerState → PeerState → ℕ → Verdict
claim_verdict c r sh none s ms = regular_verdict c r s ms
claim_verdict c r sh (some observed) s ms = takeover_verdict c r sh observed s ms

abbrev pub is_exhausted : Runtime → PeerState → Bool
is_exhausted r s = s.round == u64_max || is_foreign r s && s.term == u64_max

unfoldable pub claimed_state : Env → SrvConf → Runtime → PeerState → ℕ → PeerState
claimed_state e c r s ms = record s {
  term = if is_foreign r s then s.term + 1 else s.term;
  worker = r.worker;
  owner = e.pid;
  instance_id = r.instance_id;
  round = s.round + 1;
  started = ms;
  phase = preparing;
  deadline = add_time ms c.check_timeout;
}

-- The probe of a new round; a connection that was kept stays.
abbrev pub claimed_probe : SrvConf → Runtime → PeerState → Probe → Probe
claimed_probe c r s p = record p {
  instance_id = s.instance_id;
  term = s.term;
  round = s.round;
  generation = r.generation;
  started = s.started;
  deadline = s.deadline;
  active = true;
  attempted = false;
  sent = false;
  sending = true;
  prepared = false;
  sample = false;
  waiting_published = false;
  timeout = some (timer_delay c.check_timeout);
}

-- `stops` tells that ngx_healthcheck_runtime_stop has been called. A round that is granted is begun by
-- ngx_healthcheck_probe_start, which the callers do, Schedule.Begin and Schedule.Watch.
pub record Claimed : Type 0 where
  pub rc : Rc
  pub stops : Bool
  pub shared : Shared
  pub probe : Option Probe
  pub wait : ℕ
  pub check_timer : Option ℕ
  pub tick : ℕ

abbrev refusal : Rc → Shared → Option Probe → ℕ → ℕ → Claimed
refusal rc sh p w t = record {
  rc = rc;
  stops = false;
  shared = sh;
  probe = p;
  wait = w;
  check_timer = none;
  tick = t;
}

-- Under both locks.
unfoldable pub claim_locked :
    Env → SrvConf → Runtime → Probe → Shared → ℕ → Option PeerState → ℕ → ℕ → Claimed
claim_locked e c r p sh i observed ms t =
    let s = current (sh.peers i) in
    let s' = claimed_state e c r s ms in
    elim (claim_verdict c r sh observed s ms) [
      | retry ↦ refusal again sh (some p) 0 t
      | decline ↦ refusal declined sh (some p) 0 t
      | wait_for w ↦ refusal again sh (some p) w t
      | admit ↦ if is_exhausted r s then refusal error sh (some p) 0 t else record {
        rc = ok;
        stops = false;
        shared = set_peer sh i (publish (sh.peers i) s');
        probe = some (claimed_probe c r s' p);
        wait = 0;
        check_timer = some (timer_delay c.check_interval);
        tick = t;
      }
    ]

-- From the two locks on, with a reading `n` of the clock.
unfoldable pub claim_at :
    Env → SrvConf → Runtime → Probe → Shared → ℕ → Option PeerState → ℕ → ℕ → ℕ → Claimed
claim_at e c r p sh i observed limit n t =
    let w = lock e (worker_mutex r.worker) (limit_from limit n) t in
    let q = lock e (peer_mutex i) (limit_from limit n) w.1 in
    if not w.0
    then refusal again sh (some p) 0 w.1
    else if registration_differs e.pid r.instance_id (current (sh.workers r.worker))
    then refusal declined sh (some p) 0 w.1
    else if not q.0
    then refusal again sh (some p) 0 q.1
    else claim_locked e c r p sh i observed (n / 1_000_000) q.1

unfoldable pub claim_with :
    Env → SrvConf → Runtime → Probe → Shared → ℕ → Option PeerState → ℕ → ℕ → Claimed
claim_with e c r p sh i observed limit t =
    if p.active || p.pending then refusal again sh (some p) 0 t else elim (now e t) [
      | none ↦ refusal again sh (some p) 0 (t + 1)
      | some n ↦ claim_at e c r p sh i observed limit n (t + 1)
    ]

-- The probe is allocated by the first claim that gets this far.
unfoldable pub claim :
    Env → SrvConf → Runtime → Option Probe → Shared → ℕ → Option PeerState → ℕ → ℕ → Claimed
claim e c r p sh i observed limit t =
    if not r.registered || r.stopping || e.quitting t
    then record (refusal declined sh p 0 (t + 1)) { stops = r.registered }
    else elim p [
      | some q ↦ claim_with e c r q sh i observed limit (t + 1)
      | none ↦
          if e.alloc (t + 1)
          then claim_with e c r zero_probe sh i observed limit (t + 2)
          else refusal error sh none 0 (t + 2)
    ]
