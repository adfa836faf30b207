-- ===== src/Schedule/Claim/Due.antt =====
-- When a claim is granted: in a worker's own time, or after a foreign deadline.
use nginx_healthcheck_module.Base.{
  ℕ, ◌+◌, ◌≤◌, ◌≡◌, ◌≢◌, refl, sym, subst, ◌⊎◌, inl, inr, true, false, Option, none, some, arith,
  ◌∙◌, ap, ◌==◌, ==_refl, Bool-cases, if◌then◌else◌,
}
use nginx_healthcheck_module.Time.{add_time}
use nginx_healthcheck_module.Env.{Env, IsReading}
use nginx_healthcheck_module.Config.{SrvConf}
use nginx_healthcheck_module.State.{PeerState, Phase, initial, waiting, preparing, inflight}
use nginx_healthcheck_module.Slots.{current, publish}
use nginx_healthcheck_module.Slots.Crash.{current-publish}
use nginx_healthcheck_module.Runtime.{ok, is_running, phase_code, Probe, Runtime, Shared, set_peer}
use nginx_healthcheck_module.Schedule.Claim.{
  admit, is_foreign, peer_deadline, claim_verdict, regular_verdict, takeover_verdict, claimed_state,
  Claimed, claim,
}
use nginx_healthcheck_module.Schedule.Claim.Cases.{ClaimCases, kept, began, claim-cases}

-- In the worker's own time: the peer is its own and no other instance has taken it, no round is
-- running, and the interval since the start of the last round is over.
pub record IsDue (c : SrvConf) (r : Runtime) (s : PeerState) (ms : ℕ) : Type 0 where
  pub mine : s.worker ≡ r.worker
  pub untaken : (s.instance_id ≡ 0) ⊎ (s.instance_id ≡ r.instance_id)
  pub idle : (s.phase ≡ initial) ⊎ (s.phase ≡ waiting)
  pub rested : (s.started ≡ 0) ⊎ (add_time s.started c.check_interval ≤ ms)

-- A takeover: the observed round is still the peer's, it is another worker's or another instance's,
-- and its deadline and the grace period are over.
pub record IsOverdue (c : SrvConf) (r : Runtime) (sh : Shared) (o s : PeerState) (ms : ℕ)
    : Type 0 where
  pub same_term : s.term ≡ o.term
  pub same_round : s.round ≡ o.round
  pub same_phase : s.phase ≡ o.phase
  pub same_deadline : s.deadline ≡ o.deadline
  pub foreign : (s.worker ≢ r.worker) ⊎ (s.instance_id ≢ r.instance_id)
  pub late : add_time (peer_deadline c sh s) r.grace ≤ ms

-- The state `s'` of a round that process `e` begins at `ms` milliseconds, over the state `s`.
pub record IsNewRound (e : Env) (c : SrvConf) (r : Runtime) (s s' : PeerState) (ms : ℕ)
    : Type 0 where
  pub worker : s'.worker ≡ r.worker
  pub owner : s'.owner ≡ e.pid
  pub instance_id : s'.instance_id ≡ r.instance_id
  pub next_round : s'.round ≡ s.round + 1
  pub next_term : (s.worker ≢ r.worker) ⊎ (s.instance_id ≢ r.instance_id) → s'.term ≡ s.term + 1
  pub own_term : s.worker ≡ r.worker → s.instance_id ≡ r.instance_id → s'.term ≡ s.term
  pub started : s'.started ≡ ms
  pub phase : s'.phase ≡ preparing
  pub deadline : s'.deadline ≡ add_time ms c.check_timeout
  pub health : s'.health ≡ s.health

pub IsTimely : SrvConf → Runtime → Shared → Option PeerState → PeerState → ℕ → Type 0
IsTimely c r sh none s ms = IsDue c r s ms
IsTimely c r sh (some o) s ms = IsOverdue c r sh o s ms

pub current-set_peer :
    (sh : Shared) (i : ℕ) (s : PeerState)
    → current ((set_peer sh i (publish (sh.peers i) s)).peers i) ≡ s
current-set_peer sh i s = rw (==_refl i) (current-publish (sh.peers i) s)

running-not : (x : Phase) → is_running x ≡ false → (x ≡ initial) ⊎ (x ≡ waiting)
running-not initial h = inl refl
running-not waiting h = inr refl
running-not preparing h = absurd (cc)
running-not inflight h = absurd (cc)

phase_of : ℕ → Phase
phase_of n =
    if n == 0 then initial else if n == 1 then waiting else if n == 2 then preparing else inflight

phase_of-phase_code : (x : Phase) → phase_of (phase_code x) ≡ x
unfolding phase_of
phase_of-phase_code initial = refl
phase_of-phase_code waiting = refl
phase_of-phase_code preparing = refl
phase_of-phase_code inflight = refl

phase_code-injective : (x y : Phase) → phase_code x ≡ phase_code y → x ≡ y
phase_code-injective x y h = sym (phase_of-phase_code x) ∙ ap phase_of h ∙ phase_of-phase_code y

foreign-cases :
    (r : Runtime) (s : PeerState)
    → is_foreign r s ≡ true
    → (s.worker ≢ r.worker) ⊎ (s.instance_id ≢ r.instance_id)
foreign-cases r s h = elim (Bool-cases (s.worker == r.worker)) [
  | inl same ↦ inr (λ k. ground arith)
  | inr other ↦ inl (λ k. ground arith)
]

regular-IsDue :
    (c : SrvConf) (r : Runtime) (s : PeerState) (ms : ℕ)
    → regular_verdict c r s ms ≡ admit
    → IsDue c r s ms
unfolding regular_verdict
regular-IsDue c r s ms h = record {
  mine = ground arith;
  untaken = elim (Bool-cases (s.instance_id == 0)) [
    | inl free ↦ inl (ground arith)
    | inr taken ↦ inr (ground arith)
  ];
  idle = running-not s.phase (ground arith);
  rested = elim (Bool-cases (s.started == 0)) [
    | inl fresh ↦ inl (ground arith)
    | inr started ↦ inr (ground arith)
  ];
}

takeover-IsOverdue :
    (c : SrvConf) (r : Runtime) (sh : Shared) (o s : PeerState) (ms : ℕ)
    → takeover_verdict c r sh o s ms ≡ admit
    → IsOverdue c r sh o s ms
unfolding takeover_verdict
takeover-IsOverdue c r sh o s ms h = record {
  same_term = ground arith;
  same_round = ground arith;
  same_phase = phase_code-injective s.phase o.phase (ground arith);
  same_deadline = ground arith;
  foreign = foreign-cases r s (ground arith);
  late = ground arith;
}

verdict-IsTimely :
    (c : SrvConf) (r : Runtime) (sh : Shared) (o : Option PeerState) (s : PeerState) (ms : ℕ)
    → claim_verdict c r sh o s ms ≡ admit
    → IsTimely c r sh o s ms
unfolding claim_verdict IsTimely
verdict-IsTimely c r sh none s ms h = regular-IsDue c r s ms h
verdict-IsTimely c r sh (some o) s ms h = takeover-IsOverdue c r sh o s ms h

claimed_state-IsNewRound :
    (e : Env) (c : SrvConf) (r : Runtime) (s : PeerState) (ms : ℕ)
    → IsNewRound e c r s (claimed_state e c r s ms) ms
unfolding claimed_state
claimed_state-IsNewRound e c r s ms = record {
  worker = refl;
  owner = refl;
  instance_id = refl;
  next_round = refl;
  next_term = λ h. ground arith;
  own_term = λ h k. ground arith;
  started = refl;
  phase = refl;
  deadline = refl;
  health = refl;
}

-- A round that was granted at a time that the claim read, between ticks `t` and `t + 2`.
pub record Granted (e : Env) (c : SrvConf) (r : Runtime) (sh : Shared) (observed : Option PeerState)
    (s s' : PeerState) (t : ℕ) : Type 0 where
  pub ms : ℕ
  pub at : ℕ
  pub in_time : (t ≤ at) × (at ≤ t + 2)
  pub clock : IsReading e at ms
  pub timely : IsTimely c r sh observed s ms
  pub begins : IsNewRound e c r s s' ms

begun-IsTimely :
    (e : Env) (c : SrvConf) (r : Runtime) (sh : Shared) (i : ℕ) (o : Option PeerState) (t : ℕ)
    (p : Option Probe) (k : Claimed)
    → k.rc ≡ ok
    → ClaimCases e c r sh i o t p k
    → Granted e c r sh o (current (sh.peers i)) (current (k.shared.peers i)) t
begun-IsTimely e c r sh i o t p k h (kept fails same idle) = absurd (fails h)
begun-IsTimely e c r sh i o t p k h (began b) =
    let s = current (sh.peers i) in
    let left : current (k.shared.peers i) ≡ claimed_state e c r s b.ms =
      ap (λ (x : Shared). current (x.peers i)) b.published
      ∙ current-set_peer sh i (claimed_state e c r s b.ms) in
    record {
      ms = b.ms;
      at = b.at;
      in_time = b.in_time;
      clock = b.clock;
      timely = verdict-IsTimely c r sh o _ b.ms b.admitted;
      begins =
          subst (λ x. IsNewRound e c r s x b.ms) (sym left) (claimed_state-IsNewRound e c r s b.ms);
    }

-- Whatever the clock, the locks, the memory and the other processes answer: a claim that is granted
-- was due at a time that it read from the clock (a regular one: the peer is the worker's own and no
-- other instance's, no round is running, and an interval has passed since the last start; a takeover:
-- the observed round is another instance's, past its deadline and the grace period), and it leaves
-- the peer in the next round, of this process, which started at that time.
pub claim-IsTimely :
    (e : Env) (c : SrvConf) (r : Runtime) (p : Option Probe) (sh : Shared) (i : ℕ)
    (observed : Option PeerState) (limit t : ℕ)
    → let k = claim e c r p sh i observed limit t in
      k.rc ≡ ok → Granted e c r sh observed (current (sh.peers i)) (current (k.shared.peers i)) t
claim-IsTimely e c r p sh i observed limit t h =
    let (g, given, cases) = claim-cases e c r sh i observed t p limit in
    begun-IsTimely e c r sh i observed t g _ h cases
