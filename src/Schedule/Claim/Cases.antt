-- ===== src/Schedule/Claim/Cases.antt =====
-- A claim either changes nothing shared, or begins a round.
use nginx_healthcheck_module.Base.{
  ℕ, ◌+◌, ◌≤◌, ◌≡◌, ◌≢◌, refl, ◌⊎◌, inl, inr, Bool, false, Option, none, some, arith, ◌/◌,
  Bool-cases, Option-cases, ◌||◌, not,
}
use nginx_healthcheck_module.Time.{timer_delay}
use nginx_healthcheck_module.Env.{Env, now, IsReading, worker_mutex, peer_mutex}
use nginx_healthcheck_module.Lock.{lock, limit_from}
use nginx_healthcheck_module.Config.{SrvConf}
use nginx_healthcheck_module.State.{PeerState}
use nginx_healthcheck_module.Slots.{current, publish}
use nginx_healthcheck_module.Runtime.{
  ok, again, declined, error, Probe, zero_probe, Runtime, Shared, set_peer,
}
use nginx_healthcheck_module.Schedule.Owned.{registration_differs}
use nginx_healthcheck_module.Schedule.Claim.{
  Verdict, admit, retry, decline, wait_for, claim_verdict, is_exhausted, claimed_state,
  claimed_probe, Claimed, claim_locked, claim_at, claim_with, claim,
}

module _ (e : Env) (c : SrvConf) (r : Runtime) (sh : Shared) (i : ℕ) (observed : Option PeerState)
    (from : ℕ) where
  -- The round that a claim begins at `ms` milliseconds.
  pub record Begun (k : Claimed) : Type 0 where
    pub granted : k.rc ≡ ok
    pub ms : ℕ
    pub at : ℕ
    pub in_time : (from ≤ at) × (at ≤ from + 2)
    pub clock : IsReading e at ms
    pub registered :
        registration_differs e.pid r.instance_id (current (sh.workers r.worker)) ≡ false
    pub admitted : claim_verdict c r sh observed (current (sh.peers i)) ms ≡ admit
    pub room : is_exhausted r (current (sh.peers i)) ≡ false
    pub published :
        k.shared
        ≡ set_peer sh i (publish (sh.peers i) (claimed_state e c r (current (sh.peers i)) ms))
    pub timed : k.check_timer ≡ some (timer_delay c.check_interval)
    pub old_probe : Probe
    pub probed :
        k.probe ≡ some (claimed_probe c r (claimed_state e c r (current (sh.peers i)) ms) old_probe)

  -- `g` is the probe that the claim works on.
  pub data ClaimCases (g : Option Probe) (k : Claimed) : Type 0 where
    kept : k.rc ≢ ok → k.shared ≡ sh → k.probe ≡ g → ClaimCases g k
    began : Begun k → ClaimCases g k

  refused :
      {g : Option Probe} {k : Claimed}
      → k.shared ≡ sh
      → (k.rc ≡ again) ⊎ ((k.rc ≡ declined) ⊎ (k.rc ≡ error))
      → k.probe ≡ g
      → ClaimCases g k
  refused same why idle = kept (ground arith) same idle

  claim_locked-admit :
      (p : Probe) (ms t u : ℕ)
      → (from ≤ u) × (u ≤ from + 2)
      → IsReading e u ms
      → registration_differs e.pid r.instance_id (current (sh.workers r.worker)) ≡ false
      → claim_verdict c r sh observed (current (sh.peers i)) ms ≡ admit
      → ClaimCases (some p) (claim_locked e c r p sh i observed ms t)
  unfolding claim_locked
  claim_locked-admit p ms t u timely clock h a =
      elim (Bool-cases (is_exhausted r (current (sh.peers i)))) [
        | inl full ↦ refused (ground arith) (ground arith) (ground arith)
        | inr room ↦ began (record {
          granted = ground arith;
          ms = ms;
          at = u;
          in_time = timely;
          clock = clock;
          registered = h;
          admitted = a;
          room = room;
          published = ground arith;
          timed = ground arith;
          old_probe = p;
          probed = ground arith;
        })
      ]

  claim_locked-cases :
      (p : Probe) (ms t u : ℕ) (v : Verdict)
      → (from ≤ u) × (u ≤ from + 2)
      → IsReading e u ms
      → registration_differs e.pid r.instance_id (current (sh.workers r.worker)) ≡ false
      → claim_verdict c r sh observed (current (sh.peers i)) ms ≡ v
      → ClaimCases (some p) (claim_locked e c r p sh i observed ms t)
  unfolding claim_locked
  claim_locked-cases p ms t u admit timely clock h a = claim_locked-admit p ms t u timely clock h a
  claim_locked-cases p ms t u retry timely clock h a =
      refused (ground arith) (ground arith) (ground arith)
  claim_locked-cases p ms t u decline timely clock h a =
      refused (ground arith) (ground arith) (ground arith)
  claim_locked-cases p ms t u (wait_for w) timely clock h a =
      refused (ground arith) (ground arith) (ground arith)

  claim_at-cases :
      (p : Probe) (limit n t u : ℕ)
      → (from ≤ u) × (u ≤ from + 2)
      → now e u ≡ some n
      → ClaimCases (some p) (claim_at e c r p sh i observed limit n t)
  unfolding claim_at
  claim_at-cases p limit n t u timely reading =
      let w = lock e (worker_mutex r.worker) (limit_from limit n) t in
      let q = lock e (peer_mutex i) (limit_from limit n) w.1 in
      let reg = current (sh.workers r.worker) in
      elim (Bool-cases w.0) [
        | inr no_lock ↦ refused (ground arith) (ground arith) (ground arith)
        | inl held ↦ elim (Bool-cases (registration_differs e.pid r.instance_id reg)) [
          | inl differs ↦ refused (ground arith) (ground arith) (ground arith)
          | inr same ↦ elim (Bool-cases q.0) [
            | inr no_lock ↦ refused (ground arith) (ground arith) (ground arith)
            | inl held_too ↦
                rw (held, same, held_too, claim_at)
                  (claim_locked-cases p (n / 1_000_000) q.1 u _ timely
                    (record { nanoseconds = n; reading = reading; rounded = refl }) same refl)
          ]
        ]
      ]

  claim_with-cases :
      (p : Probe) (limit t : ℕ)
      → (from ≤ t) × (t ≤ from + 2)
      → ClaimCases (some p) (claim_with e c r p sh i observed limit t)
  unfolding claim_with
  claim_with-cases p limit t timely = elim (Bool-cases (p.active || p.pending)) [
    | inl busy ↦ refused (ground arith) (ground arith) (ground arith)
    | inr free ↦ elim (Option-cases (now e t)) [
      | inl fails ↦ refused (ground arith) (ground arith) (ground arith)
      | inr (n, reading) ↦
          rw (free, reading, claim_with) (claim_at-cases p limit n (t + 1) t timely reading)
    ]
  ]

  abbrev is_stopped : ℕ → Bool
  is_stopped t = not r.registered || r.stopping || e.quitting t

  -- The probe of a claim: the peer's, or one that is allocated for it.
  abbrev pub IsGiven : Option Probe → Option Probe → Type 0
  IsGiven p g = (g ≡ p) ⊎ (g ≡ some zero_probe)

  pub claim-cases :
      (p : Option Probe) (limit : ℕ)
      → (g : Option Probe) × IsGiven p g × ClaimCases g (claim e c r p sh i observed limit from)
  unfolding claim
  claim-cases none limit = elim (Bool-cases (is_stopped from)) [
    | inl stopped ↦ (none, inl refl, refused (ground arith) (ground arith) (ground arith))
    | inr running ↦ elim (Bool-cases (e.alloc (from + 1))) [
      | inl memory ↦ (
        some zero_probe,
        inr refl,
        rw (running, memory, claim) (claim_with-cases zero_probe limit (from + 2) (omega arith)),
      )
      | inr full ↦ (none, inl refl, refused (ground arith) (ground arith) (ground arith))
    ]
  ]
  claim-cases (some q) limit = elim (Bool-cases (is_stopped from)) [
    | inl stopped ↦ (some q, inl refl, refused (ground arith) (ground arith) (ground arith))
    | inr running ↦
        (some q, inl refl, rw (running, claim) (claim_with-cases q limit (from + 1) (omega arith)))
  ]
