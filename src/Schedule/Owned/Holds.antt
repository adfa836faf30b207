-- ===== src/Schedule/Owned/Holds.antt =====
-- What both locks vouch for: the registration and the round are still the probe's own.
use nginx_healthcheck_module.Base.{
  ℕ, ◌+◌, ◌≡◌, inl, inr, Bool, false, not, ◌&&◌, ◌||◌, ◌==◌, if◌then◌else◌, arith, Bool-cases,
  Option-cases,
}
use nginx_healthcheck_module.Time.{add_time}
use nginx_healthcheck_module.Env.{Env, now, worker_mutex, peer_mutex}
use nginx_healthcheck_module.Lock.{lock, lock_ns}
use nginx_healthcheck_module.State.{PeerState}
use nginx_healthcheck_module.Slots.{current}
use nginx_healthcheck_module.Runtime.{Probe, Runtime, Shared}
use nginx_healthcheck_module.Schedule.Owned.{
  owned, registration_differs, round_differs, owned_within, owned_lock,
}

module _ (e : Env) (r : Runtime) (p : Probe) (sh : Shared) (i : ℕ) where
  pub record Holds (s : PeerState) : Type 0 where
    pub registered :
        registration_differs e.pid p.instance_id (current (sh.workers r.worker)) ≡ false
    pub same_round : round_differs e.pid r p s ≡ false
    pub read : s ≡ current (sh.peers i)

  owned_within-Holds :
      (limit t : ℕ) {s : PeerState} → (owned_within e r p sh i limit t).0 ≡ owned s → Holds s
  unfolding owned_within
  owned_within-Holds limit t {s} h =
      let w = lock e (worker_mutex r.worker) limit t in
      let q = lock e (peer_mutex i) limit w.1 in
      let reg = current (sh.workers r.worker) in
      elim (Bool-cases w.0) [
        | inr no_lock ↦ absurd (ground arith)
        | inl held ↦ elim (Bool-cases (registration_differs e.pid p.instance_id reg)) [
          | inl differs ↦ absurd (ground arith)
          | inr same ↦ elim (Bool-cases q.0) [
            | inr no_lock ↦ absurd (ground arith)
            | inl held_too ↦ elim (Bool-cases (round_differs e.pid r p (current (sh.peers i)))) [
              | inl differs ↦ absurd (ground arith)
              | inr round ↦
                  let read : s ≡ current (sh.peers i) = ground arith in
                  record { registered = same; same_round = rw read round; read = read }
            ]
          ]
        ]
      ]

  abbrev budgeted : ℕ → ℕ
  budgeted limit = if limit == 0 && not (r.budget == 0) then r.budget else limit

  abbrev turned_away : ℕ → Bool
  turned_away t = r.stopping || e.quitting t || not (p.generation == r.generation)

  owned_lock-running :
      (limit t : ℕ) {s : PeerState}
      → (owned_lock e r p sh i limit t).0 ≡ owned s
      → turned_away t ≡ false
      → Holds s
  unfolding owned_lock
  owned_lock-running limit t {s} h stay = elim (Bool-cases (budgeted limit == 0)) [
    | inr given ↦ owned_within-Holds (budgeted limit) (t + 1) (ground arith)
    | inl fresh ↦ elim (Option-cases (now e (t + 1))) [
      | inl fails ↦ absurd (ground arith)
      | inr (n, reading) ↦ owned_within-Holds (add_time n lock_ns) (t + 2) (ground arith)
    ]
  ]

  -- A process that stops, or a probe of another generation, never gets the locks.
  owned_lock-stays :
      (limit t : ℕ) {s : PeerState}
      → (owned_lock e r p sh i limit t).0 ≡ owned s
      → turned_away t ≡ false
  unfolding owned_lock
  owned_lock-stays limit t h = ground arith

  pub owned_lock-Holds :
      (limit t : ℕ) {s : PeerState} → (owned_lock e r p sh i limit t).0 ≡ owned s → Holds s
  owned_lock-Holds limit t {s} h = owned_lock-running limit t h (owned_lock-stays limit t h)
