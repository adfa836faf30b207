-- ===== src/Schedule/Preferred/Eligible.antt =====
-- A worker that finds itself preferred is registered and live, and does not hold the peer.
use nginx_healthcheck_module.Base.{
  ℕ, zero, suc, ◌+◌, ◌≤◌, ◌<◌, ◌≡◌, ◌≢◌, ◌⊎◌, ◌==◌, subst, inl, inr, true, false, Option, none,
  some, ltb, Bytes, arith, Bool-cases, Option-cases,
}
use nginx_healthcheck_module.Env.{Env, now, worker_mutex}
use nginx_healthcheck_module.Lock.{lock}
use nginx_healthcheck_module.Lock.Ticks.{lock-ticks}
use nginx_healthcheck_module.State.{PeerState, WorkerState}
use nginx_healthcheck_module.Slots.{Slots, current, read_worker}
use nginx_healthcheck_module.Runtime.{Runtime, Shared}
use nginx_healthcheck_module.Schedule.Preferred.{
  score, is_passed_over, better, weighed, preferred_loop, is_best, preferred,
}

read_worker-current :
    (e : Env) (i : ℕ) (slots : Slots WorkerState) (limit t : ℕ) (w : WorkerState)
    → (read_worker e i slots limit t).0 ≡ some w
    → w ≡ current slots
unfolding read_worker
read_worker-current e i slots limit t w h = elim (Bool-cases (lock e (worker_mutex i) limit t).0) [
  | inl held ↦ ground arith
  | inr no_lock ↦ absurd (ground arith)
]

-- The lock takes no ticks back.
read_worker-ticks :
    (e : Env) (i : ℕ) (slots : Slots WorkerState) (limit t : ℕ)
    → t ≤ (read_worker e i slots limit t).1
unfolding read_worker
read_worker-ticks e i slots limit t =
    let k = lock-ticks e (worker_mutex i) limit t in
    elim (Bool-cases (lock e (worker_mutex i) limit t).0) [
      | inl held ↦ ground arith
      | inr no_lock ↦ ground arith
    ]

module _ (e : Env) (hash : Bytes → ℕ) (r : Runtime) (zone : ℕ → Shared) (index : ℕ) (s : PeerState)
    (ms limit : ℕ) where
  -- The slot of worker `i` was read from the zone, before the limit: it is registered, not exiting, has
  -- given a sign of life within the grace period, and is not the instance that has the peer.
  pub record IsEligible (from i : ℕ) : Type 0 where
    pub at : ℕ
    pub later : from ≤ at
    pub fresh : (n : ℕ) × (now e at ≡ some n) × (n < limit)
    pub slot : WorkerState
    pub read : (read_worker e i ((zone (at + 1)).workers i) limit (at + 1)).0 ≡ some slot
    pub published : slot ≡ current ((zone (at + 1)).workers i)
    pub registered : slot.instance_id ≢ 0
    pub stays : slot.exiting ≡ false
    pub lives : (slot.heartbeat ≤ ms) × (ms < slot.heartbeat + r.grace)
    pub other : (i ≢ s.worker) ⊎ (slot.instance_id ≢ s.instance_id)

  passed_over-cases :
      (i : ℕ) (w : WorkerState)
      → is_passed_over r s ms i w ≡ false
      → (i ≢ s.worker) ⊎ (w.instance_id ≢ s.instance_id)
  passed_over-cases i w h = elim (Bool-cases (i == s.worker)) [
    | inl same ↦ inr (λ k. ground arith)
    | inr other ↦ inl (λ k. ground arith)
  ]

  -- The best worker yet, and those that follow, are below the number of workers.
  BestIsEligible : ℕ → Option (ℕ × ℕ) → Type 0
  BestIsEligible from none = Unit
  BestIsEligible from (some (i, n)) = IsEligible from i × (i < r.workers)

  better-IsEligible :
      (from : ℕ) (best : Option (ℕ × ℕ)) (i n : ℕ)
      → BestIsEligible from best
      → IsEligible from i
      → i < r.workers
      → BestIsEligible from (better best i n)
  unfolding BestIsEligible
  better-IsEligible from none i n v w below = (w, below)
  better-IsEligible from (some (j, m)) i n v w below = elim (Bool-cases (ltb m n)) [
    | inl higher ↦ rw higher (w, below)
    | inr no_higher ↦ rw no_higher v
  ]

  weighed-IsEligible :
      (from : ℕ) (best : Option (ℕ × ℕ)) (i t : ℕ)
      → from ≤ t
      → (n : ℕ) × (now e t ≡ some n) × (n < limit)
      → BestIsEligible from best
      → i < r.workers
      → let read = read_worker e i ((zone (t + 1)).workers i) limit (t + 1) in
        BestIsEligible from (weighed e hash r zone index s ms limit best i read.0)
  weighed-IsEligible from best i t later fresh v below =
      let read = read_worker e i ((zone (t + 1)).workers i) limit (t + 1) in
      elim (Option-cases read.0) [
        | inl fails ↦ rw fails v
        | inr (w, reads) ↦
            let at = read_worker-current e i ((zone (t + 1)).workers i) limit (t + 1) w reads in
            elim (Bool-cases (is_passed_over r s ms i w)) [
              | inl passed ↦ rw (reads, passed) v
              | inr kept ↦
                  rw (reads, kept)
                    (better-IsEligible from best i (score hash r index i) v
                      (record {
                        at = t;
                        later = later;
                        fresh = fresh;
                        slot = w;
                        read = reads;
                        published = at;
                        registered = λ h. ground arith;
                        stays = ground arith;
                        lives = ground arith;
                        other = passed_over-cases i w kept;
                      })
                      below)
            ]
      ]

  loop-fresh :
      (left i : ℕ) (best o : Option (ℕ × ℕ)) (t : ℕ)
      → preferred_loop e hash r zone index s ms limit (suc left) i best t ≡ some o
      → (n : ℕ) × (now e t ≡ some n) × (n < limit)
  unfolding preferred_loop
  loop-fresh left i best o t h = elim (Option-cases (now e t)) [
    | inl fails ↦ absurd (ground arith)
    | inr (n, reading) ↦ (n, reading, ground arith)
  ]

  loop-IsEligible :
      (from left i : ℕ) (best o : Option (ℕ × ℕ)) (t : ℕ)
      → from ≤ t
      → i + left ≡ r.workers
      → BestIsEligible from best
      → preferred_loop e hash r zone index s ms limit left i best t ≡ some o
      → BestIsEligible from o
  unfolding preferred_loop
  loop-IsEligible from zero i best o t later all v h = subst (BestIsEligible from) (ground arith) v
  loop-IsEligible from (suc left) i best o t later all v h =
      let read = read_worker e i ((zone (t + 1)).workers i) limit (t + 1) in
      let ticks = read_worker-ticks e i ((zone (t + 1)).workers i) limit (t + 1) in
      loop-IsEligible from left (suc i) (weighed e hash r zone index s ms limit best i read.0) o
        read.1 (omega (arith, ticks)) (omega arith)
        (weighed-IsEligible from best i t later (loop-fresh left i best o t h) v (omega arith))
        (ground arith)

  best-IsEligible :
      (from : ℕ) (o : Option (ℕ × ℕ))
      → BestIsEligible from o
      → is_best e hash r zone index s ms limit (some o) ≡ true
      → IsEligible from r.worker × (r.worker < r.workers)
  unfolding BestIsEligible
  best-IsEligible from none v h = absurd (ground arith)
  best-IsEligible from (some (i, n)) v h =
      let mine : i ≡ r.worker = ground arith in
      subst (λ j. IsEligible from j × (j < r.workers)) mine v

  -- A worker that finds itself preferred has a number below the number of workers, and its own slot was
  -- read, after a reading of the clock before the limit, with a registration that is not exiting, whose
  -- heartbeat is less than the grace period old, and that does not hold the peer: whatever the clock and
  -- the locks answer.
  pub preferred-IsEligible :
      (t : ℕ)
      → preferred e hash r zone index s ms limit t ≡ true
      → IsEligible t r.worker × (r.worker < r.workers)
  unfolding preferred BestIsEligible
  preferred-IsEligible t h =
      elim (Option-cases (preferred_loop e hash r zone index s ms limit r.workers 0 none t)) [
        | inl stops ↦ absurd (ground arith)
        | inr (o, ends) ↦
            best-IsEligible t o
              (loop-IsEligible t r.workers 0 none o t (omega arith) (omega arith) tt ends)
              (ground arith)
      ]
