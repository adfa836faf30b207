-- ===== src/Lock/Total.antt =====
-- The lock loop ends, and it answers NGX_OK only when it has the mutex.
use nginx_healthcheck_module.Base.{
  ℕ, zero, suc, ◌+◌, ◌*◌, ◌≤◌, ◌<◌, ◌≡◌, ◌≢◌, refl, ◌⊎◌, inl, inr, Bool, true, false, Option, none,
  some, leb, arith, u64_max, Bool-cases, Option-cases,
}
use nginx_healthcheck_module.Time.{add_time_le}
use nginx_healthcheck_module.Env.{Env, Mutex, Late, now}
use nginx_healthcheck_module.Lock.{lock, lock_loop, limit_from, lock_ns, out_of_fuel}

module _ (e : Env) (m : Mutex) (limit : ℕ) where
  -- From a reading at tick `r`, with all readings from tick `late` on at the limit.
  lock_loop-returns :
      (late : ℕ)
      → ((u : ℕ) → late ≤ u → Late e.gettime limit u)
      → (fuel r n : ℕ) → now e r ≡ some n
      → late ≤ r + 3 * fuel
      → lock_loop e (suc fuel) m limit n (r + 1) ≢ none
  unfolding lock_loop now
  lock_loop-returns late h zero r n reading enough = ground (arith, h r)
  lock_loop-returns late h (suc fuel) r n reading enough = elim (Option-cases (now e (r + 1 + 2))) [
    | inl fails ↦ ground arith
    | inr (n', next) ↦
        ground (arith, lock_loop-returns late h fuel (r + 1 + 2) n' next (omega arith))
  ]

-- Why an attempt that reads the clock first at tick `r` ends before tick `t'`: with the mutex,
-- taken after a reading before the limit, or after a reading that failed or was at the limit.
pub data Outcome (e : Env) (m : Mutex) (limit r : ℕ) (t' : ℕ) : Bool → Type 0 where
  acquired :
      (v u n : ℕ)
      → r ≤ v
      → v < u
      → u < t'
      → now e v ≡ some n
      → n < limit
      → e.trylock u m ≡ true
      → Outcome e m limit r t' true
  expired : (u : ℕ) → r ≤ u → u < t' → Late e.gettime limit u → Outcome e m limit r t' false

module _ (e : Env) (m : Mutex) (limit : ℕ) where
  Outcome-mono :
      {r r' t' : ℕ} {ok : Bool} → r ≤ r' → Outcome e m limit r' t' ok → Outcome e m limit r t' ok
  Outcome-mono h (acquired v u n a b c d g i) = acquired v u n (omega arith) b c d g i
  Outcome-mono h (expired u a b l) = expired u (omega arith) b l

  expires :
      {r t' : ℕ} {ok : Bool} (u : ℕ)
      → ok ≡ false
      → r ≤ u
      → u < t'
      → Late e.gettime limit u
      → Outcome e m limit r t' ok
  expires u no_lock a b l = rw no_lock (expired u a b l)

  lock_loop-Outcome :
      (fuel r n : ℕ) (ok : Bool) (t' : ℕ)
      → now e r ≡ some n
      → lock_loop e fuel m limit n (r + 1) ≡ some (ok, t')
      → Outcome e m limit r t' ok
  unfolding lock_loop now
  lock_loop-Outcome zero r n ok t' reading h = absurd (ground arith)
  lock_loop-Outcome (suc fuel) r n ok t' reading h = elim (Bool-cases (leb limit n)) [
    | inl late ↦
        expires r (ground arith) (omega arith) (ground arith) (inr (n, reading, ground arith))
    | inr early ↦ elim (Bool-cases (e.trylock (r + 1) m)) [
      | inl taken ↦
          let got : ok ≡ true = ground arith in
          rw got (
            acquired r (r + 1) n (omega arith) (omega arith) (ground arith) reading (ground arith)
              taken)
      | inr busy ↦ elim (Option-cases (now e (r + 1 + 2))) [
        | inl fails ↦ expires (r + 1 + 2) (ground arith) (omega arith) (ground arith) (inl fails)
        | inr (n', next) ↦
            Outcome-mono (omega arith)
              (lock_loop-Outcome fuel (r + 1 + 2) n' ok t' next (ground arith))
      ]
    ]
  ]

  out_of_fuel-Outcome :
      {r : ℕ} (t : ℕ) (o : Option (Bool × ℕ))
      → o ≢ none
      → ((ok : Bool) (t' : ℕ) → o ≡ some (ok, t') → Outcome e m limit r t' ok)
      → Outcome e m limit r (out_of_fuel t o).1 (out_of_fuel t o).0
  out_of_fuel-Outcome t none returns h = absurd (returns refl)
  out_of_fuel-Outcome t (some (ok, t')) returns h = h ok t' refl

  loop-Outcome :
      (t n : ℕ)
      → limit ≤ u64_max
      → now e t ≡ some n
      → let o = out_of_fuel (t + 1) (lock_loop e (suc (e.patience limit t)) m limit n (t + 1)) in
        Outcome e m limit t o.1 o.0
  loop-Outcome t n fits reading =
      out_of_fuel-Outcome (t + 1) _
        (lock_loop-returns e m limit (t + e.patience limit t) (λ u. e.progress limit t u fits)
          (e.patience limit t) t n reading (omega arith))
        (λ ok t'. lock_loop-Outcome (suc (e.patience limit t)) t n ok t' reading)

-- Taking a mutex always ends, for every limit of at most 2 ^ 64 - 1: either the first reading of the
-- clock fails and the answer is NGX_AGAIN, or the answer is NGX_OK, with the mutex taken after a
-- reading before the limit, or it is NGX_AGAIN, after a reading that failed or had reached the limit.
pub lock-Outcome :
    (e : Env) (m : Mutex) (limit t : ℕ)
    → limit ≤ u64_max
    → (now e t ≡ none) × (lock e m limit t ≡ (false, t + 1))
      ⊎ ((n : ℕ) × (now e t ≡ some n)
          × Outcome e m (limit_from limit n) t (lock e m limit t).1 (lock e m limit t).0)
unfolding lock
lock-Outcome e m limit t fits = elim (Option-cases (now e t)) [
  | inl fails ↦ inl (fails, ground arith)
  | inr (n, reading) ↦
      let l_fits : limit_from limit n ≤ u64_max = ground (arith, add_time_le n lock_ns) in
      inr
        (n, reading, rw (reading, lock) (loop-Outcome e m (limit_from limit n) t n l_fits reading))
]
