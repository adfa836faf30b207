-- ===== src/Lock/Ticks.antt =====
-- Taking a mutex only goes forward in time.
use nginx_healthcheck_module.Base.{
  ℕ, zero, suc, ◌+◌, ◌≤◌, ◌≡◌, refl, inl, inr, Bool, Option, none, some, leb, arith, Bool-cases,
  Option-cases,
}
use nginx_healthcheck_module.Env.{Env, Mutex, now}
use nginx_healthcheck_module.Lock.{lock, lock_loop, limit_from, out_of_fuel}

loop-ticks :
    (e : Env) (fuel : ℕ) (m : Mutex) (limit n t : ℕ) (held : Bool) (u : ℕ)
    → lock_loop e fuel m limit n t ≡ some (held, u)
    → t ≤ u
unfolding lock_loop
loop-ticks e zero m limit n t held u h = absurd (ground arith)
loop-ticks e (suc fuel) m limit n t held u h = elim (Bool-cases (leb limit n)) [
  | inl late ↦ ground arith
  | inr early ↦ elim (Bool-cases (e.trylock t m)) [
    | inl taken ↦ ground arith
    | inr busy ↦ elim (Option-cases (now e (t + 2))) [
      | inl fails ↦ ground arith
      | inr (n', reading) ↦
          let later = loop-ticks e fuel m limit n' (t + 3) held u (ground arith) in
          omega (arith, later)
    ]
  ]
]

fuel-ticks :
    (t : ℕ) (o : Option (Bool × ℕ))
    → ((held : Bool) (u : ℕ) → o ≡ some (held, u) → t ≤ u)
    → t ≤ (out_of_fuel t o).1
fuel-ticks t none h = omega arith
fuel-ticks t (some (held, u)) h = h held u refl

pub lock-ticks : (e : Env) (m : Mutex) (limit t : ℕ) → t ≤ (lock e m limit t).1
unfolding lock
lock-ticks e m limit t = elim (Option-cases (now e t)) [
  | inl fails ↦ ground arith
  | inr (n, reading) ↦
      let l = limit_from limit n in
      let fuel = suc (e.patience l t) in
      let later =
        fuel-ticks (t + 1) (lock_loop e fuel m l n (t + 1)) (loop-ticks e fuel m l n (t + 1)) in
      rw (reading, lock) (omega (arith, later))
]
