-- ===== src/Schedule/Register/Keeps.antt =====
-- A registration leaves every peer alone.
use nginx_healthcheck_module.Base.{
  ℕ, ◌+◌, ◌≡◌, ◌∙◌, refl, inl, inr, Option, none, some, arith, Bool-cases, Option-cases,
}
use nginx_healthcheck_module.Env.{Env, now, activation_mutex, worker_mutex}
use nginx_healthcheck_module.Lock.{lock}
use nginx_healthcheck_module.State.{PeerState}
use nginx_healthcheck_module.Slots.{Slots}
use nginx_healthcheck_module.Runtime.{Runtime, Shared}
use nginx_healthcheck_module.Schedule.Register.{
  activate, register_locked, register_active, register,
}

module _ (e : Env) (r : Runtime) (s : Shared) (i : ℕ) where
  register_locked-peers : (n t : ℕ) → (register_locked e n r s t).shared.peers i ≡ s.peers i
  unfolding register_locked
  register_locked-peers n t = ground arith

  -- The record of the peer in what an activation leaves, if it leaves something.
  abbrev peer_after : Option Shared → Slots PeerState
  peer_after none = s.peers i
  peer_after (some s') = s'.peers i

  activate-peers : (n limit t : ℕ) → peer_after (activate e n s limit t).0 ≡ s.peers i
  unfolding activate
  activate-peers n limit t = elim (Bool-cases s.activated) [
    | inl active ↦ rw (active, activate)
    | inr first ↦ elim (Bool-cases (lock e activation_mutex limit t).0) [
      | inl held ↦ rw (first, held, activate)
      | inr no_lock ↦ rw (first, no_lock, activate)
    ]
  ]

register_active-peers :
    (e : Env) (r : Runtime) (s : Shared) (i n limit : ℕ) (o : Option Shared) (t : ℕ)
    → peer_after e r s i o ≡ s.peers i
    → (register_active e n r s limit (o, t)).shared.peers i ≡ s.peers i
unfolding register_active
register_active-peers e r s i n limit none t h = refl
register_active-peers e r s i n limit (some s') t h =
    elim (Bool-cases (lock e (worker_mutex r.worker) limit t).0) [
      | inl held ↦ rw (held, register_active) (register_locked-peers e r s' i n _ ∙ h)
      | inr no_lock ↦ rw (no_lock, register_active) (h)
    ]

pub register-peers :
    (e : Env) (r : Runtime) (s : Shared) (i limit t : ℕ)
    → (register e r s limit t).shared.peers i ≡ s.peers i
unfolding register
register-peers e r s i limit t = elim (Option-cases (now e t)) [
  | inl fails ↦ rw (fails, register) refl
  | inr (n, reading) ↦
      let a = activate e n s limit (t + 1) in
      rw (reading, register)
        (register_active-peers e r s i n limit a.0 a.1 (activate-peers e r s i n limit (t + 1)))
]
