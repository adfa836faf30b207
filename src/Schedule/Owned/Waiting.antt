-- ===== src/Schedule/Owned/Waiting.antt =====
-- The report that I/O has begun: it touches only a round that is being prepared.
use nginx_healthcheck_module.Base.{
  ℕ, ◌≡◌, refl, inl, inr, subst, sym, true, arith, Bool-cases, ◌==◌,
}
use nginx_healthcheck_module.Env.{Env}
use nginx_healthcheck_module.State.{PeerState, preparing, Phase}
use nginx_healthcheck_module.Slots.{current, publish}
use nginx_healthcheck_module.Runtime.{Rc, is_running, phase_code, Probe, Runtime, Shared, set_peer}
use nginx_healthcheck_module.Schedule.Owned.{
  Owned, owned, not_now, not_mine, waiting_state, probe_waiting_owned, probe_waiting,
}
use nginx_healthcheck_module.Schedule.Owned.Holds.{owned_lock-Holds}

preparing-is_running :
    (f : Phase) → (phase_code f == phase_code preparing) ≡ true → is_running f ≡ true
preparing-is_running f h = ground arith

module _ (p : Probe) (sh : Shared) (i : ℕ) where
  pub data WaitingCases (k : Rc × Shared × Probe) : Type 0 where
    kept : k.1 ≡ sh → k.2.round ≡ p.round → WaitingCases k
    sent :
        is_running (current (sh.peers i)).phase ≡ true
        → k.1 ≡ set_peer sh i (publish (sh.peers i) (waiting_state p (current (sh.peers i))))
        → k.2.round ≡ p.round
        → WaitingCases k

  current-WaitingCases : WaitingCases (probe_waiting_owned p sh i (owned (current (sh.peers i))))
  unfolding probe_waiting_owned
  current-WaitingCases =
      let s = current (sh.peers i) in
      elim (Bool-cases (phase_code s.phase == phase_code preparing)) [
        | inl prep ↦
            rw (prep, probe_waiting_owned) (sent (preparing-is_running s.phase prep) refl refl)
        | inr other ↦ rw (other, probe_waiting_owned) (kept refl refl)
      ]

  owned-WaitingCases :
      (o : Owned)
      → ((s : PeerState) → o ≡ owned s → s ≡ current (sh.peers i))
      → WaitingCases (probe_waiting_owned p sh i o)
  owned-WaitingCases not_now h = unfold probe_waiting_owned in kept refl refl
  owned-WaitingCases not_mine h = unfold probe_waiting_owned in kept refl refl
  owned-WaitingCases (owned s) h =
      subst (λ x. WaitingCases (probe_waiting_owned p sh i (owned x))) (sym (h s refl))
        current-WaitingCases

pub probe_waiting-cases :
    (e : Env) (r : Runtime) (p : Probe) (sh : Shared) (i t : ℕ)
    → WaitingCases p sh i (probe_waiting e r p sh i t).0
unfolding probe_waiting
probe_waiting-cases e r p sh i t = elim (Bool-cases p.waiting_published) [
  | inl done ↦ rw (done, probe_waiting) (kept refl refl)
  | inr first ↦
      simp (first, probe_waiting)
        (owned-WaitingCases p sh i _ (λ s h. (owned_lock-Holds e r p sh i 0 t h).read))
]
