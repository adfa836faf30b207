-- ===== src/Rounds/Invariant.antt =====
-- Any interleaving of the operations of the processes keeps a peer and its history together.
pub mod States
pub mod Acts
use nginx_healthcheck_module.Base.{
  ℕ, zero, ◌+◌, ◌≡◌, refl, sym, subst, ◌∙◌, Bool, true, false, none, List, [], ◌∷◌, arith, length,
  if◌then◌else◌, ◌≤◌,
}
use nginx_healthcheck_module.Config.{SrvConf}
use nginx_healthcheck_module.State.{zero_health}
use nginx_healthcheck_module.Slots.{current}
use nginx_healthcheck_module.Health.Streak.{verdict, IsVerdict}
use nginx_healthcheck_module.Runtime.{Probe}
use nginx_healthcheck_module.Rounds.Defs.{Process, System, Action, act, run}
use nginx_healthcheck_module.Rounds.Invariant.States.{Sound, open_rounds}
use nginx_healthcheck_module.Rounds.Invariant.Acts.{Inv, peer_state, Known, act-Inv}

pub run-Inv :
    {c : SrvConf} {d : Bool} {i : ℕ} (actions : List (ℕ × Action)) (y : System)
    → Inv c d i y
    → Inv c d i (run c i y actions)
unfolding run
run-Inv [] y v = v
run-Inv ((j, a) ∷ rest) y v = run-Inv rest _ (act-Inv v j a)

-- A zone in which the peer `i` is initial, before any claim.
pub record IsFirst (c : SrvConf) (d : Bool) (i : ℕ) (y : System) : Type 0 where
  pub fresh : (peer_state i y).round ≡ 0
  pub idle : open_rounds (peer_state i y) ≡ 0
  pub healthy : (peer_state i y).health ≡ zero_health d
  pub unclaimed : (j : ℕ) → (y.processes j).probe ≡ none
  pub no_rounds : y.begun ≡ 0
  pub no_results : y.results ≡ []

zero-IsVerdict : (c : SrvConf) (d : Bool) → IsVerdict c d [] (zero_health d)
zero-IsVerdict c d = record { risen = refl; fallen = refl; judged = refl }

pub first-Inv : {c : SrvConf} {d : Bool} {i : ℕ} {y : System} → IsFirst c d i y → Inv c d i y
first-Inv {c} {d} {i} {y} w =
    let z = subst (λ h. IsVerdict c d [] h) (sym w.healthy) (zero-IsVerdict c d) in
    record {
      sound = record {
        counted = w.fresh ∙ sym w.no_rounds;
        fits = ground (arith, w.no_rounds);
        once = ground (arith, w.idle, w.no_results);
        judged = subst (λ hs. IsVerdict c d hs (peer_state i y).health) (sym w.no_results) z;
      };
      known = λ j p h. ground (arith, w.unclaimed j);
    }

-- In every interleaving of registrations, claims, I/O reports and submissions of any number of
-- processes, from a fresh zone: the peer's round is the number of claims that were granted, at most
-- that many results have been committed (one fewer while a round is running), and the down bit is
-- the verdict on the committed results.
pub run-Sound :
    (c : SrvConf) (d : Bool) (i : ℕ) (y : System) (actions : List (ℕ × Action))
    → IsFirst c d i y
    → let z = run c i y actions in
      let s = peer_state i z in
      (s.round ≡ z.begun)
      × (length z.results + open_rounds s ≤ z.begun)
      × (s.health.down ≡ verdict c d z.results)
run-Sound c d i y actions w =
    let v = (run-Inv actions y (first-Inv w)).sound in (v.counted, v.once, v.judged.judged)
