-- ===== src/Rounds/Fencing.antt =====
-- A probe whose round has been taken over by another process changes nothing any more.
use nginx_healthcheck_module.Base.{
  ℕ, ◌≡◌, refl, inl, inr, subst, sym, ap, Bool, true, false, not, ◌&&◌, Option, none, some, List,
  [], ◌∷◌, arith, ◌≤◌, ◌<◌, ◌==◌, ==_refl, Bool-cases,
}
use nginx_healthcheck_module.Config.{SrvConf}
use nginx_healthcheck_module.Runtime.{Rc, Probe, Shared, update}
use nginx_healthcheck_module.Schedule.Owned.Waiting.{WaitingCases, kept, sent, probe_waiting-cases}
use nginx_healthcheck_module.Schedule.Submit.{Submitted, submit}
use nginx_healthcheck_module.Schedule.Submit.Cases.{SubmitCases, kept, commits, submit-cases}
use nginx_healthcheck_module.Rounds.Defs.{
  Process, System, Action, registers, claims, waits, resolves, submits, is_ok, act, act_probe, run,
}
use nginx_healthcheck_module.Rounds.Invariant.{IsFirst, first-Inv, run-Inv}
use nginx_healthcheck_module.Rounds.Invariant.Acts.{peer_state, resolve-round, is_ok-ne}

-- The process claims nothing in a run.
abbrev pub is_claim : Action → Bool
is_claim (claims _ _ _) = true
is_claim _ = false

abbrev pub never_claims : ℕ → List (ℕ × Action) → Bool
never_claims j [] = true
never_claims j ((k, a) ∷ rest) = not (k == j && is_claim a) && never_claims j rest

-- The probe, if there is one, is of the round `n` or an earlier one.
abbrev Behind : ℕ → Option Probe → Type 0
Behind n o = (p : Probe) → o ≡ some p → p.round ≤ n

Behind-same : (n : ℕ) (p k : Probe) → p.round ≤ n → k.round ≡ p.round → Behind n (some k)
Behind-same n p k old same g h = ground arith

update-at : (f : ℕ → Process) (j : ℕ) (q : Process) → update f j q j ≡ q
update-at f j q = rw (==_refl j) refl

update-other : (f : ℕ → Process) (j k : ℕ) (q : Process) → (j == k) ≡ false → update f k q j ≡ f j
update-other f j k q h = rw h refl

Behind-own :
    (n : ℕ) (f : ℕ → Process) (j : ℕ) (q : Process)
    → Behind n q.probe
    → Behind n (update f j q j).probe
Behind-own n f j q = subst (λ (x : Process). Behind n x.probe) (sym (update-at f j q))

module _ (c : SrvConf) (i j n : ℕ) (y : System) where
  abbrev probe_of : System → Option Probe
  probe_of z = (z.processes j).probe

  waits-Behind :
      (p : Probe) (k : Rc × Shared × Probe)
      → p.round ≤ n
      → WaitingCases p y.shared i k
      → Behind n (some k.2)
  waits-Behind p k old (kept same round) = Behind-same n p k.2 old round
  waits-Behind p k old (sent running published round) = Behind-same n p k.2 old round

  submits-Behind :
      (q : Process) (p : Probe) (k : Submitted)
      → p.round ≤ n
      → SubmitCases q.env c q.runtime p y.shared i k
      → Behind n (some k.probe)
  submits-Behind q p k old (kept fails same idle) =
      Behind-same n p k.probe old (ap (λ (x : Probe). x.round) idle)
  submits-Behind q p k old (commits b) =
      Behind-same n p k.probe old (ap (λ (x : Probe). x.round) b.settled)

  act_probe-Behind :
      (a : Action) (p : Probe)
      → probe_of y ≡ some p
      → p.round ≤ n
      → Behind n (probe_of (act_probe c i y j (y.processes j) a (some p)))
  unfolding act_probe
  act_probe-Behind (registers limit t) p h old = rw h (Behind-same n p p old refl)
  act_probe-Behind (claims observed limit t) p h old = rw h (Behind-same n p p old refl)
  act_probe-Behind (waits t) p h old =
      let q = y.processes j in
      Behind-own n y.processes j _
        (waits-Behind p _ old (probe_waiting-cases q.env q.runtime p y.shared i t))
  act_probe-Behind (resolves result t) p h old =
      let q = y.processes j in
      Behind-own n y.processes j _ (Behind-same n p _ old (resolve-round q.env c p result t))
  act_probe-Behind (submits limit t) p h old =
      let q = y.processes j in
      Behind-own n y.processes j _
        (submits-Behind q p _ old (submit-cases q.env c q.runtime p y.shared i limit t))

  act_option-Behind :
      (a : Action) (o : Option Probe)
      → probe_of y ≡ o
      → Behind n o
      → Behind n (probe_of (act_probe c i y j (y.processes j) a o))
  act_option-Behind a none h old = unfold act_probe in rw h old
  act_option-Behind a (some p) h old = act_probe-Behind a p h (old p refl)

  own_act-Behind :
      (a : Action)
      → is_claim a ≡ false
      → Behind n (probe_of y)
      → Behind n (probe_of (act c i y j a))
  unfolding act
  own_act-Behind (registers limit t) h old = Behind-own n y.processes j _ old
  own_act-Behind (claims observed limit t) h old = absurd (ground arith)
  own_act-Behind (waits t) h old = act_option-Behind (waits t) _ refl old
  own_act-Behind (resolves result t) h old = act_option-Behind (resolves result t) _ refl old
  own_act-Behind (submits limit t) h old = act_option-Behind (submits limit t) _ refl old

other_option :
    (c : SrvConf) (i j k : ℕ) (y : System) (a : Action) (o : Option Probe)
    → (j == k) ≡ false
    → ((act_probe c i y k (y.processes k) a o).processes j).probe ≡ (y.processes j).probe
unfolding act_probe
other_option c i j k y a none h = refl
other_option c i j k y (registers limit t) (some p) h = refl
other_option c i j k y (claims observed limit t) (some p) h = refl
other_option c i j k y (waits t) (some p) h =
    ap (λ (x : Process). x.probe) (update-other y.processes j k _ h)
other_option c i j k y (resolves result t) (some p) h =
    ap (λ (x : Process). x.probe) (update-other y.processes j k _ h)
other_option c i j k y (submits limit t) (some p) h =
    ap (λ (x : Process). x.probe) (update-other y.processes j k _ h)

other_act :
    (c : SrvConf) (i j k : ℕ) (y : System) (a : Action)
    → (j == k) ≡ false
    → ((act c i y k a).processes j).probe ≡ (y.processes j).probe
unfolding act
other_act c i j k y (registers limit t) h =
    ap (λ (x : Process). x.probe) (update-other y.processes j k _ h)
other_act c i j k y (claims observed limit t) h =
    ap (λ (x : Process). x.probe) (update-other y.processes j k _ h)
other_act c i j k y (waits t) h = other_option c i j k y (waits t) _ h
other_act c i j k y (resolves result t) h = other_option c i j k y (resolves result t) _ h
other_act c i j k y (submits limit t) h = other_option c i j k y (submits limit t) _ h

act-Behind :
    (c : SrvConf) (i j k n : ℕ) (y : System) (a : Action)
    → k == j && is_claim a ≡ false
    → Behind n (y.processes j).probe
    → Behind n ((act c i y k a).processes j).probe
act-Behind c i j k n y a h old = elim (Bool-cases (j == k)) [
  | inl same ↦
      let at : j ≡ k = ground arith in
      subst (λ x. Behind n ((act c i y x a).processes j).probe) at
        (own_act-Behind c i j n y a (ground arith) old)
  | inr other ↦ subst (Behind n) (sym (other_act c i j k y a other)) old
]

run-Behind :
    (c : SrvConf) (i : ℕ) (actions : List (ℕ × Action)) (j n : ℕ) (y : System)
    → never_claims j actions ≡ true
    → Behind n (y.processes j).probe
    → Behind n ((run c i y actions).processes j).probe
unfolding run
run-Behind c i [] j n y quiet old = old
run-Behind c i ((k, a) ∷ rest) j n y quiet old =
    run-Behind c i rest j n (act c i y k a) (ground arith)
      (act-Behind c i j k n y a (ground arith) old)

-- A submission of a round that is not the peer's any more.
module _ (c : SrvConf) (i j : ℕ) (y : System) where
  old_submit :
      (p : Probe) (k : Submitted)
      → let q = y.processes j in
        p.round < (peer_state i y).round
        → SubmitCases q.env c q.runtime p y.shared i k
        → (k.shared ≡ y.shared) × (is_ok k.rc ≡ false)
  old_submit p k late (kept fails same idle) = (same, is_ok-ne _ fails)
  old_submit p k late (commits b) = absurd (ground (arith, b.holds.same_round))

  stale-submits :
      (o : Option Probe) (n limit t : ℕ)
      → Behind n o
      → n < (peer_state i y).round
      → let z = act_probe c i y j (y.processes j) (submits limit t) o in
        (z.shared ≡ y.shared) × (z.results ≡ y.results)
  unfolding act_probe
  stale-submits none n limit t old late = (refl, refl)
  stale-submits (some p) n limit t old late =
      let q = y.processes j in
      let (same, fails) =
        old_submit p (submit q.env c q.runtime p y.shared i limit t) (ground (arith, old p refl))
          (submit-cases q.env c q.runtime p y.shared i limit t) in
      (same, rw fails refl)

-- From a fresh zone and after any operations of any processes: if others have been granted a claim
-- since, while process `j` made none, then a submission of `j` changes neither the shared zone nor the
-- committed results.
pub stale-fenced :
    (c : SrvConf) (d : Bool) (i j : ℕ) (y : System) (before after : List (ℕ × Action)) (limit t : ℕ)
    → IsFirst c d i y
    → never_claims j after ≡ true
    → let x = run c i y before in
      let z = run c i x after in
      x.begun < z.begun
      → ((act c i z j (submits limit t)).shared ≡ z.shared)
        × ((act c i z j (submits limit t)).results ≡ z.results)
unfolding act
stale-fenced c d i j y before after limit t first quiet taken =
    let x = run c i y before in
    let z = run c i x after in
    let v = run-Inv before y (first-Inv first) in
    let w = run-Inv after x v in
    let old = run-Behind c i after j (peer_state i x).round x quiet (v.known j) in
    stale-submits c i j z (z.processes j).probe (peer_state i x).round limit t old
      (ground (arith, v.sound.counted, w.sound.counted))
