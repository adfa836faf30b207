-- ===== src/Rounds/Invariant/Acts.antt =====
-- Each action keeps the invariant of a system.
use nginx_healthcheck_module.Base.{
  ℕ, ◌+◌, ◌≤◌, ◌≡◌, ◌≢◌, ◌⊎◌, refl, ap, ◌∙◌, inl, inr, sym, Bool, true, false, Option, none, some,
  ◌==◌, if◌then◌else◌, arith, Bool-cases, ◌||◌, ◌&&◌, not, ◌∷◌,
}
use nginx_healthcheck_module.Env.{Env, now}
use nginx_healthcheck_module.Config.{SrvConf, is_tcp}
use nginx_healthcheck_module.State.{PeerState}
use nginx_healthcheck_module.Slots.{current, publish}
use nginx_healthcheck_module.Runtime.{Rc, ok, Probe, zero_probe, Runtime, Shared, update, set_peer}
use nginx_healthcheck_module.Health.Streak.{History}
use nginx_healthcheck_module.Schedule.Register.Keeps.{register-peers}
use nginx_healthcheck_module.Schedule.Claim.{claim, claimed_probe, claimed_state}
use nginx_healthcheck_module.Schedule.Claim.Due.{current-set_peer}
use nginx_healthcheck_module.Schedule.Claim.Cases.{ClaimCases, kept, began, IsGiven, claim-cases}
use nginx_healthcheck_module.Schedule.Owned.{waiting_state}
use nginx_healthcheck_module.Schedule.Owned.Waiting.{WaitingCases, kept, sent, probe_waiting-cases}
use nginx_healthcheck_module.Schedule.Finish.{resolve, sampled, is_fresh}
use nginx_healthcheck_module.Schedule.Submit.{Submitted, committed, sample_of}
use nginx_healthcheck_module.Schedule.Submit.Cases.{SubmitCases, kept, commits, submit-cases}
use nginx_healthcheck_module.Rounds.Defs.{
  Process, System, Action, registers, claims, waits, resolves, submits, is_ok, act, act_probe,
  set_process,
}
use nginx_healthcheck_module.Rounds.Invariant.States.{
  Sound, claimed-Sound, waiting-Sound, committed-Sound,
}

-- `s` is the state of the peer `i`.
abbrev pub peer_state : ℕ → System → PeerState
peer_state i y = current (y.shared.peers i)

-- No probe is ahead of the state.
abbrev pub Known : (ℕ → Process) → ℕ → Type 0
Known processes round = (j : ℕ) (p : Probe) → (processes j).probe ≡ some p → p.round ≤ round

pub record Inv (c : SrvConf) (d : Bool) (i : ℕ) (y : System) : Type 0 where
  pub sound : Sound c d (peer_state i y) y.begun y.results
  pub known : Known y.processes (peer_state i y).round

Known-update :
    (f : ℕ → Process) (j : ℕ) (q : Process) (round round' : ℕ)
    → Known f round
    → round ≤ round'
    → ((p : Probe) → q.probe ≡ some p → p.round ≤ round')
    → Known (update f j q) round'
Known-update f j q round round' old grows own k p h = elim (Bool-cases (k == j)) [
  | inl same ↦ own p (ground arith)
  | inr other ↦ ground (arith, old k p)
]

pub is_ok-ne : (rc : Rc) → rc ≢ ok → is_ok rc ≡ false
is_ok-ne rc h = ground arith

claimed-round :
    (e : Env) (c : SrvConf) (r : Runtime) (s : PeerState) (ms : ℕ)
    → s.round ≤ (claimed_state e c r s ms).round
unfolding claimed_state
claimed-round e c r s ms = omega arith

claimed_probe-round :
    (c : SrvConf) (r : Runtime) (s : PeerState) (old p : Probe)
    → some (claimed_probe c r s old) ≡ some p
    → p.round ≤ s.round
claimed_probe-round c r s old p h = ground arith

waiting-round : (p : Probe) (s : PeerState) → s.round ≤ (waiting_state p s).round
unfolding waiting_state
waiting-round p s = omega arith

committed-round :
    (c : SrvConf) (p : Probe) (s : PeerState) (ms : ℕ) → s.round ≤ (committed c p s ms).round
unfolding committed
committed-round c p s ms = omega arith

sampled-round : (p : Probe) (b : Bool) (o : Option ℕ) → (sampled p b o).round ≡ p.round
sampled-round p false o = refl
sampled-round p true none = refl
sampled-round p true (some n) = refl

pub resolve-round :
    (e : Env) (c : SrvConf) (p : Probe) (result : Bool) (t : ℕ)
    → (resolve e c p result t).round ≡ p.round
unfolding resolve
resolve-round e c p result t = elim (Bool-cases (not p.active || p.pending)) [
  | inl idle ↦ rw idle refl
  | inr running ↦
      rw (running, resolve)
        (sampled-round (record p { active = false; pending = true; result = result })
          (result && is_tcp c.check_type && is_fresh p.connection) (now e t))
]

-- The invariant of a system in which process `j` has become `q` and the zone `sh`.
module _ {c : SrvConf} {d : Bool} {i : ℕ} {y : System} (v : Inv c d i y) (j : ℕ) where
  abbrev now_state : PeerState
  now_state = peer_state i y

  -- The state of the peer is the old one.
  keep-Inv :
      (q : Process) (sh : Shared)
      → sh.peers i ≡ y.shared.peers i
      → ((p : Probe) → q.probe ≡ some p → p.round ≤ now_state.round)
      → Inv c d i (record (set_process y j q) { shared = sh })
  keep-Inv q sh same own = record {
    sound = rw same v.sound;
    known =
        rw same
          (Known-update y.processes j q now_state.round now_state.round v.known (omega arith) own);
  }

  -- A new state has been published, perhaps with a new round or a new result.
  publish-Inv :
      (q : Process) (sh : Shared) (s : PeerState) (begun : ℕ) (results : History)
      → sh ≡ set_peer y.shared i (publish (y.shared.peers i) s)
      → Sound c d s begun results
      → now_state.round ≤ s.round
      → ((p : Probe) → q.probe ≡ some p → p.round ≤ s.round)
      → Inv c d i (record (set_process y j q) { shared = sh; begun = begun; results = results })
  publish-Inv q sh s begun results eq w grows own =
      let at : peer_state i (record y { shared = sh }) ≡ s =
        ap (λ (x : Shared). current (x.peers i)) eq ∙ current-set_peer y.shared i s in
      record {
        sound = rw at w;
        known = rw at (Known-update y.processes j q now_state.round s.round v.known grows own);
      }

  own_round : (p : Probe) → (y.processes j).probe ≡ some p → p.round ≤ now_state.round
  own_round p h = v.known j p h

  registers-Inv : (limit t : ℕ) → Inv c d i (act c i y j (registers limit t))
  unfolding act
  registers-Inv limit t =
      let q = y.processes j in
      keep-Inv _ _ (register-peers q.env q.runtime y.shared i limit t) own_round

  given_round :
      (old g k : Option Probe)
      → ((p : Probe) → old ≡ some p → p.round ≤ now_state.round)
      → (g ≡ old) ⊎ (g ≡ some zero_probe)
      → k ≡ g
      → (p : Probe) → k ≡ some p
      → p.round ≤ now_state.round
  given_round old g k own (inl same) idle p h = own p (cc)
  given_round old g k own (inr fresh) idle p h = ground arith

  claim-Inv :
      (observed : Option PeerState) (limit t : ℕ) (g : Option Probe)
      → let q = y.processes j in
        let k = claim q.env c q.runtime q.probe y.shared i observed limit t in
        IsGiven q.env c q.runtime y.shared i observed t q.probe g
        → ClaimCases q.env c q.runtime y.shared i observed t g k
        → Inv c d i (act c i y j (claims observed limit t))
  unfolding act
  claim-Inv observed limit t g given (kept fails same idle) =
      rw (is_ok-ne _ fails) (
        keep-Inv _ _ (ap (λ (x : Shared). x.peers i) same) (given_round _ g _ own_round given idle))
  claim-Inv observed limit t g given (began b) =
      let q = y.processes j in
      let s = claimed_state q.env c q.runtime now_state b.ms in
      rw b.granted (
        publish-Inv _ _ s (y.begun + 1) y.results b.published
          (claimed-Sound q.env q.runtime b.ms v.sound b.room)
          (claimed-round q.env c q.runtime now_state b.ms)
          (λ p h. claimed_probe-round c q.runtime s b.old_probe p (sym b.probed ∙ h)))

  claims-Inv :
      (observed : Option PeerState) (limit t : ℕ)
      → Inv c d i (act c i y j (claims observed limit t))
  claims-Inv observed limit t =
      let q = y.processes j in
      let (g, given, cases) = claim-cases q.env c q.runtime y.shared i observed t q.probe limit in
      claim-Inv observed limit t g given cases

  module _ (p : Probe) (mine : p.round ≤ now_state.round) where
    stays-Inv :
        (q : Process) (k : Probe) (sh : Shared)
        → sh ≡ y.shared
        → k.round ≡ p.round
        → Inv c d i (record (set_process y j (record q { probe = some k })) { shared = sh })
    stays-Inv q k sh same round =
        keep-Inv _ sh (ap (λ (x : Shared). x.peers i) same) (λ g h. ground arith)

    wait-Inv :
        (q : Process) (k : Rc × Shared × Probe)
        → WaitingCases p y.shared i k
        → Inv c d i (record (set_process y j (record q { probe = some k.2 })) { shared = k.1 })
    wait-Inv q k (kept same round) = stays-Inv q k.2 k.1 same round
    wait-Inv q k (sent running published round) =
        publish-Inv _ k.1 (waiting_state p now_state) y.begun y.results published
          (waiting-Sound p v.sound running) (waiting-round p now_state)
          (λ g h. ground (arith, waiting-round p now_state))

    submit-Inv :
        (q : Process) (k : Submitted)
        → SubmitCases q.env c q.runtime p y.shared i k
        → Inv c d i (record (set_process y j (record q { probe = some k.probe })) {
          shared = k.shared;
          results = if is_ok k.rc then (p.result, sample_of p) ∷ y.results else y.results;
        })
    submit-Inv q k (kept fails same idle) =
        rw (is_ok-ne _ fails) (stays-Inv q k.probe k.shared same (ap (λ (x : Probe). x.round) idle))
    submit-Inv q k (commits b) = rw b.accepted (
        publish-Inv _ k.shared (committed c p now_state b.ms) y.begun _ b.published
          (committed-Sound p b.ms v.sound b.running) (committed-round c p now_state b.ms)
          (λ g h. ground (arith, b.settled, committed-round c p now_state b.ms)))

    probe-Inv : (a : Action) → Inv c d i (act_probe c i y j (y.processes j) a (some p))
    unfolding act_probe
    probe-Inv (registers limit t) = v
    probe-Inv (claims observed limit t) = v
    probe-Inv (waits t) =
        let q = y.processes j in wait-Inv q _ (probe_waiting-cases q.env q.runtime p y.shared i t)
    probe-Inv (resolves result t) =
        let q = y.processes j in stays-Inv q _ y.shared refl (resolve-round q.env c p result t)
    probe-Inv (submits limit t) =
        let q = y.processes j in
        submit-Inv q _ (submit-cases q.env c q.runtime p y.shared i limit t)

  option-Inv :
      (o : Option Probe) (a : Action)
      → (y.processes j).probe ≡ o
      → Inv c d i (act_probe c i y j (y.processes j) a o)
  option-Inv none a h = unfold act_probe in v
  option-Inv (some p) a h = probe-Inv p (own_round p h) a

  pub act-Inv : (a : Action) → Inv c d i (act c i y j a)
  act-Inv (registers limit t) = registers-Inv limit t
  act-Inv (claims observed limit t) = claims-Inv observed limit t
  act-Inv (waits t) = unfold act in option-Inv _ (waits t) refl
  act-Inv (resolves result t) = unfold act in option-Inv _ (resolves result t) refl
  act-Inv (submits limit t) = unfold act in option-Inv _ (submits limit t) refl
