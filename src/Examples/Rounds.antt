-- ===== src/Examples/Rounds.antt =====
-- Two processes and one peer: claims, submissions and interleavings.
use nginx_healthcheck_module.Base.{
  ℕ, ◌+◌, ◌≤◌, ◌<◌, ◌≡◌, refl, true, false, none, some, List, [], ◌∷◌, arith, length,
}
use nginx_healthcheck_module.Env.{now, now_of}
use nginx_healthcheck_module.State.{PeerState}
use nginx_healthcheck_module.Slots.{current, publish, spare}
use nginx_healthcheck_module.Runtime.{ok, Probe, Shared, set_peer}
use nginx_healthcheck_module.Health.Streak.{verdict}
use nginx_healthcheck_module.Schedule.Claim.{
  claim, claim_with, claim_at, claim_locked, claim_verdict, regular_verdict, takeover_verdict,
  peer_deadline, claimed_state, claimed_probe,
}
use nginx_healthcheck_module.Lock.{lock, lock_loop}
use nginx_healthcheck_module.Time.{add_time, mul_time}
use nginx_healthcheck_module.Schedule.Claim.Due.{Granted, claim-IsTimely}
use nginx_healthcheck_module.Schedule.Submit.Cases.{SubmitCases, submit-cases}
use nginx_healthcheck_module.Schedule.Submit.{submit, submit_owned, commit}
use nginx_healthcheck_module.Schedule.Owned.{owned_lock, owned_within}
use nginx_healthcheck_module.Rounds.Defs.{
  Process, System, Action, claims, waits, resolves, submits, act, run,
}
use nginx_healthcheck_module.Rounds.Invariant.{IsFirst, run-Sound}
use nginx_healthcheck_module.Rounds.Invariant.States.{open_rounds}
use nginx_healthcheck_module.Rounds.Invariant.Acts.{peer_state}
use nginx_healthcheck_module.Rounds.Fencing.{stale-fenced}
use nginx_healthcheck_module.Runtime.{zero_probe}
use nginx_healthcheck_module.Examples.World.{world, conf, runtime, idle_peer, zone}

abbrev processes : ℕ → Process
processes j = record { env = world (42 + j); runtime = runtime j; probe = none }

abbrev first : System
first = record { processes = processes; shared = zone; begun = 0; results = [] }

first-IsFirst : IsFirst conf false 0 first
unfolding current
first-IsFirst = record {
  fresh = refl;
  idle = refl;
  healthy = refl;
  unclaimed = λ j. refl;
  no_rounds = refl;
  no_results = refl;
}

abbrev round : List (ℕ × Action)
round =
    (0, claims none 1_000_000_000_000 10)
    ∷ (0, waits 20)
    ∷ (0, resolves true 30)
    ∷ (0, submits 1_000_000_000_000 40)
    ∷ []

run-Sound_example :
    ((peer_state 0 (run conf 0 first round)).round ≡ (run conf 0 first round).begun)
    × (length (run conf 0 first round).results + open_rounds (peer_state 0 (run conf 0 first round))
        ≤ (run conf 0 first round).begun)
    × ((peer_state 0 (run conf 0 first round)).health.down
        ≡ verdict conf false (run conf 0 first round).results)
run-Sound_example = run-Sound conf false 0 first round first-IsFirst

-- The claim of process 0 is granted.
claimed : (claim (world 42) conf (runtime 0) none zone 0 none 1_000_000_000_000 10).rc ≡ ok
unfolding claim claim_with claim_at claim_locked claim_verdict regular_verdict lock lock_loop now
    now_of current add_time mul_time
claimed = refl

claim-IsTimely_example :
    Granted
      (world 42)
      conf
      (runtime 0)
      zone
      none
      (current (zone.peers 0))
      (current
        ((claim (world 42) conf (runtime 0) none zone 0 none 1_000_000_000_000 10).shared.peers 0))
      10
claim-IsTimely_example =
    claim-IsTimely (world 42) conf (runtime 0) none zone 0 none 1_000_000_000_000 10 claimed

-- Process 0 claims a round and sleeps past its deadline and the grace period; process 1 takes over.
abbrev claimed_round : List (ℕ × Action)
claimed_round = (0, claims none 1_000_000_000_000 10) ∷ []

abbrev observed : PeerState
observed = claimed_state (world 42) conf (runtime 0) idle_peer 12_000

-- The round that process 0 has begun, with its success.
abbrev begun_zone : Shared
begun_zone = set_peer zone 0 (publish (zone.peers 0) observed)

abbrev fixed : Probe
fixed = record (claimed_probe conf (runtime 0) observed zero_probe) {
  active = false;
  pending = true;
  result = true;
}

committed_once :
    (submit (world 42) conf (runtime 0) fixed begun_zone 0 1_000_000_000_000 20).rc ≡ ok
unfolding submit submit_owned owned_lock owned_within commit lock lock_loop now now_of current
    publish spare claimed_state add_time mul_time
committed_once = refl

submit-cases_example :
    SubmitCases
      (world 42)
      conf
      (runtime 0)
      fixed
      begun_zone
      0
      (submit (world 42) conf (runtime 0) fixed begun_zone 0 1_000_000_000_000 20)
submit-cases_example =
    submit-cases (world 42) conf (runtime 0) fixed begun_zone 0 1_000_000_000_000 20

abbrev takeover : List (ℕ × Action)
takeover = (1, claims (some observed) 9_000_000_000_000 500) ∷ []

begun_once : (run conf 0 first claimed_round).begun ≡ 1
unfolding run act
begun_once = rw claimed refl

begun_twice : (run conf 0 (run conf 0 first claimed_round) takeover).begun ≡ 2
unfolding run act claim claim_with claim_at claim_locked claim_verdict regular_verdict
    takeover_verdict claimed_state peer_deadline lock lock_loop now now_of current publish spare
    add_time mul_time
begun_twice = refl

taken :
    (run conf 0 first claimed_round).begun
    < (run conf 0 (run conf 0 first claimed_round) takeover).begun
taken = omega (arith, begun_once, begun_twice)

abbrev after_takeover : System
after_takeover = run conf 0 (run conf 0 first claimed_round) takeover

-- The submission of the round that process 0 has lost.
stale-fenced_example :
    ((act conf 0 after_takeover 0 (submits 0 600)).shared ≡ after_takeover.shared)
    × ((act conf 0 after_takeover 0 (submits 0 600)).results ≡ after_takeover.results)
stale-fenced_example =
    stale-fenced conf false 0 0 first claimed_round takeover 0 600 first-IsFirst refl taken
