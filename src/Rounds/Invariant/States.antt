-- ===== src/Rounds/Invariant/States.antt =====
-- The state of a peer against the history of its rounds.
use nginx_healthcheck_module.Base.{
  ℕ, ◌+◌, ◌≤◌, ◌≡◌, Bool, true, false, ◌∷◌, if◌then◌else◌, length, arith, u64_max,
}
use nginx_healthcheck_module.Env.{Env}
use nginx_healthcheck_module.Config.{SrvConf}
use nginx_healthcheck_module.State.{PeerState}
use nginx_healthcheck_module.Health.Streak.{History, IsVerdict, apply_result-IsVerdict}
use nginx_healthcheck_module.Runtime.{is_running, Probe, Runtime}
use nginx_healthcheck_module.Schedule.Owned.{waiting_state}
use nginx_healthcheck_module.Schedule.Claim.{claimed_state, is_exhausted}
use nginx_healthcheck_module.Schedule.Submit.{committed, sample_of}

abbrev pub open_rounds : PeerState → ℕ
open_rounds s = if is_running s.phase then 1 else 0

-- `d` is the initial status, `begun` the number of rounds, `results` what they committed.
pub record Sound (c : SrvConf) (d : Bool) (s : PeerState) (begun : ℕ) (results : History)
    : Type 0 where
  pub counted : s.round ≡ begun
  pub fits : begun ≤ u64_max
  pub once : length results + open_rounds s ≤ begun
  pub judged : IsVerdict c d results s.health

module _ {c : SrvConf} {d : Bool} {s : PeerState} {begun : ℕ} {results : History} where
  pub claimed-Sound :
      (e : Env) (r : Runtime) (ms : ℕ)
      → Sound c d s begun results
      → is_exhausted r s ≡ false
      → Sound c d (claimed_state e c r s ms) (begun + 1) results
  unfolding claimed_state
  claimed-Sound e r ms v room = record {
    counted = ground arith;
    fits = ground arith;
    once = ground arith;
    judged = v.judged;
  }

  pub waiting-Sound :
      (p : Probe)
      → Sound c d s begun results
      → is_running s.phase ≡ true
      → Sound c d (waiting_state p s) begun results
  unfolding waiting_state
  waiting-Sound p v running = record {
    counted = v.counted;
    fits = v.fits;
    once = ground arith;
    judged = v.judged;
  }

  pub committed-Sound :
      (p : Probe) (ms : ℕ)
      → Sound c d s begun results
      → is_running s.phase ≡ true
      → Sound c d (committed c p s ms) begun ((p.result, sample_of p) ∷ results)
  unfolding committed
  committed-Sound p ms v running =
      let w =
        apply_result-IsVerdict c d results s.health p.result (sample_of p) (ground arith)
          v.judged in
      record {
        counted = v.counted;
        fits = v.fits;
        once = ground arith;
        judged = record { risen = w.risen; fallen = w.fallen; judged = w.judged };
      }
