-- ===== src/Schedule/Submit/Cases.antt =====
-- A submission either changes nothing shared, or commits the result of the running round.
use nginx_healthcheck_module.Base.{
  ℕ, ◌+◌, ◌/◌, ◌≡◌, ◌≢◌, ◌⊎◌, max, leb, if◌then◌else◌, none, some, subst, sym, refl, inl, inr, true,
  false, not, ◌||◌, arith, Bool-cases, Option-cases,
}
use nginx_healthcheck_module.Time.{add_time, timer_delay}
use nginx_healthcheck_module.Env.{Env, now, IsReading}
use nginx_healthcheck_module.Config.{SrvConf}
use nginx_healthcheck_module.State.{
  PeerState, WorkerState, Phase, initial, waiting, preparing, inflight,
}
use nginx_healthcheck_module.Health.{apply_result}
use nginx_healthcheck_module.Schedule.Claim.Due.{current-set_peer}
use nginx_healthcheck_module.Slots.{current, publish}
use nginx_healthcheck_module.Runtime.{
  Rc, ok, again, declined, is_running, Probe, Runtime, Shared, set_peer,
}
use nginx_healthcheck_module.Schedule.Owned.{Owned, owned, not_now, not_mine, owned_lock}
use nginx_healthcheck_module.Schedule.Owned.Holds.{Holds, owned_lock-Holds}
use nginx_healthcheck_module.Schedule.Submit.{
  Submitted, sample_of, next_due, unsubmitted, committed, commit, submit_owned, submit,
}

module _ (e : Env) (c : SrvConf) (r : Runtime) (p : Probe) (sh : Shared) (i : ℕ) where
  -- The registration of the worker and the round of the peer name the probe.
  pub record IsOwn (w : WorkerState) (s : PeerState) : Type 0 where
    pub pid : w.pid ≡ e.pid
    pub instance_id : w.instance_id ≡ p.instance_id
    pub stays : w.exiting ≡ false
    pub owner : s.owner ≡ e.pid
    pub worker : s.worker ≡ r.worker
    pub same_instance : s.instance_id ≡ p.instance_id
    pub same_term : s.term ≡ p.term
    pub same_round : s.round ≡ p.round
    pub running : (s.phase ≡ preparing) ⊎ (s.phase ≡ inflight)

  -- What a result that is committed at `ms` milliseconds makes of the state `s`: the peer waits for
  -- an interval after the last start, or is due at once.
  pub record IsResult (s s' : PeerState) (ms : ℕ) : Type 0 where
    pub health :
        s'.health ≡ record (apply_result c p.result (sample_of p) s.health) { access_time = ms }
    pub phase : s'.phase ≡ waiting
    pub deadline : s'.deadline ≡ max (add_time s.started c.check_interval) ms
    pub started : s'.started ≡ s.started
    pub same_round : s'.round ≡ s.round
    pub same_term : s'.term ≡ s.term
    pub same_owner : s'.owner ≡ s.owner
    pub same_worker : s'.worker ≡ s.worker
    pub same_instance : s'.instance_id ≡ s.instance_id

  -- The clock is read by the last call of the submission.
  pub record Committed (k : Submitted) : Type 0 where
    pub accepted : k.rc ≡ ok
    pub ms : ℕ
    pub at : ℕ
    pub last : k.tick ≡ at + 1
    pub clock : IsReading e at ms
    pub own : IsOwn (current (sh.workers r.worker)) (current (sh.peers i))
    pub left : IsResult (current (sh.peers i)) (current (k.shared.peers i)) ms
    pub retimed : k.check_timer ≡ (
        if leb (add_time (current (sh.peers i)).started c.check_interval) ms
        then some (timer_delay 0)
        else none)
    pub holds : Holds e r p sh i (current (sh.peers i))
    pub running : is_running (current (sh.peers i)).phase ≡ true
    pub published :
        k.shared ≡ set_peer sh i (publish (sh.peers i) (committed c p (current (sh.peers i)) ms))
    pub settled : k.probe ≡ record p { pending = false }

  pub data SubmitCases (k : Submitted) : Type 0 where
    kept : k.rc ≢ ok → k.shared ≡ sh → k.probe ≡ p → SubmitCases k
    commits : Committed k → SubmitCases k

  running-cases : (x : Phase) → is_running x ≡ true → (x ≡ preparing) ⊎ (x ≡ inflight)
  running-cases initial h = absurd (cc)
  running-cases waiting h = absurd (cc)
  running-cases preparing h = inl refl
  running-cases inflight h = inr refl

  Holds-IsOwn :
      (s : PeerState)
      → Holds e r p sh i s
      → is_running s.phase ≡ true
      → IsOwn (current (sh.workers r.worker)) s
  Holds-IsOwn s v run =
      let registered = v.registered in
      let round = v.same_round in
      record {
        pid = ground arith;
        instance_id = ground arith;
        stays = ground arith;
        owner = ground arith;
        worker = ground arith;
        same_instance = ground arith;
        same_term = ground arith;
        same_round = ground arith;
        running = running-cases s.phase run;
      }

  committed-IsResult : (s : PeerState) (ms : ℕ) → IsResult s (committed c p s ms) ms
  unfolding committed next_due
  committed-IsResult s ms = record {
    health = refl;
    phase = refl;
    deadline = refl;
    started = refl;
    same_round = refl;
    same_term = refl;
    same_owner = refl;
    same_worker = refl;
    same_instance = refl;
  }

  commit-current :
      (ms u : ℕ)
      → IsReading e u ms
      → Holds e r p sh i (current (sh.peers i))
      → is_running (current (sh.peers i)).phase ≡ true
      → Committed (commit c p sh i (current (sh.peers i)) ms (u + 1))
  unfolding commit next_due
  commit-current ms u clock v run = record {
    accepted = refl;
    ms = ms;
    at = u;
    last = refl;
    clock = clock;
    own = Holds-IsOwn (current (sh.peers i)) v run;
    left =
        let s = current (sh.peers i) in
        rw (current-set_peer sh i (committed c p s ms)) (committed-IsResult s ms);
    retimed = refl;
    holds = v;
    running = run;
    published = refl;
    settled = refl;
  }

  commit-commits :
      (ms u : ℕ) (s : PeerState)
      → IsReading e u ms
      → Holds e r p sh i s
      → is_running s.phase ≡ true
      → SubmitCases (commit c p sh i s ms (u + 1))
  commit-commits ms u s clock v run = commits (
      subst
        (λ x.
          Holds e r p sh i x → is_running x.phase ≡ true → Committed (commit c p sh i x ms (u + 1)))
        (sym v.read) (commit-current ms u clock) v run)

  commit_at-commits :
      (n t : ℕ) (s : PeerState)
      → now e (t + 1) ≡ some n
      → Holds e r p sh i s
      → is_running s.phase ≡ true
      → SubmitCases (commit c p sh i s (n / 1_000_000) (t + 2))
  commit_at-commits n t s reading v run =
      let same : t + 1 + 1 ≡ t + 2 = omega arith in
      let clock : IsReading e (t + 1) (n / 1_000_000) = record {
        nanoseconds = n;
        reading = reading;
        rounded = refl;
      } in
      subst (λ u. SubmitCases (commit c p sh i s (n / 1_000_000) u)) same
        (commit-commits (n / 1_000_000) (t + 1) s clock v run)

  unsubmitted-kept : (rc : Rc) (t : ℕ) → rc ≢ ok → SubmitCases (unsubmitted rc sh p t)
  unsubmitted-kept rc t fails = kept fails refl refl

  submit_owned-cases :
      (o : Owned) (t : ℕ)
      → ((s : PeerState) → o ≡ owned s → Holds e r p sh i s)
      → SubmitCases (submit_owned e c p sh i (o, t))
  unfolding submit_owned
  submit_owned-cases not_now t h = unsubmitted-kept again t (λ q. cc)
  submit_owned-cases not_mine t h = unsubmitted-kept declined t (λ q. cc)
  submit_owned-cases (owned s) t h =
      let v = h s refl in
      elim (Bool-cases (not (is_running s.phase) || e.quitting t)) [
        | inl idle ↦ rw (idle, submit_owned) (unsubmitted-kept declined (t + 1) (λ q. cc))
        | inr running ↦ elim (Option-cases (now e (t + 1))) [
          | inl fails ↦ rw (running, fails, submit_owned) (unsubmitted-kept again (t + 2) (λ q. cc))
          | inr (n, reading) ↦
              rw (running, reading, submit_owned) (commit_at-commits n t s reading v (ground arith))
        ]
      ]

  -- A submission, whatever the locks, the clock and the other processes answer: either it is not NGX_OK
  -- and keeps the shared zone and the probe; or it is NGX_OK, the registration and the running round are
  -- the probe's own in process, instance, term and round, the peer waits with the health that the result
  -- makes, dated by the last reading of the clock, for the end of its interval, the check timer is set to
  -- 0 if that is over, and the probe is settled.
  pub submit-cases : (limit t : ℕ) → SubmitCases (submit e c r p sh i limit t)
  unfolding submit
  submit-cases limit t =
      let o = owned_lock e r p sh i limit t in
      submit_owned-cases o.0 o.1 (λ s h. owned_lock-Holds e r p sh i limit t h)
