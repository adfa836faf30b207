-- ===== src/Schedule/Finish/Settles.antt =====
-- What a finished round leaves in its probe and in the shared zone.
use nginx_healthcheck_module.Base.{
  ℕ, ◌+◌, ◌≡◌, ◌≢◌, refl, ap, sym, subst, ◌∙◌, inl, inr, Bool, true, false, not, ◌&&◌, ◌||◌, Option,
  none, some, arith, Bool-cases, Option-cases,
}
use nginx_healthcheck_module.Env.{Env, now}
use nginx_healthcheck_module.Config.{SrvConf, is_tcp}
use nginx_healthcheck_module.Runtime.{
  Rc, ok, again, declined, error, busy, is_running, Probe, Connection, Runtime, Shared,
}
use nginx_healthcheck_module.Schedule.Owned.{Owned, owned, not_now, not_mine, owned_lock}
use nginx_healthcheck_module.Schedule.Submit.{Submitted, submit_owned, submit, commit}
use nginx_healthcheck_module.Schedule.Submit.Cases.{SubmitCases, kept, commits, submit-cases}
use nginx_healthcheck_module.Schedule.Finish.{
  is_fresh, sampled, resolve, Finished, is_rc_ok, dropped, count_request, submitted, finish,
}
use nginx_healthcheck_module.Protocol.Cleanup.{Events, probe_cleanup-IsClean}

-- The answers of a submission.
abbrev is_answer : Rc → Bool
is_answer error = false
is_answer busy = false
is_answer _ = true

submit_owned-is_answer :
    (e : Env) (c : SrvConf) (p : Probe) (sh : Shared) (i : ℕ) (o : Owned) (t : ℕ)
    → is_answer (submit_owned e c p sh i (o, t)).rc ≡ true
unfolding submit_owned commit
submit_owned-is_answer e c p sh i not_now t = refl
submit_owned-is_answer e c p sh i not_mine t = refl
submit_owned-is_answer e c p sh i (owned s) t =
    elim (Bool-cases (not (is_running s.phase) || e.quitting t)) [
      | inl idle ↦ rw (idle, submit_owned) refl
      | inr running ↦ elim (Option-cases (now e (t + 1))) [
        | inl fails ↦ rw (running, fails, submit_owned) refl
        | inr (n, reading) ↦ rw (running, reading, submit_owned, commit) refl
      ]
    ]

submit-is_answer :
    (e : Env) (c : SrvConf) (r : Runtime) (p : Probe) (sh : Shared) (i limit t : ℕ)
    → is_answer (submit e c r p sh i limit t).rc ≡ true
unfolding submit
submit-is_answer e c r p sh i limit t =
    let o = owned_lock e r p sh i limit t in submit_owned-is_answer e c p sh i o.0 o.1

-- A round whose result has been fixed is over: its probe is not active, its time-out is not set, its result is pending only if
-- the submission is to be tried again, only a submission that is NGX_OK has changed the zone, and a
-- connection is left only for a success that has been committed, of a TCP check that keeps connections.
pub record Settled (c : SrvConf) (result : Bool) (sh : Shared) (k : Finished) : Type 0 where
  pub inactive : k.probe.active ≡ false
  pub untimed : k.probe.timeout ≡ none
  pub retried : k.probe.pending ≡ true → k.rc ≡ some again
  pub published : k.rc ≢ some ok → k.shared ≡ sh
  pub keeps :
      (x : Connection)
      → k.probe.connection ≡ some x
      → (k.rc ≡ some ok)
        × (result ≡ true)
        × (c.keep_connection ≡ true)
        × (is_tcp c.check_type ≡ true)

-- The submission of a probe that is not active, as it enters the cleanup.
record Ready (sh : Shared) (k : Submitted) : Type 0 where
  inactive : k.probe.active ≡ false
  settled : k.rc ≡ ok → k.probe.pending ≡ false
  answer : is_answer k.rc ≡ true
  published : k.rc ≢ ok → k.shared ≡ sh

dropped-pending :
    (rc : Rc) (p : Probe)
    → is_answer rc ≡ true
    → (rc ≡ ok → p.pending ≡ false)
    → (dropped rc p).pending ≡ true
    → rc ≡ again
dropped-pending ok p a settled h = absurd (ground (arith, settled refl))
dropped-pending again p a settled h = refl
dropped-pending declined p a settled h = absurd (ground arith)
dropped-pending error p a settled h = absurd (ground arith)
dropped-pending busy p a settled h = absurd (ground arith)

dropped-active : (rc : Rc) (p : Probe) → (dropped rc p).active ≡ p.active
dropped-active ok p = refl
dropped-active again p = refl
dropped-active declined p = refl
dropped-active error p = refl
dropped-active busy p = refl

count_request-rest :
    (result : Bool) (p : Probe)
    → ((count_request result p).active ≡ p.active) × ((count_request result p).pending ≡ p.pending)
count_request-rest false p = (refl, refl)
count_request-rest true p = (refl, refl)

ok-of : (rc : Rc) → is_rc_ok rc ≡ true → rc ≡ ok
ok-of ok h = refl
ok-of again h = absurd (ground arith)
ok-of declined h = absurd (ground arith)
ok-of error h = absurd (ground arith)
ok-of busy h = absurd (ground arith)

submitted-Settled :
    (b : Events) (c : SrvConf) (result : Bool) (sh : Shared) (k : Submitted)
    → Ready sh k
    → Settled c result sh (submitted b c result k)
unfolding submitted
submitted-Settled b c result sh k h =
    let p = dropped k.rc k.probe in
    let counted = count_request result p in
    let clean = probe_cleanup-IsClean b c counted (is_rc_ok k.rc && result) k.tick in
    let (still, as_before) = count_request-rest result p in
    record {
      inactive = clean.active ∙ still ∙ dropped-active k.rc k.probe ∙ h.inactive;
      untimed = clean.untimed;
      retried = λ q.
          ap some
            (dropped-pending k.rc k.probe h.answer h.settled (sym (clean.pending ∙ as_before) ∙ q));
      published = λ q. h.published (λ x. q (ap some x));
      keeps = λ x at.
          let (reusable, keep, tcp, f, g) = clean.keeps x at in
          (ap some (ok-of k.rc (ground (arith, reusable))), ground (arith, reusable), keep, tcp);
    }

cases-Ready :
    (e : Env) (c : SrvConf) (r : Runtime) (p : Probe) (sh : Shared) (i : ℕ) (k : Submitted)
    → p.active ≡ false
    → is_answer k.rc ≡ true
    → SubmitCases e c r p sh i k
    → Ready sh k
cases-Ready e c r p sh i k ended a (kept fails same stays) = record {
  inactive = ap (λ (x : Probe). x.active) stays ∙ ended;
  settled = λ h. absurd (fails h);
  answer = a;
  published = λ h. same;
}
cases-Ready e c r p sh i k ended a (commits d) = record {
  inactive = ap (λ (x : Probe). x.active) d.settled ∙ ended;
  settled = λ h. ap (λ (x : Probe). x.pending) d.settled;
  answer = a;
  published = λ h. absurd (h d.accepted);
}

sampled-active : (p : Probe) (fresh : Bool) (o : Option ℕ) → (sampled p fresh o).active ≡ p.active
sampled-active p false o = refl
sampled-active p true none = refl
sampled-active p true (some n) = refl

-- When the result of a round under way is fixed, whatever the locks, the clock and the event module answer: the probe is not
-- active and has no time-out; the result stays pending only if its submission answered NGX_AGAIN; unless the submission
-- answered NGX_OK the shared zone is as it was; and a connection is left only if the submission answered NGX_OK, the result is a
-- success, and the check is a TCP check that keeps connections.
pub finish-Settled :
    (e : Env) (b : Events) (c : SrvConf) (r : Runtime) (p : Probe) (sh : Shared) (i : ℕ)
    (result : Bool) (t : ℕ)
    → p.active ≡ true
    → p.pending ≡ false
    → Settled c result sh (finish e b c r p sh i result t)
unfolding finish resolve
finish-Settled e b c r p sh i result t goes free =
    let under_way : (not p.active || p.pending) ≡ false = ground arith in
    let fixed = resolve e c p result t in
    let k = submit e c r fixed sh i 0 (t + 1) in
    let ended : fixed.active ≡ false =
      rw (under_way, resolve)
        (sampled-active (record p { active = false; pending = true; result = result })
          (result && is_tcp c.check_type && is_fresh p.connection) (now e t)) in
    let run : finish e b c r p sh i result t ≡ submitted b c result k =
      rw (under_way, finish) refl in
    subst (Settled c result sh) (sym run) (
      submitted-Settled b c result sh k (
        cases-Ready e c r fixed sh i k ended (submit-is_answer e c r fixed sh i 0 (t + 1))
          (submit-cases e c r fixed sh i 0 (t + 1))))
