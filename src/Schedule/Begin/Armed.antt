-- ===== src/Schedule/Begin/Armed.antt =====
-- The check timer of a peer is never lost.
use nginx_healthcheck_module.Base.{
  ℕ, ◌+◌, ◌/◌, ◌<◌, ◌≡◌, refl, ap, ◌∙◌, ◌⊎◌, inl, inr, Bool, true, false, not, ◌||◌, Option, none,
  some, leb, ◌==◌, if◌then◌else◌, arith, Bool-cases, Option-cases,
}
use nginx_healthcheck_module.Time.{timer_delay}
use nginx_healthcheck_module.Env.{Env, now}
use nginx_healthcheck_module.Config.{SrvConf}
use nginx_healthcheck_module.Runtime.{
  Rc, ok, again, declined, error, busy, is_running, Probe, Runtime, Shared,
}
use nginx_healthcheck_module.Protocol.Cleanup.{Events}
use nginx_healthcheck_module.Protocol.Ready.{
  Io, ready, idle, stops, lost, late, TimedOut, ignored, stopped, ended, again_in, finished,
  timeout,
}
use nginx_healthcheck_module.Protocol.Udp.{Udp, finishes, waits, posts, leaves}
use nginx_healthcheck_module.Protocol.Start.{Start, fails, opens, probe_start}
use nginx_healthcheck_module.Protocol.Round.{
  Wires, Ran, ran_finish, ran_lost, ran_timeout, call_timeout, ran_io, ran_event, write_handler,
  after_write, or_same, ran_start, start_round,
}
use nginx_healthcheck_module.Schedule.Owned.{
  Owned, owned, not_now, not_mine, owned_lock, probe_valid,
}
use nginx_healthcheck_module.Schedule.Submit.{next_due, commit, submit_owned, submit}
use nginx_healthcheck_module.Schedule.Finish.{resolve, submitted, finish}
use nginx_healthcheck_module.Schedule.Claim.{Claimed, claim}
use nginx_healthcheck_module.Schedule.Claim.Cases.{ClaimCases, kept, began, claim-cases}
use nginx_healthcheck_module.Schedule.Stop.{is_stopping}
use nginx_healthcheck_module.Schedule.Begin.{
  Began, or_else, is_busy, claim_retry_ms, busy_retry_ms, started, after_claim, begin,
}

-- The process stops; or the claim `k` was refused for good; or the timer is set to a positive delay; or
-- it is set to 0, when the round that was begun has come to its result already, which is submitted.
pub data Armed (k : Claimed) (x : Began) : Type 0 where
  halted : x.stops ≡ true → Armed k x
  refused : k.rc ≡ declined → Armed k x
  armed : (delay : ℕ) → x.check_timer ≡ some delay → 0 < delay → Armed k x
  due_at_once :
      x.starts ≡ true → x.answer ≡ some ok → x.check_timer ≡ some (timer_delay 0) → Armed k x

-- A call that leaves the check timer alone, or has submitted a result that makes the next round due.
data LeavesTimer (x : Ran) : Type 0 where
  left_alone : x.check_timer ≡ none → LeavesTimer x
  set_to_zero : x.answer ≡ some ok → x.check_timer ≡ some (timer_delay 0) → LeavesTimer x

timer_delay-pos : (n : ℕ) → 0 < n → 0 < timer_delay n
unfolding timer_delay
timer_delay-pos n h = omega arith

submit_owned-timer :
    (e : Env) (c : SrvConf) (p : Probe) (sh : Shared) (i : ℕ) (o : Owned) (t : ℕ)
    → let k = submit_owned e c p sh i (o, t) in
      (k.check_timer ≡ none) ⊎ ((k.rc ≡ ok) × (k.check_timer ≡ some (timer_delay 0)))
unfolding submit_owned commit
submit_owned-timer e c p sh i not_now t = inl refl
submit_owned-timer e c p sh i not_mine t = inl refl
submit_owned-timer e c p sh i (owned s) t =
    elim (Bool-cases (not (is_running s.phase) || e.quitting t)) [
      | inl over ↦ rw (over, submit_owned) (inl refl)
      | inr running ↦ elim (Option-cases (now e (t + 1))) [
        | inl fails_it ↦ rw (running, fails_it, submit_owned) (inl refl)
        | inr (n, reading) ↦ elim (Bool-cases (leb (next_due c s) (n / 1_000_000))) [
          | inl due ↦ rw (running, reading, due, submit_owned, commit) (inr (refl, refl))
          | inr early ↦ rw (running, reading, early, submit_owned, commit) (inl refl)
        ]
      ]
    ]

submit-timer :
    (e : Env) (c : SrvConf) (r : Runtime) (p : Probe) (sh : Shared) (i limit t : ℕ)
    → let k = submit e c r p sh i limit t in
      (k.check_timer ≡ none) ⊎ ((k.rc ≡ ok) × (k.check_timer ≡ some (timer_delay 0)))
unfolding submit
submit-timer e c r p sh i limit t =
    let o = owned_lock e r p sh i limit t in submit_owned-timer e c p sh i o.0 o.1

module _ (e : Env) (b : Events) (c : SrvConf) (r : Runtime) (others : ℕ → Shared → Shared) (i : ℕ)
    (w : Wires) where
  finish-LeavesTimer :
      (p : Probe) (sh : Shared) (result : Bool) (t : ℕ)
      → LeavesTimer (ran_finish e b c r others i p sh result t)
  unfolding ran_finish finish submitted
  finish-LeavesTimer p sh result t = elim (Bool-cases (not p.active || p.pending)) [
    | inl over ↦ rw (over, ran_finish, finish) (left_alone refl)
    | inr goes ↦ elim (submit-timer e c r (resolve e c p result t) (others t sh) i 0 (t + 1)) [
      | inl alone ↦ rw (goes, ran_finish, finish) (left_alone alone)
      | inr (answer, zero_set) ↦
          rw (goes, ran_finish, finish) (set_to_zero (ap some answer) zero_set)
    ]
  ]

  timeout-LeavesTimer :
      (p : Probe) (sh : Shared) (o : TimedOut) (t : ℕ)
      → LeavesTimer (ran_timeout e b c r others i p sh o t)
  unfolding ran_timeout ran_lost
  timeout-LeavesTimer p sh ignored t = left_alone refl
  timeout-LeavesTimer p sh stopped t = left_alone refl
  timeout-LeavesTimer p sh ended t = left_alone refl
  timeout-LeavesTimer p sh (again_in delay) t = left_alone refl
  timeout-LeavesTimer p sh (finished result) t = finish-LeavesTimer p sh result t

  call_timeout-LeavesTimer :
      (p : Probe) (sh : Shared) (t : ℕ) → LeavesTimer (call_timeout e b c r others i p sh t)
  unfolding call_timeout
  call_timeout-LeavesTimer p sh t =
      let zone : ℕ → Shared = λ u. others u sh in
      timeout-LeavesTimer p sh (timeout e c r zone i p t)
        ((probe_valid e r p (zone t) i (t + 1)).1 + 1)

  io-LeavesTimer :
      (p : Probe) (sh : Shared) (o : Io) (t : ℕ) → LeavesTimer (ran_io e b c r others i p sh o t)
  unfolding ran_io ran_lost
  io-LeavesTimer p sh ready t = left_alone refl
  io-LeavesTimer p sh idle t = left_alone refl
  io-LeavesTimer p sh stops t = left_alone refl
  io-LeavesTimer p sh lost t = left_alone refl
  io-LeavesTimer p sh late t = call_timeout-LeavesTimer p sh t

  event-LeavesTimer :
      (p : Probe) (sh : Shared) (u : Udp) (t : ℕ)
      → LeavesTimer (ran_event e b c r others i p sh u t)
  unfolding ran_event
  event-LeavesTimer p sh (finishes result) t = finish-LeavesTimer p sh result t
  event-LeavesTimer p sh waits t = left_alone refl
  event-LeavesTimer p sh posts t = left_alone refl
  event-LeavesTimer p sh (leaves io) t = io-LeavesTimer p sh io t

  start-LeavesTimer :
      (p : Probe) (sh : Shared) (o : Start) (t : ℕ)
      → LeavesTimer (ran_start e b c r others i w p sh o t)
  unfolding ran_start
  start-LeavesTimer p sh Start.lost t = left_alone refl
  start-LeavesTimer p sh Start.waits t = left_alone refl
  start-LeavesTimer p sh Start.late t = call_timeout-LeavesTimer p sh t
  start-LeavesTimer p sh (fails result) t = finish-LeavesTimer p sh result t
  start-LeavesTimer p sh (opens false) t = left_alone refl
  start-LeavesTimer p sh (opens true) t =
      event-LeavesTimer (after_write e b c r others i w p sh t) sh
        (write_handler e b c r others i w p sh t) w.handled

  round-LeavesTimer :
      (p : Probe) (sh : Shared) (t : ℕ) → LeavesTimer (start_round e b c r others i w p sh t)
  unfolding start_round
  round-LeavesTimer p sh t =
      let o = probe_start e b c r (λ u. others u sh) i w.net p t in
      start-LeavesTimer o.probe (or_same e b c r others i sh o.shared) o.start o.tick

  started-Armed :
      (k : Claimed) (o : Option Probe)
      → 0 < c.check_interval
      → k.check_timer ≡ some (timer_delay c.check_interval)
      → Armed k (started e b c r others i w k o)
  started-Armed k none h timed =
      armed (timer_delay c.check_interval) timed (timer_delay-pos c.check_interval h)
  started-Armed k (some p) h timed = elim (round-LeavesTimer p k.shared k.tick) [
    | left_alone alone ↦
        armed (timer_delay c.check_interval) (ap (λ o. or_else o k.check_timer) alone ∙ timed)
          (timer_delay-pos c.check_interval h)
    | set_to_zero answer zero_set ↦
        due_at_once refl answer (ap (λ o. or_else o k.check_timer) zero_set)
  ]

  after_claim-Armed :
      (k : Claimed) (rc : Rc)
      → 0 < c.check_interval
      → k.rc ≡ rc
      → (rc ≡ ok → k.check_timer ≡ some (timer_delay c.check_interval))
      → Armed k (after_claim e b c r others i w k rc)
  unfolding after_claim
  after_claim-Armed k ok h at timed = started-Armed k k.probe h (timed refl)
  after_claim-Armed k again h at timed =
      let wait = if k.wait == 0 then claim_retry_ms else k.wait in
      armed (timer_delay wait) refl (timer_delay-pos wait (ground arith))
  after_claim-Armed k declined h at timed = refused at
  after_claim-Armed k error h at timed =
      armed (timer_delay c.check_interval) refl (timer_delay-pos c.check_interval h)
  after_claim-Armed k busy h at timed =
      armed (timer_delay c.check_interval) refl (timer_delay-pos c.check_interval h)

claim-timed :
    (e : Env) (c : SrvConf) (r : Runtime) (sh : Shared) (i t : ℕ) (g : Option Probe) (k : Claimed)
    → ClaimCases e c r sh i none t g k
    → k.rc ≡ ok
    → k.check_timer ≡ some (timer_delay c.check_interval)
claim-timed e c r sh i t g k (kept refuses same stays) h = absurd (refuses h)
claim-timed e c r sh i t g k (began x) h = x.timed

-- For a positive check interval: when the check timer of a peer fires, whatever the locks, the clock,
-- the memory, the sockets and the other processes do, then the process stops, or its claim is refused
-- for good, or the timer is set again, and not to 0; or the round that was begun has come to its result
-- before the handler returns, the submission of that has answered NGX_OK, and the timer is set to 0.
pub begin-Armed :
    (e : Env) (b : Events) (c : SrvConf) (r : Runtime) (others : ℕ → Shared → Shared) (i : ℕ)
    (w : Wires) (p : Option Probe) (sh : Shared) (t : ℕ)
    → 0 < c.check_interval
    → Armed (claim e c r p (others (t + 1) sh) i none 0 (t + 1)) (begin e b c r others i w p sh t)
unfolding begin
begin-Armed e b c r others i w p sh t h =
    let zone = others (t + 1) sh in
    let k = claim e c r p zone i none 0 (t + 1) in
    let (g, given, cases) = claim-cases e c r zone i none (t + 1) p 0 in
    elim (Bool-cases (is_stopping e r t)) [
      | inl halts ↦ rw (halts, begin) (halted refl)
      | inr runs ↦ elim (Bool-cases (is_busy p)) [
        | inl at_work ↦
            rw (runs, at_work, begin)
              (armed (timer_delay busy_retry_ms) refl (timer_delay-pos busy_retry_ms (omega arith)))
        | inr free ↦
            rw (runs, free, begin)
              (after_claim-Armed e b c r others i w k k.rc h refl
                (claim-timed e c r zone i (t + 1) g k cases))
      ]
    ]
