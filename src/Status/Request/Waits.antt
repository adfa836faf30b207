-- ===== src/Status/Request/Waits.antt =====
-- What a request has set while it waits.
use nginx_healthcheck_module.Base.{
  ℕ, ◌+◌, ◌≡◌, ◌⊎◌, refl, inl, inr, false, not, ◌&&◌, ◌||◌, Option, none, some, Bool-cases,
}
use nginx_healthcheck_module.Env.{Env, ℤ}
use nginx_healthcheck_module.Status.Snapshot.{StepRc, busy, again}
use nginx_healthcheck_module.Status.Request.{
  Source, Core, Output, Request, Response, Collected, collect, wait, wait_or_fail, finish,
  request_output, request_cleanup, Outcome, waiting, finalized, resumed, resume, rc_error,
  internal_error, retry_ms, yield_ms,
}
use nginx_healthcheck_module.Status.Request.Steps.{StepRc-cases}

-- A request that waits has its timer set, and one that is finished has no timer and no cleanup that could run.
pub IsSettled : Outcome → Type 0
IsSettled (waiting r) = (r.timer ≡ some retry_ms) ⊎ (r.timer ≡ some yield_ms)
IsSettled (finalized r rc response) = (r.timer ≡ none) × (r.cleanup ≡ false)

finish-IsSettled :
    (r : Request) (rc : ℤ) (response : Option Response) → IsSettled (finish r (rc, response))
unfolding IsSettled request_cleanup
finish-IsSettled r rc response = (refl, refl)

wait-timer :
    (e : ℕ → Env) (c : Core) (sources : ℕ → Option Source) (rc : StepRc) (r : Request) (t : ℕ)
    → IsSettled (wait_or_fail r (wait e c sources rc r t))
unfolding IsSettled wait
wait-timer e c sources rc r t = elim (Bool-cases (c.is_main && c.own_socket && not (c.watch t))) [
  | inl fails ↦ rw (fails, wait) (finish-IsSettled r rc_error none)
  | inr goes ↦ elim (StepRc-cases rc) [
    | inl at ↦ rw (goes, at, wait) (inr refl)
    | inr (inl at) ↦ rw (goes, at, wait) (inr refl)
    | inr (inr (inl at)) ↦ rw (goes, at, wait) (inl refl)
    | inr (inr (inr at)) ↦ rw (goes, at, wait) (inr refl)
  ]
]

resumed-IsSettled :
    (e : ℕ → Env) (c : Core) (output : Output) (sources : ℕ → Option Source) (k : Collected)
    → IsSettled (resumed e c output sources k)
unfolding resumed
resumed-IsSettled e c output sources k = elim (StepRc-cases k.rc) [
  | inl at ↦
      let res = request_output (e 0).alloc c output sources k.request k.tick in
      rw (at, resumed) (finish-IsSettled k.request res.0 res.1)
  | inr (inl at) ↦ rw (at, resumed) (wait-timer e c sources busy k.request k.tick)
  | inr (inr (inl at)) ↦ rw (at, resumed) (wait-timer e c sources again k.request k.tick)
  | inr (inr (inr at)) ↦ rw (at, resumed) (finish-IsSettled k.request internal_error none)
]

-- After every turn, whatever the locks, the clock and the connection do, the request either waits with its timer set to 5 ms or
-- to 1 ms, or is finished, with neither a timer nor a cleanup left.
pub resume-IsSettled :
    (e : ℕ → Env) (c : Core) (output : Output) (sources : ℕ → Option Source) (r : Request) (t : ℕ)
    → IsSettled (resume e c output sources r t)
unfolding resume
resume-IsSettled e c output sources r t =
    let fired = record r { timer = none } in
    elim (Bool-cases (c.failed t || c.closed t)) [
      | inl gone ↦ rw (gone, resume) (finish-IsSettled fired rc_error none)
      | inr alive ↦
          rw (alive, resume)
            (resumed-IsSettled e c output sources (collect e sources fired (t + 1)))
    ]
