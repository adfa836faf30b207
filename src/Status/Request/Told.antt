-- ===== src/Status/Request/Told.antt =====
-- Of which peer a request that waits warns.
use nginx_healthcheck_module.Base.{
  ℕ, zero, suc, ◌+◌, ◌-◌, ◌/◌, ◌≤◌, ◌<◌, ◌≡◌, refl, ap, sym, ◌∙◌, subst, inl, inr, not, ◌&&◌, ◌||◌,
  false, Option, none, some, List, ◌∷◌, arith, Bool-cases, Option-cases, leb, ◌==◌, u64_max,
}
use nginx_healthcheck_module.Time.{add_time-min}
use nginx_healthcheck_module.Env.{Env, ℤ, now, IsReading, peer_mutex}
use nginx_healthcheck_module.Status.Snapshot.{StepRc, busy, again, snapshot_step}
use nginx_healthcheck_module.Status.Request.{
  Source, peers_of, Core, Output, Warning, Request, Collected, collect_from, collect, batch,
  keep_snapshot, next_of, begin_waiting, warn, clocked, wait, wait_or_fail, request_cleanup,
  Outcome, waiting, finalized, resumed, resume, warn_ms, retry_ms,
}
use nginx_healthcheck_module.Status.Request.Steps.{StepRc-cases}

-- The readings of the clock in nanoseconds fit in 64 bits.
abbrev pub Fits : Env → Type 0
Fits e = (t n : ℕ) → now e t ≡ some n → n ≤ u64_max

-- The peer that a request waits for and since when, and its warnings so far.
pub record Wait : Type 0 where
  pub since : ℕ
  pub module_index : ℕ
  pub peer : ℕ
  pub warnings : List Warning

abbrev pub wait_of : Request → Wait
wait_of r = record {
  since = r.started;
  module_index = r.waiting_module;
  peer = r.waiting_peer;
  warnings = r.warnings;
}

module _ (e : ℕ → Env) (sources : ℕ → Option Source) where
  -- What a turn makes of a wait: nothing; a wait for the next peer, from a reading of the clock on and
  -- without a warning; or one warning, of the peer that has been waited for since the begin of the wait.
  pub data Told (old : Wait) (r : Request) : Type 0 where
    still : wait_of r ≡ old → Told old r
    anew :
        (ms at : ℕ)
        → IsReading (e r.module_index) at ms
        → wait_of r ≡ record {
          since = ms;
          module_index = r.module_index;
          peer = next_of r;
          warnings = old.warnings;
        }
        → Told old r
    warned :
        (ms at : ℕ) (w : Warning) (s : Source)
        → IsReading (e old.module_index) at ms
        → wait_of r ≡ record old { warnings = w ∷ old.warnings }
        → sources old.module_index ≡ some s
        → w.module_id ≡ s.module_id
        → w.peer ≡ old.peer
        → w.elapsed ≡ ms - old.since
        → Told old r

  -- The outcome of a turn.
  pub ToldBy : Wait → Outcome → Type 0
  ToldBy old (waiting r) = Told old r
  ToldBy old (finalized r rc response) = Told old r

  -- The wait goes on for the peer that is next, or another one begins, whose first warning is not due.
  data Begins (r : Request) (ms : ℕ) (r' : Request) : Type 0 where
    same : r' ≡ r → r.waiting_module ≡ r.module_index → r.waiting_peer ≡ next_of r → Begins r ms r'
    other :
        wait_of r' ≡ record {
          since = ms;
          module_index = r.module_index;
          peer = next_of r;
          warnings = r.warnings;
        }
        → r'.module_index ≡ r.module_index
        → next_of r' ≡ next_of r
        → ms < r'.next_log
        → Begins r ms r'

  begin_waiting-Begins :
      (r : Request) (ms : ℕ) → ms ≤ u64_max / 1_000_000 → Begins r ms (begin_waiting r ms)
  unfolding begin_waiting
  begin_waiting-Begins r ms small =
      let later = add_time-min ms warn_ms (omega arith) in
      elim (Bool-cases (
        r.started == 0
        || not (r.waiting_module == r.module_index)
        || not (r.waiting_peer == next_of r))) [
          | inl begins ↦ rw (begins, begin_waiting) (other refl refl refl (ground (arith, later)))
          | inr goes ↦ rw (goes, begin_waiting) (same refl (ground arith) (ground arith))
        ]

  -- A warning, for a reading that is not before the next one is due.
  warn-Told :
      (holder : ℤ) (source : Option Source) (r : Request) (ms at : ℕ)
      → sources r.module_index ≡ source
      → IsReading (e r.module_index) at ms
      → r.waiting_module ≡ r.module_index
      → r.waiting_peer ≡ next_of r
      → Told (wait_of r) (warn holder source r ms)
  unfolding warn
  warn-Told holder none r ms at found clock here next = still refl
  warn-Told holder (some s) r ms at found clock here next = elim (Bool-cases (leb r.next_log ms)) [
    | inr early ↦ rw (early, warn) (still refl)
    | inl due ↦
        let w : Warning = record {
          module_id = s.module_id;
          peer = next_of r;
          generation = s.generation;
          holder = holder;
          elapsed = ms - r.started;
        } in
        rw (due, warn)
          (warned ms at w s (subst (λ m. IsReading (e m) at ms) (sym here) clock) refl
            (ap sources here ∙ found) refl (sym next) refl)
  ]

  -- No warning is due.
  warn-early :
      (holder : ℤ) (source : Option Source) (r : Request) (ms : ℕ)
      → ms < r.next_log
      → warn holder source r ms ≡ r
  unfolding warn
  warn-early holder none r ms h = refl
  warn-early holder (some s) r ms h =
      let early : leb r.next_log ms ≡ false = ground arith in rw (early, warn) refl

  begun-Told :
      (holder : ℤ) (source : Option Source) (r r' : Request) (ms at : ℕ)
      → sources r.module_index ≡ source
      → IsReading (e r.module_index) at ms
      → Begins r ms r'
      → Told (wait_of r) (warn holder source r' ms)
  begun-Told holder source r r' ms at found clock (same it here next) =
      subst (λ k. Told (wait_of r) (warn holder source k ms)) (sym it)
        (warn-Told holder source r ms at found clock here next)
  begun-Told holder source r r' ms at found clock (other begins here next early) =
      rw (warn-early holder source r' ms early)
        (anew ms at (subst (λ m. IsReading (e m) at ms) (sym here) clock) (rw (next, here) begins))

  clocked-Told :
      (holder : ℤ) (r : Request) (u : ℕ)
      → Fits (e r.module_index)
      → Told (wait_of r) (clocked holder (sources r.module_index) r (now (e r.module_index) u))
  clocked-Told holder r u fits = elim (Option-cases (now (e r.module_index) u)) [
    | inl fails ↦ rw fails (still refl)
    | inr (n, reading) ↦
        let ms = n / 1_000_000 in
        let small : ms ≤ u64_max / 1_000_000 = omega (arith, fits u n reading) in
        rw reading (
          begun-Told holder (sources r.module_index) r (begin_waiting r ms) ms u refl
            (record { nanoseconds = n; reading = reading; rounded = refl })
            (begin_waiting-Begins r ms small))
  ]

  timed-Told :
      (old : Wait) (r : Request) (delay : ℕ)
      → Told old r
      → Told old (record r { timer = some delay })
  timed-Told old r delay (still kept) = still kept
  timed-Told old r delay (anew ms at clock begins) = anew ms at clock begins
  timed-Told old r delay (warned ms at w s clock kept found module_id peer elapsed) =
      warned ms at w s clock kept found module_id peer elapsed

  wait-Told :
      (c : Core) (rc : StepRc) (r : Request) (t : ℕ)
      → ((i : ℕ) → Fits (e i))
      → ToldBy (wait_of r) (wait_or_fail r (wait e c sources rc r t))
  unfolding wait ToldBy request_cleanup
  wait-Told c rc r t fits = elim (Bool-cases (c.is_main && c.own_socket && not (c.watch t))) [
    | inl fails ↦ rw (fails, wait) (still refl)
    | inr goes ↦ elim (StepRc-cases rc) [
      | inl at ↦ rw (goes, at, wait) (still refl)
      | inr (inl at) ↦ rw (goes, at, wait) (still refl)
      | inr (inr (inl at)) ↦
          let holder = (e r.module_index).holder (t + 1) (peer_mutex (next_of r)) in
          rw (goes, at, wait)
            (timed-Told (wait_of r)
              (clocked holder (sources r.module_index) r (now (e r.module_index) (t + 1))) retry_ms
              (clocked-Told holder r (t + 1) (fits r.module_index)))
      | inr (inr (inr at)) ↦ rw (goes, at, wait) (still refl)
    ]
  ]

  collect_from-wait_of :
      (left : ℕ) (r : Request) (remaining t : ℕ)
      → wait_of (collect_from e sources left r remaining t).request ≡ wait_of r
  unfolding collect_from
  collect_from-wait_of zero r remaining t = refl
  collect_from-wait_of (suc left) r remaining t =
      let step =
        snapshot_step (e r.module_index) r.flag (peers_of (sources r.module_index))
          (r.snapshots r.module_index) remaining t in
      let kept = keep_snapshot r step.snapshot in
      elim (StepRc-cases step.rc) [
        | inl at ↦
            rw (at, collect_from)
              (collect_from-wait_of left (record kept { module_index = r.module_index + 1 })
                step.remaining step.tick)
        | inr (inl at) ↦ rw (at, collect_from) refl
        | inr (inr (inl at)) ↦ rw (at, collect_from) refl
        | inr (inr (inr at)) ↦ rw (at, collect_from) refl
      ]

  resumed-Told :
      (c : Core) (output : Output) (k : Collected)
      → ((i : ℕ) → Fits (e i))
      → ToldBy (wait_of k.request) (resumed e c output sources k)
  unfolding resumed ToldBy request_cleanup
  resumed-Told c output k fits = elim (StepRc-cases k.rc) [
    | inl at ↦ rw (at, resumed) (still refl)
    | inr (inl at) ↦ rw (at, resumed) (wait-Told c busy k.request k.tick fits)
    | inr (inr (inl at)) ↦ rw (at, resumed) (wait-Told c again k.request k.tick fits)
    | inr (inr (inr at)) ↦ rw (at, resumed) (still refl)
  ]

  pub resume-Told :
      (c : Core) (output : Output) (r : Request) (t : ℕ)
      → ((i : ℕ) → Fits (e i))
      → ToldBy (wait_of r) (resume e c output sources r t)
  unfolding resume collect ToldBy request_cleanup
  resume-Told c output r t fits =
      let fired = record r { timer = none } in
      let k = collect e sources fired (t + 1) in
      let kept = collect_from-wait_of (r.count - r.module_index) fired batch (t + 1) in
      elim (Bool-cases (c.failed t || c.closed t)) [
        | inl gone ↦ rw (gone, resume) (still refl)
        | inr alive ↦
            rw (alive, resume)
              (subst (λ w. ToldBy w (resumed e c output sources k)) kept
                (resumed-Told c output k fits))
      ]
