-- ===== src/Status/Request/Batches.antt =====
-- A request ends with complete snapshots, and every batch brings it nearer to its end.
use nginx_healthcheck_module.Base.{
  ℕ, zero, suc, ◌+◌, ◌-◌, ◌≤◌, ◌<◌, ◌≡◌, ◌≢◌, refl, ap, sym, subst, ◌∙◌, inl, inr, Option, [],
  length, arith, ==_refl,
}
use nginx_healthcheck_module.Env.{Env}
use nginx_healthcheck_module.Runtime.{update}
use nginx_healthcheck_module.Status.Snapshot.{
  Snapshot, StepRc, ok, busy, again, error, Step, snapshot_step,
}
use nginx_healthcheck_module.Status.Request.{
  Source, peers_of, Request, Collected, collected, keep_snapshot, collect_from, collect, batch,
  new_request,
}
use nginx_healthcheck_module.Status.Request.Steps.{
  Begun, Ended, IsCollected, unread_of, unread, update_all, unread_of-later, StepRc-cases, Batch,
  Stepped, step-Stepped,
}

-- A step that does not end its source.
kept-IsCollected :
    (sources : ℕ → Option Source) (r : Request) (s : Snapshot)
    → IsCollected sources r
    → Begun r.flag (sources r.module_index) s
    → IsCollected sources (keep_snapshot r s)
kept-IsCollected sources r s q b = record {
  ended =
      update_all (λ i x. i < r.module_index → Ended r.flag (sources i) x) r.snapshots r.module_index
        s (λ h. absurd (omega arith)) (λ j other h. q.ended j h);
  begun =
      update_all (λ i x. Begun r.flag (sources i) x) r.snapshots r.module_index s b
        (λ j other. q.begun j);
}

-- A step that ends it.
next_module-IsCollected :
    (sources : ℕ → Option Source) (r : Request) (s : Snapshot)
    → IsCollected sources r
    → Begun r.flag (sources r.module_index) s
    → Ended r.flag (sources r.module_index) s
    → IsCollected sources (record (keep_snapshot r s) { module_index = r.module_index + 1 })
next_module-IsCollected sources r s q b d = record {
  ended =
      update_all (λ i x. i < r.module_index + 1 → Ended r.flag (sources i) x) r.snapshots
        r.module_index s (λ h. d) (λ j other h. q.ended j (ground arith));
  begun =
      update_all (λ i x. Begun r.flag (sources i) x) r.snapshots r.module_index s b
        (λ j other. q.begun j);
}

unread-suc :
    (sources : ℕ → Option Source) (r : Request) (left : ℕ)
    → r.count - r.module_index ≡ suc left
    → unread sources r
      ≡ (length (peers_of (sources r.module_index)) - (r.snapshots r.module_index).next)
        + unread_of sources r.snapshots (r.module_index + 1) left
unfolding unread unread_of
unread-suc sources r left goes = ap (unread_of sources r.snapshots r.module_index) goes

unread-kept :
    (sources : ℕ → Option Source) (r : Request) (s : Snapshot) (left : ℕ)
    → r.count - r.module_index ≡ suc left
    → unread sources (keep_snapshot r s)
      ≡ (length (peers_of (sources r.module_index)) - s.next)
        + unread_of sources r.snapshots (r.module_index + 1) left
unread-kept sources r s left goes =
    let i = r.module_index in
    let ps = peers_of (sources i) in
    let at : update r.snapshots i s i ≡ s = rw (==_refl i) refl in
    unread-suc sources (keep_snapshot r s) left goes
    ∙ ap (λ x. (length ps - x.next) + unread_of sources (update r.snapshots i s) (i + 1) left) at
    ∙ ap (λ n. (length ps - s.next) + n)
        (unread_of-later sources r.snapshots i (i + 1) left s (omega arith))

stop-Batch :
    (sources : ℕ → Option Source) (r : Request) (remaining left t : ℕ) (rc : StepRc) (step : Step)
    → r.count - r.module_index ≡ suc left
    → rc ≡ step.rc
    → rc ≢ ok
    → IsCollected sources r
    → Stepped sources r remaining step
    → Batch sources r remaining (collected rc (keep_snapshot r step.snapshot) t)
stop-Batch sources r remaining left t rc step goes same not_ok q st =
    let after = unread-kept sources r step.snapshot left goes in
    let before = unread-suc sources r left goes in
    record {
      sound = kept-IsCollected sources r step.snapshot q st.begun;
      busy_reads =
          λ h. omega (arith, after, before, st.budget, st.spent (sym same ∙ h), st.next, st.fits);
      ok_ends = λ h. absurd (not_ok h);
      asked = (refl, refl);
      never_more = omega (arith, after, before, st.next, st.fits);
    }

abbrev next_module : Request → Snapshot → Request
next_module r s = record (keep_snapshot r s) { module_index = r.module_index + 1 }

unread-next :
    (sources : ℕ → Option Source) (r : Request) (s : Snapshot) (left : ℕ)
    → r.count - r.module_index ≡ suc left
    → unread sources (next_module r s) ≡ unread_of sources r.snapshots (r.module_index + 1) left
unfolding unread
unread-next sources r s left goes =
    let i = r.module_index in
    let fewer : r.count - (i + 1) ≡ left = omega arith in
    ap (unread_of sources (update r.snapshots i s) (i + 1)) fewer
    ∙ unread_of-later sources r.snapshots i (i + 1) left s (omega arith)

-- A step that ends its source, and the rest of the batch.
go-Batch :
    (sources : ℕ → Option Source) (r : Request) (remaining left : ℕ) (step : Step) (k : Collected)
    → r.count - r.module_index ≡ suc left
    → step.rc ≡ ok
    → Stepped sources r remaining step
    → Batch sources (next_module r step.snapshot) step.remaining k
    → Batch sources r remaining k
go-Batch sources r remaining left step k goes ends st b =
    let before = unread-suc sources r left goes in
    let after = unread-next sources r step.snapshot left goes in
    record {
      sound = b.sound;
      busy_reads =
          λ h. omega (arith, before, after, b.busy_reads h, st.budget, st.next, st.complete ends);
      ok_ends = b.ok_ends;
      asked = b.asked;
      never_more = omega (arith, before, after, b.never_more);
    }

step-Ended :
    (sources : ℕ → Option Source) (r : Request) (remaining : ℕ) (step : Step)
    → Stepped sources r remaining step
    → step.rc ≡ ok
    → Ended r.flag (sources r.module_index) step.snapshot
step-Ended sources r remaining step st ends = record {
  readings = st.begun.readings;
  page = st.begun.page;
  all = omega (arith, st.begun.page.counted, st.complete ends);
}

same-Batch :
    {sources : ℕ → Option Source} {r : Request} {remaining : ℕ} {k : Collected} (k' : Collected)
    → k ≡ k'
    → (k'.rc ≢ error → Batch sources r remaining k')
    → k.rc ≢ error
    → Batch sources r remaining k
same-Batch {sources} {r} {remaining} {k} k' eq good h =
    subst (Batch sources r remaining) (sym eq) (good (subst (λ (x : Collected). x.rc ≢ error) eq h))

pub ne_error : (rc rc' : StepRc) → rc ≡ rc' → rc' ≢ error → rc ≢ error
ne_error rc rc' same h k = h (sym same ∙ k)

collect_from-Batch :
    (e : ℕ → Env) (sources : ℕ → Option Source) (left : ℕ) (r : Request) (remaining t : ℕ)
    → r.count - r.module_index ≡ left
    → r.module_index ≤ r.count
    → IsCollected sources r
    → (collect_from e sources left r remaining t).rc ≢ error
    → Batch sources r remaining (collect_from e sources left r remaining t)
unfolding collect_from
collect_from-Batch e sources zero r remaining t goes within q good = record {
  sound = q;
  busy_reads = λ h. absurd (ground arith);
  ok_ends = λ h. omega arith;
  asked = (refl, refl);
  never_more = omega arith;
}
collect_from-Batch e sources (suc left) r remaining t goes within q good =
    let step =
      snapshot_step (e r.module_index) r.flag (peers_of (sources r.module_index))
        (r.snapshots r.module_index) remaining t in
    let kept = keep_snapshot r step.snapshot in
    let stepped : step.rc ≢ error → Stepped sources r remaining step =
      step-Stepped (e r.module_index) sources r remaining t q in
    elim (StepRc-cases step.rc) [
      | inl ends ↦
          let st = stepped (ne_error step.rc ok ends (λ h. absurd (cc))) in
          let next = next_module r step.snapshot in
          same-Batch (collect_from e sources left next step.remaining step.tick)
            (rw (ends, collect_from) refl)
            (λ g.
              go-Batch sources r remaining left step
                (collect_from e sources left next step.remaining step.tick) goes ends st
                (collect_from-Batch e sources left next step.remaining step.tick (omega arith)
                  (omega arith)
                  (next_module-IsCollected sources r step.snapshot q st.begun
                    (step-Ended sources r remaining step st ends))
                  g))
            good
      | inr (inl spent) ↦
          let st = stepped (ne_error step.rc busy spent (λ h. absurd (cc))) in
          same-Batch (collected busy kept step.tick) (rw (spent, collect_from) refl)
            (λ g.
              stop-Batch sources r remaining left step.tick busy step goes (sym spent)
                (λ h. absurd (cc)) q st)
            good
      | inr (inr (inl locked)) ↦
          let st = stepped (ne_error step.rc again locked (λ h. absurd (cc))) in
          same-Batch (collected again kept step.tick) (rw (locked, collect_from) refl)
            (λ g.
              stop-Batch sources r remaining left step.tick again step goes (sym locked)
                (λ h. absurd (cc)) q st)
            good
      | inr (inr (inr fails)) ↦
          same-Batch (collected error kept step.tick) (rw (fails, collect_from) refl)
            (λ g. absurd (g refl)) good
    ]

-- A batch of a request whose snapshots are sound, if it meets neither a missing shared part nor a lack of memory, keeps
-- them sound; if it ends for its budget, 256 peers fewer are to be read, if it ends with NGX_OK every
-- source has been read, and never are more peers to be read than before.
pub collect-Batch :
    (e : ℕ → Env) (sources : ℕ → Option Source) (r : Request) (t : ℕ)
    → r.module_index ≤ r.count
    → IsCollected sources r
    → (collect e sources r t).rc ≢ error
    → Batch sources r batch (collect e sources r t)
unfolding collect
collect-Batch e sources r t within q good =
    collect_from-Batch e sources (r.count - r.module_index) r batch t refl within q good

-- A new request has read nothing of its sources.
pub new_request-IsCollected :
    (sources : ℕ → Option Source) (count flag argument : ℕ)
    → IsCollected sources (new_request sources count flag argument)
new_request-IsCollected sources count flag argument = record {
  ended = λ i h. absurd (omega arith);
  begun = λ i. record {
    readings = [];
    page = record { counted = refl; totalled = refl; listed = refl };
    within = omega arith;
  };
}
