-- ===== src/Status/Request/Pages.antt =====
-- The page that a request ends with is that of complete snapshots.
use nginx_healthcheck_module.Base.{
  ℕ, ◌+◌, ◌≤◌, ◌<◌, ◌≡◌, ◌≢◌, refl, ap, sym, subst, ◌∙◌, inl, inr, Bool, ◌||◌, Option, none, some,
  List, length, Bytes, arith, Bool-cases, Option-cases, ◌==◌,
}
use nginx_healthcheck_module.Env.{Env, ℤ}
use nginx_healthcheck_module.Status.Snapshot.{ok, busy, again, error}
use nginx_healthcheck_module.Status.Writer.{Writer, init, text_of}
use nginx_healthcheck_module.Status.Writer.Blocks.{IsWriter, init-IsWriter}
use nginx_healthcheck_module.Status.Writer.Prints.{Prints}
use nginx_healthcheck_module.Status.Formats.{Table}
use nginx_healthcheck_module.Status.Request.{
  Source, Collected, resumed, request_cleanup, Core, Output, Request, Response, table_of,
  refuses_header, writer_send, request_output, Outcome, waiting, finalized, resume, collect, batch,
  wait, wait_or_fail, finish, internal_error, rc_error,
}
use nginx_healthcheck_module.Status.Request.Steps.{Ended, IsCollected, Batch, StepRc-cases}
use nginx_healthcheck_module.Status.Request.Batches.{collect-Batch, ne_error}

-- The length that is announced is that of `out`, and the blocks that are sent, if any are, hold `out`.
pub record Sent (response : Response) (out : Bytes) : Type 0 where
  pub announced : response.content_length ≡ length out
  pub body : (chain : List Bytes) → response.body ≡ some chain → text_of chain ≡ out

writer_send-Sent :
    (c : Core) (w : Writer) (out : Bytes) (rc : ℤ) (response : Response)
    → IsWriter w
    → text_of w.chain ≡ out
    → writer_send c w ≡ (rc, some response)
    → Sent response out
unfolding writer_send
writer_send-Sent c w out rc response q text h =
    elim (Bool-cases
      (refuses_header c.send_header || c.header_only || c.is_head || length w.chain == 0)) [
        | inl stops ↦
            let same : response ≡ record { content_length = w.length; body = none } =
              ground arith in
            rw same (record {
              announced = q.measured ∙ ap length text;
              body = λ chain sends. absurd (ground arith);
            })
        | inr goes ↦
            let same : response ≡ record { content_length = w.length; body = some w.chain } =
              ground arith in
            rw same (record {
              announced = q.measured ∙ ap length text;
              body = λ chain sends.
                  let it : w.chain ≡ chain = cc in subst (λ x. text_of x ≡ out) it text;
            })
      ]

request_output-Sent :
    (alloc : ℕ → Bool) (c : Core) (output : Output) (sources : ℕ → Option Source) (r : Request)
    (t : ℕ) (out : Bytes) (rc : ℤ) (response : Response)
    → Prints alloc
        (output alloc
          (table_of (sources 0) (r.snapshots 0))
          (table_of (sources 1) (r.snapshots 1))
          r.argument)
        out
    → request_output alloc c output sources r t ≡ (rc, some response)
    → Sent response out
unfolding request_output
request_output-Sent alloc c output sources r t out rc response prints h =
    elim (Option-cases (
      output alloc (table_of (sources 0) (r.snapshots 0)) (table_of (sources 1) (r.snapshots 1))
        r.argument init t)) [
          | inl fails ↦ absurd (ground arith)
          | inr ((w, u), writes) ↦
              let (q, text) = prints.text init w t u init-IsWriter writes in
              writer_send-Sent c w out rc response q text (ground arith)
        ]

-- What a request that ends has collected and sends.
pub record Page (sources : ℕ → Option Source) (count : ℕ) (text : Table → Table → Bytes)
    (r : Request) (response : Response) : Type 0 where
  pub complete : (i : ℕ) → i < count → Ended r.flag (sources i) (r.snapshots i)
  pub sent :
      Sent response
        (text (table_of (sources 0) (r.snapshots 0)) (table_of (sources 1) (r.snapshots 1)))

-- Whether a turn of the request ends with a page, and with which.
pub Answers : (Request → Response → Type 0) → Outcome → Type 0
Answers P (waiting r) = Unit
Answers P (finalized r rc none) = Unit
Answers P (finalized r rc (some response)) = P r response

wait_or_fail-Answers :
    (P : Request → Response → Type 0) (r : Request) (next : Option Request)
    → Answers P (wait_or_fail r next)
unfolding Answers
wait_or_fail-Answers P r none = tt
wait_or_fail-Answers P r (some r') = tt

finish-Answers :
    (P : Request → Response → Type 0) (r : Request) (rc : ℤ) (sends : Option Response)
    → ((response : Response) → sends ≡ some response → P (request_cleanup r) response)
    → Answers P (finish r (rc, sends))
unfolding Answers
finish-Answers P r rc none h = tt
finish-Answers P r rc (some response) h = h response refl

-- A batch that has read all sources, and the page that is sent then.
collected-Page :
    (alloc : ℕ → Bool) (c : Core) (output : Output) (text : Table → Table → Bytes)
    (sources : ℕ → Option Source) (r : Request) (k : Collected) (response : Response)
    → ((http stream : Table)
        → Prints alloc (output alloc http stream r.argument) (text http stream))
    → Batch sources r batch k
    → k.rc ≡ ok
    → (request_output alloc c output sources k.request k.tick).1 ≡ some response
    → Page sources r.count text (request_cleanup k.request) response
unfolding request_cleanup
collected-Page alloc c output text sources r k response prints b ends sends =
    let http = table_of (sources 0) (k.request.snapshots 0) in
    let stream = table_of (sources 1) (k.request.snapshots 1) in
    record {
      complete = λ i h. b.sound.ended i (omega (arith, b.ok_ends ends));
      sent =
          request_output-Sent alloc c output sources k.request k.tick (text http stream)
            (request_output alloc c output sources k.request k.tick).0 response
            (subst (λ n. Prints alloc (output alloc http stream n) (text http stream))
              (sym b.asked.0) (prints http stream))
            (ap (λ x. ((request_output alloc c output sources k.request k.tick).0, x)) sends);
    }

resumed-Answers :
    (e : ℕ → Env) (c : Core) (output : Output) (text : Table → Table → Bytes)
    (sources : ℕ → Option Source) (r : Request) (k : Collected)
    → ((http stream : Table)
        → Prints (e 0).alloc (output (e 0).alloc http stream r.argument) (text http stream))
    → (k.rc ≢ error → Batch sources r batch k)
    → Answers (λ r' response. Page sources r.count text r' response) (resumed e c output sources k)
unfolding resumed
resumed-Answers e c output text sources r k prints b =
    let P : Request → Response → Type 0 = λ r' response. Page sources r.count text r' response in
    elim (StepRc-cases k.rc) [
      | inl ends ↦
          let res = request_output (e 0).alloc c output sources k.request k.tick in
          rw (ends, resumed)
            (finish-Answers P k.request res.0 res.1 (λ response sends.
              collected-Page (e 0).alloc c output text sources r k response prints
                (b (ne_error k.rc ok ends (λ h. absurd (cc)))) ends sends))
      | inr (inl spent) ↦
          rw (spent, resumed)
            (wait_or_fail-Answers P k.request (wait e c sources busy k.request k.tick))
      | inr (inr (inl locked)) ↦
          rw (locked, resumed)
            (wait_or_fail-Answers P k.request (wait e c sources again k.request k.tick))
      | inr (inr (inr fails)) ↦
          rw (fails, resumed) (finish-Answers P k.request internal_error none (λ x h. absurd (cc)))
    ]

-- For an output that prints a text: a turn of a request whose snapshots are sound that ends with a page has the snapshots of
-- all its sources complete, announces the length of the text of them, and sends that text if it sends a body.
pub resume-Answers :
    (e : ℕ → Env) (c : Core) (output : Output) (text : Table → Table → Bytes)
    (sources : ℕ → Option Source) (r : Request) (t : ℕ)
    → ((http stream : Table)
        → Prints (e 0).alloc (output (e 0).alloc http stream r.argument) (text http stream))
    → r.module_index ≤ r.count
    → IsCollected sources r
    → Answers (λ r' response. Page sources r.count text r' response) (resume e c output sources r t)
unfolding resume
resume-Answers e c output text sources r t prints within q =
    let P : Request → Response → Type 0 = λ r' response. Page sources r.count text r' response in
    let fired = record r { timer = none } in
    elim (Bool-cases (c.failed t || c.closed t)) [
      | inl gone ↦ rw (gone, resume) (finish-Answers P fired rc_error none (λ x h. absurd (cc)))
      | inr alive ↦
          rw (alive, resume)
            (resumed-Answers e c output text sources fired (collect e sources fired (t + 1)) prints
              (collect-Batch e sources fired (t + 1) within
                (record { ended = q.ended; begun = q.begun })))
    ]
