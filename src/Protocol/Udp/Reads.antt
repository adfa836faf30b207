-- ===== src/Protocol/Udp/Reads.antt =====
-- A read event of a UDP check.
use nginx_healthcheck_module.Base.{
  ℕ, zero, suc, ◌+◌, ◌/◌, ◌<◌, ◌≡◌, ◌≢◌, refl, ap, ◌∙◌, ◌⊎◌, inl, inr, Bool, true, false, none,
  some, if◌then◌else◌, arith,
}
use nginx_healthcheck_module.Env.{Env, now}
use nginx_healthcheck_module.Config.{SrvConf}
use nginx_healthcheck_module.Runtime.{Probe, Runtime, Shared}
use nginx_healthcheck_module.Protocol.Ready.{io_ready}
use nginx_healthcheck_module.Protocol.Udp.{
  Errno, eintr, eagain, econnrefused, enomem, enobufs, emfile, enfile, other_error, Answer, bytes,
  fails, Pending, pending, query_fails, Socket, Udp, finishes, waits, posts, leaves, udp_error,
  or_wait, after_recv, recv_loop, after_query, query_loop, udp_read,
}
use nginx_healthcheck_module.Protocol.Udp.Failures.{udp_error-Counts, or_wait-false, go_on-false}

module _ (e : Env) (c : SrvConf) (r : Runtime) (zone : ℕ → Shared) (i : ℕ) (mine : Bool)
    (k : Socket) where
  -- A refusal of a round with the deadline `d`, read as a pending error or from recv.
  pub record RefusedRead (d : ℕ) (was_attempted : Bool) : Type 0 where
    pub at : ℕ
    pub reading : ℕ
    pub refusal : (k.so_error at ≡ pending (some econnrefused)) ⊎ (k.recv at ≡ fails econnrefused)
    pub read : now e (at + 1) ≡ some reading
    pub in_time : reading / 1_000_000 < d
    pub after_attempt : was_attempted ≡ true

  add_read-ne-false : (t : ℕ) → (if k.add_read t then waits else finishes true) ≢ finishes false
  add_read-ne-false t = λ h. absurd (ground arith)

  recv_error-RefusedRead :
      (p : Probe) (error : Errno) (t : ℕ)
      → k.recv t ≡ fails error
      → or_wait (udp_error e p error (t + 1)) (if k.add_read (t + 2) then waits else finishes true)
        ≡ finishes false
      → RefusedRead p.deadline p.attempted
  recv_error-RefusedRead p error t answers h =
      let v =
        udp_error-Counts e p error (t + 1) (or_wait-false _ _ h (add_read-ne-false (t + 2))) in
      record {
        at = t;
        reading = v.reading;
        refusal = inr (answers ∙ ap fails v.refusal);
        read = v.read;
        in_time = v.in_time;
        after_attempt = v.after_attempt;
      }

  after_recv-RefusedRead :
      (p : Probe) (a : Answer) (t : ℕ) (next : Udp)
      → k.recv t ≡ a
      → (next ≡ finishes false → RefusedRead p.deadline p.attempted)
      → after_recv e c r zone i mine k p a t next ≡ finishes false
      → RefusedRead p.deadline p.attempted
  unfolding after_recv
  after_recv-RefusedRead p (bytes n) t next answers more h = absurd (ground arith)
  after_recv-RefusedRead p (fails eintr) t next answers more h =
      more (go_on-false e c r zone i mine k _ next h)
  after_recv-RefusedRead p (fails eagain) t next answers more h =
      absurd (add_read-ne-false (t + 1) h)
  after_recv-RefusedRead p (fails econnrefused) t next answers more h =
      recv_error-RefusedRead p econnrefused t answers h
  after_recv-RefusedRead p (fails enomem) t next answers more h =
      recv_error-RefusedRead p enomem t answers h
  after_recv-RefusedRead p (fails enobufs) t next answers more h =
      recv_error-RefusedRead p enobufs t answers h
  after_recv-RefusedRead p (fails emfile) t next answers more h =
      recv_error-RefusedRead p emfile t answers h
  after_recv-RefusedRead p (fails enfile) t next answers more h =
      recv_error-RefusedRead p enfile t answers h
  after_recv-RefusedRead p (fails (other_error n)) t next answers more h =
      recv_error-RefusedRead p (other_error n) t answers h

  recv_loop-RefusedRead :
      (tries : ℕ) (p : Probe) (t : ℕ)
      → recv_loop e c r zone i mine k tries p t ≡ finishes false
      → RefusedRead p.deadline p.attempted
  unfolding recv_loop
  recv_loop-RefusedRead zero p t h = absurd (ground arith)
  recv_loop-RefusedRead (suc tries) p t h =
      after_recv-RefusedRead p (k.recv t) t _ refl (λ g. recv_loop-RefusedRead tries p _ g) h

  or_wait-either :
      (u next : Udp)
      → or_wait u next ≡ finishes false
      → (u ≡ finishes false) ⊎ (next ≡ finishes false)
  or_wait-either (finishes b) next h = inl h
  or_wait-either waits next h = inr h
  or_wait-either posts next h = inl h
  or_wait-either (leaves io) next h = inl h

  pending-RefusedRead :
      (p : Probe) (error : Errno) (t : ℕ)
      → k.so_error t ≡ pending (some error)
      → (udp_error e p error (t + 1) ≡ finishes false)
        ⊎ (recv_loop e c r zone i mine k 8 p (t + 2) ≡ finishes false)
      → RefusedRead p.deadline p.attempted
  pending-RefusedRead p error t answers (inl h) =
      let v = udp_error-Counts e p error (t + 1) h in
      record {
        at = t;
        reading = v.reading;
        refusal = inl (answers ∙ ap (λ x. pending (some x)) v.refusal);
        read = v.read;
        in_time = v.in_time;
        after_attempt = v.after_attempt;
      }
  pending-RefusedRead p error t answers (inr h) = recv_loop-RefusedRead 8 p (t + 2) h

  after_query-RefusedRead :
      (p : Probe) (a : Pending) (t : ℕ) (next : Udp)
      → k.so_error t ≡ a
      → (next ≡ finishes false → RefusedRead p.deadline p.attempted)
      → after_query e c r zone i mine k p a t next ≡ finishes false
      → RefusedRead p.deadline p.attempted
  unfolding after_query
  after_query-RefusedRead p (pending none) t next answers more h =
      recv_loop-RefusedRead 8 p (t + 1) h
  after_query-RefusedRead p (pending (some error)) t next answers more h =
      pending-RefusedRead p error t answers (or_wait-either _ _ h)
  after_query-RefusedRead p (query_fails eintr) t next answers more h =
      more (go_on-false e c r zone i mine k _ next h)
  after_query-RefusedRead p (query_fails eagain) t next answers more h = absurd (ground arith)
  after_query-RefusedRead p (query_fails econnrefused) t next answers more h = absurd (ground arith)
  after_query-RefusedRead p (query_fails enomem) t next answers more h = absurd (ground arith)
  after_query-RefusedRead p (query_fails enobufs) t next answers more h = absurd (ground arith)
  after_query-RefusedRead p (query_fails emfile) t next answers more h = absurd (ground arith)
  after_query-RefusedRead p (query_fails enfile) t next answers more h = absurd (ground arith)
  after_query-RefusedRead p (query_fails (other_error n)) t next answers more h =
      absurd (ground arith)

  query_loop-RefusedRead :
      (tries : ℕ) (p : Probe) (t : ℕ)
      → query_loop e c r zone i mine k tries p t ≡ finishes false
      → RefusedRead p.deadline p.attempted
  unfolding query_loop
  query_loop-RefusedRead zero p t h = absurd (ground arith)
  query_loop-RefusedRead (suc tries) p t h =
      after_query-RefusedRead p (k.so_error t) t _ refl (λ g. query_loop-RefusedRead tries p _ g) h

  -- A read event gives a failure only if a refusal was read from the socket, before the deadline of a
  -- round that has tried to send: whatever the socket, the clock, the locks and the event module answer.
  pub udp_read-RefusedRead :
      (p : Probe) (t : ℕ)
      → udp_read e c r zone i mine k p t ≡ finishes false
      → RefusedRead p.deadline p.attempted
  unfolding udp_read
  udp_read-RefusedRead p t h =
      let io = io_ready e r zone i mine p t in
      query_loop-RefusedRead 8 p io.1 (go_on-false e c r zone i mine k io.0 _ h)
