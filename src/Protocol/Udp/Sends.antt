-- ===== src/Protocol/Udp/Sends.antt =====
-- A write event of a UDP check.
use nginx_healthcheck_module.Base.{
  ℕ, zero, suc, ◌+◌, ◌/◌, ◌<◌, ◌≡◌, refl, ap, ◌∙◌, inl, inr, Bool, false, some, arith, Bool-cases,
}
use nginx_healthcheck_module.Env.{Env, now}
use nginx_healthcheck_module.Config.{SrvConf}
use nginx_healthcheck_module.Runtime.{Probe, Runtime, Shared}
use nginx_healthcheck_module.Protocol.Ready.{io_ready}
use nginx_healthcheck_module.Protocol.Udp.{
  Errno, eintr, eagain, econnrefused, enomem, enobufs, emfile, enfile, other_error, Answer, bytes,
  fails, Socket, Udp, finishes, udp_error, udp_wait_reply, or_wait, attempted, after_send,
  send_loop, udp_write,
}
use nginx_healthcheck_module.Protocol.Udp.Failures.{
  udp_error-Counts, wait_reply-ne-false, or_wait-false, go_on-false,
}

module _ (e : Env) (c : SrvConf) (r : Runtime) (zone : ℕ → Shared) (i : ℕ) (mine : Bool)
    (k : Socket) where
  -- A refusal of a datagram of a round with the deadline `d`.
  pub record RefusedSend (d : ℕ) : Type 0 where
    pub at : ℕ
    pub reading : ℕ
    pub refusal : k.send at ≡ fails econnrefused
    pub read : now e (at + 1) ≡ some reading
    pub in_time : reading / 1_000_000 < d

  send_error-RefusedSend :
      (p : Probe) (error : Errno) (t : ℕ)
      → k.send t ≡ fails error
      → or_wait (udp_error e p error (t + 1)) (udp_wait_reply k (t + 2)) ≡ finishes false
      → RefusedSend p.deadline
  send_error-RefusedSend p error t sends h =
      let v =
        udp_error-Counts e p error (t + 1) (or_wait-false _ _ h (wait_reply-ne-false k (t + 2))) in
      record {
        at = t;
        reading = v.reading;
        refusal = sends ∙ ap fails v.refusal;
        read = v.read;
        in_time = v.in_time;
      }

  after_send-RefusedSend :
      (p : Probe) (a : Answer) (t : ℕ) (next : Udp)
      → k.send t ≡ a
      → (next ≡ finishes false → RefusedSend p.deadline)
      → after_send e c r zone i mine k p a t next ≡ finishes false
      → RefusedSend p.deadline
  unfolding after_send
  after_send-RefusedSend p (bytes n) t next sends more h =
      absurd (ground (arith, wait_reply-ne-false k (t + 1)))
  after_send-RefusedSend p (fails eintr) t next sends more h =
      more (go_on-false e c r zone i mine k _ next h)
  after_send-RefusedSend p (fails eagain) t next sends more h = absurd (ground arith)
  after_send-RefusedSend p (fails econnrefused) t next sends more h =
      send_error-RefusedSend p econnrefused t sends h
  after_send-RefusedSend p (fails enomem) t next sends more h =
      send_error-RefusedSend p enomem t sends h
  after_send-RefusedSend p (fails enobufs) t next sends more h =
      send_error-RefusedSend p enobufs t sends h
  after_send-RefusedSend p (fails emfile) t next sends more h =
      send_error-RefusedSend p emfile t sends h
  after_send-RefusedSend p (fails enfile) t next sends more h =
      send_error-RefusedSend p enfile t sends h
  after_send-RefusedSend p (fails (other_error n)) t next sends more h =
      send_error-RefusedSend p (other_error n) t sends h

  send_loop-RefusedSend :
      (tries : ℕ) (p : Probe) (t : ℕ)
      → send_loop e c r zone i mine k tries p t ≡ finishes false
      → RefusedSend p.deadline
  unfolding send_loop
  send_loop-RefusedSend zero p t h = absurd (ground arith)
  send_loop-RefusedSend (suc tries) p t h =
      after_send-RefusedSend (attempted p) (k.send t) t _ refl
        (λ g. send_loop-RefusedSend tries (attempted p) _ g) h

  -- A write event gives a failure only if a datagram was refused, at a time before the deadline of the
  -- round: whatever send, the clock, the locks and the event module answer.
  pub udp_write-RefusedSend :
      (p : Probe) (t : ℕ)
      → udp_write e c r zone i mine k p t ≡ finishes false
      → RefusedSend p.deadline
  unfolding udp_write
  udp_write-RefusedSend p t h =
      let io = io_ready e r zone i mine p t in
      elim (Bool-cases p.sending) [
        | inl sending ↦
            send_loop-RefusedSend 8 p io.1
              (ground (arith, go_on-false e c r zone i mine k io.0 _ h))
        | inr done ↦ absurd (ground (arith, go_on-false e c r zone i mine k io.0 _ h))
      ]
