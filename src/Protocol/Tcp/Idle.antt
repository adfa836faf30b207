-- ===== src/Protocol/Tcp/Idle.antt =====
-- A kept connection discards a bounded number of bytes, and the loop that does so ends.
use nginx_healthcheck_module.Base.{
  ℕ, zero, suc, ◌+◌, ◌-◌, ◌≤◌, ◌<◌, ◌≡◌, ◌≢◌, refl, ap, inl, inr, Bool, Option, none, some, ltb,
  ◌||◌, arith, Bool-cases,
}
use nginx_healthcheck_module.Env.{Env}
use nginx_healthcheck_module.Runtime.{Probe, Runtime, Shared}
use nginx_healthcheck_module.Schedule.Owned.{probe_valid}
use nginx_healthcheck_module.Protocol.Ready.{is_declined}
use nginx_healthcheck_module.Protocol.Udp.{
  eintr, eagain, econnrefused, enomem, enobufs, emfile, enfile, other_error, Answer, bytes, fails,
}
use nginx_healthcheck_module.Protocol.Tcp.{
  discard_max, Stream, IdleEnd, ignored, stopped, closed, drained, recv_size, after_idle, idle_loop,
  tcp_idle,
}

-- While at most 4096 bytes have been discarded, each read asks for a byte at least, and for no more
-- than the 4097 of the buffer.
pub recv_size-bounds :
    (d : ℕ) → d ≤ discard_max → (1 ≤ recv_size d) × (recv_size d ≤ discard_max + 1)
recv_size-bounds d h = omega arith

module _ (k : Stream) where
  after_idle-bounded :
      (a : Answer) (d t d' : ℕ) (next : ℕ → Option IdleEnd)
      → d ≤ discard_max
      → ((m : ℕ) → m ≤ discard_max → next m ≡ some (drained d') → d' ≤ discard_max)
      → after_idle k a d t next ≡ some (drained d')
      → d' ≤ discard_max
  unfolding after_idle
  after_idle-bounded (bytes zero) d t d' next fits more h = absurd (ground arith)
  after_idle-bounded (bytes (suc n)) d t d' next fits more h =
      elim (Bool-cases (ltb discard_max (d + suc n))) [
        | inl over ↦ absurd (ground arith)
        | inr under ↦ more (d + suc n) (ground arith) (ground arith)
      ]
  after_idle-bounded (fails eintr) d t d' next fits more h = more d fits h
  after_idle-bounded (fails eagain) d t d' next fits more h = ground arith
  after_idle-bounded (fails econnrefused) d t d' next fits more h = absurd (ground arith)
  after_idle-bounded (fails enomem) d t d' next fits more h = absurd (ground arith)
  after_idle-bounded (fails enobufs) d t d' next fits more h = absurd (ground arith)
  after_idle-bounded (fails emfile) d t d' next fits more h = absurd (ground arith)
  after_idle-bounded (fails enfile) d t d' next fits more h = absurd (ground arith)
  after_idle-bounded (fails (other_error n)) d t d' next fits more h = absurd (ground arith)

  idle_loop-bounded :
      (fuel d t d' : ℕ)
      → d ≤ discard_max
      → idle_loop k fuel d t ≡ some (drained d')
      → d' ≤ discard_max
  unfolding idle_loop
  idle_loop-bounded zero d t d' fits h = absurd (ground arith)
  idle_loop-bounded (suc fuel) d t d' fits h =
      after_idle-bounded (k.recv (recv_size d) t) d t d' _ fits
        (λ m small g. idle_loop-bounded fuel m (t + 1) d' small g) h

  -- What is still to come: the bytes that may be discarded, and the calls that may be interrupted.
  abbrev pub work : ℕ → ℕ → ℕ → ℕ
  work quiet d t = (discard_max + 1 - d) + (quiet - t)

  after_idle-returns :
      (quiet fuel d t : ℕ) (a : Answer) (next : ℕ → Option IdleEnd)
      → (a ≡ fails eintr → t < quiet)
      → d ≤ discard_max
      → work quiet d t ≤ fuel
      → ((m : ℕ) → m ≤ discard_max → work quiet m (t + 1) < fuel → next m ≢ none)
      → after_idle k a d t next ≢ none
  unfolding after_idle
  after_idle-returns quiet fuel d t (bytes zero) next early fits enough more =
      λ h. absurd (ground arith)
  after_idle-returns quiet fuel d t (bytes (suc n)) next early fits enough more =
      elim (Bool-cases (ltb discard_max (d + suc n))) [
        | inl over ↦ λ h. absurd (ground arith)
        | inr under ↦ λ h. more (d + suc n) (ground arith) (ground arith) (ground arith)
      ]
  after_idle-returns quiet fuel d t (fails eintr) next early fits enough more =
      let soon = early refl in more d fits (omega arith)
  after_idle-returns quiet fuel d t (fails eagain) next early fits enough more =
      λ h. absurd (ground arith)
  after_idle-returns quiet fuel d t (fails econnrefused) next early fits enough more =
      λ h. absurd (ground arith)
  after_idle-returns quiet fuel d t (fails enomem) next early fits enough more =
      λ h. absurd (ground arith)
  after_idle-returns quiet fuel d t (fails enobufs) next early fits enough more =
      λ h. absurd (ground arith)
  after_idle-returns quiet fuel d t (fails emfile) next early fits enough more =
      λ h. absurd (ground arith)
  after_idle-returns quiet fuel d t (fails enfile) next early fits enough more =
      λ h. absurd (ground arith)
  after_idle-returns quiet fuel d t (fails (other_error n)) next early fits enough more =
      λ h. absurd (ground arith)

  idle_loop-returns :
      (quiet fuel d t : ℕ)
      → ((u size : ℕ) → quiet ≤ u → k.recv size u ≢ fails eintr)
      → d ≤ discard_max
      → work quiet d t < fuel
      → idle_loop k fuel d t ≢ none
  unfolding idle_loop
  idle_loop-returns quiet zero d t calm fits enough = absurd (omega arith)
  idle_loop-returns quiet (suc fuel) d t calm fits enough =
      after_idle-returns quiet fuel d t (k.recv (recv_size d) t) _
        (λ interrupted. elim (Bool-cases (ltb t quiet)) [
          | inl soon ↦ ground arith
          | inr settled ↦ absurd (calm t (recv_size d) (ground arith) interrupted)
        ])
        fits (omega arith) (λ m small less. idle_loop-returns quiet fuel m (t + 1) calm small less)

-- An idle event ends, and keeps the cap.
pub Ends : Option IdleEnd → Type 0
Ends o = (end : IdleEnd) × (o ≡ some end) × ((d : ℕ) → end ≡ drained d → d ≤ discard_max)

some-Ends :
    (o : Option IdleEnd) → o ≢ none → ((d : ℕ) → o ≡ some (drained d) → d ≤ discard_max) → Ends o
unfolding Ends
some-Ends none ends bounded = absurd (ends refl)
some-Ends (some end) ends bounded = (end, refl, λ d h. bounded d (ap some h))

plain-Ends : (end : IdleEnd) → ((d : ℕ) → end ≢ drained d) → Ends (some end)
unfolding Ends
plain-Ends end other = (end, refl, λ d h. absurd (other d h))

-- An idle read event on a connection that has discarded at most 4096 bytes ends, where recv is not
-- interrupted from some call on, with fuel for the bytes and the interruptions; and a connection that
-- is kept has still discarded at most 4096 bytes.
pub tcp_idle-Ends :
    (e : Env) (r : Runtime) (zone : ℕ → Shared) (i : ℕ) (mine gone : Bool) (k : Stream) (p : Probe)
    (quiet fuel t : ℕ)
    → ((u size : ℕ) → quiet ≤ u → k.recv size u ≢ fails eintr)
    → p.discarded ≤ discard_max
    → discard_max + 1 + quiet < fuel
    → Ends (tcp_idle e r zone i mine gone k fuel p t)
unfolding tcp_idle
tcp_idle-Ends e r zone i mine gone k p quiet fuel t calm fits enough =
    let v = probe_valid e r p (zone t) i (t + 1) in
    elim (Bool-cases mine) [
      | inr foreign ↦ rw (foreign, tcp_idle) (plain-Ends ignored (λ d h. absurd (ground arith)))
      | inl own ↦ elim (Bool-cases (r.stopping || e.quitting t)) [
        | inl stops ↦ rw (own, stops, tcp_idle) (plain-Ends stopped (λ d h. absurd (ground arith)))
        | inr goes ↦ elim (Bool-cases (gone || is_declined v.0)) [
          | inl dead ↦
              rw (own, goes, dead, tcp_idle) (plain-Ends closed (λ d h. absurd (ground arith)))
          | inr alive ↦
              rw (own, goes, alive, tcp_idle)
                (some-Ends (idle_loop k fuel p.discarded v.1)
                  (idle_loop-returns k quiet fuel p.discarded v.1 calm fits (omega arith))
                  (λ d h. idle_loop-bounded k fuel p.discarded v.1 d fits h))
        ]
      ]
    ]
