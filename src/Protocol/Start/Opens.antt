-- ===== src/Protocol/Start/Opens.antt =====
-- A round that opens a connection has a fresh one or a sound one, and its deadline and time-out agree.
use nginx_healthcheck_module.Base.{
  ℕ, ◌+◌, ◌-◌, ◌^◌, ◌≤◌, ◌<◌, u64, subst, ◌==◌, ◌/◌, ◌≡◌, ◌⊎◌, refl, ap, sym, ◌∙◌, inl, inr, Bool,
  true, false, not, ◌&&◌, ◌||◌, Option, none, some, arith, Bool-cases, Option-cases, if◌then◌else◌,
  leb,
}
use nginx_healthcheck_module.Time.{add_time, timer_delay}
use nginx_healthcheck_module.Env.{Env, now, IsReading}
use nginx_healthcheck_module.Config.{SrvConf, is_tcp}
use nginx_healthcheck_module.Runtime.{Rc, ok, Connection, Probe, Runtime, Shared}
use nginx_healthcheck_module.Schedule.Owned.{
  Owned, owned, not_now, not_mine, owned_lock, probe_valid, probe_waiting, probe_waiting_owned,
}
use nginx_healthcheck_module.Protocol.Ready.{is_declined, is_valid}
use nginx_healthcheck_module.Protocol.Tcp.{tcp_peek}
use nginx_healthcheck_module.Protocol.Tcp.Peek.{IsAlive, tcp_peek-IsAlive}
use nginx_healthcheck_module.Protocol.Cleanup.{Events, probe_close}
use nginx_healthcheck_module.Protocol.Start.{
  Net, Start, lost, waits, late, fails, opens, Opening, is_error, is_old, remaining, with_deadline,
  opened, connected, connect_new, connect, prepare, prepare_at, probe_start,
}

-- A connection that ngx_event_connect_peer has opened for this round, whose answer is no failure. It is
-- dated by a reading of the time, and nothing has been discarded on it yet.
pub record IsNew (net : Net) (from : ℕ) (q : Probe) : Type 0 where
  pub connection : Connection
  pub rc : Rc
  pub at : ℕ
  pub later : from ≤ at
  pub gives : net.connect at ≡ (rc, some connection)
  pub works : (is_declined rc || is_error rc) ≡ false
  pub opened : q.connection ≡ some (record connection { start_time = net.msec (at + 1) })
  pub undrained : q.discarded ≡ 0

-- The connection that was kept, younger than the handshake interval, whose peer has not closed it.
pub record IsKept (c : SrvConf) (net : Net) (p : Probe) (from : ℕ) (q : Probe) : Type 0 where
  pub connection : Connection
  pub at : ℕ
  pub later : from ≤ at
  pub was : p.connection ≡ some connection
  pub young :
      (c.rehandshake ≡ 0) ⊎ (u64 (net.msec at + 2 ^ 64 - connection.start_time) < c.rehandshake)
  pub alive : IsAlive (net.peek at)
  pub is : q.connection ≡ some (record connection { idle = false })

abbrev pub IsUsable : SrvConf → Net → Probe → ℕ → Probe → Type 0
IsUsable c net p from q = IsNew net from q ⊎ IsKept c net p from q

-- The deadline and the time-out of a round on a usable connection, by a reading of the clock at `ms`
-- milliseconds. All of it has been asked at tick `from` or later.
pub record Opens (e : Env) (c : SrvConf) (net : Net) (p : Probe) (from : ℕ) (q : Probe)
    : Type 0 where
  pub ms : ℕ
  pub at : ℕ
  pub later : from ≤ at
  pub clock : IsReading e at ms
  pub usable : IsUsable c net p from q
  pub tcp_deadline : is_tcp c.check_type ≡ true → q.deadline ≡ add_time ms c.check_timeout
  pub udp_deadline : is_tcp c.check_type ≡ false → q.deadline ≡ p.deadline
  pub timed : q.timeout ≡ some (timer_delay (remaining ms q.deadline))

young-cases :
    (c : SrvConf) (k : Connection) (msec : ℕ)
    → is_old c k msec ≡ false
    → (c.rehandshake ≡ 0) ⊎ (u64 (msec + 2 ^ 64 - k.start_time) < c.rehandshake)
young-cases c k msec h = elim (Bool-cases (c.rehandshake == 0)) [
  | inl off ↦ inl (ground arith)
  | inr on ↦ inr (ground arith)
]

-- What holds of a start that goes on with a connection.
abbrev When : Start → Type 0 → Type 0
When lost A = Unit
When waits A = Unit
When late A = Unit
When (fails result) A = Unit
When (opens writes) A = A

-- What probe_waiting leaves as it was.
abbrev seen : Probe → Option Connection × ℕ × ℕ
seen p = (p.connection, p.deadline, p.discarded)

waiting_owned-seen :
    (p : Probe) (sh : Shared) (i : ℕ) (o : Owned) → seen (probe_waiting_owned p sh i o).2 ≡ seen p
unfolding probe_waiting_owned
waiting_owned-seen p sh i not_now = refl
waiting_owned-seen p sh i not_mine = refl
waiting_owned-seen p sh i (owned s) = refl

either-seen :
    (p : Probe) (d : Bool) (x y : (Rc × Shared × Probe) × ℕ)
    → seen x.0.2 ≡ seen p
    → seen y.0.2 ≡ seen p
    → seen (if◌then◌else◌ {A = (Rc × Shared × Probe) × ℕ} d x y).0.2 ≡ seen p
either-seen p true x y h k = h
either-seen p false x y h k = k

waiting-seen :
    (e : Env) (r : Runtime) (p : Probe) (sh : Shared) (i t : ℕ)
    → seen (probe_waiting e r p sh i t).0.2 ≡ seen p
unfolding probe_waiting
waiting-seen e r p sh i t =
    let o = owned_lock e r p sh i 0 t in
    either-seen p p.waiting_published ((ok, sh, p), t) (probe_waiting_owned p sh i o.0, o.1) refl
      (waiting_owned-seen p sh i o.0)

with_deadline-seen :
    (c : SrvConf) (p : Probe) (ms : ℕ)
    → ((with_deadline c p ms).connection ≡ p.connection)
      × ((with_deadline c p ms).discarded ≡ p.discarded)
      × (is_tcp c.check_type ≡ true → (with_deadline c p ms).deadline ≡ add_time ms c.check_timeout)
      × (is_tcp c.check_type ≡ false → (with_deadline c p ms).deadline ≡ p.deadline)
with_deadline-seen c p ms = elim (Bool-cases (is_tcp c.check_type)) [
  | inl tcp ↦ rw tcp (refl, refl, (λ h. refl), λ h. absurd (ground arith))
  | inr udp ↦ rw udp (refl, refl, (λ h. absurd (ground arith)), λ h. refl)
]

usable-seen :
    (c : SrvConf) (net : Net) (p : Probe) (from : ℕ) (q q' : Probe)
    → q'.connection ≡ q.connection
    → q'.discarded ≡ q.discarded
    → IsUsable c net p from q
    → IsUsable c net p from q'
usable-seen c net p from q q' same drained (inl x) = inl (record {
  connection = x.connection;
  rc = x.rc;
  at = x.at;
  later = x.later;
  gives = x.gives;
  works = x.works;
  opened = same ∙ x.opened;
  undrained = drained ∙ x.undrained;
})
usable-seen c net p from q q' same drained (inr x) = inr (record {
  connection = x.connection;
  at = x.at;
  later = x.later;
  was = x.was;
  young = x.young;
  alive = x.alive;
  is = same ∙ x.is;
})

opened-Opens :
    (e : Env) (c : SrvConf) (r : Runtime) (zone : ℕ → Shared) (i : ℕ) (net : Net) (writes : Bool)
    (p : Probe) (from at : ℕ) (q : Probe) (ms t : ℕ)
    → from ≤ at
    → IsReading e at ms
    → q.deadline ≡ p.deadline
    → IsUsable c net p from q
    → Opens e c net p from (opened e c r zone i writes q ms t).probe
unfolding opened
opened-Opens e c r zone i net writes p from at q ms t later clock same good =
    let d = with_deadline c q ms in
    let w = probe_waiting e r d (zone t) i t in
    let kept = waiting-seen e r d (zone t) i t in
    let (conn, drained, tcp, udp) = with_deadline-seen c q ms in
    let deadline : w.0.2.deadline ≡ d.deadline = ap (λ x. x.1) kept in
    record {
      ms = ms;
      at = at;
      later = later;
      clock = clock;
      usable =
          usable-seen c net p from q
            (record w.0.2 { timeout = some (timer_delay (remaining ms d.deadline)) })
            (ap (λ x. x.0) kept ∙ conn) (ap (λ x. x.2) kept ∙ drained) good;
      tcp_deadline = λ h. deadline ∙ tcp h;
      udp_deadline = λ h. deadline ∙ udp h ∙ same;
      timed = ap (λ x. some (timer_delay (remaining ms x))) (sym deadline);
    }

IsIt : Env → SrvConf → Net → Probe → ℕ → Opening → Type 0
IsIt e c net p from k = When k.start (Opens e c net p from k.probe)

connected-Opens :
    (e : Env) (c : SrvConf) (r : Runtime) (zone : ℕ → Shared) (i : ℕ) (net : Net) (writes : Bool)
    (p : Probe) (from : ℕ) (q : Probe) (t : ℕ)
    → from ≤ t
    → q.deadline ≡ p.deadline
    → IsUsable c net p from q
    → IsIt e c net p from (connected e c r zone i writes q t)
unfolding connected opened IsIt
connected-Opens e c r zone i net writes p from q t later same good = elim (Option-cases (now e t)) [
  | inl unread ↦ rw (unread, connected) tt
  | inr (n, reading) ↦
      let prepared : Probe = record q { prepared = true } in
      rw (reading, connected)
        (opened-Opens e c r zone i net writes p from t prepared (n / 1_000_000) (t + 1) later
          (record { nanoseconds = n; reading = reading; rounded = refl }) same
          (usable-seen c net p from q prepared refl refl good))
]

connect_new-Opens :
    (e : Env) (c : SrvConf) (r : Runtime) (zone : ℕ → Shared) (i : ℕ) (net : Net) (p : Probe)
    (from : ℕ) (q : Probe) (rc : Rc) (k : Option Connection) (u : ℕ)
    → from ≤ u
    → net.connect u ≡ (rc, k)
    → q.deadline ≡ p.deadline
    → IsIt e c net p from (connect_new e c r zone i net q rc k (u + 1))
unfolding connect_new IsIt
connect_new-Opens e c r zone i net p from q rc none u later answer same = tt
connect_new-Opens e c r zone i net p from q rc (some k) u later answer same =
    let t = u + 1 in
    let fresh : Connection = record k { start_time = net.msec t } in
    let q' : Probe = record q { connection = some fresh; discarded = 0 } in
    elim (Bool-cases (is_declined rc || is_error rc)) [
      | inl broken ↦ rw (broken, connect_new) tt
      | inr works ↦
          elim (Bool-cases (is_tcp c.check_type && c.keepalive && not (net.keepalive t))) [
            | inl unset ↦ rw (works, unset, connect_new) tt
            | inr set ↦
                rw (works, set, connect_new)
                  (connected-Opens e c r zone i net (is_valid rc) p from q' (t + 1)
                    (omega (arith, later)) same
                    (inl (record {
                      connection = k;
                      rc = rc;
                      at = u;
                      later = later;
                      gives = answer;
                      works = works;
                      opened = refl;
                      undrained = refl;
                    })))
          ]
    ]

connect-Opens :
    (e : Env) (c : SrvConf) (r : Runtime) (zone : ℕ → Shared) (i : ℕ) (net : Net) (p : Probe)
    (from : ℕ) (q : Probe) (t : ℕ)
    → from ≤ t
    → q.deadline ≡ p.deadline
    → IsIt e c net p from (connect e c r zone i net q t)
unfolding connect
connect-Opens e c r zone i net p from q t later same =
    connect_new-Opens e c r zone i net p from q (net.connect t).0 (net.connect t).1 t later refl
      same

prepare-Opens :
    (e : Env) (c : SrvConf) (r : Runtime) (zone : ℕ → Shared) (i : ℕ) (net : Net) (p : Probe)
    (from : ℕ) (o : Option Connection) (t : ℕ)
    → from ≤ t
    → p.connection ≡ o
    → IsIt e c net p from (prepare e c r zone i net p o t)
unfolding prepare
prepare-Opens e c r zone i net p from none t later at =
    connect-Opens e c r zone i net p from p t later refl
prepare-Opens e c r zone i net p from (some k) t later at =
    elim (Bool-cases (is_old c k (net.msec t))) [
      | inl old ↦
          rw (old, prepare) (connect-Opens e c r zone i net p from (probe_close p) t later refl)
      | inr young ↦ elim (Bool-cases (tcp_peek (net.peek t))) [
        | inl alive ↦
            let kept : Probe = record p { connection = some (record k { idle = false }) } in
            rw (young, alive, prepare)
              (connected-Opens e c r zone i net true p from kept (t + 1) (omega (arith, later)) refl
                (inr (record {
                  connection = k;
                  at = t;
                  later = later;
                  was = at;
                  young = young-cases c k (net.msec t) young;
                  alive = tcp_peek-IsAlive (net.peek t) alive;
                  is = refl;
                })))
        | inr dead ↦
            rw (young, dead, prepare)
              (connect-Opens e c r zone i net p from (probe_close p) (t + 1) (omega (arith, later))
                refl)
      ]
    ]

prepare_at-Opens :
    (e : Env) (c : SrvConf) (r : Runtime) (zone : ℕ → Shared) (i : ℕ) (net : Net) (p : Probe)
    (from : ℕ) (o : Option ℕ) (t : ℕ)
    → from ≤ t
    → IsIt e c net p from (prepare_at e c r zone i net p o t)
unfolding prepare_at IsIt
prepare_at-Opens e c r zone i net p from none t later = tt
prepare_at-Opens e c r zone i net p from (some n) t later =
    elim (Bool-cases (leb p.deadline (n / 1_000_000))) [
      | inl over ↦ rw (over, prepare_at) tt
      | inr in_time ↦
          rw (in_time, prepare_at) (prepare-Opens e c r zone i net p from p.connection t later refl)
    ]

start-When :
    (e : Env) (b : Events) (c : SrvConf) (r : Runtime) (zone : ℕ → Shared) (i : ℕ) (net : Net)
    (p : Probe) (t : ℕ)
    → IsIt e c net p (probe_valid e r p (zone t) i t).1 (probe_start e b c r zone i net p t)
unfolding probe_start IsIt
start-When e b c r zone i net p t =
    let v = probe_valid e r p (zone t) i t in
    elim (Bool-cases (is_declined v.0)) [
      | inl others ↦ rw (others, probe_start) tt
      | inr mine ↦ elim (Bool-cases (is_valid v.0)) [
        | inl valid ↦
            rw (mine, valid, probe_start)
              (prepare_at-Opens e c r zone i net p v.1 (now e v.1) (v.1 + 1) (omega arith))
        | inr unknown ↦ rw (mine, unknown, probe_start) tt
      ]
    ]

-- Whatever the locks, the clock and the sockets answer: if the start of a round goes on with a
-- connection, it is a new one, which ngx_event_connect_peer has given without a failure, or the kept
-- one, which is younger than the handshake interval and which its peer has not closed; the deadline is
-- that of the claim for UDP and a whole check timeout from a reading of the clock for TCP; and the
-- time-out is set to what remained of the deadline at that reading. The connection and the clock are
-- asked after the check that the round is the probe's own.
pub probe_start-Opens :
    (e : Env) (b : Events) (c : SrvConf) (r : Runtime) (zone : ℕ → Shared) (i : ℕ) (net : Net)
    (p : Probe) (t : ℕ) (writes : Bool)
    → (probe_start e b c r zone i net p t).start ≡ opens writes
    → Opens e c net p (probe_valid e r p (zone t) i t).1 (probe_start e b c r zone i net p t).probe
unfolding IsIt
probe_start-Opens e b c r zone i net p t writes h =
    let k = probe_start e b c r zone i net p t in
    subst (λ x. When x (Opens e c net p (probe_valid e r p (zone t) i t).1 k.probe)) h
      (start-When e b c r zone i net p t)
