-- ===== src/Protocol/Start.antt =====
-- ngx_healthcheck_probe_start: the I/O of a round begins, over a new connection or over the one that
-- was kept.
pub mod Opens
use nginx_healthcheck_module.Base.{
  ℕ, ◌+◌, ◌-◌, ◌/◌, ◌%◌, ◌^◌, Bool, true, false, not, ◌&&◌, ◌||◌, Option, none, some, leb, ltb,
  ◌==◌, if◌then◌else◌, u64,
}
use nginx_healthcheck_module.Time.{add_time, timer_delay}
use nginx_healthcheck_module.Env.{Env, now}
use nginx_healthcheck_module.Config.{SrvConf, is_tcp}
use nginx_healthcheck_module.Runtime.{
  Rc, ok, again, declined, error, busy, Connection, Probe, Runtime, Shared,
}
use nginx_healthcheck_module.Schedule.Owned.{probe_valid, probe_waiting}
use nginx_healthcheck_module.Protocol.Ready.{is_declined, is_valid}
use nginx_healthcheck_module.Protocol.Udp.{Answer}
use nginx_healthcheck_module.Protocol.Tcp.{tcp_peek}
use nginx_healthcheck_module.Protocol.Cleanup.{Events, probe_cleanup, probe_close}

-- ngx_current_msec, recv with MSG_PEEK on the kept connection, ngx_event_connect_peer with the connection that it
-- leaves, and whether the four options of ngx_healthcheck_tcp_keepalive can be set.
pub record Net : Type 0 where
  pub msec : ℕ → ℕ
  pub peek : ℕ → Answer
  pub connect : ℕ → Rc × Option Connection
  pub keepalive : ℕ → Bool

-- What the start comes to. `lost` is a round of others, `waits` is left to the watch, `late` has called
-- the time-out, `fails` has called ngx_healthcheck_finish with a result, and `opens` goes on with a connection; it calls the
-- write handler at once if it is told so.
pub data Start : Type 0 where
  lost waits late : Start
  fails : Bool → Start
  opens : Bool → Start

pub record Opening : Type 0 where
  pub start : Start
  pub probe : Probe
  pub shared : Option Shared
  pub tick : ℕ

abbrev pub is_error : Rc → Bool
is_error error = true
is_error _ = false

abbrev pub opening : Start → Probe → ℕ → Opening
opening s p t = record { start = s; probe = p; shared = none; tick = t }

-- A kept connection has reached its age: rehandshake != 0 && ngx_current_msec - start_time >= rehandshake.
abbrev pub is_old : SrvConf → Connection → ℕ → Bool
is_old c k msec = not (c.rehandshake == 0) && leb c.rehandshake (u64 (msec + 2 ^ 64 - k.start_time))

abbrev pub remaining : ℕ → ℕ → ℕ
remaining ms deadline = if ltb ms deadline then deadline - ms else 0

-- The deadline of a TCP round counts from here, that of a UDP round was fixed by the claim.
abbrev pub with_deadline : SrvConf → Probe → ℕ → Probe
with_deadline c p ms =
    if is_tcp c.check_type then record p { deadline = add_time ms c.check_timeout } else p

-- From `ms` milliseconds on; what probe_waiting answers is not looked at.
unfoldable pub opened : Env → SrvConf → Runtime → (ℕ → Shared) → ℕ → Bool → Probe → ℕ → ℕ → Opening
opened e c r zone i writes p ms t =
    let q = with_deadline c p ms in
    let w = probe_waiting e r q (zone t) i t in
    record {
      start = opens writes;
      probe = record w.0.2 { timeout = some (timer_delay (remaining ms q.deadline)) };
      shared = some w.0.1;
      tick = w.1;
    }

-- The label `connected`.
unfoldable pub connected : Env → SrvConf → Runtime → (ℕ → Shared) → ℕ → Bool → Probe → ℕ → Opening
connected e c r zone i writes p t =
    let prepared : Probe = record p { prepared = true } in
    elim (now e t) [
      | none ↦ opening (fails (not (is_tcp c.check_type))) prepared (t + 1)
      | some n ↦ opened e c r zone i writes prepared (n / 1_000_000) (t + 1)
    ]

-- A new connection.
unfoldable pub connect_new :
    Env → SrvConf → Runtime → (ℕ → Shared) → ℕ → Net → Probe → Rc → Option Connection → ℕ → Opening
connect_new e c r zone i net p rc none t =
    opening (fails (not (is_tcp c.check_type))) (probe_close p) t
connect_new e c r zone i net p rc (some k) t =
    let q : Probe = record p {
      connection = some (record k { start_time = net.msec t });
      discarded = 0;
    } in
    if is_declined rc || is_error rc
    then opening (fails (not (is_tcp c.check_type))) (record p { connection = some k }) t
    else if is_tcp c.check_type && c.keepalive && not (net.keepalive t)
    then opening (fails false) (probe_close q) (t + 1)
    else connected e c r zone i (is_valid rc) q (t + 1)

unfoldable pub connect : Env → SrvConf → Runtime → (ℕ → Shared) → ℕ → Net → Probe → ℕ → Opening
connect e c r zone i net p t =
    let (rc, k) = net.connect t in connect_new e c r zone i net p rc k (t + 1)

-- A connection that was kept is used again if it is young enough and its peer has not closed it.
unfoldable pub prepare :
    Env → SrvConf → Runtime → (ℕ → Shared) → ℕ → Net → Probe → Option Connection → ℕ → Opening
prepare e c r zone i net p none t = connect e c r zone i net p t
prepare e c r zone i net p (some k) t =
    let kept : Probe = record p { connection = some (record k { idle = false }) } in
    if is_old c k (net.msec t)
    then connect e c r zone i net (probe_close p) t
    else if tcp_peek (net.peek t)
    then connected e c r zone i true kept (t + 1)
    else connect e c r zone i net (probe_close p) (t + 1)

unfoldable pub prepare_at :
    Env → SrvConf → Runtime → (ℕ → Shared) → ℕ → Net → Probe → Option ℕ → ℕ → Opening
prepare_at e c r zone i net p none t = opening waits p t
prepare_at e c r zone i net p (some n) t =
    if leb p.deadline (n / 1_000_000)
    then opening late p t
    else prepare e c r zone i net p p.connection t

unfoldable pub probe_start :
    Env → Events → SrvConf → Runtime → (ℕ → Shared) → ℕ → Net → Probe → ℕ → Opening
probe_start e b c r zone i net p t =
    let v = probe_valid e r p (zone t) i t in
    let clean = probe_cleanup b c (record p { active = false }) false v.1 in
    if is_declined v.0
    then opening lost clean.probe clean.tick
    else if not (is_valid v.0)
    then opening waits p v.1
    else prepare_at e c r zone i net p (now e v.1) (v.1 + 1)
