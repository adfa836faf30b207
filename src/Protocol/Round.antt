-- ===== src/Protocol/Round.antt =====
-- A round that begins or goes on: ngx_healthcheck_probe_start and ngx_healthcheck_probe_resume, with all
-- that they call themselves, the time-out, the handlers of the connection and ngx_healthcheck_finish.
use nginx_healthcheck_module.Base.{
  ℕ, ◌+◌, ◌/◌, Bool, true, false, not, ◌&&◌, leb, Option, none, some, if◌then◌else◌,
}
use nginx_healthcheck_module.Env.{Env, now}
use nginx_healthcheck_module.Config.{SrvConf, is_tcp}
use nginx_healthcheck_module.Runtime.{Rc, Probe, Runtime, Shared}
use nginx_healthcheck_module.Schedule.Owned.{probe_valid, probe_waiting}
use nginx_healthcheck_module.Schedule.Finish.{finish}
use nginx_healthcheck_module.Protocol.Ready.{
  Io, ready, idle, stops, lost, late, TimedOut, ignored, stopped, ended, again_in, finished,
  timeout,
}
use nginx_healthcheck_module.Protocol.Cleanup.{Events, probe_cleanup}
use nginx_healthcheck_module.Protocol.Udp.{
  Socket, Udp, finishes, waits, posts, leaves, udp_write, write_marks, udp_read,
}
use nginx_healthcheck_module.Protocol.Tcp.{Stream, tcp_event}
use nginx_healthcheck_module.Protocol.Start.{Net, Start, fails, opens, probe_start}

-- What the sockets of a peer answer. `handled` and `read_handled` are the ticks at which the write and
-- the read handler have come to their results, `read_ready` and `write_ready` the flags of the events.
pub record Wires : Type 0 where
  pub net : Net
  pub stream : Stream
  pub socket : Socket
  pub handled : ℕ
  pub read_handled : ℕ
  pub read_ready : ℕ → Bool
  pub write_ready : ℕ → Bool

-- What the call leaves. `stopping` tells that it has called ngx_healthcheck_runtime_stop, `answer` what
-- a submission answered, and `check_timer` the delay that one set.
pub record Ran : Type 0 where
  pub stopping : Bool
  pub answer : Option Rc
  pub shared : Shared
  pub probe : Probe
  pub check_timer : Option ℕ
  pub tick : ℕ

abbrev pub ran : Probe → Shared → ℕ → Ran
ran p sh t = record {
  stopping = false;
  answer = none;
  shared = sh;
  probe = p;
  check_timer = none;
  tick = t;
}

module _ (e : Env) (b : Events) (c : SrvConf) (r : Runtime) (others : ℕ → Shared → Shared)
    (i : ℕ) where
  -- The result of the round is fixed; the other processes change the zone before.
  unfoldable pub ran_finish : Probe → Shared → Bool → ℕ → Ran
  ran_finish p sh result t =
      let k = finish e b c r p (others t sh) i result t in
      record {
        stopping = false;
        answer = k.rc;
        shared = k.shared;
        probe = k.probe;
        check_timer = k.check_timer;
        tick = k.tick;
      }

  -- The round is another's.
  unfoldable pub ran_lost : Probe → Shared → ℕ → Ran
  ran_lost p sh t =
      let clean = probe_cleanup b c (record p { active = false }) false t in
      ran clean.probe sh clean.tick

  unfoldable pub ran_timeout : Probe → Shared → TimedOut → ℕ → Ran
  ran_timeout p sh ignored t = ran p sh t
  ran_timeout p sh stopped t = record (ran p sh t) { stopping = true }
  ran_timeout p sh ended t = ran_lost p sh t
  ran_timeout p sh (again_in delay) t = ran (record p { timeout = some delay }) sh t
  ran_timeout p sh (finished result) t = ran_finish p sh result t

  -- The time-out is called at tick `t`.
  unfoldable pub call_timeout : Probe → Shared → ℕ → Ran
  call_timeout p sh t =
      let zone : ℕ → Shared = λ u. others u sh in
      let v = probe_valid e r p (zone t) i (t + 1) in
      ran_timeout p sh (timeout e c r zone i p t) (v.1 + 1)

  unfoldable pub ran_io : Probe → Shared → Io → ℕ → Ran
  ran_io p sh ready t = ran p sh t
  ran_io p sh idle t = ran p sh t
  ran_io p sh stops t = record (ran p sh t) { stopping = true }
  ran_io p sh lost t = ran_lost p sh t
  ran_io p sh late t = call_timeout p sh t

  unfoldable pub ran_event : Probe → Shared → Udp → ℕ → Ran
  ran_event p sh (finishes result) t = ran_finish p sh result t
  ran_event p sh waits t = ran p sh t
  ran_event p sh posts t = ran p sh t
  ran_event p sh (leaves io) t = ran_io p sh io t

  -- connection->write->handler
  unfoldable pub write_handler : Wires → Probe → Shared → ℕ → Udp
  write_handler w p sh t =
      let zone : ℕ → Shared = λ u. others u sh in
      if is_tcp c.check_type
      then tcp_event e r zone i true w.stream p t
      else udp_write e c r zone i true w.socket p t

  -- The probe that the handler leaves, before what its outcome does.
  unfoldable pub after_write : Wires → Probe → Shared → ℕ → Probe
  after_write w p sh t =
      let zone : ℕ → Shared = λ u. others u sh in
      if is_tcp c.check_type then p else write_marks e c r zone i true w.socket p t

  abbrev pub or_same : Shared → Option Shared → Shared
  or_same sh none = sh
  or_same sh (some left) = left

  unfoldable pub ran_start : Wires → Probe → Shared → Start → ℕ → Ran
  ran_start w p sh Start.lost t = ran p sh t
  ran_start w p sh Start.waits t = ran p sh t
  ran_start w p sh Start.late t = call_timeout p sh t
  ran_start w p sh (fails result) t = ran_finish p sh result t
  ran_start w p sh (opens false) t = ran p sh t
  ran_start w p sh (opens true) t =
      ran_event (after_write w p sh t) sh (write_handler w p sh t) w.handled

  unfoldable pub start_round : Wires → Probe → Shared → ℕ → Ran
  start_round w p sh t =
      let o = probe_start e b c r (λ u. others u sh) i w.net p t in
      ran_start w o.probe (or_same sh o.shared) o.start o.tick

  -- connection->read->handler
  unfoldable pub read_handler : Wires → Probe → Shared → ℕ → Udp
  read_handler w p sh t =
      let zone : ℕ → Shared = λ u. others u sh in
      if is_tcp c.check_type
      then tcp_event e r zone i true w.stream p t
      else udp_read e c r zone i true w.socket p t

  abbrev pub is_connected : Probe → Bool
  is_connected p = elim p.connection [ none ↦ false | some k ↦ true ]

  -- What a first call and a later one have done.
  abbrev pub later_of : {A : Type 0} → Option A → Option A → Option A
  later_of old none = old
  later_of old (some a) = some a

  abbrev pub both : Ran → Ran → Ran
  both x y = record y {
    answer = later_of x.answer y.answer;
    check_timer = later_of x.check_timer y.check_timer;
  }

  -- The write event, unless the read event has ended the round or stopped the process.
  unfoldable pub resume_write : Wires → Ran → Ran
  resume_write w x =
      let p = after_write w x.probe x.shared x.tick in
      let y = ran_event p x.shared (write_handler w x.probe x.shared x.tick) w.handled in
      if not x.stopping && x.probe.active && is_connected x.probe && w.write_ready x.tick
      then both x y
      else x

  unfoldable pub resume_read : Wires → Probe → Shared → ℕ → Ran
  resume_read w p sh t =
      let x = ran_event p sh (read_handler w p sh t) w.read_handled in
      if is_connected p && w.read_ready t then x else ran p sh t

  unfoldable pub resume_at : Wires → Probe → Shared → Option ℕ → ℕ → Ran
  resume_at w p sh none t = resume_write w (resume_read w p sh t)
  resume_at w p sh (some n) t =
      if leb p.deadline (n / 1_000_000)
      then call_timeout p sh t
      else resume_write w (resume_read w p sh t)

  -- ngx_healthcheck_probe_resume; what probe_waiting answers is not looked at.
  unfoldable pub resume_round : Wires → Probe → Shared → ℕ → Ran
  resume_round w p sh t =
      let k = probe_waiting e r p (others t sh) i t in
      if not p.active
      then ran p sh t
      else if not p.prepared
      then start_round w p sh t
      else resume_at w k.0.2 k.0.1 (now e k.1) (k.1 + 1)
