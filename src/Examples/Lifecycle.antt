-- ===== src/Examples/Lifecycle.antt =====
-- A process begins, finishes and gives up a round.
use nginx_healthcheck_module.Base.{
  ℕ, ◌+◌, ◌*◌, ◌≤◌, ◌≡◌, refl, inr, min, u64_max, true, false, none, some, [], ◌∷◌, arith,
}
use nginx_healthcheck_module.Config.{SrvConf}
use nginx_healthcheck_module.Runtime.{ok, Connection, Probe, Runtime, Shared, set_peer, zero_probe}
use nginx_healthcheck_module.Protocol.Udp.{bytes, fails, eagain, pending}
use nginx_healthcheck_module.Protocol.Cleanup.{Events}
use nginx_healthcheck_module.Protocol.Start.{
  Net, opens, opened, connected, connect_new, connect, prepare, prepare_at, probe_start,
}
use nginx_healthcheck_module.Protocol.Tcp.{tcp_peek, tcp_event}
use nginx_healthcheck_module.Protocol.Ready.{io_ready, io_due}
use nginx_healthcheck_module.Protocol.Round.{
  Wires, start_round, ran_start, ran_event, ran_finish, write_handler, after_write,
}
use nginx_healthcheck_module.Lock.{lock, lock_loop}
use nginx_healthcheck_module.Time.{add_time, mul_time, add_time-min, timer_delay}
use nginx_healthcheck_module.Env.{Env, Late, pos, now, now_of}
use nginx_healthcheck_module.State.{preparing}
use nginx_healthcheck_module.Slots.{current, publish, spare}
use nginx_healthcheck_module.Schedule.Owned.{
  owned_lock, owned_within, probe_valid, waiting_state, probe_waiting_owned, probe_waiting,
}
use nginx_healthcheck_module.Protocol.Start.Opens.{Opens, probe_start-Opens}
use nginx_healthcheck_module.Schedule.Claim.{
  claim, claim_with, claim_at, claim_locked, claim_verdict, regular_verdict, claimed_state,
}
use nginx_healthcheck_module.Schedule.Submit.{submit, submit_owned, commit}
use nginx_healthcheck_module.Schedule.Finish.{finish, resolve, submitted}
use nginx_healthcheck_module.Schedule.Finish.Settles.{Settled, finish-Settled}
use nginx_healthcheck_module.Schedule.Begin.{Began, begin, after_claim}
use nginx_healthcheck_module.Schedule.Begin.Armed.{Armed, begin-Armed}
use nginx_healthcheck_module.Schedule.Stop.{Process, runtime_stop}
use nginx_healthcheck_module.Schedule.Stop.Stopped.{Stopped, runtime_stop-Stopped}
use nginx_healthcheck_module.Schedule.Watch.{watch}
use nginx_healthcheck_module.Schedule.Watch.Rearmed.{GoesOn, watch-GoesOn}
use nginx_healthcheck_module.Examples.World.{world, conf, runtime, idle_peer, zone}

abbrev events : Events
events = record {
  level = true;
  write_active = λ t. true;
  del_write = λ t. true;
  add_read = λ t. true;
  read_ready = λ t. false;
}

abbrev connection : Connection
connection = record {
  requests = 0;
  start_time = 1000;
  failed = false;
  timedout = false;
  idle = false;
}

-- In its first round, over a connection.
abbrev at_work : Probe
at_work = record zero_probe {
  connection = some connection;
  timeout = some 4500;
  instance_id = 7;
  term = 1;
  round = 1;
  started = 5000;
  deadline = 9500;
  active = true;
}

abbrev kept_conf : SrvConf
kept_conf = record conf { keep_connection = true }

finish-Settled_example :
    Settled kept_conf true zone
      (finish (world 42) events kept_conf (runtime 0) at_work zone 0 true 6)
finish-Settled_example =
    finish-Settled (world 42) events kept_conf (runtime 0) at_work zone 0 true 6 refl refl

abbrev net : Net
net = record {
  msec = λ t. 1000 * t;
  peek = λ t. bytes 1;
  connect = λ t. (ok, some connection);
  keepalive = λ t. true;
}

-- A clock of one microsecond per call.
calm-Late :
    (limit t u : ℕ)
    → limit ≤ u64_max
    → t + limit ≤ u
    → Late (λ k. some (record { sec = pos 5; nsec = min (1000 * k) u64_max })) limit u
unfolding now_of
calm-Late limit t u fits late = inr (
  add_time (mul_time 5 1_000_000_000) (min (1000 * u) u64_max),
  refl,
  ground (arith, add_time-min (mul_time 5 1_000_000_000) (min (1000 * u) u64_max) (omega arith)),
)

abbrev calm : Env
calm = record (world 42) {
  gettime = λ t. some (record { sec = pos 5; nsec = min (1000 * t) u64_max });
  patience = λ limit t. limit;
  progress = calm-Late;
}

abbrev wires : Wires
wires = record {
  net = net;
  stream = record {
    recv = λ size t. fails eagain;
    recv_fits = λ size t n h. absurd (cc);
    peek = λ t. bytes 1;
    add_read = λ t. true;
  };
  socket = record {
    send = λ t. bytes 0;
    recv = λ t. bytes 0;
    so_error = λ t. pending none;
    write_watched = λ t. false;
    del_write = λ t. true;
    add_read = λ t. true;
    add_write = λ t. true;
  };
  handled = 1000;
  read_handled = 1000;
  read_ready = λ t. false;
  write_ready = λ t. true;
}

abbrev alone : ℕ → Shared → Shared
alone t sh = sh

abbrev begun : Began
begun = begin calm events kept_conf (runtime 0) alone 0 wires none zone 1

-- The round that is begun connects at once, and its success is submitted.
comes_to_result : begun.answer ≡ some ok
unfolding begin after_claim claim claim_with claim_at claim_locked claim_verdict regular_verdict
    claimed_state start_round ran_start ran_event ran_finish write_handler after_write tcp_event
    io_ready io_due probe_start prepare_at prepare connect connect_new connected opened probe_valid
    probe_waiting probe_waiting_owned waiting_state owned_lock owned_within tcp_peek finish resolve
    submitted submit submit_owned commit lock lock_loop now now_of current publish spare add_time
    mul_time timer_delay
comes_to_result = refl

begin-Armed_example : Armed (claim calm kept_conf (runtime 0) none zone 0 none 0 2) begun
begin-Armed_example =
    begin-Armed calm events kept_conf (runtime 0) alone 0 wires none zone 1 (omega arith)

abbrev process : Process
process = record {
  runtime = runtime 0;
  watch = some 1000;
  peers =
      record { conf = kept_conf; probe = some at_work; check_timer = some 10 }
      ∷ record { conf = conf; probe = none; check_timer = some 20 }
      ∷ [];
}

runtime_stop-Stopped_example :
    Stopped (world 42) events process zone (runtime_stop (world 42) events process zone 3)
runtime_stop-Stopped_example = runtime_stop-Stopped (world 42) events process zone 3 refl

-- The round of process 0 that has been begun in the zone.
abbrev own_zone : Shared
own_zone = set_peer zone 0 (
    publish (zone.peers 0) (record idle_peer {
      owner = 42;
      instance_id = 7;
      term = 1;
      round = 1;
      started = 5000;
      deadline = 9_500_000;
      phase = preparing;
    }))

abbrev own_round : Probe
own_round = record at_work { generation = 1; deadline = 9_500_000 }

-- With a budget of time for the locks, as the watch gives it.
abbrev patient : Runtime
patient = record (runtime 0) { budget = 1_000_000_000_000 }

-- Its kept connection is used again.
kept_opens :
    (probe_start (world 42) events kept_conf patient (λ t. own_zone) 0 net own_round 5).start
    ≡ opens true
unfolding probe_start prepare_at prepare connect connect_new connected opened probe_valid
    probe_waiting probe_waiting_owned waiting_state owned_lock owned_within tcp_peek lock lock_loop
    now now_of current publish spare add_time mul_time timer_delay
kept_opens = refl

probe_start-Opens_example :
    Opens
      (world 42)
      kept_conf
      net
      own_round
      (probe_valid (world 42) patient own_round own_zone 0 5).1
      (probe_start (world 42) events kept_conf patient (λ t. own_zone) 0 net own_round 5).probe
probe_start-Opens_example =
    probe_start-Opens (world 42) events kept_conf patient (λ t. own_zone) 0 net own_round 5 true
      kept_opens

-- With a hash of nothing, and other processes that leave the zone alone.
watch-GoesOn_example :
    GoesOn (watch (world 42) events (λ key. 0) alone (λ i. wires) process zone 3).process
watch-GoesOn_example = watch-GoesOn (world 42) events (λ key. 0) alone (λ i. wires) process zone 3
