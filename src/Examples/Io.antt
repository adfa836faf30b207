-- ===== src/Examples/Io.antt =====
-- A UDP check whose datagram is refused, a TCP check that times out, and an idle connection.
use nginx_healthcheck_module.Base.{
  ℕ, ◌/◌, ◌≤◌, ◌≡◌, ◌≢◌, arith, refl, true, false, not, some, codes,
}
use nginx_healthcheck_module.Time.{add_time, mul_time}
use nginx_healthcheck_module.Env.{now, now_of}
use nginx_healthcheck_module.Lock.{lock, lock_loop}
use nginx_healthcheck_module.Config.{SrvConf, udp, is_tcp}
use nginx_healthcheck_module.Slots.{current}
use nginx_healthcheck_module.Runtime.{Probe, zero_probe, Runtime, Shared}
use nginx_healthcheck_module.Schedule.Owned.{owned_lock, owned_within, probe_valid}
use nginx_healthcheck_module.Protocol.Ready.{io_ready, io_due, timeout, timeout_at, finished}
use nginx_healthcheck_module.Protocol.Deadline.{timeout-finished}
use nginx_healthcheck_module.Protocol.Udp.{
  Socket, econnrefused, eagain, eintr, fails, bytes, pending, finishes, udp_error, after_send,
  send_loop, udp_write, after_query, query_loop, udp_read,
}
use nginx_healthcheck_module.Protocol.Udp.Sends.{RefusedSend, udp_write-RefusedSend}
use nginx_healthcheck_module.Protocol.Udp.Reads.{RefusedRead, udp_read-RefusedRead}
use nginx_healthcheck_module.Protocol.Tcp.{Stream, tcp_idle}
use nginx_healthcheck_module.Protocol.Tcp.Idle.{Ends, tcp_idle-Ends}
use nginx_healthcheck_module.Examples.World.{world, conf, runtime, idle_peer, fresh_slots, zone}

abbrev refusing : Socket
refusing = record {
  send = λ t. fails econnrefused;
  recv = λ t. fails econnrefused;
  so_error = λ t. pending (some econnrefused);
  write_watched = λ t. false;
  del_write = λ t. true;
  add_read = λ t. true;
  add_write = λ t. true;
}

abbrev udp_conf : SrvConf
udp_conf = record conf { check_type = udp; send = codes "NGX_UDP_CHECKER" }

-- With time for the locks.
abbrev patient : Runtime
patient = record (runtime 0) { budget = 1_000_000_000_000 }

abbrev owned_zone : ℕ → Shared
owned_zone t = record zone {
  peers = λ i. fresh_slots (record idle_peer { owner = 42; instance_id = 7; round = 1 });
}

abbrev running_probe : Probe
running_probe = record zero_probe {
  instance_id = 7;
  round = 1;
  generation = 1;
  deadline = 500_000;
  active = true;
  attempted = true;
  sending = true;
}

refused_write :
    udp_write (world 42) udp_conf patient owned_zone 0 true refusing running_probe 1
    ≡ finishes false
unfolding udp_write send_loop after_send udp_error io_ready io_due probe_valid owned_lock
    owned_within lock lock_loop now now_of current add_time mul_time
refused_write = refl

udp_write-RefusedSend_example :
    RefusedSend (world 42) udp_conf patient owned_zone 0 true refusing 500_000
udp_write-RefusedSend_example =
    udp_write-RefusedSend (world 42) udp_conf patient owned_zone 0 true refusing running_probe 1
      refused_write

refused_read :
    udp_read (world 42) udp_conf patient owned_zone 0 true refusing running_probe 1 ≡ finishes false
unfolding udp_read query_loop after_query udp_error io_ready io_due probe_valid owned_lock
    owned_within lock lock_loop now now_of current add_time mul_time
refused_read = refl

udp_read-RefusedRead_example :
    RefusedRead (world 42) udp_conf patient owned_zone 0 true refusing 500_000 true
udp_read-RefusedRead_example =
    udp_read-RefusedRead (world 42) udp_conf patient owned_zone 0 true refusing running_probe 1
      refused_read

timed_out : timeout (world 42) conf patient owned_zone 0 running_probe 600 ≡ finished false
unfolding timeout timeout_at probe_valid owned_lock owned_within lock lock_loop now now_of current
    add_time mul_time
timed_out = refl

timeout-finished_example :
    (running_probe.active ≡ true)
    × (running_probe.pending ≡ false)
    × ((u n : ℕ) × (now (world 42) u ≡ some n) × (running_probe.deadline ≤ n / 1_000_000))
    × (false ≡ not (is_tcp conf.check_type))
timeout-finished_example =
    timeout-finished (world 42) conf patient owned_zone 0 running_probe 600 false timed_out

no_bytes : (n size : ℕ) → fails eagain ≡ bytes n → n ≤ size
no_bytes n size h = absurd (ground arith)

abbrev quiet_stream : Stream
quiet_stream = record {
  recv = λ size t. fails eagain;
  recv_fits = λ size t n h. no_bytes n size h;
  peek = λ t. fails eagain;
  add_read = λ t. true;
}

eagain-ne-eintr : fails eagain ≢ fails eintr
eagain-ne-eintr = λ h. absurd (ground arith)

tcp_idle-Ends_example :
    Ends (tcp_idle (world 42) patient owned_zone 0 true false quiet_stream 5000 running_probe 1)
tcp_idle-Ends_example =
    tcp_idle-Ends (world 42) patient owned_zone 0 true false quiet_stream running_probe 0 5000 1
      (λ u size late. eagain-ne-eintr) (omega arith) (omega arith)
