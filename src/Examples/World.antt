-- ===== src/Examples/World.antt =====
-- A process with a clock of one second per call, free locks and enough memory; a zone with its workers
-- registered.
use nginx_healthcheck_module.Base.{
  ℕ, ◌+◌, ◌/◌, ◌≤◌, refl, inr, true, false, some, [], u64_max, arith,
}
use nginx_healthcheck_module.Time.{add_time, mul_time, add_time-min, mul_time-min}
use nginx_healthcheck_module.Env.{Env, Late, now_of, pos, alive}
use nginx_healthcheck_module.State.{PeerState, WorkerState, initial, zero_health}
use nginx_healthcheck_module.Slots.{Slots}
use nginx_healthcheck_module.Config.{SrvConf, tcp}
use nginx_healthcheck_module.Runtime.{Runtime, Shared}

pub clock-Late :
    (limit t u : ℕ)
    → limit ≤ u64_max
    → t + (limit / 1_000_000_000 + 1) ≤ u
    → Late (λ k. some (record { sec = pos k; nsec = 0 })) limit u
unfolding now_of
clock-Late limit t u fits late = inr (
  add_time (mul_time u 1_000_000_000) 0,
  refl,
  ground (arith, add_time-min (mul_time u 1_000_000_000) 0, mul_time-min u 1_000_000_000),
)

abbrev pub world : ℕ → Env
world pid = record {
  gettime = λ t. some (record { sec = pos t; nsec = 0 });
  trylock = λ t m. true;
  holder = λ t m. pos 0;
  kill = λ t k. alive;
  force_unlock = λ t m k. false;
  quitting = λ t. false;
  alloc = λ t. true;
  random = λ t. 0;
  pid = pid;
  patience = λ limit t. limit / 1_000_000_000 + 1;
  progress = clock-Late;
}

abbrev pub conf : SrvConf
conf = record {
  port = 0;
  fall_count = 3;
  rise_count = 2;
  check_interval = 5000;
  check_timeout = 4500;
  check_type = tcp;
  send = [];
  default_down = false;
  keep_connection = false;
  rehandshake = 0;
  keepalive = false;
  keepalive_idle = 0;
  keepalive_interval = 0;
  keepalive_count = 0;
}

-- Of the process of worker `w`.
abbrev pub runtime : ℕ → Runtime
runtime w = record {
  worker = w;
  cursor = 0;
  instance_id = 7 + w;
  grace = 1000;
  interval = 1000;
  preference = 0;
  budget = 0;
  registered = true;
  timers_started = true;
  stopping = false;
  cleaned = false;
  generation = 1;
  workers = 2;
  module_id = 0;
}

-- A peer of worker 0 that no instance has taken yet.
abbrev pub idle_peer : PeerState
idle_peer = record {
  health = zero_health false;
  started = 0;
  owner = 0;
  worker = 0;
  instance_id = 0;
  term = 0;
  round = 0;
  deadline = 0;
  phase = initial;
}

abbrev pub fresh_slots : PeerState → Slots PeerState
fresh_slots s = record { slot0 = s; slot1 = s; published = 0 }

abbrev pub registration : ℕ → ℕ → WorkerState
registration pid id = record { pid = pid; instance_id = id; heartbeat = 0; exiting = false }

abbrev pub zone : Shared
zone = record {
  activated = true;
  activated_at = 0;
  workers = λ w. record {
    slot0 = registration (42 + w) (7 + w);
    slot1 = registration (42 + w) (7 + w);
    published = 0;
  };
  peers = λ i. fresh_slots idle_peer;
}
