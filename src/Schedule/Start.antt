-- ===== src/Schedule/Start.antt =====
-- ngx_healthcheck_start_timers and ngx_healthcheck_runtime_init: a process begins its schedule.
use nginx_healthcheck_module.Base.{
  ℕ, ◌+◌, ◌/◌, ◌%◌, Bool, true, false, not, ◌||◌, none, some, List, [], ◌∷◌, length, map, ◌==◌,
  if◌then◌else◌, max,
}
use nginx_healthcheck_module.Time.{add_time, mul_time, timer_delay}
use nginx_healthcheck_module.Env.{Env, now}
use nginx_healthcheck_module.Config.{SrvConf}
use nginx_healthcheck_module.Lock.{lock_ns}
use nginx_healthcheck_module.Runtime.{Runtime, Shared}
use nginx_healthcheck_module.Schedule.Register.{register}
use nginx_healthcheck_module.Schedule.Stop.{LocalPeer, Process}

-- NGX_HEALTHCHECK_BATCH.
abbrev pub peer_batch : ℕ
peer_batch = 256

-- The peers from number `i` on; those of other workers are passed over.
unfoldable pub start_timers_from : Env → Runtime → ℕ → List LocalPeer → ℕ → List LocalPeer
start_timers_from e r i [] t = []
start_timers_from e r i (l ∷ ls) t =
    let own = i % r.workers == r.worker in
    let delay = timer_delay (e.random t % max l.conf.check_interval 1000) in
    let rest = start_timers_from e r (i + 1) ls (if own then t + 1 else t) in
    (if own then record l { check_timer = some delay } else l) ∷ rest

unfoldable pub start_timers : Env → Process → ℕ → Process
start_timers e x t = if x.runtime.timers_started || not x.runtime.registered then x else record x {
  runtime = record x.runtime { timers_started = true };
  peers = start_timers_from e x.runtime 0 x.peers t;
}

-- What a process knows of its generation: the number of its worker, 0 for a single process, the timer resolution of nginx,
-- and the generation, the workers and the module of its peers.
pub record Settings : Type 0 where
  pub single : Bool
  pub worker : ℕ
  pub timer_resolution : ℕ
  pub generation : ℕ
  pub workers : ℕ
  pub module_id : ℕ

abbrev pub grace_of : Settings → ℕ
grace_of s = max 1000 (mul_time s.timer_resolution 2)

abbrev pub interval_of : Settings → ℕ
interval_of s = max 100 s.timer_resolution

-- How many turns of the watch it takes to visit all peers.
abbrev pub batches : ℕ → ℕ
batches n = n / peer_batch + (if n % peer_batch == 0 then 0 else 1)

unfoldable pub new_runtime : Settings → ℕ → Runtime
new_runtime s n = record {
  worker = if s.single then 0 else s.worker;
  cursor = 0;
  instance_id = 0;
  grace = grace_of s;
  interval = interval_of s;
  preference = max (grace_of s) (mul_time (batches n) (interval_of s));
  budget = 0;
  registered = false;
  timers_started = false;
  stopping = false;
  cleaned = false;
  generation = s.generation;
  workers = s.workers;
  module_id = s.module_id;
}

abbrev pub new_peer : SrvConf → LocalPeer
new_peer c = record { conf = c; probe = none; check_timer = none }

-- The first registration, if the clock can be read; what it answers is not looked at.
unfoldable pub first_register : Env → Runtime → Shared → ℕ → Runtime × Shared × ℕ
first_register e r sh t = elim (now e t) [
  | none ↦ (r, sh, t + 1)
  | some n ↦ let k = register e r sh (add_time n lock_ns) (t + 1) in (k.runtime, k.shared, k.tick)
]

-- NGX_OK without a process, NGX_ERROR, or NGX_OK with a process and the zone.
pub data Inited : Type 0 where
  nothing_to_do failed : Inited
  running : Process → Shared → Inited

unfoldable pub runtime_init : Env → Settings → List SrvConf → Shared → ℕ → Inited
runtime_init e s [] sh t = nothing_to_do
runtime_init e s (c ∷ cs) sh t =
    let r = new_runtime s (length (c ∷ cs)) in
    let (r', sh', u) = first_register e r sh (t + 1) in
    let x : Process = record { runtime = r'; watch = none; peers = map new_peer (c ∷ cs) } in
    if e.alloc t
    then running (record (start_timers e x u) { watch = some (timer_delay r.interval) }) sh'
    else failed
