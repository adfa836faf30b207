-- ===== src/Runtime.antt =====
-- runtime/ngx_healthcheck_runtime.h and common.h.in: what one process keeps, and the shared zone.
use nginx_healthcheck_module.Base.{ℕ, Bool, true, false, Option, none, ◌==◌, if◌then◌else◌}
use nginx_healthcheck_module.State.{
  PeerState, WorkerState, Phase, initial, waiting, preparing, inflight,
}
use nginx_healthcheck_module.Slots.{Slots}

-- NGX_OK, NGX_AGAIN, NGX_DECLINED, NGX_ERROR and NGX_BUSY.
pub data Rc : Type 0 where
  ok again declined error busy : Rc

abbrev pub phase_code : Phase → ℕ
phase_code initial = 0
phase_code waiting = 1
phase_code preparing = 2
phase_code inflight = 3

abbrev pub is_initial : Phase → Bool
is_initial initial = true
is_initial _ = false

-- A round is under way.
abbrev pub is_running : Phase → Bool
is_running preparing = true
is_running inflight = true
is_running _ = false

-- The connection of a probe, as far as the schedule reads it.
pub record Connection : Type 0 where
  pub requests : ℕ
  pub start_time : ℕ
  pub failed : Bool  -- error
  pub timedout : Bool
  pub idle : Bool

-- ngx_healthcheck_probe_s, less its texts for the log. A timer holds the delay it was set with.
pub record Probe : Type 0 where
  pub connection : Option Connection
  pub timeout : Option ℕ
  pub instance_id : ℕ
  pub term : ℕ
  pub round : ℕ
  pub started : ℕ
  pub deadline : ℕ
  pub generation : ℕ
  pub delay : ℕ
  pub discarded : ℕ
  pub active : Bool
  pub pending : Bool
  pub result : Bool
  pub sample : Bool
  pub attempted : Bool
  pub sent : Bool
  pub sending : Bool
  pub prepared : Bool
  pub waiting_published : Bool

-- What ngx_pcalloc gives.
abbrev pub zero_probe : Probe
zero_probe = record {
  connection = none;
  timeout = none;
  instance_id = 0;
  term = 0;
  round = 0;
  started = 0;
  deadline = 0;
  generation = 0;
  delay = 0;
  discarded = 0;
  active = false;
  pending = false;
  result = false;
  sample = false;
  attempted = false;
  sent = false;
  sending = false;
  prepared = false;
  waiting_published = false;
}

-- ngx_healthcheck_runtime_s, with the generation and worker count of the peers that it belongs to.
pub record Runtime : Type 0 where
  pub worker : ℕ
  pub cursor : ℕ
  pub instance_id : ℕ
  pub grace : ℕ
  pub interval : ℕ
  pub preference : ℕ
  pub budget : ℕ
  pub registered : Bool
  pub timers_started : Bool
  pub stopping : Bool
  pub cleaned : Bool
  pub generation : ℕ
  pub workers : ℕ
  pub module_id : ℕ

-- ngx_upstream_check_peers_shm_t: what the processes of one generation share.
pub record Shared : Type 0 where
  pub activated : Bool
  pub activated_at : ℕ
  pub workers : ℕ → Slots WorkerState
  pub peers : ℕ → Slots PeerState

abbrev pub update : {A : Type 0} → (ℕ → A) → ℕ → A → ℕ → A
update f i a j = if j == i then a else f j

abbrev pub set_worker : Shared → ℕ → Slots WorkerState → Shared
set_worker s i w = record s { workers = update s.workers i w }

abbrev pub set_peer : Shared → ℕ → Slots PeerState → Shared
set_peer s i p = record s { peers = update s.peers i p }
