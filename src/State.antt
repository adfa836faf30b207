-- ===== src/State.antt =====
-- runtime/ngx_healthcheck_state.h: the shared state of a peer and of a worker.
-- An ngx_uint_t that only holds 0 or 1 is a Bool; a pid_t is its 32-bit pattern.
use nginx_healthcheck_module.Base.{ℕ, ◌-◌, ◌^◌, Bool}

-- NGX_INVALID_PID, -1.
abbrev pub invalid_pid : ℕ
invalid_pid = 2 ^ 32 - 1

pub data Phase : Type 0 where
  initial waiting preparing inflight : Phase

pub record Health : Type 0 where
  pub access_time : ℕ
  pub rise_count : ℕ
  pub fall_count : ℕ
  pub down : Bool
  pub last_check_delay : ℕ
  pub avg_check_delay : ℕ
  pub min_check_delay : ℕ
  pub max_check_delay : ℕ
  pub delay_total : ℕ
  pub delay_sample_count : ℕ

pub record PeerState : Type 0 where
  pub health : Health
  pub started : ℕ
  pub owner : ℕ
  pub worker : ℕ
  pub instance_id : ℕ
  pub term : ℕ
  pub round : ℕ
  pub deadline : ℕ
  pub phase : Phase

pub record WorkerState : Type 0 where
  pub pid : ℕ
  pub instance_id : ℕ
  pub heartbeat : ℕ
  pub exiting : Bool

-- What ngx_memzero leaves.
abbrev pub zero_health : Bool → Health
zero_health down = record {
  access_time = 0;
  rise_count = 0;
  fall_count = 0;
  down = down;
  last_check_delay = 0;
  avg_check_delay = 0;
  min_check_delay = 0;
  max_check_delay = 0;
  delay_total = 0;
  delay_sample_count = 0;
}
