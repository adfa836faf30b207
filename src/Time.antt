-- ===== src/Time.antt =====
-- runtime/ngx_healthcheck_state.c: saturating arithmetic on times.
use nginx_healthcheck_module.Base.{
  ℕ, ◌+◌, ◌-◌, ◌*◌, ◌/◌, ◌≤◌, ◌≡◌, ◌&&◌, not, min, ltb, ◌==◌, if◌then◌else◌, arith, u64_max,
  mul-le_of_le-div, lt-mul_of_div-lt,
}

unfoldable pub add_time : ℕ → ℕ → ℕ
add_time a b = if ltb (u64_max - b) a then u64_max else a + b

unfoldable pub mul_time : ℕ → ℕ → ℕ
mul_time a b = if not (b == 0) && ltb (u64_max / b) a then u64_max else a * b

-- runtime/ngx_healthcheck_schedule.c, ngx_healthcheck_timer: the delay that a native timer is set to.
unfoldable pub timer_delay : ℕ → ℕ
timer_delay delay = min delay (u64_max / 2)

pub add_time-min : (a b : ℕ) → b ≤ u64_max → add_time a b ≡ min (a + b) u64_max
unfolding add_time
add_time-min a b h = ground arith

-- A product of times is the exact one, capped at 2 ^ 64 - 1.
pub mul_time-min : (a b : ℕ) → mul_time a b ≡ min (a * b) u64_max
unfolding mul_time
mul_time-min a b = ground (arith, mul-le_of_le-div a b u64_max, lt-mul_of_div-lt a b u64_max)

pub add_time_le : (a b : ℕ) → b ≤ u64_max → add_time a b ≤ u64_max
unfolding add_time
add_time_le a b h = ground arith
