-- ===== src/Health.antt =====
-- runtime/ngx_healthcheck_schedule.c, ngx_healthcheck_submit: what a result does to the health.
pub mod Streak
use nginx_healthcheck_module.Base.{
  ℕ, ◌+◌, Bool, true, false, Option, none, some, ltb, leb, if◌then◌else◌, u64_max,
}
use nginx_healthcheck_module.State.{Health}
use nginx_healthcheck_module.Delay.{DelayStats, update_delay}
use nginx_healthcheck_module.Config.{SrvConf}

-- A counter goes up, and from its largest value back to the threshold.
abbrev pub count_up : ℕ → ℕ → ℕ
count_up n threshold = if ltb n u64_max then n + 1 else threshold

abbrev pub delay_stats : Health → DelayStats
delay_stats h = record {
  last = h.last_check_delay;
  avg = h.avg_check_delay;
  min = h.min_check_delay;
  max = h.max_check_delay;
  delay_total = h.delay_total;
  delay_sample_count = h.delay_sample_count;
}

abbrev pub set_delay_stats : Health → DelayStats → Health
set_delay_stats h s = record h {
  last_check_delay = s.last;
  avg_check_delay = s.avg;
  min_check_delay = s.min;
  max_check_delay = s.max;
  delay_total = s.delay_total;
  delay_sample_count = s.delay_sample_count;
}

unfoldable pub apply_sample : Health → ℕ → Health
apply_sample h delay = elim (update_delay (delay_stats h) delay) [
  | none ↦ h
  | some s ↦ set_delay_stats h s
]

abbrev pub rise : SrvConf → Health → Health
rise c h =
    let n = count_up h.rise_count c.rise_count in
    record h { fall_count = 0; rise_count = n; down = if leb c.rise_count n then false else h.down }

abbrev pub fall : SrvConf → Health → Health
fall c h =
    let n = count_up h.fall_count c.fall_count in
    record h { rise_count = 0; fall_count = n; down = if leb c.fall_count n then true else h.down }

-- `sample` is the delay to record, if the round has one.
unfoldable pub apply_result : SrvConf → Bool → Option ℕ → Health → Health
apply_result c true none h = rise c h
apply_result c true (some delay) h = apply_sample (rise c h) delay
apply_result c false sample h = fall c h
