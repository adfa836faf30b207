-- ===== src/Delay.antt =====
-- ngx_healthcheck_common.c: the running delay statistics of a peer.
pub mod Bounds
pub mod Mean
use mathlib.Core.Logic.{dite}
use mathlib.Core.WellFounded.{Acc}
use nginx_healthcheck_module.Base.{
  ℕ, ◌+◌, ◌-◌, ◌*◌, ◌/◌, ◌<◌, Bool, true, false, not, ◌&&◌, ◌||◌, Option, none, some, ltb, ◌==◌,
  if◌then◌else◌, arith, u64_max, u64, dec_lt, lt_wf,
}

pub record DelayStats : Type 0 where
  pub last : ℕ
  pub avg : ℕ
  pub min : ℕ
  pub max : ℕ
  pub delay_total : ℕ
  pub delay_sample_count : ℕ

-- The while loop: halve the count, at the old average, until the new delay fits in the total.
shrink : (old_avg delay count : ℕ) → Acc ◌<◌ count → ℕ → Option (ℕ × ℕ)
shrink old_avg delay count (Acc.intro _ smaller) total = elim (ltb (u64_max - delay) total) [
  | false ↦ some (count, total)
  | true ↦
      dite (dec_lt 0 (count / 2))
        (λ h.
          shrink old_avg delay (count / 2) (smaller (count / 2) (omega arith))
            (u64 (old_avg * (count / 2))))
        (λ _. none)
]

-- The sample count after the overflow branch has halved it, capped so that the total fits.
rescaled_count : ℕ → ℕ → ℕ
rescaled_count old_avg count =
    let halved = count / 2 + 1 in
    if not (old_avg == 0) && ltb (u64_max / old_avg) halved then u64_max / old_avg else halved

-- The body of the overflow branch: a new count and total, with room for one more delay.
rescale : DelayStats → ℕ → Option (ℕ × ℕ)
unfolding shrink rescaled_count lt_wf dec_lt
rescale s delay =
    let old_avg = s.delay_total / s.delay_sample_count in
    let count = rescaled_count old_avg s.delay_sample_count in
    let shrunk = shrink old_avg delay count (lt_wf.apply count) (u64 (old_avg * count)) in
    if count == 0 then none else shrunk

make_room : DelayStats → ℕ → Option (ℕ × ℕ)
unfolding rescale
make_room s delay =
    if ltb (u64_max - delay) s.delay_total || s.delay_sample_count == u64_max
    then rescale s delay
    else some (s.delay_sample_count, s.delay_total)

add_sample : DelayStats → ℕ → ℕ → ℕ → Option DelayStats
add_sample s delay count total =
    let total' = u64 (total + delay) in
    let count' = u64 (count + 1) in
    if count' == 0
    then none
    else some (record {
      last = delay;
      avg = total' / count';
      min = if ltb delay s.min then delay else s.min;
      max = if ltb s.max delay then delay else s.max;
      delay_total = total';
      delay_sample_count = count';
    })

-- `none` is NGX_ERROR, after which the caller drops the statistics that it passed.
unfoldable pub update_delay : DelayStats → ℕ → Option DelayStats
unfolding make_room add_sample
update_delay s delay =
    if s.delay_sample_count == 0
    then some (record {
      last = delay;
      avg = delay;
      min = delay;
      max = delay;
      delay_total = delay;
      delay_sample_count = 1;
    })
    else elim (make_room s delay) [
      | none ↦ none
      | some (count, total) ↦ add_sample s delay count total
    ]
