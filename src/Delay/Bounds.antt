-- ===== src/Delay/Bounds.antt =====
-- The delay statistics stay well formed, and an update fails only when the mean has no room.
use native.Mathlib.Nat.{le_trans, le_refl}
use mathlib.Core.WellFounded.{Acc}
use nginx_healthcheck_module.Base.{
  ℕ, ◌+◌, ◌*◌, ◌/◌, ◌≤◌, ◌<◌, ◌≡◌, ◌↔◌, not, ◌&&◌, div-le_self, div-pos, sum_above, sum_below,
  if◌then◌else◌, le-div, div-le, refl, ◌⊎◌, inl, inr, none, some, arith, u64_max, u64, u64-of_le,
  mul_mono, lt_wf, mul-le_of_le-div, div-mul-le, ltb, subst, Bool-cases, Option-cases, ◌==◌,
}
use nginx_healthcheck_module.Delay.{
  DelayStats, shrink, rescaled_count, rescale, make_room, add_sample, update_delay,
}

-- What holds of the statistics of a peer with at least one sample.
pub record IsSampled (s : DelayStats) : Type 0 where
  pub counted : 0 < s.delay_sample_count
  pub count_fits : s.delay_sample_count ≤ u64_max
  pub total_fits : s.delay_total ≤ u64_max
  pub mean : s.avg ≡ s.delay_total / s.delay_sample_count
  pub above_min : s.min * s.delay_sample_count ≤ s.delay_total
  pub below_max : s.delay_total ≤ s.max * s.delay_sample_count

-- Room for one more delay, with the total between the bounds `lo` and `hi` times the count.
abbrev HasRoom : ℕ → ℕ → ℕ → ℕ × ℕ → Type 0
HasRoom lo hi delay (count, total) =
    (0 < count)
    × (count < u64_max)
    × (total + delay ≤ u64_max)
    × (lo * count ≤ total)
    × (total ≤ hi * count)

module _ (lo hi a d : ℕ) (l : lo ≤ a) (u : a ≤ hi) (hd : d ≤ u64_max) where
  shrink-HasRoom :
      (c : ℕ) (w : Acc ◌<◌ c) (t : ℕ) {r : ℕ × ℕ}
      → t ≡ a * c
      → t ≤ u64_max
      → 0 < c
      → c < u64_max
      → shrink a d c w t ≡ some r
      → HasRoom lo hi d r
  unfolding shrink
  shrink-HasRoom c (Acc.intro _ smaller) t {r} eq small pos fits e = grind (
    arith,
    u64-of_le (a * (c / 2)),
    mul_mono a (c / 2) a c,
    mul_mono lo c a c,
    mul_mono a c hi c,
    λ (p : c / 2 < c). shrink-HasRoom (c / 2) (smaller (c / 2) p) (u64 (a * (c / 2))) {r = r},
  )

  -- The loop fails only when one delay at the old average leaves no room.
  shrink_fails :
      (c : ℕ) (w : Acc ◌<◌ c) (t : ℕ)
      → t ≡ a * c
      → t ≤ u64_max
      → 0 < c
      → shrink a d c w t ≡ none
      → u64_max < a + d
  unfolding shrink
  shrink_fails c (Acc.intro _ smaller) t eq small pos e = grind (
    arith,
    u64-of_le (a * (c / 2)),
    mul_mono a (c / 2) a c,
    λ (p : c / 2 < c). shrink_fails (c / 2) (smaller (c / 2) p) (u64 (a * (c / 2))),
  )

rescaled_count_fits :
    (a c : ℕ)
    → c ≤ u64_max
    → a ≤ u64_max
    → (0 < rescaled_count a c) × (rescaled_count a c < u64_max) × (a * rescaled_count a c ≤ u64_max)
unfolding rescaled_count
rescaled_count_fits a c hc ha = elim (Bool-cases (not (a == 0) && ltb (u64_max / a) (c / 2 + 1))) [
  | inl capped ↦
      rw (capped, rescaled_count)
        (ground (arith, div-pos u64_max a, div-le_self u64_max a, div-mul-le u64_max a))
  | inr plain ↦ rw (plain, rescaled_count) (ground (arith, mul-le_of_le-div (c / 2 + 1) a u64_max))
]

abbrev old_avg : DelayStats → ℕ
old_avg s = s.delay_total / s.delay_sample_count

abbrev new_count : DelayStats → ℕ
new_count s = rescaled_count (old_avg s) s.delay_sample_count

-- The statistics after one more delay, with `count` and `total` made room in.
abbrev added : DelayStats → ℕ → ℕ → ℕ → DelayStats
added s d count total = record {
  last = d;
  avg = (total + d) / (count + 1);
  min = if ltb d s.min then d else s.min;
  max = if ltb s.max d then d else s.max;
  delay_total = total + d;
  delay_sample_count = count + 1;
}

module _ (s : DelayStats) (d : ℕ) (v : IsSampled s) (hd : d ≤ u64_max) where
  old_avg_bounds : (s.min ≤ (old_avg s)) × ((old_avg s) ≤ s.max) × ((old_avg s) ≤ u64_max)
  old_avg_bounds = (
    le-div s.min s.delay_sample_count s.delay_total v.counted v.above_min,
    div-le s.max s.delay_sample_count s.delay_total v.counted v.below_max,
    le_trans (div-le_self s.delay_total s.delay_sample_count) v.total_fits,
  )

  rescale-HasRoom : {r : ℕ × ℕ} → rescale s d ≡ some r → HasRoom (old_avg s) s.max d r
  unfolding rescale
  rescale-HasRoom {r} e = ground (
    arith,
    old_avg_bounds,
    rescaled_count_fits (old_avg s) s.delay_sample_count,
    u64-of_le ((old_avg s) * (new_count s)),
    shrink-HasRoom (old_avg s) s.max (old_avg s) d (le_refl (old_avg s)) old_avg_bounds.1 hd
        (new_count s) (lt_wf.apply (new_count s)) (u64 ((old_avg s) * (new_count s))) {r = r},
  )

  make_room-HasRoom : {r : ℕ × ℕ} → make_room s d ≡ some r → HasRoom (old_avg s) s.max d r
  unfolding make_room
  make_room-HasRoom {r} e =
      ground (arith, rescale-HasRoom {r = r}, div-mul-le s.delay_total s.delay_sample_count)

  add_sample-eq-added :
      (c t : ℕ) → HasRoom (old_avg s) s.max d (c, t) → add_sample s d c t ≡ some (added s d c t)
  unfolding add_sample
  add_sample-eq-added c t h = ground (arith, u64-of_le (t + d), u64-of_le (c + 1))

  added_above : (c t : ℕ) → (old_avg s) * c ≤ t → (added s d c t).min * (c + 1) ≤ t + d
  added_above c t h = ground (
    arith,
    old_avg_bounds,
    mul_mono s.min c (old_avg s) c,
    sum_above s.min c t d,
    sum_above d c t d,
    mul_mono d c s.min c,
  )

  added_below : (c t : ℕ) → t ≤ s.max * c → t + d ≤ (added s d c t).max * (c + 1)
  added_below c t h = ground (arith, sum_below s.max c t d, sum_below d c t d, mul_mono s.max c d c)

  added-IsSampled : (c t : ℕ) → HasRoom (old_avg s) s.max d (c, t) → IsSampled (added s d c t)
  added-IsSampled c t h = record {
    counted = omega arith;
    count_fits = omega arith;
    total_fits = omega arith;
    mean = refl;
    above_min = added_above c t h.3;
    below_max = added_below c t h.4;
  }

  make_room_fails : make_room s d ≡ none → u64_max < (old_avg s) + d
  unfolding make_room rescale
  make_room_fails e = ground (
    arith,
    old_avg_bounds,
    rescaled_count_fits (old_avg s) s.delay_sample_count,
    u64-of_le ((old_avg s) * (new_count s)),
    shrink_fails s.min s.max (old_avg s) d old_avg_bounds.0 old_avg_bounds.1 hd (new_count s)
        (lt_wf.apply (new_count s)) (u64 ((old_avg s) * (new_count s))),
  )

  -- Either the mean has no room for the delay, or the delay is added.
  update_cases :
      ((update_delay s d ≡ none) × (u64_max < (old_avg s) + d))
      ⊎ ((c : ℕ) × (t : ℕ) × HasRoom (old_avg s) s.max d (c, t)
          × (update_delay s d ≡ some (added s d c t)))
  unfolding update_delay
  update_cases = elim (Option-cases (make_room s d)) [
    | inl full ↦ inl (ground arith, make_room_fails full)
    | inr ((c, t), room) ↦
        let h : HasRoom (old_avg s) s.max d (c, t) = make_room-HasRoom room in
        inr (c, t, h, ground (arith, add_sample-eq-added c t h))
  ]

-- What an update with the delay `d` makes of the statistics `s`.
abbrev pub IsUpdate : DelayStats → ℕ → DelayStats → Type 0
IsUpdate s d s' =
    IsSampled s'
    × (s'.last ≡ d)
    × (s'.min ≤ s'.avg)
    × (s'.avg ≤ s'.max)
    × (s'.min ≤ d)
    × (d ≤ s'.max)

IsSampled-bounds : (s : DelayStats) → IsSampled s → (s.min ≤ s.avg) × (s.avg ≤ s.max)
IsSampled-bounds s v = ground (
  arith,
  le-div s.min s.delay_sample_count s.delay_total,
  div-le s.max s.delay_sample_count s.delay_total,
)

added-IsUpdate :
    (s : DelayStats) (d : ℕ) (v : IsSampled s) (hd : d ≤ u64_max) (c t : ℕ)
    → HasRoom (old_avg s) s.max d (c, t)
    → IsUpdate s d (added s d c t)
added-IsUpdate s d v hd c t h =
    let w = added-IsSampled s d v hd c t h in
    let b = IsSampled-bounds (added s d c t) w in (w, refl, b.0, b.1, ground arith, ground arith)

first-IsUpdate :
    (s s' : DelayStats) (d : ℕ)
    → s.delay_sample_count ≡ 0
    → d ≤ u64_max
    → update_delay s d ≡ some s'
    → IsUpdate s d s'
unfolding update_delay
first-IsUpdate s s' d none_yet hd e = ground arith

-- The statistics of a peer that may have no sample yet.
abbrev pub IsStats : DelayStats → Type 0
IsStats s = (s.delay_sample_count ≡ 0) ⊎ IsSampled s

-- An update of statistics that have no sample, or sound ones, with a delay of 64 bits: where it
-- succeeds, the new statistics are sound (their total and count fit in 64 bits, their average is the
-- quotient), the delay is the last one, and it and the average lie between the minimum and maximum.
pub update_delay-IsUpdate :
    (s s' : DelayStats) (d : ℕ)
    → IsStats s
    → d ≤ u64_max
    → update_delay s d ≡ some s'
    → IsUpdate s d s'
update_delay-IsUpdate s s' d (inl fresh) hd e = first-IsUpdate s s' d fresh hd e
update_delay-IsUpdate s s' d (inr v) hd e = elim (update_cases s d v hd) [
  | inl (fails, _) ↦ absurd (cc)
  | inr (c, t, h, ok) ↦ subst (IsUpdate s d) (cc) (added-IsUpdate s d v hd c t h)
]

mean_room : (a c t d : ℕ) → 0 < c → a * c ≤ t → t + d ≤ u64_max → a + d ≤ u64_max
mean_room a c t d h k l = grind arith

-- An update of sound statistics with at least one sample, with a delay of 64 bits, fails exactly if
-- the old average and the delay together exceed 2 ^ 64 - 1.
pub update_delay-eq-none_iff :
    (s : DelayStats) (d : ℕ)
    → IsSampled s
    → d ≤ u64_max
    → (update_delay s d ≡ none) ↔ (u64_max < s.avg + d)
update_delay-eq-none_iff s d v hd = elim (update_cases s d v hd) [
  | inl (fails, full) ↦ (λ _. ground arith, λ _. fails)
  | inr (c, t, h, ok) ↦
      (λ e. absurd (cc), λ full. absurd (ground (arith, mean_room (old_avg s) c t d)))
]
