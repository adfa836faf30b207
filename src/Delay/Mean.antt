-- ===== src/Delay/Mean.antt =====
-- While the sum of the delays fits in 64 bits the statistics are the exact ones of the samples.
use native.Mathlib.Nat.{add-zero}
use nginx_healthcheck_module.Base.{
  ℕ, suc, ◌+◌, ◌/◌, ◌≤◌, ◌<◌, ◌≡◌, List, [], ◌∷◌, Option, none, some, min, max, arith, u64_max,
  length, u64-of_le,
}
use nginx_healthcheck_module.Delay.{DelayStats, update_delay}

-- Feed the samples in the order in which they were taken.
abbrev pub update_all : DelayStats → List ℕ → Option DelayStats
update_all s [] = some s
update_all s (d ∷ ds) = elim (update_delay s d) [ none ↦ none | some s' ↦ update_all s' ds ]

abbrev pub sum : ℕ → List ℕ → ℕ
sum acc [] = acc
sum acc (d ∷ ds) = sum (acc + d) ds

abbrev pub least : ℕ → List ℕ → ℕ
least m [] = m
least m (d ∷ ds) = least (min m d) ds

abbrev pub greatest : ℕ → List ℕ → ℕ
greatest m [] = m
greatest m (d ∷ ds) = greatest (max m d) ds

abbrev pub latest : ℕ → List ℕ → ℕ
latest l [] = l
latest l (d ∷ ds) = latest d ds

-- The textbook statistics of a non-empty sample.
abbrev pub stats_of : ℕ → List ℕ → DelayStats
stats_of d ds = record {
  last = latest d ds;
  avg = sum d ds / (length ds + 1);
  min = least d ds;
  max = greatest d ds;
  delay_total = sum d ds;
  delay_sample_count = length ds + 1;
}

-- The statistics with a given last sample, bounds, total and count.
abbrev exact : ℕ → ℕ → ℕ → ℕ → ℕ → DelayStats
exact l lo hi total count = record {
  last = l;
  avg = total / count;
  min = lo;
  max = hi;
  delay_total = total;
  delay_sample_count = count;
}

update-exact :
    (l lo hi total count d : ℕ)
    → 0 < count
    → count < u64_max
    → total + d ≤ u64_max
    → update_delay (exact l lo hi total count) d
      ≡ some (exact d (min lo d) (max hi d) (total + d) (count + 1))
unfolding update_delay
update-exact l lo hi total count d pos few fits =
    ground (arith, u64-of_le (total + d), u64-of_le (count + 1))

le-sum : (acc : ℕ) (ds : List ℕ) → acc ≤ sum acc ds
le-sum acc [] = omega arith
le-sum acc (d ∷ ds) = omega (arith, le-sum (acc + d) ds)

update_all-exact :
    (ds : List ℕ) (l lo hi total count : ℕ)
    → 0 < count
    → count + length ds ≤ u64_max
    → sum total ds ≤ u64_max
    → update_all (exact l lo hi total count) ds
      ≡ some (exact (latest l ds) (least lo ds) (greatest hi ds) (sum total ds) (count + length ds))
update_all-exact [] l lo hi total count pos few fits = rw add-zero
update_all-exact (d ∷ ds) l lo hi total count pos few fits =
    let ih =
      update_all-exact ds d (min lo d) (max hi d) (total + d) (count + 1) (omega arith)
        (omega arith) fits in
    let e : count + suc (length ds) ≡ count + 1 + length ds = omega arith in
    rw
      (
        e,
        update-exact l lo hi total count d pos (omega arith) (omega (arith, le-sum (total + d) ds)),
        update_all,
      )
      ih

update-first :
    (s : DelayStats) (d : ℕ) → s.delay_sample_count ≡ 0 → update_delay s d ≡ some (exact d d d d 1)
unfolding update_delay
update-first s d fresh = ground arith

-- For fewer than 2 ^ 64 - 1 further delays whose sum with the first fits in 64 bits, updating from
-- statistics without a sample succeeds throughout and gives the exact last, mean, least and greatest
-- delay, sum and number.
pub update_all-stats_of :
    (s : DelayStats) (d : ℕ) (ds : List ℕ)
    → s.delay_sample_count ≡ 0
    → length ds < u64_max
    → sum d ds ≤ u64_max
    → update_all s (d ∷ ds) ≡ some (stats_of d ds)
update_all-stats_of s d ds fresh few fits =
    let e : length ds + 1 ≡ 1 + length ds = omega arith in
    rw (update-first s d fresh, update_all, e)
      (update_all-exact ds d d d d 1 (omega arith) (omega arith) fits)
