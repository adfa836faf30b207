-- ===== src/Examples/Times.antt =====
-- Time, locks, slots, delays and health.
use nginx_healthcheck_module.Base.{
  ℕ, ◌+◌, ◌<◌, ◌≡◌, ◌↔◌, refl, ◌⊎◌, inr, true, false, none, some, [], ◌∷◌, u64_max, arith,
}
use nginx_healthcheck_module.Env.{peer_mutex, now}
use nginx_healthcheck_module.Lock.{lock, limit_from}
use nginx_healthcheck_module.Lock.Total.{Outcome, lock-Outcome}
use nginx_healthcheck_module.State.{PeerState, zero_health}
use nginx_healthcheck_module.Slots.{Slots, current, spare, set_slot, is_down_word}
use nginx_healthcheck_module.Slots.Crash.{IsPublished, copying, Publishing-reads}
use nginx_healthcheck_module.Delay.{DelayStats, update_delay}
use nginx_healthcheck_module.Delay.Bounds.{
  IsSampled, IsUpdate, update_delay-IsUpdate, update_delay-eq-none_iff,
}
use nginx_healthcheck_module.Delay.Mean.{update_all, stats_of, update_all-stats_of}
use nginx_healthcheck_module.Health.Streak.{IsVerdict, apply_all, apply_all-IsVerdict}
use nginx_healthcheck_module.Examples.World.{world, conf, idle_peer, fresh_slots}

lock-Outcome_example :
    (now (world 42) 3 ≡ none) × (lock (world 42) (peer_mutex 0) 0 3 ≡ (false, 4))
    ⊎ ((n : ℕ) × (now (world 42) 3 ≡ some n)
        × Outcome
            (world 42)
            (peer_mutex 0)
            (limit_from 0 n)
            3
            (lock (world 42) (peer_mutex 0) 0 3).1
            (lock (world 42) (peer_mutex 0) 0 3).0)
lock-Outcome_example = lock-Outcome (world 42) (peer_mutex 0) 0 3 (omega arith)

-- A copy that a dying writer leaves half done in the spare slot.
abbrev slots_before : Slots PeerState
slots_before = fresh_slots idle_peer

abbrev torn_state : PeerState
torn_state = record idle_peer { round = 99 }

before-IsPublished : IsPublished slots_before
unfolding current is_down_word
before-IsPublished = record { word_fits = omega arith; routed = refl }

Publishing-reads_example :
    IsPublished (set_slot slots_before (spare slots_before) torn_state)
    × ((current (set_slot slots_before (spare slots_before) torn_state) ≡ current slots_before)
        ⊎ (current (set_slot slots_before (spare slots_before) torn_state) ≡ idle_peer))
Publishing-reads_example =
    Publishing-reads {p = slots_before} {q = set_slot slots_before (spare slots_before) torn_state}
      {state = idle_peer} before-IsPublished (copying torn_state)

abbrev no_sample : DelayStats
no_sample = record { last = 0; avg = 0; min = 0; max = 0; delay_total = 0; delay_sample_count = 0 }

abbrev one_sample : DelayStats
one_sample = record {
  last = 10;
  avg = 10;
  min = 10;
  max = 10;
  delay_total = 10;
  delay_sample_count = 1;
}

abbrev two_samples : DelayStats
two_samples = record {
  last = 20;
  avg = 15;
  min = 10;
  max = 20;
  delay_total = 30;
  delay_sample_count = 2;
}

one_sample-IsSampled : IsSampled one_sample
one_sample-IsSampled = record {
  counted = omega arith;
  count_fits = omega arith;
  total_fits = omega arith;
  mean = refl;
  above_min = omega arith;
  below_max = omega arith;
}

one-two : update_delay one_sample 20 ≡ some two_samples
unfolding update_delay
one-two = refl

update_delay-IsUpdate_example : IsUpdate one_sample 20 two_samples
update_delay-IsUpdate_example =
    update_delay-IsUpdate one_sample two_samples 20 (inr one_sample-IsSampled) (omega arith) one-two

update_delay-eq-none_iff_example :
    (update_delay one_sample u64_max ≡ none) ↔ (u64_max < one_sample.avg + u64_max)
update_delay-eq-none_iff_example =
    update_delay-eq-none_iff one_sample u64_max one_sample-IsSampled (omega arith)

update_all-stats_of_example :
    update_all no_sample (10 ∷ 20 ∷ 60 ∷ []) ≡ some (stats_of 10 (20 ∷ 60 ∷ []))
update_all-stats_of_example =
    update_all-stats_of no_sample 10 (20 ∷ 60 ∷ []) refl (omega arith) (omega arith)

apply_all-IsVerdict_example :
    IsVerdict conf false ((true, none) ∷ (false, none) ∷ (false, none) ∷ (false, none) ∷ []) (
      apply_all conf
        (zero_health false)
        ((true, none) ∷ (false, none) ∷ (false, none) ∷ (false, none) ∷ []))
apply_all-IsVerdict_example =
    apply_all-IsVerdict conf false
      ((true, none) ∷ (false, none) ∷ (false, none) ∷ (false, none) ∷ []) (omega arith)
