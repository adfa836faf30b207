-- ===== src/Health/Streak.antt =====
-- The health is a verdict on the history of results: a peer goes up after `rise` successes in a row,
-- down after `fall` failures in a row, and else stays as it was.
use nginx_healthcheck_module.Base.{
  ℕ, suc, ◌≤◌, ◌<◌, ◌≡◌, Bool, true, false, Option, none, some, List, [], ◌∷◌, leb, if◌then◌else◌,
  u64_max, length, arith,
}
use nginx_healthcheck_module.State.{Health, zero_health}
use nginx_healthcheck_module.Config.{SrvConf}
use nginx_healthcheck_module.Health.{apply_result, apply_sample, rise}

-- The results of the rounds of a peer, newest first, each with its delay if it has a sample.
abbrev pub History : Type 0
History = List (Bool × Option ℕ)

-- How many of the newest results are `b`.
abbrev pub streak : Bool → History → ℕ
streak b [] = 0
streak true ((true, _) ∷ hs) = suc (streak true hs)
streak true ((false, _) ∷ hs) = 0
streak false ((false, _) ∷ hs) = suc (streak false hs)
streak false ((true, _) ∷ hs) = 0

-- Down or not after a history, from `default_down`.
abbrev pub verdict : SrvConf → Bool → History → Bool
verdict c d [] = d
verdict c d ((true, m) ∷ hs) =
    if leb c.rise_count (streak true ((true, m) ∷ hs)) then false else verdict c d hs
verdict c d ((false, m) ∷ hs) =
    if leb c.fall_count (streak false ((false, m) ∷ hs)) then true else verdict c d hs

-- The code's health after a history.
pub apply_all : SrvConf → Health → History → Health
apply_all c h [] = h
apply_all c h ((r, m) ∷ hs) = apply_result c r m (apply_all c h hs)

apply_sample_keeps :
    (h : Health) (d : ℕ)
    → ((apply_sample h d).rise_count ≡ h.rise_count)
      × ((apply_sample h d).fall_count ≡ h.fall_count)
      × ((apply_sample h d).down ≡ h.down)
unfolding apply_sample
apply_sample_keeps h d = ground arith

-- The counters and the down bit of a health, as the history tells them.
pub record IsVerdict (c : SrvConf) (d : Bool) (hs : History) (h : Health) : Type 0 where
  pub risen : h.rise_count ≡ streak true hs
  pub fallen : h.fall_count ≡ streak false hs
  pub judged : h.down ≡ verdict c d hs

streak-le : (b : Bool) (hs : History) → streak b hs ≤ length hs
streak-le b [] = omega arith
streak-le true ((true, _) ∷ hs) = omega (arith, streak-le true hs)
streak-le true ((false, _) ∷ hs) = omega arith
streak-le false ((false, _) ∷ hs) = omega (arith, streak-le false hs)
streak-le false ((true, _) ∷ hs) = omega arith

pub apply_result-IsVerdict :
    (c : SrvConf) (d : Bool) (hs : History) (h : Health) (r : Bool) (m : Option ℕ)
    → length hs < u64_max
    → IsVerdict c d hs h
    → IsVerdict c d ((r, m) ∷ hs) (apply_result c r m h)
unfolding apply_result
apply_result-IsVerdict c d hs h true none few v = ground (arith, streak-le true hs)
apply_result-IsVerdict c d hs h true (some x) few v =
    ground (arith, streak-le true hs, apply_sample_keeps (rise c h) x)
apply_result-IsVerdict c d hs h false m few v = ground (arith, streak-le false hs)

-- After at most 2 ^ 64 - 1 results from a zeroed health with the initial status `d`, the counters are
-- the numbers of the newest successes and failures in a row, and the down bit is the verdict: that of
-- the last result that completed `rise` successes or `fall` failures, or `d`.
pub apply_all-IsVerdict :
    (c : SrvConf) (d : Bool) (hs : History)
    → length hs ≤ u64_max
    → IsVerdict c d hs (apply_all c (zero_health d) hs)
unfolding apply_all
apply_all-IsVerdict c d [] few = ground arith
apply_all-IsVerdict c d ((r, m) ∷ hs) few =
    apply_result-IsVerdict c d hs _ r m (omega arith) (apply_all-IsVerdict c d hs (omega arith))
