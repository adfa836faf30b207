-- ===== src/Examples/Election.antt =====
-- Worker 1 is the only one that may take over a peer of worker 0.
use nginx_healthcheck_module.Base.{ℕ, ◌<◌, ◌≡◌, refl, true, length}
use nginx_healthcheck_module.Time.{add_time, mul_time}
use nginx_healthcheck_module.Env.{now, now_of}
use nginx_healthcheck_module.Lock.{lock, lock_loop}
use nginx_healthcheck_module.State.{PeerState}
use nginx_healthcheck_module.Slots.{current, read_worker}
use nginx_healthcheck_module.Runtime.{Shared}
use nginx_healthcheck_module.Schedule.Preferred.{preferred, preferred_loop, score}
use nginx_healthcheck_module.Schedule.Preferred.Eligible.{IsEligible, preferred-IsEligible}
use nginx_healthcheck_module.Examples.World.{world, runtime, idle_peer, zone}

abbrev held : PeerState
held = record idle_peer { instance_id = 7 }

abbrev still : ℕ → Shared
still t = zone

elected : preferred (world 43) length (runtime 1) still 0 held 500 1_000_000_000_000 0 ≡ true
unfolding preferred preferred_loop score read_worker lock lock_loop now now_of current add_time
    mul_time
elected = refl

preferred-IsEligible_example :
    IsEligible (world 43) length (runtime 1) still 0 held 500 1_000_000_000_000 0 1 × (1 < 2)
preferred-IsEligible_example =
    preferred-IsEligible (world 43) length (runtime 1) still 0 held 500 1_000_000_000_000 0 elected
