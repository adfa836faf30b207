-- ===== src/Lock.antt =====
-- runtime/ngx_healthcheck_state.c: taking a shared mutex within a time limit.
pub mod Total
pub mod Ticks
use nginx_healthcheck_module.Base.{
  ℕ, zero, suc, ◌+◌, Bool, true, false, ◌&&◌, Option, none, some, ltb, leb, ◌==◌, if◌then◌else◌,
}
use nginx_healthcheck_module.Time.{add_time}
use nginx_healthcheck_module.Env.{Env, Mutex, ℤ, pos, negsuc, KillResult, alive, denied, gone, now}

abbrev pub lock_ns : ℕ
lock_ns = 1_000_000

is_gone : KillResult → Bool
is_gone gone = true
is_gone _ = false

recover_holder : Env → ℕ → Mutex → ℤ → Bool
unfolding is_gone
recover_holder e t m (negsuc _) = false
recover_holder e t m (pos pid) =
    if ltb 0 pid && is_gone (e.kill t pid) then e.force_unlock t m pid else false

-- The lock is taken from its holder only when that process is known to be gone.
unfoldable pub recover_lock : Env → ℕ → Mutex → Bool
unfolding recover_holder
recover_lock e t m = recover_holder e t m (e.holder t m)

-- The loop, from a clock reading `n`: the answer, and the tick after the last external call.
-- Tick `t + 1` is the call of `recover_lock`, whose answer the loop drops: what it does to the mutex
-- shows in the next `trylock`. `none` is fuel that ran out.
unfoldable pub lock_loop : Env → ℕ → Mutex → ℕ → ℕ → ℕ → Option (Bool × ℕ)
lock_loop e zero m limit n t = none
lock_loop e (suc fuel) m limit n t =
    let retry : Option (Bool × ℕ) = elim (now e (t + 2)) [
      | none ↦ some (false, t + 3)
      | some n' ↦ lock_loop e fuel m limit n' (t + 3)
    ] in
    if leb limit n then some (false, t) else if e.trylock t m then some (true, t + 1) else retry

abbrev pub out_of_fuel : ℕ → Option (Bool × ℕ) → Bool × ℕ
out_of_fuel t none = (false, t)
out_of_fuel t (some r) = r

-- The limit in force: an absolute time, or one millisecond from the reading `n`.
abbrev pub limit_from : ℕ → ℕ → ℕ
limit_from limit n = if limit == 0 then add_time n lock_ns else limit

-- `true` is NGX_OK and `false` is NGX_AGAIN.
unfoldable pub lock : Env → Mutex → ℕ → ℕ → Bool × ℕ
lock e m limit t = elim (now e t) [
  | none ↦ (false, t + 1)
  | some n ↦
      let l = limit_from limit n in
      out_of_fuel (t + 1) (lock_loop e (suc (e.patience l t)) m l n (t + 1))
]
