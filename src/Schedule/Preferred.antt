-- ===== src/Schedule/Preferred.antt =====
-- Which worker takes over a peer first: among the live ones, the one with the highest score.
pub mod Eligible
use nginx_healthcheck_module.Base.{
  ℕ, zero, suc, ◌+◌, ◌-◌, ◌/◌, ◌%◌, ◌^◌, Bool, true, false, not, ◌&&◌, ◌||◌, Option, none, some,
  List, [], ◌∷◌, ◌++◌, ltb, leb, ◌==◌, if◌then◌else◌, Bytes,
}
use nginx_healthcheck_module.Env.{Env, now}
use nginx_healthcheck_module.State.{PeerState, WorkerState}
use nginx_healthcheck_module.Slots.{read_worker}
use nginx_healthcheck_module.Runtime.{Runtime, Shared}

-- The low `n` bytes of a number, most significant first.
abbrev pub big_endian : ℕ → ℕ → Bytes
big_endian zero v = []
big_endian (suc n) v = big_endian n (v / 256) ++ v % 256 ∷ []

-- `hash` is ngx_murmur_hash2.
unfoldable pub score : (Bytes → ℕ) → Runtime → ℕ → ℕ → ℕ
score hash r index worker = hash (r.module_id % 256 ∷ big_endian 8 index ++ big_endian 8 worker)

-- The worker `i` is not one to take over at `ms` milliseconds.
abbrev pub is_passed_over : Runtime → PeerState → ℕ → ℕ → WorkerState → Bool
is_passed_over r s ms i w =
    w.instance_id == 0
    || w.exiting
    || i == s.worker && w.instance_id == s.instance_id
    || ltb ms w.heartbeat
    || leb r.grace (ms - w.heartbeat)

-- The best worker yet with its score, if there is one.
abbrev pub better : Option (ℕ × ℕ) → ℕ → ℕ → Option (ℕ × ℕ)
better none i n = some (i, n)
better (some (best, highest)) i n = if ltb highest n then some (i, n) else some (best, highest)

module _ (e : Env) (hash : Bytes → ℕ) (r : Runtime) (zone : ℕ → Shared) (index : ℕ) (s : PeerState)
    (ms limit : ℕ) where
  abbrev pub weighed : Option (ℕ × ℕ) → ℕ → Option WorkerState → Option (ℕ × ℕ)
  weighed best i none = best
  weighed best i (some w) =
      if is_passed_over r s ms i w then best else better best i (score hash r index i)

  -- The loop over `left` workers from number `i` on; `none` is the early return of 0.
  unfoldable pub preferred_loop : ℕ → ℕ → Option (ℕ × ℕ) → ℕ → Option (Option (ℕ × ℕ))
  preferred_loop zero i best t = some best
  preferred_loop (suc left) i best t =
      let read = read_worker e i ((zone (t + 1)).workers i) limit (t + 1) in
      let next = preferred_loop left (suc i) (weighed best i read.0) read.1 in
      elim (now e t) [ none ↦ none | some fresh ↦ if leb limit fresh then none else next ]

  abbrev pub is_best : Option (Option (ℕ × ℕ)) → Bool
  is_best none = false
  is_best (some none) = false
  is_best (some (some (best, highest))) = best == r.worker

  unfoldable pub preferred : ℕ → Bool
  preferred t = is_best (preferred_loop r.workers 0 none t)
