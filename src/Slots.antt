-- ===== src/Slots.antt =====
-- runtime/ngx_healthcheck_state.c: the two slots of a shared record and the word that publishes one.
pub mod Crash
use nginx_healthcheck_module.Base.{
  ℕ, ◌+◌, ◌/◌, ◌%◌, Bool, true, false, not, Option, none, some, ◌==◌, if◌then◌else◌, bit_xor,
}
use nginx_healthcheck_module.Env.{Env, Mutex, peer_mutex, worker_mutex}
use nginx_healthcheck_module.Lock.{lock, recover_lock}
use nginx_healthcheck_module.State.{PeerState, WorkerState}

-- The published word and the slots of ngx_upstream_check_peer_shm_t and of
-- ngx_healthcheck_worker_shm_t. Bit 0 of the word is a slot's number.
pub record Slots (A : Type 0) : Type 0 where
  pub published : ℕ
  pub slot0 : A
  pub slot1 : A

module _ {A : Type 0} where
  -- `slots[i]`, for a bit `i`.
  abbrev pub slot_at : Slots A → ℕ → A
  slot_at p i = if i == 0 then p.slot0 else p.slot1

  abbrev pub set_slot : Slots A → ℕ → A → Slots A
  set_slot p i a = if i == 0 then record p { slot0 = a } else record p { slot1 = a }

  abbrev pub set_published : Slots A → ℕ → Slots A
  set_published p w = record p { published = w }

  -- `slots[published & 1]`
  unfoldable pub current : Slots A → A
  current p = slot_at p (p.published % 2)

  -- `(published & 1) ^ 1`
  unfoldable pub spare : Slots A → ℕ
  spare p = if p.published % 2 == 0 then 1 else 0

-- `slot | (down ? 2 : 0)`
abbrev pub publish_word : ℕ → Bool → ℕ
publish_word slot down = if down then slot + 2 else slot

unfoldable pub publish : Slots PeerState → PeerState → Slots PeerState
unfolding spare
publish p state =
    let slot = spare p in
    set_published (set_slot p slot state) (publish_word slot state.health.down)

unfoldable pub publish_worker : Slots WorkerState → WorkerState → Slots WorkerState
unfolding spare
publish_worker w state = let slot = spare w in set_published (set_slot w slot state) slot

-- `none` is NGX_AGAIN.
unfoldable pub try_read_peer : Env → ℕ → Slots PeerState → ℕ → Option PeerState × ℕ
try_read_peer e i p t =
    if e.trylock t (peer_mutex i)
    then (some (current p), t + 1)
    else if not (recover_lock e (t + 1) (peer_mutex i))
    then (none, t + 2)
    else if not (e.trylock (t + 2) (peer_mutex i))
    then (none, t + 3)
    else (some (current p), t + 3)

read_locked : {A : Type 0} → Slots A → Bool × ℕ → Option A × ℕ
read_locked p (true, t) = (some (current p), t)
read_locked p (false, t) = (none, t)

unfoldable pub read_peer : Env → ℕ → Slots PeerState → ℕ → ℕ → Option PeerState × ℕ
unfolding read_locked
read_peer e i p limit t = read_locked p (lock e (peer_mutex i) limit t)

unfoldable pub read_worker : Env → ℕ → Slots WorkerState → ℕ → ℕ → Option WorkerState × ℕ
unfolding read_locked
read_worker e i w limit t = read_locked w (lock e (worker_mutex i) limit t)

-- The selection of a server reads bit 1 of the word alone: ngx_http_upstream_check_peer_down.
unfoldable pub is_down_word : ℕ → Bool
is_down_word w = not (w / 2 % 2 == 0)
