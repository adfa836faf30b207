-- ===== src/Zone/Init.antt =====
-- ngx_healthcheck_init_zone: the shared state of a new generation.
pub mod Routes
use nginx_healthcheck_module.Base.{
  ℕ, suc, zero, ◌+◌, ◌-◌, ◌*◌, ◌/◌, Bool, true, false, not, ◌&&◌, ◌||◌, Option, none, some, List,
  [], length, ltb, if◌then◌else◌, u64_max,
}
use nginx_healthcheck_module.Env.{Env, ℤ, pos, negsuc}
use nginx_healthcheck_module.State.{PeerState, WorkerState}
use nginx_healthcheck_module.Slots.{Slots}
use nginx_healthcheck_module.Identity.{OldZone, Index, index_create, shm_magic, shm_version}
use nginx_healthcheck_module.Identity.Latest.{CycleZone, find_latest_peers_shm}
use nginx_healthcheck_module.Zone.{ConfPeer, ZonePeer, zero_slots, Inherited, init_peers}

-- The sizes of the shared records, which the compiler chooses: `offsetof` the peers, `sizeof` a peer
-- and `sizeof` a worker.
pub record Layout : Type 0 where
  pub peers_offset : ℕ
  pub peer_size : ℕ
  pub worker_size : ℕ

-- The processes that nginx is configured with.
pub record CoreConf : Type 0 where
  pub master : Bool
  pub worker_processes : ℤ

abbrev pub running_workers : ℤ → ℕ
running_workers (pos zero) = 1
running_workers (pos (suc n)) = suc n
running_workers (negsuc n) = 1

-- At least one slot.
abbrev pub workers_of : CoreConf → ℕ
workers_of c = if c.master then running_workers c.worker_processes else 1

abbrev pub zero_worker : Slots WorkerState
zero_worker =
    let state : WorkerState = record { pid = 0; instance_id = 0; heartbeat = 0; exiting = false } in
    record { published = 0; slot0 = state; slot1 = state }

-- What a new zone holds, for `peers_shm`.
pub record NewZone : Type 0 where
  pub magic : ℕ
  pub version : ℕ
  pub generation : ℕ
  pub number : ℕ
  pub worker_count : ℕ
  pub activated : Bool
  pub workers : ℕ → Slots WorkerState
  pub peers : List ZonePeer

-- The sizes that ngx_slab_calloc is asked for fit in a size_t.
unfoldable pub sizes_fit : Layout → ℕ → ℕ → Bool
sizes_fit y count workers =
    not (
      ltb ((u64_max - y.peers_offset) / y.peer_size) count || ltb (u64_max / y.worker_size) workers)

-- The `n` mutexes of the workers, from tick `t` on.
unfoldable pub init_mutexes : (ℕ → Bool) → ℕ → ℕ → Bool
init_mutexes create t zero = true
init_mutexes create t (suc n) = create t && init_mutexes create (t + 1) n

-- The records of an old zone in memory; without one the index is empty, and none of them is read.
abbrev pub inherited_of : (OldZone → ℕ → Slots PeerState) → OldZone → Option OldZone → Inherited
inherited_of memory absent none = record { zone = absent; slots = λ m. zero_slots }
inherited_of memory absent (some z) = record { zone = z; slots = memory z }

abbrev pub new_zone : ℕ → ℕ → List ZonePeer → NewZone
new_zone generation workers peers = record {
  magic = shm_magic;
  version = shm_version;
  generation = generation;
  number = length peers;
  worker_count = workers;
  activated = false;
  workers = λ i. zero_worker;
  peers = peers;
}

abbrev pub no_zone : OldZone
no_zone = record {
  magic = 0;
  version = 0;
  generation = 0;
  number = 0;
  peers = λ m. record { upstream_name = []; sockaddr = []; check_sockaddr = []; check_type = 0 };
}

-- How many allocations an index takes at most.
abbrev pub index_allocs : Option OldZone → ℕ
index_allocs none = 2
index_allocs (some z) = 2 + z.number

-- With the old zone, if there is one: the temporary pool is the allocation `t`, and the index follows.
unfoldable pub init_from :
    Env
    → (ℕ → Bool)
    → (OldZone → ℕ → Slots PeerState)
    → Option OldZone
    → ℕ
    → List ConfPeer
    → ℕ
    → Option (List ZonePeer)
init_from e create memory old workers ps t = elim (index_create e.alloc old (t + 1)) [
  | none ↦ none
  | some index ↦
      let peers =
        init_peers e create (inherited_of memory no_zone old) workers ps index 0
          (t + 1 + index_allocs old) in
      if e.alloc t then peers else none
]

-- `none` is NGX_ERROR. The two calls of ngx_slab_calloc and the first mutex come at the ticks `t`,
-- `t + 1` and `t + 2`, and the mutexes of the workers behind them.
unfoldable pub init_zone :
    Env
    → (ℕ → Bool)
    → (OldZone → ℕ → Slots PeerState)
    → Layout
    → CoreConf
    → ℕ
    → Option (List CycleZone)
    → ℕ
    → List ConfPeer
    → ℕ
    → Option NewZone
init_zone e create memory y core tag zones generation ps t =
    let workers = workers_of core in
    let old = find_latest_peers_shm tag zones in
    if not (sizes_fit y (length ps) workers)
    then none
    else if not (e.alloc t && e.alloc (t + 1))
    then none
    else if not (create (t + 2) && init_mutexes create (t + 3) workers)
    then none
    else elim (init_from e create memory old workers ps (t + 3 + workers)) [
      | none ↦ none
      | some peers ↦ some (new_zone generation workers peers)
    ]
