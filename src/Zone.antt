-- ===== src/Zone.antt =====
-- runtime/ngx_healthcheck_zone.c: a new zone starts from the states of the old one.
pub mod Inherits
pub mod Configure
pub mod Init
use nginx_healthcheck_module.Base.{
  ℕ, suc, ◌+◌, ◌%◌, Bool, true, false, not, Option, none, some, List, [], ◌∷◌, ◌==◌, if◌then◌else◌,
}
use nginx_healthcheck_module.Env.{Env}
use nginx_healthcheck_module.Config.{SrvConf, is_tcp}
use nginx_healthcheck_module.State.{Health, PeerState, initial, zero_health, invalid_pid}
use nginx_healthcheck_module.Slots.{Slots, publish, read_peer}
use nginx_healthcheck_module.Identity.{
  OldPeer, NewPeer, OldZone, Index, index_take, copy_shm_identity,
}

-- A peer of the new configuration.
pub record ConfPeer : Type 0 where
  pub identity : NewPeer
  pub conf : SrvConf

-- What the new zone has of a peer.
pub record ZonePeer : Type 0 where
  pub identity : OldPeer
  pub slots : Slots PeerState

-- What ngx_memzero leaves, with the status of the configuration.
abbrev pub zero_state : Bool → PeerState
zero_state down = record {
  health = zero_health down;
  started = 0;
  owner = 0;
  worker = 0;
  instance_id = 0;
  term = 0;
  round = 0;
  deadline = 0;
  phase = initial;
}

abbrev pub without_delays : Health → Health
without_delays h = record h {
  last_check_delay = 0;
  avg_check_delay = 0;
  min_check_delay = 0;
  max_check_delay = 0;
  delay_total = 0;
  delay_sample_count = 0;
}

abbrev pub or_default : SrvConf → Option PeerState → PeerState
or_default c none = zero_state c.default_down
or_default c (some previous) = previous

-- The state of the peer number `i`, where `previous` is what was read of its old record, if anything.
unfoldable pub zone_state : SrvConf → ℕ → ℕ → Option PeerState → PeerState
zone_state c workers i previous =
    let s = or_default c previous in
    record s {
      health = if is_tcp c.check_type then s.health else without_delays s.health;
      owner = invalid_pid;
      worker = i % workers;
      instance_id = 0;
      term = 0;
      round = 0;
      deadline = 0;
      phase = initial;
    }

-- The slots of a record of the new slab, which is all zero.
abbrev pub zero_slots : Slots PeerState
zero_slots = record { published = 0; slot0 = zero_state false; slot1 = zero_state false }

-- The old zone: its records, and their slots.
pub record Inherited : Type 0 where
  pub zone : OldZone
  pub slots : ℕ → Slots PeerState

-- The old record that the index gives is read under its lock.
unfoldable pub read_previous : Env → Inherited → Option ℕ → ℕ → Option PeerState × ℕ
read_previous e old none t = (none, t)
read_previous e old (some m) t = read_peer e m (old.slots m) 0 t

-- The loop over the peers from number `i` on; `none` is a failed initialization. `create` tells whether
-- ngx_shmtx_create succeeds at a tick.
unfoldable pub init_peers :
    Env → (ℕ → Bool) → Inherited → ℕ → List ConfPeer → Index → ℕ → ℕ → Option (List ZonePeer)
init_peers e create old workers [] x i t = some []
init_peers e create old workers (p ∷ ps) x i t = elim (copy_shm_identity e.alloc p.identity t) [
  | none ↦ none
  | some copied ↦
      let taken = index_take old.zone x p.identity in
      let previous = read_previous e old taken.0 (t + 4) in
      let target = publish zero_slots (zone_state p.conf workers i previous.0) in
      let rest = init_peers e create old workers ps taken.1 (suc i) previous.1 in
      if not (create (t + 3)) then none else elim rest [
        | none ↦ none
        | some targets ↦ some (record { identity = copied; slots = target } ∷ targets)
      ]
]
