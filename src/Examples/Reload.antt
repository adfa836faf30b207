-- ===== src/Examples/Reload.antt =====
-- A reload of a peer that is known and one that is not.
use nginx_healthcheck_module.Base.{
  ℕ, ◌+◌, ◌*◌, ◌≤◌, ◌≡◌, refl, sym, subst, ◌⊎◌, inl, inr, Bool, true, some, none, List, [], ◌∷◌,
  u64_max, codes, arith,
}
use nginx_healthcheck_module.Time.{add_time, mul_time}
use nginx_healthcheck_module.Env.{pos, now, now_of}
use nginx_healthcheck_module.Lock.{lock, lock_loop}
use nginx_healthcheck_module.State.{PeerState, zero_health}
use nginx_healthcheck_module.Slots.{Slots, current, publish, read_peer}
use nginx_healthcheck_module.Identity.{
  OldPeer, NewPeer, OldZone, take_all, index_create, fill, Index, push, empty_index, unlink,
  index_take, identity_equal, copy_shm_identity, shm_magic, shm_version, shm_identity_hash,
  peer_identity_hash, hash_bytes,
}
use nginx_healthcheck_module.Zone.{
  ConfPeer, ZonePeer, zero_slots, zone_state, Inherited, read_previous, init_peers,
}
use nginx_healthcheck_module.Zone.Inherits.{IsZone, identities, init_peers-IsZone}
use nginx_healthcheck_module.Identity.Latest.{
  CycleZone, IsCandidate, here, there, find_latest_peers_shm, find_from,
}
use nginx_healthcheck_module.Zone.Configure.{
  http, ZoneLib, ConfZone, next_generation, named_zone, configure_zone,
}
use nginx_healthcheck_module.Zone.Configure.Generations.{configure_zone-found}
use nginx_healthcheck_module.Zone.Init.{
  Layout, CoreConf, new_zone, sizes_fit, init_mutexes, init_from, init_zone,
}
use nginx_healthcheck_module.Zone.Init.Routes.{Reloaded, init_zone-Routes}
use nginx_healthcheck_module.Config.Peers.{inet, Addr, AddrLib, add_peer}
use nginx_healthcheck_module.Config.Peers.Numbered.{done, Added, add_peer-Added}
use nginx_healthcheck_module.Examples.World.{world, conf, idle_peer, fresh_slots}

abbrev new_peer : NewPeer
new_peer = record {
  upstream_name = codes "a";
  peer_addr = codes "10.0.0.1:80";
  check_peer_addr = codes "10.0.0.1:80";
  check_type = 1;
}

abbrev other_peer : NewPeer
other_peer = record new_peer { upstream_name = codes "b" }

abbrev old_peer : OldPeer
old_peer = record {
  upstream_name = codes "a";
  sockaddr = codes "10.0.0.1:80";
  check_sockaddr = codes "10.0.0.1:80";
  check_type = 1;
}

abbrev down_state : PeerState
down_state = record idle_peer { health = zero_health true; round = 9; started = 77 }

abbrev before : Inherited
before = record {
  zone = record {
    magic = shm_magic;
    version = shm_version;
    generation = 1;
    number = 1;
    peers = λ m. old_peer;
  };
  slots = λ m. fresh_slots down_state;
}

abbrev peers : List ConfPeer
peers =
    record { identity = other_peer; conf = conf } ∷ record { identity = new_peer; conf = conf } ∷ []

abbrev always : ℕ → Bool
always t = true

-- The second peer inherits.
abbrev after : List ZonePeer
after =
    record {
      identity = record old_peer { upstream_name = codes "b" };
      slots = publish zero_slots (zone_state conf 2 0 none);
    }
    ∷ record {
      identity = old_peer;
      slots = publish zero_slots (zone_state conf 2 1 (some down_state));
    }
    ∷ []

abbrev index : Index
index = push before.zone (empty_index 3) 0

initialized : init_peers (world 42) always before 2 peers index 0 0 ≡ some after
unfolding init_peers copy_shm_identity read_previous read_peer index_take unlink identity_equal
    peer_identity_hash shm_identity_hash hash_bytes lock lock_loop now now_of current add_time
    mul_time
initialized = refl

init_peers-IsZone_example :
    IsZone (world 42) before 2 0 peers (take_all before.zone index (identities peers)) after
init_peers-IsZone_example =
    init_peers-IsZone (world 42) always before 2 peers index 0 0 after initialized

-- nginx prints a generation below 10 as one digit.
abbrev zone_lib : ZoneLib
zone_lib = record {
  alloc_name = true;
  shared_memory_add = λ name size. true;
  print_ui = λ n. (48 + n) ∷ [];
}

abbrev old_zones : List CycleZone
old_zones = record { tag = 5; peers_shm = some before.zone } ∷ []

abbrev conf_zone : ConfZone
conf_zone = record {
  module_id = http;
  generation = 2;
  check_shm_name = codes "ngx_http_upstream_check#2";
  size = 1024 * 1024;
  tag = 5;
  noreuse = true;
}

abbrev next_zone : OldZone
next_zone = record before.zone { generation = 2 }

-- The new zone in front of the old one.
abbrev later_zones : List CycleZone
later_zones = record { tag = 5; peers_shm = some next_zone } ∷ old_zones

zoned : configure_zone zone_lib 0 (some old_zones) 5 http ≡ some conf_zone
unfolding configure_zone find_latest_peers_shm find_from next_generation named_zone
zoned = refl

only_old : (w : OldZone) → IsCandidate 5 w old_zones → before.zone ≡ w
only_old w (here same) = cc
only_old w (there c) = elim c [ ]

old_fits : (w : OldZone) → IsCandidate 5 w old_zones → w.generation ≤ u64_max
old_fits w c = subst (λ (z : OldZone). z.generation ≤ u64_max) (only_old w c) (omega arith)

later_origin :
    (w : OldZone) → IsCandidate 5 w later_zones → (w ≡ next_zone) ⊎ IsCandidate 5 w old_zones
later_origin w (here same) = inl (let it : next_zone ≡ w = cc in sym it)
later_origin w (there c) = inr c

configure_zone-found_example :
    (conf_zone.generation ≤ u64_max) × (find_latest_peers_shm 5 (some later_zones) ≡ some next_zone)
configure_zone-found_example =
    configure_zone-found zone_lib 0 old_zones later_zones 5 http conf_zone next_zone old_fits zoned
      refl (here refl) later_origin

abbrev layout : Layout
layout = record { peers_offset = 128; peer_size = 512; worker_size = 256 }

-- Two workers.
abbrev core : CoreConf
core = record { master = true; worker_processes = pos 2 }

abbrev memory : OldZone → ℕ → Slots PeerState
memory z m = fresh_slots down_state

reloaded :
    init_zone (world 42) always memory layout core 5 (some old_zones) 2 peers 0
    ≡ some (new_zone 2 2 after)
unfolding init_zone sizes_fit init_mutexes init_from find_latest_peers_shm find_from index_create
    fill init_peers copy_shm_identity read_previous read_peer index_take unlink identity_equal
    peer_identity_hash shm_identity_hash hash_bytes lock lock_loop now now_of current add_time
    mul_time
reloaded = refl

-- The second peer is down as before.
init_zone-Routes_example :
    Reloaded
      (world 42)
      always
      memory
      peers
      (find_latest_peers_shm 5 (some old_zones))
      1
      (record { identity = new_peer; conf = conf })
      (new_zone 2 2 after)
init_zone-Routes_example =
    init_zone-Routes (world 42) always memory peers layout core 5 (some old_zones) 2 0
      (new_zone 2 2 after) 1 (record { identity = new_peer; conf = conf }) reloaded refl

abbrev address : Addr
address = record { family = inet; sockaddr = codes "10.0.0.1:80"; name = codes "10.0.0.1:80" }

-- A library that keeps addresses as they are.
abbrev addr_lib : AddrLib
addr_lib = record { set_port = λ s port. s; sock_ntop = λ s. s }

add_peer-Added_example :
    Added addr_lib always []
      (some conf)
      (codes "a")
      address
      0
      (add_peer addr_lib always [] (some conf) (codes "a") address 0)
add_peer-Added_example = add_peer-Added addr_lib always [] (some conf) (codes "a") address 0 done
