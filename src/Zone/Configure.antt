-- ===== src/Zone/Configure.antt =====
-- ngx_healthcheck_configure_zone: the zone of a new configuration gets the next generation.
pub mod Generations
use nginx_healthcheck_module.Base.{
  ℕ, ◌+◌, ◌*◌, Bool, true, not, Option, none, some, List, ◌++◌, ◌==◌, if◌then◌else◌, max, u64_max,
  Bytes, codes,
}
use nginx_healthcheck_module.Identity.{OldZone}
use nginx_healthcheck_module.Identity.Latest.{CycleZone, find_latest_peers_shm}

-- NGX_HEALTHCHECK_HTTP and NGX_HEALTHCHECK_STREAM.
pub data Module : Type 0 where
  http stream : Module

-- What nginx answers: whether the name is allocated, whether ngx_shared_memory_add gives a zone, and
-- what `%ui` prints.
pub record ZoneLib : Type 0 where
  pub alloc_name : Bool
  pub shared_memory_add : Bytes → ℕ → Bool
  pub print_ui : ℕ → Bytes

-- A zone that is to be made, and the fields of the peers that are set with it.
pub record ConfZone : Type 0 where
  pub module_id : Module
  pub generation : ℕ
  pub check_shm_name : Bytes
  pub size : ℕ
  pub tag : ℕ
  pub noreuse : Bool

abbrev pub zone_prefix : Module → Bytes
zone_prefix http = codes "ngx_http_upstream_check#"
zone_prefix stream = codes "ngx_stream_upstream_check#"

-- The generation behind the latest one; `none` if there is none left.
unfoldable pub next_generation : Option OldZone → Option ℕ
next_generation none = some 1
next_generation (some z) = if z.generation == u64_max then none else some (z.generation + 1)

-- The buffer of 96 bytes holds every name.
unfoldable pub named_zone : ZoneLib → ℕ → Module → ℕ → ℕ → Option ConfZone
named_zone l check_shm_size m tag generation =
    let name = zone_prefix m ++ l.print_ui generation in
    let size = max check_shm_size (1024 * 1024) in
    if not l.alloc_name
    then none
    else if not (l.shared_memory_add name size)
    then none
    else some (record {
      module_id = m;
      generation = generation;
      check_shm_name = name;
      size = size;
      tag = tag;
      noreuse = true;
    })

-- `none` is NGX_CONF_ERROR. `zones` are those of the old cycle, if there is one.
unfoldable pub configure_zone : ZoneLib → ℕ → Option (List CycleZone) → ℕ → Module → Option ConfZone
configure_zone l check_shm_size zones tag m =
    elim (next_generation (find_latest_peers_shm tag zones)) [
      | none ↦ none
      | some generation ↦ named_zone l check_shm_size m tag generation
    ]
