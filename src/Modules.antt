-- ===== src/Modules.antt =====
-- ngx_http_upstream_check_module.c and ngx_stream_upstream_check_module.c: what the two modules answer
-- to nginx, and the hooks of its processes. The stream module has the same code.
use nginx_healthcheck_module.Base.{
  ℕ, Bool, true, false, not, Option, none, some, List, [], get_elem?, ◌==◌, if◌then◌else◌, Bytes,
}
use nginx_healthcheck_module.Env.{Env}
use nginx_healthcheck_module.Config.{SrvConf}
use nginx_healthcheck_module.Config.Peers.{Addr, CheckPeer, AddrLib, add_peer}
use nginx_healthcheck_module.State.{PeerState}
use nginx_healthcheck_module.Slots.{Slots, is_down_word}
use nginx_healthcheck_module.Runtime.{Shared}
use nginx_healthcheck_module.Protocol.Cleanup.{Events}
use nginx_healthcheck_module.Schedule.Start.{
  Settings, Inited, nothing_to_do, failed, running, runtime_init,
}
use nginx_healthcheck_module.Schedule.Stop.{Process, runtime_stop}

-- An upstream: `none` is one without srv_conf, whose check configuration may be missing too.
abbrev pub Upstream : Type 0
Upstream = Option (Option SrvConf)

abbrev pub conf_of : Upstream → Option SrvConf
conf_of none = none
conf_of (some conf) = conf

abbrev pub conf_enabled : Option SrvConf → Bool
conf_enabled none = false
conf_enabled (some c) = not (c.check_interval == 0)

unfoldable pub enabled : Upstream → Bool
enabled u = conf_enabled (conf_of u)

unfoldable pub module_add_peer :
    AddrLib → (ℕ → Bool) → List CheckPeer → Upstream → Bytes → Addr → ℕ → Option ℕ × List CheckPeer
module_add_peer l alloc peers u host a t =
    let taken = add_peer l alloc peers (conf_of u) host a t in
    if not (enabled u) then (none, peers) else taken

-- The shared part of a peer, if it has one, as the selection of a server reads it.
abbrev pub routed_down : Option (Option (Slots PeerState)) → Bool
routed_down none = false
routed_down (some none) = false
routed_down (some (some p)) = is_down_word p.published

-- The peers of the process are there after its start only. A number out of range is not down.
unfoldable pub peer_down : Option (List (Option (Slots PeerState))) → ℕ → Bool
peer_down none index = false
peer_down (some peers) index = routed_down (get_elem? peers index)

-- `ngx_process`.
pub data ProcessKind : Type 0 where
  single master signaller worker helper : ProcessKind

abbrev pub runs_checks : ProcessKind → Bool
runs_checks single = true
runs_checks worker = true
runs_checks master = false
runs_checks signaller = false
runs_checks helper = false

-- What a hook leaves: the process of the module's peers, if it runs, the zone, and NGX_OK.
pub record Hooked : Type 0 where
  pub process : Option Process
  pub shared : Shared
  pub is_ok : Bool

abbrev pub hooked : Shared → Inited → Hooked
hooked sh nothing_to_do = record { process = none; shared = sh; is_ok = true }
hooked sh failed = record { process = none; shared = sh; is_ok = false }
hooked sh (running x sh') = record { process = some x; shared = sh'; is_ok = true }

-- No configuration of the peers is no peers.
abbrev pub confs_of : Option (List SrvConf) → List SrvConf
confs_of none = []
confs_of (some confs) = confs

unfoldable pub init_process :
    Env → ProcessKind → Settings → Option (List SrvConf) → Option Process → Shared → ℕ → Hooked
init_process e kind s main before sh t =
    if not (runs_checks kind)
    then record { process = before; shared = sh; is_ok = true }
    else hooked sh (runtime_init e s (confs_of main) sh t)

abbrev pub stop_hook : Env → Events → Option Process → Shared → ℕ → Option Process × Shared
stop_hook e b none sh t = (none, sh)
stop_hook e b (some x) sh t = let k = runtime_stop e b x sh t in (some k.process, k.shared)

-- When a configuration is loaded, the process of the old one is stopped and forgotten.
unfoldable pub init_module : Env → Events → Option Process → Shared → ℕ → Hooked
init_module e b x sh t = record { process = none; shared = (stop_hook e b x sh t).1; is_ok = true }

unfoldable pub exit_process :
    Env → Events → ProcessKind → Option Process → Shared → ℕ → Option Process × Shared
exit_process e b kind x sh t = if runs_checks kind then stop_hook e b x sh t else (x, sh)
