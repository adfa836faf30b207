-- ===== src/Config/Peers.antt =====
-- configuration/ngx_healthcheck_config.c, add_peer and shm_size: a server of an upstream is put among
-- the peers that are checked.
pub mod Numbered
use nginx_healthcheck_module.Base.{
  ℕ, ◌+◌, ◌-◌, ◌%◌, ◌^◌, Bool, true, false, not, Option, none, some, List, [], ◌∷◌, ◌++◌, length,
  ◌==◌, if◌then◌else◌, Bytes,
}
use nginx_healthcheck_module.Config.{SrvConf}

-- ngx_addr_t. The family stands for that of the socket address.
pub data Family : Type 0 where
  inet inet6 other_family : Family

pub record Addr : Type 0 where
  pub family : Family
  pub sockaddr : Bytes
  pub name : Bytes

-- A peer of the configuration.
pub record CheckPeer : Type 0 where
  pub index : ℕ
  pub upstream_name : Bytes
  pub conf : SrvConf
  pub peer_addr : Addr
  pub check_peer_addr : Addr

-- ngx_inet_set_port and ngx_sock_ntop of nginx.
pub record AddrLib : Type 0 where
  pub set_port : Bytes → ℕ → Bytes
  pub sock_ntop : Bytes → Bytes

abbrev pub has_port : Family → Bool
has_port inet = true
has_port inet6 = true
has_port other_family = false

-- The port is cast to in_port_t.
abbrev pub with_port : AddrLib → Addr → ℕ → Addr
with_port l a port =
    let sockaddr = l.set_port a.sockaddr (port % 2 ^ 16) in
    record { family = a.family; sockaddr = sockaddr; name = l.sock_ntop sockaddr }

-- The address that is checked: the server's own, or the copy of it with the port of the check, whose
-- three allocations begin with number `t`.
unfoldable pub check_address : AddrLib → (ℕ → Bool) → SrvConf → Addr → ℕ → Option Addr
check_address l alloc c a t =
    if c.port == 0
    then some a
    else if not (has_port a.family)
    then none
    else if not (alloc t)
    then none
    else if not (alloc (t + 1))
    then none
    else if not (alloc (t + 2))
    then none
    else some (with_port l a c.port)

abbrev pub new_check_peer : ℕ → Bytes → SrvConf → Addr → Addr → CheckPeer
new_check_peer index upstream c a check = record {
  index = index;
  upstream_name = upstream;
  conf = c;
  peer_addr = a;
  check_peer_addr = check;
}

-- ngx_array_push is the allocation `t + 3`.
unfoldable pub push_peer :
    (ℕ → Bool) → List CheckPeer → SrvConf → Bytes → Addr → ℕ → Addr → Option ℕ × List CheckPeer
push_peer alloc peers c upstream a t check =
    if not (alloc (t + 3))
    then (none, peers)
    else (some (length peers), peers ++ (new_check_peer (length peers) upstream c a check ∷ []))

-- The number of the peer, or `none` for NGX_ERROR, and the peers.
unfoldable pub add_peer :
    AddrLib
    → (ℕ → Bool)
    → List CheckPeer
    → Option SrvConf
    → Bytes
    → Addr
    → ℕ
    → Option ℕ × List CheckPeer
add_peer l alloc peers none upstream a t = (none, peers)
add_peer l alloc peers (some c) upstream a t =
    if c.check_interval == 0 then (none, peers) else elim (check_address l alloc c a t) [
      | none ↦ (none, peers)
      | some check ↦ push_peer alloc peers c upstream a t check
    ]

-- The directive check_shm_size, over the size that is set so far and what ngx_parse_size answers.
pub data SizeRead : Type 0 where
  is_duplicate invalid_value : SizeRead
  sized : ℕ → SizeRead

unfoldable pub shm_size : ℕ → Option ℕ → SizeRead
shm_size check_shm_size parsed =
    if not (check_shm_size == 0)
    then is_duplicate
    else elim parsed [ none ↦ invalid_value | some size ↦ sized size ]
