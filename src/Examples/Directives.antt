-- ===== src/Examples/Directives.antt =====
-- A check directive, and the matching of old records.
use nginx_healthcheck_module.Base.{
  ℕ, ◌+◌, ◌-◌, ◌*◌, ◌^◌, ◌<◌, ◌≡◌, refl, Bool, true, false, ◌&&◌, Option, none, some, List, [], ◌∷◌,
  ltb, leb, if◌then◌else◌, arith, Bytes, codes, same_bytes,
}
use nginx_healthcheck_module.Config.{SrvConf, tcp}
use nginx_healthcheck_module.Config.Finish.{
  configured, finish_conf, finish_keepalive, keepalive_conf, check_timeout_of,
}
use nginx_healthcheck_module.Config.Finish.Bounds.{IsConsistent}
use nginx_healthcheck_module.Config.Read.{
  ConfLib, check, read_all, read_with, read_interval, read_timeout, read_keepalive, parse_keepalive,
  parse_fields, parse_field, parse_handshake, fields,
}
use nginx_healthcheck_module.Config.Read.Accepted.{check-IsConsistent}
use nginx_healthcheck_module.Identity.{
  OldPeer, NewPeer, OldZone, Index, index_create, push, empty_index, fill, take_all,
  copy_shm_identity, shm_identity_hash, peer_identity_hash, identity_equal, shm_magic, shm_version,
}
use nginx_healthcheck_module.Identity.Matching.{IsMatching, usable, index-IsMatching}
use nginx_healthcheck_module.Identity.Copy.{copy_shm_identity-equal}

-- A decimal number, behind the digits of `n`.
abbrev decimal : ℕ → Bytes → Option ℕ
decimal n [] = some n
decimal n (b ∷ s) =
    let rest = decimal (n * 10 + (b - b'0')) s in if leb b'0' b && leb b b'9' then rest else none

abbrev bounded : Option ℕ → Option ℕ
bounded none = none
bounded (some n) = if ltb n (2 ^ 63) then some n else none

bounded-lt : (o : Option ℕ) (n : ℕ) → bounded o ≡ some n → n < 2 ^ 63
bounded-lt o n h = ground arith

abbrev conf_lib : ConfLib
conf_lib = record {
  parse_time = decimal 0;
  atoi = λ s. bounded (decimal 0 s);
  same_nocase = same_bytes;
  atoi_bounded = λ s n h. bounded-lt (decimal 0 s) n h;
}

abbrev directive : List Bytes
directive = codes "interval=3000" ∷ codes "timeout=1000" ∷ codes "keepalive=60:10:2:5" ∷ []

abbrev accepted : SrvConf
accepted = record {
  port = 0;
  fall_count = 3;
  rise_count = 2;
  check_interval = 3000;
  check_timeout = 1000;
  check_type = tcp;
  send = [];
  default_down = false;
  keep_connection = true;
  rehandshake = 60_000;
  keepalive = true;
  keepalive_idle = 10;
  keepalive_interval = 2;
  keepalive_count = 5;
}

directive-accepted : check conf_lib directive ≡ configured accepted
unfolding check read_all read_with read_interval read_timeout read_keepalive parse_keepalive
    parse_fields parse_field parse_handshake fields finish_conf finish_keepalive keepalive_conf
    check_timeout_of
directive-accepted = refl

check-IsConsistent_example : IsConsistent accepted
check-IsConsistent_example = check-IsConsistent conf_lib directive accepted directive-accepted

abbrev peer_named : Bytes → NewPeer
peer_named name = record {
  upstream_name = name;
  peer_addr = codes "10.0.0.1:80";
  check_peer_addr = codes "10.0.0.1:81";
  check_type = 1;
}

abbrev old_peer : Bytes → OldPeer
old_peer name = record {
  upstream_name = name;
  sockaddr = codes "10.0.0.1:80";
  check_sockaddr = codes "10.0.0.1:81";
  check_type = 1;
}

abbrev old_zone : OldZone
old_zone = record {
  magic = shm_magic;
  version = shm_version;
  generation = 4;
  number = 1;
  peers = λ m. old_peer (codes "a");
}

abbrev memory : ℕ → Bool
memory t = true

copied : copy_shm_identity memory (peer_named (codes "a")) 0 ≡ some (old_peer (codes "a"))
unfolding copy_shm_identity
copied = refl

copy_shm_identity-equal_example :
    (identity_equal (old_peer (codes "a")) (peer_named (codes "a")) ≡ true)
    × (shm_identity_hash (old_peer (codes "a")) ≡ peer_identity_hash (peer_named (codes "a")))
copy_shm_identity-equal_example =
    copy_shm_identity-equal memory (peer_named (codes "a")) 0 (old_peer (codes "a")) copied

-- Two peers of one identity, for one record.
abbrev peers : List NewPeer
peers = peer_named (codes "a") ∷ peer_named (codes "a") ∷ []

abbrev index : Index
index = push old_zone (empty_index 3) 0

created : index_create memory (some old_zone) 0 ≡ some index
unfolding index_create fill
created = refl

index-IsMatching_example :
    IsMatching old_zone (usable old_zone) [] peers (take_all old_zone index peers)
index-IsMatching_example = index-IsMatching memory old_zone 0 index peers created
