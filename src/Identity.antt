-- ===== src/Identity.antt =====
-- ngx_healthcheck_common.c: the records of an old shared zone are matched with the peers of a new
-- configuration by their whole identity, each record at most once.
pub mod Buckets
pub mod Matching
pub mod Copy
pub mod Latest
use nginx_healthcheck_module.Base.{
  ℕ, zero, suc, ◌+◌, ◌-◌, ◌*◌, ◌/◌, ◌%◌, ◌^◌, Bool, true, false, not, ◌&&◌, ◌||◌, Option, none,
  some, List, [], ◌∷◌, length, ltb, ◌==◌, if◌then◌else◌, u64, u64_max, bit_xor, Bytes, same_bytes,
}

-- What identifies a peer: in the old zone, and in the new configuration.
pub record OldPeer : Type 0 where
  pub upstream_name : Bytes
  pub sockaddr : Bytes
  pub check_sockaddr : Bytes
  pub check_type : ℕ

pub record NewPeer : Type 0 where
  pub upstream_name : Bytes
  pub peer_addr : Bytes
  pub check_peer_addr : Bytes
  pub check_type : ℕ

unfoldable pub hash_bytes : ℕ → Bytes → ℕ
hash_bytes hash [] = hash
hash_bytes hash (b ∷ s) = hash_bytes (u64 (bit_xor hash b * 16_777_619)) s

-- The eight bytes of an ngx_uint_t in memory, least first.
abbrev pub bytes_of : ℕ → ℕ → Bytes
bytes_of zero n = []
bytes_of (suc k) n = n % 256 ∷ bytes_of k (n / 256)

unfoldable pub shm_identity_hash : OldPeer → ℕ
shm_identity_hash p =
    hash_bytes
      (hash_bytes (hash_bytes (hash_bytes 2_166_136_261 p.upstream_name) p.sockaddr)
        p.check_sockaddr)
      (bytes_of 8 p.check_type)

unfoldable pub peer_identity_hash : NewPeer → ℕ
peer_identity_hash p =
    hash_bytes
      (hash_bytes (hash_bytes (hash_bytes 2_166_136_261 p.upstream_name) p.peer_addr)
        p.check_peer_addr)
      (bytes_of 8 p.check_type)

unfoldable pub identity_equal : OldPeer → NewPeer → Bool
identity_equal old p =
    if not (old.check_type == p.check_type)
      || not (length old.upstream_name == length p.upstream_name)
      || not (length old.sockaddr == length p.peer_addr)
      || not (length old.check_sockaddr == length p.check_peer_addr)
    then false
    else same_bytes old.upstream_name p.upstream_name
      && same_bytes old.sockaddr p.peer_addr
      && same_bytes old.check_sockaddr p.check_peer_addr

-- A zone of the previous cycle. `peers` has `number` records.
pub record OldZone : Type 0 where
  pub magic : ℕ
  pub version : ℕ
  pub generation : ℕ
  pub number : ℕ
  pub peers : ℕ → OldPeer

-- A node is the number of the record it points to. Nodes are pushed in front.
pub record Index : Type 0 where
  pub bucket_count : ℕ
  pub buckets : ℕ → List ℕ

-- NGX_HEALTHCHECK_SHM_MAGIC and NGX_HEALTHCHECK_SHM_VERSION.
abbrev pub shm_magic : ℕ
shm_magic = 1212369713

abbrev pub shm_version : ℕ
shm_version = 3

abbrev pub is_current_layout : OldZone → Bool
is_current_layout z = z.magic == shm_magic && z.version == shm_version

abbrev pub bucket_of : OldZone → Index → ℕ → ℕ
bucket_of z x m = shm_identity_hash (z.peers m) % x.bucket_count

abbrev pub push : OldZone → Index → ℕ → Index
push z x m = record x {
  buckets = λ b. if b == bucket_of z x m then m ∷ x.buckets b else x.buckets b;
}

-- The first `n` records; the node of record `i` is the allocation number `t + i`.
unfoldable pub fill : (ℕ → Bool) → OldZone → Index → ℕ → ℕ → Option Index
fill alloc z x t zero = some x
fill alloc z x t (suc n) = elim (fill alloc z x t n) [
  | none ↦ none
  | some y ↦ if alloc (t + n) then some (push z y n) else none
]

abbrev pub empty_index : ℕ → Index
empty_index count = record { bucket_count = count; buckets = λ b. [] }

abbrev pub bucket_count_of : OldZone → ℕ
bucket_count_of z = if z.number == 0 then 1 else z.number * 2 + 1

-- The index and its buckets are the allocations `t` and `t + 1`. A bucket is a pointer of 8 bytes.
unfoldable pub index_create : (ℕ → Bool) → Option OldZone → ℕ → Option Index
index_create alloc none t = if alloc t && alloc (t + 1) then some (empty_index 1) else none
index_create alloc (some z) t =
    let count = bucket_count_of z in
    if not (alloc t)
    then none
    else if ltb ((u64_max - 1) / 2) z.number
    then none
    else if ltb (u64_max / 8) count
    then none
    else if not (alloc (t + 1))
    then none
    else if not (is_current_layout z)
    then some (empty_index count)
    else fill alloc z (empty_index count) (t + 2) z.number

-- Unlink the first node that satisfies a test.
unfoldable pub unlink : (ℕ → Bool) → List ℕ → Option (ℕ × List ℕ)
unlink test [] = none
unlink test (m ∷ ms) = elim (test m) [
  | true ↦ some (m, ms)
  | false ↦ elim (unlink test ms) [ none ↦ none | some (k, rest) ↦ some (k, m ∷ rest) ]
]

unfoldable pub index_take : OldZone → Index → NewPeer → Option ℕ × Index
index_take z x p =
    let b = peer_identity_hash p % x.bucket_count in
    elim (unlink (λ m. identity_equal (z.peers m) p) (x.buckets b)) [
      | none ↦ (none, x)
      | some (m, rest) ↦ (some m, record x { buckets = λ k. if k == b then rest else x.buckets k })
    ]

-- The peers of a configuration are matched in turn.
unfoldable pub take_all : OldZone → Index → List NewPeer → List (Option ℕ)
take_all z x [] = []
take_all z x (p ∷ ps) = let k = index_take z x p in k.0 ∷ take_all z k.1 ps

-- The identity as it is copied to the new zone, unless an allocation fails. An empty name takes none.
unfoldable pub copy_shm_identity : (ℕ → Bool) → NewPeer → ℕ → Option OldPeer
copy_shm_identity alloc p t =
    if not (alloc t)
    then none
    else if not (alloc (t + 1))
    then none
    else if not (length p.upstream_name == 0) && not (alloc (t + 2))
    then none
    else some (record {
      upstream_name = p.upstream_name;
      sockaddr = p.peer_addr;
      check_sockaddr = p.check_peer_addr;
      check_type = p.check_type;
    })
