-- ===== src/Identity/Copy.antt =====
-- ngx_healthcheck_copy_shm_identity writes what the next reload will look for.
use nginx_healthcheck_module.Base.{ℕ, ◌≡◌, Bool, true, some, arith}
use nginx_healthcheck_module.Identity.{
  OldPeer, NewPeer, identity_equal, shm_identity_hash, peer_identity_hash, copy_shm_identity,
}
use nginx_healthcheck_module.Identity.Buckets.{same_bytes_refl, identity_equal-hash}

copied-equal :
    (alloc : ℕ → Bool) (p : NewPeer) (t : ℕ) (q : OldPeer)
    → copy_shm_identity alloc p t ≡ some q
    → identity_equal q p ≡ true
unfolding copy_shm_identity identity_equal
copied-equal alloc p t q h = ground (
  arith,
  same_bytes_refl p.upstream_name,
  same_bytes_refl p.peer_addr,
  same_bytes_refl p.check_peer_addr,
)

-- An identity that has been copied to the shared zone without a failed allocation equals that of the
-- peer it was copied from, and falls into the same bucket.
pub copy_shm_identity-equal :
    (alloc : ℕ → Bool) (p : NewPeer) (t : ℕ) (q : OldPeer)
    → copy_shm_identity alloc p t ≡ some q
    → (identity_equal q p ≡ true) × (shm_identity_hash q ≡ peer_identity_hash p)
copy_shm_identity-equal alloc p t q h =
    let same = copied-equal alloc p t q h in (same, identity_equal-hash q p same)
