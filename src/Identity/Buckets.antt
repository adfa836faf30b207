-- ===== src/Identity/Buckets.antt =====
-- The lists of the buckets, by how often a record stands in them; and the hash of equal identities.
use nginx_healthcheck_module.Base.{
  ℕ, ◌+◌, ◌≡◌, refl, ap, subst, inl, inr, Bool, true, none, some, List, [], ◌∷◌, ◌==◌,
  if◌then◌else◌, arith, Bool-cases, Option-cases, Bytes, same_bytes,
}
use nginx_healthcheck_module.Identity.{
  OldPeer, NewPeer, shm_identity_hash, peer_identity_hash, identity_equal, unlink,
}

-- How often `m` is in a list.
abbrev pub count : ℕ → List ℕ → ℕ
count m [] = 0
count m (k ∷ ks) = (if k == m then 1 else 0) + count m ks

pub unlink-count :
    (test : ℕ → Bool) (ms : List ℕ) (k : ℕ) (rest : List ℕ) (m : ℕ)
    → unlink test ms ≡ some (k, rest)
    → count m ms ≡ (if k == m then 1 else 0) + count m rest
unfolding unlink
unlink-count test [] k rest m h = absurd (ground arith)
unlink-count test (x ∷ ms) k rest m h = elim (Bool-cases (test x)) [
  | inl holds ↦ ground arith
  | inr fails_it ↦ elim (Option-cases (unlink test ms)) [
    | inl fails ↦ absurd (ground arith)
    | inr ((j, r), found) ↦ ground (arith, unlink-count test ms j r m found)
  ]
]

pub unlink-test :
    (test : ℕ → Bool) (ms : List ℕ) (k : ℕ) (rest : List ℕ)
    → unlink test ms ≡ some (k, rest)
    → test k ≡ true
unfolding unlink
unlink-test test [] k rest h = absurd (ground arith)
unlink-test test (x ∷ ms) k rest h = elim (Bool-cases (test x)) [
  | inl holds ↦ subst (λ x. test x ≡ true) (ground arith) holds
  | inr fails_it ↦ elim (Option-cases (unlink test ms)) [
    | inl fails ↦ absurd (ground arith)
    | inr ((j, r), found) ↦
        subst (λ x. test x ≡ true) (ground arith) (unlink-test test ms j r found)
  ]
]

the_same : (x m : ℕ) → (x == m) ≡ true → x ≡ m
the_same x m h = ground arith

pub unlink-none :
    (test : ℕ → Bool) (ms : List ℕ) (m : ℕ) → unlink test ms ≡ none → test m ≡ true → count m ms ≡ 0
unfolding unlink
unlink-none test [] m h holds = refl
unlink-none test (x ∷ ms) m h holds = elim (Bool-cases (test x)) [
  | inl found ↦ absurd (ground arith)
  | inr fails_it ↦ elim (Bool-cases (x == m)) [
    | inl same ↦ absurd (ground (arith, ap test (the_same x m same)))
    | inr other ↦ elim (Option-cases (unlink test ms)) [
      | inl fails ↦ ground (arith, unlink-none test ms m fails holds)
      | inr (k, found) ↦ absurd (ground arith)
    ]
  ]
]

pub same_bytes-≡ : (s t : Bytes) → same_bytes s t ≡ true → s ≡ t
same_bytes-≡ [] [] h = refl
same_bytes-≡ [] (y ∷ t) h = absurd (ground arith)
same_bytes-≡ (x ∷ s) [] h = absurd (ground arith)
same_bytes-≡ (x ∷ s) (y ∷ t) h =
    let head : x ≡ y = ground arith in
    let tail : s ≡ t = same_bytes-≡ s t (ground arith) in ground arith

pub same_bytes_refl : (s : Bytes) → same_bytes s s ≡ true
same_bytes_refl [] = refl
same_bytes_refl (x ∷ s) = ground (arith, same_bytes_refl s)

pub identity_equal-hash :
    (old : OldPeer) (p : NewPeer)
    → identity_equal old p ≡ true
    → shm_identity_hash old ≡ peer_identity_hash p
unfolding identity_equal shm_identity_hash peer_identity_hash
identity_equal-hash old p h =
    let name = same_bytes-≡ old.upstream_name p.upstream_name (ground arith) in
    let addr = same_bytes-≡ old.sockaddr p.peer_addr (ground arith) in
    let check = same_bytes-≡ old.check_sockaddr p.check_peer_addr (ground arith) in
    let type : old.check_type ≡ p.check_type = ground arith in rw (name, addr, check, type) refl
