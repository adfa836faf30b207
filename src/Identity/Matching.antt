-- ===== src/Identity/Matching.antt =====
-- Each old record is given away at most once, to a peer of its identity, and only a peer whose
-- records are all gone gets none.
use nginx_healthcheck_module.Base.{
  ℕ, zero, suc, ◌+◌, ◌%◌, ◌<◌, ◌≡◌, refl, ap, subst, sym, inl, inr, Bool, true, false, ◌&&◌, Option,
  none, some, List, [], ◌∷◌, ltb, ◌==◌, if◌then◌else◌, arith, Bool-cases, Option-cases,
}
use nginx_healthcheck_module.Identity.{
  NewPeer, OldZone, Index, is_current_layout, bucket_of, push, fill, empty_index, bucket_count_of,
  index_create, unlink, index_take, take_all, identity_equal, peer_identity_hash,
}
use nginx_healthcheck_module.Identity.Buckets.{
  count, unlink-count, unlink-test, unlink-none, identity_equal-hash,
}

-- The records below `n` stand in their buckets, once each, until they are in `taken`.
pub record IsIndex (z : OldZone) (n : ℕ) (x : Index) (taken : List ℕ) : Type 0 where
  pub placed :
      (m b : ℕ)
      → count m (x.buckets b) + (if b == bucket_of z x m then count m taken else 0)
        ≡ (if ltb m n && b == bucket_of z x m then 1 else 0)

empty-IsIndex : (z : OldZone) (c : ℕ) → IsIndex z 0 (empty_index c) []
empty-IsIndex z c = record { placed = λ m b. ground arith }

push-IsIndex :
    (z : OldZone) (n : ℕ) (x : Index) → IsIndex z n x [] → IsIndex z (suc n) (push z x n) []
push-IsIndex z n x v = record {
  placed = λ m b. elim (Bool-cases (n == m)) [
    | inl same ↦
        let at : n ≡ m = ground arith in ground (arith, v.placed m b, ap (bucket_of z x) at)
    | inr other ↦ ground (arith, v.placed m b)
  ];
}

some-injective : (x y : Index) → some x ≡ some y → x ≡ y
some-injective x y h = cc

fill-IsIndex :
    (alloc : ℕ → Bool) (z : OldZone) (c t n : ℕ) (x : Index)
    → fill alloc z (empty_index c) t n ≡ some x
    → IsIndex z n x []
unfolding fill
fill-IsIndex alloc z c t zero x found =
    subst (λ y. IsIndex z 0 y []) (some-injective _ x found) (empty-IsIndex z c)
fill-IsIndex alloc z c t (suc n) x found = elim (Option-cases (fill alloc z (empty_index c) t n)) [
  | inl fails ↦ absurd (ground arith)
  | inr (y, filled) ↦ elim (Bool-cases (alloc (t + n))) [
    | inl memory ↦
        let pushed : some (push z y n) ≡ some x =
          subst (λ o. o ≡ some x) (rw (filled, memory, fill) refl) found in
        subst (λ w. IsIndex z (suc n) w []) (some-injective _ x pushed)
          (push-IsIndex z n y (fill-IsIndex alloc z c t n y filled))
    | inr full ↦ absurd (ground arith)
  ]
]

module _ (z : OldZone) (n : ℕ) where
  -- The answers to the peers `ps` in turn, where the records in `taken` are gone.
  pub data IsMatching : List ℕ → List NewPeer → List (Option ℕ) → Type 0 where
    done : {taken : List ℕ} → IsMatching taken [] []
    matched :
        {p : NewPeer} {ps : List NewPeer} {m : ℕ} {os : List (Option ℕ)} {taken : List ℕ}
        → m < n
        → identity_equal (z.peers m) p ≡ true
        → count m taken ≡ 0
        → IsMatching (m ∷ taken) ps os
        → IsMatching taken (p ∷ ps) (some m ∷ os)
    unmatched :
        {p : NewPeer} {ps : List NewPeer} {os : List (Option ℕ)} {taken : List ℕ}
        → ((m : ℕ) → m < n → identity_equal (z.peers m) p ≡ true → count m taken ≡ 1)
        → IsMatching taken ps os
        → IsMatching taken (p ∷ ps) (none ∷ os)

  module _ (x : Index) (taken : List ℕ) (v : IsIndex z n x taken) (p : NewPeer) where
    abbrev bucket : ℕ
    bucket = peer_identity_hash p % x.bucket_count

    abbrev equal_to : ℕ → Bool
    equal_to = λ m. identity_equal (z.peers m) p

    equal-bucket : (m : ℕ) → equal_to m ≡ true → bucket ≡ bucket_of z x m
    equal-bucket m h = ap (λ k. k % x.bucket_count) (sym (identity_equal-hash (z.peers m) p h))

    abbrev without : List ℕ → Index
    without rest = record x { buckets = λ k. if k == bucket then rest else x.buckets k }

    unmatched-taken :
        unlink equal_to (x.buckets bucket) ≡ none
        → (m : ℕ) → m < n
        → equal_to m ≡ true
        → count m taken ≡ 1
    unmatched-taken h m below same = ground (
      arith,
      v.placed m bucket,
      equal-bucket m same,
      unlink-none equal_to (x.buckets bucket) m h same,
    )

    module _ (k : ℕ) (rest : List ℕ)
        (found : unlink equal_to (x.buckets bucket) ≡ some (k, rest)) where
      equal_k : equal_to k ≡ true
      equal_k = unlink-test equal_to (x.buckets bucket) k rest found

      fresh-k : (k < n) × (count k taken ≡ 0)
      fresh-k = ground (
        arith,
        v.placed k bucket,
        equal-bucket k equal_k,
        unlink-count equal_to (x.buckets bucket) k rest k found,
      )

      placed_same :
          (m b : ℕ)
          → b ≡ bucket
          → k ≡ m
          → count m rest + (if b == bucket_of z x m then count m (k ∷ taken) else 0)
            ≡ (if ltb m n && b == bucket_of z x m then 1 else 0)
      placed_same m b here at = ground (
        arith,
        v.placed m bucket,
        equal-bucket k equal_k,
        ap (bucket_of z x) at,
        unlink-count equal_to (x.buckets bucket) k rest m found,
      )

      placed_here :
          (m b : ℕ)
          → b ≡ bucket
          → count m ((without rest).buckets b)
              + (if b == bucket_of z x m then count m (k ∷ taken) else 0)
            ≡ (if ltb m n && b == bucket_of z x m then 1 else 0)
      placed_here m b here = elim (Bool-cases (k == m)) [
        | inl same ↦ let at : k ≡ m = ground arith in ground (arith, placed_same m b here at)
        | inr other ↦
            ground
              (arith, v.placed m bucket, unlink-count equal_to (x.buckets bucket) k rest m found)
      ]

      placed_other :
          (m b : ℕ)
          → (b == bucket) ≡ false
          → count m ((without rest).buckets b)
              + (if b == bucket_of z x m then count m (k ∷ taken) else 0)
            ≡ (if ltb m n && b == bucket_of z x m then 1 else 0)
      placed_other m b other = elim (Bool-cases (k == m)) [
        | inl same ↦
            let at : k ≡ m = ground arith in
            ground (arith, v.placed m b, equal-bucket k equal_k, ap (bucket_of z x) at)
        | inr differs ↦ ground (arith, v.placed m b)
      ]

      without-IsIndex : IsIndex z n (without rest) (k ∷ taken)
      without-IsIndex = record {
        placed = λ m b. elim (Bool-cases (b == bucket)) [
          | inl here ↦ placed_here m b (ground arith)
          | inr other ↦ placed_other m b other
        ];
      }

  take_all-IsMatching :
      (ps : List NewPeer) (x : Index) (taken : List ℕ)
      → IsIndex z n x taken
      → IsMatching taken ps (take_all z x ps)
  unfolding take_all index_take
  take_all-IsMatching [] x taken v = done
  take_all-IsMatching (p ∷ ps) x taken v =
      elim (Option-cases (unlink (equal_to x taken v p) (x.buckets (bucket x taken v p)))) [
        | inl fails ↦
            rw (fails, take_all, index_take)
              (unmatched (unmatched-taken x taken v p fails) (take_all-IsMatching ps x taken v))
        | inr ((k, rest), found) ↦
            let fresh = fresh-k x taken v p k rest found in
            rw (found, take_all, index_take)
              (matched fresh.0 (equal_k x taken v p k rest found) fresh.1
                (take_all-IsMatching ps _ (k ∷ taken) (without-IsIndex x taken v p k rest found)))
      ]

-- The records that an index of a zone starts with.
abbrev pub usable : OldZone → ℕ
usable z = if is_current_layout z then z.number else 0

created-IsIndex :
    (alloc : ℕ → Bool) (z : OldZone) (t : ℕ) (x : Index)
    → index_create alloc (some z) t ≡ some x
    → IsIndex z (usable z) x []
unfolding index_create
created-IsIndex alloc z t x h = elim (Bool-cases (is_current_layout z)) [
  | inl current ↦
      rw current (fill-IsIndex alloc z (bucket_count_of z) (t + 2) z.number x (ground arith))
  | inr other ↦
      let empty : some (empty_index (bucket_count_of z)) ≡ some x = ground arith in
      rw other (
        subst (λ y. IsIndex z 0 y []) (some-injective _ x empty)
          (empty-IsIndex z (bucket_count_of z)))
]

-- An index that has been created over a zone of this layout gives the peers of a configuration, in
-- any order, records of the zone: each of the peer's whole identity, none twice; a peer that gets
-- none has no record of its identity left. Over a zone of another layout it gives nothing.
pub index-IsMatching :
    (alloc : ℕ → Bool) (z : OldZone) (t : ℕ) (x : Index) (ps : List NewPeer)
    → index_create alloc (some z) t ≡ some x
    → IsMatching z (usable z) [] ps (take_all z x ps)
index-IsMatching alloc z t x ps h =
    take_all-IsMatching z (usable z) ps x [] (created-IsIndex alloc z t x h)

-- Without an old zone the index is empty, and gives nothing.
pub no_zone-IsMatching :
    (alloc : ℕ → Bool) (z : OldZone) (t : ℕ) (x : Index) (ps : List NewPeer)
    → index_create alloc none t ≡ some x
    → IsMatching z 0 [] ps (take_all z x ps)
unfolding index_create
no_zone-IsMatching alloc z t x ps h =
    let empty : some (empty_index 1) ≡ some x = ground arith in
    take_all-IsMatching z 0 ps x []
      (subst (λ y. IsIndex z 0 y []) (some-injective _ x empty) (empty-IsIndex z 1))
