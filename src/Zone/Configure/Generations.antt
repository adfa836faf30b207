-- ===== src/Zone/Configure/Generations.antt =====
-- From one reload to the next: the zone of the newest configuration is the one that is inherited from.
use nginx_healthcheck_module.Base.{
  ℕ, ◌≤◌, ◌<◌, ◌≡◌, refl, ap, ◌∙◌, subst, ◌⊎◌, inl, inr, Option, none, some, List, u64_max, arith,
  Option-cases,
}
use nginx_healthcheck_module.Identity.{OldZone}
use nginx_healthcheck_module.Identity.Latest.{
  CycleZone, IsCandidate, IsLatest, find_latest_peers_shm, find_latest_peers_shm-IsLatest,
}
use nginx_healthcheck_module.Zone.Configure.{
  Module, ZoneLib, ConfZone, next_generation, named_zone, configure_zone,
}

-- A generation behind that of every candidate.
IsBehind : ℕ → List CycleZone → ℕ → Type 0
IsBehind tag zones n = (w : OldZone) → IsCandidate tag w zones → w.generation < n

next_generation-IsBehind :
    (tag : ℕ) (zones : List CycleZone) (latest : Option OldZone) (n : ℕ)
    → IsLatest tag zones latest
    → next_generation latest ≡ some n
    → IsBehind tag zones n
unfolding next_generation IsBehind IsLatest
next_generation-IsBehind tag zones none n newest h = λ w c. absurd (newest w c)
next_generation-IsBehind tag zones (some z) n newest h =
    λ w c. let le = newest.1 w c in ground arith

next_generation-le :
    (latest : Option OldZone) (n : ℕ)
    → ((z : OldZone) → latest ≡ some z → z.generation ≤ u64_max)
    → next_generation latest ≡ some n
    → n ≤ u64_max
unfolding next_generation
next_generation-le none n fits h = ground arith
next_generation-le (some z) n fits h = let le = fits z refl in ground arith

named_zone-generation :
    (l : ZoneLib) (size : ℕ) (m : Module) (tag n : ℕ) (k : ConfZone)
    → named_zone l size m tag n ≡ some k
    → n ≡ k.generation
unfolding named_zone
named_zone-generation l size m tag n k h = ground arith

configure_zone-next :
    (l : ZoneLib) (size : ℕ) (zones : Option (List CycleZone)) (tag : ℕ) (m : Module) (k : ConfZone)
    → configure_zone l size zones tag m ≡ some k
    → next_generation (find_latest_peers_shm tag zones) ≡ some k.generation
unfolding configure_zone
configure_zone-next l size zones tag m k h =
    elim (Option-cases (next_generation (find_latest_peers_shm tag zones))) [
      | inl fails ↦ absurd (ground arith)
      | inr (n, found) ↦
          let same = named_zone-generation l size m tag n k (ground arith) in found ∙ ap some same
    ]

latest-IsCandidate :
    (tag : ℕ) (zones : List CycleZone) (latest : Option OldZone) (z : OldZone)
    → IsLatest tag zones latest
    → latest ≡ some z
    → IsCandidate tag z zones
unfolding IsLatest
latest-IsCandidate tag zones none z newest h = absurd (cc)
latest-IsCandidate tag zones (some y) z newest h =
    let same : y ≡ z = cc in subst (λ w. IsCandidate tag w zones) same newest.0

-- Of the zones of a later cycle, the search finds the one that all others are older than.
only-latest :
    (tag : ℕ) (later : List CycleZone) (latest : Option OldZone) (z : OldZone)
    → IsLatest tag later latest
    → IsCandidate tag z later
    → ((w : OldZone) → IsCandidate tag w later → (w ≡ z) ⊎ (w.generation < z.generation))
    → latest ≡ some z
unfolding IsLatest
only-latest tag later none z newest c older = absurd (newest z c)
only-latest tag later (some y) z newest c older = elim (older y newest.0) [
  | inl same ↦ ap some same
  | inr lt ↦ let le = newest.1 z c in absurd (omega arith)
]

-- A zone that is configured over the zones of an old cycle, whose generations fit in 64 bits, has a
-- generation that fits in 64 bits; and in every later cycle that has, of this tag and layout, a zone
-- of this generation and else at most zones of the old cycle, the search finds that zone.
pub configure_zone-found :
    (l : ZoneLib) (size : ℕ) (zones later : List CycleZone) (tag : ℕ) (m : Module) (k : ConfZone)
    (z : OldZone)
    → ((w : OldZone) → IsCandidate tag w zones → w.generation ≤ u64_max)
    → configure_zone l size (some zones) tag m ≡ some k
    → z.generation ≡ k.generation
    → IsCandidate tag z later
    → ((w : OldZone) → IsCandidate tag w later → (w ≡ z) ⊎ IsCandidate tag w zones)
    → (k.generation ≤ u64_max) × (find_latest_peers_shm tag (some later) ≡ some z)
unfolding IsBehind
configure_zone-found l size zones later tag m k z fits h same c origin =
    let latest = find_latest_peers_shm tag (some zones) in
    let newest = find_latest_peers_shm-IsLatest tag zones in
    let next = configure_zone-next l size (some zones) tag m k h in
    let behind = next_generation-IsBehind tag zones latest k.generation newest next in
    let bounded =
      next_generation-le latest k.generation
        (λ w found. fits w (latest-IsCandidate tag zones latest w newest found)) next in
    let older : (w : OldZone) → IsCandidate tag w later → (w ≡ z) ⊎ (w.generation < z.generation) =
      λ w d. elim (origin w d) [
        | inl it ↦ inl it
        | inr old ↦ let lt = behind w old in inr (omega arith)
      ] in
    (
      bounded,
      only-latest tag later (find_latest_peers_shm tag (some later)) z
          (find_latest_peers_shm-IsLatest tag later) c older,
    )
