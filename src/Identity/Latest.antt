-- ===== src/Identity/Latest.antt =====
-- ngx_healthcheck_find_latest_peers_shm: the newest zone of the old cycles with the layout of this one.
use nginx_healthcheck_module.Base.{
  ℕ, ◌≤◌, ◌≡◌, refl, sym, ap, ◌∙◌, subst, ◌⊎◌, inl, inr, ◌&&◌, Option, none, some, List, [], ◌∷◌,
  ltb, ◌==◌, if◌then◌else◌, arith, Bool-cases, Option-cases,
}
use nginx_healthcheck_module.Identity.{OldZone, is_current_layout}

-- A shared memory zone of a cycle: its tag, and the zone that its data leads to, if there is one.
pub record CycleZone : Type 0 where
  pub tag : ℕ
  pub peers_shm : Option OldZone

abbrev pub newer : OldZone → Option OldZone → OldZone
newer z none = z
newer z (some latest) = if ltb latest.generation z.generation then z else latest

abbrev pub candidate : ℕ → CycleZone → Option OldZone
candidate tag k = elim k.peers_shm [
  | none ↦ none
  | some z ↦ if k.tag == tag && is_current_layout z then some z else none
]

-- With the zones of all parts of the list in one list, and `latest` found before them.
unfoldable pub find_from : ℕ → List CycleZone → Option OldZone → Option OldZone
find_from tag [] latest = latest
find_from tag (k ∷ ks) latest = elim (candidate tag k) [
  | none ↦ find_from tag ks latest
  | some z ↦ find_from tag ks (some (newer z latest))
]

unfoldable pub find_latest_peers_shm : ℕ → Option (List CycleZone) → Option OldZone
find_latest_peers_shm tag none = none
find_latest_peers_shm tag (some zones) = find_from tag zones none

-- A candidate of a list.
pub data IsCandidate (tag : ℕ) (z : OldZone) : List CycleZone → Type 0 where
  here :
      {k : CycleZone} {ks : List CycleZone} → candidate tag k ≡ some z → IsCandidate tag z (k ∷ ks)
  there : {k : CycleZone} {ks : List CycleZone} → IsCandidate tag z ks → IsCandidate tag z (k ∷ ks)

-- `z` is `l`, or a candidate of the list, and none of them is newer.
record Found (tag : ℕ) (ks : List CycleZone) (l z : OldZone) : Type 0 where
  origin : (l ≡ z) ⊎ IsCandidate tag z ks
  newest_yet : l.generation ≤ z.generation
  newest : (w : OldZone) → IsCandidate tag w ks → w.generation ≤ z.generation

-- The answer of a search over a list.
unfoldable pub IsLatest : ℕ → List CycleZone → Option OldZone → Type 0
IsLatest tag ks none = (w : OldZone) → ¬ (IsCandidate tag w ks)
IsLatest tag ks (some z) =
    IsCandidate tag z ks × ((w : OldZone) → IsCandidate tag w ks → w.generation ≤ z.generation)

newer-le :
    (z l : OldZone)
    → (l.generation ≤ (newer z (some l)).generation)
      × (z.generation ≤ (newer z (some l)).generation)
newer-le z l = elim (Bool-cases (ltb l.generation z.generation)) [
  | inl older ↦ rw older (ground arith)
  | inr fails_it ↦ rw fails_it (ground arith)
]

newer-origin : (z l : OldZone) → (l ≡ newer z (some l)) ⊎ (z ≡ newer z (some l))
newer-origin z l = elim (Bool-cases (ltb l.generation z.generation)) [
  | inl older ↦ rw older (inr refl)
  | inr fails_it ↦ rw fails_it (inl refl)
]

none-ne-some : (z : OldZone) → ¬ (none ≡ some z)
none-ne-some z h = absurd (cc)

some-injective : (z w : OldZone) → some z ≡ some w → z ≡ w
some-injective z w h = cc

candidate-newest :
    (tag : ℕ) (k : CycleZone) (ks : List CycleZone) (n : ℕ)
    → ((w : OldZone) → candidate tag k ≡ some w → w.generation ≤ n)
    → ((w : OldZone) → IsCandidate tag w ks → w.generation ≤ n)
    → (w : OldZone) → IsCandidate tag w (k ∷ ks)
    → w.generation ≤ n
candidate-newest tag k ks n first rest w (here h) = first w h
candidate-newest tag k ks n first rest w (there h) = rest w h

skip :
    {tag : ℕ} {k : CycleZone} {ks : List CycleZone} {l z : OldZone}
    → Found tag ks l z
    → candidate tag k ≡ none
    → Found tag (k ∷ ks) l z
skip {tag} {k} {ks} {l} {z} v fails_it = record {
  origin = elim v.origin [ inl same ↦ inl same | inr c ↦ inr (there c) ];
  newest_yet = v.newest_yet;
  newest =
      candidate-newest tag k ks z.generation (λ w h. absurd (none-ne-some w (sym fails_it ∙ h)))
        v.newest;
}

step_origin :
    {tag : ℕ} {k : CycleZone} {ks : List CycleZone} {l c z : OldZone}
    → (newer c (some l) ≡ z) ⊎ IsCandidate tag z ks
    → candidate tag k ≡ some c
    → (l ≡ newer c (some l)) ⊎ (c ≡ newer c (some l))
    → (l ≡ z) ⊎ IsCandidate tag z (k ∷ ks)
step_origin (inr later) holds from = inr (there later)
step_origin (inl same) holds (inl old) = inl (old ∙ same)
step_origin (inl same) holds (inr new) = inr (here (holds ∙ ap some (new ∙ same)))

step :
    {tag : ℕ} {k : CycleZone} {ks : List CycleZone} {l c z : OldZone}
    → Found tag ks (newer c (some l)) z
    → candidate tag k ≡ some c
    → Found tag (k ∷ ks) l z
step {tag} {k} {ks} {l} {c} {z} v holds = record {
  origin = step_origin v.origin holds (newer-origin c l);
  newest_yet = omega (arith, v.newest_yet, newer-le c l);
  newest =
      candidate-newest tag k ks z.generation
        (λ w h.
          subst (λ (x : OldZone). x.generation ≤ z.generation) (some-injective c w (sym holds ∙ h))
            (omega (arith, v.newest_yet, newer-le c l)))
        v.newest;
}

find_from-Found :
    (tag : ℕ) (ks : List CycleZone) (l : OldZone)
    → (z : OldZone) × (find_from tag ks (some l) ≡ some z) × Found tag ks l z
unfolding find_from
find_from-Found tag [] l =
    (l, refl, record { origin = inl refl; newest_yet = omega arith; newest = λ w h. elim h [ ] })
find_from-Found tag (k ∷ ks) l = elim (Option-cases (candidate tag k)) [
  | inl fails_it ↦
      let (z, found, v) = find_from-Found tag ks l in
      (z, rw (fails_it, find_from) found, skip v fails_it)
  | inr (c, holds) ↦
      let (z, found, v) = find_from-Found tag ks (newer c (some l)) in
      (z, rw (holds, find_from) found, step v holds)
]

skip-IsLatest :
    (tag : ℕ) (k : CycleZone) (ks : List CycleZone) (o : Option OldZone)
    → candidate tag k ≡ none
    → IsLatest tag ks o
    → IsLatest tag (k ∷ ks) o
unfolding IsLatest
skip-IsLatest tag k ks none fails_it v =
    λ w h. elim h [ here found ↦ none-ne-some w (sym fails_it ∙ found) | there h' ↦ v w h' ]
skip-IsLatest tag k ks (some z) fails_it v = (
  there v.0,
  candidate-newest tag k ks z.generation (λ w h. absurd (none-ne-some w (sym fails_it ∙ h))) v.1,
)

Found-IsLatest :
    (tag : ℕ) (k : CycleZone) (ks : List CycleZone) (c z : OldZone)
    → candidate tag k ≡ some c
    → Found tag ks c z
    → IsLatest tag (k ∷ ks) (some z)
unfolding IsLatest
Found-IsLatest tag k ks c z holds v = (
  elim v.origin [ inl same ↦ here (holds ∙ ap some same) | inr later ↦ there later ],
  candidate-newest tag k ks z.generation
      (λ w h.
        subst (λ (x : OldZone). x.generation ≤ z.generation) (some-injective c w (sym holds ∙ h))
          v.newest_yet)
      v.newest,
)

find_from-IsLatest : (tag : ℕ) (ks : List CycleZone) → IsLatest tag ks (find_from tag ks none)
unfolding IsLatest find_from
find_from-IsLatest tag [] = λ w h. elim h [ ]
find_from-IsLatest tag (k ∷ ks) = elim (Option-cases (candidate tag k)) [
  | inl fails_it ↦
      rw (fails_it, find_from)
        (skip-IsLatest tag k ks (find_from tag ks none) fails_it (find_from-IsLatest tag ks))
  | inr (c, holds) ↦
      let (z, found, v) = find_from-Found tag ks c in
      rw (holds, find_from, found, IsLatest) (Found-IsLatest tag k ks c z holds v)
]

-- Among the zones of the old cycle with the tag and this layout, the search finds one of the
-- greatest generation; it finds none only if there is none.
pub find_latest_peers_shm-IsLatest :
    (tag : ℕ) (zones : List CycleZone) → IsLatest tag zones (find_latest_peers_shm tag (some zones))
unfolding find_latest_peers_shm
find_latest_peers_shm-IsLatest tag zones = find_from-IsLatest tag zones
