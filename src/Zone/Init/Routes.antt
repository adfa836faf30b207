-- ===== src/Zone/Init/Routes.antt =====
-- What the selection of servers reads of a new zone: a server is down as it was before the reload.
use nginx_healthcheck_module.Base.{
  ℕ, zero, suc, ◌+◌, ◌<◌, ◌≡◌, refl, sym, ap, ◌∙◌, subst, inl, inr, Bool, Option, none, some, List,
  [], ◌∷◌, map, length, get_elem?, arith, Bool-cases, Option-cases,
}
use nginx_healthcheck_module.Env.{Env, ℤ, pos, negsuc}
use nginx_healthcheck_module.State.{PeerState}
use nginx_healthcheck_module.Slots.{Slots, current, publish, is_down_word}
use nginx_healthcheck_module.Slots.Crash.{IsPublished, Publishing, finished, Publishing-reads}
use nginx_healthcheck_module.Identity.{
  OldZone, Index, index_take, index_create, take_all, copy_shm_identity,
}
use nginx_healthcheck_module.Identity.Latest.{CycleZone, find_latest_peers_shm}
use nginx_healthcheck_module.Zone.{
  ConfPeer, ZonePeer, zero_slots, zone_state, Inherited, read_previous, init_peers,
}
use nginx_healthcheck_module.Zone.Inherits.{
  IsPrevious, from_previous, IsZone, done, next, identities, init_peers-IsZone,
}
use nginx_healthcheck_module.Identity.Matching.{
  IsMatching, usable, index-IsMatching, no_zone-IsMatching,
}
use nginx_healthcheck_module.Zone.Init.{
  Layout, CoreConf, running_workers, workers_of, NewZone, new_zone, inherited_of, no_zone,
  index_allocs, init_from, init_zone,
}
use nginx_healthcheck_module.Modules.{routed_down, peer_down}

-- The shared parts, as the peers of a process lead to them.
abbrev pub shared_parts : List ZonePeer → List (Option (Slots PeerState))
shared_parts qs = map (λ (q : ZonePeer). some q.slots) qs

-- The words of all peers tell the health of their current slots.
data IsRouted : List ZonePeer → Type 0 where
  all_done : IsRouted []
  routed_next :
      {q : ZonePeer} {qs : List ZonePeer}
      → is_down_word q.slots.published ≡ (current q.slots).health.down
      → IsRouted qs
      → IsRouted (q ∷ qs)

zero_slots-IsPublished : IsPublished zero_slots
unfolding current is_down_word
zero_slots-IsPublished = record { word_fits = omega arith; routed = refl }

publish-routed :
    (s : PeerState)
    → is_down_word (publish zero_slots s).published ≡ (current (publish zero_slots s)).health.down
publish-routed s =
    let written : Publishing zero_slots s (publish zero_slots s) = finished in
    (Publishing-reads zero_slots-IsPublished written).0.routed

init_peers-IsRouted :
    (e : Env) (create : ℕ → Bool) (old : Inherited) (workers : ℕ) (ps : List ConfPeer) (x : Index)
    (i t : ℕ) (qs : List ZonePeer)
    → init_peers e create old workers ps x i t ≡ some qs
    → IsRouted qs
unfolding init_peers
init_peers-IsRouted e create old workers [] x i t qs h =
    let none_left : [] ≡ qs = ground arith in subst IsRouted none_left all_done
init_peers-IsRouted e create old workers (p ∷ ps) x i t qs h =
    elim (Option-cases (copy_shm_identity e.alloc p.identity t)) [
      | inl fails ↦ absurd (ground arith)
      | inr (copied, copy) ↦
          let taken = index_take old.zone x p.identity in
          let previous = read_previous e old taken.0 (t + 4) in
          let state = zone_state p.conf workers i previous.0 in
          elim (Option-cases (init_peers e create old workers ps taken.1 (suc i) previous.1)) [
            | inl fails ↦ absurd (ground arith)
            | inr (rest, ends) ↦
                let all : record { identity = copied; slots = publish zero_slots state } ∷ rest
                    ≡ qs =
                  ground arith in
                subst IsRouted all (
                  routed_next (publish-routed state) (
                    init_peers-IsRouted e create old workers ps taken.1 (suc i) previous.1 rest
                      ends))
          ]
    ]

-- Where the health of a peer comes from: the record `o` that the index gives it, or its configuration,
-- where there is no record for it or the lock of the record cannot be taken.
pub record Routes (e : Env) (old : Inherited) (o : Option ℕ) (p : ConfPeer) (answer : Bool)
    : Type 0 where
  pub previous : Option PeerState
  pub comes : IsPrevious e old p.identity o previous
  pub answers :
      answer ≡ from_previous (λ (s : PeerState). s.health.down) p.conf.default_down previous

-- The same for peer number `j` of those that the index gives the records `os`.
pub record Routed (e : Env) (old : Inherited) (os : List (Option ℕ)) (j : ℕ) (p : ConfPeer)
    (answer : Bool) : Type 0 where
  pub taken : Option ℕ
  pub given : get_elem? os j ≡ some taken
  pub routes : Routes e old taken p answer

zone-Routed :
    (e : Env) (old : Inherited) (workers i j : ℕ) (ps : List ConfPeer) (os : List (Option ℕ))
    (qs : List ZonePeer) (p : ConfPeer)
    → IsZone e old workers i ps os qs
    → IsRouted qs
    → get_elem? ps j ≡ some p
    → Routed e old os j p (routed_down (get_elem? (shared_parts qs) j))
zone-Routed e old workers i j [] os qs p z r h = absurd (cc)
zone-Routed e old workers i zero (q ∷ ps) [] qs p z r h = elim z [ ]
zone-Routed e old workers i zero (q ∷ ps) (o ∷ os) [] p z r h = elim z [ ]
zone-Routed e old workers i (suc j) (q ∷ ps) [] qs p z r h = elim z [ ]
zone-Routed e old workers i (suc j) (q ∷ ps) (o ∷ os) [] p z r h = elim z [ ]
zone-Routed e old workers i zero (q ∷ ps) (o ∷ os) (t ∷ qs) p (next previous same comes start rest)
      (routed_next routed others) h =
    let it : q ≡ p = ground arith in
    subst (λ k. Routed e old (o ∷ os) zero k (routed_down (get_elem? (shared_parts (t ∷ qs)) zero)))
      it
      (record {
        taken = o;
        given = refl;
        routes = record { previous = previous; comes = comes; answers = routed ∙ start.down };
      })
zone-Routed e old workers i (suc j) (q ∷ ps) (o ∷ os) (t ∷ qs) p
      (next previous same comes start rest) (routed_next routed others) h =
    let found = zone-Routed e old workers (suc i) j ps os qs p rest others h in
    record { taken = found.taken; given = found.given; routes = found.routes }

IsZone-length :
    {e : Env} {old : Inherited} {workers i : ℕ} {ps : List ConfPeer} {os : List (Option ℕ)}
    {qs : List ZonePeer}
    → IsZone e old workers i ps os qs
    → length qs ≡ length ps
IsZone-length done = refl
IsZone-length (next previous same comes state rest) = ap suc (IsZone-length rest)

-- The old zone, or an empty one.
abbrev pub zone_of : Option OldZone → OldZone
zone_of none = no_zone
zone_of (some z) = z

running_workers-gt : (n : ℤ) → 0 < running_workers n
running_workers-gt (pos zero) = omega arith
running_workers-gt (pos (suc n)) = omega arith
running_workers-gt (negsuc n) = omega arith

workers_of-gt : (c : CoreConf) → 0 < workers_of c
workers_of-gt c = elim (Bool-cases c.master) [
  | inl has_master ↦ rw has_master (running_workers-gt c.worker_processes)
  | inr alone ↦ rw alone (omega arith)
]

module _ (e : Env) (create : ℕ → Bool) (memory : OldZone → ℕ → Slots PeerState)
    (ps : List ConfPeer) where
  -- What is known of the peers of a new zone.
  record Peers (old : Option OldZone) (workers : ℕ) (qs : List ZonePeer) : Type 0 where
    matches : List (Option ℕ)
    matching : IsMatching (zone_of old) (usable (zone_of old)) [] (identities ps) matches
    zone : IsZone e (inherited_of memory no_zone old) workers 0 ps matches qs
    routed : IsRouted qs

  index-matches :
      (old : Option OldZone) (x : Index) (t : ℕ)
      → index_create e.alloc old t ≡ some x
      → IsMatching
          (zone_of old)
          (usable (zone_of old))
          []
          (identities ps)
          (take_all (zone_of old) x (identities ps))
  index-matches none x t h = no_zone-IsMatching e.alloc no_zone t x (identities ps) h
  index-matches (some z) x t h = index-IsMatching e.alloc z t x (identities ps) h

  zone_of-inherited : (old : Option OldZone) → (inherited_of memory no_zone old).zone ≡ zone_of old
  zone_of-inherited none = refl
  zone_of-inherited (some z) = refl

  init_from-Peers :
      (old : Option OldZone) (workers t : ℕ) (qs : List ZonePeer)
      → init_from e create memory old workers ps t ≡ some qs
      → Peers old workers qs
  unfolding init_from
  init_from-Peers old workers t qs h = elim (Option-cases (index_create e.alloc old (t + 1))) [
    | inl fails ↦ absurd (ground arith)
    | inr (index, created) ↦
        let from = inherited_of memory no_zone old in
        let u = t + 1 + index_allocs old in
        let made : init_peers e create from workers ps index 0 u ≡ some qs = ground arith in
        record {
          matches = take_all (zone_of old) index (identities ps);
          matching = index-matches old index (t + 1) created;
          zone =
              subst (λ k. IsZone e from workers 0 ps (take_all k index (identities ps)) qs)
                (zone_of-inherited old)
                (init_peers-IsZone e create from workers ps index 0 u qs made);
          routed = init_peers-IsRouted e create from workers ps index 0 u qs made;
        }
  ]

  init_zone-Peers :
      (y : Layout) (core : CoreConf) (tag : ℕ) (zones : Option (List CycleZone)) (generation t : ℕ)
      (z : NewZone)
      → init_zone e create memory y core tag zones generation ps t ≡ some z
      → Peers (find_latest_peers_shm tag zones) (workers_of core) z.peers
        × (new_zone generation (workers_of core) z.peers ≡ z)
  unfolding init_zone
  init_zone-Peers y core tag zones generation t z h =
      let workers = workers_of core in
      let old = find_latest_peers_shm tag zones in
      elim (Option-cases (init_from e create memory old workers ps (t + 3 + workers))) [
        | inl fails ↦ absurd (ground arith)
        | inr (qs, made) ↦
            let built : new_zone generation workers qs ≡ z = ground arith in
            subst
              (λ (k : NewZone).
                Peers old workers k.peers × (new_zone generation workers k.peers ≡ k))
              built (init_from-Peers old workers (t + 3 + workers) qs made, refl)
      ]

  -- The records that the peers of a new zone start from: of their whole identity, none twice, and none
  -- only for a peer without a record left. Peer number `j` is routed by its own.
  pub record Reloaded (old : Option OldZone) (j : ℕ) (p : ConfPeer) (z : NewZone) : Type 0 where
    pub counted : z.number ≡ length ps
    pub slotted : 0 < z.worker_count
    pub matches : List (Option ℕ)
    pub matching : IsMatching (zone_of old) (usable (zone_of old)) [] (identities ps) matches
    pub routed :
        Routed e
          (inherited_of memory no_zone old)
          matches
          j
          p
          (peer_down (some (shared_parts z.peers)) j)

  -- Whatever the memory, the mutexes and the locks answer: a zone that is initialized has a record for
  -- each peer of the configuration and a slot for one worker at least; the records of the old zone are
  -- matched with the peers by their whole identity, none twice, and none is left for a peer without
  -- one; and by its number the selection of servers finds each peer down exactly if the published state
  -- of its old record is down, or, where it has none or the lock of it cannot be taken, if the
  -- configuration says so.
  pub init_zone-Routes :
      (y : Layout) (core : CoreConf) (tag : ℕ) (zones : Option (List CycleZone)) (generation t : ℕ)
      (z : NewZone) (j : ℕ) (p : ConfPeer)
      → init_zone e create memory y core tag zones generation ps t ≡ some z
      → get_elem? ps j ≡ some p
      → Reloaded (find_latest_peers_shm tag zones) j p z
  unfolding peer_down
  init_zone-Routes y core tag zones generation t z j p h found =
      let old = find_latest_peers_shm tag zones in
      let (v, built) = init_zone-Peers y core tag zones generation t z h in
      record {
        counted = sym (ap (λ (k : NewZone). k.number) built) ∙ IsZone-length v.zone;
        slotted = subst (λ (k : NewZone). 0 < k.worker_count) built (workers_of-gt core);
        matches = v.matches;
        matching = v.matching;
        routed =
            zone-Routed e (inherited_of memory no_zone old) (workers_of core) 0 j ps v.matches
              z.peers p v.zone v.routed found;
      }
