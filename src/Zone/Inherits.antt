-- ===== src/Zone/Inherits.antt =====
-- What a reload keeps of a peer, and what it starts anew.
use nginx_healthcheck_module.Base.{
  ℕ, suc, ◌+◌, ◌%◌, ◌≡◌, refl, subst, ◌⊎◌, inl, inr, Bool, true, false, map, Option, none, some,
  List, [], ◌∷◌, arith, Bool-cases, Option-cases,
}
use nginx_healthcheck_module.Env.{Env, peer_mutex}
use nginx_healthcheck_module.Lock.{lock}
use nginx_healthcheck_module.State.{PeerState, Health, invalid_pid, initial}
use nginx_healthcheck_module.Config.{SrvConf, is_tcp}
use nginx_healthcheck_module.Slots.{Slots, current, publish, read_peer}
use nginx_healthcheck_module.Slots.Crash.{current-publish}
use nginx_healthcheck_module.Identity.{
  NewPeer, OldZone, Index, unlink, index_take, peer_identity_hash, identity_equal,
  copy_shm_identity, take_all,
}
use nginx_healthcheck_module.Identity.Buckets.{unlink-test}
use nginx_healthcheck_module.Identity.Copy.{copy_shm_identity-equal}
use nginx_healthcheck_module.Zone.{
  ConfPeer, ZonePeer, zero_slots, zone_state, Inherited, read_previous, init_peers,
}

-- What is read of the record `o` that the index gives, if it gives one: the published state of a record
-- of the whole identity, or nothing where its lock cannot be taken.
pub data IsPrevious (e : Env) (old : Inherited) (p : NewPeer)
    : Option ℕ → Option PeerState → Type 0 where
  unmatched : IsPrevious e old p none none
  inherits :
      (m : ℕ)
      → identity_equal (old.zone.peers m) p ≡ true
      → IsPrevious e old p (some m) (some (current (old.slots m)))
  no_lock :
      (m t : ℕ)
      → identity_equal (old.zone.peers m) p ≡ true
      → (lock e (peer_mutex m) 0 t).0 ≡ false
      → IsPrevious e old p (some m) none

-- A part of the previous state, or a default.
abbrev pub from_previous : {A : Type 0} → (PeerState → A) → A → Option PeerState → A
from_previous f d none = d
from_previous f d (some s) = f s

-- The statistics of the delays.
abbrev pub delays_of : Health → ℕ × ℕ × ℕ × ℕ × ℕ × ℕ
delays_of h = (
  h.last_check_delay, h.avg_check_delay, h.min_check_delay, h.max_check_delay, h.delay_total,
  h.delay_sample_count,
)

abbrev pub no_delays : ℕ × ℕ × ℕ × ℕ × ℕ × ℕ
no_delays = (0, 0, 0, 0, 0, 0)

-- What peer number `i` starts with: its health and the time of its last start are kept, the delays
-- for TCP only; its owner, its round and its deadline are not.
pub record IsStart (c : SrvConf) (workers i : ℕ) (previous : Option PeerState) (s : PeerState)
    : Type 0 where
  pub down : s.health.down ≡ from_previous (λ q. q.health.down) c.default_down previous
  pub rises : s.health.rise_count ≡ from_previous (λ q. q.health.rise_count) 0 previous
  pub falls : s.health.fall_count ≡ from_previous (λ q. q.health.fall_count) 0 previous
  pub accessed : s.health.access_time ≡ from_previous (λ q. q.health.access_time) 0 previous
  pub started : s.started ≡ from_previous (λ q. q.started) 0 previous
  pub tcp_delays :
      is_tcp c.check_type ≡ true
      → delays_of s.health ≡ from_previous (λ q. delays_of q.health) no_delays previous
  pub udp_delays : is_tcp c.check_type ≡ false → delays_of s.health ≡ no_delays
  pub owner : s.owner ≡ invalid_pid
  pub worker : s.worker ≡ i % workers
  pub instance_id : s.instance_id ≡ 0
  pub term : s.term ≡ 0
  pub round : s.round ≡ 0
  pub deadline : s.deadline ≡ 0
  pub phase : s.phase ≡ initial

zone_state-IsStart :
    (c : SrvConf) (workers i : ℕ) (previous : Option PeerState)
    → IsStart c workers i previous (zone_state c workers i previous)
unfolding zone_state
zone_state-IsStart c workers i none = elim (Bool-cases (is_tcp c.check_type)) [
  | inl tcp_peer ↦
      rw (tcp_peer, zone_state)
        (record {
          down = refl;
          rises = refl;
          falls = refl;
          accessed = refl;
          started = refl;
          owner = refl;
          worker = refl;
          instance_id = refl;
          term = refl;
          round = refl;
          deadline = refl;
          phase = refl;
          tcp_delays = λ h. refl;
          udp_delays = λ h. refl;
        })
  | inr udp_peer ↦
      rw (udp_peer, zone_state)
        (record {
          down = refl;
          rises = refl;
          falls = refl;
          accessed = refl;
          started = refl;
          owner = refl;
          worker = refl;
          instance_id = refl;
          term = refl;
          round = refl;
          deadline = refl;
          phase = refl;
          tcp_delays = λ h. refl;
          udp_delays = λ h. refl;
        })
]
zone_state-IsStart c workers i (some s) = elim (Bool-cases (is_tcp c.check_type)) [
  | inl tcp_peer ↦
      rw (tcp_peer, zone_state)
        (record {
          down = refl;
          rises = refl;
          falls = refl;
          accessed = refl;
          started = refl;
          owner = refl;
          worker = refl;
          instance_id = refl;
          term = refl;
          round = refl;
          deadline = refl;
          phase = refl;
          tcp_delays = λ h. refl;
          udp_delays = λ h. absurd (cc);
        })
  | inr udp_peer ↦
      rw (udp_peer, zone_state)
        (record {
          down = refl;
          rises = refl;
          falls = refl;
          accessed = refl;
          started = refl;
          owner = refl;
          worker = refl;
          instance_id = refl;
          term = refl;
          round = refl;
          deadline = refl;
          phase = refl;
          tcp_delays = λ h. absurd (cc);
          udp_delays = λ h. refl;
        })
]

-- The peers of a new zone, from number `i` on, where the index gives them the records `os` in turn.
pub data IsZone (e : Env) (old : Inherited) (workers : ℕ)
    : ℕ → List ConfPeer → List (Option ℕ) → List ZonePeer → Type 0 where
  done : {i : ℕ} → IsZone e old workers i [] [] []
  next :
      {i : ℕ} {p : ConfPeer} {ps : List ConfPeer} {o : Option ℕ} {os : List (Option ℕ)}
      {q : ZonePeer} {qs : List ZonePeer} (previous : Option PeerState)
      → identity_equal q.identity p.identity ≡ true
      → IsPrevious e old p.identity o previous
      → IsStart p.conf workers i previous (current q.slots)
      → IsZone e old workers (suc i) ps os qs
      → IsZone e old workers i (p ∷ ps) (o ∷ os) (q ∷ qs)

taken-equal :
    (z : OldZone) (x : Index) (p : NewPeer) (m : ℕ)
    → (index_take z x p).0 ≡ some m
    → identity_equal (z.peers m) p ≡ true
unfolding index_take
taken-equal z x p m h =
    let test : ℕ → Bool = λ k. identity_equal (z.peers k) p in
    let bucket = x.buckets (peer_identity_hash p % x.bucket_count) in
    elim (Option-cases (unlink test bucket)) [
      | inl fails ↦ absurd (ground arith)
      | inr ((k, rest), found) ↦
          subst (λ j. test j ≡ true) (ground arith) (unlink-test test bucket k rest found)
    ]

read_peer-current :
    (e : Env) (m : ℕ) (slots : Slots PeerState) (limit t : ℕ)
    → ((lock e (peer_mutex m) limit t).0 ≡ false) × ((read_peer e m slots limit t).0 ≡ none)
      ⊎ ((read_peer e m slots limit t).0 ≡ some (current slots))
unfolding read_peer
read_peer-current e m slots limit t = elim (Bool-cases (lock e (peer_mutex m) limit t).0) [
  | inl held ↦ inr (ground arith)
  | inr fails ↦ inl (fails, ground arith)
]

read_previous-IsPrevious :
    (e : Env) (old : Inherited) (p : NewPeer) (o : Option ℕ) (t : ℕ)
    → ((m : ℕ) → o ≡ some m → identity_equal (old.zone.peers m) p ≡ true)
    → IsPrevious e old p o (read_previous e old o t).0
unfolding read_previous
read_previous-IsPrevious e old p none t same = unmatched
read_previous-IsPrevious e old p (some m) t same = elim (read_peer-current e m (old.slots m) 0 t) [
  | inl (fails, missing) ↦ rw missing (no_lock m t (same m refl) fails)
  | inr reads ↦ rw reads (inherits m (same m refl))
]

-- The identities of the peers, which the index is asked for.
abbrev pub identities : List ConfPeer → List NewPeer
identities ps = map (λ (p : ConfPeer). p.identity) ps

-- An initialization that succeeds gives each peer of the configuration, in order, its own identity and
-- a state that keeps the health and the last start of the old record that the index gives it, whose
-- identity is the same, unless its lock cannot be taken, or else the default status; the delays are kept
-- for TCP only, and the owner, the round, the deadline and the phase are new: whatever the locks, the
-- memory and the old zone answer.
pub init_peers-IsZone :
    (e : Env) (create : ℕ → Bool) (old : Inherited) (workers : ℕ) (ps : List ConfPeer) (x : Index)
    (i t : ℕ) (qs : List ZonePeer)
    → init_peers e create old workers ps x i t ≡ some qs
    → IsZone e old workers i ps (take_all old.zone x (identities ps)) qs
unfolding init_peers take_all
init_peers-IsZone e create old workers [] x i t qs h =
    let none_left : [] ≡ qs = ground arith in subst (IsZone e old workers i [] []) none_left done
init_peers-IsZone e create old workers (p ∷ ps) x i t qs h =
    elim (Option-cases (copy_shm_identity e.alloc p.identity t)) [
      | inl fails ↦ absurd (ground arith)
      | inr (copied, copy) ↦
          let taken = index_take old.zone x p.identity in
          let previous = read_previous e old taken.0 (t + 4) in
          let state = zone_state p.conf workers i previous.0 in
          let os = take_all old.zone taken.1 (identities ps) in
          elim (Option-cases (init_peers e create old workers ps taken.1 (suc i) previous.1)) [
            | inl fails ↦ absurd (ground arith)
            | inr (rest, ends) ↦
                let all : record { identity = copied; slots = publish zero_slots state } ∷ rest
                    ≡ qs =
                  ground arith in
                subst (IsZone e old workers i (p ∷ ps) (taken.0 ∷ os)) all (
                  next previous.0 (copy_shm_identity-equal e.alloc p.identity t copied copy).0
                    (read_previous-IsPrevious e old p.identity taken.0 (t + 4)
                      (taken-equal old.zone x p.identity))
                    (rw (current-publish zero_slots state)
                      (zone_state-IsStart p.conf workers i previous.0))
                    (init_peers-IsZone e create old workers ps taken.1 (suc i) previous.1 rest
                      ends))
          ]
    ]
