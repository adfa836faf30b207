-- ===== src/Config/Peers/Numbered.antt =====
-- The peers of a configuration keep the numbers that they have been given.
use nginx_healthcheck_module.Base.{
  ℕ, suc, ◌+◌, ◌<◌, ◌≡◌, refl, inl, inr, Bool, true, false, Option, none, some, List, [], ◌∷◌, ◌++◌,
  length, get_elem?, ◌==◌, if◌then◌else◌, Bytes, arith, Bool-cases,
}
use nginx_healthcheck_module.Config.{SrvConf}
use nginx_healthcheck_module.Config.Peers.{
  Addr, CheckPeer, AddrLib, has_port, with_port, check_address, new_check_peer, push_peer, add_peer,
}

-- The indices of the peers are their places, from number `i` on.
pub data IsNumbered : ℕ → List CheckPeer → Type 0 where
  done : {i : ℕ} → IsNumbered i []
  next :
      {i : ℕ} {p : CheckPeer} {ps : List CheckPeer}
      → p.index ≡ i
      → IsNumbered (suc i) ps
      → IsNumbered i (p ∷ ps)

-- The peer of a server: it is checked at the port of the check, if there is one.
pub record IsPeer (l : AddrLib) (c : SrvConf) (upstream : Bytes) (a : Addr) (p : CheckPeer)
    : Type 0 where
  is_checked : 0 < c.check_interval
  named : p.upstream_name ≡ upstream
  configured : p.conf ≡ c
  serves : p.peer_addr ≡ a
  checks : p.check_peer_addr ≡ (if c.port == 0 then a else with_port l a c.port)

-- Why a server is not put among the peers.
pub data Reason (alloc : ℕ → Bool) (conf : Option SrvConf) (a : Addr) (t : ℕ) : Type 0 where
  unconfigured : conf ≡ none → Reason alloc conf a t
  unchecked : (c : SrvConf) → conf ≡ some c → c.check_interval ≡ 0 → Reason alloc conf a t
  portless :
      (c : SrvConf) → conf ≡ some c → 0 < c.port → has_port a.family ≡ false → Reason alloc conf a t
  no_memory : (u : ℕ) → alloc (t + u) ≡ false → Reason alloc conf a t

get_elem-append :
    (ps : List CheckPeer) (p : CheckPeer) → get_elem? (ps ++ (p ∷ [])) (length ps) ≡ some p
get_elem-append [] p = refl
get_elem-append (q ∷ ps) p = get_elem-append ps p

append-IsNumbered :
    (i : ℕ) (ps : List CheckPeer) (p : CheckPeer)
    → IsNumbered i ps
    → p.index ≡ i + length ps
    → IsNumbered i (ps ++ (p ∷ []))
append-IsNumbered i [] p done h = next (omega arith) done
append-IsNumbered i (q ∷ ps) p (next same rest) h =
    next same (append-IsNumbered (suc i) ps p rest (omega arith))

module _ (l : AddrLib) (alloc : ℕ → Bool) where
  -- Either nothing is put among the peers, for a reason, or one peer behind all others, which is found
  -- under the number that is given for it.
  pub data Added (ps : List CheckPeer) (conf : Option SrvConf) (upstream : Bytes) (a : Addr) (t : ℕ)
      : Option ℕ × List CheckPeer → Type 0 where
    refused : Reason alloc conf a t → Added ps conf upstream a t (none, ps)
    added :
        (c : SrvConf) (p : CheckPeer)
        → conf ≡ some c
        → IsPeer l c upstream a p
        → get_elem? (ps ++ (p ∷ [])) (length ps) ≡ some p
        → IsNumbered 0 (ps ++ (p ∷ []))
        → Added ps conf upstream a t (some (length ps), ps ++ (p ∷ []))

  -- What is found out about the address that is checked.
  data Checked (c : SrvConf) (a : Addr) (t : ℕ) : Option Addr → Type 0 where
    right :
        {check : Addr}
        → check ≡ (if c.port == 0 then a else with_port l a c.port)
        → Checked c a t (some check)
    no_port : 0 < c.port → has_port a.family ≡ false → Checked c a t none
    unallocated : (u : ℕ) → alloc (t + u) ≡ false → Checked c a t none

  ported-Checked :
      (c : SrvConf) (a : Addr) (t : ℕ)
      → (c.port == 0) ≡ false
      → has_port a.family ≡ true
      → Checked c a t (check_address l alloc c a t)
  unfolding check_address
  ported-Checked c a t port family = elim (Bool-cases (alloc t)) [
    | inr fails ↦ rw (port, family, fails) (unallocated 0 (ground arith))
    | inl first ↦ elim (Bool-cases (alloc (t + 1))) [
      | inr fails ↦ rw (port, family, first, fails) (unallocated 1 fails)
      | inl second ↦ elim (Bool-cases (alloc (t + 2))) [
        | inr fails ↦ rw (port, family, first, second, fails) (unallocated 2 fails)
        | inl third ↦ rw (port, family, first, second, third) (right (rw port refl))
      ]
    ]
  ]

  check_address-Checked :
      (c : SrvConf) (a : Addr) (t : ℕ) → Checked c a t (check_address l alloc c a t)
  unfolding check_address
  check_address-Checked c a t = elim (Bool-cases (c.port == 0)) [
    | inl own ↦ rw own (right (rw own refl))
    | inr port ↦ elim (Bool-cases (has_port a.family)) [
      | inl family ↦ ported-Checked c a t port family
      | inr family ↦ rw (port, family) (no_port (ground arith) family)
    ]
  ]

  checked-Added :
      (ps : List CheckPeer) (c : SrvConf) (upstream : Bytes) (a : Addr) (t : ℕ) (k : Option Addr)
      → IsNumbered 0 ps
      → 0 < c.check_interval
      → Checked c a t k
      → Added ps
          (some c)
          upstream
          a
          t
          (elim k [ none ↦ (none, ps) | some check ↦ push_peer alloc ps c upstream a t check ])
  unfolding push_peer
  checked-Added ps c upstream a t none v active (no_port port family) =
      refused (portless c refl port family)
  checked-Added ps c upstream a t none v active (unallocated u fails) = refused (no_memory u fails)
  checked-Added ps c upstream a t (some check) v active (right same) =
      elim (Bool-cases (alloc (t + 3))) [
        | inr fails ↦ rw fails (refused (no_memory 3 fails))
        | inl held ↦
            let p = new_check_peer (length ps) upstream c a check in
            rw held (
              added c p refl
                (record {
                  is_checked = active;
                  named = refl;
                  configured = refl;
                  serves = refl;
                  checks = same;
                })
                (get_elem-append ps p) (append-IsNumbered 0 ps p v (omega arith)))
      ]

  -- Over peers whose indices are their places: a server is either refused, because its upstream has
  -- no check, its address has no port to replace or memory runs out, and then the peers are as they
  -- were; or one peer is put behind all others, with the server's address and that of the check, it
  -- is found under the number that is answered, and all indices are the places again.
  pub add_peer-Added :
      (ps : List CheckPeer) (conf : Option SrvConf) (upstream : Bytes) (a : Addr) (t : ℕ)
      → IsNumbered 0 ps
      → Added ps conf upstream a t (add_peer l alloc ps conf upstream a t)
  unfolding add_peer
  add_peer-Added ps none upstream a t v = refused (unconfigured refl)
  add_peer-Added ps (some c) upstream a t v = elim (Bool-cases (c.check_interval == 0)) [
    | inl off ↦ rw off (refused (unchecked c refl (ground arith)))
    | inr on ↦ rw on (
        checked-Added ps c upstream a t (check_address l alloc c a t) v (ground arith)
          (check_address-Checked c a t))
  ]
