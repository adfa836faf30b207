-- ===== src/Status/Snapshot/Prefix.antt =====
-- A snapshot is the page of the states that were read, one for each peer of a prefix, in order.
use nginx_healthcheck_module.Base.{
  ℕ, zero, suc, ◌+◌, ◌≡◌, ◌≢◌, refl, ap, sym, subst, ◌∙◌, inl, inr, true, false, some, List, [],
  ◌∷◌, ◌++◌, append_assoc, append-nil, length, length-append, drop, if◌then◌else◌, arith,
  Bool-cases, Option-cases,
}
use nginx_healthcheck_module.Env.{Env}
use nginx_healthcheck_module.State.{PeerState}
use nginx_healthcheck_module.Slots.{Slots, current, try_read_peer}
use nginx_healthcheck_module.Status.Snapshot.{
  ShownPeer, Row, Snapshot, StepRc, ok, busy, again, error, Step, is_hidden, count_peer, push_row,
  stopped, step_from, snapshot_step,
}

-- The states that were read, with the indices of their peers.
abbrev pub Readings : Type 0
Readings = List (ℕ × PeerState)

abbrev pub rows_of : ℕ → Readings → List Row
rows_of flag [] = []
rows_of flag ((index, state) ∷ rs) =
    if is_hidden flag state.health.down
    then rows_of flag rs
    else record { index = index; health = state.health } ∷ rows_of flag rs

abbrev pub ups : Readings → ℕ
ups [] = 0
ups ((index, state) ∷ rs) = (if state.health.down then 0 else 1) + ups rs

pub record IsPage (flag : ℕ) (rs : Readings) (s : Snapshot) : Type 0 where
  pub counted : s.next ≡ length rs
  pub totalled : s.up ≡ ups rs
  pub listed : s.peers ≡ rows_of flag rs

-- Each reading is the published state of the next peer.
pub data IsRead : List ShownPeer → Readings → Type 0 where
  nothing : {ps : List ShownPeer} → IsRead ps []
  reads :
      {p : ShownPeer} {ps : List ShownPeer} {slots : Slots PeerState} {rs : Readings}
      → p.shm ≡ some slots
      → IsRead ps rs
      → IsRead (p ∷ ps) ((p.index, current slots) ∷ rs)

ups-append : (rs qs : Readings) → ups (rs ++ qs) ≡ ups rs + ups qs
ups-append [] qs = omega arith
ups-append ((index, state) ∷ rs) qs = omega (arith, ups-append rs qs)

rows_of-append :
    (flag : ℕ) (rs qs : Readings) → rows_of flag (rs ++ qs) ≡ rows_of flag rs ++ rows_of flag qs
rows_of-append flag [] qs = refl
rows_of-append flag ((index, state) ∷ rs) qs =
    elim (Bool-cases (is_hidden flag state.health.down)) [
      | inl hidden ↦ rw hidden (rows_of-append flag rs qs)
      | inr shows ↦ rw shows (
          ap (λ x. record { index = index; health = state.health } ∷ x) (rows_of-append flag rs qs))
    ]

hidden_row :
    (flag index : ℕ) (state : PeerState)
    → is_hidden flag state.health.down ≡ true
    → rows_of flag ((index, state) ∷ []) ≡ []
hidden_row flag index state hidden = rw hidden refl

shown_row :
    (flag index : ℕ) (state : PeerState)
    → is_hidden flag state.health.down ≡ false
    → rows_of flag ((index, state) ∷ []) ≡ record { index = index; health = state.health } ∷ []
shown_row flag index state shows = rw shows refl

read-current :
    (e : Env) (i t : ℕ) (slots : Slots PeerState) (state : PeerState)
    → (try_read_peer e i slots t).0 ≡ some state
    → state ≡ current slots
unfolding try_read_peer
read-current e i t slots state h = ground arith

-- A step that has read `more`.
pub record Progress (flag : ℕ) (rs : Readings) (ps : List ShownPeer) (remaining : ℕ) (k : Step)
    : Type 0 where
  pub more : Readings
  pub page : IsPage flag (rs ++ more) k.snapshot
  pub honest : IsRead ps more
  pub complete : k.rc ≡ ok → length more ≡ length ps
  pub budget : length more + k.remaining ≡ remaining
  pub spent : k.rc ≡ busy → k.remaining ≡ 0

module _ (flag : ℕ) (rs : Readings) (s : Snapshot) (v : IsPage flag rs s) where
  -- A step that stops where it is.
  stays :
      (ps : List ShownPeer) (rc : StepRc) (remaining t : ℕ)
      → (rc ≡ ok → length ps ≡ 0)
      → (rc ≡ busy → remaining ≡ 0)
      → Progress flag rs ps remaining (stopped rc s remaining t)
  stays ps rc remaining t complete spent = record {
    more = [];
    page = subst (λ r. IsPage flag r s) (sym (append-nil rs)) v;
    honest = nothing;
    complete = λ h. sym (complete h);
    budget = omega arith;
    spent = spent;
  }

  hidden-IsPage :
      (index : ℕ) (state : PeerState)
      → is_hidden flag state.health.down ≡ true
      → IsPage flag (rs ++ (index, state) ∷ []) (count_peer s state.health.down)
  hidden-IsPage index state hidden = record {
    counted = omega (arith, v.counted, length-append rs ((index, state) ∷ []));
    totalled = omega (arith, v.totalled, ups-append rs ((index, state) ∷ []));
    listed =
        v.listed
        ∙ sym (
            rows_of-append flag rs ((index, state) ∷ [])
            ∙ ap (λ q. rows_of flag rs ++ q) (hidden_row flag index state hidden)
            ∙ append-nil (rows_of flag rs));
  }

  pushed-IsPage :
      (index : ℕ) (state : PeerState)
      → is_hidden flag state.health.down ≡ false
      → IsPage flag
          (rs ++ (index, state) ∷ [])
          (push_row (count_peer s state.health.down) index state.health)
  pushed-IsPage index state shows = record {
    counted = omega (arith, v.counted, length-append rs ((index, state) ∷ []));
    totalled = omega (arith, v.totalled, ups-append rs ((index, state) ∷ []));
    listed =
        ap (λ q. q ++ record { index = index; health = state.health } ∷ []) v.listed
        ∙ sym (
            rows_of-append flag rs ((index, state) ∷ [])
            ∙ ap (λ q. rows_of flag rs ++ q) (shown_row flag index state shows));
  }

extend :
    {flag : ℕ} {rs : Readings} {ps : List ShownPeer} {remaining : ℕ} {k : Step} (p : ShownPeer)
    (slots : Slots PeerState) (state : PeerState)
    → p.shm ≡ some slots
    → state ≡ current slots
    → Progress flag (rs ++ (p.index, state) ∷ []) ps remaining k
    → Progress flag rs (p ∷ ps) (suc remaining) k
extend {flag} {rs} {ps} {remaining} {k} p slots state at read r = record {
  more = (p.index, state) ∷ r.more;
  page =
      subst (λ q. IsPage flag q k.snapshot) (append_assoc rs ((p.index, state) ∷ []) r.more) r.page;
  honest = subst (λ x. IsRead (p ∷ ps) ((p.index, x) ∷ r.more)) (sym read) (reads at r.honest);
  complete = λ h. omega (arith, r.complete h);
  budget = omega (arith, r.budget);
  spent = r.spent;
}

by_step :
    {flag : ℕ} {rs : Readings} {ps : List ShownPeer} {remaining : ℕ} {k : Step} (k' : Step)
    → k ≡ k'
    → (k'.rc ≢ error → Progress flag rs ps remaining k')
    → k.rc ≢ error
    → Progress flag rs ps remaining k
by_step {flag} {rs} {ps} {remaining} {k} k' eq good h =
    subst (λ x. Progress flag rs ps remaining x) (sym eq)
      (good (subst (λ (x : Step). x.rc ≢ error) eq h))

step_from-Progress :
    (e : Env) (flag : ℕ) (ps : List ShownPeer) (rs : Readings) (s : Snapshot) (remaining t : ℕ)
    → IsPage flag rs s
    → (step_from e flag ps s remaining t).rc ≢ error
    → Progress flag rs ps remaining (step_from e flag ps s remaining t)
unfolding step_from
step_from-Progress e flag [] rs s remaining t v h =
    stays flag rs s v [] ok remaining t (λ q. refl) (λ q. absurd (ground arith))
step_from-Progress e flag (p ∷ ps) rs s zero t v h =
    stays flag rs s v (p ∷ ps) busy 0 t (λ q. absurd (ground arith)) (λ q. refl)
step_from-Progress e flag (p ∷ ps) rs s (suc remaining) t v h = elim (Option-cases p.shm) [
  | inl null ↦
      by_step (stopped error s (suc remaining) t) (rw (null, step_from) refl) (λ g. absurd (g refl))
        h
  | inr (slots, at) ↦
      let read = try_read_peer e s.next slots t in
      elim (Option-cases read.0) [
        | inl locked ↦
            by_step (stopped again s (suc remaining) read.1) (rw (at, locked, step_from) refl)
              (λ g.
                stays flag rs s v (p ∷ ps) again (suc remaining) read.1 (λ q. absurd (ground arith))
                  (λ q. absurd (ground arith)))
              h
        | inr (state, reading) ↦ elim (Bool-cases (is_hidden flag state.health.down)) [
          | inl hidden ↦
              let counted = count_peer s state.health.down in
              let now_read = read-current e s.next t slots state reading in
              let page = hidden-IsPage flag rs s v p.index state hidden in
              by_step (step_from e flag ps counted remaining read.1)
                (rw (at, reading, hidden, step_from) refl)
                (λ g.
                  extend p slots state at now_read
                    (step_from-Progress e flag ps _ counted remaining read.1 page g))
                h
          | inr shows ↦
              let counted = count_peer s state.health.down in
              let pushed = push_row counted p.index state.health in
              let now_read = read-current e s.next t slots state reading in
              let page = pushed-IsPage flag rs s v p.index state shows in
              elim (Bool-cases (e.alloc read.1)) [
                | inl memory ↦
                    by_step (step_from e flag ps pushed remaining (read.1 + 1))
                      (rw (at, reading, shows, memory, step_from) refl)
                      (λ g.
                        extend p slots state at now_read
                          (step_from-Progress e flag ps _ pushed remaining (read.1 + 1) page g))
                      h
                | inr full ↦
                    by_step (stopped error counted remaining (read.1 + 1))
                      (rw (at, reading, shows, full, step_from) refl) (λ g. absurd (g refl)) h
              ]
        ]
      ]
]

-- A page of the readings `rs` of the first peers, after a step that meets neither a missing shared
-- part nor a lack of memory: it is the page of `rs` and of further readings, each the published state
-- of the next peer; all are read if the step ends, at most as many as the budget, and the budget is
-- used up if the step stops for it.
pub snapshot_step-Progress :
    (e : Env) (flag : ℕ) (peers : List ShownPeer) (rs : Readings) (s : Snapshot) (remaining t : ℕ)
    → IsPage flag rs s
    → (snapshot_step e flag peers s remaining t).rc ≢ error
    → Progress flag rs (drop (length rs) peers) remaining (snapshot_step e flag peers s remaining t)
unfolding snapshot_step
snapshot_step-Progress e flag peers rs s remaining t v h =
    subst
      (λ n.
        Progress flag rs (drop n peers) remaining
          (step_from e flag (drop s.next peers) s remaining t))
      v.counted (step_from-Progress e flag (drop s.next peers) rs s remaining t v h)
