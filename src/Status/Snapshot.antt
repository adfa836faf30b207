-- ===== src/Status/Snapshot.antt =====
-- status/ngx_healthcheck_snapshot.c: the rows of the status page are collected in batches, each
-- peer once, while the peers change.
pub mod Prefix
use nginx_healthcheck_module.Base.{
  ℕ, zero, suc, ◌+◌, ◌-◌, ◌/◌, ◌%◌, Bool, true, false, not, ◌&&◌, Option, none, some, List, [], ◌∷◌,
  ◌++◌, length, drop, ◌==◌, if◌then◌else◌,
}
use nginx_healthcheck_module.Env.{Env}
use nginx_healthcheck_module.State.{Health, PeerState}
use nginx_healthcheck_module.Slots.{Slots, try_read_peer}

-- A configured peer, as the page sees it: its index and its shared part, if there is one.

pub record ShownPeer : Type 0 where
  pub index : ℕ
  pub shm : Option (Slots PeerState)

-- The other fields of a row are those of the configured peer with its index.
pub record Row : Type 0 where
  pub index : ℕ
  pub health : Health

pub record Snapshot : Type 0 where
  pub peers : List Row
  pub total : ℕ
  pub up : ℕ
  pub next : ℕ

pub data StepRc : Type 0 where
  ok busy again error : StepRc

pub record Step : Type 0 where
  pub rc : StepRc
  pub snapshot : Snapshot
  pub remaining : ℕ
  pub tick : ℕ

abbrev pub snapshot_init : List ShownPeer → Snapshot
snapshot_init ps = record { peers = []; total = length ps; up = 0; next = 0 }

-- `flag & 1` hides what is up, `flag & 2` else what is down.
unfoldable pub is_hidden : ℕ → Bool → Bool
is_hidden flag down = if flag % 2 == 1 then not down else flag / 2 % 2 == 1 && down

-- A peer has been read.
abbrev pub count_peer : Snapshot → Bool → Snapshot
count_peer s down = record s { next = s.next + 1; up = s.up + (if down then 0 else 1) }

abbrev pub push_row : Snapshot → ℕ → Health → Snapshot
push_row s index health = record s {
  peers = s.peers ++ record { index = index; health = health } ∷ [];
}

abbrev pub stopped : StepRc → Snapshot → ℕ → ℕ → Step
stopped rc s remaining t = record { rc = rc; snapshot = s; remaining = remaining; tick = t }

-- What follows the reading of a peer, where `rest` goes on with the next one.
abbrev pub shown : Env → ℕ → ShownPeer → PeerState → Snapshot → ℕ → ℕ → (Snapshot → ℕ → Step) → Step
shown e flag p state s remaining t rest =
    let counted = count_peer s state.health.down in
    if is_hidden flag state.health.down
    then rest counted t
    else if e.alloc t
    then rest (push_row counted p.index state.health) (t + 1)
    else stopped error counted remaining (t + 1)

-- The loop over the peers from `next` on.
unfoldable pub step_from : Env → ℕ → List ShownPeer → Snapshot → ℕ → ℕ → Step
step_from e flag [] s remaining t = stopped ok s remaining t
step_from e flag (p ∷ ps) s zero t = stopped busy s 0 t
step_from e flag (p ∷ ps) s (suc remaining) t = elim p.shm [
  | none ↦ stopped error s (suc remaining) t
  | some slots ↦
      let read = try_read_peer e s.next slots t in
      elim read.0 [
        | none ↦ stopped again s (suc remaining) read.1
        | some state ↦
            shown e flag p state s remaining read.1 (λ s' t'. step_from e flag ps s' remaining t')
      ]
]

unfoldable pub snapshot_step : Env → ℕ → List ShownPeer → Snapshot → ℕ → ℕ → Step
snapshot_step e flag peers s remaining t = step_from e flag (drop s.next peers) s remaining t
