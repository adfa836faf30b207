-- ===== src/Status/Formats.antt =====
-- ngx_healthcheck_status.c: what the formats of the status page share.
pub mod Csv
pub mod Html
pub mod Json
pub mod Prometheus
pub mod Legacy
use nginx_healthcheck_module.Base.{
  ℕ, suc, ◌+◌, ◌-◌, ◌^◌, Bool, true, false, List, [], ◌∷◌, ◌++◌, map, ◌==◌, if◌then◌else◌, Bytes,
  codes, u64, u64_max, arith, ◌≤◌, ◌≡◌, refl, subst, sym, append_assoc, Bool-cases, inl, inr,
}
use nginx_healthcheck_module.State.{Health}
use nginx_healthcheck_module.Status.Snapshot.{is_hidden}
use nginx_healthcheck_module.Status.Writer.Prints.{
  Print, ◌then◌, done, Prints, done-Prints, then-Prints,
}

-- A selected peer, with the names and the port that its record points to.
pub record Entry : Type 0 where
  pub index : ℕ
  pub upstream_name : Bytes
  pub name : Bytes
  pub check_type : Bytes
  pub port : ℕ
  pub health : Health

-- A snapshot, as the formats read it.
pub record Table : Type 0 where
  pub peers : List Entry
  pub total : ℕ
  pub up : ℕ
  pub generation : ℕ

-- The difference of two ngx_uint_t.
unfoldable pub minus : ℕ → ℕ → ℕ
minus a b = u64 (a + 2 ^ 64 - b)

pub minus-of_le : (a b : ℕ) → b ≤ a → a ≤ u64_max → minus a b ≡ a - b
unfolding minus
minus-of_le a b h k = omega arith

-- down ? "down" : "up"
abbrev pub status : Bool → Bytes
status true = codes "down"
status false = codes "up"

-- The generation of the page: that of the streams, if they have one.
abbrev pub generation_of : Table → Table → ℕ
generation_of http stream = if stream.generation == 0 then http.generation else stream.generation

-- The loop over the peers; what the flag hides is passed over.
unfoldable pub each : ℕ → (Entry → Print) → List Entry → Print
each flag row [] = done
each flag row (p ∷ ps) =
    let rest = each flag row ps in if is_hidden flag p.health.down then rest else (row p then rest)

-- The peers that the flag lets through.
abbrev pub visible : ℕ → List Entry → List Entry
visible flag [] = []
visible flag (p ∷ ps) =
    let rest = visible flag ps in if is_hidden flag p.health.down then rest else p ∷ rest

abbrev pub join_map : (Entry → Bytes) → List Entry → Bytes
join_map text [] = []
join_map text (p ∷ ps) = text p ++ join_map text ps

-- If `row` prints the text of a peer, the loop prints those of the visible peers, in order.
pub each-Prints :
    (alloc : ℕ → Bool) (flag : ℕ) (row : Entry → Print) (text : Entry → Bytes) (ps : List Entry)
    → ((p : Entry) → Prints alloc (row p) (text p))
    → Prints alloc (each flag row ps) (join_map text (visible flag ps))
unfolding each
each-Prints alloc flag row text [] prints = done-Prints alloc
each-Prints alloc flag row text (p ∷ ps) prints =
    let rest = each-Prints alloc flag row text ps prints in
    elim (Bool-cases (is_hidden flag p.health.down)) [
      | inl hidden ↦ rw hidden rest
      | inr shows ↦ rw shows (then-Prints (prints p) rest)
    ]
