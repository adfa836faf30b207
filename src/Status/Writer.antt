-- ===== src/Status/Writer.antt =====
-- ngx_healthcheck_status_writer.c: text in a chain of blocks of one size.
pub mod Blocks
pub mod Appends
pub mod Digits
pub mod Prints
pub mod Printf
use nginx_healthcheck_module.Base.{
  ℕ, zero, suc, ◌+◌, ◌-◌, ◌/◌, ◌%◌, ◌^◌, Bool, true, false, not, ◌&&◌, ◌||◌, Option, none, some,
  List, [], ◌∷◌, ◌++◌, length, take, drop, ltb, ◌==◌, if◌then◌else◌, min, Bytes, codes,
}

-- NGX_HEALTHCHECK_STATUS_BLOCK_SIZE.
abbrev pub block_size : ℕ
block_size = 131_072

-- The bytes of the blocks, the newest block first; `length` is the sum that the writer keeps.
pub record Writer : Type 0 where
  pub chain : List Bytes
  pub length : ℕ
  pub blocks : ℕ

abbrev pub init : Writer
init = record { chain = []; length = 0; blocks = 0 }

-- The text so far.
abbrev pub text_of : List Bytes → Bytes
text_of [] = []
text_of (b ∷ bs) = text_of bs ++ b

-- The chain link, the buffer and the block are the allocations `t`, `t + 1` and `t + 2`.
unfoldable pub add_block : (ℕ → Bool) → Writer → ℕ → Option Writer
add_block alloc w t =
    if not (alloc t) || not (alloc (t + 1)) || not (alloc (t + 2))
    then none
    else some (record w { chain = [] ∷ w.chain; blocks = w.blocks + 1 })

-- There is no block, or the newest one is full.
abbrev pub is_full : List Bytes → Bool
is_full [] = true
is_full (b ∷ bs) = length b == block_size

abbrev pub with_room : (ℕ → Bool) → Writer → ℕ → Option (Writer × ℕ)
with_room alloc w t =
    if is_full w.chain
    then elim (add_block alloc w t) [ none ↦ none | some v ↦ some (v, t + 3) ]
    else some (w, t)

-- As many bytes as fit into the newest block; what is left of them.
unfoldable pub copy_part : Writer → Bytes → Option (Writer × Bytes)
copy_part w bytes = elim w.chain [
  | [] ↦ none
  | b ∷ bs ↦
      let copy = min (block_size - length b) (length bytes) in
      if ltb (2 ^ 63 - 1 - copy) w.length
      then none
      else some (
        record w { chain = (b ++ take copy bytes) ∷ bs; length = w.length + copy },
        drop copy bytes,
      )
]

-- The loop; each turn copies a byte at least, so the number of bytes is fuel enough.
unfoldable pub append_loop : (ℕ → Bool) → ℕ → Writer → Bytes → ℕ → Option (Writer × ℕ)
append_loop alloc zero w [] t = some (w, t)
append_loop alloc zero w (x ∷ bytes) t = none
append_loop alloc (suc fuel) w bytes t =
    if length bytes == 0 then some (w, t) else elim (with_room alloc w t) [
      | none ↦ none
      | some (v, u) ↦ elim (copy_part v bytes) [
        | none ↦ none
        | some (v', rest) ↦ append_loop alloc fuel v' rest u
      ]
    ]

unfoldable pub append : (ℕ → Bool) → Writer → Bytes → ℕ → Option (Writer × ℕ)
append alloc w bytes t = append_loop alloc (length bytes) w bytes t
