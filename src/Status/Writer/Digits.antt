-- ===== src/Status/Writer/Digits.antt =====
-- ngx_healthcheck_status_writer_append_uint: a number in decimal, in a buffer of NGX_INT64_LEN bytes.
use nginx_healthcheck_module.Base.{
  ℕ, zero, suc, ◌+◌, ◌-◌, ◌*◌, ◌/◌, ◌%◌, ◌≤◌, ◌<◌, ◌≡◌, ap, ◌∙◌, Bool, Option, none, some, [], ◌∷◌,
  ◌++◌, append-nil, append_assoc, refl, sym, ◌==◌, if◌then◌else◌, inl, inr, arith, Bool-cases,
  u64_max, Bytes,
}
use nginx_healthcheck_module.Status.Writer.{Writer, append}

-- The loop with `room` bytes left in the buffer in front of `bytes`; `none` is a write before it.
unfoldable pub digits : ℕ → ℕ → Bytes → Option Bytes
digits zero value bytes = none
digits (suc room) value bytes =
    let all = digits room (value / 10) ((48 + value % 10) ∷ bytes) in
    if value / 10 == 0 then some ((48 + value % 10) ∷ bytes) else all

unfoldable pub append_uint : (ℕ → Bool) → Writer → ℕ → ℕ → Option (Writer × ℕ)
append_uint alloc w value t = elim (digits 20 value []) [
  | none ↦ none
  | some bytes ↦ append alloc w bytes t
]

-- The number that decimal digits stand for, behind the digits of `n`.
pub value_from : ℕ → Bytes → ℕ
value_from n [] = n
value_from n (b ∷ bytes) = value_from (n * 10 + (b - 48)) bytes

ten_to : ℕ → ℕ
ten_to zero = 1
ten_to (suc k) = 10 * ten_to k

div-ten : (v k : ℕ) → v < ten_to (suc k) → v / 10 < ten_to k
unfolding ten_to
div-ten v k h = ground arith

room-pos : (room v : ℕ) → v < ten_to room → 0 < v → 0 < room
unfolding ten_to
room-pos zero v small h = absurd (ground arith)
room-pos (suc room) v small h = omega arith

digit_more : (v : ℕ) → v / 10 * 10 + (48 + v % 10 - 48) ≡ v
digit_more v = omega arith

digit_last : (v : ℕ) → v / 10 ≡ 0 → 0 * 10 + (48 + v % 10 - 48) ≡ v
digit_last v h = omega arith

digits-value :
    (room value : ℕ) (bytes : Bytes)
    → value < ten_to room
    → 0 < room
    → (all : Bytes) × (digits room value bytes ≡ some all)
      × (value_from 0 all ≡ value_from value bytes)
unfolding digits value_from
digits-value zero value bytes small h = absurd (ground arith)
digits-value (suc room) value bytes small h = elim (Bool-cases (value / 10 == 0)) [
  | inl last ↦ (
    (48 + value % 10) ∷ bytes,
    ground arith,
    ap (λ n. value_from n bytes) (digit_last value (ground arith)),
  )
  | inr more ↦
      let (all, fits, same) =
        digits-value room (value / 10) ((48 + value % 10) ∷ bytes) (div-ten value room small)
          (room-pos room (value / 10) (div-ten value room small) (ground arith)) in
      (all, ground (arith, fits), same ∙ ap (λ n. value_from n bytes) (digit_more value))
]

-- Every 64-bit number is written without running out of the 20 bytes of the buffer, as digits that
-- stand for it.
pub digits-u64 :
    (value : ℕ)
    → value ≤ u64_max
    → (all : Bytes) × (digits 20 value [] ≡ some all) × (value_from 0 all ≡ value)
unfolding value_from ten_to
digits-u64 value h = digits-value 20 value [] (omega arith) (omega arith)

-- The decimal digits of a number, the first one first; `room` is how many there may be.
unfoldable pub decimal_in : ℕ → ℕ → Bytes
decimal_in zero n = []
decimal_in (suc room) n =
    let front = decimal_in room (n / 10) in
    (if n / 10 == 0 then [] else front) ++ (48 + n % 10) ∷ []

unfoldable pub decimal : ℕ → Bytes
decimal n = decimal_in 20 n

digits-decimal_in :
    (room n : ℕ) (bytes : Bytes)
    → n < ten_to room
    → 0 < room
    → digits room n bytes ≡ some (decimal_in room n ++ bytes)
unfolding digits decimal_in
digits-decimal_in zero n bytes small h = absurd (ground arith)
digits-decimal_in (suc room) n bytes small h = elim (Bool-cases (n / 10 == 0)) [
  | inl last ↦ rw last refl
  | inr more ↦ rw more (
      digits-decimal_in room (n / 10) ((48 + n % 10) ∷ bytes) (div-ten n room small)
        (room-pos room (n / 10) (div-ten n room small) (ground arith))
      ∙ ap some (sym (append_assoc (decimal_in room (n / 10)) ((48 + n % 10) ∷ []) bytes)))
]

-- A 64-bit number is written as its decimal digits.
pub append_uint-decimal :
    (alloc : ℕ → Bool) (w : Writer) (n t : ℕ)
    → n ≤ u64_max
    → append_uint alloc w n t ≡ append alloc w (decimal n) t
unfolding append_uint decimal ten_to
append_uint-decimal alloc w n t h =
    let written : digits 20 n [] ≡ some (decimal n) =
      digits-decimal_in 20 n [] (omega arith) (omega arith)
      ∙ ap some (append-nil (decimal_in 20 n)) in
    rw (written, append_uint) refl
