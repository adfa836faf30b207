-- ===== src/Status/Writer/Blocks.antt =====
-- What a writer has after a turn of the loop of an append.
use nginx_healthcheck_module.Base.{
  ℕ, zero, suc, ◌+◌, ◌-◌, ◌^◌, ◌≤◌, ◌<◌, ◌≡◌, refl, sym, ap, subst, ◌∙◌, inl, inr, Bool, true,
  false, some, List, [], ◌∷◌, ◌++◌, append-nil, append_assoc, length, length-append, length-drop,
  take, drop, min, Bytes, arith, Bool-cases,
}
use nginx_healthcheck_module.Status.Writer.{
  Writer, init, block_size, text_of, add_block, is_full, with_room, copy_part,
}

take-drop : (n : ℕ) (s : Bytes) → take n s ++ drop n s ≡ s
take-drop zero s = refl
take-drop (suc n) [] = refl
take-drop (suc n) (x ∷ s) = ap (λ r. x ∷ r) (take-drop n s)

length-take : (n : ℕ) (s : Bytes) → length (take n s) ≡ min n (length s)
length-take zero s = omega arith
length-take (suc n) [] = omega arith
length-take (suc n) (x ∷ s) = omega (arith, length-take n s)

-- All blocks behind the newest one are full.
pub AllFull : List Bytes → Type 0
AllFull [] = Unit
AllFull (b ∷ bs) = (length b ≡ block_size) × AllFull bs

pub IsChain : List Bytes → Type 0
IsChain [] = Unit
IsChain (b ∷ bs) = (length b ≤ block_size) × AllFull bs

pub record IsWriter (w : Writer) : Type 0 where
  pub chained : IsChain w.chain
  pub measured : w.length ≡ length (text_of w.chain)
  pub numbered : w.blocks ≡ length w.chain

pub init-IsWriter : IsWriter init
unfolding IsChain
init-IsWriter = record { chained = tt; measured = refl; numbered = refl }

full-AllFull : (bs : List Bytes) → IsChain bs → is_full bs ≡ true → AllFull bs
unfolding AllFull IsChain
full-AllFull [] c h = tt
full-AllFull (b ∷ bs) c h = (ground arith, c.1)

add_block-IsWriter :
    (w : Writer)
    → IsWriter w
    → is_full w.chain ≡ true
    → IsWriter (record w { chain = [] ∷ w.chain; blocks = w.blocks + 1 })
unfolding AllFull IsChain
add_block-IsWriter w q full = record {
  chained = (omega arith, full-AllFull w.chain q.chained full);
  measured = q.measured ∙ ap length (sym (append-nil (text_of w.chain)));
  numbered = ground (arith, q.numbered);
}

-- The bytes that are copied into a block `b` in front of full ones.
grown-IsWriter :
    (w : Writer) (b : Bytes) (bs : List Bytes) (s : Bytes)
    → IsWriter w
    → w.chain ≡ b ∷ bs
    → length b + length s ≤ block_size
    → IsWriter (record w { chain = (b ++ s) ∷ bs; length = w.length + length s })
unfolding IsChain
grown-IsWriter w b bs s q at fits =
    let c = subst IsChain at q.chained in
    record {
      chained = (omega (arith, length-append b s), c.1);
      measured = omega (
        arith,
        q.measured,
        ap (λ c. length (text_of c)) at,
        length-append (text_of bs) b,
        length-append b s,
        length-append (text_of bs) (b ++ s),
      );
      numbered = q.numbered ∙ ap length at;
    }

pub room-IsWriter :
    (alloc : ℕ → Bool) (w v : Writer) (t u : ℕ)
    → IsWriter w
    → with_room alloc w t ≡ some (v, u)
    → IsWriter v × (text_of v.chain ≡ text_of w.chain) × (is_full v.chain ≡ false)
unfolding add_block
room-IsWriter alloc w v t u q h = elim (Bool-cases (is_full w.chain)) [
  | inl full ↦
      let added : v ≡ record w { chain = [] ∷ w.chain; blocks = w.blocks + 1 } = ground arith in
      rw added (add_block-IsWriter w q full, append-nil (text_of w.chain), refl)
  | inr roomy ↦ let same : v ≡ w = ground arith in rw same (q, refl, roomy)
]

copied-text : (n : ℕ) (t b s : Bytes) → (t ++ (b ++ take n s)) ++ drop n s ≡ (t ++ b) ++ s
copied-text n t b s =
    append_assoc t (b ++ take n s) (drop n s)
    ∙ ap (λ r. t ++ r) (append_assoc b (take n s) (drop n s) ∙ ap (λ r. b ++ r) (take-drop n s))
    ∙ sym (append_assoc t b s)

abbrev part : Bytes → Bytes → ℕ
part b bytes = min (block_size - length b) (length bytes)

copied-IsWriter :
    (w v : Writer) (bytes rest : Bytes) (c : List Bytes)
    → IsWriter w
    → w.chain ≡ c
    → copy_part w bytes ≡ some (v, rest)
    → IsWriter v × (text_of v.chain ++ rest ≡ text_of w.chain ++ bytes)
unfolding copy_part IsChain
copied-IsWriter w v bytes rest [] q at h = absurd (ground arith)
copied-IsWriter w v bytes rest (b ∷ bs) q at h =
    let n = part b bytes in
    let grown : v
        ≡ record w { chain = (b ++ take n bytes) ∷ bs; length = w.length + length (take n bytes) } =
      ground (arith, length-take n bytes) in
    let left : rest ≡ drop n bytes = ground arith in
    let c = subst IsChain at q.chained in
    rw (grown, left, at)
      (
        grown-IsWriter w b bs (take n bytes) q at (omega (arith, length-take n bytes, c.0)),
        copied-text n (text_of bs) b bytes,
      )

pub copy_part-IsWriter :
    (w v : Writer) (bytes rest : Bytes)
    → IsWriter w
    → copy_part w bytes ≡ some (v, rest)
    → IsWriter v × (text_of v.chain ++ rest ≡ text_of w.chain ++ bytes)
unfolding copy_part
copy_part-IsWriter w v bytes rest q h = copied-IsWriter w v bytes rest w.chain q refl h

pub room-some :
    (alloc : ℕ → Bool) (w : Writer) (t : ℕ)
    → ((k : ℕ) → alloc k ≡ true)
    → (v : Writer) × (u : ℕ) × (with_room alloc w t ≡ some (v, u)) × (v.length ≡ w.length)
unfolding add_block
room-some alloc w t memory = elim (Bool-cases (is_full w.chain)) [
  | inl full ↦ (
    record w { chain = [] ∷ w.chain; blocks = w.blocks + 1 },
    t + 3,
    ground (arith, memory t, memory (t + 1), memory (t + 2)),
    refl,
  )
  | inr roomy ↦ (w, t, ground arith, refl)
]

-- A turn of the loop that has room copies a byte at least.
pub record Copied (w : Writer) (bytes : Bytes) : Type 0 where
  pub next : Writer
  pub rest : Bytes
  pub copied : copy_part w bytes ≡ some (next, rest)
  pub accounted : next.length + length rest ≡ w.length + length bytes
  pub progress : length rest < length bytes

pub Copied-some :
    (w : Writer) (bytes : Bytes) (c : List Bytes)
    → IsChain c
    → w.chain ≡ c
    → is_full c ≡ false
    → w.length + length bytes ≤ 2 ^ 63 - 1
    → 0 < length bytes
    → Copied w bytes
unfolding copy_part IsChain
Copied-some w bytes [] q at roomy fits some_bytes = absurd (ground arith)
Copied-some w bytes (b ∷ bs) q at roomy fits some_bytes =
    let n = part b bytes in
    record {
      next = record w { chain = (b ++ take n bytes) ∷ bs; length = w.length + n };
      rest = drop n bytes;
      copied = ground arith;
      accounted = omega (arith, length-drop n bytes);
      progress = ground (arith, q.0, length-drop n bytes);
    }
