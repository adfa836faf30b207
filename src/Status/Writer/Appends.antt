-- ===== src/Status/Writer/Appends.antt =====
-- What a writer has after an append.
use nginx_healthcheck_module.Base.{
  ℕ, zero, suc, ◌+◌, ◌-◌, ◌^◌, ◌≤◌, ◌≡◌, refl, sym, ap, ◌∙◌, inl, inr, Bool, true, some, [], ◌∷◌,
  ◌++◌, append-nil, length, Bytes, arith, Option-cases,
}
use nginx_healthcheck_module.Status.Writer.{
  Writer, text_of, with_room, copy_part, append_loop, append,
}
use nginx_healthcheck_module.Status.Writer.Blocks.{
  IsWriter, room-IsWriter, copy_part-IsWriter, room-some, Copied-some,
}

append_loop-IsWriter :
    (alloc : ℕ → Bool) (fuel : ℕ) (w v : Writer) (bytes : Bytes) (t u : ℕ)
    → IsWriter w
    → append_loop alloc fuel w bytes t ≡ some (v, u)
    → IsWriter v × (text_of v.chain ≡ text_of w.chain ++ bytes)
unfolding append_loop
append_loop-IsWriter alloc zero w v [] t u q h =
    let same : v ≡ w = ground arith in rw same (q, sym (append-nil (text_of w.chain)))
append_loop-IsWriter alloc zero w v (x ∷ bytes) t u q h = absurd (ground arith)
append_loop-IsWriter alloc (suc fuel) w v [] t u q h =
    let same : v ≡ w = ground arith in rw same (q, sym (append-nil (text_of w.chain)))
append_loop-IsWriter alloc (suc fuel) w v (x ∷ bytes) t u q h =
    elim (Option-cases (with_room alloc w t)) [
      | inl fails ↦ absurd (ground arith)
      | inr ((w', t'), room) ↦ elim (Option-cases (copy_part w' (x ∷ bytes))) [
        | inl fails ↦ absurd (ground arith)
        | inr ((v', rest), copied) ↦
            let (q', same, roomy) = room-IsWriter alloc w w' t t' q room in
            let (r, joined) = copy_part-IsWriter w' v' (x ∷ bytes) rest q' copied in
            let (r', text) = append_loop-IsWriter alloc fuel v' v rest t' u r (ground arith) in
            (r', text ∙ joined ∙ ap (λ s. s ++ (x ∷ bytes)) same)
      ]
    ]

-- After an append to a sound writer that succeeds, the text is the old text and the new bytes, every block but the
-- newest is full, and the length that is sent is that of the text.
pub append-IsWriter :
    (alloc : ℕ → Bool) (w v : Writer) (bytes : Bytes) (t u : ℕ)
    → IsWriter w
    → append alloc w bytes t ≡ some (v, u)
    → IsWriter v × (text_of v.chain ≡ text_of w.chain ++ bytes)
unfolding append
append-IsWriter alloc w v bytes t u q h =
    append_loop-IsWriter alloc (length bytes) w v bytes t u q h

append_loop-some :
    (alloc : ℕ → Bool) (fuel : ℕ) (w : Writer) (bytes : Bytes) (t : ℕ)
    → IsWriter w
    → ((k : ℕ) → alloc k ≡ true)
    → length bytes ≤ fuel
    → w.length + length bytes ≤ 2 ^ 63 - 1
    → (v : Writer) × (u : ℕ) × (append_loop alloc fuel w bytes t ≡ some (v, u))
unfolding append_loop
append_loop-some alloc zero w [] t q memory fuel_left fits = (w, t, refl)
append_loop-some alloc zero w (x ∷ bytes) t q memory fuel_left fits = absurd (ground arith)
append_loop-some alloc (suc fuel) w [] t q memory fuel_left fits = (w, t, refl)
append_loop-some alloc (suc fuel) w (x ∷ bytes) t q memory fuel_left fits =
    let (w', t', room, same) = room-some alloc w t memory in
    let (q', text, roomy) = room-IsWriter alloc w w' t t' q room in
    let k = Copied-some w' (x ∷ bytes) w'.chain q'.chained refl roomy (omega arith) (omega arith) in
    let r = copy_part-IsWriter w' k.next (x ∷ bytes) k.rest q' k.copied in
    let (v, u, done) =
      append_loop-some alloc fuel k.next k.rest t' r.0 memory (omega (arith, k.progress))
        (omega (arith, k.accounted)) in
    (v, u, ground (arith, room, k.copied, done))

-- If memory does not run out and the text stays below 2 ^ 63 bytes, an append to a sound writer
-- succeeds: its loop has fuel enough.
pub append-some :
    (alloc : ℕ → Bool) (w : Writer) (bytes : Bytes) (t : ℕ)
    → IsWriter w
    → ((k : ℕ) → alloc k ≡ true)
    → w.length + length bytes ≤ 2 ^ 63 - 1
    → (v : Writer) × (u : ℕ) × (append alloc w bytes t ≡ some (v, u))
unfolding append
append-some alloc w bytes t q memory fits =
    append_loop-some alloc (length bytes) w bytes t q memory (omega arith) fits
