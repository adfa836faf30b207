-- ===== src/Status/Writer/Prints.antt =====
-- Operations on a writer in a row, each one only if the one before it has answered NGX_OK, and what it is
-- for one of them to print a text.
use nginx_healthcheck_module.Base.{
  ℕ, ◌+◌, ◌-◌, ◌^◌, ◌≤◌, ◌≡◌, refl, sym, ap, ◌∙◌, inl, inr, Bool, true, Option, none, some, [],
  ◌++◌, append-nil, append_assoc, length, length-append, Bytes, arith, Option-cases,
}
use nginx_healthcheck_module.Status.Writer.{Writer, text_of, append}
use nginx_healthcheck_module.Status.Writer.Blocks.{IsWriter}
use nginx_healthcheck_module.Status.Writer.Appends.{append-IsWriter, append-some}

-- `none` is NGX_ERROR; the number counts the allocations.
abbrev pub Print : Type 0
Print = Writer → ℕ → Option (Writer × ℕ)

-- if (p(writer) != NGX_OK) return NGX_ERROR; then q(writer)
infixr 5 ◌then◌
unfoldable pub ◌then◌ : Print → Print → Print
(p then q) w t = elim (p w t) [ none ↦ none | some (v, u) ↦ q v u ]

-- Nothing, and NGX_OK.
abbrev pub done : Print
done w t = some (w, t)

-- On a sound writer, `p` adds `out` to the text if it succeeds, and it succeeds if the text stays below
-- 2 ^ 63 bytes and memory does not run out.
pub record Prints (alloc : ℕ → Bool) (p : Print) (out : Bytes) : Type 0 where
  pub text :
      (w v : Writer) (t u : ℕ)
      → IsWriter w
      → p w t ≡ some (v, u)
      → IsWriter v × (text_of v.chain ≡ text_of w.chain ++ out)
  pub success :
      (w : Writer) (t : ℕ)
      → IsWriter w
      → ((k : ℕ) → alloc k ≡ true)
      → w.length + length out ≤ 2 ^ 63 - 1
      → (v : Writer) × (u : ℕ) × (p w t ≡ some (v, u))

pub done-Prints : (alloc : ℕ → Bool) → Prints alloc done []
done-Prints alloc = record {
  text = λ w v t u q h.
      let same : v ≡ w = ground arith in rw same (q, sym (append-nil (text_of w.chain)));
  success = λ w t q memory fits. (w, t, refl);
}

pub append-Prints :
    (alloc : ℕ → Bool) (bytes : Bytes) → Prints alloc (λ w t. append alloc w bytes t) bytes
append-Prints alloc bytes = record {
  text = λ w v t u q h. append-IsWriter alloc w v bytes t u q h;
  success = λ w t q memory fits. append-some alloc w bytes t q memory fits;
}

-- What always does the same prints the same.
pub eq-Prints :
    (alloc : ℕ → Bool) (p q : Print) (out : Bytes)
    → ((w : Writer) (t : ℕ) → p w t ≡ q w t)
    → Prints alloc q out
    → Prints alloc p out
eq-Prints alloc p q out same other = record {
  text = λ w v t u s h. other.text w v t u s (sym (same w t) ∙ h);
  success = λ w t s memory fits.
      let (v, u, goes) = other.success w t s memory fits in (v, u, same w t ∙ goes);
}

pub then-some :
    (p q : Print) (w v : Writer) (t u : ℕ) → p w t ≡ some (v, u) → (p then q) w t ≡ q v u
unfolding ◌then◌
then-some p q w v t u goes = rw (goes, ◌then◌) refl

then-text :
    (alloc : ℕ → Bool) (p q : Print) (a b : Bytes)
    → Prints alloc p a
    → Prints alloc q b
    → (w v : Writer) (t u : ℕ) → IsWriter w
    → (p then q) w t ≡ some (v, u)
    → IsWriter v × (text_of v.chain ≡ text_of w.chain ++ (a ++ b))
unfolding ◌then◌
then-text alloc p q a b first second w v t u s h = elim (Option-cases (p w t)) [
  | inl fails ↦ absurd (ground arith)
  | inr ((w', t'), goes) ↦
      let (s', joined) = first.text w w' t t' s goes in
      let (s'', all) = second.text w' v t' u s' (ground arith) in
      (s'', all ∙ ap (λ x. x ++ b) joined ∙ append_assoc (text_of w.chain) a b)
]

then-success :
    (alloc : ℕ → Bool) (p q : Print) (a b : Bytes)
    → Prints alloc p a
    → Prints alloc q b
    → (w : Writer) (t : ℕ) → IsWriter w
    → ((k : ℕ) → alloc k ≡ true)
    → w.length + length (a ++ b) ≤ 2 ^ 63 - 1
    → (v : Writer) × (u : ℕ) × ((p then q) w t ≡ some (v, u))
then-success alloc p q a b first second w t s memory fits =
    let (w', t', goes) = first.success w t s memory (omega (arith, length-append a b)) in
    let (s', joined) = first.text w w' t t' s goes in
    let (v, u, goes') = second.success w' t' s' memory (
      omega (
        arith,
        length-append a b,
        s.measured,
        s'.measured,
        ap length joined,
        length-append (text_of w.chain) a,
      )) in
    (v, u, then-some p q w w' t t' goes ∙ goes')

pub then-Prints :
    {alloc : ℕ → Bool} {p q : Print} {a b : Bytes}
    → Prints alloc p a
    → Prints alloc q b
    → Prints alloc (p then q) (a ++ b)
then-Prints {alloc} {p} {q} {a} {b} first second = record {
  text = then-text alloc p q a b first second;
  success = then-success alloc p q a b first second;
}
