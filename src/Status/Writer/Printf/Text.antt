-- ===== src/Status/Writer/Printf/Text.antt =====
-- What ngx_healthcheck_status_writer_printf is to write: a format is the spelling of pieces of text and of
-- arguments, and is printed as the pieces in a row.
use nginx_healthcheck_module.Base.{
  ℕ, ◌≤◌, ◌≡◌, refl, ap, ◌∙◌, subst, inl, inr, Bool, true, false, none, some, List, [], ◌∷◌, ◌++◌,
  append-nil, append_assoc, ◌==◌, not, ◌&&◌, append_assoc, if◌then◌else◌, u64, u64_max, Bytes,
  codes, arith, Bool-cases, Option-cases,
}
use nginx_healthcheck_module.Status.Writer.{Writer, append}
use nginx_healthcheck_module.Status.Writer.Digits.{
  append_uint, decimal_in, decimal, append_uint-decimal,
}
use nginx_healthcheck_module.Status.Writer.Prints.{
  Print, ◌then◌, Prints, append-Prints, done-Prints, eq-Prints, then-Prints,
}
use nginx_healthcheck_module.Status.Writer.Printf.{
  Arg, str, string, uint, msec, until_nul, print_arg, Scan, literal, directive, unsigned, ready,
  flush, take_arg, scan_byte, scan_format, printf,
}

-- An argument as text; of the milliseconds, the largest value is -1.
unfoldable pub show : Arg → Bytes
show (str s) = s
show (string s) = until_nul s
show (uint n) = decimal (u64 n)
show (msec n) = if u64 n == u64_max then codes "-1" else decimal (u64 n)

uint-Prints :
    (alloc : ℕ → Bool) (n : ℕ)
    → n ≤ u64_max
    → Prints alloc (λ w t. append_uint alloc w n t) (decimal n)
uint-Prints alloc n h =
    eq-Prints alloc (λ w t. append_uint alloc w n t) (λ w t. append alloc w (decimal n) t)
      (decimal n) (λ w t. append_uint-decimal alloc w n t h) (append-Prints alloc (decimal n))

print_arg-Prints : (alloc : ℕ → Bool) (a : Arg) → Prints alloc (print_arg alloc a) (show a)
unfolding print_arg show decimal decimal_in
print_arg-Prints alloc (str s) = append-Prints alloc s
print_arg-Prints alloc (string s) = append-Prints alloc (until_nul s)
print_arg-Prints alloc (uint n) = uint-Prints alloc (u64 n) (omega arith)
print_arg-Prints alloc (msec n) = elim (Bool-cases (u64 n == u64_max)) [
  | inl minus ↦
      let both : Print =
        (λ v u. append alloc v (codes "-") u) then (λ v u. append_uint alloc v 1 u) in
      rw minus (
        eq-Prints alloc (print_arg alloc (msec n)) both (codes "-1")
          (λ w t. rw (minus, print_arg) refl)
          (then-Prints (append-Prints alloc (codes "-")) (uint-Prints alloc 1 (omega arith))))
  | inr number ↦ rw number (
      eq-Prints alloc (print_arg alloc (msec n)) (λ w t. append_uint alloc w (u64 n) t)
        (decimal (u64 n)) (λ w t. rw (number, print_arg) refl)
        (uint-Prints alloc (u64 n) (omega arith)))
]

-- A piece of a format: bytes that print as they are, a '%', or a directive with its argument.
pub data Piece : Type 0 where
  plain : Bytes → Piece
  percent : Piece
  filled : Arg → Piece

-- In the format, a directive behind its '%'.
abbrev pub letters : Arg → Bytes
letters (str s) = codes "V"
letters (string s) = codes "s"
letters (uint n) = codes "ui"
letters (msec n) = codes "M"

abbrev pub spell : Piece → Bytes
spell (plain s) = s
spell percent = codes "%%"
spell (filled a) = b'%' ∷ letters a

abbrev pub spell_all : List Piece → Bytes
spell_all [] = []
spell_all (p ∷ ps) = spell p ++ spell_all ps

-- Among the arguments.
abbrev pub args_of : List Piece → List Arg
args_of [] = []
args_of (plain s ∷ ps) = args_of ps
args_of (percent ∷ ps) = args_of ps
args_of (filled a ∷ ps) = a ∷ args_of ps

-- In the text.
abbrev pub render : Piece → Bytes
render (plain s) = s
render percent = codes "%"
render (filled a) = show a

abbrev pub render_all : List Piece → Bytes
render_all [] = []
render_all (p ∷ ps) = render p ++ render_all ps

-- Bytes without a '%'.
abbrev pub is_plain : Bytes → Bool
is_plain [] = true
is_plain (b ∷ bytes) = not (b == b'%') && is_plain bytes

abbrev pub are_plain : List Piece → Bool
are_plain [] = true
are_plain (plain s ∷ ps) = is_plain s && are_plain ps
are_plain (percent ∷ ps) = are_plain ps
are_plain (filled a ∷ ps) = are_plain ps

-- The scan of the format from a literal on.
abbrev scan_from : (ℕ → Bool) → Bytes → Bytes → List Arg → Print
scan_from alloc format bytes args w t =
    scan_format alloc format (record { scan = literal bytes; args = args; writer = w; tick = t })

scan_from-plain :
    (alloc : ℕ → Bool) (s format bytes : Bytes) (args : List Arg) (w : Writer) (t : ℕ)
    → is_plain s ≡ true
    → scan_from alloc (s ++ format) bytes args w t ≡ scan_from alloc format (bytes ++ s) args w t
unfolding scan_format scan_byte
scan_from-plain alloc [] format bytes args w t h = rw (append-nil bytes) refl
scan_from-plain alloc (b ∷ s) format bytes args w t h = elim (Bool-cases (b == b'%')) [
  | inl bad ↦ absurd (ground arith)
  | inr good ↦
      rw (good, scan_format, scan_byte)
        (scan_from-plain alloc s format (bytes ++ b ∷ []) args w t (ground arith)
          ∙ ap (λ x. scan_from alloc format x args w t) (append_assoc bytes (b ∷ []) s))
]

-- The scan behind a '%'.
abbrev scan_behind : (ℕ → Bool) → Bytes → List Arg → Print
scan_behind alloc format args w t =
    scan_format alloc format (record { scan = directive; args = args; writer = w; tick = t })

-- At a '%', the literal in front of it is flushed.
scan_from-flush :
    (alloc : ℕ → Bool) (format bytes : Bytes) (args : List Arg) (w : Writer) (t : ℕ)
    → scan_from alloc (b'%' ∷ format) bytes args w t
      ≡ (flush alloc bytes then scan_behind alloc format args) w t
unfolding scan_format scan_byte ◌then◌
scan_from-flush alloc format bytes args w t = elim (Option-cases (flush alloc bytes w t)) [
  | inl fails ↦ rw (fails, scan_format, scan_byte, ◌then◌) refl
  | inr (v, goes) ↦ rw (goes, scan_format, scan_byte, ◌then◌) refl
]

-- What has been printed, and the scan goes on.
scan_ready :
    (alloc : ℕ → Bool) (p : Print) (format : Bytes) (args : List Arg) (w : Writer) (t : ℕ)
    → (elim (ready args (p w t)) [ none ↦ none | some q ↦ scan_format alloc format q ])
      ≡ (p then scan_from alloc format [] args) w t
unfolding ◌then◌
scan_ready alloc p format args w t = elim (Option-cases (p w t)) [
  | inl fails ↦ rw (fails, ◌then◌) refl
  | inr (v, goes) ↦ rw (goes, ◌then◌) refl
]

scan_behind-filled :
    (alloc : ℕ → Bool) (a : Arg) (format : Bytes) (args : List Arg) (w : Writer) (t : ℕ)
    → scan_behind alloc (letters a ++ format) (a ∷ args) w t
      ≡ (print_arg alloc a then scan_from alloc format [] args) w t
unfolding scan_format scan_byte take_arg
scan_behind-filled alloc (str s) format args w t =
    scan_ready alloc (print_arg alloc (str s)) format args w t
scan_behind-filled alloc (string s) format args w t =
    scan_ready alloc (print_arg alloc (string s)) format args w t
scan_behind-filled alloc (uint n) format args w t =
    scan_ready alloc (print_arg alloc (uint n)) format args w t
scan_behind-filled alloc (msec n) format args w t =
    scan_ready alloc (print_arg alloc (msec n)) format args w t

scan_behind-percent :
    (alloc : ℕ → Bool) (format : Bytes) (args : List Arg) (w : Writer) (t : ℕ)
    → scan_behind alloc (b'%' ∷ format) args w t
      ≡ ((λ v u. append alloc v (codes "%") u) then scan_from alloc format [] args) w t
unfolding scan_format scan_byte
scan_behind-percent alloc format args w t =
    scan_ready alloc (λ v u. append alloc v (codes "%") u) format args w t

flush-Prints : (alloc : ℕ → Bool) (bytes : Bytes) → Prints alloc (flush alloc bytes) bytes
unfolding flush
flush-Prints alloc [] = done-Prints alloc
flush-Prints alloc (b ∷ bytes) = append-Prints alloc (b ∷ bytes)

-- A directive that `p` prints, behind a literal.
directive-Prints :
    (alloc : ℕ → Bool) (p : Print) (format rest bytes out more : Bytes) (args args' : List Arg)
    → ((w : Writer) (t : ℕ)
        → scan_behind alloc format args w t ≡ (p then scan_from alloc rest [] args') w t)
    → Prints alloc p out
    → Prints alloc (scan_from alloc rest [] args') more
    → Prints alloc (scan_from alloc (b'%' ∷ format) bytes args) (bytes ++ (out ++ more))
directive-Prints alloc p format rest bytes out more args args' same prints goes_on =
    let next = scan_from alloc rest [] args' in
    eq-Prints alloc (scan_from alloc (b'%' ∷ format) bytes args)
      (flush alloc bytes then scan_behind alloc format args) (bytes ++ (out ++ more))
      (λ w t. scan_from-flush alloc format bytes args w t)
      (then-Prints (flush-Prints alloc bytes) (
        eq-Prints alloc (scan_behind alloc format args) (p then next) (out ++ more) same
          (then-Prints prints goes_on)))

scan_from-Prints :
    (alloc : ℕ → Bool) (ps : List Piece) (bytes : Bytes)
    → are_plain ps ≡ true
    → Prints alloc (scan_from alloc (spell_all ps) bytes (args_of ps)) (bytes ++ render_all ps)
unfolding scan_format
scan_from-Prints alloc [] bytes h = rw (append-nil bytes) (flush-Prints alloc bytes)
scan_from-Prints alloc (plain s ∷ ps) bytes h =
    eq-Prints alloc (scan_from alloc (s ++ spell_all ps) bytes (args_of ps))
      (scan_from alloc (spell_all ps) (bytes ++ s) (args_of ps)) (bytes ++ (s ++ render_all ps))
      (λ w t. scan_from-plain alloc s (spell_all ps) bytes (args_of ps) w t (ground arith))
      (subst (Prints alloc (scan_from alloc (spell_all ps) (bytes ++ s) (args_of ps)))
        (append_assoc bytes s (render_all ps))
        (scan_from-Prints alloc ps (bytes ++ s) (ground arith)))
scan_from-Prints alloc (percent ∷ ps) bytes h =
    directive-Prints alloc (λ v u. append alloc v (codes "%") u) (b'%' ∷ spell_all ps)
      (spell_all ps) bytes (codes "%") (render_all ps) (args_of ps) (args_of ps)
      (λ w t. scan_behind-percent alloc (spell_all ps) (args_of ps) w t)
      (append-Prints alloc (codes "%")) (scan_from-Prints alloc ps [] h)
scan_from-Prints alloc (filled a ∷ ps) bytes h =
    directive-Prints alloc (print_arg alloc a) (letters a ++ spell_all ps) (spell_all ps) bytes
      (show a) (render_all ps) (a ∷ args_of ps) (args_of ps)
      (λ w t. scan_behind-filled alloc a (spell_all ps) (args_of ps) w t) (print_arg-Prints alloc a)
      (scan_from-Prints alloc ps [] h)

-- On a sound writer, a format that spells pieces, with their arguments, prints the pieces if it succeeds, and
-- it succeeds if the text stays below 2 ^ 63 bytes and memory does not run out.
pub printf-Prints :
    (alloc : ℕ → Bool) (ps : List Piece)
    → are_plain ps ≡ true
    → Prints alloc (printf alloc (spell_all ps) (args_of ps)) (render_all ps)
unfolding printf
printf-Prints alloc ps h =
    eq-Prints alloc (printf alloc (spell_all ps) (args_of ps))
      (scan_from alloc (spell_all ps) [] (args_of ps)) (render_all ps) (λ w t. refl)
      (scan_from-Prints alloc ps [] h)

-- The pieces that a format spells with its arguments, for a scan that begins here.
unfoldable pub pieces_from : Scan → Bytes → List Arg → List Piece
pieces_from s [] args = []
pieces_from (literal bytes) (c ∷ format) args = elim (c == b'%') [
  | true ↦ pieces_from directive format args
  | false ↦ plain (c ∷ []) ∷ pieces_from (literal []) format args
]
pieces_from directive (c ∷ format) args = elim (c == b'%') [
  | true ↦ percent ∷ pieces_from (literal []) format args
  | false ↦ elim (c == b'u') [
    | true ↦ pieces_from unsigned format args
    | false ↦ elim args [ [] ↦ [] | a ∷ args' ↦ filled a ∷ pieces_from (literal []) format args' ]
  ]
]
pieces_from unsigned (c ∷ format) args = elim args [
  | [] ↦ []
  | a ∷ args' ↦ filled a ∷ pieces_from (literal []) format args'
]

unfoldable pub pieces : Bytes → List Arg → List Piece
pieces format args = pieces_from (literal []) format args
