-- ===== src/Status/Writer/Printf.antt =====
-- ngx_healthcheck_status_writer_printf: the bytes of a format are read one by one.
pub mod Text
use nginx_healthcheck_module.Base.{
  ℕ, Bool, ◌||◌, Option, none, some, List, [], ◌∷◌, ◌++◌, ◌==◌, if◌then◌else◌, u64, u64_max, Bytes,
  codes,
}
use nginx_healthcheck_module.Status.Writer.{Writer, append}
use nginx_healthcheck_module.Status.Writer.Digits.{append_uint}
use nginx_healthcheck_module.Status.Writer.Prints.{Print, ◌then◌}

-- An argument: ngx_str_t *, const char * with the bytes there are behind it, ngx_uint_t, ngx_msec_t.
pub data Arg : Type 0 where
  str string : Bytes → Arg
  uint msec : ℕ → Arg

-- The directive that takes it; that of a number is the byte behind "%u".
abbrev pub letter : Arg → ℕ
letter (str s) = b'V'
letter (string s) = b's'
letter (uint n) = b'i'
letter (msec n) = b'M'

-- The bytes that ngx_strlen counts.
abbrev pub until_nul : Bytes → Bytes
until_nul [] = []
until_nul (b ∷ bytes) = let rest = until_nul bytes in if b == 0 then [] else b ∷ rest

-- What the case of a directive appends.
unfoldable pub print_arg : (ℕ → Bool) → Arg → Print
print_arg alloc (str s) w t = append alloc w s t
print_arg alloc (string s) w t = append alloc w (until_nul s) t
print_arg alloc (uint n) w t = append_uint alloc w (u64 n) t
print_arg alloc (msec n) w t =
    if u64 n == u64_max
    then ((λ v u. append alloc v (codes "-") u) then (λ v u. append_uint alloc v 1 u)) w t
    else append_uint alloc w (u64 n) t

-- Where the scan is: in a literal, of which it has read these bytes, behind a '%', or behind "%u".
pub data Scan : Type 0 where
  literal : Bytes → Scan
  directive unsigned : Scan

pub record Scanner : Type 0 where
  pub scan : Scan
  pub args : List Arg
  pub writer : Writer
  pub tick : ℕ

-- literal = fmt, behind a directive that has been printed.
abbrev pub ready : List Arg → Option (Writer × ℕ) → Option Scanner
ready args none = none
ready args (some (w, t)) = some (record { scan = literal []; args = args; writer = w; tick = t })

unfoldable pub flush : (ℕ → Bool) → Bytes → Print
flush alloc [] w t = some (w, t)
flush alloc (b ∷ bytes) w t = append alloc w (b ∷ bytes) t

-- va_arg, and the case of the directive; an argument of another type is undefined.
unfoldable pub take_arg : (ℕ → Bool) → ℕ → Scanner → Option Scanner
take_arg alloc c p = elim p.args [
  | [] ↦ none
  | a ∷ args ↦ if letter a == c then ready args (print_arg alloc a p.writer p.tick) else none
]

-- What a byte does.
unfoldable pub scan_byte : (ℕ → Bool) → ℕ → Scanner → Option Scanner
scan_byte alloc c p = elim p.scan [
  | literal bytes ↦
      if c == b'%'
      then elim (flush alloc bytes p.writer p.tick) [
        | none ↦ none
        | some (w, t) ↦ some (record p { scan = directive; writer = w; tick = t })
      ]
      else some (record p { scan = literal (bytes ++ c ∷ []) })
  | directive ↦
      if c == b'%'
      then ready p.args (append alloc p.writer (codes "%") p.tick)
      else if c == b'V' || c == b's' || c == b'M'
      then take_arg alloc c p
      else if c == b'u'
      then some (record p { scan = unsigned })
      else none
  | unsigned ↦ if c == b'i' then take_arg alloc c p else none
]

-- The loop, and what follows it at the end of the format, which is no directive.
unfoldable pub scan_format : (ℕ → Bool) → Bytes → Scanner → Option (Writer × ℕ)
scan_format alloc [] p = elim p.scan [
  | literal bytes ↦ flush alloc bytes p.writer p.tick
  | directive ↦ none
  | unsigned ↦ none
]
scan_format alloc (c ∷ format) p = elim (scan_byte alloc c p) [
  | none ↦ none
  | some q ↦ scan_format alloc format q
]

unfoldable pub printf : (ℕ → Bool) → Bytes → List Arg → Print
printf alloc format args w t =
    scan_format alloc format (record { scan = literal []; args = args; writer = w; tick = t })
