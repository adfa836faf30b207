-- ===== src/Status/Page/Arguments.antt =====
-- What the arguments of a request for the page ask for.
use nginx_healthcheck_module.Base.{
  ℕ, suc, ◌+◌, ◌≡◌, ◌≢◌, ◌<◌, subst, ◌⊎◌, leb, Bool, refl, sym, ap, ◌∙◌, inl, inr, true, false,
  ◌&&◌, Option, none, some, [], ◌∷◌, length, Bytes, codes, same_bytes, ◌==◌, arith, Bool-cases,
  Option-cases,
}
use nginx_healthcheck_module.Status.Page.{
  Format, html, csv, json, prometheus, find_format, get_format, lower, same_lower, chosen,
  command_format, command_status, commands, parse_from, parse_args, no_context,
}
use nginx_healthcheck_module.Status.Page.Legacy.{
  legacy_format_from, legacy_format, legacy_flag, legacy_chosen,
}

-- The number of a format on the older page, which has no Prometheus samples.
abbrev pub number_of : Option Format → Option ℕ
number_of none = none
number_of (some html) = some 0
number_of (some csv) = some 1
number_of (some json) = some 2
number_of (some prometheus) = none

-- The format that a value names, if there is a value.
abbrev pub named : Option Bytes → Option Format
named none = none
named (some value) = get_format value

-- The arguments but the format, from a context without a flag.
status-reads :
    (arg : Bytes → Option Bytes) (format : Option Format)
    → parse_from arg ((codes "status", command_status) ∷ []) (record { format = format; flag = 0 })
      ≡ record { format = format; flag = legacy_flag (arg (codes "status")) }
unfolding parse_from command_status legacy_flag
status-reads arg format = elim (Option-cases (arg (codes "status"))) [
  | inl missing ↦ rw (missing, parse_from, legacy_flag) refl
  | inr (value, at) ↦ elim (Bool-cases (length value == 4 && same_lower value (codes "down"))) [
    | inl down ↦ rw (at, down, parse_from, command_status, legacy_flag) refl
    | inr up ↦ elim (Bool-cases (length value == 2 && same_lower value (codes "up"))) [
      | inl is_up ↦ rw (at, up, is_up, parse_from, command_status, legacy_flag) refl
      | inr unknown ↦ rw (at, up, unknown, parse_from, command_status, legacy_flag) refl
    ]
  ]
]

format-reads :
    (value : Bytes)
    → (command_format no_context value).0 ≡ record { format = get_format value; flag = 0 }
unfolding command_format
format-reads value = elim (Option-cases (get_format value)) [
  | inl unknown ↦ rw (unknown, command_format) refl
  | inr (format, found) ↦ rw (found, command_format) refl
]

arguments-reads :
    (arg : Bytes → Option Bytes)
    → parse_from arg commands no_context
      ≡ record { format = named (arg (codes "format")); flag = legacy_flag (arg (codes "status")) }
unfolding parse_from
arguments-reads arg = elim (Option-cases (arg (codes "format"))) [
  | inl missing ↦ rw (missing, parse_from) (status-reads arg none)
  | inr (value, at) ↦
      rw (at, parse_from)
        (ap (parse_from arg ((codes "status", command_status) ∷ [])) (format-reads value)
          ∙ status-reads arg (get_format value))
]

same_bytes-length : (xs ys : Bytes) → same_bytes xs ys ≡ true → length xs ≡ length ys
same_bytes-length [] [] h = refl
same_bytes-length [] (y ∷ ys) h = absurd (ground arith)
same_bytes-length (x ∷ xs) [] h = absurd (ground arith)
same_bytes-length (x ∷ xs) (y ∷ ys) h = ap suc (same_bytes-length xs ys (ground arith))

legacy_format-number_of : (value : Bytes) → legacy_format value ≡ number_of (get_format value)
unfolding legacy_format legacy_format_from get_format find_format
legacy_format-number_of value = elim (Bool-cases (same_bytes value (codes "html"))) [
  | inl is_html ↦ ground (arith, same_bytes-length value (codes "html"))
  | inr not_html ↦ elim (Bool-cases (same_bytes value (codes "csv"))) [
    | inl is_csv ↦ ground (arith, same_bytes-length value (codes "csv"))
    | inr not_csv ↦ elim (Bool-cases (same_bytes value (codes "json"))) [
      | inl is_json ↦ ground (arith, same_bytes-length value (codes "json"))
      | inr not_json ↦ ground arith
    ]
  ]
]

-- A value in letters of either case: each is the small letter of the word, or the capital of it.
pub data Spells : Bytes → Bytes → Type 0 where
  spelled : Spells [] []
  either_case :
      {x y : ℕ} {xs ys : Bytes} → (x ≡ y) ⊎ (x + 32 ≡ y) → Spells xs ys → Spells (x ∷ xs) (y ∷ ys)

abbrev is_small : ℕ → Bool
is_small y = leb 97 y && leb y 122

abbrev all_small : Bytes → Bool
all_small [] = true
all_small (y ∷ ys) = is_small y && all_small ys

lower-cases : (x y : ℕ) → is_small y ≡ true → (lower x == lower y) ≡ true → (x ≡ y) ⊎ (x + 32 ≡ y)
lower-cases x y small h = elim (Bool-cases (leb 65 x && leb x 90)) [
  | inl capital ↦ inr (ground arith)
  | inr other ↦ inl (ground arith)
]

lower-eq : (x y : ℕ) → is_small y ≡ true → (x ≡ y) ⊎ (x + 32 ≡ y) → (lower x == lower y) ≡ true
lower-eq x y small (inl same) = ground arith
lower-eq x y small (inr capital) = ground arith

same_lower-Spells : (xs ys : Bytes) → all_small ys ≡ true → same_lower xs ys ≡ true → Spells xs ys
same_lower-Spells [] [] small h = spelled
same_lower-Spells [] (y ∷ ys) small h = absurd (ground arith)
same_lower-Spells (x ∷ xs) [] small h = absurd (ground arith)
same_lower-Spells (x ∷ xs) (y ∷ ys) small h =
    either_case (lower-cases x y (ground arith) (ground arith))
      (same_lower-Spells xs ys (ground arith) (ground arith))

Spells-same_lower : (xs ys : Bytes) → all_small ys ≡ true → Spells xs ys → same_lower xs ys ≡ true
Spells-same_lower [] [] small spelled = refl
Spells-same_lower [] (y ∷ ys) small h = elim h [ ]
Spells-same_lower (x ∷ xs) [] small h = elim h [ ]
Spells-same_lower (x ∷ xs) (y ∷ ys) small (either_case same rest) =
    let first = lower-eq x y (ground arith) same in
    let others = Spells-same_lower xs ys (ground arith) rest in ground arith

Spells-length : (xs ys : Bytes) → Spells xs ys → length xs ≡ length ys
Spells-length [] [] spelled = refl
Spells-length [] (y ∷ ys) h = elim h [ ]
Spells-length (x ∷ xs) [] h = elim h [ ]
Spells-length (x ∷ xs) (y ∷ ys) (either_case same rest) = ap suc (Spells-length xs ys rest)

-- The flag of a value of `status`: 1 for down, 2 for up, 0 for any other or none.
pub data IsFlag : Option Bytes → ℕ → Type 0 where
  no_status : IsFlag none 0
  is_down : {value : Bytes} → Spells value (codes "down") → IsFlag (some value) 1
  is_up : {value : Bytes} → Spells value (codes "up") → IsFlag (some value) 2
  neither :
      {value : Bytes}
      → ¬ (Spells value (codes "down"))
      → ¬ (Spells value (codes "up"))
      → IsFlag (some value) 0

-- A test of the length and the letters says whether a word is spelled.
word-cases :
    (value word : Bytes)
    → all_small word ≡ true
    → (length value == length word && same_lower value word) ≡ false
    → ¬ (Spells value word)
word-cases value word small h s =
    let same = Spells-same_lower value word small s in
    let sized = Spells-length value word s in absurd (ground arith)

legacy_flag-IsFlag : (o : Option Bytes) → IsFlag o (legacy_flag o)
unfolding legacy_flag
legacy_flag-IsFlag none = no_status
legacy_flag-IsFlag (some value) =
    elim (Bool-cases (length value == 4 && same_lower value (codes "down"))) [
      | inl down ↦
          rw (down, legacy_flag)
            (is_down (same_lower-Spells value (codes "down") refl (ground arith)))
      | inr not_down ↦ elim (Bool-cases (length value == 2 && same_lower value (codes "up"))) [
        | inl up ↦
            rw (not_down, up, legacy_flag)
              (is_up (same_lower-Spells value (codes "up") refl (ground arith)))
        | inr not_up ↦
            rw (not_down, not_up, legacy_flag)
              (neither (word-cases value (codes "down") refl not_down)
                (word-cases value (codes "up") refl not_up))
      ]
    ]

abbrev pub name_of : Format → Bytes
name_of html = codes "html"
name_of csv = codes "csv"
name_of json = codes "json"
name_of prometheus = codes "prometheus"

same_bytes-eq : (xs ys : Bytes) → same_bytes xs ys ≡ true → xs ≡ ys
same_bytes-eq [] [] h = refl
same_bytes-eq [] (y ∷ ys) h = absurd (ground arith)
same_bytes-eq (x ∷ xs) [] h = absurd (ground arith)
same_bytes-eq (x ∷ xs) (y ∷ ys) h =
    let first : x ≡ y = ground arith in let rest = same_bytes-eq xs ys (ground arith) in cc

same_bytes_refl : (xs : Bytes) → same_bytes xs xs ≡ true
same_bytes_refl [] = refl
same_bytes_refl (x ∷ xs) = let rest = same_bytes_refl xs in ground arith

-- Whether a value names a format.
data Named (value : Bytes) : Option Format → Type 0 where
  names : (format : Format) → value ≡ name_of format → Named value (some format)
  unnamed : ((format : Format) → value ≢ name_of format) → Named value none

not_same : (value name : Bytes) → same_bytes value name ≡ false → value ≢ name
not_same value name h same =
    let it : same_bytes name name ≡ false = subst (λ v. same_bytes v name ≡ false) same h in
    let whole = same_bytes_refl name in absurd (ground arith)

get_format-Named : (value : Bytes) → Named value (get_format value)
unfolding get_format find_format
get_format-Named value = elim (Bool-cases (same_bytes value (codes "html"))) [
  | inl is_html ↦
      let found : get_format value ≡ some html =
        ground (arith, same_bytes-length value (codes "html")) in
      subst (Named value) (sym found) (names html (same_bytes-eq value (codes "html") is_html))
  | inr not_html ↦ elim (Bool-cases (same_bytes value (codes "csv"))) [
    | inl is_csv ↦
        let found : get_format value ≡ some csv =
          ground (arith, same_bytes-length value (codes "csv")) in
        subst (Named value) (sym found) (names csv (same_bytes-eq value (codes "csv") is_csv))
    | inr not_csv ↦ elim (Bool-cases (same_bytes value (codes "json"))) [
      | inl is_json ↦
          let found : get_format value ≡ some json =
            ground (arith, same_bytes-length value (codes "json")) in
          subst (Named value) (sym found) (names json (same_bytes-eq value (codes "json") is_json))
      | inr not_json ↦ elim (Bool-cases (same_bytes value (codes "prometheus"))) [
        | inl is_prometheus ↦
            let found : get_format value ≡ some prometheus =
              ground (arith, same_bytes-length value (codes "prometheus")) in
            subst (Named value) (sym found)
              (names prometheus (same_bytes-eq value (codes "prometheus") is_prometheus))
        | inr not_prometheus ↦
            let missed : get_format value ≡ none = ground arith in
            subst (Named value) (sym missed) (
              unnamed (λ f. elim f as (λ k. value ≢ name_of k) [
                | html ↦ not_same value (codes "html") not_html
                | csv ↦ not_same value (codes "csv") not_csv
                | json ↦ not_same value (codes "json") not_json
                | prometheus ↦ not_same value (codes "prometheus") not_prometheus
              ]))
      ]
    ]
  ]
]

-- The format of a page in a location whose format is `conf`: the one that is asked for by its name.
pub data IsFormat (conf : Format) : Option Bytes → Format → Type 0 where
  not_asked : IsFormat conf none conf
  asked :
      {value : Bytes} (format : Format) → value ≡ name_of format → IsFormat conf (some value) format
  unknown :
      {value : Bytes}
      → ((format : Format) → value ≢ name_of format)
      → IsFormat conf (some value) conf

Named-IsFormat :
    (conf : Format) (value : Bytes) (o : Option Format)
    → Named value o
    → IsFormat conf (some value) (chosen conf o)
Named-IsFormat conf value (some _) (names f same) = asked f same
Named-IsFormat conf value none (unnamed others) = unknown others

chosen-IsFormat : (conf : Format) (o : Option Bytes) → IsFormat conf o (chosen conf (named o))
chosen-IsFormat conf none = not_asked
chosen-IsFormat conf (some value) =
    Named-IsFormat conf value (get_format value) (get_format-Named value)

-- The same on the older page, whose formats are the numbers 0, 1 and 2.
pub data IsNumber (conf : ℕ) : Option Bytes → ℕ → Type 0 where
  not_asked_for : IsNumber conf none conf
  asked_for :
      {value : Bytes} (format : Format) (i : ℕ)
      → value ≡ name_of format
      → number_of (some format) ≡ some i
      → IsNumber conf (some value) i
  unknown_here :
      {value : Bytes}
      → ((format : Format) → value ≡ name_of format → number_of (some format) ≡ none)
      → IsNumber conf (some value) conf

some-injective : (f g : Format) → some f ≡ some g → f ≡ g
some-injective f g h = cc

format_of-name_of : (f : Format) → get_format (name_of f) ≡ some f
unfolding get_format find_format
format_of-name_of html = refl
format_of-name_of csv = refl
format_of-name_of json = refl
format_of-name_of prometheus = refl

name_of-injective : (f g : Format) → name_of f ≡ name_of g → f ≡ g
name_of-injective f g h =
    some-injective f g (sym (format_of-name_of f) ∙ ap get_format h ∙ format_of-name_of g)

Named-IsNumber :
    (conf : ℕ) (value : Bytes) (o : Option Format)
    → Named value o
    → legacy_format value ≡ number_of o
    → IsNumber conf (some value) (legacy_chosen conf (some value))
unfolding legacy_chosen
Named-IsNumber conf value none (unnamed others) h =
    rw (h, legacy_chosen) (unknown_here (λ f same. absurd (others f same)))
Named-IsNumber conf value (some _) (names f same) h = elim (Option-cases (number_of (some f))) [
  | inl missing ↦
      rw (h, missing, legacy_chosen)
        (unknown_here
          (λ g other. ap number_of (ap some (name_of-injective g f (sym other ∙ same))) ∙ missing))
  | inr (i, found) ↦ rw (h, found, legacy_chosen) (asked_for f i same found)
]

legacy_chosen-IsNumber : (conf : ℕ) (o : Option Bytes) → IsNumber conf o (legacy_chosen conf o)
unfolding legacy_chosen
legacy_chosen-IsNumber conf none = not_asked_for
legacy_chosen-IsNumber conf (some value) =
    Named-IsNumber conf value (get_format value) (get_format-Named value)
      (legacy_format-number_of value)

-- A request with arguments, in a location of a format. Both pages take the format that is asked for by
-- its name, and for a name that is unknown, or none, that of the location; the older page knows the
-- formats but Prometheus. On both, the values down and up of `status`, in letters of either case, are
-- the flags 1 and 2, and every other value, or none, shows all peers.
pub parse_args-legacy :
    (n : ℕ) (arg : Bytes → Option Bytes) (conf : Format) (old_conf : ℕ)
    → 0 < n
    → IsFormat conf (arg (codes "format")) (chosen conf (parse_args n arg no_context).format)
      × IsFlag (arg (codes "status")) (parse_args n arg no_context).flag
      × IsNumber old_conf (arg (codes "format")) (legacy_chosen old_conf (arg (codes "format")))
      × IsFlag (arg (codes "status")) (legacy_flag (arg (codes "status")))
unfolding parse_args
parse_args-legacy n arg conf old_conf h =
    let given : (n == 0) ≡ false = ground arith in
    let format = arg (codes "format") in
    let status = arg (codes "status") in
    let read : parse_args n arg no_context
        ≡ record { format = named format; flag = legacy_flag status } =
      rw (given, parse_args) (arguments-reads arg) in
    (
      subst (λ c. IsFormat conf format (chosen conf c.format)) (sym read)
          (chosen-IsFormat conf format),
      subst (λ c. IsFlag status c.flag) (sym read) (legacy_flag-IsFlag status),
      legacy_chosen-IsNumber old_conf format,
      legacy_flag-IsFlag status,
    )
