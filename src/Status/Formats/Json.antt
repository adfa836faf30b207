-- ===== src/Status/Formats/Json.antt =====
-- ngx_upstream_check_status_json_format: an array of objects for each kind of upstream.
use nginx_healthcheck_module.Base.{
  ℕ, ◌+◌, Bool, true, false, List, [], ◌∷◌, ◌++◌, length, ◌==◌, if◌then◌else◌, Bytes, codes, ◌≡◌,
  refl, subst, append-nil, arith,
}
use nginx_healthcheck_module.Status.Writer.Prints.{
  Print, ◌then◌, done, Prints, done-Prints, then-Prints,
}
use nginx_healthcheck_module.Status.Writer.Printf.{Arg, str, string, uint, msec, printf}
use nginx_healthcheck_module.Status.Writer.Printf.Text.{show, printf-Prints, pieces, pieces_from}
use nginx_healthcheck_module.Status.Formats.{Entry, Table, status, generation_of}

abbrev pub json_heading : Bytes
json_heading =
    (codes "{\"servers\": {\n"
      ++ (codes "  \"total\": %ui,\n"
          ++ (codes "  \"generation\": %ui,\n" ++ codes "  \"http\": [\n")))

abbrev pub json_object : Bytes
json_object =
    (codes "    {\"index\": %ui, "
      ++ (codes "\"upstream\": \"%V\", "
          ++ (codes "\"name\": \"%V\", "
              ++ (codes "\"status\": \"%s\", "
                  ++ (codes "\"rise\": %ui, "
                      ++ (codes "\"fall\": %ui, "
                          ++ (codes "\"type\": \"%V\", "
                              ++ (codes "\"port\": %ui, "
                                  ++ (codes "\"last_delay_ms\": %M, "
                                      ++ (codes "\"avg_delay_ms\": %M, "
                                          ++ (codes "\"min_delay_ms\": %M, "
                                              ++ (codes "\"max_delay_ms\": %M}"
                                                  ++ codes "%s\n"))))))))))))

abbrev pub json_between : Bytes
json_between = codes "  ],\n  \"stream\": [\n"

-- (i + 1 == count) ? "" : ","
abbrev pub comma : Bool → Bytes
comma true = []
comma false = codes ","

abbrev pub json_args : Entry → Bool → List Arg
json_args p last =
    uint p.index
    ∷ str p.upstream_name
    ∷ str p.name
    ∷ string (status p.health.down)
    ∷ uint p.health.rise_count
    ∷ uint p.health.fall_count
    ∷ str p.check_type
    ∷ uint p.port
    ∷ msec p.health.last_check_delay
    ∷ msec p.health.avg_check_delay
    ∷ msec p.health.min_check_delay
    ∷ msec p.health.max_check_delay
    ∷ string (comma last)
    ∷ []

-- The loop over the peers from the one with number `i` on.
unfoldable pub json_rows : (ℕ → Bool) → List Entry → ℕ → ℕ → Print
json_rows alloc [] count i = done
json_rows alloc (p ∷ ps) count i =
    printf alloc json_object (json_args p (i + 1 == count)) then json_rows alloc ps count (i + 1)

unfoldable pub json_format : (ℕ → Bool) → Table → Table → ℕ → Print
json_format alloc http stream flag =
    printf alloc json_heading
      (uint (length http.peers + length stream.peers) ∷ uint (generation_of http stream) ∷ [])
    then json_rows alloc http.peers (length http.peers) 0
    then printf alloc json_between []
    then json_rows alloc stream.peers (length stream.peers) 0
    then printf alloc (codes "  ]\n") []
    then printf alloc (codes "}}\n") []

-- A value of an object, and what follows it; a text stands between quotes.
pub data Value : Type 0 where
  number text : Bytes → Value

abbrev pub value : Value → Bytes → Bytes
value (number n) next = n ++ next
value (text s) next = codes "\"" ++ (s ++ (codes "\"" ++ next))

-- The members of an object, and what follows them.
abbrev pub members : List (Bytes × Value) → Bytes → Bytes
members [] next = next
members ((key, v) ∷ []) next = codes "\"" ++ (key ++ (codes "\": " ++ value v next))
members ((key, v) ∷ m ∷ ms) next =
    codes "\"" ++ (key ++ (codes "\": " ++ value v (codes ", " ++ members (m ∷ ms) next)))

abbrev pub json_members : Entry → List (Bytes × Value)
json_members p =
    (codes "index", number (show (uint p.index)))
    ∷ (codes "upstream", text p.upstream_name)
    ∷ (codes "name", text p.name)
    ∷ (codes "status", text (show (string (status p.health.down))))
    ∷ (codes "rise", number (show (uint p.health.rise_count)))
    ∷ (codes "fall", number (show (uint p.health.fall_count)))
    ∷ (codes "type", text p.check_type)
    ∷ (codes "port", number (show (uint p.port)))
    ∷ (codes "last_delay_ms", number (show (msec p.health.last_check_delay)))
    ∷ (codes "avg_delay_ms", number (show (msec p.health.avg_check_delay)))
    ∷ (codes "min_delay_ms", number (show (msec p.health.min_check_delay)))
    ∷ (codes "max_delay_ms", number (show (msec p.health.max_check_delay)))
    ∷ []

abbrev pub object : Entry → Bytes → Bytes
object p next = codes "    {" ++ members (json_members p) (codes "}" ++ next)

-- The elements of an array on lines of their own, with a comma behind each but the last.
abbrev pub elements : List Entry → Bytes
elements [] = []
elements (p ∷ []) = object p (codes "\n")
elements (p ∷ q ∷ ps) = object p (codes ",\n") ++ elements (q ∷ ps)

abbrev pub heading_text : ℕ → ℕ → Bytes
heading_text count generation =
    codes "{\"servers\": {\n  \"total\": "
    ++ (show (uint count)
        ++ (codes ",\n  \"generation\": "
            ++ (show (uint generation) ++ codes ",\n  \"http\": [\n")))

-- The document.
abbrev pub json_text : Table → Table → Bytes
json_text http stream =
    heading_text (length http.peers + length stream.peers) (generation_of http stream)
    ++ (elements http.peers
        ++ (json_between ++ (elements stream.peers ++ (codes "  ]\n" ++ codes "}}\n"))))

object-Prints :
    (alloc : ℕ → Bool) (p : Entry)
    → Prints alloc (printf alloc json_object (json_args p true)) (object p (codes "\n"))
      × Prints alloc (printf alloc json_object (json_args p false)) (object p (codes ",\n"))
unfolding pieces pieces_from show
object-Prints alloc p = (
  printf-Prints alloc (pieces json_object (json_args p true)) refl,
  printf-Prints alloc (pieces json_object (json_args p false)) refl,
)

-- The last element of an array is the one that no comma follows.
json_rows-Prints :
    (alloc : ℕ → Bool) (ps : List Entry) (count i : ℕ)
    → i + length ps ≡ count
    → Prints alloc (json_rows alloc ps count i) (elements ps)
unfolding json_rows
json_rows-Prints alloc [] count i h = done-Prints alloc
json_rows-Prints alloc (p ∷ []) count i h =
    let last : (i + 1 == count) ≡ true = ground arith in
    rw (last, json_rows)
      (subst (Prints alloc (printf alloc json_object (json_args p true) then done))
        (append-nil (object p (codes "\n")))
        (then-Prints (object-Prints alloc p).0 (done-Prints alloc)))
json_rows-Prints alloc (p ∷ q ∷ ps) count i h =
    let more : (i + 1 == count) ≡ false = ground arith in
    rw (more, json_rows)
      (then-Prints (object-Prints alloc p).1
        (json_rows-Prints alloc (q ∷ ps) count (i + 1) (omega arith)))

heading-Prints :
    (alloc : ℕ → Bool) (count generation : ℕ)
    → Prints alloc
        (printf alloc json_heading (uint count ∷ uint generation ∷ []))
        (heading_text count generation)
unfolding pieces pieces_from show
heading-Prints alloc count generation =
    printf-Prints alloc (pieces json_heading (uint count ∷ uint generation ∷ [])) refl

plain-Prints :
    (alloc : ℕ → Bool)
    → Prints alloc (printf alloc json_between []) json_between
      × Prints alloc (printf alloc (codes "  ]\n") []) (codes "  ]\n")
      × Prints alloc (printf alloc (codes "}}\n") []) (codes "}}\n")
unfolding pieces pieces_from
plain-Prints alloc = (
  printf-Prints alloc (pieces json_between []) refl,
  printf-Prints alloc (pieces (codes "  ]\n") []) refl,
  printf-Prints alloc (pieces (codes "}}\n") []) refl,
)

-- Whatever the flag, the JSON page is an object with the number of the selected peers, the generation and two
-- arrays, whose elements are the selected HTTP peers and the selected streams, each an object of twelve
-- members, with a comma behind each element but the last of its array.
pub json_format-Prints :
    (alloc : ℕ → Bool) (http stream : Table) (flag : ℕ)
    → Prints alloc (json_format alloc http stream flag) (json_text http stream)
unfolding json_format
json_format-Prints alloc http stream flag =
    let (between, close, end) = plain-Prints alloc in
    then-Prints
      (heading-Prints alloc (length http.peers + length stream.peers) (generation_of http stream))
      (then-Prints (json_rows-Prints alloc http.peers (length http.peers) 0 (omega arith)) (
        then-Prints between (
          then-Prints (json_rows-Prints alloc stream.peers (length stream.peers) 0 (omega arith))
            (then-Prints close end))))
