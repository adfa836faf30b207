-- ===== src/Status/Formats/Legacy/Text.antt =====
-- The documents of ngx_healthcheck_legacy_output.
use nginx_healthcheck_module.Base.{
  ℕ, ◌+◌, Bool, true, false, List, [], ◌∷◌, ◌++◌, length, ◌==◌, if◌then◌else◌, Bytes, codes, ◌≡◌,
  refl, arith, subst, append-nil,
}
use nginx_healthcheck_module.Status.Writer.Prints.{◌then◌, done, Prints, done-Prints, then-Prints}
use nginx_healthcheck_module.Status.Writer.Printf.{string, uint}
use nginx_healthcheck_module.Status.Writer.Printf.Text.{show, printf-Prints, pieces, pieces_from}
use nginx_healthcheck_module.Status.Formats.{Entry, Table, status, join_map}
use nginx_healthcheck_module.Status.Formats.Csv.{csv_line}
use nginx_healthcheck_module.Status.Formats.Html.{color, cells}
use nginx_healthcheck_module.Status.Formats.Json.{Value, number, text, members}
use nginx_healthcheck_module.Status.Formats.Legacy.{
  legacy_html_heading, legacy_json_heading, legacy_html_format, legacy_csv_format,
  legacy_json_format, legacy_html_end, legacy_json_end, legacy_args, legacy_html_args,
  legacy_csv_args, legacy_json_args, legacy_heading, legacy_row, legacy_rows, legacy_ending,
  legacy_output,
}

abbrev pub legacy_fields : Entry → List Bytes
legacy_fields p =
    show (uint p.index)
    ∷ p.upstream_name
    ∷ p.name
    ∷ show (string (status p.health.down))
    ∷ show (uint p.health.rise_count)
    ∷ show (uint p.health.fall_count)
    ∷ p.check_type
    ∷ show (uint p.port)
    ∷ []

abbrev pub html_line : Entry → Bytes
html_line p =
    codes "  <tr"
    ++ (show (string (color p.health.down)) ++ (codes ">\n" ++ cells (legacy_fields p)))

abbrev pub json_members : Entry → List (Bytes × Value)
json_members p =
    (codes "index", number (show (uint p.index)))
    ∷ (codes "upstream", text p.upstream_name)
    ∷ (codes "name", text p.name)
    ∷ (codes "status", text (show (string (status p.health.down))))
    ∷ (codes "rise", number (show (uint p.health.rise_count)))
    ∷ (codes "fall", number (show (uint p.health.fall_count)))
    ∷ (codes "type", text p.check_type)
    ∷ (codes "port", number (show (uint p.port)))
    ∷ []

abbrev pub object : Entry → Bytes → Bytes
object p next = codes "    {" ++ members (json_members p) (codes "}" ++ next)

-- Objects on lines of their own, with a comma behind each but the last.
abbrev pub objects : List Entry → Bytes
objects [] = []
objects (p ∷ []) = object p (codes "\n")
objects (p ∷ q ∷ ps) = object p (codes ",\n") ++ objects (q ∷ ps)

abbrev pub html_top : Bytes → Bytes → Bytes
html_top count generation =
    codes "<!DOCTYPE html PUBLIC \"-//W3C//DTD XHTML 1.0 Strict//EN\n"
    ++ (codes "\"http://www.w3.org/TR/xhtml1/DTD/xhtml1-strict.dtd\">\n"
        ++ (codes "<html xmlns=\"http://www.w3.org/1999/xhtml\">\n"
            ++ (codes "<head>\n"
                ++ (codes "  <title>Nginx http upstream check status</title>\n"
                    ++ (codes "</head>\n"
                        ++ (codes "<body>\n"
                            ++ (codes "<h1>Nginx http upstream check status</h1>\n"
                                ++ (codes "<h2>Check upstream server number: "
                                    ++ (count
                                        ++ (codes ", generation: "
                                            ++ (generation
                                                ++ (codes "</h2>\n"
                                                    ++ (codes
                                                          "<table style=\"background-color:white\" cellspacing=\"0\" "
                                                        ++ (codes
                                                            "       cellpadding=\"3\" border=\"1\">\n"
                                                            ++ (codes "  <tr bgcolor=\"#C0C0C0\">\n"
                                                            ++ (codes "    <th>Index</th>\n"
                                                            ++ (codes "    <th>Upstream</th>\n"
                                                            ++ (codes "    <th>Name</th>\n"
                                                            ++ (codes "    <th>Status</th>\n"
                                                            ++ (codes "    <th>Rise counts</th>\n"
                                                            ++ (codes "    <th>Fall counts</th>\n"
                                                            ++ (codes "    <th>Check type</th>\n"
                                                            ++ (codes "    <th>Check port</th>\n"
                                                            ++ codes
                                                            "  </tr>\n")))))))))))))))))))))))

abbrev pub json_top : Bytes → Bytes → Bytes
json_top count generation =
    codes "{\"servers\": {\n  \"total\": "
    ++ (count ++ (codes ",\n  \"generation\": " ++ (generation ++ codes ",\n  \"server\": [\n")))

-- The document of each format.
abbrev pub html_text : Table → Bytes
html_text t =
    html_top (show (uint (length t.peers))) (show (uint t.generation))
    ++ (join_map html_line t.peers ++ legacy_html_end)

abbrev pub csv_text : Table → Bytes
csv_text t = join_map (λ p. csv_line (legacy_fields p)) t.peers

abbrev pub json_text : Table → Bytes
json_text t =
    json_top (show (uint (length t.peers))) (show (uint t.generation))
    ++ (objects t.peers ++ legacy_json_end)

headings-Prints :
    (alloc : ℕ → Bool) (t : Table)
    → Prints alloc
        (legacy_heading alloc 0 t)
        (html_top (show (uint (length t.peers))) (show (uint t.generation)))
      × Prints alloc
          (legacy_heading alloc 2 t)
          (json_top (show (uint (length t.peers))) (show (uint t.generation)))
unfolding legacy_heading pieces pieces_from show
headings-Prints alloc t = (
  printf-Prints alloc (pieces legacy_html_heading (legacy_args t)) refl,
  printf-Prints alloc (pieces legacy_json_heading (legacy_args t)) refl,
)

endings-Prints :
    (alloc : ℕ → Bool)
    → Prints alloc (legacy_ending alloc 0) legacy_html_end
      × Prints alloc (legacy_ending alloc 2) legacy_json_end
unfolding legacy_ending pieces pieces_from
endings-Prints alloc = (
  printf-Prints alloc (pieces legacy_html_end []) refl,
  printf-Prints alloc (pieces legacy_json_end []) refl,
)

html_row-Prints :
    (alloc : ℕ → Bool) (last : Bool) (p : Entry)
    → Prints alloc (legacy_row alloc 0 last p) (html_line p)
unfolding legacy_row pieces pieces_from show
html_row-Prints alloc last p =
    printf-Prints alloc (pieces legacy_html_format (legacy_html_args p)) refl

csv_row-Prints :
    (alloc : ℕ → Bool) (last : Bool) (p : Entry)
    → Prints alloc (legacy_row alloc 1 last p) (csv_line (legacy_fields p))
unfolding legacy_row pieces pieces_from show
csv_row-Prints alloc last p =
    printf-Prints alloc (pieces legacy_csv_format (legacy_csv_args p)) refl

json_row-Prints :
    (alloc : ℕ → Bool) (p : Entry)
    → Prints alloc (legacy_row alloc 2 true p) (object p (codes "\n"))
      × Prints alloc (legacy_row alloc 2 false p) (object p (codes ",\n"))
unfolding legacy_row pieces pieces_from show
json_row-Prints alloc p = (
  printf-Prints alloc (pieces legacy_json_format (legacy_json_args p true)) refl,
  printf-Prints alloc (pieces legacy_json_format (legacy_json_args p false)) refl,
)

-- Rows that are printed alike whether they are the last or not.
rows-Prints :
    (alloc : ℕ → Bool) (format : ℕ) (line : Entry → Bytes) (ps : List Entry) (count i : ℕ)
    → ((last : Bool) (p : Entry) → Prints alloc (legacy_row alloc format last p) (line p))
    → Prints alloc (legacy_rows alloc format ps count i) (join_map line ps)
unfolding legacy_rows
rows-Prints alloc format line [] count i prints = done-Prints alloc
rows-Prints alloc format line (p ∷ ps) count i prints =
    then-Prints (prints (i + 1 == count) p) (rows-Prints alloc format line ps count (i + 1) prints)

json_rows-Prints :
    (alloc : ℕ → Bool) (ps : List Entry) (count i : ℕ)
    → i + length ps ≡ count
    → Prints alloc (legacy_rows alloc 2 ps count i) (objects ps)
unfolding legacy_rows
json_rows-Prints alloc [] count i h = done-Prints alloc
json_rows-Prints alloc (p ∷ []) count i h =
    let last : (i + 1 == count) ≡ true = ground arith in
    rw (last, legacy_rows)
      (subst (Prints alloc (legacy_row alloc 2 true p then done))
        (append-nil (object p (codes "\n")))
        (then-Prints (json_row-Prints alloc p).0 (done-Prints alloc)))
json_rows-Prints alloc (p ∷ q ∷ ps) count i h =
    let more : (i + 1 == count) ≡ false = ground arith in
    rw (more, legacy_rows)
      (then-Prints (json_row-Prints alloc p).1
        (json_rows-Prints alloc (q ∷ ps) count (i + 1) (omega arith)))

-- The page of the upstream check module in its three formats: an HTML table, a line of eight legacy_fields for each
-- peer, or a JSON object with an array; the numbers of the peers and of the generation stand in front of
-- the table and of the array.
pub legacy_output-Prints :
    (alloc : ℕ → Bool) (t : Table)
    → Prints alloc (legacy_output alloc t 0) (html_text t)
      × Prints alloc (legacy_output alloc t 1) (csv_text t)
      × Prints alloc (legacy_output alloc t 2) (json_text t)
unfolding legacy_output legacy_heading legacy_ending
legacy_output-Prints alloc t =
    let n = length t.peers in
    let (html_begins, json_begins) = headings-Prints alloc t in
    let (html_ends, json_ends) = endings-Prints alloc in
    (
      then-Prints html_begins (
          then-Prints (rows-Prints alloc 0 html_line t.peers n 0 (html_row-Prints alloc))
            html_ends),
      subst (Prints alloc (done then legacy_rows alloc 1 t.peers n 0 then done))
          (append-nil (csv_text t))
          (then-Prints (done-Prints alloc) (
            then-Prints
              (rows-Prints alloc 1 (λ p. csv_line (legacy_fields p)) t.peers n 0
                (csv_row-Prints alloc))
              (done-Prints alloc))),
      then-Prints json_begins
          (then-Prints (json_rows-Prints alloc t.peers n 0 (omega arith)) json_ends),
    )
