-- ===== src/Status/Formats/Html.antt =====
-- ngx_upstream_check_status_html_format: a table for the HTTP upstreams and one for the streams.
use nginx_healthcheck_module.Base.{
  ℕ, ◌+◌, ◌-◌, ◌≤◌, Bool, true, false, List, [], ◌∷◌, ◌++◌, Bytes, codes, u64_max, refl,
}
use nginx_healthcheck_module.Status.Writer.Prints.{Print, ◌then◌, Prints, then-Prints}
use nginx_healthcheck_module.Status.Writer.Printf.{Arg, str, string, uint, msec, printf}
use nginx_healthcheck_module.Status.Writer.Printf.Text.{show, printf-Prints, pieces, pieces_from}
use nginx_healthcheck_module.Status.Formats.{
  Entry, Table, status, each, each-Prints, visible, join_map, minus, minus-of_le,
}

abbrev pub page_heading : Bytes
page_heading =
    (codes "<!DOCTYPE html PUBLIC \"-//W3C//DTD XHTML 1.0 Strict//EN\n"
      ++ (codes "\"http://www.w3.org/TR/xhtml1/DTD/xhtml1-strict.dtd\">\n"
          ++ (codes "<html xmlns=\"http://www.w3.org/1999/xhtml\">\n"
              ++ (codes "<head>\n"
                  ++ (codes "  <title>Nginx upstream status checker</title>\n"
                      ++ (codes "</head>\n"
                          ++ (codes "<body>\n"
                              ++ codes
                                  "<h1  align=\"center\">Nginx upstream status monitor</h1>\n")))))))

abbrev pub table_heading : Bytes
table_heading =
    (codes "<table style=\"background-color:white\" cellspacing=\"0\" "
      ++ (codes "       cellpadding=\"3\" border=\"1\">\n"
          ++ (codes "  <tr bgcolor=\"#C0C0C0\">\n"
              ++ (codes "    <th>Index</th>\n"
                  ++ (codes "    <th>Upstream</th>\n"
                      ++ (codes "    <th>Name</th>\n"
                          ++ (codes "    <th>Status</th>\n"
                              ++ (codes "    <th>Rise counts</th>\n"
                                  ++ (codes "    <th>Fall counts</th>\n"
                                      ++ (codes "    <th>Check type</th>\n"
                                          ++ (codes "    <th>Check port</th>\n"
                                              ++ (codes "    <th>Last delay(ms)</th>\n"
                                                  ++ (codes "    <th>Avg delay(ms)</th>\n"
                                                      ++ (codes "    <th>Min delay(ms)</th>\n"
                                                          ++ (codes "    <th>Max delay(ms)</th>\n"
                                                            ++ codes "  </tr>\n")))))))))))))))

abbrev pub http_heading : Bytes
http_heading =
    codes "<h2>http upstream servers </h2> up: %ui down: %ui total: %ui\n" ++ table_heading

abbrev pub stream_heading : Bytes
stream_heading =
    codes "<h2>stream upstream servers </h2> up: %ui down: %ui total: %ui\n" ++ table_heading

abbrev pub page_end : Bytes
page_end =
    codes "</table>\n"
    ++ (codes "<h2>total servers(check enabled): %ui </h2>\n" ++ codes "</body></html>\n")

abbrev pub row_format : Bytes
row_format =
    (codes "  <tr%s>\n"
      ++ (codes "    <td>%ui</td>\n"
          ++ (codes "    <td>%V</td>\n"
              ++ (codes "    <td>%V</td>\n"
                  ++ (codes "    <td>%s</td>\n"
                      ++ (codes "    <td>%ui</td>\n"
                          ++ (codes "    <td>%ui</td>\n"
                              ++ (codes "    <td>%V</td>\n"
                                  ++ (codes "    <td>%ui</td>\n"
                                      ++ (codes "    <td>%M</td>\n"
                                          ++ (codes "    <td>%M</td>\n"
                                              ++ (codes "    <td>%M</td>\n"
                                                  ++ (codes "    <td>%M</td>\n"
                                                      ++ codes "  </tr>\n")))))))))))))

-- down ? " bgcolor=\"#FF0000\"" : ""
abbrev pub color : Bool → Bytes
color true = codes " bgcolor=\"#FF0000\""
color false = []

abbrev pub html_args : Entry → List Arg
html_args p =
    string (color p.health.down)
    ∷ uint p.index
    ∷ str p.upstream_name
    ∷ str p.name
    ∷ string (status p.health.down)
    ∷ uint p.health.rise_count
    ∷ uint p.health.fall_count
    ∷ str p.check_type
    ∷ uint p.port
    ∷ msec p.health.last_check_delay
    ∷ msec p.health.avg_check_delay
    ∷ msec p.health.min_check_delay
    ∷ msec p.health.max_check_delay
    ∷ []

unfoldable pub html_row : (ℕ → Bool) → Entry → Print
html_row alloc p = printf alloc row_format (html_args p)

abbrev pub heading_args : Table → List Arg
heading_args t = uint t.up ∷ uint (minus t.total t.up) ∷ uint t.total ∷ []

unfoldable pub html_format : (ℕ → Bool) → Table → Table → ℕ → Print
html_format alloc http stream flag =
    printf alloc page_heading []
    then printf alloc http_heading (heading_args http)
    then each flag (html_row alloc) http.peers
    then printf alloc (codes "</table>\n") []
    then printf alloc stream_heading (heading_args stream)
    then each flag (html_row alloc) stream.peers
    then printf alloc page_end (uint (stream.total + http.total) ∷ [])

-- The cells of a row, and the end of the row.
abbrev pub cells : List Bytes → Bytes
cells [] = codes "  </tr>\n"
cells (field ∷ fields) = codes "    <td>" ++ (field ++ (codes "</td>\n" ++ cells fields))

abbrev pub html_fields : Entry → List Bytes
html_fields p =
    show (uint p.index)
    ∷ p.upstream_name
    ∷ p.name
    ∷ show (string (status p.health.down))
    ∷ show (uint p.health.rise_count)
    ∷ show (uint p.health.fall_count)
    ∷ p.check_type
    ∷ show (uint p.port)
    ∷ show (msec p.health.last_check_delay)
    ∷ show (msec p.health.avg_check_delay)
    ∷ show (msec p.health.min_check_delay)
    ∷ show (msec p.health.max_check_delay)
    ∷ []

abbrev pub html_line : Entry → Bytes
html_line p =
    codes "  <tr" ++ (show (string (color p.health.down)) ++ (codes ">\n" ++ cells (html_fields p)))

-- The heading of a table, with the counts of its peers.
abbrev pub heading_text : Bytes → Table → Bytes
heading_text kind t =
    codes "<h2>"
    ++ (kind
        ++ (codes " upstream servers </h2> up: "
            ++ (show (uint t.up)
                ++ (codes " down: "
                    ++ (show (uint (t.total - t.up))
                        ++ (codes " total: "
                            ++ (show (uint t.total) ++ (codes "\n" ++ table_heading))))))))

abbrev pub html_end : ℕ → Bytes
html_end total =
    codes "</table>\n<h2>total servers(check enabled): "
    ++ (show (uint total) ++ codes " </h2>\n</body></html>\n")

-- The document.
abbrev pub html_text : Table → Table → ℕ → Bytes
html_text http stream flag =
    page_heading
    ++ (heading_text (codes "http") http
        ++ (join_map html_line (visible flag http.peers)
            ++ (codes "</table>\n"
                ++ (heading_text (codes "stream") stream
                    ++ (join_map html_line (visible flag stream.peers)
                        ++ html_end (stream.total + http.total))))))

row-Prints : (alloc : ℕ → Bool) (p : Entry) → Prints alloc (html_row alloc p) (html_line p)
unfolding html_row pieces pieces_from show
row-Prints alloc p = printf-Prints alloc (pieces row_format (html_args p)) refl

http_heading-Prints :
    (alloc : ℕ → Bool) (t : Table)
    → t.up ≤ t.total
    → t.total ≤ u64_max
    → Prints alloc (printf alloc http_heading (heading_args t)) (heading_text (codes "http") t)
unfolding pieces pieces_from show
http_heading-Prints alloc t ups fits = rw (minus-of_le t.total t.up ups fits) (
    printf-Prints alloc
      (pieces http_heading (uint t.up ∷ uint (t.total - t.up) ∷ uint t.total ∷ [])) refl)

stream_heading-Prints :
    (alloc : ℕ → Bool) (t : Table)
    → t.up ≤ t.total
    → t.total ≤ u64_max
    → Prints alloc (printf alloc stream_heading (heading_args t)) (heading_text (codes "stream") t)
unfolding pieces pieces_from show
stream_heading-Prints alloc t ups fits = rw (minus-of_le t.total t.up ups fits) (
    printf-Prints alloc
      (pieces stream_heading (uint t.up ∷ uint (t.total - t.up) ∷ uint t.total ∷ [])) refl)

plain-Prints :
    (alloc : ℕ → Bool)
    → Prints alloc (printf alloc page_heading []) page_heading
      × Prints alloc (printf alloc (codes "</table>\n") []) (codes "</table>\n")
unfolding pieces pieces_from
plain-Prints alloc = (
  printf-Prints alloc (pieces page_heading []) refl,
  printf-Prints alloc (pieces (codes "</table>\n") []) refl,
)

end-Prints :
    (alloc : ℕ → Bool) (total : ℕ)
    → Prints alloc (printf alloc page_end (uint total ∷ [])) (html_end total)
unfolding pieces pieces_from show
end-Prints alloc total = printf-Prints alloc (pieces page_end (uint total ∷ [])) refl

-- For tables that count no more peers up than they have, the HTML page is a table of the HTTP upstreams and one of
-- the streams: each has a heading with the numbers of peers up, down and in all, and a row of twelve cells
-- for each peer that the flag lets through, red if it is down.
pub html_format-Prints :
    (alloc : ℕ → Bool) (http stream : Table) (flag : ℕ)
    → http.up ≤ http.total
    → http.total ≤ u64_max
    → stream.up ≤ stream.total
    → stream.total ≤ u64_max
    → Prints alloc (html_format alloc http stream flag) (html_text http stream flag)
unfolding html_format
html_format-Prints alloc http stream flag http_ups http_fits stream_ups stream_fits =
    let (heading, between) = plain-Prints alloc in
    let rows : (ps : List Entry)
        → Prints alloc (each flag (html_row alloc) ps) (join_map html_line (visible flag ps)) =
      λ ps. each-Prints alloc flag (html_row alloc) html_line ps (row-Prints alloc) in
    then-Prints heading (
      then-Prints (http_heading-Prints alloc http http_ups http_fits) (
        then-Prints (rows http.peers) (
          then-Prints between (
            then-Prints (stream_heading-Prints alloc stream stream_ups stream_fits)
              (then-Prints (rows stream.peers) (end-Prints alloc (stream.total + http.total)))))))
