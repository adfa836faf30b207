-- ===== src/Status/Formats/Legacy.antt =====
-- status/ngx_healthcheck_legacy.c: the page of the upstream check module, of one kind of upstream.
pub mod Text
use nginx_healthcheck_module.Base.{
  ℕ, suc, ◌+◌, Bool, true, false, List, [], ◌∷◌, ◌++◌, length, ◌==◌, if◌then◌else◌, Bytes, codes,
}
use nginx_healthcheck_module.Status.Writer.Prints.{Print, ◌then◌, done}
use nginx_healthcheck_module.Status.Writer.Printf.{Arg, str, string, uint, printf}
use nginx_healthcheck_module.Status.Formats.{Entry, Table, status}
use nginx_healthcheck_module.Status.Formats.Html.{color}
use nginx_healthcheck_module.Status.Formats.Json.{comma}

abbrev pub legacy_html_heading : Bytes
legacy_html_heading =
    (codes "<!DOCTYPE html PUBLIC \"-//W3C//DTD XHTML 1.0 Strict//EN\n"
      ++ (codes "\"http://www.w3.org/TR/xhtml1/DTD/xhtml1-strict.dtd\">\n"
          ++ (codes "<html xmlns=\"http://www.w3.org/1999/xhtml\">\n"
              ++ (codes "<head>\n"
                  ++ (codes "  <title>Nginx http upstream check status</title>\n"
                      ++ (codes "</head>\n"
                          ++ (codes "<body>\n"
                              ++ (codes "<h1>Nginx http upstream check status</h1>\n"
                                  ++ (codes
                                        "<h2>Check upstream server number: %ui, generation: %ui</h2>\n"
                                      ++ (codes
                                            "<table style=\"background-color:white\" cellspacing=\"0\" "
                                          ++ (codes "       cellpadding=\"3\" border=\"1\">\n"
                                              ++ (codes "  <tr bgcolor=\"#C0C0C0\">\n"
                                                  ++ (codes "    <th>Index</th>\n"
                                                      ++ (codes "    <th>Upstream</th>\n"
                                                          ++ (codes "    <th>Name</th>\n"
                                                            ++ (codes "    <th>Status</th>\n"
                                                            ++ (codes "    <th>Rise counts</th>\n"
                                                            ++ (codes "    <th>Fall counts</th>\n"
                                                            ++ (codes "    <th>Check type</th>\n"
                                                            ++ (codes "    <th>Check port</th>\n"
                                                            ++ codes "  </tr>\n"))))))))))))))))))))

abbrev pub legacy_json_heading : Bytes
legacy_json_heading =
    (codes "{\"servers\": {\n"
      ++ (codes "  \"total\": %ui,\n"
          ++ (codes "  \"generation\": %ui,\n" ++ codes "  \"server\": [\n")))

abbrev pub legacy_html_format : Bytes
legacy_html_format =
    (codes "  <tr%s>\n"
      ++ (codes "    <td>%ui</td>\n"
          ++ (codes "    <td>%V</td>\n"
              ++ (codes "    <td>%V</td>\n"
                  ++ (codes "    <td>%s</td>\n"
                      ++ (codes "    <td>%ui</td>\n"
                          ++ (codes "    <td>%ui</td>\n"
                              ++ (codes "    <td>%V</td>\n"
                                  ++ (codes "    <td>%ui</td>\n" ++ codes "  </tr>\n")))))))))

abbrev pub legacy_csv_format : Bytes
legacy_csv_format = codes "%ui,%V,%V,%s,%ui,%ui,%V,%ui\n"

abbrev pub legacy_json_format : Bytes
legacy_json_format =
    (codes "    {\"index\": %ui, "
      ++ (codes "\"upstream\": \"%V\", "
          ++ (codes "\"name\": \"%V\", "
              ++ (codes "\"status\": \"%s\", "
                  ++ (codes "\"rise\": %ui, "
                      ++ (codes "\"fall\": %ui, "
                          ++ (codes "\"type\": \"%V\", " ++ codes "\"port\": %ui}%s\n")))))))

abbrev pub legacy_html_end : Bytes
legacy_html_end = codes "</table>\n</body>\n</html>\n"

abbrev pub legacy_json_end : Bytes
legacy_json_end = codes "  ]\n}}\n"

abbrev pub legacy_args : Table → List Arg
legacy_args t = uint (length t.peers) ∷ uint t.generation ∷ []

abbrev pub legacy_html_args : Entry → List Arg
legacy_html_args p =
    string (color p.health.down)
    ∷ uint p.index
    ∷ str p.upstream_name
    ∷ str p.name
    ∷ string (status p.health.down)
    ∷ uint p.health.rise_count
    ∷ uint p.health.fall_count
    ∷ str p.check_type
    ∷ uint p.port
    ∷ []

abbrev pub legacy_csv_args : Entry → List Arg
legacy_csv_args p =
    uint p.index
    ∷ str p.upstream_name
    ∷ str p.name
    ∷ string (status p.health.down)
    ∷ uint p.health.rise_count
    ∷ uint p.health.fall_count
    ∷ str p.check_type
    ∷ uint p.port
    ∷ []

abbrev pub legacy_json_args : Entry → Bool → List Arg
legacy_json_args p last =
    uint p.index
    ∷ str p.upstream_name
    ∷ str p.name
    ∷ string (status p.health.down)
    ∷ uint p.health.rise_count
    ∷ uint p.health.fall_count
    ∷ str p.check_type
    ∷ uint p.port
    ∷ string (comma last)
    ∷ []

unfoldable pub legacy_heading : (ℕ → Bool) → ℕ → Table → Print
legacy_heading alloc format t =
    if format == 0
    then printf alloc legacy_html_heading (legacy_args t)
    else if format == 2
    then printf alloc legacy_json_heading (legacy_args t)
    else done

-- The body of the loop; every format but HTML and CSV is taken for JSON here.
unfoldable pub legacy_row : (ℕ → Bool) → ℕ → Bool → Entry → Print
legacy_row alloc format last p =
    if format == 0
    then printf alloc legacy_html_format (legacy_html_args p)
    else if format == 1
    then printf alloc legacy_csv_format (legacy_csv_args p)
    else printf alloc legacy_json_format (legacy_json_args p last)

unfoldable pub legacy_rows : (ℕ → Bool) → ℕ → List Entry → ℕ → ℕ → Print
legacy_rows alloc format [] count i = done
legacy_rows alloc format (p ∷ ps) count i =
    legacy_row alloc format (i + 1 == count) p then legacy_rows alloc format ps count (i + 1)

unfoldable pub legacy_ending : (ℕ → Bool) → ℕ → Print
legacy_ending alloc format =
    if format == 0
    then printf alloc legacy_html_end []
    else if format == 2
    then printf alloc legacy_json_end []
    else done

unfoldable pub legacy_output : (ℕ → Bool) → Table → ℕ → Print
legacy_output alloc t format =
    legacy_heading alloc format t
    then legacy_rows alloc format t.peers (length t.peers) 0
    then legacy_ending alloc format
