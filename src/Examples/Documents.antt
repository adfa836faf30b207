-- ===== src/Examples/Documents.antt =====
-- A page of one HTTP peer in every format, and a format with its arguments.
use nginx_healthcheck_module.Base.{
  ℕ, ◌≡◌, refl, Bool, true, false, List, [], ◌∷◌, ◌++◌, Bytes, codes, same_bytes, if◌then◌else◌,
  arith, Option, none, some,
}
use nginx_healthcheck_module.State.{zero_health}
use nginx_healthcheck_module.Status.Writer.Prints.{Prints}
use nginx_healthcheck_module.Status.Writer.Digits.{decimal, decimal_in}
use nginx_healthcheck_module.Status.Writer.Printf.{str, string, uint, msec, printf}
use nginx_healthcheck_module.Status.Writer.Printf.Text.{
  Piece, plain, percent, filled, spell_all, args_of, render_all, show, printf-Prints,
}
use nginx_healthcheck_module.Status.Snapshot.{is_hidden}
use nginx_healthcheck_module.Status.Formats.{Entry, Table}
use nginx_healthcheck_module.Status.Formats.Csv.{
  csv_format, csv_text, csv_heading, csv_format-Prints,
}
use nginx_healthcheck_module.Status.Formats.Html.{html_format, html_text, html_format-Prints}
use nginx_healthcheck_module.Status.Formats.Json.{
  json_format, json_text, elements, json_format-Prints,
}
use nginx_healthcheck_module.Status.Formats.Prometheus.{prometheus_format, rise_sample}
use nginx_healthcheck_module.Status.Formats.Prometheus.Text.{
  prometheus_text, prometheus_format-Prints,
}
use nginx_healthcheck_module.Status.Formats.Legacy.{legacy_output}
use nginx_healthcheck_module.Status.Formats.Legacy.Text.{legacy_output-Prints}
use nginx_healthcheck_module.Status.Formats.Legacy.Text
use nginx_healthcheck_module.Status.Page.{csv, no_context, parse_args, chosen}
use nginx_healthcheck_module.Status.Page.Legacy.{legacy_flag, legacy_chosen}
use nginx_healthcheck_module.Status.Page.Arguments.{IsFormat, IsFlag, IsNumber, parse_args-legacy}

abbrev memory : ℕ → Bool
memory t = true

abbrev delays : List Piece
delays =
    plain (codes "last ")
    ∷ filled (msec 12)
    ∷ plain (codes ", ")
    ∷ filled (uint 100)
    ∷ percent
    ∷ filled (str (codes " of "))
    ∷ filled (string (codes "web"))
    ∷ []

delays_spelled : spell_all delays ≡ codes "last %M, %ui%%%V%s"
delays_spelled = refl

delays_rendered : render_all delays ≡ codes "last 12, 100% of web"
unfolding show decimal decimal_in
delays_rendered = refl

printf-Prints_example :
    Prints memory (printf memory (spell_all delays) (args_of delays)) (render_all delays)
printf-Prints_example = printf-Prints memory delays refl

abbrev entry : Bool → Entry
entry down = record {
  index = 3;
  upstream_name = codes "web";
  name = codes "10.0.0.1:80";
  check_type = codes "tcp";
  port = 0;
  health = zero_health down;
}

-- Two peers of which one is up.
abbrev http_table : Table
http_table = record { peers = entry false ∷ entry true ∷ []; total = 2; up = 1; generation = 4 }

abbrev no_table : Table
no_table = record { peers = []; total = 0; up = 0; generation = 0 }

-- With the flag for what is down.
csv_down :
    csv_text http_table no_table 1
    ≡ csv_heading ++ codes "3,http,web,10.0.0.1:80,0,0,tcp,0,0,0,0,0,down\n"
unfolding show decimal decimal_in is_hidden
csv_down = refl

json_elements :
    elements (entry false ∷ [])
    ≡ codes
        "    {\"index\": 3, \"upstream\": \"web\", \"name\": \"10.0.0.1:80\", \"status\": \"up\", \"rise\": 0, \"fall\": 0, \"type\": \"tcp\", \"port\": 0, \"last_delay_ms\": 0, \"avg_delay_ms\": 0, \"min_delay_ms\": 0, \"max_delay_ms\": 0}\n"
unfolding show decimal decimal_in
json_elements = refl

prometheus_rise :
    rise_sample (codes "http") (entry false)
    ≡ codes
        "nginx_upstream_server_rise{index=\"3\",upstream_type=\"http\",upstream=\"web\",name=\"10.0.0.1:80\",status=\"up\",type=\"tcp\",port=\"0\"} 0\n"
unfolding show decimal decimal_in
prometheus_rise = refl

csv_format-Prints_example :
    Prints memory (csv_format memory http_table no_table 1) (csv_text http_table no_table 1)
csv_format-Prints_example = csv_format-Prints memory http_table no_table 1

html_format-Prints_example :
    Prints memory (html_format memory http_table no_table 1) (html_text http_table no_table 1)
html_format-Prints_example =
    html_format-Prints memory http_table no_table 1 (omega arith) (omega arith) (omega arith)
      (omega arith)

json_format-Prints_example :
    Prints memory (json_format memory http_table no_table 1) (json_text http_table no_table)
json_format-Prints_example = json_format-Prints memory http_table no_table 1

-- A platform that reads the value that was passed.
abbrev read_int : ℕ → ℕ
read_int n = n

prometheus_format-Prints_example :
    Prints memory
      (prometheus_format read_int memory http_table no_table 1)
      (prometheus_text read_int http_table no_table 1)
prometheus_format-Prints_example = prometheus_format-Prints read_int memory http_table no_table 1

legacy_output-Prints_example :
    Prints memory (legacy_output memory http_table 0) (Text.html_text http_table)
    × Prints memory (legacy_output memory http_table 1) (Text.csv_text http_table)
    × Prints memory (legacy_output memory http_table 2) (Text.json_text http_table)
legacy_output-Prints_example = legacy_output-Prints memory http_table

-- ?format=json&status=DOWN
abbrev arguments : Bytes → Option Bytes
arguments name =
    if same_bytes name (codes "format")
    then some (codes "json")
    else if same_bytes name (codes "status")
    then some (codes "DOWN")
    else none

parse_args-legacy_example :
    IsFormat csv (some (codes "json")) (chosen csv (parse_args 23 arguments no_context).format)
    × IsFlag (some (codes "DOWN")) (parse_args 23 arguments no_context).flag
    × IsNumber 1 (some (codes "json")) (legacy_chosen 1 (some (codes "json")))
    × IsFlag (some (codes "DOWN")) (legacy_flag (some (codes "DOWN")))
parse_args-legacy_example = parse_args-legacy 23 arguments csv 1 (omega arith)
