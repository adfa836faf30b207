-- ===== src/Status/Formats/Csv.antt =====
-- ngx_upstream_check_status_csv_format: a line for each peer.
use nginx_healthcheck_module.Base.{ℕ, Bool, List, [], ◌∷◌, ◌++◌, Bytes, codes, refl}
use nginx_healthcheck_module.Status.Writer.Prints.{Print, ◌then◌, Prints, then-Prints}
use nginx_healthcheck_module.Status.Writer.Printf.{Arg, str, string, uint, msec, printf}
use nginx_healthcheck_module.Status.Writer.Printf.Text.{show, printf-Prints, pieces, pieces_from}
use nginx_healthcheck_module.Status.Formats.{
  Entry, Table, status, each, each-Prints, visible, join_map,
}

abbrev pub csv_heading : Bytes
csv_heading =
    codes
      "index,upstream_type,upstream_name,host,rise,fall,check_type,check_port,last_delay,avg_delay,min_delay,max_delay,status\n"

abbrev pub http_line : Bytes
http_line = codes "%ui,http,%V,%V,%ui,%ui,%V,%ui,%M,%M,%M,%M,%s\n"

abbrev pub stream_line : Bytes
stream_line = codes "%ui,stream,%V,%V,%ui,%ui,%V,%ui,%M,%M,%M,%M,%s\n"

abbrev pub csv_args : Entry → List Arg
csv_args p =
    uint p.index
    ∷ str p.upstream_name
    ∷ str p.name
    ∷ uint p.health.rise_count
    ∷ uint p.health.fall_count
    ∷ str p.check_type
    ∷ uint p.port
    ∷ msec p.health.last_check_delay
    ∷ msec p.health.avg_check_delay
    ∷ msec p.health.min_check_delay
    ∷ msec p.health.max_check_delay
    ∷ string (status p.health.down)
    ∷ []

unfoldable pub csv_row : (ℕ → Bool) → Bytes → Entry → Print
csv_row alloc line p = printf alloc line (csv_args p)

unfoldable pub csv_format : (ℕ → Bool) → Table → Table → ℕ → Print
csv_format alloc http stream flag =
    printf alloc csv_heading []
    then each flag (csv_row alloc http_line) http.peers
    then each flag (csv_row alloc stream_line) stream.peers

-- Fields with a comma between them, and the end of the line.
abbrev pub csv_line : List Bytes → Bytes
csv_line [] = codes "\n"
csv_line (field ∷ []) = field ++ codes "\n"
csv_line (field ∷ next ∷ fields) = field ++ b',' ∷ csv_line (next ∷ fields)

-- The fields of a peer of a kind of upstream.
abbrev pub csv_fields : Bytes → Entry → List Bytes
csv_fields kind p =
    show (uint p.index)
    ∷ kind
    ∷ p.upstream_name
    ∷ p.name
    ∷ show (uint p.health.rise_count)
    ∷ show (uint p.health.fall_count)
    ∷ p.check_type
    ∷ show (uint p.port)
    ∷ show (msec p.health.last_check_delay)
    ∷ show (msec p.health.avg_check_delay)
    ∷ show (msec p.health.min_check_delay)
    ∷ show (msec p.health.max_check_delay)
    ∷ show (string (status p.health.down))
    ∷ []

abbrev pub csv_line_of : Bytes → Entry → Bytes
csv_line_of kind p = csv_line (csv_fields kind p)

-- The document.
abbrev pub csv_text : Table → Table → ℕ → Bytes
csv_text http stream flag =
    csv_heading
    ++ (join_map (csv_line_of (codes "http")) (visible flag http.peers)
        ++ join_map (csv_line_of (codes "stream")) (visible flag stream.peers))

http_row-Prints :
    (alloc : ℕ → Bool) (p : Entry)
    → Prints alloc (csv_row alloc http_line p) (csv_line_of (codes "http") p)
unfolding csv_row pieces pieces_from show
http_row-Prints alloc p = printf-Prints alloc (pieces http_line (csv_args p)) refl

stream_row-Prints :
    (alloc : ℕ → Bool) (p : Entry)
    → Prints alloc (csv_row alloc stream_line p) (csv_line_of (codes "stream") p)
unfolding csv_row pieces pieces_from show
stream_row-Prints alloc p = printf-Prints alloc (pieces stream_line (csv_args p)) refl

heading-Prints : (alloc : ℕ → Bool) → Prints alloc (printf alloc csv_heading []) csv_heading
unfolding pieces pieces_from
heading-Prints alloc = printf-Prints alloc (pieces csv_heading []) refl

-- The CSV page is a heading and a line for each peer that the flag lets through, those of the HTTP upstreams
-- first, of thirteen fields with commas between them.
pub csv_format-Prints :
    (alloc : ℕ → Bool) (http stream : Table) (flag : ℕ)
    → Prints alloc (csv_format alloc http stream flag) (csv_text http stream flag)
unfolding csv_format
csv_format-Prints alloc http stream flag = then-Prints (heading-Prints alloc) (
    then-Prints
      (each-Prints alloc flag (csv_row alloc http_line) (csv_line_of (codes "http")) http.peers
        (http_row-Prints alloc))
      (each-Prints alloc flag (csv_row alloc stream_line) (csv_line_of (codes "stream"))
        stream.peers (stream_row-Prints alloc)))
