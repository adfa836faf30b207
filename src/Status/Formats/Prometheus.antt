-- ===== src/Status/Formats/Prometheus.antt =====
-- ngx_http_upstream_check_status_prometheus_format: counts, and three samples for each peer.
pub mod Text
use nginx_healthcheck_module.Base.{
  ℕ, suc, ◌+◌, Bool, true, false, List, [], ◌∷◌, ◌++◌, length, if◌then◌else◌, Bytes, codes, ◌≡◌,
  refl, arith, inl, inr, Bool-cases, ap, ◌∙◌, sym,
}
use nginx_healthcheck_module.Status.Snapshot.{is_hidden}
use nginx_healthcheck_module.Status.Writer.Prints.{Print, ◌then◌, Prints, then-Prints}
use nginx_healthcheck_module.Status.Writer.Printf.{Arg, str, string, uint, msec, until_nul, printf}
use nginx_healthcheck_module.Status.Writer.Printf.Text.{show, printf-Prints, pieces, pieces_from}
use nginx_healthcheck_module.Status.Formats.{
  Entry, Table, status, generation_of, each, each-Prints, visible, join_map,
}

abbrev pub summary_format : Bytes
summary_format =
    (codes "# HELP nginx_upstream_count_total Nginx total number of servers\n"
      ++ (codes "# TYPE nginx_upstream_count_total gauge\n"
          ++ (codes "nginx_upstream_count_total %ui\n"
              ++ (codes "# HELP nginx_upstream_count_up Nginx total number of servers that are UP\n"
                  ++ (codes "# TYPE nginx_upstream_count_up gauge\n"
                      ++ (codes "nginx_upstream_count_up %ui\n"
                          ++ (codes
                                "# HELP nginx_upstream_count_down Nginx total number of servers that are DOWN\n"
                              ++ (codes "# TYPE nginx_upstream_count_down gauge\n"
                                  ++ (codes "nginx_upstream_count_down %ui\n"
                                      ++ (codes
                                            "# HELP nginx_upstream_count_generation Nginx generation\n"
                                          ++ (codes "# TYPE nginx_upstream_count_generation gauge\n"
                                              ++ codes
                                                  "nginx_upstream_count_generation %ui\n")))))))))))

abbrev pub rise_heading : Bytes
rise_heading =
    (codes "# HELP nginx_upstream_server_rise Nginx rise counter\n"
      ++ codes "# TYPE nginx_upstream_server_rise counter\n")

abbrev pub fall_heading : Bytes
fall_heading =
    (codes "# HELP nginx_upstream_server_fall Nginx fall counter\n"
      ++ codes "# TYPE nginx_upstream_server_fall counter\n")

abbrev pub active_heading : Bytes
active_heading =
    (codes "# HELP nginx_upstream_server_active Nginx active 1 for UP / 0 for DOWN\n"
      ++ codes "# TYPE nginx_upstream_server_active gauge\n")

abbrev pub rise_format : Bytes
rise_format =
    codes
      "nginx_upstream_server_rise{index=\"%ui\",upstream_type=\"%V\",upstream=\"%V\",name=\"%V\",status=\"%s\",type=\"%V\",port=\"%ui\"} %ui\n"

abbrev pub fall_format : Bytes
fall_format =
    codes
      "nginx_upstream_server_fall{index=\"%ui\",upstream_type=\"%V\",upstream=\"%V\",name=\"%V\",status=\"%s\",type=\"%V\",port=\"%ui\"} %ui\n"

abbrev pub active_format : Bytes
active_format =
    codes
      "nginx_upstream_server_active{index=\"%ui\",upstream_type=\"%V\",upstream=\"%V\",name=\"%V\",type=\"%V\",port=\"%ui\"} %ui\n"

pub record Counts : Type 0 where
  pub count : ℕ
  pub up_count : ℕ
  pub down_count : ℕ

abbrev pub count_peer : Bool → Counts → Counts
count_peer down c =
    if down
    then record c { count = c.count + 1; down_count = c.down_count + 1 }
    else record c { count = c.count + 1; up_count = c.up_count + 1 }

-- The first loop, over the peers of one kind.
unfoldable pub count_peers : ℕ → List Entry → Counts → Counts
count_peers flag [] c = c
count_peers flag (p ∷ ps) c =
    count_peers flag ps (if is_hidden flag p.health.down then c else count_peer p.health.down c)

abbrev pub summary_args : Counts → ℕ → List Arg
summary_args c generation =
    uint c.count ∷ uint c.up_count ∷ uint c.down_count ∷ uint generation ∷ []

abbrev pub server_args : Bytes → ℕ → Entry → List Arg
server_args kind n p =
    uint p.index
    ∷ str kind
    ∷ str p.upstream_name
    ∷ str p.name
    ∷ string (status p.health.down)
    ∷ str p.check_type
    ∷ uint p.port
    ∷ uint n
    ∷ []

-- The last argument is an int, which printf reads as an ngx_uint_t. C leaves open what it reads then:
-- `read_int` is what the platform makes of it.
abbrev pub active_args : (ℕ → ℕ) → Bytes → Entry → List Arg
active_args read_int kind p =
    uint p.index
    ∷ str kind
    ∷ str p.upstream_name
    ∷ str p.name
    ∷ str p.check_type
    ∷ uint p.port
    ∷ uint (read_int (if p.health.down then 0 else 1))
    ∷ []

unfoldable pub rise_row : (ℕ → Bool) → Bytes → Entry → Print
rise_row alloc kind p = printf alloc rise_format (server_args kind p.health.rise_count p)

unfoldable pub fall_row : (ℕ → Bool) → Bytes → Entry → Print
fall_row alloc kind p = printf alloc fall_format (server_args kind p.health.fall_count p)

unfoldable pub active_row : (ℕ → ℕ) → (ℕ → Bool) → Bytes → Entry → Print
active_row read_int alloc kind p = printf alloc active_format (active_args read_int kind p)

-- The loop over the two kinds of upstream.
unfoldable pub both_kinds : ℕ → (Bytes → Entry → Print) → Table → Table → Print
both_kinds flag row http stream =
    each flag (row (codes "http")) http.peers then each flag (row (codes "stream")) stream.peers

abbrev pub no_counts : Counts
no_counts = record { count = 0; up_count = 0; down_count = 0 }

unfoldable pub counts_of : ℕ → Table → Table → Counts
counts_of flag http stream = count_peers flag stream.peers (count_peers flag http.peers no_counts)

unfoldable pub prometheus_format : (ℕ → ℕ) → (ℕ → Bool) → Table → Table → ℕ → Print
prometheus_format read_int alloc http stream flag =
    printf alloc summary_format
      (summary_args (counts_of flag http stream) (generation_of http stream))
    then printf alloc rise_heading []
    then both_kinds flag (rise_row alloc) http stream
    then printf alloc fall_heading []
    then both_kinds flag (fall_row alloc) http stream
    then printf alloc active_heading []
    then both_kinds flag (active_row read_int alloc) http stream

-- The labels of a sample, and what follows them.
abbrev pub labels : List (Bytes × Bytes) → Bytes → Bytes
labels [] next = next
labels ((name, v) ∷ []) next = name ++ (codes "=\"" ++ (v ++ (codes "\"" ++ next)))
labels ((name, v) ∷ l ∷ ls) next =
    name ++ (codes "=\"" ++ (v ++ (codes "\"," ++ labels (l ∷ ls) next)))

-- A sample of a metric.
abbrev pub sample : Bytes → List (Bytes × Bytes) → ℕ → Bytes
sample metric ls n =
    codes "nginx_upstream_"
    ++ (metric ++ (codes "{" ++ labels ls (codes "} " ++ (show (uint n) ++ codes "\n"))))

abbrev pub server_labels : Bytes → Entry → List (Bytes × Bytes)
server_labels kind p =
    (codes "index", show (uint p.index))
    ∷ (codes "upstream_type", kind)
    ∷ (codes "upstream", p.upstream_name)
    ∷ (codes "name", p.name)
    ∷ (codes "status", show (string (status p.health.down)))
    ∷ (codes "type", p.check_type)
    ∷ (codes "port", show (uint p.port))
    ∷ []

abbrev pub active_labels : Bytes → Entry → List (Bytes × Bytes)
active_labels kind p =
    (codes "index", show (uint p.index))
    ∷ (codes "upstream_type", kind)
    ∷ (codes "upstream", p.upstream_name)
    ∷ (codes "name", p.name)
    ∷ (codes "type", p.check_type)
    ∷ (codes "port", show (uint p.port))
    ∷ []

abbrev pub rise_sample : Bytes → Entry → Bytes
rise_sample kind p = sample (codes "server_rise") (server_labels kind p) p.health.rise_count

abbrev pub fall_sample : Bytes → Entry → Bytes
fall_sample kind p = sample (codes "server_fall") (server_labels kind p) p.health.fall_count

abbrev pub active_sample : (ℕ → ℕ) → Bytes → Entry → Bytes
active_sample read_int kind p =
    sample (codes "server_active") (active_labels kind p)
      (read_int (if p.health.down then 0 else 1))
