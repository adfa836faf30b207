-- ===== src/Status/Formats/Prometheus/Text.antt =====
-- The document of ngx_http_upstream_check_status_prometheus_format.
use nginx_healthcheck_module.Base.{
  ℕ, ◌+◌, Bool, List, [], ◌∷◌, ◌++◌, length, if◌then◌else◌, Bytes, codes, ◌≡◌, refl, arith, inl,
  inr, Bool-cases, length-append,
}
use nginx_healthcheck_module.Status.Snapshot.{is_hidden}
use nginx_healthcheck_module.Status.Writer.Prints.{Print, ◌then◌, Prints, then-Prints}
use nginx_healthcheck_module.Status.Writer.Printf.{uint, printf}
use nginx_healthcheck_module.Status.Writer.Printf.Text.{show, printf-Prints, pieces, pieces_from}
use nginx_healthcheck_module.Status.Formats.{
  Entry, Table, generation_of, each-Prints, visible, join_map,
}
use nginx_healthcheck_module.Status.Formats.Prometheus.{
  rise_heading, fall_heading, active_heading, rise_format, fall_format, active_format,
  summary_format, summary_args, server_args, active_args, rise_row, fall_row, active_row,
  rise_sample, fall_sample, active_sample, Counts, count_peer, count_peers, no_counts, counts_of,
  both_kinds, prometheus_format,
}

-- The peers on the page.
abbrev pub shown_peers : ℕ → Table → Table → List Entry
shown_peers flag http stream = visible flag http.peers ++ visible flag stream.peers

-- Those of them that are down, or that are up.
abbrev pub downs : List Entry → ℕ
downs [] = 0
downs (p ∷ ps) = (if p.health.down then 1 else 0) + downs ps

abbrev pub ups : List Entry → ℕ
ups [] = 0
ups (p ∷ ps) = (if p.health.down then 0 else 1) + ups ps

-- The help, the type and the value of a metric.
abbrev pub gauge : Bytes → Bytes → Bytes → Bytes
gauge metric help next =
    codes "# HELP nginx_upstream_"
    ++ (metric
        ++ (codes " Nginx "
            ++ (help
                ++ (codes "\n# TYPE nginx_upstream_"
                    ++ (metric
                        ++ (codes " gauge\nnginx_upstream_" ++ (metric ++ (codes " " ++ next))))))))

abbrev pub summary_text : List Entry → ℕ → Bytes
summary_text ps generation = gauge (codes "count_total") (codes "total number of servers") (
    show (uint (length ps))
    ++ (codes "\n"
        ++ gauge (codes "count_up") (codes "total number of servers that are UP") (
            show (uint (ups ps))
            ++ (codes "\n"
                ++ gauge (codes "count_down") (codes "total number of servers that are DOWN") (
                    show (uint (downs ps))
                    ++ (codes "\n"
                        ++ gauge (codes "count_generation") (codes "generation")
                            (show (uint generation) ++ codes "\n")))))))

-- The samples of a metric of the peers.
abbrev pub family : ℕ → (Bytes → Entry → Bytes) → Table → Table → Bytes
family flag line http stream =
    join_map (line (codes "http")) (visible flag http.peers)
    ++ join_map (line (codes "stream")) (visible flag stream.peers)

-- The document.
abbrev pub prometheus_text : (ℕ → ℕ) → Table → Table → ℕ → Bytes
prometheus_text read_int http stream flag =
    summary_text (shown_peers flag http stream) (generation_of http stream)
    ++ (rise_heading
        ++ (family flag rise_sample http stream
            ++ (fall_heading
                ++ (family flag fall_sample http stream
                    ++ (active_heading ++ family flag (active_sample read_int) http stream)))))

record Counted (ps : List Entry) (c d : Counts) : Type 0 where
  total : d.count ≡ c.count + length ps
  total_up : d.up_count ≡ c.up_count + ups ps
  total_down : d.down_count ≡ c.down_count + downs ps

one_more-Counted :
    (p : Entry) (ps : List Entry) (c d : Counts)
    → Counted ps (count_peer p.health.down c) d
    → Counted (p ∷ ps) c d
one_more-Counted p ps c d h = elim (Bool-cases p.health.down) [
  | inl down ↦ record {
    total = ground (arith, h.total);
    total_up = ground (arith, h.total_up);
    total_down = ground (arith, h.total_down);
  }
  | inr up ↦ record {
    total = ground (arith, h.total);
    total_up = ground (arith, h.total_up);
    total_down = ground (arith, h.total_down);
  }
]

count_peers-Counted :
    (flag : ℕ) (ps : List Entry) (c : Counts) → Counted (visible flag ps) c (count_peers flag ps c)
unfolding count_peers
count_peers-Counted flag [] c = record {
  total = omega arith;
  total_up = omega arith;
  total_down = omega arith;
}
count_peers-Counted flag (p ∷ ps) c = elim (Bool-cases (is_hidden flag p.health.down)) [
  | inl hidden ↦ rw (hidden, count_peers) (count_peers-Counted flag ps c)
  | inr shows ↦
      let next = count_peer p.health.down c in
      rw (shows, count_peers)
        (one_more-Counted p (visible flag ps) c (count_peers flag ps next)
          (count_peers-Counted flag ps next))
]

ups-append : (ps qs : List Entry) → ups (ps ++ qs) ≡ ups ps + ups qs
ups-append [] qs = omega arith
ups-append (p ∷ ps) qs = omega (arith, ups-append ps qs)

downs-append : (ps qs : List Entry) → downs (ps ++ qs) ≡ downs ps + downs qs
downs-append [] qs = omega arith
downs-append (p ∷ ps) qs = omega (arith, downs-append ps qs)

counts_of-Counted :
    (flag : ℕ) (http stream : Table)
    → Counted (shown_peers flag http stream) no_counts (counts_of flag http stream)
unfolding counts_of
counts_of-Counted flag http stream =
    let first = count_peers-Counted flag http.peers no_counts in
    let second = count_peers-Counted flag stream.peers (count_peers flag http.peers no_counts) in
    let ps = visible flag http.peers in
    let qs = visible flag stream.peers in
    record {
      total = omega (arith, first.total, second.total, length-append ps qs);
      total_up = omega (arith, first.total_up, second.total_up, ups-append ps qs);
      total_down = omega (arith, first.total_down, second.total_down, downs-append ps qs);
    }

-- Every peer on the page is counted once, as up or as down.
ups-add-downs : (ps : List Entry) → ups ps + downs ps ≡ length ps
ups-add-downs [] = omega arith
ups-add-downs (p ∷ ps) = elim (Bool-cases p.health.down) [
  | inl down ↦ ground (arith, ups-add-downs ps)
  | inr up ↦ ground (arith, ups-add-downs ps)
]

summary-Prints :
    (alloc : ℕ → Bool) (ps : List Entry) (c : Counts) (generation : ℕ)
    → Counted ps no_counts c
    → Prints alloc
        (printf alloc summary_format (summary_args c generation))
        (summary_text ps generation)
unfolding pieces pieces_from show
summary-Prints alloc ps c generation h =
    let total : c.count ≡ length ps = omega (arith, h.total) in
    let total_up : c.up_count ≡ ups ps = omega (arith, h.total_up) in
    let total_down : c.down_count ≡ downs ps = omega (arith, h.total_down) in
    rw (total, total_up, total_down)
      (printf-Prints alloc
        (pieces summary_format
          (uint (length ps) ∷ uint (ups ps) ∷ uint (downs ps) ∷ uint generation ∷ []))
        refl)

server_rows-Prints :
    (read_int : ℕ → ℕ) (alloc : ℕ → Bool) (kind : Bytes) (p : Entry)
    → Prints alloc (rise_row alloc kind p) (rise_sample kind p)
      × Prints alloc (fall_row alloc kind p) (fall_sample kind p)
      × Prints alloc (active_row read_int alloc kind p) (active_sample read_int kind p)
unfolding rise_row fall_row active_row pieces pieces_from show
server_rows-Prints read_int alloc kind p = (
  printf-Prints alloc (pieces rise_format (server_args kind p.health.rise_count p)) refl,
  printf-Prints alloc (pieces fall_format (server_args kind p.health.fall_count p)) refl,
  printf-Prints alloc (pieces active_format (active_args read_int kind p)) refl,
)

headings-Prints :
    (alloc : ℕ → Bool)
    → Prints alloc (printf alloc rise_heading []) rise_heading
      × Prints alloc (printf alloc fall_heading []) fall_heading
      × Prints alloc (printf alloc active_heading []) active_heading
unfolding pieces pieces_from
headings-Prints alloc = (
  printf-Prints alloc (pieces rise_heading []) refl,
  printf-Prints alloc (pieces fall_heading []) refl,
  printf-Prints alloc (pieces active_heading []) refl,
)

family-Prints :
    (alloc : ℕ → Bool) (flag : ℕ) (row : Bytes → Entry → Print) (line : Bytes → Entry → Bytes)
    (http stream : Table)
    → ((kind : Bytes) (p : Entry) → Prints alloc (row kind p) (line kind p))
    → Prints alloc (both_kinds flag row http stream) (family flag line http stream)
unfolding both_kinds
family-Prints alloc flag row line http stream prints =
    then-Prints
      (each-Prints alloc flag (row (codes "http")) (line (codes "http")) http.peers
        (prints (codes "http")))
      (each-Prints alloc flag (row (codes "stream")) (line (codes "stream")) stream.peers
        (prints (codes "stream")))

-- The Prometheus page gives the number of the peers that the flag lets through, of those of them that are up and
-- of those that are down, and the generation; then a family of samples for each of three metrics, with
-- one sample for each of these peers: the counts of successes and of failures, and what the platform
-- reads as an ngx_uint_t of the int 1 or 0 that is passed for up or down.
pub prometheus_format-Prints :
    (read_int : ℕ → ℕ) (alloc : ℕ → Bool) (http stream : Table) (flag : ℕ)
    → Prints alloc
        (prometheus_format read_int alloc http stream flag)
        (prometheus_text read_int http stream flag)
unfolding prometheus_format
prometheus_format-Prints read_int alloc http stream flag =
    let (rise, fall, active) = headings-Prints alloc in
    then-Prints
      (summary-Prints alloc (shown_peers flag http stream) (counts_of flag http stream)
        (generation_of http stream) (counts_of-Counted flag http stream))
      (then-Prints rise (
        then-Prints
          (family-Prints alloc flag (rise_row alloc) rise_sample http stream
            (λ kind p. (server_rows-Prints read_int alloc kind p).0))
          (then-Prints fall (
            then-Prints
              (family-Prints alloc flag (fall_row alloc) fall_sample http stream
                (λ kind p. (server_rows-Prints read_int alloc kind p).1))
              (then-Prints active (
                family-Prints alloc flag (active_row read_int alloc) (active_sample read_int) http
                  stream (λ kind p. (server_rows-Prints read_int alloc kind p).2)))))))
