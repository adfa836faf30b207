-- ===== src/Status/Page/Legacy.antt =====
-- ngx_http_upstream_check_module.c: the directive check_status and its page.
use nginx_healthcheck_module.Base.{
  ℕ, ◌+◌, not, ◌&&◌, Option, none, some, List, [], ◌∷◌, length, Bytes, codes, same_bytes, ◌==◌,
  if◌then◌else◌,
}
use nginx_healthcheck_module.Env.{Env}
use nginx_healthcheck_module.Status.Formats.Legacy.{legacy_output}
use nginx_healthcheck_module.Status.Request.{
  Source, Core, Output, answered, status_request, internal_error,
}
use nginx_healthcheck_module.Status.Page.{
  same_lower, is_get_or_head, not_allowed, Asked, is_ok, Handled, refused,
}

abbrev pub legacy_names : List Bytes
legacy_names = codes "html" ∷ codes "csv" ∷ codes "json" ∷ []

-- The loop, from the name with number `i` on; `none` is NGX_ERROR.
unfoldable pub legacy_format_from : List Bytes → ℕ → Bytes → Option ℕ
legacy_format_from [] i value = none
legacy_format_from (name ∷ names) i value =
    let later = legacy_format_from names (i + 1) value in
    if length value == length name && same_bytes value name then some i else later

unfoldable pub legacy_format : Bytes → Option ℕ
legacy_format value = legacy_format_from legacy_names 0 value

-- The directive, with its argument if it has one; the inner `none` is NGX_CONF_UNSET_UINT.
unfoldable pub legacy_directive : Option Bytes → Option ℕ → Option (Option ℕ)
legacy_directive none format = some format
legacy_directive (some value) format = elim (legacy_format value) [
  | none ↦ none
  | some i ↦ some (some i)
]

unfoldable pub legacy_merge : Option ℕ → Option ℕ → ℕ
legacy_merge (some format) prev = format
legacy_merge none (some prev) = prev
legacy_merge none none = 0

-- types[format]; a format is at most 2.
abbrev pub legacy_type : ℕ → Bytes
legacy_type format =
    if format == 0
    then codes "text/html"
    else if format == 1
    then codes "text/plain"
    else codes "application/json"

-- An argument that is no name of a format is only logged.
unfoldable pub legacy_chosen : ℕ → Option Bytes → ℕ
legacy_chosen conf none = conf
legacy_chosen conf (some value) = elim (legacy_format value) [ none ↦ conf | some i ↦ i ]

unfoldable pub legacy_flag : Option Bytes → ℕ
legacy_flag none = 0
legacy_flag (some value) =
    if length value == 4 && same_lower value (codes "down")
    then 1
    else if length value == 2 && same_lower value (codes "up")
    then 2
    else 0

abbrev pub legacy_page : Output
legacy_page alloc http stream format = legacy_output alloc http format

-- There is one source, that of the HTTP upstreams.
abbrev pub only : Option Source → ℕ → Option Source
only source i = if i == 0 then source else none

unfoldable pub legacy_handler : (ℕ → Env) → Core → Asked → Option Source → ℕ → ℕ → Handled
legacy_handler e c asked source conf t =
    if not (is_get_or_head asked.method)
    then refused not_allowed
    else if not (is_ok asked.discard)
    then refused asked.discard
    else let format = legacy_chosen conf (asked.arg (codes "format")) in
      let flag = legacy_flag (asked.arg (codes "status")) in
      record {
        content_type = some (legacy_type format);
        started = elim source [
          | none ↦ answered internal_error none
          | some s ↦ status_request e c legacy_page (only (some s)) 1 flag format t
        ];
      }
