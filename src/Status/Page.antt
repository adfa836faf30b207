-- ===== src/Status/Page.antt =====
-- ngx_healthcheck_status.c and ngx_http_upstream_check_module.c: the directive healthcheck_status and its older
-- kin, the arguments of a request, and the handlers of the page.
pub mod Legacy
pub mod Arguments
use nginx_healthcheck_module.Base.{
  ℕ, zero, suc, ◌+◌, ◌-◌, ◌/◌, ◌%◌, ◌≡◌, Bool, true, false, not, ◌&&◌, ◌||◌, Option, none, some,
  List, [], ◌∷◌, length, Bytes, codes, same_bytes, leb, ltb, ◌==◌, if◌then◌else◌,
}
use nginx_healthcheck_module.Env.{Env, ℤ, pos, negsuc}
use nginx_healthcheck_module.Status.Writer.Prints.{Print}
use nginx_healthcheck_module.Status.Formats.{Table}
use nginx_healthcheck_module.Status.Formats.Csv.{csv_format}
use nginx_healthcheck_module.Status.Formats.Html.{html_format}
use nginx_healthcheck_module.Status.Formats.Json.{json_format}
use nginx_healthcheck_module.Status.Formats.Prometheus.{prometheus_format}
use nginx_healthcheck_module.Status.Formats.Legacy.{legacy_output}
use nginx_healthcheck_module.Status.Request.{
  Source, Core, Output, Started, answered, status_request, internal_error,
}

pub data Format : Type 0 where
  html csv json prometheus : Format

-- ngx_check_status_formats: the names, the content types and the functions.
abbrev pub formats : List (Bytes × Format)
formats =
    (codes "html", html)
    ∷ (codes "csv", csv)
    ∷ (codes "json", json)
    ∷ (codes "prometheus", prometheus)
    ∷ []

abbrev pub content_type : Format → Bytes
content_type html = codes "text/html"
content_type csv = codes "text/plain"
content_type json = codes "application/json"
content_type prometheus = codes "text/plain"

-- `read_int` is what printf reads of an int as an ngx_uint_t.
unfoldable pub output_of : (ℕ → ℕ) → Format → Output
output_of read_int html alloc http stream flag = html_format alloc http stream flag
output_of read_int csv alloc http stream flag = csv_format alloc http stream flag
output_of read_int json alloc http stream flag = json_format alloc http stream flag
output_of read_int prometheus alloc http stream flag =
    prometheus_format read_int alloc http stream flag

-- The loop of ngx_http_get_check_status_format_conf; ngx_strncmp compares two names of one length.
unfoldable pub find_format : List (Bytes × Format) → Bytes → Option Format
find_format [] s = none
find_format ((name, format) ∷ rest) s =
    let later = find_format rest s in
    if not (length s == length name)
    then later
    else if same_bytes s name
    then some format
    else later

unfoldable pub get_format : Bytes → Option Format
get_format s = find_format formats s

-- What ngx_strncasecmp makes of a byte, and whether it finds two strings of one length equal.
abbrev pub lower : ℕ → ℕ
lower b = if leb b'A' b && leb b b'Z' then b + 32 else b

abbrev pub same_lower : Bytes → Bytes → Bool
same_lower [] [] = true
same_lower [] (y ∷ ys) = false
same_lower (x ∷ xs) [] = false
same_lower (x ∷ xs) (y ∷ ys) = lower x == lower y && same_lower xs ys

pub record Context : Type 0 where
  pub format : Option Format
  pub flag : ℕ

-- flag |= bit, for the bits 1 and 2.
abbrev pub set_bit : ℕ → ℕ → ℕ
set_bit bit flag = if flag / bit % 2 == 1 then flag else flag + bit

-- The handlers of the arguments of a request; the second part is false for NGX_ERROR.
unfoldable pub command_format : Context → Bytes → Context × Bool
command_format ctx value = elim (get_format value) [
  | none ↦ (record ctx { format = none }, false)
  | some format ↦ (record ctx { format = some format }, true)
]

unfoldable pub command_status : Context → Bytes → Context × Bool
command_status ctx value =
    if length value == 4 && same_lower value (codes "down")
    then (record ctx { flag = set_bit 1 ctx.flag }, true)
    else if length value == 2 && same_lower value (codes "up")
    then (record ctx { flag = set_bit 2 ctx.flag }, true)
    else (ctx, false)

-- ngx_check_status_commands.
abbrev pub commands : List (Bytes × (Context → Bytes → Context × Bool))
commands = (codes "format", command_format) ∷ (codes "status", command_status) ∷ []

-- What ngx_http_arg finds, an argument's value by its name, is `arg`. What a handler refuses is only logged.
unfoldable pub parse_from :
    (Bytes → Option Bytes) → List (Bytes × (Context → Bytes → Context × Bool)) → Context → Context
parse_from arg [] ctx = ctx
parse_from arg ((name, handler) ∷ rest) ctx = elim (arg name) [
  | none ↦ parse_from arg rest ctx
  | some value ↦ parse_from arg rest (handler ctx value).0
]

unfoldable pub parse_args : ℕ → (Bytes → Option Bytes) → Context → Context
parse_args args_len arg ctx = if args_len == 0 then ctx else parse_from arg commands ctx

-- The directive, with its argument if it has one; `none` is NGX_CONF_ERROR.
unfoldable pub status_directive : Option Bytes → Option Format → Option (Option Format)
status_directive none format = some format
status_directive (some value) format = elim (get_format value) [
  | none ↦ none
  | some f ↦ some (some f)
]

-- A location whose format is not set takes that of its parent, or else the default, HTML.
unfoldable pub merge_loc_conf : Option Format → Option Format → Option Format
merge_loc_conf (some format) prev = some format
merge_loc_conf none (some prev) = some prev
merge_loc_conf none none = get_format (codes "html")

pub data Method : Type 0 where
  get head other : Method

abbrev pub is_get_or_head : Method → Bool
is_get_or_head get = true
is_get_or_head head = true
is_get_or_head other = false

-- NGX_HTTP_NOT_ALLOWED.
abbrev pub not_allowed : ℤ
not_allowed = pos 405

-- What the handler is given: the method, what ngx_http_discard_request_body returns, and the arguments.
pub record Asked : Type 0 where
  pub method : Method
  pub discard : ℤ
  pub args_len : ℕ
  pub arg : Bytes → Option Bytes

abbrev pub is_ok : ℤ → Bool
is_ok (pos n) = n == 0
is_ok (negsuc n) = false

-- The format of the request, or that of its location.
abbrev pub chosen : Format → Option Format → Format
chosen conf none = conf
chosen conf (some format) = format

-- What the handler comes to, with the content type if it has set one.
pub record Handled : Type 0 where
  pub content_type : Option Bytes
  pub started : Started

abbrev pub refused : ℤ → Handled
refused rc = record { content_type = none; started = answered rc none }

abbrev pub no_context : Context
no_context = record { format = none; flag = 0 }

-- ngx_upstream_check_status_handler, in a location whose format is `conf`; the context is allocation `t`.
unfoldable pub status_handler :
    (ℕ → ℕ) → (ℕ → Env) → Core → Asked → (ℕ → Option Source) → Format → ℕ → Handled
status_handler read_int e c asked sources conf t =
    if not (is_get_or_head asked.method)
    then refused not_allowed
    else if not (is_ok asked.discard)
    then refused asked.discard
    else if not ((e 0).alloc t)
    then refused internal_error
    else let ctx = parse_args asked.args_len asked.arg no_context in
      let format = chosen conf ctx.format in
      record {
        content_type = some (content_type format);
        started =
            status_request e c (output_of read_int format) sources 2 ctx.flag ctx.flag (t + 1);
      }
