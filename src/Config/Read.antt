-- ===== src/Config/Read.antt =====
-- configuration/ngx_healthcheck_config.c: the arguments of a check directive.
pub mod Accepted
use nginx_healthcheck_module.Base.{
  ℕ, suc, ◌*◌, ◌/◌, ◌^◌, ◌<◌, ◌≡◌, Bool, true, false, ◌&&◌, ◌||◌, Option, none, some, List, [], ◌∷◌,
  length, ltb, leb, ◌==◌, if◌then◌else◌, u64, Bytes, codes, same_bytes, strip_prefix,
}
use nginx_healthcheck_module.Config.{CheckType, tcp, udp, is_tcp, SrvConf}
use nginx_healthcheck_module.Config.Finish.{
  Handshake, off, default_time, explicit_time, CheckArgs, rehandshake_max, keepalive_time_max,
  Configured, configured, refused, invalid, finish_conf,
}

-- What Nginx reads a directive with: ngx_parse_time (in seconds), ngx_atoi (which returns
-- NGX_ERROR above the largest ngx_int_t) and ngx_strncasecmp on whole strings.
pub record ConfLib : Type 0 where
  pub parse_time : Bytes → Option ℕ
  pub atoi : Bytes → Option ℕ
  pub same_nocase : Bytes → Bytes → Bool
  pub atoi_bounded : (s : Bytes) (n : ℕ) → atoi s ≡ some n → n < 2 ^ 63

-- `time` is what `*time` holds before.
unfoldable pub parse_handshake : ConfLib → Bytes → ℕ → Option (Handshake × ℕ)
parse_handshake l value time =
    if length value == 3 && l.same_nocase value (codes "off")
    then some (off, time)
    else if length value == 0 || length value == 2 && l.same_nocase value (codes "on")
    then some (default_time, time)
    else elim (l.parse_time value) [
      | none ↦ none
      | some seconds ↦
          if seconds == 0 || ltb (rehandshake_max / 1000) seconds
          then none
          else some (explicit_time, u64 (seconds * 1000))
    ]

-- The fields between the colons.
unfoldable pub fields : Bytes → List Bytes
fields [] = [] ∷ []
fields (b ∷ s) = elim (fields s) [
  | [] ↦ []
  | field ∷ rest ↦ if b == b':' then [] ∷ field ∷ rest else (b ∷ field) ∷ rest
]

-- A number of at least 1 and at most `bound`.
abbrev pub within : ℕ → Option ℕ → Option ℕ
within bound none = none
within bound (some n) = if n == 0 || ltb bound n then none else some n

-- The field number `n`.
unfoldable pub parse_field : ConfLib → ℕ → Bytes → CheckArgs → Option CheckArgs
parse_field l n field a =
    if n == 0
    then elim (parse_handshake l field a.keepalive_time) [
      | none ↦ none
      | some (mode, time) ↦ some (record a { keepalive_handshake = mode; keepalive_time = time })
    ]
    else if n == 1 || n == 2
    then if length field == 0
      then some a
      else elim (within keepalive_time_max (l.parse_time field)) [
        | none ↦ none
        | some seconds ↦ some (
            if n == 1
            then record a { keepalive_idle = seconds }
            else record a { keepalive_interval = seconds })
      ]
    else if n == 3
    then if length field == 0 then some a else elim (within 127 (l.atoi field)) [
      | none ↦ none
      | some count ↦ some (record a { keepalive_count = count })
    ]
    else none

unfoldable pub parse_fields : ConfLib → ℕ → List Bytes → CheckArgs → Option CheckArgs
parse_fields l n [] a = some a
parse_fields l n (field ∷ rest) a = elim (parse_field l n field a) [
  | none ↦ none
  | some b ↦ parse_fields l (suc n) rest b
]

unfoldable pub parse_keepalive : ConfLib → Bytes → CheckArgs → Option CheckArgs
parse_keepalive l value a =
    if length value == 0
    then none
    else if length value == 3 && l.same_nocase value (codes "off")
    then some (record a { keepalive = false })
    else parse_fields l 0 (fields value) (record a {
      keepalive = true;
      keepalive_handshake = default_time;
      keepalive_idle = 0;
      keepalive_interval = 0;
      keepalive_count = 0;
    })

-- The variables of the loop of ngx_healthcheck_check.
pub record Draft : Type 0 where
  pub args : CheckArgs
  pub check_type : Option CheckType
  pub port : ℕ
  pub rise : ℕ
  pub fall : ℕ
  pub down : Option Bool

abbrev pub first_draft : Draft
first_draft = record {
  args = record {
    interval = 5000;
    timeout = 0;
    timeout_set = false;
    reuse = off;
    reuse_time = 0;
    keepalive = false;
    keepalive_handshake = off;
    keepalive_time = 0;
    keepalive_idle = 0;
    keepalive_interval = 0;
    keepalive_count = 0;
  };
  check_type = none;
  port = 0;
  rise = 2;
  fall = 3;
  down = none;
}

-- Not NGX_ERROR and not 0.
abbrev pub positive : Option ℕ → Option ℕ
positive none = none
positive (some n) = if n == 0 then none else some n

-- ngx_healthcheck_types, by name.
abbrev pub type_named : Bytes → Option CheckType
type_named s =
    if same_bytes s (codes "tcp")
    then some tcp
    else if same_bytes s (codes "udp")
    then some udp
    else none

-- What follows the prefix of an argument is read into the draft.
abbrev pub Reader : Type 0
Reader = ConfLib → Bytes → Draft → Option Draft

unfoldable pub read_type : Reader
read_type l s d = elim (type_named s) [
  | none ↦ none
  | some type ↦ some (record d { check_type = some type })
]

unfoldable pub read_port : Reader
read_port l s d = elim (within 65_535 (l.atoi s)) [
  | none ↦ none
  | some n ↦ some (record d { port = n })
]

unfoldable pub read_interval : Reader
read_interval l s d = elim (positive (l.atoi s)) [
  | none ↦ none
  | some n ↦ some (record d { args = record d.args { interval = n } })
]

unfoldable pub read_timeout : Reader
read_timeout l s d = elim (positive (l.atoi s)) [
  | none ↦ none
  | some n ↦ some (record d { args = record d.args { timeout = n; timeout_set = true } })
]

unfoldable pub read_rise : Reader
read_rise l s d = elim (positive (l.atoi s)) [ none ↦ none | some n ↦ some (record d { rise = n }) ]

unfoldable pub read_fall : Reader
read_fall l s d = elim (positive (l.atoi s)) [ none ↦ none | some n ↦ some (record d { fall = n }) ]

unfoldable pub read_down : Reader
read_down l s d =
    if l.same_nocase s (codes "true")
    then some (record d { down = some true })
    else if l.same_nocase s (codes "false")
    then some (record d { down = some false })
    else none

unfoldable pub read_reuse : Reader
read_reuse l s d = if length s == 0 then none else elim (parse_handshake l s d.args.reuse_time) [
  | none ↦ none
  | some (mode, time) ↦ some (record d { args = record d.args { reuse = mode; reuse_time = time } })
]

unfoldable pub read_keepalive : Reader
read_keepalive l s d = elim (parse_keepalive l s d.args) [
  | none ↦ none
  | some a ↦ some (record d { args = a })
]

-- The tests of the loop body, in their order.
abbrev pub readers : List (Bytes × Reader)
readers =
    (codes "type=", read_type)
    ∷ (codes "port=", read_port)
    ∷ (codes "interval=", read_interval)
    ∷ (codes "timeout=", read_timeout)
    ∷ (codes "rise=", read_rise)
    ∷ (codes "fall=", read_fall)
    ∷ (codes "default_down=", read_down)
    ∷ (codes "reuse=", read_reuse)
    ∷ (codes "keepalive=", read_keepalive)
    ∷ []

unfoldable pub read_with : ConfLib → List (Bytes × Reader) → Bytes → Draft → Option Draft
read_with l [] value d = none
read_with l ((prefix, reader) ∷ rest) value d = elim (strip_prefix prefix value) [
  | none ↦ read_with l rest value d
  | some s ↦ reader l s d
]

unfoldable pub read_all : ConfLib → List Bytes → Draft → Option Draft
read_all l [] d = some d
read_all l (value ∷ rest) d = elim (read_with l readers value d) [
  | none ↦ none
  | some e ↦ read_all l rest e
]

abbrev pub default_send : CheckType → Bytes
default_send tcp = []
default_send udp = codes "NGX_UDP_CHECKER"

abbrev or_else {ℓ} : {A : Type ℓ} → Option A → A → A
or_else none x = x
or_else (some y) x = y

-- The configuration that finish_conf completes.
abbrev pub drafted : Draft → SrvConf
drafted d =
    let type = or_else d.check_type tcp in
    record {
      port = d.port;
      fall_count = d.fall;
      rise_count = d.rise;
      check_interval = 0;
      check_timeout = 0;
      check_type = type;
      send = default_send type;
      default_down = or_else d.down false;
      keep_connection = false;
      rehandshake = 0;
      keepalive = false;
      keepalive_idle = 0;
      keepalive_interval = 0;
      keepalive_count = 0;
    }

-- The arguments behind the name of the directive, in a configuration that was all zero.
unfoldable pub check : ConfLib → List Bytes → Configured
check l values = elim (read_all l values first_draft) [
  | none ↦ refused invalid
  | some d ↦ finish_conf (drafted d) d.args
]
