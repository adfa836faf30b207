-- ===== src/Config/Finish.antt =====
-- configuration/ngx_healthcheck_config.c: the defaults of a check directive, and the constraints
-- between its arguments.
pub mod Bounds
use nginx_healthcheck_module.Base.{
  ℕ, ◌+◌, ◌-◌, ◌*◌, ◌/◌, ◌^◌, Bool, true, false, not, ◌&&◌, ◌||◌, ltb, leb, ◌==◌, if◌then◌else◌,
  min, max, u64_max, u64,
}
use nginx_healthcheck_module.Config.{SrvConf, is_tcp}

-- Where a rehandshake interval comes from.
pub data Handshake : Type 0 where
  off default_time explicit_time : Handshake

-- The arguments while a directive is read; 0 stands for one that is not given.
pub record CheckArgs : Type 0 where
  pub interval : ℕ
  pub timeout : ℕ
  pub timeout_set : Bool
  pub reuse : Handshake
  pub reuse_time : ℕ
  pub keepalive : Bool
  pub keepalive_handshake : Handshake
  pub keepalive_time : ℕ
  pub keepalive_idle : ℕ
  pub keepalive_interval : ℕ
  pub keepalive_count : ℕ

-- NGX_HEALTHCHECK_REHANDSHAKE_MAX, half of the largest ngx_msec_t.
abbrev pub rehandshake_max : ℕ
rehandshake_max = u64_max / 2

abbrev pub keepalive_time_max : ℕ
keepalive_time_max = 32_767

-- What the configuration phase logs when it refuses a directive.
pub data ConfError : Type 0 where
  short_interval long_timeout not_tcp short_rehandshake long_idle no_idle long_interval invalid :
      ConfError

pub data Configured : Type 0 where
  configured : SrvConf → Configured
  refused : ConfError → Configured

abbrev pub is_off : Handshake → Bool
is_off off = true
is_off _ = false

-- NGX_HAVE_KEEPALIVE_TUNABLE is taken to be set.
unfoldable pub keepalive_conf : SrvConf → CheckArgs → ℕ → Configured
keepalive_conf c a idle =
    let interval = if a.keepalive_interval == 0 then 1 else a.keepalive_interval in
    if ltb idle interval
    then refused long_interval
    else configured (record c {
      keepalive_idle = idle;
      keepalive_interval = interval;
      keepalive_count = if a.keepalive_count == 0 then 3 else a.keepalive_count;
    })

-- The keepalive idle time in seconds, where none is given.
unfoldable pub default_idle : SrvConf → ℕ → ℕ
default_idle c handshake =
    let idle = u64 (c.check_interval + 999) / 1000 in
    if handshake == u64_max then idle else min idle ((handshake - 1) / 1000)

unfoldable pub finish_keepalive : SrvConf → CheckArgs → ℕ → Configured
finish_keepalive c a handshake =
    if not (a.keepalive_idle == 0)
    then if not (handshake == u64_max) && leb handshake (u64 (a.keepalive_idle * 1000))
      then refused long_idle
      else keepalive_conf c a a.keepalive_idle
    else if ltb (default_idle c handshake) 1
    then refused no_idle
    else keepalive_conf c a (min (default_idle c handshake) keepalive_time_max)

unfoldable pub check_timeout_of : CheckArgs → ℕ
check_timeout_of a = if a.timeout_set then a.timeout else min 5000 (a.interval - a.interval / 10)

abbrev pub handshake_time : ℕ → Handshake → ℕ → ℕ
handshake_time default off explicit = u64_max
handshake_time default default_time explicit = default
handshake_time default explicit_time explicit = explicit

abbrev pub default_handshake : ℕ → ℕ
default_handshake interval = min (max 30_000 (u64 (interval * 2))) rehandshake_max

abbrev pub reuse_of : CheckArgs → ℕ
reuse_of a = handshake_time (default_handshake a.interval) a.reuse a.reuse_time

abbrev pub keepalive_of : CheckArgs → ℕ
keepalive_of a =
    if a.keepalive
    then handshake_time (default_handshake a.interval) a.keepalive_handshake a.keepalive_time
    else u64_max

abbrev pub timed : SrvConf → CheckArgs → SrvConf
timed c a = record c { check_interval = a.interval; check_timeout = check_timeout_of a }

abbrev pub keeping : SrvConf → CheckArgs → SrvConf
keeping c a =
    let handshake = min (reuse_of a) (keepalive_of a) in
    record (timed c a) {
      keep_connection = not (is_off a.reuse) || a.keepalive;
      rehandshake = if handshake == u64_max then 0 else handshake;
      keepalive = a.keepalive;
    }

unfoldable pub finish_conf : SrvConf → CheckArgs → Configured
finish_conf c a =
    if ltb a.interval 100
    then refused short_interval
    else if a.timeout_set && leb a.interval a.timeout
    then refused long_timeout
    else if not (is_tcp c.check_type) && (not (is_off a.reuse) || a.keepalive)
    then refused not_tcp
    else if leb (reuse_of a) a.interval || leb (keepalive_of a) a.interval
    then refused short_rehandshake
    else if not a.keepalive
    then configured (keeping c a)
    else finish_keepalive (keeping c a) a (min (reuse_of a) (keepalive_of a))
