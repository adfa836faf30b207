-- ===== src/Config.antt =====
-- common.h.in: the check parameters of an upstream.
pub mod Finish
pub mod Read
pub mod Peers
use nginx_healthcheck_module.Base.{ℕ, Bool, true, false, List}

-- NGX_CHECK_TYPE_TCP and NGX_CHECK_TYPE_UDP, the two entries of ngx_healthcheck_types.
pub data CheckType : Type 0 where
  tcp udp : CheckType

abbrev pub is_tcp : CheckType → Bool
is_tcp tcp = true
is_tcp udp = false

-- ngx_upstream_check_srv_conf_t. Bytes are numbers below 256.
pub record SrvConf : Type 0 where
  pub port : ℕ
  pub fall_count : ℕ
  pub rise_count : ℕ
  pub check_interval : ℕ
  pub check_timeout : ℕ
  pub check_type : CheckType
  pub send : List ℕ
  pub default_down : Bool
  pub keep_connection : Bool
  pub rehandshake : ℕ
  pub keepalive : Bool
  pub keepalive_idle : ℕ
  pub keepalive_interval : ℕ
  pub keepalive_count : ℕ
