-- ===== src/Config.antt =====
-- src/config.rs: the settings. Times are in milliseconds.
use dendri_server.Common.{ℕ, Bool, Option, List, Text}

pub record Config : Type 0 where
  pub port : ℕ
  pub host : Text
  pub key : Text
  pub key_file : Option Text
  pub path : Text
  pub concurrent_limit : ℕ
  pub alive_timeout : ℕ
  pub idle_timeout : ℕ
  pub expire_timeout : ℕ
  pub allow_discovery : Bool
  pub discovery_token : Option Text
  pub cleanup_out_msgs : ℕ
  pub cors : List Text
  pub sslkey : Option Text
  pub sslcert : Option Text
  pub enable_relay : Bool
  pub max_message_size : ℕ
  pub rate_limit_signaling : ℕ
  pub rate_limit_data : ℕ
  pub turn_secret : Option Text
  pub turn_servers : List Text
  pub max_room_size : ℕ
  pub max_rooms_per_client : ℕ
  pub max_total_rooms : ℕ
  pub replay_buffer_size : ℕ
  pub replay_buffer_ttl : ℕ
  pub session_ttl : ℕ
  pub jwt_secret : Option Text
  pub admin_token : Option Text
  pub require_api_key : Bool
  pub mail_ak_id : Option Text
  pub mail_ak_secret : Option Text
  pub mail_region : Text
  pub mail_from : Text
  pub dashboard_url : Text
  pub website_url : Text
  pub webhook_url : Option Text
  pub webhook_secret : Option Text
  pub redis_url : Text
  pub strip_ice_candidates : Bool
