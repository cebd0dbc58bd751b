-- ===== src/Shipper/Event.antt =====
-- The record that both streams ship, internal/topsrv/shipper/event.go. The time is a number.
use topsrv.Base.{Bool, Text, ℕ}

pub record Event : Type 0 where
  pub ts : ℕ
  pub host : Text
  pub server_name : Text
  pub agent_hostname : Text
  pub remote_addr : Text
  pub method : Text
  pub uri : Text
  pub referer : Text
  pub status : ℕ
  pub body_bytes_sent : ℕ
  pub request_time_us : ℕ
  pub upstream_response_time_us : ℕ
  pub upstream_cache_status : Text
  pub user_agent : Text
  pub bot_family : Text
  pub bot_name : Text
  pub request_id : Text
  pub upstream_status : ℕ
  pub ua_matched : Bool
  pub ua_list_version : Text
  pub reached_upstream : Bool
  pub proxy_host : Text
  pub platform : Text
  pub app_version : Text
  pub visitor_id : Text
