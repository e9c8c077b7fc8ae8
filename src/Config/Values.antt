-- ===== src/Config/Values.antt =====
-- internal/config/config.go: the settings. Those that the source bounds below by 0 are numbers.
use claude_master_go.Base.{ℕ, Bool, Option, Bytes}

pub record Config : Type 0 where
  pub poll_interval : ℕ
  pub tmux_session : Bytes
  pub include_vscode : Bool
  pub auto_attach : Bool
  pub limit_warn_pct : ℕ
  pub limit_interrupt_pct : ℕ
  pub idle_gc_hours : ℕ
  pub size_policy : Bytes
  pub host_flow_scrollback : Bool
  pub nav_key : Bytes
  pub nav_scroll_step : ℕ
  pub nav_page_step : ℕ
  pub page_key_scroll : Bool
  pub wheel_scroll : Bool
  pub web_image_paste : Bool
  pub img_paste_key : Option Bytes
  pub nav_wheel_step : ℕ
  pub session_log : Bytes
  pub config_file : Bytes
  pub real_claude : Bytes
  pub gcp_project : Bytes
  pub pc_id : Bytes
  pub cloud_relay_url : Bytes
  pub google_client_id : Bytes
  pub allowed_emails : Bytes
