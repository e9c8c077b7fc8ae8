-- ===== src/Config/Names.antt =====
-- The names of the settings in the file (internal/config/config.go, `Load`); in the environment they are
-- in capitals.
use claude_master_go.Base.{[], ◌∷◌, Bytes}

abbrev pub poll_interval_name : Bytes
poll_interval_name =
    b'p' ∷ b'o' ∷ b'l' ∷ b'l' ∷ b'_' ∷ b'i' ∷ b'n' ∷ b't' ∷ b'e' ∷ b'r' ∷ b'v' ∷ b'a' ∷ b'l' ∷ []

abbrev pub tmux_session_name : Bytes
tmux_session_name =
    b't' ∷ b'm' ∷ b'u' ∷ b'x' ∷ b'_' ∷ b's' ∷ b'e' ∷ b's' ∷ b's' ∷ b'i' ∷ b'o' ∷ b'n' ∷ []

abbrev pub include_vscode_name : Bytes
include_vscode_name =
    b'i' ∷ b'n' ∷ b'c' ∷ b'l' ∷ b'u' ∷ b'd' ∷ b'e' ∷ b'_' ∷ b'v' ∷ b's' ∷ b'c' ∷ b'o' ∷ b'd' ∷ b'e'
    ∷ []

abbrev pub auto_attach_name : Bytes
auto_attach_name = b'a' ∷ b'u' ∷ b't' ∷ b'o' ∷ b'_' ∷ b'a' ∷ b't' ∷ b't' ∷ b'a' ∷ b'c' ∷ b'h' ∷ []

abbrev pub limit_warn_percent_name : Bytes
limit_warn_percent_name =
    b'l' ∷ b'i' ∷ b'm' ∷ b'i' ∷ b't' ∷ b'_' ∷ b'w' ∷ b'a' ∷ b'r' ∷ b'n' ∷ b'_' ∷ b'p' ∷ b'e' ∷ b'r'
    ∷ b'c' ∷ b'e' ∷ b'n' ∷ b't' ∷ []

abbrev pub limit_interrupt_percent_name : Bytes
limit_interrupt_percent_name =
    b'l' ∷ b'i' ∷ b'm' ∷ b'i' ∷ b't' ∷ b'_' ∷ b'i' ∷ b'n' ∷ b't' ∷ b'e' ∷ b'r' ∷ b'r' ∷ b'u' ∷ b'p'
    ∷ b't' ∷ b'_' ∷ b'p' ∷ b'e' ∷ b'r' ∷ b'c' ∷ b'e' ∷ b'n' ∷ b't' ∷ []

abbrev pub idle_gc_hours_name : Bytes
idle_gc_hours_name =
    b'i' ∷ b'd' ∷ b'l' ∷ b'e' ∷ b'_' ∷ b'g' ∷ b'c' ∷ b'_' ∷ b'h' ∷ b'o' ∷ b'u' ∷ b'r' ∷ b's' ∷ []

abbrev pub size_policy_name : Bytes
size_policy_name = b's' ∷ b'i' ∷ b'z' ∷ b'e' ∷ b'_' ∷ b'p' ∷ b'o' ∷ b'l' ∷ b'i' ∷ b'c' ∷ b'y' ∷ []

abbrev pub host_flow_scrollback_name : Bytes
host_flow_scrollback_name =
    b'h' ∷ b'o' ∷ b's' ∷ b't' ∷ b'_' ∷ b'f' ∷ b'l' ∷ b'o' ∷ b'w' ∷ b'_' ∷ b's' ∷ b'c' ∷ b'r' ∷ b'o'
    ∷ b'l' ∷ b'l' ∷ b'b' ∷ b'a' ∷ b'c' ∷ b'k' ∷ []

abbrev pub nav_key_name : Bytes
nav_key_name = b'n' ∷ b'a' ∷ b'v' ∷ b'_' ∷ b'k' ∷ b'e' ∷ b'y' ∷ []

abbrev pub nav_scroll_step_name : Bytes
nav_scroll_step_name =
    b'n' ∷ b'a' ∷ b'v' ∷ b'_' ∷ b's' ∷ b'c' ∷ b'r' ∷ b'o' ∷ b'l' ∷ b'l' ∷ b'_' ∷ b's' ∷ b't' ∷ b'e'
    ∷ b'p' ∷ []

abbrev pub nav_page_step_name : Bytes
nav_page_step_name =
    b'n' ∷ b'a' ∷ b'v' ∷ b'_' ∷ b'p' ∷ b'a' ∷ b'g' ∷ b'e' ∷ b'_' ∷ b's' ∷ b't' ∷ b'e' ∷ b'p' ∷ []

abbrev pub pagekey_scroll_name : Bytes
pagekey_scroll_name =
    b'p' ∷ b'a' ∷ b'g' ∷ b'e' ∷ b'k' ∷ b'e' ∷ b'y' ∷ b'_' ∷ b's' ∷ b'c' ∷ b'r' ∷ b'o' ∷ b'l' ∷ b'l'
    ∷ []

abbrev pub wheel_scroll_name : Bytes
wheel_scroll_name =
    b'w' ∷ b'h' ∷ b'e' ∷ b'e' ∷ b'l' ∷ b'_' ∷ b's' ∷ b'c' ∷ b'r' ∷ b'o' ∷ b'l' ∷ b'l' ∷ []

abbrev pub web_image_paste_name : Bytes
web_image_paste_name =
    b'w' ∷ b'e' ∷ b'b' ∷ b'_' ∷ b'i' ∷ b'm' ∷ b'a' ∷ b'g' ∷ b'e' ∷ b'_' ∷ b'p' ∷ b'a' ∷ b's' ∷ b't'
    ∷ b'e' ∷ []

abbrev pub img_paste_key_name : Bytes
img_paste_key_name =
    b'i' ∷ b'm' ∷ b'g' ∷ b'_' ∷ b'p' ∷ b'a' ∷ b's' ∷ b't' ∷ b'e' ∷ b'_' ∷ b'k' ∷ b'e' ∷ b'y' ∷ []

abbrev pub nav_wheel_step_name : Bytes
nav_wheel_step_name =
    b'n' ∷ b'a' ∷ b'v' ∷ b'_' ∷ b'w' ∷ b'h' ∷ b'e' ∷ b'e' ∷ b'l' ∷ b'_' ∷ b's' ∷ b't' ∷ b'e' ∷ b'p'
    ∷ []

abbrev pub session_log_name : Bytes
session_log_name = b's' ∷ b'e' ∷ b's' ∷ b's' ∷ b'i' ∷ b'o' ∷ b'n' ∷ b'_' ∷ b'l' ∷ b'o' ∷ b'g' ∷ []

abbrev pub real_claude_name : Bytes
real_claude_name = b'r' ∷ b'e' ∷ b'a' ∷ b'l' ∷ b'_' ∷ b'c' ∷ b'l' ∷ b'a' ∷ b'u' ∷ b'd' ∷ b'e' ∷ []

abbrev pub gcp_project_name : Bytes
gcp_project_name = b'g' ∷ b'c' ∷ b'p' ∷ b'_' ∷ b'p' ∷ b'r' ∷ b'o' ∷ b'j' ∷ b'e' ∷ b'c' ∷ b't' ∷ []

abbrev pub pc_id_name : Bytes
pc_id_name = b'p' ∷ b'c' ∷ b'_' ∷ b'i' ∷ b'd' ∷ []

abbrev pub cloud_relay_url_name : Bytes
cloud_relay_url_name =
    b'c' ∷ b'l' ∷ b'o' ∷ b'u' ∷ b'd' ∷ b'_' ∷ b'r' ∷ b'e' ∷ b'l' ∷ b'a' ∷ b'y' ∷ b'_' ∷ b'u' ∷ b'r'
    ∷ b'l' ∷ []

abbrev pub google_oauth_client_id_name : Bytes
google_oauth_client_id_name =
    b'g' ∷ b'o' ∷ b'o' ∷ b'g' ∷ b'l' ∷ b'e' ∷ b'_' ∷ b'o' ∷ b'a' ∷ b'u' ∷ b't' ∷ b'h' ∷ b'_' ∷ b'c'
    ∷ b'l' ∷ b'i' ∷ b'e' ∷ b'n' ∷ b't' ∷ b'_' ∷ b'i' ∷ b'd' ∷ []

abbrev pub allowed_emails_name : Bytes
allowed_emails_name =
    b'a' ∷ b'l' ∷ b'l' ∷ b'o' ∷ b'w' ∷ b'e' ∷ b'd' ∷ b'_' ∷ b'e' ∷ b'm' ∷ b'a' ∷ b'i' ∷ b'l' ∷ b's'
    ∷ []
