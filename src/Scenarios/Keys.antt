-- ===== src/Scenarios/Keys.antt =====
-- Concrete inputs for the dispatch of keys and the settings: an arrow key in nav mode, an arrow key after
-- a page key on a connection whose second write fails, and settings that are too large.
use claude_master_go.Base.{◌≡◌, refl, true, false, none, some, [], ◌∷◌, Bytes}
use claude_master_go.Config.Values.{Config}
use claude_master_go.Config.Load.{Sources, load}
use claude_master_go.Config.Load.Bounds.{IsBounded, load-IsBounded}
use claude_master_go.Screen.Vt.{new_model}
use claude_master_go.Screen.Scroll.{new_scroll_renderer}
use claude_master_go.Keys.Host.{HostState, Terminal, handle_host_input}
use claude_master_go.Keys.Host.Quiet.{sent, Ways, handle_host_input-Ways}
use claude_master_go.Keys.Client.{Client, Link, begin, process_stdin}
use claude_master_go.Keys.Same.Client.{open_link, raw_bytes, process_stdin-handle_host_input}
use claude_master_go.Keys.Client.Errors.{Grew, process_stdin-Grew}

abbrev same_bytes : Bytes → Bytes
same_bytes s = s

-- The settings of a home without a file; POLL_INTERVAL and every other variable are 99999999.
abbrev sources : Sources
sources = record {
  env = λ k. some (57 ∷ 57 ∷ 57 ∷ 57 ∷ 57 ∷ 57 ∷ 57 ∷ 57 ∷ []);
  file = [];
  host = none;
  home = same_bytes;
  windows = false;
  lower = same_bytes;
  upper = same_bytes;
}

load-IsBounded_example : IsBounded sources (load sources)
load-IsBounded_example = load-IsBounded sources

abbrev settings : Config
settings = record {
  poll_interval = 1;
  tmux_session = [];
  include_vscode = false;
  auto_attach = false;
  limit_warn_pct = 80;
  limit_interrupt_pct = 90;
  idle_gc_hours = 4;
  size_policy = [];
  host_flow_scrollback = false;
  nav_key = 28 ∷ [];
  nav_scroll_step = 1;
  nav_page_step = 10;
  page_key_scroll = true;
  wheel_scroll = true;
  web_image_paste = false;
  img_paste_key = none;
  nav_wheel_step = 3;
  session_log = [];
  config_file = [];
  real_claude = [];
  gcp_project = [];
  pc_id = [];
  cloud_relay_url = [];
  google_client_id = [];
  allowed_emails = [];
}

abbrev terminal : Terminal
terminal = record { vt = new_model 4 2; rows = 2; cols = 4; attached = true }

abbrev reading : HostState
reading = record { nav = true; view = new_scroll_renderer }

-- `\x1b[A`.
abbrev arrow : Bytes
arrow = 27 ∷ b'[' ∷ b'A' ∷ []

handle_host_input-Ways_example :
    Ways settings arrow true
      ((handle_host_input settings terminal arrow reading).0.nav)
      (sent ((handle_host_input settings terminal arrow reading).1))
handle_host_input-Ways_example = handle_host_input-Ways settings terminal arrow reading refl

abbrev scrolled_client : Client
scrolled_client = record { nav_mode = false; pk_scrolled = true; last_note = 0 }

-- The return to the live view is written, the key itself is not.
abbrev broken : Link
broken = record { log = []; answers = true ∷ false ∷ [] }

process_stdin-Grew_example :
    Grew (begin scrolled_client broken) (process_stdin settings 0 arrow none scrolled_client broken)
process_stdin-Grew_example = process_stdin-Grew settings 0 arrow none scrolled_client broken

-- `^]`.
abbrev control_key : Bytes
control_key = b'^' ∷ 93 ∷ []

abbrev client : Client
client = record { nav_mode = true; pk_scrolled = true; last_note = 0 }

process_stdin-handle_host_input_example :
    ((process_stdin settings 9 arrow none client open_link).client.nav_mode
      ≡ (handle_host_input settings terminal arrow reading).0.nav)
    × (raw_bytes (process_stdin settings 9 arrow none client open_link).link.log
        ≡ sent (handle_host_input settings terminal arrow reading).1)
process_stdin-handle_host_input_example =
    process_stdin-handle_host_input settings terminal 9 arrow none client reading refl refl refl
      refl
