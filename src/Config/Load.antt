-- ===== src/Config/Load.antt =====
-- internal/config/config.go: `Load`, which takes a setting from the environment, else from the file, else
-- from its default. The environment, the parsed file, the host's name, the home directory and the case
-- mappings of package strings are parameters. The file is the table that
-- `loadFile` returns: the section of this program or all of it, its keys in small letters.
pub mod Bounds
use claude_master_go.Base.{
  ℕ, suc, Bool, true, false, Option, none, some, List, [], ◌∷◌, ◌++◌, ◌==◌, ltb, if◌then◌else◌,
  Bytes, equal, ℤ, pos, negsuc, at_least, lookup, map,
}
use claude_master_go.Config.Values.{Config}
use claude_master_go.Config.Names.{
  poll_interval_name, tmux_session_name, include_vscode_name, auto_attach_name,
  limit_warn_percent_name, limit_interrupt_percent_name, idle_gc_hours_name, size_policy_name,
  host_flow_scrollback_name, nav_key_name, nav_scroll_step_name, nav_page_step_name,
  pagekey_scroll_name, wheel_scroll_name, web_image_paste_name, img_paste_key_name,
  nav_wheel_step_name, session_log_name, real_claude_name, gcp_project_name, pc_id_name,
  cloud_relay_url_name, google_oauth_client_id_name, allowed_emails_name,
}
use claude_master_go.Config.Number.{atoi}
use claude_master_go.Config.Keyspec.{parse_nav_key, parse_key_or_nil}
use claude_master_go.Screen.Render.{digits}
use claude_master_go.Tmux.Text.{trim_space}

-- A value of the file; a float is given as its shortest decimal text.
pub data Toml : Type 0 where
  text : Bytes → Toml
  boolean : Bool → Toml
  integer : ℤ → Toml
  float : Bytes → Toml
  other : Toml

abbrev pub true_text : Bytes
true_text = b't' ∷ b'r' ∷ b'u' ∷ b'e' ∷ []

abbrev pub false_text : Bytes
false_text = b'f' ∷ b'a' ∷ b'l' ∷ b's' ∷ b'e' ∷ []

-- `strconv.FormatInt`.
unfoldable pub format_int : ℤ → Bytes
format_int (pos n) = digits 20 n []
format_int (negsuc n) = b'-' ∷ digits 20 (suc n) []

-- `tomlToString`.
unfoldable pub toml_to_string : Toml → Bytes
toml_to_string (text s) = s
toml_to_string (boolean b) = if b then true_text else false_text
toml_to_string (integer n) = format_int n
toml_to_string (float s) = s
toml_to_string _ = []

-- `normalizeHost`: what stands before the first dot.
unfoldable pub before_dot : Bytes → Bytes
before_dot [] = []
before_dot (c ∷ s) = let rest = before_dot s in if c == b'.' then [] else c ∷ rest

unfoldable pub or_default : Bytes → Bytes → Bytes
or_default [] def = def
or_default (c ∷ s) def = c ∷ s

abbrev pub normalize_host : Bytes → Bytes → Bytes
normalize_host h def = or_default (trim_space (before_dot (trim_space h))) def

-- `hostnameOr`.
unfoldable pub hostname_or : Option Bytes → Bytes → Bytes
hostname_or (some h) def = normalize_host h def
hostname_or none def = def

-- A number put between two bounds.
unfoldable pub bounded : ℕ → ℕ → ℤ → ℕ
bounded lo hi (negsuc n) = if ltb hi lo then hi else lo
bounded lo hi (pos n) = let m = if ltb n lo then lo else n in if ltb hi m then hi else m

pub record Sources : Type 0 where
  pub env : Bytes → Option Bytes
  pub file : List (Bytes × Toml)
  pub host : Option Bytes
  pub home : Bytes → Bytes
  pub windows : Bool
  pub lower : Bytes → Bytes
  pub upper : Bytes → Bytes

module _ (src : Sources) where
  unfoldable pub from_file : Option Toml → Option Bytes
  from_file none = none
  from_file (some v) = some (toml_to_string v)

  unfoldable pub first_of : Option Bytes → Option Bytes → Option Bytes
  first_of (some v) rest = some v
  first_of none rest = rest

  -- `get`, of a name in small letters.
  abbrev pub get : Bytes → Option Bytes
  get key = first_of (src.env (src.upper key)) (from_file (lookup key src.file))

  unfoldable pub text_of : Option Bytes → Bytes → Bytes
  text_of (some v) def = v
  text_of none def = def

  abbrev pub str : Bytes → Bytes → Bytes
  str key def = text_of (get key) def

  unfoldable pub boolean_of : Option Bytes → Bool → Bool
  boolean_of (some v) def = equal (src.lower (trim_space v)) true_text
  boolean_of none def = def

  abbrev pub boolean_setting : Bytes → Bool → Bool
  boolean_setting key def = boolean_of (get key) def

  unfoldable pub number_or : ℕ → ℕ → ℕ → Option ℤ → ℕ
  number_or def lo hi (some n) = bounded lo hi n
  number_or def lo hi none = def

  unfoldable pub integer_of : Option Bytes → ℕ → ℕ → ℕ → ℕ
  integer_of (some v) def lo hi = number_or def lo hi (atoi (trim_space v))
  integer_of none def lo hi = def

  abbrev pub integer_setting : Bytes → ℕ → ℕ → ℕ → ℕ
  integer_setting key def lo hi = integer_of (get key) def lo hi

  abbrev pub config_variable : Bytes
  config_variable =
      b'C' ∷ b'L' ∷ b'A' ∷ b'U' ∷ b'D' ∷ b'E' ∷ b'_' ∷ b'M' ∷ b'A' ∷ b'S' ∷ b'T' ∷ b'E' ∷ b'R'
      ∷ b'_' ∷ b'C' ∷ b'O' ∷ b'N' ∷ b'F' ∷ b'I' ∷ b'G' ∷ []

  abbrev pub real_claude_path : Bytes
  real_claude_path =
      if src.windows
      then b'.' ∷ b'l' ∷ b'o' ∷ b'c' ∷ b'a' ∷ b'l' ∷ b'/' ∷ b'b' ∷ b'i' ∷ b'n' ∷ b'/' ∷ b'c' ∷ b'l'
        ∷ b'a' ∷ b'u' ∷ b'd' ∷ b'e' ∷ b'.' ∷ b'e' ∷ b'x' ∷ b'e' ∷ []
      else b'.' ∷ b'l' ∷ b'o' ∷ b'c' ∷ b'a' ∷ b'l' ∷ b'/' ∷ b'b' ∷ b'i' ∷ b'n' ∷ b'/' ∷ b'c' ∷ b'l'
        ∷ b'a' ∷ b'u' ∷ b'd' ∷ b'e' ∷ []

  -- The path of the file.
  abbrev pub config_path : Bytes
  config_path = or_default (text_of (src.env config_variable) []) (
      src.home (
        b'.' ∷ b'c' ∷ b'l' ∷ b'a' ∷ b'u' ∷ b'd' ∷ b'e' ∷ b'-' ∷ b'm' ∷ b'a' ∷ b's' ∷ b't' ∷ b'e'
        ∷ b'r' ∷ b'.' ∷ b't' ∷ b'o' ∷ b'm' ∷ b'l' ∷ []))

  -- `Load`; the paths that are fixed below the home directory are left out.
  abbrev pub load : Config
  load = record {
    poll_interval = integer_setting poll_interval_name 1 0 86400;
    tmux_session = str tmux_session_name (
        b'c' ∷ b'l' ∷ b'a' ∷ b'u' ∷ b'd' ∷ b'e' ∷ b'-' ∷ b'm' ∷ b'a' ∷ b's' ∷ b't' ∷ b'e' ∷ b'r'
        ∷ []);
    include_vscode = boolean_setting include_vscode_name false;
    auto_attach = boolean_setting auto_attach_name false;
    limit_warn_pct = integer_setting limit_warn_percent_name 80 0 100;
    limit_interrupt_pct = integer_setting limit_interrupt_percent_name 90 0 100;
    idle_gc_hours = integer_setting idle_gc_hours_name 4 0 168;
    size_policy = src.lower (str size_policy_name (b'c' ∷ b'l' ∷ b'i' ∷ b'e' ∷ b'n' ∷ b't' ∷ []));
    host_flow_scrollback = boolean_setting host_flow_scrollback_name false;
    nav_key = parse_nav_key src.lower src.upper (str nav_key_name (92 ∷ b'x' ∷ b'1' ∷ b'c' ∷ []));
    nav_scroll_step = integer_setting nav_scroll_step_name 1 1 1000;
    nav_page_step = integer_setting nav_page_step_name 10 1 100000;
    page_key_scroll = boolean_setting pagekey_scroll_name false;
    wheel_scroll = boolean_setting wheel_scroll_name false;
    web_image_paste = boolean_setting web_image_paste_name false;
    img_paste_key = parse_key_or_nil src.lower src.upper (str img_paste_key_name []);
    nav_wheel_step = integer_setting nav_wheel_step_name 3 1 1000;
    session_log = trim_space (str session_log_name []);
    config_file = config_path;
    real_claude = str real_claude_name (src.home real_claude_path);
    gcp_project = str gcp_project_name [];
    pc_id = str pc_id_name (hostname_or src.host (b'p' ∷ b'c' ∷ []));
    cloud_relay_url = str cloud_relay_url_name [];
    google_client_id = str google_oauth_client_id_name [];
    allowed_emails = str allowed_emails_name [];
  }
