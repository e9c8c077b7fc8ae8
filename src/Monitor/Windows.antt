-- ===== src/Monitor/Windows.antt =====
-- internal/tmux/tmux.go: the windows that the manager has made, by the keys of their sessions. The tmux
-- program is a parameter: the names of the windows, none where the command fails, and what its
-- commands do, whose errors are dropped.
use claude_master_go.Base.{
  ℕ, zero, suc, Bool, false, not, ◌&&◌, ◌||◌, Option, none, some, List, [], ◌∷◌, ◌++◌,
  if◌then◌else◌, Bytes, ◌==◌, equal, has_prefix, is_empty, take, lookup, delete, put,
}
use claude_master_go.Screen.Render.{digits}

pub data Action : Type 0 where
  new_session : Action
  new_window : Bytes → Bytes → Action
  select_window : Bytes → Action
  rename_window : Bytes → Bytes → Action
  kill_window : Bytes → Action
  send_keys : Bytes → Bytes → Action
  set_style : Bytes → Bytes → Bytes → Action
  kill_id : Bytes → Action

pub record Tmux : Type 1 where
  pub State : Type 0
  pub list : State → Option (List Bytes)
  pub act : Action → State → State
  pub has_session : State → Bool
  pub can_select : Bytes → State → Bool
  pub pane_command : Bytes → State → Bytes
  pub lower : Bytes → Bytes
  pub quote : Bytes → Bytes
  pub self : Bytes

unfoldable pub contains : List Bytes → Bytes → Bool
contains [] v = false
contains (s ∷ ss) v = let rest = contains ss v in equal s v || rest

-- `m[key]` of a map of strings.
unfoldable pub or_nothing : Option Bytes → Bytes
or_nothing none = []
or_nothing (some v) = v

-- `itoa`, below 10000.
abbrev pub itoa : ℕ → Bytes
itoa n = digits 4 n []

-- The loop of `uniqueName` over the numbers from `i` on.
unfoldable pub numbered : ℕ → ℕ → Bytes → Bytes → List Bytes → Bytes
numbered zero i pre base existing = base
numbered (suc left) i pre base existing =
    let rest = numbered left (suc i) pre base existing in
    let c = pre ++ b'-' ∷ itoa i in if contains existing c then rest else c

-- `uniqueName`, by the windows that there are.
unfoldable pub unique_name : Bytes → List Bytes → Bytes
unique_name base existing =
    let b = take 20 base in if contains existing b then numbered 48 2 (take 17 b) b existing else b

module _ (t : Tmux) where
  -- `keyToWindow`, and the state of tmux.
  pub record Manager : Type 0 where
    pub names : List (Bytes × Bytes)
    pub tmux : t.State

  -- `ListWindows`, which has no window where the command fails.
  unfoldable pub or_empty : Option (List Bytes) → List Bytes
  or_empty none = []
  or_empty (some ws) = ws

  abbrev pub list_windows : Manager → List Bytes
  list_windows m = or_empty (t.list m.tmux)

  -- `WindowFor`.
  abbrev pub window_for : Bytes → Manager → Bytes
  window_for key m = or_nothing (lookup key m.names)

  abbrev pub is_there : Bytes → Manager → Bool
  is_there key m = not (is_empty (window_for key m)) && contains (list_windows m) (window_for key m)

  -- `EnsureSession` on Unix.
  unfoldable pub ensure_session : Manager → Manager
  ensure_session m =
      if t.has_session m.tmux then m else record m { tmux = t.act new_session m.tmux }

  -- The window that `EnsureCmdWindow` and `AddWindow` make.
  unfoldable pub make_window : Bytes → Bytes → Bytes → Manager → Manager
  make_window key base command m =
      let name = unique_name base (list_windows m) in
      record m { names = put key name m.names; tmux = t.act (new_window name command) m.tmux }

  -- `EnsureCmdWindow`.
  unfoldable pub ensure_cmd_window : Bytes → Bytes → Bytes → Manager → Manager
  ensure_cmd_window key base command m =
      if is_there key m then m else make_window key base command m

  -- `socketCmd`.
  abbrev pub socket_cmd : Bytes → Bytes
  socket_cmd sock = t.quote t.self ++ socket_client ++ t.quote sock
    where
      socket_client : Bytes
      socket_client =
          b' ' ∷ b's' ∷ b'o' ∷ b'c' ∷ b'k' ∷ b'e' ∷ b't' ∷ b'-' ∷ b'c' ∷ b'l' ∷ b'i' ∷ b'e' ∷ b'n'
          ∷ b't' ∷ b' ' ∷ b'-' ∷ b'-' ∷ b'r' ∷ b'e' ∷ b't' ∷ b'r' ∷ b'y' ∷ b' ' ∷ []

  -- `AddWindow` of a session with a socket.
  abbrev pub add_window : Bytes → Bytes → Bytes → Manager → Manager
  add_window key dir sock m = ensure_cmd_window key dir (socket_cmd sock) m

  -- `RenameWindow`.
  unfoldable pub rename : Bytes → Bytes → Manager → Manager
  rename key new_name m = if not (is_there key m) then m else record m {
    names = put key (take 30 new_name) m.names;
    tmux = t.act (rename_window (window_for key m) (take 30 new_name)) m.tmux;
  }

  -- `RemoveWindow`.
  unfoldable pub remove_window : Bytes → Manager → Manager
  remove_window key m =
      let name = window_for key m in
      if is_empty name then m else record m {
        names = delete key m.names;
        tmux = if contains (list_windows m) name then t.act (kill_window name) m.tmux else m.tmux;
      }

  -- `AdoptWindow`.
  unfoldable pub adopt_window : Bytes → Bytes → Manager → Manager
  adopt_window key name m = record m { names = put key name m.names }

  -- `ReattachWindow`.
  unfoldable pub reattach_window : Bytes → Bytes → Manager → Manager
  reattach_window name sock m = record m { tmux = t.act (send_keys name (socket_cmd sock)) m.tmux }

  abbrev pub dashboard : Bytes
  dashboard = b'd' ∷ b'a' ∷ b's' ∷ b'h' ∷ b'b' ∷ b'o' ∷ b'a' ∷ b'r' ∷ b'd' ∷ []

  -- `SetupDashboard`.
  unfoldable pub setup_dashboard : Bytes → Manager → Manager
  setup_dashboard command m =
      let st =
        if t.can_select dashboard m.tmux
        then t.act (select_window dashboard) m.tmux
        else t.act (new_window dashboard []) m.tmux in
      record m { tmux = t.act (send_keys dashboard command) st }

  -- `KillWindowID`, `StyleWindowID` and `SetWindowStyle`.
  unfoldable pub kill_window_id : Bytes → Manager → Manager
  kill_window_id id m = if is_empty id then m else record m { tmux = t.act (kill_id id) m.tmux }

  abbrev pub current_style : Bytes
  current_style =
      b'w' ∷ b'i' ∷ b'n' ∷ b'd' ∷ b'o' ∷ b'w' ∷ b'-' ∷ b's' ∷ b't' ∷ b'a' ∷ b't' ∷ b'u' ∷ b's'
      ∷ b'-' ∷ b'c' ∷ b'u' ∷ b'r' ∷ b'r' ∷ b'e' ∷ b'n' ∷ b't' ∷ b'-' ∷ b's' ∷ b't' ∷ b'y' ∷ b'l'
      ∷ b'e' ∷ []

  abbrev pub window_style : Bytes
  window_style =
      b'w' ∷ b'i' ∷ b'n' ∷ b'd' ∷ b'o' ∷ b'w' ∷ b'-' ∷ b's' ∷ b't' ∷ b'a' ∷ b't' ∷ b'u' ∷ b's'
      ∷ b'-' ∷ b's' ∷ b't' ∷ b'y' ∷ b'l' ∷ b'e' ∷ []

  unfoldable pub style_with : Bytes → Bytes → Bytes → Manager → Manager
  style_with mark target style m = if is_empty target then m else record m {
    tmux =
        t.act (set_style target current_style (style ++ mark))
          (t.act (set_style target window_style style) m.tmux);
  }

  abbrev pub style_window_id : Bytes → Bytes → Manager → Manager
  style_window_id id style m = style_with (b',' ∷ b'b' ∷ b'o' ∷ b'l' ∷ b'd' ∷ []) id style m

  abbrev pub set_window_style : Bytes → Bytes → Manager → Manager
  set_window_style key style m =
      style_with (b',' ∷ b'r' ∷ b'e' ∷ b'v' ∷ b'e' ∷ b'r' ∷ b's' ∷ b'e' ∷ []) (window_for key m)
        style m

  -- `strings.Contains`.
  unfoldable pub occurs : Bytes → Bytes → Bool
  occurs sub [] = is_empty sub
  occurs sub (c ∷ s) = let rest = occurs sub s in has_prefix (c ∷ s) sub || rest

  -- `baseName`: what stands behind the last slash.
  unfoldable pub base_from : Bytes → Bytes → Bytes
  base_from part [] = part
  base_from part (c ∷ s) = if c == b'/' then base_from [] s else base_from (part ++ c ∷ []) s

  -- `IsSocketClientRunning`.
  abbrev pub is_socket_client_running : Bytes → Manager → Bool
  is_socket_client_running window m =
      let o = t.lower (t.pane_command window m.tmux) in
      occurs (t.lower (base_from [] t.self)) o
      || occurs (b'p' ∷ b'y' ∷ b't' ∷ b'h' ∷ b'o' ∷ b'n' ∷ []) o
      || occurs (b'b' ∷ b'a' ∷ b's' ∷ b'h' ∷ []) o
