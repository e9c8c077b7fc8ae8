-- ===== src/Monitor/Sync.antt =====
-- internal/monitor/monitor.go: the windows of tmux follow the sessions (`SyncOnce`). A Go map of sessions
-- is an association list, which a loop goes through from its head.
pub mod Follow
use claude_master_go.Base.{
  ℕ, Bool, true, false, not, ◌&&◌, ◌||◌, Option, none, some, List, [], ◌∷◌, ◌++◌, if◌then◌else◌,
  Bytes, is_empty, lookup, put,
}
use claude_master_go.Screen.Render.{digits}
use claude_master_go.Monitor.Session.{ClaudeSession, key, short_dir}
use claude_master_go.Monitor.Windows.{
  Tmux, Manager, contains, window_for, list_windows, add_window, remove_window, adopt_window,
}

abbrev pub Sessions : Type 0
Sessions = List (Bytes × ClaudeSession)

unfoldable pub is_in : Option ClaudeSession → Bool
is_in none = false
is_in (some s) = true

abbrev pub has : Bytes → Sessions → Bool
has k m = is_in (lookup k m)

-- `managedOnly`, by whether the socket of a process is there.
unfoldable pub managed_only : (ℕ → Bool) → List ClaudeSession → List ClaudeSession
managed_only stat [] = []
managed_only stat (s ∷ ss) =
    let rest = managed_only stat ss in if stat s.pid then s ∷ rest else rest

-- `current[s.Key()] = s` for each session in order.
unfoldable pub current_of : List ClaudeSession → Sessions → Sessions
current_of [] m = m
current_of (s ∷ ss) m = current_of ss (put (key s) s m)

module _ (t : Tmux) (dir : Bytes) where
  -- `sockPathFor`, in the directory of the sessions.
  abbrev pub sock_path_for : ℕ → Bytes
  sock_path_for pid = dir ++ b'/' ∷ digits 20 pid (b'.' ∷ b's' ∷ b'o' ∷ b'c' ∷ b'k' ∷ [])

  abbrev pub add : Bytes → ClaudeSession → Manager t → Manager t
  add k s m = add_window t k (short_dir s) (sock_path_for s.pid) m

  -- `healWindowMissing`, by `windowSet`: nothing is missing where the listing failed.
  unfoldable pub heal_window_missing : Option (List Bytes) → Bytes → Bool
  heal_window_missing none name = false
  heal_window_missing (some windows) name = is_empty name || not (contains windows name)

  -- A pass of the first loop.
  unfoldable pub sync_session :
      Sessions → Option (List Bytes) → Bytes → ClaudeSession → Manager t → Manager t
  sync_session known windows k s m =
      if has k known && not (heal_window_missing windows (window_for t k m)) then m else add k s m

  unfoldable pub sync_sessions : Sessions → Option (List Bytes) → Sessions → Manager t → Manager t
  sync_sessions known windows [] m = m
  sync_sessions known windows ((k, s) ∷ current) m =
      sync_sessions known windows current (sync_session known windows k s m)

  -- The second loop, over `known`.
  unfoldable pub drop_sessions : Sessions → Sessions → Manager t → Manager t
  drop_sessions current [] m = m
  drop_sessions current ((k, s) ∷ known) m =
      drop_sessions current known (if has k current then m else remove_window t k m)

  -- The two loops of `SyncOnce`.
  unfoldable pub sync_windows : Sessions → Sessions → Manager t → Manager t
  sync_windows known current m =
      drop_sessions current known (sync_sessions known (t.list m.tmux) current m)

  -- `SyncOnce`, which returns `current`.
  abbrev pub sync_once :
      (ℕ → Bool) → Sessions → List ClaudeSession → Manager t → Sessions × Manager t
  sync_once stat known sessions m =
      let current = current_of (managed_only stat sessions) [] in
      (current, sync_windows known current m)

  -- `restoreWindows`, on the keys and the names that the status file holds.
  unfoldable pub restore_windows : List Bytes → List (Bytes × Bytes) → Manager t → Manager t
  restore_windows existing [] m = m
  restore_windows existing ((k, name) ∷ prev) m = restore_windows existing prev (
      if not (is_empty k) && (not (is_empty name) && contains existing name)
      then adopt_window t k name m
      else m)
