-- ===== src/Scenarios/Monitor.antt =====
-- Concrete inputs for the monitor: two paused sessions, and a session that is gone from a tmux without
-- windows.
use claude_master_go.Base.{◌≡◌, refl, Bool, true, some, [], ◌∷◌, lookup}
use claude_master_go.Monitor.Session.{ClaudeSession}
use claude_master_go.Monitor.Windows.{Tmux, Manager, window_for}
use claude_master_go.Monitor.Resume.{Pending}
use claude_master_go.Monitor.Sync.{sync_windows, is_in}
use claude_master_go.Monitor.Sync.Follow.{sync_windows-gone}

abbrev pending : Pending
pending =
    (1 ∷ [], record { reset_at = 5; sock = [] }) ∷ (2 ∷ [], record { reset_at = 9; sock = [] }) ∷ []

abbrev bare : Tmux
bare = record {
  State = Bool;
  list = λ s. some ((7 ∷ []) ∷ []);
  act = λ a s. s;
  has_session = λ s. true;
  can_select = λ w s. true;
  pane_command = λ w s. [];
  lower = λ s. s;
  quote = λ s. s;
  self = [];
}

abbrev session : ClaudeSession
session = record { pid = 3; cwd = []; session_id = [] }

abbrev manager : Manager bare
manager = record { names = (4 ∷ [], 7 ∷ []) ∷ []; tmux = true }

sync_windows-gone_example :
    window_for bare (4 ∷ []) (sync_windows bare [] ((4 ∷ [], session) ∷ []) [] manager) ≡ []
unfolding lookup is_in
sync_windows-gone_example =
    sync_windows-gone bare [] ((4 ∷ [], session) ∷ []) [] (4 ∷ []) manager refl refl
