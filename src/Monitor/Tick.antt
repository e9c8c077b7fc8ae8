-- ===== src/Monitor/Tick.antt =====
-- internal/monitor/monitor.go: a turn of `RunLoop`, from the scan to the resumption of sessions, with
-- `handleLimitEvent` and `resumeSessions`. A message stands for its text by what the text holds. The
-- collection of idle proxies and the status file at the end of a turn are left out.
use claude_master_go.Base.{
  ℕ, suc, ◌-◌, Bool, true, false, not, ◌&&◌, ◌||◌, Option, none, some, List, [], ◌∷◌, ◌++◌,
  if◌then◌else◌, leb, Bytes, equal, has_prefix, is_empty, lookup, put, ℤ, pos, negsuc,
}
use claude_master_go.Screen.Render.{digits}
use claude_master_go.Monitor.Limit.{
  LimitEvent, LimitLevel, approaching, LimitConfig, Notified, Status, check, clear, status_str,
  time_key, tz_key,
}
use claude_master_go.Tmux.Text.{trim_space}
use claude_master_go.Monitor.Session.{ClaudeSession, short_dir}
use claude_master_go.Monitor.Windows.{Tmux, Manager, window_for, rename}
use claude_master_go.Monitor.Resume.{Pending, Calendar, schedule, due, is_pending, remove}
use claude_master_go.Monitor.Sync.{
  Sessions, has, managed_only, current_of, sock_path_for, add, heal_window_missing, drop_sessions,
}

-- What is sent to the socket of a session: the note that it is to pause, or to go on.
pub data Sent : Type 0 where
  pause : Bytes → ℤ → Bytes → Sent
  resume : Bytes → Sent

-- A status as it is read, with `is_active` where it is a Boolean.
pub record Report : Type 0 where
  pub fields : Status
  pub is_active : Option Bool

unfoldable pub format_int : ℤ → Bytes
format_int (pos n) = digits 20 n []
format_int (negsuc n) = b'-' ∷ digits 20 (suc n) []

-- `[⚠%d%%]`.
unfoldable pub warning : ℤ → Bytes
warning pct = b'[' ∷ 226 ∷ 154 ∷ 160 ∷ format_int pct ++ b'%' ∷ b']' ∷ []

abbrev pub paused_mark : Bytes
paused_mark = b'[' ∷ b'P' ∷ b'A' ∷ b'U' ∷ b'S' ∷ b'E' ∷ b'D' ∷ b']' ∷ []

abbrev pub unknown_dir : Bytes
unknown_dir = b'u' ∷ b'n' ∷ b'k' ∷ b'n' ∷ b'o' ∷ b'w' ∷ b'n' ∷ []

-- The default is active.
unfoldable pub or_active : Option Bool → Bool
or_active none = true
or_active (some b) = b

unfoldable pub is_true : Option Bool → Bool
is_true none = false
is_true (some b) = b

unfoldable pub is_approaching : LimitLevel → Bool
is_approaching approaching = true
is_approaching _ = false

module _ (t : Tmux) (dir : Bytes) (cfg : LimitConfig) (cal : Calendar) where
  -- What a turn changes: the windows, the levels that were told, the paused sessions, the times of the
  -- last repairs, and what was sent.
  pub record Loop : Type 0 where
    pub windows : Manager t
    pub notified : Notified
    pub pending : Pending
    pub healed : List (Bytes × ℕ)
    pub sent : List Sent

  abbrev pub rename_to : Bytes → Bytes → Loop → Loop
  rename_to k name l = record l { windows = rename t k name l.windows }

  -- The end of `handleLimitEvent`, where the socket is there or not.
  unfoldable pub pause_session : ℕ → Bytes → LimitEvent → ClaudeSession → Bytes → Bool → Loop → Loop
  pause_session now k ev s reset there l =
      let sock = sock_path_for t dir s.pid in
      rename_to k (short_dir s ++ paused_mark) (
        if there
        then record l {
          sent = l.sent ++ pause sock ev.usage_percent reset ∷ [];
          pending = schedule cal now ev sock l.pending;
        }
        else l)

  -- `handleLimitEvent`.
  unfoldable pub handle_limit_event :
      ℕ → (Bytes → Bool) → Bytes → LimitEvent → ClaudeSession → Report → Loop → Loop
  handle_limit_event now stat k ev s status l =
      if is_approaching ev.level || not (or_active status.is_active)
      then rename_to k (short_dir s ++ warning ev.usage_percent) l
      else pause_session now k ev s
          (trim_space (status_str status.fields time_key ++ 32 ∷ status_str status.fields tz_key))
          (stat (sock_path_for t dir s.pid)) l

  -- The loop of `resumeSessions` over what is due.
  unfoldable pub rename_session : Bytes → Option ClaudeSession → Loop → Loop
  rename_session k none l = l
  rename_session k (some s) l = rename_to k (short_dir s) l

  unfoldable pub resume_due : (Bytes → Bool) → Sessions → List (Bytes × Bytes) → Loop → Loop
  resume_due stat current [] l = l
  resume_due stat current ((k, sock) ∷ ds) l = resume_due stat current ds (
      rename_session k (lookup k current) (record l {
        sent = l.sent ++ (if stat sock then resume sock ∷ [] else []);
        notified = clear k l.notified;
      }))

  -- `resumeSessions`.
  abbrev pub resume_sessions : ℕ → (Bytes → Bool) → Sessions → Loop → Loop
  resume_sessions now stat current l =
      resume_due stat current ((due now l.pending).1) (record l { pending = (due now l.pending).0 })

  -- The repair of a window, which a session gets at most once in 30 seconds.
  unfoldable pub is_cool : ℕ → Option ℕ → Bool
  is_cool now none = true
  is_cool now (some last) = leb 30000000000 (now - last)

  unfoldable pub heal : ℕ → Option (List Bytes) → Bytes → ClaudeSession → Loop → Loop
  heal now ws k s l =
      if heal_window_missing t dir ws (window_for t k l.windows) && is_cool now (lookup k l.healed)
      then record l { healed = put k now l.healed; windows = add t dir k s l.windows }
      else l

  -- A window whose directory was not known is renamed once it is.
  unfoldable pub name_window : Bytes → Bytes → Loop → Loop
  name_window k sd l =
      let cur = window_for t k l.windows in
      if not (is_empty sd)
        && (not (equal sd unknown_dir)
            && (equal cur unknown_dir || has_prefix cur (unknown_dir ++ b'-' ∷ [])))
      then rename_to k sd l
      else l

  -- The event of `Check`, or the end of a pause by hand.
  unfoldable pub react :
      ℕ → (Bytes → Bool) → Bytes → ClaudeSession → Report → Option LimitEvent → Loop → Loop
  react now stat k s status (some ev) l = handle_limit_event now stat k ev s status l
  react now stat k s status none l =
      if is_pending k l.pending && is_true status.is_active
      then rename_to k (short_dir s)
          (record l { pending = remove k l.pending; notified = clear k l.notified })
      else l

  unfoldable pub watch_session :
      ℕ → (Bytes → Bool) → Bytes → ClaudeSession → Report → Bytes → Loop → Loop
  watch_session now stat k s status sd l =
      let named = name_window k sd l in
      let r = check cfg k status.fields named.notified in
      react now stat k s status (r.1) (record named { notified = r.0 })

  -- A pass of the loop over the sessions; `report` reads the status of a process.
  unfoldable pub visit :
      ℕ
      → (Bytes → Bool)
      → (ℕ → Report)
      → Sessions
      → Option (List Bytes)
      → Bytes
      → ClaudeSession
      → Loop
      → Loop
  visit now stat report known ws k s l =
      if has k known
      then watch_session now stat k s (report s.pid)
          (status_str ((report s.pid).fields) short_dir_key) (heal now ws k s l)
      else record l { windows = add t dir k s l.windows }
    where
      short_dir_key : Bytes
      short_dir_key = b's' ∷ b'h' ∷ b'o' ∷ b'r' ∷ b't' ∷ b'_' ∷ b'd' ∷ b'i' ∷ b'r' ∷ []

  unfoldable pub visit_all :
      ℕ → (Bytes → Bool) → (ℕ → Report) → Sessions → Option (List Bytes) → Sessions → Loop → Loop
  visit_all now stat report known ws [] l = l
  visit_all now stat report known ws ((k, s) ∷ current) l =
      visit_all now stat report known ws current (visit now stat report known ws k s l)

  -- The sessions that are gone.
  unfoldable pub forget : Sessions → Sessions → Loop → Loop
  forget current [] l = l
  forget current ((k, s) ∷ known) l = forget current known (
      if has k current
      then l
      else record l { notified = clear k l.notified; pending = remove k l.pending })

  abbrev pub drop_gone : Sessions → Sessions → Loop → Loop
  drop_gone known current l =
      forget current known (record l { windows = drop_sessions t dir current known l.windows })

  -- A turn, where the scan succeeds or fails; a failed scan keeps everything.
  unfoldable pub tick :
      ℕ
      → (Bytes → Bool)
      → (ℕ → Report)
      → Option (List ClaudeSession)
      → Sessions × Loop
      → Sessions × Loop
  tick now stat report none (known, l) = (known, l)
  tick now stat report (some sessions) (known, l) =
      let current = current_of (managed_only (λ pid. stat (sock_path_for t dir pid)) sessions) [] in
      let ws = t.list (l.windows.tmux) in
      (
        current,
        resume_sessions now stat current
            (drop_gone known current (visit_all now stat report known ws current l)),
      )
