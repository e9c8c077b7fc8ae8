-- ===== src/Scenarios/Update.antt =====
-- Concrete inputs for the update of the program and for the files of the proxies: a release whose digest is
-- listed, a directory with what a dead process left, and a status that is written.
use claude_master_go.Base.{
  ℕ, ◌≡◌, true, false, none, some, List, [], ◌∷◌, ◌++◌, Bytes, pos, drop, length, ◌-◌, ◌==◌,
}
use mathlib.Core.List.{Perm}
use claude_master_go.Update.{World, Disk, Faults, update}
use claude_master_go.Update.Verified.{Verdict, update-Verdict}
use claude_master_go.Proxy.Idle.{Entry}
use claude_master_go.Proxy.Sweep.{
  Host, Session, Reader, sweep_dir, sock_suffix, entries, list_sessions,
}
use claude_master_go.Proxy.Sweep.Stale.{Cleans, sweep_dir-Cleans}
use claude_master_go.Proxy.Sweep.Sorted.{Ordered, list_sessions-Lists, Lists}
use claude_master_go.Proxy.StatusFile.{StatusState, Place, write_statuses, enable_status}
use claude_master_go.Proxy.StatusFile.Spaced.{Writes, Spaced, write_statuses-Spaced}
use claude_master_go.Screen.Vt.{Vt, new_model}
use claude_master_go.Screen.Status.{new_status_scanner, scan_all, is_active_text}
use claude_master_go.Screen.Status.Largest.{IsLargest, known, pcts, last_reset, scan_all-Largest}
use claude_master_go.Screen.Status.Bottom.{any_active, is_active_text-any_active}

-- Every request is answered by one text: as a tag, a binary and a list of digests alike.
abbrev world : World
world = record {
  get = λ url. some (200, some (b'v' ∷ b'2' ∷ []));
  tag_name = λ body. some body;
  sha256 = λ bin. bin;
  lower = λ s. s;
  env_repo = [];
  goos = [];
  goarch = [];
}

abbrev no_faults : Faults
no_faults = record {
  executable = false;
  create = false;
  write = false;
  partial = [];
  chmod = false;
  close = false;
  displace = false;
  exe_is_missing = false;
  rename = false;
  roll_back = false;
  remove_old = false;
  remove_old_again = false;
  remove_temp = false;
}

abbrev disk : Disk
disk = record { program = some (1 ∷ []); displaced = none; temp = none }

update-Verdict_example :
    Verdict world no_faults (b'1' ∷ []) disk (update world no_faults (b'1' ∷ []) disk)
update-Verdict_example = update-Verdict world no_faults (b'1' ∷ []) disk

abbrev host : Host
host = record { is_alive = λ pid. pid == 8; refuses = λ name. false }

-- `7.sock` of a dead process, and a directory.
abbrev left_behind : List Entry
left_behind =
    record { name = b'7' ∷ sock_suffix; is_dir = false }
    ∷ record { name = b'8' ∷ sock_suffix; is_dir = true }
    ∷ []

sweep_dir-Cleans_example :
    let r = sweep_dir host (sock_suffix ∷ []) left_behind in
    Cleans host (sock_suffix ∷ []) left_behind r.0 r.1
sweep_dir-Cleans_example = sweep_dir-Cleans host (sock_suffix ∷ []) left_behind

abbrev reader : Reader
reader = record { is_alive = λ pid. true; read = λ name. some (record { pid = pos 0; rest = [] }) }

-- `9.snap` and `8.snap`.
abbrev snaps : List Entry
snaps =
    record { name = b'9' ∷ b'.' ∷ b's' ∷ b'n' ∷ b'a' ∷ b'p' ∷ []; is_dir = false }
    ∷ record { name = b'8' ∷ b'.' ∷ b's' ∷ b'n' ∷ b'a' ∷ b'p' ∷ []; is_dir = false }
    ∷ []

list_sessions-Lists_example :
    (ss : List Session) × (list_sessions reader (entries snaps) ≡ some ss)
    × Ordered ss
    × (found : List Session) × Lists reader snaps found
    × Perm ss found
list_sessions-Lists_example = list_sessions-Lists reader snaps

abbrev place : Place
place = record { cm_version = []; windows_cwd = none; base = λ p. p }

abbrev unwritten : StatusState
unwritten = record { path = []; pid = 0; scanner = none; init = false; last = 0; sig = none }

abbrev looks : List (ℕ × Vt)
looks = (1, new_model 4 2) ∷ (2, new_model 4 2) ∷ (6000000000, new_model 4 2) ∷ []

write_statuses-Spaced_example :
    Writes Spaced (write_statuses place looks (enable_status (b'f' ∷ []) 7 unwritten))
write_statuses-Spaced_example = write_statuses-Spaced place looks (b'f' ∷ []) 7 unwritten

-- `esc to interrupt` above an empty row, and no usage.
abbrev rows : List Bytes
rows =
    (b'e' ∷ b's' ∷ b'c' ∷ 32 ∷ b't' ∷ b'o' ∷ 32 ∷ b'i' ∷ b'n' ∷ b't' ∷ b'e' ∷ b'r' ∷ b'r' ∷ b'u'
      ∷ b'p' ∷ b't' ∷ [])
    ∷ []
    ∷ []

is_active_text-any_active_example : is_active_text rows ≡ any_active (drop (length rows - 6) rows)
is_active_text-any_active_example = is_active_text-any_active rows

scan_all-Largest_example :
    IsLargest
      (scan_all rows new_status_scanner).has_pct
      (scan_all rows new_status_scanner).last_pct
      (known new_status_scanner ++ pcts rows)
    × (((scan_all rows new_status_scanner).reset_time, (scan_all rows new_status_scanner).reset_tz)
        ≡ last_reset (new_status_scanner.reset_time, new_status_scanner.reset_tz) rows)
scan_all-Largest_example = scan_all-Largest rows new_status_scanner
