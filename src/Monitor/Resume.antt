-- ===== src/Monitor/Resume.antt =====
-- internal/monitor/resume.go: when the paused sessions are resumed. Times are numbers of nanoseconds. The
-- formats of package time and the offset of a zone are parameters; the file that keeps the entries
-- over a restart is left out.
pub mod Once
use claude_master_go.Base.{
  ℕ, ◌+◌, ◌-◌, ◌*◌, ◌/◌, Bool, true, false, not, Option, none, some, List, [], ◌∷◌, ◌++◌, ltb, leb,
  if◌then◌else◌, ◌>>=◌, Bytes, is_empty, lookup, delete, put, ℤ, pos, negsuc,
}
use claude_master_go.Tmux.Text.{trim_space}
use claude_master_go.Monitor.Limit.{LimitEvent}

pub record PendingEntry : Type 0 where
  pub reset_at : ℕ
  pub sock : Bytes

-- `pending`.
abbrev pub Pending : Type 0
Pending = List (Bytes × PendingEntry)

-- What is used of package time: `time.Parse` of the clock layouts in their order, as hour and minute, the
-- offset of a zone in nanoseconds, and lower case.
pub record Calendar : Type 0 where
  pub clock_layouts : List (Bytes → Option (ℕ × ℕ))
  pub offset : Bytes → ℤ
  pub lower : Bytes → Bytes

unfoldable pub or_else_time : Option (ℕ × ℕ) → Option (ℕ × ℕ) → Option (ℕ × ℕ)
or_else_time none rest = rest
or_else_time (some t) rest = some t

-- The loop over the layouts.
unfoldable pub first_layout : List (Bytes → Option (ℕ × ℕ)) → Bytes → Option (ℕ × ℕ)
first_layout [] s = none
first_layout (l ∷ ls) s = or_else_time (l s) (first_layout ls s)

-- An instant in a zone, and back; instants are so late that neither falls below 0.
unfoldable pub to_local : ℤ → ℕ → ℕ
to_local (pos d) n = n + d
to_local (negsuc d) n = n - suc_of d
  where
    suc_of : ℕ → ℕ
    suc_of d = d + 1

unfoldable pub from_local : ℤ → ℕ → ℕ
from_local (pos d) n = n - d
from_local (negsuc d) n = n + (d + 1)

-- 24 hours.
abbrev pub day : ℕ
day = 86400000000000

-- The next time of the day `h`:`m` after the local time `now`.
unfoldable pub next_clock : ℕ → ℕ → ℕ → ℕ
next_clock h m now =
    let cand = now / day * day + h * 3600000000000 + m * 60000000000 in
    if ltb now cand then cand else cand + day

unfoldable pub reset_after : ℤ → ℕ → Option (ℕ × ℕ) → Option ℕ
reset_after off now none = none
reset_after off now (some (h, m)) = some (from_local off (next_clock h m (to_local off now)))

-- `parseResetDatetime`.
unfoldable pub parse_reset_datetime : Calendar → ℕ → Bytes → Bytes → Option ℕ
parse_reset_datetime cal now time_str tz_str =
    let s = cal.lower (trim_space time_str) in
    if is_empty s
    then none
    else reset_after (cal.offset tz_str) now (first_layout cal.clock_layouts s)

unfoldable pub scheduled : LimitEvent → Bytes → Option ℕ → Pending → Pending
scheduled ev sock none p = p
scheduled ev sock (some at) p = put ev.session_key (record { reset_at = at; sock = sock }) p

-- `Schedule`.
abbrev pub schedule : Calendar → ℕ → LimitEvent → Bytes → Pending → Pending
schedule cal now ev sock p =
    scheduled ev sock (parse_reset_datetime cal now ev.reset_time ev.reset_tz) p

-- `Due`: what is left, and the keys and sockets that are due.
unfoldable pub due : ℕ → Pending → Pending × List (Bytes × Bytes)
due now [] = ([], [])
due now ((k, e) ∷ p) =
    let rest = due now p in
    if leb e.reset_at now then (rest.0, (k, e.sock) ∷ rest.1) else ((k, e) ∷ rest.0, rest.1)

-- `IsPending`.
unfoldable pub is_there : Option PendingEntry → Bool
is_there none = false
is_there (some e) = true

abbrev pub is_pending : Bytes → Pending → Bool
is_pending key p = is_there (lookup key p)

-- `Remove`.
abbrev pub remove : Bytes → Pending → Pending
remove key p = delete key p
