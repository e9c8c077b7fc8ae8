-- ===== src/Monitor/Limit.antt =====
-- internal/monitor/limit.go: the watcher that tells once when a session's usage reaches a higher level.
-- A Go map is an association list with one entry for a key.
pub mod Once
use claude_master_go.Base.{
  ℕ, suc, Bool, true, false, Option, none, some, List, [], ◌∷◌, ltb, leb, if◌then◌else◌, Bytes,
  equal, ℤ, pos, at_least, lookup, delete, put,
}

pub data LimitLevel : Type 0 where
  approaching interrupt reached : LimitLevel

-- The number of a level, by which the source compares.
unfoldable pub rank : LimitLevel → ℕ
rank approaching = 0
rank interrupt = 1
rank reached = 2

-- What a status holds for a key: a number, as `int(n)` of it, a string, or anything else, nil included.
pub data Value : Type 0 where
  number : ℤ → Value
  text : Bytes → Value
  other : Value

pub record LimitConfig : Type 0 where
  pub limit_interrupt_pct : ℤ
  pub limit_warn_pct : ℤ

pub record LimitEvent : Type 0 where
  pub session_key : Bytes
  pub level : LimitLevel
  pub usage_percent : ℤ
  pub reset_time : Bytes
  pub reset_tz : Bytes

abbrev pub Status : Type 0
Status = List (Bytes × Value)

-- `LimitWatcher.notified`.
abbrev pub Notified : Type 0
Notified = List (Bytes × LimitLevel)

-- `v.(type)`.
as_int : Option Value → Option ℤ
as_int (some (number n)) = some n
as_int _ = none

as_str : Option Value → Bytes
as_str (some (text s)) = s
as_str _ = []

unfoldable pub status_int : Status → Bytes → Option ℤ
unfolding as_int
status_int status key = as_int (lookup key status)

unfoldable pub status_str : Status → Bytes → Bytes
unfolding as_str
status_str status key = as_str (lookup key status)

-- `usage_percent`, `reset_time` and `reset_tz`.
abbrev pub usage_key : Bytes
usage_key =
    b'u' ∷ b's' ∷ b'a' ∷ b'g' ∷ b'e' ∷ b'_' ∷ b'p' ∷ b'e' ∷ b'r' ∷ b'c' ∷ b'e' ∷ b'n' ∷ b't' ∷ []

abbrev pub time_key : Bytes
time_key = b'r' ∷ b'e' ∷ b's' ∷ b'e' ∷ b't' ∷ b'_' ∷ b't' ∷ b'i' ∷ b'm' ∷ b'e' ∷ []

abbrev pub tz_key : Bytes
tz_key = b'r' ∷ b'e' ∷ b's' ∷ b'e' ∷ b't' ∷ b'_' ∷ b't' ∷ b'z' ∷ []

-- The switch of `Check` on the percentage.
unfoldable pub level_of : LimitConfig → ℤ → Option LimitLevel
level_of cfg pct =
    if at_least pct (pos 100)
    then some reached
    else if at_least pct cfg.limit_interrupt_pct
    then some interrupt
    else if at_least pct cfg.limit_warn_pct
    then some approaching
    else none

-- `seen && level <= prev`.
unfoldable pub is_told : Option LimitLevel → LimitLevel → Bool
is_told none level = false
is_told (some prev) level = leb (rank level) (rank prev)

abbrev pub event_of : Bytes → Status → ℤ → LimitLevel → LimitEvent
event_of key status pct level = record {
  session_key = key;
  level = level;
  usage_percent = pct;
  reset_time = status_str status time_key;
  reset_tz = status_str status tz_key;
}

-- `Check` on a percentage that is there.
unfoldable pub check_level :
    Bytes → Status → ℤ → Option LimitLevel → Notified → Notified × Option LimitEvent
check_level key status pct none notified = (delete key notified, none)
check_level key status pct (some level) notified =
    if is_told (lookup key notified) level
    then (notified, none)
    else (put key level notified, some (event_of key status pct level))

unfoldable pub check_pct :
    LimitConfig → Bytes → Status → Option ℤ → Notified → Notified × Option LimitEvent
check_pct cfg key status none notified = (notified, none)
check_pct cfg key status (some pct) notified =
    check_level key status pct (level_of cfg pct) notified

abbrev pub check : LimitConfig → Bytes → Status → Notified → Notified × Option LimitEvent
check cfg key status notified = check_pct cfg key status (status_int status usage_key) notified

-- `Clear`.
unfoldable pub clear : Bytes → Notified → Notified
clear key notified = delete key notified
