-- ===== src/TtySync/Pump.antt =====
-- internal/ttysync/wrap.go: the pump between the child's terminal and the outer one.
-- One round of its `select` is one `step`: the event that the round takes, and the write that it
-- makes. A timer is the duration that it was armed with; the event of a timer that is not armed
-- cannot come, and leaves the pump as it is. Whether `dst.Write` accepts is given with the event.
-- The reader sends its error before it closes the channel, so the receive from a closed channel,
-- which the first event of an end forestalls, is no event.
pub mod Order
pub mod Runs
pub mod Held
pub mod Hold
use claude_master_go.Base.{
  ℕ, zero, suc, ◌+◌, ◌-◌, Bool, true, false, not, ◌&&◌, ◌||◌, Option, none, some, List, [], ◌∷◌,
  ◌++◌, ◌==◌, ltb, leb, if◌then◌else◌, Bytes, length, drop, take,
}
use claude_master_go.TtySync.Ansi
use claude_master_go.TtySync.Ansi.{AnsiParser, new_parser}
use claude_master_go.TtySync.Marker.{strip_sync_markers, wrap_sync}
use claude_master_go.TtySync.Tracker.{
  TailTracker, new_tail_tracker, feed_all, split_at, rebase, reset,
}

-- `PumpConfig`, its durations in nanoseconds.
pub record PumpConfig : Type 0 where
  pub idle : ℕ
  pub hold_after_destructive : ℕ
  pub sync_wrap : Bool
  pub max_hold : ℕ
  pub max_buffer : ℕ

-- The variables of `PumpWithIdleConfig`.
pub record Pump : Type 0 where
  pub buf : Bytes
  pub timer : Option ℕ
  pub max_hold_timer : Option ℕ
  pub parser : AnsiParser
  pub tracker : TailTracker
  pub hold_active : Bool

abbrev pub start : Pump
start = record {
  buf = [];
  timer = none;
  max_hold_timer = none;
  parser = new_parser;
  tracker = new_tail_tracker;
  hold_active = false;
}

-- 32 << 10.
abbrev pub max_tail_hold : ℕ
max_tail_hold = 32768

-- The bytes that `flush` writes for the head of the buffer: nothing if only markers were in it.
unfoldable pub frame : Bytes → Bytes
frame head =
    let (payload, carry) = strip_sync_markers head in
    if ltb 0 (length (payload ++ carry)) then wrap_sync (payload ++ carry) else []

-- `dst.Write(out)`, or the return before it where there is nothing to write.
abbrev pub write_some : Bytes → Option Bytes
write_some [] = none
write_some (b ∷ bs) = some (b ∷ bs)

-- `flush` under SyncWrap, with the split of the buffer.
flush_wrapped : Bool → ℕ → Pump → Pump × Option Bytes
flush_wrapped eof split p =
    if ltb max_tail_hold (length p.buf - split)
    then (record p { buf = []; tracker = reset p.tracker }, some p.buf)
    else if eof
    then (
      record p { buf = []; tracker = reset p.tracker },
      write_some (frame (take split p.buf) ++ drop split p.buf),
    )
    else (
      record p { buf = drop split p.buf; tracker = rebase p.tracker split },
      write_some (frame (take split p.buf)),
    )

abbrev disarm : Pump → Pump
disarm p = record p { timer = none; max_hold_timer = none; hold_active = false }

-- `flush(eof)`: the pump behind it, and the write.
unfoldable pub flush : PumpConfig → Bool → Pump → Pump × Option Bytes
unfolding flush_wrapped
flush cfg eof p =
    if length p.buf == 0
    then (p, none)
    else if not cfg.sync_wrap
    then (record (disarm p) { buf = [] }, some p.buf)
    else flush_wrapped eof (split_at p.tracker (length p.buf)) (disarm p)

-- The loop that arms the hold at the first destructive byte, and then leaves off.
unfoldable pub scan : AnsiParser → Bytes → AnsiParser × Bool
scan p [] = (p, false)
scan p (b ∷ bs) =
    let (p', destructive) = Ansi.feed p b in
    let rest = scan p' bs in if destructive then (p', true) else rest

-- The loop that only keeps the parser's state.
skim : AnsiParser → Bytes → AnsiParser
skim p [] = p
skim p (b ∷ bs) = skim (Ansi.feed p b).0 bs

-- The parser's share of a `data` event.
unfoldable pub watch : PumpConfig → Bytes → Pump → Pump
unfolding scan skim
watch cfg d p =
    if ltb 0 cfg.hold_after_destructive && not p.hold_active
    then (let (q, hit) = scan p.parser d in record p { parser = q; hold_active = hit })
    else if ltb 0 cfg.hold_after_destructive
    then record p { parser = skim p.parser d }
    else p

-- The bytes join the buffer, and the tracker reads them at their offsets.
unfoldable pub append_data : PumpConfig → Bytes → Pump → Pump
append_data cfg d p = record p {
  buf = p.buf ++ d;
  tracker = if cfg.sync_wrap then feed_all p.tracker (length p.buf) d else p.tracker;
}

-- The timers behind the append: the oldest byte's is kept, the idle one is started anew.
unfoldable pub arm : PumpConfig → Pump → Pump
arm cfg p = record p {
  max_hold_timer =
      if ltb 0 cfg.max_hold
      then elim p.max_hold_timer [ none ↦ some cfg.max_hold | some d ↦ some d ]
      else p.max_hold_timer;
  timer = some (
      if p.hold_active && ltb 0 cfg.hold_after_destructive
      then cfg.hold_after_destructive
      else cfg.idle);
}

pub data Event : Type 0 where
  received : Bytes → Event
  end_of_file : Event
  read_failed : Event
  idle_fired : Event
  max_hold_fired : Event

-- How the function stands behind a round: it goes on, or it has returned.
pub data Outcome : Type 0 where
  running returned_nil returned_read_error returned_write_error : Outcome

-- A write that `dst` refuses ends the function.
abbrev check_write : Bool → Pump × Option Bytes → Pump × Option Bytes × Outcome
check_write accepts (p, none) = (p, none, running)
check_write accepts (p, some w) = (p, some w, if accepts then running else returned_write_error)

abbrev ending : Outcome → Pump × Option Bytes → Pump × Option Bytes × Outcome
ending o (p, w) = (p, w, o)

abbrev is_some : Option ℕ → Bool
is_some none = false
is_some (some _) = true

unfoldable pub step : PumpConfig → Bool → Pump → Event → Pump × Option Bytes × Outcome
step cfg accepts p (received d) =
    let q = append_data cfg d (watch cfg d p) in
    if ltb 0 cfg.max_buffer && leb cfg.max_buffer (length q.buf)
    then check_write accepts (flush cfg false q)
    else (arm cfg q, none, running)
step cfg accepts p end_of_file = ending returned_nil (flush cfg true p)
step cfg accepts p read_failed = ending returned_read_error (flush cfg true p)
step cfg accepts p idle_fired =
    if is_some p.timer
    then check_write accepts (flush cfg false (record p { timer = none }))
    else (p, none, running)
step cfg accepts p max_hold_fired =
    if is_some p.max_hold_timer
    then check_write accepts (flush cfg false (record p { max_hold_timer = none }))
    else (p, none, running)

abbrev pub is_running : Outcome → Bool
is_running running = true
is_running _ = false

abbrev pub written : Option Bytes → Bytes
written none = []
written (some w) = w

-- The loop over the rounds that come, up to the return: the pump, all that was written, how it ended.
unfoldable pub run : PumpConfig → Pump → List (Bool × Event) → Pump × Bytes × Outcome
run cfg p [] = (p, [], running)
run cfg p ((accepts, e) ∷ es) =
    let (p', w, o) = step cfg accepts p e in
    let rest = run cfg p' es in
    if is_running o then (rest.0, written w ++ rest.1, rest.2) else (p', written w, o)

-- `PumpWithIdle`: the configuration that the shim passes on.
abbrev pub idle_only : ℕ → PumpConfig
idle_only idle = record {
  idle = idle;
  hold_after_destructive = 0;
  sync_wrap = false;
  max_hold = 0;
  max_buffer = 0;
}
