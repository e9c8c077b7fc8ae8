-- ===== src/TtySync/Tracker.antt =====
-- internal/ttysync/syncwrap.go, second half: `tailTracker`, which knows where in the buffer the
-- sequence or the rune that is still open begins. Bytes are numbers below 256, so that the shifts
-- and masks of the source are quotients and remainders.
pub mod Held
use claude_master_go.Base.{
  ℕ, zero, suc, ◌+◌, ◌-◌, ◌/◌, Bool, true, false, ◌&&◌, ◌||◌, Option, none, some, List, [], ◌∷◌,
  ◌==◌, ltb, leb, if◌then◌else◌, Bytes,
}
use claude_master_go.TtySync.Ansi.{
  AnsiState, ground, esc, csi, osc, dcs, osc_esc, dcs_esc, is_digit,
}

-- `seq_start` is `none` where the source has -1.
pub record TailTracker : Type 0 where
  pub state : AnsiState
  pub utf8_rem : ℕ
  pub seq_start : Option ℕ

abbrev pub new_tail_tracker : TailTracker
new_tail_tracker = record { state = ground; utf8_rem = 0; seq_start = none }

abbrev close : TailTracker → TailTracker
close t = record t { state = ground; seq_start = none }

-- `case asGround`.
feed_ground : TailTracker → ℕ → ℕ → TailTracker
feed_ground t b off =
    if b == 0x1b
    then record t { state = esc; seq_start = some off }
    else if leb 0xc0 b
    then (if b / 32 == 0x6
        then record t { utf8_rem = 1; seq_start = some off }
        else if b / 16 == 0xe
        then record t { utf8_rem = 2; seq_start = some off }
        else if b / 8 == 0x1e
        then record t { utf8_rem = 3; seq_start = some off }
        else t)
    else t

-- The switch of `Feed` on the state.
feed_state : AnsiState → TailTracker → ℕ → ℕ → TailTracker
unfolding feed_ground
feed_state ground t b off = feed_ground t b off
feed_state esc t b off =
    if b == b'['
    then record t { state = csi }
    else if b == b']'
    then record t { state = osc }
    else if b == b'P'
    then record t { state = dcs }
    else if b == 0x1b
    then record t { seq_start = some off }
    else close t
feed_state csi t b off =
    if is_digit b || b == b';' || b == b'?' || b == b':' || (leb 0x20 b && leb b 0x2f)
    then t
    else close t
feed_state osc t b off =
    if b == 0x07 then close t else if b == 0x1b then record t { state = osc_esc } else t
feed_state osc_esc t b off = if b == b'\\' then close t else record t { state = osc }
feed_state dcs t b off =
    if b == 0x07 then close t else if b == 0x1b then record t { state = dcs_esc } else t
feed_state dcs_esc t b off = if b == b'\\' then close t else record t { state = dcs }

-- `Feed`: a rune that is open takes its continuation bytes (b & 0xc0 == 0x80), and is given up at
-- any other byte.
unfoldable pub feed : TailTracker → ℕ → ℕ → TailTracker
unfolding feed_state
feed t b off =
    if ltb 0 t.utf8_rem
    then (if b / 64 == 2
        then record t {
          utf8_rem = t.utf8_rem - 1;
          seq_start = if t.utf8_rem - 1 == 0 then none else t.seq_start;
        }
        else feed_state t.state (record t { utf8_rem = 0; seq_start = none }) b off)
    else feed_state t.state t b off

-- The pump feeds every byte that it appends, with its offset in the buffer.
unfoldable pub feed_all : TailTracker → ℕ → Bytes → TailTracker
feed_all t off [] = t
feed_all t off (b ∷ bs) = feed_all (feed t b off) (suc off) bs

unfoldable pub split_at : TailTracker → ℕ → ℕ
split_at t buf_len = elim t.seq_start [
  | none ↦ buf_len
  | some s ↦ if ltb buf_len s then buf_len else s
]

-- The difference stops at 0, as the source sets it there.
unfoldable pub rebase : TailTracker → ℕ → TailTracker
rebase t keep_from = elim t.seq_start [
  | none ↦ t
  | some s ↦ record t { seq_start = some (s - keep_from) }
]

unfoldable pub reset : TailTracker → TailTracker
reset t = record t { state = ground; utf8_rem = 0; seq_start = none }
