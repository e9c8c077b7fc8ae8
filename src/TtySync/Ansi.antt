-- ===== src/TtySync/Ansi.antt =====
-- internal/ttysync/ansi.go: the small parser that reports a finished screen-clearing sequence.
use claude_master_go.Base.{
  ℕ, Bool, false, ◌&&◌, ◌||◌, [], ◌∷◌, ◌++◌, ◌==◌, leb, if◌then◌else◌, Bytes,
}

-- `ansiState`, which the tail tracker shares.
pub data AnsiState : Type 0 where
  ground esc csi osc dcs osc_esc dcs_esc : AnsiState

pub record AnsiParser : Type 0 where
  pub state : AnsiState
  pub params : Bytes

-- `&ansiParser{}`.
abbrev pub new_parser : AnsiParser
new_parser = record { state = ground; params = [] }

unfoldable pub is_destructive_csi : ℕ → Bytes → Bool
is_destructive_csi final params = final == b'J' || final == b'K'

abbrev pub is_digit : ℕ → Bool
is_digit b = leb b'0' b && leb b b'9'

-- `Feed`, by the state that it switches on: the parser after the byte, and the answer.
feed_in : AnsiState → AnsiParser → ℕ → AnsiParser × Bool
unfolding is_destructive_csi
feed_in ground p b = (if b == 0x1b then record p { state = esc } else p, false)
feed_in esc p b = (
  if b == b'['
      then record p { state = csi; params = [] }
      else if b == b']'
      then record p { state = osc }
      else if b == b'P'
      then record p { state = dcs }
      else record p { state = ground },
  false,
)
feed_in csi p b =
    if is_digit b || b == b';' || b == b'?'
    then (record p { params = p.params ++ b ∷ [] }, false)
    else if leb 0x40 b && leb b 0x7e
    then (record p { state = ground }, is_destructive_csi b p.params)
    else (record p { state = ground }, false)
feed_in osc p b = (
  if b == 0x07
      then record p { state = ground }
      else if b == 0x1b
      then record p { state = osc_esc }
      else p,
  false,
)
feed_in osc_esc p b = (record p { state = ground }, false)
feed_in dcs p b = (
  if b == 0x07
      then record p { state = ground }
      else if b == 0x1b
      then record p { state = dcs_esc }
      else p,
  false,
)
feed_in dcs_esc p b = (record p { state = ground }, false)

unfoldable pub feed : AnsiParser → ℕ → AnsiParser × Bool
unfolding feed_in
feed p b = feed_in p.state p b
