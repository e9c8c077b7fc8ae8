-- ===== src/Screen/Feed.antt =====
-- internal/screen/vt.go, `Feed` and `putByte`: the byte-level state machine. The loop's `*i += n - 1`
-- is a count of bytes to pass over; a rune that the chunk cuts short ends the loop and is kept.
pub mod Safe
mod Look
pub mod Chunks
use claude_master_go.Base.{
  ℕ, zero, suc, ◌+◌, ◌-◌, ◌*◌, ◌/◌, Bool, true, false, ◌&&◌, ◌||◌, Option, none, some, [], ◌∷◌,
  ◌++◌, ◌>>=◌, ◌==◌, ltb, leb, if◌then◌else◌, Bytes, length, take,
}
use claude_master_go.Screen.Utf8.{rune_size, decode_rune}
use claude_master_go.Screen.Vt.{
  Vt, ParseState, ground, esc, csi, osc, osc_esc, line_feed, reverse_index, draw,
}
use claude_master_go.Screen.Csi.{clamp_cursor}
use claude_master_go.Screen.Csi

-- The model behind a byte, how many more bytes it has used, and whether the loop returns.
pub record Next : Type 0 where
  pub vt : Vt
  pub used : ℕ
  pub stop : Bool

abbrev pub go_on : Vt → Next
go_on v = record { vt = v; used = 0; stop = false }

-- `case stEsc`.
feed_esc : ℕ → Vt → Option Vt
feed_esc c v =
    let w = record v { st = ground } in
    if c == b'['
    then some (record v { st = csi; parm = []; csi_pv = false })
    else if c == b']'
    then some (record v { st = osc })
    else if c == b'7'
    then some (record w { scx = v.cx; scy = v.cy })
    else if c == b'8'
    then some (clamp_cursor (record w { cx = v.scx; cy = v.scy }))
    else if c == b'D'
    then line_feed w
    else if c == b'M'
    then reverse_index w
    else if c == b'E'
    then line_feed (record w { cx = 0 })
    else some w

-- `case stCSI`.
feed_csi : ℕ → Vt → Option Vt
feed_csi c v =
    if c == b'?' || c == b'>' || c == b'='
    then some (if c == b'?' then record v { csi_pv = true } else v)
    else if (leb b'0' c && leb c b'9') || c == b';'
    then some (record v { parm = v.parm ++ c ∷ [] })
    else (do u ← Csi.csi c v; some (record u { st = ground }))

-- The third-party width table, `runewidth.RuneWidth`.
module _ (rune_width : ℕ → ℕ) where
  -- The end of `putByte`, on a whole rune of `n` bytes.
  put_rune : ℕ → ℕ → Vt → Option Next
  put_rune n r v =
      if r == 0
      then some (record { vt = v; used = n - 1; stop = false })
      else (do u ← draw rune_width r v; some (record { vt = u; used = n - 1; stop = false }))

  -- `putByte` on `p[i:] = b ∷ rest`.
  unfoldable pub put_byte : ℕ → Bytes → Vt → Option Next
  unfolding put_rune
  put_byte b rest v = elim (rune_size b) [
    | none ↦ some (go_on v)
    | some n ↦
        if n == 1
        then (do u ← draw rune_width b v; some (go_on u))
        else if ltb (length (b ∷ rest)) n
        then some (record { vt = record v { pend = b ∷ rest }; used = 0; stop = true })
        else put_rune n (decode_rune (take n (b ∷ rest))) v
  ]

  -- `case stGround`.
  feed_ground : ℕ → Bytes → Vt → Option Next
  unfolding put_byte
  feed_ground c rest v =
      if c == 0x1b
      then some (go_on (record v { st = esc }))
      else if c == b'\r'
      then some (go_on (record v { cx = 0; wrap = false }))
      else if c == b'\n'
      then (do u ← line_feed v; some (go_on (record u { wrap = false })))
      else if c == 0x08
      then some (go_on (record v { cx = v.cx - 1; wrap = false }))
      else if c == b'\t'
      then (let x = (v.cx / 8 + 1) * 8 in
          some (go_on (record v { cx = if leb v.cols x then v.cols - 1 else x })))
      else if ltb c 0x20
      then some (go_on v)
      else put_byte c rest v

  -- One byte, in the state that the loop finds.
  unfoldable pub byte_step : ParseState → ℕ → Bytes → Vt → Option Next
  unfolding feed_ground feed_esc feed_csi
  byte_step ground c rest v = feed_ground c rest v
  byte_step esc c rest v = do u ← feed_esc c v; some (go_on u)
  byte_step csi c rest v = do u ← feed_csi c v; some (go_on u)
  byte_step osc c rest v = some (
      go_on (
        if c == 0x07
        then record v { st = ground }
        else if c == 0x1b
        then record v { st = osc_esc }
        else v))
  byte_step osc_esc c rest v = some (go_on (record v { st = ground }))

  -- The loop, with the bytes still to pass over.
  unfoldable pub feed_loop : ℕ → Bytes → Vt → Option Vt
  feed_loop k [] v = some v
  feed_loop (suc k) (c ∷ cs) v = feed_loop k cs v
  feed_loop zero (c ∷ cs) v = do
    n ← byte_step v.st c cs v
    let rest = feed_loop n.used cs n.vt
    if n.stop then some n.vt else rest

  -- `Feed`: what the last chunk left over comes first.
  unfoldable pub feed : Bytes → Vt → Option Vt
  feed p v = feed_loop 0 (v.pend ++ p) (record v { pend = [] })
