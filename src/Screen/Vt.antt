-- ===== src/Screen/Vt.antt =====
-- internal/screen/vt.go: the screen, its history and the operations on them. A function is `none`
-- where the source panics on an index that is out of range. Rows are values: the source never has
-- one row at two places of the buffer or the history, since it copies or makes each row that it
-- stores and drops the old place of each row that it moves. The field `osc`, which nothing reads,
-- is left out. `cols` and `rows` are at least 1, as at every call of `NewModel`.
pub mod Grid
pub mod Safe
pub mod Drawing
pub mod Erasing
pub mod Carry
use claude_master_go.Base.{
  ℕ, zero, suc, ◌+◌, ◌-◌, Bool, true, false, ◌&&◌, Option, some, List, [], ◌∷◌, ◌++◌, ◌>>=◌, ◌==◌,
  ltb, leb, if◌then◌else◌, Bytes, length, get_elem?, set?, take, drop, replicate,
}
use claude_master_go.Screen.Style.{Style, plain, Cell, empty_cell}

abbrev pub hist_max : ℕ
hist_max = 5000

abbrev pub Row : Type 0
Row = List Cell

-- `pstate`.
pub data ParseState : Type 0 where
  ground esc csi osc osc_esc : ParseState

pub record Vt : Type 0 where
  pub cols : ℕ
  pub rows : ℕ
  pub buf : List Row
  pub cx : ℕ
  pub cy : ℕ
  pub top : ℕ
  pub bot : ℕ
  pub hist : List Row
  pub hist_total : ℕ
  pub wrap : Bool
  pub pen : Style
  pub scx : ℕ
  pub scy : ℕ
  pub st : ParseState
  pub parm : Bytes
  pub csi_pv : Bool
  pub pend : Bytes
  pub sync_active : Bool

abbrev pub blank_line : ℕ → Row
blank_line cols = replicate cols empty_cell

abbrev pub blank : ℕ → ℕ → List Row
blank cols rows = replicate rows (blank_line cols)

unfoldable pub new_model : ℕ → ℕ → Vt
new_model cols rows = record {
  cols = cols;
  rows = rows;
  buf = blank cols rows;
  cx = 0;
  cy = 0;
  top = 0;
  bot = rows - 1;
  hist = [];
  hist_total = 0;
  wrap = false;
  pen = plain;
  scx = 0;
  scy = 0;
  st = ParseState.ground;
  parm = [];
  csi_pv = false;
  pend = [];
  sync_active = false;
}

-- `line := make([]cell, cols); copy(line, row)`.
abbrev pub copy_row : ℕ → Row → Row
copy_row cols row = take cols row ++ replicate (cols - length row) empty_cell

-- `v.hist = v.hist[len(v.hist)-histMax:]` where it is longer.
abbrev pub trim_hist : List Row → List Row
trim_hist h = if ltb hist_max (length h) then drop (length h - hist_max) h else h

-- `for y := y; y < y + n; y++ { buf[y] = buf[y+1] }`.
pub shift_up : ℕ → ℕ → List Row → Option (List Row)
shift_up zero y b = some b
shift_up (suc n) y b = do r ← get_elem? b (suc y); b' ← set? b y r; shift_up n (suc y) b'

-- `for y := y; y > y - n; y-- { buf[y] = buf[y-1] }`.
pub shift_down : ℕ → ℕ → List Row → Option (List Row)
shift_down zero y b = some b
shift_down (suc n) y b = do r ← get_elem? b (y - 1); b' ← set? b y r; shift_down n (y - 1) b'

unfoldable pub line_feed : Vt → Option Vt
unfolding shift_up
line_feed v =
    if v.cy == v.bot
    then (do
      row ← get_elem? v.buf v.top
      b ← shift_up (v.bot - v.top) v.top v.buf
      b' ← set? b v.bot (blank_line v.cols)
      some (record v {
        hist = trim_hist (v.hist ++ copy_row v.cols row ∷ []);
        hist_total = v.hist_total + 1;
        buf = b';
      }))
    else if ltb (v.cy + 1) v.rows
    then some (record v { cy = v.cy + 1 })
    else some v

unfoldable pub reverse_index : Vt → Option Vt
unfolding shift_down
reverse_index v =
    if v.cy == v.top
    then (do
      b ← shift_down (v.bot - v.top) v.bot v.buf
      b' ← set? b v.top (blank_line v.cols)
      some (record v { buf = b' }))
    else if ltb 0 v.cy
    then some (record v { cy = v.cy - 1 })
    else some v

-- `v.buf[v.cy][x] = c`.
unfoldable pub set_cell : Vt → ℕ → Cell → Option Vt
set_cell v x c = do
  row ← get_elem? v.buf v.cy
  row' ← set? row x c
  b ← set? v.buf v.cy row'
  some (record v { buf = b })

-- `draw`, in the order of the source; `w` is what the width table says of the rune.
draw_pending : Bool → Vt → Option Vt
draw_pending true v = do u ← line_feed (record v { cx = 0 }); some (record u { wrap = false })
draw_pending false v = some v

draw_wrap : Vt → Option Vt
unfolding draw_pending
draw_wrap v = draw_pending v.wrap v

draw_fit : ℕ → Vt → Option Vt
draw_fit w v = if ltb v.cols (v.cx + w) then line_feed (record v { cx = 0 }) else some v

draw_right_half : ℕ → Vt → Option Vt
draw_right_half w v =
    if w == 2 && ltb (v.cx + 1) v.cols
    then set_cell v (v.cx + 1) (record { r = 0; cont = true; st = v.pen })
    else some v

draw_cells : ℕ → ℕ → Vt → Option Vt
draw_cells w r v = do
  u ← set_cell v v.cx (record { r = r; cont = false; st = v.pen })
  draw_right_half w u

draw_advance : ℕ → Vt → Vt
draw_advance w v =
    if leb v.cols (v.cx + w)
    then record v { cx = v.cols - 1; wrap = true }
    else record v { cx = v.cx + w }

unfoldable pub draw : (ℕ → ℕ) → ℕ → Vt → Option Vt
unfolding draw_wrap draw_fit draw_right_half draw_cells draw_advance
draw rune_width r v =
    let w = rune_width r in
    if w == 0
    then some v
    else do a ← draw_wrap v; b ← draw_fit w a; c ← draw_cells w r b; some (draw_advance w c)

-- `for x := x; x < x + n; x++ { row[x] = cell{} }`.
pub clear_cells : ℕ → ℕ → Row → Option Row
clear_cells zero x row = some row
clear_cells (suc n) x row = do row' ← set? row x empty_cell; clear_cells n (suc x) row'

-- `for y := y; y < y + n; y++ { v.buf[y] = blankLine(v.cols) }`.
pub clear_rows : ℕ → ℕ → ℕ → List Row → Option (List Row)
clear_rows cols zero y b = some b
clear_rows cols (suc n) y b = do b' ← set? b y (blank_line cols); clear_rows cols n (suc y) b'

abbrev pub least : ℕ → ℕ → ℕ
least a b = if ltb a b then a else b

-- The switch of `eraseLine`, on the row of the cursor.
clear_mode : ℕ → Vt → Row → Option Row
unfolding clear_cells
clear_mode mode v row =
    if mode == 0
    then clear_cells (v.cols - v.cx) v.cx row
    else if mode == 1
    then clear_cells (least (v.cx + 1) v.cols) 0 row
    else if mode == 2
    then clear_cells v.cols 0 row
    else some row

unfoldable pub erase_line : ℕ → Vt → Option Vt
unfolding clear_mode
erase_line mode v = do
  row ← get_elem? v.buf v.cy
  row' ← clear_mode mode v row
  b ← set? v.buf v.cy row'
  some (record v { buf = b })

unfoldable pub erase_display : ℕ → Vt → Option Vt
unfolding clear_rows
erase_display mode v =
    if mode == 0
    then (do
      u ← erase_line 0 v
      b ← clear_rows v.cols (v.rows - (v.cy + 1)) (v.cy + 1) u.buf
      some (record u { buf = b }))
    else if mode == 1
    then (do b ← clear_rows v.cols v.cy 0 v.buf; erase_line 1 (record v { buf = b }))
    else if mode == 2
    then some (record v { buf = blank v.cols v.rows })
    else if mode == 3
    then some (record v { buf = blank v.cols v.rows; hist = [] })
    else some v
