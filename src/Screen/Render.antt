-- ===== src/Screen/Render.antt =====
-- internal/screen/scroll.go, `colorSeq` and `appendRow`: a row as bytes that draw it.
pub mod Padding
use claude_master_go.Base.{
  ℕ, zero, suc, ◌+◌, ◌-◌, ◌/◌, ◌%◌, Bool, true, false, not, ◌&&◌, ◌||◌, Option, none, some, List,
  [], ◌∷◌, ◌++◌, ◌==◌, ltb, leb, if◌then◌else◌, Bytes,
}
use claude_master_go.Screen.Style.{Style, plain, Cell, empty_cell, col_default}
use claude_master_go.Screen.Vt.{Row}
use claude_master_go.Screen.Text.{encode_rune}

-- `%d` of a number below 10 ^ fuel.
unfoldable pub digits : ℕ → ℕ → Bytes → Bytes
digits zero n rest = rest
digits (suc fuel) n rest =
    if ltb n 10 then (48 + n) ∷ rest else digits fuel (n / 10) ((48 + n % 10) ∷ rest)

-- A uint32 has at most ten digits.
unfoldable pub decimal : ℕ → Bytes
unfolding digits
decimal n = digits 10 n []

abbrev csi_seq : Bytes → Bytes
csi_seq s = 0x1b ∷ b'[' ∷ s

-- `byte(c >> 16)`, `byte(c >> 8)` and `byte(c)`; bit 24 tells a colour of three bytes. A palette index
-- is `int(c) - 1`, and `c` is not 0.
unfoldable pub color_seq : ℕ → Bool → Bytes
color_seq c fg =
    let p = (if fg then b'3' else b'4') ∷ b'8' ∷ [] in
    if c == col_default
    then []
    else if c / 16777216 % 2 == 1
    then csi_seq (
        p
        ++ b';' ∷ b'2' ∷ b';' ∷ decimal (c / 65536 % 256)
        ++ b';' ∷ decimal (c / 256 % 256)
        ++ b';' ∷ decimal (c % 256)
        ++ b'm' ∷ [])
    else csi_seq (p ++ b';' ∷ b'5' ∷ b';' ∷ decimal (c - 1) ++ b'm' ∷ [])

abbrev pub reset_seq : Bytes
reset_seq = 0x1b ∷ b'[' ∷ b'0' ∷ b'm' ∷ []

abbrev flag_seq : Bool → ℕ → Bytes
flag_seq on digit = if on then csi_seq (digit ∷ b'm' ∷ []) else []

-- The sequences of a change of style.
unfoldable pub style_seq : Style → Bytes
style_seq st =
    reset_seq
    ++ flag_seq st.bold b'1'
    ++ flag_seq st.italic b'3'
    ++ flag_seq st.under b'4'
    ++ flag_seq st.reverse b'7'
    ++ color_seq st.fg true
    ++ color_seq st.bg false

same_bool : Bool → Bool → Bool
same_bool true b = b
same_bool false b = not b

-- `st == cur`.
unfoldable pub same_style : Style → Style → Bool
unfolding same_bool
same_style s t =
    s.fg == t.fg
    && s.bg == t.bg
    && same_bool s.bold t.bold
    && same_bool s.italic t.italic
    && same_bool s.under t.under
    && same_bool s.reverse t.reverse

-- `first || st != cur`, with no current style before the first cell.
unfoldable pub change : Option Style → Style → Bytes
change none st = style_seq st
change (some cur) st = if same_style st cur then [] else style_seq st

-- An empty cell is drawn in the style of a reset.
unfoldable pub cell_style : Cell → Style
cell_style c = if c.r == 0 then plain else c.st

unfoldable pub cell_text : Cell → Bytes → Bytes
cell_text c rest = if c.r == 0 then 32 ∷ rest else encode_rune c.r ++ rest

-- The loop over the columns; a column that the row has not is an empty cell.
unfoldable pub cells_seq : ℕ → Option Style → Row → Bytes
cells_seq zero cur row = []
cells_seq (suc n) cur [] = change cur plain ++ 32 ∷ cells_seq n (some plain) []
cells_seq (suc n) cur (c ∷ row) =
    let skipped = cells_seq n cur row in
    let drawn = cells_seq n (some (cell_style c)) row in
    if c.cont then skipped else change cur (cell_style c) ++ cell_text c drawn

unfoldable pub append_row : Row → ℕ → Bytes
append_row row vcols = cells_seq vcols none row ++ reset_seq
