-- ===== src/Screen/Text.antt =====
-- internal/screen/vt.go, `lineText`, `VisibleLines` and `HistoryLines`: the rows as text.
pub mod Rows
use claude_master_go.Base.{
  ℕ, zero, suc, ◌+◌, ◌/◌, ◌%◌, Bool, true, false, ◌&&◌, Option, none, some, List, [], ◌∷◌, ◌++◌,
  ◌>>=◌, ◌==◌, ltb, leb, if◌then◌else◌, Bytes, get_elem?, map,
}
use claude_master_go.Screen.Style.{Cell}
use claude_master_go.Screen.Vt.{Vt, Row}

-- `WriteRune`; what is no rune is written as U+FFFD.
abbrev pub replacement : Bytes
replacement = 0xef ∷ 0xbf ∷ 0xbd ∷ []

unfoldable pub encode_rune : ℕ → Bytes
encode_rune r =
    if ltb r 0x80
    then r ∷ []
    else if ltb r 0x800
    then (0xc0 + r / 64) ∷ (0x80 + r % 64) ∷ []
    else if leb 0xd800 r && leb r 0xdfff
    then replacement
    else if ltb r 0x10000
    then (0xe0 + r / 4096) ∷ (0x80 + r / 64 % 64) ∷ (0x80 + r % 64) ∷ []
    else if ltb r 0x110000
    then (0xf0 + r / 262144) ∷ (0x80 + r / 4096 % 64) ∷ (0x80 + r / 64 % 64) ∷ (0x80 + r % 64) ∷ []
    else replacement

-- What the loop over the cells writes.
unfoldable pub row_text : Row → Bytes
row_text [] = []
row_text (c ∷ cs) =
    let rest = row_text cs in
    if c.cont then rest else if c.r == 0 then 32 ∷ rest else encode_rune c.r ++ rest

unfoldable pub all_spaces : Bytes → Bool
all_spaces [] = true
all_spaces (b ∷ bs) = b == 32 && all_spaces bs

-- `strings.TrimRight s " "`.
unfoldable pub trim_spaces : Bytes → Bytes
trim_spaces [] = []
trim_spaces (b ∷ bs) = let rest = trim_spaces bs in if all_spaces (b ∷ bs) then [] else b ∷ rest

unfoldable pub line_text : Row → Bytes
line_text row = trim_spaces (row_text row)

-- The loop of `VisibleLines` from row `y` on; `none` is a row out of range.
unfoldable pub visible_from : ℕ → ℕ → List Row → Option (List Bytes)
visible_from zero y buf = some []
visible_from (suc n) y buf = do
  row ← get_elem? buf y
  rest ← visible_from n (suc y) buf
  some (line_text row ∷ rest)

unfoldable pub visible_lines : Vt → Option (List Bytes)
visible_lines v = visible_from v.rows 0 v.buf

unfoldable pub history_lines : Vt → List Bytes
history_lines v = map line_text v.hist
