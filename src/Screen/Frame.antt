-- ===== src/Screen/Frame.antt =====
-- internal/screen/scroll.go, `RenderANSI`: the viewport as one synchronized update.
use claude_master_go.Base.{
  ℕ, suc, ◌+◌, ◌-◌, ◌&&◌, List, [], ◌∷◌, ◌++◌, ltb, leb, if◌then◌else◌, Bytes, length,
}
use claude_master_go.Screen.Vt.{Vt, Row}
use claude_master_go.Screen.Scroll.{ScrollRenderer, view_cells}
use claude_master_go.Screen.Render.{append_row, decimal}

abbrev pub begin_seq : Bytes
begin_seq = 27 ∷ b'[' ∷ b'?' ∷ b'2' ∷ b'0' ∷ b'2' ∷ b'6' ∷ b'h' ∷ []

abbrev pub hide_seq : Bytes
hide_seq = 27 ∷ b'[' ∷ b'?' ∷ b'2' ∷ b'5' ∷ b'l' ∷ []

abbrev pub clear_seq : Bytes
clear_seq =
    27 ∷ b'[' ∷ b'2' ∷ b'J' ∷ 27 ∷ b'[' ∷ b'9' ∷ b'9' ∷ b'9' ∷ b'9' ∷ b';' ∷ b'1' ∷ b'H' ∷ 27 ∷ b'['
    ∷ b'H' ∷ []

abbrev pub show_seq : Bytes
show_seq = 27 ∷ b'[' ∷ b'?' ∷ b'2' ∷ b'5' ∷ b'h' ∷ []

abbrev pub end_seq : Bytes
end_seq = 27 ∷ b'[' ∷ b'?' ∷ b'2' ∷ b'0' ∷ b'2' ∷ b'6' ∷ b'l' ∷ []

-- The rows, with a line break between two.
unfoldable pub rows_seq : List Row → ℕ → Bytes
rows_seq [] vcols = []
rows_seq (row ∷ []) vcols = append_row row vcols
rows_seq (row ∷ next ∷ rows) vcols = append_row row vcols ++ 13 ∷ 10 ∷ rows_seq (next ∷ rows) vcols

-- The column within 1 .. vcols; the source's two tests in their order.
unfoldable pub cursor_col : ℕ → ℕ → ℕ
cursor_col cx vcols = if ltb vcols (suc cx) then vcols else suc cx

-- The cursor is put back and shown where its row, in history and screen together, is in the viewport.
unfoldable pub cursor_seq : Vt → ℕ → ℕ → ℕ → Bytes
cursor_seq v oy vrows vcols =
    let cur = length v.hist + v.cy in
    if leb oy cur && leb (suc (cur - oy)) vrows
    then 0x1b ∷ b'[' ∷ decimal (suc (cur - oy))
      ++ b';' ∷ decimal (cursor_col v.cx vcols)
      ++ b'H' ∷ show_seq
    else []

unfoldable pub render_ansi : Row → Vt → ℕ → ℕ → ScrollRenderer → ScrollRenderer × Bytes
render_ansi absent v vrows vcols s =
    let (t, rows) = view_cells absent v.hist v.buf vrows s in
    (
      t,
      begin_seq
          ++ hide_seq
          ++ clear_seq
          ++ rows_seq rows vcols
          ++ cursor_seq v t.last_oy vrows vcols
          ++ end_seq,
    )
