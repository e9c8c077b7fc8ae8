-- ===== src/Screen/Vt/Erasing.antt =====
-- `eraseLine` and `eraseDisplay` (internal/screen/vt.go) in range.
use claude_master_go.Base.{
  ℕ, ◌+◌, ◌-◌, ◌≡◌, refl, ◌∙◌, inl, inr, some, arith, ◌>>=◌, ◌==◌, Bool-cases, length, Ensures,
  Ensures-some, Ensures-bind,
}
use claude_master_go.Screen.Vt.{
  Vt, Row, least, blank, clear_rows, clear_mode, erase_line, erase_display,
}
use claude_master_go.Screen.Vt.Grid.{
  IsGrid, blank-IsGrid, IsGrid-get_elem?, IsGrid-set?, clear_rows-IsGrid, clear_cells-length,
}
use claude_master_go.Screen.Vt.Safe.{
  IsWf, HasMargins, Keeps-refl, HasMargins-Keeps, Good, Good-trans, buf-Good,
}
use claude_master_go.Screen.Vt.Drawing.{Good-then}

clear_mode-length :
    (mode : ℕ) (v : Vt) (row : Row)
    → IsWf v
    → length row ≡ v.cols
    → Ensures (λ r. length r ≡ length row) (clear_mode mode v row)
unfolding clear_mode
clear_mode-length mode v row w e = elim (Bool-cases (mode == 0)) [
  | inl right ↦ simp right (clear_cells-length (v.cols - v.cx) v.cx row (omega (arith, w.column)))
  | inr not_right ↦ elim (Bool-cases (mode == 1)) [
    | inl left ↦
        simp (not_right, left)
          (clear_cells-length (least (v.cx + 1) v.cols) 0 row (ground (arith, w.column)))
    | inr not_left ↦ elim (Bool-cases (mode == 2)) [
      | inl whole ↦
          simp (not_right, not_left, whole) (clear_cells-length v.cols 0 row (omega arith))
      | inr other ↦ simp (not_right, not_left, other) (Ensures-some _ _ refl)
    ]
  ]
]

pub erase_line-Good :
    (mode : ℕ) (v : Vt) → IsWf v → HasMargins v → Ensures (Good v) (erase_line mode v)
unfolding erase_line
erase_line-Good mode v w m =
    Ensures-bind _ _ (IsGrid-get_elem? v.cols v.rows v.buf v.cy w.grid w.line) λ row e.
      Ensures-bind _ _ (clear_mode-length mode v row w e) λ row' e'.
        Ensures-bind _ _ (IsGrid-set? v.cols v.rows v.buf v.cy row' w.grid (e' ∙ e) w.line)
          λ b g. Ensures-some _ _ (buf-Good v w m b g)

-- `case 0` behind `eraseLine(0)`: the rows below the cursor of `v` are cleared in `u`.
below-Good :
    (v u : Vt)
    → IsWf v
    → HasMargins v
    → Good v u
    → Ensures (Good v) (do
      b ← clear_rows v.cols (v.rows - (v.cy + 1)) (v.cy + 1) u.buf
      some (record u { buf = b }))
below-Good v u w m g =
    let mu = HasMargins-Keeps g.keeps m in
    let same : IsGrid v.cols v.rows u.buf = rw (← g.keeps.cols, ← g.keeps.rows) g.wf.grid in
    Ensures-bind _ _
      (clear_rows-IsGrid v.cols v.rows (v.rows - (v.cy + 1)) (v.cy + 1) u.buf
        (omega (arith, w.line)) same)
      λ b gb.
        let gu : IsGrid u.cols u.rows b = rw (g.keeps.cols, g.keeps.rows) gb in
        Ensures-some _ _ (Good-trans g (buf-Good u g.wf mu b gu))

blank-Good : (v : Vt) → IsWf v → HasMargins v → Good v (record v { buf = blank v.cols v.rows })
blank-Good v w m = buf-Good v w m _ (blank-IsGrid v.cols v.rows)

pub erase_display-Good :
    (mode : ℕ) (v : Vt) → IsWf v → HasMargins v → Ensures (Good v) (erase_display mode v)
unfolding erase_display
erase_display-Good mode v w m = elim (Bool-cases (mode == 0)) [
  | inl below ↦ simp below (Ensures-bind _ _ (erase_line-Good 0 v w m) λ u g. below-Good v u w m g)
  | inr not_below ↦ elim (Bool-cases (mode == 1)) [
    | inl above ↦
        simp (not_below, above)
          (Ensures-bind _ _
            (clear_rows-IsGrid v.cols v.rows v.cy 0 v.buf (omega (arith, w.line)) w.grid)
            λ b g. Good-then v (record v { buf = b }) (buf-Good v w m b g) m (erase_line-Good 1))
    | inr not_above ↦ elim (Bool-cases (mode == 2)) [
      | inl screen ↦ simp (not_below, not_above, screen) (Ensures-some _ _ (blank-Good v w m))
      | inr not_screen ↦ elim (Bool-cases (mode == 3)) [
        | inl history ↦
            simp (not_below, not_above, not_screen, history)
              (Ensures-some _ _ (record {
                wf = record {
                  grid = blank-IsGrid v.cols v.rows;
                  column = w.column;
                  line = w.line;
                  history = omega arith;
                  counted = omega arith;
                };
                keeps = record { cols = refl; rows = refl; top = refl; bot = refl; pend = refl };
              }))
        | inr other ↦
            simp (not_below, not_above, not_screen, other)
              (Ensures-some _ _ (record { wf = w; keeps = Keeps-refl v }))
      ]
    ]
  ]
]
