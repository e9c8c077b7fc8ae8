-- ===== src/Screen/Render/Padding.antt =====
-- A row is drawn at any width (internal/screen/scroll.go, `appendRow`).
use claude_master_go.Base.{
  ℕ, zero, suc, ◌-◌, ◌≡◌, refl, ap, ◌∙◌, Option, some, [], ◌∷◌, ◌++◌, length, take, replicate,
  arith,
}
use claude_master_go.Screen.Style.{Style, plain, empty_cell, Cell}
use claude_master_go.Screen.Vt.{Row, copy_row}
use claude_master_go.Screen.Render.{cells_seq, append_row, cell_style, cell_text, reset_seq}

cells_seq-replicate :
    (n : ℕ) (cur : Option Style) → cells_seq n cur [] ≡ cells_seq n cur (replicate n empty_cell)
unfolding cells_seq cell_style cell_text
cells_seq-replicate zero cur = refl
cells_seq-replicate (suc n) cur = simp (cells_seq-replicate n (some plain))

cells_seq-cons :
    (n : ℕ) (c : Cell) (r r' : Row)
    → ((cur : Option Style) → cells_seq n cur r ≡ cells_seq n cur r')
    → (cur : Option Style) → cells_seq (suc n) cur (c ∷ r) ≡ cells_seq (suc n) cur (c ∷ r')
unfolding cells_seq
cells_seq-cons n c r r' h cur = rw (h cur, h (some (cell_style c)))

same_nil : (n : ℕ) → suc n ≡ suc n - 0
same_nil n = omega arith

same_cons : (n k : ℕ) → n - k ≡ suc n - suc k
same_cons n k = omega arith

cells_seq-copy_row :
    (n : ℕ) (row : Row) (cur : Option Style)
    → cells_seq n cur row ≡ cells_seq n cur (copy_row n row)
cells_seq-copy_row zero row cur = unfold cells_seq in refl
cells_seq-copy_row (suc n) [] cur =
    cells_seq-replicate (suc n) cur
    ∙ ap (λ k. cells_seq (suc n) cur (replicate k empty_cell)) (same_nil n)
cells_seq-copy_row (suc n) (c ∷ row) cur =
    cells_seq-cons n c row (copy_row n row) (cells_seq-copy_row n row) cur
    ∙ ap (λ k. cells_seq (suc n) cur (c ∷ take n row ++ replicate k empty_cell))
        (same_cons n (length row))

-- A row of any length is drawn exactly as the row that is cut, or filled up with empty cells, to the
-- width of the view.
pub append_row-copy_row :
    (row : Row) (vcols : ℕ) → append_row row vcols ≡ append_row (copy_row vcols row) vcols
unfolding append_row
append_row-copy_row row vcols = ap (λ t. t ++ reset_seq) (cells_seq-copy_row vcols row _)
