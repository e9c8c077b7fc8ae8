-- ===== src/Screen/Vt/Grid.antt =====
-- Rows and buffers of one shape, for the screen of internal/screen/vt.go: in range, the reads, the
-- writes and the row loops return, and keep the shape.
use claude_master_go.Base.{
  ℕ, zero, suc, ◌+◌, ◌-◌, ◌≤◌, ◌<◌, ◌≡◌, refl, ap, ◌∙◌, List, [], ◌∷◌, arith, length, get_elem?,
  set?, take, replicate, length-append, length-take, length-replicate, Ensures, Ensures-some,
  Ensures-bind,
}
use claude_master_go.Screen.Style.{Cell, empty_cell}
use claude_master_go.Screen.Vt.{
  Row, blank_line, blank, copy_row, shift_up, shift_down, clear_cells, clear_rows,
}

abbrev pub HasWidth : ℕ → List Row → Type 0
HasWidth cols [] = Unit
HasWidth cols (r ∷ rs) = (length r ≡ cols) × HasWidth cols rs

-- `rows` rows of `cols` cells.
pub record IsGrid (cols rows : ℕ) (b : List Row) : Type 0 where
  pub height : length b ≡ rows
  pub width : HasWidth cols b

set?-length {ℓ} :
    {A : Type ℓ} (xs : List A) (i : ℕ) (x : A)
    → i < length xs
    → Ensures (λ ys. length ys ≡ length xs) (set? xs i x)
set?-length [] i x h = absurd (omega arith)
set?-length (y ∷ ys) zero x h = Ensures-some _ _ refl
set?-length (y ∷ ys) (suc i) x h =
    let e = set?-length ys i x (omega arith) in
    record { value = y ∷ e.value; returns = rw e.returns refl; holds = ap suc e.holds }

pub Row-set? :
    (row : Row) (i : ℕ) (c : Cell)
    → i < length row
    → Ensures (λ r. length r ≡ length row) (set? row i c)
Row-set? row i c h = set?-length row i c h

HasWidth-get_elem? :
    (cols : ℕ) (b : List Row) (y : ℕ)
    → HasWidth cols b
    → y < length b
    → Ensures (λ r. length r ≡ cols) (get_elem? b y)
HasWidth-get_elem? cols [] y w h = absurd (omega arith)
HasWidth-get_elem? cols (r ∷ b) zero w h = Ensures-some _ _ w.0
HasWidth-get_elem? cols (r ∷ b) (suc y) w h = HasWidth-get_elem? cols b y w.1 (omega arith)

HasWidth-set? :
    (cols : ℕ) (b : List Row) (y : ℕ) (row : Row)
    → HasWidth cols b
    → length row ≡ cols
    → y < length b
    → Ensures (λ b'. (length b' ≡ length b) × HasWidth cols b') (set? b y row)
HasWidth-set? cols [] y row w e h = absurd (omega arith)
HasWidth-set? cols (r ∷ b) zero row w e h = Ensures-some _ _ (refl, (e, w.1))
HasWidth-set? cols (r ∷ b) (suc y) row w e h =
    let s = HasWidth-set? cols b y row w.1 e (omega arith) in
    record {
      value = r ∷ s.value;
      returns = rw s.returns refl;
      holds = (ap suc s.holds.0, (w.0, s.holds.1));
    }

HasWidth-replicate : (cols n : ℕ) (row : Row) → length row ≡ cols → HasWidth cols (replicate n row)
HasWidth-replicate cols zero row e = tt
HasWidth-replicate cols (suc n) row e = (e, HasWidth-replicate cols n row e)

pub copy_row-length : (cols : ℕ) (row : Row) → length (copy_row cols row) ≡ cols
copy_row-length cols row = omega (
  arith,
  length-append (take cols row) (replicate (cols - length row) empty_cell),
  length-take cols row,
  length-replicate (cols - length row) empty_cell,
)

pub blank-IsGrid : (cols rows : ℕ) → IsGrid cols rows (blank cols rows)
blank-IsGrid cols rows = record {
  height = length-replicate rows (blank_line cols);
  width = HasWidth-replicate cols rows (blank_line cols) (length-replicate cols empty_cell);
}

module _ (cols rows : ℕ) where
  pub IsGrid-get_elem? :
      (b : List Row) (y : ℕ)
      → IsGrid cols rows b
      → y < rows
      → Ensures (λ r. length r ≡ cols) (get_elem? b y)
  IsGrid-get_elem? b y g h = HasWidth-get_elem? cols b y g.width (omega (arith, g.height))

  pub IsGrid-set? :
      (b : List Row) (y : ℕ) (row : Row)
      → IsGrid cols rows b
      → length row ≡ cols
      → y < rows
      → Ensures (IsGrid cols rows) (set? b y row)
  IsGrid-set? b y row g e h =
      let s = HasWidth-set? cols b y row g.width e (omega (arith, g.height)) in
      record {
        value = s.value;
        returns = s.returns;
        holds = record { height = s.holds.0 ∙ g.height; width = s.holds.1 };
      }

  pub shift_up-IsGrid :
      (n y : ℕ) (b : List Row)
      → y + n < rows
      → IsGrid cols rows b
      → Ensures (IsGrid cols rows) (shift_up n y b)
  unfolding shift_up
  shift_up-IsGrid zero y b h g = Ensures-some _ _ g
  shift_up-IsGrid (suc n) y b h g =
      Ensures-bind _ _ (IsGrid-get_elem? b (suc y) g (omega arith)) λ r e.
        Ensures-bind _ _ (IsGrid-set? b y r g e (omega arith))
          λ b' g'. shift_up-IsGrid n (suc y) b' (omega arith) g'

  pub shift_down-IsGrid :
      (n y : ℕ) (b : List Row)
      → y < rows
      → IsGrid cols rows b
      → Ensures (IsGrid cols rows) (shift_down n y b)
  unfolding shift_down
  shift_down-IsGrid zero y b h g = Ensures-some _ _ g
  shift_down-IsGrid (suc n) y b h g =
      Ensures-bind _ _ (IsGrid-get_elem? b (y - 1) g (omega arith)) λ r e.
        Ensures-bind _ _ (IsGrid-set? b y r g e h)
          λ b' g'. shift_down-IsGrid n (y - 1) b' (omega arith) g'

  pub clear_rows-IsGrid :
      (n y : ℕ) (b : List Row)
      → y + n ≤ rows
      → IsGrid cols rows b
      → Ensures (IsGrid cols rows) (clear_rows cols n y b)
  unfolding clear_rows
  clear_rows-IsGrid zero y b h g = Ensures-some _ _ g
  clear_rows-IsGrid (suc n) y b h g =
      Ensures-bind _ _
        (IsGrid-set? b y (blank_line cols) g (length-replicate cols empty_cell) (omega arith))
        λ b' g'. clear_rows-IsGrid n (suc y) b' (omega arith) g'

pub clear_cells-length :
    (n x : ℕ) (row : Row)
    → x + n ≤ length row
    → Ensures (λ r. length r ≡ length row) (clear_cells n x row)
unfolding clear_cells
clear_cells-length zero x row h = Ensures-some _ _ refl
clear_cells-length (suc n) x row h =
    Ensures-bind _ _ (Row-set? row x empty_cell (omega arith)) λ r e.
      let rest = clear_cells-length n (suc x) r (omega arith) in
      record { value = rest.value; returns = rest.returns; holds = rest.holds ∙ e }
