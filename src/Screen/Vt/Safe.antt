-- ===== src/Screen/Vt/Safe.antt =====
-- The operations of the screen (internal/screen/vt.go) in range: with both margins on the screen each
-- of them returns, and keeps the screen well-formed.
use claude_master_go.Base.{
  ℕ, ◌+◌, ◌-◌, ◌≤◌, ◌<◌, ◌≡◌, refl, ap, ◌∙◌, inl, inr, List, [], ◌∷◌, ◌++◌, arith, ◌==◌, ltb,
  Bool-cases, length, length-append, length-drop, length-replicate, Ensures, Ensures-some,
  Ensures-bind,
}
use claude_master_go.Screen.Style.{Cell, empty_cell}
use claude_master_go.Screen.Vt.{
  Vt, Row, hist_max, blank_line, copy_row, trim_hist, new_model, line_feed, reverse_index, set_cell,
}
use claude_master_go.Screen.Vt.Grid.{
  IsGrid, blank-IsGrid, IsGrid-get_elem?, IsGrid-set?, Row-set?, shift_up-IsGrid, shift_down-IsGrid,
}

-- The screen is a grid with the cursor on it, and the history is within its bound and its count.
pub record IsWf (v : Vt) : Type 0 where
  pub grid : IsGrid v.cols v.rows v.buf
  pub column : v.cx < v.cols
  pub line : v.cy < v.rows
  pub history : length v.hist ≤ hist_max
  pub counted : length v.hist ≤ v.hist_total

pub record HasMargins (v : Vt) : Type 0 where
  pub top_inside : v.top < v.rows
  pub bot_inside : v.bot < v.rows

-- The operation leaves the size, the margins and the parser's carry alone.
pub record Keeps (v u : Vt) : Type 0 where
  pub cols : u.cols ≡ v.cols
  pub rows : u.rows ≡ v.rows
  pub top : u.top ≡ v.top
  pub bot : u.bot ≡ v.bot
  pub pend : u.pend ≡ v.pend

pub Keeps-refl : (v : Vt) → Keeps v v
Keeps-refl v = record { cols = refl; rows = refl; top = refl; bot = refl; pend = refl }

pub Keeps-trans : {a b c : Vt} → Keeps a b → Keeps b c → Keeps a c
Keeps-trans h k = record {
  cols = k.cols ∙ h.cols;
  rows = k.rows ∙ h.rows;
  top = k.top ∙ h.top;
  bot = k.bot ∙ h.bot;
  pend = k.pend ∙ h.pend;
}

pub HasMargins-Keeps : {v u : Vt} → Keeps v u → HasMargins v → HasMargins u
HasMargins-Keeps k h = record {
  top_inside = omega (arith, k.rows, k.top, h.top_inside);
  bot_inside = omega (arith, k.rows, k.bot, h.bot_inside);
}

-- What a safe operation from `v` gives.
pub record Good (v u : Vt) : Type 0 where
  pub wf : IsWf u
  pub keeps : Keeps v u

pub Good-trans : {a b c : Vt} → Good a b → Good b c → Good a c
Good-trans h k = record { wf = k.wf; keeps = Keeps-trans h.keeps k.keeps }

pub new_model-IsWf :
    (cols rows : ℕ)
    → 0 < cols
    → 0 < rows
    → IsWf (new_model cols rows) × HasMargins (new_model cols rows)
unfolding new_model
new_model-IsWf cols rows c r = (
  record {
    grid = blank-IsGrid cols rows;
    column = c;
    line = r;
    history = omega arith;
    counted = omega arith;
  },
  record { top_inside = r; bot_inside = omega arith },
)

trim_hist-length :
    (h : List Row) → (length (trim_hist h) ≤ hist_max) × (length (trim_hist h) ≤ length h)
trim_hist-length h = ground (arith, length-drop (length h - hist_max) h)

-- One line more in the history keeps its bound and its count.
grown-IsWf :
    (v u : Vt) (row : Row)
    → IsWf v
    → u.hist ≡ trim_hist (v.hist ++ row ∷ [])
    → u.hist_total ≡ v.hist_total + 1
    → (length u.hist ≤ hist_max) × (length u.hist ≤ u.hist_total)
grown-IsWf v u row w e f = omega (
  arith,
  ap length e,
  trim_hist-length (v.hist ++ row ∷ []),
  length-append v.hist (row ∷ []),
  w.counted,
)

module _ (v : Vt) (w : IsWf v) (m : HasMargins v) where
  scroll-Good :
      (row : Row) (b : List Row)
      → IsGrid v.cols v.rows b
      → Good v (record v {
        hist = trim_hist (v.hist ++ row ∷ []);
        hist_total = v.hist_total + 1;
        buf = b;
      })
  scroll-Good row b g = record {
    wf = record {
      grid = g;
      column = w.column;
      line = w.line;
      history =
          (grown-IsWf v
            (record v {
              hist = trim_hist (v.hist ++ row ∷ []);
              hist_total = v.hist_total + 1;
              buf = b;
            })
            row w refl refl).0;
      counted =
          (grown-IsWf v
            (record v {
              hist = trim_hist (v.hist ++ row ∷ []);
              hist_total = v.hist_total + 1;
              buf = b;
            })
            row w refl refl).1;
    };
    keeps = record { cols = refl; rows = refl; top = refl; bot = refl; pend = refl };
  }

  pub buf-Good : (b : List Row) → IsGrid v.cols v.rows b → Good v (record v { buf = b })
  buf-Good b g = record {
    wf = record {
      grid = g;
      column = w.column;
      line = w.line;
      history = w.history;
      counted = w.counted;
    };
    keeps = record { cols = refl; rows = refl; top = refl; bot = refl; pend = refl };
  }

  pub cursor-Good : (x y : ℕ) → x < v.cols → y < v.rows → Good v (record v { cx = x; cy = y })
  cursor-Good x y h k = record {
    wf = record { grid = w.grid; column = h; line = k; history = w.history; counted = w.counted };
    keeps = record { cols = refl; rows = refl; top = refl; bot = refl; pend = refl };
  }

pub line_feed-Good : (v : Vt) → IsWf v → HasMargins v → Ensures (Good v) (line_feed v)
unfolding line_feed
line_feed-Good v w m = elim (Bool-cases (v.cy == v.bot)) [
  | inl at_bot ↦ simp at_bot (
      Ensures-bind _ _ (IsGrid-get_elem? v.cols v.rows v.buf v.top w.grid m.top_inside) λ row e.
        Ensures-bind _ _
          (shift_up-IsGrid v.cols v.rows (v.bot - v.top) v.top v.buf (omega arith) w.grid)
          λ b g.
            Ensures-bind _ _
              (IsGrid-set? v.cols v.rows b v.bot (blank_line v.cols) g
                (length-replicate v.cols empty_cell) m.bot_inside)
              λ b' g'. Ensures-some _ _ (scroll-Good v w m (copy_row v.cols row) b' g'))
  | inr above ↦ elim (Bool-cases (ltb (v.cy + 1) v.rows)) [
    | inl room ↦
        simp (above, room)
          (Ensures-some _ _ (cursor-Good v w m v.cx (v.cy + 1) w.column (ground arith)))
    | inr last ↦ simp (above, last) (Ensures-some _ _ (record { wf = w; keeps = Keeps-refl v }))
  ]
]

pub reverse_index-Good : (v : Vt) → IsWf v → HasMargins v → Ensures (Good v) (reverse_index v)
unfolding reverse_index
reverse_index-Good v w m = elim (Bool-cases (v.cy == v.top)) [
  | inl at_top ↦ simp at_top (
      Ensures-bind _ _
        (shift_down-IsGrid v.cols v.rows (v.bot - v.top) v.bot v.buf m.bot_inside w.grid)
        λ b g.
          Ensures-bind _ _
            (IsGrid-set? v.cols v.rows b v.top (blank_line v.cols) g
              (length-replicate v.cols empty_cell) m.top_inside)
            λ b' g'. Ensures-some _ _ (buf-Good v w m b' g'))
  | inr below ↦ elim (Bool-cases (ltb 0 v.cy)) [
    | inl room ↦
        let l = w.line in
        simp (below, room)
          (Ensures-some _ _ (cursor-Good v w m v.cx (v.cy - 1) w.column (omega arith)))
    | inr first ↦ simp (below, first) (Ensures-some _ _ (record { wf = w; keeps = Keeps-refl v }))
  ]
]

pub set_cell-Good :
    (v : Vt)
    → IsWf v
    → HasMargins v
    → (x : ℕ) (c : Cell) → x < v.cols
    → Ensures (λ u. Good v u × (u.cx ≡ v.cx)) (set_cell v x c)
unfolding set_cell
set_cell-Good v w m x c h =
    Ensures-bind _ _ (IsGrid-get_elem? v.cols v.rows v.buf v.cy w.grid w.line) λ row e.
      Ensures-bind _ _ (Row-set? row x c (omega arith)) λ row' e'.
        Ensures-bind _ _ (IsGrid-set? v.cols v.rows v.buf v.cy row' w.grid (e' ∙ e) w.line)
          λ b g. Ensures-some _ _ (buf-Good v w m b g, refl)

-- With the cursor at the left margin a line feed is as good as from anywhere.
pub return_feed-Good :
    (v : Vt) → IsWf v → HasMargins v → Ensures (Good v) (line_feed (record v { cx = 0 }))
return_feed-Good v w m =
    let back = cursor-Good v w m 0 v.cy (omega (arith, w.column)) w.line in
    let e = line_feed-Good (record v { cx = 0 }) back.wf (HasMargins-Keeps back.keeps m) in
    record { value = e.value; returns = e.returns; holds = Good-trans back e.holds }
