-- ===== src/Screen/Vt/Carry.antt =====
-- No operation of the screen (internal/screen/vt.go) touches `pend`, the bytes carried between chunks.
use claude_master_go.Base.{
  ℕ, ◌+◌, ◌-◌, ◌≡◌, refl, ◌∙◌, Bool, true, false, ◌&&◌, Option, some, ◌>>=◌, >>=-eq-some, ◌==◌, ltb,
  if◌then◌else◌, arith, Bytes, get_elem?, set?,
}
use claude_master_go.Screen.Style.{Cell}
use claude_master_go.Screen.Vt.{
  Vt, shift_up, shift_down, blank_line, clear_mode, clear_rows, line_feed, reverse_index, draw,
  set_cell, draw_wrap, draw_right_half, draw_fit, draw_pending, draw_cells, draw_advance,
  erase_line, erase_display,
}

-- If the operation returns, the carry is `p`.
pub record HasPend (p : Bytes) (o : Option Vt) : Type 0 where
  pub same : (u : Vt) → o ≡ some u → u.pend ≡ p

module _ {p : Bytes} where
  pub HasPend-some : (u : Vt) → u.pend ≡ p → HasPend p (some u)
  HasPend-some u e = record { same = λ x h. ground arith }

  pub HasPend-bind :
      {A : Type 0} (o : Option A) {f : A → Option Vt}
      → ((a : A) → HasPend p (f a))
      → HasPend p (o >>= f)
  HasPend-bind o {f = f} h = record {
    same = λ x e. let (a, _, r) = >>=-eq-some o f e in (h a).same x r;
  }

  pub HasPend-then :
      {o : Option Vt} {f : Vt → Option Vt}
      → HasPend p o
      → ((u : Vt) → HasPend u.pend (f u))
      → HasPend p (o >>= f)
  HasPend-then {o = o} {f = f} h k = record {
    same = λ x e. let (u, q, r) = >>=-eq-some o f e in (k u).same x r ∙ h.same u q;
  }

  pub HasPend-if :
      (b : Bool) {x y : Option Vt} → HasPend p x → HasPend p y → HasPend p (if b then x else y)
  HasPend-if true h k = h
  HasPend-if false h k = k

pub line_feed-pend : (v : Vt) → HasPend v.pend (line_feed v)
unfolding line_feed
line_feed-pend v =
    HasPend-if (v.cy == v.bot)
      (HasPend-bind (get_elem? v.buf v.top) λ row.
        HasPend-bind (shift_up (v.bot - v.top) v.top v.buf)
          λ b. HasPend-bind (set? b v.bot (blank_line v.cols)) λ b'. HasPend-some _ refl)
      (HasPend-if (ltb (v.cy + 1) v.rows) (HasPend-some _ refl) (HasPend-some v refl))

pub reverse_index-pend : (v : Vt) → HasPend v.pend (reverse_index v)
unfolding reverse_index
reverse_index-pend v =
    HasPend-if (v.cy == v.top)
      (HasPend-bind (shift_down (v.bot - v.top) v.bot v.buf)
        λ b. HasPend-bind (set? b v.top (blank_line v.cols)) λ b'. HasPend-some _ refl)
      (HasPend-if (ltb 0 v.cy) (HasPend-some _ refl) (HasPend-some v refl))

set_cell-pend : (v : Vt) (x : ℕ) (c : Cell) → HasPend v.pend (set_cell v x c)
unfolding set_cell
set_cell-pend v x c = HasPend-bind (get_elem? v.buf v.cy) λ row.
    HasPend-bind (set? row x c) λ row'. HasPend-bind (set? v.buf v.cy row') λ b. HasPend-some _ refl

draw_pending-pend : (b : Bool) (v : Vt) → HasPend v.pend (draw_pending b v)
unfolding draw_pending
draw_pending-pend true v =
    HasPend-then (line_feed-pend (record v { cx = 0 })) λ u. HasPend-some _ refl
draw_pending-pend false v = HasPend-some v refl

draw_fit-pend : (w : ℕ) (v : Vt) → HasPend v.pend (draw_fit w v)
unfolding draw_fit
draw_fit-pend w v =
    HasPend-if (ltb v.cols (v.cx + w)) (line_feed-pend (record v { cx = 0 })) (HasPend-some v refl)

draw_cells-pend : (w r : ℕ) (v : Vt) → HasPend v.pend (draw_cells w r v)
unfolding draw_cells draw_right_half
draw_cells-pend w r v = HasPend-then (set_cell-pend v v.cx _) λ c.
    HasPend-if (w == 2 && ltb (c.cx + 1) c.cols) (set_cell-pend c (c.cx + 1) _)
      (HasPend-some c refl)

draw_advance-pend : (w : ℕ) (v : Vt) → (draw_advance w v).pend ≡ v.pend
unfolding draw_advance
draw_advance-pend w v = ground arith

pub draw-pend : (rune_width : ℕ → ℕ) (r : ℕ) (v : Vt) → HasPend v.pend (draw rune_width r v)
unfolding draw draw_wrap
draw-pend rune_width r v =
    let w = rune_width r in
    HasPend-if (w == 0) (HasPend-some v refl) (
      HasPend-then (draw_pending-pend v.wrap v) λ a.
        HasPend-then (draw_fit-pend w a)
          λ b. HasPend-then (draw_cells-pend w r b) λ c. HasPend-some _ (draw_advance-pend w c))

pub erase_line-pend : (mode : ℕ) (v : Vt) → HasPend v.pend (erase_line mode v)
unfolding erase_line
erase_line-pend mode v = HasPend-bind (get_elem? v.buf v.cy) λ row.
    HasPend-bind (clear_mode mode v row)
      λ row'. HasPend-bind (set? v.buf v.cy row') λ b. HasPend-some _ refl

pub erase_display-pend : (mode : ℕ) (v : Vt) → HasPend v.pend (erase_display mode v)
unfolding erase_display
erase_display-pend mode v =
    HasPend-if (mode == 0)
      (HasPend-then (erase_line-pend 0 v) λ u.
        HasPend-bind (clear_rows v.cols (v.rows - (v.cy + 1)) (v.cy + 1) u.buf)
          λ b. HasPend-some _ refl)
      (HasPend-if (mode == 1)
        (HasPend-bind (clear_rows v.cols v.cy 0 v.buf)
          λ b. erase_line-pend 1 (record v { buf = b }))
        (HasPend-if (mode == 2) (HasPend-some _ refl)
          (HasPend-if (mode == 3) (HasPend-some _ refl) (HasPend-some v refl))))
