-- ===== src/Screen/Vt/Drawing.antt =====
-- `draw` (internal/screen/vt.go) in range, for any width table.
use claude_master_go.Base.{
  ℕ, ◌+◌, refl, Bool, true, false, ◌&&◌, inl, inr, Option, arith, ◌==◌, ltb, leb, Bool-cases,
  Ensures, Ensures-some, Ensures-bind,
}
use claude_master_go.Screen.Vt.{
  Vt, draw_pending, draw_wrap, draw_fit, draw_right_half, draw_cells, draw_advance, draw,
}
use claude_master_go.Screen.Vt.Safe.{
  IsWf, HasMargins, Keeps-refl, HasMargins-Keeps, Good, Good-trans, cursor-Good, return_feed-Good,
  set_cell-Good,
}

module _ (v : Vt) (w : IsWf v) (m : HasMargins v) where
  stay : Good v v
  stay = record { wf = w; keeps = Keeps-refl v }

  draw_pending-Good : (b : Bool) → Ensures (Good v) (draw_pending b v)
  unfolding draw_pending
  draw_pending-Good false = Ensures-some _ _ stay
  draw_pending-Good true = Ensures-bind (Good v) _ (return_feed-Good v w m) λ u g.
      Ensures-some _ _ (record {
        wf = record {
          grid = g.wf.grid;
          column = g.wf.column;
          line = g.wf.line;
          history = g.wf.history;
          counted = g.wf.counted;
        };
        keeps = record {
          cols = g.keeps.cols;
          rows = g.keeps.rows;
          top = g.keeps.top;
          bot = g.keeps.bot;
          pend = g.keeps.pend;
        };
      })

  draw_wrap-Good : Ensures (Good v) (draw_wrap v)
  unfolding draw_wrap
  draw_wrap-Good = draw_pending-Good v.wrap

  draw_fit-Good : (n : ℕ) → Ensures (Good v) (draw_fit n v)
  unfolding draw_fit
  draw_fit-Good n = elim (Bool-cases (ltb v.cols (v.cx + n))) [
    | inl over ↦ simp over (return_feed-Good v w m)
    | inr fits ↦ simp fits (Ensures-some _ _ stay)
  ]

  draw_right_half-Good : (n : ℕ) → Ensures (Good v) (draw_right_half n v)
  unfolding draw_right_half
  draw_right_half-Good n = elim (Bool-cases (n == 2 && ltb (v.cx + 1) v.cols)) [
    | inl wide ↦
        let e =
          set_cell-Good v w m (v.cx + 1) (record { r = 0; cont = true; st = v.pen })
            (ground arith) in
        simp wide (record { value = e.value; returns = e.returns; holds = e.holds.0 })
    | inr narrow ↦ simp narrow (Ensures-some _ _ stay)
  ]

  draw_advance-Good : (n : ℕ) → Good v (draw_advance n v)
  unfolding draw_advance
  draw_advance-Good n = elim (Bool-cases (leb v.cols (v.cx + n))) [
    | inl full ↦ simp full (record {
      wf = record {
        grid = w.grid;
        column = omega (arith, w.column);
        line = w.line;
        history = w.history;
        counted = w.counted;
      };
      keeps = record { cols = refl; rows = refl; top = refl; bot = refl; pend = refl };
    })
    | inr room ↦ simp room (cursor-Good v w m (v.cx + n) v.cy (ground arith) w.line)
  ]

-- From a good state on, what is good there is good from the start.
pub Good-then :
    {f : Vt → Option Vt} (v u : Vt)
    → Good v u
    → HasMargins v
    → ((x : Vt) → IsWf x → HasMargins x → Ensures (Good x) (f x))
    → Ensures (Good v) (f u)
Good-then v u g m k =
    let e = k u g.wf (HasMargins-Keeps g.keeps m) in
    record { value = e.value; returns = e.returns; holds = Good-trans g e.holds }

draw_cells-Good : (n r : ℕ) (v : Vt) → IsWf v → HasMargins v → Ensures (Good v) (draw_cells n r v)
unfolding draw_cells
draw_cells-Good n r v w m =
    Ensures-bind _ _
      (set_cell-Good v w m v.cx (record { r = r; cont = false; st = v.pen }) w.column)
      λ u g. Good-then v u g.0 m (λ x wx mx. draw_right_half-Good x wx mx n)

pub draw-Good :
    (rune_width : ℕ → ℕ) (r : ℕ) (v : Vt)
    → IsWf v
    → HasMargins v
    → Ensures (Good v) (draw rune_width r v)
unfolding draw
draw-Good rune_width r v w m = elim (Bool-cases (rune_width r == 0)) [
  | inl combining ↦ simp combining (Ensures-some _ _ (stay v w m))
  | inr spacing ↦ simp spacing (
      Ensures-bind (Good v) _ (draw_wrap-Good v w m) λ a ga.
        Ensures-bind (Good v) _
          (Good-then v a ga m (λ x wx mx. draw_fit-Good x wx mx (rune_width r)))
          λ b gb.
            Ensures-bind (Good v) _ (Good-then v b gb m (draw_cells-Good (rune_width r) r)) λ c gc.
              let mc = HasMargins-Keeps gc.keeps m in
              Ensures-some _ _ (Good-trans gc (draw_advance-Good c gc.wf mc (rune_width r))))
]
