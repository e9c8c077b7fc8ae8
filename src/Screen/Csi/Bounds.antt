-- ===== src/Screen/Csi/Bounds.antt =====
-- `csi` (internal/screen/vt.go) in range: whatever the parameters are, the sequence returns, and the
-- cursor is on the screen behind it. The margins are as the sequence asks, on the screen or not.
use claude_master_go.Base.{
  ℕ, ◌<◌, ◌≡◌, refl, ◌∙◌, Bool, true, false, ◌&&◌, ◌||◌, [], ◌∷◌, if◌then◌else◌, inl, inr, List,
  arith, ◌==◌, Bool-cases, Ensures, Ensures-some, Ensures-bind,
}
use claude_master_go.Screen.Vt.{Vt}
use claude_master_go.Screen.Vt.Safe.{IsWf, HasMargins, Good}
use claude_master_go.Screen.Vt.Erasing.{erase_line-Good, erase_display-Good}
use claude_master_go.Screen.Style.{Style}
use claude_master_go.Screen.Csi.{
  params, arg_or_0, clamp, clamp_cursor, is_positive, margins, has_sync, set_mode, move, dispatch,
  csi,
}

-- The size and the parser's carry stay as they are.
pub record KeepsSize (v u : Vt) : Type 0 where
  pub cols : u.cols ≡ v.cols
  pub rows : u.rows ≡ v.rows
  pub pend : u.pend ≡ v.pend

pub record Sound (v u : Vt) : Type 0 where
  pub wf : IsWf u
  pub keeps : KeepsSize v u

pub clamp-lt : (size x : ℕ) → 0 < size → clamp size x < size
unfolding clamp
clamp-lt size x h = ground arith

-- What does not touch the cells or the history.
record SameCells (v u : Vt) : Type 0 where
  cols : u.cols ≡ v.cols
  rows : u.rows ≡ v.rows
  pend : u.pend ≡ v.pend
  buf : u.buf ≡ v.buf
  hist : u.hist ≡ v.hist
  total : u.hist_total ≡ v.hist_total

SameCells-refl : (v : Vt) → SameCells v v
SameCells-refl v = record {
  cols = refl;
  rows = refl;
  pend = refl;
  buf = refl;
  hist = refl;
  total = refl;
}

placed-SameCells :
    (v : Vt) {cx cy top bot : ℕ} {pen : Style} {on : Bool}
    → SameCells v (record v { cx = cx; cy = cy; top = top; bot = bot; pen = pen; sync_active = on })
placed-SameCells v = record {
  cols = refl;
  rows = refl;
  pend = refl;
  buf = refl;
  hist = refl;
  total = refl;
}

if-SameCells :
    (b : Bool) {v x y : Vt} → SameCells v x → SameCells v y → SameCells v (if b then x else y)
if-SameCells true h k = h
if-SameCells false h k = k

margins-SameCells : (ps : List ℕ) (v : Vt) → SameCells v (margins ps v)
unfolding margins
margins-SameCells [] v = placed-SameCells v
margins-SameCells (t ∷ []) v = placed-SameCells v
margins-SameCells (t ∷ b ∷ ps) v = elim (Bool-cases (is_positive t && is_positive b)) [
  | inl e ↦ rw e (placed-SameCells v)
  | inr e ↦ rw e (placed-SameCells v)
]

set_mode-SameCells : (on : Bool) (ps : List ℕ) (v : Vt) → SameCells v (set_mode on ps v)
unfolding set_mode
set_mode-SameCells on ps v =
    if-SameCells (v.csi_pv && has_sync ps) (placed-SameCells v) (SameCells-refl v)

move-SameCells : (final : ℕ) (ps : List ℕ) (v : Vt) → SameCells v (move final ps v)
unfolding move
move-SameCells final ps v = if-SameCells (final == b'A') (placed-SameCells v) (
    if-SameCells (final == b'B') (placed-SameCells v) (
      if-SameCells (final == b'C') (placed-SameCells v) (
        if-SameCells (final == b'D') (placed-SameCells v) (
          if-SameCells (final == b'G') (placed-SameCells v) (
            if-SameCells (final == b'd') (placed-SameCells v) (
              if-SameCells (final == b'H' || final == b'f') (placed-SameCells v) (
                if-SameCells (final == b'r')
                  (if-SameCells v.csi_pv (SameCells-refl v) (margins-SameCells ps v))
                  (if-SameCells (final == b'm') (placed-SameCells v) (
                    if-SameCells (final == b'h') (set_mode-SameCells true ps v) (
                      if-SameCells (final == b'l') (set_mode-SameCells false ps v)
                        (SameCells-refl v)))))))))))

pub move-pend : (final : ℕ) (ps : List ℕ) (v : Vt) → (move final ps v).pend ≡ v.pend
move-pend final ps v = (move-SameCells final ps v).pend

clamp_cursor-IsWf :
    (v u : Vt) → IsWf v → SameCells v u → Sound v (clamp_cursor (record u { wrap = false }))
unfolding clamp_cursor
clamp_cursor-IsWf v u w s = record {
  wf = record {
    grid = rw (s.cols, s.rows, s.buf) w.grid;
    column = clamp-lt u.cols u.cx (omega (arith, s.cols, w.column));
    line = clamp-lt u.rows u.cy (omega (arith, s.rows, w.line));
    history = rw s.hist w.history;
    counted = rw (s.hist, s.total) w.counted;
  };
  keeps = record { cols = s.cols; rows = s.rows; pend = s.pend };
}

erased-Sound : (v u : Vt) → Good v u → Sound v (clamp_cursor (record u { wrap = false }))
erased-Sound v u g =
    let s = clamp_cursor-IsWf u u g.wf (SameCells-refl u) in
    record {
      wf = s.wf;
      keeps = record {
        cols = s.keeps.cols ∙ g.keeps.cols;
        rows = s.keeps.rows ∙ g.keeps.rows;
        pend = s.keeps.pend ∙ g.keeps.pend;
      };
    }

-- From a well-formed screen with its margins in range every control sequence returns, whatever its
-- final byte and its parameters are (numbers too large for an int included), and leaves a well-formed
-- screen of the same size, with the cursor on it.
pub csi-Sound : (final : ℕ) (v : Vt) → IsWf v → HasMargins v → Ensures (Sound v) (csi final v)
unfolding csi dispatch
csi-Sound final v w m =
    let ps = params v.parm in
    elim (Bool-cases (final == b'J')) [
      | inl display ↦ simp display (
          Ensures-bind _ _ (erase_display-Good (arg_or_0 ps) v w m)
            λ u g. Ensures-some _ _ (erased-Sound v u g))
      | inr not_display ↦ elim (Bool-cases (final == b'K')) [
        | inl line ↦
            simp (not_display, line)
              (Ensures-bind _ _ (erase_line-Good (arg_or_0 ps) v w m)
                λ u g. Ensures-some _ _ (erased-Sound v u g))
        | inr other ↦
            simp (not_display, other)
              (Ensures-some _ _
                (clamp_cursor-IsWf v (move final ps v) w (move-SameCells final ps v)))
      ]
    ]
