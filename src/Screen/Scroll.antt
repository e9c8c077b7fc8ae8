-- ===== src/Screen/Scroll.antt =====
-- internal/screen/scroll.go: the viewport over the history and the visible rows (`Scroll`,
-- `Scrollback`, `ViewLines`, `ViewCells`). An anchor is at least 0 wherever the source stores it, so
-- that it is a number; the `dy` of a scroll is an integer.
pub mod View
pub mod Return
use claude_master_go.Base.{
  ℕ, zero, suc, ◌+◌, ◌-◌, Bool, true, false, List, [], ◌∷◌, ◌++◌, ◌==◌, ltb, leb, if◌then◌else◌,
  length, take, drop, Option, none, some, get_elem?, ℤ, pos, negsuc,
}

pub record ScrollRenderer : Type 0 where
  pub follow : Bool
  pub anchor : ℕ
  pub last_max_oy : ℕ
  pub last_oy : ℕ

abbrev pub new_scroll_renderer : ScrollRenderer
new_scroll_renderer = record { follow = true; anchor = 0; last_max_oy = 0; last_oy = 0 }

unfoldable pub follow_bottom : ScrollRenderer → ScrollRenderer
follow_bottom s = record s { follow = true }

-- `s.anchor += dy`, then the two tests; the difference stops at 0, as the source sets it there. For a
-- negative sum the first test, against `last_max_oy`, fails.
scroll_anchor : ℤ → ScrollRenderer → ScrollRenderer
scroll_anchor (pos d) s =
    let a = s.anchor + d in
    if leb s.last_max_oy a then record s { anchor = a; follow = true } else record s { anchor = a }
scroll_anchor (negsuc d) s =
    let u = suc d in
    if ltb s.anchor u
    then record s { anchor = 0 }
    else if leb s.last_max_oy (s.anchor - u)
    then record s { anchor = s.anchor - u; follow = true }
    else record s { anchor = s.anchor - u }

-- From the live view only a scroll upwards does anything.
scroll_live : ℤ → ScrollRenderer → ScrollRenderer
scroll_live (pos d) s = s
scroll_live (negsuc d) s = record s { anchor = s.last_max_oy - suc d; follow = false }

unfoldable pub scroll : ℤ → ScrollRenderer → ScrollRenderer
unfolding scroll_anchor scroll_live
scroll (pos zero) s = s
scroll (pos (suc d)) s =
    if s.follow then scroll_live (pos (suc d)) s else scroll_anchor (pos (suc d)) s
scroll (negsuc d) s = if s.follow then scroll_live (negsuc d) s else scroll_anchor (negsuc d) s

unfoldable pub scrollback : ScrollRenderer → ℕ
scrollback s = if s.follow then 0 else s.last_max_oy - s.anchor

-- The part that `ViewLines` and `ViewCells` share: the first row of the viewport, and the renderer.
unfoldable pub settle : ℕ → ℕ → ScrollRenderer → ScrollRenderer × ℕ
settle total vrows s =
    let max_oy = total - vrows in
    let t = record s { last_max_oy = max_oy } in
    if s.follow
    then (t, max_oy)
    else if leb max_oy s.anchor
    then (record t { follow = true; anchor = max_oy }, max_oy)
    else (t, s.anchor)

module _ {ℓ} {A : Type ℓ} (absent : A) where
  pub or_absent : Option A → A
  or_absent none = absent
  or_absent (some a) = a

  -- The closure `line`; an entry of `hist` is read only where there is one.
  pub line : List A → List A → ℕ → A
  unfolding or_absent
  line hist vis i =
      if ltb i (length hist)
      then or_absent (get_elem? hist i)
      else or_absent (get_elem? vis (i - length hist))

  -- The loop over the rows of the viewport, from row `l` on.
  pub rows_from : ℕ → ℕ → ℕ → List A → List A → List A
  rows_from zero l total hist vis = []
  rows_from (suc n) l total hist vis =
      let rest = rows_from n (suc l) total hist vis in
      if leb total l then [] else line hist vis l ∷ rest

  unfoldable pub view_lines : List A → List A → ℕ → ScrollRenderer → ScrollRenderer × List A
  unfolding rows_from line
  view_lines hist vis vrows s =
      let total = length hist + length vis in
      let (t, oy) = settle total vrows s in (t, rows_from vrows oy total hist vis)

  -- `ViewCells` also keeps the first row for `RenderANSI`.
  unfoldable pub view_cells : List A → List A → ℕ → ScrollRenderer → ScrollRenderer × List A
  unfolding rows_from line
  view_cells hist vis vrows s =
      let total = length hist + length vis in
      let (t, oy) = settle total vrows s in
      (record t { last_oy = oy }, rows_from vrows oy total hist vis)
