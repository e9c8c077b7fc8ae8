-- ===== src/Screen/Scroll/Return.antt =====
-- When the viewport of internal/screen/scroll.go follows the output again.
use claude_master_go.Base.{ℕ, suc, ◌+◌, ◌-◌, ◌≡◌, true, leb, arith, pos, negsuc}
use claude_master_go.Screen.Scroll.{
  ScrollRenderer, scroll, scroll_anchor, scroll_live, scrollback, settle,
}

-- From the live view, as many rows down as up lead back to the live view, also where the scroll
-- upwards stops at the oldest row.
pub scroll-scroll :
    (n : ℕ) (s : ScrollRenderer)
    → s.follow ≡ true
    → (scroll (pos (suc n)) (scroll (negsuc n) s)).follow ≡ true
unfolding scroll scroll_anchor scroll_live
scroll-scroll n s f = simp (f, at_bottom)
  where
    at_bottom : leb s.last_max_oy (s.last_max_oy - suc n + suc n) ≡ true
    at_bottom = ground arith

-- A view follows the output exactly when its first row is the last possible one, and then it is 0
-- rows above the bottom; otherwise it is as many rows above as its first row is before that one.
pub scrollback-settle :
    (total vrows : ℕ) (s : ScrollRenderer)
    → let (t, oy) = settle total vrows s in
      (t.follow ≡ leb (total - vrows) oy) × (scrollback t ≡ total - vrows - oy)
unfolding settle scrollback
scrollback-settle total vrows s = ground arith
