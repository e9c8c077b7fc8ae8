-- ===== src/Keys/Host.antt =====
-- internal/ptyproxy/server.go, `HandleHostInput`: the input of the terminal that the proxy runs in. The
-- errors of writes are dropped there. A frame draws the viewport of the host, which
-- moves to where it is drawn.
pub mod Quiet
use claude_master_go.Base.{
  ℕ, Bool, true, false, not, ◌&&◌, ◌||◌, Option, none, some, List, [], ◌∷◌, ◌++◌, ◌==◌, ltb,
  if◌then◌else◌, Bytes, length, equal, ℤ, pos, negsuc,
}
use claude_master_go.Config.Values.{Config}
use claude_master_go.Screen.Vt.{Vt}
use claude_master_go.Screen.Frame.{render_ansi}
use claude_master_go.Screen.Scroll.{ScrollRenderer, scroll, scrollback, follow_bottom}
use claude_master_go.Keys.Input.{
  is_live_reset_key, classify_wheel, contains, remove_all, times, minus,
}

-- `hostPgUp` and `hostPgDn`.
abbrev pub page_up : Bytes
page_up = 27 ∷ b'[' ∷ b'5' ∷ b'~' ∷ []

abbrev pub page_down : Bytes
page_down = 27 ∷ b'[' ∷ b'6' ∷ b'~' ∷ []

-- What the input leads to: bytes for claude, one of the two notes on the host's terminal, or a frame.
pub data Effect : Type 0 where
  forward : Bytes → Effect
  nav_note : Bool → Effect
  draw : Bytes → Effect

-- `hostNav` and `hostSR`.
pub record HostState : Type 0 where
  pub nav : Bool
  pub view : ScrollRenderer

-- The screen, and the terminal that shows it, if there is one.
pub record Terminal : Type 0 where
  pub vt : Vt
  pub rows : ℕ
  pub cols : ℕ
  pub attached : Bool

-- `hostScrollDy`.
abbrev is_key : Bytes → Bytes → ℕ → Bool
is_key input seq c = equal input seq || equal input (c ∷ [])

unfoldable pub scroll_key : ℕ → ℕ → Bytes → Option ℤ
scroll_key step page input =
    if is_key input (27 ∷ b'[' ∷ b'A' ∷ []) b'k'
    then some (minus step)
    else if is_key input (27 ∷ b'[' ∷ b'B' ∷ []) b'j'
    then some (pos step)
    else if equal input page_up
    then some (minus page)
    else if equal input page_down
    then some (pos page)
    else if is_key input (27 ∷ b'[' ∷ b'H' ∷ []) b'g'
    then some (negsuc 999999)
    else if is_key input (27 ∷ b'[' ∷ b'F' ∷ []) b'G'
    then some (pos 1000000)
    else none

abbrev pub is_raw : Config → Bool
is_raw cfg = equal cfg.size_policy (b'h' ∷ b'o' ∷ b's' ∷ b't' ∷ [])

abbrev pub is_flow : Config → Bool
is_flow cfg = cfg.host_flow_scrollback && not (is_raw cfg)

module _ (cfg : Config) (t : Terminal) where
  -- `forwardLocked`.
  unfoldable pub forwarding : Bytes → List Effect
  forwarding [] = []
  forwarding (c ∷ s) = forward (c ∷ s) ∷ []

  -- `renderHostLocked`.
  unfoldable pub render_host : HostState → HostState × List Effect
  render_host h =
      if t.attached
      then (
        record h { view = (render_ansi [] t.vt t.rows t.cols h.view).0 },
        draw ((render_ansi [] t.vt t.rows t.cols h.view).1) ∷ [],
      )
      else (h, [])

  unfoldable pub note : Bool → List Effect
  note on = if t.attached then nav_note on ∷ [] else []

  -- The viewport after a scroll, and the frame.
  abbrev pub scrolled_by : ℤ → HostState → HostState × List Effect
  scrolled_by dy h = render_host (record h { view = scroll dy h.view })

  abbrev pub after : List Effect → HostState × List Effect → HostState × List Effect
  after es r = (r.0, es ++ r.1)

  -- `hostWheelLocked`: the step of a wheel, where it takes the input.
  unfoldable pub host_wheel : Bytes → Option ℤ
  host_wheel input =
      if not cfg.wheel_scroll || is_raw cfg || is_flow cfg
      then none
      else wheel_step (classify_wheel input)
    where
      wheel_step : Option ℤ → Option ℤ
      wheel_step none = none
      wheel_step (some d) = some (times d cfg.nav_wheel_step)

  -- `hostPagekeyLocked`: the step of a page key, where it takes the input.
  unfoldable pub host_page_key : Bytes → Option ℤ
  host_page_key input =
      if not cfg.page_key_scroll || is_raw cfg || is_flow cfg
      then none
      else if equal input page_up
      then some (minus cfg.nav_page_step)
      else if equal input page_down
      then some (pos cfg.nav_page_step)
      else none

  -- Its return to the live view, before it leaves the input to what follows.
  unfoldable pub live_return : Bytes → HostState → HostState × List Effect
  live_return input h =
      if not cfg.page_key_scroll || is_raw cfg || is_flow cfg
      then (h, [])
      else if not h.nav && (ltb 0 (scrollback h.view) && is_live_reset_key input)
      then render_host (record h { view = follow_bottom h.view })
      else (h, [])

  -- The toggle of NAV_KEY.
  unfoldable pub toggle : Bytes → HostState → HostState × List Effect
  toggle input h =
      if h.nav
      then (
        record { nav = false; view = follow_bottom h.view },
        note false ++ forwarding (remove_all input cfg.nav_key),
      )
      else after (note true) (render_host (record h { nav = true }))

  -- A key in nav mode; what does not scroll is dropped.
  unfoldable pub nav_key_press : Option ℤ → HostState → HostState × List Effect
  nav_key_press none h = (h, [])
  nav_key_press (some dy) h = scrolled_by dy h

  -- From the test of NAV_KEY on.
  unfoldable pub press : Bytes → HostState → HostState × List Effect
  press input h =
      if contains input cfg.nav_key
      then toggle input h
      else if h.nav
      then nav_key_press (scroll_key cfg.nav_scroll_step cfg.nav_page_step input) h
      else (h, forwarding input)

  unfoldable pub managed : Bytes → Option ℤ → Option ℤ → HostState → HostState × List Effect
  managed input (some dy) page h = scrolled_by dy h
  managed input none (some dy) h = scrolled_by dy h
  managed input none none h = let r = live_return input h in after (r.1) (press input (r.0))

  -- `HandleHostInput`.
  unfoldable pub handle_host_input : Bytes → HostState → HostState × List Effect
  handle_host_input input h =
      if length input == 0
      then (h, [])
      else if is_raw cfg || is_flow cfg
      then (h, forwarding input)
      else managed input (host_wheel input) (host_page_key input) h
