-- ===== src/Keys/Same.antt =====
-- The client and the proxy's own terminal treat one input alike: internal/client/client.go, `processStdin`,
-- and internal/ptyproxy/server.go, `HandleHostInput`.
pub mod Client
use claude_master_go.Base.{
  ℕ, ◌≡◌, refl, sym, ap, ◌∙◌, inl, inr, Bool, true, false, not, ◌&&◌, ◌||◌, ◌==◌, Option, none,
  some, List, [], ◌∷◌, ◌++◌, append-nil, append_assoc, Bytes, ℤ, if-cases, if◌then◌else◌, equal,
  length, arith, Bool-cases, Option-cases,
}
use claude_master_go.Config.Values.{Config}
use claude_master_go.Screen.Scroll.{scroll}
use claude_master_go.Keys.Input.{classify_wheel, contains, remove_all, is_live_reset_key}
use claude_master_go.Keys.Host.{
  Effect, HostState, Terminal, is_raw, is_flow, page_up, page_down, handle_host_input, host_wheel,
  host_page_key, managed, live_return, press, toggle, nav_key_press, scroll_key, scrolled_by,
  forwarding, note, render_host, after,
}
use claude_master_go.Keys.Host.Quiet.{
  sent, sent-append, sent-forwarding, sent-note, sent-render_host, nav-render_host, sent-toggled,
  live_return-quiet,
}

-- Whether a wheel or a page key takes the input.
unfoldable pub is_dy : Option ℤ → Bool
is_dy none = false
is_dy (some d) = true

unfoldable pub is_scroll : Config → Bytes → Bool
is_scroll cfg input =
    cfg.wheel_scroll && is_dy (classify_wheel input)
    || cfg.page_key_scroll && (equal input page_up || equal input page_down)

-- What an input does to nav mode, and what of it is for claude.
abbrev pub Dispatch : Type 0
Dispatch = Bool × Bytes

unfoldable pub dispatch : Config → Bytes → Bool → Bool → Dispatch
dispatch cfg input scrolls nav =
    if scrolls
    then (nav, [])
    else if contains input cfg.nav_key
    then (not nav, if nav then remove_all input cfg.nav_key else [])
    else (nav, if nav then [] else input)

managed_only : (a b c : Bool) → b || c ≡ false → (not a || b || c) ≡ not a
managed_only a b c h = ground arith

module _ (cfg : Config) (t : Terminal) where
  abbrev seen : HostState × List Effect → Dispatch
  seen r = (r.0.nav, sent r.1)

  scrolled-seen : (dy : ℤ) (h : HostState) → seen (scrolled_by cfg t dy h) ≡ (h.nav, [])
  scrolled-seen dy h =
      let next = record h { view = scroll dy h.view } in
      ap (λ (b : Bool). (b, sent ((render_host cfg t next).1))) (nav-render_host cfg t next)
      ∙ ap (λ (s : Bytes). (h.nav, s)) (sent-render_host cfg t next)

  nav_key_press-seen :
      (dy : Option ℤ) (h : HostState) → seen (nav_key_press cfg t dy h) ≡ (h.nav, [])
  unfolding nav_key_press sent
  nav_key_press-seen none h = refl
  nav_key_press-seen (some dy) h = scrolled-seen dy h

  abbrev entered : HostState → HostState
  entered h = record h { nav = true }

  toggle-seen :
      (input : Bytes) (h : HostState)
      → seen (toggle cfg t input h)
        ≡ (not h.nav, if h.nav then remove_all input cfg.nav_key else [])
  unfolding toggle
  toggle-seen input h = elim (Bool-cases h.nav) [
    | inl on ↦ rw on (ap (λ (s : Bytes). (false, s)) (sent-toggled cfg t input))
    | inr off ↦ simp off (
        ap (λ (b : Bool). (b, sent (note cfg t true ++ (render_host cfg t (entered h)).1)))
          (nav-render_host cfg t (entered h))
        ∙ ap (λ (s : Bytes). (true, s))
            (sent-append cfg t (note cfg t true) ((render_host cfg t (entered h)).1)
              ∙ ap (λ (b : Bytes). b ++ sent ((render_host cfg t (entered h)).1))
                  (sent-note cfg t true)
              ∙ sent-render_host cfg t (entered h)))
  ]

  press-seen :
      (input : Bytes) (h : HostState) → seen (press cfg t input h) ≡ dispatch cfg input false h.nav
  unfolding press dispatch
  press-seen input h = elim (Bool-cases (contains input cfg.nav_key)) [
    | inl e ↦ simp e (toggle-seen input h)
    | inr e ↦ elim (Bool-cases h.nav) [
      | inl on ↦
          simp (e, on)
            (nav_key_press-seen (scroll_key cfg.nav_scroll_step cfg.nav_page_step input) h
              ∙ ap (λ (b : Bool). (b, [])) on)
      | inr off ↦ simp (e, off) (ap (λ (s : Bytes). (false, s)) (sent-forwarding cfg t input))
    ]
  ]

  managed-seen :
      (input : Bytes) (wheel page : Option ℤ) (h : HostState)
      → seen (managed cfg t input wheel page h)
        ≡ dispatch cfg input (is_dy wheel || is_dy page) h.nav
  unfolding managed is_dy dispatch
  managed-seen input (some dy) page h = scrolled-seen dy h
  managed-seen input none (some dy) h = scrolled-seen dy h
  managed-seen input none none h =
      let r = live_return cfg t input h in
      let known = live_return-quiet cfg t input h in
      ap (λ (s : Bytes). ((press cfg t input r.0).0.nav, s))
        (sent-append cfg t r.1 ((press cfg t input r.0).1)
          ∙ ap (λ (b : Bytes). b ++ sent ((press cfg t input r.0).1)) known.0)
      ∙ press-seen input r.0
      ∙ ap (dispatch cfg input false) known.1

  wheel-is_dy :
      (input : Bytes)
      → is_raw cfg || is_flow cfg ≡ false
      → is_dy (host_wheel cfg t input) ≡ (cfg.wheel_scroll && is_dy (classify_wheel input))
  unfolding host_wheel is_dy
  wheel-is_dy input m =
      rw (managed_only cfg.wheel_scroll (is_raw cfg) (is_flow cfg) m)
        (elim (Bool-cases cfg.wheel_scroll) [
          | inr off ↦ rw off refl
          | inl on ↦ elim (Option-cases (classify_wheel input)) [
            | inl e ↦ rw (on, e) refl
            | inr (d, e) ↦ rw (on, e) refl
          ]
        ])

  page-is_dy :
      (input : Bytes)
      → is_raw cfg || is_flow cfg ≡ false
      → is_dy (host_page_key cfg t input)
        ≡ (cfg.page_key_scroll && (equal input page_up || equal input page_down))
  unfolding host_page_key is_dy
  page-is_dy input m =
      rw (managed_only cfg.page_key_scroll (is_raw cfg) (is_flow cfg) m) (ground arith)

  -- What `HandleHostInput` does to an input that is not passed on raw.
  pub handle_host_input-dispatch :
      (input : Bytes) (h : HostState)
      → is_raw cfg || is_flow cfg ≡ false
      → (length input == 0) ≡ false
      → ((handle_host_input cfg t input h).0.nav, sent (handle_host_input cfg t input h).1)
        ≡ dispatch cfg input (is_scroll cfg input) h.nav
  unfolding handle_host_input is_scroll
  handle_host_input-dispatch input h m some_input =
      rw (some_input, m)
        (managed-seen input (host_wheel cfg t input) (host_page_key cfg t input) h
          ∙ ap (λ (b : Bool). dispatch cfg input (b || is_dy (host_page_key cfg t input)) h.nav)
              (wheel-is_dy input m)
          ∙ ap
              (λ (b : Bool).
                dispatch cfg input (cfg.wheel_scroll && is_dy (classify_wheel input) || b) h.nav)
              (page-is_dy input m))
