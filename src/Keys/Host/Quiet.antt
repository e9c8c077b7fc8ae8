-- ===== src/Keys/Host/Quiet.antt =====
-- What of the host's input reaches claude (internal/ptyproxy/server.go, `HandleHostInput`).
use claude_master_go.Base.{
  ◌≡◌, refl, sym, ap, ◌∙◌, inl, inr, Bool, true, false, Option, none, some, List, [], ◌∷◌, ◌++◌,
  append-nil, Bytes, ℤ, length, ltb, ◌&&◌, ◌==◌, not, ◌||◌, Bool-cases, if-cases, append_assoc,
}
use claude_master_go.Config.Values.{Config}
use claude_master_go.Screen.Scroll.{scroll, scrollback, follow_bottom}
use claude_master_go.Keys.Input.{contains, remove_all, is_live_reset_key}
use claude_master_go.Keys.Host.{
  Effect, HostState, Terminal, forward, nav_note, draw, is_raw, is_flow, forwarding, render_host,
  note, scrolled_by, host_wheel, host_page_key, live_return, toggle, nav_key_press, scroll_key,
  press, managed, handle_host_input, after,
}

-- The bytes that go to claude.
unfoldable pub sent : List Effect → Bytes
sent [] = []
sent (forward b ∷ es) = b ++ sent es
sent (nav_note on ∷ es) = sent es
sent (draw b ∷ es) = sent es

-- The ways of an input that is not passed on raw: nothing is sent, or it is sent whole outside nav mode,
-- or what is left of it without NAV_KEY, at the end of nav mode.
pub data Ways (cfg : Config) (input : Bytes) : Bool → Bool → Bytes → Type 0 where
  silent : {was is : Bool} → Ways cfg input was is []
  whole : Ways cfg input false false input
  rest : Ways cfg input true false (remove_all input cfg.nav_key)

module _ (cfg : Config) (t : Terminal) where
  pub sent-append : (es fs : List Effect) → sent (es ++ fs) ≡ sent es ++ sent fs
  unfolding sent
  sent-append [] fs = refl
  sent-append (forward b ∷ es) fs =
      rw (sent-append es fs) (sym (append_assoc b (sent es) (sent fs)))
  sent-append (nav_note on ∷ es) fs = sent-append es fs
  sent-append (draw b ∷ es) fs = sent-append es fs

  pub sent-forwarding : (s : Bytes) → sent (forwarding cfg t s) ≡ s
  unfolding sent forwarding
  sent-forwarding [] = refl
  sent-forwarding (c ∷ s) = append-nil (c ∷ s)

  pub sent-note : (on : Bool) → sent (note cfg t on) ≡ []
  unfolding sent note
  sent-note on = elim (Bool-cases t.attached) [ inl e ↦ simp e | inr e ↦ simp e ]

  pub sent-render_host : (h : HostState) → sent ((render_host cfg t h).1) ≡ []
  unfolding sent render_host
  sent-render_host h = elim (Bool-cases t.attached) [ inl e ↦ simp e | inr e ↦ simp e ]

  pub nav-render_host : (h : HostState) → (render_host cfg t h).0.nav ≡ h.nav
  unfolding render_host
  nav-render_host h = elim (Bool-cases t.attached) [ inl e ↦ simp e | inr e ↦ simp e ]

  -- A result is one of the ways from a state.
  abbrev pub IsWay : Bytes → HostState → HostState × List Effect → Type 0
  IsWay input h r = Ways cfg input h.nav (r.0.nav) (sent (r.1))

  quiet :
      (input : Bytes) (h : HostState) (r : HostState × List Effect)
      → sent (r.1) ≡ []
      → IsWay input h r
  quiet input h r e = rw e Ways.silent

  pub sent-toggled :
      (input : Bytes)
      → sent (note cfg t false ++ forwarding cfg t (remove_all input cfg.nav_key))
        ≡ remove_all input cfg.nav_key
  sent-toggled input =
      sent-append (note cfg t false) (forwarding cfg t (remove_all input cfg.nav_key))
      ∙ ap (λ b. b ++ sent (forwarding cfg t (remove_all input cfg.nav_key))) (sent-note false)
      ∙ sent-forwarding (remove_all input cfg.nav_key)

  toggle-IsWay : (input : Bytes) (h : HostState) → IsWay input h (toggle cfg t input h)
  unfolding toggle
  toggle-IsWay input h =
      if-cases (IsWay input h) h.nav (λ on. rw (on, sent-toggled input) Ways.rest)
        (λ off.
          quiet input h
            (after cfg t (note cfg t true) (render_host cfg t (record h { nav = true })))
            (sent-append (note cfg t true) ((render_host cfg t (record h { nav = true })).1)
              ∙ ap (λ b. b ++ sent ((render_host cfg t (record h { nav = true })).1))
                  (sent-note true)
              ∙ sent-render_host (record h { nav = true })))

  nav_key_press-IsWay :
      (input : Bytes) (dy : Option ℤ) (h : HostState) → IsWay input h (nav_key_press cfg t dy h)
  unfolding nav_key_press sent
  nav_key_press-IsWay input none h = Ways.silent
  nav_key_press-IsWay input (some dy) h =
      quiet input h (scrolled_by cfg t dy h)
        (sent-render_host (record h { view = scroll dy h.view }))

  press-IsWay : (input : Bytes) (h : HostState) → IsWay input h (press cfg t input h)
  unfolding press
  press-IsWay input h =
      if-cases (IsWay input h) (contains input cfg.nav_key) (λ on. toggle-IsWay input h)
        (λ off.
          if-cases (IsWay input h) h.nav
            (λ on.
              nav_key_press-IsWay input (scroll_key cfg.nav_scroll_step cfg.nav_page_step input) h)
            (λ off. rw (off, sent-forwarding input) Ways.whole))

  pub live_return-quiet :
      (input : Bytes) (h : HostState)
      → (sent ((live_return cfg t input h).1) ≡ []) × ((live_return cfg t input h).0.nav ≡ h.nav)
  unfolding live_return sent
  live_return-quiet input h =
      let Same = λ (r : HostState × List Effect). (sent (r.1) ≡ []) × (r.0.nav ≡ h.nav) in
      if-cases Same (not cfg.page_key_scroll || is_raw cfg || is_flow cfg) (λ off. (refl, refl))
        (λ on.
          if-cases Same (not h.nav && (ltb 0 (scrollback h.view) && is_live_reset_key input))
            (λ back. (
              sent-render_host (record h { view = follow_bottom h.view }),
              nav-render_host (record h { view = follow_bottom h.view }),
            ))
            (λ stay. (refl, refl)))

  renamed :
      {input : Bytes} {was was' is : Bool} {b c : Bytes}
      → was ≡ was'
      → b ≡ c
      → Ways cfg input was is b
      → Ways cfg input was' is c
  renamed e d w = rw (← e, ← d) w

  managed-IsWay :
      (input : Bytes) (wheel page : Option ℤ) (h : HostState)
      → IsWay input h (managed cfg t input wheel page h)
  unfolding managed
  managed-IsWay input (some dy) page h =
      quiet input h (scrolled_by cfg t dy h)
        (sent-render_host (record h { view = scroll dy h.view }))
  managed-IsWay input none (some dy) h =
      quiet input h (scrolled_by cfg t dy h)
        (sent-render_host (record h { view = scroll dy h.view }))
  managed-IsWay input none none h =
      let r = live_return cfg t input h in
      let known = live_return-quiet input h in
      renamed (known.1)
        (sym (
          sent-append (r.1) ((press cfg t input (r.0)).1)
          ∙ ap (λ b. b ++ sent ((press cfg t input (r.0)).1)) (known.0)))
        (press-IsWay input (r.0))

  -- Unless input is passed on raw, what reaches claude of an input is nothing, the whole input with nav
  -- mode off before and after, or, at the end of nav mode, the input without NAV_KEY.
  pub handle_host_input-Ways :
      (input : Bytes) (h : HostState)
      → is_raw cfg || is_flow cfg ≡ false
      → Ways cfg input h.nav
          ((handle_host_input cfg t input h).0.nav)
          (sent ((handle_host_input cfg t input h).1))
  unfolding handle_host_input sent
  handle_host_input-Ways input h managed_mode =
      if-cases (IsWay input h) (length input == 0) (λ none. Ways.silent)
        (λ some.
          if-cases (IsWay input h) (is_raw cfg || is_flow cfg) (λ raw. cc (raw, managed_mode))
            (λ m. managed-IsWay input (host_wheel cfg t input) (host_page_key cfg t input) h))
