-- ===== src/Keys/Same/Client.antt =====
-- The client's half of the agreement, and the agreement (internal/client/client.go, `processStdin`).
use claude_master_go.Base.{
  ℕ, ◌-◌, ltb, ◌≡◌, refl, sym, ap, ◌∙◌, inl, inr, Bool, true, false, not, ◌&&◌, ◌||◌, ◌==◌, Option,
  none, some, List, [], ◌∷◌, ◌++◌, append-nil, append_assoc, Bytes, ℤ, if-cases, if◌then◌else◌,
  equal, length, arith, Bool-cases, Option-cases,
}
use claude_master_go.Config.Values.{Config}
use claude_master_go.Keys.Input.{classify_wheel, contains, remove_all, is_live_reset_key}
use claude_master_go.Keys.Host.{
  HostState, Terminal, is_raw, is_flow, page_up, page_down, handle_host_input, scroll_key,
}
use claude_master_go.Keys.Host.Quiet.{sent}
use claude_master_go.Keys.Client.{
  answer, remaining, Sent, scroll_frame, picture, raw, Link, Client, Pass, begin, write, then_do,
  remind, wheel_step, wheel_dy, page_dy, live_again, write_rest, toggle, nav_press, paste, press,
  handle, process_stdin, follow_dy,
}
use claude_master_go.Keys.Same.{is_dy, is_scroll, Dispatch, dispatch, handle_host_input-dispatch}

-- The bytes for claude among the writes.
unfoldable pub raw_bytes : List (Sent × Bool) → Bytes
raw_bytes [] = []
raw_bytes ((raw b, ok) ∷ ws) = b ++ raw_bytes ws
raw_bytes ((scroll_frame dy, ok) ∷ ws) = raw_bytes ws
raw_bytes ((picture img code, ok) ∷ ws) = raw_bytes ws

-- A connection on which no write fails.
abbrev pub open_link : Link
open_link = record { log = []; answers = [] }

abbrev seen : Pass → Dispatch
seen p = (p.client.nav_mode, raw_bytes p.link.log)

-- A pass on such a connection.
abbrev pass : Client → List (Sent × Bool) → List Bool → Pass
pass c ws ns = record {
  client = c;
  link = record { log = ws; answers = [] };
  notes = ns;
  failed = false;
}

raw_bytes-append :
    (ws us : List (Sent × Bool)) → raw_bytes (ws ++ us) ≡ raw_bytes ws ++ raw_bytes us
unfolding raw_bytes
raw_bytes-append [] us = refl
raw_bytes-append ((raw b, ok) ∷ ws) us =
    rw (raw_bytes-append ws us) (sym (append_assoc b (raw_bytes ws) (raw_bytes us)))
raw_bytes-append ((scroll_frame dy, ok) ∷ ws) us = raw_bytes-append ws us
raw_bytes-append ((picture img code, ok) ∷ ws) us = raw_bytes-append ws us

-- A scroll adds nothing for claude, and a plain write its bytes.
scroll-quiet :
    (dy : ℤ) (ok : Bool) (ws : List (Sent × Bool))
    → raw_bytes ws ≡ []
    → raw_bytes (ws ++ (scroll_frame dy, ok) ∷ []) ≡ []
unfolding raw_bytes
scroll-quiet dy ok ws h = raw_bytes-append ws ((scroll_frame dy, ok) ∷ []) ∙ ap (λ b. b ++ []) h

raw-loud :
    (b : Bytes) (ok : Bool) (ws : List (Sent × Bool))
    → raw_bytes ws ≡ []
    → raw_bytes (ws ++ (raw b, ok) ∷ []) ≡ b
unfolding raw_bytes
raw-loud b ok ws h =
    raw_bytes-append ws ((raw b, ok) ∷ []) ∙ ap (λ a. a ++ (b ++ [])) h ∙ append-nil b

module _ (cfg : Config) (now : ℕ) (input : Bytes) where
  write_rest-seen :
      (c : Client) (ws : List (Sent × Bool)) (ns : List Bool) (b : Bytes)
      → raw_bytes ws ≡ []
      → seen (write_rest cfg b (pass c ws ns)) ≡ (c.nav_mode, b)
  unfolding write_rest answer remaining
  write_rest-seen c ws ns [] h = ap (λ (b : Bytes). (c.nav_mode, b)) h
  write_rest-seen c ws ns (x ∷ b) h =
      ap (λ (b : Bytes). (c.nav_mode, b)) (raw-loud (x ∷ b) true ws h)

  toggle-seen :
      (c : Client) (ws : List (Sent × Bool)) (ns : List Bool)
      → raw_bytes ws ≡ []
      → seen (toggle cfg now input (pass c ws ns))
        ≡ (not c.nav_mode, if c.nav_mode then remove_all input cfg.nav_key else [])
  unfolding toggle then_do answer remaining
  toggle-seen c ws ns h = elim (Bool-cases c.nav_mode) [
    | inl on ↦ simp on (
        write_rest-seen (record c { nav_mode = false; pk_scrolled = false })
          (ws ++ (scroll_frame follow_dy, true) ∷ []) (ns ++ false ∷ [])
          (remove_all input cfg.nav_key) (scroll-quiet follow_dy true ws h))
    | inr off ↦ simp off (ap (λ (b : Bytes). (true, b)) h)
  ]

  paste-plain :
      (p : Pass) (clip : Option (Bytes × ℕ)) → paste cfg input clip none p ≡ write (raw input) p
  unfolding paste
  paste-plain p none = refl
  paste-plain p (some x) = refl

  nav_press-seen :
      (dy : Option ℤ) (c : Client) (ws : List (Sent × Bool)) (ns : List Bool)
      → raw_bytes ws ≡ []
      → seen (nav_press cfg now input dy (pass c ws ns)) ≡ (c.nav_mode, [])
  unfolding nav_press remind answer remaining
  nav_press-seen (some dy) c ws ns h =
      ap (λ (b : Bytes). (c.nav_mode, b)) (scroll-quiet dy true ws h)
  nav_press-seen none c ws ns h =
      let Quiet = λ (p : Pass). seen p ≡ (c.nav_mode, []) in
      let still : Quiet (pass c ws ns) = ap (λ (b : Bytes). (c.nav_mode, b)) h in
      if-cases Quiet (is_live_reset_key input)
        (λ _. if-cases Quiet (ltb (now - c.last_note) 2000000000) (λ _. still) (λ _. still))
        (λ _. still)

  press-seen :
      (clip : Option (Bytes × ℕ)) (c : Client) (ws : List (Sent × Bool)) (ns : List Bool)
      → cfg.img_paste_key ≡ none
      → raw_bytes ws ≡ []
      → seen (press cfg now input clip (pass c ws ns)) ≡ dispatch cfg input false c.nav_mode
  unfolding press dispatch answer remaining
  press-seen clip c ws ns k h = elim (Bool-cases (contains input cfg.nav_key)) [
    | inl e ↦ simp e (toggle-seen c ws ns h)
    | inr e ↦ elim (Bool-cases c.nav_mode) [
      | inl on ↦
          simp (e, on)
            (nav_press-seen (scroll_key cfg.nav_scroll_step cfg.nav_page_step input) c ws ns h
              ∙ ap (λ (b : Bool). (b, [])) on)
      | inr off ↦
          simp (e, off, k)
            (ap seen (paste-plain (pass c ws ns) clip)
              ∙ ap (λ (b : Bool). (b, raw_bytes (ws ++ (raw input, true) ∷ []))) off
              ∙ ap (λ (b : Bytes). (false, b)) (raw-loud input true ws h))
    ]
  ]

  handle-seen :
      (wheel page : Option ℤ) (clip : Option (Bytes × ℕ)) (c : Client)
      → cfg.img_paste_key ≡ none
      → seen (handle cfg now input clip wheel page (begin c open_link))
        ≡ dispatch cfg input (is_dy wheel || is_dy page) c.nav_mode
  unfolding handle live_again then_do is_dy dispatch raw_bytes answer remaining
  handle-seen (some dy) page clip c k = refl
  handle-seen none (some dy) clip c k = refl
  handle-seen none none clip c k =
      let Is = λ (p : Pass).
        seen (then_do (press cfg now input clip) p) ≡ dispatch cfg input false c.nav_mode in
      if-cases Is
        ((cfg.page_key_scroll || cfg.wheel_scroll) && (c.pk_scrolled && is_live_reset_key input))
        (λ _.
          press-seen clip (record c { pk_scrolled = false }) ((scroll_frame follow_dy, true) ∷ [])
            [] k refl)
        (λ _. press-seen clip c [] [] k refl)

  wheel-is_dy : is_dy (wheel_dy cfg input) ≡ (cfg.wheel_scroll && is_dy (classify_wheel input))
  unfolding wheel_step is_dy
  wheel-is_dy = elim (Option-cases (classify_wheel input)) [
    | inl e ↦ rw e (ground arith)
    | inr (d, e) ↦ rw e (ground arith)
  ]

  page-is_dy :
      is_dy (page_dy cfg input)
      ≡ (cfg.page_key_scroll && (equal input page_up || equal input page_down))
  unfolding page_dy is_dy
  page-is_dy = ground arith

  -- What `processStdin` does to an input, on a connection whose writes do not fail, where no key pastes
  -- images.
  process_stdin-dispatch :
      (clip : Option (Bytes × ℕ)) (c : Client)
      → cfg.img_paste_key ≡ none
      → seen (process_stdin cfg now input clip c open_link)
        ≡ dispatch cfg input (is_scroll cfg input) c.nav_mode
  unfolding is_scroll
  process_stdin-dispatch clip c k =
      handle-seen (wheel_dy cfg input) (page_dy cfg input) clip c k
      ∙ ap (λ (b : Bool). dispatch cfg input (b || is_dy (page_dy cfg input)) c.nav_mode)
          wheel-is_dy
      ∙ ap
          (λ (b : Bool).
            dispatch cfg input (cfg.wheel_scroll && is_dy (classify_wheel input) || b) c.nav_mode)
          page-is_dy

-- An input that is not empty, at a client whose writes do not fail and at the proxy's own terminal, with
-- the same settings, none of which passes input on raw or pastes images: from the same nav mode both
-- come to the same one, and the bytes that the client writes to the proxy as input, outside its own
-- frames, are those that the proxy's terminal gives claude. What the proxy then reads out of the bytes
-- of a client, where they look like a frame, is left to its side of the connection.
pub process_stdin-handle_host_input :
    (cfg : Config) (t : Terminal) (now : ℕ) (input : Bytes) (clip : Option (Bytes × ℕ)) (c : Client)
    → (h : HostState) → is_raw cfg || is_flow cfg ≡ false
    → (length input == 0) ≡ false
    → cfg.img_paste_key ≡ none
    → c.nav_mode ≡ h.nav
    → ((process_stdin cfg now input clip c open_link).client.nav_mode
        ≡ (handle_host_input cfg t input h).0.nav)
      × (raw_bytes (process_stdin cfg now input clip c open_link).link.log
          ≡ sent (handle_host_input cfg t input h).1)
process_stdin-handle_host_input cfg t now input clip c h m some_input k same =
    let both =
      process_stdin-dispatch cfg now input clip c k
      ∙ ap (dispatch cfg input (is_scroll cfg input)) same
      ∙ sym (handle_host_input-dispatch cfg t input h m some_input) in
    (ap (λ (d : Dispatch). d.0) both, ap (λ (d : Dispatch). d.1) both)
