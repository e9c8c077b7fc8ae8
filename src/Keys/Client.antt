-- ===== src/Keys/Client.antt =====
-- internal/client/client.go: the input of a client's terminal (`processStdin`), the loop that reads it
-- (`runLoop`), the reminder of nav mode and the attempts to connect.
pub mod Errors
use claude_master_go.Base.{
  ℕ, zero, suc, ◌-◌, Bool, true, false, not, ◌&&◌, ◌||◌, Option, none, some, List, [], ◌∷◌, ◌++◌,
  ltb, if◌then◌else◌, Bytes, equal, min, ℤ, pos, negsuc,
}
use claude_master_go.Config.Values.{Config}
use claude_master_go.Wire.{send_scroll, send_image}
use claude_master_go.Keys.Input.{
  is_live_reset_key, classify_wheel, contains, remove_all, times, minus,
}
use claude_master_go.Keys.Host.{page_up, page_down, scroll_key}

-- `followDy`.
abbrev pub follow_dy : ℤ
follow_dy = pos 32767

-- What is written to the proxy, and its bytes.
pub data Sent : Type 0 where
  scroll_frame : ℤ → Sent
  picture : Bytes → ℕ → Sent
  raw : Bytes → Sent

unfoldable pub bytes_of : Sent → Bytes
bytes_of (scroll_frame dy) = send_scroll dy
bytes_of (picture img code) = send_image img code
bytes_of (raw b) = b

-- The connection: the writes tried and whether they succeeded, and the answers to come; without one
-- a write succeeds.
pub record Link : Type 0 where
  pub log : List (Sent × Bool)
  pub answers : List Bool

-- `navMode`, `pkScrolled`, and `last` of the reminder, which is the time of the last note.
pub record Client : Type 0 where
  pub nav_mode : Bool
  pub pk_scrolled : Bool
  pub last_note : ℕ

-- A call of `processStdin` so far: the client, the connection, the notes on the terminal, and the
-- error.
pub record Pass : Type 0 where
  pub client : Client
  pub link : Link
  pub notes : List Bool
  pub failed : Bool

abbrev pub begin : Client → Link → Pass
begin c l = record { client = c; link = l; notes = []; failed = false }

-- `connW.write`.
unfoldable pub answer : List Bool → Bool
answer [] = true
answer (a ∷ rest) = a

unfoldable pub remaining : List Bool → List Bool
remaining [] = []
remaining (a ∷ rest) = rest

abbrev pub write : Sent → Pass → Pass
write s p = record p {
  link = record {
    log = p.link.log ++ (s, answer p.link.answers) ∷ [];
    answers = remaining p.link.answers;
  };
  failed = not (answer p.link.answers);
}

-- What follows a write is done where it did not fail.
unfoldable pub then_do : (Pass → Pass) → Pass → Pass
then_do f p = let next = f p in if p.failed then p else next

-- `remind`, which a `markShown` or another `remind` holds back for 2 seconds, in nanoseconds.
unfoldable pub remind : ℕ → Pass → Pass
remind now p =
    if ltb (now - p.client.last_note) 2000000000
    then p
    else record p { client = record p.client { last_note = now }; notes = p.notes ++ true ∷ [] }

abbrev pub set_scrolled : Bool → Pass → Pass
set_scrolled b p = record p { client = record p.client { pk_scrolled = b } }

module _ (cfg : Config) where
  -- `scrollKeys`.
  abbrev pub scroll_keys : Bytes → Option ℤ
  scroll_keys = scroll_key cfg.nav_scroll_step cfg.nav_page_step

  -- WHEEL_SCROLL.
  unfoldable pub wheel_step : Option ℤ → Option ℤ
  wheel_step none = none
  wheel_step (some d) = some (times d (min 32767 cfg.nav_wheel_step))

  abbrev pub wheel_dy : Bytes → Option ℤ
  wheel_dy input = if cfg.wheel_scroll then wheel_step (classify_wheel input) else none

  -- PAGEKEY_SCROLL.
  unfoldable pub page_dy : Bytes → Option ℤ
  page_dy input =
      if cfg.page_key_scroll && (equal input page_up || equal input page_down)
      then (if equal input page_up
          then some (minus (min 32767 cfg.nav_page_step))
          else some (pos (min 32767 cfg.nav_page_step)))
      else none

  abbrev pub scroll_pass : ℤ → Pass → Pass
  scroll_pass dy p = then_do (set_scrolled true) (write (scroll_frame dy) p)

  -- The return to the live view before a key of the user.
  unfoldable pub live_again : Bytes → Pass → Pass
  live_again input p =
      if (cfg.page_key_scroll || cfg.wheel_scroll)
        && (p.client.pk_scrolled && is_live_reset_key input)
      then then_do (set_scrolled false) (write (scroll_frame follow_dy) p)
      else p

  -- A write that is left out where there is nothing to write.
  unfoldable pub write_rest : Bytes → Pass → Pass
  write_rest [] p = p
  write_rest (c ∷ s) p = write (raw (c ∷ s)) p

  -- The toggle of NAV_KEY.
  unfoldable pub toggle : ℕ → Bytes → Pass → Pass
  toggle now input p =
      if p.client.nav_mode
      then then_do (write_rest (remove_all input cfg.nav_key)) (
          write (scroll_frame follow_dy) (record p {
            client = record p.client { nav_mode = false; pk_scrolled = false };
            notes = p.notes ++ false ∷ [];
          }))
      else record p {
        client = record p.client { nav_mode = true; last_note = now };
        notes = p.notes ++ true ∷ [];
      }

  -- A key in nav mode.
  unfoldable pub nav_press : ℕ → Bytes → Option ℤ → Pass → Pass
  nav_press now input (some dy) p = write (scroll_frame dy) p
  nav_press now input none p = if is_live_reset_key input then remind now p else p

  -- IMG_PASTE_KEY, with what `readClipImage` returns, and the plain write.
  unfoldable pub paste : Bytes → Option (Bytes × ℕ) → Option Bytes → Pass → Pass
  paste input (some (img, code)) (some key) p =
      if contains input key
      then then_do (write_rest (remove_all input key)) (write (picture img code) p)
      else write (raw input) p
  paste input _ _ p = write (raw input) p

  -- From the test of NAV_KEY on.
  unfoldable pub press : ℕ → Bytes → Option (Bytes × ℕ) → Pass → Pass
  press now input clip p =
      if contains input cfg.nav_key
      then toggle now input p
      else if p.client.nav_mode
      then nav_press now input (scroll_keys input) p
      else paste input clip cfg.img_paste_key p

  unfoldable pub handle : ℕ → Bytes → Option (Bytes × ℕ) → Option ℤ → Option ℤ → Pass → Pass
  handle now input clip (some dy) page p = scroll_pass dy p
  handle now input clip none (some dy) p = scroll_pass dy p
  handle now input clip none none p = then_do (press now input clip) (live_again input p)

  -- `processStdin`; `done` is never true.
  abbrev pub process_stdin : ℕ → Bytes → Option (Bytes × ℕ) → Client → Link → Pass
  process_stdin now input clip c l =
      handle now input clip (wheel_dy input) (page_dy input) (begin c l)

  -- The input loop of `runLoop`, which ends at the first error: reads with their time and clipboard.
  unfoldable pub input_pump : List (ℕ × (Bytes × Option (Bytes × ℕ))) → Client → Link → Link × Bool
  input_pump [] c l = (l, false)
  input_pump ((now, (input, clip)) ∷ reads) c l =
      let p = process_stdin now input clip c l in
      let rest = input_pump reads p.client p.link in if p.failed then (p.link, true) else rest

unfoldable pub connected {ℓ} : {A : Type ℓ} → Option A → Option A × ℕ → ℕ → Option A × ℕ
connected none next pauses = next
connected (some c) next pauses = (some c, pauses)

-- The loop of `Connect`: attempt by attempt, with the number of pauses between them.
unfoldable pub connect_from {ℓ} : {A : Type ℓ} → (ℕ → Option A) → ℕ → ℕ → ℕ → Option A × ℕ
connect_from dial zero attempt pauses = (none, pauses)
connect_from dial (suc zero) attempt pauses = (dial attempt, pauses)
connect_from dial (suc (suc left)) attempt pauses =
    connected (dial attempt) (connect_from dial (suc left) (suc attempt) (suc pauses)) pauses

unfoldable pub connect {ℓ} : {A : Type ℓ} → Bool → (ℕ → Option A) → Option A × ℕ
connect retry dial = connect_from dial (if retry then 30 else 1) 0 0
