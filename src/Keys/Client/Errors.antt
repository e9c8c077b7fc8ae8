-- ===== src/Keys/Client/Errors.antt =====
-- A failed write ends the handling of an input (internal/client/client.go).
use claude_master_go.Base.{
  ℕ, ◌-◌, ltb, ◌≡◌, refl, sym, ap, ◌∙◌, Bool, true, false, not, ◌&&◌, ◌||◌, Option, none, some,
  List, [], ◌∷◌, ◌++◌, append-nil, append_assoc, Bytes, ℤ, if-cases,
}
use claude_master_go.Config.Values.{Config}
use claude_master_go.Keys.Input.{is_live_reset_key, contains, remove_all}
use claude_master_go.Keys.Client.{
  Sent, scroll_frame, picture, raw, Link, Client, Pass, begin, answer, write, then_do, remind,
  set_scrolled, wheel_dy, page_dy, follow_dy, live_again, write_rest, toggle, nav_press,
  scroll_keys, paste, press, handle, process_stdin,
}

-- Writes in their order, all of which succeed but, after an error, the last.
pub data Tries : Bool → List (Sent × Bool) → Type 0 where
  no_more : Tries false []
  ok : {f : Bool} {s : Sent} {ts : List (Sent × Bool)} → Tries f ts → Tries f ((s, true) ∷ ts)
  stop : {s : Sent} → Tries true ((s, false) ∷ [])

Tries-append : {f : Bool} (a b : List (Sent × Bool)) → Tries false a → Tries f b → Tries f (a ++ b)
Tries-append [] b Tries.no_more u = u
Tries-append ((s, false) ∷ a) b t u = elim t [ ]
Tries-append ((s, true) ∷ a) b (Tries.ok t) u = Tries.ok (Tries-append a b t u)

-- What one part of the handling writes.
pub record Grew (p q : Pass) : Type 0 where
  pub new : List (Sent × Bool)
  pub appended : q.link.log ≡ p.link.log ++ new
  pub tried : Tries q.failed new

unchanged : (p q : Pass) → q.link.log ≡ p.link.log → q.failed ≡ false → Grew p q
unchanged p q same fine = record {
  new = [];
  appended = same ∙ sym (append-nil p.link.log);
  tried = rw fine Tries.no_more;
}

Tries-answer : (a : Bool) (s : Sent) → Tries (not a) ((s, a) ∷ [])
Tries-answer true s = Tries.ok Tries.no_more
Tries-answer false s = Tries.stop

write-Grew : (s : Sent) (p : Pass) → Grew p (write s p)
write-Grew s p = record {
  new = (s, answer p.link.answers) ∷ [];
  appended = refl;
  tried = Tries-answer (answer p.link.answers) s;
}

then_do-Grew :
    (f : Pass → Pass) (p q : Pass)
    → Grew p q
    → (q.failed ≡ false → Grew q (f q))
    → Grew p (then_do f q)
unfolding then_do
then_do-Grew f p q g k =
    if-cases (Grew p) q.failed (λ bad. g)
      (λ fine. record {
        new = g.new ++ (k fine).new;
        appended =
            (k fine).appended
            ∙ ap (λ l. l ++ (k fine).new) g.appended
            ∙ append_assoc p.link.log g.new ((k fine).new);
        tried = Tries-append g.new ((k fine).new) (rw (← fine) g.tried) ((k fine).tried);
      })

module _ (cfg : Config) where
  write_rest-Grew : (b : Bytes) (p : Pass) → p.failed ≡ false → Grew p (write_rest cfg b p)
  unfolding write_rest
  write_rest-Grew [] p fine = unchanged p p refl fine
  write_rest-Grew (c ∷ s) p fine = write-Grew (raw (c ∷ s)) p

  scroll_pass-Grew :
      (dy : ℤ) (b : Bool) (p : Pass) → Grew p (then_do (set_scrolled b) (write (scroll_frame dy) p))
  scroll_pass-Grew dy b p =
      then_do-Grew (set_scrolled b) p (write (scroll_frame dy) p) (write-Grew (scroll_frame dy) p)
        (λ fine.
          unchanged (write (scroll_frame dy) p) (set_scrolled b (write (scroll_frame dy) p)) refl
            fine)

  toggle-Grew :
      (now : ℕ) (input : Bytes) (p : Pass) → p.failed ≡ false → Grew p (toggle cfg now input p)
  unfolding toggle
  toggle-Grew now input p fine =
      let left = record p {
        client = record p.client { nav_mode = false; pk_scrolled = false };
        notes = p.notes ++ false ∷ [];
      } in
      let on = record p {
        client = record p.client { nav_mode = true; last_note = now };
        notes = p.notes ++ true ∷ [];
      } in
      let told = write (scroll_frame follow_dy) left in
      let g = write-Grew (scroll_frame follow_dy) left in
      if-cases (Grew p) p.client.nav_mode
        (λ h.
          then_do-Grew (write_rest cfg (remove_all input cfg.nav_key)) p told
            (record { new = g.new; appended = g.appended; tried = g.tried })
            (λ f. write_rest-Grew (remove_all input cfg.nav_key) told f))
        (λ h. unchanged p on refl fine)

  nav_press-Grew :
      (now : ℕ) (input : Bytes) (dy : Option ℤ) (p : Pass)
      → p.failed ≡ false
      → Grew p (nav_press cfg now input dy p)
  unfolding nav_press remind
  nav_press-Grew now input (some dy) p fine = write-Grew (scroll_frame dy) p
  nav_press-Grew now input none p fine =
      if-cases (Grew p) (is_live_reset_key input)
        (λ h.
          if-cases (Grew p) (ltb (now - p.client.last_note) 2000000000)
            (λ t. unchanged p p refl fine)
            (λ t.
              unchanged p
                (record p {
                  client = record p.client { last_note = now };
                  notes = p.notes ++ true ∷ [];
                })
                refl fine))
        (λ h. unchanged p p refl fine)

  paste-Grew :
      (input : Bytes) (clip : Option (Bytes × ℕ)) (key : Option Bytes) (p : Pass)
      → Grew p (paste cfg input clip key p)
  unfolding paste
  paste-Grew input none none p = write-Grew (raw input) p
  paste-Grew input none (some key) p = write-Grew (raw input) p
  paste-Grew input (some clip) none p = write-Grew (raw input) p
  paste-Grew input (some (img, code)) (some key) p =
      if-cases (Grew p) (contains input key)
        (λ h.
          then_do-Grew (write_rest cfg (remove_all input key)) p (write (picture img code) p)
            (write-Grew (picture img code) p)
            (λ f. write_rest-Grew (remove_all input key) (write (picture img code) p) f))
        (λ h. write-Grew (raw input) p)

  press-Grew :
      (now : ℕ) (input : Bytes) (clip : Option (Bytes × ℕ)) (p : Pass)
      → p.failed ≡ false
      → Grew p (press cfg now input clip p)
  unfolding press
  press-Grew now input clip p fine =
      if-cases (Grew p) (contains input cfg.nav_key) (λ h. toggle-Grew now input p fine)
        (λ h.
          if-cases (Grew p) p.client.nav_mode
            (λ n. nav_press-Grew now input (scroll_keys cfg input) p fine)
            (λ n. paste-Grew input clip cfg.img_paste_key p))

  live_again-Grew : (input : Bytes) (p : Pass) → p.failed ≡ false → Grew p (live_again cfg input p)
  unfolding live_again
  live_again-Grew input p fine =
      if-cases (Grew p)
        ((cfg.page_key_scroll || cfg.wheel_scroll)
          && (p.client.pk_scrolled && is_live_reset_key input))
        (λ h. scroll_pass-Grew follow_dy false p) (λ h. unchanged p p refl fine)

  handle-Grew :
      (now : ℕ) (input : Bytes) (clip : Option (Bytes × ℕ)) (wheel page : Option ℤ) (p : Pass)
      → p.failed ≡ false
      → Grew p (handle cfg now input clip wheel page p)
  unfolding handle
  handle-Grew now input clip (some dy) page p fine = scroll_pass-Grew dy true p
  handle-Grew now input clip none (some dy) p fine = scroll_pass-Grew dy true p
  handle-Grew now input clip none none p fine =
      then_do-Grew (press cfg now input clip) p (live_again cfg input p)
        (live_again-Grew input p fine) (λ f. press-Grew now input clip (live_again cfg input p) f)

  -- The writes of one input are tried in order up to the first that fails: without an error all have
  -- succeeded, and with an error all but the last.
  pub process_stdin-Grew :
      (now : ℕ) (input : Bytes) (clip : Option (Bytes × ℕ)) (c : Client) (l : Link)
      → Grew (begin c l) (process_stdin cfg now input clip c l)
  process_stdin-Grew now input clip c l =
      handle-Grew now input clip (wheel_dy cfg input) (page_dy cfg input) (begin c l) refl
