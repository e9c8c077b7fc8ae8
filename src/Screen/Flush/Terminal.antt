-- ===== src/Screen/Flush/Terminal.antt =====
-- internal/screen/flush.go over the terminal of internal/screen/vt.go, whose history grows by a line feed
-- at the bottom margin, is cut at `histMax` and is dropped by ED 3.
use mathlib.Core.List.{map-append}
use claude_master_go.Base.{
  ℕ, zero, suc, ◌+◌, ◌-◌, ◌≤◌, ◌≡◌, refl, sym, ap, ◌∙◌, ◌⊎◌, inl, inr, true, false, List, [], ◌∷◌,
  ◌++◌, arith, ltb, ◌==◌, length, drop, Option, some, ◌>>=◌, get_elem?, set?, map, length-append,
  length-drop, drop-append, append-nil, append_assoc, Bytes, Bool-cases, some-holds, >>=-eq-some,
}
use claude_master_go.Screen.Vt.{
  Vt, Row, hist_max, trim_hist, copy_row, shift_up, blank_line, line_feed, erase_display,
}
use claude_master_go.Screen.Text.{line_text, history_lines}
use claude_master_go.Screen.Flush.{
  HistoryFlusher, History, pending_cap, slice, take_new, trim, capture,
}
use claude_master_go.Screen.Flush.Once.{seen, Fits, take_new-tail}

-- What the flusher asks of the terminal: `HistTotal` and `HistoryLines`.
abbrev pub view : Vt → History Bytes
view v = record { total = v.hist_total; lines = history_lines v }

-- What happens to the terminal within a frame, and the lines that left the screen in it since the
-- history was last dropped.
pub data Frame (u : Vt) : Vt → List Row → Type 0 where
  start : Frame u u []
  -- A line feed on the bottom margin: the line at the top margin leaves the screen.
  scroll :
      {v w : Vt} {rows : List Row} (row : Row)
      → Frame u v rows
      → (v.cy == v.bot) ≡ true
      → get_elem? v.buf v.top ≡ some row
      → line_feed v ≡ some w
      → Frame u w (rows ++ copy_row v.cols row ∷ [])
  -- ED 3.
  drop_history :
      {v w : Vt} {rows : List Row} → Frame u v rows → erase_display 3 v ≡ some w → Frame u w []
  -- Anything that leaves the history as it is.
  other :
      {v w : Vt} {rows : List Row}
      → Frame u v rows
      → w.hist ≡ v.hist
      → w.hist_total ≡ v.hist_total
      → Frame u w rows

-- Frames one behind the other, with what leaves the screen in each.
pub data Frames : Vt → Vt → List (List Row) → Type 0 where
  none_left : {u : Vt} → Frames u u []
  frame :
      {u v w : Vt} {rows : List Row} {batches : List (List Row)}
      → Frame u v rows
      → Frames v w batches
      → Frames u w (rows ∷ batches)

-- A capture behind each.
unfoldable pub captures :
    {u w : Vt} {batches : List (List Row)}
    → Frames u w batches
    → HistoryFlusher Bytes
    → Option (HistoryFlusher Bytes)
captures none_left f = some f
captures (frame {v = v} h hs) f = capture (view v) f >>= captures hs

-- The lines of the frames, as text.
unfoldable pub texts : List (List Row) → List Bytes
texts [] = []
texts (rows ∷ batches) = map line_text rows ++ texts batches

trim-drop : (xs : List Row) → trim_hist xs ≡ drop (length xs - hist_max) xs
trim-drop xs = elim (Bool-cases (ltb hist_max (length xs))) [
  | inl y ↦ rw y refl
  | inr n ↦ let small : length xs - hist_max ≡ 0 = ground arith in rw (n, small) refl
]

drop-nil : (k : ℕ) → drop {A = Row} k [] ≡ []
drop-nil zero = refl
drop-nil (suc k) = refl

drop-drop : (m n : ℕ) (xs : List Row) → drop m (drop n xs) ≡ drop (n + m) xs
drop-drop m zero xs = let sum : m ≡ zero + m = omega arith in ap (λ k. drop k xs) sum
drop-drop m (suc n) [] = drop-nil m ∙ sym (drop-nil (suc n + m))
drop-drop m (suc n) (x ∷ xs) =
    let sum : suc (n + m) ≡ suc n + m = omega arith in
    drop-drop m n xs ∙ ap (λ k. drop k (x ∷ xs)) sum

trim-snoc :
    (xs : List Row) (r : Row) → trim_hist (trim_hist xs ++ r ∷ []) ≡ trim_hist (xs ++ r ∷ [])
trim-snoc xs r =
    ap (λ ys. trim_hist (ys ++ r ∷ [])) (trim-drop xs)
    ∙ trim-drop (drop k xs ++ r ∷ [])
    ∙ drop-append j (drop k xs) (r ∷ []) (omega (arith, len, length-drop k xs))
    ∙ ap (λ ys. ys ++ r ∷ [])
        (drop-drop j k xs ∙ ap (λ n. drop n xs) (omega (arith, len, long, length-drop k xs)))
    ∙ sym (drop-append (length (xs ++ r ∷ []) - hist_max) xs (r ∷ []) (omega (arith, long)))
    ∙ sym (trim-drop (xs ++ r ∷ []))
  where
    k : ℕ
    k = length xs - hist_max

    j : ℕ
    j = length (drop k xs ++ r ∷ []) - hist_max

    len : length (drop k xs ++ r ∷ []) ≡ length (drop k xs) + 1
    len = length-append (drop k xs) (r ∷ [])

    long : length (xs ++ r ∷ []) ≡ length xs + 1
    long = length-append xs (r ∷ [])

-- The terminal within a frame that began at `u`: what its history holds, and what was counted.
record Holds (u v : Vt) (rows : List Row) : Type 0 where
  base : List Row
  lines : v.hist ≡ trim_hist (base ++ rows)
  since :
      (u.hist_total + length rows ≡ v.hist_total)
      ⊎ ((base ≡ []) × (u.hist_total + length rows ≤ v.hist_total))
  bound : length v.hist ≤ hist_max
  counted : length v.hist ≤ v.hist_total

record Kept (v : Vt) : Type 0 where
  bound : length v.hist ≤ hist_max
  counted : length v.hist ≤ v.hist_total

line_feed-scroll :
    (v w : Vt) (row : Row)
    → (v.cy == v.bot) ≡ true
    → get_elem? v.buf v.top ≡ some row
    → line_feed v ≡ some w
    → (w.hist ≡ trim_hist (v.hist ++ copy_row v.cols row ∷ [])) × (w.hist_total ≡ v.hist_total + 1)
unfolding line_feed
line_feed-scroll v w row b g e =
    let scrolled = λ (buf : List Row). record v {
      hist = trim_hist (v.hist ++ copy_row v.cols row ∷ []);
      hist_total = v.hist_total + 1;
      buf = buf;
    } in
    let moved =
      >>=-eq-some (shift_up (v.bot - v.top) v.top v.buf)
        (λ buf. set? buf v.bot (blank_line v.cols) >>= (λ buf'. some (scrolled buf')))
        (simp (b, g) at e) in
    let blanked =
      >>=-eq-some (set? moved.0 v.bot (blank_line v.cols)) (λ buf'. some (scrolled buf')) moved.2 in
    some-holds
      (λ (x : Vt).
        (x.hist ≡ trim_hist (v.hist ++ copy_row v.cols row ∷ []))
        × (x.hist_total ≡ v.hist_total + 1))
      (scrolled blanked.0) w blanked.2 (refl, refl)

erase_display-hist :
    (v w : Vt) → erase_display 3 v ≡ some w → (w.hist ≡ []) × (w.hist_total ≡ v.hist_total)
unfolding erase_display
erase_display-hist v w e =
    some-holds (λ (x : Vt). (x.hist ≡ []) × (x.hist_total ≡ v.hist_total)) _ w e (refl, refl)

trim-bound : (xs : List Row) → length (trim_hist xs) ≤ hist_max
trim-bound xs = ground (arith, length-drop (length xs - hist_max) xs)

trim-shorter : (xs : List Row) → length (trim_hist xs) ≤ length xs
trim-shorter xs = ground (arith, length-drop (length xs - hist_max) xs)

trim-short : (xs : List Row) → length xs ≤ hist_max → trim_hist xs ≡ xs
trim-short xs h = ground arith

Frame-Holds : (u v : Vt) (rows : List Row) → Kept u → Frame u v rows → Holds u v rows
Frame-Holds u v rows k start = record {
  base = u.hist;
  lines = sym (ap trim_hist (append-nil u.hist) ∙ trim-short u.hist k.bound);
  since = inl (omega arith);
  bound = k.bound;
  counted = k.counted;
}
Frame-Holds u w _ k (scroll {v} {rows} row f b g e) =
    let h = Frame-Holds u v rows k f in
    let fed = line_feed-scroll v w row b g e in
    let r = copy_row v.cols row in
    record {
      base = h.base;
      lines =
          fed.0
          ∙ ap (λ xs. trim_hist (xs ++ r ∷ [])) h.lines
          ∙ trim-snoc (h.base ++ rows) r
          ∙ ap trim_hist (append_assoc h.base rows (r ∷ []));
      since = elim h.since [
        | inl e ↦ inl (omega (arith, e, fed.1, length-append rows (r ∷ [])))
        | inr e ↦ inr (e.0, omega (arith, e.1, fed.1, length-append rows (r ∷ [])))
      ];
      bound = rw fed.0 (trim-bound (v.hist ++ r ∷ []));
      counted =
          rw (fed.0, fed.1)
            (omega
              (arith, trim-shorter (v.hist ++ r ∷ []), length-append v.hist (r ∷ []), h.counted));
    }
Frame-Holds u w _ k (drop_history {v} {rows} f e) =
    let h = Frame-Holds u v rows k f in
    let gone = erase_display-hist v w e in
    record {
      base = [];
      lines = gone.0;
      since = inr (
        refl,
        elim h.since [ inl t ↦ omega (arith, t, gone.1) | inr t ↦ omega (arith, t.1, gone.1) ],
      );
      bound = rw gone.0 (omega arith);
      counted = rw gone.0 (omega arith);
    }
Frame-Holds u w rows k (other {v} f same total) =
    let h = Frame-Holds u v rows k f in
    record {
      base = h.base;
      lines = same ∙ h.lines;
      since = rw total h.since;
      bound = rw same h.bound;
      counted = rw (same, total) h.counted;
    }

length-map_text : (rows : List Row) → length (map line_text rows) ≡ length rows
length-map_text [] = refl
length-map_text (r ∷ rows) = ap suc (length-map_text rows)

ltb_self : (a : ℕ) → ltb a a ≡ false
ltb_self a = ground arith

-- The lines since the history was dropped are all that it holds, and all that is taken.
take_new-all :
    (new : List Bytes) (last total : ℕ) (p : List Bytes)
    → last + length new ≤ total
    → take_new (record { total = total; lines = new }) (seen last p) ≡ some (seen total p, new)
unfolding take_new slice
take_new-all new last total p h = elim (Bool-cases (ltb last (total - length new))) [
  | inr n ↦
      let exact : last + length new ≡ total = ground arith in
      take_new-tail [] new last total p exact (omega arith)
  | inl y ↦
      let same : take_new (record { total = total; lines = new }) (seen last p)
          ≡ take_new (record { total = total; lines = new }) (seen (total - length new) p) =
        simp (y, ltb_self (total - length new)) in
      same ∙ take_new-tail [] new (total - length new) total p (omega arith) (omega arith)
]

trim-pending : (p : List Bytes) → length p ≤ pending_cap → trim p ≡ p
unfolding trim
trim-pending p h = ground arith

Frame-capture :
    (u v : Vt) (rows : List Row) (p : List Bytes)
    → Holds u v rows
    → length rows ≤ hist_max
    → length (p ++ map line_text rows) ≤ pending_cap
    → capture (view v) (seen u.hist_total p) ≡ some (seen v.hist_total (p ++ map line_text rows))
unfolding capture history_lines
Frame-capture u v rows p h fits few =
    let old = drop (length (h.base ++ rows) - hist_max) h.base in
    let split : history_lines v ≡ map line_text old ++ map line_text rows =
      ap (map line_text) (
        h.lines
        ∙ trim-drop (h.base ++ rows)
        ∙ drop-append (length (h.base ++ rows) - hist_max) h.base rows
            (omega (arith, length-append h.base rows)))
      ∙ map-append line_text old rows in
    rw
      (
        split,
        taken old split
            (λ e.
              ap (drop (length (h.base ++ rows) - hist_max)) e
              ∙ drop-nil (length (h.base ++ rows) - hist_max))
            h.since,
        trim-pending (p ++ map line_text rows) few,
      )
      refl
  where
    taken :
        (old : List Row)
        → history_lines v ≡ map line_text old ++ map line_text rows
        → (h.base ≡ [] → old ≡ [])
        → (u.hist_total + length rows ≡ v.hist_total)
          ⊎ ((h.base ≡ []) × (u.hist_total + length rows ≤ v.hist_total))
        → take_new
            (record { total = v.hist_total; lines = map line_text old ++ map line_text rows })
            (seen u.hist_total p)
          ≡ some (seen v.hist_total p, map line_text rows)
    taken old split none_old (inl e) =
        take_new-tail (map line_text old) (map line_text rows) u.hist_total v.hist_total p
          (omega (arith, e, length-map_text rows))
          (omega (arith, ap length split, length-map_text v.hist, h.counted))
    taken old split none_old (inr e) = rw (none_old e.0) (
        take_new-all (map line_text rows) u.hist_total v.hist_total p
          (omega (arith, e.1, length-map_text rows)))

-- A flusher that has seen all lines so far, over any frames in which lines leave the screen by line feeds
-- and the history is dropped by ED 3 (and anything happens that leaves the history alone): a capture
-- behind each frame takes, once and in order and behind what the flusher held, every line that left the
-- screen in it since the history was last dropped. In each frame these are no more than the history
-- keeps, and all of them together no more than `pendingCap`. The lines that leave the screen before
-- ED 3 within one frame are lost.
pub captures-once :
    (u w : Vt) (batches : List (List Row)) (fs : Frames u w batches) (p : List Bytes)
    → length u.hist ≤ hist_max
    → length u.hist ≤ u.hist_total
    → Fits hist_max batches
    → length (p ++ texts batches) ≤ pending_cap
    → captures fs (seen u.hist_total p) ≡ some (seen w.hist_total (p ++ texts batches))
unfolding captures texts Fits
captures-once u w _ none_left p b c h k = ap (λ q. some (seen u.hist_total q)) (sym (append-nil p))
captures-once u w _ (frame {v} {rows} {batches} f fs) p b c h k =
    let held = Frame-Holds u v rows (record { bound = b; counted = c }) f in
    let here = Frame-capture u v rows p held h.0 (
      omega (
        arith,
        k,
        ap length (append_assoc p (map line_text rows) (texts batches)),
        length-append (p ++ map line_text rows) (texts batches),
      )) in
    rw here (
      captures-once v w batches fs (p ++ map line_text rows) held.bound held.counted h.1
        (omega (arith, k, ap length (append_assoc p (map line_text rows) (texts batches))))
      ∙ ap (λ q. some (seen w.hist_total q)) (append_assoc p (map line_text rows) (texts batches)))
