-- ===== src/Screen/Scroll/View.antt =====
-- What the viewport of internal/screen/scroll.go shows, and when it moves.
use claude_master_go.Base.{
  ℕ, zero, suc, ◌+◌, ◌-◌, ◌≤◌, ◌<◌, ◌≡◌, refl, sym, ap, ◌∙◌, true, false, inl, inr, List, [], ◌∷◌,
  ◌++◌, arith, ltb, leb, length, take, drop, some, get_elem?, min, take-append, drop-append,
  length-take, length-append, length-drop, Bool-cases, ltb→lt,
}
use claude_master_go.Screen.Scroll.{ScrollRenderer, settle, or_absent, line, rows_from, view_lines}

module _ {ℓ} {A : Type ℓ} (absent : A) where
  get_elem?-some :
      (xs : List A) (i : ℕ)
      → i < length xs
      → get_elem? xs i ≡ some (or_absent absent (get_elem? xs i))
  unfolding or_absent
  get_elem?-some [] i h = ground arith
  get_elem?-some (x ∷ xs) zero h = refl
  get_elem?-some (x ∷ xs) (suc i) h = get_elem?-some xs i (omega arith)

  get_elem?-left :
      (xs ys : List A) (i : ℕ) → i < length xs → get_elem? (xs ++ ys) i ≡ get_elem? xs i
  get_elem?-left [] ys i h = ground arith
  get_elem?-left (x ∷ xs) ys zero h = refl
  get_elem?-left (x ∷ xs) ys (suc i) h = get_elem?-left xs ys i (omega arith)

  get_elem?-right :
      (xs ys : List A) (i : ℕ)
      → length xs ≤ i
      → get_elem? (xs ++ ys) i ≡ get_elem? ys (i - length xs)
  get_elem?-right [] ys i h = ap (get_elem? ys) (omega arith)
  get_elem?-right (x ∷ xs) ys zero h = ground arith
  get_elem?-right (x ∷ xs) ys (suc i) h =
      get_elem?-right xs ys i (omega arith) ∙ ap (get_elem? ys) (omega arith)

  line-append :
      (hist vis : List A) (i : ℕ)
      → i < length (hist ++ vis)
      → get_elem? (hist ++ vis) i ≡ some (line absent hist vis i)
  unfolding line
  line-append hist vis i h = elim (Bool-cases (ltb i (length hist))) [
    | inl e ↦
        get_elem?-left hist vis i (ltb→lt i _ e) ∙ get_elem?-some hist i (ltb→lt i _ e) ∙ simp e
    | inr e ↦
        get_elem?-right hist vis i (ltb-false e)
        ∙ get_elem?-some vis (i - length hist) (within (length-append hist vis) (ltb-false e))
        ∙ simp e
  ]
    where
      ltb-false : ltb i (length hist) ≡ false → length hist ≤ i
      ltb-false e = ground arith

      within :
          length (hist ++ vis) ≡ length hist + length vis
          → length hist ≤ i
          → i - length hist < length vis
      within e l = omega arith

  drop-cons :
      (xs : List A) (l : ℕ) (x : A) → get_elem? xs l ≡ some x → drop l xs ≡ x ∷ drop (suc l) xs
  drop-cons [] l x h = cc
  drop-cons (y ∷ xs) zero x h = cc
  drop-cons (y ∷ xs) (suc l) x h = drop-cons xs l x h

  drop-past : (xs : List A) (l : ℕ) → length xs ≤ l → drop l xs ≡ []
  drop-past [] zero h = refl
  drop-past [] (suc l) h = refl
  drop-past (x ∷ xs) zero h = ground arith
  drop-past (x ∷ xs) (suc l) h = drop-past xs l (omega arith)

  -- The rows that the loop collects are a window of the canvas.
  rows_from-window :
      (n l : ℕ) (hist vis : List A)
      → rows_from absent n l (length hist + length vis) hist vis ≡ take n (drop l (hist ++ vis))
  unfolding rows_from
  rows_from-window zero l hist vis = refl
  rows_from-window (suc n) l hist vis = elim (Bool-cases (leb (length hist + length vis) l)) [
    | inl e ↦ simp (e, drop-past (hist ++ vis) l (past e (length-append hist vis)))
    | inr e ↦ simp (
      e,
      drop-cons (hist ++ vis) l (line absent hist vis l)
          (line-append hist vis l (inside e (length-append hist vis))),
      rows_from-window n (suc l) hist vis,
    )
  ]
    where
      past :
          leb (length hist + length vis) l ≡ true
          → length (hist ++ vis) ≡ length hist + length vis
          → length (hist ++ vis) ≤ l
      past e q = ground arith

      inside :
          leb (length hist + length vis) l ≡ false
          → length (hist ++ vis) ≡ length hist + length vis
          → l < length (hist ++ vis)
      inside e q = ground arith

  view_lines-window :
      (hist vis : List A) (vrows : ℕ) (s : ScrollRenderer)
      → (view_lines absent hist vis vrows s).1
        ≡ take vrows (drop ((settle (length hist + length vis) vrows s).1) (hist ++ vis))
  unfolding view_lines
  view_lines-window hist vis vrows s =
      rows_from-window vrows ((settle (length hist + length vis) vrows s).1) hist vis

  -- A window inside the list is not changed by what is appended.
  window-append :
      (n l : ℕ) (xs ys : List A)
      → l + n ≤ length xs
      → take n (drop l (xs ++ ys)) ≡ take n (drop l xs)
  window-append n l xs ys h =
      ap (take n) (drop-append l xs ys (omega arith))
      ∙ take-append n (drop l xs) ys (omega (arith, length-drop l xs))

settle-anchored :
    (total vrows : ℕ) (s : ScrollRenderer)
    → s.follow ≡ false
    → s.anchor + vrows < total
    → settle total vrows s ≡ (record s { last_max_oy = total - vrows }, s.anchor)
unfolding settle
settle-anchored total vrows s f h = simp (f, leb_false (total - vrows) s.anchor (omega arith))
  where
    leb_false : (a b : ℕ) → b < a → leb a b ≡ false
    leb_false a b l = ground arith

settle-again :
    (total total' vrows : ℕ) (s : ScrollRenderer)
    → s.follow ≡ false
    → s.anchor + vrows < total
    → total ≤ total'
    → (settle total' vrows ((settle total vrows s).0)).1 ≡ s.anchor
settle-again total total' vrows s f h l =
    ap (λ p. (settle total' vrows (p.0)).1) (settle-anchored total vrows s f h)
    ∙ ap (λ p. p.1)
        (settle-anchored total' vrows (record s { last_max_oy = total - vrows }) f (omega arith))

settle-within : (total vrows : ℕ) (s : ScrollRenderer) → (settle total vrows s).1 ≤ total - vrows
unfolding settle
settle-within total vrows s = ground arith

module _ {ℓ} {A : Type ℓ} (absent : A) where
  -- A view has as many rows as fit: `vrows`, or all rows of the history and the screen if these are
  -- fewer.
  pub length-view_lines :
      (hist vis : List A) (vrows : ℕ) (s : ScrollRenderer)
      → length ((view_lines absent hist vis vrows s).1) ≡ min vrows (length hist + length vis)
  length-view_lines hist vis vrows s =
      ap length (view_lines-window absent hist vis vrows s)
      ∙ length-take vrows _
      ∙ omega (
        arith,
        length-drop ((settle (length hist + length vis) vrows s).1) (hist ++ vis),
        length-append hist vis,
        settle-within (length hist + length vis) vrows s,
      )

  -- The reader's place is kept: while the viewport does not follow and its first row stands before
  -- the last page, rows added to the end of the history and the screen (however they are split between
  -- the two) do not change what the next view shows.
  pub view_lines-anchored :
      (hist vis hist' vis' new : List A) (vrows : ℕ) (s : ScrollRenderer)
      → s.follow ≡ false
      → s.anchor + vrows < length hist + length vis
      → hist' ++ vis' ≡ (hist ++ vis) ++ new
      → (view_lines absent hist' vis' vrows ((view_lines absent hist vis vrows s).0)).1
        ≡ (view_lines absent hist vis vrows s).1
  unfolding view_lines
  view_lines-anchored hist vis hist' vis' new vrows s f h e =
      view_lines-window absent hist' vis' vrows _
      ∙ ap (λ k. take vrows (drop k (hist' ++ vis'))) (first' longer)
      ∙ ap (λ xs. take vrows (drop (s.anchor) xs)) e
      ∙ window-append absent vrows (s.anchor) (hist ++ vis) new
          (omega (arith, length-append hist vis))
      ∙ ap (λ k. take vrows (drop k (hist ++ vis)))
          (sym (ap (λ p. p.1) (settle-anchored _ vrows s f h)))
      ∙ sym (view_lines-window absent hist vis vrows s)
    where
      longer : length hist + length vis ≤ length hist' + length vis'
      longer = omega (
        arith,
        length-append hist vis,
        length-append hist' vis',
        length-append (hist ++ vis) new,
        ap length e,
      )

      first' :
          length hist + length vis ≤ length hist' + length vis'
          → (settle (length hist' + length vis') vrows ((view_lines absent hist vis vrows s).0)).1
            ≡ s.anchor
      first' l = settle-again (length hist + length vis) (length hist' + length vis') vrows s f h l
