-- ===== src/Tmux/Layout/Fuel.antt =====
-- The fuel of `parseNode` (internal/tmuxcc/layout.go): every fuel above the length of a node is enough.
use claude_master_go.Base.{
  ℕ, zero, suc, ◌+◌, ◌-◌, ◌≤◌, ◌<◌, ◌≡◌, refl, ap, ◌∙◌, Bool, true, false, ◌&&◌, ◌||◌, Option, none,
  some, List, [], ◌∷◌, ◌++◌, ◌==◌, ◌>>=◌, >>=-eq-some, some-holds, Bytes, length, take, drop,
  length-append, length-take, length-drop, ℤ, up, down, arith, if-cases,
}
use claude_master_go.Config.Number.{atoi}
use claude_master_go.Tmux.Layout.{
  Layout, Layouts, node, split_at_first, field_to, or_all, is_y_end, last_child, cut_children,
  is_top, is_child_boundary, cons_layout, parse_all, parse_children, match_bracket, parse_split,
  parse_rest, parse_y, parse_x, parse_h, parse_box, parse_node,
}

-- Texts below a length.
pub data Short (n : ℕ) : List Bytes → Type 0 where
  nil : Short n []
  cons : {s : Bytes} {ss : List Bytes} → length s ≤ n → Short n ss → Short n (s ∷ ss)

length-snoc : (s : Bytes) (c : ℕ) → length (s ++ c ∷ []) ≡ suc (length s)
length-snoc s c = omega (arith, length-append s (c ∷ []))

-- The texts of the children are no longer than the text.
cut_children-Short :
    (n : ℕ) (depth : ℤ) (sofar s : Bytes)
    → length sofar + length s ≤ n
    → Short n (cut_children depth sofar s)
unfolding cut_children last_child
cut_children-Short n depth [] [] h = nil
cut_children-Short n depth (x ∷ sofar) [] h = cons (omega (arith, h)) nil
cut_children-Short n depth sofar (c ∷ s) h =
    let grown : length (sofar ++ c ∷ []) + length s ≤ n = omega (arith, h, length-snoc sofar c) in
    if-cases (Short n) (c == b'{' || c == b'[')
      (λ a. cut_children-Short n (up depth) (sofar ++ c ∷ []) s grown)
      (λ a.
        if-cases (Short n) (c == b'}' || c == b']')
          (λ b. cut_children-Short n (down depth) (sofar ++ c ∷ []) s grown)
          (λ b.
            if-cases (Short n) (c == b',' && (is_top depth && is_child_boundary s))
              (λ d. cons (omega (arith, h)) (cut_children-Short n depth [] s (omega (arith, h))))
              (λ d. cut_children-Short n depth (sofar ++ c ∷ []) s grown)))

-- Two parsers that agree on the texts up to a length.
abbrev pub Agree : ℕ → (Bytes → Option Layout) → (Bytes → Option Layout) → Type 0
Agree n p q = (s : Bytes) → length s ≤ n → p s ≡ q s

parse_all-Agree :
    (n : ℕ) (p q : Bytes → Option Layout) (ss : List Bytes)
    → Agree n p q
    → Short n ss
    → parse_all p ss ≡ parse_all q ss
unfolding parse_all
parse_all-Agree n p q [] a nil = refl
parse_all-Agree n p q (s ∷ ss) a (cons h hs) =
    ap (λ l. cons_layout l (parse_all p ss)) (a s h)
    ∙ ap (cons_layout (q s)) (parse_all-Agree n p q ss a hs)

bind_same {ℓ κ} :
    {A : Type ℓ} {B : Type κ} (o : Option A) (f g : A → Option B)
    → ((a : A) → o ≡ some a → f a ≡ g a)
    → (o >>= f) ≡ (o >>= g)
bind_same none f g h = refl
bind_same (some a) f g h = h a refl

parse_split-Agree :
    (n : ℕ) (p q : Bytes → Option Layout) (make : Layouts → Layout) (opening closing : ℕ)
    (s : Bytes)
    → Agree n p q
    → length s ≤ suc n
    → parse_split p make opening closing s ≡ parse_split q make opening closing s
unfolding parse_split
parse_split-Agree n p q make opening closing s a h =
    bind_same (match_bracket s opening closing)
      (λ i. parse_children p (take (i - 1) (drop 1 s)) >>= (λ ls. some (make ls)))
      (λ i. parse_children q (take (i - 1) (drop 1 s)) >>= (λ ls. some (make ls)))
      (λ i e.
        ap (λ r. r >>= (λ ls. some (make ls)))
          (parse_all-Agree n p q (cut_children (ℤ.pos 0) [] (take (i - 1) (drop 1 s))) a (
            cut_children-Short n (ℤ.pos 0) [] (take (i - 1) (drop 1 s))
              (omega (arith, h, length-take (i - 1) (drop 1 s), length-drop 1 s)))))

parse_rest-Agree :
    (n : ℕ) (p q : Bytes → Option Layout) (make : Bytes → Bool → Layouts → Layout) (s : Bytes)
    → Agree n p q
    → length s ≤ suc n
    → parse_rest p make s ≡ parse_rest q make s
unfolding parse_rest
parse_rest-Agree n p q make [] a h = refl
parse_rest-Agree n p q make (c ∷ s) a h =
    rw
      (
        parse_split-Agree n p q (make [] false) b'{' b'}' (c ∷ s) a h,
        parse_split-Agree n p q (make [] true) b'[' b']' (c ∷ s) a h,
      )
      refl

split_at_first-length :
    (f : ℕ → Bool) (s : Bytes) (r : Bytes × Bytes)
    → split_at_first f s ≡ some r
    → length (r.1) ≤ length s
unfolding split_at_first
split_at_first-length f [] r e = cc
split_at_first-length f (c ∷ s) r e =
    if-cases (λ (o : Option (Bytes × Bytes)). o ≡ some r → length (r.1) ≤ suc (length s)) (f c)
      (λ hit. λ h.
        some-holds (λ (x : Bytes × Bytes). length (x.1) ≤ suc (length s)) ([], c ∷ s) r h
          (omega arith))
      (λ miss. λ h.
        let (a, found, out) = >>=-eq-some (split_at_first f s) (λ x. some (c ∷ x.0, x.1)) h in
        some-holds (λ (x : Bytes × Bytes). length (x.1) ≤ suc (length s)) (c ∷ a.0, a.1) r out
          (omega (arith, split_at_first-length f s a found)))
      e

field_to-length :
    (b : ℕ) (s : Bytes) (r : ℤ × Bytes) → field_to b s ≡ some r → length (r.1) ≤ length s
unfolding field_to
field_to-length b s r e =
    let (a, found, next) =
      >>=-eq-some (split_at_first (λ c. c == b) s)
        (λ x. atoi (x.0) >>= (λ n. some (n, drop 1 (x.1)))) e in
    let (n, read, out) = >>=-eq-some (atoi (a.0)) (λ n. some (n, drop 1 (a.1))) next in
    some-holds (λ (x : ℤ × Bytes). length (x.1) ≤ length s) (n, drop 1 (a.1)) r out
      (omega (arith, split_at_first-length (λ c. c == b) s a found, length-drop 1 (a.1)))

or_all-length :
    (s : Bytes) (o : Option (Bytes × Bytes))
    → ((r : Bytes × Bytes) → o ≡ some r → length (r.1) ≤ length s)
    → length ((or_all s o).1) ≤ length s
unfolding or_all
or_all-length s none h = omega arith
or_all-length s (some r) h = h r refl

module _ (n : ℕ) (p q : Bytes → Option Layout) (agree : Agree n p q) where
  parse_y-Agree : (w h x : ℤ) (s : Bytes) → length s ≤ suc n → parse_y p w h x s ≡ parse_y q w h x s
  unfolding parse_y
  parse_y-Agree w h x s le =
      let r = or_all s (split_at_first is_y_end s) in
      bind_same (atoi (r.0)) (λ y. parse_rest p (node w h x y) (r.1))
        (λ y. parse_rest q (node w h x y) (r.1))
        (λ y e. parse_rest-Agree n p q (node w h x y) (r.1) agree (
          omega (
            arith,
            le,
            or_all-length s (split_at_first is_y_end s) (split_at_first-length is_y_end s),
          )))

  parse_x-Agree : (w h : ℤ) (s : Bytes) → length s ≤ suc n → parse_x p w h s ≡ parse_x q w h s
  unfolding parse_x
  parse_x-Agree w h s le =
      bind_same (field_to b',' s) (λ x. parse_y p w h (x.0) (x.1)) (λ x. parse_y q w h (x.0) (x.1))
        (λ x e. parse_y-Agree w h (x.0) (x.1) (omega (arith, le, field_to-length b',' s x e)))

  parse_h-Agree : (w : ℤ) (s : Bytes) → length s ≤ suc n → parse_h p w s ≡ parse_h q w s
  unfolding parse_h
  parse_h-Agree w s le =
      bind_same (field_to b',' s) (λ h. parse_x p w (h.0) (h.1)) (λ h. parse_x q w (h.0) (h.1))
        (λ h e. parse_x-Agree w (h.0) (h.1) (omega (arith, le, field_to-length b',' s h e)))

  parse_box-Agree : (s : Bytes) → length s ≤ suc n → parse_box p s ≡ parse_box q s
  unfolding parse_box
  parse_box-Agree s le =
      bind_same (field_to b'x' s) (λ w. parse_h p (w.0) (w.1)) (λ w. parse_h q (w.0) (w.1))
        (λ w e. parse_h-Agree (w.0) (w.1) (omega (arith, le, field_to-length b'x' s w e)))

-- Two fuels above the length of a text read the same node, or fail alike.
pub parse_node-fuel :
    (m k : ℕ) (s : Bytes) → length s < m → length s < k → parse_node m s ≡ parse_node k s
unfolding parse_node parse_box field_to split_at_first
parse_node-fuel zero k s h g = ground arith
parse_node-fuel (suc m) zero s h g = ground arith
parse_node-fuel (suc m) (suc k) [] h g = refl
parse_node-fuel (suc m) (suc k) (c ∷ s) h g =
    parse_box-Agree (length s) (λ t. parse_node m t) (λ t. parse_node k t)
      (λ t le. parse_node-fuel m k t (omega (arith, le, h)) (omega (arith, le, g))) (c ∷ s)
      (omega arith)
