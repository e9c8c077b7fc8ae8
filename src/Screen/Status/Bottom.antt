-- ===== src/Screen/Status/Bottom.antt =====
-- Only the last six rows tell of a running task (internal/screen/status.go).
use claude_master_go.Base.{
  ℕ, zero, suc, ◌+◌, ◌-◌, ◌≤◌, ◌≡◌, refl, sym, ap, ◌∙◌, Bool, false, ◌||◌, List, [], ◌∷◌, ◌++◌,
  Bytes, length, take, drop, leb, take-length, take-append-drop, length-drop, get_elem?,
  length-append, inl, inr, arith, Bool-cases,
}
use claude_master_go.Screen.Status.{is_active_row, is_active_at, is_active_above, is_active_text}

-- Some row is active.
unfoldable pub any_active : List Bytes → Bool
any_active [] = false
any_active (l ∷ ls) = is_active_row l || any_active ls

get_elem?-append : (a b : List Bytes) (n : ℕ) → get_elem? (a ++ b) (length a + n) ≡ get_elem? b n
get_elem?-append [] b n = ap (get_elem? b) (omega arith)
get_elem?-append (x ∷ a) b n =
    let step : suc (length a) + n ≡ suc (length a + n) = omega arith in
    ap (get_elem? (x ∷ (a ++ b))) step ∙ get_elem?-append a b n

-- The rows above the lowest ones are not looked at.
above-append :
    (left y : ℕ) (a b : List Bytes)
    → left ≤ y
    → is_active_above left (length a + y) (a ++ b) ≡ is_active_above left y b
unfolding is_active_above
above-append zero y a b h = refl
above-append (suc left) zero a b h = absurd (omega arith)
above-append (suc left) (suc y) a b h =
    let step : length a + suc y ≡ suc (length a + y) = omega arith in
    ap (λ n. is_active_above (suc left) n (a ++ b)) step
    ∙ ap (λ o. is_active_at o || is_active_above left (length a + y) (a ++ b))
        (get_elem?-append a b y)
    ∙ ap (λ r. is_active_at (get_elem? b y) || r) (above-append left y a b (omega arith))

any-take :
    (y : ℕ) (b : List Bytes)
    → any_active (take (suc y) b) ≡ (is_active_at (get_elem? b y) || any_active (take y b))
unfolding any_active is_active_at
any-take zero [] = refl
any-take zero (l ∷ ls) = refl
any-take (suc y) [] = refl
any-take (suc y) (l ∷ ls) =
    ap (λ r. is_active_row l || r) (any-take y ls)
    ∙ swap (is_active_row l) (is_active_at (get_elem? ls y)) (any_active (take y ls))
  where
    swap : (p q r : Bool) → (p || (q || r)) ≡ (q || (p || r))
    swap p q r = ground arith

above-any :
    (left y : ℕ) (b : List Bytes) → y ≤ left → is_active_above left y b ≡ any_active (take y b)
unfolding is_active_above any_active
above-any zero zero b h = refl
above-any (suc left) zero b h = refl
above-any zero (suc y) b h = absurd (omega arith)
above-any (suc left) (suc y) b h =
    ap (λ r. is_active_at (get_elem? b y) || r) (above-any left y b (omega arith))
    ∙ sym (any-take y b)

short : (b : List Bytes) → length b ≤ 6 → is_active_text b ≡ any_active b
unfolding is_active_text
short b h = above-any 6 (length b) b h ∙ ap any_active (take-length b)

long : (a b : List Bytes) → length b ≡ 6 → is_active_text (a ++ b) ≡ any_active b
unfolding is_active_text
long a b h =
    ap (λ n. is_active_above 6 n (a ++ b)) (length-append a b ∙ ap (λ n. length a + n) h)
    ∙ above-append 6 6 a b (omega arith)
    ∙ above-any 6 6 b (omega arith)
    ∙ ap (λ n. any_active (take n b)) (sym h)
    ∙ ap any_active (take-length b)

-- A screen is active exactly if one of its last six rows is, whatever the rows above them show.
pub is_active_text-any_active :
    (ls : List Bytes) → is_active_text ls ≡ any_active (drop (length ls - 6) ls)
is_active_text-any_active ls = elim (Bool-cases (leb (length ls) 6)) [
  | inl e ↦
      let le : length ls ≤ 6 = ground arith in
      let none_above : length ls - 6 ≡ 0 = omega arith in rw none_above (short ls le)
  | inr e ↦
      let n = length ls - 6 in
      ap is_active_text (sym (take-append-drop n ls))
      ∙ long (take n ls) (drop n ls) (length-drop n ls ∙ ground arith)
]
