-- ===== src/Screen/Flush/Once.antt =====
-- internal/screen/flush.go, `takeNew`: the lines of a history that are new to the flusher.
use claude_master_go.Base.{
  ℕ, suc, ◌+◌, ◌-◌, ◌≤◌, ◌<◌, ◌≡◌, ap, true, false, List, [], ◌∷◌, ◌++◌, arith, ltb, leb, length,
  take, some, length-append, take-length, drop-length, drop-append,
}
use claude_master_go.Screen.Flush.{HistoryFlusher, slice, take_new}

ltb-false : (a b : ℕ) → b ≤ a → ltb a b ≡ false
ltb-false a b h = ground arith

leb-false : (a b : ℕ) → b < a → leb a b ≡ false
leb-false a b h = ground arith

leb-true : (a b : ℕ) → a ≤ b → leb a b ≡ true
leb-true a b h = ground arith

module _ {ℓ} {A : Type ℓ} where
  -- At most `keep` lines in each frame.
  unfoldable pub Fits : ℕ → List (List A) → Type 0
  Fits keep [] = Unit
  Fits keep (xs ∷ rest) = (length xs ≤ keep) × Fits keep rest

  slice-tail : (old new : List A) → slice (length old) (length (old ++ new)) (old ++ new) ≡ some new
  unfolding slice
  slice-tail old new = simp (
    ltb-false (length (old ++ new)) (length old) (omega (arith, length-append old new)),
    ltb-false (length (old ++ new)) (length (old ++ new)) (omega arith),
    drop-append (length old) old new (omega arith),
    drop-length old,
    ap (λ k. take k new) (minus (length-append old new)),
    take-length new,
  )
    where
      minus :
          length (old ++ new) ≡ length old + length new
          → length (old ++ new) - length old ≡ length new
      minus e = omega arith

  -- The flusher that has seen `total` lines.
  abbrev pub seen : ℕ → List A → HistoryFlusher A
  seen total pending = record { armed = true; last_total = total; pending = pending }

  pub take_new-tail :
      (old new : List A) (last total : ℕ) (p : List A)
      → last + length new ≡ total
      → length (old ++ new) ≤ total
      → take_new (record { total = total; lines = old ++ new }) (seen last p)
        ≡ some (seen total p, new)
  unfolding take_new
  take_new-tail old [] last total p t l = simp (
    ltb-false last (total - length (old ++ [])) (omega (arith, length-append old [])),
    leb-true total last (omega arith),
  )
  take_new-tail old (x ∷ xs) last total p t l = simp (
    ltb-false last (total - length (old ++ x ∷ xs)) (omega (arith, length-append old (x ∷ xs))),
    leb-false total last (omega arith),
    ap2 (length-append old (x ∷ xs)),
    ap3 (length-append old (x ∷ xs)),
    slice-tail old (x ∷ xs),
  )
    where
      ap2 :
          length (old ++ x ∷ xs) ≡ length old + suc (length xs)
          → total - (total - length (old ++ x ∷ xs)) ≡ length (old ++ x ∷ xs)
      ap2 e = omega arith

      ap3 :
          length (old ++ x ∷ xs) ≡ length old + suc (length xs)
          → last - (total - length (old ++ x ∷ xs)) ≡ length old
      ap3 e = omega arith
