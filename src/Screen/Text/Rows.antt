-- ===== src/Screen/Text/Rows.antt =====
-- The text of the visible rows (internal/screen/vt.go).
use claude_master_go.Base.{
  ℕ, zero, suc, ◌+◌, ◌≡◌, ◌≢◌, ◌≤◌, refl, ap, inl, inr, Bool, true, false, ◌&&◌, List, [], ◌∷◌,
  ◌++◌, ◌==◌, Bytes, length, arith, Bool-cases, Ensures, Ensures-some, Ensures-bind,
}
use claude_master_go.Screen.Vt.{Vt, Row}
use claude_master_go.Screen.Vt.Grid.{IsGrid, IsGrid-get_elem?}
use claude_master_go.Screen.Vt.Safe.{IsWf}
use claude_master_go.Screen.Text.{
  row_text, all_spaces, trim_spaces, line_text, visible_from, visible_lines,
}

-- The text does not end in a space.
abbrev pub IsTrimmed : Bytes → Type 0
IsTrimmed s = (xs : Bytes) → s ≢ xs ++ 32 ∷ []

pub data AllTrimmed : List Bytes → Type 0 where
  nil : AllTrimmed []
  cons : {s : Bytes} {ss : List Bytes} → IsTrimmed s → AllTrimmed ss → AllTrimmed (s ∷ ss)

pub record AreLines (n : ℕ) (lines : List Bytes) : Type 0 where
  pub count : length lines ≡ n
  pub trimmed : AllTrimmed lines

nil-IsTrimmed : IsTrimmed []
nil-IsTrimmed [] h = cc
nil-IsTrimmed (x ∷ xs) h = cc

trim_spaces-nil : (s : Bytes) → trim_spaces s ≡ [] → all_spaces s ≡ true
unfolding trim_spaces all_spaces
trim_spaces-nil [] h = refl
trim_spaces-nil (b ∷ bs) h = elim (Bool-cases (b == 32 && all_spaces bs)) [
  | inl e ↦ e
  | inr e ↦ absurd (cons_nil (simp e at h))
]
  where
    cons_nil : b ∷ trim_spaces bs ≡ [] → ⊥
    cons_nil q = cc

both : (b : ℕ) (s : Bool) → b ≡ 32 → s ≡ true → (b == 32 && s) ≡ true
both b true h k = ground arith
both b false h k = cc

kept-IsTrimmed :
    (b : ℕ) (bs : Bytes)
    → (b == 32 && all_spaces bs) ≡ false
    → IsTrimmed (trim_spaces bs)
    → IsTrimmed (b ∷ trim_spaces bs)
kept-IsTrimmed b bs e h [] q =
    let head : b ≡ 32 = cc in
    let tail : trim_spaces bs ≡ [] = cc in
    let spaces : (b == 32 && all_spaces bs) ≡ true =
      both b (all_spaces bs) head (trim_spaces-nil bs tail) in
    cc
kept-IsTrimmed b bs e h (x ∷ xs) q = let tail : trim_spaces bs ≡ xs ++ 32 ∷ [] = cc in h xs tail

trim_spaces-IsTrimmed : (s : Bytes) → IsTrimmed (trim_spaces s)
unfolding trim_spaces all_spaces
trim_spaces-IsTrimmed [] = nil-IsTrimmed
trim_spaces-IsTrimmed (b ∷ bs) = elim (Bool-cases (b == 32 && all_spaces bs)) [
  | inl e ↦ simp e nil-IsTrimmed
  | inr e ↦ simp e (kept-IsTrimmed b bs e (trim_spaces-IsTrimmed bs))
]

visible_from-AreLines :
    (n y cols rows : ℕ) (b : List Row)
    → y + n ≤ rows
    → IsGrid cols rows b
    → Ensures (AreLines n) (visible_from n y b)
unfolding visible_from line_text
visible_from-AreLines zero y cols rows b h g =
    Ensures-some _ _ (record { count = refl; trimmed = AllTrimmed.nil })
visible_from-AreLines (suc n) y cols rows b h g =
    Ensures-bind _ _ (IsGrid-get_elem? cols rows b y g (omega arith)) λ row e.
      Ensures-bind _ _ (visible_from-AreLines n (suc y) cols rows b (omega arith) g) λ rest l.
        Ensures-some _ _ (record {
          count = ap suc l.count;
          trimmed = AllTrimmed.cons (trim_spaces-IsTrimmed (row_text row)) l.trimmed;
        })

-- On a well-formed screen `VisibleLines` returns, with one text for each row, none of which ends in a
-- space.
pub visible_lines-AreLines : (v : Vt) → IsWf v → Ensures (AreLines v.rows) (visible_lines v)
unfolding visible_lines
visible_lines-AreLines v w = visible_from-AreLines v.rows 0 v.cols v.rows v.buf (omega arith) w.grid
