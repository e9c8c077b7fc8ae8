-- ===== src/Screen/Status/Largest.antt =====
-- The usage that is told is the largest that was read, and the reset the last (internal/screen/status.go).
use claude_master_go.Base.{
  ◌≡◌, refl, ap, ◌∙◌, inl, inr, Bool, true, false, not, ◌||◌, Option, none, some, List, [], ◌∷◌,
  ◌++◌, append-nil, append_assoc, In, All, In-append, In-last, All-snoc, if◌then◌else◌, Bytes, ℤ,
  at_least, at_least_refl, at_least_total, at_least_trans, Bool-cases, arith,
}
use claude_master_go.Tmux.Text.{trim_space}
use claude_master_go.Screen.Status.{
  StatusScanner, leftmost, reset_here, pct_of, take_pct, take_reset, scan, scan_all,
}

opt_list : Option ℤ → List ℤ
opt_list none = []
opt_list (some p) = p ∷ []

-- The percentages in the rows, and the last reset in them, with what is told before.
unfoldable pub pcts : List Bytes → List ℤ
unfolding opt_list
pcts [] = []
pcts (l ∷ ls) = opt_list (pct_of l) ++ pcts ls

trimmed : Option (Bytes × Bytes) → Bytes × Bytes → Bytes × Bytes
trimmed none r = r
trimmed (some (time, zone)) r = (trim_space time, trim_space zone)

unfoldable pub last_reset : Bytes × Bytes → List Bytes → Bytes × Bytes
unfolding trimmed
last_reset r [] = r
last_reset r (l ∷ ls) = last_reset (trimmed (leftmost reset_here l) r) ls

-- The scanner tells nothing and nothing was read, or it tells the largest that was read.
abbrev pub IsLargest : Bool → ℤ → List ℤ → Type 0
IsLargest false n seen = seen ≡ []
IsLargest true n seen = In n seen × All (λ p. at_least n p ≡ true) seen

abbrev pub known : StatusScanner → List ℤ
known sc = if sc.has_pct then sc.last_pct ∷ [] else []

abbrev Told : StatusScanner → List ℤ → Type 0
Told sc seen = IsLargest sc.has_pct sc.last_pct seen

-- Stated for the fields, on which the cases are.
larger-IsLargest :
    (b : Bool) (n p : ℤ) (seen : List ℤ)
    → IsLargest b n seen
    → IsLargest
        (if not b || not (at_least n p) then true else b)
        (if not b || not (at_least n p) then p else n)
        (seen ++ p ∷ [])
larger-IsLargest false n p seen h = rw h (inl refl, (at_least_refl p, tt))
larger-IsLargest true n p seen h = elim (Bool-cases (at_least n p)) [
  | inl e ↦
      let P = λ (x : ℤ). at_least n x ≡ true in
      rw e (In-append n seen (p ∷ []) h.0, All-snoc P P p seen (λ x k. k) e h.1)
  | inr e ↦ rw e (
    In-last p seen,
    All-snoc (λ x. at_least n x ≡ true) (λ x. at_least p x ≡ true) p seen
        (λ x k. at_least_trans p n x (at_least_total n p e) k) (at_least_refl p) h.1,
  )
]

take_pct-Told :
    (o : Option ℤ) (sc : StatusScanner) (seen : List ℤ)
    → Told sc seen
    → Told (take_pct o sc) (seen ++ opt_list o)
unfolding take_pct opt_list
take_pct-Told none sc seen h = rw (append-nil seen) h
take_pct-Told (some p) sc seen h =
    let all = larger-IsLargest sc.has_pct sc.last_pct p seen h in
    elim (Bool-cases (not sc.has_pct || not (at_least sc.last_pct p))) [
      | inl e ↦ rw e (rw e at all)
      | inr e ↦ rw e (rw e at all)
    ]

take_reset-same :
    (o : Option (Bytes × Bytes)) (sc : StatusScanner)
    → ((take_reset o sc).has_pct ≡ sc.has_pct)
      × ((take_reset o sc).last_pct ≡ sc.last_pct)
      × (((take_reset o sc).reset_time, (take_reset o sc).reset_tz)
          ≡ trimmed o (sc.reset_time, sc.reset_tz))
unfolding take_reset trimmed
take_reset-same none sc = (refl, refl, refl)
take_reset-same (some (time, zone)) sc = (refl, refl, refl)

take_pct-same :
    (o : Option ℤ) (sc : StatusScanner)
    → ((take_pct o sc).reset_time ≡ sc.reset_time) × ((take_pct o sc).reset_tz ≡ sc.reset_tz)
unfolding take_pct
take_pct-same none sc = (refl, refl)
take_pct-same (some p) sc = ground arith

scan-Told :
    (l : Bytes) (sc : StatusScanner) (seen : List ℤ)
    → Told sc seen
    → Told (scan l sc) (seen ++ opt_list (pct_of l))
unfolding scan
scan-Told l sc seen h =
    let same = take_reset-same (leftmost reset_here l) (take_pct (pct_of l) sc) in
    rw (same.0, same.1) (take_pct-Told (pct_of l) sc seen h)

scan-reset :
    (l : Bytes) (sc : StatusScanner)
    → ((scan l sc).reset_time, (scan l sc).reset_tz)
      ≡ trimmed (leftmost reset_here l) (sc.reset_time, sc.reset_tz)
unfolding scan
scan-reset l sc =
    let same = take_reset-same (leftmost reset_here l) (take_pct (pct_of l) sc) in
    let old = take_pct-same (pct_of l) sc in
    same.2
    ∙ ap (λ a. trimmed (leftmost reset_here l) (a, (take_pct (pct_of l) sc).reset_tz)) old.0
    ∙ ap (λ b. trimmed (leftmost reset_here l) (sc.reset_time, b)) old.1

scan_all-Told :
    (ls : List Bytes) (sc : StatusScanner) (seen : List ℤ)
    → Told sc seen
    → Told (scan_all ls sc) (seen ++ pcts ls)
unfolding scan_all pcts
scan_all-Told [] sc seen h = rw (append-nil seen) h
scan_all-Told (l ∷ ls) sc seen h =
    rw (← append_assoc seen (opt_list (pct_of l)) (pcts ls))
      (scan_all-Told ls (scan l sc) (seen ++ opt_list (pct_of l)) (scan-Told l sc seen h))

scan_all-reset :
    (ls : List Bytes) (sc : StatusScanner)
    → ((scan_all ls sc).reset_time, (scan_all ls sc).reset_tz)
      ≡ last_reset (sc.reset_time, sc.reset_tz) ls
unfolding scan_all last_reset
scan_all-reset [] sc = refl
scan_all-reset (l ∷ ls) sc =
    scan_all-reset ls (scan l sc) ∙ ap (λ r. last_reset r ls) (scan-reset l sc)

known-Told : (sc : StatusScanner) → Told sc (known sc)
known-Told sc = start sc.has_pct sc.last_pct
  where
    start : (b : Bool) (n : ℤ) → IsLargest b n (if b then n ∷ [] else [])
    start false n = refl
    start true n = (inl refl, (at_least_refl n, tt))

-- Behind a scan of all the rows the scanner has a percentage exactly if it had one or a row has one, and
-- it is the largest of these; its reset is the last one in the rows, trimmed, or the old one.
pub scan_all-Largest :
    (ls : List Bytes) (sc : StatusScanner)
    → IsLargest (scan_all ls sc).has_pct (scan_all ls sc).last_pct (known sc ++ pcts ls)
      × (((scan_all ls sc).reset_time, (scan_all ls sc).reset_tz)
          ≡ last_reset (sc.reset_time, sc.reset_tz) ls)
scan_all-Largest ls sc = (scan_all-Told ls sc (known sc) (known-Told sc), scan_all-reset ls sc)
