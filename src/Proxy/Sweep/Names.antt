-- ===== src/Proxy/Sweep/Names.antt =====
-- The process id that the name of a file has before a suffix (`extractPID`, internal/diag/sweep.go).
use claude_master_go.Base.{
  ℕ, zero, suc, ◌-◌, ◌≡◌, ◌≢◌, refl, sym, ap, ◌∙◌, inl, inr, true, false, some, List, [], ◌∷◌, ◌++◌,
  leb, Bytes, equal, equal_refl, equal→eq, length, take, drop, take-append, take-length,
  drop-append, drop-length, length-append, take-append-drop, pos, ℤ, negsuc, Bool-cases, arith,
  >>=-eq-some, some-holds,
}
use claude_master_go.Config.Number.{atoi}
use claude_master_go.Proxy.Idle.{positive_pid}
use claude_master_go.Proxy.Sweep.{has_suffix, extract_pid}

-- A name is a positive number in front of the first of the suffixes that it ends in.
pub data Names (name : Bytes) : List Bytes → ℕ → Type 0 where
  here :
      {suf : Bytes} {sufs : List Bytes} {n : ℕ} (stem : Bytes)
      → name ≡ stem ++ suf
      → atoi stem ≡ some (pos (suc n))
      → Names name (suf ∷ sufs) (suc n)
  later :
      {suf : Bytes} {sufs : List Bytes} {pid : ℕ}
      → ((stem : Bytes) → name ≢ stem ++ suf)
      → Names name sufs pid
      → Names name (suf ∷ sufs) pid

stem_length : (stem suf : Bytes) → length (stem ++ suf) - length suf ≡ length stem
stem_length stem suf = omega (arith, length-append stem suf)

take-stem : (stem suf : Bytes) → take (length (stem ++ suf) - length suf) (stem ++ suf) ≡ stem
take-stem stem suf =
    ap (λ k. take k (stem ++ suf)) (stem_length stem suf)
    ∙ take-append (length stem) stem suf (omega arith)
    ∙ take-length stem

has_suffix-append : (stem suf : Bytes) → has_suffix (stem ++ suf) suf ≡ true
unfolding has_suffix
has_suffix-append stem suf =
    let tail : drop (length (stem ++ suf) - length suf) (stem ++ suf) ≡ suf =
      ap (λ k. drop k (stem ++ suf)) (stem_length stem suf)
      ∙ drop-append (length stem) stem suf (omega arith)
      ∙ ap (λ b. b ++ suf) (drop-length stem) in
    let long : leb (length suf) (length (stem ++ suf)) ≡ true =
      ground (arith, length-append stem suf) in
    rw (tail, long) (equal_refl suf)

has_suffix-stem :
    (name suf : Bytes)
    → has_suffix name suf ≡ true
    → name ≡ take (length name - length suf) name ++ suf
unfolding has_suffix
has_suffix-stem name suf h =
    let tail : equal (drop (length name - length suf) name) suf ≡ true = ground arith in
    sym (take-append-drop (length name - length suf) name)
    ∙ ap (λ b. take (length name - length suf) name ++ b) (equal→eq _ _ tail)

no_stem : (name suf : Bytes) → has_suffix name suf ≡ false → (stem : Bytes) → name ≢ stem ++ suf
no_stem name suf h stem e =
    let t : has_suffix name suf ≡ true = rw e (has_suffix-append stem suf) in cc (h, t)

positive-some :
    (z : ℤ) (pid : ℕ) → positive_pid z ≡ some pid → (n : ℕ) × (z ≡ pos (suc n)) × (pid ≡ suc n)
unfolding positive_pid
positive-some (pos zero) pid h = cc h
positive-some (pos (suc n)) pid h = (n, refl, some-holds (λ p. p ≡ suc n) (suc n) pid h refl)
positive-some (negsuc n) pid h = cc h

pub extract_pid-Names :
    (name : Bytes) (sufs : List Bytes) (pid : ℕ)
    → extract_pid name sufs ≡ some pid
    → Names name sufs pid
unfolding extract_pid
extract_pid-Names name [] pid h = cc h
extract_pid-Names name (suf ∷ sufs) pid h = elim (Bool-cases (has_suffix name suf)) [
  | inl y ↦
      let read =
        >>=-eq-some (atoi (take (length name - length suf) name)) positive_pid (simp y at h) in
      let found = positive-some read.0 pid read.2 in
      rw found.2 (
        Names.here (take (length name - length suf) name) (has_suffix-stem name suf y)
          (read.1 ∙ ap some found.1))
  | inr n ↦ Names.later (no_stem name suf n) (extract_pid-Names name sufs pid (simp n at h))
]

pub Names-extract_pid :
    (name : Bytes) (sufs : List Bytes) (pid : ℕ)
    → Names name sufs pid
    → extract_pid name sufs ≡ some pid
unfolding extract_pid positive_pid
Names-extract_pid name [] pid x = elim x [ ]
Names-extract_pid name (suf ∷ sufs) pid (Names.here stem e reads) =
    rw (e, has_suffix-append stem suf, take-stem stem suf, reads) refl
Names-extract_pid name (suf ∷ sufs) pid (Names.later apart ns) =
    elim (Bool-cases (has_suffix name suf)) [
      | inl y ↦ absurd (apart (take (length name - length suf) name) (has_suffix-stem name suf y))
      | inr n ↦ rw n (Names-extract_pid name sufs pid ns)
    ]

pub Names-has_suffix :
    (name suf : Bytes) (pid : ℕ) → Names name (suf ∷ []) pid → has_suffix name suf ≡ true
Names-has_suffix name suf pid (Names.here stem e reads) = rw e (has_suffix-append stem suf)
Names-has_suffix name suf pid (Names.later apart ns) = elim ns [ ]
