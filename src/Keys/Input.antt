-- ===== src/Keys/Input.antt =====
-- internal/screen/input.go: `IsLiveResetKey` and `ClassifyWheel`, with the two regular expressions as
-- functions, and the searches of package bytes that the dispatches call.
use claude_master_go.Base.{
  ℕ, zero, suc, ◌+◌, ◌-◌, ◌*◌, ◌/◌, ◌%◌, Bool, true, false, not, ◌&&◌, ◌||◌, Option, none, some, [],
  ◌∷◌, ◌==◌, leb, if◌then◌else◌, ◌>>=◌, Bytes, length, drop, equal, has_prefix, get_elem?, ℤ, pos,
  negsuc,
}

abbrev is_digit : ℕ → Bool
is_digit c = leb 48 c && leb c 57

-- `\d+`: the digits that a text starts with, if there are any, and what follows.
unfoldable pub span_digits : Bytes → Bytes × Bytes
span_digits [] = ([], [])
span_digits (c ∷ s) =
    let rest = span_digits s in if is_digit c then (c ∷ rest.0, rest.1) else ([], c ∷ s)

unfoldable pub some_digits : Bytes × Bytes → Option (Bytes × Bytes)
some_digits ([], s) = none
some_digits (c ∷ ds, s) = some (c ∷ ds, s)

abbrev pub digits_1 : Bytes → Option (Bytes × Bytes)
digits_1 s = some_digits (span_digits s)

-- A byte that satisfies a test, and what follows.
unfoldable pub one_of : (ℕ → Bool) → Bytes → Option Bytes
one_of f [] = none
one_of f (c ∷ s) = if f c then some s else none

-- `sgrMouseRe`: the digits of its first group.
unfoldable pub sgr_mouse : Bytes → Option Bytes
sgr_mouse s =
    if has_prefix s (27 ∷ b'[' ∷ b'<' ∷ [])
    then digits_1 (drop 3 s) >>= (λ a. one_of (λ c. c == b';') (a.1) >>= (λ s. digits_1 s >>= (λ b.
      one_of (λ c. c == b';') (b.1) >>= (λ s.
        digits_1 s >>= (λ d. one_of (λ c. c == b'M' || c == b'm') (d.1) >>= (λ s. some (a.0)))))))
    else none

abbrev in_report : ℕ → Bool
in_report c = is_digit c || c == b';' || c == b'?' || c == b'>' || c == b'='

unfoldable pub skip_report : Bytes → Bytes
skip_report [] = []
skip_report (c ∷ s) = let rest = skip_report s in if in_report c then rest else c ∷ s

-- `[Rcny]$`.
unfoldable pub is_report_end : Bytes → Bool
is_report_end (c ∷ []) = c == b'R' || c == b'c' || c == b'n' || c == b'y'
is_report_end _ = false

-- `devReportRe`.
abbrev pub is_dev_report : Bytes → Bool
is_dev_report s = has_prefix s (27 ∷ b'[' ∷ []) && is_report_end (skip_report (drop 2 s))

unfoldable pub is_some {ℓ} : {A : Type ℓ} → Option A → Bool
is_some none = false
is_some (some a) = true

unfoldable pub is_live_reset_key : Bytes → Bool
is_live_reset_key s =
    if length s == 0
    then false
    else if equal s (27 ∷ b'[' ∷ b'I' ∷ []) || equal s (27 ∷ b'[' ∷ b'O' ∷ [])
    then false
    else if has_prefix s (27 ∷ b'[' ∷ b'M' ∷ [])
    then false
    else if is_some (sgr_mouse s)
    then false
    else if has_prefix s (27 ∷ b']' ∷ []) || has_prefix s (27 ∷ b'P' ∷ [])
    then false
    else not (is_dev_report s)

-- The number of a mouse button, an int of 64 bits.
unfoldable pub button : ℕ → Bytes → ℕ
button n [] = n
button n (c ∷ s) = button ((n * 10 + (c - 48)) % 18446744073709551616) s

-- `indexOf`.
unfoldable pub index_of : Bytes → Bytes → Option ℕ
index_of [] sub = if length sub == 0 then some 0 else none
index_of (c ∷ s) sub =
    let rest = index_of s sub in
    if has_prefix (c ∷ s) sub then some 0 else rest >>= (λ i. some (suc i))

-- `int(data[i+3]) - 32`, an int of 64 bits.
unfoldable pub legacy_button : Bytes → Option ℕ
legacy_button s =
    index_of s (27 ∷ b'[' ∷ b'M' ∷ [])
    >>= (λ i. get_elem? s (i + 3))
    >>= (λ c. some ((c + 18446744073709551584) % 18446744073709551616))

-- A wheel has bit 6 and not bit 5: 0 scrolls up, 1 down.
unfoldable pub wheel : ℕ → Option ℤ
wheel cb =
    if cb / 64 % 2 == 1 && cb / 32 % 2 == 0
    then (if cb % 4 == 0 then some (negsuc 0) else if cb % 4 == 1 then some (pos 1) else none)
    else none

unfoldable pub wheel_of : Option Bytes → Bytes → Option ℤ
wheel_of (some digits) s = wheel (button 0 digits)
wheel_of none s = legacy_button s >>= wheel

abbrev pub classify_wheel : Bytes → Option ℤ
classify_wheel s = wheel_of (sgr_mouse s) s

-- `bytes.Contains`.
abbrev pub contains : Bytes → Bytes → Bool
contains s key = is_some (index_of s key)

-- `bytes.ReplaceAll(data, key, nil)`, with the bytes of an occurrence that are still to be dropped.
unfoldable pub remove_from : Bytes → ℕ → Bytes → Bytes
remove_from key skip [] = []
remove_from key (suc skip) (c ∷ s) = remove_from key skip s
remove_from key zero (c ∷ s) =
    let hit = remove_from key (length key - 1) s in
    let miss = remove_from key 0 s in if has_prefix (c ∷ s) key then hit else c ∷ miss

unfoldable pub remove_all : Bytes → Bytes → Bytes
remove_all s key = if length key == 0 then s else remove_from key 0 s

-- `dy * n` for a step n.
unfoldable pub times : ℤ → ℕ → ℤ
times (pos d) n = pos (d * n)
times (negsuc d) zero = pos 0
times (negsuc d) (suc n) = negsuc (suc d * suc n - 1)

unfoldable pub minus : ℕ → ℤ
minus zero = pos 0
minus (suc n) = negsuc n
