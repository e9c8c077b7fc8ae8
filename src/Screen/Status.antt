-- ===== src/Screen/Status.antt =====
-- internal/screen/status.go: what the rows of the screen tell of the usage and of a running task, read by
-- `ExtractUsage` and `IsActive`. The regular expressions are functions; a `\s` of theirs is one of five
-- bytes, and each has at most one way to match at a place.
pub mod Largest
pub mod Bottom
use claude_master_go.Base.{
  ℕ, zero, suc, ◌-◌, ◌==◌, leb, Bool, true, false, not, ◌&&◌, ◌||◌, Option, none, some, List, [],
  ◌∷◌, ◌++◌, if◌then◌else◌, ◌>>=◌, Bytes, is_empty, has_prefix, length, take, drop, get_elem?, ℤ,
  pos, at_least,
}
use claude_master_go.Config.Number.{atoi}
use claude_master_go.Tmux.Text.{trim_space}
use claude_master_go.Keys.Input.{contains}
use claude_master_go.Screen.Vt.{Vt}
use claude_master_go.Screen.Text.{visible_lines, history_lines}

abbrev pub used_word : Bytes
used_word = b'u' ∷ b's' ∷ b'e' ∷ b'd' ∷ []

abbrev pub of_word : Bytes
of_word = b'o' ∷ b'f' ∷ []

abbrev pub your_word : Bytes
your_word = b'y' ∷ b'o' ∷ b'u' ∷ b'r' ∷ []

abbrev pub session_word : Bytes
session_word = b's' ∷ b'e' ∷ b's' ∷ b's' ∷ b'i' ∷ b'o' ∷ b'n' ∷ []

abbrev pub limit_word : Bytes
limit_word = b'l' ∷ b'i' ∷ b'm' ∷ b'i' ∷ b't' ∷ []

abbrev pub resets_word : Bytes
resets_word = b'r' ∷ b'e' ∷ b's' ∷ b'e' ∷ b't' ∷ b's' ∷ []

abbrev pub am_word : Bytes
am_word = b'a' ∷ b'm' ∷ []

abbrev pub pm_word : Bytes
pm_word = b'p' ∷ b'm' ∷ []

abbrev pub ellipsis : Bytes
ellipsis = 226 ∷ 128 ∷ 166 ∷ []

-- A part of a pattern: what is left of the text behind it, if it matches.
unfoldable pub literal : Bytes → Bytes → Option Bytes
literal p s = if has_prefix s p then some (drop (length p) s) else none

-- `\s*` and `\s+`.
unfoldable pub is_blank : ℕ → Bool
is_blank c = c == 32 || (c == 9 || (c == 10 || (c == 12 || c == 13)))

unfoldable pub skip_blanks : Bytes → Bytes
skip_blanks [] = []
skip_blanks (c ∷ s) = let rest = skip_blanks s in if is_blank c then rest else c ∷ s

unfoldable pub blanks : Bytes → Option Bytes
blanks [] = none
blanks (c ∷ s) = if is_blank c then some (skip_blanks s) else none

-- `\d`, `\d+` and the optional digit of `\d{1,2}`.
unfoldable pub is_figure : ℕ → Bool
is_figure c = leb b'0' c && leb c b'9'

unfoldable pub figure : Bytes → Option Bytes
figure [] = none
figure (c ∷ s) = if is_figure c then some s else none

unfoldable pub skip_figures : Bytes → Bytes
skip_figures [] = []
skip_figures (c ∷ s) = let rest = skip_figures s in if is_figure c then rest else c ∷ s

unfoldable pub or_same : Bytes → Option Bytes → Bytes
or_same s none = s
or_same s (some r) = r

unfoldable pub optional : (Bytes → Option Bytes) → Bytes → Bytes
optional m s = or_same s (m s)

-- What was matched between a text and what is left of it.
unfoldable pub matched : Bytes → Bytes → Bytes
matched s rest = take (length s - length rest) s

unfoldable pub word : Bytes → Bytes → Option Bytes
word w s = blanks s >>= literal w

-- `usageRe` at a place: the digits.
unfoldable pub usage_here : Bytes → Option Bytes
usage_here s = literal used_word s >>= (λ a. blanks a >>= (λ b. figure b >>= (λ c.
    let e = skip_figures c in
    literal (b'%' ∷ []) e >>= (λ g. word of_word g >>= (λ h.
      word your_word h
      >>= (λ i. word session_word i >>= (λ j. word limit_word j >>= (λ k. some (matched b e)))))))))

-- `\d{1,2}(?::\d{2})?\s*(?:am|pm)`.
unfoldable pub minutes : Bytes → Option Bytes
minutes s = literal (b':' ∷ []) s >>= (λ a. figure a >>= figure)

unfoldable pub half_day : Bytes → Option Bytes
half_day s = if has_prefix s am_word then literal am_word s else literal pm_word s

unfoldable pub time_here : Bytes → Option Bytes
time_here s = figure s >>= (λ a. half_day (skip_blanks (optional minutes (optional figure a))))

-- `[^)]`, as far as it goes.
unfoldable pub skip_inner : Bytes → Bytes
skip_inner [] = []
skip_inner (c ∷ s) = let rest = skip_inner s in if c == b')' then c ∷ s else rest

unfoldable pub inner : Bytes → Option Bytes
inner [] = none
inner (c ∷ s) = if c == b')' then none else some (skip_inner s)

-- `resetRe` at a place: the time and the zone.
unfoldable pub reset_here : Bytes → Option (Bytes × Bytes)
reset_here s = literal resets_word s >>= (λ a. blanks a >>= (λ b. time_here b >>= (λ c.
    literal (b'(' ∷ []) (skip_blanks c) >>= (λ e.
      inner e >>= (λ g. literal (b')' ∷ []) g >>= (λ h. some (matched b c, matched e g)))))))

-- The leftmost match.
unfoldable pub or_first {ℓ} : {A : Type ℓ} → Option A → Option A → Option A
or_first none o = o
or_first (some a) o = some a

unfoldable pub leftmost {ℓ} : {A : Type ℓ} → (Bytes → Option A) → Bytes → Option A
leftmost m [] = m []
leftmost m (c ∷ s) = or_first (m (c ∷ s)) (leftmost m s)

-- `StatusScanner`.
pub record StatusScanner : Type 0 where
  pub last_pct : ℤ
  pub has_pct : Bool
  pub reset_time : Bytes
  pub reset_tz : Bytes

abbrev pub new_status_scanner : StatusScanner
new_status_scanner = record { last_pct = pos 0; has_pct = false; reset_time = []; reset_tz = [] }

-- The percentage of a row, if it has one that is a number.
unfoldable pub pct_of : Bytes → Option ℤ
pct_of text = leftmost usage_here text >>= atoi

unfoldable pub take_pct : Option ℤ → StatusScanner → StatusScanner
take_pct none sc = sc
take_pct (some p) sc =
    if not sc.has_pct || not (at_least sc.last_pct p)
    then record sc { last_pct = p; has_pct = true }
    else sc

unfoldable pub take_reset : Option (Bytes × Bytes) → StatusScanner → StatusScanner
take_reset none sc = sc
take_reset (some (time, zone)) sc = record sc {
  reset_time = trim_space time;
  reset_tz = trim_space zone;
}

-- The closure `scan`, and its two loops as one over all the rows.
unfoldable pub scan : Bytes → StatusScanner → StatusScanner
scan text sc = take_reset (leftmost reset_here text) (take_pct (pct_of text) sc)

unfoldable pub scan_all : List Bytes → StatusScanner → StatusScanner
scan_all [] sc = sc
scan_all (l ∷ ls) sc = scan_all ls (scan l sc)

-- The results of `ExtractUsage`, of which `any` tells whether there is one.
pub record Usage : Type 0 where
  pub pct : ℤ
  pub has_pct : Bool
  pub reset_time : Bytes
  pub reset_tz : Bytes
  pub any : Bool

unfoldable pub usage_of : StatusScanner → Usage
usage_of sc = record {
  pct = if sc.has_pct then sc.last_pct else pos 0;
  has_pct = sc.has_pct;
  reset_time = sc.reset_time;
  reset_tz = if is_empty sc.reset_time then [] else sc.reset_tz;
  any = sc.has_pct || not (is_empty sc.reset_time);
}

-- `ExtractUsage`; `none` is a row out of range, on which the source panics.
unfoldable pub extract_usage : Vt → StatusScanner → Option (StatusScanner × Usage)
extract_usage v sc =
    visible_lines v
    >>= (λ vis. let next = scan_all (history_lines v ++ vis) sc in some (next, usage_of next))

-- The runes of `activePrefixChars`, in UTF-8.
abbrev pub active_prefixes : List Bytes
active_prefixes =
    (226 ∷ 156 ∷ 187 ∷ [])
    ∷ (226 ∷ 156 ∷ 189 ∷ [])
    ∷ (226 ∷ 156 ∷ 182 ∷ [])
    ∷ (226 ∷ 156 ∷ 183 ∷ [])
    ∷ (226 ∷ 156 ∷ 184 ∷ [])
    ∷ (226 ∷ 156 ∷ 185 ∷ [])
    ∷ (226 ∷ 156 ∷ 186 ∷ [])
    ∷ (226 ∷ 156 ∷ 162 ∷ [])
    ∷ (226 ∷ 156 ∷ 163 ∷ [])
    ∷ (226 ∷ 156 ∷ 164 ∷ [])
    ∷ (226 ∷ 156 ∷ 165 ∷ [])
    ∷ (226 ∷ 156 ∷ 166 ∷ [])
    ∷ (226 ∷ 156 ∷ 167 ∷ [])
    ∷ (226 ∷ 156 ∷ 169 ∷ [])
    ∷ (226 ∷ 156 ∷ 170 ∷ [])
    ∷ (226 ∷ 156 ∷ 171 ∷ [])
    ∷ (226 ∷ 156 ∷ 172 ∷ [])
    ∷ (226 ∷ 156 ∷ 173 ∷ [])
    ∷ (226 ∷ 156 ∷ 174 ∷ [])
    ∷ (226 ∷ 156 ∷ 175 ∷ [])
    ∷ (226 ∷ 156 ∷ 176 ∷ [])
    ∷ (226 ∷ 156 ∷ 177 ∷ [])
    ∷ (226 ∷ 156 ∷ 178 ∷ [])
    ∷ (226 ∷ 156 ∷ 179 ∷ [])
    ∷ (226 ∷ 156 ∷ 180 ∷ [])
    ∷ (226 ∷ 156 ∷ 181 ∷ [])
    ∷ (194 ∷ 183 ∷ [])
    ∷ (226 ∷ 143 ∷ 186 ∷ [])
    ∷ []

abbrev pub active_keywords : List Bytes
active_keywords =
    (b'e' ∷ b's' ∷ b'c' ∷ b' ' ∷ b't' ∷ b'o' ∷ b' ' ∷ b'i' ∷ b'n' ∷ b't' ∷ b'e' ∷ b'r' ∷ b'r' ∷ b'u'
      ∷ b'p' ∷ b't' ∷ [])
    ∷ (b'D' ∷ b'o' ∷ b' ' ∷ b'y' ∷ b'o' ∷ b'u' ∷ b' ' ∷ b'w' ∷ b'a' ∷ b'n' ∷ b't' ∷ b' ' ∷ b't'
        ∷ b'o' ∷ b' ' ∷ b'p' ∷ b'r' ∷ b'o' ∷ b'c' ∷ b'e' ∷ b'e' ∷ b'd' ∷ b'?' ∷ [])
    ∷ (b'a' ∷ b'c' ∷ b'c' ∷ b'e' ∷ b'p' ∷ b't' ∷ b' ' ∷ b'e' ∷ b'd' ∷ b'i' ∷ b't' ∷ b's' ∷ [])
    ∷ (b'd' ∷ b'o' ∷ b'n' ∷ 39 ∷ b't' ∷ b' ' ∷ b'a' ∷ b's' ∷ b'k' ∷ b' ' ∷ b'a' ∷ b'g' ∷ b'a' ∷ b'i'
        ∷ b'n' ∷ b' ' ∷ b'f' ∷ b'o' ∷ b'r' ∷ b':' ∷ [])
    ∷ []

unfoldable pub starts_with : Bytes → List Bytes → Bool
starts_with s [] = false
starts_with s (p ∷ ps) = has_prefix s p || starts_with s ps

unfoldable pub has_keyword : Bytes → List Bytes → Bool
has_keyword s [] = false
has_keyword s (k ∷ ks) = contains s k || has_keyword s ks

-- `transientTailRe` at a place, and anywhere.
unfoldable pub is_end : Option Bytes → Bool
is_end none = false
is_end (some s) = is_empty (skip_blanks s)

unfoldable pub bracket : Bytes → Option Bytes
bracket s = literal (b'(' ∷ []) s >>= (λ a. literal (b')' ∷ []) (skip_inner a))

unfoldable pub tail_here : Bytes → Bool
tail_here s = is_end (literal ellipsis s >>= (λ a. some (optional bracket (skip_blanks a))))

unfoldable pub has_tail : Bytes → Bool
has_tail [] = false
has_tail (c ∷ s) = tail_here (c ∷ s) || has_tail s

-- The body of the loop of `IsActive`.
unfoldable pub is_active_row : Bytes → Bool
is_active_row row =
    let text = trim_space row in
    not (is_empty text)
    && (starts_with text active_prefixes || (has_tail text || has_keyword text active_keywords))

unfoldable pub is_active_at : Option Bytes → Bool
is_active_at none = false
is_active_at (some row) = is_active_row row

-- Its loop: at most `left` rows from the row above `y` upwards.
unfoldable pub is_active_above : ℕ → ℕ → List Bytes → Bool
is_active_above zero y vis = false
is_active_above (suc left) zero vis = false
is_active_above (suc left) (suc y) vis =
    is_active_at (get_elem? vis y) || is_active_above left y vis

unfoldable pub is_active_text : List Bytes → Bool
is_active_text vis = is_active_above 6 (length vis) vis

-- `IsActive`.
unfoldable pub is_active : Vt → Option Bool
is_active v = visible_lines v >>= (λ vis. some (is_active_text vis))
