-- ===== src/Config/Keyspec.antt =====
-- internal/config/config.go: `ParseNavKey` and `ParseKeyOrNil`. The case mappings of package strings, which
-- follow the tables of Unicode, are parameters.
pub mod Agree
use claude_master_go.Base.{
  ℕ, suc, ◌-◌, ◌%◌, Bool, true, false, not, ◌&&◌, ◌||◌, Option, none, some, List, [], ◌∷◌, ◌==◌,
  if◌then◌else◌, ◌>>=◌, Bytes, length, equal, drop, has_prefix, ℤ, pos, negsuc,
}
use claude_master_go.Config.Number.{atoi, parse_hex}
use claude_master_go.Screen.Utf8.{rune_size, decode_rune, rune_error}
use claude_master_go.Tmux.Text.{trim_space}

-- `byte(n & 0xff)`.
unfoldable pub low_byte : ℤ → ℕ
low_byte (pos n) = n % 256
low_byte (negsuc n) = 255 - n % 256

-- `(.)$`: one rune, or one byte that begins no rune, and not a line feed.
unfoldable pub is_rune : Bytes → Bool
is_rune [] = false
is_rune (c ∷ []) = not (c == 10)
is_rune (c ∷ d ∷ s) =
    is_size (rune_size c) (length (c ∷ d ∷ s)) && not (decode_rune (c ∷ d ∷ s) == rune_error)
    || is_replacement (c ∷ d ∷ s)
  where
    is_size : Option ℕ → ℕ → Bool
    is_size none n = false
    is_size (some k) n = k == n

    is_replacement : Bytes → Bool
    is_replacement s = equal s (239 ∷ 191 ∷ 189 ∷ [])

-- `navCtrlRe`: what follows one of the three prefixes.
unfoldable pub nav_ctrl : Bytes → Option Bytes
nav_ctrl s =
    if has_prefix s (b'c' ∷ b't' ∷ b'r' ∷ b'l' ∷ b'-' ∷ []) && is_rune (drop 5 s)
    then some (drop 5 s)
    else if has_prefix s (b'c' ∷ b'-' ∷ []) && is_rune (drop 2 s)
    then some (drop 2 s)
    else if has_prefix s (b'^' ∷ []) && is_rune (drop 1 s)
    then some (drop 1 s)
    else none

module _ (lower upper : Bytes → Bytes) where
  -- `[]byte{c & 0x1f}` of the first byte.
  unfoldable pub control : Bytes → Bytes
  control [] = []
  control (c ∷ s) = c % 32 ∷ []

  abbrev pub is_hex_x : Bytes → Bool
  is_hex_x low = has_prefix low (92 ∷ b'x' ∷ [])

  abbrev pub is_hex_0x : Bytes → Bool
  is_hex_0x low = has_prefix low (b'0' ∷ b'x' ∷ [])

  unfoldable pub byte_or : Option ℤ → Bytes → Bytes
  byte_or (some n) rest = low_byte n ∷ []
  byte_or none rest = rest

  -- The key of one byte, or the default.
  unfoldable pub single_or : Bytes → Bytes → Bytes
  single_or rest (c ∷ []) = c ∷ []
  single_or rest _ = rest

  abbrev pub default_key : Bytes
  default_key = 28 ∷ []

  unfoldable pub nav_key_plain : Bytes → Bytes → Bytes
  nav_key_plain s low =
      let plain = byte_or (atoi low) (single_or default_key s) in
      if is_hex_x low || is_hex_0x low then byte_or (parse_hex (drop 2 low)) plain else plain

  unfoldable pub nav_key_of : Bytes → Bytes → Option Bytes → Bytes
  nav_key_of s low (some c) = control (upper c)
  nav_key_of s low none = nav_key_plain s low

  unfoldable pub nav_key_trimmed : Bytes → Bytes
  nav_key_trimmed [] = default_key
  nav_key_trimmed (c ∷ s) = nav_key_of (c ∷ s) (lower (c ∷ s)) (nav_ctrl (lower (c ∷ s)))

  -- `ParseNavKey`.
  abbrev pub parse_nav_key : Bytes → Bytes
  parse_nav_key spec = nav_key_trimmed (trim_space spec)

  unfoldable pub byte_or_nil : Option ℤ → Option Bytes → Option Bytes
  byte_or_nil (some n) rest = some (low_byte n ∷ [])
  byte_or_nil none rest = rest

  unfoldable pub single_or_nil : Bytes → Option Bytes
  single_or_nil (c ∷ []) = some (c ∷ [])
  single_or_nil _ = none

  unfoldable pub key_plain : Bytes → Bytes → Option Bytes
  key_plain s low =
      if is_hex_x low || is_hex_0x low
      then byte_or_nil (parse_hex (drop 2 low)) none
      else byte_or_nil (atoi low) (single_or_nil s)

  unfoldable pub key_of : Bytes → Bytes → Option Bytes → Option Bytes
  key_of s low (some c) = some (control (upper c))
  key_of s low none = key_plain s low

  unfoldable pub key_trimmed : Bytes → Option Bytes
  key_trimmed [] = none
  key_trimmed (c ∷ s) = key_of (c ∷ s) (lower (c ∷ s)) (nav_ctrl (lower (c ∷ s)))

  -- `ParseKeyOrNil`.
  abbrev pub parse_key_or_nil : Bytes → Option Bytes
  parse_key_or_nil spec = key_trimmed (trim_space spec)
