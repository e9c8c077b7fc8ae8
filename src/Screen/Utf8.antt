-- ===== src/Screen/Utf8.antt =====
-- internal/screen/vt.go, `putByte` and `decodeRune`: how many bytes a rune has, and the rune, which
-- is U+FFFD for bytes that no rune has (as Go's conversion of a string to runes says).
use claude_master_go.Base.{
  ℕ, ◌+◌, ◌*◌, ◌/◌, ◌%◌, Bool, ◌&&◌, Option, none, some, [], ◌∷◌, ◌==◌, ltb, leb, if◌then◌else◌,
  Bytes,
}

-- `n` of `putByte`; `none` where the byte begins no rune.
unfoldable pub rune_size : ℕ → Option ℕ
rune_size b =
    if ltb b 0x80
    then some 1
    else if b / 32 == 0x6
    then some 2
    else if b / 16 == 0xe
    then some 3
    else if b / 8 == 0x1e
    then some 4
    else none

abbrev pub rune_error : ℕ
rune_error = 0xfffd

abbrev is_cont : ℕ → Bool
is_cont b = b / 64 == 2

abbrev between : ℕ → ℕ → ℕ → Bool
between lo hi b = leb lo b && leb b hi

unfoldable pub decode_rune : Bytes → ℕ
decode_rune (a ∷ b ∷ []) = if leb 0xc2 a && is_cont b then a % 32 * 64 + b % 64 else rune_error
decode_rune (a ∷ b ∷ c ∷ []) =
    let lo = if a == 0xe0 then 0xa0 else 0x80 in
    let hi = if a == 0xed then 0x9f else 0xbf in
    if between lo hi b && is_cont c then a % 16 * 4096 + b % 64 * 64 + c % 64 else rune_error
decode_rune (a ∷ b ∷ c ∷ d ∷ []) =
    let lo = if a == 0xf0 then 0x90 else 0x80 in
    let hi = if a == 0xf4 then 0x8f else 0xbf in
    if leb a 0xf4 && between lo hi b && is_cont c && is_cont d
    then a % 8 * 262144 + b % 64 * 4096 + c % 64 * 64 + d % 64
    else rune_error
decode_rune _ = 0
