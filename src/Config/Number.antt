-- ===== src/Config/Number.antt =====
-- The numbers of package strconv that the settings and the layouts use: `Atoi`, and `ParseInt` in base 16
-- with 32 bits.
use claude_master_go.Base.{
  ℕ, zero, suc, ◌+◌, ◌-◌, ◌*◌, ◌&&◌, Option, none, some, [], ◌∷◌, ltb, leb, if◌then◌else◌, Bytes, ℤ,
  pos, negsuc,
}

-- The value of a digit, in either case of its letters.
unfoldable pub digit : ℕ → Option ℕ
digit c =
    if leb b'0' c && leb c b'9'
    then some (c - 48)
    else if leb b'a' c && leb c b'z'
    then some (c - 87)
    else if leb b'A' c && leb c b'Z'
    then some (c - 55)
    else none

unfoldable pub add_digit : ℕ → ℕ → Option ℕ → Option ℕ
add_digit base n none = none
add_digit base n (some d) = if ltb d base then some (n * base + d) else none

unfoldable pub digits_from : ℕ → Option ℕ → Bytes → Option ℕ
digits_from base none s = none
digits_from base (some n) [] = some n
digits_from base (some n) (c ∷ s) = digits_from base (add_digit base n (digit c)) s

unfoldable pub magnitude : ℕ → Bytes → Option ℕ
magnitude base [] = none
magnitude base (c ∷ s) = digits_from base (some 0) (c ∷ s)

-- The range: below the limit, and the limit itself with a minus sign.
unfoldable pub positive : ℕ → Option ℕ → Option ℤ
positive limit none = none
positive limit (some n) = if ltb n limit then some (pos n) else none

unfoldable pub negative : ℕ → Option ℕ → Option ℤ
negative limit none = none
negative limit (some zero) = some (pos 0)
negative limit (some (suc n)) = if ltb n limit then some (negsuc n) else none

unfoldable pub parse_int : ℕ → ℕ → Bytes → Option ℤ
parse_int base limit [] = none
parse_int base limit (c ∷ s) =
    if leb c b'+' && leb b'+' c
    then positive limit (magnitude base s)
    else if leb c b'-' && leb b'-' c
    then negative limit (magnitude base s)
    else positive limit (magnitude base (c ∷ s))

abbrev pub atoi : Bytes → Option ℤ
atoi = parse_int 10 9223372036854775808

abbrev pub parse_hex : Bytes → Option ℤ
parse_hex = parse_int 16 2147483648
