-- ===== src/Screen/Style.antt =====
-- internal/screen/vt.go: colours, cells and the pen (`color`, `style`, `cell`, `sgr`, `colorExt`).
-- A `color` is the number of the source's uint32, and a parameter an int of 64 bits, as its bit
-- pattern below 2 ^ 64.
use claude_master_go.Base.{
  ℕ, zero, suc, ◌+◌, ◌-◌, ◌*◌, ◌%◌, ◌^◌, Bool, true, false, ◌&&◌, List, [], ◌∷◌, ◌==◌, leb,
  if◌then◌else◌, length,
}

abbrev pub col_default : ℕ
col_default = 0

-- `color(i + 1)`, in 32 bits.
abbrev pub pal_color : ℕ → ℕ
pal_color i = (i + 1) % 2 ^ 32

-- The three bytes do not overlap, so that the alternation of the source is a sum.
abbrev pub rgb_color : ℕ → ℕ → ℕ → ℕ
rgb_color r g b = 0x1000000 + (r * 65536 + g * 256 + b)

pub record Style : Type 0 where
  pub fg : ℕ
  pub bg : ℕ
  pub bold : Bool
  pub italic : Bool
  pub under : Bool
  pub reverse : Bool

abbrev pub plain : Style
plain = record {
  fg = col_default;
  bg = col_default;
  bold = false;
  italic = false;
  under = false;
  reverse = false;
}

-- `r` is 0 for an empty cell; `cont` marks the right half of a wide rune.
pub record Cell : Type 0 where
  pub r : ℕ
  pub cont : Bool
  pub st : Style

abbrev pub empty_cell : Cell
empty_cell = record { r = 0; cont = false; st = plain }

truecolor : List ℕ → ℕ × ℕ
truecolor (r ∷ g ∷ b ∷ _) = (4, rgb_color (r % 256) (g % 256) (b % 256))
truecolor others = (suc (length others), col_default)

palette : List ℕ → ℕ × ℕ
palette (n ∷ _) = (2, pal_color n)
palette [] = (1, col_default)

-- `colorExt` on the parameters behind the 38 or 48: how many of them it uses up, and the colour.
color_ext : List ℕ → ℕ × ℕ
unfolding truecolor palette
color_ext [] = (0, col_default)
color_ext (m ∷ rest) =
    if m == 2 then truecolor rest else if m == 5 then palette rest else (1, col_default)

abbrev between : ℕ → ℕ → ℕ → Bool
between lo hi n = leb lo n && leb n hi

-- One round of the loop of `sgr`: the pen behind it, and how many parameters it uses up besides.
sgr_one : Style → ℕ → List ℕ → Style × ℕ
unfolding color_ext
sgr_one pen n rest =
    let (used, c) = color_ext rest in
    if n == 0
    then (plain, 0)
    else if n == 1
    then (record pen { bold = true }, 0)
    else if n == 3
    then (record pen { italic = true }, 0)
    else if n == 4
    then (record pen { under = true }, 0)
    else if n == 7
    then (record pen { reverse = true }, 0)
    else if n == 22
    then (record pen { bold = false }, 0)
    else if n == 23
    then (record pen { italic = false }, 0)
    else if n == 24
    then (record pen { under = false }, 0)
    else if n == 27
    then (record pen { reverse = false }, 0)
    else if between 30 37 n
    then (record pen { fg = pal_color (n - 30) }, 0)
    else if n == 38
    then (record pen { fg = c }, used)
    else if n == 39
    then (record pen { fg = col_default }, 0)
    else if between 40 47 n
    then (record pen { bg = pal_color (n - 40) }, 0)
    else if n == 48
    then (record pen { bg = c }, used)
    else if n == 49
    then (record pen { bg = col_default }, 0)
    else if between 90 97 n
    then (record pen { fg = pal_color (n - 90 + 8) }, 0)
    else if between 100 107 n
    then (record pen { bg = pal_color (n - 100 + 8) }, 0)
    else (pen, 0)

sgr_loop : Style → ℕ → List ℕ → Style
sgr_loop pen k [] = pen
sgr_loop pen (suc k) (n ∷ rest) = sgr_loop pen k rest
sgr_loop pen zero (n ∷ rest) = let (pen', used) = sgr_one pen n rest in sgr_loop pen' used rest

-- `sgr`: no parameter resets the pen.
unfoldable pub sgr : Style → List ℕ → Style
unfolding sgr_loop sgr_one
sgr pen [] = plain
sgr pen (n ∷ rest) = sgr_loop pen 0 (n ∷ rest)
