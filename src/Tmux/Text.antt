-- ===== src/Tmux/Text.antt =====
-- The functions of Go's `strings` package that internal/tmuxcc/protocol.go calls, on bytes.
use claude_master_go.Base.{
  ℕ, zero, suc, Bool, true, ◌&&◌, ◌||◌, Option, none, some, List, [], ◌∷◌, ◌++◌, ◌==◌, leb,
  if◌then◌else◌, Bytes,
}

abbrev pub space : ℕ
space = 32

-- `strings.TrimRight s "\r\n"`: what stands before the longest tail of these two bytes.
unfoldable pub is_eol : ℕ → Bool
is_eol b = b == 13 || b == 10

unfoldable pub all_eol : Bytes → Bool
unfolding is_eol
all_eol [] = true
all_eol (b ∷ bs) = is_eol b && all_eol bs

unfoldable pub trim_eol : Bytes → Bytes
unfolding all_eol is_eol
trim_eol [] = []
trim_eol (b ∷ bs) = let rest = trim_eol bs in if all_eol (b ∷ bs) then [] else b ∷ rest

-- What stands before the first space, and what stands behind it, if there is one.
unfoldable pub cut_space : Bytes → Bytes × Option Bytes
cut_space [] = ([], none)
cut_space (b ∷ bs) =
    let (before, after) = cut_space bs in if b == space then ([], some bs) else (b ∷ before, after)

-- How many bytes the white space at the head of a string has: 0 if its first rune is none
-- (`unicode.IsSpace`). Every such rune starts with a byte that no valid rune has further on, so that
-- a scan byte by byte finds the same ones.
is_space_1 : ℕ → Bool
is_space_1 a = a == 32 || (leb 9 a && leb a 13)

is_space_2 : ℕ → ℕ → Bool
is_space_2 a b = a == 194 && (b == 133 || b == 160)

is_space_3 : ℕ → ℕ → ℕ → Bool
is_space_3 a b c =
    (a == 225 && b == 154 && c == 128)
    || (a == 226 && b == 128 && ((leb 128 c && leb c 138) || c == 168 || c == 169 || c == 175))
    || (a == 226 && b == 129 && c == 159)
    || (a == 227 && b == 128 && c == 128)

pub space_size : Bytes → ℕ
unfolding is_space_1 is_space_2 is_space_3
space_size [] = 0
space_size (a ∷ []) = if is_space_1 a then 1 else 0
space_size (a ∷ b ∷ []) = if is_space_1 a then 1 else if is_space_2 a b then 2 else 0
space_size (a ∷ b ∷ c ∷ s) =
    if is_space_1 a then 1 else if is_space_2 a b then 2 else if is_space_3 a b c then 3 else 0

-- `strings.Fields`: `skip` is what is left of a white space, `field` the bytes of the field so far.
close_field : Bytes → List Bytes → List Bytes
close_field [] rest = rest
close_field (b ∷ bs) rest = (b ∷ bs) ∷ rest

fields_loop : ℕ → Bytes → Bytes → List Bytes
unfolding space_size close_field
fields_loop skip field [] = close_field field []
fields_loop (suc skip) field (b ∷ bs) = fields_loop skip field bs
fields_loop zero field (b ∷ bs) = elim (space_size (b ∷ bs)) [
  | zero ↦ fields_loop zero (field ++ b ∷ []) bs
  | suc more ↦ close_field field (fields_loop more [] bs)
]

unfoldable pub fields : Bytes → List Bytes
unfolding fields_loop
fields s = fields_loop zero [] s

-- `strings.TrimSpace`: the white space at the head goes, then the longest tail of white space.
trim_left : ℕ → Bytes → Bytes
unfolding space_size
trim_left skip [] = []
trim_left (suc skip) (b ∷ bs) = trim_left skip bs
trim_left zero (b ∷ bs) = elim (space_size (b ∷ bs)) [
  | zero ↦ b ∷ bs
  | suc more ↦ trim_left more bs
]

trim_right : Bytes → Bytes
unfolding fields fields_loop
trim_right [] = []
trim_right (b ∷ bs) =
    let rest = trim_right bs in elim (trim_left zero (b ∷ bs)) [ [] ↦ [] | _ ∷ _ ↦ b ∷ rest ]

unfoldable pub trim_space : Bytes → Bytes
unfolding trim_left trim_right
trim_space s = trim_right (trim_left zero s)
