-- ===== src/Screen/Csi.antt =====
-- internal/screen/vt.go, `params`, `arg` and `csi`: the control sequences. An int is its bit pattern
-- below 2 ^ 64, so that a parameter of twenty digits, and a sum that leaves the signed range, wrap
-- as they do in the source.
pub mod Bounds
use claude_master_go.Base.{
  ℕ, ◌+◌, ◌-◌, ◌*◌, ◌%◌, ◌^◌, Bool, true, false, not, ◌&&◌, ◌||◌, Option, none, some, List, [], ◌∷◌,
  ◌>>=◌, ◌==◌, ltb, leb, if◌then◌else◌, Bytes, get_elem?, map,
}
use claude_master_go.Screen.Style.{sgr}
use claude_master_go.Screen.Vt.{Vt, erase_line, erase_display}

abbrev pub word : ℕ
word = 2 ^ 64

-- The bit patterns of the negative ints.
abbrev pub is_negative : ℕ → Bool
is_negative n = leb (2 ^ 63) n

abbrev add_int : ℕ → ℕ → ℕ
add_int a b = (a + b) % word

abbrev sub_int : ℕ → ℕ → ℕ
sub_int a b = (a + word - b) % word

-- `strings.Split` at one byte.
abbrev cons_head : ℕ → List Bytes → List Bytes
cons_head c [] = (c ∷ []) ∷ []
cons_head c (p ∷ ps) = (c ∷ p) ∷ ps

pub split_on : ℕ → Bytes → List Bytes
split_on b [] = [] ∷ []
split_on b (c ∷ cs) = let parts = split_on b cs in if c == b then [] ∷ parts else cons_head c parts

-- The number of a run of digits.
pub number : ℕ → Bytes → ℕ
number n [] = n
number n (c ∷ cs) = number ((n * 10 + (c - b'0')) % word) cs

unfoldable pub params : Bytes → List ℕ
unfolding split_on number
params [] = []
params (c ∷ cs) = map (number 0) (split_on b';' (c ∷ cs))

unfoldable pub arg : List ℕ → ℕ → ℕ → ℕ
arg ps i def = elim (get_elem? ps i) [
  | none ↦ def
  | some n ↦ if not (n == 0) then n else if n == 0 && def == 0 then 0 else def
]

unfoldable pub arg_or_0 : List ℕ → ℕ
arg_or_0 [] = 0
arg_or_0 (n ∷ _) = n

-- `clampCursor` for one coordinate.
unfoldable pub clamp : ℕ → ℕ → ℕ
clamp size x = let y = if is_negative x then 0 else x in if leb size y then size - 1 else y

unfoldable pub clamp_cursor : Vt → Vt
unfolding clamp
clamp_cursor v = record v { cx = clamp v.cols v.cx; cy = clamp v.rows v.cy }

-- `case 'r'`: the margins, as they are given.
abbrev is_positive : ℕ → Bool
is_positive n = ltb 0 n && not (is_negative n)

margins : List ℕ → Vt → Vt
margins (t ∷ b ∷ _) v =
    let u =
      if is_positive t && is_positive b
      then record v { top = t - 1; bot = b - 1 }
      else record v { top = 0; bot = v.rows - 1 } in
    record u { cx = 0; cy = u.top }
margins _ v = record v { top = 0; bot = v.rows - 1; cx = 0; cy = 0 }

-- The loop over the parameters of a mode sequence, which looks for 2026.
has_sync : List ℕ → Bool
has_sync [] = false
has_sync (p ∷ ps) = p == 2026 || has_sync ps

set_mode : Bool → List ℕ → Vt → Vt
unfolding has_sync
set_mode on ps v = if v.csi_pv && has_sync ps then record v { sync_active = on } else v

-- The cases of `csi` that move the cursor, set the margins, the pen or a mode. The finals are
-- distinct bytes, so that the order of the cases does not matter.
pub move : ℕ → List ℕ → Vt → Vt
unfolding margins set_mode
move final ps v =
    if final == b'A'
    then record v { cy = sub_int v.cy (arg ps 0 1) }
    else if final == b'B'
    then record v { cy = add_int v.cy (arg ps 0 1) }
    else if final == b'C'
    then record v { cx = add_int v.cx (arg ps 0 1) }
    else if final == b'D'
    then record v { cx = sub_int v.cx (arg ps 0 1) }
    else if final == b'G'
    then record v { cx = sub_int (arg ps 0 1) 1 }
    else if final == b'd'
    then record v { cy = sub_int (arg ps 0 1) 1 }
    else if final == b'H' || final == b'f'
    then record v { cy = sub_int (arg ps 0 1) 1; cx = sub_int (arg ps 1 1) 1 }
    else if final == b'r'
    then (if v.csi_pv then v else margins ps v)
    else if final == b'm'
    then record v { pen = sgr v.pen ps }
    else if final == b'h'
    then set_mode true ps v
    else if final == b'l'
    then set_mode false ps v
    else v

-- The switch of `csi` on the final byte.
unfoldable pub dispatch : ℕ → List ℕ → Vt → Option Vt
unfolding move
dispatch final ps v =
    if final == b'J'
    then erase_display (arg_or_0 ps) v
    else if final == b'K'
    then erase_line (arg_or_0 ps) v
    else some (move final ps v)

unfoldable pub csi : ℕ → Vt → Option Vt
unfolding dispatch
csi final v = do
  u ← dispatch final (params v.parm) v
  some (clamp_cursor (record u { wrap = false }))
