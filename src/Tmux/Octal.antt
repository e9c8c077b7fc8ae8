-- ===== src/Tmux/Octal.antt =====
-- `DecodeOctalEscapes` of internal/tmuxcc/protocol.go, and internal/tmuxcc/input.go.
pub mod RoundTrip
use claude_master_go.Base.{
  ℕ, zero, suc, ◌+◌, ◌-◌, ◌*◌, ◌/◌, ◌%◌, Bool, true, false, ◌&&◌, ◌||◌, List, [], ◌∷◌, ◌++◌, ◌==◌,
  ltb, leb, if◌then◌else◌, Bytes,
}

pub data Error : Type 0 where
  missing_data : Error
  trailing_backslash : Error
  incomplete_octal : Error
  bad_octal : Bytes → Error

pub data Result {ℓ} (A : Type ℓ) : Type ℓ where
  failed : Error → Result A
  done : A → Result A

abbrev pub backslash : ℕ
backslash = 92

-- What is decoded, behind what is decoded before it.
unfoldable pub prepend : Bytes → Result Bytes → Result Bytes
prepend xs (failed e) = failed e
prepend xs (done ys) = done (xs ++ ys)

unfoldable pub is_octal : ℕ → Bool
is_octal c = leb 48 c && leb c 55

-- `byte(o)` of the number that `ParseUint` reads in base 8.
unfoldable pub octal_byte : ℕ → ℕ → ℕ → ℕ
octal_byte c d e = ((c - 48) * 64 + (d - 48) * 8 + (e - 48)) % 256

-- What follows a backslash: the bytes that it stands for, and by how much `i` moves on.
unfoldable pub escape_digits : ℕ → Bytes → Result (Bytes × ℕ)
escape_digits c (d ∷ e ∷ s) =
    if is_octal d && is_octal e
    then done (octal_byte c d e ∷ [], 3)
    else failed (bad_octal (backslash ∷ c ∷ d ∷ e ∷ []))
escape_digits c _ = failed incomplete_octal

unfoldable pub escape : Bytes → Result (Bytes × ℕ)
escape [] = failed trailing_backslash
escape (c ∷ s) =
    if c == backslash
    then done (backslash ∷ [], 1)
    else if is_octal c
    then escape_digits c s
    else done (backslash ∷ c ∷ [], 1)

-- The loop; `skip` is how many of the bytes at the head `i` has moved over.
unfoldable pub decode_loop : ℕ → Bytes → Result Bytes
decode_loop skip [] = done []
decode_loop (suc skip) (c ∷ s) = decode_loop skip s
decode_loop zero (c ∷ s) = elim (c == backslash) [
  | false ↦ prepend (c ∷ []) (decode_loop zero s)
  | true ↦ elim (escape s) [ failed e ↦ failed e | done r ↦ prepend r.0 (decode_loop r.1 s) ]
]

abbrev pub decode_octal_escapes : Bytes → Result Bytes
decode_octal_escapes s = decode_loop zero s

-- `\%03o` of a byte.
abbrev pub octal_escape : ℕ → Bytes
octal_escape c = backslash ∷ (48 + c / 64) ∷ (48 + c / 8 % 8) ∷ (48 + c % 8) ∷ []

unfoldable pub octal_escapes : Bytes → Bytes
octal_escapes [] = []
octal_escapes (c ∷ data') = octal_escape c ++ octal_escapes data'

-- The words `send-keys -t `, ` -l "` and the closing quote.
abbrev pub send_keys : Bytes
send_keys = 115 ∷ 101 ∷ 110 ∷ 100 ∷ 45 ∷ 107 ∷ 101 ∷ 121 ∷ 115 ∷ 32 ∷ 45 ∷ 116 ∷ 32 ∷ []

abbrev pub literal_flag : Bytes
literal_flag = 32 ∷ 45 ∷ 108 ∷ 32 ∷ 34 ∷ []

unfoldable pub encode_send_keys_literal : Bytes → Bytes → Bytes
encode_send_keys_literal target keys =
    send_keys ++ target ++ literal_flag ++ octal_escapes keys ++ 34 ∷ []
