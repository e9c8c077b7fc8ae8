-- ===== src/Tmux/Octal/RoundTrip.antt =====
-- Decoding gives back what was escaped: internal/tmuxcc/protocol.go and input.go.
use claude_master_go.Base.{
  ℕ, zero, ◌+◌, ◌/◌, ◌%◌, ◌≤◌, ◌<◌, ◌≢◌, ◌⊎◌, ap, inl, inr, ◌≡◌, refl, ◌∙◌, true, false, [], ◌∷◌,
  ◌++◌, arith, ◌==◌, ltb, leb, if◌then◌else◌, Bytes,
}
use claude_master_go.Tmux.Octal.{
  done, prepend, backslash, is_octal, octal_byte, escape, escape_digits, decode_loop,
  decode_octal_escapes, octal_escape, octal_escapes,
}

-- Every byte of a text is such a one.
pub data All (P : ℕ → Type 0) : Bytes → Type 0 where
  nil : All P []
  cons : {c : ℕ} {s : Bytes} → P c → All P s → All P (c ∷ s)

abbrev pub AllByte : Bytes → Type 0
AllByte = All (λ c. c < 256)

digit-is_octal : (k : ℕ) → k < 8 → is_octal (48 + k) ≡ true
unfolding is_octal
digit-is_octal k h = ground arith

not_backslash : (k : ℕ) → k < 8 → (48 + k == backslash) ≡ false
not_backslash k h = ground arith

octal_byte-escape : (c : ℕ) → c < 256 → octal_byte (48 + c / 64) (48 + c / 8 % 8) (48 + c % 8) ≡ c
unfolding octal_byte
octal_byte-escape c h = omega arith

escape-octal_escape :
    (c : ℕ) (s : Bytes)
    → c < 256
    → escape ((48 + c / 64) ∷ (48 + c / 8 % 8) ∷ (48 + c % 8) ∷ s) ≡ done (c ∷ [], 3)
unfolding escape escape_digits
escape-octal_escape c s h = simp (
  not_backslash (c / 64) (omega arith),
  digit-is_octal (c / 64) (omega arith),
  digit-is_octal (c / 8 % 8) (omega arith),
  digit-is_octal (c % 8) (omega arith),
  octal_byte-escape c h,
)

decode_loop-escape :
    (s : Bytes) (bytes : Bytes) (k : ℕ)
    → escape s ≡ done (bytes, k)
    → decode_loop zero (backslash ∷ s) ≡ prepend bytes (decode_loop k s)
unfolding decode_loop
decode_loop-escape s bytes k e = rw (e, decode_loop)

decode_loop-plain :
    (c : ℕ) (s : Bytes)
    → c ≢ backslash
    → decode_loop zero (c ∷ s) ≡ prepend (c ∷ []) (decode_loop zero s)
unfolding decode_loop
decode_loop-plain c s h = ground arith

decode-octal_escape :
    (c : ℕ) (s : Bytes)
    → c < 256
    → decode_octal_escapes (octal_escape c ++ s) ≡ prepend (c ∷ []) (decode_octal_escapes s)
unfolding decode_loop
decode-octal_escape c s h = decode_loop-escape _ (c ∷ []) 3 (escape-octal_escape c s h)

prepend-done : (xs ys : Bytes) → prepend xs (done ys) ≡ done (xs ++ ys)
unfolding prepend
prepend-done xs ys = refl

-- Decoding what was escaped byte by byte, as the text of `send-keys` is, gives back the bytes.
pub decode-octal_escapes : (s : Bytes) → AllByte s → decode_octal_escapes (octal_escapes s) ≡ done s
unfolding octal_escapes decode_loop
decode-octal_escapes [] nil = refl
decode-octal_escapes (c ∷ s) (cons h hs) =
    decode-octal_escape c (octal_escapes s) h
    ∙ ap (prepend (c ∷ [])) (decode-octal_escapes s hs)
    ∙ prepend-done (c ∷ []) s

-- The escapes of tmux's control mode, as the comment of `DecodeOctalEscapes` gives them: a backslash
-- is doubled, a byte that does not print is written in octal, and any other stands for itself.
unfoldable pub tmux_escape : ℕ → Bytes
tmux_escape c =
    if c == backslash
    then backslash ∷ backslash ∷ []
    else if ltb c 32
    then octal_escape c
    else if leb 127 c
    then octal_escape c
    else c ∷ []

unfoldable pub tmux_escapes : Bytes → Bytes
tmux_escapes [] = []
tmux_escapes (c ∷ s) = tmux_escape c ++ tmux_escapes s

pub tmux_escape-cases :
    (c : ℕ)
    → ((c ≡ backslash) × (tmux_escape c ≡ backslash ∷ backslash ∷ []))
      ⊎ (tmux_escape c ≡ octal_escape c)
      ⊎ ((c ≢ backslash) × (32 ≤ c) × (tmux_escape c ≡ c ∷ []))
unfolding tmux_escape
tmux_escape-cases c = ground arith

decode-doubled :
    (s : Bytes)
    → decode_octal_escapes (backslash ∷ backslash ∷ s)
      ≡ prepend (backslash ∷ []) (decode_octal_escapes s)
unfolding decode_loop escape
decode-doubled s = decode_loop-escape (backslash ∷ s) (backslash ∷ []) 1 refl

decode-tmux_escape :
    (c : ℕ) (s : Bytes)
    → c < 256
    → decode_octal_escapes (tmux_escape c ++ s) ≡ prepend (c ∷ []) (decode_octal_escapes s)
decode-tmux_escape c s h = elim (tmux_escape-cases c) [
  | inl (e, p) ↦ rw (p, e) (decode-doubled s)
  | inr (inl p) ↦ rw p (decode-octal_escape c s h)
  | inr (inr (n, _, p)) ↦ rw p (decode_loop-plain c s n)
]

-- Decoding what tmux escaped gives back the bytes.
pub decode-tmux_escapes : (s : Bytes) → AllByte s → decode_octal_escapes (tmux_escapes s) ≡ done s
unfolding tmux_escapes decode_loop
decode-tmux_escapes [] nil = refl
decode-tmux_escapes (c ∷ s) (cons h hs) =
    decode-tmux_escape c (tmux_escapes s) h
    ∙ ap (prepend (c ∷ [])) (decode-tmux_escapes s hs)
    ∙ prepend-done (c ∷ []) s
