-- ===== src/Config/Keyspec/Agree.antt =====
-- The two readings of a key agree (internal/config/config.go).
use claude_master_go.Base.{
  ◌≡◌, inl, inr, sym, ◌∙◌, true, false, ◌||◌, Option, none, some, [], ◌∷◌, Bytes, ℤ, drop,
  Bool-cases,
}
use claude_master_go.Config.Number.{atoi, parse_hex}
use claude_master_go.Tmux.Text.{trim_space}
use claude_master_go.Config.Keyspec.{
  nav_ctrl, is_hex_x, is_hex_0x, byte_or, single_or, default_key, nav_key_plain, nav_key_of,
  nav_key_trimmed, parse_nav_key, byte_or_nil, single_or_nil, key_plain, key_of, key_trimmed,
  parse_key_or_nil,
}

module _ (lower upper : Bytes → Bytes) where
  -- Where a key is read, it is the one of the other reading.
  abbrev pub IsRead : Bytes → Option Bytes → Type 0
  IsRead k o = (j : Bytes) → o ≡ some j → k ≡ j

  byte_or-IsRead :
      (n : Option ℤ) (k : Bytes) (o : Option Bytes)
      → IsRead k o
      → IsRead (byte_or lower upper n k) (byte_or_nil lower upper n o)
  unfolding byte_or byte_or_nil
  byte_or-IsRead (some n) k o h j e = cc
  byte_or-IsRead none k o h j e = h j e

  single_or-IsRead :
      (s : Bytes)
      → IsRead (single_or lower upper (default_key lower upper) s) (single_or_nil lower upper s)
  unfolding single_or single_or_nil
  single_or-IsRead [] j e = cc
  single_or-IsRead (c ∷ []) j e = cc
  single_or-IsRead (c ∷ d ∷ s) j e = cc

  key_plain-IsRead :
      (s low : Bytes) → IsRead (nav_key_plain lower upper s low) (key_plain lower upper s low)
  unfolding nav_key_plain key_plain
  key_plain-IsRead s low j h =
      elim (Bool-cases (is_hex_x lower upper low || is_hex_0x lower upper low)) [
        | inl t ↦
            nav_hex t
            ∙ byte_or-IsRead (parse_hex (drop 2 low))
                (byte_or lower upper (atoi low) (single_or lower upper (default_key lower upper) s))
                none (λ k e. cc) j (sym (key_hex t) ∙ h)
        | inr f ↦
            nav_decimal f
            ∙ byte_or-IsRead (atoi low) (single_or lower upper (default_key lower upper) s)
                (single_or_nil lower upper s) (single_or-IsRead s) j (sym (key_decimal f) ∙ h)
      ]
    where
      nav_hex :
          (is_hex_x lower upper low || is_hex_0x lower upper low) ≡ true
          → nav_key_plain lower upper s low
            ≡ byte_or lower upper
                (parse_hex (drop 2 low))
                (byte_or lower upper (atoi low) (single_or lower upper (default_key lower upper) s))
      nav_hex t = simp t

      key_hex :
          (is_hex_x lower upper low || is_hex_0x lower upper low) ≡ true
          → key_plain lower upper s low ≡ byte_or_nil lower upper (parse_hex (drop 2 low)) none
      key_hex t = simp t

      nav_decimal :
          (is_hex_x lower upper low || is_hex_0x lower upper low) ≡ false
          → nav_key_plain lower upper s low
            ≡ byte_or lower upper (atoi low) (single_or lower upper (default_key lower upper) s)
      nav_decimal f = simp f

      key_decimal :
          (is_hex_x lower upper low || is_hex_0x lower upper low) ≡ false
          → key_plain lower upper s low
            ≡ byte_or_nil lower upper (atoi low) (single_or_nil lower upper s)
      key_decimal f = simp f

  key_of-IsRead :
      (s low : Bytes) (m : Option Bytes)
      → IsRead (nav_key_of lower upper s low m) (key_of lower upper s low m)
  unfolding nav_key_of key_of
  key_of-IsRead s low (some c) j e = cc
  key_of-IsRead s low none j e = key_plain-IsRead s low j e

  trimmed-IsRead : (s : Bytes) → IsRead (nav_key_trimmed lower upper s) (key_trimmed lower upper s)
  unfolding nav_key_trimmed key_trimmed
  trimmed-IsRead [] j e = cc
  trimmed-IsRead (c ∷ s) j e = key_of-IsRead (c ∷ s) (lower (c ∷ s)) (nav_ctrl (lower (c ∷ s))) j e

  -- A key that ParseKeyOrNil reads is the one that ParseNavKey reads.
  pub parse_key_or_nil-parse_nav_key :
      (spec key : Bytes)
      → parse_key_or_nil lower upper spec ≡ some key
      → parse_nav_key lower upper spec ≡ key
  parse_key_or_nil-parse_nav_key spec key = trimmed-IsRead (trim_space spec) key
