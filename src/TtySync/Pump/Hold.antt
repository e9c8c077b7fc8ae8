-- ===== src/TtySync/Pump/Hold.antt =====
-- The hold behind a destructive sequence (internal/ttysync/ansi.go and wrap.go).
use claude_master_go.Base.{
  ℕ, ◌≡◌, ◌⊎◌, inl, inr, Bool, true, false, ◌||◌, [], ◌∷◌, ◌++◌, ◌==◌, Bytes,
}
use claude_master_go.TtySync.Ansi
use claude_master_go.TtySync.Ansi.{AnsiParser, AnsiState, is_digit, is_destructive_csi}
use claude_master_go.TtySync.Pump.{scan}

-- The bytes of the parameters of a control sequence.
abbrev pub is_param : ℕ → Bool
is_param b = is_digit b || b == b';' || b == b'?'

pub data AreParams : Bytes → Type 0 where
  nil : AreParams []
  cons : {b : ℕ} {bs : Bytes} → is_param b ≡ true → AreParams bs → AreParams (b ∷ bs)

feed-param :
    (b : ℕ) (ps : Bytes)
    → is_param b ≡ true
    → Ansi.feed (record { state = AnsiState.csi; params = ps }) b
      ≡ (record { state = AnsiState.csi; params = ps ++ b ∷ [] }, false)
unfolding Ansi.feed
feed-param b ps h = rw h

feed-final :
    (final : ℕ) (ps : Bytes)
    → (final ≡ b'J') ⊎ (final ≡ b'K')
    → Ansi.feed (record { state = AnsiState.csi; params = ps }) final
      ≡ (record { state = AnsiState.ground; params = ps }, true)
unfolding Ansi.feed is_destructive_csi
feed-final final ps (inl e) = rw e
feed-final final ps (inr e) = rw e

scan-params :
    (final : ℕ) (ps qs rest : Bytes)
    → AreParams qs
    → (final ≡ b'J') ⊎ (final ≡ b'K')
    → (scan (record { state = AnsiState.csi; params = ps }) (qs ++ final ∷ rest)).1 ≡ true
unfolding scan
scan-params final ps [] rest nil h = simp (feed-final final ps h)
scan-params final ps (q ∷ qs) rest (cons p hs) h =
    simp (feed-param q ps p, scan-params final (ps ++ q ∷ []) qs rest hs h)

-- Outside a sequence the parser answers at every erase sequence (ESC [, any parameters, J or K),
-- whatever follows it, so that the pump starts to hold.
pub scan-erase :
    (final : ℕ) (ps qs rest : Bytes)
    → AreParams qs
    → (final ≡ b'J') ⊎ (final ≡ b'K')
    → (scan (record { state = AnsiState.ground; params = ps }) (0x1b ∷ b'[' ∷ qs ++ final ∷ rest)).1
      ≡ true
unfolding scan Ansi.feed
scan-erase final ps qs rest a h = scan-params final [] qs rest a h
