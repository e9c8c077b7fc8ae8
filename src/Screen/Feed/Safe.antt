-- ===== src/Screen/Feed/Safe.antt =====
-- `Feed` (internal/screen/vt.go) in range: it returns on every input along which the margins stay on
-- the screen.
use claude_master_go.Base.{
  ℕ, zero, suc, ◌<◌, ◌≡◌, refl, Bool, true, false, ◌&&◌, ◌||◌, inl, inr, Option, none, some, [],
  ◌∷◌, ◌++◌, arith, ◌==◌, ltb, leb, if◌then◌else◌, Bool-cases, length, Ensures, Ensures-some,
  Ensures-bind, Ensures-if, Bytes,
}
use claude_master_go.Screen.Utf8.{rune_size}
use claude_master_go.Screen.Vt.{Vt, ParseState}
use claude_master_go.Screen.Vt.Safe.{
  IsWf, HasMargins, Good, line_feed-Good, reverse_index-Good, return_feed-Good,
}
use claude_master_go.Screen.Vt.Drawing.{draw-Good}
use claude_master_go.Screen.Csi.{clamp_cursor}
use claude_master_go.Screen.Csi.Bounds.{csi-Sound, clamp-lt}
use claude_master_go.Screen.Feed.{
  Next, put_rune, put_byte, feed_ground, feed_esc, feed_csi, byte_step, feed_loop, feed,
}

-- The parser's fields are no part of the screen.
same-IsWf :
    (v u : Vt)
    → IsWf v
    → u.cols ≡ v.cols
    → u.rows ≡ v.rows
    → u.buf ≡ v.buf
    → u.hist ≡ v.hist
    → u.hist_total ≡ v.hist_total
    → u.cx < u.cols
    → u.cy < u.rows
    → IsWf u
same-IsWf v u w c r b h t x y = record {
  grid = rw (c, r, b) w.grid;
  column = x;
  line = y;
  history = rw h w.history;
  counted = rw (h, t) w.counted;
}

module _ (rune_width : ℕ → ℕ) (v : Vt) (w : IsWf v) (m : HasMargins v) where
  put_rune-IsWf : (n r : ℕ) → Ensures (λ x. IsWf x.vt) (put_rune rune_width n r v)
  unfolding put_rune
  put_rune-IsWf n r = elim (Bool-cases (r == 0)) [
    | inl nul ↦ simp nul (Ensures-some _ _ w)
    | inr rune ↦
        simp rune (Ensures-bind _ _ (draw-Good rune_width r v w m) λ u g. Ensures-some _ _ g.wf)
  ]

  keep_pend-IsWf : (p : Bytes) → IsWf (record v { pend = p })
  keep_pend-IsWf p = same-IsWf v _ w refl refl refl refl refl w.column w.line

  put_sized-IsWf :
      (o : Option ℕ) (b : ℕ) (rest : Bytes)
      → rune_size b ≡ o
      → Ensures (λ x. IsWf x.vt) (put_byte rune_width b rest v)
  unfolding put_byte
  put_sized-IsWf none b rest e = rw (e, put_byte) (Ensures-some _ _ w)
  put_sized-IsWf (some n) b rest e =
      rw (e, put_byte)
        (elim (Bool-cases (n == 1)) [
          | inl ascii ↦
              simp ascii
                (Ensures-bind _ _ (draw-Good rune_width b v w m) λ u g. Ensures-some _ _ g.wf)
          | inr multi ↦ elim (Bool-cases (ltb (length (b ∷ rest)) n)) [
            | inl cut ↦ simp (multi, cut) (Ensures-some _ _ (keep_pend-IsWf (b ∷ rest)))
            | inr whole ↦ simp (multi, whole) (put_rune-IsWf n _)
          ]
        ])

  abbrev StaysWf : Option Next → Type 0
  StaysWf = Ensures (λ x. IsWf x.vt)

  lines-IsWf : (u : Vt) → IsWf u → IsWf (record u { wrap = false })
  lines-IsWf u h = same-IsWf u _ h refl refl refl refl refl h.column h.line

  feed_ground-IsWf : (c : ℕ) (rest : Bytes) → StaysWf (feed_ground rune_width c rest v)
  unfolding feed_ground
  feed_ground-IsWf c rest =
      Ensures-if _ (c == 0x1b)
        (λ _. Ensures-some _ _ (same-IsWf v _ w refl refl refl refl refl w.column w.line))
        λ _.
          Ensures-if _ (c == b'\r')
            (λ _.
              Ensures-some _ _
                (same-IsWf v _ w refl refl refl refl refl (omega (arith, w.column)) w.line))
            λ _.
              Ensures-if _ (c == b'\n')
                (λ _.
                  Ensures-bind (Good v) _ (line_feed-Good v w m)
                    λ u g. Ensures-some _ _ (lines-IsWf u g.wf))
                λ _.
                  Ensures-if _ (c == 0x08)
                    (λ _.
                      Ensures-some _ _
                        (same-IsWf v _ w refl refl refl refl refl (omega (arith, w.column)) w.line))
                    λ _.
                      Ensures-if _ (c == b'\t')
                        (λ _. Ensures-some _ _ (
                          same-IsWf v _ w refl refl refl refl refl (ground (arith, w.column))
                            w.line))
                        λ _.
                          Ensures-if _ (ltb c 0x20) (λ _. Ensures-some _ _ w)
                            λ _. put_sized-IsWf (rune_size c) c rest refl

  moved-IsWf : (x : Vt) → IsWf x → (s : ParseState) → IsWf (record x { st = s })
  moved-IsWf x h s = same-IsWf x _ h refl refl refl refl refl h.column h.line

  feed_esc-IsWf : (c : ℕ) → Ensures IsWf (feed_esc c v)
  unfolding feed_esc clamp_cursor
  feed_esc-IsWf c =
      let back = record v { st = ParseState.ground } in
      let wb = moved-IsWf v w ParseState.ground in
      let mb : HasMargins back = record { top_inside = m.top_inside; bot_inside = m.bot_inside } in
      Ensures-if _ (c == b'[')
        (λ _. Ensures-some _ _ (same-IsWf v _ w refl refl refl refl refl w.column w.line))
        λ _.
          Ensures-if _ (c == b']') (λ _. Ensures-some _ _ (moved-IsWf v w ParseState.osc))
            λ _.
              Ensures-if _ (c == b'7')
                (λ _. Ensures-some _ _ (same-IsWf v _ w refl refl refl refl refl w.column w.line))
                λ _.
                  Ensures-if _ (c == b'8')
                    (λ _. Ensures-some _ _ (
                      same-IsWf v _ w refl refl refl refl refl
                        (clamp-lt v.cols v.scx (omega (arith, w.column)))
                        (clamp-lt v.rows v.scy (omega (arith, w.line)))))
                    λ _.
                      Ensures-if _ (c == b'D') (λ _. weaken (line_feed-Good back wb mb))
                        λ _.
                          Ensures-if _ (c == b'M') (λ _. weaken (reverse_index-Good back wb mb))
                            λ _.
                              Ensures-if _ (c == b'E') (λ _. weaken (return_feed-Good back wb mb))
                                λ _. Ensures-some _ _ wb
    where
      weaken : {o : Option Vt} {b : Vt} → Ensures (Good b) o → Ensures IsWf o
      weaken e = record { value = e.value; returns = e.returns; holds = e.holds.wf }

  feed_csi-IsWf : (c : ℕ) → Ensures IsWf (feed_csi c v)
  unfolding feed_csi
  feed_csi-IsWf c =
      Ensures-if _ (c == b'?' || c == b'>' || c == b'=')
        (λ _. Ensures-some _ _ (private_mode (c == b'?')))
        λ _.
          Ensures-if _ ((leb b'0' c && leb c b'9') || c == b';')
            (λ _. Ensures-some _ _ (same-IsWf v _ w refl refl refl refl refl w.column w.line))
            λ _.
              Ensures-bind _ _ (csi-Sound c v w m)
                λ u g. Ensures-some _ _ (moved-IsWf u g.wf ParseState.ground)
    where
      private_mode : (b : Bool) → IsWf (if b then record v { csi_pv = true } else v)
      private_mode true = same-IsWf v _ w refl refl refl refl refl w.column w.line
      private_mode false = w

  byte_step-IsWf :
      (s : ParseState) (c : ℕ) (rest : Bytes) → StaysWf (byte_step rune_width s c rest v)
  unfolding byte_step
  byte_step-IsWf ParseState.ground c rest = feed_ground-IsWf c rest
  byte_step-IsWf ParseState.esc c rest =
      Ensures-bind _ _ (feed_esc-IsWf c) λ u h. Ensures-some _ _ h
  byte_step-IsWf ParseState.csi c rest =
      Ensures-bind _ _ (feed_csi-IsWf c) λ u h. Ensures-some _ _ h
  byte_step-IsWf ParseState.osc c rest = Ensures-some _ _ (title (c == 0x07) (c == 0x1b))
    where
      title :
          (b d : Bool)
          → IsWf (
              if b
              then record v { st = ParseState.ground }
              else if d
              then record v { st = ParseState.osc_esc }
              else v)
      title true d = moved-IsWf v w ParseState.ground
      title false true = moved-IsWf v w ParseState.osc_esc
      title false false = w
  byte_step-IsWf ParseState.osc_esc c rest = Ensures-some _ _ (moved-IsWf v w ParseState.ground)

abbrev pub Unless : Bool → Type 0 → Type 0
Unless true T = Unit
Unless false T = T

-- In every state that the loop passes through the margins lie on the screen.
unfoldable pub MarginsKept : (ℕ → ℕ) → ℕ → Bytes → Vt → Type 0
MarginsKept rune_width k [] v = HasMargins v
MarginsKept rune_width (suc k) (c ∷ cs) v = MarginsKept rune_width k cs v
MarginsKept rune_width zero (c ∷ cs) v = HasMargins v × (elim (byte_step rune_width v.st c cs v) [
  | none ↦ Unit
  | some n ↦ Unless n.stop (MarginsKept rune_width n.used cs n.vt)
])

stop_or_go :
    (stop : Bool) (u : Vt) (rest : Option Vt) (T : Type 0)
    → IsWf u
    → Unless stop T
    → (T → Ensures IsWf rest)
    → Ensures IsWf (if stop then some u else rest)
stop_or_go true u rest T w h k = Ensures-some _ _ w
stop_or_go false u rest T w h k = k h

feed_loop-IsWf :
    (rune_width : ℕ → ℕ) (p : Bytes) (k : ℕ) (v : Vt)
    → IsWf v
    → MarginsKept rune_width k p v
    → Ensures IsWf (feed_loop rune_width k p v)
unfolding feed_loop MarginsKept
feed_loop-IsWf rune_width [] zero v w h = Ensures-some _ _ w
feed_loop-IsWf rune_width [] (suc k) v w h = Ensures-some _ _ w
feed_loop-IsWf rune_width (c ∷ cs) (suc k) v w h = feed_loop-IsWf rune_width cs k v w h
feed_loop-IsWf rune_width (c ∷ cs) zero v w h =
    let e = byte_step-IsWf rune_width v w h.0 v.st c cs in
    let n = e.value in
    rw e.returns (
      stop_or_go n.stop n.vt (feed_loop rune_width n.used cs n.vt)
        (MarginsKept rune_width n.used cs n.vt) e.holds (rw e.returns at h.1)
        (feed_loop-IsWf rune_width cs n.used n.vt e.holds))

-- On a well-formed screen `Feed` returns for every chunk, and leaves a well-formed screen, if the
-- margins lie on the screen in each state that its loop passes through.
pub feed-IsWf :
    (rune_width : ℕ → ℕ) (p : Bytes) (v : Vt)
    → IsWf v
    → MarginsKept rune_width 0 (v.pend ++ p) (record v { pend = [] })
    → Ensures IsWf (feed rune_width p v)
unfolding feed
feed-IsWf rune_width p v w h =
    feed_loop-IsWf rune_width (v.pend ++ p) 0 (record v { pend = [] })
      (same-IsWf v _ w refl refl refl refl refl w.column w.line) h
