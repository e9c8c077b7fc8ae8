-- ===== src/Screen/Feed/Look.antt =====
-- One round of `Feed` (internal/screen/vt.go) and the bytes behind the one that it reads: when it
-- looks at them, and what it carries.
use claude_master_go.Base.{
  ℕ, zero, suc, ◌≤◌, ◌≡◌, refl, ap, Bool, true, false, ◌&&◌, ◌||◌, inl, inr, Option, none, some, [],
  ◌∷◌, ◌++◌, arith, ◌>>=◌, >>=-eq-some, ◌==◌, ltb, leb, if◌then◌else◌, Bool-cases, length, take,
  length-append, Bytes,
}
use claude_master_go.Screen.Utf8.{rune_size, decode_rune}
use claude_master_go.Screen.Vt.{Vt, ParseState, draw}
use claude_master_go.Screen.Vt.Carry.{
  HasPend, HasPend-some, HasPend-then, HasPend-if, line_feed-pend, reverse_index-pend, draw-pend,
  erase_line-pend, erase_display-pend,
}
use claude_master_go.Screen.Csi
use claude_master_go.Screen.Csi.{clamp_cursor}
use claude_master_go.Screen.Csi.Bounds.{move-pend}
use claude_master_go.Screen.Feed.{
  Next, go_on, put_rune, put_byte, feed_ground, feed_esc, feed_csi, byte_step,
}

csi-pend : (final : ℕ) (v : Vt) → HasPend v.pend (Csi.csi final v)
unfolding Csi.csi Csi.dispatch clamp_cursor
csi-pend final v =
    HasPend-then
      (HasPend-if (final == b'J') (erase_display-pend _ v) (
        HasPend-if (final == b'K') (erase_line-pend _ v)
          (HasPend-some _ (move-pend final (Csi.params v.parm) v))))
      λ u. HasPend-some _ refl

-- A round that goes on: it leaves the carry alone, and uses no byte beyond `rest`.
pub record Steady (p : Bytes) (rest : Bytes) (o : Option Next) : Type 0 where
  pub goes_on :
      (n : Next) → o ≡ some n → (n.stop ≡ false) × (n.vt.pend ≡ p) × (n.used ≤ length rest)

module _ {p rest : Bytes} where
  Steady-some :
      (n : Next) → n.stop ≡ false → n.vt.pend ≡ p → n.used ≤ length rest → Steady p rest (some n)
  Steady-some n s e u = record { goes_on = λ x h. ground arith }

  Steady-then :
      {o : Option Vt} {f : Vt → Option Next}
      → HasPend p o
      → ((u : Vt) → u.pend ≡ p → Steady p rest (f u))
      → Steady p rest (o >>= f)
  Steady-then {o = o} {f = f} h k = record {
    goes_on = λ x e. let (u, q, r) = >>=-eq-some o f e in (k u (h.same u q)).goes_on x r;
  }

  Steady-if :
      (b : Bool) {x y : Option Next}
      → Steady p rest x
      → Steady p rest y
      → Steady p rest (if b then x else y)
  Steady-if true h k = h
  Steady-if false h k = k

-- The same round with `rest` behind the byte, and with more: it runs out of bytes and carries them,
-- or it does not look beyond `rest`.
pub data Look (v : Vt) (c : ℕ) (rest : Bytes) (near far : Option Next) : Type 0 where
  cut :
      near ≡ some (record { vt = record v { pend = c ∷ rest }; used = 0; stop = true })
      → Look v c rest near far
  whole : far ≡ near → Steady v.pend rest near → Look v c rest near far

Look-if :
    {v : Vt} {c : ℕ} {rest : Bytes} (b : Bool) {x x' y y' : Option Next}
    → Look v c rest x x'
    → Look v c rest y y'
    → Look v c rest (if b then x else y) (if b then x' else y')
Look-if true h k = h
Look-if false h k = k

take-append_le : (n : ℕ) (xs ys : Bytes) → n ≤ length xs → take n (xs ++ ys) ≡ take n xs
take-append_le zero xs ys h = refl
take-append_le (suc n) [] ys h = absurd (omega arith)
take-append_le (suc n) (x ∷ xs) ys h = ap (◌∷◌ x) (take-append_le n xs ys (omega arith))

module _ (rune_width : ℕ → ℕ) (v : Vt) where
  put_rune-Steady :
      (n r : ℕ) (rest : Bytes)
      → n ≤ suc (length rest)
      → Steady v.pend rest (put_rune rune_width n r v)
  unfolding put_rune
  put_rune-Steady n r rest h =
      Steady-if (r == 0) (Steady-some _ refl refl (omega arith))
        (Steady-then (draw-pend rune_width r v) λ u e. Steady-some _ refl e (omega arith))

  draw-Steady :
      (r : ℕ) (rest : Bytes) → Steady v.pend rest (draw rune_width r v >>= (λ u. some (go_on u)))
  draw-Steady r rest =
      Steady-then (draw-pend rune_width r v) λ u e. Steady-some (go_on u) refl e (omega arith)

  put_byte-Look :
      (c : ℕ) (rest q : Bytes) (o : Option ℕ)
      → rune_size c ≡ o
      → Look v c rest (put_byte rune_width c rest v) (put_byte rune_width c (rest ++ q) v)
  unfolding put_byte
  put_byte-Look c rest q none e =
      rw (e, put_byte) (whole refl (Steady-some (go_on v) refl refl (omega arith)))
  put_byte-Look c rest q (some n) e =
      rw (e, put_byte)
        (elim (Bool-cases (n == 1)) [
          | inl ascii ↦ simp ascii (whole refl (draw-Steady c rest))
          | inr multi ↦ elim (Bool-cases (ltb (length (c ∷ rest)) n)) [
            | inl short ↦ simp (multi, short) (cut refl)
            | inr long ↦
                let enough : n ≤ suc (length rest) = ground arith in
                let still : ltb (length (c ∷ (rest ++ q))) n ≡ false =
                  ground (arith, length-append rest q) in
                simp (multi, long, still, take-append_le n (c ∷ rest) q enough)
                  (whole refl (put_rune-Steady n (decode_rune (take n (c ∷ rest))) rest enough))
          ]
        ])

  plain-Look :
      (c : ℕ) (rest : Bytes) (u : Vt)
      → u.pend ≡ v.pend
      → Look v c rest (some (go_on u)) (some (go_on u))
  plain-Look c rest u e = whole refl (Steady-some (go_on u) refl e (omega arith))

  feed_ground-Look :
      (c : ℕ) (rest q : Bytes)
      → Look v c rest (feed_ground rune_width c rest v) (feed_ground rune_width c (rest ++ q) v)
  unfolding feed_ground
  feed_ground-Look c rest q = Look-if (c == 0x1b) (plain-Look c rest _ refl) (
      Look-if (c == b'\r') (plain-Look c rest _ refl) (
        Look-if (c == b'\n')
          (whole refl (Steady-then (line_feed-pend v) λ u e. Steady-some _ refl e (omega arith)))
          (Look-if (c == 0x08) (plain-Look c rest _ refl) (
            Look-if (c == b'\t') (plain-Look c rest _ refl) (
              Look-if (ltb c 0x20) (plain-Look c rest v refl)
                (put_byte-Look c rest q (rune_size c) refl))))))

feed_esc-pend : (c : ℕ) (v : Vt) → HasPend v.pend (feed_esc c v)
unfolding feed_esc clamp_cursor
feed_esc-pend c v =
    let w = record v { st = ParseState.ground } in
    HasPend-if (c == b'[') (HasPend-some _ refl) (
      HasPend-if (c == b']') (HasPend-some _ refl) (
        HasPend-if (c == b'7') (HasPend-some _ refl) (
          HasPend-if (c == b'8') (HasPend-some _ refl) (
            HasPend-if (c == b'D') (line_feed-pend w) (
              HasPend-if (c == b'M') (reverse_index-pend w) (
                HasPend-if (c == b'E') (line_feed-pend (record w { cx = 0 }))
                  (HasPend-some w refl)))))))

feed_csi-pend : (c : ℕ) (v : Vt) → HasPend v.pend (feed_csi c v)
unfolding feed_csi
feed_csi-pend c v =
    HasPend-if (c == b'?' || c == b'>' || c == b'=') (HasPend-some _ (ground arith)) (
      HasPend-if ((leb b'0' c && leb c b'9') || c == b';') (HasPend-some _ refl)
        (HasPend-then (csi-pend c v) λ u. HasPend-some _ refl))

module _ (rune_width : ℕ → ℕ) (v : Vt) (c : ℕ) (rest q : Bytes) where
  pub byte_step-Look :
      (s : ParseState)
      → Look v c rest (byte_step rune_width s c rest v) (byte_step rune_width s c (rest ++ q) v)
  unfolding byte_step
  byte_step-Look ParseState.ground = feed_ground-Look rune_width v c rest q
  byte_step-Look ParseState.esc =
      whole refl (Steady-then (feed_esc-pend c v) λ u e. Steady-some _ refl e (omega arith))
  byte_step-Look ParseState.csi =
      whole refl (Steady-then (feed_csi-pend c v) λ u e. Steady-some _ refl e (omega arith))
  byte_step-Look ParseState.osc = whole refl (Steady-some _ refl (ground arith) (omega arith))
  byte_step-Look ParseState.osc_esc = whole refl (Steady-some _ refl refl (omega arith))
