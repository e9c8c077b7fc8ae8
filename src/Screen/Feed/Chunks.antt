-- ===== src/Screen/Feed/Chunks.antt =====
-- `Feed` (internal/screen/vt.go) and the boundaries of the reads: how the child's output is cut into
-- chunks does not matter.
use claude_master_go.Base.{
  ℕ, zero, suc, ◌≤◌, ◌≡◌, refl, sym, ap, ◌∙◌, true, false, inl, inr, none, some, [], ◌∷◌, ◌++◌,
  arith, ◌>>=◌, Option-cases, length, append_assoc, Bytes,
}
use claude_master_go.Screen.Vt.{Vt}
use claude_master_go.Screen.Feed.{Next, byte_step, feed_loop, feed}
use claude_master_go.Screen.Feed.Look.{cut, whole, byte_step-Look}

module _ (rune_width : ℕ → ℕ) where
  -- With nothing carried a chunk goes straight to the loop.
  feed-fresh : (q : Bytes) (v : Vt) → v.pend ≡ [] → feed rune_width q v ≡ feed_loop rune_width 0 q v
  unfolding feed
  feed-fresh q v e = rw e

  feed-carry :
      (p q : Bytes) (v : Vt)
      → v.pend ≡ []
      → feed rune_width q (record v { pend = p }) ≡ feed_loop rune_width 0 (p ++ q) v
  unfolding feed
  feed-carry p q v e = rw e

  feed_loop-cons :
      (c : ℕ) (cs : Bytes) (v : Vt) (n : Next)
      → byte_step rune_width v.st c cs v ≡ some n
      → n.stop ≡ false
      → feed_loop rune_width 0 (c ∷ cs) v ≡ feed_loop rune_width n.used cs n.vt
  unfolding feed_loop
  feed_loop-cons c cs v n e s = rw e (simp s)

  feed_loop-panic :
      (c : ℕ) (cs : Bytes) (v : Vt)
      → byte_step rune_width v.st c cs v ≡ none
      → feed_loop rune_width 0 (c ∷ cs) v ≡ none
  unfolding feed_loop
  feed_loop-panic c cs v e = rw e

  feed_loop-stop :
      (c : ℕ) (cs : Bytes) (v : Vt)
      → byte_step rune_width v.st c cs v
        ≡ some (record { vt = record v { pend = c ∷ cs }; used = 0; stop = true })
      → feed_loop rune_width 0 (c ∷ cs) v ≡ some (record v { pend = c ∷ cs })
  unfolding feed_loop
  feed_loop-stop c cs v e = rw e

  feed_loop-append :
      (p q : Bytes) (k : ℕ) (v : Vt)
      → k ≤ length p
      → v.pend ≡ []
      → feed_loop rune_width k (p ++ q) v ≡ (feed_loop rune_width k p v >>= feed rune_width q)
  feed_loop-append [] q zero v h e = unfold feed_loop in sym (feed-fresh q v e)
  feed_loop-append [] q (suc k) v h e = absurd (omega arith)
  feed_loop-append (c ∷ cs) q (suc k) v h e = skip (feed_loop-append cs q k v (omega arith) e)
    where
      skip :
          feed_loop rune_width k (cs ++ q) v ≡ (feed_loop rune_width k cs v >>= feed rune_width q)
          → feed_loop rune_width (suc k) (c ∷ (cs ++ q)) v
            ≡ (feed_loop rune_width (suc k) (c ∷ cs) v >>= feed rune_width q)
      skip ih = unfold feed_loop in ih
  feed_loop-append (c ∷ cs) q zero v h e = elim (byte_step-Look rune_width v c cs q v.st) [
    | cut stop ↦ rw (feed_loop-stop c cs v stop) (sym (feed-carry (c ∷ cs) q v e))
    | whole same steady ↦ elim (Option-cases (byte_step rune_width v.st c cs v)) [
      | inl panic ↦
          rw (feed_loop-panic c cs v panic, feed_loop-panic c (cs ++ q) v (same ∙ panic)) refl
      | inr (n, goes) ↦
          let (s, p, u) = steady.goes_on n goes in
          rw (feed_loop-cons c cs v n goes s, feed_loop-cons c (cs ++ q) v n (same ∙ goes) s)
            (feed_loop-append cs q n.used n.vt u (p ∙ e))
    ]
  ]

  -- For every model and every way of cutting a stretch of output in two, also inside an escape
  -- sequence or inside a rune, feeding the parts one after the other gives exactly the model, the
  -- carried bytes included, that feeding the whole gives, and panics exactly where the whole does.
  pub feed-append :
      (p q : Bytes) (v : Vt)
      → feed rune_width (p ++ q) v ≡ (feed rune_width p v >>= feed rune_width q)
  unfolding feed
  feed-append p q v =
      ap (λ b. feed_loop rune_width 0 b (record v { pend = [] })) (sym (append_assoc v.pend p q))
      ∙ feed_loop-append (v.pend ++ p) q 0 (record v { pend = [] }) (omega arith) refl
