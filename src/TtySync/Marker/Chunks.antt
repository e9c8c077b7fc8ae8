-- ===== src/TtySync/Marker/Chunks.antt =====
-- `stripSyncMarkers` (internal/ttysync/syncwrap.go) across a read boundary: what the carry is for.
use claude_master_go.Base.{
  ℕ, zero, suc, ◌≤◌, ◌<◌, ◌≡◌, refl, sym, ap, ◌∙◌, inl, inr, true, false, [], ◌∷◌, ◌++◌, arith, ltb,
  Bool-cases, Bytes, length, get_elem?, has_prefix, length-append,
}
use claude_master_go.TtySync.Marker.{sync_prefix, whole_marker, cut_marker, strip_sync_markers}
use claude_master_go.TtySync.Marker.Fast.{keep, stripped, strip_sync_markers-stripped}

has_prefix-append_short :
    (xs q m : Bytes) → length xs ≤ length m → has_prefix (xs ++ q) m ≡ true → has_prefix m xs ≡ true
has_prefix-append_short [] q m h p = ground arith
has_prefix-append_short (x ∷ xs) q [] h p = absurd (omega arith)
has_prefix-append_short (x ∷ xs) q (y ∷ m) h p = ground (arith, has_prefix-append_short xs q m)

has_prefix-append_long :
    (xs q m : Bytes) → length m ≤ length xs → has_prefix (xs ++ q) m ≡ has_prefix xs m
has_prefix-append_long [] q [] h = ground arith
has_prefix-append_long [] q (y ∷ m) h = absurd (omega arith)
has_prefix-append_long (x ∷ xs) q [] h = refl
has_prefix-append_long (x ∷ xs) q (y ∷ m) h = rw (has_prefix-append_long xs q m (omega arith))

has_prefix-of_append : (m xs q : Bytes) → has_prefix m (xs ++ q) ≡ true → has_prefix m xs ≡ true
has_prefix-of_append m [] q p = ground arith
has_prefix-of_append [] (x ∷ xs) q p = cc
has_prefix-of_append (y ∷ m) (x ∷ xs) q p = ground (arith, has_prefix-of_append m xs q)

get_elem?-append : (xs q : Bytes) (i : ℕ) → i < length xs → get_elem? (xs ++ q) i ≡ get_elem? xs i
get_elem?-append [] q i h = absurd (omega arith)
get_elem?-append (x ∷ xs) q zero h = refl
get_elem?-append (x ∷ xs) q (suc i) h = get_elem?-append xs q i (omega arith)

-- The tests at a position with eight bytes behind it do not read past them.
whole_marker-append_long : (xs q : Bytes) → 8 ≤ length xs → whole_marker (xs ++ q) ≡ whole_marker xs
unfolding whole_marker
whole_marker-append_long xs q h =
    rw
      (has_prefix-append_long xs q sync_prefix (omega arith), get_elem?-append xs q 7 (omega arith))
      (ground (arith, length-append xs q))

-- Where fewer bytes are left, and they begin no marker, no continuation makes one of them.
module _ (xs q : Bytes) (short : length xs < 8) (other : cut_marker xs ≡ false) where
  whole_marker-append_short : whole_marker (xs ++ q) ≡ false
  unfolding whole_marker cut_marker
  whole_marker-append_short = ground (arith, has_prefix-append_short xs q sync_prefix (omega arith))

  cut_marker-append_short : cut_marker (xs ++ q) ≡ false
  unfolding cut_marker
  cut_marker-append_short = ground (arith, has_prefix-of_append sync_prefix xs q)

-- What is left of a long rest also begins no cut marker.
cut_marker-long : (xs : Bytes) → 8 ≤ length xs → cut_marker xs ≡ false
unfolding cut_marker
cut_marker-long xs h = ground arith

whole_marker-long : (xs : Bytes) → whole_marker xs ≡ true → 8 ≤ length xs
unfolding whole_marker
whole_marker-long xs h = ground arith

abbrev resume : Bytes × Bytes → Bytes → Bytes × Bytes
resume (payload, carry) q = (payload ++ (stripped 0 (carry ++ q)).0, (stripped 0 (carry ++ q)).1)

stripped-skip : (k c : ℕ) (cs : Bytes) → stripped (suc k) (c ∷ cs) ≡ stripped k cs
unfolding stripped
stripped-skip k c cs = refl

pub stripped-whole :
    (c : ℕ) (cs : Bytes) → whole_marker (c ∷ cs) ≡ true → stripped 0 (c ∷ cs) ≡ stripped 7 cs
unfolding stripped
stripped-whole c cs h = rw h

pub stripped-cut :
    (c : ℕ) (cs : Bytes)
    → whole_marker (c ∷ cs) ≡ false
    → cut_marker (c ∷ cs) ≡ true
    → stripped 0 (c ∷ cs) ≡ ([], c ∷ cs)
unfolding stripped
stripped-cut c cs h k = rw (h, k)

pub stripped-keep :
    (c : ℕ) (cs : Bytes)
    → whole_marker (c ∷ cs) ≡ false
    → cut_marker (c ∷ cs) ≡ false
    → stripped 0 (c ∷ cs) ≡ keep c (stripped 0 cs)
unfolding stripped
stripped-keep c cs h k = rw (h, k)

-- Whether eight bytes are left or fewer, a byte that is kept is kept before any continuation.
kept-append :
    (c : ℕ) (cs q : Bytes)
    → whole_marker (c ∷ cs) ≡ false
    → cut_marker (c ∷ cs) ≡ false
    → stripped 0 (c ∷ (cs ++ q)) ≡ keep c (stripped 0 (cs ++ q))
kept-append c cs q h k = elim (Bool-cases (ltb (length (c ∷ cs)) 8)) [
  | inl short ↦
      let less : length (c ∷ cs) < 8 = ground arith in
      stripped-keep c (cs ++ q) (whole_marker-append_short (c ∷ cs) q less k)
        (cut_marker-append_short (c ∷ cs) q less k)
  | inr long ↦
      let more : 8 ≤ length (c ∷ cs) = ground arith in
      stripped-keep c (cs ++ q) (whole_marker-append_long (c ∷ cs) q more ∙ h)
        (cut_marker-long (c ∷ (cs ++ q)) (omega (arith, length-append cs q)))
]

stripped-append :
    (p q : Bytes) (k : ℕ) → k ≤ length p → stripped k (p ++ q) ≡ resume (stripped k p) q
stripped-append [] q zero h = unfold stripped in refl
stripped-append [] q (suc k) h = absurd (omega arith)
stripped-append (c ∷ cs) q (suc k) h =
    stripped-skip k c (cs ++ q)
    ∙ stripped-append cs q k (omega arith)
    ∙ sym (ap (λ r. resume r q) (stripped-skip k c cs))
stripped-append (c ∷ cs) q zero h = elim (Bool-cases (whole_marker (c ∷ cs))) [
  | inl whole ↦
      let long = whole_marker-long (c ∷ cs) whole in
      let still = whole_marker-append_long (c ∷ cs) q long ∙ whole in
      stripped-whole c (cs ++ q) still
      ∙ stripped-append cs q 7 (omega arith)
      ∙ sym (ap (λ r. resume r q) (stripped-whole c cs whole))
  | inr part ↦ elim (Bool-cases (cut_marker (c ∷ cs))) [
    | inl cut ↦ sym (ap (λ r. resume r q) (stripped-cut c cs part cut))
    | inr other ↦
        kept-append c cs q part other
        ∙ ap (keep c) (stripped-append cs q 0 (omega arith))
        ∙ sym (ap (λ r. resume r q) (stripped-keep c cs part other))
  ]
]

-- A stream cut anywhere loses nothing by being stripped in two parts: with the carry of the first
-- part put in front of the second, the payloads join to that of the whole, and the carry is its carry.
pub strip_sync_markers-append :
    (p q : Bytes)
    → let (payload, carry) = strip_sync_markers p in
      let (payload', carry') = strip_sync_markers (carry ++ q) in
      strip_sync_markers (p ++ q) ≡ (payload ++ payload', carry')
strip_sync_markers-append p q =
    rw (strip_sync_markers-stripped p, strip_sync_markers-stripped ((stripped 0 p).1 ++ q))
      (strip_sync_markers-stripped (p ++ q) ∙ stripped-append p q 0 (omega arith))
