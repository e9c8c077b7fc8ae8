-- ===== src/TtySync/Marker/Erasure.antt =====
-- `stripSyncMarkers` (internal/ttysync/syncwrap.go) against a relation that does not mention its
-- tests: which bytes go, which stay, and which are held for the next chunk.
use claude_master_go.Base.{
  ℕ, zero, suc, ◌+◌, ◌≡◌, ◌≢◌, refl, ap, ◌∙◌, ◌⊎◌, inl, inr, true, [], ◌∷◌, ◌++◌, arith, ◌==◌,
  ==_iff, Bool-cases, Bytes, length, get_elem?, has_prefix, length-append, drop,
}
use claude_master_go.TtySync.Marker.{
  sync_prefix, bsu_seq, esu_seq, mode_byte, whole_marker, cut_marker, strip_sync_markers,
}
use claude_master_go.TtySync.Marker.Fast.{stripped, strip_sync_markers-stripped, stripped-drop}
use claude_master_go.TtySync.Marker.Chunks.{stripped-whole, stripped-cut, stripped-keep}

abbrev pub Begins : Bytes → Bytes → Type 0
Begins m d = (rest : Bytes) × (d ≡ m ++ rest)

-- The data ends inside what may become a marker.
abbrev pub IsCutOff : Bytes → Type 0
IsCutOff d = (d ≢ []) × ((rest : Bytes) × (sync_prefix ≡ d ++ rest))

-- `Erases d payload carry`: reading `d` from the left, whole markers are dropped, a marker that the
-- end cuts short becomes the carry, and every other byte is kept.
pub data Erases : Bytes → Bytes → Bytes → Type 0 where
  done : Erases [] [] []
  cut : {d : Bytes} → IsCutOff d → Erases d [] d
  drop_begin : {d rest p r : Bytes} → d ≡ bsu_seq ++ rest → Erases rest p r → Erases d p r
  drop_end : {d rest p r : Bytes} → d ≡ esu_seq ++ rest → Erases rest p r → Erases d p r
  kept :
      {c : ℕ} {d p r : Bytes}
      → ¬ Begins bsu_seq (c ∷ d)
      → ¬ Begins esu_seq (c ∷ d)
      → ¬ IsCutOff (c ∷ d)
      → Erases d p r
      → Erases (c ∷ d) (c ∷ p) r

has_prefix-Begins : (d m : Bytes) → has_prefix d m ≡ true → Begins m d
has_prefix-Begins d [] h = (d, refl)
has_prefix-Begins [] (y ∷ m) h = cc
has_prefix-Begins (x ∷ d) (y ∷ m) h = ground (arith, has_prefix-Begins d m)

Begins-has_prefix : (m rest : Bytes) → has_prefix (m ++ rest) m ≡ true
Begins-has_prefix [] rest = ground arith
Begins-has_prefix (y ∷ m) rest = ground (arith, Begins-has_prefix m rest)

marker-end :
    (rest : Bytes)
    → mode_byte (get_elem? (sync_prefix ++ rest) 7) ≡ true
    → Begins bsu_seq (sync_prefix ++ rest) ⊎ Begins esu_seq (sync_prefix ++ rest)
marker-end [] h = cc
marker-end (x ∷ rest) h = elim (Bool-cases (x == b'h')) [
  | inl begin ↦ inl (rest, rw ((==_iff x b'h').0 begin) refl)
  | inr other ↦ let e : x ≡ b'l' = ground arith in inr (rest, rw e refl)
]

whole_marker-Begins : (d : Bytes) → whole_marker d ≡ true → Begins bsu_seq d ⊎ Begins esu_seq d
unfolding whole_marker
whole_marker-Begins d h =
    let (rest, e) = has_prefix-Begins d sync_prefix (ground arith) in
    let last : mode_byte (get_elem? d 7) ≡ true = ground arith in
    rw e (marker-end rest (rw e at last))

Begins-whole_marker : (d : Bytes) → Begins bsu_seq d ⊎ Begins esu_seq d → whole_marker d ≡ true
unfolding whole_marker
Begins-whole_marker d (inl (rest, e)) = rw e (ground arith)
Begins-whole_marker d (inr (rest, e)) = rw e (ground arith)

cut_marker-IsCutOff : (c : ℕ) (d : Bytes) → cut_marker (c ∷ d) ≡ true → IsCutOff (c ∷ d)
unfolding cut_marker
cut_marker-IsCutOff c d h =
    let (rest, e) = has_prefix-Begins sync_prefix (c ∷ d) (ground arith) in (λ x. cc, (rest, e))

IsCutOff-cut_marker : (d : Bytes) → IsCutOff d → cut_marker d ≡ true
unfolding cut_marker
IsCutOff-cut_marker d (ne, (rest, e)) =
    let starts : has_prefix sync_prefix d ≡ true = rw e (Begins-has_prefix d rest) in
    let few : length sync_prefix ≡ length d + length rest = ap length e ∙ length-append d rest in
    ground arith

whole-Erases :
    (d p r : Bytes) → Begins bsu_seq d ⊎ Begins esu_seq d → Erases (drop 8 d) p r → Erases d p r
whole-Erases d p r (inl (rest, e)) h = drop_begin {rest = rest} e (rw (ap (drop 8) e) at h)
whole-Erases d p r (inr (rest, e)) h = drop_end {rest = rest} e (rw (ap (drop 8) e) at h)

abbrev ErasesTo : Bytes → Bytes × Bytes → Type 0
ErasesTo d (p, r) = Erases d p r

stripped-Erases : (d : Bytes) (k : ℕ) → ErasesTo (drop k d) (stripped 0 (drop k d))
stripped-Erases [] zero = unfold stripped in done
stripped-Erases [] (suc k) = unfold stripped in done
stripped-Erases (c ∷ d) (suc k) = stripped-Erases d k
stripped-Erases (c ∷ d) zero = elim (Bool-cases (whole_marker (c ∷ d))) [
  | inl whole ↦
      rw (stripped-whole c d whole ∙ stripped-drop 7 d)
        (whole-Erases (c ∷ d) _ _ (whole_marker-Begins (c ∷ d) whole) (stripped-Erases d 7))
  | inr part ↦ elim (Bool-cases (cut_marker (c ∷ d))) [
    | inl half ↦ rw (stripped-cut c d part half) (cut (cut_marker-IsCutOff c d half))
    | inr other ↦ rw (stripped-keep c d part other) (
        kept (λ b. cc (Begins-whole_marker (c ∷ d) (inl b)))
          (λ b. cc (Begins-whole_marker (c ∷ d) (inr b))) (λ b. cc (IsCutOff-cut_marker (c ∷ d) b))
          (stripped-Erases d 0))
  ]
]

-- On every input the function returns the payload and the carry that the relation describes: the
-- whole markers read from the left are dropped, a marker that the end cuts off is carried, and each
-- other byte is in the payload, in order.
pub strip_sync_markers-Erases :
    (d : Bytes) → Erases d (strip_sync_markers d).0 (strip_sync_markers d).1
strip_sync_markers-Erases d = rw (strip_sync_markers-stripped d) (stripped-Erases d 0)
