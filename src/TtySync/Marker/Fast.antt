-- ===== src/TtySync/Marker/Fast.antt =====
-- `stripSyncMarkers` (internal/ttysync/syncwrap.go) against a byte-by-byte definition: the copy up
-- to the next ESC and the position counter change nothing.
use claude_master_go.Base.{
  ℕ, zero, suc, ◌≤◌, ◌≡◌, ◌≢◌, refl, sym, ◌∙◌, inl, inr, false, none, some, [], ◌∷◌, ◌++◌,
  append_assoc, append-nil, arith, ◌==◌, if◌then◌else◌, ==_iff, Bool-cases, Option-cases, Bytes,
  length, take, drop, length-drop,
}
use claude_master_go.TtySync.Marker.{
  index_byte, whole_marker, cut_marker, strip_loop, strip_sync_markers,
}

-- One byte in front of a stripped rest.
abbrev pub keep : ℕ → Bytes × Bytes → Bytes × Bytes
keep c (p, r) = (c ∷ p, r)

-- The definition by one byte at a time; the number is how many bytes of a marker are still to go.
unfoldable pub stripped : ℕ → Bytes → Bytes × Bytes
stripped k [] = ([], [])
stripped (suc k) (c ∷ cs) = stripped k cs
stripped zero (c ∷ cs) =
    let removed = stripped 7 cs in
    let copied = keep c (stripped 0 cs) in
    if whole_marker (c ∷ cs) then removed else if cut_marker (c ∷ cs) then ([], c ∷ cs) else copied

abbrev after : Bytes → Bytes × Bytes → Bytes × Bytes
after front (p, r) = (front ++ p, r)

whole_marker-esc : (c : ℕ) (cs : Bytes) → (c == 0x1b) ≡ false → whole_marker (c ∷ cs) ≡ false
unfolding whole_marker
whole_marker-esc c cs h = ground arith

cut_marker-esc : (c : ℕ) (cs : Bytes) → (c == 0x1b) ≡ false → cut_marker (c ∷ cs) ≡ false
unfolding cut_marker
cut_marker-esc c cs h = ground arith

pub stripped-drop : (k : ℕ) (d : Bytes) → stripped k d ≡ stripped 0 (drop k d)
unfolding stripped
stripped-drop zero d = refl
stripped-drop (suc k) [] = refl
stripped-drop (suc k) (c ∷ cs) = stripped-drop k cs

stripped-text :
    (c : ℕ) (cs : Bytes) → (c == 0x1b) ≡ false → stripped 0 (c ∷ cs) ≡ keep c (stripped 0 cs)
unfolding stripped
stripped-text c cs h = rw (whole_marker-esc c cs h, cut_marker-esc c cs h)

-- Up to the next ESC the bytes are kept.
stripped-index_byte :
    (d : Bytes) (j : ℕ)
    → index_byte 0x1b d ≡ some j
    → stripped 0 d ≡ after (take j d) (stripped 0 (drop j d))
unfolding index_byte
stripped-index_byte [] j h = cc
stripped-index_byte (c ∷ cs) zero h = refl
stripped-index_byte (c ∷ cs) (suc j) h =
    ground (arith, stripped-text c cs, stripped-index_byte cs j)

stripped-no_esc : (d : Bytes) → index_byte 0x1b d ≡ none → stripped 0 d ≡ (d, [])
unfolding index_byte
stripped-no_esc [] h = unfold stripped in refl
stripped-no_esc (c ∷ cs) h = ground (arith, stripped-text c cs, stripped-no_esc cs)

index_byte-zero : (c : ℕ) (cs : Bytes) → (c == 0x1b) ≡ false → index_byte 0x1b (c ∷ cs) ≢ some 0
unfolding index_byte
index_byte-zero c cs h e = ground arith

after-after : (a b : Bytes) (r : Bytes × Bytes) → after a (after b r) ≡ after (a ++ b) r
after-after a b (p, r) = rw append_assoc

stripped-esc :
    (cs : Bytes)
    → stripped 0 (0x1b ∷ cs) ≡ (
        if whole_marker (0x1b ∷ cs)
        then stripped 0 (drop 7 cs)
        else if cut_marker (0x1b ∷ cs)
        then ([], 0x1b ∷ cs)
        else keep 0x1b (stripped 0 cs))
stripped-esc cs = rw (← stripped-drop 7 cs) (unfold stripped in refl)

loop-text :
    (fuel : ℕ) (payload : Bytes) (c : ℕ) (cs : Bytes)
    → (c == 0x1b) ≡ false
    → length (c ∷ cs) ≤ suc fuel
    → ((pre d : Bytes) → length d ≤ fuel → strip_loop fuel pre d ≡ after pre (stripped 0 d))
    → strip_loop (suc fuel) payload (c ∷ cs) ≡ after payload (stripped 0 (c ∷ cs))
unfolding strip_loop
loop-text fuel payload c cs text h ih = elim (Option-cases (index_byte 0x1b (c ∷ cs))) [
  | inl gone ↦ rw (text, gone, stripped-no_esc (c ∷ cs) gone)
  | inr (zero, e) ↦ absurd (index_byte-zero c cs text e)
  | inr (suc j, e) ↦
      rw (text, e, stripped-index_byte (c ∷ cs) (suc j) e)
        (ih _ (drop j cs) (omega (arith, length-drop j cs))
          ∙ sym (after-after payload (c ∷ take j cs) (stripped 0 (drop j cs))))
]

loop-esc :
    (fuel : ℕ) (payload cs : Bytes)
    → length cs ≤ fuel
    → ((pre d : Bytes) → length d ≤ fuel → strip_loop fuel pre d ≡ after pre (stripped 0 d))
    → strip_loop (suc fuel) payload (0x1b ∷ cs) ≡ after payload (stripped 0 (0x1b ∷ cs))
unfolding strip_loop
loop-esc fuel payload cs h ih = rw (stripped-esc cs) (elim (Bool-cases (whole_marker (0x1b ∷ cs))) [
  | inl whole ↦ rw whole (ih payload (drop 7 cs) (omega (arith, length-drop 7 cs)))
  | inr part ↦ elim (Bool-cases (cut_marker (0x1b ∷ cs))) [
    | inl cut ↦ rw (part, cut, append-nil)
    | inr other ↦
        rw (part, other) (ih _ cs h ∙ sym (after-after payload (0x1b ∷ []) (stripped 0 cs)))
  ]
])

-- With as many rounds as bytes the loop gives the payload so far, then what the definition gives.
strip_loop-stripped :
    (fuel : ℕ) (payload d : Bytes)
    → length d ≤ fuel
    → strip_loop fuel payload d ≡ after payload (stripped 0 d)
strip_loop-stripped zero payload [] h = unfold strip_loop stripped in rw append-nil
strip_loop-stripped (suc fuel) payload [] h = unfold strip_loop stripped in rw append-nil
strip_loop-stripped zero payload (c ∷ cs) h = absurd (omega arith)
strip_loop-stripped (suc fuel) payload (c ∷ cs) h = elim (Bool-cases (c == 0x1b)) [
  | inl is_esc ↦
      let e : c ≡ 0x1b = (==_iff c 0x1b).0 is_esc in
      rw e (loop-esc fuel payload cs (omega arith) (strip_loop-stripped fuel))
  | inr text ↦ loop-text fuel payload c cs text h (strip_loop-stripped fuel)
]

-- The loop of the source, with its bulk copies, computes the byte-by-byte definition on every input.
pub strip_sync_markers-stripped : (d : Bytes) → strip_sync_markers d ≡ stripped 0 d
unfolding strip_sync_markers
strip_sync_markers-stripped d = strip_loop-stripped (length d) [] d (omega arith)
