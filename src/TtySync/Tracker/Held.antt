-- ===== src/TtySync/Tracker/Held.antt =====
-- `tailTracker` (internal/ttysync/syncwrap.go) at a flush: the tail that the pump holds back is
-- tracked as if the stream began with it.
use claude_master_go.Base.{
  ℕ, suc, ◌+◌, ◌≤◌, ◌<◌, ◌≡◌, ◌≢◌, refl, sym, ap, ◌∙◌, ◌⊎◌, inl, inr, none, some, [], ◌∷◌, ◌++◌,
  append_assoc, append-nil, arith, Bytes, length, length-append, drop, take,
}
use claude_master_go.TtySync.Ansi.{AnsiState}
use claude_master_go.TtySync.Tracker.{
  TailTracker, new_tail_tracker, feed, feed_all, split_at, rebase,
}

-- Trackers that differ only in where the buffer begins: `t` counts `k` bytes more than `u`.
pub record IsShift (k : ℕ) (t u : TailTracker) : Type 0 where
  pub state : t.state ≡ u.state
  pub utf8_rem : t.utf8_rem ≡ u.utf8_rem
  pub seq_start : t.seq_start ≡ elim u.seq_start [ none ↦ none | some s ↦ some (k + s) ]

feed-IsShift :
    (k b off : ℕ) (t u : TailTracker)
    → IsShift k t u
    → IsShift k (feed t b (k + off)) (feed u b off)
unfolding feed
feed-IsShift k b off t u h = ground arith

pub feed_all-append :
    (t : TailTracker) (off : ℕ) (xs ys : Bytes)
    → feed_all t off (xs ++ ys) ≡ feed_all (feed_all t off xs) (off + length xs) ys
unfolding feed_all
feed_all-append t off [] ys = ap (λ (n : ℕ). feed_all t n ys) (omega arith)
feed_all-append t off (x ∷ xs) ys =
    feed_all-append (feed t x off) (suc off) xs ys
    ∙ ap (λ (n : ℕ). feed_all (feed_all (feed t x off) (suc off) xs) n ys) (omega arith)

feed_all-snoc :
    (t : TailTracker) (off : ℕ) (xs : Bytes) (b : ℕ)
    → feed_all t off (xs ++ b ∷ []) ≡ feed (feed_all t off xs) b (off + length xs)
feed_all-snoc t off xs b = feed_all-append t off xs (b ∷ []) ∙ unfold feed_all in refl

-- Where nothing is open the tracker is as new, and a rune is open in the ground state alone.
pub record IsTidy (t : TailTracker) : Type 0 where
  pub idle : t.seq_start ≡ none → (t.state ≡ AnsiState.ground) × (t.utf8_rem ≡ 0)
  pub rune : 0 < t.utf8_rem → t.state ≡ AnsiState.ground

pub feed-IsTidy : (t : TailTracker) (b off : ℕ) → IsTidy t → IsTidy (feed t b off)
unfolding feed
feed-IsTidy t b off h = ground arith

-- After a byte nothing is open, or what is open began with this byte, or it had begun before.
feed-cases :
    (t : TailTracker) (b off : ℕ)
    → IsTidy t
    → let t' = feed t b off in
      (t'.seq_start ≡ none)
      ⊎ ((t'.seq_start ≡ some off) × IsShift off t' (feed new_tail_tracker b 0))
      ⊎ ((t'.seq_start ≡ t.seq_start) × (t.seq_start ≢ none))
unfolding feed
feed-cases t b off h = ground arith

-- The buffer is `closed ++ open_tail`: what is open begins with `open_tail`, and the tracker is the
-- one that has read `open_tail` alone from the start.
pub record Splits (t : TailTracker) (buf : Bytes) : Type 0 where
  pub closed : Bytes
  pub open_tail : Bytes
  pub joins : buf ≡ closed ++ open_tail
  pub tracks : IsShift (length closed) t (feed_all new_tail_tracker 0 open_tail)
  pub starts : ((open_tail ≡ []) × (t.seq_start ≡ none)) ⊎ (t.seq_start ≡ some (length closed))

Splits-idle : (t : TailTracker) (buf : Bytes) → IsTidy t → t.seq_start ≡ none → Splits t buf
Splits-idle t buf h e = record {
  closed = buf;
  open_tail = [];
  joins = sym (append-nil buf);
  tracks = unfold feed_all in ground arith;
  starts = inl (refl, e);
}

Splits-restart :
    (t : TailTracker) (buf : Bytes) (b : ℕ)
    → t.seq_start ≡ some (length buf)
    → IsShift (length buf) t (feed new_tail_tracker b 0)
    → Splits t (buf ++ b ∷ [])
Splits-restart t buf b e h = record {
  closed = buf;
  open_tail = b ∷ [];
  joins = refl;
  tracks = unfold feed_all in h;
  starts = inr e;
}

Splits-go_on :
    (t : TailTracker) (buf : Bytes) (b : ℕ) (s : Splits t buf)
    → (feed t b (length buf)).seq_start ≡ t.seq_start
    → t.seq_start ≢ none
    → Splits (feed t b (length buf)) (buf ++ b ∷ [])
Splits-go_on t buf b s e ne =
    let size : length buf ≡ length s.closed + length s.open_tail =
      ap length s.joins ∙ length-append s.closed s.open_tail in
    record {
      closed = s.closed;
      open_tail = s.open_tail ++ b ∷ [];
      joins = rw (← append_assoc s.closed s.open_tail (b ∷ [])) (ap (λ xs. xs ++ b ∷ []) s.joins);
      tracks =
          rw (size, feed_all-snoc new_tail_tracker 0 s.open_tail b)
            (let zero_first : 0 + length s.open_tail ≡ length s.open_tail = omega arith in
              rw zero_first (feed-IsShift (length s.closed) b (length s.open_tail) t _ s.tracks));
      starts = ground arith;
    }

pub Splits-snoc :
    (t : TailTracker) (buf : Bytes) (b : ℕ)
    → IsTidy t
    → Splits t buf
    → Splits (feed t b (length buf)) (buf ++ b ∷ [])
Splits-snoc t buf b h s = elim (feed-cases t b (length buf) h) [
  | inl gone ↦ Splits-idle _ _ (feed-IsTidy t b (length buf) h) gone
  | inr (inl (e, shift)) ↦ Splits-restart _ buf b e shift
  | inr (inr (e, ne)) ↦ Splits-go_on t buf b s e ne
]

-- What the pump keeps of a tracker and its buffer.
pub record Tracks (t : TailTracker) (buf : Bytes) : Type 0 where
  pub is_tidy : IsTidy t
  pub splits : Splits t buf

pub Tracks-nil : Tracks new_tail_tracker []
Tracks-nil = record {
  is_tidy = ground arith;
  splits = Splits-idle new_tail_tracker [] (ground arith) refl;
}

Tracks-snoc :
    (t : TailTracker) (xs : Bytes) (y : ℕ)
    → Tracks t xs
    → Tracks (feed t y (length xs)) (xs ++ y ∷ [])
Tracks-snoc t xs y h = record {
  is_tidy = feed-IsTidy t y (length xs) h.is_tidy;
  splits = Splits-snoc t xs y h.is_tidy h.splits;
}

feed_all-cons :
    (t : TailTracker) (off : ℕ) (y : ℕ) (ys : Bytes)
    → feed_all t off (y ∷ ys) ≡ feed_all (feed t y off) (suc off) ys
unfolding feed_all
feed_all-cons t off y ys = refl

pub Tracks-append :
    (ys : Bytes) (t : TailTracker) (xs : Bytes)
    → Tracks t xs
    → Tracks (feed_all t (length xs) ys) (xs ++ ys)
Tracks-append [] t xs h = rw append-nil (unfold feed_all in h)
Tracks-append (y ∷ ys) t xs h =
    let next = Tracks-append ys (feed t y (length xs)) (xs ++ y ∷ []) (Tracks-snoc t xs y h) in
    let size : length (xs ++ y ∷ []) ≡ suc (length xs) = omega (arith, length-append xs (y ∷ [])) in
    rw feed_all-cons (rw (size, append_assoc) at next)

drop-append : (xs ys : Bytes) → drop (length xs) (xs ++ ys) ≡ ys
drop-append [] ys = refl
drop-append (x ∷ xs) ys = drop-append xs ys

take-append : (xs ys : Bytes) → take (length xs) (xs ++ ys) ≡ xs
take-append [] ys = refl
take-append (x ∷ xs) ys = ap (◌∷◌ x) (take-append xs ys)

module _ (t : TailTracker) (buf : Bytes) (h : Tracks t buf) where
  split_at-closed : split_at t (length buf) ≡ length h.splits.closed
  unfolding split_at
  split_at-closed =
      ground (arith, ap length h.splits.joins, length-append h.splits.closed h.splits.open_tail)

  drop-split_at : drop (split_at t (length buf)) buf ≡ h.splits.open_tail
  drop-split_at = rw split_at-closed (
      ap (drop (length h.splits.closed)) h.splits.joins
      ∙ drop-append h.splits.closed h.splits.open_tail)

  rebase-open_tail :
      rebase t (length h.splits.closed) ≡ feed_all new_tail_tracker 0 h.splits.open_tail
  unfolding rebase
  rebase-open_tail = ground (arith, h.splits.tracks)

  -- A flush keeps the tracker and the buffer in step.
  pub rebase-held :
      rebase t (split_at t (length buf))
      ≡ feed_all new_tail_tracker 0 (drop (split_at t (length buf)) buf)
  rebase-held = rw (drop-split_at, split_at-closed) rebase-open_tail

  pub split_at-le : split_at t (length buf) ≤ length buf
  split_at-le = omega (
    arith,
    split_at-closed,
    ap length h.splits.joins,
    length-append h.splits.closed h.splits.open_tail,
  )

pub Tracks-feed_all : (buf : Bytes) → Tracks (feed_all new_tail_tracker 0 buf) buf
Tracks-feed_all buf = Tracks-append buf new_tail_tracker [] Tracks-nil

-- For every buffer that the tracker has read from the start, the split lies within the buffer, and
-- the tracker that `Rebase` leaves is the one that reads the held tail from the start. So a sequence
-- or a rune that a flush holds back is followed, from then on, as if no flush had taken place.
pub rebase-split_at :
    (buf : Bytes)
    → let t = feed_all new_tail_tracker 0 buf in
      let s = split_at t (length buf) in
      (s ≤ length buf) × (rebase t s ≡ feed_all new_tail_tracker 0 (drop s buf))
rebase-split_at buf = let h = Tracks-feed_all buf in (split_at-le _ buf h, rebase-held _ buf h)
