-- ===== src/Cloud/Push/Hash.antt =====
-- `contentHash` (internal/cloud/state/state.go) reads a Go map, whose entries come in any order.
use claude_master_go.Base.{
  ◌≡◌, ◌≢◌, refl, sym, ap, ◌∙◌, inl, inr, true, false, List, [], ◌∷◌, Bytes, equal, delete, put,
  arith, Bool-cases, equal→eq,
}
use claude_master_go.Cloud.Store.{Field, Doc}
use claude_master_go.Cloud.Push.{before, insert_entry, is_meta, ordered}

before_asym : (a b : Bytes) → before a b ≡ true → before b a ≡ false
unfolding before
before_asym a [] h = cc
before_asym [] (y ∷ b) h = refl
before_asym (x ∷ a) (y ∷ b) h = ground (arith, before_asym a b)

before_trans : (a b c : Bytes) → before a b ≡ true → before b c ≡ true → before a c ≡ true
unfolding before
before_trans a [] c h k = cc
before_trans a (y ∷ b) [] h k = cc
before_trans [] (y ∷ b) (z ∷ c) h k = refl
before_trans (x ∷ a) (y ∷ b) (z ∷ c) h k = ground (arith, before_trans a b c)

before_total : (a b : Bytes) → before a b ≡ false → before b a ≡ false → a ≡ b
unfolding before
before_total [] [] h k = refl
before_total [] (y ∷ b) h k = cc
before_total (x ∷ a) [] h k = cc
before_total (x ∷ a) (y ∷ b) h k = ground (arith, before_total a b)

-- The smaller of two different keys goes first.
apart : (a b : Bytes) → a ≢ b → before a b ≡ false → before b a ≡ true
apart a b n h = elim (Bool-cases (before b a)) [
  | inl t ↦ t
  | inr f ↦ absurd (n (before_total a b h f))
]

before_not : (a b c : Bytes) → before a b ≡ true → before a c ≡ false → before b c ≡ false
before_not a b c h k = elim (Bool-cases (before b c)) [
  | inl t ↦ cc (before_trans a b c h t)
  | inr f ↦ f
]

-- Two insertions of entries with ordered keys commute.
insert_entry-under :
    (a b : Bytes × Field) (xs : List (Bytes × Field))
    → before (a.0) (b.0) ≡ true
    → insert_entry a (insert_entry b xs) ≡ insert_entry b (insert_entry a xs)
unfolding insert_entry
insert_entry-under a b [] h = simp (h, before_asym (a.0) (b.0) h)
insert_entry-under a b (x ∷ xs) h = elim (Bool-cases (before (a.0) (x.0))) [
  | inl ax ↦ elim (Bool-cases (before (b.0) (x.0))) [
    | inl bx ↦ simp (ax, bx, h, before_asym (a.0) (b.0) h)
    | inr bx ↦ simp (ax, bx, h, before_asym (a.0) (b.0) h)
  ]
  | inr ax ↦ simp (ax, before_not (a.0) (b.0) (x.0) h ax, insert_entry-under a b xs h)
]

insert_entry-insert_entry :
    (a b : Bytes × Field) (xs : List (Bytes × Field))
    → a.0 ≢ b.0
    → insert_entry a (insert_entry b xs) ≡ insert_entry b (insert_entry a xs)
insert_entry-insert_entry a b xs n = elim (Bool-cases (before (a.0) (b.0))) [
  | inl h ↦ insert_entry-under a b xs h
  | inr h ↦ sym (insert_entry-under b a xs (apart (a.0) (b.0) n h))
]

-- The same map listed in another order: each key has one entry, and neighbours are exchanged.
pub data Reordered : Doc → Doc → Type 0 where
  nil : Reordered [] []
  cons : {e : Bytes × Field} {m m' : Doc} → Reordered m m' → Reordered (e ∷ m) (e ∷ m')
  swap : {a b : Bytes × Field} {m : Doc} → a.0 ≢ b.0 → Reordered (a ∷ b ∷ m) (b ∷ a ∷ m)
  trans : {m m' m'' : Doc} → Reordered m m' → Reordered m' m'' → Reordered m m''

ordered-swap :
    (a b : Bytes × Field) (m : Doc) → a.0 ≢ b.0 → ordered (a ∷ b ∷ m) ≡ ordered (b ∷ a ∷ m)
unfolding ordered
ordered-swap a b m n = elim (Bool-cases (is_meta (a.0))) [
  | inl am ↦ elim (Bool-cases (is_meta (b.0))) [ inl bm ↦ simp (am, bm) | inr bm ↦ simp (am, bm) ]
  | inr am ↦ elim (Bool-cases (is_meta (b.0))) [
    | inl bm ↦ simp (am, bm)
    | inr bm ↦ simp (am, bm) (insert_entry-insert_entry a b (ordered m) n)
  ]
]

-- What is hashed of a status does not depend on the order in which the entries of the map come.
pub ordered-Reordered : (m m' : Doc) → Reordered m m' → ordered m ≡ ordered m'
unfolding ordered
ordered-Reordered m m' nil = refl
ordered-Reordered m m' (cons {m = k} {m' = k'} r) = rw (ordered-Reordered k k' r)
ordered-Reordered m m' (swap {a = a} {b = b} {m = k} n) = ordered-swap a b k n
ordered-Reordered m m'' (trans {m' = m'} r q) =
    ordered-Reordered m m' r ∙ ordered-Reordered m' m'' q

-- Writing one of the three fields of the service leaves what is hashed.
pub ordered-put :
    (k : Bytes) (v : Field) (m : Doc) → is_meta k ≡ true → ordered (put k v m) ≡ ordered m
unfolding ordered delete
ordered-put k v m h = simp h (skip m)
  where
    skip : (m : Doc) → ordered (delete k m) ≡ ordered m
    skip [] = refl
    skip (e ∷ m) = elim (Bool-cases (equal k (e.0))) [
      | inl same ↦ simp (same, ap is_meta (sym (equal→eq k (e.0) same)) ∙ h, skip m)
      | inr other ↦ simp (other, skip m)
    ]
