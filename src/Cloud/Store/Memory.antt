-- ===== src/Cloud/Store/Memory.antt =====
-- A service in memory: the promises of the interface can be kept.
use claude_master_go.Base.{
  ℕ, ◌==◌, ◌≡◌, ◌≢◌, ◌⊎◌, refl, sym, ap, ◌∙◌, inl, inr, Bool, true, false, ◌&&◌, List, [], ◌∷◌,
  Bytes, some, none, equal, lookup, equal_refl, equal→eq, if◌then◌else◌, Bool-cases, ◌++◌, arith,
}
use claude_master_go.Cloud.Store.{Field, Doc, Place, Snapshot, Firestore, IsLawful}

-- A document's collection and the ids on its path.
abbrev pub kind : Place → ℕ
kind (Place.pc a) = 0
kind (Place.session a k) = 1
kind (Place.pairing a) = 2
kind (Place.wake a) = 3
kind (Place.relay_grant a) = 4
kind (Place.revoked a) = 5
kind (Place.command a k) = 6

abbrev pub outer : Place → Bytes
outer (Place.pc a) = a
outer (Place.session a k) = a
outer (Place.pairing a) = a
outer (Place.wake a) = a
outer (Place.relay_grant a) = a
outer (Place.revoked a) = a
outer (Place.command a k) = a

abbrev pub inner : Place → Bytes
inner (Place.session a k) = k
inner (Place.command a k) = k
inner _ = []

abbrev place : ℕ → Bytes → Bytes → Place
place n a k =
    if n == 0
    then Place.pc a
    else if n == 1
    then Place.session a k
    else if n == 2
    then Place.pairing a
    else if n == 3
    then Place.wake a
    else if n == 4
    then Place.relay_grant a
    else if n == 5
    then Place.revoked a
    else Place.command a k

place-kind : (p : Place) → place (kind p) (outer p) (inner p) ≡ p
place-kind (Place.pc a) = refl
place-kind (Place.session a k) = refl
place-kind (Place.pairing a) = refl
place-kind (Place.wake a) = refl
place-kind (Place.relay_grant a) = refl
place-kind (Place.revoked a) = refl
place-kind (Place.command a k) = refl

unfoldable pub same : Place → Place → Bool
same p q = kind p == kind q && (equal (outer p) (outer q) && equal (inner p) (inner q))

same_refl : (p : Place) → same p p ≡ true
unfolding same
same_refl p = ground (arith, equal_refl (outer p), equal_refl (inner p))

same_parts :
    (p q : Place)
    → same p q ≡ true
    → (kind p ≡ kind q) × (equal (outer p) (outer q) ≡ true) × (equal (inner p) (inner q) ≡ true)
unfolding same
same_parts p q h = ground arith

same→eq : (p q : Place) → same p q ≡ true → p ≡ q
same→eq p q h =
    let parts = same_parts p q h in
    sym (place-kind p)
    ∙ ap (λ n. place n (outer p) (inner p)) (parts.0)
    ∙ ap (λ a. place (kind q) a (inner p)) (equal→eq (outer p) (outer q) (parts.1))
    ∙ ap (place (kind q) (outer q)) (equal→eq (inner p) (inner q) (parts.2))
    ∙ place-kind q

differs : (p q r : Place) → q ≢ p → same p r ≡ true → same q r ≡ false
differs p q r n e = elim (Bool-cases (same q r)) [
  | inl t ↦ absurd (n (same→eq q r t ∙ sym (same→eq p r e)))
  | inr f ↦ f
]

abbrev pub Memory : Type 0
Memory = List (Place × Doc)

unfoldable pub read : Place → Memory → Snapshot
read p [] = Snapshot.missing
read p ((q, d) ∷ m) = let rest = read p m in if same p q then Snapshot.found d else rest

unfoldable pub remove : Place → Memory → Memory
remove p [] = []
remove p ((q, d) ∷ m) = let rest = remove p m in if same p q then rest else (q, d) ∷ rest

-- The fields of a merged document come first.
unfoldable pub merged : Doc → Snapshot → Doc
merged d (Snapshot.found e) = d ++ e
merged d _ = d

unfoldable pub keys_of : Bytes → Memory → List Bytes
keys_of pc [] = []
keys_of pc ((Place.session b k, d) ∷ m) =
    let rest = keys_of pc m in if equal pc b then k ∷ rest else rest
keys_of pc (_ ∷ m) = keys_of pc m

abbrev pub memory : Firestore
memory = record {
  State = Memory;
  get = read;
  set = λ p d m. ((p, d) ∷ remove p m, false);
  merge = λ p d m. ((p, merged d (read p m)) ∷ remove p m, false);
  delete = λ p m. (remove p m, false);
  session_ids = λ pc m. some (keys_of pc m);
}

read-remove : (p : Place) (m : Memory) → read p (remove p m) ≡ Snapshot.missing
unfolding read remove
read-remove p [] = refl
read-remove p ((r, d) ∷ m) = elim (Bool-cases (same p r)) [
  | inl e ↦ simp (e, read-remove p m)
  | inr e ↦ simp (e, read-remove p m)
]

read-remove_other : (p q : Place) (m : Memory) → q ≢ p → read q (remove p m) ≡ read q m
unfolding read remove
read-remove_other p q [] n = refl
read-remove_other p q ((r, d) ∷ m) n = elim (Bool-cases (same p r)) [
  | inl e ↦ simp (e, differs p q r n e, read-remove_other p q m n)
  | inr e ↦ simp (e, read-remove_other p q m n)
]

read-written : (p : Place) (d : Doc) (m : Memory) → read p ((p, d) ∷ m) ≡ Snapshot.found d
unfolding read
read-written p d m = rw (same_refl p) refl

read-written_other :
    (p q : Place) (d : Doc) (m : Memory) → q ≢ p → read q ((p, d) ∷ remove p m) ≡ read q m
unfolding read
read-written_other p q d m n = simp (differs p q p n (same_refl p)) (read-remove_other p q m n)

lookup-append : (k : Bytes) (d e : Doc) → lookup k d ≡ none → lookup k (d ++ e) ≡ lookup k e
unfolding lookup
lookup-append k [] e h = refl
lookup-append k ((x, v) ∷ d) e h = elim (Bool-cases (equal k x)) [
  | inl t ↦ cc (hit t, h)
  | inr f ↦ simp f (lookup-append k d e (sym (miss f) ∙ h))
]
  where
    hit : equal k x ≡ true → lookup k ((x, v) ∷ d) ≡ some v
    hit t = simp t

    miss : equal k x ≡ false → lookup k ((x, v) ∷ d) ≡ lookup k d
    miss f = simp f

read-merged :
    (p : Place) (d e : Doc) (m : Memory)
    → read p m ≡ Snapshot.found e
    → (f : Doc) × (read p ((p, merged d (read p m)) ∷ remove p m) ≡ Snapshot.found f)
      × ((k : Bytes) → lookup k d ≡ none → lookup k f ≡ lookup k e)
unfolding merged
read-merged p d e m h = (
  d ++ e,
  read-written p (merged d (read p m)) (remove p m) ∙ ap (λ s. Snapshot.found (merged d s)) h,
  λ k n. lookup-append k d e n,
)

lookup-append_hit :
    (k : Bytes) (v : Field) (d e : Doc) → lookup k d ≡ some v → lookup k (d ++ e) ≡ some v
unfolding lookup
lookup-append_hit k v [] e h = cc
lookup-append_hit k v ((x, w) ∷ d) e h = elim (Bool-cases (equal k x)) [
  | inl t ↦ simp t (sym (hit t) ∙ h)
  | inr f ↦ simp f (lookup-append_hit k v d e (sym (miss f) ∙ h))
]
  where
    hit : equal k x ≡ true → lookup k ((x, w) ∷ d) ≡ some w
    hit t = simp t

    miss : equal k x ≡ false → lookup k ((x, w) ∷ d) ≡ lookup k d
    miss f = simp f

read-merged_field :
    (p : Place) (d e : Doc) (m : Memory) (k : Bytes) (v : Field)
    → read p m ≡ Snapshot.found e
    → lookup k d ≡ some v
    → (f : Doc) × (read p ((p, merged d (read p m)) ∷ remove p m) ≡ Snapshot.found f)
      × ((lookup k f ≡ some v) ⊎ ((false ≡ true) × (lookup k f ≡ lookup k e)))
unfolding read-merged
read-merged_field p d e m k v h has =
    (d ++ e, (read-merged p d e m h).1, inl (lookup-append_hit k v d e has))

pub memory-IsLawful : IsLawful memory
memory-IsLawful = record {
  get-set = λ p d m ok. read-written p d (remove p m);
  get-set_other = λ p q d m n. read-written_other p q d m n;
  get-merge_other = λ p q d m n. read-written_other p q (merged d (read p m)) m n;
  get-merge = λ p d e m h. read-merged p d e m h;
  get-merge_field = λ p d e m k v h has. read-merged_field p d e m k v h has;
  get-delete = λ p m ok. read-remove p m;
  get-delete_other = λ p q m n. read-remove_other p q m n;
}
