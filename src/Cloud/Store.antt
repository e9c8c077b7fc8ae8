-- ===== src/Cloud/Store.antt =====
-- The documents of internal/cloud/state, and the Firestore service as the operations the package
-- calls on it (cloud.google.com/go/firestore is not part of the repository).
pub mod Memory
use claude_master_go.Base.{
  ◌≡◌, ◌≢◌, ◌⊎◌, Bool, true, false, Option, none, some, List, [], ◌∷◌, Bytes, ℕ, ℤ, lookup,
  if◌then◌else◌,
}

-- A value of a `map[string]any`: a number, a string, or anything else.
pub data Field : Type 0 where
  number : ℤ → Field
  text : Bytes → Field
  other : Bytes → Field

abbrev pub Doc : Type 0
Doc = List (Bytes × Field)

-- The documents that the package names: pcs/{pc}, pcs/{pc}/sessions/{key}, pairings/{codeHash},
-- wake/{pc}, relaygrants/{id}, revoked/{pc} and commands/{pc}/q/{id}.
pub data Place : Type 0 where
  pc : Bytes → Place
  session : Bytes → Bytes → Place
  pairing : Bytes → Place
  wake : Bytes → Place
  relay_grant : Bytes → Place
  revoked : Bytes → Place
  command : Bytes → Bytes → Place

-- What a `Get` brings: an error, a document that does not exist, or its data.
pub data Snapshot : Type 0 where
  failed : Snapshot
  missing : Snapshot
  found : Doc → Snapshot

-- The service. A write and a deletion return the error as a Boolean.
pub record Firestore : Type 1 where
  pub State : Type 0
  pub get : Place → State → Snapshot
  pub set : Place → Doc → State → State × Bool
  pub merge : Place → Doc → State → State × Bool
  pub delete : Place → State → State × Bool
  pub session_ids : Bytes → State → Option (List Bytes)

-- The service where some reads fail, as any of them may.
abbrev pub with_faults : (Place → Bool) → Firestore → Firestore
with_faults fails fs = record {
  State = fs.State;
  get = λ p s. if fails p then Snapshot.failed else fs.get p s;
  set = fs.set;
  merge = fs.merge;
  delete = fs.delete;
  session_ids = fs.session_ids;
}

-- What the documentation of the service promises where its reads do not fail: a successful write or
-- deletion is read back, and no operation changes another document.
pub record IsLawful (fs : Firestore) : Type 0 where
  pub get-set :
      (p : Place) (d : Doc) (s : fs.State)
      → (fs.set p d s).1 ≡ false
      → fs.get p ((fs.set p d s).0) ≡ found d
  pub get-set_other :
      (p q : Place) (d : Doc) (s : fs.State) → q ≢ p → fs.get q ((fs.set p d s).0) ≡ fs.get q s
  pub get-merge_other :
      (p q : Place) (d : Doc) (s : fs.State) → q ≢ p → fs.get q ((fs.merge p d s).0) ≡ fs.get q s
  -- A merge of all fields keeps the others.
  pub get-merge :
      (p : Place) (d e : Doc) (s : fs.State)
      → fs.get p s ≡ found e
      → (f : Doc) × (fs.get p ((fs.merge p d s).0) ≡ found f)
        × ((k : Bytes) → lookup k d ≡ none → lookup k f ≡ lookup k e)
  -- A field that is merged reads back, and one whose merge failed reads back or is as before.
  pub get-merge_field :
      (p : Place) (d e : Doc) (s : fs.State) (k : Bytes) (v : Field)
      → fs.get p s ≡ found e
      → lookup k d ≡ some v
      → (f : Doc) × (fs.get p ((fs.merge p d s).0) ≡ found f)
        × ((lookup k f ≡ some v) ⊎ (((fs.merge p d s).1 ≡ true) × (lookup k f ≡ lookup k e)))
  pub get-delete :
      (p : Place) (s : fs.State)
      → (fs.delete p s).1 ≡ false
      → fs.get p ((fs.delete p s).0) ≡ missing
  pub get-delete_other :
      (p q : Place) (s : fs.State) → q ≢ p → fs.get q ((fs.delete p s).0) ≡ fs.get q s

-- `v, _ := d[key].(string)`.
unfoldable pub as_text : Option Field → Bytes
as_text (some (text s)) = s
as_text _ = []

unfoldable pub text_field : Bytes → Doc → Bytes
unfolding as_text
text_field key d = as_text (lookup key d)

-- `v, _ := d[key].(int64)`.
unfoldable pub as_number : Option Field → ℤ
as_number (some (number n)) = n
as_number _ = ℤ.pos 0

unfoldable pub number_field : Bytes → Doc → ℤ
unfolding as_number
number_field key d = as_number (lookup key d)

-- What the package uses of package time: an instant as the nanoseconds since 1970, its two formats, and
-- `time.Parse`, which reads either.
pub record Clock : Type 0 where
  pub format : ℕ → Bytes
  pub format_nano : ℕ → Bytes
  pub parse : Bytes → Option ℕ
