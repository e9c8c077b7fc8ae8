-- ===== src/Cloud/Pairing.antt =====
-- internal/cloud/state/state.go: the codes that pair a browser (CreatePairing and ConsumePairing).
pub mod Once
use claude_master_go.Base.{
  ℕ, ◌+◌, Bool, Option, none, some, List, [], ◌∷◌, ltb, if◌then◌else◌, Bytes,
}
use claude_master_go.Cloud.Store.{Field, Doc, Place, Snapshot, Firestore, Clock, text_field}

abbrev pub pc_key : Bytes
pc_key = b'p' ∷ b'c' ∷ []

abbrev pub scope_key : Bytes
scope_key = b's' ∷ b'c' ∷ b'o' ∷ b'p' ∷ b'e' ∷ []

abbrev pub expires_key : Bytes
expires_key = b'e' ∷ b'x' ∷ b'p' ∷ b'i' ∷ b'r' ∷ b'e' ∷ b's' ∷ b'_' ∷ b'a' ∷ b't' ∷ []

module _ (fs : Firestore) (clock : Clock) where
  abbrev pub pairing_doc : ℕ → Bytes → Bytes → ℕ → Doc
  pairing_doc now pc scope ttl =
      (pc_key, Field.text pc)
      ∷ (scope_key, Field.text scope)
      ∷ (expires_key, Field.text (clock.format (now + ttl)))
      ∷ []

  -- `CreatePairing`, with its error.
  abbrev pub create_pairing : ℕ → Bytes → Bytes → Bytes → ℕ → fs.State → fs.State × Bool
  create_pairing now code pc scope ttl st =
      fs.set (Place.pairing code) (pairing_doc now pc scope ttl) st

  -- The PC and the scope of a pairing, unless its time does not parse or is past.
  unfoldable pub accept : ℕ → Doc → Option ℕ → Option (Bytes × Bytes)
  accept now d none = none
  accept now d (some t) =
      if ltb t now then none else some (text_field pc_key d, text_field scope_key d)

  -- `ConsumePairing`: the document is deleted whether or not it is accepted, and the error of the
  -- deletion is dropped.
  unfoldable pub consume : ℕ → Bytes → fs.State → Snapshot → fs.State × Option (Bytes × Bytes)
  consume now code st (Snapshot.found d) =
      ((fs.delete (Place.pairing code) st).0, accept now d (clock.parse (text_field expires_key d)))
  consume now code st _ = (st, none)

  abbrev pub consume_pairing : ℕ → Bytes → fs.State → fs.State × Option (Bytes × Bytes)
  consume_pairing now code st = consume now code st (fs.get (Place.pairing code) st)
