-- ===== src/Cloud/Pairing/Once.antt =====
-- A pairing code is good once, and for its time (internal/cloud/state/state.go).
use claude_master_go.Base.{ℕ, ◌+◌, ◌≤◌, ◌≡◌, refl, false, none, some, Bytes, lookup, arith}
use claude_master_go.Cloud.Store.{Place, Snapshot, Firestore, IsLawful, Clock, text_field, as_text}
use claude_master_go.Cloud.Pairing.{pairing_doc, create_pairing, accept, consume, consume_pairing}

module _ (fs : Firestore) (clock : Clock) (law : IsLawful fs) where
  -- A code that was created without an error, and whose time is written so that it reads back as
  -- `limit`, gives its PC and its scope until then.
  pub consume_pairing-create_pairing :
      (now later limit ttl : ℕ) (code pc scope : Bytes) (st : fs.State)
      → (create_pairing fs clock now code pc scope ttl st).1 ≡ false
      → clock.parse (clock.format (now + ttl)) ≡ some limit
      → later ≤ limit
      → (consume_pairing fs clock later code
          ((create_pairing fs clock now code pc scope ttl st).0)).1
        ≡ some (pc, scope)
  unfolding consume accept text_field as_text lookup
  consume_pairing-create_pairing now later limit ttl code pc scope st ok reads h =
      rw (law.get-set (Place.pairing code) (pairing_doc fs clock now pc scope ttl) st ok, reads)
        (ground arith)

  consume-twice :
      (now later : ℕ) (code : Bytes) (st : fs.State) (snap : Snapshot)
      → fs.get (Place.pairing code) st ≡ snap
      → (fs.delete (Place.pairing code) st).1 ≡ false
      → (consume_pairing fs clock later code ((consume fs clock now code st snap).0)).1 ≡ none
  unfolding consume
  consume-twice now later code st Snapshot.failed e ok = rw e refl
  consume-twice now later code st Snapshot.missing e ok = rw e refl
  consume-twice now later code st (Snapshot.found d) e ok =
      rw (law.get-delete (Place.pairing code) st ok) refl

  -- Where the deletion does not fail, a code that was consumed, with whatever result, is refused at
  -- any later time.
  pub consume_pairing-twice :
      (now later : ℕ) (code : Bytes) (st : fs.State)
      → (fs.delete (Place.pairing code) st).1 ≡ false
      → (consume_pairing fs clock later code ((consume_pairing fs clock now code st).0)).1 ≡ none
  consume_pairing-twice now later code st =
      consume-twice now later code st (fs.get (Place.pairing code) st) refl
