-- ===== src/Cloud/Push.antt =====
-- internal/cloud/state/state.go: sessionKey, contentHash and PushStatus.
pub mod Hash
pub mod Stored
pub mod Again
use claude_master_go.Base.{
  ℕ, zero, suc, ◌+◌, Bool, true, false, Option, none, some, List, [], ◌∷◌, ltb, ◌==◌, if◌then◌else◌,
  ◌||◌, Bytes, equal, ℤ, pos, negsuc, put,
}
use claude_master_go.Cloud.Store.{
  Field, Doc, Place, Snapshot, Firestore, Clock, text_field, number_field,
}

abbrev pub key_key : Bytes
key_key = b'k' ∷ b'e' ∷ b'y' ∷ []

abbrev pub session_id_key : Bytes
session_id_key = b's' ∷ b'e' ∷ b's' ∷ b's' ∷ b'i' ∷ b'o' ∷ b'n' ∷ b'_' ∷ b'i' ∷ b'd' ∷ []

abbrev pub unknown_id : Bytes
unknown_id = b'u' ∷ b'n' ∷ b'k' ∷ b'n' ∷ b'o' ∷ b'w' ∷ b'n' ∷ []

abbrev pub version_key : Bytes
version_key = b'v' ∷ b'e' ∷ b'r' ∷ b's' ∷ b'i' ∷ b'o' ∷ b'n' ∷ []

abbrev pub hash_key : Bytes
hash_key = b'c' ∷ b'o' ∷ b'n' ∷ b't' ∷ b'e' ∷ b'n' ∷ b't' ∷ b'_' ∷ b'h' ∷ b'a' ∷ b's' ∷ b'h' ∷ []

abbrev pub updated_key : Bytes
updated_key = b'u' ∷ b'p' ∷ b'd' ∷ b'a' ∷ b't' ∷ b'e' ∷ b'd' ∷ b'_' ∷ b'a' ∷ b't' ∷ []

abbrev pub id_key : Bytes
id_key = b'i' ∷ b'd' ∷ []

-- `sessionKey`: the first of two strings that is not empty.
unfoldable pub or_else : Bytes → Bytes → Bytes
or_else [] k = k
or_else (c ∷ s) k = c ∷ s

abbrev pub session_key : Doc → Bytes
session_key s = or_else (text_field key_key s) (or_else (text_field session_id_key s) unknown_id)

-- The order of `sort.Strings`.
unfoldable pub before : Bytes → Bytes → Bool
before a [] = false
before [] (y ∷ b) = true
before (x ∷ a) (y ∷ b) = let rest = before a b in if x == y then rest else ltb x y

unfoldable pub insert_entry : Bytes × Field → List (Bytes × Field) → List (Bytes × Field)
insert_entry e [] = e ∷ []
insert_entry e (x ∷ xs) =
    let rest = insert_entry e xs in if before (e.0) (x.0) then e ∷ x ∷ xs else x ∷ rest

-- The keys that `contentHash` leaves out.
unfoldable pub is_meta : Bytes → Bool
is_meta k = equal k version_key || equal k updated_key || equal k hash_key

-- `ord` of `contentHash`: the other entries by their keys.
unfoldable pub ordered : Doc → List (Bytes × Field)
ordered [] = []
ordered (e ∷ m) = let rest = ordered m in if is_meta (e.0) then rest else insert_entry e rest

-- `pv + 1` on an int64.
unfoldable pub next_version : ℤ → ℤ
next_version (pos n) = if n == 9223372036854775807 then negsuc 9223372036854775807 else pos (suc n)
next_version (negsuc zero) = pos 0
next_version (negsuc (suc n)) = negsuc n

-- The service, the clock and the JSON and SHA-256 of `contentHash` are parameters.
module _ (fs : Firestore) (clock : Clock) (digest : List (Bytes × Field) → Bytes) where
  abbrev pub content_hash : Doc → Bytes
  content_hash m = digest (ordered m)

  -- The version to write, or none where the hash is the one that is stored.
  unfoldable pub version_for : Snapshot → Bytes → Option ℤ
  version_for (Snapshot.found d) h =
      if equal (text_field hash_key d) h
      then none
      else some (next_version (number_field version_key d))
  version_for _ h = some (pos 1)

  -- The document that is written for a session.
  abbrev pub stamped : ℕ → ℤ → Doc → Doc
  stamped now ver s =
      put updated_key (Field.text (clock.format now))
        (put hash_key (Field.text (content_hash s)) (put version_key (Field.number ver) s))

  -- A pass of the loop for one session: the state, the increase of `changed`, and the error.
  unfoldable pub write_session : ℕ → Bytes → Doc → fs.State → Option ℤ → fs.State × (ℕ × Bool)
  write_session now pc s st none = (st, (0, false))
  write_session now pc s st (some ver) =
      let r = fs.set (Place.session pc (session_key s)) (stamped now ver s) st in (r.0, (1, r.1))

  abbrev pub push_session : ℕ → Bytes → Doc → fs.State → fs.State × (ℕ × Bool)
  push_session now pc s st =
      write_session now pc s st
        (version_for (fs.get (Place.session pc (session_key s)) st) (content_hash s))

  -- The loop of `PushStatus`.
  unfoldable pub push_sessions : ℕ → Bytes → List Doc → ℕ → fs.State → fs.State × (ℕ × Bool)
  push_sessions now pc [] changed st = (st, (changed, false))
  push_sessions now pc (s ∷ ss) changed st =
      let r = push_session now pc s st in
      let rest = push_sessions now pc ss (changed + (r.1).0) (r.0) in
      if (r.1).1 then (r.0, (changed + (r.1).0, true)) else rest

  -- The document of the PC itself, merged in when a session has changed; its error is dropped.
  abbrev pub pc_doc : ℕ → Bytes → Doc
  pc_doc now pc = (id_key, Field.text pc) ∷ (updated_key, Field.text (clock.format now)) ∷ []

  unfoldable pub announce : ℕ → Bytes → fs.State × (ℕ × Bool) → fs.State × (ℕ × Bool)
  announce now pc (st, (changed, true)) = (st, (changed, true))
  announce now pc (st, (zero, false)) = (st, (0, false))
  announce now pc (st, (suc changed, false)) =
      ((fs.merge (Place.pc pc) (pc_doc now pc) st).0, (suc changed, false))

  abbrev pub push_status : ℕ → Bytes → List Doc → fs.State → fs.State × (ℕ × Bool)
  push_status now pc ss st = announce now pc (push_sessions now pc ss 0 st)
