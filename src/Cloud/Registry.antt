-- ===== src/Cloud/Registry.antt =====
-- internal/cloud/state/state.go: the documents of a PC (RegisterPCVersion, PCVersion, deletePC,
-- DeleteSession and Wake).
pub mod Kept
use claude_master_go.Base.{
  is_empty, ℕ, Bool, false, Option, none, some, List, [], ◌∷◌, if◌then◌else◌, Bytes,
}
use claude_master_go.Cloud.Store.{Field, Doc, Place, Snapshot, Firestore, Clock, text_field}
use claude_master_go.Cloud.Push.{id_key, updated_key}
use claude_master_go.Cloud.Grant.{sid_key}

abbrev pub cm_version_key : Bytes
cm_version_key = b'c' ∷ b'm' ∷ b'_' ∷ b'v' ∷ b'e' ∷ b'r' ∷ b's' ∷ b'i' ∷ b'o' ∷ b'n' ∷ []

abbrev pub ts_key : Bytes
ts_key = b't' ∷ b's' ∷ []

module _ (fs : Firestore) (clock : Clock) where
  unfoldable pub registered : ℕ → Bytes → Bytes → Doc
  registered now pc version =
      if is_empty version
      then (id_key, Field.text pc) ∷ (updated_key, Field.text (clock.format now)) ∷ []
      else (cm_version_key, Field.text version)
        ∷ (id_key, Field.text pc)
        ∷ (updated_key, Field.text (clock.format now))
        ∷ []

  -- `RegisterPCVersion`, with its error; `RegisterPC` passes an empty version.
  abbrev pub register_pc_version : ℕ → Bytes → Bytes → fs.State → fs.State × Bool
  register_pc_version now pc version st = fs.set (Place.pc pc) (registered now pc version) st

  -- `PCVersion`.
  unfoldable pub version_of : Snapshot → Bytes
  version_of (Snapshot.found d) = text_field cm_version_key d
  version_of _ = []

  abbrev pub pc_version : Bytes → fs.State → Bytes
  pc_version pc st = version_of (fs.get (Place.pc pc) st)

  -- The loop of `deletePC` over the documents of the sessions, whose errors are dropped.
  unfoldable pub delete_sessions : Bytes → List Bytes → fs.State → fs.State
  delete_sessions pc [] st = st
  delete_sessions pc (k ∷ ks) st = delete_sessions pc ks ((fs.delete (Place.session pc k) st).0)

  unfoldable pub listed : Option (List Bytes) → List Bytes
  listed none = []
  listed (some ks) = ks

  -- `deletePC`; `DeletePC` and `DeletePCByID` are calls of it.
  unfoldable pub delete_pc : Bytes → fs.State → fs.State × Bool
  delete_pc pc st =
      if is_empty pc
      then (st, false)
      else fs.delete (Place.wake pc)
          ((fs.delete (Place.pc pc) (delete_sessions pc (listed (fs.session_ids pc st)) st)).0)

  -- `DeleteSession` of the client of `pc`.
  unfoldable pub delete_session : Bytes → Bytes → fs.State → fs.State × Bool
  delete_session pc key st =
      if is_empty key then (st, false) else fs.delete (Place.session pc key) st

  -- `Wake`.
  abbrev pub set_wake : ℕ → Bytes → Bytes → fs.State → fs.State × Bool
  set_wake now pc sid st =
      fs.set (Place.wake pc)
        ((sid_key, Field.text sid) ∷ (ts_key, Field.text (clock.format_nano now)) ∷ []) st
