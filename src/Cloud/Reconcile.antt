-- ===== src/Cloud/Reconcile.antt =====
-- internal/cloud/agent/remotesync.go, `ReconcileRemote`: the windows of the sessions of other PCs. What the
-- calls of tmux and of the service return is given, none for an error. The label, the colour and the
-- command of a window follow from the session and are left out of the actions.
pub mod Counts
pub mod Once
pub mod Wanted
pub mod Course
use claude_master_go.Base.{
  ◌+◌, ◌*◌, Bool, ◌||◌, Option, none, some, List, [], ◌∷◌, ◌++◌, ltb, if◌then◌else◌, ◌>>=◌, Bytes,
  equal, is_empty, length, put,
}
use claude_master_go.Cloud.Store.{Doc, text_field}
use claude_master_go.Cloud.Push.{or_else, key_key, session_id_key}

-- `meta`, and a row of the snapshot.
pub record Remote : Type 0 where
  pub pc : Bytes
  pub sid : Bytes
  pub dir : Bytes

pub data Repair : Type 0 where
  create_window : Remote → (marker : Bytes) → Repair
  style_window : (id : Bytes) → Remote → Repair
  kill_window_id : (id : Bytes) → Repair

abbrev pub short_dir_key : Bytes
short_dir_key = b's' ∷ b'h' ∷ b'o' ∷ b'r' ∷ b't' ∷ b'_' ∷ b'd' ∷ b'i' ∷ b'r' ∷ []

-- `attachMarker`.
abbrev pub attach_marker : Bytes → Bytes → Bytes
attach_marker pc sid = cloud_attach ++ sid ++ pc_flag ++ pc
  where
    cloud_attach : Bytes
    cloud_attach =
        b'c' ∷ b'l' ∷ b'o' ∷ b'u' ∷ b'd' ∷ b' ' ∷ b'a' ∷ b't' ∷ b't' ∷ b'a' ∷ b'c' ∷ b'h' ∷ b' '
        ∷ []

    pc_flag : Bytes
    pc_flag = b' ' ∷ b'-' ∷ b'-' ∷ b'p' ∷ b'c' ∷ b' ' ∷ []

-- `sessSID`.
abbrev pub sess_sid : Doc → Bytes
sess_sid s = or_else (text_field key_key s) (text_field session_id_key s)

abbrev pub Desired : Type 0
Desired = List (Bytes × Remote)

-- The sessions of one PC: what is desired, and the rows of the snapshot.
unfoldable pub gather_sessions : Bytes → List Doc → Desired × List Remote → Desired × List Remote
gather_sessions pc [] r = r
gather_sessions pc (s ∷ ss) r =
    let sid = sess_sid s in
    let remote : Remote = record {
      pc = pc;
      sid = sid;
      dir = or_else (text_field short_dir_key s) sid;
    } in
    gather_sessions pc ss
      (if is_empty sid then r else (put (attach_marker pc sid) remote (r.0), r.1 ++ remote ∷ []))

-- The loop over the PCs, which the error of one listing ends.
unfoldable pub gather :
    Bytes
    → (Bytes → Option (List Doc))
    → List Bytes
    → Desired × List Remote
    → Option (Desired × List Remote)
gather self sessions [] r = some r
gather self sessions (pc ∷ pcs) r =
    let next = sessions pc >>= (λ ss. gather self sessions pcs (gather_sessions pc ss r)) in
    let skipped = gather self sessions pcs r in
    if equal pc self || is_empty pc then skipped else next

-- The windows of a marker, and the others.
unfoldable pub ids_of : Bytes → List (Bytes × Bytes) → List Bytes
ids_of marker [] = []
ids_of marker ((id, mk) ∷ cur) =
    let rest = ids_of marker cur in if equal mk marker then id ∷ rest else rest

unfoldable pub others_of : Bytes → List (Bytes × Bytes) → List (Bytes × Bytes)
others_of marker [] = []
others_of marker ((id, mk) ∷ cur) =
    let rest = others_of marker cur in if equal mk marker then rest else (id, mk) ∷ rest

unfoldable pub kill_all : List Bytes → List Repair
kill_all [] = []
kill_all (id ∷ ids) = kill_window_id id ∷ kill_all ids

-- One window is kept, or made unless there are too many.
unfoldable pub repair_one : Bool → Bytes → Remote → List Bytes → List Repair
repair_one no_create marker d [] = if no_create then [] else create_window d marker ∷ []
repair_one no_create marker d (id ∷ extra) = style_window id d ∷ kill_all extra

-- The windows that no session is left for.
unfoldable pub kill_left : List (Bytes × Bytes) → List Repair
kill_left [] = []
kill_left ((id, mk) ∷ cur) = kill_window_id id ∷ kill_left cur

unfoldable pub repair_all : Bool → Desired → List (Bytes × Bytes) → List Repair
repair_all no_create [] cur = kill_left cur
repair_all no_create ((marker, d) ∷ desired) cur =
    repair_one no_create marker d (ids_of marker cur)
    ++ repair_all no_create desired (others_of marker cur)

abbrev pub too_many : Desired → List (Bytes × Bytes) → Bool
too_many desired cur = ltb (length desired * 3 + 8) (length cur)

unfoldable pub legacy_of : Option (List Bytes) → List Bytes
legacy_of none = []
legacy_of (some ids) = ids

-- `ReconcileRemote`: the snapshot and the actions, none where it stops at an error and does nothing.
abbrev pub reconcile_remote :
    Bytes
    → Option (List (Bytes × Bytes))
    → Option (List Bytes)
    → (Bytes → Option (List Doc))
    → Option (List Bytes)
    → Option (List Remote × List Repair)
reconcile_remote self marked pcs sessions legacy = marked >>= (λ cur. pcs >>= (λ ps.
    gather self sessions ps ([], []) >>= (λ r.
      some (r.1, repair_all (too_many (r.0) cur) (r.0) cur ++ kill_all (legacy_of legacy)))))
