-- ===== src/Scenarios/Windows.antt =====
-- Concrete inputs for internal/cloud/agent/remotesync.go: two sessions of another PC, of which one has
-- two windows and one has none, a window of a session that is gone, and a legacy window.
use claude_master_go.Base.{
  ◌⊎◌, ◌≡◌, refl, true, false, Option, some, List, [], ◌∷◌, Bytes, arith, delete, is_empty, lookup,
}
use claude_master_go.Cloud.Store.{Field, Doc, text_field, as_text}
use claude_master_go.Cloud.Push.{session_id_key, or_else}
use claude_master_go.Cloud.Reconcile.{
  Remote, Repair, Desired, ids_of, gather_sessions, gather, attach_marker, legacy_of, too_many,
  reconcile_remote,
}
use claude_master_go.Cloud.Reconcile.Counts.{has, has_id, windows_of}
use claude_master_go.Cloud.Reconcile.Wanted.{IsWanted}
use claude_master_go.Cloud.Reconcile.Once.{expected}
use claude_master_go.Cloud.Reconcile.Course.{reconcile_remote-windows}

abbrev self : Bytes
self = 7 ∷ []

abbrev peer : Bytes
peer = 6 ∷ []

abbrev remote : Bytes → Remote
remote sid = record { pc = peer; sid = sid; dir = sid }

abbrev session : Bytes → Doc
session sid = (session_id_key, Field.text sid) ∷ []

abbrev listing : Bytes → Option (List Doc)
listing pc = some (session (5 ∷ []) ∷ session (4 ∷ []) ∷ [])

abbrev marked : List (Bytes × Bytes)
marked =
    (1 ∷ [], attach_marker peer (5 ∷ []))
    ∷ (2 ∷ [], attach_marker peer (5 ∷ []))
    ∷ (3 ∷ [], 9 ∷ [])
    ∷ []

abbrev desired : Desired
desired =
    (attach_marker peer (4 ∷ []), remote (4 ∷ []))
    ∷ (attach_marker peer (5 ∷ []), remote (5 ∷ []))
    ∷ []

abbrev snapshot : List Remote
snapshot = remote (5 ∷ []) ∷ remote (4 ∷ []) ∷ []

abbrev legacy : List Bytes
legacy = (8 ∷ []) ∷ []

gathered : gather self listing (self ∷ peer ∷ []) ([], []) ≡ some (desired, snapshot)
unfolding gather gather_sessions is_empty text_field as_text lookup delete or_else
gathered = refl

apart : (id : Bytes) → has_id id marked ≡ true → has id legacy ≡ false
unfolding has_id has
apart id t = ground arith

reconcile_remote-windows_example :
    (rs : List Repair) × (reconcile_remote self
        (some marked)
        (some (self ∷ peer ∷ []))
        listing
        (some legacy)
      ≡ some (snapshot, rs))
    × ((m : Bytes)
        → (IsWanted self listing m (self ∷ peer ∷ [])
            × (windows_of m rs marked ≡ expected (too_many desired marked) (ids_of m marked)))
          ⊎ ((¬ IsWanted self listing m (self ∷ peer ∷ [])) × (windows_of m rs marked ≡ 0)))
unfolding has_id legacy_of
reconcile_remote-windows_example =
    reconcile_remote-windows self marked (self ∷ peer ∷ []) listing (some legacy)
      (desired, snapshot) gathered (refl, (refl, (refl, tt))) apart
