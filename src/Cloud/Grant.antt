-- ===== src/Cloud/Grant.antt =====
-- internal/cloud/state/state.go: who may open a session at the relay (PutRelayGrant, CheckRelayGrant and
-- the revocation of a PC).
pub mod Access
use claude_master_go.Base.{
  ℕ, ◌+◌, Bool, true, false, not, Option, none, some, List, [], ◌∷◌, ◌++◌, ltb, if◌then◌else◌, ◌||◌,
  ◌&&◌, Bytes, equal, is_empty,
}
use claude_master_go.Cloud.Store.{Field, Doc, Place, Snapshot, Firestore, Clock, text_field}

abbrev pub source_role : Bytes
source_role = b's' ∷ b'o' ∷ b'u' ∷ b'r' ∷ b'c' ∷ b'e' ∷ []

abbrev pub viewer_role : Bytes
viewer_role = b'v' ∷ b'i' ∷ b'e' ∷ b'w' ∷ b'e' ∷ b'r' ∷ []

abbrev pub sid_key : Bytes
sid_key = b's' ∷ b'i' ∷ b'd' ∷ []

abbrev pub role_key : Bytes
role_key = b'r' ∷ b'o' ∷ b'l' ∷ b'e' ∷ []

abbrev pub grant_pc_key : Bytes
grant_pc_key = b'p' ∷ b'c' ∷ []

abbrev pub exp_key : Bytes
exp_key = b'e' ∷ b'x' ∷ b'p' ∷ []

abbrev pub at_key : Bytes
at_key = b'a' ∷ b't' ∷ []

-- `relayGrantID`.
abbrev pub relay_grant_id : Bytes → Bytes → Bytes
relay_grant_id sid role = sid ++ b':' ∷ role

-- The guard `sid == "" || (role != "source" && role != "viewer")`.
unfoldable pub is_refused : Bytes → Bytes → Bool
is_refused sid role = is_empty sid || not (equal role source_role) && not (equal role viewer_role)

module _ (fs : Firestore) (clock : Clock) where
  abbrev pub grant_doc : ℕ → Bytes → Bytes → Bytes → ℕ → Doc
  grant_doc now pc sid role ttl =
      (sid_key, Field.text sid)
      ∷ (role_key, Field.text role)
      ∷ (grant_pc_key, Field.text pc)
      ∷ (exp_key, Field.text (clock.format_nano (now + ttl)))
      ∷ []

  -- `PutRelayGrant` of the client of the PC `pc`, with its error.
  unfoldable pub put_relay_grant : ℕ → Bytes → Bytes → Bytes → ℕ → fs.State → fs.State × Bool
  put_relay_grant now pc sid role ttl st =
      if is_refused sid role
      then (st, false)
      else fs.set (Place.relay_grant (relay_grant_id sid role)) (grant_doc now pc sid role ttl) st

  abbrev pub revoked_doc : ℕ → Bytes → Doc
  revoked_doc now pc =
      (grant_pc_key, Field.text pc) ∷ (at_key, Field.text (clock.format_nano now)) ∷ []

  -- `SetRevoked` and `ClearRevoked`.
  unfoldable pub set_revoked : ℕ → Bytes → fs.State → fs.State × Bool
  set_revoked now pc st =
      if is_empty pc then (st, false) else fs.set (Place.revoked pc) (revoked_doc now pc) st

  unfoldable pub clear_revoked : Bytes → fs.State → fs.State × Bool
  clear_revoked pc st = if is_empty pc then (st, false) else fs.delete (Place.revoked pc) st

  -- `IsRevoked`: a failed `Get` counts as not revoked.
  unfoldable pub exists : Snapshot → Bool
  exists (Snapshot.found d) = true
  exists _ = false

  unfoldable pub is_revoked : Bytes → fs.State → Bool
  is_revoked pc st = if is_empty pc then false else exists (fs.get (Place.revoked pc) st)

  -- The end of `CheckRelayGrant`, on the time that the grant holds.
  unfoldable pub is_valid : ℕ → fs.State → Bytes → Option ℕ → Bool
  is_valid now st pc none = false
  is_valid now st pc (some t) =
      if not (ltb now t) then false else not (not (is_empty pc) && is_revoked pc st)

  unfoldable pub is_granted : ℕ → fs.State → Snapshot → Bool
  is_granted now st (Snapshot.found d) =
      is_valid now st (text_field grant_pc_key d) (clock.parse (text_field exp_key d))
  is_granted now st _ = false

  -- `CheckRelayGrant`.
  unfoldable pub check_relay_grant : ℕ → Bytes → Bytes → fs.State → Bool
  check_relay_grant now sid role st =
      if is_refused sid role
      then false
      else is_granted now st (fs.get (Place.relay_grant (relay_grant_id sid role)) st)
