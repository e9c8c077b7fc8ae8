-- ===== src/Cloud/Push/Stored.antt =====
-- A status that is stored is not written (internal/cloud/state/state.go, `PushStatus`).
use claude_master_go.Base.{
  ℕ, ◌+◌, ◌≡◌, refl, ap, ◌∙◌, true, false, none, List, [], ◌∷◌, Bytes, equal_refl, arith,
  if◌then◌else◌,
}
use claude_master_go.Cloud.Store.{Field, Doc, Place, Snapshot, Firestore, Clock, text_field}
use claude_master_go.Cloud.Push.{
  session_key, version_for, content_hash, hash_key, write_session, push_session, push_sessions,
}

module _ (fs : Firestore) (clock : Clock) (digest : List (Bytes × Field) → Bytes) where
  -- What is stored for a session has the hash of its status.
  pub record IsStored (pc : Bytes) (st : fs.State) (s : Doc) : Type 0 where
    pub doc : Doc
    pub is_found : fs.get (Place.session pc (session_key s)) st ≡ Snapshot.found doc
    pub same_hash : text_field hash_key doc ≡ content_hash fs clock digest s

  pub data AllStored (pc : Bytes) (st : fs.State) : List Doc → Type 0 where
    nil : AllStored pc st []
    cons :
        {s : Doc} {ss : List Doc} → IsStored pc st s → AllStored pc st ss → AllStored pc st (s ∷ ss)

  stored-version_for :
      (pc : Bytes) (st : fs.State) (s : Doc)
      → IsStored pc st s
      → version_for fs clock digest
          (fs.get (Place.session pc (session_key s)) st)
          (content_hash fs clock digest s)
        ≡ none
  unfolding version_for
  stored-version_for pc st s h =
      rw (h.is_found, h.same_hash, equal_refl (content_hash fs clock digest s)) refl

  stored-push_session :
      (now : ℕ) (pc : Bytes) (st : fs.State) (s : Doc)
      → IsStored pc st s
      → push_session fs clock digest now pc s st ≡ (st, (0, false))
  unfolding write_session
  stored-push_session now pc st s h =
      ap (λ v. write_session fs clock digest now pc s st v) (stored-version_for pc st s h)

  pub stored-push_sessions :
      (now : ℕ) (pc : Bytes) (ss : List Doc) (n : ℕ) (st : fs.State)
      → AllStored pc st ss
      → push_sessions fs clock digest now pc ss n st ≡ (st, (n, false))
  unfolding push_sessions
  stored-push_sessions now pc [] n st nil = refl
  stored-push_sessions now pc (s ∷ ss) n st (cons h hs) =
      ap
        (λ r.
          if (r.1).1
          then (r.0, (n + (r.1).0, true))
          else push_sessions fs clock digest now pc ss (n + (r.1).0) (r.0))
        (stored-push_session now pc st s h)
      ∙ stored-push_sessions now pc ss (n + 0) st hs
      ∙ ap (λ k. (st, (k, false))) (omega arith)
