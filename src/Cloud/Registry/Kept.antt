-- ===== src/Cloud/Registry/Kept.antt =====
-- What registering, pushing and deleting do to the documents of the PCs (internal/cloud/state/state.go).
use claude_master_go.Base.{
  is_empty, ℕ, suc, zero, ◌≡◌, ◌≢◌, refl, ap, ◌∙◌, inl, inr, Bool, true, false, Option, none, some,
  List, [], ◌∷◌, ℤ, ◌+◌, Bytes, lookup, Bool-cases,
}
use claude_master_go.Cloud.Store.{
  Field, Doc, Place, Snapshot, Firestore, IsLawful, Clock, text_field, as_text,
}
use claude_master_go.Cloud.Push.{
  session_key, content_hash, stamped, version_for, write_session, push_session, push_sessions,
  announce, push_status, pc_doc,
}
use claude_master_go.Cloud.Registry.{
  cm_version_key, registered, register_pc_version, version_of, pc_version, delete_sessions, listed,
  delete_pc,
}

module _ (fs : Firestore) (clock : Clock) (law : IsLawful fs) where
  -- The version that a PC was registered with is the one that is listed, also when it is empty.
  pub pc_version-register_pc_version :
      (now : ℕ) (pc version : Bytes) (st : fs.State)
      → (register_pc_version fs clock now pc version st).1 ≡ false
      → pc_version fs clock pc ((register_pc_version fs clock now pc version st).0) ≡ version
  unfolding version_of registered text_field as_text lookup is_empty
  pc_version-register_pc_version now pc version st ok =
      rw (law.get-set (Place.pc pc) (registered fs clock now pc version) st ok) (read version)
    where
      read : (v : Bytes) → text_field cm_version_key (registered fs clock now pc v) ≡ v
      read [] = refl
      read (c ∷ v) = refl

  module _ (digest : List (Bytes × Field) → Bytes) where
    -- What is stored of the document of a PC.
    pub record HasPc (pc version : Bytes) (st : fs.State) : Type 0 where
      pub doc : Doc
      pub is_found : fs.get (Place.pc pc) st ≡ Snapshot.found doc
      pub same : text_field cm_version_key doc ≡ version

    write_session-HasPc :
        (now : ℕ) (pc version : Bytes) (s : Doc) (st : fs.State) (v : Option ℤ)
        → HasPc pc version st
        → HasPc pc version ((write_session fs clock digest now pc s st v).0)
    unfolding write_session
    write_session-HasPc now pc version s st none h = h
    write_session-HasPc now pc version s st (some ver) h = record {
      doc = h.doc;
      is_found =
          law.get-set_other (Place.session pc (session_key s)) (Place.pc pc)
            (stamped fs clock digest now ver s) st child
          ∙ h.is_found;
      same = h.same;
    }
      where
        is_pc : Place → Bool
        is_pc (Place.pc p) = true
        is_pc _ = false

        child : Place.pc pc ≢ Place.session pc (session_key s)
        child e = cc (ap is_pc e)

    push_sessions-HasPc :
        (now : ℕ) (pc version : Bytes) (ss : List Doc) (n : ℕ) (st : fs.State)
        → HasPc pc version st
        → HasPc pc version ((push_sessions fs clock digest now pc ss n st).0)
    unfolding push_sessions
    push_sessions-HasPc now pc version [] n st h = h
    push_sessions-HasPc now pc version (s ∷ ss) n st h =
        let r = push_session fs clock digest now pc s st in
        let kept =
          write_session-HasPc now pc version s st
            (version_for fs clock digest (fs.get (Place.session pc (session_key s)) st)
              (content_hash fs clock digest s))
            h in
        elim (Bool-cases ((r.1).1)) [
          | inl e ↦ simp e kept
          | inr e ↦ simp e (push_sessions-HasPc now pc version ss (n + (r.1).0) (r.0) kept)
        ]

    announce-HasPc :
        (now : ℕ) (pc version : Bytes) (r : fs.State × (ℕ × Bool))
        → HasPc pc version (r.0)
        → HasPc pc version ((announce fs clock digest now pc r).0)
    unfolding announce text_field lookup
    announce-HasPc now pc version (st, (n, true)) h = h
    announce-HasPc now pc version (st, (zero, false)) h = h
    announce-HasPc now pc version (st, (suc n, false)) h =
        let m =
          law.get-merge (Place.pc pc) (pc_doc fs clock digest now pc) (h.doc) st (h.is_found) in
        record { doc = m.0; is_found = m.1; same = ap as_text (m.2 cm_version_key refl) ∙ h.same }

    -- Pushing statuses, with or without an error, keeps the version that is stored for the PC: the
    -- document of the PC is merged, not replaced.
    pub pc_version-push_status :
        (now : ℕ) (pc : Bytes) (ss : List Doc) (st : fs.State) (d : Doc)
        → fs.get (Place.pc pc) st ≡ Snapshot.found d
        → pc_version fs clock pc ((push_status fs clock digest now pc ss st).0)
          ≡ pc_version fs clock pc st
    unfolding version_of
    pc_version-push_status now pc ss st d e =
        let start : HasPc pc (text_field cm_version_key d) st = record {
          doc = d;
          is_found = e;
          same = refl;
        } in
        let h =
          announce-HasPc now pc (text_field cm_version_key d)
            (push_sessions fs clock digest now pc ss 0 st)
            (push_sessions-HasPc now pc (text_field cm_version_key d) ss 0 st start) in
        rw (h.is_found, e) (h.same)

  delete_sessions-others :
      (pc : Bytes) (ks : List Bytes) (st : fs.State) (p : Place)
      → ((k : Bytes) → p ≢ Place.session pc k)
      → fs.get p (delete_sessions fs clock pc ks st) ≡ fs.get p st
  unfolding delete_sessions
  delete_sessions-others pc [] st p n = refl
  delete_sessions-others pc (k ∷ ks) st p n =
      delete_sessions-others pc ks ((fs.delete (Place.session pc k) st).0) p n
      ∙ law.get-delete_other (Place.session pc k) p st (n k)

  -- Deleting a PC leaves every document that is not its own, its wake or one of its sessions, whether
  -- or not the deletions fail.
  pub delete_pc-others :
      (pc : Bytes) (st : fs.State) (p : Place)
      → ((k : Bytes) → p ≢ Place.session pc k)
      → p ≢ Place.pc pc
      → p ≢ Place.wake pc
      → fs.get p ((delete_pc fs clock pc st).0) ≡ fs.get p st
  unfolding delete_pc
  delete_pc-others pc st p no_session no_pc no_wake = elim (Bool-cases (is_empty pc)) [
    | inl e ↦ simp e
    | inr e ↦
        let st1 = delete_sessions fs clock pc (listed fs clock (fs.session_ids pc st)) st in
        let st2 = (fs.delete (Place.pc pc) st1).0 in
        simp e (
          law.get-delete_other (Place.wake pc) p st2 no_wake
          ∙ law.get-delete_other (Place.pc pc) p st1 no_pc
          ∙ delete_sessions-others pc (listed fs clock (fs.session_ids pc st)) st p no_session)
  ]
