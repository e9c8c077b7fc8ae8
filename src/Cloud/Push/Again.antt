-- ===== src/Cloud/Push/Again.antt =====
-- `PushStatus` (internal/cloud/state/state.go) writes what has changed, and nothing else.
use claude_master_go.Base.{
  ℕ, zero, suc, Bool, ◌+◌, ◌≡◌, ◌≢◌, refl, sym, ap, ◌∙◌, inl, inr, true, false, Option, none, some,
  List, [], ◌∷◌, ℤ, Bytes, equal, equal→eq, lookup, delete, put, Bool-cases,
}
use claude_master_go.Cloud.Store.{
  Field, Doc, Place, Snapshot, Firestore, IsLawful, Clock, text_field, as_text, number_field,
  with_faults,
}
use claude_master_go.Cloud.Push.{
  session_key, next_version, version_for, content_hash, stamped, hash_key, version_key, updated_key,
  write_session, push_session, push_sessions, announce, push_status, pc_doc, is_meta,
}
use claude_master_go.Cloud.Push.Hash.{ordered-put}
use claude_master_go.Cloud.Push.Stored.{IsStored, AllStored, stored-push_sessions}

version-is_meta : is_meta version_key ≡ true
unfolding is_meta
version-is_meta = refl

updated-is_meta : is_meta updated_key ≡ true
unfolding is_meta
updated-is_meta = refl

hash-is_meta : is_meta hash_key ≡ true
unfolding is_meta
hash-is_meta = refl

-- The sessions of a status have different keys.
pub data Apart (k : Bytes) : List Doc → Type 0 where
  nil : Apart k []
  cons : {s : Doc} {ss : List Doc} → session_key s ≢ k → Apart k ss → Apart k (s ∷ ss)

pub data Distinct : List Doc → Type 0 where
  nil : Distinct []
  cons : {s : Doc} {ss : List Doc} → Apart (session_key s) ss → Distinct ss → Distinct (s ∷ ss)

module _ (fs : Firestore) (clock : Clock) (digest : List (Bytes × Field) → Bytes) where
  -- A pass without an error goes on, and one with an error ends the loop.
  push_sessions-ok :
      (now : ℕ) (pc : Bytes) (s : Doc) (ss : List Doc) (n : ℕ) (st : fs.State)
      → ((push_session fs clock digest now pc s st).1).1 ≡ false
      → push_sessions fs clock digest now pc (s ∷ ss) n st
        ≡ push_sessions fs clock digest now pc ss
            (n + ((push_session fs clock digest now pc s st).1).0)
            ((push_session fs clock digest now pc s st).0)
  unfolding push_sessions
  push_sessions-ok now pc s ss n st e = simp e

  push_sessions-failed :
      (now : ℕ) (pc : Bytes) (s : Doc) (ss : List Doc) (n : ℕ) (st : fs.State)
      → ((push_session fs clock digest now pc s st).1).1 ≡ true
      → ((push_sessions fs clock digest now pc (s ∷ ss) n st).1).1 ≡ true
  unfolding push_sessions
  push_sessions-failed now pc s ss n st e = simp e

  version_for-some :
      (d : Doc) (h : Bytes)
      → equal (text_field hash_key d) h ≡ false
      → version_for fs clock digest (Snapshot.found d) h
        ≡ some (next_version (number_field version_key d))
  unfolding version_for
  version_for-some d h differs = simp differs

  version_for-none :
      (snap : Snapshot) (h : Bytes)
      → version_for fs clock digest snap h ≡ none
      → (d : Doc) × (snap ≡ Snapshot.found d) × (text_field hash_key d ≡ h)
  unfolding version_for
  version_for-none Snapshot.failed h e = cc
  version_for-none Snapshot.missing h e = cc
  version_for-none (Snapshot.found d) h e = elim (Bool-cases (equal (text_field hash_key d) h)) [
    | inl same ↦ (d, refl, equal→eq (text_field hash_key d) h same)
    | inr differs ↦ cc (version_for-some d h differs)
  ]

  stamped-hash :
      (now : ℕ) (ver : ℤ) (s : Doc)
      → text_field hash_key (stamped fs clock digest now ver s) ≡ content_hash fs clock digest s
  unfolding text_field as_text lookup delete
  stamped-hash now ver s = refl

  -- The hash that is written with the document of a session is the hash of that document, for any
  -- version and time that are written with it.
  pub content_hash-stamped :
      (now : ℕ) (ver : ℤ) (s : Doc)
      → text_field hash_key (stamped fs clock digest now ver s)
        ≡ content_hash fs clock digest (stamped fs clock digest now ver s)
  content_hash-stamped now ver s =
      stamped-hash now ver s
      ∙ ap digest (
          sym (
            ordered-put updated_key (Field.text (clock.format now))
              (put hash_key (Field.text (content_hash fs clock digest s))
                (put version_key (Field.number ver) s))
              updated-is_meta
            ∙ ordered-put hash_key (Field.text (content_hash fs clock digest s))
                (put version_key (Field.number ver) s) hash-is_meta
            ∙ ordered-put version_key (Field.number ver) s version-is_meta))

  module _ (law : IsLawful fs) where
    write_session-IsStored :
        (now : ℕ) (pc : Bytes) (s : Doc) (st : fs.State) (v : Option ℤ)
        → version_for fs clock digest
            (fs.get (Place.session pc (session_key s)) st)
            (content_hash fs clock digest s)
          ≡ v
        → ((write_session fs clock digest now pc s st v).1).1 ≡ false
        → IsStored fs clock digest pc ((write_session fs clock digest now pc s st v).0) s
    unfolding write_session
    write_session-IsStored now pc s st none e ok =
        let known =
          version_for-none (fs.get (Place.session pc (session_key s)) st)
            (content_hash fs clock digest s) e in
        record { doc = known.0; is_found = known.1; same_hash = known.2 }
    write_session-IsStored now pc s st (some ver) e ok = record {
      doc = stamped fs clock digest now ver s;
      is_found =
          law.get-set (Place.session pc (session_key s)) (stamped fs clock digest now ver s) st ok;
      same_hash = stamped-hash now ver s;
    }

    session-key : (pc k k' : Bytes) → k ≢ k' → Place.session pc k ≢ Place.session pc k'
    session-key pc k k' n e = n (ap key_of e)
      where
        key_of : Place → Bytes
        key_of (Place.session p k) = k
        key_of _ = []

    write_session-others :
        (now : ℕ) (pc : Bytes) (s t : Doc) (st : fs.State) (v : Option ℤ)
        → session_key s ≢ session_key t
        → IsStored fs clock digest pc st t
        → IsStored fs clock digest pc ((write_session fs clock digest now pc s st v).0) t
    unfolding write_session
    write_session-others now pc s t st none n h = h
    write_session-others now pc s t st (some ver) n h = record {
      doc = h.doc;
      is_found =
          law.get-set_other (Place.session pc (session_key s)) (Place.session pc (session_key t))
            (stamped fs clock digest now ver s) st
            (session-key pc (session_key t) (session_key s) (λ e. n (sym e)))
          ∙ h.is_found;
      same_hash = h.same_hash;
    }

    push_session-others :
        (now : ℕ) (pc : Bytes) (s t : Doc) (st : fs.State)
        → session_key s ≢ session_key t
        → IsStored fs clock digest pc st t
        → IsStored fs clock digest pc ((push_session fs clock digest now pc s st).0) t
    push_session-others now pc s t st = write_session-others now pc s t st (
        version_for fs clock digest (fs.get (Place.session pc (session_key s)) st)
          (content_hash fs clock digest s))

    push_session-IsStored :
        (now : ℕ) (pc : Bytes) (s : Doc) (st : fs.State)
        → ((push_session fs clock digest now pc s st).1).1 ≡ false
        → IsStored fs clock digest pc ((push_session fs clock digest now pc s st).0) s
    push_session-IsStored now pc s st =
        write_session-IsStored now pc s st
          (version_for fs clock digest (fs.get (Place.session pc (session_key s)) st)
            (content_hash fs clock digest s))
          refl

    push_sessions-others :
        (now : ℕ) (pc : Bytes) (t : Doc) (ss : List Doc) (n : ℕ) (st : fs.State)
        → Apart (session_key t) ss
        → IsStored fs clock digest pc st t
        → IsStored fs clock digest pc ((push_sessions fs clock digest now pc ss n st).0) t
    unfolding push_sessions
    push_sessions-others now pc t [] n st Apart.nil h = h
    push_sessions-others now pc t (s ∷ ss) n st (Apart.cons d ds) h =
        let r = push_session fs clock digest now pc s st in
        let kept = push_session-others now pc s t st d h in
        elim (Bool-cases ((r.1).1)) [
          | inl e ↦ simp e kept
          | inr e ↦ simp e (push_sessions-others now pc t ss (n + (r.1).0) (r.0) ds kept)
        ]

    push_sessions-AllStored :
        (now : ℕ) (pc : Bytes) (ss : List Doc) (n : ℕ) (st : fs.State)
        → Distinct ss
        → ((push_sessions fs clock digest now pc ss n st).1).1 ≡ false
        → AllStored fs clock digest pc ((push_sessions fs clock digest now pc ss n st).0) ss
    push_sessions-AllStored now pc [] n st Distinct.nil ok = AllStored.nil
    push_sessions-AllStored now pc (s ∷ ss) n st (Distinct.cons d ds) ok =
        let r = push_session fs clock digest now pc s st in
        elim (Bool-cases ((r.1).1)) [
          | inl e ↦ cc (push_sessions-failed now pc s ss n st e, ok)
          | inr e ↦
              let next = push_sessions-ok now pc s ss n st e in
              rw next (
                AllStored.cons
                  (push_sessions-others now pc s ss (n + (r.1).0) (r.0) d
                    (push_session-IsStored now pc s st e))
                  (push_sessions-AllStored now pc ss (n + (r.1).0) (r.0) ds
                    (sym (ap (λ x. (x.1).1) next) ∙ ok)))
        ]

    -- The document of the PC is not one of a session.
    announce-IsStored :
        (now : ℕ) (pc : Bytes) (t : Doc) (r : fs.State × (ℕ × Bool))
        → IsStored fs clock digest pc (r.0) t
        → IsStored fs clock digest pc ((announce fs clock digest now pc r).0) t
    unfolding announce
    announce-IsStored now pc t (st, (n, true)) h = h
    announce-IsStored now pc t (st, (zero, false)) h = h
    announce-IsStored now pc t (st, (suc n, false)) h = record {
      doc = h.doc;
      is_found =
          law.get-merge_other (Place.pc pc) (Place.session pc (session_key t))
            (pc_doc fs clock digest now pc) st parent
          ∙ h.is_found;
      same_hash = h.same_hash;
    }
      where
        is_pc : Place → Bool
        is_pc (Place.pc p) = true
        is_pc _ = false

        parent : Place.session pc (session_key t) ≢ Place.pc pc
        parent e = cc (ap is_pc e)

    announce-AllStored :
        (now : ℕ) (pc : Bytes) (ss : List Doc) (r : fs.State × (ℕ × Bool))
        → AllStored fs clock digest pc (r.0) ss
        → AllStored fs clock digest pc ((announce fs clock digest now pc r).0) ss
    announce-AllStored now pc [] r AllStored.nil = AllStored.nil
    announce-AllStored now pc (s ∷ ss) r (AllStored.cons h hs) =
        AllStored.cons (announce-IsStored now pc s r h) (announce-AllStored now pc ss r hs)

    announce-error :
        (now : ℕ) (pc : Bytes) (r : fs.State × (ℕ × Bool))
        → ((announce fs clock digest now pc r).1).1 ≡ (r.1).1
    unfolding announce
    announce-error now pc (st, (n, true)) = refl
    announce-error now pc (st, (zero, false)) = refl
    announce-error now pc (st, (suc n, false)) = refl

    -- What is stored is found where the reads of the sessions answer.
    answered-AllStored :
        (fails : Place → Bool) (pc : Bytes) (ss : List Doc) (st : fs.State)
        → ((k : Bytes) → fails (Place.session pc k) ≡ false)
        → AllStored fs clock digest pc st ss
        → AllStored (with_faults fails fs) clock digest pc st ss
    answered-AllStored fails pc [] st answers AllStored.nil = AllStored.nil
    answered-AllStored fails pc (s ∷ ss) st answers (AllStored.cons h hs) =
        AllStored.cons
          (record {
            doc = h.doc;
            is_found = rw (answers (session_key s)) h.is_found;
            same_hash = h.same_hash;
          })
          (answered-AllStored fails pc ss st answers hs)

    -- Statuses with different keys that were pushed without an error are pushed again, at any time at
    -- which the reads of the PC's sessions answer, without a write: the state is the same, and no
    -- session has changed. (A session whose read fails is written again, as a new one.)
    pub push_status-push_status :
        (fails : Place → Bool) (now later : ℕ) (pc : Bytes) (ss : List Doc) (st : fs.State)
        → Distinct ss
        → ((k : Bytes) → fails (Place.session pc k) ≡ false)
        → ((push_status fs clock digest now pc ss st).1).1 ≡ false
        → push_status
            (with_faults fails fs)
            clock
            digest
            later
            pc
            ss
            ((push_status fs clock digest now pc ss st).0)
          ≡ ((push_status fs clock digest now pc ss st).0, (0, false))
    unfolding announce
    push_status-push_status fails now later pc ss st d answers ok =
        let r = push_sessions fs clock digest now pc ss 0 st in
        let st' = (announce fs clock digest now pc r).0 in
        ap (announce (with_faults fails fs) clock digest later pc) (
          stored-push_sessions (with_faults fails fs) clock digest later pc ss 0 st' (
            answered-AllStored fails pc ss st' answers (
              announce-AllStored now pc ss r
                (push_sessions-AllStored now pc ss 0 st d (sym (announce-error now pc r) ∙ ok)))))
