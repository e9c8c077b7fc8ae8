-- ===== src/Cloud/Commands/Taken.antt =====
-- A command that was claimed stays claimed, whatever the agents do
-- (internal/cloud/state/commands.go with internal/cloud/agent/commands.go).
use claude_master_go.Base.{
  ◌≡◌, ◌≢◌, refl, ap, ◌∙◌, ◌⊎◌, inl, inr, Bool, true, false, not, ◌&&◌, Option, none, some, List,
  [], Bytes, equal, equal_refl, equal→eq, lookup, ◌++◌, arith, Bool-cases, if-cases,
}
use claude_master_go.Cloud.Store.{
  Field, Doc, Place, Snapshot, Firestore, IsLawful, Clock, text_field, as_text,
}
use claude_master_go.Cloud.Commands.{
  Command, status_key, pending_status, restart_agent_cmd, self_update_cmd, restart_proxy_cmd,
  running_status, error_status, running_doc, ack_doc, claim, claim_command, ack_command,
}
use claude_master_go.Cloud.Commands.Runner.{
  revoked_detail, unknown_detail, Done, Update, failed, fetched, Runner, Handled, ack, after,
  restart_agent, updated, self_update, proxied, restart_proxy, perform, asks_revoked, handle,
}

-- Whether two commands have one document.
unfoldable pub is_same : Bytes → Bytes → Bytes → Bytes → Bool
is_same pc id pc' id' = equal pc pc' && equal id id'

pub apart :
    (pc id pc' id' : Bytes)
    → is_same pc id pc' id' ≡ false
    → Place.command pc id ≢ Place.command pc' id'
unfolding is_same
apart pc id pc' id' h e = cc (h, same (ap pc_of e) (ap id_of e))
  where
    same : pc ≡ pc' → id ≡ id' → is_same pc id pc' id' ≡ true
    same p q = rw (p, q, equal_refl pc', equal_refl id') refl

    pc_of : Place → Bytes
    pc_of (Place.command a k) = a
    pc_of _ = []

    id_of : Place → Bytes
    id_of (Place.command a k) = k
    id_of _ = []

pub same→eq : (pc id pc' id' : Bytes) → is_same pc id pc' id' ≡ true → (pc ≡ pc') × (id ≡ id')
unfolding is_same
same→eq pc id pc' id' h =
    let both : (equal pc pc' ≡ true) × (equal id id' ≡ true) = ground arith in
    (equal→eq pc pc' both.0, equal→eq id id' both.1)

field_status :
    (d : Doc) (status : Bytes)
    → lookup status_key d ≡ some (Field.text status)
    → text_field status_key d ≡ status
unfolding text_field as_text
field_status d status h = rw h refl

same_status :
    (d e : Doc)
    → lookup status_key d ≡ lookup status_key e
    → text_field status_key d ≡ text_field status_key e
unfolding text_field
same_status d e h = ap as_text h

module _ (fs : Firestore) (clock : Clock) where
  -- The command is in the queue and no longer pending.
  pub record IsTaken (pc id : Bytes) (st : fs.State) : Type 0 where
    pub doc : Doc
    pub is_found : fs.get (Place.command pc id) st ≡ Snapshot.found doc
    pub is_taken : equal (text_field status_key doc) pending_status ≡ false

  module _ (law : IsLawful fs) where
    merge-IsTaken_same :
        (pc id status : Bytes) (d : Doc) (st : fs.State)
        → lookup status_key d ≡ some (Field.text status)
        → equal status pending_status ≡ false
        → IsTaken pc id st
        → IsTaken pc id (fs.merge (Place.command pc id) d st).0
    merge-IsTaken_same pc id status d st has n t =
        let now =
          law.get-merge_field (Place.command pc id) d t.doc st status_key (Field.text status)
            t.is_found has in
        record {
          doc = now.0;
          is_found = now.1;
          is_taken = elim now.2 [
            | inl new ↦ rw (field_status now.0 status new) n
            | inr old ↦ rw (same_status now.0 t.doc old.1) t.is_taken
          ];
        }

    -- A merge of a status that is not pending leaves a taken command taken.
    merge-IsTaken :
        (pc id pc' id' status : Bytes) (d : Doc) (st : fs.State)
        → lookup status_key d ≡ some (Field.text status)
        → equal status pending_status ≡ false
        → IsTaken pc id st
        → IsTaken pc id (fs.merge (Place.command pc' id') d st).0
    merge-IsTaken pc id pc' id' status d st has n t = elim (Bool-cases (is_same pc id pc' id')) [
      | inl e ↦
          let both = same→eq pc id pc' id' e in
          rw (← both.0, ← both.1) (merge-IsTaken_same pc id status d st has n t)
      | inr e ↦ record {
        doc = t.doc;
        is_found =
            law.get-merge_other (Place.command pc' id') (Place.command pc id) d st
              (apart pc id pc' id' e)
            ∙ t.is_found;
        is_taken = t.is_taken;
      }
    ]

    ack-IsTaken :
        (cr : Runner fs clock) (pc id pc' id' status detail : Bytes) (t : List Done) (st : fs.State)
        → equal status pending_status ≡ false
        → IsTaken pc id st
        → IsTaken pc id (ack fs clock cr pc' id' status detail t st).0
    unfolding ack ack_command lookup
    ack-IsTaken cr pc id pc' id' status detail t st n h =
        merge-IsTaken pc id pc' id' status (ack_doc fs clock cr.now status detail) st refl n h

    module _ (cr : Runner fs clock) (pc id pc' : Bytes) where
      abbrev Keeps : Handled fs clock → Type 0
      Keeps h = IsTaken pc id h.0

      updated-IsTaken :
          (id' : Bytes) (u : Update) (st : fs.State)
          → IsTaken pc id st
          → IsTaken pc id (updated fs clock cr pc' id' u st).0
      unfolding updated
      updated-IsTaken id' (failed e) st h = ack-IsTaken cr pc id pc' id' _ _ _ st refl h
      updated-IsTaken id' (fetched tag false) st h = ack-IsTaken cr pc id pc' id' _ _ _ st refl h
      updated-IsTaken id' (fetched tag true) st h = ack-IsTaken cr pc id pc' id' _ _ _ st refl h

      self_update-IsTaken :
          (id' : Bytes) (o : Option Update) (st : fs.State)
          → IsTaken pc id st
          → IsTaken pc id (self_update fs clock cr pc' id' o st).0
      unfolding self_update after
      self_update-IsTaken id' none st h = ack-IsTaken cr pc id pc' id' _ _ _ st refl h
      self_update-IsTaken id' (some u) st h = updated-IsTaken id' u st h

      proxied-IsTaken :
          (id' sid : Bytes) (o : Option Bytes) (st : fs.State)
          → IsTaken pc id st
          → IsTaken pc id (proxied fs clock cr pc' id' sid o st).0
      unfolding proxied
      proxied-IsTaken id' sid none st h = ack-IsTaken cr pc id pc' id' _ _ _ st refl h
      proxied-IsTaken id' sid (some e) st h = ack-IsTaken cr pc id pc' id' _ _ _ st refl h

      restart_proxy-IsTaken :
          (id' sid : Bytes) (o : Option (Bytes → Option Bytes)) (st : fs.State)
          → IsTaken pc id st
          → IsTaken pc id (restart_proxy fs clock cr pc' id' sid o st).0
      unfolding restart_proxy after
      restart_proxy-IsTaken id' sid none st h = ack-IsTaken cr pc id pc' id' _ _ _ st refl h
      restart_proxy-IsTaken id' sid (some f) st h = proxied-IsTaken id' sid (f sid) st h

      restart_agent-IsTaken :
          (id' : Bytes) (st : fs.State)
          → IsTaken pc id st
          → IsTaken pc id (restart_agent fs clock cr pc' id' st).0
      unfolding restart_agent
      restart_agent-IsTaken id' st h =
          if-cases Keeps cr.can_restart (λ _. ack-IsTaken cr pc id pc' id' _ _ _ st refl h)
            (λ _. ack-IsTaken cr pc id pc' id' _ _ _ st refl h)

      -- The handler leaves a taken command taken: it acknowledges with `done` or `error`.
      pub handle-IsTaken :
          (cm : Command) (st : fs.State)
          → IsTaken pc id st
          → IsTaken pc id (handle fs clock cr pc' cm st).0
      unfolding handle perform
      handle-IsTaken cm st h =
          let id' = cm.id in
          if-cases Keeps (asks_revoked fs clock cr pc' st)
            (λ _. ack-IsTaken cr pc id pc' id' error_status revoked_detail [] st refl h)
            (λ _.
              if-cases Keeps (equal cm.cmd restart_agent_cmd) (λ _. restart_agent-IsTaken id' st h)
                (λ _.
                  if-cases Keeps (equal cm.cmd self_update_cmd)
                    (λ _. self_update-IsTaken id' cr.do_update st h)
                    (λ _.
                      if-cases Keeps (equal cm.cmd restart_proxy_cmd)
                        (λ _. restart_proxy-IsTaken id' cm.sid cr.do_proxy st h)
                        (λ _.
                          ack-IsTaken cr pc id pc' id' error_status (unknown_detail ++ cm.cmd) [] st
                            refl h))))

    claimed-IsTaken :
        (pc id : Bytes) (st : fs.State) (s : Snapshot)
        → fs.get (Place.command pc id) st ≡ s
        → (claim fs clock pc id st s).1 ≡ true
        → IsTaken pc id (claim fs clock pc id st s).0
    unfolding claim lookup
    claimed-IsTaken pc id st Snapshot.failed e h = cc
    claimed-IsTaken pc id st Snapshot.missing e h = cc
    claimed-IsTaken pc id st (Snapshot.found d) e h =
        if-cases (λ (r : fs.State × Bool). r.1 ≡ true → IsTaken pc id r.0)
          (equal (text_field status_key d) pending_status) (λ _. taken) (λ _. λ bad. cc bad) h
      where
        now :
            (f : Doc) × (fs.get
                (Place.command pc id)
                (fs.merge (Place.command pc id) (running_doc fs clock) st).0
              ≡ Snapshot.found f)
            × ((lookup status_key f ≡ some (Field.text running_status))
                ⊎ (((fs.merge (Place.command pc id) (running_doc fs clock) st).1 ≡ true)
                    × (lookup status_key f ≡ lookup status_key d)))
        now =
            law.get-merge_field (Place.command pc id) (running_doc fs clock) d st status_key
              (Field.text running_status) e refl

        taken :
            not (fs.merge (Place.command pc id) (running_doc fs clock) st).1 ≡ true
            → IsTaken pc id (fs.merge (Place.command pc id) (running_doc fs clock) st).0
        taken ok = record {
          doc = now.0;
          is_found = now.1;
          is_taken = elim now.2 [
            | inl new ↦ rw (field_status now.0 running_status new) refl
            | inr old ↦ cc (ok, ap not old.0)
          ];
        }

    -- A claim that succeeds takes the command.
    pub claim_command-IsTaken :
        (pc id : Bytes) (st : fs.State)
        → (claim_command fs clock pc id st).1 ≡ true
        → IsTaken pc id (claim_command fs clock pc id st).0
    unfolding claim_command
    claim_command-IsTaken pc id st = claimed-IsTaken pc id st (fs.get (Place.command pc id) st) refl

    -- No other claim touches it.
    pub claim_command-Taken :
        (pc id pc' id' : Bytes) (st : fs.State)
        → IsTaken pc id st
        → IsTaken pc id (claim_command fs clock pc' id' st).0
    unfolding claim_command claim lookup
    claim_command-Taken pc id pc' id' st h = claim-Taken (fs.get (Place.command pc' id') st)
      where
        claim-Taken : (s : Snapshot) → IsTaken pc id (claim fs clock pc' id' st s).0
        claim-Taken Snapshot.failed = h
        claim-Taken Snapshot.missing = h
        claim-Taken (Snapshot.found d) =
            if-cases (λ (r : fs.State × Bool). IsTaken pc id r.0)
              (equal (text_field status_key d) pending_status)
              (λ _.
                merge-IsTaken pc id pc' id' running_status (running_doc fs clock) st refl refl h)
              (λ _. h)

  -- A taken command is not claimed again, and the attempt changes nothing.
  pub claim_command-refused :
      (pc id : Bytes) (st : fs.State)
      → IsTaken pc id st
      → claim_command fs clock pc id st ≡ (st, false)
  unfolding claim_command claim
  claim_command-refused pc id st h = rw (h.is_found, h.is_taken) refl
