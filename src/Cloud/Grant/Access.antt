-- ===== src/Cloud/Grant/Access.antt =====
-- A session at the relay is opened by a fresh grant of a PC that is not revoked, and by nothing else
-- (internal/cloud/state/state.go).
use claude_master_go.Base.{
  is_empty, ℕ, ◌+◌, ◌<◌, ◌≡◌, ◌≢◌, refl, sym, ap, ◌∙◌, ◌⊎◌, inl, inr, Bool, true, false, Option,
  none, some, ◌∷◌, ◌++◌, Bytes, equal, equal→eq, lookup, length, take, drop, take-length,
  drop-length, take-append, drop-append, length-append, suc, arith, Bool-cases, Option-cases,
  if-cases, [],
}
use claude_master_go.Cloud.Store.{
  Doc, Place, Snapshot, Firestore, IsLawful, Clock, text_field, as_text, with_faults,
}
use claude_master_go.Cloud.Grant.{
  source_role, viewer_role, grant_pc_key, exp_key, relay_grant_id, is_refused, grant_doc,
  revoked_doc, put_relay_grant, set_revoked, exists, is_revoked, is_valid, is_granted,
  check_relay_grant,
}

is_valid-revoked :
    (fs : Firestore) (clock : Clock) (now : ℕ) (pc : Bytes) (st : fs.State) (o : Option ℕ)
    → is_empty pc ≡ false
    → is_revoked fs clock pc st ≡ true
    → is_valid fs clock now st pc o ≡ false
unfolding is_valid
is_valid-revoked fs clock now pc st none e r = refl
is_valid-revoked fs clock now pc st (some t) e r = rw (e, r) (ground arith)

module _ (fs : Firestore) (clock : Clock) where
  -- What admits a connection: a session and one of the two roles, a grant that is there and not over,
  -- and no revocation of the PC that it names that is found.
  pub record Admitted (now : ℕ) (sid role : Bytes) (st : fs.State) : Type 0 where
    pub is_named : sid ≢ []
    pub is_role : (role ≡ source_role) ⊎ (role ≡ viewer_role)
    pub grant : Doc
    pub is_found : fs.get (Place.relay_grant (relay_grant_id sid role)) st ≡ Snapshot.found grant
    pub limit : ℕ
    pub reads : clock.parse (text_field exp_key grant) ≡ some limit
    pub in_time : now < limit
    pub trusted :
        (is_empty (text_field grant_pc_key grant) ≡ true)
        ⊎ ((d : Doc) → fs.get (Place.revoked (text_field grant_pc_key grant)) st ≢ Snapshot.found d)

  is_valid-trusted :
      (now : ℕ) (st : fs.State) (pc : Bytes) (t : ℕ)
      → is_valid fs clock now st pc (some t) ≡ true
      → (now < t) × ((is_empty pc ≡ true) ⊎ (is_revoked fs clock pc st ≡ false))
  unfolding is_valid
  is_valid-trusted now st pc t h = ground arith

  is_granted-found :
      (now : ℕ) (st : fs.State) (snap : Snapshot)
      → is_granted fs clock now st snap ≡ true
      → (d : Doc) × (snap ≡ Snapshot.found d)
        × (is_valid fs clock now st (text_field grant_pc_key d) (clock.parse (text_field exp_key d))
            ≡ true)
  unfolding is_granted
  is_granted-found now st Snapshot.failed h = cc
  is_granted-found now st Snapshot.missing h = cc
  is_granted-found now st (Snapshot.found d) h = (d, refl, h)

  is_refused-named : (sid role : Bytes) → is_refused sid role ≡ false → sid ≢ []
  unfolding is_refused is_empty
  is_refused-named [] role h e = cc h
  is_refused-named (x ∷ sid) role h e = cc e

  is_refused-role :
      (sid role : Bytes) → is_refused sid role ≡ false → (role ≡ source_role) ⊎ (role ≡ viewer_role)
  unfolding is_refused
  is_refused-role sid role h = elim (Bool-cases (equal role source_role)) [
    | inl y ↦ inl (equal→eq role source_role y)
    | inr n ↦
        let viewer : equal role viewer_role ≡ true = ground arith in
        inr (equal→eq role viewer_role viewer)
  ]

  may-be_granted :
      (sid role : Bytes)
      → sid ≢ []
      → (role ≡ source_role) ⊎ (role ≡ viewer_role)
      → is_refused sid role ≡ false
  unfolding is_refused is_empty
  may-be_granted [] role n r = absurd (n refl)
  may-be_granted (x ∷ sid) role n (inl e) = rw e refl
  may-be_granted (x ∷ sid) role n (inr e) = rw e refl

  is_revoked-found :
      (pc : Bytes) (st : fs.State) (d : Doc)
      → is_empty pc ≡ false
      → fs.get (Place.revoked pc) st ≡ Snapshot.found d
      → is_revoked fs clock pc st ≡ true
  unfolding is_revoked exists
  is_revoked-found pc st d e f = rw (e, f) refl

  is_revoked-not_found :
      (pc : Bytes) (st : fs.State)
      → ((d : Doc) → fs.get (Place.revoked pc) st ≢ Snapshot.found d)
      → is_revoked fs clock pc st ≡ false
  unfolding is_revoked exists
  is_revoked-not_found pc st n =
      if-cases (λ b. b ≡ false) (is_empty pc) (λ _. refl)
        (λ _. unseen (fs.get (Place.revoked pc) st) n)
    where
      unseen :
          (snap : Snapshot) → ((d : Doc) → snap ≢ Snapshot.found d) → exists fs clock snap ≡ false
      unseen Snapshot.failed k = refl
      unseen Snapshot.missing k = refl
      unseen (Snapshot.found d) k = absurd (k d refl)

  asked :
      (now : ℕ) (sid role : Bytes) (st : fs.State)
      → is_refused sid role ≡ false
      → check_relay_grant fs clock now sid role st
        ≡ is_granted fs clock now st (fs.get (Place.relay_grant (relay_grant_id sid role)) st)
  unfolding check_relay_grant
  asked now sid role st may = simp may

  accepted-Admitted :
      (now : ℕ) (sid role : Bytes) (st : fs.State)
      → check_relay_grant fs clock now sid role st ≡ true
      → Admitted now sid role st
  unfolding check_relay_grant is_valid
  accepted-Admitted now sid role st h = elim (Bool-cases (is_refused sid role)) [
    | inl bad ↦ cc (refused bad, h)
    | inr may ↦
        let known =
          is_granted-found now st (fs.get (Place.relay_grant (relay_grant_id sid role)) st)
            (sym (asked now sid role st may) ∙ h) in
        let pc = text_field grant_pc_key (known.0) in
        elim (Option-cases (clock.parse (text_field exp_key (known.0)))) [
          | inl bad ↦ cc (ap (is_valid fs clock now st pc) bad, known.2)
          | inr (t, reads) ↦
              let valid =
                is_valid-trusted now st pc t
                  (sym (ap (is_valid fs clock now st pc) reads) ∙ known.2) in
              record {
                is_named = is_refused-named sid role may;
                is_role = is_refused-role sid role may;
                grant = known.0;
                is_found = known.1;
                limit = t;
                reads = reads;
                in_time = valid.0;
                trusted = free pc valid.1;
              }
        ]
  ]
    where
      refused : is_refused sid role ≡ true → check_relay_grant fs clock now sid role st ≡ false
      refused bad = simp bad

      free :
          (pc : Bytes)
          → (is_empty pc ≡ true) ⊎ (is_revoked fs clock pc st ≡ false)
          → (is_empty pc ≡ true) ⊎ ((d : Doc) → fs.get (Place.revoked pc) st ≢ Snapshot.found d)
      free pc (inl e) = inl e
      free pc (inr n) = elim (Bool-cases (is_empty pc)) [
        | inl e ↦ inl e
        | inr e ↦ inr (λ d f. cc (n, is_revoked-found pc st d e f))
      ]

  Admitted-accepted :
      (now : ℕ) (sid role : Bytes) (st : fs.State)
      → Admitted now sid role st
      → check_relay_grant fs clock now sid role st ≡ true
  unfolding is_granted is_valid
  Admitted-accepted now sid role st a =
      asked now sid role st (may-be_granted sid role a.is_named a.is_role)
      ∙ ap (is_granted fs clock now st) a.is_found
      ∙ ap (is_valid fs clock now st (text_field grant_pc_key a.grant)) a.reads
      ∙ admits a.trusted
    where
      admits :
          (is_empty (text_field grant_pc_key a.grant) ≡ true)
            ⊎ ((d : Doc)
                → fs.get (Place.revoked (text_field grant_pc_key a.grant)) st ≢ Snapshot.found d)
          → is_valid fs clock now st (text_field grant_pc_key a.grant) (some a.limit) ≡ true
      admits (inl e) = let t = a.in_time in ground arith
      admits (inr n) =
          let t = a.in_time in
          let f = is_revoked-not_found (text_field grant_pc_key a.grant) st n in ground arith

  -- The relay accepts a session and a role exactly if they may be granted, there is a grant of them that
  -- can be read and is not over, and a grant that names a PC has no revocation of the PC that is found;
  -- a revocation whose read fails is not found, so that only the grant's own reads fail closed.
  pub check_relay_grant-Admitted :
      (now : ℕ) (sid role : Bytes) (st : fs.State)
      → ((check_relay_grant fs clock now sid role st ≡ true) × Admitted now sid role st)
        ⊎ ((check_relay_grant fs clock now sid role st ≡ false) × (¬ Admitted now sid role st))
  check_relay_grant-Admitted now sid role st =
      elim (Bool-cases (check_relay_grant fs clock now sid role st)) [
        | inl y ↦ inl (y, accepted-Admitted now sid role st y)
        | inr n ↦ inr (n, λ a. cc (n, Admitted-accepted now sid role st a))
      ]

  put_relay_grant-set :
      (now ttl : ℕ) (pc sid role : Bytes) (st : fs.State)
      → is_refused sid role ≡ false
      → put_relay_grant fs clock now pc sid role ttl st
        ≡ fs.set
            (Place.relay_grant (relay_grant_id sid role))
            (grant_doc fs clock now pc sid role ttl)
            st
  unfolding put_relay_grant
  put_relay_grant-set now ttl pc sid role st may = simp may

  module _ (law : IsLawful fs) where
    relay_grant-revoked : (id pc : Bytes) → Place.revoked pc ≢ Place.relay_grant id
    relay_grant-revoked id pc e = cc (ap is_grant e)
      where
        is_grant : Place → Bool
        is_grant (Place.relay_grant id) = true
        is_grant _ = false

    -- A grant that was put without an error for a session and a role that may be granted, and whose
    -- time reads back as `limit`, is accepted until then, unless the PC that put it is revoked.
    pub check_relay_grant-put_relay_grant :
        (now later limit ttl : ℕ) (pc sid role : Bytes) (st : fs.State)
        → is_refused sid role ≡ false
        → (put_relay_grant fs clock now pc sid role ttl st).1 ≡ false
        → clock.parse (clock.format_nano (now + ttl)) ≡ some limit
        → later < limit
        → is_revoked fs clock pc st ≡ false
        → check_relay_grant fs clock later sid role
            ((put_relay_grant fs clock now pc sid role ttl st).0)
          ≡ true
    unfolding check_relay_grant is_granted is_valid is_revoked text_field as_text lookup
    check_relay_grant-put_relay_grant now later limit ttl pc sid role st may ok reads h free =
        let place = Place.relay_grant (relay_grant_id sid role) in
        let doc = grant_doc fs clock now pc sid role ttl in
        let put = put_relay_grant-set now ttl pc sid role st may in
        rw
          (
            put,
            may,
            law.get-set place doc st (sym (ap (λ r. r.1) put) ∙ ok),
            reads,
            law.get-set_other place (Place.revoked pc) doc st
                (relay_grant-revoked (relay_grant_id sid role) pc),
            free,
          )
          (ground arith)

    set_revoked-set :
        (now : ℕ) (pc : Bytes) (st : fs.State)
        → is_empty pc ≡ false
        → set_revoked fs clock now pc st
          ≡ fs.set (Place.revoked pc) (revoked_doc fs clock now pc) st
    unfolding set_revoked
    set_revoked-set now pc st e = simp e

    set_revoked-is_revoked :
        (now : ℕ) (pc : Bytes) (st : fs.State)
        → is_empty pc ≡ false
        → (set_revoked fs clock now pc st).1 ≡ false
        → fs.get (Place.revoked pc) ((set_revoked fs clock now pc st).0)
          ≡ Snapshot.found (revoked_doc fs clock now pc)
    set_revoked-is_revoked now pc st e ok =
        let set = set_revoked-set now pc st e in
        rw set (
          law.get-set (Place.revoked pc) (revoked_doc fs clock now pc) st
            (sym (ap (λ r. r.1) set) ∙ ok))

    -- Once a PC was revoked without an error, the grants that it puts without one do not open a session,
    -- whichever reads fail then, except that of the revocation: `IsRevoked` takes a failure of it for no
    -- revocation.
    pub check_relay_grant-set_revoked :
        (fails : Place → Bool) (at now later ttl : ℕ) (pc sid role : Bytes) (st : fs.State)
        → is_empty pc ≡ false
        → fails (Place.revoked pc) ≡ false
        → (set_revoked fs clock at pc st).1 ≡ false
        → (put_relay_grant fs clock now pc sid role ttl ((set_revoked fs clock at pc st).0)).1
          ≡ false
        → check_relay_grant
            (with_faults fails fs)
            clock
            later
            sid
            role
            ((put_relay_grant fs clock now pc sid role ttl ((set_revoked fs clock at pc st).0)).0)
          ≡ false
    unfolding check_relay_grant is_granted is_revoked exists text_field as_text lookup
    check_relay_grant-set_revoked fails at now later ttl pc sid role st e answers done ok =
        let st' = (set_revoked fs clock at pc st).0 in
        let place = Place.relay_grant (relay_grant_id sid role) in
        let doc = grant_doc fs clock now pc sid role ttl in
        let kept = set_revoked-is_revoked at pc st e done in
        let read =
          law.get-set_other place (Place.revoked pc) doc st'
            (relay_grant-revoked (relay_grant_id sid role) pc)
          ∙ kept in
        elim (Bool-cases (is_refused sid role)) [
          | inl bad ↦ simp bad
          | inr may ↦ elim (Bool-cases (fails place)) [
            | inl lost ↦ simp (may, lost)
            | inr found ↦
                let put = put_relay_grant-set now ttl pc sid role st' may in
                rw (put, may, found, law.get-set place doc st' (sym (ap (λ r. r.1) put) ∙ ok))
                  (is_valid-revoked (with_faults fails fs) clock later pc ((fs.set place doc st').0)
                    (clock.parse (clock.format_nano (now + ttl))) e (rw (e, answers, read) refl))
          ]
        ]

append-cancel : (a b x y : Bytes) → length x ≡ length y → a ++ x ≡ b ++ y → (a ≡ b) × (x ≡ y)
append-cancel a b x y h e =
    let n = length a in
    let same = same_length in
    (
      sym (take-length a)
          ∙ sym (take-append n a x (omega arith))
          ∙ ap (take n) e
          ∙ take-append n b y (omega (arith, same))
          ∙ ap (λ k. take k b) same
          ∙ take-length b,
      ap (λ r. r ++ x) (sym (drop-length a))
          ∙ sym (drop-append n a x (omega arith))
          ∙ ap (drop n) e
          ∙ drop-append n b y (omega (arith, same))
          ∙ ap (λ k. drop k b ++ y) same
          ∙ ap (λ r. r ++ y) (drop-length b),
    )
  where
    same_length : length a ≡ length b
    same_length = omega (arith, ap length e, length-append a x, length-append b y, h)

role_length : (sid role : Bytes) → is_refused sid role ≡ false → length role ≡ 6
unfolding is_refused
role_length sid role h = elim (Bool-cases (equal role source_role)) [
  | inl s ↦ ap length (equal→eq role source_role s)
  | inr s ↦ elim (Bool-cases (equal role viewer_role)) [
    | inl v ↦ ap length (equal→eq role viewer_role v)
    | inr v ↦ cc (neither s v, h)
  ]
]
  where
    neither :
        equal role source_role ≡ false → equal role viewer_role ≡ false → is_refused sid role ≡ true
    neither s v = rw (s, v) (ground arith)

-- Grants that may be put have the same document only if they are for the same session and role.
pub relay_grant_id-injective :
    (sid role sid' role' : Bytes)
    → is_refused sid role ≡ false
    → is_refused sid' role' ≡ false
    → relay_grant_id sid role ≡ relay_grant_id sid' role'
    → (sid ≡ sid') × (role ≡ role')
relay_grant_id-injective sid role sid' role' h h' e =
    let parts =
      append-cancel sid sid' (b':' ∷ role) (b':' ∷ role')
        (ap suc (role_length sid role h ∙ sym (role_length sid' role' h'))) e in
    (parts.0, ap (drop 1) (parts.1))
