-- ===== src/Cloud/Reconcile/Wanted.antt =====
-- What `ReconcileRemote` desires are the sessions of the other PCs (internal/cloud/agent/remotesync.go).
use claude_master_go.Base.{
  ◌≡◌, ◌≢◌, refl, sym, ◌⊎◌, inl, inr, Bool, true, false, ◌||◌, Option, some, List, [], ◌∷◌, ◌++◌,
  if◌then◌else◌, Bytes, equal, equal_refl, equal→eq, is_empty, Bool-cases, arith, put, delete,
  >>=-eq-some, some-holds,
}
use claude_master_go.Cloud.Store.{Doc}
use claude_master_go.Cloud.Reconcile.{
  Remote, Desired, gather_sessions, gather, attach_marker, sess_sid,
}
use claude_master_go.Cloud.Reconcile.Counts.{wants}

-- The marker is that of a session with an id, of those listed for the PC.
pub data HasSession (pc m : Bytes) : List Doc → Type 0 where
  first :
      {s : Doc} {ss : List Doc}
      → sess_sid s ≢ []
      → m ≡ attach_marker pc (sess_sid s)
      → HasSession pc m (s ∷ ss)
  next : {s : Doc} {ss : List Doc} → HasSession pc m ss → HasSession pc m (s ∷ ss)

-- It is that of a session of a PC that is not this one.
pub data IsWanted (self : Bytes) (sessions : Bytes → Option (List Doc)) (m : Bytes)
    : List Bytes → Type 0 where
  of_pc :
      {pc : Bytes} {pcs : List Bytes} {ss : List Doc}
      → pc ≢ self
      → pc ≢ []
      → sessions pc ≡ some ss
      → HasSession pc m ss
      → IsWanted self sessions m (pc ∷ pcs)
  of_later :
      {pc : Bytes} {pcs : List Bytes}
      → IsWanted self sessions m pcs
      → IsWanted self sessions m (pc ∷ pcs)

is_empty-not : (b : Bytes) → is_empty b ≡ false → b ≢ []
unfolding is_empty
is_empty-not [] h e = cc h
is_empty-not (x ∷ b) h e = cc e

not-is_empty : (b : Bytes) → b ≢ [] → is_empty b ≡ false
unfolding is_empty
not-is_empty [] h = absurd (h refl)
not-is_empty (x ∷ b) h = refl

equal-not : (a b : Bytes) → equal a b ≡ false → a ≢ b
equal-not a b h e = let t : equal a b ≡ true = rw e (equal_refl b) in cc (h, t)

not-equal : (a b : Bytes) → a ≢ b → equal a b ≡ false
not-equal a b h = elim (Bool-cases (equal a b)) [ inl y ↦ absurd (h (equal→eq a b y)) | inr n ↦ n ]

wants-of_delete : (k m : Bytes) (ds : Desired) → wants m (delete k ds) ≡ true → wants m ds ≡ true
unfolding wants delete
wants-of_delete k m [] h = h
wants-of_delete k m ((x, d) ∷ ds) h = elim (Bool-cases (equal k x)) [
  | inl e ↦ let ih = wants-of_delete k m ds (simp e at h) in ground arith
  | inr e ↦ elim (Bool-cases (equal x m)) [
    | inl y ↦ ground arith
    | inr n ↦ let ih = wants-of_delete k m ds (simp (e, n) at h) in ground arith
  ]
]

wants-put_other :
    (k m : Bytes) (ds : Desired)
    → equal k m ≡ false
    → wants m ds ≡ true
    → wants m (delete k ds) ≡ true
unfolding wants delete
wants-put_other k m [] n h = h
wants-put_other k m ((x, d) ∷ ds) n h = elim (Bool-cases (equal k x)) [
  | inl e ↦
      let other : equal x m ≡ false = rw (← equal→eq k x e) n in
      simp e (wants-put_other k m ds n (simp other at h))
  | inr e ↦ elim (Bool-cases (equal x m)) [
    | inl y ↦ simp (e, y)
    | inr y ↦ simp (e, y) (wants-put_other k m ds n (simp y at h))
  ]
]

wants-put :
    (k m : Bytes) (d : Remote) (ds : Desired) → wants m ds ≡ true → wants m (put k d ds) ≡ true
unfolding wants
wants-put k m d ds h = elim (Bool-cases (equal k m)) [
  | inl y ↦ simp y
  | inr n ↦ simp n (wants-put_other k m ds n h)
]

wants-of_put :
    (k m : Bytes) (d : Remote) (ds : Desired)
    → equal k m ≡ false
    → wants m (put k d ds) ≡ true
    → wants m ds ≡ true
unfolding wants
wants-of_put k m d ds n h = wants-of_delete k m ds (simp n at h)

-- What is desired behind a session.
abbrev added : Bool → Bytes → Remote → Desired × List Remote → Desired × List Remote
added b mk remote r = if b then r else (put mk remote (r.0), r.1 ++ remote ∷ [])

sessions-wants :
    (pc m : Bytes) (ss : List Doc) (r : Desired × List Remote)
    → wants m (gather_sessions pc ss r).0 ≡ true
    → (wants m (r.0) ≡ true) ⊎ HasSession pc m ss
unfolding gather_sessions
sessions-wants pc m [] r h = inl h
sessions-wants pc m (s ∷ ss) r h = elim (sessions-wants pc m ss _ h) [
  | inl w ↦ session (is_empty (sess_sid s)) _ refl w
  | inr t ↦ inr (next t)
]
  where
    session :
        (b : Bool) (remote : Remote)
        → is_empty (sess_sid s) ≡ b
        → wants m (added b (attach_marker pc (sess_sid s)) remote r).0 ≡ true
        → (wants m (r.0) ≡ true) ⊎ HasSession pc m (s ∷ ss)
    session true remote e w = inl w
    session false remote e w = elim (Bool-cases (equal (attach_marker pc (sess_sid s)) m)) [
      | inl y ↦
          inr (
            first (is_empty-not (sess_sid s) e)
              (sym (equal→eq (attach_marker pc (sess_sid s)) m y)))
      | inr n ↦ inl (wants-of_put (attach_marker pc (sess_sid s)) m remote (r.0) n w)
    ]

sessions-keep :
    (pc m : Bytes) (ss : List Doc) (r : Desired × List Remote)
    → wants m (r.0) ≡ true
    → wants m (gather_sessions pc ss r).0 ≡ true
unfolding gather_sessions
sessions-keep pc m [] r h = h
sessions-keep pc m (s ∷ ss) r h = sessions-keep pc m ss _ (session (is_empty (sess_sid s)) _)
  where
    session :
        (b : Bool) (remote : Remote)
        → wants m (added b (attach_marker pc (sess_sid s)) remote r).0 ≡ true
    session true remote = h
    session false remote = wants-put (attach_marker pc (sess_sid s)) m remote (r.0) h

sessions-found :
    (pc m : Bytes) (ss : List Doc) (r : Desired × List Remote)
    → HasSession pc m ss
    → wants m (gather_sessions pc ss r).0 ≡ true
unfolding gather_sessions wants
sessions-found pc m [] r h = elim h [ ]
sessions-found pc m (s ∷ ss) r (next t) = sessions-found pc m ss _ t
sessions-found pc m (s ∷ ss) r (first n e) =
    sessions-keep pc m ss _ (session (is_empty (sess_sid s)) _ (not-is_empty (sess_sid s) n))
  where
    session :
        (b : Bool) (remote : Remote)
        → b ≡ false
        → wants m (added b (attach_marker pc (sess_sid s)) remote r).0 ≡ true
    session true remote f = cc f
    session false remote f = rw (e, equal_refl (attach_marker pc (sess_sid s))) refl

pub gather-wants :
    (self m : Bytes) (sessions : Bytes → Option (List Doc)) (pcs : List Bytes)
    (r q : Desired × List Remote)
    → gather self sessions pcs r ≡ some q
    → wants m (q.0) ≡ true
    → (wants m (r.0) ≡ true) ⊎ IsWanted self sessions m pcs
unfolding gather
gather-wants self m sessions [] r q e w =
    inl (some-holds (λ x. wants m (x.0) ≡ true → wants m (r.0) ≡ true) r q e (λ t. t) w)
gather-wants self m sessions (pc ∷ pcs) r q e w = elim (Bool-cases (equal pc self || is_empty pc)) [
  | inl skip ↦ elim (gather-wants self m sessions pcs r q (simp skip at e) w) [
    | inl t ↦ inl t
    | inr t ↦ inr (of_later t)
  ]
  | inr keep ↦
      let read =
        >>=-eq-some (sessions pc) (λ ss. gather self sessions pcs (gather_sessions pc ss r))
          (simp keep at e) in
      elim (gather-wants self m sessions pcs (gather_sessions pc read.0 r) q read.2 w) [
        | inr t ↦ inr (of_later t)
        | inl t ↦ elim (sessions-wants pc m read.0 r t) [
          | inl u ↦ inl u
          | inr u ↦
              inr
                (of_pc (equal-not pc self (ground arith)) (is_empty-not pc (ground arith)) read.1 u)
        ]
      ]
]

gather-keep :
    (self m : Bytes) (sessions : Bytes → Option (List Doc)) (pcs : List Bytes)
    (r q : Desired × List Remote)
    → gather self sessions pcs r ≡ some q
    → wants m (r.0) ≡ true
    → wants m (q.0) ≡ true
unfolding gather
gather-keep self m sessions [] r q e w = some-holds (λ x. wants m (x.0) ≡ true) r q e w
gather-keep self m sessions (pc ∷ pcs) r q e w = elim (Bool-cases (equal pc self || is_empty pc)) [
  | inl skip ↦ gather-keep self m sessions pcs r q (simp skip at e) w
  | inr keep ↦
      let read =
        >>=-eq-some (sessions pc) (λ ss. gather self sessions pcs (gather_sessions pc ss r))
          (simp keep at e) in
      gather-keep self m sessions pcs (gather_sessions pc read.0 r) q read.2
        (sessions-keep pc m read.0 r w)
]

pub gather-found :
    (self m : Bytes) (sessions : Bytes → Option (List Doc)) (pcs : List Bytes)
    (r q : Desired × List Remote)
    → gather self sessions pcs r ≡ some q
    → IsWanted self sessions m pcs
    → wants m (q.0) ≡ true
unfolding gather
gather-found self m sessions [] r q e h = elim h [ ]
gather-found self m sessions (pc ∷ pcs) r q e (of_later t) =
    elim (Bool-cases (equal pc self || is_empty pc)) [
      | inl skip ↦ gather-found self m sessions pcs r q (simp skip at e) t
      | inr keep ↦
          let read =
            >>=-eq-some (sessions pc) (λ ss. gather self sessions pcs (gather_sessions pc ss r))
              (simp keep at e) in
          gather-found self m sessions pcs (gather_sessions pc read.0 r) q read.2 t
    ]
gather-found self m sessions (pc ∷ pcs) r q e (of_pc {ss} other named reads t) =
    gather-keep self m sessions pcs (gather_sessions pc ss r) q
      (simp (not-equal pc self other, not-is_empty pc named, reads) at e)
      (sessions-found pc m ss r t)
