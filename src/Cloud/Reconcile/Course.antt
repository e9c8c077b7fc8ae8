-- ===== src/Cloud/Reconcile/Course.antt =====
-- What is desired of the windows has each marker once, and what a whole reconciliation leaves
-- (internal/cloud/agent/remotesync.go).
use claude_master_go.Base.{
  >>=-eq-some, some-holds, delete, put, is_empty, ◌≡◌, refl, sym, ap, ◌∙◌, ◌⊎◌, inl, inr, Bool,
  true, false, ◌||◌, Option, some, List, [], ◌∷◌, ◌++◌, if◌then◌else◌, Bytes, equal, equal_refl,
  equal→eq, Bool-cases, arith,
}
use claude_master_go.Cloud.Store.{Doc}
use claude_master_go.Cloud.Reconcile.{
  Remote, Repair, Desired, ids_of, kill_all, repair_all, gather_sessions, gather, attach_marker,
  sess_sid, legacy_of, too_many, reconcile_remote,
}
use claude_master_go.Cloud.Reconcile.Counts.{
  is_killed, windows_of, has_id, has, wants, Distinct, IsMap, or_false, left-agree,
  is_killed-append, made-append, is_killed-kill_all, made-kill_all,
}
use claude_master_go.Cloud.Reconcile.Wanted.{IsWanted, gather-wants, gather-found}
use claude_master_go.Cloud.Reconcile.Once.{expected, repair_all-windows}

-- Tests of keys, and what a map wants behind a change.
equal_sym_false : (a b : Bytes) → equal a b ≡ false → equal b a ≡ false
equal_sym_false a b h = elim (Bool-cases (equal b a)) [
  | inl e ↦
      let same : a ≡ b = sym (equal→eq b a e) in
      let t : equal a b ≡ true = rw same (equal_refl b) in cc (h, t)
  | inr e ↦ e
]

wants-delete : (k m : Bytes) (ds : Desired) → wants m ds ≡ false → wants m (delete k ds) ≡ false
unfolding wants delete
wants-delete k m [] h = refl
wants-delete k m ((x, d) ∷ ds) h = elim (Bool-cases (equal k x)) [
  | inl e ↦ simp e (wants-delete k m ds (ground arith))
  | inr e ↦ let ih = wants-delete k m ds (ground arith) in simp e (ground arith)
]

wants-deleted : (k : Bytes) (ds : Desired) → wants k (delete k ds) ≡ false
unfolding wants delete
wants-deleted k [] = refl
wants-deleted k ((x, d) ∷ ds) = elim (Bool-cases (equal k x)) [
  | inl e ↦ simp e (wants-deleted k ds)
  | inr e ↦ let other = equal_sym_false k x e in let ih = wants-deleted k ds in simp (e, other, ih)
]

delete-IsMap : (k : Bytes) (ds : Desired) → IsMap ds → IsMap (delete k ds)
unfolding delete
delete-IsMap k [] h = tt
delete-IsMap k ((x, d) ∷ ds) h = elim (Bool-cases (equal k x)) [
  | inl e ↦ simp e (delete-IsMap k ds h.1)
  | inr e ↦ simp e (wants-delete k x ds h.0, delete-IsMap k ds h.1)
]

put-IsMap : (k : Bytes) (d : Remote) (ds : Desired) → IsMap ds → IsMap (put k d ds)
put-IsMap k d ds h = (wants-deleted k ds, delete-IsMap k ds h)

gather_sessions-IsMap :
    (pc : Bytes) (ss : List Doc) (r : Desired × List Remote)
    → IsMap (r.0)
    → IsMap ((gather_sessions pc ss r).0)
unfolding gather_sessions
gather_sessions-IsMap pc [] r h = h
gather_sessions-IsMap pc (s ∷ ss) r h =
    gather_sessions-IsMap pc ss _ (session (is_empty (sess_sid s)) _)
  where
    session :
        (b : Bool) (remote : Remote)
        → IsMap (
            (if b
              then r
              else (put (attach_marker pc (sess_sid s)) remote (r.0), r.1 ++ remote ∷ [])).0)
    session true remote = h
    session false remote = put-IsMap (attach_marker pc (sess_sid s)) remote (r.0) h

gather-IsMap :
    (self : Bytes) (sessions : Bytes → Option (List Doc)) (pcs : List Bytes)
    (r : Desired × List Remote)
    → IsMap (r.0)
    → (q : Desired × List Remote) → gather self sessions pcs r ≡ some q
    → IsMap (q.0)
unfolding gather
gather-IsMap self sessions [] r h q e = some-holds (λ x. IsMap (x.0)) r q e h
gather-IsMap self sessions (pc ∷ pcs) r h q e = elim (Bool-cases (equal pc self || is_empty pc)) [
  | inl skip ↦ gather-IsMap self sessions pcs r h q (simp skip at e)
  | inr keep ↦
      let next =
        >>=-eq-some (sessions pc) (λ ss. gather self sessions pcs (gather_sessions pc ss r))
          (simp keep at e) in
      gather-IsMap self sessions pcs (gather_sessions pc next.0 r)
        (gather_sessions-IsMap pc next.0 r h) q next.2
]

-- The legacy windows have no marker.
purge-windows :
    (m : Bytes) (rs : List Repair) (legacy : List Bytes) (cur : List (Bytes × Bytes))
    → ((id : Bytes) → has_id id cur ≡ true → has id legacy ≡ false)
    → windows_of m (rs ++ kill_all legacy) cur ≡ windows_of m rs cur
purge-windows m rs legacy cur h =
    let agree = left-agree (is_killed (rs ++ kill_all legacy)) (is_killed rs) m cur (λ id t.
      is_killed-append rs (kill_all legacy) id
      ∙ ap (λ b. is_killed rs id || b) (is_killed-kill_all legacy id ∙ h id t)
      ∙ or_false (is_killed rs id)) in
    omega (arith, agree, made-append m rs (kill_all legacy), made-kill_all m legacy)

-- Where the marked windows and the sessions of the other PCs can be listed, a reconciliation acts,
-- whatever the listing of the legacy windows gives. Provided that the marked windows have ids of their
-- own and none is a legacy one, behind its actions every session with an id of a PC that is neither
-- this one nor without a name has exactly one window, the one that it had or a new one, except that
-- it has none if it had none and there are too many windows to make one; any other marker has none.
pub reconcile_remote-windows :
    (self : Bytes) (cur : List (Bytes × Bytes)) (pcs : List Bytes)
    (sessions : Bytes → Option (List Doc)) (legacy : Option (List Bytes))
    (r : Desired × List Remote)
    → gather self sessions pcs ([], []) ≡ some r
    → Distinct cur
    → ((id : Bytes) → has_id id cur ≡ true → has id (legacy_of legacy) ≡ false)
    → (rs : List Repair) × (reconcile_remote self (some cur) (some pcs) sessions legacy
        ≡ some (r.1, rs))
      × ((m : Bytes)
          → (IsWanted self sessions m pcs
              × (windows_of m rs cur ≡ expected (too_many (r.0) cur) (ids_of m cur)))
            ⊎ ((¬ IsWanted self sessions m pcs) × (windows_of m rs cur ≡ 0)))
unfolding wants
reconcile_remote-windows self cur pcs sessions legacy r e h apart =
    let repairs = repair_all (too_many (r.0) cur) (r.0) cur in
    (
      repairs ++ kill_all (legacy_of legacy),
      rw e refl,
      λ m.
          let count =
            purge-windows m repairs (legacy_of legacy) cur apart
            ∙ repair_all-windows (too_many (r.0) cur) (r.0) cur m h
                (gather-IsMap self sessions pcs ([], []) tt r e) in
          elim (Bool-cases (wants m (r.0))) [
            | inl w ↦
                inl (wanted m (gather-wants self m sessions pcs ([], []) r e w), simp w at count)
            | inr n ↦
                inr (λ t. cc (n, gather-found self m sessions pcs ([], []) r e t), simp n at count)
          ],
    )
  where
    wanted :
        (m : Bytes)
        → (wants m [] ≡ true) ⊎ IsWanted self sessions m pcs
        → IsWanted self sessions m pcs
    wanted m (inl bad) = cc bad
    wanted m (inr t) = t
