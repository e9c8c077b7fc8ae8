-- ===== src/Cloud/Reconcile/Once.antt =====
-- A reconciliation leaves one window for each desired session (internal/cloud/agent/remotesync.go).
use claude_master_go.Base.{
  ℕ, ◌+◌, ◌≡◌, refl, ap, ◌∙◌, inl, inr, Bool, true, false, ◌&&◌, ◌||◌, List, [], ◌∷◌, ◌++◌,
  if◌then◌else◌, Bytes, equal, equal_refl, equal→eq, Bool-cases, arith,
}
use claude_master_go.Cloud.Reconcile.{
  Remote, Repair, Desired, ids_of, others_of, kill_all, repair_one, repair_all, kill_left,
}
use claude_master_go.Cloud.Reconcile.Counts.{
  is_killed, made, alive, windows_of, has_id, has, wants, Distinct, DistinctIds, IsMap, is_none,
  or_false, left-agree, alive-agree, left-others, left-ids, ids_of-others, is_killed-append,
  made-append, is_killed-kill_all, made-kill_all, is_killed-kill_left, made-kill_left, alive-first,
  left-none,
}

-- A repair of a list of windows kills none that is not on it.
kept_others :
    (marker id : Bytes) (cur : List (Bytes × Bytes))
    → has_id id cur ≡ false
    → (has_id id (others_of marker cur) ≡ false) × (has id (ids_of marker cur) ≡ false)
unfolding has_id has others_of ids_of
kept_others marker id [] h = (refl, refl)
kept_others marker id ((x, mk) ∷ cur) h =
    let rest : has_id id cur ≡ false = ground arith in
    let first : equal x id ≡ false = ground arith in
    let ih = kept_others marker id cur rest in
    elim (Bool-cases (equal mk marker)) [
      | inl e ↦ simp e (ih.0, ground arith)
      | inr e ↦ simp e (ground arith, ih.1)
    ]

repair_one-killed :
    (nc : Bool) (marker id : Bytes) (d : Remote) (ids : List Bytes)
    → has id ids ≡ false
    → is_killed (repair_one nc marker d ids) id ≡ false
unfolding repair_one is_killed has
repair_one-killed nc marker id d [] h = ground arith
repair_one-killed nc marker id d (x ∷ ids) h = is_killed-kill_all ids id ∙ ground arith

repair_all-killed :
    (nc : Bool) (ds : Desired) (cur : List (Bytes × Bytes)) (id : Bytes)
    → has_id id cur ≡ false
    → is_killed (repair_all nc ds cur) id ≡ false
unfolding repair_all
repair_all-killed nc [] cur id h = is_killed-kill_left cur id ∙ h
repair_all-killed nc ((marker, d) ∷ ds) cur id h =
    let kept = kept_others marker id cur h in
    is_killed-append (repair_one nc marker d (ids_of marker cur))
      (repair_all nc ds (others_of marker cur)) id
    ∙ ap (λ b. b || is_killed (repair_all nc ds (others_of marker cur)) id)
        (repair_one-killed nc marker id d (ids_of marker cur) kept.1)
    ∙ repair_all-killed nc ds (others_of marker cur) id kept.0

-- Ids that differ stay apart in the parts.
Distinct-others :
    (marker : Bytes) (cur : List (Bytes × Bytes)) → Distinct cur → Distinct (others_of marker cur)
unfolding others_of
Distinct-others marker [] h = tt
Distinct-others marker ((id, mk) ∷ cur) h = elim (Bool-cases (equal mk marker)) [
  | inl e ↦ simp e (Distinct-others marker cur h.1)
  | inr e ↦ simp e ((kept_others marker id cur h.0).0, Distinct-others marker cur h.1)
]

Distinct-ids_of :
    (marker : Bytes) (cur : List (Bytes × Bytes)) → Distinct cur → DistinctIds (ids_of marker cur)
unfolding ids_of
Distinct-ids_of marker [] h = tt
Distinct-ids_of marker ((id, mk) ∷ cur) h = elim (Bool-cases (equal mk marker)) [
  | inl e ↦ simp e ((kept_others marker id cur h.0).1, Distinct-ids_of marker cur h.1)
  | inr e ↦ simp e (Distinct-ids_of marker cur h.1)
]

-- The ids of a marker are not among the others.
ids-apart :
    (marker id : Bytes) (cur : List (Bytes × Bytes))
    → Distinct cur
    → has id (ids_of marker cur) ≡ true
    → has_id id (others_of marker cur) ≡ false
unfolding ids_of others_of has has_id
ids-apart marker id [] d h = cc
ids-apart marker id ((x, mk) ∷ cur) d h = elim (Bool-cases (equal x id)) [
  | inl same ↦
      let here : has_id id cur ≡ false = rw (← equal→eq x id same) d.0 in
      let kept = kept_others marker id cur here in
      elim (Bool-cases (equal mk marker)) [
        | inl e ↦ simp e kept.0
        | inr e ↦ cc (kept.1, simp e at h)
      ]
  | inr other ↦ elim (Bool-cases (equal mk marker)) [
    | inl e ↦ simp e (ids-apart marker id cur d.1 (simp (e, other) at h))
    | inr e ↦ simp (e, other) (ids-apart marker id cur d.1 (simp e at h))
  ]
]

unfoldable pub expected : Bool → List Bytes → ℕ
unfolding is_none
expected nc ids = if nc && is_none ids then 0 else 1

one-group :
    (nc : Bool) (marker : Bytes) (d : Remote) (ids : List Bytes)
    → DistinctIds ids
    → alive (is_killed (repair_one nc marker d ids)) ids + made marker (repair_one nc marker d ids)
      ≡ expected nc ids
unfolding alive is_killed repair_one made expected is_none
one-group nc marker d [] h = elim (Bool-cases nc) [
  | inl e ↦ rw e refl
  | inr e ↦ rw (e, equal_refl marker) refl
]
one-group nc marker d (id ∷ extra) h =
    let gone =
      alive-first (is_killed (kill_all extra)) extra (λ y t. is_killed-kill_all extra y ∙ t) in
    rw (is_killed-kill_all extra id ∙ h.0, gone, made-kill_all marker extra) (ground arith)

made-one_other :
    (nc : Bool) (marker m : Bytes) (d : Remote) (ids : List Bytes)
    → equal marker m ≡ false
    → made m (repair_one nc marker d ids) ≡ 0
unfolding repair_one made
made-one_other nc marker m d [] n = elim (Bool-cases nc) [
  | inl e ↦ rw e refl
  | inr e ↦ rw (e, n) refl
]
made-one_other nc marker m d (id ∷ extra) n = made-kill_all m extra

made-unwanted :
    (nc : Bool) (m : Bytes) (ds : Desired) (cur : List (Bytes × Bytes))
    → wants m ds ≡ false
    → made m (repair_all nc ds cur) ≡ 0
unfolding repair_all wants
made-unwanted nc m [] cur h = made-kill_left m cur
made-unwanted nc m ((marker, d) ∷ ds) cur h =
    let other : equal marker m ≡ false = ground arith in
    let rest : wants m ds ≡ false = ground arith in
    omega (
      arith,
      made-append m (repair_one nc marker d (ids_of marker cur))
          (repair_all nc ds (others_of marker cur)),
      made-one_other nc marker m d (ids_of marker cur) other,
      made-unwanted nc m ds (others_of marker cur) rest,
    )

module _ (nc : Bool) (marker : Bytes) (d : Remote) (ds : Desired) (cur : List (Bytes × Bytes))
    (distinct : Distinct cur) where
  abbrev one : List Repair
  one = repair_one nc marker d (ids_of marker cur)

  abbrev rest : List Repair
  rest = repair_all nc ds (others_of marker cur)

  same-windows :
      wants marker ds ≡ false
      → windows_of marker (one ++ rest) cur ≡ expected nc (ids_of marker cur)
  same-windows unwanted =
      let agree = alive-agree (is_killed (one ++ rest)) (is_killed one) (ids_of marker cur) (λ id t.
        is_killed-append one rest id
        ∙ ap (λ b. is_killed one id || b)
            (repair_all-killed nc ds (others_of marker cur) id (ids-apart marker id cur distinct t))
        ∙ or_false (is_killed one id)) in
      omega (
        arith,
        left-ids (is_killed (one ++ rest)) marker cur,
        agree,
        made-append marker one rest,
        made-unwanted nc marker ds (others_of marker cur) unwanted,
        one-group nc marker d (ids_of marker cur) (Distinct-ids_of marker cur distinct),
      )

  other-windows :
      (m : Bytes)
      → equal marker m ≡ false
      → windows_of m (one ++ rest) cur ≡ windows_of m rest (others_of marker cur)
  other-windows m n =
      let agree =
        left-agree (is_killed (one ++ rest)) (is_killed rest) m (others_of marker cur) (λ id t.
          is_killed-append one rest id
          ∙ ap (λ b. b || is_killed rest id)
              (repair_one-killed nc marker id d (ids_of marker cur) (outside id t))) in
      omega (
        arith,
        left-others (is_killed (one ++ rest)) marker m cur n,
        agree,
        made-append m one rest,
        made-one_other nc marker m d (ids_of marker cur) n,
      )
    where
      outside :
          (id : Bytes)
          → has_id id (others_of marker cur) ≡ true
          → has id (ids_of marker cur) ≡ false
      outside id t = elim (Bool-cases (has id (ids_of marker cur))) [
        | inl y ↦ cc (ids-apart marker id cur distinct y, t)
        | inr n ↦ n
      ]

-- Over windows with ids of their own and sessions with markers of their own, in whatever order: behind
-- the repairs every desired session has exactly one window, the one that it had or a new one (none, if
-- it had none and there are too many windows to make one), and every other marker has none.
pub repair_all-windows :
    (nc : Bool) (ds : Desired) (cur : List (Bytes × Bytes)) (m : Bytes)
    → Distinct cur
    → IsMap ds
    → windows_of m (repair_all nc ds cur) cur
      ≡ (if wants m ds then expected nc (ids_of m cur) else 0)
unfolding repair_all wants
repair_all-windows nc [] cur m h k = omega (
  arith,
  left-none (is_killed (kill_left cur)) m cur (λ id t. is_killed-kill_left cur id ∙ t),
  made-kill_left m cur,
)
repair_all-windows nc ((marker, d) ∷ ds) cur m h k = elim (Bool-cases (equal marker m)) [
  | inl e ↦
      let same = equal→eq marker m e in rw e (rw (← same) (same-windows nc marker d ds cur h k.0))
  | inr e ↦
      rw (other-windows nc marker d ds cur h m e, e)
        (repair_all-windows nc ds (others_of marker cur) m (Distinct-others marker cur h) k.1
          ∙ ap (λ ids. if wants m ds then expected nc ids else 0) (ids_of-others marker m cur e))
]
