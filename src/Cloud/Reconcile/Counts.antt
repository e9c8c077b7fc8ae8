-- ===== src/Cloud/Reconcile/Counts.antt =====
-- Windows counted behind repairs (internal/cloud/agent/remotesync.go).
use claude_master_go.Base.{
  ℕ, suc, ◌+◌, ◌≡◌, refl, ap, ◌∙◌, inl, inr, Bool, true, false, not, ◌&&◌, ◌||◌, List, [], ◌∷◌,
  ◌++◌, if◌then◌else◌, Bytes, equal, equal_refl, equal→eq, Bool-cases, arith,
}
use claude_master_go.Cloud.Reconcile.{
  Repair, create_window, style_window, kill_window_id, Desired, ids_of, others_of, kill_all,
  kill_left,
}

-- Whether the repairs kill a window, and how many they make for a marker.
unfoldable pub is_killed : List Repair → Bytes → Bool
is_killed [] id = false
is_killed (kill_window_id x ∷ rs) id = equal x id || is_killed rs id
is_killed (create_window d mk ∷ rs) id = is_killed rs id
is_killed (style_window x d ∷ rs) id = is_killed rs id

unfoldable pub made : Bytes → List Repair → ℕ
made m [] = 0
made m (create_window d mk ∷ rs) = let rest = made m rs in if equal mk m then suc rest else rest
made m (kill_window_id x ∷ rs) = made m rs
made m (style_window x d ∷ rs) = made m rs

-- The windows of a marker that are not killed.
unfoldable pub left : (Bytes → Bool) → Bytes → List (Bytes × Bytes) → ℕ
left kills m [] = 0
left kills m ((id, mk) ∷ cur) =
    let rest = left kills m cur in if equal mk m && not (kills id) then suc rest else rest

unfoldable pub alive : (Bytes → Bool) → List Bytes → ℕ
alive kills [] = 0
alive kills (id ∷ ids) = let rest = alive kills ids in if kills id then rest else suc rest

-- The windows of a marker behind the repairs.
abbrev pub windows_of : Bytes → List Repair → List (Bytes × Bytes) → ℕ
windows_of m rs cur = left (is_killed rs) m cur + made m rs

unfoldable pub has_id : Bytes → List (Bytes × Bytes) → Bool
has_id id [] = false
has_id id ((x, mk) ∷ cur) = equal x id || has_id id cur

unfoldable pub has : Bytes → List Bytes → Bool
has id [] = false
has id (x ∷ ids) = equal x id || has id ids

unfoldable pub wants : Bytes → Desired → Bool
wants m [] = false
wants m ((mk, d) ∷ ds) = equal mk m || wants m ds

-- No two windows have one id, and no two sessions one marker.
abbrev pub Distinct : List (Bytes × Bytes) → Type 0
Distinct [] = Unit {0}
Distinct ((id, mk) ∷ cur) = (has_id id cur ≡ false) × Distinct cur

abbrev pub DistinctIds : List Bytes → Type 0
DistinctIds [] = Unit {0}
DistinctIds (id ∷ ids) = (has id ids ≡ false) × DistinctIds ids

abbrev pub IsMap : Desired → Type 0
IsMap [] = Unit {0}
IsMap ((mk, d) ∷ ds) = (wants mk ds ≡ false) × IsMap ds

unfoldable pub is_none : List Bytes → Bool
is_none [] = true
is_none (id ∷ ids) = false

pub or_false : (b : Bool) → (b || false) ≡ b
or_false b = ground arith

pub or_true : (b : Bool) → (b || true) ≡ true
or_true b = ground arith

pub left-agree :
    (k k' : Bytes → Bool) (m : Bytes) (cur : List (Bytes × Bytes))
    → ((id : Bytes) → has_id id cur ≡ true → k id ≡ k' id)
    → left k m cur ≡ left k' m cur
unfolding left has_id
left-agree k k' m [] h = refl
left-agree k k' m ((id, mk) ∷ cur) h =
    let rest =
      left-agree k k' m cur (λ x t. h x (ap (λ b. equal id x || b) t ∙ or_true (equal id x))) in
    rw (h id (ap (λ b. b || has_id id cur) (equal_refl id)), rest) refl

pub alive-agree :
    (k k' : Bytes → Bool) (ids : List Bytes)
    → ((id : Bytes) → has id ids ≡ true → k id ≡ k' id)
    → alive k ids ≡ alive k' ids
unfolding alive has
alive-agree k k' [] h = refl
alive-agree k k' (x ∷ ids) h =
    let rest =
      alive-agree k k' ids (λ y t. h y (ap (λ b. equal x y || b) t ∙ or_true (equal x y))) in
    rw (h x (ap (λ b. b || has x ids) (equal_refl x)), rest) refl

-- The windows of another marker are among the others, and those of the marker are its ids.
pub left-others :
    (k : Bytes → Bool) (marker m : Bytes) (cur : List (Bytes × Bytes))
    → equal marker m ≡ false
    → left k m cur ≡ left k m (others_of marker cur)
unfolding left others_of
left-others k marker m [] n = refl
left-others k marker m ((id, mk) ∷ cur) n = elim (Bool-cases (equal mk marker)) [
  | inl e ↦
      let other : equal mk m ≡ false = rw (equal→eq mk marker e) n in
      simp (e, other) (left-others k marker m cur n)
  | inr e ↦ simp (e, left-others k marker m cur n)
]

pub left-ids :
    (k : Bytes → Bool) (m : Bytes) (cur : List (Bytes × Bytes))
    → left k m cur ≡ alive k (ids_of m cur)
unfolding left alive ids_of
left-ids k m [] = refl
left-ids k m ((id, mk) ∷ cur) = elim (Bool-cases (equal mk m)) [
  | inl e ↦ elim (Bool-cases (k id)) [
    | inl d ↦ simp (e, d, left-ids k m cur)
    | inr d ↦ simp (e, d, left-ids k m cur)
  ]
  | inr e ↦ simp (e, left-ids k m cur)
]

pub ids_of-others :
    (marker m : Bytes) (cur : List (Bytes × Bytes))
    → equal marker m ≡ false
    → ids_of m (others_of marker cur) ≡ ids_of m cur
unfolding ids_of others_of
ids_of-others marker m [] n = refl
ids_of-others marker m ((id, mk) ∷ cur) n = elim (Bool-cases (equal mk marker)) [
  | inl e ↦
      let other : equal mk m ≡ false = rw (equal→eq mk marker e) n in
      simp (e, other) (ids_of-others marker m cur n)
  | inr e ↦ elim (Bool-cases (equal mk m)) [
    | inl y ↦ simp (e, y, ids_of-others marker m cur n)
    | inr y ↦ simp (e, y, ids_of-others marker m cur n)
  ]
]

pub is_killed-append :
    (rs ss : List Repair) (id : Bytes)
    → is_killed (rs ++ ss) id ≡ (is_killed rs id || is_killed ss id)
unfolding is_killed
is_killed-append [] ss id = refl
is_killed-append (kill_window_id x ∷ rs) ss id = ground (arith, is_killed-append rs ss id)
is_killed-append (create_window d mk ∷ rs) ss id = is_killed-append rs ss id
is_killed-append (style_window x d ∷ rs) ss id = is_killed-append rs ss id

pub made-append : (m : Bytes) (rs ss : List Repair) → made m (rs ++ ss) ≡ made m rs + made m ss
unfolding made
made-append m [] ss = omega arith
made-append m (create_window d mk ∷ rs) ss = ground (arith, made-append m rs ss)
made-append m (kill_window_id x ∷ rs) ss = made-append m rs ss
made-append m (style_window x d ∷ rs) ss = made-append m rs ss

pub is_killed-kill_all : (ids : List Bytes) (id : Bytes) → is_killed (kill_all ids) id ≡ has id ids
unfolding is_killed kill_all has
is_killed-kill_all [] id = refl
is_killed-kill_all (x ∷ ids) id = ap (λ b. equal x id || b) (is_killed-kill_all ids id)

pub made-kill_all : (m : Bytes) (ids : List Bytes) → made m (kill_all ids) ≡ 0
unfolding made kill_all
made-kill_all m [] = refl
made-kill_all m (x ∷ ids) = made-kill_all m ids

pub is_killed-kill_left :
    (cur : List (Bytes × Bytes)) (id : Bytes) → is_killed (kill_left cur) id ≡ has_id id cur
unfolding is_killed kill_left has_id
is_killed-kill_left [] id = refl
is_killed-kill_left ((x, mk) ∷ cur) id = ap (λ b. equal x id || b) (is_killed-kill_left cur id)

pub made-kill_left : (m : Bytes) (cur : List (Bytes × Bytes)) → made m (kill_left cur) ≡ 0
unfolding made kill_left
made-kill_left m [] = refl
made-kill_left m ((x, mk) ∷ cur) = made-kill_left m cur

-- Of the windows of the marker the first is left.
pub alive-first :
    (k : Bytes → Bool) (ids : List Bytes)
    → ((id : Bytes) → has id ids ≡ true → k id ≡ true)
    → alive k ids ≡ 0
unfolding alive has
alive-first k [] h = refl
alive-first k (x ∷ ids) h =
    let rest = alive-first k ids (λ y t. h y (ap (λ b. equal x y || b) t ∙ or_true (equal x y))) in
    rw (h x (ap (λ b. b || has x ids) (equal_refl x)), rest) refl

pub left-none :
    (k : Bytes → Bool) (m : Bytes) (cur : List (Bytes × Bytes))
    → ((id : Bytes) → has_id id cur ≡ true → k id ≡ true)
    → left k m cur ≡ 0
unfolding left has_id
left-none k m [] h = refl
left-none k m ((id, mk) ∷ cur) h =
    let rest =
      left-none k m cur (λ x t. h x (ap (λ b. equal id x || b) t ∙ or_true (equal id x))) in
    rw (h id (ap (λ b. b || has_id id cur) (equal_refl id)), rest) (ground arith)
