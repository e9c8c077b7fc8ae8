-- ===== src/Config/Clouds/Append.antt =====
-- Adding a cloud keeps the others (internal/config/clouds.go, `AppendCloud`).
use claude_master_go.Base.{
  ◌≡◌, ◌≢◌, refl, sym, ap, ◌∙◌, inl, inr, Bool, true, false, append-nil, List, [], ◌∷◌, ◌++◌, Bytes,
  equal, equal_refl, equal→eq, Bool-cases, if◌then◌else◌,
}
use claude_master_go.Config.Clouds.{Cloud, merge_cloud, merged, seeded, append_cloud}

-- The clouds of a project.
unfoldable pub of_project : Bytes → List Cloud → List Cloud
of_project p [] = []
of_project p (cl ∷ cs) =
    let rest = of_project p cs in if equal cl.project p then cl ∷ rest else rest

of_project-append :
    (p : Bytes) (cs ds : List Cloud) → of_project p (cs ++ ds) ≡ of_project p cs ++ of_project p ds
unfolding of_project
of_project-append p [] ds = refl
of_project-append p (cl ∷ cs) ds = elim (Bool-cases (equal cl.project p)) [
  | inl e ↦ simp (e, of_project-append p cs ds)
  | inr e ↦ simp (e, of_project-append p cs ds)
]

differs : (a p q : Bytes) → p ≢ q → equal a q ≡ true → equal a p ≡ false
differs a p q n e = elim (Bool-cases (equal a p)) [
  | inl t ↦ absurd (n (sym (equal→eq a p t) ∙ equal→eq a q e))
  | inr f ↦ f
]

merge_cloud-others :
    (add : Cloud) (p : Bytes) (cs : List Cloud)
    → p ≢ add.project
    → of_project p ((merge_cloud add cs).0) ≡ of_project p cs
unfolding merge_cloud of_project
merge_cloud-others add p [] n = refl
merge_cloud-others add p (cl ∷ cs) n = elim (Bool-cases (equal cl.project add.project)) [
  | inl e ↦ simp (
    e,
    differs cl.project p add.project n e,
    differs add.project p add.project n (equal_refl add.project),
    merge_cloud-others add p cs n,
  )
  | inr e ↦ simp (e, merge_cloud-others add p cs n)
]

merged-others :
    (add : Cloud) (p : Bytes) (r : List Cloud × Bool)
    → p ≢ add.project
    → of_project p (merged add r) ≡ of_project p (r.0)
unfolding merged of_project
merged-others add p (cs, true) n = refl
merged-others add p (cs, false) n =
    of_project-append p cs (add ∷ [])
    ∙ ap (λ r. of_project p cs ++ r)
        (alone (differs add.project p add.project n (equal_refl add.project)))
    ∙ append-nil (of_project p cs)
  where
    alone : equal add.project p ≡ false → of_project p (add ∷ []) ≡ []
    alone e = simp e

-- The clouds of every other project stay as they are, in the list that AppendCloud starts from.
pub append_cloud-others :
    (add : Cloud) (p : Bytes) (existing file : List Cloud)
    → p ≢ add.project
    → of_project p (append_cloud add existing file) ≡ of_project p (seeded file existing)
append_cloud-others add p existing file n =
    merged-others add p (merge_cloud add (seeded file existing)) n
    ∙ merge_cloud-others add p (seeded file existing) n
