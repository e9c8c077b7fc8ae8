-- ===== src/Cloud/Restart/Newest.antt =====
-- The conversation of a directory is the newest one that was recorded for it
-- (internal/cloud/agent/proxyrestart.go, `ResolveClaudeUUID`).
use claude_master_go.Base.{
  ℕ, ◌≤◌, ◌≡◌, refl, inl, inr, Bool, true, not, Option, none, some, List, [], ◌∷◌, ◌++◌, append-nil,
  append_assoc, In, All, In-append, In-last, All-snoc, if◌then◌else◌, ltb, Bytes, is_empty,
  Bool-cases, arith, ℤ, pos, negsuc,
}
use claude_master_go.Cloud.Restart.{
  is_some, starts_hex, is_resumable, jsonl_cwd, File, Project, stem_of, cwd_agrees, newer,
  visit_stem, visit_file, visit_files, listed_files, visit_projects, uuid_of, resolve_claude_uuid,
}

-- A conversation that counts: the file of a UUID, whose records give the directory, with a time from
-- 1970 on.
unfoldable pub dated : Bytes → Option ℤ → List (ℕ × Bytes)
dated uuid (some (pos m)) = (m, uuid) ∷ []
dated uuid _ = []

module _ (fold : Option (Bytes → Bytes → Bool)) (cwd : Bytes) where
  unfoldable pub named : File → Option Bytes → List (ℕ × Bytes)
  named f none = []
  named f (some uuid) =
      if not (is_resumable uuid)
      then []
      else if not (cwd_agrees fold cwd (jsonl_cwd f.records))
      then []
      else dated uuid f.mod_time

  unfoldable pub conversation : File → List (ℕ × Bytes)
  conversation f = if f.is_dir then [] else named f (stem_of f.name)

  unfoldable pub conversations : List File → List (ℕ × Bytes)
  conversations [] = []
  conversations (f ∷ fs) = conversation f ++ conversations fs

  -- Those of all the projects.
  unfoldable pub all_conversations : List Project → List (ℕ × Bytes)
  all_conversations [] = []
  all_conversations (p ∷ ps) =
      (if p.is_dir then conversations (listed_files p.files) else []) ++ all_conversations ps

abbrev pub AllUpTo : ℕ → List (ℕ × Bytes) → Type 0
AllUpTo n = All (λ y. y.0 ≤ n)

-- What the search has found after the conversations `seen`.
abbrev IsBest : Option (ℕ × Bytes) → List (ℕ × Bytes) → Type 0
IsBest none seen = seen ≡ []
IsBest (some x) seen = In x seen × AllUpTo x.0 seen × (is_resumable x.1 ≡ true)

newer-IsBest :
    (uuid : Bytes) (t : Option ℤ) (best : Option (ℕ × Bytes)) (seen : List (ℕ × Bytes))
    → is_resumable uuid ≡ true
    → IsBest best seen
    → IsBest (newer uuid t best) (seen ++ dated uuid t)
unfolding newer dated
newer-IsBest uuid none best seen r h = rw (append-nil seen) h
newer-IsBest uuid (some (negsuc m)) best seen r h = rw (append-nil seen) h
newer-IsBest uuid (some (pos m)) none seen r h = rw h (inl refl, (omega arith, tt), r)
newer-IsBest uuid (some (pos m)) (some (n, u)) seen r h = elim (Bool-cases (ltb n m)) [
  | inl e ↦ rw e (
    In-last (m, uuid) seen,
    All-snoc (λ y. y.0 ≤ n) (λ y. y.0 ≤ m) (m, uuid) seen (λ y le. ground arith) (omega arith) h.1,
    r,
  )
  | inr e ↦ rw e (
    In-append (n, u) seen ((m, uuid) ∷ []) h.0,
    All-snoc (λ y. y.0 ≤ n) (λ y. y.0 ≤ n) (m, uuid) seen (λ y le. le) (ground arith) h.1,
    h.2,
  )
]

module _ (fold : Option (Bytes → Bytes → Bool)) (cwd : Bytes) where
  visit_stem-IsBest :
      (f : File) (o : Option Bytes) (best : Option (ℕ × Bytes)) (seen : List (ℕ × Bytes))
      → IsBest best seen
      → IsBest (visit_stem fold cwd f o best) (seen ++ named fold cwd f o)
  unfolding visit_stem named
  visit_stem-IsBest f none best seen h = rw (append-nil seen) h
  visit_stem-IsBest f (some uuid) best seen h = elim (Bool-cases (is_resumable uuid)) [
    | inr n ↦ rw (n, append-nil seen) h
    | inl r ↦ elim (Bool-cases (cwd_agrees fold cwd (jsonl_cwd f.records))) [
      | inr n ↦ rw (r, n, append-nil seen) h
      | inl e ↦ rw (r, e) (newer-IsBest uuid f.mod_time best seen r h)
    ]
  ]

  visit_file-IsBest :
      (f : File) (best : Option (ℕ × Bytes)) (seen : List (ℕ × Bytes))
      → IsBest best seen
      → IsBest (visit_file fold cwd f best) (seen ++ conversation fold cwd f)
  unfolding visit_file conversation
  visit_file-IsBest f best seen h = elim (Bool-cases f.is_dir) [
    | inl d ↦ simp (d, append-nil) h
    | inr n ↦ simp n (visit_stem-IsBest f (stem_of f.name) best seen h)
  ]

  visit_files-IsBest :
      (fs : List File) (best : Option (ℕ × Bytes)) (seen : List (ℕ × Bytes))
      → IsBest best seen
      → IsBest (visit_files fold cwd fs best) (seen ++ conversations fold cwd fs)
  unfolding visit_files conversations
  visit_files-IsBest [] best seen h = rw (append-nil seen) h
  visit_files-IsBest (f ∷ fs) best seen h =
      rw (← append_assoc seen (conversation fold cwd f) (conversations fold cwd fs)) (
        visit_files-IsBest fs (visit_file fold cwd f best) (seen ++ conversation fold cwd f)
          (visit_file-IsBest f best seen h))

  visit_projects-IsBest :
      (ps : List Project) (best : Option (ℕ × Bytes)) (seen : List (ℕ × Bytes))
      → IsBest best seen
      → IsBest (visit_projects fold cwd ps best) (seen ++ all_conversations fold cwd ps)
  unfolding visit_projects all_conversations
  visit_projects-IsBest [] best seen h = rw (append-nil seen) h
  visit_projects-IsBest (p ∷ ps) best seen h = elim (Bool-cases p.is_dir) [
    | inl d ↦ simp d (
        rw
          (← append_assoc seen (conversations fold cwd (listed_files p.files))
            (all_conversations fold cwd ps))
          (visit_projects-IsBest ps (visit_files fold cwd (listed_files p.files) best)
            (seen ++ conversations fold cwd (listed_files p.files))
            (visit_files-IsBest (listed_files p.files) best seen h)))
    | inr n ↦ simp n (visit_projects-IsBest ps best seen h)
  ]

  -- The answer: no conversation, or the newest one.
  pub data Answer (cs : List (ℕ × Bytes)) (o : Option Bytes) : Type 0 where
    nothing : cs ≡ [] → o ≡ none → Answer cs o
    newest :
        (m : ℕ) (uuid : Bytes)
        → o ≡ some uuid
        → In (m, uuid) cs
        → AllUpTo m cs
        → is_resumable uuid ≡ true
        → Answer cs o

  best-Answer :
      (best : Option (ℕ × Bytes)) (cs : List (ℕ × Bytes))
      → IsBest best cs
      → Answer cs (uuid_of best)
  unfolding uuid_of is_empty is_resumable starts_hex is_some
  best-Answer none cs h = Answer.nothing h refl
  best-Answer (some (m, [])) cs h = cc h.2
  best-Answer (some (m, c ∷ u)) cs h = Answer.newest m (c ∷ u) refl h.0 h.1 h.2

  -- Over projects that can be read, with files in any order, `ResolveClaudeUUID` finds nothing exactly
  -- where no conversation was recorded for the directory, and otherwise one of them that no other is
  -- newer than; its UUID can be resumed.
  pub resolve_claude_uuid-Answer :
      (ps : List Project)
      → Answer (all_conversations fold cwd ps) (resolve_claude_uuid fold cwd (some ps))
  unfolding resolve_claude_uuid
  resolve_claude_uuid-Answer ps =
      best-Answer (visit_projects fold cwd ps none) (all_conversations fold cwd ps)
        (visit_projects-IsBest ps none [] refl)
