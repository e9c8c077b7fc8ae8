-- ===== src/Cloud/Restart/Kept.antt =====
-- A proxy is ended only if its conversation can go on (internal/cloud/agent/proxyrestart.go).
use claude_master_go.Base.{
  ℕ, ◌≡◌, refl, ◌⊎◌, inl, inr, true, Option, none, some, [], ◌∷◌, Bytes, Bool-cases, if-cases,
}
use claude_master_go.Cloud.Restart.{
  is_resumable, Error, unwired, not_found, unwired_uuid, no_uuid, kill_failed, spawn_failed, killed,
  spawned, Restarter, Restarted, after_spawn, after_kill, replace, if_resumable, resolved,
  found_session, restart_with, restart,
}

-- The conversation that is resumed: the session's own, or the one that is found for its directory.
pub record Resumes (p : Restarter) (sid cwd uuid : Bytes) : Type 0 where
  pub resumable : is_resumable uuid ≡ true
  pub whose :
      (uuid ≡ sid)
      ⊎ ((resolve : Bytes → Option Bytes) × (p.resolve_uuid ≡ some resolve)
          × (resolve cwd ≡ some uuid))

-- The ways a restart goes: an error and no call; or, of a session that is known and can be resumed, an
-- end that fails; or its end and a start, whose error, if any, is that of the restart.
pub data Course (p : Restarter) (sid : Bytes) (r : Restarted) : Type 0 where
  kept : (e : Error) → r ≡ (some e, []) → Course p sid r
  not_ended :
      (look : Bytes → Option (ℕ × Bytes)) (kill : ℕ → Option Bytes) (pid : ℕ) (cwd uuid e : Bytes)
      → p.lookup_session ≡ some look
      → look sid ≡ some (pid, cwd)
      → Resumes p sid cwd uuid
      → p.kill ≡ some kill
      → kill pid ≡ some e
      → r ≡ (some (kill_failed pid e), killed pid ∷ [])
      → Course p sid r
  ended :
      (look : Bytes → Option (ℕ × Bytes)) (kill : ℕ → Option Bytes)
      → (spawn : Bytes → Bytes → Option Bytes) (pid : ℕ) (cwd uuid : Bytes)
      → p.lookup_session ≡ some look
      → look sid ≡ some (pid, cwd)
      → Resumes p sid cwd uuid
      → p.kill ≡ some kill
      → kill pid ≡ none
      → p.spawn ≡ some spawn
      → ((spawn uuid cwd ≡ none) × (r.0 ≡ none))
        ⊎ ((e : Bytes) × (spawn uuid cwd ≡ some e) × (r.0 ≡ some (spawn_failed e)))
      → r.1 ≡ killed pid ∷ spawned uuid cwd ∷ []
      → Course p sid r

module _ (p : Restarter) (sid : Bytes) (look : Bytes → Option (ℕ × Bytes)) (kill : ℕ → Option Bytes)
    (spawn : Bytes → Bytes → Option Bytes) (looks : p.lookup_session ≡ some look)
    (kills : p.kill ≡ some kill) (spawns : p.spawn ≡ some spawn) where
  module _ (pid : ℕ) (cwd : Bytes) (known : look sid ≡ some (pid, cwd)) where
    spawn-Course :
        (uuid : Bytes)
        → Resumes p sid cwd uuid
        → kill pid ≡ none
        → (o : Option Bytes) → spawn uuid cwd ≡ o
        → Course p sid (after_spawn pid uuid cwd o)
    unfolding after_spawn
    spawn-Course uuid r k none s =
        Course.ended look kill spawn pid cwd uuid looks known r kills k spawns (inl (s, refl)) refl
    spawn-Course uuid r k (some e) s =
        Course.ended look kill spawn pid cwd uuid looks known r kills k spawns (inr (e, s, refl))
          refl

    kill-Course :
        (uuid : Bytes)
        → Resumes p sid cwd uuid
        → (o : Option Bytes) → kill pid ≡ o
        → Course p sid (after_kill spawn pid uuid cwd o)
    unfolding after_kill
    kill-Course uuid r none k = spawn-Course uuid r k (spawn uuid cwd) refl
    kill-Course uuid r (some e) k =
        Course.not_ended look kill pid cwd uuid e looks known r kills k refl

    replace-Course :
        (uuid : Bytes)
        → Resumes p sid cwd uuid
        → Course p sid (replace kill spawn pid cwd (some uuid))
    unfolding replace
    replace-Course uuid r = kill-Course uuid r (kill pid) refl

    answer-Course :
        (resolve : Bytes → Option Bytes) (o : Option Bytes)
        → p.resolve_uuid ≡ some resolve
        → resolve cwd ≡ o
        → Course p sid (replace kill spawn pid cwd (if_resumable o))
    unfolding replace if_resumable
    answer-Course resolve none e f = Course.kept (no_uuid cwd) refl
    answer-Course resolve (some u) e f = elim (Bool-cases (is_resumable u)) [
      | inl t ↦ rw t (replace-Course u (record { resumable = t; whose = inr (resolve, e, f) }))
      | inr n ↦ rw n (Course.kept (no_uuid cwd) refl)
    ]

    resolved-Course :
        (o : Option (Bytes → Option Bytes))
        → p.resolve_uuid ≡ o
        → Course p sid (resolved kill spawn o pid cwd)
    unfolding resolved
    resolved-Course none e = Course.kept unwired_uuid refl
    resolved-Course (some resolve) e = answer-Course resolve (resolve cwd) e refl

  found-Course :
      (o : Option (ℕ × Bytes)) → look sid ≡ o → Course p sid (found_session p kill spawn sid o)
  unfolding found_session
  found-Course none e = Course.kept (not_found sid) refl
  found-Course (some (pid, cwd)) e =
      if-cases (Course p sid) (is_resumable sid)
        (λ t. replace-Course pid cwd e sid (record { resumable = t; whose = inl refl }))
        (λ _. resolved-Course pid cwd e p.resolve_uuid refl)

-- Whatever is wired and whatever the processes answer, nothing is killed unless the session is known
-- and a UUID that can be resumed is at hand; the proxy is started again, with that UUID and in the
-- directory of the session, exactly when it was ended; and a restart without an error has done both.
pub restart-Course : (p : Restarter) (sid : Bytes) → Course p sid (restart p sid)
unfolding restart restart_with
restart-Course p sid = wired p.lookup_session p.kill p.spawn refl refl refl
  where
    wired :
        (l : Option (Bytes → Option (ℕ × Bytes)))
        → (k : Option (ℕ → Option Bytes)) → (s : Option (Bytes → Bytes → Option Bytes))
        → p.lookup_session ≡ l
        → p.kill ≡ k
        → p.spawn ≡ s
        → Course p sid (restart_with p sid l k s)
    wired (some look) (some kill) (some spawn) e f g =
        found-Course p sid look kill spawn e f g (look sid) refl
    wired none k s e f g = Course.kept unwired refl
    wired (some look) none s e f g = Course.kept unwired refl
    wired (some look) (some kill) none e f g = Course.kept unwired refl
