-- ===== src/Monitor/Sync/Follow.antt =====
-- After a sync the windows of the sessions that are gone are forgotten (internal/monitor/monitor.go).
use claude_master_go.Base.{
  ◌≡◌, ◌≢◌, refl, sym, ap, ◌∙◌, inl, inr, true, false, not, ◌&&◌, Option, none, List, [], ◌∷◌,
  Bytes, equal, equal_refl, equal→eq, is_empty, lookup, delete, lookup-put_other,
  lookup-delete_other, if-cases, Bool-cases, if◌then◌else◌,
}
use claude_master_go.Monitor.Session.{ClaudeSession, short_dir}
use claude_master_go.Monitor.Windows.{
  Tmux, Manager, or_nothing, window_for, list_windows, is_there, unique_name, make_window,
  ensure_cmd_window, remove_window,
}
use claude_master_go.Monitor.Sync.{
  Sessions, is_in, has, add, heal_window_missing, sync_session, sync_sessions, drop_sessions,
  sync_windows,
}

differ_keys : (k k' : Bytes) → equal k k' ≡ false → k ≢ k'
differ_keys k k' h e = cc (equal_refl k, h, e)

lookup-delete_same : (k : Bytes) (m : List (Bytes × Bytes)) → lookup k (delete k m) ≡ none
unfolding lookup delete
lookup-delete_same k [] = refl
lookup-delete_same k ((x, v) ∷ m) = elim (Bool-cases (equal k x)) [
  | inl e ↦ simp (e, lookup-delete_same k m)
  | inr e ↦ simp (e, lookup-delete_same k m)
]

is_empty-nil : (s : Bytes) → is_empty s ≡ true → s ≡ []
unfolding is_empty
is_empty-nil [] h = refl
is_empty-nil (c ∷ s) h = cc

module _ (t : Tmux) (dir : Bytes) where
  add-others :
      (k k' : Bytes) (s : ClaudeSession) (m : Manager t)
      → k' ≢ k
      → window_for t k' (add t dir k s m) ≡ window_for t k' m
  unfolding ensure_cmd_window make_window
  add-others k k' s m n =
      if-cases (λ r. window_for t k' r ≡ window_for t k' m) (is_there t k m) (λ there. refl)
        (λ fresh.
          ap or_nothing
            (lookup-put_other k k' (unique_name (short_dir s) (list_windows t m)) m.names n))

  sync_session-others :
      (known : Sessions) (ws : Option (List Bytes)) (k k' : Bytes) (s : ClaudeSession)
      (m : Manager t)
      → k' ≢ k
      → window_for t k' (sync_session t dir known ws k s m) ≡ window_for t k' m
  unfolding sync_session
  sync_session-others known ws k k' s m n =
      if-cases (λ r. window_for t k' r ≡ window_for t k' m)
        (has k known && not (heal_window_missing t dir ws (window_for t k m))) (λ keep. refl)
        (λ make. add-others k k' s m n)

  -- A key that is not among the sessions keeps what is tracked for it.
  sync_sessions-others :
      (known : Sessions) (ws : Option (List Bytes)) (k' : Bytes) (current : Sessions)
      (m : Manager t)
      → has k' current ≡ false
      → window_for t k' (sync_sessions t dir known ws current m) ≡ window_for t k' m
  unfolding sync_sessions lookup is_in
  sync_sessions-others known ws k' [] m h = refl
  sync_sessions-others known ws k' ((k, s) ∷ current) m h = elim (Bool-cases (equal k' k)) [
    | inl e ↦ cc (hit e, h)
    | inr e ↦
        sync_sessions-others known ws k' current (sync_session t dir known ws k s m)
          (sym (miss e) ∙ h)
        ∙ sync_session-others known ws k k' s m (differ_keys k' k e)
  ]
    where
      hit : equal k' k ≡ true → has k' ((k, s) ∷ current) ≡ true
      hit e = simp e

      miss : equal k' k ≡ false → has k' ((k, s) ∷ current) ≡ has k' current
      miss e = simp e

  remove_window-same : (k : Bytes) (m : Manager t) → window_for t k (remove_window t k m) ≡ []
  unfolding remove_window or_nothing
  remove_window-same k m =
      if-cases (λ r. window_for t k r ≡ []) (is_empty (window_for t k m))
        (λ none. is_empty-nil (window_for t k m) none)
        (λ some. ap or_nothing (lookup-delete_same k m.names))

  remove_window-others :
      (k k' : Bytes) (m : Manager t)
      → k' ≢ k
      → window_for t k' (remove_window t k m) ≡ window_for t k' m
  unfolding remove_window
  remove_window-others k k' m n =
      if-cases (λ r. window_for t k' r ≡ window_for t k' m) (is_empty (window_for t k m))
        (λ none. refl) (λ some. ap or_nothing (lookup-delete_other k k' m.names n))

  -- Once a key is not tracked, it stays so.
  drop_sessions-empty :
      (current known : Sessions) (k : Bytes) (m : Manager t)
      → window_for t k m ≡ []
      → window_for t k (drop_sessions t dir current known m) ≡ []
  unfolding drop_sessions
  drop_sessions-empty current [] k m h = h
  drop_sessions-empty current ((x, s) ∷ known) k m h =
      drop_sessions-empty current known k (if has x current then m else remove_window t x m) (
        if-cases (λ r. window_for t k r ≡ []) (has x current) (λ stays. h)
          (λ gone. elim (Bool-cases (equal k x)) [
            | inl e ↦
                ap (λ y. window_for t y (remove_window t x m)) (equal→eq k x e)
                ∙ remove_window-same x m
            | inr e ↦ remove_window-others x k m (differ_keys k x e) ∙ h
          ]))

  drop_sessions-gone :
      (current known : Sessions) (k : Bytes) (m : Manager t)
      → has k current ≡ false
      → has k known ≡ true
      → window_for t k (drop_sessions t dir current known m) ≡ []
  unfolding drop_sessions lookup is_in
  drop_sessions-gone current [] k m h g = cc
  drop_sessions-gone current ((x, s) ∷ known) k m h g = elim (Bool-cases (equal k x)) [
    | inl e ↦
        drop_sessions-empty current known k (if has x current then m else remove_window t x m) (
          if-cases (λ r. window_for t k r ≡ []) (has x current)
            (λ stays. cc (stays, h, ap (λ y. has y current) (equal→eq k x e)))
            (λ gone.
              ap (λ y. window_for t y (remove_window t x m)) (equal→eq k x e)
              ∙ remove_window-same x m))
    | inr e ↦
        drop_sessions-gone current known k (if has x current then m else remove_window t x m) h
          (sym (miss e) ∙ g)
  ]
    where
      miss : equal k x ≡ false → has k ((x, s) ∷ known) ≡ has k known
      miss e = simp e

  -- After a sync no window is tracked for a session that was known and is gone.
  pub sync_windows-gone :
      (known current : Sessions) (k : Bytes) (m : Manager t)
      → has k current ≡ false
      → has k known ≡ true
      → window_for t k (sync_windows t dir known current m) ≡ []
  unfolding sync_windows
  sync_windows-gone known current k m h g =
      drop_sessions-gone current known k (sync_sessions t dir known (t.list m.tmux) current m) h g
