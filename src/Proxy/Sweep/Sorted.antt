-- ===== src/Proxy/Sweep/Sorted.antt =====
-- The listing has the sessions of the live files, by process id (internal/diag/list.go).
use mathlib.Core.List.{Perm}
use mathlib.Core.List.Perm
use claude_master_go.Base.{
  ◌≡◌, refl, inl, inr, true, false, ℕ, Bytes, Option, none, some, List, [], ◌∷◌, at_least,
  at_least_total, Bool-cases, Option-cases, >>=-eq-some, some-holds,
}
use claude_master_go.Proxy.Idle.{Entry, snap_suffix}
use claude_master_go.Proxy.Sweep.Names.{
  Names, extract_pid-Names, Names-extract_pid, Names-has_suffix,
}
use claude_master_go.Proxy.Sweep.{
  has_suffix, extract_pid, or_pid, with_pid, list_pid, list_entry, add_session, Session, Reader,
  list_entries, insert, sorted, entries, list_sessions,
}

-- Neighbours are in order.
pub data Ordered : List Session → Type 0 where
  nil : Ordered []
  one : (s : Session) → Ordered (s ∷ [])
  more :
      {s t : Session} {l : List Session}
      → at_least t.pid s.pid ≡ true
      → Ordered (t ∷ l)
      → Ordered (s ∷ t ∷ l)

-- Behind the head of an ordered list a session that is not below it is inserted in order.
insert-Ordered_behind :
    (s t : Session) (l : List Session)
    → at_least s.pid t.pid ≡ true
    → Ordered (t ∷ l)
    → Ordered (t ∷ insert s l)
unfolding insert
insert-Ordered_behind s t [] b o = Ordered.more b (Ordered.one s)
insert-Ordered_behind s t (u ∷ l) b (Ordered.more c o) = elim (Bool-cases (at_least u.pid s.pid)) [
  | inl e ↦ rw e (Ordered.more b (Ordered.more e o))
  | inr e ↦ rw e (Ordered.more c (insert-Ordered_behind s u l (at_least_total u.pid s.pid e) o))
]

insert-Ordered : (s : Session) (l : List Session) → Ordered l → Ordered (insert s l)
unfolding insert
insert-Ordered s [] o = Ordered.one s
insert-Ordered s (t ∷ l) o = elim (Bool-cases (at_least t.pid s.pid)) [
  | inl e ↦ rw e (Ordered.more e o)
  | inr e ↦ rw e (insert-Ordered_behind s t l (at_least_total t.pid s.pid e) o)
]

insert-perm : (s : Session) (l : List Session) → Perm (insert s l) (s ∷ l)
unfolding insert
insert-perm s [] = Perm.refl (s ∷ [])
insert-perm s (t ∷ l) = elim (Bool-cases (at_least t.pid s.pid)) [
  | inl e ↦ rw e (Perm.refl (s ∷ t ∷ l))
  | inr e ↦ rw e (Perm.trans (Perm.cons t (insert-perm s l)) (Perm.swap s t l))
]

sorted-Ordered : (l : List Session) → Ordered (sorted l)
unfolding sorted
sorted-Ordered [] = Ordered.nil
sorted-Ordered (s ∷ l) = insert-Ordered s (sorted l) (sorted-Ordered l)

sorted-perm : (l : List Session) → Perm (sorted l) l
unfolding sorted
sorted-perm [] = Perm.refl []
sorted-perm (s ∷ l) = Perm.trans (insert-perm s (sorted l)) (Perm.cons s (sorted-perm l))

-- A session of the listing: a snapshot file, not a directory, that is named for a live process and that
-- can be read, with the process id of the name where the file has none.
pub record Listed (h : Reader) (e : Entry) (s : Session) : Type 0 where
  pub is_file : e.is_dir ≡ false
  pub pid : ℕ
  pub named : Names e.name (snap_suffix ∷ []) pid
  pub lives : h.is_alive pid ≡ true
  pub content : Session
  pub reads : h.read e.name ≡ some content
  pub same : s ≡ record content { pid = or_pid pid content.pid }

-- The sessions of a directory, each of its files once.
pub data Lists (h : Reader) : List Entry → List Session → Type 0 where
  nil : Lists h [] []
  listed :
      {e : Entry} {es : List Entry} {s : Session} {ss : List Session}
      → Listed h e s
      → Lists h es ss
      → Lists h (e ∷ es) (s ∷ ss)
  skipped :
      {e : Entry} {es : List Entry} {ss : List Session}
      → ((s : Session) → ¬ Listed h e s)
      → Lists h es ss
      → Lists h (e ∷ es) ss

list_pid-dead :
    (h : Reader) (name : Bytes) (pid : ℕ)
    → h.is_alive pid ≡ false
    → list_pid h name (some pid) ≡ none
unfolding list_pid
list_pid-dead h name pid d = rw d refl

list_entry-dir : (h : Reader) (e : Entry) → e.is_dir ≡ true → list_entry h e ≡ none
unfolding list_entry
list_entry-dir h e d = rw d refl

list_entry-other :
    (h : Reader) (e : Entry)
    → has_suffix e.name snap_suffix ≡ false
    → e.is_dir ≡ false
    → list_entry h e ≡ none
unfolding list_entry
list_entry-other h e n f = rw (f, n) refl

Listed-list_entry : (h : Reader) (e : Entry) (s : Session) → Listed h e s → list_entry h e ≡ some s
unfolding list_entry list_pid
Listed-list_entry h e s l =
    rw
      (
        l.is_file,
        Names-has_suffix e.name snap_suffix l.pid l.named,
        Names-extract_pid e.name (snap_suffix ∷ []) l.pid l.named,
        l.lives,
        l.reads,
        l.same,
      )
      refl

list_pid-Listed :
    (h : Reader) (e : Entry) (s : Session) (o : Option ℕ)
    → e.is_dir ≡ false
    → extract_pid e.name (snap_suffix ∷ []) ≡ o
    → list_pid h e.name o ≡ some s
    → Listed h e s
unfolding list_pid
list_pid-Listed h e s none f x t = cc t
list_pid-Listed h e s (some pid) f x t = elim (Bool-cases (h.is_alive pid)) [
  | inr dead ↦ cc (list_pid-dead h e.name pid dead, t)
  | inl lives ↦
      let read = >>=-eq-some (h.read e.name) (λ c. some (with_pid pid c)) (simp lives at t) in
      record {
        is_file = f;
        pid = pid;
        named = extract_pid-Names e.name (snap_suffix ∷ []) pid x;
        lives = lives;
        content = read.0;
        reads = read.1;
        same = some-holds (λ r. r ≡ with_pid pid read.0) (with_pid pid read.0) s read.2 refl;
      }
]

list_entry-Listed : (h : Reader) (e : Entry) (s : Session) → list_entry h e ≡ some s → Listed h e s
unfolding list_entry
list_entry-Listed h e s t = elim (Bool-cases e.is_dir) [
  | inl d ↦ cc (list_entry-dir h e d, t)
  | inr f ↦ elim (Bool-cases (has_suffix e.name snap_suffix)) [
    | inl y ↦
        list_pid-Listed h e s (extract_pid e.name (snap_suffix ∷ [])) f refl (simp (f, y) at t)
    | inr n ↦ cc (list_entry-other h e n f, t)
  ]
]

list_entries-Lists : (h : Reader) (es : List Entry) → Lists h es (list_entries h es)
unfolding list_entries add_session
list_entries-Lists h [] = Lists.nil
list_entries-Lists h (e ∷ es) = elim (Option-cases (list_entry h e)) [
  | inl n ↦
      rw n (Lists.skipped (λ s l. cc (n, Listed-list_entry h e s l)) (list_entries-Lists h es))
  | inr (s, y) ↦ rw y (Lists.listed (list_entry-Listed h e s y) (list_entries-Lists h es))
]

-- Of a directory that can be read the listing has the sessions of its snapshot files that are named for
-- a live process and can be read, one for each such file and no others, by process id; the order of
-- sessions with one process id is open.
pub list_sessions-Lists :
    (h : Reader) (es : List Entry)
    → (ss : List Session) × (list_sessions h (entries es) ≡ some ss)
      × Ordered ss
      × (found : List Session) × Lists h es found
      × Perm ss found
unfolding list_sessions
list_sessions-Lists h es = (
  sorted (list_entries h es),
  refl,
  sorted-Ordered (list_entries h es),
  list_entries h es,
  list_entries-Lists h es,
  sorted-perm (list_entries h es),
)
