-- ===== src/Proxy/Sweep/Stale.antt =====
-- A sweep removes what dead processes left, and nothing else (internal/diag/sweep.go).
use claude_master_go.Base.{
  ℕ, suc, ◌≡◌, refl, sym, ap, ◌∙◌, inl, inr, true, false, none, some, List, [], ◌∷◌, Bool-cases,
  Option-cases, Bytes, arith,
}
use claude_master_go.Proxy.Idle.{Entry}
use claude_master_go.Proxy.Sweep.{Host, extract_pid, is_dead, is_swept, sweep_dir}
use claude_master_go.Proxy.Sweep.Names.{Names, extract_pid-Names, Names-extract_pid}

-- A file, not a directory, that is named for the process id of a process that does not live.
pub record Leftover (h : Host) (sufs : List Bytes) (e : Entry) : Type 0 where
  pub is_file : e.is_dir ≡ false
  pub pid : ℕ
  pub named : Names e.name sufs pid
  pub is_gone : h.is_alive pid ≡ false

-- What a sweep does to a directory: the entries before, those behind, and how many were removed.
pub data Cleans (h : Host) (sufs : List Bytes) : List Entry → List Entry → ℕ → Type 0 where
  nil : Cleans h sufs [] [] 0
  removed :
      {e : Entry} {es rest : List Entry} {n : ℕ}
      → Leftover h sufs e
      → h.refuses e.name ≡ false
      → Cleans h sufs es rest n
      → Cleans h sufs (e ∷ es) rest (suc n)
  refused :
      {e : Entry} {es rest : List Entry} {n : ℕ}
      → Leftover h sufs e
      → h.refuses e.name ≡ true
      → Cleans h sufs es rest n
      → Cleans h sufs (e ∷ es) (e ∷ rest) n
  kept :
      {e : Entry} {es rest : List Entry} {n : ℕ}
      → ¬ Leftover h sufs e
      → Cleans h sufs es rest n
      → Cleans h sufs (e ∷ es) (e ∷ rest) n

is_swept-Leftover :
    (h : Host) (sufs : List Bytes) (e : Entry) → is_swept h sufs e ≡ true → Leftover h sufs e
unfolding is_swept is_dead
is_swept-Leftover h sufs e s = elim (Option-cases (extract_pid e.name sufs)) [
  | inl n ↦ cc (s, nobody n)
  | inr (pid, found) ↦
      let dead = sym (ap (is_dead h) found) in
      record {
        is_file = ground arith;
        pid = pid;
        named = extract_pid-Names e.name sufs pid found;
        is_gone = gone pid (dead ∙ part);
      }
]
  where
    part : is_dead h (extract_pid e.name sufs) ≡ true
    part = ground arith

    gone : (pid : ℕ) → is_dead h (some pid) ≡ true → h.is_alive pid ≡ false
    gone pid d = ground arith

    nobody : extract_pid e.name sufs ≡ none → is_swept h sufs e ≡ false
    nobody n = rw n (ground arith)

Leftover-is_swept :
    (h : Host) (sufs : List Bytes) (e : Entry) → Leftover h sufs e → is_swept h sufs e ≡ true
unfolding is_swept is_dead
Leftover-is_swept h sufs e l =
    rw (l.is_file, Names-extract_pid e.name sufs l.pid l.named, l.is_gone) refl

-- A sweep removes exactly the files that are named for a dead process, except those whose removal
-- fails; it counts what it removes, and leaves everything else, in its order: the directories, the
-- files of live processes and those that no process id names.
pub sweep_dir-Cleans :
    (h : Host) (sufs : List Bytes) (es : List Entry)
    → let r = sweep_dir h sufs es in Cleans h sufs es r.0 r.1
unfolding sweep_dir
sweep_dir-Cleans h sufs [] = Cleans.nil
sweep_dir-Cleans h sufs (e ∷ es) =
    let ih = sweep_dir-Cleans h sufs es in
    elim (Bool-cases (is_swept h sufs e)) [
      | inr n ↦ rw n (Cleans.kept (λ l. cc (n, Leftover-is_swept h sufs e l)) ih)
      | inl s ↦ elim (Bool-cases (h.refuses e.name)) [
        | inl r ↦ rw (s, r) (Cleans.refused (is_swept-Leftover h sufs e s) r ih)
        | inr r ↦ rw (s, r) (Cleans.removed (is_swept-Leftover h sufs e s) r ih)
      ]
    ]
