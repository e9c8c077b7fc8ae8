-- ===== src/Proxy/Sweep.antt =====
-- internal/diag/sweep.go and internal/diag/list.go: the files that dead proxies leave are removed, and
-- the live ones are listed. The files, `isAlive` and `json.Unmarshal` are parameters.
pub mod Names
pub mod Stale
pub mod Sorted
use claude_master_go.Base.{
  ℕ, zero, suc, ◌-◌, ◌+◌, Bool, true, false, not, ◌&&◌, Option, none, some, List, [], ◌∷◌, leb,
  if◌then◌else◌, ◌>>=◌, Bytes, equal, is_empty, length, take, drop, ℤ, pos, at_least,
}
use claude_master_go.Config.Number.{atoi}
use claude_master_go.Proxy.Idle.{Entry, positive_pid, entries_of, snap_suffix}

abbrev pub sock_suffix : Bytes
sock_suffix = b'.' ∷ b's' ∷ b'o' ∷ b'c' ∷ b'k' ∷ []

abbrev pub status_suffix : Bytes
status_suffix =
    b'.' ∷ b's' ∷ b't' ∷ b'a' ∷ b't' ∷ b'u' ∷ b's' ∷ b'.' ∷ b'j' ∷ b's' ∷ b'o' ∷ b'n' ∷ []

-- `strings.HasSuffix`.
unfoldable pub has_suffix : Bytes → Bytes → Bool
has_suffix name suf =
    leb (length suf) (length name) && equal (drop (length name - length suf) name) suf

-- `extractPID`: the first suffix that fits decides.
unfoldable pub extract_pid : Bytes → List Bytes → Option ℕ
extract_pid name [] = none
extract_pid name (suf ∷ sufs) =
    let rest = extract_pid name sufs in
    if has_suffix name suf
    then atoi (take (length name - length suf) name) >>= positive_pid
    else rest

-- A directory as the entries it holds; `refuses` tells whose removal fails.
pub record Host : Type 0 where
  pub is_alive : ℕ → Bool
  pub refuses : Bytes → Bool

unfoldable pub is_dead : Host → Option ℕ → Bool
is_dead h none = false
is_dead h (some pid) = not (h.is_alive pid)

-- Whether the loop comes to `os.Remove`.
unfoldable pub is_swept : Host → List Bytes → Entry → Bool
is_swept h sufs e = not e.is_dir && is_dead h (extract_pid e.name sufs)

-- The loop over a directory: the entries left and the count of those removed.
unfoldable pub sweep_dir : Host → List Bytes → List Entry → List Entry × ℕ
sweep_dir h sufs [] = ([], 0)
sweep_dir h sufs (e ∷ es) =
    let r = sweep_dir h sufs es in
    if is_swept h sufs e && not (h.refuses e.name) then (r.0, suc r.1) else (e ∷ r.0, r.1)

unfoldable pub sweep_named :
    Host → List Bytes → Bytes → Option (List Entry) → Option (List Entry) × ℕ
sweep_named h sufs dir none = (none, 0)
sweep_named h sufs dir (some es) =
    if is_empty dir then (some es, 0) else (some (sweep_dir h sufs es).0, (sweep_dir h sufs es).1)

pub record Swept : Type 0 where
  pub sessions : Option (List Entry) × ℕ
  pub snaps : Option (List Entry) × ℕ

-- `Sweep` on the two directories, which may not be readable.
unfoldable pub sweep : Host → Bytes → Option (List Entry) → Bytes → Option (List Entry) → Swept
sweep h sessions_dir sessions diag_dir snaps = record {
  sessions = sweep_named h (sock_suffix ∷ status_suffix ∷ []) sessions_dir sessions;
  snaps = sweep_named h (snap_suffix ∷ []) diag_dir snaps;
}

-- A `Snap` as `ListSessionsFromDir` uses it: its `pid` and the rest.
pub record Session : Type 0 where
  pub pid : ℤ
  pub rest : Bytes

-- `os.ReadFile` and `json.Unmarshal`.
pub record Reader : Type 0 where
  pub is_alive : ℕ → Bool
  pub read : Bytes → Option Session

-- `s.Pid == 0`: the file's own process id.
unfoldable pub or_pid : ℕ → ℤ → ℤ
or_pid pid (pos zero) = pos pid
or_pid pid p = p

abbrev pub with_pid : ℕ → Session → Session
with_pid pid s = record s { pid = or_pid pid s.pid }

unfoldable pub list_pid : Reader → Bytes → Option ℕ → Option Session
list_pid h name none = none
list_pid h name (some pid) =
    if not (h.is_alive pid) then none else h.read name >>= (λ s. some (with_pid pid s))

unfoldable pub list_entry : Reader → Entry → Option Session
list_entry h e =
    if e.is_dir
    then none
    else if not (has_suffix e.name snap_suffix)
    then none
    else list_pid h e.name (extract_pid e.name (snap_suffix ∷ []))

unfoldable pub add_session : Option Session → List Session → List Session
add_session none ss = ss
add_session (some s) ss = s ∷ ss

unfoldable pub list_entries : Reader → List Entry → List Session
list_entries h [] = []
list_entries h (e ∷ es) = add_session (list_entry h e) (list_entries h es)

-- The order of `sort.Slice`, which leaves the order of sessions with one pid open.
unfoldable pub insert : Session → List Session → List Session
insert s [] = s ∷ []
insert s (t ∷ ts) = let rest = insert s ts in if at_least t.pid s.pid then s ∷ t ∷ ts else t ∷ rest

unfoldable pub sorted : List Session → List Session
sorted [] = []
sorted (s ∷ ss) = insert s (sorted ss)

-- `ListSessionsFromDir`: a directory that is not there lists nothing, and any other failure is an error.
pub data Listing : Type 0 where
  failed : Listing
  missing : Listing
  entries : List Entry → Listing

unfoldable pub list_sessions : Reader → Listing → Option (List Session)
list_sessions h failed = none
list_sessions h missing = some []
list_sessions h (entries es) = some (sorted (list_entries h es))
