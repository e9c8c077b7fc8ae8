-- ===== src/Cloud/Restart.antt =====
-- internal/cloud/agent/proxyrestart.go: a claude proxy is ended and started again with `--resume`. The
-- files below the directory of projects, with what their records decode to, and the processes are
-- parameters.
pub mod Newest
pub mod Kept
use claude_master_go.Base.{
  ℕ, zero, suc, ◌-◌, ◌==◌, ltb, leb, Bool, true, false, not, ◌&&◌, ◌||◌, Option, none, some, List,
  [], ◌∷◌, if◌then◌else◌, ◌>>=◌, Bytes, equal, is_empty, length, take, drop, ℤ, pos, negsuc,
}

-- `claudeUUIDRe`: eight hexadecimal digits in small letters, a dash, four more and a dash.
unfoldable pub is_hex : ℕ → Bool
is_hex c = leb b'0' c && leb c b'9' || leb b'a' c && leb c b'f'

unfoldable pub starts_hex : ℕ → Bytes → Option Bytes
starts_hex zero [] = none
starts_hex zero (c ∷ s) = if c == b'-' then some s else none
starts_hex (suc n) [] = none
starts_hex (suc n) (c ∷ s) = let rest = starts_hex n s in if is_hex c then rest else none

unfoldable pub is_some : Option Bytes → Bool
is_some none = false
is_some (some s) = true

-- `IsResumable`.
unfoldable pub is_resumable : Bytes → Bool
is_resumable sid = is_some (starts_hex 8 sid >>= starts_hex 4)

-- `normPath`: one kind of separator, and none at the end of a longer path.
unfoldable pub slashes : Bytes → Bytes
slashes [] = []
slashes (c ∷ s) = (if c == 92 then b'/' else c) ∷ slashes s

-- A path with its last byte first.
unfoldable pub drop_slashes : Bytes → Bytes
drop_slashes [] = []
drop_slashes (c ∷ []) = c ∷ []
drop_slashes (c ∷ d ∷ s) = let rest = drop_slashes (d ∷ s) in if c == b'/' then rest else c ∷ d ∷ s

unfoldable pub reversed : Bytes → Bytes → Bytes
reversed acc [] = acc
reversed acc (c ∷ s) = reversed (c ∷ acc) s

unfoldable pub norm_path : Bytes → Bytes
norm_path p = reversed [] (drop_slashes (reversed [] (slashes p)))

-- `pathEqual`. On Windows `strings.EqualFold` is given.
unfoldable pub path_equal : Option (Bytes → Bytes → Bool) → Bytes → Bytes → Bool
path_equal none a b = equal (norm_path a) (norm_path b)
path_equal (some fold) a b = fold (norm_path a) (norm_path b)

-- What `dec.Decode` brings: an error that is not the end of the file, or an object with its `cwd`, if
-- that is a string.
pub data Decoded : Type 0 where
  broken : Decoded
  object : Option Bytes → Decoded

unfoldable pub has_cwd : Option Bytes → Option Bytes
has_cwd none = none
has_cwd (some c) = if is_empty c then none else some c

unfoldable pub or_next : Option Bytes → Option Bytes → Option Bytes
or_next none next = next
or_next (some c) next = some c

unfoldable pub cwd_within : ℕ → List Decoded → Option Bytes
cwd_within zero ds = none
cwd_within (suc n) [] = none
cwd_within (suc n) (broken ∷ ds) = none
cwd_within (suc n) (object c ∷ ds) = or_next (has_cwd c) (cwd_within n ds)

-- `jsonlCwd` on a file that opens or does not.
unfoldable pub jsonl_cwd : Option (List Decoded) → Option Bytes
jsonl_cwd none = none
jsonl_cwd (some ds) = cwd_within 30 ds

-- A file of a project, and a project, whose directory may not be readable.
pub record File : Type 0 where
  pub name : Bytes
  pub is_dir : Bool
  pub records : Option (List Decoded)
  pub mod_time : Option ℤ

pub record Project : Type 0 where
  pub is_dir : Bool
  pub files : Option (List File)

abbrev pub jsonl_suffix : Bytes
jsonl_suffix = b'.' ∷ b'j' ∷ b's' ∷ b'o' ∷ b'n' ∷ b'l' ∷ []

-- `strings.HasSuffix` and `strings.TrimSuffix`.
unfoldable pub stem_of : Bytes → Option Bytes
stem_of name =
    let stem = length name - 6 in
    if leb 6 (length name) && equal (drop stem name) jsonl_suffix
    then some (take stem name)
    else none

unfoldable pub cwd_agrees : Option (Bytes → Bytes → Bool) → Bytes → Option Bytes → Bool
cwd_agrees fold cwd none = false
cwd_agrees fold cwd (some c) = path_equal fold c cwd

-- `m > bestMod`, which is -1 at first: a time before 1970 is never the best.
unfoldable pub newer : Bytes → Option ℤ → Option (ℕ × Bytes) → Option (ℕ × Bytes)
newer uuid (some (pos m)) none = some (m, uuid)
newer uuid (some (pos m)) (some (n, u)) = if ltb n m then some (m, uuid) else some (n, u)
newer uuid _ best = best

unfoldable pub visit_stem :
    Option (Bytes → Bytes → Bool)
    → Bytes
    → File
    → Option Bytes
    → Option (ℕ × Bytes)
    → Option (ℕ × Bytes)
visit_stem fold cwd f none best = best
visit_stem fold cwd f (some uuid) best =
    if not (is_resumable uuid)
    then best
    else if not (cwd_agrees fold cwd (jsonl_cwd f.records))
    then best
    else newer uuid f.mod_time best

unfoldable pub visit_file :
    Option (Bytes → Bytes → Bool) → Bytes → File → Option (ℕ × Bytes) → Option (ℕ × Bytes)
visit_file fold cwd f best = if f.is_dir then best else visit_stem fold cwd f (stem_of f.name) best

unfoldable pub visit_files :
    Option (Bytes → Bytes → Bool) → Bytes → List File → Option (ℕ × Bytes) → Option (ℕ × Bytes)
visit_files fold cwd [] best = best
visit_files fold cwd (f ∷ fs) best = visit_files fold cwd fs (visit_file fold cwd f best)

unfoldable pub listed_files : Option (List File) → List File
listed_files none = []
listed_files (some fs) = fs

unfoldable pub visit_projects :
    Option (Bytes → Bytes → Bool) → Bytes → List Project → Option (ℕ × Bytes) → Option (ℕ × Bytes)
visit_projects fold cwd [] best = best
visit_projects fold cwd (p ∷ ps) best =
    visit_projects fold cwd ps
      (if p.is_dir then visit_files fold cwd (listed_files p.files) best else best)

unfoldable pub uuid_of : Option (ℕ × Bytes) → Option Bytes
uuid_of none = none
uuid_of (some (m, u)) = if is_empty u then none else some u

-- `ResolveClaudeUUID` on the entries of the directory of projects, if it can be read.
unfoldable pub resolve_claude_uuid :
    Option (Bytes → Bytes → Bool) → Bytes → Option (List Project) → Option Bytes
resolve_claude_uuid fold cwd none = none
resolve_claude_uuid fold cwd (some ps) = uuid_of (visit_projects fold cwd ps none)

-- The errors of `Restart`, and the calls it makes, in order.
pub data Error : Type 0 where
  unwired : Error
  not_found : Bytes → Error
  unwired_uuid : Error
  no_uuid : Bytes → Error
  kill_failed : ℕ → Bytes → Error
  spawn_failed : Bytes → Error

pub data Call : Type 0 where
  killed : ℕ → Call
  spawned : Bytes → Bytes → Call

-- `ProxyRestarter`, whose functions may not be set; `Kill` and `Spawn` return an error or none.
pub record Restarter : Type 0 where
  pub lookup_session : Option (Bytes → Option (ℕ × Bytes))
  pub resolve_uuid : Option (Bytes → Option Bytes)
  pub kill : Option (ℕ → Option Bytes)
  pub spawn : Option (Bytes → Bytes → Option Bytes)

abbrev pub Restarted : Type 0
Restarted = Option Error × List Call

unfoldable pub after_spawn : ℕ → Bytes → Bytes → Option Bytes → Restarted
after_spawn pid uuid cwd none = (none, killed pid ∷ spawned uuid cwd ∷ [])
after_spawn pid uuid cwd (some e) = (some (spawn_failed e), killed pid ∷ spawned uuid cwd ∷ [])

unfoldable pub after_kill :
    (Bytes → Bytes → Option Bytes) → ℕ → Bytes → Bytes → Option Bytes → Restarted
after_kill spawn pid uuid cwd (some e) = (some (kill_failed pid e), killed pid ∷ [])
after_kill spawn pid uuid cwd none = after_spawn pid uuid cwd (spawn uuid cwd)

-- The end of `Restart`, with the UUID if there is one.
unfoldable pub replace :
    (ℕ → Option Bytes) → (Bytes → Bytes → Option Bytes) → ℕ → Bytes → Option Bytes → Restarted
replace kill spawn pid cwd none = (some (no_uuid cwd), [])
replace kill spawn pid cwd (some uuid) = after_kill spawn pid uuid cwd (kill pid)

-- `!ok2 || !IsResumable(u)`.
unfoldable pub if_resumable : Option Bytes → Option Bytes
if_resumable none = none
if_resumable (some u) = if is_resumable u then some u else none

unfoldable pub resolved :
    (ℕ → Option Bytes)
    → (Bytes → Bytes → Option Bytes)
    → Option (Bytes → Option Bytes)
    → ℕ
    → Bytes
    → Restarted
resolved kill spawn none pid cwd = (some unwired_uuid, [])
resolved kill spawn (some resolve) pid cwd = replace kill spawn pid cwd (if_resumable (resolve cwd))

unfoldable pub found_session :
    Restarter
    → (ℕ → Option Bytes)
    → (Bytes → Bytes → Option Bytes)
    → Bytes
    → Option (ℕ × Bytes)
    → Restarted
found_session p kill spawn sid none = (some (not_found sid), [])
found_session p kill spawn sid (some (pid, cwd)) =
    if is_resumable sid
    then replace kill spawn pid cwd (some sid)
    else resolved kill spawn p.resolve_uuid pid cwd

unfoldable pub restart_with :
    Restarter
    → Bytes
    → Option (Bytes → Option (ℕ × Bytes))
    → Option (ℕ → Option Bytes)
    → Option (Bytes → Bytes → Option Bytes)
    → Restarted
restart_with p sid (some look) (some kill) (some spawn) = found_session p kill spawn sid (look sid)
restart_with p sid _ _ _ = (some unwired, [])

-- `Restart`.
unfoldable pub restart : Restarter → Bytes → Restarted
restart p sid = restart_with p sid p.lookup_session p.kill p.spawn
