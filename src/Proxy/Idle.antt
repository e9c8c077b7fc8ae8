-- ===== src/Proxy/Idle.antt =====
-- internal/diag/idlegc.go, `IdleGCSweep`: the proxies that nobody has watched for long are ended. The files
-- of the directory, their contents, the processes and `time.Parse` are parameters; times are nanoseconds.
use claude_master_go.Base.{
  ℕ, zero, suc, ◌-◌, Bool, true, false, not, ◌&&◌, ◌||◌, Option, none, some, List, [], ◌∷◌, ltb,
  leb, if◌then◌else◌, ◌>>=◌, Bytes, equal, is_empty, length, take, drop, ℤ, pos, negsuc,
}
use claude_master_go.Config.Number.{atoi}

pub record Entry : Type 0 where
  pub name : Bytes
  pub is_dir : Bool

-- The fields of a `.snap` file that are read.
pub record Snap : Type 0 where
  pub last_disconnect : Bytes
  pub connected_clients : ℤ
  pub cwd : Bytes

-- `IdleGCResult`.
pub record Killed : Type 0 where
  pub pid : ℕ
  pub cwd : Bytes
  pub last_disconnect : ℕ

pub record Host : Type 0 where
  pub read : Bytes → Option Snap
  pub is_alive : ℕ → Bool
  pub send_sigterm : ℕ → Bool
  pub parse : Bytes → Option ℕ

abbrev pub snap_suffix : Bytes
snap_suffix = b'.' ∷ b's' ∷ b'n' ∷ b'a' ∷ b'p' ∷ []

abbrev pub never_text : Bytes
never_text = b'n' ∷ b'e' ∷ b'v' ∷ b'e' ∷ b'r' ∷ []

-- `strings.HasSuffix` and `strings.TrimSuffix`, then the process id, if it is positive.
unfoldable pub positive_pid : ℤ → Option ℕ
positive_pid (pos zero) = none
positive_pid (pos (suc n)) = some (suc n)
positive_pid (negsuc n) = none

unfoldable pub pid_of : Bytes → Option ℕ
pid_of name =
    let stem = length name - 5 in
    if leb 5 (length name) && equal (drop stem name) snap_suffix
    then atoi (take stem name) >>= positive_pid
    else none

module _ (h : Host) where
  -- A snapshot without a client whose last disconnection is not after the cutoff.
  unfoldable pub is_watched : ℤ → Bool
  is_watched (pos (suc n)) = true
  is_watched _ = false

  unfoldable pub idle_since : ℕ → Snap → Option ℕ
  idle_since cutoff s =
      if is_watched s.connected_clients
      then none
      else if is_empty s.last_disconnect || equal s.last_disconnect never_text
      then none
      else h.parse s.last_disconnect >>= (λ ts. if ltb cutoff ts then none else some ts)

  unfoldable pub sweep_pid : ℕ → Bytes → ℕ → Option Killed
  sweep_pid cutoff name pid =
      if not (h.is_alive pid)
      then none
      else h.read name >>= (λ s. idle_since cutoff s >>= (λ ts.
        if h.send_sigterm pid
        then some (record { pid = pid; cwd = s.cwd; last_disconnect = ts })
        else none))

  unfoldable pub sweep_entry : ℕ → Entry → Option Killed
  sweep_entry cutoff e =
      if e.is_dir then none else pid_of e.name >>= (λ pid. sweep_pid cutoff e.name pid)

  unfoldable pub collect : Option Killed → List Killed → List Killed
  collect none ks = ks
  collect (some k) ks = k ∷ ks

  unfoldable pub sweep_entries : ℕ → List Entry → List Killed
  sweep_entries cutoff [] = []
  sweep_entries cutoff (e ∷ es) = collect (sweep_entry cutoff e) (sweep_entries cutoff es)

  unfoldable pub entries_of : Option (List Entry) → List Entry
  entries_of none = []
  entries_of (some es) = es

  -- `IdleGCSweep`; a threshold of 0 or no directory turns it off.
  unfoldable pub idle_gc_sweep : ℕ → ℕ → Bytes → Option (List Entry) → List Killed
  idle_gc_sweep now zero dir es = []
  idle_gc_sweep now (suc threshold) dir es =
      if is_empty dir then [] else sweep_entries (now - suc threshold) (entries_of es)
