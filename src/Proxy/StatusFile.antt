-- ===== src/Proxy/StatusFile.antt =====
-- internal/ptyproxy/statuswriter.go: when the proxy writes its status file, and what into it. The clock,
-- the encoding as JSON and the files are not part of the model: a step says what is handed to them. Times
-- are nanoseconds.
pub mod Spaced
use claude_master_go.Base.{
  ℕ, ◌-◌, ◌==◌, ltb, Bool, true, false, not, ◌&&◌, ◌||◌, Option, none, some, List, [], ◌∷◌,
  if◌then◌else◌, ◌>>=◌, Bytes, equal, is_empty, ℤ, pos, at_least,
}
use claude_master_go.Screen.Vt.{Vt}
use claude_master_go.Screen.Status.{
  StatusScanner, new_status_scanner, Usage, extract_usage, is_active,
}

-- The string `sig`, field by field: its quotes keep the fields apart.
pub record Signature : Type 0 where
  pub has_pct : Bool
  pub pct : ℤ
  pub reset_time : Bytes
  pub reset_tz : Bytes
  pub active : Bool

unfoldable pub same_bool : Bool → Bool → Bool
same_bool true b = b
same_bool false b = not b

unfoldable pub same_signature : Signature → Signature → Bool
same_signature a b =
    same_bool a.has_pct b.has_pct
    && (at_least a.pct b.pct
        && (at_least b.pct a.pct
            && (equal a.reset_time b.reset_time
                && (equal a.reset_tz b.reset_tz && same_bool a.active b.active))))

-- The fields of `Server` that belong to the status; `sig` is empty before the first write.
pub record StatusState : Type 0 where
  pub path : Bytes
  pub pid : ℕ
  pub scanner : Option StatusScanner
  pub init : Bool
  pub last : ℕ
  pub sig : Option Signature

-- `EnableStatus`.
abbrev pub enable_status : Bytes → ℕ → StatusState → StatusState
enable_status path pid st = record st {
  path = path;
  pid = pid;
  scanner = some new_status_scanner;
  init = true;
}

-- What the payload says beside the screen: the version, the working directory on Windows, and
-- `filepath.Base`.
pub record Place : Type 0 where
  pub cm_version : Bytes
  pub windows_cwd : Option Bytes
  pub base : Bytes → Bytes

pub record Payload : Type 0 where
  pub pid : ℕ
  pub updated_at : ℕ
  pub is_active : Bool
  pub cwd : Option (Bytes × Bytes)
  pub cm_version : Option Bytes
  pub usage_percent : Option ℤ
  pub reset : Option (Bytes × Bytes)

unfoldable pub cwd_of : Place → Option Bytes → Option (Bytes × Bytes)
cwd_of p none = none
cwd_of p (some wd) = if is_empty wd then none else some (wd, p.base wd)

unfoldable pub payload_of : Place → ℕ → StatusState → Usage → Bool → Payload
payload_of p now st u active = record {
  pid = st.pid;
  updated_at = now;
  is_active = active;
  cwd = cwd_of p p.windows_cwd;
  cm_version = if is_empty p.cm_version then none else some p.cm_version;
  usage_percent = if u.any && u.has_pct then some u.pct else none;
  reset = if u.any && not (is_empty u.reset_time) then some (u.reset_time, u.reset_tz) else none;
}

abbrev pub signature_of : Usage → Bool → Signature
signature_of u active = record {
  has_pct = u.has_pct;
  pct = u.pct;
  reset_time = u.reset_time;
  reset_tz = u.reset_tz;
  active = active;
}

unfoldable pub is_known : Option Signature → Signature → Bool
is_known none s = false
is_known (some t) s = same_signature t s

-- From the comparison of the signatures on. A file that cannot be written changes nothing here.
unfoldable pub settle :
    Place → ℕ → StatusScanner × Usage → Bool → StatusState → StatusState × Option Payload
settle p now (sc, u) active st =
    let seen = record st { last = now; scanner = some sc } in
    if not st.init && is_known st.sig (signature_of u active) then (seen, none) else (
      record seen { init = false; sig = some (signature_of u active) },
      some (payload_of p now st u active),
    )

unfoldable pub look :
    Place → ℕ → Vt → StatusState → Option StatusScanner → Option (StatusState × Option Payload)
look p now v st none = some (st, none)
look p now v st (some sc) =
    if not st.init && ltb (now - st.last) 5000000000
    then some (st, none)
    else extract_usage v sc >>= (λ r. is_active v >>= (λ active. some (settle p now r active st)))

-- `maybeWriteStatusLocked`; `none` is a panic of `VisibleLines`.
unfoldable pub maybe_write_status :
    Place → ℕ → Vt → StatusState → Option (StatusState × Option Payload)
maybe_write_status p now v st =
    if is_empty st.path then some (st, none) else look p now v st st.scanner

unfoldable pub add_written : Option Payload → List Payload → List Payload
add_written none ps = ps
add_written (some p) ps = p ∷ ps

-- Calls at given times on given screens: what is written.
unfoldable pub write_statuses : Place → List (ℕ × Vt) → StatusState → Option (List Payload)
write_statuses p [] st = some []
write_statuses p ((now, v) ∷ calls) st =
    maybe_write_status p now v st
    >>= (λ r. write_statuses p calls r.0 >>= (λ ps. some (add_written r.1 ps)))
