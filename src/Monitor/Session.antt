-- ===== src/Monitor/Session.antt =====
-- internal/scanner/scanner.go: a session of claude, its key and the name of its directory.
use claude_master_go.Base.{ℕ, [], ◌∷◌, ◌++◌, ◌==◌, if◌then◌else◌, Bytes, is_empty}
use claude_master_go.Screen.Render.{digits}

-- The fields of `ClaudeSession` that tell one session from another.
pub record ClaudeSession : Type 0 where
  pub pid : ℕ
  pub cwd : Bytes
  pub session_id : Bytes

-- `ClaudeSession.Key`.
abbrev pub key : ClaudeSession → Bytes
key s =
    if is_empty s.session_id then b'p' ∷ b'i' ∷ b'd' ∷ b'-' ∷ digits 20 s.pid [] else s.session_id

-- `strings.TrimRight(s, "/")`.
unfoldable pub trim_slashes : Bytes → Bytes
trim_slashes [] = []
trim_slashes (c ∷ s) = let rest = trim_slashes s in if c == b'/' then joined rest else c ∷ rest
  where
    joined : Bytes → Bytes
    joined [] = []
    joined (d ∷ r) = b'/' ∷ d ∷ r

-- What stands behind the last slash.
unfoldable pub last_part : Bytes → Bytes → Bytes
last_part part [] = part
last_part part (c ∷ s) = if c == b'/' then last_part [] s else last_part (part ++ c ∷ []) s

unfoldable pub or_unknown : Bytes → Bytes
or_unknown [] = b'u' ∷ b'n' ∷ b'k' ∷ b'n' ∷ b'o' ∷ b'w' ∷ b'n' ∷ []
or_unknown (c ∷ s) = c ∷ s

-- `ClaudeSession.ShortDir`.
abbrev pub short_dir : ClaudeSession → Bytes
short_dir s = or_unknown (last_part [] (trim_slashes s.cwd))
