-- ===== src/Tmux/Forwarder.antt =====
-- internal/tmuxcc/renderer.go: the output of the active pane is passed on as it is.
use claude_master_go.Base.{Bool, not, ◌||◌, [], ◌++◌, if◌then◌else◌, Bytes, equal, is_empty}

-- `Forwarder`, with what was written to `out`, if there is one.
pub record Forwarder : Type 0 where
  pub active : Bytes
  pub has_out : Bool
  pub written : Bytes

unfoldable pub new_forwarder : Bool → Forwarder
new_forwarder has_out = record { active = []; has_out = has_out; written = [] }

unfoldable pub set_active : Bytes → Forwarder → Forwarder
set_active pane f = record f { active = pane }

-- The first pane is taken where none is active.
unfoldable pub adopt : Bytes → Forwarder → Forwarder
adopt pane f = if is_empty f.active then set_active pane f else f

-- `HandleOutput`.
unfoldable pub handle_output : Bytes → Bytes → Forwarder → Forwarder
handle_output pane bytes f =
    let g = adopt pane f in
    if not (equal pane g.active) || not g.has_out
    then g
    else record g { written = g.written ++ bytes }
