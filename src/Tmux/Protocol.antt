-- ===== src/Tmux/Protocol.antt =====
-- internal/tmuxcc/protocol.go: one line of tmux's control mode, and what it says (`ParseLine`).
pub mod Output
use claude_master_go.Base.{
  ℕ, zero, suc, ◌+◌, ◌-◌, Bool, true, false, ◌&&◌, Option, none, some, List, [], ◌∷◌, ◌++◌, ◌==◌,
  if◌then◌else◌, Bytes, equal, has_prefix,
}
use claude_master_go.Tmux.Text.{trim_eol, cut_space, fields, trim_space}
use claude_master_go.Tmux.Octal.{Result, failed, done, Error, missing_data, decode_octal_escapes}

-- The messages. A string that the source leaves empty is empty.
pub data Msg : Type 0 where
  output_msg : (pane_id bytes : Bytes) → Msg
  begin_msg : (time num flags : Bytes) → Msg
  end_msg : (time num flags : Bytes) → Msg
  error_msg : (time num flags : Bytes) → Msg
  session_changed_msg : (id name : Bytes) → Msg
  window_add_msg : Bytes → Msg
  window_close_msg : Bytes → Msg
  window_rename_msg : (window_id name : Bytes) → Msg
  layout_change_msg : (window_id layout extra : Bytes) → Msg
  exit_msg : Bytes → Msg
  window_pane_changed_msg : (window_id pane_id : Bytes) → Msg
  session_window_changed_msg : (session_id window_id : Bytes) → Msg
  other_msg : (kind rest : Bytes) → Msg

-- The words that start a line.
abbrev pub output_word : Bytes
output_word = 37 ∷ 111 ∷ 117 ∷ 116 ∷ 112 ∷ 117 ∷ 116 ∷ []

abbrev pub begin_word : Bytes
begin_word = 37 ∷ 98 ∷ 101 ∷ 103 ∷ 105 ∷ 110 ∷ []

abbrev pub end_word : Bytes
end_word = 37 ∷ 101 ∷ 110 ∷ 100 ∷ []

abbrev pub error_word : Bytes
error_word = 37 ∷ 101 ∷ 114 ∷ 114 ∷ 111 ∷ 114 ∷ []

abbrev pub session_changed_word : Bytes
session_changed_word =
    37 ∷ 115 ∷ 101 ∷ 115 ∷ 115 ∷ 105 ∷ 111 ∷ 110 ∷ 45 ∷ 99 ∷ 104 ∷ 97 ∷ 110 ∷ 103 ∷ 101 ∷ 100 ∷ []

abbrev pub window_add_word : Bytes
window_add_word = 37 ∷ 119 ∷ 105 ∷ 110 ∷ 100 ∷ 111 ∷ 119 ∷ 45 ∷ 97 ∷ 100 ∷ 100 ∷ []

abbrev pub window_close_word : Bytes
window_close_word = 37 ∷ 119 ∷ 105 ∷ 110 ∷ 100 ∷ 111 ∷ 119 ∷ 45 ∷ 99 ∷ 108 ∷ 111 ∷ 115 ∷ 101 ∷ []

abbrev pub window_renamed_word : Bytes
window_renamed_word =
    37 ∷ 119 ∷ 105 ∷ 110 ∷ 100 ∷ 111 ∷ 119 ∷ 45 ∷ 114 ∷ 101 ∷ 110 ∷ 97 ∷ 109 ∷ 101 ∷ 100 ∷ []

abbrev pub layout_change_word : Bytes
layout_change_word =
    37 ∷ 108 ∷ 97 ∷ 121 ∷ 111 ∷ 117 ∷ 116 ∷ 45 ∷ 99 ∷ 104 ∷ 97 ∷ 110 ∷ 103 ∷ 101 ∷ []

abbrev pub window_pane_changed_word : Bytes
window_pane_changed_word =
    37 ∷ 119 ∷ 105 ∷ 110 ∷ 100 ∷ 111 ∷ 119 ∷ 45 ∷ 112 ∷ 97 ∷ 110 ∷ 101 ∷ 45 ∷ 99 ∷ 104 ∷ 97 ∷ 110
    ∷ 103 ∷ 101 ∷ 100 ∷ []

abbrev pub session_window_changed_word : Bytes
session_window_changed_word =
    37 ∷ 115 ∷ 101 ∷ 115 ∷ 115 ∷ 105 ∷ 111 ∷ 110 ∷ 45 ∷ 119 ∷ 105 ∷ 110 ∷ 100 ∷ 111 ∷ 119 ∷ 45 ∷ 99
    ∷ 104 ∷ 97 ∷ 110 ∷ 103 ∷ 101 ∷ 100 ∷ []

abbrev pub exit_word : Bytes
exit_word = 37 ∷ 101 ∷ 120 ∷ 105 ∷ 116 ∷ []

-- A field, or the empty string where the line has fewer.
unfoldable pub field : ℕ → List Bytes → Bytes
field i [] = []
field zero (f ∷ fs) = f
field (suc i) (f ∷ fs) = field i fs

-- What stands behind the first space, or nothing.
unfoldable pub or_empty : Option Bytes → Bytes
or_empty none = []
or_empty (some s) = s

-- `strings.SplitN rest " " 2`, and with 3.
unfoldable pub split_2 : Bytes → List Bytes
split_2 s = let (a, rest) = cut_space s in elim rest [ none ↦ a ∷ [] | some b ↦ a ∷ b ∷ [] ]

unfoldable pub split_3 : Bytes → List Bytes
split_3 s = let (a, rest) = cut_space s in elim rest [ none ↦ a ∷ [] | some b ↦ a ∷ split_2 b ]

unfoldable pub output_of : Bytes → Result Bytes → Result (Option Msg)
output_of pane_id (failed e) = failed e
output_of pane_id (done bytes) = done (some (output_msg pane_id bytes))

unfoldable pub parse_output : Bytes × Option Bytes → Result (Option Msg)
parse_output (pane_id, none) = failed missing_data
parse_output (pane_id, some escaped) = output_of pane_id (decode_octal_escapes escaped)

-- The `switch` on the first word of the line.
unfoldable pub parse_message : Bytes → Bytes → Result (Option Msg)
unfolding field split_2 split_3
parse_message kind rest =
    let f = fields rest in
    let two = split_2 rest in
    let three = split_3 rest in
    if equal kind output_word
    then parse_output (cut_space rest)
    else if equal kind begin_word
    then done (some (begin_msg (field 0 f) (field 1 f) (field 2 f)))
    else if equal kind end_word
    then done (some (end_msg (field 0 f) (field 1 f) (field 2 f)))
    else if equal kind error_word
    then done (some (error_msg (field 0 f) (field 1 f) (field 2 f)))
    else if equal kind session_changed_word
    then done (some (session_changed_msg (field 0 two) (field 1 two)))
    else if equal kind window_add_word
    then done (some (window_add_msg (trim_space rest)))
    else if equal kind window_close_word
    then done (some (window_close_msg (trim_space rest)))
    else if equal kind window_renamed_word
    then done (some (window_rename_msg (field 0 two) (field 1 two)))
    else if equal kind layout_change_word
    then done (some (layout_change_msg (field 0 three) (field 1 three) (field 2 three)))
    else if equal kind window_pane_changed_word
    then done (some (window_pane_changed_msg (field 0 f) (field 1 f)))
    else if equal kind session_window_changed_word
    then done (some (session_window_changed_msg (field 0 f) (field 1 f)))
    else if equal kind exit_word
    then done (some (exit_msg rest))
    else done (some (other_msg kind rest))

-- A line that does not start with `%` (37) is no message.
unfoldable pub parse_line : Bytes → Result (Option Msg)
unfolding or_empty
parse_line text =
    let line = trim_eol text in
    let (kind, rest) = cut_space line in
    if has_prefix line (37 ∷ []) then parse_message kind (or_empty rest) else done none
