-- ===== src/Cloud/Commands/Runner.antt =====
-- internal/cloud/agent/commands.go, `CommandRunner`: what the agent does on a command that it claimed. The
-- restart, the update and the restart of a proxy are functions of the runner that may not be set; a
-- result of theirs is a parameter. The trace is what was done, in order.
pub mod Audit
use claude_master_go.Base.{
  ℕ, Bool, true, false, Option, none, some, List, [], ◌∷◌, ◌++◌, if◌then◌else◌, Bytes, equal,
}
use claude_master_go.Cloud.Store.{Firestore, Clock}
use claude_master_go.Cloud.Grant.{is_revoked}
use claude_master_go.Cloud.Commands.{
  Command, pending_status, running_status, done_status, error_status, restart_agent_cmd,
  self_update_cmd, restart_proxy_cmd, claim_command, ack_command,
}

abbrev pub revoked_detail : Bytes
revoked_detail =
    b'r' ∷ b'e' ∷ b'v' ∷ b'o' ∷ b'k' ∷ b'e' ∷ b'd' ∷ b':' ∷ b' ' ∷ 229 ∷ 174 ∷ 159 ∷ 232 ∷ 161 ∷ 140
    ∷ 230 ∷ 139 ∷ 146 ∷ 229 ∷ 144 ∷ 166 ∷ []

abbrev pub no_restart_detail : Bytes
no_restart_detail =
    b'r' ∷ b'e' ∷ b's' ∷ b't' ∷ b'a' ∷ b'r' ∷ b't' ∷ b' ' ∷ 230 ∷ 156 ∷ 170 ∷ 233 ∷ 133 ∷ 141 ∷ 231
    ∷ 183 ∷ 154 ∷ []

abbrev pub restart_detail : Bytes
restart_detail =
    b'l' ∷ b'a' ∷ b'u' ∷ b'n' ∷ b'c' ∷ b'h' ∷ b'd' ∷ b' ' ∷ b'2' ∷ 227 ∷ 131 ∷ 135 ∷ 227 ∷ 131 ∷ 188
    ∷ 227 ∷ 131 ∷ 162 ∷ 227 ∷ 131 ∷ 179 ∷ 229 ∷ 134 ∷ 141 ∷ 232 ∷ 181 ∷ 183 ∷ 229 ∷ 139 ∷ 149 ∷ 227
    ∷ 130 ∷ 146 ∷ 229 ∷ 174 ∷ 159 ∷ 232 ∷ 161 ∷ 140 ∷ []

abbrev pub no_update_detail : Bytes
no_update_detail =
    b'u' ∷ b'p' ∷ b'd' ∷ b'a' ∷ b't' ∷ b'e' ∷ b' ' ∷ 230 ∷ 156 ∷ 170 ∷ 233 ∷ 133 ∷ 141 ∷ 231 ∷ 183
    ∷ 154 ∷ []

abbrev pub update_failed_detail : Bytes
update_failed_detail =
    230 ∷ 155 ∷ 180 ∷ 230 ∷ 150 ∷ 176 ∷ 229 ∷ 164 ∷ 177 ∷ 230 ∷ 149 ∷ 151 ∷ b':' ∷ b' ' ∷ []

abbrev pub latest_detail : Bytes
latest_detail =
    230 ∷ 151 ∷ 162 ∷ 227 ∷ 129 ∷ 171 ∷ 230 ∷ 156 ∷ 128 ∷ 230 ∷ 150 ∷ 176 ∷ b':' ∷ b' ' ∷ []

abbrev pub updated_detail : Bytes
updated_detail = 230 ∷ 155 ∷ 180 ∷ 230 ∷ 150 ∷ 176 ∷ b' ' ∷ []

abbrev pub updated_end_detail : Bytes
updated_end_detail =
    226 ∷ 134 ∷ 146 ∷ 229 ∷ 134 ∷ 141 ∷ 232 ∷ 181 ∷ 183 ∷ 229 ∷ 139 ∷ 149 ∷ 227 ∷ 130 ∷ 146 ∷ 229
    ∷ 174 ∷ 159 ∷ 232 ∷ 161 ∷ 140 ∷ []

abbrev pub no_proxy_detail : Bytes
no_proxy_detail =
    b'r' ∷ b'e' ∷ b's' ∷ b't' ∷ b'a' ∷ b'r' ∷ b't' ∷ b'-' ∷ b'p' ∷ b'r' ∷ b'o' ∷ b'x' ∷ b'y' ∷ b' '
    ∷ 230 ∷ 156 ∷ 170 ∷ 233 ∷ 133 ∷ 141 ∷ 231 ∷ 183 ∷ 154 ∷ b'(' ∷ b'P' ∷ b'h' ∷ b'a' ∷ b's' ∷ b'e'
    ∷ b'3' ∷ b')' ∷ []

abbrev pub proxy_failed_detail : Bytes
proxy_failed_detail =
    b'p' ∷ b'r' ∷ b'o' ∷ b'x' ∷ b'y' ∷ b' ' ∷ 229 ∷ 134 ∷ 141 ∷ 232 ∷ 181 ∷ 183 ∷ 229 ∷ 139 ∷ 149
    ∷ 229 ∷ 164 ∷ 177 ∷ 230 ∷ 149 ∷ 151 ∷ b':' ∷ b' ' ∷ []

abbrev pub proxy_detail : Bytes
proxy_detail =
    b'p' ∷ b'r' ∷ b'o' ∷ b'x' ∷ b'y' ∷ b' ' ∷ 227 ∷ 130 ∷ 146 ∷ b' ' ∷ b'-' ∷ b'-' ∷ b'r' ∷ b'e'
    ∷ b's' ∷ b'u' ∷ b'm' ∷ b'e' ∷ b' ' ∷ 229 ∷ 134 ∷ 141 ∷ 232 ∷ 181 ∷ 183 ∷ 229 ∷ 139 ∷ 149 ∷ b':'
    ∷ b' ' ∷ []

abbrev pub unknown_detail : Bytes
unknown_detail =
    230 ∷ 156 ∷ 170 ∷ 231 ∷ 159 ∷ 165 ∷ 227 ∷ 129 ∷ 174 ∷ 227 ∷ 130 ∷ 179 ∷ 227 ∷ 131 ∷ 158 ∷ 227
    ∷ 131 ∷ 179 ∷ 227 ∷ 131 ∷ 137 ∷ b':' ∷ b' ' ∷ []

-- The result of `DoUpdate`: its error, or the tag and whether the program was replaced.
pub data Update : Type 0 where
  failed : Bytes → Update
  fetched : Bytes → Bool → Update

-- What was done: an acknowledgement with its status, or a call of a function of the runner.
pub data Done : Type 0 where
  acked : Bytes → Done
  restarted : Done
  update_called : Done
  proxy_called : Bytes → Done

unfoldable pub revoked_or : Option Bool → Bool → Bool
revoked_or none b = b
revoked_or (some r) b = r

module _ (fs : Firestore) (clock : Clock) where
  -- `CommandRunner`. A restart reports nothing that is read; a restart of a proxy reports an error or
  -- none.
  pub record Runner : Type 0 where
    pub now : ℕ
    pub revoked : Option Bool
    pub can_restart : Bool
    pub do_update : Option Update
    pub do_proxy : Option (Bytes → Option Bytes)

  abbrev pub Handled : Type 0
  Handled = fs.State × List Done

  -- `_ = cr.St.AckCommand(…)` and what follows it.
  unfoldable pub ack : Runner → Bytes → Bytes → Bytes → Bytes → List Done → fs.State → Handled
  ack cr pc id status detail rest st =
      ((ack_command fs clock cr.now pc id status detail st).0, acked status ∷ rest)

  -- What runs before an acknowledgement.
  unfoldable pub after : Done → Handled → Handled
  after x h = (h.0, x ∷ h.1)

  unfoldable pub restart_agent : Runner → Bytes → Bytes → fs.State → Handled
  restart_agent cr pc id st =
      if cr.can_restart
      then ack cr pc id done_status restart_detail (restarted ∷ []) st
      else ack cr pc id error_status no_restart_detail [] st

  unfoldable pub updated : Runner → Bytes → Bytes → Update → fs.State → Handled
  updated cr pc id (failed e) st = ack cr pc id error_status (update_failed_detail ++ e) [] st
  updated cr pc id (fetched tag false) st = ack cr pc id done_status (latest_detail ++ tag) [] st
  updated cr pc id (fetched tag true) st =
      ack cr pc id done_status (updated_detail ++ (tag ++ updated_end_detail))
        (if cr.can_restart then restarted ∷ [] else []) st

  unfoldable pub self_update : Runner → Bytes → Bytes → Option Update → fs.State → Handled
  self_update cr pc id none st = ack cr pc id error_status no_update_detail [] st
  self_update cr pc id (some u) st = after update_called (updated cr pc id u st)

  unfoldable pub proxied : Runner → Bytes → Bytes → Bytes → Option Bytes → fs.State → Handled
  proxied cr pc id sid (some e) st = ack cr pc id error_status (proxy_failed_detail ++ e) [] st
  proxied cr pc id sid none st = ack cr pc id done_status (proxy_detail ++ sid) [] st

  unfoldable pub restart_proxy :
      Runner → Bytes → Bytes → Bytes → Option (Bytes → Option Bytes) → fs.State → Handled
  restart_proxy cr pc id sid none st = ack cr pc id error_status no_proxy_detail [] st
  restart_proxy cr pc id sid (some restart) st =
      after (proxy_called sid) (proxied cr pc id sid (restart sid) st)

  unfoldable pub perform : Runner → Bytes → Command → fs.State → Handled
  perform cr pc cm st =
      if equal cm.cmd restart_agent_cmd
      then restart_agent cr pc cm.id st
      else if equal cm.cmd self_update_cmd
      then self_update cr pc cm.id cr.do_update st
      else if equal cm.cmd restart_proxy_cmd
      then restart_proxy cr pc cm.id cm.sid cr.do_proxy st
      else ack cr pc cm.id error_status (unknown_detail ++ cm.cmd) [] st

  -- `cr.Revoked`, or `IsSelfRevoked` where it is not set.
  unfoldable pub asks_revoked : Runner → Bytes → fs.State → Bool
  asks_revoked cr pc st = revoked_or cr.revoked (is_revoked fs clock pc st)

  -- `handle`.
  unfoldable pub handle : Runner → Bytes → Command → fs.State → Handled
  handle cr pc cm st =
      if asks_revoked cr pc st
      then ack cr pc cm.id error_status revoked_detail [] st
      else perform cr pc cm st

  unfoldable pub if_claimed : Runner → Bytes → Command → fs.State × Bool → Handled
  if_claimed cr pc cm (st, false) = (st, [])
  if_claimed cr pc cm (st, true) = handle cr pc (record cm { status = running_status }) st

  -- The body of the loop of `WatchCommands` on a change that is not a removal, with `Run`'s callback.
  unfoldable pub receive : Runner → Bytes → Command → fs.State → Handled
  receive cr pc cm st =
      if equal cm.status pending_status
      then if_claimed cr pc cm (claim_command fs clock pc cm.id st)
      else (st, [])
