-- ===== src/Cloud/Commands.antt =====
-- internal/cloud/state/commands.go: the queue of remote commands of a PC. A command is pending until an
-- agent claims it in a transaction, running then, and done or failed when the agent has acknowledged it.
pub mod Runner
pub mod Taken
pub mod Once
pub mod Obeyed
use claude_master_go.Base.{
  ℕ, ◌≡◌, Bool, true, false, not, ◌&&◌, ◌||◌, Option, none, some, List, [], ◌∷◌, if◌then◌else◌,
  Bytes, equal, lookup,
}
use claude_master_go.Cloud.Store.{Field, Doc, Place, Snapshot, Firestore, Clock, text_field}
use claude_master_go.Cloud.Grant.{sid_key}

abbrev pub id_key : Bytes
id_key = b'i' ∷ b'd' ∷ []

abbrev pub cmd_key : Bytes
cmd_key = b'c' ∷ b'm' ∷ b'd' ∷ []

abbrev pub requested_by_key : Bytes
requested_by_key =
    b'r' ∷ b'e' ∷ b'q' ∷ b'u' ∷ b'e' ∷ b's' ∷ b't' ∷ b'e' ∷ b'd' ∷ b'_' ∷ b'b' ∷ b'y' ∷ []

abbrev pub ts_key : Bytes
ts_key = b't' ∷ b's' ∷ []

abbrev pub status_key : Bytes
status_key = b's' ∷ b't' ∷ b'a' ∷ b't' ∷ b'u' ∷ b's' ∷ []

abbrev pub detail_key : Bytes
detail_key = b'd' ∷ b'e' ∷ b't' ∷ b'a' ∷ b'i' ∷ b'l' ∷ []

abbrev pub finished_at_key : Bytes
finished_at_key = b'f' ∷ b'i' ∷ b'n' ∷ b'i' ∷ b's' ∷ b'h' ∷ b'e' ∷ b'd' ∷ b'_' ∷ b'a' ∷ b't' ∷ []

abbrev pub pending_status : Bytes
pending_status = b'p' ∷ b'e' ∷ b'n' ∷ b'd' ∷ b'i' ∷ b'n' ∷ b'g' ∷ []

abbrev pub running_status : Bytes
running_status = b'r' ∷ b'u' ∷ b'n' ∷ b'n' ∷ b'i' ∷ b'n' ∷ b'g' ∷ []

abbrev pub done_status : Bytes
done_status = b'd' ∷ b'o' ∷ b'n' ∷ b'e' ∷ []

abbrev pub error_status : Bytes
error_status = b'e' ∷ b'r' ∷ b'r' ∷ b'o' ∷ b'r' ∷ []

abbrev pub restart_agent_cmd : Bytes
restart_agent_cmd =
    b'r' ∷ b'e' ∷ b's' ∷ b't' ∷ b'a' ∷ b'r' ∷ b't' ∷ b'-' ∷ b'a' ∷ b'g' ∷ b'e' ∷ b'n' ∷ b't' ∷ []

abbrev pub self_update_cmd : Bytes
self_update_cmd = b's' ∷ b'e' ∷ b'l' ∷ b'f' ∷ b'-' ∷ b'u' ∷ b'p' ∷ b'd' ∷ b'a' ∷ b't' ∷ b'e' ∷ []

abbrev pub restart_proxy_cmd : Bytes
restart_proxy_cmd =
    b'r' ∷ b'e' ∷ b's' ∷ b't' ∷ b'a' ∷ b'r' ∷ b't' ∷ b'-' ∷ b'p' ∷ b'r' ∷ b'o' ∷ b'x' ∷ b'y' ∷ []

-- `Command`, as far as the agent reads it.
pub record Command : Type 0 where
  pub id : Bytes
  pub cmd : Bytes
  pub sid : Bytes
  pub status : Bytes

-- `ValidCommands`.
unfoldable pub is_valid_command : Bytes → Bool
is_valid_command cmd =
    equal cmd restart_agent_cmd || (equal cmd self_update_cmd || equal cmd restart_proxy_cmd)

module _ (fs : Firestore) (clock : Clock) where
  abbrev pub command_doc : ℕ → Bytes → Bytes → Bytes → Bytes → Doc
  command_doc now id cmd sid requested_by =
      (id_key, Field.text id)
      ∷ (cmd_key, Field.text cmd)
      ∷ (sid_key, Field.text sid)
      ∷ (requested_by_key, Field.text requested_by)
      ∷ (ts_key, Field.text (clock.format_nano now))
      ∷ (status_key, Field.text pending_status)
      ∷ []

  -- `PushCommand` with the random `id`: the error, if any. An unknown command writes nothing.
  unfoldable pub push_command :
      ℕ → Bytes → Bytes → Bytes → Bytes → Bytes → fs.State → fs.State × Bool
  push_command now id pc cmd sid requested_by st =
      if not (is_valid_command cmd)
      then (st, true)
      else fs.set (Place.command pc id) (command_doc now id cmd sid requested_by) st

  abbrev pub running_doc : Doc
  running_doc = (status_key, Field.text running_status) ∷ []

  -- The body of the transaction, on what its `Get` brings, and whether the transaction succeeds.
  unfoldable pub claim : Bytes → Bytes → fs.State → Snapshot → fs.State × Bool
  claim pc id st (Snapshot.found d) =
      if equal (text_field status_key d) pending_status
      then (let r = fs.merge (Place.command pc id) running_doc st in (r.0, not r.1))
      else (st, false)
  claim pc id st _ = (st, false)

  -- `claimCommand`. A transaction reads and writes with no other write to the document in between.
  unfoldable pub claim_command : Bytes → Bytes → fs.State → fs.State × Bool
  claim_command pc id st = claim pc id st (fs.get (Place.command pc id) st)

  abbrev pub ack_doc : ℕ → Bytes → Bytes → Doc
  ack_doc now status detail =
      (status_key, Field.text status)
      ∷ (detail_key, Field.text detail)
      ∷ (finished_at_key, Field.text (clock.format_nano now))
      ∷ []

  -- `AckCommand`, with its error.
  unfoldable pub ack_command : ℕ → Bytes → Bytes → Bytes → Bytes → fs.State → fs.State × Bool
  ack_command now pc id status detail st =
      fs.merge (Place.command pc id) (ack_doc now status detail) st
