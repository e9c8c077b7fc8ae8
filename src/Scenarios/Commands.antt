-- ===== src/Scenarios/Commands.antt =====
-- Concrete inputs for the remote commands and the restart of a proxy: a queue in memory with a restart of
-- the agent, told of twice, and a session whose conversation is found by its directory.
use claude_master_go.Base.{ℕ, ◌≤◌, refl, true, false, none, some, List, [], ◌∷◌, Bytes, pos}
use claude_master_go.Cloud.Store.{Clock}
use claude_master_go.Cloud.Store.Memory.{memory, memory-IsLawful, Memory}
use claude_master_go.Cloud.Commands.{
  Command, is_valid_command, restart_agent_cmd, pending_status, push_command,
}
use claude_master_go.Cloud.Commands.Runner.{Runner, receive, asks_revoked, revoked_or}
use claude_master_go.Cloud.Commands.Obeyed.{Obeys, receive-push_command}
use claude_master_go.Cloud.Commands.Runner.Audit.{Audit, handle-Audit}
use claude_master_go.Cloud.Commands.Once.{
  Action, push, deliver, times, is_fresh, is_other, times-once,
}
use claude_master_go.Cloud.Commands.Taken.{is_same}
use claude_master_go.Cloud.Restart.{Restarter, restart, Project, File, object, resolve_claude_uuid}
use claude_master_go.Cloud.Restart.Kept.{Course, restart-Course}
use claude_master_go.Cloud.Restart.Newest.{Answer, all_conversations, resolve_claude_uuid-Answer}

abbrev clock : Clock
clock = record { format = λ t. t ∷ []; format_nano = λ t. t ∷ []; parse = λ s. none }

abbrev runner : Runner memory clock
runner = record {
  now = 3;
  revoked = some false;
  can_restart = true;
  do_update = none;
  do_proxy = none;
}

abbrev asked : Command
asked = record { id = 1 ∷ []; cmd = restart_agent_cmd; sid = []; status = pending_status }

abbrev empty_queue : Memory
empty_queue = []

handle-Audit_example : Audit memory clock runner (6 ∷ []) asked empty_queue
handle-Audit_example = handle-Audit memory clock runner (6 ∷ []) asked empty_queue

receive-push_command_example :
    Obeys memory clock runner [] restart_agent_cmd
      (receive memory clock runner
        (6 ∷ [])
        asked
        (push_command memory clock 2 (1 ∷ []) (6 ∷ []) restart_agent_cmd [] [] empty_queue).0).1
unfolding is_valid_command push_command asks_revoked revoked_or
receive-push_command_example =
    receive-push_command memory clock memory-IsLawful runner 2 (6 ∷ []) [] asked empty_queue refl
      refl refl refl refl

-- Another command, and the same one told of twice.
abbrev story : List (Action memory clock)
story =
    push 2 (2 ∷ []) (6 ∷ []) restart_agent_cmd [] []
    ∷ deliver runner (6 ∷ []) asked
    ∷ deliver runner (6 ∷ []) asked
    ∷ []

times-once_example :
    times memory clock
      (6 ∷ [])
      (1 ∷ [])
      story
      (push_command memory clock 2 (1 ∷ []) (6 ∷ []) restart_agent_cmd [] [] empty_queue).0
    ≤ 1
unfolding is_fresh is_other is_same
times-once_example =
    times-once memory clock memory-IsLawful (6 ∷ []) (1 ∷ []) story
      (push_command memory clock 2 (1 ∷ []) (6 ∷ []) restart_agent_cmd [] [] empty_queue).0 refl

-- `00000000-0000-`.
abbrev uuid : Bytes
uuid = 48 ∷ 48 ∷ 48 ∷ 48 ∷ 48 ∷ 48 ∷ 48 ∷ 48 ∷ b'-' ∷ 48 ∷ 48 ∷ 48 ∷ 48 ∷ b'-' ∷ []

abbrev home : Bytes
home = b'/' ∷ b'h' ∷ []

abbrev restarter : Restarter
restarter = record {
  lookup_session = some (λ sid. some (7, home));
  resolve_uuid = some (λ cwd. some uuid);
  kill = some (λ pid. none);
  spawn = some (λ u cwd. none);
}

restart-Course_example : Course restarter (b'p' ∷ []) (restart restarter (b'p' ∷ []))
restart-Course_example = restart-Course restarter (b'p' ∷ [])

-- Two conversations of the directory, written at 5 and at 9.
abbrev file_at : ℕ → File
file_at t = record {
  name = uuid_name;
  is_dir = false;
  records = some (object none ∷ object (some home) ∷ []);
  mod_time = some (pos t);
}
  where
    uuid_name : Bytes
    uuid_name =
        48 ∷ 48 ∷ 48 ∷ 48 ∷ 48 ∷ 48 ∷ 48 ∷ 48 ∷ b'-' ∷ 48 ∷ 48 ∷ 48 ∷ 48 ∷ b'-' ∷ b'.' ∷ b'j' ∷ b's'
        ∷ b'o' ∷ b'n' ∷ b'l' ∷ []

abbrev projects : List Project
projects = record { is_dir = true; files = some (file_at 5 ∷ file_at 9 ∷ []) } ∷ []

resolve_claude_uuid-Answer_example :
    Answer none home
      (all_conversations none home projects)
      (resolve_claude_uuid none home (some projects))
resolve_claude_uuid-Answer_example = resolve_claude_uuid-Answer none home projects
