-- ===== src/Cloud/Commands/Runner/Audit.antt =====
-- Every command is acknowledged once, and a restart, which may end the agent, comes behind the
-- acknowledgement (internal/cloud/agent/commands.go).
use claude_master_go.Base.{
  ◌≡◌, refl, inl, inr, if-cases, Bool, true, false, Option, none, some, List, [], ◌∷◌, Bytes, equal,
  arith, Bool-cases,
}
use claude_master_go.Cloud.Store.{Firestore, Clock}
use claude_master_go.Cloud.Commands.{
  Command, is_valid_command, done_status, error_status, restart_agent_cmd, self_update_cmd,
  restart_proxy_cmd,
}
use claude_master_go.Cloud.Commands.Runner.{
  Done, acked, restarted, update_called, proxy_called, Update, failed, fetched, Runner, Handled,
  ack, after, restart_agent, updated, self_update, proxied, restart_proxy, perform, asks_revoked,
  handle,
}

-- Behind the acknowledgement there is nothing, or a restart if it was of success.
unfoldable pub is_end : Bytes → List Done → Bool
is_end status [] = true
is_end status (restarted ∷ []) = equal status done_status
is_end status _ = false

-- One acknowledgement, before it no restart, and behind it a restart at most.
unfoldable pub is_audited : List Done → Bool
is_audited [] = false
is_audited (acked status ∷ t) = is_end status t
is_audited (restarted ∷ t) = false
is_audited (update_called ∷ t) = is_audited t
is_audited (proxy_called sid ∷ t) = is_audited t

module _ (fs : Firestore) (clock : Clock) where
  pub record Audit (cr : Runner fs clock) (pc : Bytes) (cm : Command) (st : fs.State) : Type 0 where
    pub once : is_audited (handle fs clock cr pc cm st).1 ≡ true
    pub refused :
        asks_revoked fs clock cr pc st ≡ true
        → (handle fs clock cr pc cm st).1 ≡ acked error_status ∷ []
    pub unknown :
        is_valid_command cm.cmd ≡ false → (handle fs clock cr pc cm st).1 ≡ acked error_status ∷ []

  updated-audited :
      (cr : Runner fs clock) (pc id : Bytes) (u : Update) (st : fs.State)
      → is_audited (updated fs clock cr pc id u st).1 ≡ true
  unfolding updated ack is_audited is_end
  updated-audited cr pc id (failed e) st = refl
  updated-audited cr pc id (fetched tag false) st = refl
  updated-audited cr pc id (fetched tag true) st = elim (Bool-cases cr.can_restart) [
    | inl e ↦ rw e refl
    | inr e ↦ rw e refl
  ]

  self_update-audited :
      (cr : Runner fs clock) (pc id : Bytes) (o : Option Update) (st : fs.State)
      → is_audited (self_update fs clock cr pc id o st).1 ≡ true
  unfolding self_update ack after is_audited is_end
  self_update-audited cr pc id none st = refl
  self_update-audited cr pc id (some u) st = updated-audited cr pc id u st

  proxied-audited :
      (cr : Runner fs clock) (pc id sid : Bytes) (o : Option Bytes) (st : fs.State)
      → is_audited (proxied fs clock cr pc id sid o st).1 ≡ true
  unfolding proxied ack is_audited is_end
  proxied-audited cr pc id sid none st = refl
  proxied-audited cr pc id sid (some e) st = refl

  restart_proxy-audited :
      (cr : Runner fs clock) (pc id sid : Bytes) (o : Option (Bytes → Option Bytes)) (st : fs.State)
      → is_audited (restart_proxy fs clock cr pc id sid o st).1 ≡ true
  unfolding restart_proxy ack after is_audited is_end
  restart_proxy-audited cr pc id sid none st = refl
  restart_proxy-audited cr pc id sid (some f) st = proxied-audited cr pc id sid (f sid) st

  restart_agent-audited :
      (cr : Runner fs clock) (pc id : Bytes) (st : fs.State)
      → is_audited (restart_agent fs clock cr pc id st).1 ≡ true
  unfolding restart_agent ack is_audited is_end
  restart_agent-audited cr pc id st = ground arith

  perform-audited :
      (cr : Runner fs clock) (pc : Bytes) (cm : Command) (st : fs.State)
      → is_audited (perform fs clock cr pc cm st).1 ≡ true
  unfolding perform ack is_audited is_end
  perform-audited cr pc cm st =
      let holds = λ (h : Handled fs clock). is_audited h.1 ≡ true in
      if-cases holds (equal cm.cmd restart_agent_cmd) (λ _. restart_agent-audited cr pc cm.id st)
        (λ _.
          if-cases holds (equal cm.cmd self_update_cmd)
            (λ _. self_update-audited cr pc cm.id cr.do_update st)
            (λ _.
              if-cases holds (equal cm.cmd restart_proxy_cmd)
                (λ _. restart_proxy-audited cr pc cm.id cm.sid cr.do_proxy st) (λ _. refl)))

  perform-unknown :
      (cr : Runner fs clock) (pc : Bytes) (cm : Command) (st : fs.State)
      → is_valid_command cm.cmd ≡ false
      → (perform fs clock cr pc cm st).1 ≡ acked error_status ∷ []
  unfolding perform ack is_valid_command
  perform-unknown cr pc cm st h = ground arith

  -- Whatever a claimed command asks for, and whatever the functions of the runner answer: the agent
  -- acknowledges it exactly once; it restarts itself at most once, as the last thing it does, and
  -- behind the acknowledgement of success; of a revoked PC, and for a command that is not known, it
  -- does nothing but acknowledge an error.
  pub handle-Audit :
      (cr : Runner fs clock) (pc : Bytes) (cm : Command) (st : fs.State) → Audit cr pc cm st
  unfolding handle ack is_audited is_end
  handle-Audit cr pc cm st = elim (Bool-cases (asks_revoked fs clock cr pc st)) [
    | inl r ↦ record { once = rw r refl; refused = λ e. rw r refl; unknown = λ e. rw r refl }
    | inr f ↦ record {
      once = rw f (perform-audited cr pc cm st);
      refused = λ e. cc (f, e);
      unknown = λ e. rw f (perform-unknown cr pc cm st e);
    }
  ]
