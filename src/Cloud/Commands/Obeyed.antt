-- ===== src/Cloud/Commands/Obeyed.antt =====
-- A command that was pushed is done as it asks (internal/cloud/state/commands.go with
-- internal/cloud/agent/commands.go).
use claude_master_go.Base.{
  ℕ, ◌≡◌, refl, sym, ap, ◌∙◌, inl, inr, Bool, true, false, Option, none, some, List, [], ◌∷◌, Bytes,
  equal, equal→eq, lookup, arith, Bool-cases, Option-cases, if-cases,
}
use claude_master_go.Cloud.Store.{
  Doc, Place, Snapshot, Firestore, IsLawful, Clock, text_field, as_text,
}
use claude_master_go.Cloud.Commands.{
  Command, is_valid_command, status_key, pending_status, running_status, done_status, error_status,
  restart_agent_cmd, self_update_cmd, restart_proxy_cmd, command_doc, running_doc, push_command,
  claim, claim_command,
}
use claude_master_go.Cloud.Commands.Runner.{
  Done, acked, restarted, update_called, proxy_called, Update, failed, fetched, Runner, Handled,
  ack, after, restart_agent, updated, self_update, proxied, restart_proxy, perform, asks_revoked,
  handle, if_claimed, receive,
}

module _ (fs : Firestore) (clock : Clock) where
  -- What is done on a command, in order, by a runner whose functions are set or not, and answer so.
  pub data Obeys (cr : Runner fs clock) (sid : Bytes) : Bytes → List Done → Type 0 where
    restarts :
        cr.can_restart ≡ true → Obeys cr sid restart_agent_cmd (acked done_status ∷ restarted ∷ [])
    no_restart : cr.can_restart ≡ false → Obeys cr sid restart_agent_cmd (acked error_status ∷ [])
    no_update : cr.do_update ≡ none → Obeys cr sid self_update_cmd (acked error_status ∷ [])
    update_failed :
        {e : Bytes}
        → cr.do_update ≡ some (failed e)
        → Obeys cr sid self_update_cmd (update_called ∷ acked error_status ∷ [])
    is_latest :
        {tag : Bytes}
        → cr.do_update ≡ some (fetched tag false)
        → Obeys cr sid self_update_cmd (update_called ∷ acked done_status ∷ [])
    updates :
        {tag : Bytes}
        → cr.do_update ≡ some (fetched tag true)
        → cr.can_restart ≡ true
        → Obeys cr sid self_update_cmd (update_called ∷ acked done_status ∷ restarted ∷ [])
    updates_only :
        {tag : Bytes}
        → cr.do_update ≡ some (fetched tag true)
        → cr.can_restart ≡ false
        → Obeys cr sid self_update_cmd (update_called ∷ acked done_status ∷ [])
    no_proxy : cr.do_proxy ≡ none → Obeys cr sid restart_proxy_cmd (acked error_status ∷ [])
    proxy_failed :
        {f : Bytes → Option Bytes} {e : Bytes}
        → cr.do_proxy ≡ some f
        → f sid ≡ some e
        → Obeys cr sid restart_proxy_cmd (proxy_called sid ∷ acked error_status ∷ [])
    proxy_restarted :
        {f : Bytes → Option Bytes}
        → cr.do_proxy ≡ some f
        → f sid ≡ none
        → Obeys cr sid restart_proxy_cmd (proxy_called sid ∷ acked done_status ∷ [])

  restart_agent-Obeys :
      (cr : Runner fs clock) (pc id sid : Bytes) (st : fs.State)
      → Obeys cr sid restart_agent_cmd (restart_agent fs clock cr pc id st).1
  unfolding restart_agent ack
  restart_agent-Obeys cr pc id sid st =
      if-cases (λ (h : Handled fs clock). Obeys cr sid restart_agent_cmd h.1) cr.can_restart
        (λ y. Obeys.restarts y) (λ n. Obeys.no_restart n)

  self_update-Obeys :
      (cr : Runner fs clock) (pc id sid : Bytes) (o : Option Update) (st : fs.State)
      → cr.do_update ≡ o
      → Obeys cr sid self_update_cmd (self_update fs clock cr pc id o st).1
  unfolding self_update updated after ack
  self_update-Obeys cr pc id sid none st e = Obeys.no_update e
  self_update-Obeys cr pc id sid (some (failed x)) st e = Obeys.update_failed e
  self_update-Obeys cr pc id sid (some (fetched tag false)) st e = Obeys.is_latest e
  self_update-Obeys cr pc id sid (some (fetched tag true)) st e =
      if-cases (λ t. Obeys cr sid self_update_cmd (update_called ∷ acked done_status ∷ t))
        cr.can_restart (λ y. Obeys.updates e y) (λ n. Obeys.updates_only e n)

  restart_proxy-Obeys :
      (cr : Runner fs clock) (pc id sid : Bytes) (o : Option (Bytes → Option Bytes)) (st : fs.State)
      → cr.do_proxy ≡ o
      → Obeys cr sid restart_proxy_cmd (restart_proxy fs clock cr pc id sid o st).1
  unfolding restart_proxy proxied after ack
  restart_proxy-Obeys cr pc id sid none st e = Obeys.no_proxy e
  restart_proxy-Obeys cr pc id sid (some f) st e = elim (Option-cases (f sid)) [
    | inl n ↦ rw n (Obeys.proxy_restarted e n)
    | inr (x, y) ↦ rw y (Obeys.proxy_failed e y)
  ]

  perform-Obeys :
      (cr : Runner fs clock) (pc : Bytes) (cm : Command) (st : fs.State)
      → is_valid_command cm.cmd ≡ true
      → Obeys cr cm.sid cm.cmd (perform fs clock cr pc cm st).1
  unfolding perform is_valid_command
  perform-Obeys cr pc cm st v = elim (Bool-cases (equal cm.cmd restart_agent_cmd)) [
    | inl a ↦
        let is_cmd = equal→eq cm.cmd restart_agent_cmd a in
        rw is_cmd (restart_agent-Obeys cr pc cm.id cm.sid st)
    | inr a ↦ elim (Bool-cases (equal cm.cmd self_update_cmd)) [
      | inl b ↦
          let is_cmd = equal→eq cm.cmd self_update_cmd b in
          rw is_cmd (self_update-Obeys cr pc cm.id cm.sid cr.do_update st refl)
      | inr b ↦
          let c : equal cm.cmd restart_proxy_cmd ≡ true = ground arith in
          let is_cmd = equal→eq cm.cmd restart_proxy_cmd c in
          rw is_cmd (restart_proxy-Obeys cr pc cm.id cm.sid cr.do_proxy st refl)
    ]
  ]

  module _ (law : IsLawful fs) where
    push_command-set :
        (now : ℕ) (id pc cmd sid by : Bytes) (st : fs.State)
        → is_valid_command cmd ≡ true
        → push_command fs clock now id pc cmd sid by st
          ≡ fs.set (Place.command pc id) (command_doc fs clock now id cmd sid by) st
    unfolding push_command
    push_command-set now id pc cmd sid by st v = rw v refl

    claimed_pending :
        (pc id : Bytes) (st : fs.State) (d : Doc)
        → fs.get (Place.command pc id) st ≡ Snapshot.found d
        → equal (text_field status_key d) pending_status ≡ true
        → (fs.merge (Place.command pc id) (running_doc fs clock) st).1 ≡ false
        → (claim_command fs clock pc id st).1 ≡ true
    unfolding claim_command claim
    claimed_pending pc id st d e p ok = rw (e, p, ok) refl

    -- A known command that was pushed without an error is obeyed when an agent of its PC is told of it,
    -- where the write of its claim does not fail and the agent does not find its PC revoked: it does
    -- what the command asks for, with the acknowledgement in its place, as far as it has the function.
    pub receive-push_command :
        (cr : Runner fs clock) (now : ℕ) (pc by : Bytes) (cm : Command) (st : fs.State)
        → is_valid_command cm.cmd ≡ true
        → cm.status ≡ pending_status
        → (push_command fs clock now cm.id pc cm.cmd cm.sid by st).1 ≡ false
        → (fs.merge
            (Place.command pc cm.id)
            (running_doc fs clock)
            (push_command fs clock now cm.id pc cm.cmd cm.sid by st).0).1
          ≡ false
        → asks_revoked fs clock cr pc
            (claim_command fs clock pc cm.id
              (push_command fs clock now cm.id pc cm.cmd cm.sid by st).0).0
          ≡ false
        → Obeys cr cm.sid cm.cmd
            (receive fs clock cr pc cm (push_command fs clock now cm.id pc cm.cmd cm.sid by st).0).1
    unfolding receive if_claimed handle text_field as_text lookup
    receive-push_command cr now pc by cm st v pending ok claims trusted =
        let set = push_command-set now cm.id pc cm.cmd cm.sid by st v in
        let st' = (push_command fs clock now cm.id pc cm.cmd cm.sid by st).0 in
        let doc = command_doc fs clock now cm.id cm.cmd cm.sid by in
        let stored : fs.get (Place.command pc cm.id) st' ≡ Snapshot.found doc =
          ap (λ (r : fs.State × Bool). fs.get (Place.command pc cm.id) r.0) set
          ∙ law.get-set (Place.command pc cm.id) doc st
              (sym (ap (λ (r : fs.State × Bool). r.1) set) ∙ ok) in
        let is_pending : equal cm.status pending_status ≡ true = rw pending refl in
        rw is_pending (
          told (claim_command fs clock pc cm.id st')
            (claimed_pending pc cm.id st' doc stored refl claims) trusted)
      where
        told :
            (r : fs.State × Bool)
            → r.1 ≡ true
            → asks_revoked fs clock cr pc r.0 ≡ false
            → Obeys cr cm.sid cm.cmd (if_claimed fs clock cr pc cm r).1
        told (s, false) e f = cc e
        told (s, true) e f = rw f (perform-Obeys cr pc (record cm { status = running_status }) s v)
