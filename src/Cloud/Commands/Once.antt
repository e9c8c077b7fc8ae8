-- ===== src/Cloud/Commands/Once.antt =====
-- A command is run by one agent, once, however often the service tells of it
-- (internal/cloud/state/commands.go with internal/cloud/agent/commands.go).
use claude_master_go.Base.{
  ℕ, ◌+◌, ◌≤◌, ◌≡◌, refl, ◌∙◌, inl, inr, Bool, true, false, not, ◌&&◌, List, [], ◌∷◌, if◌then◌else◌,
  Bytes, equal, arith, Bool-cases, if-cases,
}
use claude_master_go.Cloud.Store.{Place, Firestore, IsLawful, Clock}
use claude_master_go.Cloud.Commands.{
  Command, is_valid_command, pending_status, running_status, command_doc, push_command,
  claim_command,
}
use claude_master_go.Cloud.Commands.Runner.{Done, Runner, Handled, if_claimed, receive}
use claude_master_go.Cloud.Commands.Taken.{
  is_same, IsTaken, apart, same→eq, handle-IsTaken, claim_command-IsTaken, claim_command-Taken,
  claim_command-refused,
}

module _ (fs : Firestore) (clock : Clock) where
  -- What happens to the queues: a command is pushed, or an agent, of any PC, is told of one.
  pub data Action : Type 0 where
    push : ℕ → Bytes → Bytes → Bytes → Bytes → Bytes → Action
    deliver : Runner fs clock → Bytes → Command → Action

  -- Whether the handler was called: every branch of it leaves a trace.
  unfoldable pub has_run : List Done → Bool
  has_run [] = false
  has_run (x ∷ t) = true

  -- The state behind an action, and whether it ran the command `id` of `pc`.
  unfoldable pub act : Bytes → Bytes → Action → fs.State → fs.State × Bool
  act pc id (push now id' pc' cmd sid by) st =
      ((push_command fs clock now id' pc' cmd sid by st).0, false)
  act pc id (deliver cr pc' cm) st =
      let r = receive fs clock cr pc' cm st in (r.0, has_run r.1 && is_same pc id pc' cm.id)

  -- How often the actions run the command `id` of `pc`.
  unfoldable pub times : Bytes → Bytes → List Action → fs.State → ℕ
  times pc id [] st = 0
  times pc id (a ∷ as') st = let r = act pc id a st in (if r.1 then 1 else 0) + times pc id as' r.0

  -- A push of another command: ids are random.
  unfoldable pub is_other : Bytes → Bytes → Action → Bool
  is_other pc id (push now id' pc' cmd sid by) = not (is_same pc id pc' id')
  is_other pc id (deliver cr pc' cm) = true

  unfoldable pub is_fresh : Bytes → Bytes → List Action → Bool
  is_fresh pc id [] = true
  is_fresh pc id (a ∷ as') = is_other pc id a && is_fresh pc id as'

  module _ (law : IsLawful fs) where
    receive-IsTaken :
        (cr : Runner fs clock) (pc id pc' : Bytes) (cm : Command) (st : fs.State)
        → IsTaken fs clock pc id st
        → IsTaken fs clock pc id (receive fs clock cr pc' cm st).0
    unfolding receive if_claimed
    receive-IsTaken cr pc id pc' cm st h =
        if-cases (λ (r : Handled fs clock). IsTaken fs clock pc id r.0)
          (equal cm.status pending_status)
          (λ _.
            told (claim_command fs clock pc' cm.id st)
              (claim_command-Taken fs clock law pc id pc' cm.id st h))
          (λ _. h)
      where
        told :
            (r : fs.State × Bool)
            → IsTaken fs clock pc id r.0
            → IsTaken fs clock pc id (if_claimed fs clock cr pc' cm r).0
        told (s, false) t = t
        told (s, true) t =
            handle-IsTaken fs clock law cr pc id pc' (record cm { status = running_status }) s t

    -- The handler of a taken command is not called.
    receive-refused :
        (cr : Runner fs clock) (pc : Bytes) (cm : Command) (st : fs.State)
        → IsTaken fs clock pc cm.id st
        → receive fs clock cr pc cm st ≡ (st, [])
    unfolding receive if_claimed
    receive-refused cr pc cm st h = rw (claim_command-refused fs clock pc cm.id st h) (ground arith)

    -- A handler that is called leaves its command taken.
    receive-takes :
        (cr : Runner fs clock) (pc : Bytes) (cm : Command) (st : fs.State)
        → has_run (receive fs clock cr pc cm st).1 ≡ true
        → IsTaken fs clock pc cm.id (receive fs clock cr pc cm st).0
    unfolding receive if_claimed has_run
    receive-takes cr pc cm st =
        if-cases (λ (r : Handled fs clock). has_run r.1 ≡ true → IsTaken fs clock pc cm.id r.0)
          (equal cm.status pending_status)
          (λ _.
            told (claim_command fs clock pc cm.id st)
              (claim_command-IsTaken fs clock law pc cm.id st))
          (λ _. λ bad. cc bad)
      where
        told :
            (r : fs.State × Bool)
            → (r.1 ≡ true → IsTaken fs clock pc cm.id r.0)
            → has_run (if_claimed fs clock cr pc cm r).1 ≡ true
            → IsTaken fs clock pc cm.id (if_claimed fs clock cr pc cm r).0
        told (s, false) k h = cc h
        told (s, true) k h =
            handle-IsTaken fs clock law cr pc cm.id pc (record cm { status = running_status }) s
              (k refl)

    push-IsTaken :
        (pc id : Bytes) (now : ℕ) (id' pc' cmd sid by : Bytes) (st : fs.State)
        → is_same pc id pc' id' ≡ false
        → IsTaken fs clock pc id st
        → IsTaken fs clock pc id (push_command fs clock now id' pc' cmd sid by st).0
    unfolding push_command
    push-IsTaken pc id now id' pc' cmd sid by st n h =
        if-cases (λ (r : fs.State × Bool). IsTaken fs clock pc id r.0) (not (is_valid_command cmd))
          (λ _. h)
          (λ _. record {
            doc = h.doc;
            is_found =
                law.get-set_other (Place.command pc' id') (Place.command pc id)
                  (command_doc fs clock now id' cmd sid by) st (apart pc id pc' id' n)
                ∙ h.is_found;
            is_taken = h.is_taken;
          })

    act-IsTaken :
        (pc id : Bytes) (a : Action) (st : fs.State)
        → is_other pc id a ≡ true
        → IsTaken fs clock pc id st
        → IsTaken fs clock pc id (act pc id a st).0
    unfolding act is_other
    act-IsTaken pc id (push now id' pc' cmd sid by) st o h =
        push-IsTaken pc id now id' pc' cmd sid by st (ground arith) h
    act-IsTaken pc id (deliver cr pc' cm) st o h = receive-IsTaken cr pc id pc' cm st h

    act-refused :
        (pc id : Bytes) (a : Action) (st : fs.State)
        → IsTaken fs clock pc id st
        → (act pc id a st).1 ≡ false
    unfolding act has_run
    act-refused pc id (push now id' pc' cmd sid by) st h = refl
    act-refused pc id (deliver cr pc' cm) st h = elim (Bool-cases (is_same pc id pc' cm.id)) [
      | inl e ↦
          let both = same→eq pc id pc' cm.id e in
          let here : IsTaken fs clock pc' cm.id st = rw (← both.0, ← both.1) h in
          rw (receive-refused cr pc' cm st here) refl
      | inr n ↦ rw n (ground arith)
    ]

    act-takes :
        (pc id : Bytes) (a : Action) (st : fs.State)
        → (act pc id a st).1 ≡ true
        → IsTaken fs clock pc id (act pc id a st).0
    unfolding act has_run
    act-takes pc id (push now id' pc' cmd sid by) st h = cc h
    act-takes pc id (deliver cr pc' cm) st h =
        let run : has_run (receive fs clock cr pc' cm st).1 ≡ true = ground arith in
        let same : is_same pc id pc' cm.id ≡ true = ground arith in
        let both = same→eq pc id pc' cm.id same in
        rw (both.0, both.1) (receive-takes cr pc' cm st run)

    times-IsTaken :
        (pc id : Bytes) (as' : List Action) (st : fs.State)
        → is_fresh pc id as' ≡ true
        → IsTaken fs clock pc id st
        → times pc id as' st ≡ 0
    unfolding times is_fresh
    times-IsTaken pc id [] st f h = refl
    times-IsTaken pc id (a ∷ as') st f h =
        let other : is_other pc id a ≡ true = ground arith in
        let rest : is_fresh pc id as' ≡ true = ground arith in
        rw
          (
            act-refused pc id a st h,
            times-IsTaken pc id as' ((act pc id a st).0) rest (act-IsTaken pc id a st other h),
          )
          refl

    -- Whatever is pushed under other ids, and however often and whichever agents are told of a
    -- command, in whatever state of the queue: it runs at most once.
    pub times-once :
        (pc id : Bytes) (as' : List Action) (st : fs.State)
        → is_fresh pc id as' ≡ true
        → times pc id as' st ≤ 1
    unfolding times is_fresh
    times-once pc id [] st f = omega arith
    times-once pc id (a ∷ as') st f =
        let other : is_other pc id a ≡ true = ground arith in
        let rest : is_fresh pc id as' ≡ true = ground arith in
        elim (Bool-cases (act pc id a st).1) [
          | inl e ↦
              rw (e, times-IsTaken pc id as' ((act pc id a st).0) rest (act-takes pc id a st e))
                (omega arith)
          | inr e ↦ rw e (omega (arith, times-once pc id as' ((act pc id a st).0) rest))
        ]
