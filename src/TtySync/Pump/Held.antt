-- ===== src/TtySync/Pump/Held.antt =====
-- What the pump (internal/ttysync/wrap.go) keeps between two rounds: the tracker is in step with the
-- buffer, whatever can be sent has a timer that will send it, and the buffer is bounded.
use claude_master_go.Base.{
  ℕ, ◌-◌, ◌≤◌, ◌<◌, ◌≡◌, refl, inl, inr, Bool, true, false, ◌&&◌, Option, none, some, List, [], ◌∷◌,
  arith, ◌==◌, ltb, leb, if◌then◌else◌, ==_iff, Bool-cases, Bytes, length, drop, length-drop,
}
use claude_master_go.TtySync.Tracker.{TailTracker, split_at, rebase, reset}
use claude_master_go.TtySync.Tracker.Held.{
  Tracks, Tracks-nil, Tracks-append, Tracks-feed_all, rebase-held, split_at-le,
}
use claude_master_go.TtySync.Pump.{
  PumpConfig, Pump, start, max_tail_hold, flush, flush_wrapped, disarm, check_write, is_some, watch,
  append_data, arm, Event, received, end_of_file, read_failed, idle_fired, max_hold_fired, step,
  is_running, run,
}

-- The bytes that a flush could send now.
abbrev pub ready : PumpConfig → Pump → ℕ
ready cfg p = if cfg.sync_wrap then split_at p.tracker (length p.buf) else length p.buf

abbrev pub limit : PumpConfig → ℕ
limit cfg = if ltb cfg.max_buffer max_tail_hold then max_tail_hold else cfg.max_buffer

-- The tracker and the buffer that a flush under SyncWrap leaves: nothing more can be sent.
record Flushed (t : TailTracker) (buf : Bytes) : Type 0 where
  pub tracks : Tracks t buf
  pub unready : split_at t (length buf) ≡ 0
  pub short : length buf ≤ max_tail_hold

reset-Flushed : (t : TailTracker) → Flushed (reset t) []
unfolding reset
reset-Flushed t = record {
  tracks = Tracks-nil;
  unready = unfold split_at in refl;
  short = omega arith;
}

split_at-rebase :
    (t : TailTracker) (buf : Bytes)
    → split_at (rebase t (split_at t (length buf))) (length buf - split_at t (length buf)) ≡ 0
unfolding split_at rebase
split_at-rebase t buf = ground arith

rebase-Flushed :
    (t : TailTracker) (buf : Bytes)
    → Tracks t buf
    → ltb max_tail_hold (length buf - split_at t (length buf)) ≡ false
    → Flushed (rebase t (split_at t (length buf))) (drop (split_at t (length buf)) buf)
rebase-Flushed t buf h held =
    let size = length-drop (split_at t (length buf)) buf in
    record {
      tracks = rw (rebase-held t buf h) (Tracks-feed_all _);
      unready = rw size (split_at-rebase t buf);
      short = rw size (ground arith);
    }

abbrev FlushedPump : Pump × Option Bytes → Type 0
FlushedPump (q, w) = Flushed q.tracker q.buf

flush_wrapped-Flushed :
    (eof : Bool) (p : Pump)
    → Tracks p.tracker p.buf
    → FlushedPump (flush_wrapped eof (split_at p.tracker (length p.buf)) p)
unfolding flush_wrapped
flush_wrapped-Flushed true p h =
    elim (Bool-cases (ltb max_tail_hold (length p.buf - split_at p.tracker (length p.buf)))) [
      | inl long ↦ rw long (reset-Flushed p.tracker)
      | inr held ↦ rw held (reset-Flushed p.tracker)
    ]
flush_wrapped-Flushed false p h =
    elim (Bool-cases (ltb max_tail_hold (length p.buf - split_at p.tracker (length p.buf)))) [
      | inl long ↦ rw long (reset-Flushed p.tracker)
      | inr held ↦ rw held (rebase-Flushed p.tracker p.buf h held)
    ]

-- Between two rounds. The tracker has read the buffer; what could be sent has its two timers (the
-- second one where MaxHold is on); and the buffer is within the larger of MaxBuffer and the longest
-- tail that is held back (where MaxBuffer is on).
pub record IsHeld (cfg : PumpConfig) (p : Pump) : Type 0 where
  pub tracks : cfg.sync_wrap ≡ true → Tracks p.tracker p.buf
  pub timed : p.timer ≡ none → ready cfg p ≡ 0
  pub deadline : 0 < cfg.max_hold → p.max_hold_timer ≡ none → ready cfg p ≡ 0
  pub bounded : 0 < cfg.max_buffer → length p.buf ≤ limit cfg

Flushed-IsHeld :
    (cfg : PumpConfig) (p : Pump) → cfg.sync_wrap ≡ true → Flushed p.tracker p.buf → IsHeld cfg p
Flushed-IsHeld cfg p wrap f = record {
  tracks = λ _. f.tracks;
  timed = ground (arith, f.unready);
  deadline = ground (arith, f.unready);
  bounded = ground (arith, f.short);
}

bare-IsHeld : (cfg : PumpConfig) (p : Pump) → cfg.sync_wrap ≡ false → p.buf ≡ [] → IsHeld cfg p
bare-IsHeld cfg p bare e = record {
  tracks = λ wrap. cc;
  timed = ground arith;
  deadline = ground arith;
  bounded = ground arith;
}

empty-IsHeld :
    (cfg : PumpConfig) (p : Pump)
    → (cfg.sync_wrap ≡ true → Tracks p.tracker p.buf)
    → length p.buf ≡ 0
    → IsHeld cfg p
empty-IsHeld cfg p h e = record {
  tracks = h;
  timed = λ _. none_ready;
  deadline = λ _ _. none_ready;
  bounded = λ _. omega arith;
}
  where
    none_ready : ready cfg p ≡ 0
    none_ready = elim (Bool-cases cfg.sync_wrap) [
      | inl wrap ↦ ground (arith, split_at-le p.tracker p.buf (h wrap))
      | inr bare ↦ ground arith
    ]

-- A flush needs of a pump only that the tracker is in step.
flush-IsHeld :
    (cfg : PumpConfig) (eof : Bool) (p : Pump)
    → (cfg.sync_wrap ≡ true → Tracks p.tracker p.buf)
    → IsHeld cfg (flush cfg eof p).0
unfolding flush
flush-IsHeld cfg eof p h = elim (Bool-cases (length p.buf == 0)) [
  | inl empty ↦ rw empty (empty-IsHeld cfg p h ((==_iff (length p.buf) 0).0 empty))
  | inr full ↦ elim (Bool-cases cfg.sync_wrap) [
    | inl wrap ↦
        simp (full, wrap)
          (Flushed-IsHeld cfg _ wrap (flush_wrapped-Flushed eof (disarm p) (h wrap)))
    | inr bare ↦ simp (full, bare) (bare-IsHeld cfg _ bare refl)
  ]
]

check_write-IsHeld :
    (cfg : PumpConfig) (accepts : Bool) (r : Pump × Option Bytes)
    → IsHeld cfg r.0
    → IsHeld cfg (check_write accepts r).0
check_write-IsHeld cfg accepts (p, none) h = h
check_write-IsHeld cfg accepts (p, some w) h = h

watch-tracker :
    (cfg : PumpConfig) (d : Bytes) (p : Pump)
    → ((watch cfg d p).tracker ≡ p.tracker) × ((watch cfg d p).buf ≡ p.buf)
unfolding watch
watch-tracker cfg d p = ground arith

received-Tracks :
    (cfg : PumpConfig) (d : Bytes) (p : Pump)
    → (cfg.sync_wrap ≡ true → Tracks p.tracker p.buf)
    → cfg.sync_wrap ≡ true
    → let q = append_data cfg d (watch cfg d p) in Tracks q.tracker q.buf
unfolding append_data
received-Tracks cfg d p h wrap =
    simp (wrap, (watch-tracker cfg d p).0, (watch-tracker cfg d p).1)
      (Tracks-append d p.tracker p.buf (h wrap))

arm-IsHeld :
    (cfg : PumpConfig) (p : Pump)
    → (cfg.sync_wrap ≡ true → Tracks p.tracker p.buf)
    → (ltb 0 cfg.max_buffer && leb cfg.max_buffer (length p.buf)) ≡ false
    → IsHeld cfg (arm cfg p)
unfolding arm
arm-IsHeld cfg p h within = record {
  tracks = h;
  timed = λ e. cc;
  deadline = λ on e. ground arith;
  bounded = ground arith;
}

pub step-IsHeld :
    (cfg : PumpConfig) (accepts : Bool) (p : Pump) (e : Event)
    → IsHeld cfg p
    → IsHeld cfg (step cfg accepts p e).0
unfolding step
step-IsHeld cfg accepts p (received d) h =
    let q = append_data cfg d (watch cfg d p) in
    let now = received-Tracks cfg d p h.tracks in
    elim (Bool-cases (ltb 0 cfg.max_buffer && leb cfg.max_buffer (length q.buf))) [
      | inl over ↦
          rw over
            (check_write-IsHeld cfg accepts (flush cfg false q) (flush-IsHeld cfg false q now))
      | inr within ↦ rw within (arm-IsHeld cfg q now within)
    ]
step-IsHeld cfg accepts p end_of_file h = flush-IsHeld cfg true p h.tracks
step-IsHeld cfg accepts p read_failed h = flush-IsHeld cfg true p h.tracks
step-IsHeld cfg accepts p idle_fired h = elim (Bool-cases (is_some p.timer)) [
  | inl armed ↦
      let q = record p { timer = none } in
      rw armed
        (check_write-IsHeld cfg accepts (flush cfg false q) (flush-IsHeld cfg false q h.tracks))
  | inr idle ↦ rw idle h
]
step-IsHeld cfg accepts p max_hold_fired h = elim (Bool-cases (is_some p.max_hold_timer)) [
  | inl armed ↦
      let q = record p { max_hold_timer = none } in
      rw armed
        (check_write-IsHeld cfg accepts (flush cfg false q) (flush-IsHeld cfg false q h.tracks))
  | inr idle ↦ rw idle h
]

start-IsHeld : (cfg : PumpConfig) → IsHeld cfg start
start-IsHeld cfg = empty-IsHeld cfg start (λ _. Tracks-nil) refl

run-IsHeld :
    (cfg : PumpConfig) (es : List (Bool × Event)) (p : Pump)
    → IsHeld cfg p
    → IsHeld cfg (run cfg p es).0
unfolding run
run-IsHeld cfg [] p h = h
run-IsHeld cfg ((accepts, e) ∷ es) p h =
    let r = step cfg accepts p e in
    let next = step-IsHeld cfg accepts p e h in
    elim (Bool-cases (is_running r.2)) [
      | inl on ↦ rw on (run-IsHeld cfg es r.0 next)
      | inr off ↦ rw off next
    ]

-- Every state that a run from the start reaches keeps what `IsHeld` says: no byte that could be sent
-- waits without an armed idle timer (and, with MaxHold on, without an armed MaxHold timer), with
-- MaxBuffer on the buffer never exceeds the larger of MaxBuffer and 32 KiB, and under SyncWrap the
-- tracker's split lies where the open tail of the buffer begins.
pub run-start-IsHeld :
    (cfg : PumpConfig) (es : List (Bool × Event)) → IsHeld cfg (run cfg start es).0
run-start-IsHeld cfg es = run-IsHeld cfg es start (start-IsHeld cfg)
