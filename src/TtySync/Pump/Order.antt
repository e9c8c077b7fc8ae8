-- ===== src/TtySync/Pump/Order.antt =====
-- The pump (internal/ttysync/wrap.go) drops no byte and keeps their order.
use claude_master_go.Base.{
  ℕ, ◌-◌, ◌<◌, ◌≡◌, refl, sym, ap, ◌∙◌, inl, inr, Bool, true, false, ◌&&◌, Option, none, some, [],
  ◌∷◌, ◌++◌, append-nil, arith, ◌==◌, ltb, leb, if◌then◌else◌, Bool-cases, Bytes, length, drop,
  take, take-append-drop,
}
use claude_master_go.TtySync.Marker.{strip_sync_markers}
use claude_master_go.TtySync.Tracker.{split_at, rebase, reset}
use claude_master_go.TtySync.Pump.{
  PumpConfig, Pump, max_tail_hold, frame, write_some, flush, flush_wrapped, disarm, check_write,
  is_some, watch, append_data, arm, Event, received, end_of_file, read_failed, idle_fired,
  max_hold_fired, step, written,
}

-- How a piece of the input goes out: as it is without SyncWrap; framed, or raw where it is longer
-- than a held tail may be; and at the end of the input framed up to the split and raw behind it.
pub data Carries (wrap : Bool) : Bool → Bytes → Bytes → Type 0 where
  plain : {eof : Bool} {piece : Bytes} → wrap ≡ false → Carries wrap eof piece piece
  framed :
      {eof : Bool} {head out : Bytes} → wrap ≡ true → out ≡ frame head → Carries wrap eof head out
  raw :
      {eof : Bool} {piece : Bytes}
      → wrap ≡ true
      → max_tail_hold < length piece
      → Carries wrap eof piece piece
  final :
      {piece out : Bytes} (head tail : Bytes)
      → wrap ≡ true
      → piece ≡ head ++ tail
      → out ≡ frame head ++ tail
      → Carries wrap true piece out

-- What an event adds to the input.
abbrev pub taken : Event → Bytes
taken (received d) = d
taken _ = []

abbrev pub is_end : Event → Bool
is_end end_of_file = true
is_end read_failed = true
is_end _ = false

-- What is in the buffer before is sent, or is in the buffer behind, in this order.
pub record Sends (wrap eof : Bool) (input rest out : Bytes) : Type 0 where
  pub piece : Bytes
  pub joins : input ≡ piece ++ rest
  pub carries : Carries wrap eof piece out

written-write_some : (b : Bytes) → written (write_some b) ≡ b
written-write_some [] = refl
written-write_some (b ∷ bs) = refl

frame-nil : frame [] ≡ []
unfolding frame strip_sync_markers
frame-nil = refl

Carries-nil : (wrap eof : Bool) → Carries wrap eof [] []
Carries-nil true eof = framed refl (sym frame-nil)
Carries-nil false eof = plain refl

Sends-nothing : (wrap eof : Bool) (b : Bytes) → Sends wrap eof b b []
Sends-nothing wrap eof b = record { piece = []; joins = refl; carries = Carries-nil wrap eof }

flush_wrapped-Sends :
    (eof : Bool) (split : ℕ) (p : Pump)
    → let (q, w) = flush_wrapped eof split p in Sends true eof p.buf q.buf (written w)
unfolding flush_wrapped
flush_wrapped-Sends eof split p = elim (Bool-cases (ltb max_tail_hold (length p.buf - split))) [
  | inl long ↦
      rw long (record {
        piece = p.buf;
        joins = sym (append-nil p.buf);
        carries = raw refl (ground arith);
      })
  | inr held ↦ rw held (by_eof eof)
]
  where
    by_eof :
        (e : Bool)
        → let r : Pump × Option Bytes =
            if e
            then (
              record p { buf = []; tracker = reset p.tracker },
              write_some (frame (take split p.buf) ++ drop split p.buf),
            )
            else (
              record p { buf = drop split p.buf; tracker = rebase p.tracker split },
              write_some (frame (take split p.buf)),
            ) in
          Sends true e p.buf r.0.buf (written r.1)
    by_eof true = record {
      piece = p.buf;
      joins = sym (append-nil p.buf);
      carries =
          final (take split p.buf) (drop split p.buf) refl (sym (take-append-drop split p.buf))
            (written-write_some _);
    }
    by_eof false = record {
      piece = take split p.buf;
      joins = sym (take-append-drop split p.buf);
      carries = framed refl (written-write_some _);
    }

flush-Sends :
    (cfg : PumpConfig) (eof : Bool) (p : Pump)
    → let (q, w) = flush cfg eof p in Sends cfg.sync_wrap eof p.buf q.buf (written w)
unfolding flush
flush-Sends cfg eof p = elim (Bool-cases (length p.buf == 0)) [
  | inl empty ↦ rw empty (Sends-nothing cfg.sync_wrap eof p.buf)
  | inr full ↦ elim (Bool-cases cfg.sync_wrap) [
    | inl wrap ↦
        rw (full, wrap) (flush_wrapped-Sends eof (split_at p.tracker (length p.buf)) (disarm p))
    | inr bare ↦
        rw (full, bare)
          (record { piece = p.buf; joins = sym (append-nil p.buf); carries = plain refl })
  ]
]

arm-buf : (cfg : PumpConfig) (p : Pump) → (arm cfg p).buf ≡ p.buf
unfolding arm
arm-buf cfg p = refl

watch-buf : (cfg : PumpConfig) (d : Bytes) (p : Pump) → (watch cfg d p).buf ≡ p.buf
unfolding watch
watch-buf cfg d p = ground arith

append_data-buf : (cfg : PumpConfig) (d : Bytes) (p : Pump) → (append_data cfg d p).buf ≡ p.buf ++ d
unfolding append_data
append_data-buf cfg d p = refl

check_write-Sends :
    (wrap eof accepts : Bool) (input : Bytes) (r : Pump × Option Bytes)
    → Sends wrap eof input r.0.buf (written r.1)
    → let (q, w, o) = check_write accepts r in Sends wrap eof input q.buf (written w)
check_write-Sends wrap eof accepts input (p, none) h = h
check_write-Sends wrap eof accepts input (p, some w) h = h

-- The bytes of an event are behind the buffer when the round decides whether to flush.
append_watch-buf :
    (cfg : PumpConfig) (d : Bytes) (p : Pump) → (append_data cfg d (watch cfg d p)).buf ≡ p.buf ++ d
append_watch-buf cfg d p =
    append_data-buf cfg d (watch cfg d p) ∙ ap (λ b. b ++ d) (watch-buf cfg d p)

-- One round, whatever it is and whether or not `dst` accepts: what the buffer held, with what the
-- event brings, is a piece followed by what the buffer holds behind the round, and the piece goes
-- out as `Carries` says (nothing for an empty piece).
pub step-Sends :
    (cfg : PumpConfig) (accepts : Bool) (p : Pump) (e : Event)
    → let (q, w, o) = step cfg accepts p e in
      Sends cfg.sync_wrap (is_end e) (p.buf ++ taken e) q.buf (written w)
unfolding step
step-Sends cfg accepts p (received d) =
    let q = append_data cfg d (watch cfg d p) in
    rw (← append_watch-buf cfg d p)
      (elim (Bool-cases (ltb 0 cfg.max_buffer && leb cfg.max_buffer (length q.buf))) [
        | inl over ↦ rw over (
            check_write-Sends cfg.sync_wrap false accepts q.buf (flush cfg false q)
              (flush-Sends cfg false q))
        | inr within ↦ rw (within, arm-buf cfg q) (Sends-nothing cfg.sync_wrap false q.buf)
      ])
step-Sends cfg accepts p end_of_file = rw append-nil (flush-Sends cfg true p)
step-Sends cfg accepts p read_failed = rw append-nil (flush-Sends cfg true p)
step-Sends cfg accepts p idle_fired = elim (Bool-cases (is_some p.timer)) [
  | inl armed ↦
      let q = record p { timer = none } in
      rw (armed, append-nil)
        (check_write-Sends cfg.sync_wrap false accepts p.buf (flush cfg false q)
          (flush-Sends cfg false q))
  | inr idle ↦ rw (idle, append-nil) (Sends-nothing cfg.sync_wrap false p.buf)
]
step-Sends cfg accepts p max_hold_fired = elim (Bool-cases (is_some p.max_hold_timer)) [
  | inl armed ↦
      let q = record p { max_hold_timer = none } in
      rw (armed, append-nil)
        (check_write-Sends cfg.sync_wrap false accepts p.buf (flush cfg false q)
          (flush-Sends cfg false q))
  | inr idle ↦ rw (idle, append-nil) (Sends-nothing cfg.sync_wrap false p.buf)
]
