-- ===== src/TtySync/Pump/Runs.antt =====
-- Whole runs of the pump (internal/ttysync/wrap.go), from any state to the return.
use claude_master_go.Base.{
  ◌≡◌, refl, sym, ap, ◌∙◌, inl, inr, Bool, true, false, List, [], ◌∷◌, ◌++◌, append_assoc,
  append-nil, if◌then◌else◌, Bool-cases, Bytes,
}
use claude_master_go.TtySync.Pump.{
  PumpConfig, Pump, Event, received, end_of_file, read_failed, idle_fired, max_hold_fired, written,
  step, is_running, run,
}
use claude_master_go.TtySync.Pump.Order.{
  Carries, plain, framed, raw, final, taken, is_end, Sends, step-Sends,
}

-- The bytes received in the rounds that are made.
unfoldable pub consumed : PumpConfig → Pump → List (Bool × Event) → Bytes
consumed cfg p [] = []
consumed cfg p ((accepts, e) ∷ es) =
    let (p', w, o) = step cfg accepts p e in
    let rest = consumed cfg p' es in if is_running o then taken e ++ rest else taken e

-- Whether the run comes to an end of the input, or to an error of its reading.
unfoldable pub ends : PumpConfig → Pump → List (Bool × Event) → Bool
ends cfg p [] = false
ends cfg p ((accepts, e) ∷ es) =
    let (p', w, o) = step cfg accepts p e in
    let rest = ends cfg p' es in if is_running o then rest else is_end e

-- A stream that goes out piece by piece; only the last piece, and only of a run that ends, goes out as
-- at the end of the input.
pub data Delivers (wrap ended : Bool) : Bytes → Bytes → Type 0 where
  nothing : Delivers wrap ended [] []
  last : {piece out : Bytes} → Carries wrap ended piece out → Delivers wrap ended piece out
  next :
      {piece out rest outs : Bytes}
      → Carries wrap false piece out
      → Delivers wrap ended rest outs
      → Delivers wrap ended (piece ++ rest) (out ++ outs)

pub record Delivery (wrap ended : Bool) (input left out : Bytes) : Type 0 where
  pub sent : Bytes
  pub joins : input ≡ sent ++ left
  pub delivers : Delivers wrap ended sent out

-- A round on the end of the input is the last.
running-is_end :
    (cfg : PumpConfig) (accepts : Bool) (p : Pump) (e : Event)
    → is_running (step cfg accepts p e).2 ≡ true
    → is_end e ≡ false
unfolding step
running-is_end cfg accepts p (received d) h = refl
running-is_end cfg accepts p end_of_file h = cc h
running-is_end cfg accepts p read_failed h = cc h
running-is_end cfg accepts p idle_fired h = refl
running-is_end cfg accepts p max_hold_fired h = refl

Delivery-one :
    {wrap ended : Bool} {input left out : Bytes}
    → Sends wrap ended input left out
    → Delivery wrap ended input left out
Delivery-one s = record { sent = s.piece; joins = s.joins; delivers = last s.carries }

Delivery-next :
    {wrap ended : Bool} {input mid left out outs : Bytes} (later : Bytes)
    → Sends wrap false input mid out
    → Delivery wrap ended (mid ++ later) left outs
    → Delivery wrap ended (input ++ later) left (out ++ outs)
Delivery-next later s d = record {
  sent = s.piece ++ d.sent;
  joins =
      ap (λ b. b ++ later) s.joins
      ∙ append_assoc s.piece _ later
      ∙ ap (λ b. s.piece ++ b) d.joins
      ∙ sym (append_assoc s.piece d.sent _);
  delivers = next s.carries d.delivers;
}

-- Any run from any state: the buffer at its start and the bytes received in it are the pieces sent,
-- in order, followed by the buffer at its end, and what is written is these pieces one after the
-- other, each as it may go out: raw without SyncWrap; with it wrapped as one update less its markers,
-- or raw if it is longer than a held tail may be. Only the last piece of a run that comes to the end of
-- the input, or to an error of its reading, may have its last part raw behind a wrapped one.
pub run-Delivery :
    (cfg : PumpConfig) (es : List (Bool × Event)) (p : Pump)
    → let (q, out, o) = run cfg p es in
      Delivery cfg.sync_wrap (ends cfg p es) (p.buf ++ consumed cfg p es) q.buf out
unfolding run consumed ends
run-Delivery cfg [] p = record { sent = []; joins = append-nil p.buf; delivers = nothing }
run-Delivery cfg ((accepts, e) ∷ es) p =
    let r = step cfg accepts p e in
    let sends = step-Sends cfg accepts p e in
    elim (Bool-cases (is_running r.2)) [
      | inl on ↦
          let sends' : Sends cfg.sync_wrap false (p.buf ++ taken e) r.0.buf (written r.1) =
            rw (← running-is_end cfg accepts p e on) sends in
          rw (on, ← append_assoc p.buf (taken e) (consumed cfg r.0 es))
            (Delivery-next (consumed cfg r.0 es) sends' (run-Delivery cfg es r.0))
      | inr off ↦ rw off (Delivery-one sends)
    ]

Carries-plain :
    {wrap eof : Bool} {piece out : Bytes} → wrap ≡ false → Carries wrap eof piece out → out ≡ piece
Carries-plain h (plain e) = refl
Carries-plain h (framed e _) = cc
Carries-plain h (raw e _) = cc
Carries-plain h (final _ _ e _ _) = cc

Delivers-plain :
    {wrap ended : Bool} {sent out : Bytes}
    → wrap ≡ false
    → Delivers wrap ended sent out
    → out ≡ sent
Delivers-plain h nothing = refl
Delivers-plain h (last c) = Carries-plain h c
Delivers-plain h (next {piece} {out} {rest} {outs} c d) =
    ap (λ b. b ++ outs) (Carries-plain h c) ∙ ap (λ b. piece ++ b) (Delivers-plain h d)

-- Without SyncWrap no byte is dropped, added or moved: in every run from every state, what is
-- written, followed by what the buffer holds at the end, is what the buffer held at the start,
-- followed by the bytes received.
pub run_plain :
    (cfg : PumpConfig) (es : List (Bool × Event)) (p : Pump)
    → cfg.sync_wrap ≡ false
    → let (q, out, o) = run cfg p es in out ++ q.buf ≡ p.buf ++ consumed cfg p es
run_plain cfg es p bare =
    let d = run-Delivery cfg es p in
    ap (λ b. b ++ (run cfg p es).0.buf) (Delivers-plain bare d.delivers) ∙ sym d.joins
