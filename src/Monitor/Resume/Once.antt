-- ===== src/Monitor/Resume/Once.antt =====
-- A paused session is resumed once, and within a day (internal/monitor/resume.go).
use claude_master_go.Base.{
  ℕ, ◌+◌, ◌≤◌, ◌<◌, ◌≡◌, refl, inl, inr, false, [], ◌∷◌, leb, arith, Bool-cases,
}
use claude_master_go.Monitor.Resume.{Pending, due, next_clock, day}

-- A time of the day comes next after now, and within 24 hours.
pub next_clock-soon :
    (h m now : ℕ) → h < 24 → m < 60 → (now < next_clock h m now) × (next_clock h m now ≤ now + day)
unfolding next_clock
next_clock-soon h m now hh hm = ground arith

not_yet : (at now later : ℕ) → later ≤ now → leb at now ≡ false → leb at later ≡ false
not_yet at now later h e = ground arith

-- What was due once is not due again, and nothing else is due before its time comes.
pub due-due :
    (now later : ℕ) (p : Pending) → later ≤ now → due later ((due now p).0) ≡ ((due now p).0, [])
unfolding due
due-due now later [] h = refl
due-due now later ((k, e) ∷ p) h = elim (Bool-cases (leb e.reset_at now)) [
  | inl past ↦ simp past (due-due now later p h)
  | inr future ↦ simp (future, not_yet e.reset_at now later h future, due-due now later p h)
]
