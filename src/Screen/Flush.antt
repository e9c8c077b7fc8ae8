-- ===== src/Screen/Flush.antt =====
-- internal/screen/flush.go: the lines that have left the screen, each taken from the history once
-- (`HistoryFlusher`). A line is of any type. The terminal is seen through the two things that the
-- flusher asks of it: `HistTotal` and `HistoryLines`.
use claude_master_go.Base.{
  ℕ, zero, suc, ◌+◌, ◌-◌, Bool, true, false, List, [], ◌++◌, ltb, leb, if◌then◌else◌, length, take,
  drop, Option, none, some, ◌>>=◌,
}
pub mod Once
pub mod Terminal

pub record HistoryFlusher {ℓ} (A : Type ℓ) : Type ℓ where
  pub armed : Bool
  pub last_total : ℕ
  pub pending : List A

-- The history that a terminal keeps, and how many lines it has had: at least those that it keeps.
pub record History {ℓ} (A : Type ℓ) : Type ℓ where
  pub total : ℕ
  pub lines : List A

abbrev pub pending_cap : ℕ
pending_cap = 100000

module _ {ℓ} {A : Type ℓ} where
  abbrev pub new_history_flusher : HistoryFlusher A
  new_history_flusher = record { armed = false; last_total = 0; pending = [] }

  unfoldable pub reset : HistoryFlusher A → HistoryFlusher A
  reset f = record f { armed = false; last_total = 0 }

  -- `lines[a:b]`.
  pub slice : ℕ → ℕ → List A → Option (List A)
  slice a b xs =
      if ltb b a then none else if ltb (length xs) b then none else some (take (b - a) (drop a xs))

  -- `none` is a slice out of range.
  unfoldable pub take_new : History A → HistoryFlusher A → Option (HistoryFlusher A × List A)
  unfolding slice
  take_new v f =
      if f.armed
      then (let first_idx = v.total - length v.lines in
          let lo = if ltb f.last_total first_idx then first_idx else f.last_total in
          let g = record f { last_total = v.total } in
          if leb v.total lo
          then some (g, [])
          else slice (lo - first_idx) (v.total - first_idx) v.lines >>= λ new. some (g, new))
      else some (record f { armed = true; last_total = v.total }, [])

  -- The newest `pending_cap` lines.
  pub trim : List A → List A
  trim xs = if ltb pending_cap (length xs) then drop (length xs - pending_cap) xs else xs

  unfoldable pub capture : History A → HistoryFlusher A → Option (HistoryFlusher A)
  unfolding trim
  capture v f = take_new v f >>= λ (g, new). some (record g { pending = trim (g.pending ++ new) })

  unfoldable pub drain : HistoryFlusher A → HistoryFlusher A × List A
  drain f = (record f { pending = [] }, f.pending)
