-- ===== src/Config/Load/Bounds.antt =====
-- The numbers of the settings are within their bounds (internal/config/config.go, `Load`).
use claude_master_go.Base.{ℕ, ◌≤◌, Option, none, some, Bytes, ℤ, pos, negsuc, arith}
use claude_master_go.Config.Number.{atoi}
use claude_master_go.Config.Values.{Config}
use claude_master_go.Config.Names.{
  poll_interval_name, limit_warn_percent_name, limit_interrupt_percent_name, idle_gc_hours_name,
  nav_scroll_step_name, nav_page_step_name, nav_wheel_step_name,
}
use claude_master_go.Config.Load.{Sources, bounded, number_or, integer_of, get, load}
use claude_master_go.Tmux.Text.{trim_space}

pub record Within (lo hi n : ℕ) : Type 0 where
  pub above : lo ≤ n
  pub below : n ≤ hi

bounded-Within : (lo hi : ℕ) (n : ℤ) → lo ≤ hi → Within lo hi (bounded lo hi n)
unfolding bounded
bounded-Within lo hi (pos n) h = record { above = ground arith; below = ground arith }
bounded-Within lo hi (negsuc n) h = record { above = ground arith; below = ground arith }

module _ (src : Sources) where
  integer_of-Within :
      (v : Option Bytes) (def lo hi : ℕ)
      → Within lo hi def
      → Within lo hi (integer_of src v def lo hi)
  unfolding integer_of number_or
  integer_of-Within none def lo hi h = h
  integer_of-Within (some v) def lo hi h = read (atoi (trim_space v))
    where
      order : lo ≤ hi
      order = omega (arith, h.above, h.below)

      read : (n : Option ℤ) → Within lo hi (number_or src def lo hi n)
      read none = h
      read (some n) = bounded-Within lo hi n order

  pub record IsBounded (c : Config) : Type 0 where
    pub poll_interval : Within 0 86400 c.poll_interval
    pub limit_warn_pct : Within 0 100 c.limit_warn_pct
    pub limit_interrupt_pct : Within 0 100 c.limit_interrupt_pct
    pub idle_gc_hours : Within 0 168 c.idle_gc_hours
    pub nav_scroll_step : Within 1 1000 c.nav_scroll_step
    pub nav_page_step : Within 1 100000 c.nav_page_step
    pub nav_wheel_step : Within 1 1000 c.nav_wheel_step

  fixed : (lo hi n : ℕ) → lo ≤ n → n ≤ hi → Within lo hi n
  fixed lo hi n a b = record { above = a; below = b }

  -- Whatever the environment and the file hold, every number of the settings is within its bounds.
  pub load-IsBounded : IsBounded (load src)
  load-IsBounded = record {
    poll_interval =
        integer_of-Within (get src poll_interval_name) 1 0 86400
          (fixed 0 86400 1 (omega arith) (omega arith));
    limit_warn_pct =
        integer_of-Within (get src limit_warn_percent_name) 80 0 100
          (fixed 0 100 80 (omega arith) (omega arith));
    limit_interrupt_pct =
        integer_of-Within (get src limit_interrupt_percent_name) 90 0 100
          (fixed 0 100 90 (omega arith) (omega arith));
    idle_gc_hours =
        integer_of-Within (get src idle_gc_hours_name) 4 0 168
          (fixed 0 168 4 (omega arith) (omega arith));
    nav_scroll_step =
        integer_of-Within (get src nav_scroll_step_name) 1 1 1000
          (fixed 1 1000 1 (omega arith) (omega arith));
    nav_page_step =
        integer_of-Within (get src nav_page_step_name) 10 1 100000
          (fixed 1 100000 10 (omega arith) (omega arith));
    nav_wheel_step =
        integer_of-Within (get src nav_wheel_step_name) 3 1 1000
          (fixed 1 1000 3 (omega arith) (omega arith));
  }
