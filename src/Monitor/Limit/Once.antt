-- ===== src/Monitor/Limit/Once.antt =====
-- Each level is told once (internal/monitor/limit.go).
use claude_master_go.Base.{
  ◌≡◌, ◌≢◌, ◌<◌, refl, ap, ◌∙◌, inl, inr, ◌⊎◌, false, Option, none, some, List, [], ◌∷◌, Bytes, ℤ,
  arith, Bool-cases, Option-cases, lookup, put, lookup-delete_other, lookup-put_other, lookup-put,
}
use claude_master_go.Monitor.Limit.{
  LimitConfig, LimitEvent, LimitLevel, rank, Status, Notified, is_told, level_of, status_int,
  usage_key, event_of, check_level, check_pct, check,
}

-- The level is higher than the one that was told.
unfoldable pub Above : Option LimitLevel → LimitLevel → Type 0
Above none level = Unit
Above (some prev) level = rank prev < rank level

-- The levels of the events rise strictly.
pub data Rising : Option LimitLevel → List LimitEvent → Type 0 where
  nil : {told : Option LimitLevel} → Rising told []
  cons :
      {told : Option LimitLevel} {e : LimitEvent} {es : List LimitEvent}
      → Above told e.level
      → Rising (some e.level) es
      → Rising told (e ∷ es)

-- No status says that the usage is below every level.
abbrev pub IsHigh : LimitConfig → Status → Type 0
IsHigh cfg s = (pct : ℤ) → status_int s usage_key ≡ some pct → level_of cfg pct ≢ none

pub data Stays (cfg : LimitConfig) : List Status → Type 0 where
  nil : Stays cfg []
  cons : {s : Status} {ss : List Status} → IsHigh cfg s → Stays cfg ss → Stays cfg (s ∷ ss)

abbrev pub collect : Option LimitEvent → List LimitEvent → List LimitEvent
collect none es = es
collect (some e) es = e ∷ es

-- The events of the checks of one session.
unfoldable pub checks : LimitConfig → Bytes → List Status → Notified → List LimitEvent
checks cfg key [] n = []
checks cfg key (s ∷ ss) n =
    collect ((check cfg key s n).1) (checks cfg key ss ((check cfg key s n).0))

is_told-Above :
    (told : Option LimitLevel) (level : LimitLevel) → is_told told level ≡ false → Above told level
unfolding is_told Above
is_told-Above none level h = tt
is_told-Above (some prev) level h = ground arith

check-high :
    (cfg : LimitConfig) (key : Bytes) (s : Status) (n : Notified)
    → IsHigh cfg s
    → (check cfg key s n ≡ (n, none))
      ⊎ ((e : LimitEvent) × Above (lookup key n) e.level
          × (check cfg key s n ≡ (put key e.level n, some e)))
unfolding check_pct check_level
check-high cfg key s n h = elim (Option-cases (status_int s usage_key)) [
  | inl unknown ↦ inl (ap (λ o. check_pct cfg key s o n) unknown)
  | inr (pct, given) ↦ elim (Option-cases (level_of cfg pct)) [
    | inl low ↦ absurd (h pct given low)
    | inr (level, high) ↦
        let same =
          ap (λ o. check_pct cfg key s o n) given ∙ ap (λ l. check_level key s pct l n) high in
        elim (Bool-cases (is_told (lookup key n) level)) [
          | inl told ↦ inl (same ∙ simp told)
          | inr fresh ↦ inr (
            event_of key s pct level,
            is_told-Above (lookup key n) level fresh,
            same ∙ simp fresh,
          )
        ]
  ]
]

-- While the usage of a session does not fall below the lowest level, the events of its checks have
-- strictly rising levels, all above the level told before.
pub checks-Rising :
    (cfg : LimitConfig) (key : Bytes) (ss : List Status) (n : Notified)
    → Stays cfg ss
    → Rising (lookup key n) (checks cfg key ss n)
unfolding checks
checks-Rising cfg key [] n nil = Rising.nil
checks-Rising cfg key (s ∷ ss) n (cons h hs) = elim (check-high cfg key s n h) [
  | inl same ↦ rw (step same) (checks-Rising cfg key ss n hs)
  | inr (e, above, next) ↦ rw (step next) (
      Rising.cons above
        (rw (← lookup-put key e.level n) (checks-Rising cfg key ss (put key e.level n) hs)))
]
  where
    step :
        {r : Notified × Option LimitEvent}
        → check cfg key s n ≡ r
        → checks cfg key (s ∷ ss) n ≡ collect (r.1) (checks cfg key ss (r.0))
    step e = ap (λ r. collect (r.1) (checks cfg key ss (r.0))) e

check_level-others :
    (key key' : Bytes) (s : Status) (pct : ℤ) (level : Option LimitLevel) (n : Notified)
    → key' ≢ key
    → lookup key' ((check_level key s pct level n).0) ≡ lookup key' n
unfolding check_level
check_level-others key key' s pct none n d = lookup-delete_other key key' n d
check_level-others key key' s pct (some level) n d =
    elim (Bool-cases (is_told (lookup key n) level)) [
      | inl told ↦ simp told
      | inr fresh ↦ simp fresh (lookup-put_other key key' level n d)
    ]

check_pct-others :
    (cfg : LimitConfig) (key key' : Bytes) (s : Status) (pct : Option ℤ) (n : Notified)
    → key' ≢ key
    → lookup key' ((check_pct cfg key s pct n).0) ≡ lookup key' n
unfolding check_pct
check_pct-others cfg key key' s none n d = refl
check_pct-others cfg key key' s (some pct) n d =
    check_level-others key key' s pct (level_of cfg pct) n d

-- A check of one session leaves what was told of every other session.
pub check-others :
    (cfg : LimitConfig) (key key' : Bytes) (s : Status) (n : Notified)
    → key' ≢ key
    → lookup key' ((check cfg key s n).0) ≡ lookup key' n
check-others cfg key key' s n d = check_pct-others cfg key key' s (status_int s usage_key) n d
