-- ===== src/Proxy/StatusFile/Spaced.antt =====
-- The status file is written at most every five seconds, and only where it tells something new
-- (internal/ptyproxy/statuswriter.go).
use claude_master_go.Base.{
  ℕ, ◌+◌, ◌-◌, ◌≤◌, ◌≡◌, refl, sym, ap, ◌∙◌, Bool, true, false, not, ◌&&◌, Option, none, some, List,
  [], ◌∷◌, ◌++◌, ◌>>=◌, Bytes, is_empty, ltb, ℤ, pos, if-cases, arith,
}
use claude_master_go.Screen.Vt.{Vt}
use claude_master_go.Screen.Text.{visible_lines, history_lines}
use claude_master_go.Screen.Status.{StatusScanner, usage_of, extract_usage, is_active, scan_all}
use claude_master_go.Proxy.StatusFile.{
  Signature, same_signature, StatusState, enable_status, Place, Payload, payload_of, signature_of,
  is_known, settle, look, maybe_write_status, add_written, write_statuses,
}

-- The signature of what a payload tells of the screen.
pct_or_0 : Option ℤ → ℤ
pct_or_0 none = pos 0
pct_or_0 (some p) = p

has_value : Option ℤ → Bool
has_value none = false
has_value (some p) = true

reset_or_none : Option (Bytes × Bytes) → Bytes × Bytes
reset_or_none none = ([], [])
reset_or_none (some r) = r

unfoldable pub told : Payload → Signature
unfolding pct_or_0 has_value reset_or_none
told q = record {
  has_pct = has_value q.usage_percent;
  pct = pct_or_0 q.usage_percent;
  reset_time = (reset_or_none q.reset).0;
  reset_tz = (reset_or_none q.reset).1;
  active = q.is_active;
}

told-fields :
    (p : Place) (now : ℕ) (st : StatusState) (active : Bool) (b : Bool) (n : ℤ) (time zone : Bytes)
    → (sc : StatusScanner)
    → sc ≡ record { last_pct = n; has_pct = b; reset_time = time; reset_tz = zone }
    → told (payload_of p now st (usage_of sc) active) ≡ signature_of (usage_of sc) active
unfolding told payload_of usage_of is_empty
told-fields p now st active false n [] zone sc e = rw e refl
told-fields p now st active true n [] zone sc e = rw e refl
told-fields p now st active false n (c ∷ time) zone sc e = rw e refl
told-fields p now st active true n (c ∷ time) zone sc e = rw e refl

-- The payload tells what the signature is of.
told-payload_of :
    (p : Place) (now : ℕ) (st : StatusState) (active : Bool) (sc : StatusScanner)
    → told (payload_of p now st (usage_of sc) active) ≡ signature_of (usage_of sc) active
told-payload_of p now st active sc =
    told-fields p now st active sc.has_pct sc.last_pct sc.reset_time sc.reset_tz sc refl

-- The state behind a write at `t` of what has the signature `s`.
record Wrote (t : ℕ) (s : Signature) (st : StatusState) : Type 0 where
  started : st.init ≡ false
  known : st.sig ≡ some s
  since : t ≤ st.last

-- Each write is five seconds behind the one before, and tells something else.
abbrev pub SpacedFrom : ℕ → Signature → List Payload → Type 0
SpacedFrom t s [] = Unit {0}
SpacedFrom t s (q ∷ qs) =
    (t + 5000000000 ≤ q.updated_at)
    × (same_signature s (told q) ≡ false)
    × SpacedFrom q.updated_at (told q) qs

abbrev pub Spaced : List Payload → Type 0
Spaced [] = Unit {0}
Spaced (q ∷ qs) = SpacedFrom q.updated_at (told q) qs

-- What a call after a write does, and what one before the first write does.
abbrev Next : ℕ → Signature → StatusState × Option Payload → Type 0
Next t s (st, none) = Wrote t s st
Next t s (st, some q) =
    (t + 5000000000 ≤ q.updated_at)
    × (same_signature s (told q) ≡ false)
    × Wrote q.updated_at (told q) st

abbrev First : StatusState × Option Payload → Type 0
First (st, none) = st.init ≡ true
First (st, some q) = Wrote q.updated_at (told q) st

fresh :
    (st : StatusState) (s sig : Signature)
    → st.init ≡ false
    → st.sig ≡ some s
    → (not st.init && is_known st.sig sig) ≡ false
    → same_signature s sig ≡ false
unfolding is_known
fresh st s sig i k e =
    sym (ap (λ b. not b && is_known st.sig sig) i ∙ ap (λ o. is_known o sig) k) ∙ e

module _ (p : Place) (now : ℕ) (active : Bool) (sc : StatusScanner) (st : StatusState) where
  abbrev sig : Signature
  sig = signature_of (usage_of sc) active

  written :
      Wrote now
        (told (payload_of p now st (usage_of sc) active))
        (record st { last = now; scanner = some sc; init = false; sig = some sig })
  written = record {
    started = refl;
    known = ap some (sym (told-payload_of p now st active sc));
    since = omega arith;
  }

  settle-Next :
      (t : ℕ) (s : Signature)
      → Wrote t s st
      → t + 5000000000 ≤ now
      → Next t s (settle p now (sc, usage_of sc) active st)
  unfolding settle payload_of
  settle-Next t s w late =
      if-cases (Next t s) (not st.init && is_known st.sig sig)
        (λ _. record { started = w.started; known = w.known; since = omega arith })
        (λ e. (
          late,
          ap (same_signature s) (told-payload_of p now st active sc)
              ∙ fresh st s sig w.started w.known e,
          written,
        ))

  settle-First : st.init ≡ true → First (settle p now (sc, usage_of sc) active st)
  unfolding settle payload_of
  settle-First h = if-cases First (not st.init && is_known st.sig sig) (λ _. h) (λ _. written)

-- What holds of the result of a call that returns.
abbrev Returned :
    (StatusState × Option Payload → Type 0) → Option (StatusState × Option Payload) → Type 0
Returned P none = Unit {0}
Returned P (some r) = P r

Returned-bind :
    {A : Type 0} (P : StatusState × Option Payload → Type 0) (o : Option A)
    → (f : A → Option (StatusState × Option Payload)) → ((a : A) → o ≡ some a → Returned P (f a))
    → Returned P (o >>= f)
Returned-bind P none f k = tt
Returned-bind P (some a) f k = k a refl

module _ (p : Place) (now : ℕ) (v : Vt) (st : StatusState) where
  scanned :
      (P : StatusState × Option Payload → Type 0) (sc : StatusScanner)
      → ((next : StatusScanner) (active : Bool) → P (settle p now (next, usage_of next) active st))
      → Returned P (
          extract_usage v sc >>= (λ r. is_active v >>= (λ active. some (settle p now r active st))))
  unfolding extract_usage
  scanned P sc k = go (visible_lines v)
    where
      go :
          (o : Option (List Bytes))
          → Returned P (
              (o >>= (λ vis.
                let next = scan_all (history_lines v ++ vis) sc in some (next, usage_of next)))
              >>= (λ r. is_active v >>= (λ active. some (settle p now r active st))))
      go none = tt
      go (some vis) =
          Returned-bind P (is_active v)
            (λ active. some (
              settle p now
                (
                  scan_all (history_lines v ++ vis) sc,
                  usage_of (scan_all (history_lines v ++ vis) sc),
                )
                active st))
            (λ active e. k (scan_all (history_lines v ++ vis) sc) active)

  call-Next :
      (t : ℕ) (s : Signature) → Wrote t s st → Returned (Next t s) (maybe_write_status p now v st)
  unfolding maybe_write_status look
  call-Next t s w =
      if-cases (Returned (Next t s)) (is_empty st.path) (λ _. w) (λ _. looked st.scanner)
    where
      late : (not st.init && ltb (now - st.last) 5000000000) ≡ false → t + 5000000000 ≤ now
      late e =
          let waited : ltb (now - st.last) 5000000000 ≡ false =
            sym (ap (λ b. not b && ltb (now - st.last) 5000000000) w.started) ∙ e in
          ground arith

      looked : (o : Option StatusScanner) → Returned (Next t s) (look p now v st o)
      looked none = w
      looked (some sc) =
          if-cases (Returned (Next t s)) (not st.init && ltb (now - st.last) 5000000000) (λ _. w)
            (λ e.
              scanned (Next t s) sc
                (λ next active. settle-Next p now active next st t s w (late e)))

  call-First : st.init ≡ true → Returned First (maybe_write_status p now v st)
  unfolding maybe_write_status look
  call-First h = if-cases (Returned First) (is_empty st.path) (λ _. h) (λ _. looked st.scanner)
    where
      looked : (o : Option StatusScanner) → Returned First (look p now v st o)
      looked none = h
      looked (some sc) =
          if-cases (Returned First) (not st.init && ltb (now - st.last) 5000000000) (λ _. h)
            (λ _. scanned First sc (λ next active. settle-First p now active next st h))

add-SpacedFrom :
    (t : ℕ) (s : Signature) (st : StatusState) (o : Option Payload) (ps : List Payload)
    → Next t s (st, o)
    → ((t' : ℕ) (s' : Signature) → Wrote t' s' st → SpacedFrom t' s' ps)
    → SpacedFrom t s (add_written o ps)
unfolding add_written
add-SpacedFrom t s st none ps n k = k t s n
add-SpacedFrom t s st (some q) ps n k = (n.0, n.1, k q.updated_at (told q) n.2)

add-Spaced :
    (st : StatusState) (o : Option Payload) (ps : List Payload)
    → First (st, o)
    → (st.init ≡ true → Spaced ps)
    → ((t : ℕ) (s : Signature) → Wrote t s st → SpacedFrom t s ps)
    → Spaced (add_written o ps)
unfolding add_written
add-Spaced st none ps n k l = k n
add-Spaced st (some q) ps n k l = l q.updated_at (told q) n

-- What is written from a state on, where nothing panics.
abbrev pub Writes : (List Payload → Type 0) → Option (List Payload) → Type 0
Writes P none = Unit {0}
Writes P (some ps) = P ps

more-SpacedFrom :
    (t : ℕ) (s : Signature) (st : StatusState) (q : Option Payload) (o : Option (List Payload))
    → Next t s (st, q)
    → ((t' : ℕ) (s' : Signature) → Wrote t' s' st → Writes (SpacedFrom t' s') o)
    → Writes (SpacedFrom t s) (o >>= (λ ps. some (add_written q ps)))
more-SpacedFrom t s st q none n k = tt
more-SpacedFrom t s st q (some ps) n k = add-SpacedFrom t s st q ps n k

more-Spaced :
    (st : StatusState) (q : Option Payload) (o : Option (List Payload))
    → First (st, q)
    → (st.init ≡ true → Writes Spaced o)
    → ((t : ℕ) (s : Signature) → Wrote t s st → Writes (SpacedFrom t s) o)
    → Writes Spaced (o >>= (λ ps. some (add_written q ps)))
more-Spaced st q none n k l = tt
more-Spaced st q (some ps) n k l = add-Spaced st q ps n k l

module _ (p : Place) where
  write_statuses-SpacedFrom :
      (calls : List (ℕ × Vt)) (t : ℕ) (s : Signature) (st : StatusState)
      → Wrote t s st
      → Writes (SpacedFrom t s) (write_statuses p calls st)
  unfolding write_statuses
  write_statuses-SpacedFrom [] t s st w = tt
  write_statuses-SpacedFrom ((now, v) ∷ calls) t s st w =
      called (maybe_write_status p now v st) (call-Next p now v st t s w)
        (λ st' t' s' w'. write_statuses-SpacedFrom calls t' s' st' w')
    where
      called :
          (o : Option (StatusState × Option Payload))
          → Returned (Next t s) o
          → ((st' : StatusState) (t' : ℕ) (s' : Signature)
              → Wrote t' s' st'
              → Writes (SpacedFrom t' s') (write_statuses p calls st'))
          → Writes
              (SpacedFrom t s)
              (o >>= (λ r. write_statuses p calls r.0 >>= (λ ps. some (add_written r.1 ps))))
      called none n k = tt
      called (some (st', q)) n k = more-SpacedFrom t s st' q (write_statuses p calls st') n (k st')

  write_statuses_fresh-Spaced :
      (calls : List (ℕ × Vt)) (st : StatusState)
      → st.init ≡ true
      → Writes Spaced (write_statuses p calls st)
  unfolding write_statuses
  write_statuses_fresh-Spaced [] st h = tt
  write_statuses_fresh-Spaced ((now, v) ∷ calls) st h =
      called (maybe_write_status p now v st) (call-First p now v st h)
        (λ st' h'. write_statuses_fresh-Spaced calls st' h')
    where
      called :
          (o : Option (StatusState × Option Payload))
          → Returned First o
          → ((st' : StatusState) → st'.init ≡ true → Writes Spaced (write_statuses p calls st'))
          → Writes Spaced
              (o >>= (λ r. write_statuses p calls r.0 >>= (λ ps. some (add_written r.1 ps))))
      called none n k = tt
      called (some (st', q)) n k =
          more-Spaced st' q (write_statuses p calls st') n (k st')
            (λ t s w. write_statuses-SpacedFrom calls t s st' w)

  -- From `EnableStatus` on, whenever the proxy looks and whatever the screen shows: where no look panics,
  -- each write of the status file comes at least five seconds behind the one before, and tells of
  -- another usage, reset or activity.
  pub write_statuses-Spaced :
      (calls : List (ℕ × Vt)) (path : Bytes) (pid : ℕ) (st : StatusState)
      → Writes Spaced (write_statuses p calls (enable_status path pid st))
  write_statuses-Spaced calls path pid st =
      write_statuses_fresh-Spaced calls (enable_status path pid st) refl
