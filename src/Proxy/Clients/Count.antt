-- ===== src/Proxy/Clients/Count.antt =====
-- The count of clients is that of the connections (internal/ptyproxy/server.go, internal/diag/diag.go).
use claude_master_go.Base.{
  ℕ, suc, ◌≡◌, refl, sym, ap, ◌∙◌, inl, inr, Bool, true, false, Option, none, some, List, [], ◌∷◌,
  ◌==◌, pos, up, down, length, if-cases, Bool-cases, >>=-eq-some, some-holds, ltb, ◌-◌, ◌&&◌, not,
}
use claude_master_go.Screen.Feed
use claude_master_go.Screen.Scroll.{scroll}
use claude_master_go.Screen.Frame.{render_ansi}
use claude_master_go.Proxy.Clients.{
  Client, Counters, Server, Output, on_connect, on_disconnect, is_positive, has_client, without,
  store, find, client_gone, render_client, render_all, broadcast, new_client, accept, drop_client,
  change_client, start_hold, hold_or_draw, stop_if, has_started, or_now, sync_hold_max, after_feed,
  sync_valve, render_host, set_host_size, master_read, Event, serve, serve_all, arrived, left,
  resized, panned, host_resized, output, timer, resize, pan,
}

-- The count is the number of clients.
pub record IsCounted (s : Server) : Type 0 where
  pub count : s.counters.connected ≡ pos (length s.clients)

length-store : (c : Client) (cs : List Client) → length (store c cs) ≡ length cs
unfolding store
length-store c [] = refl
length-store c (d ∷ ds) =
    if-cases (λ (r : List Client). length r ≡ suc (length ds)) (d.conn == c.conn) (λ same. refl)
      (λ other. ap suc (length-store c ds))

length-without :
    (k : ℕ) (cs : List Client) → has_client k cs ≡ true → suc (length (without k cs)) ≡ length cs
unfolding without has_client
length-without k [] h = cc
length-without k (c ∷ cs) h = elim (Bool-cases (c.conn == k)) [
  | inl e ↦ simp e
  | inr e ↦ simp e (ap suc (length-without k cs (sym (miss e) ∙ h)))
]
  where
    miss : (c.conn == k) ≡ false → has_client k (c ∷ cs) ≡ has_client k cs
    miss e = simp e

on_disconnect-down : (now : ℕ) (c : Counters) → (on_disconnect now c).connected ≡ down c.connected
unfolding on_disconnect
on_disconnect-down now c =
    if-cases (λ (r : Counters). r.connected ≡ down c.connected) (is_positive (down c.connected))
      (λ more. refl) (λ last. refl)

client_gone-IsCounted : (now k : ℕ) (s : Server) → IsCounted s → IsCounted (client_gone now k s)
unfolding client_gone down
client_gone-IsCounted now k s h =
    if-cases IsCounted (has_client k s.clients)
      (λ there. record {
        count =
            on_disconnect-down now s.counters
            ∙ ap down (h.count ∙ ap pos (sym (length-without k s.clients there)));
      })
      (λ gone. h)

render_client-IsCounted :
    (now : ℕ) (writes : ℕ → Bool) (c : Client) (s : Server)
    → IsCounted s
    → IsCounted ((render_client now writes c s).0)
unfolding render_client
render_client-IsCounted now writes c s h =
    if-cases (λ (r : Server × List Output). IsCounted (r.0)) (writes c.conn) (λ ok. stored)
      (λ bad. client_gone-IsCounted now c.conn drawn stored)
  where
    next : Client
    next = record c { sr = (render_ansi [] s.vt c.rows c.cols c.sr).0 }

    drawn : Server
    drawn = record s { clients = store next s.clients }

    stored : IsCounted drawn
    stored = record { count = h.count ∙ ap pos (sym (length-store next s.clients)) }

render_all-IsCounted :
    (now : ℕ) (writes : ℕ → Bool) (cs : List Client) (s : Server)
    → IsCounted s
    → IsCounted ((render_all now writes cs s).0)
unfolding render_all
render_all-IsCounted now writes [] s h = h
render_all-IsCounted now writes (c ∷ cs) s h =
    render_all-IsCounted now writes cs ((render_client now writes c s).0)
      (render_client-IsCounted now writes c s h)

accept-IsCounted :
    (now : ℕ) (writes : ℕ → Bool) (k : ℕ) (s : Server)
    → IsCounted s
    → IsCounted ((accept now writes k s).0)
unfolding accept on_connect up
accept-IsCounted now writes k s h =
    render_client-IsCounted now writes (new_client k)
      (record s { clients = new_client k ∷ s.clients; counters = on_connect s.counters })
      (record { count = ap up h.count })

drop_client-IsCounted : (now k : ℕ) (s : Server) → IsCounted s → IsCounted ((drop_client now k s).0)
unfolding drop_client
drop_client-IsCounted now k s h =
    if-cases (λ (r : Server × List Output). IsCounted (r.0)) (has_client k s.clients)
      (λ there. client_gone-IsCounted now k s h) (λ gone. h)

change_client-IsCounted :
    (now : ℕ) (writes : ℕ → Bool) (f : Client → Client) (c : Option Client) (s : Server)
    → IsCounted s
    → IsCounted ((change_client now writes f c s).0)
unfolding change_client
change_client-IsCounted now writes f none s h = h
change_client-IsCounted now writes f (some c) s h = render_client-IsCounted now writes (f c) s h

render_host-IsCounted : (s : Server) → IsCounted s → IsCounted ((render_host s).0)
unfolding render_host
render_host-IsCounted s h =
    if-cases (λ (r : Server × List Output). IsCounted (r.0)) s.has_host
      (λ there. record { count = h.count }) (λ none. h)

broadcast-IsCounted :
    (now : ℕ) (writes : ℕ → Bool) (s : Server)
    → IsCounted s
    → IsCounted ((broadcast now writes s).0)
unfolding broadcast
broadcast-IsCounted now writes s h =
    render_all-IsCounted now writes ((render_host s).0.clients) ((render_host s).0)
      (render_host-IsCounted s h)

start_hold-IsCounted : (now : ℕ) (s : Server) → IsCounted s → IsCounted (start_hold now s)
unfolding start_hold
start_hold-IsCounted now s h =
    if-cases IsCounted (has_started s.sync_start) (λ on. h) (λ off. record { count = h.count })

hold_or_draw-IsCounted :
    (now : ℕ) (writes : ℕ → Bool) (ended : Bool) (s : Server)
    → IsCounted s
    → IsCounted ((hold_or_draw now writes ended s).0)
unfolding hold_or_draw
hold_or_draw-IsCounted now writes ended s h =
    let held = start_hold now s in
    let ok = start_hold-IsCounted now s h in
    if-cases (λ (r : Server × List Output). IsCounted (r.0)) s.vt.sync_active
      (λ active.
        if-cases (λ (r : Server × List Output). IsCounted (r.0))
          (ltb (now - or_now held.sync_start now) sync_hold_max && not ended) (λ hold. ok)
          (λ draw. broadcast-IsCounted now writes held ok))
      (λ done.
        broadcast-IsCounted now writes (record s { sync_start = none; sync_timer = none })
          (record { count = h.count }))

stop_if-IsCounted :
    (ended : Bool) (r : Server × List Output) → IsCounted (r.0) → IsCounted ((stop_if ended r).0)
unfolding stop_if
stop_if-IsCounted true r h = record { count = h.count }
stop_if-IsCounted false r h = h

sync_valve-IsCounted :
    (now : ℕ) (writes : ℕ → Bool) (s : Server)
    → IsCounted s
    → IsCounted ((sync_valve now writes s).0)
unfolding sync_valve
sync_valve-IsCounted now writes s h =
    if-cases (λ (r : Server × List Output). IsCounted (r.0))
      (s.vt.sync_active && has_started s.sync_start) (λ fire. broadcast-IsCounted now writes s h)
      (λ idle. h)

returned : (a r : Server × List Output) → some a ≡ some r → IsCounted (a.0) → IsCounted (r.0)
returned a r e h = some-holds (λ (x : Server × List Output). IsCounted (x.0)) a r e h

serve-IsCounted :
    (width : ℕ → ℕ) (now : ℕ) (writes : ℕ → Bool) (ev : Event) (s : Server)
    (r : Server × List Output)
    → IsCounted s
    → serve width now writes ev s ≡ some r
    → IsCounted (r.0)
unfolding serve master_read set_host_size
serve-IsCounted width now writes (arrived k) s r h e =
    returned (accept now writes k s) r e (accept-IsCounted now writes k s h)
serve-IsCounted width now writes (left k) s r h e =
    returned (drop_client now k s) r e (drop_client-IsCounted now k s h)
serve-IsCounted width now writes (resized k rows cols) s r h e =
    returned (resize now writes k rows cols s) r e (
      change_client-IsCounted now writes (λ c. record c { rows = rows; cols = cols })
        (find k s.clients) s h)
serve-IsCounted width now writes (panned k dy) s r h e = returned (pan now writes k dy s) r e (
    change_client-IsCounted now writes (λ c. record c { sr = scroll dy c.sr }) (find k s.clients) s
      h)
serve-IsCounted width now writes (host_resized cols rows) s r h e =
    let t = record s { host_cols = cols; host_rows = rows } in
    returned (render_host t) r e (render_host-IsCounted t (record { count = h.count }))
serve-IsCounted width now writes (output [] ended) s r h e =
    returned (stop_if ended (s, [])) r e (stop_if-IsCounted ended (s, []) h)
serve-IsCounted width now writes (output (b ∷ bytes) ended) s r h e =
    let (v, fed, out) =
      >>=-eq-some (Feed.feed width (b ∷ bytes) s.vt)
        (λ v. some (after_feed now writes ended (record s { vt = v }))) e in
    let t = record s { vt = v } in
    returned (after_feed now writes ended t) r out (
      stop_if-IsCounted ended (hold_or_draw now writes ended t)
        (hold_or_draw-IsCounted now writes ended t (record { count = h.count })))
serve-IsCounted width now writes timer s r h e =
    returned (sync_valve now writes s) r e (sync_valve-IsCounted now writes s h)

-- Whatever clients come and go, by whatever errors of their connections, the count of clients is the
-- number of clients, from a server on which it is.
pub serve_all-IsCounted :
    (width : ℕ → ℕ) (es : List (ℕ × ((ℕ → Bool) × Event))) (s s' : Server)
    → IsCounted s
    → serve_all width es s ≡ some s'
    → IsCounted s'
unfolding serve_all
serve_all-IsCounted width [] s s' h e = some-holds IsCounted s s' e h
serve_all-IsCounted width ((now, (writes, ev)) ∷ es) s s' h e =
    let (r, served, rest) =
      >>=-eq-some (serve width now writes ev s) (λ r. serve_all width es (r.0)) e in
    serve_all-IsCounted width es (r.0) s' (serve-IsCounted width now writes ev s r h served) rest
