-- ===== src/Proxy/Clients.antt =====
-- internal/ptyproxy/server.go: the clients that are connected, the frames that are drawn for them, and the
-- hold of frames while claude updates its screen; internal/diag/diag.go, the count of clients. Whether a
-- write to a client succeeds is given with each event. The session log and the status file, which a
-- read of claude's output also serves, are left out.
pub mod Count
use claude_master_go.Base.{
  ℕ, zero, suc, ◌+◌, ◌-◌, Bool, true, false, not, ◌&&◌, Option, none, some, List, [], ◌∷◌, ◌++◌,
  ◌==◌, ltb, leb, if◌then◌else◌, ◌>>=◌, Bytes, ℤ, pos, negsuc, up, down,
}
use claude_master_go.Screen.Vt.{Vt}
use claude_master_go.Screen.Feed
use claude_master_go.Screen.Scroll.{ScrollRenderer, new_scroll_renderer, scroll}
use claude_master_go.Screen.Frame.{render_ansi}

-- A client: its connection, its viewport and the size of its terminal.
pub record Client : Type 0 where
  pub conn : ℕ
  pub sr : ScrollRenderer
  pub cols : ℕ
  pub rows : ℕ

-- `Counters`: the fields that the connections change; 0 is no disconnection. The count has 32 bits in
-- the source; each client holds a connection that is open.
pub record Counters : Type 0 where
  pub connected : ℤ
  pub last_disconnect : ℕ

-- `Server`: the clients are a map from connections, with one entry for a key. The timer holds the time at
-- which it fires.
pub record Server : Type 0 where
  pub vt : Vt
  pub clients : List Client
  pub counters : Counters
  pub sync_start : Option ℕ
  pub sync_timer : Option ℕ
  pub stopped : Bool
  pub host_sr : ScrollRenderer
  pub host_rows : ℕ
  pub host_cols : ℕ
  pub has_host : Bool

-- What is written to a client, and the connections that are closed.
pub data Output : Type 0 where
  frame : ℕ → Bytes → Output
  closed : ℕ → Output
  host_frame : Bytes → Output

-- `OnClientConnect` and `OnClientDisconnect`.
unfoldable pub on_connect : Counters → Counters
on_connect c = record { connected = up c.connected; last_disconnect = 0 }

unfoldable pub is_positive : ℤ → Bool
is_positive (pos (suc n)) = true
is_positive _ = false

unfoldable pub on_disconnect : ℕ → Counters → Counters
on_disconnect now c =
    let n = down c.connected in
    if is_positive n
    then record c { connected = n }
    else record { connected = n; last_disconnect = now }

unfoldable pub has_client : ℕ → List Client → Bool
has_client k [] = false
has_client k (c ∷ cs) = let rest = has_client k cs in if c.conn == k then true else rest

-- `delete(s.clients, c)`.
unfoldable pub without : ℕ → List Client → List Client
without k [] = []
without k (c ∷ cs) = let rest = without k cs in if c.conn == k then cs else c ∷ rest

unfoldable pub store : Client → List Client → List Client
store c [] = []
store c (d ∷ ds) = let rest = store c ds in if d.conn == c.conn then c ∷ ds else d ∷ rest

unfoldable pub find : ℕ → List Client → Option Client
find k [] = none
find k (c ∷ cs) = let rest = find k cs in if c.conn == k then some c else rest

-- `clientGoneLocked`.
unfoldable pub client_gone : ℕ → ℕ → Server → Server
client_gone now k s =
    if has_client k s.clients
    then record s { clients = without k s.clients; counters = on_disconnect now s.counters }
    else s

-- `renderClientLocked`.
unfoldable pub render_client : ℕ → (ℕ → Bool) → Client → Server → Server × List Output
render_client now writes c s =
    let (sr, bytes) = render_ansi [] s.vt c.rows c.cols c.sr in
    let drawn = record s { clients = store (record c { sr = sr }) s.clients } in
    if writes c.conn
    then (drawn, frame c.conn bytes ∷ [])
    else (client_gone now c.conn drawn, closed c.conn ∷ [])

abbrev pub behind : List Output → Server × List Output → Server × List Output
behind out r = (r.0, out ++ r.1)

unfoldable pub render_all : ℕ → (ℕ → Bool) → List Client → Server → Server × List Output
render_all now writes [] s = (s, [])
render_all now writes (c ∷ cs) s =
    let r = render_client now writes c s in behind (r.1) (render_all now writes cs (r.0))

-- The frame of the host, in `broadcastLocked` and `SetHostSize`.
unfoldable pub render_host : Server → Server × List Output
render_host s =
    let (sr, bytes) = render_ansi [] s.vt s.host_rows s.host_cols s.host_sr in
    if s.has_host then (record s { host_sr = sr }, host_frame bytes ∷ []) else (s, [])

unfoldable pub set_host_size : ℕ → ℕ → Server → Server × List Output
set_host_size cols rows s = render_host (record s { host_cols = cols; host_rows = rows })

-- `broadcastLocked`.
unfoldable pub broadcast : ℕ → (ℕ → Bool) → Server → Server × List Output
broadcast now writes s =
    let h = render_host s in behind (h.1) (render_all now writes ((h.0).clients) (h.0))

-- A pass of `acceptLoop`: a new client is drawn at once.
abbrev pub new_client : ℕ → Client
new_client k = record { conn = k; sr = new_scroll_renderer; cols = 80; rows = 24 }

unfoldable pub accept : ℕ → (ℕ → Bool) → ℕ → Server → Server × List Output
accept now writes k s =
    render_client now writes (new_client k)
      (record s { clients = new_client k ∷ s.clients; counters = on_connect s.counters })

-- `dropClient`.
unfoldable pub drop_client : ℕ → ℕ → Server → Server × List Output
drop_client now k s =
    if has_client k s.clients then (client_gone now k s, closed k ∷ []) else (s, [])

-- The resize and the scroll of a client, in `parseClientInput`.
unfoldable pub change_client :
    ℕ → (ℕ → Bool) → (Client → Client) → Option Client → Server → Server × List Output
change_client now writes f none s = (s, [])
change_client now writes f (some c) s = render_client now writes (f c) s

abbrev pub resize : ℕ → (ℕ → Bool) → ℕ → ℕ → ℕ → Server → Server × List Output
resize now writes k rows cols s =
    change_client now writes (λ c. record c { rows = rows; cols = cols }) (find k s.clients) s

abbrev pub pan : ℕ → (ℕ → Bool) → ℕ → ℤ → Server → Server × List Output
pan now writes k dy s =
    change_client now writes (λ c. record c { sr = scroll dy c.sr }) (find k s.clients) s

-- `syncHoldMax`.
abbrev pub sync_hold_max : ℕ
sync_hold_max = 1000000000

unfoldable pub or_now : Option ℕ → ℕ → ℕ
or_now none now = now
or_now (some t) now = t

unfoldable pub has_started : Option ℕ → Bool
has_started none = false
has_started (some t) = true

-- The first read of an update starts the hold and its timer.
unfoldable pub start_hold : ℕ → Server → Server
start_hold now s =
    if has_started s.sync_start
    then s
    else record s { sync_start = some now; sync_timer = some (now + sync_hold_max) }

-- A read of claude's output in `masterPump`, once the model has taken it: within an update nothing is
-- drawn, for a second at most or until the output has ended.
unfoldable pub hold_or_draw : ℕ → (ℕ → Bool) → Bool → Server → Server × List Output
hold_or_draw now writes ended s =
    let held = start_hold now s in
    if s.vt.sync_active
    then (if ltb (now - or_now held.sync_start now) sync_hold_max && not ended
        then (held, [])
        else broadcast now writes held)
    else broadcast now writes (record s { sync_start = none; sync_timer = none })

-- `Stop`, at the error of a read.
unfoldable pub stop_if : Bool → Server × List Output → Server × List Output
stop_if true r = (record (r.0) { stopped = true }, r.1)
stop_if false r = r

abbrev pub after_feed : ℕ → (ℕ → Bool) → Bool → Server → Server × List Output
after_feed now writes ended s = stop_if ended (hold_or_draw now writes ended s)

-- `masterPump`; a read of no bytes feeds and draws nothing. None is a panic of the model.
unfoldable pub master_read :
    (ℕ → ℕ) → ℕ → (ℕ → Bool) → Bytes → Bool → Server → Option (Server × List Output)
master_read width now writes [] ended s = some (stop_if ended (s, []))
master_read width now writes (b ∷ bytes) ended s =
    Feed.feed width (b ∷ bytes) s.vt
    >>= (λ v. some (after_feed now writes ended (record s { vt = v })))

-- `syncValve`, when the timer fires.
unfoldable pub sync_valve : ℕ → (ℕ → Bool) → Server → Server × List Output
sync_valve now writes s =
    if s.vt.sync_active && has_started s.sync_start then broadcast now writes s else (s, [])

-- What may happen to a server, in an order of choice, with the time and the writes that succeed: not a
-- function of the source, but the calls of those above by its goroutines.
pub data Event : Type 0 where
  arrived : ℕ → Event
  left : ℕ → Event
  resized : (k rows cols : ℕ) → Event
  panned : ℕ → ℤ → Event
  host_resized : (cols rows : ℕ) → Event
  output : Bytes → Bool → Event
  timer : Event

unfoldable pub serve : (ℕ → ℕ) → ℕ → (ℕ → Bool) → Event → Server → Option (Server × List Output)
serve width now writes (arrived k) s = some (accept now writes k s)
serve width now writes (left k) s = some (drop_client now k s)
serve width now writes (resized k rows cols) s = some (resize now writes k rows cols s)
serve width now writes (panned k dy) s = some (pan now writes k dy s)
serve width now writes (host_resized cols rows) s = some (set_host_size cols rows s)
serve width now writes (output bytes ended) s = master_read width now writes bytes ended s
serve width now writes timer s = some (sync_valve now writes s)

unfoldable pub serve_all : (ℕ → ℕ) → List (ℕ × ((ℕ → Bool) × Event)) → Server → Option Server
serve_all width [] s = some s
serve_all width ((now, (writes, e)) ∷ es) s =
    serve width now writes e s >>= (λ r. serve_all width es (r.0))
