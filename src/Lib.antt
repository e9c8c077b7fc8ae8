-- ===== src/Lib.antt =====
-- claude-master: the programs that sit between claude's terminal output and the terminals that show
-- it, the monitor of its sessions, and what is kept of them in the cloud. Output flows from a child
-- through a pump or a terminal model to a host and to clients, whose input flows back:
--
-- * TtySync is internal/ttysync. The pump (wrap.go, `PumpWithIdleConfig`) collects output and
--   writes it in batches; `step` is one round of its select, `run` a sequence of rounds with the
--   events and the answers of `dst` given. It asks the parser of destructive sequences (Ansi,
--   ansi.go) how long to wait, the tail tracker (Tracker, syncwrap.go) where it may cut, and it
--   wraps each batch as one synchronized update (Marker, syncwrap.go). Durations are numbers of
--   nanoseconds; an event of a timer that is not armed leaves the pump as it is.
-- * Screen is internal/screen. Style, Utf8, Vt, Csi and Feed are vt.go, the model of the child's
--   terminal: `feed` is `VT.Feed`. `none` is an index out of range, on which the source panics. An
--   int of a control sequence is its bit pattern below 2 ^ 64; sizes and cursor are natural
--   numbers. The width table (`runewidth.RuneWidth`) is a parameter. Scroll is the viewport of
--   scroll.go over the history and the visible rows, Text the rows as text (vt.go), Render a row
--   as bytes that draw it and Frame the viewport (scroll.go, `appendRow`, `RenderANSI`), Flush
--   the collector of scrolled-out lines of flush.go, and Status what status.go reads off the rows.
-- * Tmux is internal/tmuxcc, the client of tmux's control mode: Layout is layout.go, Forwarder is
--   renderer.go, Octal is `DecodeOctalEscapes` of protocol.go and the escapes of input.go,
--   Protocol is `ParseLine`, and Text has the functions of Go's package strings that they call.
-- * Monitor is internal/monitor: Limit is limit.go, the watcher that tells of a session's usage;
--   Resume is resume.go, the times at which paused sessions go on; Session is the key and the
--   directory of internal/scanner; Windows is the manager of internal/tmux, over a tmux that is a
--   parameter; Sync is `SyncOnce` and Tick a turn of `RunLoop` (monitor.go), which uses all of
--   these.
-- * Wire is the frames that a client (internal/client, `sendResize`, `sendScroll`, `sendImage`)
--   sends to the proxy (internal/ptyproxy/server.go, `parseClientInput`): `turn` is one turn of
--   its loop.
-- * Keys is the dispatch of input: Input is internal/screen/input.go, Host is `HandleHostInput`
--   (server.go), Client is `processStdin` and the input loop of internal/client/client.go, whose
--   writes may fail; Same relates the two.
-- * Proxy is the other side of server.go: Clients has the connections, the frames that are drawn
--   for them (Screen/Frame, `RenderANSI`) and the hold of frames within an update, and counts clients
--   with no bound where the source has 32 bits; `serve` there is an order of events of choice; StatusFile is
--   statuswriter.go, which reads Screen/Status; Idle and Sweep are internal/diag/idlegc.go, sweep.go
--   and list.go, over a directory as its entries.
-- * Config is internal/config: Values the settings, Load and Keyspec config.go, Clouds clouds.go,
--   Number the readings of numbers of package strconv.
-- * Cloud is internal/cloud: Push, Pairing, Grant and Registry are state/state.go over Firestore,
--   an interface (Store) with the documented laws of the service and an implementation in memory,
--   and with reads that fail at places of choice (`with_faults`);
--   Reconcile is agent/remotesync.go; Commands is state/commands.go with agent/commands.go below it
--   (Runner), the queue of remote commands, whose claim is one step since it is a transaction; and
--   Restart is agent/proxyrestart.go.
-- * Update is internal/selfupdate, over the disk as what three paths hold; which calls of package os
--   fail is a parameter.
-- * Base has the tests, list functions, maps and lemmas that all share; Scenarios has concrete
--   inputs.
--
-- Loops are structural recursion, with a count of bytes to pass over where the source moves its
-- index further on. These take fuel: `strip_loop` the length of its input and `turns` one more,
-- since every round but the last uses up at least one byte; `parse_node` one more than the
-- length of the layout, since a child is shorter than its node; `digits` 10 or 20, the most
-- digits of 32 or 64 bits, or 4 in `itoa`. A map of Go is an association list with one entry for
-- a key; a loop over it takes its order.
--
-- Not modelled: sockets, processes, files and clocks; the listeners and the relay of internal/cloud;
-- the session log and the clipboard of the proxy; the dashboard and the commands of the monitor;
-- the texts of errors, and the command line.
pub mod Base
pub mod TtySync
pub mod Screen
pub mod Tmux
pub mod Monitor
pub mod Wire
pub mod Cloud
pub mod Config
pub mod Keys
pub mod Proxy
pub mod Update
pub mod Scenarios
