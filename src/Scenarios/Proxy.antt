-- ===== src/Scenarios/Proxy.antt =====
-- A client that arrives at a proxy and whose connection then fails.
use claude_master_go.Base.{
  ℕ, ◌≡◌, refl, Bool, true, false, Option, none, some, List, [], ◌∷◌, ℤ, pos,
}
use claude_master_go.Screen.Vt.{new_model}
use claude_master_go.Screen.Scroll.{new_scroll_renderer}
use claude_master_go.Proxy.Clients.{Server, Event, arrived, panned, serve, serve_all}
use claude_master_go.Proxy.Clients.Count.{IsCounted, serve_all-IsCounted}

abbrev empty_server : Server
empty_server = record {
  vt = new_model 4 2;
  clients = [];
  counters = record { connected = pos 0; last_disconnect = 0 };
  sync_start = none;
  sync_timer = none;
  stopped = false;
  host_sr = new_scroll_renderer;
  host_rows = 2;
  host_cols = 4;
  has_host = false;
}

abbrev width : ℕ → ℕ
width c = 1

abbrev story : List (ℕ × ((ℕ → Bool) × Event))
story = (1, (λ k. true, arrived 7)) ∷ (2, (λ k. false, panned 7 (pos 1))) ∷ []

abbrev afterwards : Server
afterwards = record empty_server { counters = record { connected = pos 0; last_disconnect = 2 } }

serve_all-IsCounted_example : IsCounted afterwards
unfolding serve_all serve claude_master_go.Proxy.Clients.change_client
    claude_master_go.Proxy.Clients.find claude_master_go.Proxy.Clients.accept
    claude_master_go.Proxy.Clients.render_client claude_master_go.Proxy.Clients.store
    claude_master_go.Proxy.Clients.client_gone claude_master_go.Proxy.Clients.has_client
    claude_master_go.Proxy.Clients.without claude_master_go.Proxy.Clients.on_disconnect
    claude_master_go.Proxy.Clients.is_positive claude_master_go.Base.down
    claude_master_go.Proxy.Clients.on_connect claude_master_go.Base.up
serve_all-IsCounted_example =
    serve_all-IsCounted width story empty_server afterwards (record { count = refl }) refl
