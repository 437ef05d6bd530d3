-- ===== src/WebSocket/Reconnect/Delays.antt =====
-- How long `reconnect_with_retry` (python/hypha_rpc/websocket_client.py) sleeps.
use hypha_rpc.Prelude.{ℕ, ◌≤◌, All}
use hypha_rpc.WebSocket.Reconnect.Rule.{OnAfter}
use hypha_rpc.WebSocket.Reconnect.{Link, Round, After}

-- A sleep of 0.9 to 66 seconds.
abbrev pub Bounded : ℕ → Type 0
Bounded d = (900 ≤ d) × (d ≤ 66000)

-- The jitter is at most a tenth in either direction.
abbrev pub Jitters : (ℕ → Round) → Type 0
Jitters world = (n : ℕ) → (world n).jitter ≤ 200

-- All the sleeps of a connection are bounded.
abbrev pub IsPaced : Link → Type 0
IsPaced l = All Bounded l.sleeps

abbrev Paced : After → Type 0
Paced = OnAfter IsPaced IsPaced
