-- ===== src/WebSocket/Open/Ready.antt =====
-- What `_open_impl` (python/hypha_rpc/websocket_client.py) leaves behind on each of its ends.
use hypha_rpc.Prelude.{
  ℕ, ◌*◌, ◌≤◌, String, ◌≡◌, true, false, some, [], ◌∷◌, ◌++◌, if◌then◌else◌, arith,
}
use hypha_rpc.WebSocket.Reconnect.{opened}
use hypha_rpc.WebSocket.Open.{
  Info, World, Step, done, fails, Connection, cancel_listener, workspace_matches, token_after,
  auth_info,
}

-- No task of the connection runs but the reconnection that called `open`, if one did.
abbrev pub IsIdle : World → Connection → Type 0
IsIdle w c =
    (c.refresh_token_task ≡ false)
    × (c.app_ping_task ≡ false)
    × (c.listen_task ≡ false)
    × (c.reconnect_tasks ≡ (if w.reconnecting then 1 else 0))

-- The connection is listened to, as the info told, and the token is refreshed in time.
pub record Ready (w : World) (before : Connection) (i : Info) (c : Connection) : Type 0 where
  pub is_opened : c.link.socket ≡ opened
  pub listens : c.listen_task ≡ true
  pub right_workspace : workspace_matches before.workspace i.workspace ≡ true
  pub knows : c.info ≡ some i
  pub since : c.link.flaps.last_connected_time ≡ some w.now
  pub has_token : c.reconnection_token ≡ token_after i before.reconnection_token
  pub authenticated : c.sent ≡ before.sent ++ auth_info before ∷ []
  pub in_time :
      (life : ℕ) → i.reconnection_token_life_time ≡ some life → c.token_refresh_interval ≤ 2 * life

-- What the end of an opening says of the connection.
abbrev pub OpenEnds : World → Connection → Step Info × Connection → Type 0
OpenEnds w before (done i, c) = Ready w before i c
OpenEnds w before (fails e, c) = IsIdle w c

-- A listener that is cancelled leaves the socket and `_closed` as they were.
pub cancel_listener_keeps :
    (reason : String) (c : Connection)
    → ((cancel_listener reason c).link.socket ≡ c.link.socket)
      × ((cancel_listener reason c).link.is_closed ≡ c.link.is_closed)
unfolding cancel_listener
cancel_listener_keeps reason c = (ground arith, ground arith)

-- A connection that still has to authenticate.
record Fresh (before c : Connection) : Type 0 where
  same_workspace : c.workspace ≡ before.workspace
  same_token : c.reconnection_token ≡ before.reconnection_token
  same_auth : auth_info c ≡ auth_info before
  nothing_sent : c.sent ≡ before.sent
