-- ===== src/WebSocket/Open.antt =====
-- `_attempt_connection`, `_open_impl` and `_cleanup` (python/hypha_rpc/websocket_client.py). The
-- server's answers and `json.loads` are parameters. Token refresh intervals are in thirds of a
-- second, so that the life time of a token, in seconds, divided by 1.5 is a whole number of them.
pub mod Ready
pub mod Stranded
use Prim.Native.String.{◌++◌ as concat}
use hypha_rpc.Prelude.{
  ℕ, ◌+◌, ◌*◌, String, Bool, true, false, ◌&&◌, not, Option, none, some, List, [], ◌∷◌, ◌++◌,
  if◌then◌else◌, ltb, nat_eq, ◌==◌,
}
use hypha_rpc.WebSocket.{Flaps}
use hypha_rpc.WebSocket.Reconnect.{
  SocketState, absent, opened, closed, Link, notify, Attempt, connected, not_implemented, refused,
  failed,
}

-- The message that tells what the connection is; a key with the value null counts as missing.
pub record Info : Type 0 where
  pub workspace : Option String
  pub reconnection_token : Option String
  pub reconnection_token_life_time : Option ℕ
  pub manager_id : Option String

-- A JSON object by its "type": connection_info, error (with its "message"), or another.
pub data First : Type 0 where
  connection_info : Info → First
  error : Option String → First
  unexpected : First

-- What `recv` comes to before the connection info.
pub data Reply : Type 0 where
  binary : Reply
  text : String → Reply
  -- a timeout or a lost connection, with the state of the socket by then
  lost : SocketState → String → Reply

-- What `websockets.connect` comes to.
pub data Connect : Type 0 where
  accepted : Connect
  -- InvalidStatus
  status : ℕ → Connect
  unreachable : String → Connect

pub data Raised : Type 0 where
  legacy_authentication : Raised
  -- ConnectionAbortedError
  aborted : String → Raised
  raised : String → Raised

pub record Auth : Type 0 where
  pub auth_client_id : String
  pub auth_workspace : Option String
  pub auth_token : Option String
  pub auth_reconnection_token : Option String

pub record Connection : Type 0 where
  pub link : Link
  pub server_url : String
  pub client_id : String
  pub workspace : Option String
  pub token : Option String
  pub reconnection_token : Option String
  pub info : Option Info
  pub manager_id : Option String
  pub token_refresh_interval : ℕ
  pub ping_interval : ℕ
  -- which tasks run
  pub refresh_token_task : Bool
  pub app_ping_task : Bool
  pub listen_task : Bool
  pub reconnect_tasks : ℕ
  -- the authentications that were sent, newest last
  pub sent : List Auth

-- The server and the application while one connection is opened.
pub record World : Type 0 where
  pub connect : String → Connect
  -- what the send of the authentication raises, with the state of the socket by then
  pub send_error : Option (SocketState × String)
  pub replies : List Reply
  -- what the handler of `on_connected` raises, with the state of the socket by then
  pub handler_error : Option (SocketState × String)
  -- the new listener had begun when the handler raised
  pub listener_begun : Bool
  -- what the socket gives as the reason of its close, which may be empty
  pub close_reason : String
  -- a task of a reconnection calls `open`
  pub reconnecting : Bool
  pub now : ℕ

pub data Step (A : Type 0) : Type 0 where
  done : A → Step A
  fails : Raised → Step A

abbrev pub with_socket : SocketState → Connection → Connection
with_socket s c = record c { link = record c.link { socket = s } }

-- if self._client_id: query_params_list.append(...)
abbrev query_param : String → Option String → List String
query_param name none = []
query_param name (some v) = if v == "" then [] else concat name (concat "=" v) ∷ []

-- "&".join(...)
unfoldable pub join_params : List String → String
join_params [] = ""
join_params (p ∷ []) = p
join_params (p ∷ ps) = concat p (concat "&" (join_params ps))

-- The url of `_attempt_connection_with_query_params`.
unfoldable pub full_url : Connection → String
unfolding join_params
full_url c =
    let query_string = join_params (
      query_param "client_id" (some c.client_id)
      ++ query_param "workspace" c.workspace
      ++ query_param "token" c.token
      ++ query_param "reconnection_token" c.reconnection_token) in
    if query_string == "" then c.server_url else concat c.server_url (concat "?" query_string)

abbrev connection_failed : Connect → Step Bool → Step Bool
connection_failed accepted legacy = legacy
connection_failed (status n) legacy = fails (raised "InvalidStatus")
connection_failed (unreachable e) legacy = fails (raised e)

-- `_attempt_connection`, with whether the authentication is the legacy one.
unfoldable pub attempt_connection : (String → Connect) → Connection → Step Bool
unfolding full_url
attempt_connection connect c = elim (connect c.server_url) [
  | accepted ↦ done false
  | unreachable e ↦ fails (raised e)
  | status n ↦
      if nat_eq n 403
      then connection_failed (connect (full_url c)) (done true)
      else fails (raised "InvalidStatus")
]

abbrev pub is_down : SocketState → Bool
is_down closed = true
is_down _ = false

abbrev is_absent : SocketState → Bool
is_absent absent = true
is_absent _ = false

-- not self._closed and self._websocket.state == State.CLOSED
abbrev pub is_lost : Link → Bool
is_lost l = not l.is_closed && is_down l.socket

abbrev pub or_closed : String → String
or_closed reason = if reason == "" then "Connection closed" else reason

-- The end of a listener that is cancelled: its `finally` part tells the application. Without a
-- websocket it raises before that. The reconnection that it starts for a lost connection is
-- cancelled before it begins, so that nothing sets the event that it made.
unfoldable pub cancel_listener : String → Connection → Connection
cancel_listener reason c =
    if not c.listen_task
    then c
    else if is_lost c.link
    then record c { link = record (notify (or_closed reason) c.link) { pending = true } }
    else if not c.link.is_closed && is_absent c.link.socket
    then c
    else record c { link = notify (or_closed reason) c.link }

-- `_cleanup`, with the event loop running. A reconnection that calls it, and so cancels itself,
-- swallows that and goes on; the other tasks end.
abbrev pub cleanup : Bool → String → Connection → Connection
cleanup reconnecting reason c = record (cancel_listener reason c) {
  refresh_token_task = false;
  app_ping_task = false;
  listen_task = false;
  reconnect_tasks = if reconnecting then 1 else 0;
}

abbrev pub auth_info : Connection → Auth
auth_info c = record {
  auth_client_id = c.client_id;
  auth_workspace = c.workspace;
  auth_token = c.token;
  auth_reconnection_token = c.reconnection_token;
}

-- if self._workspace: assert self.connection_info.get("workspace") == self._workspace
abbrev pub workspace_matches : Option String → Option String → Bool
workspace_matches none got = true
workspace_matches (some ws) none = ws == ""
workspace_matches (some ws) (some got) = if ws == "" then true else got == ws

abbrev pub token_after : Info → Option String → Option String
token_after i old = elim i.reconnection_token as (λ _. Option String) [
  | none ↦ old
  | some t ↦ some t
]

-- The interval, at most the life time divided by 1.5.
abbrev pub interval_after : Info → ℕ → ℕ
interval_after i old = elim i.reconnection_token_life_time as (λ _. ℕ) [
  | none ↦ old
  | some life ↦ if ltb (2 * life) old then 2 * life else old
]

-- What the connection info changes, up to the check of the workspace and after it.
abbrev pub informed : ℕ → Info → Connection → Connection
informed now i c = record c {
  link = record c.link { flaps = record c.link.flaps { last_connected_time = some now } };
  info = some i;
}

abbrev pub accepted_info : Info → Connection → Connection
accepted_info i c = record c {
  reconnection_token = token_after i c.reconnection_token;
  token_refresh_interval = interval_after i c.token_refresh_interval;
  manager_id = i.manager_id;
}

abbrev pub start_tasks : Connection → Connection
start_tasks c = record c {
  refresh_token_task = if ltb 0 c.token_refresh_interval then true else c.refresh_token_task;
  app_ping_task = if ltb 0 c.ping_interval then true else c.app_ping_task;
  listen_task = true;
}

-- The listener, if it has begun, has reset `_closed`; one that is cancelled before does nothing.
abbrev begin_listening : Bool → Connection → Connection
begin_listening true c = record c { link = record c.link { is_closed = false } }
begin_listening false c = record c { listen_task = false }

-- The clean-up of an opening that failed.
abbrev release_all : World → Connection → Connection
release_all w c = cleanup w.reconnecting w.close_reason c

module _ (loads : String → Option First) where
  -- The first text frame, and the state of the socket then; the binary ones before it are skipped.
  unfoldable pub read_first : List Reply → Step First × SocketState
  read_first [] = (fails (raised "timeout"), opened)
  read_first (binary ∷ rs) = read_first rs
  read_first (lost s e ∷ rs) = (fails (raised e), s)
  read_first (text t ∷ rs) =
      (elim (loads t) [ none ↦ fails (raised "JSONDecodeError") | some f ↦ done f ], opened)

  -- The end of `_open_impl`, from the first message on.
  unfoldable pub greet : World → First → Connection → Step Info × Connection
  greet w (connection_info i) c =
      if workspace_matches c.workspace i.workspace
      then elim w.handler_error as (λ _. Step Info × Connection) [
        | none ↦ (done i, start_tasks (accepted_info i (informed w.now i c)))
        | some (s, e) ↦ (
          fails (raised e),
          release_all w (
              begin_listening w.listener_begun
                (with_socket s (start_tasks (accepted_info i (informed w.now i c))))),
        )
      ]
      else (fails (raised "Connected to the wrong workspace"), release_all w (informed w.now i c))
  greet w (error (some e)) c = (fails (aborted e), release_all w c)
  greet w (error none) c = (fails (raised "message"), release_all w c)
  greet w unexpected c =
      (fails (aborted "Unexpected message received from the server"), release_all w c)

  -- `_open_impl`, from the first message on, or from what was raised in its place.
  abbrev pub respond : World → Step First × SocketState → Connection → Step Info × Connection
  respond w (fails e, s) c = (fails e, release_all w (with_socket s c))
  respond w (done f, s) c = greet w f (with_socket s c)

  abbrev pub authenticate :
      World → Option (SocketState × String) → Connection → Step Info × Connection
  authenticate w (some (s, e)) c = (fails (raised e), release_all w (with_socket s c))
  authenticate w none c =
      respond w (read_first w.replies) (record c { sent = c.sent ++ auth_info c ∷ [] })

  -- `_open_impl` after the attempt to connect.
  abbrev pub attempted : World → Step Bool → Connection → Step Info × Connection
  attempted w (fails e) c = (fails e, release_all w c)
  attempted w (done true) c = (fails legacy_authentication, release_all w (with_socket opened c))
  attempted w (done false) c = authenticate w w.send_error (with_socket opened c)

  -- `_open_impl`
  unfoldable pub open_impl : World → Connection → Step Info × Connection
  unfolding attempt_connection read_first greet cancel_listener
  open_impl w c = let c1 = with_socket absent c in attempted w (attempt_connection w.connect c1) c1

-- What a round of the reconnection gets from `open`, with the state of the socket after the half
-- second that follows and whether the services were registered.
abbrev pub attempt_of : Step Info × Connection → SocketState → Bool → Attempt
attempt_of (done i, c) s ok = connected s ok
attempt_of (fails legacy_authentication, c) s ok = not_implemented
attempt_of (fails (aborted reason), c) s ok = refused reason
attempt_of (fails (raised e), c) s ok = failed c.link.socket
