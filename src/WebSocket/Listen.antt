-- ===== src/WebSocket/Listen.antt =====
-- `_listen` with its `finally` part, and `disconnect` (python/hypha_rpc/websocket_client.py). What
-- arrives, `json.loads` and how the socket closes are inputs. `_enable_reconnect` is left out: `_listen`
-- sets it and nothing resets it. A missing close reason is an empty text.
pub mod Frames
pub mod Lost
use hypha_rpc.Prelude.{
  ℕ, ◌+◌, String, Bool, true, false, ◌&&◌, ◌||◌, not, Option, none, some, List, [], ◌∷◌, ◌++◌,
  if◌then◌else◌, ◌==◌,
}
use hypha_rpc.WebSocket.Reconnect.{
  SocketState, absent, closed, Link, notify, Round, reconnect_with_retry,
}
use hypha_rpc.WebSocket.Open.{
  Connection, cleanup, cancel_listener, with_socket, is_down, is_lost, or_closed,
}

-- A JSON object from the server, by its "type".
pub data Notice : Type 0 where
  new_token : Option String → Notice
  pong : Notice
  unknown : Notice

pub data Frame : Type 0 where
  text : String → Frame
  binary : List ℕ → Frame

-- A frame, with the state of the socket and of `_closed` after it was handled.
pub record Received : Type 0 where
  pub frame : Frame
  pub socket_then : SocketState
  pub closed_then : Bool

-- The same when the loop is left by an exception, of `recv` or of the JSON parser.
pub record Ending : Type 0 where
  pub socket_at_end : SocketState
  pub closed_at_end : Bool
  pub close_reason : String

pub record Listener : Type 0 where
  pub connection : Connection
  -- what `_handle_message` was called with, newest last
  pub handled : List (List ℕ)

-- while not self._closed and not self._websocket.state == State.CLOSED
abbrev pub goes_on : Link → Bool
goes_on l = not l.is_closed && not (is_down l.socket)

abbrev pub with_state : SocketState → Bool → Connection → Connection
with_state s b c = record c { link = record c.link { socket = s; is_closed = b } }

abbrev pub take_notice : Option Notice → Connection → Connection
take_notice (some (new_token t)) c = record c { reconnection_token = t }
take_notice _ c = c

-- The `finally` part: the application is told, and a connection that was lost starts a
-- reconnection that senders wait for.
abbrev pub finish : String → Connection → Connection
finish reason c =
    if is_lost c.link
    then record c {
      link = record (notify reason c.link) { pending = true };
      reconnect_tasks = c.reconnect_tasks + 1;
    }
    else record c { link = notify (or_closed reason) c.link }

-- The end of the loop: another wait, unless the loop ended by itself.
abbrev pub end_loop : Ending → Connection → Connection
end_loop e c =
    finish e.close_reason
      (if goes_on c.link then with_state e.socket_at_end e.closed_at_end c else c)

abbrev is_some : Option Notice → Bool
is_some none = false
is_some (some n) = true

module _ (loads : String → Option Notice) where
  -- Whether the frame is handled without an error that ends the loop.
  abbrev pub readable : Frame → Bool
  readable (text t) = is_some (loads t)
  readable (binary b) = true

  abbrev pub handle_frame : Frame → Listener → Listener
  handle_frame (text t) l = record l { connection = take_notice (loads t) l.connection }
  handle_frame (binary b) l = record l { handled = l.handled ++ b ∷ [] }

  abbrev pub receive : Received → Listener → Listener
  receive r l =
      let l' = handle_frame r.frame l in
      record l' { connection = with_state r.socket_then r.closed_then l'.connection }

  -- The `while` loop, on the frames that arrive.
  unfoldable pub listen_loop : List Received → Listener → Listener
  listen_loop [] l = l
  listen_loop (r ∷ rs) l =
      let rest : Listener → Listener = λ k. listen_loop rs k in
      let k = receive r l in
      if goes_on l.connection.link then (if readable r.frame then rest k else k) else l

  -- `_listen`
  unfoldable pub listen : List Received → Ending → Listener → Listener
  unfolding listen_loop
  listen rs e l =
      let start = record l {
        connection = with_state l.connection.link.socket false l.connection;
      } in
      let l' = listen_loop rs start in record l' { connection = end_loop e l'.connection }

  -- A connection from its first frame to the end of the reconnection that its loss starts.
  unfoldable pub listen_and_reconnect :
      List Received → Ending → ℕ → Round → (ℕ → Round) → Listener → Link
  unfolding listen reconnect_with_retry
  listen_and_reconnect rs e now first world l =
      let c = (listen rs e l).connection in
      if is_lost c.link then reconnect_with_retry now first world c.link else c.link

-- `disconnect` by the application; how the socket is after its close, if it was not closed before, and
-- the reason that it gives.
unfoldable pub disconnect : SocketState → String → Connection → Connection
unfolding cancel_listener
disconnect after reason c =
    let s = elim c.link.socket as (λ _. SocketState) [
      | absent ↦ absent
      | closed ↦ closed
      | _ ↦ after
    ] in
    cleanup false reason (with_state s true c)
