-- ===== src/Examples/Connection.antt =====
-- Connections that open, are lost and come back, or do not.
use hypha_rpc.Prelude.{
  ℕ, ◌+◌, String, ◌≡◌, refl, true, false, Option, none, some, List, [], ◌∷◌, ◌++◌, arith, length,
}
use hypha_rpc.WebSocket.{emit_message, timed_out, no_event, connection_error, next_reconnect_retry}
use hypha_rpc.WebSocket.Reconnect.{
  SocketState, absent, opened, closed, Link, failed, connected, attempt_once, woke, Round,
  retry_loop, reconnect_with_retry, is_open, after_sleep, leave,
}
use hypha_rpc.WebSocket.Reconnect.Ends.{Fails, retry_loop-overflows}
use hypha_rpc.WebSocket.Open.{
  Info, First, connection_info, binary, text, accepted, World, Connection, open_impl,
  attempt_connection, read_first,
}
use hypha_rpc.WebSocket.Open.Stranded.{retry_loop-strands}
use hypha_rpc.WebSocket.Listen.{
  Notice, new_token, Frame, Received, Ending, Listener, listen, disconnect,
}
use hypha_rpc.WebSocket.Listen.Frames.{binaries, heard, last_token, listen_lem}
use hypha_rpc.WebSocket.Listen.Lost.{disconnect_lem}

abbrev lost : Link
lost = record {
  socket = closed;
  is_closed = false;
  pending = true;
  flaps = record { flap_count = 3; last_connected_time = some 1000 };
  notices = [];
  sleeps = [];
  overflowed = false;
}

abbrev no_luck : Round
no_luck = record { attempt = failed absent; meanwhile = woke absent false; jitter = 100 }

no_luck-Fails : Fails (λ n. no_luck)
no_luck-Fails = record {
  before = λ n. absent;
  after = λ n. absent;
  fails = λ n. refl;
  sleeps = λ n. refl;
  not_open = λ n. refl;
}

retry_loop-overflows_example :
    let l' = retry_loop (λ n. no_luck) 10 1022 lost in
    (l'.overflowed ≡ true)
    × (l'.is_closed ≡ false)
    × (l'.pending ≡ true)
    × (l'.notices ≡ [])
    × (length l'.sleeps ≡ length {A = ℕ} [] + 2)
retry_loop-overflows_example =
    retry_loop-overflows (λ n. no_luck) 10 2 1022 lost no_luck-Fails refl refl (omega arith)

abbrev ours : Connection
ours = record {
  link = lost;
  server_url = "wss://hypha/ws";
  client_id = "me";
  workspace = some "ws";
  token = some "t";
  reconnection_token = none;
  info = none;
  manager_id = none;
  token_refresh_interval = 21600;
  ping_interval = 20;
  refresh_token_task = false;
  app_ping_task = false;
  listen_task = false;
  reconnect_tasks = 1;
  sent = [];
}

abbrev told : Info
told = record {
  workspace = some "ws";
  reconnection_token = some "t2";
  reconnection_token_life_time = some 3600;
  manager_id = none;
}

abbrev first_of : String → Option First
first_of t = some (connection_info told)

abbrev good_server : World
good_server = record {
  connect = λ u. accepted;
  send_error = none;
  replies = binary ∷ text "{...}" ∷ [];
  handler_error = none;
  listener_begun = false;
  close_reason = "";
  reconnecting = true;
  now = 5000;
}

-- A server that takes the socket and says nothing.
abbrev mute_server : World
mute_server = record good_server { replies = binary ∷ [] }

abbrev strands : Round
strands = record { attempt = failed opened; meanwhile = woke opened false; jitter = 100 }

retry_loop-strands_example :
    let l' = retry_loop (λ n. strands) 10 2 lost in
    ((open_impl first_of mute_server ours).1.listen_task ≡ false)
    × (is_open l'.socket ≡ true)
    × (l'.pending ≡ true)
    × (emit_message (record { closed = false; connected = false }) timed_out none none
        ≡ connection_error "WebSocket reconnection timed out")
unfolding open_impl attempt_connection read_first
retry_loop-strands_example =
    retry_loop-strands first_of mute_server ours (λ n. strands) 9 2 opened true none none refl refl
      (tt, tt) refl refl refl refl

abbrev notice_of : String → Option Notice
notice_of t = some (new_token (some t))

abbrev listening : Listener
listening = record {
  connection = record ours { link = record lost { socket = opened; pending = false } };
  handled = [];
}

abbrev while_open : Frame → Received
while_open f = record { frame = f; socket_then = opened; closed_then = false }

abbrev frames : List Received
frames =
    while_open (Frame.binary (1 ∷ []))
    ∷ while_open (Frame.text "t3")
    ∷ while_open (Frame.binary (2 ∷ []))
    ∷ []

abbrev server_leaves : Ending
server_leaves = record { socket_at_end = closed; closed_at_end = false; close_reason = "restart" }

listen_example :
    ((listen notice_of frames server_leaves listening).handled
      ≡ [] ++ binaries (heard notice_of frames))
    × ((listen notice_of frames server_leaves listening).connection.reconnection_token
        ≡ last_token notice_of (heard notice_of frames) none)
listen_example = listen_lem notice_of frames server_leaves listening refl

disconnect_example :
    let l = (disconnect closed "" listening.connection).link in
    (emit_message (record { closed = l.is_closed; connected = false }) no_event none none
      ≡ connection_error "Connection is closed")
    × ((s : SocketState) (k : Link)
        → after_sleep (woke s l.is_closed) k ≡ leave (record k { socket = s; is_closed = true }))
    × (reconnect_with_retry 9000 no_luck (λ n. no_luck) l
        ≡ record l { flaps = (next_reconnect_retry 9000 l.flaps).1; overflowed = false })
    × (attempt_once (connected opened true) l
        ≡ leave (record l { socket = opened; is_closed = false; pending = false }))
disconnect_example =
    disconnect_lem closed "" listening.connection no_event none none 9000 no_luck (λ n. no_luck)
