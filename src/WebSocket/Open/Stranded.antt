-- ===== src/WebSocket/Open/Stranded.antt =====
-- An opening that fails after its socket was accepted (python/hypha_rpc/websocket_client.py).
use hypha_rpc.Prelude.{
  ℕ, suc, String, ◌≡◌, refl, Bool, true, false, Option, none, some, List, [], ◌∷◌, arith, All,
}
use hypha_rpc.WebSocket.{emit_message, timed_out, connection_error}
use hypha_rpc.WebSocket.Reconnect.{
  SocketState, opened, absent, Round, failed, woke, retry_loop, is_open,
}
use hypha_rpc.WebSocket.Reconnect.Ends.{retry_loop-keeps_waiting}
use hypha_rpc.WebSocket.Open.Ready.{cancel_listener_keeps}
use hypha_rpc.WebSocket.Open.{
  First, Reply, binary, text, lost, World, Step, fails, raised, Connection, accepted,
  attempt_connection, read_first, open_impl, attempt_of, Connect, done, authenticate, with_socket,
  Info,
}

abbrev pub IsBinary : Reply → Type 0
IsBinary binary = Unit {0}
IsBinary _ = ⊥

read_first-binary :
    (loads : String → Option First) (rs : List Reply)
    → All IsBinary rs
    → read_first loads rs ≡ (fails (raised "timeout"), opened)
unfolding read_first
read_first-binary loads [] h = refl
read_first-binary loads (binary ∷ rs) (h, hs) = read_first-binary loads rs hs
read_first-binary loads (text t ∷ rs) (h, hs) = absurd h
read_first-binary loads (lost s e ∷ rs) (h, hs) = absurd h

-- The opening fails, and its socket stays open.
abbrev TimesOut : Step Info × Connection → Type 0
TimesOut (r, c) =
    (r ≡ fails (raised "timeout")) × (c.link.socket ≡ opened) × (c.listen_task ≡ false)

attempt_connection-accepted :
    (connect : String → Connect) (c : Connection)
    → connect c.server_url ≡ accepted
    → attempt_connection connect c ≡ done false
unfolding attempt_connection
attempt_connection-accepted connect c a = ground (arith, a)

open_impl-TimesOut :
    (loads : String → Option First) (w : World) (c : Connection)
    → w.connect c.server_url ≡ accepted
    → w.send_error ≡ none
    → All IsBinary w.replies
    → TimesOut (open_impl loads w c)
unfolding open_impl
open_impl-TimesOut loads w c a n b =
    rw (attempt_connection-accepted w.connect (with_socket absent c) a)
      (Waits-authenticate w.send_error n)
  where
    Waits-authenticate :
        (e : Option (SocketState × String))
        → e ≡ none
        → TimesOut (authenticate loads w e (with_socket opened (with_socket absent c)))
    Waits-authenticate none q =
        rw (read_first-binary loads w.replies b)
          (refl, (cancel_listener_keeps w.close_reason _).0, refl)
    Waits-authenticate (some f) q = cc q

-- If the server accepts a socket and sends no connection info before the timeout, the opening fails
-- but the socket stays open and nobody listens to it. If it is still open after the sleep, the
-- reconnection takes it for a connection that was restored and ends, and the waiting senders are not
-- released; their wait times out.
pub retry_loop-strands :
    (loads : String → Option First) (w : World) (c : Connection) (world : ℕ → Round)
    (left retry : ℕ) (settled : SocketState) (services_ok : Bool)
    (open_error send_error : Option String)
    → w.connect c.server_url ≡ accepted
    → w.send_error ≡ none
    → All IsBinary w.replies
    → c.link.is_closed ≡ false
    → c.link.pending ≡ true
    → (world retry).attempt ≡ attempt_of (open_impl loads w c) settled services_ok
    → (world retry).meanwhile ≡ woke opened false
    → let l' = retry_loop world (suc left) retry c.link in
      ((open_impl loads w c).1.listen_task ≡ false)
      × (is_open l'.socket ≡ true)
      × (l'.pending ≡ true)
      × (emit_message (record { closed = false; connected = false }) timed_out open_error send_error
          ≡ connection_error "WebSocket reconnection timed out")
retry_loop-strands loads w c world left retry settled services_ok open_error send_error a n b alive
      waits attempt wakes =
    let (timeout, stays, deaf) = open_impl-TimesOut loads w c a n b in
    let (opens, waiting, times_out) =
      retry_loop-keeps_waiting world left retry c.link open_error send_error alive waits
        (cc (attempt, attempt_of_timeout (open_impl loads w c) timeout stays)) wakes in
    (deaf, opens, waiting, times_out)
  where
    attempt_of_timeout :
        (r : Step Info × Connection)
        → r.0 ≡ fails (raised "timeout")
        → r.1.link.socket ≡ opened
        → attempt_of r settled services_ok ≡ failed opened
    attempt_of_timeout r e o = ground (arith, e, o)
