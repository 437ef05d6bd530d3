-- ===== src/WebSocket.antt =====
-- The WebSocket transport (class WebsocketRPCConnection in python/hypha_rpc/websocket_client.py): how
-- fast it reconnects, and what happens to a message that is sent without a connection. Times are in
-- milliseconds.
pub mod Reconnect
pub mod Open
pub mod Listen
use hypha_rpc.Prelude.{
  ℕ, ◌+◌, ◌-◌, ◌≤◌, ◌<◌, ◌≡◌, String, Bool, false, ◌&&◌, not, Option, none, some, List, [], ◌∷◌,
  if◌then◌else◌, ltb, nat_eq, arith, length, All,
}

pub record Flaps : Type 0 where
  pub flap_count : ℕ
  pub last_connected_time : Option ℕ

-- RECONNECT_FLAP_WINDOW
abbrev pub flap_window : ℕ
flap_window = 5000

-- `_next_reconnect_retry`, at a monotonic time that is not before the last connection; a time of
-- zero is no time.
unfoldable pub next_reconnect_retry : ℕ → Flaps → ℕ × Flaps
next_reconnect_retry now c =
    let flaps = elim c.last_connected_time as (λ _. Bool) [
      | none ↦ false
      | some t ↦ not (nat_eq t 0) && ltb (now - t) flap_window
    ] in
    let count = if flaps then c.flap_count + 1 else 0 in
    (count - 1, record c { flap_count = count })

pub record Socket : Type 0 where
  pub closed : Bool
  -- there is a websocket and its state is not CLOSED
  pub connected : Bool

-- What the wait for `_reconnected_event` comes to.
pub data Wait : Type 0 where
  -- no reconnection is in progress
  no_event : Wait
  timed_out : Wait
  -- the event came, with what the connection is by then
  reconnected : Socket → Wait

pub data Emitted : Type 0 where
  sent : Emitted
  connection_error : String → Emitted
  -- what `open` or the socket's `send` raised
  raised : String → Emitted

-- The direct `open`, if there is still no connection, and the send.
abbrev pub open_and_send : Socket → Option String → Option String → Emitted
open_and_send s open_error send_error = elim (if s.connected then none else open_error) [
  | some e ↦ raised e
  | none ↦ elim send_error [ none ↦ sent | some e ↦ raised e ]
]

-- `WebsocketRPCConnection.emit_message`
unfoldable pub emit_message : Socket → Wait → Option String → Option String → Emitted
emit_message s wait open_error send_error =
    if s.closed
    then connection_error "Connection is closed"
    else if s.connected
    then open_and_send s open_error send_error
    else elim wait [
      | timed_out ↦ connection_error "WebSocket reconnection timed out"
      | no_event ↦ open_and_send s open_error send_error
      | reconnected s' ↦
          if s'.closed
          then connection_error "Connection is closed"
          else open_and_send s' open_error send_error
    ]

-- Losses of the connection at the given times, each after a connection at the time before it.
unfoldable pub losses : List (ℕ × ℕ) → Flaps → Flaps
unfolding next_reconnect_retry
losses [] c = c
losses ((connected, lost) ∷ rest) c =
    losses rest (next_reconnect_retry lost (record c { last_connected_time = some connected })).1

-- A connection that was lost within the window after it was made.
abbrev pub IsFlap : ℕ × ℕ → Type 0
IsFlap (connected, lost) = (0 < connected) × (lost - connected < 5000)

-- After a number of losses in a row that are all flaps, a further flap gives the count before them
-- plus that number as the retry to start from, so the first flap of all starts from zero and each
-- further one starts higher; a loss that is no flap starts from zero and resets the count.
pub next_reconnect_retry-losses :
    (ls : List (ℕ × ℕ)) (connected lost : ℕ) (c : Flaps)
    → All IsFlap ls
    → 0 < connected
    → ((lost - connected < 5000)
        → (next_reconnect_retry lost
            (record (losses ls c) { last_connected_time = some connected })).0
          ≡ c.flap_count + length ls)
      × (5000 ≤ lost - connected
          → (next_reconnect_retry lost
              (record (losses ls c) { last_connected_time = some connected })).0
            ≡ 0)
      × ((losses ls c).flap_count ≡ c.flap_count + length ls)
unfolding next_reconnect_retry losses
next_reconnect_retry-losses ls connected lost c flaps start =
    let count = count-losses ls c flaps in
    ((λ h. ground (arith, count)), (λ h. ground arith), count)
  where
    count-losses :
        (ls : List (ℕ × ℕ)) (c : Flaps)
        → All IsFlap ls
        → (losses ls c).flap_count ≡ c.flap_count + length ls
    count-losses [] c flaps = omega arith
    count-losses ((a, b) ∷ ls) c flaps =
        let c' = (next_reconnect_retry b (record c { last_connected_time = some a })).1 in
        let one_more : c'.flap_count ≡ c.flap_count + 1 = ground (arith, flaps.0.0, flaps.0.1) in
        omega (arith, one_more, count-losses ls c' flaps.1)
