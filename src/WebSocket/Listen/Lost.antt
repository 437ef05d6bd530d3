-- ===== src/WebSocket/Listen/Lost.antt =====
-- What the end of a connection means for the senders that wait (python/hypha_rpc/websocket_client.py).
use hypha_rpc.Prelude.{
  ℕ, zero, suc, ◌-◌, String, ◌≡◌, refl, true, false, ◌&&◌, not, Option, arith, Bool-cases, inl, inr,
  ◌∙◌, ap, ltb,
}
use hypha_rpc.WebSocket.{next_reconnect_retry, emit_message, connection_error, Wait}
use hypha_rpc.WebSocket.Reconnect.{
  SocketState, opened, Link, Round, connected, attempt_once, woke, leave, reconnect_with_retry,
  retry_loop, is_open, max_retry, after_sleep,
}
use hypha_rpc.WebSocket.Open.{Connection}
use hypha_rpc.WebSocket.Open.Ready.{cancel_listener_keeps}
use hypha_rpc.WebSocket.Listen.{disconnect}

retry_loop-closed :
    (world : ℕ → Round) (left retry : ℕ) (l : Link)
    → l.is_closed ≡ true
    → retry_loop world left retry l ≡ l
unfolding retry_loop
retry_loop-closed world zero retry l h = rw h refl
retry_loop-closed world (suc left) retry l h = rw h refl

reconnect_with_retry-closed :
    (now : ℕ) (first : Round) (world : ℕ → Round) (l : Link)
    → l.is_closed ≡ true
    → reconnect_with_retry now first world l
      ≡ record l { flaps = (next_reconnect_retry now l.flaps).1; overflowed = false }
unfolding reconnect_with_retry
reconnect_with_retry-closed now first world l h =
    let (retry, flaps) = next_reconnect_retry now l.flaps in
    rw (and_not retry, reconnect_with_retry)
      (retry_loop-closed world (max_retry - retry) retry
        (record l { flaps = flaps; overflowed = false }) h)
  where
    and_not : (retry : ℕ) → (ltb 0 retry && not l.is_closed) ≡ false
    and_not retry = ground (arith, h)

after_sleep-closed :
    (s : SocketState) (l : Link)
    → after_sleep (woke s true) l ≡ leave (record l { socket = s; is_closed = true })
unfolding after_sleep
after_sleep-closed s l = elim (Bool-cases (is_open s)) [ inl e ↦ rw e refl | inr e ↦ rw e refl ]

is_closed-disconnect :
    (after : SocketState) (reason : String) (c : Connection)
    → (disconnect after reason c).link.is_closed ≡ true
unfolding disconnect
is_closed-disconnect after reason c = (cancel_listener_keeps reason _).1

-- After the application disconnects, a message that is sent is refused, a reconnection that is
-- asleep and wakes up on the closed connection ends, and one that starts makes no attempt, does not
-- sleep and notifies nobody. One that gets through `open` all the same, with its services
-- registered, opens the connection again.
pub disconnect_lem :
    (after : SocketState) (reason : String) (c : Connection) (wait : Wait)
    (open_error send_error : Option String) (now : ℕ) (first : Round) (world : ℕ → Round)
    → let l = (disconnect after reason c).link in
      (emit_message (record { closed = l.is_closed; connected = false }) wait open_error send_error
        ≡ connection_error "Connection is closed")
      × ((s : SocketState) (k : Link)
          → after_sleep (woke s l.is_closed) k ≡ leave (record k { socket = s; is_closed = true }))
      × (reconnect_with_retry now first world l
          ≡ record l { flaps = (next_reconnect_retry now l.flaps).1; overflowed = false })
      × (attempt_once (connected opened true) l
          ≡ leave (record l { socket = opened; is_closed = false; pending = false }))
unfolding emit_message attempt_once
disconnect_lem after reason c wait open_error send_error now first world =
    let shut = is_closed-disconnect after reason c in
    (
      ground (arith, shut),
      λ s k. ap (λ b. after_sleep (woke s b) k) shut ∙ after_sleep-closed s k,
      reconnect_with_retry-closed now first world (disconnect after reason c).link shut,
      refl,
    )
