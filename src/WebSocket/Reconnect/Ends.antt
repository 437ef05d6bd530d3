-- ===== src/WebSocket/Reconnect/Ends.antt =====
-- In which states `reconnect_with_retry` (python/hypha_rpc/websocket_client.py) ends.
use hypha_rpc.Prelude.{
  ℕ, zero, suc, ◌+◌, ◌-◌, ◌<◌, ◌≤◌, ◌≡◌, refl, ◌⊎◌, inl, inr, true, false, ◌&&◌, not, Option, List,
  [], ◌∷◌, ◌++◌, arith, ltb, length, length-append, String,
}
use hypha_rpc.WebSocket.{next_reconnect_retry, emit_message, timed_out, connection_error}
use hypha_rpc.WebSocket.Reconnect.Rule.{
  OnAfter, OnAfter-if, OnAfter-then_after, OnAfter-finish, retry_loop-Stop, Stop-if,
}
use hypha_rpc.WebSocket.Reconnect.{
  SocketState, opened, Link, Attempt, connected, not_implemented, refused, failed, Meanwhile,
  cancelled, woke, Round, After, again, attempt_once, after_sleep, round, retry_loop, wait_for_flap,
  reconnect_with_retry, slept, backoff, give_up, is_open, max_exponent, die,
}

-- No sender is left to wait on a connection that is neither open nor closed, unless the
-- reconnection died of an OverflowError.
abbrev pub IsSettled : Link → Type 0
IsSettled l =
    (l.pending ≡ false) ⊎ (l.is_closed ≡ true) ⊎ (is_open l.socket ≡ true) ⊎ (l.overflowed ≡ true)

abbrev Any : Link → Type 0
Any l = Unit {0}

abbrev Settles : After → Type 0
Settles = OnAfter IsSettled Any

Settles-attempt_once : (a : Attempt) (l : Link) → Settles (attempt_once a l)
unfolding attempt_once
Settles-attempt_once (connected s ok) l =
    OnAfter-if IsSettled Any (is_open s && ok) _ _ (λ e. inl refl) (λ e. tt)
Settles-attempt_once not_implemented l = inl refl
Settles-attempt_once (refused reason) l = inl refl
Settles-attempt_once (failed s) l = tt

Settles-after_sleep : (m : Meanwhile) (l : Link) → Settles (after_sleep m l)
unfolding after_sleep
Settles-after_sleep cancelled l = inl refl
Settles-after_sleep (woke s c) l =
    OnAfter-if IsSettled Any (is_open s) _ _ (λ e. inr (inr (inl e)))
      (λ _. OnAfter-if IsSettled Any c _ _ (λ e. inr (inl e)) (λ _. tt))

Settles-wait_for_flap : (m : Meanwhile) (l : Link) → Settles (wait_for_flap m l)
unfolding wait_for_flap
Settles-wait_for_flap cancelled l = inl refl
Settles-wait_for_flap (woke s c) l =
    OnAfter-if IsSettled Any c _ _ (λ e. inr (inl e))
      (λ _. OnAfter-if IsSettled Any (is_open s) _ _ (λ _. inl refl) (λ _. tt))

Settles-round : (r : Round) (retry : ℕ) (l : Link) → Settles (round r retry l)
unfolding round
Settles-round r retry l =
    OnAfter-then_after IsSettled Any Any (attempt_once r.attempt l) _
      (Settles-attempt_once r.attempt l)
      (λ l' _.
        OnAfter-if IsSettled Any (ltb retry max_exponent) _ _
          (λ _. Settles-after_sleep r.meanwhile _) (λ _. inr (inr (inr refl))))

IsSettled-give_up : (l : Link) → IsSettled (give_up l)
IsSettled-give_up l = Stop-if IsSettled Any l.is_closed _ _ (λ e. inr (inl e)) (λ _. inl refl)

-- However the attempts, the sleeps and the application behave, a reconnection ends, and when it does
-- the waiting senders were released, or the connection is closed, or it is open, or the computation
-- of a delay raised an OverflowError.
pub reconnect_with_retry-IsSettled :
    (now : ℕ) (first : Round) (world : ℕ → Round) (l : Link)
    → IsSettled (reconnect_with_retry now first world l)
unfolding reconnect_with_retry
reconnect_with_retry-IsSettled now first world l =
    let (retry, flaps) = next_reconnect_retry now l.flaps in
    OnAfter-finish IsSettled Any _ _
      (OnAfter-if IsSettled Any (ltb 0 retry && not l.is_closed) _ _
        (λ _.
          OnAfter-if IsSettled Any (ltb (retry - 1) max_exponent) _ _
            (λ _. Settles-wait_for_flap first.meanwhile _) (λ _. inr (inr (inr refl))))
        (λ _. tt))
      (λ l' _.
        retry_loop-Stop IsSettled Any world _ retry l' (λ n k _. Settles-round (world n) n k)
          (λ k _ e. inr (inl e)) (λ k _. IsSettled-give_up k) tt)

-- A world in which every attempt fails and nothing else opens or closes the connection.
pub record Fails (world : ℕ → Round) : Type 0 where
  pub before : ℕ → SocketState
  pub after : ℕ → SocketState
  pub fails : (n : ℕ) → (world n).attempt ≡ failed (before n)
  pub sleeps : (n : ℕ) → (world n).meanwhile ≡ woke (after n) false
  pub not_open : (n : ℕ) → is_open (after n) ≡ false

-- The connection after a failed round.
abbrev down : SocketState → ℕ → Link → Link
down s delay l = record (slept delay l) { socket = s; is_closed = false }

round_of_Fails :
    (world : ℕ → Round) (w : Fails world) (n : ℕ) (l : Link)
    → n < max_exponent
    → round (world n) n l ≡ again (down (w.after n) (backoff n (world n).jitter) l)
unfolding round attempt_once after_sleep
round_of_Fails world w n l h = ground (arith, w.fails n, w.sleeps n, w.not_open n)

length-snoc : (xs : List ℕ) (x : ℕ) → length (xs ++ x ∷ []) ≡ length xs + 1
length-snoc xs x = omega (arith, length-append xs (x ∷ []))

retry_loop_of_Fails :
    (world : ℕ → Round) (w : Fails world) (left retry : ℕ) (l : Link)
    → l.is_closed ≡ false
    → retry < max_exponent
    → retry_loop world (suc left) retry l
      ≡ retry_loop world left
          (retry + 1)
          (down (w.after retry) (backoff retry (world retry).jitter) l)
unfolding retry_loop
retry_loop_of_Fails world w left retry l alive h =
    ground (arith, alive, round_of_Fails world w retry l h)

-- The round that has no delay.
retry_loop_of_overflow :
    (world : ℕ → Round) (w : Fails world) (left retry : ℕ) (l : Link)
    → l.is_closed ≡ false
    → max_exponent ≤ retry
    → retry_loop world (suc left) retry l ≡ die (record l { socket = w.before retry })
unfolding retry_loop round attempt_once
retry_loop_of_overflow world w left retry l alive h = ground (arith, alive, w.fails retry)

-- While every attempt fails, a loop with 1024 retries or fewer behind it, and with more left than are
-- missing to 1024, sleeps once for each retry below the 1024th, and then dies of the OverflowError
-- of a delay: the connection is not closed, the senders that wait for it are not released and
-- the application is not notified.
pub retry_loop-overflows :
    (world : ℕ → Round) (left short retry : ℕ) (l : Link)
    → Fails world
    → l.is_closed ≡ false
    → retry + short ≡ max_exponent
    → short < left
    → let l' = retry_loop world left retry l in
      (l'.overflowed ≡ true)
      × (l'.is_closed ≡ false)
      × (l'.pending ≡ l.pending)
      × (l'.notices ≡ l.notices)
      × (length l'.sleeps ≡ length l.sleeps + short)
retry_loop-overflows world zero short retry l w alive h k = absurd (omega (arith, k))
retry_loop-overflows world (suc left) zero retry l w alive h k =
    rw (retry_loop_of_overflow world w left retry l alive (omega (arith, h)))
      (refl, alive, refl, refl, omega arith)
retry_loop-overflows world (suc left) (suc short) retry l w alive h k =
    let l1 = down (w.after retry) (backoff retry (world retry).jitter) l in
    let (dies, open_still, waiting, told, counted) =
      retry_loop-overflows world left short (retry + 1) l1 w refl (omega (arith, h))
        (omega (arith, k)) in
    rw (retry_loop_of_Fails world w left retry l alive (omega (arith, h))) (
      dies,
      open_still,
      waiting,
      told,
      omega (arith, counted, length-snoc l.sleeps (backoff retry (world retry).jitter)),
    )

-- If the socket is open though the attempt failed, and still is after the sleep, the loop ends
-- without releasing the senders that wait for it; their wait times out, which they report as a
-- lost connection.
pub retry_loop-keeps_waiting :
    (world : ℕ → Round) (left retry : ℕ) (l : Link) (open_error send_error : Option String)
    → l.is_closed ≡ false
    → l.pending ≡ true
    → (world retry).attempt ≡ failed opened
    → (world retry).meanwhile ≡ woke opened false
    → let l' = retry_loop world (suc left) retry l in
      (is_open l'.socket ≡ true)
      × (l'.pending ≡ true)
      × (emit_message (record { closed = false; connected = false }) timed_out open_error send_error
          ≡ connection_error "WebSocket reconnection timed out")
unfolding retry_loop round attempt_once after_sleep emit_message
retry_loop-keeps_waiting world left retry l open_error send_error alive waits fails wakes =
    ground (arith, alive, waits, fails, wakes)
