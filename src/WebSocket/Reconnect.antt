-- ===== src/WebSocket/Reconnect.antt =====
-- `reconnect_with_retry` (python/hypha_rpc/websocket_client.py). Times are in milliseconds. What the
-- server, the sleeping task and the application do in each round is an input.
pub mod Rule
pub mod Delays
pub mod Ends
use Prim.Native.String.{◌++◌ as concat}
use hypha_rpc.Prelude.{
  ℕ, zero, suc, ◌+◌, ◌-◌, ◌*◌, ◌/◌, ◌^◌, min, max, String, Bool, true, false, ◌&&◌, not, Option,
  none, some, List, [], ◌∷◌, ◌++◌, if◌then◌else◌, ltb,
}
use hypha_rpc.WebSocket.{Flaps, next_reconnect_retry}

-- There is no websocket, or the state of the one there is.
pub data SocketState : Type 0 where
  absent connecting opened closing closed : SocketState

abbrev pub is_open : SocketState → Bool
is_open opened = true
is_open _ = false

pub record Link : Type 0 where
  pub socket : SocketState
  -- `_closed`
  pub is_closed : Bool
  -- there is a `_reconnected_event`, that senders may wait for
  pub pending : Bool
  pub flaps : Flaps
  -- the reasons that `_handle_disconnected` was called with, newest last
  pub notices : List String
  -- the delays of the sleeps, newest last
  pub sleeps : List ℕ
  -- the last reconnection died of the OverflowError of a delay
  pub overflowed : Bool

-- How `open` and the half second after it end.
pub data Attempt : Type 0 where
  -- `open` returned; the state of the socket then, and `_services_registered_ok`
  connected : SocketState → Bool → Attempt
  not_implemented : Attempt
  -- ConnectionAbortedError
  refused : String → Attempt
  -- any other exception, with the state that it leaves
  failed : SocketState → Attempt

-- What a sleep ends with.
pub data Meanwhile : Type 0 where
  cancelled : Meanwhile
  -- the state of the socket and of `_closed` after the sleep
  woke : SocketState → Bool → Meanwhile

pub record Round : Type 0 where
  pub attempt : Attempt
  pub meanwhile : Meanwhile
  -- random.uniform(-0.1, 0.1), as tenths of a percent above -0.1
  pub jitter : ℕ

-- MAX_RETRY
abbrev pub max_retry : ℕ
max_retry = 1000000

abbrev pub base_delay : ℕ
base_delay = 1000

abbrev pub max_delay : ℕ
max_delay = 60000

-- `1.0 * 2 ** n` raises an OverflowError from this `n` on, as a float is less than 2 ** 1024.
abbrev pub max_exponent : ℕ
max_exponent = 1024

-- RECONNECT_MIN_DELAY
abbrev pub min_delay : ℕ
min_delay = 1000

-- delay + random.uniform(-max_jitter, max_jitter) * delay
abbrev pub jittered : ℕ → ℕ → ℕ
jittered jitter delay = delay * (900 + jitter) / 1000

-- if self._reconnected_event: self._reconnected_event.set(); self._reconnected_event = None
abbrev pub release : Link → Link
release l = record l { pending = false }

abbrev pub notify : String → Link → Link
notify reason l = record l { notices = l.notices ++ reason ∷ [] }

abbrev pub slept : ℕ → Link → Link
slept delay l = record l { sleeps = l.sleeps ++ delay ∷ [] }

-- An OverflowError, which nothing in `reconnect_with_retry` catches.
abbrev pub die : Link → Link
die l = record l { overflowed = true }

-- The delay after a failed attempt, for a retry below `max_exponent`.
abbrev pub backoff : ℕ → ℕ → ℕ
backoff retry jitter = max 100 (jittered jitter (min (base_delay * 2 ^ retry) max_delay))

-- The delay before the first attempt when the connection flaps, for a retry up to `max_exponent`.
abbrev pub flap_delay : ℕ → ℕ → ℕ
flap_delay retry jitter =
    max min_delay (jittered jitter (min (base_delay * 2 ^ (retry - 1)) max_delay))

-- The end of an attempt: the loop is left, or goes on with a delay.
pub data After : Type 0 where
  leave again : Link → After

-- `_listen`, which `open` starts, has reset `_closed` half a second later.
unfoldable pub attempt_once : Attempt → Link → After
attempt_once (connected s ok) l =
    let l' = record l { socket = s; is_closed = false } in
    if is_open s && ok then leave (release l') else again l'
attempt_once not_implemented l = leave (release l)
attempt_once (refused reason) l = leave (
    notify (concat "Server refused reconnection: " reason)
      (release (record l { is_closed = true })))
attempt_once (failed s) l = again (record l { socket = s })

-- The end of the sleep after a failed attempt.
unfoldable pub after_sleep : Meanwhile → Link → After
after_sleep cancelled l = leave (release l)
after_sleep (woke s c) l =
    let l' = record l { socket = s; is_closed = c } in
    if is_open s then leave l' else if c then leave l' else again l'

abbrev pub then_after : After → (Link → After) → After
then_after (leave l) f = leave l
then_after (again l) f = f l

-- The retries are used up.
abbrev pub give_up : Link → Link
give_up l =
    if l.is_closed
    then l
    else notify "Max reconnection attempts exceeded" (release (record l { is_closed = true }))

-- One round of the `while` loop.
unfoldable pub round : Round → ℕ → Link → After
unfolding attempt_once after_sleep
round r retry l = then_after (attempt_once r.attempt l) (λ l'.
    if ltb retry max_exponent
    then after_sleep r.meanwhile (slept (backoff retry r.jitter) l')
    else leave (die l'))

-- The `while` loop, by the retries that are left, and the end of `reconnect_with_retry`.
unfoldable pub retry_loop : (ℕ → Round) → ℕ → ℕ → Link → Link
unfolding round
retry_loop world zero retry l = give_up l
retry_loop world (suc left) retry l =
    let next : Link → Link = λ l'. retry_loop world left (retry + 1) l' in
    if l.is_closed
    then l
    else elim (round (world retry) retry l) as (λ _. Link) [ leave l' ↦ l' | again l' ↦ next l' ]

-- The sleep before the first attempt.
unfoldable pub wait_for_flap : Meanwhile → Link → After
wait_for_flap cancelled l = leave (release l)
wait_for_flap (woke s c) l =
    let l' = record l { socket = s; is_closed = c } in
    if c then leave l' else if is_open s then leave (release l') else again l'

-- `reconnect_with_retry`, at a monotonic time; the first sleep has a round of its own.
unfoldable pub reconnect_with_retry : ℕ → Round → (ℕ → Round) → Link → Link
unfolding next_reconnect_retry retry_loop wait_for_flap
reconnect_with_retry now first world l =
    let (retry, flaps) = next_reconnect_retry now l.flaps in
    let l1 = record l { flaps = flaps; overflowed = false } in
    let delayed =
      (if ltb (retry - 1) max_exponent
        then wait_for_flap first.meanwhile (slept (flap_delay retry first.jitter) l1)
        else leave (die l1)) in
    let after = (if ltb 0 retry && not l1.is_closed then delayed else again l1) in
    elim after as (λ _. Link) [
      | leave l2 ↦ l2
      | again l2 ↦ retry_loop world (max_retry - retry) retry l2
    ]
