-- ===== src/Http/Loop.antt =====
-- `_stream_loop`, `open`, `_handle_reconnection` and `disconnect` (python/hypha_rpc/http_client.py).
-- What each attempt comes to is an input; `msgpack` and the fields of a connection info are
-- parameters. Delays are in seconds and token refresh intervals in thirds of a second, so that the
-- life time of a token, in seconds, divided by 1.5 is a whole number of them.
pub mod Backoff
pub mod Twice
use hypha_rpc.Prelude.{
  ℕ, ◌+◌, ◌-◌, ◌*◌, ◌^◌, min, String, Bool, true, false, ◌&&◌, not, Option, none, some, List, [],
  ◌∷◌, ◌++◌, ◌==◌, if◌then◌else◌, nat_eq, ltb, length, drop, is_some,
}
use hypha_rpc.Http.{Bytes, Message, Stream, process_msgpack_stream}

-- The dictionary of a connection info; a key with the value null counts as missing.
pub record Info : Type 0 where
  pub workspace : Option String
  pub reconnection_token : Option String
  pub reconnection_token_life_time : Option ℕ

-- The query of a stream request.
pub record Params : Type 0 where
  pub in_workspace : Option String
  pub with_token : Option String

pub record Client : Type 0 where
  pub stream : Stream
  pub workspace : Option String
  pub is_closed : Bool
  pub enable_reconnect : Bool
  pub token_refresh_interval : ℕ
  pub params : Params
  -- the stream requests that were sent and the delays between them, newest last
  pub requests : List Params
  pub delays : List ℕ
  -- what `_handle_connected` and `_handle_disconnected` were called with, newest last
  pub connected : List Bytes
  pub notices : List String

-- What ends an attempt.
pub data Ending : Type 0 where
  -- the stream ended, or an exception was logged
  dropped : Ending
  connection_error : Ending
  cancelled : Ending

-- The sleep after an attempt.
pub data Sleep : Type 0 where
  slept interrupted : Sleep

-- One attempt: the status of the answer, if there is one, the chunks, and the end; whether the client
-- was disconnected during it or during the sleep.
pub record Try : Type 0 where
  pub status : Option ℕ
  pub chunks : List (Bool × Bytes)
  pub ending : Ending
  pub disconnected : Bool
  pub sleep : Sleep
  pub disconnected_asleep : Bool

pub data Loop : Type 0 where
  -- the loop goes on with a retry
  running : ℕ → Client → Loop
  ended : Client → Loop
  -- CancelledError leaves the function
  raised : Client → Loop

abbrev pub client_of : Loop → Client
client_of (running n c) = c
client_of (ended c) = c
client_of (raised c) = c

-- MAX_RETRY
abbrev pub max_retry : ℕ
max_retry = 1000000

-- `disconnect`, for the loop
abbrev pub disconnect_if : Bool → Client → Client
disconnect_if true c = record c { is_closed = true; enable_reconnect = false }
disconnect_if false c = c

abbrev newest : Option String → Option String → Option String
newest none old = old
newest (some v) old = if v == "" then old else some v

-- The request of an attempt.
abbrev pub send_request : Client → Client
send_request c =
    let p : Params = record {
      in_workspace = newest c.workspace c.params.in_workspace;
      with_token = newest c.stream.reconnection_token c.params.with_token;
    } in
    record c { params = p; requests = c.requests ++ p ∷ [] }

-- min(1.0 * (2 ** min(retry, 6)), 60.0)
abbrev pub delay_of : ℕ → ℕ
delay_of retry = min (2 ^ min retry 6) 60

-- The end of the loop.
abbrev pub end_stream : Client → Client
end_stream c = if c.is_closed then c else record c { notices = c.notices ++ "Stream ended" ∷ [] }

abbrev pub interval_after : Option ℕ → ℕ → ℕ
interval_after none old = old
interval_after (some life) old = if ltb (2 * life) old then 2 * life else old

abbrev token_after : Option String → Option String → Option String
token_after none old = old
token_after (some t) old = some t

-- What a connection info changes, and the call of `_handle_connected`.
abbrev pub accept_info : Info → Bytes → Client → Client
accept_info i frame c = record c {
  workspace = i.workspace;
  stream = record c.stream {
    reconnection_token = token_after i.reconnection_token c.stream.reconnection_token;
  };
  token_refresh_interval = interval_after i.reconnection_token_life_time c.token_refresh_interval;
  connected = c.connected ++ frame ∷ [];
}

-- if self._workspace: if actual_ws != self._workspace: raise ConnectionError(...)
abbrev pub accepts : Option String → Option String → Bool
accepts none got = true
accepts (some ws) none = ws == ""
accepts (some ws) (some got) = if ws == "" then true else got == ws

module _ (unpack : Bytes → Option Message) (read_info : Bytes → Info) where
  -- The tasks of `_handle_reconnection` that an attempt started, in their order.
  unfoldable pub handle_reconnections : List Bytes → Client → Client
  handle_reconnections [] c = c
  handle_reconnections (f ∷ fs) c = handle_reconnections fs (accept_info (read_info f) f c)

  -- The stream of an attempt that was answered with 200; its buffer is new.
  unfoldable pub receive : Try → Client → Client
  unfolding process_msgpack_stream handle_reconnections
  receive t c =
      let s = process_msgpack_stream unpack t.chunks (record c.stream { buffer = [] }) in
      handle_reconnections (drop (length c.stream.reconnections) s.reconnections)
        (record c { stream = s })

  abbrev is_ok : Option ℕ → Bool
  is_ok none = false
  is_ok (some n) = nat_eq n 200

  -- The request and its stream; whether the answer was 200.
  abbrev pub attempt : Try → Client → Bool × Client
  attempt t c =
      let c1 = send_request c in
      if is_ok t.status
      then (true, disconnect_if t.disconnected (receive t c1))
      else (false, disconnect_if t.disconnected c1)

  -- An answer other than 200 raises a ConnectionError.
  abbrev ending_of : Try → Ending
  ending_of t = elim t.status as (λ _. Ending) [
    | none ↦ t.ending
    | some n ↦ if nat_eq n 200 then t.ending else connection_error
  ]

  -- The loop is left after a cancellation, and after a ConnectionError without reconnection.
  abbrev breaks : Ending → Bool → Bool
  breaks dropped enabled = false
  breaks connection_error enabled = not enabled
  breaks cancelled enabled = true

  -- The reconnection logic.
  abbrev pub wait_or_end : Try → ℕ → Client → Loop
  wait_or_end t retry c =
      if not c.is_closed && c.enable_reconnect
      then (let c' =
            disconnect_if t.disconnected_asleep
              (record c { delays = c.delays ++ delay_of (retry + 1) ∷ [] }) in
          elim t.sleep as (λ _. Loop) [ slept ↦ running (retry + 1) c' | interrupted ↦ raised c' ])
      else ended (end_stream c)

  -- One round of the `while` loop.
  unfoldable pub round : Try → ℕ → Client → Loop
  unfolding receive
  round t retry c =
      let (ok, c1) = attempt t c in
      if breaks (ending_of t) c1.enable_reconnect
      then ended (end_stream c1)
      else wait_or_end t (if ok then 0 else retry)
          (record c1 { stream = record c1.stream { is_reconnection = true } })

  -- while not self._closed and retry < MAX_RETRY
  abbrev pub goes_on : ℕ → Client → Bool
  goes_on retry c = not c.is_closed && ltb retry max_retry

  -- `_stream_loop` on the attempts so far, from a retry on.
  unfoldable pub stream_loop : List Try → ℕ → Client → Loop
  unfolding round
  stream_loop [] retry c = if goes_on retry c then running retry c else ended (end_stream c)
  stream_loop (t ∷ ts) retry c =
      let rest : ℕ → Client → Loop = λ n k. stream_loop ts n k in
      if goes_on retry c
      then elim (round t retry c) as (λ _. Loop) [
        | running n c' ↦ rest n c'
        | ended c' ↦ ended c'
        | raised c' ↦ raised c'
      ]
      else ended (end_stream c)

  -- What `_stream_loop` sets first.
  abbrev pub begun : Client → Client
  begun c = record c {
    enable_reconnect = true;
    is_closed = false;
    stream = record c.stream { is_reconnection = false };
  }

  unfoldable pub start_stream : List Try → Client → Loop
  unfolding stream_loop
  start_stream ts c = stream_loop ts 0 (begun c)

  -- `open` after the wait for the connection info.
  abbrev pub opened : Option Bytes → Client → Option (Bool × Client)
  opened none c = if c.is_closed then some (false, c) else none
  opened (some frame) c =
      if accepts c.workspace (read_info frame).workspace
      then some (true, accept_info (read_info frame) frame c)
      else some (false, c)

  -- `open` with the attempts so far: none while there is no connection info, and false for an error,
  -- when the workspace is another one or the client was closed.
  unfoldable pub open_stream : List Try → Client → Option (Bool × Client)
  unfolding start_stream
  open_stream ts c = let c' = client_of (start_stream ts c) in opened c'.stream.connection_info c'
