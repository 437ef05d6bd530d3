-- ===== src/Http.antt =====
-- The HTTP transport (class HTTPStreamingRPCConnection in python/hypha_rpc/http_client.py): the
-- length-prefixed frames of the stream, and the retries of a POST. `msgpack` is a parameter.
pub mod Frames
pub mod Retry
pub mod Loop
use hypha_rpc.Prelude.{
  ℕ, zero, suc, ◌+◌, ◌-◌, ◌*◌, String, Bool, true, false, ◌&&◌, not, Option, none, some, List, [],
  ◌∷◌, ◌++◌, ◌==◌, if◌then◌else◌, nat_eq, ltb, length, take, drop, is_some,
}

abbrev pub Bytes : Type 0
Bytes = List ℕ

-- The first message of a frame, by what the stream looks at.
pub data Message : Type 0 where
  -- a dictionary whose "type" is a text, with its "reconnection_token"
  typed : String → Option String → Message
  other : Message

pub record Stream : Type 0 where
  pub buffer : Bytes
  pub is_reconnection : Bool
  pub connection_info : Option Bytes
  pub reconnection_token : Option String
  -- what `_handle_reconnection` was started with, and what `_handle_message` got, newest last
  pub reconnections : List Bytes
  pub handled : List Bytes

-- int.from_bytes(buffer[:4], "big")
unfoldable pub from_bytes : ℕ → Bytes → ℕ
from_bytes n [] = n
from_bytes n (b ∷ bs) = from_bytes (256 * n + b) bs

-- What is done with a frame; the handler of messages is there.
unfoldable pub handle_frame : (Bytes → Option Message) → Bytes → Stream → Stream
handle_frame unpack frame s = elim (unpack frame) [
  | none ↦ s
  | some other ↦ record s { handled = s.handled ++ frame ∷ [] }
  | some (typed t token) ↦
      if t == "connection_info"
      then record s {
        connection_info = some frame;
        reconnections =
            if s.is_reconnection then s.reconnections ++ frame ∷ [] else s.reconnections;
      }
      else if t == "ping"
      then s
      else if t == "reconnection_token"
      then record s { reconnection_token = token }
      else if t == "error"
      then s
      else record s { handled = s.handled ++ frame ∷ [] }
]

-- The `while` loop over the buffer: a round is fuel for one frame.
unfoldable pub drain : (Bytes → Option Message) → ℕ → Stream → Stream
unfolding from_bytes handle_frame
drain unpack zero s = s
drain unpack (suc fuel) s =
    let size = from_bytes 0 (take 4 s.buffer) in
    if ltb (length s.buffer) 4
    then s
    else if ltb (length s.buffer) (4 + size)
    then s
    else drain unpack fuel (
        handle_frame unpack (take size (drop 4 s.buffer))
          (record s { buffer = drop size (drop 4 s.buffer) }))

-- A chunk with the state of `_closed` when it arrives.
unfoldable pub process_msgpack_stream :
    (Bytes → Option Message) → List (Bool × Bytes) → Stream → Stream
unfolding drain
process_msgpack_stream unpack [] s = s
process_msgpack_stream unpack ((closed, chunk) ∷ rest) s =
    if closed
    then s
    else process_msgpack_stream unpack rest
        (drain unpack (length (s.buffer ++ chunk)) (record s { buffer = s.buffer ++ chunk }))

-- The answer to a POST.
pub data Response : Type 0 where
  -- the status with the detail
  status : ℕ → String → Response
  timed_out : Response
  failed : String → Response

pub data Sent : Type 0 where
  sent : Sent
  connection_error timeout_error raised : String → Sent

-- The loop of `emit_message` over the answers that the server gives, with the attempts that are left
-- and the number of those made.
unfoldable pub post : ℕ → ℕ → (ℕ → Response) → Sent × ℕ
post zero attempt server = (sent, attempt)
post (suc left) attempt server =
    let again = post left (attempt + 1) server in
    elim (server attempt) as (λ _. Sent × ℕ) [
      | status code detail ↦
          if nat_eq code 200
          then (sent, attempt + 1)
          else if nat_eq code 400 && not (nat_eq left 0)
          then again
          else (connection_error detail, attempt + 1)
      | timed_out ↦ (timeout_error "Request timeout", attempt + 1)
      | failed e ↦ if not (nat_eq left 0) then again else (raised e, attempt + 1)
    ]

abbrev pub max_retries : ℕ
max_retries = 3

-- `emit_message`, with the number of POSTs that were made; the workspace is none before `open`.
unfoldable pub emit_message : Bool → Option String → (ℕ → Response) → Sent × ℕ
unfolding post
emit_message closed workspace server =
    if closed
    then (connection_error "Connection is closed", 0)
    else elim workspace as (λ _. Sent × ℕ) [
      | none ↦ (connection_error "Workspace not set - connection not established", 0)
      | some w ↦
          if w == ""
          then (connection_error "Workspace not set - connection not established", 0)
          else post max_retries 0 server
    ]
