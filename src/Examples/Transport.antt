-- ===== src/Examples/Transport.antt =====
-- Events, streams, POSTs and reconnections.
use hypha_rpc.Prelude.{
  ℕ, ◌+◌, ◌-◌, ◌≤◌, ◌<◌, ◌≡◌, refl, Bool, true, false, Option, none, some, List, [], ◌∷◌, ◌++◌,
  arith, length, nat_eq, if◌then◌else◌,
}
use hypha_rpc.Emitter.{Handler, Emitter}
use hypha_rpc.Http.{
  Bytes, Message, typed, other, Stream, process_msgpack_stream, Response, status, emit_message,
}
use hypha_rpc.Http.Frames.{to_bytes, handle_all, process_msgpack_stream_lem}
use hypha_rpc.Http.Retry.{Transient, Answers, emit_message_lem}
use hypha_rpc.Http.Loop.{Info, Client, Try, dropped, slept, stream_loop, open_stream}
use hypha_rpc.Http.Loop.Backoff.{Drops, BacksOff, stream_loop-BacksOff}
use hypha_rpc.Http.Loop.Twice.{open_stream-connects_twice}
use hypha_rpc.WebSocket.{Flaps, next_reconnect_retry, losses, next_reconnect_retry-losses}

abbrev handler : Handler
handler = record { identity = 4; wraps = none; attributes = [] }

abbrev quiet : Emitter
quiet = record { event_handlers = []; calls = []; next_identity = 9 }

abbrev listening : Emitter
listening = record {
  event_handlers = ("e", handler ∷ handler ∷ []) ∷ [];
  calls = [];
  next_identity = 9;
}

abbrev any_message : Bytes → Option Message
any_message frame = some other

abbrev new_stream : Stream
new_stream = record {
  buffer = [];
  is_reconnection = false;
  connection_info = none;
  reconnection_token = none;
  reconnections = [];
  handled = [];
}

-- Two frames, cut in the middle of a length.
abbrev chunks : List (Bool × Bytes)
chunks = (false, 0 ∷ 0 ∷ []) ∷ (false, 0 ∷ 2 ∷ 7 ∷ 8 ∷ 0 ∷ []) ∷ (false, 0 ∷ 0 ∷ 1 ∷ 9 ∷ []) ∷ []

process_msgpack_stream_example :
    process_msgpack_stream any_message chunks new_stream
    ≡ handle_all any_message ((7 ∷ 8 ∷ []) ∷ (9 ∷ []) ∷ []) new_stream
process_msgpack_stream_example =
    process_msgpack_stream_lem any_message chunks ((7 ∷ 8 ∷ []) ∷ (9 ∷ []) ∷ []) new_stream refl
      (refl, (refl, (refl, tt))) (omega arith, (omega arith, tt)) refl

-- A server that does not know the stream at first.
abbrev server : ℕ → Response
server n = if nat_eq n 0 then status 400 "unknown stream" else status 200 ""

emit_message_example :
    (n : ℕ) × ((emit_message false (some "ws") server).1 ≡ n + 1)
    × (n < 3)
    × ((k : ℕ) → k < n → Transient (server k))
    × Answers (server n) (emit_message false (some "ws") server).0
emit_message_example = emit_message_lem "ws" server refl

abbrev connection : Flaps
connection = record { flap_count = 0; last_connected_time = none }

next_reconnect_retry-losses_example :
    ((1100 - 1000 < 5000)
      → (next_reconnect_retry 1100
          (record (losses ((10, 20) ∷ []) connection) { last_connected_time = some 1000 })).0
        ≡ 0 + length {A = ℕ × ℕ} ((10, 20) ∷ []))
    × (5000 ≤ 1100 - 1000
        → (next_reconnect_retry 1100
            (record (losses ((10, 20) ∷ []) connection) { last_connected_time = some 1000 })).0
          ≡ 0)
    × ((losses ((10, 20) ∷ []) connection).flap_count ≡ 0 + length {A = ℕ × ℕ} ((10, 20) ∷ []))
next_reconnect_retry-losses_example =
    next_reconnect_retry-losses ((10, 20) ∷ []) 1000 1100 connection
      ((omega arith, omega arith), tt) (omega arith)

abbrev info_of : Bytes → Info
info_of b = record {
  workspace = some "ws";
  reconnection_token = some "t";
  reconnection_token_life_time = none;
}

abbrev new_client : Client
new_client = record {
  stream = new_stream;
  workspace = some "ws";
  is_closed = false;
  enable_reconnect = true;
  token_refresh_interval = 21600;
  params = record { in_workspace = none; with_token = none };
  requests = [];
  delays = [];
  connected = [];
  notices = [];
}

abbrev no_answer : Try
no_answer = record {
  status = none;
  chunks = [];
  ending = dropped;
  disconnected = false;
  sleep = slept;
  disconnected_asleep = false;
}

no_answer-Drops : Drops no_answer
no_answer-Drops = record {
  no_answer = refl;
  is_dropped = refl;
  stays = refl;
  sleeps = refl;
  stays_asleep = refl;
}

stream_loop-BacksOff_example :
    BacksOff any_message info_of 3 2 new_client
      (stream_loop any_message info_of (no_answer ∷ no_answer ∷ []) 3 new_client)
stream_loop-BacksOff_example =
    stream_loop-BacksOff any_message info_of (no_answer ∷ no_answer ∷ []) 3 new_client
      (no_answer-Drops, (no_answer-Drops, tt)) (record { is_open = refl; reconnects = refl })
      (omega arith)

abbrev info_message : Bytes → Option Message
info_message frame = some (typed "connection_info" none)

abbrev info_frame : Try
info_frame = record no_answer { status = some 200; chunks = (false, to_bytes 2 ++ 7 ∷ 8 ∷ []) ∷ [] }

open_stream-connects_twice_example :
    (c' : Client) × (open_stream info_message info_of (no_answer ∷ info_frame ∷ []) new_client
      ≡ some (true, c'))
    × (c'.connected ≡ [] ++ (7 ∷ 8 ∷ []) ∷ (7 ∷ 8 ∷ []) ∷ [])
open_stream-connects_twice_example =
    open_stream-connects_twice info_message info_of (7 ∷ 8 ∷ []) none no_answer info_frame
      new_client no_answer-Drops
      (record {
        answered = refl;
        one_chunk = refl;
        is_dropped = refl;
        stays = refl;
        sleeps = refl;
        stays_asleep = refl;
      })
      refl (omega arith) refl
