-- ===== src/Http/Loop/Twice.antt =====
-- A client whose first attempt to connect fails (python/hypha_rpc/http_client.py).
use hypha_rpc.Prelude.{
  ℕ, ◌+◌, ◌≤◌, String, ◌≡◌, refl, true, false, Option, none, some, [], ◌∷◌, ◌++◌, append_assoc,
  arith, length, ◌∙◌, ap, ◌==◌, eq_refl, Bool-cases, inl, inr,
}
use hypha_rpc.Http.{Bytes, Message, typed, Stream, handle_frame, process_msgpack_stream}
use hypha_rpc.Http.Frames.{to_bytes, Small, process_msgpack_stream_lem}
use hypha_rpc.Http.Loop.{
  Info, Client, Try, dropped, slept, running, stream_loop, round, receive, open_stream,
  start_stream, accept_info, accepts, handle_reconnections, send_request, delay_of, client_of,
  begun, opened, max_retry,
}
use hypha_rpc.Http.Loop.Backoff.{Drops, IsUp, waited, stream_loop-step}

-- An attempt that gets one frame.
pub record Gets (frame : Bytes) (t : Try) : Type 0 where
  pub answered : t.status ≡ some 200
  pub one_chunk : t.chunks ≡ (false, to_bytes (length frame) ++ frame) ∷ []
  pub is_dropped : t.ending ≡ dropped
  pub stays : t.disconnected ≡ false
  pub sleeps : t.sleep ≡ slept
  pub stays_asleep : t.disconnected_asleep ≡ false

accepts_self : (w : Option String) → accepts w w ≡ true
accepts_self none = refl
accepts_self (some ws) = elim (Bool-cases (ws == "")) [
  | inl e ↦ rw e refl
  | inr e ↦ rw e (eq_refl ws)
]

module _ (unpack : Bytes → Option Message) (read_info : Bytes → Info) where
  -- The client when the frame was handled.
  abbrev informed : Bytes → Client → Client
  informed frame c = accept_info (read_info frame) frame (record c {
    stream = record c.stream {
      buffer = [];
      connection_info = some frame;
      reconnections = frame ∷ [];
    };
  })

  handled-info :
      (frame : Bytes) (token : Option String) (s : Stream)
      → unpack frame ≡ some (typed "connection_info" token)
      → s.is_reconnection ≡ true
      → s.reconnections ≡ []
      → handle_frame unpack frame s
        ≡ record s { connection_info = some frame; reconnections = frame ∷ [] }
  unfolding handle_frame
  handled-info frame token s u r n = ground (arith, u, r, n)

  processed-Gets :
      (frame : Bytes) (token : Option String) (t : Try) (s : Stream)
      → Gets frame t
      → unpack frame ≡ some (typed "connection_info" token)
      → Small frame
      → s.buffer ≡ []
      → s.is_reconnection ≡ true
      → s.reconnections ≡ []
      → process_msgpack_stream unpack t.chunks s
        ≡ record s { connection_info = some frame; reconnections = frame ∷ [] }
  processed-Gets frame token t s g u small b r n =
      ap (λ chunks. process_msgpack_stream unpack chunks s) g.one_chunk
      ∙ (process_msgpack_stream_lem unpack _ (frame ∷ []) s b (refl, tt) (small, tt) refl
          ∙ handled-info frame token s u r n)

  receive-Gets :
      (frame : Bytes) (token : Option String) (t : Try) (c : Client)
      → Gets frame t
      → unpack frame ≡ some (typed "connection_info" token)
      → Small frame
      → c.stream.is_reconnection ≡ true
      → c.stream.reconnections ≡ []
      → receive unpack read_info t c ≡ informed frame c
  unfolding receive handle_reconnections
  receive-Gets frame token t c g u small r n =
      rw (processed-Gets frame token t (record c.stream { buffer = [] }) g u small refl r n)
        (rw n refl)

  -- The client after the attempt that got the info.
  abbrev after_info : Bytes → Client → Client
  after_info frame c =
      let c1 = informed frame (send_request c) in
      record c1 {
        delays = c1.delays ++ delay_of 1 ∷ [];
        stream = record c1.stream { is_reconnection = true };
      }

  round-Gets :
      (frame : Bytes) (token : Option String) (t : Try) (retry : ℕ) (c : Client)
      → Gets frame t
      → unpack frame ≡ some (typed "connection_info" token)
      → Small frame
      → c.stream.is_reconnection ≡ true
      → c.stream.reconnections ≡ []
      → IsUp c
      → round unpack read_info t retry c ≡ running 1 (after_info frame c)
  unfolding round
  round-Gets frame token t retry c g u small r n up = ground (
    arith,
    g.answered,
    g.is_dropped,
    g.stays,
    g.sleeps,
    g.stays_asleep,
    up.is_open,
    up.reconnects,
    receive-Gets frame token t (send_request c) g u small r n,
  )

  stream_loop-Gets :
      (frame : Bytes) (token : Option String) (t : Try) (retry : ℕ) (c : Client)
      → Gets frame t
      → unpack frame ≡ some (typed "connection_info" token)
      → Small frame
      → c.stream.is_reconnection ≡ true
      → c.stream.reconnections ≡ []
      → IsUp c
      → retry + 1 ≤ max_retry
      → stream_loop unpack read_info (t ∷ []) retry c ≡ running 1 (after_info frame c)
  unfolding stream_loop
  stream_loop-Gets frame token t retry c g u small r n up h =
      ground (arith, up.is_open, round-Gets frame token t retry c g u small r n up)

  -- If the first attempt of a new client gets no answer and the second one gets the connection info
  -- of the workspace that was asked for, `open` succeeds, and the handler of `on_connected` is called
  -- twice with the info: once by the task of a reconnection, and once by `open`.
  pub open_stream-connects_twice :
      (frame : Bytes) (token : Option String) (first second : Try) (c : Client)
      → Drops first
      → Gets frame second
      → unpack frame ≡ some (typed "connection_info" token)
      → Small frame
      → c.stream.reconnections ≡ []
      → (c' : Client) × (open_stream unpack read_info (first ∷ second ∷ []) c ≡ some (true, c'))
        × (c'.connected ≡ c.connected ++ frame ∷ frame ∷ [])
  unfolding open_stream start_stream
  open_stream-connects_twice frame token first second c d g u small n =
      let k = waited 0 (begun unpack read_info c) in
      let up : IsUp k = record { is_open = refl; reconnects = refl } in
      let loop =
        stream_loop-step unpack read_info first (second ∷ []) 0 (begun unpack read_info c) d
          (record { is_open = refl; reconnects = refl }) (omega arith)
        ∙ stream_loop-Gets frame token second 1 k g u small refl n up (omega arith) in
      (
        accept_info (read_info frame) frame (after_info frame k),
        ap (λ l. opened unpack read_info (client_of l).stream.connection_info (client_of l)) loop
            ∙ rw (accepts_self (read_info frame).workspace) refl,
        append_assoc c.connected (frame ∷ []) (frame ∷ []),
      )
