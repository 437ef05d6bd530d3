-- ===== src/Lib.antt =====
-- A model of hypha-rpc, the Python client of the Hypha server (python/hypha_rpc).
--
-- A client keeps its sessions, services and chunked messages in one dictionary, `_object_store`.
-- A remote call opens a session with a promise, sends a message through a transport, and is
-- settled by a callback, a timeout, the loss of the connection or of the peer, or the collector. An
-- incoming call is looked up in the same store and runs only after its checks.
--
-- Which file models which code:
--   Prelude      shared names, tests, lists, dictionaries with text keys (insertion order), split
--   Session      the session part of class RPC in python/hypha_rpc/rpc.py
--     Tree         the values that the store holds; a shared object is a reference into a heap
--     Timer        class Timer: start, reset, clear
--     State        the state, exceptions, `_get_session_store` with and without `create`
--     Cleanup      `_cleanup_session_resources`, `_delete_session_completely`,
--                  `_delete_session_safely`, `_cleanup_empty_parent_containers`,
--                  `_remove_from_target_id_index`
--     Promise      `wrapped_callback`, `_cleanup_session_if_needed`, `_cleanup_session_entry`
--     Sweep        `_cleanup_sessions_for_client`, `_reject_pending_calls`,
--                  `_cleanup_on_disconnect`, the sweep of `_session_gc_loop`
--     Call         RemoteFunction.__call__ with `_encode_promise`, `_encode_callback` and
--                  `timeout_callback`
--     Peers        `_handle_peer_not_found`, `_handle_client_disconnected`, callback services,
--                  `_remove_service_annotations`
--     Close        `_close_sessions`, `_force_cleanup_all_sessions`, `get_session_stats`
--     Frame, WellFormed  which entries these operations touch, and the invariant of the store
--   MessageCache `_create_message`, `_append_message`, `_set_message`, `_remove_message`,
--                `_process_message`, (in Delivery) `_send_chunks` and (in Incoming)
--                `_on_message` of rpc.py
--   Client       the handlers `on_connected` and `on_connection_lost` of RPC.__init__, with
--                `get_manager_service`
--     Connected, Ended  `on_connected`; `on_connection_lost`, `close` and `disconnect`
--     Single, Reported, Closed  the handler of "client_disconnected", the services that are
--                  reported, and what a close leaves
--     Lost, Partial  the handlers together with `reconnect_with_retry` of the WebSocket transport
--   Access       the permission checks of `_handle_method`, and `get_local_service`
--     Dispatch     `_handle_method` from the call to the method that runs; (in Reply) a call and the
--                  reply to it
--     Answer       `_handle_method` from the promise to the answer, `_call_method`,
--                  `_expand_promise`
--     Info, Remote  `_extract_service_info`; the uri of `get_remote_service`, `_retry_wrapper`
--     Services     `add_service`, `_annotate_service_methods`, `unregister_service`; (in Marked) which
--                  annotation a member has
--   Emitter      class MessageEmitter of python/hypha_rpc/utils/__init__.py
--   Http         `_process_msgpack_stream` and `emit_message` of python/hypha_rpc/http_client.py
--     Loop         `_stream_loop`, `open`, `_handle_reconnection`, `disconnect` of the same class
--   Codec        the values of `_encode` and `_decode` of rpc.py, and which of them are primitive
--     Coder        the state that an encoding writes
--     Interfaces   the methods of an `_rintf` object
--     Encode       `_encode`
--     Decode       `_decode`, `_generate_remote_method`
--     Reference    the encoded form of plain data and what the receiver gets, without fast paths
--     Fast, Forward, Backward, RoundTrip, Methods  what the codec does to values and callables
--     Sent         the data that msgpack can write, and the results of `_encode`
--     Generator    `next_item_method`, `close_generator_method`, `async_generator_proxy`
--   WebSocket    `_next_reconnect_retry` and `emit_message` of
--                python/hypha_rpc/websocket_client.py
--     Reconnect    `reconnect_with_retry`
--     Open         `_attempt_connection`, `_open_impl`, `_cleanup`
--     Listen       `_listen` and `disconnect`
--   Examples     concrete states at which the conditions of the theorems hold
--
-- How state is modelled. An operation is a function from the state to the state. An exception is a
-- value of `Result`; in the message cache the state is kept with it, since what was written before
-- stays. Timers, tasks and futures are numbers that point into a heap, so that a session and a
-- callback share them. The calls of callables from outside are recorded. The message cache is a
-- field of its own in place of the key "message_cache" of the store. Python sets are lists without
-- order of their own: an iteration takes them in the order of insertion.
--
-- Fuel. `fire_from` has one round for each registered handler and one more, and no round adds a
-- handler. `drain` has as many rounds as the buffer has bytes, and a frame has at least four. `post`
-- has the three attempts of the source. `encode` and `decode` take one unit for each level of a value.
-- `retry_loop` has the retries that are left of MAX_RETRY, which are more than the 1024 after which the
-- source's delay is too large for a float; `get_manager_from` has the attempts that are left of the 20
-- of the source. Everything else is structural.
--
-- What the server, the event loop and the application do during a connection (the answers, how a sleep
-- ends, the state of the socket then) is an input of the connection's operations.
--
-- Parameters for code that is not in the repository: msgpack (`unpack`), `json.loads`, the
-- decryption, Python's list index by a text and `getattr`, the table of annotations in Dispatch, the
-- server's answers, the encoders and decoders of registered codecs, shortuuid's ids, numpy's
-- `frombuffer`, munch's `fromDict`, Python's equality of scalars.
--
-- Not modelled: the encoding of IO streams, schemas of callables, encryption itself, the sends, the
-- heartbeat and ping tasks, the refresh of
-- tokens, WebRTC, the synchronous client, browser transports, schemas and the JavaScript client. The
-- chunk count is a quotient of numbers, where the source rounds a float up; they agree below 2^53
-- bytes. Times are whole numbers, in the unit that a file names. The text of some errors leaves
-- values out. The keys of a message are texts, and a remote
-- generator that was decoded is not sent on. What the method of an incoming
-- call and the sending of its answers do to the sessions is left out, and so are the cancellation of a
-- reconnection outside its sleeps and the notices of a listener that is cancelled meanwhile.
pub mod Access
pub mod Client
pub mod Codec
pub mod Emitter
pub mod Examples
pub mod Http
pub mod MessageCache
pub mod Prelude
pub mod Session
pub mod WebSocket
