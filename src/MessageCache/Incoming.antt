-- ===== src/MessageCache/Incoming.antt =====
-- `RPC._on_message` (python/hypha_rpc/rpc.py): a message that arrives whole, as JSON, as msgpack in
-- two segments, or as a dictionary.
use hypha_rpc.Prelude.{String, ◌≡◌, refl, ap, Option, arith, ◌==◌, if◌then◌else◌, eq_iff, is_some}
use hypha_rpc.Session.Tree.{Value, Fields, dict, get, put, get-put}
use hypha_rpc.Session.State.{Result, ok, err, exception}
use hypha_rpc.MessageCache.Chunk.{Bytes}
use hypha_rpc.MessageCache.{M, Unpacked, fire, update, as_message, unpack_main, merge_extra}
use hypha_rpc.MessageCache.Trust.{get_last, or_else, extra_of, get-update, merged}

pub data Incoming : Type 0 where
  json : String → Incoming
  bytes : Bytes → Incoming
  direct : Fields → Incoming
  unknown : Incoming

-- `RPC._add_context_to_message`
unfoldable pub add_context : Fields → Fields → Fields
unfolding update
add_context default_context main =
    if is_some (get main "ctx") then main else put main "ctx" (dict (update main default_context))

module _ (loads : String → Result Value) (unpack : Bytes → Unpacked)
    (default_context : Fields) where
  -- The message that is fired.
  unfoldable pub received : Incoming → Result Fields
  unfolding unpack_main merge_extra add_context
  received (json s) = elim (loads s) [
    | err e ↦ err e
    | ok v ↦ elim (as_message v) [ err e ↦ err e | ok main ↦ ok (add_context default_context main) ]
  ]
  received (bytes b) = elim (unpack_main unpack default_context b) [
    | err e ↦ err e
    | ok (first, rest) ↦ merge_extra unpack default_context (add_context default_context first) rest
  ]
  received (direct main) = ok (add_context default_context main)
  received unknown = err (exception "Invalid message type")

  -- `RPC._on_message`
  unfoldable pub on_message : Incoming → M (Unit {0})
  unfolding received fire
  on_message message s = elim (received message) [ err e ↦ (err e, s) | ok main ↦ fire main s ]

  -- The context that a message carries after `_add_context_to_message`.
  abbrev pub context_of : Fields → Option Value
  context_of first = get (add_context default_context first) "ctx"

  get-add_context :
      (first : Fields) (k : String)
      → get (add_context default_context first) k
        ≡ (if "ctx" == k then context_of first else get first k)
  unfolding add_context
  get-add_context first k = ground (
    arith,
    eq_iff "ctx" k,
    get-put first "ctx" k (dict (update first default_context)),
    get-put first "ctx" "ctx" (dict (update first default_context)),
  )

  -- In a message that arrives as bytes and is fired, a field that the second segment names has the
  -- value of the second segment, the context "ctx" and the caller's identity included; every other
  -- field is the first segment's, where a missing context was added.
  pub get-received :
      (b : Bytes) (first main : Fields) (rest : Bytes) (k : String)
      → unpack_main unpack default_context b ≡ ok (first, rest)
      → received (bytes b) ≡ ok main
      → get main k
        ≡ or_else
            (get_last (extra_of (unpack rest)) k)
            (if "ctx" == k then context_of first else get first k)
  unfolding received
  get-received b first main rest k split_at h =
      let is : merge_extra unpack default_context (add_context default_context first) rest
          ≡ ok main =
        ground (arith, split_at, h) in
      rw (merged unpack default_context _ main rest (unpack rest) refl is, get-update)
        (ap (or_else (get_last (extra_of (unpack rest)) k)) (get-add_context first k))
