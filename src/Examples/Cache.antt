-- ===== src/Examples/Cache.antt =====
-- A package of three bytes in chunks of two, sent to a receiver without heartbeats.
use hypha_rpc.Prelude.{
  ℕ, ◌≤◌, ◌<◌, String, ◌≡◌, refl, Bool, true, false, Option, none, some, List, [], ◌∷◌, ◌++◌, arith,
  length, All, ◌==◌, is_some, nat_eq, if◌then◌else◌,
}
use hypha_rpc.Prelude.Dict
use hypha_rpc.Session.Tree.{Value, Fields, dict, text, field, end, nothing, get, put}
use hypha_rpc.Session.State.{Result, ok}
use hypha_rpc.MessageCache.Chunk.{Bytes}
use hypha_rpc.MessageCache.Chunk.Slices.{chunk_count}
use hypha_rpc.MessageCache.{
  Receiver, Unpacked, object, out_of_data, Context, merge_extra, unpack_main, with_ctx,
  with_trusted, update,
}
use hypha_rpc.MessageCache.Steps.{quiet}
use hypha_rpc.MessageCache.Delivery.{send_chunks}
use hypha_rpc.MessageCache.Delivery.Correct.{
  listed, IsSchedule, Delivered, send_chunks-Delivered, Reads,
}
use hypha_rpc.MessageCache.Trust.{get_last, get-assembled}
use hypha_rpc.MessageCache.Incoming.{add_context, received, get-received}
use hypha_rpc.Examples.Store.{waiting}

-- A message codec with one message, and a second segment for the bytes 9.
abbrev unpack : Bytes → Unpacked
unpack [] = out_of_data
unpack (b ∷ rest) =
    if nat_eq b 9
    then object (dict (field "from" (text "forged") end)) rest
    else object (dict (field "type" (text "method") end)) []

abbrev context : Context
context = record { sender = text "ws/a"; recipient = text "ws/b"; ws = text "ws"; user = nothing }

abbrev receiver : Receiver
receiver = record { rpc = waiting; cache = none; fired = [] }

abbrev payload : Bytes
payload = 1 ∷ 2 ∷ 3 ∷ []

schedule : IsSchedule (chunk_count (length payload) 2) (1 ∷ 0 ∷ 1 ∷ [])
unfolding chunk_count listed
schedule = record {
  below = (omega arith, (omega arith, (omega arith, tt)));
  covers = λ i h. ground (arith, h);
}

reads : Reads unpack end payload context
unfolding unpack_main merge_extra with_ctx with_trusted update put get
reads = record {
  first = field "type" (text "method") end;
  rest = [];
  main = with_ctx end (with_trusted context (field "type" (text "method") end));
  kind = "method";
  segment = refl;
  merged = refl;
  typed = refl;
}

send_chunks-Delivered_example :
    (s : Receiver) × (send_chunks unpack end 3 2 payload "m" false
        (1 ∷ 0 ∷ 1 ∷ [])
        (some context)
        receiver
      ≡ (ok tt, s))
    × Delivered unpack end "m" reads.kind reads.main receiver s
unfolding hypha_rpc.Prelude.Dict.get
send_chunks-Delivered_example =
    send_chunks-Delivered unpack end 3 2 payload "m" false (1 ∷ 0 ∷ 1 ∷ []) context receiver
      (omega arith) (omega arith) schedule (quiet refl) refl reads

abbrev first : Fields
first = field "type" (text "method") end

-- What a second segment with a field "from" makes of the message.
abbrev forged : Fields
forged = update (with_ctx end (with_trusted context first)) (field "from" (text "forged") end)

get-assembled_example : get forged "from" ≡ some (text "forged")
unfolding merge_extra get_last get put update with_ctx with_trusted
get-assembled_example = get-assembled unpack end context first forged (9 ∷ []) "from" refl refl

-- A codec whose first segment is one byte; the bytes behind it forge the sender.
abbrev unpack_pair : Bytes → Unpacked
unpack_pair [] = out_of_data
unpack_pair (b ∷ rest) =
    if nat_eq b 9
    then object (dict (field "from" (text "forged") end)) rest
    else object (dict (field "type" (text "method") end)) rest

abbrev no_json : String → Result Value
no_json s = ok nothing

abbrev received_message : Fields
received_message = update (add_context end first) (field "from" (text "forged") end)

get-received_example : get received_message "from" ≡ some (text "forged")
unfolding merge_extra unpack_main get_last get put update add_context received
get-received_example =
    get-received no_json unpack_pair end (1 ∷ 9 ∷ []) first received_message (9 ∷ []) "from" refl
      refl
