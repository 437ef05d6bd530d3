-- ===== src/Examples/Codec.antt =====
-- Values that are sent and received.
use hypha_rpc.Prelude.{
  ℕ, String, ◌≡◌, refl, ◌⊎◌, Bool, true, false, Option, none, some, List, [], ◌∷◌, ◌++◌, arith, ◌+◌,
}
use hypha_rpc.Codec.{
  Scalar, int, flag, Object, Entries, prim, tuple, dict, proxy, ordered, set, ndarray, exception,
  generator, nil, item, end, entry, str, get,
}
use hypha_rpc.Codec.Coder.{Outcome, ok, Coder, Side}
use hypha_rpc.Codec.Encode.{encode}
use hypha_rpc.Codec.Decode.{decode, occurs, make_set}
use hypha_rpc.Codec.Reference.{wire, received, received_entries, depth, Plain}
use hypha_rpc.Codec.RoundTrip.{encode-wire, decode-encode}
use hypha_rpc.Codec.Sent.{Sent, Fit}
use hypha_rpc.Codec.Sent.Steps.{OnOk}
use hypha_rpc.Codec.Sent.Typed.{encode-Sent}
use hypha_rpc.Codec.Generator.{Source, yields, read}
use hypha_rpc.Codec.Generator.Read.{Takes, transfer, read-received}

abbrev ids : ℕ → String
ids n = "id"

abbrev no_codec : Object → Option (String × (Object → Outcome Object))
no_codec v = none

abbrev no_decoder : String → Option (Object → Outcome Object)
no_decoder t = none

abbrev numpy : List ℕ → String → Option (List ℕ) → Outcome Object
numpy b dtype none = ok (ndarray [] dtype b)
numpy b dtype (some shape) = ok (ndarray shape dtype b)

abbrev munch : Entries → Object
munch d = proxy (received_entries d)

abbrev never : Scalar → Scalar → Bool
never p q = false

abbrev our_side : Side
our_side = record {
  server = "https://hypha";
  client_id = "me";
  local_workspace = some "ws";
  encryption_key = none;
  session_id = some "s";
  target_id = some "ws/them";
  local_methods = λ m. none;
}

abbrev new_coder : Coder
new_coder = record {
  fresh = 0;
  stored = [];
  annotations = [];
  interfaces = [];
  rintf_caller_index = [];
}

-- {"a": (1, {"x": True}), "b": {7}, "c": an array, "d": an exception}
abbrev payload : Object
payload = dict (
    entry "a"
      (tuple (item (prim (int false 1)) (item (ordered (entry "x" (prim (flag true)) end)) nil)))
      (entry "b" (set (item (prim (int false 7)) nil)) (
        entry "c" (ndarray (2 ∷ []) "uint8" (5 ∷ 6 ∷ []))
          (entry "d" (exception "boom" "trace") end))))

payload-Plain : Plain no_codec numpy never payload
unfolding Plain get make_set occurs
payload-Plain = (
  refl,
  record { untyped = refl; no_interface = refl },
  (
    (refl, (tt, ((refl, record { untyped = refl; no_interface = refl }, (tt, tt)), tt))),
    ((refl, refl, tt, refl), ((refl, refl), (refl, tt))),
  ),
)

encode-wire_example :
    encode ids no_codec our_side 4 payload new_coder ≡ (ok (wire payload), new_coder)
unfolding depth
encode-wire_example =
    encode-wire ids no_codec our_side numpy never payload 4 new_coder payload-Plain (omega arith)

decode-encode_example :
    (sent : Object) × (encode ids no_codec our_side 4 payload new_coder ≡ (ok sent, new_coder))
    × (decode no_decoder numpy munch never (some "ws") 5 sent ≡ ok (received payload))
unfolding depth
decode-encode_example =
    decode-encode ids no_codec our_side no_decoder numpy munch never (some "ws")
      (record { sets = refl; arrays = refl; errors = refl; views = refl }) (λ d h. refl) payload 4 5
      new_coder payload-Plain (omega arith) (omega arith)

abbrev source : Source
source = record {
  remaining = yields payload ∷ yields (str "more") ∷ [];
  store = ("g", generator 0) ∷ ("g:close", generator 0) ∷ [];
}

-- The second item is never asked for.
read-received_example :
    Takes
      (transfer ids no_codec our_side no_decoder numpy munch never (some "ws") 5 6 new_coder)
      "g"
      received
      1
      (payload ∷ str "more" ∷ [])
      source
      (read
        (transfer ids no_codec our_side no_decoder numpy munch never (some "ws") 5 6 new_coder)
        "g"
        1
        source)
unfolding depth Plain hypha_rpc.Prelude.Dict.get
read-received_example =
    read-received ids no_codec our_side no_decoder numpy munch never (some "ws") "g" 0
      (payload ∷ str "more" ∷ []) source 4 5 new_coder
      (record { sets = refl; arrays = refl; errors = refl; views = refl }) (λ d h. refl) refl refl
      (omega arith) (omega arith)
      ((payload-Plain, omega arith, omega arith), ((tt, omega arith, omega arith), tt))
      (record { next_there = refl; close_there = refl }) refl

payload-Fit : Fit payload
unfolding Fit get
payload-Fit = (tt, ((tt, ((tt, (tt, tt)), tt)), ((tt, tt), (tt, (tt, tt)))))

encode-Sent_example : OnOk Sent (encode ids no_codec our_side 4 payload new_coder).0
encode-Sent_example =
    encode-Sent ids no_codec our_side (λ v name encoder e h. absurd (cc e)) 4 payload new_coder
      payload-Fit
