-- ===== src/Codec/RoundTrip.antt =====
-- What arrives of what was sent (python/hypha_rpc/rpc.py).
use hypha_rpc.Prelude.{ℕ, ◌≤◌, String, ◌≡◌, Bool, Option, List}
use hypha_rpc.Codec.{Scalar, Object, Entries}
use hypha_rpc.Codec.Coder.{Outcome, ok, Coder, Side}
use hypha_rpc.Codec.Encode.{encode}
use hypha_rpc.Codec.Decode.{decode}
use hypha_rpc.Codec.Reference.{wire, received, depth, Plain}
use hypha_rpc.Codec.Forward.{encode-Encodes}
use hypha_rpc.Codec.Backward.{Builtin, Munches, decode-Decodes}

-- Plain data is encoded, with at least as much fuel as it has levels, to its encoded form, whichever
-- fast paths are taken, and the encoding writes nothing into the session store or the services.
pub encode-wire :
    (uuid : ℕ → String) (find_codec : Object → Option (String × (Object → Outcome Object)))
    (side : Side) (frombuffer : List ℕ → String → Option (List ℕ) → Outcome Object)
    (same : Scalar → Scalar → Bool) (v : Object) (n : ℕ) (s : Coder)
    → Plain find_codec frombuffer same v
    → depth v ≤ n
    → encode uuid find_codec side n v s ≡ (ok (wire v), s)
encode-wire uuid find_codec side frombuffer same v n s plain enough =
    encode-Encodes uuid find_codec side frombuffer same v plain n enough s

-- Plain data that is encoded and decoded, with enough fuel on both sides, arrives: scalars, sets,
-- arrays and memory views as they were, lists for tuples, object proxies for all dictionaries and a
-- remote error with message and traceback for an exception. The receiver has no codecs of its own
-- under the names of these types, and munch makes proxies of plain dictionaries.
pub decode-encode :
    (uuid : ℕ → String) (find_codec : Object → Option (String × (Object → Outcome Object)))
    (side : Side) (decoder : String → Option (Object → Outcome Object))
    (frombuffer : List ℕ → String → Option (List ℕ) → Outcome Object) (from_dict : Entries → Object)
    (same : Scalar → Scalar → Bool) (remote_workspace : Option String)
    → Builtin decoder
    → Munches from_dict
    → (v : Object) (n m : ℕ) (s : Coder) → Plain find_codec frombuffer same v
    → depth v ≤ n
    → depth v ≤ m
    → (sent : Object) × (encode uuid find_codec side n v s ≡ (ok sent, s))
      × (decode decoder frombuffer from_dict same remote_workspace m sent ≡ ok (received v))
decode-encode uuid find_codec side decoder frombuffer from_dict same remote_workspace builtin
      munches v n m s plain h k =
    (
      wire v,
      encode-wire uuid find_codec side frombuffer same v n s plain h,
      decode-Decodes find_codec decoder frombuffer from_dict same remote_workspace builtin munches v
          plain m k,
    )
