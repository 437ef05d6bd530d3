-- ===== src/Codec/Generator.antt =====
-- A generator that was sent: `next_item_method` and `close_generator_method` of `RPC._encode`, and
-- `async_generator_proxy` of `RPC._decode` (python/hypha_rpc/rpc.py), which calls them. What a reply goes
-- through on its way, from the encoding to the decoding, is a parameter.
pub mod Read
use Prim.Native.String.{◌++◌ as concat}
use hypha_rpc.Prelude.{
  ℕ, zero, suc, String, Bool, true, false, Option, none, some, List, [], ◌∷◌, ◌==◌, if◌then◌else◌,
}
use hypha_rpc.Prelude.Dict.{Dict, has, del}
use hypha_rpc.Codec.{
  Scalar, text, Object, Entries, prim, dict, proxy, ordered, end, entry, get, str,
}
use hypha_rpc.Codec.Coder.{Outcome, ok, failed}

-- What a Python generator does next; after an exception it is exhausted.
pub data Event : Type 0 where
  yields : Object → Event
  raises : String → Event

pub record Source : Type 0 where
  pub remaining : List Event
  -- the store of the session
  pub store : Dict Object

pub data Reply : Type 0 where
  replied : Object → Reply
  threw : String → Reply

-- {"_rtype": "stop_iteration"}
abbrev pub stop_iteration : Object
stop_iteration = dict (entry "_rtype" (str "stop_iteration") end)

abbrev pub close_id : String → String
close_id object_id = concat object_id ":close"

-- store.pop(object_id, None); store.pop(close_id, None)
abbrev pub forget : String → Source → Source
forget object_id s = record s { store = del (del s.store object_id) (close_id object_id) }

abbrev pub next_item : String → List Event → Source → Reply × Source
next_item object_id [] s = (replied stop_iteration, forget object_id s)
next_item object_id (yields v ∷ es) s = (replied v, record s { remaining = es })
next_item object_id (raises e ∷ es) s = (threw e, record s { remaining = [] })

-- A call of `next_item_method`, which the receiver of the call looks up in the store.
abbrev pub call_next : String → Source → Reply × Source
call_next object_id s =
    if has s.store object_id
    then next_item object_id s.remaining s
    else (threw "Method not found", s)

-- A call of `close_generator_method`; the reader ignores its errors.
abbrev pub call_close : String → Source → Source
call_close object_id s =
    if has s.store (close_id object_id) then forget object_id (record s { remaining = [] }) else s

-- isinstance(next_item, dict) and next_item.get("_rtype") == "stop_iteration"
abbrev is_stop_text : Option Object → Bool
is_stop_text (some (prim (text t))) = t == "stop_iteration"
is_stop_text _ = false

abbrev pub is_stop : Object → Bool
is_stop (dict d) = is_stop_text (get d "_rtype")
is_stop (proxy d) = is_stop_text (get d "_rtype")
is_stop (ordered d) = is_stop_text (get d "_rtype")
is_stop _ = false

-- The items that were read, and what was raised.
pub record Reading : Type 0 where
  pub items : List Object
  pub error : Option String
  pub source : Source

module _ (transfer : Object → Outcome Object) (object_id : String) where
  -- A reply that reached the reader: the end, an error, or an item, after which the reader goes on.
  abbrev pub take_reply : (Source → Reading) → Reply → Source → Reading
  take_reply rest (threw e) s = record {
    items = [];
    error = some e;
    source = call_close object_id s;
  }
  take_reply rest (replied v) s = elim (transfer v) as (λ _. Reading) [
    | failed e ↦ record { items = []; error = some "codec"; source = call_close object_id s }
    | ok w ↦
        let r = rest s in
        if is_stop w
        then record { items = []; error = none; source = s }
        else record r { items = w ∷ r.items }
  ]

  -- `async_generator_proxy`, for a reader that takes a number of items and then stops.
  unfoldable pub read : ℕ → Source → Reading
  read zero s = record { items = []; error = none; source = call_close object_id s }
  read (suc want) s =
      let rest : Source → Reading = λ k. read want k in
      let (r, s') = call_next object_id s in take_reply rest r s'
