-- ===== src/Codec/Decode.antt =====
-- `RPC._decode` and `RPC._generate_remote_method` (python/hypha_rpc/rpc.py). The decoders of
-- registered codecs, numpy's `frombuffer(...)` with and without `reshape(...)`, munch's `fromDict` and
-- Python's `==` on scalars are parameters. The keys of dictionaries are texts.
use Prim.Native.String.{◌++◌ as concat}
use hypha_rpc.Prelude.{
  ℕ, zero, suc, String, Bool, true, false, ◌&&◌, ◌||◌, not, Option, none, some, List, [], ◌∷◌, ◌++◌,
  ◌==◌, if◌then◌else◌, contains_char, starts_with,
}
use hypha_rpc.Codec.{
  Scalar, nothing, text, bytes, int, Function, Object, Items, Entries, prim, list, tuple, dict,
  proxy, set, exception, memoryview, remote, remote_generator, ordered, nil, item, end, entry, get,
  put, del, str, all_scalars_list, all_primitives_dict,
}
use hypha_rpc.Codec.Coder.{type_error, out_of_fuel, codec_failed, Outcome, ok, failed}

infixl 5 ◌>>=◌
abbrev pub ◌>>=◌ : {A B : Type 0} → Outcome A → (A → Outcome B) → Outcome B
ok a >>= f = f a
failed e >>= f = failed e

unfoldable pub decode_items : (Object → Outcome Object) → Items → Outcome Items
decode_items dec nil = ok nil
decode_items dec (item v xs) = do w ← dec v; ws ← decode_items dec xs; ok (item w ws)

unfoldable pub decode_entries : (Object → Outcome Object) → Entries → Outcome Entries
decode_entries dec end = ok end
decode_entries dec (entry k v d) = do w ← dec v; e ← decode_entries dec d; ok (entry k w e)

-- a_object[k], where a missing key is an error
abbrev pub field : Entries → String → Outcome Object
field d k = elim (get d k) [ none ↦ failed (codec_failed k) | some v ↦ ok v ]

abbrev pub text_of : Object → Outcome String
text_of (prim (text s)) = ok s
text_of _ = failed type_error

-- The bytes of an array: bytes, a memoryview, or a list of bytes that are joined.
unfoldable pub join_bytes : Items → Outcome (List ℕ)
join_bytes nil = ok []
join_bytes (item (prim (bytes b)) xs) = do rest ← join_bytes xs; ok (b ++ rest)
join_bytes (item _ xs) = failed type_error

abbrev pub array_bytes : Object → Outcome (List ℕ)
array_bytes (list nil) = failed type_error
array_bytes (list xs) = join_bytes xs
array_bytes (tuple nil) = failed type_error
array_bytes (tuple xs) = join_bytes xs
array_bytes (memoryview b) = ok b
array_bytes (prim (bytes b)) = ok b
array_bytes _ = failed type_error

-- tuple(a_object["_rshape"]) with the sizes that reshape takes
unfoldable pub sizes : Items → Outcome (List ℕ)
sizes nil = ok []
sizes (item (prim (int false n)) xs) = do rest ← sizes xs; ok (n ∷ rest)
sizes (item _ xs) = failed type_error

abbrev pub shape_of : Object → Outcome (List ℕ)
shape_of (tuple xs) = sizes xs
shape_of (list xs) = sizes xs
shape_of _ = failed type_error

-- What `memoryview` and `frombuffer` read.
abbrev pub buffer_of : Object → Outcome (List ℕ)
buffer_of (prim (bytes b)) = ok b
buffer_of (memoryview b) = ok b
buffer_of _ = failed type_error

-- The members whose names do not start with an underscore.
unfoldable pub public_members : Entries → Entries
public_members end = end
public_members (entry k v d) =
    let rest = public_members d in if starts_with k "_" then rest else entry k v rest

-- OrderedDict(...) of a list of pairs
unfoldable pub from_pairs : Items → Entries → Outcome Entries
from_pairs nil d = ok d
from_pairs (item (list (item (prim (text k)) (item v nil))) xs) d = from_pairs xs (put d k v)
from_pairs (item _ xs) d = failed type_error

abbrev pub items_of : Object → Outcome Items
items_of (list xs) = ok xs
items_of _ = failed type_error

-- The target with the remote workspace in front, in `_generate_remote_method`.
abbrev pub remote_target : Option String → String → String
remote_target none target = target
remote_target (some ws) target =
    if not (ws == "") && not (contains_char b'/' target) && not (ws == target)
    then concat ws (concat "/" target)
    else target

-- What a remote method that is called without a name stands for.
abbrev pub stub : Function
stub = record { identity = 0; name = none; doc = ""; is_async = true }

-- `RPC._generate_remote_method`
unfoldable pub generate_remote_method : Option String → Entries → Outcome Entries
generate_remote_method remote_workspace d = do
  target ← field d "_rtarget" >>= text_of
  method ← field d "_rmethod" >>= text_of
  ok (put d "_rtarget" (str (remote_target remote_workspace target)))

-- The entries of the close method of a remote generator; none is an empty dictionary.
abbrev pub close_method : Option String → Entries → Outcome Entries
close_method remote_workspace d = elim (get d "_rclose_method") [
  | none ↦ ok end
  | some method ↦ generate_remote_method remote_workspace (
      entry "_rtype" (str "method") (
        entry "_rserver" (optional (get d "_rserver")) (
          entry "_rtarget" (optional (get d "_rtarget"))
            (entry "_rmethod" method (entry "_rpromise" (str "*") end)))))
]
  where
    optional : Option Object → Object
    optional none = prim nothing
    optional (some v) = v

module _ (same : Scalar → Scalar → Bool) where
  unfoldable pub occurs : Scalar → Items → Bool
  occurs p nil = false
  occurs p (item (prim q) xs) = same p q || occurs p xs
  occurs p (item _ xs) = occurs p xs

  -- set(...): an element that equals a later one is left to that one; lists are not hashable
  unfoldable pub make_set : Items → Outcome Items
  unfolding occurs
  make_set nil = ok nil
  make_set (item (prim p) xs) = do
    rest ← make_set xs
    ok (if occurs p rest then rest else item (prim p) rest)
  make_set (item _ xs) = failed type_error

module _ (decoder : String → Option (Object → Outcome Object))
    (frombuffer : List ℕ → String → Option (List ℕ) → Outcome Object) (from_dict : Entries → Object)
    (same : Scalar → Scalar → Bool) (remote_workspace : Option String) where
  -- The members are decoded, and the type is put back.
  abbrev decode_members : (Object → Outcome Object) → Entries → Object → Outcome Object
  decode_members dec d rtype = do
    v ← dec (dict (del d "_rtype"))
    elim v [
      | dict e ↦ ok (dict (put e "_rtype" rtype))
      | proxy e ↦ ok (proxy (put e "_rtype" rtype))
      | _ ↦ failed type_error
    ]

  abbrev decode_array : Entries → Outcome Object
  decode_array d = do
    b ← field d "_rvalue" >>= array_bytes
    dtype ← field d "_rdtype" >>= text_of
    shape ← field d "_rshape" >>= shape_of
    frombuffer b dtype (some shape)

  abbrev decode_memoryview : Entries → Outcome Object
  decode_memoryview d = do b ← field d "_rvalue" >>= buffer_of; ok (memoryview b)

  abbrev decode_typedarray : Entries → Outcome Object
  decode_typedarray d = do
    b ← field d "_rvalue" >>= buffer_of
    dtype ← field d "_rdtype" >>= text_of
    frombuffer b dtype none

  abbrev decode_iostream : (Object → Outcome Object) → Entries → Outcome Object
  decode_iostream dec d = do
    e ← decode_entries dec (public_members d)
    ok (proxy (put e "__rpc_object__" (dict d)))

  abbrev decode_orderedmap : (Object → Outcome Object) → Entries → Outcome Object
  decode_orderedmap dec d = do
    v ← field d "_rvalue" >>= dec
    xs ← items_of v
    e ← from_pairs xs end
    ok (ordered e)

  abbrev decode_set : (Object → Outcome Object) → Entries → Outcome Object
  decode_set dec d = do
    v ← field d "_rvalue" >>= dec
    xs ← items_of v
    s ← make_set same xs
    ok (set s)

  -- RemoteException("RemoteError:" + ... + "\n" + ...)
  abbrev decode_error : Entries → Outcome Object
  decode_error d = do
    message ← field d "_rvalue" >>= text_of
    let trace = elim (get d "_rtrace") as (λ _. String) [ some (prim (text t)) ↦ t | _ ↦ "" ]
    ok (exception (concat (concat "RemoteError:" message) (concat "\n" trace)) "")

  abbrev decode_generator : Entries → Outcome Object
  decode_generator d = do
    next ← generate_remote_method remote_workspace d
    close ← close_method remote_workspace d
    ok (remote_generator next close)

  -- A dictionary with an `_rtype` that is a text.
  abbrev decode_typed : (Object → Outcome Object) → String → Entries → Outcome Object
  decode_typed dec t d = elim (decoder t) [
    | some f ↦ decode_members dec d (str t) >>= f
    | none ↦
        if t == "method"
        then (generate_remote_method remote_workspace d >>= λ e. ok (remote stub e))
        else if t == "ndarray"
        then decode_array d
        else if t == "memoryview"
        then decode_memoryview d
        else if t == "iostream"
        then decode_iostream dec d
        else if t == "typedarray"
        then decode_typedarray d
        else if t == "orderedmap"
        then decode_orderedmap dec d
        else if t == "set"
        then decode_set dec d
        else if t == "error"
        then decode_error d
        else if t == "generator"
        then decode_generator d
        else decode_members dec d (str t)
  ]

  -- A list: the fast path, or one element after the other.
  abbrev decode_list : (Object → Outcome Object) → Items → Outcome Object
  decode_list dec xs =
      if all_scalars_list xs then ok (list xs) else (decode_items dec xs >>= λ ws. ok (list ws))

  -- A dictionary without `_rtype`: the fast path is for plain ones.
  abbrev decode_slow : (Object → Outcome Object) → Entries → Outcome Object
  decode_slow dec d = decode_entries dec d >>= λ e. ok (proxy e)

  abbrev decode_dict : (Object → Outcome Object) → Bool → Entries → Outcome Object
  decode_dict dec plain d = elim (get d "_rtype") [
    | some (prim (text t)) ↦ decode_typed dec t d
    | some v ↦ decode_members dec d v
    | none ↦ if plain && all_primitives_dict d then ok (from_dict d) else decode_slow dec d
  ]

  -- `RPC._decode`
  unfoldable pub decode : ℕ → Object → Outcome Object
  unfolding generate_remote_method decode_items decode_entries make_set sizes join_bytes
      public_members from_pairs all_scalars_list all_primitives_dict
  decode zero v = failed out_of_fuel
  decode (suc n) (list xs) = decode_list (decode n) xs
  decode (suc n) (tuple xs) = decode_list (decode n) xs
  decode (suc n) (dict d) = decode_dict (decode n) true d
  decode (suc n) (proxy d) = decode_dict (decode n) false d
  decode (suc n) (ordered d) = decode_dict (decode n) false d
  decode (suc n) v = ok v
