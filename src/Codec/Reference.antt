-- ===== src/Codec/Reference.antt =====
-- What encoding and decoding mean for plain data, by recursion on the value and without fast paths.
use Prim.Native.String.{◌++◌ as concat}
use hypha_rpc.Prelude.{ℕ, suc, max, String, ◌≡◌, Bool, false, Option, none, some, List}
use hypha_rpc.Codec.{
  Scalar, bytes, Object, Items, Entries, prim, list, tuple, dict, proxy, ordered, set, ndarray,
  exception, memoryview, nil, item, end, entry, get, str,
}
use hypha_rpc.Codec.Coder.{Outcome, ok}
use hypha_rpc.Codec.Interfaces.{is_interface}
use hypha_rpc.Codec.Encode.{dims}
use hypha_rpc.Codec.Decode.{make_set}

-- The encoded form of a value.
unfoldable mutual
  pub wire : Object → Object
  wire (list xs) = list (wire_items xs)
  wire (tuple xs) = list (wire_items xs)
  wire (dict d) = dict (wire_entries d)
  wire (proxy d) = dict (wire_entries d)
  wire (ordered d) = dict (wire_entries d)
  wire (set xs) = dict (entry "_rtype" (str "set") (entry "_rvalue" (list (wire_items xs)) end))
  wire (ndarray shape dtype b) = dict (
      entry "_rtype" (str "ndarray") (
        entry "_rvalue" (prim (bytes b))
          (entry "_rshape" (tuple (dims shape)) (entry "_rdtype" (str dtype) end))))
  wire (exception message trace) = dict (
      entry "_rtype" (str "error")
        (entry "_rvalue" (str message) (entry "_rtrace" (str trace) end)))
  wire (memoryview b) =
      dict (entry "_rtype" (str "memoryview") (entry "_rvalue" (prim (bytes b)) end))
  wire v = v

  pub wire_items : Items → Items
  wire_items nil = nil
  wire_items (item v xs) = item (wire v) (wire_items xs)

  pub wire_entries : Entries → Entries
  wire_entries end = end
  wire_entries (entry k v d) = entry k (wire v) (wire_entries d)

-- The value that the receiver gets: lists for tuples, object proxies for dictionaries, and one text
-- for an exception.
unfoldable mutual
  pub received : Object → Object
  received (list xs) = list (received_items xs)
  received (tuple xs) = list (received_items xs)
  received (dict d) = proxy (received_entries d)
  received (proxy d) = proxy (received_entries d)
  received (ordered d) = proxy (received_entries d)
  received (exception message trace) =
      exception (concat (concat "RemoteError:" message) (concat "\n" trace)) ""
  received v = v

  pub received_items : Items → Items
  received_items nil = nil
  received_items (item v xs) = item (received v) (received_items xs)

  pub received_entries : Entries → Entries
  received_entries end = end
  received_entries (entry k v d) = entry k (received v) (received_entries d)

-- The levels of a value: the fuel that it takes.
unfoldable mutual
  pub depth : Object → ℕ
  depth (list xs) = suc (depth_items xs)
  depth (tuple xs) = suc (depth_items xs)
  depth (set xs) = suc (suc (depth_items xs))
  depth (dict d) = suc (depth_entries d)
  depth (proxy d) = suc (depth_entries d)
  depth (ordered d) = suc (depth_entries d)
  depth v = 1

  pub depth_items : Items → ℕ
  depth_items nil = 0
  depth_items (item v xs) = max (depth v) (depth_items xs)

  pub depth_entries : Entries → ℕ
  depth_entries end = 0
  depth_entries (entry k v d) = max (depth v) (depth_entries d)

-- Hashable elements only.
abbrev pub Scalars : Items → Type 0
Scalars nil = Unit {0}
Scalars (item (prim p) xs) = Scalars xs
Scalars (item _ xs) = ⊥

module _ (find_codec : Object → Option (String × (Object → Outcome Object)))
    (frombuffer : List ℕ → String → Option (List ℕ) → Outcome Object)
    (same : Scalar → Scalar → Bool) where
  abbrev pub Uncoded : Object → Type 0
  Uncoded v = find_codec v ≡ none

  -- A dictionary that is neither an encoded value nor an interface.
  pub record PlainKeys (d : Entries) : Type 0 where
    pub untyped : get d "_rtype" ≡ none
    pub no_interface : is_interface d ≡ false

  -- Data that no registered codec takes: scalars, lists, tuples and dictionaries of data, sets of
  -- distinct scalars, arrays that numpy reads back, exceptions and memory views.
  unfoldable mutual
    pub Plain : Object → Type 0
    Plain (prim p) = Unit {0}
    Plain (list xs) = Uncoded (list xs) × PlainItems xs
    Plain (tuple xs) = Uncoded (list xs) × PlainItems xs
    Plain (dict d) = Uncoded (dict d) × PlainKeys d × PlainEntries d
    Plain (proxy d) = Uncoded (dict d) × PlainKeys d × PlainEntries d
    Plain (ordered d) = Uncoded (dict d) × PlainKeys d × PlainEntries d
    Plain (set xs) = Uncoded (set xs) × Uncoded (list xs) × Scalars xs × (make_set same xs ≡ ok xs)
    Plain (ndarray shape dtype b) =
        Uncoded (ndarray shape dtype b)
        × (frombuffer b dtype (some shape) ≡ ok (ndarray shape dtype b))
    Plain (exception message trace) = Uncoded (exception message trace)
    Plain (memoryview b) = Uncoded (memoryview b)
    Plain _ = ⊥

    pub PlainItems : Items → Type 0
    PlainItems nil = Unit {0}
    PlainItems (item v xs) = Plain v × PlainItems xs

    pub PlainEntries : Entries → Type 0
    PlainEntries end = Unit {0}
    PlainEntries (entry k v d) = Plain v × PlainEntries d
