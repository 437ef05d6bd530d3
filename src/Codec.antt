-- ===== src/Codec.antt =====
-- The values that `RPC._encode` and `RPC._decode` (python/hypha_rpc/rpc.py) read and make: Python
-- objects by the types that the codec tells apart. An encoded value is an object too.
pub mod Coder
pub mod Interfaces
pub mod Encode
pub mod Decode
pub mod Reference
pub mod Fast
pub mod Forward
pub mod Backward
pub mod RoundTrip
pub mod Methods
pub mod Sent
pub mod Generator
use hypha_rpc.Prelude.{
  ℕ, ◌+◌, String, Bool, true, false, ◌&&◌, ◌||◌, not, Option, none, some, List, [], ◌∷◌, ◌==◌,
  if◌then◌else◌, is_some,
}

-- None, bool, int with its sign, float by its text, str and bytes.
pub data Scalar : Type 0 where
  nothing : Scalar
  flag : Bool → Scalar
  int : Bool → ℕ → Scalar
  float : String → Scalar
  text : String → Scalar
  bytes : List ℕ → Scalar

-- A callable: its identity, `__name__` and docstring.
pub record Function : Type 0 where
  pub identity : ℕ
  pub name : Option String
  pub doc : String
  pub is_async : Bool

mutual
  pub data Object : Type 0 where
    prim : Scalar → Object
    list : Items → Object
    tuple : Items → Object
    dict : Entries → Object
    -- an ObjectProxy, and an OrderedDict
    proxy : Entries → Object
    ordered : Entries → Object
    set : Items → Object
    ndarray : List ℕ → String → List ℕ → Object
    -- an exception: its text and its traceback
    exception : String → String → Object
    memoryview : List ℕ → Object
    callable : Function → Object
    -- a callable that stands for a remote method, with its `__rpc_object__`
    remote : Function → Entries → Object
    -- a generator or an iterator, and what stands for a remote one: its method and its close
    -- method, which is empty where there is none
    generator : ℕ → Object
    remote_generator : Entries → Entries → Object
    unsupported : Object

  pub data Items : Type 0 where
    nil : Items
    item : Object → Items → Items

  pub data Entries : Type 0 where
    end : Entries
    entry : String → Object → Entries → Entries

-- d.get(k)
unfoldable pub get : Entries → String → Option Object
get end k = none
get (entry j v d) k = if j == k then some v else get d k

-- d[k] = v
unfoldable pub put : Entries → String → Object → Entries
put end k v = entry k v end
put (entry j w d) k v = if j == k then entry j v d else entry j w (put d k v)

-- del d[k]
unfoldable pub del : Entries → String → Entries
del end k = end
del (entry j w d) k = let rest = del d k in if j == k then rest else entry j w rest

abbrev pub str : String → Object
str s = prim (text s)

-- `RPC._is_primitive`
abbrev pub is_primitive : Object → Bool
is_primitive (prim p) = true
is_primitive _ = false

-- `RPC._all_primitives_list` and `RPC._all_primitives_dict`, which look at plain lists and
-- dictionaries only
unfoldable mutual
  pub all_primitives : Object → Bool
  all_primitives (prim p) = true
  all_primitives (list xs) = all_primitives_list xs
  all_primitives (dict d) = not (is_some (get d "_rtype")) && all_primitives_dict d
  all_primitives _ = false

  pub all_primitives_list : Items → Bool
  all_primitives_list nil = true
  all_primitives_list (item v xs) = all_primitives v && all_primitives_list xs

  pub all_primitives_dict : Entries → Bool
  all_primitives_dict end = true
  all_primitives_dict (entry k v d) = all_primitives v && all_primitives_dict d

-- `RPC._all_scalars_list`
unfoldable mutual
  pub all_scalars : Object → Bool
  all_scalars (prim p) = true
  all_scalars (list xs) = all_scalars_list xs
  all_scalars _ = false

  pub all_scalars_list : Items → Bool
  all_scalars_list nil = true
  all_scalars_list (item v xs) = all_scalars v && all_scalars_list xs
