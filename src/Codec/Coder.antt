-- ===== src/Codec/Coder.antt =====
-- The state that the encoding of one message writes, and the steps that `RPC._encode`
-- (python/hypha_rpc/rpc.py) is written with: what fails keeps the state that was written.
use hypha_rpc.Prelude.{ℕ, String, Option, none, some, List, [], ◌∷◌, nat_eq, if◌then◌else◌}
use hypha_rpc.Prelude.Dict
use hypha_rpc.Codec.{
  nothing, Function, Object, Items, Entries, prim, list, tuple, dict, proxy, ordered, nil, item,
  end, entry, str,
}

pub data Failure : Type 0 where
  unsupported_type no_session type_error local_method_not_found out_of_fuel : Failure
  codec_failed : String → Failure

pub data Outcome (A : Type 0) : Type 0 where
  ok : A → Outcome A
  failed : Failure → Outcome A

-- A service that stands for an `_rintf` object: its id, the one caller, and its callables.
pub record Interface : Type 0 where
  pub service_id : String
  pub allowed_caller : Option String
  pub methods : List (String × Function)

-- What the encoding of one message writes.
pub record Coder : Type 0 where
  -- the count of ids and of functions that were made
  pub fresh : ℕ
  -- session store entries, with the dotted id of the method, newest last
  pub stored : List (String × Object)
  -- `_method_annotations`, by the identity of the function, with the method id
  pub annotations : List (ℕ × String)
  pub interfaces : List Interface
  pub rintf_caller_index : Dict.Dict (List String)

abbrev pub E : Type 0 → Type 0
E A = Coder → Outcome A × Coder

abbrev pub continue : {A B : Type 0} → Outcome A → (A → E B) → E B
continue (ok a) f s = f a s
continue (failed e) f s = (failed e, s)

infixl 5 ◌>>=◌ ◌>>◌
abbrev pub ◌>>=◌ : {A B : Type 0} → E A → (A → E B) → E B
◌>>=◌ m f s = continue (m s).0 f (m s).1

abbrev pub ◌>>◌ : {B : Type 0} → E (Unit {0}) → E B → E B
m >> k = m >>= λ _. k

abbrev pub pure : {A : Type 0} → A → E A
pure a s = (ok a, s)

abbrev pub fail : {A : Type 0} → Failure → E A
fail e s = (failed e, s)

-- `b_object.append(encoded)` over a list, `b_object[key] = encoded` over a dictionary
unfoldable pub encode_items : (Object → E Object) → Items → E Items
encode_items enc nil s = (ok nil, s)
encode_items enc (item v xs) s = (do w ← enc v; ws ← encode_items enc xs; pure (item w ws)) s

unfoldable pub encode_entries : (Object → E Object) → Entries → E Entries
encode_entries enc end s = (ok end, s)
encode_entries enc (entry k v d) s = (do w ← enc v; e ← encode_entries enc d; pure (entry k w e)) s

-- `tuple` to `list`, and any kind of dictionary to `dict`
abbrev pub normalize : Object → Object
normalize (tuple xs) = list xs
normalize (proxy d) = dict d
normalize (ordered d) = dict d
normalize v = v

unfoldable pub annotation_of : List (ℕ × String) → ℕ → Option String
annotation_of [] n = none
annotation_of ((m, a) ∷ rest) n = if nat_eq m n then some a else annotation_of rest n

abbrev pub optional_text : Option String → Object
optional_text none = prim nothing
optional_text (some s) = str s

-- What the encoder knows of its own side.
pub record Side : Type 0 where
  pub server : String
  pub client_id : String
  pub local_workspace : Option String
  pub encryption_key : Option String
  -- the session, with the target that its top-level store names
  pub session_id : Option String
  pub target_id : Option String
  -- the callables that `index_object` finds in the object store
  pub local_methods : String → Option Function

abbrev pub lift : {A : Type 0} → Outcome A → E A
lift r s = (r, s)
