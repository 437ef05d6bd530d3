-- ===== src/Session/Tree.antt =====
-- The Python objects that `RPC._object_store` (python/hypha_rpc/rpc.py) holds: dictionaries nested
-- to any depth, lists, and the leaves that the session code tells apart. A shared mutable object
-- (a timer, a task, a future) is a reference into the heap of `Session.State`.
use hypha_rpc.Prelude.{
  ℕ, String, ◌≡◌, refl, Bool, true, false, Option, none, some, List, [], ◌∷◌, arith, ◌==◌, eq_iff,
  if◌then◌else◌, not,
}

-- What a callback closes over: the promise's `resolve` or `reject`, or the timer's `reset`.
pub data Callee : Type 0 where
  resolves rejects : ℕ → Callee
  resets : ℕ → Callee

-- `wrapped_callback` of `RPC._encode_callback`.
pub record Callback : Type 0 where
  pub session_id : String
  pub name : String
  pub callee : Callee
  pub clear_after_called : Bool
  pub timer : Option ℕ

mutual
  pub data Value : Type 0 where
    nothing : Value
    flag : Bool → Value
    num : ℕ → Value
    text : String → Value
    dict : Fields → Value
    array : Items → Value
    func : ℕ → Value
    callback : Callback → Value
    timer : ℕ → Value
    task : ℕ → Value
    promise_manager : Value

  pub data Items : Type 0 where
    nil : Items
    cons : Value → Items → Items

  pub data Fields : Type 0 where
    end : Fields
    field : String → Value → Fields → Fields

-- d.get(k)
unfoldable pub get : Fields → String → Option Value
get end k = none
get (field j v d) k = if j == k then some v else get d k

-- d[k] = v
unfoldable pub put : Fields → String → Value → Fields
put end k v = field k v end
put (field j w d) k v = if j == k then field j v d else field j w (put d k v)

-- del d[k], where `k` is present; d.pop(k, None)
unfoldable pub del : Fields → String → Fields
del end k = end
del (field j w d) k = let rest = del d k in if j == k then rest else field j w rest

-- list(d.keys())
unfoldable pub keys : Fields → List String
keys end = []
keys (field j w d) = j ∷ keys d

-- callable(v)
abbrev pub callable : Value → Bool
callable (func n) = true
callable (callback c) = true
callable _ = false

-- isinstance(v, dict), with the dictionary
abbrev pub as_dict : Option Value → Option Fields
as_dict (some (dict d)) = some d
as_dict _ = none

-- bool(v)
abbrev pub truthy : Value → Bool
truthy nothing = false
truthy (flag b) = b
truthy (num ℕ.zero) = false
truthy (text s) = not (s == "")
truthy (dict end) = false
truthy (array nil) = false
truthy _ = true

-- `d.get(k)` where a text is expected: `None` and the empty text are both false
abbrev pub text_at : Fields → String → Option String
text_at d k = elim (get d k) [ some (text s) ↦ (if s == "" then none else some s) | _ ↦ none ]

pub get-put :
    (d : Fields) (k j : String) (v : Value)
    → get (put d k v) j ≡ (if k == j then some v else get d j)
unfolding get put
get-put end k j v = refl
get-put (field i w d) k j v = ground (arith, eq_iff k j, eq_iff i k, eq_iff i j, get-put d k j v)

pub get-del : (d : Fields) (k j : String) → get (del d k) j ≡ (if k == j then none else get d j)
unfolding get del
get-del end k j = ground arith
get-del (field i w d) k j = ground (arith, eq_iff k j, eq_iff i k, eq_iff i j, get-del d k j)

pub ruleset tree_laws = (get-put, get-del)
