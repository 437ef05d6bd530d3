-- ===== src/Session/State.antt =====
-- The state of class RPC that its session code reads and writes (python/hypha_rpc/rpc.py), the
-- exceptions that reach it, and the lookup of a session by its dotted id.
use hypha_rpc.Prelude.{
  ◌≡◌, refl, ◌⊎◌, inl, inr, ℕ, String, Bool, true, false, Option, none, some, List, [], ◌∷◌,
  if◌then◌else◌, find?,
}
use hypha_rpc.Prelude.Dict.{Dict}
use hypha_rpc.Prelude.Text.{split}
use hypha_rpc.Session.Tree.{Value, Fields, text, dict, end, get, put, num}
use hypha_rpc.Session.Timer.{Heap}

pub data Error : Type 0 where
  connection_error timeout_error key_error value_error exception permission_error : String → Error
  type_error assertion_error unbounded_recursion : Error

pub data Result {ℓ} (A : Type ℓ) : Type ℓ where
  ok : A → Result A
  err : Error → Result A

-- To split on a computed result.
pub Result-cases :
    {A : Type 0} (r : Result A) → ((a : A) × (r ≡ ok a)) ⊎ ((e : Error) × (r ≡ err e))
Result-cases (ok a) = inl (a, refl)
Result-cases (err e) = inr (e, refl)

infixl 5 ◌>>=◌
abbrev pub ◌>>=◌ {ℓ κ} : {A : Type ℓ} {B : Type κ} → Result A → (A → Result B) → Result B
ok a >>= f = f a
err e >>= f = err e

-- The future that a remote call returns.
pub data Future : Type 0 where
  pending : Future
  resolved : Future
  rejected : Error → Future

pub record Rpc : Type 0 where
  pub object_store : Fields
  pub target_id_index : Dict (List String)
  pub rintf_caller_index : Dict (List String)
  pub heap : Heap
  pub futures : ℕ → Future
  -- calls of callables that the session code did not make itself, newest last
  pub called : List (ℕ × Error)

-- session_id.split(".")
abbrev pub levels : String → List String
levels s = split b'.' s

-- session_id.split(".")[0]
abbrev pub top_key : String → String
top_key s = elim (levels s) [ [] ↦ "" | k ∷ ks ↦ k ]

-- `level in store` and `store[level]`, for a store that need not be a dictionary
abbrev pub step_into : Value → String → Result (Option Value)
step_into (dict d) level = ok (get d level)
step_into (text s) level = elim (find? s level) [ none ↦ ok none | some n ↦ err type_error ]
step_into _ level = err type_error

-- The loop of `_get_session_store` without `create`.
unfoldable pub walk : List String → Value → Result (Option Value)
walk [] store = ok (some store)
walk (level ∷ rest) store = elim (step_into store level) [
  | ok none ↦ ok none
  | ok (some next) ↦ walk rest next
  | err e ↦ err e
]

-- `_get_session_store(session_id, create=False)`
unfoldable pub get_session_store : Rpc → Option String → Result (Option Value)
unfolding walk
get_session_store r none = ok none
get_session_store r (some session_id) = walk (levels session_id) (dict r.object_store)

-- A new top-level session records when it was made.
abbrev pub stamped : ℕ → Fields
stamped now = put (put end "_created_at" (num now)) "_last_activity_at" (num now)

-- The loop of `_get_session_store` with `create`; `top` tells the first level from the others.
-- It gives the changed store and the session that stands at the path.
unfoldable pub create_path : Bool → List String → ℕ → Fields → Result (Fields × Value)
create_path top [] now d = err type_error
create_path top (level ∷ []) now d = elim (get d level) [
  | some v ↦ ok (d, v)
  | none ↦ let made = dict (if top then stamped now else end) in ok (put d level made, made)
]
create_path top (level ∷ next ∷ rest) now d = elim (get d level) [
  | none ↦ do (inner, v) ← create_path false (next ∷ rest) now end; ok (put d level (dict inner), v)
  | some (dict e) ↦ do
    (inner, v) ← create_path false (next ∷ rest) now e
    ok (put d level (dict inner), v)
  | some _ ↦ err type_error
]

-- `_get_session_store(session_id, create=True)`
unfoldable pub create_session_store : Rpc → String → ℕ → Result (Rpc × Value)
unfolding create_path
create_session_store r session_id now = do
  (d, v) ← create_path true (levels session_id) now r.object_store
  ok (record r { object_store = d }, v)
