-- ===== src/Access/Dispatch.antt =====
-- `RPC._handle_method` (python/hypha_rpc/rpc.py) from an incoming call to the method that it runs:
-- route, decryption, lookup, activity stamp, permission, trusted keys and parent session. The
-- heartbeat task, the decoding of promise and arguments and the run of the method are not here.
-- Python's `int` index into a list, `getattr`, the decryption and the annotation table are
-- parameters.
pub mod Safety
pub mod Reply
use hypha_rpc.Prelude.{
  ℕ, String, Bool, true, false, ◌&&◌, ◌||◌, not, Option, none, some, List, [], ◌∷◌, ◌==◌, is_some,
  nat_eq, if◌then◌else◌, starts_with,
}
use hypha_rpc.Session.Tree.{Value, Fields, Items, dict, array, num, get, put, callable, truthy}
use hypha_rpc.Session.State.{
  Rpc, Error, exception, key_error, assertion_error, type_error, permission_error, Result, ok, err,
  ◌>>=◌, levels, top_key, get_session_store,
}
use hypha_rpc.Access.{Annotation, Route, route, check_permission, check_trusted}

-- The encryption envelope `_enc` with the data under it.
pub record Envelope : Type 0 where
  pub version : ℕ
  pub pub_hex : String
  pub nonce : List ℕ
  pub ciphertext : List ℕ

pub record Call : Type 0 where
  pub method : String
  pub sender : String
  pub to : String
  pub parent : Option String
  -- none where the key is missing; a session may be null
  pub session : Option (Option String)
  pub envelope : Option Envelope

pub data Outcome : Type 0 where
  -- the method is run, with the context where its annotation asks for it
  executed : Value → Bool → Outcome
  -- the error goes to the promise's `reject` if there is one, else to the log
  refused : Error → Outcome
  -- a late call of a settled promise, ignored
  ignored : Outcome

pub record Config : Type 0 where
  pub local_workspace : Option String
  pub manager_id : String
  pub encryption_enabled : Bool

abbrev has_dot : String → Bool
has_dot method = elim (levels method) [ [] ↦ false | k ∷ [] ↦ false | k ∷ j ∷ rest ↦ true ]

-- `RPC._is_promise_method_call`
unfoldable pub is_promise_method_call : Rpc → String → Result Bool
is_promise_method_call r method = do
  session ← get_session_store r (some (top_key method))
  elim session [
    | none ↦ ok false
    | some (dict d) ↦ ok (truthy (dict d) && is_some (get d "_promise_manager"))
    | some v ↦ if truthy v then err type_error else ok false
  ]

-- top_session["_last_activity_at"] = time.time()
unfoldable pub stamp : ℕ → String → Rpc → Rpc
stamp now method r =
    let key = top_key method in
    if has_dot method && not (key == "services" || key == "message_cache")
    then elim (get r.object_store key) [
      | some (dict session) ↦ record r {
        object_store = put r.object_store key (dict (put session "_last_activity_at" (num now)));
      }
      | _ ↦ r
    ]
    else r

-- What is answered for a method that is not there.
unfoldable pub missing : Rpc → String → Outcome
unfolding is_promise_method_call
missing r method = elim (is_promise_method_call r method) [
  | err e ↦ refused e
  | ok true ↦ ignored
  | ok false ↦
      if has_dot method
      then (if is_some (get r.object_store (top_key method))
          then refused (exception "Method expired or not found")
          else refused (exception "Session not found"))
      else refused (exception "Method not found")
]

-- The parent session must still be open, but for the methods of services.
unfoldable pub check_parent : Rpc → Option String → String → Result (Unit {0})
check_parent r local_parent method = elim local_parent [
  | none ↦ ok tt
  | some parent ↦ if parent == "" || starts_with method "services." then ok tt else do
    session ← get_session_store r (some parent)
    if is_some session then ok tt else err assertion_error
]

abbrev wants_context : Option Annotation → Bool
wants_context none = false
wants_context (some a) = a.require_context

module _ (array_item : Items → String → Result Value) (attribute : Value → String → Result Value)
    (decrypt : Envelope → Option (Call → Call)) (annotation : Value → Option Annotation) where
  -- `index_object`
  unfoldable pub index_object : Value → List String → Result Value
  index_object obj [] = ok obj
  index_object (dict d) (k ∷ ks) = elim (get d k) [
    | none ↦ err (key_error k)
    | some v ↦ index_object v ks
  ]
  index_object (array xs) (k ∷ ks) = elim (array_item xs k) [
    | ok v ↦ index_object v ks
    | err e ↦ err e
  ]
  index_object obj (k ∷ ks) = elim (attribute obj k) [ ok v ↦ index_object v ks | err e ↦ err e ]

  -- The decrypted call, and the key that it was encrypted with.
  unfoldable pub open_envelope : Config → Call → Result (Call × Option String)
  open_envelope cfg c = elim c.envelope [
    | none ↦ ok (c, none)
    | some e ↦
        if cfg.encryption_enabled && nat_eq e.version 2
        then elim (decrypt e) [
          | none ↦ err (permission_error "Decryption failed")
          | some merge ↦ ok (merge c, some e.pub_hex)
        ]
        else ok (c, none)
  ]

  -- The checks on a method that was found; the parent is that of the call as it came, before the
  -- decryption.
  unfoldable pub authorize :
      Config → Rpc → Route → Option String → Call → Option String → Value → Result Outcome
  unfolding check_parent
  authorize cfg r rt local_parent c key v = if not (callable v) then err assertion_error else do
    permitted ← check_permission r.object_store cfg.manager_id rt c.sender c.method (annotation v)
    trusted ← check_trusted (annotation v) key
    open_parent ← check_parent r local_parent c.method
    ok (executed v (wants_context (annotation v)))

  abbrev pub answer : Result Outcome → Outcome
  answer (ok o) = o
  answer (err e) = refused e

  -- `RPC._handle_method`
  unfoldable pub handle_method : Config → ℕ → Call → Rpc → Outcome × Rpc
  handle_method cfg now call r = elim (route cfg.local_workspace call.sender call.to) [
    | err e ↦ (refused e, r)
    | ok rt ↦ elim (open_envelope cfg call) [
      | err e ↦ (refused e, r)
      | ok (c, key) ↦ elim (index_object (dict r.object_store) (levels c.method)) [
        | err e ↦ (missing r c.method, r)
        | ok v ↦
            let r' = stamp now c.method r in (answer (authorize cfg r' rt call.parent c key v), r')
      ]
    ]
  ]
