-- ===== src/Access.antt =====
-- Who may call what: the checks of `RPC._handle_method` and `RPC.get_local_service`
-- (python/hypha_rpc/rpc.py).
pub mod Permission
pub mod Dispatch
pub mod Services
pub mod Info
pub mod Remote
pub mod Answer
pub mod Local
use Prim.Native.String.{◌++◌ as concat}
use hypha_rpc.Prelude.{
  ℕ, String, Bool, true, false, ◌&&◌, ◌||◌, not, Option, none, some, List, [], ◌∷◌, ◌==◌,
  if◌then◌else◌, contains_char, split, nat_eq, length,
}
use hypha_rpc.Session.Tree.{Value, Fields, func, dict, text, get}
use hypha_rpc.Session.State.{
  Error, exception, value_error, key_error, permission_error, assertion_error, type_error, Result,
  ok, err, ◌>>=◌, top_key,
}

-- An entry of `_method_annotations`, as `_annotate_service_methods` writes it.
pub record Annotation : Type 0 where
  pub require_context : Bool
  pub run_in_executor : Bool
  pub method_id : String
  pub visibility : String
  pub authorized_workspaces : Option (List String)
  pub trusted_keys : Option (List String)
  pub rintf_allowed_caller : Option String

-- k in l
unfoldable pub contains : List String → String → Bool
contains [] k = false
contains (j ∷ l) k = j == k || contains l k

-- s.split("/")[n], where a missing part is an IndexError
abbrev pub part : ℕ → List String → Result String
part n [] = err (exception "IndexError")
part ℕ.zero (w ∷ ws) = ok w
part (ℕ.suc n) (w ∷ ws) = part n ws

-- Where a call comes from and which workspace it enters.
pub record Route : Type 0 where
  pub remote_workspace : String
  pub remote_client_id : String
  pub recipient : String
  pub local_workspace : String

-- `data["to"]` as an absolute id
abbrev pub absolute : String → String → String
absolute remote_workspace to =
    if contains_char b'/' to then to else concat (concat remote_workspace "/") to

-- The workspace that the client serves: its own setting, or the one that the call names.
abbrev pub serve_workspace : Option String → String → Result String
serve_workspace none target = ok target
serve_workspace (some own) target =
    if not (own == "") && not (own == "*") && not (target == own)
    then err assertion_error
    else ok own

-- The first part of `_handle_method`.
unfoldable pub route : Option String → String → String → Result Route
route local_workspace sender to = do
  remote_workspace ← part 0 (split b'/' sender)
  remote_client_id ← part 1 (split b'/' sender)
  let recipient = absolute remote_workspace to
  target ← part 0 (split b'/' recipient)
  own ← serve_workspace local_workspace target
  ok (record {
    remote_workspace = remote_workspace;
    remote_client_id = remote_client_id;
    recipient = recipient;
    local_workspace = own;
  })

-- `x and y in x` for the list of authorized workspaces
abbrev pub is_authorized : Option (List String) → String → Bool
is_authorized none ws = false
is_authorized (some l) ws = contains l ws

-- `self._method_annotations[method].get("rintf_allowed_caller")`, where the empty text is false
abbrev pub allowed_caller : Annotation → Option String
allowed_caller a = elim a.rintf_allowed_caller [
  | none ↦ none
  | some c ↦ if c == "" then none else some c
]

-- The permission check of `_handle_method` for a method of a service.
unfoldable pub check_service : String → Route → String → Annotation → Result (Unit {0})
check_service manager_id r sender a =
    if not (a.visibility == "protected")
    then ok tt
    else if r.local_workspace == r.remote_workspace
    then ok tt
    else if is_authorized a.authorized_workspaces r.remote_workspace
    then ok tt
    else if r.remote_workspace == "*" && r.remote_client_id == manager_id
    then ok tt
    else elim (allowed_caller a) [
      | some allowed ↦ if sender == allowed then ok tt else err (permission_error sender)
      | none ↦ err (permission_error r.remote_workspace)
    ]

-- `self._object_store[data["method"].split(".")[0]]["target_id"]`
abbrev pub session_target : Fields → String → Result String
session_target store method = elim (get store (top_key method)) [
  | none ↦ err (key_error method)
  | some (dict session) ↦ elim (get session "target_id") [
    | some (text t) ↦ ok t
    | some _ ↦ err type_error
    | none ↦ err (key_error "target_id")
  ]
  | some _ ↦ err type_error
]

-- The target as an absolute id, within one workspace.
abbrev pub qualify : Route → String → String
qualify r target =
    if r.local_workspace == r.remote_workspace
      && not (target == "")
      && not (contains_char b'/' target)
    then concat (concat r.local_workspace "/") target
    else target

-- The permission check of `_handle_method` for a method of a session.
unfoldable pub check_session : Fields → Route → String → String → Result (Unit {0})
check_session store r sender method = do
  target ← session_target store method
  if qualify r target == sender then ok tt else err (permission_error sender)

unfoldable pub check_permission :
    Fields → String → Route → String → String → Option Annotation → Result (Unit {0})
unfolding check_service check_session
check_permission store manager_id r sender method (some a) = check_service manager_id r sender a
check_permission store manager_id r sender method none = check_session store r sender method

-- The check of `trusted_keys`; the key is the caller's public key in hex, if the call was encrypted.
unfoldable pub check_trusted : Option Annotation → Option String → Result (Unit {0})
check_trusted none key = ok tt
check_trusted (some a) key = elim a.trusted_keys [
  | none ↦ ok tt
  | some trusted ↦ elim key [
    | none ↦ err (permission_error "encryption required")
    | some k ↦ if contains trusted k then ok tt else err (permission_error k)
  ]
]

-- The part of a service's `config` that its readers look at.
pub record ServiceConfig : Type 0 where
  pub visibility : Option String
  pub authorized_workspaces : Option (List String)

-- `RPC.get_local_service`, for the entry that `_services` has under the id; `to` and `ws` are the
-- context's.
unfoldable pub get_local_service :
    {S : Type 0} → (S → ServiceConfig) → String → String → String → String → Option S → Result S
get_local_service config client_id service_id to ws service =
    if not (nat_eq (length (split b'/' to)) 2) then err (value_error "values to unpack") else do
      own_ws ← part 0 (split b'/' to)
      target ← part 1 (split b'/' to)
      if not (target == client_id) then err assertion_error else elim service [
        | none ↦ err (key_error service_id)
        | some s ↦
            let c = config s in
            if (elim c.visibility [ none ↦ false | some v ↦ v == "public" || v == "unlisted" ])
            then ok s
            else if ws == own_ws
            then ok s
            else if is_authorized c.authorized_workspaces ws
            then ok s
            else err (exception service_id)
      ]
