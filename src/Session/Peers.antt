-- ===== src/Session/Peers.antt =====
-- Peers that are gone (python/hypha_rpc/rpc.py): the server's `peer_not_found`, the event
-- `client_disconnected`, and the callback services (`_rintf`) that were made for one client.
pub mod Stale
pub mod Callbacks
use hypha_rpc.Prelude.{
  ℕ, ◌+◌, String, Bool, true, false, Option, none, some, List, [], ◌∷◌, ◌++◌, ◌==◌, if◌then◌else◌,
  nat_eq,
}
use hypha_rpc.Prelude.Dict
use hypha_rpc.Session.Tree.{
  Value, Fields, Items, dict, array, func, callback, cons, nil, end, field, get, put, del, as_dict,
  truthy, callable,
}
use hypha_rpc.Session.State.{Rpc, Error, connection_error}
use hypha_rpc.Session.Cleanup.{remove_from_target_id_index, unindex}
use hypha_rpc.Session.Promise.{cleanup_session_entry}
use hypha_rpc.Session.Sweep.{cleanup_sessions_for_client, remove_session}

-- The part of `_handle_peer_not_found` for the session that the notice names.
unfoldable pub release_named : String → Error → Rpc → Rpc
unfolding cleanup_session_entry remove_from_target_id_index
release_named session_id reason r = elim (as_dict (get r.object_store session_id)) [
  | none ↦ r
  | some session ↦
      if truthy (dict session)
      then (let cleaned = cleanup_session_entry (some (dict session)) (some reason) r in
          remove_from_target_id_index session_id (remove_session session_id cleaned))
      else r
]

-- `if session_id` for the field of the notice
abbrev pub named : Option String → Option String
named none = none
named (some s) = if s == "" then none else some s

-- `RPC._handle_peer_not_found`, for the session and the peer that the notice names
unfoldable pub handle_peer_not_found : Option String → String → Error → Rpc → Rpc
unfolding release_named cleanup_sessions_for_client
handle_peer_not_found session peer_id reason r =
    let r' = elim (named session) as (λ _. Rpc) [ none ↦ r | some s ↦ release_named s reason r ] in
    if peer_id == "" then r' else (cleanup_sessions_for_client peer_id r').1

-- The annotations of the callables of a service, by identity.
abbrev pub Annotated : Type 0
Annotated = List ℕ

unfoldable pub forget : ℕ → Annotated → Annotated
forget n [] = []
forget n (m ∷ ms) = let rest = forget n ms in if nat_eq m n then rest else m ∷ rest

-- `RPC._remove_service_annotations`
unfoldable mutual
  pub forget_value : Value → Annotated → Annotated
  forget_value (func n) a = forget n a
  forget_value (dict d) a = forget_fields d a
  forget_value (array xs) a = forget_items xs a
  forget_value _ a = a

  pub forget_fields : Fields → Annotated → Annotated
  forget_fields end a = a
  forget_fields (field k v d) a = forget_fields d (forget_value v a)

  pub forget_items : Items → Annotated → Annotated
  forget_items nil a = a
  forget_items (cons v xs) a = forget_items xs (forget_value v a)

-- The services, which `_object_store["services"]` and `_services` share, with their annotations.
pub record Registry : Type 0 where
  pub services : Fields
  pub annotated : Annotated
  pub rintf_caller_index : Dict.Dict (List String)
  -- the `_dispose` callables that were called
  pub disposed : List Value

abbrev pub remove_service : String → Value → Registry → Registry
remove_service sid svc g = record g {
  services = del g.services sid;
  annotated = forget_value svc g.annotated;
}

-- `RPC._unregister_rintf_service`
unfoldable pub unregister_rintf_service : String → Option String → Registry → Registry
unfolding unindex
unregister_rintf_service service_id allowed_caller g =
    let g' = elim (get g.services service_id) as (λ _. Registry) [
      | none ↦ g
      | some svc ↦ remove_service service_id svc g
    ] in
    elim (named allowed_caller) as (λ _. Registry) [
      | none ↦ g'
      | some caller ↦ record g' {
        rintf_caller_index = unindex g'.rintf_caller_index caller service_id;
      }
    ]

abbrev pub dispose : Value → Registry → Registry
dispose (dict svc) g = elim (get svc "_dispose") [
  | none ↦ g
  | some f ↦ if callable f then record g { disposed = g.disposed ++ f ∷ [] } else g
]
dispose _ g = g

unfoldable pub cleanup_services : List String → ℕ × Registry → ℕ × Registry
cleanup_services [] s = s
cleanup_services (sid ∷ rest) (n, g) = cleanup_services rest (elim (get g.services sid) [
  | none ↦ (n, g)
  | some svc ↦ (n + 1, remove_service sid svc (dispose svc g))
])

-- `RPC._cleanup_rintf_for_caller`
unfoldable pub cleanup_rintf_for_caller : String → Registry → ℕ × Registry
cleanup_rintf_for_caller client_id g = elim (Dict.get g.rintf_caller_index client_id) [
  | none ↦ (0, g)
  | some service_ids ↦
      cleanup_services service_ids
        (0, record g { rintf_caller_index = Dict.del g.rintf_caller_index client_id })
]

-- `RPC._handle_client_disconnected`: the counts that its event reports, the sessions' first.
unfoldable pub handle_client_disconnected : String → Rpc → Registry → ℕ × ℕ × Rpc × Registry
unfolding cleanup_sessions_for_client cleanup_rintf_for_caller
handle_client_disconnected client_id r g =
    let (sessions_cleaned, r') = cleanup_sessions_for_client client_id r in
    let (rintf_cleaned, g') = cleanup_rintf_for_caller client_id g in
    (sessions_cleaned, rintf_cleaned, r', g')
