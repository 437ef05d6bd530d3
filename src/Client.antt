-- ===== src/Client.antt =====
-- The handlers that class RPC gives its connection, `on_connected` and `on_connection_lost` in
-- `__init__`, with `get_manager_service` and `close` (python/hypha_rpc/rpc.py). What the server answers
-- is an input. What other tasks do while a handler waits is not here, except at the wait for the
-- subscription, where a run of `on_connected` is cut in two.
pub mod Connected
pub mod Ended
pub mod Single
pub mod Reported
pub mod Lost
pub mod Partial
pub mod Closed
use Prim.Native.String.{◌++◌ as concat}
use hypha_rpc.Prelude.{
  ℕ, zero, suc, ◌+◌, ◌-◌, ◌*◌, ◌^◌, min, String, Bool, true, false, ◌&&◌, not, Option, none, some,
  List, [], ◌∷◌, ◌++◌, ◌==◌, if◌then◌else◌, length, nat_eq, is_some,
}
use hypha_rpc.Prelude.Dict
use hypha_rpc.Session.Tree.{Value, Fields, text, dict, end, field, get}
use hypha_rpc.Session.State.{
  Rpc, Error, Result, ok, err, connection_error, assertion_error, type_error,
}
use hypha_rpc.Session.Sweep.{
  cleanup_sessions_for_client, reject_pending_calls, cleanup_on_disconnect,
}
use hypha_rpc.Session.Close.{close_sessions}
use hypha_rpc.Emitter.{Handler, Emitter, on, off, fire, removed, value_error}
use hypha_rpc.Access.Info.{Info, Identity, extract_service_info, is_local_only, get_default}

-- What `manager.subscribe` returns.
pub record Subscription : Type 0 where
  pub identity : ℕ
  pub has_unsubscribe : Bool

-- The events that the handlers fire, with their data.
pub data Event : Type 0 where
  manager_refreshed connected disconnected : Event
  services_registered : ℕ → ℕ → List Value → Event
  services_registration_failed : Error → ℕ → Event

abbrev pub event_name : Event → String
event_name manager_refreshed = "manager_refreshed"
event_name connected = "connected"
event_name disconnected = "disconnected"
event_name (services_registered total registered failed) = "services_registered"
event_name (services_registration_failed e total) = "services_registration_failed"

pub record Client : Type 0 where
  pub rpc : Rpc
  pub emitter : Emitter
  pub identity : Identity
  pub silent : Bool
  -- `_connection`, and its `_services_registered_ok`
  pub has_connection : Bool
  pub services_registered_ok : Bool
  pub last_manager_id : Option String
  -- `_client_disconnected_subscription` and `_bound_handle_client_disconnected`
  pub subscription : Option Subscription
  pub bound : Option Handler
  pub server_base_url : Option String
  -- there is a session GC task that is not done
  pub collects : Bool
  -- background tasks that are not done
  pub background_tasks : List ℕ
  -- what was done outside, newest last: requests to register, calls of unsubscribe, delays of sleeps,
  -- cancelled tasks, events
  pub requests : List Info
  pub unsubscribed : List ℕ
  pub sleeps : List ℕ
  pub cancelled : List ℕ
  pub events : List Event

-- The server during one connection.
pub record Server : Type 0 where
  -- `connection.manager_id`
  pub manager_id : String
  -- the attempts to get the manager service: none where one succeeds
  pub manager : ℕ → Option Error
  -- the answers to the requests to register, by their number
  pub registers : ℕ → Option Error
  pub can_subscribe : Bool
  pub subscribes : Result (Option Subscription)

-- `self._fire`
abbrev pub emit : Event → Client → Client
emit event c = record c {
  emitter = fire (event_name event) c.emitter;
  events = c.events ++ event ∷ [];
}

-- min(base_delay * (2**attempt), max_delay), in milliseconds
abbrev pub manager_delay : ℕ → ℕ
manager_delay attempt = min (500 * 2 ^ attempt) 10000

-- The loop of `get_manager_service`, by the attempts that are left: the error that is raised, if one
-- is, and the delays of the sleeps.
unfoldable pub get_manager_from : (ℕ → Option Error) → ℕ → ℕ → Option Error → Option Error × List ℕ
get_manager_from manager zero attempt last_error =
    (some (elim last_error [ none ↦ type_error | some e ↦ e ]), [])
get_manager_from manager (suc left) attempt last_error =
    let rest : Error → Option Error × List ℕ =
      λ e. get_manager_from manager left (attempt + 1) (some e) in
    elim (manager attempt) [
      | none ↦ (none, [])
      | some e ↦
          let (result, sleeps) = rest e in
          (result, if nat_eq left 0 then sleeps else manager_delay attempt ∷ sleeps)
    ]

-- `RPC.get_manager_service` with its default number of retries.
unfoldable pub get_manager_service : Server → Option Error × List ℕ
unfolding get_manager_from
get_manager_service s =
    if s.manager_id == "" then (some assertion_error, []) else get_manager_from s.manager 20 0 none

-- The values of `_services`; a service is a dictionary.
unfoldable pub service_values : Fields → List Fields
service_values end = []
service_values (field k (dict d) rest) = d ∷ service_values rest
service_values (field k v rest) = service_values rest

abbrev pub services_of : Rpc → List Fields
services_of r = elim (get r.object_store "services") [ some (dict d) ↦ service_values d | _ ↦ [] ]

-- The variables of the loop that registers the services.
pub record Report : Type 0 where
  pub total : ℕ
  pub registered : ℕ
  pub failed : List Value
  pub sent : List Info

abbrev pub failed_service : Fields → Report → Report
failed_service service p = record p {
  failed = p.failed ++ get_default service "id" (text "unknown") ∷ [];
}

-- One round: a service that is only local is skipped; a timeout and any other exception count as a
-- failure.
unfoldable pub register_one :
    (Value → String) → Identity → (ℕ → Option Error) → Fields → Report → Report
register_one show me answer service p =
    if is_local_only service
    then record p { total = p.total - 1 }
    else elim (extract_service_info show me service) [
      | err e ↦ failed_service service p
      | ok info ↦
          let p' = record p { sent = p.sent ++ info ∷ [] } in
          elim (answer (length p.sent)) [
            | none ↦ record p' { registered = p.registered + 1 }
            | some e ↦ failed_service service p'
          ]
    ]

unfoldable pub register_each :
    (Value → String) → Identity → (ℕ → Option Error) → List Fields → Report → Report
unfolding register_one
register_each show me answer [] p = p
register_each show me answer (service ∷ rest) p =
    register_each show me answer rest (register_one show me answer service p)

abbrev pub no_failures : List Value → Bool
no_failures [] = true
no_failures (v ∷ vs) = false

abbrev pub empty_report : List Fields → Report
empty_report services = record { total = length services; registered = 0; failed = []; sent = [] }

-- The registration of all services, from the loop to the flag that the reconnection reads.
unfoldable pub register_services : (Value → String) → Server → Client → Client
unfolding register_each fire service_values
register_services show s c =
    let services = services_of c.rpc in
    let p = register_each show c.identity s.registers services (empty_report services) in
    record (emit (services_registered p.total p.registered p.failed) c) {
      requests = c.requests ++ p.sent;
      services_registered_ok = no_failures p.failed;
    }
