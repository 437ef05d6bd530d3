-- ===== src/Examples/Calls.antt =====
-- Calls of services and of sessions.
use hypha_rpc.Session.Call.{open_call, encode_promise, kept_callback, usable_timer}
use hypha_rpc.Session.Call.RoundTrip.{Restored}
use hypha_rpc.Session.Promise.{run_callback}
use hypha_rpc.Access.Answer.{
  Promise, Run, returns, beating, serve, keep_heartbeat, drop_heartbeat, open_session,
}
use hypha_rpc.Session.Call.{modify_path}
use hypha_rpc.Access.Answer.Once.{Answered, Reaches, serve-Answered, heartbeat-serve}
use hypha_rpc.Access.Dispatch.Reply.{reply, handle_method-Restored}
use hypha_rpc.Examples.Store.{waiting, busy_heap-IsValid, call2-IsTopLevel}
use hypha_rpc.Prelude.{
  ℕ, String, ◌≡◌, refl, ◌↔◌, ◌⊎◌, inl, inr, true, false, Option, none, some, [], ◌∷◌, ◌==◌,
  if◌then◌else◌, split, contains_char,
}
use hypha_rpc.Session.Tree.{
  Value, Fields, Items, resolves, callback, dict, text, num, task, func, field, end, get, put, del,
}
use hypha_rpc.Session.State.{
  Rpc, Result, ok, err, type_error, exception, permission_error, walk, get_session_store,
}
use hypha_rpc.Access.{Annotation, Route, check_permission, route, contains, qualify}
use hypha_rpc.Access.{ServiceConfig, get_local_service, is_authorized, part}
use hypha_rpc.Access.Local.{is_open, get_local_service_lem}
use hypha_rpc.Access.Permission.{Permitted, check_permission_iff}
use hypha_rpc.Access.Dispatch.{
  Call, Envelope, Outcome, executed, refused, Config, handle_method, index_object, open_envelope,
  authorize, check_parent, stamp, is_promise_method_call,
}
use hypha_rpc.Access.Dispatch.Safety.{Allowed, handle_method-Allowed}
use hypha_rpc.Access.Services.{
  Options, Checked, Services, add_service, annotate, annotate_fields, check_api, is_visibility,
  check_workspaces, check_keys, public_members, all_texts,
}
use hypha_rpc.Access.Services.Added.{add_service_lem, add_service-reannotates, Permits}
use hypha_rpc.Access.Services.Marked.{WithinFields, Has}

abbrev protected_method : Annotation
protected_method = record {
  require_context = true;
  run_in_executor = false;
  method_id = "services.s.f";
  visibility = "protected";
  authorized_workspaces = some ("friends" ∷ []);
  trusted_keys = none;
  rintf_allowed_caller = none;
}

abbrev from_friends : Route
from_friends = record {
  remote_workspace = "friends";
  remote_client_id = "c";
  recipient = "home/me";
  local_workspace = "home";
}

check_permission_iff_example :
    (check_permission end "manager" from_friends "friends/c" "services.s.f" (some protected_method)
      ≡ ok tt)
    ↔ Permitted end "manager" from_friends "friends/c" "services.s.f" (some protected_method)
check_permission_iff_example =
    check_permission_iff end "manager" from_friends "friends/c" "services.s.f"
      (some protected_method)

abbrev serving : Rpc
serving = record waiting {
  object_store = field "services" (dict (field "s" (dict (field "f" (func 1) end)) end)) end;
}

abbrev call : Call
call = record {
  method = "services.s.f";
  sender = "friends/c";
  to = "home/me";
  parent = none;
  session = some (some "visit");
  envelope = none;
}

abbrev config : Config
config = record {
  local_workspace = some "home";
  manager_id = "manager";
  encryption_enabled = false;
}

abbrev no_item : Items → String → Result Value
no_item xs k = err type_error

abbrev no_attribute : Value → String → Result Value
no_attribute v k = err type_error

abbrev no_key : Envelope → Option (Call → Call)
no_key e = none

abbrev annotated : Value → Option Annotation
annotated v = some protected_method

handle_method-Allowed_example :
    Allowed no_item no_attribute no_key annotated config 7 call serving (func 1)
unfolding handle_method index_object open_envelope authorize check_parent stamp check_permission
    hypha_rpc.Access.check_service route contains split contains_char get
    hypha_rpc.Access.check_trusted
handle_method-Allowed_example =
    handle_method-Allowed no_item no_attribute no_key annotated config 7 call serving (func 1) true
      refl

-- The callbacks of promises are not annotated.
abbrev unannotated : Value → Option Annotation
unannotated (func n) = some protected_method
unannotated _ = none

abbrev from_peer : Route
from_peer = record {
  remote_workspace = "ws";
  remote_client_id = "peer";
  recipient = "home/me";
  local_workspace = "home";
}

handle_method-Restored_example :
    let c = kept_callback "call2" "resolve" (resolves 7) true (usable_timer 3 (some 0)) in
    let handled : Rpc → Outcome × Rpc = λ r.
      handle_method no_item no_attribute no_key unannotated config 9
        (reply no_item no_attribute no_key unannotated "call2" "ws/peer" "home/me")
        r in
    (r1 r2 : Rpc) × (open_call none "call2" "ws/peer" 5 waiting ≡ ok (r1, "call2"))
    × (encode_promise "call2" 7 true (some 0) 3 5 r1 ≡ ok r2)
    × ((handled r2).0 ≡ (
        if qualify from_peer "ws/peer" == "ws/peer"
        then executed (callback c) false
        else refused (permission_error "ws/peer")))
    × Restored 7 waiting (run_callback c (exception "unused") (handled r2).1)
unfolding get route split contains_char
handle_method-Restored_example =
    handle_method-Restored no_item no_attribute no_key unannotated config "call2" "ws/peer"
      "ws/peer" "home/me" 7 (some 0) 3 5 9 (exception "unused") from_peer waiting
      (record { top = call2-IsTopLevel; absent = refl; waits = refl; valid = busy_heap-IsValid })
      (λ c. refl) refl

abbrev beats : Call → Result Promise
beats c = ok (some true)

abbrev adds : Value → Run
adds v = returns

-- The caller's session, in which the heartbeat is kept.
abbrev visited : Fields → Fields → Rpc
visited services visit = record waiting {
  object_store = field "services" (dict services) (field "visit" (dict visit) end);
}

abbrev visit : Fields
visit = field "_created_at" (num 3) end

abbrev beating_visit : Fields
beating_visit = field "_created_at" (num 3) (field "heartbeat_task" (task 5) end)

abbrev sums : Fields
sums = field "s" (dict (field "f" (func 1) end)) end

call-Reaches :
    (services : Fields)
    → Reaches no_item no_attribute no_key annotated beats 5 none adds config call call from_friends
        none true
        (visited services visit)
        (visited services beating_visit)
unfolding route open_envelope split contains_char keep_heartbeat walk get put get_session_store
    open_session modify_path
call-Reaches services = record { routed = refl; opened = refl; decoded = refl; kept = refl }

serve-Answered_example :
    Answered none adds
      (handle_method no_item no_attribute no_key annotated config 7 call
        (visited sums beating_visit)).0
      (serve no_item no_attribute no_key annotated beats 5 none adds config 7 call
        (visited sums visit)).0
unfolding drop_heartbeat stamp split get put del get_session_store walk open_session modify_path
serve-Answered_example =
    serve-Answered no_item no_attribute no_key annotated beats 5 none adds config 7 call call
      from_friends none true (visited sums visit) (visited sums beating_visit) (visited sums visit)
      (call-Reaches sums) refl

heartbeat-serve_example :
    (serve no_item no_attribute no_key annotated beats 5 none adds config 7 call
      (visited end visit)).0.heartbeat
    ≡ beating
unfolding index_object get split is_promise_method_call get_session_store walk
heartbeat-serve_example =
    heartbeat-serve no_item no_attribute no_key annotated beats 5 none adds config 7 call call
      from_friends none (visited end visit) (visited end beating_visit) (call-Reaches end)

abbrev no_index : ℕ → String
no_index i = ""

abbrev api : Fields
api = field "id" (text "s") (field "f" (func 1) end)

abbrev for_friends : Options
for_friends = record {
  require_context = inr true;
  run_in_executor = false;
  visibility = "protected";
  authorized_workspaces = some (some "friends" ∷ []);
  trusted_keys = [];
  rintf_allowed_caller = none;
}

abbrev checked : Checked
checked = record {
  service_id = "s";
  api = field "id" (text "s") (
      field "f" (func 1)
        (field "name" (text "s") (field "config" (dict end) (field "type" (text "generic") end))));
  workspaces = some ("friends" ∷ []);
  trusted = none;
}

abbrev no_services : Services
no_services = record { services = end; annotations = [] }

add_service_example :
    (c : Checked) × (check_api api for_friends ≡ ok c)
    × (is_visibility for_friends.visibility ≡ true)
    × ((c.workspaces ≡ none) ⊎ (for_friends.visibility ≡ "protected"))
    × ((false ≡ true) ⊎ (get no_services.services c.service_id ≡ none))
    × ((k : String)
        → get (add_service no_index api for_friends false no_services).1.services k
          ≡ (if c.service_id == k then some (dict checked.api) else get no_services.services k))
unfolding add_service check_api check_workspaces check_keys public_members all_texts get put
    annotate_fields split hypha_rpc.Access.Services.join_dots
add_service_example = add_service_lem no_index api checked.api for_friends false no_services refl

-- The function of the service was public before.
abbrev open_before : Services
open_before = record {
  services = field "s" (dict end) end;
  annotations = (1, record protected_method { visibility = "public" }) ∷ [];
}

add_service-reannotates_example :
    ((add_service no_index api for_friends false open_before).0
      ≡ err (exception "Service already exists"))
    × ((add_service no_index api for_friends false open_before).1.services ≡ open_before.services)
    × Has
        (Permits for_friends checked)
        1
        (add_service no_index api for_friends false open_before).1.annotations
unfolding check_api check_workspaces check_keys public_members all_texts get put WithinFields
add_service-reannotates_example =
    add_service-reannotates no_index api for_friends open_before checked 1 refl refl
      (inr (inl refl))

abbrev shared : ServiceConfig
shared = record { visibility = some "protected"; authorized_workspaces = some ("friends" ∷ []) }

abbrev its_config : ServiceConfig → ServiceConfig
its_config c = c

get_local_service_example :
    (some shared ≡ some shared)
    × (part 1 (split b'/' "home/me") ≡ ok "me")
    × ((is_open shared.visibility ≡ true)
        ⊎ (part 0 (split b'/' "home/me") ≡ ok "friends")
        ⊎ (is_authorized shared.authorized_workspaces "friends" ≡ true))
unfolding get_local_service split contains
get_local_service_example =
    get_local_service_lem its_config "me" "s" "home/me" "friends" (some shared) shared refl
