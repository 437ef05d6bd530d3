-- ===== src/Access/Info.antt =====
-- What is reported of a service to the server: `RPC._extract_service_info` (python/hypha_rpc/rpc.py).
-- The schema of its methods is left out.
use hypha_rpc.Prelude.{String, Bool, false, Option, none, some}
use Prim.Native.String.{◌++◌ as concat}
use hypha_rpc.Session.Tree.{Value, Fields, nothing, text, dict, end, get, put, truthy}
use hypha_rpc.Session.State.{Result, ok, err, exception, key_error, value_error, ◌>>=◌}

pub record Info : Type 0 where
  pub config : Fields
  pub id : String
  pub name : Value
  pub description : Value
  pub service_type : Value
  pub docs : Value
  pub app_id : String

-- Who reports: `_local_workspace or _connection.workspace`, `_client_id` and `_app_id`.
pub record Identity : Type 0 where
  pub workspace : Option String
  pub client_id : String
  pub app_id : String

-- d.get(key, default)
abbrev pub get_default : Fields → String → Value → Value
get_default d key v = elim (get d key) [ none ↦ v | some w ↦ w ]

abbrev pub workspace_value : Option String → Value
workspace_value none = nothing
workspace_value (some w) = text w

abbrev as_config : Value → Result Fields
as_config (dict d) = ok d
as_config _ = err (exception "the config has no get")

abbrev require_workspace : Value → Result Value
require_workspace nothing = err (value_error "Workspace is not set.")
require_workspace w = ok w

abbrev require_id : Option Value → Result Value
require_id none = err (key_error "id")
require_id (some v) = ok v

-- f"{workspace}/{client_id}:{id}"
abbrev pub full_id : String → String → String → String
full_id workspace client_id id = concat workspace (concat "/" (concat client_id (concat ":" id)))

abbrev pub info_of : (Value → String) → Identity → Fields → Fields → Value → Value → Info
info_of show me service config workspace id = record {
  config = put config "workspace" workspace;
  id = full_id (show workspace) me.client_id (show id);
  name = get_default service "name" id;
  description = get_default service "description" nothing;
  service_type = get_default service "type" (text "generic");
  docs = get_default service "docs" nothing;
  app_id = me.app_id;
}

-- `RPC._extract_service_info`; `show` is Python's `str`.
unfoldable pub extract_service_info : (Value → String) → Identity → Fields → Result Info
extract_service_info show me service = do
  config ← as_config (get_default service "config" (dict end))
  workspace ← require_workspace (get_default config "workspace" (workspace_value me.workspace))
  id ← require_id (get service "id")
  ok (info_of show me service config workspace id)

-- svc_cfg = service.get("config") or {}; isinstance(svc_cfg, dict) and svc_cfg.get("_local_only")
unfoldable pub is_local_only : Fields → Bool
is_local_only service = elim (get service "config") [
  | some (dict d) ↦ elim (get d "_local_only") [ none ↦ false | some v ↦ truthy v ]
  | _ ↦ false
]
