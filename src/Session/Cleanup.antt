-- ===== src/Session/Cleanup.antt =====
-- What the session code of python/hypha_rpc/rpc.py does to one session: its resources are stopped,
-- its callbacks run, it is taken out of the store and out of the target index.
use hypha_rpc.Prelude.{
  String, Bool, true, ◌&&◌, ◌||◌, not, Option, none, some, List, [], ◌∷◌, ◌++◌, ◌==◌, if◌then◌else◌,
  ends_with,
}
use hypha_rpc.Prelude.Dict
use hypha_rpc.Session.Tree.{
  Value, Fields, dict, timer, task, end, field, get, put, del, keys, as_dict, text_at,
}
use hypha_rpc.Session.Timer.{Heap, is_done, cancel, clear}
use hypha_rpc.Session.State.{Rpc, levels, top_key}

-- s.discard(k)
unfoldable pub discard : List String → String → List String
discard [] k = []
discard (j ∷ s) k = let rest = discard s k in if j == k then rest else j ∷ rest

-- `index[owner].discard(k)`, and the owner goes with its last entry
unfoldable pub unindex : Dict.Dict (List String) → String → String → Dict.Dict (List String)
unfolding discard
unindex index owner k = elim (Dict.get index owner) [
  | none ↦ index
  | some s ↦ elim (discard s k) [
    | [] ↦ Dict.del index owner
    | j ∷ rest ↦ Dict.put index owner (j ∷ rest)
  ]
]

-- `RPC._remove_from_target_id_index`
unfoldable pub remove_from_target_id_index : String → Rpc → Rpc
unfolding unindex
remove_from_target_id_index session_id r =
    elim (as_dict (get r.object_store (top_key session_id))) [
      | none ↦ r
      | some session ↦ elim (text_at session "target_id") [
        | none ↦ r
        | some target_id ↦ record r {
          target_id_index = unindex r.target_id_index target_id (top_key session_id);
        }
      ]
    ]

-- The heartbeat and the timer, in `RPC._cleanup_session_entry`.
unfoldable pub stop_heartbeat : Fields → Heap → Heap
unfolding cancel
stop_heartbeat session h = elim (get session "heartbeat_task") [
  | some (task t) ↦ if is_done (h.tasks t) then h else cancel t h
  | _ ↦ h
]

unfoldable pub stop_timer : Fields → Heap → Heap
unfolding clear
stop_timer session h = elim (get session "timer") [
  | some (timer i) ↦ if (h.timers i).started then clear i h else h
  | _ ↦ h
]

-- The tasks under a key that ends in `_task`, in `RPC._cleanup_session_resources`.
unfoldable pub stop_tasks : Fields → Heap → Heap
unfolding cancel
stop_tasks end h = h
stop_tasks (field key (task t) rest) h = stop_tasks rest (
    if ends_with key "_task" && not (key == "heartbeat_task") && not (is_done (h.tasks t))
    then cancel t h
    else h)
stop_tasks (field key _ rest) h = stop_tasks rest h

-- `RPC._cleanup_session_resources`
unfoldable pub cleanup_session_resources : Option Value → Heap → Heap
unfolding stop_heartbeat stop_timer stop_tasks
cleanup_session_resources (some (dict session)) h =
    stop_tasks session (stop_timer session (stop_heartbeat session h))
cleanup_session_resources _ h = h

-- `current_store` after the walk of `_delete_session_completely` along the parents.
unfoldable pub container : List String → Fields → Option Fields
container [] d = some d
container (level ∷ rest) d = elim (get d level) [ some (dict e) ↦ container rest e | _ ↦ none ]

-- Deletes `key` from the dictionary at the end of the path.
unfoldable pub del_path : List String → String → Fields → Fields
del_path [] key d = del d key
del_path (level ∷ rest) key d = elim (get d level) [
  | some (dict e) ↦ put d level (dict (del_path rest key e))
  | _ ↦ d
]

-- `levels[:-1]` and `levels[-1]`
abbrev pub split_last : String → List String → List String × String
split_last x [] = ([], x)
split_last x (y ∷ ys) = let r = split_last y ys in (x ∷ r.0, r.1)

-- Each container on the path with the parents above it, the deepest first.
abbrev pub prefixes : List String → List String → List (List String × String)
prefixes above [] = []
prefixes above (x ∷ xs) = prefixes (above ++ x ∷ []) xs ++ (above, x) ∷ []

-- No key but the system stores is left.
abbrev pub only_system_keys : List String → Bool
only_system_keys [] = true
only_system_keys (k ∷ ks) = (k == "services" || k == "message_cache") && only_system_keys ks

-- `RPC._cleanup_empty_parent_containers`, over `prefixes [] parent_levels`
unfoldable pub cleanup_empty_parents : List (List String × String) → Fields → Fields
unfolding container del_path keys
cleanup_empty_parents [] d = d
cleanup_empty_parents ((above, target_key) ∷ more) d =
    let gone = cleanup_empty_parents more (del_path above target_key d) in
    let next = cleanup_empty_parents more d in
    elim (container above d) [
      | none ↦ d
      | some parent ↦ elim (get parent target_key) [
        | some (dict e) ↦ if only_system_keys (keys e) then gone else d
        | _ ↦ next
      ]
    ]

-- The nested case of `RPC._delete_session_completely`.
unfoldable pub delete_nested : List String → String → Rpc → Rpc
unfolding cleanup_empty_parents cleanup_session_resources
delete_nested parents key r = elim (container parents r.object_store) [
  | none ↦ r
  | some store ↦ elim (get store key) [
    | none ↦ r
    | some session_data ↦ record r {
      object_store =
          cleanup_empty_parents (prefixes [] parents) (del_path parents key r.object_store);
      heap = cleanup_session_resources (some session_data) r.heap;
    }
  ]
]

-- The top-level case of `RPC._delete_session_completely`.
unfoldable pub delete_top : String → Rpc → Rpc
unfolding cleanup_session_resources
delete_top key r = elim (get r.object_store key) [
  | none ↦ r
  | some session_data ↦ record r {
    object_store = del r.object_store key;
    heap = cleanup_session_resources (some session_data) r.heap;
  }
]

abbrev pub delete_levels : List String → Rpc → Rpc
delete_levels [] r = r
delete_levels (key ∷ []) r = delete_top key r
delete_levels (key ∷ next ∷ rest) r =
    let (parents, last) = split_last key (next ∷ rest) in delete_nested parents last r

-- `RPC._delete_session_completely`
unfoldable pub delete_session_completely : String → Rpc → Rpc
unfolding remove_from_target_id_index delete_top delete_nested
delete_session_completely session_id r =
    if session_id == ""
    then r
    else delete_levels (levels session_id) (remove_from_target_id_index session_id r)

-- `RPC._delete_session_safely`
unfoldable pub delete_session_safely : String → Rpc → Rpc
unfolding remove_from_target_id_index
delete_session_safely session_id r = elim (levels session_id) [
  | key ∷ [] ↦ elim (get r.object_store key) [
    | none ↦ r
    | some session ↦
        let r' = remove_from_target_id_index session_id r in
        record r' { object_store = del r'.object_store key }
  ]
  | _ ↦ r
]
