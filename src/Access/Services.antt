-- ===== src/Access/Services.antt =====
-- `RPC.add_service`, `RPC._annotate_service_methods` and `RPC.unregister_service`
-- (python/hypha_rpc/rpc.py), for a service that is a dictionary of local methods.
pub mod Marked
pub mod Added
use hypha_rpc.Prelude.{
  ℕ, String, ◌≡◌, refl, Bool, true, false, ◌&&◌, ◌||◌, not, Option, none, some, List, [], ◌∷◌, ◌++◌,
  ◌==◌, arith, nat_eq, if◌then◌else◌, starts_with, contains_char, split, is_some, length, eq_iff,
  eq_refl, Bool-cases, inl, inr, All, ◌⊎◌,
}
use Prim.Native.String.{◌++◌ as concat}
use hypha_rpc.Prelude.Text.{char_count}
use hypha_rpc.Prelude.Dict
use hypha_rpc.Session.Tree.{
  Value, Fields, Items, func, dict, array, text, flag, callback, cons, nil, end, field, get, put,
  del, keys, truthy, callable, get-put,
}
use hypha_rpc.Session.State.{
  Error, exception, value_error, assertion_error, type_error, Result, ok, err, ◌>>=◌,
}
use hypha_rpc.Session.Cleanup.{discard}
use hypha_rpc.Session.Peers.{Registry, forget_value, remove_service}
use hypha_rpc.Access.{Annotation, contains}

-- The settings of a service that `add_service` reads from its `config`.
pub record Options : Type 0 where
  -- a list of method names, or one flag for all methods
  pub require_context : List String ⊎ Bool
  pub run_in_executor : Bool
  pub visibility : String
  -- none where it is missing; the entries that are no texts are none
  pub authorized_workspaces : Option (List (Option String))
  pub trusted_keys : List (Option String)
  pub rintf_allowed_caller : Option String

abbrev pub allowed_magic : String → Bool
allowed_magic a = a == "__enter__" || a == "__exit__" || a == "_dispose"

-- The members of a service that are kept.
unfoldable pub public_members : Fields → Fields
public_members end = end
public_members (field a v rest) =
    let kept = public_members rest in
    if not (starts_with a "_") || allowed_magic a then field a v kept else kept

abbrev pub with_default : String → Value → Fields → Fields
with_default key v api = if is_some (get api key) then api else put api key v

-- All entries, if all of them are texts that pass the test.
unfoldable pub all_texts : (String → Bool) → List (Option String) → Option (List String)
all_texts test [] = some []
all_texts test (none ∷ rest) = none
all_texts test (some s ∷ rest) =
    let others = all_texts test rest in
    if test s then elim others [ none ↦ none | some l ↦ some (s ∷ l) ] else none

abbrev pub is_visibility : String → Bool
is_visibility v = v == "protected" || v == "public" || v == "unlisted"

-- The checked `authorized_workspaces`.
unfoldable pub check_workspaces : Options → Result (Option (List String))
unfolding all_texts
check_workspaces o = elim o.authorized_workspaces [
  | none ↦ ok none
  | some l ↦
      if not (o.visibility == "protected")
      then err (value_error "authorized_workspaces can only be set when visibility is 'protected'")
      else elim (all_texts (λ s. true) l) [
        | none ↦ err (value_error "Each workspace id in authorized_workspaces must be a string")
        | some ws ↦ ok (some ws)
      ]
]

-- The checked `trusted_keys`; an empty list is none.
unfoldable pub check_keys : List (Option String) → Result (Option (List String))
unfolding all_texts char_count
check_keys [] = ok none
check_keys (k ∷ ks) = elim (all_texts (λ s. nat_eq (char_count s) 64) (k ∷ ks)) [
  | none ↦ err (value_error "Each trusted key must be a 64-char hex string")
  | some l ↦ ok (some l)
]

-- The annotations by the identity of the callable, newest first.
abbrev pub Annotations : Type 0
Annotations = List (ℕ × Annotation)

abbrev pub wants_context : List String ⊎ Bool → String → Bool
wants_context (inl methods) name = contains methods name
wants_context (inr b) name = b

unfoldable pub join_dots : List String → String
join_dots [] = ""
join_dots (w ∷ []) = w
join_dots (w ∷ v ∷ ws) = let rest = join_dots (v ∷ ws) in concat w (concat "." rest)

-- ".".join(object_id.split(".")[1:])
abbrev pub method_name : String → String
method_name object_id = elim (split b'.' object_id) [ [] ↦ "" | w ∷ ws ↦ join_dots ws ]

-- The annotation of a method of the service.
abbrev pub annotate : Options → Option (List String) → Option (List String) → String → Annotation
annotate o workspaces trusted object_id = record {
  require_context = wants_context o.require_context (method_name object_id);
  run_in_executor = o.run_in_executor;
  method_id = concat "services." object_id;
  visibility = o.visibility;
  authorized_workspaces = workspaces;
  trusted_keys = trusted;
  rintf_allowed_caller = o.rintf_allowed_caller;
}

-- object_id + "." + key
abbrev pub under : String → String → String
under object_id key = concat object_id (concat "." key)

module _ (index_text : ℕ → String) (mark : String → Annotation) where
  -- `_annotate_service_methods` below the member with the given name
  unfoldable mutual
    pub annotate_value : String → Value → Annotations → Annotations
    annotate_value name (func n) a = (n, mark name) ∷ a
    annotate_value name (dict d) a = annotate_fields name d a
    annotate_value name (array xs) a = annotate_items name 0 xs a
    annotate_value name _ a = a

    pub annotate_fields : String → Fields → Annotations → Annotations
    annotate_fields name end a = a
    annotate_fields name (field k v d) a =
        annotate_fields name d (annotate_value (under name k) v a)

    pub annotate_items : String → ℕ → Items → Annotations → Annotations
    annotate_items name i nil a = a
    annotate_items name i (cons v xs) a =
        annotate_items name (ℕ.suc i) xs (annotate_value (under name (index_text i)) v a)

unfoldable pub method_annotation : ℕ → Annotations → Option Annotation
method_annotation n [] = none
method_annotation n ((m, x) ∷ a) = if nat_eq m n then some x else method_annotation n a

pub record Services : Type 0 where
  pub services : Fields
  pub annotations : Annotations

-- What is checked before a service is annotated: its id, its members and the checked lists.
pub record Checked : Type 0 where
  pub service_id : String
  pub api : Fields
  pub workspaces : Option (List String)
  pub trusted : Option (List String)

unfoldable pub check_api : Fields → Options → Result Checked
unfolding check_workspaces check_keys public_members
check_api api o =
    let kept = public_members api in
    elim (get kept "id") [
      | some (text service_id) ↦
          let full =
            with_default "type" (text "generic")
              (with_default "config" (dict end) (with_default "name" (text service_id) kept)) in
          if not (is_visibility o.visibility) then err assertion_error else do
            workspaces ← check_workspaces o
            trusted ← check_keys o.trusted_keys
            ok (record {
              service_id = service_id;
              api = full;
              workspaces = workspaces;
              trusted = trusted;
            })
      | _ ↦ err assertion_error
    ]

-- `RPC.add_service` for a dictionary: the members are annotated before the id is looked up.
unfoldable pub add_service :
    (ℕ → String) → Fields → Options → Bool → Services → Result Fields × Services
unfolding check_api annotate_fields
add_service index_text api o overwrite s = elim (check_api api o) [
  | err e ↦ (err e, s)
  | ok c ↦
      let annotated =
        annotate_fields index_text (annotate o c.workspaces c.trusted) c.service_id c.api
          s.annotations in
      if not overwrite && is_some (get s.services c.service_id)
      then (err (exception "Service already exists"), record s { annotations = annotated })
      else (
        ok c.api,
        record { services = put s.services c.service_id (dict c.api); annotations = annotated },
      )
]

-- s.split(sep)[n], for a text that has the separator
abbrev pub piece : ℕ → ℕ → String → String
piece sep n s = elim (split sep s) [
  | [] ↦ ""
  | w ∷ ws ↦ if nat_eq n 0 then w else elim ws [ [] ↦ "" | v ∷ vs ↦ v ]
]

-- The id without the client and without the app.
abbrev pub local_id : String → String
local_id s =
    let t = if contains_char b':' s then piece b':' 1 s else s in
    if contains_char b'@' t then piece b'@' 0 t else t

-- The removal of a `_rintf` service from every caller of the index.
unfoldable pub forget_caller : String → Dict.Dict (List String) → Dict.Dict (List String)
unfolding discard
forget_caller service_id [] = []
forget_caller service_id ((caller, sids) ∷ index) =
    let rest = forget_caller service_id index in
    elim (discard sids service_id) [ [] ↦ rest | s ∷ left ↦ (caller, s ∷ left) ∷ rest ]

-- `RPC.unregister_service`, with the id that the manager is told, if it is, and the manager's answer.
unfoldable pub unregister_service :
    Bool
    → (String → Option Error)
    → String
    → Registry
    → Option String × Result (Unit {0}) × Registry
unfolding forget_caller forget_value
unregister_service notify manager service g =
    let service_id = local_id service in
    elim (get g.services service_id) [
      | none ↦ (none, err (exception "Service not found"), g)
      | some svc ↦
          if starts_with service_id "_rintf_"
          then (
            none,
            ok tt,
            remove_service service_id svc
                (record g { rintf_caller_index = forget_caller service_id g.rintf_caller_index }),
          )
          else if notify
          then elim (manager service_id) [
            | some e ↦ (some service_id, err e, g)
            | none ↦ (some service_id, ok tt, remove_service service_id svc g)
          ]
          else (none, ok tt, remove_service service_id svc g)
    ]
