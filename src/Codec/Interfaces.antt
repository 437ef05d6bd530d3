-- ===== src/Codec/Interfaces.antt =====
-- The methods of an `_rintf` object: `any(...)` in `RPC._encode` and `_annotate_service_methods`
-- (python/hypha_rpc/rpc.py) for the service that stands for it.
use Prim.Native.String.{◌++◌ as concat}
use hypha_rpc.Prelude.{
  String, Bool, true, false, ◌&&◌, Option, none, some, List, [], ◌∷◌, ◌==◌, if◌then◌else◌,
  starts_with, split,
}
use hypha_rpc.Codec.{flag, text, Function, Object, Entries, prim, callable, remote, end, entry, get}
use hypha_rpc.Codec.Coder.{
  Outcome, E, ◌>>=◌, ◌>>◌, pure, Side, lift, ok, failed, type_error, local_method_not_found,
}

-- The callables of an `_rintf` object that become methods.
unfoldable pub public_callables : Entries → List (String × Object)
public_callables end = []
public_callables (entry k (callable f) d) =
    let rest = public_callables d in if starts_with k "_" then rest else (k, callable f) ∷ rest
public_callables (entry k (remote f r) d) =
    let rest = public_callables d in if starts_with k "_" then rest else (k, remote f r) ∷ rest
public_callables (entry k v d) = public_callables d

-- `a_object.get("_rintf") is True and any(...)`
abbrev pub is_interface : Entries → Bool
is_interface d = elim (get d "_rintf") [
  | some (prim (flag b)) ↦ b && (elim (public_callables d) [ [] ↦ false | f ∷ fs ↦ true ])
  | _ ↦ false
]

-- What follows the first "/" of an address, up to the next one.
abbrev client_of : String → String
client_of target = elim (split b'/' target) as (λ _. String) [ a ∷ b ∷ _ ↦ b | _ ↦ target ]

abbrev text_of : Option Object → Option String
text_of (some (prim (text t))) = some t
text_of _ = none

-- The callable that `_annotate_service_methods` annotates for a member: for one that stands for a
-- remote method, the local method that it names.
abbrev pub local_method : Side → Object → Outcome Function
local_method side (callable f) = ok f
local_method side (remote f r) = elim (text_of (get r "_rtarget")) as (λ _. Outcome Function) [
  | none ↦ failed type_error
  | some target ↦ elim (text_of (get r "_rmethod")) as (λ _. Outcome Function) [
    | none ↦ failed type_error
    | some method ↦
        if client_of target == side.client_id
        then elim (side.local_methods method) as (λ _. Outcome Function) [
          | some f ↦ ok f
          | none ↦ failed local_method_not_found
        ]
        else failed local_method_not_found
  ]
]
local_method side v = failed type_error

abbrev note_method : String → String → Function → E (Unit {0})
note_method service_id k f s = (
  ok tt,
  record s {
    annotations =
        (f.identity, concat (concat "services." service_id) (concat "." k)) ∷ s.annotations;
  },
)

-- The members are annotated one after the other; what was annotated before one is refused stays.
unfoldable pub annotate_methods :
    Side → String → List (String × Object) → E (List (String × Function))
annotate_methods side service_id [] s = (ok [], s)
annotate_methods side service_id ((k, v) ∷ members) s =
    (do
      f ← lift (local_method side v)
      note_method service_id k f
      rest ← annotate_methods side service_id members
      pure ((k, f) ∷ rest))
      s
