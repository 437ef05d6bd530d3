-- ===== src/Emitter.antt =====
-- Class MessageEmitter (python/hypha_rpc/utils/__init__.py): the handlers of each event. A handler
-- is known by its identity; a handler that raises only logs, and what a handler itself does to the
-- emitter is not here.
pub mod Once
pub mod Kept
use hypha_rpc.Prelude.{
  ℕ, zero, suc, ◌+◌, String, Bool, true, false, Option, none, some, List, [], ◌∷◌, ◌++◌, ◌==◌, ◌||◌,
  if◌then◌else◌, nat_eq, length, starts_with, not, ends_with, ◌&&◌,
}
use Prim.Native.String.{◌++◌ as concat}
use hypha_rpc.Prelude.Dict

pub record Handler : Type 0 where
  pub identity : ℕ
  -- the handler that a wrapper calls
  pub wraps : Option ℕ
  -- the attributes set on the function object
  pub attributes : List String

pub record Emitter : Type 0 where
  pub event_handlers : Dict.Dict (List Handler)
  -- the calls of handlers, newest last
  pub calls : List ℕ
  pub next_identity : ℕ

unfoldable pub has_attribute : List String → String → Bool
has_attribute [] k = false
has_attribute (a ∷ rest) k = a == k || has_attribute rest k

-- The name that an attribute has when code inside a class body writes it: two leading underscores
-- and no two trailing ones put the class in front.
abbrev pub mangled : String → String → String
mangled owner name =
    if starts_with name "__" && not (ends_with name "__")
    then concat (concat "_" owner) name
    else name

-- `MessageEmitter.on`
unfoldable pub on : String → Handler → Emitter → Emitter
on event handler e = elim (Dict.get e.event_handlers event) [
  | none ↦ record e { event_handlers = Dict.put e.event_handlers event (handler ∷ []) }
  | some hs ↦ record e { event_handlers = Dict.put e.event_handlers event (hs ++ handler ∷ []) }
]

-- The `wrap_func` of `MessageEmitter.once`, with its attribute.
abbrev pub wrap : Handler → Emitter → Handler
wrap handler e = record {
  identity = e.next_identity;
  wraps = some handler.identity;
  attributes = mangled "MessageEmitter" "___event_run_once" ∷ [];
}

-- `MessageEmitter.once`
unfoldable pub once : String → Handler → Emitter → Emitter
unfolding on
once event handler e = on event (wrap handler e) (record e { next_identity = e.next_identity + 1 })

-- `list.remove`, which raises a ValueError for a missing element
unfoldable pub remove : List Handler → ℕ → Option (List Handler)
remove [] n = none
remove (h ∷ hs) n =
    let rest = remove hs n in
    if nat_eq h.identity n then some hs else elim rest [ none ↦ none | some l ↦ some (h ∷ l) ]

pub data Removal : Type 0 where
  removed : Emitter → Removal
  value_error : Removal

-- `MessageEmitter.off`
unfoldable pub off : Option String → Option ℕ → Emitter → Removal
unfolding remove
off none none e = removed (record e { event_handlers = [] })
off (some event) none e = elim (Dict.get e.event_handlers event) [
  | none ↦ removed e
  | some hs ↦ removed (record e { event_handlers = Dict.put e.event_handlers event [] })
]
off none (some n) e = removed e
off (some event) (some n) e = elim (Dict.get e.event_handlers event) [
  | none ↦ removed e
  | some hs ↦ elim (remove hs n) [
    | none ↦ value_error
    | some l ↦ removed (record e { event_handlers = Dict.put e.event_handlers event l })
  ]
]

-- What a call of the handler calls in the end.
abbrev pub target : Handler → ℕ
target h = elim h.wraps [ none ↦ h.identity | some n ↦ n ]

unfoldable pub item : ℕ → List Handler → Option Handler
item i [] = none
item zero (h ∷ hs) = some h
item (suc i) (h ∷ hs) = item i hs

-- The call and the `finally` of one handler, in `MessageEmitter._fire`.
unfoldable pub run_handler : String → Handler → Emitter → Emitter
unfolding remove
run_handler event h e =
    let called = record e { calls = e.calls ++ target h ∷ [] } in
    if has_attribute h.attributes "___event_run_once"
    then elim (Dict.get e.event_handlers event) as (λ _. Emitter) [
      | none ↦ called
      | some hs ↦ elim (remove hs h.identity) as (λ _. Emitter) [
        | none ↦ called
        | some l ↦ record called { event_handlers = Dict.put e.event_handlers event l }
      ]
    ]
    else called

-- The loop of `MessageEmitter._fire`: Python walks the list by position, also while it shrinks.
unfoldable pub fire_from : ℕ → ℕ → String → Emitter → Emitter
unfolding run_handler item
fire_from zero i event e = e
fire_from (suc fuel) i event e = elim (Dict.get e.event_handlers event) [
  | none ↦ e
  | some hs ↦ elim (item i hs) [
    | none ↦ e
    | some h ↦ fire_from fuel (i + 1) event (run_handler event h e)
  ]
]

-- `MessageEmitter._fire`; a round is fuel for one handler.
unfoldable pub fire : String → Emitter → Emitter
unfolding fire_from
fire event e = elim (Dict.get e.event_handlers event) [
  | none ↦ e
  | some hs ↦ fire_from (length hs + 1) 0 event e
]

-- `MessageEmitter.wait_for` up to the wait.
abbrev pub wait_for : String → Handler → Emitter → Emitter
wait_for event handler e = once event handler e

-- `MessageEmitter.wait_for` after the wait timed out.
abbrev pub wait_for_timed_out : String → Handler → Emitter → Removal
wait_for_timed_out event handler e = off (some event) (some handler.identity) e
