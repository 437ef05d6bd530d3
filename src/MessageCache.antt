-- ===== src/MessageCache.antt =====
-- The message cache of python/hypha_rpc/rpc.py: the receiver's side of a package that is sent in
-- chunks, and the dispatch of a complete message. The cache is the entry "message_cache" of
-- `_object_store`, kept here as a field of its own; a missing entry is `none`. msgpack and json are
-- parameters.
pub mod Chunk
pub mod Steps
pub mod Delivery
pub mod Trust
pub mod Incoming
use hypha_rpc.Prelude.{
  ℕ, String, Bool, true, false, ◌&&◌, not, Option, none, some, List, [], ◌∷◌, ◌++◌, if◌then◌else◌,
  is_some, length,
}
use hypha_rpc.Prelude.Dict
use hypha_rpc.Prelude.Dict.{Dict}
use hypha_rpc.Session.Tree
use hypha_rpc.Session.Tree.{Value, Fields, Items, dict, array, cons, nil, text, timer, field, end}
use hypha_rpc.Session.Timer.{reset}
use hypha_rpc.Session.State.{
  Rpc, Error, exception, key_error, assertion_error, type_error, unbounded_recursion, Result, ok,
  err,
}
use Chunk.{Bytes, Chunks, put, join}

pub record Receiver : Type 0 where
  pub rpc : Rpc
  pub cache : Option (Dict Chunks)
  -- the events that were fired, newest last
  pub fired : List (String × Fields)

-- One call of `unpacker.unpack()`: an object and what is left of the bytes.
pub data Unpacked : Type 0 where
  object : Value → Bytes → Unpacked
  out_of_data : Unpacked
  malformed : Unpacked

-- An operation: what was done before an exception stays done.
abbrev pub M : Type 0 → Type 0
M A = Receiver → Result A × Receiver

abbrev continue : {A B : Type 0} → Result A → (A → M B) → M B
continue (ok a) f s = f a s
continue (err e) f s = (err e, s)

infixl 5 ◌>>=◌ ◌>>◌
abbrev pub ◌>>=◌ : {A B : Type 0} → M A → (A → M B) → M B
◌>>=◌ m f s = continue (m s).0 f (m s).1

abbrev pub ◌>>◌ : {B : Type 0} → M (Unit {0}) → M B → M B
m >> k = m >>= λ _. k

abbrev pub lift : {A : Type 0} → Result A → M A
lift r s = (r, s)

-- The heartbeat part that `_create_message`, `_append_message`, `_set_message` and
-- `_process_message` share.
unfoldable pub touch_session : Bool → String → M (Unit {0})
touch_session false key s = (ok tt, s)
touch_session true key s = elim (Tree.get s.rpc.object_store key) [
  | none ↦ (err (exception key), s)
  | some (dict session) ↦ elim (Tree.get session "timer") [
    | some (timer i) ↦ elim (reset i s.rpc.heap) [
      | none ↦ (err unbounded_recursion, s)
      | some h ↦ (ok tt, record s { rpc = record s.rpc { heap = h } })
    ]
    | _ ↦ (ok tt, s)
  ]
  | some _ ↦ (err type_error, s)
]

-- self._object_store["message_cache"], which raises if nothing made it
abbrev pub the_cache : M (Dict Chunks)
the_cache s = elim s.cache [ none ↦ (err (key_error "message_cache"), s) | some c ↦ (ok c, s) ]

-- cache[key], with the test `key not in cache` before it
abbrev pub entry_of : String → Dict Chunks → Result Chunks
entry_of key c = elim (Dict.get c key) [ none ↦ err (key_error key) | some d ↦ ok d ]

abbrev pub set_cache : Dict Chunks → M (Unit {0})
set_cache c s = (ok tt, record s { cache = some c })

abbrev pub or_empty : Option (Dict Chunks) → Dict Chunks
or_empty none = []
or_empty (some c) = c

-- The cache is made if it is missing.
abbrev pub made_cache : M (Dict Chunks)
made_cache s = (ok (or_empty s.cache), record s { cache = some (or_empty s.cache) })

-- `RPC._create_message`
unfoldable pub create_message : String → Bool → Bool → M (Unit {0})
create_message key heartbeat overwrite = do
  touch_session heartbeat key
  c ← made_cache
  if not overwrite && Dict.has c key
      then lift (err (exception key))
      else set_cache (Dict.put c key [])

-- `RPC._append_message`
unfoldable pub append_message : String → Bytes → Bool → M (Unit {0})
append_message key bytes heartbeat = do
  touch_session heartbeat key
  c ← the_cache
  d ← lift (entry_of key c)
  set_cache (Dict.put c key (put d (length d) bytes))

-- `RPC._set_message`
unfoldable pub set_message : String → ℕ → Bytes → Bool → M (Unit {0})
set_message key index bytes heartbeat = do
  touch_session heartbeat key
  c ← the_cache
  d ← lift (entry_of key c)
  set_cache (Dict.put c key (put d index bytes))

-- `RPC._remove_message`
unfoldable pub remove_message : String → M (Unit {0})
remove_message key = do c ← the_cache; d ← lift (entry_of key c); set_cache (Dict.del c key)

-- The entries of a list of pairs, whose keys are texts.
unfoldable pub pairs_of : Items → Option Fields
pairs_of nil = some end
pairs_of (cons (array (cons (text k) (cons v nil))) xs) = elim (pairs_of xs) [
  | none ↦ none
  | some e ↦ some (field k v e)
]
pairs_of (cons _ xs) = none

-- What `update` writes for a value: a dictionary's entries, or those of a list of pairs.
unfoldable pub entries_of : Value → Option Fields
unfolding pairs_of
entries_of (dict d) = some d
entries_of (array xs) = pairs_of xs
entries_of _ = none

-- d.update(e)
unfoldable pub update : Fields → Fields → Fields
update d end = d
update d (field k v e) = update (Tree.put d k v) e

-- The caller's identity that the transport vouches for.
pub record Context : Type 0 where
  pub sender : Value
  pub recipient : Value
  pub ws : Value
  pub user : Value

-- main.update({"from": ..., "to": ..., "ws": ..., "user": ...})
unfoldable pub with_trusted : Context → Fields → Fields
with_trusted ctx main =
    Tree.put (Tree.put (Tree.put (Tree.put main "from" ctx.sender) "to" ctx.recipient) "ws" ctx.ws)
      "user" ctx.user

-- main["ctx"] = main.copy(); main["ctx"].update(self.default_context)
unfoldable pub with_ctx : Fields → Fields → Fields
unfolding update
with_ctx default_context main = Tree.put main "ctx" (dict (update main default_context))

abbrev pub as_message : Value → Result Fields
as_message (dict d) = ok d
as_message _ = err type_error

-- self._fire(main["type"], main)
unfoldable pub fire : Fields → M (Unit {0})
fire main s = elim (Tree.get main "type") [
  | some (text t) ↦ (ok tt, record s { fired = s.fired ++ (t, main) ∷ [] })
  | some _ ↦ (ok tt, s)
  | none ↦ (err (key_error "type"), s)
]

-- b"".join(...) over the chunks of a key
abbrev pub joined : String → Chunks → Result Bytes
joined key d = elim (join d) [ none ↦ err (key_error key) | some bytes ↦ ok bytes ]

-- A context that the caller must give.
abbrev pub required : Option Context → Result Context
required none = err assertion_error
required (some ctx) = ok ctx

module _ (unpack : Bytes → Unpacked) (default_context : Fields) where
  -- The first segment of a package, and what follows it.
  unfoldable pub unpack_main : Bytes → Result (Fields × Bytes)
  unpack_main bytes = elim (unpack bytes) [
    | object (dict main) rest ↦ ok (main, rest)
    | object _ rest ↦ err type_error
    | out_of_data ↦ err (exception "OutOfData")
    | malformed ↦ err (exception "malformed")
  ]

  -- The optional second segment, merged into the first.
  unfoldable pub merge_extra : Fields → Bytes → Result Fields
  unfolding update entries_of
  merge_extra main rest = elim (unpack rest) [
    | object extra after ↦ elim (entries_of extra) [
      | none ↦ err type_error
      | some entries ↦ ok (update main entries)
    ]
    | out_of_data ↦ ok main
    | malformed ↦ err (exception "malformed")
  ]

  -- `RPC._process_message`
  unfoldable pub process_message : String → Bool → Option Context → M (Unit {0})
  process_message key heartbeat context = do
    touch_session heartbeat key
    c ← the_cache
    ctx ← lift (required context)
    d ← lift (entry_of key c)
    bytes ← lift (joined key d)
    (first, rest) ← lift (unpack_main bytes)
    main ← lift (merge_extra (with_ctx default_context (with_trusted ctx first)) rest)
    fire main
    set_cache (Dict.del c key)
