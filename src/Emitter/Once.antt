-- ===== src/Emitter/Once.antt =====
-- How long a handler of class MessageEmitter (python/hypha_rpc/utils/__init__.py) stays.
use hypha_rpc.Prelude.{
  append_nil, append_assoc, ℕ, zero, suc, ◌+◌, ◌≤◌, ◌≡◌, ◌∙◌, refl, ap, String, false, none, some,
  List, [], ◌∷◌, ◌++◌, arith, nat_eq, length, All, eq_refl, drop, ends_with,
}
use hypha_rpc.Prelude.Dict
use hypha_rpc.Emitter.{
  Handler, Emitter, value_error, on, once, off, remove, fire, fire_from, run_handler, item, target,
  wrap, has_attribute, wait_for, wait_for_timed_out,
}

-- No handler carries the name that `_fire` looks for.
abbrev pub Unmarked : List Handler → Type 0
Unmarked = All (λ h. has_attribute h.attributes "___event_run_once" ≡ false)

abbrev pub targets : List Handler → List ℕ
targets [] = []
targets (h ∷ hs) = target h ∷ targets hs

item-drop : (i : ℕ) (hs : List Handler) → item i hs ≡ item 0 (drop i hs)
unfolding item
item-drop zero hs = refl
item-drop (suc i) [] = refl
item-drop (suc i) (h ∷ hs) = item-drop i hs

drop-suc :
    (i : ℕ) (h : Handler) (hs rest : List Handler) → drop i hs ≡ h ∷ rest → drop (suc i) hs ≡ rest
drop-suc zero h [] rest q = ground arith
drop-suc (suc i) h [] rest q = ground arith
drop-suc zero h (x ∷ hs) rest q = ground arith
drop-suc (suc i) h (x ∷ hs) rest q = drop-suc i h hs rest q

drop-next :
    (i : ℕ) (h : Handler) (hs rest : List Handler) → drop i hs ≡ h ∷ rest → drop (i + 1) hs ≡ rest
drop-next i h hs rest q =
    let e : i + 1 ≡ suc i = omega arith in ap (λ k. drop k hs) e ∙ drop-suc i h hs rest q

fire_from_lem :
    (fuel i : ℕ) (event : String) (e : Emitter) (hs rest : List Handler)
    → Dict.get e.event_handlers event ≡ some hs
    → drop i hs ≡ rest
    → Unmarked rest
    → length rest + 1 ≤ fuel
    → fire_from fuel i event e ≡ record e { calls = e.calls ++ targets rest }
unfolding fire_from run_handler item
fire_from_lem zero i event e hs rest stored at unmarked enough = absurd (omega arith)
fire_from_lem (suc fuel) i event e hs [] stored at unmarked enough =
    ground (arith, stored, item-drop i hs, at, append_nil e.calls)
fire_from_lem (suc fuel) i event e hs (h ∷ rest) stored at unmarked enough = ground (
  arith,
  stored,
  item-drop i hs,
  at,
  unmarked.0,
  fire_from_lem fuel (i + 1) event (record e { calls = e.calls ++ target h ∷ [] }) hs rest stored
      (drop-next i h hs rest at) unmarked.1 (omega arith),
  append_assoc e.calls (target h ∷ []) (targets rest),
)

-- An event calls the unmarked handlers that are registered for it once each, in the order of their
-- registration, and all of them stay registered.
pub fire_lem :
    (event : String) (e : Emitter) (hs : List Handler)
    → Dict.get e.event_handlers event ≡ some hs
    → Unmarked hs
    → fire event e ≡ record e { calls = e.calls ++ targets hs }
unfolding fire
fire_lem event e hs stored unmarked = ground (
  arith,
  stored,
  fire_from_lem (length hs + 1) 0 event e hs hs stored refl unmarked (omega arith),
)

unmarked-wrap :
    (handler : Handler) (e : Emitter)
    → has_attribute (wrap handler e).attributes "___event_run_once" ≡ false
unfolding has_attribute ends_with
unmarked-wrap handler e = refl

-- A handler that `once` registers for an event without handlers is called by the first event and by
-- the second one too.
pub fire-fire-once :
    (event : String) (handler : Handler) (e : Emitter)
    → Dict.get e.event_handlers event ≡ none
    → e.calls ≡ []
    → (fire event (fire event (once event handler e))).calls
      ≡ handler.identity ∷ handler.identity ∷ []
unfolding once on
fire-fire-once event handler e fresh start =
    let e1 = once event handler e in
    let hs = wrap handler e ∷ [] in
    let stored : Dict.get e1.event_handlers event ≡ some hs =
      ground (arith, fresh, Dict.get-put e.event_handlers event event hs, eq_refl event) in
    let step1 = fire_lem event e1 hs stored (unmarked-wrap handler e, tt) in
    let e2 = record e1 { calls = e1.calls ++ handler.identity ∷ [] } in
    let step2 = fire_lem event e2 hs stored (unmarked-wrap handler e, tt) in
    ground (arith, step1, step2, start, fresh)

-- A wait for an event without handlers that times out raises a ValueError in place of the
-- TimeoutError, since it is the wrapper that is registered and not the handler.
pub wait_for_timed_out-wait_for :
    (event : String) (handler : Handler) (e : Emitter)
    → Dict.get e.event_handlers event ≡ none
    → nat_eq e.next_identity handler.identity ≡ false
    → wait_for_timed_out event handler (wait_for event handler e) ≡ value_error
unfolding once on off remove
wait_for_timed_out-wait_for event handler e fresh other = ground (
  arith,
  fresh,
  Dict.get-put e.event_handlers event event (wrap handler e ∷ []),
  eq_refl event,
  other,
)
