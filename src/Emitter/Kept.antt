-- ===== src/Emitter/Kept.antt =====
-- What an event leaves alone in class MessageEmitter (python/hypha_rpc/utils/__init__.py).
use hypha_rpc.Prelude.{
  ℕ, zero, suc, ◌+◌, ◌≡◌, ◌∙◌, refl, String, false, none, some, List, arith, ◌==◌, Bool-cases,
  Option-cases, inl, inr, length,
}
use hypha_rpc.Prelude.Dict
use hypha_rpc.Emitter.{Handler, Emitter, fire, fire_from, run_handler, item, remove, has_attribute}

-- The handlers of the other events and the identities that were given out.
pub record Keeps (event : String) (e e' : Emitter) : Type 0 where
  pub others :
      (other : String)
      → (event == other) ≡ false
      → Dict.get e'.event_handlers other ≡ Dict.get e.event_handlers other
  pub same_identity : e'.next_identity ≡ e.next_identity

run_handler-Keeps :
    (event : String) (h : Handler) (e : Emitter) → Keeps event e (run_handler event h e)
unfolding run_handler
run_handler-Keeps event h e = elim (Bool-cases (has_attribute h.attributes "___event_run_once")) [
  | inl marked ↦ rw marked (elim (Option-cases (Dict.get e.event_handlers event)) [
    | inl n ↦ rw n (record { others = λ other q. refl; same_identity = refl })
    | inr (hs, is) ↦ rw is (elim (Option-cases (remove hs h.identity)) [
      | inl n ↦ rw n (record { others = λ other q. refl; same_identity = refl })
      | inr (l, left) ↦ rw left (record {
        others = λ other q. rw (Dict.get-put e.event_handlers event other l, q);
        same_identity = refl;
      })
    ])
  ])
  | inr plain ↦ rw plain (record { others = λ other q. refl; same_identity = refl })
]

Keeps-trans :
    {event : String} {e e' e'' : Emitter}
    → Keeps event e e'
    → Keeps event e' e''
    → Keeps event e e''
Keeps-trans k l = record {
  others = λ other q. l.others other q ∙ k.others other q;
  same_identity = l.same_identity ∙ k.same_identity;
}

Keeps-refl : {event : String} {e : Emitter} → Keeps event e e
Keeps-refl = record { others = λ other q. refl; same_identity = refl }

fire_from_step :
    (fuel i : ℕ) (event : String) (e : Emitter) (hs : List Handler) (h : Handler)
    → Dict.get e.event_handlers event ≡ some hs
    → item i hs ≡ some h
    → fire_from (suc fuel) i event e ≡ fire_from fuel (i + 1) event (run_handler event h e)
unfolding fire_from
fire_from_step fuel i event e hs h is at = ground (arith, is, at)

fire_from_end :
    (fuel i : ℕ) (event : String) (e : Emitter) (hs : List Handler)
    → Dict.get e.event_handlers event ≡ some hs
    → item i hs ≡ none
    → fire_from (suc fuel) i event e ≡ e
unfolding fire_from
fire_from_end fuel i event e hs is at = ground (arith, is, at)

fire_from-Keeps :
    (fuel i : ℕ) (event : String) (e : Emitter) → Keeps event e (fire_from fuel i event e)
unfolding fire_from
fire_from-Keeps zero i event e = Keeps-refl
fire_from-Keeps (suc fuel) i event e = elim (Option-cases (Dict.get e.event_handlers event)) [
  | inl n ↦ rw (n, fire_from) Keeps-refl
  | inr (hs, is) ↦ elim (Option-cases (item i hs)) [
    | inl n ↦ rw (fire_from_end fuel i event e hs is n) Keeps-refl
    | inr (h, at) ↦ rw (fire_from_step fuel i event e hs h is at) (
        Keeps-trans (run_handler-Keeps event h e)
          (fire_from-Keeps fuel (i + 1) event (run_handler event h e)))
  ]
]

pub fire-Keeps : (event : String) (e : Emitter) → Keeps event e (fire event e)
unfolding fire
fire-Keeps event e = elim (Option-cases (Dict.get e.event_handlers event)) [
  | inl n ↦ rw (n, fire) Keeps-refl
  | inr (hs, is) ↦ rw (is, fire) (fire_from-Keeps (length hs + 1) 0 event e)
]
