-- ===== src/Client/Single/Runs.antt =====
-- The handler of "client_disconnected" over the connections, the events and the application's own
-- handlers (python/hypha_rpc/rpc.py).
use hypha_rpc.Prelude.{
  ℕ, ◌≡◌, ◌∙◌, refl, ap, String, Bool, true, false, some, List, [], ◌∷◌, ◌++◌, arith, ◌==◌, nat_eq,
  Bool-cases, Option-cases, inl, inr, eq_iff, append_nil,
}
use hypha_rpc.Prelude.Dict
use hypha_rpc.Session.Tree.{Value}
use hypha_rpc.Emitter.{Handler, Emitter, on, off, remove, fire}
use hypha_rpc.Client.{
  Event, event_name, Client, Server, emit, manager_refreshed, connected, disconnected,
  services_registered, services_registration_failed,
}
use hypha_rpc.Client.Connected.{ConnectionInfo, on_connected, unless_missing}
use hypha_rpc.Client.Single.Connects.{on_connected-Single}
use hypha_rpc.Client.Single.{
  topic, topic_handlers, own, own_handlers, Single, Same-Single, emit-Same, own-append, handlers_in,
  off_absent, off_present,
}
use hypha_rpc.Client.Single.Subscribed.{topic_handlers-on, identity-on}

module _ (is_app : ℕ → Bool) where
  abbrev S : Client → Type 0
  S = Single is_app

  -- What happens to a client that is not closed: connections, one after the other, and what the
  -- application does to the emitter with its own handlers.
  pub data Action : Type 0 where
    connects : Server → ConnectionInfo → Action
    listens forgets : String → (h : Handler) → is_app h.identity ≡ true → Action
    fires : Event → Action

  unfoldable pub act : (Value → String) → Action → Client → Client
  unfolding on_connected on off fire
  act show (connects s info) c = on_connected show s info c
  act show (listens event h a) c = record c { emitter = on event h c.emitter }
  act show (forgets event h a) c = record c {
    emitter = unless_missing c.emitter (off (some event) (some h.identity) c.emitter);
  }
  act show (fires event) c = emit event c

  unfoldable pub act_all : (Value → String) → List Action → Client → Client
  unfolding act
  act_all show [] c = c
  act_all show (a ∷ more) c = act_all show more (act show a c)

  own-remove_app :
      (hs : List Handler) (n : ℕ)
      → is_app n ≡ true
      → (l : List Handler) → remove hs n ≡ some l
      → own is_app l ≡ own is_app hs
  unfolding own remove
  own-remove_app [] n a l q = absurd (cc)
  own-remove_app (h ∷ hs) n a l q = elim (Bool-cases (nat_eq h.identity n)) [
    | inl e ↦ ground (arith, e, a, q)
    | inr e ↦ elim (Option-cases (remove hs n)) [
      | inl m ↦ absurd (ground (arith, e, q, m))
      | inr (k, m) ↦ ground (arith, e, q, m, own-remove_app hs n a k m)
    ]
  ]

  get-on_other :
      (event other : String) (h : Handler) (e : Emitter)
      → (event == other) ≡ false
      → Dict.get (on event h e).event_handlers other ≡ Dict.get e.event_handlers other
  unfolding on
  get-on_other event other h e q = elim (Option-cases (Dict.get e.event_handlers event)) [
    | inl n ↦ ground (arith, n, q, Dict.get-put e.event_handlers event other (h ∷ []))
    | inr (hs, n) ↦ ground (arith, n, q, Dict.get-put e.event_handlers event other (hs ++ h ∷ []))
  ]

  own-on :
      (event : String) (h : Handler) (e : Emitter)
      → is_app h.identity ≡ true
      → own is_app (topic_handlers (on event h e)) ≡ own is_app (topic_handlers e)
  unfolding own
  own-on event h e a = elim (Bool-cases (event == topic)) [
    | inl q ↦ rw ((eq_iff event topic).0 q) (
        ap (own is_app) (topic_handlers-on is_app h e)
        ∙ own-append is_app (topic_handlers e) (h ∷ [])
        ∙ ground (arith, a, append_nil (own is_app (topic_handlers e))))
    | inr q ↦ ap (λ o. own is_app (handlers_in o)) (get-on_other event topic h e q)
  ]

  -- `off` of the application's own handler.
  abbrev without : String → Handler → Emitter → Emitter
  without event h e = unless_missing e (off (some event) (some h.identity) e)

  get-off_other :
      (event other : String) (h : Handler) (e : Emitter)
      → (event == other) ≡ false
      → Dict.get (without event h e).event_handlers other ≡ Dict.get e.event_handlers other
  unfolding off
  get-off_other event other h e q = elim (Option-cases (Dict.get e.event_handlers event)) [
    | inl n ↦ ground (arith, n)
    | inr (hs, n) ↦ elim (Option-cases (remove hs h.identity)) [
      | inl m ↦ ground (arith, n, m)
      | inr (l, m) ↦ ground (arith, n, m, q, Dict.get-put e.event_handlers event other l)
    ]
  ]

  own-off_app :
      (event : String) (h : Handler) (e : Emitter)
      → is_app h.identity ≡ true
      → own is_app (topic_handlers (without event h e)) ≡ own is_app (topic_handlers e)
  own-off_app event h e a = elim (Bool-cases (event == topic)) [
    | inl q ↦
        rw ((eq_iff event topic).0 q) (elim (Option-cases (remove (topic_handlers e) h.identity)) [
          | inl m ↦ ap (own is_app) (off_absent is_app e h.identity m)
          | inr (l, m) ↦
              ap (own is_app) (off_present is_app e h.identity l m)
              ∙ own-remove_app (topic_handlers e) h.identity a l m
        ])
    | inr q ↦ ap (λ o. own is_app (handlers_in o)) (get-off_other event topic h e q)
  ]

  off_identity :
      (event : String) (h : Handler) (e : Emitter)
      → (without event h e).next_identity ≡ e.next_identity
  unfolding off
  off_identity event h e = ground arith

  with_emitter-Single :
      (e : Emitter) (c : Client)
      → own is_app (topic_handlers e) ≡ own_handlers is_app c
      → e.next_identity ≡ c.emitter.next_identity
      → S c
      → S (record c { emitter = e })
  with_emitter-Single e c same_own same_identity h = record {
    own_bound = rw same_own h.own_bound;
    bound_own = h.bound_own;
    fresh = λ n q. h.fresh n (omega (arith, same_identity, q));
  }

  act-Single : (show : Value → String) (a : Action) (c : Client) → S c → S (act show a c)
  unfolding act
  act-Single show (connects s info) c h = on_connected-Single is_app show s info c h
  act-Single show (listens event k a) c h =
      with_emitter-Single (on event k c.emitter) c (own-on event k c.emitter a)
        (identity-on is_app event k c.emitter) h
  act-Single show (forgets event k a) c h =
      with_emitter-Single (without event k c.emitter) c (own-off_app event k c.emitter a)
        (off_identity event k c.emitter) h
  act-Single show (fires event) c h = Same-Single is_app (emit-Same is_app event c (other event)) h
    where
      other : (e : Event) → (event_name e == topic) ≡ false
      other manager_refreshed = refl
      other connected = refl
      other disconnected = refl
      other (services_registered t r f) = refl
      other (services_registration_failed e t) = refl

  -- If at most one handler of "client_disconnected" is the client's own, and it is the one that
  -- the client holds, so that the next connection takes it out, then it stays so however often
  -- the client connects anew, one connection after the other, and whatever handlers of its own
  -- the application registers and removes meanwhile.
  pub act_all-Single :
      (show : Value → String) (more : List Action) (c : Client)
      → Single is_app c
      → Single is_app (act_all show more c)
  unfolding act_all
  act_all-Single show [] c h = h
  act_all-Single show (a ∷ more) c h =
      act_all-Single show more (act show a c) (act-Single show a c h)
