-- ===== src/Client/Single/Subscribed.antt =====
-- The subscription of one connection, and the handler of "client_disconnected"
-- (python/hypha_rpc/rpc.py).
use hypha_rpc.Prelude.{
  ℕ, ◌≤◌, ◌≡◌, ◌∙◌, refl, ap, String, Bool, false, Option, some, [], ◌∷◌, ◌++◌, arith, Option-cases,
  inl, inr, eq_refl,
}
use hypha_rpc.Prelude.Dict
use hypha_rpc.Session.State.{Result, ok, err}
use hypha_rpc.Emitter.{Handler, Emitter, on}
use hypha_rpc.Client.{Subscription, Client}
use hypha_rpc.Client.Connected.{
  begin_subscription, finish_subscription, unsubscribe, unbind, new_handler, bound_or_none,
}
use hypha_rpc.Client.Single.{
  topic, topic_handlers, own, own_handlers, own-append, Single, Same, Same-Single, unbind-Clean,
}

module _ (is_app : ℕ → Bool) where
  -- Between the two halves: none is registered, and a fresh one is bound.
  pub record Between (c : Client) : Type 0 where
    pub handler : Handler
    pub is_bound : c.bound ≡ some handler
    pub is_own : is_app handler.identity ≡ false
    pub none_yet : own_handlers is_app c ≡ []
    pub fresh : (n : ℕ) → c.emitter.next_identity ≤ n → is_app n ≡ false

  pub unsubscribe-Same : (c : Client) → Same is_app c (unsubscribe c)
  unsubscribe-Same c = elim (Option-cases c.subscription) [
    | inl q ↦ record {
      same_handlers = ground (arith, q);
      same_bound = ground (arith, q);
      same_identity = ground (arith, q);
    }
    | inr (s, q) ↦ record {
      same_handlers = ground (arith, q);
      same_bound = ground (arith, q);
      same_identity = ground (arith, q);
    }
  ]

  pub begin_subscription-Between : (c : Client) → Single is_app c → Between (begin_subscription c)
  unfolding begin_subscription
  begin_subscription-Between c s =
      let c' = unbind (unsubscribe c) in
      let clean = unbind-Clean is_app (unsubscribe c) (Same-Single is_app (unsubscribe-Same c) s) in
      record {
        handler = new_handler c'.emitter;
        is_bound = refl;
        is_own = clean.fresh c'.emitter.next_identity (omega arith);
        none_yet = clean.none_own;
        fresh = λ n e. clean.fresh n (omega (arith, e));
      }

  pub topic_handlers-on :
      (h : Handler) (e : Emitter) → topic_handlers (on topic h e) ≡ topic_handlers e ++ h ∷ []
  unfolding on
  topic_handlers-on h e = elim (Option-cases (Dict.get e.event_handlers topic)) [
    | inl q ↦ ground (arith, q, Dict.get-put e.event_handlers topic topic (h ∷ []), eq_refl topic)
    | inr (hs, q) ↦
        ground (arith, q, Dict.get-put e.event_handlers topic topic (hs ++ h ∷ []), eq_refl topic)
  ]

  pub identity-on :
      (event : String) (h : Handler) (e : Emitter) → (on event h e).next_identity ≡ e.next_identity
  unfolding on
  identity-on event h e = ground arith

  pub own_one : (h : Handler) → is_app h.identity ≡ false → own is_app (h ∷ []) ≡ h.identity ∷ []
  unfolding own
  own_one h e = ground (arith, e)

  pub own-finish :
      (s : Option Subscription) (c : Client) (b : Between c)
      → own_handlers is_app (finish_subscription (ok s) c) ≡ b.handler.identity ∷ []
  unfolding finish_subscription
  own-finish s c b =
      ap
        (λ (o : Option Handler). own is_app (topic_handlers (on topic (bound_or_none o) c.emitter)))
        b.is_bound
      ∙ ap (own is_app) (topic_handlers-on b.handler c.emitter)
      ∙ own-append is_app (topic_handlers c.emitter) (b.handler ∷ [])
      ∙ cc (b.none_yet, own_one b.handler b.is_own)

  pub finish_subscription-Single :
      (r : Result (Option Subscription)) (c : Client)
      → Between c
      → Single is_app (finish_subscription r c)
  unfolding finish_subscription
  finish_subscription-Single (err e) c b = record {
    own_bound = inl b.none_yet;
    bound_own = λ h q. ground (arith, b.is_own, b.is_bound, q);
    fresh = b.fresh;
  }
  finish_subscription-Single (ok s) c b = record {
    own_bound = inr (b.handler, b.is_bound, unfold finish_subscription in own-finish s c b);
    bound_own = λ h q. ground (arith, b.is_own, b.is_bound, q);
    fresh =
        λ n e. b.fresh n (omega (arith, e, identity-on topic (bound_or_none c.bound) c.emitter));
  }
