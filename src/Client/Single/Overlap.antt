-- ===== src/Client/Single/Overlap.antt =====
-- Two runs of `on_connected` (python/hypha_rpc/rpc.py) that overlap: the second starts while the first
-- waits for its subscription.
use hypha_rpc.Prelude.{
  ℕ, ◌≤◌, ◌≡◌, ◌∙◌, refl, ap, Bool, false, Option, some, List, [], ◌∷◌, ◌++◌, arith, inl, inr,
  Option-cases,
}
use hypha_rpc.Session.State.{ok}
use hypha_rpc.Emitter.{Handler, on}
use hypha_rpc.Client.{Subscription, Client}
use hypha_rpc.Client.Connected.{
  begin_subscription, finish_subscription, bound_or_none, unbind, unsubscribe, new_handler,
}
use hypha_rpc.Client.Single.{
  topic, topic_handlers, own, own_handlers, Single, own-append, own-remove_present, off_present,
  unbind_bound, identity-off,
}
use hypha_rpc.Client.Single.Subscribed.{
  Between, begin_subscription-Between, topic_handlers-on, own_one, unsubscribe-Same, identity-on,
}

module _ (is_app : ℕ → Bool) where
  Between-Single : (c : Client) → Between is_app c → Single is_app c
  Between-Single c b = record {
    own_bound = inl b.none_yet;
    bound_own = λ h q. ground (arith, b.is_own, b.is_bound, q);
    fresh = b.fresh;
  }

  own-finish_any :
      (s : Option Subscription) (c : Client) (h : Handler)
      → c.bound ≡ some h
      → is_app h.identity ≡ false
      → own_handlers is_app (finish_subscription (ok s) c)
        ≡ own_handlers is_app c ++ h.identity ∷ []
  unfolding finish_subscription
  own-finish_any s c h q f =
      ap
        (λ (o : Option Handler). own is_app (topic_handlers (on topic (bound_or_none o) c.emitter)))
        q
      ∙ ap (own is_app) (topic_handlers-on is_app h c.emitter)
      ∙ own-append is_app (topic_handlers c.emitter) (h ∷ [])
      ∙ ap (λ l. own_handlers is_app c ++ l) (own_one is_app h f)

  abbrev both : Option Subscription → Option Subscription → Client → Client
  both s t c =
      finish_subscription (ok t)
        (finish_subscription (ok s) (begin_subscription (begin_subscription c)))

  bound-finish :
      (s : Option Subscription) (c : Client) → (finish_subscription (ok s) c).bound ≡ c.bound
  unfolding finish_subscription
  bound-finish s c = refl

  identity-finish :
      (s : Option Subscription) (c : Client)
      → (finish_subscription (ok s) c).emitter.next_identity ≡ c.emitter.next_identity
  unfolding finish_subscription
  identity-finish s c = identity-on is_app topic (bound_or_none c.bound) c.emitter

  identity-unbind : (c : Client) → (unbind c).emitter.next_identity ≡ c.emitter.next_identity
  identity-unbind c = elim (Option-cases c.bound) [
    | inl q ↦ ground (arith, q)
    | inr (h, q) ↦
        ap (λ (k : Client). k.emitter.next_identity) (unbind_bound is_app c h q)
        ∙ identity-off is_app c.emitter h.identity
  ]

  own-both :
      (s t : Option Subscription) (c : Client)
      → Single is_app c
      → (h : Handler) × ((both s t c).bound ≡ some h)
        × (is_app h.identity ≡ false)
        × (own_handlers is_app (both s t c) ≡ h.identity ∷ h.identity ∷ [])
  own-both s t c single =
      let first = begin_subscription-Between is_app c single in
      let second =
        begin_subscription-Between is_app (begin_subscription c)
          (Between-Single (begin_subscription c) first) in
      let c2 = begin_subscription (begin_subscription c) in
      let c3 = finish_subscription (ok s) c2 in
      let still = bound-finish s c2 ∙ second.is_bound in
      (
        second.handler,
        bound-finish t c3 ∙ still,
        second.is_own,
        own-finish_any t c3 second.handler still second.is_own
            ∙ ap (λ l. l ++ second.handler.identity ∷ [])
                (own-finish_any s c2 second.handler second.is_bound second.is_own
                  ∙ ap (λ l. l ++ second.handler.identity ∷ []) second.none_yet),
      )

  own-begin :
      (c : Client) (h : Handler) (rest : List ℕ)
      → c.bound ≡ some h
      → is_app h.identity ≡ false
      → own_handlers is_app c ≡ h.identity ∷ rest
      → own_handlers is_app (begin_subscription c) ≡ rest
  unfolding begin_subscription
  own-begin c h rest q f e =
      let same = unsubscribe-Same is_app c in
      let c' = unsubscribe c in
      let (l, left, others) =
        own-remove_present is_app (topic_handlers c'.emitter) h.identity rest f
          (ap (own is_app) same.same_handlers ∙ e) in
      ap (λ (k : Client). own_handlers is_app k) (unbind_bound is_app c' h (same.same_bound ∙ q))
      ∙ ap (own is_app) (off_present is_app c'.emitter h.identity l left)
      ∙ others

  fresh-both :
      (s t : Option Subscription) (c : Client)
      → Single is_app c
      → (n : ℕ) → (both s t c).emitter.next_identity ≤ n
      → is_app n ≡ false
  fresh-both s t c single n q =
      let first = begin_subscription-Between is_app c single in
      let second =
        begin_subscription-Between is_app (begin_subscription c)
          (Between-Single (begin_subscription c) first) in
      let c2 = begin_subscription (begin_subscription c) in
      second.fresh n
        (omega (arith, q, identity-finish s c2, identity-finish t (finish_subscription (ok s) c2)))

  -- The next connection binds a handler of its own.
  bound-begin :
      (c : Client)
      → ((n : ℕ) → c.emitter.next_identity ≤ n → is_app n ≡ false)
      → (k : Handler) × ((begin_subscription c).bound ≡ some k) × (is_app k.identity ≡ false)
  unfolding begin_subscription
  bound-begin c fresh =
      let c' = unbind (unsubscribe c) in
      let given = identity-unbind (unsubscribe c) ∙ (unsubscribe-Same is_app c).same_identity in
      (new_handler c'.emitter, refl, fresh c'.emitter.next_identity (omega (arith, given)))

  -- For a client with at most one handler of its own, the one that it holds: if a second run of
  -- the handler of connections starts its subscription before that of the first has come, and
  -- both subscriptions succeed, the second run's handler is registered twice. The next
  -- connection, if its subscription succeeds, takes only one of the two out before it registers
  -- its own, so that two of the client's handlers are left.
  pub own-overlap :
      (s t u : Option Subscription) (c : Client)
      → Single is_app c
      → (h : Handler) × (own_handlers is_app (both s t c) ≡ h.identity ∷ h.identity ∷ [])
        × ((k : Handler) × (own_handlers is_app
                (finish_subscription (ok u) (begin_subscription (both s t c)))
              ≡ h.identity ∷ k.identity ∷ []))
  own-overlap s t u c single =
      let (h, holds, outside, twice) = own-both s t c single in
      let (k, bound, foreign) = bound-begin (both s t c) (fresh-both s t c single) in
      (
        h,
        twice,
        (
          k,
          own-finish_any u (begin_subscription (both s t c)) k bound foreign
              ∙ ap (λ l. l ++ k.identity ∷ [])
                  (own-begin (both s t c) h (h.identity ∷ []) holds outside twice),
        ),
      )
