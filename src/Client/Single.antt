-- ===== src/Client/Single.antt =====
-- The handler of "client_disconnected" that `on_connected` registers (python/hypha_rpc/rpc.py), over
-- any number of connections.
pub mod Subscribed
pub mod Connects
pub mod Runs
pub mod Overlap
use hypha_rpc.Prelude.{
  ℕ, zero, suc, ◌+◌, ◌≤◌, ◌<◌, ◌≡◌, ◌∙◌, refl, sym, ap, String, Bool, true, false, Option, none,
  some, List, [], ◌∷◌, ◌++◌, arith, ◌==◌, nat_eq, if◌then◌else◌, length, Bool-cases, Option-cases,
  inl, inr, ◌⊎◌, eq_iff, eq_refl,
}
use hypha_rpc.Prelude.Dict
use hypha_rpc.Session.Tree.{Value}
use hypha_rpc.Session.State.{Result, ok, err}
use hypha_rpc.Emitter.{Handler, Emitter, on, off, remove, fire}
use hypha_rpc.Emitter.Kept.{Keeps, fire-Keeps}
use hypha_rpc.Client.{Subscription, Event, event_name, Client, Server, emit}
use hypha_rpc.Client.Connected.{
  ConnectionInfo, on_connected, begin_subscription, finish_subscription, subscribe, unsubscribe,
  unbind, bind, report, welcome, drop_stale_calls, unless_missing, new_handler, bound_or_none,
}

abbrev pub topic : String
topic = "client_disconnected"

abbrev pub handlers_in : Option (List Handler) → List Handler
handlers_in none = []
handlers_in (some hs) = hs

-- The handlers of the topic.
abbrev pub topic_handlers : Emitter → List Handler
topic_handlers e = handlers_in (Dict.get e.event_handlers topic)

-- The identities of the application's handlers are told from those of the client by a test.
module _ (is_app : ℕ → Bool) where
  -- The identities of the handlers that are the client's own.
  unfoldable pub own : List Handler → List ℕ
  own [] = []
  own (h ∷ hs) = let rest = own hs in if is_app h.identity then rest else h.identity ∷ rest

  abbrev pub own_handlers : Client → List ℕ
  own_handlers c = own (topic_handlers c.emitter)

  pub own-append : (hs ks : List Handler) → own (hs ++ ks) ≡ own hs ++ own ks
  unfolding own
  own-append [] ks = refl
  own-append (h ∷ hs) ks = ground (arith, own-append hs ks)

  pub own-remove_absent :
      (hs : List Handler) (n : ℕ) → is_app n ≡ false → own hs ≡ [] → remove hs n ≡ none
  unfolding own remove
  own-remove_absent [] n f q = refl
  own-remove_absent (h ∷ hs) n f q = ground (arith, own-remove_absent hs n f)

  pub own-remove_present :
      (hs : List Handler) (n : ℕ) (rest : List ℕ)
      → is_app n ≡ false
      → own hs ≡ n ∷ rest
      → (l : List Handler) × (remove hs n ≡ some l) × (own l ≡ rest)
  unfolding own remove
  own-remove_present [] n rest f q = absurd (cc)
  own-remove_present (h ∷ hs) n rest f q = elim (Bool-cases (nat_eq h.identity n)) [
    | inl e ↦ (hs, ground arith, ground arith)
    | inr e ↦ elim (Bool-cases (is_app h.identity)) [
      | inl a ↦
          let (l, left, others) = own-remove_present hs n rest f (ground arith) in
          (h ∷ l, ground arith, ground arith)
      | inr a ↦ absurd (ground arith)
    ]
  ]

  -- At most one handler is the client's own, and it is the bound one.
  pub record Single (c : Client) : Type 0 where
    pub own_bound :
        (own_handlers c ≡ [])
        ⊎ ((h : Handler) × (c.bound ≡ some h) × (own_handlers c ≡ h.identity ∷ []))
    pub bound_own : (h : Handler) → c.bound ≡ some h → is_app h.identity ≡ false
    pub fresh : (n : ℕ) → c.emitter.next_identity ≤ n → is_app n ≡ false

  -- Nothing that the invariant reads has changed.
  pub record Same (c c' : Client) : Type 0 where
    pub same_handlers : topic_handlers c'.emitter ≡ topic_handlers c.emitter
    pub same_bound : c'.bound ≡ c.bound
    pub same_identity : c'.emitter.next_identity ≡ c.emitter.next_identity

  pub Same-Single : {c c' : Client} → Same c c' → Single c → Single c'
  Same-Single {c} {c'} same s = record {
    own_bound = rw (same.same_handlers, same.same_bound) s.own_bound;
    bound_own = λ h e. s.bound_own h (cc (e, same.same_bound));
    fresh = λ n e. s.fresh n (omega (arith, same.same_identity));
  }

  pub emit-Same :
      (event : Event) (c : Client) → (event_name event == topic) ≡ false → Same c (emit event c)
  emit-Same event c other =
      let k = fire-Keeps (event_name event) c.emitter in
      record {
        same_handlers = ap handlers_in (k.others topic other);
        same_bound = refl;
        same_identity = k.same_identity;
      }

  pub off_absent :
      (e : Emitter) (n : ℕ)
      → remove (topic_handlers e) n ≡ none
      → topic_handlers (unless_missing e (off (some topic) (some n) e)) ≡ topic_handlers e
  unfolding off
  off_absent e n q = elim (Option-cases (Dict.get e.event_handlers topic)) [
    | inl m ↦ ground (arith, m)
    | inr (hs, is) ↦ ground (arith, is, q)
  ]

  pub off_present :
      (e : Emitter) (n : ℕ) (l : List Handler)
      → remove (topic_handlers e) n ≡ some l
      → topic_handlers (unless_missing e (off (some topic) (some n) e)) ≡ l
  unfolding off remove
  off_present e n l q = elim (Option-cases (Dict.get e.event_handlers topic)) [
    | inl m ↦ absurd (ground (arith, m, q))
    | inr (hs, is) ↦
        ground (arith, is, q, Dict.get-put e.event_handlers topic topic l, eq_refl topic)
  ]

  pub identity-off :
      (e : Emitter) (n : ℕ)
      → (unless_missing e (off (some topic) (some n) e)).next_identity ≡ e.next_identity
  unfolding off
  identity-off e n = ground arith

  -- No handler is the client's own, and none is bound.
  pub record Clean (c : Client) : Type 0 where
    pub none_own : own_handlers c ≡ []
    pub none_bound : c.bound ≡ none
    pub fresh : (n : ℕ) → c.emitter.next_identity ≤ n → is_app n ≡ false

  pub unbind_bound :
      (c : Client) (h : Handler)
      → c.bound ≡ some h
      → unbind c ≡ record c {
        bound = none;
        emitter = unless_missing c.emitter (off (some topic) (some h.identity) c.emitter);
      }
  unbind_bound c h q = ground (arith, q)

  own-off :
      (c : Client) (h : Handler)
      → Single c
      → c.bound ≡ some h
      → own
          (topic_handlers (unless_missing c.emitter (off (some topic) (some h.identity) c.emitter)))
        ≡ []
  own-off c h s q = elim s.own_bound [
    | inl e ↦
        ap own (
          off_absent c.emitter h.identity
            (own-remove_absent (topic_handlers c.emitter) h.identity (s.bound_own h q) e))
        ∙ e
    | inr (k, b, e) ↦
        let same : k ≡ h = cc in
        let (l, left, others) =
          own-remove_present (topic_handlers c.emitter) h.identity [] (s.bound_own h q)
            (cc (e, same)) in
        ap own (off_present c.emitter h.identity l left) ∙ others
  ]

  pub unbind-Clean : (c : Client) → Single c → Clean (unbind c)
  unbind-Clean c s = elim (Option-cases c.bound) [
    | inl q ↦ record {
      none_own = ground (arith, q, unbound q);
      none_bound = ground (arith, q);
      fresh = λ n e. s.fresh n (ground (arith, q, e));
    }
    | inr (h, q) ↦ rw (unbind_bound c h q) (record {
      none_own = own-off c h s q;
      none_bound = refl;
      fresh = λ n e. s.fresh n (omega (arith, identity-off c.emitter h.identity, e));
    })
  ]
    where
      unbound : c.bound ≡ none → own_handlers c ≡ []
      unbound q = elim s.own_bound [ inl e ↦ e | inr (h, b, e) ↦ absurd (cc (q, b)) ]
