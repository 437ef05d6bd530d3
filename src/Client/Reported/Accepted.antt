-- ===== src/Client/Reported/Accepted.antt =====
-- When no service fails in the loop of `on_connected` (python/hypha_rpc/rpc.py).
use hypha_rpc.Prelude.{
  ℕ, ◌+◌, ◌-◌, ◌≤◌, ◌<◌, ◌≡◌, ◌∙◌, refl, ap, subst, String, Bool, true, false, Option, none, List,
  [], ◌∷◌, ◌++◌, arith, length, nat_eq, ◌⊎◌, Bool-cases, Option-cases, inl, inr, length-append, All,
}
use hypha_rpc.Session.Tree.{Value, Fields, text}
use hypha_rpc.Session.State.{Error, ok, Result-cases}
use hypha_rpc.Access.Info.{Info, Identity, extract_service_info, is_local_only, get_default}
use hypha_rpc.Client.{Report, register_one, register_each, no_failures}
use hypha_rpc.Client.Reported.Requests.{remote, infos, HasInfo, each_local}

nat_cases : (n i : ℕ) → n ≤ i → (n ≡ i) ⊎ (n < i)
nat_cases n i q = elim (Bool-cases (nat_eq n i)) [
  | inl e ↦ inl (ground arith)
  | inr e ↦ inr (ground arith)
]

module _ (show : Value → String) (me : Identity) where
  module _ (answer : ℕ → Option Error) where
    abbrev one : Fields → Report → Report
    one = register_one show me answer

    abbrev each : List Fields → Report → Report
    each = register_each show me answer

    failed_snoc : (vs : List Value) (v : Value) → no_failures (vs ++ v ∷ []) ≡ false
    failed_snoc [] v = refl
    failed_snoc (w ∷ vs) v = refl

    -- The id that a failed service is listed under.
    abbrev listed : Fields → Value
    listed s = get_default s "id" (text "unknown")

    stays-one :
        (s : Fields) (p : Report)
        → no_failures p.failed ≡ false
        → no_failures (one s p).failed ≡ false
    unfolding register_one
    stays-one s p f = elim (Bool-cases (is_local_only s)) [
      | inl l ↦ ground (arith, l, f)
      | inr l ↦ elim (Result-cases (extract_service_info show me s)) [
        | inr (e, q) ↦ ground (arith, l, q, failed_snoc p.failed (listed s))
        | inl (i, q) ↦ elim (Option-cases (answer (length p.sent))) [
          | inl a ↦ ground (arith, l, q, a, f)
          | inr (e, a) ↦ ground (arith, l, q, a, failed_snoc p.failed (listed s))
        ]
      ]
    ]

    stays-register_each :
        (ss : List Fields) (p : Report)
        → no_failures p.failed ≡ false
        → no_failures (each ss p).failed ≡ false
    unfolding register_each
    stays-register_each [] p f = f
    stays-register_each (s ∷ ss) p f = stays-register_each ss (one s p) (stays-one s p f)

    -- One service that is not local and did not fail.
    record Accepted (s : Fields) (p : Report) : Type 0 where
      info : Info
      has_info : extract_service_info show me s ≡ ok info
      accepted : answer (length p.sent) ≡ none

    clean-Accepted :
        (s : Fields) (p : Report)
        → is_local_only s ≡ false
        → no_failures (one s p).failed ≡ true
        → Accepted s p
    unfolding register_one
    clean-Accepted s p l c = elim (Result-cases (extract_service_info show me s)) [
      | inr (e, q) ↦ absurd (ground (arith, l, q, c, failed_snoc p.failed (listed s)))
      | inl (i, q) ↦ elim (Option-cases (answer (length p.sent))) [
        | inl a ↦ record { info = i; has_info = q; accepted = a }
        | inr (e, a) ↦ absurd (ground (arith, l, q, a, c, failed_snoc p.failed (listed s)))
      ]
    ]

    one_of_Accepted :
        (s : Fields) (p : Report) (a : Accepted s p)
        → is_local_only s ≡ false
        → one s p ≡ record p { sent = p.sent ++ a.info ∷ []; registered = p.registered + 1 }
    unfolding register_one
    one_of_Accepted s p a l = ground (arith, l, a.has_info, a.accepted)

    -- All the requests from the given number on were accepted.
    abbrev pub AcceptedFrom : ℕ → ℕ → Type 0
    AcceptedFrom first last = (i : ℕ) → first ≤ i → i < last → answer i ≡ none

    next_number :
        (s : Fields) (p : Report) (a : Accepted s p)
        → is_local_only s ≡ false
        → length (one s p).sent ≡ length p.sent + 1
    next_number s p a l =
        ap (λ (q : Report). length q.sent) (one_of_Accepted s p a l)
        ∙ length-append p.sent (a.info ∷ [])

    first_or_later :
        (i n m : ℕ)
        → answer n ≡ none
        → m ≡ n + 1
        → (last : ℕ) → n ≤ i
        → i < last
        → (m ≤ i → i < last → answer i ≡ none)
        → answer i ≡ none
    first_or_later i n m first next last q r later = elim (nat_cases n i q) [
      | inl e ↦ cc (e, first)
      | inr k ↦ later (omega (arith, k, next)) r
    ]

    pub clean→accepted :
        (ss : List Fields) (p : Report)
        → no_failures (each ss p).failed ≡ true
        → All (HasInfo show me) (remote ss) × AcceptedFrom (length p.sent) (length (each ss p).sent)
    unfolding register_each remote
    clean→accepted [] p c = (tt, λ i q r. absurd (omega (arith, q, r)))
    clean→accepted (s ∷ ss) p c = elim (Bool-cases (is_local_only s)) [
      | inl l ↦
          rw (each_local show me answer s ss p l, l)
            (clean→accepted ss (record p { total = p.total - 1 })
              (cc (c, each_local show me answer s ss p l)))
      | inr l ↦
          let a = clean-Accepted s p l (clean_first (no_failures (one s p).failed) refl) in
          let (others, answers) = clean→accepted ss (one s p) c in
          rw l (
            ((a.info, a.has_info), others),
            λ i q r.
                first_or_later i (length p.sent) (length (one s p).sent) a.accepted
                  (next_number s p a l) (length (each ss (one s p)).sent) q r (answers i),
          )
    ]
      where
        clean_first :
            (b : Bool) → no_failures (one s p).failed ≡ b → no_failures (one s p).failed ≡ true
        clean_first true e = e
        clean_first false e = absurd (ground (arith, c, stays-register_each ss (one s p) e))

    remote_local :
        (s : Fields) (ss : List Fields) → is_local_only s ≡ true → remote (s ∷ ss) ≡ remote ss
    unfolding remote
    remote_local s ss l = ground (arith, l)

    remote_kept :
        (s : Fields) (ss : List Fields) → is_local_only s ≡ false → remote (s ∷ ss) ≡ s ∷ remote ss
    unfolding remote
    remote_kept s ss l = ground (arith, l)

    -- The answers to the requests for the services that are left.
    abbrev AcceptedRest : ℕ → List Fields → Type 0
    AcceptedRest first ss = AcceptedFrom first (first + length (infos show me ss))

    length-infos :
        (s : Fields) (ss : List Fields)
        → HasInfo show me s
        → length (infos show me (s ∷ ss)) ≡ length (infos show me ss) + 1
    unfolding infos
    length-infos s ss (i, q) = ground (arith, q)

    rest-Accepted :
        (s : Fields) (ss : List Fields) (p : Report)
        → HasInfo show me s
        → AcceptedRest (length p.sent) (s ∷ ss)
        → Accepted s p
    rest-Accepted s ss p h a = record {
      info = h.0;
      has_info = h.1;
      accepted = a (length p.sent) (omega arith) (omega (arith, length-infos s ss h));
    }

    pub accepted→clean :
        (ss : List Fields) (p : Report)
        → no_failures p.failed ≡ true
        → All (HasInfo show me) (remote ss)
        → AcceptedRest (length p.sent) (remote ss)
        → no_failures (each ss p).failed ≡ true
    unfolding register_each
    accepted→clean [] p c h a = c
    accepted→clean (s ∷ ss) p c h a = elim (Bool-cases (is_local_only s)) [
      | inl l ↦
          let e = remote_local s ss l in
          rw (each_local show me answer s ss p l) (
            accepted→clean ss (record p { total = p.total - 1 }) c
              (subst (All (HasInfo show me)) e h) (subst (AcceptedRest (length p.sent)) e a))
      | inr l ↦
          let e = remote_kept s ss l in
          let (has, others) = subst (All (HasInfo show me)) e h in
          let rest = subst (AcceptedRest (length p.sent)) e a in
          let one_more = rest-Accepted s (remote ss) p has rest in
          let next = next_number s p one_more l in
          accepted→clean ss (one s p)
            (ap (λ (q : Report). no_failures q.failed) (one_of_Accepted s p one_more l) ∙ c) others
            (λ i q r.
              rest i (omega (arith, q, next))
                (omega (arith, r, next, length-infos s (remote ss) has)))
    ]
