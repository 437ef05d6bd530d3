-- ===== src/Client/Reported/Requests.antt =====
-- The requests that the loop of `on_connected` makes and how it counts (python/hypha_rpc/rpc.py).
use hypha_rpc.Prelude.{
  ℕ, ◌+◌, ◌-◌, ◌≡◌, ◌∙◌, ap, sym, String, true, false, Option, List, [], ◌∷◌, ◌++◌, arith,
  if◌then◌else◌, length, Bool-cases, Option-cases, inl, inr, length-append, append_assoc,
  append_nil,
}
use hypha_rpc.Session.Tree.{Value, Fields, text}
use hypha_rpc.Session.State.{Error, ok, err, Result-cases}
use hypha_rpc.Access.Info.{Info, Identity, extract_service_info, is_local_only, get_default}
use hypha_rpc.Client.{Report, register_one, register_each}

-- The services that are not only local.
unfoldable pub remote : List Fields → List Fields
remote [] = []
remote (s ∷ rest) = let others = remote rest in if is_local_only s then others else s ∷ others

module _ (show : Value → String) (me : Identity) where
  -- What the server is asked to register.
  unfoldable pub infos : List Fields → List Info
  infos [] = []
  infos (s ∷ rest) =
      let others = infos rest in
      elim (extract_service_info show me s) [ ok i ↦ i ∷ others | err e ↦ others ]

  abbrev pub HasInfo : Fields → Type 0
  HasInfo s = (i : Info) × (extract_service_info show me s ≡ ok i)

  module _ (answer : ℕ → Option Error) where
    abbrev pub one : Fields → Report → Report
    one = register_one show me answer

    abbrev pub each : List Fields → Report → Report
    each = register_each show me answer

    pub one_local :
        (s : Fields) (p : Report)
        → is_local_only s ≡ true
        → one s p ≡ record p { total = p.total - 1 }
    unfolding register_one
    one_local s p l = ground (arith, l)

    pub each_local :
        (s : Fields) (ss : List Fields) (p : Report)
        → is_local_only s ≡ true
        → each (s ∷ ss) p ≡ each ss (record p { total = p.total - 1 })
    unfolding register_each
    each_local s ss p l = ap (each ss) (one_local s p l)

    counted-one :
        (s : Fields) (p : Report)
        → is_local_only s ≡ false
        → let p' = one s p in
          (p'.total ≡ p.total)
          × (p'.registered + length p'.failed ≡ p.registered + length p.failed + 1)
    unfolding register_one
    counted-one s p l = elim (Result-cases (extract_service_info show me s)) [
      | inr (e, q) ↦
          ground (arith, l, q, length-append p.failed (get_default s "id" (text "unknown") ∷ []))
      | inl (i, q) ↦ elim (Option-cases (answer (length p.sent))) [
        | inl a ↦ ground (arith, l, q, a)
        | inr (e, a) ↦
            ground
              (arith, l, q, a, length-append p.failed (get_default s "id" (text "unknown") ∷ []))
      ]
    ]

    -- Every service but the local ones is counted once.
    pub counted-register_each :
        (ss : List Fields) (p : Report) (done : ℕ)
        → p.total ≡ done + length ss
        → p.registered + length p.failed ≡ done
        → let p' = each ss p in
          (p'.total ≡ done + length (remote ss)) × (p'.registered + length p'.failed ≡ p'.total)
    unfolding remote register_each
    counted-register_each [] p done t d = omega arith
    counted-register_each (s ∷ ss) p done t d = elim (Bool-cases (is_local_only s)) [
      | inl l ↦
          rw (each_local s ss p l, l)
            (counted-register_each ss (record p { total = p.total - 1 }) done (omega (arith, t)) d)
      | inr l ↦
          let (same, more) = counted-one s p l in
          let (total, all) =
            counted-register_each ss (one s p) (done + 1) (omega (arith, t, same))
              (omega (arith, d, more)) in
          rw l (omega (arith, total), all)
    ]

    sent-one :
        (s : Fields) (p : Report)
        → is_local_only s ≡ false
        → (one s p).sent ≡ p.sent ++ infos (s ∷ [])
    unfolding register_one infos
    sent-one s p l = elim (Result-cases (extract_service_info show me s)) [
      | inr (e, q) ↦ ground (arith, l, q, append_nil p.sent)
      | inl (i, q) ↦ elim (Option-cases (answer (length p.sent))) [
        | inl a ↦ ground (arith, l, q, a)
        | inr (e, a) ↦ ground (arith, l, q, a)
      ]
    ]

    infos_cons : (s : Fields) (ss : List Fields) → infos (s ∷ ss) ≡ infos (s ∷ []) ++ infos ss
    unfolding infos
    infos_cons s ss = elim (Result-cases (extract_service_info show me s)) [
      | inr (e, q) ↦ ground (arith, q)
      | inl (i, q) ↦ ground (arith, q)
    ]

    -- The requests are the infos of the services that are not local, in their order.
    pub sent-register_each :
        (ss : List Fields) (p : Report) → (each ss p).sent ≡ p.sent ++ infos (remote ss)
    unfolding register_each remote infos
    sent-register_each [] p = ground (arith, append_nil p.sent)
    sent-register_each (s ∷ ss) p = elim (Bool-cases (is_local_only s)) [
      | inl l ↦
          rw (each_local s ss p l, l) (sent-register_each ss (record p { total = p.total - 1 }))
      | inr l ↦ rw l (
          sent-register_each ss (one s p)
          ∙ ap (λ a. a ++ infos (remote ss)) (sent-one s p l)
          ∙ append_assoc p.sent (infos (s ∷ [])) (infos (remote ss))
          ∙ ap (λ a. p.sent ++ a) (sym (infos_cons s (remote ss))))
    ]
