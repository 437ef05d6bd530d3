-- ===== src/Session/WellFormed.antt =====
-- The shape of a store of top-level sessions, and that a clean-up of one of them only shrinks it.
use hypha_rpc.Prelude.{
  String, ◌≡◌, refl, sym, subst, ◌∙◌, ◌⊎◌, inl, inr, Option, none, some, false, arith, ap, ◌==◌,
  Bool-cases, Option-cases, eq_iff,
}
use hypha_rpc.Session.Tree.{Value, Fields, Callback, dict, callback, func, get}
use hypha_rpc.Session.State.{Rpc, Error}
use hypha_rpc.Session.Promise.{
  run_callee, stop_own_timer, run_callback, invoke, reject_entry, cleanup_session_entry,
}
use hypha_rpc.Session.Frame.{
  IsTopLevel, OwnsReject, self-cleanup_session_if_needed, store-run_callee, store-stop_own_timer,
  get-reject_entry,
}

-- Every session stands under an id without a dot, and the `reject` that it holds is its own.
pub record WellFormed (r : Rpc) : Type 0 where
  pub top : (k : String) (s : Fields) → get r.object_store k ≡ some (dict s) → IsTopLevel k
  pub own : (k : String) (s : Fields) → get r.object_store k ≡ some (dict s) → OwnsReject k s

-- Each entry of the store is as it was, or gone.
abbrev pub Shrinks : Rpc → Rpc → Type 0
Shrinks r r' =
    (j : String) → (get r'.object_store j ≡ get r.object_store j) ⊎ (get r'.object_store j ≡ none)

pub Shrinks-WellFormed : {r r' : Rpc} → Shrinks r r' → WellFormed r → WellFormed r'
Shrinks-WellFormed {r} {r'} shrinks w = record {
  top = λ k s e. w.top k s (before k s e);
  own = λ k s e. w.own k s (before k s e);
}
  where
    before :
        (k : String) (s : Fields)
        → get r'.object_store k ≡ some (dict s)
        → get r.object_store k ≡ some (dict s)
    before k s e = ground (arith, shrinks k)

self-run_callback :
    (c : Callback) (e : Error) (r : Rpc)
    → IsTopLevel c.session_id
    → (get (run_callback c e r).object_store c.session_id ≡ get r.object_store c.session_id)
      ⊎ (get (run_callback c e r).object_store c.session_id ≡ none)
unfolding run_callback
self-run_callback c e r top = ground (
  arith,
  store-run_callee c.callee e r,
  store-stop_own_timer c (run_callee c.callee e r),
  self-cleanup_session_if_needed c.session_id c.name (stop_own_timer c (run_callee c.callee e r))
      top,
)

self-invoke :
    (v : Value) (k : String) (e : Error) (r : Rpc)
    → IsTopLevel k
    → ((c : Callback) → v ≡ callback c → c.session_id ≡ k)
    → (get (invoke v e r).object_store k ≡ get r.object_store k)
      ⊎ (get (invoke v e r).object_store k ≡ none)
unfolding invoke
self-invoke (callback c) k e r top own =
    let same = own c refl in
    ground (arith, same, self-run_callback c e r (subst IsTopLevel (sym same) top))
self-invoke (func n) k e r top own = inl refl
self-invoke _ k e r top own = inl refl

self-reject_entry :
    (k : String) (s : Fields) (reason : Error) (r : Rpc)
    → IsTopLevel k
    → OwnsReject k s
    → (get (reject_entry s (some reason) r).object_store k ≡ get r.object_store k)
      ⊎ (get (reject_entry s (some reason) r).object_store k ≡ none)
unfolding reject_entry
self-reject_entry k s e r top own = elim (Option-cases (get s "reject")) [
  | inl q ↦ ground (arith, q)
  | inr (v, q) ↦ ground (arith, q, self-invoke v k e r top (λ c is. own c (q ∙ ap some is)))
]

entry-Shrinks :
    (k : String) (v : Option Value) (reason : Error) (r : Rpc)
    → ((s : Fields) → v ≡ some (dict s) → IsTopLevel k × OwnsReject k s)
    → Shrinks r (cleanup_session_entry v (some reason) r)
unfolding cleanup_session_entry
entry-Shrinks k none reason r own j = inl refl
entry-Shrinks k (some (dict s)) reason r own j = elim (Bool-cases (k == j)) [
  | inl e ↦ rw (← (eq_iff k j).0 e) (self-reject_entry k s reason r (own s refl).0 (own s refl).1)
  | inr e ↦ inl (get-reject_entry k j s (some reason) r (own s refl).0 (own s refl).1 e)
]
entry-Shrinks k (some _) reason r own j = inl refl

pub cleanup_session_entry-Shrinks :
    (k : String) (reason : Error) (r : Rpc)
    → WellFormed r
    → Shrinks r (cleanup_session_entry (get r.object_store k) (some reason) r)
cleanup_session_entry-Shrinks k reason r w =
    entry-Shrinks k (get r.object_store k) reason r (λ s e. (w.top k s e, w.own k s e))

entry-other :
    (k : String) (v : Option Value) (reason : Error) (r : Rpc) (j : String)
    → ((s : Fields) → v ≡ some (dict s) → IsTopLevel k × OwnsReject k s)
    → (k == j) ≡ false
    → get (cleanup_session_entry v (some reason) r).object_store j ≡ get r.object_store j
unfolding cleanup_session_entry
entry-other k none reason r j own e = refl
entry-other k (some (dict s)) reason r j own e =
    get-reject_entry k j s (some reason) r (own s refl).0 (own s refl).1 e
entry-other k (some _) reason r j own e = refl

pub cleanup_session_entry-other :
    (k : String) (reason : Error) (r : Rpc) (j : String)
    → WellFormed r
    → (k == j) ≡ false
    → get (cleanup_session_entry (get r.object_store k) (some reason) r).object_store j
      ≡ get r.object_store j
cleanup_session_entry-other k reason r j w e =
    entry-other k (get r.object_store k) reason r j (λ s is. (w.top k s is, w.own k s is)) e
