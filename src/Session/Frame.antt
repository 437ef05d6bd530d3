-- ===== src/Session/Frame.antt =====
-- Which sessions the operations on one top-level session touch: that one and no other.
use hypha_rpc.Prelude.{
  String, ◌≡◌, refl, sym, subst, ◌∙◌, ◌⊎◌, false, Option, none, some, [], ◌∷◌, arith, ◌==◌,
  if◌then◌else◌, eq_iff, eq_refl,
}
use hypha_rpc.Session.Tree.{Value, Fields, Callback, Callee, dict, callback, func, get, get-del}
use hypha_rpc.Session.State.{Rpc, Error, ok, levels, get_session_store}
use hypha_rpc.Session.Cleanup.{
  delete_session_completely, delete_session_safely, remove_from_target_id_index, delete_top,
}
use hypha_rpc.Session.Promise.{
  run_callee, stop_own_timer, cleanup_session_if_needed, run_callback, invoke, reject_entry,
  cleanup_session_entry,
}

-- A session id without a dot, as every call from the top makes one.
pub record IsTopLevel (k : String) : Type 0 where
  pub one_level : levels k ≡ k ∷ []
  pub named : (k == "") ≡ false

pub store-remove_from_target_id_index :
    (k : String) (r : Rpc) → (remove_from_target_id_index k r).object_store ≡ r.object_store
unfolding remove_from_target_id_index
store-remove_from_target_id_index k r = ground arith

get-delete_top :
    (k j : String) (r : Rpc)
    → get (delete_top k r).object_store j ≡ (if k == j then none else get r.object_store j)
unfolding delete_top
get-delete_top k j r = ground (arith, get-del r.object_store k j, eq_iff k j)

-- Deleting a session with an id without a dot takes its entry out of the store, whether or not it was
-- there, and leaves every other entry as it was.
pub get-delete_session_completely :
    (k j : String) (r : Rpc)
    → IsTopLevel k
    → get (delete_session_completely k r).object_store j
      ≡ (if k == j then none else get r.object_store j)
unfolding delete_session_completely
get-delete_session_completely k j r top =
    rw (top.named, top.one_level)
      (get-delete_top k j (remove_from_target_id_index k r) ∙ rw store-remove_from_target_id_index)

get-delete_session_safely :
    (k j : String) (r : Rpc)
    → IsTopLevel k
    → get (delete_session_safely k r).object_store j
      ≡ (if k == j then none else get r.object_store j)
unfolding delete_session_safely remove_from_target_id_index
get-delete_session_safely k j r top =
    rw (top.one_level, delete_session_safely)
      (ground (arith, get-del r.object_store k j, eq_iff k j))

pub get_session_store-top :
    (k : String) (r : Rpc) → IsTopLevel k → get_session_store r (some k) ≡ ok (get r.object_store k)
unfolding get_session_store
get_session_store-top k r top = rw top.one_level (ground arith)

-- After the clean-up the key is gone or nothing changed, and no other key is touched.
get-cleanup_session_if_needed :
    (k name j : String) (r : Rpc)
    → IsTopLevel k
    → (k == j) ≡ false
    → get (cleanup_session_if_needed k name r).object_store j ≡ get r.object_store j
unfolding cleanup_session_if_needed
get-cleanup_session_if_needed k name j r top other =
    rw (top.named, get_session_store-top k r top, cleanup_session_if_needed)
      (ground (arith, get-delete_session_completely k j r top, get-delete_session_safely k j r top))

pub store-run_callee :
    (c : Callee) (e : Error) (r : Rpc) → (run_callee c e r).object_store ≡ r.object_store
unfolding run_callee
store-run_callee c e r = ground arith

pub store-stop_own_timer :
    (c : Callback) (r : Rpc) → (stop_own_timer c r).object_store ≡ r.object_store
unfolding stop_own_timer
store-stop_own_timer c r = ground arith

pub get-run_callback :
    (c : Callback) (j : String) (e : Error) (r : Rpc)
    → IsTopLevel c.session_id
    → (c.session_id == j) ≡ false
    → get (run_callback c e r).object_store j ≡ get r.object_store j
unfolding run_callback
get-run_callback c j e r top other = ground (
  arith,
  store-run_callee c.callee e r,
  store-stop_own_timer c (run_callee c.callee e r),
  get-cleanup_session_if_needed c.session_id c.name j (stop_own_timer c (run_callee c.callee e r))
      top other,
)

-- The `reject` callback that a session holds is the session's own.
abbrev pub OwnsReject : String → Fields → Type 0
OwnsReject k s = (c : Callback) → get s "reject" ≡ some (callback c) → c.session_id ≡ k

pub get-reject_entry :
    (k j : String) (s : Fields) (reason : Option Error) (r : Rpc)
    → IsTopLevel k
    → OwnsReject k s
    → (k == j) ≡ false
    → get (reject_entry s reason r).object_store j ≡ get r.object_store j
unfolding reject_entry invoke
get-reject_entry k j s none r top own other = refl
get-reject_entry k j s (some e) r top own other = go (get s "reject") refl
  where
    go :
        (v : Option Value)
        → get s "reject" ≡ v
        → get (elim v as (λ _. Rpc) [ none ↦ r | some f ↦ invoke f e r ]).object_store j
          ≡ get r.object_store j
    go none q = refl
    go (some (callback c)) q =
        let same = own c q in
        get-run_callback c j e r (subst IsTopLevel (sym same) top) (rw same other)
    go (some (func n)) q = refl
    go (some _) q = refl

pub get-cleanup_session_entry :
    (k j : String) (s : Fields) (reason : Option Error) (r : Rpc)
    → IsTopLevel k
    → OwnsReject k s
    → (k == j) ≡ false
    → get (cleanup_session_entry (some (dict s)) reason r).object_store j ≡ get r.object_store j
unfolding cleanup_session_entry
get-cleanup_session_entry k j s reason r top own other =
    get-reject_entry k j s reason r top own other

-- The session's own entry stays as it was, or goes.
pub self-cleanup_session_if_needed :
    (k name : String) (r : Rpc)
    → IsTopLevel k
    → (get (cleanup_session_if_needed k name r).object_store k ≡ get r.object_store k)
      ⊎ (get (cleanup_session_if_needed k name r).object_store k ≡ none)
unfolding cleanup_session_if_needed
self-cleanup_session_if_needed k name r top = ground (
  arith,
  top.named,
  get_session_store-top k r top,
  get-delete_session_completely k k r top,
  get-delete_session_safely k k r top,
  eq_refl k,
)
