-- ===== src/Access/Remote.antt =====
-- Which client and service a uri names: the head of `RPC.get_remote_service`, with the retry of
-- `_wrap_service_methods_with_retry` (python/hypha_rpc/rpc.py).
use Prim.Native.String.{◌++◌ as concat}
use hypha_rpc.Prelude.{
  String, ◌≡◌, refl, ◌∙◌, ap, Bool, true, false, ◌&&◌, ◌||◌, not, Option, none, some, List, [], ◌∷◌,
  ◌==◌, arith, if◌then◌else◌, contains_char, split, find?, is_some, Bool-cases, inl, inr, eq_iff,
}
use package.text.Mathlib.TextLemmas.{append-eq-nil_iff, cons-append, nil-append}
use hypha_rpc.Prelude.Dots.{split-concat, split_whole, contains_char-concat, concat_regroup}
use hypha_rpc.Session.Tree.{Value, Fields, text, dict, end, get}
use hypha_rpc.Session.State.{
  Error, value_error, assertion_error, type_error, Result, ok, err, ◌>>=◌,
}
use hypha_rpc.Access.Info.{Info, Identity, full_id, extract_service_info, get_default, info_of}

-- a, b = parts
abbrev pub two : List String → Result (String × String)
two (a ∷ b ∷ []) = ok (a, b)
two _ = err (value_error "not two values")

abbrev check_app : String → String × String → Result String
check_app app_id (name, app) =
    if not (app_id == "") && not (app_id == "*") && not (app == app_id)
    then err assertion_error
    else ok name

-- `service_id` without "@app_id", which must be the client's own unless that is "*".
unfoldable pub without_app : String → String → Result String
without_app app_id service_id =
    if contains_char b'@' service_id
    then two (split b'@' service_id) >>= check_app app_id
    else ok service_id

-- The uri that is looked up.
unfoldable pub service_uri : String → String → Option String → Result String
service_uri manager_id client_id none =
    if manager_id == "" then err type_error else ok (concat "*/" manager_id)
service_uri manager_id client_id (some uri) =
    ok (if contains_char b':' uri then uri else concat client_id (concat ":" uri))

-- `RPC.get_remote_service` up to the call: the client that is asked, and for which service.
unfoldable pub address : String → Identity → Option String → Result (String × String)
unfolding service_uri without_app
address manager_id me uri = do
  full ← service_uri manager_id me.client_id uri
  (provider, service) ← two (split b':' full)
  service_id ← without_app me.app_id service
  if provider == "" then err assertion_error else ok (provider, service_id)

-- `_is_stale_service_error`, on the message of an error
unfoldable pub is_stale_service_error : String → Bool
is_stale_service_error message =
    let has = λ (pattern : String). is_some (find? message pattern) in
    has "Method expired or not found"
    || has "Session not found"
    || has "Peer"
    || has "Method not found"
    || has "Connection was closed"
    || has "Connection is closed"

-- `_retry_wrapper`: the call, the service that is fetched again with its method of the same name, and
-- the second call.
unfoldable pub retry_wrapper :
    {V : Type 0} → (Error → String) → Result V → Result (Option (Result V)) → Result V
unfolding is_stale_service_error
retry_wrapper message (ok v) refreshed = ok v
retry_wrapper message (err e) refreshed =
    if is_stale_service_error (message e)
    then elim refreshed [ err again ↦ err again | ok none ↦ err e | ok (some second) ↦ second ]
    else err e

-- A text that can stand in a uri.
pub record IsPlain (s : String) : Type 0 where
  pub no_colon : contains_char b':' s ≡ false
  pub no_at : contains_char b'@' s ≡ false

slash_plain : contains_char b':' "/" ≡ false
unfolding contains_char
slash_plain = refl

colon_found : (c : String) → contains_char b':' (String.◌∷◌ ":" c) ≡ true
unfolding contains_char
colon_found c = refl

colon_free :
    (a b : String) → IsPlain a → IsPlain b → contains_char b':' (concat a (concat "/" b)) ≡ false
colon_free a b p q =
    contains_char-concat b':' a (concat "/" b)
    ∙ ground (arith, p.no_colon, q.no_colon, contains_char-concat b':' "/" b, slash_plain)

contains_char-full_id : (a b c : String) → contains_char b':' (full_id a b c) ≡ true
contains_char-full_id a b c =
    let whole = concat a (concat "/" b) in
    ap (contains_char b':') (concat_regroup a b c)
    ∙ contains_char-concat b':' whole (String.◌∷◌ ":" c)
    ∙ ground (arith, colon_found c, Bool-cases (contains_char b':' whole))

split-full_id :
    (a b c : String)
    → IsPlain a
    → IsPlain b
    → IsPlain c
    → split b':' (full_id a b c) ≡ concat a (concat "/" b) ∷ c ∷ []
split-full_id a b c p q r =
    ap (split b':') (concat_regroup a b c)
    ∙ split-concat b':' ":" (concat a (concat "/" b)) c refl (colon_free a b p q)
    ∙ ap (λ l. concat a (concat "/" b) ∷ l) (split_whole b':' c r.no_colon)

-- A provider is named if its workspace is.
named : (a b : String) → (a == "") ≡ false → (concat a b == "") ≡ false
named a b h = elim (Bool-cases (concat a b == "")) [
  | inl e ↦
      let (first, last) = append-eq-nil_iff.0 ((eq_iff (concat a b) "").0 e) in
      absurd (cc ((eq_iff a "").1 first, h))
  | inr e ↦ e
]

pub address-full_id :
    (manager_id : String) (me : Identity) (a b c : String)
    → IsPlain a
    → IsPlain b
    → IsPlain c
    → (a == "") ≡ false
    → address manager_id me (some (full_id a b c)) ≡ ok (concat a (concat "/" b), c)
unfolding address service_uri without_app
address-full_id manager_id me a b c p q r n = ground (
  arith,
  contains_char-full_id a b c,
  split-full_id a b c p q r,
  r.no_at,
  named a (concat "/" b) n,
)

colon_joined : (c : String) → concat ":" c ≡ (String.◌∷◌ ":" c)
colon_joined c = cons-append ":" "" c ∙ ap (String.◌∷◌ ":") (nil-append c)

-- A uri without the client: the client itself is asked.
address-own :
    (manager_id : String) (me : Identity) (c : String)
    → IsPlain me.client_id
    → IsPlain c
    → (me.client_id == "") ≡ false
    → address manager_id me (some c) ≡ ok (me.client_id, c)
unfolding address service_uri without_app
address-own manager_id me c q r n =
    let whole =
      ap (λ u. split b':' (concat me.client_id u)) (colon_joined c)
      ∙ split-concat b':' ":" me.client_id c refl q.no_colon
      ∙ ap (λ l. me.client_id ∷ l) (split_whole b':' c r.no_colon) in
    ground (arith, r.no_colon, whole, r.no_at, n)

-- A service with a plain text id, without a workspace of its own, of a client that has a plain
-- workspace: the info under which it is registered can be made, and a client that asks for
-- the id of that info asks the client that registered it, for the service of that id; so does the client itself when it asks for the
-- id of the service alone. `show` is Python's `str`, which leaves texts as they are.
pub address-registered :
    (show : Value → String) (me other : Identity) (manager_id ws id : String)
    (service config : Fields)
    → ((s : String) → show (text s) ≡ s)
    → me.workspace ≡ some ws
    → get_default service "config" (dict end) ≡ dict config
    → get config "workspace" ≡ none
    → get service "id" ≡ some (text id)
    → IsPlain ws
    → IsPlain me.client_id
    → IsPlain id
    → (ws == "") ≡ false
    → (me.client_id == "") ≡ false
    → (i : Info) × (extract_service_info show me service ≡ ok i)
      × (address manager_id other (some i.id) ≡ ok (concat ws (concat "/" me.client_id), id))
      × (address manager_id me (some id) ≡ ok (me.client_id, id))
unfolding extract_service_info
address-registered show me other manager_id ws id service config str own configured unset called p q
      r n m =
    let i = info_of show me service config (text ws) (text id) in
    (
      i,
      ground (arith, own, configured, unset, called),
      ap (λ u. address manager_id other (some u)) (full (text ws) (text id) (str ws) (str id))
          ∙ address-full_id manager_id other ws me.client_id id p q r n,
      address-own manager_id me id q r m,
    )
  where
    full :
        (v w : Value)
        → show v ≡ ws
        → show w ≡ id
        → full_id (show v) me.client_id (show w) ≡ full_id ws me.client_id id
    full v w e f = cc (e, f)
