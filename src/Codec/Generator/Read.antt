-- ===== src/Codec/Generator/Read.antt =====
-- What the reader of a remote generator gets, and what is left in the session
-- (python/hypha_rpc/rpc.py).
use hypha_rpc.Prelude.{
  ℕ, zero, suc, ◌≤◌, String, ◌≡◌, refl, Bool, true, false, Option, none, List, [], ◌∷◌, ◌==◌,
  if◌then◌else◌, arith, map, take, All, Bool-cases, inl, inr, ap, ◌∙◌,
}
use hypha_rpc.Prelude.Dict.{has, del, get-del}
use hypha_rpc.Prelude.Dict.{get as lookup}
use hypha_rpc.Codec.{
  Scalar, Object, Entries, prim, dict, proxy, list, tuple, ordered, set, ndarray, exception,
  memoryview, end, entry, get, str,
}
use hypha_rpc.Codec.Coder.{Outcome, ok, failed}
use hypha_rpc.Codec.Coder.{Coder, Side}
use hypha_rpc.Codec.Encode.{encode}
use hypha_rpc.Codec.Decode.{decode}
use hypha_rpc.Codec.Reference.{wire, received, received_entries, depth, Plain}
use hypha_rpc.Codec.Backward.{Builtin, Munches, decode-Decodes}
use hypha_rpc.Codec.RoundTrip.{decode-encode, encode-wire}
use hypha_rpc.Codec.{put, del as without}
use hypha_rpc.Codec.Generator.{
  yields, Source, Reading, read, take_reply, call_next, next_item, forget, close_id, stop_iteration,
  is_stop,
}

-- Both methods of the generator are gone from the store, which is otherwise unchanged.
abbrev pub Forgets : String → Source → Source → Type 0
Forgets object_id s s' =
    (k : String)
    → lookup s'.store k ≡ (
        if close_id object_id == k then none else if object_id == k then none else lookup s.store k)

Forgets-forget :
    (object_id : String) (s k : Source)
    → k.store ≡ s.store
    → Forgets object_id s (forget object_id k)
Forgets-forget object_id s k e j =
    get-del (del k.store object_id) (close_id object_id) j
    ∙ ap (λ o. if close_id object_id == j then none else o)
        (get-del k.store object_id j ∙ ap (λ d. if object_id == j then none else lookup d j) e)

-- A generator whose methods can be called.
pub record Callable (object_id : String) (s : Source) : Type 0 where
  pub next_there : has s.store object_id ≡ true
  pub close_there : has s.store (close_id object_id) ≡ true

module _ (transfer : Object → Outcome Object) (object_id : String) (f : Object → Object) where
  -- A value arrives, and is not taken for the end.
  abbrev pub Arrives : Object → Type 0
  Arrives v = (transfer v ≡ ok (f v)) × (is_stop (f v) ≡ false)

  -- The reader takes a number of items, and what it read them from forgets the generator.
  pub record Takes (want : ℕ) (vs : List Object) (s : Source) (r : Reading) : Type 0 where
    pub takes : r.items ≡ map f (take want vs)
    pub no_error : r.error ≡ none
    pub forgets : Forgets object_id s r.source

  read-next :
      (want : ℕ) (s : Source) (vs : List Object)
      → Callable object_id s
      → s.remaining ≡ map yields vs
      → let next = next_item object_id (map yields vs) s in
        read transfer object_id (suc want) s
        ≡ take_reply transfer object_id (λ k. read transfer object_id want k) next.0 next.1
  unfolding read
  read-next want s vs c e =
      ap (λ p. take_reply transfer object_id (λ k. read transfer object_id want k) p.0 p.1) called
    where
      called : call_next object_id s ≡ next_item object_id (map yields vs) s
      called = rw c.next_there (ap (λ es. next_item object_id es s) e)

  pub read-Takes :
      (stop : Object) (want : ℕ) (vs : List Object) (s : Source)
      → transfer stop_iteration ≡ ok stop
      → is_stop stop ≡ true
      → All Arrives vs
      → Callable object_id s
      → s.remaining ≡ map yields vs
      → Takes want vs s (read transfer object_id want s)
  unfolding read
  read-Takes stop zero vs s t p a c e = rw c.close_there (record {
    takes = refl;
    no_error = refl;
    forgets = Forgets-forget object_id s (record s { remaining = [] }) refl;
  })
  read-Takes stop (suc want) [] s t p a c e =
      rw (read-next want s [] c e, t, p)
        (record { takes = refl; no_error = refl; forgets = Forgets-forget object_id s s refl })
  read-Takes stop (suc want) (v ∷ vs) s t p (a, more) c e =
      let k = record s { remaining = map yields vs } in
      let r =
        read-Takes stop want vs k t p more
          (record { next_there = c.next_there; close_there = c.close_there }) refl in
      rw (read-next want s (v ∷ vs) c e, a.0, a.1)
        (record { takes = ap (λ ws. f v ∷ ws) r.takes; no_error = r.no_error; forgets = r.forgets })

get-received_entries :
    (d : Entries) (k : String) → get d k ≡ none → get (received_entries d) k ≡ none
unfolding get received
get-received_entries end k h = refl
get-received_entries (entry j v d) k h = elim (Bool-cases (j == k)) [
  | inl e ↦ absurd (cc (e, h))
  | inr e ↦ rw e (get-received_entries d k (rw e at h))
]

module _ (uuid : ℕ → String) (find_codec : Object → Option (String × (Object → Outcome Object)))
    (side : Side) (decoder : String → Option (Object → Outcome Object))
    (frombuffer : List ℕ → String → Option (List ℕ) → Outcome Object) (from_dict : Entries → Object)
    (same : Scalar → Scalar → Bool) (remote_workspace : Option String) where
  abbrev decode_sent : ℕ → Outcome Object → Outcome Object
  decode_sent m (ok w) = decode decoder frombuffer from_dict same remote_workspace m w
  decode_sent m (failed e) = failed e

  -- From the encoding of a result to its decoding.
  abbrev pub transfer : ℕ → ℕ → Coder → Object → Outcome Object
  transfer n m s v = decode_sent m (encode uuid find_codec side n v s).0

  -- An item that is plain data, of at most the given levels.
  abbrev pub Sendable : ℕ → ℕ → Object → Type 0
  Sendable n m v = Plain find_codec frombuffer same v × (depth v ≤ n) × (depth v ≤ m)

  is_stop-received :
      (v : Object) → Plain find_codec frombuffer same v → is_stop (received v) ≡ false
  unfolding received Plain
  is_stop-received (prim p) h = refl
  is_stop-received (list xs) h = refl
  is_stop-received (tuple xs) h = refl
  is_stop-received (dict d) h = rw (get-received_entries d "_rtype" h.1.untyped) refl
  is_stop-received (proxy d) h = rw (get-received_entries d "_rtype" h.1.untyped) refl
  is_stop-received (ordered d) h = rw (get-received_entries d "_rtype" h.1.untyped) refl
  is_stop-received (set xs) h = refl
  is_stop-received (ndarray shape dtype b) h = refl
  is_stop-received (exception m t) h = refl
  is_stop-received (memoryview b) h = refl
  is_stop-received _ h = absurd h

  Arrives-Sendable :
      (n m : ℕ) (s : Coder) (v : Object) (object_id : String)
      → Builtin decoder
      → Munches from_dict
      → Sendable n m v
      → Arrives (transfer n m s) object_id received v
  Arrives-Sendable n m s v object_id builtin munches (plain, h, k) =
      let (sent, there, back) =
        decode-encode uuid find_codec side decoder frombuffer from_dict same remote_workspace
          builtin munches v n m s plain h k in
      (ap (λ p. decode_sent m p.0) there ∙ back, is_stop-received v plain)

  encode-stop :
      (n : ℕ) (s : Coder)
      → encode uuid find_codec side n (dict end) s ≡ (ok (dict end), s)
      → encode uuid find_codec side (suc n) stop_iteration s ≡ (ok stop_iteration, s)
  unfolding encode get put without
  encode-stop n s h = rw h refl

  abbrev stopped : Object
  stopped = proxy (entry "_rtype" (str "stop_iteration") end)

  decode-stop :
      (m : ℕ)
      → decoder "stop_iteration" ≡ none
      → decode decoder frombuffer from_dict same remote_workspace m (dict end) ≡ ok (proxy end)
      → decode decoder frombuffer from_dict same remote_workspace (suc m) stop_iteration
        ≡ ok stopped
  unfolding decode get put without
  decode-stop m d h = ground (arith, d, h)

  empty-Plain : find_codec (dict end) ≡ none → Plain find_codec frombuffer same (dict end)
  unfolding Plain get
  empty-Plain c = (c, record { untyped = refl; no_interface = refl }, tt)

  transfer-stop :
      (n m : ℕ) (s : Coder)
      → Builtin decoder
      → Munches from_dict
      → decoder "stop_iteration" ≡ none
      → find_codec (dict end) ≡ none
      → 1 ≤ n
      → 1 ≤ m
      → transfer (suc n) (suc m) s stop_iteration ≡ ok stopped
  unfolding depth wire received
  transfer-stop n m s builtin munches d c h k =
      let plain = empty-Plain c in
      ap (λ p. decode_sent (suc m) p.0)
        (encode-stop n s (encode-wire uuid find_codec side frombuffer same (dict end) n s plain h))
      ∙ decode-stop m d (
          decode-Decodes find_codec decoder frombuffer from_dict same remote_workspace builtin
            munches (dict end) plain m k)

  -- The reader of a remote generator whose items are plain data gets, however many items it takes, the
  -- first that many of them, in their order and as the codec delivers them, without an error, and
  -- afterwards both methods of the generator are gone from the session, whether the generator ended
  -- or the reader stopped early; nothing else in the session changed. The names of the codec's own
  -- types are not taken by other codecs, and both sides have fuel for the items.
  pub read-received :
      (object_id : String) (want : ℕ) (vs : List Object) (s : Source) (n m : ℕ) (coder : Coder)
      → Builtin decoder
      → Munches from_dict
      → decoder "stop_iteration" ≡ none
      → find_codec (dict end) ≡ none
      → 1 ≤ n
      → 1 ≤ m
      → All (Sendable (suc n) (suc m)) vs
      → Callable object_id s
      → s.remaining ≡ map yields vs
      → Takes
          (transfer (suc n) (suc m) coder)
          object_id
          received
          (suc want)
          vs
          s
          (read (transfer (suc n) (suc m) coder) object_id (suc want) s)
  unfolding get
  read-received object_id want vs s n m coder builtin munches d c h k sendable callable e =
      read-Takes (transfer (suc n) (suc m) coder) object_id received stopped (suc want) vs s
        (transfer-stop n m coder builtin munches d c h k) refl (arrive vs sendable) callable e
    where
      arrive :
          (ws : List Object)
          → All (Sendable (suc n) (suc m)) ws
          → All (Arrives (transfer (suc n) (suc m) coder) object_id received) ws
      arrive [] q = tt
      arrive (w ∷ ws) (q, qs) =
          (Arrives-Sendable (suc n) (suc m) coder w object_id builtin munches q, arrive ws qs)
