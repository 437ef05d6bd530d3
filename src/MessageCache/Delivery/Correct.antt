-- ===== src/MessageCache/Delivery/Correct.antt =====
-- A package that is sent in chunks arrives whole, whatever the order of arrival.
use hypha_rpc.Prelude.{
  ℕ, zero, suc, ◌+◌, ◌<◌, ◌≤◌, String, ◌≡◌, refl, ◌∙◌, Bool, true, false, ◌||◌, none, some, List,
  [], ◌∷◌, ◌++◌, arith, ◌==◌, eq_refl, length, ap, nat_eq,
}
use hypha_rpc.Prelude.Dict
use hypha_rpc.Prelude.Dict.{Dict, dict_laws}
use hypha_rpc.Session.Tree
use hypha_rpc.Session.Tree.{Fields, text}
use hypha_rpc.Session.State.{ok}
use hypha_rpc.MessageCache.Chunk.{Bytes, Chunks, put, join}
use hypha_rpc.MessageCache.Chunk.Slices.{
  chunk_count, chunk_at, chunks_of, chunks_from, chunks_of_lem,
}
use hypha_rpc.MessageCache.Chunk.Upload.{write_all, occurs, Carries, get_elem?, join-write_all}
use hypha_rpc.MessageCache.{
  Receiver, Unpacked, Context, process_message, or_empty, unpack_main, merge_extra, with_ctx,
  with_trusted, fire,
}
use hypha_rpc.MessageCache.Steps.{
  CanTouch, Holds, touch_session-Touched, create_message-Holds, set_message-Holds,
}
use hypha_rpc.MessageCache.Delivery.{writes, set_each, send_chunks}

-- Two good operations on one key, one after the other.
Holds-trans :
    {heartbeat : Bool} {key : String} (d e : Chunks) (s t u : Receiver)
    → Holds heartbeat key d s t
    → Holds heartbeat key e t u
    → Holds heartbeat key e s u
Holds-trans d e s t u h k = record {
  can = k.can;
  cached = k.cached;
  is_cached = k.is_cached;
  entry = k.entry;
  others = λ j n. ground (arith, k.others j n, h.others j n, h.is_cached);
  fired = k.fired ∙ h.fired;
}

set_each-Holds :
    (key : String) (heartbeat : Bool) (ws : List (ℕ × Bytes)) (d : Chunks) (s t : Receiver)
    → Holds heartbeat key d s t
    → (u : Receiver) × (set_each key heartbeat ws t ≡ (ok tt, u))
      × Holds heartbeat key (write_all d ws) s u
unfolding set_each write_all
set_each-Holds key heartbeat [] d s t h = (t, refl, h)
set_each-Holds key heartbeat ((i, c) ∷ ws) d s t h =
    let (t1, is, h1) = set_message-Holds key i c heartbeat h.cached d t h.can h.is_cached h.entry in
    let (u, rest, h2) =
      set_each-Holds key heartbeat ws (put d i c) s t1 (Holds-trans d (put d i c) s t t1 h h1) in
    (u, ground (arith, is, rest), h2)

get_elem?-chunks_from :
    (size : ℕ) (payload : Bytes) (idx n k : ℕ)
    → k < n
    → get_elem? (chunks_from size payload idx n) k ≡ some (chunk_at size payload (idx + k))
unfolding chunks_from
get_elem?-chunks_from size payload idx zero k h = absurd (omega arith)
get_elem?-chunks_from size payload idx (suc n) zero h =
    ap (λ t. some (chunk_at size payload t)) (omega arith)
get_elem?-chunks_from size payload idx (suc n) (suc k) h =
    get_elem?-chunks_from size payload (idx + 1) n k (omega arith)
    ∙ ap (λ t. some (chunk_at size payload t)) (omega arith)

length-chunks_from :
    (size : ℕ) (payload : Bytes) (idx n : ℕ) → length (chunks_from size payload idx n) ≡ n
unfolding chunks_from
length-chunks_from size payload idx zero = refl
length-chunks_from size payload idx (suc n) = ap suc (length-chunks_from size payload (idx + 1) n)

-- The indices of a schedule are those of the chunks, in any order and with repetitions.
abbrev pub Below : ℕ → List ℕ → Type 0
Below n [] = Unit {0}
Below n (i ∷ order) = (i < n) × Below n order

unfoldable pub listed : ℕ → List ℕ → Bool
listed i [] = false
listed i (j ∷ order) = nat_eq j i || listed i order

pub record IsSchedule (n : ℕ) (order : List ℕ) : Type 0 where
  pub below : Below n order
  pub covers : (i : ℕ) → i < n → listed i order ≡ true

writes-Carries :
    (size : ℕ) (payload : Bytes) (order : List ℕ)
    → Below (chunk_count (length payload) size) order
    → Carries (chunks_of size payload) (writes size payload order)
unfolding chunks_of
writes-Carries size payload [] h = tt
writes-Carries size payload (i ∷ order) h = (
  get_elem?-chunks_from size payload 0 (chunk_count (length payload) size) i h.0
      ∙ ap (λ t. some (chunk_at size payload t)) (omega arith),
  writes-Carries size payload order h.1,
)

occurs-writes :
    (size : ℕ) (payload : Bytes) (i : ℕ) (order : List ℕ)
    → occurs i (writes size payload order) ≡ listed i order
unfolding occurs listed
occurs-writes size payload i [] = refl
occurs-writes size payload i (j ∷ order) = ground (arith, occurs-writes size payload i order)

join-writes :
    (size : ℕ) (payload : Bytes) (order : List ℕ)
    → 0 < size
    → IsSchedule (chunk_count (length payload) size) order
    → join (write_all [] (writes size payload order)) ≡ some payload
join-writes size payload order h sch =
    join-write_all (chunks_of size payload) (writes size payload order)
      (writes-Carries size payload order sch.below)
      (λ i lt. occurs-writes size payload i order ∙ sch.covers i (rw (← count) lt))
    ∙ ap some (chunks_of_lem size payload h).0
  where
    count : length (chunks_of size payload) ≡ chunk_count (length payload) size
    count =
        unfold chunks_of in length-chunks_from size payload 0 (chunk_count (length payload) size)

module _ (unpack : Bytes → Unpacked) (default_context : Fields) where
  -- The package reads as a message of the given type.
  pub record Reads (payload : Bytes) (ctx : Context) : Type 0 where
    pub first : Fields
    pub rest : Bytes
    pub main : Fields
    pub kind : String
    pub segment : unpack_main unpack default_context payload ≡ ok (first, rest)
    pub merged :
        merge_extra unpack default_context (with_ctx default_context (with_trusted ctx first)) rest
        ≡ ok main
    pub typed : Tree.get main "type" ≡ some (text kind)

  -- The message was fired once, the entry is gone, and the other entries are unchanged.
  pub record Delivered (key kind : String) (main : Fields) (s s' : Receiver) : Type 0 where
    pub fired : s'.fired ≡ s.fired ++ (kind, main) ∷ []
    pub gone : Dict.get (or_empty s'.cache) key ≡ none
    pub others :
        (j : String)
        → (key == j) ≡ false
        → Dict.get (or_empty s'.cache) j ≡ Dict.get (or_empty s.cache) j

  process_message-Delivered :
      (key : String) (heartbeat : Bool) (ctx : Context) (payload : Bytes) (d : Chunks)
      (s t : Receiver)
      → Holds heartbeat key d s t
      → join d ≡ some payload
      → (m : Reads payload ctx)
      → (u : Receiver) × (process_message unpack default_context key heartbeat (some ctx) t
          ≡ (ok tt, u))
        × Delivered key m.kind m.main s u
  unfolding process_message fire
  process_message-Delivered key heartbeat ctx payload d s t h joins m =
      let (t1, is, touched) = touch_session-Touched heartbeat key t h.can in
      (
        record t1 {
          fired = t1.fired ++ (m.kind, m.main) ∷ [];
          cache = some (Dict.del h.cached key);
        },
        ground
            (arith, is, touched.cache, h.is_cached, h.entry, joins, m.segment, m.merged, m.typed),
        record {
          fired = ground (arith, touched.fired, h.fired);
          gone = simp dict_laws (ground (arith, eq_refl key));
          others = λ j n. simp dict_laws (ground (arith, n, h.others j n));
        },
      )

  -- A package that is sent in chunks, with a context, to a receiver of API version 3 or later, under an id that the
  -- cache does not hold, with a chunk size above zero and a session that can be touched where
  -- heartbeats are sent: whatever the order of arrival of the chunks, and though some may arrive
  -- more than once, the send succeeds, the message that the whole package reads as is fired once,
  -- the entry is gone afterwards, and no other entry of the cache changes.
  pub send_chunks-Delivered :
      (api size : ℕ) (payload : Bytes) (key : String) (heartbeat : Bool) (order : List ℕ)
      (ctx : Context) (s : Receiver)
      → 3 ≤ api
      → 0 < size
      → IsSchedule (chunk_count (length payload) size) order
      → CanTouch heartbeat key s
      → Dict.get (or_empty s.cache) key ≡ none
      → (m : Reads payload ctx)
      → (s' : Receiver) × (send_chunks unpack default_context api size payload key heartbeat order
            (some ctx)
            s
          ≡ (ok tt, s'))
        × Delivered key m.kind m.main s s'
  unfolding send_chunks
  send_chunks-Delivered api size payload key heartbeat order ctx s new pos sch can absent m =
      let (s1, made, h1) = create_message-Holds key heartbeat s can absent in
      let (s2, set, h2) = set_each-Holds key heartbeat (writes size payload order) [] s s1 h1 in
      let (s3, processed, done) =
        process_message-Delivered key heartbeat ctx payload
          (write_all [] (writes size payload order)) s s2 h2
          (join-writes size payload order pos sch) m in
      (s3, ground (arith, made, set, processed), done)
