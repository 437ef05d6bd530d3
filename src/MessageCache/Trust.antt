-- ===== src/MessageCache/Trust.antt =====
-- Which fields of a reassembled message come from the transport, and which from the sender.
use hypha_rpc.Prelude.{
  String, ◌≡◌, refl, Option, none, some, arith, ◌==◌, if◌then◌else◌, eq_iff, false, Option-cases,
  inl, inr,
}
use hypha_rpc.Session.Tree.{Value, Fields, field, end, get, put, get-put, tree_laws}
use hypha_rpc.Session.State.{Result, ok}
use hypha_rpc.MessageCache.Chunk.{Bytes}
use hypha_rpc.MessageCache.{
  Unpacked, object, out_of_data, malformed, Context, update, with_trusted, with_ctx, merge_extra,
  entries_of,
}

-- The value that a dictionary's items leave under a key; the last of them counts.
unfoldable pub get_last : Fields → String → Option Value
get_last end k = none
get_last (field j v d) k = elim (get_last d k) [
  | some w ↦ some w
  | none ↦ if j == k then some v else none
]

abbrev pub or_else : Option Value → Option Value → Option Value
or_else none v = v
or_else (some w) v = some w

pub get-update : (d e : Fields) (k : String) → get (update d e) k ≡ or_else (get_last e k) (get d k)
unfolding update get_last
get-update d end k = refl
get-update d (field j v e) k = ground (arith, get-update (put d j v) e k, get-put d j k v)

abbrev pub trusted : Context → String → Option Value → Option Value
trusted ctx k v =
    if k == "user"
    then some ctx.user
    else if k == "ws"
    then some ctx.ws
    else if k == "to"
    then some ctx.recipient
    else if k == "from"
    then some ctx.sender
    else v

get-with_trusted :
    (ctx : Context) (main : Fields) (k : String)
    → get (with_trusted ctx main) k ≡ trusted ctx k (get main k)
unfolding with_trusted
get-with_trusted ctx main k = simp tree_laws (
    ground (
      arith,
      eq_iff "user" k,
      eq_iff "ws" k,
      eq_iff "to" k,
      eq_iff "from" k,
      eq_iff k "user",
      eq_iff k "ws",
      eq_iff k "to",
      eq_iff k "from",
    ))

-- The entries of the second segment, none if there is no such segment.
abbrev pub extra_of : Unpacked → Fields
extra_of (object extra after) = elim (entries_of extra) [ none ↦ end | some entries ↦ entries ]
extra_of _ = end

get-with_ctx :
    (default_context main : Fields) (k : String)
    → ("ctx" == k) ≡ false
    → get (with_ctx default_context main) k ≡ get main k
unfolding with_ctx
get-with_ctx default_context main k other = rw get-put (ground (arith, other))

module _ (unpack : Bytes → Unpacked) (default_context : Fields) where
  -- The fields of the second segment are written over the others.
  pub merged :
      (d main : Fields) (rest : Bytes) (u : Unpacked)
      → unpack rest ≡ u
      → merge_extra unpack default_context d rest ≡ ok main
      → main ≡ update d (extra_of u)
  unfolding merge_extra
  merged d main rest out_of_data e is = unfold update in ground (arith, e, is)
  merged d main rest malformed e is = ground (arith, e, is)
  merged d main rest (object v after) e is = elim (Option-cases (entries_of v)) [
    | inl none_there ↦ absurd (ground (arith, e, is, none_there))
    | inr (entries, there) ↦ ground (arith, e, is, there)
  ]

module _ (unpack : Bytes → Unpacked) (default_context : Fields) (ctx : Context) where
  -- What `_process_message` dispatches for a first segment and the bytes behind it.
  abbrev pub assembled : Fields → Bytes → Result Fields
  assembled first rest =
      merge_extra unpack default_context (with_ctx default_context (with_trusted ctx first)) rest

  -- Of a reassembled message, the fields "from", "to", "ws" and "user" are the transport's only
  -- where the second segment, which the sender writes, does not name them; where it does, its value
  -- stands. Every other field but "ctx" is the second segment's, or else the first segment's.
  pub get-assembled :
      (first main : Fields) (rest : Bytes) (k : String)
      → assembled first rest ≡ ok main
      → ("ctx" == k) ≡ false
      → get main k ≡ or_else (get_last (extra_of (unpack rest)) k) (trusted ctx k (get first k))
  get-assembled first main rest k is other = rw (
    merged unpack default_context _ main rest (unpack rest) refl is,
    get-update,
    get-with_ctx default_context _ k other,
    get-with_trusted,
  )
