-- ===== src/MessageCache/Delivery.antt =====
-- `RPC._send_chunks` (python/hypha_rpc/rpc.py), as the calls that it makes on the receiver's
-- message cache. The schedule is the order in which the concurrent `set` calls arrive.
pub mod Correct
use hypha_rpc.Prelude.{
  ℕ, zero, suc, ◌+◌, ◌≤◌, String, Bool, false, Option, List, [], ◌∷◌, leb, if◌then◌else◌, length,
}
use hypha_rpc.Session.Tree.{Fields}
use hypha_rpc.Session.State.{Result, ok, err}
use hypha_rpc.MessageCache.Chunk.{Bytes}
use hypha_rpc.MessageCache.Chunk.Slices.{chunk_count, chunk_at}
use hypha_rpc.MessageCache.{
  Receiver, M, ◌>>=◌, ◌>>◌, Unpacked, Context, create_message, append_message, set_message,
  remove_message, process_message,
}

-- The chunk of each index of the schedule.
abbrev pub writes : ℕ → Bytes → List ℕ → List (ℕ × Bytes)
writes size payload [] = []
writes size payload (i ∷ order) = (i, chunk_at size payload i) ∷ writes size payload order

-- message_cache.set(message_id, idx, chunk, bool(session_id)), one call after the other
unfoldable pub set_each : String → Bool → List (ℕ × Bytes) → M (Unit {0})
set_each message_id heartbeat [] s = (ok tt, s)
set_each message_id heartbeat ((i, c) ∷ ws) s =
    (do set_message message_id i c heartbeat; set_each message_id heartbeat ws) s

-- The sequential loop for old receivers, over the indices from `idx` on.
unfoldable pub append_each : String → Bool → ℕ → Bytes → ℕ → ℕ → M (Unit {0})
append_each message_id heartbeat size payload idx zero s = (ok tt, s)
append_each message_id heartbeat size payload idx (suc n) s =
    (do
      append_message message_id (chunk_at size payload idx) heartbeat
      append_each message_id heartbeat size payload (idx + 1) n)
      s

-- On an exception the entry is removed, and the exception raised again.
abbrev pub or_remove : String → Result (Unit {0}) → M (Unit {0})
or_remove message_id (ok u) s = (ok u, s)
or_remove message_id (err e) s = (err e, (remove_message message_id s).1)

abbrev pub guarded : String → M (Unit {0}) → M (Unit {0})
guarded message_id m s = or_remove message_id (m s).0 (m s).1

module _ (unpack : Bytes → Unpacked) (default_context : Fields) where
  -- `RPC._send_chunks`
  unfoldable pub send_chunks :
      ℕ → ℕ → Bytes → String → Bool → List ℕ → Option Context → M (Unit {0})
  send_chunks api_version size payload message_id heartbeat order context =
      if leb 3 api_version
      then (do
        create_message message_id heartbeat false
        guarded message_id (set_each message_id heartbeat (writes size payload order))
        process_message unpack default_context message_id heartbeat context)
      else (do
        create_message message_id heartbeat false
        append_each message_id heartbeat size payload 0 (chunk_count (length payload) size)
        process_message unpack default_context message_id heartbeat context)
