-- ===== src/MessageCache/Steps.antt =====
-- Each operation of the cache on its good path: it returns, and changes the entry of its key only.
use hypha_rpc.Prelude.{
  ℕ, String, ◌≡◌, refl, Bool, true, false, Option, none, some, [], arith, ◌==◌, eq_refl,
}
use hypha_rpc.Prelude.Dict
use hypha_rpc.Prelude.Dict.{Dict, dict_laws}
use hypha_rpc.Session.Tree
use hypha_rpc.Session.Tree.{Value, Fields, dict, timer}
use hypha_rpc.Session.Timer.Validity.{IsValid, reset_restarts}
use hypha_rpc.Session.State.{ok}
use hypha_rpc.MessageCache.Chunk.{Bytes, Chunks, put}
use hypha_rpc.MessageCache.{Receiver, touch_session, create_message, set_message, or_empty}

-- A call with `heartbeat` finds its session, whose timer can be reset.
pub data CanTouch (heartbeat : Bool) (key : String) (s : Receiver) : Type 0 where
  quiet : heartbeat ≡ false → CanTouch heartbeat key s
  beats :
      (session : Fields)
      → Tree.get s.rpc.object_store key ≡ some (dict session)
      → IsValid s.rpc.heap
      → CanTouch heartbeat key s

-- What a touch leaves as it was.
pub record Touched (heartbeat : Bool) (key : String) (s s' : Receiver) : Type 0 where
  pub again : CanTouch heartbeat key s'
  pub cache : s'.cache ≡ s.cache
  pub fired : s'.fired ≡ s.fired
  pub store : s'.rpc.object_store ≡ s.rpc.object_store

touch_with_session :
    (key : String) (s : Receiver) (session : Fields)
    → Tree.get s.rpc.object_store key ≡ some (dict session)
    → IsValid s.rpc.heap
    → (s' : Receiver) × (touch_session true key s ≡ (ok tt, s')) × Touched true key s s'
unfolding touch_session
touch_with_session key s session e v = go (Tree.get session "timer") refl
  where
    go :
        (t : Option Value)
        → Tree.get session "timer" ≡ t
        → (s' : Receiver) × (touch_session true key s ≡ (ok tt, s')) × Touched true key s s'
    go (some (timer i)) q =
        let (h, is, re) = reset_restarts i s.rpc.heap v in
        (
          record s { rpc = record s.rpc { heap = h } },
          ground (arith, e, q, is),
          record { again = beats session e re.valid; cache = refl; fired = refl; store = refl },
        )
    go none q = (
      s,
      ground (arith, e, q),
      record { again = beats session e v; cache = refl; fired = refl; store = refl },
    )
    go (some _) q = (
      s,
      ground (arith, e, q),
      record { again = beats session e v; cache = refl; fired = refl; store = refl },
    )

pub touch_session-Touched :
    (heartbeat : Bool) (key : String) (s : Receiver)
    → CanTouch heartbeat key s
    → (s' : Receiver) × (touch_session heartbeat key s ≡ (ok tt, s')) × Touched heartbeat key s s'
touch_session-Touched false key s can = (
  s,
  unfold touch_session in refl,
  record { again = can; cache = refl; fired = refl; store = refl },
)
touch_session-Touched true key s (quiet h) = cc
touch_session-Touched true key s (beats session e v) = touch_with_session key s session e v

-- The state after a good operation on a key: the entry is the given one, the others are unchanged.
pub record Holds (heartbeat : Bool) (key : String) (d : Chunks) (s s' : Receiver) : Type 0 where
  pub can : CanTouch heartbeat key s'
  pub cached : Dict Chunks
  pub is_cached : s'.cache ≡ some cached
  pub entry : Dict.get cached key ≡ some d
  pub others : (j : String) → (key == j) ≡ false → Dict.get cached j ≡ Dict.get (or_empty s.cache) j
  pub fired : s'.fired ≡ s.fired

CanTouch-cache :
    {heartbeat : Bool} {key : String} {s : Receiver} (c : Option (Dict Chunks))
    → CanTouch heartbeat key s
    → CanTouch heartbeat key (record s { cache = c })
CanTouch-cache c (quiet h) = quiet h
CanTouch-cache c (beats session e v) = beats session e v

pub create_message-Holds :
    (key : String) (heartbeat : Bool) (s : Receiver)
    → CanTouch heartbeat key s
    → Dict.get (or_empty s.cache) key ≡ none
    → (s' : Receiver) × (create_message key heartbeat false s ≡ (ok tt, s'))
      × Holds heartbeat key [] s s'
unfolding create_message
create_message-Holds key heartbeat s can absent =
    let (s1, is, t) = touch_session-Touched heartbeat key s can in
    let c : Dict Chunks = Dict.put (or_empty s.cache) key [] in
    (
      record s1 { cache = some c },
      ground (arith, is, t.cache, absent),
      record {
        can = CanTouch-cache (some c) t.again;
        cached = c;
        is_cached = refl;
        entry = simp dict_laws (ground (arith, eq_refl key));
        others = λ j h. simp dict_laws (ground (arith, h));
        fired = t.fired;
      },
    )

pub set_message-Holds :
    (key : String) (i : ℕ) (bytes : Bytes) (heartbeat : Bool) (c : Dict Chunks) (d : Chunks)
    (s : Receiver)
    → CanTouch heartbeat key s
    → s.cache ≡ some c
    → Dict.get c key ≡ some d
    → (s' : Receiver) × (set_message key i bytes heartbeat s ≡ (ok tt, s'))
      × Holds heartbeat key (put d i bytes) s s'
unfolding set_message
set_message-Holds key i bytes heartbeat c d s can cached entry =
    let (s1, is, t) = touch_session-Touched heartbeat key s can in
    let c' : Dict Chunks = Dict.put c key (put d i bytes) in
    (
      record s1 { cache = some c' },
      ground (arith, is, t.cache, cached, entry),
      record {
        can = CanTouch-cache (some c') t.again;
        cached = c';
        is_cached = refl;
        entry = simp dict_laws (ground (arith, eq_refl key));
        others = λ j h. rw cached (simp dict_laws (ground (arith, h)));
        fired = t.fired;
      },
    )
