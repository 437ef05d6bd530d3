-- ===== src/Client/Lost.antt =====
-- A reconnection that ends for good (`reconnect_with_retry` of python/hypha_rpc/websocket_client.py)
-- and what class RPC does then (`on_connection_lost` of python/hypha_rpc/rpc.py).
use Prim.Native.String.{◌++◌ as concat}
use hypha_rpc.Prelude.{
  ℕ, ◌-◌, ◌≡◌, ◌∙◌, refl, ap, String, Bool, true, false, ◌&&◌, not, List, [], ◌∷◌, ◌++◌, ◌⊎◌, inl,
  inr, ltb, length, drop,
}
use hypha_rpc.Session.Tree.{get}
use hypha_rpc.Session.State.{Rpc}
use hypha_rpc.Session.WellFormed.{WellFormed}
use hypha_rpc.Session.Promise.Settled.{IsSettled, Rejects}
use hypha_rpc.Session.Sweep.{is_system, reject_pending_calls}
use hypha_rpc.Session.Sweep.Disconnect.{reject_pending_calls-rejects}
use hypha_rpc.WebSocket.{next_reconnect_retry}
use hypha_rpc.WebSocket.Reconnect.{
  Link, Attempt, connected, not_implemented, refused, failed, Meanwhile, cancelled, woke, Round,
  attempt_once, after_sleep, round, wait_for_flap, reconnect_with_retry, give_up, is_open,
  max_exponent,
}
use hypha_rpc.WebSocket.Reconnect.Rule.{
  OnAfter, OnAfter-if, OnAfter-then_after, OnAfter-finish, retry_loop-Stop, Stop-if,
}
use hypha_rpc.Client.Ended.{connection_lost, on_connection_lost}

-- The handler is called for each reason. A reconnection calls it last, so that it finds `_closed` as
-- the reconnection leaves it.
unfoldable pub tell : Bool → Bool → List String → Rpc → Rpc
unfolding on_connection_lost
tell enable_reconnect closed [] r = r
tell enable_reconnect closed (reason ∷ more) r =
    tell enable_reconnect closed more (on_connection_lost enable_reconnect closed reason r)

-- A reconnection, and the sessions of the client after it.
unfoldable pub reconnect : ℕ → Round → (ℕ → Round) → Link → Rpc → Link × Rpc
unfolding reconnect_with_retry tell
reconnect now first world l r =
    let l' = reconnect_with_retry now first world l in
    (l', tell true l'.is_closed (drop (length l.notices) l'.notices) r)

-- The sleep does not end with a connection that the application has closed.
abbrev pub NotClosed : Meanwhile → Type 0
NotClosed cancelled = Unit {0}
NotClosed (woke s c) = c ≡ false

module _ (told : List String) where
  -- Nobody was notified, and the connection is not closed; or the last notice came with the close.
  abbrev Ended : Link → Type 0
  Ended l =
      ((l.notices ≡ told) × (l.is_closed ≡ false))
      ⊎ ((l.is_closed ≡ true) × ((reason : String) × (l.notices ≡ told ++ reason ∷ [])))

  abbrev Going : Link → Type 0
  Going l = (l.notices ≡ told) × (l.is_closed ≡ false)

  told_with :
      (reason : String) (l : Link)
      → l.notices ≡ told
      → (s : String) × (l.notices ++ reason ∷ [] ≡ told ++ s ∷ [])
  told_with reason l n = (reason, ap (λ k. k ++ reason ∷ []) n)

  Ended-attempt_once : (a : Attempt) (l : Link) → Going l → OnAfter Ended Going (attempt_once a l)
  unfolding attempt_once
  Ended-attempt_once (connected s ok) l (n, c) =
      OnAfter-if Ended Going (is_open s && ok) _ _ (λ e. inl (n, refl)) (λ e. (n, refl))
  Ended-attempt_once not_implemented l h = inl h
  Ended-attempt_once (refused reason) l (n, c) =
      inr (refl, told_with (concat "Server refused reconnection: " reason) l n)
  Ended-attempt_once (failed s) l h = h

  Ended-after_sleep :
      (m : Meanwhile) (l : Link) → NotClosed m → Going l → OnAfter Ended Going (after_sleep m l)
  unfolding after_sleep
  Ended-after_sleep cancelled l o h = inl h
  Ended-after_sleep (woke s c) l o (n, _) =
      OnAfter-if Ended Going (is_open s) _ _ (λ e. inl (n, o))
        (λ _. OnAfter-if Ended Going c _ _ (λ e. inl (n, o)) (λ _. (n, o)))

  Ended-wait_for_flap :
      (m : Meanwhile) (l : Link) → NotClosed m → Going l → OnAfter Ended Going (wait_for_flap m l)
  unfolding wait_for_flap
  Ended-wait_for_flap cancelled l o h = inl h
  Ended-wait_for_flap (woke s c) l o (n, _) =
      OnAfter-if Ended Going c _ _ (λ e. inl (n, o))
        (λ _. OnAfter-if Ended Going (is_open s) _ _ (λ e. inl (n, o)) (λ _. (n, o)))

  Ended-round :
      (r : Round) (retry : ℕ) (l : Link)
      → NotClosed r.meanwhile
      → Going l
      → OnAfter Ended Going (round r retry l)
  unfolding round
  Ended-round r retry l o h =
      OnAfter-then_after Ended Going Going (attempt_once r.attempt l) _
        (Ended-attempt_once r.attempt l h)
        (λ l' g.
          OnAfter-if Ended Going (ltb retry max_exponent) _ _
            (λ _. Ended-after_sleep r.meanwhile _ o g) (λ _. inl g))

  Ended-give_up : (l : Link) → Going l → Ended (give_up l)
  Ended-give_up l (n, c) =
      Stop-if Ended Going l.is_closed _ _ (λ e. absurd (cc (e, c)))
        (λ e. inr (refl, told_with "Max reconnection attempts exceeded" l n))

  Ended-reconnect_with_retry :
      (now : ℕ) (first : Round) (world : ℕ → Round) (l : Link)
      → NotClosed first.meanwhile
      → ((n : ℕ) → NotClosed (world n).meanwhile)
      → Going l
      → Ended (reconnect_with_retry now first world l)
  unfolding reconnect_with_retry
  Ended-reconnect_with_retry now first world l o os h =
      let (retry, flaps) = next_reconnect_retry now l.flaps in
      OnAfter-finish Ended Going _ _
        (OnAfter-if Ended Going (ltb 0 retry && not l.is_closed) _ _
          (λ _.
            OnAfter-if Ended Going (ltb (retry - 1) max_exponent) _ _
              (λ _. Ended-wait_for_flap first.meanwhile _ o h) (λ _. inl h))
          (λ _. h))
        (λ l' g.
          retry_loop-Stop Ended Going world _ retry l' (λ n k i. Ended-round (world n) n k (os n) i)
            (λ k i e. inl i) (λ k i. Ended-give_up k i) g)

drop-append : (xs ys : List String) → drop (length xs) (xs ++ ys) ≡ ys
drop-append [] ys = refl
drop-append (x ∷ xs) ys = drop-append xs ys

told_last :
    (r : Rpc) (before after : List String) (reason : String)
    → after ≡ before ++ reason ∷ []
    → tell true true (drop (length before) after) r
      ≡ reject_pending_calls (connection_lost reason) r
unfolding tell on_connection_lost
told_last r before after reason e = rw e (rw (drop-append before (reason ∷ [])) refl)

-- A connection that is not closed at first and that the application does not close in the
-- meantime: if it is closed at the end of a reconnection, as it is when the server refused
-- it, the future of every call that waited in a well-formed store in a session
-- of its own is settled.
pub reconnect-rejects :
    (now : ℕ) (first : Round) (world : ℕ → Round) (l : Link) (r : Rpc) (j : String) (f : ℕ)
    → l.is_closed ≡ false
    → NotClosed first.meanwhile
    → ((n : ℕ) → NotClosed (world n).meanwhile)
    → WellFormed r
    → is_system j ≡ false
    → Rejects f (get r.object_store j)
    → (reconnect now first world l r).0.is_closed ≡ true
    → IsSettled f (reconnect now first world l r).1
unfolding reconnect
reconnect-rejects now first world l r j f alive o os w system waits closed =
    let l' = reconnect_with_retry now first world l in
    elim (Ended-reconnect_with_retry l.notices now first world l o os (refl, alive)) [
      | inl (n, c) ↦ absurd (cc (c, closed))
      | inr (c, (reason, told)) ↦
          rw
            (ap (λ b. tell true b (drop (length l.notices) l'.notices) r) c
              ∙ told_last r l.notices l'.notices reason told)
            (reject_pending_calls-rejects (connection_lost reason) j f r w system waits)
    ]
