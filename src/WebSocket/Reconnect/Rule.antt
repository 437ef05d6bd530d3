-- ===== src/WebSocket/Reconnect/Rule.antt =====
-- How to prove what holds of a connection when `reconnect_with_retry`
-- (python/hypha_rpc/websocket_client.py) ends: `Stop` where the loop is left, `Go` where it goes on.
use hypha_rpc.Prelude.{ℕ, zero, suc, ◌+◌, ◌≡◌, Bool, true, false, if◌then◌else◌, refl}
use hypha_rpc.WebSocket.Reconnect.{
  Link, Round, After, leave, again, round, retry_loop, give_up, then_after,
}

module _ (Stop Go : Link → Type 0) where
  abbrev pub OnAfter : After → Type 0
  OnAfter (leave l) = Stop l
  OnAfter (again l) = Go l

  pub OnAfter-if :
      (b : Bool) (x y : After)
      → (b ≡ true → OnAfter x)
      → (b ≡ false → OnAfter y)
      → OnAfter (if b then x else y)
  OnAfter-if true x y h k = h refl
  OnAfter-if false x y h k = k refl

  pub Stop-if :
      (b : Bool) (x y : Link)
      → (b ≡ true → Stop x)
      → (b ≡ false → Stop y)
      → Stop (if b then x else y)
  Stop-if true x y h k = h refl
  Stop-if false x y h k = k refl

  pub OnAfter-finish :
      (a : After) (f : Link → Link)
      → OnAfter a
      → ((l : Link) → Go l → Stop (f l))
      → Stop (elim a as (λ _. Link) [ leave l ↦ l | again l ↦ f l ])
  OnAfter-finish (leave l) f h k = h
  OnAfter-finish (again l) f h k = k l h

  -- The loop: a round that starts from `Go` ends well, and so do a closed connection and the end of
  -- the retries.
  pub retry_loop-Stop :
      (world : ℕ → Round) (left retry : ℕ) (l : Link)
      → ((n : ℕ) (k : Link) → Go k → OnAfter (round (world n) n k))
      → ((k : Link) → Go k → k.is_closed ≡ true → Stop k)
      → ((k : Link) → Go k → Stop (give_up k))
      → Go l
      → Stop (retry_loop world left retry l)
  unfolding retry_loop
  retry_loop-Stop world zero retry l step closed gives h = gives l h
  retry_loop-Stop world (suc left) retry l step closed gives h =
      Stop-if l.is_closed _ _ (closed l h) (λ e.
        OnAfter-finish (round (world retry) retry l) _ (step retry l h)
          (λ l' h'. retry_loop-Stop world left (retry + 1) l' step closed gives h'))

-- One part after the other.
pub OnAfter-then_after :
    (Stop Mid Go : Link → Type 0) (a : After) (f : Link → After)
    → OnAfter Stop Mid a
    → ((l : Link) → Mid l → OnAfter Stop Go (f l))
    → OnAfter Stop Go (then_after a f)
OnAfter-then_after Stop Mid Go (leave l) f h k = h
OnAfter-then_after Stop Mid Go (again l) f h k = k l h
