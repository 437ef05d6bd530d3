-- ===== src/WebSocket/Listen/Frames.antt =====
-- Which frames `_listen` (python/hypha_rpc/websocket_client.py) handles.
use hypha_rpc.Prelude.{
  ℕ, String, ◌≡◌, refl, true, false, ◌&&◌, not, Option, none, some, List, [], ◌∷◌, ◌++◌,
  append_assoc, append_nil, sym, inl, inr, ◌∙◌, arith, Bool-cases, if◌then◌else◌,
}
use hypha_rpc.WebSocket.Open.{Connection}
use hypha_rpc.WebSocket.Listen.{
  Notice, new_token, pong, unknown, take_notice, Frame, text, binary, Received, Ending, Listener,
  is_down, goes_on, listen_loop, listen, readable, receive, end_loop, with_state,
}

abbrev payload : Frame → List (List ℕ)
payload (text t) = []
payload (binary b) = b ∷ []

-- The payloads of the binary frames.
unfoldable pub binaries : List Received → List (List ℕ)
binaries [] = []
binaries (r ∷ rs) = payload r.frame ++ binaries rs

module _ (loads : String → Option Notice) where
  -- The frames up to the first one that cannot be read or after which the connection is closed.
  unfoldable pub heard : List Received → List Received
  heard [] = []
  heard (r ∷ rs) =
      let rest = heard rs in
      if readable loads r.frame && (not r.closed_then && not (is_down r.socket_then))
      then r ∷ rest
      else r ∷ []

  -- The token of a notice that has one.
  abbrev token_in : Option Notice → Option String → Option String
  token_in (some (new_token k)) old = k
  token_in _ old = old

  abbrev token_of : Frame → Option String → Option String
  token_of (text t) old = token_in (loads t) old
  token_of (binary b) old = old

  unfoldable pub last_token : List Received → Option String → Option String
  last_token [] old = old
  last_token (r ∷ rs) old = last_token rs (token_of r.frame old)

  -- What listening to frames comes to.
  abbrev Hears : Listener → List Received → Listener → Type 0
  Hears l rs l' =
      (l'.handled ≡ l.handled ++ binaries rs)
      × (l'.connection.reconnection_token ≡ last_token rs l.connection.reconnection_token)

  take_notice-token :
      (o : Option Notice) (c : Connection)
      → (take_notice o c).reconnection_token ≡ token_in o c.reconnection_token
  take_notice-token none c = refl
  take_notice-token (some (new_token k)) c = refl
  take_notice-token (some pong) c = refl
  take_notice-token (some unknown) c = refl

  Hears-frame :
      (f : Frame) (r : Received) (l : Listener) → r.frame ≡ f → Hears l (r ∷ []) (receive loads r l)
  unfolding binaries last_token
  Hears-frame (text t) r l e =
      rw e (sym (append_nil l.handled), take_notice-token (loads t) l.connection)
  Hears-frame (binary b) r l e = rw e (refl, refl)

  Hears-then :
      (r : Received) (rs : List Received) (l k m : Listener)
      → Hears l (r ∷ []) k
      → Hears k rs m
      → Hears l (r ∷ rs) m
  unfolding binaries last_token
  Hears-then r rs l k m (h, t) (h', t') = (
    cc (
      h,
      h',
      append_nil (payload r.frame),
      append_assoc l.handled (payload r.frame) (binaries rs),
    ),
    cc (t, t'),
  )

  listen_loop-stopped :
      (rs : List Received) (l : Listener)
      → goes_on l.connection.link ≡ false
      → listen_loop loads rs l ≡ l
  unfolding listen_loop
  listen_loop-stopped [] l h = refl
  listen_loop-stopped (r ∷ rs) l h = rw h refl

  -- A loop that goes on handles the frames up to the first one that it cannot read or after which
  -- the connection is closed, in order.
  pub listen_loop-Hears :
      (rs : List Received) (l : Listener)
      → goes_on l.connection.link ≡ true
      → Hears l (heard rs) (listen_loop loads rs l)
  unfolding listen_loop heard binaries last_token
  listen_loop-Hears [] l h = (sym (append_nil l.handled), refl)
  listen_loop-Hears (r ∷ rs) l h =
      let k = receive loads r l in
      let one = Hears-frame r.frame r l refl in
      rw h (elim (Bool-cases (readable loads r.frame)) [
        | inr e ↦ rw e one
        | inl e ↦ rw e (elim (Bool-cases (goes_on k.connection.link)) [
          | inl g ↦
              rw g (
                Hears-then r (heard rs) l k (listen_loop loads rs k) one (listen_loop-Hears rs k g))
          | inr g ↦ rw (g, listen_loop-stopped rs k g) one
        ])
      ])

  finish-token :
      (e : Ending) (c : Connection) → (end_loop e c).reconnection_token ≡ c.reconnection_token
  finish-token e c = ground arith

  -- Listening to an open connection handles the payloads of the binary frames, in the order in which
  -- they arrive, up to the first frame that cannot be read or after which the connection is closed,
  -- and leaves the token of the last notice among these frames that has one.
  pub listen_lem :
      (rs : List Received) (e : Ending) (l : Listener)
      → is_down l.connection.link.socket ≡ false
      → Hears l (heard rs) (listen loads rs e l)
  unfolding listen
  listen_lem rs e l h =
      let start = record l {
        connection = with_state l.connection.link.socket false l.connection;
      } in
      let (handled, token) = listen_loop-Hears rs start (rw h refl) in
      (handled, finish-token e (listen_loop loads rs start).connection ∙ token)
