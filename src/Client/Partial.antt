-- ===== src/Client/Partial.antt =====
-- A reconnection whose connection is there, but whose services are not all registered: `on_connected`
-- of python/hypha_rpc/rpc.py and `reconnect_with_retry` of python/hypha_rpc/websocket_client.py.
use hypha_rpc.Prelude.{
  ℕ, suc, ◌<◌, ◌≡◌, ◌∙◌, refl, ap, String, Bool, true, false, none, some, [], ◌∷◌, ◌++◌, arith,
  ◌==◌, ◌&&◌, not, if◌then◌else◌, length, ltb, ◌⊎◌, inl, inr, Bool-cases, Option-cases,
}
use hypha_rpc.Session.Tree.{Value}
use hypha_rpc.Session.State.{Error}
use hypha_rpc.Client.{
  Client, Server, get_manager_service, register_services, services_of, emit, manager_refreshed,
}
use hypha_rpc.Client.Connected.{
  ConnectionInfo, on_connected, drop_stale_calls, report, subscribe, welcome, begin_subscription,
  finish_subscription, with_manager,
}
use hypha_rpc.Client.Reported.{register_services_lem}
use hypha_rpc.Client.Reported.Requests.{remote, infos}
use hypha_rpc.WebSocket.Reconnect.{
  Link, opened, connected, woke, Round, round, retry_loop, attempt_once, after_sleep, backoff,
  max_exponent,
}

-- What the server is asked to register.
abbrev pub asked : (Value → String) → Server → Client → ℕ
asked show s c =
    length (infos show c.identity (remote (services_of (drop_stale_calls s.manager_id c).rpc)))

-- The manager was not found, or a request to register was not accepted.
abbrev pub Incomplete : (Value → String) → Server → Client → Type 0
Incomplete show s c =
    ((e : Error) × ((get_manager_service s).0 ≡ some e))
    ⊎ ((i : ℕ) × ((e : Error) × (s.registers i ≡ some e) × (i < asked show s c)))

flag-subscribe :
    (s : Server) (c : Client) → (subscribe s c).services_registered_ok ≡ c.services_registered_ok
unfolding subscribe begin_subscription finish_subscription
flag-subscribe s c = ground arith

flag-welcome :
    (info : ConnectionInfo) (c : Client)
    → (welcome info c).services_registered_ok ≡ c.services_registered_ok
unfolding welcome
flag-welcome none c = refl
flag-welcome (some none) c = refl
flag-welcome (some (some url)) c = ground arith

identity-drop_stale_calls :
    (id : String) (c : Client) → (drop_stale_calls id c).identity ≡ c.identity
unfolding drop_stale_calls
identity-drop_stale_calls id c = ground arith

-- The client when the services are to be reported.
abbrev ready : Server → Client → Client
ready s c =
    let c' = drop_stale_calls s.manager_id c in
    record c' { sleeps = c'.sleeps ++ (get_manager_service s).1 }

flag-register_services :
    (show : Value → String) (s : Server) (c : Client) (i : ℕ) (e : Error)
    → s.registers i ≡ some e
    → i < length (infos show c.identity (remote (services_of c.rpc)))
    → (register_services show s c).services_registered_ok ≡ false
flag-register_services show s c i e refused within =
    elim (Bool-cases (register_services show s c).services_registered_ok) [
      | inl all ↦
          let (asked_for, told, clean) = register_services_lem show s c in
          absurd (cc ((clean.0 all).1 i (omega arith) within, refused))
      | inr some_failed ↦ some_failed
    ]

flag-report :
    (show : Value → String) (s : Server) (c : Client)
    → Incomplete show s c
    → (report show s (get_manager_service s).0 (ready s c)).services_registered_ok ≡ false
unfolding report
flag-report show s c (inl (e, q)) = rw q refl
flag-report show s c (inr (i, (e, refused, within))) =
    elim (Option-cases (get_manager_service s).0) [
      | inr (f, q) ↦ rw q refl
      | inl q ↦
          let reported = emit manager_refreshed (ready s c) in
          rw q (
            flag-subscribe s (register_services show s reported)
            ∙ flag-register_services show s reported i e refused
                (rw (identity-drop_stale_calls s.manager_id c) within))
    ]

-- A client that is not silent reports to a server with a manager id.
flag-on_connected :
    (show : Value → String) (s : Server) (info : ConnectionInfo) (c : Client)
    → c.silent ≡ false
    → (s.manager_id == "") ≡ false
    → Incomplete show s c
    → (on_connected show s info c).services_registered_ok ≡ false
unfolding on_connected
flag-on_connected show s info c loud named incomplete =
    let test : not c.silent && not (s.manager_id == "") ≡ true = ground (arith, loud, named) in
    (ap
        (λ (b : Bool).
          (welcome info (if b then with_manager show s c else c)).services_registered_ok)
        test
      ∙ flag-welcome info (report show s (get_manager_service s).0 (ready s c))
      ∙ flag-report show s c incomplete)

-- For a client that is not silent, a server with a manager id and a connection that is not
-- closed: if the manager is not found or a request to register a service is not accepted, and the
-- socket is still open after the attempt and after the sleep, the reconnection ends there,
-- after the sleep or, from the 1024th retry on, with the OverflowError of its delay, whatever rounds
-- would follow: no further attempt is made, and the senders that wait for the reconnection are not
-- released.
pub retry_loop-abandons :
    (show : Value → String) (s : Server) (info : ConnectionInfo) (c : Client) (world : ℕ → Round)
    (left retry : ℕ) (l : Link)
    → c.silent ≡ false
    → (s.manager_id == "") ≡ false
    → Incomplete show s c
    → l.is_closed ≡ false
    → (world retry).attempt ≡ connected opened (on_connected show s info c).services_registered_ok
    → (world retry).meanwhile ≡ woke opened false
    → retry_loop world (suc left) retry l ≡ (
        if ltb retry max_exponent
        then record l {
          socket = opened;
          is_closed = false;
          sleeps = l.sleeps ++ backoff retry (world retry).jitter ∷ [];
        }
        else record l { socket = opened; overflowed = true })
unfolding retry_loop round attempt_once after_sleep
retry_loop-abandons show s info c world left retry l loud named incomplete alive attempt wakes =
    ground (arith, alive, attempt, wakes, flag-on_connected show s info c loud named incomplete)
