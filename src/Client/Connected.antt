-- ===== src/Client/Connected.antt =====
-- `on_connected` of `RPC.__init__` (python/hypha_rpc/rpc.py).
use Prim.Native.String.{◌++◌ as concat}
use hypha_rpc.Prelude.{
  ◌+◌, String, true, false, ◌&&◌, ◌||◌, not, Option, none, some, [], ◌∷◌, ◌++◌, ◌==◌, if◌then◌else◌,
  length,
}
use hypha_rpc.Session.Tree.{Value}
use hypha_rpc.Session.State.{Error, Result, ok, err}
use hypha_rpc.Session.Sweep.{cleanup_sessions_for_client}
use hypha_rpc.Emitter.{Handler, Emitter, on, off, fire, Removal, removed, value_error}
use hypha_rpc.Client.{
  Subscription, manager_refreshed, connected, services_registration_failed, Client, Server, emit,
  get_manager_service, services_of, register_services,
}

-- The calls to the manager before a restart of the server are rejected.
unfoldable pub drop_stale_calls : String → Client → Client
unfolding cleanup_sessions_for_client
drop_stale_calls manager_id c =
    let c' = record c { last_manager_id = some manager_id } in
    elim c.last_manager_id [
      | none ↦ c'
      | some old ↦
          if old == "" || old == manager_id
          then c'
          else record c' { rpc = (cleanup_sessions_for_client (concat "*/" old) c.rpc).1 }
    ]

-- The old subscription is given back.
abbrev pub unsubscribe : Client → Client
unsubscribe c = elim c.subscription [
  | none ↦ c
  | some s ↦ record c {
    subscription = none;
    unsubscribed = if s.has_unsubscribe then c.unsubscribed ++ s.identity ∷ [] else c.unsubscribed;
  }
]

-- What is left of the emitter where a ValueError of `off` is caught.
abbrev pub unless_missing : Emitter → Removal → Emitter
unless_missing e (removed e') = e'
unless_missing e value_error = e

-- The old handler is taken out.
abbrev pub unbind : Client → Client
unbind c = elim c.bound [
  | none ↦ c
  | some h ↦ record c {
    bound = none;
    emitter =
        unless_missing c.emitter (off (some "client_disconnected") (some h.identity) c.emitter);
  }
]

abbrev pub new_handler : Emitter → Handler
new_handler e = record { identity = e.next_identity; wraps = none; attributes = [] }

abbrev pub bind : Client → Client
bind c = record c {
  bound = some (new_handler c.emitter);
  emitter = record c.emitter { next_identity = c.emitter.next_identity + 1 };
}

-- `on_connected` from the clean-up of the old subscription to the wait for the new one.
unfoldable pub begin_subscription : Client → Client
unfolding off
begin_subscription c = bind (unbind (unsubscribe c))

-- What `self.on` is given where the bound handler is None.
abbrev pub python_none : Handler
python_none = record { identity = 0; wraps = none; attributes = [] }

abbrev pub bound_or_none : Option Handler → Handler
bound_or_none none = python_none
bound_or_none (some h) = h

-- `on_connected` after the wait for the subscription.
unfoldable pub finish_subscription : Result (Option Subscription) → Client → Client
unfolding on
finish_subscription (err e) c = record c { subscription = none }
finish_subscription (ok s) c = record c {
  subscription = s;
  emitter = on "client_disconnected" (bound_or_none c.bound) c.emitter;
}

unfoldable pub subscribe : Server → Client → Client
unfolding begin_subscription finish_subscription
subscribe s c =
    if s.can_subscribe
    then finish_subscription s.subscribes (begin_subscription c)
    else record c { subscription = none }

-- The `try` of `on_connected`, after the manager service was asked for.
unfoldable pub report : (Value → String) → Server → Option Error → Client → Client
unfolding register_services subscribe fire
report show s none c = subscribe s (register_services show s (emit manager_refreshed c))
report show s (some e) c =
    record (emit (services_registration_failed e (length (services_of c.rpc))) c) {
      services_registered_ok = false;
    }

-- The connection info, with its `public_base_url`; no info or an empty one is false.
abbrev pub ConnectionInfo : Type 0
ConnectionInfo = Option (Option String)

unfoldable pub welcome : ConnectionInfo → Client → Client
unfolding fire
welcome none c = c
welcome (some none) c = emit connected c
welcome (some (some url)) c =
    emit connected (if url == "" then c else record c { server_base_url = some url })

abbrev pub start_collecting : Client → Client
start_collecting c = record c { collects = true }

abbrev pub with_manager : (Value → String) → Server → Client → Client
with_manager show s c =
    let (result, sleeps) = get_manager_service s in
    let c' = drop_stale_calls s.manager_id c in
    report show s result (record c' { sleeps = c'.sleeps ++ sleeps })

unfoldable pub on_connected : (Value → String) → Server → ConnectionInfo → Client → Client
unfolding drop_stale_calls get_manager_service report welcome
on_connected show s info c =
    start_collecting
      (welcome info (if not c.silent && not (s.manager_id == "") then with_manager show s c else c))
