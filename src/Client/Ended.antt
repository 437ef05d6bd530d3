-- ===== src/Client/Ended.antt =====
-- How class RPC ends (python/hypha_rpc/rpc.py): `on_connection_lost` of `__init__`, and `close`.
use Prim.Native.String.{◌++◌ as concat}
use hypha_rpc.Prelude.{String, Bool, false, ◌&&◌, not, none, [], ◌++◌, ◌==◌, if◌then◌else◌}
use hypha_rpc.Session.Tree.{end}
use hypha_rpc.Session.State.{Rpc, Error, connection_error}
use hypha_rpc.Session.Sweep.{reject_pending_calls, cleanup_on_disconnect}
use hypha_rpc.Session.Close.{close_sessions}
use hypha_rpc.Emitter.{off, fire}
use hypha_rpc.Client.{Client, disconnected, emit}
use hypha_rpc.Client.Connected.{unsubscribe, unbind}

-- `reason or 'unknown reason'`
abbrev pub or_unknown : String → String
or_unknown reason = if reason == "" then "unknown reason" else reason

abbrev pub connection_lost : String → Error
connection_lost reason = connection_error (concat "Connection lost: " (or_unknown reason))

-- `on_connection_lost`, with `_enable_reconnect` and `_closed` of the connection.
unfoldable pub on_connection_lost : Bool → Bool → String → Rpc → Rpc
unfolding reject_pending_calls
on_connection_lost enable_reconnect closed reason r =
    if enable_reconnect && not closed then r else reject_pending_calls (connection_lost reason) r

-- The background tasks and the collector, at the head of `close`.
abbrev pub cancel_tasks : Client → Client
cancel_tasks c = record c {
  collects = false;
  cancelled = c.cancelled ++ c.background_tasks;
  background_tasks = [];
}

-- The sessions: `_cleanup_on_disconnect`, then `_close_sessions`.
abbrev pub end_sessions : Rpc → Rpc
end_sessions r =
    let r' = cleanup_on_disconnect r in record r' { heap = close_sessions r'.object_store r'.heap }

-- The end of `close`: the stores are cleared.
abbrev pub clear_stores : Client → Client
clear_stores c = record c {
  emitter = record c.emitter { event_handlers = [] };
  rpc = record c.rpc { object_store = end; target_id_index = []; rintf_caller_index = [] };
}

-- `RPC.close`
unfoldable pub close : Client → Client
unfolding cleanup_on_disconnect close_sessions off fire
close c =
    let c1 = cancel_tasks c in
    let c2 = unbind (unsubscribe (record c1 { rpc = end_sessions c1.rpc })) in
    clear_stores (emit disconnected (record c2 { has_connection = false }))

-- `RPC.disconnect` up to the end of the connection itself.
unfoldable pub disconnect : Client → Client
unfolding close
disconnect c = close (record c { subscription = none })
