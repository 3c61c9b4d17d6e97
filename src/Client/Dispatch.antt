-- ===== src/Client/Dispatch.antt =====
-- `handle_server_message` of crates/hirsel-client-core/src/transport.rs.
-- `uuid k` is the k-th identifier that `Uuid::new_v4` returns during the call.
mod Hello
mod Arms
use hirsel.Base.{
  ℕ, String, Bool, not, ◌&&◌, true, Option, List, [], ◌∷◌, ◌==◌, str_eq, if◌then◌else◌, retain,
}
use hirsel.Proto.{HostToClient, AgentActivityState}
use hirsel.Client.Entry.{ThreadStream}
use hirsel.Client.Store.{
  apply_message, remove_message, upsert_thread, upsert_turn, with_stream, apply_delta,
  upsert_process, apply_thread_grants, LocalStore,
}
use hirsel.Client.Inner.{Output, state_changed, ClientInner}
unfoldable pub use Hello.*
unfoldable pub use Arms.*

abbrev set_store : ClientInner → LocalStore → ClientInner × List Output
set_store c s = (record c { store = s }, state_changed ∷ [])

unfoldable pub set_activity : AgentActivityState → Option String → ThreadStream → ThreadStream
set_activity state text v = record v { activity = record { state = state; text = text } }

unfoldable pub remove_process : LocalStore → ℕ → String → LocalStore
remove_process s thread_id id = record s {
  processes = retain (λ p. not (p.thread_id == thread_id && str_eq p.id id)) s.processes;
}

-- What the frame does to the client, and what it tells the observer.
unfoldable pub handle_server_message :
    ClientInner → (ℕ → String) → HostToClient → ClientInner × List Output
unfolding set_activity remove_process
handle_server_message c uuid (HostToClient.hello_ok history threads processes version) =
    (on_hello_ok c uuid history threads processes version, state_changed ∷ [])
handle_server_message c uuid (HostToClient.msg m) = set_store c (apply_message c.store m)
handle_server_message c uuid (HostToClient.msg_removed id) = set_store c (remove_message c.store id)
handle_server_message c uuid (HostToClient.agent_activity thread_id turn_id state text) =
    set_store c (with_stream c.store thread_id turn_id (set_activity state text))
handle_server_message c uuid (HostToClient.turn_event thread_id turn_id seq event) =
    set_store c (apply_delta c.store thread_id turn_id seq event)
handle_server_message c uuid (HostToClient.thread_upsert t) = set_store c (upsert_thread c.store t)
handle_server_message c uuid
      (HostToClient.thread_grants_changed _ history thread_id revision grants) =
    let (s, changed) = apply_thread_grants c.store history thread_id revision grants in
    (record c { store = s }, if changed then state_changed ∷ [] else [])
handle_server_message c uuid
      (HostToClient.thread_related_changed client history thread_id rev items) =
    on_related_changed c client history thread_id rev items
handle_server_message c uuid (HostToClient.thread_created client_id t) =
    on_thread_created c client_id t
handle_server_message c uuid (HostToClient.thread_action_applied client_id history thread_id) =
    on_action_applied c client_id history thread_id
handle_server_message c uuid (HostToClient.thread_opened client_id d) =
    on_thread_opened c client_id d
handle_server_message c uuid (HostToClient.thread_activity a) =
    (on_thread_activity c (uuid 0) a, state_changed ∷ [])
handle_server_message c uuid (HostToClient.thread_turn t) = set_store c (upsert_turn c.store t)
handle_server_message c uuid (HostToClient.process_removed thread_id id) =
    set_store c (remove_process c.store thread_id id)
handle_server_message c uuid (HostToClient.process_upsert p) =
    set_store c (upsert_process c.store p)
handle_server_message c uuid (HostToClient.error detail client_id) = on_error c detail client_id
handle_server_message c uuid (HostToClient.paired token) = (c, [])
handle_server_message c uuid (HostToClient.ignored tag) = (c, [])
