-- ===== src/Client/Progress/Frames.antt =====
-- Every frame follows the two orders, so every run of frames does.
use hirsel.Base.{ℕ, String, Option, none, some, List, arith, if_cases, lookup, string_eq, nat_eq}
use hirsel.Proto.{HostToClient, Thread, ThreadActivity, ThreadRelatedItem, ThreadGrant, ProcessInfo}
use hirsel.Client.Store.{
  LocalStore, complete_pending, upsert_process, upsert_activity, apply_thread_related,
  apply_thread_grants, track_pending, refresh_open_thread, apply_delta, push_event,
}
use hirsel.Client.Inner.{ClientInner, Output}
use hirsel.Client.Dispatch.{
  handle_server_message, on_related_changed, on_thread_created, install_created, is_create,
  on_action_applied, on_thread_opened, on_thread_activity, on_error, remove_process, set_activity,
}
use hirsel.Client.Progress.Defs.{SameKnown, Follows, SameKnown-Follows, Follows-trans}
use hirsel.Client.Progress.Store.{
  apply_message-SameKnown, with_stream-SameKnown, remove_message-Follows, upsert_thread-Follows,
  upsert_turn-Follows, apply_detail-Follows,
}

-- A frame between two hellos.
abbrev pub IsUpdate : HostToClient → Type 0
IsUpdate (HostToClient.hello_ok _ _ _ _) = ⊥
IsUpdate _ = Unit

on_related_changed-SameKnown :
    (c : ClientInner) (id : Option String) (history : String) (thread_id rev : ℕ)
    (items : List ThreadRelatedItem)
    → SameKnown c.store (on_related_changed c id history thread_id rev items).0.store
unfolding on_related_changed apply_thread_related complete_pending
on_related_changed-SameKnown c none history thread_id rev items = ground arith
on_related_changed-SameKnown c (some id) history thread_id rev items = ground arith

apply_thread_grants-SameKnown :
    (s : LocalStore) (history : String) (thread_id rev : ℕ) (grants : List ThreadGrant)
    → SameKnown s (apply_thread_grants s history thread_id rev grants).0
unfolding apply_thread_grants
apply_thread_grants-SameKnown s history thread_id rev grants = ground arith

on_action_applied-SameKnown :
    (c : ClientInner) (id history : String) (thread_id : ℕ)
    → SameKnown c.store (on_action_applied c id history thread_id).0.store
unfolding on_action_applied complete_pending
on_action_applied-SameKnown c id history thread_id = ground arith

on_error-SameKnown :
    (c : ClientInner) (detail : String) (id : Option String)
    → SameKnown c.store (on_error c detail id).0.store
unfolding on_error complete_pending
on_error-SameKnown c detail none = ground arith
on_error-SameKnown c detail (some id) = ground arith

on_thread_activity-SameKnown :
    (c : ClientInner) (fresh : String) (a : ThreadActivity)
    → SameKnown c.store (on_thread_activity c fresh a).store
unfolding on_thread_activity refresh_open_thread track_pending upsert_activity
on_thread_activity-SameKnown c fresh a = ground arith

processes-SameKnown :
    (s : LocalStore) (ps : List ProcessInfo) → SameKnown s (record s { processes = ps })
processes-SameKnown s ps = ground arith

upsert_process-SameKnown : (s : LocalStore) (p : ProcessInfo) → SameKnown s (upsert_process s p)
unfolding upsert_process
upsert_process-SameKnown s p = ground arith

on_thread_created-Follows :
    (c : ClientInner) (id : String) (t : Thread)
    → Follows c.store (on_thread_created c id t).0.store
unfolding on_thread_created install_created complete_pending
on_thread_created-Follows c id t =
    if_cases (λ (r : ClientInner × List Output). Follows c.store r.0.store)
      (is_create (lookup id c.store.pending_ops))
      (λ _.
        Follows-trans (SameKnown-Follows {s = c.store} (ground arith)) (upsert_thread-Follows _ t))
      (λ _. SameKnown-Follows (ground arith))

-- Between two hellos nothing is undone: a removed message stays removed, a finished turn keeps its
-- outcome, a Thread never falls back to an older revision, and the history stays the same.
pub handle_server_message-Follows :
    (c : ClientInner) (uuid : ℕ → String) (m : HostToClient)
    → IsUpdate m
    → Follows c.store (handle_server_message c uuid m).0.store
unfolding handle_server_message apply_delta on_thread_opened remove_process
handle_server_message-Follows c uuid (HostToClient.hello_ok h t p v) u = absurd u
handle_server_message-Follows c uuid (HostToClient.msg m) u =
    SameKnown-Follows (apply_message-SameKnown c.store m)
handle_server_message-Follows c uuid (HostToClient.msg_removed id) u =
    remove_message-Follows c.store id
handle_server_message-Follows c uuid (HostToClient.agent_activity thread_id turn_id state text) u =
    SameKnown-Follows (with_stream-SameKnown c.store thread_id turn_id (set_activity state text))
handle_server_message-Follows c uuid (HostToClient.turn_event thread_id turn_id seq event) u =
    SameKnown-Follows (with_stream-SameKnown c.store thread_id turn_id (push_event seq event))
handle_server_message-Follows c uuid (HostToClient.thread_upsert t) u =
    upsert_thread-Follows c.store t
handle_server_message-Follows c uuid (HostToClient.thread_grants_changed _ h t r g) u =
    SameKnown-Follows (apply_thread_grants-SameKnown c.store h t r g)
handle_server_message-Follows c uuid (HostToClient.thread_related_changed id h t r items) u =
    SameKnown-Follows (on_related_changed-SameKnown c id h t r items)
handle_server_message-Follows c uuid (HostToClient.thread_created id t) u =
    on_thread_created-Follows c id t
handle_server_message-Follows c uuid (HostToClient.thread_action_applied id h t) u =
    SameKnown-Follows (on_action_applied-SameKnown c id h t)
handle_server_message-Follows c uuid (HostToClient.thread_opened id d) u =
    apply_detail-Follows c.store id d
handle_server_message-Follows c uuid (HostToClient.thread_activity a) u =
    SameKnown-Follows (on_thread_activity-SameKnown c (uuid 0) a)
handle_server_message-Follows c uuid (HostToClient.thread_turn t) u = upsert_turn-Follows c.store t
handle_server_message-Follows c uuid (HostToClient.process_removed t id) u =
    SameKnown-Follows (processes-SameKnown c.store _)
handle_server_message-Follows c uuid (HostToClient.process_upsert p) u =
    SameKnown-Follows (upsert_process-SameKnown c.store p)
handle_server_message-Follows c uuid (HostToClient.error detail id) u =
    SameKnown-Follows (on_error-SameKnown c detail id)
handle_server_message-Follows c uuid (HostToClient.paired token) u =
    SameKnown-Follows (ground arith)
handle_server_message-Follows c uuid (HostToClient.ignored tag) u = SameKnown-Follows (ground arith)
