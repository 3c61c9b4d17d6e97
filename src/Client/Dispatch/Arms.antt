-- ===== src/Client/Dispatch/Arms.antt =====
-- The larger arms of `handle_server_message`, crates/hirsel-client-core/src/transport.rs.
use hirsel.Base.{
  ℕ, String, Bool, true, false, not, ◌&&◌, Option, none, some, List, [], ◌∷◌, ◌++◌, ◌==◌, str_eq,
  nat_eq, string_eq, if◌then◌else◌, retain, lookup,
}
use hirsel.Proto.{ClientToHost, Thread, ThreadActivity, ThreadDetail, ThreadRelatedItem}
use hirsel.Client.Entry.{
  CreatedThread, ChatEntry, confirmed, pending, PendingOp, send_message, create_thread,
  thread_action, add_thread_related, remove_thread_related,
}
use hirsel.Client.Store.{
  LocalStore, complete_pending, upsert_thread, upsert_activity, has_history, apply_thread_related,
  apply_detail, refresh_open_thread,
}
use hirsel.Client.Inner.{LifecycleEvent, Output, state_changed, lifecycle, ClientInner, push_frame}

-- `AddThreadRelated | RemoveThreadRelated` of this history and Thread
abbrev pub is_related_of : String → ℕ → Option PendingOp → Bool
is_related_of history thread_id (some (add_thread_related h t)) = str_eq h history && t == thread_id
is_related_of history thread_id (some (remove_thread_related h t)) =
    str_eq h history && t == thread_id
is_related_of history thread_id _ = false

unfoldable pub finish_related :
    ClientInner
    → LocalStore
    → Option String
    → String
    → ℕ
    → ℕ
    → List ThreadRelatedItem
    → ClientInner × List Output
finish_related c s client_id history thread_id revision items =
    let (s', changed) = apply_thread_related s history thread_id revision items in
    let event = lifecycle (LifecycleEvent.thread_related_changed history thread_id client_id) in
    (record c { store = s' }, if changed then event ∷ state_changed ∷ [] else event ∷ [])

unfoldable pub on_related_changed :
    ClientInner
    → Option String
    → String
    → ℕ
    → ℕ
    → List ThreadRelatedItem
    → ClientInner × List Output
unfolding finish_related
on_related_changed c none history thread_id revision items =
    if has_history c.store history
    then finish_related c c.store none history thread_id revision items
    else (c, [])
on_related_changed c (some client_id) history thread_id revision items =
    if not (has_history c.store history)
    then (c, [])
    else if is_related_of history thread_id (lookup client_id c.store.pending_ops)
    then finish_related c (complete_pending c.store client_id).0 (some client_id) history thread_id
        revision items
    else (c, [])

abbrev pub is_create : Option PendingOp → Bool
is_create (some (create_thread _ _ _ _)) = true
is_create _ = false

unfoldable pub install_created : LocalStore → String → Thread → LocalStore
install_created s client_id t =
    upsert_thread (record s { created_threads = created ++ entry ∷ [] }) t
  where
    created : List CreatedThread
    created = retain (λ k. not (str_eq k.client_id client_id)) s.created_threads

    entry : CreatedThread
    entry = record { client_id = client_id; thread_id = t.id }

unfoldable pub on_thread_created : ClientInner → String → Thread → ClientInner × List Output
unfolding install_created
on_thread_created c client_id t =
    if is_create (lookup client_id c.store.pending_ops)
    then (
      record c { store = install_created (complete_pending c.store client_id).0 client_id t },
      state_changed ∷ [],
    )
    else (c, [])

abbrev pub is_action_of : String → ℕ → Option PendingOp → Bool
is_action_of history thread_id (some (thread_action h t)) = str_eq h history && t == thread_id
is_action_of history thread_id _ = false

unfoldable pub on_action_applied : ClientInner → String → String → ℕ → ClientInner × List Output
on_action_applied c client_id history thread_id =
    if is_action_of history thread_id (lookup client_id c.store.pending_ops)
    then (
      record c { store = (complete_pending c.store client_id).0 },
      lifecycle (LifecycleEvent.thread_action_applied client_id history thread_id) ∷ [],
    )
    else (c, [])

unfoldable pub on_thread_opened : ClientInner → String → ThreadDetail → ClientInner × List Output
on_thread_opened c client_id d =
    let (s, applied) = apply_detail c.store client_id d in
    (
      record c { store = s },
      if applied
          then lifecycle (LifecycleEvent.thread_opened client_id d.thread.id) ∷ state_changed ∷ []
          else [],
    )

unfoldable pub queue_refresh : ClientInner → Option ClientToHost → ClientInner
queue_refresh c none = c
queue_refresh c (some frame) = push_frame c frame

-- A delegation to an opened Thread asks for its detail again.
unfoldable pub refresh_for : LocalStore → String → ThreadActivity → LocalStore × Option ClientToHost
refresh_for s fresh a =
    if str_eq a.kind "delegation_received"
    then refresh_open_thread s a.thread_id fresh
    else (s, none)

unfoldable pub on_thread_activity : ClientInner → String → ThreadActivity → ClientInner
unfolding queue_refresh refresh_for
on_thread_activity c fresh a =
    let (s, frame) = refresh_for c.store fresh a in
    queue_refresh (record c { store = upsert_activity s a }) frame

-- The loop of the error arm: the answered send carries the error from now on.
unfoldable pub fail_send : String → Option String → List ChatEntry → List ChatEntry
fail_send detail client_id [] = []
fail_send detail client_id (confirmed m ∷ rest) = confirmed m ∷ fail_send detail client_id rest
fail_send detail none (pending p ∷ rest) = pending p ∷ fail_send detail none rest
fail_send detail (some c) (pending p ∷ rest) =
    (if str_eq p.client_id c then pending (record p { error = some detail }) else pending p)
    ∷ fail_send detail (some c) rest

abbrev pub is_send : Option PendingOp → Bool
is_send (some (send_message _)) = true
is_send _ = false

abbrev pub is_known : Option PendingOp → Bool
is_known none = false
is_known (some _) = true

unfoldable pub on_error : ClientInner → String → Option String → ClientInner × List Output
on_error c detail none = (c, lifecycle (LifecycleEvent.protocol_error detail none) ∷ [])
on_error c detail (some client_id) =
    let (s, op) = complete_pending c.store client_id in
    let event = lifecycle (LifecycleEvent.protocol_error detail (some client_id)) in
    if is_send op
    then (
      record c { store = record s { messages = fail_send detail (some client_id) s.messages } },
      event ∷ state_changed ∷ [],
    )
    else (record c { store = s }, if is_known op then event ∷ [] else [])
