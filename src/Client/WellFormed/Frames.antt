-- ===== src/Client/WellFormed/Frames.antt =====
-- Every frame of the host keeps the invariant, so every run of frames does.
use hirsel.Base.{
  ℕ, suc, String, ◌≡◌, refl, not, Option, none, some, List, [], ◌∷◌, arith, if_cases, lookup,
  Distinct, string_eq, nat_eq, str_eq, taken, ◌∙◌,
}
use hirsel.Proto.{
  HostToClient, ClientToHost, Thread, ThreadRelatedItem, ThreadActivity, ProcessInfo,
}
use hirsel.Client.Entry.{ChatEntry, confirmed, pending, entry_id}
use hirsel.Client.Store.{
  LocalStore, has_message, has_history, complete_pending, upsert_process, apply_hello_ok,
  upsert_activity,
}
use hirsel.Client.Inner.{ClientInner, Output}
use hirsel.Client.Dispatch.{
  handle_server_message, on_hello_ok, restore_threads, to_restore, finish_related,
  on_related_changed, is_related_of, on_thread_created, install_created, is_create,
  on_action_applied, is_action_of, on_thread_opened, on_thread_activity, queue_refresh, fail_send,
  on_error, is_send, set_activity, refresh_for, requeue, remove_process,
}
use hirsel.Client.WellFormed.Defs.{IsWellFormed}
use hirsel.Client.WellFormed.Messages.{
  apply_message-IsWellFormed, remove_message-IsWellFormed, apply_hello_ok-IsWellFormed,
}
use hirsel.Client.WellFormed.Work.{
  upsert_thread-IsWellFormed, upsert_turn-IsWellFormed, upsert_activity-IsWellFormed,
  with_stream-IsWellFormed, apply_delta-IsWellFormed,
}
use hirsel.Client.WellFormed.Detail.{
  SameShown, same-IsWellFormed, apply_thread_grants-SameShown, apply_thread_related-SameShown,
  track_pending-SameShown, refresh_open_thread-SameShown, apply_detail-IsWellFormed,
}

-- The snapshot of a hello names each Thread once: `id` is the primary key of the host's table.
abbrev pub Sound : HostToClient → Type 0
Sound (HostToClient.hello_ok history threads processes version) =
    Distinct (λ (t : Thread). some t.id) threads
Sound _ = Unit

complete_pending-SameShown : (s : LocalStore) (id : String) → SameShown s (complete_pending s id).0
unfolding complete_pending
complete_pending-SameShown s id = ground arith

restore_threads-IsWellFormed :
    (uuid : ℕ → String) (k : ℕ) (ts : List ℕ) (c : ClientInner)
    → IsWellFormed c.store
    → IsWellFormed (restore_threads uuid k ts c).store
unfolding restore_threads
restore_threads-IsWellFormed uuid k [] c w = w
restore_threads-IsWellFormed uuid k (t ∷ rest) c w =
    restore_threads-IsWellFormed uuid (suc k) rest _
      (same-IsWellFormed (track_pending-SameShown c.store (uuid k) _) w)

on_hello_ok-IsWellFormed :
    (c : ClientInner) (uuid : ℕ → String) (history : String) (threads : List Thread)
    (processes : List ProcessInfo) (version : String)
    → Distinct (λ (t : Thread). some t.id) threads
    → IsWellFormed c.store
    → IsWellFormed (on_hello_ok c uuid history threads processes version).store
unfolding on_hello_ok
on_hello_ok-IsWellFormed c uuid history threads processes version d w =
    let r = apply_hello_ok c.store history threads processes version in
    restore_threads-IsWellFormed uuid 0 (to_restore r.0) (requeue c r.0 r.1)
      (apply_hello_ok-IsWellFormed c.store history threads processes version d w)

finish_related-IsWellFormed :
    (c : ClientInner) (s : LocalStore) (client_id : Option String) (history : String)
    (thread_id rev : ℕ) (items : List ThreadRelatedItem)
    → IsWellFormed s
    → IsWellFormed (finish_related c s client_id history thread_id rev items).0.store
unfolding finish_related
finish_related-IsWellFormed c s client_id history thread_id rev items w =
    same-IsWellFormed (apply_thread_related-SameShown s history thread_id rev items) w

abbrev StoreIs : ClientInner × List Output → Type 0
StoreIs r = IsWellFormed r.0.store

on_related_changed-IsWellFormed :
    (c : ClientInner) (client_id : Option String) (history : String) (thread_id rev : ℕ)
    (items : List ThreadRelatedItem)
    → IsWellFormed c.store
    → StoreIs (on_related_changed c client_id history thread_id rev items)
unfolding on_related_changed
on_related_changed-IsWellFormed c none history thread_id rev items w =
    if_cases StoreIs (has_history c.store history)
      (λ _. finish_related-IsWellFormed c c.store none history thread_id rev items w) (λ _. w)
on_related_changed-IsWellFormed c (some id) history thread_id rev items w =
    if_cases StoreIs (not (has_history c.store history)) (λ _. w)
      (λ _.
        if_cases StoreIs (is_related_of history thread_id (lookup id c.store.pending_ops))
          (λ _.
            finish_related-IsWellFormed c _ (some id) history thread_id rev items
              (same-IsWellFormed (complete_pending-SameShown c.store id) w))
          (λ _. w))

on_thread_created-IsWellFormed :
    (c : ClientInner) (id : String) (t : Thread)
    → IsWellFormed c.store
    → StoreIs (on_thread_created c id t)
unfolding on_thread_created install_created complete_pending
on_thread_created-IsWellFormed c id t w =
    if_cases StoreIs (is_create (lookup id c.store.pending_ops))
      (λ _. upsert_thread-IsWellFormed _ t (same-IsWellFormed {s = c.store} (ground arith) w))
      (λ _. w)

on_action_applied-IsWellFormed :
    (c : ClientInner) (id history : String) (thread_id : ℕ)
    → IsWellFormed c.store
    → StoreIs (on_action_applied c id history thread_id)
unfolding on_action_applied
on_action_applied-IsWellFormed c id history thread_id w =
    if_cases StoreIs (is_action_of history thread_id (lookup id c.store.pending_ops))
      (λ _. same-IsWellFormed (complete_pending-SameShown c.store id) w) (λ _. w)

queue_refresh-store :
    (c : ClientInner) (f : Option ClientToHost) → (queue_refresh c f).store ≡ c.store
unfolding queue_refresh
queue_refresh-store c f = ground arith

refresh_for-IsWellFormed :
    (s : LocalStore) (fresh : String) (a : ThreadActivity)
    → IsWellFormed s
    → IsWellFormed (refresh_for s fresh a).0
unfolding refresh_for
refresh_for-IsWellFormed s fresh a w =
    if_cases (λ (r : LocalStore × Option ClientToHost). IsWellFormed r.0)
      (str_eq a.kind "delegation_received")
      (λ _. same-IsWellFormed (refresh_open_thread-SameShown s a.thread_id fresh) w) (λ _. w)

on_thread_activity-IsWellFormed :
    (c : ClientInner) (fresh : String) (a : ThreadActivity)
    → IsWellFormed c.store
    → IsWellFormed (on_thread_activity c fresh a).store
unfolding on_thread_activity
on_thread_activity-IsWellFormed c fresh a w =
    let r = refresh_for c.store fresh a in
    rw (queue_refresh-store (record c { store = upsert_activity r.0 a }) r.1)
      (upsert_activity-IsWellFormed r.0 a (refresh_for-IsWellFormed c.store fresh a w))

-- The error of a send keeps every entry's identifier.
taken-fail_send :
    (detail : String) (id : Option String) (k : Option ℕ) (xs : List ChatEntry)
    → taken entry_id k (fail_send detail id xs) ≡ taken entry_id k xs
unfolding fail_send
taken-fail_send detail id none xs = refl
taken-fail_send detail id (some k) [] = refl
taken-fail_send detail id (some k) (confirmed m ∷ xs) =
    ground (arith, taken-fail_send detail id (some k) xs)
taken-fail_send detail none (some k) (pending p ∷ xs) =
    ground (arith, taken-fail_send detail none (some k) xs)
taken-fail_send detail (some c) (some k) (pending p ∷ xs) =
    ground (arith, taken-fail_send detail (some c) (some k) xs)

Distinct-fail_send :
    (detail : String) (id : Option String) (xs : List ChatEntry)
    → Distinct entry_id xs
    → Distinct entry_id (fail_send detail id xs)
unfolding fail_send
Distinct-fail_send detail id [] d = tt
Distinct-fail_send detail id (confirmed m ∷ xs) d =
    (taken-fail_send detail id (some m.id) xs ∙ d.0, Distinct-fail_send detail id xs d.1)
Distinct-fail_send detail none (pending p ∷ xs) d = (refl, Distinct-fail_send detail none xs d.1)
Distinct-fail_send detail (some c) (pending p ∷ xs) d =
    let rest = Distinct-fail_send detail (some c) xs d.1 in
    if_cases (λ e. Distinct entry_id (e ∷ fail_send detail (some c) xs)) (str_eq p.client_id c)
      (λ _. (refl, rest)) (λ _. (refl, rest))

on_error-IsWellFormed :
    (c : ClientInner) (detail : String) (id : Option String)
    → IsWellFormed c.store
    → StoreIs (on_error c detail id)
unfolding on_error has_message
on_error-IsWellFormed c detail none w = w
on_error-IsWellFormed c detail (some id) w =
    let v = same-IsWellFormed (complete_pending-SameShown c.store id) w in
    let s = (complete_pending c.store id).0 in
    if_cases StoreIs (is_send (complete_pending c.store id).1)
      (λ _. record {
        messages = Distinct-fail_send detail (some id) s.messages v.messages;
        removed = λ j h. taken-fail_send detail (some id) (some j) s.messages ∙ v.removed j h;
        threads = v.threads;
        turns = v.turns;
        activities = v.activities;
        streams = v.streams;
      })
      (λ _. v)

remove_process-SameShown :
    (s : LocalStore) (thread_id : ℕ) (id : String) → SameShown s (remove_process s thread_id id)
unfolding remove_process
remove_process-SameShown s thread_id id = ground arith

upsert_process-SameShown : (s : LocalStore) (p : ProcessInfo) → SameShown s (upsert_process s p)
unfolding upsert_process
upsert_process-SameShown s p = ground arith

-- Whatever frame arrives at a well-formed store, it stays well formed: no message, Thread, turn
-- or activity is shown twice, no removed message is shown, and each Thread has one live stream.
-- A hello is taken to name each Thread once.
pub handle_server_message-IsWellFormed :
    (c : ClientInner) (uuid : ℕ → String) (m : HostToClient)
    → Sound m
    → IsWellFormed c.store
    → IsWellFormed (handle_server_message c uuid m).0.store
unfolding handle_server_message
handle_server_message-IsWellFormed c uuid (HostToClient.hello_ok h t p v) d w =
    on_hello_ok-IsWellFormed c uuid h t p v d w
handle_server_message-IsWellFormed c uuid (HostToClient.msg m) d w =
    apply_message-IsWellFormed c.store m w
handle_server_message-IsWellFormed c uuid (HostToClient.msg_removed id) d w =
    remove_message-IsWellFormed c.store id w
handle_server_message-IsWellFormed c uuid (HostToClient.agent_activity thread_id turn_id state text)
      d w =
    with_stream-IsWellFormed (set_activity state text) (λ v. unfold set_activity in refl) c.store
      thread_id turn_id w
handle_server_message-IsWellFormed c uuid (HostToClient.turn_event thread_id turn_id seq event) d
      w =
    apply_delta-IsWellFormed c.store thread_id turn_id seq event w
handle_server_message-IsWellFormed c uuid (HostToClient.thread_upsert t) d w =
    upsert_thread-IsWellFormed c.store t w
handle_server_message-IsWellFormed c uuid (HostToClient.thread_grants_changed _ h t r g) d w =
    same-IsWellFormed (apply_thread_grants-SameShown c.store h t r g) w
handle_server_message-IsWellFormed c uuid (HostToClient.thread_related_changed id h t r items) d w =
    on_related_changed-IsWellFormed c id h t r items w
handle_server_message-IsWellFormed c uuid (HostToClient.thread_created id t) d w =
    on_thread_created-IsWellFormed c id t w
handle_server_message-IsWellFormed c uuid (HostToClient.thread_action_applied id h t) d w =
    on_action_applied-IsWellFormed c id h t w
handle_server_message-IsWellFormed c uuid (HostToClient.thread_opened id detail) d w =
    unfold on_thread_opened in apply_detail-IsWellFormed c.store id detail w
handle_server_message-IsWellFormed c uuid (HostToClient.thread_activity a) d w =
    on_thread_activity-IsWellFormed c (uuid 0) a w
handle_server_message-IsWellFormed c uuid (HostToClient.thread_turn t) d w =
    upsert_turn-IsWellFormed c.store t w
handle_server_message-IsWellFormed c uuid (HostToClient.process_removed t id) d w =
    same-IsWellFormed (remove_process-SameShown c.store t id) w
handle_server_message-IsWellFormed c uuid (HostToClient.process_upsert p) d w =
    same-IsWellFormed (upsert_process-SameShown c.store p) w
handle_server_message-IsWellFormed c uuid (HostToClient.error detail id) d w =
    on_error-IsWellFormed c detail id w
handle_server_message-IsWellFormed c uuid (HostToClient.paired token) d w = w
handle_server_message-IsWellFormed c uuid (HostToClient.ignored tag) d w = w
