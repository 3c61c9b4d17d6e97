-- ===== src/Client/Delivery/Drafts.antt =====
-- The text of a send without a confirmation is never lost
-- (crates/hirsel-client-core/src/store.rs and transport.rs).
use hirsel.Base.{
  ℕ, suc, String, ◌≡◌, refl, append_nil, ◌∙◌, ap, true, false, not, Bool, Option, none, some, List,
  [], ◌∷◌, ◌++◌, arith, ◌==◌, opt_beq, if_cases, retain, nat_eq, string_eq, str_eq,
}
use hirsel.Proto.{
  HostToClient, Thread, ProcessInfo, ThreadRelatedItem, ThreadGrant, ThreadTurn, ThreadActivity,
}
use hirsel.Client.Entry.{ChatEntry, entry_id, confirmed, pending, ThreadStream}
use hirsel.Client.Store.{
  LocalStore, pending_bodies, apply_hello_ok, history_changed, remove_message, upsert_turn,
  upsert_activity, with_stream, upsert_process, apply_thread_grants, replace_grants,
  apply_thread_related, replace_related_items, complete_pending, refresh_open_thread, track_pending,
  upsert_thread, apply_delta, push_event,
}
use hirsel.Client.Inner.{ClientInner}
use hirsel.Client.Dispatch.{
  handle_server_message, on_hello_ok, restore_threads, requeue, to_restore, fail_send, on_error,
  finish_related, on_related_changed, on_thread_created, install_created, on_action_applied,
  on_thread_activity, queue_refresh, refresh_for, remove_process,
}

-- What the user wrote and the host has not confirmed: recovered drafts, then unconfirmed sends.
abbrev pub drafts : LocalStore → List String
drafts s = s.recovered_drafts ++ pending_bodies s.messages

-- A frame that carries messages, and so may confirm a send.
abbrev pub carries_messages : HostToClient → Bool
carries_messages (HostToClient.msg _) = true
carries_messages (HostToClient.thread_opened _ _) = true
carries_messages _ = false

-- Two stores with the same texts.
record SameText (s t : LocalStore) : Type 0 where
  messages : t.messages ≡ s.messages
  recovered_drafts : t.recovered_drafts ≡ s.recovered_drafts

SameText-drafts : {s t : LocalStore} → SameText s t → drafts t ≡ drafts s
SameText-drafts same = rw same.messages (rw same.recovered_drafts refl)

pending_bodies-remove :
    (id : ℕ) (entries : List ChatEntry)
    → pending_bodies (retain (λ e. not (opt_beq (entry_id e) (some id))) entries)
      ≡ pending_bodies entries
unfolding pending_bodies
pending_bodies-remove id [] = refl
pending_bodies-remove id (confirmed m ∷ rest) =
    let ih = pending_bodies-remove id rest in
    if_cases (λ es. pending_bodies es ≡ pending_bodies rest) (not (m.id == id)) (λ _. ih) (λ _. ih)
pending_bodies-remove id (pending p ∷ rest) = rw (pending_bodies-remove id rest) refl

fail_send-bodies :
    (detail : String) (c : Option String) (entries : List ChatEntry)
    → pending_bodies (fail_send detail c entries) ≡ pending_bodies entries
unfolding pending_bodies fail_send
fail_send-bodies detail c [] = refl
fail_send-bodies detail c (confirmed m ∷ rest) = fail_send-bodies detail c rest
fail_send-bodies detail none (pending p ∷ rest) =
    ap (λ t. p.body ∷ t) (fail_send-bodies detail none rest)
fail_send-bodies detail (some c) (pending p ∷ rest) =
    let ih = fail_send-bodies detail (some c) rest in
    if_cases
      (λ e. pending_bodies (e ∷ fail_send detail (some c) rest) ≡ p.body ∷ pending_bodies rest)
      (str_eq p.client_id c) (λ _. ap (λ t. p.body ∷ t) ih) (λ _. ap (λ t. p.body ∷ t) ih)

hello-drafts :
    (s : LocalStore) (h : String) (ts : List Thread) (ps : List ProcessInfo) (v : String)
    → drafts (apply_hello_ok s h ts ps v).0 ≡ drafts s
unfolding apply_hello_ok pending_bodies
hello-drafts s h ts ps v =
    if_cases (λ (b : LocalStore). b.recovered_drafts ++ pending_bodies b.messages ≡ drafts s)
      (history_changed s h) (λ _. append_nil (s.recovered_drafts ++ pending_bodies s.messages))
      (λ _. refl)

restore_threads-SameText :
    (uuid : ℕ → String) (k : ℕ) (ts : List ℕ) (c : ClientInner)
    → SameText c.store (restore_threads uuid k ts c).store
unfolding restore_threads track_pending
restore_threads-SameText uuid k [] c = record { messages = refl; recovered_drafts = refl }
restore_threads-SameText uuid k (t ∷ rest) c =
    let r = restore_threads-SameText uuid (suc k) rest _ in
    record { messages = r.messages; recovered_drafts = r.recovered_drafts }

on_hello_ok-drafts :
    (c : ClientInner) (uuid : ℕ → String) (h : String) (ts : List Thread) (ps : List ProcessInfo)
    (v : String)
    → drafts (on_hello_ok c uuid h ts ps v).store ≡ drafts c.store
unfolding on_hello_ok
on_hello_ok-drafts c uuid h ts ps v =
    let r = apply_hello_ok c.store h ts ps v in
    SameText-drafts (restore_threads-SameText uuid 0 (to_restore r.0) (requeue c r.0 r.1))
    ∙ hello-drafts c.store h ts ps v

upsert_turn-SameText : (s : LocalStore) (t : ThreadTurn) → SameText s (upsert_turn s t)
unfolding upsert_turn
upsert_turn-SameText s t = ground arith

with_stream-SameText :
    (s : LocalStore) (t u : ℕ) (f : ThreadStream → ThreadStream) → SameText s (with_stream s t u f)
unfolding with_stream
with_stream-SameText s t u f = ground arith

upsert_activity-SameText : (s : LocalStore) (a : ThreadActivity) → SameText s (upsert_activity s a)
unfolding upsert_activity
upsert_activity-SameText s a = ground arith

upsert_process-SameText : (s : LocalStore) (p : ProcessInfo) → SameText s (upsert_process s p)
unfolding upsert_process
upsert_process-SameText s p = ground arith

apply_thread_grants-SameText :
    (s : LocalStore) (h : String) (t r : ℕ) (gs : List ThreadGrant)
    → SameText s (apply_thread_grants s h t r gs).0
unfolding apply_thread_grants replace_grants
apply_thread_grants-SameText s h t r gs = ground arith

apply_thread_related-SameText :
    (s : LocalStore) (h : String) (t r : ℕ) (items : List ThreadRelatedItem)
    → SameText s (apply_thread_related s h t r items).0
unfolding apply_thread_related replace_related_items
apply_thread_related-SameText s h t r items = ground arith

on_related_changed-SameText :
    (c : ClientInner) (id : Option String) (h : String) (t r : ℕ) (items : List ThreadRelatedItem)
    → SameText c.store (on_related_changed c id h t r items).0.store
unfolding on_related_changed finish_related
on_related_changed-SameText c none h t r items =
    let same = apply_thread_related-SameText c.store h t r items in
    let e = same.messages in let f = same.recovered_drafts in ground arith
on_related_changed-SameText c (some id) h t r items =
    let s = (complete_pending c.store id).0 in
    let same = apply_thread_related-SameText s h t r items in
    let e = same.messages in
    let f = same.recovered_drafts in unfold complete_pending in ground arith

on_thread_created-SameText :
    (c : ClientInner) (id : String) (t : Thread)
    → SameText c.store (on_thread_created c id t).0.store
unfolding on_thread_created install_created complete_pending upsert_thread
on_thread_created-SameText c id t = ground arith

on_action_applied-SameText :
    (c : ClientInner) (id h : String) (t : ℕ)
    → SameText c.store (on_action_applied c id h t).0.store
unfolding on_action_applied complete_pending
on_action_applied-SameText c id h t = ground arith

on_thread_activity-SameText :
    (c : ClientInner) (fresh : String) (a : ThreadActivity)
    → SameText c.store (on_thread_activity c fresh a).store
unfolding on_thread_activity queue_refresh refresh_for refresh_open_thread track_pending
    upsert_activity
on_thread_activity-SameText c fresh a = ground arith

on_error-drafts :
    (c : ClientInner) (detail : String) (id : Option String)
    → drafts (on_error c detail id).0.store ≡ drafts c.store
unfolding on_error complete_pending
on_error-drafts c detail none = refl
on_error-drafts c detail (some id) =
    let same = fail_send-bodies detail (some id) c.store.messages in ground (arith, same)

-- Every frame but those that carry messages leaves the user's unconfirmed text as it is, in its
-- order: a new history moves it to the recovered drafts, and an error or a removal drops none.
pub drafts_survive :
    (c : ClientInner) (uuid : ℕ → String) (m : HostToClient)
    → carries_messages m ≡ false
    → drafts (handle_server_message c uuid m).0.store ≡ drafts c.store
unfolding handle_server_message
drafts_survive c uuid (HostToClient.hello_ok h ts ps v) q = on_hello_ok-drafts c uuid h ts ps v
drafts_survive c uuid (HostToClient.msg m) q = cc
drafts_survive c uuid (HostToClient.msg_removed id) q =
    unfold remove_message in
    ap (λ t. c.store.recovered_drafts ++ t) (pending_bodies-remove id c.store.messages)
drafts_survive c uuid (HostToClient.agent_activity t u state text) q =
    SameText-drafts (with_stream-SameText c.store t u _)
drafts_survive c uuid (HostToClient.turn_event t u seq event) q =
    unfold apply_delta in SameText-drafts (with_stream-SameText c.store t u (push_event seq event))
drafts_survive c uuid (HostToClient.thread_upsert t) q = unfold upsert_thread in refl
drafts_survive c uuid (HostToClient.thread_grants_changed _ h t r gs) q =
    SameText-drafts (apply_thread_grants-SameText c.store h t r gs)
drafts_survive c uuid (HostToClient.thread_related_changed id h t r items) q =
    SameText-drafts (on_related_changed-SameText c id h t r items)
drafts_survive c uuid (HostToClient.thread_created id t) q =
    SameText-drafts (on_thread_created-SameText c id t)
drafts_survive c uuid (HostToClient.thread_action_applied id h t) q =
    SameText-drafts (on_action_applied-SameText c id h t)
drafts_survive c uuid (HostToClient.thread_opened id detail) q = cc
drafts_survive c uuid (HostToClient.thread_activity a) q =
    SameText-drafts (on_thread_activity-SameText c (uuid 0) a)
drafts_survive c uuid (HostToClient.thread_turn t) q =
    SameText-drafts (upsert_turn-SameText c.store t)
drafts_survive c uuid (HostToClient.process_removed t id) q = unfold remove_process in refl
drafts_survive c uuid (HostToClient.process_upsert p) q =
    SameText-drafts (upsert_process-SameText c.store p)
drafts_survive c uuid (HostToClient.error detail id) q = on_error-drafts c detail id
drafts_survive c uuid (HostToClient.paired token) q = refl
drafts_survive c uuid (HostToClient.ignored tag) q = refl
