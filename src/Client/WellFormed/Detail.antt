-- ===== src/Client/WellFormed/Detail.antt =====
-- An opened Thread's snapshot keeps the invariant.
use hirsel.Base.{
  ℕ, String, ◌≡◌, Bool, some, List, [], ◌∷◌, arith, ◌==◌, if◌then◌else◌, if_cases, lookup, nat_eq,
  string_eq, Distinct-sort_by_key, taken-sort_by_key, sort_by_key,
}
use hirsel.Proto.{
  ThreadRelatedItem, ThreadGrant, ThreadDetail, ThreadTurn, ThreadActivity, ChatMessage,
}
use hirsel.Client.Entry.{entry_id, PendingOp}
use hirsel.Client.Store.{
  LocalStore, has_message, replace_related_items, replace_grants, apply_thread_grants,
  apply_thread_related, apply_messages, upsert_turns, upsert_activities, sort_id, note_opened,
  install_detail, apply_detail, is_open_of, refresh_open_thread, track_pending, apply_message,
  upsert_turn, upsert_activity,
}
use hirsel.Client.WellFormed.Defs.{IsWellFormed}
use hirsel.Client.WellFormed.Messages.{apply_message-IsWellFormed}
use hirsel.Client.WellFormed.Work.{
  upsert_thread-IsWellFormed, upsert_turn-IsWellFormed, upsert_activity-IsWellFormed,
}

-- The parts of the store that the invariant speaks of.
pub record SameShown (s t : LocalStore) : Type 0 where
  pub removed : s.removed_message_ids ≡ t.removed_message_ids
  pub messages : s.messages ≡ t.messages
  pub threads : s.threads ≡ t.threads
  pub turns : s.turns ≡ t.turns
  pub activities : s.activities ≡ t.activities
  pub streams : s.streams ≡ t.streams

-- A method that touches none of them keeps the invariant.
pub same-IsWellFormed : {s t : LocalStore} → SameShown s t → IsWellFormed s → IsWellFormed t
same-IsWellFormed e w = record {
  messages = rw e.messages at w.messages;
  removed = λ id h. rw e.messages at (w.removed id (rw (← e.removed) at h));
  threads = rw e.threads at w.threads;
  turns = rw e.turns at w.turns;
  activities = rw e.activities at w.activities;
  streams = rw e.streams at w.streams;
}

pub replace_related_items-SameShown :
    (s : LocalStore) (thread_id revision : ℕ) (items : List ThreadRelatedItem)
    → SameShown s (replace_related_items s thread_id revision items).0
unfolding replace_related_items
replace_related_items-SameShown s thread_id revision items = ground arith

pub replace_grants-SameShown :
    (s : LocalStore) (thread_id revision : ℕ) (grants : List ThreadGrant)
    → SameShown s (replace_grants s thread_id revision grants).0
unfolding replace_grants
replace_grants-SameShown s thread_id revision grants = ground arith

pub apply_thread_grants-SameShown :
    (s : LocalStore) (history : String) (thread_id revision : ℕ) (grants : List ThreadGrant)
    → SameShown s (apply_thread_grants s history thread_id revision grants).0
unfolding apply_thread_grants
apply_thread_grants-SameShown s history thread_id revision grants = ground arith

pub apply_thread_related-SameShown :
    (s : LocalStore) (history : String) (thread_id revision : ℕ) (items : List ThreadRelatedItem)
    → SameShown s (apply_thread_related s history thread_id revision items).0
unfolding apply_thread_related
apply_thread_related-SameShown s history thread_id revision items = ground arith

note_opened-SameShown : (s : LocalStore) (d : ThreadDetail) → SameShown s (note_opened s d)
unfolding note_opened
note_opened-SameShown s d = ground arith

pub track_pending-SameShown :
    (s : LocalStore) (id : String) (op : PendingOp) → SameShown s (track_pending s id op)
unfolding track_pending
track_pending-SameShown s id op = ground arith

pub refresh_open_thread-SameShown :
    (s : LocalStore) (thread_id : ℕ) (fresh : String)
    → SameShown s (refresh_open_thread s thread_id fresh).0
unfolding refresh_open_thread track_pending
refresh_open_thread-SameShown s thread_id fresh = ground arith

apply_messages-IsWellFormed :
    (s : LocalStore) (thread_id : ℕ) (ms : List ChatMessage)
    → IsWellFormed s
    → IsWellFormed (apply_messages s thread_id ms)
unfolding apply_messages
apply_messages-IsWellFormed s thread_id [] w = w
apply_messages-IsWellFormed s thread_id (m ∷ rest) w =
    apply_messages-IsWellFormed (if m.thread_id == thread_id then apply_message s m else s)
      thread_id rest
      (if_cases IsWellFormed (m.thread_id == thread_id) (λ _. apply_message-IsWellFormed s m w)
        (λ _. w))

upsert_turns-IsWellFormed :
    (s : LocalStore) (thread_id : ℕ) (ts : List ThreadTurn)
    → IsWellFormed s
    → IsWellFormed (upsert_turns s thread_id ts)
unfolding upsert_turns
upsert_turns-IsWellFormed s thread_id [] w = w
upsert_turns-IsWellFormed s thread_id (t ∷ rest) w =
    upsert_turns-IsWellFormed (if t.thread_id == thread_id then upsert_turn s t else s) thread_id
      rest
      (if_cases IsWellFormed (t.thread_id == thread_id) (λ _. upsert_turn-IsWellFormed s t w)
        (λ _. w))

upsert_activities-IsWellFormed :
    (s : LocalStore) (thread_id : ℕ) (xs : List ThreadActivity)
    → IsWellFormed s
    → IsWellFormed (upsert_activities s thread_id xs)
unfolding upsert_activities
upsert_activities-IsWellFormed s thread_id [] w = w
upsert_activities-IsWellFormed s thread_id (a ∷ rest) w =
    upsert_activities-IsWellFormed (if a.thread_id == thread_id then upsert_activity s a else s)
      thread_id rest
      (if_cases IsWellFormed (a.thread_id == thread_id) (λ _. upsert_activity-IsWellFormed s a w)
        (λ _. w))

sort-IsWellFormed :
    (s : LocalStore)
    → IsWellFormed s
    → IsWellFormed (record s { messages = sort_by_key sort_id s.messages })
unfolding has_message
sort-IsWellFormed s w = record {
  messages = Distinct-sort_by_key entry_id sort_id s.messages w.messages;
  removed = λ id h. rw (taken-sort_by_key entry_id (some id) sort_id s.messages) (w.removed id h);
  threads = w.threads;
  turns = w.turns;
  activities = w.activities;
  streams = w.streams;
}

install_detail-IsWellFormed :
    (s : LocalStore) (d : ThreadDetail) → IsWellFormed s → IsWellFormed (install_detail s d)
unfolding install_detail
install_detail-IsWellFormed s d w =
    let id = d.thread.id in
    let w1 =
      same-IsWellFormed (replace_related_items-SameShown s id d.thread.revision d.related_items)
        w in
    let w2 = same-IsWellFormed (replace_grants-SameShown _ id d.thread.revision d.grants) w1 in
    let w3 =
      upsert_thread-IsWellFormed _ d.thread (same-IsWellFormed (note_opened-SameShown _ d) w2) in
    let w4 = apply_messages-IsWellFormed _ id d.messages w3 in
    sort-IsWellFormed _
      (upsert_activities-IsWellFormed _ id d.activities (upsert_turns-IsWellFormed _ id d.turns w4))

drop_op-SameShown :
    (s : LocalStore) (ops : List (String × PendingOp))
    → SameShown s (record s { pending_ops = ops })
drop_op-SameShown s ops = ground arith

pub apply_detail-IsWellFormed :
    (s : LocalStore) (client_id : String) (d : ThreadDetail)
    → IsWellFormed s
    → IsWellFormed (apply_detail s client_id d).0
unfolding apply_detail
apply_detail-IsWellFormed s client_id d w =
    if_cases (λ (r : LocalStore × Bool). IsWellFormed r.0)
      (is_open_of (lookup client_id s.pending_ops) d.thread.id)
      (λ _. install_detail-IsWellFormed _ d (same-IsWellFormed (drop_op-SameShown s _) w)) (λ _. w)
