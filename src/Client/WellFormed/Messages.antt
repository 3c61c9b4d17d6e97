-- ===== src/Client/WellFormed/Messages.antt =====
-- The conversation keeps the invariant.
use hirsel.Base.{
  ℕ, String, ◌≡◌, refl, true, false, not, Bool, Option, none, some, List, [], ◌∷◌, ◌++◌, arith,
  ◌==◌, opt_beq, if◌then◌else◌, if_cases, retain, contains, lookup, nat_eq, string_eq, any-retain,
  Bool-cases, inl, inr, Distinct, Distinct-push, Distinct-retain, taken-push, ==_iff,
}
use hirsel.Proto.{Thread, ProcessInfo, ChatMessage}
use hirsel.Client.Entry.{
  ChatEntry, entry_id, PendingSend, PendingOp, pending, confirmed, confirmed_of,
}
use hirsel.Client.Store.{
  LocalStore, has_message, settle_send, insert_message, apply_message, remove_message, is_send_to,
  add_optimistic_send, reset_store, apply_hello_ok, history_changed,
}
use hirsel.Client.WellFormed.Defs.{IsWellFormed}

-- Entries that are taken out of the conversation do no harm.
retain-IsWellFormed :
    (s : LocalStore) (p : ChatEntry → Bool) (ops : List (String × PendingOp))
    → IsWellFormed s
    → IsWellFormed (record s { pending_ops = ops; messages = retain p s.messages })
unfolding has_message
retain-IsWellFormed s p ops w = record {
  messages = Distinct-retain entry_id p s.messages w.messages;
  removed = λ id h. any-retain (λ e. opt_beq (entry_id e) (some id)) p s.messages (w.removed id h);
  threads = w.threads;
  turns = w.turns;
  activities = w.activities;
  streams = w.streams;
}

settle_send-IsWellFormed :
    (s : LocalStore) (client_id : Option String) (thread_id : ℕ)
    → IsWellFormed s
    → IsWellFormed (settle_send s client_id thread_id)
unfolding settle_send
settle_send-IsWellFormed s none thread_id w = w
settle_send-IsWellFormed s (some client_id) thread_id w =
    if_cases IsWellFormed (is_send_to (lookup client_id s.pending_ops) thread_id)
      (λ _. retain-IsWellFormed s _ _ w) (λ _. w)

-- A new entry that is neither shown nor removed.
push-IsWellFormed :
    (s : LocalStore) (m : ChatMessage)
    → contains s.removed_message_ids m.id ≡ false
    → has_message m.id s.messages ≡ false
    → IsWellFormed s
    → IsWellFormed (record s { messages = s.messages ++ confirmed (confirmed_of m) ∷ [] })
unfolding has_message
push-IsWellFormed s m kept new w = record {
  messages = Distinct-push entry_id s.messages (confirmed (confirmed_of m)) w.messages new;
  removed = λ id h. ground (
    arith,
    w.removed id h,
    ==_iff m.id id,
    kept,
    taken-push entry_id (some id) s.messages (confirmed (confirmed_of m)),
  );
  threads = w.threads;
  turns = w.turns;
  activities = w.activities;
  streams = w.streams;
}

insert_message-IsWellFormed :
    (s : LocalStore) (m : ChatMessage) → IsWellFormed s → IsWellFormed (insert_message s m)
unfolding insert_message
insert_message-IsWellFormed s m w =
    if_cases IsWellFormed (contains s.removed_message_ids m.id) (λ _. w)
      (λ kept.
        if_cases IsWellFormed (has_message m.id s.messages) (λ _. w)
          (λ new. push-IsWellFormed s m kept new w))

pub apply_message-IsWellFormed :
    (s : LocalStore) (m : ChatMessage) → IsWellFormed s → IsWellFormed (apply_message s m)
unfolding apply_message
apply_message-IsWellFormed s m w =
    insert_message-IsWellFormed (settle_send s m.client_id m.thread_id) m
      (settle_send-IsWellFormed s m.client_id m.thread_id w)

-- What `retain` leaves has none of the entries that it drops.
has_message-retain :
    (id : ℕ) (xs : List ChatEntry)
    → has_message id (retain (λ e. not (opt_beq (entry_id e) (some id))) xs) ≡ false
unfolding has_message
has_message-retain id [] = refl
has_message-retain id (x ∷ xs) = ground (arith, has_message-retain id xs)

removed_after :
    (s : LocalStore) (id : ℕ)
    → IsWellFormed s
    → (j : ℕ) → contains (id ∷ s.removed_message_ids) j ≡ true
    → has_message j (retain (λ e. not (opt_beq (entry_id e) (some id))) s.messages) ≡ false
removed_after s id w j h = elim (Bool-cases (id == j)) [
  | inl e ↦ rw (← (==_iff id j).0 e) (has_message-retain id s.messages)
  | inr e ↦
      unfold has_message in
      any-retain (λ e. opt_beq (entry_id e) (some j)) _ s.messages (w.removed j (rw e at h))
]

pub remove_message-IsWellFormed :
    (s : LocalStore) (id : ℕ) → IsWellFormed s → IsWellFormed (remove_message s id)
unfolding remove_message
remove_message-IsWellFormed s id w = record {
  messages = Distinct-retain entry_id _ s.messages w.messages;
  removed = λ j h. removed_after s id w j h;
  threads = w.threads;
  turns = w.turns;
  activities = w.activities;
  streams = w.streams;
}

reset_store-IsWellFormed : (s : LocalStore) → IsWellFormed (reset_store s)
unfolding reset_store has_message
reset_store-IsWellFormed s = record {
  messages = tt;
  removed = λ id h. cc;
  threads = tt;
  turns = tt;
  activities = tt;
  streams = tt;
}

-- The snapshot's Threads replace the old ones.
pub apply_hello_ok-IsWellFormed :
    (s : LocalStore) (history : String) (threads : List Thread) (processes : List ProcessInfo)
    (version : String)
    → Distinct (λ (t : Thread). some t.id) threads
    → IsWellFormed s
    → IsWellFormed (apply_hello_ok s history threads processes version).0
unfolding apply_hello_ok
apply_hello_ok-IsWellFormed s history threads processes version d w = record {
  messages = base.messages;
  removed = base.removed;
  threads = d;
  turns = base.turns;
  activities = base.activities;
  streams = base.streams;
}
  where
    base : IsWellFormed (if history_changed s history then reset_store s else s)
    base =
        if_cases IsWellFormed (history_changed s history) (λ _. reset_store-IsWellFormed s) (λ _. w)

pub add_optimistic_send-IsWellFormed :
    (s : LocalStore) (p : PendingSend) → IsWellFormed s → IsWellFormed (add_optimistic_send s p)
unfolding add_optimistic_send has_message
add_optimistic_send-IsWellFormed s p w = record {
  messages = Distinct-push entry_id s.messages (pending p) w.messages refl;
  removed =
      λ id h. ground (arith, w.removed id h, taken-push entry_id (some id) s.messages (pending p));
  threads = w.threads;
  turns = w.turns;
  activities = w.activities;
  streams = w.streams;
}
