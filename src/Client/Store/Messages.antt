-- ===== src/Client/Store/Messages.antt =====
-- store.rs: the conversation, the operations that await an answer, and the hello snapshot.
use hirsel.Base.{
  ℕ, String, nat_eq, string_eq, Bool, false, not, ◌&&◌, Option, none, some, List, [], ◌∷◌, ◌++◌,
  ◌==◌, str_eq, opt_beq, if◌then◌else◌, any, retain, lookup, insert, remove, contains,
}
use hirsel.Proto.{Thread, ProcessInfo, ChatMessage}
use hirsel.Client.Entry.{
  ChatEntry, confirmed, pending, entry_id, confirmed_of, PendingSend, PendingOp, send_message,
}
use hirsel.Client.Store.State.{LocalStore, default_store}

-- track_pending
unfoldable pub track_pending : LocalStore → String → PendingOp → LocalStore
track_pending s client_id op = record s { pending_ops = insert client_id op s.pending_ops }

unfoldable pub add_optimistic_send : LocalStore → PendingSend → LocalStore
add_optimistic_send s p = record s {
  pending_ops = insert p.client_id (send_message p.thread_id) s.pending_ops;
  messages = s.messages ++ pending p ∷ [];
}

-- The operation that is taken out, and the store without it.
unfoldable pub complete_pending : LocalStore → String → LocalStore × Option PendingOp
complete_pending s client_id =
    (record s { pending_ops = remove client_id s.pending_ops }, lookup client_id s.pending_ops)

-- pending_sends: what is still to be sent, oldest first.
unfoldable pub pending_sends : List ChatEntry → List PendingSend
pending_sends [] = []
pending_sends (confirmed m ∷ rest) = pending_sends rest
pending_sends (pending p ∷ rest) =
    let tail = pending_sends rest in elim p.error [ none ↦ p ∷ tail | some e ↦ tail ]

-- The text of each send without a confirmation, failed ones included.
unfoldable pub pending_bodies : List ChatEntry → List String
pending_bodies [] = []
pending_bodies (confirmed m ∷ rest) = pending_bodies rest
pending_bodies (pending p ∷ rest) = p.body ∷ pending_bodies rest

-- `self.history_id.as_ref().is_some_and(|old| old != &history_id)`
unfoldable pub history_changed : LocalStore → String → Bool
history_changed s history = elim s.history_id [ none ↦ false | some old ↦ not (str_eq old history) ]

-- The part of `apply_hello_ok` that a changed history runs.
unfoldable pub reset_store : LocalStore → LocalStore
reset_store s = record default_store {
  connection = s.connection;
  recovered_drafts = s.recovered_drafts ++ pending_bodies s.messages;
}

unfoldable pub apply_hello_ok :
    LocalStore → String → List Thread → List ProcessInfo → String → LocalStore × Bool
unfolding reset_store
apply_hello_ok s history threads processes version =
    let changed = history_changed s history in
    let base = if changed then reset_store s else s in
    (
      record base {
        history_id = some history;
        host_version = some version;
        threads = threads;
        processes = processes;
      },
      changed,
    )

-- `matches!(op, Some(PendingOp::SendMessage { thread_id }) if *thread_id == id)`
abbrev pub is_send_to : Option PendingOp → ℕ → Bool
is_send_to (some (send_message t)) id = t == id
is_send_to _ id = false

-- `matches!(entry, ChatEntry::Pending(send) if send.client_id == c && send.thread_id == t)`
abbrev pub is_pending_of : String → ℕ → ChatEntry → Bool
is_pending_of client_id thread_id (confirmed m) = false
is_pending_of client_id thread_id (pending p) =
    str_eq p.client_id client_id && p.thread_id == thread_id

-- The first part of `apply_message`: a confirmation settles the send that it answers.
unfoldable pub settle_send : LocalStore → Option String → ℕ → LocalStore
settle_send s none thread_id = s
settle_send s (some client_id) thread_id =
    if is_send_to (lookup client_id s.pending_ops) thread_id
    then record s {
      pending_ops = remove client_id s.pending_ops;
      messages = retain (λ e. not (is_pending_of client_id thread_id e)) s.messages;
    }
    else s

unfoldable pub has_message : ℕ → List ChatEntry → Bool
has_message id = any (λ e. opt_beq (entry_id e) (some id))

-- The second part of `apply_message`.
unfoldable pub insert_message : LocalStore → ChatMessage → LocalStore
insert_message s m =
    if contains s.removed_message_ids m.id
    then s
    else if has_message m.id s.messages
    then s
    else record s { messages = s.messages ++ confirmed (confirmed_of m) ∷ [] }

unfoldable pub apply_message : LocalStore → ChatMessage → LocalStore
unfolding settle_send insert_message
apply_message s m = insert_message (settle_send s m.client_id m.thread_id) m

unfoldable pub remove_message : LocalStore → ℕ → LocalStore
remove_message s id = record s {
  removed_message_ids = id ∷ s.removed_message_ids;
  messages = retain (λ e. not (opt_beq (entry_id e) (some id))) s.messages;
}
