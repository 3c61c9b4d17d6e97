-- ===== src/Client/Delivery/Confirm.antt =====
-- An optimistic send and its confirmation
-- (crates/hirsel-client-core/src/client.rs and store.rs).
use hirsel.Base.{
  ℕ, String, ◌≡◌, refl, ◌∙◌, ap, true, false, not, Bool, Option, none, some, List, [], ◌∷◌, ◌++◌,
  arith, ==_iff, opt_beq, any, retain, contains, lookup, lookup-remove, remove, nat_eq, string_eq,
  insert, any-append, str_eq_iff,
}
use hirsel.Proto.{ChatMessage, Instant}
use hirsel.Client.Entry.{
  ChatEntry, entry_id, confirmed, pending, confirmed_of, PendingSend, PendingOp, send_message,
  SendThreadMessageRequest, new_send,
}
use hirsel.Client.Store.{
  LocalStore, has_message, settle_send, insert_message, apply_message, is_send_to, is_pending_of,
  has_history, add_optimistic_send,
}
use hirsel.Client.Inner.{ClientInner}
use hirsel.Client.Commands.{send_chat}

-- What `apply_message` settles, it leaves nothing to settle in.
settled :
    (s : LocalStore) (c : String) (t : ℕ)
    → is_send_to (lookup c (settle_send s (some c) t).pending_ops) t ≡ false
unfolding settle_send
settled s c t = ground (arith, lookup-remove c c s.pending_ops, str_eq_iff c c)

settle_send-idle :
    (s : LocalStore) (client_id : Option String) (t : ℕ) (m : ChatMessage)
    → let u = insert_message (settle_send s client_id t) m in settle_send u client_id t ≡ u
settle_send-idle s none t m = unfold settle_send in refl
settle_send-idle s (some c) t m =
    let h = settled s c t in unfold insert_message in unfold settle_send in ground arith

insert_message_twice :
    (s : LocalStore) (m : ChatMessage) → insert_message (insert_message s m) m ≡ insert_message s m
unfolding insert_message has_message
insert_message_twice s m = ground (
  arith,
  any-append (λ e. opt_beq (entry_id e) (some m.id)) s.messages (confirmed (confirmed_of m) ∷ []),
  ==_iff m.id m.id,
)

-- A message that arrives again changes nothing: the store after two copies of it is the store after
-- one.
pub apply_message_idempotent :
    (s : LocalStore) (m : ChatMessage) → apply_message (apply_message s m) m ≡ apply_message s m
unfolding apply_message
apply_message_idempotent s m =
    ap (λ u. insert_message u m) (settle_send-idle s m.client_id m.thread_id m)
    ∙ insert_message_twice (settle_send s m.client_id m.thread_id) m

-- No pending send of that identifier and Thread is in the list.
abbrev pub is_unsent : String → ℕ → List ChatEntry → Bool
is_unsent c t entries = not (any (is_pending_of c t) entries)

retain_none :
    (c : String) (t : ℕ) (entries : List ChatEntry) (p : ChatEntry)
    → is_unsent c t entries ≡ true
    → is_pending_of c t p ≡ true
    → retain (λ e. not (is_pending_of c t e)) (entries ++ p ∷ []) ≡ entries
retain_none c t [] p h k = ground arith
retain_none c t (e ∷ rest) p h k = ground (arith, retain_none c t rest p)

lookup-remove_self :
    {V : Type 0} (c : String) (ops : List (String × V)) → lookup c (remove c ops) ≡ none
lookup-remove_self c ops = ground (arith, lookup-remove c c ops, str_eq_iff c c)

is_pending_self : (p : PendingSend) → is_pending_of p.client_id p.thread_id (pending p) ≡ true
is_pending_self p = ground (arith, str_eq_iff p.client_id p.client_id)

is_send_self :
    (c : String) (t : ℕ) (ops : List (String × PendingOp))
    → is_send_to (lookup c (insert c (send_message t) ops)) t ≡ true
is_send_self c t ops = ground (arith, str_eq_iff c c)

-- The confirmation of an optimistic send takes both traces of it out of the store.
settle_optimistic :
    (s : LocalStore) (p : PendingSend)
    → is_unsent p.client_id p.thread_id s.messages ≡ true
    → let u = settle_send (add_optimistic_send s p) (some p.client_id) p.thread_id in
      (u.messages ≡ s.messages)
      × (u.removed_message_ids ≡ s.removed_message_ids)
      × (lookup p.client_id u.pending_ops ≡ none)
unfolding settle_send add_optimistic_send
settle_optimistic s p unsent =
    let back =
      retain_none p.client_id p.thread_id s.messages (pending p) unsent (is_pending_self p) in
    rw (is_send_self p.client_id p.thread_id s.pending_ops)
      (back, refl, lookup-remove_self p.client_id (add_optimistic_send s p).pending_ops)

insert_new :
    (s : LocalStore) (m : ChatMessage)
    → contains s.removed_message_ids m.id ≡ false
    → has_message m.id s.messages ≡ false
    → insert_message s m ≡ record s { messages = s.messages ++ confirmed (confirmed_of m) ∷ [] }
unfolding insert_message
insert_new s m kept new = rw kept (rw new refl)

apply_message-split :
    (s : LocalStore) (m : ChatMessage)
    → apply_message s m ≡ insert_message (settle_send s m.client_id m.thread_id) m
unfolding apply_message
apply_message-split s m = refl

apply_message-confirmed :
    (s : LocalStore) (p : PendingSend) (m : ChatMessage)
    → is_unsent p.client_id p.thread_id s.messages ≡ true
    → m.client_id ≡ some p.client_id
    → m.thread_id ≡ p.thread_id
    → contains s.removed_message_ids m.id ≡ false
    → has_message m.id s.messages ≡ false
    → let u = apply_message (add_optimistic_send s p) m in
      (u.messages ≡ s.messages ++ confirmed (confirmed_of m) ∷ [])
      × (lookup p.client_id u.pending_ops ≡ none)
apply_message-confirmed s p m unsent e et kept new =
    let (back, same, gone) = settle_optimistic s p unsent in
    let t = add_optimistic_send s p in
    let u = settle_send t (some p.client_id) p.thread_id in
    let same_args =
      ap (λ c. settle_send t c m.thread_id) e ∙ ap (settle_send t (some p.client_id)) et in
    let put =
      apply_message-split t m
      ∙ ap (λ v. insert_message v m) same_args
      ∙ insert_new u m (rw same kept) (rw back new) in
    (
      ap (λ v. v.messages) put ∙ ap (λ ms. ms ++ confirmed (confirmed_of m) ∷ []) back,
      ap (λ v. lookup p.client_id v.pending_ops) put ∙ gone,
    )

send_chat-store :
    (c : ClientInner) (r : SendThreadMessageRequest) (fresh : String) (now : Instant)
    → has_history c.store r.history_id ≡ true
    → (send_chat c r fresh now).0.store ≡ add_optimistic_send c.store (new_send r fresh now)
unfolding send_chat
send_chat-store c r fresh now h = rw h refl

-- When the client accepts a send for the current history under an identifier that no pending
-- send of the Thread has, and the message that confirms it is neither shown nor removed, then
-- the conversation becomes the one before the send with the confirmed message at its end, and
-- the send is no longer awaited.
pub send_chat-confirmed :
    (c : ClientInner) (r : SendThreadMessageRequest) (fresh : String) (now : Instant)
    (m : ChatMessage)
    → has_history c.store r.history_id ≡ true
    → is_unsent fresh r.thread_id c.store.messages ≡ true
    → m.client_id ≡ some fresh
    → m.thread_id ≡ r.thread_id
    → contains c.store.removed_message_ids m.id ≡ false
    → has_message m.id c.store.messages ≡ false
    → let s = apply_message (send_chat c r fresh now).0.store m in
      (s.messages ≡ c.store.messages ++ confirmed (confirmed_of m) ∷ [])
      × (lookup fresh s.pending_ops ≡ none)
send_chat-confirmed c r fresh now m h unsent e et kept new =
    rw (send_chat-store c r fresh now h)
      (apply_message-confirmed c.store (new_send r fresh now) m unsent e et kept new)
