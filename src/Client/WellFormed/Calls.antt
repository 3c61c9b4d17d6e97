-- ===== src/Client/WellFormed/Calls.antt =====
-- The methods of the client keep the invariant (crates/hirsel-client-core/src/client.rs).
use hirsel.Base.{
  ℕ, String, ◌≡◌, refl, ◌∙◌, Bool, Option, none, some, List, [], ◌∷◌, arith, if_cases, Distinct,
  taken, str_eq,
}
use hirsel.Proto.{Json, Instant, ThreadKind, ThreadRelatedTarget}
use hirsel.Client.Entry.{
  ChatEntry, confirmed, pending, entry_id, SendThreadMessageRequest, new_send,
}
use hirsel.Client.Store.{has_message, has_history, track_pending}
use hirsel.Client.Inner.{ClientInner}
use hirsel.Client.Commands.{
  send_chat, clear_error, retry_send, request_create, request_open, open_related_thread,
  request_action, add_related, remove_related, update_thread_presentation, cancel_turn,
  register_push_token, Done,
}
use hirsel.Client.WellFormed.Defs.{IsWellFormed}
use hirsel.Client.WellFormed.Messages.{add_optimistic_send-IsWellFormed}
use hirsel.Client.WellFormed.Detail.{SameShown, same-IsWellFormed}

-- A call of the application, with the identifier and the time that it takes.
pub data ClientCall : Type 0 where
  send : SendThreadMessageRequest → String → Instant → ClientCall
  retry_one : String → ClientCall
  create : String → String → ThreadKind → Option ℕ → String → ClientCall
  open_one : ℕ → Option ℕ → String → ClientCall
  open_related : ThreadRelatedTarget → String → ClientCall
  act : String → ℕ → String → Json → Option ℕ → String → ClientCall
  relate : String → ℕ → ThreadRelatedTarget → Option String → String → ClientCall
  unrelate : String → ℕ → ℕ → String → ClientCall
  present : String → ℕ → String → Json → ℕ → String → ClientCall
  cancel : String → ℕ → ClientCall
  register : (String → Bool) → String → String → ClientCall

unfoldable pub call : ClientInner → ClientCall → ClientInner
call c (ClientCall.send r fresh now) = (send_chat c r fresh now).0
call c (ClientCall.retry_one id) = (retry_send c id).0
call c (ClientCall.create h title kind parent fresh) =
    (request_create c h title kind parent fresh).0
call c (ClientCall.open_one t before fresh) = (request_open c t before fresh).0
call c (ClientCall.open_related target fresh) = (open_related_thread c target fresh).0
call c (ClientCall.act h t action payload expected fresh) =
    (request_action c h t action payload expected fresh).0
call c (ClientCall.relate h t target title fresh) = (add_related c h t target title fresh).0
call c (ClientCall.unrelate h t item fresh) = (remove_related c h t item fresh).0
call c (ClientCall.present h t action payload revision fresh) =
    (update_thread_presentation c h t action payload revision fresh).0
call c (ClientCall.cancel h t) = (cancel_turn c h t).0
call c (ClientCall.register is_blank name token) = (register_push_token is_blank c name token).0

taken-clear_error :
    (id : String) (k : Option ℕ) (xs : List ChatEntry)
    → taken entry_id k (clear_error id xs).0 ≡ taken entry_id k xs
unfolding clear_error
taken-clear_error id none xs = refl
taken-clear_error id (some k) [] = refl
taken-clear_error id (some k) (confirmed m ∷ xs) = ground (arith, taken-clear_error id (some k) xs)
taken-clear_error id (some k) (pending p ∷ xs) = ground (arith, taken-clear_error id (some k) xs)

Distinct-clear_error :
    (id : String) (xs : List ChatEntry)
    → Distinct entry_id xs
    → Distinct entry_id (clear_error id xs).0
unfolding clear_error
Distinct-clear_error id [] d = tt
Distinct-clear_error id (confirmed m ∷ xs) d =
    (taken-clear_error id (some m.id) xs ∙ d.0, Distinct-clear_error id xs d.1)
Distinct-clear_error id (pending p ∷ xs) d =
    if_cases (λ (r : List ChatEntry × Option ℕ). Distinct entry_id r.0) (str_eq p.client_id id)
      (λ _. (refl, d.1)) (λ _. (refl, Distinct-clear_error id xs d.1))

retry_send-IsWellFormed :
    (c : ClientInner) (id : String) → IsWellFormed c.store → IsWellFormed (retry_send c id).0.store
unfolding retry_send track_pending has_message
retry_send-IsWellFormed c id w =
    let xs = c.store.messages in
    let tracked : SameShown (record c.store { messages = (clear_error id xs).0 })
        (retry_send c id).0.store =
      ground arith in
    same-IsWellFormed tracked (record {
      messages = Distinct-clear_error id xs w.messages;
      removed = λ j h. taken-clear_error id (some j) xs ∙ w.removed j h;
      threads = w.threads;
      turns = w.turns;
      activities = w.activities;
      streams = w.streams;
    })

send_chat-IsWellFormed :
    (c : ClientInner) (r : SendThreadMessageRequest) (fresh : String) (now : Instant)
    → IsWellFormed c.store
    → IsWellFormed (send_chat c r fresh now).0.store
unfolding send_chat
send_chat-IsWellFormed c r fresh now w =
    if_cases (λ (d : Done (Option String)). IsWellFormed d.0.store)
      (has_history c.store r.history_id)
      (λ _. add_optimistic_send-IsWellFormed c.store (new_send r fresh now) w) (λ _. w)

-- Every call keeps the store well formed.
pub call-IsWellFormed :
    (c : ClientInner) (k : ClientCall) → IsWellFormed c.store → IsWellFormed (call c k).store
unfolding call request_create request_open open_related_thread request_action add_related
    remove_related update_thread_presentation cancel_turn register_push_token track_pending
call-IsWellFormed c (ClientCall.send r fresh now) w = send_chat-IsWellFormed c r fresh now w
call-IsWellFormed c (ClientCall.retry_one id) w = retry_send-IsWellFormed c id w
call-IsWellFormed c (ClientCall.create h title kind parent fresh) w =
    same-IsWellFormed {s = c.store} (ground arith) w
call-IsWellFormed c (ClientCall.open_one t before fresh) w =
    same-IsWellFormed {s = c.store} (ground arith) w
call-IsWellFormed c (ClientCall.open_related (ThreadRelatedTarget.url u) fresh) w = w
call-IsWellFormed c (ClientCall.open_related (ThreadRelatedTarget.thread h t) fresh) w =
    same-IsWellFormed {s = c.store} (ground arith) w
call-IsWellFormed c (ClientCall.act h t action payload expected fresh) w =
    same-IsWellFormed {s = c.store} (ground arith) w
call-IsWellFormed c (ClientCall.relate h t target title fresh) w =
    same-IsWellFormed {s = c.store} (ground arith) w
call-IsWellFormed c (ClientCall.unrelate h t item fresh) w =
    same-IsWellFormed {s = c.store} (ground arith) w
call-IsWellFormed c (ClientCall.present h t action payload revision fresh) w =
    same-IsWellFormed {s = c.store} (ground arith) w
call-IsWellFormed c (ClientCall.cancel h t) w = same-IsWellFormed {s = c.store} (ground arith) w
call-IsWellFormed c (ClientCall.register is_blank name token) w =
    same-IsWellFormed {s = c.store} (ground arith) w
