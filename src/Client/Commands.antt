-- ===== src/Client/Commands.antt =====
-- The methods of `Client` in crates/hirsel-client-core/src/client.rs.
-- `fresh` is the new UUID, `now` the clock's reading; the result is the new state, what is told to
-- the observer and to the transport task, and what the method returns.
use hirsel.Base.{
  ℕ, String, Bool, true, false, ◌&&◌, Option, none, some, List, [], ◌∷◌, ◌++◌, ◌==◌, str_eq,
  if◌then◌else◌, any,
}
use hirsel.Proto.{
  Json, Instant, ClientToHost, ThreadKind, ThreadRelatedTarget, PushPlatform, android, web, ios,
}
use hirsel.Client.Entry.{
  ConnectionState, connecting, online, offline, ChatEntry, confirmed, pending,
  SendThreadMessageRequest, new_send, PendingOp, send_message, create_thread, open_thread,
  thread_action, add_thread_related, remove_thread_related,
}
use hirsel.Client.Store.{LocalStore, has_history, add_optimistic_send, track_pending}
use hirsel.Client.Inner.{
  send_pending, retry, Output, state_changed, ClientInner, signal, push_frame,
}

abbrev pub Done : Type 0 → Type 0
Done A = ClientInner × List Output × A

-- `queue_frame`
abbrev pub queue_frame : {A : Type 0} → ClientInner → ClientToHost → A → Done A
queue_frame c frame a = (push_frame c frame, signal c send_pending, a)

-- `track_pending` on the client's store
abbrev pub track : ClientInner → String → PendingOp → ClientInner
track c id op = record c { store = track_pending c.store id op }

unfoldable pub send_chat :
    ClientInner → SendThreadMessageRequest → String → Instant → Done (Option String)
send_chat c r fresh now =
    if has_history c.store r.history_id
    then (
      record c { store = add_optimistic_send c.store (new_send r fresh now) },
      state_changed ∷ signal c send_pending,
      some fresh,
    )
    else (c, [], none)

-- The loop of `retry_send`: the first send of that identifier loses its error.
unfoldable pub clear_error : String → List ChatEntry → List ChatEntry × Option ℕ
clear_error id [] = ([], none)
clear_error id (confirmed m ∷ rest) =
    let (rest', found) = clear_error id rest in (confirmed m ∷ rest', found)
clear_error id (pending p ∷ rest) =
    let (rest', found) = clear_error id rest in
    if str_eq p.client_id id
    then (pending (record p { error = none }) ∷ rest, some p.thread_id)
    else (pending p ∷ rest', found)

abbrev track_send : LocalStore → String → Option ℕ → LocalStore
track_send s id none = s
track_send s id (some thread_id) = track_pending s id (send_message thread_id)

unfoldable pub retry_send : ClientInner → String → ClientInner × List Output
unfolding clear_error
retry_send c id =
    let (messages, thread_id) = clear_error id c.store.messages in
    (
      record c { store = track_send (record c.store { messages = messages }) id thread_id },
      signal c (retry id) ++ state_changed ∷ [],
    )

unfoldable pub request_create :
    ClientInner → String → String → ThreadKind → Option ℕ → String → Done (Option String)
request_create c history title kind parent fresh =
    if has_history c.store history
    then (
      track c fresh (create_thread history title kind parent),
      signal c send_pending,
      some fresh,
    )
    else (c, [], none)

unfoldable pub request_open : ClientInner → ℕ → Option ℕ → String → Done String
request_open c thread_id before fresh =
    queue_frame (track c fresh (open_thread thread_id))
      (ClientToHost.open_thread fresh thread_id before) fresh

abbrev pub is_connected : ConnectionState → Bool
is_connected online = true
is_connected connecting = false
is_connected offline = false

unfoldable pub open_related_thread :
    ClientInner → ThreadRelatedTarget → String → Done (Option String)
open_related_thread c (ThreadRelatedTarget.url _) fresh = (c, [], none)
open_related_thread c (ThreadRelatedTarget.thread history thread_id) fresh =
    if is_connected c.store.connection
      && has_history c.store history
      && any (λ t. t.id == thread_id) c.store.threads
    then queue_frame (track c fresh (open_thread thread_id))
        (ClientToHost.open_thread fresh thread_id none) (some fresh)
    else (c, [], none)

unfoldable pub request_action :
    ClientInner → String → ℕ → String → Json → Option ℕ → String → Done (Option String)
request_action c history thread_id action payload expected fresh =
    if has_history c.store history
    then queue_frame (track c fresh (thread_action history thread_id))
        (ClientToHost.thread_action fresh history thread_id action payload expected) (some fresh)
    else (c, [], none)

unfoldable pub add_related :
    ClientInner → String → ℕ → ThreadRelatedTarget → Option String → String → Done String
add_related c history thread_id target title fresh =
    queue_frame (track c fresh (add_thread_related history thread_id))
      (ClientToHost.add_thread_related fresh history thread_id target title) fresh

unfoldable pub remove_related : ClientInner → String → ℕ → ℕ → String → Done String
remove_related c history thread_id item_id fresh =
    queue_frame (track c fresh (remove_thread_related history thread_id))
      (ClientToHost.remove_thread_related fresh history thread_id item_id) fresh

-- An edit of the icon or the showcase, fenced by history, connection and revision.
unfoldable pub update_thread_presentation :
    ClientInner → String → ℕ → String → Json → ℕ → String → Done (Option String)
update_thread_presentation c history thread_id action payload revision fresh =
    if has_history c.store history
      && is_connected c.store.connection
      && any (λ t. t.id == thread_id && t.revision == revision) c.store.threads
    then queue_frame (track c fresh (thread_action history thread_id))
        (ClientToHost.thread_action fresh history thread_id action payload (some revision))
        (some fresh)
    else (c, [], none)

unfoldable pub cancel_turn : ClientInner → String → ℕ → Done Bool
cancel_turn c history thread_id =
    if has_history c.store history
    then queue_frame c (ClientToHost.cancel_turn history thread_id) true
    else (c, [], false)

unfoldable pub parse_platform : String → Option PushPlatform
parse_platform name =
    if str_eq name "android"
    then some android
    else if str_eq name "web"
    then some web
    else if str_eq name "ios"
    then some ios
    else none

pub data PushError : Type 0 where
  unsupported_push_platform : String → PushError
  empty_push_token : PushError

-- `is_blank` is `token.trim().is_empty()`.
unfoldable pub register_push_token :
    (String → Bool) → ClientInner → String → String → Done (Option PushError)
unfolding parse_platform
register_push_token is_blank c name token = elim (parse_platform name) [
  | none ↦ (c, [], some (unsupported_push_platform name))
  | some platform ↦
      if is_blank token
      then (c, [], some empty_push_token)
      else queue_frame c (ClientToHost.register_push_token platform token) none
]
