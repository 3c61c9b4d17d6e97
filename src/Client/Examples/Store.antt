-- ===== src/Client/Examples/Store.antt =====
-- Runs of the client's store (crates/hirsel-client-core/src/store.rs and transport.rs).
use hirsel.Base.{List, ◌≤◌, ◌≡◌, refl, false, none, some, [], ◌∷◌, ◌++◌, arith, lookup, string_eq}
use hirsel.Proto.{
  HostToClient, ThreadTurnState, TurnEventKind, ThreadGrant, ThreadGrantTarget, ThreadGrantSource,
  ThreadRelatedItem, ThreadRelatedTarget, Thread, is_terminal,
}
use hirsel.Client.Entry.{confirmed, confirmed_of}
use hirsel.Client.Store.{default_store, has_message, has_history, apply_message, apply_delta}
use hirsel.Client.Dispatch.{handle_server_message}
use hirsel.Client.Commands.{send_chat}
use hirsel.Client.Session.{on_message, start_session}
use hirsel.Client.WellFormed.{
  Happening, calling, event, connecting, ClientCall, live, live-IsWellFormed, IsWellFormed,
  handle_server_message-IsWellFormed,
}
use hirsel.Client.Progress.{
  receive_all, removed_stays_hidden, finished_turn_is_final, revision_never_falls, find_turn,
  find_thread,
}
use hirsel.Client.Delivery.{apply_message_idempotent, send_chat-confirmed, drafts_survive, drafts}
use hirsel.Client.Streams.{apply_delta_late}
use hirsel.Client.Examples.Data.{
  message, turn, thread, seen_store, client, no_uuid, world, seen_store-IsWellFormed, frames,
  request,
}

handle_server_message-IsWellFormed_example :
    IsWellFormed (handle_server_message client no_uuid (HostToClient.msg (message 8 none))).0.store
handle_server_message-IsWellFormed_example =
    handle_server_message-IsWellFormed client no_uuid (HostToClient.msg (message 8 none)) tt
      seen_store-IsWellFormed

removed_stays_hidden_example :
    has_message 7
      (receive_all client ((λ _. "", HostToClient.msg_removed 7) ∷ frames)).store.messages
    ≡ false
removed_stays_hidden_example =
    removed_stays_hidden client "h" frames 7 seen_store-IsWellFormed refl (tt, (tt, (tt, (tt, tt))))
      (tt, (tt, (tt, (tt, tt))))

finished_turn_is_final_example :
    find_turn 3 (receive_all client frames).store.turns ≡ some (turn ThreadTurnState.completed)
unfolding is_terminal
finished_turn_is_final_example =
    finished_turn_is_final client "h" frames 3 (turn ThreadTurnState.completed) refl
      (tt, (tt, (tt, (tt, tt)))) refl refl

revision_never_falls_example :
    (n : Thread) × (find_thread 1 (receive_all client frames).store.threads ≡ some n)
    × (4 ≤ n.revision)
revision_never_falls_example =
    revision_never_falls client frames 1 (thread 4) (tt, (tt, (tt, (tt, tt)))) refl

apply_message_idempotent_example :
    apply_message (apply_message seen_store (message 8 none)) (message 8 none)
    ≡ apply_message seen_store (message 8 none)
apply_message_idempotent_example = apply_message_idempotent seen_store (message 8 none)

send_chat-confirmed_example :
    let s =
      apply_message
        (send_chat client request "c1" "2026-01-01T00:00:01Z").0.store
        (message 8 (some "c1")) in
    (s.messages ≡ seen_store.messages ++ confirmed (confirmed_of (message 8 (some "c1"))) ∷ [])
    × (lookup "c1" s.pending_ops ≡ none)
unfolding has_history has_message
send_chat-confirmed_example =
    send_chat-confirmed client request "c1" "2026-01-01T00:00:01Z" (message 8 (some "c1")) refl refl
      refl refl refl refl

drafts_survive_example :
    drafts
      (handle_server_message client no_uuid (HostToClient.hello_ok "other" [] [] "1.0")).0.store
    ≡ drafts seen_store
drafts_survive_example =
    drafts_survive client no_uuid (HostToClient.hello_ok "other" [] [] "1.0") refl

apply_delta_late_example :
    let t = apply_delta seen_store 1 9 5 (TurnEventKind.prose "good" none) in
    apply_delta t 1 9 4 (TurnEventKind.prose "late" none) ≡ t
apply_delta_late_example =
    apply_delta_late seen_store 1 9 5 4 (TurnEventKind.prose "good" none)
      (TurnEventKind.prose "late" none) (omega arith)

abbrev grant_to : ThreadGrantTarget → ThreadGrant
grant_to target = record {
  thread_id = 1;
  target = target;
  granted_by = ThreadGrantSource.owner;
  granted_at = "2026-01-01T00:00:00Z";
  note = none;
}

abbrev item : ThreadRelatedItem
item = record {
  id = 5;
  thread_id = 1;
  target = ThreadRelatedTarget.url "https://example.org";
  title = none;
  created_at = "2026-01-01T00:00:00Z";
}

-- A message is sent, the session starts anew, and the host greets it with another history.
abbrev happenings : List Happening
happenings =
    event world (on_message (HostToClient.hello_ok "h" (thread 4 ∷ []) [] "1.0"))
    ∷ calling (ClientCall.send request "c1" "2026-01-01T00:00:01Z")
    ∷ connecting
    ∷ event world (on_message (HostToClient.hello_ok "other" [] [] "1.0"))
    ∷ []

live-IsWellFormed_example :
    IsWellFormed
      (live (start_session (record client { store = default_store })) happenings).client.store
live-IsWellFormed_example =
    live-IsWellFormed (record client { store = default_store }) happenings refl
      ((refl, tt), (tt, (tt, (tt, tt))))
