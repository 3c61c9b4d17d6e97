-- ===== src/Proto/Frames.antt =====
-- crates/hirsel-proto/src/client.rs and host.rs: the frames that the client core reads or writes.
use hirsel.Base.{ℕ, String, Option, List}
use hirsel.Proto.Chats.{Json, ChatMessage}
use hirsel.Proto.Turns.{AgentActivityState, TurnEventKind, ProcessInfo}
use hirsel.Proto.Threads.{
  ThreadKind, Thread, ThreadDetail, ThreadRelatedTarget, ThreadRelatedItem, ThreadGrant,
  ThreadActivity, ThreadTurn,
}

pub data SendMode : Type 0 where
  send next_turn : SendMode

pub data PushPlatform : Type 0 where
  android web ios : PushPlatform

pub data HelloAuth : Type 0 where
  static_token device_token pairing_code : String → HelloAuth

-- The other frames of `ClientToHost` are never built by the client core.
pub data ClientToHost : Type 0 where
  hello : HelloAuth → ClientToHost
  -- client_id, history_id, title, kind, parent_thread_id
  create_thread : String → String → String → ThreadKind → Option ℕ → ClientToHost
  -- client_id, thread_id, before_id
  open_thread : String → ℕ → Option ℕ → ClientToHost
  -- client_id, history_id, thread_id, target, title
  add_thread_related : String → String → ℕ → ThreadRelatedTarget → Option String → ClientToHost
  -- client_id, history_id, thread_id, item_id
  remove_thread_related : String → String → ℕ → ℕ → ClientToHost
  -- client_id, history_id, thread_id, body, attachments, mentions, mode, artifact_ids
  send_thread_message :
      String → String → ℕ → String → List String → List ℕ → SendMode → List ℕ → ClientToHost
  -- client_id, history_id, thread_id, action, data, expected_revision
  thread_action : String → String → ℕ → String → Json → Option ℕ → ClientToHost
  -- history_id, thread_id
  cancel_turn : String → ℕ → ClientToHost
  register_push_token : PushPlatform → String → ClientToHost

-- `hello_ok` has the four fields that the client core reads. `ignored` stands for the frames that
-- fall to its catch-all arm, by their tag.
pub data HostToClient : Type 0 where
  paired : String → HostToClient
  -- history_id, threads, processes, host_version
  hello_ok : String → List Thread → List ProcessInfo → String → HostToClient
  msg : ChatMessage → HostToClient
  process_upsert : ProcessInfo → HostToClient
  -- thread_id, id
  process_removed : ℕ → String → HostToClient
  -- thread_id, turn_id, seq, event
  turn_event : ℕ → ℕ → ℕ → TurnEventKind → HostToClient
  msg_removed : ℕ → HostToClient
  -- thread_id, turn_id, state, text
  agent_activity : ℕ → ℕ → AgentActivityState → Option String → HostToClient
  thread_upsert : Thread → HostToClient
  -- client_id, detail
  thread_opened : String → ThreadDetail → HostToClient
  -- client_id, history_id, thread_id, revision, items
  thread_related_changed : Option String → String → ℕ → ℕ → List ThreadRelatedItem → HostToClient
  -- client_id, history_id, thread_id, revision, grants
  thread_grants_changed : Option String → String → ℕ → ℕ → List ThreadGrant → HostToClient
  -- client_id, thread
  thread_created : String → Thread → HostToClient
  -- client_id, history_id, thread_id
  thread_action_applied : String → String → ℕ → HostToClient
  thread_activity : ThreadActivity → HostToClient
  thread_turn : ThreadTurn → HostToClient
  -- detail, client_id
  error : String → Option String → HostToClient
  ignored : String → HostToClient
