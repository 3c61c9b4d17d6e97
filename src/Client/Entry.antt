-- ===== src/Client/Entry.antt =====
-- The data types of crates/hirsel-client-core/src/store.rs.
use hirsel.Base.{ℕ, String, Bool, false, Option, none, some, List, []}
use hirsel.Proto.{
  Instant, ChatAuthor, Blob, ToolCallSummary, MessageOrigin, ChatMessage, TurnEventKind,
  AgentActivityState, ThreadKind,
}

pub data ConnectionState : Type 0 where
  connecting online offline : ConnectionState

pub record ConfirmedMessage : Type 0 where
  pub origin : Option MessageOrigin
  pub thread_id : ℕ
  pub client_id : Option String
  pub mentions : List ℕ
  pub artifact_ids : List ℕ
  pub id : ℕ
  pub author : ChatAuthor
  pub body : String
  pub reply_to : Option ℕ
  pub timestamp : Instant
  pub attachments : List Blob
  pub tool_calls : List ToolCallSummary

pub record PendingSend : Type 0 where
  pub error : Option String
  pub history_id : String
  pub thread_id : ℕ
  pub attachments : List String
  pub client_id : String
  pub body : String
  pub mentions : List ℕ
  pub artifact_ids : List ℕ
  pub timestamp : Instant

pub data ChatEntry : Type 0 where
  confirmed : ConfirmedMessage → ChatEntry
  pending : PendingSend → ChatEntry

-- ChatEntry::id
abbrev pub entry_id : ChatEntry → Option ℕ
entry_id (confirmed m) = some m.id
entry_id (pending p) = none

-- From<ChatMessage> for ConfirmedMessage; an instant is its RFC 3339 text already.
abbrev pub confirmed_of : ChatMessage → ConfirmedMessage
confirmed_of m = record {
  origin = m.origin;
  thread_id = m.thread_id;
  client_id = m.client_id;
  mentions = m.mentions;
  artifact_ids = m.artifact_ids;
  id = m.id;
  author = m.author;
  body = m.body;
  reply_to = m.ref;
  timestamp = m.ts;
  attachments = m.attachments;
  tool_calls = m.tool_calls;
}

-- client.rs, SendThreadMessageRequest
pub record SendThreadMessageRequest : Type 0 where
  pub history_id : String
  pub thread_id : ℕ
  pub attachments : List String
  pub body : String
  pub mentions : List ℕ
  pub artifact_ids : List ℕ

-- PendingSend::new; `now` is the clock's reading.
abbrev pub new_send : SendThreadMessageRequest → String → Instant → PendingSend
new_send r client_id now = record {
  error = none;
  history_id = r.history_id;
  thread_id = r.thread_id;
  attachments = r.attachments;
  client_id = client_id;
  body = r.body;
  mentions = r.mentions;
  artifact_ids = r.artifact_ids;
  timestamp = now;
}

pub record AgentActivity : Type 0 where
  pub state : AgentActivityState
  pub text : Option String

abbrev pub default_activity : AgentActivity
default_activity = record { state = AgentActivityState.idle; text = none }

pub data PendingOp : Type 0 where
  -- thread_id
  send_message : ℕ → PendingOp
  -- history_id, title, kind, parent_thread_id
  create_thread : String → String → ThreadKind → Option ℕ → PendingOp
  -- thread_id
  open_thread : ℕ → PendingOp
  -- history_id, thread_id
  thread_action add_thread_related remove_thread_related : String → ℕ → PendingOp

pub record CreatedThread : Type 0 where
  pub client_id : String
  pub thread_id : ℕ

pub record ThreadStream : Type 0 where
  pub thread_id : ℕ
  pub turn_id : ℕ
  pub last_seq : Option ℕ
  pub events : List TurnEventKind
  pub activity : AgentActivity
  pub finished : Bool

-- ThreadStream::new
abbrev pub new_stream : ℕ → ℕ → ThreadStream
new_stream thread_id turn_id = record {
  thread_id = thread_id;
  turn_id = turn_id;
  last_seq = none;
  events = [];
  activity = default_activity;
  finished = false;
}

-- The client's own `ThreadBrief`, with the Thread that it belongs to.
pub record StoredBrief : Type 0 where
  pub thread_id : ℕ
  pub text : String
  pub artifact_ids : List ℕ
