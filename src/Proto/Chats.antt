-- ===== src/Proto/Chats.antt =====
-- crates/hirsel-proto/src/chat.rs
use hirsel.Base.{ℕ, String, Bool, Option, List}

-- A JSON value, as its serialised text.
abbrev pub Json : Type 0
Json = String

-- A `DateTime<Utc>`, as its RFC 3339 text.
abbrev pub Instant : Type 0
Instant = String

pub data ChatAuthor : Type 0 where
  owner agent : ChatAuthor

pub record Blob : Type 0 where
  pub id : String
  pub name : String
  pub mime : String
  pub size : ℕ  -- u64

pub record ToolCallSummary : Type 0 where
  pub id : String
  pub name : String
  pub succeeded : Bool  -- the field `ok`

pub data ProcessOutcome : Type 0 where
  completed failed cancelled woke : ProcessOutcome

pub data TriggerLabel : Type 0 where
  -- label, in_secs, every_secs, at
  timer : String → Option ℕ → Option ℕ → Option String → TriggerLabel
  -- expr, tz
  cron : String → Option String → TriggerLabel
  -- event, thread_id, title
  thread : String → ℕ → String → TriggerLabel
  -- key
  other : String → TriggerLabel

pub data MessageOrigin : Type 0 where
  -- process_id, name, trigger, subscription_key, outcome, result, error
  process :
      String
      → String
      → TriggerLabel
      → Option String
      → ProcessOutcome
      → Json
      → Option String
      → MessageOrigin

pub record ChatMessage : Type 0 where
  pub origin : Option MessageOrigin
  pub artifact_ids : List ℕ
  pub client_id : Option String
  pub thread_id : ℕ  -- u64, as every id below
  pub mentions : List ℕ
  pub id : ℕ
  pub author : ChatAuthor
  pub body : String
  pub ref : Option ℕ
  pub ts : Instant
  pub attachments : List Blob
  pub tool_calls : List ToolCallSummary
