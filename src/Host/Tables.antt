-- ===== src/Host/Tables.antt =====
-- The rows of crates/hirsel-host/src/storage (current.sql) that the host's operations on Threads,
-- reach, turns and requests read and write, with the columns that they use. A row's order in its
-- list is that of its table's key.
use hirsel.Base.{ℕ, String, Bool, Option, none, some, List, ◌==◌, any, find}
use hirsel.Proto.{
  Instant, Json, ThreadKind, ThreadGrantSource, ThreadAttention, ThreadTurnState, ChatAuthor,
}

-- threads
pub record ThreadRow : Type 0 where
  pub id : ℕ
  pub client_id : Option String
  pub kind : ThreadKind
  pub title : String
  pub description : String
  pub instrument : Option Json
  pub parent_thread_id : Option ℕ
  pub pinned_at : Option Instant
  pub showcased_artifact_id : Option ℕ
  pub attention : ThreadAttention
  pub settled_at : Option Instant
  pub archived_at : Option Instant
  pub snoozed_until : Option Instant
  pub read : Bool
  pub own_headline : String
  pub headline : String
  pub previous_headline : Option String
  pub headline_revision : ℕ
  pub last_seen_headline_revision : ℕ
  pub revision : ℕ
  pub updated_at : Instant

-- thread_grants; the source is the columns `granted_by` and `granted_by_thread_id`
pub record GrantRow : Type 0 where
  pub thread_id : ℕ
  pub target_thread_id : Option ℕ
  pub granted_by : ThreadGrantSource
  pub granted_at : Instant
  pub note : Option String

-- thread_turns
pub record TurnRow : Type 0 where
  pub id : ℕ
  pub thread_id : ℕ
  pub requester_thread_id : Option ℕ
  pub requester_turn_id : Option ℕ
  pub owner_message_id : Option ℕ
  pub agent_message_id : Option ℕ
  pub state : ThreadTurnState
  pub accepted_at : Instant
  pub started_at : Option Instant
  pub finished_at : Option Instant
  pub cancel_requested_at : Option Instant
  pub last_event_at : Option Instant

-- The payload of a request, with the members that storage reads or writes.
pub record RequestPayload : Type 0 where
  pub history_id : Option String
  pub thread_id : ℕ
  pub turn_id : Option ℕ
  pub body : String
  pub report_triggered : Bool

-- thread_requests
pub record RequestRow : Type 0 where
  pub id : ℕ
  pub client_id : String
  pub payload : RequestPayload

-- What an activity tells: the JSON objects that storage builds, or one that a caller gives.
pub data ActivityContent : Type 0 where
  nothing : ActivityContent
  given : Json → ActivityContent
  -- `reason`
  failure : String → ActivityContent
  -- child_thread_id, child_turn_id, requester_turn_id, status, summary, artifact_ids
  report : ℕ → ℕ → Option ℕ → String → String → List ℕ → ActivityContent
  -- requester_thread_id, requester_turn_id, brief
  delegation : ℕ → ℕ → String → ActivityContent
  -- archived, actor, thread_id, thread_kind, title, thread_count, cancelled_turns
  archive : Bool → String → ℕ → ThreadKind → String → ℕ → ℕ → ActivityContent

-- thread_activities; `content` is the column `data`
pub record ActivityRow : Type 0 where
  pub id : ℕ
  pub thread_id : ℕ
  pub turn_id : Option ℕ
  pub kind : String
  pub content : ActivityContent
  pub ts : Instant

-- chat_messages; `reference` is the column `ref`, `tool_calls` the JSON text
pub record MessageRow : Type 0 where
  pub id : ℕ
  pub thread_id : ℕ
  pub author : ChatAuthor
  pub body : String
  pub reference : Option ℕ
  pub ts : Instant
  pub tool_calls : Json
  pub mentions : List ℕ

-- thread_turn_events; `event` is its JSON text
pub record EventRow : Type 0 where
  pub turn_id : ℕ
  pub seq : ℕ
  pub event : Json

-- lash::ModelSpec: its id, and the rest as JSON text
pub record ModelSpec : Type 0 where
  pub id : String
  pub rest : Json

-- thread_execution.rs
pub data ThreadExecution : Type 0 where
  -- provider_id, model, cwd
  native : String → ModelSpec → String → ThreadExecution
  -- agent, model, variant, cwd
  cli : String → String → String → String → ThreadExecution

-- thread_execution_bindings
pub record BindingRow : Type 0 where
  pub history_id : String
  pub session_id : String
  pub execution_id : String
  pub turn_id : ℕ
  pub revoked : Bool

-- thread_process_sessions
pub record SessionRow : Type 0 where
  pub history_id : String
  pub session_id : String
  pub thread_id : ℕ

-- thread_process_authorities
pub record AuthorityRow : Type 0 where
  pub session_id : String
  pub process_id : String
  pub turn_id : ℕ

-- thread_reports
pub record ReportRow : Type 0 where
  pub child_turn_id : ℕ
  pub operation_id : String
  pub activity_id : ℕ

-- thread_delegations
pub record DelegationRow : Type 0 where
  pub requester_turn_id : ℕ
  pub operation_id : String
  pub payload : Json
  pub child_thread_id : ℕ
  pub child_turn_id : ℕ

-- meta.rs; the fingerprint is what invalidation writes
pub record SessionProfile : Type 0 where
  pub fingerprint : String
  pub tool_names : List String
  pub generation : ℕ

-- The tables. `thread_grant_receipts` pairs a client id with its payload; `history_id`, the session
-- profiles by Thread and the default execution are rows of `meta`; a link pairs the row with its
-- artifact, or the message with its blob. `blobs` and `artifacts` are ids. `last_…_id` is the sequence of an AUTOINCREMENT key.
pub record Db : Type 0 where
  pub threads : List ThreadRow
  pub thread_grants : List GrantRow
  pub thread_grant_receipts : List (String × String)
  pub history_id : String
  pub thread_turns : List TurnRow
  pub thread_requests : List RequestRow
  pub thread_activities : List ActivityRow
  pub thread_activity_keys : List (String × ℕ)
  pub chat_messages : List MessageRow
  pub message_artifacts : List (ℕ × ℕ)
  pub activity_artifacts : List (ℕ × ℕ)
  pub turn_output_artifacts : List (ℕ × ℕ)
  pub thread_execution_preferences : List (ℕ × ThreadExecution)
  pub thread_turn_execution : List (ℕ × ThreadExecution)
  pub native_execution_default : Option ThreadExecution
  pub thread_execution_bindings : List BindingRow
  pub thread_process_sessions : List SessionRow
  pub thread_process_authorities : List AuthorityRow
  pub thread_reports : List ReportRow
  pub thread_delegations : List DelegationRow
  pub session_profiles : List (ℕ × SessionProfile)
  pub client_messages : List (String × ℕ)
  pub thread_action_receipts : List (String × Json)
  pub message_attachments : List (ℕ × String)
  pub blobs : List String
  pub artifacts : List ℕ
  pub thread_turn_events : List EventRow
  pub last_thread_id : ℕ
  pub last_turn_id : ℕ
  pub last_request_id : ℕ
  pub last_activity_id : ℕ
  pub last_message_id : ℕ

pub data RefusedTarget : Type 0 where
  thread artifact : ℕ → RefusedTarget
  root : RefusedTarget

pub data RefusalReason : Type 0 where
  outside_grant owner_fence : RefusalReason

-- `OutsideGrant`, or the text of another error
pub data Error : Type 0 where
  refused : RefusedTarget → RefusalReason → Error
  -- `Thread #{target} is already inside this Thread's own subtree`
  inside_subtree : ℕ → Error
  failed : String → Error
  -- the fuel of a loop ran out (Host/Turns/Climb: it never does)
  unfinished : Error

pub data Result (A : Type 0) : Type 0 where
  ok : A → Result A
  err : Error → Result A

-- `?`
abbrev pub and_then : {A B : Type 0} → Result A → (A → Result B) → Result B
and_then (ok a) f = f a
and_then (err e) f = err e

infixl 5 ◌>>=◌ ◌>>◌
abbrev pub ◌>>=◌ : {A B : Type 0} → Result A → (A → Result B) → Result B
m >>= f = and_then m f

abbrev pub ◌>>◌ : {B : Type 0} → Result (Unit {0}) → Result B → Result B
m >> k = and_then m (λ _. k)

-- anyhow::ensure!
abbrev pub ensure : Bool → Error → Result Unit
ensure Bool.true e = ok tt
ensure Bool.false e = err e

abbrev pub find_thread_row : Db → ℕ → Option ThreadRow
find_thread_row db id = find (λ t. t.id == id) db.threads

abbrev pub has_thread : Db → ℕ → Bool
has_thread db id = any (λ t. t.id == id) db.threads

-- `get` of a missing row
abbrev pub no_rows : {A : Type 0} → Result A
no_rows = err (failed "Query returned no rows")

-- `?` on an optional row
abbrev pub row_of : {A : Type 0} → Option A → Result A
row_of none = no_rows
row_of (some a) = ok a
