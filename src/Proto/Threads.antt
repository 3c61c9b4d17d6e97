-- ===== src/Proto/Threads.antt =====
-- crates/hirsel-proto/src/thread.rs
use hirsel.Base.{ℕ, String, Bool, true, false, Option, List}
use hirsel.Proto.Chats.{Json, Instant, ChatMessage}
use hirsel.Proto.Icons.{ThreadIcon}

pub data ThreadKind : Type 0 where
  space task : ThreadKind

pub data ThreadAttention : Type 0 where
  quiet needs_owner : ThreadAttention

pub data ThreadExecutionTarget : Type 0 where
  -- provider_id, model
  native : String → String → ThreadExecutionTarget
  -- agent, model, variant
  cli : String → String → String → ThreadExecutionTarget

pub data ThreadTurnState : Type 0 where
  queued running completed failed cancelled interrupted : ThreadTurnState

unfoldable pub is_terminal : ThreadTurnState → Bool
is_terminal ThreadTurnState.queued = false
is_terminal ThreadTurnState.running = false
is_terminal ThreadTurnState.completed = true
is_terminal ThreadTurnState.failed = true
is_terminal ThreadTurnState.cancelled = true
is_terminal ThreadTurnState.interrupted = true

pub record ThreadTurn : Type 0 where
  pub id : ℕ
  pub thread_id : ℕ
  pub requester_thread_id : Option ℕ
  pub requester_turn_id : Option ℕ
  pub owner_message_id : Option ℕ
  pub agent_message_id : Option ℕ
  pub state : ThreadTurnState
  pub accepted_at : Instant
  pub started_at : Option Instant
  pub finished_at : Option Instant

pub data ThreadStatusKind : Type 0 where
  needs_you running queued hung sleeping idle : ThreadStatusKind

pub record ThreadStatus : Type 0 where
  pub kind : ThreadStatusKind
  pub reason : String

pub record Thread : Type 0 where
  pub id : ℕ
  pub kind : ThreadKind
  pub parent_thread_id : Option ℕ
  pub pinned_at : Option Instant
  pub title : String
  pub icon : Option ThreadIcon
  pub showcased_artifact_id : Option ℕ
  pub description : String
  pub execution : Option ThreadExecutionTarget
  pub instrument : Option Json
  pub attention : ThreadAttention
  pub settled_at : Option Instant
  pub archived_at : Option Instant
  pub snoozed_until : Option Instant
  pub read : Bool
  pub own_headline : String
  pub headline : String
  pub previous_headline : Option String
  pub headline_revision : ℕ
  pub last_seen_headline_revision : ℕ
  pub created_at : Instant
  pub updated_at : Instant
  pub revision : ℕ
  pub running_turn : Option ThreadTurn
  pub queued_turn_count : ℕ
  pub last_finished_turn : Option ThreadTurn
  pub last_activity_at : Instant
  pub status : ThreadStatus

pub record ThreadActivity : Type 0 where
  pub id : ℕ
  pub thread_id : ℕ
  pub turn_id : Option ℕ
  pub artifact_ids : List ℕ
  pub kind : String
  pub payload : Json  -- the field `data`
  pub ts : Instant

pub record ThreadBrief : Type 0 where
  pub text : String
  pub artifact_ids : List ℕ

pub data ThreadGrantSource : Type 0 where
  owner : ThreadGrantSource
  thread : ℕ → ThreadGrantSource

pub data ThreadGrantTarget : Type 0 where
  -- thread_id, title, thread_kind
  thread : ℕ → String → ThreadKind → ThreadGrantTarget
  root : ThreadGrantTarget

pub record ThreadGrant : Type 0 where
  pub thread_id : ℕ
  pub target : ThreadGrantTarget
  pub granted_by : ThreadGrantSource
  pub granted_at : Instant
  pub note : Option String

pub data ReachTarget : Type 0 where
  root : ReachTarget
  thread : ℕ → ReachTarget

pub data ThreadRelatedTarget : Type 0 where
  url : String → ThreadRelatedTarget
  -- history_id, thread_id
  thread : String → ℕ → ThreadRelatedTarget

pub record ThreadRelatedItem : Type 0 where
  pub id : ℕ
  pub thread_id : ℕ
  pub target : ThreadRelatedTarget
  pub title : Option String
  pub created_at : Instant

-- `turn_timelines` is left out: no modelled code reads it.
pub record ThreadDetail : Type 0 where
  pub related_items : List ThreadRelatedItem
  pub grants : List ThreadGrant
  pub brief : ThreadBrief
  pub thread : Thread
  pub messages : List ChatMessage
  pub turns : List ThreadTurn
  pub activities : List ThreadActivity
  pub has_more : Bool
