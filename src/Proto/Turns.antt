-- ===== src/Proto/Turns.antt =====
-- crates/hirsel-proto/src/turn.rs and process.rs
use hirsel.Base.{ℕ, String, Bool, Option}
use hirsel.Proto.Chats.{Instant}

pub data AgentActivityState : Type 0 where
  thinking idle : AgentActivityState

pub record TurnEventPayload : Type 0 where
  pub text : String
  pub truncated : Bool

pub data TurnEventKind : Type 0 where
  -- text, block_id
  prose : String → Option String → TurnEventKind
  reasoning : String → Option String → TurnEventKind
  -- id, name, summary, input
  tool_start : String → String → Option String → Option TurnEventPayload → TurnEventKind
  -- id, name, ok, summary, result
  tool_done : String → String → Bool → Option String → Option TurnEventPayload → TurnEventKind
  -- id, language, code, truncated
  code_start : String → String → String → Bool → TurnEventKind
  -- id, ok, summary
  code_done : String → Bool → Option String → TurnEventKind

pub data ProcessState : Type 0 where
  running waiting done failed cancelled abandoned caller_departed : ProcessState

pub record ProcessInfo : Type 0 where
  pub thread_id : ℕ
  pub id : String
  pub active_process_id : Option String
  pub trigger_recurring : Bool
  pub name : String
  pub trigger : Option String
  pub trigger_subscription_key : Option String
  pub trigger_revision : Option ℕ
  pub trigger_enabled : Option Bool
  pub cancellable : Bool
  pub state : ProcessState
  pub started_ts : Instant
  pub last_event_ts : Instant
  pub last_fired_ts : Option Instant
  pub last_outcome : Option String
