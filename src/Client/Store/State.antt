-- ===== src/Client/Store/State.antt =====
-- The state of `LocalStore` in crates/hirsel-client-core/src/store.rs.
use hirsel.Base.{ℕ, String, Option, none, List, []}
use hirsel.Proto.{Thread, ThreadTurn, ThreadActivity, ThreadRelatedItem, ThreadGrant, ProcessInfo}
use hirsel.Client.Entry.{
  ConnectionState, offline, ChatEntry, PendingOp, CreatedThread, ThreadStream, StoredBrief,
}

pub record LocalStore : Type 0 where
  pub removed_message_ids : List ℕ
  pub related_revisions : List (ℕ × ℕ)
  pub grant_revisions : List (ℕ × ℕ)
  pub connection : ConnectionState
  pub messages : List ChatEntry
  pub threads : List Thread
  pub turns : List ThreadTurn
  pub activities : List ThreadActivity
  pub briefs : List StoredBrief
  pub related_items : List ThreadRelatedItem
  pub grants : List ThreadGrant
  pub streams : List ThreadStream
  pub opened_threads : List ℕ
  pub created_threads : List CreatedThread
  pub pending_ops : List (String × PendingOp)
  pub history_has_more : List ℕ
  pub processes : List ProcessInfo
  pub history_id : Option String
  pub recovered_drafts : List String
  pub host_version : Option String

abbrev pub default_store : LocalStore
default_store = record {
  removed_message_ids = [];
  related_revisions = [];
  grant_revisions = [];
  connection = offline;
  messages = [];
  threads = [];
  turns = [];
  activities = [];
  briefs = [];
  related_items = [];
  grants = [];
  streams = [];
  opened_threads = [];
  created_threads = [];
  pending_ops = [];
  history_has_more = [];
  processes = [];
  history_id = none;
  recovered_drafts = [];
  host_version = none;
}
