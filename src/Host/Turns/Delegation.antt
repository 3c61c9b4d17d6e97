-- ===== src/Host/Turns/Delegation.antt =====
-- crates/hirsel-host/src/storage/thread_delegation.rs: a running turn passes work to a child, an
-- earlier child or a Thread within its reach, once for each operation id.
use hirsel.Base.{
  ℕ, String, false, not, ◌&&◌, Option, none, some, List, [], ◌∷◌, ◌++◌, ◌==◌, str_eq, leb, find,
  length, insert, nat_eq,
}
use hirsel.Proto.{Instant, Json, ThreadKind, ThreadAttention}
use hirsel.Host.Tables.{
  ThreadRow, ActivityContent, DelegationRow, ThreadExecution, Db, failed, Result, ok, ensure, ◌>>=◌,
  ◌>>◌,
}
use hirsel.Host.Scope.{authorize, owner_fence}
use hirsel.Host.Turns.Texts.{TurnTexts, ◌+s+◌, is_empty_text}
use hirsel.Host.Turns.Rows.{is_set, get_turn, insert_activity}
use hirsel.Host.Turns.Reports.{authorize_artifacts, enqueue, link_artifacts, report}
use hirsel.Host.Threads.Create.{insert_thread}
use hirsel.Host.Turns.Callers.{ThreadCaller, validate_caller}

pub record Delegation : Type 0 where
  pub title : String
  pub brief : String
  pub artifact_ids : List ℕ
  pub child_thread_id : Option ℕ
  pub execution : Option ThreadExecution

pub record DelegatedTurn : Type 0 where
  pub thread_id : ℕ
  pub turn_id : ℕ

abbrev pub find_delegation : Db → ℕ → String → Option DelegationRow
find_delegation db turn operation =
    find (λ r. r.requester_turn_id == turn && str_eq r.operation_id operation) db.thread_delegations

-- A delegation that was accepted before: the same invocation gets the same turn.
unfoldable pub delegated_before : DelegationRow → Json → Result DelegatedTurn
delegated_before row payload =
    ensure (str_eq row.payload payload) (failed "delegation operation payload changed")
    >> ok (record { thread_id = row.child_thread_id; turn_id = row.child_turn_id })

-- INSERT INTO threads(…) VALUES('task',?1,?2,'',NULL,'quiet',0,?3,?3,1)
abbrev pub child_row : ℕ → String → Instant → ℕ → ThreadRow
child_row parent title now id = record {
  id = id;
  client_id = none;
  kind = ThreadKind.task;
  title = title;
  description = "";
  instrument = none;
  parent_thread_id = some parent;
  pinned_at = none;
  showcased_artifact_id = none;
  attention = ThreadAttention.quiet;
  settled_at = none;
  archived_at = none;
  snoozed_until = none;
  read = false;
  own_headline = "Ready";
  headline = "Ready";
  previous_headline = none;
  headline_revision = 1;
  last_seen_headline_revision = 1;
  revision = 1;
  updated_at = now;
}

abbrev pub prefer :
    ℕ → Option ThreadExecution → List (ℕ × ThreadExecution) → List (ℕ × ThreadExecution)
prefer child none stored = stored
prefer child (some execution) stored = insert child execution stored

unfoldable pub delegation_receipt :
    Db → ThreadCaller → String → Json → Result (Option DelegatedTurn)
unfolding validate_caller delegated_before
delegation_receipt db caller operation payload =
    validate_caller db caller >> elim (find_delegation db caller.turn_id operation) [
      | none ↦ ok none
      | some row ↦ delegated_before row payload >>= λ t. ok (some t)
    ]

-- The activity on the child, its artifacts and the receipt
unfoldable pub note_delegation :
    Db → ThreadCaller → String → Json → Delegation → ℕ → ℕ → Instant → Db
unfolding insert_activity link_artifacts
note_delegation db caller operation payload assignment child turn now =
    let (d, activity) =
      insert_activity child (some turn) "delegation_received"
        (ActivityContent.delegation caller.thread_id caller.turn_id assignment.brief) now db in
    let receipt : DelegationRow = record {
      requester_turn_id = caller.turn_id;
      operation_id = operation;
      payload = payload;
      child_thread_id = child;
      child_turn_id = turn;
    } in
    record d {
      activity_artifacts = link_artifacts activity assignment.artifact_ids d.activity_artifacts;
      thread_delegations = d.thread_delegations ++ receipt ∷ [];
    }

module _ (texts : TurnTexts) where
  -- The Thread that the work goes to
  unfoldable pub choose_child : Db → ThreadCaller → Delegation → Instant → Result (Db × ℕ)
  unfolding authorize owner_fence insert_thread
  choose_child db caller assignment now = elim assignment.child_thread_id [
    | some id ↦
        authorize db caller.thread_id id >> owner_fence db caller.thread_id id >> ok (db, id)
    | none ↦ insert_thread db (child_row caller.thread_id (texts.trim assignment.title) now)
  ]

  abbrev pub delegation_request : ThreadCaller → String → String
  delegation_request caller operation =
      "delegation:" +s+ texts.decimal caller.turn_id +s+ ":" +s+ operation

  unfoldable pub delegate_new :
      Db → ThreadCaller → String → Delegation → Json → Instant → Result (Db × DelegatedTurn)
  unfolding choose_child enqueue note_delegation
  delegate_new db caller operation assignment payload now =
      choose_child db caller assignment now >>= λ chosen.
      (let child = chosen.1 in
        let d = record chosen.0 {
          thread_execution_preferences =
              prefer child assignment.execution chosen.0.thread_execution_preferences;
        } in
        enqueue d child (delegation_request caller operation) assignment.brief
          (some caller.thread_id) (some caller.turn_id) false now
        >>= λ q. ok (
          note_delegation q.0 caller operation payload assignment child q.1 now,
          record { thread_id = child; turn_id = q.1 },
        ))

  unfoldable pub delegate_found :
      Db
      → ThreadCaller
      → String
      → Delegation
      → Json
      → Instant
      → Option DelegationRow
      → Result (Db × DelegatedTurn)
  unfolding delegated_before delegate_new
  delegate_found db caller operation assignment payload now (some row) =
      delegated_before row payload >>= λ t. ok (db, t)
  delegate_found db caller operation assignment payload now none =
      delegate_new db caller operation assignment payload now

  unfoldable pub delegate_thread :
      Db → ThreadCaller → String → Delegation → Json → Instant → Result (Db × DelegatedTurn)
  unfolding validate_caller authorize_artifacts delegate_found
  delegate_thread db caller operation assignment payload now =
      ensure
        (not (is_empty_text (texts.trim assignment.title))
          && not (is_empty_text (texts.trim assignment.brief)))
        (failed "delegation requires title and brief")
      >> ensure (leb (length assignment.artifact_ids) 100) (failed "too many artifact references")
      >> ensure (not (is_empty_text operation))
          (failed "delegation requires execution operation identity")
      >> validate_caller db caller
      >> authorize_artifacts db caller.thread_id assignment.artifact_ids
      >> delegate_found db caller operation assignment payload now
          (find_delegation db caller.turn_id operation)

  unfoldable pub report_thread_progress :
      Db → ThreadCaller → String → String → List ℕ → Instant → Result (Db × ℕ)
  unfolding validate_caller authorize_artifacts get_turn report
  report_thread_progress db caller operation summary artifact_ids now =
      ensure (not (is_empty_text (texts.trim summary))) (failed "report summary must not be empty")
      >> validate_caller db caller
      >> authorize_artifacts db caller.thread_id artifact_ids
      >> get_turn db caller.turn_id
      >>= λ t.
          ensure (is_set t.requester_thread_id) (failed "this turn has no requesting parent")
          >> report texts db t operation "progress" summary artifact_ids now
