-- ===== src/Host/Turns/Reports.antt =====
-- crates/hirsel-host/src/storage/thread_delegation.rs: work that is passed to another Thread, and
-- the reports that come back. The request table is the outbox.
use hirsel.Base.{
  ℕ, ◌+◌, String, Bool, true, false, ◌&&◌, ◌||◌, Option, none, some, List, [], ◌∷◌, ◌++◌, ◌==◌,
  str_eq, if◌then◌else◌, any, find, contains, nat_eq, opt_beq,
}
use hirsel.Proto.{Instant, ThreadTurnState}
use hirsel.Host.Tables.{
  ThreadRow, TurnRow, ActivityContent, ReportRow, Db, RefusedTarget, outside_grant, refused, failed,
  Result, ok, err, ensure, ◌>>=◌, ◌>>◌, find_thread_row, row_of,
}
use hirsel.Host.Scope.{scope}
use hirsel.Host.Turns.Texts.{TurnTexts, ◌+s+◌}
use hirsel.Host.Turns.Rows.{get_activity, insert_turn, insert_activity, insert_request, update_row}
use hirsel.Host.Turns.Execution.{capture}

-- Some link of the artifact has its row in a Thread of the scope.
abbrev links_in : (ℕ → Bool) → ℕ → List (ℕ × ℕ) → Bool
links_in in_scope artifact links = any (λ l. l.1 == artifact && in_scope l.0) links

-- thread_scope.rs
unfoldable pub authorize_artifact : Db → ℕ → ℕ → Result Unit
unfolding scope
authorize_artifact db caller artifact =
    let s = scope db caller in
    ensure
      (links_in (λ m. any (λ r. r.id == m && contains s r.thread_id) db.chat_messages) artifact
          db.message_artifacts
        || links_in (λ a. any (λ r. r.id == a && contains s r.thread_id) db.thread_activities)
            artifact db.activity_artifacts
        || any (λ t. opt_beq t.showcased_artifact_id (some artifact) && contains s t.id) db.threads)
      (refused (RefusedTarget.artifact artifact) outside_grant)

unfoldable pub authorize_artifacts : Db → ℕ → List ℕ → Result Unit
unfolding authorize_artifact
authorize_artifacts db caller [] = ok tt
authorize_artifacts db caller (id ∷ rest) =
    authorize_artifact db caller id >> authorize_artifacts db caller rest

abbrev pub queued_turn : ℕ → Option ℕ → Option ℕ → Instant → ℕ → TurnRow
queued_turn thread requester requester_turn now id = record {
  id = id;
  thread_id = thread;
  requester_thread_id = requester;
  requester_turn_id = requester_turn;
  owner_message_id = none;
  agent_message_id = none;
  state = ThreadTurnState.queued;
  accepted_at = now;
  started_at = none;
  finished_at = none;
  cancel_requested_at = none;
  last_event_at = none;
}

-- The turn, what it runs on, and its request in the outbox
unfoldable pub enqueue :
    Db → ℕ → String → String → Option ℕ → Option ℕ → Bool → Instant → Result (Db × ℕ)
unfolding insert_turn capture insert_request
enqueue db thread client_id body requester requester_turn report_triggered now =
    insert_turn (queued_turn thread requester requester_turn now) db >>= λ one.
    capture one.0 thread one.1 none >>= λ d.
    insert_request client_id
      (record {
        history_id = some d.history_id;
        thread_id = thread;
        turn_id = some one.1;
        body = body;
        report_triggered = report_triggered;
      })
      d
    >>= λ d'. ok (d', one.1)

-- INSERT OR IGNORE INTO activity_artifacts
unfoldable pub link_artifacts : ℕ → List ℕ → List (ℕ × ℕ) → List (ℕ × ℕ)
link_artifacts activity [] links = links
link_artifacts activity (id ∷ rest) links =
    link_artifacts activity rest (
      if any (λ l. l.0 == activity && l.1 == id) links then links else links ++ (activity, id) ∷ [])

abbrev pub find_report : Db → ℕ → String → Option ReportRow
find_report db turn operation =
    find (λ r. r.child_turn_id == turn && str_eq r.operation_id operation) db.thread_reports

abbrev pub same_ids : List ℕ → List ℕ → Bool
same_ids [] [] = true
same_ids (x ∷ xs) (y ∷ ys) = x == y && same_ids xs ys
same_ids _ _ = false

-- The three members of a report's data that a replay has to repeat
unfoldable pub same_report : ActivityContent → String → String → List ℕ → Bool
same_report (ActivityContent.report child turn requester status summary ids) status' summary' ids' =
    str_eq status status' && str_eq summary summary' && same_ids ids ids'
same_report _ status summary ids = false

-- UPDATE threads SET read=0,revision=revision+1,updated_at=?2 WHERE id=?1
abbrev pub unread : Instant → ThreadRow → ThreadRow
unread now t = record t { read = false; revision = t.revision + 1; updated_at = now }

-- A report that was made before
unfoldable pub report_known : Db → ReportRow → String → String → List ℕ → Result (Db × ℕ)
unfolding get_activity same_report
report_known db receipt status summary ids = get_activity db receipt.activity_id >>= λ a.
    ensure (same_report a.content status summary ids) (failed "report operation payload changed")
    >> ok (db, receipt.activity_id)

module _ (texts : TurnTexts) where
  abbrev pub report_request : TurnRow → ℕ → String
  report_request turn activity =
      "child-report:" +s+ texts.decimal turn.id +s+ ":" +s+ texts.decimal activity

  abbrev pub report_body : TurnRow → String → String → List ℕ → String
  report_body turn status summary ids =
      "Child Thread #"
      +s+ texts.decimal turn.thread_id
      +s+ " report ("
      +s+ status
      +s+ "):\n"
      +s+ summary
      +s+ "\nArtifact references: "
      +s+ texts.id_list ids

  -- The activity of a report and its receipt
  unfoldable pub note_report :
      Db → TurnRow → ℕ → String → String → String → List ℕ → Instant → Db × ℕ
  unfolding insert_activity link_artifacts
  note_report db turn parent operation status summary ids now =
      let (d, activity) =
        insert_activity parent none "child_report"
          (ActivityContent.report turn.thread_id turn.id turn.requester_turn_id status summary ids)
          now db in
      let receipt : ReportRow = record {
        child_turn_id = turn.id;
        operation_id = operation;
        activity_id = activity;
      } in
      (
        record d {
          activity_artifacts = link_artifacts activity ids d.activity_artifacts;
          thread_reports = d.thread_reports ++ receipt ∷ [];
        },
        activity,
      )

  unfoldable pub report_new :
      Db → TurnRow → ℕ → String → String → String → List ℕ → Instant → Result (Db × ℕ)
  unfolding authorize_artifacts note_report enqueue
  report_new db turn parent operation status summary ids now =
      authorize_artifacts db turn.thread_id ids
      >> (let noted = note_report db turn parent operation status summary ids now in
          row_of (find_thread_row noted.0 parent) >>= λ row.
          enqueue noted.0 parent (report_request turn noted.1) (report_body turn status summary ids)
            row.parent_thread_id none true now
          >>= λ q.
              ok (record q.0 { threads = update_row parent (unread now) q.0.threads }, noted.1))

  unfoldable pub report_found :
      Db
      → TurnRow
      → ℕ
      → String
      → String
      → String
      → List ℕ
      → Instant
      → Option ReportRow
      → Result (Db × ℕ)
  unfolding report_known report_new
  report_found db turn parent operation status summary ids now (some receipt) =
      report_known db receipt status summary ids
  report_found db turn parent operation status summary ids now none =
      report_new db turn parent operation status summary ids now

  unfoldable pub report_to :
      Db → TurnRow → String → String → String → List ℕ → Instant → Option ℕ → Result (Db × ℕ)
  unfolding report_found
  report_to db turn operation status summary ids now none =
      err (failed "turn has no requesting parent")
  report_to db turn operation status summary ids now (some parent) =
      report_found db turn parent operation status summary ids now
        (find_report db turn.id operation)

  unfoldable pub report :
      Db → TurnRow → String → String → String → List ℕ → Instant → Result (Db × ℕ)
  unfolding report_to
  report db turn operation status summary ids now =
      report_to db turn operation status summary ids now turn.requester_thread_id
