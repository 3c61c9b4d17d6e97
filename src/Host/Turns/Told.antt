-- ===== src/Host/Turns/Told.antt =====
-- A report is made once for each operation of a turn, and a replay with other contents is refused
-- (crates/hirsel-host/src/storage/thread_delegation.rs, report).
use hirsel.Base.{
  ℕ, suc, String, ◌≡◌, ◌≢◌, refl, ap, sym, ◌∙◌, subst, Bool, true, false, ◌&&◌, Option, none, some,
  List, [], ◌∷◌, ◌++◌, arith, ◌==◌, ==_iff, str_eq, str_eq_iff, find,
}
use hirsel.Proto.{Instant}
use hirsel.Host.Tables.{
  TurnRow, ActivityRow, ActivityContent, ReportRow, Db, failed, Result, ok, err, and_then, ensure,
  row_of,
}
use hirsel.Host.Granted.{and_then-ok}
use hirsel.Host.Turns.Texts.{TurnTexts}
use hirsel.Host.Turns.Rows.{get_activity}
use hirsel.Host.Turns.Reports.{
  report, report_to, report_found, report_known, report_new, note_report, enqueue, find_report,
  same_report, same_ids, report_request, report_body, queued_turn,
}
use hirsel.Host.Turns.Kept.{capture-OnlyExecution, insert_request-row}
use hirsel.Host.Turns.Runs.{enqueue-Run, outbox_payload, report_new-Run}
use hirsel.Host.Turns.Refines.Accept.{insert_turn-Inserted}
use hirsel.Host.Turns.Wakes.{activities_within, find_new_activity}

-- A request in the outbox leaves the reports and the activities.
record Outbox (db d : Db) : Type 0 where
  reports : d.thread_reports ≡ db.thread_reports
  activities : d.thread_activities ≡ db.thread_activities

enqueue-Outbox :
    (db : Db) (thread : ℕ) (client_id body : String) (requester requester_turn : Option ℕ)
    (triggered : Bool) (now : Instant) (a : Db × ℕ)
    → enqueue db thread client_id body requester requester_turn triggered now ≡ ok a
    → Outbox db a.0
enqueue-Outbox db thread client_id body requester requester_turn triggered now a h =
    let run = enqueue-Run db thread client_id body requester requester_turn triggered now a h in
    let row = queued_turn thread requester requester_turn now in
    let payload = outbox_payload thread body triggered run.taken run.one.1 in
    let inserted = (insert_turn-Inserted row db run.one run.inserted).result in
    let captured = capture-OnlyExecution run.one.0 thread run.one.1 none run.taken run.captured in
    let put = insert_request-row client_id payload run.taken a.0 run.put in
    record {
      reports =
          ap (λ (x : Db). x.thread_reports) put
          ∙ ap (λ (x : Db). x.thread_reports) captured
          ∙ ap (λ (x : Db × ℕ). x.0.thread_reports) inserted;
      activities =
          ap (λ (x : Db). x.thread_activities) put
          ∙ ap (λ (x : Db). x.thread_activities) captured
          ∙ ap (λ (x : Db × ℕ). x.0.thread_activities) inserted;
    }

same_ids_self : (xs : List ℕ) → same_ids xs xs ≡ true
same_ids_self [] = refl
same_ids_self (x ∷ xs) = ground (arith, same_ids_self xs, ==_iff x x)

find_new_report :
    (turn : ℕ) (operation : String) (rs : List ReportRow) (r : ReportRow)
    → find (λ r. r.child_turn_id == turn && str_eq r.operation_id operation) rs ≡ none
    → r.child_turn_id ≡ turn
    → r.operation_id ≡ operation
    → find (λ r. r.child_turn_id == turn && str_eq r.operation_id operation) (rs ++ r ∷ []) ≡ some r
find_new_report turn operation [] r h e k =
    ground (arith, ==_iff r.child_turn_id turn, str_eq_iff r.operation_id operation)
find_new_report turn operation (x ∷ rs) r h e k =
    ground (arith, find_new_report turn operation rs r)

-- The receipt of a report and the activity that it names
record Told (db : Db) (turn : ℕ) (operation status summary : String) (ids : List ℕ) (id : ℕ)
    : Type 0 where
  receipt : ReportRow
  found : find_report db turn operation ≡ some receipt
  named : receipt.activity_id ≡ id
  activity : ActivityRow
  shown : get_activity db receipt.activity_id ≡ ok activity
  same : same_report activity.content status summary ids ≡ true

-- The answer to a known report
module _ (db : Db) (r : Db × ℕ) (b : Bool) (receipt : ReportRow)
    (h : and_then
        (ensure b (failed "report operation payload changed"))
        (λ _. ok (db, receipt.activity_id))
      ≡ ok r) where
  known_same : b ≡ true
  known_same = ground arith

  known_db : db ≡ r.0
  known_db = ground arith

  known_id : receipt.activity_id ≡ r.1
  known_id = ground arith

other_report :
    (c : ActivityContent) (status summary other : String) (ids : List ℕ)
    → summary ≢ other
    → same_report c status summary ids ≡ true
    → same_report c status other ids ≡ false
unfolding same_report
other_report (ActivityContent.report child turn requester s m xs) status summary other ids n h =
    ground (arith, str_eq_iff m summary, str_eq_iff m other)
other_report ActivityContent.nothing status summary other ids n h = refl
other_report (ActivityContent.given j) status summary other ids n h = refl
other_report (ActivityContent.failure j) status summary other ids n h = refl
other_report (ActivityContent.delegation a b c) status summary other ids n h = refl
other_report (ActivityContent.archive a b c d e f g) status summary other ids n h = refl

module _ (texts : TurnTexts) where
  report_new-Told :
      (db : Db) (turn : TurnRow) (parent : ℕ) (operation status summary : String) (ids : List ℕ)
      (now : Instant) (r : Db × ℕ)
      → activities_within db.last_activity_id db.thread_activities ≡ true
      → find_report db turn.id operation ≡ none
      → report_new texts db turn parent operation status summary ids now ≡ ok r
      → Told r.0 turn.id operation status summary ids r.1
  report_new-Told db turn parent operation status summary ids now r w n h =
      let run = report_new-Run texts db turn parent operation status summary ids now r h in
      let noted = note_report texts db turn parent operation status summary ids now in
      let out =
        enqueue-Outbox noted.0 parent (report_request texts turn noted.1)
          (report_body texts turn status summary ids) run.row.parent_thread_id none true now
          run.sent run.queued in
      let reports : r.0.thread_reports ≡ run.sent.0.thread_reports =
        ap (λ (x : Db × ℕ). x.0.thread_reports) run.left in
      let activities : r.0.thread_activities ≡ run.sent.0.thread_activities =
        ap (λ (x : Db × ℕ). x.0.thread_activities) run.left in
      let number : noted.1 ≡ r.1 = sym (ap (λ (x : Db × ℕ). x.1) run.left) in
      let receipt : ReportRow = record {
        child_turn_id = turn.id;
        operation_id = operation;
        activity_id = suc db.last_activity_id;
      } in
      let row : ActivityRow = record {
        id = suc db.last_activity_id;
        thread_id = parent;
        turn_id = none;
        kind = "child_report";
        content =
            ActivityContent.report turn.thread_id turn.id turn.requester_turn_id status summary ids;
        ts = now;
      } in
      record {
        receipt = receipt;
        found =
            ap
              (λ rs.
                find
                  (λ (x : ReportRow). x.child_turn_id == turn.id && str_eq x.operation_id operation)
                  rs)
              (reports ∙ out.reports)
            ∙ unfold note_report in
              find_new_report turn.id operation db.thread_reports receipt n refl refl;
        named = unfold note_report in number;
        activity = row;
        shown =
            unfold get_activity note_report in
            ap row_of (
              ap (λ xs. find (λ (x : ActivityRow). x.id == suc db.last_activity_id) xs)
                (activities ∙ out.activities)
              ∙ find_new_activity db.last_activity_id db.thread_activities row w refl);
        same =
            unfold same_report in
            ground (arith, same_ids_self ids, str_eq_iff status status, str_eq_iff summary summary);
      }

  report_found-Told :
      (db : Db) (turn : TurnRow) (parent : ℕ) (operation status summary : String) (ids : List ℕ)
      (now : Instant) (o : Option ReportRow) (r : Db × ℕ)
      → activities_within db.last_activity_id db.thread_activities ≡ true
      → find_report db turn.id operation ≡ o
      → report_found texts db turn parent operation status summary ids now o ≡ ok r
      → Told r.0 turn.id operation status summary ids r.1
  unfolding report_found
  report_found-Told db turn parent operation status summary ids now none r w f h =
      report_new-Told db turn parent operation status summary ids now r w f h
  report_found-Told db turn parent operation status summary ids now (some receipt) r w f h =
      let fin : ActivityRow → Result (Db × ℕ) = λ a.
        and_then
          (ensure (same_report a.content status summary ids)
            (failed "report operation payload changed"))
          (λ _. ok (db, receipt.activity_id)) in
      let (a, e, h1) =
        and_then-ok (get_activity db receipt.activity_id) fin r (unfold report_known in h) in
      let same : db ≡ r.0 = known_db db r (same_report a.content status summary ids) receipt h1 in
      record {
        receipt = receipt;
        found = subst (λ (x : Db). find_report x turn.id operation ≡ some receipt) same f;
        named = known_id db r (same_report a.content status summary ids) receipt h1;
        activity = a;
        shown = subst (λ (x : Db). get_activity x receipt.activity_id ≡ ok a) same e;
        same = known_same db r (same_report a.content status summary ids) receipt h1;
      }

  report-Told :
      (db : Db) (turn : TurnRow) (parent : ℕ) (operation status summary : String) (ids : List ℕ)
      (now : Instant) (r : Db × ℕ)
      → activities_within db.last_activity_id db.thread_activities ≡ true
      → turn.requester_thread_id ≡ some parent
      → report texts db turn operation status summary ids now ≡ ok r
      → Told r.0 turn.id operation status summary ids r.1
  unfolding report report_to
  report-Told db turn parent operation status summary ids now r w p h =
      report_found-Told db turn parent operation status summary ids now
        (find_report db turn.id operation) r w refl
        (ap (report_to texts db turn operation status summary ids now) (sym p) ∙ h)

  -- Any report of an operation that has its receipt
  tell_again :
      (d : Db) (turn : TurnRow) (parent : ℕ) (operation status summary summary' : String)
      (ids : List ℕ) (now : Instant) (id : ℕ) (t : Told d turn.id operation status summary ids id)
      → turn.requester_thread_id ≡ some parent
      → report texts d turn operation status summary' ids now
        ≡ and_then
            (ensure
              (same_report t.activity.content status summary' ids)
              (failed "report operation payload changed"))
            (λ _. ok (d, id))
  unfolding report report_to report_found report_known
  tell_again d turn parent operation status summary summary' ids now id t p =
      let answer : ActivityRow → ℕ → Result (Db × ℕ) = λ a n.
        and_then
          (ensure (same_report a.content status summary' ids)
            (failed "report operation payload changed"))
          (λ _. ok (d, n)) in
      ap (report_to texts d turn operation status summary' ids now) p
      ∙ ap (report_found texts d turn parent operation status summary' ids now) t.found
      ∙ ap (λ g. and_then g (λ a. answer a t.receipt.activity_id)) t.shown
      ∙ ap (answer t.activity) t.named

  -- A report that was made is answered with the same activity when it is made again, and changes
  -- nothing; under the same operation, another summary is refused.
  pub report-once :
      (db d : Db) (turn : TurnRow) (parent : ℕ) (operation status summary other : String)
      (ids : List ℕ) (now later : Instant) (id : ℕ)
      → activities_within db.last_activity_id db.thread_activities ≡ true
      → turn.requester_thread_id ≡ some parent
      → summary ≢ other
      → report texts db turn operation status summary ids now ≡ ok (d, id)
      → (report texts d turn operation status summary ids later ≡ ok (d, id))
        × (report texts d turn operation status other ids later
            ≡ err (failed "report operation payload changed"))
  report-once db d turn parent operation status summary other ids now later id w p n h =
      let t = report-Told db turn parent operation status summary ids now (d, id) w p h in
      (
        tell_again d turn parent operation status summary summary ids later id t p
            ∙ ap
                (λ b.
                  and_then (ensure b (failed "report operation payload changed")) (λ _. ok (d, id)))
                t.same,
        tell_again d turn parent operation status summary other ids later id t p
            ∙ ap
                (λ b.
                  and_then (ensure b (failed "report operation payload changed")) (λ _. ok (d, id)))
                (other_report t.activity.content status summary other ids n t.same),
      )
