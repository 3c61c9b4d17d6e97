-- ===== src/Host/Turns/Refines/Ends.antt =====
-- Turns that end, and the reports and delegations that queue further turns
-- (crates/hirsel-host/src/storage/thread_activity.rs, thread_completion.rs, thread_delegation.rs).
use hirsel.Base.{
  ℕ, String, ◌≡◌, refl, ap, sym, true, false, Option, none, some, List, [], ◌∷◌, arith, ◌==◌,
  Bool-cases, inl, inr, find,
}
use hirsel.Proto.{Instant, ThreadTurnState, is_terminal}
use hirsel.Host.Tables.{TurnRow, ReportRow, Db, failed, Result, ok, and_then, ensure}
use hirsel.Host.Granted.{and_then-ok}
use hirsel.Host.Turns.Texts.{TurnTexts, ◌+s+◌}
use hirsel.Host.Turns.Rows.{get_turn, get_activity, state_name, drop_requests_of}
use hirsel.Host.Turns.Reports.{
  report, report_to, report_found, report_known, report_new, note_report, find_report, same_report,
  report_request, report_body,
}
use hirsel.Host.Turns.Finish.{
  end_summary, outputs_of, report_end_to, report_end, finish_open, finish_with_failure,
  interrupt_turn, interrupt_turns, interrupt_unfinished_thread_turns, running_ids,
  invalidate_agent_session_profile,
}
use hirsel.Host.Turns.Runs.{
  report_new-Run, report_end_to-Run, finish_open-Run, finish_with_failure-Found, ended_db,
}
use hirsel.Host.Turns.Machine.{end, here, next, TurnSteps-trans}
use hirsel.Host.Turns.Refines.Accept.{
  table, Refines, Refines-same, Refines-then, enqueue-Refines, queued_report-IsNew,
  refresh_from-table, get_turn-found,
}

module _ (texts : TurnTexts) where
  note_report-table :
      (db : Db) (turn : TurnRow) (parent : ℕ) (operation status summary : String) (ids : List ℕ)
      (now : Instant)
      → table db ≡ table (note_report texts db turn parent operation status summary ids now).0
  unfolding note_report
  note_report-table db turn parent operation status summary ids now = refl

  report_new-Refines :
      (db : Db) (turn : TurnRow) (parent : ℕ) (operation status summary : String) (ids : List ℕ)
      (now : Instant) (r : Db × ℕ)
      → report_new texts db turn parent operation status summary ids now ≡ ok r
      → Refines db r.0
  report_new-Refines db turn parent operation status summary ids now r h =
      let run = report_new-Run texts db turn parent operation status summary ids now r h in
      let noted = note_report texts db turn parent operation status summary ids now in
      TurnSteps-trans
        (Refines-same db noted.0
          (note_report-table db turn parent operation status summary ids now))
        (Refines-then noted.0 run.sent.0 r.0
          (enqueue-Refines noted.0 parent (report_request texts turn noted.1)
            (report_body texts turn status summary ids) run.row.parent_thread_id none true now
            run.sent (queued_report-IsNew parent run.row.parent_thread_id now) run.queued)
          (sym (ap (λ (x : Db × ℕ). table x.0) run.left)))

  report_found-Refines :
      (db : Db) (turn : TurnRow) (parent : ℕ) (operation status summary : String) (ids : List ℕ)
      (now : Instant) (o : Option ReportRow) (r : Db × ℕ)
      → report_found texts db turn parent operation status summary ids now o ≡ ok r
      → Refines db r.0
  unfolding report_found
  report_found-Refines db turn parent operation status summary ids now none r h =
      report_new-Refines db turn parent operation status summary ids now r h
  report_found-Refines db turn parent operation status summary ids now (some receipt) r h =
      let (a, _, h1) =
        and_then-ok (get_activity db receipt.activity_id)
          (λ a.
            and_then
              (ensure (same_report a.content status summary ids)
                (failed "report operation payload changed"))
              (λ _. ok (db, receipt.activity_id)))
          r (unfold report_known in h) in
      let (_, _, h2) =
        and_then-ok
          (ensure (same_report a.content status summary ids)
            (failed "report operation payload changed"))
          (λ _. ok (db, receipt.activity_id)) r h1 in
      let same : db ≡ r.0 = ground arith in Refines-same db r.0 (ap table same)

  report_to-Refines :
      (db : Db) (turn : TurnRow) (operation status summary : String) (ids : List ℕ) (now : Instant)
      (o : Option ℕ) (r : Db × ℕ)
      → report_to texts db turn operation status summary ids now o ≡ ok r
      → Refines db r.0
  unfolding report_to
  report_to-Refines db turn operation status summary ids now none r h = cc
  report_to-Refines db turn operation status summary ids now (some parent) r h =
      report_found-Refines db turn parent operation status summary ids now
        (find_report db turn.id operation) r h

  pub report-Refines :
      (db : Db) (turn : TurnRow) (operation status summary : String) (ids : List ℕ) (now : Instant)
      (r : Db × ℕ)
      → report texts db turn operation status summary ids now ≡ ok r
      → Refines db r.0
  unfolding report
  report-Refines db turn operation status summary ids now r h =
      report_to-Refines db turn operation status summary ids now turn.requester_thread_id r h

  report_end_to-Refines :
      (db : Db) (turn : TurnRow) (state : ThreadTurnState) (failure : Option String) (now : Instant)
      (o : Option ℕ) (d : Db)
      → report_end_to texts db turn state failure now o ≡ ok d
      → Refines db d
  unfolding report_end_to
  report_end_to-Refines db turn state failure now none d h =
      let same : db ≡ d = ground arith in Refines-same db d (ap table same)
  report_end_to-Refines db turn state failure now (some requester) d h =
      let run = report_end_to-Run texts db turn state failure now requester d h in
      Refines-then db run.told.0 d
        (report-Refines db turn "terminal" (state_name state)
          (end_summary texts state failure run.message)
          (outputs_of turn.id db.turn_output_artifacts) now run.told run.reported)
        (ap table run.left)

  report_end-Refines :
      (db : Db) (turn : TurnRow) (state : ThreadTurnState) (failure : Option String) (now : Instant)
      (d : Db)
      → report_end texts db turn state failure now ≡ ok d
      → Refines db d
  unfolding report_end
  report_end-Refines db turn state failure now d h =
      report_end_to-Refines db turn state failure now turn.requester_thread_id d h

  finish_open-Refines :
      (db : Db) (t : TurnRow) (state : ThreadTurnState) (reply : Option ℕ) (failure : Option String)
      (now : Instant) (r : Db × TurnRow)
      → find (λ u. u.id == t.id) db.thread_turns ≡ some t
      → is_terminal t.state ≡ false
      → is_terminal state ≡ true
      → finish_open texts db t state reply failure now ≡ ok r
      → Refines db r.0
  finish_open-Refines db t state reply failure now r f o s h =
      let run = finish_open-Run texts db t state reply failure now r h in
      let d = ended_db db t.id state reply now in
      let k = run.refreshed in
      let first : Refines db d = next here (end t state reply now f o s refl) in
      TurnSteps-trans
        (Refines-then db d k.0 first (refresh_from-table texts d t.thread_id now k run.climbed))
        (report_end-Refines k.0 r.1 state failure now r.0 run.reported)

  pub finish_with_failure-Refines :
      (db : Db) (id : ℕ) (state : ThreadTurnState) (reply : Option ℕ) (failure : Option String)
      (now : Instant) (r : Db × TurnRow)
      → finish_with_failure texts db id state reply failure now ≡ ok r
      → Refines db r.0
  finish_with_failure-Refines db id state reply failure now r h =
      let run = finish_with_failure-Found texts db id state reply failure now r h in
      let t = run.turn in
      elim (Bool-cases (is_terminal t.state)) [
        | inl q ↦
            let same : db ≡ r.0 = ground (arith, run.after) in Refines-same db r.0 (ap table same)
        | inr q ↦
            finish_open-Refines db t state reply failure now r (get_turn-found db id t run.got).0 q
              run.ends (ground (arith, run.after))
      ]

  pub interrupt_turn-Refines :
      (db : Db) (id : ℕ) (now : Instant) (r : Db × TurnRow)
      → interrupt_turn texts db id now ≡ ok r
      → Refines db r.0
  unfolding interrupt_turn invalidate_agent_session_profile drop_requests_of
  interrupt_turn-Refines db id now r h =
      let prepared : TurnRow → Db = λ t. drop_requests_of id (
        invalidate_agent_session_profile db t.thread_id
          ("interrupted-turn:" +s+ texts.decimal id)) in
      let (t, _, h1) =
        and_then-ok (get_turn db id)
          (λ t. finish_with_failure texts (prepared t) id ThreadTurnState.interrupted none none now)
          r h in
      TurnSteps-trans (Refines-same db (prepared t) refl)
        (finish_with_failure-Refines (prepared t) id ThreadTurnState.interrupted none none now r h1)

  interrupt_turns-Refines :
      (db : Db) (ids : List ℕ) (now : Instant) (r : Db × List TurnRow)
      → interrupt_turns texts db ids now ≡ ok r
      → Refines db r.0
  unfolding interrupt_turns
  interrupt_turns-Refines db [] now r h =
      let same : db ≡ r.0 = ground arith in Refines-same db r.0 (ap table same)
  interrupt_turns-Refines db (id ∷ rest) now r h =
      let fin : Db × TurnRow → Db × List TurnRow → Result (Db × List TurnRow) =
        λ one more. ok (more.0, one.1 ∷ more.1) in
      let (one, e, h1) =
        and_then-ok (interrupt_turn texts db id now)
          (λ one. and_then (interrupt_turns texts one.0 rest now) (fin one)) r h in
      let (more, e1, h2) = and_then-ok (interrupt_turns texts one.0 rest now) (fin one) r h1 in
      let same : more.0 ≡ r.0 = ground arith in
      Refines-then db more.0 r.0
        (TurnSteps-trans (interrupt_turn-Refines db id now one e)
          (interrupt_turns-Refines one.0 rest now more e1))
        (ap table same)

  pub interrupt_unfinished-Refines :
      (db : Db) (now : Instant) (r : Db × List TurnRow)
      → interrupt_unfinished_thread_turns texts db now ≡ ok r
      → Refines db r.0
  unfolding interrupt_unfinished_thread_turns
  interrupt_unfinished-Refines db now r h =
      interrupt_turns-Refines db (running_ids db.thread_turns) now r h
