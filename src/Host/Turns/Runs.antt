-- ===== src/Host/Turns/Runs.antt =====
-- The successful runs of the operations that several proofs take apart: what each call in them
-- returned (crates/hirsel-host/src/storage/thread_activity.rs, thread_delegation.rs).
use hirsel.Base.{
  ℕ, String, ◌≡◌, ap, sym, ◌∙◌, Bool, true, Option, none, some, List, arith, if◌then◌else◌,
}
use hirsel.Proto.{Instant, ThreadTurnState, is_terminal}
use hirsel.Host.Tables.{
  ThreadRow, TurnRow, MessageRow, RequestPayload, Db, failed, Result, ok, and_then, ensure, row_of,
  find_thread_row,
}
use hirsel.Host.Granted.{and_then-ok}
use hirsel.Host.Turns.Texts.{TurnTexts}
use hirsel.Host.Turns.Headlines.{refresh_from}
use hirsel.Host.Turns.Rows.{
  get_turn, insert_turn, insert_request, update_turn, update_row, state_name,
}
use hirsel.Host.Turns.Execution.{capture}
use hirsel.Host.Turns.Queue.{accept_turn}
use hirsel.Host.Turns.Reports.{
  report_new, note_report, authorize_artifacts, enqueue, unread, report_request, report_body,
  queued_turn, report,
}
use hirsel.Host.Turns.Finish.{
  finished, check_reply, reply_of, end_summary, outputs_of, report_end, report_end_to, finish_open,
  finish_with_failure,
}

-- The payload of a request in the outbox
abbrev pub outbox_payload : ℕ → String → Bool → Db → ℕ → RequestPayload
outbox_payload thread body triggered d turn = record {
  history_id = some d.history_id;
  thread_id = thread;
  turn_id = some turn;
  body = body;
  report_triggered = triggered;
}

pub record EnqueueRun (db : Db) (thread : ℕ) (client_id body : String)
    (requester requester_turn : Option ℕ) (triggered : Bool) (now : Instant) (a : Db × ℕ)
    : Type 0 where
  pub one : Db × ℕ
  pub inserted : insert_turn (queued_turn thread requester requester_turn now) db ≡ ok one
  pub taken : Db
  pub captured : capture one.0 thread one.1 none ≡ ok taken
  pub put :
      insert_request client_id (outbox_payload thread body triggered taken one.1) taken ≡ ok a.0

pub enqueue-Run :
    (db : Db) (thread : ℕ) (client_id body : String) (requester requester_turn : Option ℕ)
    (triggered : Bool) (now : Instant) (a : Db × ℕ)
    → enqueue db thread client_id body requester requester_turn triggered now ≡ ok a
    → EnqueueRun db thread client_id body requester requester_turn triggered now a
unfolding enqueue
enqueue-Run db thread client_id body requester requester_turn triggered now a h =
    let row = queued_turn thread requester requester_turn now in
    let payload = outbox_payload thread body triggered in
    let last : Db × ℕ → Db → Result (Db × ℕ) =
      λ one d. and_then (insert_request client_id (payload d one.1) d) (λ d'. ok (d', one.1)) in
    let (one, e, h1) =
      and_then-ok (insert_turn row db)
        (λ one. and_then (capture one.0 thread one.1 none) (last one)) a h in
    let (d, e1, h2) = and_then-ok (capture one.0 thread one.1 none) (last one) a h1 in
    let (d', e2, h3) =
      and_then-ok (insert_request client_id (payload d one.1) d) (λ d'. ok (d', one.1)) a h2 in
    record { one = one; inserted = e; taken = d; captured = e1; put = ground arith }

pub record AcceptRun (texts : TurnTexts) (db : Db) (row : ℕ → TurnRow) (thread : ℕ) (now : Instant)
    (a : Db × ℕ) : Type 0 where
  pub one : Db × ℕ
  pub inserted : insert_turn row db ≡ ok one
  pub refreshed : Db × List ℕ
  pub climbed : refresh_from texts one.0 thread now ≡ ok refreshed
  pub captured : capture refreshed.0 thread one.1 none ≡ ok a.0
  pub number : a.1 ≡ one.1

pub accept_turn-Run :
    (texts : TurnTexts) (db : Db) (row : ℕ → TurnRow) (thread : ℕ) (now : Instant) (a : Db × ℕ)
    → accept_turn texts db row thread now ≡ ok a
    → AcceptRun texts db row thread now a
unfolding accept_turn
accept_turn-Run texts db row thread now a h =
    let last : Db × ℕ → Db × List ℕ → Result (Db × ℕ) =
      λ one r. and_then (capture r.0 thread one.1 none) (λ d. ok (d, one.1)) in
    let (one, e, h1) =
      and_then-ok (insert_turn row db)
        (λ one. and_then (refresh_from texts one.0 thread now) (last one)) a h in
    let (r, e1, h2) = and_then-ok (refresh_from texts one.0 thread now) (last one) a h1 in
    let (d, e2, h3) = and_then-ok (capture r.0 thread one.1 none) (λ d. ok (d, one.1)) a h2 in
    record {
      one = one;
      inserted = e;
      refreshed = r;
      climbed = e1;
      captured = ground arith;
      number = ground arith;
    }

-- UPDATE thread_turns
abbrev pub ended_db : Db → ℕ → ThreadTurnState → Option ℕ → Instant → Db
ended_db db id state reply now = record db {
  thread_turns = update_turn id (finished state reply now) db.thread_turns;
}

module _ (texts : TurnTexts) where
  pub record ReportRun (db : Db) (turn : TurnRow) (parent : ℕ) (operation status summary : String)
      (ids : List ℕ) (now : Instant) (r : Db × ℕ) : Type 0 where
    pub row : ThreadRow
    pub sent : Db × ℕ
    pub queued :
        let noted = note_report texts db turn parent operation status summary ids now in
        enqueue noted.0 parent
          (report_request texts turn noted.1)
          (report_body texts turn status summary ids)
          row.parent_thread_id
          none
          true
          now
        ≡ ok sent
    pub left : r ≡ (
      record sent.0 { threads = update_row parent (unread now) sent.0.threads },
      (note_report texts db turn parent operation status summary ids now).1,
    )

  pub report_new-Run :
      (db : Db) (turn : TurnRow) (parent : ℕ) (operation status summary : String) (ids : List ℕ)
      (now : Instant) (r : Db × ℕ)
      → report_new texts db turn parent operation status summary ids now ≡ ok r
      → ReportRun db turn parent operation status summary ids now r
  unfolding report_new
  report_new-Run db turn parent operation status summary ids now r h =
      let noted = note_report texts db turn parent operation status summary ids now in
      let last : Db × ℕ → Result (Db × ℕ) =
        λ q. ok (record q.0 { threads = update_row parent (unread now) q.0.threads }, noted.1) in
      let queue : ThreadRow → Result (Db × ℕ) = λ row.
        enqueue noted.0 parent (report_request texts turn noted.1)
          (report_body texts turn status summary ids) row.parent_thread_id none true now in
      let ask : ThreadRow → Result (Db × ℕ) = λ row. and_then (queue row) last in
      let (_, _, h1) =
        and_then-ok (authorize_artifacts db turn.thread_id ids)
          (λ _. and_then (row_of (find_thread_row noted.0 parent)) ask) r h in
      let (row, _, h2) = and_then-ok (row_of (find_thread_row noted.0 parent)) ask r h1 in
      let (q, e, h3) = and_then-ok (queue row) last r h2 in
      record { row = row; sent = q; queued = e; left = ground arith }

  -- The report of an end, for a turn that was requested
  pub record EndRun (db : Db) (turn : TurnRow) (state : ThreadTurnState) (failure : Option String)
      (now : Instant) (d : Db) : Type 0 where
    pub message : Option MessageRow
    pub told : Db × ℕ
    pub reported :
        report texts db turn "terminal"
          (state_name state)
          (end_summary texts state failure message)
          (outputs_of turn.id db.turn_output_artifacts)
          now
        ≡ ok told
    pub left : told.0 ≡ d

  pub report_end_to-Run :
      (db : Db) (turn : TurnRow) (state : ThreadTurnState) (failure : Option String) (now : Instant)
      (requester : ℕ) (d : Db)
      → report_end_to texts db turn state failure now (some requester) ≡ ok d
      → EndRun db turn state failure now d
  unfolding report_end_to
  report_end_to-Run db turn state failure now requester d h =
      let told : Option MessageRow → Result (Db × ℕ) = λ m.
        report texts db turn "terminal" (state_name state) (end_summary texts state failure m)
          (outputs_of turn.id db.turn_output_artifacts) now in
      let (m, _, h1) =
        and_then-ok (reply_of db turn.agent_message_id) (λ m. and_then (told m) (λ r. ok r.0)) d
          h in
      let (r, e, h2) = and_then-ok (told m) (λ r. ok r.0) d h1 in
      record { message = m; told = r; reported = e; left = ground arith }

  pub record FinishRun (db : Db) (t : TurnRow) (state : ThreadTurnState) (reply : Option ℕ)
      (failure : Option String) (now : Instant) (r : Db × TurnRow) : Type 0 where
    pub refreshed : Db × List ℕ
    pub climbed :
        refresh_from texts (ended_db db t.id state reply now) t.thread_id now ≡ ok refreshed
    pub reported : report_end texts refreshed.0 r.1 state failure now ≡ ok r.0

  pub finish_open-Run :
      (db : Db) (t : TurnRow) (state : ThreadTurnState) (reply : Option ℕ) (failure : Option String)
      (now : Instant) (r : Db × TurnRow)
      → finish_open texts db t state reply failure now ≡ ok r
      → FinishRun db t state reply failure now r
  unfolding finish_open
  finish_open-Run db t state reply failure now r h =
      let d = ended_db db t.id state reply now in
      let fin : Db × List ℕ → TurnRow → Result (Db × TurnRow) =
        λ k turn. and_then (report_end texts k.0 turn state failure now) (λ e. ok (e, turn)) in
      let got : Db × List ℕ → Result (Db × TurnRow) = λ k. and_then (get_turn k.0 t.id) (fin k) in
      let (_, _, h1) =
        and_then-ok (check_reply db t reply)
          (λ _. and_then (refresh_from texts d t.thread_id now) got) r h in
      let (k, e, h2) = and_then-ok (refresh_from texts d t.thread_id now) got r h1 in
      let (turn, _, h3) = and_then-ok (get_turn k.0 t.id) (fin k) r h2 in
      let (e', e1, h4) =
        and_then-ok (report_end texts k.0 turn state failure now) (λ e. ok (e, turn)) r h3 in
      let same : turn ≡ r.1 = ground arith in
      let left : e' ≡ r.0 = ground arith in
      record {
        refreshed = k;
        climbed = e;
        reported = ap (λ u. report_end texts k.0 u state failure now) (sym same) ∙ e1 ∙ ap ok left;
      }

  -- The turn that a finish finds, and what follows
  pub record FinishFound (db : Db) (id : ℕ) (state : ThreadTurnState) (reply : Option ℕ)
      (failure : Option String) (now : Instant) (r : Db × TurnRow) : Type 0 where
    pub ends : is_terminal state ≡ true
    pub turn : TurnRow
    pub got : get_turn db id ≡ ok turn
    pub after :
        (if is_terminal turn.state
          then ok (db, turn)
          else finish_open texts db turn state reply failure now)
        ≡ ok r

  pub finish_with_failure-Found :
      (db : Db) (id : ℕ) (state : ThreadTurnState) (reply : Option ℕ) (failure : Option String)
      (now : Instant) (r : Db × TurnRow)
      → finish_with_failure texts db id state reply failure now ≡ ok r
      → FinishFound db id state reply failure now r
  unfolding finish_with_failure
  finish_with_failure-Found db id state reply failure now r h =
      let fin : TurnRow → Result (Db × TurnRow) = λ t.
        if is_terminal t.state
        then ok (db, t)
        else finish_open texts db t state reply failure now in
      let check = ensure (is_terminal state) (failed "turn completion requires a terminal state") in
      let (t, e, h2) = and_then-ok (and_then check (λ _. get_turn db id)) fin r h in
      let (_, c, e1) = and_then-ok check (λ _. get_turn db id) t e in
      record { ends = ground arith; turn = t; got = e1; after = h2 }
