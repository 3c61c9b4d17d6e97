-- ===== src/Host/Turns/Refines/Complete.antt =====
-- The commit of a finished execution (crates/hirsel-host/src/storage/thread_completion.rs), work
-- that is delegated (thread_delegation.rs) and a subtree that is archived (thread_archive.rs).
use hirsel.Base.{
  ℕ, String, ◌≡◌, refl, ap, ◌∙◌, false, Option, none, some, List, arith, if◌then◌else◌, Bool-cases,
  inl, inr, nat_eq,
}
use hirsel.Proto.{Instant, Json, ThreadTurnState, is_terminal}
use hirsel.Host.Tables.{
  TurnRow, ActivityRow, MessageRow, DelegationRow, Db, failed, Result, ok, and_then, ensure,
}
use hirsel.Host.Granted.{and_then-ok}
use hirsel.Host.Scope.{validate_history}
use hirsel.Host.Turns.Texts.{TurnTexts}
use hirsel.Host.Turns.Rows.{get_turn}
use hirsel.Host.Turns.Reports.{enqueue}
use hirsel.Host.Turns.Finish.{
  add_message, ThreadCompletion, reply_of, failure_of, failure_key, note_failure, add_reply,
  is_shown, retire, finish_with_failure, complete_again, complete_open,
  complete_thread_turn_with_failure,
}
use hirsel.Host.Turns.Rows.{keyed_activity}
use hirsel.Host.Threads.Create.{insert_thread}
use hirsel.Host.Turns.Delegation.{
  Delegation, DelegatedTurn, choose_child, delegation_request, prefer, note_delegation,
  delegated_before, delegate_new, delegate_found, delegate_thread, find_delegation,
}
use hirsel.Host.Turns.Callers.{ThreadCaller}
use hirsel.Host.Turns.Machine.{TurnSteps-trans}
use hirsel.Host.Turns.Refines.Accept.{
  table, Refines, Refines-same, Refines-then, enqueue-Refines, queued_turn-IsNew,
}
use hirsel.Host.Turns.Refines.Ends.{finish_with_failure-Refines}

module _ (texts : TurnTexts) where
  note_failure-table :
      (db : Db) (history : String) (before : TurnRow) (failure : Option String) (now : Instant)
      (r : Db × Option ActivityRow)
      → note_failure texts db history before failure now ≡ ok r
      → table db ≡ table r.0
  unfolding note_failure
  note_failure-table db history before none now r h = ground arith
  note_failure-table db history before (some reason) now r h = ground arith

  add_reply-table :
      (db : Db) (before : TurnRow) (output : Option (String × List Json)) (now : Instant)
      → table db ≡ table (add_reply texts db before output now).0
  unfolding add_reply
  add_reply-table db before output now = shown (is_shown texts output)
    where
      shown :
          (o : Option (String × List Json)) → table db ≡ table (add_message texts db before o now).0
      shown none = refl
      shown (some (text, calls)) = refl

  complete_again-Refines :
      (db : Db) (history : String) (before : TurnRow) (r : Db × ThreadCompletion)
      → complete_again texts db history before ≡ ok r
      → Refines db r.0
  unfolding complete_again
  complete_again-Refines db history before r h =
      let last : Option MessageRow → Option ActivityRow → Result (Db × ThreadCompletion) =
        λ m f. ok (db, record { turn = before; message = m; failure_activity = f }) in
      let known = failure_of db (keyed_activity db (failure_key texts history before.id)) in
      let (m, _, h1) =
        and_then-ok (reply_of db before.agent_message_id) (λ m. and_then known (last m)) r h in
      let (f, _, h2) = and_then-ok known (last m) r h1 in
      let same : db ≡ r.0 = ground arith in Refines-same db r.0 (ap table same)

  complete_open-Refines :
      (db : Db) (history : String) (before : TurnRow) (state : ThreadTurnState)
      (output : Option (String × List Json)) (failure : Option String) (now : Instant)
      (r : Db × ThreadCompletion)
      → complete_open texts db history before state output failure now ≡ ok r
      → Refines db r.0
  unfolding complete_open
  complete_open-Refines db history before state output failure now r h =
      let replied : Db × Option ActivityRow → Db × Option ℕ =
        λ noted. add_reply texts noted.0 before output now in
      let fin : Db × Option ActivityRow
          → Db × TurnRow
          → Option MessageRow
          → Result (Db × ThreadCompletion) =
        λ noted ended m. ok (
          retire history before.id ended.0,
          record { turn = ended.1; message = m; failure_activity = noted.1 },
        ) in
      let ask : Db × Option ActivityRow → Db × TurnRow → Result (Db × ThreadCompletion) =
        λ noted ended.
          and_then (reply_of (retire history before.id ended.0) (replied noted).1)
            (fin noted ended) in
      let close : Db × Option ActivityRow → Result (Db × TurnRow) = λ noted.
        finish_with_failure texts (replied noted).0 before.id state (replied noted).1 failure now in
      let (noted, e, h1) =
        and_then-ok (note_failure texts db history before failure now)
          (λ noted. and_then (close noted) (ask noted)) r h in
      let (ended, e1, h2) = and_then-ok (close noted) (ask noted) r h1 in
      let (m, _, h3) =
        and_then-ok (reply_of (retire history before.id ended.0) (replied noted).1)
          (fin noted ended) r h2 in
      let same : table ended.0 ≡ table r.0 = ground arith in
      TurnSteps-trans
        (Refines-same db (replied noted).0 (
          note_failure-table db history before failure now noted e
          ∙ add_reply-table noted.0 before output now))
        (Refines-then (replied noted).0 ended.0 r.0
          (finish_with_failure-Refines texts (replied noted).0 before.id state (replied noted).1
            failure now ended e1)
          same)

  pub complete-Refines :
      (db : Db) (history : String) (id : ℕ) (state : ThreadTurnState)
      (output : Option (String × List Json)) (failure : Option String) (now : Instant)
      (r : Db × ThreadCompletion)
      → complete_thread_turn_with_failure texts db history id state output failure now ≡ ok r
      → Refines db r.0
  unfolding complete_thread_turn_with_failure
  complete-Refines db history id state output failure now r h =
      let fin : TurnRow → Result (Db × ThreadCompletion) = λ t.
        if is_terminal t.state
        then complete_again texts db history t
        else complete_open texts db history t state output failure now in
      let check =
        and_then (ensure (is_terminal state) (failed "completion must be terminal"))
          (λ _. validate_history db history) in
      let (t, _, h1) = and_then-ok (and_then check (λ _. get_turn db id)) fin r h in
      elim (Bool-cases (is_terminal t.state)) [
        | inl q ↦ complete_again-Refines db history t r (ground arith)
        | inr q ↦ complete_open-Refines db history t state output failure now r (ground arith)
      ]

  choose_child-table :
      (db : Db) (caller : ThreadCaller) (assignment : Delegation) (now : Instant) (r : Db × ℕ)
      → choose_child texts db caller assignment now ≡ ok r
      → table db ≡ table r.0
  unfolding choose_child insert_thread
  choose_child-table db caller assignment now r h = ground arith

  delegate_new-Refines :
      (db : Db) (caller : ThreadCaller) (operation : String) (assignment : Delegation)
      (payload : Json) (now : Instant) (r : Db × DelegatedTurn)
      → delegate_new texts db caller operation assignment payload now ≡ ok r
      → Refines db r.0
  unfolding delegate_new note_delegation
  delegate_new-Refines db caller operation assignment payload now r h =
      let prepared : Db × ℕ → Db = λ c. record c.0 {
        thread_execution_preferences =
            prefer c.1 assignment.execution c.0.thread_execution_preferences;
      } in
      let queue : Db × ℕ → Result (Db × ℕ) = λ c.
        enqueue (prepared c) c.1 (delegation_request texts caller operation) assignment.brief
          (some caller.thread_id) (some caller.turn_id) false now in
      let fin : Db × ℕ → Db × ℕ → Result (Db × DelegatedTurn) = λ c q. ok (
        note_delegation q.0 caller operation payload assignment c.1 q.1 now,
        record { thread_id = c.1; turn_id = q.1 },
      ) in
      let (c, e, h1) =
        and_then-ok (choose_child texts db caller assignment now) (λ c. and_then (queue c) (fin c))
          r h in
      let (q, e1, h2) = and_then-ok (queue c) (fin c) r h1 in
      let same : table q.0 ≡ table r.0 = ground arith in
      TurnSteps-trans
        (Refines-same db (prepared c) (choose_child-table db caller assignment now c e))
        (Refines-then (prepared c) q.0 r.0
          (enqueue-Refines (prepared c) c.1 (delegation_request texts caller operation)
            assignment.brief (some caller.thread_id) (some caller.turn_id) false now q
            (queued_turn-IsNew c.1 caller.thread_id (some caller.turn_id) now) e1)
          same)

  delegate_found-Refines :
      (db : Db) (caller : ThreadCaller) (operation : String) (assignment : Delegation)
      (payload : Json) (now : Instant) (o : Option DelegationRow) (r : Db × DelegatedTurn)
      → delegate_found texts db caller operation assignment payload now o ≡ ok r
      → Refines db r.0
  unfolding delegate_found
  delegate_found-Refines db caller operation assignment payload now (some row) r h =
      let (t, _, k) = and_then-ok (delegated_before row payload) (λ t. ok (db, t)) r h in
      let same : db ≡ r.0 = ground arith in Refines-same db r.0 (ap table same)
  delegate_found-Refines db caller operation assignment payload now none r h =
      delegate_new-Refines db caller operation assignment payload now r h

  pub delegate_thread-Refines :
      (db : Db) (caller : ThreadCaller) (operation : String) (assignment : Delegation)
      (payload : Json) (now : Instant) (r : Db × DelegatedTurn)
      → delegate_thread texts db caller operation assignment payload now ≡ ok r
      → Refines db r.0
  unfolding delegate_thread
  delegate_thread-Refines db caller operation assignment payload now r h =
      let found = find_delegation db caller.turn_id operation in
      delegate_found-Refines db caller operation assignment payload now found r (ground arith)
