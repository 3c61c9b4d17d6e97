-- ===== src/Host/Turns/Finish.antt =====
-- How a turn ends: `finish` and the recovery at boot of
-- crates/hirsel-host/src/storage/thread_activity.rs, and thread_completion.rs.
use hirsel.Base.{
  ℕ, suc, String, true, ◌&&◌, Option, none, some, List, [], ◌∷◌, ◌++◌, ◌==◌, str_eq, if◌then◌else◌,
  lookup, insert, nat_eq, insert_by_key,
}
use hirsel.Proto.{Instant, Json, ThreadTurnState, is_terminal, ChatAuthor}
use hirsel.Host.Tables.{
  TurnRow, ActivityRow, ActivityContent, MessageRow, BindingRow, SessionProfile, Db, failed, Result,
  ok, ensure, ◌>>=◌, ◌>>◌,
}
use hirsel.Host.Scope.{validate_history}
use hirsel.Host.Turns.Texts.{TurnTexts, ◌+s+◌, is_empty_text}
use hirsel.Host.Turns.Headlines.{refresh_from}
use hirsel.Host.Turns.Rows.{
  is_running, state_name, get_turn, get_message, get_activity, update_turn, insert_activity,
  insert_key, keyed_activity, drop_requests_of,
}
use hirsel.Host.Turns.Reports.{report}

abbrev pub coalesce : Option ℕ → Option ℕ → Option ℕ
coalesce none b = b
coalesce (some a) b = some a

-- UPDATE thread_turns SET state=?2,…
abbrev pub finished : ThreadTurnState → Option ℕ → Instant → TurnRow → TurnRow
finished state reply now t = record t {
  state = state;
  agent_message_id = coalesce reply t.agent_message_id;
  finished_at = some now;
}

unfoldable pub check_reply : Db → TurnRow → Option ℕ → Result Unit
unfolding get_message
check_reply db turn none = ok tt
check_reply db turn (some mid) = get_message db mid >>= λ m.
    ensure (m.thread_id == turn.thread_id) (failed "turn reply belongs to another thread")

-- SELECT artifact_id FROM turn_output_artifacts WHERE turn_id=?1 ORDER BY artifact_id
abbrev pub outputs_of : ℕ → List (ℕ × ℕ) → List ℕ
outputs_of turn [] = []
outputs_of turn ((t, artifact) ∷ rest) =
    let more = outputs_of turn rest in
    if t == turn then insert_by_key (λ x. x) artifact more else more

-- The reply of a turn, if it has one
unfoldable pub reply_of : Db → Option ℕ → Result (Option MessageRow)
unfolding get_message
reply_of db none = ok none
reply_of db (some mid) = get_message db mid >>= λ m. ok (some m)

-- SELECT id FROM thread_turns WHERE state='running'
abbrev pub running_ids : List TurnRow → List ℕ
running_ids [] = []
running_ids (t ∷ rest) =
    let more = running_ids rest in if is_running t.state then t.id ∷ more else more

abbrev profile_or_default : Option SessionProfile → SessionProfile
profile_or_default none = record { fingerprint = ""; tool_names = []; generation = 0 }
profile_or_default (some p) = p

-- meta.rs
unfoldable pub invalidate_agent_session_profile : Db → ℕ → String → Db
invalidate_agent_session_profile db thread fingerprint =
    let profile = profile_or_default (lookup thread db.session_profiles) in
    record db {
      session_profiles =
          insert thread (record profile { fingerprint = fingerprint }) db.session_profiles;
    }

-- thread_completion.rs; a tool call is its JSON text.
pub record ThreadCompletion : Type 0 where
  pub turn : TurnRow
  pub message : Option MessageRow
  pub failure_activity : Option ActivityRow

unfoldable pub failure_of : Db → Option ℕ → Result (Option ActivityRow)
unfolding get_activity
failure_of db none = ok none
failure_of db (some id) = get_activity db id >>= λ a. ok (some a)

-- UPDATE thread_execution_bindings SET revoked=1 WHERE history_id=?1 AND turn_id=?2
unfoldable pub revoke_bindings : String → ℕ → List BindingRow → List BindingRow
revoke_bindings history turn [] = []
revoke_bindings history turn (b ∷ rest) =
    let more = revoke_bindings history turn rest in
    (if str_eq b.history_id history && b.turn_id == turn then record b { revoked = true } else b)
    ∷ more

abbrev pub retire : String → ℕ → Db → Db
retire history id db = record (drop_requests_of id db) {
  thread_execution_bindings = revoke_bindings history id db.thread_execution_bindings;
}

module _ (texts : TurnTexts) where
  unfoldable pub end_summary : ThreadTurnState → Option String → Option MessageRow → String
  end_summary state failure message =
      let plain =
        "Child execution " +s+ state_name state +s+ " without a final assistant message." in
      let instead : String = elim failure [
        | none ↦ plain
        | some reason ↦
            texts.take_chars 8000 ("Child execution " +s+ state_name state +s+ ": " +s+ reason)
      ] in
      elim message [
        | none ↦ instead
        | some m ↦
            if is_empty_text (texts.trim m.body)
            then instead
            else texts.take_chars 8000 (texts.trim m.body)
      ]

  unfoldable pub report_end_to :
      Db → TurnRow → ThreadTurnState → Option String → Instant → Option ℕ → Result Db
  unfolding reply_of end_summary report
  report_end_to db turn state failure now none = ok db
  report_end_to db turn state failure now (some requester) =
      reply_of db turn.agent_message_id >>= λ m.
      report texts db turn "terminal" (state_name state) (end_summary state failure m)
        (outputs_of turn.id db.turn_output_artifacts) now
      >>= λ r. ok r.0

  -- `if turn.requester_thread_id.is_some()`
  unfoldable pub report_end : Db → TurnRow → ThreadTurnState → Option String → Instant → Result Db
  unfolding report_end_to
  report_end db turn state failure now =
      report_end_to db turn state failure now turn.requester_thread_id

  unfoldable pub finish_open :
      Db → TurnRow → ThreadTurnState → Option ℕ → Option String → Instant → Result (Db × TurnRow)
  unfolding check_reply get_turn report_end
  finish_open db previous state reply failure now =
      check_reply db previous reply
      >> (let d = record db {
        thread_turns = update_turn previous.id (finished state reply now) db.thread_turns;
      } in
          refresh_from texts d previous.thread_id now >>= λ r. get_turn r.0 previous.id >>= λ turn.
          report_end r.0 turn state failure now >>= λ e. ok (e, turn))

  unfoldable pub finish_with_failure :
      Db → ℕ → ThreadTurnState → Option ℕ → Option String → Instant → Result (Db × TurnRow)
  unfolding get_turn finish_open
  finish_with_failure db id state reply failure now =
      ensure (is_terminal state) (failed "turn completion requires a terminal state")
      >> get_turn db id
      >>= λ previous.
          if is_terminal previous.state
          then ok (db, previous)
          else finish_open db previous state reply failure now

  unfoldable pub finish_thread_turn :
      Db → ℕ → ThreadTurnState → Option ℕ → Instant → Result (Db × TurnRow)
  unfolding finish_with_failure
  finish_thread_turn db id state reply now =
      ensure (is_terminal state) (failed "finish requires terminal state")
      >> finish_with_failure db id state reply none now

  -- The body of the loop at boot
  unfoldable pub interrupt_turn : Db → ℕ → Instant → Result (Db × TurnRow)
  unfolding get_turn invalidate_agent_session_profile drop_requests_of finish_with_failure
  interrupt_turn db id now = get_turn db id >>= λ t.
      finish_with_failure
        (drop_requests_of id (
          invalidate_agent_session_profile db t.thread_id
            ("interrupted-turn:" +s+ texts.decimal id)))
        id ThreadTurnState.interrupted none none now

  unfoldable pub interrupt_turns : Db → List ℕ → Instant → Result (Db × List TurnRow)
  unfolding interrupt_turn
  interrupt_turns db [] now = ok (db, [])
  interrupt_turns db (id ∷ rest) now = interrupt_turn db id now >>= λ one.
      interrupt_turns one.0 rest now >>= λ more. ok (more.0, one.1 ∷ more.1)

  unfoldable pub interrupt_unfinished_thread_turns : Db → Instant → Result (Db × List TurnRow)
  unfolding interrupt_turns
  interrupt_unfinished_thread_turns db now = interrupt_turns db (running_ids db.thread_turns) now

  abbrev pub failure_key : String → ℕ → String
  failure_key history id = "cli-terminal-failure:" +s+ history +s+ ":" +s+ texts.decimal id

  -- Re-entry
  unfoldable pub complete_again : Db → String → TurnRow → Result (Db × ThreadCompletion)
  unfolding reply_of keyed_activity failure_of
  complete_again db history before = reply_of db before.agent_message_id >>= λ m.
      failure_of db (keyed_activity db (failure_key history before.id)) >>= λ f.
      ok (db, record { turn = before; message = m; failure_activity = f })

  unfoldable pub note_failure :
      Db → String → TurnRow → Option String → Instant → Result (Db × Option ActivityRow)
  unfolding insert_activity insert_key get_activity
  note_failure db history before none now = ok (db, none)
  note_failure db history before (some reason) now =
      let noted =
        insert_activity before.thread_id (some before.id) "execution_failed"
          (ActivityContent.failure reason) now db in
      insert_key (failure_key history before.id) noted.1 noted.0 >>= λ d.
      get_activity d noted.1 >>= λ a. ok (d, some a)

  abbrev pub is_shown : Option (String × List Json) → Option (String × List Json)
  is_shown none = none
  is_shown (some (text, [])) = if is_empty_text (texts.trim text) then none else some (text, [])
  is_shown (some (text, call ∷ calls)) = some (text, call ∷ calls)

  unfoldable pub add_message : Db → TurnRow → Option (String × List Json) → Instant → Db × Option ℕ
  add_message db before none now = (db, before.agent_message_id)
  add_message db before (some (text, calls)) now =
      let id = suc db.last_message_id in
      let row : MessageRow = record {
        id = id;
        thread_id = before.thread_id;
        author = ChatAuthor.agent;
        body = text;
        reference = before.owner_message_id;
        ts = now;
        tool_calls = texts.call_list calls;
        mentions = [];
      } in
      (record db { chat_messages = db.chat_messages ++ row ∷ []; last_message_id = id }, some id)

  -- The agent's message, if the output is shown
  unfoldable pub add_reply : Db → TurnRow → Option (String × List Json) → Instant → Db × Option ℕ
  unfolding add_message
  add_reply db before output now = add_message db before (is_shown output) now

  unfoldable pub complete_open :
      Db
      → String
      → TurnRow
      → ThreadTurnState
      → Option (String × List Json)
      → Option String
      → Instant
      → Result (Db × ThreadCompletion)
  unfolding note_failure add_reply finish_with_failure drop_requests_of revoke_bindings reply_of
  complete_open db history before state output failure now =
      note_failure db history before failure now >>= λ noted.
      (let replied = add_reply noted.0 before output now in
        finish_with_failure replied.0 before.id state replied.1 failure now >>= λ ended.
        (let d = retire history before.id ended.0 in
          reply_of d replied.1 >>= λ m.
          ok (d, record { turn = ended.1; message = m; failure_activity = noted.1 })))

  unfoldable pub complete_thread_turn_with_failure :
      Db
      → String
      → ℕ
      → ThreadTurnState
      → Option (String × List Json)
      → Option String
      → Instant
      → Result (Db × ThreadCompletion)
  unfolding validate_history get_turn complete_again complete_open
  complete_thread_turn_with_failure db history id state output failure now =
      ensure (is_terminal state) (failed "completion must be terminal")
      >> validate_history db history
      >> get_turn db id
      >>= λ before.
          if is_terminal before.state
          then complete_again db history before
          else complete_open db history before state output failure now

  unfoldable pub complete_thread_turn :
      Db
      → String
      → ℕ
      → ThreadTurnState
      → Option (String × List Json)
      → Instant
      → Result (Db × (TurnRow × Option MessageRow))
  unfolding complete_thread_turn_with_failure
  complete_thread_turn db history id state output now =
      complete_thread_turn_with_failure db history id state output none now >>= λ c.
      ok (c.0, (c.1.turn, c.1.message))
