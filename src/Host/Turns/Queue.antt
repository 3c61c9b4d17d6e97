-- ===== src/Host/Turns/Queue.antt =====
-- crates/hirsel-host/src/storage/thread_activity.rs: how a turn is accepted and started, and the
-- activities of a Thread.
use hirsel.Base.{
  ℕ, String, Bool, true, false, not, Option, none, some, List, ◌==◌, if◌then◌else◌, find, opt_beq,
  nat_eq, ◌&&◌,
}
use hirsel.Proto.{Instant, ThreadTurnState}
use hirsel.Host.Tables.{
  ThreadRow, TurnRow, ActivityRow, ActivityContent, RequestPayload, nothing, Db, failed, Result, ok,
  err, ensure, ◌>>=◌, ◌>>◌,
}
use hirsel.Host.Scope.{validate_history}
use hirsel.Host.Turns.Texts.{TurnTexts, ◌+s+◌}
use hirsel.Host.Turns.Headlines.{refresh_from}
use hirsel.Host.Turns.Rows.{
  is_set, is_queued, has_running, get_turn, get_thread, get_message, find_activity, get_activity,
  insert_turn, update_turn, insert_activity, insert_key, keyed_activity, insert_request, settled,
  not_unique,
}
use hirsel.Host.Turns.Execution.{capture}

-- The column of the parent, `(SELECT parent_thread_id FROM threads WHERE id=?1)`, read beside `get`.
abbrev pub new_turn :
    ThreadTurnState → ℕ → Option ℕ → Option ℕ → Option Instant → Instant → ℕ → TurnRow
new_turn state thread parent message started now id = record {
  id = id;
  thread_id = thread;
  requester_thread_id = parent;
  requester_turn_id = none;
  owner_message_id = message;
  agent_message_id = none;
  state = state;
  accepted_at = now;
  started_at = started;
  finished_at = none;
  cancel_requested_at = none;
  last_event_at = started;
}

-- thread_archive.rs
unfoldable pub ensure_accepts_work : Db → ℕ → Result Unit
unfolding get_thread
ensure_accepts_work db thread = get_thread db thread >>= λ t.
    ensure (not (is_set t.archived_at))
      (failed "Thread is archived and accepts no new work; unarchive it first")

-- The turn of an owner message
abbrev pub turn_of_message : Db → ℕ → Option TurnRow
turn_of_message db message = find (λ t. opt_beq t.owner_message_id (some message)) db.thread_turns

-- `turn message belongs to another thread`, and the turn that the message has
unfoldable pub check_message : Db → ℕ → Option ℕ → Result (Option TurnRow)
unfolding get_message
check_message db thread none = ok none
check_message db thread (some mid) = get_message db mid >>= λ m.
    ensure (m.thread_id == thread) (failed "turn message belongs to another thread")
    >> ok (turn_of_message db mid)

-- A wake's payload without a turn
abbrev pub with_turn : RequestPayload → ℕ → RequestPayload
with_turn p turn = record p { turn_id = some turn }

abbrev pub history_of : Option String → String → Result String
history_of (some h) e = ok h
history_of none e = err (failed e)

-- UPDATE thread_turns SET state='running',…
abbrev pub started : Instant → TurnRow → TurnRow
started now t = record t {
  state = ThreadTurnState.running;
  started_at = some now;
  last_event_at = some now;
}

-- A wake that was accepted before
unfoldable pub wake_known : Db → ℕ → ℕ → Result (Db × TurnRow)
unfolding get_turn
wake_known db thread turn = get_turn db turn >>= λ t.
    ensure (t.thread_id == thread) (failed "background request belongs to another thread")
    >> ok (db, t)

-- The turn of the activity with that key; a row without a turn is no number.
abbrev pub activity_turn : Option ActivityRow → Result (Option ℕ)
activity_turn none = ok none
activity_turn (some a) = elim a.turn_id [
  | none ↦ err (failed "Invalid column type Null")
  | some turn ↦ ok (some turn)
]

abbrev pub wake_turn : Db → Option ℕ → Result (Option ℕ)
wake_turn db none = ok none
wake_turn db (some activity) = activity_turn (find_activity db activity)

abbrev pub wake_key : String → String
wake_key client_id = "background-request:" +s+ client_id

-- The activity of a wake, and the key that a repeated wake finds
unfoldable pub note_wake : Db → ℕ → ℕ → String → Instant → Result (Db × TurnRow)
unfolding insert_activity insert_key get_turn
note_wake db thread turn key now =
    let noted = insert_activity thread (some turn) "background_queued" nothing now db in
    insert_key key noted.1 noted.0 >>= λ d. get_turn d turn >>= λ t. ok (d, t)

module _ (texts : TurnTexts) where
  -- The insertion, the headlines above it, and what the turn runs on
  unfoldable pub accept_turn : Db → (ℕ → TurnRow) → ℕ → Instant → Result (Db × ℕ)
  unfolding insert_turn capture
  accept_turn db row thread now = insert_turn row db >>= λ one.
      refresh_from texts one.0 thread now >>= λ r.
      capture r.0 thread one.1 none >>= λ d. ok (d, one.1)

  unfoldable pub queue_new : Db → ℕ → Option ℕ → Option ℕ → Instant → Result (Db × TurnRow)
  unfolding accept_turn get_turn
  queue_new db thread parent message now =
      accept_turn db (new_turn ThreadTurnState.queued thread parent message none now) thread now
      >>= λ a. get_turn a.0 a.1 >>= λ t. ok (a.0, t)

  unfoldable pub queue_found :
      Db → ℕ → Option ℕ → Option ℕ → Instant → Option TurnRow → Result (Db × TurnRow)
  unfolding queue_new
  queue_found db thread parent message now (some t) = ok (db, t)
  queue_found db thread parent message now none = queue_new db thread parent message now

  unfoldable pub queue_thread_turn : Db → ℕ → Option ℕ → Instant → Result (Db × TurnRow)
  unfolding get_thread check_message queue_found
  queue_thread_turn db thread message now = get_thread db thread >>= λ row.
      check_message db thread message >>= queue_found db thread row.parent_thread_id message now

  unfoldable pub run_queued : Db → TurnRow → Instant → Db × Result TurnRow
  unfolding get_turn
  run_queued db t now =
      if has_running t.thread_id db.thread_turns
      then (db, err (not_unique "UNIQUE constraint failed: thread_turns.thread_id"))
      else (let d = record db { thread_turns = update_turn t.id (started now) db.thread_turns } in
          settled d
            (refresh_from texts d t.thread_id now >>= λ r. get_turn r.0 t.id >>= λ u. ok (r.0, u)))

  unfoldable pub run_found : Db → Instant → Result TurnRow → Db × Result TurnRow
  unfolding run_queued
  run_found db now (err e) = (db, err e)
  run_found db now (ok t) =
      let runs = run_queued db t now in if is_queued t.state then runs else (db, ok t)

  unfoldable pub run_thread_turn : Db → ℕ → Instant → Db × Result TurnRow
  unfolding get_turn run_found
  run_thread_turn db id now = run_found db now (get_turn db id)

  -- A failure after the refresh leaves the refreshed headlines.
  unfoldable pub start_after : ℕ → ℕ → Result (Db × List ℕ) → Db → Db × Result TurnRow
  unfolding get_turn
  start_after thread id (err e) db = (db, err e)
  start_after thread id (ok r) db =
      settled r.0 (capture r.0 thread id none >>= λ d. get_turn d id >>= λ t. ok (d, t))

  unfoldable pub start_inserted : Db → ℕ → Instant → Result (Db × ℕ) → Db × Result TurnRow
  unfolding start_after
  start_inserted db thread now (err e) = (db, err e)
  start_inserted db thread now (ok one) =
      start_after thread one.1 (refresh_from texts one.0 thread now) one.0

  unfoldable pub start_found :
      Db → ℕ → Option ℕ → Option ℕ → Instant → Result (Option TurnRow) → Db × Result TurnRow
  unfolding start_inserted insert_turn
  start_found db thread parent message now (err e) = (db, err e)
  start_found db thread parent message now (ok (some t)) = (db, ok t)
  start_found db thread parent message now (ok none) =
      start_inserted db thread now
        (insert_turn (new_turn ThreadTurnState.running thread parent message (some now) now) db)

  unfoldable pub start_in : Db → ℕ → Option ℕ → Instant → Result ThreadRow → Db × Result TurnRow
  unfolding start_found check_message
  start_in db thread message now (err e) = (db, err e)
  start_in db thread message now (ok row) =
      start_found db thread row.parent_thread_id message now (check_message db thread message)

  unfoldable pub start_thread_turn : Db → ℕ → Option ℕ → Instant → Db × Result TurnRow
  unfolding get_thread start_in
  start_thread_turn db thread message now = start_in db thread message now (get_thread db thread)

  unfoldable pub wake_new :
      Db → String → ℕ → Option ℕ → RequestPayload → String → Instant → Result (Db × TurnRow)
  unfolding accept_turn insert_request note_wake
  wake_new db client_id thread parent payload key now =
      accept_turn db (new_turn ThreadTurnState.queued thread parent none none now) thread now
      >>= λ a. insert_request client_id (with_turn payload a.1) a.0 >>= λ d.
          note_wake d thread a.1 key now

  unfoldable pub wake_found :
      Db
      → String
      → ℕ
      → Option ℕ
      → RequestPayload
      → String
      → Instant
      → Option ℕ
      → Result (Db × TurnRow)
  unfolding wake_known wake_new
  wake_found db client_id thread parent payload key now (some turn) = wake_known db thread turn
  wake_found db client_id thread parent payload key now none =
      wake_new db client_id thread parent payload key now

  unfoldable pub queue_background_thread_request :
      Db → String → ℕ → RequestPayload → Instant → Result (Db × TurnRow)
  unfolding validate_history get_thread ensure_accepts_work keyed_activity get_activity wake_found
  queue_background_thread_request db client_id thread payload now =
      history_of payload.history_id "background history is required" >>= λ h.
      validate_history db h >> get_thread db thread >>= λ row.
      ensure_accepts_work db thread
      >> (wake_turn db (keyed_activity db (wake_key client_id))
          >>= wake_found db client_id thread row.parent_thread_id payload (wake_key client_id) now)

-- The turn of an activity belongs to its Thread.
unfoldable pub check_turn : Db → ℕ → Option ℕ → Result Unit
unfolding get_turn
check_turn db thread none = ok tt
check_turn db thread (some id) = get_turn db id >>= λ t.
    ensure (t.thread_id == thread) (failed "activity turn belongs to another thread")

abbrev pub add_activity :
    Db → ℕ → Option ℕ → String → ActivityContent → Instant → Result (Db × ActivityRow)
add_activity db thread turn kind content now =
    let (d, id) = insert_activity thread turn kind content now db in
    get_activity d id >>= λ a. ok (d, a)

unfoldable pub append_thread_activity :
    Db → ℕ → Option ℕ → String → ActivityContent → Instant → Result (Db × ActivityRow)
unfolding get_thread check_turn insert_activity get_activity
append_thread_activity db thread turn kind content now = get_thread db thread >>= λ row.
    check_turn db thread turn >> add_activity db thread turn kind content now

once_found :
    Db
    → String
    → ℕ
    → Option ℕ
    → String
    → ActivityContent
    → Instant
    → Option ℕ
    → Result (Db × (ActivityRow × Bool))
unfolding get_thread check_turn insert_activity insert_key get_activity
once_found db key thread turn kind content now (some id) = get_activity db id >>= λ a.
    ensure (a.thread_id == thread && opt_beq a.turn_id turn)
      (failed "activity replay key belongs to another turn")
    >> ok (db, (a, false))
once_found db key thread turn kind content now none = get_thread db thread >>= λ row.
    check_turn db thread turn
    >> (let noted = insert_activity thread turn kind content now db in
        insert_key key noted.1 noted.0 >>= λ d. get_activity d noted.1 >>= λ a. ok (d, (a, true)))

unfoldable pub append_thread_activity_once :
    Db
    → String
    → String
    → ℕ
    → Option ℕ
    → String
    → ActivityContent
    → Instant
    → Result (Db × (ActivityRow × Bool))
unfolding validate_history once_found keyed_activity
append_thread_activity_once db history key thread turn kind content now =
    validate_history db history
    >> once_found db key thread turn kind content now (keyed_activity db key)
