-- ===== src/Host/Turns/Messages.antt =====
-- The messages of a Thread that accept a turn or answer one
-- (crates/hirsel-host/src/storage/thread_messages.rs), the events of a turn (thread_events.rs) and the
-- reset of a history (crates/hirsel-host/src/storage.rs).
use hirsel.Base.{
  ℕ, suc, zero, String, Bool, true, false, not, ◌&&◌, ◌||◌, ◌+◌, Option, none, some, List, [], ◌∷◌,
  ◌++◌, ◌==◌, if◌then◌else◌, any, contains, lookup, leb, length, nat_eq, str_eq, string_eq,
}
use hirsel.Proto.{Instant, Json, ChatAuthor, ThreadTurnState}
use hirsel.Host.Tables.{
  ThreadRow, TurnRow, MessageRow, EventRow, RequestPayload, Db, failed, Result, ok, err, ensure,
  ◌>>◌, ◌>>=◌, find_thread_row,
}
use hirsel.Host.Scope.{validate_history}
use hirsel.Host.Turns.Texts.{TurnTexts, ◌+s+◌}
use hirsel.Host.Turns.Headlines.{refresh_from}
use hirsel.Host.Turns.Rows.{
  is_set, find_turn, get_turn, get_thread, get_message, update_row, update_turn, insert_turn,
  insert_request, sorted_ids,
}
use hirsel.Host.Turns.Execution.{capture}
use hirsel.Host.Turns.Queue.{new_turn}
use hirsel.Host.Turns.Reports.{same_ids}
use hirsel.Host.Turns.Finish.{outputs_of}
use hirsel.Host.Turns.Requests.{is_awake}
use hirsel.Host.Threads.Rules.{is_task}

-- ThreadActionContext (crates/hirsel-host/src/lash_runtime/runtime.rs), with the members that are read
pub record ActionContext : Type 0 where
  pub thread_id : ℕ
  pub revision : ℕ
  pub action : String
  pub given : Json

-- The decoding of an action, and what the instrument says of it: `validate_action`, with `settles`.
pub record ActionTexts : Type 0 where
  pub action_context : Json → Result ActionContext
  pub validate_action : Json → String → Json → Result Bool

-- A request with a message: the model's input, if it is not the message, and an instrument's action
pub record OwnerRequest : Type 0 where
  pub body : Option String
  pub action : Option Json

pub record OwnerRecord : Type 0 where
  pub thread_id : ℕ
  pub client_id : String
  pub body : String
  pub anchor : Option ℕ
  pub attachments : List String
  pub mentions : List ℕ
  pub artifact_ids : List ℕ
  pub request : Option OwnerRequest

abbrev pub action_of : Option OwnerRequest → Option Json
action_of none = none
action_of (some r) = r.action

-- artifacts.rs, message_artifacts
abbrev pub message_artifacts_of : Db → ℕ → List ℕ
message_artifacts_of db id = sorted_ids (outputs_of id db.message_artifacts)

unfoldable pub check_anchor : Db → ℕ → Option ℕ → Result Unit
unfolding get_message
check_anchor db thread none = ok tt
check_anchor db thread (some anchor) = get_message db anchor >>= λ m.
    ensure (m.thread_id == thread) (failed "reply belongs to another thread")

abbrev pub same_action : Option Json → Json → Bool
same_action none action = false
same_action (some old) action = str_eq old action

abbrev pub check_receipt : Db → String → Option Json → Result Unit
check_receipt db client_id none = ok tt
check_receipt db client_id (some action) =
    ensure (same_action (lookup client_id db.thread_action_receipts) action)
      (failed "client action ID was already used with another payload")

-- A message that was accepted before
unfoldable pub message_again : Db → OwnerRecord → List ℕ → ℕ → Result (Db × (MessageRow × Bool))
unfolding get_message sorted_ids
message_again db r ids id = get_message db id >>= λ m.
    ensure (same_ids (message_artifacts_of db id) ids)
      (failed "client_id artifact references changed")
    >> ensure (m.thread_id == r.thread_id) (failed "client_id belongs to another thread")
    >> check_receipt db r.client_id (action_of r.request)
    >> ok (db, (m, false))

unfoldable pub check_blobs : Db → List String → Result Unit
check_blobs db [] = ok tt
check_blobs db (id ∷ rest) =
    ensure (any (λ b. str_eq b id) db.blobs) (failed ("unknown blob id: " +s+ id))
    >> check_blobs db rest

unfoldable pub check_artifacts : Db → List ℕ → Result Unit
check_artifacts db [] = ok tt
check_artifacts db (id ∷ rest) =
    ensure (contains db.artifacts id) (failed "referenced artifact does not exist")
    >> check_artifacts db rest

-- INSERT INTO chat_messages
abbrev pub insert_message : (ℕ → MessageRow) → Db → Db
insert_message row db =
    let id = suc db.last_message_id in
    record db { chat_messages = db.chat_messages ++ row id ∷ []; last_message_id = id }

abbrev pub owner_message : OwnerRecord → Instant → ℕ → MessageRow
owner_message r now id = record {
  id = id;
  thread_id = r.thread_id;
  author = ChatAuthor.owner;
  body = r.body;
  reference = r.anchor;
  ts = now;
  tool_calls = "[]";
  mentions = r.mentions;
}

abbrev pub paired : {A : Type 0} → ℕ → List A → List (ℕ × A)
paired id [] = []
paired id (a ∷ rest) = (id, a) ∷ paired id rest

-- The message with its rows in the other tables
unfoldable pub put_message : Db → OwnerRecord → List ℕ → Instant → Db
put_message db r ids now =
    let id = suc db.last_message_id in
    record (insert_message (owner_message r now) db) {
      client_messages = db.client_messages ++ (r.client_id, id) ∷ [];
      message_attachments = db.message_attachments ++ paired id r.attachments;
      message_artifacts = db.message_artifacts ++ paired id ids;
    }

abbrev pub body_or : Option String → String → String
body_or none body = body
body_or (some text) body = text

abbrev pub owner_payload : OwnerRecord → OwnerRequest → String → ℕ → RequestPayload
owner_payload r request history turn = record {
  history_id = some history;
  thread_id = r.thread_id;
  turn_id = some turn;
  body = body_or request.body r.body;
  report_triggered = false;
}

-- The turn of a message that comes with a request
unfoldable pub accept_request :
    Db → OwnerRecord → String → Option ℕ → ℕ → Option OwnerRequest → Instant → Result Db
unfolding insert_turn capture insert_request
accept_request db r history parent message none now = ok db
accept_request db r history parent message (some request) now =
    insert_turn (new_turn ThreadTurnState.queued r.thread_id parent (some message) none now) db
    >>= λ taken. capture taken.0 r.thread_id taken.1 none >>= λ d.
        insert_request r.client_id (owner_payload r request history taken.1) d

abbrev pub settled_by_action : Instant → ThreadRow → ThreadRow
settled_by_action now t = record t {
  settled_at = some now;
  updated_at = now;
  revision = t.revision + 1;
}

abbrev pub touched_by_action : Instant → ThreadRow → ThreadRow
touched_by_action now t = record t { updated_at = now; revision = t.revision + 1 }

abbrev instrument_of : Option Json → Result Json
instrument_of none = err (failed "Thread has no instrument")
instrument_of (some i) = ok i

module _ (texts : TurnTexts) where
  unfoldable pub check_mentions : Db → List ℕ → Result Unit
  check_mentions db [] = ok tt
  check_mentions db (id ∷ rest) =
      ensure (is_set (find_thread_row db id))
        (failed ("unknown mentioned Thread #" +s+ texts.decimal id +s+ ": Query returned no rows"))
      >> check_mentions db rest

  -- An action needs a Thread that is active as its user saw it; whether it settles the Thread
  unfoldable pub check_action : ActionTexts → ThreadRow → Option Json → Instant → Result Bool
  check_action actions t none now = ok false
  check_action actions t (some action) now = actions.action_context action >>= λ c.
      ensure (c.thread_id == t.id && c.revision == t.revision)
        (failed "instrument changed; reload the thread before submitting this action")
      >> ensure (not (is_set t.settled_at) && (not (is_set t.archived_at) && is_awake texts now t))
          (failed "thread is no longer active")
      >> instrument_of t.instrument
      >>= λ i. actions.validate_action i c.action c.given >>= λ settles.
          ensure (is_task t.kind || not settles) (failed "Spaces cannot be completed") >> ok settles

  abbrev pub touch_thread : Db → ℕ → Bool → Instant → Result Db
  touch_thread db thread true now =
      refresh_from texts
        (record db { threads = update_row thread (settled_by_action now) db.threads }) thread now
      >>= λ r. ok r.0
  touch_thread db thread false now =
      ok (record db { threads = update_row thread (touched_by_action now) db.threads })

  -- The receipt of an action, and the change of its Thread
  unfoldable pub note_action : Db → ℕ → String → Option Json → Bool → Instant → Result Db
  unfolding refresh_from
  note_action db thread client_id none settles now = ok db
  note_action db thread client_id (some action) settles now =
      ensure (not (is_set (lookup client_id db.thread_action_receipts)))
        (failed "UNIQUE constraint failed: thread_action_receipts.client_id")
      >> touch_thread
          (record db {
            thread_action_receipts = db.thread_action_receipts ++ (client_id, action) ∷ [];
          })
          thread settles now

  unfoldable pub put_record :
      Db → String → OwnerRecord → List ℕ → Option ℕ → Instant → Result (Db × (MessageRow × Bool))
  unfolding check_artifacts check_blobs put_message get_message accept_request
  put_record db history r ids parent now =
      check_artifacts db ids
      >> check_blobs db r.attachments
      >> (let d = put_message db r ids now in
          get_message d d.last_message_id >>= λ m.
          accept_request d r history parent d.last_message_id r.request now >>= λ e.
          ok (e, (m, true)))

module _ (texts : TurnTexts) (actions : ActionTexts) where
  unfoldable pub new_record :
      Db → String → OwnerRecord → List ℕ → ThreadRow → Instant → Result (Db × (MessageRow × Bool))
  unfolding check_anchor check_mentions check_action note_action put_record
  new_record db history r ids t now =
      check_anchor db r.thread_id r.anchor
      >> check_mentions texts db r.mentions
      >> check_action texts actions t (action_of r.request) now
      >>= λ settles.
          note_action texts db r.thread_id r.client_id (action_of r.request) settles now >>= λ d.
          put_record texts d history r ids t.parent_thread_id now

  unfoldable pub record_found :
      Db
      → String
      → OwnerRecord
      → List ℕ
      → ThreadRow
      → Instant
      → Option ℕ
      → Result (Db × (MessageRow × Bool))
  unfolding message_again new_record
  record_found db history r ids t now (some id) = message_again db r ids id
  record_found db history r ids t now none = new_record db history r ids t now

  unfoldable pub append_thread_owner_record :
      Db → String → OwnerRecord → Instant → Result (Db × (MessageRow × Bool))
  unfolding validate_history get_thread record_found sorted_ids
  append_thread_owner_record db history r now =
      let ids = sorted_ids r.artifact_ids in
      ensure (leb (length ids) 16) (failed "a message may reference at most 16 distinct artifacts")
      >> validate_history db history
      >> get_thread db r.thread_id
      >>= λ t. record_found db history r ids t now (lookup r.client_id db.client_messages)

abbrev pub said : ℕ → ChatAuthor → String → Option ℕ → Json → Instant → ℕ → MessageRow
said thread author body anchor calls now id = record {
  id = id;
  thread_id = thread;
  author = author;
  body = body;
  reference = anchor;
  ts = now;
  tool_calls = calls;
  mentions = [];
}

unfoldable pub append_thread_chat :
    Db → ℕ → ChatAuthor → String → Option ℕ → Json → Instant → Result (Db × MessageRow)
unfolding get_thread check_anchor get_message
append_thread_chat db thread author body anchor calls now = get_thread db thread >>= λ t.
    check_anchor db thread anchor
    >> (let d = insert_message (said thread author body anchor calls now) db in
        get_message d d.last_message_id >>= λ m. ok (d, m))

-- UPDATE thread_turns SET agent_message_id=?2
abbrev pub answered : ℕ → TurnRow → TurnRow
answered message t = record t { agent_message_id = some message }

unfoldable pub reply_found :
    Db → TurnRow → String → Option ℕ → Json → Instant → Option ℕ → Result (Db × MessageRow)
unfolding get_message check_anchor
reply_found db turn body anchor calls now (some id) = get_message db id >>= λ m. ok (db, m)
reply_found db turn body anchor calls now none =
    check_anchor db turn.thread_id anchor
    >> (let d = insert_message (said turn.thread_id ChatAuthor.agent body anchor calls now) db in
        let e = record d {
          thread_turns = update_turn turn.id (answered d.last_message_id) d.thread_turns;
        } in
        get_message e d.last_message_id >>= λ m. ok (e, m))

unfoldable pub materialize_thread_reply :
    Db → ℕ → String → Option ℕ → Json → Instant → Result (Db × MessageRow)
unfolding get_turn reply_found
materialize_thread_reply db id body anchor calls now =
    get_turn db id >>= λ turn. reply_found db turn body anchor calls now turn.agent_message_id

-- SELECT COALESCE(MAX(seq)+1,0)
unfoldable pub next_seq : ℕ → List EventRow → ℕ
next_seq turn [] = zero
next_seq turn (e ∷ rest) =
    let later = next_seq turn rest in
    if e.turn_id == turn && leb later e.seq then suc e.seq else later

abbrev pub owned_by : ℕ → Option TurnRow → Bool
owned_by thread none = false
owned_by thread (some t) = t.thread_id == thread

-- UPDATE thread_turns SET last_event_at=?2
abbrev pub heard : Instant → TurnRow → TurnRow
heard now t = record t { last_event_at = some now }

unfoldable pub append_next : Db → ℕ → ℕ → Json → Instant → Result (Db × EventRow)
unfolding next_seq
append_next db thread turn event now =
    ensure (owned_by thread (find_turn db turn)) (failed "turn belongs to another thread")
    >> (let row : EventRow = record {
      turn_id = turn;
      seq = next_seq turn db.thread_turn_events;
      event = event;
    } in
        ok (
          record db {
            thread_turn_events = db.thread_turn_events ++ row ∷ [];
            thread_turns = update_turn turn (heard now) db.thread_turns;
          },
          row,
        ))

-- The sequence of thread_requests and the receipts of grants are not among what a reset clears; the
-- grants go with their Threads.
unfoldable pub reset : Db → String → Db
reset db history = record db {
  threads = [];
  thread_grants = [];
  history_id = history;
  thread_turns = [];
  thread_requests = [];
  thread_activities = [];
  thread_activity_keys = [];
  chat_messages = [];
  message_artifacts = [];
  activity_artifacts = [];
  turn_output_artifacts = [];
  thread_execution_preferences = [];
  thread_turn_execution = [];
  thread_execution_bindings = [];
  thread_process_sessions = [];
  thread_process_authorities = [];
  thread_reports = [];
  thread_delegations = [];
  session_profiles = [];
  client_messages = [];
  thread_action_receipts = [];
  message_attachments = [];
  blobs = [];
  artifacts = [];
  thread_turn_events = [];
  last_thread_id = 0;
  last_turn_id = 0;
  last_activity_id = 0;
  last_message_id = 0;
}
