-- ===== src/Host/Turns/Rows.antt =====
-- The rows of thread_turns and thread_activities, and the constraints of their tables
-- (crates/hirsel-host/src/storage/thread_activity.rs, current.sql).
use hirsel.Base.{
  ℕ, suc, String, Bool, true, false, not, ◌&&◌, Option, none, some, List, [], ◌∷◌, ◌++◌, ◌==◌,
  if◌then◌else◌, any, find, retain, opt_beq, nat_eq, str_eq, ltb,
}
use hirsel.Proto.{Instant, ThreadTurnState}
use hirsel.Host.Tables.{
  ThreadRow, TurnRow, RequestPayload, RequestRow, ActivityRow, ActivityContent, MessageRow, Db,
  Error, failed, Result, ok, err, ensure, ◌>>◌, find_thread_row, has_thread, row_of,
}

abbrev pub is_set : {A : Type 0} → Option A → Bool
is_set none = false
is_set (some a) = true

abbrev pub is_running : ThreadTurnState → Bool
is_running ThreadTurnState.running = true
is_running _ = false

abbrev pub is_queued : ThreadTurnState → Bool
is_queued ThreadTurnState.queued = true
is_queued _ = false

-- UPDATE threads … WHERE id=?1
abbrev pub update_row : ℕ → (ThreadRow → ThreadRow) → List ThreadRow → List ThreadRow
update_row id f [] = []
update_row id f (t ∷ rest) =
    let more = update_row id f rest in (if t.id == id then f t else t) ∷ more

abbrev pub find_turn : Db → ℕ → Option TurnRow
find_turn db id = find (λ t. t.id == id) db.thread_turns

-- thread_activity.rs, get
unfoldable pub get_turn : Db → ℕ → Result TurnRow
get_turn db id = row_of (find_turn db id)

-- threads.rs, get: the row; what `populate` adds is read by nobody here.
unfoldable pub get_thread : Db → ℕ → Result ThreadRow
get_thread db id = row_of (find_thread_row db id)

-- chat.rs, get_chat_message
unfoldable pub get_message : Db → ℕ → Result MessageRow
get_message db id = row_of (find (λ m. m.id == id) db.chat_messages)

abbrev pub find_activity : Db → ℕ → Option ActivityRow
find_activity db id = find (λ a. a.id == id) db.thread_activities

unfoldable pub get_activity : Db → ℕ → Result ActivityRow
get_activity db id = row_of (find_activity db id)

-- The index thread_one_running
abbrev pub has_running : ℕ → List TurnRow → Bool
has_running thread ts = any (λ t. t.thread_id == thread && is_running t.state) ts

abbrev pub not_unique : String → Error
not_unique column = failed column

-- INSERT INTO thread_turns: the row, under the next id
unfoldable pub insert_turn : (ℕ → TurnRow) → Db → Result (Db × ℕ)
insert_turn row db =
    let t = row (suc db.last_turn_id) in
    ensure (not (is_running t.state && has_running t.thread_id db.thread_turns))
      (not_unique "UNIQUE constraint failed: thread_turns.thread_id")
    >> ensure
        (not (
          is_set t.owner_message_id
          && any (λ o. opt_beq o.owner_message_id t.owner_message_id) db.thread_turns))
        (not_unique "UNIQUE constraint failed: thread_turns.owner_message_id")
    >> ok (record db { thread_turns = db.thread_turns ++ t ∷ []; last_turn_id = t.id }, t.id)

-- UPDATE thread_turns … WHERE id=?1
abbrev pub update_turn : ℕ → (TurnRow → TurnRow) → List TurnRow → List TurnRow
update_turn id f [] = []
update_turn id f (t ∷ rest) =
    let more = update_turn id f rest in (if t.id == id then f t else t) ∷ more

-- INSERT INTO thread_activities
unfoldable pub insert_activity : ℕ → Option ℕ → String → ActivityContent → Instant → Db → Db × ℕ
insert_activity thread turn kind content now db =
    let id = suc db.last_activity_id in
    (
      record db {
        thread_activities =
            db.thread_activities
            ++ record {
              id = id;
              thread_id = thread;
              turn_id = turn;
              kind = kind;
              content = content;
              ts = now;
            }
              ∷ [];
        last_activity_id = id;
      },
      id,
    )

unfoldable pub keyed_activity : Db → String → Option ℕ
keyed_activity db key = elim (find (λ k. str_eq k.0 key) db.thread_activity_keys) [
  | none ↦ none
  | some k ↦ some k.1
]

-- INSERT INTO thread_activity_keys
unfoldable pub insert_key : String → ℕ → Db → Result Db
unfolding keyed_activity
insert_key key id db =
    ensure (not (is_set (keyed_activity db key)))
      (failed "UNIQUE constraint failed: thread_activity_keys.key")
    >> ok (record db { thread_activity_keys = db.thread_activity_keys ++ (key, id) ∷ [] })

-- INSERT INTO thread_requests: `client_id` is UNIQUE, and the payload's Thread is a foreign key.
unfoldable pub insert_request : String → RequestPayload → Db → Result Db
insert_request client_id payload db =
    ensure (not (any (λ r. str_eq r.client_id client_id) db.thread_requests))
      (failed "UNIQUE constraint failed: thread_requests.client_id")
    >> ensure (has_thread db payload.thread_id) (failed "FOREIGN KEY constraint failed")
    >> (let id = suc db.last_request_id in
        let row : RequestRow = record { id = id; client_id = client_id; payload = payload } in
        ok (record db { thread_requests = db.thread_requests ++ row ∷ []; last_request_id = id }))

-- DELETE FROM thread_requests WHERE json_extract(payload,'$.turn_id')=?1
unfoldable pub drop_requests_of : ℕ → Db → Db
drop_requests_of turn db = record db {
  thread_requests = retain (λ r. not (opt_beq r.payload.turn_id (some turn))) db.thread_requests;
}

-- What a function outside a transaction leaves when its last step fails.
abbrev pub settled : {A : Type 0} → Db → Result (Db × A) → Db × Result A
settled db (ok (d, a)) = (d, ok a)
settled db (err e) = (db, err e)

abbrev pub state_name : ThreadTurnState → String
state_name ThreadTurnState.queued = "queued"
state_name ThreadTurnState.running = "running"
state_name ThreadTurnState.completed = "completed"
state_name ThreadTurnState.failed = "failed"
state_name ThreadTurnState.cancelled = "cancelled"
state_name ThreadTurnState.interrupted = "interrupted"

-- `sort_unstable` and `dedup`
abbrev insert_id : ℕ → List ℕ → List ℕ
insert_id n [] = n ∷ []
insert_id n (m ∷ rest) =
    let later = insert_id n rest in
    if ltb n m then n ∷ m ∷ rest else if n == m then m ∷ rest else m ∷ later

unfoldable pub sorted_ids : List ℕ → List ℕ
sorted_ids [] = []
sorted_ids (n ∷ rest) = insert_id n (sorted_ids rest)
