-- ===== src/Host/Turns/Refines/Answered.antt =====
-- A turn that a message accepts, a turn's reply and its events
-- (crates/hirsel-host/src/storage/thread_messages.rs, thread_events.rs).
use hirsel.Base.{
  ℕ, String, ◌≡◌, refl, ap, sym, ◌∙◌, subst, Bool, true, false, not, Option, none, some, List, [],
  ◌∷◌, ◌++◌, arith, ◌==◌, ==_iff, leb, length, lookup, string_eq, find, find-sat,
}
use hirsel.Proto.{Instant, Json, ChatAuthor, ThreadTurnState}
use hirsel.Host.Tables.{
  ThreadRow, TurnRow, MessageRow, EventRow, Db, Result, failed, ok, and_then, ensure, ◌>>◌,
}
use hirsel.Host.Granted.{and_then-ok}
use hirsel.Host.Scope.{validate_history}
use hirsel.Host.Turns.Texts.{TurnTexts}
use hirsel.Host.Turns.Headlines.{refresh_from}
use hirsel.Host.Turns.Rows.{
  is_set, find_turn, get_turn, get_thread, get_message, update_row, update_turn, insert_turn,
  insert_request, sorted_ids,
}
use hirsel.Host.Turns.Execution.{capture}
use hirsel.Host.Turns.Queue.{new_turn}
use hirsel.Host.Turns.Messages.{
  ActionTexts, OwnerRecord, OwnerRequest, action_of, check_anchor, message_again, check_blobs,
  check_artifacts, put_message, owner_payload, accept_request, check_mentions, check_action,
  settled_by_action, touch_thread, note_action, put_record, new_record, record_found,
  append_thread_owner_record, insert_message, said, answered, reply_found, materialize_thread_reply,
  owned_by, heard, append_next,
}
use hirsel.Host.Turns.Kept.{capture-OnlyExecution, insert_request-row}
use hirsel.Host.Turns.Machine.{TurnSteps, hear, answer, here, next}
use hirsel.Host.Turns.Refines.Accept.{
  table, Refines, Refines-same, Refines-then, new_turn-IsNew, insert_turn-Refines,
  refresh_from-table, get_turn-found, OnlyExecution-table,
}

accept_request-Refines :
    (db : Db) (r : OwnerRecord) (history : String) (parent : Option ℕ) (message : ℕ)
    (request : Option OwnerRequest) (now : Instant) (d : Db)
    → accept_request db r history parent message request now ≡ ok d
    → Refines db d
unfolding accept_request
accept_request-Refines db r history parent message none now d h =
    let same : db ≡ d = ground arith in Refines-same db d (ap table same)
accept_request-Refines db r history parent message (some q) now d h =
    let row = new_turn ThreadTurnState.queued r.thread_id parent (some message) none now in
    let put : ℕ → Db → Result Db =
      λ turn e. insert_request r.client_id (owner_payload r q history turn) e in
    let (a, e, h1) =
      and_then-ok (insert_turn row db) (λ a. and_then (capture a.0 r.thread_id a.1 none) (put a.1))
        d h in
    let (b, e1, h2) = and_then-ok (capture a.0 r.thread_id a.1 none) (put a.1) d h1 in
    Refines-then db a.0 d
      (insert_turn-Refines row db a (new_turn-IsNew r.thread_id parent (some message) now) e)
      (OnlyExecution-table a.0 b (capture-OnlyExecution a.0 r.thread_id a.1 none b e1)
        ∙ sym (ap table (insert_request-row r.client_id (owner_payload r q history a.1) b d h2)))

message_again-same :
    (db : Db) (r : OwnerRecord) (ids : List ℕ) (id : ℕ) (a : Db × (MessageRow × Bool))
    → message_again db r ids id ≡ ok a
    → db ≡ a.0
unfolding message_again
message_again-same db r ids id a h = ground arith

module _ (texts : TurnTexts) where
  touch_thread-table :
      (db : Db) (thread : ℕ) (settles : Bool) (now : Instant) (d : Db)
      → touch_thread texts db thread settles now ≡ ok d
      → table db ≡ table d
  touch_thread-table db thread true now d h =
      let after = record db { threads = update_row thread (settled_by_action now) db.threads } in
      let (a, e, k) = and_then-ok (refresh_from texts after thread now) (λ a. ok a.0) d h in
      let same : a.0 ≡ d = ground arith in
      refresh_from-table texts after thread now a e ∙ ap table same
  touch_thread-table db thread false now d h = ground arith

  note_action-table :
      (db : Db) (thread : ℕ) (client_id : String) (action : Option Json) (settles : Bool)
      (now : Instant) (d : Db)
      → note_action texts db thread client_id action settles now ≡ ok d
      → table db ≡ table d
  unfolding note_action
  note_action-table db thread client_id none settles now d h = ground arith
  note_action-table db thread client_id (some action) settles now d h =
      let free =
        ensure (not (is_set (lookup client_id db.thread_action_receipts)))
          (failed "UNIQUE constraint failed: thread_action_receipts.client_id") in
      let e = record db {
        thread_action_receipts = db.thread_action_receipts ++ (client_id, action) ∷ [];
      } in
      let (_, _, k) = and_then-ok free (λ _. touch_thread texts e thread settles now) d h in
      touch_thread-table e thread settles now d k

  put_record-Refines :
      (db : Db) (history : String) (r : OwnerRecord) (ids : List ℕ) (parent : Option ℕ)
      (now : Instant) (a : Db × (MessageRow × Bool))
      → put_record texts db history r ids parent now ≡ ok a
      → Refines db a.0
  unfolding put_record put_message
  put_record-Refines db history r ids parent now a h =
      let d = put_message db r ids now in
      let accepted = accept_request d r history parent d.last_message_id r.request now in
      let fin : MessageRow → Result (Db × (MessageRow × Bool)) =
        λ m. and_then accepted (λ e. ok (e, (m, true))) in
      let (_, _, k) =
        and_then-ok (check_artifacts db ids >> check_blobs db r.attachments)
          (λ _. and_then (get_message d d.last_message_id) fin) a h in
      let (m, _, k1) = and_then-ok (get_message d d.last_message_id) fin a k in
      let (e, k2, k3) = and_then-ok accepted (λ e. ok (e, (m, true))) a k1 in
      let same : e ≡ a.0 = ground arith in
      Refines-then db e a.0
        (accept_request-Refines d r history parent d.last_message_id r.request now e k2)
        (ap table same)

module _ (texts : TurnTexts) (actions : ActionTexts) where
  new_record-Refines :
      (db : Db) (history : String) (r : OwnerRecord) (ids : List ℕ) (t : ThreadRow) (now : Instant)
      (a : Db × (MessageRow × Bool))
      → new_record texts actions db history r ids t now ≡ ok a
      → Refines db a.0
  unfolding new_record
  new_record-Refines db history r ids t now a h =
      let put : Db → Result (Db × (MessageRow × Bool)) =
        λ d. put_record texts d history r ids t.parent_thread_id now in
      let noted : Bool → Result Db =
        λ settles. note_action texts db r.thread_id r.client_id (action_of r.request) settles now in
      let (settles, _, k) =
        and_then-ok
          (check_anchor db r.thread_id r.anchor
            >> check_mentions texts db r.mentions
            >> check_action texts actions t (action_of r.request) now)
          (λ settles. and_then (noted settles) put) a h in
      let (d, e, k1) = and_then-ok (noted settles) put a k in
      subst (λ x. TurnSteps x (table a.0))
        (sym (
          note_action-table texts db r.thread_id r.client_id (action_of r.request) settles now d e))
        (put_record-Refines texts d history r ids t.parent_thread_id now a k1)

  record_found-Refines :
      (db : Db) (history : String) (r : OwnerRecord) (ids : List ℕ) (t : ThreadRow) (now : Instant)
      (o : Option ℕ) (a : Db × (MessageRow × Bool))
      → record_found texts actions db history r ids t now o ≡ ok a
      → Refines db a.0
  unfolding record_found
  record_found-Refines db history r ids t now (some id) a h =
      Refines-same db a.0 (ap table (message_again-same db r ids id a h))
  record_found-Refines db history r ids t now none a h =
      new_record-Refines db history r ids t now a h

  pub owner_record-Refines :
      (db : Db) (history : String) (r : OwnerRecord) (now : Instant) (a : Db × (MessageRow × Bool))
      → append_thread_owner_record texts actions db history r now ≡ ok a
      → Refines db a.0
  unfolding append_thread_owner_record
  owner_record-Refines db history r now a h =
      let ids = sorted_ids r.artifact_ids in
      let found : ThreadRow → Result (Db × (MessageRow × Bool)) = λ t.
        record_found texts actions db history r ids t now (lookup r.client_id db.client_messages) in
      let (t, _, k) =
        and_then-ok
          (ensure (leb (length ids) 16)
              (failed "a message may reference at most 16 distinct artifacts")
            >> validate_history db history
            >> get_thread db r.thread_id)
          found a h in
      record_found-Refines db history r ids t now (lookup r.client_id db.client_messages) a k

reply_found-Refines :
    (db : Db) (turn : TurnRow) (body : String) (anchor : Option ℕ) (calls : Json) (now : Instant)
    (o : Option ℕ) (a : Db × MessageRow)
    → find (λ u. u.id == turn.id) db.thread_turns ≡ some turn
    → turn.agent_message_id ≡ o
    → reply_found db turn body anchor calls now o ≡ ok a
    → Refines db a.0
unfolding reply_found
reply_found-Refines db turn body anchor calls now (some id) a f e h =
    let (m, _, k) = and_then-ok (get_message db id) (λ m. ok (db, m)) a h in
    let same : db ≡ a.0 = ground arith in Refines-same db a.0 (ap table same)
reply_found-Refines db turn body anchor calls now none a f e h =
    let d = insert_message (said turn.thread_id ChatAuthor.agent body anchor calls now) db in
    let e1 = record d {
      thread_turns = update_turn turn.id (answered d.last_message_id) d.thread_turns;
    } in
    let (_, _, k) =
      and_then-ok (check_anchor db turn.thread_id anchor)
        (λ _. and_then (get_message e1 d.last_message_id) (λ m. ok (e1, m))) a h in
    let (m, _, k1) = and_then-ok (get_message e1 d.last_message_id) (λ m. ok (e1, m)) a k in
    let same : e1 ≡ a.0 = ground arith in
    Refines-then db e1 a.0 (next here (answer turn d.last_message_id f e refl)) (ap table same)

pub materialize-Refines :
    (db : Db) (id : ℕ) (body : String) (anchor : Option ℕ) (calls : Json) (now : Instant)
    (a : Db × MessageRow)
    → materialize_thread_reply db id body anchor calls now ≡ ok a
    → Refines db a.0
unfolding materialize_thread_reply
materialize-Refines db id body anchor calls now a h =
    let (t, e, k) =
      and_then-ok (get_turn db id) (λ t. reply_found db t body anchor calls now t.agent_message_id)
        a h in
    reply_found-Refines db t body anchor calls now t.agent_message_id a (get_turn-found db id t e).0
      refl k

pub append_next-Refines :
    (db : Db) (thread turn : ℕ) (event : Json) (now : Instant) (a : Db × EventRow)
    → append_next db thread turn event now ≡ ok a
    → Refines db a.0
unfolding append_next
append_next-Refines db thread turn event now a h = found (find_turn db turn) refl
  where
    found : (o : Option TurnRow) → find_turn db turn ≡ o → Refines db a.0
    found none e = absurd (ground (arith, ap (owned_by thread) e))
    found (some t) e =
        let mine : t.id ≡ turn =
          (==_iff t.id turn).0 (find-sat (λ u. u.id == turn) db.thread_turns t e) in
        let at : find (λ u. u.id == t.id) db.thread_turns ≡ some t =
          ap (λ k. find (λ (u : TurnRow). u.id == k) db.thread_turns) mine ∙ e in
        let into : table a.0 ≡ (update_turn turn (heard now) db.thread_turns, db.last_turn_id) =
          ground arith in
        next here (
          hear t now at (
            into
            ∙ ap (λ k. (update_turn k (heard now) db.thread_turns, db.last_turn_id)) (sym mine)))
