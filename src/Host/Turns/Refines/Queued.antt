-- ===== src/Host/Turns/Refines/Queued.antt =====
-- Turns that the storage's callers queue, run and start
-- (crates/hirsel-host/src/storage/thread_activity.rs).
use hirsel.Base.{
  ℕ, String, ◌≡◌, refl, ap, sym, ◌∙◌, true, Option, none, some, List, arith, ◌==◌, Bool-cases, inl,
  inr, find,
}
use hirsel.Proto.{Instant, ThreadTurnState}
use hirsel.Host.Tables.{
  ThreadRow, TurnRow, RequestPayload, Db, failed, Result, ok, err, and_then, ensure,
}
use hirsel.Host.Granted.{and_then-ok}
use hirsel.Host.Scope.{validate_history}
use hirsel.Host.Turns.Texts.{TurnTexts}
use hirsel.Host.Turns.Headlines.{refresh_from}
use hirsel.Host.Turns.Rows.{
  is_queued, has_running, get_turn, get_thread, insert_turn, insert_request, keyed_activity,
  update_turn, settled,
}
use hirsel.Host.Turns.Execution.{capture}
use hirsel.Host.Turns.Queue.{
  accept_turn, new_turn, queue_new, queue_found, queue_thread_turn, check_message, started,
  run_queued, run_found, run_thread_turn, start_after, start_inserted, start_found, start_in,
  start_thread_turn, note_wake, with_turn, wake_key, wake_turn, wake_known, wake_new, wake_found,
  history_of, ensure_accepts_work, queue_background_thread_request,
}
use hirsel.Host.Turns.Machine.{start, here, next}
use hirsel.Host.Turns.Kept.{capture-OnlyExecution, insert_request-row}
use hirsel.Host.Turns.Refines.Accept.{
  table, Refines, Refines-same, Refines-then, accept_turn-Refines, new_turn-IsNew,
  running_turn-IsNew, insert_turn-Refines, refresh_from-table, get_turn-found, OnlyExecution-table,
}

pub wake_known-same :
    (db : Db) (thread turn : ℕ) (r : Db × TurnRow) → wake_known db thread turn ≡ ok r → db ≡ r.0
unfolding wake_known
wake_known-same db thread turn r h =
    let owned : TurnRow → Result (Db × TurnRow) = λ t.
      and_then
        (ensure (t.thread_id == thread) (failed "background request belongs to another thread"))
        (λ _. ok (db, t)) in
    let (t, _, h1) = and_then-ok (get_turn db turn) owned r h in
    let (_, _, h2) =
      and_then-ok
        (ensure (t.thread_id == thread) (failed "background request belongs to another thread"))
        (λ _. ok (db, t)) r h1 in
    ground arith

-- The checks of a wake, in their order, and what follows them.
pub record WakeChecked (texts : TurnTexts) (db : Db) (client_id : String) (thread : ℕ)
    (payload : RequestPayload) (now : Instant) (r : Db × TurnRow) : Type 0 where
  pub history : String
  pub named : history_of payload.history_id "background history is required" ≡ ok history
  pub current : validate_history db history ≡ ok tt
  pub row : ThreadRow
  pub present : get_thread db thread ≡ ok row
  pub accepts : ensure_accepts_work db thread ≡ ok tt
  pub known : Option ℕ
  pub looked : wake_turn db (keyed_activity db (wake_key client_id)) ≡ ok known
  pub after :
      wake_found texts db client_id thread row.parent_thread_id payload
        (wake_key client_id)
        now
        known
      ≡ ok r

pub queue_background-Checked :
    (texts : TurnTexts) (db : Db) (client_id : String) (thread : ℕ) (payload : RequestPayload)
    (now : Instant) (r : Db × TurnRow)
    → queue_background_thread_request texts db client_id thread payload now ≡ ok r
    → WakeChecked texts db client_id thread payload now r
unfolding queue_background_thread_request
queue_background-Checked texts db client_id thread payload now r h =
    let found : ThreadRow → Option ℕ → Result (Db × TurnRow) = λ row.
      wake_found texts db client_id thread row.parent_thread_id payload (wake_key client_id) now in
    let looked = wake_turn db (keyed_activity db (wake_key client_id)) in
    let open_row : ThreadRow → Result (Db × TurnRow) =
      λ row. and_then (ensure_accepts_work db thread) (λ _. and_then looked (found row)) in
    let (hist, e, h1) =
      and_then-ok (history_of payload.history_id "background history is required")
        (λ k. and_then (and_then (validate_history db k) (λ _. get_thread db thread)) open_row) r
        h in
    let (row, e1, h2) =
      and_then-ok (and_then (validate_history db hist) (λ _. get_thread db thread)) open_row r h1 in
    let (_, e2, h3) = and_then-ok (validate_history db hist) (λ _. get_thread db thread) row e1 in
    let (_, e4, h5) =
      and_then-ok (ensure_accepts_work db thread) (λ _. and_then looked (found row)) r h2 in
    let (known, e5, h6) = and_then-ok looked (found row) r h5 in
    record {
      history = hist;
      named = e;
      current = e2;
      row = row;
      present = h3;
      accepts = e4;
      known = known;
      looked = e5;
      after = h6;
    }

module _ (texts : TurnTexts) where
  queue_new-Refines :
      (db : Db) (thread : ℕ) (parent message : Option ℕ) (now : Instant) (r : Db × TurnRow)
      → queue_new texts db thread parent message now ≡ ok r
      → Refines db r.0
  unfolding queue_new
  queue_new-Refines db thread parent message now r h =
      let row = new_turn ThreadTurnState.queued thread parent message none now in
      let fin : Db × ℕ → TurnRow → Result (Db × TurnRow) = λ a t. ok (a.0, t) in
      let (a, e, h1) =
        and_then-ok (accept_turn texts db row thread now) (λ a. and_then (get_turn a.0 a.1) (fin a))
          r h in
      let (t, _, h2) = and_then-ok (get_turn a.0 a.1) (fin a) r h1 in
      let same : a.0 ≡ r.0 = ground arith in
      Refines-then db a.0 r.0
        (accept_turn-Refines texts db row thread now a (new_turn-IsNew thread parent message now) e)
        (ap table same)

  queue_found-Refines :
      (db : Db) (thread : ℕ) (parent message : Option ℕ) (now : Instant) (o : Option TurnRow)
      (r : Db × TurnRow)
      → queue_found texts db thread parent message now o ≡ ok r
      → Refines db r.0
  unfolding queue_found
  queue_found-Refines db thread parent message now (some t) r h =
      let same : db ≡ r.0 = ground arith in Refines-same db r.0 (ap table same)
  queue_found-Refines db thread parent message now none r h =
      queue_new-Refines db thread parent message now r h

  pub queue_thread_turn-Refines :
      (db : Db) (thread : ℕ) (message : Option ℕ) (now : Instant) (r : Db × TurnRow)
      → queue_thread_turn texts db thread message now ≡ ok r
      → Refines db r.0
  unfolding queue_thread_turn
  queue_thread_turn-Refines db thread message now r h =
      let found : ThreadRow → Option TurnRow → Result (Db × TurnRow) =
        λ row. queue_found texts db thread row.parent_thread_id message now in
      let (row, _, h1) =
        and_then-ok (get_thread db thread)
          (λ row. and_then (check_message db thread message) (found row)) r h in
      let (o, _, h2) = and_then-ok (check_message db thread message) (found row) r h1 in
      queue_found-Refines db thread row.parent_thread_id message now o r h2

  settled-Refines :
      (db : Db) (r : Result (Db × TurnRow))
      → ((a : Db × TurnRow) → r ≡ ok a → table db ≡ table a.0)
      → table db ≡ table (settled db r).0
  settled-Refines db (ok a) h = h a refl
  settled-Refines db (err e) h = refl

  run_rest-table :
      (db : Db) (thread id : ℕ) (now : Instant) (a : Db × TurnRow)
      → and_then
          (refresh_from texts db thread now)
          (λ r. and_then (get_turn r.0 id) (λ u. ok (r.0, u)))
        ≡ ok a
      → table db ≡ table a.0
  run_rest-table db thread id now a h =
      let fin : Db × List ℕ → TurnRow → Result (Db × TurnRow) = λ r u. ok (r.0, u) in
      let (r, e, h1) =
        and_then-ok (refresh_from texts db thread now) (λ r. and_then (get_turn r.0 id) (fin r)) a
          h in
      let (u, _, h2) = and_then-ok (get_turn r.0 id) (fin r) a h1 in
      let same : r.0 ≡ a.0 = ground arith in
      refresh_from-table texts db thread now r e ∙ ap table same

  run_queued-Refines :
      (db : Db) (t : TurnRow) (now : Instant)
      → find (λ u. u.id == t.id) db.thread_turns ≡ some t
      → is_queued t.state ≡ true
      → Refines db (run_queued texts db t now).0
  unfolding run_queued
  run_queued-Refines db t now f q = elim (Bool-cases (has_running t.thread_id db.thread_turns)) [
    | inl b ↦ rw b here
    | inr b ↦
        let d = record db { thread_turns = update_turn t.id (started now) db.thread_turns } in
        let rest =
          and_then (refresh_from texts d t.thread_id now)
            (λ r. and_then (get_turn r.0 t.id) (λ u. ok (r.0, u))) in
        let first : Refines db d = next here (start t now f q b refl) in
        rw b (
          Refines-then db d (settled d rest).0 first
            (settled-Refines d rest (λ a h. run_rest-table d t.thread_id t.id now a h)))
  ]

  run_found-Refines :
      (db : Db) (id : ℕ) (now : Instant) (r : Result TurnRow)
      → get_turn db id ≡ r
      → Refines db (run_found texts db now r).0
  unfolding run_found
  run_found-Refines db id now (err e) g = here
  run_found-Refines db id now (ok t) g = elim (Bool-cases (is_queued t.state)) [
    | inl q ↦ rw q (run_queued-Refines db t now (get_turn-found db id t g).0 q)
    | inr q ↦ rw q here
  ]

  pub run_thread_turn-Refines :
      (db : Db) (id : ℕ) (now : Instant) → Refines db (run_thread_turn texts db id now).0
  unfolding run_thread_turn
  run_thread_turn-Refines db id now = run_found-Refines db id now (get_turn db id) refl

  capture_rest-table :
      (db : Db) (thread id : ℕ) (a : Db × TurnRow)
      → and_then (capture db thread id none) (λ d. and_then (get_turn d id) (λ t. ok (d, t))) ≡ ok a
      → table db ≡ table a.0
  capture_rest-table db thread id a h =
      let fin : Db → TurnRow → Result (Db × TurnRow) = λ d t. ok (d, t) in
      let (d, e, h1) =
        and_then-ok (capture db thread id none) (λ d. and_then (get_turn d id) (fin d)) a h in
      let (t, _, h2) = and_then-ok (get_turn d id) (fin d) a h1 in
      let same : d ≡ a.0 = ground arith in
      OnlyExecution-table db d (capture-OnlyExecution db thread id none d e) ∙ ap table same

  start_after-table :
      (thread id : ℕ) (db : Db) (now : Instant) (r : Result (Db × List ℕ))
      → refresh_from texts db thread now ≡ r
      → table db ≡ table (start_after texts thread id r db).0
  unfolding start_after
  start_after-table thread id db now (err e) g = refl
  start_after-table thread id db now (ok r) g =
      refresh_from-table texts db thread now r g
      ∙ settled-Refines r.0
          (and_then (capture r.0 thread id none) (λ d. and_then (get_turn d id) (λ t. ok (d, t))))
          (λ a h. capture_rest-table r.0 thread id a h)

  start_inserted-Refines :
      (db : Db) (thread : ℕ) (parent message : Option ℕ) (now : Instant) (r : Result (Db × ℕ))
      → insert_turn (new_turn ThreadTurnState.running thread parent message (some now) now) db ≡ r
      → Refines db (start_inserted texts db thread now r).0
  unfolding start_inserted
  start_inserted-Refines db thread parent message now (err e) g = here
  start_inserted-Refines db thread parent message now (ok one) g =
      let row = new_turn ThreadTurnState.running thread parent message (some now) now in
      Refines-then db one.0
        (start_after texts thread one.1 (refresh_from texts one.0 thread now) one.0).0
        (insert_turn-Refines row db one (running_turn-IsNew thread parent message now) g)
        (start_after-table thread one.1 one.0 now (refresh_from texts one.0 thread now) refl)

  start_found-Refines :
      (db : Db) (thread : ℕ) (parent message : Option ℕ) (now : Instant)
      (r : Result (Option TurnRow))
      → Refines db (start_found texts db thread parent message now r).0
  unfolding start_found
  start_found-Refines db thread parent message now (err e) = here
  start_found-Refines db thread parent message now (ok (some t)) = here
  start_found-Refines db thread parent message now (ok none) =
      start_inserted-Refines db thread parent message now _ refl

  start_in-Refines :
      (db : Db) (thread : ℕ) (message : Option ℕ) (now : Instant) (r : Result ThreadRow)
      → Refines db (start_in texts db thread message now r).0
  unfolding start_in
  start_in-Refines db thread message now (err e) = here
  start_in-Refines db thread message now (ok row) =
      start_found-Refines db thread row.parent_thread_id message now
        (check_message db thread message)

  pub start_thread_turn-Refines :
      (db : Db) (thread : ℕ) (message : Option ℕ) (now : Instant)
      → Refines db (start_thread_turn texts db thread message now).0
  unfolding start_thread_turn
  start_thread_turn-Refines db thread message now =
      start_in-Refines db thread message now (get_thread db thread)

  note_wake-table :
      (db : Db) (thread turn : ℕ) (key : String) (now : Instant) (r : Db × TurnRow)
      → note_wake db thread turn key now ≡ ok r
      → table db ≡ table r.0
  unfolding note_wake
  note_wake-table db thread turn key now r h = ground arith

  wake_new-Refines :
      (db : Db) (client_id : String) (thread : ℕ) (parent : Option ℕ) (payload : RequestPayload)
      (key : String) (now : Instant) (r : Db × TurnRow)
      → wake_new texts db client_id thread parent payload key now ≡ ok r
      → Refines db r.0
  unfolding wake_new
  wake_new-Refines db client_id thread parent payload key now r h =
      let row = new_turn ThreadTurnState.queued thread parent none none now in
      let put : Db × ℕ → Result Db = λ a. insert_request client_id (with_turn payload a.1) a.0 in
      let fin : Db × ℕ → Db → Result (Db × TurnRow) = λ a d. note_wake d thread a.1 key now in
      let (a, e, h1) =
        and_then-ok (accept_turn texts db row thread now) (λ a. and_then (put a) (fin a)) r h in
      let (d, e1, h2) = and_then-ok (put a) (fin a) r h1 in
      let added = insert_request-row client_id (with_turn payload a.1) a.0 d e1 in
      Refines-then db a.0 r.0
        (accept_turn-Refines texts db row thread now a (new_turn-IsNew thread parent none now) e)
        (sym (ap table added) ∙ note_wake-table d thread a.1 key now r h2)

  wake_found-Refines :
      (db : Db) (client_id : String) (thread : ℕ) (parent : Option ℕ) (payload : RequestPayload)
      (key : String) (now : Instant) (o : Option ℕ) (r : Db × TurnRow)
      → wake_found texts db client_id thread parent payload key now o ≡ ok r
      → Refines db r.0
  unfolding wake_found
  wake_found-Refines db client_id thread parent payload key now none r h =
      wake_new-Refines db client_id thread parent payload key now r h
  wake_found-Refines db client_id thread parent payload key now (some turn) r h =
      let known = wake_known-same db thread turn r h in Refines-same db r.0 (ap table known)

  pub queue_background-Refines :
      (db : Db) (client_id : String) (thread : ℕ) (payload : RequestPayload) (now : Instant)
      (r : Db × TurnRow)
      → queue_background_thread_request texts db client_id thread payload now ≡ ok r
      → Refines db r.0
  queue_background-Refines db client_id thread payload now r h =
      let c = queue_background-Checked texts db client_id thread payload now r h in
      wake_found-Refines db client_id thread c.row.parent_thread_id payload (wake_key client_id) now
        c.known r c.after
