-- ===== src/Host/Turns/Examples.antt =====
-- Runs of the host's turns (crates/hirsel-host/src/storage/thread_activity.rs and its neighbours).
use hirsel.Base.{
  ℕ, suc, String, ◌≡◌, ◌≢◌, ◌<◌, ◌↔◌, refl, Bool, true, false, not, ◌&&◌, none, some, List, [], ◌∷◌,
  ◌++◌, arith, find, any, contains, nat_eq, ◌==◌, ==_iff, ltb, str_eq, str_eq_iff, retain,
  if◌then◌else◌, Bool-cases, inl, inr,
}
use hirsel.Proto.{Instant, ThreadTurnState, is_terminal}
use hirsel.Proto.Icons.{ThreadTint, parse, as_str, tint_round_trip}
use hirsel.Host.Closure.{closure}
use hirsel.Host.Scope.{down_edges}
use hirsel.Host.Tables.{
  ThreadRow, TurnRow, RequestPayload, RequestRow, Db, nothing, failed, Result, ok, err,
}
use hirsel.Host.Rollups.{status_of, aggregate, most_urgent}
use hirsel.Host.Examples.{tables, today, row}
use hirsel.Host.Turns.Texts.{TurnTexts}
use hirsel.Host.Turns.Headlines.{refresh_from, label}
use hirsel.Host.Turns.Rows.{is_running, insert_request}
use hirsel.Host.Turns.Execution.{capture}
use hirsel.Host.Turns.Queue.{queue_thread_turn, start_thread_turn, queue_background_thread_request}
use hirsel.Host.Turns.Reports.{report}
use hirsel.Host.Turns.Finish.{interrupt_unfinished_thread_turns}
use hirsel.Host.Turns.Callers.{ThreadCaller, ThreadCallerAuthority, validate_caller}
use hirsel.Host.Turns.Requests.{next_request, remove_thread_request}
use hirsel.Host.Turns.Archive.{ArchiveActor, ArchiveOutcome, apply, subtree}
use hirsel.Host.Turns.Machine.{TurnSteps, IsSound}
use hirsel.Host.Turns.Machine.Final.{SameEnd}
use hirsel.Host.Turns.Messages.{reset}
use hirsel.Host.Turns.Refines.Accept.{table}
use hirsel.Host.Turns.Refines.Steps.{
  StorageSteps, start, after, queued, StorageStep, begun, lived, cleared, StorageStep-Refines,
  StorageSteps-IsSound, StorageLife-IsSound, StorageSteps-final,
}
use hirsel.Host.Turns.Boot.{boot_rests}
use hirsel.Host.Turns.Bound.{ended-refused}
use hirsel.Host.Turns.Climb.{IsRooted, SameShape, find_row, refresh_from-total}
use hirsel.Host.Turns.Held.{archive-held}
use hirsel.Host.Turns.Wakes.{wake-once, activities_within}
use hirsel.Host.Turns.Told.{report-once}
use hirsel.Host.Turns.Fifo.{requests-Fifo, waiting, is_waiting, first}

abbrev tomorrow : String
tomorrow = "2026-01-03T00:00:00Z"

-- A stand-in for the functions on texts: short texts stay as they are, numbers below ten are digits.
abbrev digit : ℕ → String
digit n = if n == 1 then "1" else if n == 2 then "2" else if n == 3 then "3" else "n"

abbrev turn_texts : TurnTexts
turn_texts = record {
  trim = λ s. s;
  take_chars = λ n s. s;
  decimal = digit;
  id_list = λ ids. "[]";
  call_list = λ calls. "[]";
  timestamp = λ i. 0;
}

abbrev left_by : {A : Type 0} → Result (Db × A) → Db
left_by (ok a) = a.0
left_by (err e) = tables

abbrev right_by : {A : Type 0} → A → Result (Db × A) → A
right_by x (ok a) = a.1
right_by x (err e) = x

abbrev is_ok : {A : Type 0} → Result A → Bool
is_ok (ok a) = true
is_ok (err e) = false

ok_parts :
    {A : Type 0} (x : A) (r : Result (Db × A)) → is_ok r ≡ true → r ≡ ok (left_by r, right_by x r)
ok_parts x (ok a) h = refl
ok_parts x (err e) h = cc

abbrev no_turn : TurnRow
no_turn = record {
  id = 0;
  thread_id = 0;
  requester_thread_id = none;
  requester_turn_id = none;
  owner_message_id = none;
  agent_message_id = none;
  state = ThreadTurnState.queued;
  accepted_at = "";
  started_at = none;
  finished_at = none;
  cancel_requested_at = none;
  last_event_at = none;
}

abbrev turn_of : Result (Db × TurnRow) → TurnRow
turn_of = right_by no_turn

-- A turn of Thread 2 is queued.
abbrev once_queued : Result (Db × TurnRow)
once_queued = queue_thread_turn turn_texts tables 2 none today

once_queued-ok : once_queued ≡ ok (left_by once_queued, turn_of once_queued)
unfolding queue_thread_turn refresh_from closure aggregate most_urgent status_of down_edges label
    is_terminal capture
once_queued-ok = ok_parts no_turn once_queued refl

tables-IsSound : IsSound (table tables)
tables-IsSound = record { distinct = refl; bounded = refl; single = refl; checked = refl }

StorageStep-Refines_example : TurnSteps (table tables) (table (left_by once_queued))
StorageStep-Refines_example =
    StorageStep-Refines turn_texts tables (left_by once_queued) tables-IsSound
      (queued 2 none today (turn_of once_queued) once_queued-ok)

StorageLife-IsSound_example :
    IsSound (table (reset (left_by once_queued) "h2")) × IsSound (table (left_by once_queued))
StorageLife-IsSound_example =
    let life = lived begun (queued 2 none today (turn_of once_queued) once_queued-ok) in
    (
      StorageLife-IsSound turn_texts (cleared "h2" life refl) tables-IsSound,
      StorageLife-IsSound turn_texts life tables-IsSound,
    )

-- A turn of Thread 2 runs, and the host stops.
abbrev running_db : Db
running_db = (start_thread_turn turn_texts tables 2 none today).0

running_db-IsSound : IsSound (table running_db)
running_db-IsSound =
    StorageSteps-IsSound turn_texts (after start (StorageStep.started 2 none today refl))
      tables-IsSound

abbrev booted : Result (Db × List TurnRow)
booted = interrupt_unfinished_thread_turns turn_texts running_db today

abbrev turns_of : Result (Db × List TurnRow) → List TurnRow
turns_of = right_by []

booted-ok : booted ≡ ok (left_by booted, turns_of booted)
unfolding interrupt_unfinished_thread_turns start_thread_turn refresh_from closure aggregate
    most_urgent status_of down_edges label is_terminal capture
booted-ok = ok_parts [] booted refl

boot_rests_example : any (λ t. is_running t.state) (left_by booted).thread_turns ≡ false
boot_rests_example =
    boot_rests turn_texts running_db (left_by booted) today (turns_of booted) running_db-IsSound
      booted-ok

booted_db-IsSound : IsSound (table (left_by booted))
booted_db-IsSound =
    StorageSteps-IsSound turn_texts
      (after (after start (StorageStep.started 2 none today refl))
        (StorageStep.interrupted today (turns_of booted) booted-ok))
      tables-IsSound

-- The first turn, as the recovery left it
abbrev row_at : ℕ → Db → TurnRow
row_at id db = elim (find (λ t. t.id == id) db.thread_turns) [ none ↦ no_turn | some t ↦ t ]

first_ended :
    (find (λ t. t.id == 1) (left_by booted).thread_turns ≡ some (row_at 1 (left_by booted)))
    × (is_terminal (row_at 1 (left_by booted)).state ≡ true)
unfolding interrupt_unfinished_thread_turns start_thread_turn refresh_from closure aggregate
    most_urgent status_of down_edges label is_terminal capture
first_ended = (refl, refl)

-- Thread 3 is given a turn afterwards.
abbrev after_boot : Db
after_boot = (start_thread_turn turn_texts (left_by booted) 3 none today).0

abbrev later_run : StorageSteps turn_texts (left_by booted) after_boot
later_run = after start (StorageStep.started 3 none today refl)

StorageSteps-final_example :
    (u : TurnRow) × (find (λ t. t.id == 1) after_boot.thread_turns ≡ some u)
    × SameEnd (row_at 1 (left_by booted)) u
StorageSteps-final_example =
    StorageSteps-final turn_texts 1 (row_at 1 (left_by booted)) later_run booted_db-IsSound
      first_ended.0 first_ended.1

abbrev old_caller : ThreadCaller
old_caller = record {
  history_id = "h";
  session_id = "s";
  execution_id = "e";
  thread_id = 2;
  turn_id = 1;
  authority = ThreadCallerAuthority.turn;
}

ended-refused_example :
    validate_caller after_boot old_caller ≡ err (failed "Thread execution binding is unavailable")
ended-refused_example =
    ended-refused turn_texts (row_at 1 (left_by booted)) old_caller later_run booted_db-IsSound
      first_ended.0 first_ended.1 refl

-- Each parent is an older row: a test, and what it shows.
abbrev rooted_in : List ThreadRow → List ThreadRow → Bool
rooted_in all [] = true
rooted_in all (t ∷ rest) = elim t.parent_thread_id [
  | none ↦ rooted_in all rest
  | some p ↦ ltb p t.id && (any (λ u. u.id == p) all && rooted_in all rest)
]

present :
    (p : ℕ) (rows : List ThreadRow)
    → any (λ u. u.id == p) rows ≡ true
    → (u : ThreadRow) × (find_row p rows ≡ some u)
present p [] h = cc
present p (t ∷ rest) h = elim (Bool-cases (t.id == p)) [
  | inl q ↦ (t, rw q refl)
  | inr q ↦ let (u, e) = present p rest (ground arith) in (u, rw q e)
]

rooted-row :
    (all rows : List ThreadRow) (id p : ℕ) (t : ThreadRow)
    → rooted_in all rows ≡ true
    → find_row id rows ≡ some t
    → t.parent_thread_id ≡ some p
    → (p < id) × (any (λ u. u.id == p) all ≡ true)
rooted-row all [] id p t r h e = cc
rooted-row all (x ∷ rows) id p t r h e = ground (arith, rooted-row all rows id p t, ==_iff x.id id)

tables-IsRooted : IsRooted tables.threads
tables-IsRooted id p t h e =
    let (l, there) = rooted-row tables.threads tables.threads id p t refl h e in
    (l, present p tables.threads there)

refresh_from-total_example :
    (r : Db × List ℕ) × (refresh_from turn_texts tables 4 today ≡ ok r)
    × SameShape tables.threads r.0.threads
refresh_from-total_example =
    refresh_from-total turn_texts tables 4 today (row 4 (some 2)) refl tables-IsRooted

-- The owner archives Thread 2, and with it Thread 4.
abbrev owner_actor : ArchiveActor
owner_actor = record { thread_id = 2; turn_id = none; actor = "owner"; keep_turn_id = none }

abbrev put_away : Result (Db × ArchiveOutcome)
put_away = apply turn_texts (left_by once_queued) 2 true owner_actor today

abbrev no_outcome : ArchiveOutcome
no_outcome = record {
  threads = [];
  cancelled_turn_ids = [];
  activity = record {
    id = 0;
    thread_id = 0;
    turn_id = none;
    kind = "";
    content = nothing;
    ts = "";
  };
}

abbrev outcome_of : Result (Db × ArchiveOutcome) → ArchiveOutcome
outcome_of = right_by no_outcome

put_away-ok : put_away ≡ ok (left_by put_away, outcome_of put_away)
unfolding apply queue_thread_turn refresh_from closure aggregate most_urgent status_of down_edges
    label is_terminal capture
put_away-ok = ok_parts no_outcome put_away refl

archive-held_example :
    ((id : ℕ)
      → contains (subtree (left_by once_queued) 2) id ≡ true
      → ((client_id : String) (payload : RequestPayload) (later : Instant)
          → payload.history_id ≡ some (left_by put_away).history_id
          → queue_background_thread_request turn_texts (left_by put_away) client_id id payload later
            ≡ err (failed "Thread is archived and accepts no new work; unarchive it first"))
        × ((rs : List RequestRow) (later : Instant)
            → next_request turn_texts (record (left_by put_away) { thread_requests = rs }) id later
              ≡ none))
    × ((left_by put_away).thread_requests ≡ (left_by once_queued).thread_requests)
archive-held_example =
    archive-held turn_texts (left_by once_queued) (left_by put_away) 2 owner_actor today
      (outcome_of put_away) put_away-ok

-- A wake of Thread 2
abbrev wake_payload : RequestPayload
wake_payload = record {
  history_id = some "h";
  thread_id = 2;
  turn_id = none;
  body = "wake up";
  report_triggered = false;
}

abbrev woken_once : Result (Db × TurnRow)
woken_once = queue_background_thread_request turn_texts tables "w" 2 wake_payload today

woken-ok : woken_once ≡ ok (left_by woken_once, turn_of woken_once)
unfolding queue_background_thread_request refresh_from closure aggregate most_urgent status_of
    down_edges label is_terminal capture
woken-ok = ok_parts no_turn woken_once refl

wake-once_example :
    (queue_background_thread_request turn_texts (left_by woken_once) "w" 2 wake_payload tomorrow
      ≡ ok (left_by woken_once, turn_of woken_once))
    × (queue_background_thread_request turn_texts
          (remove_thread_request (left_by woken_once) "w").0
          "w"
          2
          wake_payload
          tomorrow
        ≡ ok ((remove_thread_request (left_by woken_once) "w").0, turn_of woken_once))
wake-once_example =
    wake-once turn_texts tables (left_by woken_once) "w" "w" 2 wake_payload today tomorrow
      (turn_of woken_once) tables-IsSound refl woken-ok

-- The turn that runs reports to Thread 1.
abbrev reporting : TurnRow
reporting = row_at 1 running_db

abbrev told_once : Result (Db × ℕ)
told_once = report turn_texts running_db reporting "op" "progress" "half done" [] today

abbrev id_of : Result (Db × ℕ) → ℕ
id_of = right_by 0

told-ok : told_once ≡ ok (left_by told_once, id_of told_once)
unfolding report start_thread_turn refresh_from closure aggregate most_urgent status_of down_edges
    label is_terminal capture
told-ok = ok_parts 0 told_once refl

told_before :
    (activities_within running_db.last_activity_id running_db.thread_activities ≡ true)
    × (reporting.requester_thread_id ≡ some 1)
unfolding start_thread_turn refresh_from closure aggregate most_urgent status_of down_edges label
    is_terminal capture
told_before = (refl, refl)

abbrev half : String
half = "half done"

abbrev all_done : String
all_done = "all done"

other_text : half ≢ all_done
other_text h = cc ((str_eq_iff half all_done).1 h)

report-once_example :
    (report turn_texts (left_by told_once) reporting "op" "progress" "half done" [] tomorrow
      ≡ ok (left_by told_once, id_of told_once))
    × (report turn_texts (left_by told_once) reporting "op" "progress" "all done" [] tomorrow
        ≡ err (failed "report operation payload changed"))
report-once_example =
    report-once turn_texts running_db (left_by told_once) reporting 1 "op" "progress" "half done"
      "all done" [] today tomorrow (id_of told_once) told_before.0 told_before.1 other_text told-ok

-- A request behind the wake
abbrev asked : Result Db
asked = insert_request "r" wake_payload (left_by woken_once)

abbrev db_of : Result Db → Db
db_of (ok d) = d
db_of (err e) = tables

db_part : (r : Result Db) → is_ok r ≡ true → r ≡ ok (db_of r)
db_part (ok d) h = refl
db_part (err e) h = cc

asked-ok : asked ≡ ok (db_of asked)
unfolding insert_request queue_background_thread_request refresh_from closure aggregate most_urgent
    status_of down_edges label is_terminal capture
asked-ok = db_part asked refl

abbrev asked_row : RequestRow
asked_row = record {
  id = suc (left_by woken_once).last_request_id;
  client_id = "r";
  payload = wake_payload;
}

requests-Fifo_example :
    (next_request turn_texts (left_by woken_once) 2 today
      ≡ first (waiting turn_texts 2 today (left_by woken_once)))
    × (waiting turn_texts 2 today (db_of asked)
        ≡ waiting turn_texts 2 today (left_by woken_once)
          ++ (if is_waiting turn_texts 2 today (left_by woken_once) asked_row
              then asked_row ∷ []
              else []))
    × (waiting turn_texts 2 today (remove_thread_request (left_by woken_once) "w").0
        ≡ retain
            (λ r. not (str_eq r.client_id "w"))
            (waiting turn_texts 2 today (left_by woken_once)))
requests-Fifo_example =
    requests-Fifo turn_texts 2 today (left_by woken_once) (db_of asked) "r" "w" wake_payload
      asked-ok

tint_round_trip_example : (parse "teal" ≡ some ThreadTint.teal) ↔ (as_str ThreadTint.teal ≡ "teal")
tint_round_trip_example = tint_round_trip "teal" ThreadTint.teal
