-- ===== src/Host/Turns/Refines/Accept.antt =====
-- Turns that are accepted or started (crates/hirsel-host/src/storage/thread_activity.rs) and those
-- that a report or a delegation queues (thread_delegation.rs).
use hirsel.Base.{
  ℕ, suc, String, ◌≡◌, refl, ap, sym, ◌∙◌, subst, Bool, true, false, ◌&&◌, Option, none, some, List,
  [], ◌∷◌, ◌++◌, arith, ◌==◌, ==_iff, find,
}
use hirsel.Proto.{Instant, ThreadTurnState, is_terminal}
use hirsel.Host.Tables.{TurnRow, Db, ok}
use hirsel.Host.Turns.Texts.{TurnTexts}
use hirsel.Host.Turns.Headlines.{refresh_from}
use hirsel.Host.Turns.Rows.{is_running, has_running, find_turn, get_turn, insert_turn}
use hirsel.Host.Turns.Queue.{accept_turn, new_turn}
use hirsel.Host.Turns.Reports.{enqueue, queued_turn}
use hirsel.Host.Turns.Runs.{accept_turn-Run, enqueue-Run, outbox_payload}
use hirsel.Host.Turns.Machine.{TurnTable, TurnSteps, accept, here, next, satisfies_checks}
use hirsel.Host.Turns.Kept.{
  OnlyThreads, OnlyExecution, refresh_from-OnlyThreads, capture-OnlyExecution, insert_request-row,
}

abbrev pub table : Db → TurnTable
table db = (db.thread_turns, db.last_turn_id)

-- The change from `db` to `d` is a run of the turn machine.
abbrev pub Refines : Db → Db → Type 0
Refines db d = TurnSteps (table db) (table d)

pub Refines-same : (db d : Db) → table db ≡ table d → Refines db d
Refines-same db d h = subst (TurnSteps (table db)) h here

pub Refines-then : (a b c : Db) → Refines a b → table b ≡ table c → Refines a c
Refines-then a b c r h = subst (TurnSteps (table a)) h r

-- A row that may be inserted under the next id
pub record IsNew (row : ℕ → TurnRow) : Type 0 where
  pub numbered : (id : ℕ) → (row id).id ≡ id
  pub unfinished : (id : ℕ) → is_terminal (row id).state ≡ false
  pub checked : (id : ℕ) → satisfies_checks (row id) ≡ true

pub queued_turn-IsNew :
    (thread requester : ℕ) (requester_turn : Option ℕ) (now : Instant)
    → IsNew (queued_turn thread (some requester) requester_turn now)
unfolding satisfies_checks
queued_turn-IsNew thread requester requester_turn now = record {
  numbered = λ id. refl;
  unfinished = λ id. refl;
  checked = λ id. ground arith;
}

pub queued_report-IsNew :
    (thread : ℕ) (requester : Option ℕ) (now : Instant)
    → IsNew (queued_turn thread requester none now)
unfolding satisfies_checks
queued_report-IsNew thread requester now = record {
  numbered = λ id. refl;
  unfinished = λ id. refl;
  checked = λ id. refl;
}

pub new_turn-IsNew :
    (thread : ℕ) (parent message : Option ℕ) (now : Instant)
    → IsNew (new_turn ThreadTurnState.queued thread parent message none now)
unfolding satisfies_checks
new_turn-IsNew thread parent message now = record {
  numbered = λ id. refl;
  unfinished = λ id. refl;
  checked = λ id. refl;
}

pub running_turn-IsNew :
    (thread : ℕ) (parent message : Option ℕ) (now : Instant)
    → IsNew (new_turn ThreadTurnState.running thread parent message (some now) now)
unfolding satisfies_checks
running_turn-IsNew thread parent message now = record {
  numbered = λ id. refl;
  unfinished = λ id. refl;
  checked = λ id. refl;
}

-- What an insertion that the constraints admit leaves
pub record Inserted (row : ℕ → TurnRow) (db : Db) (a : Db × ℕ) : Type 0 where
  pub free :
      let t = row (suc db.last_turn_id) in
      (is_running t.state && has_running t.thread_id db.thread_turns) ≡ false
  pub result :
      let t = row (suc db.last_turn_id) in
      a ≡ (record db { thread_turns = db.thread_turns ++ t ∷ []; last_turn_id = t.id }, t.id)

pub insert_turn-Inserted :
    (row : ℕ → TurnRow) (db : Db) (a : Db × ℕ) → insert_turn row db ≡ ok a → Inserted row db a
unfolding insert_turn
insert_turn-Inserted row db a h = record { free = ground arith; result = ground arith }

pub insert_turn-Refines :
    (row : ℕ → TurnRow) (db : Db) (a : Db × ℕ)
    → IsNew row
    → insert_turn row db ≡ ok a
    → Refines db a.0
insert_turn-Refines row db a new h =
    let i = insert_turn-Inserted row db a h in
    let id = suc db.last_turn_id in
    next here (
      accept (row id) (new.numbered id) (new.unfinished id) (new.checked id) i.free (
        ap (λ (r : Db × ℕ). table r.0) i.result
        ∙ ap (λ n. (db.thread_turns ++ row id ∷ [], n)) (new.numbered id)))

pub OnlyThreads-table : (db d : Db) → OnlyThreads db d → table db ≡ table d
OnlyThreads-table db d h = sym (ap table h)

pub OnlyExecution-table : (db d : Db) → OnlyExecution db d → table db ≡ table d
OnlyExecution-table db d h = sym (ap table h)

module _ (texts : TurnTexts) where
  pub refresh_from-table :
      (db : Db) (id : ℕ) (now : Instant) (r : Db × List ℕ)
      → refresh_from texts db id now ≡ ok r
      → table db ≡ table r.0
  refresh_from-table db id now r h =
      OnlyThreads-table db r.0 (refresh_from-OnlyThreads texts db id now r h)

  pub accept_turn-Refines :
      (db : Db) (row : ℕ → TurnRow) (thread : ℕ) (now : Instant) (a : Db × ℕ)
      → IsNew row
      → accept_turn texts db row thread now ≡ ok a
      → Refines db a.0
  accept_turn-Refines db row thread now a new h =
      let run = accept_turn-Run texts db row thread now a h in
      let r = run.refreshed in
      Refines-then db run.one.0 a.0 (insert_turn-Refines row db run.one new run.inserted) (
        refresh_from-table run.one.0 thread now r run.climbed
        ∙ OnlyExecution-table r.0 a.0
            (capture-OnlyExecution r.0 thread run.one.1 none a.0 run.captured))

pub enqueue-Refines :
    (db : Db) (thread : ℕ) (client_id body : String) (requester requester_turn : Option ℕ)
    (report_triggered : Bool) (now : Instant) (a : Db × ℕ)
    → IsNew (queued_turn thread requester requester_turn now)
    → enqueue db thread client_id body requester requester_turn report_triggered now ≡ ok a
    → Refines db a.0
enqueue-Refines db thread client_id body requester requester_turn triggered now a new h =
    let run = enqueue-Run db thread client_id body requester requester_turn triggered now a h in
    let row = queued_turn thread requester requester_turn now in
    let payload = outbox_payload thread body triggered run.taken run.one.1 in
    Refines-then db run.one.0 a.0 (insert_turn-Refines row db run.one new run.inserted) (
      OnlyExecution-table run.one.0 run.taken
        (capture-OnlyExecution run.one.0 thread run.one.1 none run.taken run.captured)
      ∙ sym (ap table (insert_request-row client_id payload run.taken a.0 run.put)))

-- A row that was found carries the id that it was looked for.
find_turn-id :
    (id : ℕ) (ts : List TurnRow) (t : TurnRow) → find (λ u. u.id == id) ts ≡ some t → t.id ≡ id
find_turn-id id [] t h = cc
find_turn-id id (x ∷ ts) t h = ground (arith, find_turn-id id ts t, ==_iff x.id id)

pub get_turn-found :
    (db : Db) (id : ℕ) (t : TurnRow)
    → get_turn db id ≡ ok t
    → (find (λ u. u.id == t.id) db.thread_turns ≡ some t) × (t.id ≡ id)
unfolding get_turn
get_turn-found db id t h =
    let e : find_turn db id ≡ some t = found (find_turn db id) refl in
    let same = find_turn-id id db.thread_turns t e in
    (ap (λ k. find (λ (u : TurnRow). u.id == k) db.thread_turns) same ∙ e, same)
  where
    found : (o : Option TurnRow) → find_turn db id ≡ o → find_turn db id ≡ some t
    found none q = absurd (ground arith)
    found (some u) q = ground arith
