-- ===== src/Host/Turns/Refines/Steps.antt =====
-- The operations of storage as steps between its tables, and what holds along any run of them: each
-- is a run of the turn machine.
use hirsel.Base.{
  ℕ, String, ◌≡◌, refl, ap, sym, ◌∙◌, subst, Bool, true, Option, some, List, find, ◌==◌, arith,
}
use hirsel.Proto.{Instant, Json, ThreadTurnState, is_terminal}
use hirsel.Host.Tables.{
  TurnRow, MessageRow, EventRow, RequestPayload, Db, failed, Result, ok, and_then, ensure,
}
use hirsel.Host.Granted.{and_then-ok}
use hirsel.Host.Turns.Texts.{TurnTexts}
use hirsel.Host.Turns.Rows.{is_set}
use hirsel.Host.Turns.Queue.{
  queue_thread_turn, run_thread_turn, start_thread_turn, queue_background_thread_request,
}
use hirsel.Host.Turns.Reports.{report}
use hirsel.Host.Turns.Finish.{
  ThreadCompletion, finish_thread_turn, finish_with_failure, interrupt_unfinished_thread_turns,
  complete_thread_turn_with_failure,
}
use hirsel.Host.Turns.Delegation.{
  Delegation, DelegatedTurn, delegate_thread, report_thread_progress,
}
use hirsel.Host.Turns.Callers.{
  ThreadCaller, bind_thread_execution, process_caller, revoke_thread_execution,
}
use hirsel.Host.Turns.Requests.{request_thread_cancellation, request_cancel, remove_thread_request}
use hirsel.Host.Turns.Archive.{ArchiveActor, ArchiveOutcome, apply}
use hirsel.Host.Turns.Machine.{TurnSteps, IsSound}
use hirsel.Host.Turns.Machine.Sound.{TurnSteps-IsSound}
use hirsel.Host.Turns.Machine.Final.{SameEnd, SameEnd-trans, Stays-put, TurnSteps-final}
use hirsel.Host.Turns.Messages.{
  ActionTexts, OwnerRecord, append_thread_owner_record, materialize_thread_reply, append_next,
  reset,
}
use hirsel.Host.Turns.Refines.Answered.{
  owner_record-Refines, materialize-Refines, append_next-Refines,
}
use hirsel.Host.Turns.Refines.Accept.{table, Refines, Refines-same}
use hirsel.Host.Turns.Refines.Ends.{
  report-Refines, finish_with_failure-Refines, interrupt_unfinished-Refines,
}
use hirsel.Host.Turns.Refines.Complete.{complete-Refines, delegate_thread-Refines}
use hirsel.Host.Turns.Refines.Queued.{
  queue_thread_turn-Refines, run_thread_turn-Refines, start_thread_turn-Refines,
  queue_background-Refines,
}
use hirsel.Host.Turns.Refines.Stops.{
  apply-Refines, request_cancel-Refines, request_thread_cancellation-Refines,
}

module _ (texts : TurnTexts) where
  finish_thread_turn-Refines :
      (db : Db) (id : ℕ) (state : ThreadTurnState) (reply : Option ℕ) (now : Instant)
      (r : Db × TurnRow)
      → finish_thread_turn texts db id state reply now ≡ ok r
      → Refines db r.0
  unfolding finish_thread_turn
  finish_thread_turn-Refines db id state reply now r h =
      let (_, _, k) =
        and_then-ok (ensure (is_terminal state) (failed "finish requires terminal state"))
          (λ _. finish_with_failure texts db id state reply Option.none now) r h in
      finish_with_failure-Refines texts db id state reply Option.none now r k

  report_progress-Refines :
      (db : Db) (caller : ThreadCaller) (operation summary : String) (ids : List ℕ) (now : Instant)
      (r : Db × ℕ)
      → report_thread_progress texts db caller operation summary ids now ≡ ok r
      → Refines db r.0
  unfolding report_thread_progress
  report_progress-Refines db caller operation summary ids now r h =
      let told : TurnRow → Result (Db × ℕ) = λ t.
        and_then
          (ensure (is_set t.requester_thread_id) (failed "this turn has no requesting parent"))
          (λ _. report texts db t operation "progress" summary ids now) in
      let (t, _, k) = and_then-ok _ told r h in
      let (_, _, k') =
        and_then-ok
          (ensure (is_set t.requester_thread_id) (failed "this turn has no requesting parent"))
          (λ _. report texts db t operation "progress" summary ids now) r k in
      report-Refines texts db t operation "progress" summary ids now r k'

  bind-table :
      (db : Db) (history session execution : String) (id : ℕ)
      → table db ≡ table (bind_thread_execution db history session execution id).0
  unfolding bind_thread_execution
  bind-table db history session execution id = ground arith

  process-table :
      (db : Db) (session process execution : String)
      → table db ≡ table (process_caller db session process execution).0
  unfolding process_caller
  process-table db session process execution = ground arith

  -- An operation that succeeded, or that may leave a part of its work
  pub data StorageStep (db : Db) (d : Db) : Type 0 where
    queued :
        (thread : ℕ) (message : Option ℕ) (now : Instant) (t : TurnRow)
        → queue_thread_turn texts db thread message now ≡ ok (d, t)
        → StorageStep db d
    woken :
        (client_id : String) (thread : ℕ) (payload : RequestPayload) (now : Instant) (t : TurnRow)
        → queue_background_thread_request texts db client_id thread payload now ≡ ok (d, t)
        → StorageStep db d
    ran : (id : ℕ) (now : Instant) → d ≡ (run_thread_turn texts db id now).0 → StorageStep db d
    started :
        (thread : ℕ) (message : Option ℕ) (now : Instant)
        → d ≡ (start_thread_turn texts db thread message now).0
        → StorageStep db d
    finished :
        (id : ℕ) (state : ThreadTurnState) (reply : Option ℕ) (now : Instant) (t : TurnRow)
        → finish_thread_turn texts db id state reply now ≡ ok (d, t)
        → StorageStep db d
    completed :
        (history : String) (id : ℕ) (state : ThreadTurnState) (output : Option (String × List Json))
        (failure : Option String) (now : Instant) (c : ThreadCompletion)
        → complete_thread_turn_with_failure texts db history id state output failure now ≡ ok (d, c)
        → StorageStep db d
    interrupted :
        (now : Instant) (ts : List TurnRow)
        → interrupt_unfinished_thread_turns texts db now ≡ ok (d, ts)
        → StorageStep db d
    delegated :
        (caller : ThreadCaller) (operation : String) (assignment : Delegation) (payload : Json)
        (now : Instant) (t : DelegatedTurn)
        → delegate_thread texts db caller operation assignment payload now ≡ ok (d, t)
        → StorageStep db d
    reported :
        (caller : ThreadCaller) (operation summary : String) (ids : List ℕ) (now : Instant) (id : ℕ)
        → report_thread_progress texts db caller operation summary ids now ≡ ok (d, id)
        → StorageStep db d
    archived :
        (root : ℕ) (b : Bool) (actor : ArchiveActor) (now : Instant) (o : ArchiveOutcome)
        → apply texts db root b actor now ≡ ok (d, o)
        → StorageStep db d
    cancelled :
        (thread : ℕ) (first_only : Bool) (keep : Option ℕ) (now : Instant)
        → d ≡ (request_cancel db thread first_only keep now).0
        → StorageStep db d
    stopped :
        (history : String) (thread : ℕ) (now : Instant)
        → request_thread_cancellation db history thread now ≡ ok d
        → StorageStep db d
    removed : (client_id : String) → d ≡ (remove_thread_request db client_id).0 → StorageStep db d
    bound :
        (history session execution : String) (id : ℕ)
        → d ≡ (bind_thread_execution db history session execution id).0
        → StorageStep db d
    pinned :
        (session process execution : String)
        → d ≡ (process_caller db session process execution).0
        → StorageStep db d
    revoked : (caller : ThreadCaller) → d ≡ revoke_thread_execution db caller → StorageStep db d
    written :
        (actions : ActionTexts) (history : String) (r : OwnerRecord) (now : Instant)
        (m : MessageRow × Bool)
        → append_thread_owner_record texts actions db history r now ≡ ok (d, m)
        → StorageStep db d
    replied :
        (id : ℕ) (body : String) (anchor : Option ℕ) (calls : Json) (now : Instant) (m : MessageRow)
        → materialize_thread_reply db id body anchor calls now ≡ ok (d, m)
        → StorageStep db d
    noted :
        (thread turn : ℕ) (event : Json) (now : Instant) (e : EventRow)
        → append_next db thread turn event now ≡ ok (d, e)
        → StorageStep db d
    -- whatever else changes the other tables
    elsewhere : table db ≡ table d → StorageStep db d

  pub data StorageSteps (db : Db) : Db → Type 0 where
    start : StorageSteps db db
    after : {d e : Db} → StorageSteps db d → StorageStep d e → StorageSteps db e

  -- With the resets, which start a new history
  pub data StorageLife (db : Db) : Db → Type 0 where
    begun : StorageLife db db
    lived : {d e : Db} → StorageLife db d → StorageStep d e → StorageLife db e
    cleared :
        {d e : Db} (history : String) → StorageLife db d → e ≡ reset d history → StorageLife db e

  same_table : (db d e : Db) → d ≡ e → table db ≡ table e → Refines db d
  same_table db d e h k = Refines-same db d (k ∙ sym (ap table h))

  runs_to : (db d e : Db) → d ≡ e → Refines db e → Refines db d
  runs_to db d e h r = subst (Refines db) (sym h) r

  remove-table :
      (db : Db) (client_id : String) → table db ≡ table (remove_thread_request db client_id).0
  unfolding remove_thread_request
  remove-table db client_id = refl

  revoke-table :
      (db : Db) (caller : ThreadCaller) → table db ≡ table (revoke_thread_execution db caller)
  unfolding revoke_thread_execution
  revoke-table db caller = refl

  -- Each operation that writes to thread_turns, but for a reset, is a run of the turn machine when it
  -- succeeds or leaves a part of its work: turns are accepted under new ids, started when none of
  -- their Thread runs, asked to stop while they are open, ended once, and answered where no reply is;
  -- the time of a turn's last event may change in any state.
  pub StorageStep-Refines :
      (db d : Db) → IsSound (table db) → StorageStep db d → TurnSteps (table db) (table d)
  StorageStep-Refines db d s (queued thread message now t h) =
      queue_thread_turn-Refines texts db thread message now (d, t) h
  StorageStep-Refines db d s (woken client_id thread payload now t h) =
      queue_background-Refines texts db client_id thread payload now (d, t) h
  StorageStep-Refines db d s (ran id now h) =
      runs_to db d _ h (run_thread_turn-Refines texts db id now)
  StorageStep-Refines db d s (started thread message now h) =
      runs_to db d _ h (start_thread_turn-Refines texts db thread message now)
  StorageStep-Refines db d s (finished id state reply now t h) =
      finish_thread_turn-Refines db id state reply now (d, t) h
  StorageStep-Refines db d s (completed history id state output failure now c h) =
      complete-Refines texts db history id state output failure now (d, c) h
  StorageStep-Refines db d s (interrupted now ts h) =
      interrupt_unfinished-Refines texts db now (d, ts) h
  StorageStep-Refines db d s (delegated caller operation assignment payload now t h) =
      delegate_thread-Refines texts db caller operation assignment payload now (d, t) h
  StorageStep-Refines db d s (reported caller operation summary ids now id h) =
      report_progress-Refines db caller operation summary ids now (d, id) h
  StorageStep-Refines db d s (archived root b actor now o h) =
      apply-Refines texts db root b actor now (d, o) s h
  StorageStep-Refines db d s (cancelled thread first_only keep now h) =
      runs_to db d _ h (request_cancel-Refines db thread first_only keep now s)
  StorageStep-Refines db d s (stopped history thread now h) =
      request_thread_cancellation-Refines db history thread now d h
  StorageStep-Refines db d s (removed client_id h) = same_table db d _ h (remove-table db client_id)
  StorageStep-Refines db d s (bound history session execution id h) =
      same_table db d _ h (bind-table db history session execution id)
  StorageStep-Refines db d s (pinned session process execution h) =
      same_table db d _ h (process-table db session process execution)
  StorageStep-Refines db d s (revoked caller h) = same_table db d _ h (revoke-table db caller)
  StorageStep-Refines db d s (written actions history r now m h) =
      owner_record-Refines texts actions db history r now (d, m) h
  StorageStep-Refines db d s (replied id body anchor calls now m h) =
      materialize-Refines db id body anchor calls now (d, m) h
  StorageStep-Refines db d s (noted thread turn event now e h) =
      append_next-Refines db thread turn event now (d, e) h
  StorageStep-Refines db d s (elsewhere h) = Refines-same db d h

  pub StorageSteps-IsSound :
      {db d : Db} → StorageSteps db d → IsSound (table db) → IsSound (table d)
  StorageSteps-IsSound start s = s
  StorageSteps-IsSound (after {d} {e} run st) s =
      let before = StorageSteps-IsSound run s in
      TurnSteps-IsSound (StorageStep-Refines d e before st) before

  reset-IsSound : (db : Db) (history : String) → IsSound (table (reset db history))
  unfolding reset
  reset-IsSound db history = record {
    distinct = refl;
    bounded = refl;
    single = refl;
    checked = refl;
  }

  -- Along any run of storage, resets and changes of the other tables included, the table of turns
  -- stays sound: the ids are distinct and none is above the sequence, at most one turn of each Thread
  -- runs, and every row satisfies the table's CHECK constraints.
  pub StorageLife-IsSound : {db d : Db} → StorageLife db d → IsSound (table db) → IsSound (table d)
  StorageLife-IsSound begun s = s
  StorageLife-IsSound (lived {d} {e} run st) s =
      let before = StorageLife-IsSound run s in
      TurnSteps-IsSound (StorageStep-Refines d e before st) before
  StorageLife-IsSound (cleared {d} history run same) s =
      subst (λ (x : Db). IsSound (table x)) (sym same) (reset-IsSound d history)

  -- Once a turn ended, no run of storage without a reset changes how it ended: its row stays, with its
  -- Thread, its owner's message, its state, the times at which it was accepted, started, asked to stop
  -- and finished, and its reply if it has one.
  pub StorageSteps-final :
      {db d : Db} (id : ℕ) (t : TurnRow)
      → StorageSteps db d
      → IsSound (table db)
      → find (λ u. u.id == id) db.thread_turns ≡ some t
      → is_terminal t.state ≡ true
      → (u : TurnRow) × (find (λ o. o.id == id) d.thread_turns ≡ some u) × SameEnd t u
  StorageSteps-final {db} id t start s h k = Stays-put (table db) id t h
  StorageSteps-final id t (after {d} {e} run st) s h k =
      let before = StorageSteps-IsSound run s in
      let (u, at, a) = StorageSteps-final id t run s h k in
      let (v, at', b) =
        TurnSteps-final id u (StorageStep-Refines d e before st) at (ap is_terminal a.state ∙ k) in
      (v, at', SameEnd-trans t u v a b)
