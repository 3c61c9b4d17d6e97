-- ===== src/Host/Turns/Execution.antt =====
-- crates/hirsel-host/src/storage/thread_execution.rs: what a turn runs on is chosen once.
use hirsel.Base.{
  ℕ, String, not, Option, none, some, List, [], ◌∷◌, ◌++◌, ◌==◌, ◌+◌, lookup, insert, remove,
  nat_eq,
}
use hirsel.Proto.{Instant, ThreadExecutionTarget}
use hirsel.Host.Tables.{
  ThreadRow, ThreadExecution, Db, failed, Result, ok, err, ensure, ◌>>=◌, ◌>>◌, row_of,
}
use hirsel.Host.Scope.{validate_history}
use hirsel.Host.Turns.Rows.{get_thread, update_row, is_set}

unfoldable pub select_execution : Db → ℕ → Option ThreadExecution → Option ThreadExecution
select_execution db thread (some execution) = some execution
select_execution db thread none = elim (lookup thread db.thread_execution_preferences) [
  | some preferred ↦ some preferred
  | none ↦ db.native_execution_default
]

unfoldable pub capture_selected : Db → ℕ → Option ThreadExecution → Result Db
capture_selected db turn none = ok db
capture_selected db turn (some execution) =
    ensure (not (is_set (lookup turn db.thread_turn_execution)))
      (failed "UNIQUE constraint failed: thread_turn_execution.turn_id")
    >> ok (record db { thread_turn_execution = db.thread_turn_execution ++ (turn, execution) ∷ [] })

unfoldable pub capture : Db → ℕ → ℕ → Option ThreadExecution → Result Db
unfolding select_execution capture_selected
capture db thread turn explicit = capture_selected db turn (select_execution db thread explicit)

unfoldable pub turn_execution : Db → ℕ → Result ThreadExecution
turn_execution db turn = row_of (lookup turn db.thread_turn_execution)

unfoldable pub set_native_execution_default : Db → ThreadExecution → Result Db
set_native_execution_default db (ThreadExecution.native provider_id model cwd) =
    ok
      (record db { native_execution_default = some (ThreadExecution.native provider_id model cwd) })
set_native_execution_default db (ThreadExecution.cli agent model variant cwd) =
    err (failed "the default execution must name a Native provider")

unfoldable pub native_execution_default : Db → Result ThreadExecution
native_execution_default db = row_of db.native_execution_default

unfoldable pub public_target : ThreadExecution → ThreadExecutionTarget
public_target (ThreadExecution.native provider_id model cwd) =
    ThreadExecutionTarget.native provider_id model.id
public_target (ThreadExecution.cli agent model variant cwd) =
    ThreadExecutionTarget.cli agent model variant

unfoldable pub preference : Db → ℕ → Option ThreadExecutionTarget
unfolding public_target
preference db thread = elim (lookup thread db.thread_execution_preferences) [
  | none ↦ none
  | some stored ↦ some (public_target stored)
]

abbrev touched : Instant → ThreadRow → ThreadRow
touched now t = record t { updated_at = now; revision = t.revision + 1 }

abbrev write_preference :
    ℕ → Option ThreadExecution → List (ℕ × ThreadExecution) → List (ℕ × ThreadExecution)
write_preference id (some execution) stored = insert id execution stored
write_preference id none stored = remove id stored

unfoldable pub set_addressed_thread_execution :
    Db → String → ℕ → Option ThreadExecution → ℕ → Instant → Result (Db × ThreadRow)
unfolding validate_history get_thread
set_addressed_thread_execution db history id execution expected_revision now =
    validate_history db history >> get_thread db id >>= λ current.
    ensure (current.revision == expected_revision)
      (failed "thread changed; reload before updating where it runs")
    >> (let after = record db {
      thread_execution_preferences = write_preference id execution db.thread_execution_preferences;
      threads = update_row id (touched now) db.threads;
    } in
        get_thread after id >>= λ t. ok (after, t))
