-- ===== src/Host/Turns/Callers.antt =====
-- Execution bindings and process authorities: the caller of a tool is a running turn, or a process
-- of a Thread (crates/hirsel-host/src/storage/thread_scope.rs).
use hirsel.Base.{
  ℕ, String, Bool, true, false, not, ◌&&◌, Option, none, some, List, [], ◌∷◌, ◌++◌, ◌==◌, str_eq,
  if◌then◌else◌, any, find,
}
use hirsel.Host.Tables.{
  TurnRow, BindingRow, SessionRow, AuthorityRow, Db, failed, Result, ok, err, ensure, ◌>>=◌, ◌>>◌,
}
use hirsel.Host.Turns.Rows.{is_set, is_running, get_turn, find_turn}

pub data ThreadCallerAuthority : Type 0 where
  turn : ThreadCallerAuthority
  -- process_id
  process : String → ThreadCallerAuthority

pub record ThreadCaller : Type 0 where
  pub history_id : String
  pub session_id : String
  pub execution_id : String
  pub thread_id : ℕ
  pub turn_id : ℕ
  pub authority : ThreadCallerAuthority

-- The turn `id` belongs to `thread`, and `ready` holds of it.
abbrev pub turn_is : ℕ → ℕ → (TurnRow → Bool) → List TurnRow → Bool
turn_is id thread ready ts = any (λ t. t.id == id && (t.thread_id == thread && ready t)) ts

-- t.state='running' AND t.cancel_requested_at IS NULL
abbrev pub is_active : TurnRow → Bool
is_active t = is_running t.state && not (is_set t.cancel_requested_at)

-- The binding of a caller, apart from its revocation
abbrev pub binds : ThreadCaller → BindingRow → Bool
binds caller b =
    str_eq b.history_id caller.history_id
    && (str_eq b.session_id caller.session_id
        && (str_eq b.execution_id caller.execution_id && b.turn_id == caller.turn_id))

unfoldable pub turn_bound : Db → ThreadCaller → Bool
turn_bound db caller =
    str_eq db.history_id caller.history_id
    && (any (λ b. binds caller b && not b.revoked) db.thread_execution_bindings
        && turn_is caller.turn_id caller.thread_id is_active db.thread_turns)

unfoldable pub process_bound : Db → ThreadCaller → String → Bool
process_bound db caller process_id =
    str_eq db.history_id caller.history_id
    && (any
          (λ s.
            str_eq s.session_id caller.session_id
            && (str_eq s.history_id caller.history_id && s.thread_id == caller.thread_id))
          db.thread_process_sessions
        && (any
              (λ a.
                str_eq a.session_id caller.session_id
                && (str_eq a.process_id process_id && a.turn_id == caller.turn_id))
              db.thread_process_authorities
            && turn_is caller.turn_id caller.thread_id (λ t. true) db.thread_turns))

unfoldable pub validate_as : Db → ThreadCaller → ThreadCallerAuthority → Result Unit
unfolding turn_bound process_bound
validate_as db caller (ThreadCallerAuthority.process id) =
    ensure (process_bound db caller id) (failed "Thread process authority is unavailable")
validate_as db caller ThreadCallerAuthority.turn =
    ensure (turn_bound db caller) (failed "Thread execution binding is unavailable")

unfoldable pub validate_caller : Db → ThreadCaller → Result Unit
unfolding validate_as
validate_caller db caller = validate_as db caller caller.authority

-- ON CONFLICT(session_id,execution_id) DO NOTHING
unfoldable pub insert_binding : BindingRow → List BindingRow → List BindingRow
insert_binding b bindings =
    if any (λ o. str_eq o.session_id b.session_id && str_eq o.execution_id b.execution_id) bindings
    then bindings
    else bindings ++ b ∷ []

abbrev turn_caller : String → String → String → TurnRow → ThreadCaller
turn_caller history session execution t = record {
  history_id = history;
  session_id = session;
  execution_id = execution;
  thread_id = t.thread_id;
  turn_id = t.id;
  authority = ThreadCallerAuthority.turn;
}

-- The statements commit one by one: a caller that is refused leaves the row.
unfoldable pub bind_thread_execution : Db → String → String → String → ℕ → Db × Result ThreadCaller
unfolding get_turn insert_binding validate_caller
bind_thread_execution db history session execution id =
    let checked =
      ensure (str_eq db.history_id history) (failed "Thread history is no longer current")
      >> get_turn db id
      >>= λ t.
          ensure (is_running t.state) (failed "only a running turn can bind an execution")
          >> ok t in
    elim checked [
      | err e ↦ (db, err e)
      | ok t ↦
          let b : BindingRow = record {
            history_id = history;
            session_id = session;
            execution_id = execution;
            turn_id = id;
            revoked = false;
          } in
          let d = record db {
            thread_execution_bindings = insert_binding b db.thread_execution_bindings;
          } in
          let caller = turn_caller history session execution t in
          (d, validate_caller d caller >> ok caller)
    ]

-- JOIN thread_turns
abbrev joined : Db → Option BindingRow → Option (BindingRow × TurnRow)
joined db none = none
joined db (some b) = elim (find_turn db b.turn_id) [ none ↦ none | some t ↦ some (b, t) ]

unfoldable pub execution_caller : Db → String → String → Result ThreadCaller
unfolding validate_caller
execution_caller db session execution =
    elim (joined db (
      find (λ b. str_eq b.session_id session && str_eq b.execution_id execution)
        db.thread_execution_bindings)) [
          | none ↦ err (failed "Thread execution binding is unavailable")
          | some (b, t) ↦
              let caller = turn_caller b.history_id session execution t in
              validate_caller db caller >> ok caller
        ]

-- The latest turn of a Thread: ORDER BY t.id DESC LIMIT 1
abbrev latest_turn : ℕ → List TurnRow → Option TurnRow
latest_turn thread [] = none
latest_turn thread (t ∷ rest) =
    let here : Option TurnRow = if t.thread_id == thread then some t else none in
    elim (latest_turn thread rest) [ some u ↦ some u | none ↦ here ]

abbrev find_session : Db → String → Option SessionRow
find_session db session = find (λ s. str_eq s.session_id session) db.thread_process_sessions

abbrev find_authority : Db → String → String → Option AuthorityRow
find_authority db session process_id =
    find (λ a. str_eq a.session_id session && str_eq a.process_id process_id)
      db.thread_process_authorities

-- The turn that a first call of the process pins
abbrev pinned : Db → String → Option ℕ
pinned db session = elim (find_session db session) [
  | none ↦ none
  | some s ↦
      let last : Option ℕ = elim (latest_turn s.thread_id db.thread_turns) [
        | none ↦ none
        | some t ↦ some t.id
      ] in
      if str_eq s.history_id db.history_id then last else none
]

-- INSERT OR IGNORE INTO thread_process_authorities
unfoldable pub pin_process : Db → String → String → Db
pin_process db session process_id = elim (find_authority db session process_id) [
  | some a ↦ db
  | none ↦ elim (pinned db session) [
    | none ↦ db
    | some latest ↦
        let row : AuthorityRow = record {
          session_id = session;
          process_id = process_id;
          turn_id = latest;
        } in
        record db { thread_process_authorities = db.thread_process_authorities ++ row ∷ [] }
  ]
]

read_process : Db → String → String → String → Result ThreadCaller
unfolding validate_caller
read_process db session process_id execution = elim (find_authority db session process_id) [
  | none ↦ err (failed "Thread process authority is unavailable")
  | some a ↦ elim (find_session db session) [
    | none ↦ err (failed "Thread process authority is unavailable")
    | some s ↦
        let caller : ThreadCaller = record {
          history_id = s.history_id;
          session_id = session;
          execution_id = execution;
          thread_id = s.thread_id;
          turn_id = a.turn_id;
          authority = ThreadCallerAuthority.process process_id;
        } in
        validate_caller db caller >> ok caller
  ]
]

unfoldable pub process_caller : Db → String → String → String → Db × Result ThreadCaller
unfolding pin_process read_process
process_caller db session process_id execution =
    let d = pin_process db session process_id in (d, read_process d session process_id execution)

-- UPDATE thread_execution_bindings SET revoked=1 WHERE …
abbrev pub revoke_where : (BindingRow → Bool) → List BindingRow → List BindingRow
revoke_where p [] = []
revoke_where p (b ∷ rest) =
    let more = revoke_where p rest in (if p b then record b { revoked = true } else b) ∷ more

unfoldable pub revoke_thread_execution : Db → ThreadCaller → Db
revoke_thread_execution db caller = record db {
  thread_execution_bindings = revoke_where (binds caller) db.thread_execution_bindings;
}

-- The condition of `execution_telemetry_guard`
unfoldable pub execution_telemetry_guard : Db → ThreadCaller → Result Unit
execution_telemetry_guard db caller =
    ensure
      (str_eq db.history_id caller.history_id
        && (any (binds caller) db.thread_execution_bindings
            && turn_is caller.turn_id caller.thread_id (λ t. true) db.thread_turns))
      (failed "Thread telemetry execution is no longer current")
