-- ===== src/Host/Turns/Requests.antt =====
-- crates/hirsel-host/src/storage/thread_requests.rs, and the requests to stop a turn
-- (thread_archive.rs, request_cancel; thread_scope.rs, request_thread_cancellation).
use hirsel.Base.{
  ℕ, String, Bool, true, false, not, ◌&&◌, ◌||◌, Option, none, some, List, [], ◌∷◌, ◌++◌, ◌==◌,
  str_eq, leb, if◌then◌else◌, find, retain, contains, nat_eq, opt_beq,
}
use hirsel.Proto.{Instant, is_terminal}
use hirsel.Host.Tables.{
  ThreadRow, TurnRow, RequestPayload, RequestRow, Db, Result, ok, ◌>>=◌, ◌>>◌, find_thread_row,
}
use hirsel.Host.Scope.{validate_history}
use hirsel.Host.Turns.Texts.{TurnTexts}
use hirsel.Host.Turns.Rows.{is_set, is_running, insert_request}
use hirsel.Host.Turns.Queue.{history_of}

abbrev pub find_request : Db → String → Option RequestRow
find_request db client_id = find (λ r. str_eq r.client_id client_id) db.thread_requests

unfoldable pub thread_request : Db → String → Option RequestPayload
thread_request db client_id = elim (find_request db client_id) [
  | none ↦ none
  | some r ↦ some r.payload
]

-- ON CONFLICT(client_id) DO NOTHING
unfoldable pub save_thread_request : Db → String → RequestPayload → Result Db
unfolding validate_history insert_request
save_thread_request db client_id payload =
    history_of payload.history_id "request history is required" >>= λ h.
    validate_history db h
    >> (let inserted = insert_request client_id payload db in
        elim (find_request db client_id) [ some r ↦ ok db | none ↦ inserted ])

unfoldable pub remove_thread_request : Db → String → Db × Bool
remove_thread_request db client_id = (
  record db {
    thread_requests = retain (λ r. not (str_eq r.client_id client_id)) db.thread_requests;
  },
  is_set (find_request db client_id),
)

module _ (texts : TurnTexts) where
  abbrev pub is_awake : Instant → ThreadRow → Bool
  is_awake now t = elim t.snoozed_until [
    | none ↦ true
    | some until ↦ leb (texts.timestamp until) (texts.timestamp now)
  ]

  -- The WHERE clause, for a request whose Thread is `t`
  abbrev pub admitted : Instant → RequestRow → Option ThreadRow → Bool
  admitted now r none = false
  admitted now r (some t) =
      not (is_set t.archived_at) && (not r.payload.report_triggered || is_awake now t)

  -- ORDER BY r.id: the order of the table
  unfoldable pub pending_thread_requests : Db → Instant → List RequestRow
  pending_thread_requests db now =
      retain (λ r. admitted now r (find_thread_row db r.payload.thread_id)) db.thread_requests

  -- What a lane admits next: `.find(|(_, p)| p["thread_id"].as_u64() == Some(self.thread_id))`
  -- (crates/hirsel-host/src/lash_runtime/thread_queue.rs)
  unfoldable pub next_request : Db → ℕ → Instant → Option RequestRow
  unfolding pending_thread_requests
  next_request db thread now =
      find (λ r. r.payload.thread_id == thread) (pending_thread_requests db now)

abbrev pub is_open : TurnRow → Bool
is_open t = not (is_terminal t.state)

unfoldable pub requested_thread_cancellations : Db → List TurnRow
unfolding is_terminal
requested_thread_cancellations db =
    retain (λ t. is_set t.cancel_requested_at && is_open t) db.thread_turns

abbrev or_now : Option Instant → Instant → Option Instant
or_now none now = some now
or_now (some i) now = some i

-- UPDATE thread_turns SET cancel_requested_at=COALESCE(cancel_requested_at,…)
abbrev pub cancel_where : (TurnRow → Bool) → Instant → List TurnRow → List TurnRow
cancel_where p now [] = []
cancel_where p now (t ∷ rest) =
    let more = cancel_where p now rest in
    (if p t then record t { cancel_requested_at = or_now t.cancel_requested_at now } else t) ∷ more

-- thread_id=?1 AND state IN (…) AND (?2 IS NULL OR id<>?2)
abbrev pub to_cancel : ℕ → Option ℕ → TurnRow → Bool
to_cancel thread keep t = t.thread_id == thread && (is_open t && not (opt_beq keep (some t.id)))

abbrev pub turn_ids : List TurnRow → List ℕ
turn_ids [] = []
turn_ids (t ∷ rest) = t.id ∷ turn_ids rest

abbrev pub first_only_of : Bool → List ℕ → List ℕ
first_only_of true (x ∷ xs) = x ∷ []
first_only_of _ xs = xs

-- The chosen turns: those that run come first.
unfoldable pub cancel_ids : Db → ℕ → Bool → Option ℕ → List ℕ
unfolding is_terminal
cancel_ids db thread first_only keep =
    let open_turns = retain (to_cancel thread keep) db.thread_turns in
    first_only_of first_only (
      turn_ids (retain (λ t. is_running t.state) open_turns)
      ++ turn_ids (retain (λ t. not (is_running t.state)) open_turns))

unfoldable pub request_cancel : Db → ℕ → Bool → Option ℕ → Instant → Db × List ℕ
unfolding cancel_ids
request_cancel db thread first_only keep now =
    let chosen = cancel_ids db thread first_only keep in
    (
      record db { thread_turns = cancel_where (λ t. contains chosen t.id) now db.thread_turns },
      chosen,
    )

unfoldable pub request_thread_cancellation : Db → String → ℕ → Instant → Result Db
unfolding validate_history
request_thread_cancellation db history thread now =
    validate_history db history
    >> ok (record db {
      thread_turns =
          cancel_where (λ t. t.thread_id == thread && is_running t.state) now db.thread_turns;
    })
