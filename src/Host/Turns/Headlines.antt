-- ===== src/Host/Turns/Headlines.antt =====
-- crates/hirsel-host/src/thread_rollups.rs: the query of a parent's headline, and the loop that
-- refreshes the headlines up the ancestors.
use hirsel.Base.{
  ℕ, zero, suc, ◌+◌, String, Bool, true, false, not, ◌&&◌, ◌||◌, Option, none, some, List, [], ◌∷◌,
  ◌++◌, ◌==◌, str_eq, ltb, if◌then◌else◌, any, length, contains, nat_eq, retain, opt_beq,
}
use hirsel.Proto.{Instant, ThreadTurnState}
use hirsel.Host.Closure.{closure}
use hirsel.Host.Tables.{
  ThreadRow, TurnRow, Db, unfinished, Result, ok, err, ◌>>=◌, find_thread_row, row_of,
}
use hirsel.Host.Scope.{down_edges, max_id}
use hirsel.Host.Rollups.{
  ChildStatus, ChildFacts, Child, needs_owner, failed, running, queued, blocked, done, idle,
  status_of, aggregate, most_urgent,
}
use hirsel.Host.Turns.Texts.{TurnTexts, ◌+s+◌}
use hirsel.Host.Turns.Rows.{is_set, is_running, is_queued, update_row}

-- ChildStatus::label
unfoldable pub label : ChildStatus → String
label needs_owner = "needs you"
label failed = "failed"
label running = "running"
label queued = "queued"
label blocked = "blocked"
label done = "done"
label idle = "idle"

abbrev not_archived : ThreadRow → Bool
not_archived t = not (is_set t.archived_at)

abbrev pub new_headline : String → Instant → ThreadRow → ThreadRow
new_headline next now t = record t {
  previous_headline = some t.headline;
  headline = next;
  headline_revision = t.headline_revision + 1;
  updated_at = now;
  revision = t.revision + 1;
}

abbrev pub note_changed : ℕ → Bool → List ℕ → List ℕ
note_changed id true ids = id ∷ ids
note_changed id false ids = ids

unfoldable pub replace : Db → ℕ → String → Instant → Result (Db × Bool)
replace db id next now = row_of (find_thread_row db id) >>= λ t.
    if str_eq t.headline next
    then ok (db, false)
    else ok (record db { threads = update_row id (new_headline next now) db.threads }, true)

module _ (texts : TurnTexts) where
  -- `ORDER BY hirsel_utc_timestamp(finished_at) DESC, id DESC LIMIT 1`
  unfoldable pub later_finished : TurnRow → Option TurnRow → Option TurnRow
  later_finished a none = some a
  later_finished a (some b) = elim a.finished_at [
    | none ↦ some b
    | some x ↦ elim b.finished_at [
      | none ↦ some a
      | some y ↦
          if ltb (texts.timestamp x) (texts.timestamp y)
            || (texts.timestamp x == texts.timestamp y && ltb a.id b.id)
          then some b
          else some a
    ]
  ]

  unfoldable pub last_finished : ℕ → List TurnRow → Option TurnRow
  unfolding later_finished
  last_finished thread [] = none
  last_finished thread (a ∷ rest) =
      let best = last_finished thread rest in
      if a.thread_id == thread && is_set a.finished_at then later_finished a best else best

  abbrev state_of : Option TurnRow → Option ThreadTurnState
  state_of none = none
  state_of (some t) = some t.state

  -- The columns of the query's row for the Thread `t`.
  unfoldable pub facts_of : Db → ThreadRow → ChildFacts
  unfolding last_finished
  facts_of db t = record {
    attention = t.attention;
    is_settled = is_set t.settled_at;
    is_running = any (λ r. r.thread_id == t.id && is_running r.state) db.thread_turns;
    is_queued = any (λ r. r.thread_id == t.id && is_queued r.state) db.thread_turns;
    last_finished = state_of (last_finished t.id db.thread_turns);
  }

  -- `descendants` below one child, in the order of their ids
  unfoldable pub rows_under : Db → List ℕ → ℕ → List ThreadRow → List Child
  unfolding facts_of status_of
  rows_under db scope root [] = []
  rows_under db scope root (t ∷ rest) =
      let more = rows_under db scope root rest in
      if contains scope t.id then (root, status_of (facts_of db t)) ∷ more else more

  unfoldable pub descendants : Db → ℕ → List ThreadRow → List Child
  unfolding rows_under
  descendants db parent [] = []
  descendants db parent (t ∷ rest) =
      let active = retain not_archived db.threads in
      let more = descendants db parent rest in
      if opt_beq t.parent_thread_id (some parent) && not_archived t
      then rows_under db (closure (down_edges active) (t.id ∷ []) (max_id active)) t.id db.threads
        ++ more
      else more

  abbrev headline_text : List Child → Child → String
  headline_text children c =
      texts.decimal (length children)
      +s+ " "
      +s+ (if length children == 1 then "child" else "children")
      +s+ " · #"
      +s+ texts.decimal c.0
      +s+ " "
      +s+ label c.1

  unfoldable pub headline_or : Db → ℕ → List Child → Option Child → Result String
  headline_or db parent children none =
      row_of (find_thread_row db parent) >>= λ t. ok t.own_headline
  headline_or db parent children (some c) = ok (headline_text children c)

  unfoldable pub headline : Db → ℕ → Result String
  unfolding descendants headline_or
  headline db parent =
      let children = aggregate [] (descendants db parent db.threads) in
      headline_or db parent children (most_urgent children)

  -- One turn of the loop, for a Thread whose parent is `parent`.
  unfoldable pub refresh_parent : Db → ℕ → Instant → Result (Db × Bool)
  unfolding headline replace
  refresh_parent db parent now = headline db parent >>= λ next. replace db parent next now

  -- The body of the loop; `rest` are its further turns.
  unfoldable pub climb_to :
      (Db → ℕ → Result (Db × List ℕ)) → Db → Instant → Option ℕ → Result (Db × List ℕ)
  unfolding refresh_parent
  climb_to rest db now none = ok (db, [])
  climb_to rest db now (some parent) = refresh_parent db parent now >>= λ one.
      rest one.0 parent >>= λ more. ok (more.0, note_changed parent one.1 more.1)

  -- `while let Some(parent)`; the list is that of the parents whose headline changed.
  unfoldable pub climb : ℕ → Db → ℕ → Instant → Result (Db × List ℕ)
  unfolding climb_to
  climb zero db current now = err unfinished
  climb (suc fuel) db current now = row_of (find_thread_row db current) >>= λ t.
      climb_to (λ d parent. climb fuel d parent now) db now t.parent_thread_id

  -- A parent's id is smaller than its child's, so that many turns are enough.
  unfoldable pub refresh_from : Db → ℕ → Instant → Result (Db × List ℕ)
  unfolding climb
  refresh_from db changed_id now = climb (suc changed_id) db changed_id now

  unfoldable pub refresh_self_and_ancestors : Db → ℕ → Instant → Result (Db × List ℕ)
  unfolding refresh_parent refresh_from
  refresh_self_and_ancestors db id now = refresh_parent db id now >>= λ one.
      refresh_from one.0 id now >>= λ rest. ok (rest.0, note_changed id one.1 rest.1)
