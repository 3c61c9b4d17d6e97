-- ===== src/Client/Store/Work.antt =====
-- store.rs: Threads, turns, activities, live streams and processes.
use hirsel.Base.{
  ℕ, false, ◌&&◌, none, some, List, [], ◌∷◌, ◌++◌, ltb, leb, ◌==◌, str_eq, if◌then◌else◌, any, find,
  update_first,
}
use hirsel.Proto.{Thread, ThreadTurn, ThreadActivity, ProcessInfo, TurnEventKind, is_terminal}
use hirsel.Client.Entry.{ThreadStream, new_stream}
use hirsel.Client.Store.State.{LocalStore}

-- The `Vec<Thread>` of `upsert_thread`: an older revision never replaces a newer one.
unfoldable pub upsert_thread_in : Thread → List Thread → List Thread
upsert_thread_in t threads = elim (find (λ o. o.id == t.id) threads) [
  | none ↦ threads ++ t ∷ []
  | some existing ↦
      if leb existing.revision t.revision
      then update_first (λ o. o.id == t.id) (λ _. t) threads
      else threads
]

unfoldable pub upsert_thread : LocalStore → Thread → LocalStore
unfolding upsert_thread_in
upsert_thread s t = record s { threads = upsert_thread_in t s.threads }

unfoldable pub upsert_activity : LocalStore → ThreadActivity → LocalStore
upsert_activity s a =
    if any (λ o. o.id == a.id) s.activities
    then s
    else record s { activities = s.activities ++ a ∷ [] }

-- The end of `upsert_turn`: the turn's stream follows its state.
unfoldable pub mark_stream : ThreadTurn → List ThreadStream → List ThreadStream
mark_stream t =
    update_first (λ v. v.thread_id == t.thread_id && v.turn_id == t.id)
      (λ v. record v { finished = is_terminal t.state })

unfoldable pub upsert_turn : LocalStore → ThreadTurn → LocalStore
unfolding mark_stream
upsert_turn s t = elim (find (λ o. o.id == t.id) s.turns) [
  | none ↦ record s { turns = s.turns ++ t ∷ []; streams = mark_stream t s.streams }
  | some old ↦ if is_terminal old.state then s else record s {
    turns = update_first (λ o. o.id == t.id) (λ _. t) s.turns;
    streams = mark_stream t s.streams;
  }
]

-- What `stream` hands out a reference to, after `f` has been applied to it. A stream of a later
-- turn, or a finished one, is not handed out; one of an earlier turn starts anew.
unfoldable pub on_stream : (ThreadStream → ThreadStream) → ℕ → ThreadStream → ThreadStream
on_stream f turn_id v =
    let current = if ltb v.turn_id turn_id then new_stream v.thread_id turn_id else v in
    if ltb turn_id v.turn_id then v else if current.finished then current else f current

unfoldable pub stream_in :
    (ThreadStream → ThreadStream) → ℕ → ℕ → List ThreadStream → List ThreadStream
unfolding on_stream
stream_in f thread_id turn_id [] = f (new_stream thread_id turn_id) ∷ []
stream_in f thread_id turn_id (v ∷ rest) =
    let later = v ∷ stream_in f thread_id turn_id rest in
    if v.thread_id == thread_id then on_stream f turn_id v ∷ rest else later

-- `if let Some(stream) = store.stream(thread_id, turn_id) { f(stream) }`
unfoldable pub with_stream : LocalStore → ℕ → ℕ → (ThreadStream → ThreadStream) → LocalStore
unfolding stream_in
with_stream s thread_id turn_id f =
    if any (λ t. t.id == turn_id && is_terminal t.state) s.turns
    then s
    else record s { streams = stream_in f thread_id turn_id s.streams }

-- The body of `apply_delta` on the stream.
unfoldable pub push_event : ℕ → TurnEventKind → ThreadStream → ThreadStream
push_event seq event v =
    if elim v.last_seq [ none ↦ false | some last ↦ leb seq last ]
    then v
    else record v { last_seq = some seq; events = v.events ++ event ∷ [] }

unfoldable pub apply_delta : LocalStore → ℕ → ℕ → ℕ → TurnEventKind → LocalStore
unfolding with_stream push_event
apply_delta s thread_id turn_id seq event = with_stream s thread_id turn_id (push_event seq event)

unfoldable pub upsert_process : LocalStore → ProcessInfo → LocalStore
upsert_process s p =
    if any (λ o. str_eq o.id p.id) s.processes
    then record s { processes = update_first (λ o. str_eq o.id p.id) (λ _. p) s.processes }
    else record s { processes = s.processes ++ p ∷ [] }
