-- ===== src/Client/WellFormed/Work.antt =====
-- Threads, turns, activities and streams keep the invariant.
use hirsel.Base.{
  ℕ, ◌≡◌, refl, false, ◌&&◌, Option, some, inl, inr, List, [], ◌∷◌, arith, ◌==◌, leb, if_cases,
  Option-cases, find, any, any-find, update_first, nat_eq, Distinct, Distinct-push,
  Distinct-update_first, taken, ==_iff,
}
use hirsel.Proto.{Thread, ThreadTurn, ThreadActivity, TurnEventKind, is_terminal}
use hirsel.Client.Entry.{ThreadStream, new_stream}
use hirsel.Client.Store.{
  LocalStore, upsert_thread, upsert_thread_in, upsert_activity, upsert_turn, mark_stream, on_stream,
  stream_in, with_stream, push_event, apply_delta,
}
use hirsel.Client.WellFormed.Defs.{IsWellFormed}

abbrev thread_key : Thread → Option ℕ
thread_key t = some t.id

abbrev turn_key : ThreadTurn → Option ℕ
turn_key t = some t.id

abbrev stream_key : ThreadStream → Option ℕ
stream_key v = some v.thread_id

-- An entry with the identifier takes the old one's place.
replace-Distinct {ℓ} :
    {A : Type ℓ} (id : A → ℕ) (y : A) (xs : List A)
    → Distinct (λ x. some (id x)) xs
    → Distinct (λ x. some (id x)) (update_first (λ o. id o == id y) (λ _. y) xs)
replace-Distinct id y xs d =
    Distinct-update_first (λ x. some (id x)) (λ o. id o == id y) (λ _. y)
      (λ x h. ground (arith, ==_iff (id x) (id y))) xs d

upsert_thread_in-Distinct :
    (t : Thread) (xs : List Thread)
    → Distinct thread_key xs
    → Distinct thread_key (upsert_thread_in t xs)
unfolding upsert_thread_in
upsert_thread_in-Distinct t xs d = elim (Option-cases (find (λ o. o.id == t.id) xs)) [
  | inl e ↦
      rw (e, upsert_thread_in) (Distinct-push thread_key xs t d (any-find (λ o. o.id == t.id) xs e))
  | inr (old, e) ↦
      rw (e, upsert_thread_in)
        (if_cases (Distinct thread_key) (leb old.revision t.revision)
          (λ _. replace-Distinct (λ (o : Thread). o.id) t xs d) (λ _. d))
]

pub upsert_thread-IsWellFormed :
    (s : LocalStore) (t : Thread) → IsWellFormed s → IsWellFormed (upsert_thread s t)
unfolding upsert_thread
upsert_thread-IsWellFormed s t w = record {
  messages = w.messages;
  removed = w.removed;
  threads = upsert_thread_in-Distinct t s.threads w.threads;
  turns = w.turns;
  activities = w.activities;
  streams = w.streams;
}

pub upsert_activity-IsWellFormed :
    (s : LocalStore) (a : ThreadActivity) → IsWellFormed s → IsWellFormed (upsert_activity s a)
unfolding upsert_activity
upsert_activity-IsWellFormed s a w =
    if_cases IsWellFormed (any (λ o. o.id == a.id) s.activities) (λ _. w)
      (λ new. record {
        messages = w.messages;
        removed = w.removed;
        threads = w.threads;
        turns = w.turns;
        activities =
            Distinct-push (λ (o : ThreadActivity). some o.id) s.activities a w.activities new;
        streams = w.streams;
      })

mark_stream-Distinct :
    (t : ThreadTurn) (xs : List ThreadStream)
    → Distinct stream_key xs
    → Distinct stream_key (mark_stream t xs)
unfolding mark_stream
mark_stream-Distinct t xs d = Distinct-update_first stream_key _ _ (λ x h. refl) xs d

-- The turns and streams that `upsert_turn` leaves.
work-IsWellFormed :
    (s : LocalStore) (turns : List ThreadTurn) (streams : List ThreadStream)
    → Distinct turn_key turns
    → Distinct stream_key streams
    → IsWellFormed s
    → IsWellFormed (record s { turns = turns; streams = streams })
work-IsWellFormed s turns streams dt ds w = record {
  messages = w.messages;
  removed = w.removed;
  threads = w.threads;
  turns = dt;
  activities = w.activities;
  streams = ds;
}

pub upsert_turn-IsWellFormed :
    (s : LocalStore) (t : ThreadTurn) → IsWellFormed s → IsWellFormed (upsert_turn s t)
unfolding upsert_turn
upsert_turn-IsWellFormed s t w = elim (Option-cases (find (λ o. o.id == t.id) s.turns)) [
  | inl e ↦
      rw (e, upsert_turn)
        (work-IsWellFormed s _ _
          (Distinct-push turn_key s.turns t w.turns (any-find (λ o. o.id == t.id) s.turns e))
          (mark_stream-Distinct t s.streams w.streams) w)
  | inr (old, e) ↦
      rw (e, upsert_turn)
        (if_cases IsWellFormed (is_terminal old.state) (λ _. w)
          (λ _.
            work-IsWellFormed s _ _ (replace-Distinct (λ (o : ThreadTurn). o.id) t s.turns w.turns)
              (mark_stream-Distinct t s.streams w.streams) w))
]

-- A change of a stream that leaves it with its Thread.
module _ (f : ThreadStream → ThreadStream)
    (same : (v : ThreadStream) → (f v).thread_id ≡ v.thread_id) where
  on_stream-thread_id :
      (turn_id : ℕ) (v : ThreadStream) → (on_stream f turn_id v).thread_id ≡ v.thread_id
  unfolding on_stream
  on_stream-thread_id turn_id v = ground (arith, same v, same (new_stream v.thread_id turn_id))

  taken-stream_in :
      (k : ℕ) (thread_id turn_id : ℕ) (xs : List ThreadStream)
      → taken stream_key (some k) xs ≡ false
      → (thread_id == k) ≡ false
      → taken stream_key (some k) (stream_in f thread_id turn_id xs) ≡ false
  unfolding stream_in
  taken-stream_in k thread_id turn_id [] h e = ground (arith, same (new_stream thread_id turn_id))
  taken-stream_in k thread_id turn_id (v ∷ xs) h e =
      ground (arith, taken-stream_in k thread_id turn_id xs, on_stream-thread_id turn_id v)

  stream_in-Distinct :
      (thread_id turn_id : ℕ) (xs : List ThreadStream)
      → Distinct stream_key xs
      → Distinct stream_key (stream_in f thread_id turn_id xs)
  unfolding stream_in
  stream_in-Distinct thread_id turn_id [] d = (refl, tt)
  stream_in-Distinct thread_id turn_id (v ∷ xs) d =
      if_cases (Distinct stream_key) (v.thread_id == thread_id)
        (λ _. (rw (on_stream-thread_id turn_id v) d.0, d.1))
        (λ other. (
          taken-stream_in v.thread_id thread_id turn_id xs d.0 (ground arith),
          stream_in-Distinct thread_id turn_id xs d.1,
        ))

  pub with_stream-IsWellFormed :
      (s : LocalStore) (thread_id turn_id : ℕ)
      → IsWellFormed s
      → IsWellFormed (with_stream s thread_id turn_id f)
  unfolding with_stream
  with_stream-IsWellFormed s thread_id turn_id w =
      if_cases IsWellFormed (any (λ t. t.id == turn_id && is_terminal t.state) s.turns) (λ _. w)
        (λ _.
          work-IsWellFormed s _ _ w.turns (stream_in-Distinct thread_id turn_id s.streams w.streams)
            w)

push_event-thread_id :
    (seq : ℕ) (event : TurnEventKind) (v : ThreadStream)
    → (push_event seq event v).thread_id ≡ v.thread_id
unfolding push_event
push_event-thread_id seq event v = ground arith

pub apply_delta-IsWellFormed :
    (s : LocalStore) (thread_id turn_id seq : ℕ) (event : TurnEventKind)
    → IsWellFormed s
    → IsWellFormed (apply_delta s thread_id turn_id seq event)
unfolding apply_delta
apply_delta-IsWellFormed s thread_id turn_id seq event w =
    with_stream-IsWellFormed (push_event seq event) (push_event-thread_id seq event) s thread_id
      turn_id w
