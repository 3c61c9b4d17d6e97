-- ===== src/Client/Streams.antt =====
-- Live streams of turn events: the events of a turn are shown once, in order
-- (crates/hirsel-client-core/src/store.rs, `stream` and `apply_delta`).
use hirsel.Base.{ℕ, ◌≤◌, ◌≡◌, ◌∙◌, ap, List, [], ◌∷◌, arith, ==_iff}
use hirsel.Proto.{TurnEventKind}
use hirsel.Client.Entry.{ThreadStream, new_stream}
use hirsel.Client.Store.{LocalStore, on_stream, stream_in, with_stream, push_event, apply_delta}

on_stream_late :
    (turn_id seq seq' : ℕ) (e e' : TurnEventKind) (v : ThreadStream)
    → seq' ≤ seq
    → let w = on_stream (push_event seq e) turn_id v in on_stream (push_event seq' e') turn_id w ≡ w
unfolding on_stream push_event
on_stream_late turn_id seq seq' e e' v l = ground arith

on_stream-thread :
    (turn_id seq : ℕ) (e : TurnEventKind) (v : ThreadStream)
    → (on_stream (push_event seq e) turn_id v).thread_id ≡ v.thread_id
unfolding on_stream push_event
on_stream-thread turn_id seq e v = ground arith

new_stream_late :
    (t u seq seq' : ℕ) (e e' : TurnEventKind)
    → seq' ≤ seq
    → let w = push_event seq e (new_stream t u) in on_stream (push_event seq' e') u w ≡ w
unfolding on_stream push_event
new_stream_late t u seq seq' e e' l = ground (arith, ==_iff u u)

push_event-thread :
    (seq : ℕ) (e : TurnEventKind) (v : ThreadStream) → (push_event seq e v).thread_id ≡ v.thread_id
unfolding push_event
push_event-thread seq e v = ground arith

stream_in-here :
    (f : ThreadStream → ThreadStream) (t u : ℕ) (v : ThreadStream) (vs : List ThreadStream)
    → v.thread_id ≡ t
    → stream_in f t u (v ∷ vs) ≡ on_stream f u v ∷ vs
unfolding stream_in
stream_in-here f t u v vs h = ground arith

stream_in_late :
    (thread_id turn_id seq seq' : ℕ) (e e' : TurnEventKind) (vs : List ThreadStream)
    → seq' ≤ seq
    → let ws = stream_in (push_event seq e) thread_id turn_id vs in
      stream_in (push_event seq' e') thread_id turn_id ws ≡ ws
unfolding stream_in
stream_in_late t u seq seq' e e' [] l =
    let w = push_event seq e (new_stream t u) in
    stream_in-here (push_event seq' e') t u w [] (push_event-thread seq e (new_stream t u))
    ∙ ap (λ x. x ∷ []) (new_stream_late t u seq seq' e e' l)
stream_in_late t u seq seq' e e' (v ∷ vs) l = ground (
  arith,
  on_stream_late u seq seq' e e' v l,
  on_stream-thread u seq e v,
  stream_in_late t u seq seq' e e' vs l,
)

-- An event that is not later than one already received for its turn changes nothing, neither a
-- repetition nor an event that was overtaken.
pub apply_delta_late :
    (s : LocalStore) (thread_id turn_id seq seq' : ℕ) (e e' : TurnEventKind)
    → seq' ≤ seq
    → let t = apply_delta s thread_id turn_id seq e in apply_delta t thread_id turn_id seq' e' ≡ t
unfolding apply_delta with_stream
apply_delta_late s thread_id turn_id seq seq' e e' l =
    ground (arith, stream_in_late thread_id turn_id seq seq' e e' s.streams l)
