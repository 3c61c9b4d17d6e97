-- ===== src/Client/Progress/Store.antt =====
-- Each method of the store follows the two orders.
use hirsel.Base.{
  ℕ, String, ◌≤◌, ◌≡◌, refl, subst, true, false, Bool, some, inl, inr, List, [], ◌∷◌, arith, ◌==◌,
  leb, ==_iff, if◌then◌else◌, if_cases, Option-cases, Bool-cases, find-push, find-replace_ne,
  find-replace_self, nat_eq, lookup, sort_by_key, string_eq,
}
use hirsel.Proto.{
  Thread, ThreadTurn, ThreadActivity, ThreadDetail, ThreadRelatedItem, ThreadGrant, ChatMessage,
  is_terminal,
}
use hirsel.Client.Entry.{ThreadStream, PendingOp}
use hirsel.Client.Store.{
  LocalStore, apply_message, remove_message, upsert_thread, upsert_thread_in, upsert_turn,
  upsert_activity, with_stream, replace_related_items, replace_grants, note_opened, apply_messages,
  upsert_turns, upsert_activities, install_detail, apply_detail, is_open_of, sort_id,
}
use hirsel.Client.Progress.Defs.{
  SameKnown, Follows, SameKnown-Follows, Follows-trans, find_turn, find_thread,
}

pub apply_message-SameKnown : (s : LocalStore) (m : ChatMessage) → SameKnown s (apply_message s m)
unfolding apply_message
apply_message-SameKnown s m = elim (Option-cases m.client_id) [
  | inl e ↦ ground arith
  | inr (c, e) ↦ ground arith
]

pub upsert_activity-SameKnown :
    (s : LocalStore) (a : ThreadActivity) → SameKnown s (upsert_activity s a)
unfolding upsert_activity
upsert_activity-SameKnown s a = ground arith

pub with_stream-SameKnown :
    (s : LocalStore) (thread_id turn_id : ℕ) (f : ThreadStream → ThreadStream)
    → SameKnown s (with_stream s thread_id turn_id f)
unfolding with_stream
with_stream-SameKnown s thread_id turn_id f = ground arith

pub remove_message-Follows : (s : LocalStore) (id : ℕ) → Follows s (remove_message s id)
unfolding remove_message
remove_message-Follows s id = (
  record { removed = λ j h. ground arith; settled = λ j o h e. h; history = refl },
  record { at = λ j o h. (o, h, omega arith) },
)

-- The Threads after an upsert, for the Thread itself and for the others.
abbrev At : List Thread → ℕ → Thread → Type 0
At xs id o = (n : Thread) × (find_thread id xs ≡ some n) × (o.revision ≤ n.revision)

upsert_thread_in_self :
    (t : Thread) (xs : List Thread) (o : Thread)
    → find_thread t.id xs ≡ some o
    → At (upsert_thread_in t xs) t.id o
unfolding upsert_thread_in
upsert_thread_in_self t xs o h =
    rw (h, upsert_thread_in)
      (if_cases (λ ys. At ys t.id o) (leb o.revision t.revision)
        (λ le. (t, find-replace_self (λ (x : Thread). x.id) t xs o h, ground arith))
        (λ _. (o, h, omega arith)))

upsert_thread_in-other :
    (t : Thread) (xs : List Thread) (id : ℕ) (o : Thread)
    → (t.id == id) ≡ false
    → find_thread id xs ≡ some o
    → At (upsert_thread_in t xs) id o
unfolding upsert_thread_in
upsert_thread_in-other t xs id o ne h = elim (Option-cases (find_thread t.id xs)) [
  | inl e ↦ rw (e, upsert_thread_in) (o, find-push _ xs (t ∷ []) o h, omega arith)
  | inr (old, e) ↦
      rw (e, upsert_thread_in)
        (if_cases (λ ys. At ys id o) (leb old.revision t.revision)
          (λ _. (o, rw (find-replace_ne (λ (x : Thread). x.id) t id xs ne) h, omega arith))
          (λ _. (o, h, omega arith)))
]

upsert_thread_in-At :
    (t : Thread) (xs : List Thread) (id : ℕ) (o : Thread)
    → find_thread id xs ≡ some o
    → At (upsert_thread_in t xs) id o
upsert_thread_in-At t xs id o h = elim (Bool-cases (t.id == id)) [
  | inl e ↦
      let same = (==_iff t.id id).0 e in
      subst (λ k. At (upsert_thread_in t xs) k o) same (upsert_thread_in_self t xs o (rw same h))
  | inr e ↦ upsert_thread_in-other t xs id o e h
]

pub upsert_thread-Follows : (s : LocalStore) (t : Thread) → Follows s (upsert_thread s t)
unfolding upsert_thread
upsert_thread-Follows s t = (
  record { removed = λ j h. h; settled = λ j o h e. h; history = refl },
  record { at = upsert_thread_in-At t s.threads },
)

-- The turn that the frame is about, if it is known, and any other.
upsert_turn-settled_self :
    (s : LocalStore) (t o : ThreadTurn)
    → find_turn t.id s.turns ≡ some o
    → is_terminal o.state ≡ true
    → find_turn t.id (upsert_turn s t).turns ≡ some o
unfolding upsert_turn
upsert_turn-settled_self s t o h e = rw (h, upsert_turn) (rw e h)

upsert_turn-settled_other :
    (s : LocalStore) (t : ThreadTurn) (id : ℕ) (o : ThreadTurn)
    → (t.id == id) ≡ false
    → find_turn id s.turns ≡ some o
    → find_turn id (upsert_turn s t).turns ≡ some o
unfolding upsert_turn
upsert_turn-settled_other s t id o ne h = elim (Option-cases (find_turn t.id s.turns)) [
  | inl e ↦ rw (e, upsert_turn) (find-push _ s.turns (t ∷ []) o h)
  | inr (old, e) ↦
      rw (e, upsert_turn)
        (if_cases (λ (u : LocalStore). find_turn id u.turns ≡ some o) (is_terminal old.state)
          (λ _. h) (λ _. rw (find-replace_ne (λ (x : ThreadTurn). x.id) t id s.turns ne) h))
]

upsert_turn-settled :
    (s : LocalStore) (t : ThreadTurn) (id : ℕ) (o : ThreadTurn)
    → find_turn id s.turns ≡ some o
    → is_terminal o.state ≡ true
    → find_turn id (upsert_turn s t).turns ≡ some o
upsert_turn-settled s t id o h e = elim (Bool-cases (t.id == id)) [
  | inl q ↦
      let same = (==_iff t.id id).0 q in
      subst (λ k. find_turn k (upsert_turn s t).turns ≡ some o) same
        (upsert_turn-settled_self s t o (rw same h) e)
  | inr q ↦ upsert_turn-settled_other s t id o q h
]

upsert_turn_rest :
    (s : LocalStore) (t : ThreadTurn)
    → ((upsert_turn s t).removed_message_ids ≡ s.removed_message_ids)
      × ((upsert_turn s t).threads ≡ s.threads)
      × ((upsert_turn s t).history_id ≡ s.history_id)
unfolding upsert_turn
upsert_turn_rest s t = ground arith

pub upsert_turn-Follows : (s : LocalStore) (t : ThreadTurn) → Follows s (upsert_turn s t)
upsert_turn-Follows s t =
    let (removed, threads, history) = upsert_turn_rest s t in
    (
      record {
        removed = λ j h. rw removed h;
        settled = upsert_turn-settled s t;
        history = history;
      },
      record { at = λ j o h. (o, rw threads h, omega arith) },
    )

replace_related_items-SameKnown :
    (s : LocalStore) (thread_id revision : ℕ) (items : List ThreadRelatedItem)
    → SameKnown s (replace_related_items s thread_id revision items).0
unfolding replace_related_items
replace_related_items-SameKnown s thread_id revision items = ground arith

replace_grants-SameKnown :
    (s : LocalStore) (thread_id revision : ℕ) (grants : List ThreadGrant)
    → SameKnown s (replace_grants s thread_id revision grants).0
unfolding replace_grants
replace_grants-SameKnown s thread_id revision grants = ground arith

note_opened-SameKnown : (s : LocalStore) (d : ThreadDetail) → SameKnown s (note_opened s d)
unfolding note_opened
note_opened-SameKnown s d = ground arith

Follows-refl : (s : LocalStore) → Follows s s
Follows-refl s = SameKnown-Follows (ground arith)

apply_messages-Follows :
    (s : LocalStore) (thread_id : ℕ) (ms : List ChatMessage)
    → Follows s (apply_messages s thread_id ms)
unfolding apply_messages
apply_messages-Follows s thread_id [] = Follows-refl s
apply_messages-Follows s thread_id (m ∷ rest) =
    Follows-trans
      (if_cases (Follows s) (m.thread_id == thread_id)
        (λ _. SameKnown-Follows (apply_message-SameKnown s m)) (λ _. Follows-refl s))
      (apply_messages-Follows (if m.thread_id == thread_id then apply_message s m else s) thread_id
        rest)

upsert_turns-Follows :
    (s : LocalStore) (thread_id : ℕ) (ts : List ThreadTurn)
    → Follows s (upsert_turns s thread_id ts)
unfolding upsert_turns
upsert_turns-Follows s thread_id [] = Follows-refl s
upsert_turns-Follows s thread_id (t ∷ rest) =
    Follows-trans
      (if_cases (Follows s) (t.thread_id == thread_id) (λ _. upsert_turn-Follows s t)
        (λ _. Follows-refl s))
      (upsert_turns-Follows (if t.thread_id == thread_id then upsert_turn s t else s) thread_id
        rest)

upsert_activities-Follows :
    (s : LocalStore) (thread_id : ℕ) (xs : List ThreadActivity)
    → Follows s (upsert_activities s thread_id xs)
unfolding upsert_activities
upsert_activities-Follows s thread_id [] = Follows-refl s
upsert_activities-Follows s thread_id (a ∷ rest) =
    Follows-trans
      (if_cases (Follows s) (a.thread_id == thread_id)
        (λ _. SameKnown-Follows (upsert_activity-SameKnown s a)) (λ _. Follows-refl s))
      (upsert_activities-Follows (if a.thread_id == thread_id then upsert_activity s a else s)
        thread_id rest)

sort-Follows : (s : LocalStore) → Follows s (record s { messages = sort_by_key sort_id s.messages })
sort-Follows s = SameKnown-Follows (ground arith)

-- What `apply_detail` installs, one step after the other.
install_detail-Follows : (s : LocalStore) (d : ThreadDetail) → Follows s (install_detail s d)
unfolding install_detail
install_detail-Follows s d =
    let id = d.thread.id in
    let s1 = (replace_related_items s id d.thread.revision d.related_items).0 in
    let s2 = (replace_grants s1 id d.thread.revision d.grants).0 in
    let s3 = upsert_thread (note_opened s2 d) d.thread in
    let s4 = apply_messages s3 id d.messages in
    let s5 = upsert_activities (upsert_turns s4 id d.turns) id d.activities in
    Follows-trans
      (SameKnown-Follows (replace_related_items-SameKnown s id d.thread.revision d.related_items))
      (Follows-trans (SameKnown-Follows (replace_grants-SameKnown s1 id d.thread.revision d.grants))
        (Follows-trans (SameKnown-Follows (note_opened-SameKnown s2 d)) (
          Follows-trans (upsert_thread-Follows (note_opened s2 d) d.thread) (
            Follows-trans (apply_messages-Follows s3 id d.messages) (
              Follows-trans (upsert_turns-Follows s4 id d.turns) (
                Follows-trans
                  (upsert_activities-Follows (upsert_turns s4 id d.turns) id d.activities)
                  (sort-Follows s5)))))))

drop_op-Follows :
    (s : LocalStore) (ops : List (String × PendingOp)) → Follows s (record s { pending_ops = ops })
drop_op-Follows s ops = SameKnown-Follows (ground arith)

pub apply_detail-Follows :
    (s : LocalStore) (client_id : String) (d : ThreadDetail)
    → Follows s (apply_detail s client_id d).0
unfolding apply_detail
apply_detail-Follows s client_id d =
    if_cases (λ (r : LocalStore × Bool). Follows s r.0)
      (is_open_of (lookup client_id s.pending_ops) d.thread.id)
      (λ _. Follows-trans (drop_op-Follows s _) (install_detail-Follows _ d)) (λ _. Follows-refl s)
