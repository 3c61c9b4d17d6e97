-- ===== src/Client/Sending.antt =====
-- What a flush of the client puts on the wire
-- (`flush_pending` of crates/hirsel-client-core/src/transport.rs).
use hirsel.Base.{
  ℕ, suc, String, ◌≡◌, refl, sym, append_nil, append_assoc, ◌∙◌, ap, true, false, Bool, List, [],
  ◌∷◌, ◌++◌, arith, if◌then◌else◌, contains, string_eq, str_eq_iff, length,
}
use hirsel.Proto.{ClientToHost}
use hirsel.Client.Store.{pending_sends}
use hirsel.Client.Inner.{ClientInner}
use hirsel.Client.Flush.{
  Addressed, create_frames, send_frames, send_queue, send_addressed, flush_addressed, flush_pending,
  after_queue,
}

-- The channel takes every frame.
abbrev pub TakesAll : (ℕ → Bool) → Type 0
TakesAll accepts = (n : ℕ) → accepts n ≡ true

send_queue-takes :
    (accepts : ℕ → Bool) (k : ℕ) (frames : List ClientToHost)
    → TakesAll accepts
    → send_queue accepts k frames ≡ (frames, [])
unfolding send_queue
send_queue-takes accepts k [] all = refl
send_queue-takes accepts k (f ∷ rest) all =
    rw (all k) (rw (send_queue-takes accepts (suc k) rest all) refl)

send_queue-split :
    (accepts : ℕ → Bool) (k : ℕ) (frames : List ClientToHost)
    → let (taken, left) = send_queue accepts k frames in taken ++ left ≡ frames
unfolding send_queue
send_queue-split accepts k [] = refl
send_queue-split accepts k (f ∷ rest) = ground (arith, send_queue-split accepts (suc k) rest)

-- What is sent, in which order, once every frame is taken.
abbrev pub unsent : List String → List Addressed → List ClientToHost
unsent sent [] = []
unsent sent ((c, f) ∷ rest) =
    let later = unsent (c ∷ sent) rest in if contains sent c then unsent sent rest else f ∷ later

-- Every identifier of the frames is in the list.
abbrev pub all_in : List String → List Addressed → Bool
all_in sent [] = true
all_in sent ((c, f) ∷ rest) = if contains sent c then all_in sent rest else false

-- What the list holds, it still holds later.
abbrev Grows : List String → List String → Type 0
Grows a b = (c : String) → contains a c ≡ true → contains b c ≡ true

send_addressed-Grows :
    (accepts : ℕ → Bool) (k : ℕ) (sent : List String) (frames : List Addressed)
    → Grows sent (send_addressed accepts k sent frames).0
unfolding send_addressed
send_addressed-Grows accepts k sent [] c h = h
send_addressed-Grows accepts k sent ((d, f) ∷ rest) c h = ground (
  arith,
  send_addressed-Grows accepts k sent rest c,
  send_addressed-Grows accepts (suc k) (d ∷ sent) rest c,
)

contains_self : (c : String) (sent : List String) → contains (c ∷ sent) c ≡ true
contains_self c sent = ground (arith, str_eq_iff c c)

send_addressed-all :
    (accepts : ℕ → Bool) (k : ℕ) (sent : List String) (frames : List Addressed)
    → (send_addressed accepts k sent frames).2 ≡ true
    → all_in (send_addressed accepts k sent frames).0 frames ≡ true
unfolding send_addressed
send_addressed-all accepts k sent [] h = refl
send_addressed-all accepts k sent ((d, f) ∷ rest) h = ground (
  arith,
  send_addressed-all accepts k sent rest,
  send_addressed-all accepts (suc k) (d ∷ sent) rest,
  send_addressed-Grows accepts k sent rest d,
  send_addressed-Grows accepts (suc k) (d ∷ sent) rest d,
  contains_self d sent,
)

send_addressed-known :
    (accepts : ℕ → Bool) (k : ℕ) (sent : List String) (frames : List Addressed)
    → all_in sent frames ≡ true
    → send_addressed accepts k sent frames ≡ (sent, [], true)
unfolding send_addressed
send_addressed-known accepts k sent [] h = refl
send_addressed-known accepts k sent ((d, f) ∷ rest) h =
    ground (arith, send_addressed-known accepts k sent rest)

send_addressed-takes :
    (accepts : ℕ → Bool) (k : ℕ) (sent : List String) (frames : List Addressed)
    → TakesAll accepts
    → (send_addressed accepts k sent frames).2 ≡ true
unfolding send_addressed
send_addressed-takes accepts k sent [] all = refl
send_addressed-takes accepts k sent ((d, f) ∷ rest) all = ground (
  arith,
  all k,
  send_addressed-takes accepts k sent rest all,
  send_addressed-takes accepts (suc k) (d ∷ sent) rest all,
)

send_addressed-wire :
    (accepts : ℕ → Bool) (k : ℕ) (sent : List String) (frames : List Addressed)
    → (send_addressed accepts k sent frames).2 ≡ true
    → (send_addressed accepts k sent frames).1 ≡ unsent sent frames
unfolding send_addressed
send_addressed-wire accepts k sent [] h = refl
send_addressed-wire accepts k sent ((d, f) ∷ rest) h = ground (
  arith,
  send_addressed-wire accepts k sent rest,
  send_addressed-wire accepts (suc k) (d ∷ sent) rest,
)

-- The addressed frames of a client: its creates, then its sends.
abbrev pub addressed : ClientInner → List Addressed
addressed c = create_frames c.store.pending_ops ++ send_frames (pending_sends c.store.messages)

flush_pending-split :
    (c : ClientInner) (sent : List String) (accepts : ℕ → Bool) (late : List ClientToHost)
    → let q = send_queue accepts 0 c.pending_frames in
      flush_pending c sent accepts late ≡ after_queue c sent accepts late q.0 q.1
unfolding flush_pending
flush_pending-split c sent accepts late = refl

after_queue-keeps :
    (c : ClientInner) (sent : List String) (accepts : ℕ → Bool)
    (late taken left : List ClientToHost)
    → taken ++ left ≡ c.pending_frames
    → let f = after_queue c sent accepts late taken left in
      (rest : List ClientToHost) × (f.wire ≡ taken ++ rest)
      × (taken ++ f.client.pending_frames ≡ c.pending_frames ++ late)
unfolding after_queue flush_addressed
after_queue-keeps c sent accepts late taken [] h =
    (_, refl, ap (λ xs. xs ++ late) (sym (append_nil taken) ∙ h))
after_queue-keeps c sent accepts late taken (f ∷ unsent) h = (
  [],
  sym (append_nil taken),
  sym (append_assoc taken (f ∷ unsent) late) ∙ ap (λ xs. xs ++ late) h,
)

-- Whatever the channel refuses, no queued frame is lost: those on the wire and those still queued
-- are the ones of before, in their order, with the later ones behind.
pub flush_pending-keeps :
    (c : ClientInner) (sent : List String) (accepts : ℕ → Bool) (late : List ClientToHost)
    → let f = flush_pending c sent accepts late in
      (taken : List ClientToHost) × (rest : List ClientToHost) × (f.wire ≡ taken ++ rest)
      × (taken ++ f.client.pending_frames ≡ c.pending_frames ++ late)
flush_pending-keeps c sent accepts late =
    let q = send_queue accepts 0 c.pending_frames in
    let k =
      after_queue-keeps c sent accepts late q.0 q.1 (send_queue-split accepts 0 c.pending_frames) in
    rw (flush_pending-split c sent accepts late) (q.0, k.0, k.1, k.2)

after_queue-sends :
    (c : ClientInner) (sent : List String) (accepts : ℕ → Bool) (late taken : List ClientToHost)
    → TakesAll accepts
    → let f = after_queue c sent accepts late taken [] in
      (f.wire ≡ taken ++ unsent sent (addressed c))
      × (f.done ≡ true)
      × (all_in f.sent (addressed c) ≡ true)
unfolding after_queue flush_addressed
after_queue-sends c sent accepts late taken all =
    let k = length taken in
    let done = send_addressed-takes accepts k sent (addressed c) all in
    (
      ap (λ xs. taken ++ xs) (send_addressed-wire accepts k sent (addressed c) done),
      done,
      send_addressed-all accepts k sent (addressed c) done,
    )

-- A flush that the channel takes whole sends the queue and then each create and each send that this
-- connection has not sent yet, once, and notes all their identifiers.
pub flush_pending-sends :
    (c : ClientInner) (sent : List String) (accepts : ℕ → Bool) (late : List ClientToHost)
    → TakesAll accepts
    → let f = flush_pending c sent accepts late in
      (f.wire ≡ c.pending_frames ++ unsent sent (addressed c))
      × (f.done ≡ true)
      × (all_in f.sent (addressed c) ≡ true)
flush_pending-sends c sent accepts late all = rw (flush_pending-split c sent accepts late) (
    rw (send_queue-takes accepts 0 c.pending_frames all)
      (after_queue-sends c sent accepts late c.pending_frames all))

after_queue-done :
    (c : ClientInner) (sent : List String) (accepts : ℕ → Bool) (taken left : List ClientToHost)
    → let f = after_queue c sent accepts [] taken left in
      f.done ≡ true → (f.client.pending_frames ≡ []) × (all_in f.sent (addressed f.client) ≡ true)
unfolding after_queue flush_addressed
after_queue-done c sent accepts taken [] h =
    (refl, send_addressed-all accepts (length taken) sent (addressed c) h)
after_queue-done c sent accepts taken (f ∷ unsent) h = cc

-- A flush that ended well left no queue, and every addressed frame is known to the connection.
flush_pending-done :
    (c : ClientInner) (sent : List String) (accepts : ℕ → Bool)
    → let f = flush_pending c sent accepts [] in
      f.done ≡ true → (f.client.pending_frames ≡ []) × (all_in f.sent (addressed f.client) ≡ true)
flush_pending-done c sent accepts =
    let q = send_queue accepts 0 c.pending_frames in
    rw (flush_pending-split c sent accepts []) (after_queue-done c sent accepts q.0 q.1)

flush_known :
    (c : ClientInner) (sent : List String) (accepts : ℕ → Bool)
    → c.pending_frames ≡ []
    → all_in sent (addressed c) ≡ true
    → (flush_pending c sent accepts []).wire ≡ []
flush_known c sent accepts empty known = rw (flush_pending-split c sent accepts []) (
    rw empty (
      unfold send_queue in
      unfold after_queue in
      unfold flush_addressed in
      ap (λ r. r.1) (send_addressed-known accepts 0 sent (addressed c) known)))

-- On the same connection nothing is sent twice: after a flush that the channel took whole, and with
-- nothing queued meanwhile, another one sends nothing.
pub flush_pending-once :
    (c : ClientInner) (sent : List String) (accepts accepts' : ℕ → Bool)
    → let f = flush_pending c sent accepts [] in
      f.done ≡ true → (flush_pending f.client f.sent accepts' []).wire ≡ []
flush_pending-once c sent accepts accepts' h =
    let f = flush_pending c sent accepts [] in
    let (empty, known) = flush_pending-done c sent accepts h in
    let quiet = flush_known f.client f.sent accepts' in quiet empty known
