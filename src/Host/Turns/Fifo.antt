-- ===== src/Host/Turns/Fifo.antt =====
-- The durable requests of a Thread are a first-in first-out queue
-- (crates/hirsel-host/src/storage/thread_requests.rs; lash_runtime/thread_queue.rs takes the first).
use hirsel.Base.{
  ℕ, suc, String, ◌≡◌, refl, ap, ◌∙◌, Bool, not, ◌&&◌, Option, none, some, List, [], ◌∷◌, ◌++◌,
  arith, ◌==◌, str_eq, if◌then◌else◌, find, retain,
}
use hirsel.Proto.{Instant}
use hirsel.Host.Tables.{RequestPayload, RequestRow, Db, ok, find_thread_row}
use hirsel.Host.Turns.Texts.{TurnTexts}
use hirsel.Host.Turns.Rows.{insert_request}
use hirsel.Host.Turns.Requests.{
  admitted, pending_thread_requests, next_request, remove_thread_request,
}
use hirsel.Host.Turns.Kept.{insert_request-row}

abbrev pub first : {A : Type 0} → List A → Option A
first [] = none
first (x ∷ xs) = some x

find-first : {A : Type 0} (p : A → Bool) (xs : List A) → find p xs ≡ first (retain p xs)
find-first p [] = refl
find-first p (x ∷ xs) = ground (arith, find-first p xs)

retain-append :
    {A : Type 0} (p : A → Bool) (xs ys : List A) → retain p (xs ++ ys) ≡ retain p xs ++ retain p ys
retain-append p [] ys = refl
retain-append p (x ∷ xs) ys = ground (arith, retain-append p xs ys)

retain_comm :
    {A : Type 0} (p q : A → Bool) (xs : List A) → retain p (retain q xs) ≡ retain q (retain p xs)
retain_comm p q [] = refl
retain_comm p q (x ∷ xs) = ground (arith, retain_comm p q xs)

module _ (texts : TurnTexts) (thread : ℕ) (now : Instant) where
  -- The requests of the Thread that may be admitted now, oldest first
  unfoldable pub waiting : Db → List RequestRow
  unfolding pending_thread_requests
  waiting db = retain (λ r. r.payload.thread_id == thread) (pending_thread_requests texts db now)

  abbrev pub is_waiting : Db → RequestRow → Bool
  is_waiting db r =
      admitted texts now r (find_thread_row db r.payload.thread_id) && r.payload.thread_id == thread

  -- The queue after one more row
  waiting-push :
      (db : Db) (row : RequestRow)
      → waiting (record db {
        thread_requests = db.thread_requests ++ row ∷ [];
        last_request_id = suc db.last_request_id;
      })
        ≡ waiting db ++ (if is_waiting db row then row ∷ [] else [])
  unfolding waiting
  waiting-push db row =
      let may : RequestRow → Bool =
        λ r. admitted texts now r (find_thread_row db r.payload.thread_id) in
      let mine : RequestRow → Bool = λ r. r.payload.thread_id == thread in
      ap (retain mine) (retain-append may db.thread_requests (row ∷ []))
      ∙ retain-append mine (retain may db.thread_requests) (retain may (row ∷ []))
      ∙ ap (λ x. retain mine (retain may db.thread_requests) ++ x) (ground arith)

  -- For each Thread the requests that wait are a queue: a lane is handed the first of them, a request
  -- that is accepted goes behind all that wait (or waits for later, if its Thread does not admit it
  -- now), and a removal takes out the request of that client id and leaves the order of the others.
  pub requests-Fifo :
      (db d : Db) (client_id removed : String) (payload : RequestPayload)
      → insert_request client_id payload db ≡ ok d
      → let row : RequestRow = record {
        id = suc db.last_request_id;
        client_id = client_id;
        payload = payload;
      } in
        (next_request texts db thread now ≡ first (waiting db))
        × (waiting d ≡ waiting db ++ (if is_waiting db row then row ∷ [] else []))
        × (waiting (remove_thread_request db removed).0
            ≡ retain (λ r. not (str_eq r.client_id removed)) (waiting db))
  unfolding next_request remove_thread_request
  requests-Fifo db d client_id removed payload h =
      let row : RequestRow = record {
        id = suc db.last_request_id;
        client_id = client_id;
        payload = payload;
      } in
      let may : RequestRow → Bool =
        λ r. admitted texts now r (find_thread_row db r.payload.thread_id) in
      let mine : RequestRow → Bool = λ r. r.payload.thread_id == thread in
      let other : RequestRow → Bool = λ r. not (str_eq r.client_id removed) in
      (
        unfold waiting in find-first mine (retain may db.thread_requests),
        ap waiting (insert_request-row client_id payload db d h) ∙ waiting-push db row,
        unfold waiting in
            ap (retain mine) (retain_comm may other db.thread_requests)
            ∙ retain_comm mine other (retain may db.thread_requests),
      )
