-- ===== src/Host/Turns/Kept.antt =====
-- What the helpers of the turns leave as it is: a refresh of headlines touches the Threads only, a
-- capture the executions only, an activity or a request its own tables.
use hirsel.Base.{
  ℕ, zero, suc, String, ◌≡◌, refl, ap, ◌∙◌, subst, Bool, Option, none, some, List, [], ◌∷◌, ◌++◌,
  arith, str_eq, Bool-cases, inl, inr,
}
use hirsel.Proto.{Instant}
use hirsel.Host.Tables.{
  ThreadRow, ThreadExecution, RequestPayload, Db, Result, ok, and_then, row_of, find_thread_row,
}
use hirsel.Host.Granted.{and_then-ok}
use hirsel.Host.Turns.Texts.{TurnTexts}
use hirsel.Host.Turns.Headlines.{
  headline, replace, refresh_parent, climb_to, climb, refresh_from, note_changed,
}
use hirsel.Host.Turns.Rows.{insert_request}
use hirsel.Host.Turns.Execution.{capture, capture_selected, select_execution}

abbrev pub OnlyThreads : Db → Db → Type 0
OnlyThreads db d = d ≡ record db { threads = d.threads }

OnlyThreads-trans : (a b c : Db) → OnlyThreads a b → OnlyThreads b c → OnlyThreads a c
OnlyThreads-trans a b c p q = q ∙ ap (λ (d : Db). record d { threads = c.threads }) p

replace-OnlyThreads :
    (db : Db) (id : ℕ) (next : String) (now : Instant) (r : Db × Bool)
    → replace db id next now ≡ ok r
    → OnlyThreads db r.0
unfolding replace
replace-OnlyThreads db id next now (d, b) h = found (find_thread_row db id) refl
  where
    found : (o : Option ThreadRow) → find_thread_row db id ≡ o → OnlyThreads db d
    found none e = absurd (ground arith)
    found (some t) e = elim (Bool-cases (str_eq t.headline next)) [
      | inl q ↦ let same : db ≡ d = ground arith in subst (OnlyThreads db) same refl
      | inr q ↦ ground arith
    ]

module _ (texts : TurnTexts) where
  refresh_parent-OnlyThreads :
      (db : Db) (parent : ℕ) (now : Instant) (r : Db × Bool)
      → refresh_parent texts db parent now ≡ ok r
      → OnlyThreads db r.0
  unfolding refresh_parent
  refresh_parent-OnlyThreads db parent now r h =
      let (next, e, k) =
        and_then-ok (headline texts db parent) (λ next. replace db parent next now) r h in
      replace-OnlyThreads db parent next now r k

  climb_to-OnlyThreads :
      (rest : Db → ℕ → Result (Db × List ℕ)) (db : Db) (now : Instant) (o : Option ℕ)
      (r : Db × List ℕ)
      → ((d : Db) (p : ℕ) (r : Db × List ℕ) → rest d p ≡ ok r → OnlyThreads d r.0)
      → climb_to texts rest db now o ≡ ok r
      → OnlyThreads db r.0
  unfolding climb_to
  climb_to-OnlyThreads rest db now none r more h =
      let same : db ≡ r.0 = ground arith in subst (OnlyThreads db) same refl
  climb_to-OnlyThreads rest db now (some parent) r more h =
      let after : Db × Bool → Result (Db × List ℕ) =
        λ one. and_then (rest one.0 parent) (λ m. ok (m.0, note_changed parent one.1 m.1)) in
      let (one, e, k) = and_then-ok (refresh_parent texts db parent now) after r h in
      let (m, e', k') =
        and_then-ok (rest one.0 parent) (λ m. ok (m.0, note_changed parent one.1 m.1)) r k in
      let same : m.0 ≡ r.0 = ground arith in
      subst (OnlyThreads db) same (
        OnlyThreads-trans db one.0 m.0 (refresh_parent-OnlyThreads db parent now one e)
          (more one.0 parent m e'))

  climb-OnlyThreads :
      (fuel : ℕ) (db : Db) (current : ℕ) (now : Instant) (r : Db × List ℕ)
      → climb texts fuel db current now ≡ ok r
      → OnlyThreads db r.0
  unfolding climb
  climb-OnlyThreads zero db current now r h = cc
  climb-OnlyThreads (suc fuel) db current now r h =
      let rest : Db → ℕ → Result (Db × List ℕ) = λ d p. climb texts fuel d p now in
      let (t, e, k) =
        and_then-ok (row_of (find_thread_row db current))
          (λ t. climb_to texts rest db now t.parent_thread_id) r h in
      climb_to-OnlyThreads rest db now t.parent_thread_id r
        (λ d p s. climb-OnlyThreads fuel d p now s) k

  pub refresh_from-OnlyThreads :
      (db : Db) (id : ℕ) (now : Instant) (r : Db × List ℕ)
      → refresh_from texts db id now ≡ ok r
      → OnlyThreads db r.0
  unfolding refresh_from
  refresh_from-OnlyThreads db id now r h = climb-OnlyThreads (suc id) db id now r h

-- A capture writes what the turn runs on.
abbrev pub OnlyExecution : Db → Db → Type 0
OnlyExecution db d = d ≡ record db { thread_turn_execution = d.thread_turn_execution }

capture_selected-OnlyExecution :
    (db : Db) (turn : ℕ) (o : Option ThreadExecution) (d : Db)
    → capture_selected db turn o ≡ ok d
    → OnlyExecution db d
unfolding capture_selected
capture_selected-OnlyExecution db turn none d h =
    let same : db ≡ d = ground arith in subst (OnlyExecution db) same refl
capture_selected-OnlyExecution db turn (some e) d h = ground arith

pub capture-OnlyExecution :
    (db : Db) (thread turn : ℕ) (o : Option ThreadExecution) (d : Db)
    → capture db thread turn o ≡ ok d
    → OnlyExecution db d
unfolding capture
capture-OnlyExecution db thread turn o d h =
    capture_selected-OnlyExecution db turn (select_execution db thread o) d h

-- A request is one row more.
pub insert_request-row :
    (client_id : String) (payload : RequestPayload) (db d : Db)
    → insert_request client_id payload db ≡ ok d
    → d ≡ record db {
      thread_requests =
          db.thread_requests
          ++ record { id = suc db.last_request_id; client_id = client_id; payload = payload } ∷ [];
      last_request_id = suc db.last_request_id;
    }
unfolding insert_request
insert_request-row client_id payload db d h = ground arith
