-- ===== src/Host/Threads/Grown.antt =====
-- The Threads that agents create, by crates/hirsel-host/src/storage/thread_mutations.rs and by
-- delegation (thread_delegation.rs), fit under their parents.
use hirsel.Base.{
  ℕ, String, ◌≡◌, refl, sym, ap, ◌∙◌, subst, Bool, false, not, ◌&&◌, Option, none, some, arith,
}
use hirsel.Proto.{Instant, Json}
use hirsel.Host.Tables.{
  ThreadRow, RequestPayload, DelegationRow, Db, Result, ok, and_then, ensure, failed, ◌>>◌,
}
use hirsel.Host.Granted.{and_then-ok}
use hirsel.Host.Scope.{ThreadRef, resolve}
use hirsel.Host.Turns.Texts.{TurnTexts, is_empty_text}
use hirsel.Host.Turns.Rows.{get_thread, insert_turn, insert_request}
use hirsel.Host.Turns.Execution.{capture}
use hirsel.Host.Turns.Reports.{queued_turn, enqueue}
use hirsel.Host.Turns.Headlines.{refresh_from}
use hirsel.Host.Turns.Callers.{ThreadCaller}
use hirsel.Host.Turns.Kept.{capture-OnlyExecution, insert_request-row}
use hirsel.Host.Turns.Delegation.{
  Delegation, DelegatedTurn, child_row, choose_child, delegation_request, prefer, note_delegation,
  delegated_before, delegate_new, delegate_found, delegate_thread, find_delegation,
}
use hirsel.Host.Turns.Climb.{refresh_from-SameShape}
use hirsel.Host.Threads.Rules.{ThreadTexts}
use hirsel.Host.Threads.Create.{NewThread, new_thread, insert_thread}
use hirsel.Host.Threads.Agent.{creation_key, agent_thread, create_scoped}
use hirsel.Host.Threads.Kinds.{KindsFit, SameKinds-KindsFit, SameShape-SameKinds}
use hirsel.Host.Threads.Writes.{same_fit}
use hirsel.Host.Threads.Refreshed.{insert-KindsFit}

same_threads : (db d : Db) → db.threads ≡ d.threads → KindsFit db.threads → KindsFit d.threads
same_threads db d e w = subst KindsFit e w

-- Queued work touches no Thread.
enqueue-threads :
    (db : Db) (thread : ℕ) (client_id body : String) (requester requester_turn : Option ℕ)
    (triggered : Bool) (now : Instant) (r : Db × ℕ)
    → enqueue db thread client_id body requester requester_turn triggered now ≡ ok r
    → db.threads ≡ r.0.threads
unfolding enqueue insert_turn
enqueue-threads db thread client_id body requester requester_turn triggered now r h =
    let asked : ℕ → Db → RequestPayload = λ turn d. record {
      history_id = some d.history_id;
      thread_id = thread;
      turn_id = some turn;
      body = body;
      report_triggered = triggered;
    } in
    let posted : ℕ → Db → Result (Db × ℕ) =
      λ turn d. and_then (insert_request client_id (asked turn d) d) (λ d'. ok (d', turn)) in
    let captured : Db × ℕ → Result (Db × ℕ) =
      λ one. and_then (capture one.0 thread one.1 none) (posted one.1) in
    let (one, e, k) =
      and_then-ok (insert_turn (queued_turn thread requester requester_turn now) db) captured r h in
    let (d, e1, k1) = and_then-ok (capture one.0 thread one.1 none) (posted one.1) r k in
    let (d', e2, k2) =
      and_then-ok (insert_request client_id (asked one.1 d) d) (λ d'. ok (d', one.1)) r k1 in
    let first : db.threads ≡ one.0.threads = ground arith in
    let last : d'.threads ≡ r.0.threads = ground arith in
    first
    ∙ sym (ap (λ (x : Db). x.threads) (capture-OnlyExecution one.0 thread one.1 none d e1))
    ∙ sym (ap (λ (x : Db). x.threads) (insert_request-row client_id (asked one.1 d) d d' e2))
    ∙ last

module _ (texts : TurnTexts) where
  choose_child-KindsFit :
      (db : Db) (caller : ThreadCaller) (assignment : Delegation) (now : Instant) (r : Db × ℕ)
      → choose_child texts db caller assignment now ≡ ok r
      → KindsFit db.threads
      → KindsFit r.0.threads
  unfolding choose_child
  choose_child-KindsFit db caller assignment now r h w = chosen assignment.child_thread_id refl
    where
      chosen : (o : Option ℕ) → assignment.child_thread_id ≡ o → KindsFit r.0.threads
      chosen none e =
          let child = child_row caller.thread_id (texts.trim assignment.title) now in
          insert-KindsFit db child r (ground (arith, e)) w
      chosen (some id) e = let same : db ≡ r.0 = ground (arith, e) in same_fit db r.0 same w

  delegate_new-KindsFit :
      (db : Db) (caller : ThreadCaller) (operation : String) (assignment : Delegation)
      (payload : Json) (now : Instant) (r : Db × DelegatedTurn)
      → delegate_new texts db caller operation assignment payload now ≡ ok r
      → KindsFit db.threads
      → KindsFit r.0.threads
  unfolding delegate_new note_delegation
  delegate_new-KindsFit db caller operation assignment payload now r h w =
      let prepared : Db × ℕ → Db = λ c. record c.0 {
        thread_execution_preferences =
            prefer c.1 assignment.execution c.0.thread_execution_preferences;
      } in
      let queue : Db × ℕ → Result (Db × ℕ) = λ c.
        enqueue (prepared c) c.1 (delegation_request texts caller operation) assignment.brief
          (some caller.thread_id) (some caller.turn_id) false now in
      let fin : Db × ℕ → Db × ℕ → Result (Db × DelegatedTurn) = λ c q. ok (
        note_delegation q.0 caller operation payload assignment c.1 q.1 now,
        record { thread_id = c.1; turn_id = q.1 },
      ) in
      let (c, e, h1) =
        and_then-ok (choose_child texts db caller assignment now) (λ c. and_then (queue c) (fin c))
          r h in
      let (q, e1, h2) = and_then-ok (queue c) (fin c) r h1 in
      let last : q.0.threads ≡ r.0.threads = ground arith in
      same_threads c.0 r.0
        (enqueue-threads (prepared c) c.1 (delegation_request texts caller operation)
            assignment.brief (some caller.thread_id) (some caller.turn_id) false now q e1
          ∙ last)
        (choose_child-KindsFit db caller assignment now c e w)

  delegate_found-KindsFit :
      (db : Db) (caller : ThreadCaller) (operation : String) (assignment : Delegation)
      (payload : Json) (now : Instant) (o : Option DelegationRow) (r : Db × DelegatedTurn)
      → delegate_found texts db caller operation assignment payload now o ≡ ok r
      → KindsFit db.threads
      → KindsFit r.0.threads
  unfolding delegate_found
  delegate_found-KindsFit db caller operation assignment payload now (some row) r h w =
      let (t, _, k) = and_then-ok (delegated_before row payload) (λ t. ok (db, t)) r h in
      let same : db ≡ r.0 = ground arith in same_fit db r.0 same w
  delegate_found-KindsFit db caller operation assignment payload now none r h w =
      delegate_new-KindsFit db caller operation assignment payload now r h w

  pub delegate_thread-KindsFit :
      (db : Db) (caller : ThreadCaller) (operation : String) (assignment : Delegation)
      (payload : Json) (now : Instant) (r : Db × DelegatedTurn)
      → delegate_thread texts db caller operation assignment payload now ≡ ok r
      → KindsFit db.threads
      → KindsFit r.0.threads
  unfolding delegate_thread
  delegate_thread-KindsFit db caller operation assignment payload now r h w =
      let found = find_delegation db caller.turn_id operation in
      delegate_found-KindsFit db caller operation assignment payload now found r (ground arith) w

  pub create_scoped-KindsFit :
      (rules : ThreadTexts) (db : Db) (caller : ThreadCaller) (operation : String) (n : NewThread)
      (reference : ThreadRef) (icon_fits : Result Unit) (now : Instant) (r : Db × ThreadRow)
      → create_scoped texts rules db caller operation n reference icon_fits now ≡ ok r
      → KindsFit db.threads
      → KindsFit r.0.threads
  unfolding create_scoped
  create_scoped-KindsFit rules db caller operation n reference icon_fits now r h w =
      let key = creation_key texts rules caller operation n.client_id in
      let new : ℕ → ℕ → ThreadRow =
        λ p. new_thread (agent_thread texts rules n key p) (rules.trim_title n.title) now in
      let refreshed : Db → ThreadRow → Result (Db × ThreadRow) =
        λ d t. and_then (refresh_from texts d t.id now) (λ a. ok (a.0, t)) in
      let shown : Db × ℕ → Result (Db × ThreadRow) =
        λ i. and_then (get_thread i.0 i.1) (refreshed i.0) in
      let checks =
        ensure (not (is_empty_text (rules.trim_title n.title)) && not (is_empty_text n.client_id))
          (failed "creation requires title and client_id")
        >> icon_fits
        >> rules.validate_instrument n.instrument
        >> resolve db caller.thread_id reference in
      let (p, _, h1) = and_then-ok checks (λ p. and_then (insert_thread db (new p)) shown) r h in
      let (i, e1, h2) = and_then-ok (insert_thread db (new p)) shown r h1 in
      let (t, _, h3) = and_then-ok (get_thread i.0 i.1) (refreshed i.0) r h2 in
      let (a, e3, h4) = and_then-ok (refresh_from texts i.0 t.id now) (λ a. ok (a.0, t)) r h3 in
      let same : a.0 ≡ r.0 = ground arith in
      same_fit a.0 r.0 same (
        SameKinds-KindsFit i.0.threads a.0.threads
          (SameShape-SameKinds i.0.threads a.0.threads
            (refresh_from-SameShape texts i.0 t.id now a e3))
          (insert-KindsFit db (new p) i e1 w))
