-- ===== src/Host/Turns/Boot.antt =====
-- After the recovery at boot no turn runs
-- (crates/hirsel-host/src/storage/thread_activity.rs, interrupt_unfinished_thread_turns).
use hirsel.Base.{
  ℕ, suc, String, ◌≡◌, refl, ap, sym, ◌∙◌, subst, Bool, true, false, not, ◌&&◌, Option, none, some,
  List, [], ◌∷◌, ◌++◌, arith, ◌==◌, ==_iff, find, any, contains, nat_eq, Bool-cases, inl, inr,
}
use hirsel.Proto.{Instant, ThreadTurnState, is_terminal}
use hirsel.Host.Tables.{TurnRow, ReportRow, Db, failed, Result, ok, and_then, ensure}
use hirsel.Host.Granted.{and_then-ok}
use hirsel.Host.Turns.Texts.{TurnTexts, ◌+s+◌}
use hirsel.Host.Turns.Rows.{
  is_running, get_turn, get_activity, update_turn, state_name, drop_requests_of,
}
use hirsel.Host.Turns.Reports.{
  report, report_to, report_found, report_known, note_report, find_report, same_report,
  report_request, report_body, queued_turn, enqueue,
}
use hirsel.Host.Turns.Finish.{
  finished, running_ids, report_end, report_end_to, finish_open, interrupt_turn, interrupt_turns,
  interrupt_unfinished_thread_turns, invalidate_agent_session_profile, finish_with_failure,
  end_summary, outputs_of,
}
use hirsel.Host.Turns.Kept.{capture-OnlyExecution, insert_request-row, refresh_from-OnlyThreads}
use hirsel.Host.Turns.Runs.{
  enqueue-Run, outbox_payload, report_new-Run, report_end_to-Run, finish_open-Run, ended_db,
  finish_with_failure-Found,
}
use hirsel.Host.Turns.Machine.{IsSound, unique_ids, has_id}
use hirsel.Host.Turns.Machine.Sound.{TurnSteps-IsSound}
use hirsel.Host.Turns.Refines.Accept.{table, insert_turn-Inserted, get_turn-found}
use hirsel.Host.Turns.Refines.Ends.{interrupt_turn-Refines}

abbrev runs : ℕ → Db → Bool
runs i db = contains (running_ids db.thread_turns) i

-- Every turn that runs afterwards ran before.
abbrev Quieter : Db → Db → Type 0
Quieter db d = (i : ℕ) → runs i d ≡ true → runs i db ≡ true

same_turns : (db d : Db) → d.thread_turns ≡ db.thread_turns → Quieter db d
same_turns db d e i h = ap (λ ts. contains (running_ids ts) i) (sym e) ∙ h

running_ids-push :
    (ts : List TurnRow) (t : TurnRow)
    → is_running t.state ≡ false
    → running_ids (ts ++ t ∷ []) ≡ running_ids ts
running_ids-push [] t h = ground arith
running_ids-push (x ∷ ts) t h = ground (arith, running_ids-push ts t h)

enqueue-Quieter :
    (db : Db) (thread : ℕ) (client_id body : String) (requester requester_turn : Option ℕ)
    (triggered : Bool) (now : Instant) (a : Db × ℕ)
    → enqueue db thread client_id body requester requester_turn triggered now ≡ ok a
    → Quieter db a.0
enqueue-Quieter db thread client_id body requester requester_turn triggered now a h i k =
    let run = enqueue-Run db thread client_id body requester requester_turn triggered now a h in
    let row = queued_turn thread requester requester_turn now in
    let payload = outbox_payload thread body triggered run.taken run.one.1 in
    let inserted = (insert_turn-Inserted row db run.one run.inserted).result in
    let captured = capture-OnlyExecution run.one.0 thread run.one.1 none run.taken run.captured in
    let put = insert_request-row client_id payload run.taken a.0 run.put in
    let turns : a.0.thread_turns ≡ db.thread_turns ++ row (suc db.last_turn_id) ∷ [] =
      ap (λ (x : Db). x.thread_turns) put
      ∙ ap (λ (x : Db). x.thread_turns) captured
      ∙ ap (λ (x : Db × ℕ). x.0.thread_turns) inserted in
    ap (λ ids. contains ids i)
      (sym
        (ap running_ids turns ∙ running_ids-push db.thread_turns (row (suc db.last_turn_id)) refl))
    ∙ k

-- A turn that was ended does not run, and no other begins to.
running-ended :
    (id : ℕ) (state : ThreadTurnState) (reply : Option ℕ) (now : Instant) (ts : List TurnRow)
    (i : ℕ)
    → is_running state ≡ false
    → contains (running_ids (update_turn id (finished state reply now) ts)) i ≡ true
    → (contains (running_ids ts) i && not (id == i)) ≡ true
running-ended id state reply now [] i s h = cc
running-ended id state reply now (t ∷ ts) i s h = elim (Bool-cases (t.id == id)) [
  | inl q ↦
      let rest : contains (running_ids (update_turn id (finished state reply now) ts)) i ≡ true =
        ground arith in
      ground (arith, running-ended id state reply now ts i s rest)
  | inr q ↦
      ground
        (arith, running-ended id state reply now ts i s, ==_iff t.id i, ==_iff id i, ==_iff t.id id)
]

terminal_rests : (s : ThreadTurnState) → is_terminal s ≡ true → is_running s ≡ false
unfolding is_terminal
terminal_rests s h = ground arith

row_with_id :
    (id : ℕ) (ts : List TurnRow) → contains (running_ids ts) id ≡ true → has_id id ts ≡ true
row_with_id id [] h = cc
row_with_id id (t ∷ ts) h = ground (arith, row_with_id id ts)

some_row : (a b : TurnRow) → some a ≡ some b → a ≡ b
some_row a b h = cc

ended_rests :
    (id : ℕ) (ts : List TurnRow) (t : TurnRow)
    → unique_ids ts ≡ true
    → find (λ x. x.id == id) ts ≡ some t
    → is_terminal t.state ≡ true
    → contains (running_ids ts) id ≡ false
ended_rests id [] t u h k = cc
ended_rests id (x ∷ ts) t u h k = elim (Bool-cases (x.id == id)) [
  | inl q ↦
      let same : x ≡ t = some_row x t (ground arith) in
      let rests : is_running x.state ≡ false =
        ap (λ (o : TurnRow). is_running o.state) same ∙ terminal_rests t.state k in
      ground (arith, row_with_id id ts, ==_iff x.id id)
  | inr q ↦ ground (arith, ended_rests id ts t)
]

other_id :
    (id i : ℕ) (ts : List TurnRow)
    → contains (running_ids ts) id ≡ false
    → contains (running_ids ts) i ≡ true
    → (id == i) ≡ false
other_id id i ts h k = elim (Bool-cases (id == i)) [
  | inl q ↦
      let same : contains (running_ids ts) i ≡ false =
        ap (contains (running_ids ts)) (sym ((==_iff id i).0 q)) ∙ h in
      cc
  | inr q ↦ q
]

none_runs :
    (ts : List TurnRow)
    → ((i : ℕ) → contains (running_ids ts) i ≡ true → ⊥)
    → any (λ t. is_running t.state) ts ≡ false
none_runs [] h = refl
none_runs (t ∷ ts) h = elim (Bool-cases (is_running t.state)) [
  | inl q ↦ absurd (h t.id (ground (arith, ==_iff t.id t.id)))
  | inr q ↦ ground (arith, none_runs ts (λ i k. h i (rw q k)))
]

module _ (texts : TurnTexts) where
  report_found-Quieter :
      (db : Db) (turn : TurnRow) (parent : ℕ) (operation status summary : String) (ids : List ℕ)
      (now : Instant) (o : Option ReportRow) (r : Db × ℕ)
      → report_found texts db turn parent operation status summary ids now o ≡ ok r
      → Quieter db r.0
  unfolding report_found
  report_found-Quieter db turn parent operation status summary ids now none r h i k =
      let run = report_new-Run texts db turn parent operation status summary ids now r h in
      let noted = note_report texts db turn parent operation status summary ids now in
      let sent : runs i run.sent.0 ≡ true =
        ap (λ (x : Db × ℕ). contains (running_ids x.0.thread_turns) i) (sym run.left) ∙ k in
      let before : runs i noted.0 ≡ true =
        enqueue-Quieter noted.0 parent (report_request texts turn noted.1)
          (report_body texts turn status summary ids) run.row.parent_thread_id none true now
          run.sent run.queued i sent in
      unfold note_report in before
  report_found-Quieter db turn parent operation status summary ids now (some receipt) r h i k =
      let (a, _, h1) =
        and_then-ok (get_activity db receipt.activity_id)
          (λ a.
            and_then
              (ensure (same_report a.content status summary ids)
                (failed "report operation payload changed"))
              (λ _. ok (db, receipt.activity_id)))
          r (unfold report_known in h) in
      let same : db ≡ r.0 = ground arith in
      same_turns db r.0 (ap (λ (x : Db). x.thread_turns) (sym same)) i k

  report_to-Quieter :
      (db : Db) (turn : TurnRow) (operation status summary : String) (ids : List ℕ) (now : Instant)
      (o : Option ℕ) (r : Db × ℕ)
      → report_to texts db turn operation status summary ids now o ≡ ok r
      → Quieter db r.0
  unfolding report_to
  report_to-Quieter db turn operation status summary ids now none r h = cc
  report_to-Quieter db turn operation status summary ids now (some parent) r h =
      report_found-Quieter db turn parent operation status summary ids now
        (find_report db turn.id operation) r h

  report_end_to-Quieter :
      (db : Db) (turn : TurnRow) (state : ThreadTurnState) (failure : Option String) (now : Instant)
      (o : Option ℕ) (d : Db)
      → report_end_to texts db turn state failure now o ≡ ok d
      → Quieter db d
  unfolding report_end_to report
  report_end_to-Quieter db turn state failure now none d h i k =
      let same : db ≡ d = ground arith in
      same_turns db d (ap (λ (x : Db). x.thread_turns) (sym same)) i k
  report_end_to-Quieter db turn state failure now (some requester) d h i k =
      let run = report_end_to-Run texts db turn state failure now requester d h in
      report_to-Quieter db turn "terminal" (state_name state)
        (end_summary texts state failure run.message) (outputs_of turn.id db.turn_output_artifacts)
        now turn.requester_thread_id run.told run.reported i (ap (runs i) run.left ∙ k)

  finish_open-Quieter :
      (db : Db) (t : TurnRow) (state : ThreadTurnState) (reply : Option ℕ) (failure : Option String)
      (now : Instant) (r : Db × TurnRow) (i : ℕ)
      → is_terminal state ≡ true
      → finish_open texts db t state reply failure now ≡ ok r
      → runs i r.0 ≡ true
      → (runs i db && not (t.id == i)) ≡ true
  finish_open-Quieter db t state reply failure now r i s h k =
      let run = finish_open-Run texts db t state reply failure now r h in
      let d = ended_db db t.id state reply now in
      let reported : runs i run.refreshed.0 ≡ true =
        report_end_to-Quieter run.refreshed.0 r.1 state failure now r.1.requester_thread_id r.0
          (unfold report_end in run.reported) i k in
      let climbed = refresh_from-OnlyThreads texts d t.thread_id now run.refreshed run.climbed in
      running-ended t.id state reply now db.thread_turns i (terminal_rests state s)
        (same_turns d run.refreshed.0 (ap (λ (x : Db). x.thread_turns) climbed) i reported)

  -- The body of the loop: the turn is out, and no other came in.
  interrupt_turn-Quieter :
      (db : Db) (id : ℕ) (now : Instant) (r : Db × TurnRow) (i : ℕ)
      → unique_ids db.thread_turns ≡ true
      → interrupt_turn texts db id now ≡ ok r
      → runs i r.0 ≡ true
      → (runs i db && not (id == i)) ≡ true
  unfolding interrupt_turn
  interrupt_turn-Quieter db id now r i u h k =
      let prepared : TurnRow → Db = λ t. drop_requests_of id (
        invalidate_agent_session_profile db t.thread_id
          ("interrupted-turn:" +s+ texts.decimal id)) in
      let (t, g, h1) =
        and_then-ok (get_turn db id)
          (λ t. finish_with_failure texts (prepared t) id ThreadTurnState.interrupted none none now)
          r h in
      let run =
        finish_with_failure-Found texts (prepared t) id ThreadTurnState.interrupted none none now r
          h1 in
      let turns : (prepared t).thread_turns ≡ db.thread_turns =
        unfold drop_requests_of invalidate_agent_session_profile in refl in
      let (found, same) = get_turn-found (prepared t) id run.turn run.got in
      elim (Bool-cases (is_terminal run.turn.state)) [
        | inl q ↦
            let left : prepared t ≡ r.0 = ground (arith, run.after) in
            let before : runs i db ≡ true =
              ap (λ ts. contains (running_ids ts) i)
                (sym (ap (λ (x : Db). x.thread_turns) (sym left) ∙ turns))
              ∙ k in
            let at_id : find (λ x. x.id == id) db.thread_turns ≡ some run.turn =
              ap (λ ts. find (λ (x : TurnRow). x.id == id) ts) (sym turns)
              ∙ ap (λ n. find (λ (x : TurnRow). x.id == n) (prepared t).thread_turns) (sym same)
              ∙ found in
            let out = ended_rests id db.thread_turns run.turn u at_id q in
            ground (arith, other_id id i db.thread_turns out before)
        | inr q ↦
            let left =
              finish_open-Quieter (prepared t) run.turn ThreadTurnState.interrupted none none now r
                i (unfold is_terminal in refl) (ground (arith, run.after)) k in
            subst (λ n. (runs i db && not (n == i)) ≡ true) same
              (subst
                (λ (ts : List TurnRow).
                  (contains (running_ids ts) i && not (run.turn.id == i)) ≡ true)
                turns left)
      ]

  interrupt_turns-rest :
      (db : Db) (ids : List ℕ) (now : Instant) (r : Db × List TurnRow) (i : ℕ)
      → IsSound (table db)
      → interrupt_turns texts db ids now ≡ ok r
      → runs i r.0 ≡ true
      → (runs i db && not (contains ids i)) ≡ true
  unfolding interrupt_turns
  interrupt_turns-rest db [] now r i s h k =
      let same : r.0 ≡ db = ground arith in
      let before : runs i db ≡ true = ap (runs i) (sym same) ∙ k in ground arith
  interrupt_turns-rest db (id ∷ rest) now r i s h k =
      let fin : Db × TurnRow → Db × List TurnRow → Result (Db × List TurnRow) =
        λ one more. ok (more.0, one.1 ∷ more.1) in
      let (one, e, h1) =
        and_then-ok (interrupt_turn texts db id now)
          (λ one. and_then (interrupt_turns texts one.0 rest now) (fin one)) r h in
      let (more, e1, h2) = and_then-ok (interrupt_turns texts one.0 rest now) (fin one) r h1 in
      let same : more.0 ≡ r.0 = ground arith in
      let sound = TurnSteps-IsSound (interrupt_turn-Refines texts db id now one e) s in
      let later = interrupt_turns-rest one.0 rest now more i sound e1 (ap (runs i) same ∙ k) in
      let now_out = interrupt_turn-Quieter db id now one i s.distinct e (ground arith) in
      ground arith

  -- When the recovery at boot commits, no turn runs any more, whatever ran before the host stopped.
  pub boot_rests :
      (db d : Db) (now : Instant) (ts : List TurnRow)
      → IsSound (table db)
      → interrupt_unfinished_thread_turns texts db now ≡ ok (d, ts)
      → any (λ t. is_running t.state) d.thread_turns ≡ false
  unfolding interrupt_unfinished_thread_turns
  boot_rests db d now ts s h = none_runs d.thread_turns (λ i k.
      let out = interrupt_turns-rest db (running_ids db.thread_turns) now (d, ts) i s h k in
      ground arith)
