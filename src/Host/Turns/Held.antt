-- ===== src/Host/Turns/Held.antt =====
-- An archived subtree accepts no work and holds its requests
-- (crates/hirsel-host/src/storage/thread_archive.rs, thread_requests.rs).
use hirsel.Base.{
  ℕ, String, str_eq, str_eq_iff, ◌≡◌, refl, ap, sym, ◌∙◌, subst, Bool, true, false, Option, none,
  some, List, [], ◌∷◌, arith, ◌==◌, ==_iff, any, find, retain, contains, nat_eq, Bool-cases, inl,
  inr,
}
use hirsel.Proto.{Instant}
use hirsel.Host.Closure.{closure}
use hirsel.Host.Scope.{validate_history}
use hirsel.Host.Tables.{ThreadRow, RequestPayload, RequestRow, Db, failed, ok, err, find_thread_row}
use hirsel.Host.Granted.{and_then-ok}
use hirsel.Host.Scope.{down_edges, max_id}
use hirsel.Host.Turns.Texts.{TurnTexts}
use hirsel.Host.Turns.Headlines.{refresh_from}
use hirsel.Host.Turns.Rows.{is_set, get_thread}
use hirsel.Host.Turns.Queue.{queue_background_thread_request}
use hirsel.Host.Turns.Requests.{request_cancel, admitted, next_request}
use hirsel.Host.Turns.Archive.{
  ArchiveActor, ArchiveOutcome, ids_in, subtree, cancel_all, archive_rows, changed_rows,
  publications_of, note_archive, apply_in, apply,
}
use hirsel.Host.Turns.Kept.{refresh_from-OnlyThreads}
use hirsel.Host.Turns.Climb.{find_row, SameShape, refresh_from-SameShape}

abbrev pub row_archived : Option ThreadRow → Bool
row_archived none = false
row_archived (some t) = is_set t.archived_at

ids_in-row :
    (scope : List ℕ) (id : ℕ) (rows : List ThreadRow)
    → contains (ids_in scope rows) id ≡ true
    → any (λ t. t.id == id) rows ≡ true
unfolding ids_in
ids_in-row scope id [] h = cc
ids_in-row scope id (t ∷ rest) h = ground (arith, ids_in-row scope id rest)

archive_rows-archived :
    (scope : List ℕ) (now : Instant) (id : ℕ) (rows : List ThreadRow)
    → contains scope id ≡ true
    → any (λ t. t.id == id) rows ≡ true
    → row_archived (find_row id (archive_rows true scope now rows)) ≡ true
unfolding archive_rows
archive_rows-archived scope now id [] c h = cc
archive_rows-archived scope now id (t ∷ rest) c h = elim (Bool-cases (t.id == id)) [
  | inl q ↦
      let here : contains scope t.id ≡ true = ap (contains scope) ((==_iff t.id id).0 q) ∙ c in
      ground arith
  | inr q ↦ ground (arith, archive_rows-archived scope now id rest c)
]

-- Stopping turns changes neither the Threads nor the requests.
pub record SameHeld (db d : Db) : Type 0 where
  pub threads : d.threads ≡ db.threads
  requests : d.thread_requests ≡ db.thread_requests

pub cancel_all-SameHeld :
    (db : Db) (ids : List ℕ) (keep : Option ℕ) (now : Instant)
    → SameHeld db (cancel_all db ids keep now).0
unfolding cancel_all request_cancel
cancel_all-SameHeld db [] keep now = record { threads = refl; requests = refl }
cancel_all-SameHeld db (id ∷ rest) keep now =
    let d = (request_cancel db id false keep now).0 in
    let more = cancel_all-SameHeld d rest keep now in
    record { threads = more.threads; requests = more.requests }

pub note_archive-SameHeld :
    (db : Db) (root : ThreadRow) (archived : Bool) (actor : ArchiveActor)
    (published : List ThreadRow) (cancelled : List ℕ) (now : Instant) (r : Db × ArchiveOutcome)
    → note_archive db root archived actor published cancelled now ≡ ok r
    → SameHeld db r.0
unfolding note_archive
note_archive-SameHeld db root archived actor published cancelled now r h = record {
  threads = ground arith;
  requests = ground arith;
}

shape-archived :
    (a b : List ThreadRow) (id : ℕ)
    → SameShape a b
    → row_archived (find_row id a) ≡ true
    → row_archived (find_row id b) ≡ true
shape-archived a b id s h = ground (arith, s id)

-- What an archive leaves
record Archived (db d : Db) (ids : List ℕ) : Type 0 where
  rows :
      (id : ℕ)
      → contains ids id ≡ true
      → any (λ t. t.id == id) db.threads ≡ true
      → row_archived (find_row id d.threads) ≡ true
  requests : d.thread_requests ≡ db.thread_requests

module _ (texts : TurnTexts) where
  apply_in-Archived :
      (db : Db) (root : ThreadRow) (ids : List ℕ) (actor : ArchiveActor) (now : Instant)
      (r : Db × ArchiveOutcome)
      → apply_in texts db root ids true actor now ≡ ok r
      → Archived db r.0 ids
  unfolding apply_in
  apply_in-Archived db root ids actor now r h =
      let stopped = cancel_all db ids actor.keep_turn_id now in
      let after = record stopped.0 { threads = archive_rows true ids now stopped.0.threads } in
      let published = publications_of root (changed_rows true ids now stopped.0.threads) in
      let (k, e, h1) =
        and_then-ok (refresh_from texts after root.id now)
          (λ k. note_archive k.0 root true actor published stopped.1 now) r h in
      let kept = cancel_all-SameHeld db ids actor.keep_turn_id now in
      let noted = note_archive-SameHeld k.0 root true actor published stopped.1 now r h1 in
      let same = refresh_from-SameShape texts after root.id now k e in
      record {
        rows = λ id c p.
            subst (λ rows. row_archived (find_row id rows) ≡ true) (sym noted.threads)
              (shape-archived after.threads k.0.threads id same (
                archive_rows-archived ids now id stopped.0.threads c (
                  subst (λ rows. any (λ (t : ThreadRow). t.id == id) rows ≡ true) (sym kept.threads)
                    p)));
        requests =
            noted.requests
            ∙ ap (λ (x : Db). x.thread_requests)
                (refresh_from-OnlyThreads texts after root.id now k e)
            ∙ kept.requests;
      }

  apply-Archived :
      (db : Db) (root : ℕ) (actor : ArchiveActor) (now : Instant) (r : Db × ArchiveOutcome)
      → apply texts db root true actor now ≡ ok r
      → Archived db r.0 (subtree db root)
  unfolding apply
  apply-Archived db root actor now r h =
      let (t, _, k) =
        and_then-ok (get_thread db root) (λ t. apply_in texts db t (subtree db root) true actor now)
          r h in
      apply_in-Archived db t (subtree db root) actor now r k

  held :
      (d : Db) (id : ℕ) (now : Instant) (rs : List RequestRow)
      → row_archived (find_row id d.threads) ≡ true
      → find
          (λ r. r.payload.thread_id == id)
          (retain (λ r. admitted texts now r (find_thread_row d r.payload.thread_id)) rs)
        ≡ none
  held d id now [] h = refl
  held d id now (r ∷ rest) h = elim (Bool-cases (r.payload.thread_id == id)) [
    | inl q ↦
        let same : find_thread_row d r.payload.thread_id ≡ find_row id d.threads =
          ap (λ k. find_row k d.threads) ((==_iff r.payload.thread_id id).0 q) in
        let off : admitted texts now r (find_thread_row d r.payload.thread_id) ≡ false =
          ap (admitted texts now r) same ∙ ground arith in
        rw off (held d id now rest h)
    | inr q ↦ ground (arith, held d id now rest h)
  ]

  -- A wake of an archived Thread, in the current history
  wake-refused :
      (d : Db) (client_id : String) (id : ℕ) (payload : RequestPayload) (now : Instant)
      → payload.history_id ≡ some d.history_id
      → row_archived (find_row id d.threads) ≡ true
      → queue_background_thread_request texts d client_id id payload now
        ≡ err (failed "Thread is archived and accepts no new work; unarchive it first")
  unfolding queue_background_thread_request get_thread validate_history
  wake-refused d client_id id payload now p h = found (find_thread_row d id) refl
    where
      found :
          (o : Option ThreadRow)
          → find_thread_row d id ≡ o
          → queue_background_thread_request texts d client_id id payload now
            ≡ err (failed "Thread is archived and accepts no new work; unarchive it first")
      found none e = absurd (ground (arith, ap row_archived e))
      found (some t) e =
          let mine : str_eq d.history_id d.history_id ≡ true =
            (str_eq_iff d.history_id d.history_id).1 refl in
          let off : is_set t.archived_at ≡ true = ap row_archived (sym e) ∙ h in
          rw p (rw mine (rw e (rw off refl)))

  -- After an archive of `root`, every wake of a Thread of its subtree in the current history is
  -- refused with the archive's error, and as long as the Threads stay as they are no lane is handed a
  -- request of it at any time: neither one that was accepted before, as the archive leaves the
  -- requests as they are, nor one that is accepted later (as those of delegations, reports and owner
  -- messages are).
  pub archive-held :
      (db d : Db) (root : ℕ) (actor : ArchiveActor) (now : Instant) (o : ArchiveOutcome)
      → apply texts db root true actor now ≡ ok (d, o)
      → ((id : ℕ)
          → contains (subtree db root) id ≡ true
          → ((client_id : String) (payload : RequestPayload) (later : Instant)
              → payload.history_id ≡ some d.history_id
              → queue_background_thread_request texts d client_id id payload later
                ≡ err (failed "Thread is archived and accepts no new work; unarchive it first"))
            × ((rs : List RequestRow) (later : Instant)
                → next_request texts (record d { thread_requests = rs }) id later ≡ none))
        × (d.thread_requests ≡ db.thread_requests)
  unfolding subtree
  archive-held db d root actor now o h =
      let left = apply-Archived db root actor now (d, o) h in
      let scope = closure (down_edges db.threads) (root ∷ []) (max_id db.threads) in
      (
        λ id c.
            let gone = left.rows id c (ids_in-row scope id db.threads c) in
            (
              λ client_id payload later p. wake-refused d client_id id payload later p gone,
              λ rs later.
                  unfold next_request in held (record d { thread_requests = rs }) id later rs gone,
            ),
        left.requests,
      )
