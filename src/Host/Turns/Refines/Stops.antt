-- ===== src/Host/Turns/Refines/Stops.antt =====
-- Requests to stop a turn, and a subtree that is archived
-- (crates/hirsel-host/src/storage/thread_archive.rs, thread_scope.rs).
use hirsel.Base.{
  ℕ, String, ◌≡◌, refl, ap, ◌∙◌, Bool, true, false, not, ◌&&◌, Option, some, List, [], ◌∷◌, ◌++◌,
  arith, ◌==◌, ==_iff, Bool-cases, inl, inr, find, retain, contains, nat_eq,
}
use hirsel.Proto.{Instant, is_terminal}
use hirsel.Host.Closure.{contains-append}
use hirsel.Host.Tables.{ThreadRow, TurnRow, Db, ok}
use hirsel.Host.Granted.{and_then-ok}
use hirsel.Host.Scope.{validate_history}
use hirsel.Host.Turns.Texts.{TurnTexts}
use hirsel.Host.Turns.Headlines.{refresh_from}
use hirsel.Host.Turns.Rows.{is_running, get_thread}
use hirsel.Host.Turns.Requests.{
  request_cancel, request_thread_cancellation, cancel_where, cancel_ids, to_cancel, is_open,
  turn_ids, first_only_of,
}
use hirsel.Host.Turns.Archive.{
  ArchiveActor, ArchiveOutcome, cancel_all, cancel_if, apply_in, apply, archive_rows, changed_rows,
  publications_of, note_archive, subtree,
}
use hirsel.Host.Turns.Machine.{stop, here, next, TurnSteps-trans, IsSound, unique_ids, has_id}
use hirsel.Host.Turns.Machine.Sound.{TurnSteps-IsSound}
use hirsel.Host.Turns.Refines.Accept.{table, Refines, Refines-then, refresh_from-table}

abbrev open_ids : List TurnRow → List ℕ
open_ids ts = turn_ids (retain is_open ts)

retained_id :
    (p : TurnRow → Bool) (i : ℕ) (ts : List TurnRow)
    → contains (turn_ids (retain p ts)) i ≡ true
    → has_id i ts ≡ true
retained_id p i [] h = cc
retained_id p i (t ∷ ts) h = ground (arith, retained_id p i ts)

-- What two conditions retain, the first retains.
retained_both :
    (p q : TurnRow → Bool) (i : ℕ) (ts : List TurnRow)
    → contains (turn_ids (retain q (retain p ts))) i ≡ true
    → contains (turn_ids (retain p ts)) i ≡ true
retained_both p q i [] h = cc
retained_both p q i (t ∷ ts) h = ground (arith, retained_both p q i ts)

retained_weaker :
    (p q : TurnRow → Bool) (i : ℕ) (ts : List TurnRow)
    → ((t : TurnRow) → p t ≡ true → q t ≡ true)
    → contains (turn_ids (retain p ts)) i ≡ true
    → contains (turn_ids (retain q ts)) i ≡ true
retained_weaker p q i [] w h = cc
retained_weaker p q i (t ∷ ts) w h = ground (arith, retained_weaker p q i ts w, w t)

first_only-contains :
    (b : Bool) (xs : List ℕ) (i : ℕ) → contains (first_only_of b xs) i ≡ true → contains xs i ≡ true
first_only-contains true [] i h = h
first_only-contains true (x ∷ xs) i h = ground arith
first_only-contains false [] i h = h
first_only-contains false (x ∷ xs) i h = h

to_cancel-open :
    (thread : ℕ) (keep : Option ℕ) (t : TurnRow) → to_cancel thread keep t ≡ true → is_open t ≡ true
to_cancel-open thread keep t h = ground arith

cancel_ids-open :
    (db : Db) (thread : ℕ) (first_only : Bool) (keep : Option ℕ) (i : ℕ)
    → contains (cancel_ids db thread first_only keep) i ≡ true
    → contains (open_ids db.thread_turns) i ≡ true
unfolding cancel_ids
cancel_ids-open db thread first_only keep i h =
    let chosen = retain (to_cancel thread keep) db.thread_turns in
    let front = turn_ids (retain (λ t. is_running t.state) chosen) in
    let back = turn_ids (retain (λ t. not (is_running t.state)) chosen) in
    let k = first_only-contains first_only (front ++ back) i h in
    retained_weaker (to_cancel thread keep) is_open i db.thread_turns (to_cancel-open thread keep) (
      ground (
        arith,
        contains-append front back i,
        retained_both (to_cancel thread keep) (λ (t : TurnRow). is_running t.state) i
            db.thread_turns,
        retained_both (to_cancel thread keep) (λ (t : TurnRow). not (is_running t.state)) i
            db.thread_turns,
      ))

some_row : (a b : TurnRow) → some a ≡ some b → a ≡ b
some_row a b h = cc

-- The id of a turn that ended is no id of an open one.
ended_id :
    (id : ℕ) (ts : List TurnRow) (t : TurnRow)
    → unique_ids ts ≡ true
    → find (λ u. u.id == id) ts ≡ some t
    → is_terminal t.state ≡ true
    → contains (open_ids ts) id ≡ false
ended_id id [] t u h k = cc
ended_id id (x ∷ ts) t u h k = elim (Bool-cases (x.id == id)) [
  | inl q ↦
      let same : x ≡ t = some_row x t (ground arith) in
      let ended : is_terminal x.state ≡ true = ap (λ (o : TurnRow). is_terminal o.state) same ∙ k in
      ground (arith, retained_id is_open id ts, ==_iff x.id id)
  | inr q ↦ ground (arith, ended_id id ts t)
]

not_true : (b : Bool) → (b ≡ true → ⊥) → b ≡ false
not_true true h = absurd (h refl)
not_true false h = refl

pub request_cancel-Refines :
    (db : Db) (thread : ℕ) (first_only : Bool) (keep : Option ℕ) (now : Instant)
    → IsSound (table db)
    → Refines db (request_cancel db thread first_only keep now).0
unfolding request_cancel
request_cancel-Refines db thread first_only keep now s =
    let chosen = cancel_ids db thread first_only keep in
    next here (
      stop (λ t. contains chosen t.id) now
        (λ t h k. not_true (contains chosen t.id) (λ c. cc (
          cancel_ids-open db thread first_only keep t.id c,
          ended_id t.id db.thread_turns t s.distinct h k,
        )))
        refl)

cancel_all-Refines :
    (db : Db) (ids : List ℕ) (keep : Option ℕ) (now : Instant)
    → IsSound (table db)
    → Refines db (cancel_all db ids keep now).0
unfolding cancel_all
cancel_all-Refines db [] keep now s = here
cancel_all-Refines db (id ∷ rest) keep now s =
    let d = (request_cancel db id false keep now).0 in
    let first = request_cancel-Refines db id false keep now s in
    TurnSteps-trans first (cancel_all-Refines d rest keep now (TurnSteps-IsSound first s))

cancel_if-Refines :
    (b : Bool) (db : Db) (ids : List ℕ) (keep : Option ℕ) (now : Instant)
    → IsSound (table db)
    → Refines db (cancel_if b db ids keep now).0
cancel_if-Refines true db ids keep now s = cancel_all-Refines db ids keep now s
cancel_if-Refines false db ids keep now s = here

terminal_rests : (t : TurnRow) → is_terminal t.state ≡ true → is_running t.state ≡ false
unfolding is_terminal
terminal_rests t h = ground arith

running_ended :
    (thread : ℕ) (t : TurnRow)
    → is_terminal t.state ≡ true
    → (t.thread_id == thread && is_running t.state) ≡ false
running_ended thread t e = ground (arith, terminal_rests t e)

pub request_thread_cancellation-Refines :
    (db : Db) (history : String) (thread : ℕ) (now : Instant) (d : Db)
    → request_thread_cancellation db history thread now ≡ ok d
    → Refines db d
unfolding request_thread_cancellation
request_thread_cancellation-Refines db history thread now d h =
    let p : TurnRow → Bool = λ t. t.thread_id == thread && is_running t.state in
    let after = record db { thread_turns = cancel_where p now db.thread_turns } in
    let (_, _, k) = and_then-ok (validate_history db history) (λ _. ok after) d h in
    let same : after ≡ d = ground arith in
    let first : Refines db after =
      next here (stop p now (λ t f e. running_ended thread t e) refl) in
    Refines-then db after d first (ap table same)

note_archive-table :
    (db : Db) (root : ThreadRow) (archived : Bool) (actor : ArchiveActor)
    (published : List ThreadRow) (cancelled : List ℕ) (now : Instant) (r : Db × ArchiveOutcome)
    → note_archive db root archived actor published cancelled now ≡ ok r
    → table db ≡ table r.0
unfolding note_archive
note_archive-table db root archived actor published cancelled now r h = ground arith

module _ (texts : TurnTexts) where
  apply_in-Refines :
      (db : Db) (root : ThreadRow) (ids : List ℕ) (archived : Bool) (actor : ArchiveActor)
      (now : Instant) (r : Db × ArchiveOutcome)
      → IsSound (table db)
      → apply_in texts db root ids archived actor now ≡ ok r
      → Refines db r.0
  unfolding apply_in
  apply_in-Refines db root ids archived actor now r s h =
      let stopped = cancel_if archived db ids actor.keep_turn_id now in
      let after = record stopped.0 { threads = archive_rows archived ids now stopped.0.threads } in
      let published = publications_of root (changed_rows archived ids now stopped.0.threads) in
      let (k, e, h1) =
        and_then-ok (refresh_from texts after root.id now)
          (λ k. note_archive k.0 root archived actor published stopped.1 now) r h in
      let same = note_archive-table k.0 root archived actor published stopped.1 now r h1 in
      Refines-then db stopped.0 r.0 (cancel_if-Refines archived db ids actor.keep_turn_id now s)
        (refresh_from-table texts after root.id now k e ∙ same)

  pub apply-Refines :
      (db : Db) (root : ℕ) (archived : Bool) (actor : ArchiveActor) (now : Instant)
      (r : Db × ArchiveOutcome)
      → IsSound (table db)
      → apply texts db root archived actor now ≡ ok r
      → Refines db r.0
  unfolding apply
  apply-Refines db root archived actor now r s h =
      let (t, _, k) =
        and_then-ok (get_thread db root)
          (λ t. apply_in texts db t (subtree db root) archived actor now) r h in
      apply_in-Refines db t (subtree db root) archived actor now r s k
