-- ===== src/Host/Threads/Steps.antt =====
-- What happens to the table of Threads, as steps from table to table: the operations that insert a
-- Thread (crates/hirsel-host/src/storage/threads.rs, thread_mutations.rs, thread_delegation.rs), the
-- operations of threads.rs and thread_archive.rs that change one, the reset of storage.rs, and any
-- change that leaves each row's parent and kind; and what all of them keep.
use hirsel.Base.{ℕ, String, ◌≡◌, refl, sym, Bool, Option, List, nat_eq}
use hirsel.Proto.{Instant, Json, ThreadKind, ThreadAttention}
use hirsel.Host.Tables.{ThreadRow, Db, Result, ok}
use hirsel.Host.Scope.{ThreadRef}
use hirsel.Host.Turns.Texts.{TurnTexts}
use hirsel.Host.Turns.Archive.{ArchiveActor, ArchiveOutcome, apply}
use hirsel.Host.Turns.Callers.{ThreadCaller}
use hirsel.Host.Turns.Delegation.{Delegation, DelegatedTurn, delegate_thread}
use hirsel.Host.Turns.Messages.{reset}
use hirsel.Host.Threads.Rules.{ThreadTexts}
use hirsel.Host.Threads.Agent.{create_scoped}
use hirsel.Host.Threads.Headline.{set_headline, mark_headlines_seen}
use hirsel.Host.Threads.Create.{NewThread, find_created, create_in_transaction}
use hirsel.Host.Threads.Edit.{
  archived_field, read_field, archive_thread, mark_thread_read, pin_thread,
  set_addressed_thread_kind, settle_addressed_thread, snooze_thread, update_thread,
  update_addressed_thread_text,
}
use hirsel.Host.Threads.Kinds.{KindsFit, SameKinds, SameKinds-KindsFit}
use hirsel.Host.Threads.Writes.{
  same_fit, set_field-KindsFit, pin_thread-KindsFit, set_kind-KindsFit, update_text-KindsFit,
}
use hirsel.Host.Threads.Grown.{delegate_thread-KindsFit, create_scoped-KindsFit}
use hirsel.Host.Threads.Shown.{apply-KindsFit, set_headline-KindsFit, mark_headlines_seen-KindsFit}
use hirsel.Host.Threads.Refreshed.{
  settle-KindsFit, snooze-KindsFit, update_thread-KindsFit, create_found-KindsFit,
}

module _ (texts : TurnTexts) (rules : ThreadTexts) where
  -- A change of the Threads that succeeded
  pub data ThreadStep (db : Db) (d : Db) : Type 0 where
    created :
        (n : NewThread) (now : Instant) (c : ThreadRow × Bool)
        → create_in_transaction texts rules db n now ≡ ok (d, c)
        → ThreadStep db d
    edited :
        (id : ℕ) (title description : Option String) (instrument : Option (Option Json))
        (needs : Option ThreadAttention) (now : Instant) (t : ThreadRow)
        → update_thread texts rules db id title description instrument needs now ≡ ok (d, t)
        → ThreadStep db d
    renamed :
        (history : String) (id : ℕ) (title description : Option String) (revision : ℕ)
        (now : Instant) (t : ThreadRow)
        → update_addressed_thread_text rules db history id title description revision now
          ≡ ok (d, t)
        → ThreadStep db d
    converted :
        (history : String) (id : ℕ) (kind : ThreadKind) (revision : ℕ) (now : Instant)
        (t : ThreadRow)
        → set_addressed_thread_kind db history id kind revision now ≡ ok (d, t)
        → ThreadStep db d
    settling :
        (history : String) (id : ℕ) (settled : Bool) (now : Instant) (t : ThreadRow)
        → settle_addressed_thread texts db history id settled now ≡ ok (d, t)
        → ThreadStep db d
    snoozing :
        (id : ℕ) (until : Option Instant) (now : Instant) (t : ThreadRow)
        → snooze_thread texts db id until now ≡ ok (d, t)
        → ThreadStep db d
    archiving :
        (id : ℕ) (archived : Bool) (now : Instant) (t : ThreadRow)
        → archive_thread db id archived now ≡ ok (d, t)
        → ThreadStep db d
    reading :
        (id : ℕ) (now : Instant) (t : ThreadRow)
        → mark_thread_read db id now ≡ ok (d, t)
        → ThreadStep db d
    archiving_below :
        (root : ℕ) (archived : Bool) (actor : ArchiveActor) (now : Instant) (o : ArchiveOutcome)
        → apply texts db root archived actor now ≡ ok (d, o)
        → ThreadStep db d
    headlined :
        (id : ℕ) (text : String) (now : Instant) (ids : List ℕ)
        → set_headline texts rules db id text now ≡ ok (d, ids)
        → ThreadStep db d
    seen :
        (history : String) (ids : List ℕ) (ts : List ThreadRow)
        → mark_headlines_seen db history ids ≡ ok (d, ts)
        → ThreadStep db d
    delegated :
        (caller : ThreadCaller) (operation : String) (assignment : Delegation) (payload : Json)
        (now : Instant) (t : DelegatedTurn)
        → delegate_thread texts db caller operation assignment payload now ≡ ok (d, t)
        → ThreadStep db d
    made :
        (caller : ThreadCaller) (operation : String) (n : NewThread) (reference : ThreadRef)
        (icon_fits : Result Unit) (now : Instant) (t : ThreadRow)
        → create_scoped texts rules db caller operation n reference icon_fits now ≡ ok (d, t)
        → ThreadStep db d
    -- Every other statement on the table: it writes neither a parent nor a kind.
    elsewhere : SameKinds db.threads d.threads → ThreadStep db d
    cleared : (history : String) → d ≡ reset db history → ThreadStep db d
    pinning :
        (id : ℕ) (pin : Bool) (now : Instant) (t : ThreadRow)
        → pin_thread db id pin now ≡ ok (d, t)
        → ThreadStep db d

  pub data ThreadSteps (db : Db) : Db → Type 0 where
    unchanged : ThreadSteps db db
    step : {d e : Db} → ThreadSteps db d → ThreadStep d e → ThreadSteps db e

  ThreadStep-KindsFit : (db d : Db) → ThreadStep db d → KindsFit db.threads → KindsFit d.threads
  unfolding create_in_transaction archive_thread mark_thread_read reset
  ThreadStep-KindsFit db d (created n now c h) w =
      create_found-KindsFit texts rules db (find_created db n.client_id) n now (d, c) h w
  ThreadStep-KindsFit db d (edited id title description instrument needs now t h) w =
      update_thread-KindsFit texts rules db id title description instrument needs now (d, t) h w
  ThreadStep-KindsFit db d (renamed history id title description revision now t h) w =
      update_text-KindsFit rules db history id title description revision now (d, t) h w
  ThreadStep-KindsFit db d (converted history id kind revision now t h) w =
      set_kind-KindsFit db history id kind revision now (d, t) h w
  ThreadStep-KindsFit db d (settling history id settled now t h) w =
      settle-KindsFit texts db history id settled now (d, t) h w
  ThreadStep-KindsFit db d (snoozing id until now t h) w =
      snooze-KindsFit texts db id until now (d, t) h w
  ThreadStep-KindsFit db d (archiving id archived now t h) w =
      set_field-KindsFit db id (archived_field archived now) now (d, t)
        (record { id = λ t. refl; parent = λ t. refl; kind = λ t. refl }) h w
  ThreadStep-KindsFit db d (reading id now t h) w =
      set_field-KindsFit db id read_field now (d, t)
        (record { id = λ t. refl; parent = λ t. refl; kind = λ t. refl }) h w
  ThreadStep-KindsFit db d (archiving_below root archived actor now o h) w =
      apply-KindsFit texts db root archived actor now (d, o) h w
  ThreadStep-KindsFit db d (headlined id text now ids h) w =
      set_headline-KindsFit texts rules db id text now (d, ids) h w
  ThreadStep-KindsFit db d (seen history ids ts h) w =
      mark_headlines_seen-KindsFit db history ids (d, ts) h w
  ThreadStep-KindsFit db d (delegated caller operation assignment payload now t h) w =
      delegate_thread-KindsFit texts db caller operation assignment payload now (d, t) h w
  ThreadStep-KindsFit db d (made caller operation n reference icon_fits now t h) w =
      create_scoped-KindsFit texts rules db caller operation n reference icon_fits now (d, t) h w
  ThreadStep-KindsFit db d (elsewhere same) w = SameKinds-KindsFit db.threads d.threads same w
  ThreadStep-KindsFit db d (cleared history e) w =
      same_fit (reset db history) d (sym e) (λ i j t h. cc)
  ThreadStep-KindsFit db d (pinning id pin now t h) w = pin_thread-KindsFit db id pin now (d, t) h w

  -- Whatever Threads the Owner, an agent or a delegation creates, and however Threads are edited,
  -- renamed, converted, settled, snoozed, archived, read, pinned, given headlines, cleared by a reset
  -- or changed in columns other than parent and kind, in any order: each parent stays a row, and the
  -- children of a Task stay Tasks.
  pub ThreadSteps-KindsFit :
      {db d : Db} → ThreadSteps db d → KindsFit db.threads → KindsFit d.threads
  ThreadSteps-KindsFit unchanged w = w
  ThreadSteps-KindsFit (step {d} {e} run s) w =
      ThreadStep-KindsFit d e s (ThreadSteps-KindsFit run w)
