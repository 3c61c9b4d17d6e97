-- ===== src/Host/Threads/Edit.antt =====
-- The changes of one Thread's columns in crates/hirsel-host/src/storage/threads.rs. The triggers of
-- current.sql on such an UPDATE repeat what the code checks before it.
use hirsel.Base.{ℕ, String, Bool, true, false, not, ◌+◌, Option, none, some, ◌==◌, if◌then◌else◌}
use hirsel.Proto.{Instant, Json, ThreadKind, ThreadAttention}
use hirsel.Host.Tables.{ThreadRow, Db, failed, Result, ok, ensure, ◌>>◌, ◌>>=◌}
use hirsel.Host.Scope.{validate_history}
use hirsel.Host.Turns.Texts.{TurnTexts}
use hirsel.Host.Turns.Rows.{is_set, update_row, get_thread}
use hirsel.Host.Turns.Headlines.{refresh_from}
use hirsel.Host.Turns.Archive.{ArchiveOutcome, apply}
use hirsel.Host.Threads.Rules.{
  ThreadTexts, is_task, same_kind, has_space_child, validate_thread_title,
  validate_thread_description, when_given,
}

-- COALESCE(?n,column)
abbrev pub or_kept : {A : Type 0} → Option A → A → A
or_kept none a = a
or_kept (some b) a = b

-- `flag.then(|| now)`
abbrev pub then_at : Bool → Instant → Option Instant
then_at true now = some now
then_at false now = none

-- updated_at=now,revision=revision+1, with which each UPDATE ends
abbrev pub bumped : Instant → ThreadRow → ThreadRow
bumped now t = record t { updated_at = now; revision = t.revision + 1 }

abbrev pub write_row : Db → ℕ → (ThreadRow → ThreadRow) → Instant → Db
write_row db id f now = record db { threads = update_row id (λ t. bumped now (f t)) db.threads }

-- An UPDATE of one Thread, and the row after it
unfoldable pub write_thread : Db → ℕ → (ThreadRow → ThreadRow) → Instant → Result (Db × ThreadRow)
unfolding get_thread
write_thread db id f now =
    get_thread (write_row db id f now) id >>= λ t. ok (write_row db id f now, t)

unfoldable pub set_thread_field :
    Db → ℕ → (ThreadRow → ThreadRow) → Instant → Result (Db × ThreadRow)
unfolding get_thread write_thread
set_thread_field db id f now = get_thread db id >>= λ t. write_thread db id f now

unfoldable pub set_addressed_thread_field :
    Db → String → ℕ → (ThreadRow → ThreadRow) → Instant → Result (Db × ThreadRow)
unfolding validate_history set_thread_field
set_addressed_thread_field db history id f now =
    validate_history db history >> set_thread_field db id f now

abbrev pub archived_field : Bool → Instant → ThreadRow → ThreadRow
archived_field archived now t = record t { archived_at = then_at archived now }

abbrev pub read_field : ThreadRow → ThreadRow
read_field t = record t { read = true }

unfoldable pub archive_thread : Db → ℕ → Bool → Instant → Result (Db × ThreadRow)
unfolding set_thread_field
archive_thread db id archived now = set_thread_field db id (archived_field archived now) now

unfoldable pub mark_thread_read : Db → ℕ → Instant → Result (Db × ThreadRow)
unfolding set_thread_field
mark_thread_read db id now = set_thread_field db id read_field now

unfoldable pub mark_addressed_thread_read : Db → String → ℕ → Instant → Result (Db × ThreadRow)
unfolding set_addressed_thread_field
mark_addressed_thread_read db history id now =
    set_addressed_thread_field db history id read_field now

abbrev pub pinned_row : Bool → Instant → ThreadRow → ThreadRow
pinned_row pin now t = record t { pinned_at = then_at pin now }

unfoldable pub pin_thread : Db → ℕ → Bool → Instant → Result (Db × ThreadRow)
unfolding get_thread write_thread
pin_thread db id pin now = get_thread db id >>= λ t.
    ensure (not (is_set t.parent_thread_id))
      (failed "only top-level Threads can be pinned or unpinned")
    >> write_thread db id (pinned_row pin now) now

unfoldable pub pin_addressed_thread : Db → String → ℕ → Bool → Instant → Result (Db × ThreadRow)
unfolding validate_history pin_thread
pin_addressed_thread db history id pin now = validate_history db history >> pin_thread db id pin now

abbrev pub with_kind : ThreadKind → ThreadRow → ThreadRow
with_kind kind t = record t { kind = kind }

unfoldable pub check_above : Db → Option ℕ → Result Unit
unfolding get_thread
check_above db none = ok tt
check_above db (some parent) = get_thread db parent >>= λ t.
    ensure (not (is_task t.kind)) (failed "a Task parent can only contain Tasks")

abbrev pub check_space : Db → ThreadRow → Result Unit
check_space db current =
    ensure (not (is_set current.settled_at))
      (failed "reopen a settled Task before converting it to a Space")
    >> check_above db current.parent_thread_id

abbrev pub check_kind : Db → ThreadRow → ThreadKind → Result Unit
check_kind db current ThreadKind.space = check_space db current
check_kind db current ThreadKind.task =
    ensure (not (has_space_child current.id db.threads)) (failed "a Task cannot contain Spaces")

abbrev pub change_kind : Db → ThreadRow → ThreadKind → Instant → Result (Db × ThreadRow)
change_kind db current kind now =
    check_kind db current kind >> write_thread db current.id (with_kind kind) now

unfoldable pub set_addressed_thread_kind :
    Db → String → ℕ → ThreadKind → ℕ → Instant → Result (Db × ThreadRow)
unfolding validate_history get_thread write_thread
set_addressed_thread_kind db history id kind expected_revision now =
    validate_history db history >> get_thread db id >>= λ current.
    ensure (current.revision == expected_revision)
      (failed "Thread changed; reload it before changing its kind")
    >> (if same_kind current.kind kind then ok (db, current) else change_kind db current kind now)

module _ (texts : TurnTexts) where
  -- An UPDATE in a transaction, with the headlines above
  unfoldable pub write_and_refresh :
      Db → ℕ → (ThreadRow → ThreadRow) → Instant → Result (Db × ThreadRow)
  unfolding refresh_from get_thread
  write_and_refresh db id f now = refresh_from texts (write_row db id f now) id now >>= λ r.
      get_thread r.0 id >>= λ t. ok (r.0, t)

  unfoldable pub settle_addressed_thread :
      Db → String → ℕ → Bool → Instant → Result (Db × ThreadRow)
  unfolding validate_history get_thread write_and_refresh
  settle_addressed_thread db history id settled now =
      validate_history db history >> get_thread db id >>= λ t.
      ensure (is_task t.kind) (failed "only Tasks can be completed or reopened")
      >> write_and_refresh db id (λ u. record u { settled_at = then_at settled now }) now

  unfoldable pub snooze_thread : Db → ℕ → Option Instant → Instant → Result (Db × ThreadRow)
  unfolding get_thread write_and_refresh
  snooze_thread db id until now = get_thread db id >>= λ t.
      write_and_refresh db id (λ u. record u { snoozed_until = until }) now

  unfoldable pub snooze_addressed_thread :
      Db → String → ℕ → Option Instant → Instant → Result (Db × ThreadRow)
  unfolding validate_history snooze_thread
  snooze_addressed_thread db history id until now =
      validate_history db history >> snooze_thread db id until now

  unfoldable pub archive_addressed_thread :
      Db → String → ℕ → Bool → Instant → Result (Db × ArchiveOutcome)
  unfolding validate_history apply
  archive_addressed_thread db history id archived now =
      validate_history db history
      >> apply texts db id archived
          (record { thread_id = id; turn_id = none; actor = "owner"; keep_turn_id = none }) now

abbrev pub with_texts :
    Option String
    → Option String
    → Option (Option Json)
    → Option ThreadAttention
    → ThreadRow
    → ThreadRow
with_texts title description instrument needs t = record t {
  title = or_kept title t.title;
  description = or_kept description t.description;
  instrument = or_kept instrument t.instrument;
  attention = or_kept needs t.attention;
  read = false;
}

module _ (texts : TurnTexts) (rules : ThreadTexts) where
  unfoldable pub update_thread :
      Db
      → ℕ
      → Option String
      → Option String
      → Option (Option Json)
      → Option ThreadAttention
      → Instant
      → Result (Db × ThreadRow)
  unfolding get_thread write_thread write_and_refresh validate_thread_title
      validate_thread_description
  update_thread db id title description instrument needs now =
      let f = with_texts title description instrument needs in
      when_given rules.validate_instrument instrument
      >> when_given (validate_thread_title rules) title
      >> when_given (validate_thread_description rules) description
      >> get_thread db id
      >>= λ t.
          if is_set needs then write_and_refresh texts db id f now else write_thread db id f now

module _ (rules : ThreadTexts) where
  abbrev pub trimmed : Option String → Option String
  trimmed none = none
  trimmed (some title) = some (rules.trim_title title)

  abbrev pub with_own_texts : Option String → Option String → ThreadRow → ThreadRow
  with_own_texts title description t = record t {
    title = or_kept (trimmed title) t.title;
    description = or_kept description t.description;
  }

  unfoldable pub update_addressed_thread_text :
      Db → String → ℕ → Option String → Option String → ℕ → Instant → Result (Db × ThreadRow)
  unfolding validate_history get_thread write_thread validate_thread_title
      validate_thread_description
  update_addressed_thread_text db history id title description expected_revision now =
      when_given (validate_thread_title rules) title
      >> when_given (validate_thread_description rules) description
      >> validate_history db history
      >> get_thread db id
      >>= λ current.
          ensure (current.revision == expected_revision)
            (failed "thread changed; reload before updating it")
          >> write_thread db id (with_own_texts title description) now
