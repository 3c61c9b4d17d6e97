-- ===== src/Host/Turns/Archive.antt =====
-- crates/hirsel-host/src/storage/thread_archive.rs: a Thread and its subtree leave the active tree,
-- or come back.
use hirsel.Base.{
  ℕ, ◌+◌, String, Bool, true, false, not, ◌&&◌, Option, none, some, List, [], ◌∷◌, ◌++◌, ◌==◌,
  if◌then◌else◌, any, contains, length, nat_eq,
}
use hirsel.Proto.{Instant, ThreadAttention}
use hirsel.Host.Closure.{closure}
use hirsel.Host.Tables.{ThreadRow, ActivityRow, ActivityContent, Db, Result, ok, ◌>>=◌}
use hirsel.Host.Scope.{down_edges, max_id}
use hirsel.Host.Turns.Texts.{TurnTexts}
use hirsel.Host.Turns.Headlines.{refresh_from}
use hirsel.Host.Turns.Rows.{is_set, get_thread, get_activity, insert_activity}
use hirsel.Host.Turns.Requests.{request_cancel}

pub record ArchiveActor : Type 0 where
  pub thread_id : ℕ
  pub turn_id : Option ℕ
  pub actor : String
  pub keep_turn_id : Option ℕ

pub record ArchiveOutcome : Type 0 where
  pub threads : List ThreadRow
  pub cancelled_turn_ids : List ℕ
  pub activity : ActivityRow

-- The ids of the rows among `scope`, in the order of the table
unfoldable pub ids_in : List ℕ → List ThreadRow → List ℕ
ids_in scope [] = []
ids_in scope (t ∷ rest) =
    let more = ids_in scope rest in if contains scope t.id then t.id ∷ more else more

-- The query: `id` and what hangs below it
unfoldable pub subtree : Db → ℕ → List ℕ
unfolding ids_in
subtree db root =
    ids_in (closure (down_edges db.threads) (root ∷ []) (max_id db.threads)) db.threads

unfoldable pub cancel_all : Db → List ℕ → Option ℕ → Instant → Db × List ℕ
unfolding request_cancel
cancel_all db [] keep now = (db, [])
cancel_all db (id ∷ rest) keep now =
    let (d, cancelled) = request_cancel db id false keep now in
    let (d', more) = cancel_all d rest keep now in (d', cancelled ++ more)

-- The two UPDATE statements
abbrev pub set_archived : Bool → Instant → ThreadRow → ThreadRow
set_archived true now t = record t {
  archived_at = some now;
  attention = ThreadAttention.quiet;
  updated_at = now;
  revision = t.revision + 1;
}
set_archived false now t = record t {
  archived_at = none;
  updated_at = now;
  revision = t.revision + 1;
}

-- WHERE id=?1 AND archived_at IS NULL, or IS NOT NULL
abbrev pub moves : Bool → ThreadRow → Bool
moves true t = not (is_set t.archived_at)
moves false t = is_set t.archived_at

-- The rows of the subtree after the loop
unfoldable pub archive_rows : Bool → List ℕ → Instant → List ThreadRow → List ThreadRow
archive_rows archived scope now [] = []
archive_rows archived scope now (t ∷ rest) =
    let more = archive_rows archived scope now rest in
    (if contains scope t.id && moves archived t then set_archived archived now t else t) ∷ more

-- The rows that the loop changed, as it left them
unfoldable pub changed_rows : Bool → List ℕ → Instant → List ThreadRow → List ThreadRow
changed_rows archived scope now [] = []
changed_rows archived scope now (t ∷ rest) =
    let more = changed_rows archived scope now rest in
    if contains scope t.id && moves archived t then set_archived archived now t ∷ more else more

-- The root first, then the others: `sort_by_key(|thread| (thread.id != root, thread.id))` on rows
-- in the order of their ids.
abbrev pick : ℕ → Bool → List ThreadRow → List ThreadRow
pick root is_root [] = []
pick root is_root (t ∷ rest) =
    let more = pick root is_root rest in
    let mine = t.id == root in if (if is_root then mine else not mine) then t ∷ more else more

unfoldable pub publications_of : ThreadRow → List ThreadRow → List ThreadRow
publications_of root_thread changed =
    (if any (λ t. t.id == root_thread.id) changed
      then pick root_thread.id true changed
      else root_thread ∷ [])
    ++ pick root_thread.id false changed

abbrev pub cancel_if : Bool → Db → List ℕ → Option ℕ → Instant → Db × List ℕ
cancel_if true db scope keep now = cancel_all db scope keep now
cancel_if false db scope keep now = (db, [])

-- The activity of an archive, and what its caller is told
unfoldable pub note_archive :
    Db
    → ThreadRow
    → Bool
    → ArchiveActor
    → List ThreadRow
    → List ℕ
    → Instant
    → Result (Db × ArchiveOutcome)
unfolding insert_activity get_activity
note_archive db root archived actor published cancelled now =
    let noted =
      insert_activity actor.thread_id actor.turn_id "archived"
        (ActivityContent.archive archived actor.actor root.id root.kind root.title
          (length published) (length cancelled))
        now db in
    get_activity noted.0 noted.1 >>= λ a.
    ok (noted.0, record { threads = published; cancelled_turn_ids = cancelled; activity = a })

module _ (texts : TurnTexts) where
  unfoldable pub apply_in :
      Db → ThreadRow → List ℕ → Bool → ArchiveActor → Instant → Result (Db × ArchiveOutcome)
  unfolding cancel_all archive_rows changed_rows publications_of note_archive
  apply_in db root_thread scope archived actor now =
      let (d, cancelled) = cancel_if archived db scope actor.keep_turn_id now in
      let published = publications_of root_thread (changed_rows archived scope now d.threads) in
      refresh_from texts (record d { threads = archive_rows archived scope now d.threads })
        root_thread.id now
      >>= λ r. note_archive r.0 root_thread archived actor published cancelled now

  unfoldable pub apply : Db → ℕ → Bool → ArchiveActor → Instant → Result (Db × ArchiveOutcome)
  unfolding get_thread subtree apply_in
  apply db root archived actor now =
      get_thread db root >>= λ t. apply_in db t (subtree db root) archived actor now
