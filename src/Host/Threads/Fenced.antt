-- ===== src/Host/Threads/Fenced.antt =====
-- The revision that an edit of a Thread names: no edit overwrites another unseen
-- (crates/hirsel-host/src/storage/threads.rs, thread_execution.rs).
use hirsel.Base.{
  ℕ, String, ◌≡◌, refl, sym, ap, ◌∙◌, true, false, Option, some, arith, ◌==◌, ==_iff, ◌+◌,
}
use hirsel.Proto.{Instant, ThreadKind}
use hirsel.Host.Tables.{
  ThreadRow, Db, Error, Result, ok, err, and_then, ensure, failed, ◌>>◌, find_thread_row, row_of,
  ThreadExecution,
}
use hirsel.Host.Granted.{and_then-ok}
use hirsel.Host.Scope.{validate_history}
use hirsel.Host.Turns.Rows.{get_thread}
use hirsel.Host.Turns.Execution.{set_addressed_thread_execution}
use hirsel.Host.Threads.Rules.{
  ThreadTexts, when_given, validate_thread_title, validate_thread_description,
}
use hirsel.Host.Threads.Edit.{
  bumped, write_thread, with_own_texts, update_addressed_thread_text, set_addressed_thread_kind,
}
use hirsel.Host.Threads.Kinds.{find_row-update_same}
use hirsel.Host.Threads.Writes.{write_thread-db, row_found}

-- An edit that passes its first checks finds the row, and names another revision than it has.
refused :
    {B : Type 0} (v : Result Unit) (d : Db) (id revision : ℕ) (message : Error) (t : ThreadRow)
    (k : ThreadRow → Result B)
    → v ≡ ok tt
    → find_thread_row d id ≡ some t
    → (t.revision == revision) ≡ false
    → and_then
        (v >> row_of (find_thread_row d id))
        (λ c. ensure (c.revision == revision) message >> k c)
      ≡ err message
refused {B = B} v d id revision message t k h f stale =
    let check : ThreadRow → Result B = λ c. ensure (c.revision == revision) message >> k c in
    ap (λ u. and_then (u >> row_of (find_thread_row d id)) check) h
    ∙ ap (λ o. and_then (row_of o) check) f
    ∙ ap (λ b. ensure b message >> k t) stale

module _ (rules : ThreadTexts) where
  abbrev pub texts_fit : Option String → Option String → Result Unit
  texts_fit title description =
      when_given (validate_thread_title rules) title
      >> when_given (validate_thread_description rules) description

  abbrev checks : Db → String → Option String → Option String → Result Unit
  checks db history title description =
      when_given (validate_thread_title rules) title
      >> when_given (validate_thread_description rules) description
      >> validate_history db history

  -- After an edit of a Thread's texts that named a revision, these three edits that name the same
  -- revision are refused, each with its own error: a change of the Thread's kind, to whichever kind, a
  -- change of where the Thread runs, and an edit of its texts by texts that pass their checks.
  pub edit-fenced :
      (db d : Db) (history : String) (id : ℕ) (title description : Option String) (revision : ℕ)
      (kind : ThreadKind) (execution : Option ThreadExecution) (title' description' : Option String)
      (now later : Instant) (t : ThreadRow)
      → update_addressed_thread_text rules db history id title description revision now ≡ ok (d, t)
      → texts_fit title' description' ≡ ok tt
      → (set_addressed_thread_kind d history id kind revision later
          ≡ err (failed "Thread changed; reload it before changing its kind"))
        × (set_addressed_thread_execution d history id execution revision later
            ≡ err (failed "thread changed; reload before updating where it runs"))
        × (update_addressed_thread_text rules d history id title' description' revision later
            ≡ err (failed "thread changed; reload before updating it"))
  unfolding update_addressed_thread_text set_addressed_thread_kind set_addressed_thread_execution
      get_thread
  edit-fenced db d history id title description revision kind execution title' description' now
        later t h fits =
      let f = with_own_texts rules title description in
      let stale_message = failed "thread changed; reload before updating it" in
      let fenced : ThreadRow → Result Unit = λ c. ensure (c.revision == revision) stale_message in
      let write = write_thread db id f now in
      let looked = row_of (find_thread_row db id) in
      let (c, e, g) =
        and_then-ok (checks db history title description >> looked) (λ c. fenced c >> write) (d, t)
          h in
      let (u, passed, found) =
        and_then-ok (checks db history title description) (λ _. looked) c e in
      let (v, current, kept) = and_then-ok (fenced c) (λ _. write) (d, t) g in
      let (w, _, known) =
        and_then-ok (texts_fit title description) (λ _. validate_history db history) u passed in
      let left = (write_thread-db db id f now (d, t) kept).0 in
      let after : find_thread_row d id ≡ some (bumped now (f c)) =
        ap (λ (x : Db). find_thread_row x id) (sym left)
        ∙ find_row-update_same db.threads id c (λ t. bumped now (f t)) (λ t. refl)
            (row_found (find_thread_row db id) c found) in
      let same : validate_history d history ≡ ok tt =
        ap (λ (x : Db). validate_history x history) (sym left) ∙ known in
      let old : (c.revision == revision) ≡ true = ground arith in
      let stale : ((c.revision + 1) == revision) ≡ false =
        ground (arith, ==_iff c.revision revision, ==_iff (c.revision + 1) revision) in
      (
        refused (validate_history d history) d id revision
            (failed "Thread changed; reload it before changing its kind") (bumped now (f c)) _ same
            after stale,
        refused (validate_history d history) d id revision
            (failed "thread changed; reload before updating where it runs") (bumped now (f c)) _
            same after stale,
        refused (checks d history title' description') d id revision stale_message
            (bumped now (f c)) _ (ap (λ x. x >> validate_history d history) fits ∙ same) after
            stale,
      )
