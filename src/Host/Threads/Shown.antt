-- ===== src/Host/Threads/Shown.antt =====
-- Headlines, and the archive of a subtree (crates/hirsel-host/src/storage/thread_archive.rs), leave the
-- kinds as they are.
use hirsel.Base.{
  ℕ, String, ◌≡◌, refl, sym, subst, Bool, true, false, List, [], ◌∷◌, arith, nat_eq, if◌then◌else◌,
  Bool-cases, inl, inr, zero, ltb, leb, length,
}
use hirsel.Proto.{Instant}
use hirsel.Host.Tables.{ThreadRow, Db, Result, ok, and_then, ensure, failed, ◌>>◌}
use hirsel.Host.Granted.{and_then-ok}
use hirsel.Host.Scope.{validate_history}
use hirsel.Host.Turns.Texts.{TurnTexts}
use hirsel.Host.Turns.Rows.{sorted_ids, update_row, get_thread}
use hirsel.Host.Turns.Headlines.{
  refresh_parent, refresh_from, refresh_self_and_ancestors, note_changed,
}
use hirsel.Host.Turns.Climb.{refresh_parent-SameShape, refresh_from-SameShape}
use hirsel.Host.Turns.Archive.{
  ArchiveActor, ArchiveOutcome, subtree, cancel_if, archive_rows, changed_rows, publications_of,
  note_archive, apply_in, apply,
}
use hirsel.Host.Turns.Held.{cancel_all-SameHeld, note_archive-SameHeld}
use hirsel.Host.Threads.Rules.{ThreadTexts, validate_headline}
use hirsel.Host.Threads.Headline.{
  has_children, own_headline_row, set_headline, seen_row, see_all, get_all, mark_headlines_seen,
}
use hirsel.Host.Threads.Kinds.{
  KindsFit, SameKinds, SameKinds-KindsFit, SameShape-SameKinds, update_row-SameKinds,
}
use hirsel.Host.Threads.Writes.{after_check, same_fit}

archive_rows-SameKinds :
    (archived : Bool) (ids : List ℕ) (now : Instant) (rows : List ThreadRow)
    → SameKinds rows (archive_rows archived ids now rows)
unfolding archive_rows
archive_rows-SameKinds archived ids now [] id = refl
archive_rows-SameKinds true ids now (t ∷ rest) id =
    ground (arith, archive_rows-SameKinds true ids now rest id)
archive_rows-SameKinds false ids now (t ∷ rest) id =
    ground (arith, archive_rows-SameKinds false ids now rest id)

cancel_if-threads :
    (archived : Bool) (db : Db) (ids : List ℕ) (actor : ArchiveActor) (now : Instant)
    → db.threads ≡ (cancel_if archived db ids actor.keep_turn_id now).0.threads
cancel_if-threads true db ids actor now =
    sym (cancel_all-SameHeld db ids actor.keep_turn_id now).threads
cancel_if-threads false db ids actor now = refl

see_all-KindsFit :
    (db : Db) (ids : List ℕ) (d : Db)
    → see_all db ids ≡ ok d
    → KindsFit db.threads
    → KindsFit d.threads
unfolding see_all
see_all-KindsFit db [] d h w = let same : db ≡ d = ground arith in same_fit db d same w
see_all-KindsFit db (id ∷ rest) d h w =
    let after = record db { threads = update_row id seen_row db.threads } in
    let (t, e, k) =
      and_then-ok (ensure (ltb zero id) (failed "Thread IDs must be positive") >> get_thread db id)
        (λ t. see_all after rest) d h in
    see_all-KindsFit after rest d k (
      SameKinds-KindsFit db.threads after.threads
        (update_row-SameKinds id seen_row db.threads
          (record { id = λ t. refl; parent = λ t. refl; kind = λ t. refl }))
        w)

pub mark_headlines_seen-KindsFit :
    (db : Db) (history : String) (ids : List ℕ) (r : Db × List ThreadRow)
    → mark_headlines_seen db history ids ≡ ok r
    → KindsFit db.threads
    → KindsFit r.0.threads
unfolding mark_headlines_seen
mark_headlines_seen-KindsFit db history ids r h w =
    let shown = sorted_ids ids in
    let last : Db → Result (Db × List ThreadRow) =
      λ d. and_then (get_all d shown) (λ ts. ok (d, ts)) in
    let (d, e, k) =
      and_then-ok
        (ensure (leb (length shown) 500) (failed "at most 500 displayed Threads may be marked seen")
          >> validate_history db history
          >> see_all db shown)
        last r h in
    let (ts, e1, k1) = and_then-ok (get_all d shown) (λ ts. ok (d, ts)) r k in
    let same : d ≡ r.0 = ground arith in
    same_fit d r.0 same (
      see_all-KindsFit db shown d
        (after_check
          (ensure (leb (length shown) 500)
              (failed "at most 500 displayed Threads may be marked seen")
            >> validate_history db history)
          (see_all db shown) d e)
        w)

module _ (texts : TurnTexts) where
  refreshed-KindsFit :
      (db : Db) (id : ℕ) (now : Instant) (r : Db × List ℕ)
      → refresh_from texts db id now ≡ ok r
      → KindsFit db.threads
      → KindsFit r.0.threads
  refreshed-KindsFit db id now r h w =
      SameKinds-KindsFit db.threads r.0.threads
        (SameShape-SameKinds db.threads r.0.threads (refresh_from-SameShape texts db id now r h)) w

  refresh_self-KindsFit :
      (db : Db) (id : ℕ) (now : Instant) (r : Db × List ℕ)
      → refresh_self_and_ancestors texts db id now ≡ ok r
      → KindsFit db.threads
      → KindsFit r.0.threads
  unfolding refresh_self_and_ancestors
  refresh_self-KindsFit db id now r h w =
      let last : Db × Bool → Result (Db × List ℕ) = λ one.
        and_then (refresh_from texts one.0 id now)
          (λ rest. ok (rest.0, note_changed id one.1 rest.1)) in
      let (one, e, k) = and_then-ok (refresh_parent texts db id now) last r h in
      let (rest, e1, k1) =
        and_then-ok (refresh_from texts one.0 id now)
          (λ rest. ok (rest.0, note_changed id one.1 rest.1)) r k in
      let same : rest.0 ≡ r.0 = ground arith in
      same_fit rest.0 r.0 same (
        refreshed-KindsFit one.0 id now rest e1 (
          SameKinds-KindsFit db.threads one.0.threads
            (SameShape-SameKinds db.threads one.0.threads
              (refresh_parent-SameShape texts db id now one e))
            w))

  pub apply-KindsFit :
      (db : Db) (root : ℕ) (archived : Bool) (actor : ArchiveActor) (now : Instant)
      (r : Db × ArchiveOutcome)
      → apply texts db root archived actor now ≡ ok r
      → KindsFit db.threads
      → KindsFit r.0.threads
  unfolding apply apply_in
  apply-KindsFit db root archived actor now r h w =
      let ids = subtree db root in
      let (t, _, h0) =
        and_then-ok (get_thread db root) (λ t. apply_in texts db t ids archived actor now) r h in
      let stopped = cancel_if archived db ids actor.keep_turn_id now in
      let after = record stopped.0 { threads = archive_rows archived ids now stopped.0.threads } in
      let published = publications_of t (changed_rows archived ids now stopped.0.threads) in
      let (k, e, h1) =
        and_then-ok (refresh_from texts after t.id now)
          (λ k. note_archive k.0 t archived actor published stopped.1 now) r h0 in
      let noted = note_archive-SameHeld k.0 t archived actor published stopped.1 now r h1 in
      subst KindsFit (sym noted.threads) (
        refreshed-KindsFit after t.id now k e (
          SameKinds-KindsFit stopped.0.threads after.threads
            (archive_rows-SameKinds archived ids now stopped.0.threads)
            (subst KindsFit (cancel_if-threads archived db ids actor now) w)))

  pub set_headline-KindsFit :
      (rules : ThreadTexts) (db : Db) (id : ℕ) (text : String) (now : Instant) (r : Db × List ℕ)
      → set_headline texts rules db id text now ≡ ok r
      → KindsFit db.threads
      → KindsFit r.0.threads
  unfolding set_headline
  set_headline-KindsFit rules db id text now r h w =
      let children = has_children id db.threads in
      let d : String → Db = λ headline. record db {
        threads = update_row id (own_headline_row headline children now) db.threads;
      } in
      let refresh : String → Result (Db × List ℕ) = λ s.
        if children
        then refresh_self_and_ancestors texts (d s) id now
        else refresh_from texts (d s) id now in
      let last : Db × List ℕ → Result (Db × List ℕ) = λ a. ok (a.0, sorted_ids (id ∷ a.1)) in
      let (s, e, k) =
        and_then-ok (validate_headline rules text)
          (λ s. and_then (get_thread db id) (λ t. and_then (refresh s) last)) r h in
      let (t, e1, k1) = and_then-ok (get_thread db id) (λ t. and_then (refresh s) last) r k in
      let (a, e2, k2) = and_then-ok (refresh s) last r k1 in
      let same : a.0 ≡ r.0 = ground arith in
      let wrote =
        SameKinds-KindsFit db.threads (d s).threads
          (update_row-SameKinds id (own_headline_row s children now) db.threads
            (record { id = λ t. refl; parent = λ t. refl; kind = λ t. refl }))
          w in
      same_fit a.0 r.0 same (elim (Bool-cases children) [
        | inl y ↦ refresh_self-KindsFit (d s) id now a (ground arith) wrote
        | inr y ↦ refreshed-KindsFit (d s) id now a (ground arith) wrote
      ])
