-- ===== src/Host/Threads/Refreshed.antt =====
-- The operations of crates/hirsel-host/src/storage/threads.rs that refresh the headlines above, and
-- the creation of a Thread, keep the kinds fitting.
use hirsel.Base.{
  ℕ, suc, String, ◌≡◌, refl, ap, ◌∙◌, subst, Bool, true, not, ◌&&◌, Option, none, some, List, [],
  ◌∷◌, ◌++◌, arith, Bool-cases, inl, inr, nat_eq, if◌then◌else◌, any, ◌==◌,
}
use hirsel.Proto.{Instant, Json, ThreadAttention}
use hirsel.Host.Tables.{ThreadRow, Db, Result, ok, err, and_then, ensure, failed, ◌>>◌}
use hirsel.Host.Granted.{and_then-ok}
use hirsel.Host.Scope.{validate_history}
use hirsel.Host.Turns.Texts.{TurnTexts}
use hirsel.Host.Turns.Rows.{is_set, get_thread}
use hirsel.Host.Turns.Headlines.{refresh_from}
use hirsel.Host.Turns.Climb.{find_row, refresh_from-SameShape}
use hirsel.Host.Threads.Rules.{
  ThreadTexts, is_task, is_task_row, is_task_at, when_given, validate_thread_title,
  validate_thread_description,
}
use hirsel.Host.Threads.Create.{
  NewThread, new_thread, parent_exists, check_parent, create_again, insert_thread, create_found,
}
use hirsel.Host.Threads.Edit.{
  write_row, write_thread, write_and_refresh, settle_addressed_thread, snooze_thread, then_at,
  with_texts, update_thread,
}
use hirsel.Host.Threads.Kinds.{
  KindsFit, SameKinds-KindsFit, SameShape-SameKinds, KeepsKind, append-KindsFit,
}
use hirsel.Host.Threads.Writes.{after_check, write_row-KindsFit, write_thread-KindsFit, same_fit}

module _ (texts : TurnTexts) where
  pub write_and_refresh-KindsFit :
      (db : Db) (id : ℕ) (f : ThreadRow → ThreadRow) (now : Instant) (r : Db × ThreadRow)
      → KeepsKind f
      → write_and_refresh texts db id f now ≡ ok r
      → KindsFit db.threads
      → KindsFit r.0.threads
  unfolding write_and_refresh
  write_and_refresh-KindsFit db id f now r k h w =
      let last : Db × List ℕ → Result (Db × ThreadRow) =
        λ a. and_then (get_thread a.0 id) (λ t. ok (a.0, t)) in
      let (a, e, g) = and_then-ok (refresh_from texts (write_row db id f now) id now) last r h in
      let (t, e', g') = and_then-ok (get_thread a.0 id) (λ t. ok (a.0, t)) r g in
      same_fit a.0 r.0 (ap (λ (x : Result (Db × ThreadRow)). db_or a.0 x) g') (
        SameKinds-KindsFit (write_row db id f now).threads a.0.threads
          (SameShape-SameKinds (write_row db id f now).threads a.0.threads
            (refresh_from-SameShape texts (write_row db id f now) id now a e))
          (write_row-KindsFit db id f now k w))
    where
      db_or : Db → Result (Db × ThreadRow) → Db
      db_or d (ok x) = x.0
      db_or d (err e) = d

  pub settle-KindsFit :
      (db : Db) (history : String) (id : ℕ) (settled : Bool) (now : Instant) (r : Db × ThreadRow)
      → settle_addressed_thread texts db history id settled now ≡ ok r
      → KindsFit db.threads
      → KindsFit r.0.threads
  unfolding settle_addressed_thread
  settle-KindsFit db history id settled now r h w =
      let f : ThreadRow → ThreadRow = λ u. record u { settled_at = then_at settled now } in
      let task : ThreadRow → Result Unit =
        λ t. ensure (is_task t.kind) (failed "only Tasks can be completed or reopened") in
      let (t, e, g) =
        and_then-ok (validate_history db history >> get_thread db id)
          (λ t. task t >> write_and_refresh texts db id f now) r h in
      write_and_refresh-KindsFit db id f now r
        (record { id = λ t. refl; parent = λ t. refl; kind = λ t. refl })
        (after_check (task t) (write_and_refresh texts db id f now) r g) w

  pub snooze-KindsFit :
      (db : Db) (id : ℕ) (until : Option Instant) (now : Instant) (r : Db × ThreadRow)
      → snooze_thread texts db id until now ≡ ok r
      → KindsFit db.threads
      → KindsFit r.0.threads
  unfolding snooze_thread
  snooze-KindsFit db id until now r h w =
      let f : ThreadRow → ThreadRow = λ u. record u { snoozed_until = until } in
      let (t, e, g) =
        and_then-ok (get_thread db id) (λ t. write_and_refresh texts db id f now) r h in
      write_and_refresh-KindsFit db id f now r
        (record { id = λ t. refl; parent = λ t. refl; kind = λ t. refl }) g w

present_row :
    (j : ℕ) (rows : List ThreadRow)
    → any (λ t. t.id == j) rows ≡ true
    → (p : ThreadRow) × (find_row j rows ≡ some p)
present_row j [] h = cc
present_row j (t ∷ rest) h = elim (Bool-cases (t.id == j)) [
  | inl q ↦ (t, rw q refl)
  | inr q ↦ let (p, e) = present_row j rest (ground arith) in (p, rw q e)
]

-- The row that an INSERT appends fits under its parent.
pub insert-KindsFit :
    (db : Db) (new : ℕ → ThreadRow) (r : Db × ℕ)
    → insert_thread db new ≡ ok r
    → KindsFit db.threads
    → KindsFit r.0.threads
unfolding insert_thread
insert-KindsFit db new r h w =
    let row = new (suc db.last_thread_id) in
    let left : db.threads ++ row ∷ [] ≡ r.0.threads = ground arith in
    let fits : (not (is_task_at db row.parent_thread_id && not (is_task row.kind))) ≡ true =
      ground arith in
    let known : parent_exists db row.parent_thread_id ≡ true = ground arith in
    subst KindsFit left (
      append-KindsFit db.threads row w (λ j q.
        under row j (subst (λ o. parent_exists db o ≡ true) q known)
          (subst (λ o. (not (is_task_at db o && not (is_task row.kind))) ≡ true) q fits)))
  where
    under :
        (row : ThreadRow) (j : ℕ)
        → parent_exists db (some j) ≡ true
        → not (is_task_at db (some j) && not (is_task row.kind)) ≡ true
        → (p : ThreadRow) × (find_row j db.threads ≡ some p)
          × (is_task p.kind ≡ true → is_task row.kind ≡ true)
    under row j c g =
        let (p, q) = present_row j db.threads c in
        (p, q, λ k. let up : is_task_at db (some j) ≡ true = ap is_task_row q ∙ k in ground arith)

module _ (texts : TurnTexts) (rules : ThreadTexts) where
  pub update_thread-KindsFit :
      (db : Db) (id : ℕ) (title description : Option String) (instrument : Option (Option Json))
      (needs : Option ThreadAttention) (now : Instant) (r : Db × ThreadRow)
      → update_thread texts rules db id title description instrument needs now ≡ ok r
      → KindsFit db.threads
      → KindsFit r.0.threads
  unfolding update_thread
  update_thread-KindsFit db id title description instrument needs now r h w =
      let f = with_texts title description instrument needs in
      let keeps : KeepsKind f = record { id = λ t. refl; parent = λ t. refl; kind = λ t. refl } in
      let (t, e, g) =
        and_then-ok
          (when_given rules.validate_instrument instrument
            >> when_given (validate_thread_title rules) title
            >> when_given (validate_thread_description rules) description
            >> get_thread db id)
          (λ t.
            if is_set needs then write_and_refresh texts db id f now else write_thread db id f now)
          r h in
      elim (Bool-cases (is_set needs)) [
        | inl y ↦ write_and_refresh-KindsFit texts db id f now r keeps (ground arith) w
        | inr y ↦ write_thread-KindsFit db id f now r keeps (ground arith) w
      ]

  pub create_found-KindsFit :
      (db : Db) (o : Option ThreadRow) (n : NewThread) (now : Instant) (r : Db × (ThreadRow × Bool))
      → create_found texts rules db o n now ≡ ok r
      → KindsFit db.threads
      → KindsFit r.0.threads
  unfolding create_found create_again
  create_found-KindsFit db (some t) n now r h w =
      let same : db ≡ r.0 = ground arith in same_fit db r.0 same w
  create_found-KindsFit db none n now r h w =
      let refreshed : Db → ThreadRow → Result (Db × (ThreadRow × Bool)) =
        λ d t. and_then (refresh_from texts d t.id now) (λ a. ok (a.0, (t, true))) in
      let shown : Db × ℕ → Result (Db × (ThreadRow × Bool)) =
        λ i. and_then (get_thread i.0 i.1) (refreshed i.0) in
      let insert = insert_thread db (new_thread n (rules.trim_title n.title) now) in
      let (parent, e, g) =
        and_then-ok (check_parent db n.parent_thread_id) (λ p. and_then insert shown) r h in
      let (i, e1, g1) = and_then-ok insert shown r g in
      let (t, e2, g2) = and_then-ok (get_thread i.0 i.1) (refreshed i.0) r g1 in
      let (a, e3, g3) =
        and_then-ok (refresh_from texts i.0 t.id now) (λ a. ok (a.0, (t, true))) r g2 in
      let same : a.0 ≡ r.0 = ground arith in
      same_fit a.0 r.0 same (
        SameKinds-KindsFit i.0.threads a.0.threads
          (SameShape-SameKinds i.0.threads a.0.threads
            (refresh_from-SameShape texts i.0 t.id now a e3))
          (insert-KindsFit db (new_thread n (rules.trim_title n.title) now) i e1 w))
