-- ===== src/Host/Threads/Writes.antt =====
-- The changes of single rows in crates/hirsel-host/src/storage/threads.rs keep the kinds fitting.
use hirsel.Base.{
  ℕ, String, ◌≡◌, refl, sym, ap, ◌∙◌, subst, Bool, false, not, Option, none, some, arith, ◌==◌,
  ==_iff, Bool-cases, inl, inr, nat_eq, if◌then◌else◌, find-sat,
}
use hirsel.Proto.{Instant, ThreadKind}
use hirsel.Host.Tables.{
  ThreadRow, Db, Result, ok, err, and_then, ensure, failed, ◌>>◌, find_thread_row, row_of,
}
use hirsel.Host.Granted.{and_then-ok}
use hirsel.Host.Scope.{validate_history}
use hirsel.Host.Turns.Rows.{is_set, update_row, get_thread}
use hirsel.Host.Threads.Rules.{
  ThreadTexts, is_task, is_task_row, is_task_at, same_kind, when_given, validate_thread_title,
  validate_thread_description,
}
use hirsel.Host.Threads.Edit.{
  bumped, write_row, write_thread, set_thread_field, pinned_row, pin_thread, with_kind, check_above,
  check_space, change_kind, set_addressed_thread_kind, with_own_texts, update_addressed_thread_text,
}
use hirsel.Host.Threads.Kinds.{
  KindsFit, SameKinds-KindsFit, KeepsKind, update_row-SameKinds, kind-KindsFit,
}

pub after_check : {B : Type 0} (r : Result Unit) (k : Result B) (b : B) → (r >> k) ≡ ok b → k ≡ ok b
after_check (ok u) k b h = h
after_check (err e) k b h = cc

pub same_fit : (db d : Db) → db ≡ d → KindsFit db.threads → KindsFit d.threads
same_fit db d e w = subst (λ (x : Db). KindsFit x.threads) e w

pub write_row-KindsFit :
    (db : Db) (id : ℕ) (f : ThreadRow → ThreadRow) (now : Instant)
    → KeepsKind f
    → KindsFit db.threads
    → KindsFit (write_row db id f now).threads
write_row-KindsFit db id f now k w =
    SameKinds-KindsFit db.threads (update_row id (λ t. bumped now (f t)) db.threads)
      (update_row-SameKinds id (λ t. bumped now (f t)) db.threads
        (record { id = k.id; parent = k.parent; kind = k.kind }))
      w

-- What a write leaves, if the row is there
pub write_thread-db :
    (db : Db) (id : ℕ) (f : ThreadRow → ThreadRow) (now : Instant) (r : Db × ThreadRow)
    → write_thread db id f now ≡ ok r
    → (write_row db id f now ≡ r.0) × (find_thread_row r.0 id ≡ some r.1)
unfolding write_thread get_thread
write_thread-db db id f now r h =
    let (t, e, k) =
      and_then-ok (row_of (find_thread_row (write_row db id f now) id))
        (λ t. ok (write_row db id f now, t)) r h in
    found (find_thread_row (write_row db id f now) id) refl t e (ground arith) (ground arith)
  where
    found :
        (o : Option ThreadRow)
        → find_thread_row (write_row db id f now) id ≡ o
        → (t : ThreadRow) → row_of o ≡ ok t
        → write_row db id f now ≡ r.0
        → t ≡ r.1
        → (write_row db id f now ≡ r.0) × (find_thread_row r.0 id ≡ some r.1)
    found none q t e a b = cc
    found (some u) q t e a b =
        (a, ap (λ (x : Db). find_thread_row x id) (sym a) ∙ q ∙ ap some (ground arith ∙ b))

pub write_thread-KindsFit :
    (db : Db) (id : ℕ) (f : ThreadRow → ThreadRow) (now : Instant) (r : Db × ThreadRow)
    → KeepsKind f
    → write_thread db id f now ≡ ok r
    → KindsFit db.threads
    → KindsFit r.0.threads
write_thread-KindsFit db id f now r k h w =
    same_fit (write_row db id f now) r.0 (write_thread-db db id f now r h).0
      (write_row-KindsFit db id f now k w)

pub set_field-KindsFit :
    (db : Db) (id : ℕ) (f : ThreadRow → ThreadRow) (now : Instant) (r : Db × ThreadRow)
    → KeepsKind f
    → set_thread_field db id f now ≡ ok r
    → KindsFit db.threads
    → KindsFit r.0.threads
unfolding set_thread_field
set_field-KindsFit db id f now r k h w =
    let (t, e, g) = and_then-ok (get_thread db id) (λ t. write_thread db id f now) r h in
    write_thread-KindsFit db id f now r k g w

pub pin_thread-KindsFit :
    (db : Db) (id : ℕ) (pin : Bool) (now : Instant) (r : Db × ThreadRow)
    → pin_thread db id pin now ≡ ok r
    → KindsFit db.threads
    → KindsFit r.0.threads
unfolding pin_thread
pin_thread-KindsFit db id pin now r h w =
    let write = write_thread db id (pinned_row pin now) now in
    let top : ThreadRow → Result Unit = λ t.
      ensure (not (is_set t.parent_thread_id))
        (failed "only top-level Threads can be pinned or unpinned") in
    let (t, e, g) = and_then-ok (get_thread db id) (λ t. top t >> write) r h in
    write_thread-KindsFit db id (pinned_row pin now) now r
      (record { id = λ t. refl; parent = λ t. refl; kind = λ t. refl })
      (after_check (top t) write r g) w

check_above-task :
    (db : Db) (parent : Option ℕ) → check_above db parent ≡ ok tt → is_task_at db parent ≡ false
unfolding check_above get_thread
check_above-task db none h = refl
check_above-task db (some j) h = row (find_thread_row db j) refl h
  where
    row :
        (o : Option ThreadRow)
        → find_thread_row db j ≡ o
        → and_then
            (row_of o)
            (λ t. ensure (not (is_task t.kind)) (failed "a Task parent can only contain Tasks"))
          ≡ ok tt
        → is_task_row (find_thread_row db j) ≡ false
    row none q h = cc
    row (some p) q h = let k : is_task p.kind ≡ false = ground arith in ap is_task_row q ∙ k

pub change_kind-KindsFit :
    (db : Db) (c : ThreadRow) (kind : ThreadKind) (now : Instant) (r : Db × ThreadRow)
    → find_thread_row db c.id ≡ some c
    → change_kind db c kind now ≡ ok r
    → KindsFit db.threads
    → KindsFit r.0.threads
change_kind-KindsFit db c ThreadKind.task now r found h w =
    let write = write_thread db c.id (with_kind ThreadKind.task) now in
    let left = write_thread-db db c.id (with_kind ThreadKind.task) now r (ground arith) in
    same_fit (write_row db c.id (with_kind ThreadKind.task) now) r.0 left.0 (
      kind-KindsFit db.threads c.id c (λ t. bumped now (with_kind ThreadKind.task t)) found
        (λ t. refl) (λ t. refl) (λ k. ground arith) (λ k. absurd (ground arith)) w)
change_kind-KindsFit db c ThreadKind.space now r found h w =
    let write = write_thread db c.id (with_kind ThreadKind.space) now in
    let (u, passed, wrote) = and_then-ok (check_space db c) (λ _. write) r h in
    let open_task =
      ensure (not (is_set c.settled_at))
        (failed "reopen a settled Task before converting it to a Space") in
    let above = after_check open_task (check_above db c.parent_thread_id) u passed in
    let left = write_thread-db db c.id (with_kind ThreadKind.space) now r wrote in
    same_fit (write_row db c.id (with_kind ThreadKind.space) now) r.0 left.0 (
      kind-KindsFit db.threads c.id c (λ t. bumped now (with_kind ThreadKind.space t)) found
        (λ t. refl) (λ t. refl) (λ k. absurd (ground arith))
        (λ k j e.
          let outside = check_above-task db c.parent_thread_id above in
          ap (is_task_at db) (sym e) ∙ outside)
        w)

pub row_found : (o : Option ThreadRow) (c : ThreadRow) → row_of o ≡ ok c → o ≡ some c
row_found none c h = cc
row_found (some u) c h = ground arith

pub set_kind-KindsFit :
    (db : Db) (history : String) (id : ℕ) (kind : ThreadKind) (revision : ℕ) (now : Instant)
    (r : Db × ThreadRow)
    → set_addressed_thread_kind db history id kind revision now ≡ ok r
    → KindsFit db.threads
    → KindsFit r.0.threads
unfolding set_addressed_thread_kind get_thread
set_kind-KindsFit db history id kind revision now r h w =
    let fenced : ThreadRow → Result Unit = λ c.
      ensure (c.revision == revision)
        (failed "Thread changed; reload it before changing its kind") in
    let after : ThreadRow → Result (Db × ThreadRow) =
      λ c. if same_kind c.kind kind then ok (db, c) else change_kind db c kind now in
    let (c, e, g) =
      and_then-ok (validate_history db history >> row_of (find_thread_row db id))
        (λ c. fenced c >> after c) r h in
    let found =
      row_found (find_thread_row db id) c
        (after_check (validate_history db history) (row_of (find_thread_row db id)) c e) in
    let there : find_thread_row db c.id ≡ some c =
      ap (find_thread_row db) ((==_iff c.id id).0 (find-sat (λ t. t.id == id) db.threads c found))
      ∙ found in
    let k = after_check (fenced c) (after c) r g in
    elim (Bool-cases (same_kind c.kind kind)) [
      | inl y ↦
          let same : (db, c) ≡ r = ground arith in
          same_fit db r.0 (ap (λ (x : Db × ThreadRow). x.0) same) w
      | inr y ↦ change_kind-KindsFit db c kind now r there (ground arith) w
    ]

pub update_text-KindsFit :
    (rules : ThreadTexts) (db : Db) (history : String) (id : ℕ) (title description : Option String)
    (revision : ℕ) (now : Instant) (r : Db × ThreadRow)
    → update_addressed_thread_text rules db history id title description revision now ≡ ok r
    → KindsFit db.threads
    → KindsFit r.0.threads
unfolding update_addressed_thread_text
update_text-KindsFit rules db history id title description revision now r h w =
    let f = with_own_texts rules title description in
    let fenced : ThreadRow → Result Unit =
      λ c. ensure (c.revision == revision) (failed "thread changed; reload before updating it") in
    let (c, e, g) =
      and_then-ok
        (when_given (validate_thread_title rules) title
          >> when_given (validate_thread_description rules) description
          >> validate_history db history
          >> get_thread db id)
        (λ c. fenced c >> write_thread db id f now) r h in
    write_thread-KindsFit db id f now r
      (record { id = λ t. refl; parent = λ t. refl; kind = λ t. refl })
      (after_check (fenced c) (write_thread db id f now) r g) w
