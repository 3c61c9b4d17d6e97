-- ===== src/Host/Granted.antt =====
-- What `grant` leaves of the tables of crates/hirsel-host/src/storage/thread_grants.rs.
use hirsel.Base.{
  ℕ, suc, String, ◌≡◌, refl, ◌∙◌, ap, subst, true, false, ◌&&◌, Bool, ◌⊎◌, inl, inr, Option, none,
  some, List, [], ◌∷◌, ◌++◌, arith, if◌then◌else◌, nat_eq, ==_iff, ◌==◌, ltb, Bool-cases, any,
  any-append, opt_beq, update_first, length, string_eq,
}
use hirsel.Proto.{Instant, ThreadGrantSource, ReachTarget}
use hirsel.Host.Tables.{ThreadRow, GrantRow, Db, Error, Result, ok, err, and_then}
use hirsel.Host.Scope.{down_edges, holds_root}
use hirsel.Host.Grants.{
  Texts, ThreadGrants, validate_target, normalized_note, insert_grant, grant, advance, snapshot,
  with_snapshot, rows_of, max_grants, target_column, key_of, is_grant_of,
}
use hirsel.Host.Reach.{is_tree}

pub and_then-ok :
    {A B : Type 0} (r : Result A) (f : A → Result B) (b : B)
    → and_then r f ≡ ok b
    → (a : A) × (r ≡ ok a) × (f a ≡ ok b)
and_then-ok (ok a) f b h = (a, refl, h)
and_then-ok (err e) f b h = cc

-- The same tree, whatever the other columns hold.
pub record SameTree (rows rows' : List ThreadRow) : Type 0 where
  pub edges : down_edges rows' ≡ down_edges rows
  pub tree : is_tree rows' ≡ is_tree rows
  pub has : (id : ℕ) → any (λ t. t.id == id) rows' ≡ any (λ t. t.id == id) rows

advance-SameTree :
    (id : ℕ) (now : Instant) (rows : List ThreadRow)
    → SameTree rows (
        update_first
          (λ t. t.id == id)
          (λ t. record t { revision = suc t.revision; updated_at = now })
          rows)
unfolding down_edges
advance-SameTree id now [] = record { edges = refl; tree = refl; has = λ i. refl }
advance-SameTree id now (t ∷ rest) =
    let more = advance-SameTree id now rest in
    let e = more.edges in
    let w = more.tree in
    record { edges = ground arith; tree = ground arith; has = λ i. ground (arith, more.has i) }

abbrev pub has_grant : ℕ → ℕ → Db → Bool
has_grant c r db =
    any (λ g. g.thread_id == c && opt_beq g.target_thread_id (some r)) db.thread_grants

-- What `grant` leaves: the same tree, and one row more at most.
pub record Granted (db db' : Db) (thread_id : ℕ) (target : Option ℕ) : Type 0 where
  pub same : SameTree db.threads db'.threads
  pub root :
      (c : ℕ)
      → holds_root db' c ≡ true
      → (holds_root db c ≡ true) ⊎ ((c ≡ thread_id) × (target ≡ none))
  pub one :
      (c r : ℕ)
      → has_grant c r db' ≡ true
      → (has_grant c r db ≡ true) ⊎ ((c ≡ thread_id) × (target ≡ some r))
  pub root_kept : (c : ℕ) → holds_root db c ≡ true → holds_root db' c ≡ true
  pub one_kept : (c r : ℕ) → has_grant c r db ≡ true → has_grant c r db' ≡ true

abbrev pushed : Db → ℕ → Option ℕ → ThreadGrantSource → Option String → Instant → Db
pushed db thread_id stored source note now = record db {
  thread_grants =
      db.thread_grants
      ++ record {
        thread_id = thread_id;
        target_thread_id = stored;
        granted_by = source;
        granted_at = now;
        note = note;
      }
        ∷ [];
}

Granted-refl : (db : Db) (t : ℕ) (target : Option ℕ) → Granted db db t target
Granted-refl db t target = record {
  same = record { edges = refl; tree = refl; has = λ i. refl };
  root = λ c h. inl h;
  one = λ c r h. inl h;
  root_kept = λ c h. h;
  one_kept = λ c r h. h;
}

opt_same : (a b : Option ℕ) → opt_beq a b ≡ true → a ≡ b
opt_same none none h = refl
opt_same (some a) (some b) h = ap some ((==_iff a b).0 h)
opt_same none (some b) h = cc
opt_same (some a) none h = cc

-- One row more, at the end.
push-any :
    (c : ℕ) (o : Option ℕ) (grants : List GrantRow) (g : GrantRow)
    → any (λ x. x.thread_id == c && opt_beq x.target_thread_id o) (grants ++ g ∷ []) ≡ true
    → (any (λ x. x.thread_id == c && opt_beq x.target_thread_id o) grants ≡ true)
      ⊎ ((c ≡ g.thread_id) × (g.target_thread_id ≡ o))
push-any c o grants g h =
    elim (Bool-cases (any (λ x. x.thread_id == c && opt_beq x.target_thread_id o) grants)) [
      | inl q ↦ inl q
      | inr q ↦
          let split =
            any-append (λ (x : GrantRow). x.thread_id == c && opt_beq x.target_thread_id o) grants
              (g ∷ []) in
          inr (
            ground (arith, split, ==_iff g.thread_id c),
            opt_same g.target_thread_id o (ground (arith, split)),
          )
    ]

Granted-push :
    (db : Db) (t : ℕ) (target : Option ℕ) (source : ThreadGrantSource) (note : Option String)
    (now : Instant)
    → Granted db (advance (pushed db t target source note now) t now) t target
unfolding advance holds_root
Granted-push db t target source note now = record {
  same = advance-SameTree t now db.threads;
  root = λ c h. push-any c none db.thread_grants _ h;
  one = λ c r h. push-any c (some r) db.thread_grants _ h;
  root_kept = λ c h. ground (
    arith,
    any-append (λ (x : GrantRow). x.thread_id == c && opt_beq x.target_thread_id none)
        db.thread_grants
        (record {
          thread_id = t;
          target_thread_id = target;
          granted_by = source;
          granted_at = now;
          note = note;
        }
          ∷ []),
  );
  one_kept = λ c r h. ground (
    arith,
    any-append (λ (x : GrantRow). x.thread_id == c && opt_beq x.target_thread_id (some r))
        db.thread_grants
        (record {
          thread_id = t;
          target_thread_id = target;
          granted_by = source;
          granted_at = now;
          note = note;
        }
          ∷ []),
  );
}

if_ok :
    (p q : Bool) (a b c : Db) (e : Error)
    → (if p then ok a else (if q then ok b else err e)) ≡ ok c
    → (a ≡ c) ⊎ (b ≡ c)
if_ok true q a b c e h = inl cc
if_ok false true a b c e h = inr cc
if_ok false false a b c e h = cc

pub insert_grant-cases :
    (db db' : Db) (t : ℕ) (target : Option ℕ) (source : ThreadGrantSource) (note : Option String)
    (now : Instant)
    → insert_grant db t target source note now ≡ ok db'
    → (db ≡ db') ⊎ (advance (pushed db t target source note now) t now ≡ db')
unfolding insert_grant
insert_grant-cases db db' t target source remark now h =
    if_ok (any (is_grant_of t (key_of target)) db.thread_grants)
      (ltb (length (rows_of t db.thread_grants)) max_grants) db _ db' _ h

insert_grant-Granted :
    (db db' : Db) (t : ℕ) (target : Option ℕ) (source : ThreadGrantSource) (note : Option String)
    (now : Instant)
    → insert_grant db t target source note now ≡ ok db'
    → Granted db db' t target
insert_grant-Granted db db' t target source note now h =
    elim (insert_grant-cases db db' t target source note now h) [
      | inl e ↦ subst (λ d. Granted db d t target) e (Granted-refl db t target)
      | inr e ↦ subst (λ d. Granted db d t target) e (Granted-push db t target source note now)
    ]

pub with_snapshot-db :
    (d : Db) (t : ℕ) (db' : Db) (s : ThreadGrants) → with_snapshot d t ≡ ok (db', s) → d ≡ db'
with_snapshot-db d t db' s h =
    let (s', _, e) = and_then-ok (snapshot d t) (λ s. ok (d, s)) (db', s) h in cc

-- The tables that an accepted grant shows are those that `insert_grant` left.
pub grant-inner :
    (texts : Texts) (db : Db) (t : ℕ) (target : ReachTarget) (source : ThreadGrantSource)
    (note : Option String) (now : Instant) (db' : Db) (s : ThreadGrants)
    → grant texts db t target source note now ≡ ok (db', s)
    → (n : Option String) × (d : Db) × (insert_grant db t (target_column target) source n now
        ≡ ok d)
      × (with_snapshot d t ≡ ok (db', s))
unfolding grant
grant-inner texts db t target source note now db' s h =
    let show : Db → Result (Db × ThreadGrants) = λ d. with_snapshot d t in
    let put : Option String → Result (Db × ThreadGrants) =
      λ n. and_then (insert_grant db t (target_column target) source n now) show in
    let (_, _, h1) =
      and_then-ok (validate_target db t target) (λ _. and_then (normalized_note texts note) put)
        (db', s) h in
    let (n, _, h2) = and_then-ok (normalized_note texts note) put (db', s) h1 in
    let (d, e, h3) =
      and_then-ok (insert_grant db t (target_column target) source n now) show (db', s) h2 in
    (n, d, e, h3)

-- A grant that is accepted adds its row to the tables that it was given, or finds it there.
pub grant-Granted :
    (texts : Texts) (db : Db) (t : ℕ) (target : ReachTarget) (source : ThreadGrantSource)
    (note : Option String) (now : Instant) (db' : Db) (s : ThreadGrants)
    → grant texts db t target source note now ≡ ok (db', s)
    → Granted db db' t (target_column target)
grant-Granted texts db t target source note now db' s h =
    let (n, d, e, k) = grant-inner texts db t target source note now db' s h in
    insert_grant-Granted db db' t (target_column target) source n now
      (e ∙ ap ok (with_snapshot-db d t db' s k))
