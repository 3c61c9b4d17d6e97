-- ===== src/Host/Turns/Climb.antt =====
-- The loop that refreshes headlines up the ancestors ends, and leaves the tree of Threads and what is
-- archived as they were (crates/hirsel-host/src/thread_rollups.rs).
use hirsel.Base.{
  ℕ, zero, suc, ◌<◌, ◌≡◌, refl, ap, sym, ◌∙◌, subst, String, Bool, true, false, Option, none, some,
  List, [], ◌∷◌, arith, ◌==◌, str_eq, find, Bool-cases, inl, inr,
}
use hirsel.Proto.{ThreadKind, Instant}
use hirsel.Host.Tables.{ThreadRow, Db, Result, ok, and_then, row_of, find_thread_row}
use hirsel.Host.Granted.{and_then-ok}
use hirsel.Host.Rollups.{Child, aggregate, most_urgent}
use hirsel.Host.Turns.Texts.{TurnTexts}
use hirsel.Host.Turns.Headlines.{
  headline, headline_or, descendants, replace, refresh_parent, climb_to, climb, refresh_from,
  new_headline, note_changed,
}
use hirsel.Host.Turns.Rows.{update_row}

abbrev pub find_row : ℕ → List ThreadRow → Option ThreadRow
find_row id rows = find (λ t. t.id == id) rows

-- What a refresh keeps of a row
abbrev pub kept_columns : Option ThreadRow → Option (Option ℕ × (Option Instant × ThreadKind))
kept_columns none = none
kept_columns (some t) = some (t.parent_thread_id, (t.archived_at, t.kind))

abbrev pub SameShape : List ThreadRow → List ThreadRow → Type 0
SameShape rows rows' = (id : ℕ) → kept_columns (find_row id rows) ≡ kept_columns (find_row id rows')

update-SameShape :
    (k : ℕ) (next : String) (now : Instant) (rows : List ThreadRow)
    → SameShape rows (update_row k (new_headline next now) rows)
update-SameShape k next now [] id = refl
update-SameShape k next now (t ∷ rest) id = ground (arith, update-SameShape k next now rest id)

replace-SameShape :
    (db : Db) (k : ℕ) (next : String) (now : Instant) (r : Db × Bool)
    → replace db k next now ≡ ok r
    → SameShape db.threads r.0.threads
unfolding replace
replace-SameShape db k next now (d, b) h = found (find_thread_row db k) refl
  where
    found : (o : Option ThreadRow) → find_thread_row db k ≡ o → SameShape db.threads d.threads
    found none e = absurd (ground arith)
    found (some t) e = elim (Bool-cases (str_eq t.headline next)) [
      | inl q ↦
          let same : db ≡ d = ground arith in
          subst (λ (x : Db). SameShape db.threads x.threads) same (λ id. refl)
      | inr q ↦
          let same : update_row k (new_headline next now) db.threads ≡ d.threads = ground arith in
          subst (SameShape db.threads) same (update-SameShape k next now db.threads)
    ]

module _ (texts : TurnTexts) where
  pub refresh_parent-SameShape :
      (db : Db) (parent : ℕ) (now : Instant) (r : Db × Bool)
      → refresh_parent texts db parent now ≡ ok r
      → SameShape db.threads r.0.threads
  unfolding refresh_parent
  refresh_parent-SameShape db parent now r h =
      let (next, e, k) =
        and_then-ok (headline texts db parent) (λ next. replace db parent next now) r h in
      replace-SameShape db parent next now r k

  climb_to-SameShape :
      (rest : Db → ℕ → Result (Db × List ℕ)) (db : Db) (now : Instant) (o : Option ℕ)
      (r : Db × List ℕ)
      → ((d : Db) (p : ℕ) (r : Db × List ℕ) → rest d p ≡ ok r → SameShape d.threads r.0.threads)
      → climb_to texts rest db now o ≡ ok r
      → SameShape db.threads r.0.threads
  unfolding climb_to
  climb_to-SameShape rest db now none r more h =
      let same : db ≡ r.0 = ground arith in
      subst (λ (x : Db). SameShape db.threads x.threads) same (λ id. refl)
  climb_to-SameShape rest db now (some parent) r more h =
      let after : Db × Bool → Result (Db × List ℕ) =
        λ one. and_then (rest one.0 parent) (λ m. ok (m.0, note_changed parent one.1 m.1)) in
      let (one, e, k) = and_then-ok (refresh_parent texts db parent now) after r h in
      let (m, e', k') =
        and_then-ok (rest one.0 parent) (λ m. ok (m.0, note_changed parent one.1 m.1)) r k in
      let same : m.0 ≡ r.0 = ground arith in
      λ id.
        refresh_parent-SameShape db parent now one e id
        ∙ more one.0 parent m e' id
        ∙ ap (λ (x : Db). kept_columns (find_row id x.threads)) same

  climb-SameShape :
      (fuel : ℕ) (db : Db) (current : ℕ) (now : Instant) (r : Db × List ℕ)
      → climb texts fuel db current now ≡ ok r
      → SameShape db.threads r.0.threads
  unfolding climb
  climb-SameShape zero db current now r h = cc
  climb-SameShape (suc fuel) db current now r h =
      let rest : Db → ℕ → Result (Db × List ℕ) = λ d p. climb texts fuel d p now in
      let (t, e, k) =
        and_then-ok (row_of (find_thread_row db current))
          (λ t. climb_to texts rest db now t.parent_thread_id) r h in
      climb_to-SameShape rest db now t.parent_thread_id r (λ d p s. climb-SameShape fuel d p now s)
        k

  pub refresh_from-SameShape :
      (db : Db) (id : ℕ) (now : Instant) (r : Db × List ℕ)
      → refresh_from texts db id now ≡ ok r
      → SameShape db.threads r.0.threads
  unfolding refresh_from
  refresh_from-SameShape db id now r h = climb-SameShape (suc id) db id now r h

-- A parent is a row, and older than its child.
abbrev pub IsRooted : List ThreadRow → Type 0
IsRooted rows =
    (id p : ℕ) (t : ThreadRow)
    → find_row id rows ≡ some t
    → t.parent_thread_id ≡ some p
    → (p < id) × ((u : ThreadRow) × (find_row p rows ≡ some u))

-- A row of the one table has its row in the other.
pub shape_row :
    (rows rows' : List ThreadRow) (id : ℕ) (t : ThreadRow)
    → SameShape rows rows'
    → find_row id rows ≡ some t
    → (u : ThreadRow) × (find_row id rows' ≡ some u)
      × (u.parent_thread_id ≡ t.parent_thread_id)
      × (u.archived_at ≡ t.archived_at)
shape_row rows rows' id t s h = found (find_row id rows') refl
  where
    found :
        (o : Option ThreadRow)
        → find_row id rows' ≡ o
        → (u : ThreadRow) × (find_row id rows' ≡ some u)
          × (u.parent_thread_id ≡ t.parent_thread_id)
          × (u.archived_at ≡ t.archived_at)
    found none e = absurd (ground (arith, s id))
    found (some u) e = (u, e, ground (arith, s id), ground (arith, s id))

IsRooted-shape :
    (rows rows' : List ThreadRow) → SameShape rows rows' → IsRooted rows → IsRooted rows'
IsRooted-shape rows rows' s w id p t h e =
    let (u, f, same, _) = shape_row rows' rows id t (λ i. sym (s i)) h in
    let (l, (v, g)) = w id p u f (same ∙ e) in
    let (v', g', _, _) = shape_row rows rows' p v s g in (l, (v', g'))

module _ (texts : TurnTexts) where
  headline-total :
      (db : Db) (parent : ℕ) (t : ThreadRow)
      → find_row parent db.threads ≡ some t
      → (s : String) × (headline texts db parent ≡ ok s)
  unfolding headline
  headline-total db parent t h =
      let children = aggregate [] (descendants texts db parent db.threads) in
      chosen children (most_urgent children)
    where
      chosen :
          (children : List Child) (o : Option Child)
          → (s : String) × (headline_or texts db parent children o ≡ ok s)
      chosen children none = (t.own_headline, ground arith)
      chosen children (some c) = (_, refl)

  refresh_parent-total :
      (db : Db) (parent : ℕ) (now : Instant) (t : ThreadRow)
      → find_row parent db.threads ≡ some t
      → (r : Db × Bool) × (refresh_parent texts db parent now ≡ ok r)
  unfolding refresh_parent replace
  refresh_parent-total db parent now t h =
      let (s, e) = headline-total db parent t h in
      elim (Bool-cases (str_eq t.headline s)) [
        | inl q ↦ ((db, false), rw e (rw h (rw q refl)))
        | inr q ↦ (
          (record db { threads = update_row parent (new_headline s now) db.threads }, true),
          rw e (rw h (rw q refl)),
        )
      ]

  climb_to-total :
      (rest : Db → ℕ → Result (Db × List ℕ)) (db : Db) (now : Instant) (id : ℕ) (o : Option ℕ)
      (t : ThreadRow)
      → find_row id db.threads ≡ some t
      → t.parent_thread_id ≡ o
      → IsRooted db.threads
      → ((d : Db) (p : ℕ) (u : ThreadRow)
          → find_row p d.threads ≡ some u
          → p < id
          → IsRooted d.threads
          → (r : Db × List ℕ) × (rest d p ≡ ok r))
      → (r : Db × List ℕ) × (climb_to texts rest db now o ≡ ok r)
  unfolding climb_to
  climb_to-total rest db now id none t h e w more = ((db, []), refl)
  climb_to-total rest db now id (some p) t h e w more =
      let (l, (u, g)) = w id p t h e in
      let (one, k) = refresh_parent-total db p now u g in
      let s = refresh_parent-SameShape texts db p now one k in
      let (u', g', _, _) = shape_row db.threads one.0.threads p u s g in
      let (m, k') = more one.0 p u' g' l (IsRooted-shape db.threads one.0.threads s w) in
      ((m.0, note_changed p one.1 m.1), rw k (rw k' refl))

  climb-total :
      (fuel : ℕ) (db : Db) (id : ℕ) (now : Instant) (t : ThreadRow)
      → find_row id db.threads ≡ some t
      → id < fuel
      → IsRooted db.threads
      → (r : Db × List ℕ) × (climb texts fuel db id now ≡ ok r)
  unfolding climb
  climb-total zero db id now t h l w = elim l [ ]
  climb-total (suc fuel) db id now t h l w =
      let rest : Db → ℕ → Result (Db × List ℕ) = λ d p. climb texts fuel d p now in
      let (r, k) =
        climb_to-total rest db now id t.parent_thread_id t h refl w
          (λ d p u g l' w'. climb-total fuel d p now u g (omega arith) w') in
      (r, rw h k)

  -- A refresh from a Thread that exists, in a table where each parent is an older row, ends with a
  -- result: the climb never runs out of fuel and no query misses a row. Afterwards each Thread has
  -- the parent that it had and is archived exactly when it was.
  pub refresh_from-total :
      (db : Db) (id : ℕ) (now : Instant) (t : ThreadRow)
      → find_row id db.threads ≡ some t
      → IsRooted db.threads
      → (r : Db × List ℕ) × (refresh_from texts db id now ≡ ok r) × SameShape db.threads r.0.threads
  unfolding refresh_from
  refresh_from-total db id now t h w =
      let (r, k) = climb-total (suc id) db id now t h (omega arith) w in
      (r, k, climb-SameShape texts (suc id) db id now r k)
