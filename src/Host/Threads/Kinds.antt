-- ===== src/Host/Threads/Kinds.antt =====
-- Tasks hold Tasks alone: what the triggers on threads (current.sql) and the checks of
-- crates/hirsel-host/src/storage/threads.rs keep.
use hirsel.Base.{
  ℕ, ◌≡◌, refl, sym, ap, ◌∙◌, subst, true, false, Option, none, some, List, [], ◌∷◌, ◌++◌, arith,
  ◌==◌, ==_iff, find-push, Bool-cases, inl, inr, nat_eq, ◌⊎◌, opt_beq,
}
use hirsel.Proto.{ThreadKind}
use hirsel.Host.Tables.{ThreadRow}
use hirsel.Host.Turns.Rows.{update_row}
use hirsel.Host.Turns.Climb.{find_row, kept_columns, SameShape}
use hirsel.Host.Threads.Rules.{is_task, is_task_row, has_space_child}

-- Each parent is a row, and the children of a Task are Tasks.
abbrev pub KindsFit : List ThreadRow → Type 0
KindsFit rows =
    (i j : ℕ) (t : ThreadRow)
    → find_row i rows ≡ some t
    → t.parent_thread_id ≡ some j
    → (p : ThreadRow) × (find_row j rows ≡ some p) × (is_task p.kind ≡ true → is_task t.kind ≡ true)

abbrev pub kind_columns : Option ThreadRow → Option (Option ℕ × ThreadKind)
kind_columns none = none
kind_columns (some t) = some (t.parent_thread_id, t.kind)

abbrev pub SameKinds : List ThreadRow → List ThreadRow → Type 0
SameKinds rows rows' = (id : ℕ) → kind_columns (find_row id rows) ≡ kind_columns (find_row id rows')

record Twin (o : Option ThreadRow) (t : ThreadRow) : Type 0 where
  row : ThreadRow
  there : o ≡ some row
  parent : row.parent_thread_id ≡ t.parent_thread_id
  kind : row.kind ≡ t.kind

twin : (o : Option ThreadRow) (t : ThreadRow) → kind_columns o ≡ kind_columns (some t) → Twin o t
twin none t h = absurd (ground arith)
twin (some u) t h = record { row = u; there = refl; parent = ground arith; kind = ground arith }

pub SameKinds-KindsFit :
    (rows rows' : List ThreadRow) → SameKinds rows rows' → KindsFit rows → KindsFit rows'
SameKinds-KindsFit rows rows' s w i j t h e =
    let u = twin (find_row i rows) t (s i ∙ ap kind_columns h) in
    let (p, found, fits) = w i j u.row u.there (u.parent ∙ e) in
    let q = twin (find_row j rows') p (sym (s j) ∙ ap kind_columns found) in
    (
      q.row,
      q.there,
      λ task.
          subst (λ k. is_task k ≡ true) u.kind (fits (subst (λ k. is_task k ≡ true) q.kind task)),
    )

pub SameShape-SameKinds :
    (rows rows' : List ThreadRow) → SameShape rows rows' → SameKinds rows rows'
SameShape-SameKinds rows rows' s id = both (find_row id rows) (find_row id rows') (s id)
  where
    both :
        (a b : Option ThreadRow) → kept_columns a ≡ kept_columns b → kind_columns a ≡ kind_columns b
    both none none h = refl
    both none (some b) h = absurd (ground arith)
    both (some a) none h = absurd (ground arith)
    both (some a) (some b) h = ground arith

-- A change of one row's other columns
pub record KeepsKind (f : ThreadRow → ThreadRow) : Type 0 where
  pub id : (t : ThreadRow) → (f t).id ≡ t.id
  pub parent : (t : ThreadRow) → (f t).parent_thread_id ≡ t.parent_thread_id
  pub kind : (t : ThreadRow) → (f t).kind ≡ t.kind

pub update_row-SameKinds :
    (k : ℕ) (f : ThreadRow → ThreadRow) (rows : List ThreadRow)
    → KeepsKind f
    → SameKinds rows (update_row k f rows)
update_row-SameKinds k f [] w id = refl
update_row-SameKinds k f (t ∷ rest) w id =
    ground (arith, update_row-SameKinds k f rest w id, w.id t, w.parent t, w.kind t)

append-cases :
    (rows : List ThreadRow) (n t : ThreadRow) (i : ℕ)
    → find_row i (rows ++ n ∷ []) ≡ some t
    → (find_row i rows ≡ some t) ⊎ (n ≡ t)
append-cases [] n t i h = elim (Bool-cases (n.id == i)) [
  | inl q ↦ inr (ground arith)
  | inr q ↦ absurd (ground arith)
]
append-cases (u ∷ rest) n t i h = elim (Bool-cases (u.id == i)) [
  | inl q ↦ inl (ground arith)
  | inr q ↦ elim (append-cases rest n t i (ground arith)) [
    | inl k ↦ inl (ground arith)
    | inr k ↦ inr k
  ]
]

-- A row that is appended under a parent that admits it
pub append-KindsFit :
    (rows : List ThreadRow) (n : ThreadRow)
    → KindsFit rows
    → ((j : ℕ)
        → n.parent_thread_id ≡ some j
        → (p : ThreadRow) × (find_row j rows ≡ some p)
          × (is_task p.kind ≡ true → is_task n.kind ≡ true))
    → KindsFit (rows ++ n ∷ [])
append-KindsFit rows n w fits i j t h e = elim (append-cases rows n t i h) [
  | inl k ↦
      let (p, found, fit) = w i j t k e in
      (p, find-push (λ u. u.id == j) rows (n ∷ []) p found, fit)
  | inr k ↦
      let (p, found, fit) = fits j (ap (λ (u : ThreadRow). u.parent_thread_id) k ∙ e) in
      (
        p,
        find-push (λ u. u.id == j) rows (n ∷ []) p found,
        subst (λ (u : ThreadRow). is_task p.kind ≡ true → is_task u.kind ≡ true) k fit,
      )
]

pub find_row-update_same :
    (rows : List ThreadRow) (id : ℕ) (c : ThreadRow) (f : ThreadRow → ThreadRow)
    → ((t : ThreadRow) → (f t).id ≡ t.id)
    → find_row id rows ≡ some c
    → find_row id (update_row id f rows) ≡ some (f c)
find_row-update_same [] id c f same h = cc
find_row-update_same (t ∷ rest) id c f same h = elim (Bool-cases (t.id == id)) [
  | inl q ↦ let it : t ≡ c = ground arith in ground (arith, same t, ap f it)
  | inr q ↦ ground (arith, find_row-update_same rest id c f same)
]

find_row-update_other :
    (rows : List ThreadRow) (i id : ℕ) (f : ThreadRow → ThreadRow)
    → ((t : ThreadRow) → (f t).id ≡ t.id)
    → (i == id) ≡ false
    → find_row i (update_row id f rows) ≡ find_row i rows
find_row-update_other [] i id f same n = refl
find_row-update_other (t ∷ rest) i id f same n =
    ground (arith, find_row-update_other rest i id f same n, same t, ==_iff t.id i, ==_iff t.id id)

no_space_child :
    (rows : List ThreadRow) (i id : ℕ) (t : ThreadRow)
    → find_row i rows ≡ some t
    → t.parent_thread_id ≡ some id
    → has_space_child id rows ≡ false
    → is_task t.kind ≡ true
no_space_child [] i id t h e n = cc
no_space_child (u ∷ rest) i id t h e n = elim (Bool-cases (u.id == i)) [
  | inl q ↦
      let it : u ≡ t = ground arith in
      let mine : opt_beq u.parent_thread_id (some id) ≡ true =
        ap (λ (x : ThreadRow). opt_beq x.parent_thread_id (some id)) it
        ∙ ap (λ o. opt_beq o (some id)) e
        ∙ (==_iff id id).1 refl in
      subst (λ (x : ThreadRow). is_task x.kind ≡ true) it (ground arith)
  | inr q ↦ no_space_child rest i id t (ground arith) e (ground arith)
]

-- The change of one Thread's kind that its parent and its children admit
pub kind-KindsFit :
    (rows : List ThreadRow) (id : ℕ) (c : ThreadRow) (f : ThreadRow → ThreadRow)
    → find_row id rows ≡ some c
    → ((t : ThreadRow) → (f t).id ≡ t.id)
    → ((t : ThreadRow) → (f t).parent_thread_id ≡ t.parent_thread_id)
    → (is_task (f c).kind ≡ true → has_space_child id rows ≡ false)
    → (is_task (f c).kind ≡ false
        → (j : ℕ) → c.parent_thread_id ≡ some j
        → is_task_row (find_row j rows) ≡ false)
    → KindsFit rows
    → KindsFit (update_row id f rows)
kind-KindsFit rows id c f found same up below above w i j t h e =
    let after = find_row-update_same rows id c f same found in
    elim (Bool-cases (i == id)) [
      | inl q ↦
          let here : i ≡ id = (==_iff i id).0 q in
          let it : f c ≡ t =
            ground
              (arith, sym after ∙ ap (λ k. find_row k (update_row id f rows)) (sym here) ∙ h) in
          let parent : c.parent_thread_id ≡ some j =
            sym (up c) ∙ ap (λ (x : ThreadRow). x.parent_thread_id) it ∙ e in
          elim (Bool-cases (j == id)) [
            | inl r ↦
                let there : j ≡ id = (==_iff j id).0 r in
                (
                  f c,
                  ap (λ k. find_row k (update_row id f rows)) there ∙ after,
                  subst (λ (x : ThreadRow). is_task (f c).kind ≡ true → is_task x.kind ≡ true) it
                      (λ k. k),
                )
            | inr r ↦
                let (p, fp, fit) = w i j c (ap (λ k. find_row k rows) here ∙ found) parent in
                (
                  p,
                  find_row-update_other rows j id f same r ∙ fp,
                  subst (λ (x : ThreadRow). is_task p.kind ≡ true → is_task x.kind ≡ true) it
                      (λ task. elim (Bool-cases (is_task (f c).kind)) [
                        | inl y ↦ y
                        | inr y ↦
                            let no : is_task p.kind ≡ false =
                              sym (ap is_task_row fp) ∙ above y j parent in
                            absurd (ground arith)
                      ]),
                )
          ]
      | inr q ↦
          let old : find_row i rows ≡ some t = sym (find_row-update_other rows i id f same q) ∙ h in
          elim (Bool-cases (j == id)) [
            | inl r ↦
                let there : j ≡ id = (==_iff j id).0 r in
                (
                  f c,
                  ap (λ k. find_row k (update_row id f rows)) there ∙ after,
                  λ task. no_space_child rows i id t old (e ∙ ap some there) (below task),
                )
            | inr r ↦
                let (p, fp, fit) = w i j t old e in
                (p, find_row-update_other rows j id f same r ∙ fp, fit)
          ]
    ]
