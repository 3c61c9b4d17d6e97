-- ===== src/Host/Reach.antt =====
-- Who may address whom: the two recursive queries of
-- crates/hirsel-host/src/storage/thread_scope.rs against the tree of Threads.
use hirsel.Base.{
  ℕ, ◌-◌, ◌<◌, ◌≡◌, refl, ◌∙◌, sym, subst, true, ◌&&◌, Bool, ◌⊎◌, inl, inr, ◌↔◌, ◌≢◌, none, some,
  List, [], ◌∷◌, arith, if◌then◌else◌, contains, nat_eq, ==_iff, ◌==◌, ltb, Bool-cases, any,
  opt_beq,
}
use hirsel.Host.Closure.{
  Edges, has_edge, Linked, begin, follow, Ranked, closure, closure_iff, contains-append,
}
use hirsel.Host.Tables.{ThreadRow, GrantRow, Db, has_thread, ok}
use hirsel.Host.Scope.{
  down_edges, up_edges, max_id, ids, granted_targets, roots, scope, authorize, parents, is_ancestor,
  holds_root,
}

-- A Thread's parent is older: Thread ids are never used again and a parent never changes.
abbrev pub is_tree : List ThreadRow → Bool
is_tree [] = true
is_tree (t ∷ rest) = elim t.parent_thread_id [
  | none ↦ is_tree rest
  | some p ↦ ltb p t.id && is_tree rest
]

down-rank :
    (rows : List ThreadRow) → is_tree rows ≡ true → Ranked (λ x. x) (max_id rows) (down_edges rows)
unfolding down_edges
down-rank [] t a b h = cc
down-rank (r ∷ rest) t a b h =
    (ground (arith, down-rank rest _ a b, ==_iff r.id b), ground (arith, down-rank rest _ a b))

-- The two queries follow the same edges in opposite directions.
up-down :
    (rows : List ThreadRow) (a b : ℕ)
    → has_edge a b (up_edges rows) ≡ has_edge b a (down_edges rows)
unfolding up_edges down_edges
up-down [] a b = refl
up-down (r ∷ rest) a b = ground (arith, up-down rest a b)

parents-edge :
    (rows : List ThreadRow) (t a : ℕ) → contains (parents t rows) a ≡ has_edge a t (down_edges rows)
unfolding parents down_edges
parents-edge [] t a = refl
parents-edge (r ∷ rest) t a = ground (arith, parents-edge rest t a)

up-rank :
    (rows : List ThreadRow)
    → is_tree rows ≡ true
    → Ranked (λ x. max_id rows - x) (max_id rows) (up_edges rows)
up-rank rows t a b h =
    let (l, k) = down-rank rows t b a (sym (up-down rows a b) ∙ h) in (omega arith, omega arith)

-- `t` is `a` or hangs below it.
abbrev pub Below : List ThreadRow → ℕ → ℕ → Type 0
Below rows a t = Linked (down_edges rows) (a ∷ []) t

-- What a caller's reach hangs on: itself, a Thread that it was granted, and, under a root grant,
-- every Thread.
abbrev pub IsRoot : Db → ℕ → ℕ → Type 0
IsRoot db caller r =
    (r ≡ caller)
    ⊎ ((any (λ g. g.thread_id == caller && opt_beq g.target_thread_id (some r)) db.thread_grants
          ≡ true)
        ⊎ ((holds_root db caller ≡ true) × (has_thread db r ≡ true)))

granted_targets-any :
    (caller r : ℕ) (grants : List GrantRow)
    → contains (granted_targets caller grants) r
      ≡ any (λ g. g.thread_id == caller && opt_beq g.target_thread_id (some r)) grants
unfolding granted_targets
granted_targets-any caller r [] = refl
granted_targets-any caller r (g ∷ rest) = ground (arith, granted_targets-any caller r rest)

ids-any : (r : ℕ) (rows : List ThreadRow) → contains (ids rows) r ≡ any (λ t. t.id == r) rows
ids-any r [] = refl
ids-any r (t ∷ rest) = ground (arith, ids-any r rest)

roots_iff : (db : Db) (caller r : ℕ) → (contains (roots db caller) r ≡ true) ↔ IsRoot db caller r
unfolding roots
roots_iff db caller r =
    let everything = if holds_root db caller then ids db.threads else [] in
    ground (
      arith,
      contains-append (granted_targets caller db.thread_grants) everything r,
      granted_targets-any caller r db.thread_grants,
      ids-any r db.threads,
      ==_iff caller r,
    )

-- A chain goes on from where another led.
lift :
    (edges : Edges) (start start' : List ℕ)
    → ((x : ℕ) → contains start x ≡ true → Linked edges start' x)
    → (x : ℕ) → Linked edges start x
    → Linked edges start' x
lift edges start start' f y (begin x h) = f x h
lift edges start start' f y (follow a x p e) = follow a x (lift edges start start' f a p) e

pub chain :
    (edges : Edges) (start : List ℕ) (r x : ℕ)
    → Linked edges start r
    → Linked edges (r ∷ []) x
    → Linked edges start x
chain edges start r x p q =
    lift edges (r ∷ []) start (λ y h. subst (Linked edges start) ((==_iff r y).0 (ground arith)) p)
      x q

-- A chain from several starts is one from a single one of them.
single :
    (edges : Edges) (start : List ℕ) (x : ℕ)
    → Linked edges start x
    → (r : ℕ) × (contains start r ≡ true) × Linked edges (r ∷ []) x
single edges start y (begin x h) = (x, h, begin x (ground (arith, ==_iff x x)))
single edges start y (follow a x p e) =
    let (r, h, q) = single edges start a p in (r, h, follow a x q e)

authorize-scope :
    (db : Db) (caller target : ℕ)
    → (authorize db caller target ≡ ok tt) ↔ (contains (scope db caller) target ≡ true)
unfolding authorize
authorize-scope db caller target = ground arith

scope-closure :
    (db : Db) (caller x : ℕ)
    → contains (scope db caller) x ≡ true
    → contains (closure (down_edges db.threads) (roots db caller) (max_id db.threads)) x ≡ true
unfolding scope
scope-closure db caller x h = h

closure-scope :
    (db : Db) (caller x : ℕ)
    → contains (closure (down_edges db.threads) (roots db caller) (max_id db.threads)) x ≡ true
    → contains (scope db caller) x ≡ true
unfolding scope
closure-scope db caller x h = h

-- Where every parent is older than its children, a caller may address exactly the Threads at or
-- below one of its roots: itself, the Threads that it was granted, and every Thread if it holds
-- a root grant.
pub authorize_iff :
    (db : Db) (caller target : ℕ)
    → is_tree db.threads ≡ true
    → (authorize db caller target ≡ ok tt)
      ↔ ((r : ℕ) × IsRoot db caller r × Below db.threads r target)
authorize_iff db caller target t =
    let edges = down_edges db.threads in
    let starts = roots db caller in
    let found =
      closure_iff (λ x. x) (max_id db.threads) edges starts (down-rank db.threads t) target in
    (
      λ h.
          let (r, k, below) =
            single edges starts target
              (found.0 (scope-closure db caller target ((authorize-scope db caller target).0 h))) in
          (r, (roots_iff db caller r).0 k, below),
      λ (r, k, below). (authorize-scope db caller target).1 (
          closure-scope db caller target
            (found.1 (chain edges starts r target (begin r ((roots_iff db caller r).1 k)) below))),
    )

apart : (a b : ℕ) → a < b → a ≡ b → ⊥
apart a b l e = omega arith

module _ (rows : List ThreadRow) (tree : is_tree rows ≡ true) where
  -- The chain of parents from a Thread, from the nearest on.
  Above : ℕ → ℕ → Type 0
  Above t a = Linked (up_edges rows) (parents t rows) a

  up-Below : (t a : ℕ) → Above t a → Below rows a t
  unfolding Above
  up-Below t y (begin a h) =
      follow a t (begin a (ground (arith, ==_iff a a))) (sym (parents-edge rows t a) ∙ h)
  up-Below t y (follow b a p e) =
      chain (down_edges rows) (a ∷ []) b t
        (follow a b (begin a (ground (arith, ==_iff a a))) (sym (up-down rows b a) ∙ e))
        (up-Below t b p)

  up-less : (t a : ℕ) → Above t a → a < t
  unfolding Above
  up-less t y (begin a h) = (down-rank rows tree a t (sym (parents-edge rows t a) ∙ h)).0
  up-less t y (follow b a p e) =
      let l = (down-rank rows tree a b (sym (up-down rows b a) ∙ e)).0 in
      let k = up-less t b p in omega arith

  Below-up : (a t : ℕ) → Below rows a t → (a ≡ t → ⊥) → Above t a
  unfolding Above
  Below-up a y (begin t h) ne = absurd (ne ((==_iff a t).0 (ground arith)))
  Below-up a y (follow c t p e) ne = elim (Bool-cases (a == c)) [
    | inl q ↦ begin a (
        subst (λ x. contains (parents t rows) x ≡ true) (sym ((==_iff a c).0 q))
          (parents-edge rows t c ∙ e))
    | inr q ↦
        lift (up_edges rows) (parents c rows) (parents t rows)
          (λ d h.
            follow c d (begin c (parents-edge rows t c ∙ e))
              (up-down rows c d ∙ sym (parents-edge rows c d) ∙ h))
          a (Below-up a c p (λ same. ground (arith, ==_iff a c)))
  ]

is_ancestor-closure :
    (db : Db) (a t : ℕ)
    → is_ancestor db a t
      ≡ contains (closure (up_edges db.threads) (parents t db.threads) (max_id db.threads)) a
unfolding is_ancestor
is_ancestor-closure db a t = refl

-- Where every parent is older than its children, the ancestors that the upward query finds for a
-- Thread are exactly the Threads, other than itself, that it hangs below.
pub is_ancestor_iff :
    (db : Db) (a t : ℕ)
    → is_tree db.threads ≡ true
    → (is_ancestor db a t ≡ true) ↔ (Below db.threads a t × (a ≢ t))
unfolding Above
is_ancestor_iff db a t w =
    let rows = db.threads in
    let found =
      closure_iff (λ x. max_id rows - x) (max_id rows) (up_edges rows) (parents t rows)
        (up-rank rows w) a in
    (
      λ h.
          let p = found.0 (sym (is_ancestor-closure db a t) ∙ h) in
          let l = up-less rows w t a p in (up-Below rows w t a p, λ e. apart a t l e),
      λ (p, ne). is_ancestor-closure db a t ∙ found.1 (Below-up rows w a t p ne),
    )

-- Where every parent is older than its children, reach flows down the tree: an ancestor may
-- address whatever hangs below it.
pub ancestor-authorize :
    (db : Db) (a t : ℕ)
    → is_tree db.threads ≡ true
    → is_ancestor db a t ≡ true
    → authorize db a t ≡ ok tt
ancestor-authorize db a t w h =
    (authorize_iff db a t w).1 (a, inl refl, ((is_ancestor_iff db a t w).0 h).0)
