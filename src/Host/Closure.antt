-- ===== src/Host/Closure.antt =====
-- SQLite's `WITH RECURSIVE s(id) AS (start UNION SELECT … JOIN s …)`, as the queries of
-- crates/hirsel-host/src/storage/thread_scope.rs use it: `edges` pairs the identifier that the join
-- looks for with the one that it adds.
use hirsel.Base.{
  ℕ, zero, suc, ◌≤◌, ◌<◌, ◌≡◌, refl, ap, true, false, not, Bool, ◌&&◌, ◌||◌, ◌⊎◌, inl, inr, ◌↔◌,
  List, [], ◌∷◌, ◌++◌, arith, if◌then◌else◌, contains, nat_eq, ==_iff, ◌==◌, Bool-cases, any,
}

abbrev pub Edges : Type 0
Edges = List (ℕ × ℕ)

-- The rows that one step adds: UNION leaves out those that are there already.
unfoldable pub added : Edges → List ℕ → List ℕ
added [] s = []
added ((a, b) ∷ rest) s =
    let more = added rest s in if contains s a && not (contains s b) then b ∷ more else more

-- The rows after at most `n` steps.
unfoldable pub closure : Edges → List ℕ → ℕ → List ℕ
unfolding added
closure edges start zero = start
closure edges start (suc n) = let s = closure edges start n in s ++ added edges s

abbrev pub has_edge : ℕ → ℕ → Edges → Bool
has_edge a b = any (λ e. e.0 == a && e.1 == b)

-- The rows that the query returns: a chain of edges leads to them from the start.
pub data Linked (edges : Edges) (start : List ℕ) : ℕ → Type 0 where
  begin : (x : ℕ) → contains start x ≡ true → Linked edges start x
  follow : (a b : ℕ) → Linked edges start a → has_edge a b edges ≡ true → Linked edges start b

pub contains-append :
    (xs ys : List ℕ) (x : ℕ) → contains (xs ++ ys) x ≡ (contains xs x || contains ys x)
contains-append [] ys x = refl
contains-append (y ∷ xs) ys x = ground (arith, contains-append xs ys x)

contains-subst : (s : List ℕ) (a b : ℕ) → (a == b) ≡ true → contains s a ≡ contains s b
contains-subst s a b h = ap (contains s) ((==_iff a b).0 h)

added-new :
    (edges : Edges) (s : List ℕ) (a x : ℕ)
    → contains s a ≡ true
    → has_edge a x edges ≡ true
    → contains s x ≡ false
    → contains (added edges s) x ≡ true
unfolding added
added-new [] s a x h e k = cc
added-new ((c, d) ∷ rest) s a x h e k =
    ground (arith, added-new rest s a x h, contains-subst s c a, contains-subst s d x, ==_iff d x)

added-from :
    (edges : Edges) (s : List ℕ) (x : ℕ)
    → contains (added edges s) x ≡ true
    → (a : ℕ) × (contains s a ≡ true) × (has_edge a x edges ≡ true)
unfolding added
added-from [] s x h = cc
added-from ((c, d) ∷ rest) s x h = elim (Bool-cases (contains s c && d == x)) [
  | inl q ↦ (c, ground arith, ground (arith, ==_iff c c))
  | inr q ↦ let (a, k, e) = added-from rest s x (ground arith) in (a, k, ground arith)
]

-- One step more keeps every row.
closure-step :
    (edges : Edges) (start : List ℕ) (n x : ℕ)
    → contains (closure edges start n) x ≡ true
    → contains (closure edges start (suc n)) x ≡ true
unfolding closure
closure-step edges start n x h =
    ground (arith, contains-append (closure edges start n) (added edges (closure edges start n)) x)

closure-start :
    (edges : Edges) (start : List ℕ) (n x : ℕ)
    → contains start x ≡ true
    → contains (closure edges start n) x ≡ true
closure-start edges start zero x h = unfold closure in h
closure-start edges start (suc n) x h =
    closure-step edges start n x (closure-start edges start n x h)

closure-follow :
    (edges : Edges) (start : List ℕ) (n a x : ℕ)
    → contains (closure edges start n) a ≡ true
    → has_edge a x edges ≡ true
    → contains (closure edges start (suc n)) x ≡ true
unfolding closure
closure-follow edges start n a x h e =
    let s = closure edges start n in
    ground (arith, contains-append s (added edges s) x, added-new edges s a x h e)

-- A row that the last step added.
closure-last :
    (edges : Edges) (start : List ℕ) (n x : ℕ)
    → contains (closure edges start n) x ≡ false
    → contains (closure edges start (suc n)) x ≡ true
    → (a : ℕ) × (contains (closure edges start n) a ≡ true) × (has_edge a x edges ≡ true)
unfolding closure
closure-last edges start n x q h =
    let s = closure edges start n in
    added-from edges s x (ground (arith, contains-append s (added edges s) x))

-- Each row of the closure is linked to the start.
pub closure-Linked :
    (edges : Edges) (start : List ℕ) (n x : ℕ)
    → contains (closure edges start n) x ≡ true
    → Linked edges start x
closure-Linked edges start zero x h = unfold closure in Linked.begin x h
closure-Linked edges start (suc n) x h = elim (Bool-cases (contains (closure edges start n) x)) [
  | inl q ↦ closure-Linked edges start n x q
  | inr q ↦
      let (a, k, e) = closure-last edges start n x q h in
      Linked.follow a x (closure-Linked edges start n a k) e
]

not_below : (a b : ℕ) → a < b → b ≤ 0 → ⊥
not_below a b l k = omega arith

below : (a b n : ℕ) → a < b → b ≤ suc n → a ≤ n
below a b n l k = omega arith

-- Along each edge the rank grows, to at most `top`.
abbrev pub Ranked : (ℕ → ℕ) → ℕ → Edges → Type 0
Ranked rank top edges = (a b : ℕ) → has_edge a b edges ≡ true → (rank a < rank b) × (rank b ≤ top)

module _ (rank : ℕ → ℕ) (top : ℕ) (edges : Edges) (start : List ℕ) (r : Ranked rank top edges) where
  closure-rank :
      (x n : ℕ) → Linked edges start x → rank x ≤ n → contains (closure edges start n) x ≡ true
  closure-rank y n (begin x h) l = closure-start edges start n x h
  closure-rank y zero (follow a x p e) l = absurd (not_below (rank a) (rank x) (r a x e).0 l)
  closure-rank y (suc n) (follow a x p e) l =
      closure-follow edges start n a x
        (closure-rank a n p (below (rank a) (rank x) n (r a x e).0 l)) e

  top_of : (x : ℕ) → Linked edges start x → (contains start x ≡ true) ⊎ (rank x ≤ top)
  top_of y (begin x h) = inl h
  top_of y (follow a x p e) = inr (r a x e).1

  -- As many steps as there are ranks find every row that is linked to the start.
  pub Linked-closure : (x : ℕ) → Linked edges start x → contains (closure edges start top) x ≡ true
  Linked-closure x p = elim (top_of x p) [
    | inl h ↦ closure-start edges start top x h
    | inr l ↦ closure-rank x top p l
  ]

  -- The query, whose steps go on until no row is added, returns exactly the linked rows.
  pub closure_iff : (x : ℕ) → (contains (closure edges start top) x ≡ true) ↔ Linked edges start x
  closure_iff x = (closure-Linked edges start top x, Linked-closure x)
