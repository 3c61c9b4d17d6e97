-- ===== src/Host/Rollups.antt =====
-- crates/hirsel-host/src/thread_rollups.rs: how the headline of a Thread chooses among its
-- children. The rows are those of the query, ordered by child.
use hirsel.Base.{
  ℕ, ◌≡◌, refl, true, false, Bool, ◌&&◌, ◌||◌, Option, none, some, List, [], ◌∷◌, arith, ltb, leb,
  ◌==◌, ==_iff, subst, if◌then◌else◌, any,
}
use hirsel.Proto.{ThreadAttention, ThreadTurnState}

pub data ChildStatus : Type 0 where
  needs_owner failed running queued blocked done idle : ChildStatus

-- The derived order, by the place of the constructor
unfoldable pub rank : ChildStatus → ℕ
rank needs_owner = 0
rank failed = 1
rank running = 2
rank queued = 3
rank blocked = 4
rank done = 5
rank idle = 6

-- What the query tells of a Thread below.
pub record ChildFacts : Type 0 where
  pub attention : ThreadAttention
  pub is_settled : Bool
  pub is_running : Bool
  pub is_queued : Bool
  pub last_finished : Option ThreadTurnState

abbrev is_needed : ThreadAttention → Bool
is_needed ThreadAttention.quiet = false
is_needed ThreadAttention.needs_owner = true

-- The last two branches, once the Thread has no turn that is running, queued or ended badly
abbrev settled_status : Bool → ChildStatus
settled_status is_settled = if is_settled then done else idle

unfoldable pub finished_status : Option ThreadTurnState → Bool → ChildStatus
finished_status (some ThreadTurnState.failed) is_settled = failed
finished_status (some ThreadTurnState.cancelled) is_settled = blocked
finished_status (some ThreadTurnState.interrupted) is_settled = blocked
finished_status _ is_settled = settled_status is_settled

unfoldable pub status_of : ChildFacts → ChildStatus
unfolding finished_status
status_of f =
    if is_needed f.attention
    then needs_owner
    else if f.is_running
    then running
    else if f.is_queued
    then queued
    else finished_status f.last_finished f.is_settled

-- A child and a status: of one Thread below it, or of all of them together.
abbrev pub Child : Type 0
Child = ℕ × ChildStatus

-- Ord::min
unfoldable pub min_status : ChildStatus → ChildStatus → ChildStatus
min_status a b = if leb (rank a) (rank b) then a else b

-- The body of the loop: a row joins the last child, or starts the next one.
unfoldable pub push_status : Child → List Child → List Child
unfolding min_status
push_status (root, status) [] = (root, status) ∷ []
push_status (root, status) ((id, aggregate) ∷ []) =
    if id == root
    then (id, min_status aggregate status) ∷ []
    else (id, aggregate) ∷ (root, status) ∷ []
push_status row (x ∷ y ∷ rest) = x ∷ push_status row (y ∷ rest)

unfoldable pub aggregate : List Child → List Child → List Child
unfolding push_status
aggregate children [] = children
aggregate children (row ∷ rows) = aggregate (push_status row children) rows

-- `(status, id)` in the order of pairs
unfoldable pub is_before : Child → Child → Bool
unfolding rank
is_before (i, a) (j, b) = ltb (rank a) (rank b) || (rank a == rank b && ltb i j)

unfoldable pub first_of : Child → List Child → Child
unfolding is_before
first_of best [] = best
first_of best (x ∷ rest) = first_of (if is_before x best then x else best) rest

-- `children.iter().min_by_key(|(id, status)| (*status, *id))`
unfoldable pub most_urgent : List Child → Option Child
unfolding first_of
most_urgent [] = none
most_urgent (x ∷ rest) = some (first_of x rest)

-- Every status is at rank `k` or behind it.
abbrev pub all_from : ℕ → List Child → Bool
all_from k [] = true
all_from k (x ∷ xs) = leb k (rank x.1) && all_from k xs

abbrev pub has_child : ℕ → ℕ → List Child → Bool
has_child id k = any (λ x. x.0 == id && rank x.1 == k)

push_status-from :
    (k : ℕ) (row : Child) (xs : List Child)
    → all_from k (push_status row xs) ≡ (leb k (rank row.1) && all_from k xs)
unfolding push_status
push_status-from k (r, s) [] = refl
push_status-from k (r, s) ((id, a) ∷ []) = ground arith
push_status-from k (r, s) (x ∷ y ∷ rest) = ground (arith, push_status-from k (r, s) (y ∷ rest))

aggregate-from :
    (k : ℕ) (xs rows : List Child)
    → all_from k (aggregate xs rows) ≡ (all_from k rows && all_from k xs)
unfolding aggregate
aggregate-from k xs [] = refl
aggregate-from k xs (row ∷ rows) =
    ground (arith, aggregate-from k (push_status row xs) rows, push_status-from k row xs)

push_status-has :
    (id k : ℕ) (row : Child) (xs : List Child)
    → has_child id k (push_status row xs) ≡ true
    → ((row.0 == id && rank row.1 == k) || has_child id k xs) ≡ true
unfolding push_status
push_status-has id k (r, s) [] h = h
push_status-has id k (r, s) ((j, a) ∷ []) h = ground arith
push_status-has id k (r, s) (x ∷ y ∷ rest) h =
    ground (arith, push_status-has id k (r, s) (y ∷ rest))

aggregate-has :
    (id k : ℕ) (xs rows : List Child)
    → has_child id k (aggregate xs rows) ≡ true
    → (has_child id k rows || has_child id k xs) ≡ true
unfolding aggregate
aggregate-has id k xs [] h = h
aggregate-has id k xs (row ∷ rows) h =
    ground (arith, aggregate-has id k (push_status row xs) rows, push_status-has id k row xs)

-- The first of a list is a lower bound, and one of the list.
first_of-least :
    (best : Child) (xs : List Child) (k : ℕ)
    → k ≡ rank (first_of best xs).1
    → (leb k (rank best.1) && all_from k xs) ≡ true
unfolding first_of is_before
first_of-least best [] k e = ground arith
first_of-least best (x ∷ xs) k e =
    let next = if is_before x best then x else best in ground (arith, first_of-least next xs k e)

keep_any :
    (p : Child → Bool) (b : Bool) (best x : Child) (xs : List Child)
    → any p ((if b then x else best) ∷ xs) ≡ true
    → any p (best ∷ x ∷ xs) ≡ true
keep_any p true best x xs h = ground arith
keep_any p false best x xs h = ground arith

first_of-has :
    (best : Child) (xs : List Child)
    → let c = first_of best xs in has_child c.0 (rank c.1) (best ∷ xs) ≡ true
unfolding first_of
first_of-has best [] = ground (arith, ==_iff best.0 best.0)
first_of-has best (x ∷ xs) =
    let next = if is_before x best then x else best in
    let c = first_of next xs in
    keep_any (λ y. y.0 == c.0 && rank y.1 == rank c.1) (is_before x best) best x xs
      (first_of-has next xs)

some_child : (a b : Child) → some a ≡ some b → a ≡ b
some_child a b h = cc

most_urgent-facts :
    (xs : List Child) (c : Child)
    → most_urgent xs ≡ some c
    → (all_from (rank c.1) xs ≡ true) × (has_child c.0 (rank c.1) xs ≡ true)
unfolding most_urgent
most_urgent-facts [] c h = cc
most_urgent-facts (x ∷ xs) c h =
    subst (λ d. (all_from (rank d.1) (x ∷ xs) ≡ true) × (has_child d.0 (rank d.1) (x ∷ xs) ≡ true))
      (some_child (first_of x xs) c h) (first_of-least x xs _ refl, first_of-has x xs)

-- The child that a headline names is one with a row of the status that the headline shows, and no
-- row below the Thread has a more urgent status.
pub headline-most_urgent :
    (rows : List Child) (c : Child)
    → most_urgent (aggregate [] rows) ≡ some c
    → (has_child c.0 (rank c.1) rows ≡ true) × (all_from (rank c.1) rows ≡ true)
headline-most_urgent rows c h =
    let (least, has) = most_urgent-facts (aggregate [] rows) c h in
    (
      ground (arith, aggregate-has c.0 (rank c.1) [] rows has),
      ground (arith, aggregate-from (rank c.1) [] rows, least),
    )
