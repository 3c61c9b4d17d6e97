-- ===== src/Client/Snapshots.antt =====
-- Snapshots of a Thread's grants and related items, which may arrive out of order
-- (`replace_grants` and `replace_related_items` of crates/hirsel-client-core/src/store.rs).
use hirsel.Base.{
  ℕ, ◌<◌, ◌≡◌, refl, true, not, Bool, List, [], ◌∷◌, ◌++◌, arith, any, retain, ◌==◌, ==_iff, insert,
  lookup-insert, nat_eq, ltb,
}
use hirsel.Proto.{ThreadGrant, ThreadRelatedItem}
use hirsel.Client.Store.{LocalStore, is_stale, replace_grants, replace_related_items}

module _ {A : Type 0} (key : A → ℕ) (t : ℕ) where
  -- All the entries belong to the Thread.
  abbrev pub is_batch : List A → Bool
  is_batch xs = not (any (λ x. not (key x == t)) xs)

  drop_batch :
      (xs ys : List A)
      → is_batch ys ≡ true
      → retain (λ x. not (key x == t)) (xs ++ ys) ≡ retain (λ x. not (key x == t)) xs
  drop_batch [] [] h = refl
  drop_batch [] (y ∷ ys) h = ground (arith, drop_batch [] ys)
  drop_batch (x ∷ xs) ys h = ground (arith, drop_batch xs ys)

  drop_twice :
      (xs : List A)
      → retain (λ x. not (key x == t)) (retain (λ x. not (key x == t)) xs)
        ≡ retain (λ x. not (key x == t)) xs
  drop_twice [] = refl
  drop_twice (x ∷ xs) = ground (arith, drop_twice xs)

-- After a snapshot of revision `r`, one is stale if its revision is below `r`.
is_stale-insert :
    (revisions : List (ℕ × ℕ)) (t r r' : ℕ) → is_stale (insert t r revisions) t r' ≡ ltb r' r
unfolding is_stale
is_stale-insert revisions t r r' = ground (arith, lookup-insert t t r revisions, ==_iff t t)

is_stale-below :
    (revisions : List (ℕ × ℕ)) (t r r' : ℕ)
    → r' < r
    → is_stale revisions t r ≡ true
    → is_stale revisions t r' ≡ true
unfolding is_stale
is_stale-below revisions t r r' l h = ground arith

-- Two snapshots of one Thread's grants, of different revisions and with grants of that Thread
-- alone, lead to the same grants in either order of arrival.
grants_converge :
    (s : LocalStore) (t r r' : ℕ) (old new : List ThreadGrant)
    → r' < r
    → is_batch (λ g. g.thread_id) t old ≡ true
    → is_batch (λ g. g.thread_id) t new ≡ true
    → (replace_grants (replace_grants s t r' old).0 t r new).0.grants
      ≡ (replace_grants (replace_grants s t r new).0 t r' old).0.grants
unfolding replace_grants
grants_converge s t r r' old new l a b =
    let others = retain (λ (g : ThreadGrant). not (g.thread_id == t)) s.grants in
    let again = drop_batch (λ (g : ThreadGrant). g.thread_id) t others old a in
    let twice = drop_twice (λ (g : ThreadGrant). g.thread_id) t s.grants in
    ground (
      arith,
      is_stale-insert s.grant_revisions t r' r,
      is_stale-insert s.grant_revisions t r r',
      is_stale-below s.grant_revisions t r r' l,
      again,
      twice,
    )

-- Two snapshots of one Thread's related items, of different revisions and with items of that
-- Thread alone, lead to the same items in either order of arrival.
related_items_converge :
    (s : LocalStore) (t r r' : ℕ) (old new : List ThreadRelatedItem)
    → r' < r
    → is_batch (λ i. i.thread_id) t old ≡ true
    → is_batch (λ i. i.thread_id) t new ≡ true
    → (replace_related_items (replace_related_items s t r' old).0 t r new).0.related_items
      ≡ (replace_related_items (replace_related_items s t r new).0 t r' old).0.related_items
unfolding replace_related_items
related_items_converge s t r r' old new l a b =
    let others = retain (λ (i : ThreadRelatedItem). not (i.thread_id == t)) s.related_items in
    let again = drop_batch (λ (i : ThreadRelatedItem). i.thread_id) t others old a in
    let twice = drop_twice (λ (i : ThreadRelatedItem). i.thread_id) t s.related_items in
    ground (
      arith,
      is_stale-insert s.related_revisions t r' r,
      is_stale-insert s.related_revisions t r r',
      is_stale-below s.related_revisions t r r' l,
      again,
      twice,
    )
