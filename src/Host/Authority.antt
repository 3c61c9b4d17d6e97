-- ===== src/Host/Authority.antt =====
-- What a change of reach does to authority
-- (crates/hirsel-host/src/storage/thread_grants.rs and thread_scope.rs).
use hirsel.Base.{
  ℕ, ◌+◌, ◌≤◌, String, ◌≡◌, refl, ◌∙◌, sym, subst, true, false, Bool, inl, inr, ◌≢◌, Option, none,
  some, List, [], ◌∷◌, ◌++◌, arith, if◌then◌else◌, nat_eq, ==_iff, ◌==◌, ltb, any, length,
  string_eq,
}
use hirsel.Proto.{Instant, ThreadGrantSource, ReachTarget}
use hirsel.Host.Closure.{Linked, begin}
use hirsel.Host.Tables.{ThreadRow, GrantRow, Db, Error, Result, ok, err, and_then, ensure}
use hirsel.Host.Scope.{down_edges, holds_root, authorize, is_ancestor}
use hirsel.Host.Grants.{
  Texts, ThreadGrants, insert_grant, grant, advance, rows_of, max_grants, authorize_widening,
  widening_target, target_column, key_of, is_grant_of,
}
use hirsel.Host.Granted.{and_then-ok, Granted, grant-inner, grant-Granted, with_snapshot-db}
use hirsel.Host.Reach.{is_tree, Below, IsRoot, authorize_iff, chain}

IsRoot-kept :
    (db db' : Db) (t : ℕ) (target : Option ℕ) (c r : ℕ)
    → Granted db db' t target
    → IsRoot db c r
    → IsRoot db' c r
IsRoot-kept db db' t target c r g (inl e) = inl e
IsRoot-kept db db' t target c r g (inr (inl h)) = inr (inl (g.one_kept c r h))
IsRoot-kept db db' t target c r g (inr (inr (h, k))) = inr (inr (g.root_kept c h, g.same.has r ∙ k))

IsRoot-other :
    (db db' : Db) (t : ℕ) (target : Option ℕ) (c r : ℕ)
    → Granted db db' t target
    → c ≢ t
    → IsRoot db' c r
    → IsRoot db c r
IsRoot-other db db' t target c r g ne (inl e) = inl e
IsRoot-other db db' t target c r g ne (inr (inl h)) = elim (g.one c r h) [
  | inl k ↦ inr (inl k)
  | inr (e, _) ↦ absurd (ne e)
]
IsRoot-other db db' t target c r g ne (inr (inr (h, k))) = elim (g.root c h) [
  | inl q ↦ inr (inr (q, sym (g.same.has r) ∙ k))
  | inr (e, _) ↦ absurd (ne e)
]

-- An accepted grant only widens, where every parent is older than its children: whoever could
-- address a Thread before still can.
pub grant-widens :
    (texts : Texts) (db : Db) (t : ℕ) (target : ReachTarget) (source : ThreadGrantSource)
    (note : Option String) (now : Instant) (db' : Db) (s : ThreadGrants) (c x : ℕ)
    → is_tree db.threads ≡ true
    → grant texts db t target source note now ≡ ok (db', s)
    → authorize db c x ≡ ok tt
    → authorize db' c x ≡ ok tt
grant-widens texts db t target source note now db' s c x w h a =
    let g = grant-Granted texts db t target source note now db' s h in
    let (r, k, below) = (authorize_iff db c x w).0 a in
    (authorize_iff db' c x (g.same.tree ∙ w)).1 (
      r,
      IsRoot-kept db db' t (target_column target) c r g k,
      subst (λ es. Linked es (r ∷ []) x) (sym g.same.edges) below,
    )

-- An accepted grant changes nobody's reach but its holder's, where every parent is older than
-- its children: whatever another Thread may address afterwards, it could address before.
pub grant-others :
    (texts : Texts) (db : Db) (t : ℕ) (target : ReachTarget) (source : ThreadGrantSource)
    (note : Option String) (now : Instant) (db' : Db) (s : ThreadGrants) (c x : ℕ)
    → is_tree db.threads ≡ true
    → grant texts db t target source note now ≡ ok (db', s)
    → c ≢ t
    → authorize db' c x ≡ ok tt
    → authorize db c x ≡ ok tt
grant-others texts db t target source note now db' s c x w h ne a =
    let g = grant-Granted texts db t target source note now db' s h in
    let (r, k, below) = (authorize_iff db' c x (g.same.tree ∙ w)).0 a in
    (authorize_iff db c x w).1 (
      r,
      IsRoot-other db db' t (target_column target) c r g ne k,
      subst (λ es. Linked es (r ∷ []) x) g.same.edges below,
    )

ensured : (b : Bool) (e : Error) → ensure b e ≡ ok tt → b ≡ true
ensured true e h = refl
ensured false e h = cc

some-same : (a b : ℕ) → some a ≡ some b → a ≡ b
some-same a b h = cc

-- What the caller was asked to be entitled to, for a change that it was allowed to make.
widening-target :
    (db : Db) (caller t : ℕ) (target : Option ReachTarget)
    → authorize_widening db caller t target ≡ ok tt
    → widening_target db caller target ≡ ok tt
unfolding authorize_widening
widening-target db caller t target h =
    let last : Unit {0} → Result Unit = λ _. widening_target db caller target in
    let (_, _, h1) = and_then-ok _ (λ _. and_then (ensure (is_ancestor db caller t) _) last) tt h in
    let (_, _, h2) = and_then-ok (ensure (is_ancestor db caller t) _) last tt h1 in h2

entitled :
    (db : Db) (caller : ℕ) (target : ReachTarget)
    → widening_target db caller (some target) ≡ ok tt
    → ((r : ℕ) → target_column target ≡ some r → authorize db caller r ≡ ok tt)
      × (target_column target ≡ none → holds_root db caller ≡ true)
unfolding widening_target
entitled db caller ReachTarget.root h = (λ r e. cc, λ e. ensured (holds_root db caller) _ h)
entitled db caller (ReachTarget.thread id) h =
    (λ r e. subst (λ i. authorize db caller i ≡ ok tt) (some-same id r e) h, λ e. cc)

self-Below : (rows : List ThreadRow) (r : ℕ) → Below rows r r
self-Below rows r = begin r (ground (arith, ==_iff r r))

root-authorized :
    (db : Db) (c r : ℕ) → is_tree db.threads ≡ true → IsRoot db c r → authorize db c r ≡ ok tt
root-authorized db c r w k = (authorize_iff db c r w).1 (r, k, self-Below db.threads r)

-- Whoever may address a Thread may address what hangs below it.
pub Below-authorized :
    (db : Db) (c r x : ℕ)
    → is_tree db.threads ≡ true
    → authorize db c r ≡ ok tt
    → Below db.threads r x
    → authorize db c x ≡ ok tt
Below-authorized db c r x w a b =
    let (q, k, p) = (authorize_iff db c r w).0 a in
    (authorize_iff db c x w).1 (q, k, chain (down_edges db.threads) (q ∷ []) r x p b)

-- Each root of the widened reach is within the caller's reach.
root-within :
    (db db' : Db) (caller t : ℕ) (target : ReachTarget) (r : ℕ)
    → is_tree db.threads ≡ true
    → Granted db db' t (target_column target)
    → widening_target db caller (some target) ≡ ok tt
    → ((x : ℕ) → authorize db t x ≡ ok tt → authorize db caller x ≡ ok tt)
    → IsRoot db' t r
    → authorize db caller r ≡ ok tt
root-within db db' caller t target r w g h within (inl e) =
    within r (root-authorized db t r w (inl e))
root-within db db' caller t target r w g h within (inr (inl k)) = elim (g.one t r k) [
  | inl q ↦ within r (root-authorized db t r w (inr (inl q)))
  | inr (_, e) ↦ (entitled db caller target h).0 r e
]
root-within db db' caller t target r w g h within (inr (inr (k, l))) =
    let known = sym (g.same.has r) ∙ l in
    elim (g.root t k) [
      | inl q ↦ within r (root-authorized db t r w (inr (inr (q, known))))
      | inr (_, e) ↦
          root-authorized db caller r w (inr (inr ((entitled db caller target h).1 e, known)))
    ]

-- Authority is handed down and never invented, where every parent is older than its children:
-- when the authorization of a widening succeeds and its grant is accepted, and the widened
-- Thread could address nothing beyond the caller's own reach, then this still holds afterwards.
pub widening-within :
    (texts : Texts) (db : Db) (caller t : ℕ) (target : ReachTarget) (source : ThreadGrantSource)
    (note : Option String) (now : Instant) (db' : Db) (s : ThreadGrants)
    → is_tree db.threads ≡ true
    → authorize_widening db caller t (some target) ≡ ok tt
    → grant texts db t target source note now ≡ ok (db', s)
    → ((x : ℕ) → authorize db t x ≡ ok tt → authorize db caller x ≡ ok tt)
    → (x : ℕ) → authorize db' t x ≡ ok tt
    → authorize db' caller x ≡ ok tt
widening-within texts db caller t target source note now db' s w allowed h within x a =
    let g = grant-Granted texts db t target source note now db' s h in
    let (r, k, below) = (authorize_iff db' t x (g.same.tree ∙ w)).0 a in
    let mine =
      root-within db db' caller t target r w g (widening-target db caller t (some target) allowed)
        within k in
    Below-authorized db' caller r x (g.same.tree ∙ w)
      (grant-widens texts db t target source note now db' s caller r w h mine) below

rows_of-push :
    (c : ℕ) (grants : List GrantRow) (g : GrantRow)
    → length (rows_of c (grants ++ g ∷ []))
      ≡ length (rows_of c grants) + (if g.thread_id == c then 1 else 0)
rows_of-push c [] g = ground arith
rows_of-push c (x ∷ grants) g = ground (arith, rows_of-push c grants g)

if_bound :
    (p q : Bool) (a b d : Db) (e : Error) (P : Db → Type 0)
    → P a
    → (q ≡ true → P b)
    → (if p then ok a else (if q then ok b else err e)) ≡ ok d
    → P d
if_bound true q a b d e P x y h = let same : a ≡ d = cc in subst P same x
if_bound false true a b d e P x y h = let same : b ≡ d = cc in subst P same (y refl)
if_bound false false a b d e P x y h = cc

insert_grant-bounded :
    (db d : Db) (t : ℕ) (target : Option ℕ) (source : ThreadGrantSource) (text : Option String)
    (now : Instant)
    → insert_grant db t target source text now ≡ ok d
    → ((c : ℕ) → length (rows_of c db.thread_grants) ≤ 100)
    → (c : ℕ) → length (rows_of c d.thread_grants) ≤ 100
unfolding insert_grant advance
insert_grant-bounded db d t target source text now h bound c =
    if_bound (any (is_grant_of t (key_of target)) db.thread_grants)
      (ltb (length (rows_of t db.thread_grants)) max_grants) db _ d _
      (λ x. length (rows_of c x.thread_grants) ≤ 100) (bound c)
      (λ q. ground (
        arith,
        rows_of-push c db.thread_grants (record {
          thread_id = t;
          target_thread_id = target;
          granted_by = source;
          granted_at = now;
          note = text;
        }),
        bound c,
        bound t,
        ==_iff t c,
      ))
      h

-- No Thread holds more than a hundred grants: a grant that is accepted keeps that bound.
pub grant-bounded :
    (texts : Texts) (db : Db) (t : ℕ) (target : ReachTarget) (source : ThreadGrantSource)
    (note : Option String) (now : Instant) (db' : Db) (s : ThreadGrants)
    → grant texts db t target source note now ≡ ok (db', s)
    → ((c : ℕ) → length (rows_of c db.thread_grants) ≤ 100)
    → (c : ℕ) → length (rows_of c db'.thread_grants) ≤ 100
grant-bounded texts db t target source note now db' s h bound c =
    let (n, d, e, k) = grant-inner texts db t target source note now db' s h in
    subst (λ x. length (rows_of c x.thread_grants) ≤ 100) (with_snapshot-db d t db' s k)
      (insert_grant-bounded db d t (target_column target) source n now e bound c)
