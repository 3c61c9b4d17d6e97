-- ===== src/Host/Scope.antt =====
-- `authorize`, `is_ancestor`, `owner_fence` and `resolve` of
-- crates/hirsel-host/src/storage/thread_scope.rs. A query that recurses runs as many steps as the
-- highest Thread id, which is enough (Host/Reach): a parent is older than its children.
use hirsel.Base.{
  ℕ, String, Bool, true, false, not, ◌&&◌, Option, none, some, List, [], ◌∷◌, ◌++◌, ◌==◌, str_eq,
  if◌then◌else◌, any, contains, nat_eq, max, opt_beq,
}
use hirsel.Host.Closure.{Edges, closure}
use hirsel.Host.Tables.{
  ThreadRow, GrantRow, Db, RefusedTarget, RefusalReason, outside_grant, refused, failed, Result, ok,
  err, and_then, ensure,
}

-- thread_grants.rs, holds_root
unfoldable pub holds_root : Db → ℕ → Bool
holds_root db thread_id =
    any (λ g. g.thread_id == thread_id && opt_beq g.target_thread_id none) db.thread_grants

-- `threads t JOIN scope s ON t.parent_thread_id=s.id` adds `t.id`.
unfoldable pub down_edges : List ThreadRow → Edges
down_edges [] = []
down_edges (t ∷ rest) = elim t.parent_thread_id [
  | none ↦ down_edges rest
  | some p ↦ (p, t.id) ∷ down_edges rest
]

-- `threads t JOIN up u ON t.id=u.id` adds `t.parent_thread_id`, which leads nowhere when it is NULL.
unfoldable pub up_edges : List ThreadRow → Edges
up_edges [] = []
up_edges (t ∷ rest) = elim t.parent_thread_id [
  | none ↦ up_edges rest
  | some p ↦ (t.id, p) ∷ up_edges rest
]

abbrev pub max_id : List ThreadRow → ℕ
max_id [] = 0
max_id (t ∷ rest) = max t.id (max_id rest)

abbrev pub ids : List ThreadRow → List ℕ
ids [] = []
ids (t ∷ rest) = t.id ∷ ids rest

-- `SELECT target_thread_id FROM thread_grants WHERE thread_id=?1 AND target_thread_id IS NOT NULL`
unfoldable pub granted_targets : ℕ → List GrantRow → List ℕ
granted_targets caller [] = []
granted_targets caller (g ∷ rest) =
    let more = granted_targets caller rest in
    elim g.target_thread_id [
      | none ↦ more
      | some t ↦ if g.thread_id == caller then t ∷ more else more
    ]

-- `roots` of REACH_CTE
unfoldable pub roots : Db → ℕ → List ℕ
unfolding granted_targets holds_root
roots db caller =
    caller ∷ granted_targets caller db.thread_grants
    ++ (if holds_root db caller then ids db.threads else [])

-- `scope` of REACH_CTE
unfoldable pub scope : Db → ℕ → List ℕ
unfolding roots down_edges
scope db caller = closure (down_edges db.threads) (roots db caller) (max_id db.threads)

unfoldable pub authorize : Db → ℕ → ℕ → Result Unit
unfolding scope
authorize db caller target =
    if contains (scope db caller) target
    then ok tt
    else err (refused (RefusedTarget.thread target) outside_grant)

-- `SELECT parent_thread_id FROM threads WHERE id=?2`
unfoldable pub parents : ℕ → List ThreadRow → List ℕ
parents thread [] = []
parents thread (t ∷ rest) =
    let more = parents thread rest in
    elim t.parent_thread_id [ none ↦ more | some p ↦ if t.id == thread then p ∷ more else more ]

unfoldable pub is_ancestor : Db → ℕ → ℕ → Bool
unfolding parents up_edges
is_ancestor db ancestor thread =
    contains (closure (up_edges db.threads) (parents thread db.threads) (max_id db.threads))
      ancestor

unfoldable pub owner_fence : Db → ℕ → ℕ → Result Unit
unfolding is_ancestor holds_root
owner_fence db caller target =
    if is_ancestor db target caller && not (holds_root db caller)
    then err (refused (RefusedTarget.thread target) RefusalReason.owner_fence)
    else ok tt

unfoldable pub validate_history : Db → String → Result Unit
validate_history db history =
    ensure (str_eq db.history_id history) (failed "Thread history is no longer current")

pub data ThreadRef : Type 0 where
  id : ℕ → ThreadRef
  dot : String → ThreadRef

-- `resolve` once the address is a number
unfoldable pub resolve_id : Db → ℕ → ℕ → Result ℕ
unfolding holds_root authorize
resolve_id db caller target =
    if target == 0
    then and_then (ensure (holds_root db caller) (refused RefusedTarget.root outside_grant))
        (λ _. ok 0)
    else and_then (authorize db caller target) (λ _. ok target)

unfoldable pub resolve : Db → ℕ → ThreadRef → Result ℕ
unfolding resolve_id
resolve db caller (ThreadRef.id target) = resolve_id db caller target
resolve db caller (ThreadRef.dot path) =
    and_then (ensure (str_eq path ".") (failed "invalid Thread reference"))
      (λ _. resolve_id db caller caller)

-- The Thread that a listing hangs under, or the top level.
unfoldable pub resolve_under : Db → ℕ → ThreadRef → Result (Option ℕ)
unfolding resolve
resolve_under db caller reference =
    and_then (resolve db caller reference)
      (λ target. ok (if target == 0 then none else some target))

-- storage.thread_in_scope
unfoldable pub thread_in_scope : Db → ℕ → ℕ → Bool
unfolding authorize
thread_in_scope db caller target = elim (authorize db caller target) [ ok _ ↦ true | err _ ↦ false ]
