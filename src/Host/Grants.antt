-- ===== src/Host/Grants.antt =====
-- crates/hirsel-host/src/storage/thread_grants.rs. `texts` are the functions on strings of the
-- standard library that it uses, `now` is the clock's reading, and an error leaves the tables as
-- they were: the transaction is not committed.
use hirsel.Base.{
  ℕ, suc, String, Bool, true, false, not, ◌&&◌, ◌||◌, Option, none, some, List, [], ◌∷◌, ◌++◌, ◌==◌,
  ltb, str_eq, if◌then◌else◌, any, retain, length, sort_by_key, nat_eq, string_eq, lookup, insert,
  update_first,
}
use hirsel.Proto.{Instant, ThreadGrant, ThreadGrantTarget, ThreadGrantSource, ReachTarget}
use hirsel.Host.Tables.{
  ThreadRow, GrantRow, Db, RefusedTarget, outside_grant, refused, inside_subtree, failed, Result,
  ok, err, and_then, ensure, find_thread_row,
}
use hirsel.Host.Scope.{holds_root, is_ancestor, authorize, validate_history}

pub record Texts : Type 0 where
  -- chars().count() and len()
  pub chars : String → ℕ
  pub bytes : String → ℕ
  -- chars().any(char::is_control)
  pub has_control : String → Bool
  pub trim : String → String

pub record ThreadGrants : Type 0 where
  pub history_id : String
  pub thread_id : ℕ
  pub thread : ThreadRow
  pub revision : ℕ
  pub grants : List ThreadGrant

-- threads.rs, get, as far as this file uses it
unfoldable pub get : Db → ℕ → Result ThreadRow
get db id = elim (find_thread_row db id) [
  | none ↦ err (failed "Query returned no rows")
  | some t ↦ ok t
]

-- `COALESCE(target_thread_id,0)`
abbrev pub key_of : Option ℕ → ℕ
key_of none = 0
key_of (some t) = t

abbrev pub target_key : GrantRow → ℕ
target_key g = key_of g.target_thread_id

-- The target of a row, with the title that the LEFT JOIN finds.
unfoldable pub stored_target : Db → Option ℕ → Result ThreadGrantTarget
unfolding get
stored_target db none = ok ThreadGrantTarget.root
stored_target db (some t) =
    and_then (get db t) (λ row. ok (ThreadGrantTarget.thread t row.title row.kind))

unfoldable pub to_grants : Db → List GrantRow → Result (List ThreadGrant)
unfolding stored_target
to_grants db [] = ok []
to_grants db (g ∷ rest) =
    let more = to_grants db rest in
    and_then (stored_target db g.target_thread_id) (λ target. and_then more (λ grants. ok (
      record {
        thread_id = g.thread_id;
        target = target;
        granted_by = g.granted_by;
        granted_at = g.granted_at;
        note = g.note;
      }
      ∷ grants)))

abbrev pub rows_of : ℕ → List GrantRow → List GrantRow
rows_of thread_id = retain (λ g. g.thread_id == thread_id)

unfoldable pub list : Db → ℕ → Result (List ThreadGrant)
unfolding to_grants
list db thread_id = to_grants db (sort_by_key target_key (rows_of thread_id db.thread_grants))

unfoldable pub snapshot : Db → ℕ → Result ThreadGrants
unfolding get list
snapshot db thread_id = and_then (get db thread_id) (λ thread.
    and_then (list db thread_id) (λ grants. ok (record {
      history_id = db.history_id;
      thread_id = thread_id;
      thread = thread;
      revision = thread.revision;
      grants = grants;
    })))

unfoldable pub advance : Db → ℕ → Instant → Db
advance db thread_id now = record db {
  threads =
      update_first (λ t. t.id == thread_id)
        (λ t. record t { revision = suc t.revision; updated_at = now }) db.threads;
}

unfoldable pub normalized_note : Texts → Option String → Result (Option String)
normalized_note texts none = ok none
normalized_note texts (some note) =
    if ltb 200 (texts.chars note) || texts.has_control note
    then err (failed "grant note must be at most 200 characters without control characters")
    else ok (if str_eq (texts.trim note) "" then none else some (texts.trim note))

unfoldable pub validate_target : Db → ℕ → ReachTarget → Result Unit
unfolding get is_ancestor
validate_target db thread_id ReachTarget.root = and_then (get db thread_id) (λ _. ok tt)
validate_target db thread_id (ReachTarget.thread target) = and_then (get db thread_id) (λ _.
    and_then (get db target) (λ _.
      and_then (ensure (not (thread_id == target)) (failed "a Thread always reaches itself"))
        (λ _. ensure (not (is_ancestor db thread_id target)) (inside_subtree target))))

abbrev pub target_column : ReachTarget → Option ℕ
target_column ReachTarget.root = none
target_column (ReachTarget.thread t) = some t

abbrev pub max_grants : ℕ
max_grants = 100

abbrev pub is_grant_of : ℕ → ℕ → GrantRow → Bool
is_grant_of thread_id key g = g.thread_id == thread_id && target_key g == key

-- The body of `grant` once the target and the note are known to be valid.
unfoldable pub insert_grant :
    Db → ℕ → Option ℕ → ThreadGrantSource → Option String → Instant → Result Db
unfolding advance
insert_grant db thread_id stored source note now =
    if any (is_grant_of thread_id (key_of stored)) db.thread_grants
    then ok db
    else if ltb (length (rows_of thread_id db.thread_grants)) max_grants
    then ok (
        advance
          (record db {
            thread_grants =
                db.thread_grants
                ++ record {
                  thread_id = thread_id;
                  target_thread_id = stored;
                  granted_by = source;
                  granted_at = now;
                  note = note;
                }
                  ∷ [];
          })
          thread_id now)
    else err (failed "Thread already holds 100 grants")

-- `snapshot` of the tables that a change leaves
abbrev pub with_snapshot : Db → ℕ → Result (Db × ThreadGrants)
with_snapshot db thread_id = and_then (snapshot db thread_id) (λ s. ok (db, s))

unfoldable pub grant :
    Texts
    → Db
    → ℕ
    → ReachTarget
    → ThreadGrantSource
    → Option String
    → Instant
    → Result (Db × ThreadGrants)
unfolding validate_target normalized_note insert_grant
grant texts db thread_id target source note now =
    and_then (validate_target db thread_id target) (λ _.
      and_then (normalized_note texts note) (λ note.
        and_then (insert_grant db thread_id (target_column target) source note now)
          (λ db'. with_snapshot db' thread_id)))

-- `DELETE`, with the revision when a row was there
unfoldable pub delete_grant : Db → ℕ → ReachTarget → Instant → Db
unfolding advance
delete_grant db thread_id target now =
    let mine = is_grant_of thread_id (key_of (target_column target)) in
    if any mine db.thread_grants
    then advance (record db { thread_grants = retain (λ g. not (mine g)) db.thread_grants })
        thread_id now
    else db

unfoldable pub revoke : Db → ℕ → ReachTarget → Instant → Result (Db × ThreadGrants)
unfolding get delete_grant
revoke db thread_id target now =
    and_then (get db thread_id)
      (λ _. with_snapshot (delete_grant db thread_id target now) thread_id)

-- The `match target` of `authorize_widening`
unfoldable pub widening_target : Db → ℕ → Option ReachTarget → Result Unit
unfolding holds_root authorize
widening_target db caller none = ok tt
widening_target db caller (some ReachTarget.root) =
    ensure (holds_root db caller) (refused RefusedTarget.root outside_grant)
widening_target db caller (some (ReachTarget.thread id)) = authorize db caller id

unfoldable pub authorize_widening : Db → ℕ → ℕ → Option ReachTarget → Result Unit
unfolding is_ancestor widening_target
authorize_widening db caller thread_id target =
    and_then
      (ensure (not (caller == thread_id))
        (failed "a Thread cannot change its own reach; ask the Thread that delegated to you"))
      (λ _.
        and_then
          (ensure (is_ancestor db caller thread_id)
            (failed "only an ancestor Thread can change a Thread's reach"))
          (λ _. widening_target db caller target))

unfoldable pub replay : Texts → Db → String → String → Result Bool
replay texts db client_id payload =
    if str_eq (texts.trim client_id) "" || ltb 200 (texts.bytes client_id)
    then err (failed "grant client_id must be 1..200 bytes")
    else elim (lookup client_id db.thread_grant_receipts) [
      | none ↦ ok false
      | some old ↦
          if str_eq old payload then ok true else err (failed "grant client_id payload changed")
    ]

abbrev pub add_receipt : String → String → Db × ThreadGrants → Db × ThreadGrants
add_receipt client_id payload (db, s) =
    (record db { thread_grant_receipts = insert client_id payload db.thread_grant_receipts }, s)

-- A call of `set_thread_reach`.
pub record ReachChange : Type 0 where
  pub client_id : String
  pub history_id : String
  pub thread_id : ℕ
  pub target : ReachTarget
  pub note : Option String
  pub granted : Bool

-- The change itself, for a client id that was not used before.
unfoldable pub change_reach :
    Texts → Db → ReachChange → Option String → Instant → Result (Db × ThreadGrants)
unfolding grant revoke
change_reach texts db r note now =
    if r.granted
    then grant texts db r.thread_id r.target ThreadGrantSource.owner note now
    else revoke db r.thread_id r.target now

-- `payload` is the JSON text of the operation, the history, the Thread, the target and the note.
unfoldable pub set_thread_reach :
    Texts
    → (ReachChange → Option String → String)
    → Db
    → ReachChange
    → Instant
    → Result (Db × ThreadGrants)
unfolding get normalized_note replay change_reach
set_thread_reach texts payload db r now = and_then (validate_history db r.history_id) (λ _.
    and_then (get db r.thread_id) (λ _. and_then (normalized_note texts r.note) (λ note.
      and_then (replay texts db r.client_id (payload r note)) (λ seen.
        if seen
        then with_snapshot db r.thread_id
        else and_then (change_reach texts db r note now)
            (λ done. ok (add_receipt r.client_id (payload r note) done))))))
