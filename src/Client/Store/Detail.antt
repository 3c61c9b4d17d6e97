-- ===== src/Client/Store/Detail.antt =====
-- store.rs: the snapshots that an opened Thread brings.
use hirsel.Base.{
  ℕ, nat_eq, string_eq, ◌-◌, ◌^◌, String, Bool, true, false, not, ◌||◌, Option, none, some, List,
  [], ◌∷◌, ◌++◌, ltb, ◌==◌, str_eq, if◌then◌else◌, any, retain, sort_by_key, lookup, insert,
  contains, remove,
}
use hirsel.Proto.{
  ThreadRelatedItem, ThreadGrant, ThreadDetail, ThreadTurn, ThreadActivity, ChatMessage,
  ClientToHost,
}
use hirsel.Client.Entry.{ChatEntry, entry_id, PendingOp, open_thread}
use hirsel.Client.Store.State.{LocalStore}
use hirsel.Client.Store.Messages.{track_pending, apply_message}
use hirsel.Client.Store.Work.{upsert_thread, upsert_turn, upsert_activity}

-- `self.revisions.get(&thread_id).is_some_and(|old| *old > revision)`
unfoldable pub is_stale : List (ℕ × ℕ) → ℕ → ℕ → Bool
is_stale revisions thread_id revision = elim (lookup thread_id revisions) [
  | none ↦ false
  | some old ↦ ltb revision old
]

unfoldable pub replace_related_items :
    LocalStore → ℕ → ℕ → List ThreadRelatedItem → LocalStore × Bool
unfolding is_stale
replace_related_items s thread_id revision items =
    if is_stale s.related_revisions thread_id revision
      || any (λ link. not (link.thread_id == thread_id)) items
    then (s, false)
    else (
      record s {
        related_revisions = insert thread_id revision s.related_revisions;
        related_items = retain (λ link. not (link.thread_id == thread_id)) s.related_items ++ items;
      },
      true,
    )

unfoldable pub replace_grants : LocalStore → ℕ → ℕ → List ThreadGrant → LocalStore × Bool
unfolding is_stale
replace_grants s thread_id revision grants =
    if is_stale s.grant_revisions thread_id revision
      || any (λ grant. not (grant.thread_id == thread_id)) grants
    then (s, false)
    else (
      record s {
        grant_revisions = insert thread_id revision s.grant_revisions;
        grants = retain (λ grant. not (grant.thread_id == thread_id)) s.grants ++ grants;
      },
      true,
    )

-- `self.history_id.as_deref() == Some(history_id)`
unfoldable pub has_history : LocalStore → String → Bool
has_history s history = elim s.history_id [ none ↦ false | some h ↦ str_eq h history ]

unfoldable pub apply_thread_grants :
    LocalStore → String → ℕ → ℕ → List ThreadGrant → LocalStore × Bool
unfolding has_history replace_grants
apply_thread_grants s history thread_id revision grants =
    if has_history s history then replace_grants s thread_id revision grants else (s, false)

unfoldable pub apply_thread_related :
    LocalStore → String → ℕ → ℕ → List ThreadRelatedItem → LocalStore × Bool
unfolding has_history replace_related_items
apply_thread_related s history thread_id revision items =
    if has_history s history then replace_related_items s thread_id revision items else (s, false)

-- The loops of `apply_detail` over the detail's messages, turns and activities.
unfoldable pub apply_messages : LocalStore → ℕ → List ChatMessage → LocalStore
apply_messages s thread_id [] = s
apply_messages s thread_id (m ∷ rest) =
    apply_messages (if m.thread_id == thread_id then apply_message s m else s) thread_id rest

unfoldable pub upsert_turns : LocalStore → ℕ → List ThreadTurn → LocalStore
upsert_turns s thread_id [] = s
upsert_turns s thread_id (t ∷ rest) =
    upsert_turns (if t.thread_id == thread_id then upsert_turn s t else s) thread_id rest

unfoldable pub upsert_activities : LocalStore → ℕ → List ThreadActivity → LocalStore
upsert_activities s thread_id [] = s
upsert_activities s thread_id (a ∷ rest) =
    upsert_activities (if a.thread_id == thread_id then upsert_activity s a else s) thread_id rest

-- `entry.id().unwrap_or(u64::MAX)`
abbrev pub sort_id : ChatEntry → ℕ
sort_id e = elim (entry_id e) [ none ↦ 2 ^ 64 - 1 | some id ↦ id ]

-- The brief and the two flags of the opened Thread.
unfoldable pub note_opened : LocalStore → ThreadDetail → LocalStore
note_opened s d =
    let id = d.thread.id in
    let others = retain (λ (t : ℕ). not (t == id)) s.history_has_more in
    record s {
      briefs =
          retain (λ b. not (b.thread_id == id)) s.briefs
          ++ record { thread_id = id; text = d.brief.text; artifact_ids = d.brief.artifact_ids }
            ∷ [];
      opened_threads =
          if contains s.opened_threads id then s.opened_threads else s.opened_threads ++ id ∷ [];
      history_has_more = if d.has_more then others ++ id ∷ [] else others;
    }

-- `apply_detail` once the answer is known to belong to a pending open.
unfoldable pub install_detail : LocalStore → ThreadDetail → LocalStore
unfolding note_opened
install_detail s d =
    let id = d.thread.id in
    let s1 = (replace_related_items s id d.thread.revision d.related_items).0 in
    let s2 = (replace_grants s1 id d.thread.revision d.grants).0 in
    let s3 = upsert_thread (note_opened s2 d) d.thread in
    let s4 = apply_messages s3 id d.messages in
    let s5 = upsert_activities (upsert_turns s4 id d.turns) id d.activities in
    record s5 { messages = sort_by_key sort_id s5.messages }

-- `Some(PendingOp::OpenThread { thread_id })` with the detail's own Thread
abbrev pub is_open_of : Option PendingOp → ℕ → Bool
is_open_of (some (open_thread t)) id = t == id
is_open_of _ id = false

unfoldable pub apply_detail : LocalStore → String → ThreadDetail → LocalStore × Bool
unfolding install_detail
apply_detail s client_id d =
    if is_open_of (lookup client_id s.pending_ops) d.thread.id
    then (install_detail (record s { pending_ops = remove client_id s.pending_ops }) d, true)
    else (s, false)

-- `fresh` is the new UUID.
unfoldable pub refresh_open_thread : LocalStore → ℕ → String → LocalStore × Option ClientToHost
refresh_open_thread s thread_id fresh =
    if contains s.opened_threads thread_id
    then (
      track_pending s fresh (open_thread thread_id),
      some (ClientToHost.open_thread fresh thread_id none),
    )
    else (s, none)
