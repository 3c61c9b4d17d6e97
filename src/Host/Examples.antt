-- ===== src/Host/Examples.antt =====
-- Runs of the host's reach (crates/hirsel-host/src/storage/thread_scope.rs and thread_grants.rs).
use hirsel.Base.{
  List, ℕ, String, ◌≤◌, ◌≡◌, ◌≢◌, ◌↔◌, refl, subst, true, false, Option, none, some, [], ◌∷◌, arith,
  length, inl, inr, nat_eq,
}
use hirsel.Proto.{ThreadAttention, ThreadKind, ThreadGrantSource, ReachTarget}
use hirsel.Host.Closure.{closure}
use hirsel.Host.Tables.{ThreadRow, Db, Result, ok, err}
use hirsel.Host.Scope.{authorize, is_ancestor, holds_root, validate_history}
use hirsel.Host.Grants.{
  Texts, ReachChange, ThreadGrants, grant, rows_of, set_thread_reach, authorize_widening, snapshot,
}
use hirsel.Host.Reach.{IsRoot, Below, authorize_iff, is_ancestor_iff, ancestor-authorize}
use hirsel.Host.Authority.{
  Below-authorized, grant-widens, grant-others, grant-bounded, widening-within,
}
use hirsel.Host.Rollups.{
  Child, failed, running, idle, rank, has_child, all_from, aggregate, most_urgent,
  headline-most_urgent,
}
use hirsel.Host.Receipts.{set_thread_reach-again}

abbrev pub row : ℕ → Option ℕ → ThreadRow
row id parent = record {
  id = id;
  client_id = none;
  kind = ThreadKind.space;
  title = "Thread";
  description = "";
  instrument = none;
  parent_thread_id = parent;
  pinned_at = none;
  showcased_artifact_id = none;
  attention = ThreadAttention.quiet;
  settled_at = none;
  archived_at = none;
  snoozed_until = none;
  read = true;
  own_headline = "Ready";
  headline = "Ready";
  previous_headline = none;
  headline_revision = 1;
  last_seen_headline_revision = 1;
  revision = 1;
  updated_at = "2026-01-01T00:00:00Z";
}

-- 1 holds 2 and 3, 2 holds 4, and 5 stands alone.
abbrev pub tables : Db
tables = record {
  threads = row 1 none ∷ row 2 (some 1) ∷ row 3 (some 1) ∷ row 4 (some 2) ∷ row 5 none ∷ [];
  thread_grants = [];
  thread_grant_receipts = [];
  history_id = "h";
  thread_turns = [];
  thread_requests = [];
  thread_activities = [];
  thread_activity_keys = [];
  chat_messages = [];
  message_artifacts = [];
  activity_artifacts = [];
  turn_output_artifacts = [];
  thread_execution_preferences = [];
  thread_turn_execution = [];
  native_execution_default = none;
  thread_execution_bindings = [];
  thread_process_sessions = [];
  thread_process_authorities = [];
  thread_reports = [];
  thread_delegations = [];
  session_profiles = [];
  client_messages = [];
  thread_action_receipts = [];
  message_attachments = [];
  blobs = [];
  artifacts = [];
  thread_turn_events = [];
  last_thread_id = 5;
  last_turn_id = 0;
  last_request_id = 0;
  last_activity_id = 0;
  last_message_id = 0;
}

-- A stand-in for the functions on strings.
abbrev texts : Texts
texts = record { chars = λ s. 1; bytes = λ s. 1; has_control = λ s. false; trim = λ s. s }

abbrev pub today : String
today = "2026-01-02T00:00:00Z"

abbrev after : Result (Db × ThreadGrants) → Db
after (ok a) = a.0
after (err e) = tables

abbrev shown : Result (Db × ThreadGrants) → ThreadGrants
shown (ok a) = a.1
shown (err e) = record {
  history_id = "";
  thread_id = 0;
  thread = row 0 none;
  revision = 0;
  grants = [];
}

-- Thread 2 is given Thread 3 and what hangs below it.
abbrev given : Result (Db × ThreadGrants)
given = grant texts tables 2 (ReachTarget.thread 3) (ThreadGrantSource.thread 1) none today

given-ok : given ≡ ok (after given, shown given)
unfolding grant closure snapshot
given-ok = refl

authorize_iff_example :
    (authorize tables 1 4 ≡ ok tt) ↔ ((r : ℕ) × IsRoot tables 1 r × Below tables.threads r 4)
authorize_iff_example = authorize_iff tables 1 4 refl

is_ancestor_iff_example :
    (is_ancestor tables 1 4 ≡ true) ↔ (Below tables.threads 1 4 × (◌≢◌ {A = ℕ} 1 4))
is_ancestor_iff_example = is_ancestor_iff tables 1 4 refl

ancestor-authorize_example : authorize tables 1 4 ≡ ok tt
unfolding is_ancestor closure
ancestor-authorize_example = ancestor-authorize tables 1 4 refl refl

grant-widens_example : authorize (after given) 2 4 ≡ ok tt
unfolding authorize closure
grant-widens_example =
    grant-widens texts tables 2 (ReachTarget.thread 3) (ThreadGrantSource.thread 1) none today
      (after given) (shown given) 2 4 refl given-ok refl

grant-others_example : authorize tables 1 3 ≡ ok tt
unfolding authorize closure grant snapshot
grant-others_example =
    grant-others texts tables 2 (ReachTarget.thread 3) (ThreadGrantSource.thread 1) none today
      (after given) (shown given) 1 3 refl given-ok (λ e. omega arith) refl

grant-bounded_example : length (rows_of 2 (after given).thread_grants) ≤ 100
grant-bounded_example =
    grant-bounded texts tables 2 (ReachTarget.thread 3) (ThreadGrantSource.thread 1) none today
      (after given) (shown given) given-ok (λ c. omega arith) 2

only_root : (r : ℕ) → IsRoot tables 2 r → r ≡ 2
unfolding holds_root
only_root r (inl e) = e
only_root r (inr (inl k)) = cc
only_root r (inr (inr (h, k))) = cc

within_one : (x : ℕ) → authorize tables 2 x ≡ ok tt → authorize tables 1 x ≡ ok tt
unfolding authorize closure
within_one x h =
    let (r, k, below) = (authorize_iff tables 2 x refl).0 h in
    Below-authorized tables 1 2 x refl refl
      (subst (λ i. Below tables.threads i x) (only_root r k) below)

widening-within_example : authorize (after given) 1 3 ≡ ok tt
unfolding authorize authorize_widening grant closure snapshot
widening-within_example =
    widening-within texts tables 1 2 (ReachTarget.thread 3) (ThreadGrantSource.thread 1) none today
      (after given) (shown given) refl refl given-ok within_one 3 refl

abbrev change : ReachChange
change = record {
  client_id = "c1";
  history_id = "h";
  thread_id = 2;
  target = ReachTarget.root;
  note = none;
  granted = true;
}

abbrev payload : ReachChange → Option String → String
payload r text = "grant root"

abbrev changed : Result (Db × ThreadGrants)
changed = set_thread_reach texts payload tables change today

-- The Owner grants Thread 2 the root meanwhile, and the first change is sent again.
abbrev later_grant : Result (Db × ThreadGrants)
later_grant = grant texts (after changed) 2 ReachTarget.root ThreadGrantSource.owner none today

set_thread_reach-again_example :
    set_thread_reach texts payload (after later_grant) change "2026-01-03T00:00:00Z"
    ≡ ok (after later_grant, shown later_grant)
unfolding set_thread_reach closure snapshot validate_history grant
set_thread_reach-again_example =
    set_thread_reach-again texts payload change tables today (after changed) (shown changed)
      (after later_grant) "2026-01-03T00:00:00Z" (shown later_grant) refl refl refl refl

abbrev below_rows : List Child
below_rows = (2, idle) ∷ (2, failed) ∷ (3, running) ∷ []

headline-most_urgent_example :
    (has_child 2 (rank failed) below_rows ≡ true) × (all_from (rank failed) below_rows ≡ true)
unfolding most_urgent aggregate
headline-most_urgent_example = headline-most_urgent below_rows (2, failed) refl
