-- ===== src/Client/WellFormed/Defs.antt =====
-- The invariant of `LocalStore`.
use hirsel.Base.{ℕ, ◌≡◌, true, false, some, Distinct, contains, nat_eq}
use hirsel.Proto.{Thread, ThreadTurn, ThreadActivity}
use hirsel.Client.Entry.{entry_id, ThreadStream}
use hirsel.Client.Store.{LocalStore, default_store, has_message}

-- No identifier is shown twice, no removed message is shown, and a Thread has one live stream.
pub record IsWellFormed (s : LocalStore) : Type 0 where
  pub messages : Distinct entry_id s.messages
  pub removed :
      (id : ℕ) → contains s.removed_message_ids id ≡ true → has_message id s.messages ≡ false
  pub threads : Distinct (λ (t : Thread). some t.id) s.threads
  pub turns : Distinct (λ (t : ThreadTurn). some t.id) s.turns
  pub activities : Distinct (λ (a : ThreadActivity). some a.id) s.activities
  pub streams : Distinct (λ (v : ThreadStream). some v.thread_id) s.streams

pub default-IsWellFormed : IsWellFormed default_store
unfolding has_message
default-IsWellFormed = record {
  messages = tt;
  removed = λ id h. cc;
  threads = tt;
  turns = tt;
  activities = tt;
  streams = tt;
}
