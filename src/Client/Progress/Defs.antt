-- ===== src/Client/Progress/Defs.antt =====
-- The order in which the client's stores follow one another.
use hirsel.Base.{ℕ, ◌≤◌, ◌≡◌, ◌∙◌, true, Option, some, List, arith, ◌==◌, find, contains, nat_eq}
use hirsel.Proto.{Thread, ThreadTurn, is_terminal}
use hirsel.Client.Store.{LocalStore}

abbrev pub find_turn : ℕ → List ThreadTurn → Option ThreadTurn
find_turn id = find (λ t. t.id == id)

abbrev pub find_thread : ℕ → List Thread → Option Thread
find_thread id = find (λ t. t.id == id)

-- Removed messages stay removed, a finished turn is final, and the history is the same.
pub record Advances (s t : LocalStore) : Type 0 where
  pub removed :
      (id : ℕ) → contains s.removed_message_ids id ≡ true → contains t.removed_message_ids id ≡ true
  pub settled :
      (id : ℕ) (o : ThreadTurn)
      → find_turn id s.turns ≡ some o
      → is_terminal o.state ≡ true
      → find_turn id t.turns ≡ some o
  pub history : t.history_id ≡ s.history_id

-- Every Thread is still there, at a revision that is no older.
pub record Newer (s t : LocalStore) : Type 0 where
  pub at :
      (id : ℕ) (o : Thread)
      → find_thread id s.threads ≡ some o
      → (n : Thread) × (find_thread id t.threads ≡ some n) × (o.revision ≤ n.revision)

pub Advances-trans : {s t u : LocalStore} → Advances s t → Advances t u → Advances s u
Advances-trans a b = record {
  removed = λ id h. b.removed id (a.removed id h);
  settled = λ id o h e. b.settled id o (a.settled id o h e) e;
  history = b.history ∙ a.history;
}

pub Newer-trans : {s t u : LocalStore} → Newer s t → Newer t u → Newer s u
Newer-trans a b = record {
  at = λ id o h.
      let (n, e, l) = a.at id o h in let (m, e', l') = b.at id n e in (m, e', omega arith);
}

-- What the two orders look at is left alone.
pub record SameKnown (s t : LocalStore) : Type 0 where
  pub removed : t.removed_message_ids ≡ s.removed_message_ids
  pub turns : t.turns ≡ s.turns
  pub threads : t.threads ≡ s.threads
  pub history : t.history_id ≡ s.history_id

-- Both orders at once, for a frame that is not a hello.
abbrev pub Follows : LocalStore → LocalStore → Type 0
Follows s t = Advances s t × Newer s t

pub SameKnown-Follows : {s t : LocalStore} → SameKnown s t → Follows s t
SameKnown-Follows k = (
  record {
    removed = λ id h. rw k.removed h;
    settled = λ id o h e. rw k.turns h;
    history = k.history;
  },
  record { at = λ id o h. (o, rw k.threads h, omega arith) },
)

pub Follows-trans : {s t u : LocalStore} → Follows s t → Follows t u → Follows s u
Follows-trans a b = (Advances-trans a.0 b.0, Newer-trans a.1 b.1)
