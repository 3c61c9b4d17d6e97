-- ===== src/Host/Turns/Machine.antt =====
-- What storage promises of the turns, apart from all other tables: a turn is accepted, started when
-- no other turn of its Thread runs, asked to stop, and ended once; its events are noted, and it is
-- answered once. The invariant of thread_turns in
-- crates/hirsel-host/src/storage/current.sql.
pub mod Sound
pub mod Final
use hirsel.Base.{
  ℕ, suc, ◌≤◌, ◌<◌, ◌+◌, ◌≡◌, refl, ap, sym, ◌∙◌, subst, Bool, true, false, not, ◌&&◌, ◌||◌, Option,
  none, some, List, [], ◌∷◌, ◌++◌, arith, ◌==◌, ==_iff, leb, ltb, if◌then◌else◌, any, find, All,
  if_cases, Bool-cases, inl, inr, any-append, find-push, find-sat,
}
use hirsel.Proto.{Instant, ThreadTurnState, is_terminal}
use hirsel.Host.Tables.{TurnRow}
use hirsel.Host.Turns.Rows.{is_set, is_running, is_queued, has_running, update_turn}
use hirsel.Host.Turns.Queue.{started}
use hirsel.Host.Turns.Finish.{finished}
use hirsel.Host.Turns.Requests.{cancel_where}
use hirsel.Host.Turns.Messages.{heard, answered}

-- The CHECK constraints of the table
unfoldable pub satisfies_checks : TurnRow → Bool
unfolding is_terminal
satisfies_checks t =
    not (is_queued t.state && is_set t.started_at)
    && (not (is_running t.state && not (is_set t.started_at))
        && (not (is_running t.state && not (is_set t.last_event_at))
            && ((if is_terminal t.state then is_set t.finished_at else not (is_set t.finished_at))
                && not (is_set t.requester_turn_id && not (is_set t.requester_thread_id)))))

abbrev pub TurnTable : Type 0
TurnTable = List TurnRow × ℕ

-- One change of the table. The number is the last id that was given.
pub data TurnStep (x y : TurnTable) : Type 0 where
  accept :
      (t : TurnRow)
      → t.id ≡ suc x.1
      → is_terminal t.state ≡ false
      → satisfies_checks t ≡ true
      → (is_running t.state && has_running t.thread_id x.0) ≡ false
      → y ≡ (x.0 ++ t ∷ [], suc x.1)
      → TurnStep x y
  start :
      (t : TurnRow) (now : Instant)
      → find (λ u. u.id == t.id) x.0 ≡ some t
      → is_queued t.state ≡ true
      → has_running t.thread_id x.0 ≡ false
      → y ≡ (update_turn t.id (started now) x.0, x.1)
      → TurnStep x y
  end :
      (t : TurnRow) (state : ThreadTurnState) (reply : Option ℕ) (now : Instant)
      → find (λ u. u.id == t.id) x.0 ≡ some t
      → is_terminal t.state ≡ false
      → is_terminal state ≡ true
      → y ≡ (update_turn t.id (finished state reply now) x.0, x.1)
      → TurnStep x y
  stop :
      (p : TurnRow → Bool) (now : Instant)
      → ((t : TurnRow)
          → find (λ u. u.id == t.id) x.0 ≡ some t
          → is_terminal t.state ≡ true
          → p t ≡ false)
      → y ≡ (cancel_where p now x.0, x.1)
      → TurnStep x y
  hear :
      (t : TurnRow) (now : Instant)
      → find (λ u. u.id == t.id) x.0 ≡ some t
      → y ≡ (update_turn t.id (heard now) x.0, x.1)
      → TurnStep x y
  answer :
      (t : TurnRow) (message : ℕ)
      → find (λ u. u.id == t.id) x.0 ≡ some t
      → t.agent_message_id ≡ none
      → y ≡ (update_turn t.id (answered message) x.0, x.1)
      → TurnStep x y

pub data TurnSteps (x : TurnTable) : TurnTable → Type 0 where
  here : TurnSteps x x
  next : {y z : TurnTable} → TurnSteps x y → TurnStep y z → TurnSteps x z

pub TurnSteps-trans : {x y z : TurnTable} → TurnSteps x y → TurnSteps y z → TurnSteps x z
TurnSteps-trans p here = p
TurnSteps-trans p (next q s) = next (TurnSteps-trans p q) s

abbrev pub has_id : ℕ → List TurnRow → Bool
has_id id ts = any (λ u. u.id == id) ts

abbrev pub unique_ids : List TurnRow → Bool
unique_ids [] = true
unique_ids (t ∷ rest) = not (has_id t.id rest) && unique_ids rest

abbrev pub ids_within : ℕ → List TurnRow → Bool
ids_within n [] = true
ids_within n (t ∷ rest) = leb t.id n && ids_within n rest

-- At most one turn of each Thread runs.
abbrev pub one_running : List TurnRow → Bool
one_running [] = true
one_running (t ∷ rest) =
    not (is_running t.state && has_running t.thread_id rest) && one_running rest

abbrev pub all_checked : List TurnRow → Bool
all_checked [] = true
all_checked (t ∷ rest) = satisfies_checks t && all_checked rest

pub record IsSound (x : TurnTable) : Type 0 where
  pub distinct : unique_ids x.0 ≡ true
  pub bounded : ids_within x.1 x.0 ≡ true
  pub single : one_running x.0 ≡ true
  pub checked : all_checked x.0 ≡ true
