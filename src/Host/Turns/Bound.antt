-- ===== src/Host/Turns/Bound.antt =====
-- The callers of a turn that ended are refused
-- (crates/hirsel-host/src/storage/thread_scope.rs, validate_caller).
use hirsel.Base.{
  ℕ, ◌≡◌, refl, ap, ◌∙◌, true, false, some, List, [], ◌∷◌, arith, ◌==◌, ==_iff, find, Bool-cases,
  inl, inr,
}
use hirsel.Proto.{is_terminal}
use hirsel.Host.Tables.{TurnRow, Db, failed, err}
use hirsel.Host.Turns.Texts.{TurnTexts}
use hirsel.Host.Turns.Callers.{
  ThreadCaller, ThreadCallerAuthority, validate_caller, validate_as, turn_bound, turn_is, is_active,
}
use hirsel.Host.Turns.Machine.{IsSound, unique_ids, has_id}
use hirsel.Host.Turns.Refines.Accept.{table}
use hirsel.Host.Turns.Refines.Steps.{StorageSteps, StorageSteps-IsSound, StorageSteps-final}

some_row : (a b : TurnRow) → some a ≡ some b → a ≡ b
some_row a b h = cc

ended_inactive : (t : TurnRow) → is_terminal t.state ≡ true → is_active t ≡ false
unfolding is_terminal
ended_inactive t h = ground arith

no_turn :
    (id thread : ℕ) (ts : List TurnRow)
    → has_id id ts ≡ false
    → turn_is id thread is_active ts ≡ false
no_turn id thread [] h = refl
no_turn id thread (t ∷ ts) h = ground (arith, no_turn id thread ts)

ended_not_bound :
    (id thread : ℕ) (ts : List TurnRow) (t : TurnRow)
    → unique_ids ts ≡ true
    → find (λ u. u.id == id) ts ≡ some t
    → is_terminal t.state ≡ true
    → turn_is id thread is_active ts ≡ false
ended_not_bound id thread [] t u h k = cc
ended_not_bound id thread (x ∷ ts) t u h k = elim (Bool-cases (x.id == id)) [
  | inl q ↦
      let same : x ≡ t = some_row x t (ground arith) in
      let ended : is_active x ≡ false = ap is_active same ∙ ended_inactive t k in
      ground (arith, no_turn id thread ts, ==_iff x.id id)
  | inr q ↦ ground (arith, ended_not_bound id thread ts t)
]

refused :
    (db : Db) (caller : ThreadCaller)
    → caller.authority ≡ ThreadCallerAuthority.turn
    → turn_is caller.turn_id caller.thread_id is_active db.thread_turns ≡ false
    → validate_caller db caller ≡ err (failed "Thread execution binding is unavailable")
unfolding validate_caller
refused db caller a h = at caller.authority a
  where
    at :
        (o : ThreadCallerAuthority)
        → o ≡ ThreadCallerAuthority.turn
        → validate_as db caller o ≡ err (failed "Thread execution binding is unavailable")
    at (ThreadCallerAuthority.process id) e = absurd (ground arith)
    at ThreadCallerAuthority.turn e =
        let b : turn_bound db caller ≡ false = unfold turn_bound in ground arith in rw b refl

module _ (texts : TurnTexts) where
  -- Once a turn ended, and along any run of storage without a reset, a caller with the authority of
  -- that turn is refused, even where its binding was never revoked. (A process that is pinned to the
  -- turn has another authority, and is not.)
  pub ended-refused :
      {db d : Db} (t : TurnRow) (caller : ThreadCaller)
      → StorageSteps texts db d
      → IsSound (table db)
      → find (λ u. u.id == caller.turn_id) db.thread_turns ≡ some t
      → is_terminal t.state ≡ true
      → caller.authority ≡ ThreadCallerAuthority.turn
      → validate_caller d caller ≡ err (failed "Thread execution binding is unavailable")
  ended-refused {db} {d} t caller run s h k a =
      let sound = StorageSteps-IsSound texts run s in
      let (u, at, kept) = StorageSteps-final texts caller.turn_id t run s h k in
      refused d caller a (
        ended_not_bound caller.turn_id caller.thread_id d.thread_turns u sound.distinct at
          (ap is_terminal kept.state ∙ k))
