-- ===== src/Host/Turns/Machine/Sound.antt =====
-- The turn machine keeps its table sound.
use hirsel.Base.{
  ℕ, suc, ◌≡◌, refl, ap, sym, ◌∙◌, subst, Bool, true, false, ◌&&◌, ◌||◌, some, List, [], ◌∷◌, ◌++◌,
  arith, ◌==◌, ==_iff, Option, find, Bool-cases, inl, inr, any-append,
}
use hirsel.Proto.{Instant, ThreadTurnState, is_terminal}
use hirsel.Host.Tables.{TurnRow}
use hirsel.Host.Turns.Rows.{is_running, is_queued, has_running, update_turn}
use hirsel.Host.Turns.Queue.{started}
use hirsel.Host.Turns.Finish.{finished}
use hirsel.Host.Turns.Requests.{cancel_where}
use hirsel.Host.Turns.Messages.{heard, answered}
use hirsel.Host.Turns.Machine.{
  TurnTable, TurnStep, TurnSteps, accept, start, end, stop, hear, answer, here, next, IsSound,
  has_id, unique_ids, ids_within, one_running, all_checked, satisfies_checks,
}

-- Rows at the end
unique_ids-push :
    (ts : List TurnRow) (t : TurnRow)
    → unique_ids ts ≡ true
    → has_id t.id ts ≡ false
    → unique_ids (ts ++ t ∷ []) ≡ true
unique_ids-push [] t u h = refl
unique_ids-push (x ∷ ts) t u h = ground (
  arith,
  unique_ids-push ts t,
  any-append (λ o. o.id == x.id) ts (t ∷ []),
  ==_iff x.id t.id,
  ==_iff t.id x.id,
)

within-new : (n : ℕ) (ts : List TurnRow) → ids_within n ts ≡ true → has_id (suc n) ts ≡ false
within-new n [] h = refl
within-new n (t ∷ ts) h = ground (arith, within-new n ts)

within-push :
    (n : ℕ) (ts : List TurnRow) (t : TurnRow)
    → ids_within n ts ≡ true
    → t.id ≡ suc n
    → ids_within (suc n) (ts ++ t ∷ []) ≡ true
within-push n [] t h e = ground arith
within-push n (x ∷ ts) t h e = ground (arith, within-push n ts t)

one_running-push :
    (ts : List TurnRow) (t : TurnRow)
    → one_running ts ≡ true
    → (is_running t.state && has_running t.thread_id ts) ≡ false
    → one_running (ts ++ t ∷ []) ≡ true
one_running-push [] t o h = ground arith
one_running-push (x ∷ ts) t o h = ground (
  arith,
  one_running-push ts t,
  any-append (λ u. u.thread_id == x.thread_id && is_running u.state) ts (t ∷ []),
  ==_iff x.thread_id t.thread_id,
  ==_iff t.thread_id x.thread_id,
)

all_checked-push :
    (ts : List TurnRow) (t : TurnRow)
    → all_checked ts ≡ true
    → satisfies_checks t ≡ true
    → all_checked (ts ++ t ∷ []) ≡ true
all_checked-push [] t o h = ground arith
all_checked-push (x ∷ ts) t o h = ground (arith, all_checked-push ts t)

-- An update that keeps the ids
module _ (f : TurnRow → TurnRow) (same : (t : TurnRow) → (f t).id ≡ t.id) where
  has_id-update : (k id : ℕ) (ts : List TurnRow) → has_id k (update_turn id f ts) ≡ has_id k ts
  has_id-update k id [] = refl
  has_id-update k id (t ∷ ts) = ground (arith, has_id-update k id ts, same t)

  unique_ids-update :
      (id : ℕ) (ts : List TurnRow) → unique_ids (update_turn id f ts) ≡ unique_ids ts
  unique_ids-update id [] = refl
  unique_ids-update id (t ∷ ts) =
      ground (arith, unique_ids-update id ts, same t, has_id-update t.id id ts)

  within-update :
      (n id : ℕ) (ts : List TurnRow) → ids_within n (update_turn id f ts) ≡ ids_within n ts
  within-update n id [] = refl
  within-update n id (t ∷ ts) = ground (arith, within-update n id ts, same t)

update-absent :
    (f : TurnRow → TurnRow) (id : ℕ) (ts : List TurnRow)
    → has_id id ts ≡ false
    → update_turn id f ts ≡ ts
update-absent f id [] h = refl
update-absent f id (t ∷ ts) h = ground (arith, update-absent f id ts)

some_row : (a b : TurnRow) → some a ≡ some b → a ≡ b
some_row a b h = cc

-- The row that an update changes
all_checked-update :
    (f : TurnRow → TurnRow) (t : TurnRow) (ts : List TurnRow)
    → unique_ids ts ≡ true
    → find (λ u. u.id == t.id) ts ≡ some t
    → satisfies_checks (f t) ≡ true
    → all_checked ts ≡ true
    → all_checked (update_turn t.id f ts) ≡ true
all_checked-update f t [] u e s c = refl
all_checked-update f t (x ∷ ts) u e s c = elim (Bool-cases (x.id == t.id)) [
  | inl q ↦
      let same : x ≡ t = some_row x t (ground arith) in
      let rest : update_turn t.id f ts ≡ ts =
        update-absent f t.id ts (ground (arith, ==_iff x.id t.id)) in
      rw q (rw rest (ground (arith, ap (λ o. satisfies_checks (f o)) same)))
  | inr q ↦ ground (arith, all_checked-update f t ts)
]

-- The Threads that run after a turn is started
running-started :
    (k : ℕ) (t : TurnRow) (now : Instant) (ts : List TurnRow)
    → unique_ids ts ≡ true
    → find (λ u. u.id == t.id) ts ≡ some t
    → has_running k (update_turn t.id (started now) ts) ≡ true
    → (has_running k ts || t.thread_id == k) ≡ true
running-started k t now [] u e h = cc
running-started k t now (x ∷ ts) u e h = elim (Bool-cases (x.id == t.id)) [
  | inl q ↦
      let same : x ≡ t = some_row x t (ground arith) in
      let rest : update_turn t.id (started now) ts ≡ ts =
        update-absent (started now) t.id ts (ground (arith, ==_iff x.id t.id)) in
      ground (arith, ap (λ (o : TurnRow). o.thread_id) same, rest)
  | inr q ↦ ground (arith, running-started k t now ts)
]

one_running-start :
    (t : TurnRow) (now : Instant) (ts : List TurnRow)
    → unique_ids ts ≡ true
    → find (λ u. u.id == t.id) ts ≡ some t
    → has_running t.thread_id ts ≡ false
    → one_running ts ≡ true
    → one_running (update_turn t.id (started now) ts) ≡ true
one_running-start t now [] u e h o = refl
one_running-start t now (x ∷ ts) u e h o = elim (Bool-cases (x.id == t.id)) [
  | inl q ↦
      let same : x ≡ t = some_row x t (ground arith) in
      let rest : update_turn t.id (started now) ts ≡ ts =
        update-absent (started now) t.id ts (ground (arith, ==_iff x.id t.id)) in
      rw q (rw rest (ground (arith, ap (λ (o : TurnRow). o.thread_id) same)))
  | inr q ↦ ground (
    arith,
    one_running-start t now ts,
    running-started x.thread_id t now ts,
    ==_iff t.thread_id x.thread_id,
    ==_iff x.thread_id x.thread_id,
    ==_iff x.thread_id t.thread_id,
  )
]

-- An update whose rows do not run
module _ (f : TurnRow → TurnRow) (ends : (t : TurnRow) → is_running (f t).state ≡ false) where
  running-end :
      (k id : ℕ) (ts : List TurnRow)
      → has_running k (update_turn id f ts) ≡ true
      → has_running k ts ≡ true
  running-end k id [] h = h
  running-end k id (t ∷ ts) h = elim (Bool-cases (t.id == id)) [
    | inl q ↦
        let rest : has_running k (update_turn id f ts) ≡ true = ground (arith, ends t) in
        ground (arith, running-end k id ts rest)
    | inr q ↦ ground (arith, running-end k id ts)
  ]

  one_running-end :
      (id : ℕ) (ts : List TurnRow)
      → one_running ts ≡ true
      → one_running (update_turn id f ts) ≡ true
  one_running-end id [] o = refl
  one_running-end id (t ∷ ts) o = elim (Bool-cases (t.id == id)) [
    | inl q ↦ rw q (ground (arith, ends t, one_running-end id ts))
    | inr q ↦ ground (arith, one_running-end id ts, running-end t.thread_id id ts)
  ]

terminal-rests : (s : ThreadTurnState) → is_terminal s ≡ true → is_running s ≡ false
unfolding is_terminal
terminal-rests s h = ground arith

module _ (p : TurnRow → Bool) (now : Instant) where
  has_id-cancel : (k : ℕ) (ts : List TurnRow) → has_id k (cancel_where p now ts) ≡ has_id k ts
  has_id-cancel k [] = refl
  has_id-cancel k (t ∷ ts) = ground (arith, has_id-cancel k ts)

  unique_ids-cancel : (ts : List TurnRow) → unique_ids (cancel_where p now ts) ≡ unique_ids ts
  unique_ids-cancel [] = refl
  unique_ids-cancel (t ∷ ts) = ground (arith, unique_ids-cancel ts, has_id-cancel t.id ts)

  within-cancel :
      (n : ℕ) (ts : List TurnRow) → ids_within n (cancel_where p now ts) ≡ ids_within n ts
  within-cancel n [] = refl
  within-cancel n (t ∷ ts) = ground (arith, within-cancel n ts)

  running-cancel :
      (k : ℕ) (ts : List TurnRow) → has_running k (cancel_where p now ts) ≡ has_running k ts
  running-cancel k [] = refl
  running-cancel k (t ∷ ts) = ground (arith, running-cancel k ts)

  one_running-cancel : (ts : List TurnRow) → one_running (cancel_where p now ts) ≡ one_running ts
  one_running-cancel [] = refl
  one_running-cancel (t ∷ ts) = ground (arith, one_running-cancel ts, running-cancel t.thread_id ts)

  all_checked-cancel : (ts : List TurnRow) → all_checked (cancel_where p now ts) ≡ all_checked ts
  unfolding satisfies_checks
  all_checked-cancel [] = refl
  all_checked-cancel (t ∷ ts) = ground (arith, all_checked-cancel ts)

checked-find :
    (id : ℕ) (ts : List TurnRow) (t : TurnRow)
    → find (λ u. u.id == id) ts ≡ some t
    → all_checked ts ≡ true
    → satisfies_checks t ≡ true
checked-find id [] t e c = cc
checked-find id (x ∷ ts) t e c = elim (Bool-cases (x.id == id)) [
  | inl q ↦
      let same : x ≡ t = some_row x t (ground arith) in
      ap satisfies_checks (sym same) ∙ ground arith
  | inr q ↦ checked-find id ts t (ground arith) (ground arith)
]

started-checked :
    (t : TurnRow) (now : Instant)
    → is_queued t.state ≡ true
    → satisfies_checks t ≡ true
    → satisfies_checks (started now t) ≡ true
unfolding satisfies_checks
started-checked t now q c = ground arith

finished-checked :
    (t : TurnRow) (state : ThreadTurnState) (reply : Option ℕ) (now : Instant)
    → is_terminal state ≡ true
    → satisfies_checks t ≡ true
    → satisfies_checks (finished state reply now t) ≡ true
unfolding satisfies_checks
finished-checked t ThreadTurnState.queued reply now q c = cc
finished-checked t ThreadTurnState.running reply now q c = cc
finished-checked t ThreadTurnState.completed reply now q c = ground arith
finished-checked t ThreadTurnState.failed reply now q c = ground arith
finished-checked t ThreadTurnState.cancelled reply now q c = ground arith
finished-checked t ThreadTurnState.interrupted reply now q c = ground arith

-- An update that keeps where a turn stands
module _ (f : TurnRow → TurnRow) (same : (t : TurnRow) → (f t).thread_id ≡ t.thread_id)
    (state : (t : TurnRow) → (f t).state ≡ t.state) where
  running-same :
      (k id : ℕ) (ts : List TurnRow) → has_running k (update_turn id f ts) ≡ has_running k ts
  running-same k id [] = refl
  running-same k id (t ∷ ts) = ground (arith, running-same k id ts, same t, ap is_running (state t))

  one_running-same :
      (id : ℕ) (ts : List TurnRow) → one_running (update_turn id f ts) ≡ one_running ts
  one_running-same id [] = refl
  one_running-same id (t ∷ ts) = elim (Bool-cases (t.id == id)) [
    | inl q ↦ rw q (
        ground (
          arith,
          one_running-same id ts,
          running-same t.thread_id id ts,
          same t,
          ap (λ k. has_running k (update_turn id f ts)) (same t),
          ap is_running (state t),
        ))
    | inr q ↦ ground (arith, one_running-same id ts, running-same t.thread_id id ts)
  ]

heard-checked :
    (t : TurnRow) (now : Instant)
    → satisfies_checks t ≡ true
    → satisfies_checks (heard now t) ≡ true
unfolding satisfies_checks
heard-checked t now h = ground arith

answered-checked :
    (t : TurnRow) (m : ℕ) → satisfies_checks t ≡ true → satisfies_checks (answered m t) ≡ true
unfolding satisfies_checks
answered-checked t m h = ground arith

pub TurnStep-IsSound : (x y : TurnTable) → TurnStep x y → IsSound x → IsSound y
TurnStep-IsSound x y (accept t e o c r same) s = subst IsSound (sym same) (record {
  distinct =
      unique_ids-push x.0 t s.distinct (ap (λ k. has_id k x.0) e ∙ within-new x.1 x.0 s.bounded);
  bounded = within-push x.1 x.0 t s.bounded e;
  single = one_running-push x.0 t s.single r;
  checked = all_checked-push x.0 t s.checked c;
})
TurnStep-IsSound x y (start t now e q r same) s = subst IsSound (sym same) (record {
  distinct = unique_ids-update (started now) (λ o. refl) t.id x.0 ∙ s.distinct;
  bounded = within-update (started now) (λ o. refl) x.1 t.id x.0 ∙ s.bounded;
  single = one_running-start t now x.0 s.distinct e r s.single;
  checked =
      all_checked-update (started now) t x.0 s.distinct e
        (started-checked t now q (checked-find t.id x.0 t e s.checked)) s.checked;
})
TurnStep-IsSound x y (end t state reply now e o q same) s = subst IsSound (sym same) (record {
  distinct = unique_ids-update (finished state reply now) (λ o. refl) t.id x.0 ∙ s.distinct;
  bounded = within-update (finished state reply now) (λ o. refl) x.1 t.id x.0 ∙ s.bounded;
  single =
      one_running-end (finished state reply now) (λ o. terminal-rests state q) t.id x.0 s.single;
  checked =
      all_checked-update (finished state reply now) t x.0 s.distinct e
        (finished-checked t state reply now q (checked-find t.id x.0 t e s.checked)) s.checked;
})
TurnStep-IsSound x y (stop p now o same) s = subst IsSound (sym same) (record {
  distinct = unique_ids-cancel p now x.0 ∙ s.distinct;
  bounded = within-cancel p now x.1 x.0 ∙ s.bounded;
  single = one_running-cancel p now x.0 ∙ s.single;
  checked = all_checked-cancel p now x.0 ∙ s.checked;
})
TurnStep-IsSound x y (hear t now e same) s = subst IsSound (sym same) (record {
  distinct = unique_ids-update (heard now) (λ o. refl) t.id x.0 ∙ s.distinct;
  bounded = within-update (heard now) (λ o. refl) x.1 t.id x.0 ∙ s.bounded;
  single = one_running-same (heard now) (λ o. refl) (λ o. refl) t.id x.0 ∙ s.single;
  checked =
      all_checked-update (heard now) t x.0 s.distinct e
        (heard-checked t now (checked-find t.id x.0 t e s.checked)) s.checked;
})
TurnStep-IsSound x y (answer t m e n same) s = subst IsSound (sym same) (record {
  distinct = unique_ids-update (answered m) (λ o. refl) t.id x.0 ∙ s.distinct;
  bounded = within-update (answered m) (λ o. refl) x.1 t.id x.0 ∙ s.bounded;
  single = one_running-same (answered m) (λ o. refl) (λ o. refl) t.id x.0 ∙ s.single;
  checked =
      all_checked-update (answered m) t x.0 s.distinct e
        (answered-checked t m (checked-find t.id x.0 t e s.checked)) s.checked;
})

pub TurnSteps-IsSound : {x y : TurnTable} → TurnSteps x y → IsSound x → IsSound y
TurnSteps-IsSound here s = s
TurnSteps-IsSound (next {y} {z} r st) s = TurnStep-IsSound y z st (TurnSteps-IsSound r s)
