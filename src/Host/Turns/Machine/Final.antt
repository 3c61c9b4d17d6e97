-- ===== src/Host/Turns/Machine/Final.antt =====
-- What stays of a turn that ended.
use hirsel.Base.{
  ℕ, ◌≡◌, refl, ap, sym, ◌∙◌, subst, Bool, true, false, none, some, List, [], ◌∷◌, arith, ◌==◌,
  ==_iff, find, Bool-cases, inl, inr, find-push, find-sat,
}
use hirsel.Proto.{Instant, is_terminal}
use hirsel.Host.Tables.{TurnRow}
use hirsel.Host.Turns.Rows.{is_queued, update_turn}
use hirsel.Host.Turns.Queue.{started}
use hirsel.Host.Turns.Finish.{finished}
use hirsel.Host.Turns.Requests.{cancel_where}
use hirsel.Host.Turns.Messages.{heard, answered}
use hirsel.Host.Turns.Machine.{
  TurnTable, TurnStep, TurnSteps, accept, start, end, stop, hear, answer, here, next,
}

find-update_ne :
    (f : TurnRow → TurnRow) (same : (t : TurnRow) → (f t).id ≡ t.id) (k id : ℕ) (ts : List TurnRow)
    → (id == k) ≡ false
    → find (λ u. u.id == id) (update_turn k f ts) ≡ find (λ u. u.id == id) ts
find-update_ne f same k id [] h = refl
find-update_ne f same k id (t ∷ ts) h =
    ground
      (arith, find-update_ne f same k id ts, same t, ==_iff t.id k, ==_iff t.id id, ==_iff id k)

some_row : (a b : TurnRow) → some a ≡ some b → a ≡ b
some_row a b h = cc

-- A stop passes by a row that it does not choose.
find-cancel :
    (p : TurnRow → Bool) (now : Instant) (id : ℕ) (ts : List TurnRow) (t : TurnRow)
    → p t ≡ false
    → find (λ u. u.id == id) ts ≡ some t
    → find (λ u. u.id == id) (cancel_where p now ts) ≡ some t
find-cancel p now id [] t h e = cc
find-cancel p now id (x ∷ ts) t h e = elim (Bool-cases (x.id == id)) [
  | inl q ↦
      let same : x ≡ t = some_row x t (ground arith) in
      let kept : p x ≡ false = ap p same ∙ h in ground arith
  | inr q ↦ ground (arith, find-cancel p now id ts t)
]

-- A change of an open row is none of a row that ended.
module _ (f : TurnRow → TurnRow) (same : (t : TurnRow) → (f t).id ≡ t.id) where
  find-update_open :
      (u t : TurnRow) (ts : List TurnRow) (id : ℕ)
      → find (λ o. o.id == u.id) ts ≡ some u
      → is_terminal u.state ≡ false
      → find (λ o. o.id == id) ts ≡ some t
      → is_terminal t.state ≡ true
      → find (λ o. o.id == id) (update_turn u.id f ts) ≡ some t
  find-update_open u t ts id e o h k = elim (Bool-cases (id == u.id)) [
    | inl q ↦
        let at_u : find (λ o. o.id == id) ts ≡ some u =
          ap (λ i. find (λ (o : TurnRow). o.id == i) ts) ((==_iff id u.id).0 q) ∙ e in
        let both : some u ≡ some t = sym at_u ∙ h in absurd (ground (arith, both))
    | inr q ↦ find-update_ne f same u.id id ts q ∙ h
  ]

find-own :
    (id : ℕ) (ts : List TurnRow) (t : TurnRow)
    → find (λ u. u.id == id) ts ≡ some t
    → find (λ u. u.id == t.id) ts ≡ some t
find-own id ts t h =
    ap (λ k. find (λ (u : TurnRow). u.id == k) ts)
      ((==_iff t.id id).0 (find-sat (λ (u : TurnRow). u.id == id) ts t h))
    ∙ h

queued_open : (t : TurnRow) → is_queued t.state ≡ true → is_terminal t.state ≡ false
unfolding is_terminal
queued_open t h = ground arith

-- What stays: everything but the time of its last event, and a reply that is missing may come.
pub record SameEnd (t u : TurnRow) : Type 0 where
  pub id : u.id ≡ t.id
  pub thread_id : u.thread_id ≡ t.thread_id
  pub owner_message_id : u.owner_message_id ≡ t.owner_message_id
  pub state : u.state ≡ t.state
  pub accepted_at : u.accepted_at ≡ t.accepted_at
  pub started_at : u.started_at ≡ t.started_at
  pub finished_at : u.finished_at ≡ t.finished_at
  pub cancel_requested_at : u.cancel_requested_at ≡ t.cancel_requested_at
  pub reply : (message : ℕ) → t.agent_message_id ≡ some message → u.agent_message_id ≡ some message

SameEnd-refl : (t : TurnRow) → SameEnd t t
SameEnd-refl t = record {
  id = refl;
  thread_id = refl;
  owner_message_id = refl;
  state = refl;
  accepted_at = refl;
  started_at = refl;
  finished_at = refl;
  cancel_requested_at = refl;
  reply = λ m h. h;
}

pub SameEnd-trans : (t u v : TurnRow) → SameEnd t u → SameEnd u v → SameEnd t v
SameEnd-trans t u v a b = record {
  id = b.id ∙ a.id;
  thread_id = b.thread_id ∙ a.thread_id;
  owner_message_id = b.owner_message_id ∙ a.owner_message_id;
  state = b.state ∙ a.state;
  accepted_at = b.accepted_at ∙ a.accepted_at;
  started_at = b.started_at ∙ a.started_at;
  finished_at = b.finished_at ∙ a.finished_at;
  cancel_requested_at = b.cancel_requested_at ∙ a.cancel_requested_at;
  reply = λ m h. b.reply m (a.reply m h);
}

SameEnd-heard : (t : TurnRow) (now : Instant) → SameEnd t (heard now t)
SameEnd-heard t now = record {
  id = refl;
  thread_id = refl;
  owner_message_id = refl;
  state = refl;
  accepted_at = refl;
  started_at = refl;
  finished_at = refl;
  cancel_requested_at = refl;
  reply = λ m h. h;
}

SameEnd-answered :
    (t : TurnRow) (message : ℕ) → t.agent_message_id ≡ none → SameEnd t (answered message t)
SameEnd-answered t message e = record {
  id = refl;
  thread_id = refl;
  owner_message_id = refl;
  state = refl;
  accepted_at = refl;
  started_at = refl;
  finished_at = refl;
  cancel_requested_at = refl;
  reply = λ m h. cc;
}

find-update_eq :
    (f : TurnRow → TurnRow) (id : ℕ) (t : TurnRow) (ts : List TurnRow)
    → ((u : TurnRow) → (f u).id ≡ u.id)
    → find (λ u. u.id == id) ts ≡ some t
    → find (λ u. u.id == id) (update_turn id f ts) ≡ some (f t)
find-update_eq f id t [] same h = cc
find-update_eq f id t (x ∷ ts) same h = elim (Bool-cases (x.id == id)) [
  | inl q ↦ let it : x ≡ t = some_row x t (ground arith) in ground (arith, same x, ap f it)
  | inr q ↦ ground (arith, find-update_eq f id t ts same)
]

-- The row that a step left, and what it keeps of `t`
abbrev pub Stays : TurnTable → ℕ → TurnRow → Type 0
Stays y id t = (u : TurnRow) × (find (λ o. o.id == id) y.0 ≡ some u) × SameEnd t u

pub Stays-put :
    (y : TurnTable) (id : ℕ) (t : TurnRow) → find (λ u. u.id == id) y.0 ≡ some t → Stays y id t
Stays-put y id t h = (t, h, SameEnd-refl t)

Stays-updated :
    (f : TurnRow → TurnRow) (x y : TurnTable) (u : TurnRow) (id : ℕ) (t : TurnRow)
    → ((o : TurnRow) → (f o).id ≡ o.id)
    → SameEnd u (f u)
    → find (λ o. o.id == u.id) x.0 ≡ some u
    → y ≡ (update_turn u.id f x.0, x.1)
    → find (λ o. o.id == id) x.0 ≡ some t
    → Stays y id t
Stays-updated f x y u id t same keep e into h = elim (Bool-cases (id == u.id)) [
  | inl q ↦
      let at : id ≡ u.id = (==_iff id u.id).0 q in
      let it : u ≡ t =
        some_row u t (sym e ∙ ap (λ k. find (λ (o : TurnRow). o.id == k) x.0) (sym at) ∙ h) in
      (
        f u,
        ap (λ (z : TurnTable). find (λ o. o.id == id) z.0) into
            ∙ ap (λ k. find (λ (o : TurnRow). o.id == k) (update_turn u.id f x.0)) at
            ∙ find-update_eq f u.id u x.0 same e,
        subst (λ o. SameEnd o (f u)) it keep,
      )
  | inr q ↦ (
    t,
    ap (λ (z : TurnTable). find (λ o. o.id == id) z.0) into
        ∙ find-update_ne f same u.id id x.0 q
        ∙ h,
    SameEnd-refl t,
  )
]

pub TurnStep-final :
    (x y : TurnTable) (id : ℕ) (t : TurnRow)
    → TurnStep x y
    → find (λ u. u.id == id) x.0 ≡ some t
    → is_terminal t.state ≡ true
    → Stays y id t
TurnStep-final x y id t (accept u e o c r same) h k = Stays-put y id t (
    ap (λ (z : TurnTable). find (λ u. u.id == id) z.0) same
    ∙ find-push (λ u. u.id == id) x.0 (u ∷ []) t h)
TurnStep-final x y id t (start u now e q r same) h k = Stays-put y id t (
    ap (λ (z : TurnTable). find (λ u. u.id == id) z.0) same
    ∙ find-update_open (started now) (λ o. refl) u t x.0 id e (queued_open u q) h k)
TurnStep-final x y id t (end u state reply now e o q same) h k = Stays-put y id t (
    ap (λ (z : TurnTable). find (λ u. u.id == id) z.0) same
    ∙ find-update_open (finished state reply now) (λ o. refl) u t x.0 id e o h k)
TurnStep-final x y id t (stop p now o same) h k = Stays-put y id t (
    ap (λ (z : TurnTable). find (λ u. u.id == id) z.0) same
    ∙ find-cancel p now id x.0 t (o t (find-own id x.0 t h) k) h)
TurnStep-final x y id t (hear u now e same) h k =
    Stays-updated (heard now) x y u id t (λ o. refl) (SameEnd-heard u now) e same h
TurnStep-final x y id t (answer u message e n same) h k =
    Stays-updated (answered message) x y u id t (λ o. refl) (SameEnd-answered u message n) e same h

pub TurnSteps-final :
    {x y : TurnTable} (id : ℕ) (t : TurnRow)
    → TurnSteps x y
    → find (λ u. u.id == id) x.0 ≡ some t
    → is_terminal t.state ≡ true
    → Stays y id t
TurnSteps-final id t here h k = (t, h, SameEnd-refl t)
TurnSteps-final id t (next {y} {z} r st) h k =
    let (u, e, a) = TurnSteps-final id t r h k in
    let (v, e', b) = TurnStep-final y z id u st e (ap is_terminal a.state ∙ k) in
    (v, e', SameEnd-trans t u v a b)
