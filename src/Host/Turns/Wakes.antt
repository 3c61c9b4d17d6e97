-- ===== src/Host/Turns/Wakes.antt =====
-- A wake is accepted once, however often it is sent
-- (crates/hirsel-host/src/storage/thread_activity.rs, queue_background_thread_request).
use hirsel.Base.{
  ℕ, suc, String, ◌≡◌, refl, ap, sym, ◌∙◌, subst, Bool, true, false, ◌&&◌, Option, none, some, List,
  [], ◌∷◌, ◌++◌, arith, ◌==◌, ==_iff, leb, str_eq, str_eq_iff, find,
}
use hirsel.Proto.{Instant, ThreadTurnState}
use hirsel.Host.Tables.{
  ThreadRow, TurnRow, ActivityRow, RequestPayload, Db, nothing, failed, Result, ok, and_then,
  ensure,
}
use hirsel.Host.Granted.{and_then-ok}
use hirsel.Host.Scope.{validate_history}
use hirsel.Host.Turns.Texts.{TurnTexts}
use hirsel.Host.Turns.Rows.{
  is_set, find_turn, find_activity, get_turn, get_thread, insert_activity, insert_key,
  insert_request, keyed_activity,
}
use hirsel.Host.Turns.Queue.{
  accept_turn, new_turn, with_turn, wake_key, wake_turn, activity_turn, wake_known, wake_new,
  wake_found, note_wake, history_of, ensure_accepts_work, queue_background_thread_request,
}
use hirsel.Host.Turns.Requests.{remove_thread_request}
use hirsel.Host.Turns.Machine.{IsSound, ids_within}
use hirsel.Host.Turns.Kept.{refresh_from-OnlyThreads, capture-OnlyExecution, insert_request-row}
use hirsel.Host.Turns.Runs.{accept_turn-Run}
use hirsel.Host.Turns.Climb.{SameShape, find_row, kept_columns, refresh_from-SameShape, shape_row}
use hirsel.Host.Turns.Refines.Accept.{table, insert_turn-Inserted}
use hirsel.Host.Turns.Refines.Queued.{WakeChecked, queue_background-Checked}

-- No activity has an id above the sequence.
abbrev pub activities_within : ℕ → List ActivityRow → Bool
activities_within n [] = true
activities_within n (a ∷ rest) = leb a.id n && activities_within n rest

-- What the acceptance of a turn leaves
record Accepted (db : Db) (row : ℕ → TurnRow) (a : Db × ℕ) : Type 0 where
  history : a.0.history_id ≡ db.history_id
  activities : a.0.thread_activities ≡ db.thread_activities
  last : a.0.last_activity_id ≡ db.last_activity_id
  keys : a.0.thread_activity_keys ≡ db.thread_activity_keys
  turns : a.0.thread_turns ≡ db.thread_turns ++ row (suc db.last_turn_id) ∷ []
  number : a.1 ≡ (row (suc db.last_turn_id)).id
  shape : SameShape db.threads a.0.threads

accept_turn-Accepted :
    (texts : TurnTexts) (db : Db) (row : ℕ → TurnRow) (thread : ℕ) (now : Instant) (a : Db × ℕ)
    → accept_turn texts db row thread now ≡ ok a
    → Accepted db row a
accept_turn-Accepted texts db row thread now a h =
    let run = accept_turn-Run texts db row thread now a h in
    let one = run.one in
    let r = run.refreshed in
    let first = (insert_turn-Inserted row db one run.inserted).result in
    let second = refresh_from-OnlyThreads texts one.0 thread now r run.climbed in
    let third = capture-OnlyExecution r.0 thread one.1 none a.0 run.captured in
    record {
      history =
          ap (λ (x : Db). x.history_id) third
          ∙ ap (λ (x : Db). x.history_id) second
          ∙ ap (λ (x : Db × ℕ). x.0.history_id) first;
      activities =
          ap (λ (x : Db). x.thread_activities) third
          ∙ ap (λ (x : Db). x.thread_activities) second
          ∙ ap (λ (x : Db × ℕ). x.0.thread_activities) first;
      last =
          ap (λ (x : Db). x.last_activity_id) third
          ∙ ap (λ (x : Db). x.last_activity_id) second
          ∙ ap (λ (x : Db × ℕ). x.0.last_activity_id) first;
      keys =
          ap (λ (x : Db). x.thread_activity_keys) third
          ∙ ap (λ (x : Db). x.thread_activity_keys) second
          ∙ ap (λ (x : Db × ℕ). x.0.thread_activity_keys) first;
      turns =
          ap (λ (x : Db). x.thread_turns) third
          ∙ ap (λ (x : Db). x.thread_turns) second
          ∙ ap (λ (x : Db × ℕ). x.0.thread_turns) first;
      number = run.number ∙ ap (λ (x : Db × ℕ). x.1) first;
      shape = λ id.
          subst (λ (x : List ThreadRow). SameShape x r.0.threads)
            (ap (λ (x : Db × ℕ). x.0.threads) first)
            (refresh_from-SameShape texts one.0 thread now r run.climbed) id
          ∙ ap (λ (x : Db). kept_columns (find_row id x.threads)) (sym third);
    }

-- A row under a new id is found behind the others.
find_new_turn :
    (n : ℕ) (ts : List TurnRow) (t : TurnRow)
    → ids_within n ts ≡ true
    → t.id ≡ suc n
    → find (λ u. u.id == suc n) (ts ++ t ∷ []) ≡ some t
find_new_turn n [] t h e = ground arith
find_new_turn n (x ∷ ts) t h e = ground (arith, find_new_turn n ts t)

pub find_new_activity :
    (n : ℕ) (xs : List ActivityRow) (a : ActivityRow)
    → activities_within n xs ≡ true
    → a.id ≡ suc n
    → find (λ u. u.id == suc n) (xs ++ a ∷ []) ≡ some a
find_new_activity n [] a h e = ground arith
find_new_activity n (x ∷ xs) a h e = ground (arith, find_new_activity n xs a)

abbrev second_of : Option (String × ℕ) → Option ℕ
second_of none = none
second_of (some k) = some k.1

find_new_key :
    (key : String) (id : ℕ) (ks : List (String × ℕ))
    → find (λ k. str_eq k.0 key) ks ≡ none
    → find (λ k. str_eq k.0 key) (ks ++ (key, id) ∷ []) ≡ some (key, id)
find_new_key key id [] h = ground (arith, str_eq_iff key key)
find_new_key key id (k ∷ ks) h = ground (arith, find_new_key key id ks)

-- What the note of a wake leaves
record Noted (db : Db) (thread turn : ℕ) (key : String) (r : Db × TurnRow) : Type 0 where
  known : wake_turn r.0 (keyed_activity r.0 key) ≡ ok (some turn)
  found : get_turn r.0 turn ≡ ok r.1
  history : r.0.history_id ≡ db.history_id
  threads : r.0.threads ≡ db.threads
  turns : r.0.thread_turns ≡ db.thread_turns

keyed_none :
    (db : Db) (key : String)
    → is_set (keyed_activity db key) ≡ false
    → find (λ k. str_eq k.0 key) db.thread_activity_keys ≡ none
unfolding keyed_activity
keyed_none db key h = ground arith

wake_turn-new :
    (db : Db) (key : String) (id turn : ℕ) (a : ActivityRow)
    → find (λ k. str_eq k.0 key) db.thread_activity_keys ≡ some (key, id)
    → find_activity db id ≡ some a
    → a.turn_id ≡ some turn
    → wake_turn db (keyed_activity db key) ≡ ok (some turn)
wake_turn-new db key id turn a k f t =
    let known : keyed_activity db key ≡ some id = unfold keyed_activity in ground arith in
    let named : activity_turn (some a) ≡ ok (some turn) = ground arith in
    ap (wake_turn db) known ∙ ap activity_turn f ∙ named

note_wake-Noted :
    (db : Db) (thread turn : ℕ) (key : String) (now : Instant) (r : Db × TurnRow)
    → activities_within db.last_activity_id db.thread_activities ≡ true
    → note_wake db thread turn key now ≡ ok r
    → Noted db thread turn key r
unfolding note_wake
note_wake-Noted db thread turn key now r w h =
    let noted = insert_activity thread (some turn) "background_queued" nothing now db in
    let fin : Db → TurnRow → Result (Db × TurnRow) = λ d t. ok (d, t) in
    let (d, e, h1) =
      and_then-ok (insert_key key noted.1 noted.0) (λ d. and_then (get_turn d turn) (fin d)) r h in
    let (t, e1, h2) = and_then-ok (get_turn d turn) (fin d) r h1 in
    let after : Db = record noted.0 {
      thread_activity_keys = noted.0.thread_activity_keys ++ (key, noted.1) ∷ [];
    } in
    let free : is_set (keyed_activity noted.0 key) ≡ false = ground arith in
    let made : after ≡ d = ground arith in
    let same : d ≡ r.0 = ground arith in
    let all : after ≡ r.0 = made ∙ same in
    let row : ActivityRow = record {
      id = suc db.last_activity_id;
      thread_id = thread;
      turn_id = some turn;
      kind = "background_queued";
      content = nothing;
      ts = now;
    } in
    record {
      known =
          subst (λ (x : Db). wake_turn x (keyed_activity x key) ≡ ok (some turn)) all
            (wake_turn-new after key (suc db.last_activity_id) turn row
              (find_new_key key (suc db.last_activity_id) db.thread_activity_keys
                (keyed_none noted.0 key free))
              (find_new_activity db.last_activity_id db.thread_activities row w refl) refl);
      found = subst (λ (x : Db). get_turn x turn ≡ ok r.1) same (e1 ∙ ground arith);
      history = ap (λ (x : Db). x.history_id) (sym all);
      threads = ap (λ (x : Db). x.threads) (sym all);
      turns = ap (λ (x : Db). x.thread_turns) (sym all);
    }

wake_known-again :
    (db : Db) (thread turn : ℕ) (t : TurnRow)
    → get_turn db turn ≡ ok t
    → t.thread_id ≡ thread
    → wake_known db thread turn ≡ ok (db, t)
unfolding wake_known
wake_known-again db thread turn t h e = ground (arith, ==_iff t.thread_id thread)

accepts-row :
    (db : Db) (thread : ℕ) (row : ThreadRow)
    → get_thread db thread ≡ ok row
    → ensure_accepts_work db thread ≡ ok tt
    → is_set row.archived_at ≡ false
unfolding ensure_accepts_work
accepts-row db thread row g a = ground arith

row-accepts :
    (db : Db) (thread : ℕ) (row : ThreadRow)
    → get_thread db thread ≡ ok row
    → is_set row.archived_at ≡ false
    → ensure_accepts_work db thread ≡ ok tt
unfolding ensure_accepts_work
row-accepts db thread row g a = ground arith

get_thread-row :
    (db : Db) (thread : ℕ) (row : ThreadRow)
    → get_thread db thread ≡ ok row
    → find_row thread db.threads ≡ some row
unfolding get_thread
get_thread-row db thread row h = found (find_row thread db.threads) refl
  where
    found :
        (o : Option ThreadRow)
        → find_row thread db.threads ≡ o
        → find_row thread db.threads ≡ some row
    found none e = absurd (ground arith)
    found (some t) e = ground arith

-- The Thread of an accepted wake still accepts work.
still-accepts :
    (db d : Db) (thread : ℕ) (row : ThreadRow)
    → SameShape db.threads d.threads
    → get_thread db thread ≡ ok row
    → ensure_accepts_work db thread ≡ ok tt
    → (row' : ThreadRow) × (get_thread d thread ≡ ok row') × (ensure_accepts_work d thread ≡ ok tt)
still-accepts db d thread row s g a =
    let (u, f, _, same) =
      shape_row db.threads d.threads thread row s (get_thread-row db thread row g) in
    let here : get_thread d thread ≡ ok u = unfold get_thread in ground arith in
    (u, here, row-accepts d thread u here (ap is_set same ∙ accepts-row db thread row g a))

within_same :
    (db d : Db)
    → d.thread_activities ≡ db.thread_activities
    → d.last_activity_id ≡ db.last_activity_id
    → activities_within db.last_activity_id db.thread_activities ≡ true
    → activities_within d.last_activity_id d.thread_activities ≡ true
within_same db d a l w =
    ap (activities_within d.last_activity_id) a
    ∙ ap (λ n. activities_within n db.thread_activities) l
    ∙ w

same_history :
    (d db : Db) (history : String)
    → d.history_id ≡ db.history_id
    → validate_history d history ≡ validate_history db history
unfolding validate_history
same_history d db history e =
    ap (λ h. ensure (str_eq h history) (failed "Thread history is no longer current")) e

-- The Thread of the turn that was put behind the others
new_thread :
    (d : Db) (n : ℕ) (ts : List TurnRow) (row : TurnRow) (id : ℕ) (t : TurnRow)
    → ids_within n ts ≡ true
    → row.id ≡ suc n
    → id ≡ row.id
    → d.thread_turns ≡ ts ++ row ∷ []
    → get_turn d id ≡ ok t
    → t.thread_id ≡ row.thread_id
unfolding get_turn
new_thread d n ts row id t w r e s g =
    let at : find_turn d id ≡ some row =
      ap (λ (us : List TurnRow). find (λ u. u.id == id) us) s
      ∙ ap (λ k. find (λ (u : TurnRow). u.id == k) (ts ++ row ∷ [])) (e ∙ r)
      ∙ find_new_turn n ts row w r in
    ground arith

then_ok :
    {A B : Type 0} {m : Result A} (f : A → Result B) {a : A} {b : B}
    → m ≡ ok a
    → f a ≡ ok b
    → and_then m f ≡ ok b
then_ok f h k = ap (λ m. and_then m f) h ∙ k

-- What a wake that was accepted leaves for its repetition
record WakeKnown (d : Db) (client_id : String) (thread : ℕ) (payload : RequestPayload) (t : TurnRow)
    : Type 0 where
  history : String
  named : history_of payload.history_id "background history is required" ≡ ok history
  current : validate_history d history ≡ ok tt
  row : ThreadRow
  present : get_thread d thread ≡ ok row
  accepts : ensure_accepts_work d thread ≡ ok tt
  turn : ℕ
  looked : wake_turn d (keyed_activity d (wake_key client_id)) ≡ ok (some turn)
  found : get_turn d turn ≡ ok t
  mine : t.thread_id ≡ thread

wake_known-found :
    (db : Db) (thread turn : ℕ) (r : Db × TurnRow)
    → wake_known db thread turn ≡ ok r
    → (db ≡ r.0) × (get_turn db turn ≡ ok r.1) × (r.1.thread_id ≡ thread)
unfolding wake_known
wake_known-found db thread turn r h =
    let owned : TurnRow → Result Unit =
      λ t. ensure (t.thread_id == thread) (failed "background request belongs to another thread") in
    let (t, e, k) =
      and_then-ok (get_turn db turn) (λ t. and_then (owned t) (λ _. ok (db, t))) r h in
    let (_, o, q) = and_then-ok (owned t) (λ _. ok (db, t)) r k in
    let it : t ≡ r.1 = ground arith in
    (
      ground arith,
      e ∙ ap ok it,
      ap (λ (x : TurnRow). x.thread_id) (sym it) ∙ ground (arith, ==_iff t.thread_id thread),
    )

wake_turn-same :
    (e d : Db) (o : Option ℕ)
    → e.thread_activities ≡ d.thread_activities
    → wake_turn e o ≡ wake_turn d o
wake_turn-same e d none h = refl
wake_turn-same e d (some a) h =
    ap (λ (rows : List ActivityRow). activity_turn (find (λ x. x.id == a) rows)) h

-- A delivery takes the request away and leaves what a repetition looks at.
WakeKnown-delivered :
    (d : Db) (client_id removed : String) (thread : ℕ) (payload : RequestPayload) (t : TurnRow)
    → WakeKnown d client_id thread payload t
    → WakeKnown (remove_thread_request d removed).0 client_id thread payload t
unfolding remove_thread_request validate_history get_thread ensure_accepts_work keyed_activity
    get_turn
WakeKnown-delivered d client_id removed thread payload t k = record {
  history = k.history;
  named = k.named;
  current = k.current;
  row = k.row;
  present = k.present;
  accepts = k.accepts;
  turn = k.turn;
  looked =
      wake_turn-same (remove_thread_request d removed).0 d (keyed_activity d (wake_key client_id))
        refl
      ∙ k.looked;
  found = k.found;
  mine = k.mine;
}

module _ (texts : TurnTexts) where
  -- A wake of a turn that is known
  wake-repeated :
      (d : Db) (client_id : String) (thread : ℕ) (payload : RequestPayload) (now : Instant)
      (t : TurnRow)
      → WakeKnown d client_id thread payload t
      → queue_background_thread_request texts d client_id thread payload now ≡ ok (d, t)
  unfolding queue_background_thread_request
  wake-repeated d client_id thread payload now t k = then_ok _ k.named (
      then_ok _ (then_ok _ k.current k.present) (
        then_ok _ k.accepts
          (then_ok _ k.looked (wake_known-again d thread k.turn t k.found k.mine))))

  new_again :
      (db d : Db) (client_id : String) (thread : ℕ) (payload : RequestPayload) (now : Instant)
      (t : TurnRow)
      → IsSound (table db)
      → activities_within db.last_activity_id db.thread_activities ≡ true
      → (c : WakeChecked texts db client_id thread payload now (d, t))
      → wake_new texts db client_id thread c.row.parent_thread_id payload (wake_key client_id) now
        ≡ ok (d, t)
      → WakeKnown d client_id thread payload t
  new_again db d client_id thread payload now t s w c h =
      let row = new_turn ThreadTurnState.queued thread c.row.parent_thread_id none none now in
      let put : Db × ℕ → Result Db = λ a. insert_request client_id (with_turn payload a.1) a.0 in
      let fin : Db × ℕ → Db → Result (Db × TurnRow) =
        λ a x. note_wake x thread a.1 (wake_key client_id) now in
      let (a, e, h1) =
        and_then-ok (accept_turn texts db row thread now) (λ a. and_then (put a) (fin a)) (d, t)
          (unfold wake_new in h) in
      let (x, e1, h2) = and_then-ok (put a) (fin a) (d, t) h1 in
      let acc = accept_turn-Accepted texts db row thread now a e in
      let put_row = insert_request-row client_id (with_turn payload a.1) a.0 x e1 in
      let within : activities_within x.last_activity_id x.thread_activities ≡ true =
        within_same db x (ap (λ (y : Db). y.thread_activities) put_row ∙ acc.activities)
          (ap (λ (y : Db). y.last_activity_id) put_row ∙ acc.last) w in
      let noted = note_wake-Noted x thread a.1 (wake_key client_id) now (d, t) within h2 in
      let threads : d.threads ≡ a.0.threads = noted.threads ∙ ap (λ (y : Db). y.threads) put_row in
      let shape : SameShape db.threads d.threads =
        subst (SameShape db.threads) (sym threads) acc.shape in
      let (row', g, accepts) = still-accepts db d thread c.row shape c.present c.accepts in
      let turns : d.thread_turns ≡ db.thread_turns ++ row (suc db.last_turn_id) ∷ [] =
        noted.turns ∙ ap (λ (y : Db). y.thread_turns) put_row ∙ acc.turns in
      let mine : t.thread_id ≡ thread =
        new_thread d db.last_turn_id db.thread_turns (row (suc db.last_turn_id)) a.1 t s.bounded
          refl acc.number turns noted.found in
      record {
        history = c.history;
        named = c.named;
        current =
            same_history d db c.history
              (noted.history ∙ ap (λ (y : Db). y.history_id) put_row ∙ acc.history)
            ∙ c.current;
        row = row';
        present = g;
        accepts = accepts;
        turn = a.1;
        looked = noted.known;
        found = noted.found;
        mine = mine;
      }

  again_known :
      {db : Db} (d : Db) (client_id : String) (thread : ℕ) (payload : RequestPayload)
      (now : Instant) (t : TurnRow)
      → IsSound (table db)
      → activities_within db.last_activity_id db.thread_activities ≡ true
      → (c : WakeChecked texts db client_id thread payload now (d, t)) (o : Option ℕ) → c.known ≡ o
      → WakeKnown d client_id thread payload t
  again_known {db} d client_id thread payload now t s w c none e =
      new_again db d client_id thread payload now t s w c (
        unfold wake_found in
        subst
          (λ o.
            wake_found texts db client_id thread c.row.parent_thread_id payload (wake_key client_id)
              now o
            ≡ ok (d, t))
          e c.after)
  again_known {db} d client_id thread payload now t s w c (some turn) e =
      let known : wake_known db thread turn ≡ ok (d, t) =
        unfold wake_found in
        subst
          (λ o.
            wake_found texts db client_id thread c.row.parent_thread_id payload (wake_key client_id)
              now o
            ≡ ok (d, t))
          e c.after in
      let (same, found, mine) = wake_known-found db thread turn (d, t) known in
      subst (λ (x : Db). WakeKnown x client_id thread payload t) same
        (record {
          history = c.history;
          named = c.named;
          current = c.current;
          row = c.row;
          present = c.present;
          accepts = c.accepts;
          turn = turn;
          looked = c.looked ∙ ap ok e;
          found = found;
          mine = mine;
        })

  -- A wake that was accepted, and is sent again before anything else changes or right after a request
  -- was delivered and left the outbox (its own or another), is answered with the same turn and
  -- changes nothing: no second turn, request or activity.
  pub wake-once :
      (db d : Db) (client_id delivered : String) (thread : ℕ) (payload : RequestPayload)
      (now later : Instant) (t : TurnRow)
      → IsSound (table db)
      → activities_within db.last_activity_id db.thread_activities ≡ true
      → queue_background_thread_request texts db client_id thread payload now ≡ ok (d, t)
      → let e = (remove_thread_request d delivered).0 in
        (queue_background_thread_request texts d client_id thread payload later ≡ ok (d, t))
        × (queue_background_thread_request texts e client_id thread payload later ≡ ok (e, t))
  wake-once db d client_id delivered thread payload now later t s w h =
      let c = queue_background-Checked texts db client_id thread payload now (d, t) h in
      let k = again_known d client_id thread payload now t s w c c.known refl in
      let e = (remove_thread_request d delivered).0 in
      (
        wake-repeated d client_id thread payload later t k,
        wake-repeated e client_id thread payload later t
            (WakeKnown-delivered d client_id delivered thread payload t k),
      )
