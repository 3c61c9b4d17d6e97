-- ===== src/Host/Threads/Create.antt =====
-- How a Thread is created: create_in_transaction and its two callers, and the reads of one Thread,
-- in crates/hirsel-host/src/storage/threads.rs.
use hirsel.Base.{
  ℕ, suc, zero, String, Bool, true, false, not, ◌&&◌, Option, none, some, List, [], ◌∷◌, ◌++◌, find,
  any, ◌==◌, opt_beq, nat_eq, str_eq,
}
use hirsel.Proto.{Instant, Json, ThreadKind, ThreadAttention}
use hirsel.Host.Tables.{ThreadRow, Db, failed, Result, ok, err, ensure, ◌>>◌, ◌>>=◌}
use hirsel.Host.Scope.{validate_history}
use hirsel.Host.Turns.Texts.{TurnTexts, is_empty_text}
use hirsel.Host.Turns.Rows.{get_thread, not_unique}
use hirsel.Host.Turns.Headlines.{refresh_from}
use hirsel.Host.Threads.Rules.{
  ThreadTexts, is_task, same_kind, is_task_at, validate_thread_title, validate_thread_description,
}

-- What a client asks for
pub record NewThread : Type 0 where
  pub client_id : String
  pub title : String
  pub description : String
  pub instrument : Option Json
  pub needs : ThreadAttention
  pub kind : ThreadKind
  pub parent_thread_id : Option ℕ

abbrev pub new_thread : NewThread → String → Instant → ℕ → ThreadRow
new_thread n title now id = record {
  id = id;
  client_id = some n.client_id;
  kind = n.kind;
  title = title;
  description = n.description;
  instrument = n.instrument;
  parent_thread_id = n.parent_thread_id;
  pinned_at = none;
  showcased_artifact_id = none;
  attention = n.needs;
  settled_at = none;
  archived_at = none;
  snoozed_until = none;
  read = false;
  own_headline = "Ready";
  headline = "Ready";
  previous_headline = none;
  headline_revision = 1;
  last_seen_headline_revision = 1;
  revision = 1;
  updated_at = now;
}

abbrev is_text : String → Option String → Bool
is_text s none = false
is_text s (some t) = str_eq t s

abbrev pub find_created : Db → String → Option ThreadRow
find_created db client_id = find (λ t. is_text client_id t.client_id) db.threads

-- A creation that was accepted before
unfoldable pub create_again : Db → ThreadRow → NewThread → Result (Db × (ThreadRow × Bool))
create_again db t n =
    ensure (opt_beq t.parent_thread_id n.parent_thread_id)
      (failed "creation key belongs to another parent")
    >> ensure (same_kind t.kind n.kind) (failed "creation key belongs to another kind")
    >> ok (db, (t, false))

-- The parent is a row (`get`).
abbrev pub check_parent : Db → Option ℕ → Result (Option ThreadRow)
check_parent db none = ok none
check_parent db (some parent) = get_thread db parent >>= λ t. ok (some t)

-- client_id TEXT UNIQUE
abbrev pub key_is_new : Db → Option String → Bool
key_is_new db none = true
key_is_new db (some key) = elim (find_created db key) [ none ↦ true | some t ↦ false ]

-- REFERENCES threads(id)
abbrev pub parent_exists : Db → Option ℕ → Bool
parent_exists db none = true
parent_exists db (some parent) = any (λ t. t.id == parent) db.threads

-- INSERT INTO threads, with the trigger threads_kind_parent_insert, the unique key and the foreign key
unfoldable pub insert_thread : Db → (ℕ → ThreadRow) → Result (Db × ℕ)
insert_thread db row =
    let t = row (suc db.last_thread_id) in
    ensure (not (is_task_at db t.parent_thread_id && not (is_task t.kind)))
      (failed "Task Threads can only contain Tasks")
    >> ensure (key_is_new db t.client_id) (not_unique "UNIQUE constraint failed: threads.client_id")
    >> ensure (parent_exists db t.parent_thread_id) (failed "FOREIGN KEY constraint failed")
    >> ok (record db { threads = db.threads ++ t ∷ []; last_thread_id = t.id }, t.id)

module _ (texts : TurnTexts) (rules : ThreadTexts) where
  unfoldable pub create_found :
      Db → Option ThreadRow → NewThread → Instant → Result (Db × (ThreadRow × Bool))
  unfolding create_again get_thread insert_thread
  create_found db (some t) n now = create_again db t n
  create_found db none n now = check_parent db n.parent_thread_id >>= λ parent.
      insert_thread db (new_thread n (rules.trim_title n.title) now) >>= λ inserted.
      get_thread inserted.0 inserted.1 >>= λ created.
      refresh_from texts inserted.0 created.id now >>= λ r. ok (r.0, (created, true))

  unfoldable pub create_in_transaction : Db → NewThread → Instant → Result (Db × (ThreadRow × Bool))
  unfolding create_found
  create_in_transaction db n now = create_found db (find_created db n.client_id) n now

  unfoldable pub create_thread : Db → NewThread → Instant → Result (Db × (ThreadRow × Bool))
  unfolding create_in_transaction validate_thread_title validate_thread_description
  create_thread db n now =
      rules.validate_instrument n.instrument
      >> ensure (not (is_empty_text n.client_id)) (failed "client_id must not be empty")
      >> validate_thread_title rules n.title
      >> validate_thread_description rules n.description
      >> create_in_transaction db n now

  unfoldable pub create_addressed_thread :
      Db → String → NewThread → Instant → Result (Db × (ThreadRow × Bool))
  unfolding create_in_transaction validate_thread_title validate_thread_description
  create_addressed_thread db history n now =
      rules.validate_instrument n.instrument
      >> ensure (not (is_empty_text n.client_id)) (failed "client_id must not be empty")
      >> validate_thread_title rules n.title
      >> validate_thread_description rules n.description
      >> validate_history db history
      >> create_in_transaction db n now

unfoldable pub addressed_thread : Db → String → ℕ → Result ThreadRow
unfolding validate_history get_thread
addressed_thread db history id = validate_history db history >> get_thread db id

-- A Thread as it is published: with its ancestors, the nearest first
pub record ThreadPublication : Type 0 where
  pub history_id : String
  pub thread : ThreadRow
  pub ancestors : List ThreadRow

-- The loop over the ancestors, with the number that it may still take
unfoldable pub ancestors_of : ℕ → Db → Option ℕ → Result (List ThreadRow)
unfolding get_thread
ancestors_of left db none = ok []
ancestors_of zero db (some id) = err (failed "Thread ancestry exceeds 64 levels")
ancestors_of (suc left) db (some id) =
    get_thread db id >>= λ a. ancestors_of left db a.parent_thread_id >>= λ more. ok (a ∷ more)

unfoldable pub publication : Db → String → ℕ → Result ThreadPublication
unfolding get_thread ancestors_of
publication db history id = get_thread db id >>= λ t.
    ancestors_of 64 db t.parent_thread_id >>= λ above.
    ok (record { history_id = history; thread = t; ancestors = above })

unfoldable pub current_thread_publication : Db → ℕ → Result ThreadPublication
unfolding publication
current_thread_publication db id = publication db db.history_id id
