-- ===== src/Client/Examples/Data.antt =====
-- A small conversation for the examples (crates/hirsel-client-core/src).
use hirsel.Base.{ℕ, String, refl, true, Option, none, some, List, [], ◌∷◌}
use hirsel.Proto.{
  ChatMessage, ChatAuthor, Thread, ThreadKind, ThreadAttention, ThreadStatusKind, ThreadTurn,
  ThreadTurnState, HostToClient, HelloAuth, static_token,
}
use hirsel.Client.Entry.{confirmed, confirmed_of, SendThreadMessageRequest}
use hirsel.Client.Store.{LocalStore, default_store, has_message}
use hirsel.Client.Inner.{ClientInner}
use hirsel.Client.Session.{Surroundings}
use hirsel.Client.WellFormed.{IsWellFormed}

abbrev pub message : ℕ → Option String → ChatMessage
message id client_id = record {
  origin = none;
  artifact_ids = [];
  client_id = client_id;
  thread_id = 1;
  mentions = [];
  id = id;
  author = ChatAuthor.owner;
  body = "good morning";
  ref = none;
  ts = "2026-01-01T00:00:00Z";
  attachments = [];
  tool_calls = [];
}

abbrev pub turn : ThreadTurnState → ThreadTurn
turn state = record {
  id = 3;
  thread_id = 1;
  requester_thread_id = none;
  requester_turn_id = none;
  owner_message_id = some 7;
  agent_message_id = none;
  state = state;
  accepted_at = "2026-01-01T00:00:00Z";
  started_at = none;
  finished_at = none;
}

abbrev pub thread : ℕ → Thread
thread revision = record {
  id = 1;
  kind = ThreadKind.space;
  parent_thread_id = none;
  pinned_at = none;
  title = "Home";
  icon = none;
  showcased_artifact_id = none;
  description = "";
  execution = none;
  instrument = none;
  attention = ThreadAttention.quiet;
  settled_at = none;
  archived_at = none;
  snoozed_until = none;
  read = true;
  own_headline = "";
  headline = "";
  previous_headline = none;
  headline_revision = 0;
  last_seen_headline_revision = 0;
  created_at = "2026-01-01T00:00:00Z";
  updated_at = "2026-01-01T00:00:00Z";
  revision = revision;
  running_turn = none;
  queued_turn_count = 0;
  last_finished_turn = none;
  last_activity_at = "2026-01-01T00:00:00Z";
  status = record { kind = ThreadStatusKind.idle; reason = "" };
}

-- A store that has seen a hello, a message, a finished turn and a Thread.
abbrev pub seen_store : LocalStore
seen_store = record default_store {
  history_id = some "h";
  messages = confirmed (confirmed_of (message 7 none)) ∷ [];
  turns = turn ThreadTurnState.completed ∷ [];
  threads = thread 4 ∷ [];
}

abbrev pub client_of : HelloAuth → ClientInner
client_of auth = record {
  store = seen_store;
  pending_frames = [];
  auth = auth;
  pending_pairing_token = none;
  running = true;
}

abbrev pub client : ClientInner
client = client_of (static_token "secret")

abbrev pub no_uuid : ℕ → String
no_uuid k = "fresh"

pub seen_store-IsWellFormed : IsWellFormed seen_store
unfolding has_message
seen_store-IsWellFormed = record {
  messages = (refl, tt);
  removed = λ id h. cc;
  threads = (refl, tt);
  turns = (refl, tt);
  activities = tt;
  streams = tt;
}

-- The frames of a connection that goes on: the message comes again, the turn starts once more, and
-- the Thread arrives in an older and in a newer revision.
abbrev pub frames : List ((ℕ → String) × HostToClient)
frames =
    (no_uuid, HostToClient.msg (message 7 none))
    ∷ (no_uuid, HostToClient.thread_turn (turn ThreadTurnState.running))
    ∷ (no_uuid, HostToClient.thread_upsert (thread 2))
    ∷ (no_uuid, HostToClient.thread_upsert (thread 5))
    ∷ []

abbrev pub request : SendThreadMessageRequest
request = record {
  history_id = "h";
  thread_id = 1;
  attachments = [];
  body = "good morning";
  mentions = [];
  artifact_ids = [];
}

abbrev pub world : Surroundings
world = record { uuid = no_uuid; accepts = λ k. true; late = [] }
