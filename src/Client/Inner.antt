-- ===== src/Client/Inner.antt =====
-- `ClientInner` of crates/hirsel-client-core/src/client.rs and the events of observer.rs.
-- Locks are taken for the whole of a modelled step. What a step tells the observer or the transport
-- task is its list of outputs, oldest first.
use hirsel.Base.{ℕ, String, Bool, Option, none, some, List, [], ◌∷◌, ◌++◌, if◌then◌else◌}
use hirsel.Proto.{ClientToHost, HelloAuth, device_token}
use hirsel.Client.Entry.{ConnectionState}
use hirsel.Client.Store.{LocalStore}

pub data LifecycleEvent : Type 0 where
  connecting : ℕ → LifecycleEvent
  online offline : Option String → LifecycleEvent
  -- detail, client_id
  protocol_error : String → Option String → LifecycleEvent
  -- client_id, history_id, thread_id
  thread_action_applied : String → String → ℕ → LifecycleEvent
  -- client_id, thread_id
  thread_opened : String → ℕ → LifecycleEvent
  -- history_id, thread_id, client_id
  thread_related_changed : String → ℕ → Option String → LifecycleEvent

pub data Command : Type 0 where
  send_pending stop : Command
  retry : String → Command

pub data Output : Type 0 where
  -- on_state_changed, with a snapshot of the store
  state_changed : Output
  lifecycle : LifecycleEvent → Output
  command : Command → Output

-- `running` says that `command_tx` holds a sender.
pub record ClientInner : Type 0 where
  pub store : LocalStore
  pub pending_frames : List ClientToHost
  pub auth : HelloAuth
  pub pending_pairing_token : Option String
  pub running : Bool

unfoldable pub set_connection : ClientInner → ConnectionState → ClientInner
set_connection c state = record c { store = record c.store { connection = state } }

unfoldable pub capture_paired_device_token : ClientInner → String → ClientInner
capture_paired_device_token c token = record c {
  auth = device_token token;
  pending_pairing_token = some token;
}

unfoldable pub clear_pending_pairing_token : ClientInner → ClientInner
clear_pending_pairing_token c = record c { pending_pairing_token = none }

-- `if let Some(sender) = command_tx { sender.send(command) }`
abbrev pub signal : ClientInner → Command → List Output
signal c k = if c.running then command k ∷ [] else []

abbrev pub push_frame : ClientInner → ClientToHost → ClientInner
push_frame c frame = record c { pending_frames = c.pending_frames ++ frame ∷ [] }
