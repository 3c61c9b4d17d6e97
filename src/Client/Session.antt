-- ===== src/Client/Session.antt =====
-- `run_session` of crates/hirsel-client-core/src/transport.rs: what the loop does with each command
-- and each frame that `tokio::select!` hands it, whatever their order.
use Prim.Native.String.{◌++◌ as append}
use hirsel.Base.{
  ℕ, String, Bool, true, false, Option, none, some, List, [], ◌∷◌, ◌++◌, str_eq, if◌then◌else◌,
  retain, not,
}
use hirsel.Proto.{ClientToHost, HostToClient}
use hirsel.Client.Entry.{ConnectionState}
use hirsel.Client.Inner.{
  LifecycleEvent, Command, send_pending, stop, retry, Output, lifecycle, ClientInner,
  set_connection, capture_paired_device_token, clear_pending_pairing_token,
}
use hirsel.Client.Dispatch.{handle_server_message}
use hirsel.Client.Handshake.{
  HandshakeState, HandshakeError, unexpected_paired, no_device_token, ok, err, new_handshake,
  is_online, accept_paired, accept_hello_ok,
}
use hirsel.Client.Flush.{flush_pending}

-- A command of the application, or what `channel.receive()` returns.
pub data Event : Type 0 where
  on_command : Command → Event
  on_message : HostToClient → Event
  on_invalid : String → Event
  on_ignored : Event
  on_receive_error : String → Event

pub data SessionEnd : Type 0 where
  stopped : SessionEnd
  -- became_online
  disconnected : Bool → SessionEnd

-- The session's own variables, and what it has sent and told so far.
pub record Session : Type 0 where
  pub client : ClientInner
  pub handshake : HandshakeState
  pub sent_this_connection : List String
  pub wire : List ClientToHost
  pub outputs : List Output
  pub end : Option SessionEnd

-- What the environment decides during one event: new identifiers, which frames the channel takes,
-- and what other tasks queue meanwhile.
pub record Surroundings : Type 0 where
  pub uuid : ℕ → String
  pub accepts : ℕ → Bool
  pub late : List ClientToHost

-- The session once its first frame, the hello, has been sent.
unfoldable pub start_session : ClientInner → Session
unfolding new_handshake
start_session c = record {
  client = c;
  handshake = new_handshake c.auth c.pending_pairing_token;
  sent_this_connection = [];
  wire = ClientToHost.hello c.auth ∷ [];
  outputs = [];
  end = none;
}

abbrev pub tell : Session → List Output → Session
tell s os = record s { outputs = s.outputs ++ os }

-- `flush_pending(…).await`, which ends the session when the channel fails.
unfoldable pub flush_session : Session → Surroundings → Session
flush_session s w =
    let f = flush_pending s.client s.sent_this_connection w.accepts w.late in
    record s {
      client = f.client;
      sent_this_connection = f.sent;
      wire = s.wire ++ f.wire;
      end = if f.done then none else some (disconnected true);
    }

unfoldable pub on_session_command : Session → Surroundings → Command → Session
unfolding flush_session
on_session_command s w stop = record s { end = some stopped }
on_session_command s w send_pending = if is_online s.handshake then flush_session s w else s
on_session_command s w (retry id) =
    let s' = record s {
      sent_this_connection = retain (λ c. not (str_eq c id)) s.sent_this_connection;
    } in
    if is_online s.handshake then flush_session s' w else s'

protocol_error : Session → String → Session
protocol_error s detail = tell s (lifecycle (LifecycleEvent.protocol_error detail none) ∷ [])

abbrev error_text : HandshakeError → String
error_text unexpected_paired = "unexpected paired frame"
error_text no_device_token = "pairing handshake did not issue a device token"

-- A `Paired` frame never reaches `handle_server_message`.
unfoldable pub on_paired : Session → String → Session
unfolding protocol_error accept_paired
on_paired s token = elim (accept_paired s.handshake token) [
  | err e ↦ protocol_error s (error_text e)
  | ok h ↦ record s { handshake = h; client = capture_paired_device_token s.client token }
]

-- `handle_server_message`, with its outputs.
unfoldable pub dispatch : Session → Surroundings → HostToClient → Session
dispatch s w m =
    let (c, os) = handle_server_message s.client w.uuid m in tell (record s { client = c }) os

-- What follows the snapshot: identifiers may be sent again, and the token is handed over.
unfoldable pub announce_online : Session → Option String → Session
announce_online s none =
    tell (record s { sent_this_connection = [] }) (lifecycle (LifecycleEvent.online none) ∷ [])
announce_online s (some token) =
    tell (record s { sent_this_connection = []; client = clear_pending_pairing_token s.client })
      (lifecycle (LifecycleEvent.online (some token)) ∷ [])

unfoldable pub on_session_hello : Session → Surroundings → HostToClient → Session
unfolding dispatch announce_online flush_session accept_hello_ok protocol_error
on_session_hello s w m = elim (accept_hello_ok s.handshake) [
  | err e ↦ record (protocol_error s (error_text e)) { end = some (disconnected false) }
  | ok (h, token) ↦
      let online = record s {
        handshake = h;
        client = set_connection s.client ConnectionState.online;
      } in
      flush_session (announce_online (dispatch online w m) token) w
]

abbrev pub refreshes_brief : HostToClient → Bool
refreshes_brief (HostToClient.thread_activity a) = str_eq a.kind "delegation_received"
refreshes_brief _ = false

unfoldable pub on_other : Session → Surroundings → HostToClient → Session
unfolding dispatch flush_session
on_other s w m =
    let s' = dispatch s w m in
    if is_online s.handshake then (if refreshes_brief m then flush_session s' w else s') else s'

unfoldable pub on_session_message : Session → Surroundings → HostToClient → Session
unfolding on_paired on_session_hello on_other
on_session_message s w (HostToClient.paired token) = on_paired s token
on_session_message s w (HostToClient.hello_ok h t p v) =
    on_session_hello s w (HostToClient.hello_ok h t p v)
on_session_message s w m = on_other s w m

-- One turn of the loop.
unfoldable pub step : Session → Surroundings → Event → Session
unfolding on_session_command on_session_message protocol_error
step s w (on_command k) = on_session_command s w k
step s w (on_message m) = on_session_message s w m
step s w (on_invalid e) = protocol_error s (append "invalid server frame: " e)
step s w on_ignored = s
step s w (on_receive_error e) = record s { end = some (disconnected (is_online s.handshake)) }

-- The loop: it stops at the first event that ends the session.
unfoldable pub run : Session → List (Surroundings × Event) → Session
run s [] = s
run s ((w, e) ∷ rest) = let next = run (step s w e) rest in elim s.end [ none ↦ next | some _ ↦ s ]
