-- ===== src/Client/Silence.antt =====
-- Before the host has greeted it, a session sends its hello and nothing else
-- (`run_session` and `HandshakeState` of crates/hirsel-client-core/src/transport.rs).
use hirsel.Base.{
  String, ◌≡◌, refl, ◌∙◌, ap, true, false, Bool, Option, none, some, List, [], ◌∷◌, arith, All,
}
use hirsel.Proto.{ClientToHost, HostToClient, pairing_code}
use hirsel.Client.Inner.{Command, send_pending, stop, retry, ClientInner}
use hirsel.Client.Handshake.{
  HandshakeState, awaiting_paired, awaiting_hello_ok, online, is_online, accept_hello_ok,
  new_handshake,
}
use hirsel.Client.Session.{
  Event, on_command, on_message, on_invalid, on_ignored, on_receive_error, Session, SessionEnd,
  Surroundings, start_session, flush_session, on_session_command, on_paired, dispatch,
  on_session_hello, on_other, on_session_message, step, run,
}

-- A step from `s` to `t` that does not end online started offline and sent nothing.
record Quiet (s t : Session) : Type 0 where
  before : is_online t.handshake ≡ false → is_online s.handshake ≡ false
  wire : is_online t.handshake ≡ false → t.wire ≡ s.wire

on_session_command-Quiet :
    (s : Session) (w : Surroundings) (k : Command) → Quiet s (on_session_command s w k)
unfolding on_session_command flush_session
on_session_command-Quiet s w send_pending = ground arith
on_session_command-Quiet s w stop = ground arith
on_session_command-Quiet s w (retry id) = ground arith

-- The same session at another point of the handshake.
abbrev at : Session → HandshakeState → Session
at s h = record s { handshake = h }

on_paired-Quiet-at :
    (s : Session) (token : String) (h : HandshakeState) → Quiet (at s h) (on_paired (at s h) token)
unfolding on_paired is_online
on_paired-Quiet-at s token awaiting_paired = ground arith
on_paired-Quiet-at s token (awaiting_hello_ok t) = ground arith
on_paired-Quiet-at s token online = ground arith

on_session_hello-Quiet-at :
    (s : Session) (w : Surroundings) (m : HostToClient) (h : HandshakeState)
    → Quiet (at s h) (on_session_hello (at s h) w m)
unfolding on_session_hello dispatch flush_session is_online
on_session_hello-Quiet-at s w m awaiting_paired = ground arith
on_session_hello-Quiet-at s w m (awaiting_hello_ok none) = record {
  before = λ q. cc;
  wire = λ q. cc;
}
on_session_hello-Quiet-at s w m (awaiting_hello_ok (some t)) = record {
  before = λ q. cc;
  wire = λ q. cc;
}
on_session_hello-Quiet-at s w m online = record { before = λ q. cc; wire = λ q. cc }

on_other-Quiet : (s : Session) (w : Surroundings) (m : HostToClient) → Quiet s (on_other s w m)
unfolding on_other dispatch flush_session
on_other-Quiet s w m = ground arith

on_session_message-Quiet :
    (s : Session) (w : Surroundings) (m : HostToClient) → Quiet s (on_session_message s w m)
unfolding on_session_message
on_session_message-Quiet s w (HostToClient.paired token) = on_paired-Quiet-at s token s.handshake
on_session_message-Quiet s w (HostToClient.hello_ok h t p v) =
    on_session_hello-Quiet-at s w (HostToClient.hello_ok h t p v) s.handshake
on_session_message-Quiet s w m = on_other-Quiet s w m

step-Quiet : (s : Session) (w : Surroundings) (e : Event) → Quiet s (step s w e)
unfolding step
step-Quiet s w (on_command k) = on_session_command-Quiet s w k
step-Quiet s w (on_message m) = on_session_message-Quiet s w m
step-Quiet s w (on_invalid e) = record { before = λ q. q; wire = λ q. refl }
step-Quiet s w on_ignored = record { before = λ q. q; wire = λ q. refl }
step-Quiet s w (on_receive_error e) = record { before = λ q. q; wire = λ q. refl }

Quiet-run :
    (end : Option SessionEnd) (s t : Session)
    → Quiet s t
    → Quiet s (elim end [ none ↦ t | some _ ↦ s ])
Quiet-run none s t q = q
Quiet-run (some e) s t q = record { before = λ h. h; wire = λ h. refl }

run-Quiet : (s : Session) (events : List (Surroundings × Event)) → Quiet s (run s events)
unfolding run
run-Quiet s [] = record { before = λ q. q; wire = λ q. refl }
run-Quiet s ((w, e) ∷ rest) =
    let one = step-Quiet s w e in
    let more = run-Quiet (step s w e) rest in
    Quiet-run s.end s (run (step s w e) rest) (record {
      before = λ q. one.before (more.before q);
      wire = λ q. more.wire q ∙ one.wire (more.before q);
    })

-- Until the host's snapshot has been accepted nothing but the hello is sent, whatever commands and
-- frames arrive in whatever order: a session that is not online has sent its hello alone.
pub offline_session_is_silent :
    (c : ClientInner) (events : List (Surroundings × Event))
    → is_online (run (start_session c) events).handshake ≡ false
    → (run (start_session c) events).wire ≡ ClientToHost.hello c.auth ∷ []
unfolding start_session is_online
offline_session_is_silent c events h = (run-Quiet (start_session c) events).wire h

abbrev pub is_paired : Event → Bool
is_paired (on_message (HostToClient.paired _)) = true
is_paired _ = false

-- Without a `Paired` frame the handshake that waits for one goes on waiting.
hello-unpaired :
    (s : Session) (w : Surroundings) (m : HostToClient)
    → s.handshake ≡ awaiting_paired
    → (on_session_hello s w m).handshake ≡ awaiting_paired
unfolding on_session_hello accept_hello_ok
hello-unpaired s w m h = rw h (ground arith)

other-unpaired :
    (s : Session) (w : Surroundings) (m : HostToClient) → (on_other s w m).handshake ≡ s.handshake
unfolding on_other dispatch flush_session
other-unpaired s w m = ground arith

command-unpaired :
    (s : Session) (w : Surroundings) (k : Command)
    → (on_session_command s w k).handshake ≡ s.handshake
unfolding on_session_command flush_session
command-unpaired s w k = ground arith

step-unpaired :
    (s : Session) (w : Surroundings) (e : Event)
    → is_paired e ≡ false
    → s.handshake ≡ awaiting_paired
    → (step s w e).handshake ≡ awaiting_paired
unfolding step on_session_message
step-unpaired s w (on_command k) q h = command-unpaired s w k ∙ h
step-unpaired s w (on_message (HostToClient.paired t)) q h = cc
step-unpaired s w (on_message (HostToClient.hello_ok a b d e)) q h =
    hello-unpaired s w (HostToClient.hello_ok a b d e) h
step-unpaired s w (on_message m) q h = other-unpaired s w m ∙ h
step-unpaired s w (on_invalid e) q h = h
step-unpaired s w on_ignored q h = h
step-unpaired s w (on_receive_error e) q h = h

run-unpaired :
    (s : Session) (events : List (Surroundings × Event))
    → All (λ x. is_paired x.1 ≡ false) events
    → s.handshake ≡ awaiting_paired
    → (run s events).handshake ≡ awaiting_paired
unfolding run
run-unpaired s [] all h = h
run-unpaired s ((w, e) ∷ rest) all h =
    let next = run-unpaired (step s w e) rest all.1 (step-unpaired s w e all.0 h) in
    ground (arith, next, h)

-- A client that pairs with a code never gets online, and sends its hello alone, in a session in
-- which the host issues it no device token.
pub unpaired_session_is_silent :
    (c : ClientInner) (code : String) (events : List (Surroundings × Event))
    → c.auth ≡ pairing_code code
    → All (λ x. is_paired x.1 ≡ false) events
    → let s = run (start_session c) events in
      (is_online s.handshake ≡ false) × (s.wire ≡ ClientToHost.hello (pairing_code code) ∷ [])
unfolding start_session is_online
unpaired_session_is_silent c code events a all =
    let waits =
      run-unpaired (start_session c) events all
        (ap (λ x. new_handshake x c.pending_pairing_token) a) in
    let offline = ap is_online waits in
    (offline, offline_session_is_silent c events offline ∙ ap (λ x. ClientToHost.hello x ∷ []) a)
