-- ===== src/Client/WellFormed/Lives.antt =====
-- Calls, commands, frames and connections of a client in any order
-- (crates/hirsel-client-core/src/client.rs and transport.rs).
use hirsel.Base.{
  ℕ, String, ◌≡◌, refl, ◌∙◌, sym, subst, Bool, Option, none, some, List, [], ◌∷◌, arith, if_cases,
  All, str_eq, retain, not, ◌⊎◌, inl, inr,
}
use hirsel.Proto.{HostToClient, ClientToHost}
use hirsel.Client.Entry.{ConnectionState}
use hirsel.Client.Store.{default_store}
use hirsel.Client.Inner.{
  ClientInner, Command, send_pending, stop, retry, set_connection, capture_paired_device_token,
  clear_pending_pairing_token,
}
use hirsel.Client.Handshake.{HandshakeState, awaiting_paired, awaiting_hello_ok, online, is_online}
use hirsel.Client.Flush.{flush_pending, after_queue, flush_addressed}
use hirsel.Client.Session.{
  Event, on_command, on_message, on_invalid, on_ignored, on_receive_error, Session, Surroundings,
  start_session, flush_session, on_session_command, on_paired, dispatch, announce_online,
  on_session_hello, on_other, on_session_message, step, refreshes_brief,
}
use hirsel.Client.WellFormed.Defs.{IsWellFormed, default-IsWellFormed}
use hirsel.Client.WellFormed.Detail.{same-IsWellFormed}
use hirsel.Client.WellFormed.Frames.{Sound, handle_server_message-IsWellFormed}
use hirsel.Client.WellFormed.Calls.{ClientCall, call, call-IsWellFormed}

-- A flush changes the queue alone.
flush_pending-store :
    (c : ClientInner) (sent : List String) (accepts : ℕ → Bool) (late : List ClientToHost)
    → (flush_pending c sent accepts late).client.store ≡ c.store
unfolding flush_pending after_queue flush_addressed
flush_pending-store c sent accepts late = ground arith

flush_session-store :
    (s : Session) (w : Surroundings) → (flush_session s w).client.store ≡ s.client.store
unfolding flush_session
flush_session-store s w = flush_pending-store s.client s.sent_this_connection w.accepts w.late

on_session_command-store :
    (s : Session) (w : Surroundings) (k : Command)
    → (on_session_command s w k).client.store ≡ s.client.store
unfolding on_session_command
on_session_command-store s w stop = refl
on_session_command-store s w send_pending = ground (arith, flush_session-store s w)
on_session_command-store s w (retry id) =
    let s' : Session = record s {
      sent_this_connection = retain (λ c. not (str_eq c id)) s.sent_this_connection;
    } in
    if_cases (λ (x : Session). x.client.store ≡ s.client.store) (is_online s.handshake)
      (λ _. flush_session-store s' w) (λ _. refl)

on_paired-store : (s : Session) (token : String) → (on_paired s token).client.store ≡ s.client.store
unfolding on_paired capture_paired_device_token
on_paired-store s token = ground arith

dispatch-IsWellFormed :
    (s : Session) (w : Surroundings) (m : HostToClient)
    → Sound m
    → IsWellFormed s.client.store
    → IsWellFormed (dispatch s w m).client.store
unfolding dispatch
dispatch-IsWellFormed s w m sound i = handle_server_message-IsWellFormed s.client w.uuid m sound i

on_other-store :
    (s : Session) (w : Surroundings) (m : HostToClient)
    → (on_other s w m).client.store ≡ (dispatch s w m).client.store
unfolding on_other
on_other-store s w m =
    let d = dispatch s w m in
    if_cases (λ (x : Session). x.client.store ≡ d.client.store) (is_online s.handshake)
      (λ _.
        if_cases (λ (x : Session). x.client.store ≡ d.client.store) (refreshes_brief m)
          (λ _. flush_session-store d w) (λ _. refl))
      (λ _. refl)

announce_online-store :
    (s : Session) (token : Option String) → (announce_online s token).client.store ≡ s.client.store
unfolding announce_online clear_pending_pairing_token
announce_online-store s none = refl
announce_online-store s (some token) = refl

-- The session at the moment when it gets online.
abbrev greeted : Session → Session
greeted s = record s { handshake = online; client = set_connection s.client ConnectionState.online }

entered :
    (s : Session) (w : Surroundings) (m : HostToClient) (token : Option String)
    → (flush_session (announce_online (dispatch (greeted s) w m) token) w).client.store
      ≡ (dispatch (greeted s) w m).client.store
entered s w m token =
    flush_session-store (announce_online (dispatch (greeted s) w m) token) w
    ∙ announce_online-store (dispatch (greeted s) w m) token

on_session_hello-store_at :
    (s : Session) (w : Surroundings) (m : HostToClient) (h : HandshakeState)
    → let t = on_session_hello (record s { handshake = h }) w m in
      (t.client.store ≡ s.client.store) ⊎ (t.client.store ≡ (dispatch (greeted s) w m).client.store)
unfolding on_session_hello
on_session_hello-store_at s w m awaiting_paired = inl refl
on_session_hello-store_at s w m (awaiting_hello_ok token) = inr (entered s w m token)
on_session_hello-store_at s w m online = inr (entered s w m none)

on_session_hello-store :
    (s : Session) (w : Surroundings) (m : HostToClient)
    → ((on_session_hello s w m).client.store ≡ s.client.store)
      ⊎ ((on_session_hello s w m).client.store ≡ (dispatch (greeted s) w m).client.store)
on_session_hello-store s w m = on_session_hello-store_at s w m s.handshake

greeted-IsWellFormed :
    (s : Session) → IsWellFormed s.client.store → IsWellFormed (greeted s).client.store
unfolding set_connection
greeted-IsWellFormed s i = same-IsWellFormed {s = s.client.store} (ground arith) i

abbrev Keeps : Event → Type 0
Keeps (on_message m) = Sound m
Keeps _ = Unit

step-IsWellFormed :
    (s : Session) (w : Surroundings) (e : Event)
    → Keeps e
    → IsWellFormed s.client.store
    → IsWellFormed (step s w e).client.store
unfolding step on_session_message
step-IsWellFormed s w (on_command k) sound i =
    subst IsWellFormed (sym (on_session_command-store s w k)) i
step-IsWellFormed s w (on_message (HostToClient.paired token)) sound i =
    subst IsWellFormed (sym (on_paired-store s token)) i
step-IsWellFormed s w (on_message (HostToClient.hello_ok h t p v)) sound i =
    elim (on_session_hello-store s w (HostToClient.hello_ok h t p v)) [
      | inl e ↦ subst IsWellFormed (sym e) i
      | inr e ↦ subst IsWellFormed (sym e) (
          dispatch-IsWellFormed (greeted s) w (HostToClient.hello_ok h t p v) sound
            (greeted-IsWellFormed s i))
    ]
step-IsWellFormed s w (on_message m) sound i =
    subst IsWellFormed (sym (on_other-store s w m)) (dispatch-IsWellFormed s w m sound i)
step-IsWellFormed s w (on_invalid e) sound i = i
step-IsWellFormed s w on_ignored sound i = i
step-IsWellFormed s w (on_receive_error e) sound i = i

-- What happens to a client: a call, an event of its session, or a session that starts anew.
pub data Happening : Type 0 where
  calling : ClientCall → Happening
  event : Surroundings → Event → Happening
  connecting : Happening

unfoldable pub happen : Session → Happening → Session
unfolding call
happen s (calling k) = record s { client = call s.client k }
happen s (event w e) = step s w e
happen s connecting = start_session s.client

unfoldable pub live : Session → List Happening → Session
unfolding happen
live s [] = s
live s (x ∷ rest) = live (happen s x) rest

-- The hellos among the events name each Thread once.
abbrev pub IsSound : Happening → Type 0
IsSound (event w e) = Keeps e
IsSound _ = Unit

happen-IsWellFormed :
    (s : Session) (x : Happening)
    → IsSound x
    → IsWellFormed s.client.store
    → IsWellFormed (happen s x).client.store
unfolding happen start_session
happen-IsWellFormed s (calling k) sound i = call-IsWellFormed s.client k i
happen-IsWellFormed s (event w e) sound i = step-IsWellFormed s w e sound i
happen-IsWellFormed s connecting sound i = i

live-kept :
    (s : Session) (xs : List Happening)
    → All IsSound xs
    → IsWellFormed s.client.store
    → IsWellFormed (live s xs).client.store
unfolding live
live-kept s [] sound i = i
live-kept s (x ∷ rest) sound i =
    live-kept (happen s x) rest sound.1 (happen-IsWellFormed s x sound.0 i)

-- A client that starts with an empty store has a well-formed one for ever, whatever calls, commands,
-- frames, failures and reconnections follow in whatever order. Hellos are taken to name each Thread
-- once.
pub live-IsWellFormed :
    (c : ClientInner) (xs : List Happening)
    → c.store ≡ default_store
    → All IsSound xs
    → IsWellFormed (live (start_session c) xs).client.store
unfolding start_session
live-IsWellFormed c xs e sound =
    live-kept (start_session c) xs sound (subst IsWellFormed (sym e) default-IsWellFormed)
