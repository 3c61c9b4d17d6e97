-- ===== src/Client/Examples/Wire.antt =====
-- Runs of the client's transport (crates/hirsel-client-core/src/transport.rs, config.rs and
-- timeline.rs).
use hirsel.Base.{ℕ, Bool, ◌≤◌, ◌≡◌, refl, true, false, none, some, List, [], ◌∷◌, ◌++◌, arith}
use hirsel.Proto.{ClientToHost, HostToClient, TurnEventKind, pairing_code, static_token}
use hirsel.Client.Inner.{ClientInner, send_pending, retry}
use hirsel.Client.Commands.{send_chat}
use hirsel.Client.Handshake.{is_online}
use hirsel.Client.Flush.{flush_pending}
use hirsel.Client.Session.{Surroundings, Event, on_command, on_message, start_session, step, run}
use hirsel.Client.Sending.{
  unsent, all_in, addressed, flush_pending-keeps, flush_pending-sends, flush_pending-once,
}
use hirsel.Client.Silence.{offline_session_is_silent, unpaired_session_is_silent}
use hirsel.Client.Timeline.{TimelineTextKind, blocks_of, glued, all_text, blocks_of-text}
use hirsel.Client.Loop.{
  Loop, asleep, connect_failed, connected, run_loop, IsResting, run_loop-IsResting,
}
use hirsel.Client.Reconnect.{ReconnectPolicy, validate_reconnect, delay_ms, delay_ms-bounds}
use hirsel.Client.Examples.Data.{client, client_of, request, world, message}

-- A client with a queued frame and an unsent message.
abbrev sender : ClientInner
sender = record (send_chat client request "c1" "2026-01-01T00:00:01Z").0 {
  pending_frames = ClientToHost.open_thread "o1" 1 none ∷ [];
}

abbrev open_channel : ℕ → Bool
open_channel k = true

abbrev full_channel : ℕ → Bool
full_channel k = false

flush_pending-keeps_example :
    let f = flush_pending sender [] full_channel (ClientToHost.cancel_turn "h" 1 ∷ []) in
    (taken : List ClientToHost) × (rest : List ClientToHost) × (f.wire ≡ taken ++ rest)
    × (taken ++ f.client.pending_frames
        ≡ sender.pending_frames ++ ClientToHost.cancel_turn "h" 1 ∷ [])
flush_pending-keeps_example =
    flush_pending-keeps sender [] full_channel (ClientToHost.cancel_turn "h" 1 ∷ [])

flush_pending-sends_example :
    let f = flush_pending sender [] open_channel [] in
    (f.wire ≡ sender.pending_frames ++ unsent [] (addressed sender))
    × (f.done ≡ true)
    × (all_in f.sent (addressed sender) ≡ true)
flush_pending-sends_example = flush_pending-sends sender [] open_channel [] (λ n. refl)

flush_pending-once_example :
    let f = flush_pending sender [] open_channel [] in
    (flush_pending f.client f.sent full_channel []).wire ≡ []
flush_pending-once_example =
    flush_pending-once sender [] open_channel full_channel
      (flush_pending-sends sender [] open_channel [] (λ n. refl)).1

-- The application sends and retries, and a message arrives, before any greeting.
abbrev early : List (Surroundings × Event)
early =
    (world, on_command send_pending)
    ∷ (world, on_message (HostToClient.msg (message 8 none)))
    ∷ (world, on_command (retry "c1"))
    ∷ []

offline_session_is_silent_example :
    (run (start_session client) early).wire ≡ ClientToHost.hello (static_token "secret") ∷ []
unfolding run is_online start_session step
offline_session_is_silent_example = offline_session_is_silent client early refl

unpaired_session_is_silent_example :
    let s = run (start_session (client_of (pairing_code "1234"))) early in
    (is_online s.handshake ≡ false) × (s.wire ≡ ClientToHost.hello (pairing_code "1234") ∷ [])
unpaired_session_is_silent_example =
    unpaired_session_is_silent (client_of (pairing_code "1234")) "1234" early refl
      (refl, (refl, (refl, tt)))

abbrev policy : Bool → ReconnectPolicy
policy is_zero_jitter = record {
  initial_delay_ms = 1000;
  max_delay_ms = 30000;
  is_zero_jitter = is_zero_jitter;
  is_valid_jitter = true;
}

abbrev low : ℕ → ℕ
low base = 0

delay_ms-bounds_example :
    (1 ≤ delay_ms low (policy false) 3) × (delay_ms low (policy false) 3 ≤ 30000)
unfolding validate_reconnect
delay_ms-bounds_example = delay_ms-bounds low (policy false) 3 refl

abbrev events : List TurnEventKind
events =
    TurnEventKind.reasoning "first " (some "a")
    ∷ TurnEventKind.reasoning "thought" (some "a")
    ∷ TurnEventKind.prose "aside" none
    ∷ TurnEventKind.reasoning "second" (some "b")
    ∷ []

blocks_of-text_example :
    glued (blocks_of TimelineTextKind.reasoning false [] events)
    ≡ all_text TimelineTextKind.reasoning events
blocks_of-text_example = blocks_of-text TimelineTextKind.reasoning events

-- A loop that starts.
abbrev waking : Loop
waking = record { client = client; attempt = 0; outputs = []; phase = asleep 1 }

run_loop-IsResting_example :
    let t =
      run_loop low
        (policy false)
        waking
        ((connect_failed "refused", false) ∷ (connected early "closed", false) ∷ []) in
    IsResting (policy false) t.client t.phase
unfolding validate_reconnect
run_loop-IsResting_example =
    run_loop-IsResting low (policy false) waking
      ((connect_failed "refused", false) ∷ (connected early "closed", false) ∷ []) refl
      (refl, omega arith, omega arith)
