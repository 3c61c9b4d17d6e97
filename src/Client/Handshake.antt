-- ===== src/Client/Handshake.antt =====
-- `HandshakeState` of crates/hirsel-client-core/src/transport.rs.
use hirsel.Base.{String, Bool, true, false, Option, none, some}
use hirsel.Proto.{HelloAuth, pairing_code}

pub data HandshakeState : Type 0 where
  awaiting_paired : HandshakeState
  -- device_token
  awaiting_hello_ok : Option String → HandshakeState
  online : HandshakeState

pub data HandshakeError : Type 0 where
  unexpected_paired no_device_token : HandshakeError

pub data Accepted {ℓ} (A : Type ℓ) : Type ℓ where
  ok : A → Accepted A
  err : HandshakeError → Accepted A

-- HandshakeState::new
unfoldable pub new_handshake : HelloAuth → Option String → HandshakeState
new_handshake (pairing_code _) token = awaiting_paired
new_handshake _ token = awaiting_hello_ok token

unfoldable pub is_online : HandshakeState → Bool
is_online online = true
is_online _ = false

unfoldable pub accept_paired : HandshakeState → String → Accepted HandshakeState
accept_paired awaiting_paired token = ok (awaiting_hello_ok (some token))
accept_paired (awaiting_hello_ok _) token = err unexpected_paired
accept_paired online token = err unexpected_paired

-- The new state, and the device token that the handshake delivers.
unfoldable pub accept_hello_ok : HandshakeState → Accepted (HandshakeState × Option String)
accept_hello_ok awaiting_paired = err no_device_token
accept_hello_ok (awaiting_hello_ok token) = ok (online, token)
accept_hello_ok online = ok (online, none)
