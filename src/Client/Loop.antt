-- ===== src/Client/Loop.antt =====
-- `run` of crates/hirsel-client-core/src/transport.rs: the loop that connects, holds a session, and
-- waits before the next attempt.
use hirsel.Base.{
  ℕ, zero, suc, ◌+◌, ◌-◌, ◌^◌, ◌≤◌, min, String, ◌≡◌, refl, ◌∙◌, ap, true, false, Bool, Option,
  none, some, List, [], ◌∷◌, ◌++◌, arith, if◌then◌else◌,
}
use hirsel.Client.Entry.{ConnectionState}
use hirsel.Client.Inner.{LifecycleEvent, Output, lifecycle, ClientInner, set_connection}
use hirsel.Client.Session.{
  Surroundings, Event, SessionEnd, stopped, disconnected, Session, start_session, run,
}
use hirsel.Client.Reconnect.{ReconnectPolicy, validate_reconnect, delay_ms, delay_ms-bounds}

-- Where the loop is: in a session that has not ended, asleep for a time, or returned. One that
-- starts is as one that wakes.
pub data Phase : Type 0 where
  in_session returned : Phase
  asleep : ℕ → Phase

pub record Loop : Type 0 where
  pub client : ClientInner
  pub attempt : ℕ
  pub outputs : List Output
  pub phase : Phase

-- What one attempt meets: a stop while it connects, a failure, or a channel, whose session sees the
-- events and ends, if it ends, for the reason.
pub data Attempt : Type 0 where
  stop_connecting : Attempt
  connect_failed : String → Attempt
  connected : List (Surroundings × Event) → String → Attempt

-- set_offline
unfoldable pub set_offline : Loop → Option String → Loop
unfolding set_connection
set_offline l reason = record l {
  client = set_connection l.client ConnectionState.offline;
  outputs = l.outputs ++ lifecycle (LifecycleEvent.offline reason) ∷ [];
}

-- `is_stopped` says whether a stop arrives during the sleep.
unfoldable pub wait : (ℕ → ℕ) → ReconnectPolicy → Bool → Loop → Loop
wait rounded p is_stopped l = record l {
  attempt = min (suc l.attempt) (2 ^ 32 - 1);
  phase = if is_stopped then returned else asleep (delay_ms rounded p l.attempt);
}

-- The `match end` of the loop.
unfoldable pub on_end : (ℕ → ℕ) → ReconnectPolicy → Bool → Loop → String → SessionEnd → Loop
unfolding set_offline wait
on_end rounded p is_stopped l reason stopped = record (set_offline l none) { phase = returned }
on_end rounded p is_stopped l reason (disconnected became_online) =
    let l' = set_offline l (some reason) in
    wait rounded p is_stopped (record l' { attempt = if became_online then 0 else l'.attempt })

-- The session of an attempt, with what it told the observer.
unfoldable pub after_session : (ℕ → ℕ) → ReconnectPolicy → Bool → Loop → String → Session → Loop
unfolding on_end
after_session rounded p is_stopped l reason s =
    let l' = record l { client = s.client; outputs = l.outputs ++ s.outputs; phase = in_session } in
    elim s.end [ none ↦ l' | some e ↦ on_end rounded p is_stopped l' reason e ]

-- What the loop does before it connects.
unfoldable pub start_attempt : Loop → Loop
unfolding set_connection
start_attempt l = record l {
  client = set_connection l.client ConnectionState.connecting;
  outputs = l.outputs ++ lifecycle (LifecycleEvent.connecting l.attempt) ∷ [];
}

-- One turn of the loop.
unfoldable pub attempt_once : (ℕ → ℕ) → ReconnectPolicy → Loop → Attempt → Bool → Loop
unfolding after_session on_end set_offline start_attempt
attempt_once rounded p l k is_stopped =
    let l' = start_attempt l in
    elim k [
      | stop_connecting ↦ record (set_offline l' none) { phase = returned }
      | connect_failed reason ↦ on_end rounded p is_stopped l' reason (disconnected false)
      | connected events reason ↦
          after_session rounded p is_stopped l' reason (run (start_session l'.client) events)
    ]

-- The loop goes on after a sleep alone.
unfoldable pub run_loop : (ℕ → ℕ) → ReconnectPolicy → Loop → List (Attempt × Bool) → Loop
unfolding attempt_once
run_loop rounded p l [] = l
run_loop rounded p l ((k, is_stopped) ∷ rest) =
    let next = run_loop rounded p (attempt_once rounded p l k is_stopped) rest in
    elim l.phase [ asleep d ↦ next | in_session ↦ l | returned ↦ l ]

-- Outside a session the client is offline, and a sleep is one that the policy allows.
abbrev pub IsResting : ReconnectPolicy → ClientInner → Phase → Type 0
IsResting p c in_session = Unit
IsResting p c returned = c.store.connection ≡ ConnectionState.offline
IsResting p c (asleep d) =
    (c.store.connection ≡ ConnectionState.offline) × (1 ≤ d) × (d ≤ p.max_delay_ms)

on_end-IsResting :
    (rounded : ℕ → ℕ) (p : ReconnectPolicy) (is_stopped : Bool) (l : Loop) (reason : String)
    (e : SessionEnd)
    → validate_reconnect p ≡ none
    → let t = on_end rounded p is_stopped l reason e in IsResting p t.client t.phase
unfolding on_end
on_end-IsResting rounded p is_stopped l reason stopped v = refl
on_end-IsResting rounded p true l reason (disconnected became_online) v = refl
on_end-IsResting rounded p false l reason (disconnected became_online) v =
    let b = delay_ms-bounds rounded p (if became_online then 0 else l.attempt) v in (refl, b.0, b.1)

after_session-IsResting :
    (rounded : ℕ → ℕ) (p : ReconnectPolicy) (is_stopped : Bool) (l : Loop) (reason : String)
    (c : ClientInner) (outputs : List Output) (end : Option SessionEnd) (s : Session)
    → validate_reconnect p ≡ none
    → let t =
        after_session rounded p is_stopped l reason
          (record s { client = c; outputs = outputs; end = end }) in
      IsResting p t.client t.phase
unfolding after_session
after_session-IsResting rounded p is_stopped l reason c outputs none s v = tt
after_session-IsResting rounded p is_stopped l reason c outputs (some e) s v =
    let l' : Loop = record l { client = c; outputs = l.outputs ++ outputs; phase = in_session } in
    on_end-IsResting rounded p is_stopped l' reason e v

attempt_once-IsResting :
    (rounded : ℕ → ℕ) (p : ReconnectPolicy) (l : Loop) (k : Attempt) (is_stopped : Bool)
    → validate_reconnect p ≡ none
    → let t = attempt_once rounded p l k is_stopped in IsResting p t.client t.phase
unfolding attempt_once
attempt_once-IsResting rounded p l stop_connecting is_stopped v = refl
attempt_once-IsResting rounded p l (connect_failed reason) is_stopped v =
    on_end-IsResting rounded p is_stopped (start_attempt l) reason (disconnected false) v
attempt_once-IsResting rounded p l (connected events reason) is_stopped v =
    let s = run (start_session (start_attempt l).client) events in
    after_session-IsResting rounded p is_stopped (start_attempt l) reason s.client s.outputs s.end s
      v

-- Under a valid policy, any run of attempts keeps this: the loop is in a session, or it has returned
-- or sleeps with the client offline, and a sleep lasts between one millisecond and the policy's
-- maximum.
pub run_loop-IsResting :
    (rounded : ℕ → ℕ) (p : ReconnectPolicy) (l : Loop) (ks : List (Attempt × Bool))
    → validate_reconnect p ≡ none
    → IsResting p l.client l.phase
    → let t = run_loop rounded p l ks in IsResting p t.client t.phase
unfolding run_loop
run_loop-IsResting rounded p l [] v i = i
run_loop-IsResting rounded p l ((k, is_stopped) ∷ rest) v i =
    let next =
      run_loop-IsResting rounded p (attempt_once rounded p l k is_stopped) rest v
        (attempt_once-IsResting rounded p l k is_stopped v) in
    resting p l (run_loop rounded p (attempt_once rounded p l k is_stopped) rest) l.phase i next
  where
    resting :
        (p : ReconnectPolicy) (l t : Loop) (h : Phase)
        → IsResting p l.client l.phase
        → IsResting p t.client t.phase
        → let u : Loop = elim h [ asleep d ↦ t | in_session ↦ l | returned ↦ l ] in
          IsResting p u.client u.phase
    resting p l t (asleep d) i j = j
    resting p l t in_session i j = i
    resting p l t returned i j = i

-- So many connections that fail, one after the other.
abbrev pub failures : String → ℕ → List (Attempt × Bool)
failures reason zero = []
failures reason (suc n) = (connect_failed reason, false) ∷ failures reason n

failure :
    (rounded : ℕ → ℕ) (p : ReconnectPolicy) (l : Loop) (reason : String)
    → suc l.attempt ≤ 2 ^ 32 - 1
    → let t = attempt_once rounded p l (connect_failed reason) false in
      (t.attempt ≡ suc l.attempt) × (t.phase ≡ asleep (delay_ms rounded p l.attempt))
unfolding attempt_once on_end wait set_offline start_attempt
failure rounded p l reason h = (omega arith, refl)

run_loop-step :
    (rounded : ℕ → ℕ) (p : ReconnectPolicy) (l : Loop) (k : Attempt) (rest : List (Attempt × Bool))
    (d : ℕ)
    → l.phase ≡ asleep d
    → run_loop rounded p l ((k, false) ∷ rest)
      ≡ run_loop rounded p (attempt_once rounded p l k false) rest
unfolding run_loop
run_loop-step rounded p l k rest d h = ground arith

run_loop-nil : (rounded : ℕ → ℕ) (p : ReconnectPolicy) (l : Loop) → run_loop rounded p l [] ≡ l
unfolding run_loop
run_loop-nil rounded p l = refl

-- While the counter fits 32 bits and nobody stops the loop, each connection of a row that fails
-- counts as one attempt, and the sleep after the last is the delay that the policy has for the
-- attempts before it.
run_loop-failures :
    (rounded : ℕ → ℕ) (p : ReconnectPolicy) (l : Loop) (reason : String) (n d : ℕ)
    → l.phase ≡ asleep d
    → l.attempt + suc n ≤ 2 ^ 32 - 1
    → let t = run_loop rounded p l (failures reason (suc n)) in
      (t.attempt ≡ l.attempt + suc n) × (t.phase ≡ asleep (delay_ms rounded p (l.attempt + n)))
run_loop-failures rounded p l reason zero d h b =
    let t = attempt_once rounded p l (connect_failed reason) false in
    let (e, f) = failure rounded p l reason (omega arith) in
    let go = run_loop-step rounded p l (connect_failed reason) [] d h in
    (
      ap (λ x. x.attempt) (go ∙ run_loop-nil rounded p t) ∙ e ∙ (omega arith),
      ap (λ x. x.phase) (go ∙ run_loop-nil rounded p t)
          ∙ f
          ∙ ap (λ a. asleep (delay_ms rounded p a)) (omega arith),
    )
run_loop-failures rounded p l reason (suc n) d h b =
    let t = attempt_once rounded p l (connect_failed reason) false in
    let (e, f) = failure rounded p l reason (omega arith) in
    let go = run_loop-step rounded p l (connect_failed reason) (failures reason (suc n)) d h in
    let (e', f') =
      run_loop-failures rounded p t reason n (delay_ms rounded p l.attempt) f (omega arith) in
    (
      ap (λ x. x.attempt) go ∙ e' ∙ (omega arith),
      ap (λ x. x.phase) go ∙ f' ∙ ap (λ a. asleep (delay_ms rounded p a)) (omega arith),
    )
