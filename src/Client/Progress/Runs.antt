-- ===== src/Client/Progress/Runs.antt =====
-- What a client knows after any run of frames within one history.
use hirsel.Base.{
  ℕ, suc, String, ◌≤◌, ◌≡◌, refl, ◌∙◌, true, false, some, List, [], ◌∷◌, arith, All, str_eq_iff,
  nat_eq,
}
use hirsel.Proto.{HostToClient, Thread, ThreadTurn, ProcessInfo, is_terminal}
use hirsel.Client.Store.{
  LocalStore, track_pending, apply_hello_ok, history_changed, has_message, remove_message,
}
use hirsel.Client.Inner.{ClientInner}
use hirsel.Client.Dispatch.{
  handle_server_message, on_hello_ok, restore_threads, requeue, to_restore,
}
use hirsel.Client.WellFormed.{IsWellFormed, Sound, handle_server_message-IsWellFormed}
use hirsel.Client.Progress.Defs.{Advances, Advances-trans, find_turn, find_thread}
use hirsel.Client.Progress.Frames.{IsUpdate, handle_server_message-Follows}

-- The frames that one or more connections deliver, each with its fresh identifiers.
abbrev pub Frames : Type 0
Frames = List ((ℕ → String) × HostToClient)

abbrev pub receive_all : ClientInner → Frames → ClientInner
receive_all c [] = c
receive_all c ((uuid, m) ∷ rest) = receive_all (handle_server_message c uuid m).0 rest

-- A hello, if the frame is one, names the history `h`.
abbrev pub Continues : String → HostToClient → Type 0
Continues h (HostToClient.hello_ok history _ _ _) = history ≡ h
Continues h _ = Unit

restore_threads-Advances :
    (uuid : ℕ → String) (k : ℕ) (ts : List ℕ) (c : ClientInner)
    → Advances c.store (restore_threads uuid k ts c).store
unfolding restore_threads track_pending
restore_threads-Advances uuid k [] c = record {
  removed = λ id h. h;
  settled = λ id o h e. h;
  history = refl;
}
restore_threads-Advances uuid k (t ∷ rest) c =
    Advances-trans (record { removed = λ id h. h; settled = λ id o h e. h; history = refl })
      (restore_threads-Advances uuid (suc k) rest _)

same_history : (s : LocalStore) (h : String) → s.history_id ≡ some h → history_changed s h ≡ false
unfolding history_changed
same_history s h e = rw e (ground (arith, str_eq_iff h h))

hello_same-Advances :
    (s : LocalStore) (h : String) (threads : List Thread) (processes : List ProcessInfo)
    (version : String)
    → s.history_id ≡ some h
    → Advances s (apply_hello_ok s h threads processes version).0
unfolding apply_hello_ok
hello_same-Advances s h threads processes version e =
    rw (same_history s h e)
      (record { removed = λ id q. q; settled = λ id o q t. q; history = rw e })

on_hello_ok-Advances :
    (c : ClientInner) (uuid : ℕ → String) (h : String) (threads : List Thread)
    (processes : List ProcessInfo) (version : String)
    → c.store.history_id ≡ some h
    → Advances c.store (on_hello_ok c uuid h threads processes version).store
unfolding on_hello_ok
on_hello_ok-Advances c uuid h threads processes version e =
    let r = apply_hello_ok c.store h threads processes version in
    Advances-trans (hello_same-Advances c.store h threads processes version e)
      (restore_threads-Advances uuid 0 (to_restore r.0) (requeue c r.0 r.1))

-- One frame of the same history.
handle_server_message-Advances :
    (c : ClientInner) (uuid : ℕ → String) (h : String) (m : HostToClient)
    → c.store.history_id ≡ some h
    → Continues h m
    → Advances c.store (handle_server_message c uuid m).0.store
handle_server_message-Advances c uuid h (HostToClient.hello_ok history t p v) e same =
    unfold handle_server_message in on_hello_ok-Advances c uuid history t p v (rw same e)
handle_server_message-Advances c uuid h m e same = (handle_server_message-Follows c uuid m tt).0

receive_all-Advances :
    (c : ClientInner) (h : String) (frames : Frames)
    → c.store.history_id ≡ some h
    → All (λ f. Continues h f.1) frames
    → Advances c.store (receive_all c frames).store
receive_all-Advances c h [] e all = record {
  removed = λ id q. q;
  settled = λ id o q t. q;
  history = refl;
}
receive_all-Advances c h ((uuid, m) ∷ rest) e all =
    let one = handle_server_message-Advances c uuid h m e all.0 in
    Advances-trans one
      (receive_all-Advances (handle_server_message c uuid m).0 h rest (one.history ∙ e) all.1)

-- Any run of frames keeps a well-formed store well formed. Hellos are taken to name each Thread
-- once.
receive_all-IsWellFormed :
    (c : ClientInner) (frames : Frames)
    → All (λ f. Sound f.1) frames
    → IsWellFormed c.store
    → IsWellFormed (receive_all c frames).store
receive_all-IsWellFormed c [] all w = w
receive_all-IsWellFormed c ((uuid, m) ∷ rest) all w =
    receive_all-IsWellFormed (handle_server_message c uuid m).0 rest all.1
      (handle_server_message-IsWellFormed c uuid m all.0 w)

-- From a well-formed store on, a message that the host removed is never shown again, whatever
-- frames follow within the history, reconnections and late copies of the message included.
-- Hellos are taken to name each Thread once.
pub removed_stays_hidden :
    (c : ClientInner) (h : String) (frames : Frames) (id : ℕ)
    → IsWellFormed c.store
    → c.store.history_id ≡ some h
    → All (λ f. Sound f.1) frames
    → All (λ f. Continues h f.1) frames
    → has_message id
        (receive_all c ((λ _. "", HostToClient.msg_removed id) ∷ frames)).store.messages
      ≡ false
unfolding handle_server_message remove_message
removed_stays_hidden c h frames id w e sound same =
    let c' = (handle_server_message c (λ _. "") (HostToClient.msg_removed id)).0 in
    let w' = handle_server_message-IsWellFormed c (λ _. "") (HostToClient.msg_removed id) tt w in
    (receive_all-IsWellFormed c' frames sound w').removed id
      ((receive_all-Advances c' h frames e same).removed id (ground arith))

-- Once a turn is known to have ended, no later frame of the history changes it.
pub finished_turn_is_final :
    (c : ClientInner) (h : String) (frames : Frames) (id : ℕ) (t : ThreadTurn)
    → c.store.history_id ≡ some h
    → All (λ f. Continues h f.1) frames
    → find_turn id c.store.turns ≡ some t
    → is_terminal t.state ≡ true
    → find_turn id (receive_all c frames).store.turns ≡ some t
finished_turn_is_final c h frames id t e same q done =
    (receive_all-Advances c h frames e same).settled id t q done

-- Between two hellos a Thread never disappears and its revision never falls.
pub revision_never_falls :
    (c : ClientInner) (frames : Frames) (id : ℕ) (t : Thread)
    → All (λ f. IsUpdate f.1) frames
    → find_thread id c.store.threads ≡ some t
    → (n : Thread) × (find_thread id (receive_all c frames).store.threads ≡ some n)
      × (t.revision ≤ n.revision)
revision_never_falls c [] id t all q = (t, q, omega arith)
revision_never_falls c ((uuid, m) ∷ rest) id t all q =
    let (n, e, l) = (handle_server_message-Follows c uuid m all.0).1.at id t q in
    let (n', e', l') = revision_never_falls (handle_server_message c uuid m).0 rest id n all.1 e in
    (n', e', omega arith)
