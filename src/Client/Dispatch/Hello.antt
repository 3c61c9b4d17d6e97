-- ===== src/Client/Dispatch/Hello.antt =====
-- The `HelloOk` arm of `handle_server_message`, crates/hirsel-client-core/src/transport.rs.
-- `uuid k` is the k-th identifier that `Uuid::new_v4` returns during the call.
use hirsel.Base.{
  ℕ, suc, String, Bool, true, false, not, none, List, [], ◌∷◌, ◌++◌, ◌==◌, nat_eq, string_eq,
  if◌then◌else◌, retain, sort_by_key, contains,
}
use hirsel.Proto.{ClientToHost, Thread, ProcessInfo}
use hirsel.Client.Entry.{PendingOp, open_thread}
use hirsel.Client.Store.{LocalStore, track_pending, apply_hello_ok}
use hirsel.Client.Inner.{ClientInner, push_frame}

-- The Threads that a pending operation opens.
unfoldable pub opening : List (String × PendingOp) → List ℕ
opening [] = []
opening ((c, open_thread t) ∷ rest) = t ∷ opening rest
opening ((c, op) ∷ rest) = opening rest

-- The frame of each pending open.
unfoldable pub reopen_frames : List (String × PendingOp) → List ClientToHost
reopen_frames [] = []
reopen_frames ((c, open_thread t) ∷ rest) = ClientToHost.open_thread c t none ∷ reopen_frames rest
reopen_frames ((c, op) ∷ rest) = reopen_frames rest

-- Vec::dedup
unfoldable pub dedup : List ℕ → List ℕ
dedup [] = []
dedup (x ∷ []) = x ∷ []
dedup (x ∷ y ∷ rest) = let tail = dedup (y ∷ rest) in if x == y then tail else x ∷ tail

abbrev pub is_open_frame : ClientToHost → Bool
is_open_frame (ClientToHost.open_thread _ _ _) = true
is_open_frame _ = false

-- The Threads to open again: those open before, unless an open is under way.
unfoldable pub to_restore : LocalStore → List ℕ
unfolding dedup
to_restore s =
    let busy = opening s.pending_ops in
    dedup (sort_by_key (λ t. t) (retain (λ t. not (contains busy t)) s.opened_threads))

-- `for thread_id in restore { … }`
unfoldable pub restore_threads : (ℕ → String) → ℕ → List ℕ → ClientInner → ClientInner
restore_threads uuid k [] c = c
restore_threads uuid k (t ∷ rest) c = restore_threads uuid (suc k) rest (
    push_frame (record c { store = track_pending c.store (uuid k) (open_thread t) })
      (ClientToHost.open_thread (uuid k) t none))

-- The queue drops its opens, and everything if the history changed; pending opens go out again.
unfoldable pub requeue : ClientInner → LocalStore → Bool → ClientInner
unfolding reopen_frames
requeue c s changed =
    let frames = if changed then [] else c.pending_frames in
    record c {
      store = s;
      pending_frames = retain (λ f. not (is_open_frame f)) frames ++ reopen_frames s.pending_ops;
    }

unfoldable pub on_hello_ok :
    ClientInner → (ℕ → String) → String → List Thread → List ProcessInfo → String → ClientInner
unfolding restore_threads to_restore requeue opening
on_hello_ok c uuid history threads processes version =
    let (s, changed) = apply_hello_ok c.store history threads processes version in
    restore_threads uuid 0 (to_restore s) (requeue c s changed)
