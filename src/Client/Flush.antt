-- ===== src/Client/Flush.antt =====
-- `flush_pending` of crates/hirsel-client-core/src/transport.rs.
-- `accepts k` says whether the channel takes the k-th frame of the flush, and `late` is what other
-- tasks queue while the queued frames are on their way.
use hirsel.Base.{
  ℕ, suc, String, Bool, true, false, List, [], ◌∷◌, ◌++◌, nat_eq, string_eq, if◌then◌else◌,
  contains, length,
}
use hirsel.Proto.{ClientToHost, SendMode}
use hirsel.Client.Entry.{PendingSend, PendingOp, create_thread}
use hirsel.Client.Store.{pending_sends}
use hirsel.Client.Inner.{ClientInner}

-- What a flush leaves: the client, the identifiers sent on this connection, the frames that the
-- channel took, and whether every one was taken.
pub record Flushed : Type 0 where
  pub client : ClientInner
  pub sent : List String
  pub wire : List ClientToHost
  pub done : Bool

-- client.rs, pending_to_wire
unfoldable pub pending_to_wire : PendingSend → ClientToHost
pending_to_wire p =
    ClientToHost.send_thread_message p.client_id p.history_id p.thread_id p.body p.attachments
      p.mentions SendMode.send p.artifact_ids

-- An addressed frame of the flush: a create or a send under its client id.
abbrev pub Addressed : Type 0
Addressed = String × ClientToHost

-- LocalStore::pending_thread_creates
unfoldable pub create_frames : List (String × PendingOp) → List Addressed
create_frames [] = []
create_frames ((c, create_thread history title kind parent) ∷ rest) =
    (c, ClientToHost.create_thread c history title kind parent) ∷ create_frames rest
create_frames ((c, op) ∷ rest) = create_frames rest

unfoldable pub send_frames : List PendingSend → List Addressed
unfolding pending_to_wire
send_frames [] = []
send_frames (p ∷ rest) = (p.client_id, pending_to_wire p) ∷ send_frames rest

-- The queued frames: what the channel took, and what it did not.
unfoldable pub send_queue :
    (ℕ → Bool) → ℕ → List ClientToHost → List ClientToHost × List ClientToHost
send_queue accepts k [] = ([], [])
send_queue accepts k (f ∷ rest) =
    let (taken, left) = send_queue accepts (suc k) rest in
    if accepts k then (f ∷ taken, left) else ([], f ∷ rest)

-- The two loops that send under `if sent_this_connection.insert(client_id)`.
unfoldable pub send_addressed :
    (ℕ → Bool) → ℕ → List String → List Addressed → List String × List ClientToHost × Bool
send_addressed accepts k sent [] = (sent, [], true)
send_addressed accepts k sent ((c, f) ∷ rest) =
    let skip = send_addressed accepts k sent rest in
    let (sent', wire, done) = send_addressed accepts (suc k) (c ∷ sent) rest in
    if contains sent c
    then skip
    else if accepts k
    then (sent', f ∷ wire, done)
    else (c ∷ sent, [], false)

-- The creates and the sends, once the queue is empty.
unfoldable pub flush_addressed : ClientInner → List String → (ℕ → Bool) → ℕ → Flushed
unfolding send_addressed create_frames send_frames pending_sends
flush_addressed c sent accepts k =
    let frames =
      create_frames c.store.pending_ops ++ send_frames (pending_sends c.store.messages) in
    let (sent', wire, done) = send_addressed accepts k sent frames in
    record { client = c; sent = sent'; wire = wire; done = done }

-- What follows the queue: on its failure the frames that were not taken go back, before the late ones.
unfoldable pub after_queue :
    ClientInner
    → List String
    → (ℕ → Bool)
    → List ClientToHost
    → List ClientToHost
    → List ClientToHost
    → Flushed
unfolding flush_addressed
after_queue c sent accepts late taken [] =
    let rest = flush_addressed (record c { pending_frames = late }) sent accepts (length taken) in
    record rest { wire = taken ++ rest.wire }
after_queue c sent accepts late taken (f ∷ unsent) = record {
  client = record c { pending_frames = (f ∷ unsent) ++ late };
  sent = sent;
  wire = taken;
  done = false;
}

unfoldable pub flush_pending : ClientInner → List String → (ℕ → Bool) → List ClientToHost → Flushed
unfolding after_queue send_queue
flush_pending c sent accepts late =
    let (taken, left) = send_queue accepts 0 c.pending_frames in
    after_queue c sent accepts late taken left
