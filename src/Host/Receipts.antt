-- ===== src/Host/Receipts.antt =====
-- `set_thread_reach` answers a request once, however often it is sent
-- (crates/hirsel-host/src/storage/thread_grants.rs).
use hirsel.Base.{
  lookup, string_eq, ℕ, String, ◌≡◌, refl, ◌∙◌, sym, ap, subst, true, false, Bool, inl, inr, Option,
  List, [], ◌∷◌, arith, if◌then◌else◌, Bool-cases, str_eq_iff, insert, string_eq, lookup-insert,
  sort_by_key,
}
use hirsel.Proto.{Instant, ReachTarget, ThreadGrantSource}
use hirsel.Host.Tables.{ThreadRow, GrantRow, Db, Result, ok, err, and_then}
use hirsel.Host.Scope.{validate_history}
use hirsel.Host.Grants.{
  Texts, ThreadGrants, ReachChange, get, stored_target, to_grants, list, snapshot, with_snapshot,
  normalized_note, insert_grant, grant, delete_grant, revoke, replay, change_reach,
  set_thread_reach, add_receipt, target_column, advance, target_key, rows_of,
}
use hirsel.Host.Granted.{and_then-ok, with_snapshot-db, insert_grant-cases, grant-inner}

-- The receipts are no part of a snapshot.
abbrev with_receipts : Db → List (String × String) → Db
with_receipts d rs = record d { thread_grant_receipts = rs }

to_grants-receipts :
    (d : Db) (rs : List (String × String)) (rows : List GrantRow)
    → to_grants (with_receipts d rs) rows ≡ to_grants d rows
unfolding to_grants stored_target get
to_grants-receipts d rs [] = refl
to_grants-receipts d rs (g ∷ rest) = rw (to_grants-receipts d rs rest) refl

snapshot-receipts :
    (d : Db) (rs : List (String × String)) (t : ℕ) → snapshot (with_receipts d rs) t ≡ snapshot d t
unfolding snapshot list get
snapshot-receipts d rs t =
    rw (to_grants-receipts d rs (sort_by_key target_key (rows_of t d.thread_grants))) refl

snapshot-get :
    (d : Db) (t : ℕ) (s : ThreadGrants)
    → snapshot d t ≡ ok s
    → (row : ThreadRow) × (get d t ≡ ok row) × (snapshot d t ≡ ok s)
unfolding snapshot
snapshot-get d t s h = elim_get (get d t) refl
  where
    elim_get :
        (g : Result ThreadRow)
        → get d t ≡ g
        → (row : ThreadRow) × (get d t ≡ ok row) × (snapshot d t ≡ ok s)
    elim_get (ok row) e = (row, e, h)
    elim_get (err x) e = absurd (ground arith)

-- What a change leaves: the history, and the snapshot that it returns.
record Changed (db d : Db) (t : ℕ) (s : ThreadGrants) : Type 0 where
  history : d.history_id ≡ db.history_id
  shown : snapshot d t ≡ ok s

with_snapshot-shown :
    (d : Db) (t : ℕ) (db' : Db) (s : ThreadGrants)
    → with_snapshot d t ≡ ok (db', s)
    → snapshot db' t ≡ ok s
with_snapshot-shown d t db' s h =
    let (s', k, e) = and_then-ok (snapshot d t) (λ s. ok (d, s)) (db', s) h in
    let same : d ≡ db' = cc in
    let same' : s' ≡ s = cc in subst (λ x. snapshot x t ≡ ok s) same (k ∙ ap ok same')

insert_grant-history :
    (db db' : Db) (t : ℕ) (target : Option ℕ) (source : ThreadGrantSource) (text : Option String)
    (now : Instant)
    → insert_grant db t target source text now ≡ ok db'
    → db'.history_id ≡ db.history_id
insert_grant-history db db' t target source text now h =
    elim (insert_grant-cases db db' t target source text now h) [
      | inl e ↦ ap (λ d. d.history_id) (sym e)
      | inr e ↦ unfold advance in ap (λ d. d.history_id) (sym e)
    ]

delete_grant-history :
    (db : Db) (t : ℕ) (target : ReachTarget) (now : Instant)
    → (delete_grant db t target now).history_id ≡ db.history_id
unfolding delete_grant advance
delete_grant-history db t target now = ground arith

grant-Changed :
    (texts : Texts) (db : Db) (t : ℕ) (target : ReachTarget) (source : ThreadGrantSource)
    (text : Option String) (now : Instant) (d : Db) (s : ThreadGrants)
    → grant texts db t target source text now ≡ ok (d, s)
    → Changed db d t s
grant-Changed texts db t target source text now d s h =
    let (n, d', e, k) = grant-inner texts db t target source text now d s h in
    record {
      history =
          ap (λ x. x.history_id) (sym (with_snapshot-db d' t d s k))
          ∙ insert_grant-history db d' t (target_column target) source n now e;
      shown = with_snapshot-shown d' t d s k;
    }

revoke-Changed :
    (db : Db) (t : ℕ) (target : ReachTarget) (now : Instant) (d : Db) (s : ThreadGrants)
    → revoke db t target now ≡ ok (d, s)
    → Changed db d t s
unfolding revoke
revoke-Changed db t target now d s h =
    let (_, _, k) =
      and_then-ok (get db t) (λ _. with_snapshot (delete_grant db t target now) t) (d, s) h in
    record {
      history =
          ap (λ x. x.history_id) (sym (with_snapshot-db (delete_grant db t target now) t d s k))
          ∙ delete_grant-history db t target now;
      shown = with_snapshot-shown (delete_grant db t target now) t d s k;
    }

change_reach-Changed :
    (texts : Texts) (db : Db) (r : ReachChange) (text : Option String) (now : Instant) (d : Db)
    (s : ThreadGrants)
    → change_reach texts db r text now ≡ ok (d, s)
    → Changed db d r.thread_id s
unfolding change_reach
change_reach-Changed texts db r text now d s h = elim (Bool-cases r.granted) [
  | inl q ↦
      grant-Changed texts db r.thread_id r.target ThreadGrantSource.owner text now d s
        (ground arith)
  | inr q ↦ revoke-Changed db r.thread_id r.target now d s (ground arith)
]

validate-same :
    (d db : Db) (h : String)
    → d.history_id ≡ db.history_id
    → validate_history d h ≡ validate_history db h
unfolding validate_history
validate-same d db h e = rw e refl

-- The last step of `set_thread_reach`, once the client id has been looked up.
abbrev finish :
    Texts
    → (ReachChange → Option String → String)
    → Db
    → ReachChange
    → Instant
    → Option String
    → Bool
    → Result (Db × ThreadGrants)
finish texts payload db r now text seen =
    if seen
    then with_snapshot db r.thread_id
    else and_then (change_reach texts db r text now)
        (λ done. ok (add_receipt r.client_id (payload r text) done))

-- The checks before it, in their order.
record Checked (texts : Texts) (payload : ReachChange → Option String → String) (db : Db)
    (r : ReachChange) : Type 0 where
  history : validate_history db r.history_id ≡ ok tt
  text : Option String
  noted : normalized_note texts r.note ≡ ok text
  seen : Bool
  looked : replay texts db r.client_id (payload r text) ≡ ok seen

module _ (texts : Texts) (payload : ReachChange → Option String → String) (r : ReachChange) where
  set_thread_reach-Checked :
      (db : Db) (now : Instant) (a : Db × ThreadGrants)
      → set_thread_reach texts payload db r now ≡ ok a
      → (c : Checked texts payload db r) × (finish texts payload db r now c.text c.seen ≡ ok a)
  unfolding set_thread_reach
  set_thread_reach-Checked db now a h =
      let last : Option String → Result (Db × ThreadGrants) = λ n.
        and_then (replay texts db r.client_id (payload r n)) (finish texts payload db r now n) in
      let noted : ThreadRow → Result (Db × ThreadGrants) =
        λ _. and_then (normalized_note texts r.note) last in
      let (_, e0, h0) =
        and_then-ok (validate_history db r.history_id) (λ _. and_then (get db r.thread_id) noted) a
          h in
      let (_, e1, h1) = and_then-ok (get db r.thread_id) noted a h0 in
      let (n, e2, h2) = and_then-ok (normalized_note texts r.note) last a h1 in
      let (b, e3, h3) =
        and_then-ok (replay texts db r.client_id (payload r n)) (finish texts payload db r now n) a
          h2 in
      (record { history = e0; text = n; noted = e2; seen = b; looked = e3 }, h3)

  -- The other way round: checks that pass, and a client id that was used for this very request.
  set_thread_reach-seen :
      (db : Db) (now : Instant) (text : Option String) (s : ThreadGrants)
      → validate_history db r.history_id ≡ ok tt
      → normalized_note texts r.note ≡ ok text
      → replay texts db r.client_id (payload r text) ≡ ok true
      → snapshot db r.thread_id ≡ ok s
      → set_thread_reach texts payload db r now ≡ ok (db, s)
  unfolding set_thread_reach
  set_thread_reach-seen db now text s h n k e =
      let (row, g, _) = snapshot-get db r.thread_id s e in rw h (rw g (rw n (rw k (rw e refl))))

  replay-known :
      (db d : Db) (text : String)
      → replay texts db r.client_id text ≡ ok false
      → replay texts
          (with_receipts d (insert r.client_id text d.thread_grant_receipts))
          r.client_id
          text
        ≡ ok true
  unfolding replay
  replay-known db d text h = ground (
    arith,
    lookup-insert r.client_id r.client_id text d.thread_grant_receipts,
    str_eq_iff r.client_id r.client_id,
    str_eq_iff text text,
  )

  noted_in : Db → String → Db
  noted_in d text = with_receipts d (insert r.client_id text d.thread_grant_receipts)

  -- What an answer leaves for the replay of its request
  answered :
      (db : Db) (now : Instant) (db' : Db) (s : ThreadGrants) (text : Option String) (seen : Bool)
      → validate_history db r.history_id ≡ ok tt
      → replay texts db r.client_id (payload r text) ≡ ok seen
      → finish texts payload db r now text seen ≡ ok (db', s)
      → (validate_history db' r.history_id ≡ ok tt)
        × (replay texts db' r.client_id (payload r text) ≡ ok true)
  unfolding noted_in
  answered db now db' s text true v l k =
      let same = with_snapshot-db db r.thread_id db' s k in
      (
        subst (λ d. validate_history d r.history_id ≡ ok tt) same v,
        subst (λ d. replay texts d r.client_id (payload r text) ≡ ok true) same l,
      )
  answered db now db' s text false v l k =
      let (d, e, q) =
        and_then-ok (change_reach texts db r text now)
          (λ done. ok (add_receipt r.client_id (payload r text) done)) (db', s) k in
      let final = noted_in d.0 (payload r text) in
      let same : final ≡ db' = cc in
      let changed = change_reach-Changed texts db r text now d.0 d.1 e in
      subst
        (λ x.
          (validate_history x r.history_id ≡ ok tt)
          × (replay texts x r.client_id (payload r text) ≡ ok true))
        same
        (
          validate-same final db r.history_id changed.history ∙ v,
          replay-known db d.0 (payload r text) l,
        )

  replay-same :
      (e d : Db) (text : String)
      → lookup r.client_id e.thread_grant_receipts ≡ lookup r.client_id d.thread_grant_receipts
      → replay texts e r.client_id text ≡ replay texts d r.client_id text
  unfolding replay
  replay-same e d text h = rw h refl

  -- A request that was answered, and is sent again at a later time of the same history while its
  -- receipt stands, changes nothing: whatever happened to the grants meanwhile, its answer is their
  -- snapshot at that time.
  pub set_thread_reach-again :
      (db : Db) (now : Instant) (db' : Db) (s : ThreadGrants) (e : Db) (later : Instant)
      (shown : ThreadGrants)
      → set_thread_reach texts payload db r now ≡ ok (db', s)
      → e.history_id ≡ db'.history_id
      → lookup r.client_id e.thread_grant_receipts ≡ lookup r.client_id db'.thread_grant_receipts
      → snapshot e r.thread_id ≡ ok shown
      → set_thread_reach texts payload e r later ≡ ok (e, shown)
  set_thread_reach-again db now db' s e later shown h same kept now_shown =
      let (c, k) = set_thread_reach-Checked db now (db', s) h in
      let (v, l) = answered db now db' s c.text c.seen c.history c.looked k in
      set_thread_reach-seen e later c.text shown (validate-same e db' r.history_id same ∙ v) c.noted
        (replay-same e db' (payload r c.text) kept ∙ l) now_shown
