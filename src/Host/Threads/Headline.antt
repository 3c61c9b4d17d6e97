-- ===== src/Host/Threads/Headline.antt =====
-- A Thread's own headline, and which headlines the Owner saw
-- (crates/hirsel-host/src/storage/threads.rs).
use hirsel.Base.{
  ℕ, zero, String, Bool, false, not, ◌&&◌, ◌+◌, some, List, [], ◌∷◌, if◌then◌else◌, any, ltb, leb,
  length, opt_beq, nat_eq,
}
use hirsel.Proto.{Instant}
use hirsel.Host.Tables.{ThreadRow, Db, failed, Result, ok, ensure, ◌>>◌, ◌>>=◌}
use hirsel.Host.Scope.{validate_history}
use hirsel.Host.Turns.Texts.{TurnTexts}
use hirsel.Host.Turns.Rows.{sorted_ids, is_set, update_row, get_thread}
use hirsel.Host.Turns.Headlines.{refresh_from, refresh_self_and_ancestors}
use hirsel.Host.Threads.Rules.{ThreadTexts, validate_headline}

-- SELECT EXISTS(… parent_thread_id=?1 AND archived_at IS NULL)
abbrev pub has_children : ℕ → List ThreadRow → Bool
has_children id ts =
    any (λ t. opt_beq t.parent_thread_id (some id) && not (is_set t.archived_at)) ts

abbrev pub own_headline_row : String → Bool → Instant → ThreadRow → ThreadRow
own_headline_row headline children now t = record t {
  own_headline = headline;
  previous_headline = some t.headline;
  headline = if children then t.headline else headline;
  headline_revision = t.headline_revision + 1;
  updated_at = now;
  revision = t.revision + 1;
  read = false;
}

module _ (texts : TurnTexts) (rules : ThreadTexts) where
  unfoldable pub set_headline : Db → ℕ → String → Instant → Result (Db × List ℕ)
  unfolding validate_headline get_thread refresh_from refresh_self_and_ancestors sorted_ids
  set_headline db id text now = validate_headline rules text >>= λ headline.
      get_thread db id >>= λ t.
      (let children = has_children id db.threads in
        let d = record db {
          threads = update_row id (own_headline_row headline children now) db.threads;
        } in
        if children then refresh_self_and_ancestors texts d id now else refresh_from texts d id now)
      >>= λ r. ok (r.0, sorted_ids (id ∷ r.1))

abbrev pub seen_row : ThreadRow → ThreadRow
seen_row t = record t { last_seen_headline_revision = t.headline_revision }

-- The loop over the ids
unfoldable pub see_all : Db → List ℕ → Result Db
unfolding get_thread
see_all db [] = ok db
see_all db (id ∷ rest) =
    ensure (ltb zero id) (failed "Thread IDs must be positive") >> get_thread db id >>= λ t.
    see_all (record db { threads = update_row id seen_row db.threads }) rest

unfoldable pub get_all : Db → List ℕ → Result (List ThreadRow)
unfolding get_thread
get_all db [] = ok []
get_all db (id ∷ rest) = get_thread db id >>= λ t. get_all db rest >>= λ ts. ok (t ∷ ts)

unfoldable pub mark_headlines_seen : Db → String → List ℕ → Result (Db × List ThreadRow)
unfolding validate_history sorted_ids see_all get_all
mark_headlines_seen db history ids =
    let shown = sorted_ids ids in
    ensure (leb (length shown) 500) (failed "at most 500 displayed Threads may be marked seen")
    >> validate_history db history
    >> see_all db shown
    >>= λ d. get_all d shown >>= λ ts. ok (d, ts)
