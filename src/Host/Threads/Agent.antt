-- ===== src/Host/Threads/Agent.antt =====
-- The Thread that an agent creates: the arm `ThreadMutation::Create` of
-- crates/hirsel-host/src/storage/thread_mutations.rs. The icon's columns are left out, and the check
-- of the icon is an argument.
use hirsel.Base.{ℕ, String, not, ◌&&◌, none, some, ◌==◌, if◌then◌else◌, nat_eq}
use hirsel.Proto.{Instant}
use hirsel.Host.Tables.{ThreadRow, Db, failed, Result, ok, ensure, ◌>>◌, ◌>>=◌}
use hirsel.Host.Scope.{ThreadRef, resolve}
use hirsel.Host.Turns.Texts.{TurnTexts, ◌+s+◌, is_empty_text}
use hirsel.Host.Turns.Rows.{get_thread}
use hirsel.Host.Turns.Headlines.{refresh_from}
use hirsel.Host.Turns.Callers.{ThreadCaller}
use hirsel.Host.Threads.Rules.{ThreadTexts}
use hirsel.Host.Threads.Create.{NewThread, new_thread, insert_thread}

module _ (texts : TurnTexts) (rules : ThreadTexts) where
  abbrev pub creation_key : ThreadCaller → String → String → String
  creation_key caller operation client_id =
      "agent:" +s+ texts.decimal caller.turn_id +s+ ":" +s+ operation +s+ ":" +s+ client_id

  -- `n` holds the rest of what the agent asks for; the row hangs under `parent`.
  abbrev pub agent_thread : NewThread → String → ℕ → NewThread
  agent_thread n key parent = record n {
    client_id = key;
    parent_thread_id = if parent == 0 then none else some parent;
  }

  unfoldable pub create_scoped :
      Db
      → ThreadCaller
      → String
      → NewThread
      → ThreadRef
      → Result Unit
      → Instant
      → Result (Db × ThreadRow)
  unfolding resolve insert_thread get_thread refresh_from
  create_scoped db caller operation n reference icon_fits now =
      let key = creation_key caller operation n.client_id in
      ensure (not (is_empty_text (rules.trim_title n.title)) && not (is_empty_text n.client_id))
        (failed "creation requires title and client_id")
      >> icon_fits
      >> rules.validate_instrument n.instrument
      >> resolve db caller.thread_id reference
      >>= λ parent.
          insert_thread db (new_thread (agent_thread n key parent) (rules.trim_title n.title) now)
          >>= λ inserted. get_thread inserted.0 inserted.1 >>= λ t.
              refresh_from texts inserted.0 t.id now >>= λ r. ok (r.0, t)
