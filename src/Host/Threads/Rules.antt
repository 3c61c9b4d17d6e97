-- ===== src/Host/Threads/Rules.antt =====
-- crates/hirsel-host/src/storage/threads.rs: what a Thread's own texts have to satisfy, and the
-- triggers on the kinds of Threads (current.sql).
use hirsel.Base.{
  ℕ, String, Bool, true, false, not, ◌&&◌, Option, none, some, List, any, leb, opt_beq, nat_eq,
}
use hirsel.Proto.{Json, ThreadKind}
use hirsel.Host.Tables.{ThreadRow, Db, failed, Result, ok, ensure, ◌>>◌, find_thread_row}
use hirsel.Host.Turns.Texts.{is_empty_text}

-- What threads.rs takes from the standard library: `trim`, `chars().count()`,
-- `split_ascii_whitespace`, `join(" ")`, `split(' ').count()` and `len()`. `validate_instrument` is
-- the check of an instrument's JSON.
pub record ThreadTexts : Type 0 where
  pub trim_title : String → String
  pub char_count : String → ℕ
  pub words : String → List String
  pub join_words : List String → String
  pub part_count : String → ℕ
  pub byte_count : String → ℕ
  pub validate_instrument : Option Json → Result Unit

abbrev pub max_thread_title_chars : ℕ
max_thread_title_chars = 200

abbrev pub max_thread_description_chars : ℕ
max_thread_description_chars = 20000

abbrev pub max_headline_bytes : ℕ
max_headline_bytes = 240

abbrev pub is_task : ThreadKind → Bool
is_task ThreadKind.task = true
is_task ThreadKind.space = false

abbrev pub same_kind : ThreadKind → ThreadKind → Bool
same_kind ThreadKind.task k = is_task k
same_kind ThreadKind.space k = not (is_task k)

abbrev pub is_task_row : Option ThreadRow → Bool
is_task_row none = false
is_task_row (some t) = is_task t.kind

-- The Thread `id`, if there is one, is a Task.
abbrev pub is_task_at : Db → Option ℕ → Bool
is_task_at db none = false
is_task_at db (some id) = is_task_row (find_thread_row db id)

-- SELECT EXISTS(SELECT 1 FROM threads WHERE parent_thread_id=?1 AND kind='space')
abbrev pub has_space_child : ℕ → List ThreadRow → Bool
has_space_child id ts = any (λ t. opt_beq t.parent_thread_id (some id) && not (is_task t.kind)) ts

-- `if let Some(…)` around a check
abbrev pub when_given : {A : Type 0} → (A → Result Unit) → Option A → Result Unit
when_given check none = ok tt
when_given check (some a) = check a

module _ (texts : ThreadTexts) where
  unfoldable pub validate_thread_title : String → Result Unit
  validate_thread_title title =
      ensure (not (is_empty_text (texts.trim_title title)))
        (failed "thread title must not be empty")
      >> ensure (leb (texts.char_count title) max_thread_title_chars)
          (failed "thread title must be at most 200 characters")

  unfoldable pub validate_thread_description : String → Result Unit
  validate_thread_description description =
      ensure (leb (texts.char_count description) max_thread_description_chars)
        (failed "thread description must be at most 20000 characters")

  unfoldable pub normalize_headline : String → String
  normalize_headline headline = texts.join_words (texts.words headline)

  unfoldable pub validate_headline : String → Result String
  unfolding normalize_headline
  validate_headline headline =
      let normalized = normalize_headline headline in
      ensure (not (is_empty_text normalized)) (failed "headline must not be empty")
      >> ensure (leb (texts.part_count normalized) 12)
          (failed "headline must contain at most 12 words")
      >> ensure (leb (texts.byte_count normalized) max_headline_bytes)
          (failed "headline must contain at most 240 bytes")
      >> ok normalized
