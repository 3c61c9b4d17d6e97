-- ===== src/Host/Threads/Examples.antt =====
-- Runs of crates/hirsel-host/src/storage/threads.rs.
use hirsel.Base.{◌≡◌, refl, Bool, true, false, none, some, [], ◌∷◌, length}
use hirsel.Proto.{ThreadKind, ThreadAttention}
use hirsel.Host.Closure.{closure}
use hirsel.Host.Tables.{ThreadRow, Db, failed, Result, ok, err}
use hirsel.Host.Scope.{down_edges}
use hirsel.Host.Rollups.{aggregate, most_urgent, status_of}
use hirsel.Host.Examples.{row, tables}
use hirsel.Host.Turns.Texts.{TurnTexts}
use hirsel.Host.Turns.Headlines.{refresh_from, label}
use hirsel.Host.Turns.Execution.{set_addressed_thread_execution}
use hirsel.Host.Threads.Rules.{ThreadTexts, validate_thread_title, validate_thread_description}
use hirsel.Host.Threads.Create.{NewThread, create_in_transaction}
use hirsel.Host.Threads.Edit.{set_addressed_thread_kind, update_addressed_thread_text}
use hirsel.Host.Threads.Kinds.{KindsFit, append-KindsFit}
use hirsel.Host.Threads.Steps.{unchanged, step, created, ThreadSteps-KindsFit}
use hirsel.Host.Threads.Fenced.{texts_fit, edit-fenced}

abbrev turn_texts : TurnTexts
turn_texts = record {
  trim = λ s. s;
  take_chars = λ n s. s;
  decimal = λ n. "1";
  id_list = λ ids. "[]";
  call_list = λ calls. "[]";
  timestamp = λ i. 0;
}

abbrev thread_texts : ThreadTexts
thread_texts = record {
  trim_title = λ s. s;
  char_count = λ s. 5;
  words = λ s. s ∷ [];
  join_words = λ ws. "ready";
  part_count = λ s. 1;
  byte_count = λ s. 5;
  validate_instrument = λ i. ok tt;
}

abbrev one_thread : Db
one_thread = record tables { threads = row 1 none ∷ []; last_thread_id = 1 }

one_thread-KindsFit : KindsFit one_thread.threads
one_thread-KindsFit = append-KindsFit [] (row 1 none) (λ i j t h e. cc) (λ j q. cc)

-- A Task under Thread 1
abbrev wanted : NewThread
wanted = record {
  client_id = "c";
  title = "Title";
  description = "";
  instrument = none;
  needs = ThreadAttention.quiet;
  kind = ThreadKind.task;
  parent_thread_id = some 1;
}

abbrev made : Result (Db × (ThreadRow × Bool))
made = create_in_transaction turn_texts thread_texts one_thread wanted "t1"

abbrev left_by : {A : Type 0} → Result (Db × A) → Db
left_by (ok a) = a.0
left_by (err e) = tables

abbrev right_by : {A : Type 0} → A → Result (Db × A) → A
right_by x (ok a) = a.1
right_by x (err e) = x

abbrev is_ok : {A : Type 0} → Result A → Bool
is_ok (ok a) = true
is_ok (err e) = false

ok_parts :
    {A : Type 0} (x : A) (r : Result (Db × A)) → is_ok r ≡ true → r ≡ ok (left_by r, right_by x r)
ok_parts x (ok a) h = refl
ok_parts x (err e) h = cc

made-ok : made ≡ ok (left_by made, right_by (row 9 none, false) made)
unfolding create_in_transaction refresh_from closure aggregate most_urgent status_of down_edges
    label
made-ok = ok_parts (row 9 none, false) made refl

-- The Task is a second row.
second_row : length (left_by made).threads ≡ 2
unfolding create_in_transaction refresh_from closure aggregate most_urgent status_of down_edges
    label
second_row = refl

ThreadSteps-KindsFit_example : KindsFit (left_by made).threads
ThreadSteps-KindsFit_example =
    ThreadSteps-KindsFit turn_texts thread_texts
      (step unchanged (created wanted "t1" (right_by (row 9 none, false) made) made-ok))
      one_thread-KindsFit

abbrev named : Result (Db × ThreadRow)
named = update_addressed_thread_text thread_texts tables "h" 2 (some "New") none 1 "t1"

named-ok : named ≡ ok (left_by named, right_by (row 9 none) named)
unfolding update_addressed_thread_text
named-ok = ok_parts (row 9 none) named refl

other-fits : texts_fit thread_texts (some "Other") none ≡ ok tt
unfolding validate_thread_title validate_thread_description
other-fits = refl

edit-fenced_example :
    (set_addressed_thread_kind (left_by named) "h" 2 ThreadKind.task 1 "t2"
      ≡ err (failed "Thread changed; reload it before changing its kind"))
    × (set_addressed_thread_execution (left_by named) "h" 2 none 1 "t2"
        ≡ err (failed "thread changed; reload before updating where it runs"))
    × (update_addressed_thread_text thread_texts (left_by named) "h" 2 (some "Other") none 1 "t2"
        ≡ err (failed "thread changed; reload before updating it"))
edit-fenced_example =
    edit-fenced thread_texts tables (left_by named) "h" 2 (some "New") none 1 ThreadKind.task none
      (some "Other") none "t1" "t2" (right_by (row 9 none) named) named-ok other-fits
