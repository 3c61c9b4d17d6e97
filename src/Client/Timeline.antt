-- ===== src/Client/Timeline.antt =====
-- `timeline_text` of crates/hirsel-client-core/src/timeline.rs.
use Prim.Native.String.{◌++◌ as append}
use text.Mathlib.TextLemmas.{append-nil, nil-append, append_assoc}
use hirsel.Base.{
  String, ◌≡◌, ◌∙◌, sym, ap, true, false, Bool, ◌&&◌, Option, none, some, List, [], ◌∷◌, arith,
  if◌then◌else◌, if_cases, Option-cases, inl, inr, opt_beq, string_eq,
}
use hirsel.Proto.{TurnEventKind}

pub data TimelineTextKind : Type 0 where
  prose reasoning : TimelineTextKind

-- A block's identifier and its text so far.
abbrev pub Block : Type 0
Block = Option String × String

-- The text of an event of the wanted kind.
unfoldable pub wanted_text : TimelineTextKind → TurnEventKind → Option (String × Option String)
wanted_text TimelineTextKind.prose (TurnEventKind.prose text block_id) = some (text, block_id)
wanted_text TimelineTextKind.reasoning (TurnEventKind.reasoning text block_id) =
    some (text, block_id)
wanted_text _ _ = none

-- `adjacent && blocks.last().is_some_and(|(last, _)| *last == block_id)`, then either
-- `blocks.last_mut().1.push_str(text)` or `blocks.push((block_id, text))`
unfoldable pub add_text : Bool → String → Option String → List Block → List Block
add_text adjacent text id [] = (id, text) ∷ []
add_text adjacent text id ((last, body) ∷ []) =
    if adjacent && opt_beq last id
    then (last, append body text) ∷ []
    else (last, body) ∷ (id, text) ∷ []
add_text adjacent text id (b ∷ c ∷ rest) = b ∷ add_text adjacent text id (c ∷ rest)

-- The loop over the events.
unfoldable pub blocks_of : TimelineTextKind → Bool → List Block → List TurnEventKind → List Block
unfolding add_text wanted_text
blocks_of wanted adjacent blocks [] = blocks
blocks_of wanted adjacent blocks (e ∷ rest) = elim (wanted_text wanted e) [
  | none ↦ blocks_of wanted false blocks rest
  | some found ↦ blocks_of wanted true (add_text adjacent found.0 found.1 blocks) rest
]

-- `[String]::join`
unfoldable pub join : String → List String → String
join sep [] = ""
join sep (x ∷ []) = x
join sep (x ∷ y ∷ rest) = append x (append sep (join sep (y ∷ rest)))

abbrev pub texts : List Block → List String
texts [] = []
texts ((id, body) ∷ rest) = body ∷ texts rest

unfoldable pub timeline_text : List TurnEventKind → TimelineTextKind → String
unfolding blocks_of join
timeline_text events wanted = join "\n\n" (texts (blocks_of wanted false [] events))

-- All the text of the wanted kind, without the boundaries.
abbrev pub all_text : TimelineTextKind → List TurnEventKind → String
all_text wanted [] = ""
all_text wanted (e ∷ rest) = elim (wanted_text wanted e) [
  | none ↦ all_text wanted rest
  | some found ↦ append found.0 (all_text wanted rest)
]

-- The blocks' texts, without the boundaries.
abbrev pub glued : List Block → String
glued [] = ""
glued ((id, body) ∷ rest) = append body (glued rest)

add_text-glued :
    (adjacent : Bool) (text : String) (id : Option String) (blocks : List Block)
    → glued (add_text adjacent text id blocks) ≡ append (glued blocks) text
unfolding add_text
add_text-glued adjacent text id [] = append-nil text ∙ sym (nil-append text)
add_text-glued adjacent text id ((last, body) ∷ []) =
    if_cases (λ bs. glued bs ≡ append (append body "") text) (adjacent && opt_beq last id)
      (λ _. append-nil (append body text) ∙ ap (λ b. append b text) (sym (append-nil body)))
      (λ _. ap (append body) (append-nil text) ∙ ap (λ b. append b text) (sym (append-nil body)))
add_text-glued adjacent text id ((last, body) ∷ c ∷ rest) =
    ap (append body) (add_text-glued adjacent text id (c ∷ rest))
    ∙ sym (append_assoc body (glued (c ∷ rest)) text)

module _ (wanted : TimelineTextKind) (adjacent : Bool) (blocks : List Block) where
  blocks_of-skip :
      (e : TurnEventKind) (rest : List TurnEventKind)
      → wanted_text wanted e ≡ none
      → (blocks_of wanted adjacent blocks (e ∷ rest) ≡ blocks_of wanted false blocks rest)
        × (all_text wanted (e ∷ rest) ≡ all_text wanted rest)
  unfolding blocks_of
  blocks_of-skip e rest q = (ground arith, ground arith)

  blocks_of-take :
      (e : TurnEventKind) (rest : List TurnEventKind) (found : String × Option String)
      → wanted_text wanted e ≡ some found
      → (blocks_of wanted adjacent blocks (e ∷ rest)
          ≡ blocks_of wanted true (add_text adjacent found.0 found.1 blocks) rest)
        × (all_text wanted (e ∷ rest) ≡ append found.0 (all_text wanted rest))
  unfolding blocks_of
  blocks_of-take e rest found q = (ground arith, ground arith)

blocks_of-glued :
    (wanted : TimelineTextKind) (adjacent : Bool) (blocks : List Block)
    (events : List TurnEventKind)
    → glued (blocks_of wanted adjacent blocks events)
      ≡ append (glued blocks) (all_text wanted events)
blocks_of-glued wanted adjacent blocks [] = unfold blocks_of in sym (append-nil (glued blocks))
blocks_of-glued wanted adjacent blocks (e ∷ rest) = elim (Option-cases (wanted_text wanted e)) [
  | inl q ↦
      let (step, text) = blocks_of-skip wanted adjacent blocks e rest q in
      ap glued step
      ∙ blocks_of-glued wanted false blocks rest
      ∙ ap (append (glued blocks)) (sym text)
  | inr (found, q) ↦
      let (step, text) = blocks_of-take wanted adjacent blocks e rest found q in
      let next = add_text adjacent found.0 found.1 blocks in
      ap glued step
      ∙ blocks_of-glued wanted true next rest
      ∙ ap (λ b. append b (all_text wanted rest)) (add_text-glued adjacent found.0 found.1 blocks)
      ∙ append_assoc (glued blocks) found.0 (all_text wanted rest)
      ∙ ap (append (glued blocks)) (sym text)
]

-- The blocks of a timeline hold each text of the wanted kind once and in order: without the
-- boundaries they read as all that text.
pub blocks_of-text :
    (wanted : TimelineTextKind) (events : List TurnEventKind)
    → glued (blocks_of wanted false [] events) ≡ all_text wanted events
blocks_of-text wanted events =
    blocks_of-glued wanted false [] events ∙ nil-append (all_text wanted events)
