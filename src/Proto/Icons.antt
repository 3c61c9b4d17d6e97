-- ===== src/Proto/Icons.antt =====
-- crates/hirsel-proto/src/thread_icon.rs
use hirsel.Base.{
  String, ◌≡◌, refl, subst, ◌↔◌, Option, some, List, [], ◌∷◌, find, str_eq, str_eq_iff, find-sat,
}

pub data ThreadTint : Type 0 where
  neutral red orange amber green teal blue violet pink : ThreadTint

pub data ThreadIcon : Type 0 where
  -- name, tint
  symbol : String → ThreadTint → ThreadIcon
  -- blob_id
  image : String → ThreadIcon

-- ThreadTint::ALL
abbrev all_tints : List ThreadTint
all_tints = neutral ∷ red ∷ orange ∷ amber ∷ green ∷ teal ∷ blue ∷ violet ∷ pink ∷ []

-- ThreadTint::as_str
unfoldable pub as_str : ThreadTint → String
as_str neutral = "neutral"
as_str red = "red"
as_str orange = "orange"
as_str amber = "amber"
as_str green = "green"
as_str teal = "teal"
as_str blue = "blue"
as_str violet = "violet"
as_str pink = "pink"

-- ThreadTint::parse
unfoldable pub parse : String → Option ThreadTint
unfolding as_str
parse value = find (λ tint. str_eq (as_str tint) value) all_tints

parse-as_str : (t : ThreadTint) → parse (as_str t) ≡ some t
unfolding parse
parse-as_str neutral = refl
parse-as_str red = refl
parse-as_str orange = refl
parse-as_str amber = refl
parse-as_str green = refl
parse-as_str teal = refl
parse-as_str blue = refl
parse-as_str violet = refl
parse-as_str pink = refl

as_str-parse : (s : String) (t : ThreadTint) → parse s ≡ some t → as_str t ≡ s
unfolding parse
as_str-parse s t h =
    (str_eq_iff (as_str t) s).0 (find-sat (λ tint. str_eq (as_str tint) s) all_tints t h)

-- A text parses to a tint exactly when it is the text of that tint: printing and parsing are inverse
-- to each other, and no other text is accepted.
pub tint_round_trip : (s : String) (t : ThreadTint) → (parse s ≡ some t) ↔ (as_str t ≡ s)
tint_round_trip s t = (as_str-parse s t, λ h. subst (λ x. parse x ≡ some t) h (parse-as_str t))
