-- ===== src/Host/Turns/Texts.antt =====
-- The functions on texts that the host's turns use, and what it builds from them.

use hirsel.Base.{ℕ, String, Bool, List}
use hirsel.Proto.{Instant, Json}

-- Of the standard library: `trim`, `chars().take(n)`, a number in decimal, JSON lists of numbers and of tool calls;
-- `timestamp` is the function `hirsel_utc_timestamp` that the connection registers.
pub record TurnTexts : Type 0 where
  pub trim : String → String
  pub take_chars : ℕ → String → String
  pub decimal : ℕ → String
  pub id_list : List ℕ → String
  pub call_list : List Json → Json
  pub timestamp : Instant → ℕ

infixr 65 ◌+s+◌
abbrev pub ◌+s+◌ : String → String → String
String.[] +s+ t = t
(String.◌∷◌ c s) +s+ t = String.◌∷◌ c (s +s+ t)

abbrev pub is_empty_text : String → Bool
is_empty_text String.[] = Bool.true
is_empty_text (String.◌∷◌ c s) = Bool.false
