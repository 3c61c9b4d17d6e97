-- ===== src/Base/Lists.antt =====
-- The iterator functions of the standard library that the program uses, over Boolean tests.
use Prim.Native.Nat.{ℕ, suc, ◌+◌}
use mathlib.Core.Path.{◌≡◌, refl}
use mathlib.Core.Bool.{Bool, true, false, ◌||◌}
use mathlib.Core.Option.{Option, none, some}
use mathlib.Core.List.{List, [], ◌∷◌, ◌++◌}
use native.Mathlib.Omega.{arith}
use hirsel.Base.Tests.{if◌then◌else◌, leb, ◌==◌}

module _ {ℓ} {A : Type ℓ} where
  abbrev pub length : List A → ℕ
  length [] = 0
  length (x ∷ xs) = suc (length xs)

  -- iter().any(p)
  abbrev pub any : (A → Bool) → List A → Bool
  any p [] = false
  any p (x ∷ xs) = p x || any p xs

  -- iter().find(p)
  abbrev pub find : (A → Bool) → List A → Option A
  find p [] = none
  find p (x ∷ xs) = if p x then some x else find p xs

  -- Vec::retain
  abbrev pub retain : (A → Bool) → List A → List A
  retain p [] = []
  retain p (x ∷ xs) = let rest = retain p xs in if p x then x ∷ rest else rest

  -- `if let Some(x) = iter_mut().find(p) { *x = f(x) }`
  abbrev pub update_first : (A → Bool) → (A → A) → List A → List A
  update_first p f [] = []
  update_first p f (x ∷ xs) = let rest = x ∷ update_first p f xs in if p x then f x ∷ xs else rest

  abbrev pub All {κ} : (A → Type κ) → List A → Type κ
  All P [] = Unit
  All P (x ∷ xs) = P x × All P xs

  pub append_nil : (xs : List A) → xs ++ [] ≡ xs
  append_nil [] = refl
  append_nil (x ∷ xs) = rw (append_nil xs) refl

  pub append_assoc : (xs ys zs : List A) → (xs ++ ys) ++ zs ≡ xs ++ (ys ++ zs)
  append_assoc [] ys zs = refl
  append_assoc (x ∷ xs) ys zs = rw (append_assoc xs ys zs) refl

  pub length-append : (xs ys : List A) → length (xs ++ ys) ≡ length xs + length ys
  length-append [] ys = omega arith
  length-append (x ∷ xs) ys = omega (arith, length-append xs ys)

  pub any-append : (p : A → Bool) (xs ys : List A) → any p (xs ++ ys) ≡ (any p xs || any p ys)
  any-append p [] ys = refl
  any-append p (x ∷ xs) ys = ground (arith, any-append p xs ys)

  pub find-any : (p : A → Bool) (xs : List A) (a : A) → find p xs ≡ some a → any p xs ≡ true
  find-any p [] a h = cc
  find-any p (x ∷ xs) a h = ground (arith, find-any p xs a)

  pub any-find : (p : A → Bool) (xs : List A) → find p xs ≡ none → any p xs ≡ false
  any-find p [] h = refl
  any-find p (x ∷ xs) h = ground (arith, any-find p xs)

  pub find-sat : (p : A → Bool) (xs : List A) (a : A) → find p xs ≡ some a → p a ≡ true
  find-sat p [] a h = cc
  find-sat p (x ∷ xs) a h = ground (arith, find-sat p xs a)

  pub any-retain : (p q : A → Bool) (xs : List A) → any p xs ≡ false → any p (retain q xs) ≡ false
  any-retain p q [] h = refl
  any-retain p q (x ∷ xs) h = ground (arith, any-retain p q xs)

  -- `sort_by_key`, which is stable: an entry goes before the first one whose key is not smaller.
  abbrev pub insert_by_key : (A → ℕ) → A → List A → List A
  insert_by_key key x [] = x ∷ []
  insert_by_key key x (y ∷ ys) =
      let rest = y ∷ insert_by_key key x ys in if leb (key x) (key y) then x ∷ y ∷ ys else rest

  abbrev pub sort_by_key : (A → ℕ) → List A → List A
  sort_by_key key [] = []
  sort_by_key key (x ∷ xs) = insert_by_key key x (sort_by_key key xs)

module _ {ℓ} {A : Type ℓ} where
  pub find-push :
      (p : A → Bool) (xs ys : List A) (a : A) → find p xs ≡ some a → find p (xs ++ ys) ≡ some a
  find-push p [] ys a h = cc
  find-push p (x ∷ xs) ys a h = ground (arith, find-push p xs ys a)

  -- Replacing the entry of one identifier, as seen from another and from its own.
  module _ (key : A → ℕ) (y : A) where
    pub find-replace_ne :
        (id : ℕ) (xs : List A)
        → (key y == id) ≡ false
        → find (λ o. key o == id) (update_first (λ o. key o == key y) (λ _. y) xs)
          ≡ find (λ o. key o == id) xs
    find-replace_ne id [] h = refl
    find-replace_ne id (x ∷ xs) h = ground (arith, find-replace_ne id xs)

    pub find-replace_self :
        (xs : List A) (a : A)
        → find (λ o. key o == key y) xs ≡ some a
        → find (λ o. key o == key y) (update_first (λ o. key o == key y) (λ _. y) xs) ≡ some y
    find-replace_self [] a h = cc
    find-replace_self (x ∷ xs) a h = ground (arith, find-replace_self xs a)
