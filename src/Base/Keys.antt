-- ===== src/Base/Keys.antt =====
-- Lists whose entries have distinct keys. An entry without a key is not constrained.
use Prim.Native.Nat.{ℕ}
use mathlib.Core.Path.{◌≡◌, refl, ◌∙◌}
use mathlib.Core.Bool.{Bool, true, false, ◌||◌}
use mathlib.Core.Option.{Option, none, some}
use mathlib.Core.List.{List, [], ◌∷◌, ◌++◌}
use native.Mathlib.Omega.{arith}
use hirsel.Base.Tests.{nat_eq, opt_beq, if_cases, leb}
use hirsel.Base.Lists.{any, retain, update_first, any-append, sort_by_key, insert_by_key}

-- Two entries have one key.
abbrev pub clash : Option ℕ → Option ℕ → Bool
clash none o = false
clash (some k) o = opt_beq o (some k)

pub clash_comm : (a b : Option ℕ) → clash a b ≡ clash b a
clash_comm none none = refl
clash_comm none (some b) = refl
clash_comm (some a) none = refl
clash_comm (some a) (some b) = ground arith

module _ {ℓ} {A : Type ℓ} where
  -- Some entry has the key `k`.
  abbrev pub has_key : (A → Option ℕ) → ℕ → List A → Bool
  has_key key k xs = any (λ x. opt_beq (key x) (some k)) xs

  abbrev pub taken : (A → Option ℕ) → Option ℕ → List A → Bool
  taken key none xs = false
  taken key (some k) xs = has_key key k xs

  abbrev pub Distinct : (A → Option ℕ) → List A → Type 0
  Distinct key [] = Unit
  Distinct key (x ∷ xs) = (taken key (key x) xs ≡ false) × Distinct key xs

  module _ (key : A → Option ℕ) where
    taken-cons :
        (k : Option ℕ) (x : A) (xs : List A)
        → taken key k (x ∷ xs) ≡ (clash k (key x) || taken key k xs)
    taken-cons none x xs = refl
    taken-cons (some k) x xs = refl

    pub taken-push :
        (k : Option ℕ) (xs : List A) (y : A)
        → taken key k (xs ++ y ∷ []) ≡ (taken key k xs || clash k (key y))
    taken-push none xs y = refl
    taken-push (some k) xs y =
        ground (arith, any-append (λ x. opt_beq (key x) (some k)) xs (y ∷ []))

    pub Distinct-push :
        (xs : List A) (y : A)
        → Distinct key xs
        → taken key (key y) xs ≡ false
        → Distinct key (xs ++ y ∷ [])
    Distinct-push [] y d h = (ground (arith, taken-push (key y) [] y), tt)
    Distinct-push (x ∷ xs) y d h = (
      ground (
        arith,
        taken-push (key x) xs y,
        taken-cons (key y) x xs,
        clash_comm (key x) (key y),
        d.0,
      ),
      Distinct-push xs y d.1 (ground (arith, taken-cons (key y) x xs)),
    )

    taken-retain :
        (k : Option ℕ) (p : A → Bool) (xs : List A)
        → taken key k xs ≡ false
        → taken key k (retain p xs) ≡ false
    taken-retain k p [] h = h
    taken-retain k p (x ∷ xs) h =
        ground (arith, taken-cons k x xs, taken-cons k x (retain p xs), taken-retain k p xs)

    pub Distinct-retain :
        (p : A → Bool) (xs : List A) → Distinct key xs → Distinct key (retain p xs)
    Distinct-retain p [] d = tt
    Distinct-retain p (x ∷ xs) d =
        let rest = Distinct-retain p xs d.1 in
        if_cases (Distinct key) (p x) (λ _. (taken-retain (key x) p xs d.0, rest)) (λ _. rest)

    -- An update that keeps each updated entry's key.
    module _ (p : A → Bool) (f : A → A) (same : (x : A) → p x ≡ true → key (f x) ≡ key x) where
      pub taken-update_first :
          (k : Option ℕ) (xs : List A) → taken key k (update_first p f xs) ≡ taken key k xs
      taken-update_first k [] = refl
      taken-update_first k (x ∷ xs) = ground (
        arith,
        taken-cons k x xs,
        taken-cons k (f x) xs,
        taken-cons k x (update_first p f xs),
        taken-update_first k xs,
        same x,
      )

      pub Distinct-update_first :
          (xs : List A) → Distinct key xs → Distinct key (update_first p f xs)
      Distinct-update_first [] d = tt
      Distinct-update_first (x ∷ xs) d =
          if_cases (Distinct key) (p x) (λ h. (rw (same x h) d.0, d.1))
            (λ _. (taken-update_first (key x) xs ∙ d.0, Distinct-update_first xs d.1))

    -- Sorting by any order keeps the keys.
    taken-insert_by_key :
        (k : Option ℕ) (order : A → ℕ) (x : A) (xs : List A)
        → taken key k (insert_by_key order x xs) ≡ (clash k (key x) || taken key k xs)
    taken-insert_by_key k order x [] = taken-cons k x []
    taken-insert_by_key k order x (y ∷ ys) = ground (
      arith,
      taken-cons k x (y ∷ ys),
      taken-cons k y ys,
      taken-cons k y (insert_by_key order x ys),
      taken-insert_by_key k order x ys,
    )

    pub taken-sort_by_key :
        (k : Option ℕ) (order : A → ℕ) (xs : List A)
        → taken key k (sort_by_key order xs) ≡ taken key k xs
    taken-sort_by_key k order [] = refl
    taken-sort_by_key k order (x ∷ xs) = ground (
      arith,
      taken-insert_by_key k order x (sort_by_key order xs),
      taken-cons k x xs,
      taken-sort_by_key k order xs,
    )

    Distinct-insert_by_key :
        (order : A → ℕ) (x : A) (xs : List A)
        → taken key (key x) xs ≡ false
        → Distinct key xs
        → Distinct key (insert_by_key order x xs)
    Distinct-insert_by_key order x [] h d = (h, tt)
    Distinct-insert_by_key order x (y ∷ ys) h d =
        if_cases (Distinct key) (leb (order x) (order y)) (λ _. (h, d))
          (λ _. (
            ground (
              arith,
              taken-insert_by_key (key y) order x ys,
              taken-cons (key x) y ys,
              clash_comm (key x) (key y),
              d.0,
            ),
            Distinct-insert_by_key order x ys (ground (arith, taken-cons (key x) y ys)) d.1,
          ))

    pub Distinct-sort_by_key :
        (order : A → ℕ) (xs : List A) → Distinct key xs → Distinct key (sort_by_key order xs)
    Distinct-sort_by_key order [] d = tt
    Distinct-sort_by_key order (x ∷ xs) d =
        Distinct-insert_by_key order x (sort_by_key order xs)
          (taken-sort_by_key (key x) order xs ∙ d.0) (Distinct-sort_by_key order xs d.1)
