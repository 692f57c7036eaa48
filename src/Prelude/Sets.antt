-- ===== src/Prelude/Sets.antt =====
-- JavaScript's `Set` of the elements of a list, in the order of their first occurrence.
use mathlib.Core.Path.{◌≡◌, refl}
use mathlib.Core.Bool.{Bool, not, ◌&&◌}
use mathlib.Core.List.{List, [], ◌∷◌, map}
use native.Mathlib.Omega.{arith}
use pmeow.Prelude.Equality.{Eq, ◌==◌, eq_iff}
use pmeow.Prelude.Lists.{any, select}

module _ {ℓ} {A : Type ℓ} ⦃e : Eq A⦄ where
  abbrev pub contains : A → List A → Bool
  contains a xs = any (λ x. x == a) xs

  abbrev pub unique : List A → List A
  unique [] = []
  unique (x ∷ xs) = x ∷ select (λ y. not (y == x)) (unique xs)

  pub contains-select_other :
      (a x : A) (xs : List A)
      → contains a (select (λ y. not (y == x)) xs) ≡ (not (a == x) && contains a xs)
  contains-select_other a x [] = ground arith
  contains-select_other a x (y ∷ xs) =
      ground (arith, contains-select_other a x xs, eq_iff y x, eq_iff y a, eq_iff a x)

  pub contains-unique : (a : A) (xs : List A) → contains a (unique xs) ≡ contains a xs
  contains-unique a [] = refl
  contains-unique a (x ∷ xs) =
      ground
        (arith, contains-select_other a x (unique xs), contains-unique a xs, eq_iff x a, eq_iff a x)

  -- Whether the value of some row that passes the test is `a`.
  pub contains-map-select {κ} :
      {B : Type κ} (a : A) (p : B → Bool) (f : B → A) (xs : List B)
      → contains a (map f (select p xs)) ≡ any (λ x. f x == a && p x) xs
  contains-map-select a p f [] = refl
  contains-map-select a p f (x ∷ xs) = ground (arith, contains-map-select a p f xs)
