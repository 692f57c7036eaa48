-- ===== src/Prelude/Rows.antt =====
-- Tables as lists of rows: rows found by a test, rewritten in place, appended, and told apart by a
-- key, which is how the program's SQL statements see them.
use mathlib.Core.Path.{◌≡◌, refl, subst}
use mathlib.Core.Logic.{◌≢◌, inl, inr}
use mathlib.Core.Bool.{Bool, true, false, ◌&&◌}
use mathlib.Core.Option
use mathlib.Core.Option.{Option, none, some}
use mathlib.Core.List.{List, [], ◌∷◌, ◌++◌, map}
use native.Mathlib.Omega.{arith}
use pmeow.Prelude.Tests.{if◌then◌else◌, Bool-cases}
use pmeow.Prelude.Equality.{Eq, ◌==◌, eq_iff, eq_refl}
use pmeow.Prelude.Lists.{find, any, or_else, All, select}

module _ {ℓ} {A : Type ℓ} where
  -- `UPDATE … WHERE`
  abbrev pub update_where : (A → Bool) → (A → A) → List A → List A
  update_where p f = map (λ r. if p r then f r else r)

  pub find-map :
      (p : A → Bool) (g : A → A) (xs : List A)
      → ((x : A) → p (g x) ≡ p x)
      → find p (map g xs) ≡ Option.map g (find p xs)
  find-map p g [] h = refl
  find-map p g (x ∷ xs) h = ground (arith, h x, find-map p g xs h)

  pub find-append_one :
      (p : A → Bool) (xs : List A) (x : A)
      → find p (xs ++ x ∷ []) ≡ or_else (find p xs) (if p x then some x else none)
  find-append_one p [] x = refl
  find-append_one p (y ∷ xs) x = ground (arith, find-append_one p xs x)

  pub find_holds : (p : A → Bool) (xs : List A) (a : A) → find p xs ≡ some a → p a ≡ true
  find_holds p [] a h = cc
  find_holds p (x ∷ xs) a h = ground (arith, find_holds p xs a)

  pub find-All {κ} :
      (P : A → Type κ) (p : A → Bool) (xs : List A) (a : A) → All P xs → find p xs ≡ some a → P a
  find-All P p [] a h e = absurd (cc)
  find-All P p (x ∷ xs) a (h, hs) e = elim (Bool-cases (p x)) [
    | inl t ↦ subst P (Option.some-injective _ _ (rw t at e)) h
    | inr f ↦ find-All P p xs a hs (rw f at e)
  ]

  pub All-of_find-none : (p : A → Bool) (xs : List A) → find p xs ≡ none → All (λ y. p y ≡ false) xs
  All-of_find-none p [] e = tt
  All-of_find-none p (x ∷ xs) e = ground (arith, All-of_find-none p xs)

  pub All-weaken {κ μ} :
      (P : A → Type κ) (Q : A → Type μ) (xs : List A) → ((x : A) → P x → Q x) → All P xs → All Q xs
  All-weaken P Q [] f h = tt
  All-weaken P Q (x ∷ xs) f (h, hs) = (f x h, All-weaken P Q xs f hs)

  pub All-append_one {κ} :
      (P : A → Type κ) (xs : List A) (x : A) → All P xs → P x → All P (xs ++ x ∷ [])
  All-append_one P [] x h p = (p, tt)
  All-append_one P (y ∷ xs) x (h, hs) p = (h, All-append_one P xs x hs p)

  pub All-map {κ μ} :
      (P : A → Type κ) (Q : A → Type μ) (g : A → A) (xs : List A)
      → ((x : A) → P x → Q (g x))
      → All P xs
      → All Q (map g xs)
  All-map P Q g [] f h = tt
  All-map P Q g (x ∷ xs) f (h, hs) = (f x h, All-map P Q g xs f hs)

  pub map_congr {κ} :
      {B : Type κ} (f g : A → B) (xs : List A) → All (λ x. f x ≡ g x) xs → map f xs ≡ map g xs
  map_congr f g [] h = refl
  map_congr f g (x ∷ xs) (h, hs) = cc (h, map_congr f g xs hs)

  pub map-map :
      (f g h : A → A) (xs : List A) → ((x : A) → f (g x) ≡ h x) → map f (map g xs) ≡ map h xs
  map-map f g h [] e = refl
  map-map f g h (x ∷ xs) e = cc (e x, map-map f g h xs e)

  pub map_ext {κ} :
      {B : Type κ} (f g : A → B) (xs : List A) → ((x : A) → f x ≡ g x) → map f xs ≡ map g xs
  map_ext f g [] e = refl
  map_ext f g (x ∷ xs) e = cc (e x, map_ext f g xs e)

  pub map_same : (f : A → A) (xs : List A) → ((x : A) → f x ≡ x) → map f xs ≡ xs
  map_same f [] e = refl
  map_same f (x ∷ xs) e = cc (e x, map_same f xs e)

  pub any_congr : (p q : A → Bool) (xs : List A) → ((x : A) → p x ≡ q x) → any p xs ≡ any q xs
  any_congr p q [] e = refl
  any_congr p q (x ∷ xs) e = ground (arith, e x, any_congr p q xs e)

  pub any-select : (p q : A → Bool) (xs : List A) → any p (select q xs) ≡ any (λ x. q x && p x) xs
  any-select p q [] = refl
  any-select p q (x ∷ xs) = ground (arith, any-select p q xs)

  pub All-of_select : (p : A → Bool) (xs : List A) → All (λ x. p x ≡ true) (select p xs)
  All-of_select p [] = tt
  All-of_select p (x ∷ xs) = elim (Bool-cases (p x)) [
    | inl t ↦ rw t (t, All-of_select p xs)
    | inr f ↦ rw f (All-of_select p xs)
  ]

  pub All-both {κ μ} :
      (P : A → Type κ) (Q : A → Type μ) (xs : List A)
      → All P xs
      → All Q xs
      → All (λ x. P x × Q x) xs
  All-both P Q [] h k = tt
  All-both P Q (x ∷ xs) (h, hs) (k, ks) = ((h, k), All-both P Q xs hs ks)

  pub All-select {κ} :
      (P : A → Type κ) (p : A → Bool) (xs : List A) → All P xs → All P (select p xs)
  All-select P p [] h = tt
  All-select P p (x ∷ xs) (h, hs) = elim (Bool-cases (p x)) [
    | inl t ↦ rw t (h, All-select P p xs hs)
    | inr f ↦ rw f (All-select P p xs hs)
  ]

-- No two rows have the same key.
abbrev pub Distinct {ℓ κ} : {A : Type ℓ} {K : Type κ} → (A → K) → List A → Type (ℓ ⊔ κ)
Distinct key [] = Unit
Distinct key (x ∷ xs) = All (λ y. key x ≢ key y) xs × Distinct key xs

module _ {ℓ κ} {A : Type ℓ} {K : Type κ} (key : A → K) where
  pub find_same_key :
      (p q : A → Bool) (xs : List A) (a b : A)
      → Distinct key xs
      → find p xs ≡ some a
      → find q xs ≡ some b
      → key a ≡ key b
      → a ≡ b
  find_same_key p q [] a b d e f k = cc
  find_same_key p q (x ∷ xs) a b (d, ds) e f k = ground (
    arith,
    find_same_key p q xs a b ds,
    find-All (λ y. key x ≢ key y) p xs a d,
    find-All (λ y. key x ≢ key y) q xs b d,
  )

  pub find_only :
      (p : A → Bool) (xs : List A) (a : A)
      → Distinct key xs
      → find p xs ≡ some a
      → All (λ x. key x ≡ key a → x ≡ a) xs
  find_only p [] a d e = tt
  find_only p (x ∷ xs) a (d, ds) e = elim (Bool-cases (p x)) [
    | inl t ↦
        let same : x ≡ a = Option.some-injective _ _ (rw t at e) in
        ((λ _. same), All-weaken _ _ xs (λ y apart k. absurd (apart (cc))) d)
    | inr f ↦
        let later : find p xs ≡ some a = rw f at e in
        ((λ k. absurd (find-All (λ y. key x ≢ key y) p xs a d later k)), find_only p xs a ds later)
  ]

  pub Distinct-select : (p : A → Bool) (xs : List A) → Distinct key xs → Distinct key (select p xs)
  Distinct-select p [] d = tt
  Distinct-select p (x ∷ xs) (d, ds) = elim (Bool-cases (p x)) [
    | inl t ↦ rw t (All-select _ p xs d, Distinct-select p xs ds)
    | inr f ↦ rw f (Distinct-select p xs ds)
  ]

  pub Distinct-map :
      (g : A → A) (xs : List A)
      → ((x : A) → key (g x) ≡ key x)
      → Distinct key xs
      → Distinct key (map g xs)
  Distinct-map g [] h d = tt
  Distinct-map g (x ∷ xs) h (d, ds) = (apart xs d, Distinct-map g xs h ds)
    where
      apart : (ys : List A) → All (λ y. key x ≢ key y) ys → All (λ y. key (g x) ≢ key y) (map g ys)
      apart [] _ = tt
      apart (y ∷ ys) (e, es) = ((λ q. e (cc (h x, h y, q))), apart ys es)

  pub Distinct-append_one :
      (xs : List A) (x : A)
      → Distinct key xs
      → All (λ y. key y ≢ key x) xs
      → Distinct key (xs ++ x ∷ [])
  Distinct-append_one [] x d h = (tt, tt)
  Distinct-append_one (y ∷ xs) x (d, ds) (h, hs) =
      (All-append_one (λ z. key y ≢ key z) xs x d h, Distinct-append_one xs x ds hs)

  module _ ⦃e : Eq K⦄ where
    pub find_self :
        (xs : List A) → Distinct key xs → All (λ a. find (λ x. key x == key a) xs ≡ some a) xs
    find_self [] d = tt
    find_self (x ∷ xs) (d, ds) = (ground (arith, eq_refl (key x)), later xs d (find_self xs ds))
      where
        later :
            (ys : List A)
            → All (λ y. key x ≢ key y) ys
            → All (λ a. find (λ z. key z == key a) xs ≡ some a) ys
            → All (λ a. find (λ z. key z == key a) (x ∷ xs) ≡ some a) ys
        later [] _ _ = tt
        later (y ∷ ys) (h, hs) (i, is) = (ground (arith, eq_iff (key x) (key y)), later ys hs is)

  -- With distinct keys, asking whether some row has this row's key and passes a test asks whether
  -- this row passes it.
  module _ ⦃e : Eq K⦄ (p : A → Bool) where
    any_apart :
        (r : A) (xs : List A)
        → All (λ y. key r ≢ key y) xs
        → any (λ a. key a == key r && p a) xs ≡ false
    any_apart r [] h = refl
    any_apart r (x ∷ xs) (h, hs) = ground (arith, any_apart r xs hs, eq_iff (key x) (key r))

    pub any_unique :
        (xs : List A) → Distinct key xs → All (λ r. any (λ a. key a == key r && p a) xs ≡ p r) xs
    any_unique [] d = tt
    any_unique (x ∷ xs) (d, ds) =
        (ground (arith, any_apart x xs d, eq_refl (key x)), later xs d (any_unique xs ds))
      where
        later :
            (ys : List A)
            → All (λ y. key x ≢ key y) ys
            → All (λ r. any (λ a. key a == key r && p a) xs ≡ p r) ys
            → All (λ r. any (λ a. key a == key r && p a) (x ∷ xs) ≡ p r) ys
        later [] _ _ = tt
        later (y ∷ ys) (h, hs) (i, is) = (ground (arith, eq_iff (key x) (key y)), later ys hs is)
