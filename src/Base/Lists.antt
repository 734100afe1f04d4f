-- ===== src/Base/Lists.antt =====
-- Lists measured by native numbers, and tests on lists of texts.
use Prim.Native.Nat.{ℕ, suc}
use Prim.Native.String.{String}
use mathlib.Core.Path.{◌≡◌, refl, ap, ◌∙◌}
use mathlib.Core.Logic.{◌⊎◌, inl, inr}
use mathlib.Core.Bool.{Bool, true, false, ◌||◌, ◌&&◌}
use luna_for_mac.Base.Tests.{if◌then◌else◌, Bool-cases}
use mathlib.Core.List.{List, [], ◌∷◌, ◌++◌, map}
use native.Mathlib.Omega.{arith}
use text.Mathlib.Text.{◌==◌}

module _ {ℓ} {A : Type ℓ} where
  abbrev pub length : List A → ℕ
  length [] = 0
  length (x ∷ xs) = suc (length xs)

  abbrev pub All {κ} : (A → Type κ) → List A → Type κ
  All P [] = Unit
  All P (x ∷ xs) = P x × All P xs

  pub All-append {κ} : (P : A → Type κ) (xs ys : List A) → All P xs → All P ys → All P (xs ++ ys)
  All-append P [] ys hx hy = hy
  All-append P (x ∷ xs) ys hx hy = (hx.0, All-append P xs ys hx.1 hy)

  -- The elements that pass a test, in their order.
  abbrev pub keep : (A → Bool) → List A → List A
  keep p [] = []
  keep p (x ∷ xs) = let rest = keep p xs in if p x then x ∷ rest else rest

  pub keep-keep : (p q : A → Bool) (xs : List A) → keep p (keep q xs) ≡ keep (λ x. q x && p x) xs
  keep-keep p q [] = refl
  keep-keep p q (x ∷ xs) = ground (arith, keep-keep p q xs)

  pub keep-all : (xs : List A) → keep (λ x. true) xs ≡ xs
  keep-all [] = refl
  keep-all (x ∷ xs) = ground (arith, keep-all xs)

module _ {A : Type 0} where
  abbrev pub In : A → List A → Type 0
  In a [] = ⊥
  In a (x ∷ xs) = (a ≡ x) ⊎ In a xs

  pub In-keep : (p : A → Bool) (a : A) (xs : List A) → In a xs → p a ≡ true → In a (keep p xs)
  In-keep p a [] h e = h
  In-keep p a (x ∷ xs) (inl same) e = rw (← same, e) (inl refl)
  In-keep p a (x ∷ xs) (inr h) e = elim (Bool-cases (p x)) [
    | inl f ↦ rw f (inr (In-keep p a xs h e))
    | inr f ↦ rw f (In-keep p a xs h e)
  ]

  kept_first :
      (p : A → Bool) (a x : A) (xs : List A) (b : Bool)
      → p x ≡ b
      → (In a (keep p xs) → In a xs × (p a ≡ true))
      → In a (if b then x ∷ keep p xs else keep p xs)
      → In a (x ∷ xs) × (p a ≡ true)
  kept_first p a x xs true e rest (inl same) = (inl same, ap p same ∙ e)
  kept_first p a x xs true e rest (inr h) = let (i, f) = rest h in (inr i, f)
  kept_first p a x xs false e rest h = let (i, f) = rest h in (inr i, f)

  pub In-of_keep : (p : A → Bool) (a : A) (xs : List A) → In a (keep p xs) → In a xs × (p a ≡ true)
  In-of_keep p a [] h = elim h [ ]
  In-of_keep p a (x ∷ xs) h = kept_first p a x xs (p x) refl (In-of_keep p a xs) h

pub In-map : {A B : Type 0} (f : A → B) (a : A) (xs : List A) → In a xs → In (f a) (map f xs)
In-map f a [] h = elim h [ ]
In-map f a (x ∷ xs) (inl e) = inl (ap f e)
In-map f a (x ∷ xs) (inr h) = inr (In-map f a xs h)

-- Whether a text is an element of a list.
abbrev pub contains : List String → String → Bool
contains [] a = false
contains (x ∷ xs) a = x == a || contains xs a

-- No text occurs twice.
abbrev pub Distinct : List String → Type 0
Distinct [] = Unit
Distinct (x ∷ xs) = (contains xs x ≡ false) × Distinct xs

pub contains-append :
    (xs ys : List String) (a : String) → contains (xs ++ ys) a ≡ (contains xs a || contains ys a)
contains-append [] ys a = refl
contains-append (x ∷ xs) ys a = ground (arith, contains-append xs ys a)
