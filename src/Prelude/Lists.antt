-- ===== src/Prelude/Lists.antt =====
-- Lists measured by native numbers and searched by Boolean tests, under the library's names.
use Prim.Native.Nat.{ℕ, zero, suc, ◌+◌, ◌≤◌}
use mathlib.Core.Path.{◌≡◌, refl}
use mathlib.Core.Bool.{Bool, true, false, not}
use mathlib.Core.List.{List, [], ◌∷◌, ◌++◌}
use mathlib.Core.Option.{Option, none, some}
use native.Mathlib.Omega.{arith}
use membrane_core.Prelude.Tests.{if◌then◌else◌}

module _ {ℓ} {A : Type ℓ} where
  abbrev pub length : List A → ℕ
  length [] = 0
  length (x ∷ xs) = suc (length xs)

  abbrev pub take : ℕ → List A → List A
  take zero xs = []
  take (suc n) [] = []
  take (suc n) (x ∷ xs) = x ∷ take n xs

  -- `Iterator::find`
  abbrev pub find? : (A → Bool) → List A → Option A
  find? p [] = none
  find? p (x ∷ xs) = if p x then some x else find? p xs

  -- `Iterator::filter`
  abbrev pub filter : (A → Bool) → List A → List A
  filter p [] = []
  filter p (x ∷ xs) = let rest = filter p xs in if p x then x ∷ rest else rest

  -- Every element of the list has the property.
  abbrev pub All {κ} : (A → Type κ) → List A → Type κ
  All P [] = Unit
  All P (x ∷ xs) = P x × All P xs

  -- A sum over the list.
  abbrev pub sum_by : (A → ℕ) → List A → ℕ
  sum_by f [] = 0
  sum_by f (x ∷ xs) = f x + sum_by f xs

  pub All-append {κ} : (P : A → Type κ) (xs ys : List A) → All P xs → All P ys → All P (xs ++ ys)
  All-append P [] ys hx hy = hy
  All-append P (x ∷ xs) ys hx hy = (hx.0, All-append P xs ys hx.1 hy)

  pub All-filter {κ} :
      (P : A → Type κ) (p : A → Bool) (xs : List A) → All P xs → All P (filter p xs)
  All-filter P p [] h = tt
  All-filter P p (x ∷ xs) h = keep (p x) (All-filter P p xs h.1)
    where
      keep : (b : Bool) → All P (filter p xs) → All P (if b then x ∷ filter p xs else filter p xs)
      keep true rest = (h.0, rest)
      keep false rest = rest

  -- What passes the test has what the test gives.
  pub All-filter-true {κ μ} :
      (P : A → Type κ) (Q : A → Type μ) (p : A → Bool) (xs : List A)
      → ((a : A) → P a → p a ≡ true → Q a)
      → All P xs
      → All Q (filter p xs)
  All-filter-true P Q p [] f h = tt
  All-filter-true P Q p (x ∷ xs) f h = keep (p x) (f x h.0) (All-filter-true P Q p xs f h.1)
    where
      keep :
          (b : Bool)
          → (b ≡ true → Q x)
          → All Q (filter p xs)
          → All Q (if b then x ∷ filter p xs else filter p xs)
      keep true q rest = (q refl, rest)
      keep false q rest = rest

  pub sum_by-append : (f : A → ℕ) (xs ys : List A) → sum_by f (xs ++ ys) ≡ sum_by f xs + sum_by f ys
  sum_by-append f [] ys = omega arith
  sum_by-append f (x ∷ xs) ys = omega (arith, sum_by-append f xs ys)

  pub length-append : (xs ys : List A) → length (xs ++ ys) ≡ length xs + length ys
  length-append [] ys = omega arith
  length-append (x ∷ xs) ys = omega (arith, length-append xs ys)

  pub find?-append_none :
      (p : A → Bool) (xs ys : List A) → find? p xs ≡ none → find? p (xs ++ ys) ≡ find? p ys
  find?-append_none p [] ys h = refl
  find?-append_none p (x ∷ xs) ys h = ground (arith, find?-append_none p xs ys)

  pub sum_by-filter :
      (f : A → ℕ) (p : A → Bool) (xs : List A)
      → sum_by f (filter p xs) + sum_by f (filter (λ x. not (p x)) xs) ≡ sum_by f xs
  sum_by-filter f p [] = refl
  sum_by-filter f p (x ∷ xs) = ground (arith, sum_by-filter f p xs)

  -- What is found, beside what is not like it, is no more than there was.
  pub sum_by-filter-find :
      (f : A → ℕ) (p : A → Bool) (xs : List A) (x : A)
      → find? p xs ≡ some x
      → sum_by f (filter (λ y. not (p y)) xs) + f x ≤ sum_by f xs
  sum_by-filter-find f p [] x h = cc
  sum_by-filter-find f p (y ∷ xs) x h =
      by_head (p y) (omega (arith, sum_by-filter f p xs)) (sum_by-filter-find f p xs x) h
    where
      rest : List A
      rest = filter (λ z. not (p z)) xs

      by_head :
          (b : Bool)
          → sum_by f rest ≤ sum_by f xs
          → (find? p xs ≡ some x → sum_by f rest + f x ≤ sum_by f xs)
          → (if b then some y else find? p xs) ≡ some x
          → sum_by f (if not b then y ∷ rest else rest) + f x ≤ f y + sum_by f xs
      by_head true below found k = ground arith
      by_head false below found k = omega (arith, found k)
