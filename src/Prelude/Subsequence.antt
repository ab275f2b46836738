-- ===== src/Prelude/Subsequence.antt =====
-- Subsequences: what is left of a list when some of its elements are dropped.
use Prim.Native.Nat.{ℕ, zero, suc}
use mathlib.Core.Path.{◌≡◌, refl, ap, sym, ◌∙◌}
use mathlib.Core.Bool.{Bool}
use mathlib.Core.List.{List, [], ◌∷◌, ◌++◌, append-nil, append_assoc}
use mathlib.Core.Logic.{inl, inr}
use hyper_dpi.Prelude.Tests.{if◌then◌else◌, Bool-cases}
use hyper_dpi.Prelude.Lists.{take}

module _ {ℓ} {A : Type ℓ} where
  pub data Sub : List A → List A → Type ℓ where
    empty : Sub [] []
    keep : {x : A} {xs ys : List A} → Sub xs ys → Sub (x ∷ xs) (x ∷ ys)
    skip : {y : A} {xs ys : List A} → Sub xs ys → Sub xs (y ∷ ys)

  pub Sub-refl : (xs : List A) → Sub xs xs
  Sub-refl [] = empty
  Sub-refl (x ∷ xs) = keep (Sub-refl xs)

  pub Sub-nil : (ys : List A) → Sub [] ys
  Sub-nil [] = empty
  Sub-nil (y ∷ ys) = skip (Sub-nil ys)

  pub Sub-trans : {ys zs : List A} → Sub ys zs → (xs : List A) → Sub xs ys → Sub xs zs
  Sub-trans empty xs s = s
  Sub-trans (keep t) (x ∷ xs) (keep s) = keep (Sub-trans t xs s)
  Sub-trans (keep t) xs (skip s) = skip (Sub-trans t xs s)
  Sub-trans (skip t) xs s = skip (Sub-trans t xs s)

  pub Sub-append : {xs ys us vs : List A} → Sub xs ys → Sub us vs → Sub (xs ++ us) (ys ++ vs)
  Sub-append empty t = t
  Sub-append (keep s) t = keep (Sub-append s t)
  Sub-append (skip s) t = skip (Sub-append s t)

  pub Sub-take : (n : ℕ) (xs : List A) → Sub (take n xs) xs
  Sub-take zero xs = Sub-nil xs
  Sub-take (suc n) [] = empty
  Sub-take (suc n) (x ∷ xs) = keep (Sub-take n xs)

  abbrev pub filter : (A → Bool) → List A → List A
  filter p [] = []
  filter p (x ∷ xs) = let rest = filter p xs in if p x then x ∷ rest else rest

  pub filter-append :
      (p : A → Bool) (xs ys : List A) → filter p (xs ++ ys) ≡ filter p xs ++ filter p ys
  filter-append p [] ys = refl
  filter-append p (x ∷ xs) ys = elim (Bool-cases (p x)) [
    | inl here ↦ rw here (ap (◌∷◌ x) (filter-append p xs ys))
    | inr other ↦ rw other (filter-append p xs ys)
  ]

  pub Sub-filter : (p : A → Bool) {xs ys : List A} → Sub xs ys → Sub (filter p xs) (filter p ys)
  Sub-filter p empty = empty
  Sub-filter p (keep {x} s) = elim (Bool-cases (p x)) [
    | inl here ↦ rw here (keep (Sub-filter p s))
    | inr other ↦ rw other (Sub-filter p s)
  ]
  Sub-filter p (skip {y} s) = elim (Bool-cases (p y)) [
    | inl here ↦ rw here (skip (Sub-filter p s))
    | inr other ↦ rw other (Sub-filter p s)
  ]

  pub Sub_nil_inv : {xs : List A} → Sub xs [] → xs ≡ []
  Sub_nil_inv empty = refl

  -- The list has grown at its end by some of the elements offered, in their order.
  pub record Grown (xs xs' offered : List A) : Type ℓ where
    pub added : List A
    pub at_end : xs' ≡ xs ++ added
    pub in_order : Sub added offered

  pub Grown-none : (xs offered : List A) → Grown xs xs offered
  Grown-none xs offered = record {
    added = [];
    at_end = sym (append-nil xs);
    in_order = Sub-nil offered;
  }

  pub Grown-trans :
      (xs ys zs us vs : List A) → Grown xs ys us → Grown ys zs vs → Grown xs zs (us ++ vs)
  Grown-trans xs ys zs us vs g h = record {
    added = g.added ++ h.added;
    at_end = h.at_end ∙ ap (λ t. t ++ h.added) g.at_end ∙ append_assoc xs g.added h.added;
    in_order = Sub-append g.in_order h.in_order;
  }
