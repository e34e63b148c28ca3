-- ===== src/Base/Sort.antt =====
-- Python's `sorted`: a stable insertion sort, by a test for "not after".
use Prim.Native.String.{String}
use mathlib.Core.Path.{◌≡◌, refl, subst, ap, ◌∙◌}
use mathlib.Core.Logic.{inl, inr}
use text.Mathlib.Text.{◌==◌ as str_eq}
use text.Mathlib.TextEquality.{eq_iff}
use text.Mathlib.TextPositions.{eq_refl}
use mathlib.Core.Bool.{Bool, true, false, ◌||◌}
use mathlib.Core.List.{List, [], ◌∷◌, map}
use native.Mathlib.Omega.{arith}
use a_share_limit_pullback.Base.Tests.{if◌then◌else◌, text_leb, Bool-cases}
use a_share_limit_pullback.Base.Lists.{contains, any, is_empty}

module _ {ℓ} {A : Type ℓ} (le : A → A → Bool) where
  unfoldable pub insert_sorted : A → List A → List A
  insert_sorted x [] = x ∷ []
  insert_sorted x (y ∷ ys) = if le x y then x ∷ y ∷ ys else y ∷ insert_sorted x ys

  unfoldable pub sort_by : List A → List A
  unfolding insert_sorted
  sort_by [] = []
  sort_by (x ∷ xs) = insert_sorted x (sort_by xs)

  any-insert_sorted :
      (p : A → Bool) (x : A) (ys : List A) → any p (insert_sorted x ys) ≡ (p x || any p ys)
  unfolding insert_sorted
  any-insert_sorted p x [] = refl
  any-insert_sorted p x (y ∷ ys) = ground (arith, any-insert_sorted p x ys)

  -- Sorting keeps what a test finds.
  pub any-sort_by : (p : A → Bool) (xs : List A) → any p (sort_by xs) ≡ any p xs
  unfolding sort_by
  any-sort_by p [] = refl
  any-sort_by p (x ∷ xs) = ground (arith, any-insert_sorted p x (sort_by xs), any-sort_by p xs)

  is_empty-insert_sorted : (x : A) (ys : List A) → is_empty (insert_sorted x ys) ≡ false
  unfolding insert_sorted
  is_empty-insert_sorted x [] = refl
  is_empty-insert_sorted x (y ∷ ys) = ground arith

  pub is_empty-sort_by : (xs : List A) → is_empty (sort_by xs) ≡ is_empty xs
  unfolding sort_by
  is_empty-sort_by [] = refl
  is_empty-sort_by (x ∷ xs) = is_empty-insert_sorted x (sort_by xs)

-- Sorting by what a function keeps goes before the function or after it.
module _ {ℓ κ} {A : Type ℓ} {B : Type κ} (f : A → B) (le : A → A → Bool) (le' : B → B → Bool)
    (same : (x y : A) → le x y ≡ le' (f x) (f y)) where
  map-insert_sorted :
      (x : A) (ys : List A) → map f (insert_sorted le x ys) ≡ insert_sorted le' (f x) (map f ys)
  unfolding insert_sorted
  map-insert_sorted x [] = refl
  map-insert_sorted x (y ∷ ys) = ground (arith, same x y, map-insert_sorted x ys)

  pub map-sort_by : (xs : List A) → map f (sort_by le xs) ≡ sort_by le' (map f xs)
  unfolding sort_by
  map-sort_by [] = refl
  map-sort_by (x ∷ xs) =
      map-insert_sorted x (sort_by le xs) ∙ ap (insert_sorted le' (f x)) (map-sort_by xs)

-- `tuple(sorted(names))` and `set(names)`
unfoldable pub sorted : List String → List String
unfolding sort_by
sorted = sort_by text_leb

unfoldable pub distinct : List String → List String
distinct [] = []
distinct (x ∷ xs) = let rest = distinct xs in if contains rest x then rest else x ∷ rest

is_empty-add :
    (x : String) (rest : List String)
    → is_empty (if contains rest x then rest else x ∷ rest) ≡ false
is_empty-add x [] = refl
is_empty-add x (y ∷ rest) = ground arith

pub is_empty-distinct : (xs : List String) → is_empty (distinct xs) ≡ is_empty xs
unfolding distinct
is_empty-distinct [] = refl
is_empty-distinct (x ∷ xs) = is_empty-add x (distinct xs)

pub is_empty-sorted : (xs : List String) → is_empty (sorted xs) ≡ is_empty xs
unfolding sorted
is_empty-sorted xs = is_empty-sort_by text_leb xs

contains-added :
    (x : String) (rest : List String)
    → contains (if contains rest x then rest else x ∷ rest) x ≡ true
contains-added x rest = elim (Bool-cases (contains rest x)) [
  | inl found ↦ rw found found
  | inr new ↦ rw new (rw (eq_refl x) refl)
]

module _ (name : String) where
  contains-add :
      (x : String) (rest xs : List String)
      → contains rest name ≡ contains xs name
      → contains (if contains rest x then rest else x ∷ rest) name
        ≡ (str_eq x name || contains xs name)
  contains-add x rest xs h = elim (Bool-cases (str_eq x name)) [
    | inr differs ↦ ground (arith, h, differs)
    | inl same ↦ rw same (
        subst (λ n. contains (if contains rest x then rest else x ∷ rest) n ≡ true)
          ((eq_iff x name).0 same) (contains-added x rest))
  ]

  -- Removing repetitions keeps the names.
  pub contains-distinct : (xs : List String) → contains (distinct xs) name ≡ contains xs name
  unfolding distinct
  contains-distinct [] = refl
  contains-distinct (x ∷ xs) = contains-add x (distinct xs) xs (contains-distinct xs)
