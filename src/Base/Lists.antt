-- ===== src/Base/Lists.antt =====
-- Python's sequences: lengths and slices by native numbers, comprehensions, `all`, `any`.
use Prim.Native.Nat.{ℕ, zero, suc, ◌+◌, ◌-◌, ◌≤◌}
use Prim.Native.String.{String}
use text.Mathlib.Text.{◌==◌ as str_eq}
use mathlib.Core.Path.{◌≡◌, refl}
use mathlib.Core.Bool.{Bool, true, false, ◌&&◌, ◌||◌}
use mathlib.Core.Option.{Option, none, some}
use mathlib.Core.List.{List, [], ◌∷◌, ◌++◌}
use native.Mathlib.Omega.{arith}
use a_share_limit_pullback.Base.Tests.{if◌then◌else◌, ◌==◌}

module _ {ℓ} {A : Type ℓ} where
  abbrev pub length : List A → ℕ
  length [] = 0
  length (x ∷ xs) = suc (length xs)

  -- `l[:n]` and `l[n:]`
  abbrev pub take : ℕ → List A → List A
  take zero xs = []
  take (suc n) [] = []
  take (suc n) (x ∷ xs) = x ∷ take n xs

  abbrev pub drop : ℕ → List A → List A
  drop zero xs = xs
  drop (suc n) [] = []
  drop (suc n) (x ∷ xs) = drop n xs

  -- `l[-n:]`: the last `n`, and for `n = 0` all, since `-0` is `0`
  abbrev pub last_n : ℕ → List A → List A
  last_n n xs = if n == 0 then xs else drop (length xs - n) xs

  -- `l[:-1]`
  abbrev pub but_last : List A → List A
  but_last xs = take (length xs - 1) xs

  -- `l[i]`
  abbrev pub get_elem? : List A → ℕ → Option A
  get_elem? [] i = none
  get_elem? (x ∷ xs) zero = some x
  get_elem? (x ∷ xs) (suc i) = get_elem? xs i

  -- `l[-1]`
  abbrev pub last? : List A → Option A
  last? xs = if length xs == 0 then none else get_elem? xs (length xs - 1)

  -- `tuple(x for x in l if p(x))`
  abbrev pub keep : (A → Bool) → List A → List A
  keep p [] = []
  keep p (x ∷ xs) = if p x then x ∷ keep p xs else keep p xs

  -- `next(x for x in l if p(x))`, with `None` for no such `x`
  abbrev pub first : (A → Bool) → List A → Option A
  first p [] = none
  first p (x ∷ xs) = if p x then some x else first p xs

  -- `next(i for i, x in enumerate(l) if p(x))`
  abbrev pub index_from : ℕ → (A → Bool) → List A → Option ℕ
  index_from i p [] = none
  index_from i p (x ∷ xs) = if p x then some i else index_from (i + 1) p xs

  -- `d.get(key)` where a later item of the comprehension replaces an earlier one
  abbrev pub find_last : (A → Bool) → List A → Option A
  find_last p [] = none
  find_last p (x ∷ xs) = elim (find_last p xs) [
    | some y ↦ some y
    | none ↦ if p x then some x else none
  ]

  -- the indices of a list, from `i` on, at which `p` holds
  abbrev pub indices_where : (A → Bool) → ℕ → List A → List ℕ
  indices_where p i [] = []
  indices_where p i (x ∷ xs) =
      if p x then i ∷ indices_where p (i + 1) xs else indices_where p (i + 1) xs

  -- `min(l, key=…)`, by the strict order of the keys: the first of the least
  abbrev pub least_by : (A → A → Bool) → A → List A → A
  least_by less best [] = best
  least_by less best (x ∷ xs) = least_by less (if less x best then x else best) xs

  abbrev pub least : (A → A → Bool) → List A → Option A
  least less [] = none
  least less (x ∷ xs) = some (least_by less x xs)

  abbrev pub all : (A → Bool) → List A → Bool
  all p [] = true
  all p (x ∷ xs) = p x && all p xs

  abbrev pub any : (A → Bool) → List A → Bool
  any p [] = false
  any p (x ∷ xs) = p x || any p xs

  abbrev pub is_empty : List A → Bool
  is_empty [] = true
  is_empty (x ∷ xs) = false

  -- A predicate on every item, as a tuple.
  abbrev pub All {κ} : (A → Type κ) → List A → Type κ
  All P [] = Unit
  All P (x ∷ xs) = P x × All P xs

  pub length-append : (xs ys : List A) → length (xs ++ ys) ≡ length xs + length ys
  length-append [] ys = omega arith
  length-append (x ∷ xs) ys = omega (arith, length-append xs ys)

  pub length-keep-le : (p : A → Bool) (xs : List A) → length (keep p xs) ≤ length xs
  length-keep-le p [] = omega arith
  length-keep-le p (x ∷ xs) = ground (arith, length-keep-le p xs)

  pub keep-append : (p : A → Bool) (xs ys : List A) → keep p (xs ++ ys) ≡ keep p xs ++ keep p ys
  keep-append p [] ys = refl
  keep-append p (x ∷ xs) ys = ground (arith, keep-append p xs ys)

  pub keep-none : (p : A → Bool) (xs : List A) → All (λ x. p x ≡ false) xs → keep p xs ≡ []
  keep-none p [] h = refl
  keep-none p (x ∷ xs) (h, hs) = ground (arith, keep-none p xs hs)

-- `name in names`
abbrev pub contains : List String → String → Bool
contains names name = any (λ s. str_eq s name) names

-- `d.get(key)` for a dict of numbers
abbrev pub get_num {ℓ} : {V : Type ℓ} → ℕ → List (ℕ × V) → Option V
get_num k [] = none
get_num k ((j, v) ∷ d) = if j == k then some v else get_num k d

-- equality of two tuples of names
abbrev pub names_eq : List String → List String → Bool
names_eq [] [] = true
names_eq (x ∷ xs) (y ∷ ys) = str_eq x y && names_eq xs ys
names_eq _ _ = false

-- Comparison of tuples: the first components that differ decide.
abbrev pub then_by : Bool → Bool → Bool → Bool
then_by less greater rest = if less then true else if greater then false else rest

module _ {ℓ} {A : Type ℓ} where
  pub any-keep :
      (p q : A → Bool) (xs : List A) → ((x : A) → (p x && q x) ≡ false) → any p (keep q xs) ≡ false
  any-keep p q [] h = refl
  any-keep p q (x ∷ xs) h = ground (arith, any-keep p q xs h, h x)

  pub any-keep-le : (p q : A → Bool) (xs : List A) → any p xs ≡ false → any p (keep q xs) ≡ false
  any-keep-le p q [] h = refl
  any-keep-le p q (x ∷ xs) h = ground (arith, any-keep-le p q xs)
