-- ===== src/Structure/Prices/Groups.antt =====
-- The groups of neighbouring prices.
use a_share_limit_pullback.Base.{
  inl, inr, not, ◌&&◌, Bool, true, List, [], ◌∷◌, ◌++◌, all, ◌≡◌, refl, ap, ◌∙◌, arith, Bool-cases,
}
use mathlib.Core.List.{append_assoc}
use a_share_limit_pullback.Decimal.{Decimal}
use a_share_limit_pullback.Models.Strategy.{PriceLevelCandidate}
use a_share_limit_pullback.Structure.Prices.{Group, members, is_near, groups_from, groups_of}

-- The candidates of the groups, in order.
abbrev pub ungroup : List Group → List PriceLevelCandidate
ungroup [] = []
ungroup (g ∷ gs) = members g ++ ungroup gs

-- Each candidate of a group is near its first, and no group begins near the first of the one before.
abbrev pub is_linked : Decimal → Group → Bool
is_linked d g = all (is_near d g) g.1

abbrev pub begins_apart : Decimal → Group → List Group → Bool
begins_apart d g [] = true
begins_apart d g (k ∷ ks) = not (is_near d g k.0)

abbrev pub are_split : Decimal → List Group → Bool
are_split d [] = true
are_split d (g ∷ gs) = begins_apart d g gs && are_split d gs

all-append :
    (p : PriceLevelCandidate → Bool) (xs ys : List PriceLevelCandidate)
    → all p (xs ++ ys) ≡ (all p xs && all p ys)
all-append p [] ys = refl
all-append p (x ∷ xs) ys = ground (arith, all-append p xs ys)

module _ (d : Decimal) where
  ungroup-groups_from :
      (g : Group) (cs : List PriceLevelCandidate) → ungroup (groups_from d g cs) ≡ members g ++ cs
  unfolding groups_from
  ungroup-groups_from (first, rest) [] = refl
  ungroup-groups_from (first, rest) (c ∷ cs) = elim (Bool-cases (is_near d (first, rest) c)) [
    | inl near ↦ rw near (
        ungroup-groups_from (first, rest ++ c ∷ []) cs
        ∙ ap (λ xs. first ∷ xs) (append_assoc rest (c ∷ []) cs))
    | inr far ↦ rw far (ap (λ xs. first ∷ rest ++ xs) (ungroup-groups_from (c, []) cs))
  ]

  is_linked-groups_from :
      (g : Group) (cs : List PriceLevelCandidate)
      → is_linked d g ≡ true
      → all (is_linked d) (groups_from d g cs) ≡ true
  unfolding groups_from is_near
  is_linked-groups_from (first, rest) [] h = rw h refl
  is_linked-groups_from (first, rest) (c ∷ cs) h = elim (Bool-cases (is_near d (first, rest) c)) [
    | inl near ↦ rw near (
        is_linked-groups_from (first, rest ++ c ∷ []) cs
          (all-append (is_near d (first, [])) rest (c ∷ []) ∙ ground (arith, h, near)))
    | inr far ↦ rw far (rw h (is_linked-groups_from (c, []) cs refl))
  ]

  begins_apart-groups_from :
      (before g : Group) (cs : List PriceLevelCandidate)
      → begins_apart d before (groups_from d g cs) ≡ not (is_near d before g.0)
  unfolding groups_from
  begins_apart-groups_from before (first, rest) [] = refl
  begins_apart-groups_from before (first, rest) (c ∷ cs) =
      ground (arith, begins_apart-groups_from before (first, rest ++ c ∷ []) cs)

  are_split-groups_from :
      (g : Group) (cs : List PriceLevelCandidate) → are_split d (groups_from d g cs) ≡ true
  unfolding groups_from
  are_split-groups_from (first, rest) [] = refl
  are_split-groups_from (first, rest) (c ∷ cs) = elim (Bool-cases (is_near d (first, rest) c)) [
    | inl near ↦ rw near (are_split-groups_from (first, rest ++ c ∷ []) cs)
    | inr far ↦ rw far (
        rw (begins_apart-groups_from (first, rest) (c, []) cs)
          (rw far (are_split-groups_from (c, []) cs)))
  ]

  -- The groups hold the candidates in order, each is linked to its first, and none could have joined
  -- the group before it.
  pub groups_of_lem :
      (cs : List PriceLevelCandidate)
      → (ungroup (groups_of d cs) ≡ cs)
        × (all (is_linked d) (groups_of d cs) ≡ true)
        × (are_split d (groups_of d cs) ≡ true)
  unfolding groups_of
  groups_of_lem [] = (refl, refl, refl)
  groups_of_lem (c ∷ cs) = (
    ungroup-groups_from (c, []) cs,
    is_linked-groups_from (c, []) cs refl,
    are_split-groups_from (c, []) cs,
  )
