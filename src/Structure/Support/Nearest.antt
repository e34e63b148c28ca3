-- ===== src/Structure/Support/Nearest.antt =====
-- The support cluster that is selected.
use a_share_limit_pullback.Base.{
  Bool, true, false, if◌then◌else◌, some, List, [], ◌∷◌, keep, least_by, least, Bool-cases, ◌⊎◌,
  inl, inr, ◌≡◌, refl, ap, ◌∙◌, subst, sym, ◌≤◌, length, ltb, not, then_by, ℕ, arith,
}
use a_share_limit_pullback.Decimal.{Decimal, one, ◌≤𝔻◌, ◌+𝔻◌, ◌-𝔻◌, ◌*𝔻◌, ◌/𝔻◌, absolute}
use a_share_limit_pullback.Decimal.Order.{≤𝔻-refl, ≤𝔻_trans, ≤𝔻_total}
use a_share_limit_pullback.Models.Config.{StrategyConfig}
use a_share_limit_pullback.Models.Strategy.{PriceCluster}
use a_share_limit_pullback.Structure.Support.{
  is_nearby, ranks_before, relative_distance, select_support_cluster,
}

module _ {A : Type 0} where
  -- membership in a list
  pub data IsIn (a : A) : List A → Type 0 where
    head : {x : A} {xs : List A} → a ≡ x → IsIn a (x ∷ xs)
    tail : {x : A} {xs : List A} → IsIn a xs → IsIn a (x ∷ xs)

  cases_cons : {a x : A} {xs : List A} → IsIn a (x ∷ xs) → (a ≡ x) ⊎ IsIn a xs
  cases_cons (head e) = inl e
  cases_cons (tail m) = inr m

  either :
      (b : Bool) (x best r : A) (xs : List A)
      → IsIn r ((if b then x else best) ∷ xs)
      → IsIn r (best ∷ x ∷ xs)
  either true x best r xs m = elim (cases_cons m) [ inl e ↦ tail (head e) | inr k ↦ tail (tail k) ]
  either false x best r xs m = elim (cases_cons m) [ inl e ↦ head e | inr k ↦ tail (tail k) ]

  least_by-IsIn :
      (less : A → A → Bool) (best : A) (xs : List A) → IsIn (least_by less best xs) (best ∷ xs)
  least_by-IsIn less best [] = head refl
  least_by-IsIn less best (x ∷ xs) =
      either (less x best) x best _ xs (least_by-IsIn less (if less x best then x else best) xs)

  chosen : {a b : A} → some a ≡ some b → a ≡ b
  chosen h = cc

  least-IsIn : (less : A → A → Bool) (xs : List A) (a : A) → least less xs ≡ some a → IsIn a xs
  least-IsIn less [] a h = cc
  least-IsIn less (x ∷ xs) a h = subst (λ r. IsIn r (x ∷ xs)) (chosen h) (least_by-IsIn less x xs)

  keep-IsIn : (p : A → Bool) (xs : List A) (a : A) → IsIn a (keep p xs) → IsIn a xs × (p a ≡ true)
  keep-IsIn p [] a m = elim m [ ]
  keep-IsIn p (x ∷ xs) a m = elim (Bool-cases (p x)) [
    | inr out ↦
        let (k, q) =
          keep-IsIn p xs a (subst (λ b. IsIn a (if b then x ∷ keep p xs else keep p xs)) out m) in
        (tail k, q)
    | inl kept ↦
        elim (cases_cons (subst (λ b. IsIn a (if b then x ∷ keep p xs else keep p xs)) kept m)) [
          | inl e ↦ (head e, ap p e ∙ kept)
          | inr n ↦ let (k, q) = keep-IsIn p xs a n in (tail k, q)
        ]
  ]

module _ {A : Type 0} (R : A → A → Type 0) (less : A → A → Bool) (reflexive : (a : A) → R a a)
    (transitive : (a b c : A) → R a b → R b c → R a c)
    (if_less : (a b : A) → less a b ≡ true → R a b)
    (if_not : (a b : A) → less a b ≡ false → R b a) where
  least_by-below :
      (best : A) (xs : List A)
      → R (least_by less best xs) best × ((d : A) → IsIn d xs → R (least_by less best xs) d)
  least_by-below best [] = (reflexive best, λ d m. elim m [ ])
  least_by-below best (x ∷ xs) = elim (Bool-cases (less x best)) [
    | inl e ↦
        let (first, later) = least_by-below x xs in
        rw e (
          transitive _ _ _ first (if_less x best e),
          λ d m. elim (cases_cons m) [
            | inl same ↦ subst (λ y. R (least_by less x xs) y) (sym same) first
            | inr k ↦ later d k
          ],
        )
    | inr e ↦
        let (first, later) = least_by-below best xs in
        rw e (
          first,
          λ d m. elim (cases_cons m) [
            | inl same ↦
                subst (λ y. R (least_by less best xs) y) (sym same)
                  (transitive _ _ _ first (if_not x best e))
            | inr k ↦ later d k
          ],
        )
  ]

  least-below : (xs : List A) (a : A) → least less xs ≡ some a → (d : A) → IsIn d xs → R a d
  least-below [] a h d m = cc
  least-below (x ∷ xs) a h d m =
      subst (λ r. R r d) (chosen h)
        (elim (cases_cons m) [
          | inl same ↦ subst (λ y. R (least_by less x xs) y) (sym same) (least_by-below x xs).0
          | inr k ↦ (least_by-below x xs).1 d k
        ])

keep-IsIn_of :
    {A : Type 0} (p : A → Bool) (xs : List A) (a : A) → IsIn a xs → p a ≡ true → IsIn a (keep p xs)
keep-IsIn_of p [] a m h = elim m [ ]
keep-IsIn_of p (x ∷ xs) a m h = elim (cases_cons m) [
  | inl e ↦
      subst (λ b. IsIn a (if b then x ∷ keep p xs else keep p xs)) (sym (ap p (sym e) ∙ h)) (head e)
  | inr k ↦ skip (p x) (keep-IsIn_of p xs a k h)
]
  where
    skip : (b : Bool) → IsIn a (keep p xs) → IsIn a (if b then x ∷ keep p xs else keep p xs)
    skip true n = tail n
    skip false n = n

-- Of two clusters, the first is as near to the close as the second, and has as many sources where they
-- are equally near.
pub record IsAsNear (close : Decimal) (a b : PriceCluster) : Type 0 where
  pub nearer :
      (absolute (close -𝔻 a.center) /𝔻 close ≤𝔻 absolute (close -𝔻 b.center) /𝔻 close) ≡ true
  pub sources :
      (absolute (close -𝔻 b.center) /𝔻 close ≤𝔻 absolute (close -𝔻 a.center) /𝔻 close) ≡ true
      → length b.sources ≤ length a.sources

module _ (close : Decimal) where
  near_refl : (a : PriceCluster) → IsAsNear close a a
  near_refl a = record { nearer = ≤𝔻-refl _; sources = λ h. omega arith }

  near_trans : (a b c : PriceCluster) → IsAsNear close a b → IsAsNear close b c → IsAsNear close a c
  near_trans a b c h k = record {
    nearer = ≤𝔻_trans _ _ _ h.nearer k.nearer;
    sources = λ back.
        omega (
          arith,
          h.sources (≤𝔻_trans _ _ _ k.nearer back),
          k.sources (≤𝔻_trans _ _ _ back h.nearer),
        );
  }

  ranked_cases :
      (ab ba more fewer rest : Bool) (m n : ℕ)
      → (ab ≡ false → ba ≡ true)
      → more ≡ ltb n m
      → fewer ≡ ltb m n
      → then_by (not ba) (not ab) (then_by more fewer rest) ≡ true
      → (ab ≡ true) × (ba ≡ true → n ≤ m)
  ranked_cases true false more fewer rest m n total e f h = (refl, λ k. cc)
  ranked_cases true true more fewer rest m n total e f h = (refl, λ k. ground (arith, e, f, h))
  ranked_cases false true more fewer rest m n total e f h = cc
  ranked_cases false false more fewer rest m n total e f h = cc (total refl)

  unranked_cases :
      (ab ba more fewer rest : Bool) (m n : ℕ)
      → (ab ≡ false → ba ≡ true)
      → more ≡ ltb n m
      → fewer ≡ ltb m n
      → then_by (not ba) (not ab) (then_by more fewer rest) ≡ false
      → (ba ≡ true) × (ab ≡ true → m ≤ n)
  unranked_cases true false more fewer rest m n total e f h = cc
  unranked_cases true true more fewer rest m n total e f h = (refl, λ k. ground (arith, e, f, h))
  unranked_cases false ba more fewer rest m n total e f h = (total refl, λ k. cc)

  ranks_before-near : (a b : PriceCluster) → ranks_before close a b ≡ true → IsAsNear close a b
  unfolding ranks_before relative_distance
  ranks_before-near a b h =
      let (nearer, sources) =
        ranked_cases _ _ _ _ _ (length a.sources) (length b.sources) (≤𝔻_total _ _) refl refl h in
      record { nearer = nearer; sources = sources }

  not_ranks_before-near : (a b : PriceCluster) → ranks_before close a b ≡ false → IsAsNear close b a
  unfolding ranks_before relative_distance
  not_ranks_before-near a b h =
      let (nearer, sources) =
        unranked_cases _ _ _ _ _ (length a.sources) (length b.sources) (≤𝔻_total _ _) refl refl h in
      record { nearer = nearer; sources = sources }

-- The support that is selected is one of the clusters, its center is not above the close by more than
-- the configured share, and of the clusters of which that holds it is the nearest to the close, with
-- the most sources of the equally near ones.
pub select_support_cluster-IsIn :
    (clusters : List PriceCluster) (current_close : Decimal) (config : StrategyConfig)
    (c : PriceCluster)
    → select_support_cluster clusters current_close config ≡ some c
    → IsIn c clusters
      × ((c.center ≤𝔻 current_close *𝔻 (one +𝔻 config.support.max_above_reference_close)) ≡ true)
      × ((d : PriceCluster)
          → IsIn d clusters
          → (d.center ≤𝔻 current_close *𝔻 (one +𝔻 config.support.max_above_reference_close)) ≡ true
          → IsAsNear current_close c d)
unfolding select_support_cluster
select_support_cluster-IsIn clusters current_close config c h =
    let nearby : List PriceCluster = keep (is_nearby current_close config) clusters in
    let (is_in, is_near) =
      keep-IsIn (is_nearby current_close config) clusters c
        (least-IsIn (ranks_before current_close) nearby c h) in
    (
      is_in,
      is_near,
      λ d m k.
          least-below (IsAsNear current_close) (ranks_before current_close)
            (near_refl current_close) (near_trans current_close) (ranks_before-near current_close)
            (not_ranks_before-near current_close) nearby c h d
            (keep-IsIn_of (is_nearby current_close config) clusters d m k),
    )
