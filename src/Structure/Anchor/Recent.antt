-- ===== src/Structure/Anchor/Recent.antt =====
-- The last index at which a test holds in a list.
use native.Mathlib.Numerals.{unary_clauses}
use a_share_limit_pullback.Base.{
  keep, none, ℕ, zero, suc, ◌+◌, Bool, true, false, if◌then◌else◌, some, List, [], ◌∷◌, drop,
  get_elem?, last?, indices_where, find_last, All, Bool-cases, Option-cases, inl, inr, ◌≡◌, refl,
  sym, ap, ◌∙◌, subst, arith,
}

last?-cons : {B : Type 0} (x y : B) (ys : List B) → last? (x ∷ y ∷ ys) ≡ last? (y ∷ ys)
last?-cons x y ys = ground arith

module _ {A : Type 0} where
  pub get_elem?-drop : (n j : ℕ) (xs : List A) → get_elem? (drop n xs) j ≡ get_elem? xs (n + j)
  get_elem?-drop zero j xs = let e : j ≡ 0 + j = omega arith in ap (get_elem? xs) e
  get_elem?-drop (suc n) j [] = refl
  get_elem?-drop (suc n) j (x ∷ xs) =
      let e : suc (n + j) ≡ suc n + j = omega arith in
      get_elem?-drop n j xs ∙ ap (get_elem? (x ∷ xs)) e

  pub drop-drop : (n m : ℕ) (xs : List A) → drop m (drop n xs) ≡ drop (n + m) xs
  drop-drop zero m xs = let e : m ≡ 0 + m = omega arith in ap (λ n. drop n xs) e
  drop-drop (suc n) zero [] = simp unary_clauses refl
  drop-drop (suc n) (suc m) [] = simp unary_clauses refl
  drop-drop (suc n) m (x ∷ xs) =
      let e : suc (n + m) ≡ suc n + m = omega arith in
      drop-drop n m xs ∙ ap (λ k. drop k (x ∷ xs)) e

  -- what the last index says: the item there meets the test, and none behind it does
  pub record IsLast (p : A → Bool) (start : ℕ) (xs : List A) (k : ℕ) : Type 0 where
    pub offset : ℕ
    pub item : A
    pub at : k ≡ start + offset
    pub is_item : get_elem? xs offset ≡ some item
    pub holds : p item ≡ true
    pub later : All (λ x. p x ≡ false) (drop (suc offset) xs)

  no_indices :
      (p : A → Bool) (i : ℕ) (xs : List A) → indices_where p i xs ≡ [] → All (λ x. p x ≡ false) xs
  no_indices p i [] h = tt
  no_indices p i (x ∷ xs) h = elim (Bool-cases (p x)) [
    | inl e ↦ cc
    | inr e ↦ (
      e,
      no_indices p (i + 1) xs (
          sym (ap (λ b. if b then i ∷ indices_where p (i + 1) xs else indices_where p (i + 1) xs) e)
          ∙ h),
    )
  ]

  later_one :
      (p : A → Bool) (i : ℕ) (x : A) (xs : List A) (k : ℕ)
      → IsLast p (i + 1) xs k
      → IsLast p i (x ∷ xs) k
  later_one p i x xs k l = record {
    offset = suc l.offset;
    item = l.item;
    at = omega (arith, l.at);
    is_item = l.is_item;
    holds = l.holds;
    later = l.later;
  }

  pub last?-indices_where :
      (p : A → Bool) (i : ℕ) (xs : List A) (k : ℕ)
      → last? (indices_where p i xs) ≡ some k
      → IsLast p i xs k
  last?-indices_where p i [] k h = cc
  last?-indices_where p i (x ∷ xs) k h = elim (Bool-cases (p x)) [
    | inr e ↦ later_one p i x xs k (
        last?-indices_where p (i + 1) xs k (
          subst
            (λ b.
              last? (if b then i ∷ indices_where p (i + 1) xs else indices_where p (i + 1) xs)
              ≡ some k)
            e h))
    | inl e ↦ by_rest e (last?-indices_where p (i + 1) xs k) (indices_where p (i + 1) xs) refl (
        subst
          (λ b.
            last? (if b then i ∷ indices_where p (i + 1) xs else indices_where p (i + 1) xs)
            ≡ some k)
          e h)
  ]
    where
      by_rest :
          p x ≡ true
          → (last? (indices_where p (i + 1) xs) ≡ some k → IsLast p (i + 1) xs k)
          → (rest : List ℕ) → indices_where p (i + 1) xs ≡ rest
          → last? (i ∷ rest) ≡ some k
          → IsLast p i (x ∷ xs) k
      by_rest e f [] none_left g = record {
        offset = 0;
        item = x;
        at = ground (arith, g);
        is_item = refl;
        holds = e;
        later = no_indices p (i + 1) xs none_left;
      }
      by_rest e f (j ∷ rest) found g =
          later_one p i x xs k (f (ap last? found ∙ sym (last?-cons i j rest) ∙ g))

  pub find_last-true : (p : A → Bool) (xs : List A) (x : A) → find_last p xs ≡ some x → p x ≡ true
  find_last-true p [] x h = cc
  find_last-true p (y ∷ xs) x h = elim (Option-cases (find_last p xs)) [
    | inl e ↦ ground (arith, h, e)
    | inr (z, e) ↦ find_last-true p xs x (ground (arith, h, e))
  ]

  pub find_last-keep :
      (p q : A → Bool) (xs : List A) (x : A)
      → find_last p (keep q xs) ≡ some x
      → (q x ≡ true) × (p x ≡ true)
  find_last-keep p q [] x h = cc
  find_last-keep p q (y ∷ ys) x h = by_test (q y) refl h (find_last-keep p q ys x)
    where
      by_test :
          (b : Bool)
          → q y ≡ b
          → find_last p (if b then y ∷ keep q ys else keep q ys) ≡ some x
          → (find_last p (keep q ys) ≡ some x → (q x ≡ true) × (p x ≡ true))
          → (q x ≡ true) × (p x ≡ true)
      by_test false e k f = f k
      by_test true e k f = elim (Option-cases (find_last p (keep q ys))) [
        | inr (z, found) ↦ f (found ∙ ground (arith, k, found))
        | inl missed ↦ (
          subst (λ a. q a ≡ true)
              (only (p y) (
                sym (
                  ap (λ o. elim o [ some a ↦ some a | none ↦ if p y then some y else none ]) missed)
                ∙ k))
              e,
          find_last-true p (y ∷ keep q ys) x k,
        )
      ]
        where
          only : (b : Bool) → (if b then some y else none) ≡ some x → y ≡ x
          only true g = cc
          only false g = cc
