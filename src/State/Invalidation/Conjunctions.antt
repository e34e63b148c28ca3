-- ===== src/State/Invalidation/Conjunctions.antt =====
-- Conjunctions and disjunctions of tests, and days that fell.
use a_share_limit_pullback.Base.{
  Bool, true, false, not, ◌&&◌, ◌||◌, List, [], ◌∷◌, all, All, ◌≡◌, ◌↔◌, ◌⊎◌, inl, inr, refl, arith,
}
use a_share_limit_pullback.Decimal.{◌<𝔻◌}
use a_share_limit_pullback.Models.Market.{DailyBar}

pub both : (a b : Bool) → (a && b) ≡ true → (a ≡ true) × (b ≡ true)
both a b h = ground (arith, h)

pub three : (a b c : Bool) → (a && b && c) ≡ true → (a ≡ true) × (b ≡ true) × (c ≡ true)
three a b c h = ground (arith, h)

pub conj : (a b : Bool) → a ≡ true → b ≡ true → (a && b) ≡ true
conj a b h k = ground (arith, h, k)

pub conj_three : (a b c : Bool) → a ≡ true → b ≡ true → c ≡ true → (a && b && c) ≡ true
conj_three a b c h k l = ground (arith, h, k, l)

pub or_left : (a b : Bool) → a ≡ true → (a || b) ≡ true
or_left a b h = ground (arith, h)

pub or_right : (a b : Bool) → b ≡ true → (a || b) ≡ true
or_right a b h = ground (arith, h)

pub either : (a b : Bool) → (a || b) ≡ true → (a ≡ true) ⊎ (b ≡ true)
either true b h = inl refl
either false b h = inr h

pub off_of_not : (b : Bool) → not b ≡ true → b ≡ false
off_of_not b h = ground (arith, h)

pub all_down :
    (bars : List DailyBar)
    → (all (λ b. b.close <𝔻 b.preclose && b.close <𝔻 b.open_price) bars ≡ true)
      ↔ All (λ b. ((b.close <𝔻 b.preclose) ≡ true) × ((b.close <𝔻 b.open_price) ≡ true)) bars
all_down [] = (λ h. tt, λ h. refl)
all_down (bar ∷ bars) = (
  λ h. let (first, rest) = both _ _ h in (both _ _ first, (all_down bars).0 rest),
  λ h. rw (h.0.0, h.0.1) ((all_down bars).1 h.1),
)
