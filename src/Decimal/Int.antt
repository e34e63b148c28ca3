-- ===== src/Decimal/Int.antt =====
-- Integers over the native numbers.
use a_share_limit_pullback.Base.{ℕ, suc, ◌+◌, ◌-◌, ◌*◌, Bool, true, false, if◌then◌else◌, leb}

-- `negsuc n` is -(n + 1)
pub data ℤ : Type 0 where
  pos : ℕ → ℤ
  negsuc : ℕ → ℤ

abbrev pub pos_part : ℤ → ℕ
pos_part (pos n) = n
pos_part (negsuc _) = 0

abbrev pub neg_part : ℤ → ℕ
neg_part (pos _) = 0
neg_part (negsuc n) = suc n

abbrev pub sub_ℕ : ℕ → ℕ → ℤ
sub_ℕ a b = if leb b a then pos (a - b) else negsuc (b - a - 1)

abbrev pub magnitude : ℤ → ℕ
magnitude a = pos_part a + neg_part a

abbrev pub is_negative : ℤ → Bool
is_negative (pos _) = false
is_negative (negsuc _) = true

abbrev pub with_sign : Bool → ℕ → ℤ
with_sign negative n = if negative then sub_ℕ 0 n else pos n

abbrev pub opposite_signs : ℤ → ℤ → Bool
opposite_signs (pos _) b = is_negative b
opposite_signs (negsuc _) (pos _) = true
opposite_signs (negsuc _) (negsuc _) = false

abbrev pub larger : ℕ → ℕ → ℕ
larger a b = if leb a b then b else a

-- a product with a natural number
abbrev pub scale_by : ℕ → ℤ → ℤ
scale_by k a = sub_ℕ (k * pos_part a) (k * neg_part a)

infixl 65 ◌+ℤ◌ ◌-ℤ◌
infixl 70 ◌*ℤ◌
unfoldable pub ◌+ℤ◌ : ℤ → ℤ → ℤ
a +ℤ b = sub_ℕ (pos_part a + pos_part b) (neg_part a + neg_part b)

unfoldable pub ◌-ℤ◌ : ℤ → ℤ → ℤ
a -ℤ b = sub_ℕ (pos_part a + neg_part b) (neg_part a + pos_part b)

unfoldable pub ◌*ℤ◌ : ℤ → ℤ → ℤ
a *ℤ b = with_sign (opposite_signs a b) (magnitude a * magnitude b)

abbrev pub leb_ℤ : ℤ → ℤ → Bool
leb_ℤ a b = leb (pos_part a + neg_part b) (pos_part b + neg_part a)
