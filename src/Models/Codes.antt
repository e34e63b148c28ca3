-- ===== src/Models/Codes.antt =====
-- models/outcome.py: the pattern `^\d{6}$` of a code, of the digits 0 to 9; the pattern's other decimal
-- digits of Unicode are left out.
use Prim.Native.Char.{code}
use Prim.Native.String.{String, [], ◌∷◌, count}
use a_share_limit_pullback.Base.{Bool, true, ◌&&◌, leb, ◌==◌}

abbrev all_digits : String → Bool
all_digits [] = true
all_digits (c ∷ s) = leb 48 (code c) && leb (code c) 57 && all_digits s

unfoldable pub is_code : String → Bool
is_code s = count s == 6 && all_digits s
