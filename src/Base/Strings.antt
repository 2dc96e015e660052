-- ===== src/Base/Strings.antt =====
-- The order of std::string.
use Prim.Native.Char.{code}
use Prim.Native.String.{String, [], ◌∷◌}
use mathlib.Core.Path.{◌≡◌, refl}
use mathlib.Core.Bool.{Bool, true, false}
use native.Mathlib.Omega.{arith}
use fledge_key_value_service.Base.Tests.{ltb, eqb, if◌then◌else◌}

-- operator<
unfoldable pub is_less : String → String → Bool
is_less s [] = false
is_less [] (_ ∷ _) = true
is_less (c ∷ s) (d ∷ t) =
    let rest = is_less s t in
    if ltb (code c) (code d) then true else if eqb (code c) (code d) then rest else false

pub is_less_trans : (r s t : String) → is_less r s ≡ true → is_less s t ≡ true → is_less r t ≡ true
unfolding is_less
is_less_trans r s [] a b = ground (arith, b)
is_less_trans r [] (_ ∷ _) a b = ground (arith, a)
is_less_trans [] (_ ∷ _) (_ ∷ _) a b = refl
is_less_trans (b ∷ r) (c ∷ s) (d ∷ t) h k = ground (arith, h, k, is_less_trans r s t)

pub is_less_irrefl : (s : String) → is_less s s ≡ false
unfolding is_less
is_less_irrefl [] = refl
is_less_irrefl (c ∷ s) = ground (arith, is_less_irrefl s)

-- Of two strings that are not less than each other, one may stand for the other.
pub not_less_trans :
    (r s t : String) → is_less s r ≡ false → is_less t s ≡ false → is_less t r ≡ false
unfolding is_less
not_less_trans [] s t a b = refl
not_less_trans (_ ∷ _) [] t a b = ground (arith, a)
not_less_trans (_ ∷ _) (_ ∷ _) [] a b = ground (arith, b)
not_less_trans (b ∷ r) (c ∷ s) (d ∷ t) h k = ground (arith, h, k, not_less_trans r s t)
