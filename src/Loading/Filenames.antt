-- ===== src/Loading/Filenames.antt =====
-- public/data_loading/filename_utils.cc, with the regular expressions of public/constants.cc written out: a
-- prefix, the delimiter "_" and kLogicalTimeDigits digits.
pub mod Names
use Prim.Native.Char.{Char, code}
use Prim.Native.Nat.{◌/◌}
use Prim.Native.String.{[], ◌∷◌}
use fledge_key_value_service.Base.Ints.{ℤ, pos, negsuc}
use fledge_key_value_service.Lookup.Types.{StatusOr, ok, err, invalid_argument}
use fledge_key_value_service.Base.{
  ℕ, zero, suc, ◌+◌, ◌-◌, ◌*◌, ◌%◌, ◌^◌, String, Bool, true, false, ◌&&◌, eqb, ltb, leb,
  if◌then◌else◌,
}

-- A string of exactly so many digits.
unfoldable pub are_digits : ℕ → String → Bool
are_digits zero [] = true
are_digits zero (_ ∷ _) = false
are_digits (suc n) [] = false
are_digits (suc n) (c ∷ rest) = leb 48 (code c) && leb (code c) 57 && are_digits n rest

-- The prefix, and then exactly so many digits.
unfoldable pub matches : String → ℕ → String → Bool
unfolding are_digits
matches [] n s = are_digits n s
matches (_ ∷ _) n [] = false
matches (p ∷ prefix) n (c ∷ rest) =
    let tail = matches prefix n rest in if eqb (code p) (code c) then tail else false

abbrev pub logical_time_digits : ℕ
logical_time_digits = 16

unfoldable pub is_delta_filename : String → Bool
unfolding matches
is_delta_filename basename = matches "DELTA_" logical_time_digits basename

unfoldable pub is_snapshot_filename : String → Bool
unfolding matches
is_snapshot_filename basename = matches "SNAPSHOT_" logical_time_digits basename

unfoldable pub is_logical_sharding_config_filename : String → Bool
unfolding matches
is_logical_sharding_config_filename basename =
    matches "LOGICAL_SHARDING_CONFIG_" logical_time_digits basename

abbrev pub char_at : String → ℕ → Char
char_at [] i = "9"
char_at (c ∷ s) zero = c
char_at (c ∷ s) (suc i) = char_at s i

abbrev pub digit : ℕ → Char
digit d = char_at "0123456789" d

-- The last digits of a number, so many of them, before the rest of a string.
unfoldable pub last_digits : ℕ → ℕ → String → String
last_digits zero v rest = rest
last_digits (suc n) v rest = last_digits n (v / 10) (digit (v % 10) ∷ rest)

-- All digits of a number that is not zero, and none for zero.
unfoldable pub digits : ℕ → ℕ → String → String
digits zero v rest = rest
digits (suc fuel) v rest =
    let more = digits fuel (v / 10) (digit (v % 10) ∷ rest) in if ltb v 1 then rest else more

-- The conversion %0*d: zeros up to the width, the sign included. A 64-bit number has at most 20 digits.
unfoldable pub padded : ℕ → ℤ → String
unfolding digits last_digits
padded width (pos n) = digits 20 (n / 10 ^ width) (last_digits width n "")
padded width (negsuc n) =
    "-" ∷ digits 20 (suc n / 10 ^ (width - 1)) (last_digits (width - 1) (suc n) "")

-- The conversion of an uint64_t to an int64_t.
abbrev pub to_int64 : ℕ → ℤ
to_int64 n = if ltb n (2 ^ 63) then pos n else negsuc (2 ^ 64 - 1 - n)

abbrev pub append : String → String → String
append [] t = t
append (c ∷ s) t = c ∷ append s t

unfoldable pub get_filename : String → ℕ → String
unfolding padded
get_filename prefix logical_commit_time =
    append prefix (append "_" (padded logical_time_digits (to_int64 logical_commit_time)))

unfoldable pub if_valid : (String → Bool) → String → StatusOr String
if_valid is_filename result = if is_filename result then ok result else err invalid_argument

unfoldable pub to_delta_file_name : ℕ → StatusOr String
unfolding get_filename if_valid
to_delta_file_name t = if_valid is_delta_filename (get_filename "DELTA" t)

unfoldable pub to_snapshot_file_name : ℕ → StatusOr String
unfolding get_filename if_valid
to_snapshot_file_name t = if_valid is_snapshot_filename (get_filename "SNAPSHOT" t)

unfoldable pub to_logical_sharding_config_filename : ℕ → StatusOr String
unfolding get_filename if_valid
to_logical_sharding_config_filename t =
    if_valid is_logical_sharding_config_filename (get_filename "LOGICAL_SHARDING_CONFIG" t)
