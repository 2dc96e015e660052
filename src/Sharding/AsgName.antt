-- ===== src/Sharding/AsgName.antt =====
-- GetShardNumberOffAsgName of components/sharding/cluster_mappings_manager.cc, with its regular expression,
-- kv-server-<environment>-(\d+)-instance-asg, written out. The environment is a name in which no character
-- has a meaning in a regular expression.
pub mod Names
use Prim.Native.Char.{code}
use Prim.Native.String.{[], ◌∷◌}
use fledge_key_value_service.Base.{
  ℕ, ◌+◌, ◌*◌, ◌-◌, ◌^◌, String, Bool, true, false, ◌&&◌, Option, none, some, eqb, leb, ltb,
  if◌then◌else◌, ◌==◌,
}
use fledge_key_value_service.Lookup.Types.{StatusOr, ok, err, invalid_argument}

-- What follows the prefix.
unfoldable pub strip : String → String → Option String
strip [] s = some s
strip (_ ∷ _) [] = none
strip (p ∷ prefix) (c ∷ rest) =
    let tail = strip prefix rest in if eqb (code p) (code c) then tail else none

-- The number that at least one digit before the suffix gives; the suffix begins with no digit.
unfoldable pub number_before : String → ℕ → Bool → String → Option ℕ
number_before suffix n seen [] = none
number_before suffix n seen (c ∷ rest) =
    let next = number_before suffix (n * 10 + (code c - 48)) true rest in
    if leb 48 (code c) && leb (code c) 57
    then next
    else if seen && (c ∷ rest) == suffix
    then some n
    else none

unfoldable pub match_asg : String → String → Option ℕ
unfolding strip number_before
match_asg environment asg_name = elim (strip "kv-server-" asg_name) [
  | none ↦ none
  | some a ↦ elim (strip environment a) [
    | none ↦ none
    | some b ↦ elim (strip "-" b) [ none ↦ none | some c ↦ number_before "-instance-asg" 0 false c ]
  ]
]

-- absl::SimpleAtoi fails for a number that an int32_t cannot hold.
unfoldable pub get_shard_number_off_asg_name : String → String → StatusOr ℕ
unfolding match_asg
get_shard_number_off_asg_name environment asg_name = elim (match_asg environment asg_name) [
  | none ↦ err invalid_argument
  | some n ↦ if ltb n (2 ^ 31) then ok n else err invalid_argument
]
