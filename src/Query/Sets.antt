-- ===== src/Query/Sets.antt =====
-- components/query/sets.h. A flat_hash_set<string_view> is a list; `contains` is what it holds.
use fledge_key_value_service.Base.{
  String, ◌≡◌, refl, not, ◌&&◌, ◌||◌, List, [], ◌∷◌, arith, leb, if◌then◌else◌, eq_iff,
}
use fledge_key_value_service.Base.Lists.{length}
use fledge_key_value_service.Base.Maps.{
  contains, set_insert, set_erase, contains-set_insert, contains-set_erase,
}

abbrev pub KvSetView : Type 0
KvSetView = List String

-- big.insert(small.begin(), small.end())
unfoldable pub insert_all : KvSetView → KvSetView → KvSetView
insert_all [] big = big
insert_all (x ∷ small) big = insert_all small (set_insert x big)

-- absl::erase_if(small, not in big)
unfoldable pub keep_common : KvSetView → KvSetView → KvSetView
keep_common [] big = []
keep_common (x ∷ small) big =
    let rest = keep_common small big in if contains x big then x ∷ rest else rest

unfoldable pub erase_all : KvSetView → KvSetView → KvSetView
erase_all [] left = left
erase_all (x ∷ right) left = erase_all right (set_erase x left)

unfoldable pub union : KvSetView → KvSetView → KvSetView
unfolding insert_all
union left right =
    let small = if leb (length left) (length right) then left else right in
    let big = if leb (length left) (length right) then right else left in insert_all small big

unfoldable pub intersection : KvSetView → KvSetView → KvSetView
unfolding keep_common
intersection left right =
    let small = if leb (length left) (length right) then left else right in
    let big = if leb (length left) (length right) then right else left in keep_common small big

unfoldable pub difference : KvSetView → KvSetView → KvSetView
unfolding erase_all
difference left right = erase_all right left

contains-insert_all :
    (v : String) (small big : KvSetView)
    → contains v (insert_all small big) ≡ (contains v small || contains v big)
unfolding insert_all contains
contains-insert_all v [] big = refl
contains-insert_all v (x ∷ small) big =
    ground (arith, contains-insert_all v small (set_insert x big), contains-set_insert x v big)

contains-keep_common :
    (v : String) (small big : KvSetView)
    → contains v (keep_common small big) ≡ (contains v small && contains v big)
unfolding keep_common contains
contains-keep_common v [] big = refl
contains-keep_common v (x ∷ small) big =
    ground (arith, eq_iff x v, contains-keep_common v small big)

contains-erase_all :
    (v : String) (right left : KvSetView)
    → contains v (erase_all right left) ≡ (contains v left && not (contains v right))
unfolding erase_all contains
contains-erase_all v [] left = ground arith
contains-erase_all v (x ∷ right) left =
    ground (arith, contains-erase_all v right (set_erase x left), contains-set_erase x v left)

module _ (v : String) (left right : KvSetView) where
  pub contains-union : contains v (union left right) ≡ (contains v left || contains v right)
  unfolding union
  contains-union =
      ground (arith, contains-insert_all v left right, contains-insert_all v right left)

  pub contains-intersection :
      contains v (intersection left right) ≡ (contains v left && contains v right)
  unfolding intersection
  contains-intersection =
      ground (arith, contains-keep_common v left right, contains-keep_common v right left)

  pub contains-difference :
      contains v (difference left right) ≡ (contains v left && not (contains v right))
  unfolding difference
  contains-difference = contains-erase_all v right left
