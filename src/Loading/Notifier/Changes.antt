-- ===== src/Loading/Notifier/Changes.antt =====
-- When the notifier lists the blobs.
use Prim.Native.String.{[], ◌∷◌}
use fledge_key_value_service.Base.{
  String, ◌≡◌, refl, ◌⊎◌, inl, inr, Bool, true, false, ◌&&◌, ◌||◌, not, List, [], ◌∷◌, arith,
  if◌then◌else◌, Bool-cases,
}
use fledge_key_value_service.Base.Strings.{is_less, is_less_trans, not_less_trans}
use fledge_key_value_service.Lookup.Types.{
  StatusCode, StatusOr, ok, err, invalid_argument, not_found, internal, cancelled, unavailable,
  deadline_exceeded, unimplemented,
}
use fledge_key_value_service.Loading.Filenames.{is_delta_filename, matches}
use fledge_key_value_service.Loading.Notifier.{
  max_delta, wait_for_notification, should_list, should_list_blobs,
}

-- Some change is a delta file that is not before the last key.
abbrev pub has_new_delta : String → List String → Bool
has_new_delta last_key [] = false
has_new_delta last_key (change ∷ changes) =
    (is_delta_filename change && not (is_less change last_key)) || has_new_delta last_key changes

not_delta : is_delta_filename "" ≡ false
unfolding is_delta_filename matches
not_delta = refl

least : (change : String) → is_delta_filename change ≡ true → is_less "" change ≡ true
unfolding is_less
least [] delta = absurd (cc (delta, not_delta))
least (c ∷ change) delta = refl

-- A greatest change so far: nothing, or the name of a delta file.
abbrev Start : String → Type 0
Start m =
    ((change : String) → is_delta_filename change ≡ true → is_less m change ≡ true)
    ⊎ (is_delta_filename m ≡ true)

Start-empty : Start ""
Start-empty = inl least

max_delta_lem :
    (last_key m : String) (changes : List String)
    → Start m
    → (if is_less (max_delta m changes) last_key
        then false
        else is_delta_filename (max_delta m changes))
      ≡ ((if is_less m last_key then false else is_delta_filename m)
          || has_new_delta last_key changes)
unfolding max_delta
max_delta_lem last_key m [] start = ground arith
max_delta_lem last_key m (change ∷ changes) start = elim (Bool-cases (is_delta_filename change)) [
  | inr other ↦ ground (arith, other, max_delta_lem last_key m changes start)
  | inl delta ↦ elim (Bool-cases (is_less m change)) [
    | inl greater ↦ ground (
      arith,
      delta,
      greater,
      is_less_trans m change last_key,
      max_delta_lem last_key change changes (inr delta),
    )
    | inr kept ↦ elim start [
      | inl empty ↦ absurd (cc (empty change delta, kept))
      | inr delta' ↦ ground (
        arith,
        delta,
        kept,
        delta',
        not_less_trans last_key change m,
        max_delta_lem last_key m changes (inr delta'),
      )
    ]
  ]
]

-- What is due: the blobs are to be listed where the flag is not set, where the notifications ran out of
-- time, and where some change is new; another error is passed on.
abbrev pub listing_due : Bool → StatusOr (List String) → String → StatusOr Bool
listing_due false notifications last_key = ok true
listing_due true (ok changes) last_key = ok (has_new_delta last_key changes)
listing_due true (err deadline_exceeded) last_key = ok true
listing_due true (err e) last_key = err e

failed :
    (e : StatusCode) (last_key : String)
    → should_list_blobs true (err e) last_key ≡ listing_due true (err e) last_key
unfolding should_list_blobs should_list wait_for_notification
failed invalid_argument last_key = refl
failed not_found last_key = refl
failed internal last_key = refl
failed cancelled last_key = refl
failed unavailable last_key = refl
failed deadline_exceeded last_key = refl
failed unimplemented last_key = refl

-- The blobs are listed where the flag is not set, whatever the notifications are. While it is set, they
-- are listed where some change that GetNotifications gives is the name of a delta file that is not
-- before the last key, although only the greatest of them is looked at, and where GetNotifications
-- ends with DEADLINE_EXCEEDED; they are not listed where it gives no such change, and any other error
-- of it is the result.
pub should_list_blobs_lem :
    (flag : Bool) (notifications : StatusOr (List String)) (last_key : String)
    → should_list_blobs flag notifications last_key ≡ listing_due flag notifications last_key
unfolding should_list_blobs should_list wait_for_notification
should_list_blobs_lem false notifications last_key = refl
should_list_blobs_lem true (err e) last_key = failed e last_key
should_list_blobs_lem true (ok changes) last_key =
    let e = max_delta_lem last_key "" changes Start-empty in ground (arith, e, not_delta)
