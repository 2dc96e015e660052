-- ===== src/Loading/Notifier.antt =====
-- components/data/blob_storage/delta_file_notifier.cc. The clock's flag, the change notifier and the blob
-- storage client are arguments: a round of the loop is given what they say in it, and yields what it
-- does. Durations are whole seconds.
pub mod Order
pub mod Changes
use Prim.Native.Nat.{min}
use fledge_key_value_service.Base.{
  ℕ, zero, suc, String, Bool, true, false, not, ◌&&◌, List, [], ◌∷◌, ◌++◌, if◌then◌else◌,
}
use fledge_key_value_service.Base.Strings.{is_less}
use fledge_key_value_service.Lookup.Types.{StatusOr, ok, err, deadline_exceeded}
use fledge_key_value_service.Loading.Filenames.{is_delta_filename}
use fledge_key_value_service.Loading.Retry.{exponential_backoff_for_retry}

-- The loop of WaitForNotification.
unfoldable pub max_delta : String → List String → String
max_delta max_change [] = max_change
max_delta max_change (change ∷ changes) =
    let taken = max_delta change changes in
    let passed = max_delta max_change changes in
    if is_less max_change change && is_delta_filename change then taken else passed

unfoldable pub wait_for_notification : StatusOr (List String) → StatusOr String
unfolding max_delta
wait_for_notification (err e) = err e
wait_for_notification (ok changes) = ok (max_delta "" changes)

-- ShouldListBlobs once the notification is there.
unfoldable pub should_list : StatusOr String → String → StatusOr Bool
should_list (err deadline_exceeded) last_key = ok true
should_list (err e) last_key = err e
should_list (ok notification_key) last_key =
    if is_less notification_key last_key then ok false else ok (is_delta_filename notification_key)

-- Whether the flag is set, what GetNotifications gives, the time that then remains until the flag
-- expires, and what ListBlobs gives for the names after the given one.
pub record Round : Type 0 where
  pub flag : Bool
  pub changes : StatusOr (List String)
  pub time_remaining : ℕ
  pub list_blobs : String → StatusOr (List String)

unfoldable pub should_list_blobs : Bool → StatusOr (List String) → String → StatusOr Bool
unfolding wait_for_notification should_list
should_list_blobs false changes last_key = ok true
should_list_blobs true changes last_key = should_list (wait_for_notification changes) last_key

-- The variables of Watch.
pub record Watcher : Type 0 where
  pub last_key : String
  pub sequential_failures : ℕ

-- `set_flag` sets it for the poll frequency.
pub data Action : Type 0 where
  sleep_for : ℕ → Action
  set_flag : Action
  callback : String → Action

-- The loop over the names of a listing, with the last key.
unfoldable pub announce : List String → String → String × List Action
announce [] last_key = (last_key, [])
announce (key ∷ keys) last_key =
    let passed = announce keys last_key in
    let (last, actions) = announce keys key in
    if not (is_delta_filename key) then passed else (last, callback key ∷ actions)

unfoldable pub listed : StatusOr (List String) → Watcher → Watcher × List Action
unfolding announce
listed (err e) w = (record w { sequential_failures = 0 }, [])
listed (ok names) w =
    let (last, actions) = announce names w.last_key in
    (record { last_key = last; sequential_failures = 0 }, set_flag ∷ actions)

unfoldable pub after_decision : Round → StatusOr Bool → Watcher → Watcher × List Action
unfolding listed
after_decision r (err e) w = (
  record w { sequential_failures = suc w.sequential_failures },
  sleep_for (min r.time_remaining (exponential_backoff_for_retry (suc w.sequential_failures))) ∷ [],
)
after_decision r (ok false) w = (record w { sequential_failures = 0 }, [])
after_decision r (ok true) w = listed (r.list_blobs w.last_key) w

-- One round of the loop of Watch.
unfoldable pub watch_round : Round → Watcher → Watcher × List Action
unfolding after_decision should_list_blobs
watch_round r w = after_decision r (should_list_blobs r.flag r.changes w.last_key) w

-- The rounds until the thread is stopped.
unfoldable pub watch : List Round → Watcher → Watcher × List Action
unfolding watch_round
watch [] w = (w, [])
watch (r ∷ rounds) w =
    let (v, actions) = watch_round r w in let (u, rest) = watch rounds v in (u, actions ++ rest)
