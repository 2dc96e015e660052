-- ===== src/Tests/Notifier.antt =====
-- The names of files, and the notifier of delta files, on small inputs.
use fledge_key_value_service.Base.{
  ◌-◌, ◌^◌, ◌≡◌, refl, subst, inl, inr, String, true, false, List, [], ◌∷◌, arith, ltb,
  if◌then◌else◌, Bool-cases,
}
use fledge_key_value_service.Base.Strings.{is_less}
use fledge_key_value_service.Lookup.Types.{StatusOr, ok, err, internal, invalid_argument}
use fledge_key_value_service.Loading.Filenames.{
  are_digits, matches, is_delta_filename, last_digits, digits, padded, get_filename, if_valid,
  to_delta_file_name, to_snapshot_file_name, to_logical_sharding_config_filename,
  is_snapshot_filename, is_logical_sharding_config_filename,
}
use fledge_key_value_service.Loading.Filenames.Names.{delta_file_names-is_less}
use fledge_key_value_service.Loading.Notifier.{
  Round, Watcher, sleep_for, set_flag, callback, max_delta, wait_for_notification, should_list,
  should_list_blobs, announce, listed, after_decision, watch_round, watch,
}
use fledge_key_value_service.Loading.Notifier.Order.{
  callbacks, IsAscending, last, watch-IsAscending,
}
use fledge_key_value_service.Loading.Notifier.Changes.{listing_due, should_list_blobs_lem}

names_program : Unit {0}
unfolding are_digits matches is_delta_filename last_digits digits padded get_filename if_valid
    to_delta_file_name to_snapshot_file_name to_logical_sharding_config_filename
    is_snapshot_filename is_logical_sharding_config_filename is_less
names_program = tt

built : to_delta_file_name 1659978505000000 ≡ ok "DELTA_1659978505000000"
unfolding names_program
built = refl

built_zero : to_delta_file_name 7 ≡ ok "DELTA_0000000000000007"
unfolding names_program
built_zero = refl

others_built :
    (to_snapshot_file_name 1 ≡ ok "SNAPSHOT_0000000000000001")
    × (to_logical_sharding_config_filename 1 ≡ ok "LOGICAL_SHARDING_CONFIG_0000000000000001")
    × (to_delta_file_name 10000000000000000 ≡ err invalid_argument)
    × (to_delta_file_name (2 ^ 64 - 7) ≡ err invalid_argument)
unfolding names_program
others_built = (refl, refl, refl, refl)

delta_file_names-is_less_example :
    is_less "DELTA_0000000000000007" "DELTA_1659978505000000" ≡ ltb 7 1659978505000000
delta_file_names-is_less_example =
    delta_file_names-is_less 7 1659978505000000 "DELTA_0000000000000007" "DELTA_1659978505000000"
      (omega arith) (omega arith) built_zero built

abbrev first : String
first = "DELTA_0000000000000001"

abbrev second : String
second = "DELTA_0000000000000002"

-- The two files appear one after the other, the second with a temporary one beside it.
abbrev list_first : String → StatusOr (List String)
list_first start = if is_less start first then ok (first ∷ []) else ok []

abbrev list_both : String → StatusOr (List String)
list_both start =
    if is_less start first
    then ok (first ∷ second ∷ "DELTA_1.tmp" ∷ [])
    else if is_less start second
    then ok (second ∷ "DELTA_1.tmp" ∷ [])
    else ok []

abbrev rounds : List Round
rounds =
    record { flag = false; changes = ok []; time_remaining = 0; list_blobs = list_first }
    ∷ record {
      flag = true;
      changes = ok (first ∷ []);
      time_remaining = 50;
      list_blobs = list_first;
    }
    ∷ record { flag = true; changes = err internal; time_remaining = 40; list_blobs = list_both }
    ∷ record {
      flag = true;
      changes = ok (second ∷ []);
      time_remaining = 30;
      list_blobs = list_both;
    }
    ∷ record {
      flag = true;
      changes = ok ("DELTA_0" ∷ []);
      time_remaining = 20;
      list_blobs = list_both;
    }
    ∷ []

abbrev started : Watcher
started = record { last_key = ""; sequential_failures = 0 }

watch_runs : watch rounds started ≡ (
  record { last_key = second; sequential_failures = 0 },
  set_flag ∷ callback first ∷ set_flag ∷ sleep_for 2 ∷ set_flag ∷ callback second ∷ [],
)
unfolding names_program max_delta wait_for_notification should_list should_list_blobs announce
    listed after_decision watch_round watch
watch_runs = refl

same_listing :
    (start : String) (names others : List String)
    → IsAscending start names
    → ok names ≡ ok others
    → IsAscending start others
same_listing start names others h e = subst (λ l. IsAscending start l) (cc e) h

list_first-IsAscending :
    (start : String) (names : List String) → list_first start ≡ ok names → IsAscending start names
list_first-IsAscending start names h = elim (Bool-cases (is_less start first)) [
  | inl before ↦ same_listing start (first ∷ []) names (before, tt) (rw before at h)
  | inr after ↦ same_listing start [] names tt (rw after at h)
]

list_both-IsAscending :
    (start : String) (names : List String) → list_both start ≡ ok names → IsAscending start names
unfolding is_less
list_both-IsAscending start names h = elim (Bool-cases (is_less start first)) [
  | inl before ↦
      same_listing start (first ∷ second ∷ "DELTA_1.tmp" ∷ []) names (before, (refl, (refl, tt)))
        (rw before at h)
  | inr after ↦ elim (Bool-cases (is_less start second)) [
    | inl before ↦
        same_listing start (second ∷ "DELTA_1.tmp" ∷ []) names (before, (refl, tt))
          (rw (after, before) at h)
    | inr later ↦ same_listing start [] names tt (rw (after, later) at h)
  ]
]

watch-IsAscending_example :
    IsAscending "" (callbacks (watch rounds started).1)
    × ((watch rounds started).0.last_key ≡ last "" (callbacks (watch rounds started).1))
watch-IsAscending_example = watch-IsAscending rounds started (
  list_first-IsAscending,
  (
    list_first-IsAscending,
    (list_both-IsAscending, (list_both-IsAscending, (list_both-IsAscending, tt))),
  ),
)

should_list_blobs_lem_example :
    should_list_blobs true (ok ("DELTA_0" ∷ second ∷ [])) first
    ≡ listing_due true (ok ("DELTA_0" ∷ second ∷ [])) first
should_list_blobs_lem_example = should_list_blobs_lem true (ok ("DELTA_0" ∷ second ∷ [])) first
