-- ===== src/Loading/Records/Calls.antt =====
-- Loading a stream is making the cache calls of its records.
use fledge_key_value_service.Base.{
  ℕ, suc, ◌+◌, max, String, ◌≡◌, refl, ◌∙◌, List, [], ◌∷◌, ◌++◌, arith, if◌then◌else◌, Bool-cases,
  inl, inr,
}
use fledge_key_value_service.Cache.State.{KeyValueCache}
use fledge_key_value_service.Cache.Run.{Call, update_set, delete_values, remove_deleted, run, step}
use fledge_key_value_service.Cache.Run
use fledge_key_value_service.Lookup.Types.{StatusOr, ok, err}
use fledge_key_value_service.Loading.Records.{
  Value, string, string_set, unsupported, MutationType, update, delete, unknown, DataRecord,
  key_value_mutation, user_defined_functions, other, Progress, Options, apply_update_mutation,
  apply_delete_mutation, should_process_record, count_update, count_delete,
  apply_key_value_mutation_to_cache, set_code, process_data_record, deserialize_data_record,
  read_stream_records,
}

-- The call that a mutation asks for, if its type and its value are known.
unfoldable pub call_of : MutationType → String → Value → ℕ → List Call
call_of update key (string v) time = Run.update key v time ∷ []
call_of update key (string_set vs) time = update_set key vs time ∷ []
call_of delete key (string v) time = Run.delete key time ∷ []
call_of delete key (string_set vs) time = delete_values key vs time ∷ []
call_of _ key _ time = []

-- The greatest of the commit times of the calls and the given time.
unfoldable pub latest : ℕ → List Call → ℕ
latest t [] = t
latest t (Run.update key v time ∷ rest) = latest (max t time) rest
latest t (update_set key vs time ∷ rest) = latest (max t time) rest
latest t (Run.delete key time ∷ rest) = latest (max t time) rest
latest t (delete_values key vs time ∷ rest) = latest (max t time) rest
latest t (remove_deleted time ∷ rest) = latest t rest

unfoldable pub updates : List Call → ℕ
updates [] = 0
updates (Run.update key v time ∷ rest) = suc (updates rest)
updates (update_set key vs time ∷ rest) = suc (updates rest)
updates (_ ∷ rest) = updates rest

unfoldable pub deletions : List Call → ℕ
deletions [] = 0
deletions (Run.delete key time ∷ rest) = suc (deletions rest)
deletions (delete_values key vs time ∷ rest) = suc (deletions rest)
deletions (_ ∷ rest) = deletions rest

module _ {ℓ} {U : Type ℓ} (options : Options U) where
  -- The calls of one record: those of a mutation of this server's shard.
  unfoldable pub record_calls : StatusOr DataRecord → List Call
  record_calls (err e) = []
  record_calls (ok (user_defined_functions config)) = []
  record_calls (ok other) = []
  record_calls (ok (key_value_mutation m)) =
      if should_process_record options m
      then call_of m.mutation_type m.key m.value m.logical_commit_time
      else []

  unfoldable pub calls_of : List (StatusOr DataRecord) → List Call
  calls_of [] = []
  calls_of (r ∷ rest) = record_calls r ++ calls_of rest

  -- The progress `q` is `p` after the calls.
  abbrev pub IsAfter : Progress U → List Call → Progress U → Type 0
  IsAfter p calls q =
      (q.cache ≡ run p.cache calls)
      × (q.max_timestamp ≡ latest p.max_timestamp calls)
      × (q.total_updated_records ≡ p.total_updated_records + updates calls)
      × (q.total_deleted_records ≡ p.total_deleted_records + deletions calls)

  apply-IsAfter :
      (ty : MutationType) (key : String) (v : Value) (time : ℕ) (p : Progress U)
      → IsAfter p
          (call_of ty key v time)
          (apply_key_value_mutation_to_cache options
            (record { mutation_type = ty; logical_commit_time = time; key = key; value = v })
            p).0
  unfolding call_of apply_key_value_mutation_to_cache apply_update_mutation apply_delete_mutation
      count_update count_delete run step latest updates deletions
  apply-IsAfter update key (string v) time p = (refl, refl, omega arith, omega arith)
  apply-IsAfter update key (string_set vs) time p = (refl, refl, omega arith, omega arith)
  apply-IsAfter update key unsupported time p = (refl, refl, omega arith, omega arith)
  apply-IsAfter delete key (string v) time p = (refl, refl, omega arith, omega arith)
  apply-IsAfter delete key (string_set vs) time p = (refl, refl, omega arith, omega arith)
  apply-IsAfter delete key unsupported time p = (refl, refl, omega arith, omega arith)
  apply-IsAfter unknown key (string v) time p = (refl, refl, omega arith, omega arith)
  apply-IsAfter unknown key (string_set vs) time p = (refl, refl, omega arith, omega arith)
  apply-IsAfter unknown key unsupported time p = (refl, refl, omega arith, omega arith)

  same_progress : (p : Progress U) → IsAfter p [] p
  unfolding run latest updates deletions
  same_progress p = (refl, refl, omega arith, omega arith)

  deserialize-IsAfter :
      (r : StatusOr DataRecord) (p : Progress U)
      → IsAfter p (record_calls r) (deserialize_data_record options r p).0
  unfolding record_calls deserialize_data_record process_data_record set_code run latest updates
      deletions
  deserialize-IsAfter (err e) p = same_progress p
  deserialize-IsAfter (ok (user_defined_functions config)) p =
      (refl, refl, omega arith, omega arith)
  deserialize-IsAfter (ok other) p = same_progress p
  deserialize-IsAfter (ok (key_value_mutation m)) p =
      elim (Bool-cases (should_process_record options m)) [
        | inl e ↦ rw e (apply-IsAfter m.mutation_type m.key m.value m.logical_commit_time p)
        | inr e ↦ rw e (same_progress p)
      ]

latest-append : (t : ℕ) (xs ys : List Call) → latest t (xs ++ ys) ≡ latest (latest t xs) ys
unfolding latest
latest-append t [] ys = refl
latest-append t (Run.update key v time ∷ xs) ys = latest-append (max t time) xs ys
latest-append t (update_set key vs time ∷ xs) ys = latest-append (max t time) xs ys
latest-append t (Run.delete key time ∷ xs) ys = latest-append (max t time) xs ys
latest-append t (delete_values key vs time ∷ xs) ys = latest-append (max t time) xs ys
latest-append t (remove_deleted time ∷ xs) ys = latest-append t xs ys

updates-append : (xs ys : List Call) → updates (xs ++ ys) ≡ updates xs + updates ys
unfolding updates
updates-append [] ys = omega arith
updates-append (Run.update key v time ∷ xs) ys = omega (arith, updates-append xs ys)
updates-append (update_set key vs time ∷ xs) ys = omega (arith, updates-append xs ys)
updates-append (Run.delete key time ∷ xs) ys = updates-append xs ys
updates-append (delete_values key vs time ∷ xs) ys = updates-append xs ys
updates-append (remove_deleted time ∷ xs) ys = updates-append xs ys

deletions-append : (xs ys : List Call) → deletions (xs ++ ys) ≡ deletions xs + deletions ys
unfolding deletions
deletions-append [] ys = omega arith
deletions-append (Run.update key v time ∷ xs) ys = deletions-append xs ys
deletions-append (update_set key vs time ∷ xs) ys = deletions-append xs ys
deletions-append (Run.delete key time ∷ xs) ys = omega (arith, deletions-append xs ys)
deletions-append (delete_values key vs time ∷ xs) ys = omega (arith, deletions-append xs ys)
deletions-append (remove_deleted time ∷ xs) ys = deletions-append xs ys

pub run-append : (c : KeyValueCache) (xs ys : List Call) → run c (xs ++ ys) ≡ run (run c xs) ys
unfolding run
run-append c [] ys = refl
run-append c (x ∷ xs) ys = run-append (step c x) xs ys

module _ {ℓ} {U : Type ℓ} (options : Options U) where
  -- Reading any stream, with invalid and foreign records in it, makes exactly the cache calls of the
  -- mutations that belong to this server's shard, in their order; the time is then the greatest of
  -- their commit times and the time before, and the statistics count the updates and the deletions.
  pub read_stream_records_lem :
      (rs : List (StatusOr DataRecord)) (p : Progress U)
      → IsAfter options p (calls_of options rs) (read_stream_records options rs p)
  unfolding calls_of read_stream_records
  read_stream_records_lem [] p = same_progress options p
  read_stream_records_lem (r ∷ rs) p =
      let first = record_calls options r in
      let rest = calls_of options rs in
      let q = (deserialize_data_record options r p).0 in
      let (a, b, c, d) = deserialize-IsAfter options r p in
      let (e, f, g, h) = read_stream_records_lem rs q in
      (
        e ∙ rw (run-append, a),
        f ∙ rw (latest-append, b),
        omega (arith, g, c, updates-append first rest),
        omega (arith, h, d, deletions-append first rest),
      )
