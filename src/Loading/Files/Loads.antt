-- ===== src/Loading/Files/Loads.antt =====
-- Loading files is making the cache calls of their records, with a cleanup after each file.
use fledge_key_value_service.Base.{
  String, ◌≡◌, refl, ◌∙◌, List, [], ◌∷◌, ◌++◌, arith, if◌then◌else◌, Bool-cases, inl, inr,
}
use fledge_key_value_service.Cache.State.{KeyValueCache, zero_time}
use fledge_key_value_service.Cache.Run.{Call, remove_deleted, run, step}
use fledge_key_value_service.Lookup.Types.{StatusOr-cases, StatusOr, ok, err}
use fledge_key_value_service.Loading.Records.{Progress, Options, read_stream_records}
use fledge_key_value_service.Loading.Records.Calls.{
  latest, updates, deletions, calls_of, run-append, read_stream_records_lem,
}
use fledge_key_value_service.Loading.Filenames.{is_delta_filename}
use fledge_key_value_service.Loading.Files.{
  FileMetadata, Blob, Bucket, DataLoadingStats, Server, stats_of, load_cache_with_data, clean_up,
  is_foreign, load_blob, load_cache_with_data_from_file, load_deltas,
}

module _ {ℓ} {U : Type ℓ} (options : Options U) where
  -- The cleanup at the greatest commit time of the file, where all of it was read.
  unfoldable pub cleanup_calls : StatusOr (Unit {0}) → List Call → List Call
  cleanup_calls (err e) calls = []
  cleanup_calls (ok _) calls = remove_deleted (latest zero_time calls) ∷ []

  -- The calls of a file: none where it cannot be opened or is for another shard.
  unfoldable pub file_calls : Blob → StatusOr FileMetadata → List Call
  unfolding cleanup_calls
  file_calls b (err e) = []
  file_calls b (ok metadata) =
      if is_foreign options metadata.shard_num
      then []
      else calls_of options b.records ++ cleanup_calls b.read_status (calls_of options b.records)

  unfoldable pub counted : StatusOr (Unit {0}) → List Call → StatusOr DataLoadingStats
  counted (err e) calls = err e
  counted (ok _) calls =
      ok (record { total_updated_records = updates calls; total_deleted_records = deletions calls })

  -- The statistics of a file, or the error of opening or of reading it.
  unfoldable pub file_status : Blob → StatusOr FileMetadata → StatusOr DataLoadingStats
  unfolding counted
  file_status b (err e) = err e
  file_status b (ok metadata) =
      if is_foreign options metadata.shard_num
      then ok (record { total_updated_records = 0; total_deleted_records = 0 })
      else counted b.read_status (calls_of options b.records)

  finished :
      (status : StatusOr (Unit {0})) (c : KeyValueCache) (calls : List Call) (q : Progress U)
      → q.cache ≡ run c calls
      → q.max_timestamp ≡ latest zero_time calls
      → q.total_updated_records ≡ updates calls
      → q.total_deleted_records ≡ deletions calls
      → ((clean_up options q (stats_of options q status)).0.cache
          ≡ run c (calls ++ cleanup_calls status calls))
        × ((clean_up options q (stats_of options q status)).1 ≡ counted status calls)
  unfolding clean_up stats_of cleanup_calls counted run step
  finished (err e) c calls q a b u d = (a ∙ (rw (run-append c calls [])), refl)
  finished (ok _) c calls q a b u d =
      (rw (run-append c calls (remove_deleted (latest zero_time calls) ∷ []), a, b), rw (u, d))

  load_blob_lem :
      (b : Blob) (metadata : StatusOr FileMetadata) (s : Server U)
      → ((load_blob options b metadata s).0.cache ≡ run s.cache (file_calls b metadata))
        × ((load_blob options b metadata s).1 ≡ file_status b metadata)
  unfolding load_blob load_cache_with_data file_calls file_status run
  load_blob_lem b (err e) s = (refl, refl)
  load_blob_lem b (ok metadata) s = elim (Bool-cases (is_foreign options metadata.shard_num)) [
    | inl e ↦ (rw e, rw e)
    | inr e ↦
        let start : Progress U = record {
          cache = s.cache;
          max_timestamp = zero_time;
          total_updated_records = 0;
          total_deleted_records = 0;
          udf = s.udf;
        } in
        let calls = calls_of options b.records in
        let (a, t, u, d) = read_stream_records_lem options b.records start in
        let (x, y) =
          finished b.read_status s.cache calls (read_stream_records options b.records start) a t
            (omega (arith, u)) (omega (arith, d)) in
        (rw e x, rw e y)
  ]

  -- Loading a file, whatever is in it, makes exactly the cache calls of its records for this shard and
  -- then, if all of it was read, one cleanup at the greatest of their commit times; it makes none if
  -- the file cannot be opened or is for another shard. Its result is the number of updates and
  -- of deletions, or the error.
  pub load_file_lem :
      (bucket : Bucket) (basename : String) (s : Server U)
      → ((load_cache_with_data_from_file options bucket basename s).0.cache
          ≡ run s.cache (file_calls (bucket.blob basename) (bucket.blob basename).metadata))
        × ((load_cache_with_data_from_file options bucket basename s).1
            ≡ file_status (bucket.blob basename) (bucket.blob basename).metadata)
  unfolding load_cache_with_data_from_file
  load_file_lem bucket basename s =
      load_blob_lem (bucket.blob basename) (bucket.blob basename).metadata s

  -- The calls of all delta files among the names, in their order.
  unfoldable pub delta_calls : Bucket → List String → List Call
  delta_calls bucket [] = []
  delta_calls bucket (basename ∷ rest) =
      if is_delta_filename basename
      then file_calls (bucket.blob basename) (bucket.blob basename).metadata
        ++ delta_calls bucket rest
      else delta_calls bucket rest

  -- The last name of a delta file, or the given one where there is none.
  unfoldable pub last_delta : String → List String → String
  last_delta last [] = last
  last_delta last (basename ∷ rest) =
      if is_delta_filename basename then last_delta basename rest else last_delta last rest

  -- Where Init gets through a list of names, the cache has had the calls of all delta files in it, in
  -- their order, and the name it ends with is that of the last of them; names of another form are
  -- passed over.
  pub load_deltas_lem :
      (bucket : Bucket) (names : List String) (last name : String) (s : Server U)
      → (load_deltas options bucket names last s).1 ≡ ok name
      → ((load_deltas options bucket names last s).0.cache ≡ run s.cache (delta_calls bucket names))
        × (name ≡ last_delta last names)
  unfolding load_deltas delta_calls last_delta run
  load_deltas_lem bucket [] last name s h = (refl, ground (arith, h))
  load_deltas_lem bucket (f ∷ rest) last name s h = elim (Bool-cases (is_delta_filename f)) [
    | inr skip ↦
        let (a, b) = load_deltas_lem bucket rest last name s (rw skip at h) in
        (rw skip a, rw skip b)
    | inl delta ↦
        let t = (load_cache_with_data_from_file options bucket f s).0 in
        elim (StatusOr-cases (load_cache_with_data_from_file options bucket f s).1) [
          | inr (e, failed) ↦ absurd (ground (arith, rw (delta, failed) at h))
          | inl (stats, fine) ↦
              let (a, b) = load_deltas_lem bucket rest f name t (rw (delta, fine) at h) in
              (rw (delta, fine) (a ∙ rw (run-append, (load_file_lem bucket f s).0)), rw delta b)
        ]
  ]
