-- ===== src/Loading/Files.antt =====
-- The loading of files (components/data_server/data_loading/data_orchestrator.cc). The blob storage with
-- the reader of its blobs is an argument. A concurrent reader processes the records of a blob in some
-- order; the list of a blob's records is that order.
pub mod Loads
pub mod Start
use mathlib.Core.List.{reverse}
use fledge_key_value_service.Base.{
  ℕ, String, Bool, true, false, not, Option, none, some, List, [], ◌∷◌, eqb, if◌then◌else◌,
}
use fledge_key_value_service.Cache.State.{KeyValueCache, zero_time}
use fledge_key_value_service.Cache.Run.{remove_deleted_keys}
use fledge_key_value_service.Lookup.Types.{StatusOr, ok, err}
use fledge_key_value_service.Loading.Records.{DataRecord, Progress, Options, read_stream_records}
use fledge_key_value_service.Loading.Filenames.{is_delta_filename, is_snapshot_filename}

-- KVFileMetadata: the shard number of a sharded file, and the last delta file of a snapshot.
pub record FileMetadata : Type 0 where
  pub shard_num : Option ℕ
  pub ending_delta_file : String

-- What the reader finds in a blob: its metadata, the records in the order in which they are processed,
-- and the status at the end.
pub record Blob : Type 0 where
  pub metadata : StatusOr FileMetadata
  pub records : List (StatusOr DataRecord)
  pub read_status : StatusOr (Unit {0})

-- The data bucket of the blob storage client; `list_deltas` takes the name to start after.
pub record Bucket : Type 0 where
  pub list_snapshots : StatusOr (List String)
  pub list_deltas : String → StatusOr (List String)
  pub blob : String → Blob

pub record DataLoadingStats : Type 0 where
  pub total_updated_records : ℕ
  pub total_deleted_records : ℕ

-- What the loading of files changes.
pub record Server {ℓ} (U : Type ℓ) : Type ℓ where
  pub cache : KeyValueCache
  pub udf : U

module _ {ℓ} {U : Type ℓ} (options : Options U) where
  unfoldable pub stats_of : Progress U → StatusOr (Unit {0}) → StatusOr DataLoadingStats
  stats_of p (err e) = err e
  stats_of p (ok _) = ok (record {
    total_updated_records = p.total_updated_records;
    total_deleted_records = p.total_deleted_records;
  })

  unfoldable pub load_cache_with_data : Blob → Progress U → Progress U × StatusOr DataLoadingStats
  unfolding stats_of
  load_cache_with_data b p =
      let q = read_stream_records options b.records p in (q, stats_of q b.read_status)

  -- The cleanup follows a load that succeeded.
  unfoldable pub clean_up :
      Progress U → StatusOr DataLoadingStats → Server U × StatusOr DataLoadingStats
  clean_up p (err e) = (record { cache = p.cache; udf = p.udf }, err e)
  clean_up p (ok stats) =
      (record { cache = remove_deleted_keys p.cache p.max_timestamp; udf = p.udf }, ok stats)

  -- The file is for another shard.
  unfoldable pub is_foreign : Option ℕ → Bool
  is_foreign none = false
  is_foreign (some shard_num) = not (eqb shard_num options.shard_num)

  unfoldable pub load_blob :
      Blob → StatusOr FileMetadata → Server U → Server U × StatusOr DataLoadingStats
  unfolding load_cache_with_data clean_up is_foreign
  load_blob b (err e) s = (s, err e)
  load_blob b (ok metadata) s =
      if is_foreign metadata.shard_num
      then (s, ok (record { total_updated_records = 0; total_deleted_records = 0 }))
      else let (p, stats) = load_cache_with_data b (record {
        cache = s.cache;
        max_timestamp = zero_time;
        total_updated_records = 0;
        total_deleted_records = 0;
        udf = s.udf;
      }) in
        clean_up p stats

  unfoldable pub load_cache_with_data_from_file :
      Bucket → String → Server U → Server U × StatusOr DataLoadingStats
  unfolding load_blob
  load_cache_with_data_from_file bucket basename s =
      load_blob (bucket.blob basename) (bucket.blob basename).metadata s

  -- The status of a load as that of the whole.
  unfoldable pub after_load :
      {A : Type 0} → Server U × StatusOr DataLoadingStats → StatusOr A → Server U × StatusOr A
  after_load (s, err e) result = (s, err e)
  after_load (s, ok _) result = (s, result)

  -- The loop of LoadSnapshotFiles, from the last name to the first: the first snapshot of this server's
  -- shard is loaded. The name that is returned is at first empty, so that no name is less.
  unfoldable pub load_snapshots : Bucket → List String → Server U → Server U × StatusOr String
  unfolding after_load is_foreign
  load_snapshots bucket [] s = (s, ok "")
  load_snapshots bucket (snapshot ∷ rest) s =
      let others = load_snapshots bucket rest s in
      if not (is_snapshot_filename snapshot)
      then others
      else (elim (bucket.blob snapshot).metadata [
        | err e ↦ (s, err e)
        | ok metadata ↦
            if is_foreign metadata.shard_num
            then others
            else after_load (load_cache_with_data_from_file bucket snapshot s)
                (ok metadata.ending_delta_file)
      ])

  unfoldable pub load_listed_snapshots :
      Bucket → StatusOr (List String) → Server U → Server U × StatusOr String
  unfolding load_snapshots
  load_listed_snapshots bucket (err e) s = (s, err e)
  load_listed_snapshots bucket (ok snapshots) s = load_snapshots bucket (reverse snapshots) s

  unfoldable pub load_snapshot_files : Bucket → Server U → Server U × StatusOr String
  unfolding load_listed_snapshots
  load_snapshot_files bucket s = load_listed_snapshots bucket bucket.list_snapshots s

  -- The loop of Init, with the last name so far.
  unfoldable pub load_deltas : Bucket → List String → String → Server U → Server U × StatusOr String
  load_deltas bucket [] last_basename s = (s, ok last_basename)
  load_deltas bucket (basename ∷ rest) last_basename s =
      let (t, status) = load_cache_with_data_from_file bucket basename s in
      let loaded = load_deltas bucket rest basename t in
      let skipped = load_deltas bucket rest last_basename s in
      if not (is_delta_filename basename)
      then skipped
      else (elim status [ err e ↦ (t, err e) | ok _ ↦ loaded ])

  unfoldable pub load_listed_deltas :
      Bucket → StatusOr (List String) → String → Server U → Server U × StatusOr String
  unfolding load_deltas
  load_listed_deltas bucket (err e) ending_delta_file s = (s, err e)
  load_listed_deltas bucket (ok filenames) ending_delta_file s =
      load_deltas bucket filenames ending_delta_file s

  -- Init after the snapshots.
  unfoldable pub load_delta_files : Bucket → StatusOr String → Server U → Server U × StatusOr String
  unfolding load_listed_deltas
  load_delta_files bucket (err e) s = (s, err e)
  load_delta_files bucket (ok ending_delta_file) s =
      load_listed_deltas bucket (bucket.list_deltas ending_delta_file) ending_delta_file s

  unfoldable pub init : Bucket → Server U → Server U × StatusOr String
  unfolding load_snapshot_files load_delta_files
  init bucket s = let (t, ending) = load_snapshot_files bucket s in load_delta_files bucket ending t
