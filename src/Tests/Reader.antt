-- ===== src/Tests/Reader.antt =====
-- The concurrent reader of riegeli_stream_io.h on a stream of eleven bytes with four records.
use fledge_key_value_service.Base.{
  ℕ, suc, ◌%◌, ◌≡◌, refl, String, ◌⊎◌, ◌≢◌, none, some, List, [], ◌∷◌, arith,
}
use fledge_key_value_service.Lookup.Types.{StatusOr, ok, err, internal, invalid_argument}
use fledge_key_value_service.Reader.Shards.{
  Options, ShardRange, RecordReader, record_stream_size, shard_size, ranges, last_end, is_complete,
  checked, build_shards, read_stream_records, read_shards, read_all, read_shard_records, read_shard,
  read_records, pos, finished, check_all, check_results,
}
use fledge_key_value_service.Reader.Shards.Cover.{Covers, build_shards_lem}
use fledge_key_value_service.Reader.Shards.Once.{from, values, read_stream_records_once}

abbrev options : Options
options = record { num_worker_threads = 3; min_shard_size_bytes = 0 }

abbrev records : List (ℕ × String)
records = (0, "a") ∷ (2, "b") ∷ (5, "c") ∷ (9, "d") ∷ []

abbrev seek : ℕ → StatusOr (RecordReader String)
seek b = ok (record { records = from b records; end = 11; status = ok tt })

build_shards_runs :
    (build_shards options 11
      ≡ ok (
          record { start_pos = 0; end_pos = 4 }
          ∷ record { start_pos = 5; end_pos = 9 }
          ∷ record { start_pos = 10; end_pos = 11 }
          ∷ []))
    × (build_shards options 10 ≡ err internal)
    × (build_shards (record { num_worker_threads = 0; min_shard_size_bytes = 0 }) 10
        ≡ err invalid_argument)
unfolding build_shards shard_size ranges last_end is_complete checked
build_shards_runs = (refl, refl, refl)

read_runs :
    (read_stream_records options (some 11) seek ≡ ("a" ∷ "b" ∷ "c" ∷ "d" ∷ [], ok tt))
    × (read_stream_records options none seek ≡ ([], err invalid_argument))
unfolding read_stream_records record_stream_size build_shards shard_size ranges last_end is_complete
    checked read_shards read_all read_shard_records read_shard read_records pos finished check_all
    check_results
read_runs = (refl, refl)

build_shards_lem_example :
    ((11 % suc (shard_size options 11) ≢ 0)
      × ((shards : List ShardRange) × (build_shards options 11 ≡ ok shards) × Covers 0 shards 11))
    ⊎ ((11 % suc (shard_size options 11) ≡ 0) × (build_shards options 11 ≡ err internal))
build_shards_lem_example = build_shards_lem options 11 (omega arith)

read_stream_records_once_example :
    read_stream_records options (some 11) seek ≡ (values records, ok tt)
unfolding shard_size
read_stream_records_once_example =
    read_stream_records_once seek records 11 11 (λ b. refl)
      (omega arith, (omega arith, (omega arith, (omega arith, tt)))) options (omega arith)
      (λ e. ground (arith, e))
