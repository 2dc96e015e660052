-- ===== src/Reader/Shards.antt =====
-- ConcurrentStreamRecordReader of public/data_loading/readers/riegeli_stream_io.h. The Riegeli reader of a
-- stream, from a position on, is an argument. The threads of the shards share nothing but the callback;
-- what each of them passes to it is a list. The quotient of the size and the number of threads is taken in
-- doubles, which are exact for sizes below 2^52.
pub mod Cover
pub mod Once
use Prim.Native.Nat.{◌/◌, min}
use fledge_key_value_service.Base.{
  ℕ, zero, suc, ◌+◌, ◌-◌, max, Bool, true, false, Option, none, some, List, [], ◌∷◌, ◌++◌, ltb, leb,
  eqb, not, if◌then◌else◌,
}
use fledge_key_value_service.Cache.Sets.{is_empty}
use fledge_key_value_service.Lookup.Types.{StatusOr, ok, err, invalid_argument, internal, ◌>>=◌}

-- Both ends are read.
pub record ShardRange : Type 0 where
  pub start_pos : ℕ
  pub end_pos : ℕ

pub record ShardResult : Type 0 where
  pub first_record_pos : ℕ
  pub next_shard_first_record_pos : ℕ
  pub num_records_read : ℕ

pub record Options : Type 0 where
  pub num_worker_threads : ℕ
  pub min_shard_size_bytes : ℕ

-- `none` is the position -1 of a stream that cannot seek.
unfoldable pub record_stream_size : Option ℕ → StatusOr ℕ
record_stream_size none = err invalid_argument
record_stream_size (some size) = ok size

-- The quotient, rounded up.
abbrev pub ceiling : ℕ → ℕ → ℕ
ceiling a zero = 0
ceiling a (suc n) = (a + n) / suc n

unfoldable pub shard_size : Options → ℕ → ℕ
shard_size options stream_size =
    min stream_size
      (max (ceiling stream_size options.num_worker_threads) options.min_shard_size_bytes)

-- The loop of BuildShards from `start` on.
unfoldable pub ranges : ℕ → ℕ → ℕ → ℕ → List ShardRange
ranges zero start size stream_size = []
ranges (suc fuel) start size stream_size =
    let end = min (start + size) stream_size in
    let rest = ranges fuel (suc end) size stream_size in
    if ltb start stream_size then record { start_pos = start; end_pos = end } ∷ rest else []

-- shards.back().end_pos
unfoldable pub last_end : List ShardRange → Option ℕ
last_end [] = none
last_end (x ∷ []) = some x.end_pos
last_end (_ ∷ y ∷ rest) = last_end (y ∷ rest)

unfoldable pub is_complete : Option ℕ → ℕ → Bool
is_complete none stream_size = false
is_complete (some end) stream_size = eqb end stream_size

unfoldable pub checked : ℕ → List ShardRange → StatusOr (List ShardRange)
unfolding last_end is_complete
checked stream_size shards =
    if is_complete (last_end shards) stream_size then ok shards else err internal

-- Every round moves the start on, so that the size is fuel enough.
unfoldable pub build_shards : Options → ℕ → StatusOr (List ShardRange)
unfolding shard_size ranges checked
build_shards options stream_size =
    if ltb options.num_worker_threads 1
    then err invalid_argument
    else checked stream_size (ranges stream_size 0 (shard_size options stream_size) stream_size)

-- A reader after Seek: the records from there on with their positions, the position behind the last of
-- them, and the status that it ends with.
pub record RecordReader {ℓ} (A : Type ℓ) : Type ℓ where
  pub records : List (ℕ × A)
  pub end : ℕ
  pub status : StatusOr (Unit {0})

unfoldable pub finished : StatusOr (Unit {0}) → ShardResult → StatusOr ShardResult
finished (err e) result = err e
finished (ok _) result = ok result

module _ {ℓ} {A : Type ℓ} where
  -- record_reader.pos()
  unfoldable pub pos : ℕ → List (ℕ × A) → ℕ
  pos end [] = end
  pos end ((p, _) ∷ _) = p

  -- The loop of ReadShardRecords: the records that are read, and those that are left.
  unfoldable pub read_records : ℕ → List (ℕ × A) → List A × List (ℕ × A)
  read_records end [] = ([], [])
  read_records end ((p, a) ∷ rest) =
      let (read, left) = read_records end rest in
      if leb p end then (a ∷ read, left) else ([], (p, a) ∷ rest)

  abbrev pub count : List A → ℕ
  count [] = 0
  count (_ ∷ l) = suc (count l)

  -- What the shard passes to the callback, and its result.
  unfoldable pub read_shard : StatusOr (RecordReader A) → ℕ → List A × StatusOr ShardResult
  unfolding pos read_records finished
  read_shard (err e) end = ([], err e)
  read_shard (ok reader) end =
      let (read, left) = read_records end reader.records in
      (
        read,
        finished reader.status (record {
          first_record_pos = pos reader.end reader.records;
          next_shard_first_record_pos = pos reader.end left;
          num_records_read = count read;
        }),
      )

  unfoldable pub read_shard_records :
      (ℕ → StatusOr (RecordReader A)) → ShardRange → List A × StatusOr ShardResult
  unfolding read_shard
  read_shard_records seek shard = read_shard (seek shard.start_pos) shard.end_pos

  -- All shards are read, whatever becomes of the others.
  unfoldable pub read_all :
      (ℕ → StatusOr (RecordReader A)) → List ShardRange → List A × List (StatusOr ShardResult)
  unfolding read_shard_records
  read_all seek [] = ([], [])
  read_all seek (shard ∷ rest) =
      let (read, result) = read_shard_records seek shard in
      let (others, results) = read_all seek rest in (read ++ others, result ∷ results)

-- The loop over the results: no record may lie between two shards.
unfoldable pub check_results : ShardResult → List (StatusOr ShardResult) → StatusOr (Unit {0})
check_results prev [] = ok tt
check_results prev (err e ∷ rest) = err e
check_results prev (ok curr ∷ rest) =
    let others = check_results curr rest in
    if ltb prev.next_shard_first_record_pos curr.first_record_pos then err internal else others

unfoldable pub check_all : List (StatusOr ShardResult) → StatusOr (Unit {0})
unfolding check_results
check_all [] = err internal
check_all (err e ∷ rest) = err e
check_all (ok first ∷ rest) = check_results first rest

module _ {ℓ} {A : Type ℓ} (options : Options) (tell : Option ℕ)
    (seek : ℕ → StatusOr (RecordReader A)) where
  unfoldable pub read_shards : StatusOr (List ShardRange) → List A × StatusOr (Unit {0})
  unfolding read_all check_all
  read_shards (err e) = ([], err e)
  read_shards (ok shards) = let (read, results) = read_all seek shards in (read, check_all results)

  unfoldable pub read_stream_records : List A × StatusOr (Unit {0})
  unfolding read_shards build_shards record_stream_size
  read_stream_records = read_shards (do size ← record_stream_size tell; build_shards options size)
