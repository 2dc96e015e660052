-- ===== src/Loading/Queue.antt =====
-- DataOrchestratorImpl of components/data_server/data_loading/data_orchestrator.cc while the server runs:
-- the queue of new files, the thread that loads them, and the messages with high priority. An event is
-- what one thread does under the mutex, or one attempt to load a file, or one message; what the threads
-- do is a list of events in any order.
pub mod Order
pub mod CatchUp
use fledge_key_value_service.Base.{
  ℕ, String, Bool, true, false, not, ◌||◌, Option, none, some, List, [], ◌∷◌, if◌then◌else◌,
}
use fledge_key_value_service.Cache.State.{zero_time}
use fledge_key_value_service.Cache.Sets.{is_empty}
use fledge_key_value_service.Lookup.Types.{StatusOr, ok, err}
use fledge_key_value_service.Loading.Records.{Progress, Options}
use fledge_key_value_service.Loading.Files.{
  Blob, Bucket, DataLoadingStats, Server, load_cache_with_data, load_cache_with_data_from_file,
}
use fledge_key_value_service.Loading.Filenames.{is_delta_filename}

-- Where the thread of ProcessNewFiles is: at the lock, inside RetryUntilOk for a file, or at its end.
pub data Loader : Type 0 where
  waiting : Loader
  loading : String → Loader
  stopped : Loader

pub record Orchestrator {ℓ} (U : Type ℓ) : Type ℓ where
  pub unprocessed_basenames : List String
  pub stop : Bool
  pub loader : Loader
  pub server : Server U

-- The back of the deque, and the deque without it.
unfoldable pub pop_back {ℓ} : {A : Type ℓ} → A → List A → A × List A
pop_back a [] = (a, [])
pop_back a (b ∷ rest) = let (back, front) = pop_back b rest in (back, a ∷ front)

module _ {ℓ} {U : Type ℓ} where
  unfoldable pub enqueue_new_files_to_process : String → Orchestrator U → Orchestrator U
  enqueue_new_files_to_process basename o = record o {
    unprocessed_basenames = basename ∷ o.unprocessed_basenames;
  }

  unfoldable pub has_new_event_to_process : Orchestrator U → Bool
  has_new_event_to_process o = not (is_empty o.unprocessed_basenames) || o.stop

  -- The back of the queue is taken; a name of another form is passed over.
  unfoldable pub take_back : List String → Orchestrator U → Orchestrator U
  unfolding pop_back
  take_back [] o = o
  take_back (name ∷ names) o =
      let (basename, rest) = pop_back name names in
      if not (is_delta_filename basename)
      then record o { unprocessed_basenames = rest }
      else record o { unprocessed_basenames = rest; loader = loading basename }

  unfoldable pub take_or_stop : Bool → Orchestrator U → Orchestrator U
  unfolding take_back
  take_or_stop true o = record o { loader = stopped }
  take_or_stop false o = take_back o.unprocessed_basenames o

  -- One round of ProcessNewFiles up to the load, where the thread waits at the lock.
  unfoldable pub process_new_files : Loader → Orchestrator U → Orchestrator U
  unfolding has_new_event_to_process take_or_stop
  process_new_files (loading _) o = o
  process_new_files stopped o = o
  process_new_files waiting o =
      if not (has_new_event_to_process o) then o else take_or_stop o.stop o

  -- An attempt that fails is followed by another one.
  unfoldable pub after_attempt :
      Server U × StatusOr DataLoadingStats → Orchestrator U → Orchestrator U
  after_attempt (s, err e) o = record o { server = s }
  after_attempt (s, ok _) o = record o { server = s; loader = waiting }

  -- The destructor's part under the mutex.
  unfoldable pub send_stop : Orchestrator U → Orchestrator U
  send_stop o = record o { stop = true }

-- The bucket of an attempt is what the blob storage holds then; the blob of a message is its records.
pub data Event : Type 0 where
  enqueued : String → Event
  woken : Event
  attempted : Bucket → Event
  received : Blob → Event
  destroyed : Event

module _ {ℓ} {U : Type ℓ} (options : Options U) where
  -- RetryUntilOk calls its function once.
  unfoldable pub attempt : Bucket → Loader → Orchestrator U → Orchestrator U
  unfolding after_attempt
  attempt bucket waiting o = o
  attempt bucket stopped o = o
  attempt bucket (loading basename) o =
      after_attempt (load_cache_with_data_from_file options bucket basename o.server) o

  unfoldable pub load_cache_with_high_priority_updates :
      Blob → Server U → Server U × StatusOr DataLoadingStats
  unfolding load_cache_with_data
  load_cache_with_high_priority_updates message s =
      let (p, stats) = load_cache_with_data options message (record {
        cache = s.cache;
        max_timestamp = zero_time;
        total_updated_records = 0;
        total_deleted_records = 0;
        udf = s.udf;
      }) in
      (record { cache = p.cache; udf = p.udf }, stats)

  unfoldable pub step : Event → Orchestrator U → Orchestrator U
  unfolding enqueue_new_files_to_process process_new_files attempt
      load_cache_with_high_priority_updates send_stop
  step (enqueued basename) o = enqueue_new_files_to_process basename o
  step woken o = process_new_files o.loader o
  step (attempted bucket) o = attempt bucket o.loader o
  step (received message) o = record o {
    server = (load_cache_with_high_priority_updates message o.server).0;
  }
  step destroyed o = send_stop o

  unfoldable pub run : List Event → Orchestrator U → Orchestrator U
  unfolding step
  run [] o = o
  run (e ∷ events) o = run events (step e o)
