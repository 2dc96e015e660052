-- ===== src/Tests/Queue.antt =====
-- The orchestrator while it runs, and retries, on small inputs.
use fledge_key_value_service.Base.{
  ℕ, suc, ◌+◌, ◌<◌, ◌≡◌, refl, ◌⊎◌, inl, String, Bool, true, some, List, [], ◌∷◌, ◌++◌, ltb,
  if◌then◌else◌,
}
use fledge_key_value_service.Base.Lists.{All}
use fledge_key_value_service.Base.Ints.{pos}
use fledge_key_value_service.Cache.Run
use fledge_key_value_service.Lookup.Types.{StatusCode, StatusOr, ok, err, internal, cancelled}
use fledge_key_value_service.Loading.Files.{Bucket, load_deltas}
use fledge_key_value_service.Loading.Queue.{
  Orchestrator, loading, stopped, Event, enqueued, woken, attempted, received, destroyed, step, run,
  pop_back, enqueue_new_files_to_process, has_new_event_to_process, take_back, take_or_stop,
  process_new_files, after_attempt, attempt, send_stop, load_cache_with_high_priority_updates,
}
use fledge_key_value_service.Loading.Queue.Order.{pending, IsDone, run-order}
use fledge_key_value_service.Loading.Queue.CatchUp.{
  run_calls, run-cache, rounds, idle, queue-load_deltas,
}
use fledge_key_value_service.Loading.Retry.{
  retry_until_ok, retry_with_max, retry, after_call, after_sleep, Fails, Ends, retry_until_ok_lem,
  retry_with_max_lem,
}
use fledge_key_value_service.Tests.Loading.{
  options, bucket, names, server, delta, second_records, loaded_name, program,
}

-- The bucket before its files can be read.
abbrev broken : Bucket
broken = record {
  list_snapshots = ok [];
  list_deltas = λ after. ok [];
  blob = λ name. record { metadata = err internal; records = []; read_status = err internal };
}

-- Two files are announced, the first cannot be read at once, and a message comes in between.
abbrev events : List Event
events =
    enqueued "DELTA_0000000000000001"
    ∷ woken
    ∷ enqueued "DELTA_1"
    ∷ attempted broken
    ∷ enqueued "DELTA_0000000000000002"
    ∷ woken
    ∷ received (delta second_records)
    ∷ attempted bucket
    ∷ woken
    ∷ woken
    ∷ destroyed
    ∷ []

abbrev start : Orchestrator ℕ
start = idle [] server

queue_program : Unit {0}
unfolding program step run pop_back enqueue_new_files_to_process has_new_event_to_process take_back
    take_or_stop process_new_files after_attempt attempt send_stop
    load_cache_with_high_priority_updates
queue_program = tt

queue_runs :
    (pending (run options events start) ≡ "DELTA_0000000000000002" ∷ [])
    × ((run options events start).loader ≡ loading "DELTA_0000000000000002")
    × ((run options (events ++ (attempted bucket ∷ woken ∷ [])) start).loader ≡ stopped)
unfolding queue_program
queue_runs = (refl, refl, refl)

run-order_example :
    (done : List String) × (done ++ pending (run options events start)
      ≡ "DELTA_0000000000000001" ∷ "DELTA_1" ∷ "DELTA_0000000000000002" ∷ [])
    × All (IsDone options events start) done
run-order_example = run-order options events start

run-cache_example :
    (run options events start).server.cache ≡ Run.run server.cache (run_calls options events start)
run-cache_example = run-cache options events start

abbrev queue : List String
queue = "DELTA_0000000000000002" ∷ "DELTA_1" ∷ "DELTA_0000000000000001" ∷ []

queue-load_deltas_example :
    run options (rounds bucket names) (idle queue server)
    ≡ idle [] (load_deltas options bucket names "" server).0
queue-load_deltas_example =
    queue-load_deltas options bucket queue server "" "DELTA_0000000000000002" loaded_name

-- A function that fails twice, and a wait that is never cancelled; the state counts calls and seconds.
abbrev func : ℕ × ℕ → (ℕ × ℕ) × StatusOr ℕ
func (n, slept) = if ltb n 2 then ((suc n, slept), err internal) else ((suc n, slept), ok n)

abbrev sleep : ℕ → ℕ × ℕ → (ℕ × ℕ) × Bool
sleep d (n, slept) = ((n, slept + d), true)

retry_runs :
    (retry_until_ok func sleep 5 (err cancelled) (0, 0) ≡ some ((3, 6), ok 2))
    × (retry_with_max func sleep 5 (pos 2) (err cancelled) (0, 0) ≡ some ((2, 6), err internal))
    × (retry_with_max func sleep 5 (pos 0) (err cancelled) (0, 0) ≡ some ((3, 6), ok 2))
unfolding retry_until_ok retry_with_max retry after_call after_sleep
retry_runs = (refl, refl, refl)

retry_until_ok_lem_example :
    retry_until_ok func sleep (2 + 3) (err cancelled) (0, 0) ≡ some ((3, 6), ok 2)
retry_until_ok_lem_example =
    retry_until_ok_lem func sleep 2 2 (err cancelled) (0, 0) (2, 6) ((3, 6), ok 2)
      ((1, 0), (1, 2), internal, refl, refl, ((2, 2), (2, 6), internal, refl, refl, refl))
      (inl ((3, 6), 2, refl, refl))

retry_with_max_lem_example :
    ((n : ℕ) × (t : ℕ × ℕ) × (r : (ℕ × ℕ) × StatusOr ℕ) × (n < 2)
      × Fails func sleep 1 n (0, 0) t
      × Ends func sleep (1 + n) t r
      × (retry_with_max func sleep 3 (pos 2) (err cancelled) (0, 0) ≡ some r))
    ⊎ ((t : ℕ × ℕ) × (e : StatusCode) × Fails func sleep 1 2 (0, 0) t
        × (retry_with_max func sleep 3 (pos 2) (err cancelled) (0, 0) ≡ some (t, err e)))
retry_with_max_lem_example = retry_with_max_lem func sleep 1 (err cancelled) (0, 0)
