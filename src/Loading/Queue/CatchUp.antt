-- ===== src/Loading/Queue/CatchUp.antt =====
-- What the orchestrator does to the cache while it runs, and that the queue does what Init does.
use fledge_key_value_service.Base.{
  String, ◌≡◌, refl, ◌∙◌, ap, sym, Bool, true, false, List, [], ◌∷◌, ◌++◌, if◌then◌else◌,
  Bool-cases, inl, inr,
}
use fledge_key_value_service.Cache.State.{zero_time}
use fledge_key_value_service.Cache.Sets.{is_empty}
use fledge_key_value_service.Cache.Run.{Call}
use fledge_key_value_service.Cache.Run
use fledge_key_value_service.Lookup.Types.{ok, StatusOr-cases}
use fledge_key_value_service.Loading.Records.{Options}
use fledge_key_value_service.Loading.Records.Calls.{run-append, calls_of, read_stream_records_lem}
use fledge_key_value_service.Loading.Filenames.{is_delta_filename}
use fledge_key_value_service.Loading.Files.{
  Bucket, DataLoadingStats, Server, load_cache_with_data_from_file, load_deltas,
}
use fledge_key_value_service.Loading.Files.Loads.{file_calls, load_file_lem}
use fledge_key_value_service.Loading.Queue.{
  has_new_event_to_process, Loader, waiting, loading, stopped, Orchestrator, pop_back, take_back,
  take_or_stop, process_new_files, after_attempt, Event, enqueued, woken, attempted, received,
  destroyed, attempt, step, run,
}
use fledge_key_value_service.Loading.Queue.Order.{pending_names, pop_back_lem}

-- The rounds of the loading thread for these names, each file being loaded at the first attempt.
abbrev pub rounds : Bucket → List String → List Event
rounds bucket [] = []
rounds bucket (name ∷ names) =
    if is_delta_filename name
    then woken ∷ attempted bucket ∷ rounds bucket names
    else woken ∷ rounds bucket names

abbrev pub idle {ℓ} : {U : Type ℓ} → List String → Server U → Orchestrator U
idle queue s = record { unprocessed_basenames = queue; stop = false; loader = waiting; server = s }

module _ {ℓ} {U : Type ℓ} (options : Options U) where
  abbrev pub attempt_calls : Bucket → Loader → List Call
  attempt_calls bucket waiting = []
  attempt_calls bucket (loading name) =
      file_calls options (bucket.blob name) (bucket.blob name).metadata
  attempt_calls bucket stopped = []

  -- The calls of the cache that an event makes: those of the file for an attempt, whether it succeeds or
  -- not, and those of its records for a message.
  abbrev pub event_calls : Event → Orchestrator U → List Call
  event_calls (enqueued _) o = []
  event_calls woken o = []
  event_calls (attempted bucket) o = attempt_calls bucket o.loader
  event_calls (received message) o = calls_of options message.records
  event_calls destroyed o = []

  abbrev pub run_calls : List Event → Orchestrator U → List Call
  run_calls [] o = []
  run_calls (e ∷ events) o = event_calls e o ++ run_calls events (step options e o)

  take_back-server :
      (names : List String) (o : Orchestrator U) → (take_back names o).server ≡ o.server
  unfolding take_back
  take_back-server [] o = refl
  take_back-server (name ∷ names) o =
      elim (Bool-cases (is_delta_filename (pop_back name names).0)) [ inl e ↦ rw e | inr e ↦ rw e ]

  take_or_stop-server : (stop : Bool) (o : Orchestrator U) → (take_or_stop stop o).server ≡ o.server
  unfolding take_or_stop
  take_or_stop-server true o = refl
  take_or_stop-server false o = take_back-server o.unprocessed_basenames o

  process_new_files-server :
      (l : Loader) (o : Orchestrator U) → (process_new_files l o).server ≡ o.server
  unfolding process_new_files
  process_new_files-server (loading name) o = refl
  process_new_files-server stopped o = refl
  process_new_files-server waiting o = elim (Bool-cases (has_new_event_to_process o)) [
    | inr idle ↦ rw idle
    | inl event ↦ rw event (take_or_stop-server o.stop o)
  ]

  attempt-cache :
      (bucket : Bucket) (l : Loader) (o : Orchestrator U)
      → (attempt options bucket l o).server.cache ≡ Run.run o.server.cache (attempt_calls bucket l)
  unfolding attempt after_attempt Run.run
  attempt-cache bucket waiting o = refl
  attempt-cache bucket stopped o = refl
  attempt-cache bucket (loading name) o =
      let load = load_cache_with_data_from_file options bucket name o.server in
      elim (StatusOr-cases load.1) [
        | inr (e, failed) ↦ rw failed (load_file_lem options bucket name o.server).0
        | inl (stats, fine) ↦ rw fine (load_file_lem options bucket name o.server).0
      ]

  step-cache :
      (e : Event) (o : Orchestrator U)
      → (step options e o).server.cache ≡ Run.run o.server.cache (event_calls e o)
  unfolding step Run.run
  step-cache (enqueued name) o = refl
  step-cache woken o = ap (λ s. s.cache) (process_new_files-server o.loader o)
  step-cache (attempted bucket) o = attempt-cache bucket o.loader o
  step-cache (received message) o =
      (read_stream_records_lem options message.records (record {
        cache = o.server.cache;
        max_timestamp = zero_time;
        total_updated_records = 0;
        total_deleted_records = 0;
        udf = o.server.udf;
      })).0
  step-cache destroyed o = refl

  -- Whatever the threads do, in whatever order: the cache has had the calls of the attempts to load
  -- a file and those of the messages, in the order of these events, and no others.
  pub run-cache :
      (events : List Event) (o : Orchestrator U)
      → (run options events o).server.cache ≡ Run.run o.server.cache (run_calls events o)
  unfolding run Run.run
  run-cache [] o = refl
  run-cache (e ∷ events) o = run-cache events (step options e o) ∙ rw (run-append, step-cache e o)

  -- The round of the thread for the first of the pending names.
  taken : List String → String → Server U → Orchestrator U
  taken rest name s =
      if is_delta_filename name
      then record { unprocessed_basenames = rest; stop = false; loader = loading name; server = s }
      else idle rest s

  step_take :
      (q : List String) (s : Server U) (name : String) (names : List String)
      → pending_names q ≡ name ∷ names
      → (rest : List String) × (pending_names rest ≡ names)
        × (step options woken (idle q s) ≡ taken rest name s)
  unfolding step process_new_files take_or_stop take_back taken has_new_event_to_process is_empty
  step_take [] s name names h = absurd (cc h)
  step_take (a ∷ q) s name names h =
      let e = sym (pop_back_lem a q) ∙ h in
      let same : (pop_back a q).0 ≡ name = cc e in
      (
        (pop_back a q).1,
        cc e,
        elim (Bool-cases (is_delta_filename name)) [
          | inl delta ↦ rw (same, delta)
          | inr other ↦ rw (same, other)
        ],
      )

  all_taken : (q : List String) (s : Server U) → pending_names q ≡ [] → idle q s ≡ idle [] s
  all_taken [] s h = refl
  all_taken (a ∷ q) s h = absurd (cc (sym (pop_back_lem a q) ∙ h))

  attempted_ok :
      (bucket : Bucket) (rest : List String) (name : String) (s : Server U)
      → is_delta_filename name ≡ true
      → (stats : DataLoadingStats) × ((load_cache_with_data_from_file options bucket name s).1
          ≡ ok stats)
      → step options (attempted bucket) (taken rest name s)
        ≡ idle rest (load_cache_with_data_from_file options bucket name s).0
  unfolding step attempt after_attempt taken
  attempted_ok bucket rest name s delta (stats, fine) = rw delta (rw fine)

  passed_over :
      (rest : List String) (name : String) (s : Server U)
      → is_delta_filename name ≡ false
      → taken rest name s ≡ idle rest s
  unfolding taken
  passed_over rest name s other = rw other

  run_delta :
      (bucket : Bucket) (names q : List String) (s : Server U) (name : String)
      → is_delta_filename name ≡ true
      → run options (rounds bucket (name ∷ names)) (idle q s)
        ≡ run options
            (rounds bucket names)
            (step options (attempted bucket) (step options woken (idle q s)))
  unfolding run
  run_delta bucket names q s name delta = rw delta

  run_other :
      (bucket : Bucket) (names q : List String) (s : Server U) (name : String)
      → is_delta_filename name ≡ false
      → run options (rounds bucket (name ∷ names)) (idle q s)
        ≡ run options (rounds bucket names) (step options woken (idle q s))
  unfolding run
  run_other bucket names q s name other = rw other

  rounds_lem :
      (bucket : Bucket) (names q : List String) (s : Server U) (last end : String)
      → pending_names q ≡ names
      → (load_deltas options bucket names last s).1 ≡ ok end
      → run options (rounds bucket names) (idle q s)
        ≡ idle [] (load_deltas options bucket names last s).0
  unfolding run load_deltas
  rounds_lem bucket [] q s last end h fine = all_taken q s h
  rounds_lem bucket (name ∷ names) q s last end h fine =
      let (rest, left, took) = step_take q s name names h in
      elim (Bool-cases (is_delta_filename name)) [
        | inr other ↦
            run_other bucket names q s name other
            ∙ ap (run options (rounds bucket names)) (took ∙ passed_over rest name s other)
            ∙ rounds_lem bucket names rest s last end left (rw other at fine)
            ∙ rw other
        | inl delta ↦
            let load = load_cache_with_data_from_file options bucket name s in
            elim (StatusOr-cases load.1) [
              | inr (e, failed) ↦ absurd (cc (rw (delta, failed) at fine))
              | inl (stats, loaded) ↦
                  run_delta bucket names q s name delta
                  ∙ ap (λ o. run options (rounds bucket names) (step options (attempted bucket) o))
                      took
                  ∙ ap (run options (rounds bucket names))
                      (attempted_ok bucket rest name s delta (stats, loaded))
                  ∙ rounds_lem bucket names rest load.0 name end left (rw (delta, loaded) at fine)
                  ∙ rw (delta, loaded)
            ]
      ]

  -- Where the loop of Init gets through the names in the queue, in the order in which they were
  -- enqueued, the loading thread empties the queue, and leaves the server as that loop does.
  pub queue-load_deltas :
      (bucket : Bucket) (q : List String) (s : Server U) (last end : String)
      → (load_deltas options bucket (pending_names q) last s).1 ≡ ok end
      → run options (rounds bucket (pending_names q)) (idle q s)
        ≡ idle [] (load_deltas options bucket (pending_names q) last s).0
  queue-load_deltas bucket q s last end fine =
      rounds_lem bucket (pending_names q) q s last end refl fine
