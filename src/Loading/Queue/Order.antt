-- ===== src/Loading/Queue/Order.antt =====
-- The queue is first in, first out, and every file is loaded until it succeeds.
use mathlib.Core.List.{append_assoc}
use fledge_key_value_service.Base.{
  String, ◌≡◌, refl, ◌∙◌, ap, sym, Bool, true, false, ◌⊎◌, List, [], ◌∷◌, ◌++◌, Bool-cases, inl,
  inr,
}
use fledge_key_value_service.Base.Lists.{All, All-append, All-imp}
use fledge_key_value_service.Lookup.Types.{ok, StatusOr-cases}
use fledge_key_value_service.Loading.Records.{Options}
use fledge_key_value_service.Loading.Filenames.{is_delta_filename}
use fledge_key_value_service.Loading.Files.{
  Bucket, DataLoadingStats, load_cache_with_data_from_file,
}
use fledge_key_value_service.Loading.Queue.{
  Loader, waiting, loading, stopped, Orchestrator, enqueue_new_files_to_process, send_stop,
  pop_back, take_back, take_or_stop, process_new_files, has_new_event_to_process, after_attempt,
  Event, enqueued, woken, attempted, received, destroyed, attempt, step, run,
}

-- The order in which the deque gives its names up.
abbrev pub pending_names : List String → List String
pending_names [] = []
pending_names (name ∷ names) = pending_names names ++ (name ∷ [])

abbrev pub current : Loader → List String
current waiting = []
current (loading basename) = basename ∷ []
current stopped = []

pub pop_back_lem :
    (a : String) (rest : List String)
    → pending_names (a ∷ rest) ≡ (pop_back a rest).0 ∷ pending_names (pop_back a rest).1
unfolding pop_back
pop_back_lem a [] = refl
pop_back_lem a (b ∷ rest) = ap (λ l. l ++ (a ∷ [])) (pop_back_lem b rest)

-- The names that the thread has still to load, the current one first.
abbrev pub pending {ℓ} : {U : Type ℓ} → Orchestrator U → List String
pending o = current o.loader ++ pending_names o.unprocessed_basenames

abbrev pub announced : Event → List String
announced (enqueued basename) = basename ∷ []
announced woken = []
announced (attempted _) = []
announced (received _) = []
announced destroyed = []

abbrev pub all_announced : List Event → List String
all_announced [] = []
all_announced (e ∷ events) = announced e ++ all_announced events

append_nil {ℓ} : {A : Type ℓ} (l : List A) → l ++ [] ≡ l
append_nil [] = refl
append_nil (x ∷ l) = ap (λ l. x ∷ l) (append_nil l)

module _ {ℓ} {U : Type ℓ} (options : Options U) where
  -- The event is an attempt to load the file, and it succeeds.
  abbrev pub LoadedBy : String → Event → Orchestrator U → Type 0
  LoadedBy name (enqueued _) o = ⊥
  LoadedBy name woken o = ⊥
  LoadedBy name (attempted bucket) o =
      (o.loader ≡ loading name)
      × ((stats : DataLoadingStats) × ((load_cache_with_data_from_file options bucket name
              o.server).1
            ≡ ok stats))
  LoadedBy name (received _) o = ⊥
  LoadedBy name destroyed o = ⊥

  abbrev pub IsLoaded : String → List Event → Orchestrator U → Type 0
  IsLoaded name [] o = ⊥
  IsLoaded name (e ∷ events) o = LoadedBy name e o ⊎ IsLoaded name events (step options e o)

  abbrev pub IsDone : List Event → Orchestrator U → String → Type 0
  IsDone events o name = (is_delta_filename name ≡ false) ⊎ IsLoaded name events o

  abbrev Follows : Event → Orchestrator U → Orchestrator U → Type 0
  Follows e o t =
      (names : List String) × (names ++ pending t ≡ pending o ++ announced e)
      × All (λ name. (is_delta_filename name ≡ false) ⊎ LoadedBy name e o) names

  same : (e : Event) (o t : Orchestrator U) → pending t ≡ pending o ++ announced e → Follows e o t
  same e o t h = ([], h, tt)

  take_back_lem :
      (names : List String) (o : Orchestrator U)
      → o.unprocessed_basenames ≡ names
      → o.loader ≡ waiting
      → Follows woken o (take_back names o)
  unfolding take_back
  take_back_lem [] o queue loader = same woken o o (sym (append_nil (pending o)))
  take_back_lem (name ∷ names) o queue loader =
      let all : pending o ++ [] ≡ (pop_back name names).0 ∷ pending_names (pop_back name names).1 =
        append_nil (pending o) ∙ rw (loader, queue) (pop_back_lem name names) in
      elim (Bool-cases (is_delta_filename (pop_back name names).0)) [
        | inl delta ↦ rw delta ([], sym all, tt)
        | inr other ↦ rw other (
          (pop_back name names).0 ∷ [],
          ap (λ l. (pop_back name names).0 ∷ (current l ++ pending_names (pop_back name names).1))
                loader
              ∙ sym all,
          (inl other, tt),
        )
      ]

  take_or_stop_lem :
      (stop : Bool) (o : Orchestrator U)
      → o.loader ≡ waiting
      → Follows woken o (take_or_stop stop o)
  unfolding take_or_stop
  take_or_stop_lem true o h =
      same woken o (record o { loader = stopped }) (rw h (sym (append_nil _)))
  take_or_stop_lem false o h = take_back_lem o.unprocessed_basenames o refl h

  process_new_files_lem :
      (l : Loader) (o : Orchestrator U) → o.loader ≡ l → Follows woken o (process_new_files l o)
  unfolding process_new_files
  process_new_files_lem (loading name) o h = same woken o o (sym (append_nil (pending o)))
  process_new_files_lem stopped o h = same woken o o (sym (append_nil (pending o)))
  process_new_files_lem waiting o h = elim (Bool-cases (has_new_event_to_process o)) [
    | inr idle ↦ rw idle (same woken o o (sym (append_nil (pending o))))
    | inl event ↦ rw event (take_or_stop_lem o.stop o h)
  ]

  attempt_lem :
      (bucket : Bucket) (l : Loader) (o : Orchestrator U)
      → o.loader ≡ l
      → Follows (attempted bucket) o (attempt options bucket l o)
  unfolding attempt after_attempt
  attempt_lem bucket waiting o h = same (attempted bucket) o o (sym (append_nil (pending o)))
  attempt_lem bucket stopped o h = same (attempted bucket) o o (sym (append_nil (pending o)))
  attempt_lem bucket (loading name) o h =
      let load = load_cache_with_data_from_file options bucket name o.server in
      elim (StatusOr-cases load.1) [
        | inr (e, failed) ↦ rw failed (
            same (attempted bucket) o (record o { server = load.0 }) (sym (append_nil (pending o))))
        | inl (stats, fine) ↦
            rw fine (name ∷ [], rw h (sym (append_nil _)), (inr (h, (stats, fine)), tt))
      ]

  step_lem : (e : Event) (o : Orchestrator U) → Follows e o (step options e o)
  unfolding step enqueue_new_files_to_process send_stop
  step_lem (enqueued name) o = (
    [],
    sym (append_assoc (current o.loader) (pending_names o.unprocessed_basenames) (name ∷ [])),
    tt,
  )
  step_lem woken o = process_new_files_lem o.loader o refl
  step_lem (attempted bucket) o = attempt_lem bucket o.loader o refl
  step_lem (received message) o = ([], sym (append_nil (pending o)), tt)
  step_lem destroyed o = ([], sym (append_nil (pending o)), tt)

  IsDone-first :
      (e : Event) (events : List Event) (o : Orchestrator U) (name : String)
      → (is_delta_filename name ≡ false) ⊎ LoadedBy name e o
      → IsDone (e ∷ events) o name
  IsDone-first e events o name (inl h) = inl h
  IsDone-first e events o name (inr h) = inr (inl h)

  IsDone-later :
      (e : Event) (events : List Event) (o : Orchestrator U) (name : String)
      → IsDone events (step options e o) name
      → IsDone (e ∷ events) o name
  IsDone-later e events o name (inl h) = inl h
  IsDone-later e events o name (inr h) = inr (inr h)

  -- Whatever the threads do, in whatever order: the names that the loading thread had still to load,
  -- followed by those that are enqueued meanwhile, are the names that it is done with, followed by those
  -- that it has still to load then. So files are loaded in the order in which they were enqueued, none
  -- is lost, and the thread is done with a name only if it is not that of a delta file, or
  -- if an attempt to load that file has succeeded.
  pub run-order :
      (events : List Event) (o : Orchestrator U)
      → (names : List String) × (names ++ pending (run options events o)
          ≡ pending o ++ all_announced events)
        × All (IsDone events o) names
  unfolding run
  run-order [] o = ([], sym (append_nil (pending o)), tt)
  run-order (e ∷ events) o =
      let (first, order, done) = step_lem e o in
      let (rest, order', done') = run-order events (step options e o) in
      (
        first ++ rest,
        append_assoc first rest _
            ∙ ap (λ l. first ++ l) order'
            ∙ sym (append_assoc first _ _)
            ∙ ap (λ l. l ++ all_announced events) order
            ∙ append_assoc (pending o) _ _,
        All-append (IsDone (e ∷ events) o) first rest
            (All-imp (λ name. IsDone-first e events o name) first done)
            (All-imp (λ name. IsDone-later e events o name) rest done'),
      )
