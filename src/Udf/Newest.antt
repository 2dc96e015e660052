-- ===== src/Udf/Newest.antt =====
-- The user defined function that is used is the newest of those that were loaded.
use fledge_key_value_service.Base.{
  ℕ, ◌≤◌, ◌≡◌, refl, sym, subst, ◌∙◌, ap, ◌⊎◌, inl, inr, String, some, List, [], ◌∷◌, arith, leb,
  leb→le, Bool-cases,
}
use fledge_key_value_service.Base.Lists.{All}
use fledge_key_value_service.Cache.State.{KeyValueCache}
use fledge_key_value_service.Lookup.Types.{StatusOr, ok, err}
use fledge_key_value_service.Loading.Records.{
  CodeConfig, DataRecord, key_value_mutation, user_defined_functions, other, Progress, Options,
  read_stream_records, process_data_record, deserialize_data_record, should_process_record,
  apply_key_value_mutation_to_cache, count_update, count_delete, apply_update_mutation,
  apply_delete_mutation, MutationType, update, delete, unknown, KeyValueMutationRecord, Value,
}
use fledge_key_value_service.Udf.{
  UdfClient, Roma, CodeObject, assign_code, set_code_object, after_load, load, build_code_object,
  wait_for_response,
}

-- The client has the code of the configuration: its handler name, its version and its commit time.
abbrev pub HasCode : CodeConfig → UdfClient → Type 0
HasCode config client =
    (client.handler_name ≡ config.udf_handler_name)
    × (client.version ≡ config.version)
    × (client.logical_commit_time ≡ config.logical_commit_time)

-- The configurations among the records of a stream.
abbrev pub configs_of : List (StatusOr DataRecord) → List CodeConfig
configs_of [] = []
configs_of (err e ∷ rest) = configs_of rest
configs_of (ok (key_value_mutation record_) ∷ rest) = configs_of rest
configs_of (ok (user_defined_functions config) ∷ rest) = config ∷ configs_of rest
configs_of (ok other ∷ rest) = configs_of rest

module _ {U : Type 0} (options : Options U) where
  abbrev pub set_all : List CodeConfig → U → U
  set_all [] u = u
  set_all (config ∷ rest) u = set_all rest (options.set_code_object u config).0

  count_update-udf :
      (time : ℕ) (r : StatusOr KeyValueCache) (p : Progress U)
      → (count_update options time r p).0.udf ≡ p.udf
  unfolding count_update
  count_update-udf time (err e) p = refl
  count_update-udf time (ok c) p = refl

  count_delete-udf :
      (time : ℕ) (r : StatusOr KeyValueCache) (p : Progress U)
      → (count_delete options time r p).0.udf ≡ p.udf
  unfolding count_delete
  count_delete-udf time (err e) p = refl
  count_delete-udf time (ok c) p = refl

  apply-udf :
      (ty : MutationType) (key : String) (v : Value) (time : ℕ) (p : Progress U)
      → (apply_key_value_mutation_to_cache options
          (record { mutation_type = ty; logical_commit_time = time; key = key; value = v })
          p).0.udf
        ≡ p.udf
  unfolding apply_key_value_mutation_to_cache
  apply-udf update key v time p =
      count_update-udf time
        (apply_update_mutation
          (record { mutation_type = update; logical_commit_time = time; key = key; value = v })
          p.cache)
        p
  apply-udf delete key v time p =
      count_delete-udf time
        (apply_delete_mutation
          (record { mutation_type = delete; logical_commit_time = time; key = key; value = v })
          p.cache)
        p
  apply-udf unknown key v time p = refl

  mutation-udf :
      (record_ : KeyValueMutationRecord) (p : Progress U)
      → (process_data_record options (key_value_mutation record_) p).0.udf ≡ p.udf
  unfolding process_data_record
  mutation-udf record_ p = elim (Bool-cases (should_process_record options record_)) [
    | inr foreign ↦ rw foreign
    | inl own ↦
        rw own
          (apply-udf record_.mutation_type record_.key record_.value record_.logical_commit_time p)
  ]

  read-udf :
      (rs : List (StatusOr DataRecord)) (p : Progress U)
      → (read_stream_records options rs p).udf ≡ set_all (configs_of rs) p.udf
  unfolding read_stream_records deserialize_data_record
  read-udf [] p = refl
  read-udf (err e ∷ rest) p = read-udf rest p
  read-udf (ok (key_value_mutation record_) ∷ rest) p =
      read-udf rest (process_data_record options (key_value_mutation record_) p).0
      ∙ ap (set_all (configs_of rest)) (mutation-udf record_ p)
  read-udf (ok (user_defined_functions config) ∷ rest) p =
      read-udf rest (record p { udf = (options.set_code_object p.udf config).0 })
  read-udf (ok other ∷ rest) p = read-udf rest p

abbrev pub IsAmong : CodeConfig → List CodeConfig → Type 0
IsAmong config [] = ⊥
IsAmong config (c ∷ configs) = (config ≡ c) ⊎ IsAmong config configs

module _ {R : Type 0} (roma : Roma R) where
  -- Roma loads every code object in time.
  abbrev pub IsLoading : Type 0
  IsLoading = (r : R) (code : CodeObject) → (roma.load_code_obj r code).1 ≡ ok (some (ok tt))

  -- The client has what is the newest of its state before and the configurations.
  abbrev pub IsNewest : UdfClient → List CodeConfig → UdfClient → Type 0
  IsNewest before configs client =
      (before.logical_commit_time ≤ client.logical_commit_time)
      × All (λ (config : CodeConfig). config.logical_commit_time ≤ client.logical_commit_time)
          configs
      × ((client ≡ before)
          ⊎ ((config : CodeConfig) × IsAmong config configs × HasCode config client))

  set_code_object_lem :
      (client : UdfClient) (r : R) (config : CodeConfig)
      → IsLoading
      → IsNewest client (config ∷ []) (set_code_object roma (client, r) config).0.0
  unfolding set_code_object after_load load build_code_object wait_for_response assign_code
  set_code_object_lem client r config loading =
      elim (Bool-cases (leb config.logical_commit_time client.logical_commit_time)) [
        | inl old ↦ rw old (
          omega arith,
          (leb→le config.logical_commit_time client.logical_commit_time old, tt),
          inl refl,
        )
        | inr new ↦
            rw (new, loading r (build_code_object config))
              (ground (arith, new), (omega arith, tt), inr (config, inl refl, (refl, refl, refl)))
      ]

  module _ (hash_function : String → ℕ → ℕ) (num_shards shard_num : ℕ) where
    -- The orchestrator's options with this client.
    unfoldable pub with_udf : Options (UdfClient × R)
    with_udf = record {
      hash_function = hash_function;
      num_shards = num_shards;
      shard_num = shard_num;
      set_code_object = set_code_object roma;
    }

    set_all_lem :
        (configs : List CodeConfig) (client : UdfClient) (r : R)
        → IsLoading
        → IsNewest client configs (set_all with_udf configs (client, r)).0
    unfolding with_udf
    set_all_lem [] client r loading = (omega arith, tt, inl refl)
    set_all_lem (config ∷ rest) client r loading =
        let (older, (this, _), source) = set_code_object_lem client r config loading in
        let (u, s) = (set_code_object roma (client, r) config).0 in
        let (later, all, source') = set_all_lem rest u s loading in
        (
          omega (arith, older, later),
          (omega (arith, this, later), all),
          elim source' [
            | inr (c, member, same) ↦ inr (c, inr member, same)
            | inl same ↦ elim source [
              | inl unchanged ↦ inl (same ∙ unchanged)
              | inr (c, inl this_one, assigned) ↦
                  inr (c, inl this_one, subst (λ x. HasCode c x) (sym same) assigned)
              | inr (c, inr never, assigned) ↦ absurd never
            ]
          ],
        )

    -- Reading a stream leaves the client of the user defined functions with the newest code: where the
    -- engine loads every code object in time, the commit time of the client is at least that of each
    -- configuration among the records and at least what it was, and the client either is what it was or
    -- has the handler name, the version and the commit time of one of these configurations.
    pub read_stream_records-IsNewest :
        (rs : List (StatusOr DataRecord)) (p : Progress (UdfClient × R))
        → IsLoading
        → IsNewest p.udf.0 (configs_of rs) (read_stream_records with_udf rs p).udf.0
    read_stream_records-IsNewest rs p loading =
        rw (read-udf with_udf rs p) (set_all_lem (configs_of rs) p.udf.0 p.udf.1 loading)
