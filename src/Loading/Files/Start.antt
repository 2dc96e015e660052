-- ===== src/Loading/Files/Start.antt =====
-- The start of the orchestrator: the last snapshot of the shard, and the delta files after it.
use mathlib.Core.List.{reverse}
use fledge_key_value_service.Base.{
  String, ◌≡◌, refl, ◌∙◌, subst, Bool, false, not, List, [], ◌∷◌, ◌++◌, arith, if◌then◌else◌,
  Bool-cases, inl, inr,
}
use fledge_key_value_service.Cache.Run.{Call, run}
use fledge_key_value_service.Lookup.Types.{StatusOr-cases, StatusOr, ok, err}
use fledge_key_value_service.Loading.Records.{Options}
use fledge_key_value_service.Loading.Records.Calls.{run-append}
use fledge_key_value_service.Loading.Filenames.{is_snapshot_filename}
use fledge_key_value_service.Loading.Files.{
  FileMetadata, Bucket, Server, is_foreign, load_cache_with_data_from_file, after_load,
  load_snapshots, load_snapshot_files, load_listed_snapshots, load_listed_deltas, load_delta_files,
  init,
}
use fledge_key_value_service.Loading.Files.Loads.{
  file_calls, delta_calls, last_delta, load_file_lem, load_deltas_lem,
}

module _ {ℓ} {U : Type ℓ} (options : Options U) (bucket : Bucket) where
  -- The file is a snapshot for this server's shard.
  unfoldable pub is_own : StatusOr FileMetadata → Bool
  is_own (err e) = false
  is_own (ok metadata) = not (is_foreign options metadata.shard_num)

  unfoldable pub is_own_snapshot : String → Bool
  is_own_snapshot f = if is_snapshot_filename f then is_own (bucket.blob f).metadata else false

  abbrev pub ending_of : StatusOr FileMetadata → String
  ending_of (err e) = ""
  ending_of (ok metadata) = metadata.ending_delta_file

  -- The calls of the first own snapshot among the names, and its last delta file.
  unfoldable pub snapshot_calls : List String → List Call
  unfolding is_own_snapshot is_own
  snapshot_calls [] = []
  snapshot_calls (f ∷ rest) =
      let others = snapshot_calls rest in
      if is_own_snapshot f
      then file_calls options (bucket.blob f) (bucket.blob f).metadata
      else others

  unfoldable pub snapshot_end : List String → String
  unfolding is_own_snapshot is_own
  snapshot_end [] = ""
  snapshot_end (f ∷ rest) =
      let others = snapshot_end rest in
      if is_own_snapshot f then ending_of (bucket.blob f).metadata else others

  load_snapshots_lem :
      (names : List String) (s : Server U) (name : String)
      → (load_snapshots options bucket names s).1 ≡ ok name
      → ((load_snapshots options bucket names s).0.cache ≡ run s.cache (snapshot_calls names))
        × (name ≡ snapshot_end names)
  unfolding load_snapshots snapshot_calls snapshot_end run after_load
  load_snapshots_lem [] s name h = (refl, ground (arith, h))
  load_snapshots_lem (f ∷ rest) s name h = elim (Bool-cases (is_snapshot_filename f)) [
    | inr skip ↦
        let (a, b) = load_snapshots_lem rest s name (rw skip at h) in (rw skip a, rw skip b)
    | inl snapshot ↦ elim (StatusOr-cases (bucket.blob f).metadata) [
      | inr (e, failed) ↦ absurd (ground (arith, rw (snapshot, failed) at h))
      | inl (m, opened) ↦ elim (Bool-cases (is_foreign options m.shard_num)) [
        | inl foreign ↦
            let (a, b) =
              load_snapshots_lem rest s name (rw foreign at (rw (snapshot, opened) at h)) in
            (rw (snapshot, opened) (rw foreign a), rw (snapshot, opened) (rw foreign b))
        | inr own ↦
            let loaded = load_cache_with_data_from_file options bucket f s in
            elim (StatusOr-cases loaded.1) [
              | inr (e, failed) ↦
                  absurd (ground (arith, rw failed at (rw own at (rw (snapshot, opened) at h))))
              | inl (stats, fine) ↦
                  let same : ok m.ending_delta_file ≡ ok name =
                    rw fine at (rw own at (rw (snapshot, opened) at h)) in
                  (
                    rw (snapshot, opened)
                        (rw (own, fine) (rw opened at (load_file_lem options bucket f s).0)),
                    rw (snapshot, opened) (rw own (ground (arith, same))),
                  )
            ]
      ]
    ]
  ]

  listed_deltas_lem :
      (r : StatusOr (List String)) (ending name : String) (s : Server U)
      → (load_listed_deltas options bucket r ending s).1 ≡ ok name
      → (names : List String) × (r ≡ ok names)
        × ((load_listed_deltas options bucket r ending s).0.cache
            ≡ run s.cache (delta_calls options bucket names))
        × (name ≡ last_delta options ending names)
  unfolding load_listed_deltas
  listed_deltas_lem (err e) ending name s h = absurd (ground (arith, h))
  listed_deltas_lem (ok names) ending name s h =
      let (c, d) = load_deltas_lem options bucket names ending name s h in (names, refl, c, d)

  delta_files_lem :
      (r : StatusOr String) (name : String) (s : Server U)
      → (load_delta_files options bucket r s).1 ≡ ok name
      → (ending : String) × (names : List String) × (r ≡ ok ending)
        × (bucket.list_deltas ending ≡ ok names)
        × ((load_delta_files options bucket r s).0.cache
            ≡ run s.cache (delta_calls options bucket names))
        × (name ≡ last_delta options ending names)
  unfolding load_delta_files
  delta_files_lem (err e) name s h = absurd (ground (arith, h))
  delta_files_lem (ok ending) name s h =
      let (names, found, c, d) = listed_deltas_lem (bucket.list_deltas ending) ending name s h in
      (ending, names, refl, found, c, d)

  listed_snapshots_lem :
      (r : StatusOr (List String)) (s : Server U) (ending : String)
      → (load_listed_snapshots options bucket r s).1 ≡ ok ending
      → (snapshots : List String) × (r ≡ ok snapshots)
        × ((load_listed_snapshots options bucket r s).0.cache
            ≡ run s.cache (snapshot_calls (reverse snapshots)))
        × (ending ≡ snapshot_end (reverse snapshots))
  unfolding load_listed_snapshots
  listed_snapshots_lem (err e) s ending h = absurd (ground (arith, h))
  listed_snapshots_lem (ok snapshots) s ending h =
      let (a, b) = load_snapshots_lem (reverse snapshots) s ending h in (snapshots, refl, a, b)

  -- Where Init succeeds, the cache has had the calls of the last snapshot that is for this shard, if
  -- there is one, and then those of all delta files that the bucket lists after the one where that
  -- snapshot ends, in their order; the name it gives is that of the last of these delta files, or of the
  -- one where the snapshot ends.
  pub init_lem :
      (s : Server U) (name : String)
      → (init options bucket s).1 ≡ ok name
      → (snapshots names : List String) × (bucket.list_snapshots ≡ ok snapshots)
        × (bucket.list_deltas (snapshot_end (reverse snapshots)) ≡ ok names)
        × ((init options bucket s).0.cache
            ≡ run s.cache (snapshot_calls (reverse snapshots) ++ delta_calls options bucket names))
        × (name ≡ last_delta options (snapshot_end (reverse snapshots)) names)
  unfolding init load_snapshot_files
  init_lem s name h =
      let first = load_snapshot_files options bucket s in
      let (ending, names, fine, found, c, d) = delta_files_lem first.1 name first.0 h in
      let (snapshots, listed, a, b) = listed_snapshots_lem bucket.list_snapshots s ending fine in
      (
        snapshots,
        names,
        listed,
        subst (λ x. bucket.list_deltas x ≡ ok names) b found,
        c ∙ rw (run-append, a),
        subst (λ x. name ≡ last_delta options x names) b d,
      )
