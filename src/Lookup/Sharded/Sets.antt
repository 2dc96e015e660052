-- ===== src/Lookup/Sharded/Sets.antt =====
-- GetKeyValueSet and RunQuery of sharded_lookup.cc: what the shards hold, put together.
use fledge_key_value_service.Base.{
  ℕ, suc, ◌+◌, ◌≤◌, ◌<◌, String, ◌≡◌, refl, ◌∙◌, Bool, true, false, ◌&&◌, Option, none, some, List,
  [], ◌∷◌, arith, leb, if◌then◌else◌, ◌==◌, eq_iff, Bool-cases, inl, inr,
}
use fledge_key_value_service.Base.Lists.{length, All, AllFrom}
use fledge_key_value_service.Base.Maps.{
  Map, find, contains, insert_or_assign, find-insert_or_assign, IsDistinct,
}
use fledge_key_value_service.Cache.Sets.{is_empty}
use fledge_key_value_service.Query.Ast.{Node}
use fledge_key_value_service.Query.Eval.{holds, member_of, eval_lem}
use fledge_key_value_service.Query.Keys.{keys_lem}
use fledge_key_value_service.Query.Driver.{evaluated, lookup, get_result}
use fledge_key_value_service.Lookup.Types.{
  StatusOr, ok, SingleLookupResult, value, status, keyset_values, InternalLookupResponse,
}
use fledge_key_value_service.Lookup.Local.{Parsed, to_response}
use fledge_key_value_service.Lookup.Local.Queries.{holds_same}
use fledge_key_value_service.Lookup.Sharded.{
  ShardedLookup, ShardLookupInput, shard_keys, start, get_lookup_futures, to_set,
  get_local_key_values_set, collect_key_set, collect_key_sets, collect_responses,
  get_sharded_key_value_set, keyset_of, view_of, run_parsed, run_query, single_key_set,
  fill_key_sets, get_key_value_set,
}
use fledge_key_value_service.Lookup.Sharded.Buckets.{
  IsBucket, IsRequest, requests_of, owner_of, contains-to_set, shard_keys_buckets,
  length-shard_keys,
}

-- The entry says that the value is in the key's set.
unfoldable pub shows : Option SingleLookupResult → String → Bool
shows none v = false
shows (some (value _)) v = false
shows (some (status _)) v = false
shows (some (keyset_values vs)) v = contains v vs

-- The response has entries for the listed keys only, one for each, and shows their sets.
abbrev pub ShowsSets : (String → String → Bool) → List String → InternalLookupResponse → Type 0
ShowsSets member ks r =
    IsDistinct r
    × ((k : String) → contains k ks ≡ false → find k r ≡ none)
    × ((k v : String) → contains k ks ≡ true → shows (find k r) v ≡ member k v)

-- The shard answers every request for sets of its own keys, whatever the padding.
abbrev pub AnswersSets : ShardedLookup → (String → String → Bool) → ℕ → Type 0
AnswersSets s member i =
    (x : ShardLookupInput)
    → x.serialized_request ≡ s.serialize (record { keys = x.keys; lookup_sets = true })
    → ((k : String) → contains k x.keys ≡ true → owner_of s k ≡ i)
    → (r : InternalLookupResponse) × (start s (get_local_key_values_set s) i x ≡ ok (ok r))
      × ShowsSets member x.keys r

-- The set of a key after an entry for it has been collected.
collected : Option SingleLookupResult → Option (List String) → Option (List String)
collected none before = before
collected (some (value _)) before = before
collected (some (status _)) before = before
collected (some (keyset_values vs)) before = some (to_set vs [])

find-collect_key_set :
    (j : String) (x : SingleLookupResult) (m : Map (List String)) (k : String)
    → find k (collect_key_set j x m) ≡ (if j == k then collected (some x) (find k m) else find k m)
unfolding collect_key_set collected
find-collect_key_set j (value _) m k = ground arith
find-collect_key_set j (status _) m k = ground arith
find-collect_key_set j (keyset_values vs) m k = find-insert_or_assign j k (to_set vs []) m

find-collect_key_sets :
    (r : InternalLookupResponse) (m : Map (List String)) (k : String)
    → IsDistinct r
    → find k (collect_key_sets r m) ≡ collected (find k r) (find k m)
unfolding collect_key_sets find collected
find-collect_key_sets [] m k d = refl
find-collect_key_sets ((j, x) ∷ r) m k d = ground (
  arith,
  eq_iff j k,
  d,
  find-collect_key_sets r (collect_key_set j x m) k d.1,
  find-collect_key_set j x m k,
)

contains-view_of :
    (o : Option (List String)) (v : String)
    → contains v (view_of o) ≡ shows (some (single_key_set o)) v
unfolding shows contains view_of
contains-view_of none v = refl
contains-view_of (some vs) v = contains-to_set v vs [] ∙ ground arith

contains-keyset_of :
    (m : Map (List String)) (k v : String)
    → contains v (keyset_of m k) ≡ shows (some (single_key_set (find k m))) v
unfolding keyset_of
contains-keyset_of m k v = contains-view_of (find k m) v

shows-collected :
    (o : Option SingleLookupResult) (v : String)
    → shows (some (single_key_set (collected o none))) v ≡ shows o v
unfolding shows collected contains
shows-collected none v = refl
shows-collected (some (value _)) v = refl
shows-collected (some (status _)) v = refl
shows-collected (some (keyset_values vs)) v = contains-to_set v vs [] ∙ ground arith

module _ (member : String → String → Bool) (ks : List String) (r : InternalLookupResponse)
    (km : Map (List String)) (good : ShowsSets member ks r) where
  find-unlisted : (k : String) → contains k ks ≡ false → find k (collect_key_sets r km) ≡ find k km
  unfolding collected
  find-unlisted k missing =
      let (distinct, others, shown) = good in
      find-collect_key_sets r km k distinct ∙ rw (others k missing)

  contains-collect :
      (k v : String)
      → (contains k ks ≡ true → find k km ≡ none)
      → contains v (keyset_of (collect_key_sets r km) k)
        ≡ (if contains k ks then member k v else contains v (keyset_of km k))
  unfolding keyset_of
  contains-collect k v fresh = elim (Bool-cases (contains k ks)) [
    | inl listed ↦
        let (distinct, others, shown) = good in
        contains-keyset_of (collect_key_sets r km) k v
        ∙ (rw (find-collect_key_sets r km k distinct, fresh listed)
            (shows-collected (find k r) v ∙ (shown k v listed ∙ rw listed)))
    | inr missing ↦ rw (find-unlisted k missing, missing)
  ]

find-fill_key_sets :
    (ks : List String) (m : Map (List String)) (r : InternalLookupResponse) (k : String)
    → find k (fill_key_sets ks m r)
      ≡ (if contains k ks then some (single_key_set (find k m)) else find k r)
unfolding fill_key_sets contains
find-fill_key_sets [] m r k = refl
find-fill_key_sets (j ∷ ks) m r k = ground (
  arith,
  eq_iff j k,
  find-fill_key_sets ks m (insert_or_assign j (single_key_set (find j m)) r) k,
  find-insert_or_assign j k (single_key_set (find j m)) r,
)

module _ (s : ShardedLookup) (member : String → String → Bool)
    (answers : (i : ℕ) → i < s.num_shards → AnswersSets s member i)
    (owned : (k : String) → owner_of s k < s.num_shards) where
  -- The sets of the keys of the shards from `b` on are added to those collected so far.
  Collects : (String → Bool) → ℕ → List ShardLookupInput → Map (List String) → Type 0
  Collects seen b xs km =
      (os : List (StatusOr InternalLookupResponse)) × (m : Map (List String)) × (get_lookup_futures
          s (get_local_key_values_set s) b xs
        ≡ ok os)
      × (collect_responses os km ≡ ok m)
      × ((k v : String)
          → contains v (keyset_of m k)
            ≡ (if seen k && leb b (owner_of s k) then member k v else contains v (keyset_of km k)))

  collects :
      (seen : String → Bool) (b : ℕ) (xs : List ShardLookupInput) (km : Map (List String))
      → b + length xs ≡ s.num_shards
      → AllFrom (IsBucket (owner_of s) seen) b xs
      → All (IsRequest s true) xs
      → ((k : String) → b ≤ owner_of s k → find k km ≡ none)
      → Collects seen b xs km
  unfolding Collects get_lookup_futures collect_responses
  collects seen b [] km e p q fresh = ([], km, refl, refl, λ k v. ground (arith, owned k))
  collects seen b (x ∷ xs) km e p q fresh =
      let (r, call, good) = answers b (omega arith) x q.0 (λ k h. ground (arith, p.0 k)) in
      let (os, m, futures, done, sets) =
        collects seen (suc b) xs (collect_key_sets r km) (omega arith) p.1 q.1 (λ k le.
          find-unlisted member x.keys r km good k (ground (arith, p.0 k))
          ∙ fresh k (omega arith)) in
      (
        ok r ∷ os,
        m,
        rw (call, futures),
        done,
        λ k v.
            sets k v
            ∙ ground (
              arith,
              p.0 k,
              contains-collect member x.keys r km good k v (λ h. fresh k (ground (arith, p.0 k))),
            ),
      )

  -- GetShardedKeyValueSet
  get_sharded_lem :
      (ks : List String)
      → (m : Map (List String)) × (get_sharded_key_value_set s ks ≡ ok m)
        × ((k v : String) → contains v (keyset_of m k) ≡ (contains k ks && member k v))
  unfolding get_sharded_key_value_set Collects find keyset_of view_of contains
  get_sharded_lem ks =
      let (os, m, futures, done, sets) =
        collects (λ k. contains k ks) 0 (shard_keys s ks true) []
          (omega (arith, length-shard_keys s ks true)) (shard_keys_buckets s ks true)
          (requests_of s true ks) (λ k _. refl) in
      (m, rw futures (rw done), λ k v. sets k v ∙ ground arith)

  -- Where every key hashes to a shard, and every shard answers its requests for sets with `member`, the
  -- lookup of any key set succeeds, and its response shows for each requested key the values that
  -- `member` gives it, whichever shard holds them, and none for other keys.
  pub get_key_value_set_response :
      (ks : List String)
      → (r : InternalLookupResponse) × (get_key_value_set s ks ≡ ok r)
        × ((k v : String) → shows (find k r) v ≡ (contains k ks && member k v))
  unfolding get_key_value_set is_empty shows find contains
  get_key_value_set_response [] = ([], refl, λ k v. refl)
  get_key_value_set_response (x ∷ xs) =
      let (m, done, sets) = get_sharded_lem (x ∷ xs) in
      (
        fill_key_sets (x ∷ xs) m [],
        rw done,
        λ k v.
            ground (arith, find-fill_key_sets (x ∷ xs) m [] k, contains-keyset_of m k v, sets k v),
      )

  module _ (parse : String → Parsed) (query : String) (given : (query == "") ≡ false) where
    -- Where every key hashes to a shard, and every shard answers its requests for sets with `member`, a
    -- query that is not empty and that the parser accepts with a tree and no error is answered with
    -- the set of exactly those values that the tree denotes over `member`.
    pub run_query_lem :
        (n : Node)
        → (parse query).failed ≡ false
        → (parse query).error ≡ none
        → (parse query).ast ≡ some n
        → (e : List String) × (run_query s parse query ≡ some (ok e))
          × ((v : String) → contains v e ≡ holds member n v)
    unfolding run_query run_parsed to_response get_result evaluated lookup
    run_query_lem n fine clean tree =
        let (ks, fetched, in_keys) = keys_lem n in
        let (m, done, sets) = get_sharded_lem ks in
        let (e, evals, element) = eval_lem (keyset_of m) n in
        (
          e,
          rw (given, fine, tree)
              (rw (fetched, run_parsed) (rw done (rw clean (rw (evals, evaluated))))),
          λ v.
              element v
              ∙ holds_same (member_of (keyset_of m)) member n v
                  (λ k p. ground (arith, sets k v, in_keys k)),
        )
