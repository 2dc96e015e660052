-- ===== src/Tests/Shards.antt =====
-- Lookups of sets over two shards: the first is the cache of Lookup, the second has the key "B".
use fledge_key_value_service.Base.{
  ℕ, zero, suc, ◌<◌, String, ◌≡◌, refl, Bool, true, ◌&&◌, none, some, List, [], ◌∷◌, arith, eqb,
  eq_iff, ◌==◌, if◌then◌else◌,
}
use fledge_key_value_service.Base.Lists.{length, replicate}
use fledge_key_value_service.Base.Maps.{contains, find}
use fledge_key_value_service.Cache.Sets.Members.{is_member}
use fledge_key_value_service.Query.Eval.{holds}
use fledge_key_value_service.Lookup.Types.{StatusOr, ok, keyset_values, InternalLookupResponse}
use fledge_key_value_service.Lookup.Local.{local_lookup}
use fledge_key_value_service.Lookup.Sharded.{ShardedLookup, start, get_key_value_set, run_query}
use fledge_key_value_service.Lookup.Sharded.Buckets.{owner_of}
use fledge_key_value_service.Lookup.Sharded.Sets.{
  shows, ShowsSets, AnswersSets, get_key_value_set_response, run_query_lem,
}
use fledge_key_value_service.Lookup.Sharded.Locals.{local-AnswersSets}
use fledge_key_value_service.Tests.Lookup.{cache, cache-IsValid, emptied, tree, parse}

-- A request that lists a key gets the set of "B".
second : List ℕ → ℕ → StatusOr InternalLookupResponse
second [] padding = ok []
second (_ ∷ _) padding = ok (("B", keyset_values ("z" ∷ [])) ∷ [])

abbrev two_shards : ShardedLookup
two_shards = record {
  local = local_lookup emptied parse cache;
  num_shards = 2;
  current_shard_num = 0;
  hash_function = λ k n. if k == "B" then 1 else 0;
  serialize = λ r. replicate (length r.keys) 1;
  client = λ i. if eqb i 1 then some second else none;
}

abbrev member : String → String → Bool
member k v = if k == "B" then v == "z" else is_member cache k v

only_b :
    (ks : List String)
    → ((k : String) → contains k ks ≡ true → owner_of two_shards k ≡ 1)
    → (padding : ℕ)
    → (r : InternalLookupResponse) × (second (replicate (length ks) 1) padding ≡ ok r)
      × ShowsSets member ks r
unfolding second shows contains find
only_b [] mine padding = ([], refl, (tt, λ k h. refl, λ k v h. absurd (cc)))
only_b (x ∷ xs) mine padding = (
  ("B", keyset_values ("z" ∷ [])) ∷ [],
  refl,
  (
    (refl, tt),
    λ k h. ground (arith, first, eq_iff "B" k, eq_iff x k),
    λ k v h. ground (arith, mine k h, eq_iff k "B", eq_iff "B" k, eq_iff v "z", eq_iff "z" v),
  ),
)
  where
    first : x ≡ "B"
    first = ground (arith, mine x (ground (arith, eq_iff x x)), eq_iff x "B")

second-AnswersSets : AnswersSets two_shards member 1
unfolding start
second-AnswersSets x request mine =
    let (r, call, good) = only_b x.keys mine x.padding in (r, rw (request, call), good)

shards-AnswersSets : (i : ℕ) → i < 2 → AnswersSets two_shards member i
unfolding local_lookup
shards-AnswersSets zero lt =
    local-AnswersSets cache cache-IsValid member two_shards refl (λ k v h. ground arith)
shards-AnswersSets (suc zero) lt = second-AnswersSets
shards-AnswersSets (suc (suc i)) lt = absurd (omega arith)

owned : (k : String) → owner_of two_shards k < 2
owned k = ground arith

get_key_value_set_response_example :
    (r : InternalLookupResponse) × (get_key_value_set two_shards ("A" ∷ "B" ∷ []) ≡ ok r)
    × ((k v : String) → shows (find k r) v ≡ (contains k ("A" ∷ "B" ∷ []) && member k v))
get_key_value_set_response_example =
    get_key_value_set_response two_shards member shards-AnswersSets owned ("A" ∷ "B" ∷ [])

run_query_lem_example :
    (e : List String) × (run_query two_shards parse "A|B" ≡ some (ok e))
    × ((v : String) → contains v e ≡ holds member tree v)
run_query_lem_example =
    run_query_lem two_shards member shards-AnswersSets owned parse "A|B" refl tree refl refl refl
