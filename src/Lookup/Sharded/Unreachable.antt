-- ===== src/Lookup/Sharded/Unreachable.antt =====
-- GetKeyValues of sharded_lookup.cc where a shard has no client.
use fledge_key_value_service.Base.{
  ℕ, suc, ◌+◌, ◌≤◌, ◌<◌, String, ◌≡◌, subst, false, none, List, [], ◌∷◌, arith, eqb, Bool-cases,
  Option-cases, inl, inr, ◌⊎◌,
}
use fledge_key_value_service.Base.Lists.{length}
use fledge_key_value_service.Lookup.Types.{internal, StatusOr, ok, err, InternalLookupResponse}
use fledge_key_value_service.Lookup.Sharded.{
  ShardedLookup, ShardLookupInput, start, get_lookup_futures, process_sharded_keys, get_key_values,
  to_set, shard_keys,
}
use fledge_key_value_service.Lookup.Sharded.Buckets.{length-shard_keys}
use fledge_key_value_service.Lookup.Sharded.Values.{is_empty-to_set}

module _ (s : ShardedLookup) (get_local : List String → StatusOr InternalLookupResponse) where
  start_cases :
      (b : ℕ) (x : ShardLookupInput)
      → (start s get_local b x ≡ err internal)
        ⊎ ((o : StatusOr InternalLookupResponse) × (start s get_local b x ≡ ok o))
  unfolding start
  start_cases b x = elim (Bool-cases (eqb b s.current_shard_num)) [
    | inl here ↦ inr (get_local x.keys, rw here)
    | inr there ↦ elim (Option-cases (s.client b)) [
      | inl e ↦ inl (rw there (rw e))
      | inr (c, e) ↦ inr (c x.serialized_request x.padding, rw there (rw e))
    ]
  ]

  not_started :
      (i : ℕ) (x : ShardLookupInput) (o : StatusOr InternalLookupResponse)
      → eqb i s.current_shard_num ≡ false
      → s.client i ≡ none
      → ¬ (start s get_local i x ≡ ok o)
  unfolding start
  not_started i x o other gone e = ground (arith, e, other, gone)

  missing_client :
      (i b : ℕ) (xs : List ShardLookupInput)
      → b ≤ i
      → i < b + length xs
      → eqb i s.current_shard_num ≡ false
      → s.client i ≡ none
      → get_lookup_futures s get_local b xs ≡ err internal
  unfolding get_lookup_futures
  missing_client i b [] le lt other gone = absurd (omega arith)
  missing_client i b (x ∷ xs) le lt other gone = elim (start_cases b x) [
    | inl e ↦ rw e
    | inr (o, e) ↦ elim (Bool-cases (eqb b i)) [
      | inl here ↦ absurd (
          not_started i x o other gone (subst (λ j. start s get_local j x ≡ ok o) (ground arith) e))
      | inr there ↦ rw e (rw (missing_client i (suc b) xs (ground arith) (omega arith) other gone))
    ]
  ]

-- Where another shard has no client, the lookup of any list of keys that is not empty fails with
-- INTERNAL.
pub get_key_values_unreachable :
    (s : ShardedLookup) (i : ℕ) (k : String) (keys : List String)
    → i < s.num_shards
    → eqb i s.current_shard_num ≡ false
    → s.client i ≡ none
    → get_key_values s (k ∷ keys) ≡ err internal
unfolding get_key_values process_sharded_keys
get_key_values_unreachable s i k keys lt other gone =
    let ks = to_set (k ∷ keys) [] in
    rw (is_empty-to_set k keys) (
      rw (
        missing_client s s.local.get_key_values i 0 (shard_keys s ks false) (omega arith)
          (omega (arith, length-shard_keys s ks false)) other gone))
