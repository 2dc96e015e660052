-- ===== src/Lookup/Sharded/Padding.antt =====
-- ComputePadding of sharded_lookup.cc with Pad of string_padder.cc: what leaves for the shards.
use fledge_key_value_service.Base.{
  ℕ, ◌+◌, ◌-◌, ◌≤◌, ◌<◌, ◌^◌, String, ◌≡◌, refl, Bool, List, [], ◌∷◌, map, arith,
}
use fledge_key_value_service.Base.Lists.{length, All}
use fledge_key_value_service.Lookup.Padder.{DataCodec, pad, length-pad}
use fledge_key_value_service.Lookup.Sharded.{
  ShardedLookup, ShardLookupInput, bucket_keys, serialize_sharded_requests, compute_padding,
  max_length, shard_keys,
}

-- The serialised request for the input's keys is no longer than that.
abbrev pub IsShort : ShardedLookup → Bool → ℕ → ShardLookupInput → Type 0
IsShort s sets limit x = length (s.serialize (record { keys = x.keys; lookup_sets = sets })) ≤ limit

-- The input's request is the serialisation of its keys, and its padded form has the length `m`.
abbrev pub IsPadded : DataCodec → ShardedLookup → Bool → ℕ → ShardLookupInput → Type 0
IsPadded codec s sets m x =
    (x.serialized_request ≡ s.serialize (record { keys = x.keys; lookup_sets = sets }))
    × (length (pad codec x.serialized_request x.padding) ≡ m)

module _ (codec : DataCodec) (s : ShardedLookup) (sets : Bool) where
  padded :
      (m : ℕ) (xs : List ShardLookupInput)
      → max_length (serialize_sharded_requests s sets xs) ≤ m
      → All (IsPadded codec s sets (4 + m)) (
          map
            (λ (x : ShardLookupInput). record x { padding = m - length x.serialized_request })
            (serialize_sharded_requests s sets xs))
  unfolding serialize_sharded_requests max_length
  padded m [] h = tt
  padded m (x ∷ xs) h =
      let request = s.serialize (record { keys = x.keys; lookup_sets = sets }) in
      (
        (refl, omega (arith, length-pad codec request (m - length request))),
        padded m xs (omega arith),
      )

  max_length-serialize :
      (m : ℕ) (xs : List ShardLookupInput)
      → All (IsShort s sets m) xs
      → max_length (serialize_sharded_requests s sets xs) ≤ m
  unfolding serialize_sharded_requests max_length
  max_length-serialize m [] h = omega arith
  max_length-serialize m (x ∷ xs) h = omega (arith, h.0, max_length-serialize m xs h.1)

  -- Where a limit bounds the size of the serialised request for the keys of each shard, and fits an int
  -- with the size that is written before it, every shard's request is the serialisation of its keys,
  -- and after padding all requests have one length, which fits an int.
  pub shard_keys-IsPadded :
      (keys : List String) (limit : ℕ)
      → All (IsShort s sets limit) (bucket_keys s keys)
      → 4 + limit < 2 ^ 31
      → (m : ℕ) × (m < 2 ^ 31) × All (IsPadded codec s sets m) (shard_keys s keys sets)
  unfolding shard_keys compute_padding
  shard_keys-IsPadded keys limit h fits =
      let inputs = bucket_keys s keys in
      let m = max_length (serialize_sharded_requests s sets inputs) in
      (4 + m, omega (arith, max_length-serialize limit inputs h), padded m inputs (omega arith))
