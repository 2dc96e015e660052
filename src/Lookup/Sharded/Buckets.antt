-- ===== src/Lookup/Sharded/Buckets.antt =====
-- ShardKeys of sharded_lookup.cc: each shard's request lists exactly the keys that hash to it.
use fledge_key_value_service.Base.{
  ℕ, zero, suc, ◌+◌, ◌<◌, String, ◌≡◌, refl, ap, ◌∙◌, Bool, false, ◌-◌, ◌&&◌, ◌||◌, List, [], ◌∷◌,
  ◌++◌, map, arith, eqb, ◌==◌, eq_iff,
}
use fledge_key_value_service.Base.Lists.{
  length, replicate, All, AllFrom, length-map, length-replicate,
}
use fledge_key_value_service.Base.Maps.{contains, set_insert, contains-set_insert}
use fledge_key_value_service.Lookup.Sharded.{
  ShardedLookup, ShardLookupInput, empty_input, to_set, add_key, add_keys, bucket_keys,
  serialize_sharded_requests, compute_padding, max_length, shard_keys,
}

pub contains-to_set :
    (k : String) (ks s : List String) → contains k (to_set ks s) ≡ (contains k ks || contains k s)
unfolding to_set contains
contains-to_set k [] s = refl
contains-to_set k (x ∷ ks) s =
    ground (arith, contains-to_set k ks (set_insert x s), contains-set_insert x k s)

pub contains-append :
    (k : String) (xs ys : List String) → contains k (xs ++ ys) ≡ (contains k xs || contains k ys)
unfolding contains
contains-append k [] ys = refl
contains-append k (x ∷ xs) ys = ground (arith, contains-append k xs ys)

-- The input of shard `i` lists the keys seen so far that belong to it.
abbrev pub IsBucket : (String → ℕ) → (String → Bool) → ℕ → ShardLookupInput → Type 0
IsBucket owner seen i x = (k : String) → contains k x.keys ≡ (seen k && eqb (owner k) i)

abbrev or_key : (String → Bool) → String → String → Bool
or_key seen key k = seen k || key == k

other_buckets :
    (owner : String → ℕ) (seen : String → Bool) (key : String) (b : ℕ) (xs : List ShardLookupInput)
    → owner key < b
    → AllFrom (IsBucket owner seen) b xs
    → AllFrom (IsBucket owner (or_key seen key)) b xs
other_buckets owner seen key b [] h p = tt
other_buckets owner seen key b (x ∷ xs) h p = (
  λ k. ground (arith, p.0 k, eq_iff key k),
  other_buckets owner seen key (suc b) xs (omega arith) p.1,
)

add_key_buckets :
    (owner : String → ℕ) (seen : String → Bool) (key : String) (b i : ℕ)
    (xs : List ShardLookupInput)
    → owner key ≡ b + i
    → AllFrom (IsBucket owner seen) b xs
    → AllFrom (IsBucket owner (or_key seen key)) b (add_key i key xs)
unfolding add_key contains
add_key_buckets owner seen key b i [] h p = tt
add_key_buckets owner seen key b zero (x ∷ xs) h p = (
  λ k. ground (arith, p.0 k, eq_iff key k, contains-append k x.keys (key ∷ [])),
  other_buckets owner seen key (suc b) xs (omega arith) p.1,
)
add_key_buckets owner seen key b (suc i) (x ∷ xs) h p = (
  λ k. ground (arith, p.0 k, eq_iff key k),
  add_key_buckets owner seen key (suc b) i xs (omega arith) p.1,
)

same_buckets :
    (owner : String → ℕ) (f g : String → Bool) (b : ℕ) (xs : List ShardLookupInput)
    → ((k : String) → f k ≡ g k)
    → AllFrom (IsBucket owner f) b xs
    → AllFrom (IsBucket owner g) b xs
same_buckets owner f g b [] h p = tt
same_buckets owner f g b (x ∷ xs) h p =
    (λ k. ground (arith, p.0 k, h k), same_buckets owner f g (suc b) xs h p.1)

add_keys_buckets :
    (owner : String → ℕ) (seen : String → Bool) (ks : List String) (xs : List ShardLookupInput)
    → AllFrom (IsBucket owner seen) 0 xs
    → AllFrom (IsBucket owner (λ k. seen k || contains k ks)) 0 (add_keys owner ks xs)
unfolding add_keys contains
add_keys_buckets owner seen [] xs p =
    same_buckets owner seen (λ k. seen k || false) 0 xs (λ k. ground arith) p
add_keys_buckets owner seen (key ∷ ks) xs p =
    same_buckets owner (λ k. or_key seen key k || contains k ks)
      (λ k. seen k || (key == k || contains k ks)) 0
      (add_keys owner ks (add_key (owner key) key xs)) (λ k. ground arith)
      (add_keys_buckets owner (or_key seen key) ks (add_key (owner key) key xs)
        (add_key_buckets owner seen key 0 (owner key) xs (omega arith) p))

empty_buckets :
    (owner : String → ℕ) (b n : ℕ)
    → AllFrom (IsBucket owner (λ _. false)) b (replicate n empty_input)
unfolding contains
empty_buckets owner b zero = tt
empty_buckets owner b (suc n) = (λ k. refl, empty_buckets owner (suc b) n)

length-add_key :
    (i : ℕ) (k : String) (xs : List ShardLookupInput) → length (add_key i k xs) ≡ length xs
unfolding add_key
length-add_key i k [] = refl
length-add_key zero k (x ∷ xs) = refl
length-add_key (suc i) k (x ∷ xs) = omega (arith, length-add_key i k xs)

length-add_keys :
    (owner : String → ℕ) (ks : List String) (xs : List ShardLookupInput)
    → length (add_keys owner ks xs) ≡ length xs
unfolding add_keys
length-add_keys owner [] xs = refl
length-add_keys owner (k ∷ ks) xs =
    ground (arith, length-add_keys owner ks (add_key (owner k) k xs), length-add_key (owner k) k xs)

map_buckets :
    (owner : String → ℕ) (seen : String → Bool) (f : ShardLookupInput → ShardLookupInput) (b : ℕ)
    (xs : List ShardLookupInput)
    → ((x : ShardLookupInput) → (f x).keys ≡ x.keys)
    → AllFrom (IsBucket owner seen) b xs
    → AllFrom (IsBucket owner seen) b (map f xs)
map_buckets owner seen f b [] h p = tt
map_buckets owner seen f b (x ∷ xs) h p =
    (λ k. ap (contains k) (h x) ∙ p.0 k, map_buckets owner seen f (suc b) xs h p.1)

module _ (s : ShardedLookup) where
  abbrev pub owner_of : String → ℕ
  owner_of k = s.hash_function k s.num_shards

  module _ (ks : List String) (sets : Bool) where
    pub shard_keys_buckets :
        AllFrom (IsBucket owner_of (λ k. contains k ks)) 0 (shard_keys s ks sets)
    unfolding shard_keys bucket_keys serialize_sharded_requests compute_padding
    shard_keys_buckets =
        map_buckets owner_of (λ k. contains k ks) _ 0 _ (λ x. refl)
          (map_buckets owner_of (λ k. contains k ks) _ 0 _ (λ x. refl)
            (add_keys_buckets owner_of (λ _. false) ks (replicate s.num_shards empty_input)
              (empty_buckets owner_of 0 s.num_shards)))

    pub length-shard_keys : length (shard_keys s ks sets) ≡ s.num_shards
    unfolding shard_keys bucket_keys serialize_sharded_requests compute_padding
    length-shard_keys = simp (
      length-map,
      length-add_keys owner_of ks (replicate s.num_shards empty_input),
      length-replicate s.num_shards empty_input,
    )

-- The input's request asks for its keys: for their sets, or for their values.
abbrev pub IsRequest : ShardedLookup → Bool → ShardLookupInput → Type 0
IsRequest s sets x =
    x.serialized_request ≡ s.serialize (record { keys = x.keys; lookup_sets = sets })

pub requests_of :
    (s : ShardedLookup) (sets : Bool) (ks : List String)
    → All (IsRequest s sets) (shard_keys s ks sets)
unfolding shard_keys compute_padding serialize_sharded_requests
requests_of s sets ks = go (bucket_keys s ks)
  where
    m : ℕ
    m = max_length (serialize_sharded_requests s sets (bucket_keys s ks))

    go :
        (xs : List ShardLookupInput)
        → All (IsRequest s sets) (
            map
              (λ (x : ShardLookupInput). record x { padding = m - length x.serialized_request })
              (serialize_sharded_requests s sets xs))
    go [] = tt
    go (x ∷ xs) = (refl, go xs)
