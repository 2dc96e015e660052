-- ===== src/Lookup/Sharded/Values.antt =====
-- GetKeyValues of sharded_lookup.cc: each key is answered by the shard that owns it.
use fledge_key_value_service.Base.{
  ℕ, suc, ◌+◌, ◌≤◌, ◌<◌, String, ◌≡◌, refl, sym, ap, subst, ◌∙◌, Bool, true, false, ◌&&◌, Option,
  none, some, List, [], ◌∷◌, arith, eqb, leb, eq_iff, if◌then◌else◌, Bool-cases, Option-cases, inl,
  inr, ◌⊎◌,
}
use fledge_key_value_service.Base.Lists.{length, All, AllFrom}
use fledge_key_value_service.Base.Maps.{find, contains, insert_or_assign, find-insert_or_assign}
use fledge_key_value_service.Cache.Sets.{is_empty}
use fledge_key_value_service.Lookup.Types.{
  internal, not_found, StatusOr, ok, err, SingleLookupResult, status, InternalLookupResponse,
}
use fledge_key_value_service.Lookup.Sharded.{
  ShardedLookup, ShardLookupInput, Client, or_not_found, start, get_lookup_futures, update_response,
  set_request_failed, process_response, process_responses, process_sharded_keys, get_key_values,
  to_set, shard_keys,
}
use fledge_key_value_service.Lookup.Sharded.Buckets.{
  IsBucket, IsRequest, requests_of, owner_of, contains-to_set, shard_keys_buckets,
  length-shard_keys,
}

-- What a shard's response says of one of its keys: a shard that fails, fails for its keys only.
unfoldable pub answer : String → StatusOr InternalLookupResponse → SingleLookupResult
answer k (err e) = status internal
answer k (ok kv_pairs) = elim (find k kv_pairs) [ none ↦ status not_found | some r ↦ r ]

or_not_found_lem :
    (found : Option SingleLookupResult)
    → or_not_found found ≡ elim found [ none ↦ status not_found | some r ↦ r ]
or_not_found_lem none = refl
or_not_found_lem (some r) = refl

find-update_response :
    (ks : List String) (kv_pairs r : InternalLookupResponse) (k : String)
    → find k (update_response ks kv_pairs r)
      ≡ (if contains k ks then some (or_not_found (find k kv_pairs)) else find k r)
unfolding update_response contains
find-update_response [] kv_pairs r k = refl
find-update_response (j ∷ ks) kv_pairs r k = ground (
  arith,
  eq_iff j k,
  find-update_response ks kv_pairs (insert_or_assign j (or_not_found (find j kv_pairs)) r) k,
  find-insert_or_assign j k (or_not_found (find j kv_pairs)) r,
)

find-set_request_failed :
    (ks : List String) (r : InternalLookupResponse) (k : String)
    → find k (set_request_failed ks r)
      ≡ (if contains k ks then some (status internal) else find k r)
unfolding set_request_failed contains
find-set_request_failed [] r k = refl
find-set_request_failed (j ∷ ks) r k = ground (
  arith,
  eq_iff j k,
  find-set_request_failed ks (insert_or_assign j (status internal) r) k,
  find-insert_or_assign j k (status internal) r,
)

find-process_response :
    (x : ShardLookupInput) (o : StatusOr InternalLookupResponse) (r : InternalLookupResponse)
    (k : String)
    → find k (process_response x o r) ≡ (if contains k x.keys then some (answer k o) else find k r)
unfolding process_response answer
find-process_response x (err e) r k = find-set_request_failed x.keys r k
find-process_response x (ok kv_pairs) r k =
    find-update_response x.keys kv_pairs r k
    ∙ ap (λ a. if contains k x.keys then some a else find k r) (or_not_found_lem (find k kv_pairs))

-- The responses of the shards from `b` on, one for each input.
abbrev pub AreResponses :
    ShardedLookup
    → (List String → StatusOr InternalLookupResponse)
    → ℕ
    → List ShardLookupInput
    → List (StatusOr InternalLookupResponse)
    → Type 0
AreResponses s get_local b [] [] = Unit
AreResponses s get_local b (x ∷ xs) (o ∷ os) =
    (start s get_local b x ≡ ok o) × AreResponses s get_local (suc b) xs os
AreResponses s get_local b _ _ = ⊥

-- Every shard but the current one has a client.
abbrev pub AreReachable : ShardedLookup → Type 0
AreReachable s =
    (i : ℕ)
    → i < s.num_shards
    → eqb i s.current_shard_num ≡ false
    → (c : Client) × (s.client i ≡ some c)

module _ (s : ShardedLookup) (get_local : List String → StatusOr InternalLookupResponse) where
  started :
      (b : ℕ) (x : ShardLookupInput)
      → b < s.num_shards
      → AreReachable s
      → (o : StatusOr InternalLookupResponse) × (start s get_local b x ≡ ok o)
  unfolding start
  started b x lt h = elim (Bool-cases (eqb b s.current_shard_num)) [
    | inl here ↦ (get_local x.keys, rw here)
    | inr there ↦ let (c, e) = h b lt there in (c x.serialized_request x.padding, rw there (rw e))
  ]

  pub responses_of :
      (b : ℕ) (xs : List ShardLookupInput)
      → b + length xs ≡ s.num_shards
      → AreReachable s
      → (os : List (StatusOr InternalLookupResponse)) × (get_lookup_futures s get_local b xs
          ≡ ok os)
        × AreResponses s get_local b xs os
  unfolding get_lookup_futures
  responses_of b [] e h = ([], refl, tt)
  responses_of b (x ∷ xs) e h =
      let (o, p) = started b x (omega arith) h in
      let (os, q, qs) = responses_of (suc b) xs (omega arith) h in (o ∷ os, rw (p, q), (p, qs))

module _ (s : ShardedLookup) (get_local : List String → StatusOr InternalLookupResponse)
    (seen : String → Bool) (k : String) where
  find_before :
      (b : ℕ) (xs : List ShardLookupInput) (os : List (StatusOr InternalLookupResponse))
      (r : InternalLookupResponse)
      → AllFrom (IsBucket (owner_of s) seen) b xs
      → AreResponses s get_local b xs os
      → (seen k && leb b (owner_of s k)) ≡ false
      → find k (process_responses xs os r) ≡ find k r
  unfolding process_responses
  find_before b [] [] r p q h = refl
  find_before b (x ∷ xs) (o ∷ os) r p q h =
      find_before (suc b) xs os (process_response x o r) p.1 q.1 (ground arith)
      ∙ ground (arith, find-process_response x o r k, p.0 k)
  find_before b [] (o ∷ os) r p q h = absurd q
  find_before b (x ∷ xs) [] r p q h = absurd q

  -- The input of the key's shard, the response of that shard to it, and the entry of the key after the
  -- entry `before`.
  abbrev Located : Option SingleLookupResult → Option SingleLookupResult → Type 0
  Located before found =
      (x : ShardLookupInput) × (o : StatusOr InternalLookupResponse) × IsBucket (owner_of s) seen
        (owner_of s k) x
      × IsRequest s false x
      × (start s get_local (owner_of s k) x ≡ ok o)
      × (found ≡ (if seen k then some (answer k o) else before))

  find_at :
      (b : ℕ) (xs : List ShardLookupInput) (os : List (StatusOr InternalLookupResponse))
      (r : InternalLookupResponse)
      → AllFrom (IsBucket (owner_of s) seen) b xs
      → All (IsRequest s false) xs
      → AreResponses s get_local b xs os
      → b ≤ owner_of s k
      → owner_of s k < b + length xs
      → Located (find k r) (find k (process_responses xs os r))
  unfolding process_responses
  find_at b [] [] r p a q le lt = absurd (omega arith)
  find_at b (x ∷ xs) (o ∷ os) r p a q le lt = elim (Bool-cases (eqb (owner_of s k) b)) [
    | inl here ↦
        let e : b ≡ owner_of s k = ground arith in
        (
          x,
          o,
          subst (λ i. IsBucket (owner_of s) seen i x) e p.0,
          a.0,
          subst (λ i. start s get_local i x ≡ ok o) e q.0,
          find_before (suc b) xs os (process_response x o r) p.1 q.1 (ground arith)
              ∙ ground (arith, find-process_response x o r k, p.0 k),
        )
    | inr there ↦
        let (y, w, bucket, request, call, e) =
          find_at (suc b) xs os (process_response x o r) p.1 a.1 q.1 (ground arith) (omega arith) in
        (
          y,
          w,
          bucket,
          request,
          call,
          e ∙ ground (arith, find-process_response x o r k, p.0 k, there),
        )
  ]
  find_at b [] (o ∷ os) r p a q le lt = absurd q
  find_at b (x ∷ xs) [] r p a q le lt = absurd q

-- The shard `i` gives `o` for the keys: the current shard what its own lookup says of them, and another
-- one what its client says of the serialised request for the values of the keys, padded.
abbrev pub Responds : ShardedLookup → ℕ → List String → StatusOr InternalLookupResponse → Type 0
Responds s i ks o =
    ((i ≡ s.current_shard_num) × (o ≡ s.local.get_key_values ks))
    ⊎ ((c : Client) × (padding : ℕ) × (eqb i s.current_shard_num ≡ false)
        × (s.client i ≡ some c)
        × (o ≡ c (s.serialize (record { keys = ks; lookup_sets = false })) padding))

ok-injective : {A : Type 0} {a b : A} → ok a ≡ ok b → a ≡ b
ok-injective e = cc e

start-Responds :
    (s : ShardedLookup) (i : ℕ) (x : ShardLookupInput) (o : StatusOr InternalLookupResponse)
    → IsRequest s false x
    → start s s.local.get_key_values i x ≡ ok o
    → Responds s i x.keys o
unfolding start
start-Responds s i x o request call = elim (Bool-cases (eqb i s.current_shard_num)) [
  | inl here ↦ inl (ground arith, ok-injective (sym call ∙ rw here))
  | inr there ↦ elim (Option-cases (s.client i)) [
    | inl e ↦ absurd (ground (arith, e, there, call))
    | inr (c, e) ↦ inr (
      c,
      x.padding,
      there,
      e,
      ok-injective (sym call ∙ rw there (rw e)) ∙ ap (λ r. c r x.padding) request,
    )
  ]
]

module _ (s : ShardedLookup) (seen : String → Bool) (k : String) where
  -- The keys that are asked for at the key's shard, its response to them, and the entry of the key after
  -- the entry `before`.
  abbrev pub Answered : Option SingleLookupResult → Option SingleLookupResult → Type 0
  Answered before found =
      (ks : List String) × (o : StatusOr InternalLookupResponse) × ((j : String)
        → contains j ks ≡ (seen j && eqb (owner_of s j) (owner_of s k)))
      × Responds s (owner_of s k) ks o
      × (found ≡ (if seen k then some (answer k o) else before))

pub is_empty-to_set : (k : String) (keys : List String) → is_empty (to_set (k ∷ keys) []) ≡ false
unfolding contains
is_empty-to_set k keys =
    not_empty (to_set (k ∷ keys) []) (ground (arith, contains-to_set k (k ∷ keys) [], eq_iff k k))
  where
    not_empty : (ks : List String) → contains k ks ≡ true → is_empty ks ≡ false
    not_empty [] h = cc
    not_empty (x ∷ xs) h = unfold is_empty in refl

module _ (s : ShardedLookup) (reachable : AreReachable s) where
  -- With a client for every other shard the lookup of a list of keys that is not empty succeeds. For a
  -- key that hashes to an existing shard, that shard is asked for the values of exactly those keys of the
  -- list which hash to it: the current shard by its own lookup, and another one by sending its client
  -- the serialised request that has these keys and does not ask for sets, with some padding. If the key
  -- is in the list, the response has for it its entry in what that shard answers, the status NOT_FOUND
  -- if there is none, or INTERNAL if the shard failed. If it is not in the list, it is not in the
  -- response.
  pub get_key_values_lem :
      (first : String) (rest : List String) (k : String)
      → owner_of s k < s.num_shards
      → (r : InternalLookupResponse) × (get_key_values s (first ∷ rest) ≡ ok r)
        × Answered s (λ j. contains j (first ∷ rest)) k none (find k r)
  unfolding get_key_values process_sharded_keys find
  get_key_values_lem first rest k lt =
      let ks = to_set (first ∷ rest) [] in
      let inputs = shard_keys s ks false in
      let (os, p, q) =
        responses_of s s.local.get_key_values 0 inputs (omega (arith, length-shard_keys s ks false))
          reachable in
      let (x, o, bucket, request, call, e) =
        find_at s s.local.get_key_values (λ j. contains j ks) k 0 inputs os []
          (shard_keys_buckets s ks false) (requests_of s false ks) q (omega arith)
          (omega (arith, length-shard_keys s ks false)) in
      let same : (j : String) → contains j ks ≡ contains j (first ∷ rest) =
        λ j. contains-to_set j (first ∷ rest) [] ∙ unfold contains in ground arith in
      (
        process_responses inputs os [],
        rw (is_empty-to_set first rest) (rw p),
        (
          x.keys,
          o,
          λ j. bucket j ∙ ground (arith, same j),
          start-Responds s (owner_of s k) x o request call,
          e ∙ ground (arith, same k),
        ),
      )
