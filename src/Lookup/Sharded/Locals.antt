-- ===== src/Lookup/Sharded/Locals.antt =====
-- The server's own shard in sharded_lookup.cc, where the local lookup is that of local_lookup.cc.
use fledge_key_value_service.Base.{
  String, ◌≡◌, refl, ◌∙◌, Bool, true, some, List, [], ◌∷◌, arith, eqb,
}
use fledge_key_value_service.Base.Maps.{find, contains}
use fledge_key_value_service.Cache.State.{KeyValueCache}
use fledge_key_value_service.Cache.Sets
use fledge_key_value_service.Cache.Sets.{get_value_set, is_empty}
use fledge_key_value_service.Cache.Sets.Members.{is_member, get_key_value_set_lem}
use fledge_key_value_service.Cache.Sets.States.{IsValid}
use fledge_key_value_service.Lookup.Types.{ok, InternalLookupResponse}
use fledge_key_value_service.Lookup.Local.{single_set, process_keyset_keys}
use fledge_key_value_service.Lookup.Local.Values.{
  find-process_keyset_keys, IsDistinct-process_keyset_keys,
}
use fledge_key_value_service.Lookup.Sharded.{ShardedLookup, to_set, start, get_local_key_values_set}
use fledge_key_value_service.Lookup.Sharded.Buckets.{contains-to_set, owner_of}
use fledge_key_value_service.Lookup.Sharded.Sets.{shows, ShowsSets, AnswersSets}

shows-single_set : (vs : List String) (v : String) → shows (some (single_set vs)) v ≡ contains v vs
unfolding shows is_empty contains
shows-single_set [] v = refl
shows-single_set (x ∷ xs) v = refl

module _ (c : KeyValueCache) (valid : IsValid c) (member : String → String → Bool) where
  process_keyset_keys-ShowsSets :
      (ks ls : List String)
      → ((k : String) → contains k ks ≡ contains k ls)
      → ((k v : String) → contains k ls ≡ true → member k v ≡ is_member c k v)
      → ShowsSets member ls (process_keyset_keys c ks)
  process_keyset_keys-ShowsSets ks ls same agree = (
    IsDistinct-process_keyset_keys c ks,
    λ k h. ground (arith, find-process_keyset_keys c ks k, same k),
    λ k v h.
        rw (find-process_keyset_keys c ks k, same k, h, agree k v h)
          (shows-single_set (get_value_set (Sets.get_key_value_set c ks) k) v
            ∙ ground (arith, get_key_value_set_lem c ks k v valid.distinct, same k)),
  )

  module _ (s : ShardedLookup)
      (own : s.local.get_key_value_set ≡ (λ ks. ok (process_keyset_keys c ks))) where
    own_response :
        (ks : List String)
        → ((k v : String) → contains k ks ≡ true → member k v ≡ is_member c k v)
        → (r : InternalLookupResponse) × (get_local_key_values_set s ks ≡ ok r)
          × ShowsSets member ks r
    unfolding get_local_key_values_set is_empty contains find
    own_response [] agree = ([], refl, (tt, λ k h. refl, λ k v h. absurd (cc)))
    own_response (x ∷ xs) agree =
        let ks = to_set (x ∷ xs) [] in
        (
          process_keyset_keys c ks,
          rw own,
          process_keyset_keys-ShowsSets ks (x ∷ xs)
              (λ k. contains-to_set k (x ∷ xs) [] ∙ ground arith) agree,
        )

    -- The server's own shard answers its requests for sets with what its cache shows.
    pub local-AnswersSets :
        ((k v : String) → owner_of s k ≡ s.current_shard_num → member k v ≡ is_member c k v)
        → AnswersSets s member s.current_shard_num
    unfolding start
    local-AnswersSets agree x request mine =
        let (r, call, good) = own_response x.keys (λ k v h. agree k v (mine k h)) in
        (r, rw call (rw same), good)
      where
        same : eqb s.current_shard_num s.current_shard_num ≡ true
        same = ground arith
