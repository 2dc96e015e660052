-- ===== src/Cache/Run/Tombstones.antt =====
-- Deleted keys do not pile up: each has its node, and RemoveDeletedKeys finds it there.
use fledge_key_value_service.Base.{
  ℕ, String, ◌≡◌, ap, sym, inl, inr, ◌∙◌, true, false, none, some, List, [], ◌∷◌, arith, ◌==◌,
  eq_iff, Option-cases, Bool-cases, leb, ltb, ltb→lt, ◌≢◌, ◌⊎◌,
}
use fledge_key_value_service.Base.Maps.{find, insert_or_assign, find-insert_or_assign}
use fledge_key_value_service.Cache.State.{CacheValue, KeyValueCache, create}
use fledge_key_value_service.Cache.KeyValue.{
  is_null, update_key_value, delete_key, clean_up_key_value_map, erase_node, add_node,
}
use fledge_key_value_service.Cache.KeyValue.Entries.{
  entry, kept, dropped, entry-update, entry-delete,
}
use fledge_key_value_service.Cache.KeyValue.Nodes.{
  has_node, IsSorted, IsClean, has_node-add_node, has_node-erase_node, IsSorted-add_node,
  IsSorted-erase_node, IsSorted-clean_up_nodes, has_node-clean_up_nodes, IsClean-clean_up_nodes,
}
use fledge_key_value_service.Cache.Sets.{
  update_key_value_set, delete_values_in_set, clean_up_key_value_set_map,
}
use fledge_key_value_service.Cache.Run.{
  Call, update, update_set, delete, delete_values, remove_deleted, step, run, remove_deleted_keys,
}
use fledge_key_value_service.Cache.Run.Registers.{
  cutoff, Cleaned-remove_deleted, map-update_set, map-delete_values,
}

pub record IsTracked (c : KeyValueCache) : Type 0 where
  pub sorted : IsSorted c.deleted_nodes
  pub tracked :
      (k : String) (x : CacheValue)
      → entry c k ≡ some x
      → x.value ≡ none
      → has_node x.last_logical_commit_time k c.deleted_nodes ≡ true

pub IsTracked-create : IsTracked create
unfolding find
IsTracked-create = record { sorted = tt; tracked = λ k x e n. absurd (cc) }

-- What an update does to the nodes.
data Updated (c c' : KeyValueCache) (j : String) : Type 0 where
  refused : c' ≡ c → Updated c c' j
  plain :
      (x : CacheValue)
      → entry c' j ≡ some x
      → x.value ≢ none
      → c'.deleted_nodes ≡ c.deleted_nodes
      → Updated c c' j
  revived :
      (x : CacheValue) (s : ℕ)
      → entry c' j ≡ some x
      → x.value ≢ none
      → c'.deleted_nodes ≡ erase_node s j c.deleted_nodes
      → Updated c c' j

Updated-update : (c : KeyValueCache) (j v : String) (t : ℕ) → Updated c (update_key_value c j v t) j
unfolding update_key_value
Updated-update c j v t = elim (Bool-cases (leb t (cutoff c))) [
  | inl old ↦ refused (ground arith)
  | inr young ↦ elim (Option-cases (find j c.map)) [
    | inl e ↦ plain x (ground (arith, inserted)) (λ p. cc) (ground arith)
    | inr (y, e) ↦ elim (Bool-cases (leb t y.last_logical_commit_time)) [
      | inl older ↦ refused (ground arith)
      | inr newer ↦ elim (Bool-cases (is_null y.value)) [
        | inl gone ↦
            revived x y.last_logical_commit_time (ground (arith, inserted)) (λ p. cc) (ground arith)
        | inr there ↦ plain x (ground (arith, inserted)) (λ p. cc) (ground arith)
      ]
    ]
  ]
]
  where
    x : CacheValue
    x = record { value = some v; last_logical_commit_time = t }

    inserted : find j (insert_or_assign j x c.map) ≡ some x
    inserted = ground (arith, eq_iff j j, find-insert_or_assign j j x c.map)

IsTracked-Updated :
    (c c' : KeyValueCache) (j : String)
    → Updated c c' j
    → ((k : String) → (j == k) ≡ false → entry c' k ≡ entry c k)
    → IsTracked c
    → IsTracked c'
IsTracked-Updated c c' j (refused p) others h = rw p h
IsTracked-Updated c c' j (plain y q value p) others h = record {
  sorted = rw p h.sorted;
  tracked = λ k x e n. elim (Bool-cases (j == k)) [
    | inl same ↦ absurd (value (ground (arith, eq_iff j k)))
    | inr other ↦ rw p (h.tracked k x (cc (others k other)) n)
  ];
}
IsTracked-Updated c c' j (revived y s q value p) others h = record {
  sorted = rw p (IsSorted-erase_node s j c.deleted_nodes h.sorted);
  tracked = λ k x e n. elim (Bool-cases (j == k)) [
    | inl same ↦ absurd (value (ground (arith, eq_iff j k)))
    | inr other ↦
        rw (p, has_node-erase_node x.last_logical_commit_time s k j c.deleted_nodes other)
          (h.tracked k x (cc (others k other)) n)
  ];
}

IsTracked-update :
    (c : KeyValueCache) (j v : String) (t : ℕ) → IsTracked c → IsTracked (update_key_value c j v t)
IsTracked-update c j v t =
    IsTracked-Updated c _ j (Updated-update c j v t)
      λ k other. ground (arith, entry-update c j k v t)

nodes-delete :
    (c : KeyValueCache) (j : String) (t : ℕ)
    → (delete_key c j t ≡ c)
      ⊎ ((delete_key c j t).deleted_nodes ≡ add_node t j c.deleted_nodes)
        × (entry (delete_key c j t) j
            ≡ some (record { value = none; last_logical_commit_time = t }))
unfolding delete_key
nodes-delete c j t = ground (
  arith,
  eq_iff j j,
  find-insert_or_assign j j (record { value = none; last_logical_commit_time = t }) c.map,
)

IsTracked-delete :
    (c : KeyValueCache) (j : String) (t : ℕ) → IsTracked c → IsTracked (delete_key c j t)
IsTracked-delete c j t h = elim (nodes-delete c j t) [
  | inl p ↦ rw p h
  | inr (p, q) ↦ record {
    sorted = rw p (IsSorted-add_node t j c.deleted_nodes h.sorted);
    tracked = λ k x e n. ground (
      arith,
      eq_iff j k,
      p,
      q,
      e,
      entry-delete c j k t,
      has_node-add_node x.last_logical_commit_time t k j c.deleted_nodes,
      h.tracked k x,
    );
  }
]

IsClean-remove_deleted :
    (c : KeyValueCache) (t : ℕ) (k : String)
    → IsTracked c
    → IsClean t (entry (remove_deleted_keys c t) k)
unfolding remove_deleted_keys clean_up_key_value_map clean_up_key_value_set_map
IsClean-remove_deleted c t k h x e n = elim (Cleaned-remove_deleted c t k) [
  | kept p ↦ elim (Bool-cases (ltb t x.last_logical_commit_time)) [
    | inl later ↦ ltb→lt _ _ later
    | inr sooner ↦
        IsClean-clean_up_nodes t x.last_logical_commit_time k c.deleted_nodes c.map h.sorted
          (ground arith) (h.tracked k x (cc (p, e)) n) x e n
  ]
  | dropped y _ _ _ q ↦ absurd (cc (q, e))
]

IsTracked-remove_deleted :
    (c : KeyValueCache) (t : ℕ) → IsTracked c → IsTracked (remove_deleted_keys c t)
unfolding remove_deleted_keys clean_up_key_value_map clean_up_key_value_set_map
IsTracked-remove_deleted c t h = record {
  sorted = IsSorted-clean_up_nodes t c.deleted_nodes c.map h.sorted;
  tracked = λ k x e n. elim (Cleaned-remove_deleted c t k) [
    | kept p ↦
        has_node-clean_up_nodes t x.last_logical_commit_time k c.deleted_nodes c.map
          (IsClean-remove_deleted c t k h x e n) (h.tracked k x (cc (p, e)) n)
    | dropped y _ _ _ q ↦ absurd (cc (q, e))
  ];
}

IsTracked-same :
    (c c' : KeyValueCache)
    → c'.map ≡ c.map
    → c'.deleted_nodes ≡ c.deleted_nodes
    → IsTracked c
    → IsTracked c'
IsTracked-same c c' p q h = record {
  sorted = rw q h.sorted;
  tracked = λ k x e n. rw q (h.tracked k x (ap (find k) (sym p) ∙ e) n);
}

IsTracked-step : (c : KeyValueCache) (call : Call) → IsTracked c → IsTracked (step c call)
unfolding step update_key_value_set delete_values_in_set
IsTracked-step c (update k v t) h = IsTracked-update c k v t h
IsTracked-step c (delete k t) h = IsTracked-delete c k t h
IsTracked-step c (remove_deleted t) h = IsTracked-remove_deleted c t h
IsTracked-step c (update_set k vs t) h =
    IsTracked-same c (update_key_value_set c k vs t) (map-update_set c k vs t) (ground arith) h
IsTracked-step c (delete_values k vs t) h =
    IsTracked-same c (delete_values_in_set c k vs t) (map-delete_values c k vs t) (ground arith) h

-- From a tracked cache, every sequence of calls of the interface leaves the deletion nodes sorted by
-- time and each deleted entry with a node at its time.
pub run-IsTracked : (c : KeyValueCache) (calls : List Call) → IsTracked c → IsTracked (run c calls)
unfolding run
run-IsTracked c [] h = h
run-IsTracked c (call ∷ calls) h = run-IsTracked (step c call) calls (IsTracked-step c call h)

-- After any calls on a new cache, RemoveDeletedKeys leaves no deleted entry with a time up to its
-- argument.
pub remove_deleted_complete :
    (calls : List Call) (t : ℕ) (k : String)
    → IsClean t (entry (remove_deleted_keys (run create calls) t) k)
remove_deleted_complete calls t k =
    IsClean-remove_deleted (run create calls) t k (run-IsTracked create calls IsTracked-create)
