-- ===== src/Cache/KeyValue/Entries.antt =====
-- What the operations of key_value_cache.cc on single values do to the entry of each key.
use fledge_key_value_service.Base.{
  ℕ, ◌≤◌, String, ◌≡◌, refl, inl, inr, ◌&&◌, Option, none, some, List, [], ◌∷◌, arith, ltb, leb,
  if◌then◌else◌, ◌==◌, eq_iff, Option-cases, Bool-cases,
}
use fledge_key_value_service.Base.Maps.{Map, find, find-insert_or_assign, find-erase}
use fledge_key_value_service.Cache.State.{CacheValue, KeyValueCache}
use fledge_key_value_service.Cache.KeyValue.{
  is_null, is_older, update_key_value, delete_key, erase_deleted, clean_up_nodes,
  clean_up_key_value_map,
}

abbrev pub entry : KeyValueCache → String → Option CacheValue
entry c k = find k c.map

-- A register that keeps the value written last in logical time; writes up to `cutoff` are refused.
unfoldable pub write : ℕ → ℕ → Option String → Option CacheValue → Option CacheValue
unfolding is_older
write cutoff time value e =
    if leb time cutoff
    then e
    else if is_older e time
    then some (record { value = value; last_logical_commit_time = time })
    else e

module _ (c : KeyValueCache) (k j : String) where
  pub entry-update :
      (v : String) (t : ℕ)
      → entry (update_key_value c k v t) j ≡ (
          if k == j
          then write c.max_cleanup_logical_commit_time t (some v) (entry c j)
          else entry c j)
  unfolding update_key_value write
  entry-update v t = ground (
    arith,
    eq_iff k j,
    find-insert_or_assign k j (record { value = some v; last_logical_commit_time = t }) c.map,
  )

  pub entry-delete :
      (t : ℕ)
      → entry (delete_key c k t) j
        ≡ (if k == j then write c.max_cleanup_logical_commit_time t none (entry c j) else entry c j)
  unfolding delete_key write
  entry-delete t = ground (
    arith,
    eq_iff k j,
    find-insert_or_assign k j (record { value = none; last_logical_commit_time = t }) c.map,
  )

-- The entry is as it was, or a deletion up to `time` that was dropped.
pub data Cleaned (time : ℕ) (e e' : Option CacheValue) : Type 0 where
  kept : e' ≡ e → Cleaned time e e'
  dropped :
      (x : CacheValue)
      → e ≡ some x
      → x.value ≡ none
      → x.last_logical_commit_time ≤ time
      → e' ≡ none
      → Cleaned time e e'

Cleaned-erase_deleted :
    (time : ℕ) (k j : String) (m : Map CacheValue)
    → Cleaned time (find j m) (find j (erase_deleted time k m))
unfolding erase_deleted
Cleaned-erase_deleted time k j m = elim (Option-cases (find k m)) [
  | inl e ↦ rw (e, erase_deleted) (kept refl)
  | inr (x, e) ↦ elim (Bool-cases (is_null x.value && leb x.last_logical_commit_time time)) [
    | inl old ↦ elim (Bool-cases (k == j)) [
      | inl same ↦
          dropped x (ground (arith, eq_iff k j)) (ground arith) (ground arith)
            (ground (arith, find-erase k j m))
      | inr other ↦ kept (ground (arith, find-erase k j m))
    ]
    | inr young ↦ kept (ground arith)
  ]
]

Cleaned-trans :
    (time : ℕ) (e e' e'' : Option CacheValue)
    → Cleaned time e e'
    → Cleaned time e' e''
    → Cleaned time e e''
Cleaned-trans time e e' e'' (kept p) (kept q) = kept (cc)
Cleaned-trans time e e' e'' (kept p) (dropped x a b d q) = dropped x (cc) b d q
Cleaned-trans time e e' e'' (dropped x a b d p) (kept q) = dropped x a b d (cc)
Cleaned-trans time e e' e'' (dropped x a b d p) (dropped y _ _ _ q) = dropped x a b d q

pub Cleaned-clean_up_nodes :
    (time : ℕ) (l : List (ℕ × String)) (m : Map CacheValue) (j : String)
    → Cleaned time (find j m) (find j (clean_up_nodes time l m).0)
unfolding clean_up_nodes
Cleaned-clean_up_nodes time [] m j = kept refl
Cleaned-clean_up_nodes time ((t, k) ∷ l) m j = elim (Bool-cases (ltb time t)) [
  | inl stop ↦ kept (ground arith)
  | inr go ↦ rw go (
      Cleaned-trans time _ (find j (erase_deleted time k m)) _ (Cleaned-erase_deleted time k j m)
        (Cleaned-clean_up_nodes time l (erase_deleted time k m) j))
]

pub Cleaned-clean_up :
    (c : KeyValueCache) (time : ℕ) (j : String)
    → Cleaned time (entry c j) (entry (clean_up_key_value_map c time) j)
unfolding clean_up_key_value_map
Cleaned-clean_up c time j = Cleaned-clean_up_nodes time c.deleted_nodes c.map j
