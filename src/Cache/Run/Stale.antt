-- ===== src/Cache/Run/Stale.antt =====
-- Late-arriving mutations: the reason for which a deleted key stays in the map with its time, and
-- for which cleaning up keeps the largest time that it was called with.
use fledge_key_value_service.Base.{
  ℕ, ◌≤◌, ◌<◌, max, String, ◌≡◌, refl, ◌∙◌, Option, none, some, List, [], ◌∷◌, arith, eq_iff,
}
use fledge_key_value_service.Base.Lists.{All}
use fledge_key_value_service.Cache.State.{CacheValue, KeyValueCache}
use fledge_key_value_service.Cache.KeyValue.{is_older, update_key_value, delete_key}
use fledge_key_value_service.Cache.KeyValue.Entries.{
  entry, write, Cleaned, kept, dropped, entry-update, entry-delete,
}
use fledge_key_value_service.Cache.KeyValue.Lookup.{value_of, visible}
use fledge_key_value_service.Cache.Run.{
  Call, update, update_set, delete, delete_values, remove_deleted, step, run,
}
use fledge_key_value_service.Cache.Run.Registers.{
  cutoff, cutoff-update, cutoff-delete, cutoff-remove_deleted, map-update_set, cutoff-update_set,
  map-delete_values, cutoff-delete_values, Cleaned-remove_deleted,
}

abbrev pub time_of : Option CacheValue → ℕ
time_of none = 0
time_of (some e) = e.last_logical_commit_time

-- Mutations of the key up to this time are ignored.
abbrev pub floor : KeyValueCache → String → ℕ
floor c k = max (cutoff c) (time_of (entry c k))

-- The call does not write the key at a time above `t`.
abbrev pub IsStale : String → ℕ → Call → Type 0
IsStale k t (update j v s) = j ≡ k → s ≤ t
IsStale k t (delete j s) = j ≡ k → s ≤ t
IsStale k t _ = Unit

abbrev Settled : String → ℕ → Option String → KeyValueCache → Type 0
Settled k t v c = (visible c k ≡ v) × (t ≤ floor c k)

Settled-write :
    (cut s t : ℕ) (w : Option String) (e : Option CacheValue)
    → s ≤ t
    → t ≤ max cut (time_of e)
    → write cut s w e ≡ e
unfolding write is_older
Settled-write cut s t w none h f = ground arith
Settled-write cut s t w (some e) h f = ground arith

Settled-Cleaned :
    (cut s t : ℕ) (e e' : Option CacheValue)
    → Cleaned s e e'
    → t ≤ max cut (time_of e)
    → (value_of e' ≡ value_of e) × (t ≤ max (max cut s) (time_of e'))
Settled-Cleaned cut s t e e' (kept p) f = rw p (refl, omega arith)
Settled-Cleaned cut s t e e' (dropped x p n b q) f = rw (p, q) (rw n refl, ground arith)

Settled-step :
    (k : String) (t : ℕ) (v : Option String) (c : KeyValueCache) (call : Call)
    → IsStale k t call
    → Settled k t v c
    → Settled k t v (step c call)
unfolding step
Settled-step k t v c (update j w s) stale h = ground (
  arith,
  eq_iff j k,
  entry-update c j k w s,
  cutoff-update c j w s,
  Settled-write (cutoff c) s t (some w) (entry c k),
)
Settled-step k t v c (delete j s) stale h = ground (
  arith,
  eq_iff j k,
  entry-delete c j k s,
  cutoff-delete c j s,
  Settled-write (cutoff c) s t none (entry c k),
)
Settled-step k t v c (update_set j vs s) stale h =
    rw (map-update_set c j vs s, cutoff-update_set c j vs s) h
Settled-step k t v c (delete_values j vs s) stale h =
    rw (map-delete_values c j vs s, cutoff-delete_values c j vs s) h
Settled-step k t v c (remove_deleted s) stale h =
    let (seen, above) = Settled-Cleaned (cutoff c) s t _ _ (Cleaned-remove_deleted c s k) h.1 in
    rw cutoff-remove_deleted (seen ∙ h.0, above)

run-Settled :
    (k : String) (t : ℕ) (v : Option String) (c : KeyValueCache) (calls : List Call)
    → All (IsStale k t) calls
    → Settled k t v c
    → Settled k t v (run c calls)
unfolding run
run-Settled k t v c [] stale h = h
run-Settled k t v c (call ∷ calls) stale h =
    run-Settled k t v (step c call) calls stale.1 (Settled-step k t v c call stale.0 h)

write-fresh :
    (cut t : ℕ) (w : Option String) (e : Option CacheValue)
    → max cut (time_of e) < t
    → write cut t w e ≡ some (record { value = w; last_logical_commit_time = t })
unfolding write is_older
write-fresh cut t w none f = ground arith
write-fresh cut t w (some e) f = ground arith

module _ (k : String) (t : ℕ) (c : KeyValueCache) (calls : List Call) (fresh : floor c k < t)
    (stale : All (IsStale k t) calls) where
  -- A deletion at a time above the key's floor, the greater of the cleanup time and of the time of its
  -- entry, hides the key, and no sequence of later calls whose
  -- updates and deletions of this key bear times up to the deletion's brings a value back, whatever
  -- other keys they write and whatever cleanups they hold.
  pub deleted_key_stays : visible (run (delete_key c k t) calls) k ≡ none
  deleted_key_stays =
      (run-Settled k t none (delete_key c k t) calls stale (
        ground (
          arith,
          eq_iff k k,
          entry-delete c k k t,
          cutoff-delete c k t,
          write-fresh (cutoff c) t none (entry c k),
        ))).0

  -- An update at a time above the key's floor, the greater of the cleanup time and of the time of its
  -- entry, is what readers see after any sequence of later calls
  -- whose updates and deletions of this key bear times up to the update's, cleanups included.
  pub updated_key_stays : (v : String) → visible (run (update_key_value c k v t) calls) k ≡ some v
  updated_key_stays v =
      (run-Settled k t (some v) (update_key_value c k v t) calls stale (
        ground (
          arith,
          eq_iff k k,
          entry-update c k k v t,
          cutoff-update c k v t,
          write-fresh (cutoff c) t (some v) (entry c k),
        ))).0
