-- ===== src/Cache/Run/Members.antt =====
-- Late-arriving mutations of value sets: the counterpart of Stale for one value of one key.
use fledge_key_value_service.Base.{
  ℕ, ◌≤◌, ◌<◌, max, String, ◌≡◌, refl, ◌∙◌, Bool, true, false, Option, none, some, List, [], ◌∷◌,
  arith, if◌then◌else◌, ◌==◌, eq_iff,
}
use fledge_key_value_service.Base.Lists.{All}
use fledge_key_value_service.Base.Maps.{contains}
use fledge_key_value_service.Cache.State.{SetValueMeta, KeyValueCache, create}
use fledge_key_value_service.Cache.KeyValue.{update_key_value, delete_key, clean_up_key_value_map}
use fledge_key_value_service.Cache.Sets.{
  update_key_value_set, delete_values_in_set, clean_up_key_value_set_map, get_value_set,
  get_key_value_set,
}
use fledge_key_value_service.Cache.Sets.Values.{latest, stamp, Cleaned, kept, dropped}
use fledge_key_value_service.Cache.Sets.Members.{is_live, is_member, get_key_value_set_lem}
use fledge_key_value_service.Cache.Sets.States.{
  set_cutoff, state, IsValid, written, state-update_set, state-delete_values, Cleaned-clean_up_sets,
}
use fledge_key_value_service.Cache.Sets.Valid.{
  IsValid-create, IsValid-update_set, IsValid-delete_values, IsValid-clean_up_sets,
}
use fledge_key_value_service.Cache.Run.{
  Call, update, update_set, delete, delete_values, remove_deleted, step, run, remove_deleted_keys,
}

-- The calls on single values leave the sets alone.
abbrev SameSets : KeyValueCache → KeyValueCache → Type 0
SameSets c c' = (c'.key_to_value_set_map ≡ c.key_to_value_set_map) × (set_cutoff c' ≡ set_cutoff c)

SameSets-update : (c : KeyValueCache) (k v : String) (t : ℕ) → SameSets c (update_key_value c k v t)
unfolding update_key_value
SameSets-update c k v t = ground arith

SameSets-delete : (c : KeyValueCache) (k : String) (t : ℕ) → SameSets c (delete_key c k t)
unfolding delete_key
SameSets-delete c k t = ground arith

SameSets-clean_up : (c : KeyValueCache) (t : ℕ) → SameSets c (clean_up_key_value_map c t)
unfolding clean_up_key_value_map
SameSets-clean_up c t = (refl, refl)

IsValid-SameSets : (c c' : KeyValueCache) → SameSets c c' → IsValid c → IsValid c'
IsValid-SameSets c c' (p, q) h = record { started = rw q h.started; distinct = rw p h.distinct }

pub IsValid-step : (c : KeyValueCache) (call : Call) → IsValid c → IsValid (step c call)
unfolding step remove_deleted_keys
IsValid-step c (update k v t) h = IsValid-SameSets c _ (SameSets-update c k v t) h
IsValid-step c (delete k t) h = IsValid-SameSets c _ (SameSets-delete c k t) h
IsValid-step c (update_set k vs t) h = IsValid-update_set c h k vs t
IsValid-step c (delete_values k vs t) h = IsValid-delete_values c h k vs t
IsValid-step c (remove_deleted t) h =
    IsValid-clean_up_sets _ (IsValid-SameSets c _ (SameSets-clean_up c t) h) t

pub run-IsValid : (c : KeyValueCache) (calls : List Call) → IsValid c → IsValid (run c calls)
unfolding run
run-IsValid c [] h = h
run-IsValid c (call ∷ calls) h = run-IsValid (step c call) calls (IsValid-step c call h)

-- After any calls on a new cache, a lookup of value sets gives for each requested key exactly the
-- values that the cache has for the key and does not hold as deleted, and the empty set for any
-- other key.
pub run-get_key_value_set :
    (calls : List Call) (keys : List String) (k v : String)
    → contains v (get_value_set (get_key_value_set (run create calls) keys) k)
      ≡ (if contains k keys then is_member (run create calls) k v else false)
run-get_key_value_set calls keys k v = ground (
  arith,
  get_key_value_set_lem (run create calls) keys k v
      (run-IsValid create calls IsValid-create).distinct,
)

abbrev pub time_of : Option SetValueMeta → ℕ
time_of none = 0
time_of (some s) = s.last_logical_commit_time

-- Mutations of the value in the set of the key up to this time are ignored.
abbrev pub floor : KeyValueCache → String → String → ℕ
floor c k v = max (set_cutoff c) (time_of (state c k v))

-- The call does not write the value in the set of the key at a time above `t`.
abbrev pub IsStale : String → String → ℕ → Call → Type 0
IsStale k v t (update_set j vs s) = j ≡ k → contains v vs ≡ true → s ≤ t
IsStale k v t (delete_values j vs s) = j ≡ k → contains v vs ≡ true → s ≤ t
IsStale k v t _ = Unit

set_cutoff-update_set :
    (c : KeyValueCache) (k : String) (vs : List String) (t : ℕ)
    → set_cutoff (update_key_value_set c k vs t) ≡ set_cutoff c
unfolding update_key_value_set
set_cutoff-update_set c k vs t = ground arith

set_cutoff-delete_values :
    (c : KeyValueCache) (k : String) (vs : List String) (t : ℕ)
    → set_cutoff (delete_values_in_set c k vs t) ≡ set_cutoff c
unfolding delete_values_in_set
set_cutoff-delete_values c k vs t = ground arith

set_cutoff-clean_up :
    (c : KeyValueCache) (t : ℕ) → set_cutoff (clean_up_key_value_set_map c t) ≡ max (set_cutoff c) t
unfolding clean_up_key_value_set_map
set_cutoff-clean_up c t = refl

written_stale :
    (cut s t : ℕ) (d : Bool) (vs : List String) (v : String) (e : Option SetValueMeta)
    → (contains v vs ≡ true → s ≤ t)
    → t ≤ max cut (time_of e)
    → written cut s d vs v e ≡ e
unfolding latest
written_stale cut s t d vs v none h f = ground arith
written_stale cut s t d vs v (some x) h f = ground arith

Cleaned-floor :
    (cut s t : ℕ) (e e' : Option SetValueMeta)
    → Cleaned s e e'
    → t ≤ max cut (time_of e)
    → (is_live e' ≡ is_live e) × (t ≤ max (max cut s) (time_of e'))
Cleaned-floor cut s t e e' (kept p) f = rw p (refl, omega arith)
Cleaned-floor cut s t e e' (dropped x p n b q) f = rw (p, q) (rw n refl, ground arith)

abbrev Seen : String → String → ℕ → Bool → KeyValueCache → Type 0
Seen k v t b c = (is_member c k v ≡ b) × (t ≤ floor c k v)

Seen-SameSets :
    (k v : String) (t : ℕ) (b : Bool) (c c' : KeyValueCache)
    → SameSets c c'
    → Seen k v t b c
    → Seen k v t b c'
Seen-SameSets k v t b c c' (p, q) h = rw (p, q) h

Seen-written :
    (k v : String) (s t : ℕ) (d b : Bool) (vs : List String) (j : String) (c c' : KeyValueCache)
    → state c' k v ≡ (if j == k then written (set_cutoff c) s d vs v (state c k v) else state c k v)
    → set_cutoff c' ≡ set_cutoff c
    → (j ≡ k → contains v vs ≡ true → s ≤ t)
    → Seen k v t b c
    → Seen k v t b c'
Seen-written k v s t d b vs j c c' e q stale h =
    let same : state c' k v ≡ state c k v =
      ground (arith, e, eq_iff j k, written_stale (set_cutoff c) s t d vs v (state c k v)) in
    rw (same, q) h

Seen-step :
    (k v : String) (t : ℕ) (b : Bool) (c : KeyValueCache) (call : Call)
    → IsValid c
    → IsStale k v t call
    → Seen k v t b c
    → Seen k v t b (step c call)
unfolding step remove_deleted_keys
Seen-step k v t b c (update_set j vs s) valid stale h =
    Seen-written k v s t false b vs j c (update_key_value_set c j vs s)
      (state-update_set c j vs s k v valid.started) (set_cutoff-update_set c j vs s) stale h
Seen-step k v t b c (delete_values j vs s) valid stale h =
    Seen-written k v s t true b vs j c (delete_values_in_set c j vs s)
      (state-delete_values c j vs s k v valid.started) (set_cutoff-delete_values c j vs s) stale h
Seen-step k v t b c (update j w s) valid stale h =
    Seen-SameSets k v t b c (update_key_value c j w s) (SameSets-update c j w s) h
Seen-step k v t b c (delete j s) valid stale h =
    Seen-SameSets k v t b c (delete_key c j s) (SameSets-delete c j s) h
Seen-step k v t b c (remove_deleted s) valid stale h =
    let c' = clean_up_key_value_map c s in
    let (live, above) =
      Cleaned-floor (set_cutoff c') s t _ _ (Cleaned-clean_up_sets c' s k v)
        (Seen-SameSets k v t b c c' (SameSets-clean_up c s) h).1 in
    rw set_cutoff-clean_up (live ∙ (Seen-SameSets k v t b c c' (SameSets-clean_up c s) h).0, above)

run-Seen :
    (k v : String) (t : ℕ) (b : Bool) (c : KeyValueCache) (calls : List Call)
    → IsValid c
    → All (IsStale k v t) calls
    → Seen k v t b c
    → Seen k v t b (run c calls)
unfolding run
run-Seen k v t b c [] valid stale h = h
run-Seen k v t b c (call ∷ calls) valid stale h =
    run-Seen k v t b (step c call) calls (IsValid-step c call valid) stale.1
      (Seen-step k v t b c call valid stale.0 h)

written_fresh :
    (cut t : ℕ) (d : Bool) (vs : List String) (v : String) (e : Option SetValueMeta)
    → contains v vs ≡ true
    → max cut (time_of e) < t
    → written cut t d vs v e ≡ some (stamp t d)
unfolding latest
written_fresh cut t d vs v none h f = ground arith
written_fresh cut t d vs v (some x) h f = ground arith

module _ (k v : String) (vs : List String) (t : ℕ) (c : KeyValueCache) (calls : List Call)
    (valid : IsValid c) (listed : contains v vs ≡ true) (fresh : floor c k v < t)
    (stale : All (IsStale k v t) calls) where
  -- On a valid cache, a deletion of values of a key at a time above a listed value's floor, the greater
  -- of the cleanup time of the sets and of the time of the value's state, takes the
  -- value out of the set that readers see, and no later calls bring it back whose updates and
  -- deletions of this value in this key's set bear times up to the deletion's, cleanups included.
  pub deleted_value_stays : is_member (run (delete_values_in_set c k vs t) calls) k v ≡ false
  deleted_value_stays =
      let q = state-delete_values c k vs t k v valid.started in
      let e : state (delete_values_in_set c k vs t) k v ≡ some (stamp t true) =
        ground (arith, q, eq_iff k k, written_fresh (set_cutoff c) t true vs v (state c k v)) in
      (run-Seen k v t false (delete_values_in_set c k vs t) calls
        (IsValid-delete_values c valid k vs t) stale
        (rw (e, set_cutoff-delete_values c k vs t) (refl, omega arith))).0

  -- On a valid cache, an update of a value set at a time above a listed value's floor, the greater of the
  -- cleanup time of the sets and of the time of the value's state, shows the value
  -- to readers, and no later calls remove it whose mutations of this value in this key's set bear
  -- times up to the update's, cleanups included.
  pub updated_value_stays : is_member (run (update_key_value_set c k vs t) calls) k v ≡ true
  updated_value_stays =
      let q = state-update_set c k vs t k v valid.started in
      let e : state (update_key_value_set c k vs t) k v ≡ some (stamp t false) =
        ground (arith, q, eq_iff k k, written_fresh (set_cutoff c) t false vs v (state c k v)) in
      (run-Seen k v t true (update_key_value_set c k vs t) calls (IsValid-update_set c valid k vs t)
        stale (rw (e, set_cutoff-update_set c k vs t) (refl, omega arith))).0
