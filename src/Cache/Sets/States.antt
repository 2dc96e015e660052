-- ===== src/Cache/Sets/States.antt =====
-- What the operations of key_value_cache.cc on value sets do to the state of each value of each key.
use fledge_key_value_service.Base.{
  ℕ, ◌≤◌, ◌<◌, String, ◌≡◌, refl, subst, Bool, true, false, Option, none, List, [], ◌∷◌, arith, leb,
  ltb, if◌then◌else◌, ◌==◌, eq_iff, Option-cases, Bool-cases, inl, inr,
}
use fledge_key_value_service.Base.Maps.{
  Map, find, contains, find-emplace, find-insert_or_assign, find-erase,
}
use fledge_key_value_service.Cache.State.{SetValueMeta, KeyValueCache, zero_time}
use fledge_key_value_service.Cache.Sets.{
  new_values, set_values, write_sets, erase_values, is_empty, clean_up_set_keys, clean_up_set_nodes,
  clean_up_set_key, update_key_value_set, delete_values_in_set, clean_up_key_value_set_map,
}
use fledge_key_value_service.Cache.Sets.Values.{
  latest, find-set_values, find-new_values, Cleaned, kept, Cleaned-trans, Cleaned-erase_values,
}
use fledge_key_value_service.Cache.Sets.Members.{sets, state_in, AreDistinct}

abbrev pub set_cutoff : KeyValueCache → ℕ
set_cutoff c = c.max_cleanup_logical_commit_time_for_set_cache

abbrev pub state : KeyValueCache → String → String → Option SetValueMeta
state c k v = state_in (sets c k) v

pub record IsValid (c : KeyValueCache) : Type 0 where
  pub started : zero_time ≤ set_cutoff c
  pub distinct : AreDistinct c.key_to_value_set_map

-- The state of a value after a call that writes the values `vs` of a key.
abbrev pub written : ℕ → ℕ → Bool → List String → String → Option SetValueMeta → Option SetValueMeta
written cut t d vs v e = if contains v vs then (if leb t cut then e else latest t d e) else e

contains_empty : (vs : List String) (v : String) → is_empty vs ≡ true → contains v vs ≡ false
unfolding is_empty contains
contains_empty [] v h = refl
contains_empty (w ∷ vs) v h = cc

state-write_sets :
    (t : ℕ) (d : Bool) (k j v : String) (vs : List String) (m : Map (Map SetValueMeta))
    → zero_time < t
    → state_in (find j (write_sets t d k vs m)) v ≡ (
        if k == j
        then if contains v vs then latest t d (state_in (find j m) v) else state_in (find j m) v
        else state_in (find j m) v)
unfolding write_sets latest find
state-write_sets t d k j v vs m h = elim (Option-cases (find k m)) [
  | inl e ↦
      ground
        (arith, eq_iff k j, find-emplace k j (new_values t d vs []) m, find-new_values t d vs v [])
  | inr (s, e) ↦ ground (
    arith,
    eq_iff k j,
    find-insert_or_assign k j (set_values t d vs s) m,
    find-set_values t d vs v s,
  )
]

module _ (c : KeyValueCache) (k : String) (vs : List String) (t : ℕ) (j v : String)
    (h : zero_time ≤ set_cutoff c) where
  pub state-update_set :
      state (update_key_value_set c k vs t) j v
      ≡ (if k == j then written (set_cutoff c) t false vs v (state c j v) else state c j v)
  unfolding update_key_value_set
  state-update_set =
      ground (arith, contains_empty vs v, state-write_sets t false k j v vs c.key_to_value_set_map)

  pub state-delete_values :
      state (delete_values_in_set c k vs t) j v
      ≡ (if k == j then written (set_cutoff c) t true vs v (state c j v) else state c j v)
  unfolding delete_values_in_set
  state-delete_values =
      ground (arith, contains_empty vs v, state-write_sets t true k j v vs c.key_to_value_set_map)

find_empty : (m : Map SetValueMeta) (v : String) → is_empty m ≡ true → find v m ≡ none
unfolding is_empty find
find_empty [] v h = refl
find_empty (x ∷ m) v h = cc

Cleaned-clean_up_set_key :
    (t : ℕ) (k j v : String) (vs : List String) (m : Map (Map SetValueMeta))
    → Cleaned t (state_in (find j m) v) (state_in (find j (clean_up_set_key t k vs m)) v)
unfolding clean_up_set_key
Cleaned-clean_up_set_key t k j v vs m = elim (Option-cases (find k m)) [
  | inl e ↦ rw (e, clean_up_set_key) (kept refl)
  | inr (s, e) ↦ elim (Bool-cases (k == j)) [
    | inl same ↦
        let left = erase_values t vs s in
        subst (Cleaned t (state_in (find j m) v))
          (ground (arith, e, find-erase k j m, find-insert_or_assign k j left m, find_empty left v))
          (subst (λ o. Cleaned t o (find v left)) (ground (arith, eq_iff k j))
            (Cleaned-erase_values t vs v s))
    | inr other ↦
        kept
          (ground (arith, e, find-erase k j m, find-insert_or_assign k j (erase_values t vs s) m))
  ]
]

Cleaned-clean_up_set_keys :
    (t : ℕ) (j v : String) (l : Map (List String)) (m : Map (Map SetValueMeta))
    → Cleaned t (state_in (find j m) v) (state_in (find j (clean_up_set_keys t l m)) v)
unfolding clean_up_set_keys
Cleaned-clean_up_set_keys t j v [] m = kept refl
Cleaned-clean_up_set_keys t j v ((k, vs) ∷ l) m =
    Cleaned-trans t _ _ _ (Cleaned-clean_up_set_key t k j v vs m)
      (Cleaned-clean_up_set_keys t j v l (clean_up_set_key t k vs m))

Cleaned-clean_up_set_nodes :
    (t : ℕ) (j v : String) (l : List (ℕ × Map (List String))) (m : Map (Map SetValueMeta))
    → Cleaned t (state_in (find j m) v) (state_in (find j (clean_up_set_nodes t l m).0) v)
unfolding clean_up_set_nodes
Cleaned-clean_up_set_nodes t j v [] m = kept refl
Cleaned-clean_up_set_nodes t j v ((s, keys) ∷ l) m = elim (Bool-cases (ltb t s)) [
  | inl stop ↦ kept (ground arith)
  | inr go ↦ rw go (
      Cleaned-trans t _ _ _ (Cleaned-clean_up_set_keys t j v keys m)
        (Cleaned-clean_up_set_nodes t j v l (clean_up_set_keys t keys m)))
]

pub Cleaned-clean_up_sets :
    (c : KeyValueCache) (t : ℕ) (j v : String)
    → Cleaned t (state c j v) (state (clean_up_key_value_set_map c t) j v)
unfolding clean_up_key_value_set_map
Cleaned-clean_up_sets c t j v =
    Cleaned-clean_up_set_nodes t j v c.deleted_set_nodes c.key_to_value_set_map
