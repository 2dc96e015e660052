-- ===== src/Cache/Sets/Valid.antt =====
-- The value maps keep their values distinct, and the cutoff never falls below its first value.
use fledge_key_value_service.Base.{
  ℕ, String, Bool, true, false, List, [], ◌∷◌, arith, ltb, eq_iff, Option-cases, Bool-cases, inl,
  inr,
}
use fledge_key_value_service.Base.Maps.{Map, find, find-emplace, find-insert_or_assign, find-erase}
use fledge_key_value_service.Cache.State.{SetValueMeta, KeyValueCache, create}
use fledge_key_value_service.Cache.Sets.{
  new_values, set_values, write_sets, erase_values, clean_up_set_key, clean_up_set_keys,
  clean_up_set_nodes, update_key_value_set, delete_values_in_set, clean_up_key_value_set_map,
}
use fledge_key_value_service.Cache.Sets.Members.{
  AreDistinct, IsDistinct-new_values, IsDistinct-set_values, IsDistinct-erase_values,
}
use fledge_key_value_service.Cache.Sets.States.{IsValid}

AreDistinct-write_sets :
    (t : ℕ) (d : Bool) (k : String) (vs : List String) (m : Map (Map SetValueMeta))
    → AreDistinct m
    → AreDistinct (write_sets t d k vs m)
unfolding write_sets
AreDistinct-write_sets t d k vs m h j s e = elim (Option-cases (find k m)) [
  | inl n ↦ ground (
    arith,
    eq_iff k j,
    find-emplace k j (new_values t d vs []) m,
    IsDistinct-new_values t d vs [] tt,
    h j s,
  )
  | inr (x, n) ↦ ground (
    arith,
    eq_iff k j,
    find-insert_or_assign k j (set_values t d vs x) m,
    IsDistinct-set_values t d vs x (h k x n),
    h j s,
  )
]

AreDistinct-clean_up_set_key :
    (t : ℕ) (k : String) (vs : List String) (m : Map (Map SetValueMeta))
    → AreDistinct m
    → AreDistinct (clean_up_set_key t k vs m)
unfolding clean_up_set_key
AreDistinct-clean_up_set_key t k vs m h j s e = elim (Option-cases (find k m)) [
  | inl n ↦ ground (arith, h j s)
  | inr (x, n) ↦ ground (
    arith,
    eq_iff k j,
    find-erase k j m,
    find-insert_or_assign k j (erase_values t vs x) m,
    IsDistinct-erase_values t vs x (h k x n),
    h j s,
  )
]

AreDistinct-clean_up_set_keys :
    (t : ℕ) (l : Map (List String)) (m : Map (Map SetValueMeta))
    → AreDistinct m
    → AreDistinct (clean_up_set_keys t l m)
unfolding clean_up_set_keys
AreDistinct-clean_up_set_keys t [] m h = h
AreDistinct-clean_up_set_keys t ((k, vs) ∷ l) m h =
    AreDistinct-clean_up_set_keys t l (clean_up_set_key t k vs m)
      (AreDistinct-clean_up_set_key t k vs m h)

AreDistinct-clean_up_set_nodes :
    (t : ℕ) (l : List (ℕ × Map (List String))) (m : Map (Map SetValueMeta))
    → AreDistinct m
    → AreDistinct (clean_up_set_nodes t l m).0
unfolding clean_up_set_nodes
AreDistinct-clean_up_set_nodes t [] m h = h
AreDistinct-clean_up_set_nodes t ((s, keys) ∷ l) m h = elim (Bool-cases (ltb t s)) [
  | inl stop ↦ rw stop h
  | inr go ↦ rw go (
      AreDistinct-clean_up_set_nodes t l (clean_up_set_keys t keys m)
        (AreDistinct-clean_up_set_keys t keys m h))
]

pub IsValid-create : IsValid create
unfolding find
IsValid-create = record { started = omega arith; distinct = λ k s e. absurd (cc) }

module _ (c : KeyValueCache) (h : IsValid c) where
  pub IsValid-update_set :
      (k : String) (vs : List String) (t : ℕ) → IsValid (update_key_value_set c k vs t)
  unfolding update_key_value_set
  IsValid-update_set k vs t = record {
    started = ground arith;
    distinct = λ j s e. ground (
      arith,
      h.distinct j s,
      AreDistinct-write_sets t false k vs c.key_to_value_set_map h.distinct j s,
    );
  }

  pub IsValid-delete_values :
      (k : String) (vs : List String) (t : ℕ) → IsValid (delete_values_in_set c k vs t)
  unfolding delete_values_in_set
  IsValid-delete_values k vs t = record {
    started = ground arith;
    distinct = λ j s e. ground (
      arith,
      h.distinct j s,
      AreDistinct-write_sets t true k vs c.key_to_value_set_map h.distinct j s,
    );
  }

  pub IsValid-clean_up_sets : (t : ℕ) → IsValid (clean_up_key_value_set_map c t)
  unfolding clean_up_key_value_set_map
  IsValid-clean_up_sets t = record {
    started = omega (arith, h.started);
    distinct =
        AreDistinct-clean_up_set_nodes t c.deleted_set_nodes c.key_to_value_set_map h.distinct;
  }
