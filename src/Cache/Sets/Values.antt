-- ===== src/Cache/Sets/Values.antt =====
-- What the loops of key_value_cache.cc over a value set do to the state of each value.
use fledge_key_value_service.Base.{
  ℕ, ◌<◌, String, ◌≡◌, refl, Bool, true, Option, none, some, List, [], ◌∷◌, arith, leb,
  if◌then◌else◌, ◌==◌, eq_iff, ◌&&◌, ◌≤◌, Option-cases, Bool-cases, inl, inr,
}
use fledge_key_value_service.Base.Maps.{
  Map, find, emplace, contains, find-insert_or_assign, find-emplace, find-erase,
}
use fledge_key_value_service.Cache.State.{SetValueMeta, zero_time, default_meta}
use fledge_key_value_service.Cache.Sets.{
  new_values, set_value, set_values, erase_value, erase_values,
}

abbrev pub stamp : ℕ → Bool → SetValueMeta
stamp t d = record { last_logical_commit_time = t; is_deleted = d }

-- A register that keeps the state written last in logical time.
unfoldable pub latest : ℕ → Bool → Option SetValueMeta → Option SetValueMeta
latest t d none = some (stamp t d)
latest t d (some m) = if leb t m.last_logical_commit_time then some m else some (stamp t d)

pub latest-latest :
    (t : ℕ) (d : Bool) (o : Option SetValueMeta) → latest t d (latest t d o) ≡ latest t d o
unfolding latest
latest-latest t d none = ground arith
latest-latest t d (some m) = ground arith

find-set_value :
    (t : ℕ) (d : Bool) (v w : String) (m : Map SetValueMeta)
    → zero_time < t
    → find w (set_value t d v m) ≡ (if v == w then latest t d (find w m) else find w m)
unfolding set_value latest
find-set_value t d v w m h =
    ground
      (arith, eq_iff v w, find-emplace v w default_meta m, find-insert_or_assign v w (stamp t d) m)

pub find-set_values :
    (t : ℕ) (d : Bool) (vs : List String) (w : String) (m : Map SetValueMeta)
    → zero_time < t
    → find w (set_values t d vs m) ≡ (if contains w vs then latest t d (find w m) else find w m)
unfolding set_values contains
find-set_values t d [] w m h = refl
find-set_values t d (v ∷ vs) w m h = ground (
  arith,
  eq_iff v w,
  find-set_values t d vs w (set_value t d v m),
  find-set_value t d v w m,
  latest-latest t d (find w m),
)

pub find-new_values :
    (t : ℕ) (d : Bool) (vs : List String) (w : String) (m : Map SetValueMeta)
    → find w (new_values t d vs m) ≡ (elim (find w m) [
      | some s ↦ some s
      | none ↦ if contains w vs then some (stamp t d) else none
    ])
unfolding new_values contains
find-new_values t d [] w m = ground arith
find-new_values t d (v ∷ vs) w m = ground (
  arith,
  eq_iff v w,
  find-new_values t d vs w (emplace v (stamp t d) m),
  find-emplace v w (stamp t d) m,
)

-- The state of a value is as it was, or a deletion up to `time` that was dropped.
pub data Cleaned (time : ℕ) (e e' : Option SetValueMeta) : Type 0 where
  kept : e' ≡ e → Cleaned time e e'
  dropped :
      (x : SetValueMeta)
      → e ≡ some x
      → x.is_deleted ≡ true
      → x.last_logical_commit_time ≤ time
      → e' ≡ none
      → Cleaned time e e'

pub Cleaned-trans :
    (time : ℕ) (e e' e'' : Option SetValueMeta)
    → Cleaned time e e'
    → Cleaned time e' e''
    → Cleaned time e e''
Cleaned-trans time e e' e'' (kept p) (kept q) = kept (cc)
Cleaned-trans time e e' e'' (kept p) (dropped x a b d q) = dropped x (cc) b d q
Cleaned-trans time e e' e'' (dropped x a b d p) (kept q) = dropped x a b d (cc)
Cleaned-trans time e e' e'' (dropped x a b d p) (dropped y _ _ _ q) = dropped x a b d q

Cleaned-erase_value :
    (time : ℕ) (v w : String) (m : Map SetValueMeta)
    → Cleaned time (find w m) (find w (erase_value time v m))
unfolding erase_value
Cleaned-erase_value time v w m = elim (Option-cases (find v m)) [
  | inl e ↦ rw (e, erase_value) (kept refl)
  | inr (x, e) ↦ elim (Bool-cases (x.is_deleted && leb x.last_logical_commit_time time)) [
    | inl old ↦ elim (Bool-cases (v == w)) [
      | inl same ↦
          dropped x (ground (arith, eq_iff v w)) (ground arith) (ground arith)
            (ground (arith, find-erase v w m))
      | inr other ↦ kept (ground (arith, find-erase v w m))
    ]
    | inr young ↦ kept (ground arith)
  ]
]

pub Cleaned-erase_values :
    (time : ℕ) (vs : List String) (w : String) (m : Map SetValueMeta)
    → Cleaned time (find w m) (find w (erase_values time vs m))
unfolding erase_values
Cleaned-erase_values time [] w m = kept refl
Cleaned-erase_values time (v ∷ vs) w m =
    Cleaned-trans time _ _ _ (Cleaned-erase_value time v w m)
      (Cleaned-erase_values time vs w (erase_value time v m))
