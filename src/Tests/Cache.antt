-- ===== src/Tests/Cache.antt =====
-- The cache of components/data_server/cache on small inputs.
use mathlib.Core.List.{Mem, mem-cons, not-mem-nil}
use mathlib.Core.List.Perm
use mathlib.Core.Logic.Or
use fledge_key_value_service.Base.{
  ◌≢◌, eq_iff, sym, ap, ℕ, ◌+◌, String, ◌≡◌, refl, true, false, Option, none, some, List, [], ◌∷◌,
  arith, if◌then◌else◌,
}
use fledge_key_value_service.Base.Maps.{
  find, contains, insert_or_assign, emplace, erase, set_insert, String-set,
}
use fledge_key_value_service.Base.Lists.{All}
use fledge_key_value_service.Cache.State.{create, zero_time}
use fledge_key_value_service.Cache.KeyValue.{
  update_key_value, delete_key, clean_up_key_value_map, add_pair, add_node, collect_pairs,
  get_key_value_pairs,
}
use fledge_key_value_service.Cache.KeyValue.Entries.{entry}
use fledge_key_value_service.Cache.KeyValue.Lookup.{visible}
use fledge_key_value_service.Cache.Sets.{
  update_key_value_set, delete_values_in_set, clean_up_key_value_set_map, collect_sets, add_found,
  live_values, get_key_value_set, get_value_set,
}
use fledge_key_value_service.Cache.KeyValue.Nodes.{IsClean}
use fledge_key_value_service.Cache.Sets.Members.{is_member}
use fledge_key_value_service.Cache.Sets.Valid.{IsValid-create}
use fledge_key_value_service.Cache.Run.{
  Call, update, update_set, delete, delete_values, remove_deleted, run, step, remove_deleted_keys,
}
use fledge_key_value_service.Cache.Run.Converge.{Write, IsConsistent, run_writes, writes_converge}
use fledge_key_value_service.Cache.Run.Stale.{IsStale, deleted_key_stays, updated_key_stays}
use fledge_key_value_service.Cache.Run.Members
use fledge_key_value_service.Cache.Run.Members.{
  deleted_value_stays, updated_value_stays, run-get_key_value_set,
}
use fledge_key_value_service.Cache.Run.Tombstones.{
  IsTracked, IsTracked-create, run-IsTracked, remove_deleted_complete,
}

-- The logical commit time `n`.
abbrev time : ℕ → ℕ
time n = zero_time + n

program : Unit {0}
unfolding find erase run step remove_deleted_keys contains get_key_value_pairs get_key_value_set
    get_value_set update_key_value delete_key clean_up_key_value_map update_key_value_set
    delete_values_in_set clean_up_key_value_set_map add_pair collect_pairs collect_sets add_found
    insert_or_assign add_node emplace live_values set_insert
program = tt

a_not_b : ◌≢◌ {A = String} "b" "a"
a_not_b = ground (arith, eq_iff "b" "a")

abbrev late_calls : List Call
late_calls = remove_deleted (time 7) ∷ update "a" "old" (time 4) ∷ update "b" "new" (time 9) ∷ []

-- The late update of "a" is dropped, with and without the cleanup.
late_update :
    (visible (run create (update "a" "x" (time 1) ∷ delete "a" (time 5) ∷ late_calls)) "a" ≡ none)
    × (visible
          (run create
            (update "a" "x" (time 1) ∷ delete "a" (time 5) ∷ update "a" "y" (time 2) ∷ []))
          "a"
        ≡ none)
    × (visible (run create late_calls) "b" ≡ some "new")
unfolding program
late_update = (refl, refl, refl)

late_calls-IsStale : All (IsStale "a" (time 5)) late_calls
late_calls-IsStale = (tt, (λ _. omega arith, (λ e. absurd (a_not_b e), tt)))

deleted_key_stays_example : visible (run (delete_key create "a" (time 5)) late_calls) "a" ≡ none
unfolding find
deleted_key_stays_example =
    deleted_key_stays "a" (time 5) create late_calls (omega arith) late_calls-IsStale

updated_key_stays_example :
    visible (run (update_key_value create "a" "x" (time 5)) late_calls) "a" ≡ some "x"
unfolding find
updated_key_stays_example =
    updated_key_stays "a" (time 5) create late_calls (omega arith) late_calls-IsStale "x"

abbrev put : Write
put = record { key = "a"; value = some "x"; time = time 1 }

abbrev remove : Write
remove = record { key = "a"; value = none; time = time 5 }

Value-set : IsSet (Option String)
Value-set = hlevel String-set

-- The times of the two writes differ.
put-remove-IsConsistent : IsConsistent (put ∷ remove ∷ [])
put-remove-IsConsistent a b ma mb _ t =
    either ma (λ p. either mb (λ q. cc) (λ q. absurd (differ p q t)))
      (λ p. either mb (λ q. absurd (differ q p (sym t))) (λ q. cc))
  where
    either :
        {w : Write}
        → Mem w (put ∷ remove ∷ [])
        → (w ≡ put → a.value ≡ b.value)
        → (w ≡ remove → a.value ≡ b.value)
        → a.value ≡ b.value
    either m f g =
        Or.elim (Value-set _ _) (mem-cons.0 m) f
          (λ n. Or.elim (Value-set _ _) (mem-cons.0 n) g (λ e. absurd (not-mem-nil e)))

    differ : {v w : Write} → v ≡ put → w ≡ remove → v.time ≡ w.time → ⊥
    differ p q e = omega (arith, e, ap (λ (u : Write). u.time) p, ap (λ (u : Write). u.time) q)

writes_converge_example :
    (entry (run_writes create (put ∷ remove ∷ [])) "a"
      ≡ entry (run_writes create (remove ∷ put ∷ [])) "a")
    × (visible (run_writes create (put ∷ remove ∷ [])) "a"
        ≡ visible (run_writes create (remove ∷ put ∷ [])) "a")
writes_converge_example =
    writes_converge create (put ∷ remove ∷ []) (remove ∷ put ∷ []) "a" (Perm.swap remove put [])
      put-remove-IsConsistent

abbrev set_calls : List Call
set_calls =
    update_set "s" ("u" ∷ "v" ∷ []) (time 1)
    ∷ delete_values "s" ("v" ∷ []) (time 5)
    ∷ remove_deleted (time 3)
    ∷ update_set "s" ("v" ∷ "w" ∷ []) (time 4)
    ∷ []

-- The late update adds "w" and does not bring "v" back.
set_lookup :
    get_value_set (get_key_value_set (run create set_calls) ("s" ∷ [])) "s" ≡ "w" ∷ "u" ∷ []
unfolding program
set_lookup = refl

run-get_key_value_set_example :
    contains "v" (get_value_set (get_key_value_set (run create set_calls) ("s" ∷ [])) "s")
    ≡ (if contains "s" ("s" ∷ []) then is_member (run create set_calls) "s" "v" else false)
run-get_key_value_set_example = run-get_key_value_set set_calls ("s" ∷ []) "s" "v"

abbrev late_set_calls : List Call
late_set_calls = remove_deleted (time 7) ∷ update_set "s" ("v" ∷ []) (time 4) ∷ []

late_set_calls-IsStale : All (Members.IsStale "s" "v" (time 5)) late_set_calls
late_set_calls-IsStale = (tt, (λ _ _. omega arith, tt))

deleted_value_stays_example :
    is_member
      (run (delete_values_in_set create "s" ("u" ∷ "v" ∷ []) (time 5)) late_set_calls)
      "s"
      "v"
    ≡ false
unfolding find contains
deleted_value_stays_example =
    deleted_value_stays "s" "v" ("u" ∷ "v" ∷ []) (time 5) create late_set_calls IsValid-create refl
      (omega arith) late_set_calls-IsStale

updated_value_stays_example :
    is_member
      (run (update_key_value_set create "s" ("u" ∷ "v" ∷ []) (time 5)) late_set_calls)
      "s"
      "v"
    ≡ true
unfolding find contains
updated_value_stays_example =
    updated_value_stays "s" "v" ("u" ∷ "v" ∷ []) (time 5) create late_set_calls IsValid-create refl
      (omega arith) late_set_calls-IsStale

run-IsTracked_example : IsTracked (run create (delete "a" (time 5) ∷ late_calls))
run-IsTracked_example = run-IsTracked create (delete "a" (time 5) ∷ late_calls) IsTracked-create

remove_deleted_complete_example :
    IsClean
      (time 7)
      (entry (remove_deleted_keys (run create (delete "a" (time 5) ∷ [])) (time 7)) "a")
remove_deleted_complete_example = remove_deleted_complete (delete "a" (time 5) ∷ []) (time 7) "a"
