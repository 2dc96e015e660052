-- ===== src/Handlers/GetValues/Keys.antt =====
-- GetValues answers from the visible values of the cache.
use fledge_key_value_service.Base.{
  ◌≡◌, refl, ◌∙◌, ap, subst, Option-cases, String, Option, none, some, List, [], ◌∷◌, ◌==◌, ◌||◌,
  Bool, false, eq_iff, arith, if◌then◌else◌, Bool-cases, inl, inr,
}
use fledge_key_value_service.Base.Maps.{
  Map, find, contains, insert_or_assign, find-insert_or_assign,
}
use fledge_key_value_service.Cache.State.{CacheValue, KeyValueCache}
use fledge_key_value_service.Cache.KeyValue.{get_key_value_pairs, collect_pairs, add_pair}
use fledge_key_value_service.Cache.KeyValue.Lookup.{visible, get_key_value_pairs_lem}
use fledge_key_value_service.Cache.Sets.{is_empty}
use fledge_key_value_service.Lookup.Types.{StatusOr, ok, err}
use fledge_key_value_service.Lookup.Sharded.Buckets.{contains-append}
use fledge_key_value_service.Handlers.GetValues.{
  get_keys, parsed_or_string, insert_pairs, process_keys,
}

-- No key has two entries.
abbrev pub IsUnique : {V : Type 0} → Map V → Type 0
IsUnique [] = Unit
IsUnique ((k, v) ∷ m) = (find k m ≡ none) × IsUnique m

insert_or_assign-IsUnique :
    {V : Type 0} (k : String) (v : V) (m : Map V) → IsUnique m → IsUnique (insert_or_assign k v m)
unfolding insert_or_assign find
insert_or_assign-IsUnique k v [] h = (refl, tt)
insert_or_assign-IsUnique k v ((j, w) ∷ m) (absent, h) = elim (Bool-cases (j == k)) [
  | inl e ↦
      let same : j ≡ k = (eq_iff j k).0 e in rw e (subst (λ i. find i m ≡ none) same absent, h)
  | inr e ↦ rw e (
    ground (arith, find-insert_or_assign k j v m, eq_iff k j, eq_iff j k, absent),
    insert_or_assign-IsUnique k v m h,
  )
]

add_pair-IsUnique :
    (k : String) (e : Option CacheValue) (m : Map String) → IsUnique m → IsUnique (add_pair k e m)
unfolding add_pair
add_pair-IsUnique k none m h = h
add_pair-IsUnique k (some e) m h = elim (Option-cases e.value) [
  | inl none_left ↦ rw none_left h
  | inr (v, found) ↦ rw found (insert_or_assign-IsUnique k v m h)
]

collect_pairs-IsUnique :
    (entries : Map CacheValue) (keys : List String) (m : Map String)
    → IsUnique m
    → IsUnique (collect_pairs entries keys m)
unfolding collect_pairs
collect_pairs-IsUnique entries [] m h = h
collect_pairs-IsUnique entries (k ∷ keys) m h =
    collect_pairs-IsUnique entries keys (add_pair k (find k entries) m)
      (add_pair-IsUnique k (find k entries) m h)

pairs-IsUnique : (c : KeyValueCache) (keys : List String) → IsUnique (get_key_value_pairs c keys)
unfolding get_key_value_pairs
pairs-IsUnique c keys = collect_pairs-IsUnique c.map keys [] tt

-- Some key argument has the key among its parts.
abbrev pub is_requested : (String → List String) → String → List String → Bool
is_requested split k [] = false
is_requested split k (argument ∷ arguments) =
    contains k (split argument) || is_requested split k arguments

contains-get_keys :
    (split : String → List String) (k : String) (arguments : List String)
    → contains k (get_keys split arguments) ≡ is_requested split k arguments
unfolding get_keys contains
contains-get_keys split k [] = refl
contains-get_keys split k (argument ∷ arguments) =
    contains-append k (split argument) (get_keys split arguments)
    ∙ ap (λ b. contains k (split argument) || b) (contains-get_keys split k arguments)

module _ {V : Type 0} (split : String → List String) (json_string_to_message : String → StatusOr V)
    (set_string_value : String → V) where
  -- A value of the cache as a value of the response: what it is in JSON, or the string that it is.
  abbrev pub shown : String → V
  shown v = elim (json_string_to_message v) [ ok parsed ↦ parsed | err _ ↦ set_string_value v ]

  -- What the response has for a key, after what it had before.
  abbrev pub answer : Option String → Option V → Option V
  answer none before = before
  answer (some v) before = some (shown v)

  parsed_or_string_lem :
      (v : String) (r : StatusOr V)
      → parsed_or_string split json_string_to_message set_string_value v r
        ≡ elim r [ ok parsed ↦ parsed | err _ ↦ set_string_value v ]
  unfolding parsed_or_string
  parsed_or_string_lem v (ok parsed) = refl
  parsed_or_string_lem v (err e) = refl

  insert_pairs_lem :
      (k : String) (pairs : Map String) (result : Map V)
      → IsUnique pairs
      → find k (insert_pairs split json_string_to_message set_string_value pairs result)
        ≡ answer (find k pairs) (find k result)
  unfolding insert_pairs find
  insert_pairs_lem k [] result h = refl
  insert_pairs_lem k ((j, v) ∷ rest) result (absent, h) =
      let value =
        parsed_or_string split json_string_to_message set_string_value v
          (json_string_to_message v) in
      let later = insert_pairs_lem k rest (insert_or_assign j value result) h in
      let here = find-insert_or_assign j k value result in
      elim (Bool-cases (j == k)) [
        | inl e ↦
            let same : j ≡ k = (eq_iff j k).0 e in
            let gone : find k rest ≡ none = subst (λ i. find i rest ≡ none) same absent in
            later ∙ rw (gone, here, e) (ap some (parsed_or_string_lem v (json_string_to_message v)))
        | inr e ↦ later ∙ rw (here, e)
      ]

  -- GetValues adds to a field of the response each key that is a part of some key argument, split at its
  -- commas, and has a visible value in the cache: with the message that this value is in JSON, or as a
  -- string where it cannot be parsed. What the field has for other keys stays.
  pub process_keys-answer :
      (keys : List String) (cache : KeyValueCache) (result : Map V) (k : String)
      → find k (process_keys split json_string_to_message set_string_value keys cache result)
        ≡ answer (if is_requested split k keys then visible cache k else none) (find k result)
  unfolding process_keys get_keys contains is_empty
  process_keys-answer [] cache result k = refl
  process_keys-answer (key ∷ keys) cache result k =
      let all = get_keys split (key ∷ keys) in
      insert_pairs_lem k (get_key_value_pairs cache all) result (pairs-IsUnique cache all)
      ∙ ap (λ v. answer v (find k result)) (get_key_value_pairs_lem cache all k)
      ∙ ap (λ b. answer (if b then visible cache k else none) (find k result))
          (contains-get_keys split k (key ∷ keys))
