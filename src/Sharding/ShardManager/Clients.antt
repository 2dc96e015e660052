-- ===== src/Sharding/ShardManager/Clients.antt =====
-- Every replica of a mapping has the client that the factory made for its address.
use fledge_key_value_service.Base.{
  ℕ, zero, suc, ◌≤◌, ◌<◌, String, ◌≡◌, refl, ◌∙◌, Bool, true, false, ◌||◌, some, List, [], ◌∷◌,
  arith, eqb, ltb, eq_iff, ◌==◌, ◌⊎◌, subst, if◌then◌else◌, Bool-cases, Option-cases, inl, inr,
}
use fledge_key_value_service.Base.Ints.{ℤ, pos, negsuc}
use fledge_key_value_service.Base.Lists.{length, get_elem?}
use fledge_key_value_service.Base.Maps.{Map, find, contains, find-emplace}
use fledge_key_value_service.Cache.Sets.{is_empty}
use fledge_key_value_service.Lookup.Types.{ok, err, invalid_argument}
use fledge_key_value_service.Sharding.ShardManager.{
  ShardManager, has_empty_set, validate_mapping, insert_client, insert_clients, insert_shards,
  insert_batch, create, client_of, pick, get,
}

module _ {ℓ} {C : Type ℓ} (client_factory : String → C) where
  -- A client that is kept was made for its address.
  abbrev pub AreMade : Map C → Type ℓ
  AreMade clients = (ip : String) (c : C) → find ip clients ≡ some c → c ≡ client_factory ip

  find-insert_client :
      (ip j : String) (clients : Map C)
      → AreMade clients
      → find j (insert_client client_factory ip (find ip clients) clients)
        ≡ (if ip == j then some (client_factory j) else find j clients)
  unfolding insert_client
  find-insert_client ip j clients made = elim (Option-cases (find ip clients)) [
    | inl e ↦ rw e (ground (arith, find-emplace ip j (client_factory ip) clients, eq_iff ip j))
    | inr (c, e) ↦ rw e (ground (arith, eq_iff ip j, e, made ip c e))
  ]

  AreMade-insert_client :
      (ip : String) (clients : Map C)
      → AreMade clients
      → AreMade (insert_client client_factory ip (find ip clients) clients)
  AreMade-insert_client ip clients made j c e =
      ground (arith, find-insert_client ip j clients made, made j c, e)

  find-insert_clients :
      (ips : List String) (j : String) (clients : Map C)
      → AreMade clients
      → find j (insert_clients client_factory ips clients)
        ≡ (if contains j ips then some (client_factory j) else find j clients)
  unfolding insert_clients contains
  find-insert_clients [] j clients made = refl
  find-insert_clients (ip ∷ ips) j clients made =
      let next = insert_client client_factory ip (find ip clients) clients in
      ground (
        arith,
        find-insert_clients ips j next (AreMade-insert_client ip clients made),
        find-insert_client ip j clients made,
      )

  AreMade-insert_clients :
      (ips : List String) (clients : Map C)
      → AreMade clients
      → AreMade (insert_clients client_factory ips clients)
  unfolding insert_clients
  AreMade-insert_clients [] clients made = made
  AreMade-insert_clients (ip ∷ ips) clients made =
      AreMade-insert_clients ips (insert_client client_factory ip (find ip clients) clients)
        (AreMade-insert_client ip clients made)

  AreMade-insert_shards :
      (ms : List (List String)) (clients : Map C)
      → AreMade clients
      → AreMade (insert_shards client_factory ms clients)
  unfolding insert_shards
  AreMade-insert_shards [] clients made = made
  AreMade-insert_shards (ips ∷ ms) clients made =
      AreMade-insert_shards ms (insert_clients client_factory ips clients)
        (AreMade-insert_clients ips clients made)

  -- The address is one of the replicas of some shard.
  lists : String → List (List String) → Bool
  lists ip [] = false
  lists ip (ips ∷ ms) = contains ip ips || lists ip ms

  find-insert_shards :
      (ms : List (List String)) (j : String) (clients : Map C)
      → AreMade clients
      → find j (insert_shards client_factory ms clients)
        ≡ (if lists j ms then some (client_factory j) else find j clients)
  unfolding insert_shards lists
  find-insert_shards [] j clients made = refl
  find-insert_shards (ips ∷ ms) j clients made = ground (
    arith,
    find-insert_shards ms j (insert_clients client_factory ips clients)
        (AreMade-insert_clients ips clients made),
    find-insert_clients ips j clients made,
  )

  lists-get_elem? :
      (ms : List (List String)) (i : ℕ) (ips : List String) (j : String)
      → get_elem? ms i ≡ some ips
      → contains j ips ≡ true
      → lists j ms ≡ true
  unfolding lists
  lists-get_elem? [] i ips j e h = absurd (cc)
  lists-get_elem? (x ∷ ms) zero ips j e h = ground (arith, e)
  lists-get_elem? (x ∷ ms) (suc i) ips j e h = ground (arith, lists-get_elem? ms i ips j e h)

get_elem?-contains :
    (ips : List String) (i : ℕ)
    → i < length ips
    → (ip : String) × (get_elem? ips i ≡ some ip) × (contains ip ips ≡ true)
unfolding contains
get_elem?-contains [] i lt = absurd (omega arith)
get_elem?-contains (x ∷ ips) zero lt = (x, refl, ground (arith, eq_iff x x))
get_elem?-contains (x ∷ ips) (suc i) lt =
    let (ip, e, h) = get_elem?-contains ips i (omega arith) in (ip, e, ground (arith, h))

-- A mapping without an empty set has replicas at every index.
get_elem?-replicas :
    (ms : List (List String)) (i : ℕ)
    → has_empty_set ms ≡ false
    → i < length ms
    → (ips : List String) × (get_elem? ms i ≡ some ips) × (is_empty ips ≡ false)
unfolding has_empty_set
get_elem?-replicas [] i h lt = absurd (omega arith)
get_elem?-replicas (x ∷ ms) zero h lt = (x, refl, ground (arith, h))
get_elem?-replicas (x ∷ ms) (suc i) h lt = get_elem?-replicas ms i (ground (arith, h)) (omega arith)

-- The generator stays below its bound.
abbrev pub IsInRange : (ℕ → ℕ) → Type 0
IsInRange random = (n : ℕ) → 0 < n → random n < n

length-positive : (ips : List String) → is_empty ips ≡ false → 0 < length ips
unfolding is_empty
length-positive [] h = absurd (cc)
length-positive (x ∷ ips) h = omega arith

module _ {ℓ} {C : Type ℓ} (client_factory : String → C) where
  -- Where the clients kept so far were made for their addresses, after a batch of the right size, with
  -- no empty set, the manager gives for every shard number in range the client of one of the replicas
  -- that the batch lists for that shard.
  pub get-insert_batch :
      (m : ShardManager C) (ms : List (List String)) (random : ℕ → ℕ) (i : ℕ)
      → AreMade client_factory m.remote_lookup_clients
      → length ms ≡ m.num_shards
      → has_empty_set ms ≡ false
      → IsInRange random
      → i < m.num_shards
      → (ips : List String) × (ip : String) × (get_elem? ms i ≡ some ips)
        × (contains ip ips ≡ true)
        × (get (insert_batch client_factory m ms) random (pos i) ≡ some (client_factory ip))
  unfolding insert_batch get pick client_of
  get-insert_batch m ms random i made size full range lt =
      let (ips, at, some_ip) = get_elem?-replicas ms i full (omega arith) in
      let (ip, picked, listed) =
        get_elem?-contains ips (random (length ips))
          (range (length ips) (length-positive ips some_ip)) in
      let same : eqb (length ms) m.num_shards ≡ true = ground arith in
      let below : ltb i m.num_shards ≡ true = ground arith in
      (
        ips,
        ip,
        at,
        listed,
        rw same (
            rw (same, below)
              (rw at (
                rw (some_ip, picked)
                  (find-insert_shards client_factory ms ip m.remote_lookup_clients made
                    ∙ rw (lists-get_elem? client_factory ms i ips ip at listed))))),
      )

validated :
    (n : ℤ) (ms : List (List String))
    → (validate_mapping n ms ≡ err invalid_argument)
      ⊎ ((validate_mapping n ms ≡ ok tt) × (2 ≤ length ms) × (has_empty_set ms ≡ false))
unfolding validate_mapping
validated (negsuc n) ms = inl refl
validated (pos n) ms = elim (Bool-cases (ltb n 2)) [
  | inl e ↦ inl (rw e)
  | inr e ↦ elim (Bool-cases (eqb n (length ms))) [
    | inr d ↦ inl (rw (e, d))
    | inl d ↦ elim (Bool-cases (has_empty_set ms)) [
      | inl f ↦ inl (rw (e, d, f))
      | inr f ↦ inr (rw (e, d, f), ground arith, f)
    ]
  ]
]

module _ {ℓ} {C : Type ℓ} (client_factory : String → C) where
  -- What Create accepts has at least two shards, none of them without a replica, and the manager gives
  -- for every shard number below their count the client of one of the replicas of that shard.
  pub create-get :
      (n : ℤ) (ms : List (List String)) (m : ShardManager C) (random : ℕ → ℕ) (i : ℕ)
      → create client_factory n ms ≡ ok m
      → IsInRange random
      → i < length ms
      → (2 ≤ length ms)
        × ((ips : List String) × (ip : String) × (get_elem? ms i ≡ some ips)
            × (contains ip ips ≡ true)
            × (get m random (pos i) ≡ some (client_factory ip)))
  unfolding create find
  create-get n ms m random i made range lt = elim (validated n ms) [
    | inl e ↦ absurd (refused e)
    | inr (e, two, full) ↦
        let (ips, ip, at, listed, found) =
          get-insert_batch client_factory empty ms random i (λ ip c h. absurd (cc)) refl full range
            lt in
        (
          two,
          (
            ips,
            ip,
            at,
            listed,
            subst (λ k. get k random (pos i) ≡ some (client_factory ip)) (same e) found,
          ),
        )
  ]
    where
      empty : ShardManager C
      empty = record { num_shards = length ms; cluster_mappings = []; remote_lookup_clients = [] }

      refused : validate_mapping n ms ≡ err invalid_argument → ⊥
      refused e = ground (arith, made, e)

      same : validate_mapping n ms ≡ ok tt → insert_batch client_factory empty ms ≡ m
      same e =
          let accepted : create client_factory n ms ≡ ok (insert_batch client_factory empty ms) =
            rw e in
          ground (arith, accepted, made)
