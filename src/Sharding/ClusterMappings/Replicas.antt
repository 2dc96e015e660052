-- ===== src/Sharding/ClusterMappings/Replicas.antt =====
-- The mapping has one set for each shard, of the addresses of its instances in service.
use fledge_key_value_service.Base.{
  ℕ, zero, suc, ◌<◌, String, ◌≡◌, refl, sym, ap, ◌∙◌, ◌↔◌, ◌⊎◌, Bool, true, false, ◌&&◌, ◌||◌,
  Option, none, some, List, [], ◌∷◌, arith, eqb, ltb, ◌==◌, eq_iff, Bool-cases, inl, inr,
}
use fledge_key_value_service.Base.Lists.{length, replicate, length-replicate}
use fledge_key_value_service.Base.Maps.{Map, find, contains, contains-set_insert}
use fledge_key_value_service.Lookup.Types.{StatusOr, ok, err}
use fledge_key_value_service.Sharding.AsgName.{get_shard_number_off_asg_name}
use fledge_key_value_service.Sharding.AsgName.Names.{
  IsAsgName, IsAsgName-get_shard_number, get_shard_number-IsAsgName,
}
use fledge_key_value_service.Sharding.ClusterMappings.{
  InstanceInfo, InstanceServiceStatus, unknown, pre_service, in_service, post_service,
  is_in_service, instance_ids, collect_ips, insert_ip, ip_of, add_replica, group_instances,
  get_instance_id_to_ip_mapping, group_instances_to_cluster_mappings,
}
use fledge_key_value_service.Sharding.ClusterMappings.Addresses.{
  is_serving, address_in, contains-instance_ids, find-collect_ips_all, ip_of_lem,
}

-- The set of a shard; a shard that is out of range has none.
unfoldable pub replicas_of : List (List String) → ℕ → List String
replicas_of [] i = []
replicas_of (s ∷ rest) zero = s
replicas_of (s ∷ rest) (suc i) = replicas_of rest i

-- The shard number and the address are those.
unfoldable is_at : ℕ → String → StatusOr ℕ → Option String → Bool
is_at i ip (err e) found = false
is_at i ip (ok n) none = false
is_at i ip (ok n) (some address) = eqb n i && address == ip

-- Some instance in service has a group name with that shard number, and that address.
unfoldable is_replica : String → Map String → ℕ → String → List InstanceInfo → Bool
is_replica environment id_to_ip i ip [] = false
is_replica environment id_to_ip i ip (x ∷ rest) =
    (is_in_service x.service_status
      && is_at i ip (get_shard_number_off_asg_name environment x.instance_group)
          (ip_of (find x.id id_to_ip)))
    || is_replica environment id_to_ip i ip rest

length-insert_ip :
    (i : ℕ) (ip : String) (ms : List (List String)) → length (insert_ip i ip ms) ≡ length ms
unfolding insert_ip
length-insert_ip i ip [] = refl
length-insert_ip zero ip (s ∷ ms) = refl
length-insert_ip (suc i) ip (s ∷ ms) = omega (arith, length-insert_ip i ip ms)

replicas_of-insert_ip :
    (j : ℕ) (address : String) (ms : List (List String)) (i : ℕ) (ip : String)
    → j < length ms
    → contains ip (replicas_of (insert_ip j address ms) i)
      ≡ (contains ip (replicas_of ms i) || (eqb j i && address == ip))
unfolding insert_ip replicas_of
replicas_of-insert_ip j address [] i ip lt = absurd (omega arith)
replicas_of-insert_ip zero address (s ∷ ms) zero ip lt =
    ground (arith, contains-set_insert address ip s)
replicas_of-insert_ip zero address (s ∷ ms) (suc i) ip lt = ground arith
replicas_of-insert_ip (suc j) address (s ∷ ms) zero ip lt = ground arith
replicas_of-insert_ip (suc j) address (s ∷ ms) (suc i) ip lt =
    ground (arith, replicas_of-insert_ip j address ms i ip (omega arith))

module _ (num_shards : ℕ) (ms : List (List String)) (size : length ms ≡ num_shards) where
  length-add_replica :
      (n : StatusOr ℕ) (found : Option String)
      → length (add_replica num_shards n found ms) ≡ num_shards
  unfolding add_replica
  length-add_replica (err e) found = size
  length-add_replica (ok n) none = size
  length-add_replica (ok n) (some ip) = ground (arith, size, length-insert_ip n ip ms)

  replicas_of-add_replica :
      (n : StatusOr ℕ) (found : Option String) (i : ℕ) (ip : String)
      → i < num_shards
      → contains ip (replicas_of (add_replica num_shards n found ms) i)
        ≡ (contains ip (replicas_of ms i) || is_at i ip n found)
  unfolding add_replica is_at
  replicas_of-add_replica (err e) found i ip lt = ground arith
  replicas_of-add_replica (ok n) none i ip lt = ground arith
  replicas_of-add_replica (ok n) (some address) i ip lt = elim (Bool-cases (ltb n num_shards)) [
    | inl e ↦ rw e (replicas_of-insert_ip n address ms i ip (ground arith))
    | inr e ↦ rw e (ground arith)
  ]

module _ (environment : String) (num_shards : ℕ) (id_to_ip : Map String) where
  grouped :
      (xs : List InstanceInfo) (ms : List (List String))
      → length ms ≡ num_shards
      → (length (group_instances environment num_shards id_to_ip xs ms) ≡ num_shards)
        × ((i : ℕ) (ip : String)
            → i < num_shards
            → contains ip (replicas_of (group_instances environment num_shards id_to_ip xs ms) i)
              ≡ (contains ip (replicas_of ms i) || is_replica environment id_to_ip i ip xs))
  unfolding group_instances is_replica
  grouped [] ms size = (size, λ i ip lt. ground arith)
  grouped (x ∷ xs) ms size = elim (Bool-cases (is_in_service x.service_status)) [
    | inr e ↦ let (a, b) = grouped xs ms size in (rw e a, λ i ip lt. rw e (b i ip lt))
    | inl e ↦
        let n = get_shard_number_off_asg_name environment x.instance_group in
        let found = ip_of (find x.id id_to_ip) in
        let next = add_replica num_shards n found ms in
        let (a, b) = grouped xs next (length-add_replica num_shards ms size n found) in
        (
          rw e a,
          λ i ip lt. rw e (
              b i ip lt
              ∙ ground (arith, replicas_of-add_replica num_shards ms size n found i ip lt)),
        )
  ]

empty_replicas : (n i : ℕ) (ip : String) → contains ip (replicas_of (replicate n []) i) ≡ false
unfolding replicas_of contains
empty_replicas zero i ip = refl
empty_replicas (suc n) zero ip = refl
empty_replicas (suc n) (suc i) ip = empty_replicas n i ip

-- Some instance in service has a name with that shard number, and that address, which is not empty.
abbrev pub IsReplica : String → List InstanceInfo → ℕ → String → List InstanceInfo → Type 0
IsReplica environment described i ip [] = ⊥
IsReplica environment described i ip (x ∷ rest) =
    ((x.service_status ≡ in_service)
      × IsAsgName environment i x.instance_group
      × (address_in x.id described ≡ some ip)
      × ((ip == "") ≡ false))
    ⊎ IsReplica environment described i ip rest

is_in_service_lem :
    (status : InstanceServiceStatus) → is_in_service status ≡ true → status ≡ in_service
is_in_service_lem unknown h = absurd (cc h)
is_in_service_lem pre_service h = absurd (cc h)
is_in_service_lem in_service h = refl
is_in_service_lem post_service h = absurd (cc h)

is_at_lem :
    (i : ℕ) (ip : String) (n : StatusOr ℕ) (found : Option String)
    → is_at i ip n found ≡ true
    → (n ≡ ok i) × (found ≡ some ip)
unfolding is_at
is_at_lem i ip (err e) found h = absurd (cc h)
is_at_lem i ip (ok n) none h = absurd (cc h)
is_at_lem i ip (ok n) (some address) h =
    let number : n ≡ i = ground (arith, h) in
    let same : (address == ip) ≡ true = ground (arith, h) in
    (ap ok number, ap some ((eq_iff address ip).0 same))

is_at_same : (i : ℕ) (ip : String) → is_at i ip (ok i) (some ip) ≡ true
unfolding is_at
is_at_same i ip = ground (arith, eq_iff ip ip)

ip_of-some : (ip : String) → (ip == "") ≡ false → ip_of (some ip) ≡ some ip
unfolding ip_of
ip_of-some ip h = rw h refl

module _ (environment : String) (described : List InstanceInfo) (i : ℕ) (ip : String) where
  is_replica-IsReplica :
      (xs : List InstanceInfo)
      → is_replica environment (collect_ips described []) i ip xs ≡ true
      → IsReplica environment described i ip xs
  unfolding is_replica
  is_replica-IsReplica [] h = absurd (cc h)
  is_replica-IsReplica (x ∷ xs) h =
      let n = get_shard_number_off_asg_name environment x.instance_group in
      let found = ip_of (find x.id (collect_ips described [])) in
      elim (Bool-cases (is_in_service x.service_status && is_at i ip n found)) [
        | inr e ↦ inr (is_replica-IsReplica xs (rw e at h))
        | inl e ↦
            let (number, address) = is_at_lem i ip n found (ground (arith, e)) in
            let (at, full) = ip_of_lem (find x.id (collect_ips described [])) ip address in
            inl (
              is_in_service_lem x.service_status (ground (arith, e)),
              get_shard_number-IsAsgName environment i x.instance_group number,
              sym (find-collect_ips_all x.id described) ∙ at,
              full,
            )
      ]

  IsReplica-is_replica :
      (xs : List InstanceInfo)
      → IsReplica environment described i ip xs
      → is_replica environment (collect_ips described []) i ip xs ≡ true
  unfolding is_replica
  IsReplica-is_replica [] h = absurd h
  IsReplica-is_replica (x ∷ xs) (inr later) = ground (arith, IsReplica-is_replica xs later)
  IsReplica-is_replica (x ∷ xs) (inl (serving, name, at, full)) =
      let n = get_shard_number_off_asg_name environment x.instance_group in
      let found = ip_of (find x.id (collect_ips described [])) in
      let number : n ≡ ok i = IsAsgName-get_shard_number environment i x.instance_group name in
      let address : found ≡ some ip =
        ap ip_of (find-collect_ips_all x.id described ∙ at) ∙ ip_of-some ip full in
      let here : is_at i ip n found ≡ true =
        ap (λ m. is_at i ip m found) number ∙ ap (is_at i ip (ok i)) address ∙ is_at_same i ip in
      let in_use : is_in_service x.service_status ≡ true = ap is_in_service serving in
      ground (arith, here, in_use)

-- The mapping has one set for each shard number below the number of shards. The cloud is asked to describe
-- the instances in service and no others. The set of a shard then holds an address exactly if some
-- instance in service has the group name kv-server-<environment>-<digits>-instance-asg with digits of the
-- shard's number, which an int32_t holds, and that address is not empty and is the one in the
-- first description with this instance's id.
pub group_instances_lem :
    (environment : String) (num_shards : ℕ) (describe : List String → List InstanceInfo)
    (xs : List InstanceInfo) (i : ℕ) (ip : String)
    → i < num_shards
    → (length (group_instances_to_cluster_mappings environment num_shards describe xs) ≡ num_shards)
      × ((ids : List String) × ((id : String) → contains id ids ≡ is_serving id xs)
          × ((contains ip (
                  replicas_of
                    (group_instances_to_cluster_mappings environment num_shards describe xs)
                    i)
                ≡ true)
              ↔ IsReplica environment (describe ids) i ip xs))
unfolding group_instances_to_cluster_mappings get_instance_id_to_ip_mapping
group_instances_lem environment num_shards describe xs i ip lt =
    let ids = instance_ids xs [] in
    let (a, b) =
      grouped environment num_shards (collect_ips (describe ids) []) xs (replicate num_shards [])
        (length-replicate {A = List String} num_shards []) in
    let e = b i ip lt ∙ ground (arith, empty_replicas num_shards i ip) in
    (
      a,
      (
        ids,
        λ id. contains-instance_ids id xs [] ∙ unfold contains in refl,
        (
          λ h. is_replica-IsReplica environment (describe ids) i ip xs (sym e ∙ h),
          λ r. e ∙ IsReplica-is_replica environment (describe ids) i ip xs r,
        ),
      ),
    )
