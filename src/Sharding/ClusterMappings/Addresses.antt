-- ===== src/Sharding/ClusterMappings/Addresses.antt =====
-- GetInstaceIdToIpMapping of cluster_mappings_manager.cc: which instances are described, and which address an
-- instance has.
use fledge_key_value_service.Base.{
  String, ◌≡◌, refl, ap, subst, ◌∙◌, Bool, true, false, ◌&&◌, ◌||◌, Option, none, some, List, [],
  ◌∷◌, arith, if◌then◌else◌, ◌==◌, Bool-cases, inl, inr,
}
use fledge_key_value_service.Base.Maps.{
  Map, find, find-emplace, emplace, contains, set_insert, contains-set_insert,
}
use fledge_key_value_service.Sharding.ClusterMappings.{
  InstanceInfo, is_in_service, instance_ids, collect_ips, ip_of,
}

-- Some instance in service has that id.
abbrev pub is_serving : String → List InstanceInfo → Bool
is_serving id [] = false
is_serving id (x ∷ rest) = (is_in_service x.service_status && x.id == id) || is_serving id rest

-- The address that the cloud's descriptions give for the id: that of the first one with this id.
abbrev pub address_in : String → List InstanceInfo → Option String
address_in id [] = none
address_in id (x ∷ rest) = if x.id == id then some x.private_ip_address else address_in id rest

pub contains-instance_ids :
    (id : String) (xs : List InstanceInfo) (ids : List String)
    → contains id (instance_ids xs ids) ≡ (contains id ids || is_serving id xs)
unfolding instance_ids
contains-instance_ids id [] ids = ground arith
contains-instance_ids id (x ∷ xs) ids = elim (Bool-cases (is_in_service x.service_status)) [
  | inl e ↦ rw e (
      contains-instance_ids id xs (set_insert x.id ids)
      ∙ ground (arith, contains-set_insert x.id id ids))
  | inr e ↦ rw e (contains-instance_ids id xs ids)
]

abbrev or_else : Option String → Option String → Option String
or_else none after = after
or_else (some a) after = some a

or_else-none : (o : Option String) → o ≡ or_else o none
or_else-none none = refl
or_else-none (some a) = refl

or_else-emplace :
    (o after : Option String) (b : Bool) (v : String)
    → or_else (elim o [ some w ↦ some w | none ↦ if b then some v else none ]) after
      ≡ or_else o (if b then some v else after)
or_else-emplace none after true v = refl
or_else-emplace none after false v = refl
or_else-emplace (some a) after b v = refl

find-collect_ips :
    (id : String) (xs : List InstanceInfo) (m : Map String)
    → find id (collect_ips xs m) ≡ or_else (find id m) (address_in id xs)
unfolding collect_ips
find-collect_ips id [] m = or_else-none (find id m)
find-collect_ips id (x ∷ xs) m =
    find-collect_ips id xs (emplace x.id x.private_ip_address m)
    ∙ ap (λ o. or_else o (address_in id xs)) (find-emplace x.id id x.private_ip_address m)
    ∙ or_else-emplace (find id m) (address_in id xs) (x.id == id) x.private_ip_address

pub find-collect_ips_all :
    (id : String) (xs : List InstanceInfo) → find id (collect_ips xs []) ≡ address_in id xs
unfolding find
find-collect_ips_all id xs = find-collect_ips id xs []

pub ip_of_lem :
    (o : Option String) (ip : String) → ip_of o ≡ some ip → (o ≡ some ip) × ((ip == "") ≡ false)
unfolding ip_of
ip_of_lem none ip h = absurd (cc h)
ip_of_lem (some a) ip h = elim (Bool-cases (a == "")) [
  | inl e ↦ let h' = rw e at h in absurd (cc h')
  | inr e ↦
      let h' : some a ≡ some ip = rw e at h in
      let same : a ≡ ip = cc h' in (h', subst (λ z. (z == "") ≡ false) same e)
]
