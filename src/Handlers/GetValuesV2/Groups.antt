-- ===== src/Handlers/GetValuesV2/Groups.antt =====
-- What the core of GetValues makes of the partitions.
use fledge_key_value_service.Base.{◌≡◌, String, true, some, List, [], ◌∷◌}
use fledge_key_value_service.Lookup.Types.{StatusOr, ok, err}
use fledge_key_value_service.Handlers.Json.{Json}
use fledge_key_value_service.Handlers.GetValuesV2.{Groups, process_partition}

module _ {J : Type 0} (json : Json J) (execute_code : List String → StatusOr String) where
  -- The outputs of the partitions that do not fail, in their order.
  abbrev pub success : StatusOr J → List J → List J
  success (err e) outputs = outputs
  success (ok output) outputs = output ∷ outputs

  abbrev pub successes : J → List J → List J
  successes context [] = []
  successes context (partition ∷ rest) =
      success (process_partition json execute_code context partition) (successes context rest)

  -- One group of all outputs, or none where there is no output.
  abbrev pub one_group : List J → Groups J
  one_group [] = []
  one_group (x ∷ xs) = (0, x ∷ xs) ∷ []

  -- The partition has a compression group that is an integer.
  abbrev pub HasGroup : J → Type 0
  HasGroup partition =
      (group : J) × (json.find "compressionGroup" partition ≡ some group)
      × (json.is_number_integer group ≡ true)
