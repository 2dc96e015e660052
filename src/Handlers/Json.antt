-- ===== src/Handlers/Json.antt =====
-- What the request handlers use of nlohmann::json.
use fledge_key_value_service.Base.{ℕ, String, Bool, Option, List}

-- `find` gives nothing for what is not an object; `at` is the operator [] of a constant object, and open
-- where the key is missing; `items` is what an iteration passes; `parse` gives nothing where it is
-- discarded.
pub record Json (J : Type 0) : Type 0 where
  pub find : String → J → Option J
  pub at : String → J → J
  pub items : J → List J
  pub is_null : J → Bool
  pub is_array : J → Bool
  pub is_number_integer : J → Bool
  pub is_equal_to : ℕ → J → Bool
  pub null : J
  pub number : ℕ → J
  pub string : String → J
  pub array : List J → J
  pub object : List (String × J) → J
  pub parse : String → Option J
  pub dump : J → String
