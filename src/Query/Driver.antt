-- ===== src/Query/Driver.antt =====
-- components/query/driver.h and driver.cc. The parser that fills a driver is generated code.
use fledge_key_value_service.Base.{String, Option, none, some, []}
use fledge_key_value_service.Query.Sets.{KvSetView}
use fledge_key_value_service.Query.Ast.{Node, eval}

-- `error` is the message of `status_`, if that is not OK.
pub record Driver : Type 0 where
  pub lookup_fn : String → KvSetView
  pub ast : Option Node
  pub error : Option String

unfoldable pub driver : (String → KvSetView) → Driver
driver lookup_fn = record { lookup_fn = lookup_fn; ast = none; error = none }

unfoldable pub lookup : Driver → String → KvSetView
lookup d key = d.lookup_fn key

unfoldable pub set_ast : Driver → Node → Driver
set_ast d n = record d { ast = some n }

unfoldable pub set_error : Driver → String → Driver
set_error d message = record d { error = some message }

unfoldable pub get_root_node : Driver → Option Node
get_root_node d = d.ast

-- An InvalidArgument status with its message, a set, or an evaluation that went wrong.
pub data Outcome : Type 0 where
  invalid_argument : String → Outcome
  elements : KvSetView → Outcome
  stuck : Outcome

unfoldable pub evaluated : Option KvSetView → Outcome
evaluated none = stuck
evaluated (some s) = elements s

unfoldable pub get_result : Driver → Outcome
unfolding evaluated lookup
get_result d = elim d.error [
  | some message ↦ invalid_argument message
  | none ↦ elim d.ast [ none ↦ elements [] | some n ↦ evaluated (eval (lookup d) n) ]
]
