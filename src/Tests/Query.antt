-- ===== src/Tests/Query.antt =====
-- The set queries of components/query on small inputs.
use fledge_key_value_service.Base.{
  String, ◌≡◌, refl, subst, true, arith, eq_iff, some, [], ◌∷◌, ◌==◌, if◌then◌else◌,
}
use fledge_key_value_service.Base.Maps.{contains}
use fledge_key_value_service.Query.Sets.{KvSetView}
use fledge_key_value_service.Query.Ast.{
  Node, value_node, op_node, union_node, difference_node, eval, keys,
}
use fledge_key_value_service.Query.Eval.{holds, member_of, eval_lem}
use fledge_key_value_service.Query.Keys.{occurs, keys_lem}

-- (A | B) - C
abbrev expression : Node
expression =
    op_node difference_node (op_node union_node (value_node "A") (value_node "B")) (value_node "C")

abbrev sets : String → KvSetView
sets k =
    if k == "A"
    then "a" ∷ "b" ∷ []
    else if k == "B"
    then "c" ∷ []
    else if k == "C"
    then "b" ∷ []
    else []

abbrev other_sets : String → KvSetView
other_sets k = if k == "D" then "x" ∷ [] else sets k

eval_lem_example :
    (s : KvSetView) × (eval sets expression ≡ some s)
    × ((v : String) → contains v s ≡ holds (member_of sets) expression v)
eval_lem_example = eval_lem sets expression

keys_lem_example :
    (s : KvSetView) × (keys expression ≡ some s)
    × ((k : String) → contains k s ≡ occurs k expression)
keys_lem_example = keys_lem expression

one_key : keys (value_node "A") ≡ some ("A" ∷ [])
unfolding keys
one_key = refl

agree : (k : String) → contains k ("A" ∷ []) ≡ true → sets k ≡ other_sets k
unfolding contains
agree k h =
    let same : "A" ≡ k = ground (arith, eq_iff "A" k) in
    subst (λ j. sets j ≡ other_sets j) same refl
