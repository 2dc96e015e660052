-- ===== src/Lookup/Local/Queries.antt =====
-- RunQuery of local_lookup.cc: parsing, fetching and evaluating give the set that the query denotes
-- over the cache.
use fledge_key_value_service.Base.{
  String, ◌≡◌, ◌∙◌, Bool, true, false, none, some, List, arith, ◌==◌, eq_refl,
}
use fledge_key_value_service.Base.Maps.{contains}
use fledge_key_value_service.Cache.State.{KeyValueCache}
use fledge_key_value_service.Cache.Sets.{get_value_set, get_key_value_set}
use fledge_key_value_service.Cache.Sets.Members.{is_member, get_key_value_set_lem}
use fledge_key_value_service.Cache.Sets.States.{IsValid}
use fledge_key_value_service.Query.Ast.{
  Node, value_node, op_node, union_node, intersection_node, difference_node,
}
use fledge_key_value_service.Query.Eval.{holds, member_of, eval_lem}
use fledge_key_value_service.Query.Keys.{occurs, keys_lem}
use fledge_key_value_service.Query.Driver.{evaluated, lookup, get_result}
use fledge_key_value_service.Lookup.Types.{invalid_argument, ok, err}
use fledge_key_value_service.Lookup.Local.{Parsed, to_response, run_parsed, process_query}

pub holds_same :
    (f g : String → String → Bool) (n : Node) (v : String)
    → ((k : String) → occurs k n ≡ true → f k v ≡ g k v)
    → holds f n v ≡ holds g n v
unfolding holds occurs
holds_same f g (value_node j) v h = h j (eq_refl j)
holds_same f g (op_node union_node l r) v h = ground (
  arith,
  holds_same f g l v (λ k p. h k (ground arith)),
  holds_same f g r v (λ k p. h k (ground arith)),
)
holds_same f g (op_node intersection_node l r) v h = ground (
  arith,
  holds_same f g l v (λ k p. h k (ground arith)),
  holds_same f g r v (λ k p. h k (ground arith)),
)
holds_same f g (op_node difference_node l r) v h = ground (
  arith,
  holds_same f g l v (λ k p. h k (ground arith)),
  holds_same f g r v (λ k p. h k (ground arith)),
)

module _ (parse : String → Parsed) (c : KeyValueCache) (query : String)
    (given : (query == "") ≡ false) where
  -- On a valid cache, a query that is not empty and that the parser accepts with a tree and no error
  -- is answered with the set of exactly those values that the tree denotes over the value sets which
  -- readers of the cache see.
  pub process_query_lem :
      (n : Node)
      → IsValid c
      → (parse query).failed ≡ false
      → (parse query).error ≡ none
      → (parse query).ast ≡ some n
      → (s : List String) × (process_query parse c query ≡ some (ok s))
        × ((v : String) → contains v s ≡ holds (is_member c) n v)
  unfolding process_query run_parsed to_response get_result evaluated lookup
  process_query_lem n valid fine clean tree =
      let (ks, fetched, in_keys) = keys_lem n in
      let result = get_value_set (get_key_value_set c ks) in
      let (s, evals, member) = eval_lem result n in
      (
        s,
        rw (given, fine, tree) (rw (fetched, run_parsed) (rw clean (rw (evals, evaluated)))),
        λ v.
            member v
            ∙ holds_same (member_of result) (is_member c) n v
                (λ k p. ground (arith, get_key_value_set_lem c ks k v valid.distinct, in_keys k)),
      )

  -- A query that is not empty and that the parser refuses is answered with INVALID_ARGUMENT.
  pub process_query_refused :
      (parse query).failed ≡ true → process_query parse c query ≡ some (err invalid_argument)
  unfolding process_query
  process_query_refused bad = ground arith
