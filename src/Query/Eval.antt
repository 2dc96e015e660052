-- ===== src/Query/Eval.antt =====
-- The stack machine of ast.cc against the tree.
use mathlib.Core.List.{reverse, reverse-append, append_assoc, append-nil}
use fledge_key_value_service.Base.{
  ℕ, zero, suc, ◌+◌, ◌≤◌, String, ◌≡◌, refl, ◌∙◌, Bool, not, ◌&&◌, ◌||◌, some, inl, inr,
  Option-cases, List, [], ◌∷◌, ◌++◌, arith,
}
use fledge_key_value_service.Base.Maps.{contains}
use fledge_key_value_service.Query.Sets.{
  KvSetView, contains-union, contains-intersection, contains-difference,
}
use fledge_key_value_service.Query.Ast.{
  union_node, intersection_node, difference_node, Node, value_node, op_node, left, right, op, size,
  traverse, post_order_traversal, visit, visit_all, compute, eval, ◌>>=◌,
}

-- The tree read as a set expression.
unfoldable pub denote : (String → KvSetView) → Node → KvSetView
denote lookup (value_node k) = lookup k
denote lookup (op_node o l r) = op o (denote lookup l) (denote lookup r)

-- What the expression says of one element, where `member` says it of the set of each key.
unfoldable pub holds : (String → String → Bool) → Node → String → Bool
holds member (value_node k) v = member k v
holds member (op_node union_node l r) v = holds member l v || holds member r v
holds member (op_node intersection_node l r) v = holds member l v && holds member r v
holds member (op_node difference_node l r) v = holds member l v && not (holds member r v)

abbrev pub member_of : (String → KvSetView) → String → String → Bool
member_of lookup k v = contains v (lookup k)

-- The children of a node before the node, left before right.
unfoldable pub post_order : Node → List Node
post_order (value_node k) = value_node k ∷ []
post_order (op_node o l r) = post_order l ++ (post_order r ++ op_node o l r ∷ [])

stack_order : List Node → List Node
stack_order [] = []
stack_order (n ∷ ns) = stack_order ns ++ post_order n

stack_size : List Node → ℕ
stack_size [] = 0
stack_size (n ∷ ns) = size n + stack_size ns

traverse_total :
    (fuel : ℕ) (stack result : List Node)
    → stack_size stack ≤ fuel
    → traverse fuel stack result ≡ some (stack_order stack ++ reverse result)
unfolding traverse left right stack_order stack_size size post_order
traverse_total fuel [] result h = refl
traverse_total zero (value_node k ∷ ns) result h = absurd (omega arith)
traverse_total zero (op_node o l r ∷ ns) result h = absurd (omega arith)
traverse_total (suc fuel) (value_node k ∷ ns) result h =
    traverse_total fuel ns (result ++ value_node k ∷ []) (omega arith)
    ∙ simp (reverse-append, append_assoc)
traverse_total (suc fuel) (op_node o l r ∷ ns) result h =
    traverse_total fuel (r ∷ l ∷ ns) (result ++ op_node o l r ∷ []) (omega arith)
    ∙ simp (reverse-append, append_assoc)

visit_all-append :
    (lookup : String → KvSetView) (xs ys : List Node) (s : List KvSetView)
    → visit_all lookup (xs ++ ys) s ≡ (visit_all lookup xs s >>= visit_all lookup ys)
unfolding visit_all
visit_all-append lookup [] ys s = refl
visit_all-append lookup (x ∷ xs) ys s = elim (Option-cases (visit lookup x s)) [
  | inl e ↦ rw e
  | inr (s', e) ↦ rw e (visit_all-append lookup xs ys s')
]

visit_all-post_order :
    (lookup : String → KvSetView) (n : Node) (s : List KvSetView)
    → visit_all lookup (post_order n) s ≡ some (denote lookup n ∷ s)
unfolding visit_all post_order denote visit
visit_all-post_order lookup (value_node k) s = refl
visit_all-post_order lookup (op_node o l r) s =
    rw (visit_all-append, visit_all-post_order lookup l s, visit_all-append)
      (rw (visit_all-post_order lookup r (denote lookup l ∷ s)))

contains-denote :
    (lookup : String → KvSetView) (n : Node) (v : String)
    → contains v (denote lookup n) ≡ holds (member_of lookup) n v
unfolding denote holds op
contains-denote lookup (value_node k) v = refl
contains-denote lookup (op_node union_node l r) v =
    rw (contains-union, contains-denote lookup l v, contains-denote lookup r v)
contains-denote lookup (op_node intersection_node l r) v =
    rw (contains-intersection, contains-denote lookup l v, contains-denote lookup r v)
contains-denote lookup (op_node difference_node l r) v =
    rw (contains-difference, contains-denote lookup l v, contains-denote lookup r v)

pub post_order_traversal_lem : (n : Node) → post_order_traversal n ≡ some (post_order n)
unfolding post_order_traversal stack_order stack_size
post_order_traversal_lem n = traverse_total (size n) (n ∷ []) [] (omega arith) ∙ simp append-nil

pub eval-denote : (lookup : String → KvSetView) (n : Node) → eval lookup n ≡ some (denote lookup n)
unfolding eval compute
eval-denote lookup n = rw post_order_traversal_lem (rw (visit_all-post_order lookup n []))

-- Eval always gives a set, for every tree and lookup function: the traversal ends and no operation
-- meets a stack with too few sets. An element is in it exactly if the tree says so, read as a union,
-- intersection or difference of its left and its right part at each operator.
pub eval_lem :
    (lookup : String → KvSetView) (n : Node)
    → (s : KvSetView) × (eval lookup n ≡ some s)
      × ((v : String) → contains v s ≡ holds (member_of lookup) n v)
eval_lem lookup n = (denote lookup n, eval-denote lookup n, contains-denote lookup n)
