-- ===== src/Query/Ast.antt =====
-- components/query/ast.h and ast.cc. The lookup function that the value nodes are bound to is one
-- argument of what calls it. A vector used as a stack is a list whose head is its back.
use mathlib.Core.List.{reverse}
use fledge_key_value_service.Base.{
  ℕ, zero, suc, ◌+◌, String, Option, none, some, List, [], ◌∷◌, ◌++◌,
}
use fledge_key_value_service.Base.Maps.{set_insert}
use fledge_key_value_service.Query.Sets.{KvSetView, union, intersection, difference}

pub data Operator : Type 0 where
  union_node intersection_node difference_node : Operator

-- ValueNode, and OpNode with its three subclasses.
pub data Node : Type 0 where
  value_node : String → Node
  op_node : Operator → Node → Node → Node

unfoldable pub left : Node → Option Node
left (value_node k) = none
left (op_node o l r) = some l

unfoldable pub right : Node → Option Node
right (value_node k) = none
right (op_node o l r) = some r

-- OpNode::Op
unfoldable pub op : Operator → KvSetView → KvSetView → KvSetView
op union_node l r = union l r
op intersection_node l r = intersection l r
op difference_node l r = difference l r

-- The number of nodes: the loops below make one round for each.
unfoldable pub size : Node → ℕ
size (value_node k) = 1
size (op_node o l r) = 1 + size l + size r

abbrev pub push : Option Node → List Node → List Node
push none stack = stack
push (some n) stack = n ∷ stack

-- The loop of PostOrderTraversal on fuel; `none` means that the fuel ran out.
unfoldable pub traverse : ℕ → List Node → List Node → Option (List Node)
unfolding left right
traverse fuel [] result = some (reverse result)
traverse zero (top ∷ stack) result = none
traverse (suc fuel) (top ∷ stack) result =
    traverse fuel (push (right top) (push (left top) stack)) (result ++ top ∷ [])

unfoldable pub post_order_traversal : Node → Option (List Node)
unfolding traverse size
post_order_traversal root = traverse (size root) (root ∷ []) []

-- ASTStackVisitor::Visit; `none` stands for taking the back of an empty vector.
unfoldable pub visit : (String → KvSetView) → Node → List KvSetView → Option (List KvSetView)
unfolding op
visit lookup (value_node k) stack = some (lookup k ∷ stack)
visit lookup (op_node o l r) (y ∷ x ∷ stack) = some (op o x y ∷ stack)
visit lookup (op_node o l r) stack = none

infixl 5 ◌>>=◌
abbrev pub ◌>>=◌ {ℓ κ} : {A : Type ℓ} {B : Type κ} → Option A → (A → Option B) → Option B
none >>= f = none
some a >>= f = f a

-- The loop of Compute.
unfoldable pub visit_all :
    (String → KvSetView) → List Node → List KvSetView → Option (List KvSetView)
unfolding visit
visit_all lookup [] stack = some stack
visit_all lookup (n ∷ postorder) stack = do
  stack' ← visit lookup n stack
  visit_all lookup postorder stack'

abbrev pub back {ℓ} : {A : Type ℓ} → List A → Option A
back [] = none
back (x ∷ _) = some x

unfoldable pub compute : (String → KvSetView) → List Node → Option KvSetView
unfolding visit_all
compute lookup postorder = do stack ← visit_all lookup postorder []; back stack

unfoldable pub eval : (String → KvSetView) → Node → Option KvSetView
unfolding post_order_traversal compute
eval lookup node = do postorder ← post_order_traversal node; compute lookup postorder

-- The loop of OpNode::Keys: a node with no children is a value node, whose only key is merged in.
unfoldable pub collect_keys : ℕ → List Node → KvSetView → Option KvSetView
unfolding left right
collect_keys fuel [] key_set = some key_set
collect_keys zero (next ∷ nodes) key_set = none
collect_keys (suc fuel) (value_node k ∷ nodes) key_set =
    collect_keys fuel nodes (set_insert k key_set)
collect_keys (suc fuel) (op_node o l r ∷ nodes) key_set =
    collect_keys fuel (push (some r) (push (some l) nodes)) key_set

-- ValueNode::Keys and OpNode::Keys.
unfoldable pub keys : Node → Option KvSetView
unfolding collect_keys size
keys (value_node k) = some (k ∷ [])
keys (op_node o l r) = collect_keys (size (op_node o l r)) (op_node o l r ∷ []) []
