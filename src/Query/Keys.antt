-- ===== src/Query/Keys.antt =====
-- Keys of ast.cc: what a caller fetches before Eval runs.
use fledge_key_value_service.Base.{
  ℕ, zero, suc, ◌+◌, ◌≤◌, String, ◌≡◌, refl, true, false, Bool, eq_refl, ◌||◌, some, List, [], ◌∷◌,
  arith, ◌==◌,
}
use fledge_key_value_service.Base.Maps.{contains, set_insert, contains-set_insert}
use fledge_key_value_service.Query.Sets.{KvSetView}
use fledge_key_value_service.Query.Ast.{Node, value_node, op_node, size, collect_keys, keys, eval}
use fledge_key_value_service.Query.Eval.{denote, eval-denote}

-- The key is the name of a leaf.
unfoldable pub occurs : String → Node → Bool
occurs k (value_node j) = j == k
occurs k (op_node o l r) = occurs k l || occurs k r

occurs_in : String → List Node → Bool
occurs_in k [] = false
occurs_in k (n ∷ ns) = occurs k n || occurs_in k ns

stack_size : List Node → ℕ
stack_size [] = 0
stack_size (n ∷ ns) = size n + stack_size ns

collect_keys_total :
    (fuel : ℕ) (nodes : List Node) (key_set : KvSetView)
    → stack_size nodes ≤ fuel
    → (s : KvSetView) × (collect_keys fuel nodes key_set ≡ some s)
      × ((k : String) → contains k s ≡ (occurs_in k nodes || contains k key_set))
unfolding collect_keys stack_size size occurs_in occurs
collect_keys_total fuel [] key_set h = (key_set, refl, λ k. refl)
collect_keys_total zero (value_node j ∷ ns) key_set h = absurd (omega arith)
collect_keys_total zero (op_node o l r ∷ ns) key_set h = absurd (omega arith)
collect_keys_total (suc fuel) (value_node j ∷ ns) key_set h =
    let (s, e, p) = collect_keys_total fuel ns (set_insert j key_set) (omega arith) in
    (s, e, λ k. ground (arith, p k, contains-set_insert j k key_set))
collect_keys_total (suc fuel) (op_node o l r ∷ ns) key_set h =
    let (s, e, p) = collect_keys_total fuel (r ∷ l ∷ ns) key_set (omega arith) in
    (s, e, λ k. ground (arith, p k))

-- Keys always gives a set, and it holds exactly the keys of the tree's value nodes.
pub keys_lem :
    (n : Node) → (s : KvSetView) × (keys n ≡ some s) × ((k : String) → contains k s ≡ occurs k n)
unfolding keys contains occurs stack_size occurs_in
keys_lem (value_node j) = (j ∷ [], refl, λ k. ground arith)
keys_lem (op_node o l r) =
    let root = op_node o l r in
    let (s, e, p) = collect_keys_total (size root) (root ∷ []) [] (omega arith) in
    (s, e, λ k. ground (arith, p k))

denote_same :
    (f g : String → KvSetView) (n : Node)
    → ((k : String) → occurs k n ≡ true → f k ≡ g k)
    → denote f n ≡ denote g n
unfolding denote occurs
denote_same f g (value_node j) h = h j (eq_refl j)
denote_same f g (op_node o l r) h =
    rw
      (denote_same f g l (λ k p. h k (ground arith)), denote_same f g r (λ k p. h k (ground arith)))

-- Eval reads the lookup function at the tree's keys only: two that agree on the set that Keys gives
-- have the same result.
pub eval_same :
    (f g : String → KvSetView) (n : Node) (s : KvSetView)
    → keys n ≡ some s
    → ((k : String) → contains k s ≡ true → f k ≡ g k)
    → eval f n ≡ eval g n
eval_same f g n s e h =
    let (s', e', p) = keys_lem n in
    rw (eval-denote f n, eval-denote g n)
      (rw (denote_same f g n (λ k q. h k (ground (arith, p k)))))
