-- ===== src/Cache/KeyValue/Nodes.antt =====
-- The nodes of deleted keys (`deleted_nodes_` in key_value_cache.h): every deleted entry has one, so
-- that cleaning up finds it.
use fledge_key_value_service.Base.{
  ℕ, ◌≤◌, ◌<◌, String, ◌≡◌, refl, inl, inr, Bool, true, false, ◌&&◌, ◌||◌, Option, none, some, List,
  [], ◌∷◌, arith, ltb, eqb, ◌==◌, eq_iff, Bool-cases,
}
use fledge_key_value_service.Base.Lists.{All}
use fledge_key_value_service.Base.Maps.{Map, find, find-erase}
use fledge_key_value_service.Cache.State.{CacheValue}
use fledge_key_value_service.Cache.KeyValue.{add_node, erase_node, erase_deleted, clean_up_nodes}
use fledge_key_value_service.Cache.KeyValue.Entries.{Cleaned, kept, dropped, Cleaned-clean_up_nodes}

abbrev pub Nodes : Type 0
Nodes = List (ℕ × String)

unfoldable pub has_node : ℕ → String → Nodes → Bool
has_node t k [] = false
has_node t k ((s, j) ∷ l) = (eqb s t && j == k) || has_node t k l

-- In the order of time.
abbrev pub IsSorted : Nodes → Type 0
IsSorted [] = Unit
IsSorted (n ∷ l) = All (λ m. n.0 ≤ m.0) l × IsSorted l

pub has_node-add_node :
    (t s : ℕ) (k j : String) (l : Nodes)
    → has_node t k (add_node s j l) ≡ ((eqb s t && j == k) || has_node t k l)
unfolding has_node add_node
has_node-add_node t s k j [] = refl
has_node-add_node t s k j ((r, i) ∷ l) = ground (arith, has_node-add_node t s k j l)

pub has_node-erase_node :
    (t s : ℕ) (k j : String) (l : Nodes)
    → (j == k) ≡ false
    → has_node t k (erase_node s j l) ≡ has_node t k l
unfolding has_node erase_node
has_node-erase_node t s k j [] h = refl
has_node-erase_node t s k j ((r, i) ∷ l) h =
    ground (arith, eq_iff i j, eq_iff i k, eq_iff j k, has_node-erase_node t s k j l)

All-le_trans : (a b : ℕ) (l : Nodes) → a ≤ b → All (λ m. b ≤ m.0) l → All (λ m. a ≤ m.0) l
All-le_trans a b [] h p = tt
All-le_trans a b (n ∷ l) h p = (omega arith, All-le_trans a b l h p.1)

All-add_node :
    (a s : ℕ) (j : String) (l : Nodes)
    → a ≤ s
    → All (λ m. a ≤ m.0) l
    → All (λ m. a ≤ m.0) (add_node s j l)
unfolding add_node
All-add_node a s j [] h p = (h, tt)
All-add_node a s j ((r, i) ∷ l) h p = ground (arith, All-add_node a s j l)

All-erase_node :
    (a s : ℕ) (j : String) (l : Nodes)
    → All (λ m. a ≤ m.0) l
    → All (λ m. a ≤ m.0) (erase_node s j l)
unfolding erase_node
All-erase_node a s j [] p = tt
All-erase_node a s j ((r, i) ∷ l) p = ground (arith, All-erase_node a s j l)

pub IsSorted-add_node : (s : ℕ) (j : String) (l : Nodes) → IsSorted l → IsSorted (add_node s j l)
unfolding add_node
IsSorted-add_node s j [] p = (tt, tt)
IsSorted-add_node s j ((r, i) ∷ l) p =
    ground (arith, IsSorted-add_node s j l, All-add_node r s j l, All-le_trans s r l)

pub IsSorted-erase_node :
    (s : ℕ) (j : String) (l : Nodes) → IsSorted l → IsSorted (erase_node s j l)
unfolding erase_node
IsSorted-erase_node s j [] p = tt
IsSorted-erase_node s j ((r, i) ∷ l) p =
    ground (arith, IsSorted-erase_node s j l, All-erase_node r s j l)

pub IsSorted-clean_up_nodes :
    (time : ℕ) (l : Nodes) (m : Map CacheValue) → IsSorted l → IsSorted (clean_up_nodes time l m).1
unfolding clean_up_nodes
IsSorted-clean_up_nodes time [] m p = tt
IsSorted-clean_up_nodes time ((t, k) ∷ l) m p =
    ground (arith, IsSorted-clean_up_nodes time l (erase_deleted time k m))

-- A node behind the cleaned time stays.
pub has_node-clean_up_nodes :
    (time t : ℕ) (k : String) (l : Nodes) (m : Map CacheValue)
    → time < t
    → has_node t k l ≡ true
    → has_node t k (clean_up_nodes time l m).1 ≡ true
unfolding clean_up_nodes has_node
has_node-clean_up_nodes time t k [] m h p = p
has_node-clean_up_nodes time t k ((s, j) ∷ l) m h p =
    ground (arith, has_node-clean_up_nodes time t k l (erase_deleted time j m))

-- No deletion up to `time`.
abbrev pub IsClean : ℕ → Option CacheValue → Type 0
IsClean time e = (x : CacheValue) → e ≡ some x → x.value ≡ none → time < x.last_logical_commit_time

IsClean-Cleaned :
    (time : ℕ) (e e' : Option CacheValue) → Cleaned time e e' → IsClean time e → IsClean time e'
IsClean-Cleaned time e e' (kept p) h x q n = h x (cc) n
IsClean-Cleaned time e e' (dropped y a b d p) h x q n = absurd (cc)

IsClean-erase_deleted :
    (time : ℕ) (j k : String) (m : Map CacheValue)
    → (j == k) ≡ true
    → IsClean time (find k (erase_deleted time j m))
unfolding erase_deleted
IsClean-erase_deleted time j k m same x q n = ground (arith, eq_iff j k, find-erase j k m)

later_than :
    (time t : ℕ) (k : String) (l : Nodes)
    → time < t
    → All (λ m. t ≤ m.0) l
    → (s : ℕ) → s ≤ time
    → has_node s k l ≡ false
unfolding has_node
later_than time t k [] h p s le = refl
later_than time t k ((r, i) ∷ l) h p s le = ground (arith, later_than time t k l h p.1 s)

-- Where the nodes are sorted, cleaning up meets every node up to `time`.
pub IsClean-clean_up_nodes :
    (time t : ℕ) (k : String) (l : Nodes) (m : Map CacheValue)
    → IsSorted l
    → t ≤ time
    → has_node t k l ≡ true
    → IsClean time (find k (clean_up_nodes time l m).0)
unfolding clean_up_nodes has_node
IsClean-clean_up_nodes time t k [] m p h q = absurd (cc)
IsClean-clean_up_nodes time t k ((s, j) ∷ l) m p h q = elim (Bool-cases (ltb time s)) [
  | inl stop ↦ absurd (ground (arith, later_than time s k l (ground arith) p.0 t h))
  | inr go ↦ rw go (elim (Bool-cases (eqb s t && j == k)) [
    | inl here ↦
        IsClean-Cleaned time (find k (erase_deleted time j m)) _
          (Cleaned-clean_up_nodes time l (erase_deleted time j m) k)
          (IsClean-erase_deleted time j k m (ground arith))
    | inr there ↦ IsClean-clean_up_nodes time t k l (erase_deleted time j m) p.1 h (ground arith)
  ])
]
