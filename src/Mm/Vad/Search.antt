-- ===== src/Mm/Vad/Search.antt =====
-- The searches of nboxkrnl/mm/vad_tree.cpp: `GetNextVAD`, `GetPrevVAD`, `GetVADNode` and
-- `CheckConflictingVAD`. The global `MiVadRoot` is an argument.
use Prim.Native.Nat.{compare, Ordering}
use nboxkrnl.Prelude.{ℕ, ◌+◌, ◌-◌, ◌%◌, ◌^◌, Bool, true, false, ◌&&◌, not, ltb, ◌==◌, if◌then◌else◌}
use nboxkrnl.Mm.Vad.{Tree, nil, node, VadType, free, reserved}

-- `while (Node->m_Left) Node = Node->m_Left;`
unfoldable pub leftmost : Tree → Tree
leftmost nil = nil
leftmost (node s v h nil r) = node s v h nil r
leftmost (node s v h l r) = leftmost l

-- `while (Node->m_Right) Node = Node->m_Right;`
unfoldable pub rightmost : Tree → Tree
rightmost nil = nil
rightmost (node s v h l nil) = node s v h l nil
rightmost (node s v h l r) = rightmost r

-- The loop of `GetNextVAD` for a node with start `k`, from `Node1`.
unfoldable pub next_walk : ℕ → Tree → Tree → Tree
next_walk k successor nil = successor
next_walk k successor (node s v h l r) = elim (compare k s) [
  | Ordering.lt ↦ next_walk k (node s v h l r) l
  | Ordering.gt ↦ next_walk k successor r
  | Ordering.eq ↦ successor
]

unfoldable pub get_next_vad : Tree → Tree → Tree
get_next_vad root nil = nil
get_next_vad root (node s v h l nil) = next_walk s nil root
get_next_vad root (node s v h l r) = leftmost r

-- The loop of `GetPrevVAD` for a node with start `k`, from `Node1`.
unfoldable pub prev_walk : ℕ → Tree → Tree → Tree
prev_walk k predecessor nil = predecessor
prev_walk k predecessor (node s v h l r) = elim (compare k s) [
  | Ordering.lt ↦ prev_walk k predecessor l
  | Ordering.gt ↦ prev_walk k (node s v h l r) r
  | Ordering.eq ↦ elim l [
    | nil ↦ predecessor
    | node ls lv lh ll lr ↦ rightmost (node ls lv lh ll lr)
  ]
]

unfoldable pub get_prev_vad : Tree → Tree → Tree
get_prev_vad root nil = rightmost root
get_prev_vad root (node s v h l r) = prev_walk s nil root

-- The loop of `GetVADNode`, from `Node2`, with `Node1` and `Parent`.
unfoldable pub vad_walk : ℕ → Tree → Tree → Tree → Tree × Tree
vad_walk start node1 parent nil = (node1, parent)
vad_walk start node1 parent (node s v h l r) = elim (ltb start s) [
  | true ↦ vad_walk start (node s v h l r) (node s v h l r) l
  | false ↦ vad_walk start node1 (node s v h l r) r
]

unfoldable pub vad_found : Tree → Tree × Tree → Tree
vad_found root (nil, parent) = parent
vad_found root (node s v h l r, parent) = get_prev_vad root (node s v h l r)

unfoldable pub get_vad_node : Tree → ℕ → Tree
get_vad_node root start = vad_found root (vad_walk start nil nil root)

unfoldable pub is_free : VadType → Bool
is_free free = true
is_free reserved = false

-- `*Overflow` and the result, in 32-bit arithmetic; a result of `nil` is "no conflict".
unfoldable pub conflict_at : ℕ → ℕ → Tree → Bool × Tree
conflict_at addr size nil = (true, nil)
conflict_at addr size (node s v h l r) = (
  not (size == 0)
      && ltb ((s + v.m_size + (2 ^ 32 - 1)) % 2 ^ 32) ((addr + size + (2 ^ 32 - 1)) % 2 ^ 32),
  if is_free v.m_type then nil else node s v h l r,
)

unfoldable pub check_conflicting_vad : Tree → ℕ → ℕ → Bool × Tree
check_conflicting_vad root addr size = conflict_at addr size (get_vad_node root addr)
