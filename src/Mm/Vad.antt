-- ===== src/Mm/Vad.antt =====
-- nboxkrnl/mm/vad_tree.hpp and vad_tree.cpp: the tree of virtual address descriptors, an AVL tree
-- keyed by the start address. A `VAD_NODE *` is the subtree that it points to and `nullptr` is
-- `nil`. `ExAllocatePool` is seen through its outcome only: the argument `allocated` says whether
-- it returned a node.
pub mod Rotations
pub mod Balance
pub mod Entries
pub mod Order
pub mod Removal
pub mod Search
pub mod Neighbours
pub mod Lookup
pub mod Successor
pub mod Descriptors
pub mod Conflict
pub mod History
pub mod Regions
mod Examples
use Prim.Native.Nat.{compare, Ordering}
use nboxkrnl.Prelude.{ℕ, Option, none, some, Bool, true, false, ◌&&◌, if◌then◌else◌}
use nboxkrnl.Prelude.Int.{ℤ, pos, negsuc, ◌+ℤ◌, ◌-ℤ◌, ltb_ℤ, leb_ℤ}
use mathlib.Core.Option

pub data VadType : Type 0 where
  free reserved : VadType

pub record Vad : Type 0 where
  pub m_start : ℕ
  pub m_size : ℕ
  pub m_type : VadType
  pub m_protect : ℕ

-- `VAD_NODE`: m_Start, m_Vad, m_Height, m_Left, m_Right.
pub data Tree : Type 0 where
  nil : Tree
  node : ℕ → Vad → ℤ → Tree → Tree → Tree

abbrev pub vad : ℕ → ℕ → VadType → ℕ → Vad
vad start size type protect = record {
  m_start = start;
  m_size = size;
  m_type = type;
  m_protect = protect;
}

unfoldable pub init : ℕ → ℕ → VadType → ℕ → Tree
init start size type protect = node start (vad start size type protect) (pos 0) nil nil

-- `Child ? Child->m_Height : -1`.
abbrev pub m_height_or : Tree → ℤ
m_height_or nil = negsuc 0
m_height_or (node s v h l r) = h

-- The two functions read the children of a node. The code never calls them with `nullptr`: a side
-- that is higher by two is not empty.
unfoldable pub calc_height : Tree → ℤ
calc_height nil = negsuc 0
calc_height (node s v h l r) =
    (if ltb_ℤ (m_height_or r) (m_height_or l) then m_height_or l else m_height_or r) +ℤ pos 1

unfoldable pub calc_balance : Tree → ℤ
calc_balance nil = pos 0
calc_balance (node s v h l r) = m_height_or l -ℤ m_height_or r

-- `Node->m_Height = CalcHeight(Node)`.
unfoldable pub update_height : Tree → Tree
update_height nil = nil
update_height (node s v h l r) = node s v (calc_height (node s v h l r)) l r

-- A rotation dereferences the child that rises. Where that is `nullptr` the code would fault; no
-- caller reaches that case, and the model leaves the tree as it is.
unfoldable pub rotate_l : Tree → Tree
rotate_l (node s v h l (node rs rv rh rl rr)) =
    update_height (node rs rv rh (update_height (node s v h l rl)) rr)
rotate_l t = t

unfoldable pub rotate_r : Tree → Tree
rotate_r (node s v h (node ls lv lh ll lr) r) =
    update_height (node ls lv lh ll (update_height (node s v h lr r)))
rotate_r t = t

unfoldable pub rotate_lr : Tree → Tree
rotate_lr nil = nil
rotate_lr (node s v h l r) = rotate_r (node s v h (rotate_l l) r)

unfoldable pub rotate_rl : Tree → Tree
rotate_rl nil = nil
rotate_rl (node s v h l r) = rotate_l (node s v h l (rotate_r r))

-- The tail that `InsertVADNode` and `EraseVADNode` share, after the height is updated.
unfoldable pub restore_balance : Tree → Tree
restore_balance nil = nil
restore_balance (node s v h l r) =
    let t = node s v h l r in
    let balance = calc_balance t in
    if ltb_ℤ (pos 1) balance && leb_ℤ (pos 0) (calc_balance l)
    then rotate_r t
    else if ltb_ℤ (pos 1) balance && ltb_ℤ (calc_balance l) (pos 0)
    then rotate_lr t
    else if ltb_ℤ balance (negsuc 0) && leb_ℤ (calc_balance r) (pos 0)
    then rotate_l t
    else if ltb_ℤ balance (negsuc 0) && ltb_ℤ (pos 0) (calc_balance r)
    then rotate_rl t
    else t

unfoldable pub rebalance : Tree → Tree
rebalance t = restore_balance (update_height t)

-- The static `InsertVADNode`; `none` is the exception STATUS_NO_MEMORY. `compare s start` is
-- `VAD_NODE::Compare`.
unfoldable pub insert_node : Bool → Tree → ℕ → ℕ → VadType → ℕ → Option Tree
insert_node allocated nil start size type protect =
    if allocated then some (init start size type protect) else none
insert_node allocated (node s v h l r) start size type protect = elim (compare s start) [
  | Ordering.lt ↦
      Option.map (λ r'. rebalance (node s v h l r'))
        (insert_node allocated r start size type protect)
  | Ordering.eq ↦ some (node s (vad start size type protect) h l r)
  | Ordering.gt ↦
      Option.map (λ l'. rebalance (node s v h l' r))
        (insert_node allocated l start size type protect)
]

-- The exported `InsertVADNode` on `MiVadRoot`: the new root and the result.
unfoldable pub insert_vad_node : Bool → Tree → ℕ → ℕ → VadType → ℕ → Tree × Bool
insert_vad_node allocated root start size type protect =
    elim (insert_node allocated root start size type protect) [
      | none ↦ (root, false)
      | some root' ↦ (root', true)
    ]

-- `while (Node1->m_Left) Node1 = Node1->m_Left;` from a node with start `s` and left child `l`.
unfoldable pub leftmost_start : ℕ → Tree → ℕ
leftmost_start s nil = s
leftmost_start s (node ls lv lh ll lr) = leftmost_start ls ll

-- `ReplaceParent(Node, Child)` for the only child of a node of height `h`: the node takes the
-- start and the descriptor of the child, and its link to the child is cleared.
unfoldable pub replace_parent : ℤ → Tree → Tree → Tree
replace_parent h (node ls lv lh ll lr) r = node ls lv h nil r
replace_parent h nil (node rs rv rh rl rr) = node rs rv h nil nil
replace_parent h nil nil = nil

-- The branch of `EraseVADNode` where the node is found, for its descriptor, height and children;
-- `erased` is the right child without its leftmost start.
unfoldable pub erase_found : Vad → ℤ → Tree → Tree → Tree → Tree
erase_found v h nil nil erased = nil
erase_found v h nil r erased = replace_parent h nil r
erase_found v h l nil erased = replace_parent h l nil
erase_found v h l (node rs rv rh rl rr) erased = node (leftmost_start rs rl) v h l erased

-- The leftmost start of a tree, 0 for an empty one.
abbrev pub first_start : Tree → ℕ
first_start nil = 0
first_start (node s v h l r) = leftmost_start s l

-- The static `EraseVADNode`.
unfoldable pub erase_node : Tree → ℕ → Tree
erase_node nil start = nil
erase_node (node s v h l r) start = elim (compare s start) [
  | Ordering.lt ↦ rebalance (node s v h l (erase_node r start))
  | Ordering.gt ↦ rebalance (node s v h (erase_node l start) r)
  | Ordering.eq ↦ rebalance (erase_found v h l r (erase_node r (first_start r)))
]
