-- ===== src/Mm/Vad/Regions.antt =====
-- The part of nboxkrnl/mm/vad_tree.cpp that splits, carves and merges regions. A pointer to a node is the
-- start of the node, which no write between two uses of the pointer changes, and `none` where the code
-- would follow nullptr. A Boolean argument `allocated` is the pool's answer to one insertion. The asserts
-- are left out: the theorems on CarveVAD and ConstructVAD have what they ask for as hypotheses, that the region is
-- free and that the range fits it.
pub mod Writes
pub mod Splits
pub mod Cuts
pub mod Carving
pub mod Failures
pub mod Layout
mod Examples
use Prim.Native.Nat.{compare, Ordering}
use nboxkrnl.Prelude.{
  ℕ, zero, suc, ◌+◌, ◌-◌, ◌%◌, ◌^◌, Option, none, some, Bool, true, false, ◌&&◌, not, ltb, ◌==◌,
  if◌then◌else◌,
}
use nboxkrnl.Mm.Vad.{Tree, nil, node, Vad, VadType, free, reserved, insert_vad_node, erase_node}
use nboxkrnl.Mm.Vad.Search.{get_vad_node, get_next_vad, get_prev_vad, is_free}
use nboxkrnl.Mm.Vad.Successor.{find_node}

infixl 5 ◌>>=◌
abbrev pub ◌>>=◌ : {A B : Type 0} → Option A → (A → Option B) → Option B
o >>= f = elim o [ none ↦ none | some a ↦ f a ]

abbrev pub add : ℕ → ℕ → ℕ
add a b = (a + b) % 2 ^ 32

abbrev pub sub : ℕ → ℕ → ℕ
sub a b = (a + (2 ^ 32 - b)) % 2 ^ 32

abbrev pub start_of : Tree → Option ℕ
start_of nil = none
start_of (node s v h l r) = some s

abbrev pub m_vad : Tree → Option Vad
m_vad nil = none
m_vad (node s v h l r) = some v

-- `Node->m_Vad` for a pointer to a node of the tree.
abbrev pub vad_at : Tree → ℕ → Option Vad
vad_at root k = m_vad (find_node k root)

-- A write to `Node->m_Vad`.
unfoldable pub update_vad : ℕ → (Vad → Vad) → Tree → Tree
update_vad k f nil = nil
update_vad k f (node s v h l r) = elim (compare s k) [
  | Ordering.lt ↦ node s v h l (update_vad k f r)
  | Ordering.eq ↦ node s (f v) h l r
  | Ordering.gt ↦ node s v h (update_vad k f l) r
]

abbrev pub set_size : ℕ → Vad → Vad
set_size size v = record v { m_size = size }

abbrev pub set_region : VadType → ℕ → Vad → Vad
set_region type protect v = record v { m_type = type; m_protect = protect }

-- `InsertVADNode` with the pointer to the new node.
abbrev pub insert_at : Bool → Tree → ℕ → ℕ → VadType → ℕ → Tree × Option ℕ
insert_at allocated root start size type protect =
    let (root', done) = insert_vad_node allocated root start size type protect in
    (root', if done then some start else none)

-- `SplitVAD`: the new root, and the pointer to the new node or nullptr.
unfoldable pub split_vad : Bool → Tree → ℕ → ℕ → Option (Tree × Option ℕ)
split_vad allocated root k offset = do
  v ← vad_at root k
  some (
      insert_at allocated (update_vad k (set_size offset) root) (add v.m_start offset)
        (sub v.m_size offset) v.m_type v.m_protect)

-- The second half of `CarveVAD`, which splits at the start; `old` is the descriptor at the start.
unfoldable pub carve_start : Bool → Tree → ℕ → Vad → ℕ → ℕ → Bool → Option (Tree × Option ℕ)
carve_start allocated root k old start_in_vad end_in_vad split_at_end =
    if start_in_vad == 0 then some (root, some k) else do
      (root', inserted) ← split_vad allocated root k start_in_vad
      some (elim inserted [
        | some new ↦ (root', some new)
        | none ↦ (
          if split_at_end
              then erase_node (update_vad k (set_size old.m_size) root')
                  (add old.m_start end_in_vad)
              else root',
          none,
        )
      ])

-- `CarveVAD` from the node that contains the start, with the offsets of the range in it.
unfoldable pub carve_node : Bool → Bool → Tree → ℕ → Vad → ℕ → ℕ → Option (Tree × Option ℕ)
carve_node allocated allocated' root k v start_in_vad end_in_vad =
    if end_in_vad == v.m_size
    then carve_start allocated' root k v start_in_vad end_in_vad false
    else do
      (root', inserted) ← split_vad allocated root k end_in_vad
      elim inserted [
        | none ↦ some (update_vad k (set_size v.m_size) root', none)
        | some new ↦ carve_start allocated' root' k v start_in_vad end_in_vad true
      ]

unfoldable pub carve_vad : Bool → Bool → Tree → ℕ → ℕ → Option (Tree × Option ℕ)
carve_vad allocated allocated' root start size = elim (get_vad_node root start) [
  | nil ↦ none
  | node k v h l r ↦
      let start_in_vad = sub start v.m_start in
      carve_node allocated allocated' root k v start_in_vad (add start_in_vad size)
]

-- `ConstructVAD` up to the search for the region that it stores in MiLastFree.
unfoldable pub construct_vad : Bool → Bool → Tree → ℕ → ℕ → ℕ → Option (Tree × Bool)
construct_vad allocated allocated' root start size protect = do
  (root', carved) ← carve_vad allocated allocated' root start size
  some (elim carved [
    | none ↦ (root', false)
    | some k ↦ (update_vad k (set_region reserved protect) root', true)
  ])
