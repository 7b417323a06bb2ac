-- ===== src/Mm/Vad/History.antt =====
-- Sequences of insertions and removals on the tree of vad_tree.cpp, and insertions for which there is
-- no memory.
use Prim.Native.Nat.{compare, Ordering}
use mathlib.Core.Option
use nboxkrnl.Prelude.{
  ℕ, ◌≡◌, refl, ap, arith, Bool, false, none, List, [], ◌∷◌, ◌++◌, inl, inr, compare-cases,
  Option-cases,
}
use nboxkrnl.Mm.Vad.{
  Tree, nil, node, Vad, VadType, insert_node, insert_vad_node, erase_node, rebalance,
}
use nboxkrnl.Mm.Vad.Rotations.{IsAvl}
use nboxkrnl.Mm.Vad.Balance.{insert_node-IsAvl, erase_node-IsAvl}
use nboxkrnl.Mm.Vad.Entries.{Entry, entries, IsOrdered}
use nboxkrnl.Mm.Vad.Order.{insert_node-IsOrdered}
use nboxkrnl.Mm.Vad.Removal.{erase_node-IsOrdered, lookup_entry}

pub data Change : Type 0 where
  inserts : Bool → ℕ → ℕ → VadType → ℕ → Change
  erases : ℕ → Change

unfoldable pub apply : Tree → Change → Tree
apply root (inserts allocated start size type protect) =
    (insert_vad_node allocated root start size type protect).0
apply root (erases start) = erase_node root start

unfoldable pub run : Tree → List Change → Tree
run root [] = root
run root (c ∷ cs) = run (apply root c) cs

pub record IsValid (t : Tree) : Type 0 where
  pub balanced : IsAvl t
  pub ordered : IsOrdered t

insert_vad_node-IsValid :
    (allocated : Bool) (root : Tree) (start size : ℕ) (type : VadType) (protect : ℕ)
    → IsValid root
    → IsValid (insert_vad_node allocated root start size type protect).0
unfolding insert_vad_node
insert_vad_node-IsValid allocated root start size type protect h =
    elim (Option-cases (insert_node allocated root start size type protect)) [
      | inl e ↦ rw (e, insert_vad_node) h
      | inr (t, e) ↦
          rw (e, insert_vad_node)
            (record {
              balanced =
                  (insert_node-IsAvl allocated root t start size type protect h.balanced e).0;
              ordered = insert_node-IsOrdered allocated root t start size type protect h.ordered e;
            })
    ]

apply-IsValid : (root : Tree) (c : Change) → IsValid root → IsValid (apply root c)
unfolding apply
apply-IsValid root (inserts allocated start size type protect) h =
    insert_vad_node-IsValid allocated root start size type protect h
apply-IsValid root (erases start) h = record {
  balanced = (erase_node-IsAvl root start h.balanced).0;
  ordered = erase_node-IsOrdered root start h.balanced h.ordered;
}

-- Every sequence of insertions, with and without memory, and of removals keeps a valid tree a
-- balanced search tree.
pub run-IsValid : (root : Tree) (cs : List Change) → IsValid root → IsValid (run root cs)
unfolding run
run-IsValid root [] h = h
run-IsValid root (c ∷ cs) h = run-IsValid (apply root c) cs (apply-IsValid root c h)

lookup_entry_left :
    (k s : ℕ) (v : Vad) (es fs : List Entry)
    → lookup_entry k (es ++ ((s, v) ∷ fs)) ≡ none
    → (lookup_entry k es ≡ none) × (lookup_entry k fs ≡ none) × (compare s k ≡ Ordering.eq → ⊥)
unfolding lookup_entry
lookup_entry_left k s v [] fs e = (refl, ground arith, λ c. ground arith)
lookup_entry_left k s v ((j, w) ∷ es) fs e =
    let later : lookup_entry k (es ++ ((s, v) ∷ fs)) ≡ none = ground arith in
    let (left, right, differs) = lookup_entry_left k s v es fs later in
    (ground arith, right, differs)

insert_node_no_memory :
    (t : Tree) (start size : ℕ) (type : VadType) (protect : ℕ)
    → lookup_entry start (entries t) ≡ none
    → insert_node false t start size type protect ≡ none
unfolding insert_node
insert_node_no_memory nil start size type protect e = refl
insert_node_no_memory (node s v h l r) start size type protect e =
    let (left, right, differs) = lookup_entry_left start s v (entries l) (entries r) e in
    elim (compare-cases s start) [
      | inl c ↦
          rw (c, insert_node)
            (ap (Option.map (λ x. rebalance (node s v h l x)))
              (insert_node_no_memory r start size type protect right))
      | inr (inl c) ↦ absurd (differs c)
      | inr (inr c) ↦
          rw (c, insert_node)
            (ap (Option.map (λ x. rebalance (node s v h x r)))
              (insert_node_no_memory l start size type protect left))
    ]

-- Where there is no memory for a new node and the start address has none yet, the exported
-- `InsertVADNode` returns FALSE and the tree is as before.
pub insert_vad_node_no_memory :
    (root : Tree) (start size : ℕ) (type : VadType) (protect : ℕ)
    → lookup_entry start (entries root) ≡ none
    → insert_vad_node false root start size type protect ≡ (root, false)
unfolding insert_vad_node
insert_vad_node_no_memory root start size type protect e =
    rw (insert_node_no_memory root start size type protect e, insert_vad_node)
