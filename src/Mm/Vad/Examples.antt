-- ===== src/Mm/Vad/Examples.antt =====
-- The theorems on vad_tree.cpp at a tree of three descriptors, as the memory manager builds it.
use nboxkrnl.Prelude.{ap, suc, ◌≤◌, ◌≡◌, refl, arith, true, false, some, none, List, [], ◌∷◌}
use nboxkrnl.Prelude.Int.{pos}
use nboxkrnl.Mm.Vad.{
  Tree, nil, node, free, reserved, vad, insert_node, erase_node, init, rebalance, restore_balance,
  update_height, calc_height, calc_balance,
}
use nboxkrnl.Mm.Vad.Rotations.{height, IsAvl}
use nboxkrnl.Mm.Vad.Balance.{insert_node-IsAvl}
use nboxkrnl.Mm.Vad.Entries.{entries, starts, IsOrdered}
use nboxkrnl.Mm.Vad.Order.{insert_entry, insert_node-entries}
use nboxkrnl.Mm.Vad.Removal.{lookup_entry, remove_start, erase_node-starts}
use nboxkrnl.Mm.Vad.Descriptors.{vad_of, IsMoved, erase_node_two_children}
use nboxkrnl.Mm.Vad.Search.{get_vad_node, get_next_vad, check_conflicting_vad}
use nboxkrnl.Mm.Vad.Neighbours.{entry_of, last_le, first_gt}
use nboxkrnl.Mm.Vad.Lookup.{get_vad_node-last_le}
use nboxkrnl.Mm.Vad.Conflict.{IsReported, check_conflicting_vad-IsReported}
use nboxkrnl.Mm.Vad.Successor.{find_node, get_next_vad-first_gt}
use nboxkrnl.Mm.Vad.History.{Change, inserts, erases, run, IsValid, run-IsValid}

abbrev low : Tree
low = node 0x1000 (vad 0x1000 0x1000 free 1) (pos 0) nil nil

abbrev high : Tree
high = node 0x8000 (vad 0x8000 0x2000 free 1) (pos 0) nil nil

abbrev sample : Tree
sample = node 0x2000 (vad 0x2000 0x6000 reserved 4) (pos 1) low high

abbrev grown : Tree
grown = node 0x2000 (vad 0x2000 0x6000 reserved 4) (pos 2) low (
    node 0x8000 (vad 0x8000 0x2000 free 1) (pos 1) nil
      (node 0xa000 (vad 0xa000 0x1000 reserved 2) (pos 0) nil nil))

sample-IsAvl : IsAvl sample
sample-IsAvl = ground arith

sample-IsOrdered : IsOrdered sample
sample-IsOrdered = omega arith

insert_grown : insert_node true sample 0xa000 0x1000 reserved 2 ≡ some grown
unfolding insert_node init rebalance restore_balance update_height calc_height calc_balance
insert_grown = refl

insert_node-entries_example :
    entries grown ≡ insert_entry 0xa000 (vad 0xa000 0x1000 reserved 2) (entries sample)
insert_node-entries_example =
    insert_node-entries true sample grown 0xa000 0x1000 reserved 2 sample-IsOrdered insert_grown

insert_node-IsAvl_example :
    IsAvl grown × (height sample ≤ height grown) × (height grown ≤ suc (height sample))
insert_node-IsAvl_example =
    insert_node-IsAvl true sample grown 0xa000 0x1000 reserved 2 sample-IsAvl insert_grown

erase_node-starts_example :
    starts (entries (erase_node sample 0x2000)) ≡ remove_start 0x2000 (starts (entries sample))
erase_node-starts_example = erase_node-starts sample 0x2000 sample-IsAvl sample-IsOrdered

get_vad_node-last_le_example :
    entry_of (get_vad_node sample 0x3000) ≡ last_le 0x3000 none (entries sample)
get_vad_node-last_le_example = get_vad_node-last_le sample 0x3000 sample-IsOrdered

found_last : last_le 0x3000 none (entries sample) ≡ some (0x2000, vad 0x2000 0x6000 reserved 4)
unfolding last_le
found_last = refl

check_conflicting_vad-IsReported_example :
    IsReported 0x3000 0x1000 0x2000
      (vad 0x2000 0x6000 reserved 4)
      (check_conflicting_vad sample 0x3000 0x1000)
check_conflicting_vad-IsReported_example =
    check_conflicting_vad-IsReported sample 0x3000 0x1000 0x2000 (vad 0x2000 0x6000 reserved 4)
      sample-IsOrdered found_last (omega arith) (omega arith) (omega arith) (omega arith)

found_low : find_node 0x1000 sample ≡ low
unfolding find_node
found_low = refl

get_next_vad-first_gt_example :
    entry_of (get_next_vad sample low) ≡ first_gt 0x1000 none (entries sample)
get_next_vad-first_gt_example =
    get_next_vad-first_gt sample 0x1000 (vad 0x1000 0x1000 free 1) (pos 0) nil nil sample-IsOrdered
      found_low

found_middle : find_node 0x2000 sample ≡ sample
unfolding find_node
found_middle = refl

erase_node_two_children_example :
    IsMoved 0x2000
      (vad 0x2000 0x6000 reserved 4)
      (entries sample)
      (entries (erase_node sample 0x2000))
erase_node_two_children_example =
    erase_node_two_children sample 0x2000 (vad 0x2000 0x6000 reserved 4) sample-IsAvl
      sample-IsOrdered (rw found_middle tt) (ap vad_of found_middle)

abbrev changes : List Change
changes = inserts true 0xa000 0x1000 reserved 2 ∷ inserts false 0xb000 1 free 1 ∷ erases 0x2000 ∷ []

run-IsValid_example : IsValid (run sample changes)
run-IsValid_example =
    run-IsValid sample changes (record { balanced = sample-IsAvl; ordered = sample-IsOrdered })

missing : lookup_entry 0xa000 (entries sample) ≡ none
unfolding lookup_entry
missing = refl
