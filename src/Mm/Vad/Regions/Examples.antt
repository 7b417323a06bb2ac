-- ===== src/Mm/Vad/Regions/Examples.antt =====
-- The theorems on the regions of vad_tree.cpp at an address space of three regions, of which the middle one is
-- free, and the allocation of two pages in it.
use nboxkrnl.Prelude.{◌≡◌, refl, arith, true, false, ℕ, some, none, if◌then◌else◌}
use nboxkrnl.Prelude.Int.{pos}
use nboxkrnl.Mm.Vad.{Tree, nil, node, free, reserved, vad}
use nboxkrnl.Mm.Vad.Entries.{entries, IsOrdered}
use nboxkrnl.Mm.Vad.Neighbours.{last_le}
use nboxkrnl.Mm.Vad.Regions.{carve_vad, construct_vad}
use nboxkrnl.Mm.Vad.Regions.Layout.{IsContiguous, region_at, is_in}
use nboxkrnl.Mm.Vad.Regions.Carving.{construct_vad-region_at}
use nboxkrnl.Mm.Vad.Regions.Failures.{carve_vad_lost}

abbrev space : Tree
space =
    node 0x20000 (vad 0x20000 0x8000 free 1) (pos 1)
      (node 0x10000 (vad 0x10000 0x10000 reserved 4) (pos 0) nil nil)
      (node 0x28000 (vad 0x28000 0x4000 reserved 2) (pos 0) nil nil)

space-last_le : last_le 0x22000 none (entries space) ≡ some (0x20000, vad 0x20000 0x8000 free 1)
unfolding last_le
space-last_le = refl

space-IsOrdered : IsOrdered space
space-IsOrdered = omega arith

space-IsContiguous : IsContiguous 0x10000 0x2c000 (entries space)
space-IsContiguous = omega arith

construct_vad-region_at_example :
    (root' : Tree) × (construct_vad true true space 0x22000 0x2000 4 ≡ some (root', true))
    × IsOrdered root'
    × IsContiguous 0x10000 0x2c000 (entries root')
    × ((a : ℕ)
        → region_at a (entries root')
          ≡ (if is_in 0x22000 0x2000 a then some (reserved, 4) else region_at a (entries space)))
construct_vad-region_at_example =
    construct_vad-region_at space 4 0x10000 0x2c000 0x22000 0x2000 0x20000
      (vad 0x20000 0x8000 free 1) space-IsOrdered space-IsContiguous (omega arith) (omega arith)
      (omega arith) (omega arith) space-last_le refl (omega arith)

carve_vad_lost_example :
    (root' : Tree) × (carve_vad true false space 0x22000 0x6000 ≡ some (root', none))
    × ((a : ℕ)
        → region_at a (entries root')
          ≡ (if is_in 0x22000 0x6000 a then none else region_at a (entries space)))
carve_vad_lost_example =
    carve_vad_lost true space 0x10000 0x2c000 0x22000 0x6000 0x20000 (vad 0x20000 0x8000 free 1)
      space-IsOrdered space-IsContiguous (omega arith) (omega arith) (omega arith) (omega arith)
      space-last_le refl (omega arith) (omega arith)
