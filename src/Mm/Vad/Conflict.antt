-- ===== src/Mm/Vad/Conflict.antt =====
-- `CheckConflictingVAD` of nboxkrnl/mm/vad_tree.cpp on an ordered tree.
use nboxkrnl.Prelude.{
  ℕ, ◌+◌, ◌^◌, ◌≤◌, ◌<◌, ◌≡◌, ◌↔◌, sym, ◌∙◌, subst, arith, none, some, true, if◌then◌else◌, Bool,
  Bool-cases, inl, inr, ◌-◌, ◌%◌, some_inj,
}
use nboxkrnl.Prelude.Int.{ℤ}
use nboxkrnl.Mm.Vad.{Tree, nil, node, Vad}
use nboxkrnl.Mm.Vad.Search.{check_conflicting_vad, conflict_at, get_vad_node, is_free}
use nboxkrnl.Mm.Vad.Entries.{entries, IsOrdered}
use nboxkrnl.Mm.Vad.Neighbours.{entry_of, last_le}
use nboxkrnl.Mm.Vad.Lookup.{get_vad_node-last_le}

abbrev pub IsReported : ℕ → ℕ → ℕ → Vad → Bool × Tree → Type 0
IsReported addr size s v (overflow, found) =
    ((overflow ≡ true) ↔ (s + v.m_size < addr + size))
    × (entry_of found ≡ (if is_free v.m_type then none else some (s, v)))

conflict_at-node :
    (addr size s : ℕ) (v : Vad) (h : ℤ) (l r : Tree)
    → 0 < size
    → addr + size ≤ 2 ^ 32
    → (0 < v.m_size) × (s + v.m_size ≤ 2 ^ 32)
    → IsReported addr size s v (conflict_at addr size (node s v h l r))
unfolding conflict_at
conflict_at-node addr size s v h l r p a q =
    let last : (s + v.m_size + (2 ^ 32 - 1)) % 2 ^ 32 ≡ s + v.m_size - 1 = omega (arith, q) in
    let wanted : (addr + size + (2 ^ 32 - 1)) % 2 ^ 32 ≡ addr + size - 1 = omega arith in
    rw (last, wanted)
      (elim (Bool-cases (is_free v.m_type)) [
        | inl f ↦ rw f (ground arith)
        | inr f ↦ rw f (ground arith)
      ])

conflict_at-entry_of :
    (addr size s : ℕ) (v : Vad) (t : Tree)
    → entry_of t ≡ some (s, v)
    → 0 < size
    → addr + size ≤ 2 ^ 32
    → 0 < v.m_size
    → s + v.m_size ≤ 2 ^ 32
    → IsReported addr size s v (conflict_at addr size t)
conflict_at-entry_of addr size s v nil e p a q b = ground arith
conflict_at-entry_of addr size s v (node s' v' h l r) e p a q b =
    let same = some_inj e in
    subst (λ x. IsReported addr size x.0 x.1 (conflict_at addr size (node s' v' h l r))) same
      (conflict_at-node addr size s' v' h l r p a
        (subst (λ x. (0 < x.1.m_size) × (x.0 + x.1.m_size ≤ 2 ^ 32)) (sym same) (q, b)))

-- Where the region with the greatest start at or below the address and the requested range end within
-- the 32-bit address space and are not empty, `CheckConflictingVAD` reports an overflow exactly where
-- the range goes beyond the end of that region. It returns the region if it is reserved, and nullptr if
-- it is free.
pub check_conflicting_vad-IsReported :
    (root : Tree) (addr size s : ℕ) (v : Vad)
    → IsOrdered root
    → last_le addr none (entries root) ≡ some (s, v)
    → 0 < size
    → addr + size ≤ 2 ^ 32
    → 0 < v.m_size
    → s + v.m_size ≤ 2 ^ 32
    → IsReported addr size s v (check_conflicting_vad root addr size)
unfolding check_conflicting_vad
check_conflicting_vad-IsReported root addr size s v o e p a q b =
    conflict_at-entry_of addr size s v (get_vad_node root addr)
      (get_vad_node-last_le root addr o ∙ e) p a q b
