-- ===== src/Mm/Vad/Regions/Failures.antt =====
-- `CarveVAD` of vad_tree.cpp where there is no memory for a node.
use nboxkrnl.Prelude.{
  Bool, true, false, ℕ, ◌+◌, ◌-◌, ◌^◌, ◌≤◌, ◌<◌, ◌≡◌, refl, ap, sym, ◌∙◌, arith, Option, some, none,
  List, [], ◌∷◌, ◌++◌, inl, inr, ◌==◌, if◌then◌else◌, le_cases,
}
use nboxkrnl.Mm.Vad.{Tree, Vad, VadType, free}
use nboxkrnl.Mm.Vad.Entries.{Entry, entries, IsOrdered}
use nboxkrnl.Mm.Vad.Neighbours.{last_le}
use nboxkrnl.Mm.Vad.Regions.{
  split_vad, update_vad, set_size, carve_vad, carve_node, carve_start, add, sub,
}
use nboxkrnl.Mm.Vad.Regions.Writes.{entries-update_vad_middle, update_vad-IsOrdered}
use nboxkrnl.Mm.Vad.Regions.Splits.{split_vad_no_memory}
use nboxkrnl.Mm.Vad.Regions.Layout.{
  IsContiguous, IsContiguous-le, IsContiguous-AllAbove, region_at, region_at_middle,
  region_at_outside, region_of, is_in,
}
use nboxkrnl.Mm.Vad.Regions.Cuts.{Region, carve_vad-carve_node, last_le-Region}

split_vad_refused :
    {lo hi : ℕ} {root : Tree} {s : ℕ} {v : Vad} (offset : ℕ)
    → Region lo hi root s v
    → hi < 2 ^ 32
    → 0 < offset
    → offset < v.m_size
    → split_vad false root s offset ≡ some (update_vad s (set_size offset) root, none)
split_vad_refused {hi = hi} {root = root} {s = s} {v = v} offset r h p q =
    let whole = IsContiguous-le (s + v.m_size) hi r.after r.above in
    split_vad_no_memory root s offset v r.before r.after r.ordered r.around r.start p q
      (IsContiguous-AllAbove (s + offset) (s + v.m_size) hi r.after (omega arith) r.above)
      (omega arith)

-- In a free region, where there is no memory for the node behind the range, `CarveVAD` returns nullptr and leaves every region
-- as it was.
carve_vad_no_memory :
    (allocated : Bool) (root : Tree) (lo hi start size s : ℕ) (v : Vad)
    → IsOrdered root
    → IsContiguous lo hi (entries root)
    → hi < 2 ^ 32
    → lo ≤ start
    → start < hi
    → 0 < size
    → last_le start none (entries root) ≡ some (s, v)
    → v.m_type ≡ free
    → start + size < s + v.m_size
    → (root' : Tree) × (carve_vad false allocated root start size ≡ some (root', none))
      × (entries root' ≡ entries root)
unfolding carve_node
carve_vad_no_memory b root lo hi start size s v o c h l m p e t f =
    let (r, from, to) = last_le-Region root lo hi start s v o c l m e in
    let whole = IsContiguous-le (s + v.m_size) hi r.after r.above in
    let i : sub start v.m_start ≡ start - s = omega (arith, r.start) in
    let end = add (sub start v.m_start) size in
    let j : end ≡ start - s + size = omega arith in
    let z : (end == v.m_size) ≡ false = ground (arith, j, f) in
    let lowered = update_vad s (set_size end) root in
    let changed =
      entries-update_vad_middle root s (set_size end) v r.before r.after r.ordered r.around in
    (
      update_vad s (set_size v.m_size) lowered,
      carve_vad-carve_node false b root start size s v o e
          ∙ rw (z, carve_node) (rw (split_vad_refused end r h (omega arith) (omega arith)) refl),
      entries-update_vad_middle lowered s (set_size v.m_size) (set_size end v) r.before r.after
            (update_vad-IsOrdered s (set_size end) root r.ordered) changed
          ∙ sym r.around,
    )

region_at_elsewhere :
    (a : ℕ) (es fs : List Entry)
    → region_at a es ≡ none
    → region_at a fs ≡ none
    → region_at a (es ++ fs) ≡ none
unfolding region_at
region_at_elsewhere a [] fs e f = f
region_at_elsewhere a ((k, v) ∷ es) fs e f = ground (arith, region_at_elsewhere a es fs)

-- A region without its tail.
tail_lost :
    (a s start size offset full : ℕ) (x : VadType × ℕ) (others : Option (VadType × ℕ))
    → offset ≡ start - s
    → s < start
    → start + size ≡ s + full
    → (s ≤ a → a < s + full → others ≡ none)
    → (if is_in s offset a then some x else others)
      ≡ (if is_in start size a then none else if is_in s full a then some x else others)
tail_lost a s start size offset full x others i q f outside = elim (le_cases s a) [
  | inl u ↦ elim (le_cases (s + full) a) [
    | inl w ↦ ground arith
    | inr w ↦ let e = outside u w in ground arith
  ]
  | inr u ↦ ground arith
]

-- On an ordered tree whose regions follow each other without gaps, where the range is not empty and ends with its
-- region, which is free, begins behind the start of it and finds no memory for its node, CarveVAD returns nullptr,
-- and yet the addresses of the range are in no region afterwards; the other addresses keep theirs.
pub carve_vad_lost :
    (allocated : Bool) (root : Tree) (lo hi start size s : ℕ) (v : Vad)
    → IsOrdered root
    → IsContiguous lo hi (entries root)
    → hi < 2 ^ 32
    → lo ≤ start
    → start < hi
    → 0 < size
    → last_le start none (entries root) ≡ some (s, v)
    → v.m_type ≡ free
    → s < start
    → start + size ≡ s + v.m_size
    → (root' : Tree) × (carve_vad allocated false root start size ≡ some (root', none))
      × ((a : ℕ)
          → region_at a (entries root')
            ≡ (if is_in start size a then none else region_at a (entries root)))
unfolding carve_node carve_start
carve_vad_lost b root lo hi start size s v o c h l m p e t q f =
    let (r, from, to) = last_le-Region root lo hi start s v o c l m e in
    let whole = IsContiguous-le (s + v.m_size) hi r.after r.above in
    let i : sub start v.m_start ≡ start - s = omega (arith, r.start) in
    let first = sub start v.m_start in
    let end = add (sub start v.m_start) size in
    let j : end ≡ start - s + size = omega arith in
    let z : (end == v.m_size) ≡ true = ground (arith, j, f) in
    let n : (first == 0) ≡ false = ground (arith, i, q) in
    let changed =
      entries-update_vad_middle root s (set_size first) v r.before r.after r.ordered r.around in
    (
      update_vad s (set_size first) root,
      carve_vad-carve_node b false root start size s v o e
          ∙ rw (z, carve_node)
              (rw (n, carve_start)
                (rw (split_vad_refused first r h (omega arith) (omega arith)) refl)),
      λ a.
          let inside : (s ≤ a) → (a < s + v.m_size) → region_at a (r.before ++ r.after) ≡ none =
            λ u w.
              region_at_elsewhere a r.before r.after
                (region_at_outside a lo s r.before r.below (inr u))
                (region_at_outside a (s + v.m_size) hi r.after r.above (inl w)) in
          ap (region_at a) changed
          ∙ region_at_middle a lo s (set_size first v) r.before r.after r.below
          ∙ tail_lost a s start size first v.m_size (region_of v) _ i q f inside
          ∙ ap (λ x. if is_in start size a then none else x)
              (sym
                (ap (region_at a) r.around ∙ region_at_middle a lo s v r.before r.after r.below)),
    )
