-- ===== src/Mm/Vad/Regions/Carving.antt =====
-- `CarveVAD` and `ConstructVAD` of vad_tree.cpp on a tree whose regions follow each other.
use nboxkrnl.Prelude.{
  Bool, true, false, ℕ, zero, suc, ◌+◌, ◌-◌, ◌^◌, ◌≤◌, ◌<◌, ◌≡◌, refl, ap, sym, ◌∙◌, arith, subst,
  some, none, ◌++◌, inl, inr, ◌==◌, if◌then◌else◌, Bool-cases,
}
use nboxkrnl.Mm.Vad.{Tree, Vad, free, reserved}
use nboxkrnl.Mm.Vad.Entries.{entries, IsOrdered}
use nboxkrnl.Mm.Vad.Neighbours.{last_le}
use nboxkrnl.Mm.Vad.Regions.{
  update_vad, set_region, carve_vad, carve_node, carve_start, construct_vad, add, sub,
}
use nboxkrnl.Mm.Vad.Regions.Writes.{entries-update_vad_middle, update_vad-IsOrdered}
use nboxkrnl.Mm.Vad.Regions.Splits.{upper}
use nboxkrnl.Mm.Vad.Regions.Layout.{
  IsContiguous, IsContiguous-le, region_at, region_at_middle, region_of, is_in,
}
use nboxkrnl.Mm.Vad.Regions.Cuts.{
  Region, Region-IsContiguous, HasSameRegions, split_vad-Region, carve_vad-carve_node,
  last_le-Region,
}

-- The outcome of a successful carving: a region of the wanted place and size, as the region around it was.
pub record IsCarved (lo hi : ℕ) (root : Tree) (start size : ℕ) (v : Vad) (root' : Tree)
    : Type 0 where
  pub carved : Vad
  pub region : Region lo hi root' start carved
  pub size_is : carved.m_size ≡ size
  pub as_before : region_of carved ≡ region_of v
  pub others : HasSameRegions root root'

carve_start-IsCarved :
    {lo hi : ℕ} {root : Tree} {s : ℕ} {v : Vad} (start size : ℕ) (old : Vad) (i end : ℕ) (b : Bool)
    → Region lo hi root s v
    → hi < 2 ^ 32
    → 0 < size
    → s + i ≡ start
    → v.m_size ≡ i + size
    → (root' : Tree) × (carve_start true root s old i end b ≡ some (root', some start))
      × IsCarved lo hi root start size v root'
unfolding carve_start
carve_start-IsCarved {lo = lo} {hi = hi} {root = root} {s = s} {v = v} start size old zero end b r h
      n p q =
    let here : s ≡ start = omega arith in
    (
      root,
      ap (λ x. some (root, some x)) here,
      record {
        carved = v;
        region = subst (λ x. Region lo hi root x v) here r;
        size_is = omega arith;
        as_before = refl;
        others = λ a. refl;
      },
    )
carve_start-IsCarved {lo = lo} {hi = hi} {s = s} {v = v} start size old (suc j) end b r h n p q =
    let (root', e, first, second, same) =
      split_vad-Region (suc j) r h (omega arith) (omega arith) in
    let z : (suc j == 0) ≡ false = ground arith in
    (
      root',
      rw (z, carve_start) (rw e (ap (λ x. some (root', some x)) p)),
      record {
        carved = upper s (suc j) v;
        region = subst (λ x. Region lo hi root' x (upper s (suc j) v)) p second;
        size_is = omega arith;
        as_before = refl;
        others = same;
      },
    )

carve_node-IsCarved :
    {lo hi : ℕ} {root : Tree} {s : ℕ} {v : Vad} (start size i end : ℕ)
    → Region lo hi root s v
    → hi < 2 ^ 32
    → 0 < size
    → s + i ≡ start
    → end ≡ i + size
    → end ≤ v.m_size
    → (root' : Tree) × (carve_node true true root s v i end ≡ some (root', some start))
      × IsCarved lo hi root start size v root'
unfolding carve_node
carve_node-IsCarved {s = s} {v = v} start size i end r h n p q l =
    elim (Bool-cases (end == v.m_size)) [
      | inl e ↦
          rw (e, carve_node) (carve_start-IsCarved start size v i end false r h n p (ground arith))
      | inr e ↦
          let (root', f, first, second, same) =
            split_vad-Region end r h (omega arith) (ground arith) in
          let (root'', g, c) = carve_start-IsCarved start size v i end true first h n p q in
          (
            root'',
            rw (e, carve_node) (rw f g),
            record {
              carved = c.carved;
              region = c.region;
              size_is = c.size_is;
              as_before = c.as_before;
              others = λ a. c.others a ∙ same a;
            },
          )
    ]

-- With memory, `CarveVAD` of a range within a region makes the range a region of its own; every address
-- keeps its type and its protection.
carve_vad-IsCarved :
    (root : Tree) (lo hi start size s : ℕ) (v : Vad)
    → IsOrdered root
    → IsContiguous lo hi (entries root)
    → hi < 2 ^ 32
    → lo ≤ start
    → start < hi
    → 0 < size
    → last_le start none (entries root) ≡ some (s, v)
    → start + size ≤ s + v.m_size
    → (root' : Tree) × (carve_vad true true root start size ≡ some (root', some start))
      × IsCarved lo hi root start size v root'
carve_vad-IsCarved root lo hi start size s v o c h l m p e f =
    let (r, from, to) = last_le-Region root lo hi start s v o c l m e in
    let whole = IsContiguous-le (s + v.m_size) hi r.after r.above in
    let i : sub start v.m_start ≡ start - s = omega (arith, r.start) in
    let (root', g, d) =
      carve_node-IsCarved start size (sub start v.m_start) (add (sub start v.m_start) size) r h p
        (omega arith) (omega arith) (omega arith) in
    (root', carve_vad-carve_node true true root start size s v o e ∙ g, d)

-- The write of `ConstructVAD` to the carved region.
reserve_Region :
    {lo hi : ℕ} {root : Tree} {s : ℕ} {v : Vad} (protect : ℕ)
    → Region lo hi root s v
    → Region lo hi
        (update_vad s (set_region reserved protect) root)
        s
        (set_region reserved protect v)
reserve_Region {root = root} {s = s} {v = v} protect r = record {
  before = r.before;
  after = r.after;
  ordered = update_vad-IsOrdered s (set_region reserved protect) root r.ordered;
  around =
      entries-update_vad_middle root s (set_region reserved protect) v r.before r.after r.ordered
        r.around;
  start = r.start;
  positive = r.positive;
  below = r.below;
  above = r.above;
}

reserve_region_at :
    {lo hi : ℕ} {root : Tree} {s : ℕ} {v : Vad} (protect a : ℕ)
    → Region lo hi root s v
    → region_at a (entries (update_vad s (set_region reserved protect) root))
      ≡ (if is_in s v.m_size a then some (reserved, protect) else region_at a (entries root))
reserve_region_at {lo = lo} {root = root} {s = s} {v = v} protect a r =
    let set = set_region reserved protect in
    ap (region_at a) (entries-update_vad_middle root s set v r.before r.after r.ordered r.around)
    ∙ region_at_middle a lo s (set v) r.before r.after r.below
    ∙ either (is_in s v.m_size a)
    ∙ ap (λ x. if is_in s v.m_size a then some (reserved, protect) else x)
        (sym (ap (region_at a) r.around ∙ region_at_middle a lo s v r.before r.after r.below))
  where
    either :
        (b : Bool)
        → (if b then some (reserved, protect) else region_at a (r.before ++ r.after)) ≡ (
            if b
            then some (reserved, protect)
            else if b
            then some (region_of v)
            else region_at a (r.before ++ r.after))
    either true = refl
    either false = refl

-- On an ordered tree whose regions follow each other without gaps, where there is memory, ConstructVAD of a range
-- that is not empty and lies within one free region reserves exactly the addresses of the range with the given
-- protection; every other address keeps its type and protection, and the regions of the ordered tree still follow
-- each other without gaps. The search for MiLastFree is left out.
pub construct_vad-region_at :
    (root : Tree) (protect lo hi start size s : ℕ) (v : Vad)
    → IsOrdered root
    → IsContiguous lo hi (entries root)
    → hi < 2 ^ 32
    → lo ≤ start
    → start < hi
    → 0 < size
    → last_le start none (entries root) ≡ some (s, v)
    → v.m_type ≡ free
    → start + size ≤ s + v.m_size
    → (root' : Tree) × (construct_vad true true root start size protect ≡ some (root', true))
      × IsOrdered root'
      × IsContiguous lo hi (entries root')
      × ((a : ℕ)
          → region_at a (entries root')
            ≡ (if is_in start size a then some (reserved, protect) else region_at a (entries root)))
unfolding construct_vad
construct_vad-region_at root protect lo hi start size s v o c h l k p e t f =
    let (root', g, d) = carve_vad-IsCarved root lo hi start size s v o c h l k p e f in
    let r = d.region in
    let now = reserve_Region protect r in
    (
      update_vad start (set_region reserved protect) root',
      rw (g, construct_vad) refl,
      now.ordered,
      Region-IsContiguous now,
      λ a.
          reserve_region_at protect a r
          ∙ ap
              (λ n.
                if is_in start n a then some (reserved, protect) else region_at a (entries root'))
              d.size_is
          ∙ ap (λ x. if is_in start size a then some (reserved, protect) else x) (d.others a),
    )
