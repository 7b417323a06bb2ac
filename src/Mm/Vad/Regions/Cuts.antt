-- ===== src/Mm/Vad/Regions/Cuts.antt =====
-- The regions of a tree of vad_tree.cpp that follow each other: how `GetVADNode` finds one, and how a
-- split cuts one in two.
use nboxkrnl.Prelude.{
  Bool, true, some_inj, ℕ, ◌+◌, ◌-◌, ◌^◌, ◌≤◌, ◌<◌, ◌≡◌, refl, ap, sym, ◌∙◌, arith, subst, Option,
  some, none, List, [], ◌∷◌, ◌++◌, append_assoc,
}
use nboxkrnl.Mm.Vad.{Tree, nil, node, Vad}
use nboxkrnl.Mm.Vad.Entries.{Entry, entries, IsOrdered}
use nboxkrnl.Mm.Vad.Search.{get_vad_node}
use nboxkrnl.Mm.Vad.Neighbours.{entry_of, last_le}
use nboxkrnl.Mm.Vad.Lookup.{get_vad_node-last_le}
use nboxkrnl.Mm.Vad.Regions.{split_vad, set_size, carve_vad, carve_node, add, sub}
use nboxkrnl.Mm.Vad.Regions.Splits.{upper, split_vad_lem}
use nboxkrnl.Mm.Vad.Regions.Layout.{
  IsContiguous, IsContiguous-append, IsContiguous-le, IsContiguous-AllAbove, region_at,
  region_at-append, last_le-Contains,
}

-- A region of an ordered tree whose regions cover the addresses from `lo` to `hi`.
pub record Region (lo hi : ℕ) (root : Tree) (s : ℕ) (v : Vad) : Type 0 where
  pub before : List Entry
  pub after : List Entry
  pub ordered : IsOrdered root
  pub around : entries root ≡ before ++ ((s, v) ∷ after)
  pub start : v.m_start ≡ s
  pub positive : 0 < v.m_size
  pub below : IsContiguous lo s before
  pub above : IsContiguous (s + v.m_size) hi after

pub Region-IsContiguous :
    {lo hi : ℕ} {root : Tree} {s : ℕ} {v : Vad}
    → Region lo hi root s v
    → IsContiguous lo hi (entries root)
Region-IsContiguous {lo = lo} {hi = hi} {s = s} {v = v} r =
    subst (IsContiguous lo hi) (sym r.around) (
      IsContiguous-append lo s hi r.before ((s, v) ∷ r.after) r.below
        (refl, r.start, r.positive, r.above))

-- The addresses of two trees have the same regions.
abbrev pub HasSameRegions : Tree → Tree → Type 0
HasSameRegions root root' = (a : ℕ) → region_at a (entries root') ≡ region_at a (entries root)

region_at_cut :
    (a s offset : ℕ) (v : Vad) (after : List Entry)
    → offset < v.m_size
    → region_at a ((s, set_size offset v) ∷ (s + offset, upper s offset v) ∷ after)
      ≡ region_at a ((s, v) ∷ after)
unfolding region_at
region_at_cut a s offset v after q = ground arith

-- A split leaves two regions and changes no address.
pub split_vad-Region :
    {lo hi : ℕ} {root : Tree} {s : ℕ} {v : Vad} (offset : ℕ)
    → Region lo hi root s v
    → hi < 2 ^ 32
    → 0 < offset
    → offset < v.m_size
    → (root' : Tree) × (split_vad true root s offset ≡ some (root', some (s + offset)))
      × Region lo hi root' s (set_size offset v)
      × Region lo hi root' (s + offset) (upper s offset v)
      × HasSameRegions root root'
split_vad-Region {lo = lo} {hi = hi} {root = root} {s = s} {v = v} offset r h p q =
    let whole = IsContiguous-le (s + v.m_size) hi r.after r.above in
    let end : s + offset + (v.m_size - offset) ≡ s + v.m_size = omega arith in
    let (root', e, o, n) =
      split_vad_lem root s offset v r.before r.after r.ordered r.around r.start p q
        (IsContiguous-AllAbove (s + offset) (s + v.m_size) hi r.after (omega arith) r.above)
        (omega arith) in
    let above = subst (λ x. IsContiguous x hi r.after) (sym end) r.above in
    (
      root',
      e,
      record {
        before = r.before;
        after = (s + offset, upper s offset v) ∷ r.after;
        ordered = o;
        around = n;
        start = r.start;
        positive = p;
        below = r.below;
        above = (refl, refl, omega arith, above);
      },
      record {
        before = r.before ++ ((s, set_size offset v) ∷ []);
        after = r.after;
        ordered = o;
        around =
            n
            ∙ sym (
                append_assoc r.before ((s, set_size offset v) ∷ [])
                  ((s + offset, upper s offset v) ∷ r.after));
        start = refl;
        positive = omega arith;
        below =
            IsContiguous-append lo s (s + offset) r.before ((s, set_size offset v) ∷ []) r.below
              (refl, r.start, p, refl);
        above = above;
      },
      λ a.
          ap (region_at a) n
          ∙ region_at-append a r.before
              ((s, set_size offset v) ∷ (s + offset, upper s offset v) ∷ r.after) ((s, v) ∷ r.after)
              (region_at_cut a s offset v r.after q)
          ∙ sym (ap (region_at a) r.around),
    )

pub carve_vad-carve_node :
    (allocated allocated' : Bool) (root : Tree) (start size s : ℕ) (v : Vad)
    → IsOrdered root
    → last_le start none (entries root) ≡ some (s, v)
    → carve_vad allocated allocated' root start size
      ≡ carve_node allocated allocated' root s v
          (sub start v.m_start)
          (add (sub start v.m_start) size)
unfolding carve_vad
carve_vad-carve_node a b root start size s v o e =
    found (get_vad_node root start) (get_vad_node-last_le root start o ∙ e)
  where
    carve : ℕ × Vad → Option (Tree × Option ℕ)
    carve x = carve_node a b root x.0 x.1 (sub start x.1.m_start) (add (sub start x.1.m_start) size)

    found :
        (t : Tree)
        → entry_of t ≡ some (s, v)
        → (elim t [ nil ↦ none | node k w h l r ↦ carve (k, w) ]) ≡ carve (s, v)
    found nil f = ground arith
    found (node k w h l r) f = ap carve (some_inj f)

-- The region that `GetVADNode` finds contains the address.
pub last_le-Region :
    (root : Tree) (lo hi start s : ℕ) (v : Vad)
    → IsOrdered root
    → IsContiguous lo hi (entries root)
    → lo ≤ start
    → start < hi
    → last_le start none (entries root) ≡ some (s, v)
    → Region lo hi root s v × (s ≤ start) × (start < s + v.m_size)
last_le-Region root lo hi start s v o c l h e =
    let d = last_le-Contains start lo hi s v (entries root) none c l h e in
    let from = d.from in
    let to = d.to in
    (
      record {
        before = d.before;
        after = d.after;
        ordered = o;
        around = d.around;
        start = d.start;
        positive = omega arith;
        below = d.below;
        above = d.above;
      },
      from,
      to,
    )
