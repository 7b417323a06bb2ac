-- ===== src/Mm/Vad/Neighbours.antt =====
-- The searches of vad_tree.cpp find the neighbours in the sorted list of entries.
use Prim.Native.Nat.{compare, Ordering}
use nboxkrnl.Prelude.{
  ℕ, ◌≡◌, refl, ap, sym, ◌∙◌, arith, List, [], ◌∷◌, ◌++◌, inl, inr, compare-cases, subst, Option,
  some, none, ltb, leb, if◌then◌else◌,
}
use nboxkrnl.Prelude.Int.{ℤ}
use nboxkrnl.Mm.Vad.{Tree, nil, node, Vad}
use nboxkrnl.Mm.Vad.Entries.{
  Entry, entries, starts, AllBelow, AllAbove, AllAbove-mono, IsOrdered, IsOrdered-node,
  AllBelow-node,
}
use nboxkrnl.Mm.Vad.Search.{rightmost, prev_walk, get_prev_vad}

-- The entry of the node that a pointer points to.
abbrev pub entry_of : Tree → Option Entry
entry_of nil = none
entry_of (node s v h l r) = some (s, v)

-- The last entry below `k`, or `best` if there is none.
unfoldable pub last_lt : ℕ → Option Entry → List Entry → Option Entry
last_lt k best [] = best
last_lt k best ((j, w) ∷ es) = last_lt k (if ltb j k then some (j, w) else best) es

-- The last entry at or below `k`, or `best`.
unfoldable pub last_le : ℕ → Option Entry → List Entry → Option Entry
last_le k best [] = best
last_le k best ((j, w) ∷ es) = last_le k (if leb j k then some (j, w) else best) es

-- The first entry above `k`, or `best`.
unfoldable pub first_gt : ℕ → Option Entry → List Entry → Option Entry
first_gt k best [] = best
first_gt k best ((j, w) ∷ es) = if ltb k j then some (j, w) else first_gt k best es

module _ (k : ℕ) where
  pub last_lt-append :
      (es fs : List Entry) (best : Option Entry)
      → last_lt k best (es ++ fs) ≡ last_lt k (last_lt k best es) fs
  unfolding last_lt
  last_lt-append [] fs best = refl
  last_lt-append ((j, w) ∷ es) fs best =
      last_lt-append es fs (if ltb j k then some (j, w) else best)

  pub last_le-append :
      (es fs : List Entry) (best : Option Entry)
      → last_le k best (es ++ fs) ≡ last_le k (last_le k best es) fs
  unfolding last_le
  last_le-append [] fs best = refl
  last_le-append ((j, w) ∷ es) fs best =
      last_le-append es fs (if leb j k then some (j, w) else best)

  pub first_gt-append :
      (best : Option Entry) (es fs : List Entry)
      → first_gt k best (es ++ fs) ≡ first_gt k (first_gt k best fs) es
  unfolding first_gt
  first_gt-append best [] fs = refl
  first_gt-append best ((j, w) ∷ es) fs = ground (arith, first_gt-append best es fs)

  pub last_lt_above :
      (best : Option Entry) (es : List Entry) → AllAbove k (starts es) → last_lt k best es ≡ best
  unfolding last_lt
  last_lt_above best [] a = refl
  last_lt_above best ((j, w) ∷ es) a = ground (arith, last_lt_above best es)

  pub last_le_above :
      (best : Option Entry) (es : List Entry) → AllAbove k (starts es) → last_le k best es ≡ best
  unfolding last_le
  last_le_above best [] a = refl
  last_le_above best ((j, w) ∷ es) a = ground (arith, last_le_above best es)

  pub first_gt_below :
      (best : Option Entry) (es : List Entry) → AllBelow k (starts es) → first_gt k best es ≡ best
  unfolding first_gt
  first_gt_below best [] a = refl
  first_gt_below best ((j, w) ∷ es) a = ground (arith, first_gt_below best es)

  pub last_lt-node :
      (s : ℕ) (v : Vad) (h : ℤ) (l r : Tree) (best : Option Entry)
      → last_lt k best (entries (node s v h l r))
        ≡ last_lt k (if ltb s k then some (s, v) else last_lt k best (entries l)) (entries r)
  last_lt-node s v h l r best =
      last_lt-append (entries l) ((s, v) ∷ entries r) best ∙ (unfold last_lt in refl)

  -- Of entries that all lie below `k` the last is that of the rightmost node.
  pub entry-rightmost :
      (s : ℕ) (v : Vad) (h : ℤ) (l r : Tree) (best : Option Entry)
      → AllBelow k (starts (entries (node s v h l r)))
      → entry_of (rightmost (node s v h l r)) ≡ last_lt k best (entries (node s v h l r))
  unfolding rightmost
  entry-rightmost s v h l nil best b =
      let parts = AllBelow-node k s v h l nil b in
      rw (last_lt-node s v h l nil best) (unfold last_lt in (ground arith))
  entry-rightmost s v h l (node rs rv rh a c) best b =
      let parts = AllBelow-node k s v h l (node rs rv rh a c) b in
      rw (last_lt-node s v h l (node rs rv rh a c) best) (entry-rightmost rs rv rh a c _ parts.2)

  pub entry-prev_walk :
      (t predecessor : Tree)
      → IsOrdered t
      → entry_of (prev_walk k predecessor t) ≡ last_lt k (entry_of predecessor) (entries t)
  unfolding prev_walk
  entry-prev_walk nil predecessor o = unfold last_lt in refl
  entry-prev_walk (node s v h l r) predecessor o =
      rw (last_lt-node s v h l r (entry_of predecessor)) (elim (compare-cases k s) [
        | inl c ↦ rw (c, prev_walk) (entry-prev_walk l predecessor parts.2 ∙ sym (keep c))
        | inr (inl c) ↦ rw (c, prev_walk) (at_key l c parts.0 ∙ sym (keep_eq c))
        | inr (inr c) ↦
            rw (c, prev_walk)
              (entry-prev_walk r (node s v h l r) parts.3
                ∙ ap (λ best. last_lt k best (entries r)) (ground arith))
      ])
    where
      parts :
          AllBelow s (starts (entries l))
          × AllAbove s (starts (entries r))
          × IsOrdered l
          × IsOrdered r
      parts = IsOrdered-node s v h l r o

      before : Option Entry
      before = last_lt k (entry_of predecessor) (entries l)

      keep :
          compare k s ≡ Ordering.lt
          → last_lt k (if ltb s k then some (s, v) else before) (entries r) ≡ before
      keep c =
          ap (λ best. last_lt k best (entries r)) (ground arith)
          ∙ last_lt_above before (entries r)
              (AllAbove-mono (starts (entries r)) (ground arith) parts.1)

      keep_eq :
          compare k s ≡ Ordering.eq
          → last_lt k (if ltb s k then some (s, v) else before) (entries r) ≡ before
      keep_eq c =
          ap (λ best. last_lt k best (entries r)) (ground arith)
          ∙ last_lt_above before (entries r)
              (subst (λ j. AllAbove j (starts (entries r))) (ground arith) parts.1)

      at_key :
          (l : Tree)
          → compare k s ≡ Ordering.eq
          → AllBelow s (starts (entries l))
          → entry_of
              (elim l [ nil ↦ predecessor | node ls lv lh ll lr ↦ rightmost (node ls lv lh ll lr) ])
            ≡ last_lt k (entry_of predecessor) (entries l)
      at_key nil c b = unfold last_lt in refl
      at_key (node ls lv lh ll lr) c b =
          entry-rightmost ls lv lh ll lr _
            (subst (λ j. AllBelow j (starts (entries (node ls lv lh ll lr)))) (ground arith) b)

-- `GetPrevVAD` of a node of the tree is the node with the greatest start below it.
pub get_prev_vad-last_lt :
    (root : Tree) (s : ℕ) (v : Vad) (h : ℤ) (l r : Tree)
    → IsOrdered root
    → entry_of (get_prev_vad root (node s v h l r)) ≡ last_lt s none (entries root)
unfolding get_prev_vad
get_prev_vad-last_lt root s v h l r o = entry-prev_walk s root nil o
