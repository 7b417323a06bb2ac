-- ===== src/Mm/Vad/Lookup.antt =====
-- `GetVADNode` of vad_tree.cpp finds the descriptor at or below an address.

use nboxkrnl.Prelude.{
  ℕ, ◌<◌, ◌≡◌, refl, ap, sym, ◌∙◌, arith, List, [], ◌∷◌, inl, inr, subst, Option, some, none, false,
  ltb, leb, if◌then◌else◌, Bool-cases,
}
use nboxkrnl.Prelude.Int.{ℤ}
use nboxkrnl.Mm.Vad.{Tree, nil, node, Vad}
use nboxkrnl.Mm.Vad.Entries.{
  Entry, entries, starts, AllBelow, AllAbove, AllAbove-mono, IsSorted, IsOrdered, IsOrdered-node,
  AllBelow-le,
}
use nboxkrnl.Mm.Vad.Search.{vad_walk, vad_found, get_vad_node}
use nboxkrnl.Mm.Vad.Neighbours.{
  entry_of, last_lt, last_le, first_gt, last_le-append, first_gt-append, last_lt_above,
  last_le_above, first_gt_below, get_prev_vad-last_lt,
}

module _ (k : ℕ) where
  pub first_gt-node :
      (s : ℕ) (v : Vad) (h : ℤ) (l r : Tree) (best : Option Entry)
      → first_gt k best (entries (node s v h l r))
        ≡ first_gt k (if ltb k s then some (s, v) else first_gt k best (entries r)) (entries l)
  first_gt-node s v h l r best =
      first_gt-append k best (entries l) ((s, v) ∷ entries r) ∙ (unfold first_gt in refl)

  last_le-node :
      (s : ℕ) (v : Vad) (h : ℤ) (l r : Tree) (best : Option Entry)
      → last_le k best (entries (node s v h l r))
        ≡ last_le k (if leb s k then some (s, v) else last_le k best (entries l)) (entries r)
  last_le-node s v h l r best =
      last_le-append k (entries l) ((s, v) ∷ entries r) best ∙ (unfold last_le in refl)

  -- `Node1` ends as the first node above the address.
  walk_first_gt :
      (t node1 parent : Tree)
      → IsOrdered t
      → entry_of (vad_walk k node1 parent t).0 ≡ first_gt k (entry_of node1) (entries t)
  unfolding vad_walk
  walk_first_gt nil node1 parent o = unfold first_gt in refl
  walk_first_gt (node s v h l r) node1 parent o =
      let (b, a, p, q) = IsOrdered-node s v h l r o in
      elim (Bool-cases (ltb k s)) [
        | inl c ↦
            rw (c, vad_walk)
              (rw (first_gt-node s v h l r (entry_of node1))
                (rw c (walk_first_gt l (node s v h l r) (node s v h l r) p)))
        | inr c ↦
            rw (c, vad_walk)
              (rw (first_gt-node s v h l r (entry_of node1)) (
                rw c (
                  walk_first_gt r node1 (node s v h l r) q
                  ∙ sym (first_gt_below k _ (entries l) (below c b)))))
      ]
    where
      below : ltb k s ≡ false → AllBelow s (starts (entries l)) → AllBelow k (starts (entries l))
      below c b = AllBelow-le (starts (entries l)) (ground arith) b

  first_gt-none : (es : List Entry) (best : Option Entry) → first_gt k best es ≡ none → best ≡ none
  unfolding first_gt
  first_gt-none [] best e = e
  first_gt-none ((j, w) ∷ es) best e = ground (arith, first_gt-none es best)

  -- Where no node is above the address, `Parent` ends as the last node.
  walk_parent :
      (t node1 parent : Tree)
      → first_gt k none (entries t) ≡ none
      → entry_of (vad_walk k node1 parent t).1 ≡ last_le k (entry_of parent) (entries t)
  unfolding vad_walk
  walk_parent nil node1 parent e = unfold last_le in refl
  walk_parent (node s v h l r) node1 parent e = rw (last_le-node s v h l r (entry_of parent)) (
      rw (not_above, vad_walk)
        (walk_parent r node1 (node s v h l r) rest
          ∙ ap (λ best. last_le k best (entries r)) (ground (arith, not_above))))
    where
      default : (if ltb k s then some (s, v) else first_gt k none (entries r)) ≡ none
      default = first_gt-none (entries l) _ (sym (first_gt-node s v h l r none) ∙ e)

      not_above : ltb k s ≡ false
      not_above = ground (arith, default)

      rest : first_gt k none (entries r) ≡ none
      rest = ground (arith, default)

first_gt_lt : (k m : ℕ) (w : Vad) (es : List Entry) → first_gt k none es ≡ some (m, w) → k < m
unfolding first_gt
first_gt_lt k m w [] e = cc
first_gt_lt k m w ((j, u) ∷ es) e = ground (arith, first_gt_lt k m w es)

-- In a sorted list the entries at or below `k` are those below the first one above `k`.
last_lt-first_gt :
    (k m : ℕ) (w : Vad) (es : List Entry) (best : Option Entry)
    → IsSorted (starts es)
    → first_gt k none es ≡ some (m, w)
    → last_lt m best es ≡ last_le k best es
unfolding last_lt last_le
last_lt-first_gt k m w [] best s e = refl
last_lt-first_gt k m w ((j, u) ∷ es) best s e = elim (Bool-cases (ltb k j)) [
  | inl c ↦
      let at : j ≡ m = unfold first_gt in (ground arith) in
      ground (
        arith,
        last_lt_above m best es (subst (λ i. AllAbove i (starts es)) at s.0),
        last_le_above k best es (AllAbove-mono (starts es) (ground arith) s.0),
      )
  | inr c ↦
      let later : first_gt k none es ≡ some (m, w) = unfold first_gt in (ground arith) in
      let bound = first_gt_lt k m w es later in
      ground (arith, last_lt-first_gt k m w es (some (j, u)) s.1 later)
]

-- `GetVADNode` returns the node with the greatest start at or below the address, and `nullptr` where
-- every start is above it.
pub get_vad_node-last_le :
    (root : Tree) (start : ℕ)
    → IsOrdered root
    → entry_of (get_vad_node root start) ≡ last_le start none (entries root)
unfolding get_vad_node
get_vad_node-last_le root start o =
    found (vad_walk start nil nil root).0 (vad_walk start nil nil root).1
      (walk_first_gt start root nil nil o) (walk_parent start root nil nil)
  where
    found :
        (node1 parent : Tree)
        → entry_of node1 ≡ first_gt start none (entries root)
        → (first_gt start none (entries root) ≡ none
            → entry_of parent ≡ last_le start none (entries root))
        → entry_of (vad_found root (node1, parent)) ≡ last_le start none (entries root)
    found nil parent e f = unfold vad_found in (f (sym e))
    found (node s v h l r) parent e f =
        unfold vad_found in
        (get_prev_vad-last_lt root s v h l r o
          ∙ last_lt-first_gt start s v (entries root) none o (sym e))
