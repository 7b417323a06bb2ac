-- ===== src/Mm/Vad/Successor.antt =====
-- `GetNextVAD` of vad_tree.cpp finds the node that follows.
use Prim.Native.Nat.{compare, Ordering}
use nboxkrnl.Prelude.{
  ℕ, ◌≡◌, ap, sym, ◌∙◌, arith, inl, inr, compare-cases, subst, Option, some, none, ltb,
  if◌then◌else◌,
}
use nboxkrnl.Prelude.Int.{ℤ}
use nboxkrnl.Mm.Vad.{Tree, nil, node, Vad}
use nboxkrnl.Mm.Vad.Entries.{
  Entry, entries, starts, AllAbove, AllBelow-le, IsOrdered, IsOrdered-node, AllAbove-node,
}
use nboxkrnl.Mm.Vad.Search.{leftmost, next_walk, get_next_vad}
use nboxkrnl.Mm.Vad.Neighbours.{entry_of, first_gt, first_gt_below}
use nboxkrnl.Mm.Vad.Lookup.{first_gt-node}

-- The node with a given start: what a pointer to it points to.
unfoldable pub find_node : ℕ → Tree → Tree
find_node k nil = nil
find_node k (node s v h l r) = elim (compare k s) [
  | Ordering.lt ↦ find_node k l
  | Ordering.gt ↦ find_node k r
  | Ordering.eq ↦ node s v h l r
]

abbrev right_of : Tree → Tree
right_of nil = nil
right_of (node s v h l r) = r

module _ (k : ℕ) where
  entry-leftmost :
      (s : ℕ) (v : Vad) (h : ℤ) (l r : Tree) (best : Option Entry)
      → AllAbove k (starts (entries (node s v h l r)))
      → entry_of (leftmost (node s v h l r)) ≡ first_gt k best (entries (node s v h l r))
  unfolding leftmost
  entry-leftmost s v h nil r best a = unfold first_gt in (ground arith)
  entry-leftmost s v h (node ls lv lh b c) r best a =
      let parts = AllAbove-node k s v h (node ls lv lh b c) r a in
      rw (first_gt-node k s v h (node ls lv lh b c) r best) (entry-leftmost ls lv lh b c _ parts.0)

  entry-next_walk :
      (t successor : Tree) (v : Vad) (h : ℤ) (l : Tree)
      → IsOrdered t
      → find_node k t ≡ node k v h l nil
      → entry_of (next_walk k successor t) ≡ first_gt k (entry_of successor) (entries t)
  unfolding next_walk find_node
  entry-next_walk nil successor v h l o e = cc
  entry-next_walk (node s u g a b) successor v h l o e =
      let (below, above, p, q) = IsOrdered-node s u g a b o in
      rw (first_gt-node k s u g a b (entry_of successor)) (elim (compare-cases k s) [
        | inl c ↦
            rw (c, next_walk)
              (entry-next_walk a (node s u g a b) v h l p (rw (c, find_node) at e)
                ∙ ap (λ best. first_gt k best (entries a)) (ground arith))
        | inr (inl c) ↦
            let last : b ≡ nil = ap right_of (rw (c, find_node) at e) in
            rw (c, next_walk)
              (sym (
                first_gt_below k _ (entries a)
                  (AllBelow-le (starts (entries a)) (ground arith) below)
                ∙ rw last (unfold first_gt in (ground arith))))
        | inr (inr c) ↦
            rw (c, next_walk)
              (entry-next_walk b successor v h l q (rw (c, find_node) at e)
                ∙ sym (
                    first_gt_below k _ (entries a)
                      (AllBelow-le (starts (entries a)) (ground arith) below)
                    ∙ ground arith))
      ])

  entry_below_right :
      (t : Tree) (best : Option Entry) (v : Vad) (h : ℤ) (l : Tree) (rs : ℕ) (rv : Vad) (rh : ℤ)
      (rl rr : Tree)
      → IsOrdered t
      → find_node k t ≡ node k v h l (node rs rv rh rl rr)
      → entry_of (leftmost (node rs rv rh rl rr)) ≡ first_gt k best (entries t)
  unfolding find_node
  entry_below_right nil best v h l rs rv rh rl rr o e = cc
  entry_below_right (node s u g a b) best v h l rs rv rh rl rr o e =
      let (below, above, p, q) = IsOrdered-node s u g a b o in
      rw (first_gt-node k s u g a b best) (elim (compare-cases k s) [
        | inl c ↦ entry_below_right a _ v h l rs rv rh rl rr p (rw (c, find_node) at e)
        | inr (inl c) ↦
            let right : b ≡ node rs rv rh rl rr = ap right_of (rw (c, find_node) at e) in
            sym (
              first_gt_below k _ (entries a) (AllBelow-le (starts (entries a)) (ground arith) below)
              ∙ ap (λ t. if ltb k s then some (s, u) else first_gt k best (entries t)) right
              ∙ ground (
                arith,
                entry-leftmost rs rv rh rl rr best (
                    subst (λ t. AllAbove k (starts (entries t))) right
                      (subst (λ j. AllAbove j (starts (entries b))) (ground arith) above)),
              ))
        | inr (inr c) ↦
            entry_below_right b best v h l rs rv rh rl rr q (rw (c, find_node) at e)
            ∙ sym (
                first_gt_below k _ (entries a)
                  (AllBelow-le (starts (entries a)) (ground arith) below)
                ∙ ground arith)
      ])

-- `GetNextVAD` of a node of the tree is the node with the least start above it.
pub get_next_vad-first_gt :
    (root : Tree) (s : ℕ) (v : Vad) (h : ℤ) (l r : Tree)
    → IsOrdered root
    → find_node s root ≡ node s v h l r
    → entry_of (get_next_vad root (node s v h l r)) ≡ first_gt s none (entries root)
unfolding get_next_vad
get_next_vad-first_gt root s v h l nil o e = entry-next_walk s root nil v h l o e
get_next_vad-first_gt root s v h l (node rs rv rh rl rr) o e =
    entry_below_right s root none v h l rs rv rh rl rr o e
