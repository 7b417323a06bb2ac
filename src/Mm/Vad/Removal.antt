-- ===== src/Mm/Vad/Removal.antt =====
-- `EraseVADNode` of vad_tree.cpp on the start addresses, and on the descriptors.
use Prim.Native.Nat.{compare, Ordering}
use nboxkrnl.Prelude.{
  ℕ, ◌≤◌, ◌<◌, ◌≡◌, refl, ap, sym, ◌∙◌, arith, List, [], ◌∷◌, ◌++◌, inl, inr, compare-cases, subst,
  Option, some, none,
}
use nboxkrnl.Prelude.Int.{ℤ}
use nboxkrnl.Mm.Vad.{
  Tree, nil, node, Vad, rebalance, erase_found, erase_node, replace_parent, first_start,
  leftmost_start,
}
use nboxkrnl.Mm.Vad.Rotations.{height, Within, IsAvl}
use nboxkrnl.Mm.Vad.Entries.{
  Entry, entries, entries-rebalance, starts, starts-append, AllBelow, AllAbove, AllAbove-mono,
  AllBelow-mono, IsSorted, IsOrdered, IsOrdered-node,
}

-- The specification: the start address is taken out.
unfoldable pub remove_start : ℕ → List ℕ → List ℕ
remove_start k [] = []
remove_start k (j ∷ js) = elim (compare j k) [ Ordering.eq ↦ js | _ ↦ j ∷ remove_start k js ]

module _ (k : ℕ) where
  remove_start-right :
      (is : List ℕ) (js : List ℕ)
      → AllBelow k is
      → remove_start k (is ++ js) ≡ is ++ remove_start k js
  unfolding remove_start
  remove_start-right [] js b = refl
  remove_start-right (i ∷ is) js b = ground (arith, remove_start-right is js)

  remove_start-above : (js : List ℕ) → AllAbove k js → remove_start k js ≡ js
  unfolding remove_start
  remove_start-above [] a = refl
  remove_start-above (j ∷ js) a = ground (arith, remove_start-above js)

  remove_start-left :
      (is : List ℕ) (j : ℕ) (js : List ℕ)
      → k < j
      → AllAbove j js
      → remove_start k (is ++ (j ∷ js)) ≡ remove_start k is ++ (j ∷ js)
  unfolding remove_start
  remove_start-left [] j js h a = remove_start-above (j ∷ js) (h, AllAbove-mono js h a)
  remove_start-left (i ∷ is) j js h a = ground (arith, remove_start-left is j js)

  AllAbove-remove_start : (i : ℕ) (js : List ℕ) → AllAbove i js → AllAbove i (remove_start k js)
  unfolding remove_start
  AllAbove-remove_start i [] a = tt
  AllAbove-remove_start i (j ∷ js) a = ground (arith, AllAbove-remove_start i js)

  remove_start-IsSorted : (js : List ℕ) → IsSorted js → IsSorted (remove_start k js)
  unfolding remove_start
  remove_start-IsSorted [] s = tt
  remove_start-IsSorted (j ∷ js) s =
      ground (arith, remove_start-IsSorted js, AllAbove-remove_start j js)

-- `first_start` is the first of the starts.
pub first_start-starts :
    (s : ℕ) (v : Vad) (h : ℤ) (l r : Tree)
    → (ks : List ℕ) × (starts (entries (node s v h l r)) ≡ leftmost_start s l ∷ ks)
unfolding leftmost_start
first_start-starts s v h nil r = (starts (entries r), refl)
first_start-starts s v h (node ls lv lh a b) r =
    let (ks, e) = first_start-starts ls lv lh a b in
    (
      ks ++ (s ∷ starts (entries r)),
      starts-append (entries (node ls lv lh a b)) ((s, v) ∷ entries r)
          ∙ ap (λ is. is ++ (s ∷ starts (entries r))) e,
    )

remove-first_start :
    (s : ℕ) (v : Vad) (h : ℤ) (l r : Tree)
    → let t = node s v h l r in
      first_start t ∷ remove_start (first_start t) (starts (entries t)) ≡ starts (entries t)
unfolding remove_start
remove-first_start s v h l r = let (ks, e) = first_start-starts s v h l r in rw e (ground arith)

starts-node :
    (s : ℕ) (v : Vad) (h : ℤ) (l r : Tree)
    → starts (entries (node s v h l r)) ≡ starts (entries l) ++ (s ∷ starts (entries r))
starts-node s v h l r = starts-append (entries l) ((s, v) ∷ entries r)

starts-rebalance :
    (s : ℕ) (v : Vad) (h : ℤ) (l r : Tree)
    → starts (entries (rebalance (node s v h l r))) ≡ starts (entries l) ++ (s ∷ starts (entries r))
starts-rebalance s v h l r = ap starts (entries-rebalance (node s v h l r)) ∙ starts-node s v h l r

-- A subtree of height one has a single entry.
starts-leaf :
    (s : ℕ) (v : Vad) (h : ℤ) (l r : Tree)
    → height (node s v h l r) ≤ 1
    → starts (entries (node s v h l r)) ≡ s ∷ []
starts-leaf s v h nil nil e = refl
starts-leaf s v h nil (node rs rv rh a b) e = absurd (omega arith)
starts-leaf s v h (node ls lv lh a b) r e = absurd (omega arith)

erase_found-starts :
    (v : Vad) (h : ℤ) (l r erased : Tree)
    → Within 1 (height l) (height r)
    → starts (entries erased) ≡ remove_start (first_start r) (starts (entries r))
    → starts (entries (rebalance (erase_found v h l r erased)))
      ≡ starts (entries l) ++ starts (entries r)
unfolding erase_found replace_parent
erase_found-starts v h nil nil erased w e = ap starts (entries-rebalance nil)
erase_found-starts v h nil (node rs rv rh a b) erased w e =
    starts-rebalance rs rv h nil nil ∙ sym (starts-leaf rs rv rh a b (omega arith))
erase_found-starts v h (node ls lv lh a b) nil erased w e =
    starts-rebalance ls lv h nil nil
    ∙ ap (λ ks. ks ++ []) (sym (starts-leaf ls lv lh a b (omega arith)))
erase_found-starts v h (node ls lv lh a b) (node rs rv rh c d) erased w e =
    starts-rebalance _ v h (node ls lv lh a b) erased
    ∙ ap (λ ks. starts (entries (node ls lv lh a b)) ++ (leftmost_start rs c ∷ ks)) e
    ∙ ap (◌++◌ (starts (entries (node ls lv lh a b)))) (remove-first_start rs rv rh c d)

-- Removal takes exactly the given start address out of the tree.
pub erase_node-starts :
    (t : Tree) (start : ℕ)
    → IsAvl t
    → IsOrdered t
    → starts (entries (erase_node t start)) ≡ remove_start start (starts (entries t))
unfolding erase_node
erase_node-starts nil start a o = unfold remove_start in refl
erase_node-starts (node s v h l r) start a o =
    rw (starts-node s v h l r) (elim (compare-cases s start) [
      | inl c ↦
          rw (c, erase_node)
            (starts-rebalance s v h l (erase_node r start)
              ∙ ap (λ ks. starts (entries l) ++ (s ∷ ks)) (erase_node-starts r start a.3 parts.3)
              ∙ sym (after c))
      | inr (inl c) ↦
          rw (c, erase_node)
            (erase_found-starts v h l r (erase_node r (first_start r)) a.1
                (erase_node-starts r (first_start r) a.3 parts.3)
              ∙ sym (here c))
      | inr (inr c) ↦
          rw (c, erase_node)
            (starts-rebalance s v h (erase_node l start) r
              ∙ ap (λ ks. ks ++ (s ∷ starts (entries r))) (erase_node-starts l start a.2 parts.2)
              ∙ sym (
                  remove_start-left start (starts (entries l)) s (starts (entries r)) (ground arith)
                    parts.1))
    ])
  where
    parts :
        AllBelow s (starts (entries l))
        × AllAbove s (starts (entries r))
        × IsOrdered l
        × IsOrdered r
    parts = IsOrdered-node s v h l r o

    after :
        compare s start ≡ Ordering.lt
        → remove_start start (starts (entries l) ++ (s ∷ starts (entries r)))
          ≡ starts (entries l) ++ (s ∷ remove_start start (starts (entries r)))
    after c =
        remove_start-right start (starts (entries l)) (s ∷ starts (entries r))
          (AllBelow-mono (starts (entries l)) parts.0 (ground arith))
        ∙ ap (◌++◌ (starts (entries l))) (unfold remove_start in (ground arith))

    here :
        compare s start ≡ Ordering.eq
        → remove_start start (starts (entries l) ++ (s ∷ starts (entries r)))
          ≡ starts (entries l) ++ starts (entries r)
    here c =
        remove_start-right start (starts (entries l)) (s ∷ starts (entries r))
          (subst (λ k. AllBelow k (starts (entries l))) (ground arith) parts.0)
        ∙ ap (◌++◌ (starts (entries l))) (unfold remove_start in (ground arith))

-- Removal keeps the search order.
pub erase_node-IsOrdered :
    (t : Tree) (start : ℕ) → IsAvl t → IsOrdered t → IsOrdered (erase_node t start)
erase_node-IsOrdered t start a o =
    rw (erase_node-starts t start a o) (remove_start-IsSorted start (starts (entries t)) o)

-- The descriptor that a list of entries has for a start address.
unfoldable pub lookup_entry : ℕ → List Entry → Option Vad
lookup_entry k [] = none
lookup_entry k ((j, w) ∷ es) = elim (compare j k) [ Ordering.eq ↦ some w | _ ↦ lookup_entry k es ]

pub lookup_entry-middle :
    (k : ℕ) (es : List Entry) (w : Vad) (fs : List Entry)
    → AllBelow k (starts es)
    → lookup_entry k (es ++ ((k, w) ∷ fs)) ≡ some w
unfolding lookup_entry
lookup_entry-middle k [] w fs b = ground arith
lookup_entry-middle k ((j, u) ∷ es) w fs b = ground (arith, lookup_entry-middle k es w fs)
