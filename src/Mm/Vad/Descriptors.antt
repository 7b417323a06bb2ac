-- ===== src/Mm/Vad/Descriptors.antt =====
-- The descriptors after a removal by `EraseVADNode` of vad_tree.cpp, where the removed node has two children.
use nboxkrnl.Prelude.{
  ℕ, ◌≤◌, ◌<◌, ◌≡◌, refl, ap, sym, ◌∙◌, subst, arith, Option, none, some, some_inj, List, [], ◌∷◌,
  ◌++◌, append_assoc, inl, inr, compare-cases, compare_self,
}
use Prim.Native.Nat.{compare, Ordering}
use nboxkrnl.Prelude.Int.{ℤ}
use nboxkrnl.Mm.Vad.{Tree, nil, node, Vad, erase_found, erase_node, replace_parent, leftmost_start}
use nboxkrnl.Mm.Vad.Rotations.{height, IsAvl}
use nboxkrnl.Mm.Vad.Entries.{
  Entry, entries, entries-rebalance, starts, AllBelow, AllAbove, IsOrdered, IsOrdered-node,
}
use nboxkrnl.Mm.Vad.Removal.{first_start-starts}
use nboxkrnl.Mm.Vad.Successor.{find_node}

entries-leaf :
    (s : ℕ) (v : Vad) (h : ℤ) (l r : Tree)
    → height (node s v h l r) ≤ 1
    → entries (node s v h l r) ≡ (s, v) ∷ []
entries-leaf s v h nil nil e = refl
entries-leaf s v h nil (node rs rv rh a b) e = absurd (omega arith)
entries-leaf s v h (node ls lv lh a b) r e = absurd (omega arith)

AllBelow-first :
    (s ls : ℕ) (lv : Vad) (lh : ℤ) (a b : Tree)
    → AllBelow s (starts (entries (node ls lv lh a b)))
    → leftmost_start ls a < s
AllBelow-first s ls lv lh a b below =
    let (ks, e) = first_start-starts ls lv lh a b in (subst (AllBelow s) e below).0

AllAbove-first :
    (s rs : ℕ) (rv : Vad) (rh : ℤ) (c d : Tree)
    → AllAbove s (starts (entries (node rs rv rh c d)))
    → s < leftmost_start rs c
AllAbove-first s rs rv rh c d above =
    let (ks, e) = first_start-starts rs rv rh c d in (subst (AllAbove s) e above).0

-- The removal of the first start takes the first entry.
erase_first :
    (s : ℕ) (v : Vad) (h : ℤ) (l r : Tree)
    → IsAvl (node s v h l r)
    → IsOrdered (node s v h l r)
    → (w : Vad) × (rest : List Entry) × (entries (node s v h l r) ≡ (leftmost_start s l, w) ∷ rest)
      × (entries (erase_node (node s v h l r) (leftmost_start s l)) ≡ rest)
unfolding leftmost_start erase_node erase_found replace_parent
erase_first s v h nil nil a o =
    (v, [], refl, rw (compare_self s, erase_node) (entries-rebalance nil))
erase_first s v h nil (node rs rv rh c d) a o = (
  v,
  entries (node rs rv rh c d),
  refl,
  rw (compare_self s, erase_node)
      (entries-rebalance (node rs rv h nil nil) ∙ sym (entries-leaf rs rv rh c d (omega arith))),
)
erase_first s v h (node ls lv lh x y) r a o =
    let l = node ls lv lh x y in
    let (below, above, ol, or) = IsOrdered-node s v h l r o in
    let first = leftmost_start ls x in
    let before : compare s first ≡ Ordering.gt =
      ground (arith, AllBelow-first s ls lv lh x y below) in
    let (w, rest, e, f) = erase_first ls lv lh x y a.2 ol in
    (
      w,
      rest ++ ((s, v) ∷ entries r),
      ap (λ es. es ++ ((s, v) ∷ entries r)) e,
      rw (before, erase_node)
          (entries-rebalance (node s v h (erase_node l first) r)
            ∙ ap (λ es. es ++ ((s, v) ∷ entries r)) f),
    )

abbrev pub HasTwoChildren : Tree → Type 0
HasTwoChildren nil = ⊥
HasTwoChildren (node s v h nil r) = ⊥
HasTwoChildren (node s v h (node ls lv lh a b) nil) = ⊥
HasTwoChildren (node s v h (node ls lv lh a b) (node rs rv rh c d)) = Unit {0}

abbrev pub vad_of : Tree → Option Vad
vad_of nil = none
vad_of (node s v h l r) = some v

-- The start of the removed entry and the descriptor behind it are gone: the descriptor of the removed entry has the
-- start of the next entry.
abbrev pub IsMoved : ℕ → Vad → List Entry → List Entry → Type 0
IsMoved s v es es' =
    (next : ℕ) × (w : Vad) × (before : List Entry) × (behind : List Entry) × (s < next)
    × (es ≡ before ++ ((s, v) ∷ (next, w) ∷ behind))
    × (es' ≡ before ++ ((next, v) ∷ behind))

IsMoved-left :
    (s : ℕ) (v : Vad) (es es' more : List Entry)
    → IsMoved s v es es'
    → IsMoved s v (es ++ more) (es' ++ more)
IsMoved-left s v es es' more (next, w, before, behind, h, e, f) = (
  next,
  w,
  before,
  behind ++ more,
  h,
  ap (λ l. l ++ more) e ∙ append_assoc before ((s, v) ∷ (next, w) ∷ behind) more,
  ap (λ l. l ++ more) f ∙ append_assoc before ((next, v) ∷ behind) more,
)

IsMoved-right :
    (s : ℕ) (v : Vad) (es es' more : List Entry)
    → IsMoved s v es es'
    → IsMoved s v (more ++ es) (more ++ es')
IsMoved-right s v es es' more (next, w, before, behind, h, e, f) = (
  next,
  w,
  more ++ before,
  behind,
  h,
  ap (λ l. more ++ l) e ∙ sym (append_assoc more before ((s, v) ∷ (next, w) ∷ behind)),
  ap (λ l. more ++ l) f ∙ sym (append_assoc more before ((next, v) ∷ behind)),
)

IsMoved-subst :
    (s : ℕ) (v : Vad) (es es' fs' : List Entry)
    → es' ≡ fs'
    → IsMoved s v es fs'
    → IsMoved s v es es'
IsMoved-subst s v es es' fs' e m = subst (IsMoved s v es) (sym e) m

-- The removed node at the root.
erase_root :
    (s : ℕ) (v : Vad) (h : ℤ) (l r : Tree)
    → IsAvl (node s v h l r)
    → IsOrdered (node s v h l r)
    → HasTwoChildren (node s v h l r)
    → IsMoved s v (entries (node s v h l r)) (entries (erase_node (node s v h l r) s))
unfolding erase_node erase_found
erase_root s v h nil r a o two = absurd two
erase_root s v h (node ls lv lh x y) nil a o two = absurd two
erase_root s v h (node ls lv lh x y) (node rs rv rh c d) a o two =
    let l = node ls lv lh x y in
    let r = node rs rv rh c d in
    let (below, above, ol, or) = IsOrdered-node s v h l r o in
    let (w, rest, e, f) = erase_first rs rv rh c d a.3 or in
    let next = leftmost_start rs c in
    (
      next,
      w,
      entries l,
      rest,
      AllAbove-first s rs rv rh c d above,
      ap (λ es. entries l ++ ((s, v) ∷ es)) e,
      rw (compare_self s, erase_node)
          (entries-rebalance (node next v h l (erase_node r next))
            ∙ ap (λ es. entries l ++ ((next, v) ∷ es)) f),
    )

-- On an ordered AVL tree, where the node with the given start has two children, its removal keeps its descriptor,
-- under the start of the next entry, and takes the descriptor of that entry out of the tree; the other entries
-- stay.
pub erase_node_two_children :
    (t : Tree) (start : ℕ) (v : Vad)
    → IsAvl t
    → IsOrdered t
    → HasTwoChildren (find_node start t)
    → vad_of (find_node start t) ≡ some v
    → IsMoved start v (entries t) (entries (erase_node t start))
unfolding find_node
erase_node_two_children nil start v a o two e = absurd two
erase_node_two_children (node s u h l r) start v a o two e =
    let (below, above, ol, or) = IsOrdered-node s u h l r o in
    elim (compare-cases start s) [
      | inl c ↦
          let turned : compare s start ≡ Ordering.gt = ground arith in
          let found : find_node start (node s u h l r) ≡ find_node start l =
            rw (c, find_node) refl in
          IsMoved-subst start v _ _ (entries (erase_node l start) ++ ((s, u) ∷ entries r))
            (unfold erase_node in
              (rw (turned, erase_node) (entries-rebalance (node s u h (erase_node l start) r))))
            (IsMoved-left start v (entries l) (entries (erase_node l start)) ((s, u) ∷ entries r) (
              erase_node_two_children l start v a.2 ol (subst HasTwoChildren found two)
                (sym (ap vad_of found) ∙ e)))
      | inr (inl c) ↦
          let same : start ≡ s = ground arith in
          let found : find_node start (node s u h l r) ≡ node s u h l r = rw (c, find_node) refl in
          let value : u ≡ v = some_inj (sym (ap vad_of found) ∙ e) in
          subst
            (λ k. IsMoved k v (entries (node s u h l r)) (entries (erase_node (node s u h l r) k)))
            (sym same)
            (subst
              (λ x.
                IsMoved s x (entries (node s u h l r)) (entries (erase_node (node s u h l r) s)))
              value (erase_root s u h l r a o (subst HasTwoChildren found two)))
      | inr (inr c) ↦
          let turned : compare s start ≡ Ordering.lt = ground arith in
          let found : find_node start (node s u h l r) ≡ find_node start r =
            rw (c, find_node) refl in
          IsMoved-subst start v _ _ (entries l ++ ((s, u) ∷ entries (erase_node r start)))
            (unfold erase_node in
              (rw (turned, erase_node) (entries-rebalance (node s u h l (erase_node r start)))))
            (subst (λ es. IsMoved start v es (entries l ++ ((s, u) ∷ entries (erase_node r start))))
              (append_assoc (entries l) ((s, u) ∷ []) (entries r))
              (subst (λ es. IsMoved start v ((entries l ++ ((s, u) ∷ [])) ++ entries r) es)
                (append_assoc (entries l) ((s, u) ∷ []) (entries (erase_node r start)))
                (IsMoved-right start v (entries r) (entries (erase_node r start))
                  (entries l ++ ((s, u) ∷ []))
                  (erase_node_two_children r start v a.3 or (subst HasTwoChildren found two)
                    (sym (ap vad_of found) ∙ e)))))
    ]
