-- ===== src/Mm/Vad/Balance.antt =====
-- Insertion and removal in vad_tree.cpp keep the tree an AVL tree.

use nboxkrnl.Prelude.{
  le_cases, compare-cases, map-eq-some, some_inj, ℕ, suc, ◌+◌, ◌≤◌, ◌≡◌, refl, max, arith, Bool,
  true, false, some, subst, ◌⊎◌, inl, inr,
}
use nboxkrnl.Prelude.Int.{ℤ, pos}
use nboxkrnl.Mm.Vad.{
  Tree, nil, node, Vad, VadType, update_height, rebalance, restore_balance, insert_node,
  erase_found, erase_node, replace_parent, first_start, init,
}
use nboxkrnl.Mm.Vad.Rotations.{
  height, Within, IsAvl, IsAvl-IsStored, Balanced, update_height-mk, restore_balance_keep,
  restore_balance_right, restore_balance_left, restore_balance_left_right,
  restore_balance_right_left, rotate_r-mk, rotate_l-mk, rotate_lr-mk, rotate_rl-mk, Balanced-right,
  Balanced-left, Balanced-left_right, Balanced-right_left,
}

module _ (s : ℕ) (v : Vad) (h : ℤ) where
  -- The left child is higher by two.
  restore_left_heavy :
      (ls : ℕ) (lv : Vad) (lh : ℤ) (a b r : Tree)
      → let l = node ls lv lh a b in
        IsAvl l
        → IsAvl r
        → height l ≡ height r + 2
        → Balanced (height l) (height r) (restore_balance (node s v h l r))
  restore_left_heavy ls lv lh a b r p q e = elim (le_cases (height b) (height a)) [
    | inl x ↦ rw (restore_balance_right s v h (node ls lv lh a b) r p q (omega arith) x) (
        rw
          (rotate_r-mk s ls v lv h lh a b r (IsAvl-IsStored a p.2) (IsAvl-IsStored b p.3)
            (IsAvl-IsStored r q))
          (Balanced-right s ls v lv a b r p.2 p.3 q p.1 x (omega arith)))
    | inr x ↦ left_right b p x e
  ]
    where
      left_right :
          (b : Tree)
          → let l = node ls lv lh a b in
            IsAvl l
            → suc (height a) ≤ height b
            → height l ≡ height r + 2
            → Balanced (height l) (height r) (restore_balance (node s v h l r))
      left_right nil p x e = absurd (omega arith)
      left_right (node ms mv mh c d) p x e =
          rw
            (restore_balance_left_right s v h (node ls lv lh a (node ms mv mh c d)) r p q
              (omega arith) x)
            (rw
              (rotate_lr-mk s ls ms v lv mv h lh mh a c d r (IsAvl-IsStored a p.2)
                (IsAvl-IsStored c p.3.2) (IsAvl-IsStored d p.3.3) (IsAvl-IsStored r q))
              (Balanced-left_right s ls ms v lv mv a c d r p.2 p.3.2 p.3.3 q p.3.1 (omega arith)
                (omega arith)))

  -- The right child is higher by two.
  restore_right_heavy :
      (rs : ℕ) (rv : Vad) (rh : ℤ) (l a b : Tree)
      → let r = node rs rv rh a b in
        IsAvl l
        → IsAvl r
        → height r ≡ height l + 2
        → Balanced (height l) (height r) (restore_balance (node s v h l r))
  restore_right_heavy rs rv rh l a b p q e = elim (le_cases (height a) (height b)) [
    | inl x ↦ rw (restore_balance_left s v h l (node rs rv rh a b) p q (omega arith) x) (
        rw
          (rotate_l-mk rs s rv v rh h l a b (IsAvl-IsStored l p) (IsAvl-IsStored a q.2)
            (IsAvl-IsStored b q.3))
          (Balanced-left rs s rv v l a b p q.2 q.3 q.1 x (omega arith)))
    | inr x ↦ right_left a q x e
  ]
    where
      right_left :
          (a : Tree)
          → let r = node rs rv rh a b in
            IsAvl r
            → suc (height b) ≤ height a
            → height r ≡ height l + 2
            → Balanced (height l) (height r) (restore_balance (node s v h l r))
      right_left nil q x e = absurd (omega arith)
      right_left (node ms mv mh c d) q x e =
          rw
            (restore_balance_right_left s v h l (node rs rv rh (node ms mv mh c d) b) p q
              (omega arith) x)
            (rw
              (rotate_rl-mk rs s ms rv v mv rh h mh l c d b (IsAvl-IsStored l p)
                (IsAvl-IsStored c q.2.2) (IsAvl-IsStored d q.2.3) (IsAvl-IsStored b q.3))
              (Balanced-right_left rs s ms rv v mv l c d b p q.2.2 q.2.3 q.3 q.2.1 (omega arith)
                (omega arith)))

  restore-Balanced :
      (l r : Tree)
      → IsAvl l
      → IsAvl r
      → Within 2 (height l) (height r)
      → h ≡ pos (max (height l) (height r))
      → Balanced (height l) (height r) (restore_balance (node s v h l r))
  restore-Balanced l r p q w k = elim (gap_cases (height l) (height r) w) [
    | inl near ↦ rw (restore_balance_keep s v h l r p q near) (ground arith)
    | inr (inl left) ↦ left_heavy l p left
    | inr (inr right) ↦ right_heavy r q right
  ]
    where
      gap_cases : (a b : ℕ) → Within 2 a b → Within 1 a b ⊎ (a ≡ b + 2) ⊎ (b ≡ a + 2)
      gap_cases a b w = grind arith

      left_heavy :
          (l : Tree)
          → IsAvl l
          → height l ≡ height r + 2
          → Balanced (height l) (height r) (restore_balance (node s v h l r))
      left_heavy nil p e = absurd (omega arith)
      left_heavy (node ls lv lh a b) p e = restore_left_heavy ls lv lh a b r p q e

      right_heavy :
          (r : Tree)
          → IsAvl r
          → height r ≡ height l + 2
          → Balanced (height l) (height r) (restore_balance (node s v h l r))
      right_heavy nil q e = absurd (omega arith)
      right_heavy (node rs rv rh a b) q e = restore_right_heavy rs rv rh l a b p q e

-- Balancing a node whose children differ by at most two levels.
rebalance-Balanced :
    (s : ℕ) (v : Vad) (h : ℤ) (l r : Tree)
    → IsAvl l
    → IsAvl r
    → Within 2 (height l) (height r)
    → Balanced (height l) (height r) (rebalance (node s v h l r))
unfolding rebalance
rebalance-Balanced s v h l r p q w =
    rw (update_height-mk s v h l r (IsAvl-IsStored l p) (IsAvl-IsStored r q))
      (restore-Balanced s v _ l r p q w refl)

-- Insertion keeps the tree an AVL tree, and raises it by at most one level.
pub insert_node-IsAvl :
    (allocated : Bool) (t t' : Tree) (start size : ℕ) (type : VadType) (protect : ℕ)
    → IsAvl t
    → insert_node allocated t start size type protect ≡ some t'
    → IsAvl t' × (height t ≤ height t') × (height t' ≤ suc (height t))
unfolding insert_node init
insert_node-IsAvl true nil t' start size type protect a e =
    subst (λ t. IsAvl t × (0 ≤ height t) × (height t ≤ 1)) (some_inj e) (ground arith)
insert_node-IsAvl false nil t' start size type protect a e = ground arith
insert_node-IsAvl allocated (node s v h l r) t' start size type protect a e =
    elim (compare-cases s start) [
      | inl c ↦
          let (r', i, f) =
            map-eq-some (λ x. rebalance (node s v h l x)) _ (rw (c, insert_node) at e) in
          let (p, lo, hi) = insert_node-IsAvl allocated r r' start size type protect a.3 i in
          subst IsRaised f (grown l r' a.2 p (omega arith) (omega arith) (omega arith))
      | inr (inl c) ↦ subst IsRaised (some_inj (rw (c, insert_node) at e)) (ground arith)
      | inr (inr c) ↦
          let (l', i, f) =
            map-eq-some (λ x. rebalance (node s v h x r)) _ (rw (c, insert_node) at e) in
          let (p, lo, hi) = insert_node-IsAvl allocated l l' start size type protect a.2 i in
          subst IsRaised f (grown l' r p a.3 (omega arith) (omega arith) (omega arith))
    ]
  where
    IsRaised : Tree → Type 0
    IsRaised t =
        IsAvl t
        × (suc (max (height l) (height r)) ≤ height t)
        × (height t ≤ suc (suc (max (height l) (height r))))

    grown :
        (l' r' : Tree)
        → IsAvl l'
        → IsAvl r'
        → (height l ≤ height l') × (height r ≤ height r')
        → (height l' ≤ suc (height l)) × (height r' ≤ suc (height r))
        → Within 2 (height l') (height r')
        → IsRaised (rebalance (node s v h l' r'))
    grown l' r' p q lo hi w =
        let b = rebalance-Balanced s v h l' r' p q w in
        let near = a.1 in (b.0, omega arith, omega arith)

-- What a removal does to the height.
abbrev IsLowered : ℕ → Tree → Type 0
IsLowered n t = IsAvl t × (height t ≤ n) × (n ≤ suc (height t))

shrunk :
    (s : ℕ) (v : Vad) (h : ℤ) (l r : Tree) (m n : ℕ)
    → IsAvl l
    → IsAvl r
    → Within 1 m n
    → (height l ≤ m) × (m ≤ suc (height l))
    → (height r ≤ n) × (n ≤ suc (height r))
    → Within 2 (height l) (height r)
    → IsLowered (suc (max m n)) (rebalance (node s v h l r))
shrunk s v h l r m n p q near lo hi w =
    let b = rebalance-Balanced s v h l r p q w in (b.0, omega arith, omega arith)

erase_found-IsLowered :
    (v : Vad) (h : ℤ) (l r erased : Tree)
    → IsAvl l
    → IsAvl r
    → Within 1 (height l) (height r)
    → IsLowered (height r) erased
    → IsLowered (suc (max (height l) (height r))) (rebalance (erase_found v h l r erased))
unfolding erase_found replace_parent
erase_found-IsLowered v h nil nil erased p q w e =
    unfold rebalance update_height restore_balance in (tt, omega arith, omega arith)
erase_found-IsLowered v h nil (node rs rv rh a b) erased p q w e =
    shrunk rs rv h nil nil 0 (suc (max (height a) (height b))) tt tt (omega arith) (omega arith)
      (omega arith) (omega arith)
erase_found-IsLowered v h (node ls lv lh a b) nil erased p q w e =
    shrunk ls lv h nil nil (suc (max (height a) (height b))) 0 tt tt (omega arith) (omega arith)
      (omega arith) (omega arith)
erase_found-IsLowered v h (node ls lv lh a b) (node rs rv rh c d) erased p q w e =
    shrunk _ v h (node ls lv lh a b) erased _ _ p e.0 w (omega arith) (e.1, e.2) (omega arith)

-- Removal keeps the tree an AVL tree, and lowers it by at most one level.
pub erase_node-IsAvl :
    (t : Tree) (start : ℕ)
    → IsAvl t
    → IsAvl (erase_node t start)
      × (height (erase_node t start) ≤ height t)
      × (height t ≤ suc (height (erase_node t start)))
unfolding erase_node
erase_node-IsAvl nil start a = (tt, omega arith, omega arith)
erase_node-IsAvl (node s v h l r) start a = elim (compare-cases s start) [
  | inl c ↦
      let e = erase_node-IsAvl r start a.3 in
      rw (c, erase_node) (shrunk s v h l _ _ _ a.2 e.0 a.1 (omega arith) (e.1, e.2) (omega arith))
  | inr (inl c) ↦
      rw (c, erase_node)
        (erase_found-IsLowered v h l r _ a.2 a.3 a.1 (erase_node-IsAvl r (first_start r) a.3))
  | inr (inr c) ↦
      let e = erase_node-IsAvl l start a.2 in
      rw (c, erase_node) (shrunk s v h _ r _ _ e.0 a.3 a.1 (e.1, e.2) (omega arith) (omega arith))
]
