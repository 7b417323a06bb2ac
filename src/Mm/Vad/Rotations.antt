-- ===== src/Mm/Vad/Rotations.antt =====
-- The rotations of vad_tree.cpp and the choice between them, in terms of the AVL invariant: every stored height is right, and the heights of two siblings
-- differ by at most one.
use nboxkrnl.Prelude.{
  ℕ, zero, suc, ◌+◌, ◌≤◌, ◌<◌, ◌≡◌, refl, ap, max, ◌⊎◌, arith, ltb, leb, if◌then◌else◌, ◌&&◌, ◌⊎◌,
}
use nboxkrnl.Prelude.Int.{ℤ, pos, negsuc, ◌-ℤ◌, sub_ℕ, ltb_ℤ, leb_ℤ}
use nboxkrnl.Mm.Vad.{
  Tree, nil, node, Vad, m_height_or, update_height, rotate_l, rotate_r, rotate_lr, rotate_rl,
  restore_balance, calc_balance, calc_height,
}

-- The height counted in nodes, one more than `m_Height`.
abbrev pub height : Tree → ℕ
height nil = 0
height (node s v h l r) = suc (max (height l) (height r))

-- The sibling heights differ by at most `n`.
abbrev pub Within : ℕ → ℕ → ℕ → Type 0
Within n a b = (a ≤ b + n) × (b ≤ a + n)

abbrev pub IsAvl : Tree → Type 0
IsAvl nil = Unit {0}
IsAvl (node s v h l r) =
    (h ≡ pos (max (height l) (height r))) × Within 1 (height l) (height r) × IsAvl l × IsAvl r

-- The `m_Height` of a tree of this many levels.
abbrev pub of_height : ℕ → ℤ
of_height zero = negsuc 0
of_height (suc n) = pos n

abbrev pub IsStored : Tree → Type 0
IsStored t = m_height_or t ≡ of_height (height t)

pub IsAvl-IsStored : (t : Tree) → IsAvl t → IsStored t
IsAvl-IsStored nil a = refl
IsAvl-IsStored (node s v h l r) a = a.0

-- A node whose stored height is right.
abbrev pub mk : ℕ → Vad → Tree → Tree → Tree
mk s v l r = node s v (pos (max (height l) (height r))) l r

calc_height_of :
    (s : ℕ) (v : Vad) (h : ℤ) (l r : Tree) (a b : ℕ)
    → m_height_or l ≡ of_height a
    → m_height_or r ≡ of_height b
    → calc_height (node s v h l r) ≡ pos (max a b)
unfolding calc_height
calc_height_of s v h l r zero zero p q = rw (p, q)
calc_height_of s v h l r zero (suc b) p q = rw (p, q) (ground arith)
calc_height_of s v h l r (suc a) zero p q = rw (p, q) (ground arith)
calc_height_of s v h l r (suc a) (suc b) p q = rw (p, q) (ground arith)

pub update_height-mk :
    (s : ℕ) (v : Vad) (h : ℤ) (l r : Tree)
    → IsStored l
    → IsStored r
    → update_height (node s v h l r) ≡ mk s v l r
unfolding update_height
update_height-mk s v h l r p q =
    ap (λ (k : ℤ). node s v k l r) (calc_height_of s v h l r (height l) (height r) p q)

abbrev left_height : Tree → ℕ
left_height nil = 0
left_height (node s v h l r) = height l

abbrev right_height : Tree → ℕ
right_height nil = 0
right_height (node s v h l r) = height r

of_height_sub : (a b : ℕ) → of_height a -ℤ of_height b ≡ sub_ℕ a b
of_height_sub zero zero = refl
of_height_sub zero (suc b) = ground arith
of_height_sub (suc a) zero = ground arith
of_height_sub (suc a) (suc b) = ground arith

calc_balance_node :
    (s : ℕ) (v : Vad) (h : ℤ) (l r : Tree)
    → IsStored l
    → IsStored r
    → calc_balance (node s v h l r) ≡ sub_ℕ (height l) (height r)
unfolding calc_balance
calc_balance_node s v h l r p q = rw (p, q) (of_height_sub (height l) (height r))

calc_balance_lem : (t : Tree) → IsAvl t → calc_balance t ≡ sub_ℕ (left_height t) (right_height t)
unfolding calc_balance
calc_balance_lem nil a = refl
calc_balance_lem (node s v h l r) a =
    rw (IsAvl-IsStored l a.2, IsAvl-IsStored r a.3) (of_height_sub (height l) (height r))

-- The tests of the code on a balance, as comparisons of heights.
module _ (a b : ℕ) where
  one_lt_sub : ltb_ℤ (pos 1) (sub_ℕ a b) ≡ ltb (b + 1) a
  one_lt_sub = ground arith

  sub_lt_minus_one : ltb_ℤ (sub_ℕ a b) (negsuc 0) ≡ ltb (a + 1) b
  sub_lt_minus_one = ground arith

  zero_le_sub : leb_ℤ (pos 0) (sub_ℕ a b) ≡ leb b a
  zero_le_sub = ground arith

  sub_lt_zero : ltb_ℤ (sub_ℕ a b) (pos 0) ≡ ltb a b
  sub_lt_zero = ground arith

  sub_le_zero : leb_ℤ (sub_ℕ a b) (pos 0) ≡ leb a b
  sub_le_zero = ground arith

  zero_lt_sub : ltb_ℤ (pos 0) (sub_ℕ a b) ≡ ltb b a
  zero_lt_sub = ground arith

-- Which rotation is made.
module _ (s : ℕ) (v : Vad) (h : ℤ) (l r : Tree) (p : IsAvl l) (q : IsAvl r) where
  pub restore_balance_lem : restore_balance (node s v h l r) ≡ (
      if ltb (height r + 1) (height l) && leb (right_height l) (left_height l)
      then rotate_r (node s v h l r)
      else if ltb (height r + 1) (height l) && ltb (left_height l) (right_height l)
      then rotate_lr (node s v h l r)
      else if ltb (height l + 1) (height r) && leb (left_height r) (right_height r)
      then rotate_l (node s v h l r)
      else if ltb (height l + 1) (height r) && ltb (right_height r) (left_height r)
      then rotate_rl (node s v h l r)
      else node s v h l r)
  unfolding restore_balance
  restore_balance_lem = rw (
    calc_balance_node s v h l r (IsAvl-IsStored l p) (IsAvl-IsStored r q),
    calc_balance_lem l p,
    calc_balance_lem r q,
    one_lt_sub (height l) (height r),
    sub_lt_minus_one (height l) (height r),
    zero_le_sub (left_height l) (right_height l),
    sub_lt_zero (left_height l) (right_height l),
    sub_le_zero (left_height r) (right_height r),
    zero_lt_sub (left_height r) (right_height r),
  )

  pub restore_balance_keep :
      Within 1 (height l) (height r) → restore_balance (node s v h l r) ≡ node s v h l r
  restore_balance_keep w = ground (arith, restore_balance_lem)

  pub restore_balance_right :
      height r + 1 < height l
      → right_height l ≤ left_height l
      → restore_balance (node s v h l r) ≡ rotate_r (node s v h l r)
  restore_balance_right w b = ground (arith, restore_balance_lem)

  pub restore_balance_left_right :
      height r + 1 < height l
      → left_height l < right_height l
      → restore_balance (node s v h l r) ≡ rotate_lr (node s v h l r)
  restore_balance_left_right w b = ground (arith, restore_balance_lem)

  pub restore_balance_left :
      height l + 1 < height r
      → left_height r ≤ right_height r
      → restore_balance (node s v h l r) ≡ rotate_l (node s v h l r)
  restore_balance_left w b = ground (arith, restore_balance_lem)

  pub restore_balance_right_left :
      height l + 1 < height r
      → right_height r < left_height r
      → restore_balance (node s v h l r) ≡ rotate_rl (node s v h l r)
  restore_balance_right_left w b = ground (arith, restore_balance_lem)

-- The rotations, on subtrees `a`, `b`, `c` whose heights are stored.
module _ (s ls : ℕ) (v lv : Vad) (h lh : ℤ) (a b c : Tree) where
  pub rotate_r-mk :
      IsStored a
      → IsStored b
      → IsStored c
      → rotate_r (node s v h (node ls lv lh a b) c) ≡ mk ls lv a (mk s v b c)
  unfolding rotate_r
  rotate_r-mk p q r =
      rw (update_height-mk s v h b c q r) (update_height-mk ls lv lh a (mk s v b c) p refl)

  pub rotate_l-mk :
      IsStored a
      → IsStored b
      → IsStored c
      → rotate_l (node ls lv lh a (node s v h b c)) ≡ mk s v (mk ls lv a b) c
  unfolding rotate_l
  rotate_l-mk p q r =
      rw (update_height-mk ls lv lh a b p q) (update_height-mk s v h (mk ls lv a b) c refl r)

module _ (s ls ms : ℕ) (v lv mv : Vad) (h lh mh : ℤ) (a b c d : Tree) where
  pub rotate_lr-mk :
      IsStored a
      → IsStored b
      → IsStored c
      → IsStored d
      → rotate_lr (node s v h (node ls lv lh a (node ms mv mh b c)) d)
        ≡ mk ms mv (mk ls lv a b) (mk s v c d)
  unfolding rotate_lr
  rotate_lr-mk p q r t =
      rw (rotate_l-mk ms ls mv lv mh lh a b c p q r)
        (rotate_r-mk s ms v mv h _ (mk ls lv a b) c d refl r t)

  pub rotate_rl-mk :
      IsStored a
      → IsStored b
      → IsStored c
      → IsStored d
      → rotate_rl (node ls lv lh a (node s v h (node ms mv mh b c) d))
        ≡ mk ms mv (mk ls lv a b) (mk s v c d)
  unfolding rotate_rl
  rotate_rl-mk p q r t =
      rw (rotate_r-mk s ms v mv h mh b c d q r t)
        (rotate_l-mk ms ls mv lv _ lh a b (mk s v c d) p q refl)

-- A subtree after one of its children changed by one level and the node was balanced again.
abbrev pub Balanced : ℕ → ℕ → Tree → Type 0
Balanced a b t =
    IsAvl t
    × (max a b ≤ height t)
    × (height t ≤ suc (max a b))
    × ((height t ≡ suc (max a b)) ⊎ (a + 2 ≤ b) ⊎ (b + 2 ≤ a))

module _ (s ls : ℕ) (v lv : Vad) (a b c : Tree) (p : IsAvl a) (q : IsAvl b) (r : IsAvl c) where
  pub Balanced-right :
      Within 1 (height a) (height b)
      → height b ≤ height a
      → suc (height a) ≡ height c + 2
      → Balanced (suc (max (height a) (height b))) (height c) (mk ls lv a (mk s v b c))
  Balanced-right w x y = ground arith

  pub Balanced-left :
      Within 1 (height b) (height c)
      → height b ≤ height c
      → suc (height c) ≡ height a + 2
      → Balanced (height a) (suc (max (height b) (height c))) (mk s v (mk ls lv a b) c)
  Balanced-left w x y = ground arith

module _ (s ls ms : ℕ) (v lv mv : Vad) (a b c d : Tree) (p : IsAvl a) (q : IsAvl b) (r : IsAvl c)
    (t : IsAvl d) where
  pub Balanced-left_right :
      Within 1 (height b) (height c)
      → suc (max (height b) (height c)) ≡ height a + 1
      → height a ≡ height d
      → Balanced
          (suc (max (height a) (suc (max (height b) (height c)))))
          (height d)
          (mk ms mv (mk ls lv a b) (mk s v c d))
  Balanced-left_right w x y = ground arith

  pub Balanced-right_left :
      Within 1 (height b) (height c)
      → suc (max (height b) (height c)) ≡ height d + 1
      → height a ≡ height d
      → Balanced
          (height a)
          (suc (max (suc (max (height b) (height c))) (height d)))
          (mk ms mv (mk ls lv a b) (mk s v c d))
  Balanced-right_left w x y = ground arith
