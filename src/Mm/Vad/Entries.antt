-- ===== src/Mm/Vad/Entries.antt =====
-- The tree of vad_tree.cpp as a list of entries in the order of their start addresses, and what
-- the operations do to that list.
use nboxkrnl.Prelude.{ℕ, ◌≤◌, ◌<◌, ◌≡◌, refl, ap, ◌∙◌, arith, List, [], ◌∷◌, ◌++◌, append_assoc}
use nboxkrnl.Prelude.Int.{ℤ}
use nboxkrnl.Mm.Vad.{
  Tree, nil, node, Vad, update_height, rotate_l, rotate_r, rotate_lr, rotate_rl, restore_balance,
  rebalance,
}

abbrev pub Entry : Type 0
Entry = ℕ × Vad

abbrev pub entries : Tree → List Entry
entries nil = []
entries (node s v h l r) = entries l ++ ((s, v) ∷ entries r)

-- Balancing changes no entry.
entries-update_height : (t : Tree) → entries (update_height t) ≡ entries t
unfolding update_height
entries-update_height nil = refl
entries-update_height (node s v h l r) = refl

entries-rotate_l : (t : Tree) → entries (rotate_l t) ≡ entries t
unfolding rotate_l update_height
entries-rotate_l nil = refl
entries-rotate_l (node s v h l nil) = refl
entries-rotate_l (node s v h l (node rs rv rh rl rr)) = simp append_assoc

entries-rotate_r : (t : Tree) → entries (rotate_r t) ≡ entries t
unfolding rotate_r update_height
entries-rotate_r nil = refl
entries-rotate_r (node s v h nil r) = refl
entries-rotate_r (node s v h (node ls lv lh ll lr) r) = simp append_assoc

entries-rotate_lr : (t : Tree) → entries (rotate_lr t) ≡ entries t
unfolding rotate_lr
entries-rotate_lr nil = refl
entries-rotate_lr (node s v h l r) =
    entries-rotate_r (node s v h (rotate_l l) r)
    ∙ ap (λ es. es ++ ((s, v) ∷ entries r)) (entries-rotate_l l)

entries-rotate_rl : (t : Tree) → entries (rotate_rl t) ≡ entries t
unfolding rotate_rl
entries-rotate_rl nil = refl
entries-rotate_rl (node s v h l r) =
    entries-rotate_l (node s v h l (rotate_r r))
    ∙ ap (λ es. entries l ++ ((s, v) ∷ es)) (entries-rotate_r r)

entries-restore_balance : (t : Tree) → entries (restore_balance t) ≡ entries t
unfolding restore_balance
entries-restore_balance nil = refl
entries-restore_balance (node s v h l r) =
    let t = node s v h l r in
    ground (arith, entries-rotate_l t, entries-rotate_r t, entries-rotate_lr t, entries-rotate_rl t)

pub entries-rebalance : (t : Tree) → entries (rebalance t) ≡ entries t
unfolding rebalance
entries-rebalance t = entries-restore_balance (update_height t) ∙ entries-update_height t

abbrev pub starts : List Entry → List ℕ
starts [] = []
starts ((k, w) ∷ es) = k ∷ starts es

pub starts-append : (es fs : List Entry) → starts (es ++ fs) ≡ starts es ++ starts fs
starts-append [] fs = refl
starts-append ((k, w) ∷ es) fs = ap (λ ks. k ∷ ks) (starts-append es fs)

abbrev pub AllBelow : ℕ → List ℕ → Type 0
AllBelow k [] = Unit {0}
AllBelow k (j ∷ js) = (j < k) × AllBelow k js

abbrev pub AllAbove : ℕ → List ℕ → Type 0
AllAbove k [] = Unit {0}
AllAbove k (j ∷ js) = (k < j) × AllAbove k js

-- Strictly increasing.
abbrev pub IsSorted : List ℕ → Type 0
IsSorted [] = Unit {0}
IsSorted (j ∷ js) = AllAbove j js × IsSorted js

-- The search order of the tree.
abbrev pub IsOrdered : Tree → Type 0
IsOrdered t = IsSorted (starts (entries t))

pub AllAbove-mono : {i j : ℕ} (ks : List ℕ) → i < j → AllAbove j ks → AllAbove i ks
AllAbove-mono [] h a = tt
AllAbove-mono (k ∷ ks) h a = (omega arith, AllAbove-mono ks h a.1)

pub AllAbove-append :
    (j : ℕ) (is ks : List ℕ) → AllAbove j (is ++ ks) → AllAbove j is × AllAbove j ks
AllAbove-append j [] ks a = (tt, a)
AllAbove-append j (i ∷ is) ks a = let (p, q) = AllAbove-append j is ks a.1 in ((a.0, p), q)

-- A sorted list around one of its entries.
pub IsSorted-split :
    (is : List ℕ) (k : ℕ) (js : List ℕ)
    → IsSorted (is ++ (k ∷ js))
    → AllBelow k is × AllAbove k js × IsSorted is × IsSorted js
IsSorted-split [] k js s = (tt, s.0, tt, s.1)
IsSorted-split (i ∷ is) k js s =
    let (b, a, p, q) = IsSorted-split is k js s.1 in
    let above = AllAbove-append i is (k ∷ js) s.0 in ((above.1.0, b), a, (above.0, p), q)

-- The children of a node of an ordered tree.
pub IsOrdered-node :
    (s : ℕ) (v : Vad) (h : ℤ) (l r : Tree)
    → IsOrdered (node s v h l r)
    → AllBelow s (starts (entries l)) × AllAbove s (starts (entries r)) × IsOrdered l × IsOrdered r
IsOrdered-node s v h l r o =
    IsSorted-split (starts (entries l)) s (starts (entries r))
      (rw (starts-append (entries l) ((s, v) ∷ entries r)) at o)

pub AllBelow-mono : {i j : ℕ} (ks : List ℕ) → AllBelow i ks → i < j → AllBelow j ks
AllBelow-mono [] a h = tt
AllBelow-mono (k ∷ ks) a h = (omega arith, AllBelow-mono ks a.1 h)

pub AllBelow-append :
    (k : ℕ) (is js : List ℕ) → AllBelow k (is ++ js) → AllBelow k is × AllBelow k js
AllBelow-append k [] js a = (tt, a)
AllBelow-append k (i ∷ is) js a = let (p, q) = AllBelow-append k is js a.1 in ((a.0, p), q)

pub AllBelow-node :
    (k s : ℕ) (v : Vad) (h : ℤ) (l r : Tree)
    → AllBelow k (starts (entries (node s v h l r)))
    → AllBelow k (starts (entries l)) × (s < k) × AllBelow k (starts (entries r))
AllBelow-node k s v h l r b =
    let (p, q) =
      AllBelow-append k (starts (entries l)) (s ∷ starts (entries r))
        (rw (starts-append (entries l) ((s, v) ∷ entries r)) at b) in
    (p, q.0, q.1)

pub AllBelow-le : {i j : ℕ} (ks : List ℕ) → i ≤ j → AllBelow i ks → AllBelow j ks
AllBelow-le [] h a = tt
AllBelow-le (k ∷ ks) h a = (omega arith, AllBelow-le ks h a.1)

pub AllAbove-node :
    (k s : ℕ) (v : Vad) (h : ℤ) (l r : Tree)
    → AllAbove k (starts (entries (node s v h l r)))
    → AllAbove k (starts (entries l)) × (k < s) × AllAbove k (starts (entries r))
AllAbove-node k s v h l r b =
    let (p, q) =
      AllAbove-append k (starts (entries l)) (s ∷ starts (entries r))
        (rw (starts-append (entries l) ((s, v) ∷ entries r)) at b) in
    (p, q.0, q.1)
