-- ===== src/Mm/Vad/Order.antt =====
-- Insertion and removal in vad_tree.cpp as operations on the sorted list of entries.
use Prim.Native.Nat.{compare, Ordering}
use nboxkrnl.Prelude.{
  ℕ, ◌<◌, ◌≡◌, refl, ap, sym, ◌∙◌, arith, Bool, true, false, some, List, [], ◌∷◌, ◌++◌, inl, inr,
  compare-cases, map-eq-some, some_inj,
}
use nboxkrnl.Mm.Vad.{Tree, nil, node, Vad, VadType, vad, init, rebalance, insert_node}
use nboxkrnl.Mm.Vad.Entries.{
  Entry, entries, entries-rebalance, starts, AllBelow, AllAbove, AllAbove-mono, IsSorted, IsOrdered,
  IsOrdered-node,
}

-- The specification of an insertion: a new entry at its place, or a new descriptor for its start.
unfoldable pub insert_entry : ℕ → Vad → List Entry → List Entry
insert_entry k v [] = (k, v) ∷ []
insert_entry k v ((j, w) ∷ es) = elim (compare j k) [
  | Ordering.lt ↦ (j, w) ∷ insert_entry k v es
  | Ordering.eq ↦ (j, v) ∷ es
  | Ordering.gt ↦ (k, v) ∷ (j, w) ∷ es
]

module _ (k : ℕ) (v : Vad) where
  pub insert_entry-right :
      (es : List Entry) (j : ℕ) (w : Vad) (fs : List Entry)
      → AllBelow j (starts es)
      → j < k
      → insert_entry k v (es ++ ((j, w) ∷ fs)) ≡ es ++ ((j, w) ∷ insert_entry k v fs)
  unfolding insert_entry
  insert_entry-right [] j w fs b h = ground arith
  insert_entry-right ((i, u) ∷ es) j w fs b h = ground (arith, insert_entry-right es j w fs)

  insert_entry-left :
      (es : List Entry) (j : ℕ) (w : Vad) (fs : List Entry)
      → k < j
      → insert_entry k v (es ++ ((j, w) ∷ fs)) ≡ insert_entry k v es ++ ((j, w) ∷ fs)
  unfolding insert_entry
  insert_entry-left [] j w fs h = ground arith
  insert_entry-left ((i, u) ∷ es) j w fs h = ground (arith, insert_entry-left es j w fs)

  insert_entry-middle :
      (es : List Entry) (j : ℕ) (w : Vad) (fs : List Entry)
      → AllBelow j (starts es)
      → j ≡ k
      → insert_entry k v (es ++ ((j, w) ∷ fs)) ≡ es ++ ((j, v) ∷ fs)
  unfolding insert_entry
  insert_entry-middle [] j w fs b h = ground arith
  insert_entry-middle ((i, u) ∷ es) j w fs b h = ground (arith, insert_entry-middle es j w fs)

-- A successful insertion does to the entries what the specification says.
pub insert_node-entries :
    (allocated : Bool) (t t' : Tree) (start size : ℕ) (type : VadType) (protect : ℕ)
    → IsOrdered t
    → insert_node allocated t start size type protect ≡ some t'
    → entries t' ≡ insert_entry start (vad start size type protect) (entries t)
unfolding insert_node
insert_node-entries true nil t' start size type protect o e =
    unfold init insert_entry in ap entries (sym (some_inj e))
insert_node-entries false nil t' start size type protect o e = ground arith
insert_node-entries allocated (node s v h l r) t' start size type protect o e =
    elim (compare-cases s start) [
      | inl c ↦
          let (r', i, f) =
            map-eq-some (λ x. rebalance (node s v h l x)) _ (rw (c, insert_node) at e) in
          ap entries (sym f)
          ∙ entries-rebalance (node s v h l r')
          ∙ ap (λ es. entries l ++ ((s, v) ∷ es))
              (insert_node-entries allocated r r' start size type protect parts.3 i)
          ∙ sym (insert_entry-right start new (entries l) s v (entries r) parts.0 (ground arith))
      | inr (inl c) ↦
          ap entries (sym (some_inj (rw (c, insert_node) at e)))
          ∙ sym (insert_entry-middle start new (entries l) s v (entries r) parts.0 (ground arith))
      | inr (inr c) ↦
          let (l', i, f) =
            map-eq-some (λ x. rebalance (node s v h x r)) _ (rw (c, insert_node) at e) in
          ap entries (sym f)
          ∙ entries-rebalance (node s v h l' r)
          ∙ ap (λ es. es ++ ((s, v) ∷ entries r))
              (insert_node-entries allocated l l' start size type protect parts.2 i)
          ∙ sym (insert_entry-left start new (entries l) s v (entries r) (ground arith))
    ]
  where
    new : Vad
    new = vad start size type protect

    parts :
        AllBelow s (starts (entries l))
        × AllAbove s (starts (entries r))
        × IsOrdered l
        × IsOrdered r
    parts = IsOrdered-node s v h l r o

AllAbove-insert_entry :
    (j k : ℕ) (v : Vad) (es : List Entry)
    → j < k
    → AllAbove j (starts es)
    → AllAbove j (starts (insert_entry k v es))
unfolding insert_entry
AllAbove-insert_entry j k v [] h a = (h, tt)
AllAbove-insert_entry j k v ((i, w) ∷ es) h a = ground (arith, AllAbove-insert_entry j k v es)

insert_entry-IsSorted :
    (k : ℕ) (v : Vad) (es : List Entry)
    → IsSorted (starts es)
    → IsSorted (starts (insert_entry k v es))
unfolding insert_entry
insert_entry-IsSorted k v [] s = (tt, tt)
insert_entry-IsSorted k v ((j, w) ∷ es) s = ground (
  arith,
  insert_entry-IsSorted k v es,
  AllAbove-insert_entry j k v es,
  AllAbove-mono {i = k} {j = j} (starts es),
)

-- Insertion keeps the search order.
pub insert_node-IsOrdered :
    (allocated : Bool) (t t' : Tree) (start size : ℕ) (type : VadType) (protect : ℕ)
    → IsOrdered t
    → insert_node allocated t start size type protect ≡ some t'
    → IsOrdered t'
insert_node-IsOrdered allocated t t' start size type protect o e =
    rw (insert_node-entries allocated t t' start size type protect o e)
      (insert_entry-IsSorted start (vad start size type protect) (entries t) o)

-- With memory for the node the insertion succeeds.
pub insert_node_total :
    (t : Tree) (start size : ℕ) (type : VadType) (protect : ℕ)
    → (t' : Tree) × (insert_node true t start size type protect ≡ some t')
unfolding insert_node
insert_node_total nil start size type protect = (init start size type protect, refl)
insert_node_total (node s v h l r) start size type protect = elim (compare-cases s start) [
  | inl c ↦
      let (r', e) = insert_node_total r start size type protect in
      (rebalance (node s v h l r'), rw (c, insert_node) (rw e refl))
  | inr (inl c) ↦ (node s (vad start size type protect) h l r, rw (c, insert_node))
  | inr (inr c) ↦
      let (l', e) = insert_node_total l start size type protect in
      (rebalance (node s v h l' r), rw (c, insert_node) (rw e refl))
]
