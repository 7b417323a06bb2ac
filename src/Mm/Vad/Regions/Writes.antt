-- ===== src/Mm/Vad/Regions/Writes.antt =====
-- Reads and writes through a pointer to a node of the tree of vad_tree.cpp, on the list of entries.
use Prim.Native.Nat.{compare, Ordering}
use nboxkrnl.Prelude.{
  ℕ, ◌<◌, ◌≡◌, refl, ap, sym, ◌∙◌, arith, subst, some, none, List, [], ◌∷◌, ◌++◌, inl, inr,
  compare-cases,
}
use nboxkrnl.Mm.Vad.{Tree, nil, node, Vad}
use nboxkrnl.Mm.Vad.Entries.{
  Entry, entries, starts, starts-append, AllBelow, AllAbove, AllAbove-mono, AllBelow-mono, IsSorted,
  IsOrdered, IsOrdered-node, IsSorted-split,
}
use nboxkrnl.Mm.Vad.Removal.{lookup_entry, lookup_entry-middle}
use nboxkrnl.Mm.Vad.Successor.{find_node}
use nboxkrnl.Mm.Vad.Regions.{update_vad, vad_at}

-- The write on the list of entries.
unfoldable pub update_entry : ℕ → (Vad → Vad) → List Entry → List Entry
update_entry k f [] = []
update_entry k f ((j, w) ∷ es) = elim (compare j k) [
  | Ordering.eq ↦ (j, f w) ∷ es
  | _ ↦ (j, w) ∷ update_entry k f es
]

module _ (k : ℕ) (f : Vad → Vad) where
  pub update_entry-right :
      (es fs : List Entry)
      → AllBelow k (starts es)
      → update_entry k f (es ++ fs) ≡ es ++ update_entry k f fs
  unfolding update_entry
  update_entry-right [] fs b = refl
  update_entry-right ((j, w) ∷ es) fs b = ground (arith, update_entry-right es fs)

  update_entry_above : (es : List Entry) → AllAbove k (starts es) → update_entry k f es ≡ es
  unfolding update_entry
  update_entry_above [] a = refl
  update_entry_above ((j, w) ∷ es) a = ground (arith, update_entry_above es)

  update_entry-left :
      (es : List Entry) (j : ℕ) (w : Vad) (fs : List Entry)
      → k < j
      → AllAbove j (starts fs)
      → update_entry k f (es ++ ((j, w) ∷ fs)) ≡ update_entry k f es ++ ((j, w) ∷ fs)
  unfolding update_entry
  update_entry-left [] j w fs h a =
      update_entry_above ((j, w) ∷ fs) (h, AllAbove-mono (starts fs) h a)
  update_entry-left ((i, u) ∷ es) j w fs h a = ground (arith, update_entry-left es j w fs)

  pub update_entry_middle :
      (es : List Entry) (w : Vad) (fs : List Entry)
      → AllBelow k (starts es)
      → update_entry k f (es ++ ((k, w) ∷ fs)) ≡ es ++ ((k, f w) ∷ fs)
  unfolding update_entry
  update_entry_middle es w fs b =
      update_entry-right es ((k, w) ∷ fs) b ∙ ap (◌++◌ es) (ground arith)

  starts-update_entry : (es : List Entry) → starts (update_entry k f es) ≡ starts es
  unfolding update_entry
  starts-update_entry [] = refl
  starts-update_entry ((j, w) ∷ es) = ground (arith, starts-update_entry es)

  -- A write changes the entry of the node and no other.
  pub entries-update_vad :
      (t : Tree) → IsOrdered t → entries (update_vad k f t) ≡ update_entry k f (entries t)
  unfolding update_vad
  entries-update_vad nil o = unfold update_entry in refl
  entries-update_vad (node s v h l r) o =
      let (below, above, p, q) = IsOrdered-node s v h l r o in
      elim (compare-cases s k) [
        | inl c ↦
            rw (c, update_vad)
              (ap (λ es. entries l ++ ((s, v) ∷ es)) (entries-update_vad r q)
                ∙ sym (
                    update_entry-right (entries l) ((s, v) ∷ entries r)
                      (AllBelow-mono (starts (entries l)) below (ground arith))
                    ∙ ap (◌++◌ (entries l)) (unfold update_entry in (ground arith))))
        | inr (inl c) ↦
            let same : s ≡ k = ground arith in
            rw (c, update_vad)
              (sym (
                update_entry-right (entries l) ((s, v) ∷ entries r)
                  (subst (λ j. AllBelow j (starts (entries l))) same below)
                ∙ ap (◌++◌ (entries l)) (unfold update_entry in (ground arith))))
        | inr (inr c) ↦
            rw (c, update_vad)
              (ap (λ es. es ++ ((s, v) ∷ entries r)) (entries-update_vad l p)
                ∙ sym (update_entry-left (entries l) s v (entries r) (ground arith) above))
      ]

  pub update_vad-IsOrdered : (t : Tree) → IsOrdered t → IsOrdered (update_vad k f t)
  update_vad-IsOrdered t o = rw (entries-update_vad t o) (rw (starts-update_entry (entries t)) o)

module _ (k : ℕ) where
  pub lookup_entry-right :
      (es fs : List Entry) → AllBelow k (starts es) → lookup_entry k (es ++ fs) ≡ lookup_entry k fs
  unfolding lookup_entry
  lookup_entry-right [] fs b = refl
  lookup_entry-right ((j, w) ∷ es) fs b = ground (arith, lookup_entry-right es fs)

  pub lookup_entry_above : (es : List Entry) → AllAbove k (starts es) → lookup_entry k es ≡ none
  unfolding lookup_entry
  lookup_entry_above [] a = refl
  lookup_entry_above ((j, w) ∷ es) a = ground (arith, lookup_entry_above es)

  lookup_entry-left :
      (es : List Entry) (j : ℕ) (w : Vad) (fs : List Entry)
      → k < j
      → AllAbove j (starts fs)
      → lookup_entry k (es ++ ((j, w) ∷ fs)) ≡ lookup_entry k es
  unfolding lookup_entry
  lookup_entry-left [] j w fs h a =
      lookup_entry_above ((j, w) ∷ fs) (h, AllAbove-mono (starts fs) h a)
  lookup_entry-left ((i, u) ∷ es) j w fs h a = ground (arith, lookup_entry-left es j w fs)

  -- A read gives the descriptor that the list has for the start.
  vad_at-entries : (t : Tree) → IsOrdered t → vad_at t k ≡ lookup_entry k (entries t)
  unfolding find_node
  vad_at-entries nil o = unfold lookup_entry in refl
  vad_at-entries (node s v h l r) o =
      let (below, above, p, q) = IsOrdered-node s v h l r o in
      elim (compare-cases k s) [
        | inl c ↦
            rw (c, find_node)
              (vad_at-entries l p
                ∙ sym (lookup_entry-left (entries l) s v (entries r) (ground arith) above))
        | inr (inl c) ↦
            let same : s ≡ k = ground arith in
            rw (c, find_node)
              (sym (
                lookup_entry-right (entries l) ((s, v) ∷ entries r)
                  (subst (λ j. AllBelow j (starts (entries l))) same below)
                ∙ unfold lookup_entry in (ground arith)))
        | inr (inr c) ↦
            rw (c, find_node)
              (vad_at-entries r q
                ∙ sym (
                    lookup_entry-right (entries l) ((s, v) ∷ entries r)
                      (AllBelow-mono (starts (entries l)) below (ground arith))
                    ∙ unfold lookup_entry in (ground arith)))
      ]

-- The entries around one of them.
pub IsOrdered-middle :
    (t : Tree) (k : ℕ) (v : Vad) (before after : List Entry)
    → IsOrdered t
    → entries t ≡ before ++ ((k, v) ∷ after)
    → AllBelow k (starts before) × AllAbove k (starts after)
IsOrdered-middle t k v before after o e =
    let (below, above, p, q) =
      IsSorted-split (starts before) k (starts after)
        (subst IsSorted (ap starts e ∙ starts-append before ((k, v) ∷ after)) o) in
    (below, above)

pub vad_at_middle :
    (t : Tree) (k : ℕ) (v : Vad) (before after : List Entry)
    → IsOrdered t
    → entries t ≡ before ++ ((k, v) ∷ after)
    → vad_at t k ≡ some v
vad_at_middle t k v before after o e =
    vad_at-entries k t o
    ∙ ap (lookup_entry k) e
    ∙ lookup_entry-middle k before v after (IsOrdered-middle t k v before after o e).0

pub entries-update_vad_middle :
    (t : Tree) (k : ℕ) (f : Vad → Vad) (v : Vad) (before after : List Entry)
    → IsOrdered t
    → entries t ≡ before ++ ((k, v) ∷ after)
    → entries (update_vad k f t) ≡ before ++ ((k, f v) ∷ after)
entries-update_vad_middle t k f v before after o e =
    entries-update_vad k f t o
    ∙ ap (update_entry k f) e
    ∙ update_entry_middle k f before v after (IsOrdered-middle t k v before after o e).0
