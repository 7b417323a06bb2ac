-- ===== src/Mm/Vad/Regions/Splits.antt =====
-- `SplitVAD` of vad_tree.cpp on the list of entries, with and without memory for the new node.
use nboxkrnl.Prelude.{
  Bool, if◌then◌else◌, true, false, ℕ, ◌+◌, ◌-◌, ◌^◌, ◌≤◌, ◌<◌, ◌≡◌, refl, ap, ◌∙◌, arith, some,
  none, List, [], ◌∷◌, ◌++◌,
}
use nboxkrnl.Mm.Vad.{Tree, Vad, vad, insert_vad_node}
use nboxkrnl.Mm.Vad.Entries.{AllBelow-mono, Entry, entries, starts, AllBelow, AllAbove, IsOrdered}
use nboxkrnl.Mm.Vad.Order.{
  insert_entry, insert_entry-right, insert_node-entries, insert_node-IsOrdered, insert_node_total,
}
use nboxkrnl.Mm.Vad.Removal.{lookup_entry}
use nboxkrnl.Mm.Vad.History.{insert_vad_node_no_memory}
use nboxkrnl.Mm.Vad.Regions.{split_vad, update_vad, set_size, add, sub, insert_at}
use nboxkrnl.Mm.Vad.Regions.Writes.{
  IsOrdered-middle, vad_at_middle, entries-update_vad_middle, update_vad-IsOrdered,
  lookup_entry-right, lookup_entry_above,
}

insert_entry_above :
    (k : ℕ) (w : Vad) (es : List Entry) → AllAbove k (starts es) → insert_entry k w es ≡ (k, w) ∷ es
unfolding insert_entry
insert_entry_above k w [] a = refl
insert_entry_above k w ((j, u) ∷ es) a = ground arith

-- The part of a region behind an offset.
abbrev pub upper : ℕ → ℕ → Vad → Vad
upper s offset v = vad (s + offset) (v.m_size - offset) v.m_type v.m_protect

module _ (root : Tree) (s offset : ℕ) (v : Vad) (before after : List Entry) (o : IsOrdered root)
    (e : entries root ≡ before ++ ((s, v) ∷ after)) (start : v.m_start ≡ s) (p : 0 < offset)
    (q : offset < v.m_size) (a : AllAbove (s + offset) (starts after))
    (b : s + v.m_size ≤ 2 ^ 32) where
  lowered :
      entries (update_vad s (set_size offset) root) ≡ before ++ ((s, set_size offset v) ∷ after)
  lowered = entries-update_vad_middle root s (set_size offset) v before after o e

  lowered-IsOrdered : IsOrdered (update_vad s (set_size offset) root)
  lowered-IsOrdered = update_vad-IsOrdered s (set_size offset) root o

  split_to_insert :
      (allocated : Bool)
      → split_vad allocated root s offset
        ≡ some (
            insert_at allocated
              (update_vad s (set_size offset) root)
              (s + offset)
              (v.m_size - offset)
              v.m_type
              v.m_protect)
  unfolding split_vad
  split_to_insert allocated =
      let above : add v.m_start offset ≡ s + offset = omega arith in
      let rest : sub v.m_size offset ≡ v.m_size - offset = omega arith in
      rw (vad_at_middle root s v before after o e, split_vad) (rw (above, rest) refl)

  -- With memory for the new node the region is cut in two.
  pub split_vad_lem :
      (root' : Tree) × (split_vad true root s offset ≡ some (root', some (s + offset)))
      × IsOrdered root'
      × (entries root'
          ≡ before ++ ((s, set_size offset v) ∷ (s + offset, upper s offset v) ∷ after))
  split_vad_lem =
      let (root', i) =
        insert_node_total (update_vad s (set_size offset) root) (s + offset) (v.m_size - offset)
          v.m_type v.m_protect in
      (
        root',
        split_to_insert true ∙ unfold insert_vad_node in (rw (i, insert_vad_node) refl),
        insert_node-IsOrdered true _ root' _ _ _ _ lowered-IsOrdered i,
        insert_node-entries true _ root' _ _ _ _ lowered-IsOrdered i
            ∙ ap (insert_entry (s + offset) (upper s offset v)) lowered
            ∙ insert_entry-right (s + offset) (upper s offset v) before s (set_size offset v) after
                (IsOrdered-middle root s v before after o e).0 (omega arith)
            ∙ ap (λ es. before ++ ((s, set_size offset v) ∷ es))
                (insert_entry_above (s + offset) (upper s offset v) after a),
      )

  fresh : lookup_entry (s + offset) (before ++ ((s, set_size offset v) ∷ after)) ≡ none
  fresh =
      let below : AllBelow (s + offset) (starts before) =
        AllBelow-mono (starts before) (IsOrdered-middle root s v before after o e).0
          (omega arith) in
      lookup_entry-right (s + offset) before ((s, set_size offset v) ∷ after) below
      ∙ unfold lookup_entry in (ground (arith, lookup_entry_above (s + offset) after a))

  -- Without memory only the size of the region is changed.
  pub split_vad_no_memory :
      split_vad false root s offset ≡ some (update_vad s (set_size offset) root, none)
  split_vad_no_memory =
      split_to_insert false
      ∙ ap (λ x. some (x.0, if x.1 then some (s + offset) else none))
          (insert_vad_node_no_memory _ _ _ _ _ (ap (lookup_entry (s + offset)) lowered ∙ fresh))
