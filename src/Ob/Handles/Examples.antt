-- ===== src/Ob/Handles/Examples.antt =====
-- A history of handles: two are made, and the first is closed.
use nboxkrnl.Prelude.{
  ℕ, ◌*◌, ◌≤◌, ◌<◌, ◌≡◌, ◌⊎◌, refl, arith, true, none, some, [], ◌∷◌, length, NotIn, AreDistinct,
}
use nboxkrnl.Ob.Handles.{
  HandleTable, init_system, create_handle_for_object, destroy_object_handle, get_object_from_handle,
  allocate_new_handle_table, add_table, link_free,
}
use nboxkrnl.Ob.Handles.Uses.{Uses, indices}
use nboxkrnl.Ob.Handles.Operations.{create_first, taken}
use nboxkrnl.Ob.Handles.History.{
  Reachable, at_start, then_step, makes, AreFound, Reachable-AreFound,
  Reachable-create_handle_for_object, destroy_object_handle-get_object_from_handle,
}

abbrev start : HandleTable
start = (init_system true true).0

abbrev one : HandleTable
one = taken start 1 9 0x80010000

abbrev two : HandleTable
two = taken one 2 13 0x80020000

abbrev uses : Uses
uses = (2, 0x80020000) ∷ (1, 0x80010000) ∷ []

start_entry : start.entries 1 ≡ some 9
unfolding init_system allocate_new_handle_table add_table link_free
start_entry = refl

one_entry : one.entries 2 ≡ some 13
unfolding init_system allocate_new_handle_table add_table link_free
one_entry = refl

makes_one : create_handle_for_object true true start 0x80010000 ≡ some (one, 4)
unfolding init_system allocate_new_handle_table
makes_one = create_first start true true 0x80010000 1 9 refl start_entry (omega arith)

makes_two : create_handle_for_object true true one 0x80020000 ≡ some (two, 8)
makes_two = create_first one true true 0x80020000 2 13 refl one_entry (omega arith)

two-Reachable : Reachable (two, uses)
two-Reachable =
    then_step
      (then_step at_start (makes start one [] true true 0x80010000 4 (omega arith) makes_one))
      (makes one two ((1, 0x80010000) ∷ []) true true 0x80020000 8 (omega arith) makes_two)

Reachable-AreFound_example :
    AreFound two uses
    × AreDistinct (indices uses)
    × (two.handle_count ≡ length uses)
    × (length uses ≤ 63)
Reachable-AreFound_example = Reachable-AreFound two uses two-Reachable

Reachable-create_handle_for_object_example :
    (length uses < 63)
      × ((t' : HandleTable) × (i : ℕ) × (create_handle_for_object true true two 0x80030000
            ≡ some (t', i * 4))
          × NotIn i (indices uses))
    ⊎ (length uses ≡ 63) × (create_handle_for_object true true two 0x80030000 ≡ none)
Reachable-create_handle_for_object_example =
    Reachable-create_handle_for_object two uses true true 0x80030000 two-Reachable

destroy_object_handle-get_object_from_handle_example :
    (t' : HandleTable) × (destroy_object_handle two 8 ≡ some (t', 0x80020000))
    × (get_object_from_handle t' 8 ≡ some two.first_free)
    × (0 < two.first_free)
destroy_object_handle-get_object_from_handle_example =
    destroy_object_handle-get_object_from_handle two ((1, 0x80010000) ∷ []) 2 0x80020000
      two-Reachable
