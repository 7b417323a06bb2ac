-- ===== src/Ob/Handles/Operations.antt =====
-- What the operations of the handle table of nboxkrnl/ob/obp.cpp do to a free list, and the table that
-- `ObInitSystem` makes.
use nboxkrnl.Prelude.{
  ℕ, ◌+◌, ◌-◌, ◌*◌, ◌/◌, ◌%◌, ◌^◌, ◌≤◌, ◌<◌, ◌≡◌, ◌≢◌, refl, ap, sym, ◌∙◌, arith, Bool, true, false,
  Option, none, some, List, [], ◌∷◌, NotIn, ltb, ◌==◌,
}
use nboxkrnl.Prelude.Words.{increment, decrement}
use nboxkrnl.Ob.Handles.{
  HandleTable, write, decode_free, link_free, create_handle, create_handle_for_object,
  destroy_object_handle, take_entry, init_system, add_table, allocate_new_handle_table, move_root,
}
use nboxkrnl.Ob.Handles.FreeList.{IsChain, link_free_at, link_free_above}
use nboxkrnl.Ob.Handles.Uses.{IsPointer}

pub none-some : {A : Type 0} {a : A} → none ≡ some a → ⊥
none-some e = ground arith

pub not_last :
    (f : ℕ → Option ℕ) (first : ℕ) (is : List ℕ) → IsChain f first is → first ≢ 2 ^ 32 - 1
not_last f first [] c e = omega (arith, c)
not_last f first (i ∷ is) c e = omega (arith, c.0, c.1)

pub not_zero :
    (f : ℕ → Option ℕ) (first : ℕ) (is : List ℕ) → IsChain f first is → NotIn 0 is → 0 < first
not_zero f first [] c n = omega (arith, c)
not_zero f first (i ∷ is) c n = grind (arith, c.0, n.0)

pub is_below :
    (i : ℕ) (t : HandleTable)
    → t.next_needing_pool ≡ 256
    → i < 64
    → ltb (i * 4) t.next_needing_pool ≡ true
is_below i t m l = ground arith

pub is_even : (f : ℕ → Option ℕ) (first : ℕ) (is : List ℕ) → IsChain f first is → first % 2 ≡ 0
is_even f first [] c = omega (arith, c)
is_even f first (i ∷ is) c = omega (arith, c.0)

abbrev pub taken : HandleTable → ℕ → ℕ → ℕ → HandleTable
taken t i x o = record t {
  first_free = decode_free x;
  entries = write t.entries i o;
  handle_count = increment t.handle_count;
}

pub create_first :
    (t : HandleTable) (a b : Bool) (o i x : ℕ)
    → t.first_free ≡ i * 4
    → t.entries i ≡ some x
    → i < 64
    → create_handle_for_object a b t o ≡ some (taken t i x o, i * 4)
unfolding create_handle_for_object create_handle
create_first t a b o i x e r l =
    let c : t.first_free == 2 ^ 32 - 1 ≡ false = ground arith in
    let d : t.first_free / 4 ≡ i = omega arith in
    rw (c, create_handle_for_object)
      (ap (take_entry t o) (ap t.entries d ∙ r)
        ∙ ap
            (λ k. some (
              record t {
                first_free = decode_free x;
                entries = write t.entries k o;
                handle_count = increment t.handle_count;
              },
              t.first_free,
            ))
            d
        ∙ ap (λ k. some (taken t i x o, k)) e)

pub create_none :
    (t : HandleTable) (a b : Bool) (o : ℕ)
    → t.first_free ≡ 2 ^ 32 - 2
    → ((j : ℕ) → 64 ≤ j → t.entries j ≡ none)
    → create_handle_for_object a b t o ≡ none
unfolding create_handle_for_object create_handle
create_none t a b o e outside =
    let c : t.first_free == 2 ^ 32 - 1 ≡ false = ground arith in
    rw (c, create_handle_for_object) (rw (outside (t.first_free / 4) (omega arith)) refl)

pub destroy_used :
    (t : HandleTable) (i o : ℕ)
    → t.next_needing_pool ≡ 256
    → i < 64
    → t.entries i ≡ some o
    → IsPointer o
    → destroy_object_handle t (i * 4)
      ≡ some (
        record t {
          entries = write t.entries i t.first_free;
          first_free = i * 4;
          handle_count = decrement t.handle_count;
        },
        o,
      )
unfolding destroy_object_handle
destroy_used t i o n l e p =
    let c = is_below i t n l in
    let d : i * 4 / 4 ≡ i = omega arith in
    rw (c, destroy_object_handle) (rw (d, e) (ground (arith, p)))

pub start_entry : (j : ℕ) → 0 < j → j < 63 → (init_system true true).0.entries j ≡ some (5 + 4 * j)
unfolding init_system allocate_new_handle_table add_table
start_entry j p l =
    let at = link_free_at 63 0 5 j (move_root 0 (λ i. none)) l in
    let zero_plus : 0 + j ≡ j = omega arith in
    let here = ap (link_free 63 0 5 (move_root 0 (λ i. none))).0 (sym zero_plus) ∙ at in
    ground (arith, here)

-- Entries behind the first table are not valid.
pub start_outside : (j : ℕ) → 64 ≤ j → (init_system true true).0.entries j ≡ none
unfolding init_system allocate_new_handle_table add_table move_root
start_outside j l =
    let kept = link_free_above 63 0 5 j (move_root 0 (λ i. none)) (omega arith) in
    let gone : move_root 0 (λ i. none) j ≡ none = ground arith in ground (arith, kept, gone)
