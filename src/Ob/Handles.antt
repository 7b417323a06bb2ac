-- ===== src/Ob/Handles.antt =====
-- The handle table of nboxkrnl/ob/obp.cpp. A handle and a pointer are words below 2 ^ 32. The entry of a
-- handle is at the index handle / 4 of the tables in a row, 64 to a table; a handle that is no multiple
-- of 4 is left out. `none` is an entry behind a pointer of RootTable that is not valid, and a read of it
-- is a fault. The lock only raises the IRQL, so each operation is one step.
pub mod FreeList
pub mod Uses
pub mod Operations
pub mod History
mod Examples
use nboxkrnl.Prelude.{
  ℕ, zero, suc, ◌+◌, ◌-◌, ◌*◌, ◌/◌, ◌%◌, ◌^◌, Bool, true, false, Option, none, some, ltb, ◌==◌,
  ◌&&◌, ◌||◌, not, if◌then◌else◌,
}
use nboxkrnl.Prelude.Words.{increment, decrement}

pub record HandleTable : Type 0 where
  pub handle_count : ℕ
  pub first_free : ℕ
  pub next_needing_pool : ℕ
  pub entries : ℕ → Option ℕ

abbrev pub write : (ℕ → Option ℕ) → ℕ → ℕ → ℕ → Option ℕ
write f i x j = if j == i then some x else f j

-- `Handle & ~1`.
abbrev pub decode_free : ℕ → ℕ
decode_free x = x - x % 2

abbrev pub is_free : ℕ → Bool
is_free x = x % 2 == 1

abbrev pub is_on_segment_boundary : ℕ → Bool
is_on_segment_boundary handle = handle % 2048 == 0

-- The new RootTable: `memcpy` copies as many bytes as there were segments, so a quarter as many pointers
-- to tables.
unfoldable pub move_root : ℕ → (ℕ → Option ℕ) → ℕ → Option ℕ
move_root next old i =
    let old_table_size = next / 256 / 8 in if ltb (i / 64) (old_table_size / 4) then old i else none

-- The loop that links the free entries, from the index `i` on.
unfoldable pub link_free : ℕ → ℕ → ℕ → (ℕ → Option ℕ) → (ℕ → Option ℕ) × ℕ
link_free zero i next_free f = (f, next_free)
link_free (suc n) i next_free f = link_free n (i + 1) (next_free + 4) (write f i next_free)

-- `ObpAllocateNewHandleTable` with its table and, where it takes one, its root table allocated.
unfoldable pub add_table : HandleTable → (ℕ → Option ℕ) → HandleTable
add_table t root =
    let base = t.next_needing_pool / 4 in
    let (linked, next_free) = link_free 63 base (t.next_needing_pool + 1 + 4) root in
    record t {
      entries = write linked (base + 63) (2 ^ 32 - 1);
      first_free = t.next_needing_pool;
      next_needing_pool = decode_free next_free;
    }

-- The two Boolean arguments say whether the pool has memory for a table and for a root table.
unfoldable pub allocate_new_handle_table : Bool → Bool → HandleTable → HandleTable × Bool
allocate_new_handle_table has_table has_root t =
    if not has_table
    then (t, false)
    else if is_on_segment_boundary t.next_needing_pool
    then (if not has_root
        then (t, false)
        else (add_table t (move_root t.next_needing_pool t.entries), true))
    else (add_table t t.entries, true)

abbrev take_entry : HandleTable → ℕ → Option ℕ → Option (HandleTable × ℕ)
take_entry t object none = none
take_entry t object (some x) = some (
  record t {
    first_free = decode_free x;
    entries = write t.entries (t.first_free / 4) object;
    handle_count = increment t.handle_count;
  },
  t.first_free,
)

-- What `ObpCreateHandleForObject` does once there is a free entry; the handle count of the object is
-- left to the caller.
unfoldable pub create_handle : HandleTable → ℕ → Option (HandleTable × ℕ)
create_handle t object = take_entry t object (t.entries (t.first_free / 4))

-- `ObpCreateHandleForObject`. `none` is a fault, and the handle 0 is NULL_HANDLE.
unfoldable pub create_handle_for_object : Bool → Bool → HandleTable → ℕ → Option (HandleTable × ℕ)
create_handle_for_object has_table has_root t object =
    if t.first_free == 2 ^ 32 - 1
    then (let (grown, done) = allocate_new_handle_table has_table has_root t in
        if not done then some (grown, 0) else create_handle grown object)
    else create_handle t object

abbrev give_back : HandleTable → ℕ → Option ℕ → Option (HandleTable × ℕ)
give_back t handle none = none
give_back t handle (some object) =
    if not (object == 0) && not (is_free object)
    then some (
      record t {
        entries = write t.entries (handle / 4) t.first_free;
        first_free = handle;
        handle_count = decrement t.handle_count;
      },
      object,
    )
    else some (t, 0)

unfoldable pub destroy_object_handle : HandleTable → ℕ → Option (HandleTable × ℕ)
destroy_object_handle t handle =
    if ltb handle t.next_needing_pool
    then give_back t handle (t.entries (handle / 4))
    else some (t, 0)

abbrev object_of : Option ℕ → Option ℕ
object_of none = none
object_of (some object) = if not (object == 0) && not (is_free object) then some object else some 0

unfoldable pub get_object_from_handle : HandleTable → ℕ → Option ℕ
get_object_from_handle t handle =
    if ltb handle t.next_needing_pool then object_of (t.entries (handle / 4)) else some 0

-- The part of `ObInitSystem` in front of the permanent objects.
unfoldable pub init_system : Bool → Bool → HandleTable × Bool
init_system has_table has_root =
    let empty : HandleTable = record {
      handle_count = 0;
      first_free = 2 ^ 32 - 1;
      next_needing_pool = 0;
      entries = λ i. none;
    } in
    let (t, done) = allocate_new_handle_table has_table has_root empty in
    if not done
    then (t, false)
    else (record t { entries = write t.entries 0 0; first_free = 4 }, true)
